-- ===== src/Database/RouteState/Keys.antt =====
-- What tells the rows of route_state apart, and its equality.
use pybmpmon.Base.{ℕ, refl, ap, ◌∙◌, List, Option}
use native.Mathlib.Decide.{ℕ_discrete}
use pybmpmon.Utils.Binary.{IpAddress}
use pybmpmon.Utils.Address.{same_address, same_bytes, same_option}
use pybmpmon.Protocol.Bgp.{Cidr, RouteDistinguisher, number_value, ip_value, hex}
use pybmpmon.Monitoring.PeerStats.{Family, ipv4_unicast, ipv6_unicast, evpn, other_family}

-- The peers and the family; the prefix, the RD, the ESI and the MAC address.
abbrev pub Key : Type 0
Key =
    (IpAddress × (IpAddress × Family))
    × (Option Cidr × (Option RouteDistinguisher × (Option (List ℕ) × Option (List ℕ))))

same_family : Discrete Family
same_family ipv4_unicast ipv4_unicast = yes refl
same_family ipv4_unicast ipv6_unicast = no (λ e. cc)
same_family ipv4_unicast evpn = no (λ e. cc)
same_family ipv4_unicast other_family = no (λ e. cc)
same_family ipv6_unicast ipv4_unicast = no (λ e. cc)
same_family ipv6_unicast ipv6_unicast = yes refl
same_family ipv6_unicast evpn = no (λ e. cc)
same_family ipv6_unicast other_family = no (λ e. cc)
same_family evpn ipv4_unicast = no (λ e. cc)
same_family evpn ipv6_unicast = no (λ e. cc)
same_family evpn evpn = yes refl
same_family evpn other_family = no (λ e. cc)
same_family other_family ipv4_unicast = no (λ e. cc)
same_family other_family ipv6_unicast = no (λ e. cc)
same_family other_family evpn = no (λ e. cc)
same_family other_family other_family = yes refl

same_cidr : Discrete Cidr
same_cidr a b = elim (same_address a.address b.address) [
  | no n ↦ no (λ e. n (ap (λ (c : Cidr). c.address) e))
  | yes p ↦ elim (ℕ_discrete a.prefix_len b.prefix_len) [
    | no n ↦ no (λ e. n (ap (λ (c : Cidr). c.prefix_len) e))
    | yes q ↦ yes (
        ap (λ (x : IpAddress). record { address = x; prefix_len = a.prefix_len }) p
        ∙ ap (λ (n : ℕ). record { address = b.address; prefix_len = n }) q)
  ]
]

same_rd : Discrete RouteDistinguisher
same_rd (number_value a m) (number_value b n) = elim (ℕ_discrete a b) [
  | no k ↦ no (λ e. k (cc))
  | yes p ↦ elim (ℕ_discrete m n) [ yes q ↦ yes (cc) | no k ↦ no (λ e. k (cc)) ]
]
same_rd (number_value a m) (ip_value b n) = no (λ e. cc)
same_rd (number_value a m) (hex b) = no (λ e. cc)
same_rd (ip_value a m) (number_value b n) = no (λ e. cc)
same_rd (ip_value a m) (ip_value b n) = elim (same_address a b) [
  | no k ↦ no (λ e. k (cc))
  | yes p ↦ elim (ℕ_discrete m n) [ yes q ↦ yes (cc) | no k ↦ no (λ e. k (cc)) ]
]
same_rd (ip_value a m) (hex b) = no (λ e. cc)
same_rd (hex a) (number_value b n) = no (λ e. cc)
same_rd (hex a) (ip_value b n) = no (λ e. cc)
same_rd (hex a) (hex b) = elim (same_bytes a b) [ yes p ↦ yes (cc) | no k ↦ no (λ e. k (cc)) ]

same_pair : {A B : Type 0} → Discrete A → Discrete B → Discrete (A × B)
same_pair d e (a, b) (a', b') = elim (d a a') [
  | no n ↦ no (λ p. n (ap (λ q. q.0) p))
  | yes p ↦ elim (e b b') [
    | no n ↦ no (λ q. n (ap (λ r. r.1) q))
    | yes q ↦ yes (ap (λ x. (x, b)) p ∙ ap (λ y. (a', y)) q)
  ]
]

unfoldable pub same_key : Discrete Key
unfolding same_pair same_family same_cidr same_rd
same_key = same_pair (same_pair same_address (same_pair same_address same_family)) (
    same_pair (same_option same_cidr) (
      same_pair (same_option same_rd)
        (same_pair (same_option same_bytes) (same_option same_bytes))))
