-- ===== src/Utils/Address.antt =====
-- Equality of addresses, as `=` on INET and `==` on the texts of addresses decide it.
use pybmpmon.Base.{ℕ, refl, ap, List, [], ◌∷◌, Option, none, some}
use native.Mathlib.Decide.{ℕ_discrete}
use pybmpmon.Utils.Binary.{IpAddress, ipv4, ipv6}

unfoldable pub same_bytes : Discrete (List ℕ)
same_bytes [] [] = yes refl
same_bytes [] (y ∷ ys) = no (λ e. cc)
same_bytes (x ∷ xs) [] = no (λ e. cc)
same_bytes (x ∷ xs) (y ∷ ys) = elim (ℕ_discrete x y) [
  | no n ↦ no (λ e. n (cc))
  | yes p ↦ elim (same_bytes xs ys) [ yes q ↦ yes (cc) | no n ↦ no (λ e. n (cc)) ]
]

-- Two addresses of one class with the same bytes.
unfoldable pub same_address : Discrete IpAddress
unfolding same_bytes
same_address (ipv4 xs) (ipv4 ys) = elim (same_bytes xs ys) [
  | yes p ↦ yes (ap ipv4 p)
  | no n ↦ no (λ e. n (cc))
]
same_address (ipv4 xs) (ipv6 ys) = no (λ e. cc)
same_address (ipv6 xs) (ipv4 ys) = no (λ e. cc)
same_address (ipv6 xs) (ipv6 ys) = elim (same_bytes xs ys) [
  | yes p ↦ yes (ap ipv6 p)
  | no n ↦ no (λ e. n (cc))
]

unfoldable pub same_option : {A : Type 0} → Discrete A → Discrete (Option A)
same_option d none none = yes refl
same_option d none (some b) = no (λ e. cc)
same_option d (some a) none = no (λ e. cc)
same_option d (some a) (some b) = elim (d a b) [ yes p ↦ yes (ap some p) | no n ↦ no (λ e. n (cc)) ]

-- The texts that name a peer; there is none for "unknown".
abbrev pub same_peer : Discrete (Option IpAddress)
same_peer = same_option same_address
