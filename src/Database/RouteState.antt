-- ===== src/Database/RouteState.antt =====
-- The stored function update_route_state of
-- src/pybmpmon/database/migrations/005_add_route_state_tracking.sql, which the batch writer calls for
-- each route of a batch.
pub mod Keys
pub mod Laws
pub mod History
mod Examples
use pybmpmon.Base.{
  ℕ, ◌+◌, Bool, true, false, not, List, [], ◌∷◌, ◌++◌, Option, none, some, if◌then◌else◌,
}
use pybmpmon.Utils.Binary.{IpAddress}
use pybmpmon.Protocol.Bgp.{Cidr, Community, ExtendedCommunity, RouteDistinguisher}
use pybmpmon.Monitoring.PeerStats.{Family, ipv4_unicast, ipv6_unicast, evpn, other_family}
use pybmpmon.Models.Route.{RouteUpdate}
use pybmpmon.Database.RouteState.Keys.{Key, same_key}

-- The attributes that an announcement sets; the last four only for EVPN.
pub record Attributes : Type 0 where
  pub next_hop : Option IpAddress
  pub as_path : Option (List ℕ)
  pub communities : Option (List Community)
  pub extended_communities : Option (List ExtendedCommunity)
  pub med : Option ℕ
  pub local_pref : Option ℕ

-- A row of route_state. An EVPN row is found by its RD, ESI and MAC address, so that setting them
-- again changes nothing.
pub record RouteState : Type 0 where
  pub bmp_peer_ip : IpAddress
  pub bgp_peer_ip : IpAddress
  pub family : Family
  pub prefix : Option Cidr
  pub first_seen : ℕ
  pub last_seen : ℕ
  pub last_state_change : ℕ
  pub is_withdrawn : Bool
  pub learn_count : ℕ
  pub withdraw_count : ℕ
  pub attributes : Attributes
  pub evpn_route_type : Option ℕ
  pub evpn_rd : Option RouteDistinguisher
  pub evpn_esi : Option (List ℕ)
  pub mac_address : Option (List ℕ)

-- What the WHERE clauses compare: for IP routes the prefix, which must not be NULL, for EVPN routes
-- the EVPN columns too, and there is none for any other family.
abbrev ip_key : IpAddress → IpAddress → Family → Option Cidr → Option Key
ip_key bmp_peer_ip bgp_peer_ip family none = none
ip_key bmp_peer_ip bgp_peer_ip family (some prefix) =
    some ((bmp_peer_ip, (bgp_peer_ip, family)), (some prefix, (none, (none, none))))

abbrev key_by :
    IpAddress
    → IpAddress
    → Family
    → Option Cidr
    → Option RouteDistinguisher
    → Option (List ℕ)
    → Option (List ℕ)
    → Option Key
key_by bmp_peer_ip bgp_peer_ip ipv4_unicast prefix rd esi mac =
    ip_key bmp_peer_ip bgp_peer_ip ipv4_unicast prefix
key_by bmp_peer_ip bgp_peer_ip ipv6_unicast prefix rd esi mac =
    ip_key bmp_peer_ip bgp_peer_ip ipv6_unicast prefix
key_by bmp_peer_ip bgp_peer_ip evpn prefix rd esi mac =
    some ((bmp_peer_ip, (bgp_peer_ip, evpn)), (prefix, (rd, (esi, mac))))
key_by bmp_peer_ip bgp_peer_ip other_family prefix rd esi mac = none

unfoldable pub update_key : RouteUpdate → Option Key
update_key r =
    key_by r.bmp_peer_ip r.bgp_peer_ip r.family r.prefix r.evpn_rd r.evpn_esi r.mac_address

unfoldable pub row_key : RouteState → Option Key
row_key s = key_by s.bmp_peer_ip s.bgp_peer_ip s.family s.prefix s.evpn_rd s.evpn_esi s.mac_address

abbrev pub attributes_of : RouteUpdate → Attributes
attributes_of r = record {
  next_hop = r.next_hop;
  as_path = r.as_path;
  communities = r.communities;
  extended_communities = r.extended_communities;
  med = r.med;
  local_pref = r.local_pref;
}

-- INSERT
unfoldable pub new_row : RouteUpdate → RouteState
new_row r = record {
  bmp_peer_ip = r.bmp_peer_ip;
  bgp_peer_ip = r.bgp_peer_ip;
  family = r.family;
  prefix = r.prefix;
  first_seen = r.time;
  last_seen = r.time;
  last_state_change = r.time;
  is_withdrawn = r.is_withdrawn;
  learn_count = if r.is_withdrawn then 0 else 1;
  withdraw_count = if r.is_withdrawn then 1 else 0;
  attributes = attributes_of r;
  evpn_route_type = r.evpn_route_type;
  evpn_rd = r.evpn_rd;
  evpn_esi = r.evpn_esi;
  mac_address = r.mac_address;
}

abbrev differs : Bool → Bool → Bool
differs a b = if a then not b else b

abbrev is_evpn : Family → Bool
is_evpn evpn = true
is_evpn _ = false

-- UPDATE
unfoldable pub updated_row : RouteUpdate → RouteState → RouteState
updated_row r s =
    let changed = differs s.is_withdrawn r.is_withdrawn in
    record s {
      last_seen = r.time;
      last_state_change = if changed then r.time else s.last_state_change;
      is_withdrawn = r.is_withdrawn;
      learn_count =
          if changed
          then (if r.is_withdrawn then s.learn_count else s.learn_count + 1)
          else s.learn_count;
      withdraw_count =
          if changed
          then (if r.is_withdrawn then s.withdraw_count + 1 else s.withdraw_count)
          else s.withdraw_count;
      attributes = if r.is_withdrawn then s.attributes else attributes_of r;
      evpn_route_type =
          if is_evpn r.family
          then (if r.is_withdrawn then s.evpn_route_type else r.evpn_route_type)
          else s.evpn_route_type;
    }

-- The row with a key is changed, or a row is added; without a key a row is always added.
unfoldable pub update_by_key : Key → RouteUpdate → List RouteState → List RouteState
update_by_key key r [] = new_row r ∷ []
update_by_key key r (s ∷ rows) = elim (row_key s) [
  | none ↦ s ∷ update_by_key key r rows
  | some k ↦ elim (same_key k key) [
    | yes e ↦ updated_row r s ∷ rows
    | no n ↦ s ∷ update_by_key key r rows
  ]
]

unfoldable pub update_route_state : RouteUpdate → List RouteState → List RouteState
update_route_state r rows = elim (update_key r) [
  | none ↦ rows ++ (new_row r ∷ [])
  | some key ↦ update_by_key key r rows
]

-- The calls of one batch.
unfoldable pub update_all : List RouteUpdate → List RouteState → List RouteState
update_all [] rows = rows
update_all (r ∷ rs) rows = update_all rs (update_route_state r rows)
