-- ===== src/Database/RouteState/Examples.antt =====
-- Tests of update_route_state on three routes, and its theorems applied to them.
use pybmpmon.Base.{
  ℕ, ◌+◌, ◌≡◌, ◌≢◌, refl, Bool, true, false, ◌⊎◌, List, [], ◌∷◌, length, Option, none, some,
}
use native.Mathlib.Decide.{ℕ_discrete}
use pybmpmon.Utils.Binary.{IpAddress, ipv4}
use pybmpmon.Utils.Address.{same_address, same_bytes, same_option}
use pybmpmon.Protocol.Bgp.{Cidr}
use pybmpmon.Models.Route.{RouteUpdate}
use pybmpmon.Monitoring.PeerStats.{Family, ipv4_unicast, other_family}
use pybmpmon.Database.RouteState.Keys.{Key, same_key}
use pybmpmon.Database.RouteState.{
  RouteState, update_key, row_key, new_row, updated_row, update_by_key, update_route_state,
  update_all,
}
use pybmpmon.Database.RouteState.Laws.{state_of, unknown_family_adds}
use pybmpmon.Database.RouteState.History.{history, IsStateOf, update_all-IsStateOf}

abbrev router : IpAddress
router = ipv4 (192 ∷ 0 ∷ 2 ∷ 1 ∷ [])

abbrev network : Cidr
network = record { address = ipv4 (10 ∷ 0 ∷ 1 ∷ 0 ∷ []); prefix_len = 24 }

abbrev update : ℕ → Family → Bool → RouteUpdate
update time family is_withdrawn = record {
  time = time;
  bmp_peer_ip = router;
  bmp_peer_asn = none;
  bgp_peer_ip = router;
  bgp_peer_asn = none;
  family = family;
  prefix = some network;
  next_hop = none;
  as_path = none;
  communities = none;
  extended_communities = none;
  med = none;
  local_pref = none;
  is_withdrawn = is_withdrawn;
  evpn_route_type = none;
  evpn_rd = none;
  evpn_esi = none;
  mac_address = none;
}

abbrev key : Key
key = ((router, (router, ipv4_unicast)), (some network, (none, (none, none))))

-- Announced twice, withdrawn, announced; then withdrawn under the family "unknown".
abbrev updates : List RouteUpdate
updates =
    update 1 ipv4_unicast false
    ∷ update 2 ipv4_unicast false
    ∷ update 3 ipv4_unicast true
    ∷ update 4 ipv4_unicast false
    ∷ update 5 other_family true
    ∷ []

abbrev counts : Option RouteState → List ℕ
counts none = []
counts (some s) = s.learn_count ∷ s.withdraw_count ∷ s.first_seen ∷ s.last_seen ∷ []

learned_twice : counts (state_of key (update_all updates [])) ≡ 2 ∷ 1 ∷ 1 ∷ 4 ∷ []
unfolding state_of update_all update_route_state update_by_key update_key row_key new_row
    updated_row same_key same_address same_bytes same_option ℕ_discrete
learned_twice = refl

update_all-IsStateOf_example :
    ((history key updates ≡ []) × (state_of key (update_all updates []) ≡ none))
    ⊎ ((s : RouteState) × (history key updates ≢ [])
        × (state_of key (update_all updates []) ≡ some s)
        × IsStateOf (history key updates) s)
update_all-IsStateOf_example = update_all-IsStateOf key updates

unknown_family_adds_example :
    (length (update_route_state (update 5 other_family true) []) ≡ 0 + 1)
    × ((k : Key) → state_of k (update_route_state (update 5 other_family true) []) ≡ state_of k [])
unknown_family_adds_example = unknown_family_adds (update 5 other_family true) [] refl
