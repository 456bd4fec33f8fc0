-- ===== src/Database/BatchWriter/TestData.antt =====
-- Routes and tables for the tests of the batch writer and its users.
use pybmpmon.Base.{ℕ, [], ◌∷◌, none, some, false}
use pybmpmon.Utils.Binary.{ipv4}
use pybmpmon.Monitoring.PeerStats.{ipv4_unicast}
use pybmpmon.Models.Route.{RouteUpdate}
use pybmpmon.Database.Tables.{Database}

abbrev pub route_at : ℕ → RouteUpdate
route_at time = record {
  time = time;
  bmp_peer_ip = ipv4 (192 ∷ 0 ∷ 2 ∷ 1 ∷ []);
  bmp_peer_asn = none;
  bgp_peer_ip = ipv4 (192 ∷ 0 ∷ 2 ∷ 2 ∷ []);
  bgp_peer_asn = some 65001;
  family = ipv4_unicast;
  prefix = none;
  next_hop = none;
  as_path = none;
  communities = none;
  extended_communities = none;
  med = none;
  local_pref = none;
  is_withdrawn = false;
  evpn_route_type = none;
  evpn_rd = none;
  evpn_esi = none;
  mac_address = none;
}

abbrev pub no_rows : Database
no_rows = record { bmp_peers = []; peer_events = []; route_updates = []; state_updates = [] }
