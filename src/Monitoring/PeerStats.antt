-- ===== src/Monitoring/PeerStats.antt =====
-- src/pybmpmon/monitoring/stats.py: the counters of one peer. Their methods change the object; here
-- they return it. The time that `datetime.now` gives is an argument.
use pybmpmon.Base.{ℕ, ◌+◌, Bool, ◌||◌, ltb}

-- The texts that the family is compared with, and any other text.
pub data Family : Type 0 where
  ipv4_unicast ipv6_unicast evpn other_family : Family

-- The field `peer_ip` is the key under which the collector keeps the object.
pub record PeerStats : Type 0 where
  pub routes_received : ℕ
  pub routes_processed : ℕ
  pub ipv4_routes : ℕ
  pub ipv6_routes : ℕ
  pub evpn_routes : ℕ
  pub errors : ℕ
  pub last_update : ℕ

abbrev pub new_stats : ℕ → PeerStats
new_stats now = record {
  routes_received = 0;
  routes_processed = 0;
  ipv4_routes = 0;
  ipv6_routes = 0;
  evpn_routes = 0;
  errors = 0;
  last_update = now;
}

abbrev pub increment_received : ℕ → PeerStats → PeerStats
increment_received now s = record s { routes_received = s.routes_received + 1; last_update = now }

abbrev pub increment_processed : ℕ → Family → PeerStats → PeerStats
increment_processed now ipv4_unicast s = record s {
  routes_processed = s.routes_processed + 1;
  ipv4_routes = s.ipv4_routes + 1;
  last_update = now;
}
increment_processed now ipv6_unicast s = record s {
  routes_processed = s.routes_processed + 1;
  ipv6_routes = s.ipv6_routes + 1;
  last_update = now;
}
increment_processed now evpn s = record s {
  routes_processed = s.routes_processed + 1;
  evpn_routes = s.evpn_routes + 1;
  last_update = now;
}
increment_processed now other_family s = record s {
  routes_processed = s.routes_processed + 1;
  last_update = now;
}

abbrev pub increment_error : ℕ → PeerStats → PeerStats
increment_error now s = record s { errors = s.errors + 1; last_update = now }

abbrev pub reset : ℕ → PeerStats → PeerStats
reset now s = record s {
  routes_received = 0;
  routes_processed = 0;
  ipv4_routes = 0;
  ipv6_routes = 0;
  evpn_routes = 0;
  errors = 0;
  last_update = now;
}

-- "Only log if there's been activity"
abbrev pub is_active : PeerStats → Bool
is_active s = ltb 0 s.routes_received || (ltb 0 s.routes_processed || ltb 0 s.errors)
