-- ===== src/Monitoring/Examples.antt =====
-- Tests of stats.py on two peers, named by numbers, and its theorems applied to them.
use pybmpmon.Base.{ℕ, ◌+◌, ◌≡◌, refl, List, [], ◌∷◌, some}
use native.Mathlib.Decide.{ℕ_discrete}
use pybmpmon.Monitoring.PeerStats.{PeerStats, evpn, ipv4_unicast}
use pybmpmon.Monitoring.Collector.{lookup, with_peer_stats, remove_peer, logged, after_logging}
use pybmpmon.Monitoring.CollectorLaws.{
  Event, received, processed, error, disconnected, step, run, sees_all, IsDict, step-IsDict,
  lookup-run,
}
use pybmpmon.Monitoring.Counts.{IsBalanced, total, run-IsBalanced, logging_conserves}

abbrev events : List (Event ℕ)
events =
    received 1 10
    ∷ processed 1 11 evpn
    ∷ received 2 12
    ∷ error 2 13
    ∷ disconnected 2 14
    ∷ processed 1 15 ipv4_unicast
    ∷ []

abbrev first_peer : PeerStats
first_peer = record {
  routes_received = 1;
  routes_processed = 2;
  ipv4_routes = 1;
  ipv6_routes = 0;
  evpn_routes = 1;
  errors = 0;
  last_update = 15;
}

first_peer_counts : lookup ℕ_discrete 1 (run ℕ_discrete events []) ≡ some first_peer
unfolding lookup run step with_peer_stats remove_peer ℕ_discrete
first_peer_counts = refl

lookup-run_example :
    lookup ℕ_discrete 1 (run ℕ_discrete events [])
    ≡ sees_all ℕ_discrete 1 events (lookup ℕ_discrete 1 [])
lookup-run_example = lookup-run ℕ_discrete 1 events [] tt

step-IsDict_example : IsDict (step ℕ_discrete (received 1 16) ((1, first_peer) ∷ []))
step-IsDict_example = step-IsDict ℕ_discrete (received 1 16) ((1, first_peer) ∷ []) (tt, tt)

run-IsBalanced_example : IsBalanced first_peer
run-IsBalanced_example = run-IsBalanced ℕ_discrete events 1 first_peer first_peer_counts

abbrev collector : List (ℕ × PeerStats)
collector = (1, first_peer) ∷ []

logging_conserves_example :
    (total (λ s. s.routes_received) (logged collector)
        + total (λ s. s.routes_received) (after_logging 20 collector)
      ≡ total (λ s. s.routes_received) collector)
    × (total (λ s. s.routes_processed) (logged collector)
          + total (λ s. s.routes_processed) (after_logging 20 collector)
        ≡ total (λ s. s.routes_processed) collector)
    × (total (λ s. s.errors) (logged collector) + total (λ s. s.errors) (after_logging 20 collector)
        ≡ total (λ s. s.errors) collector)
    × (logged (after_logging 20 collector) ≡ [])
logging_conserves_example = logging_conserves 20 collector
