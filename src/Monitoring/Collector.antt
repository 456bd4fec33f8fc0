-- ===== src/Monitoring/Collector.antt =====
-- src/pybmpmon/monitoring/stats.py: the collector, a dict from the address of a peer to its counters,
-- in the order of insertion. An address is any type with a decidable equality.
use pybmpmon.Base.{ℕ, List, [], ◌∷◌, Option, none, some, if◌then◌else◌}
use pybmpmon.Monitoring.PeerStats.{PeerStats, Family, new_stats, reset, is_active}
use pybmpmon.Monitoring.PeerStats as Peer

module _ {Key : Type 0} (same : Discrete Key) where
  -- `self._stats.get(peer_ip)`
  unfoldable pub lookup : Key → List (Key × PeerStats) → Option PeerStats
  lookup k [] = none
  lookup k ((j, s) ∷ rest) = elim (same k j) [ yes e ↦ some s | no n ↦ lookup k rest ]

  -- `f(self.get_peer_stats(peer_ip))`, where `f` changes the object that the dict holds: a missing
  -- entry is made first, at the end.
  unfoldable pub with_peer_stats :
      ℕ → Key → (PeerStats → PeerStats) → List (Key × PeerStats) → List (Key × PeerStats)
  with_peer_stats now k f [] = (k, f (new_stats now)) ∷ []
  with_peer_stats now k f ((j, s) ∷ rest) = elim (same k j) [
    | yes e ↦ (j, f s) ∷ rest
    | no n ↦ (j, s) ∷ with_peer_stats now k f rest
  ]

  abbrev pub increment_received : ℕ → Key → List (Key × PeerStats) → List (Key × PeerStats)
  increment_received now k = with_peer_stats now k (Peer.increment_received now)

  abbrev pub increment_processed :
      ℕ → Key → Family → List (Key × PeerStats) → List (Key × PeerStats)
  increment_processed now k family = with_peer_stats now k (Peer.increment_processed now family)

  abbrev pub increment_error : ℕ → Key → List (Key × PeerStats) → List (Key × PeerStats)
  increment_error now k = with_peer_stats now k (Peer.increment_error now)

  -- `del self._stats[peer_ip]`, if it is there: a dict holds a key once.
  unfoldable pub remove_peer : Key → List (Key × PeerStats) → List (Key × PeerStats)
  remove_peer k [] = []
  remove_peer k ((j, s) ∷ rest) = elim (same k j) [
    | yes e ↦ rest
    | no n ↦ (j, s) ∷ remove_peer k rest
  ]

module _ {Key : Type 0} where
  -- One round of `_periodic_logging`: what is logged, in order, and the counters after it.
  unfoldable pub logged : List (Key × PeerStats) → List (Key × PeerStats)
  logged [] = []
  logged ((k, s) ∷ rest) =
      let others = logged rest in if is_active s then (k, s) ∷ others else others

  unfoldable pub after_logging : ℕ → List (Key × PeerStats) → List (Key × PeerStats)
  after_logging now [] = []
  after_logging now ((k, s) ∷ rest) =
      (k, if is_active s then reset now s else s) ∷ after_logging now rest
