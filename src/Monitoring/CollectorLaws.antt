-- ===== src/Monitoring/CollectorLaws.antt =====
-- The collector as its users see it: what any sequence of calls and of logging rounds leaves for a
-- peer, told from the calls for this peer alone.
use pybmpmon.Base.{
  ℕ, ◌≡◌, ◌≢◌, refl, ap, ◌∙◌, List, [], ◌∷◌, All, Option, none, some, if◌then◌else◌, arith,
}
use pybmpmon.Monitoring.PeerStats.{PeerStats, Family, new_stats, reset, is_active}
use pybmpmon.Monitoring.PeerStats as Peer
use pybmpmon.Monitoring.Collector.{
  lookup, with_peer_stats, remove_peer, after_logging, increment_received, increment_processed,
  increment_error,
}

-- What happens to a collector: a call for a peer, or a logging round.
pub data Event (Key : Type 0) : Type 0 where
  received error disconnected : Key → ℕ → Event Key
  processed : Key → ℕ → Family → Event Key
  logging_round : ℕ → Event Key

abbrev pub or_new : ℕ → Option PeerStats → PeerStats
or_new now none = new_stats now
or_new now (some s) = s

abbrev pub after_round : ℕ → Option PeerStats → Option PeerStats
after_round now none = none
after_round now (some s) = some (if is_active s then reset now s else s)

-- A collector holds each peer once.
module _ {Key : Type 0} where
  abbrev pub IsAbsent : Key → List (Key × PeerStats) → Type 0
  IsAbsent k = All (λ (entry : Key × PeerStats). k ≢ entry.0)

  abbrev pub IsDict : List (Key × PeerStats) → Type 0
  IsDict [] = Unit {0}
  IsDict ((k, s) ∷ rest) = IsAbsent k rest × IsDict rest

module _ {Key : Type 0} (same : Discrete Key) where
  unfoldable pub step : Event Key → List (Key × PeerStats) → List (Key × PeerStats)
  step (received k now) c = increment_received same now k c
  step (processed k now family) c = increment_processed same now k family c
  step (error k now) c = increment_error same now k c
  step (disconnected k now) c = remove_peer same k c
  step (logging_round now) c = after_logging now c

  unfoldable pub run : List (Event Key) → List (Key × PeerStats) → List (Key × PeerStats)
  run [] c = c
  run (e ∷ es) c = run es (step e c)

  abbrev pub if_same : Key → Key → Option PeerStats → Option PeerStats → Option PeerStats
  if_same j k changed old = elim (same j k) [ yes e ↦ changed | no n ↦ old ]

  -- What an event does to one peer.
  abbrev pub sees : Key → Event Key → Option PeerStats → Option PeerStats
  sees j (received k now) o = if_same j k (some (Peer.increment_received now (or_new now o))) o
  sees j (processed k now family) o =
      if_same j k (some (Peer.increment_processed now family (or_new now o))) o
  sees j (error k now) o = if_same j k (some (Peer.increment_error now (or_new now o))) o
  sees j (disconnected k now) o = if_same j k none o
  sees j (logging_round now) o = after_round now o

  abbrev pub sees_all : Key → List (Event Key) → Option PeerStats → Option PeerStats
  sees_all j [] o = o
  sees_all j (e ∷ es) o = sees_all j es (sees j e o)

  lookup-with_peer_stats :
      (now : ℕ) (j k : Key) (f : PeerStats → PeerStats) (c : List (Key × PeerStats))
      → lookup same j (with_peer_stats same now k f c)
        ≡ if_same j k (some (f (or_new now (lookup same j c)))) (lookup same j c)
  unfolding lookup with_peer_stats
  lookup-with_peer_stats now j k f [] = ground arith
  lookup-with_peer_stats now j k f ((i, s) ∷ c) = ground (arith, lookup-with_peer_stats now j k f c)

  lookup-after_logging :
      (now : ℕ) (j : Key) (c : List (Key × PeerStats))
      → lookup same j (after_logging now c) ≡ after_round now (lookup same j c)
  unfolding lookup after_logging
  lookup-after_logging now j [] = refl
  lookup-after_logging now j ((k, s) ∷ c) = ground (arith, lookup-after_logging now j c)

  with_peer_stats-IsAbsent :
      (now : ℕ) (j k : Key) (f : PeerStats → PeerStats) (c : List (Key × PeerStats))
      → j ≢ k
      → IsAbsent j c
      → IsAbsent j (with_peer_stats same now k f c)
  unfolding with_peer_stats
  with_peer_stats-IsAbsent now j k f [] n absent = (n, tt)
  with_peer_stats-IsAbsent now j k f ((i, s) ∷ c) n (m, absent) =
      ground (arith, with_peer_stats-IsAbsent now j k f c n absent)

  with_peer_stats-IsDict :
      (now : ℕ) (k : Key) (f : PeerStats → PeerStats) (c : List (Key × PeerStats))
      → IsDict c
      → IsDict (with_peer_stats same now k f c)
  unfolding with_peer_stats
  with_peer_stats-IsDict now k f [] dict = (tt, tt)
  with_peer_stats-IsDict now k f ((i, s) ∷ c) (absent, dict) = ground (
    arith,
    with_peer_stats-IsDict now k f c dict,
    λ (n : i ≢ k). with_peer_stats-IsAbsent now i k f c n absent,
  )

  remove_peer-IsAbsent :
      (j k : Key) (c : List (Key × PeerStats)) → IsAbsent j c → IsAbsent j (remove_peer same k c)
  unfolding remove_peer
  remove_peer-IsAbsent j k [] absent = tt
  remove_peer-IsAbsent j k ((i, s) ∷ c) (m, absent) =
      ground (arith, remove_peer-IsAbsent j k c absent)

  remove_peer-IsDict :
      (k : Key) (c : List (Key × PeerStats)) → IsDict c → IsDict (remove_peer same k c)
  unfolding remove_peer
  remove_peer-IsDict k [] dict = tt
  remove_peer-IsDict k ((i, s) ∷ c) (absent, dict) =
      ground (arith, remove_peer-IsDict k c dict, remove_peer-IsAbsent i k c absent)

  after_logging-IsAbsent :
      (now : ℕ) (j : Key) (c : List (Key × PeerStats))
      → IsAbsent j c
      → IsAbsent j (after_logging now c)
  unfolding after_logging
  after_logging-IsAbsent now j [] absent = tt
  after_logging-IsAbsent now j ((i, s) ∷ c) (m, absent) = (m, after_logging-IsAbsent now j c absent)

  after_logging-IsDict :
      (now : ℕ) (c : List (Key × PeerStats)) → IsDict c → IsDict (after_logging now c)
  unfolding after_logging
  after_logging-IsDict now [] dict = tt
  after_logging-IsDict now ((i, s) ∷ c) (absent, dict) =
      (after_logging-IsAbsent now i c absent, after_logging-IsDict now c dict)

  -- Every call and every logging round keeps a collector that holds each peer once one that
  -- does.
  pub step-IsDict : (e : Event Key) (c : List (Key × PeerStats)) → IsDict c → IsDict (step e c)
  unfolding step
  step-IsDict (received k now) c dict = with_peer_stats-IsDict now k _ c dict
  step-IsDict (processed k now family) c dict = with_peer_stats-IsDict now k _ c dict
  step-IsDict (error k now) c dict = with_peer_stats-IsDict now k _ c dict
  step-IsDict (disconnected k now) c dict = remove_peer-IsDict k c dict
  step-IsDict (logging_round now) c dict = after_logging-IsDict now c dict

  lookup_absent : (j : Key) (c : List (Key × PeerStats)) → IsAbsent j c → lookup same j c ≡ none
  unfolding lookup
  lookup_absent j [] absent = refl
  lookup_absent j ((i, s) ∷ c) (m, absent) = ground (arith, lookup_absent j c absent)

  lookup-remove_peer :
      (j k : Key) (c : List (Key × PeerStats))
      → IsDict c
      → lookup same j (remove_peer same k c) ≡ if_same j k none (lookup same j c)
  unfolding lookup remove_peer
  lookup-remove_peer j k [] dict = ground arith
  lookup-remove_peer j k ((i, s) ∷ c) (absent, dict) =
      ground (arith, lookup-remove_peer j k c dict, lookup_absent i c absent)

  lookup-step :
      (j : Key) (e : Event Key) (c : List (Key × PeerStats))
      → IsDict c
      → lookup same j (step e c) ≡ sees j e (lookup same j c)
  unfolding step
  lookup-step j (received k now) c dict = lookup-with_peer_stats now j k _ c
  lookup-step j (processed k now family) c dict = lookup-with_peer_stats now j k _ c
  lookup-step j (error k now) c dict = lookup-with_peer_stats now j k _ c
  lookup-step j (disconnected k now) c dict = lookup-remove_peer j k c dict
  lookup-step j (logging_round now) c dict = lookup-after_logging now j c

  -- Whatever is called in whatever order on a collector that holds each peer once, a peer's
  -- counters are those that its own calls and the logging rounds make of them; the calls for
  -- other peers do not touch them.
  pub lookup-run :
      (j : Key) (es : List (Event Key)) (c : List (Key × PeerStats))
      → IsDict c
      → lookup same j (run es c) ≡ sees_all j es (lookup same j c)
  unfolding run
  lookup-run j [] c dict = refl
  lookup-run j (e ∷ es) c dict =
      lookup-run j es (step e c) (step-IsDict e c dict)
      ∙ ap (sees_all j es) (lookup-step j e c dict)
