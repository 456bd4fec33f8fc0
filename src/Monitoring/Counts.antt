-- ===== src/Monitoring/Counts.antt =====
-- What the counters add up to: per family against all routes, and over a logging round.
use pybmpmon.Base.{ℕ, ◌+◌, ◌≤◌, ◌≡◌, refl, sym, ◌∙◌, List, [], ◌∷◌, Option, none, some, arith}
use mathlib.Core.Path.{subst}
use pybmpmon.Monitoring.PeerStats.{PeerStats, ipv4_unicast, ipv6_unicast, evpn, other_family}
use pybmpmon.Monitoring.Collector.{lookup, logged, after_logging}
use pybmpmon.Monitoring.CollectorLaws.{
  Event, received, processed, error, disconnected, logging_round, run, sees, sees_all, lookup-run,
}

-- No more routes of the three families than routes.
abbrev pub IsBalanced : PeerStats → Type 0
IsBalanced s = s.ipv4_routes + s.ipv6_routes + s.evpn_routes ≤ s.routes_processed

abbrev AllBalanced : Option PeerStats → Type 0
AllBalanced none = Unit {0}
AllBalanced (some s) = IsBalanced s

module _ {Key : Type 0} (same : Discrete Key) where
  sees_balanced :
      (j : Key) (e : Event Key) (o : Option PeerStats)
      → AllBalanced o
      → AllBalanced (sees same j e o)
  sees_balanced j (received k now) none h = ground arith
  sees_balanced j (received k now) (some s) h = ground arith
  sees_balanced j (processed k now ipv4_unicast) none h = ground arith
  sees_balanced j (processed k now ipv6_unicast) none h = ground arith
  sees_balanced j (processed k now evpn) none h = ground arith
  sees_balanced j (processed k now other_family) none h = ground arith
  sees_balanced j (processed k now ipv4_unicast) (some s) h = ground arith
  sees_balanced j (processed k now ipv6_unicast) (some s) h = ground arith
  sees_balanced j (processed k now evpn) (some s) h = ground arith
  sees_balanced j (processed k now other_family) (some s) h = ground arith
  sees_balanced j (error k now) none h = ground arith
  sees_balanced j (error k now) (some s) h = ground arith
  sees_balanced j (disconnected k now) none h = ground arith
  sees_balanced j (disconnected k now) (some s) h = ground arith
  sees_balanced j (logging_round now) none h = ground arith
  sees_balanced j (logging_round now) (some s) h = ground arith

  sees_all_balanced :
      (j : Key) (es : List (Event Key)) (o : Option PeerStats)
      → AllBalanced o
      → AllBalanced (sees_all same j es o)
  sees_all_balanced j [] o h = h
  sees_all_balanced j (e ∷ es) o h =
      sees_all_balanced j es (sees same j e o) (sees_balanced j e o h)

  -- From an empty collector on, whatever is called, no peer ever counts more routes of the three
  -- families than processed routes.
  pub run-IsBalanced :
      (es : List (Event Key)) (j : Key) (s : PeerStats)
      → lookup same j (run same es []) ≡ some s
      → IsBalanced s
  unfolding lookup
  run-IsBalanced es j s found =
      subst AllBalanced (sym (lookup-run same j es [] tt) ∙ found) (sees_all_balanced j es none tt)

module _ {Key : Type 0} where
  abbrev pub total : (PeerStats → ℕ) → List (Key × PeerStats) → ℕ
  total count [] = 0
  total count ((k, s) ∷ rest) = count s + total count rest

  -- What a logging round logs and what it leaves is what was there, for received routes,
  -- processed routes and errors; the round leaves nothing that a second one would log.
  pub logging_conserves :
      (now : ℕ) (c : List (Key × PeerStats))
      → (total (λ s. s.routes_received) (logged c)
            + total (λ s. s.routes_received) (after_logging now c)
          ≡ total (λ s. s.routes_received) c)
        × (total (λ s. s.routes_processed) (logged c)
              + total (λ s. s.routes_processed) (after_logging now c)
            ≡ total (λ s. s.routes_processed) c)
        × (total (λ s. s.errors) (logged c) + total (λ s. s.errors) (after_logging now c)
            ≡ total (λ s. s.errors) c)
        × (logged (after_logging now c) ≡ [])
  unfolding logged after_logging
  logging_conserves now [] = (refl, refl, refl, refl)
  logging_conserves now ((k, s) ∷ c) =
      let (received_same, processed_same, errors_same, nothing) = logging_conserves now c in
      (
        ground (arith, received_same),
        ground (arith, processed_same),
        ground (arith, errors_same),
        ground (arith, nothing),
      )
