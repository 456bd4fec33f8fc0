-- ===== src/Database/BatchWriter/Counting.antt =====
-- What `get_stats` says, against the table and the calls.
use pybmpmon.Base.{ℕ, ◌+◌, ◌≤◌, ◌≡◌, refl, false, List, [], ◌∷◌, length, length-append, All, arith}
use pybmpmon.Database.Tables.{Database}
use pybmpmon.Database.BatchWriter.{
  BatchWriter, Answer, not_copied, fails_at, succeeds, flush, append_route, add_route, start, stop,
  periodic_flush, get_stats,
}
use pybmpmon.Database.BatchWriter.Laws.{
  Call, adds, ticks, starts, stops, State, state_of, step, run,
}
use pybmpmon.Database.BatchWriter.Delivery.{answer_of}

-- The routes that were written between two states: how many the table got, and how many are counted.
record Counts (s t : State) : Type 0 where
  at_most :
      t.0.total_routes_written + length s.1.route_updates
      ≤ s.0.total_routes_written + length t.1.route_updates

record CountsAll (s t : State) : Type 0 where
  exactly :
      t.0.total_routes_written + length s.1.route_updates
      ≡ s.0.total_routes_written + length t.1.route_updates

flush-Counts :
    (answer : Answer) (w : BatchWriter) (db : Database)
    → Counts (w, db) (state_of (flush answer w db))
unfolding flush
flush-Counts not_copied w db = ground arith
flush-Counts (fails_at i) w db = ground (arith, length-append db.route_updates w.batch)
flush-Counts succeeds w db = ground (arith, length-append db.route_updates w.batch)

flush-CountsAll :
    (w : BatchWriter) (db : Database) → CountsAll (w, db) (state_of (flush succeeds w db))
unfolding flush
flush-CountsAll w db = ground (arith, length-append db.route_updates w.batch)

step-Counts : (c : Call) (s : State) → Counts s (step c s)
unfolding step add_route periodic_flush start stop
step-Counts (adds now answer r) (w, db) =
    ground (arith, flush-Counts answer (append_route now r w) db)
step-Counts (ticks now answer) (w, db) = ground (arith, flush-Counts answer w db)
step-Counts starts (w, db) = ground arith
step-Counts (stops answer) (w, db) =
    ground (arith, flush-Counts answer (record w { is_running = false }) db)

step-CountsAll : (c : Call) (s : State) → answer_of c ≡ succeeds → CountsAll s (step c s)
unfolding step add_route periodic_flush start stop
step-CountsAll (adds now answer r) (w, db) h =
    rw h (ground (arith, flush-CountsAll (append_route now r w) db))
step-CountsAll (ticks now answer) (w, db) h = rw h (ground (arith, flush-CountsAll w db))
step-CountsAll starts (w, db) h = ground arith
step-CountsAll (stops answer) (w, db) h =
    rw h (ground (arith, flush-CountsAll (record w { is_running = false }) db))

run-Counts : (cs : List Call) (s : State) → Counts s (run cs s)
unfolding run
run-Counts [] s = record { at_most = omega arith }
run-Counts (c ∷ cs) s = omega (arith, (step-Counts c s).at_most, (run-Counts cs (step c s)).at_most)

run-CountsAll :
    (cs : List Call) (s : State) → All (λ c. answer_of c ≡ succeeds) cs → CountsAll s (run cs s)
unfolding run
run-CountsAll [] s h = record { exactly = refl }
run-CountsAll (c ∷ cs) s (h, hs) =
    omega (arith, (step-CountsAll c s h).exactly, (run-CountsAll cs (step c s) hs).exactly)

abbrev pub written : State → ℕ
unfolding get_stats
written s = (get_stats s.0).total_routes_written

-- After any sequence of calls, however the database answers, `get_stats` counts no more routes as
-- written than the table of routes got meanwhile.
pub get_stats-run-le :
    (cs : List Call) (s : State)
    → written (run cs s) + length s.1.route_updates ≤ written s + length (run cs s).1.route_updates
unfolding get_stats
get_stats-run-le cs s = (run-Counts cs s).at_most

-- After any sequence of calls in which the database takes every flush whole, `get_stats` counts as
-- written exactly the routes that the table of routes got meanwhile.
pub get_stats-run :
    (cs : List Call) (s : State)
    → All (λ c. answer_of c ≡ succeeds) cs
    → written (run cs s) + length s.1.route_updates ≡ written s + length (run cs s).1.route_updates
unfolding get_stats
get_stats-run cs s h = (run-CountsAll cs s h).exactly
