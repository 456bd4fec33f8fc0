-- ===== src/Database/BatchWriter/Laws.antt =====
-- The batch under any sequence of calls: its bound, and what becomes of the routes.
use pybmpmon.Base.{
  ℕ, ◌<◌, List, [], ◌∷◌, ◌++◌, length, length-append, Option, none, some, false, arith,
}
use pybmpmon.Models.Route.{RouteUpdate}
use pybmpmon.Database.Tables.{Database}
use pybmpmon.Database.BatchWriter.{
  BatchWriter, Outcome, or_now, Answer, not_copied, fails_at, succeeds, flush, append_route,
  add_route, start, stop, periodic_flush,
}

-- A call, with the time at which it is made and the answer that a flush in it would get.
pub data Call : Type 0 where
  adds : ℕ → Answer → RouteUpdate → Call
  ticks : ℕ → Answer → Call
  starts : Call
  stops : Answer → Call

abbrev pub State : Type 0
State = BatchWriter × Database

abbrev pub state_of : Outcome → State
state_of (e, w, db) = (w, db)

unfoldable pub step : Call → State → State
step (adds now answer route) (w, db) = state_of (add_route now answer route w db)
step (ticks now answer) (w, db) = periodic_flush now answer w db
step starts (w, db) = (start w, db)
step (stops answer) (w, db) = state_of (stop answer w db)

unfoldable pub run : List Call → State → State
run [] s = s
run (c ∷ cs) s = run cs (step c s)

-- A batch is short of the size at which it is flushed, and waits since a time exactly if it has a
-- route.
abbrev HasStart : List RouteUpdate → Option ℕ → Type 0
HasStart [] none = Unit {0}
HasStart [] (some t) = ⊥
HasStart (r ∷ rs) none = ⊥
HasStart (r ∷ rs) (some t) = Unit {0}

pub record IsValid (w : BatchWriter) : Type 0 where
  pub bounded : length w.batch < w.batch_size
  pub started : HasStart w.batch w.batch_start_time

started-append :
    (now : ℕ) (r : RouteUpdate) (rs : List RouteUpdate) (t : Option ℕ)
    → HasStart rs t
    → HasStart (rs ++ (r ∷ [])) (or_now now t)
started-append now r [] none h = tt
started-append now r [] (some t) h = elim h [ ]
started-append now r (x ∷ rs) none h = elim h [ ]
started-append now r (x ∷ rs) (some t) h = tt

flush-IsValid :
    (answer : Answer) (w : BatchWriter) (db : Database)
    → 0 < w.batch_size
    → HasStart w.batch w.batch_start_time
    → IsValid (state_of (flush answer w db)).0
unfolding flush
flush-IsValid not_copied w db some_size h = record {
  bounded = ground arith;
  started = ground arith;
}
flush-IsValid (fails_at i) w db some_size h = record {
  bounded = ground arith;
  started = ground arith;
}
flush-IsValid succeeds w db some_size h = record { bounded = ground arith; started = ground arith }

-- Every call keeps the batch short of the batch size, and its start time set exactly while it
-- has a route.
pub step-IsValid : (c : Call) (s : State) → IsValid s.0 → IsValid (step c s).0
unfolding step add_route periodic_flush start stop
step-IsValid (adds now answer r) (w, db) valid =
    let wider = length-append w.batch (r ∷ []) in
    let kept = started-append now r w.batch w.batch_start_time valid.started in
    ground (arith, wider, kept, flush-IsValid answer (append_route now r w) db)
step-IsValid (ticks now answer) (w, db) valid = ground (arith, flush-IsValid answer w db)
step-IsValid starts (w, db) valid = record { bounded = valid.bounded; started = valid.started }
step-IsValid (stops answer) (w, db) valid =
    ground (arith, flush-IsValid answer (record w { is_running = false }) db)
