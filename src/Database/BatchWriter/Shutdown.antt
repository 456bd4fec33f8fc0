-- ===== src/Database/BatchWriter/Shutdown.antt =====
-- batch_writer.py: `stop` with the periodic task, which it cancels wherever that waits: in its sleep,
-- or in a flush, which then ends by its `finally` alone.
use pybmpmon.Base.{ℕ, ◌≡◌, ◌≢◌, refl, List, [], ◌∷◌, ◌++◌, take, false, arith}
use mathlib.Core.List.{append-nil}
use pybmpmon.Models.Route.{RouteUpdate}
use pybmpmon.Database.Tables.{Database}
use pybmpmon.Database.BatchWriter.{
  BatchWriter, Answer, not_copied, fails_at, succeeds, returned, Outcome, clear_batch, flush, stop,
}
use pybmpmon.Database.BatchWriter.Laws.{state_of}
use pybmpmon.Database.BatchWriter.Delivery.{held, flush_delivers}

-- Where the periodic task is when it is cancelled: there is none, or it waits in its sleep, or in a
-- flush for the COPY, or there for the call of update_route_state for the route at an index.
pub data TaskAt : Type 0 where
  no_task sleeping in_copy : TaskAt
  in_state_calls : ℕ → TaskAt

-- A COPY that is cancelled stores nothing. Behind it the batch is stored.
unfoldable pub cancel_task : TaskAt → BatchWriter → Database → Outcome
cancel_task no_task w db = (returned, w, db)
cancel_task sleeping w db = (returned, w, db)
cancel_task in_copy w db = clear_batch (returned, w, db)
cancel_task (in_state_calls i) w db = clear_batch (
  returned,
  w,
  record db {
    route_updates = db.route_updates ++ w.batch;
    state_updates = db.state_updates ++ take i w.batch;
  },
)

-- `stop`, from the moment at which the task is there.
unfoldable pub stop_at : TaskAt → Answer → BatchWriter → Database → Outcome
unfolding stop cancel_task
stop_at task answer w db = let (e, v, d) = cancel_task task w db in stop answer v d

-- After a flush the batch is empty, however it ends.
pub flush-batch :
    (answer : Answer) (w : BatchWriter) (db : Database)
    → (state_of (flush answer w db)).0.batch ≡ []
unfolding flush
flush-batch answer w db = go answer w.batch refl
  where
    go :
        (answer : Answer) (rs : List RouteUpdate)
        → w.batch ≡ rs
        → (state_of (flush answer w db)).0.batch ≡ []
    go not_copied [] e = ground arith
    go (fails_at i) [] e = ground arith
    go succeeds [] e = ground arith
    go not_copied (r ∷ rs) e = ground arith
    go (fails_at i) (r ∷ rs) e = ground arith
    go succeeds (r ∷ rs) e = ground arith

pub stop_at-batch :
    (task : TaskAt) (answer : Answer) (w : BatchWriter) (db : Database)
    → (state_of (stop_at task answer w db)).0.batch ≡ []
unfolding stop_at stop
stop_at-batch task answer w db =
    let (e, v, d) = cancel_task task w db in flush-batch answer (record v { is_running = false }) d

pub stop_at-succeeds :
    (task : TaskAt) (w : BatchWriter) (db : Database)
    → let (e, v, d) = stop_at task succeeds w db in (e ≡ returned) × (v.is_running ≡ false)
unfolding stop_at stop flush
stop_at-succeeds task w db = ground arith

cancel_task-held :
    (task : TaskAt) (w : BatchWriter) (db : Database)
    → task ≢ in_copy
    → let (e, v, d) = cancel_task task w db in held (v, d) ≡ held (w, db)
unfolding cancel_task
cancel_task-held no_task w db h = refl
cancel_task-held sleeping w db h = refl
cancel_task-held in_copy w db h = absurd (h refl)
cancel_task-held (in_state_calls i) w db h = append-nil (db.route_updates ++ w.batch)

-- If no COPY is cancelled and the last one does not fail, `stop` leaves all routes of the table and
-- the batch in the table.
pub stop_at-route_updates :
    (task : TaskAt) (answer : Answer) (w : BatchWriter) (db : Database)
    → task ≢ in_copy
    → answer ≢ not_copied
    → (state_of (stop_at task answer w db)).1.route_updates ≡ held (w, db)
unfolding stop_at stop
stop_at-route_updates task answer w db h taken =
    let (e, v, d) = cancel_task task w db in
    let (v', d') = state_of (stop_at task answer w db) in
    let all : held (v', d') ≡ held (v, d) =
      flush_delivers answer (record v { is_running = false }) d taken in
    let empty : v'.batch ≡ [] = stop_at-batch task answer w db in
    ground (arith, all, empty, cancel_task-held task w db h, append-nil d'.route_updates)

-- If `stop` cancels the task while it waits for a COPY, then the routes of the batch are lost,
-- whatever the database answers: `stop` returns, the batch is empty and the tables are as before.
pub stop_at-in_copy :
    (answer : Answer) (w : BatchWriter) (db : Database)
    → let (e, v, d) = stop_at in_copy answer w db in (e ≡ returned) × (v.batch ≡ []) × (d ≡ db)
unfolding stop_at stop flush cancel_task
stop_at-in_copy answer w db = (refl, refl, refl)
