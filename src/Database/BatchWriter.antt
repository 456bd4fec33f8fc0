-- ===== src/Database/BatchWriter.antt =====
-- src/pybmpmon/database/batch_writer.py: each method run to its end, on the object's fields and the
-- database. Time is a number, read by the caller.
pub mod Laws
pub mod Delivery
pub mod Schedule
pub mod Counting
pub mod Shutdown
pub mod TestData
mod Examples
use pybmpmon.Base.{
  ℕ, ◌+◌, ◌-◌, Bool, true, false, not, List, [], ◌∷◌, ◌++◌, length, take, Option, none, some, leb,
  ◌==◌, if◌then◌else◌,
}
use pybmpmon.Models.Route.{RouteUpdate}
use pybmpmon.Database.Tables.{Database}

-- A row of the batch is the tuple of the fields of the route.
pub record BatchWriter : Type 0 where
  pub batch_size : ℕ
  pub batch_timeout : ℕ
  pub batch : List RouteUpdate
  pub batch_start_time : Option ℕ
  pub is_running : Bool
  pub total_routes_written : ℕ
  pub total_batches_written : ℕ

abbrev pub new_writer : ℕ → ℕ → BatchWriter
new_writer batch_size batch_timeout = record {
  batch_size = batch_size;
  batch_timeout = batch_timeout;
  batch = [];
  batch_start_time = none;
  is_running = false;
  total_routes_written = 0;
  total_batches_written = 0;
}

-- How the database answers a flush: the connection or the COPY fails; or the COPY is done, and the
-- call of update_route_state for the route at an index fails; or all succeeds.
pub data Answer : Type 0 where
  not_copied : Answer
  fails_at : ℕ → Answer
  succeeds : Answer

-- How a method ends.
pub data Ending : Type 0 where
  returned runtime_error database_error : Ending

abbrev pub Outcome : Type 0
Outcome = Ending × BatchWriter × Database

-- The COPY is a statement of its own: its rows stay when a later call fails.
unfoldable pub flush_batch : Answer → BatchWriter → Database → Outcome
flush_batch not_copied w db = (database_error, w, db)
flush_batch (fails_at i) w db = (
  database_error,
  w,
  record db {
    route_updates = db.route_updates ++ w.batch;
    state_updates = db.state_updates ++ take i w.batch;
  },
)
flush_batch succeeds w db = (
  returned,
  record w {
    total_routes_written = w.total_routes_written + length w.batch;
    total_batches_written = w.total_batches_written + 1;
  },
  record db {
    route_updates = db.route_updates ++ w.batch;
    state_updates = db.state_updates ++ w.batch;
  },
)

-- The `finally` of `flush`.
abbrev pub clear_batch : Outcome → Outcome
clear_batch (e, w, db) = (e, record w { batch = []; batch_start_time = none }, db)

unfoldable pub flush : Answer → BatchWriter → Database → Outcome
unfolding flush_batch
flush answer w db =
    if length w.batch == 0 then (returned, w, db) else clear_batch (flush_batch answer w db)

-- "Set batch start time on first route"
abbrev pub or_now : ℕ → Option ℕ → Option ℕ
or_now now none = some now
or_now now (some t) = some t

abbrev pub append_route : ℕ → RouteUpdate → BatchWriter → BatchWriter
append_route now route w = record w {
  batch = w.batch ++ (route ∷ []);
  batch_start_time = or_now now w.batch_start_time;
}

unfoldable pub add_route : ℕ → Answer → RouteUpdate → BatchWriter → Database → Outcome
unfolding flush
add_route now answer route w db =
    if not w.is_running
    then (runtime_error, w, db)
    else if leb w.batch_size (length w.batch + 1)
    then flush answer (append_route now route w) db
    else (returned, append_route now route w, db)

unfoldable pub start : BatchWriter → BatchWriter
start w = record w { is_running = true }

unfoldable pub stop : Answer → BatchWriter → Database → Outcome
unfolding flush
stop answer w db = flush answer (record w { is_running = false }) db

-- Whether the batch has waited for the timeout.
abbrev pub is_due : ℕ → ℕ → Option ℕ → Bool
is_due now timeout none = false
is_due now timeout (some t) = leb timeout (now - t)

-- One round of `_periodic_flush`, which logs what `flush` raises.
unfoldable pub periodic_flush : ℕ → Answer → BatchWriter → Database → BatchWriter × Database
unfolding flush
periodic_flush now answer w db =
    if not w.is_running
    then (w, db)
    else if is_due now w.batch_timeout w.batch_start_time
    then (let (_, w', db') = flush answer w db in (w', db'))
    else (w, db)

-- The dict of `get_stats`.
pub record Stats : Type 0 where
  pub total_routes_written : ℕ
  pub total_batches_written : ℕ
  pub current_batch_size : ℕ
  pub is_running : Bool

unfoldable pub get_stats : BatchWriter → Stats
get_stats w = record {
  total_routes_written = w.total_routes_written;
  total_batches_written = w.total_batches_written;
  current_batch_size = length w.batch;
  is_running = w.is_running;
}
