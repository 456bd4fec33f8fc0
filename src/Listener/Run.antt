-- ===== src/Listener/Run.antt =====
-- listener.py: `run_listener`, with `start` and `stop` of the listener, the batch writer and the
-- collector as it calls them.
pub mod Release
pub mod Delivery
pub mod Leak
mod Examples
use pybmpmon.Base.{Bool, true, false, List, Option, none, some, if◌then◌else◌}
use pybmpmon.Database.Tables.{Database}
use pybmpmon.Database.BatchWriter as Writer
use pybmpmon.Database.BatchWriter.{BatchWriter, Answer, Outcome, new_writer}
use pybmpmon.Database.BatchWriter.Laws.{Call}
use pybmpmon.Database.BatchWriter.Laws as Calls
use pybmpmon.Database.BatchWriter.Shutdown.{TaskAt, no_task, stop_at}
use pybmpmon.Monitoring.Lifecycle as Collector
use pybmpmon.Monitoring.Lifecycle.{Lifecycle}

-- CancelledError and KeyboardInterrupt are no `Exception`; `failed` is.
pub data Exception : Type 0 where
  cancelled keyboard_interrupt failed : Exception

-- How a call ends.
pub data Ending : Type 0 where
  returned : Ending
  raised : Exception → Ending

pub data Pool : Type 0 where
  open_pool closed_pool : Pool

pub data Server : Type 0 where
  listening closed_server : Server

-- The objects that `run_listener` is given or makes, and the database. `server` is the field of the
-- listener; `flush_task` says whether the writer holds its periodic task.
pub record App : Type 0 where
  pub pool : Option Pool
  pub batch_writer : Option BatchWriter
  pub flush_task : Bool
  pub stats_collector : Option Lifecycle
  pub server : Option Server
  pub database : Database

-- What comes from outside: how asyncpg and asyncio answer, what is called of the batch writer, one
-- call after the other, while the server runs and while it stops, what interrupts the sleep, and
-- where the periodic task of the writer is when it is cancelled.
pub record Events : Type 0 where
  pub create_pool : Ending
  pub start_server : Ending
  pub served : List Call
  pub interrupt : Exception
  pub wait_closed : Ending
  pub drained : List Call
  pub flush_task_at : TaskAt
  pub last_answer : Answer
  pub close_pool : Ending

abbrev pub Action : Type 0
Action = App → Ending × App

abbrev pub and_then : Action → Ending × App → Ending × App
and_then k (returned, a) = k a
and_then k (raised x, a) = (raised x, a)

infixl 5 ◌>>◌
abbrev pub ◌>>◌ : Action → Action → Action
◌>>◌ m k a = and_then k (m a)

-- `try: … finally: …`: an exception of the second part takes the place of one of the first.
abbrev pub and_finally : Ending → Ending × App → Ending × App
and_finally e (returned, a) = (e, a)
and_finally e (raised x, a) = (raised x, a)

abbrev pub try_finally : Action → Action → Action
try_finally body cleanup a = let (e, b) = body a in and_finally e (cleanup b)

-- `except asyncio.CancelledError`, which only logs.
abbrev pub except_cancelled : Ending × App → Ending × App
except_cancelled (returned, a) = (returned, a)
except_cancelled (raised cancelled, a) = (returned, a)
except_cancelled (raised keyboard_interrupt, a) = (raised keyboard_interrupt, a)
except_cancelled (raised failed, a) = (raised failed, a)

-- `await` of a call that changes nothing, or what it changes when it returns.
abbrev pub await : Ending → (App → App) → Action
await returned f a = (returned, f a)
await (raised x) f a = (raised x, a)

-- A statement of the database is refused with an `Exception`.
abbrev pub of_outcome : App → Outcome → Ending × App
of_outcome a (Writer.returned, w, db) =
    (returned, record a { batch_writer = some w; database = db })
of_outcome a (Writer.runtime_error, w, db) =
    (raised failed, record a { batch_writer = some w; database = db })
of_outcome a (Writer.database_error, w, db) =
    (raised failed, record a { batch_writer = some w; database = db })

-- What others call of the writer.
abbrev pub after_calls : App → Calls.State → App
after_calls a (w, db) = record a { batch_writer = some w; database = db }

unfoldable pub serve_calls : List Call → App → App
serve_calls calls a = elim a.batch_writer [
  | none ↦ a
  | some w ↦ after_calls a (Calls.run calls (w, a.database))
]

module _ (e : Events) where
  -- `BMPListener.start`
  unfoldable pub start_listener : Action
  start_listener = await e.start_server λ a. record a { server = some listening }

  -- `BMPListener.stop`: while it waits for the server and the connections, these go on.
  abbrev pub stop_server : Option Server → Action
  unfolding serve_calls
  stop_server none a = (returned, a)
  stop_server (some server) a =
      await e.wait_closed (λ b. b)
        (serve_calls e.drained (record a { server = some closed_server }))

  unfoldable pub stop_listener : Action
  stop_listener a = stop_server a.server a

  unfoldable pub stop_batch_writer : Action
  stop_batch_writer a = elim a.batch_writer [
    | none ↦ (returned, a)
    | some w ↦
        of_outcome (record a { flush_task = false })
          (stop_at (if a.flush_task then e.flush_task_at else no_task) e.last_answer w a.database)
  ]

  unfoldable pub stop_stats_collector : Action
  stop_stats_collector a = elim a.stats_collector [
    | none ↦ (returned, a)
    | some c ↦ (returned, record a { stats_collector = some (Collector.stop c) })
  ]

  unfoldable pub close_pool : Action
  close_pool a = elim a.pool [
    | none ↦ (returned, a)
    | some pool ↦ await e.close_pool (λ b. record b { pool = some closed_pool }) a
  ]

  -- "Create … if not provided". The times of the writer are in milliseconds.
  unfoldable pub provide_pool : Action
  provide_pool a = elim a.pool [
    | none ↦ await e.create_pool (λ b. record b { pool = some open_pool }) a
    | some pool ↦ (returned, a)
  ]

  unfoldable pub provide_batch_writer : Action
  provide_batch_writer a = elim a.batch_writer [
    | none ↦ (
      returned,
      record a { batch_writer = some (Writer.start (new_writer 1000 500)); flush_task = true },
    )
    | some w ↦ (returned, a)
  ]

  unfoldable pub provide_stats_collector : Action
  provide_stats_collector a = elim a.stats_collector [
    | none ↦ (returned, record a { stats_collector = some (Collector.start Collector.not_started) })
    | some c ↦ (returned, a)
  ]

  -- The `try`: the sleep ends by an exception only.
  unfoldable pub serve_until_interrupted : Action
  unfolding start_listener serve_calls
  serve_until_interrupted a =
      except_cancelled ((start_listener >> λ b. (raised e.interrupt, serve_calls e.served b)) a)

  -- The `finally`.
  unfoldable pub cleanup : Action
  unfolding stop_listener stop_batch_writer stop_stats_collector close_pool
  cleanup = do stop_listener; stop_batch_writer; stop_stats_collector; close_pool

  unfoldable pub run_listener : Action
  unfolding provide_pool provide_batch_writer provide_stats_collector serve_until_interrupted
      cleanup
  run_listener = do
    provide_pool
    provide_batch_writer
    provide_stats_collector
    try_finally serve_until_interrupted cleanup
