-- ===== src/Listener/Run/Release.antt =====
-- What `run_listener` leaves behind: the state in which each part of it ends.
use pybmpmon.Base.{◌≡◌, ◌≢◌, refl, ◌∙◌, [], true, false, Option, none, some, arith}
use pybmpmon.Database.Tables.{Database}
use pybmpmon.Database.BatchWriter as Writer
use pybmpmon.Database.BatchWriter.{
  BatchWriter, Answer, not_copied, fails_at, succeeds, flush, new_writer, stop,
}
use pybmpmon.Database.BatchWriter.Laws.{State, state_of, run}
use pybmpmon.Database.BatchWriter.Shutdown.{stop_at, stop_at-batch, stop_at-succeeds}
use pybmpmon.Monitoring.Lifecycle.{Lifecycle}
use pybmpmon.Monitoring.Lifecycle as Collector
use pybmpmon.Listener.Run.{
  Exception, cancelled, failed, Ending, returned, raised, open_pool, closed_pool, Server, listening,
  closed_server, App, Events, serve_calls, stop_listener, stop_batch_writer, stop_stats_collector,
  close_pool, provide_pool, provide_batch_writer, provide_stats_collector, start_listener,
  serve_until_interrupted, cleanup, run_listener, and_finally, keyboard_interrupt,
}

-- Nothing is left open or running, and the batch is empty.
pub record IsReleased (a : App) : Type 0 where
  pub pool : a.pool ≡ some closed_pool
  pub server : a.server ≢ some listening
  pub flush_task : a.flush_task ≡ false
  pub writer :
      (w : BatchWriter) × (a.batch_writer ≡ some w) × (w.is_running ≡ false) × (w.batch ≡ [])
  pub collector :
      (c : Lifecycle) × (a.stats_collector ≡ some c)
      × (c.running ≡ false)
      × (c.logging_task ≡ false)

-- The awaits of the `finally` return.
pub record Cleans (e : Events) : Type 0 where
  pub server : e.wait_closed ≡ returned
  pub last_flush : e.last_answer ≡ succeeds
  pub pool : e.close_pool ≡ returned

-- Behind "Create … if not provided", with nothing provided.
abbrev pub running : Option Server → State → App
running server (w, db) = record {
  pool = some open_pool;
  batch_writer = some w;
  flush_task = true;
  stats_collector = some (Collector.start Collector.not_started);
  server = server;
  database = db;
}

abbrev pub released : Option Server → State → App
released server (w, db) = record {
  pool = some closed_pool;
  batch_writer = some w;
  flush_task = false;
  stats_collector = some (Collector.stop (Collector.start Collector.not_started));
  server = server;
  database = db;
}

abbrev pub nothing_provided : Database → App
nothing_provided db = record {
  pool = none;
  batch_writer = none;
  flush_task = false;
  stats_collector = none;
  server = none;
  database = db;
}

abbrev pub pool_provided : Database → App
pool_provided db = record (nothing_provided db) { pool = some open_pool }

-- What `run_listener` is called with: no pool, and one can be made; or an open pool.
pub data Provides (e : Events) (db : Database) : App → Type 0 where
  makes_pool : e.create_pool ≡ returned → Provides e db (nothing_provided db)
  gives_pool : Provides e db (pool_provided db)

abbrev pub drained_state : Events → Option Server → State → State
drained_state e none s = s
drained_state e (some server) s = run e.drained s

abbrev pub stopped_server : Option Server → Option Server
stopped_server none = none
stopped_server (some server) = some closed_server

abbrev pub stopped : Events → State → State
stopped e (w, db) = state_of (stop_at e.flush_task_at succeeds w db)

pub cleanup_lem :
    (e : Events) (server : Option Server) (s : State)
    → Cleans e
    → cleanup e (running server s)
      ≡ (returned, released (stopped_server server) (stopped e (drained_state e server s)))
unfolding cleanup stop_listener stop_batch_writer stop_stats_collector close_pool serve_calls
cleanup_lem e none (w, db) h =
    let (over, off) = stop_at-succeeds e.flush_task_at w db in
    rw (h.last_flush, h.pool) (ground (arith, over))
cleanup_lem e (some server) (w, db) h =
    let (v, d) = run e.drained (w, db) in
    let (over, off) = stop_at-succeeds e.flush_task_at v d in
    rw (h.server, h.last_flush, h.pool) (ground (arith, over))

pub released-IsReleased :
    (e : Events) (server : Option Server) (s : State)
    → IsReleased (released (stopped_server server) (stopped e s))
unfolding Collector.stop Collector.start
released-IsReleased e server (w, db) = record {
  pool = refl;
  server = elim server as (λ s. stopped_server s ≢ some listening) [
    | none ↦ λ h. cc
    | some s ↦ λ h. cc
  ];
  flush_task = refl;
  writer = (
    (stopped e (w, db)).0,
    refl,
    (stop_at-succeeds e.flush_task_at w db).1,
    stop_at-batch e.flush_task_at succeeds w db,
  );
  collector = (_, refl, refl, refl);
}

-- What the `except` leaves of an exception.
abbrev pub uncaught : Exception → Ending
uncaught cancelled = returned
uncaught keyboard_interrupt = raised keyboard_interrupt
uncaught failed = raised failed

abbrev pub ending_of : Events → Ending → Ending
ending_of e returned = uncaught e.interrupt
ending_of e (raised x) = uncaught x

abbrev pub server_of : Ending → Option Server
server_of returned = some listening
server_of (raised x) = none

abbrev pub served_state : Events → Ending → State → State
served_state e returned s = run e.served s
served_state e (raised x) s = s

abbrev pub fresh : Database → State
fresh db = (Writer.start (new_writer 1000 500), db)

-- The state of the writer and the database when the writer is stopped.
abbrev pub final_state : Events → Ending → Database → State
final_state e started db = drained_state e (server_of started) (served_state e started (fresh db))

pub serve_lem :
    (e : Events) (s : State) (started : Ending) (x : Exception)
    → e.start_server ≡ started
    → e.interrupt ≡ x
    → serve_until_interrupted e (running none s)
      ≡ (ending_of e started, running (server_of started) (served_state e started s))
unfolding serve_until_interrupted start_listener serve_calls
serve_lem e (w, db) returned cancelled h k = rw (h, k) refl
serve_lem e (w, db) returned keyboard_interrupt h k = rw (h, k) refl
serve_lem e (w, db) returned failed h k = rw (h, k) refl
serve_lem e (w, db) (raised cancelled) x h k = rw h refl
serve_lem e (w, db) (raised keyboard_interrupt) x h k = rw h refl
serve_lem e (w, db) (raised failed) x h k = rw h refl

pub provided_lem :
    (e : Events) (db : Database) (a : App)
    → Provides e db a
    → let (served, b) = serve_until_interrupted e (running none (fresh db)) in
      run_listener e a ≡ and_finally served (cleanup e b)
unfolding run_listener provide_pool provide_batch_writer provide_stats_collector
provided_lem e db a (makes_pool h) = rw h refl
provided_lem e db a gives_pool = refl

pub run_listener_lem :
    (e : Events) (db : Database) (a : App)
    → Provides e db a
    → Cleans e
    → run_listener e a ≡ (
      ending_of e e.start_server,
      released
          (stopped_server (server_of e.start_server))
          (stopped e (final_state e e.start_server db)),
    )
run_listener_lem e db a made h =
    let s = served_state e e.start_server (fresh db) in
    let served = serve_lem e (fresh db) e.start_server e.interrupt refl refl in
    let cleaned = cleanup_lem e (server_of e.start_server) s h in
    provided_lem e db a made ∙ rw (served, cleaned) refl

-- If a pool is given or can be made, the awaits of the `finally` return and the last flush
-- succeeds, then `run_listener` releases everything, also when the server does not start and
-- whatever ends the sleep: the pool and the server are closed, no task runs and the batch is
-- empty. It returns if it is cancelled, and raises any other exception.
pub run_listener-IsReleased :
    (e : Events) (db : Database) (a : App)
    → Provides e db a
    → Cleans e
    → let (ending, b) = run_listener e a in (ending ≡ ending_of e e.start_server) × IsReleased b
run_listener-IsReleased e db a made h =
    rw (run_listener_lem e db a made h)
      (refl, released-IsReleased e (server_of e.start_server) (final_state e e.start_server db))
