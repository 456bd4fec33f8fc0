-- ===== src/Listener/Run/Leak.antt =====
-- What `run_listener` leaves behind when its last flush fails.
use pybmpmon.Base.{◌≡◌, ◌≢◌, refl, List, [], ◌∷◌, some, arith}
use pybmpmon.Models.Route.{RouteUpdate}
use pybmpmon.Database.Tables.{Database}
use pybmpmon.Database.BatchWriter as Writer
use pybmpmon.Database.BatchWriter.{
  BatchWriter, Answer, not_copied, fails_at, succeeds, flush, new_writer, stop,
}
use pybmpmon.Database.BatchWriter.Laws.{State, run}
use pybmpmon.Database.BatchWriter.Shutdown.{sleeping, cancel_task, stop_at}
use pybmpmon.Monitoring.Lifecycle.{Lifecycle}
use pybmpmon.Monitoring.Lifecycle as Collector
use pybmpmon.Listener.Run.{
  failed, Ending, returned, raised, open_pool, listening, App, Events, serve_calls, stop_listener,
  stop_batch_writer, cleanup, run_listener, and_finally,
}
use pybmpmon.Listener.Run.Release.{
  running, Provides, uncaught, fresh, final_state, serve_lem, provided_lem,
}

stop_at-fails :
    (answer : Answer) (w : BatchWriter) (db : Database)
    → answer ≢ succeeds
    → w.batch ≢ []
    → (stop_at sleeping answer w db).0 ≡ Writer.database_error
unfolding stop_at stop flush cancel_task
stop_at-fails answer w db fails some_routes = go answer w.batch refl fails
  where
    go :
        (answer : Answer) (rs : List RouteUpdate)
        → w.batch ≡ rs
        → answer ≢ succeeds
        → (stop_at sleeping answer w db).0 ≡ Writer.database_error
    go answer [] e fails = absurd (some_routes e)
    go not_copied (r ∷ rs) e fails = ground arith
    go (fails_at i) (r ∷ rs) e fails = ground arith
    go succeeds (r ∷ rs) e fails = absurd (fails refl)

cleanup_fails :
    (e : Events) (s : State)
    → e.wait_closed ≡ returned
    → e.flush_task_at ≡ sleeping
    → e.last_answer ≢ succeeds
    → (run e.drained s).0.batch ≢ []
    → let (ending, a) = cleanup e (running (some listening) s) in
      (ending ≡ raised failed)
      × (a.pool ≡ some open_pool)
      × (a.stats_collector ≡ some (Collector.start Collector.not_started))
unfolding cleanup stop_listener stop_batch_writer serve_calls
cleanup_fails e (w, db) closed task fails some_routes =
    let (v, d) = run e.drained (w, db) in
    let over = stop_at-fails e.last_answer v d fails some_routes in
    rw (closed, task) (ground (arith, over))

and_finally-raised :
    (ending : Ending) (r : Ending × App) → r.0 ≡ raised failed → and_finally ending r ≡ r
and_finally-raised ending (returned, a) h = cc
and_finally-raised ending (raised x, a) h = refl

-- If a pool is given or can be made, the server starts and stops, and the last flush fails on a
-- batch with routes, then `run_listener` raises, and the `finally` stops there: the collector
-- runs on with its task and the pool stays open.
pub run_listener_leaks :
    (e : Events) (db : Database) (a : App)
    → Provides e db a
    → e.start_server ≡ returned
    → e.wait_closed ≡ returned
    → e.flush_task_at ≡ sleeping
    → e.last_answer ≢ succeeds
    → (final_state e returned db).0.batch ≢ []
    → let (ending, b) = run_listener e a in
      (ending ≡ raised failed)
      × (b.pool ≡ some open_pool)
      × (b.stats_collector ≡ some (Collector.start Collector.not_started))
run_listener_leaks e db a made started closed task fails some_routes =
    let b = running (some listening) (run e.served (fresh db)) in
    let served = serve_lem e (fresh db) returned e.interrupt started refl in
    let stuck = cleanup_fails e (run e.served (fresh db)) closed task fails some_routes in
    rw
      (
        provided_lem e db a made,
        served,
        and_finally-raised (uncaught e.interrupt) (cleanup e b) stuck.0,
      )
      stuck
