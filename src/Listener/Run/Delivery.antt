-- ===== src/Listener/Run/Delivery.antt =====
-- What becomes of the routes between the start and the end of `run_listener`.
use pybmpmon.Base.{◌≡◌, ◌≢◌, refl, sym, ap, ◌∙◌, List, [], ◌∷◌, ◌++◌, true, All}
use mathlib.Core.List.{append-nil}
use pybmpmon.Database.Tables.{Database}
use pybmpmon.Database.BatchWriter as Writer
use pybmpmon.Database.BatchWriter.{
  BatchWriter, Answer, not_copied, fails_at, succeeds, flush, new_writer, stop,
}
use pybmpmon.Database.BatchWriter.Laws as Calls
use pybmpmon.Database.BatchWriter.Laws.{Call, State, state_of, run}
use pybmpmon.Database.BatchWriter.Delivery.{held, accepted, answer_of, run_delivers}
use pybmpmon.Database.BatchWriter.Shutdown.{in_copy, stop_at-route_updates}
use pybmpmon.Listener.Run.{cancelled, returned, App, Events, run_listener}
use pybmpmon.Listener.Run.Release.{
  IsReleased, Cleans, Provides, fresh, final_state, stopped, run_listener_lem,
  run_listener-IsReleased,
}

run-append : (cs ds : List Call) (s : State) → run (cs ++ ds) s ≡ run ds (run cs s)
unfolding run
run-append [] ds s = refl
run-append (c ∷ cs) ds s = run-append cs ds (Calls.step c s)

-- The routes that are held when the writer is stopped.
held-final_state :
    (e : Events) (db : Database)
    → All (λ c. answer_of c ≢ not_copied) (e.served ++ e.drained)
    → held (final_state e returned db) ≡ db.route_updates ++ accepted true (e.served ++ e.drained)
unfolding Writer.start
held-final_state e db taken =
    ap held (sym (run-append e.served e.drained (fresh db)))
    ∙ run_delivers (e.served ++ e.drained) (fresh db).0 db taken
    ∙ ap (λ rs. rs ++ accepted true (e.served ++ e.drained)) (append-nil db.route_updates)

stopped-route_updates :
    (e : Events) (s : State) → e.flush_task_at ≢ in_copy → (stopped e s).1.route_updates ≡ held s
stopped-route_updates e (w, db) task =
    stop_at-route_updates e.flush_task_at succeeds w db task (λ h. cc)

-- From the start of the service to its shutdown: if a pool is given or can be made, the server
-- starts and is cancelled, no COPY fails or is cancelled and the awaits of the `finally` return,
-- then `run_listener` returns, everything is released, and the table of routes has, behind those
-- that were there, exactly the routes that were added while it served and while it stopped.
pub run_listener_delivers :
    (e : Events) (db : Database) (a : App)
    → Provides e db a
    → e.start_server ≡ returned
    → e.interrupt ≡ cancelled
    → e.flush_task_at ≢ in_copy
    → All (λ c. answer_of c ≢ not_copied) (e.served ++ e.drained)
    → Cleans e
    → let (ending, b) = run_listener e a in
      (ending ≡ returned)
      × IsReleased b
      × (b.database.route_updates ≡ db.route_updates ++ accepted true (e.served ++ e.drained))
run_listener_delivers e db a made started by_cancel task taken h =
    let s = final_state e e.start_server db in
    let (ending, clean) = run_listener-IsReleased e db a made h in
    let table = ap (λ r. r.1.database.route_updates) (run_listener_lem e db a made h) in
    (
      ending ∙ rw (started, by_cancel) refl,
      clean,
      table ∙ stopped-route_updates e s task ∙ rw started (held-final_state e db taken),
    )
