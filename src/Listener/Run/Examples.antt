-- ===== src/Listener/Run/Examples.antt =====
-- Tests of `run_listener` on a service that takes two routes, and its theorems applied to it.
use pybmpmon.Base.{◌≡◌, refl, [], ◌∷◌, ◌++◌, some, true}
use pybmpmon.Database.BatchWriter as Writer
use pybmpmon.Database.BatchWriter.{
  Answer, not_copied, succeeds, new_writer, add_route, flush, periodic_flush, stop,
}
use pybmpmon.Database.BatchWriter.TestData.{route_at, no_rows}
use pybmpmon.Database.BatchWriter.Laws.{adds, ticks, run, step}
use pybmpmon.Database.BatchWriter.Delivery.{accepted}
use pybmpmon.Database.BatchWriter.Shutdown.{TaskAt, sleeping, in_copy, stop_at, cancel_task}
use pybmpmon.Monitoring.Lifecycle as Collector
use pybmpmon.Listener.Run.{
  cancelled, failed, returned, raised, open_pool, Ending, Events, run_listener, start_listener,
  serve_until_interrupted, cleanup, stop_listener, stop_batch_writer, stop_stats_collector,
  close_pool, provide_pool, provide_batch_writer, provide_stats_collector, serve_calls,
}
use pybmpmon.Listener.Run.Release.{
  IsReleased, Cleans, nothing_provided, pool_provided, makes_pool, gives_pool, ending_of,
  final_state, run_listener-IsReleased,
}
use pybmpmon.Listener.Run.Delivery.{run_listener_delivers}
use pybmpmon.Listener.Run.Leak.{run_listener_leaks}

-- The first route is flushed by the timeout, the second comes while the listener stops.
abbrev shutdown : TaskAt → Answer → Ending → Events
shutdown task last_answer start_server = record {
  create_pool = returned;
  start_server = start_server;
  served = adds 1 succeeds (route_at 1) ∷ ticks 600 succeeds ∷ [];
  interrupt = cancelled;
  wait_closed = returned;
  drained = adds 700 succeeds (route_at 2) ∷ [];
  flush_task_at = task;
  last_answer = last_answer;
  close_pool = returned;
}

shutdown-Cleans : (task : TaskAt) (bound : Ending) → Cleans (shutdown task succeeds bound)
shutdown-Cleans task bound = record { server = refl; last_flush = refl; pool = refl }

-- A COPY that is cancelled by `stop` loses the second route.
second_route_lost :
    (run_listener
      (shutdown in_copy succeeds returned)
      (nothing_provided no_rows)).1.database.route_updates
    ≡ route_at 1 ∷ []
unfolding run_listener cleanup stop_listener stop_batch_writer stop_stats_collector close_pool
    provide_pool provide_batch_writer provide_stats_collector serve_until_interrupted start_listener
    serve_calls run step add_route periodic_flush flush stop_at stop cancel_task Writer.start
second_route_lost = refl

run_listener_delivers_example :
    let (ending, a) =
      run_listener (shutdown sleeping succeeds returned) (nothing_provided no_rows) in
    (ending ≡ returned)
    × IsReleased a
    × (a.database.route_updates
        ≡ no_rows.route_updates
          ++ accepted true (
              (shutdown sleeping succeeds returned).served
              ++ (shutdown sleeping succeeds returned).drained))
run_listener_delivers_example =
    run_listener_delivers (shutdown sleeping succeeds returned) no_rows (nothing_provided no_rows)
      (makes_pool refl) refl refl (λ h. cc) ((λ h. cc), ((λ h. cc), ((λ h. cc), tt)))
      (shutdown-Cleans sleeping returned)

-- The port is in use.
run_listener-IsReleased_example :
    let (ending, a) =
      run_listener (shutdown sleeping succeeds (raised failed)) (nothing_provided no_rows) in
    (ending ≡ ending_of (shutdown sleeping succeeds (raised failed)) (raised failed)) × IsReleased a
run_listener-IsReleased_example =
    run_listener-IsReleased (shutdown sleeping succeeds (raised failed)) no_rows
      (nothing_provided no_rows) (makes_pool refl) (shutdown-Cleans sleeping (raised failed))

one_route_waits :
    (final_state (shutdown sleeping not_copied returned) returned no_rows).0.batch ≡ route_at 2 ∷ []
unfolding run step add_route periodic_flush flush Writer.start
one_route_waits = refl

run_listener_leaks_example :
    let (ending, a) =
      run_listener (shutdown sleeping not_copied returned) (pool_provided no_rows) in
    (ending ≡ raised failed)
    × (a.pool ≡ some open_pool)
    × (a.stats_collector ≡ some (Collector.start Collector.not_started))
run_listener_leaks_example =
    run_listener_leaks (shutdown sleeping not_copied returned) no_rows (pool_provided no_rows)
      gives_pool refl refl refl (λ h. cc) (λ h. cc (one_route_waits))
