-- ===== src/Main/Examples.antt =====
-- Tests of `main`, and its theorems applied to a run that is cancelled.
use pybmpmon.Base.{◌≡◌, ◌≢◌, refl, [], ◌∷◌, ◌++◌, none, some, true}
use pybmpmon.Database.BatchWriter.{succeeds}
use pybmpmon.Database.BatchWriter.TestData.{route_at, no_rows}
use pybmpmon.Database.BatchWriter.Laws.{adds}
use pybmpmon.Database.BatchWriter.Delivery.{accepted}
use pybmpmon.Database.BatchWriter.Shutdown.{sleeping}
use pybmpmon.Listener.Run.{
  cancelled, failed, Ending, returned, raised, open_pool, Events, run_listener,
}
use pybmpmon.Listener.Run.Release.{IsReleased}
use pybmpmon.Main.{Startup, closed_loop, exits, fatal_print, main, body, new_process}
use pybmpmon.Main.Laws.{Starts, exit_after, ready, main_shuts_down, main_delivers}
use pybmpmon.Main.Failures.{migrating, exit_at, left_at, main_leaks}

abbrev one_route : Events
one_route = record {
  create_pool = returned;
  start_server = returned;
  served = adds 1 succeeds (route_at 1) ∷ [];
  interrupt = cancelled;
  wait_closed = returned;
  drained = [];
  flush_task_at = sleeping;
  last_answer = succeeds;
  close_pool = returned;
}

abbrev startup : Ending → Ending → Startup
startup configure_logging apply_migrations = record {
  configure_logging = configure_logging;
  setup_signal_handlers = returned;
  create_pool = returned;
  apply_migrations = apply_migrations;
  listening = one_route;
  close_pool = returned;
  gather = returned;
}

-- Without a logger the error is printed.
no_logger :
    (main (startup (raised failed) returned) (new_process no_rows)).0 ≡ exits 1 (some fatal_print)
unfolding main body
no_logger = refl

startup-Starts : (apply_migrations : Ending) → Starts (startup returned apply_migrations)
startup-Starts apply_migrations = record { logging = refl; signals = refl; pool = refl }

main_shuts_down_example :
    let (exit, p) = main (startup returned returned) (new_process no_rows) in
    (exit ≡ exit_after (run_listener one_route (ready no_rows).app).0)
    × (p.loop ≡ some closed_loop)
    × (p.app.pool ≢ some open_pool)
main_shuts_down_example =
    main_shuts_down (startup returned returned) no_rows (startup-Starts returned) refl refl refl

main_leaks_example :
    main (startup returned (raised failed)) (new_process no_rows)
    ≡ (exit_at migrating failed, left_at migrating no_rows)
main_leaks_example =
    main_leaks (startup returned (raised failed)) no_rows migrating failed (refl, refl, refl, refl)

main_delivers_example :
    let (exit, p) = main (startup returned returned) (new_process no_rows) in
    (exit ≡ exits 0 none)
    × (p.loop ≡ some closed_loop)
    × IsReleased p.app
    × (p.app.database.route_updates
        ≡ no_rows.route_updates ++ accepted true (one_route.served ++ one_route.drained))
main_delivers_example =
    main_delivers (startup returned returned) no_rows (startup-Starts returned) refl refl refl refl
      (λ h. cc) ((λ h. cc), tt) (record { server = refl; last_flush = refl; pool = refl })
