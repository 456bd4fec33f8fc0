-- ===== src/Main/Laws.antt =====
-- How `main` ends, and what it leaves open.
use pybmpmon.Base.{◌≡◌, ◌≢◌, refl, true, none, some, ◌++◌, All, arith}
use pybmpmon.Database.Tables.{Database}
use pybmpmon.Listener.Run.{
  cancelled, keyboard_interrupt, failed, Ending, returned, raised, open_pool, closed_pool,
  run_listener,
}
use pybmpmon.Listener.Run.Release.{pool_provided, gives_pool, Cleans, IsReleased}
use pybmpmon.Listener.Run.Delivery.{run_listener_delivers}
use pybmpmon.Database.BatchWriter.{not_copied}
use pybmpmon.Database.BatchWriter.Delivery.{accepted, answer_of}
use pybmpmon.Database.BatchWriter.Shutdown.{in_copy}
use pybmpmon.Main.{
  Startup, open_loop, closed_loop, Process, critical_log, Exit, exits, except_shutdown, exit_of,
  close_pool, shut_down, listen, body, main, and_finally, new_process,
}

-- The statements before `run_listener` return.
pub record Starts (s : Startup) : Type 0 where
  pub logging : s.configure_logging ≡ returned
  pub signals : s.setup_signal_handlers ≡ returned
  pub pool : s.create_pool ≡ returned

-- The exit of `main` once `run_listener` has ended.
abbrev pub exit_after : Ending → Exit
exit_after returned = exits 0 none
exit_after (raised cancelled) = exits 0 none
exit_after (raised keyboard_interrupt) = exits 0 none
exit_after (raised failed) = exits 1 (some critical_log)

-- The process when `run_listener` is called.
abbrev pub ready : Database → Process
ready db = record { logger = true; loop = some open_loop; app = pool_provided db }

shut_down_lem :
    (s : Startup) (p : Process)
    → s.close_pool ≡ returned
    → s.gather ≡ returned
    → let (e, q) = shut_down s p in
      (e ≡ returned)
      × (q.logger ≡ p.logger)
      × (q.loop ≡ some closed_loop)
      × (q.app.pool ≢ some open_pool)
unfolding shut_down close_pool
shut_down_lem s p h k = rw (h, k) (ground arith)

shut_down_closed :
    (s : Startup) (p : Process)
    → p.app.pool ≡ some closed_pool
    → s.gather ≡ returned
    → shut_down s p ≡ (returned, record p { loop = some closed_loop })
unfolding shut_down close_pool
shut_down_closed s p h k = rw k (ground arith)

exits_lem :
    (s : Startup) (e : Ending) (p : Process)
    → p.logger ≡ true
    → s.close_pool ≡ returned
    → s.gather ≡ returned
    → let (exit, q) = exit_of (and_finally (except_shutdown e) (shut_down s p)) in
      (exit ≡ exit_after e) × (q.loop ≡ some closed_loop) × (q.app.pool ≢ some open_pool)
exits_lem s returned p l h k = ground (arith, shut_down_lem s p h k)
exits_lem s (raised cancelled) p l h k = ground (arith, shut_down_lem s p h k)
exits_lem s (raised keyboard_interrupt) p l h k = ground (arith, shut_down_lem s p h k)
exits_lem s (raised failed) p l h k = ground (arith, shut_down_lem s p h k)

main-listen :
    (s : Startup) (db : Database)
    → Starts s
    → s.apply_migrations ≡ returned
    → main s (new_process db) ≡ exit_of (listen s (ready db))
unfolding main body
main-listen s db h k = rw (h.logging, h.signals, h.pool, k) refl

-- If `main` gets as far as `run_listener`, and its own `finally` returns, then whatever happens
-- there the pool is not left open and the event loop is closed. The exit code is 1, with a log,
-- if `run_listener` raises an `Exception`; it is 0 if that returns, is cancelled or interrupted.
pub main_shuts_down :
    (s : Startup) (db : Database)
    → Starts s
    → s.apply_migrations ≡ returned
    → s.close_pool ≡ returned
    → s.gather ≡ returned
    → let (exit, p) = main s (new_process db) in
      (exit ≡ exit_after (run_listener s.listening (ready db).app).0)
      × (p.loop ≡ some closed_loop)
      × (p.app.pool ≢ some open_pool)
unfolding listen
main_shuts_down s db h k c g =
    let (e, a) = run_listener s.listening (ready db).app in
    rw (main-listen s db h k) (exits_lem s e (record (ready db) { app = a }) refl c g)

-- A run of the service from its first statement to SIGTERM: if the start-up returns, the server
-- starts and is cancelled, the calls of the batch writer do not overlap, no COPY fails or is
-- cancelled and the awaits of both `finally` return, then the process ends with the exit code 0,
-- everything is released, and the table of routes has, behind those that were there, exactly the
-- routes that were added meanwhile, in order.
pub main_delivers :
    (s : Startup) (db : Database)
    → Starts s
    → s.apply_migrations ≡ returned
    → s.gather ≡ returned
    → s.listening.start_server ≡ returned
    → s.listening.interrupt ≡ cancelled
    → s.listening.flush_task_at ≢ in_copy
    → All (λ c. answer_of c ≢ not_copied) (s.listening.served ++ s.listening.drained)
    → Cleans s.listening
    → let (exit, p) = main s (new_process db) in
      (exit ≡ exits 0 none)
      × (p.loop ≡ some closed_loop)
      × IsReleased p.app
      × (p.app.database.route_updates
          ≡ db.route_updates ++ accepted true (s.listening.served ++ s.listening.drained))
unfolding listen
main_delivers s db h k g started by_cancel task taken cleans =
    let e = s.listening in
    let (ending, clean, table) =
      run_listener_delivers e db (pool_provided db) gives_pool started by_cancel task taken
        cleans in
    let a = (run_listener e (pool_provided db)).1 in
    let closed = shut_down_closed s (record (ready db) { app = a }) clean.pool g in
    rw (main-listen s db h k, ending, closed) (refl, refl, clean, table)
