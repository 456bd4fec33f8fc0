-- ===== src/Main/Failures.antt =====
-- What a start-up that fails leaves open, whichever statement of `main` before `run_listener` fails.
use pybmpmon.Base.{◌≡◌, refl, true, false, none, some}
use pybmpmon.Database.Tables.{Database}
use pybmpmon.Listener.Run.{Exception, cancelled, keyboard_interrupt, failed, returned, raised}
use pybmpmon.Listener.Run.Release.{nothing_provided, pool_provided}
use pybmpmon.Main.{
  Startup, open_loop, Process, critical_log, fatal_print, Report, Exit, exits, uncaught, exit_of,
  body, main, new_process,
}

-- The statements that can raise before `run_listener` is called.
pub data Stage : Type 0 where
  logging signals creating migrating : Stage

-- The first of them that raises, and what it raises.
abbrev pub FailsAt : Startup → Exception → Stage → Type 0
FailsAt s x logging = s.configure_logging ≡ raised x
FailsAt s x signals = (s.configure_logging ≡ returned) × (s.setup_signal_handlers ≡ raised x)
FailsAt s x creating =
    (s.configure_logging ≡ returned)
    × (s.setup_signal_handlers ≡ returned)
    × (s.create_pool ≡ raised x)
FailsAt s x migrating =
    (s.configure_logging ≡ returned)
    × (s.setup_signal_handlers ≡ returned)
    × (s.create_pool ≡ returned)
    × (s.apply_migrations ≡ raised x)

abbrev pub report_at : Stage → Report
report_at logging = fatal_print
report_at signals = critical_log
report_at creating = critical_log
report_at migrating = critical_log

abbrev pub exit_at : Stage → Exception → Exit
exit_at stage cancelled = uncaught cancelled
exit_at stage keyboard_interrupt = uncaught keyboard_interrupt
exit_at stage failed = exits 1 (some (report_at stage))

-- The process as it stands then.
abbrev pub left_at : Stage → Database → Process
left_at logging db = record { logger = false; loop = none; app = nothing_provided db }
left_at signals db = record { logger = true; loop = some open_loop; app = nothing_provided db }
left_at creating db = record { logger = true; loop = some open_loop; app = nothing_provided db }
left_at migrating db = record { logger = true; loop = some open_loop; app = pool_provided db }

body_fails :
    (s : Startup) (db : Database) (stage : Stage) (x : Exception)
    → FailsAt s x stage
    → body s (new_process db) ≡ (raised x, left_at stage db)
unfolding body
body_fails s db logging x h = rw h refl
body_fails s db signals x (l, h) = rw (l, h) refl
body_fails s db creating x (l, g, h) = rw (l, g, h) refl
body_fails s db migrating x (l, g, p, h) = rw (l, g, p, h) refl

exit_of_failure :
    (db : Database) (stage : Stage) (x : Exception)
    → exit_of (raised x, left_at stage db) ≡ (exit_at stage x, left_at stage db)
exit_of_failure db stage cancelled = refl
exit_of_failure db stage keyboard_interrupt = refl
exit_of_failure db logging failed = refl
exit_of_failure db signals failed = refl
exit_of_failure db creating failed = refl
exit_of_failure db migrating failed = refl

-- Whichever statement of the start-up is the first to raise, that of the logging, the signal
-- handlers, the pool or the migrations, `main` closes nothing. The event loop is left open,
-- unless the logging raises, before which there is none, and the pool too if it is the
-- migrations that raise; nothing else of the process has changed but that the logger is set
-- behind the logging. The process ends by the exception itself if it is cancelled or
-- interrupted. If this is an `Exception`, the exit code is 1, and the error is printed if the
-- logging raises and logged otherwise.
pub main_leaks :
    (s : Startup) (db : Database) (stage : Stage) (x : Exception)
    → FailsAt s x stage
    → main s (new_process db) ≡ (exit_at stage x, left_at stage db)
unfolding main
main_leaks s db stage x h = rw (body_fails s db stage x h) (exit_of_failure db stage x)
