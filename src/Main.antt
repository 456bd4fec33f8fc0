-- ===== src/Main.antt =====
-- src/pybmpmon/__main__.py: `main`, from its first statement to the exit code.
pub mod Laws
pub mod Failures
mod Examples
use pybmpmon.Base.{ℕ, Bool, true, false, Option, none, some, if◌then◌else◌}
use pybmpmon.Database.Tables.{Database}
use pybmpmon.Listener.Run.{
  Exception, cancelled, keyboard_interrupt, failed, Ending, returned, raised, Pool, open_pool,
  closed_pool, App, Events, run_listener,
}
use pybmpmon.Listener.Run.Release.{nothing_provided}

-- How the statements of `main` end; `listening` is for those of `run_listener`.
pub record Startup : Type 0 where
  pub configure_logging : Ending
  pub setup_signal_handlers : Ending
  pub create_pool : Ending
  pub apply_migrations : Ending
  pub listening : Events
  pub close_pool : Ending
  pub gather : Ending

pub data Loop : Type 0 where
  open_loop closed_loop : Loop

-- Whether the global `logger` is set, the event loop and what `run_listener` works on.
pub record Process : Type 0 where
  pub logger : Bool
  pub loop : Option Loop
  pub app : App

-- The output of a fatal error.
pub data Report : Type 0 where
  critical_log fatal_print : Report

-- How the process ends.
pub data Exit : Type 0 where
  exits : ℕ → Option Report → Exit
  uncaught : Exception → Exit

abbrev pub Action : Type 0
Action = Process → Ending × Process

abbrev pub and_then : Action → Ending × Process → Ending × Process
and_then k (returned, p) = k p
and_then k (raised x, p) = (raised x, p)

infixl 5 ◌>>◌
abbrev pub ◌>>◌ : Action → Action → Action
◌>>◌ m k p = and_then k (m p)

abbrev pub await : Ending → (Process → Process) → Action
await returned f p = (returned, f p)
await (raised x) f p = (raised x, p)

abbrev pub and_finally : Ending → Ending × Process → Ending × Process
and_finally e (returned, p) = (e, p)
and_finally e (raised x, p) = (raised x, p)

-- The two `except` clauses round `run_listener`.
abbrev pub except_shutdown : Ending → Ending
except_shutdown returned = returned
except_shutdown (raised cancelled) = returned
except_shutdown (raised keyboard_interrupt) = returned
except_shutdown (raised failed) = raised failed

abbrev pub set_pool : Pool → Process → Process
set_pool pool p = record p { app = record p.app { pool = some pool } }

-- The outer `except Exception`. The result 0 is that of a process that comes to its end.
abbrev pub exit_of : Ending × Process → Exit × Process
exit_of (returned, p) = (exits 0 none, p)
exit_of (raised cancelled, p) = (uncaught cancelled, p)
exit_of (raised keyboard_interrupt, p) = (uncaught keyboard_interrupt, p)
exit_of (raised failed, p) = (exits 1 (some (if p.logger then critical_log else fatal_print)), p)

abbrev pub with_app : Process → Ending × App → Ending × Process
with_app p (e, a) = (e, record p { app = a })

module _ (s : Startup) where
  -- "Close database pool": asyncpg's `close` of a closed pool returns.
  unfoldable pub close_pool : Action
  close_pool p = elim p.app.pool [
    | none ↦ (returned, p)
    | some open_pool ↦ await s.close_pool (set_pool closed_pool) p
    | some closed_pool ↦ (returned, p)
  ]

  -- The inner `finally`.
  unfoldable pub shut_down : Action
  unfolding close_pool
  shut_down = do close_pool; await s.gather λ p. record p { loop = some closed_loop }

  unfoldable pub listen : Action
  unfolding run_listener shut_down
  listen p =
      let (e, q) = with_app p (run_listener s.listening p.app) in
      and_finally (except_shutdown e) (shut_down q)

  -- The outer `try`.
  unfoldable pub body : Action
  unfolding listen
  body = do
    await s.configure_logging λ p. record p { logger = true }
    await returned λ p. record p { loop = some open_loop }
    await s.setup_signal_handlers λ p. p
    await s.create_pool (set_pool open_pool)
    await s.apply_migrations λ p. p
    listen

  unfoldable pub main : Process → Exit × Process
  unfolding body
  main p = exit_of (body p)

abbrev pub new_process : Database → Process
new_process db = record { logger = false; loop = none; app = nothing_provided db }
