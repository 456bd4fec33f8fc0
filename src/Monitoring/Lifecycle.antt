-- ===== src/Monitoring/Lifecycle.antt =====
-- stats.py: `start` and `stop` of the collector with the task of the periodic logging, and the
-- throughput that it logs, where the interval is a whole number of seconds.
use pybmpmon.Base.{ℕ, ◌+◌, ◌-◌, ◌/◌, ◌≡◌, Bool, true, false, List, [], ◌∷◌, arith, if◌then◌else◌}
use pybmpmon.Monitoring.PeerStats.{PeerStats}

-- The fields `_running` and `_logging_task` (whether it holds a task), and how many tasks there are.
pub record Lifecycle : Type 0 where
  pub running : Bool
  pub logging_task : Bool
  pub tasks : ℕ

abbrev pub not_started : Lifecycle
not_started = record { running = false; logging_task = false; tasks = 0 }

unfoldable pub start : Lifecycle → Lifecycle
start c =
    if c.running then c else record { running = true; logging_task = true; tasks = c.tasks + 1 }

-- The task is cancelled and waited for.
unfoldable pub stop : Lifecycle → Lifecycle
stop c =
    if c.logging_task
    then record { running = false; logging_task = false; tasks = c.tasks - 1 }
    else record c { running = false }

unfoldable pub throughput_per_sec : ℕ → PeerStats → ℕ
throughput_per_sec log_interval stats = stats.routes_processed / log_interval

pub data Call : Type 0 where
  starts stops : Call

abbrev pub step : Call → Lifecycle → Lifecycle
unfolding start stop
step starts c = start c
step stops c = stop c

abbrev pub run : List Call → Lifecycle → Lifecycle
run [] c = c
run (call ∷ calls) c = run calls (step call c)

-- One task while it runs, which the field holds, and none else.
pub record HasOneTask (c : Lifecycle) : Type 0 where
  pub held : c.logging_task ≡ c.running
  pub counted : c.tasks ≡ (if c.running then 1 else 0)

step-HasOneTask : (call : Call) (c : Lifecycle) → HasOneTask c → HasOneTask (step call c)
unfolding start stop
step-HasOneTask starts c h = ground arith
step-HasOneTask stops c h = ground arith

-- From a collector that is not started on, whatever sequence of `start` and `stop` is called, it has
-- one logging task while it runs, and none else.
pub run-HasOneTask : (calls : List Call) (c : Lifecycle) → HasOneTask c → HasOneTask (run calls c)
run-HasOneTask [] c h = h
run-HasOneTask (call ∷ calls) c h = run-HasOneTask calls (step call c) (step-HasOneTask call c h)
