-- ===== src/Scheduler/Tests.antt =====
-- A table with one task of each kind.
use gargantua.Common.{ℕ, arith, true, false, none, some, List, [], ◌∷◌, ◌≡◌, refl}
use gargantua.Arena.{Arena, arena_init, arena_reset, sweep}
use gargantua.Scheduler.{
  Task, Scheduler, World, prepare_runner, prepare_loop, scheduler_prepare, run_reset,
  scheduler_run_task, once_loop, startup_run, scheduler_startup, create_loop, start_threads,
  scheduler_start,
}
use gargantua.Scheduler.States.{Started, scheduler_start-Started}

abbrev zeroed : Arena
zeroed = record { head = []; spare = none; used = 0; max = 0; peak = 0; refusals = 0 }

abbrev fine : World
fine = record { dispatch = λ i a. (true, a); create = λ i. true; lock = true }

abbrev tasks : List Task
tasks =
    record { name = true; interval_ms = some 0; body = true }
    ∷ record { name = true; interval_ms = some 500; body = true }
    ∷ []

abbrev idle : Scheduler
idle = record { runners = zeroed ∷ zeroed ∷ []; started = []; running = false; stopping = false }

abbrev busy : Scheduler
busy = record idle { started = 1 ∷ []; running = true }

scheduler_start-fine : (scheduler_start fine tasks idle).1.started ≡ 1 ∷ []
unfolding scheduler_start scheduler_startup scheduler_prepare prepare_loop prepare_runner
    startup_run once_loop scheduler_run_task run_reset start_threads create_loop arena_init
    arena_reset sweep
scheduler_start-fine = refl

-- Behind `scheduler_startup`.
abbrev started_up : Scheduler
started_up = record idle { running = true }

scheduler_start-Started_example :
    Started tasks (scheduler_start fine tasks started_up)
    × (started_up.running ≡ true
        → ((j : ℕ) → fine.create j ≡ true)
        → (scheduler_start fine tasks started_up).0 ≡ true)
scheduler_start-Started_example =
    scheduler_start-Started fine tasks started_up refl refl (λ r. omega arith)
