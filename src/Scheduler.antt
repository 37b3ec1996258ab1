-- ===== src/Scheduler.antt =====
-- The scheduler of src/runtime/scheduler.c, with include/scheduler.h. The table of tasks is the
-- generated one. What the world does is a parameter: how the run of a task ends and what arena it
-- leaves, and whether a thread can be created. `started` has the threads, by the index of their task.
pub mod States
mod Tests
use gargantua.Common.{
  ℕ, zero, suc, ◌+◌, ◌*◌, Bool, true, false, not, ◌&&◌, ◌||◌, Option, none, some, List, [], ◌∷◌,
  ◌++◌, length, get_elem?, set, ltb, leb, ◌==◌, if◌then◌else◌,
}
use gargantua.Arena.{Arena, arena_init, arena_reset, arena_free}

abbrev pub max_tasks : ℕ
max_tasks = 16

abbrev pub scheduler_arena : ℕ
scheduler_arena = 256 * 1024

-- `interval_ms`; a negative interval is `none`. `body` and `name` tell whether the pointer is set.
pub record Task : Type 0 where
  pub name : Bool
  pub interval_ms : Option ℕ
  pub body : Bool

pub record Scheduler : Type 0 where
  pub runners : List Arena
  pub started : List ℕ
  pub running : Bool
  pub stopping : Bool

-- A task's body, on the arena bound to it: whether it succeeded, and the arena that it leaves.
-- `create` tells whether the thread for a task can be created.
pub record World : Type 0 where
  pub dispatch : ℕ → Arena → Bool × Arena
  pub create : ℕ → Bool
  pub lock : Bool

abbrev pub interval_fits : Option ℕ → Bool
interval_fits none = false
interval_fits (some ms) = leb ms 86400000 && (ms == 0 || leb 100 ms)

abbrev pub task_fits : Task → Bool
task_fits t = t.body && t.name && interval_fits t.interval_ms

-- A runner's arena is set up, or the loop's result is -1.
pub prepare_runner : Scheduler → ℕ → Option Arena → Option Scheduler
prepare_runner s i none = none
prepare_runner s i (some a) = some (record s { runners = set s.runners i a })

-- The loop over the tasks from `i` on. The tasks themselves stay where they are, so that a runner's
-- task is the one of its index.
pub prepare_loop : List Task → ℕ → Scheduler → Bool × Scheduler
prepare_loop [] i s = (true, s)
prepare_loop (t ∷ tasks) i s =
    if not (task_fits t)
    then (false, s)
    else elim (prepare_runner s i (arena_init scheduler_arena)) [
      | none ↦ (false, s)
      | some s' ↦ prepare_loop tasks (suc i) s'
    ]

pub scheduler_prepare : List Task → Scheduler → Bool × Scheduler
scheduler_prepare tasks s =
    if ltb max_tasks (length tasks) then (false, s) else prepare_loop tasks 0 s

abbrev pub free_all : List Arena → List Arena
free_all [] = []
free_all (a ∷ rest) = (arena_free a).0 ∷ free_all rest

-- The threads are woken and joined, and all arenas freed.
pub scheduler_stop : World → Scheduler → Scheduler
scheduler_stop w s =
    if w.lock
    then record s { stopping = true; started = []; runners = free_all s.runners; running = false }
    else s

-- The task's arena after its body: a broken canary stops all.
pub run_reset : Scheduler → ℕ → Bool × Arena → Bool × Scheduler
run_reset s i (result, a) =
    let (intact, b, released) = arena_reset a in
    let runners = set s.runners i b in
    if intact
    then (result, record s { runners = runners })
    else (false, record s { runners = runners; stopping = true })

-- The run of the task `i`, whose arena is `runner`.
pub scheduler_run_task : World → Scheduler → ℕ → Option Arena → Bool × Scheduler
scheduler_run_task w s i none = (false, s)
scheduler_run_task w s i (some a) = run_reset s i (w.dispatch i a)

abbrev pub is_once : Task → Bool
is_once t = elim t.interval_ms [ none ↦ false | some ms ↦ ms == 0 ]

-- The tasks from `i` on that run once, in order, up to the first that fails.
pub once_loop : World → List Task → ℕ → Scheduler → Bool × Scheduler
once_loop w [] i s = (true, s)
once_loop w (t ∷ tasks) i s =
    let (ok, s') = scheduler_run_task w s i (get_elem? s.runners i) in
    let rest = once_loop w tasks (suc i) s in
    let rest_run = once_loop w tasks (suc i) s' in
    if not (is_once t) then rest else if ok then rest_run else (false, scheduler_stop w s')

-- What follows the preparation.
pub startup_run : World → List Task → Bool × Scheduler → Bool × Scheduler
startup_run w tasks (false, s) = (false, s)
startup_run w tasks (true, s) = once_loop w tasks 0 (record s { running = true; stopping = false })

-- `true` is the result 0.
pub scheduler_startup : World → List Task → Scheduler → Bool × Scheduler
scheduler_startup w tasks s =
    if s.running then (false, s) else startup_run w tasks (scheduler_prepare tasks s)

-- A thread for each task from `i` on that runs repeatedly.
pub create_loop : World → List Task → ℕ → Scheduler → Bool × Scheduler
create_loop w [] i s = (true, s)
create_loop w (t ∷ tasks) i s =
    let rest = create_loop w tasks (suc i) s in
    let rest_created = create_loop w tasks (suc i) (record s { started = s.started ++ (i ∷ []) }) in
    if is_once t then rest else if w.create i then rest_created else (false, scheduler_stop w s)

-- What follows the startup.
pub start_threads : World → List Task → Bool × Scheduler → Bool × Scheduler
start_threads w tasks (false, s) = (false, s)
start_threads w tasks (true, s) =
    if not (length s.started == 0) then (false, s) else create_loop w tasks 0 s

pub scheduler_start : World → List Task → Scheduler → Bool × Scheduler
scheduler_start w tasks s =
    start_threads w tasks (if s.running then (true, s) else scheduler_startup w tasks s)
