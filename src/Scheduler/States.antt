-- ===== src/Scheduler/States.antt =====
-- The states of the scheduler of src/runtime/scheduler.c: stopped, or running.
use mathlib.Core.Path.{subst}
use gargantua.Common.{
  ℕ, suc, ◌≤◌, Bool, true, false, not, Option, none, some, List, [], ◌∷◌, ◌++◌, append-nil,
  append_assoc, length, get_elem?, ltb, ◌==◌, if◌then◌else◌, ◌≡◌, inl, inr, refl, sym, ap, ◌∙◌,
  arith, Bool-cases, Option-cases, some_inj, some-ne-none, le_of_ltb-false,
}
use gargantua.Arena.{Arena, arena_init, arena_reset}
use gargantua.Scheduler.{
  Task, Scheduler, World, max_tasks, scheduler_arena, task_fits, prepare_runner, prepare_loop,
  scheduler_prepare, scheduler_stop, run_reset, scheduler_run_task, is_once, once_loop, startup_run,
  scheduler_startup, create_loop, start_threads, scheduler_start,
}

abbrev pub IsStopped : Scheduler → Type 0
IsStopped s = (s.running ≡ false) × (s.started ≡ [])

-- The indices, from `i` on, of the tasks that run repeatedly.
abbrev pub repeated : List Task → ℕ → List ℕ
repeated [] i = []
repeated (t ∷ tasks) i = if is_once t then repeated tasks (suc i) else i ∷ repeated tasks (suc i)

-- The outcome of starting: all threads, or none at all.
abbrev pub Started : List Task → Bool × Scheduler → Type 0
Started tasks (false, s) = IsStopped s
Started tasks (true, s) =
    (s.running ≡ true) × (s.started ≡ repeated tasks 0) × (length s.started ≤ max_tasks)

scheduler_stop-IsStopped :
    (w : World) (s : Scheduler) → w.lock ≡ true → IsStopped (scheduler_stop w s)
unfolding scheduler_stop
scheduler_stop-IsStopped w s l = rw l (refl, refl)

-- No thread is left, or those of `more` are added.
abbrev Outcome : Scheduler → List ℕ → Bool × Scheduler → Type 0
Outcome s more (false, b) = IsStopped b
Outcome s more (true, b) = (b.running ≡ true) × (b.started ≡ s.started ++ more)

abbrev Created : List Task → ℕ → Scheduler → Bool × Scheduler → Type 0
Created tasks i s r = Outcome s (repeated tasks i) r

-- A thread more is the first of those behind.
Created-longer :
    (tasks : List Task) (i : ℕ) (s : Scheduler) (r : Bool × Scheduler)
    → Created tasks (suc i) (record s { started = s.started ++ (i ∷ []) }) r
    → Outcome s (i ∷ repeated tasks (suc i)) r
Created-longer tasks i s (false, b) c = c
Created-longer tasks i s (true, b) (r, e) =
    (r, e ∙ append_assoc s.started (i ∷ []) (repeated tasks (suc i)))

create_loop-Created :
    (w : World) (tasks : List Task) (i : ℕ) (s : Scheduler)
    → w.lock ≡ true
    → s.running ≡ true
    → Created tasks i s (create_loop w tasks i s)
unfolding create_loop
create_loop-Created w [] i s l r = (r, sym (append-nil s.started))
create_loop-Created w (t ∷ tasks) i s l r = elim (Bool-cases (is_once t)) [
  | inl once ↦ rw once (create_loop-Created w tasks (suc i) s l r)
  | inr again ↦ elim (Bool-cases (w.create i)) [
    | inr failed ↦ rw (again, failed) (scheduler_stop-IsStopped w s l)
    | inl made ↦
        let s' : Scheduler = record s { started = s.started ++ (i ∷ []) } in
        let rest = create_loop-Created w tasks (suc i) s' l r in
        rw (again, made) (Created-longer tasks i s (create_loop w tasks (suc i) s') rest)
  ]
]

run_reset-same :
    (s : Scheduler) (i : ℕ) (r : Bool × Arena)
    → ((run_reset s i r).1.running ≡ s.running) × ((run_reset s i r).1.started ≡ s.started)
unfolding run_reset
run_reset-same s i (result, a) = elim (Bool-cases (arena_reset a).0) [
  | inl intact ↦ rw intact (refl, refl)
  | inr damaged ↦ rw damaged (refl, refl)
]

run_task-same :
    (w : World) (s : Scheduler) (i : ℕ) (o : Option Arena)
    → ((scheduler_run_task w s i o).1.running ≡ s.running)
      × ((scheduler_run_task w s i o).1.started ≡ s.started)
unfolding scheduler_run_task
run_task-same w s i none = (refl, refl)
run_task-same w s i (some a) = run_reset-same s i (w.dispatch i a)

Outcome-same :
    (s s' : Scheduler) (more : List ℕ) (r : Bool × Scheduler)
    → s'.started ≡ s.started
    → Outcome s' more r
    → Outcome s more r
Outcome-same s s' more (false, b) same o = o
Outcome-same s s' more (true, b) same (r, e) = (r, e ∙ ap (λ l. l ++ more) same)

once_loop-Outcome :
    (w : World) (tasks : List Task) (i : ℕ) (s : Scheduler)
    → w.lock ≡ true
    → s.running ≡ true
    → Outcome s [] (once_loop w tasks i s)
unfolding once_loop
once_loop-Outcome w [] i s l r = (r, sym (append-nil s.started))
once_loop-Outcome w (t ∷ tasks) i s l r = elim (Bool-cases (is_once t)) [
  | inr again ↦ rw again (once_loop-Outcome w tasks (suc i) s l r)
  | inl once ↦
      let run = scheduler_run_task w s i (get_elem? s.runners i) in
      let same = run_task-same w s i (get_elem? s.runners i) in
      elim (Bool-cases run.0) [
        | inr failed ↦ rw (once, failed) (scheduler_stop-IsStopped w run.1 l)
        | inl fine ↦
            let rest = once_loop-Outcome w tasks (suc i) run.1 l (same.0 ∙ r) in
            rw (once, fine) (Outcome-same s run.1 [] (once_loop w tasks (suc i) run.1) same.1 rest)
      ]
]

-- The preparation changes only the arenas.
prepare_runner-same :
    (s b : Scheduler) (i : ℕ) (o : Option Arena)
    → prepare_runner s i o ≡ some b
    → (b.running ≡ s.running) × (b.started ≡ s.started)
unfolding prepare_runner
prepare_runner-same s b i none e = absurd (some-ne-none (sym e))
prepare_runner-same s b i (some a) e =
    (ap (λ c. c.running) (sym (some_inj e)), ap (λ c. c.started) (sym (some_inj e)))

prepare_loop-same :
    (tasks : List Task) (i : ℕ) (s : Scheduler)
    → ((prepare_loop tasks i s).1.running ≡ s.running)
      × ((prepare_loop tasks i s).1.started ≡ s.started)
unfolding prepare_loop
prepare_loop-same [] i s = (refl, refl)
prepare_loop-same (t ∷ tasks) i s = elim (Bool-cases (task_fits t)) [
  | inr unfit ↦ rw unfit (refl, refl)
  | inl fit ↦ elim (Option-cases (prepare_runner s i (arena_init scheduler_arena))) [
    | inl refused ↦ rw (fit, refused) (refl, refl)
    | inr (b, e) ↦
        let same = prepare_runner-same s b i (arena_init scheduler_arena) e in
        let rest = prepare_loop-same tasks (suc i) b in
        rw (fit, e) (rest.0 ∙ same.0, rest.1 ∙ same.1)
  ]
]

repeated-short : (tasks : List Task) (i : ℕ) → length (repeated tasks i) ≤ length tasks
repeated-short [] i = omega arith
repeated-short (t ∷ tasks) i = elim (Bool-cases (is_once t)) [
  | inl once ↦ rw once (omega (arith, repeated-short tasks (suc i)))
  | inr again ↦ rw again (omega (arith, repeated-short tasks (suc i)))
]

startup_run-Outcome :
    (w : World) (tasks : List Task) (s : Scheduler) (r : Bool × Scheduler)
    → w.lock ≡ true
    → IsStopped s
    → (r.1.running ≡ s.running) × (r.1.started ≡ s.started)
    → Outcome s [] (startup_run w tasks r)
unfolding startup_run
startup_run-Outcome w tasks s (false, b) l stopped same = (same.0 ∙ stopped.0, same.1 ∙ stopped.1)
startup_run-Outcome w tasks s (true, b) l stopped same =
    Outcome-same s (record b { running = true; stopping = false }) [] _ same.1
      (once_loop-Outcome w tasks 0 (record b { running = true; stopping = false }) l refl)

Created-Started :
    (tasks : List Task) (b : Scheduler) (r : Bool × Scheduler)
    → b.started ≡ []
    → length tasks ≤ max_tasks
    → Outcome b (repeated tasks 0) r
    → Started tasks r
Created-Started tasks b (false, c) empty few o = o
Created-Started tasks b (true, c) empty few (r, e) =
    let threads : c.started ≡ repeated tasks 0 = e ∙ ap (λ l. l ++ repeated tasks 0) empty in
    (r, threads, omega (arith, ap length threads, repeated-short tasks 0, few))

start_threads-Started :
    (w : World) (tasks : List Task) (s : Scheduler) (r : Bool × Scheduler)
    → w.lock ≡ true
    → IsStopped s
    → length tasks ≤ max_tasks
    → Outcome s [] r
    → Started tasks (start_threads w tasks r)
unfolding start_threads
start_threads-Started w tasks s (false, b) l stopped few o = o
start_threads-Started w tasks s (true, b) l stopped few (running, e) =
    let empty : b.started ≡ [] = e ∙ append-nil s.started ∙ stopped.1 in
    let test : not (length b.started == 0) ≡ false = ap (λ t. not (length t == 0)) empty in
    rw test (
      Created-Started tasks b (create_loop w tasks 0 b) empty few
        (create_loop-Created w tasks 0 b l running))

create_loop-created :
    (w : World) (tasks : List Task) (i : ℕ) (s : Scheduler)
    → ((j : ℕ) → w.create j ≡ true)
    → (create_loop w tasks i s).0 ≡ true
unfolding create_loop
create_loop-created w [] i s all_made = refl
create_loop-created w (t ∷ tasks) i s all_made = elim (Bool-cases (is_once t)) [
  | inl once ↦ rw once (create_loop-created w tasks (suc i) s all_made)
  | inr again ↦
      rw (again, all_made i)
        (create_loop-created w tasks (suc i) (record s { started = s.started ++ (i ∷ []) })
          all_made)
]

-- Behind a startup: the tasks that run once have run, and there is no thread.
running-Started :
    (w : World) (tasks : List Task) (s : Scheduler)
    → w.lock ≡ true
    → s.running ≡ true
    → s.started ≡ []
    → length tasks ≤ max_tasks
    → Started tasks (scheduler_start w tasks s)
      × (((j : ℕ) → w.create j ≡ true) → (scheduler_start w tasks s).0 ≡ true)
unfolding scheduler_start start_threads
running-Started w tasks s l running empty few =
    let test : not (length s.started == 0) ≡ false = ap (λ t. not (length t == 0)) empty in
    let runs : scheduler_start w tasks s ≡ create_loop w tasks 0 s = simp (running, test) refl in
    let MadeIfAll : Bool × Scheduler → Type 0 =
      λ r. Started tasks r × (((j : ℕ) → w.create j ≡ true) → r.0 ≡ true) in
    subst MadeIfAll (sym runs) (
      Created-Started tasks s (create_loop w tasks 0 s) empty few
          (create_loop-Created w tasks 0 s l running),
      create_loop-created w tasks 0 s,
    )

stopped-Started :
    (w : World) (tasks : List Task) (s : Scheduler)
    → w.lock ≡ true
    → IsStopped s
    → Started tasks (scheduler_start w tasks s)
unfolding scheduler_start scheduler_startup scheduler_prepare startup_run start_threads
stopped-Started w tasks s l stopped = elim (Bool-cases (ltb max_tasks (length tasks))) [
  | inl many ↦
      let gone : scheduler_start w tasks s ≡ (false, s) = simp (stopped.0, many) refl in
      subst (Started tasks) (sym gone) stopped
  | inr few ↦
      let runs : scheduler_start w tasks s
          ≡ start_threads w tasks (startup_run w tasks (prepare_loop tasks 0 s)) =
        simp (stopped.0, few) refl in
      subst (Started tasks) (sym runs) (
        start_threads-Started w tasks s (startup_run w tasks (prepare_loop tasks 0 s)) l stopped
          (le_of_ltb-false _ _ few)
          (startup_run-Outcome w tasks s (prepare_loop tasks 0 s) l stopped
            (prepare_loop-same tasks 0 s)))
]

-- `scheduler_start` where there is no thread yet, stopped or behind a `scheduler_startup`, and whatever the tasks
-- do to their arenas: it answers 0 only with the scheduler running and one thread for each task that
-- runs repeatedly, in the table's order, at most 16; otherwise, at whatever point it failed, it leaves
-- the scheduler stopped with no thread. Behind a startup it answers 0 wherever every thread can be
-- created. The lock is assumed to be obtained, and a scheduler that runs to have at most 16 tasks,
-- as `scheduler_startup` checks.
pub scheduler_start-Started :
    (w : World) (tasks : List Task) (s : Scheduler)
    → w.lock ≡ true
    → s.started ≡ []
    → (s.running ≡ true → length tasks ≤ max_tasks)
    → Started tasks (scheduler_start w tasks s)
      × (s.running ≡ true → ((j : ℕ) → w.create j ≡ true) → (scheduler_start w tasks s).0 ≡ true)
scheduler_start-Started w tasks s l empty few = elim (Bool-cases s.running) [
  | inl running ↦
      let (done, made) = running-Started w tasks s l running empty (few running) in
      (done, λ r. made)
  | inr stopped ↦
      (stopped-Started w tasks s l (stopped, empty), λ r. absurd (ground (arith, r, stopped)))
]
