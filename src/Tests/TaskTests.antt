-- ===== src/Tests/TaskTests.antt =====
-- The scheduler of RADKernel/core/RADKernel_runtime.cpp at concrete tables.
use radpx_os.Base.{
  ℕ, zero, suc, ◌<◌, ◌≡◌, refl, true, false, some, List, [], ◌∷◌, arith, get_elem?, find_index,
}
use radpx_os.Tasks.{
  Task, Scheduler, zero_task, task_ready, core_any, task_matches_core, pick, choose_slot,
  choose_task, enter_task,
}
use radpx_os.Tasks.Cores.{
  Machine, Run, done, next, select, enter, idle, chose, runs, moves, AreExclusive,
}
use radpx_os.Tasks.Exclusion.{AllFound, IsSound}
use radpx_os.Tasks.Apart.{run-AreExclusive}
use radpx_os.Tasks.Fairness.{Waits-chosen, choices}

abbrev ready_task : ℕ → Task
ready_task id = record zero_task {
  id = id;
  entry = 1;
  context = id;
  state = task_ready;
  target_core = core_any;
  current_core = core_any;
}

-- Three tasks that any core may run, on a machine of one core.
abbrev three_tasks : Scheduler
three_tasks = record {
  tasks = ready_task 1 ∷ ready_task 2 ∷ ready_task 3 ∷ [];
  current_task_id = 0 ∷ [];
  current_pid = 0 ∷ [];
  last_task_index = 0 ∷ [];
  in_irq = false ∷ [];
  worker_running_mask = 0;
  detected_cores = 1;
  next_task_id = 4;
  context_switches = 0;
  initialized = true;
  preemption_enabled = true;
}

abbrev last_was : ℕ → Scheduler
last_was i = record three_tasks { last_task_index = i ∷ [] }

first_after_the_last : choose_slot 0 (last_was 0) 0 ≡ some 1
unfolding choose_slot task_matches_core pick
first_after_the_last = refl

round_the_table : choose_slot 0 (last_was 2) 0 ≡ some 0
unfolding choose_slot task_matches_core pick
round_the_table = refl

abbrev views : List (ℕ × Scheduler)
views = (0, last_was 0) ∷ (5, last_was 1) ∷ (9, last_was 2) ∷ []

Waits-chosen_example : (k : ℕ) × (k < 3) × (get_elem? (choices 0 views) k ≡ some (some 0))
unfolding choose_task choose_slot task_matches_core pick
Waits-chosen_example = Waits-chosen 0 3 0 0 views (omega arith) (omega arith) (
  refl,
  omega arith,
  refl,
  refl,
  (refl, omega arith, refl, refl, (refl, omega arith, refl, refl, tt)),
)

abbrev two_cores : Scheduler
two_cores = record three_tasks {
  current_task_id = 0 ∷ 0 ∷ [];
  current_pid = 0 ∷ 0 ∷ [];
  last_task_index = 0 ∷ 0 ∷ [];
  in_irq = false ∷ false ∷ [];
  detected_cores = 2;
}

abbrev all_idle : Machine
all_idle = record { sched = two_cores; phases = λ core. idle }

abbrev first_chosen : Scheduler
first_chosen = (choose_task 0 two_cores 1).1

abbrev first_on : Machine
first_on = moves all_idle first_chosen 1 (chose 1)

abbrev first_runs : Machine
first_runs = moves first_on (enter_task first_chosen 1) 1 (runs 1)

abbrev second_chosen : Scheduler
second_chosen = (choose_task 0 first_runs.sched 0).1

abbrev both_on : Machine
both_on = moves first_runs second_chosen 0 (chose 2)

-- Core 1 chooses a task and switches to it, and then core 0 chooses the next.
two_choices : Run all_idle both_on
unfolding choose_task choose_slot task_matches_core pick enter_task
two_choices =
    next all_idle first_on both_on (select all_idle 0 1 1 first_chosen (omega arith) refl refl) (
      next first_on first_runs both_on (enter first_on 1 1 refl) (
        next first_runs both_on both_on
          (select first_runs 0 0 2 second_chosen (omega arith) refl refl) (done both_on)))

three_tasks-AllFound : AllFound three_tasks.tasks
unfolding find_index
three_tasks-AllFound zero below used = refl
three_tasks-AllFound (suc zero) below used = refl
three_tasks-AllFound (suc (suc zero)) below used = refl
three_tasks-AllFound (suc (suc (suc i))) below used = absurd (omega arith)

all_idle-IsSound : IsSound all_idle
all_idle-IsSound = (λ c. tt, three_tasks-AllFound, λ c d i at_c at_d. absurd (ground (arith, at_c)))

run-AreExclusive_example : AreExclusive both_on
unfolding two_choices
run-AreExclusive_example = run-AreExclusive two_choices (tt, (tt, (tt, tt))) all_idle-IsSound
