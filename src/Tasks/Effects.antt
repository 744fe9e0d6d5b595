-- ===== src/Tasks/Effects.antt =====
-- What the operations of the scheduler in RADKernel/core/RADKernel_runtime.cpp change where they succeed.
use radpx_os.Base.{
  ℕ, zero, suc, ◌+◌, ◌%◌, ◌^◌, ◌≤◌, ◌<◌, ◌≡◌, refl, sym, ap, ◌∙◌, ◌⊎◌, inl, inr, Bool, true, false,
  not, ◌&&◌, Option, none, some, List, arith, ◌==◌, if_elim, option_elim, length, set, get_or,
  find_index, find_index-lt, Status, invalid_argument, no_memory, not_supported, not_initialized,
  Result, value, fail,
}
use mathlib.Core.Path.{subst}
use native.Mathlib.Nat.{mod-lt}
use radpx_os.Base.Keyed.{some-same}
use radpx_os.Tasks.{
  Task, Scheduler, task_at, has_id, pick, start_of, choose_slot, choose_task, chosen, end_task,
  find_task_by_id, ended_state, core_any, task_sleeping,
}
use radpx_os.Tasks.Calls.{
  TaskConfig, is_reusable, fresh_task, is_missing_core, effective_task_stack_size, yield_task,
  sleep_task, yielded, leave_core, rad_task_create_config,
}
use radpx_os.Tasks.Fairness.{fits_core}

pick-holds :
    (fits : ℕ → Bool) (capacity start offset left i : ℕ)
    → left ≤ capacity
    → pick fits capacity start offset left ≡ some i
    → (fits i ≡ true) × (i < capacity)
unfolding pick
pick-holds fits capacity start offset zero i room found = absurd (ground (arith, found))
pick-holds fits capacity start offset (suc left) i room found =
    let here = (start + offset) % capacity in
    if_elim (λ (r : Option ℕ). r ≡ some i → (fits i ≡ true) × (i < capacity)) (fits here)
      (λ fitting got.
        let e = some-same here i got in
        (
          ap fits (sym e) ∙ fitting,
          subst (λ n. n < capacity) e (mod-lt (start + offset) (omega (arith, room))),
        ))
      (λ other got. pick-holds fits capacity start (offset + 1) left i (omega (arith, room)) got)
      found

-- A choice.
abbrev pub Chooses : ℕ → Scheduler → ℕ → Option ℕ × Scheduler → Type 0
Chooses now s core r =
    (i : ℕ)
    → r.0 ≡ some i
    → (i < length s.tasks)
      × (fits_core now s core i ≡ true)
      × (r.1.tasks ≡ set s.tasks i (chosen core (task_at s i)))
      × (r.1.current_task_id ≡ set s.current_task_id core (task_at s i).id)

pub choose_task-Chooses :
    (now : ℕ) (s : Scheduler) (core : ℕ) → Chooses now s core (choose_task now s core)
unfolding choose_task choose_slot
choose_task-Chooses now s core =
    option_elim (Chooses now s core) (choose_slot now s core)
      (λ e i got. absurd (ground (arith, got)))
      (λ j found i got.
        let e : j ≡ i = some-same j i got in
        let (fits, below) =
          pick-holds (fits_core now s core) (length s.tasks) (start_of s core) 0 (length s.tasks) j
            (omega arith) found in
        subst
          (λ n.
            (n < length s.tasks)
            × (fits_core now s core n ≡ true)
            × (set s.tasks j (chosen core (task_at s j))
                ≡ set s.tasks n (chosen core (task_at s n)))
            × (set s.current_task_id core (task_at s j).id
                ≡ set s.current_task_id core (task_at s n).id))
          e (below, fits, refl, refl))

find_task_by_id-found :
    (tasks : List Task) (id i : ℕ)
    → find_task_by_id tasks id ≡ some i
    → find_index (has_id id) tasks ≡ some i
unfolding find_task_by_id
find_task_by_id-found tasks id i found =
    if_elim (λ (r : Option ℕ). r ≡ some i → find_index (has_id id) tasks ≡ some i) (id == 0)
      (λ e got. absurd (ground (arith, got))) (λ e got. got) found

-- A core leaves its task, which `f` says how it is left.
abbrev pub IsLeft : (Task → Task) → Scheduler → ℕ → Option ℕ × Scheduler → Type 0
IsLeft f s core r =
    (j : ℕ)
    → r.0 ≡ some j
    → (find_index (has_id (get_or s.current_task_id core 0)) s.tasks ≡ some j)
      × (r.1.tasks ≡ set s.tasks j (f (task_at s j)))
      × (r.1.current_task_id ≡ set s.current_task_id core 0)

leave_core-IsLeft :
    (f : Task → Task) (s : Scheduler) (core i : ℕ)
    → find_task_by_id s.tasks (get_or s.current_task_id core 0) ≡ some i
    → IsLeft f s core (some i, leave_core s core i (f (task_at s i)))
leave_core-IsLeft f s core i found j got =
    let e : i ≡ j = some-same i j got in
    subst
      (λ n.
        (find_index (has_id (get_or s.current_task_id core 0)) s.tasks ≡ some n)
        × (set s.tasks i (f (task_at s i)) ≡ set s.tasks n (f (task_at s n)))
        × (set s.current_task_id core 0 ≡ set s.current_task_id core 0))
      e (find_task_by_id-found s.tasks (get_or s.current_task_id core 0) i found, refl, refl)

none-IsLeft : (f : Task → Task) (s : Scheduler) (core : ℕ) → IsLeft f s core (none, s)
none-IsLeft f s core j got = absurd (ground (arith, got))

pub yield_task-IsLeft :
    (s : Scheduler) (core : ℕ)
    → IsLeft (yielded (get_or s.in_irq core false) core) s core (yield_task s core)
unfolding yield_task
yield_task-IsLeft s core =
    let f = yielded (get_or s.in_irq core false) core in
    let P = IsLeft f s core in
    option_elim P (find_task_by_id s.tasks (get_or s.current_task_id core 0))
      (λ e. none-IsLeft f s core)
      (λ i found.
        if_elim P ((task_at s i).running && not (task_at s i).finished)
          (λ e. leave_core-IsLeft f s core i found) (λ e. none-IsLeft f s core))

abbrev pub slept : ℕ → ℕ → Task → Task
slept now micros t = record t {
  running = false;
  state = task_sleeping;
  wake_micros = (now + micros) % 2 ^ 64;
  current_core = core_any;
}

pub sleep_task-IsLeft :
    (now : ℕ) (s : Scheduler) (core micros : ℕ)
    → IsLeft (slept now micros) s core (sleep_task now s core micros)
unfolding sleep_task
sleep_task-IsLeft now s core micros =
    let P = IsLeft (slept now micros) s core in
    option_elim P (find_task_by_id s.tasks (get_or s.current_task_id core 0))
      (λ e. none-IsLeft (slept now micros) s core)
      (λ i found.
        if_elim P (task_at s i).running (λ e. leave_core-IsLeft (slept now micros) s core i found)
          (λ e. none-IsLeft (slept now micros) s core))

abbrev pub Creates : Scheduler → TaskConfig → ℕ → ℕ → Result ℕ × Scheduler → Type 0
Creates s config entry context r =
    (i : ℕ)
    → r.0 ≡ value i
    → (find_index is_reusable s.tasks ≡ some i)
      × (r.1.tasks ≡ set s.tasks i (fresh_task s.next_task_id config entry context))
      × (r.1.current_task_id ≡ s.current_task_id)

pub rad_task_create_config-Creates :
    (has_stack : ℕ → Bool) (s : Scheduler) (config : TaskConfig) (entry context : ℕ)
    → Creates s config entry context (rad_task_create_config has_stack s config entry context)
unfolding rad_task_create_config
rad_task_create_config-Creates has_stack s config entry context =
    let P = Creates s config entry context in
    let refused : (status : Status) → P (fail status, s) =
      λ status i got. absurd (ground (arith, got)) in
    if_elim P (entry == 0) (λ e. refused invalid_argument)
      (λ e.
        if_elim P (not s.initialized) (λ e. refused not_initialized)
          (λ e.
            if_elim P (is_missing_core s config.target_core) (λ e. refused not_supported)
              (λ e.
                if_elim P (not (has_stack (effective_task_stack_size config.stack_size)))
                  (λ e. refused no_memory)
                  (λ e.
                    option_elim P (find_index is_reusable s.tasks) (λ e. refused no_memory)
                      (λ i found j got.
                        let e : i ≡ j = cc in
                        subst
                          (λ n.
                            (find_index is_reusable s.tasks ≡ some n)
                            × (set s.tasks i (fresh_task s.next_task_id config entry context)
                                ≡ set s.tasks n (fresh_task s.next_task_id config entry context))
                            × (s.current_task_id ≡ s.current_task_id))
                          e (found, refl, refl))))))

-- The end of a task changes the current one, if there is one, and keeps its flags.
abbrev pub ended : Task → Task
ended t = record t { finished = true; state = ended_state t }

pub end_task-tasks :
    (s : Scheduler) (core : ℕ)
    → ((end_task s core).tasks ≡ s.tasks)
      ⊎ ((j : ℕ) × (j < length s.tasks)
          × ((end_task s core).tasks ≡ set s.tasks j (ended (task_at s j))))
unfolding end_task
end_task-tasks s core =
    option_elim
      (λ (r : Scheduler).
        (r.tasks ≡ s.tasks)
        ⊎ ((j : ℕ) × (j < length s.tasks) × (r.tasks ≡ set s.tasks j (ended (task_at s j)))))
      (find_task_by_id s.tasks (get_or s.current_task_id core 0)) (λ e. inl refl)
      (λ i found. inr (
        i,
        find_index-lt (has_id (get_or s.current_task_id core 0)) s.tasks i
            (find_task_by_id-found s.tasks (get_or s.current_task_id core 0) i found),
        refl,
      ))

pub end_task-current :
    (s : Scheduler) (core : ℕ) → (end_task s core).current_task_id ≡ set s.current_task_id core 0
unfolding end_task
end_task-current s core =
    option_elim (λ (r : Scheduler). r.current_task_id ≡ set s.current_task_id core 0)
      (find_task_by_id s.tasks (get_or s.current_task_id core 0)) (λ e. refl) (λ i found. refl)
