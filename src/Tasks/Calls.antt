-- ===== src/Tasks/Calls.antt =====
-- Calls of the scheduler of RADKernel/core/RADKernel_runtime.cpp: rad_task_yield, rad_task_sleep_us,
-- rad_scheduler_yield_from_irq, rad_task_create_config, rad_task_detach, and what rad_process_kill does
-- to a task.
use radpx_os.Base.{
  ℕ, ◌+◌, ◌*◌, ◌/◌, ◌%◌, ◌^◌, Bool, true, false, not, ◌&&◌, ◌||◌, Option, none, some, ltb, leb,
  ◌==◌, if◌then◌else◌, set, get_or, find_index, CString, copy_string, invalid_argument, no_memory,
  not_supported, not_initialized, Result, value, fail,
}
use radpx_os.Base.Int.{ℤ, pos, negsuc}
use radpx_os.Tasks.{
  task_ready, task_sleeping, task_finished, task_detached, core_any, core_service, task_name_size,
  default_stack_bytes, Task, zero_task, Scheduler, task_at, put_task, find_task_by_id,
}

abbrev pub yielded : Bool → ℕ → Task → Task
yielded irq core t =
    let ready = record t { running = false; state = task_ready; current_core = core_any } in
    if irq && not t.preempt_pinned
    then record ready {
      preempt_saved_target_core = t.target_core;
      target_core = pos core;
      preempt_pinned = true;
    }
    else ready

abbrev pub leave_core : Scheduler → ℕ → ℕ → Task → Scheduler
leave_core s core i t = record s {
  tasks = set s.tasks i t;
  current_task_id = set s.current_task_id core 0;
  current_pid = set s.current_pid core 0;
}

-- The locked part of `rad_task_yield`: the slot that is switched from, none where it goes on to
-- `run_one_task_on_core`.
unfoldable pub yield_task : Scheduler → ℕ → Option ℕ × Scheduler
unfolding find_task_by_id
yield_task s core = elim (find_task_by_id s.tasks (get_or s.current_task_id core 0)) [
  | none ↦ (none, s)
  | some i ↦
      let t = task_at s i in
      if t.running && not t.finished
      then (some i, leave_core s core i (yielded (get_or s.in_irq core false) core t))
      else (none, s)
]

-- The locked part of `rad_task_sleep_us`.
unfoldable pub sleep_task : ℕ → Scheduler → ℕ → ℕ → Option ℕ × Scheduler
unfolding find_task_by_id
sleep_task now s core micros = elim (find_task_by_id s.tasks (get_or s.current_task_id core 0)) [
  | none ↦ (none, s)
  | some i ↦
      let t = task_at s i in
      if t.running
      then (
        some i,
        leave_core s core i (record t {
          running = false;
          state = task_sleeping;
          wake_micros = (now + micros) % 2 ^ 64;
          current_core = core_any;
        }),
      )
      else (none, s)
]

-- `rad_scheduler_yield_from_irq` up to the switch, on a core with contexts and no lock held, in an
-- interrupt for the first time. The core's flag is cleared when the task is resumed, or at once
-- where there was no switch.
unfoldable pub yield_from_irq : Scheduler → ℕ → Option ℕ × Scheduler
unfolding yield_task
yield_from_irq s core =
    if not s.preemption_enabled
      || (get_or s.current_task_id core 0 == 0)
      || get_or s.in_irq core false
      || (core == core_service)
    then (none, s)
    else let (slot, after) = yield_task (record s { in_irq = set s.in_irq core true }) core in
      elim slot [
        | some i ↦ (some i, after)
        | none ↦ (none, record after { in_irq = set after.in_irq core false })
      ]

pub record TaskConfig : Type 0 where
  pub name : CString
  pub stack_size : ℕ
  pub target_core : ℤ
  pub priority : ℤ

abbrev pub effective_task_stack_size : ℕ → ℕ
effective_task_stack_size size =
    let wanted = if size == 0 then default_stack_bytes else size in
    let least = if ltb wanted 4096 then 4096 else wanted in (least + 15) / 16 * 16

abbrev pub is_reusable : Task → Bool
is_reusable t = (t.entry == 0) || (t.finished && not t.running)

abbrev pub is_missing_core : Scheduler → ℤ → Bool
is_missing_core s (pos n) =
    leb s.detected_cores n || (ltb 0 n && ((s.worker_running_mask / 2 ^ n) % 2 == 0))
is_missing_core s (negsuc n) = false

abbrev pub fresh_task : ℕ → TaskConfig → ℕ → ℕ → Task
fresh_task id config entry context = record zero_task {
  id = id;
  name = copy_string task_name_size config.name;
  entry = entry;
  context = context;
  state = task_ready;
  target_core = config.target_core;
  current_core = core_any;
  priority = config.priority;
  stack_size = effective_task_stack_size config.stack_size;
}

-- With a configuration; `has_stack` says of a size whether a stack of it can be had. The slot.
unfoldable pub rad_task_create_config :
    (ℕ → Bool) → Scheduler → TaskConfig → ℕ → ℕ → Result ℕ × Scheduler
rad_task_create_config has_stack s config entry context =
    if entry == 0
    then (fail invalid_argument, s)
    else if not s.initialized
    then (fail not_initialized, s)
    else if is_missing_core s config.target_core
    then (fail not_supported, s)
    else if not (has_stack (effective_task_stack_size config.stack_size))
    then (fail no_memory, s)
    else elim (find_index is_reusable s.tasks) [
      | none ↦ (fail no_memory, s)
      | some i ↦ (
        value i,
        record s {
          tasks = set s.tasks i (fresh_task s.next_task_id config entry context);
          next_task_id = (s.next_task_id + 1) % 2 ^ 64;
        },
      )
    ]

unfoldable pub rad_task_detach : Scheduler → ℕ → Scheduler
rad_task_detach s i =
    let t = record (task_at s i) { detached = true } in
    put_task s i (if t.finished then record t { state = task_detached } else t)

-- What `rad_process_kill` does to the task of a process.
unfoldable pub kill_task : Scheduler → ℕ → Scheduler
kill_task s i =
    put_task s i
      (record (task_at s i) { finished = true; state = task_finished; current_core = core_any })
