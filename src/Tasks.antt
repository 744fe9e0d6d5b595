-- ===== src/Tasks.antt =====
-- The task table and the scheduler of RADKernel/core/RADKernel_runtime.cpp: find_task_by_id,
-- task_matches_core, run_one_task_on_core and the end of a task. The time is an argument. A switch of
-- contexts is where an operation ends; what follows it is an operation of its own. Entries and
-- contexts are numbers, 0 for a null entry; stacks are left out.
pub mod Calls
pub mod Choosing
pub mod Fairness
pub mod Cores
pub mod Exclusion
pub mod Effects
pub mod Stepping
pub mod Interfering
pub mod Apart
use radpx_os.Base.{
  [], ℕ, zero, suc, ◌+◌, ◌%◌, ◌^◌, Bool, true, false, not, ◌&&◌, ◌||◌, Option, none, some, List,
  ltb, ◌==◌, if◌then◌else◌, length, set, get_or, find_index, CString,
}
use radpx_os.Base.Int.{ℤ, pos, negsuc}

pub data TaskState : Type 0 where
  task_new task_ready task_running task_sleeping task_blocked task_finished task_detached :
      TaskState

-- RAD_TASK_CORE_ANY and RAD_TASK_CORE_SERVICE
abbrev pub core_any : ℤ
core_any = negsuc 0

abbrev pub core_service : ℕ
core_service = 0

abbrev pub task_name_size : ℕ
task_name_size = 64

abbrev pub default_stack_bytes : ℕ
default_stack_bytes = 8192

pub record Task : Type 0 where
  pub id : ℕ
  pub name : CString
  pub entry : ℕ
  pub context : ℕ
  pub running : Bool
  pub on_cpu : Bool
  pub finished : Bool
  pub detached : Bool
  pub state : TaskState
  pub target_core : ℤ
  pub current_core : ℤ
  pub preempt_pinned : Bool
  pub preempt_saved_target_core : ℤ
  pub priority : ℤ
  pub stack_size : ℕ
  pub wake_micros : ℕ
  pub process_pid : ℤ

abbrev pub zero_task : Task
zero_task = record {
  id = 0;
  name = [];
  entry = 0;
  context = 0;
  running = false;
  on_cpu = false;
  finished = false;
  detached = false;
  state = task_new;
  target_core = pos 0;
  current_core = pos 0;
  preempt_pinned = false;
  preempt_saved_target_core = pos 0;
  priority = pos 0;
  stack_size = 0;
  wake_micros = 0;
  process_pid = pos 0;
}

-- The lists have an entry for each core.
pub record Scheduler : Type 0 where
  pub tasks : List Task
  pub current_task_id : List ℕ
  pub current_pid : List ℕ
  pub last_task_index : List ℕ
  pub in_irq : List Bool
  pub worker_running_mask : ℕ
  pub detected_cores : ℕ
  pub next_task_id : ℕ
  pub context_switches : ℕ
  pub initialized : Bool
  pub preemption_enabled : Bool

abbrev pub task_at : Scheduler → ℕ → Task
task_at s i = get_or s.tasks i zero_task

abbrev pub put_task : Scheduler → ℕ → Task → Scheduler
put_task s i t = record s { tasks = set s.tasks i t }

abbrev pub has_id : ℕ → Task → Bool
has_id id t = not (t.entry == 0) && (t.id == id)

unfoldable pub find_task_by_id : List Task → ℕ → Option ℕ
find_task_by_id tasks id = if id == 0 then none else find_index (has_id id) tasks

abbrev pub is_core : ℤ → ℕ → Bool
is_core (pos n) core = n == core
is_core (negsuc n) core = false

abbrev pub is_any : ℤ → Bool
is_any (pos n) = false
is_any (negsuc n) = n == 0

abbrev pub is_sleeping : TaskState → Bool
is_sleeping task_sleeping = true
is_sleeping _ = false

-- The mask of the workers that run, the time, and the core.
unfoldable pub task_matches_core : ℕ → ℕ → ℕ → Task → Bool
task_matches_core mask now core t =
    if (t.entry == 0) || t.finished || t.running
    then false
    else if t.on_cpu
    then false
    else if is_sleeping t.state && ltb now t.wake_micros
    then false
    else if is_any t.target_core
    then (mask == 0) || not (core == core_service)
    else is_core t.target_core core

-- The first slot that fits, from `start` on and round the table; `left` are the rounds left.
unfoldable pub pick : (ℕ → Bool) → ℕ → ℕ → ℕ → ℕ → Option ℕ
pick fits capacity start offset zero = none
pick fits capacity start offset (suc left) =
    let i = (start + offset) % capacity in
    let rest = pick fits capacity start (offset + 1) left in if fits i then some i else rest

abbrev pub start_of : Scheduler → ℕ → ℕ
start_of s core = (get_or s.last_task_index core 0 + 1) % length s.tasks

unfoldable pub choose_slot : ℕ → Scheduler → ℕ → Option ℕ
unfolding task_matches_core pick
choose_slot now s core =
    pick (λ i. task_matches_core s.worker_running_mask now core (task_at s i)) (length s.tasks)
      (start_of s core) 0 (length s.tasks)

abbrev pub to_pid : ℤ → ℕ
to_pid (pos n) = n
to_pid (negsuc n) = 0

-- A pin to the core by a preemption is taken off.
abbrev pub unpinned : ℕ → Task → Task
unpinned core t =
    if t.preempt_pinned && is_core t.target_core core
    then record t {
      target_core = t.preempt_saved_target_core;
      preempt_pinned = false;
      preempt_saved_target_core = core_any;
    }
    else t

abbrev pub chosen : ℕ → Task → Task
chosen core t =
    unpinned core (record t { running = true; state = task_running; current_core = pos core })

-- `run_one_task_on_core` up to `unlock_tasks`: the slot, none where no task fits.
unfoldable pub choose_task : ℕ → Scheduler → ℕ → Option ℕ × Scheduler
unfolding choose_slot
choose_task now s core = elim (choose_slot now s core) [
  | none ↦ (none, s)
  | some i ↦
      let t = task_at s i in
      (
        some i,
        record s {
          tasks = set s.tasks i (chosen core t);
          current_task_id = set s.current_task_id core t.id;
          current_pid = set s.current_pid core (to_pid t.process_pid);
          last_task_index = set s.last_task_index core i;
        },
      )
]

-- From there to the switch to the task.
unfoldable pub enter_task : Scheduler → ℕ → Scheduler
enter_task s i = record s {
  tasks = set s.tasks i (record (task_at s i) { on_cpu = true });
  context_switches = (s.context_switches + 1) % 2 ^ 64;
}

-- Behind the switch: a task that ended by itself is taken off the core.
unfoldable pub settle_task : Scheduler → ℕ → Scheduler
settle_task s i =
    let t = task_at s i in
    if t.finished && t.running
    then put_task s i (record t { running = false; current_core = core_any })
    else s

-- The end of `run_one_task_on_core`.
unfoldable pub release_task : Scheduler → ℕ → Scheduler
release_task s i = put_task s i (record (task_at s i) { on_cpu = false })

abbrev pub ended_state : Task → TaskState
ended_state t = if t.detached then task_detached else task_finished

-- The end of `task_context_entry`.
unfoldable pub end_task : Scheduler → ℕ → Scheduler
unfolding find_task_by_id
end_task s core =
    let left = record s {
      current_task_id = set s.current_task_id core 0;
      current_pid = set s.current_pid core 0;
    } in
    elim (find_task_by_id s.tasks (get_or s.current_task_id core 0)) [
      | none ↦ left
      | some i ↦
          let t = task_at s i in
          put_task left i (record t { finished = true; state = ended_state t })
    ]

-- `run_one_task_on_core` without contexts, where the entry has returned.
unfoldable pub finish_inline : Scheduler → ℕ → ℕ → Scheduler
finish_inline s core i =
    let t = task_at s i in
    record s {
      tasks = set s.tasks i (record t {
        running = false;
        finished = true;
        state = ended_state t;
        current_core = core_any;
      });
      current_task_id = set s.current_task_id core 0;
    }
