-- ===== src/Tasks/Cores.antt =====
-- The cores of RADKernel/core/RADKernel_runtime.cpp as they run tasks side by side, on a board that
-- switches contexts: each is somewhere in run_one_task_on_core, and what it does between two locks,
-- switches or atomic stores is one step. Any core, or an interrupt, may kill, detach and create tasks
-- in between.
use radpx_os.Base.{
  List, ℕ, ◌<◌, ◌≡◌, Bool, false, Option, none, some, ◌==◌, if◌then◌else◌, length, find_index,
  value,
}
use radpx_os.Tasks.{
  Scheduler, task_at, has_id, choose_task, enter_task, settle_task, release_task, end_task,
}
use radpx_os.Tasks.Calls.{
  TaskConfig, yield_task, sleep_task, rad_task_create_config, rad_task_detach, kill_task,
}

-- Where a core is: it has chosen a slot, has switched to its task, switches back from it, has done
-- with its end; or the task of the first slot, which runs, has chosen the second by a call of
-- run_one_task_on_core of its own. The model stops there: the switch that follows overwrites the
-- context that the core's own call waits in.
pub data Phase : Type 0 where
  idle : Phase
  chose runs leaves settled : ℕ → Phase
  nested : ℕ → ℕ → Phase

pub record Machine : Type 0 where
  pub sched : Scheduler
  pub phases : ℕ → Phase

abbrev pub goes : (ℕ → Phase) → ℕ → Phase → ℕ → Phase
goes phases core phase d = if d == core then phase else phases d

abbrev pub moves : Machine → Scheduler → ℕ → Phase → Machine
moves m s core phase = record { sched = s; phases = goes m.phases core phase }

abbrev pub stays : Machine → Scheduler → Machine
stays m s = record { sched = s; phases = m.phases }

-- A step of `core`, or of anyone.
pub data Step : Machine → Machine → Type 0 where
  select :
      (m : Machine) (now core i : ℕ) (s : Scheduler)
      → core < length m.sched.current_task_id
      → m.phases core ≡ idle
      → choose_task now m.sched core ≡ (some i, s)
      → Step m (moves m s core (chose i))
  enter :
      (m : Machine) (core i : ℕ)
      → m.phases core ≡ chose i
      → Step m (moves m (enter_task m.sched i) core (runs i))
  yield :
      (m : Machine) (core i j : ℕ) (s : Scheduler)
      → m.phases core ≡ runs i
      → yield_task m.sched core ≡ (some j, s)
      → Step m (moves m s core (leaves i))
  -- The end of rad_task_yield, where the task was killed or the lock of the tasks is held, and
  -- rad_kernel_poll: the task calls run_one_task_on_core, which finds no task or another.
  falls :
      (m : Machine) (now core i : ℕ) (s : Scheduler)
      → m.phases core ≡ runs i
      → choose_task now m.sched core ≡ (none, s)
      → Step m (stays m s)
  nests :
      (m : Machine) (now core i j : ℕ) (s : Scheduler)
      → m.phases core ≡ runs i
      → choose_task now m.sched core ≡ (some j, s)
      → Step m (moves m s core (nested i j))
  sleep :
      (m : Machine) (now core micros i j : ℕ) (s : Scheduler)
      → m.phases core ≡ runs i
      → sleep_task now m.sched core micros ≡ (some j, s)
      → Step m (moves m s core (leaves i))
  ends :
      (m : Machine) (core i : ℕ)
      → m.phases core ≡ runs i
      → Step m (moves m (end_task m.sched core) core (leaves i))
  settle :
      (m : Machine) (core i : ℕ)
      → m.phases core ≡ leaves i
      → Step m (moves m (settle_task m.sched i) core (settled i))
  release :
      (m : Machine) (core i : ℕ)
      → m.phases core ≡ settled i
      → Step m (moves m (release_task m.sched i) core idle)
  -- An interrupt begins or ends somewhere: the flags that rad_task_yield reads change.
  interrupt :
      (m : Machine) (flags : List Bool) → Step m (stays m (record m.sched { in_irq = flags }))
  kill : (m : Machine) (i : ℕ) → i < length m.sched.tasks → Step m (stays m (kill_task m.sched i))
  detach :
      (m : Machine) (i : ℕ)
      → i < length m.sched.tasks
      → Step m (stays m (rad_task_detach m.sched i))
  create :
      (m : Machine) (has_stack : ℕ → Bool) (config : TaskConfig) (entry context i : ℕ)
      (s : Scheduler)
      → rad_task_create_config has_stack m.sched config entry context ≡ (value i, s)
      → Step m (stays m s)

pub data Run : Machine → Machine → Type 0 where
  done : (m : Machine) → Run m m
  next : (m n o : Machine) → Step m n → Run n o → Run m o

-- A task is created in a slot that no core is on any more, under an identifier that no task has; and
-- no task that runs finds another by a call of run_one_task_on_core of its own.
abbrev pub IsCareful : {m n : Machine} → Step m n → Type 0
IsCareful (create m has_stack config entry context i s e) =
    ((task_at m.sched i).on_cpu ≡ false)
    × (find_index (has_id m.sched.next_task_id) m.sched.tasks ≡ none)
IsCareful (nests m now core i j s at_i e) = ⊥
IsCareful _ = Unit

abbrev pub AllCareful : {m n : Machine} → Run m n → Type 0
AllCareful (done m) = Unit
AllCareful (next m n o step run) = IsCareful step × AllCareful run

abbrev pub slot_of : Phase → Option ℕ
slot_of idle = none
slot_of (chose i) = some i
slot_of (runs i) = some i
slot_of (leaves i) = some i
slot_of (settled i) = some i
slot_of (nested i j) = some j

-- No two cores are on one slot.
abbrev pub AreExclusive : Machine → Type 0
AreExclusive m = (c d i : ℕ) → slot_of (m.phases c) ≡ some i → slot_of (m.phases d) ≡ some i → c ≡ d
