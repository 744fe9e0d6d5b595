-- ===== src/Work.antt =====
-- The work queue and the wait queues of RADKernel/core/RADKernel_runtime.cpp: rad_work_submit and
-- rad_work_poll; rad_wait_queue_create, destroy, wait, wake_one and wake_all. A handler and its context
-- are numbers, 0 for a null handler; what a handler does to the queues is an argument.
pub mod Fifo
pub mod Waking
use radpx_os.Base.{
  ℕ, zero, suc, ◌+◌, ◌-◌, ◌%◌, ◌^◌, Bool, true, false, not, ◌&&◌, Option, none, some, List, [], ◌∷◌,
  ltb, leb, ◌==◌, if◌then◌else◌, length, set, get_or, find_index, CString, copy_string, Status, ok,
  invalid_argument, no_memory, timeout, not_initialized, Result, value, fail,
}

-- RAD_KERNEL_MAX_WORK_ITEMS, RAD_KERNEL_MAX_TASKS and RAD_PERF_NAME_MAX.
abbrev pub max_work_items : ℕ
max_work_items = 32

abbrev pub max_tasks : ℕ
max_tasks = 16

abbrev pub work_name_size : ℕ
work_name_size = 32

pub record WorkItem : Type 0 where
  pub name : CString
  pub handler : ℕ
  pub context : ℕ
  pub used : Bool

abbrev pub zero_item : WorkItem
zero_item = record { name = []; handler = 0; context = 0; used = false }

pub record WorkQueue : Type 0 where
  pub initialized : Bool
  pub items : List WorkItem
  pub head : ℕ
  pub tail : ℕ
  pub size : ℕ

-- A name that is null stands for the text `work`, which the caller of this function gives then.
abbrev pub work_item : CString → ℕ → ℕ → WorkItem
work_item name handler context = record {
  name = copy_string work_name_size name;
  handler = handler;
  context = context;
  used = true;
}

abbrev pub append_item : WorkQueue → WorkItem → WorkQueue
append_item q item = record q {
  items = set q.items q.tail item;
  tail = (q.tail + 1) % max_work_items;
  size = q.size + 1;
}

unfoldable pub rad_work_submit : WorkQueue → CString → ℕ → ℕ → Status × WorkQueue
rad_work_submit q name handler context =
    if handler == 0
    then (invalid_argument, q)
    else if not q.initialized
    then (not_initialized, q)
    else if leb max_work_items q.size
    then (no_memory, q)
    else (ok, append_item q (work_item name handler context))

-- The first item taken out, its slot cleared.
abbrev pub take_item : WorkQueue → WorkQueue
take_item q = record q {
  items = set q.items q.head zero_item;
  head = (q.head + 1) % max_work_items;
  size = q.size - 1;
}

-- What the handler of an item does to the queue and to the rest of the system, of which the state is
-- a `W`.
abbrev pub Handler : Type 0 → Type 0
Handler W = WorkItem → W → WorkQueue → W × WorkQueue

abbrev pub run_item : {W : Type 0} → Handler W → WorkItem → W → WorkQueue → W × WorkQueue
run_item handle item w q = if item.handler == 0 then (w, q) else handle item w q

-- The loop of `rad_work_poll`: the count, the rest of the system and the queue.
unfoldable pub poll_rounds : {W : Type 0} → Handler W → W → WorkQueue → ℕ → ℕ × (W × WorkQueue)
poll_rounds handle w q zero = (0, (w, q))
poll_rounds handle w q (suc rounds) =
    let item = get_or q.items q.head zero_item in
    let (w', q') = run_item handle item w (take_item q) in
    let (count, last) = poll_rounds handle w' q' rounds in
    if q.size == 0 then (0, (w, q)) else (suc count, last)

abbrev pub budget_of : ℕ → ℕ
budget_of budget = if budget == 0 then max_work_items else budget

unfoldable pub rad_work_poll :
    {W : Type 0} → Handler W → W → WorkQueue → ℕ → Result ℕ × (W × WorkQueue)
unfolding poll_rounds
rad_work_poll handle w q budget =
    let (count, last) = poll_rounds handle w q (budget_of budget) in
    if not q.initialized then (fail not_initialized, (w, q)) else (value count, last)

pub record WaitQueueRecord : Type 0 where
  pub signals : ℕ
  pub used : Bool

abbrev pub zero_wait_queue : WaitQueueRecord
zero_wait_queue = record { signals = 0; used = false }

pub record WaitQueues : Type 0 where
  pub queues : List WaitQueueRecord
  pub handles : List ℕ

abbrev pub wait_queue_at : WaitQueues → ℕ → WaitQueueRecord
wait_queue_at s i = get_or s.queues i zero_wait_queue

abbrev is_unused : WaitQueueRecord → Bool
is_unused r = not r.used

-- The handle.
unfoldable pub rad_wait_queue_create : WaitQueues → Result ℕ × WaitQueues
rad_wait_queue_create s = elim (find_index is_unused s.queues) [
  | none ↦ (fail no_memory, s)
  | some i ↦ (
    value i,
    record {
      queues = set s.queues i (record { signals = 0; used = true });
      handles = set s.handles i i;
    },
  )
]

unfoldable pub rad_wait_queue_destroy : WaitQueues → Option ℕ → WaitQueues
rad_wait_queue_destroy s none = s
rad_wait_queue_destroy s (some h) =
    let i = get_or s.handles h 0 in
    if not (ltb i (length s.queues))
    then s
    else record { queues = set s.queues i zero_wait_queue; handles = set s.handles i 0 }

abbrev pub set_signals : WaitQueues → ℕ → ℕ → WaitQueues
set_signals s i n = record s {
  queues = set s.queues i (record (wait_queue_at s i) { signals = n });
}

-- Whether the handle names a queue that is there.
abbrev pub is_live : WaitQueues → ℕ → Bool
is_live s i = ltb i (length s.queues) && (wait_queue_at s i).used

abbrev add_signals : WaitQueues → Option ℕ → ℕ → Status × WaitQueues
add_signals s none n = (invalid_argument, s)
add_signals s (some h) n =
    let i = get_or s.handles h 0 in
    if is_live s i
    then (ok, set_signals s i (((wait_queue_at s i).signals + n) % 2 ^ 64))
    else (invalid_argument, s)

unfoldable pub rad_wait_queue_wake_one : WaitQueues → Option ℕ → Status × WaitQueues
rad_wait_queue_wake_one s queue = add_signals s queue 1

unfoldable pub rad_wait_queue_wake_all : WaitQueues → Option ℕ → Status × WaitQueues
rad_wait_queue_wake_all s queue = add_signals s queue max_tasks

-- The loop of `rad_wait_queue_wait`. What the rest of the system does in each sleep is the list
-- `sleeps`; when it ends the time is up.
unfoldable pub wait_on : WaitQueues → ℕ → List (WaitQueues → WaitQueues) → Status × WaitQueues
wait_on s i [] =
    if (wait_queue_at s i).signals == 0
    then (timeout, s)
    else (ok, set_signals s i ((wait_queue_at s i).signals - 1))
wait_on s i (sleep ∷ sleeps) =
    let later = wait_on (sleep s) i sleeps in
    if (wait_queue_at s i).signals == 0
    then later
    else (ok, set_signals s i ((wait_queue_at s i).signals - 1))

unfoldable pub rad_wait_queue_wait :
    WaitQueues → Option ℕ → List (WaitQueues → WaitQueues) → Status × WaitQueues
unfolding wait_on
rad_wait_queue_wait s none sleeps = (invalid_argument, s)
rad_wait_queue_wait s (some h) sleeps =
    let i = get_or s.handles h 0 in
    if is_live s i then wait_on s i sleeps else (invalid_argument, s)
