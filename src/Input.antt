-- ===== src/Input.antt =====
-- The input event queues of RADKernel/core/RADKernel_runtime.cpp: rad_input_queue_create, destroy, push
-- and read. A handle is its position in the table of handles, which holds the index of its queue;
-- `none` is a null handle. What the rest of the system does while a read waits is the list `waits`, a
-- change for each round; when it ends the time is up.
pub mod Queue
use radpx_os.Base.{
  ℕ, zero, suc, ◌+◌, ◌-◌, ◌%◌, Bool, true, false, not, ◌||◌, Option, none, some, List, [], ◌∷◌, ltb,
  leb, ◌==◌, if◌then◌else◌, set, get_or, replicate, find_index, CString, copy_string, Status, ok,
  invalid_argument, no_memory, timeout, Result, value, fail,
}
use radpx_os.Base.Int.{ℤ, pos}

-- RAD_KERNEL_INPUT_QUEUE_EVENTS, RAD_KERNEL_MAX_INPUT_QUEUES and RAD_INPUT_QUEUE_NAME_MAX.
abbrev pub queue_events : ℕ
queue_events = 64

abbrev pub max_input_queues : ℕ
max_input_queues = 8

abbrev pub queue_name_size : ℕ
queue_name_size = 64

-- `rad_input_event_t`, its `size` as `bytes` and its `type` as `kind`.
pub record Event : Type 0 where
  pub bytes : ℕ
  pub kind : ℕ
  pub code : ℕ
  pub codepoint : ℕ
  pub modifiers : ℕ
  pub pressed : ℕ
  pub repeat : ℕ
  pub reserved : ℕ
  pub buttons : ℕ
  pub x : ℤ
  pub y : ℤ
  pub dx : ℤ
  pub dy : ℤ
  pub scroll_x : ℤ
  pub scroll_y : ℤ

abbrev pub zero_event : Event
zero_event = record {
  bytes = 0;
  kind = 0;
  code = 0;
  codepoint = 0;
  modifiers = 0;
  pressed = 0;
  repeat = 0;
  reserved = 0;
  buttons = 0;
  x = pos 0;
  y = pos 0;
  dx = pos 0;
  dy = pos 0;
  scroll_x = pos 0;
  scroll_y = pos 0;
}

pub record InputQueue : Type 0 where
  pub name : CString
  pub events : List Event
  pub head : ℕ
  pub tail : ℕ
  pub size : ℕ
  pub capacity : ℕ
  pub used : Bool

abbrev pub zero_queue : InputQueue
zero_queue = record {
  name = [];
  events = replicate queue_events zero_event;
  head = 0;
  tail = 0;
  size = 0;
  capacity = 0;
  used = false;
}

pub record Queues : Type 0 where
  pub queues : List InputQueue
  pub handles : List ℕ

abbrev pub queue_at : Queues → ℕ → InputQueue
queue_at s i = get_or s.queues i zero_queue

abbrev pub put_queue : Queues → ℕ → InputQueue → Queues
put_queue s i q = record s { queues = set s.queues i q }

abbrev is_unused : InputQueue → Bool
is_unused q = not q.used

abbrev pub fit_capacity : ℕ → ℕ
fit_capacity capacity =
    if (capacity == 0) || ltb queue_events capacity then queue_events else capacity

abbrev fresh_queue : CString → ℕ → InputQueue
fresh_queue name capacity = record zero_queue {
  used = true;
  capacity = fit_capacity capacity;
  name = copy_string queue_name_size name;
}

-- The handle; a null name is `codes "input"` to the caller of this model.
unfoldable pub rad_input_queue_create : Queues → CString → ℕ → Result ℕ × Queues
rad_input_queue_create s name capacity = elim (find_index is_unused s.queues) [
  | none ↦ (fail no_memory, s)
  | some i ↦ (
    value i,
    record s { queues = set s.queues i (fresh_queue name capacity); handles = set s.handles i i },
  )
]

unfoldable pub rad_input_queue_destroy : Queues → Option ℕ → Queues
rad_input_queue_destroy s none = s
rad_input_queue_destroy s (some h) =
    let i = get_or s.handles h 0 in
    if not (ltb i max_input_queues)
    then s
    else record s { queues = set s.queues i zero_queue; handles = set s.handles i 0 }

-- A full queue drops its oldest event.
abbrev pub make_room : InputQueue → InputQueue
make_room q =
    if leb q.capacity q.size
    then record q { tail = (q.tail + 1) % q.capacity; size = q.size - 1 }
    else q

abbrev pub put_event : InputQueue → Event → InputQueue
put_event q e = record q {
  events = set q.events q.head e;
  head = (q.head + 1) % q.capacity;
  size = q.size + 1;
}

-- The part of `rad_input_queue_push` that works on the record.
unfoldable pub push : InputQueue → Event → InputQueue
push q e = put_event (make_room q) e

unfoldable pub rad_input_queue_push : Queues → Option ℕ → Event → Status × Queues
unfolding push
rad_input_queue_push s none e = (invalid_argument, s)
rad_input_queue_push s (some h) e =
    let i = get_or s.handles h 0 in
    if not (ltb i max_input_queues) || not (queue_at s i).used
    then (invalid_argument, s)
    else (ok, put_queue s i (push (queue_at s i) e))

abbrev pub drop_event : InputQueue → InputQueue
drop_event q = record q { tail = (q.tail + 1) % q.capacity; size = q.size - 1 }

-- The inner loop of `rad_input_queue_read`, with room for `room` more events.
unfoldable pub drain : InputQueue → ℕ → List Event × InputQueue
drain q zero = ([], q)
drain q (suc room) =
    let (events, rest) = drain (drop_event q) room in
    if q.size == 0 then ([], q) else (get_or q.events q.tail zero_event ∷ events, rest)

-- One round of `rad_input_queue_read`: nothing if the queue is gone.
unfoldable pub read_round : Queues → ℕ → ℕ → Option (List Event × Queues)
unfolding drain
read_round s i capacity =
    let (events, q) = drain (queue_at s i) capacity in
    if not (queue_at s i).used then none else some (events, put_queue s i q)

abbrev answer : List Event → Result (List Event)
answer [] = fail timeout
answer (e ∷ es) = value (e ∷ es)

unfoldable pub read_rounds : Queues → ℕ → ℕ → List (Queues → Queues) → Result (List Event) × Queues
unfolding read_round
read_rounds s i capacity [] = elim (read_round s i capacity) [
  | none ↦ (fail invalid_argument, s)
  | some r ↦ (answer r.0, r.1)
]
read_rounds s i capacity (wait ∷ waits) = elim (read_round s i capacity) [
  | none ↦ (fail invalid_argument, s)
  | some r ↦
      let later = read_rounds (wait r.1) i capacity waits in
      elim r.0 [ [] ↦ later | e ∷ es ↦ (value (e ∷ es), r.1) ]
]

unfoldable pub rad_input_queue_read :
    Queues → Option ℕ → ℕ → List (Queues → Queues) → Result (List Event) × Queues
unfolding read_rounds
rad_input_queue_read s none capacity waits = (fail invalid_argument, s)
rad_input_queue_read s (some h) capacity waits =
    let i = get_or s.handles h 0 in
    if not (ltb i max_input_queues)
    then (fail invalid_argument, s)
    else read_rounds s i capacity waits
