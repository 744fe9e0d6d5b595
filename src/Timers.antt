-- ===== src/Timers.antt =====
-- The timer sources and the performance counters of RADKernel/core/RADKernel_runtime.cpp:
-- rad_timer_source_register and unregister, rad_timer_tick, schedule and cancel of a one-shot, and
-- rad_perf_counter_add. The operations of a source are arguments, none for null.
pub mod Counting
pub mod Sources
use radpx_os.Base.{
  ℕ, ◌+◌, ◌%◌, ◌^◌, Bool, true, false, not, ◌&&◌, Option, none, some, List, [], map, ◌==◌,
  if◌then◌else◌, length, set, get_or, take, find_index, CString, copy_string, text_eq, Status, ok,
  invalid_argument, not_found, no_memory, not_supported, already_exists, value,
}

-- RAD_KERNEL_MAX_TIMER_SOURCES, RAD_KERNEL_MAX_PERF_COUNTERS, RAD_TIMER_NAME_MAX and RAD_PERF_NAME_MAX.
abbrev pub max_timer_sources : ℕ
max_timer_sources = 4

abbrev pub max_perf_counters : ℕ
max_perf_counters = 32

abbrev pub timer_name_size : ℕ
timer_name_size = 32

abbrev pub perf_name_size : ℕ
perf_name_size = 32

-- `strncmp(a, b, n) == 0`
abbrev pub same_prefix : ℕ → CString → CString → Bool
same_prefix n a b = text_eq (take n a) (take n b)

pub record Counter : Type 0 where
  pub name : CString
  pub value : ℕ
  pub used : Bool

abbrev pub zero_counter : Counter
zero_counter = record { name = []; value = 0; used = false }

abbrev pub counter_at : List Counter → ℕ → Counter
counter_at cs i = get_or cs i zero_counter

abbrev pub is_counter : CString → Counter → Bool
is_counter name c = c.used && same_prefix perf_name_size c.name name

unfoldable pub find_counter : List Counter → CString → Option ℕ
find_counter cs name = find_index (is_counter name) cs

abbrev pub is_unused : Counter → Bool
is_unused c = not c.used

abbrev pub fresh_counter : CString → ℕ → Counter
fresh_counter name delta = record {
  name = copy_string perf_name_size name;
  value = delta;
  used = true;
}

abbrev pub raised : ℕ → Counter → Counter
raised delta c = record c { value = (c.value + delta) % 2 ^ 64 }

unfoldable pub rad_perf_counter_add : List Counter → CString → ℕ → List Counter
unfolding find_counter
rad_perf_counter_add cs name delta = if length name == 0 then cs else elim (find_counter cs name) [
  | some i ↦ set cs i (raised delta (counter_at cs i))
  | none ↦ elim (find_index is_unused cs) [
    | none ↦ cs
    | some i ↦ set cs i (fresh_counter name delta)
  ]
]

pub record TimerOps : Type 0 where
  pub start_periodic : Option (ℕ → Status)
  pub schedule_oneshot : Option (ℕ → Status)
  pub cancel_oneshot : Option Status

abbrev pub no_ops : TimerOps
no_ops = record { start_periodic = none; schedule_oneshot = none; cancel_oneshot = none }

pub record TimerSource : Type 0 where
  pub name : CString
  pub ops : TimerOps
  pub frequency_hz : ℕ
  pub supports_oneshot : Bool
  pub active : Bool
  pub ticks : ℕ
  pub used : Bool

abbrev pub zero_timer : TimerSource
zero_timer = record {
  name = [];
  ops = no_ops;
  frequency_hz = 0;
  supports_oneshot = false;
  active = false;
  ticks = 0;
  used = false;
}

pub record Timers : Type 0 where
  pub sources : List TimerSource
  pub elapsed_micros : ℕ
  pub scheduler_ticks : ℕ

abbrev pub put_source : Timers → ℕ → TimerSource → Timers
put_source s i t = record s { sources = set s.sources i t }

abbrev pub is_source : CString → TimerSource → Bool
is_source name t = t.used && text_eq t.name name

unfoldable pub find_source : Timers → CString → Option ℕ
find_source s name = find_index (is_source name) s.sources

abbrev pub is_free : TimerSource → Bool
is_free t = not t.used

abbrev pub fresh_source : CString → ℕ → Bool → TimerOps → TimerSource
fresh_source name hz oneshot ops = record zero_timer {
  used = true;
  active = true;
  frequency_hz = hz;
  supports_oneshot = oneshot;
  name = copy_string timer_name_size name;
  ops = ops;
}

unfoldable pub rad_timer_source_unregister : Timers → CString → Status × Timers
unfolding find_source
rad_timer_source_unregister s name = elim (find_source s name) [
  | none ↦ (not_found, s)
  | some i ↦ (ok, put_source s i zero_timer)
]

-- What the source's own start says; a source without one has nothing to say.
abbrev pub started : TimerOps → ℕ → Status
started ops hz = elim ops.start_periodic [ none ↦ ok | some start ↦ start hz ]

abbrev after_start : Status → CString → Timers → Status × Timers
after_start ok name s = (ok, s)
after_start failure name s = (failure, (rad_timer_source_unregister s name).1)

-- A null name is an empty one here: both are refused.
unfoldable pub rad_timer_source_register : Timers → CString → ℕ → Bool → TimerOps → Status × Timers
unfolding find_source rad_timer_source_unregister
rad_timer_source_register s name hz oneshot ops =
    if length name == 0 then (invalid_argument, s) else elim (find_source s name) [
      | some i ↦ (already_exists, s)
      | none ↦ elim (find_index is_free s.sources) [
        | none ↦ (no_memory, s)
        | some i ↦
            after_start (started ops hz) name (put_source s i (fresh_source name hz oneshot ops))
      ]
    ]

abbrev pub ticked : TimerSource → TimerSource
ticked t = if t.used && t.active then record t { ticks = (t.ticks + 1) % 2 ^ 64 } else t

unfoldable pub rad_timer_tick : Timers → ℕ → Timers
rad_timer_tick s elapsed = record {
  sources = map ticked s.sources;
  elapsed_micros = (s.elapsed_micros + elapsed) % 2 ^ 64;
  scheduler_ticks = (s.scheduler_ticks + 1) % 2 ^ 64;
}

abbrev is_there {ℓ} : {A : Type ℓ} → Option A → Bool
is_there none = false
is_there (some a) = true

abbrev pub can_schedule : TimerSource → Bool
can_schedule t = t.used && t.active && t.supports_oneshot && is_there t.ops.schedule_oneshot

abbrev pub can_cancel : TimerSource → Bool
can_cancel t = t.used && t.active && t.supports_oneshot && is_there t.ops.cancel_oneshot

unfoldable pub rad_timer_schedule_oneshot : Timers → ℕ → Status
rad_timer_schedule_oneshot s delay = elim (find_index can_schedule s.sources) [
  | none ↦ not_supported
  | some i ↦ elim (get_or s.sources i zero_timer).ops.schedule_oneshot [
    | none ↦ not_supported
    | some schedule ↦ schedule delay
  ]
]

unfoldable pub rad_timer_cancel_oneshot : Timers → Status
rad_timer_cancel_oneshot s = elim (find_index can_cancel s.sources) [
  | none ↦ not_supported
  | some i ↦ elim (get_or s.sources i zero_timer).ops.cancel_oneshot [
    | none ↦ not_supported
    | some status ↦ status
  ]
]
