-- ===== src/Tests/ServiceTests.antt =====
-- Work, wait queues, counters and timers of RADKernel/core/RADKernel_runtime.cpp at concrete tables.
use radpx_os.Base.{
  ℕ, length, ◌≡◌, refl, true, none, some, List, [], ◌∷◌, ◌++◌, arith, take, drop, replicate,
  find_index, CString, codes, text_eq, ok,
}
use radpx_os.Work.{
  Handler, WorkItem, zero_item, WorkQueue, work_item, poll_rounds, WaitQueues, zero_wait_queue,
  wait_queue_at, rad_wait_queue_wake_one, rad_wait_queue_wait,
}
use radpx_os.Work.Fifo.{IsSound, pending, run_all, poll_rounds-runs}
use radpx_os.Work.Waking.{wake_then_wait}
use radpx_os.Timers.{
  Counter, zero_counter, find_counter, is_unused, fresh_counter, Timers, zero_timer, no_ops,
  rad_timer_source_register,
}

-- Two items, the second at the start of the ring.
abbrev busy : WorkQueue
busy = record {
  initialized = true;
  items = work_item (codes "b") 2 8 ∷ replicate 30 zero_item ++ (work_item (codes "a") 1 7 ∷ []);
  head = 31;
  tail = 1;
  size = 2;
}

busy-IsSound : IsSound busy
busy-IsSound = record { whole = refl; inside = omega arith; fits = omega arith; ahead = refl }

-- A handler writes down its context.
abbrev note : WorkItem → List ℕ → List ℕ
note item seen = seen ++ item.context ∷ []

abbrev noting : Handler (List ℕ)
noting item seen q = (note item seen, q)

poll_rounds-runs_example :
    let (count, (seen, q)) = poll_rounds noting [] busy 1 in
    IsSound q
    × (count ≡ length (take 1 (pending busy)))
    × (seen ≡ run_all note (take 1 (pending busy)) [])
    × (pending q ≡ drop 1 (pending busy))
poll_rounds-runs_example = poll_rounds-runs 1 noting note [] busy (λ item seen q. refl) busy-IsSound

abbrev waiters : WaitQueues
waiters = record {
  queues = zero_wait_queue ∷ record { signals = 0; used = true } ∷ [];
  handles = 0 ∷ 1 ∷ [];
}

wake_then_wait_example :
    let (status, after) =
      rad_wait_queue_wait (rad_wait_queue_wake_one waiters (some 1)).1 (some 1) [] in
    (status ≡ ok) × ((wait_queue_at after 1).signals ≡ (wait_queue_at waiters 1).signals)
wake_then_wait_example = wake_then_wait waiters 1 [] refl (omega arith)

abbrev counters : List Counter
counters = fresh_counter (codes "work.ran") 4 ∷ zero_counter ∷ []

second_unused : find_index is_unused counters ≡ some 1
unfolding find_index
second_unused = refl

abbrev long_name : CString
long_name = replicate 40 97

long_name_missing : find_counter counters long_name ≡ none
unfolding find_counter find_index text_eq
long_name_missing = refl

abbrev clocks : Timers
clocks = record { sources = zero_timer ∷ []; elapsed_micros = 0; scheduler_ticks = 0 }

abbrev with_clock : Timers
with_clock = (rad_timer_source_register clocks (codes "pit") 100 true no_ops).1

registered_clock : rad_timer_source_register clocks (codes "pit") 100 true no_ops ≡ (ok, with_clock)
unfolding rad_timer_source_register find_index
registered_clock = refl
