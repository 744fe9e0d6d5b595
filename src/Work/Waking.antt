-- ===== src/Work/Waking.antt =====
-- The wait queues of RADKernel/core/RADKernel_runtime.cpp.
use radpx_os.Base.{
  ℕ, ◌+◌, ◌-◌, ◌^◌, ◌<◌, ◌≡◌, refl, ap, ◌∙◌, true, some, List, [], ◌∷◌, arith, length, length-set,
  get_or, get_or-set_self, ok,
}
use native.Mathlib.Nat.{mod-eq_of_lt}
use radpx_os.Work.{
  WaitQueueRecord, zero_wait_queue, WaitQueues, wait_queue_at, set_signals, is_live,
  rad_wait_queue_wake_one, rad_wait_queue_wait, wait_on,
}

wait_ready :
    (s : WaitQueues) (i : ℕ) (sleeps : List (WaitQueues → WaitQueues))
    → 0 < (wait_queue_at s i).signals
    → wait_on s i sleeps ≡ (ok, set_signals s i ((wait_queue_at s i).signals - 1))
unfolding wait_on
wait_ready s i [] some_signal = ground (arith, some_signal)
wait_ready s i (sleep ∷ sleeps) some_signal = ground (arith, some_signal)

module _ (s : WaitQueues) (h : ℕ) (live : is_live s (get_or s.handles h 0) ≡ true) where
  index : ℕ
  index = get_or s.handles h 0

  woken : WaitQueues
  woken = set_signals s index ((wait_queue_at s index).signals + 1)

  lt : index < length s.queues
  unfolding index
  lt = ground arith

  wakes :
      (wait_queue_at s index).signals + 1 < 2 ^ 64 → (rad_wait_queue_wake_one s (some h)).1 ≡ woken
  unfolding rad_wait_queue_wake_one woken index
  wakes few = rw (live, mod-eq_of_lt few) refl

  at_woken :
      wait_queue_at woken index
      ≡ record (wait_queue_at s index) { signals = (wait_queue_at s index).signals + 1 }
  unfolding woken
  at_woken =
      get_or-set_self s.queues index
        (record (wait_queue_at s index) { signals = (wait_queue_at s index).signals + 1 })
        zero_wait_queue lt

  still_live : is_live woken index ≡ true
  unfolding woken index
  still_live =
      rw
        (
          length-set s.queues index
              (record (wait_queue_at s index) { signals = (wait_queue_at s index).signals + 1 }),
          at_woken,
        )
        live

  waits :
      (sleeps : List (WaitQueues → WaitQueues))
      → rad_wait_queue_wait woken (some h) sleeps
        ≡ (ok, set_signals woken index ((wait_queue_at woken index).signals - 1))
  unfolding rad_wait_queue_wait woken index
  waits sleeps =
      rw (still_live, rad_wait_queue_wait)
        (wait_ready woken index sleeps (rw at_woken (omega arith)))

  settled :
      (wait_queue_at
        (set_signals woken index ((wait_queue_at woken index).signals - 1))
        index).signals
      ≡ (wait_queue_at s index).signals
  unfolding woken
  settled =
      let changed = record (wait_queue_at woken index) {
        signals = (wait_queue_at woken index).signals - 1;
      } in
      let inside : index < length woken.queues =
        rw
          (length-set s.queues index
            (record (wait_queue_at s index) { signals = (wait_queue_at s index).signals + 1 }))
          lt in
      ap (λ (r : WaitQueueRecord). r.signals)
        (get_or-set_self woken.queues index changed zero_wait_queue inside)
      ∙ ap (λ (r : WaitQueueRecord). r.signals - 1) at_woken
      ∙ omega arith

-- A wake is not lost: who waits after it on a queue that is there returns at once, however long it would
-- wait, and the signals are as they were before the wake, if 64 bits hold one more.
pub wake_then_wait :
    (s : WaitQueues) (h : ℕ) (sleeps : List (WaitQueues → WaitQueues))
    → let i = get_or s.handles h 0 in
      is_live s i ≡ true
      → (wait_queue_at s (get_or s.handles h 0)).signals + 1 < 2 ^ 64
      → let (status, after) =
          rad_wait_queue_wait (rad_wait_queue_wake_one s (some h)).1 (some h) sleeps in
        (status ≡ ok)
        × ((wait_queue_at after (get_or s.handles h 0)).signals
            ≡ (wait_queue_at s (get_or s.handles h 0)).signals)
unfolding index
wake_then_wait s h sleeps live few =
    rw (wakes s h live few, waits s h live sleeps) (refl, settled s h live)
