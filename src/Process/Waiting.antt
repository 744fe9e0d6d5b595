-- ===== src/Process/Waiting.antt =====
-- `rad_process_exit` and `rad_process_waitpid` of RADKernel/core/RADKernel_runtime.cpp.
use radpx_os.Base.{
  ℕ, zero, suc, ◌*◌, ◌%◌, ◌^◌, ◌<◌, ◌≡◌, refl, sym, ap, ◌∙◌, inl, inr, Bool, true, false, none,
  some, List, [], ◌∷◌, arith, Option-cases, length, set, length-set, find_index, find_index-lt,
  find_index-holds, find_index-none, find_index-total, get_or-set, get_or-set_self,
}
use radpx_os.Base.Int.{ℤ, pos}
use radpx_os.Kernel.{
  Kernel, max_posix_fds, ProcessRecord, zero_process, current_process_pid, zombie,
}
use radpx_os.Descriptors.{close_fd_index}
use radpx_os.Descriptors.Calls.{close_process_fds, close_fds_from, close_slot}
use radpx_os.Process.{
  find_process, process_at, has_pid, is_awaited, is_ripe, Scan, reaped, no_child, still_running,
  reap, scan_children, child, settle, wait_rounds, rad_process_waitpid, rad_process_exit,
  posix_wait_exit_status,
}
use radpx_os.Process.Table.{AreDistinct}

close-processes : (k : Kernel) (i : ℕ) → (close_fd_index k i).processes ≡ k.processes
unfolding close_fd_index
close-processes k i = ground arith

close_slot-processes :
    (k : Kernel) (pid : ℤ) (only : Bool) (slot : ℕ)
    → (close_slot k pid only slot).processes ≡ k.processes
unfolding close_slot
close_slot-processes k pid only slot = ground (arith, close-processes k slot)

close_from-processes :
    (k : Kernel) (pid : ℤ) (only : Bool) (slot rounds : ℕ)
    → (close_fds_from k pid only slot rounds).processes ≡ k.processes
unfolding close_fds_from
close_from-processes k pid only slot zero = refl
close_from-processes k pid only slot (suc rounds) =
    close_from-processes (close_slot k pid only slot) pid only (suc slot) rounds
    ∙ close_slot-processes k pid only slot

-- Closing descriptors leaves the process table alone.
close_process_fds-processes :
    (k : Kernel) (pid : ℤ) (only : Bool) → (close_process_fds k pid only).processes ≡ k.processes
unfolding close_process_fds
close_process_fds-processes k pid only = close_from-processes k pid only 0 max_posix_fds

-- What one scan of the children may come to.
abbrev pub ScanFits : Kernel → ℕ → ℤ → Scan × Kernel → Type 0
ScanFits k parent pid (reaped done code, k') =
    (i : ℕ) × (is_ripe parent pid (process_at k.processes i) ≡ true)
    × ((process_at k.processes i).pid ≡ done)
    × ((process_at k.processes i).exit_code ≡ code)
    × (k'.processes ≡ set k.processes i zero_process)
ScanFits k parent pid (no_child, k') =
    (k' ≡ k)
    × ((i : ℕ) → i < length k.processes → is_awaited parent pid (process_at k.processes i) ≡ false)
ScanFits k parent pid (still_running, k') =
    (k' ≡ k)
    × ((i : ℕ) × (is_awaited parent pid (process_at k.processes i) ≡ true))
    × ((i : ℕ) → i < length k.processes → is_ripe parent pid (process_at k.processes i) ≡ false)

reap-ScanFits :
    (k : Kernel) (parent : ℕ) (pid : ℤ) (i : ℕ)
    → is_ripe parent pid (process_at k.processes i) ≡ true
    → ScanFits k parent pid (reap k i)
unfolding reap
reap-ScanFits k parent pid i ripe = (
  i,
  ripe,
  refl,
  refl,
  ap (λ ps. set ps i zero_process)
      (close_process_fds-processes k (pos (process_at k.processes i).pid) false),
)

-- A scan reaps a zombie among the children that are waited for and clears its record and no other;
-- it reports that there is no child only if none is waited for, and that one still runs only if one
-- is waited for and none of those is a zombie.
pub scan_children-ScanFits :
    (k : Kernel) (parent : ℕ) (pid : ℤ) → ScanFits k parent pid (scan_children k parent pid)
unfolding scan_children
scan_children-ScanFits k parent pid =
    elim (Option-cases (find_index (is_ripe parent pid) k.processes)) [
      | inr (i, e) ↦
          rw (e, scan_children)
            (reap-ScanFits k parent pid i
              (find_index-holds (is_ripe parent pid) zero_process k.processes i e))
      | inl e ↦ elim (Option-cases (find_index (is_awaited parent pid) k.processes)) [
        | inl f ↦
            rw (e, f, scan_children)
              (
                refl,
                λ i lt. find_index-none (is_awaited parent pid) zero_process k.processes i f lt,
              )
        | inr (i, f) ↦
            rw (e, f, scan_children)
              (
                refl,
                (i, find_index-holds (is_awaited parent pid) zero_process k.processes i f),
                λ j lt. find_index-none (is_ripe parent pid) zero_process k.processes j e lt,
              )
      ]
    ]

abbrev exited : ProcessRecord → ℕ → ProcessRecord
exited r status = record r { state = zombie; exit_code = posix_wait_exit_status status }

-- The kernel when process `pid` runs on the core.
abbrev pub on_core : Kernel → ℕ → Kernel
on_core k pid = record k { core_pid = pos pid }

exit_writes :
    (k : Kernel) (n i status : ℕ)
    → find_process k.processes (suc n) ≡ some i
    → rad_process_exit (on_core k (suc n)) status ≡ record k {
      core_pid = pos (suc n);
      processes = set k.processes i (exited (process_at k.processes i) status);
    }
unfolding rad_process_exit
exit_writes k n i status found = ground arith

module _ (ps : List ProcessRecord) (n i status : ℕ) (distinct : AreDistinct ps)
    (found : find_process ps (suc n) ≡ some i) where
  after_exit : List ProcessRecord
  after_exit = set ps i (exited (process_at ps i) status)

  here : has_pid (suc n) (process_at ps i) ≡ true
  unfolding find_process
  here = find_index-holds (has_pid (suc n)) zero_process ps i found

  lt : i < length ps
  unfolding find_process
  lt = find_index-lt (has_pid (suc n)) ps i found

  at_exit : process_at after_exit i ≡ exited (process_at ps i) status
  unfolding after_exit
  at_exit = get_or-set_self ps i (exited (process_at ps i) status) zero_process lt

  only_here : (j : ℕ) → has_pid (suc n) (process_at after_exit j) ≡ true → j ≡ i
  unfolding after_exit
  only_here j = elim (get_or-set ps i j (exited (process_at ps i) status) zero_process lt) [
    | inl (e, f) ↦ λ h. sym e
    | inr (e, f) ↦ rw f (λ h. distinct j i (suc n) h here)
  ]

  ripe_index : find_index (is_ripe (process_at ps i).parent_pid (pos (suc n))) after_exit ≡ some i
  unfolding after_exit
  ripe_index =
      let p = is_ripe (process_at ps i).parent_pid (pos (suc n)) in
      let (j, e, le) =
        find_index-total p zero_process after_exit i
          (rw (length-set ps i (exited (process_at ps i) status)) lt)
          (rw at_exit (ground (arith, here))) in
      rw e (ap some (only_here j (ground (arith, find_index-holds p zero_process after_exit j e))))

  gone : find_process (set after_exit i zero_process) (suc n) ≡ none
  unfolding find_process after_exit
  gone = elim (Option-cases (find_index (has_pid (suc n)) (set after_exit i zero_process))) [
    | inl e ↦ e
    | inr (j, e) ↦ absurd (
        still_there j
          (find_index-holds (has_pid (suc n)) zero_process (set after_exit i zero_process) j e))
  ]
    where
      lt' : i < length after_exit
      lt' = rw (length-set ps i (exited (process_at ps i) status)) lt

      still_there :
          (j : ℕ) → ¬ (has_pid (suc n) (process_at (set after_exit i zero_process) j) ≡ true)
      still_there j = elim (get_or-set after_exit i j zero_process zero_process lt') [
        | inl (e, f) ↦ rw f (λ h. cc)
        | inr (e, f) ↦ rw f (λ h. e (sym (only_here j h)))
      ]

scan_reaps :
    (k : Kernel) (parent : ℕ) (pid : ℤ) (i : ℕ)
    → find_index (is_ripe parent pid) k.processes ≡ some i
    → scan_children k parent pid ≡ reap k i
unfolding scan_children
scan_reaps k parent pid i e = rw (e, scan_children) refl

-- A scan that finds a zombie reaps it, and the call returns at once.
reaped_at_once :
    (k : Kernel) (parent : ℕ) (pid : ℤ) (no_hang : Bool) (sleeps : List (Kernel → Kernel)) (i : ℕ)
    → find_index (is_ripe parent pid) k.processes ≡ some i
    → wait_rounds k parent pid no_hang sleeps ≡ (
      some (child (process_at k.processes i).pid (process_at k.processes i).exit_code),
      (reap k i).1,
    )
unfolding wait_rounds reap
reaped_at_once k parent pid no_hang [] i e = rw (scan_reaps k parent pid i e, wait_rounds) refl
reaped_at_once k parent pid no_hang (sleep ∷ sleeps) i e =
    ap
      (λ (x : Scan × Kernel). elim (settle no_hang x.0) [
        | some w ↦ (some w, x.1)
        | none ↦ wait_rounds (sleep x.1) parent pid no_hang sleeps
      ])
      (scan_reaps k parent pid i e)

reap-processes : (k : Kernel) (i : ℕ) → ((reap k i).1).processes ≡ set k.processes i zero_process
unfolding reap
reap-processes k i =
    ap (λ ps. set ps i zero_process)
      (close_process_fds-processes k (pos (process_at k.processes i).pid) false)

-- In a table whose identifiers are distinct, a process that exits is collected by its parent:
-- `rad_process_waitpid` for it returns at once its identifier and its exit status, cut to a byte
-- and shifted left by 8 bits (the tests of rad_process_waitpid expect the status that was given to
-- rad_process_exit), and afterwards the table has no process of that identifier.
pub exit_then_wait :
    (k : Kernel) (n i status : ℕ) (no_hang : Bool) (sleeps : List (Kernel → Kernel))
    → AreDistinct k.processes
    → find_process k.processes (suc n) ≡ some i
    → let parent = (process_at k.processes i).parent_pid in
      let gone_child = on_core (rad_process_exit (on_core k (suc n)) status) parent in
      let (result, k') = rad_process_waitpid gone_child (pos (suc n)) no_hang sleeps in
      (result ≡ some (child (suc n) (status % 2 ^ 8 * 2 ^ 8)))
      × (find_process k'.processes (suc n) ≡ none)
unfolding rad_process_waitpid current_process_pid after_exit
exit_then_wait k n i status no_hang sleeps distinct found =
    let ps = k.processes in
    let exited_child = record k {
      core_pid = pos (process_at ps i).parent_pid;
      processes = after_exit ps n i status distinct found;
    } in
    rw
      (
        exit_writes k n i status found,
        rad_process_waitpid,
        reaped_at_once exited_child (process_at ps i).parent_pid (pos (suc n)) no_hang sleeps i
            (ripe_index ps n i status distinct found),
        reap-processes exited_child i,
        at_exit ps n i status distinct found,
        gone ps n i status distinct found,
      )
      (ground (arith, here ps n i status distinct found))
