-- ===== src/Process/Signals.antt =====
-- `rad_process_kill` of RADKernel/core/RADKernel_runtime.cpp.
use radpx_os.Base.{
  ℕ, zero, suc, ◌<◌, ◌≡◌, refl, ap, ◌≢◌, ◌↔◌, inl, inr, Bool, true, false, not, ◌&&◌, ◌||◌, Option,
  none, some, List, [], ◌∷◌, ◌++◌, arith, ltb, leb, ◌==◌, if◌then◌else◌, if_elim, Bool-cases,
  Option-cases, length, set, find_index, find_index-holds, find_index-none, Status, ok,
  invalid_argument, not_found,
}
use radpx_os.Base.Int.{ℤ, pos, negsuc}
use radpx_os.Kernel.{
  Kernel, ProcessState, zombie, unset, running, waiting, ProcessRecord, zero_process, Call,
  finish_task, current_process_pid,
}
use radpx_os.Process.{find_process, process_at, has_pid, is_zombie, posix_wait_signal_status}

abbrev bad_signal : ℤ → Bool
bad_signal (pos n) = (n == 0) || leb 64 n
bad_signal (negsuc n) = true

abbrev group_of : List ProcessRecord → Option ℕ → ℕ
group_of ps none = 0
group_of ps (some i) = (process_at ps i).process_group_id

-- Whom the call is for: a group if `group` is not 0, and otherwise the process `pid`.
pub record Target : Type 0 where
  pub group : ℕ
  pub pid : ℕ

unfoldable pub kill_target : Kernel → ℤ → Option Target
unfolding find_process current_process_pid
kill_target k (pos zero) = some (record {
  group = group_of k.processes (find_process k.processes (current_process_pid k));
  pid = 0;
})
kill_target k (pos (suc zero)) = none
kill_target k (pos (suc (suc n))) = some (record { group = 0; pid = suc (suc n) })
kill_target k (negsuc zero) = none
kill_target k (negsuc (suc n)) = some (record { group = suc (suc n); pid = 0 })

abbrev killed : ℕ → ProcessRecord → ProcessRecord
killed signal r = record r { state = zombie; exit_code = posix_wait_signal_status signal }

abbrev finish_call : Option ℕ → List Call
finish_call none = []
finish_call (some t) = finish_task t ∷ []

abbrev pub is_hit : ℕ → ProcessRecord → Bool
is_hit group r = r.used && (r.process_group_id == group) && ltb 1 r.pid && not (is_zombie r.state)

-- The loop of a call for a group: every live member but the kernel and init is killed.
unfoldable pub kill_all : ℕ → ℕ → List ProcessRecord → List ProcessRecord
kill_all group signal [] = []
kill_all group signal (r ∷ rs) =
    (if is_hit group r then killed signal r else r) ∷ kill_all group signal rs

unfoldable pub kill_all_calls : ℕ → List ProcessRecord → List Call
kill_all_calls group [] = []
kill_all_calls group (r ∷ rs) =
    (if is_hit group r then finish_call r.task else []) ++ kill_all_calls group rs

-- The loop of a call for one process, which ends at the first record that has the identifier.
abbrev kill_at : Kernel → ℕ → ℕ → Status × Kernel
kill_at k signal i =
    let r = process_at k.processes i in
    if is_zombie r.state then (ok, k) else (
      ok,
      record k {
        processes = set k.processes i (killed signal r);
        calls = k.calls ++ finish_call r.task;
      },
    )

abbrev signal_number_of : ℤ → ℕ
signal_number_of (pos n) = n
signal_number_of (negsuc n) = 0

abbrev delivered : Option ℕ → Status
delivered none = not_found
delivered (some i) = ok

unfoldable pub kill_group : Kernel → ℕ → ℕ → Status × Kernel
unfolding kill_all kill_all_calls
kill_group k group signal = (
  delivered (find_index (is_hit group) k.processes),
  record k {
    processes = kill_all group signal k.processes;
    calls = k.calls ++ kill_all_calls group k.processes;
  },
)

unfoldable pub kill_one : Kernel → ℕ → ℕ → Status × Kernel
kill_one k pid signal = elim (find_index (has_pid pid) k.processes) [
  | none ↦ (not_found, k)
  | some i ↦ kill_at k signal i
]

unfoldable pub rad_process_kill : Kernel → ℤ → ℤ → Status × Kernel
unfolding kill_target
rad_process_kill k pid signal_number =
    let signal = signal_number_of signal_number in
    if bad_signal signal_number then (invalid_argument, k) else elim (kill_target k pid) [
      | none ↦ (invalid_argument, k)
      | some t ↦ if t.group == 0 then kill_one k t.pid signal else kill_group k t.group signal
    ]

used-lt : (ps : List ProcessRecord) (i : ℕ) → (process_at ps i).used ≡ true → i < length ps
used-lt [] i used = absurd (cc)
used-lt (r ∷ rs) zero used = omega arith
used-lt (r ∷ rs) (suc i) used = omega (arith, used-lt rs i used)

-- A live member of a group that a signal may end: neither the kernel nor init.
abbrev pub IsMember : ℕ → ProcessRecord → Type 0
IsMember group r = (r.used ≡ true) × (r.process_group_id ≡ group) × (1 < r.pid) × (r.state ≢ zombie)

-- The record after the signal: a zombie with the signal's wait status if it was such a member,
-- and as it was if not.
abbrev pub Signalled : ℕ → ℕ → ProcessRecord → ProcessRecord → Type 0
Signalled group signal r r' =
    (IsMember group r
      → r' ≡ record r { state = zombie; exit_code = posix_wait_signal_status signal })
    × (¬ IsMember group r → r' ≡ r)

zombie-is_zombie : (s : ProcessState) → is_zombie s ≡ true → s ≡ zombie
zombie-is_zombie zombie e = refl
zombie-is_zombie unset e = absurd (cc)
zombie-is_zombie running e = absurd (cc)
zombie-is_zombie waiting e = absurd (cc)

is_hit-IsMember : (group : ℕ) (r : ProcessRecord) → is_hit group r ≡ true → IsMember group r
is_hit-IsMember group r e =
    (ground arith, ground arith, ground arith, λ dead. ground (arith, ap is_zombie dead))

IsMember-is_hit : (group : ℕ) (r : ProcessRecord) → IsMember group r → is_hit group r ≡ true
IsMember-is_hit group r (used, same, above, alive) = elim (Bool-cases (is_zombie r.state)) [
  | inl dead ↦ absurd (alive (zombie-is_zombie r.state dead))
  | inr e ↦ ground arith
]

signalled :
    (group signal : ℕ) (r : ProcessRecord)
    → Signalled group signal r (if is_hit group r then killed signal r else r)
signalled group signal r =
    if_elim (Signalled group signal r) (is_hit group r)
      (λ e. (λ m. refl, λ m. absurd (m (is_hit-IsMember group r e))))
      (λ e. (λ m. absurd (ground (arith, IsMember-is_hit group r m)), λ m. refl))

process_at-kill_all :
    (group signal : ℕ) (ps : List ProcessRecord) (i : ℕ)
    → Signalled group signal (process_at ps i) (process_at (kill_all group signal ps) i)
unfolding kill_all
process_at-kill_all group signal [] i = (λ m. absurd (cc (m.0)), λ m. refl)
process_at-kill_all group signal (r ∷ rs) zero = signalled group signal r
process_at-kill_all group signal (r ∷ rs) (suc i) = process_at-kill_all group signal rs i

kill-group :
    (k : Kernel) (n s : ℕ)
    → s < 63
    → rad_process_kill k (negsuc (suc n)) (pos (suc s)) ≡ kill_group k (suc (suc n)) (suc s)
unfolding rad_process_kill
kill-group k n s small = ground arith

-- A signal from 1 to 63 to a process group above 1 makes each record in use of the group whose
-- identifier is above 1 and that is no zombie a zombie with the signal's wait status, and leaves
-- every other record as it was; the call succeeds exactly when there is such a record.
pub kill_group_exact :
    (k : Kernel) (n s : ℕ)
    → s < 63
    → ((i : ℕ)
        → Signalled
            (suc (suc n))
            (suc s)
            (process_at k.processes i)
            (process_at (rad_process_kill k (negsuc (suc n)) (pos (suc s))).1.processes i))
      × (((rad_process_kill k (negsuc (suc n)) (pos (suc s))).0 ≡ ok)
          ↔ ((i : ℕ) × IsMember (suc (suc n)) (process_at k.processes i)))
unfolding kill_group
kill_group_exact k n s small =
    rw (kill-group k n s small)
      ((λ i. process_at-kill_all (suc (suc n)) (suc s) k.processes i), (succeeds, found))
  where
    succeeds :
        delivered (find_index (is_hit (suc (suc n))) k.processes) ≡ ok
        → (i : ℕ) × IsMember (suc (suc n)) (process_at k.processes i)
    succeeds e = elim (Option-cases (find_index (is_hit (suc (suc n))) k.processes)) [
      | inl f ↦ absurd (ground arith)
      | inr (i, f) ↦ (
        i,
        is_hit-IsMember (suc (suc n)) (process_at k.processes i)
            (find_index-holds (is_hit (suc (suc n))) zero_process k.processes i f),
      )
    ]

    found :
        (i : ℕ) × IsMember (suc (suc n)) (process_at k.processes i)
        → delivered (find_index (is_hit (suc (suc n))) k.processes) ≡ ok
    found (i, m) =
        let holds = IsMember-is_hit (suc (suc n)) (process_at k.processes i) m in
        elim (Option-cases (find_index (is_hit (suc (suc n))) k.processes)) [
          | inl f ↦ absurd (
              ground (
                arith,
                holds,
                find_index-none (is_hit (suc (suc n))) zero_process k.processes i f
                    (used-lt k.processes i (m.0)),
              ))
          | inr (j, f) ↦ rw f
        ]

-- A signal from 1 to 63 to the identifier, above 1, of a process in the table succeeds: it makes a
-- process that is alive a zombie with the signal's wait status, changes no other record, and
-- changes nothing if the process was a zombie.
pub kill_one_exact :
    (k : Kernel) (n s i : ℕ)
    → s < 63
    → find_process k.processes (suc (suc n)) ≡ some i
    → ((rad_process_kill k (pos (suc (suc n))) (pos (suc s))).0 ≡ ok)
      × ((rad_process_kill k (pos (suc (suc n))) (pos (suc s))).1.processes ≡ (
          if is_zombie (process_at k.processes i).state
          then k.processes
          else set k.processes i (record (process_at k.processes i) {
            state = zombie;
            exit_code = posix_wait_signal_status (suc s);
          })))
unfolding rad_process_kill kill_one find_process
kill_one_exact k n s i small found = ground arith

-- A signal from 1 to 63 to process 0, from a process whose group is 0, is taken for a call about
-- the record of identifier 0, the kernel's: if that is alive, it becomes a zombie.
pub kill_zero_hits_kernel :
    (k : Kernel) (s i : ℕ)
    → s < 63
    → group_of k.processes (find_process k.processes (current_process_pid k)) ≡ 0
    → find_process k.processes 0 ≡ some i
    → is_zombie (process_at k.processes i).state ≡ false
    → (rad_process_kill k (pos 0) (pos (suc s))).1.processes
      ≡ set k.processes i (record (process_at k.processes i) {
        state = zombie;
        exit_code = posix_wait_signal_status (suc s);
      })
unfolding rad_process_kill kill_one find_process
kill_zero_hits_kernel k s i small e found alive = ground arith
