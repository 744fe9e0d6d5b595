-- ===== src/Process/Table.antt =====
-- Identifiers in the process table of RADKernel/core/RADKernel_runtime.cpp: `rad_process_create` gives
-- a fresh one, and no two records share one.
use radpx_os.Base.{
  ℕ, zero, suc, ◌+◌, ◌-◌, ◌^◌, ◌≤◌, ◌<◌, ◌≡◌, refl, sym, ◌∙◌, inl, inr, Bool, true, false, not,
  ◌&&◌, none, some, List, [], ◌∷◌, arith, ltb, leb, ◌==◌, if◌then◌else◌, Bool-cases, Option-cases,
  length, set, find_index, count, find_index-lt, find_index-holds, find_index-none, count-le-length,
  get_or-set, CString, no_memory, Result, value, fail,
}
use radpx_os.Base.Int.{ℤ}
use radpx_os.Kernel.{Kernel, Credentials, root, ProcessRecord, zero_process, running}
use radpx_os.Process.{
  find_process, process_at, has_pid, is_free, next_free_pid, create_init, create_child,
  rad_process_create, fresh_process, inherited, credentials_of, is_init_path, is_found, or_current,
}

-- In use, with an identifier from `n` on.
abbrev from : ℕ → ProcessRecord → Bool
from n r = r.used && leb n r.pid

count-from_mono : (ps : List ProcessRecord) (n : ℕ) → count (from (suc n)) ps ≤ count (from n) ps
unfolding count
count-from_mono [] n = omega arith
count-from_mono (r ∷ rs) n = ground (arith, count-from_mono rs n)

count-from_lt :
    (ps : List ProcessRecord) (n i : ℕ)
    → find_index (has_pid n) ps ≡ some i
    → count (from (suc n)) ps < count (from n) ps
unfolding count find_index
count-from_lt [] n i h = absurd (cc)
count-from_lt (r ∷ rs) n zero h = ground (arith, count-from_mono rs n)
count-from_lt (r ∷ rs) n (suc i) h = ground (arith, count-from_lt rs n i, count-from_mono rs n)

next_free_pid_fresh :
    (fuel : ℕ) (ps : List ProcessRecord) (n : ℕ)
    → count (from n) ps < fuel
    → (find_process ps (next_free_pid ps n fuel) ≡ none)
      × (n ≤ next_free_pid ps n fuel)
      × (next_free_pid ps n fuel ≤ n + count (from n) ps)
unfolding next_free_pid find_process
next_free_pid_fresh zero ps n h = absurd (omega arith)
next_free_pid_fresh (suc fuel) ps n h = elim (Option-cases (find_index (has_pid n) ps)) [
  | inl e ↦ ground arith
  | inr (i, e) ↦
      let less = count-from_lt ps n i e in
      let (free, above, below) = next_free_pid_fresh fuel ps (suc n) (omega arith) in
      rw (next_free_pid, e) (free, omega arith, omega arith)
]

-- INT32_MAX, the largest `int32_t`.
abbrev pub int32_max : ℕ
int32_max = 2 ^ 31 - 1

-- From an identifier that is at least as many below INT32_MAX as there are records, one more round
-- than there are records is enough for the loop that passes over the identifiers in use: it ends
-- at one that is not in use, not below the first one tried and not above INT32_MAX.
pub next_free_pid_total :
    (ps : List ProcessRecord) (n : ℕ)
    → n + length ps ≤ int32_max
    → let next = next_free_pid ps n (suc (length ps)) in
      (find_process ps next ≡ none) × (n ≤ next) × (next ≤ int32_max)
next_free_pid_total ps n small =
    let few = count-le-length (from n) ps in
    let (free, above, below) = next_free_pid_fresh (suc (length ps)) ps n (omega arith) in
    (free, above, omega arith)

-- No two records in use have one identifier.
abbrev pub AreDistinct : List ProcessRecord → Type 0
AreDistinct ps =
    (i j pid : ℕ)
    → has_pid pid (process_at ps i) ≡ true
    → has_pid pid (process_at ps j) ≡ true
    → i ≡ j

has_pid-lt :
    (ps : List ProcessRecord) (i pid : ℕ) → has_pid pid (process_at ps i) ≡ true → i < length ps
has_pid-lt [] i pid h = absurd (cc)
has_pid-lt (r ∷ rs) zero pid h = omega arith
has_pid-lt (r ∷ rs) (suc i) pid h = omega (arith, has_pid-lt rs i pid h)

add-AreDistinct :
    (ps : List ProcessRecord) (slot : ℕ) (r : ProcessRecord)
    → find_process ps r.pid ≡ none
    → slot < length ps
    → AreDistinct ps
    → AreDistinct (set ps slot r)
unfolding find_process
add-AreDistinct ps slot r fresh lt distinct i j pid =
    elim (get_or-set ps slot i r zero_process lt) [
      | inl (e, f) ↦ elim (get_or-set ps slot j r zero_process lt) [
        | inl (e', f') ↦ λ h h'. sym e ∙ e'
        | inr (e', f') ↦ rw (f, f') (λ h h'. absurd (clash j pid h h'))
      ]
      | inr (e, f) ↦ elim (get_or-set ps slot j r zero_process lt) [
        | inl (e', f') ↦ rw (f, f') (λ h h'. absurd (clash i pid h' h))
        | inr (e', f') ↦ rw (f, f') (distinct i j pid)
      ]
    ]
  where
    clash : (j pid : ℕ) → has_pid pid r ≡ true → ¬ (has_pid pid (process_at ps j) ≡ true)
    clash j pid h h' =
        let e : r.pid ≡ pid = ground arith in
        ground
          (arith, find_index-none (has_pid r.pid) zero_process ps j fresh (has_pid-lt ps j pid h'))

-- What making a process does: its identifier was not in use and has a successor below 2 ^ 31, and a record that was free is now its
-- running record, with the credentials given; all else in the table is as it was.
pub record Created (k k' : Kernel) (pid : ℕ) (c : Credentials) : Type 0 where
  pub fresh : find_process k.processes pid ≡ none
  pub positive : 0 < pid
  pub distinct : AreDistinct k'.processes
  pub slot : ℕ
  pub entry : ProcessRecord
  pub was_free : (process_at k.processes slot).used ≡ false
  pub placed : k'.processes ≡ set k.processes slot entry
  pub in_use : entry.used ≡ true
  pub named : entry.pid ≡ pid
  pub runs : entry.state ≡ running
  pub acts_for : entry.credentials ≡ c
  pub small : pid < int32_max

add-Created :
    (k k' : Kernel) (slot : ℕ) (r : ProcessRecord)
    → AreDistinct k.processes
    → find_process k.processes r.pid ≡ none
    → find_index is_free k.processes ≡ some slot
    → k'.processes ≡ set k.processes slot r
    → 0 < r.pid
    → r.used ≡ true
    → r.state ≡ running
    → r.pid < int32_max
    → Created k k' r.pid r.credentials
add-Created k k' slot r d fresh free placed positive used runs small = record {
  fresh = fresh;
  positive = positive;
  distinct =
      rw placed
        (add-AreDistinct k.processes slot r fresh (find_index-lt is_free k.processes slot free) d);
  slot = slot;
  entry = r;
  was_free = ground (arith, find_index-holds is_free zero_process k.processes slot free);
  placed = placed;
  in_use = used;
  named = refl;
  runs = runs;
  acts_for = refl;
  small = small;
}

create_init_at :
    (k : Kernel) (path : CString) (i : ℕ)
    → find_index is_free k.processes ≡ some i
    → create_init k path
      ≡ (value 1, record k { processes = set k.processes i (fresh_process 1 0 1 1 root path) })
unfolding create_init
create_init_at k path i e = ground arith

create_init_full :
    (k : Kernel) (path : CString)
    → find_index is_free k.processes ≡ none
    → create_init k path ≡ (fail no_memory, k)
unfolding create_init
create_init_full k path e = ground arith

-- The outcome of making a process: one was made, or no record was free and the table is as it was.
abbrev pub Outcome : Kernel → Credentials → Result ℕ × Kernel → Type 0
Outcome k c (value pid, k') = Created k k' pid c
Outcome k c (fail s, k') =
    (s ≡ no_memory) × (k'.processes ≡ k.processes) × (find_index is_free k.processes ≡ none)

create_init-Outcome :
    (k : Kernel) (path : CString)
    → AreDistinct k.processes
    → find_process k.processes 1 ≡ none
    → Outcome k root (create_init k path)
create_init-Outcome k path d fresh = elim (Option-cases (find_index is_free k.processes)) [
  | inl e ↦ rw (create_init_full k path e) (refl, refl, e)
  | inr (i, e) ↦ rw (create_init_at k path i e) (
      add-Created k _ i (fresh_process 1 0 1 1 root path) d fresh e refl (omega arith) refl refl
        (omega arith))
]

-- The first identifier that a child is tried with.
abbrev pub first_pid : Kernel → ℕ
first_pid k = if ltb k.next_pid 2 then 2 else k.next_pid

abbrev child_pid : Kernel → ℕ
child_pid k = next_free_pid k.processes (first_pid k) (suc (length k.processes))

abbrev legacy : Kernel → ℕ → ℕ × ℕ × Credentials
legacy k parent = inherited k.processes parent (find_process k.processes parent)

create_child_at :
    (k : Kernel) (path : CString) (parent i : ℕ)
    → find_index is_free k.processes ≡ some i
    → create_child k path parent ≡ (
      value (child_pid k),
      record k {
        processes = set k.processes i (
            fresh_process
              (child_pid k)
              parent
              (legacy k parent).0
              (legacy k parent).1
              (legacy k parent).2
              path);
        next_pid = suc (child_pid k);
      },
    )
unfolding create_child
create_child_at k path parent i e = rw (e, create_child)

create_child_full :
    (k : Kernel) (path : CString) (parent : ℕ)
    → find_index is_free k.processes ≡ none
    → create_child k path parent ≡ (fail no_memory, record k { next_pid = child_pid k })
unfolding create_child
create_child_full k path parent e = rw (e, create_child)

create_child-Outcome :
    (k : Kernel) (path : CString) (parent : ℕ)
    → AreDistinct k.processes
    → first_pid k + length k.processes < int32_max
    → Outcome k (legacy k parent).2 (create_child k path parent)
create_child-Outcome k path parent d small = elim (Option-cases (find_index is_free k.processes)) [
  | inl e ↦ rw (create_child_full k path parent e) (refl, refl, e)
  | inr (i, e) ↦
      let few = count-le-length (from (first_pid k)) k.processes in
      let (fresh, above, below) =
        next_free_pid_fresh (suc (length k.processes)) k.processes (first_pid k) (omega arith) in
      rw (create_child_at k path parent i e) (
        add-Created k _ i
          (fresh_process (child_pid k) parent (legacy k parent).0 (legacy k parent).1
            (legacy k parent).2 path)
          d fresh e refl (ground arith) refl refl (omega arith))
]

-- The path is init's and no process has identifier 1.
abbrev pub makes_init : Kernel → CString → Bool
makes_init k path = is_init_path path && not (is_found (find_process k.processes 1))

-- The parent that a new process gets: init takes the kernel's children in.
abbrev pub settled_parent : Kernel → CString → ℤ → ℕ
settled_parent k path parent_pid =
    let parent = or_current k parent_pid in
    if (parent == 0) && not (is_init_path path) && is_found (find_process k.processes 1)
    then 1
    else parent

legacy-credentials :
    (k : Kernel) (parent : ℕ)
    → (legacy k parent).2 ≡ credentials_of k.processes (find_process k.processes parent)
legacy-credentials k parent = elim (Option-cases (find_process k.processes parent)) [
  | inl e ↦ rw e
  | inr (i, e) ↦ rw e
]

not_found_of_none :
    (ps : List ProcessRecord) → is_found (find_process ps 1) ≡ false → find_process ps 1 ≡ none
not_found_of_none ps h = elim (Option-cases (find_process ps 1)) [
  | inl e ↦ e
  | inr (i, e) ↦ absurd (ground arith)
]

makes :
    (k : Kernel) (path : CString) (parent_pid : ℤ)
    → 0 < length path
    → makes_init k path ≡ true
    → rad_process_create k path parent_pid ≡ create_init k path
unfolding rad_process_create
makes k path parent_pid some_path e = ground arith

bears :
    (k : Kernel) (path : CString) (parent_pid : ℤ)
    → 0 < length path
    → makes_init k path ≡ false
    → rad_process_create k path parent_pid ≡ create_child k path (settled_parent k path parent_pid)
unfolding rad_process_create
bears k path parent_pid some_path e = ground arith

-- In a table whose identifiers are distinct, and with the first identifier to be tried (2 or
-- next_pid) further below INT32_MAX than there are records, making a process with a path either
-- fails with RAD_STATUS_NO_MEMORY, where no record is free, and changes none, or fills one free record with a running process whose identifier was not
-- in use; the identifiers stay distinct, and the process acts for root if it is the first init, and
-- otherwise for whom its parent's record acts (for root if there is no such record).
pub rad_process_create-Outcome :
    (k : Kernel) (path : CString) (parent_pid : ℤ)
    → AreDistinct k.processes
    → 0 < length path
    → first_pid k + length k.processes < int32_max
    → Outcome k
        (if makes_init k path
          then root
          else credentials_of k.processes
              (find_process k.processes (settled_parent k path parent_pid)))
        (rad_process_create k path parent_pid)
rad_process_create-Outcome k path parent_pid d some_path small =
    elim (Bool-cases (makes_init k path)) [
      | inl e ↦
          rw (makes k path parent_pid some_path e, e)
            (create_init-Outcome k path d (not_found_of_none k.processes (ground arith)))
      | inr e ↦
          rw
            (
              bears k path parent_pid some_path e,
              e,
              ← legacy-credentials k (settled_parent k path parent_pid),
            )
            (create_child-Outcome k path (settled_parent k path parent_pid) d small)
    ]
