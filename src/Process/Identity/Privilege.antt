-- ===== src/Process/Identity/Privilege.antt =====
-- What a process without privilege can do to credentials (RADKernel/core/RADKernel_runtime.cpp).
use radpx_os.Base.{
  ℕ, ◌<◌, ◌≡◌, refl, sym, ◌∙◌, ◌≢◌, ◌⊎◌, inl, inr, ◌&&◌, some, List, [], ◌∷◌, arith, ◌==◌,
  if◌then◌else◌, Bool-cases, length, find_index-lt, find_index-set, get_or-set_self, get_or-set_ne,
  ok, invalid_argument,
}
use radpx_os.Base.Int.{ℤ, pos}
use radpx_os.Kernel.{Kernel, Credentials, zero_process, current_process_pid}
use radpx_os.Process.{find_process, process_at, has_pid, current_credentials}
use radpx_os.Process.Identity.{
  put_credentials, or_caller, rad_process_set_credentials, rad_process_setuid, rad_process_setgid,
  Change, setuid, setgid, set_credentials, change, changes,
}

-- The caller is the process in slot `i`, its real user is `user`, and it acts for no privileged user.
pub record IsUnprivileged (user i : ℕ) (k : Kernel) : Type 0 where
  pub caller : find_process k.processes (current_process_pid k) ≡ some i
  pub real : (process_at k.processes i).credentials.uid ≡ user
  pub effective : (process_at k.processes i).credentials.euid ≢ 0

-- The records of all other processes are as they were.
abbrev pub OthersKept : ℕ → Kernel → Kernel → Type 0
OthersKept i k k' = (j : ℕ) → ¬ (i ≡ j) → process_at k'.processes j ≡ process_at k.processes j

put-find :
    (k : Kernel) (i pid : ℕ) (c : Credentials)
    → find_process (put_credentials k i c).processes pid ≡ find_process k.processes pid
unfolding find_process
put-find k i pid c = find_index-set (has_pid pid) zero_process k.processes i _ refl

put-current :
    (k : Kernel) (i : ℕ) (c : Credentials)
    → current_process_pid (put_credentials k i c) ≡ current_process_pid k
unfolding current_process_pid
put-current k i c = refl

caller-lt : (k : Kernel) (user i : ℕ) → IsUnprivileged user i k → i < length k.processes
unfolding find_process
caller-lt k user i u = find_index-lt (has_pid (current_process_pid k)) k.processes i u.caller

put-IsUnprivileged :
    (k : Kernel) (user i : ℕ) (c : Credentials)
    → IsUnprivileged user i k
    → c.uid ≡ user
    → c.euid ≢ 0
    → IsUnprivileged user i (put_credentials k i c) × OthersKept i k (put_credentials k i c)
put-IsUnprivileged k user i c u real effective = (
  record {
    caller = rw (put-current k i c) (put-find k i (current_process_pid k) c ∙ u.caller);
    real = rw self real;
    effective = rw self effective;
  },
  λ j ne. get_or-set_ne k.processes i j _ zero_process ne,
)
  where
    self :
        process_at (put_credentials k i c).processes i
        ≡ record (process_at k.processes i) { credentials = c }
    self = get_or-set_self k.processes i _ zero_process (caller-lt k user i u)

abbrev pub own : Kernel → ℕ → Credentials
own k i = (process_at k.processes i).credentials

-- What the calls come to without privilege.
setuid_cases :
    (k : Kernel) (user i uid : ℕ)
    → IsUnprivileged user i k
    → (rad_process_setuid k uid ≡ (invalid_argument, k))
      ⊎ ((uid ≡ user)
          × (rad_process_setuid k uid
              ≡ (ok, put_credentials k i (record (own k i) { uid = uid; euid = uid }))))
unfolding rad_process_setuid
setuid_cases k user i uid u = elim (Bool-cases (uid == user)) [
  | inl e ↦ inr (ground arith, ground arith)
  | inr e ↦ inl (ground arith)
]

setgid_cases :
    (k : Kernel) (user i gid : ℕ)
    → IsUnprivileged user i k
    → (rad_process_setgid k gid ≡ (invalid_argument, k))
      ⊎ (rad_process_setgid k gid
          ≡ (ok, put_credentials k i (record (own k i) { gid = gid; egid = gid })))
unfolding rad_process_setgid
setgid_cases k user i gid u = elim (Bool-cases (gid == (own k i).gid)) [
  | inl e ↦ inr (ground arith)
  | inr e ↦ inl (ground arith)
]

privileged-eq :
    (k : Kernel) (user i : ℕ) → IsUnprivileged user i k → current_credentials k ≡ own k i
unfolding current_credentials
privileged-eq k user i u = rw (u.caller, current_credentials)

set_credentials_refused :
    (k : Kernel) (pid : ℤ) (c : Credentials) (user i : ℕ)
    → IsUnprivileged user i k
    → ¬ (or_caller k pid ≡ current_process_pid k)
    → (rad_process_set_credentials k pid c).1 ≡ k
unfolding rad_process_set_credentials
set_credentials_refused k pid c user i u other = ground (arith, privileged-eq k user i u)

set_own_credentials :
    (k : Kernel) (pid : ℤ) (c : Credentials) (user i : ℕ)
    → IsUnprivileged user i k
    → or_caller k pid ≡ current_process_pid k
    → rad_process_set_credentials k pid c ≡ (
        if (c.uid == user) && (c.euid == user)
        then (ok, put_credentials k i c)
        else (invalid_argument, k))
unfolding rad_process_set_credentials
set_own_credentials k pid c user i u e = ground (arith, privileged-eq k user i u)

set_credentials_cases :
    (k : Kernel) (pid : ℤ) (c : Credentials) (user i : ℕ)
    → IsUnprivileged user i k
    → ((rad_process_set_credentials k pid c).1 ≡ k)
      ⊎ ((c.uid ≡ user)
          × (c.euid ≡ user)
          × ((rad_process_set_credentials k pid c).1 ≡ put_credentials k i c))
set_credentials_cases k pid c user i u =
    elim (Bool-cases (or_caller k pid == current_process_pid k)) [
      | inr other ↦ inl (set_credentials_refused k pid c user i u (ground arith))
      | inl self ↦
          let done = set_own_credentials k pid c user i u (ground arith) in
          elim (Bool-cases ((c.uid == user) && (c.euid == user))) [
            | inl fits ↦ inr (ground arith, ground arith, rw (done, fits))
            | inr misfit ↦ inl (rw (done, misfit))
          ]
    ]

same :
    (k : Kernel) (user i : ℕ) → IsUnprivileged user i k → IsUnprivileged user i k × OthersKept i k k
same k user i u = (u, λ j ne. refl)

change-IsUnprivileged :
    (c : Change) (k : Kernel) (user i : ℕ)
    → user ≢ 0
    → IsUnprivileged user i k
    → IsUnprivileged user i (change k c).1 × OthersKept i k (change k c).1
unfolding change
change-IsUnprivileged (setuid uid) k user i ne u = elim (setuid_cases k user i uid u) [
  | inl e ↦ rw e (same k user i u)
  | inr (v, e) ↦ rw e (put-IsUnprivileged k user i _ u v (λ z. ne (sym v ∙ z)))
]
change-IsUnprivileged (setgid gid) k user i ne u = elim (setgid_cases k user i gid u) [
  | inl e ↦ rw e (same k user i u)
  | inr e ↦ rw e (put-IsUnprivileged k user i _ u u.real u.effective)
]
change-IsUnprivileged (set_credentials pid c) k user i ne u =
    elim (set_credentials_cases k pid c user i u) [
      | inl e ↦ rw e (same k user i u)
      | inr (v, v', e) ↦ rw e (put-IsUnprivileged k user i c u v (λ z. ne (sym v' ∙ z)))
    ]

-- No sequence of rad_process_setuid, rad_process_setgid and rad_process_set_credentials calls
-- gives a process whose real user is not root, and whose effective user is not, another real user
-- or the effective user root, nor does it touch the record of any other process.
pub changes-IsUnprivileged :
    (cs : List Change) (k : Kernel) (user i : ℕ)
    → user ≢ 0
    → IsUnprivileged user i k
    → IsUnprivileged user i (changes k cs) × OthersKept i k (changes k cs)
unfolding changes
changes-IsUnprivileged [] k user i ne u = same k user i u
changes-IsUnprivileged (c ∷ cs) k user i ne u =
    let (v, kept) = change-IsUnprivileged c k user i ne u in
    let (w, kept') = changes-IsUnprivileged cs (change k c).1 user i ne v in
    (w, λ j apart. kept' j apart ∙ kept j apart)

-- A process without privilege that `rad_process_setgid` refuses a group, since it is not its own,
-- gets it, real and effective, from `rad_process_set_credentials`.
pub set_credentials_grants_group :
    (k : Kernel) (user i group : ℕ)
    → IsUnprivileged user i k
    → ¬ (group ≡ (own k i).gid)
    → ((rad_process_setgid k group).0 ≡ invalid_argument)
      × (rad_process_set_credentials k
            (pos 0)
            (record { uid = user; euid = user; gid = group; egid = group })
          ≡ (
            ok,
            put_credentials k i (record { uid = user; euid = user; gid = group; egid = group }),
          ))
unfolding rad_process_setgid
set_credentials_grants_group k user i group u ne = (
  ground arith,
  set_own_credentials k (pos 0) (record { uid = user; euid = user; gid = group; egid = group }) user
        i u refl
      ∙ ground arith,
)
