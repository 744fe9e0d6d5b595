-- ===== src/Process/Identity.antt =====
-- Credentials in RADKernel/core/RADKernel_runtime.cpp: rad_process_get_credentials,
-- rad_process_set_credentials, rad_process_setuid, rad_process_setgid and mode_allows.
pub mod Privilege
use radpx_os.Base.{
  ℕ, zero, suc, ◌/◌, ◌^◌, Bool, true, not, ◌&&◌, ◌||◌, none, some, List, [], ◌∷◌, ◌==◌,
  if◌then◌else◌, set, Status, ok, invalid_argument, not_found, Result, value, fail,
}
use Prim.Native.Nat.{bit_and}
use radpx_os.Base.Int.{ℤ, pos, negsuc, eq_ℤ, is_neg}
use radpx_os.Kernel.{Kernel, Credentials, ProcessRecord, zero_process, current_process_pid}
use radpx_os.Process.{find_process, process_at, has_pid, current_credentials}

-- A pid that is not positive stands for the caller.
abbrev pub or_caller : Kernel → ℤ → ℕ
or_caller k (pos zero) = current_process_pid k
or_caller k (pos (suc n)) = suc n
or_caller k (negsuc n) = current_process_pid k

abbrev pub put_credentials : Kernel → ℕ → Credentials → Kernel
put_credentials k i c = record k {
  processes = set k.processes i (record (process_at k.processes i) { credentials = c });
}

unfoldable pub rad_process_get_credentials : Kernel → ℤ → Result Credentials
unfolding find_process current_process_pid
rad_process_get_credentials k pid = elim (find_process k.processes (or_caller k pid)) [
  | none ↦ fail not_found
  | some i ↦ value (process_at k.processes i).credentials
]

abbrev set_credentials_at : Kernel → ℕ → ℕ → Credentials → Status × Kernel
set_credentials_at k target i c =
    let own = (process_at k.processes i).credentials in
    let privileged = (current_credentials k).euid == 0 in
    if not privileged && not (target == current_process_pid k)
    then (invalid_argument, k)
    else if not privileged && (not (c.uid == own.uid) || not (c.euid == own.uid))
    then (invalid_argument, k)
    else (ok, put_credentials k i c)

unfoldable pub rad_process_set_credentials : Kernel → ℤ → Credentials → Status × Kernel
rad_process_set_credentials k pid c =
    let target = or_caller k pid in
    elim (find_process k.processes target) [
      | none ↦ (not_found, k)
      | some i ↦ set_credentials_at k target i c
    ]

unfoldable pub rad_process_setuid : Kernel → ℕ → Status × Kernel
rad_process_setuid k uid = elim (find_process k.processes (current_process_pid k)) [
  | none ↦ (not_found, k)
  | some i ↦
      let own = (process_at k.processes i).credentials in
      if not (own.euid == 0) && not (uid == own.uid)
      then (invalid_argument, k)
      else (ok, put_credentials k i (record own { uid = uid; euid = uid }))
]

unfoldable pub rad_process_setgid : Kernel → ℕ → Status × Kernel
rad_process_setgid k gid = elim (find_process k.processes (current_process_pid k)) [
  | none ↦ (not_found, k)
  | some i ↦
      let own = (process_at k.processes i).credentials in
      if not (own.euid == 0) && not (gid == own.gid)
      then (invalid_argument, k)
      else (ok, put_credentials k i (record own { gid = gid; egid = gid }))
]

-- The owner and the permissions of a file, as `rad_vfs_stat_t` gives them.
pub record FileOwner : Type 0 where
  pub mode : ℕ
  pub uid : ℕ
  pub gid : ℕ

abbrev mode_shift : Credentials → FileOwner → ℕ
mode_shift c stat = if c.euid == stat.uid then 6 else if c.egid == stat.gid then 3 else 0

-- `mode_allows(stat, want)`: `(mode >> shift) & want) == want`
unfoldable pub mode_allows : Kernel → FileOwner → ℕ → Bool
mode_allows k stat want =
    let c = current_credentials k in
    if c.euid == 0
    then true
    else bit_and (bit_and stat.mode 0o777 / 2 ^ mode_shift c stat) want == want

-- The calls that change credentials.
pub data Change : Type 0 where
  setuid setgid : ℕ → Change
  set_credentials : ℤ → Credentials → Change

unfoldable pub change : Kernel → Change → Status × Kernel
unfolding rad_process_set_credentials rad_process_setuid rad_process_setgid
change k (setuid uid) = rad_process_setuid k uid
change k (setgid gid) = rad_process_setgid k gid
change k (set_credentials pid c) = rad_process_set_credentials k pid c

unfoldable pub changes : Kernel → List Change → Kernel
changes k [] = k
changes k (c ∷ cs) = changes (change k c).1 cs
