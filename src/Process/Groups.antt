-- ===== src/Process/Groups.antt =====
-- Process groups and sessions of RADKernel/core/RADKernel_runtime.cpp. Group, session and parent
-- identifiers that are stored are not negative.
pub mod Sessions
use radpx_os.Base.{
  ℕ, Bool, not, ◌&&◌, none, some, ◌==◌, if◌then◌else◌, find_index, Status, ok, invalid_argument,
  not_found, Result, value, fail,
}
use radpx_os.Base.Int.{ℤ, pos, negsuc}
use radpx_os.Kernel.{Kernel, ProcessRecord, zero_process, current_process_pid}
use radpx_os.Process.{find_process, find_process_ℤ, process_at, query_pid, with_process, or_self}

-- The group and the session that a record is in: the process's own where none is set.
abbrev pub group_id : ProcessRecord → ℕ
group_id r = or_self r.process_group_id r.pid

abbrev pub session_of : ProcessRecord → ℕ
session_of r = or_self r.session_id r.pid

unfoldable pub rad_process_getpgid : Kernel → ℤ → Result ℕ
unfolding find_process_ℤ
rad_process_getpgid k pid = elim (find_process_ℤ k.processes (query_pid k pid)) [
  | none ↦ fail not_found
  | some i ↦ value (group_id (process_at k.processes i))
]

unfoldable pub rad_process_getsid : Kernel → ℤ → Result ℕ
unfolding find_process_ℤ
rad_process_getsid k pid = elim (find_process_ℤ k.processes (query_pid k pid)) [
  | none ↦ fail not_found
  | some i ↦ value (session_of (process_at k.processes i))
]

abbrev moved : ℕ → ProcessRecord → ProcessRecord
moved pgid r = record r {
  process_group_id = pgid;
  session_id = if r.session_id == 0 then or_self r.parent_pid r.pid else r.session_id;
}

abbrev move : Kernel → ℕ → ℕ → Status × Kernel
move k i pgid = if pgid == 0 then (invalid_argument, k) else (ok, with_process k i (moved pgid))

unfoldable pub rad_process_setpgid : Kernel → ℤ → ℤ → Status × Kernel
unfolding find_process_ℤ
rad_process_setpgid k pid pgid = elim (find_process_ℤ k.processes (query_pid k pid)) [
  | none ↦ (not_found, k)
  | some i ↦ elim pgid [
    | pos n ↦ move k i (if n == 0 then (process_at k.processes i).pid else n)
    | negsuc n ↦ (invalid_argument, k)
  ]
]

-- Another process that is in the group of process `pid`.
abbrev pub is_follower : ℕ → ProcessRecord → Bool
is_follower pid r = r.used && (r.process_group_id == pid) && not (r.pid == pid)

abbrev pub leader : ProcessRecord → ProcessRecord
leader r = record r { session_id = r.pid; process_group_id = r.pid }

unfoldable pub rad_process_setsid : Kernel → Result ℕ × Kernel
unfolding find_process current_process_pid
rad_process_setsid k = elim (find_process k.processes (current_process_pid k)) [
  | none ↦ (fail not_found, k)
  | some i ↦ elim (find_index (is_follower (process_at k.processes i).pid) k.processes) [
    | some j ↦ (fail invalid_argument, k)
    | none ↦ (value (process_at k.processes i).pid, with_process k i leader)
  ]
]
