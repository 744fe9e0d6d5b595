-- ===== src/Process.antt =====
-- The process table of RADKernel/core/RADKernel_runtime.cpp: rad_process_create, exit, waitpid, kill,
-- process groups and sessions, and credentials. A process identifier that is stored is not negative;
-- one that is passed in may be. A null path and an empty one are refused alike, and are one here.
pub mod Identity
pub mod Signals
pub mod Groups
pub mod Table
pub mod Waiting
use radpx_os.Base.{
  ℕ, zero, suc, ◌*◌, ◌%◌, ◌^◌, Bool, true, false, not, ◌&&◌, ◌||◌, Option, none, some, List, [],
  ◌∷◌, ◌++◌, ltb, ◌==◌, if◌then◌else◌, length, set, get_or, find_index, CString, codes, copy_string,
  text_eq, Status, invalid_argument, not_found, no_memory, Result, value, fail,
}
use radpx_os.Base.Int.{ℤ, pos, negsuc, eq_ℤ}
use radpx_os.Kernel.{
  Kernel, Credentials, root, ProcessState, running, zombie, ProcessRecord, zero_process,
  process_reaped, current_process_pid,
}
use radpx_os.Descriptors.Calls.{close_process_fds}

-- RAD_KERNEL_MAX_PROCESSES, and the size of a record's path.
abbrev pub max_processes : ℕ
max_processes = 16

abbrev pub process_path_size : ℕ
process_path_size = 128

abbrev pub has_pid : ℕ → ProcessRecord → Bool
has_pid pid r = r.used && (r.pid == pid)

-- `find_process_record`, as the index of the record.
unfoldable pub find_process : List ProcessRecord → ℕ → Option ℕ
find_process ps pid = find_index (has_pid pid) ps

unfoldable pub find_process_ℤ : List ProcessRecord → ℤ → Option ℕ
unfolding find_process
find_process_ℤ ps (pos pid) = find_process ps pid
find_process_ℤ ps (negsuc n) = none

abbrev pub process_at : List ProcessRecord → ℕ → ProcessRecord
process_at ps i = get_or ps i zero_process

-- `normalize_process_query_pid`
abbrev pub query_pid : Kernel → ℤ → ℤ
query_pid k pid = if eq_ℤ pid (pos 0) then pos (current_process_pid k) else pid

abbrev pub credentials_of : List ProcessRecord → Option ℕ → Credentials
credentials_of ps none = root
credentials_of ps (some i) = (process_at ps i).credentials

unfoldable pub current_credentials : Kernel → Credentials
unfolding find_process current_process_pid
current_credentials k =
    credentials_of k.processes (find_process k.processes (current_process_pid k))

abbrev pub with_process : Kernel → ℕ → (ProcessRecord → ProcessRecord) → Kernel
with_process k i f = record k { processes = set k.processes i (f (process_at k.processes i)) }

-- The two wait statuses.
abbrev pub posix_wait_exit_status : ℕ → ℕ
posix_wait_exit_status code = code % 2 ^ 8 * 2 ^ 8

abbrev pub posix_wait_signal_status : ℕ → ℕ
posix_wait_signal_status signal_number = signal_number % 2 ^ 7

abbrev pub is_free : ProcessRecord → Bool
is_free r = not r.used

abbrev pub is_init_path : CString → Bool
is_init_path path = text_eq path (codes "/bin/init") || text_eq path (codes "/sbin/radinit")

-- The loop that passes over the identifiers in use; `rounds` bounds it. `next_pid` is an `int32_t`: the
-- number is the code's as long as it does not pass INT32_MAX, where the increment is undefined.
unfoldable pub next_free_pid : List ProcessRecord → ℕ → ℕ → ℕ
unfolding find_process
next_free_pid ps n zero = n
next_free_pid ps n (suc rounds) =
    let next = next_free_pid ps (suc n) rounds in
    elim (find_process ps n) [ none ↦ n | some i ↦ next ]

abbrev pub fresh_process : ℕ → ℕ → ℕ → ℕ → Credentials → CString → ProcessRecord
fresh_process pid parent group session credentials path = record zero_process {
  used = true;
  pid = pid;
  parent_pid = parent;
  process_group_id = group;
  session_id = session;
  state = running;
  credentials = credentials;
  path = copy_string process_path_size path;
}

abbrev pub or_self : ℕ → ℕ → ℕ
or_self n self = if n == 0 then self else n

-- What a child of `parent` takes over: its group, session and credentials.
abbrev pub inherited : List ProcessRecord → ℕ → Option ℕ → ℕ × ℕ × Credentials
inherited ps parent none = (or_self parent 1, or_self parent 1, root)
inherited ps parent (some i) =
    let r = process_at ps i in
    (or_self r.process_group_id r.pid, or_self r.session_id r.pid, r.credentials)

-- `rad_process_create` for the first init process.
unfoldable pub create_init : Kernel → CString → Result ℕ × Kernel
create_init k path = elim (find_index is_free k.processes) [
  | none ↦ (fail no_memory, k)
  | some i ↦ (value 1, record k { processes = set k.processes i (fresh_process 1 0 1 1 root path) })
]

-- `rad_process_create` for any other, with the parent settled.
unfoldable pub create_child : Kernel → CString → ℕ → Result ℕ × Kernel
unfolding next_free_pid find_process
create_child k path parent =
    let ps = k.processes in
    let first = if ltb k.next_pid 2 then 2 else k.next_pid in
    let pid = next_free_pid ps first (suc (length ps)) in
    let (group, session, credentials) = inherited ps parent (find_process ps parent) in
    elim (find_index is_free ps) [
      | none ↦ (fail no_memory, record k { next_pid = pid })
      | some i ↦ (
        value pid,
        record k {
          processes = set ps i (fresh_process pid parent group session credentials path);
          next_pid = suc pid;
        },
      )
    ]

abbrev pub is_found : Option ℕ → Bool
is_found none = false
is_found (some i) = true

abbrev pub or_current : Kernel → ℤ → ℕ
or_current k (pos n) = n
or_current k (negsuc n) = current_process_pid k

unfoldable pub rad_process_create : Kernel → CString → ℤ → Result ℕ × Kernel
rad_process_create k path parent_pid =
    let parent = or_current k parent_pid in
    let has_init = is_found (find_process k.processes 1) in
    if length path == 0
    then (fail invalid_argument, k)
    else if is_init_path path && not has_init
    then create_init k path
    else create_child k path
        (if (parent == 0) && not (is_init_path path) && has_init then 1 else parent)

unfoldable pub rad_process_exit : Kernel → ℕ → Kernel
unfolding find_process current_process_pid
rad_process_exit k status =
    let current = current_process_pid k in
    if current == 0 then k else elim (find_process k.processes current) [
      | none ↦ k
      | some i ↦
          with_process k i
            (λ r. record r { state = zombie; exit_code = posix_wait_exit_status status })
    ]

abbrev pub is_zombie : ProcessState → Bool
is_zombie zombie = true
is_zombie _ = false

-- A child of `parent` that `waitpid(pid)` is about.
abbrev pub is_awaited : ℕ → ℤ → ProcessRecord → Bool
is_awaited parent (pos zero) r = r.used && (r.parent_pid == parent)
is_awaited parent (pos (suc n)) r = r.used && (r.parent_pid == parent) && (r.pid == suc n)
is_awaited parent (negsuc n) r = r.used && (r.parent_pid == parent)

abbrev pub is_ripe : ℕ → ℤ → ProcessRecord → Bool
is_ripe parent pid r = is_awaited parent pid r && is_zombie r.state

-- What one scan of `rad_process_waitpid` comes to.
pub data Scan : Type 0 where
  reaped : ℕ → ℕ → Scan
  no_child still_running : Scan

unfoldable pub reap : Kernel → ℕ → Scan × Kernel
unfolding close_process_fds
reap k i =
    let r = process_at k.processes i in
    let closed = close_process_fds k (pos r.pid) false in
    (
      reaped r.pid r.exit_code,
      record closed {
        processes = set closed.processes i zero_process;
        calls =
            if k.has_reaped_hook
            then closed.calls ++ (process_reaped r.pid r.exit_code ∷ [])
            else closed.calls;
      },
    )

unfoldable pub scan_children : Kernel → ℕ → ℤ → Scan × Kernel
unfolding reap
scan_children k parent pid = elim (find_index (is_ripe parent pid) k.processes) [
  | some i ↦ reap k i
  | none ↦ elim (find_index (is_awaited parent pid) k.processes) [
    | none ↦ (no_child, k)
    | some i ↦ (still_running, k)
  ]
]

-- What `rad_process_waitpid` returns: a child and its status, 0, or an error. `none` is a call that
-- still sleeps. Each entry of `sleeps` is what the rest of the system does during one sleep.
pub data Waited : Type 0 where
  child : ℕ → ℕ → Waited
  nothing_yet : Waited
  wait_failed : Status → Waited

abbrev pub settle : Bool → Scan → Option Waited
settle no_hang (reaped done code) = some (child done code)
settle no_hang no_child = some (wait_failed not_found)
settle no_hang still_running = if no_hang then some nothing_yet else none

unfoldable pub wait_rounds : Kernel → ℕ → ℤ → Bool → List (Kernel → Kernel) → Option Waited × Kernel
unfolding scan_children
wait_rounds k parent pid no_hang [] =
    let (scan, k') = scan_children k parent pid in (settle no_hang scan, k')
wait_rounds k parent pid no_hang (sleep ∷ sleeps) =
    let (scan, k') = scan_children k parent pid in
    elim (settle no_hang scan) [
      | some w ↦ (some w, k')
      | none ↦ wait_rounds (sleep k') parent pid no_hang sleeps
    ]

unfoldable pub rad_process_waitpid :
    Kernel → ℤ → Bool → List (Kernel → Kernel) → Option Waited × Kernel
unfolding wait_rounds current_process_pid
rad_process_waitpid k pid no_hang sleeps = wait_rounds k (current_process_pid k) pid no_hang sleeps
