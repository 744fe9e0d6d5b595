-- ===== src/Descriptors/Calls.antt =====
-- The calls on descriptors of RADKernel/core/RADKernel_runtime.cpp: rad_fd_close, rad_fd_dup,
-- rad_fd_dup2, rad_fd_fcntl, rad_process_clone_fds, close_process_fds, rad_pipe_create, pipe_read and
-- pipe_write.
use radpx_os.Base.{
  ℕ, zero, suc, ◌+◌, ◌-◌, Bool, true, false, not, ◌&&◌, ◌||◌, Option, none, some, List, ltb, ◌==◌,
  if◌then◌else◌, length, set, get_or, find_index, count, Status, ok, invalid_argument, not_found,
  no_memory, not_supported, Result, value, fail,
}
use radpx_os.Base.Int.{ℤ, pos, negsuc, eq_ℤ, is_neg}
use Prim.Native.Nat.{bit_and, bit_or, ◌%◌, ◌^◌, ◌-◌}
use radpx_os.Pipe.{PipeRecord, zero_pipe}
use radpx_os.Pipe
use radpx_os.Kernel.{Kernel, FdRecord, zero_fd, FdKind, fd_pipe, max_posix_fds, current_process_pid}
use radpx_os.Descriptors.{find_fd_slot, fd_owner_index, close_fd_index, install_any, install_at}

-- `install_fd_record(source, requested)`
unfoldable pub install_fd_record : Kernel → FdRecord → ℤ → Result ℕ × Kernel
install_fd_record k source (pos n) = install_at k source n
install_fd_record k source (negsuc n) = install_any k source

abbrev pub my_slot : Kernel → ℤ → Option ℕ
my_slot k fd = find_fd_slot k.fds fd (pos (current_process_pid k)) true

unfoldable pub rad_fd_close : Kernel → ℤ → Status × Kernel
rad_fd_close k fd = elim (my_slot k fd) [
  | none ↦ (not_found, k)
  | some slot ↦ (ok, close_fd_index k slot)
]

-- One more reference is counted at the record in slot `o`.
abbrev pub add_reference : Kernel → ℕ → Kernel
add_reference k o =
    let owner = get_or k.fds o zero_fd in
    record k { fds = set k.fds o (record owner { refs = owner.refs + 1 }) }

-- What `rad_fd_dup` and `rad_fd_dup2` install: the owner's record as it was before its count rose.
abbrev pub dup_record : Kernel → ℕ → ℤ → FdRecord
dup_record k o number =
    let owner = get_or k.fds o zero_fd in
    record owner { owner_fd = pos o; local_fd = number; owner_pid = pos (current_process_pid k) }

unfoldable pub rad_fd_dup : Kernel → ℤ → Result ℕ × Kernel
rad_fd_dup k fd = elim (fd_owner_index k.fds (my_slot k fd)) [
  | none ↦ (fail not_found, k)
  | some o ↦ install_any (add_reference k o) (dup_record k o (negsuc 0))
]

abbrev dup2_at : Kernel → ℤ → ℕ → Result ℕ × Kernel
dup2_at k old_fd n = elim (fd_owner_index k.fds (my_slot k old_fd)) [
  | none ↦ (fail not_found, k)
  | some o ↦ install_at (add_reference k o) (dup_record k o (pos n)) n
]

unfoldable pub rad_fd_dup2 : Kernel → ℤ → ℤ → Result ℕ × Kernel
rad_fd_dup2 k old_fd (negsuc n) = (fail invalid_argument, k)
rad_fd_dup2 k old_fd (pos n) = if eq_ℤ old_fd (pos n) then (value n, k) else dup2_at k old_fd n

-- RAD_FD_CLOEXEC, RAD_FD_NONBLOCK, and the commands RAD_FCNTL_GETFD to RAD_FCNTL_SETFL.
abbrev pub fd_cloexec : ℕ
fd_cloexec = 1

abbrev pub fd_nonblock : ℕ
fd_nonblock = 256

-- `(flags & ~RAD_FD_NONBLOCK) | (argument & RAD_FD_NONBLOCK)`
unfoldable pub set_nonblock : ℕ → ℕ → ℕ
set_nonblock flags argument =
    bit_or (bit_and flags (2 ^ 32 - 1 - fd_nonblock)) (bit_and (argument % 2 ^ 32) fd_nonblock)

abbrev update_fd : Kernel → ℕ → (FdRecord → FdRecord) → Kernel
update_fd k i f = record k { fds = set k.fds i (f (get_or k.fds i zero_fd)) }

abbrev fcntl_at : Kernel → ℕ → Option ℕ → ℕ → ℕ → Result ℕ × Kernel
fcntl_at k slot owner command argument =
    if command == 1
    then (value (get_or k.fds slot zero_fd).descriptor_flags, k)
    else if command == 2
    then (
      value 0,
      update_fd k slot
          (λ r. record r { descriptor_flags = bit_and (argument % 2 ^ 32) fd_cloexec }),
    )
    else if command == 3
    then elim owner [
      | none ↦ (fail not_found, k)
      | some o ↦ (value (get_or k.fds o zero_fd).flags, k)
    ]
    else if command == 4
    then elim owner [
      | none ↦ (fail not_found, k)
      | some o ↦ (value 0, update_fd k o (λ r. record r { flags = set_nonblock r.flags argument }))
    ]
    else (fail not_supported, k)

unfoldable pub rad_fd_fcntl : Kernel → ℤ → ℕ → ℕ → Result ℕ × Kernel
unfolding set_nonblock
rad_fd_fcntl k fd command argument = elim (my_slot k fd) [
  | none ↦ (fail not_found, k)
  | some slot ↦ fcntl_at k slot (fd_owner_index k.fds (some slot)) command argument
]

-- One round of `close_process_fds`.
unfoldable pub close_slot : Kernel → ℤ → Bool → ℕ → Kernel
close_slot k pid close_on_exec_only slot =
    let r = get_or k.fds slot zero_fd in
    let skip =
      not r.used
      || not (eq_ℤ r.owner_pid pid)
      || (close_on_exec_only && (bit_and r.descriptor_flags fd_cloexec == 0)) in
    if skip then k else close_fd_index k slot

-- `close_process_fds` from slot `slot` on, over `rounds` slots.
unfoldable pub close_fds_from : Kernel → ℤ → Bool → ℕ → ℕ → Kernel
close_fds_from k pid close_on_exec_only slot zero = k
close_fds_from k pid close_on_exec_only slot (suc rounds) =
    close_fds_from (close_slot k pid close_on_exec_only slot) pid close_on_exec_only (suc slot)
      rounds

unfoldable pub close_process_fds : Kernel → ℤ → Bool → Kernel
unfolding close_fds_from
close_process_fds k pid close_on_exec_only = close_fds_from k pid close_on_exec_only 0 max_posix_fds

abbrev clone_record : FdRecord → ℤ → ℕ → FdRecord
clone_record r child o = record r { owner_pid = child; owner_fd = pos o; refs = 1 }

-- One round of the loop of `rad_process_clone_fds`: the slot is skipped, or its record is copied.
unfoldable pub clone_slot : Kernel → ℤ → ℤ → ℕ → Result ℕ × Kernel
unfolding install_fd_record
clone_slot k parent child slot =
    let r = get_or k.fds slot zero_fd in
    if not r.used || not (eq_ℤ r.owner_pid parent)
    then (value 0, k)
    else elim (fd_owner_index k.fds (some slot)) [
      | none ↦ (value 0, k)
      | some o ↦ install_fd_record (add_reference k o) (clone_record r child o) r.local_fd
    ]

unfoldable pub clone_from : Kernel → ℤ → ℤ → ℕ → ℕ → Status × Kernel
clone_from k parent child slot zero = (ok, k)
clone_from k parent child slot (suc rounds) =
    let (done, k') = clone_slot k parent child slot in
    elim done [ fail s ↦ (s, k') | value n ↦ clone_from k' parent child (suc slot) rounds ]

unfoldable pub rad_process_clone_fds : Kernel → ℤ → ℤ → Status × Kernel
unfolding clone_slot clone_from
rad_process_clone_fds k parent child =
    let positive = λ (p : ℤ). not (is_neg p) && not (eq_ℤ p (pos 0)) in
    if not (positive parent) || not (positive child) || eq_ℤ parent child
    then (invalid_argument, k)
    else clone_from k parent child 0 max_posix_fds

-- A fresh record for one end of a pipe.
abbrev pub pipe_end : Kernel → ℕ → Bool → ℕ → FdRecord
pipe_end k pipe write_end flags = record zero_fd {
  kind = fd_pipe;
  pipe_index = pipe;
  pipe_write_end = write_end;
  flags = flags;
  refs = 1;
  owner_fd = negsuc 0;
  owner_pid = pos (current_process_pid k);
  local_fd = negsuc 0;
}

abbrev pub fresh_pipe : PipeRecord
fresh_pipe = record zero_pipe { used = true; read_refs = 1; write_refs = 1 }

abbrev with_pipe : Kernel → ℕ → PipeRecord → Kernel
with_pipe k i p = record k { pipes = set k.pipes i p }

-- The second half of `rad_pipe_create`, with the read end installed as `read_fd`.
abbrev create_write_end : Kernel → ℕ → ℕ → Result (ℕ × ℕ) × Kernel
create_write_end k i read_fd =
    let (done, k') = install_any k (pipe_end k i true 2) in
    elim done [
      | value write_fd ↦ (value (read_fd, write_fd), k')
      | fail s ↦ (fail s, with_pipe (rad_fd_close k' (pos read_fd)).1 i zero_pipe)
    ]

-- The two numbers written to `pipefd`, or the status.
unfoldable pub rad_pipe_create : Kernel → Result (ℕ × ℕ) × Kernel
unfolding rad_fd_close
rad_pipe_create k = elim (find_index (λ (p : PipeRecord). not p.used) k.pipes) [
  | none ↦ (fail no_memory, k)
  | some i ↦
      let k₁ = with_pipe k i fresh_pipe in
      let (done, k₂) = install_any k₁ (pipe_end k₁ i false 1) in
      elim done [
        | value read_fd ↦ create_write_end k₂ i read_fd
        | fail s ↦ (fail s, with_pipe k₂ i zero_pipe)
      ]
]

abbrev is_pipe : FdKind → Bool
is_pipe fd_pipe = true
is_pipe _ = false

abbrev after_read : Kernel → ℕ → Result (ℕ × List ℕ × PipeRecord) → Result (ℕ × List ℕ) × Kernel
after_read k i (value (count, bytes, p)) = (value (count, bytes), with_pipe k i p)
after_read k i (fail s) = (fail s, k)

-- `pipe_read(record, buffer, size)`: the bytes returned, and the kernel.
unfoldable pub pipe_read : Kernel → FdRecord → Bool → ℕ → Result (ℕ × List ℕ) × Kernel
pipe_read k r there n =
    if not (is_pipe r.kind) || r.pipe_write_end || not (ltb r.pipe_index (length k.pipes))
    then (fail invalid_argument, k)
    else after_read k r.pipe_index (Pipe.read (get_or k.pipes r.pipe_index zero_pipe) there n)

abbrev after_write : Kernel → ℕ → Result (ℕ × PipeRecord) → Result ℕ × Kernel
after_write k i (value (count, p)) = (value count, with_pipe k i p)
after_write k i (fail s) = (fail s, k)

unfoldable pub pipe_write : Kernel → FdRecord → Bool → List ℕ → Result ℕ × Kernel
pipe_write k r there src =
    if not (is_pipe r.kind) || not r.pipe_write_end || not (ltb r.pipe_index (length k.pipes))
    then (fail invalid_argument, k)
    else after_write k r.pipe_index (Pipe.write (get_or k.pipes r.pipe_index zero_pipe) there src)
