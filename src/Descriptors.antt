-- ===== src/Descriptors.antt =====
-- The descriptor table of RADKernel/core/RADKernel_runtime.cpp: finding, installing, duplicating and
-- closing descriptors. A descriptor's number (`local_fd`) is looked up per process; the records that
-- share one open object name its owner in `owner_fd`, and the owner counts them in `refs`.
-- A slot that the source gives as -1 when there is none is an option here.
pub mod Calls
pub mod References
use radpx_os.Base.{
  ℕ, zero, suc, ◌-◌, Bool, true, false, not, ◌&&◌, ◌||◌, Option, none, some, List, [], ◌∷◌, ◌++◌,
  map, ltb, ◌==◌, if◌then◌else◌, length, set, get_or, take, find_index, no_memory, Result, value,
  fail,
}
use radpx_os.Base.Int.{ℤ, pos, negsuc, eq_ℤ, is_neg}
use radpx_os.Pipe.{PipeRecord, zero_pipe}
use radpx_os.Kernel.{
  Kernel, FdRecord, zero_fd, FdKind, fd_pipe, fd_socket, SocketRecord, zero_socket, Call,
  close_file, close_dir, close_device, max_posix_fds, max_udp_sockets, current_process_pid,
}

-- The record has this number, and is in use.
abbrev pub has_number : ℤ → FdRecord → Bool
has_number fd r = r.used && eq_ℤ r.local_fd fd

-- The loop of `find_fd_slot` from slot `i` on; `best` is the slot of the kernel's descriptor found
-- on the way.
unfoldable pub find_from : ℤ → ℤ → Bool → ℕ → Option ℕ → List FdRecord → Option ℕ
find_from fd pid include_global i best [] = best
find_from fd pid include_global i best (r ∷ rs) =
    let here = has_number fd r in
    let best' = if here && include_global && eq_ℤ r.owner_pid (pos 0) then some i else best in
    let rest = find_from fd pid include_global (suc i) best' rs in
    if here && eq_ℤ r.owner_pid pid then some i else rest

unfoldable pub find_fd_slot : List FdRecord → ℤ → ℤ → Bool → Option ℕ
unfolding find_from
find_fd_slot fds fd pid include_global =
    if is_neg fd then none else find_from fd pid include_global 0 none fds

-- The owner that a record names, if it is in the table and in use.
abbrev pub live_owner : List FdRecord → ℤ → ℕ → ℕ
live_owner fds (pos o) slot = if ltb o (length fds) && (get_or fds o zero_fd).used then o else slot
live_owner fds (negsuc n) slot = slot

unfoldable pub fd_owner_index : List FdRecord → Option ℕ → Option ℕ
fd_owner_index fds none = none
fd_owner_index fds (some slot) =
    let r = get_or fds slot zero_fd in
    if ltb slot (length fds) && r.used then some (live_owner fds r.owner_fd slot) else none

-- `lookup_fd_record`: the slot of the record that holds the open object.
unfoldable pub lookup_fd_record : Kernel → ℤ → Option ℕ
unfolding fd_owner_index find_fd_slot current_process_pid
lookup_fd_record k fd =
    fd_owner_index k.fds (find_fd_slot k.fds fd (pos (current_process_pid k)) true)

-- The calls that give back a record's handles.
abbrev handle_call : Option ℕ → (ℕ → Call) → List Call
handle_call none c = []
handle_call (some h) c = c h ∷ []

unfoldable pub release_calls : FdRecord → List Call
release_calls r =
    handle_call r.file close_file
    ++ handle_call r.dir close_dir
    ++ handle_call r.device close_device

abbrev drop_ref : Bool → PipeRecord → PipeRecord
drop_ref true p = record p { write_refs = p.write_refs - 1 }
drop_ref false p = record p { read_refs = p.read_refs - 1 }

-- The pipe without one of its ends; it is cleared when both are gone.
unfoldable pub drop_end : Bool → PipeRecord → PipeRecord
drop_end write_end p =
    let q = drop_ref write_end p in
    if (q.read_refs == 0) && (q.write_refs == 0) then zero_pipe else q

unfoldable pub release_pipe : FdRecord → List PipeRecord → List PipeRecord
unfolding drop_end
release_pipe r pipes =
    if ltb r.pipe_index (length pipes)
    then set pipes r.pipe_index (drop_end r.pipe_write_end (get_or pipes r.pipe_index zero_pipe))
    else pipes

-- The peer of socket `s`, if it has a live one, loses its peer.
unfoldable pub unpeer : SocketRecord → List SocketRecord → List SocketRecord
unpeer s sockets =
    let peer = get_or sockets s.peer_index zero_socket in
    if ltb s.peer_index (length sockets) && peer.used
    then set sockets s.peer_index (record peer { peer_index = max_udp_sockets })
    else sockets

-- The connections that wait to be accepted are dropped.
unfoldable pub drop_pending : List ℕ → List SocketRecord → List SocketRecord
unfolding unpeer
drop_pending [] sockets = sockets
drop_pending (i ∷ is) sockets = drop_pending is (
    if ltb i (length sockets)
    then set (unpeer (get_or sockets i zero_socket) sockets) i zero_socket
    else sockets)

unfoldable pub release_socket : FdRecord → List SocketRecord → List SocketRecord
unfolding unpeer drop_pending
release_socket r sockets =
    let s = get_or sockets r.socket_index zero_socket in
    if ltb r.socket_index (length sockets)
    then set (drop_pending (take s.pending_count s.pending_accepts) (unpeer s sockets))
        r.socket_index zero_socket
    else sockets

abbrev release_object : FdKind → FdRecord → Kernel → Kernel
release_object fd_pipe r k = record k { pipes = release_pipe r k.pipes }
release_object fd_socket r k = record k { sockets = release_socket r k.sockets }
release_object _ r k = k

-- `close_fd_record`, on the record in slot `i`.
unfoldable pub close_fd_record : Kernel → ℕ → Kernel
unfolding release_calls release_pipe release_socket
close_fd_record k i =
    let r = get_or k.fds i zero_fd in
    let refs = r.refs - 1 in
    if not r.used
    then k
    else if ltb 0 refs
    then record k {
      fds = set k.fds i (record r { refs = refs; local_fd = negsuc 0; owner_pid = negsuc 0 });
    }
    else let released = release_object r.kind r k in
      record released { fds = set k.fds i zero_fd; calls = k.calls ++ release_calls r }

-- The first entry that passes the test, the entry at `skip` left out.
unfoldable pub find_other {ℓ} : {A : Type ℓ} → (A → Bool) → List A → ℕ → Option ℕ
find_other p [] skip = none
find_other p (x ∷ xs) zero = elim (find_index p xs) [ none ↦ none | some i ↦ some (suc i) ]
find_other p (x ∷ xs) (suc skip) =
    if p x then some 0 else elim (find_other p xs skip) [ none ↦ none | some i ↦ some (suc i) ]

-- The record is in use and names slot `o` as its owner.
abbrev pub owned_by : ℕ → FdRecord → Bool
owned_by o r = r.used && eq_ℤ r.owner_fd (pos o)

abbrev pub reown : ℕ → ℕ → FdRecord → FdRecord
reown fd promoted r = if owned_by fd r then record r { owner_fd = pos promoted } else r

-- The record names another slot of the table as its owner.
abbrev pub names_other : List FdRecord → ℕ → ℤ → Bool
names_other fds fd (pos o) = not (o == fd) && ltb o (length fds)
names_other fds fd (negsuc n) = false

abbrev pub owner_slot : ℤ → ℕ
owner_slot (pos o) = o
owner_slot (negsuc n) = 0

-- One reference less at the owner, and the slot is free.
unfoldable pub drop_reference : Kernel → ℕ → ℕ → Kernel
drop_reference k fd o =
    let owner = get_or k.fds o zero_fd in
    let counted =
      if owner.used && ltb 0 owner.refs
      then set k.fds o (record owner { refs = owner.refs - 1 })
      else k.fds in
    record k { fds = set counted fd zero_fd }

-- Another record becomes the owner: it takes the count over, and all that named the old owner name
-- it. (The slot that is freed is among those, and is cleared last.)
unfoldable pub promote : Kernel → ℕ → ℕ → Kernel
promote k fd promoted =
    let r = get_or k.fds fd zero_fd in
    let chosen = get_or k.fds promoted zero_fd in
    let moved = set k.fds promoted (record chosen { owner_fd = pos promoted; refs = r.refs - 1 }) in
    record k { fds = set (map (reown fd promoted) moved) fd zero_fd }

abbrev hand_on : Kernel → ℕ → Option ℕ → Kernel
hand_on k fd none = close_fd_record k fd
hand_on k fd (some promoted) = promote k fd promoted

unfoldable pub close_fd_index : Kernel → ℕ → Kernel
unfolding close_fd_record find_other drop_reference promote
close_fd_index k fd =
    let r = get_or k.fds fd zero_fd in
    if not (ltb fd (length k.fds)) || not r.used
    then k
    else if names_other k.fds fd r.owner_fd
    then drop_reference k fd (owner_slot r.owner_fd)
    else if ltb 1 r.refs
    then hand_on k fd (find_other (owned_by fd) k.fds fd)
    else close_fd_record k fd

-- The lowest number from `candidate` on that the process does not use; `rounds` numbers are tried.
unfoldable pub free_number : List FdRecord → ℤ → ℕ → ℕ → Option ℕ
unfolding find_fd_slot
free_number fds pid candidate zero = none
free_number fds pid candidate (suc rounds) =
    let rest = free_number fds pid (suc candidate) rounds in
    elim (find_fd_slot fds (pos candidate) pid false) [ none ↦ some candidate | some i ↦ rest ]

abbrev pub is_free : FdRecord → Bool
is_free r = not r.used

abbrev own_slot : ℤ → ℕ → ℤ
own_slot (pos o) slot = pos o
own_slot (negsuc n) slot = pos slot

-- The last loop of `install_fd_record`: the record goes into the first free slot.
unfoldable pub place : Kernel → FdRecord → ℤ → ℕ → Result ℕ × Kernel
place k source pid number = elim (find_index is_free k.fds) [
  | none ↦ (fail no_memory, k)
  | some slot ↦ (
    value number,
    record k {
      fds = set k.fds slot (record source {
        used = true;
        owner_pid = pid;
        local_fd = pos number;
        owner_fd = own_slot source.owner_fd slot;
      });
    },
  )
]

abbrev source_pid : Kernel → ℤ → ℤ
source_pid k (pos p) = pos p
source_pid k (negsuc n) = pos (current_process_pid k)

abbrev close_found : Kernel → Option ℕ → Kernel
close_found k none = k
close_found k (some i) = close_fd_index k i

-- The number that `install_fd_record(source, -1)` gives.
unfoldable pub next_number : List FdRecord → ℤ → Option ℕ
unfolding free_number
next_number fds pid = free_number fds pid 3 (max_posix_fds - 3)

-- `install_fd_record(source, -1)`
unfoldable pub install_any : Kernel → FdRecord → Result ℕ × Kernel
install_any k source =
    let pid = source_pid k source.owner_pid in
    elim (next_number k.fds pid) [
      | none ↦ (fail no_memory, k)
      | some number ↦ place k source pid number
    ]

-- `install_fd_record(source, requested)` at a number that is not negative.
unfoldable pub install_at : Kernel → FdRecord → ℕ → Result ℕ × Kernel
install_at k source requested =
    let pid = source_pid k source.owner_pid in
    if not (ltb requested max_posix_fds)
    then (fail no_memory, k)
    else place (close_found k (find_fd_slot k.fds (pos requested) pid false)) source pid requested
