-- ===== src/Sockets.antt =====
-- The sockets of RADKernel/core/RADKernel_runtime.cpp: creation, binding, and the stream sockets that
-- are connected to each other inside the kernel. `address` stands for the kernel's own IPv4 address,
-- which the configuration gives.
pub mod Streams
pub mod Connecting
pub mod Datagrams
use radpx_os.Base.{
  ℕ, ◌+◌, ◌-◌, ◌/◌, ◌%◌, ◌^◌, Bool, true, false, not, ◌&&◌, ◌||◌, Option, none, some, List, ◌++◌,
  ltb, leb, ◌==◌, if◌then◌else◌, length, set, get_or, take, drop, replicate, find_index, count,
  Status, ok, invalid_argument, not_found, no_memory, not_supported, already_exists, Result, value,
  fail,
}
use radpx_os.Base.Int.{ℤ, pos, negsuc, is_neg}
use radpx_os.Kernel.{
  Kernel, FdRecord, FdKind, fd_empty, fd_file, fd_device, fd_pipe, fd_shm, fd_socket, fd_dir,
  zero_fd, max_udp_sockets, SocketRecord, zero_socket, Ipv4, SockAddr, TcpState, tcp_closed,
  tcp_listen, tcp_established, tcp_fin_wait, current_process_pid,
}
use radpx_os.Pipe.{pipe_buffer_bytes}
use radpx_os.Descriptors.{lookup_fd_record, install_any}

-- RAD_AF_INET, RAD_SOCK_STREAM, RAD_SOCK_DGRAM, RAD_IPPROTO_TCP, RAD_IPPROTO_UDP
abbrev pub af_inet : ℕ
af_inet = 2

abbrev pub sock_stream : ℕ
sock_stream = 1

abbrev pub sock_dgram : ℕ
sock_dgram = 2

abbrev pub ipproto_tcp : ℕ
ipproto_tcp = 6

abbrev pub ipproto_udp : ℕ
ipproto_udp = 17

abbrev is_socket : FdKind → Bool
is_socket fd_socket = true
is_socket _ = false

abbrev pub socket_at : List SocketRecord → ℕ → SocketRecord
socket_at ss i = get_or ss i zero_socket

abbrev pub put_socket : Kernel → ℕ → SocketRecord → Kernel
put_socket k i s = record k { sockets = set k.sockets i s }

abbrev pub socket_of_slot : Kernel → Option ℕ → Option ℕ
socket_of_slot k none = none
socket_of_slot k (some slot) =
    let r = get_or k.fds slot zero_fd in
    let ss = k.sockets in
    if is_socket r.kind && ltb r.socket_index (length ss) && (socket_at ss r.socket_index).used
    then some r.socket_index
    else none

-- `socket_from_fd(lookup_fd_record(fd))`, as the index of the socket.
unfoldable pub socket_from_fd : Kernel → ℤ → Option ℕ
socket_from_fd k fd = socket_of_slot k (lookup_fd_record k fd)

abbrev pub has_port : ℕ → ℕ → SocketRecord → Bool
has_port kind port s = s.used && (s.kind == kind) && (s.local_port == port)

unfoldable pub find_socket : List SocketRecord → ℕ → ℕ → Option ℕ
find_socket ss kind port = if port == 0 then none else find_index (has_port kind port) ss

abbrev pub is_unused : SocketRecord → Bool
is_unused s = not s.used

abbrev fresh_socket : ℕ → ℕ → Ipv4 → SocketRecord
fresh_socket kind protocol address = record zero_socket {
  used = true;
  domain = af_inet;
  kind = kind;
  protocol = protocol;
  local_address = address;
  peer_index = max_udp_sockets;
  pending_accepts = replicate max_udp_sockets max_udp_sockets;
}

-- A fresh record for a descriptor of socket `i`.
abbrev pub socket_record : Kernel → ℕ → FdRecord
socket_record k i = record zero_fd {
  kind = fd_socket;
  socket_index = i;
  flags = 3;
  refs = 1;
  owner_fd = negsuc 0;
  owner_pid = pos (current_process_pid k);
  local_fd = negsuc 0;
}

abbrev pub fit_protocol : ℕ → ℕ → Option ℕ
fit_protocol kind protocol =
    if kind == sock_dgram
    then if (protocol == 0) || (protocol == ipproto_udp) then some ipproto_udp else none
    else if kind == sock_stream
    then if (protocol == 0) || (protocol == ipproto_tcp) then some ipproto_tcp else none
    else none

abbrev undo_socket : ℕ → Result ℕ × Kernel → Result ℕ × Kernel
undo_socket i (value fd, k) = (value fd, k)
undo_socket i (fail s, k) = (fail s, put_socket k i zero_socket)

unfoldable pub rad_socket_create : Ipv4 → Kernel → ℕ → ℕ → ℕ → Result ℕ × Kernel
rad_socket_create address k domain kind protocol =
    if not (domain == af_inet) then (fail not_supported, k) else elim (fit_protocol kind protocol) [
      | none ↦ (fail not_supported, k)
      | some p ↦ elim (find_index is_unused k.sockets) [
        | none ↦ (fail no_memory, k)
        | some i ↦
            let opened = put_socket k i (fresh_socket kind p address) in
            undo_socket i (install_any opened (socket_record k i))
      ]
    ]

-- An address that an operation takes: the family and the port are checked.
abbrev pub is_bad : SockAddr → Bool
is_bad a = not (a.family == af_inet) || (a.port == 0)

abbrev taken_by_other : Option ℕ → ℕ → Bool
taken_by_other none i = false
taken_by_other (some j) i = not (j == i)

-- `address->address.bytes[0]`
abbrev pub first_byte : Ipv4 → ℕ
first_byte a = a / 2 ^ 24

unfoldable pub rad_socket_bind : Ipv4 → Kernel → ℤ → SockAddr → Status × Kernel
unfolding socket_from_fd find_socket
rad_socket_bind address k fd a =
    if is_bad a then (invalid_argument, k) else elim (socket_from_fd k fd) [
      | none ↦ (not_found, k)
      | some i ↦
          let s = socket_at k.sockets i in
          if taken_by_other (find_socket k.sockets s.kind a.port) i then (already_exists, k) else (
            ok,
            put_socket k i (record s {
              local_port = a.port;
              local_address = if first_byte a.address == 0 then address else a.address;
            }),
          )
    ]

abbrev pub is_listening : TcpState → Bool
is_listening tcp_listen = true
is_listening _ = false

abbrev pub is_established : TcpState → Bool
is_established tcp_established = true
is_established _ = false

-- A negative backlog is refused.
unfoldable pub rad_socket_listen : Kernel → ℤ → ℤ → Status × Kernel
unfolding socket_from_fd
rad_socket_listen k fd backlog = elim (socket_from_fd k fd) [
  | none ↦ (not_found, k)
  | some i ↦
      let s = socket_at k.sockets i in
      if not (s.kind == sock_stream) || (s.local_port == 0) || is_neg backlog
      then (invalid_argument, k)
      else (ok, put_socket k i (record s { tcp_state = tcp_listen }))
]

-- The first pending connection is taken off: the others move down, the last entry stays as it was.
abbrev pub pop_pending : SocketRecord → SocketRecord
pop_pending s = record s {
  pending_accepts =
      take (s.pending_count - 1) (drop 1 s.pending_accepts)
      ++ drop (s.pending_count - 1) s.pending_accepts;
  pending_count = s.pending_count - 1;
}

-- The address reported is that of the accepted socket; `accept` gives its index besides.
unfoldable pub rad_socket_accept : Kernel → ℤ → Result ℕ × Kernel
unfolding socket_from_fd
rad_socket_accept k fd = elim (socket_from_fd k fd) [
  | none ↦ (fail not_found, k)
  | some l ↦
      let listener = socket_at k.sockets l in
      let accepted = get_or listener.pending_accepts 0 max_udp_sockets in
      if not (listener.kind == sock_stream) || not (is_listening listener.tcp_state)
      then (fail invalid_argument, k)
      else if listener.pending_count == 0
      then (fail not_found, k)
      else if not (ltb accepted (length k.sockets) && (socket_at k.sockets accepted).used)
      then (fail not_found, k)
      else install_any (put_socket k l (pop_pending listener)) (socket_record k accepted)
]

abbrev pub connected_client : ℕ → SockAddr → SocketRecord → SocketRecord
connected_client c a s = record s {
  local_port = if s.local_port == 0 then 50000 + c % 1000 else s.local_port;
  remote_port = a.port;
  remote_address = a.address;
  tcp_state = tcp_established;
}

abbrev pub server_socket : ℕ → SocketRecord → SocketRecord → SocketRecord
server_socket c client listener = record zero_socket {
  used = true;
  domain = af_inet;
  kind = sock_stream;
  protocol = ipproto_tcp;
  tcp_state = tcp_established;
  local_port = listener.local_port;
  local_address = listener.local_address;
  remote_port = client.local_port;
  remote_address = client.local_address;
  peer_index = c;
}

abbrev pub with_peer : ℕ → SocketRecord → SocketRecord
with_peer peer s = record s { peer_index = peer }

abbrev pub push_pending : ℕ → SocketRecord → SocketRecord
push_pending i s = record s {
  pending_accepts = set s.pending_accepts s.pending_count i;
  pending_count = s.pending_count + 1;
}

abbrev pub change_socket : ℕ → (SocketRecord → SocketRecord) → List SocketRecord → List SocketRecord
change_socket i f ss = set ss i (f (socket_at ss i))

-- The writes of `rad_socket_connect`, in their order, with the client `c`, the listener `l` and the
-- free slot `server`.
unfoldable pub join_sockets : List SocketRecord → ℕ → ℕ → ℕ → SockAddr → List SocketRecord
join_sockets ss c l server a =
    let s1 = change_socket c (connected_client c a) ss in
    let s2 = set s1 server (server_socket c (socket_at s1 c) (socket_at s1 l)) in
    let s3 = change_socket c (with_peer server) s2 in change_socket l (push_pending server) s3

unfoldable pub rad_socket_connect : Kernel → ℤ → SockAddr → Status × Kernel
unfolding socket_from_fd find_socket join_sockets
rad_socket_connect k fd a = if is_bad a then (invalid_argument, k) else elim (socket_from_fd k fd) [
  | none ↦ (invalid_argument, k)
  | some c ↦
      if not ((socket_at k.sockets c).kind == sock_stream)
      then (invalid_argument, k)
      else elim (find_socket k.sockets sock_stream a.port) [
        | none ↦ (not_found, k)
        | some l ↦
            let listener = socket_at k.sockets l in
            if not (is_listening listener.tcp_state) || leb max_udp_sockets listener.pending_count
            then (not_found, k)
            else elim (find_index is_unused k.sockets) [
              | none ↦ (no_memory, k)
              | some server ↦ (ok, record k { sockets = join_sockets k.sockets c l server a })
            ]
      ]
]

abbrev pub send_count : SocketRecord → ℕ → ℕ
send_count peer size =
    let capacity = pipe_buffer_bytes - length peer.stream_rx in
    if ltb capacity size then capacity else size

-- `there` says that the caller's buffer is not null.
unfoldable pub rad_socket_send : Kernel → ℤ → Bool → List ℕ → Result ℕ × Kernel
unfolding socket_from_fd
rad_socket_send k fd there bytes =
    if not there && not (length bytes == 0)
    then (fail invalid_argument, k)
    else elim (socket_from_fd k fd) [
      | none ↦ (fail not_found, k)
      | some i ↦
          let s = socket_at k.sockets i in
          let peer = socket_at k.sockets s.peer_index in
          let count = send_count peer (length bytes) in
          if not (s.kind == sock_stream)
            || not (is_established s.tcp_state)
            || not (ltb s.peer_index (length k.sockets))
          then (fail invalid_argument, k)
          else if not peer.used || s.shutdown_write || peer.shutdown_read
          then (fail not_found, k)
          else (
            value count,
            put_socket k s.peer_index
                (record peer { stream_rx = peer.stream_rx ++ take count bytes }),
          )
    ]

unfoldable pub rad_socket_recv : Kernel → ℤ → Bool → ℕ → Result (List ℕ) × Kernel
unfolding socket_from_fd
rad_socket_recv k fd there size =
    if not there && not (size == 0)
    then (fail invalid_argument, k)
    else elim (socket_from_fd k fd) [
      | none ↦ (fail not_found, k)
      | some i ↦
          let s = socket_at k.sockets i in
          let count = if ltb (length s.stream_rx) size then length s.stream_rx else size in
          if not (s.kind == sock_stream) then (fail invalid_argument, k) else (
            value (take count s.stream_rx),
            put_socket k i (record s { stream_rx = drop count s.stream_rx }),
          )
    ]

abbrev shut : ℕ → SocketRecord → SocketRecord
shut how s = record s {
  shutdown_read = s.shutdown_read || (how == 0) || (how == 2);
  shutdown_write = s.shutdown_write || (how == 1) || (how == 2);
  tcp_state = if is_established s.tcp_state then tcp_fin_wait else s.tcp_state;
}

unfoldable pub rad_socket_shutdown : Kernel → ℤ → ℕ → Status × Kernel
unfolding socket_from_fd
rad_socket_shutdown k fd how = elim (socket_from_fd k fd) [
  | none ↦ (not_found, k)
  | some i ↦ (ok, record k { sockets = change_socket i (shut how) k.sockets })
]
