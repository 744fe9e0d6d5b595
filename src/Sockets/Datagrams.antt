-- ===== src/Sockets/Datagrams.antt =====
-- The datagram sockets of RADKernel/core/RADKernel_runtime.cpp: enqueue_udp_datagram,
-- dispatch_udp_datagram, rad_socket_sendto and rad_socket_recvfrom. Sending a frame and polling the
-- network are arguments: `send_frame` gives the status of send_udp_frame, `poll` what
-- poll_network_for_udp does to the kernel. `config` is the configured address of the kernel.
pub mod Delivery
pub mod Arriving
use radpx_os.Base.{
  ℕ, ◌+◌, ◌%◌, Bool, true, false, not, ◌&&◌, ◌||◌, Option, none, some, List, [], ltb, ◌==◌,
  if◌then◌else◌, length, set, get_or, take, find_index, Status, ok, invalid_argument, not_found,
  no_memory, Result, value, fail,
}
use radpx_os.Base.Int.{ℤ}
use radpx_os.Kernel.{Kernel, SocketRecord, UdpDatagram, zero_datagram, SockAddr, Ipv4}
use radpx_os.Descriptors.{lookup_fd_record}
use radpx_os.Sockets.{
  socket_at, put_socket, socket_from_fd, find_socket, sock_dgram, af_inet, is_bad, first_byte,
}

-- RAD_KERNEL_UDP_PAYLOAD_BYTES
abbrev pub udp_payload_bytes : ℕ
udp_payload_bytes = 512

unfoldable pub find_udp_socket : List SocketRecord → ℕ → Option ℕ
unfolding find_socket
find_udp_socket ss port = find_socket ss sock_dgram port

abbrev pub is_empty : UdpDatagram → Bool
is_empty d = not d.used

abbrev pub is_waiting : UdpDatagram → Bool
is_waiting d = d.used

abbrev pub put_datagram : SocketRecord → ℕ → UdpDatagram → SocketRecord
put_datagram s i d = record s { datagrams = set s.datagrams i d }

abbrev pub datagram_of : SockAddr → List ℕ → UdpDatagram
datagram_of from payload = record { from = from; payload = payload; used = true }

-- `enqueue_udp_datagram` to a socket, with a payload that is there.
unfoldable pub enqueue_udp_datagram : SocketRecord → SockAddr → List ℕ → Status × SocketRecord
enqueue_udp_datagram s from payload =
    if ltb udp_payload_bytes (length payload)
    then (invalid_argument, s)
    else elim (find_index is_empty s.datagrams) [
      | none ↦ (no_memory, s)
      | some i ↦ (ok, put_datagram s i (datagram_of from payload))
    ]

abbrev enqueue_at : Kernel → ℕ → SockAddr → List ℕ → Status × Kernel
enqueue_at k i from payload =
    let (status, s) = enqueue_udp_datagram (socket_at k.sockets i) from payload in
    (status, put_socket k i s)

unfoldable pub dispatch_udp_datagram : Kernel → Ipv4 → ℕ → ℕ → List ℕ → Status × Kernel
unfolding find_udp_socket enqueue_udp_datagram
dispatch_udp_datagram k address source_port port payload = elim (find_udp_socket k.sockets port) [
  | none ↦ (not_found, k)
  | some i ↦
      enqueue_at k i (record { family = af_inet; port = source_port; address = address }) payload
]

-- The sender's port and address, set where they are not.
abbrev named_sender : Ipv4 → ℕ → SocketRecord → SocketRecord
named_sender config i s = record s {
  local_port = if s.local_port == 0 then 49152 + i % 1024 else s.local_port;
  local_address = if first_byte s.local_address == 0 then config else s.local_address;
}

abbrev is_sent : Status → Bool
is_sent ok = true
is_sent not_found = true
is_sent _ = false

abbrev send_out : Status → ℕ → Result ℕ
send_out status size = if is_sent status then value size else fail status

abbrev deliver : Kernel → Option ℕ → SockAddr → List ℕ → Status × Kernel
deliver k none from payload = (not_found, k)
deliver k (some t) from payload = enqueue_at k t from payload

abbrev is_ok : Status → Bool
is_ok ok = true
is_ok _ = false

unfoldable pub rad_socket_sendto :
    (SocketRecord → SockAddr → List ℕ → Status)
    → Ipv4
    → Kernel
    → ℤ
    → Bool
    → List ℕ
    → SockAddr
    → Result ℕ × Kernel
unfolding socket_from_fd find_udp_socket enqueue_udp_datagram
rad_socket_sendto send_frame config k fd there bytes a =
    if (not there && not (length bytes == 0)) || is_bad a
    then (fail invalid_argument, k)
    else elim (socket_from_fd k fd) [
      | none ↦ (fail not_found, k)
      | some i ↦
          let s = named_sender config i (socket_at k.sockets i) in
          let named = put_socket k i s in
          let from : SockAddr = record {
            family = af_inet;
            port = s.local_port;
            address = s.local_address;
          } in
          let local = (a.address == s.local_address) || (a.address == config) in
          let (status, delivered) =
            deliver named (find_udp_socket named.sockets a.port) from bytes in
          let out = send_out (send_frame s a bytes) (length bytes) in
          if local && is_ok status then (value (length bytes), delivered) else (out, named)
    ]

abbrev pub take_datagram : Kernel → ℕ → ℕ → Result (List ℕ × Option SockAddr) × Kernel
take_datagram k i size =
    let s = socket_at k.sockets i in
    elim (find_index is_waiting s.datagrams) [
      | none ↦ (value ([], none), k)
      | some d ↦
          let datagram = get_or s.datagrams d zero_datagram in
          (
            value (take size datagram.payload, some datagram.from),
            put_socket k i (put_datagram s d zero_datagram),
          )
    ]

-- The bytes of the datagram that fit, and its sender; no bytes and no sender where none waits.
unfoldable pub rad_socket_recvfrom :
    (Kernel → Kernel) → Kernel → ℤ → Bool → ℕ → Result (List ℕ × Option SockAddr) × Kernel
unfolding socket_from_fd
rad_socket_recvfrom poll k fd there size =
    if not there && not (size == 0)
    then (fail invalid_argument, k)
    else elim (socket_from_fd k fd) [
      | none ↦ (fail not_found, k)
      | some i ↦ take_datagram (poll k) i size
    ]
