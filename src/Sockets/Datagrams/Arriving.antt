-- ===== src/Sockets/Datagrams/Arriving.antt =====
-- That a datagram that arrives, in RADKernel/core/RADKernel_runtime.cpp, keeps those that wait.
use radpx_os.Base.{
  ℕ, ◌<◌, ◌≡◌, refl, ap, ◌∙◌, inl, inr, true, Option, some, List, arith, ltb, ◌==◌, if_elim,
  option_elim, length, set, get_or, find_index, find_index-lt, find_index-holds, get_or-set,
  get_or-set_ne, Status,
}
use radpx_os.Kernel.{Kernel, SocketRecord, zero_socket, UdpDatagram, zero_datagram, SockAddr, Ipv4}
use radpx_os.Sockets.{socket_at, put_socket, find_socket, has_port, sock_dgram}
use radpx_os.Sockets.Datagrams.{
  udp_payload_bytes, find_udp_socket, is_empty, datagram_of, enqueue_udp_datagram,
  dispatch_udp_datagram,
}
use radpx_os.Sockets.Datagrams.Delivery.{slot_at, sender, KeepsWaiting}

find_udp_socket-lt :
    (ss : List SocketRecord) (port t : ℕ) → find_udp_socket ss port ≡ some t → t < length ss
unfolding find_udp_socket find_socket
find_udp_socket-lt ss port t =
    if_elim (λ (r : Option ℕ). r ≡ some t → t < length ss) (port == 0)
      (λ e h. absurd (ground (arith, h))) (λ e h. find_index-lt (has_port sock_dgram port) ss t h)

put_datagram-keeps :
    (s : SocketRecord) (m n : ℕ) (d : UdpDatagram)
    → find_index is_empty s.datagrams ≡ some m
    → (get_or s.datagrams n zero_datagram).used ≡ true
    → get_or (set s.datagrams m d) n zero_datagram ≡ get_or s.datagrams n zero_datagram
put_datagram-keeps s m n d free waits =
    let empty : is_empty (get_or s.datagrams m zero_datagram) ≡ true =
      find_index-holds is_empty zero_datagram s.datagrams m free in
    let differ : ¬ (m ≡ n) =
      λ e. absurd (ground (arith, empty, waits, ap (λ k. get_or s.datagrams k zero_datagram) e)) in
    get_or-set_ne s.datagrams m n d zero_datagram differ

enqueue-keeps :
    (s : SocketRecord) (from : SockAddr) (payload : List ℕ) (n : ℕ)
    → (get_or s.datagrams n zero_datagram).used ≡ true
    → get_or (enqueue_udp_datagram s from payload).1.datagrams n zero_datagram
      ≡ get_or s.datagrams n zero_datagram
unfolding enqueue_udp_datagram
enqueue-keeps s from payload n waits =
    let P = λ (r : Status × SocketRecord).
      get_or r.1.datagrams n zero_datagram ≡ get_or s.datagrams n zero_datagram in
    if_elim P (ltb udp_payload_bytes (length payload)) (λ e. refl)
      (λ e.
        option_elim P (find_index is_empty s.datagrams) (λ full. refl)
          (λ m free. put_datagram-keeps s m n (datagram_of from payload) free waits))

put_socket-keeps :
    (k : Kernel) (t j n : ℕ) (s : SocketRecord)
    → t < length k.sockets
    → ((get_or (socket_at k.sockets t).datagrams n zero_datagram).used ≡ true
        → get_or s.datagrams n zero_datagram ≡ slot_at k t n)
    → (slot_at k j n).used ≡ true
    → slot_at (put_socket k t s) j n ≡ slot_at k j n
put_socket-keeps k t j n s inside kept waits =
    elim (get_or-set k.sockets t j s zero_socket inside) [
      | inl (same, e) ↦
          let here : slot_at k t n ≡ slot_at k j n = ap (λ i. slot_at k i n) same in
          ap (λ (x : SocketRecord). get_or x.datagrams n zero_datagram) e
          ∙ kept (ap (λ (d : UdpDatagram). d.used) here ∙ waits)
          ∙ here
      | inr (other, e) ↦ ap (λ (x : SocketRecord). get_or x.datagrams n zero_datagram) e
    ]

-- The arrival of a datagram, for any socket, keeps those that wait.
pub dispatch_udp_datagram-KeepsWaiting :
    (address : Ipv4) (source_port port : ℕ) (payload : List ℕ) (k : Kernel) (j : ℕ)
    → KeepsWaiting (λ q. (dispatch_udp_datagram q address source_port port payload).1) k j
unfolding dispatch_udp_datagram
dispatch_udp_datagram-KeepsWaiting address source_port port payload k j n waits =
    let P = λ (r : Status × Kernel). slot_at r.1 j n ≡ slot_at k j n in
    let from = sender address source_port in
    option_elim P (find_udp_socket k.sockets port) (λ e. refl)
      (λ t e.
        put_socket-keeps k t j n (enqueue_udp_datagram (socket_at k.sockets t) from payload).1
          (find_udp_socket-lt k.sockets port t e)
          (enqueue-keeps (socket_at k.sockets t) from payload n) waits)
