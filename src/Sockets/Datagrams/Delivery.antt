-- ===== src/Sockets/Datagrams/Delivery.antt =====
-- What becomes of a datagram in RADKernel/core/RADKernel_runtime.cpp.
use radpx_os.Base.{
  ℕ, zero, suc, ◌≤◌, ◌<◌, ◌≡◌, refl, sym, ap, ◌∙◌, inl, inr, true, false, none, some, List, [], ◌∷◌,
  arith, ltb, ◌==◌, Bool-cases, length, set, length-set, get_or, take, find_index, find_index-lt,
  find_index-holds, find_index-least, find_index-none, find_index-total, get_or-set_self,
  get_or-set_ne, Status, ok, value,
}
use mathlib.Core.Path.{subst}
use radpx_os.Base.Int.{ℤ}
use radpx_os.Kernel.{Kernel, SocketRecord, zero_socket, UdpDatagram, zero_datagram, SockAddr, Ipv4}
use radpx_os.Sockets.{socket_at, put_socket, socket_from_fd, af_inet}
use radpx_os.Sockets.Streams.{socket_from_fd-lt, socket_from_fd-put}
use radpx_os.Sockets.Datagrams.{
  udp_payload_bytes, find_udp_socket, is_empty, is_waiting, put_datagram, datagram_of,
  enqueue_udp_datagram, dispatch_udp_datagram, rad_socket_recvfrom, take_datagram,
}

-- An entry that passes, written where none before it does, is the first that passes.
first_written :
    (ds : List UdpDatagram) (i : ℕ) (d : UdpDatagram)
    → i < length ds
    → d.used ≡ true
    → ((j : ℕ) → j < i → is_waiting (get_or ds j zero_datagram) ≡ false)
    → find_index is_waiting (set ds i d) ≡ some i
first_written ds i d lt used below =
    let (j, e, le) =
      find_index-total is_waiting zero_datagram (set ds i d) i (rw (length-set ds i d) lt)
        (rw (get_or-set_self ds i d zero_datagram lt) used) in
    let held = find_index-holds is_waiting zero_datagram (set ds i d) j e in
    elim (Bool-cases (j == i)) [
      | inl same ↦ let q : j ≡ i = ground arith in rw e (ap some q)
      | inr other ↦
          let apart : ¬ (i ≡ j) = ground arith in
          absurd (
            ground
              (arith, held, below j (ground arith), get_or-set_ne ds i j d zero_datagram apart))
    ]

taken_at :
    (k : Kernel) (j size i : ℕ) (s : SocketRecord) (d : UdpDatagram)
    → socket_at k.sockets j ≡ s
    → find_index is_waiting s.datagrams ≡ some i
    → get_or s.datagrams i zero_datagram ≡ d
    → (take_datagram k j size).0 ≡ value (take size d.payload, some d.from)
taken_at k j size i s d here first held =
    rw (take_datagram, here, first)
      (ap (λ (x : UdpDatagram). value (take size x.payload, some x.from))
        (ap (λ (x : SocketRecord). get_or x.datagrams i zero_datagram) here ∙ held))

-- The address that a datagram from a port comes with.
abbrev pub sender : Ipv4 → ℕ → SockAddr
sender address port = record { family = af_inet; port = port; address = address }

abbrev pub slot_at : Kernel → ℕ → ℕ → UdpDatagram
slot_at k j n = get_or (socket_at k.sockets j).datagrams n zero_datagram

-- Whatever arrives in a poll, the datagrams that wait at socket `j` stay in their slots.
abbrev pub KeepsWaiting : (Kernel → Kernel) → Kernel → ℕ → Type 0
KeepsWaiting poll k j =
    (n : ℕ)
    → (get_or (socket_at k.sockets j).datagrams n zero_datagram).used ≡ true
    → get_or (socket_at (poll k).sockets j).datagrams n zero_datagram
      ≡ get_or (socket_at k.sockets j).datagrams n zero_datagram

first_is_waiting :
    (ds : List UdpDatagram) (d : UdpDatagram)
    → get_or ds 0 zero_datagram ≡ d
    → d.used ≡ true
    → find_index is_waiting ds ≡ some 0
unfolding find_index
first_is_waiting [] d e used = absurd (ground (arith, ap (λ (x : UdpDatagram). x.used) e ∙ used))
first_is_waiting (x ∷ ds) d e used =
    let here : x.used ≡ true = ap (λ (x : UdpDatagram). x.used) e ∙ used in rw here refl

-- Where none waits the first slot that is free is the first.
free_is_first :
    (ds : List UdpDatagram) (i : ℕ)
    → find_index is_empty ds ≡ some i
    → find_index is_waiting ds ≡ none
    → i ≡ 0
unfolding find_index
free_is_first [] i free idle = absurd (cc)
free_is_first (d ∷ ds) zero free idle = refl
free_is_first (d ∷ ds) (suc i) free idle = absurd (ground arith)

module _ (k : Kernel) (address : Ipv4) (source_port port j i : ℕ) (payload : List ℕ)
    (target : find_udp_socket k.sockets port ≡ some j) (small : length payload ≤ udp_payload_bytes)
    (free : find_index is_empty (socket_at k.sockets j).datagrams ≡ some i) where
  filled : SocketRecord
  filled = put_datagram (socket_at k.sockets j) i (datagram_of (sender address source_port) payload)

  delivered : Kernel
  delivered = put_socket k j filled

  dispatches : dispatch_udp_datagram k address source_port port payload ≡ (ok, delivered)
  unfolding dispatch_udp_datagram enqueue_udp_datagram filled delivered
  dispatches =
      let fits : ltb udp_payload_bytes (length payload) ≡ false = ground (arith, small) in
      rw (dispatch_udp_datagram, target, fits, free) refl

  module _ (fd : ℤ) (size : ℕ) (open_at : socket_from_fd k fd ≡ some j)
      (below : (n : ℕ)
        → n < i
        → is_waiting (get_or (socket_at k.sockets j).datagrams n zero_datagram) ≡ false) where
    here : socket_at delivered.sockets j ≡ filled
    unfolding delivered
    here = get_or-set_self k.sockets j filled zero_socket (socket_from_fd-lt k fd j open_at)

    in_range : i < length (socket_at k.sockets j).datagrams
    in_range = find_index-lt is_empty (socket_at k.sockets j).datagrams i free

    first : find_index is_waiting filled.datagrams ≡ some i
    unfolding filled
    first =
        first_written (socket_at k.sockets j).datagrams i
          (datagram_of (sender address source_port) payload) in_range refl below

    datagram :
        get_or filled.datagrams i zero_datagram ≡ datagram_of (sender address source_port) payload
    unfolding filled
    datagram =
        get_or-set_self (socket_at k.sockets j).datagrams i
          (datagram_of (sender address source_port) payload) zero_datagram in_range

    still_open : socket_from_fd delivered fd ≡ some j
    unfolding delivered filled
    still_open = socket_from_fd-put k j filled fd (socket_from_fd-lt k fd j open_at) refl ∙ open_at

    received :
        (rad_socket_recvfrom (λ q. q) delivered fd true size).0
        ≡ value (take size payload, some (sender address source_port))
    unfolding rad_socket_recvfrom
    received =
        rw (rad_socket_recvfrom, still_open)
          (taken_at delivered j size i filled (datagram_of (sender address source_port) payload)
            here first datagram)

    polled :
        (poll : Kernel → Kernel)
        → i ≡ 0
        → KeepsWaiting poll delivered j
        → (rad_socket_recvfrom poll delivered fd true size).0
          ≡ value (take size payload, some (sender address source_port))
    unfolding rad_socket_recvfrom
    polled poll zeroth keeps =
        let d = datagram_of (sender address source_port) payload in
        let there : slot_at delivered j 0 ≡ d =
          ap (slot_at delivered j) (sym zeroth)
          ∙ ap (λ (x : SocketRecord). get_or x.datagrams i zero_datagram) here
          ∙ datagram in
        let kept : slot_at (poll delivered) j 0 ≡ d =
          keeps 0 (ap (λ (x : UdpDatagram). x.used) there) ∙ there in
        rw (rad_socket_recvfrom, still_open)
          (taken_at (poll delivered) j size 0 (socket_at (poll delivered).sockets j) d refl
            (first_is_waiting (socket_at (poll delivered).sockets j).datagrams d kept refl) kept)

-- A datagram of at most 512 bytes, dispatched to a socket with a free slot where none waits, is
-- what the next receive at a descriptor of the socket gives: as many of its bytes as there is room
-- for, and its sender. That is so for every poll of the network, in that receive, which leaves the
-- datagrams that wait at the socket in their slots, as the arrival of further datagrams does.
pub dispatch_then_recvfrom :
    (k : Kernel) (address : Ipv4) (source_port port j i size : ℕ) (payload : List ℕ) (fd : ℤ)
    (poll : Kernel → Kernel)
    → find_udp_socket k.sockets port ≡ some j
    → length payload ≤ udp_payload_bytes
    → find_index is_empty (socket_at k.sockets j).datagrams ≡ some i
    → socket_from_fd k fd ≡ some j
    → find_index is_waiting (socket_at k.sockets j).datagrams ≡ none
    → KeepsWaiting poll (dispatch_udp_datagram k address source_port port payload).1 j
    → let (status, k') = dispatch_udp_datagram k address source_port port payload in
      (status ≡ ok)
      × ((rad_socket_recvfrom poll k' fd true size).0
          ≡ value (take size payload, some (sender address source_port)))
dispatch_then_recvfrom k address source_port port j i size payload fd poll target small free open_at
      idle keeps =
    let ds = (socket_at k.sockets j).datagrams in
    let lt = find_index-lt is_empty ds i free in
    let below =
      λ (n : ℕ) (n_lt : n < i). find_index-none is_waiting zero_datagram ds n idle (omega arith) in
    let sent = dispatches k address source_port port j i payload target small free in
    let keeps' = subst (λ (r : Status × Kernel). KeepsWaiting poll r.1 j) sent keeps in
    rw sent (
      refl,
      polled k address source_port port j i payload target small free fd size open_at below poll
          (free_is_first ds i free idle) keeps',
    )

-- A datagram of at most 512 bytes, dispatched to a socket with a free slot before the first slot
-- that waits, is received before the datagram that waits: the order of arrival is not kept.
pub newer_overtakes :
    (k : Kernel) (address : Ipv4) (source_port port j i w size : ℕ) (payload : List ℕ) (fd : ℤ)
    → find_udp_socket k.sockets port ≡ some j
    → length payload ≤ udp_payload_bytes
    → find_index is_empty (socket_at k.sockets j).datagrams ≡ some i
    → socket_from_fd k fd ≡ some j
    → find_index is_waiting (socket_at k.sockets j).datagrams ≡ some w
    → i < w
    → let (status, k') = dispatch_udp_datagram k address source_port port payload in
      (status ≡ ok)
      × ((rad_socket_recvfrom (λ q. q) k' fd true size).0
          ≡ value (take size payload, some (sender address source_port)))
newer_overtakes k address source_port port j i w size payload fd target small free open_at waits
      before =
    let ds = (socket_at k.sockets j).datagrams in
    rw (dispatches k address source_port port j i payload target small free) (
      refl,
      received k address source_port port j i payload target small free fd size open_at
          (λ n below. find_index-least is_waiting zero_datagram ds w n waits (omega arith)),
    )
