-- ===== src/Sockets/Streams.antt =====
-- What `rad_socket_send` and `rad_socket_recv` of RADKernel/core/RADKernel_runtime.cpp do to the bytes
-- of a stream.
use radpx_os.Base.{
  ℕ, ◌-◌, ◌<◌, min, ◌≡◌, refl, sym, ap, ◌∙◌, inl, inr, Bool, true, not, ◌&&◌, ◌||◌, Option, none,
  some, List, ◌++◌, arith, ltb, ◌==◌, if◌then◌else◌, if_elim, Bool-cases, Option-cases, length, set,
  length-set, get_or, take, drop, take-all, drop-all, count, get_or-set, get_or-set_self, Result,
  value, fail,
}
use mathlib.Core.Path.{subst}
use radpx_os.Base.Int.{ℤ}
use radpx_os.Kernel.{zero_fd, current_process_pid, Kernel, SocketRecord, zero_socket}
use radpx_os.Descriptors.{lookup_fd_record}
use radpx_os.Pipe.{pipe_buffer_bytes}
use radpx_os.Sockets.{
  socket_at, put_socket, socket_of_slot, socket_from_fd, rad_socket_send, rad_socket_recv,
  is_established, sock_stream,
}

-- The kernel after `bytes` have been sent to socket `peer`.
abbrev pub received : Kernel → ℕ → List ℕ → SocketRecord
received k peer bytes =
    let p = socket_at k.sockets peer in record p { stream_rx = p.stream_rx ++ bytes }

-- What a call of `rad_socket_send` may come to.
abbrev pub SendFits : Kernel → ℤ → List ℕ → Result ℕ × Kernel → Type 0
SendFits k fd bytes (fail status, k') = k' ≡ k
SendFits k fd bytes (value n, k') =
    (i : ℕ) × (socket_from_fd k fd ≡ some i)
    × (let peer = (socket_at k.sockets i).peer_index in
        (peer < length k.sockets)
        × (n ≡ min (length bytes) (pipe_buffer_bytes - length (socket_at k.sockets peer).stream_rx))
        × (k' ≡ put_socket k peer (received k peer (take n bytes))))

-- `rad_socket_send` counts the bytes that the peer has room for, and appends these, the first ones, to
-- what the peer has not yet received; nothing else changes, and nothing at all when it fails.
pub rad_socket_send-SendFits :
    (k : Kernel) (fd : ℤ) (there : Bool) (bytes : List ℕ)
    → SendFits k fd bytes (rad_socket_send k fd there bytes)
unfolding rad_socket_send
rad_socket_send-SendFits k fd there bytes = elim (Option-cases (socket_from_fd k fd)) [
  | inl e ↦ rw (rad_socket_send, e) (ground arith)
  | inr (i, e) ↦
      let s = socket_at k.sockets i in
      let peer = socket_at k.sockets s.peer_index in
      let P = SendFits k fd bytes in
      rw (rad_socket_send, e)
        (if_elim P (not there && not (length bytes == 0)) (λ h. refl)
          (λ h.
            if_elim P
              (not (s.kind == sock_stream)
                || not (is_established s.tcp_state)
                || not (ltb s.peer_index (length k.sockets)))
              (λ a. refl)
              (λ a.
                if_elim P (not peer.used || s.shutdown_write || peer.shutdown_read) (λ b. refl)
                  (λ b. (i, e, (ground arith, ground arith, refl))))))
]

-- A descriptor's socket stays its socket when a socket that is in use or not stays so.
pub socket_from_fd-put :
    (k : Kernel) (peer : ℕ) (s : SocketRecord) (fd : ℤ)
    → peer < length k.sockets
    → s.used ≡ (socket_at k.sockets peer).used
    → socket_from_fd (put_socket k peer s) fd ≡ socket_from_fd k fd
unfolding socket_from_fd lookup_fd_record current_process_pid
socket_from_fd-put k peer s fd lt same = stays (lookup_fd_record k fd)
  where
    used_stays : (j : ℕ) → (socket_at (set k.sockets peer s) j).used ≡ (socket_at k.sockets j).used
    used_stays j = elim (get_or-set k.sockets peer j s zero_socket lt) [
      | inl (e, f) ↦ rw f (same ∙ ap (λ n. (socket_at k.sockets n).used) e)
      | inr (e, f) ↦ rw f refl
    ]

    stays : (slot : Option ℕ) → socket_of_slot (put_socket k peer s) slot ≡ socket_of_slot k slot
    stays none = refl
    stays (some slot) =
        rw (length-set k.sockets peer s, used_stays (get_or k.fds slot zero_fd).socket_index) refl

-- The socket of a descriptor is in the table, and in use.
pub socket_from_fd-lt :
    (k : Kernel) (fd : ℤ) (i : ℕ) → socket_from_fd k fd ≡ some i → i < length k.sockets
unfolding socket_from_fd
socket_from_fd-lt k fd i = inside (lookup_fd_record k fd)
  where
    inside : (slot : Option ℕ) → socket_of_slot k slot ≡ some i → i < length k.sockets
    inside none h = cc
    inside (some slot) h = ground arith

pub socket_from_fd-used :
    (k : Kernel) (fd : ℤ) (i : ℕ)
    → socket_from_fd k fd ≡ some i
    → (socket_at k.sockets i).used ≡ true
unfolding socket_from_fd
socket_from_fd-used k fd i = inside (lookup_fd_record k fd)
  where
    inside :
        (slot : Option ℕ) → socket_of_slot k slot ≡ some i → (socket_at k.sockets i).used ≡ true
    inside none h = cc
    inside (some slot) h = ground arith

take-min :
    (size : ℕ) (xs : List ℕ)
    → take (if ltb (length xs) size then length xs else size) xs ≡ take size xs
take-min size xs = elim (Bool-cases (ltb (length xs) size)) [
  | inl h ↦ rw (h, take-all size xs (ground arith), take-all (length xs) xs (omega arith)) refl
  | inr h ↦ rw h refl
]

drop-min :
    (size : ℕ) (xs : List ℕ)
    → drop (if ltb (length xs) size then length xs else size) xs ≡ drop size xs
drop-min size xs = elim (Bool-cases (ltb (length xs) size)) [
  | inl h ↦ rw (h, drop-all size xs (ground arith), drop-all (length xs) xs (omega arith)) refl
  | inr h ↦ rw h refl
]

-- A receive on a stream takes the bytes that came first, and leaves the others.
pub recv-takes :
    (k : Kernel) (fd : ℤ) (size j : ℕ)
    → socket_from_fd k fd ≡ some j
    → (socket_at k.sockets j).kind ≡ sock_stream
    → ((rad_socket_recv k fd true size).0 ≡ value (take size (socket_at k.sockets j).stream_rx))
      × ((socket_at (rad_socket_recv k fd true size).1.sockets j).stream_rx
          ≡ drop size (socket_at k.sockets j).stream_rx)
unfolding rad_socket_recv
recv-takes k fd size j found stream =
    let s = socket_at k.sockets j in
    let count = if ltb (length s.stream_rx) size then length s.stream_rx else size in
    let rest = record s { stream_rx = drop count s.stream_rx } in
    let test : (s.kind == sock_stream) ≡ true = ground (arith, stream) in
    rw (rad_socket_recv, found, test)
      (
        ap (λ x. value x) (take-min size s.stream_rx),
        ap (λ (x : SocketRecord). x.stream_rx)
              (get_or-set_self k.sockets j rest zero_socket (socket_from_fd-lt k fd j found))
            ∙ drop-min size s.stream_rx,
      )

-- What a receive at `fd` gives when `waiting` is in the stream of its socket `j`.
abbrev pub RecvGives : Kernel → ℤ → ℕ → ℕ → List ℕ → Type 0
RecvGives k fd size j waiting =
    ((rad_socket_recv k fd true size).0 ≡ value (take size waiting))
    × ((socket_at (rad_socket_recv k fd true size).1.sockets j).stream_rx ≡ drop size waiting)

recv_after_put :
    (k : Kernel) (fd : ℤ) (size j : ℕ) (bytes : List ℕ)
    → socket_from_fd k fd ≡ some j
    → (socket_at k.sockets j).kind ≡ sock_stream
    → RecvGives
        (put_socket k j (received k j bytes))
        fd
        size
        j
        ((socket_at k.sockets j).stream_rx ++ bytes)
recv_after_put k fd size j bytes found stream =
    let s = received k j bytes in
    let lt = socket_from_fd-lt k fd j found in
    let here = get_or-set_self k.sockets j s zero_socket lt in
    let (result, rest) =
      recv-takes (put_socket k j s) fd size j (socket_from_fd-put k j s fd lt refl ∙ found)
        (ap (λ (x : SocketRecord). x.kind) here ∙ stream) in
    (
      result ∙ ap (λ (x : SocketRecord). value (take size x.stream_rx)) here,
      rest ∙ ap (λ (x : SocketRecord). drop size x.stream_rx) here,
    )

-- What is sent is received: a send on a stream that succeeds counts the bytes that the peer has
-- room for, and a receive at a descriptor of the peer, a stream too, then gives first what was
-- waiting there and after it the bytes that were counted, as far as the reader's buffer goes; the
-- rest waits.
pub send_then_recv :
    (k k' : Kernel) (fd peer_fd : ℤ) (i n size : ℕ) (bytes : List ℕ)
    → rad_socket_send k fd true bytes ≡ (value n, k')
    → socket_from_fd k fd ≡ some i
    → socket_from_fd k peer_fd ≡ some (socket_at k.sockets i).peer_index
    → (socket_at k.sockets (socket_at k.sockets i).peer_index).kind ≡ sock_stream
    → let peer = (socket_at k.sockets i).peer_index in
      (n ≡ min (length bytes) (pipe_buffer_bytes - length (socket_at k.sockets peer).stream_rx))
      × RecvGives k' peer_fd size peer ((socket_at k.sockets peer).stream_rx ++ take n bytes)
send_then_recv k k' fd peer_fd i n size bytes sent mine theirs stream =
    after (subst (SendFits k fd bytes) sent (rad_socket_send-SendFits k fd true bytes))
  where
    peer : ℕ
    peer = (socket_at k.sockets i).peer_index

    after :
        SendFits k fd bytes (value n, k')
        → (n ≡ min (length bytes) (pipe_buffer_bytes - length (socket_at k.sockets peer).stream_rx))
          × RecvGives k' peer_fd size peer ((socket_at k.sockets peer).stream_rx ++ take n bytes)
    after (i', e, (lt, count, writes)) =
        let same : i' ≡ i = cc in
        (
          rw (sym same) count,
          rw (writes, same) (recv_after_put k peer_fd size peer (take n bytes) theirs stream),
        )
