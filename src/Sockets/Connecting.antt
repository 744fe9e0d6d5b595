-- ===== src/Sockets/Connecting.antt =====
-- What `rad_socket_connect` of RADKernel/core/RADKernel_runtime.cpp sets up.
use radpx_os.Base.{
  ℕ, ◌<◌, ◌≡◌, refl, sym, ap, ◌∙◌, inl, inr, true, false, not, ◌||◌, some, List, arith, leb, ◌==◌,
  if_elim, option_elim, Bool-cases, length, set, length-set, find_index, find_index-lt,
  find_index-holds, find_index-least, find_index-total, get_or-set, get_or-set_self, get_or-set_ne,
  Status, ok,
}
use mathlib.Core.Path.{subst}
use radpx_os.Base.Int.{ℤ}
use radpx_os.Kernel.{Kernel, SocketRecord, zero_socket, SockAddr, max_udp_sockets}
use radpx_os.Sockets.Streams.{socket_from_fd-lt, socket_from_fd-used}
use radpx_os.Sockets.{
  socket_at, socket_from_fd, find_socket, has_port, is_unused, is_bad, is_listening, is_established,
  sock_stream, join_sockets, rad_socket_connect, connected_client, server_socket, with_peer,
  push_pending, change_socket,
}

-- The ends of a connection: each is established and the peer of the other.
abbrev pub AreJoined : SocketRecord → SocketRecord → ℕ → ℕ → Type 0
AreJoined client other c server =
    (client.peer_index ≡ server)
    × (other.peer_index ≡ c)
    × (is_established client.tcp_state ≡ true)
    × (is_established other.tcp_state ≡ true)
    × (other.used ≡ true)
    × (other.remote_port ≡ client.local_port)

abbrev pub Joined : List SocketRecord → ℕ → ℕ → Type 0
Joined ss c server = AreJoined (socket_at ss c) (socket_at ss server) c server

module _ (ss : List SocketRecord) (c l server : ℕ) (a : SockAddr) (hc : c < length ss)
    (hl : l < length ss) (hs : server < length ss) (nc : ¬ (c ≡ server)) (nl : ¬ (l ≡ server)) where
  step_one : List SocketRecord
  step_one = change_socket c (connected_client c a) ss

  step_two : List SocketRecord
  step_two = set step_one server (server_socket c (socket_at step_one c) (socket_at step_one l))

  step_three : List SocketRecord
  step_three = change_socket c (with_peer server) step_two

  one_c : socket_at step_one c ≡ connected_client c a (socket_at ss c)
  unfolding step_one
  one_c = get_or-set_self ss c (connected_client c a (socket_at ss c)) zero_socket hc

  two_c : socket_at step_two c ≡ connected_client c a (socket_at ss c)
  unfolding step_two
  two_c =
      get_or-set_ne step_one server c
        (server_socket c (socket_at step_one c) (socket_at step_one l)) zero_socket
        (λ e. nc (sym e))
      ∙ one_c

  two_server :
      socket_at step_two server
      ≡ server_socket c (connected_client c a (socket_at ss c)) (socket_at step_one l)
  unfolding step_two step_one
  two_server =
      get_or-set_self step_one server
        (server_socket c (socket_at step_one c) (socket_at step_one l)) zero_socket
        (rw (length-set ss c (connected_client c a (socket_at ss c))) hs)
      ∙ ap (λ x. server_socket c x (socket_at step_one l)) one_c

  length_two : length step_two ≡ length ss
  unfolding step_two step_one
  length_two =
      length-set step_one server (server_socket c (socket_at step_one c) (socket_at step_one l))
      ∙ length-set ss c (connected_client c a (socket_at ss c))

  three_c : socket_at step_three c ≡ with_peer server (connected_client c a (socket_at ss c))
  unfolding step_three
  three_c =
      get_or-set_self step_two c (with_peer server (socket_at step_two c)) zero_socket
        (rw length_two hc)
      ∙ ap (with_peer server) two_c

  three_server :
      socket_at step_three server
      ≡ server_socket c (connected_client c a (socket_at ss c)) (socket_at step_one l)
  unfolding step_three
  three_server =
      get_or-set_ne step_two c server (with_peer server (socket_at step_two c)) zero_socket nc
      ∙ two_server

  -- The last write changes only the listener's queue.
  length_three : length step_three ≡ length ss
  unfolding step_three
  length_three = length-set step_two c (with_peer server (socket_at step_two c)) ∙ length_two

  pub join_sockets-Joined : Joined (join_sockets ss c l server a) c server
  unfolding join_sockets step_one step_two step_three
  join_sockets-Joined =
      let last = push_pending server (socket_at step_three l) in
      let at_server = get_or-set_ne step_three l server last zero_socket nl in
      let other = server_socket c (connected_client c a (socket_at ss c)) (socket_at step_one l) in
      let client = with_peer server (connected_client c a (socket_at ss c)) in
      rw (at_server ∙ three_server)
        (elim (get_or-set step_three l c last zero_socket (rw length_three hl)) [
          | inl (e, f) ↦
              rw
                (f
                  ∙ ap (λ n. push_pending server (socket_at step_three n)) e
                  ∙ ap (push_pending server) three_c)
                (refl, refl, refl, refl, refl, refl)
          | inr (e, f) ↦ rw (f ∙ three_c) (refl, refl, refl, refl, refl, refl)
        ])

  -- No other socket is written.
  untouched :
      (j : ℕ)
      → ¬ (c ≡ j)
      → ¬ (l ≡ j)
      → ¬ (server ≡ j)
      → socket_at (join_sockets ss c l server a) j ≡ socket_at ss j
  unfolding join_sockets step_one step_two step_three
  untouched j jc jl js =
      get_or-set_ne step_three l j (push_pending server (socket_at step_three l)) zero_socket jl
      ∙ get_or-set_ne step_two c j (with_peer server (socket_at step_two c)) zero_socket jc
      ∙ get_or-set_ne step_one server j
          (server_socket c (socket_at step_one c) (socket_at step_one l)) zero_socket js
      ∙ get_or-set_ne ss c j (connected_client c a (socket_at ss c)) zero_socket jc

  at_server :
      socket_at (join_sockets ss c l server a) server
      ≡ server_socket c (connected_client c a (socket_at ss c)) (socket_at step_one l)
  unfolding join_sockets step_one step_two step_three
  at_server =
      get_or-set_ne step_three l server (push_pending server (socket_at step_three l)) zero_socket
        nl
      ∙ three_server

  one_l : ¬ (c ≡ l) → socket_at step_one l ≡ socket_at ss l
  unfolding step_one
  one_l ne = get_or-set_ne ss c l (connected_client c a (socket_at ss c)) zero_socket ne

  length_joined : length (join_sockets ss c l server a) ≡ length ss
  unfolding join_sockets step_one step_two step_three
  length_joined =
      length-set step_three l (push_pending server (socket_at step_three l)) ∙ length_three

  -- The search for the listener's port stops at a socket that does not listen.
  shadowed :
      (port : ℕ)
      → ¬ (c ≡ l)
      → server < l
      → find_index (has_port sock_stream port) ss ≡ some l
      → (j : ℕ) × (find_index (has_port sock_stream port) (join_sockets ss c l server a) ≡ some j)
        × (is_listening (socket_at (join_sockets ss c l server a) j).tcp_state ≡ false)
  shadowed port ne below found =
      let p = has_port sock_stream port in
      let after = join_sockets ss c l server a in
      let listens = find_index-holds p zero_socket ss l found in
      let passes : p (socket_at after server) ≡ true =
        rw (at_server, one_l ne) (ground (arith, listens)) in
      let (j, e, le) = find_index-total p zero_socket after server (rw length_joined hs) passes in
      let held = find_index-holds p zero_socket after j e in
      let (cp, sp, ce, se, su, rest) = join_sockets-Joined in
      (
        j,
        e,
        elim (Bool-cases (j == c)) [
          | inl q ↦ rw (eq_of j c q) (ground (arith, ce))
          | inr q ↦ elim (Bool-cases (j == server)) [
            | inl r ↦ rw (eq_of j server r) (ground (arith, se))
            | inr r ↦ absurd (
                ground (
                  arith,
                  held,
                  untouched j (ne_of j c q) (omega arith) (ne_of j server r),
                  find_index-least p zero_socket ss l j found (omega arith),
                ))
          ]
        ],
      )
    where
      eq_of : (x y : ℕ) → (x == y) ≡ true → x ≡ y
      eq_of x y h = ground arith

      ne_of : (x y : ℕ) → (x == y) ≡ false → ¬ (y ≡ x)
      ne_of x y h e = ground arith

find_socket-index :
    (ss : List SocketRecord) (kind port l : ℕ)
    → find_socket ss kind port ≡ some l
    → find_index (has_port kind port) ss ≡ some l
unfolding find_socket
find_socket-index ss kind port l = elim (Bool-cases (port == 0)) [
  | inl h ↦ rw h (λ e. cc)
  | inr h ↦ rw h (λ e. e)
]

-- What a call of `rad_socket_connect` may come to.
abbrev pub ConnectFits : Kernel → ℤ → SockAddr → Status × Kernel → Type 0
ConnectFits k fd a (ok, k') =
    (c : ℕ) × (l : ℕ) × (server : ℕ) × (socket_from_fd k fd ≡ some c)
    × (is_listening (socket_at k.sockets l).tcp_state ≡ true)
    × (find_socket k.sockets sock_stream a.port ≡ some l)
    × (find_index is_unused k.sockets ≡ some server)
    × (k' ≡ record k { sockets = join_sockets k.sockets c l server a })
    × Joined k'.sockets c server
ConnectFits k fd a (_, k') = k' ≡ k

unlike :
    (k : Kernel) (i j : ℕ)
    → i ≡ j
    → (socket_at k.sockets i).used ≡ true
    → is_unused (socket_at k.sockets j) ≡ true
    → ⊥
unlike k i j x = rw x (λ u v. ground arith)

joins :
    (k : Kernel) (fd : ℤ) (a : SockAddr) (c l server : ℕ)
    → socket_from_fd k fd ≡ some c
    → find_socket k.sockets sock_stream a.port ≡ some l
    → is_listening (socket_at k.sockets l).tcp_state ≡ true
    → find_index is_unused k.sockets ≡ some server
    → ConnectFits k fd a (ok, record k { sockets = join_sockets k.sockets c l server a })
joins k fd a c l server e f q g =
    let port = find_socket-index k.sockets sock_stream a.port l f in
    let listener = find_index-holds (has_port sock_stream a.port) zero_socket k.sockets l port in
    let free = find_index-holds is_unused zero_socket k.sockets server g in
    (
      c,
      l,
      server,
      e,
      q,
      f,
      g,
      refl,
      join_sockets-Joined k.sockets c l server a (socket_from_fd-lt k fd c e)
          (find_index-lt (has_port sock_stream a.port) k.sockets l port)
          (find_index-lt is_unused k.sockets server g)
          (λ x. unlike k c server x (socket_from_fd-used k fd c e) free)
          (λ x. unlike k l server x (ground (arith, listener)) free),
    )

-- `rad_socket_connect` succeeds only with a listener at the port, the first socket that has it, and then
-- the caller's socket and the first free one are established as each other's peers; when it fails,
-- nothing changes.
pub rad_socket_connect-ConnectFits :
    (k : Kernel) (fd : ℤ) (a : SockAddr) → ConnectFits k fd a (rad_socket_connect k fd a)
unfolding rad_socket_connect
rad_socket_connect-ConnectFits k fd a =
    let P = ConnectFits k fd a in
    if_elim P (is_bad a) (λ h. refl)
      (λ h.
        option_elim P (socket_from_fd k fd) (λ e. refl)
          (λ c e.
            if_elim P (not ((socket_at k.sockets c).kind == sock_stream)) (λ s. refl)
              (λ s.
                option_elim P (find_socket k.sockets sock_stream a.port) (λ f. refl)
                  (λ l f.
                    if_elim P
                      (not (is_listening (socket_at k.sockets l).tcp_state)
                        || leb max_udp_sockets (socket_at k.sockets l).pending_count)
                      (λ q. refl)
                      (λ q.
                        option_elim P (find_index is_unused k.sockets) (λ g. refl)
                          (λ server g. joins k fd a c l server e f (ground arith) g))))))

-- Success needs a listener.
ok_listens :
    (k : Kernel) (fd : ℤ) (a : SockAddr)
    → (rad_socket_connect k fd a).0 ≡ ok
    → (l : ℕ) × (find_index (has_port sock_stream a.port) k.sockets ≡ some l)
      × (is_listening (socket_at k.sockets l).tcp_state ≡ true)
ok_listens k fd a h =
    let (c, l, server, e, q, f, g, writes, joined) =
      subst (λ x. ConnectFits k fd a (x, (rad_socket_connect k fd a).1)) h
        (rad_socket_connect-ConnectFits k fd a) in
    (l, find_socket-index k.sockets sock_stream a.port l f, q)

-- A connection by a socket other than the listener, for which the first free slot lies before the
-- listener's, shuts the port: no later connection to it succeeds from any descriptor, though the
-- listener is still there.
pub connect_shadows_listener :
    (k k' : Kernel) (fd fd2 : ℤ) (a a2 : SockAddr) (c l server : ℕ)
    → socket_from_fd k fd ≡ some c
    → find_socket k.sockets sock_stream a.port ≡ some l
    → find_index is_unused k.sockets ≡ some server
    → server < l
    → ¬ (c ≡ l)
    → rad_socket_connect k fd a ≡ (ok, k')
    → a2.port ≡ a.port
    → ¬ ((rad_socket_connect k' fd2 a2).0 ≡ ok)
connect_shadows_listener k k' fd fd2 a a2 c l server e f g below ne done same = λ h.
    blocked (subst (ConnectFits k fd a) done (rad_socket_connect-ConnectFits k fd a))
      (ok_listens k' fd2 a2 h)
  where
    blocked :
        ConnectFits k fd a (ok, k')
        → (j : ℕ) × (find_index (has_port sock_stream a2.port) k'.sockets ≡ some j)
          × (is_listening (socket_at k'.sockets j).tcp_state ≡ true)
        → ⊥
    blocked (c', l', s', e', q, f', g', writes, joined) (j, at_j, listens) =
        let sc : c' ≡ c = cc in
        let sl : l' ≡ l = cc in
        let ss : s' ≡ server = cc in
        let port = find_socket-index k.sockets sock_stream a.port l f in
        let listener =
          find_index-holds (has_port sock_stream a.port) zero_socket k.sockets l port in
        let free = find_index-holds is_unused zero_socket k.sockets server g in
        let (i, at_i, silent) =
          shadowed k.sockets c l server a (socket_from_fd-lt k fd c e)
            (find_index-lt (has_port sock_stream a.port) k.sockets l port)
            (find_index-lt is_unused k.sockets server g)
            (λ x. unlike k c server x (socket_from_fd-used k fd c e) free)
            (λ x. unlike k l server x (ground (arith, listener)) free) a.port ne below port in
        let sockets : k'.sockets ≡ join_sockets k.sockets c l server a =
          rw (writes, sc, sl, ss) refl in
        let at_j' : find_index (has_port sock_stream a.port) (join_sockets k.sockets c l server a)
            ≡ some j =
          rw (sym sockets, sym same) at_j in
        let slot : i ≡ j = cc in
        let talks : is_listening (socket_at (join_sockets k.sockets c l server a) i).tcp_state
            ≡ true =
          rw (sym sockets, slot) listens in
        cc
