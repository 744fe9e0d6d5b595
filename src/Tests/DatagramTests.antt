-- ===== src/Tests/DatagramTests.antt =====
-- Datagrams of RADKernel/core/RADKernel_runtime.cpp at concrete sockets.
use radpx_os.Base.{ℕ, ◌≡◌, refl, true, some, List, [], ◌∷◌, arith, take, find_index, ok, value}
use radpx_os.Base.Int.{pos}
use radpx_os.Kernel.{Kernel, fd_socket, zero_fd, zero_socket, UdpDatagram, zero_datagram}
use radpx_os.Sockets.{socket_from_fd}
use radpx_os.Sockets.Datagrams.{
  find_udp_socket, datagram_of, dispatch_udp_datagram, rad_socket_recvfrom,
}
use radpx_os.Sockets.Datagrams.Delivery.{sender, dispatch_then_recvfrom}
use radpx_os.Sockets.Datagrams.Arriving.{dispatch_udp_datagram-KeepsWaiting}
use radpx_os.Tests.Fixtures.{kernel_of}

-- Descriptor 3 of process 1 for a datagram socket at port 53 that holds `waiting`.
abbrev resolver : List UdpDatagram → Kernel
resolver waiting =
    record (kernel_of 1
      (record zero_fd {
        kind = fd_socket;
        refs = 1;
        owner_fd = pos 0;
        owner_pid = pos 1;
        local_fd = pos 3;
        used = true;
      }
        ∷ [])
      []) {
        sockets =
            record zero_socket {
              used = true;
              domain = 2;
              kind = 2;
              local_port = 53;
              datagrams = waiting;
            }
            ∷ [];
      }

abbrev idle : List UdpDatagram
idle = zero_datagram ∷ zero_datagram ∷ []

-- The first of two datagrams has been received.
abbrev second_waits : List UdpDatagram
second_waits = zero_datagram ∷ datagram_of (sender 9 1000) (5 ∷ []) ∷ []

abbrev question : List ℕ
question = 1 ∷ 2 ∷ 3 ∷ []

target : (waiting : List UdpDatagram) → find_udp_socket (resolver waiting).sockets 53 ≡ some 0
unfolding find_udp_socket find_index
target waiting = refl

opened : (waiting : List UdpDatagram) → socket_from_fd (resolver waiting) (pos 3) ≡ some 0
unfolding socket_from_fd radpx_os.Descriptors.lookup_fd_record
opened waiting = refl

-- Another datagram arrives in the poll.
abbrev arrives : Kernel → Kernel
arrives k = (dispatch_udp_datagram k 9 1000 53 (5 ∷ [])).1

dispatch_then_recvfrom_example :
    let (status, k') = dispatch_udp_datagram (resolver idle) 7 2000 53 question in
    (status ≡ ok)
    × ((rad_socket_recvfrom arrives k' (pos 3) true 2).0
        ≡ value (take 2 question, some (sender 7 2000)))
unfolding find_index
dispatch_then_recvfrom_example =
    dispatch_then_recvfrom (resolver idle) 7 2000 53 0 0 2 question (pos 3) arrives (target idle)
      (omega arith) refl (opened idle) refl
      (dispatch_udp_datagram-KeepsWaiting 9 1000 53 (5 ∷ [])
        (dispatch_udp_datagram (resolver idle) 7 2000 53 question).1 0)
