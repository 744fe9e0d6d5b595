-- ===== src/Tests/SocketTests.antt =====
-- Sockets and shared memory of RADKernel/core/RADKernel_runtime.cpp at concrete tables.
use radpx_os.Base.{
  ℕ, ◌-◌, min, ◌≡◌, refl, true, some, List, [], ◌∷◌, ◌++◌, arith, length, take, find_index, codes,
  text_eq, ok, value,
}
use radpx_os.Base.Int.{pos}
use radpx_os.Kernel.{
  Kernel, FdRecord, FdKind, fd_socket, fd_shm, zero_fd, SocketRecord, zero_socket, SockAddr,
  tcp_listen, tcp_established,
}
use radpx_os.Pipe.{pipe_buffer_bytes}
use radpx_os.Sockets.{
  socket_at, socket_from_fd, find_socket, is_unused, sock_stream, rad_socket_connect,
  rad_socket_send,
}
use radpx_os.Sockets.Streams.{RecvGives, send_then_recv}
use radpx_os.Sockets.Connecting.{ConnectFits, rad_socket_connect-ConnectFits}
use radpx_os.Shm.{zero_shm, shm_of_fd, find_shm_by_name, rad_shm_set_page, rad_shm_get_page}
use radpx_os.Shm.Pages.{set_page_then_get}
use radpx_os.Tests.Fixtures.{kernel_of}

-- Descriptor `number` of process 1, in slot `slot`, for an object of kind `kind` at index `index`.
abbrev object_fd : FdKind → ℕ → ℕ → ℕ → FdRecord
object_fd kind slot number index = record zero_fd {
  kind = kind;
  shm_index = index;
  socket_index = index;
  refs = 1;
  owner_fd = pos slot;
  owner_pid = pos 1;
  local_fd = pos number;
  used = true;
}

abbrev stream : SocketRecord
stream = record zero_socket { used = true; domain = 2; kind = 1; protocol = 6; peer_index = 8 }

-- A listener at port 80 in slot 1, a client in slot 2, and free slots before and behind them.
abbrev network : Kernel
network =
    record (kernel_of 1 (object_fd fd_socket 0 3 1 ∷ object_fd fd_socket 1 4 2 ∷ zero_fd ∷ []) []) {
      sockets =
          zero_socket
          ∷ record stream { tcp_state = tcp_listen; local_port = 80 }
          ∷ stream
          ∷ zero_socket
          ∷ [];
    }

abbrev web : SockAddr
web = record { family = 2; port = 80; address = 1 }

rad_socket_connect-ConnectFits_example :
    ConnectFits network (pos 4) web (rad_socket_connect network (pos 4) web)
rad_socket_connect-ConnectFits_example = rad_socket_connect-ConnectFits network (pos 4) web

connects : rad_socket_connect network (pos 4) web ≡ (ok, (rad_socket_connect network (pos 4) web).1)
unfolding rad_socket_connect radpx_os.Descriptors.lookup_fd_record find_index
connects = refl

client : socket_from_fd network (pos 4) ≡ some 2
unfolding socket_from_fd radpx_os.Descriptors.lookup_fd_record
client = refl

listener : find_socket network.sockets sock_stream 80 ≡ some 1
unfolding find_socket find_index
listener = refl

free_slot : find_index is_unused network.sockets ≡ some 0
unfolding find_index
free_slot = refl

-- Two sockets that are each other's peers, with one byte on the way.
abbrev joined : Kernel
joined =
    record (kernel_of 1 (object_fd fd_socket 0 3 0 ∷ object_fd fd_socket 1 4 1 ∷ zero_fd ∷ []) []) {
      sockets =
          record stream { tcp_state = tcp_established; peer_index = 1 }
          ∷ record stream { tcp_state = tcp_established; peer_index = 0; stream_rx = 9 ∷ [] }
          ∷ [];
    }

abbrev greeting : List ℕ
greeting = 1 ∷ 2 ∷ 3 ∷ []

sends :
    rad_socket_send joined (pos 3) true greeting
    ≡ (value 3, (rad_socket_send joined (pos 3) true greeting).1)
unfolding rad_socket_send radpx_os.Descriptors.lookup_fd_record
sends = refl

sender : socket_from_fd joined (pos 3) ≡ some 0
unfolding socket_from_fd radpx_os.Descriptors.lookup_fd_record
sender = refl

receiver : socket_from_fd joined (pos 4) ≡ some 1
unfolding socket_from_fd radpx_os.Descriptors.lookup_fd_record
receiver = refl

send_then_recv_example :
    (3 ≡ min (length greeting) (pipe_buffer_bytes - length (socket_at joined.sockets 1).stream_rx))
    × RecvGives
        (rad_socket_send joined (pos 3) true greeting).1
        (pos 4)
        2
        1
        ((socket_at joined.sockets 1).stream_rx ++ take 3 greeting)
send_then_recv_example =
    send_then_recv joined (rad_socket_send joined (pos 3) true greeting).1 (pos 3) (pos 4) 0 3 2
      greeting sends sender receiver refl

-- A shared memory object of two pages, open at two descriptors.
abbrev memory : Kernel
memory = record (kernel_of 1 (object_fd fd_shm 0 3 0 ∷ object_fd fd_shm 1 4 0 ∷ zero_fd ∷ []) []) {
  shm_objects =
      record zero_shm {
        used = true;
        linked = true;
        name = codes "buf";
        byte_size = 5000;
        page_count = 2;
      }
      ∷ [];
}

sets : rad_shm_set_page memory (pos 3) 1 77 ≡ (ok, (rad_shm_set_page memory (pos 3) 1 77).1)
unfolding rad_shm_set_page radpx_os.Descriptors.lookup_fd_record
sets = refl

first_open : shm_of_fd memory (pos 3) ≡ some 0
unfolding shm_of_fd radpx_os.Descriptors.lookup_fd_record
first_open = refl

second_open : shm_of_fd memory (pos 4) ≡ some 0
unfolding shm_of_fd radpx_os.Descriptors.lookup_fd_record
second_open = refl

named : find_shm_by_name memory (codes "buf") ≡ some 0
unfolding find_shm_by_name find_index text_eq
named = refl

set_page_then_get_example :
    rad_shm_get_page (rad_shm_set_page memory (pos 3) 1 77).1 (pos 4) 1 ≡ value 77
set_page_then_get_example =
    set_page_then_get memory (rad_shm_set_page memory (pos 3) 1 77).1 (pos 3) (pos 4) 0 1 77
      first_open second_open refl (omega arith) sets
