-- ===== src/Kernel.antt =====
-- The part of `KernelState` of RADKernel/core/RADKernel_runtime.cpp that descriptors, pipes, sockets,
-- shared memory and processes share. A handle (a pointer to an open file, directory or device, or to
-- a task) is a number. The calls that leave the modelled code are recorded in `calls`.
use radpx_os.Base.{ℕ, Bool, false, Option, none, List, [], replicate, CString}
use radpx_os.Base.Int.{ℤ, pos, negsuc}
use radpx_os.Pipe.{PipeRecord}

-- RAD_KERNEL_MAX_POSIX_FDS, RAD_KERNEL_MAX_PIPES, RAD_KERNEL_MAX_UDP_SOCKETS,
-- RAD_KERNEL_MAX_UDP_DATAGRAMS, RAD_KERNEL_UDP_PAYLOAD_BYTES, RAD_SHM_NAME_MAX
abbrev pub max_posix_fds : ℕ
max_posix_fds = 32

abbrev pub max_pipes : ℕ
max_pipes = 8

abbrev pub max_udp_sockets : ℕ
max_udp_sockets = 8

abbrev pub max_udp_datagrams : ℕ
max_udp_datagrams = 8

abbrev pub max_shm_objects : ℕ
max_shm_objects = 8

pub data FdKind : Type 0 where
  fd_empty fd_file fd_device fd_pipe fd_shm fd_socket fd_dir : FdKind

pub record FdRecord : Type 0 where
  pub kind : FdKind
  pub file : Option ℕ
  pub dir : Option ℕ
  pub device : Option ℕ
  pub path : CString
  pub pipe_index : ℕ
  pub shm_index : ℕ
  pub socket_index : ℕ
  pub pipe_write_end : Bool
  pub flags : ℕ
  pub descriptor_flags : ℕ
  pub refs : ℕ
  pub owner_fd : ℤ
  pub owner_pid : ℤ
  pub local_fd : ℤ
  pub used : Bool

-- `memset(&fd, 0, sizeof(fd))`
abbrev pub zero_fd : FdRecord
zero_fd = record {
  kind = fd_empty;
  file = none;
  dir = none;
  device = none;
  path = [];
  pipe_index = 0;
  shm_index = 0;
  socket_index = 0;
  pipe_write_end = false;
  flags = 0;
  descriptor_flags = 0;
  refs = 0;
  owner_fd = pos 0;
  owner_pid = pos 0;
  local_fd = pos 0;
  used = false;
}

pub data TcpState : Type 0 where
  tcp_closed tcp_listen tcp_syn_sent tcp_syn_received tcp_established tcp_fin_wait : TcpState
  tcp_close_wait tcp_last_ack tcp_time_wait : TcpState

-- An IPv4 address as its 32-bit value, first byte highest.
abbrev pub Ipv4 : Type 0
Ipv4 = ℕ

pub record SockAddr : Type 0 where
  pub family : ℕ
  pub port : ℕ
  pub address : Ipv4

pub record UdpDatagram : Type 0 where
  pub from : SockAddr
  pub payload : List ℕ
  pub used : Bool

pub record SocketRecord : Type 0 where
  pub used : Bool
  pub domain : ℕ
  pub kind : ℕ
  pub protocol : ℕ
  pub tcp_state : TcpState
  pub local_port : ℕ
  pub remote_port : ℕ
  pub local_address : Ipv4
  pub remote_address : Ipv4
  pub datagrams : List UdpDatagram
  pub stream_rx : List ℕ
  pub pending_accepts : List ℕ
  pub pending_count : ℕ
  pub peer_index : ℕ
  pub shutdown_read : Bool
  pub shutdown_write : Bool

abbrev pub zero_address : SockAddr
zero_address = record { family = 0; port = 0; address = 0 }

abbrev pub zero_datagram : UdpDatagram
zero_datagram = record { from = zero_address; payload = []; used = false }

-- `memset(&socket, 0, sizeof(socket))`. `stream_rx` is the used part of the buffer, its length
-- `stream_rx_size`; a datagram's payload is the list of its bytes, its length `size`.
abbrev pub zero_socket : SocketRecord
zero_socket = record {
  used = false;
  domain = 0;
  kind = 0;
  protocol = 0;
  tcp_state = tcp_closed;
  local_port = 0;
  remote_port = 0;
  local_address = 0;
  remote_address = 0;
  datagrams = replicate max_udp_datagrams zero_datagram;
  stream_rx = [];
  pending_accepts = replicate max_udp_sockets 0;
  pending_count = 0;
  peer_index = 0;
  shutdown_read = false;
  shutdown_write = false;
}

pub record ShmRecord : Type 0 where
  pub name : CString
  pub byte_size : ℕ
  pub page_count : ℕ
  pub pages : List ℕ
  pub linked : Bool
  pub used : Bool

pub record Credentials : Type 0 where
  pub uid : ℕ
  pub euid : ℕ
  pub gid : ℕ
  pub egid : ℕ

abbrev pub root : Credentials
root = record { uid = 0; euid = 0; gid = 0; egid = 0 }

pub data ProcessState : Type 0 where
  unset running waiting zombie : ProcessState

pub record ProcessRecord : Type 0 where
  pub pid : ℕ
  pub parent_pid : ℕ
  pub process_group_id : ℕ
  pub session_id : ℕ
  pub state : ProcessState
  pub exit_code : ℕ
  pub credentials : Credentials
  pub path : CString
  pub task : Option ℕ
  pub used : Bool

abbrev pub zero_process : ProcessRecord
zero_process = record {
  pid = 0;
  parent_pid = 0;
  process_group_id = 0;
  session_id = 0;
  state = unset;
  exit_code = 0;
  credentials = root;
  path = [];
  task = none;
  used = false;
}

-- The calls of other components that these operations make, oldest first.
pub data Call : Type 0 where
  close_file close_dir close_device : ℕ → Call
  process_reaped : ℕ → ℕ → Call
  finish_task : ℕ → Call
  attach_task : ℕ → ℕ → Call

pub record Kernel : Type 0 where
  pub fds : List FdRecord
  pub pipes : List PipeRecord
  pub sockets : List SocketRecord
  pub shm_objects : List ShmRecord
  pub processes : List ProcessRecord
  pub core_pid : ℤ
  pub current_pid : ℤ
  pub next_pid : ℕ
  pub has_reaped_hook : Bool
  pub calls : List Call

-- `current_process_pid()`: `core_pid` is `g_current_pid` at the core that runs, and a negative one
-- gives way to `current_pid`, and that to 0.
abbrev or_else : ℤ → ℕ → ℕ
or_else (pos n) other = n
or_else (negsuc n) other = other

unfoldable pub current_process_pid : Kernel → ℕ
current_process_pid k = or_else k.core_pid (or_else k.current_pid 0)
