-- ===== src/Lib.antt =====
-- RADPx-OS: the kernel runtime of RADKernel/core/RADKernel_runtime.cpp, with the types and constants of
-- RADKernel/headers/radkernel/radkernel.h.
--
-- The runtime is one file of static tables, `g_state`, and functions on them that the system calls end
-- in. The parts modelled here, and how they hang together:
--   * Pipe: `PipeRecord` with `pipe_read` and `pipe_write`, a ring of 512 bytes. Pipe.Fifo relates it to
--     a byte queue, Pipe.Stream follows sequences of calls.
--   * Kernel: the part of `KernelState` that the next parts share, with the constants of its tables and
--     `current_process_pid`.
--   * Descriptors: the descriptor table (find_fd_slot, fd_owner_index, lookup_fd_record,
--     close_fd_record, close_fd_index, install_fd_record). A record that shares an open object names the
--     slot of its owner, and the owner counts the sharers. Descriptors.Calls has the calls on top:
--     rad_fd_close, rad_fd_dup, rad_fd_dup2, rad_fd_fcntl, close_process_fds, rad_process_clone_fds,
--     rad_pipe_create, pipe_read, pipe_write. Descriptors.References is about the counts.
--   * Process: rad_process_create, rad_process_exit, rad_process_waitpid; Process.Groups: process groups
--     and sessions; Process.Signals: rad_process_kill; Process.Identity: credentials and mode_allows.
--     A process that is reaped has its descriptors closed by Descriptors.Calls.
--   * Tty: terminals, their bounded buffers and the line discipline (tty_push_input_record); Tty.Cooking
--     has a description of a line editor without bounds, Tty.Reading the reader behind it.
--   * Sockets: stream sockets that are connected inside the kernel, found through the descriptor table.
--     Sockets.Datagrams: datagram sockets, with the frames that they send and poll for as arguments.
--   * Shm: shared memory objects, found through the descriptor table as well.
--   * Irq, Log, Input: the interrupt table, the kernel log and the input event queues.
--   * Work: the work queue and the wait queues. Timers: timer sources and performance counters.
--   * Arp: the cache of hardware addresses. Frames: the frames that arrive, which fill the cache, are
--     answered and give datagrams to the sockets.
--   * Paths: normalize_path, is_child_name and parent_path. Paths.Pieces has a walk along the pieces of
--     a path that they are compared with, Paths.Rendering the canonical form.
--   * Files: the files in memory, mount points and providers (find_file_or_dir, ensure_directory,
--     provider_for_path). Files.Handles has open files (rad_vfs_open, read, write, seek, tell, fsync),
--     Files.Names directories (stat, list, mkdir, remove, rmdir, chdir, getcwd), Files.Edits the other
--     calls by name (rename, link, truncate, readlink, symlink, chmod), Files.Mounts the mounts,
--     Files.Listing rad_vfs_opendir and rad_vfs_readdir. Names come from Paths, permissions from
--     Process.Identity. Files.Touches and Files.Effects say in which few ways any call changes the table.
--   * Elf: the loaders of 32-bit and 64-bit programs, on the bytes of a file; a program header that is
--     read outside the file, or a copy outside its buffer, is a fault. Format: numbers as text.
--   * Tasks: the task table and the scheduler (task_matches_core, run_one_task_on_core); Tasks.Calls:
--     rad_task_yield, rad_task_sleep_us, rad_task_create_config and others. Tasks.Cores has cores side by side, as steps between
--     locks and switches of contexts; Tasks.Stepping, Tasks.Interfering and Tasks.Apart follow them.
--   * Base: what the others share: lists by native numbers, scans of a table, text, results, integers and
--     rings. Tests: the theorems at concrete states.
--
-- Operations keep their names. One that changes the state takes the kernel (or the part it works on)
-- and returns its result and the kernel after it; a status or a number becomes `Status` or `Result`.
-- Tables are lists, scanned from index 0 as the code does, and of any length: the code's is the
-- constant. A pointer to a record is its index, a null pointer `none`, and a null string an empty one
-- where both are refused. `memset` of a record is its `zero_` constant. A buffer with a fill count is the
-- list of the bytes it holds, except in pipes and in input queues, where the ring is kept as it is.
-- Identifiers of processes that are stored are not negative and are numbers; those that are passed in
-- are integers. Counters of 64 bits wrap where the code's do; other counts are bounded by their tables,
-- but for `next_pid`, an `int32_t` that is a number here: theorems about it ask that the identifiers
-- tried stay up to INT32_MAX, above which the code's increment is undefined.
-- Calls of parts that are not modelled (closing a file, ending a task, the hook on a reaped process) are
-- recorded in `calls`; bytes given to a terminal's output callback, and frames given to the network
-- device, in `sent`; handlers called in `handled`.
--
-- Loops over a table are scans by structural recursion. The loop that passes over identifiers in use
-- has one round more than there are records, which is enough since each round that goes on uses up a
-- record. The loop over candidate numbers of descriptors has the 29 rounds that the code's bounds give.
-- The loop that folds the carries of a checksum has two rounds, which are enough for a sum of 32 bits.
-- The scan for a task has as many rounds as there are slots, the one over the pieces of a path as many
-- as it has bytes, of which each takes one, and the digits of a number have the 24 of their buffer.
-- The waiting loops of rad_process_waitpid, rad_input_queue_read and rad_wait_queue_wait take what the
-- rest of the system does between two rounds as a list, an entry for each round.
--
-- What a provider of files answers, what the handler of a work item does, whether memory can be had, and
-- the board's answer to a mount are
-- arguments.
--
-- Not modelled: locks (each operation is one step, and a task's switch ends one), the performance
-- counters that calls keep of themselves, the descriptors of files (rad_fd_open, read, write, fstat,
-- poll), stacks and contexts of tasks and so what follows once a task that runs has started another by a
-- call of run_one_task_on_core of its own, the table of programs and what starts them, the frames of
-- datagrams that are sent, devices and services; the file systems (RADKernel/fs), the simulator
-- (RADKernel/core/RADKernel.cpp), hardware (boards, platforms, hal, boot, drivers), and the user space
-- (services, libs, userland), which calls this interface.
pub mod Base
pub mod Pipe
pub mod Kernel
pub mod Descriptors
pub mod Process
pub mod Tty
pub mod Sockets
pub mod Tests
pub mod Shm
pub mod Irq
pub mod Log
pub mod Input
pub mod Work
pub mod Timers
pub mod Arp
pub mod Frames
pub mod Paths
pub mod Elf
pub mod Format
pub mod Tasks
pub mod Files
