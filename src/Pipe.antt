-- ===== src/Pipe.antt =====
-- The byte pipes of RADKernel/core/RADKernel_runtime.cpp: `PipeRecord`, and what `pipe_read` and
-- `pipe_write` do to the record once the descriptor has been checked (the checks are in
-- Descriptors/PipeCalls). A reference count is never below zero in the code, so it is a number.
pub mod Fifo
pub mod Stream
use radpx_os.Base.{
  ℕ, ◌+◌, ◌-◌, ◌%◌, Bool, false, not, ◌||◌, List, [], ◌++◌, length, take, drop, replicate, ltb,
  ◌==◌, if◌then◌else◌, Result, value, fail, invalid_argument, not_found,
}
use radpx_os.Base.Ring.{copy_in, copy_out}

-- RAD_KERNEL_PIPE_BUFFER_BYTES
abbrev pub pipe_buffer_bytes : ℕ
pipe_buffer_bytes = 512

pub record PipeRecord : Type 0 where
  pub buffer : List ℕ
  pub read_pos : ℕ
  pub size : ℕ
  pub read_refs : ℕ
  pub write_refs : ℕ
  pub used : Bool

-- `memset(&pipe, 0, sizeof(pipe))`
pub zero_pipe : PipeRecord
zero_pipe = record {
  buffer = replicate pipe_buffer_bytes 0;
  read_pos = 0;
  size = 0;
  read_refs = 0;
  write_refs = 0;
  used = false;
}

-- How far a copy from `pos` goes before it comes round to the start of the buffer.
abbrev pub first_part : ℕ → ℕ → ℕ
first_part pos count =
    if ltb count (pipe_buffer_bytes - pos) then count else pipe_buffer_bytes - pos

abbrev pub read_count : PipeRecord → ℕ → ℕ
read_count p n = if ltb p.size n then p.size else n

abbrev pub read_bytes : PipeRecord → ℕ → List ℕ
read_bytes p count =
    let first = first_part p.read_pos count in
    if ltb first count
    then copy_out p.buffer p.read_pos first ++ copy_out p.buffer 0 (count - first)
    else copy_out p.buffer p.read_pos first

-- The count returned, the bytes copied into the caller's buffer, and the pipe. `there` says that
-- the caller's buffer is not null.
unfoldable pub read : PipeRecord → Bool → ℕ → Result (ℕ × List ℕ × PipeRecord)
read p there n =
    let count = read_count p n in
    if not p.used || not there
    then fail invalid_argument
    else if count == 0
    then value (0, [], p)
    else value (
      count,
      read_bytes p count,
      record p { read_pos = (p.read_pos + count) % pipe_buffer_bytes; size = p.size - count },
    )

abbrev pub write_count : PipeRecord → ℕ → ℕ
write_count p n =
    let capacity = pipe_buffer_bytes - p.size in if ltb capacity n then capacity else n

abbrev pub written : PipeRecord → ℕ → List ℕ → List ℕ
written p count src =
    let write_pos = (p.read_pos + p.size) % pipe_buffer_bytes in
    let first = first_part write_pos count in
    let head = copy_in p.buffer write_pos (take first src) in
    if ltb first count then copy_in head 0 (take (count - first) (drop first src)) else head

-- The count returned and the pipe. The bytes are `src`, `length src` of them; `there` says that the
-- caller's buffer is not null.
unfoldable pub write : PipeRecord → Bool → List ℕ → Result (ℕ × PipeRecord)
write p there src =
    let n = length src in
    let count = write_count p n in
    if not p.used || (if there then false else not (n == 0))
    then fail invalid_argument
    else if p.read_refs == 0
    then fail not_found
    else if count == 0
    then value (0, p)
    else value (count, record p { buffer = written p count src; size = p.size + count })
