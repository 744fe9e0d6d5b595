-- ===== src/Tests/PipeTests.antt =====
-- Pipes of RADKernel/core/RADKernel_runtime.cpp at concrete bytes.
use radpx_os.Base.{◌≡◌, refl, true, false, List, [], ◌∷◌, ◌++◌, arith, replicate, value}
use radpx_os.Pipe.{PipeRecord, read, write}
use radpx_os.Pipe.Fifo.{IsValid, contents}
use radpx_os.Pipe.Stream.{Call, reads, writes, run, run_conserves}

-- An open pipe whose two bytes lie round the end of the buffer.
abbrev open_pipe : PipeRecord
open_pipe = record {
  buffer = 5 ∷ replicate 510 0 ++ (4 ∷ []);
  read_pos = 511;
  size = 2;
  read_refs = 1;
  write_refs = 1;
  used = true;
}

open_pipe-IsValid : IsValid open_pipe
open_pipe-IsValid = record { whole = refl; inside = omega arith; fits = omega arith }

abbrev after_write : PipeRecord
after_write = record open_pipe { buffer = 5 ∷ 6 ∷ 7 ∷ (replicate 508 0 ++ (4 ∷ [])); size = 4 }

written : write open_pipe true (6 ∷ 7 ∷ []) ≡ value (2, after_write)
unfolding write
written = refl

abbrev after_read : PipeRecord
after_read = record open_pipe { read_pos = 1; size = 0 }

taken : read open_pipe true 3 ≡ value (2, 4 ∷ 5 ∷ [], after_read)
unfolding read
taken = refl

abbrev session : List Call
session = writes true (6 ∷ 7 ∷ []) ∷ reads true 3 ∷ reads false 1 ∷ []

run_conserves_example :
    ((run open_pipe session).0 ++ contents (run open_pipe session).2
      ≡ contents open_pipe ++ (run open_pipe session).1)
    × IsValid (run open_pipe session).2
run_conserves_example = run_conserves session open_pipe open_pipe-IsValid
