-- ===== src/Pipe/Stream.antt =====
-- Any sequence of reads and writes on one pipe of RADKernel/core/RADKernel_runtime.cpp.
use radpx_os.Base.{
  ℕ, ◌≡◌, refl, sym, ap, ◌∙◌, Bool, List, [], ◌∷◌, ◌++◌, append-nil, append_assoc, arith, take,
  count, Result, value, fail,
}
use radpx_os.Pipe.{PipeRecord, read, write}
use radpx_os.Pipe.Fifo.{IsValid, contents, read_refines, write_refines}

-- A call on the pipe, with the arguments of `pipe_read` and of `pipe_write`.
pub data Call : Type 0 where
  reads : Bool → ℕ → Call
  writes : Bool → List ℕ → Call

-- The bytes that the readers were given, those that were taken from the writers, and the pipe.
abbrev pub Trace : Type 0
Trace = List ℕ × List ℕ × PipeRecord

-- A call that is refused leaves the pipe as it was.
abbrev after_read : PipeRecord → Result (ℕ × List ℕ × PipeRecord) → Trace
after_read p (value (count, bytes, q)) = (bytes, [], q)
after_read p (fail s) = ([], [], p)

abbrev after_write : PipeRecord → List ℕ → Result (ℕ × PipeRecord) → Trace
after_write p src (value (count, q)) = ([], take count src, q)
after_write p src (fail s) = ([], [], p)

pub step : PipeRecord → Call → Trace
step p (reads there n) = after_read p (read p there n)
step p (writes there src) = after_write p src (write p there src)

pub run : PipeRecord → List Call → Trace
run p [] = ([], [], p)
run p (c ∷ cs) =
    let (got, put, q) = step p c in let (got', put', r) = run q cs in (got ++ got', put ++ put', r)

abbrev Balanced : PipeRecord → Trace → Type 0
Balanced p (got, put, q) = (got ++ contents q ≡ contents p ++ put) × IsValid q

read-Balanced :
    (p : PipeRecord) (there : Bool) (n : ℕ) (r : Result (ℕ × List ℕ × PipeRecord))
    → IsValid p
    → read p there n ≡ r
    → Balanced p (after_read p r)
read-Balanced p there n (value (count, bytes, q)) v e =
    ground (arith, read_refines p q there n count bytes v e, append-nil (contents p))
read-Balanced p there n (fail s) v e = (sym (append-nil (contents p)), v)

write-Balanced :
    (p : PipeRecord) (there : Bool) (src : List ℕ) (r : Result (ℕ × PipeRecord))
    → IsValid p
    → write p there src ≡ r
    → Balanced p (after_write p src r)
write-Balanced p there src (value (count, q)) v e =
    ground (arith, write_refines p q there src count v e)
write-Balanced p there src (fail s) v e = (sym (append-nil (contents p)), v)

step-Balanced : (p : PipeRecord) (c : Call) → IsValid p → Balanced p (step p c)
unfolding step
step-Balanced p (reads there n) v = read-Balanced p there n (read p there n) v refl
step-Balanced p (writes there src) v = write-Balanced p there src (write p there src) v refl

-- Whatever calls are made on a valid pipe, the bytes that came out, followed by those still in the
-- pipe, are those that were in the pipe followed by those that were taken in: none is lost,
-- doubled or reordered. The pipe stays valid.
pub run_conserves :
    (cs : List Call) (p : PipeRecord)
    → IsValid p
    → ((run p cs).0 ++ contents (run p cs).2 ≡ contents p ++ (run p cs).1) × IsValid (run p cs).2
unfolding run
run_conserves [] p v = (sym (append-nil (contents p)), v)
run_conserves (c ∷ cs) p v =
    let q = (step p c).2 in
    let here = step-Balanced p c v in
    let rest = run_conserves cs q here.1 in
    (
      append_assoc (step p c).0 (run q cs).0 (contents (run q cs).2)
          ∙ ap (◌++◌ (step p c).0) rest.0
          ∙ sym (append_assoc (step p c).0 (contents q) (run q cs).1)
          ∙ ap (λ k. k ++ (run q cs).1) here.0
          ∙ append_assoc (contents p) (step p c).1 (run q cs).1,
      rest.1,
    )
