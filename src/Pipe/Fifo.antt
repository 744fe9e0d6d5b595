-- ===== src/Pipe/Fifo.antt =====
-- A pipe of RADKernel/core/RADKernel_runtime.cpp against a bounded first-in first-out byte queue.
use radpx_os.Base.{
  ℕ, ◌+◌, ◌-◌, ◌%◌, ◌≤◌, ◌<◌, min, ◌≡◌, refl, ap, ◌∙◌, ◌⊎◌, inl, inr, Bool, true, false, ◌&&◌, List,
  [], ◌++◌, append-nil, arith, ◌==◌, Bool-cases, length, take, drop, take-add, length-take,
  length-drop, length-replicate, count, invalid_argument, value, fail,
}
use radpx_os.Base.Ring.{
  copy_in, window, ring_in, length-window, window-add, window-ring_in, copy_in_two,
  copy_in-eq-ring_in, copy_out-eq-window, copy_out_two, length-copy_in,
}
use radpx_os.Pipe.{
  PipeRecord, pipe_buffer_bytes, zero_pipe, read_count, read_bytes, read, write_count, written,
  write,
}

-- The read position and the fill stay inside the buffer.
pub record IsValid (p : PipeRecord) : Type 0 where
  pub whole : length p.buffer ≡ pipe_buffer_bytes
  pub inside : p.read_pos < pipe_buffer_bytes
  pub fits : p.size ≤ pipe_buffer_bytes

pub zero_pipe-IsValid : IsValid zero_pipe
unfolding zero_pipe
zero_pipe-IsValid = record {
  whole = length-replicate {A = ℕ} pipe_buffer_bytes 0;
  inside = omega arith;
  fits = omega arith;
}

-- The bytes in the pipe, oldest first.
abbrev pub contents : PipeRecord → List ℕ
contents p = window 0 pipe_buffer_bytes p.buffer p.read_pos p.size

pub read_bytes-eq-window :
    (p : PipeRecord) (count : ℕ)
    → IsValid p
    → count ≤ p.size
    → read_bytes p count ≡ window 0 pipe_buffer_bytes p.buffer p.read_pos count
read_bytes-eq-window p count v le = ground (
  arith,
  copy_out-eq-window 0 pipe_buffer_bytes count p.buffer p.read_pos,
  copy_out_two 0 pipe_buffer_bytes (pipe_buffer_bytes - p.read_pos)
      (count - (pipe_buffer_bytes - p.read_pos)) p.buffer p.read_pos,
)

pub written-window :
    (p : PipeRecord) (count : ℕ) (src : List ℕ)
    → IsValid p
    → count ≤ length src
    → p.size + count ≤ pipe_buffer_bytes
    → (window 0 pipe_buffer_bytes (written p count src) p.read_pos (p.size + count)
        ≡ contents p ++ take count src)
      × (length (written p count src) ≡ pipe_buffer_bytes)
written-window p count src v le room = (
  rw whole (
      ap
        (window 0 pipe_buffer_bytes (ring_in 0 pipe_buffer_bytes p.buffer pos (take count src))
          p.read_pos)
        {x = p.size + count} (omega (arith, length-take count src))
      ∙ window-ring_in 0 pipe_buffer_bytes (take count src) p.buffer p.read_pos p.size pos
          (omega arith) (omega arith) (omega (arith, length-take count src)) refl),
  ground (
    arith,
    length-copy_in p.buffer pos (take count src),
    length-copy_in p.buffer pos (take (pipe_buffer_bytes - pos) src),
    length-copy_in (copy_in p.buffer pos (take (pipe_buffer_bytes - pos) src)) 0
        (take (count - (pipe_buffer_bytes - pos)) (drop (pipe_buffer_bytes - pos) src)),
  ),
)
  where
    pos : ℕ
    pos = (p.read_pos + p.size) % pipe_buffer_bytes

    whole : written p count src ≡ ring_in 0 pipe_buffer_bytes p.buffer pos (take count src)
    whole = ground (
      arith,
      copy_in_two 0 pipe_buffer_bytes (take (pipe_buffer_bytes - pos) src)
          (take (count - (pipe_buffer_bytes - pos)) (drop (pipe_buffer_bytes - pos) src)) p.buffer
          pos,
      copy_in-eq-ring_in 0 pipe_buffer_bytes (take count src) p.buffer pos,
      take-add (pipe_buffer_bytes - pos) (count - (pipe_buffer_bytes - pos)) src,
      length-take count src,
      length-take (pipe_buffer_bytes - pos) src,
      length-take (count - (pipe_buffer_bytes - pos)) (drop (pipe_buffer_bytes - pos) src),
      length-drop (pipe_buffer_bytes - pos) src,
    )

-- A successful read of a valid pipe returns as many bytes as were asked for and are there; these,
-- followed by what is left, are what was in the pipe. The pipe stays valid and keeps its reference
-- counts.
pub read_refines :
    (p q : PipeRecord) (there : Bool) (n count : ℕ) (bytes : List ℕ)
    → IsValid p
    → read p there n ≡ value (count, bytes, q)
    → (count ≡ min n p.size)
      × (length bytes ≡ count)
      × (bytes ++ contents q ≡ contents p)
      × IsValid q
      × (q.read_refs ≡ p.read_refs)
      × (q.write_refs ≡ p.write_refs)
unfolding read
read_refines p q there n count bytes v e = ground (
  arith,
  read_bytes-eq-window p (read_count p n) v,
  window-add 0 pipe_buffer_bytes p.buffer p.read_pos (read_count p n) (p.size - read_count p n),
  length-window 0 pipe_buffer_bytes p.buffer p.read_pos (read_count p n),
  ap (window 0 pipe_buffer_bytes p.buffer p.read_pos)
      {x = read_count p n + (p.size - read_count p n)} {y = p.size} (ground arith),
)

-- A successful write to a valid pipe takes as many bytes as fit, the first ones, and appends them
-- to those that are there; the pipe stays valid and keeps its reference counts.
pub write_refines :
    (p q : PipeRecord) (there : Bool) (src : List ℕ) (count : ℕ)
    → IsValid p
    → write p there src ≡ value (count, q)
    → (count ≡ min (length src) (pipe_buffer_bytes - p.size))
      × (contents q ≡ contents p ++ take count src)
      × IsValid q
      × (q.read_refs ≡ p.read_refs)
      × (q.write_refs ≡ p.write_refs)
unfolding write
write_refines p q there src count v e =
    ground (arith, written-window p (write_count p (length src)) src v, append-nil (contents p))

-- A read of a pipe in use into a buffer that is not null never fails, and any other read is
-- refused as an invalid argument.
pub read_outcome :
    (p : PipeRecord) (there : Bool) (n : ℕ)
    → ((p.used && there ≡ true)
        × ((count : ℕ) × (bytes : List ℕ) × (q : PipeRecord) × (read p there n
              ≡ value (count, bytes, q))))
      ⊎ ((p.used && there ≡ false) × (read p there n ≡ fail invalid_argument))
unfolding read
read_outcome p there n = elim (Bool-cases (p.used && there)) [
  | inl e ↦ elim (Bool-cases (read_count p n == 0)) [
    | inl z ↦ inl (e, (0, [], p, ground arith))
    | inr z ↦ inl (
      e,
      (
        read_count p n,
        read_bytes p (read_count p n),
        record p {
          read_pos = (p.read_pos + read_count p n) % pipe_buffer_bytes;
          size = p.size - read_count p n;
        },
        ground arith,
      ),
    )
  ]
  | inr e ↦ inr (e, ground arith)
]
