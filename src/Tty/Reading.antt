-- ===== src/Tty/Reading.antt =====
-- A reader of a terminal of RADKernel/core/RADKernel_runtime.cpp, behind the line discipline.
use radpx_os.Base.{
  ℕ, ◌+◌, ◌≤◌, ◌<◌, ◌≡◌, refl, ap, ◌∙◌, inl, inr, true, some, List, [], ◌++◌, arith, ltb,
  Bool-cases, length, length-set, take, drop, take-all, drop-all, get_or-set_self, value,
}
use radpx_os.Tty.{
  tty_buffer_bytes, tty_line_bytes, mode_canonical, has, Terminals, TtyRecord, tty_at, typed,
  edited, show_echo, append_tty_output, put_tty, zero_tty, tty_read_record, tty_push_input_record,
  buffer_take, buffer_append,
}
use radpx_os.Tty.Cooking.{cook, tty_push_input_record-cook}

buffer_take-eq :
    (size : ℕ) (held : List ℕ) → buffer_take size held ≡ (take size held, drop size held)
buffer_take-eq size held = elim (Bool-cases (ltb size (length held))) [
  | inl h ↦ rw h refl
  | inr h ↦
      rw
        (
          h,
          take-all size held (ground arith),
          drop-all size held (ground arith),
          take-all (length held) held (omega arith),
          drop-all (length held) held (omega arith),
        )
        refl
]

-- A read takes the first bytes of the input and leaves the others.
pub tty_read_record-takes :
    (s : Terminals) (t size : ℕ)
    → t < length s.ttys
    → ((tty_read_record s (some t) true size).0 ≡ value (take size (tty_at s t).input))
      × ((tty_at (tty_read_record s (some t) true size).1 t).input ≡ drop size (tty_at s t).input)
unfolding tty_read_record
tty_read_record-takes s t size inside =
    let r = tty_at s t in
    let eq = buffer_take-eq size r.input in
    let read = record r { input = (buffer_take size r.input).1 } in
    (
      ap (λ (x : List ℕ × List ℕ). value x.0) eq,
      ap (λ (x : TtyRecord). x.input) (get_or-set_self s.ttys t read zero_tty inside)
          ∙ ap (λ (x : List ℕ × List ℕ). x.1) eq,
    )

append_tty_output-length :
    (s : Terminals) (t : ℕ) (bytes : List ℕ)
    → length (append_tty_output s t bytes).ttys ≡ length s.ttys
unfolding append_tty_output
append_tty_output-length s t bytes =
    length-set s.ttys t
      (record (tty_at s t) { output = buffer_append tty_buffer_bytes (tty_at s t).output bytes })

show_echo-length :
    (s : Terminals) (t : ℕ) (echo : List ℕ) → length (show_echo s t echo).ttys ≡ length s.ttys
unfolding show_echo
show_echo-length s t echo = ground (arith, append_tty_output-length s t echo)

tty_push_input_record-length :
    (s : Terminals) (t : ℕ) (bytes : List ℕ)
    → length (tty_push_input_record s (some t) true bytes).1.ttys ≡ length s.ttys
unfolding tty_push_input_record
tty_push_input_record-length s t bytes =
    let r = tty_at s t in
    show_echo-length (put_tty s t (edited r (typed r bytes))) t (typed r bytes).echo
    ∙ length-set s.ttys t (edited r (typed r bytes))

-- What is typed at a terminal in canonical mode with nothing to read yet is what the next read
-- gives: the finished lines, erasures done, as far as its buffer goes; the others stay to be read.
-- The line has room for all the bytes.
pub type_then_read :
    (s : Terminals) (t size : ℕ) (bytes : List ℕ)
    → t < length s.ttys
    → has (tty_at s t).mode mode_canonical ≡ true
    → (tty_at s t).input ≡ []
    → length (tty_at s t).line + length bytes ≤ tty_line_bytes
    → let (lines, pending) = cook (tty_at s t).line bytes in
      let (result, after) =
        tty_read_record (tty_push_input_record s (some t) true bytes).1 (some t) true size in
      (result ≡ value (take size lines)) × ((tty_at after t).input ≡ drop size lines)
type_then_read s t size bytes inside canonical empty fits =
    let after = (tty_push_input_record s (some t) true bytes).1 in
    let none_held : length (tty_at s t).input ≡ 0 = rw empty refl in
    let (input, line) = tty_push_input_record-cook s t bytes inside canonical fits (omega arith) in
    let (result, rest) =
      tty_read_record-takes after t size (rw (tty_push_input_record-length s t bytes) inside) in
    let cooked = input ∙ ap (λ xs. xs ++ (cook (tty_at s t).line bytes).0) empty in
    (result ∙ ap (λ xs. value (take size xs)) cooked, rest ∙ ap (λ xs. drop size xs) cooked)
