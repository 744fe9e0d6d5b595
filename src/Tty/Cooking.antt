-- ===== src/Tty/Cooking.antt =====
-- The canonical mode of RADKernel/core/RADKernel_runtime.cpp against a description of what a line
-- editor does to a stream of bytes, which has no bounds.
use radpx_os.Base.{
  ℕ, suc, ◌+◌, ◌-◌, ◌≤◌, ◌<◌, ◌≡◌, refl, sym, ap, ◌∙◌, inl, inr, Bool, true, false, some, List, [],
  ◌∷◌, ◌++◌, append-nil, append_assoc, arith, ◌==◌, if◌then◌else◌, Bool-cases, length,
  length-append, length-set, take, take-all, length-take, get_or-set_self,
}
use radpx_os.Tty.{
  tty_buffer_bytes, tty_line_bytes, mode_canonical, mode_echo, has, TtyRecord, Terminals, tty_at,
  put_tty, zero_tty, Edit, is_erase, is_kept, newline_of, erase, push_byte, push_bytes, edit_of,
  edited, typed, show_echo, append_tty_output, tty_push_input_record, send, buffer_append,
}

-- A line without its last byte.
abbrev pub shorten : List ℕ → List ℕ
shorten line = take (length line - 1) line

-- The finished lines of the stream, each with its newline, when `line` has been typed before it, and
-- the line that is left open.
unfoldable pub cook : List ℕ → List ℕ → List ℕ × List ℕ
cook line [] = ([], line)
cook line (c ∷ cs) =
    let erased = cook (shorten line) cs in
    let (lines, pending) = cook [] cs in
    let kept = cook (line ++ (newline_of c ∷ [])) cs in
    let skipped = cook line cs in
    if is_erase (newline_of c)
    then erased
    else if newline_of c == 10
    then (line ++ (10 ∷ lines), pending)
    else if is_kept (newline_of c)
    then kept
    else skipped

append_fits :
    (capacity : ℕ) (held bytes : List ℕ)
    → length held + length bytes ≤ capacity
    → buffer_append capacity held bytes ≡ held ++ bytes
append_fits capacity held bytes le =
    ap (λ xs. held ++ xs) (take-all (capacity - length held) bytes (omega arith))

length-shorten : (line : List ℕ) → length (shorten line) ≤ length line
length-shorten line = omega (arith, length-take (length line - 1) line)

erase-line : (echo : Bool) (e : Edit) → (erase echo e).line ≡ shorten e.line
erase-line echo e = shown e.line refl
  where
    shown : (line : List ℕ) → e.line ≡ line → (erase echo e).line ≡ shorten e.line
    shown [] h = rw h refl
    shown (x ∷ xs) h = rw h (ground arith)

erase-input : (echo : Bool) (e : Edit) → (erase echo e).input ≡ e.input
erase-input echo e = ground arith

-- One byte, where there is room for it.
abbrev ByteFits : Edit → Edit → ℕ → List ℕ → Type 0
ByteFits e next c cs =
    (length next.line ≤ suc (length e.line))
    × (length next.input + length next.line ≤ suc (length e.input + length e.line))
    × (next.input ++ (cook next.line cs).0 ≡ e.input ++ (cook e.line (c ∷ cs)).0)
    × ((cook next.line cs).1 ≡ (cook e.line (c ∷ cs)).1)

module _ (echo : Bool) (e : Edit) (c : ℕ) (cs : List ℕ) (fits : length e.line < tty_line_bytes)
    (room : length e.input + length e.line < tty_buffer_bytes) where
  erase-ByteFits : is_erase (newline_of c) ≡ true → ByteFits e (push_byte true echo e c) c cs
  unfolding push_byte cook
  erase-ByteFits h =
      rw (h, erase-line echo e, erase-input echo e)
        (omega (arith, length-shorten e.line), omega (arith, length-shorten e.line), refl, refl)

  newline-ByteFits :
      is_erase (newline_of c) ≡ false
      → (newline_of c == 10) ≡ true
      → ByteFits e (push_byte true echo e c) c cs
  unfolding push_byte cook
  newline-ByteFits h g =
      rw
        (
          h,
          g,
          append_fits tty_buffer_bytes e.input e.line (omega arith),
          append_fits tty_buffer_bytes (e.input ++ e.line) (10 ∷ [])
              (omega (arith, length-append e.input e.line)),
          length-append (e.input ++ e.line) (10 ∷ []),
          length-append e.input e.line,
        )
        (
          omega arith,
          omega arith,
          append_assoc (e.input ++ e.line) (10 ∷ []) (cook [] cs).0
              ∙ append_assoc e.input e.line (10 ∷ (cook [] cs).0),
          refl,
        )

  kept-ByteFits :
      is_erase (newline_of c) ≡ false
      → (newline_of c == 10) ≡ false
      → is_kept (newline_of c) ≡ true
      → ByteFits e (push_byte true echo e c) c cs
  unfolding push_byte cook
  kept-ByteFits h g f =
      rw
        (
          h,
          g,
          f,
          append_fits tty_line_bytes e.line (newline_of c ∷ []) (omega arith),
          length-append e.line (newline_of c ∷ []),
        )
        (omega arith, omega arith, refl, refl)

  skipped-ByteFits :
      is_erase (newline_of c) ≡ false
      → (newline_of c == 10) ≡ false
      → is_kept (newline_of c) ≡ false
      → ByteFits e (push_byte true echo e c) c cs
  unfolding push_byte cook
  skipped-ByteFits h g f = rw (h, g, f) (omega arith, omega arith, refl, refl)

  push_byte-ByteFits : ByteFits e (push_byte true echo e c) c cs
  push_byte-ByteFits = elim (Bool-cases (is_erase (newline_of c))) [
    | inl h ↦ erase-ByteFits h
    | inr h ↦ elim (Bool-cases (newline_of c == 10)) [
      | inl g ↦ newline-ByteFits h g
      | inr g ↦ elim (Bool-cases (is_kept (newline_of c))) [
        | inl f ↦ kept-ByteFits h g f
        | inr f ↦ skipped-ByteFits h g f
      ]
    ]
  ]

-- With room for all of the stream, the loop does what the description says.
push_bytes-cook :
    (bytes : List ℕ) (echo : Bool) (e : Edit)
    → length e.line + length bytes ≤ tty_line_bytes
    → length e.input + length e.line + length bytes ≤ tty_buffer_bytes
    → let after = push_bytes true echo e bytes in
      let (lines, pending) = cook e.line bytes in
      (after.input ≡ e.input ++ lines) × (after.line ≡ pending)
unfolding push_bytes push_byte cook
push_bytes-cook [] echo e fits room = (sym (append-nil e.input), refl)
push_bytes-cook (c ∷ cs) echo e fits room =
    let next = push_byte true echo e c in
    let (shorter, smaller, lines, pending) =
      push_byte-ByteFits echo e c cs (omega arith) (omega arith) in
    let (input, line) = push_bytes-cook cs echo next (omega arith) (omega arith) in
    (input ∙ lines, line ∙ pending)

abbrev KeepsEdits : TtyRecord → Terminals → ℕ → Type 0
KeepsEdits r s t = ((tty_at s t).input ≡ r.input) × ((tty_at s t).line ≡ r.line)

append_tty_output-KeepsEdits :
    (s : Terminals) (t : ℕ) (bytes : List ℕ)
    → t < length s.ttys
    → KeepsEdits (tty_at s t) (append_tty_output s t bytes) t
unfolding append_tty_output
append_tty_output-KeepsEdits s t bytes inside =
    let r = tty_at s t in
    let out = record r { output = buffer_append tty_buffer_bytes r.output bytes } in
    rw (get_or-set_self s.ttys t out zero_tty inside) (refl, refl)

send-KeepsEdits :
    (s : Terminals) (t : ℕ) (bytes : List ℕ) → KeepsEdits (tty_at s t) (send s t bytes) t
send-KeepsEdits s t bytes = ground arith

-- The bytes shown are put in the output; the line and the input stay.
show_echo-KeepsEdits :
    (s : Terminals) (t : ℕ) (echo : List ℕ)
    → t < length s.ttys
    → KeepsEdits (tty_at s t) (show_echo s t echo) t
unfolding show_echo
show_echo-KeepsEdits s t echo inside =
    let shown = if length echo == 0 then s else append_tty_output s t echo in
    ground (arith, send-KeepsEdits shown t echo, append_tty_output-KeepsEdits s t echo inside)

-- Typing at terminal `t` leaves in its record the line and the input that the loop has.
pub push-typed :
    (s : Terminals) (t : ℕ) (bytes : List ℕ)
    → t < length s.ttys
    → KeepsEdits
        (edited (tty_at s t) (typed (tty_at s t) bytes))
        (tty_push_input_record s (some t) true bytes).1
        t
unfolding tty_push_input_record
push-typed s t bytes inside =
    let r = tty_at s t in
    let e = typed r bytes in
    let (input, line) =
      show_echo-KeepsEdits (put_tty s t (edited r e)) t e.echo
        (rw (length-set s.ttys t (edited r e)) inside) in
    let here = get_or-set_self s.ttys t (edited r e) zero_tty inside in
    (input ∙ ap (λ (x : TtyRecord). x.input) here, line ∙ ap (λ (x : TtyRecord). x.line) here)

typed-cook :
    (r : TtyRecord) (bytes : List ℕ)
    → has r.mode mode_canonical ≡ true
    → length r.line + length bytes ≤ tty_line_bytes
    → length r.input + length r.line + length bytes ≤ tty_buffer_bytes
    → ((typed r bytes).input ≡ r.input ++ (cook r.line bytes).0)
      × ((typed r bytes).line ≡ (cook r.line bytes).1)
unfolding typed
typed-cook r bytes canonical fits room =
    rw canonical (push_bytes-cook bytes (has r.mode mode_echo) (edit_of r) fits room)

-- Input to a terminal in canonical mode appends to what can be read the finished lines of what was
-- typed, erasures done, and leaves the open line pending, as long as the line and the input have
-- room for all the bytes.
pub tty_push_input_record-cook :
    (s : Terminals) (t : ℕ) (bytes : List ℕ)
    → t < length s.ttys
    → has (tty_at s t).mode mode_canonical ≡ true
    → length (tty_at s t).line + length bytes ≤ tty_line_bytes
    → length (tty_at s t).input + length (tty_at s t).line + length bytes ≤ tty_buffer_bytes
    → let after = tty_at (tty_push_input_record s (some t) true bytes).1 t in
      let (lines, pending) = cook (tty_at s t).line bytes in
      (after.input ≡ (tty_at s t).input ++ lines) × (after.line ≡ pending)
tty_push_input_record-cook s t bytes inside canonical fits room =
    let (input, line) = push-typed s t bytes inside in
    let (cooked, pending) = typed-cook (tty_at s t) bytes canonical fits room in
    (input ∙ cooked, line ∙ pending)
