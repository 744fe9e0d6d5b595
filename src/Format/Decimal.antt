-- ===== src/Format/Decimal.antt =====
-- Decimal numbers of RADKernel/core/RADKernel_runtime.cpp, written and read again.
use radpx_os.Base.{
  ℕ, zero, suc, ◌+◌, ◌-◌, ◌*◌, ◌/◌, ◌%◌, ◌^◌, ◌≤◌, ◌<◌, ◌≡◌, refl, sym, ap, ◌∙◌, inl, inr, false,
  some, [], ◌∷◌, ◌++◌, append-nil, append_assoc, arith, leb, ◌==◌, Bool-cases, length,
  length-append, CString,
}
use mathlib.Core.List.{reverse, reverse-cons}
use radpx_os.Format.{
  append_char, append_text, max_digits, digits_up, append_u64, parse_digits, parse_u64,
}

-- A text that fits is appended whole.
pub append_text-fits :
    (size : ℕ) (out text : CString)
    → length out + length text < size
    → append_text size out text ≡ out ++ text
unfolding append_text append_char
append_text-fits size out [] fits = sym (append-nil out)
append_text-fits size out (ch ∷ text) fits =
    let room : leb size (length out + 1) ≡ false = ground (arith, fits) in
    rw room (
      append_text-fits size (out ++ ch ∷ []) text (omega (arith, length-append out (ch ∷ [])))
      ∙ append_assoc out (ch ∷ []) text)

parse_digits-append :
    (front back : CString) (value middle : ℕ)
    → parse_digits front value ≡ some middle
    → parse_digits (front ++ back) value ≡ parse_digits back middle
unfolding parse_digits
parse_digits-append [] back value middle e = ground (arith, e)
parse_digits-append (ch ∷ front) back value middle e =
    ground (arith, e, parse_digits-append front back ((value * 10 + (ch - b'0')) % 2 ^ 64) middle)

-- One more than the largest number of so many digits.
unfoldable pub power_of_ten : ℕ → ℕ
power_of_ten zero = 1
power_of_ten (suc n) = 10 * power_of_ten n

rounds_left : (rounds tens : ℕ) → tens < power_of_ten rounds → ¬ (tens ≡ 0) → 0 < rounds
unfolding power_of_ten
rounds_left zero tens fits some_tens = absurd (some_tens (omega arith))
rounds_left (suc rounds) tens fits some_tens = omega arith

parse-digits_up :
    (rounds value : ℕ)
    → value < power_of_ten rounds
    → 0 < rounds
    → value < 2 ^ 64
    → parse_digits (reverse (digits_up rounds value)) 0 ≡ some value
unfolding digits_up power_of_ten parse_digits
parse-digits_up zero value fits some_round small = absurd (omega arith)
parse-digits_up (suc rounds) value fits some_round small = elim (Bool-cases (value / 10 == 0)) [
  | inl last ↦ rw (digits_up, last) (ground (arith, last))
  | inr more ↦
      let some_left : 0 < rounds =
        rounds_left rounds (value / 10) (omega arith) (ground (arith, more)) in
      let before = parse-digits_up rounds (value / 10) (omega arith) some_left (omega arith) in
      let d : CString = (b'0' + value % 10) ∷ [] in
      rw (digits_up, more)
        (ap (λ t. parse_digits t 0)
            (reverse-cons (b'0' + value % 10) (digits_up rounds (value / 10)))
          ∙ parse_digits-append (reverse (digits_up rounds (value / 10))) d 0 (value / 10) before
          ∙ ground arith)
]

length-reverse : (xs : CString) → length (reverse xs) ≡ length xs
length-reverse [] = refl
length-reverse (x ∷ xs) =
    ap length (reverse-cons x xs)
    ∙ omega (arith, length-append (reverse xs) (x ∷ []), length-reverse xs)

length-digits_up :
    (rounds value most : ℕ)
    → 0 < most
    → value < power_of_ten most
    → length (digits_up rounds value) ≤ most
unfolding digits_up power_of_ten
length-digits_up zero value most some_most fits = omega arith
length-digits_up (suc rounds) value zero some_most fits = absurd (omega arith)
length-digits_up (suc rounds) value (suc most) some_most fits =
    elim (Bool-cases (value / 10 == 0)) [
      | inl last ↦ rw (digits_up, last) (omega arith)
      | inr more ↦
          let some_left : 0 < most =
            rounds_left most (value / 10) (omega arith) (ground (arith, more)) in
          rw (digits_up, more)
            (omega (arith, length-digits_up rounds (value / 10) most some_left (omega arith)))
    ]

digits_up_pos : (rounds value : ℕ) → 0 < rounds → 0 < length (digits_up rounds value)
unfolding digits_up
digits_up_pos zero value some_round = absurd (omega arith)
digits_up_pos (suc rounds) value some_round = omega arith

parse_u64_of_digits :
    (text : CString) (fallback value : ℕ)
    → 0 < length text
    → parse_digits text 0 ≡ some value
    → parse_u64 text fallback ≡ value
unfolding parse_u64
parse_u64_of_digits [] fallback value some_text e = absurd (omega arith)
parse_u64_of_digits (ch ∷ text) fallback value some_text e = rw (parse_u64, e) refl

-- A number of 64 bits that append_u64 puts into an empty buffer of more than 20 bytes is what
-- parse_u64 reads there.
pub parse_u64-append_u64 :
    (size value fallback : ℕ)
    → 20 < size
    → value < 2 ^ 64
    → parse_u64 (append_u64 size [] value) fallback ≡ value
unfolding append_u64 power_of_ten
parse_u64-append_u64 size value fallback wide small =
    let digits = digits_up max_digits value in
    let short = length-digits_up max_digits value 20 (omega arith) (omega arith) in
    let turned = length-reverse digits in
    let whole : append_u64 size [] value ≡ reverse digits =
      append_text-fits size [] (reverse digits) (omega arith) in
    let read = parse-digits_up max_digits value (omega arith) (omega arith) small in
    ap (λ t. parse_u64 t fallback) whole
    ∙ parse_u64_of_digits (reverse digits) fallback value
        (omega (arith, turned, digits_up_pos max_digits value (omega arith))) read

-- The number that digits stand for behind another, with no bound.
unfoldable pub value_of : CString → ℕ → ℕ
value_of [] value = value
value_of (ch ∷ text) value = value_of text (value * 10 + (ch - b'0'))

abbrev pub AllDigits : CString → Type 0
AllDigits [] = Unit
AllDigits (ch ∷ text) = (b'0' ≤ ch) × (ch ≤ b'9') × AllDigits text

parse_digits-mod :
    (text : CString) (value cut : ℕ)
    → AllDigits text
    → value % 2 ^ 64 ≡ cut
    → cut < 2 ^ 64
    → parse_digits text cut ≡ some (value_of text value % 2 ^ 64)
unfolding parse_digits value_of
parse_digits-mod [] value cut digits e small = ground (arith, e)
parse_digits-mod (ch ∷ text) value cut (low, high, digits) e small = ground (
  arith,
  low,
  high,
  parse_digits-mod text (value * 10 + (ch - b'0')) ((cut * 10 + (ch - b'0')) % 2 ^ 64) digits
      (omega arith) (omega arith),
)

-- Digits, of whatever number, are read as that number in 64 bits: one that is too large wraps round and
-- is not refused.
pub parse_u64_wraps :
    (text : CString) (fallback : ℕ)
    → 0 < length text
    → AllDigits text
    → parse_u64 text fallback ≡ value_of text 0 % 2 ^ 64
parse_u64_wraps text fallback some_text digits =
    parse_u64_of_digits text fallback (value_of text 0 % 2 ^ 64) some_text
      (parse_digits-mod text 0 0 digits refl (omega arith))
