-- ===== src/Format.antt =====
-- Numbers as text in RADKernel/core/RADKernel_runtime.cpp: append_char, append_text, append_u64,
-- append_i64, append_hex32, append_hex64 and parse_u64. A buffer is the text it holds, `size` its bytes.
pub mod Decimal
pub mod Hex
use radpx_os.Base.{
  [], ℕ, zero, suc, ◌+◌, ◌-◌, ◌*◌, ◌/◌, ◌%◌, ◌^◌, Bool, false, not, ◌&&◌, ◌||◌, Option, none, some,
  ◌∷◌, ◌++◌, ltb, leb, ◌==◌, if◌then◌else◌, length, CString,
}
use radpx_os.Base.Int.{ℤ, pos, negsuc}
use mathlib.Core.List.{reverse}

unfoldable pub append_char : ℕ → CString → ℕ → CString
append_char size out ch = if leb size (length out + 1) then out else out ++ ch ∷ []

unfoldable pub append_text : ℕ → CString → CString → CString
unfolding append_char
append_text size out [] = out
append_text size out (ch ∷ text) = append_text size (append_char size out ch) text

-- The bytes of `tmp`.
abbrev pub max_digits : ℕ
max_digits = 24

-- The digits of a number, the last one first, as many as there are rounds at most.
unfoldable pub digits_up : ℕ → ℕ → CString
digits_up zero value = []
digits_up (suc rounds) value =
    let rest = digits_up rounds (value / 10) in
    (b'0' + value % 10) ∷ (if value / 10 == 0 then [] else rest)

unfoldable pub append_u64 : ℕ → CString → ℕ → CString
unfolding append_text digits_up
append_u64 size out value = append_text size out (reverse (digits_up max_digits value))

unfoldable pub append_i64 : ℕ → CString → ℤ → CString
unfolding append_u64 append_char
append_i64 size out (pos n) = append_u64 size out n
append_i64 size out (negsuc n) = append_u64 size (append_char size out b'-') (n + 1)

abbrev pub hex_digit : ℕ → ℕ
hex_digit nibble = if ltb nibble 10 then b'0' + nibble else b'a' + (nibble - 10)

-- The loops of `append_hex32` and `append_hex64`, with the nibbles that are left.
unfoldable pub hex_digits : ℕ → Bool → ℕ → CString
hex_digits zero started value = []
hex_digits (suc left) started value =
    let nibble = (value / 16 ^ left) % 16 in
    let shown = not (nibble == 0) || started || (left == 0) in
    let rest = hex_digits left shown value in if shown then hex_digit nibble ∷ rest else rest

unfoldable pub append_hex32 : ℕ → CString → ℕ → CString
unfolding hex_digits append_text
append_hex32 size out value = append_text size out (hex_digits 8 false value)

unfoldable pub append_hex64 : ℕ → CString → ℕ → CString
unfolding hex_digits append_text
append_hex64 size out value = append_text size out (hex_digits 16 false value)

abbrev is_digit : ℕ → Bool
is_digit ch = leb b'0' ch && leb ch b'9'

-- The loop of `parse_u64`, none at a byte that is no digit.
unfoldable pub parse_digits : CString → ℕ → Option ℕ
parse_digits [] value = some value
parse_digits (ch ∷ text) value =
    let rest = parse_digits text ((value * 10 + (ch - b'0')) % 2 ^ 64) in
    if is_digit ch then rest else none

unfoldable pub parse_u64 : CString → ℕ → ℕ
unfolding parse_digits
parse_u64 [] fallback = fallback
parse_u64 (ch ∷ text) fallback = elim (parse_digits (ch ∷ text) 0) [
  | none ↦ fallback
  | some value ↦ value
]
