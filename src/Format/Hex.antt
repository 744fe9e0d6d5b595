-- ===== src/Format/Hex.antt =====
-- Hexadecimal numbers of RADKernel/core/RADKernel_runtime.cpp against the value of their digits.
use radpx_os.Base.{
  ℕ, zero, suc, ◌+◌, ◌-◌, ◌*◌, ◌/◌, ◌%◌, ◌^◌, ◌≤◌, ◌<◌, ◌≡◌, sym, ap, ◌∙◌, inl, inr, Bool, true,
  false, not, ◌||◌, [], ◌∷◌, arith, ltb, ◌==◌, if◌then◌else◌, if_elim, Bool-cases, length, CString,
}
use native.Mathlib.Nat.{div-div-eq-div-mul, pow-suc}
use radpx_os.Format.{hex_digit, hex_digits, append_hex32, append_hex64}
use radpx_os.Format.Decimal.{append_text-fits}

abbrev pub nibble_of : ℕ → ℕ
nibble_of ch = if ltb ch b'a' then ch - b'0' else ch - b'a' + 10

-- The number that hexadecimal digits stand for behind another.
unfoldable pub hex_value : CString → ℕ → ℕ
hex_value [] value = value
hex_value (ch ∷ text) value = hex_value text (value * 16 + nibble_of ch)

nibble_of-hex_digit : (n : ℕ) → n < 16 → nibble_of (hex_digit n) ≡ n
nibble_of-hex_digit n small = ground arith

higher : (left value : ℕ) → value / 16 ^ left / 16 ≡ value / 16 ^ suc left
higher left value =
    div-div-eq-div-mul value (16 ^ left) 16 ∙ ap (λ t. value / t) (sym (pow-suc 16 left))

-- `left` nibbles behind the number that the higher ones make up.
hex_value-digits :
    (left : ℕ) (started : Bool) (value : ℕ)
    → (started ≡ false → value / 16 ^ left ≡ 0)
    → hex_value (hex_digits left started value) (value / 16 ^ left) ≡ value
unfolding hex_value hex_digits
hex_value-digits zero started value high = omega arith
hex_value-digits (suc left) started value high =
    let x = value / 16 ^ left in
    let up = higher left value in
    let same = nibble_of-hex_digit (x % 16) (omega arith) in
    elim (Bool-cases (not (x % 16 == 0) || started || (left == 0))) [
      | inl shown ↦
          let ih = hex_value-digits left true value (λ e. absurd (cc)) in
          let whole : value / 16 ^ suc left * 16 + nibble_of (hex_digit (x % 16)) ≡ x =
            omega (arith, up, same) in
          rw (hex_digits, shown) (ap (hex_value (hex_digits left true value)) whole ∙ ih)
      | inr hidden ↦
          let fresh : started ≡ false = ground (arith, hidden) in
          let none_above : value / 16 ^ suc left ≡ 0 = high fresh in
          let low : x % 16 ≡ 0 = ground (arith, hidden) in
          let none_here : x ≡ 0 = omega (arith, up, none_above, low) in
          rw (hex_digits, hidden)
            (ap (hex_value (hex_digits left false value)) (none_above ∙ sym none_here)
              ∙ hex_value-digits left false value (λ e. none_here))
    ]

length-hex_digits :
    (left : ℕ) (started : Bool) (value : ℕ) → length (hex_digits left started value) ≤ left
unfolding hex_digits
length-hex_digits zero started value = omega arith
length-hex_digits (suc left) started value =
    let shown = not ((value / 16 ^ left) % 16 == 0) || started || (left == 0) in
    let ih = length-hex_digits left shown value in
    if_elim (λ (t : CString). length t ≤ suc left) shown (λ h. omega arith) (λ h. omega arith)

-- A number of 32 bits that is printed in hexadecimal into an empty buffer of more than 8 bytes is the
-- value of its digits.
pub hex_value-append_hex32 :
    (size value : ℕ) → 8 < size → value < 2 ^ 32 → hex_value (append_hex32 size [] value) 0 ≡ value
unfolding append_hex32
hex_value-append_hex32 size value wide small =
    let digits = hex_digits 8 false value in
    let none_above : value / 16 ^ 8 ≡ 0 = omega arith in
    ap (λ t. hex_value t 0)
      (append_text-fits size [] digits (omega (arith, length-hex_digits 8 false value)))
    ∙ ap (hex_value digits) (sym none_above)
    ∙ hex_value-digits 8 false value (λ e. none_above)

-- The digits that append_hex64 puts into an empty buffer of more than 16 bytes have the value of
-- the number, if that has 64 bits.
pub hex_value-append_hex64 :
    (size value : ℕ) → 16 < size → value < 2 ^ 64 → hex_value (append_hex64 size [] value) 0 ≡ value
unfolding append_hex64
hex_value-append_hex64 size value wide small =
    let digits = hex_digits 16 false value in
    let none_above : value / 16 ^ 16 ≡ 0 = omega arith in
    ap (λ t. hex_value t 0)
      (append_text-fits size [] digits (omega (arith, length-hex_digits 16 false value)))
    ∙ ap (hex_value digits) (sym none_above)
    ∙ hex_value-digits 16 false value (λ e. none_above)
