-- ===== src/Base/Text.antt =====
-- C strings and fixed character arrays as lists of bytes (RADKernel/core/RADKernel_runtime.cpp).
use radpx_os.Base.Lists.{length, take, length-take}
use radpx_os.Base.Tests.{◌==◌}
use Prim.Native.Nat.{ℕ, ◌-◌, ◌≤◌}
use Prim.Native.Char.{code}
use Prim.Native.String.{String}
use mathlib.Core.Path.{◌≡◌, refl}
use mathlib.Core.Bool.{Bool, true, false, ◌&&◌}
use mathlib.Core.List.{List, [], ◌∷◌}
use native.Mathlib.Omega.{arith}

-- A C string: its bytes up to the terminating zero.
abbrev pub CString : Type 0
CString = List ℕ

-- The bytes of a literal.
abbrev pub codes : String → CString
codes String.[] = []
codes (String.◌∷◌ c s) = code c ∷ codes s

-- `strcmp(a, b) == 0`
unfoldable pub text_eq : CString → CString → Bool
text_eq [] [] = true
text_eq [] (y ∷ ys) = false
text_eq (x ∷ xs) [] = false
text_eq (x ∷ xs) (y ∷ ys) = (x == y) && text_eq xs ys

-- `copy_string`: at most `size - 1` bytes are kept, and a zero ends them.
abbrev pub copy_string : ℕ → CString → CString
copy_string size src = take (size - 1) src

pub text_eq_refl : (s : CString) → text_eq s s ≡ true
unfolding text_eq
text_eq_refl [] = refl
text_eq_refl (x ∷ xs) = ground (arith, text_eq_refl xs)

pub text_eq_sound : (s t : CString) → text_eq s t ≡ true → s ≡ t
unfolding text_eq
text_eq_sound [] [] h = refl
text_eq_sound [] (y ∷ ys) h = cc
text_eq_sound (x ∷ xs) [] h = cc
text_eq_sound (x ∷ xs) (y ∷ ys) h = ground (arith, text_eq_sound xs ys)

pub length-copy_string : (size : ℕ) (s : CString) → length (copy_string size s) ≤ size - 1
length-copy_string size s = omega (arith, length-take (size - 1) s)
