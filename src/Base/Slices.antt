-- ===== src/Base/Slices.antt =====
-- Parts of lists, of joined lists and of parts.
use Prim.Native.Nat.{ℕ, zero, suc, ◌+◌, ◌-◌, ◌≤◌}
use mathlib.Core.Path.{◌≡◌, refl, sym, ap}
use mathlib.Core.List.{List, [], ◌∷◌, ◌++◌}
use native.Mathlib.Omega.{arith}
use radpx_os.Base.Lists.{length, take, drop, take-nil}

module _ {ℓ} {A : Type ℓ} where
  pub take-append_more :
      (xs ys : List A) (k : ℕ) → take (length xs + k) (xs ++ ys) ≡ xs ++ take k ys
  take-append_more [] ys k = let e : 0 + k ≡ k = omega arith in rw e refl
  take-append_more (x ∷ xs) ys k =
      let e : suc (length xs) + k ≡ suc (length xs + k) = omega arith in
      rw e (ap (λ t. x ∷ t) (take-append_more xs ys k))

  pub drop-append_length : (xs ys : List A) → drop (length xs) (xs ++ ys) ≡ ys
  drop-append_length [] ys = refl
  drop-append_length (x ∷ xs) ys = drop-append_length xs ys

  pub drop-take : (k n : ℕ) (xs : List A) → drop k (take n xs) ≡ take (n - k) (drop k xs)
  drop-take zero n xs = let e : n - 0 ≡ n = omega arith in rw e refl
  drop-take (suc k) zero xs = sym (take_none (drop (suc k) xs))
    where
      take_none : (ys : List A) → take (0 - suc k) ys ≡ []
      take_none ys = let e : 0 - suc k ≡ 0 = omega arith in rw e refl
  drop-take (suc k) (suc n) [] = sym (take-nil (suc n - suc k))
  drop-take (suc k) (suc n) (x ∷ xs) =
      let e : suc n - suc k ≡ n - k = omega arith in rw e (drop-take k n xs)

  pub take-take : (k n : ℕ) (xs : List A) → k ≤ n → take k (take n xs) ≡ take k xs
  take-take zero n xs le = refl
  take-take (suc k) zero xs le = absurd (omega arith)
  take-take (suc k) (suc n) [] le = refl
  take-take (suc k) (suc n) (x ∷ xs) le = ap (λ t. x ∷ t) (take-take k n xs (omega arith))
