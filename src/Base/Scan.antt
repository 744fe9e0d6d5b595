-- ===== src/Base/Scan.antt =====
-- The kernel's tables are fixed arrays that are scanned from index 0: the first entry that passes a
-- test, and how many entries pass one.
use radpx_os.Base.Tests.{if◌then◌else◌, Bool-cases, Option-cases}
use radpx_os.Base.Lists.{length, get_or, set}
use Prim.Native.Nat.{ℕ, zero, suc, ◌+◌, ◌≤◌, ◌<◌}
use mathlib.Core.Path.{◌≡◌, refl}
use mathlib.Core.Logic.{◌⊎◌, inl, inr}
use mathlib.Core.Bool.{Bool, true, false}
use mathlib.Core.Option.{Option, none, some}
use mathlib.Core.List.{List, [], ◌∷◌}
use native.Mathlib.Omega.{arith}

abbrev shift : Option ℕ → Option ℕ
shift none = none
shift (some i) = some (suc i)

abbrev pub bit : Bool → ℕ
bit true = 1
bit false = 0

module _ {ℓ} {A : Type ℓ} where
  -- `for (i = 0; i < N; ++i) if (p(table[i])) …`
  unfoldable pub find_index : (A → Bool) → List A → Option ℕ
  find_index p [] = none
  find_index p (x ∷ xs) = if p x then some 0 else shift (find_index p xs)

  unfoldable pub count : (A → Bool) → List A → ℕ
  count p [] = 0
  count p (x ∷ xs) = bit (p x) + count p xs

  pub find_index-lt :
      (p : A → Bool) (xs : List A) (i : ℕ) → find_index p xs ≡ some i → i < length xs
  unfolding find_index
  find_index-lt p [] i h = cc
  find_index-lt p (x ∷ xs) zero h = omega arith
  find_index-lt p (x ∷ xs) (suc i) h = ground (arith, find_index-lt p xs i)

  pub find_index-holds :
      (p : A → Bool) (d : A) (xs : List A) (i : ℕ)
      → find_index p xs ≡ some i
      → p (get_or xs i d) ≡ true
  unfolding find_index
  find_index-holds p d [] i h = cc
  find_index-holds p d (x ∷ xs) zero h = ground arith
  find_index-holds p d (x ∷ xs) (suc i) h = ground (arith, find_index-holds p d xs i)

  -- No entry before the one found passes.
  pub find_index-least :
      (p : A → Bool) (d : A) (xs : List A) (i j : ℕ)
      → find_index p xs ≡ some i
      → j < i
      → p (get_or xs j d) ≡ false
  unfolding find_index
  find_index-least p d [] i j h lt = cc
  find_index-least p d (x ∷ xs) zero j h lt = absurd (omega arith)
  find_index-least p d (x ∷ xs) (suc i) zero h lt = ground arith
  find_index-least p d (x ∷ xs) (suc i) (suc j) h lt = ground (arith, find_index-least p d xs i j)

  pub find_index-none :
      (p : A → Bool) (d : A) (xs : List A) (i : ℕ)
      → find_index p xs ≡ none
      → i < length xs
      → p (get_or xs i d) ≡ false
  unfolding find_index
  find_index-none p d [] i h lt = absurd (omega arith)
  find_index-none p d (x ∷ xs) zero h lt = ground arith
  find_index-none p d (x ∷ xs) (suc i) h lt = ground (arith, find_index-none p d xs i)

  pub find_index-total :
      (p : A → Bool) (d : A) (xs : List A) (i : ℕ)
      → i < length xs
      → p (get_or xs i d) ≡ true
      → (j : ℕ) × (find_index p xs ≡ some j) × (j ≤ i)
  unfolding find_index
  find_index-total p d [] i lt h = absurd (omega arith)
  find_index-total p d (x ∷ xs) zero lt h = (0, ground arith, omega arith)
  find_index-total p d (x ∷ xs) (suc i) lt h = elim (Bool-cases (p x)) [
    | inl e ↦ (0, rw e, omega arith)
    | inr e ↦
        let (j, f, le) = find_index-total p d xs i (omega arith) h in
        (suc j, rw (e, f), omega arith)
  ]

  pub count-set :
      (p : A → Bool) (d : A) (xs : List A) (i : ℕ) (v : A)
      → i < length xs
      → count p (set xs i v) + bit (p (get_or xs i d)) ≡ count p xs + bit (p v)
  unfolding count
  count-set p d [] i v lt = absurd (omega arith)
  count-set p d (x ∷ xs) zero v lt = omega arith
  count-set p d (x ∷ xs) (suc i) v lt = omega (arith, count-set p d xs i v (omega arith))

  pub count_pos :
      (p : A → Bool) (d : A) (xs : List A) (i : ℕ)
      → i < length xs
      → p (get_or xs i d) ≡ true
      → 0 < count p xs
  unfolding count
  count_pos p d [] i lt h = absurd (omega arith)
  count_pos p d (x ∷ xs) zero lt h = ground arith
  count_pos p d (x ∷ xs) (suc i) lt h = omega (arith, count_pos p d xs i (omega arith) h)

  pub count-le-length : (p : A → Bool) (xs : List A) → count p xs ≤ length xs
  unfolding count
  count-le-length p [] = omega arith
  count-le-length p (x ∷ xs) = ground (arith, count-le-length p xs)

  -- A table has a free entry exactly when fewer than all of its entries are taken.
  pub find_index_total_of_count :
      (p : A → Bool) (xs : List A) → 0 < count p xs → (j : ℕ) × (find_index p xs ≡ some j)
  unfolding find_index count
  find_index_total_of_count p [] h = absurd (omega arith)
  find_index_total_of_count p (x ∷ xs) h = elim (Bool-cases (p x)) [
    | inl e ↦ (0, ground arith)
    | inr e ↦ let (j, f) = find_index_total_of_count p xs (ground arith) in (suc j, rw (e, f))
  ]

  -- A read after a write.
  pub get_or-set :
      (xs : List A) (i j : ℕ) (v d : A)
      → i < length xs
      → ((i ≡ j) × (get_or (set xs i v) j d ≡ v))
        ⊎ ((¬ (i ≡ j)) × (get_or (set xs i v) j d ≡ get_or xs j d))
  get_or-set [] i j v d lt = absurd (omega arith)
  get_or-set (x ∷ xs) zero zero v d lt = inl (refl, refl)
  get_or-set (x ∷ xs) zero (suc j) v d lt = inr (omega arith, refl)
  get_or-set (x ∷ xs) (suc i) zero v d lt = inr (omega arith, refl)
  get_or-set (x ∷ xs) (suc i) (suc j) v d lt = elim (get_or-set xs i j v d (omega arith)) [
    | inl (e, f) ↦ inl (omega arith, f)
    | inr (e, f) ↦ inr ((λ q. e (omega arith)), f)
  ]

  pub get_or-set_self :
      (xs : List A) (i : ℕ) (v d : A) → i < length xs → get_or (set xs i v) i d ≡ v
  get_or-set_self [] i v d h = absurd (omega arith)
  get_or-set_self (x ∷ xs) zero v d h = refl
  get_or-set_self (x ∷ xs) (suc i) v d h = get_or-set_self xs i v d (omega arith)

  pub get_or-set_ne :
      (xs : List A) (i j : ℕ) (v d : A) → ¬ (i ≡ j) → get_or (set xs i v) j d ≡ get_or xs j d
  get_or-set_ne [] i j v d h = refl
  get_or-set_ne (x ∷ xs) zero zero v d h = absurd (h refl)
  get_or-set_ne (x ∷ xs) zero (suc j) v d h = refl
  get_or-set_ne (x ∷ xs) (suc i) zero v d h = refl
  get_or-set_ne (x ∷ xs) (suc i) (suc j) v d h = get_or-set_ne xs i j v d (λ e. h (omega arith))

  -- A write that does not change what the test says of the entry leaves the search as it was.
  pub find_index-set :
      (p : A → Bool) (d : A) (xs : List A) (i : ℕ) (v : A)
      → p v ≡ p (get_or xs i d)
      → find_index p (set xs i v) ≡ find_index p xs
  unfolding find_index
  find_index-set p d [] i v h = refl
  find_index-set p d (x ∷ xs) zero v h = ground arith
  find_index-set p d (x ∷ xs) (suc i) v h = ground (arith, find_index-set p d xs i v)

  -- The first entry that passes, where none did before it was written.
  pub find_index-fresh :
      (p : A → Bool) (d : A) (xs : List A) (i : ℕ) (v : A)
      → find_index p xs ≡ none
      → i < length xs
      → p v ≡ true
      → find_index p (set xs i v) ≡ some i
  unfolding find_index
  find_index-fresh p d [] i v h lt pv = absurd (omega arith)
  find_index-fresh p d (x ∷ xs) zero v h lt pv = ground arith
  find_index-fresh p d (x ∷ xs) (suc i) v h lt pv = elim (Bool-cases (p x)) [
    | inl q ↦ absurd (ground arith)
    | inr q ↦ elim (Option-cases (find_index p xs)) [
      | inl e ↦ rw (q, find_index-fresh p d xs i v e (omega arith) pv) refl
      | inr (j, e) ↦ absurd (ground arith)
    ]
  ]
