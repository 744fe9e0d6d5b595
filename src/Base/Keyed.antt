-- ===== src/Base/Keyed.antt =====
-- Tables whose entries are found by a key that no two of them have.
use Prim.Native.Nat.{ℕ, ◌<◌}
use mathlib.Core.Path.{◌≡◌, sym, ap, ◌∙◌, subst}
use mathlib.Core.Logic.{◌≢◌, inl, inr}
use mathlib.Core.Bool.{Bool, true, false}
use mathlib.Core.Option.{none, some}
use mathlib.Core.List.{List}
use native.Mathlib.Omega.{arith}
use radpx_os.Base.Tests.{Bool-cases}
use radpx_os.Base.Lists.{length, set, length-set, get_or}
use radpx_os.Base.Scan.{find_index, get_or-set, find_index-set, find_index-fresh}

pub some-same : (m n : ℕ) → some m ≡ some n → m ≡ n
some-same m n e = cc

-- `has k x` says that `x` is in use and has the key `k`.
module _ {A K : Type 0} (d : A) (in_use : A → Bool) (key : A → K) (has : K → A → Bool)
    (has-key : (k : K) (x : A) → has k x ≡ true → (in_use x ≡ true) × (key x ≡ k))
    (has_self : (x : A) → in_use x ≡ true → has (key x) x ≡ true) where
  -- A search for the key of an entry in use finds that entry.
  abbrev pub AllKeyed : List A → Type 0
  AllKeyed xs =
      (i : ℕ)
      → i < length xs
      → in_use (get_or xs i d) ≡ true
      → find_index (has (key (get_or xs i d))) xs ≡ some i

  -- An entry does not have the key of another.
  pub not-keyed :
      (xs : List A) (i j : ℕ) (k : K)
      → AllKeyed xs
      → i < length xs
      → i ≢ j
      → find_index (has k) xs ≡ some j
      → has k (get_or xs i d) ≡ false
  not-keyed xs i j k all inside other found = elim (Bool-cases (has k (get_or xs i d))) [
    | inr differs ↦ differs
    | inl agrees ↦
        let (used, same) = has-key k (get_or xs i d) agrees in
        let here : find_index (has k) xs ≡ some i =
          ap (λ t. find_index (has t) xs) (sym same) ∙ all i inside used in
        absurd (other (some-same i j (sym here ∙ found)))
  ]

  -- A key that no entry has is not that of an entry that is found.
  fresh-not-keyed :
      (xs : List A) (j : ℕ) (k : K) (x : A)
      → (in_use x ≡ true → find_index (has (key x)) xs ≡ none)
      → find_index (has k) xs ≡ some j
      → has k x ≡ false
  fresh-not-keyed xs j k x fresh found = elim (Bool-cases (has k x)) [
    | inr differs ↦ differs
    | inl agrees ↦
        let (used, same) = has-key k x agrees in
        let here : none ≡ some j =
          sym (fresh used) ∙ ap (λ t. find_index (has t) xs) same ∙ found in
        absurd (ground (arith, here))
  ]

  -- What is found besides the entry that changes is found still.
  pub find-set_fresh :
      (xs : List A) (i j : ℕ) (k : K) (x : A)
      → AllKeyed xs
      → i < length xs
      → (in_use x ≡ true → find_index (has (key x)) xs ≡ none)
      → i ≢ j
      → find_index (has k) xs ≡ some j
      → find_index (has k) (set xs i x) ≡ some j
  find-set_fresh xs i j k x all inside fresh other found =
      find_index-set (has k) d xs i x
        (fresh-not-keyed xs j k x fresh found ∙ sym (not-keyed xs i j k all inside other found))
      ∙ found

  -- An entry takes a key that none has, or goes out of use.
  pub set_fresh-AllKeyed :
      (xs : List A) (i : ℕ) (x : A)
      → i < length xs
      → (in_use x ≡ true → find_index (has (key x)) xs ≡ none)
      → AllKeyed xs
      → AllKeyed (set xs i x)
  set_fresh-AllKeyed xs i x inside fresh all j below used = elim (get_or-set xs i j x d inside) [
    | inl (same, e) ↦
        let used_x : in_use x ≡ true = sym (ap in_use e) ∙ used in
        ap (λ t. find_index (has (key t)) (set xs i x)) e
        ∙ find_index-fresh (has (key x)) d xs i x (fresh used_x) inside (has_self x used_x)
        ∙ ap some same
    | inr (other, e) ↦
        let used_j : in_use (get_or xs j d) ≡ true = sym (ap in_use e) ∙ used in
        let found = all j (subst (λ t. j < t) (length-set xs i x) below) used_j in
        ap (λ t. find_index (has (key t)) (set xs i x)) e
        ∙ find-set_fresh xs i j (key (get_or xs j d)) x all inside fresh other found
  ]

  -- An entry keeps its key.
  pub set_same-AllKeyed :
      (xs : List A) (i : ℕ) (x : A)
      → i < length xs
      → in_use x ≡ in_use (get_or xs i d)
      → key x ≡ key (get_or xs i d)
      → ((k : K) → has k x ≡ has k (get_or xs i d))
      → AllKeyed xs
      → AllKeyed (set xs i x)
  set_same-AllKeyed xs i x inside use_same key_same has_same all j below used =
      let kept : (k : K) → find_index (has k) (set xs i x) ≡ find_index (has k) xs =
        λ k. find_index-set (has k) d xs i x (has_same k) in
      elim (get_or-set xs i j x d inside) [
        | inl (same, e) ↦
            let used_i : in_use (get_or xs i d) ≡ true = sym use_same ∙ sym (ap in_use e) ∙ used in
            kept (key (get_or (set xs i x) j d))
            ∙ ap (λ t. find_index (has (key t)) xs) e
            ∙ ap (λ t. find_index (has t) xs) key_same
            ∙ all i inside used_i
            ∙ ap some same
        | inr (other, e) ↦
            let used_j : in_use (get_or xs j d) ≡ true = sym (ap in_use e) ∙ used in
            kept (key (get_or (set xs i x) j d))
            ∙ ap (λ t. find_index (has (key t)) xs) e
            ∙ all j (subst (λ t. j < t) (length-set xs i x) below) used_j
      ]
