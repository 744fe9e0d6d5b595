-- ===== src/Descriptors/References/Table.antt =====
-- Counting the records of a descriptor table (RADKernel/core/RADKernel_runtime.cpp) that name an owner,
-- across a write and across a change of owner.
use radpx_os.Base.{
  ℕ, zero, suc, ◌+◌, ◌≤◌, ◌<◌, ◌≡◌, refl, inl, inr, Bool, true, false, none, some, List, [], ◌∷◌,
  map, arith, ◌==◌, if◌then◌else◌, Bool-cases, length, set, get_or, find_index, count,
  find_index-lt, find_index-holds, count_pos, find_index_total_of_count, get_or-set,
}
use radpx_os.Base.Int.{pos, eq_ℤ-sound}
use radpx_os.Kernel.{FdRecord, zero_fd}
use radpx_os.Descriptors.{owned_by, reown, find_other}

abbrev pub at : List FdRecord → ℕ → FdRecord
at fds i = get_or fds i zero_fd

-- Every record in use names an owner that is in use and owns itself, and an owner's count is the
-- number of records that name it.
pub record Counted (fds : List FdRecord) : Type 0 where
  pub owned :
      (i : ℕ)
      → (at fds i).used ≡ true
      → (o : ℕ) × (owned_by o (at fds i) ≡ true) × (owned_by o (at fds o) ≡ true)
  pub counted : (i : ℕ) → owned_by i (at fds i) ≡ true → (at fds i).refs ≡ count (owned_by i) fds

-- A slot in use is a slot of the table.
pub used-lt : (fds : List FdRecord) (i : ℕ) → (at fds i).used ≡ true → i < length fds
used-lt [] i h = cc
used-lt (r ∷ rs) zero h = omega arith
used-lt (r ∷ rs) (suc i) h = omega (arith, used-lt rs i h)

pub at-set :
    (fds : List FdRecord) (i j : ℕ) (r : FdRecord)
    → i < length fds
    → at (set fds i r) j ≡ (if i == j then r else at fds j)
at-set fds i j r lt = ground (arith, get_or-set fds i j r zero_fd lt)

pub owned_by-owner :
    (o : ℕ) (r : FdRecord) → owned_by o r ≡ true → (r.used ≡ true) × (r.owner_fd ≡ pos o)
owned_by-owner o r h = ground (arith, eq_ℤ-sound r.owner_fd (pos o))

pub owned_by_unique : (i o : ℕ) (r : FdRecord) → owned_by i r ≡ true → owned_by o r ≡ true → i ≡ o
owned_by_unique i o r h g = ground (arith, owned_by-owner i r h, owned_by-owner o r g)

pub at-map-reown :
    (fd promoted : ℕ) (fds : List FdRecord) (i : ℕ)
    → at (map (reown fd promoted) fds) i ≡ reown fd promoted (at fds i)
at-map-reown fd promoted [] i = refl
at-map-reown fd promoted (r ∷ rs) zero = refl
at-map-reown fd promoted (r ∷ rs) (suc i) = at-map-reown fd promoted rs i

-- The records that named the old owner name the new one.
pub count-reown_new :
    (fd promoted : ℕ) (fds : List FdRecord)
    → ¬ (fd ≡ promoted)
    → count (owned_by promoted) (map (reown fd promoted) fds)
      ≡ count (owned_by promoted) fds + count (owned_by fd) fds
unfolding count
count-reown_new fd promoted [] ne = omega arith
count-reown_new fd promoted (r ∷ rs) ne = ground (arith, count-reown_new fd promoted rs ne)

pub count-reown_other :
    (fd promoted i : ℕ) (fds : List FdRecord)
    → ¬ (i ≡ promoted)
    → ¬ (i ≡ fd)
    → count (owned_by i) (map (reown fd promoted) fds) ≡ count (owned_by i) fds
unfolding count
count-reown_other fd promoted i [] p q = refl
count-reown_other fd promoted i (r ∷ rs) p q =
    ground (arith, count-reown_other fd promoted i rs p q)

module _ {ℓ} {A : Type ℓ} (p : A → Bool) (d : A) where
  pub count_two :
      (xs : List A) (i j : ℕ)
      → i < length xs
      → j < length xs
      → ¬ (i ≡ j)
      → p (get_or xs i d) ≡ true
      → p (get_or xs j d) ≡ true
      → 2 ≤ count p xs
  unfolding count
  count_two [] i j hi hj ne pi pj = absurd (omega arith)
  count_two (x ∷ xs) zero zero hi hj ne pi pj = absurd (ne refl)
  count_two (x ∷ xs) zero (suc j) hi hj ne pi pj =
      ground (arith, count_pos p d xs j (omega arith) pj)
  count_two (x ∷ xs) (suc i) zero hi hj ne pi pj =
      ground (arith, count_pos p d xs i (omega arith) pi)
  count_two (x ∷ xs) (suc i) (suc j) hi hj ne pi pj =
      omega (arith, count_two xs i j (omega arith) (omega arith) (λ e. ne (omega arith)) pi pj)

  pub count_zero :
      (xs : List A) → ((i : ℕ) → i < length xs → p (get_or xs i d) ≡ false) → count p xs ≡ 0
  unfolding count
  count_zero [] h = refl
  count_zero (x ∷ xs) h =
      ground (arith, h 0 (omega arith), count_zero xs (λ i lt. h (suc i) (omega arith)))

  pub count_zero_of_none : (xs : List A) → find_index p xs ≡ none → count p xs ≡ 0
  unfolding count find_index
  count_zero_of_none [] h = refl
  count_zero_of_none (x ∷ xs) h = ground (arith, count_zero_of_none xs)

  -- With two entries that pass there is another one than any given one.
  pub find_other-total :
      (xs : List A) (skip : ℕ) → 2 ≤ count p xs → (i : ℕ) × (find_other p xs skip ≡ some i)
  unfolding find_other count
  find_other-total [] skip h = absurd (omega arith)
  find_other-total (x ∷ xs) zero h =
      let (i, e) = find_index_total_of_count p xs (ground arith) in (suc i, rw (e, find_other))
  find_other-total (x ∷ xs) (suc skip) h = elim (Bool-cases (p x)) [
    | inl e ↦ (0, ground arith)
    | inr e ↦ let (i, f) = find_other-total xs skip (ground arith) in (suc i, ground arith)
  ]

  pub find_other-holds :
      (xs : List A) (skip i : ℕ)
      → find_other p xs skip ≡ some i
      → (p (get_or xs i d) ≡ true) × (i < length xs) × (¬ (i ≡ skip))
  unfolding find_other
  find_other-holds [] skip i h = absurd (cc)
  find_other-holds (x ∷ xs) zero zero h = absurd (ground arith)
  find_other-holds (x ∷ xs) zero (suc i) h =
      let e : find_index p xs ≡ some i = ground arith in
      (find_index-holds p d xs i e, omega (arith, find_index-lt p xs i e), omega arith)
  find_other-holds (x ∷ xs) (suc skip) zero h = (ground arith, omega arith, omega arith)
  find_other-holds (x ∷ xs) (suc skip) (suc i) h =
      let e : find_other p xs skip ≡ some i = ground arith in
      let (a, b, c) = find_other-holds xs skip i e in (a, omega arith, λ q. c (omega arith))
