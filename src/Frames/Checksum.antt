-- ===== src/Frames/Checksum.antt =====
-- The checksum of RADKernel/core/RADKernel_runtime.cpp.
use radpx_os.Base.{
  ℕ, zero, suc, ◌+◌, ◌-◌, ◌*◌, ◌%◌, ◌^◌, ◌<◌, ◌≡◌, ap, ◌∙◌, List, [], ◌∷◌, ◌++◌, arith, length,
}
use radpx_os.Frames.{write_be16, sum_words, fold_carries, ipv4_checksum}

-- Two rounds leave no carry.
fold_carries-lt : (sum : ℕ) → sum < 2 ^ 32 → fold_carries 2 sum < 2 ^ 16
unfolding fold_carries
fold_carries-lt sum small = ground arith

-- A sum with the complement of its folded value folds to all ones.
fold_complement :
    (sum : ℕ)
    → sum + 2 ^ 16 < 2 ^ 32
    → fold_carries 2 (sum + (2 ^ 16 - 1 - fold_carries 2 sum % 2 ^ 16)) ≡ 2 ^ 16 - 1
unfolding fold_carries
fold_complement sum small = ground arith

sum_words-append :
    (n : ℕ) (front back : List ℕ)
    → length front ≡ 2 * n
    → sum_words (front ++ back) ≡ sum_words front + sum_words back
unfolding sum_words
sum_words-append n [] back even = omega arith
sum_words-append n (a ∷ []) back even = absurd (omega arith)
sum_words-append zero (a ∷ b ∷ front) back even = absurd (omega arith)
sum_words-append (suc n) (a ∷ b ∷ front) back even =
    omega (arith, sum_words-append n front back (omega arith))

-- The checksum of bytes whose words have a sum of 32 bits.
checksum_of_sum :
    (bs : List ℕ) (sum : ℕ)
    → sum_words bs ≡ sum
    → sum < 2 ^ 32
    → ipv4_checksum bs ≡ (2 ^ 16 - 1) - fold_carries 2 sum % 2 ^ 16
unfolding ipv4_checksum
checksum_of_sum bs sum e small =
    let whole : sum_words bs % 2 ^ 32 ≡ sum = omega (arith, e) in
    ap (λ t. (2 ^ 16 - 1) - fold_carries 2 t % 2 ^ 16) whole

sum_words-write_be16 :
    (n : ℕ) (back : List ℕ) → n < 2 ^ 16 → sum_words (write_be16 n ++ back) ≡ n + sum_words back
unfolding sum_words write_be16
sum_words-write_be16 n back small = omega arith

-- A header with the checksum of the header written in place of a field of two zero bytes at an even
-- offset has the checksum zero, the one that is accepted, if the sum of its words leaves room for the
-- field in 32 bits.
pub checksum-write_be16 :
    (n : ℕ) (front back : List ℕ)
    → length front ≡ 2 * n
    → sum_words front + sum_words back + 2 ^ 16 < 2 ^ 32
    → ipv4_checksum (front ++ (write_be16 (ipv4_checksum (front ++ 0 ∷ 0 ∷ back)) ++ back)) ≡ 0
unfolding sum_words
checksum-write_be16 n front back even small =
    let c = ipv4_checksum (front ++ 0 ∷ 0 ∷ back) in
    let sum = sum_words front + sum_words back in
    let blank : sum_words (front ++ 0 ∷ 0 ∷ back) ≡ sum =
      omega (arith, sum_words-append n front (0 ∷ 0 ∷ back) even) in
    let value_c : c ≡ (2 ^ 16 - 1) - fold_carries 2 sum % 2 ^ 16 =
      checksum_of_sum (front ++ 0 ∷ 0 ∷ back) sum blank (omega arith) in
    let field : sum_words (write_be16 c ++ back) ≡ c + sum_words back =
      sum_words-write_be16 c back (omega (arith, value_c)) in
    let split : sum_words (front ++ (write_be16 c ++ back))
        ≡ sum_words front + sum_words (write_be16 c ++ back) =
      sum_words-append n front (write_be16 c ++ back) even in
    let filled : sum_words (front ++ (write_be16 c ++ back))
        ≡ sum + ((2 ^ 16 - 1) - fold_carries 2 sum % 2 ^ 16) =
      omega (arith, value_c, split, field) in
    checksum_of_sum (front ++ (write_be16 c ++ back))
      (sum + ((2 ^ 16 - 1) - fold_carries 2 sum % 2 ^ 16)) filled (omega arith)
    ∙ ap (λ t. (2 ^ 16 - 1) - t % 2 ^ 16) (fold_complement sum small)
