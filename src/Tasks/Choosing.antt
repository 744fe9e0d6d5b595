-- ===== src/Tasks/Choosing.antt =====
-- Which slot run_one_task_on_core of RADKernel/core/RADKernel_runtime.cpp chooses.
use radpx_os.Base.{
  ℕ, zero, suc, ◌+◌, ◌%◌, ◌≤◌, ◌<◌, ◌≡◌, refl, sym, ap, ◌∙◌, inl, inr, Bool, true, some, arith,
  Bool-cases,
}
use radpx_os.Tasks.{pick}

-- The scan stops at a slot that fits, or before it.
pub pick-reaches :
    (fits : ℕ → Bool) (capacity start offset left n : ℕ)
    → n < left
    → fits ((start + (offset + n)) % capacity) ≡ true
    → (m : ℕ) × (m ≤ n)
      × (pick fits capacity start offset left ≡ some ((start + (offset + m)) % capacity))
unfolding pick
pick-reaches fits capacity start offset zero n below fitting = absurd (omega arith)
pick-reaches fits capacity start offset (suc left) zero below fitting =
    let here : start + (offset + 0) ≡ start + offset = omega arith in
    let found : fits ((start + offset) % capacity) ≡ true =
      ap (λ t. fits (t % capacity)) (sym here) ∙ fitting in
    (0, omega arith, rw (pick, here, found) refl)
pick-reaches fits capacity start offset (suc left) (suc n) below fitting =
    let here : start + (offset + 0) ≡ start + offset = omega arith in
    let moved : start + (offset + suc n) ≡ start + (offset + 1 + n) = omega arith in
    let (m, within, picks) =
      pick-reaches fits capacity start (offset + 1) left n (omega arith)
        (ap (λ t. fits (t % capacity)) (sym moved) ∙ fitting) in
    let back : start + (offset + suc m) ≡ start + (offset + 1 + m) = omega arith in
    elim (Bool-cases (fits ((start + offset) % capacity))) [
      | inl found ↦ (0, omega arith, rw (pick, here, found) refl)
      | inr other ↦ (suc m, omega arith, rw (pick, other, back) picks)
    ]
