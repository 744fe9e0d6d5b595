-- ===== src/Tasks/Fairness.antt =====
-- The order in which run_one_task_on_core of RADKernel/core/RADKernel_runtime.cpp takes its turns.
use radpx_os.Base.{
  ℕ, suc, ◌+◌, ◌-◌, ◌%◌, ◌≤◌, ◌<◌, ◌≡◌, ap, ◌∙◌, inl, inr, Bool, true, Option, some, List, [], ◌∷◌,
  arith, ltb, leb, ltb→lt, leb→le, Bool-cases, length, get_elem?, get_or, get_or-set_self,
}
use mathlib.Core.Path.{subst}
use native.Mathlib.Nat.{mod-add-mod, mod-eq_of_lt, mod-lt, add-mod_right}
use radpx_os.Tasks.{Scheduler, task_at, task_matches_core, choose_slot, choose_task, start_of}
use radpx_os.Tasks.Choosing.{pick-reaches}

abbrev pub fits_core : ℕ → Scheduler → ℕ → ℕ → Bool
fits_core now s core i = task_matches_core s.worker_running_mask now core (task_at s i)

abbrev pub last_index : Scheduler → ℕ → ℕ
last_index s core = get_or s.last_task_index core 0

-- States at which a core chooses, one after the other: each starts where the one before it stopped, and
-- at each the task in slot `j` fits the core.
abbrev pub Waits : ℕ → ℕ → ℕ → ℕ → List (ℕ × Scheduler) → Type 0
Waits core capacity j last [] = Unit
Waits core capacity j last ((now, s) ∷ views) =
    (length s.tasks ≡ capacity)
    × (core < length s.last_task_index)
    × (last_index s core ≡ last)
    × (fits_core now s core j ≡ true)
    × Waits core capacity j (last_index (choose_task now s core).1 core) views

abbrev pub choices : ℕ → List (ℕ × Scheduler) → List (Option ℕ)
choices core [] = []
choices core ((now, s) ∷ views) = choose_slot now s core ∷ choices core views

-- From slot `i`, the slot that was `n` on from the slot after `last` is so much nearer.
nearer :
    (capacity start n m j : ℕ)
    → 0 < capacity
    → m < n
    → (start + n) % capacity ≡ j
    → (((start + m) % capacity + 1) % capacity + (n - m - 1)) % capacity ≡ j
nearer capacity start n m j some_slot before here =
    mod-add-mod ((start + m) % capacity + 1) capacity (n - m - 1)
    ∙ ap (λ t. t % capacity) (regroup ((start + m) % capacity) (n - m - 1))
    ∙ mod-add-mod (start + m) capacity (1 + (n - m - 1))
    ∙ ap (λ t. t % capacity) whole
    ∙ here
  where
    regroup : (a k : ℕ) → a + 1 + k ≡ a + (1 + k)
    regroup a k = omega arith

    whole : start + m + (1 + (n - m - 1)) ≡ start + n
    whole = omega arith

-- One choice, at most `n` on from where the scan starts, and where the next scan starts from.
choice_near :
    (now : ℕ) (s : Scheduler) (core n : ℕ)
    → core < length s.last_task_index
    → n < length s.tasks
    → fits_core now s core ((start_of s core + n) % length s.tasks) ≡ true
    → (m : ℕ) × (m ≤ n)
      × (choose_slot now s core ≡ some ((start_of s core + m) % length s.tasks))
      × (last_index (choose_task now s core).1 core ≡ (start_of s core + m) % length s.tasks)
unfolding choose_slot choose_task
choice_near now s core n on_core near fitting =
    let slot : ℕ → ℕ = λ t. (start_of s core + t) % length s.tasks in
    let at_zero : 0 + n ≡ n = omega arith in
    let (m, within, picks) =
      pick-reaches (fits_core now s core) (length s.tasks) (start_of s core) 0 (length s.tasks) n
        near (ap (λ t. fits_core now s core (slot t)) at_zero ∙ fitting) in
    let from_zero : 0 + m ≡ m = omega arith in
    let chosen : choose_slot now s core ≡ some (slot m) =
      picks ∙ ap (λ t. some (slot t)) from_zero in
    (
      m,
      within,
      chosen,
      rw (choose_task, chosen) (get_or-set_self s.last_task_index core (slot m) 0 on_core),
    )

-- With the slot `n` on from where the scan starts, it is chosen after at most `n` other choices.
chosen_within :
    (core capacity j last n : ℕ) (views : List (ℕ × Scheduler))
    → 0 < capacity
    → n < capacity
    → ((last + 1) % capacity + n) % capacity ≡ j
    → n < length views
    → Waits core capacity j last views
    → (k : ℕ) × (k ≤ n) × (get_elem? (choices core views) k ≡ some (some j))
chosen_within core capacity j last n [] some_slot near here long waits = absurd (omega arith)
chosen_within core capacity j last n ((now, s) ∷ views) some_slot near here long
      (sized, on_core, from, fitting, waits) =
    let starts : start_of s core ≡ (last + 1) % capacity =
      ap (λ t. (t + 1) % length s.tasks) from ∙ ap (λ t. (last + 1) % t) sized in
    let slot : (start_of s core + n) % length s.tasks ≡ j =
      ap (λ t. (t + n) % length s.tasks) starts
      ∙ ap (λ t. ((last + 1) % capacity + n) % t) sized
      ∙ here in
    let (m, within, chosen, next) =
      choice_near now s core n on_core (omega arith) (ap (fits_core now s core) slot ∙ fitting) in
    elim (Bool-cases (ltb m n)) [
      | inr last_one ↦
          let same : m ≡ n = ground (arith, within, last_one) in
          (
            0,
            omega arith,
            ap some (
                chosen
                ∙ ap (λ t. some ((start_of s core + t) % length s.tasks)) same
                ∙ ap some slot),
          )
      | inl before ↦
          let i = (start_of s core + m) % length s.tasks in
          let less : m < n = ltb→lt m n before in
          let sized_slot : i ≡ ((last + 1) % capacity + m) % capacity =
            ap (λ t. (t + m) % length s.tasks) starts
            ∙ ap (λ t. ((last + 1) % capacity + m) % t) sized in
          let again = nearer capacity ((last + 1) % capacity) n m j some_slot less here in
          let from_there : ((i + 1) % capacity + (n - m - 1)) % capacity ≡ j =
            ap (λ t. ((t + 1) % capacity + (n - m - 1)) % capacity) sized_slot ∙ again in
          let on = subst (λ t. Waits core capacity j t views) next waits in
          let (k, few, found) =
            chosen_within core capacity j i (n - m - 1) views some_slot (omega arith) from_there
              (omega (arith, less, long)) on in
          (suc k, omega (arith, few, less), found)
    ]

-- How far slot `j` is from slot `start`, going round.
distance :
    (capacity start j : ℕ)
    → start < capacity
    → j < capacity
    → (n : ℕ) × (n < capacity) × ((start + n) % capacity ≡ j)
distance capacity start j inside reach = elim (Bool-cases (leb start j)) [
  | inl ahead ↦
      let le = leb→le start j ahead in
      let there : start + (j - start) ≡ j = omega (arith, le) in
      (
        j - start,
        omega (arith, reach),
        ap (λ t. t % capacity) there ∙ mod-eq_of_lt {n = j} {m = capacity} reach,
      )
  | inr behind ↦
      let lt : j < start = ground (arith, behind) in
      let there : start + (capacity + j - start) ≡ j + capacity = omega (arith, inside) in
      (
        capacity + j - start,
        omega (arith, lt),
        ap (λ t. t % capacity) there
            ∙ add-mod_right j capacity
            ∙ mod-eq_of_lt {n = j} {m = capacity} reach,
      )
]

-- No task starves: when a core chooses as many times as the table has slots, each time from where
-- it stopped before, whatever happens to the table in between, a task that fits the core each time
-- it chooses is among those chosen.
pub Waits-chosen :
    (core capacity j last : ℕ) (views : List (ℕ × Scheduler))
    → j < capacity
    → capacity ≤ length views
    → Waits core capacity j last views
    → (k : ℕ) × (k < capacity) × (get_elem? (choices core views) k ≡ some (some j))
Waits-chosen core capacity j last views inside long waits =
    let (n, near, here) =
      distance capacity ((last + 1) % capacity) j (mod-lt (last + 1) (omega (arith, inside)))
        inside in
    let (k, few, found) =
      chosen_within core capacity j last n views (omega (arith, inside)) near here
        (omega (arith, near, long)) waits in
    (k, omega (arith, few, near), found)
