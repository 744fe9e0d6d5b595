-- ===== src/Descriptors/References/Promoting.antt =====
-- `close_fd_index` of RADKernel/core/RADKernel_runtime.cpp hands an owner's count on to another record.
use radpx_os.Base.{
  ℕ, ◌+◌, ◌-◌, ◌<◌, ◌≡◌, sym, ap, ◌∙◌, ◌⊎◌, inl, inr, true, false, List, map, arith, ◌==◌,
  Bool-cases, length, set, length-set, length-map, bit, count, count-set, get_or-set,
  get_or-set_self, get_or-set_ne,
}
use radpx_os.Base.Int.{pos}
use radpx_os.Kernel.{FdRecord, zero_fd}
use radpx_os.Descriptors.{owned_by, reown}
use radpx_os.Descriptors.References.Table.{
  at, Counted, used-lt, owned_by-owner, owned_by_unique, at-map-reown, count-reown_new,
  count-reown_other, count_zero,
}

module _ (fds : List FdRecord) (c : Counted fds) (fd p : ℕ) (mine : owned_by fd (at fds fd) ≡ true)
    (theirs : owned_by fd (at fds p) ≡ true) (apart : ¬ (p ≡ fd)) where
  chosen : FdRecord
  chosen = record (at fds p) { owner_fd = pos p; refs = (at fds fd).refs - 1 }

  mapped : List FdRecord
  mapped = map (reown fd p) (set fds p chosen)

  unfoldable pub promoted : List FdRecord
  unfolding mapped chosen
  promoted = set mapped fd zero_fd

  lt_fd : fd < length fds
  lt_fd = used-lt fds fd (owned_by-owner fd (at fds fd) mine).0

  lt_p : p < length fds
  lt_p = used-lt fds p (owned_by-owner fd (at fds p) theirs).0

  length-mapped : length mapped ≡ length fds
  unfolding mapped
  length-mapped = length-map (set fds p chosen) (reown fd p) ∙ length-set fds p chosen

  nobody : (i : ℕ) → owned_by p (at fds i) ≡ false
  nobody i = elim (Bool-cases (owned_by p (at fds i))) [
    | inl e ↦
        let (x, a, b) = c.owned i (owned_by-owner p (at fds i) e).0 in
        let own : owned_by p (at fds p) ≡ true = rw (owned_by_unique p x (at fds i) e a) b in
        absurd (apart (owned_by_unique p fd (at fds p) own theirs))
    | inr e ↦ e
  ]

  chosen-owned_by : (x : ℕ) → owned_by x chosen ≡ (p == x)
  unfolding chosen
  chosen-owned_by x = ground (arith, owned_by-owner fd (at fds p) theirs)

  at-mapped : (i : ℕ) → ¬ (i ≡ p) → at mapped i ≡ reown fd p (at fds i)
  unfolding mapped
  at-mapped i ne =
      at-map-reown fd p (set fds p chosen) i
      ∙ ap (reown fd p) (get_or-set_ne fds p i chosen zero_fd (λ q. ne (sym q)))

  at-mapped-chosen : at mapped p ≡ chosen
  unfolding mapped
  at-mapped-chosen =
      at-map-reown fd p (set fds p chosen) p
      ∙ ap (reown fd p) (get_or-set_self fds p chosen zero_fd lt_p)
      ∙ ground (arith, chosen-owned_by fd)

  promoted_cases :
      (i : ℕ)
      → ((i ≡ fd) × (at promoted i ≡ zero_fd))
        ⊎ ((¬ (i ≡ fd)) × (i ≡ p) × (at promoted i ≡ chosen))
        ⊎ ((¬ (i ≡ fd)) × (¬ (i ≡ p)) × (at promoted i ≡ reown fd p (at fds i)))
  unfolding promoted
  promoted_cases i = elim (get_or-set mapped fd i zero_fd zero_fd (rw length-mapped lt_fd)) [
    | inl (e, f) ↦ inl (sym e, f)
    | inr (e, f) ↦ elim (Bool-cases (i == p)) [
      | inl q ↦
          let q' : i ≡ p = ground arith in
          inr (inl ((λ r. e (sym r)), q', f ∙ rw q' at-mapped-chosen))
      | inr q ↦
          let q' : ¬ (i ≡ p) = ground arith in inr (inr ((λ r. e (sym r)), q', f ∙ at-mapped i q'))
    ]
  ]

  promoted_used : (i : ℕ) → (at promoted i).used ≡ true → (¬ (i ≡ fd)) × ((at fds i).used ≡ true)
  promoted_used i = elim (promoted_cases i) [
    | inl (e, f) ↦ rw f (λ h. cc)
    | inr (inl (e, q, f)) ↦ λ h. (e, rw q (owned_by-owner fd (at fds p) theirs).0)
    | inr (inr (e, q, f)) ↦ rw f (λ h. (e, ground arith))
  ]

  -- What the old owner owned is the new one's, and all else is as it was.
  moves : (i : ℕ) → ¬ (i ≡ fd) → owned_by fd (at fds i) ≡ true → owned_by p (at promoted i) ≡ true
  moves i ne h = elim (promoted_cases i) [
    | inl (e, f) ↦ absurd (ne e)
    | inr (inl (e, q, f)) ↦ rw f (chosen-owned_by p ∙ ground arith)
    | inr (inr (e, q, f)) ↦ rw f (ground (arith, owned_by-owner fd (at fds i) h))
  ]

  stays :
      (i x : ℕ) → ¬ (i ≡ fd) → ¬ (x ≡ fd) → owned_by x (at fds i) ≡ true → at promoted i ≡ at fds i
  stays i x ne other h = elim (promoted_cases i) [
    | inl (e, f) ↦ absurd (ne e)
    | inr (inl (e, q, f)) ↦ absurd (other (owned_by_unique x fd (at fds p) (rw q at h) theirs))
    | inr (inr (e, q, f)) ↦ f ∙ ground (arith, owned_by_unique x fd (at fds i) h)
  ]

  promoted_owned :
      (i : ℕ)
      → (at promoted i).used ≡ true
      → (x : ℕ) × (owned_by x (at promoted i) ≡ true) × (owned_by x (at promoted x) ≡ true)
  promoted_owned i h =
      let (ne, u) = promoted_used i h in
      let (x, a, b) = c.owned i u in
      elim (Bool-cases (x == fd)) [
        | inl e ↦
            let e' : x ≡ fd = ground arith in (p, moves i ne (rw e' at a), moves p apart theirs)
        | inr e ↦
            let e' : ¬ (x ≡ fd) = ground arith in
            (x, ap (owned_by x) (stays i x ne e' a) ∙ a, ap (owned_by x) (stays x x e' e' b) ∙ b)
      ]

  at-mapped_fd : at mapped fd ≡ reown fd p (at fds fd)
  at-mapped_fd = at-mapped fd (λ q. apart (sym q))

  count-chosen :
      (i : ℕ)
      → count (owned_by i) (set fds p chosen) + bit (owned_by i (at fds p))
        ≡ count (owned_by i) fds + bit (p == i)
  count-chosen i =
      count-set (owned_by i) zero_fd fds p chosen lt_p
      ∙ ap (λ b. count (owned_by i) fds + bit b) (chosen-owned_by i)

  count-promoted :
      (i : ℕ)
      → count (owned_by i) promoted + bit (owned_by i (reown fd p (at fds fd)))
        ≡ count (owned_by i) mapped
  unfolding promoted
  count-promoted i = omega (
    arith,
    count-set (owned_by i) zero_fd mapped fd zero_fd (rw length-mapped lt_fd),
    ap (λ r. bit (owned_by i r)) at-mapped_fd,
  )

  refs_at_chosen : chosen.refs ≡ count (owned_by p) promoted
  unfolding chosen mapped
  refs_at_chosen = ground (
    arith,
    c.counted fd mine,
    count-promoted p,
    count-reown_new fd p (set fds p chosen) (λ q. apart (sym q)),
    count-chosen p,
    count-chosen fd,
    count_zero (owned_by p) zero_fd fds (λ i lt. nobody i),
    nobody p,
    owned_by-owner fd (at fds fd) mine,
    theirs,
  )

  count_elsewhere :
      (i : ℕ) → ¬ (i ≡ fd) → ¬ (i ≡ p) → count (owned_by i) promoted ≡ count (owned_by i) fds
  unfolding mapped
  count_elsewhere i ne ne' = ground (
    arith,
    count-promoted i,
    count-reown_other fd p i (set fds p chosen) ne' ne,
    count-chosen i,
    owned_by-owner fd (at fds fd) mine,
    owned_by_unique i fd (at fds p),
    theirs,
  )

  same_record :
      (i : ℕ)
      → ¬ (i ≡ p)
      → owned_by i (reown fd p (at fds i)) ≡ true
      → reown fd p (at fds i) ≡ at fds i
  same_record i ne h = ground arith

  promoted_counted :
      (i : ℕ)
      → owned_by i (at promoted i) ≡ true
      → (at promoted i).refs ≡ count (owned_by i) promoted
  promoted_counted i = elim (promoted_cases i) [
    | inl (e, f) ↦ rw f (λ h. cc)
    | inr (inl (e, q, f)) ↦ λ h. rw (f, q) refs_at_chosen
    | inr (inr (e, q, f)) ↦ rw f (λ h.
        let same = same_record i q h in
        rw same (c.counted i (rw same at h) ∙ sym (count_elsewhere i e q)))
  ]

  pub promoted-Counted : Counted promoted
  promoted-Counted = record { owned = promoted_owned; counted = promoted_counted }
