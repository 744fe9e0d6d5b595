-- ===== src/Descriptors/References/Closing.antt =====
-- `close_fd_index` of RADKernel/core/RADKernel_runtime.cpp keeps the reference counts right.
use radpx_os.Base.{
  ℕ, ◌+◌, ◌-◌, ◌≤◌, ◌<◌, ◌≡◌, sym, ap, ◌∙◌, ◌⊎◌, inl, inr, true, false, ◌&&◌, some, List, arith,
  ltb, ◌==◌, Bool-cases, length, set, length-set, bit, count, count-set, get_or-set, get_or-set_ne,
}
use radpx_os.Kernel.{Kernel, FdRecord, zero_fd}
use radpx_os.Descriptors.{owned_by, find_other, close_fd_index}
use radpx_os.Descriptors.References.Table.{
  at, Counted, used-lt, owned_by-owner, owned_by_unique, count_two, find_other-total,
  find_other-holds,
}
use radpx_os.Descriptors.References.Promoting.{promoted, promoted-Counted}

module _ (fds : List FdRecord) (c : Counted fds) where
  -- A record with one reference is nobody else's owner, so its slot can be cleared.
  pub clear-Counted :
      (fd : ℕ)
      → owned_by fd (at fds fd) ≡ true
      → count (owned_by fd) fds ≤ 1
      → Counted (set fds fd zero_fd)
  clear-Counted fd mine single = record { owned = still_owned; counted = still_counted }
    where
      lt : fd < length fds
      lt = used-lt fds fd (owned_by-owner fd (at fds fd) mine).0

      others : (i : ℕ) → owned_by fd (at fds i) ≡ true → i ≡ fd
      others i h = elim (Bool-cases (i == fd)) [
        | inl e ↦ ground arith
        | inr e ↦ absurd (
            omega (
              arith,
              count_two (owned_by fd) zero_fd fds i fd
                  (used-lt fds i (owned_by-owner fd (at fds i) h).0) lt (ground arith) h mine,
            ))
      ]

      still_owned :
          (i : ℕ)
          → (at (set fds fd zero_fd) i).used ≡ true
          → (o : ℕ) × (owned_by o (at (set fds fd zero_fd) i) ≡ true)
            × (owned_by o (at (set fds fd zero_fd) o) ≡ true)
      still_owned i = elim (get_or-set fds fd i zero_fd zero_fd lt) [
        | inl (e, f) ↦ rw f (λ h. cc)
        | inr (e, f) ↦ rw f (λ h.
            let (o, a, b) = c.owned i h in
            let apart : ¬ (fd ≡ o) = λ q. e (sym (others i (rw q a))) in
            (o, a, rw (get_or-set_ne fds fd o zero_fd zero_fd apart) b))
      ]

      still_counted :
          (i : ℕ)
          → owned_by i (at (set fds fd zero_fd) i) ≡ true
          → (at (set fds fd zero_fd) i).refs ≡ count (owned_by i) (set fds fd zero_fd)
      still_counted i = elim (get_or-set fds fd i zero_fd zero_fd lt) [
        | inl (e, f) ↦ rw f (λ h. cc)
        | inr (e, f) ↦ rw f (λ h. ground (
          arith,
          c.counted i h,
          count-set (owned_by i) zero_fd fds fd zero_fd lt,
          owned_by_unique fd i (at fds fd) mine,
        ))
      ]

  module _ (fd o : ℕ) (theirs : owned_by o (at fds fd) ≡ true) (apart : ¬ (fd ≡ o)) where
    one_less : FdRecord
    one_less = record (at fds o) { refs = (at fds o).refs - 1 }

    pub dropped : List FdRecord
    dropped = set (set fds o one_less) fd zero_fd

    owner_owns : owned_by o (at fds o) ≡ true
    owner_owns =
        let (o', a, b) = c.owned fd (owned_by-owner o (at fds fd) theirs).0 in
        rw (owned_by_unique o o' (at fds fd) theirs a) b

    lt_fd : fd < length fds
    lt_fd = used-lt fds fd (owned_by-owner o (at fds fd) theirs).0

    lt_o : o < length fds
    lt_o = used-lt fds o (owned_by-owner o (at fds o) owner_owns).0

    -- The three kinds of slot.
    dropped_cases :
        (i : ℕ)
        → ((i ≡ fd) × (at dropped i ≡ zero_fd))
          ⊎ ((i ≡ o) × (at dropped i ≡ one_less))
          ⊎ ((¬ (i ≡ fd)) × (¬ (i ≡ o)) × (at dropped i ≡ at fds i))
    unfolding dropped
    dropped_cases i =
        elim (get_or-set (set fds o one_less) fd i zero_fd zero_fd
          (rw (length-set fds o one_less) lt_fd)) [
            | inl (e, f) ↦ inl (sym e, f)
            | inr (e, f) ↦ elim (get_or-set fds o i one_less zero_fd lt_o) [
              | inl (e', f') ↦ inr (inl (sym e', f ∙ f'))
              | inr (e', f') ↦ inr (inr ((λ q. e (sym q)), (λ q. e' (sym q)), f ∙ f'))
            ]
          ]

    count-dropped :
        (i : ℕ) → count (owned_by i) dropped + bit (owned_by i (at fds fd)) ≡ count (owned_by i) fds
    unfolding dropped one_less
    count-dropped i = omega (
      arith,
      count-set (owned_by i) zero_fd fds o one_less lt_o,
      count-set (owned_by i) zero_fd (set fds o one_less) fd zero_fd
          (rw (length-set fds o one_less) lt_fd),
      ap (λ r. bit (owned_by i r)) (get_or-set_ne fds o fd one_less zero_fd (λ q. apart (sym q))),
    )

    two : 2 ≤ count (owned_by o) fds
    two = count_two (owned_by o) zero_fd fds fd o lt_fd lt_o apart theirs owner_owns

    dropped_keeps : (i x : ℕ) → ¬ (i ≡ fd) → owned_by x (at dropped i) ≡ owned_by x (at fds i)
    unfolding one_less
    dropped_keeps i x ne = elim (dropped_cases i) [
      | inl (e, f) ↦ absurd (ne e)
      | inr (inl (e, f)) ↦ rw (f, e)
      | inr (inr (e, e', f)) ↦ rw f
    ]

    dropped_used : (i : ℕ) → (at dropped i).used ≡ true → (¬ (i ≡ fd)) × ((at fds i).used ≡ true)
    unfolding one_less
    dropped_used i = elim (dropped_cases i) [
      | inl (e, f) ↦ rw f (λ h. cc)
      | inr (inl (e, f)) ↦ rw (f, e) (λ h. ((λ q. apart (sym q)), h))
      | inr (inr (e, e', f)) ↦ rw f (λ h. (e, h))
    ]

    refs_at_owner : (i : ℕ) → i ≡ o → one_less.refs ≡ count (owned_by i) dropped
    unfolding one_less
    refs_at_owner i e =
        rw e (omega (arith, c.counted o owner_owns, count-dropped o, two, ap bit theirs))

    count_elsewhere : (i : ℕ) → ¬ (i ≡ o) → count (owned_by i) dropped ≡ count (owned_by i) fds
    count_elsewhere i ne = elim (Bool-cases (owned_by i (at fds fd))) [
      | inl e ↦ absurd (ne (owned_by_unique i o (at fds fd) e theirs))
      | inr e ↦ omega (arith, count-dropped i, ap bit e)
    ]

    pub dropped-Counted : Counted dropped
    unfolding one_less
    dropped-Counted = record {
      owned = λ i h.
          let (ne, u) = dropped_used i h in
          let (x, a, b) = c.owned i u in
          let ne' : ¬ (x ≡ fd) =
            λ q. apart (sym (owned_by_unique o fd (at fds fd) theirs (rw q at b))) in
          (x, dropped_keeps i x ne ∙ a, dropped_keeps x x ne' ∙ b);
      counted = λ i h.
          let (ne, u) = dropped_used i (owned_by-owner i (at dropped i) h).0 in
          let mine : owned_by i (at fds i) ≡ true = sym (dropped_keeps i i ne) ∙ h in
          elim (dropped_cases i) [
            | inl (e, f) ↦ absurd (ne e)
            | inr (inl (e, f)) ↦ ap (λ (r : FdRecord). r.refs) f ∙ refs_at_owner i e
            | inr (inr (e, e', f)) ↦
                ap (λ (r : FdRecord). r.refs) f ∙ c.counted i mine ∙ sym (count_elsewhere i e')
          ];
    }

-- What closing does to the table, in each case.
close_dead :
    (k : Kernel) (fd : ℕ)
    → ltb fd (length k.fds) && (at k.fds fd).used ≡ false
    → (close_fd_index k fd).fds ≡ k.fds
unfolding close_fd_index
close_dead k fd h = ground arith

close_other :
    (k : Kernel) (fd o : ℕ) (c : Counted k.fds) (theirs : owned_by o (at k.fds fd) ≡ true)
    (apart : ¬ (fd ≡ o))
    → (close_fd_index k fd).fds ≡ dropped k.fds c fd o theirs apart
unfolding close_fd_index dropped one_less
close_other k fd o c theirs apart = ground (
  arith,
  used-lt k.fds fd,
  owned_by-owner o (at k.fds fd) theirs,
  used-lt k.fds o,
  owned_by-owner o (at k.fds o) (owner_owns k.fds c fd o theirs apart),
  two k.fds c fd o theirs apart,
  c.counted o (owner_owns k.fds c fd o theirs apart),
)

close_last :
    (k : Kernel) (fd : ℕ)
    → owned_by fd (at k.fds fd) ≡ true
    → (at k.fds fd).refs ≤ 1
    → (close_fd_index k fd).fds ≡ set k.fds fd zero_fd
unfolding close_fd_index
close_last k fd mine single = ground (arith, used-lt k.fds fd, owned_by-owner fd (at k.fds fd) mine)

close_owner :
    (k : Kernel) (fd p : ℕ) (c : Counted k.fds) (mine : owned_by fd (at k.fds fd) ≡ true)
    (theirs : owned_by fd (at k.fds p) ≡ true) (apart : ¬ (p ≡ fd))
    → 1 < (at k.fds fd).refs
    → find_other (owned_by fd) k.fds fd ≡ some p
    → (close_fd_index k fd).fds ≡ promoted k.fds c fd p mine theirs apart
unfolding close_fd_index promoted
close_owner k fd p c mine theirs apart many found =
    ground (arith, used-lt k.fds fd, owned_by-owner fd (at k.fds fd) mine)

close_own-Counted :
    (k : Kernel) (fd : ℕ)
    → Counted k.fds
    → owned_by fd (at k.fds fd) ≡ true
    → Counted (close_fd_index k fd).fds
close_own-Counted k fd c mine = elim (Bool-cases (ltb 1 (at k.fds fd).refs)) [
  | inr few ↦
      rw (close_last k fd mine (ground arith))
        (clear-Counted k.fds c fd mine (ground (arith, c.counted fd mine)))
  | inl many ↦
      let (p, found) =
        find_other-total (owned_by fd) zero_fd k.fds fd (ground (arith, c.counted fd mine)) in
      let (theirs, lt, apart) = find_other-holds (owned_by fd) zero_fd k.fds fd p found in
      rw (close_owner k fd p c mine theirs apart (ground arith) found)
        (promoted-Counted k.fds c fd p mine theirs apart)
]

-- Closing any slot of a table whose counts are right leaves them right, whether the record shares
-- an owner, is an owner that hands its count on, or is the last one of its object.
pub close_fd_index-Counted :
    (k : Kernel) (fd : ℕ) → Counted k.fds → Counted (close_fd_index k fd).fds
close_fd_index-Counted k fd c = elim (Bool-cases (ltb fd (length k.fds) && (at k.fds fd).used)) [
  | inr out ↦ rw (close_dead k fd out) c
  | inl live ↦
      let (o, a, b) = c.owned fd (ground arith) in
      elim (Bool-cases (fd == o)) [
        | inl own ↦ let e : fd ≡ o = ground arith in close_own-Counted k fd c (rw (← e) at a)
        | inr theirs ↦
            let apart : ¬ (fd ≡ o) = ground arith in
            rw (close_other k fd o c a apart) (dropped-Counted k.fds c fd o a apart)
      ]
]
