-- ===== src/Descriptors/References/Installing.antt =====
-- `install_fd_record`, `rad_fd_dup` and `rad_fd_dup2` of RADKernel/core/RADKernel_runtime.cpp and the
-- reference counts.
use radpx_os.Base.{
  ℕ, zero, suc, ◌+◌, ◌<◌, ◌≡◌, refl, sym, ap, ◌∙◌, ◌⊎◌, inl, inr, true, false, Option, none, some,
  List, [], ◌∷◌, arith, ◌==◌, Bool-cases, Option-cases, length, set, length-set, bit, find_index,
  count, find_index-lt, find_index-holds, count-set, get_or-set, get_or-set_self, get_or-set_ne,
  no_memory, value, fail,
}
use radpx_os.Base.Int.{ℤ, pos, negsuc}
use radpx_os.Kernel.{Kernel, FdRecord, zero_fd, current_process_pid}
use radpx_os.Descriptors.{owned_by, is_free, place, install_any, fd_owner_index, next_number}
use radpx_os.Descriptors.Calls.{add_reference, dup_record, my_slot, rad_fd_dup}
use radpx_os.Descriptors.References.Table.{
  at, Counted, used-lt, owned_by-owner, owned_by_unique, count_zero,
}

module _ (fds : List FdRecord) (c : Counted fds) (slot : ℕ) (lt : slot < length fds)
    (free : (at fds slot).used ≡ false) where
  -- A slot that is not in use owns nothing.
  unowned : (i : ℕ) → owned_by slot (at fds i) ≡ false
  unowned i = elim (Bool-cases (owned_by slot (at fds i))) [
    | inr e ↦ e
    | inl e ↦
        let (x, a, b) = c.owned i (owned_by-owner slot (at fds i) e).0 in
        absurd
          (ground (arith, owned_by_unique slot x (at fds i) e a, owned_by-owner x (at fds x) b))
  ]

  -- A fresh record that owns itself, counted once, can go into a free slot.
  pub fresh-Counted :
      (r : FdRecord) → owned_by slot r ≡ true → r.refs ≡ 1 → Counted (set fds slot r)
  fresh-Counted r own one = record {
    owned = λ i. elim (get_or-set fds slot i r zero_fd lt) [
      | inl (e, f) ↦ λ h. (slot, rw f own, rw (get_or-set_self fds slot r zero_fd lt) own)
      | inr (e, f) ↦ rw f (λ h.
          let (x, a, b) = c.owned i h in
          let apart : ¬ (slot ≡ x) = ground (arith, owned_by-owner x (at fds x) b) in
          (x, a, rw (get_or-set_ne fds slot x r zero_fd apart) b))
    ];
    counted = λ i. elim (get_or-set fds slot i r zero_fd lt) [
      | inl (e, f) ↦ rw f (λ h. ground (
        arith,
        count-set (owned_by slot) zero_fd fds slot r lt,
        count_zero (owned_by slot) zero_fd fds (λ j lt'. unowned j),
        unowned slot,
        own,
      ))
      | inr (e, f) ↦ rw f (λ h. ground (
        arith,
        c.counted i h,
        count-set (owned_by i) zero_fd fds slot r lt,
        owned_by_unique i slot r,
        own,
      ))
    ];
  }

  module _ (o : ℕ) (live : owned_by o (at fds o) ≡ true) (r : FdRecord)
      (shares : owned_by o r ≡ true) where
    one_more : FdRecord
    one_more = record (at fds o) { refs = (at fds o).refs + 1 }

    unfoldable pub shared : List FdRecord
    unfolding one_more
    shared = set (set fds o one_more) slot r

    lt_o : o < length fds
    lt_o = used-lt fds o (owned_by-owner o (at fds o) live).0

    apart : ¬ (o ≡ slot)
    apart e = ground (arith, owned_by-owner o (at fds o) live)

    shared_cases :
        (i : ℕ)
        → ((i ≡ slot) × (at shared i ≡ r))
          ⊎ ((¬ (i ≡ slot)) × (i ≡ o) × (at shared i ≡ one_more))
          ⊎ ((¬ (i ≡ slot)) × (¬ (i ≡ o)) × (at shared i ≡ at fds i))
    unfolding shared
    shared_cases i =
        elim (get_or-set (set fds o one_more) slot i r zero_fd
          (rw (length-set fds o one_more) lt)) [
            | inl (e, f) ↦ inl (sym e, f)
            | inr (e, f) ↦ elim (get_or-set fds o i one_more zero_fd lt_o) [
              | inl (e', f') ↦ inr (inl ((λ q. e (sym q)), sym e', f ∙ f'))
              | inr (e', f') ↦ inr (inr ((λ q. e (sym q)), (λ q. e' (sym q)), f ∙ f'))
            ]
          ]

    shared_keeps : (i x : ℕ) → ¬ (i ≡ slot) → owned_by x (at shared i) ≡ owned_by x (at fds i)
    unfolding one_more
    shared_keeps i x ne = elim (shared_cases i) [
      | inl (e, f) ↦ absurd (ne e)
      | inr (inl (e, q, f)) ↦ rw (f, q)
      | inr (inr (e, q, f)) ↦ rw f
    ]

    shared_used : (i : ℕ) → ¬ (i ≡ slot) → (at shared i).used ≡ (at fds i).used
    unfolding one_more
    shared_used i ne = elim (shared_cases i) [
      | inl (e, f) ↦ absurd (ne e)
      | inr (inl (e, q, f)) ↦ rw (f, q)
      | inr (inr (e, q, f)) ↦ rw f
    ]

    count-shared : (i : ℕ) → count (owned_by i) shared ≡ count (owned_by i) fds + bit (owned_by i r)
    unfolding shared
    count-shared i = omega (
      arith,
      count-set (owned_by i) zero_fd fds o one_more lt_o,
      count-set (owned_by i) zero_fd (set fds o one_more) slot r
          (rw (length-set fds o one_more) lt),
      ap (λ q. bit (owned_by i q)) (get_or-set_ne fds o slot one_more zero_fd apart),
      ap bit (free_owns_nothing i),
    )
      where
        free_owns_nothing : (i : ℕ) → owned_by i (at fds slot) ≡ false
        free_owns_nothing i = ground arith

    get_slot : at shared slot ≡ r
    unfolding shared
    get_slot =
        get_or-set_self (set fds o one_more) slot r zero_fd (rw (length-set fds o one_more) lt)

    shared_owned :
        (i : ℕ)
        → (at shared i).used ≡ true
        → (x : ℕ) × (owned_by x (at shared i) ≡ true) × (owned_by x (at shared x) ≡ true)
    shared_owned i h = elim (Bool-cases (i == slot)) [
      | inl e ↦
          let e' : i ≡ slot = ground arith in
          (o, rw (e', get_slot) shares, shared_keeps o o apart ∙ live)
      | inr e ↦
          let ne : ¬ (i ≡ slot) = ground arith in
          let (x, a, b) = c.owned i (sym (shared_used i ne) ∙ h) in
          let ne' : ¬ (x ≡ slot) = λ q. ground (arith, owned_by-owner x (at fds x) b) in
          (x, shared_keeps i x ne ∙ a, shared_keeps x x ne' ∙ b)
    ]

    shared_counted :
        (i : ℕ) → owned_by i (at shared i) ≡ true → (at shared i).refs ≡ count (owned_by i) shared
    unfolding one_more
    shared_counted i = elim (shared_cases i) [
      | inl (e, f) ↦ rw f (λ h. absurd (apart (owned_by_unique o i r shares h ∙ e)))
      | inr (inl (e, q, f)) ↦
          rw (f, q) (λ h. omega (arith, c.counted o live, count-shared o, ap bit shares))
      | inr (inr (e, q, f)) ↦
          rw f (λ h. ground (arith, c.counted i h, count-shared i, owned_by_unique i o r, shares))
    ]

    -- A record that shares a live owner can go into a free slot once the owner counts it.
    pub shared-Counted : Counted shared
    shared-Counted = record { owned = shared_owned; counted = shared_counted }

-- In a table whose counts are right the index of an owner is that of a live owner.
pub fd_owner_index-owner :
    (fds : List FdRecord) (s : Option ℕ) (o : ℕ)
    → Counted fds
    → fd_owner_index fds s ≡ some o
    → owned_by o (at fds o) ≡ true
unfolding fd_owner_index
fd_owner_index-owner fds none o c h = absurd (cc)
fd_owner_index-owner fds (some slot) o c h = elim (Bool-cases (at fds slot).used) [
  | inl u ↦
      let (x, a, b) = c.owned slot u in
      ground (arith, owned_by-owner x (at fds slot) a, owned_by-owner x (at fds x) b, used-lt fds x)
  | inr u ↦ absurd (ground arith)
]

-- What `place` does when it finds a free slot.
pub place-value :
    (k k' : Kernel) (source : FdRecord) (pid : ℤ) (number n o : ℕ)
    → source.owner_fd ≡ pos o
    → place k source pid number ≡ (value n, k')
    → (slot : ℕ) × (find_index is_free k.fds ≡ some slot)
      × (k'.fds
          ≡ set k.fds slot (record source {
            used = true;
            owner_pid = pid;
            local_fd = pos number;
            owner_fd = pos o;
          }))
      × (n ≡ number)
unfolding place
place-value k k' source pid number n o e h = elim (Option-cases (find_index is_free k.fds)) [
  | inl f ↦ absurd (ground arith)
  | inr (slot, f) ↦ (slot, f, ground arith, ground arith)
]

-- Installing a copy of a live owner's record, once the owner counts it.
dup_place-Counted :
    (k k' : Kernel) (o : ℕ) (number : ℤ) (pid : ℤ) (m n : ℕ)
    → Counted k.fds
    → owned_by o (at k.fds o) ≡ true
    → place (add_reference k o) (dup_record k o number) pid m ≡ (value n, k')
    → Counted k'.fds
unfolding shared
dup_place-Counted k k' o number pid m n c live h =
    let (slot, found, table, _) =
      place-value (add_reference k o) k' (dup_record k o number) pid m n o refl h in
    let raised = record (at k.fds o) { refs = (at k.fds o).refs + 1 } in
    let lt = find_index-lt is_free (set k.fds o raised) slot found in
    let open_slot = find_index-holds is_free zero_fd (set k.fds o raised) slot found in
    let o_lt = used-lt k.fds o (owned_by-owner o (at k.fds o) live).0 in
    let unused : (at k.fds slot).used ≡ false =
      ground
        (arith, get_or-set k.fds o slot raised zero_fd o_lt, owned_by-owner o (at k.fds o) live) in
    rw table (
      shared-Counted k.fds c slot (rw (length-set k.fds o raised) at lt) unused o live _
        (ground arith))

install_any-place :
    (k k' : Kernel) (source : FdRecord) (n pid : ℕ)
    → source.owner_pid ≡ pos pid
    → install_any k source ≡ (value n, k')
    → (m : ℕ) × (place k source (pos pid) m ≡ (value n, k'))
unfolding install_any
install_any-place k k' source n pid e h = elim (Option-cases (next_number k.fds (pos pid))) [
  | inl f ↦ absurd (ground arith)
  | inr (m, f) ↦ (m, ground arith)
]

rad_fd_dup-install :
    (k k' : Kernel) (fd : ℤ) (n : ℕ)
    → rad_fd_dup k fd ≡ (value n, k')
    → (o : ℕ) × (fd_owner_index k.fds (my_slot k fd) ≡ some o)
      × (install_any (add_reference k o) (dup_record k o (negsuc 0)) ≡ (value n, k'))
unfolding rad_fd_dup
rad_fd_dup-install k k' fd n h = elim (Option-cases (fd_owner_index k.fds (my_slot k fd))) [
  | inl e ↦ absurd (ground arith)
  | inr (o, e) ↦ (o, e, ground arith)
]

-- In a table whose reference counts are right, a duplicate that `rad_fd_dup` installs is counted:
-- the counts are right afterwards.
pub rad_fd_dup-Counted :
    (k k' : Kernel) (fd : ℤ) (n : ℕ)
    → Counted k.fds
    → rad_fd_dup k fd ≡ (value n, k')
    → Counted k'.fds
rad_fd_dup-Counted k k' fd n c h =
    let (o, e, installed) = rad_fd_dup-install k k' fd n h in
    let (m, placed) =
      install_any-place (add_reference k o) k' (dup_record k o (negsuc 0)) n (current_process_pid k)
        refl installed in
    dup_place-Counted k k' o (negsuc 0) (pos (current_process_pid k)) m n c
      (fd_owner_index-owner k.fds (my_slot k fd) o c e) placed

install_any_full :
    (k : Kernel) (source : FdRecord)
    → find_index is_free k.fds ≡ none
    → install_any k source ≡ (fail no_memory, k)
unfolding install_any place
install_any_full k source full = ground arith

raised_not_free :
    (fds : List FdRecord) (o : ℕ) (r : FdRecord)
    → r.used ≡ true
    → find_index is_free fds ≡ none
    → find_index is_free (set fds o r) ≡ none
unfolding find_index
raised_not_free [] o r u h = refl
raised_not_free (x ∷ xs) zero r u h = ground arith
raised_not_free (x ∷ xs) (suc o) r u h = ground (arith, raised_not_free xs o r u)

-- A count that is raised with no record to show for it is wrong.
raised_not_Counted :
    (fds : List FdRecord) (o : ℕ)
    → Counted fds
    → owned_by o (at fds o) ≡ true
    → ¬ Counted (set fds o (record (at fds o) { refs = (at fds o).refs + 1 }))
raised_not_Counted fds o c live c' =
    let raised = record (at fds o) { refs = (at fds o).refs + 1 } in
    let lt = used-lt fds o (owned_by-owner o (at fds o) live).0 in
    let self = get_or-set_self fds o raised zero_fd lt in
    omega (
      arith,
      c.counted o live,
      sym (ap (λ (r : FdRecord). r.refs) self) ∙ c'.counted o (rw self live),
      count-set (owned_by o) zero_fd fds o raised lt,
    )

rad_fd_dup_full :
    (k : Kernel) (fd : ℤ) (o : ℕ)
    → fd_owner_index k.fds (my_slot k fd) ≡ some o
    → (at k.fds o).used ≡ true
    → find_index is_free k.fds ≡ none
    → rad_fd_dup k fd ≡ (fail no_memory, add_reference k o)
unfolding rad_fd_dup
rad_fd_dup_full k fd o e u full = ground (
  arith,
  install_any_full (add_reference k o) (dup_record k o (negsuc 0))
      (raised_not_free k.fds o (record (at k.fds o) { refs = (at k.fds o).refs + 1 }) u full),
)

-- In a table whose reference counts are right and that has no free slot, duplicating a descriptor
-- that has an owner fails and still counts the duplicate that was not made: the counts are wrong
-- afterwards.
pub rad_fd_dup_leaks :
    (k : Kernel) (fd : ℤ) (o : ℕ)
    → Counted k.fds
    → fd_owner_index k.fds (my_slot k fd) ≡ some o
    → find_index is_free k.fds ≡ none
    → ((rad_fd_dup k fd).0 ≡ fail no_memory) × (¬ Counted (rad_fd_dup k fd).1.fds)
rad_fd_dup_leaks k fd o c e full =
    let live = fd_owner_index-owner k.fds (my_slot k fd) o c e in
    rw (rad_fd_dup_full k fd o e (owned_by-owner o (at k.fds o) live).0 full)
      (refl, raised_not_Counted k.fds o c live)
