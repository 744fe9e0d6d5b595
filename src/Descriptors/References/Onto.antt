-- ===== src/Descriptors/References/Onto.antt =====
-- `rad_fd_dup2` of RADKernel/core/RADKernel_runtime.cpp onto the number of the object's own owner.
use radpx_os.Base.{
  ℕ, ◌+◌, ◌-◌, ◌≤◌, ◌<◌, ◌≡◌, refl, sym, ap, ◌∙◌, inl, inr, true, false, some, List, [], ◌∷◌, map,
  arith, ◌==◌, Bool-cases, length, set, length-set, length-map, bit, count, find_index-lt,
  count-set, get_or-set_self, get_or-set_ne, value,
}
use radpx_os.Base.Int.{ℤ, pos, eq_ℤ}
use radpx_os.Kernel.{Kernel, FdRecord, zero_fd, current_process_pid}
use radpx_os.Descriptors.{
  owned_by, reown, is_free, place, install_at, fd_owner_index, find_fd_slot, find_other,
  close_fd_index,
}
use radpx_os.Descriptors.Calls.{add_reference, dup_record, my_slot, rad_fd_dup2}
use radpx_os.Descriptors.References.Table.{
  at, Counted, used-lt, owned_by-owner, owned_by_unique, count_two, find_other-total,
  find_other-holds,
}
use radpx_os.Descriptors.References.Installing.{place-value}

count-reown_old :
    (o p : ℕ) (fds : List FdRecord) → ¬ (o ≡ p) → count (owned_by o) (map (reown o p) fds) ≡ 0
unfolding count
count-reown_old o p [] ne = refl
count-reown_old o p (r ∷ rs) ne = ground (arith, count-reown_old o p rs ne)

-- The table after an owner with a shared object was closed: its slot is free and nobody names it.
record Vacated (fds : List FdRecord) (o : ℕ) : Type 0 where
  empty : at fds o ≡ zero_fd
  unnamed : count (owned_by o) fds ≡ 0

close_raised :
    (k : Kernel) (o : ℕ)
    → owned_by o (at k.fds o) ≡ true
    → 2 ≤ count (owned_by o) k.fds
    → 1 < (at k.fds o).refs
    → Vacated (close_fd_index k o).fds o
unfolding close_fd_index
close_raised k o live many refs =
    let (p, found) = find_other-total (owned_by o) zero_fd k.fds o many in
    let (theirs, lt, apart) = find_other-holds (owned_by o) zero_fd k.fds o p found in
    rw (closes p found) (vacated p apart)
  where
    chosen : ℕ → FdRecord
    chosen p = record (at k.fds p) { owner_fd = pos p; refs = (at k.fds o).refs - 1 }

    moved : ℕ → List FdRecord
    moved p = map (reown o p) (set k.fds p (chosen p))

    closes :
        (p : ℕ)
        → find_other (owned_by o) k.fds o ≡ some p
        → (close_fd_index k o).fds ≡ set (moved p) o zero_fd
    closes p found = ground (arith, used-lt k.fds o, owned_by-owner o (at k.fds o) live)

    lt : (p : ℕ) → o < length (moved p)
    lt p =
        rw (length-map (set k.fds p (chosen p)) (reown o p), length-set k.fds p (chosen p))
          (used-lt k.fds o (owned_by-owner o (at k.fds o) live).0)

    vacated : (p : ℕ) → ¬ (p ≡ o) → Vacated (set (moved p) o zero_fd) o
    vacated p apart = record {
      empty = get_or-set_self (moved p) o zero_fd zero_fd (lt p);
      unnamed = omega (
        arith,
        count-set (owned_by o) zero_fd (moved p) o zero_fd (lt p),
        count-reown_old o p (set k.fds p (chosen p)) (λ q. apart (sym q)),
      );
    }

-- A record that names a vacated owner is not counted right, wherever it is placed.
placed_not_Counted :
    (fds : List FdRecord) (o s : ℕ) (r : FdRecord)
    → Vacated fds o
    → s < length fds
    → owned_by o r ≡ true
    → 2 ≤ r.refs
    → ¬ Counted (set fds s r)
placed_not_Counted fds o s r v lt names many c = elim (Bool-cases (s == o)) [
  | inl e ↦
      let e' : s ≡ o = ground arith in
      let self = get_or-set_self fds s r zero_fd lt in
      let self_o : at (set fds s r) o ≡ r = rw (← e') self in
      omega (
        arith,
        sym (ap (λ (q : FdRecord). q.refs) self_o) ∙ c.counted o (rw self_o names),
        count-set (owned_by o) zero_fd fds s r lt,
        v.unnamed,
        ap bit names,
      )
  | inr e ↦
      let apart : ¬ (s ≡ o) = ground arith in
      let self = get_or-set_self fds s r zero_fd lt in
      let (x, a, b) = c.owned s (rw self (owned_by-owner o r names).0) in
      let x_o : x ≡ o = owned_by_unique x o r (rw self at a) names in
      let at_o : at (set fds s r) o ≡ zero_fd = get_or-set_ne fds s o r zero_fd apart ∙ v.empty in
      zero_unowned o (rw (x_o, at_o) at b)
]
  where
    zero_unowned : (o : ℕ) → ¬ (owned_by o zero_fd ≡ true)
    zero_unowned o h = cc

-- The duplicate is installed in the slot found for it after the number's old record was closed.
rad_fd_dup2-install :
    (k k' : Kernel) (old_fd : ℤ) (new_fd o n : ℕ)
    → eq_ℤ old_fd (pos new_fd) ≡ false
    → fd_owner_index k.fds (my_slot k old_fd) ≡ some o
    → find_fd_slot (add_reference k o).fds (pos new_fd) (pos (current_process_pid k)) false ≡ some o
    → rad_fd_dup2 k old_fd (pos new_fd) ≡ (value n, k')
    → place
        (close_fd_index (add_reference k o) o)
        (dup_record k o (pos new_fd))
        (pos (current_process_pid k))
        new_fd
      ≡ (value n, k')
unfolding rad_fd_dup2 install_at
rad_fd_dup2-install k k' old_fd new_fd o n apart e found h = ground arith

-- In a table whose reference counts are right, duplicating a descriptor onto the number of the
-- record that owns its object, while another record shares it, succeeds only with a table whose
-- counts are wrong.
pub rad_fd_dup2_onto_owner :
    (k k' : Kernel) (old_fd : ℤ) (new_fd o m n : ℕ)
    → Counted k.fds
    → eq_ℤ old_fd (pos new_fd) ≡ false
    → fd_owner_index k.fds (my_slot k old_fd) ≡ some o
    → find_fd_slot (add_reference k o).fds (pos new_fd) (pos (current_process_pid k)) false ≡ some o
    → owned_by o (at k.fds o) ≡ true
    → owned_by o (at k.fds m) ≡ true
    → ¬ (m ≡ o)
    → rad_fd_dup2 k old_fd (pos new_fd) ≡ (value n, k')
    → ¬ Counted k'.fds
rad_fd_dup2_onto_owner k k' old_fd new_fd o m n c differs e found live also apart h =
    let placed = rad_fd_dup2-install k k' old_fd new_fd o n differs e found h in
    let closed = close_fd_index (add_reference k o) o in
    let (slot, free, table, _) =
      place-value closed k' (dup_record k o (pos new_fd)) (pos (current_process_pid k)) new_fd n o
        refl placed in
    let many : 2 ≤ count (owned_by o) k.fds =
      count_two (owned_by o) zero_fd k.fds m o
        (used-lt k.fds m (owned_by-owner o (at k.fds m) also).0)
        (used-lt k.fds o (owned_by-owner o (at k.fds o) live).0) apart also live in
    rw table (
      placed_not_Counted closed.fds o slot _ (vacant many)
        (find_index-lt is_free closed.fds slot free) (ground arith)
        (omega (arith, c.counted o live)))
  where
    raised : FdRecord
    raised = record (at k.fds o) { refs = (at k.fds o).refs + 1 }

    lt : o < length k.fds
    lt = used-lt k.fds o (owned_by-owner o (at k.fds o) live).0

    vacant : 2 ≤ count (owned_by o) k.fds → Vacated (close_fd_index (add_reference k o) o).fds o
    vacant many =
        close_raised (add_reference k o) o (rw (get_or-set_self k.fds o raised zero_fd lt) live)
          (omega (arith, count-set (owned_by o) zero_fd k.fds o raised lt))
          (rw (get_or-set_self k.fds o raised zero_fd lt) (omega (arith, c.counted o live)))
