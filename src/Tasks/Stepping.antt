-- ===== src/Tasks/Stepping.antt =====
-- That a core of RADKernel/core/RADKernel_runtime.cpp that goes on, or chooses a task, stays apart.
use radpx_os.Base.{
  ℕ, ◌<◌, ◌≡◌, refl, sym, ap, ◌∙◌, ◌≢◌, ◌⊎◌, inl, inr, Bool, true, false, not, ◌&&◌, ◌||◌, Option,
  some, arith, ◌==◌, if_elim, length, set, get_or, find_index, find_index-holds, get_or-set_self,
  get_or-set_ne,
}
use mathlib.Core.Path.{subst}
use radpx_os.Base.Keyed.{some-same}
use radpx_os.Tasks.{
  Task, Scheduler, zero_task, task_at, has_id, task_matches_core, choose_task, chosen, is_core,
}
use radpx_os.Tasks.Calls.{yielded}
use radpx_os.Tasks.Cores.{
  Phase, idle, chose, runs, leaves, settled, nested, Machine, moves, slot_of,
}
use radpx_os.Tasks.Fairness.{fits_core}
use radpx_os.Tasks.Effects.{Chooses, choose_task-Chooses, IsLeft}
use radpx_os.Tasks.Exclusion.{
  has_entry, has_id-id, entry_at, Keeps, found-set, flag-set, below-set, current, IsSound,
  goes-IsSound,
}

pub IsSound-Keeps :
    (m : Machine) (core : ℕ) (phase : Phase)
    → IsSound m
    → m.phases core ≡ phase
    → Keeps m.sched.tasks (current m.sched core) phase
IsSound-Keeps m core phase sound e =
    subst (λ p. Keeps m.sched.tasks (current m.sched core) p) e (sound.0 core)

-- A core that is on slot `i`, and stays there or leaves it.
module _ (m : Machine) (core i : ℕ) (sound : IsSound m)
    (here : slot_of (m.phases core) ≡ some i) where
  pub alone-at :
      (phase : Phase)
      → ((j : ℕ) → slot_of phase ≡ some j → i ≡ j)
      → (j d : ℕ) → slot_of phase ≡ some j
      → slot_of (m.phases d) ≡ some j
      → d ≡ core
  alone-at phase only j d at_phase at_d = sound.2 d core j at_d (here ∙ ap some (only j at_phase))

  nobody-else : {P : Type 0} (d : ℕ) → d ≢ core → slot_of (m.phases d) ≡ some i → P
  nobody-else d other at_d = absurd (other (sound.2 d core i at_d here))

  -- It changes its record, and not who is current.
  pub goes-on :
      (phase : Phase) (s : Scheduler) (t : Task)
      → ((j : ℕ) → slot_of phase ≡ some j → i ≡ j)
      → s.current_task_id ≡ m.sched.current_task_id
      → i < length m.sched.tasks
      → t.id ≡ (entry_at m.sched.tasks i).id
      → t.entry ≡ (entry_at m.sched.tasks i).entry
      → s.tasks ≡ set m.sched.tasks i t
      → Keeps s.tasks (current s core) phase
      → IsSound (moves m s core phase)
  goes-on phase s t only same inside same_id same_entry changed holds =
      goes-IsSound m core phase s sound (λ d other. ap (λ c. get_or c d 0) same)
        (alone-at phase only) holds i t inside same_id same_entry changed
        (λ d other at_d. nobody-else d other at_d)

  -- It leaves its task, and nobody is current on it.
  pub leaves-by :
      (f : Task → Task) (r : Option ℕ × Scheduler) (j : ℕ)
      → ((t : Task) → ((f t).id ≡ t.id) × ((f t).entry ≡ t.entry) × ((f t).on_cpu ≡ t.on_cpu))
      → IsLeft f m.sched core r
      → r.0 ≡ some j
      → Keeps m.sched.tasks (current m.sched core) (runs i)
      → IsSound (moves m r.1 core (leaves i))
  leaves-by f r j keeps left got (inside, flag, found) =
      let (found_j, changed_j, cleared) = left j got in
      let e : j ≡ i = some-same j i (sym found_j ∙ found) in
      let t = f (entry_at m.sched.tasks i) in
      let (same_id, same_entry, same_flag) = keeps (entry_at m.sched.tasks i) in
      let changed : r.1.tasks ≡ set m.sched.tasks i t =
        subst (λ n. r.1.tasks ≡ set m.sched.tasks n (f (entry_at m.sched.tasks n))) e changed_j in
      let holds : Keeps (set m.sched.tasks i t) (current r.1 core) (leaves i) = (
        below-set m.sched.tasks i t inside same_id same_entry i inside,
        flag-set m.sched.tasks i t inside same_id same_entry (λ u. u.on_cpu) i (λ e. same_flag)
            flag,
      ) in
      goes-IsSound m core (leaves i) r.1 sound
        (λ d other.
          ap (λ c. get_or c d 0) cleared
          ∙ get_or-set_ne m.sched.current_task_id core d 0 0 (λ e. other (sym e)))
        (alone-at (leaves i) (λ k at. some-same i k at))
        (subst (λ ts. Keeps ts (current r.1 core) (leaves i)) (sym changed) holds) i t inside
        same_id same_entry changed (λ d other at_d. nobody-else d other at_d)

pub yielded-keeps :
    (irq : Bool) (core : ℕ) (t : Task)
    → ((yielded irq core t).id ≡ t.id)
      × ((yielded irq core t).entry ≡ t.entry)
      × ((yielded irq core t).on_cpu ≡ t.on_cpu)
yielded-keeps irq core t =
    if_elim (λ (u : Task). (u.id ≡ t.id) × (u.entry ≡ t.entry) × (u.on_cpu ≡ t.on_cpu))
      (irq && not t.preempt_pinned) (λ e. (refl, refl, refl)) (λ e. (refl, refl, refl))

chosen-keeps :
    (core : ℕ) (t : Task)
    → ((chosen core t).id ≡ t.id)
      × ((chosen core t).entry ≡ t.entry)
      × ((chosen core t).running ≡ true)
chosen-keeps core t =
    if_elim (λ (u : Task). (u.id ≡ t.id) × (u.entry ≡ t.entry) × (u.running ≡ true))
      (t.preempt_pinned && is_core t.target_core core) (λ e. (refl, refl, refl))
      (λ e. (refl, refl, refl))

-- A task that fits a core has an entry, does not run and is on no core.
fits-free :
    (now : ℕ) (s : Scheduler) (core i : ℕ)
    → fits_core now s core i ≡ true
    → (has_entry (task_at s i) ≡ true)
      × ((task_at s i).running ≡ false)
      × ((task_at s i).on_cpu ≡ false)
unfolding task_matches_core
fits-free now s core i fits =
    let t = task_at s i in
    let P =
      λ (b : Bool). b ≡ true → (has_entry t ≡ true) × (t.running ≡ false) × (t.on_cpu ≡ false) in
    if_elim P ((t.entry == 0) || t.finished || t.running) (λ e f. absurd (ground (arith, f)))
      (λ apart.
        if_elim P t.on_cpu (λ e f. absurd (ground (arith, f)))
          (λ off f. (ground (arith, apart), ground (arith, apart), off)))
      fits

-- Nobody is on a slot whose task does not run, is on no core, or has no entry.
pub not-on :
    (m : Machine) (i : ℕ)
    → IsSound m
    → ((task_at m.sched i).on_cpu ≡ false)
    → ((task_at m.sched i).running ≡ false) ⊎ (has_entry (task_at m.sched i) ≡ false)
    → (d : ℕ) → slot_of (m.phases d) ≢ some i
not-on m i sound off idle_or_free d at_d = not_kept (m.phases d) at_d (sound.0 d)
  where
    not_kept :
        (phase : Phase) → slot_of phase ≡ some i → Keeps m.sched.tasks (current m.sched d) phase → ⊥
    not_kept idle at_i kept = ground (arith, at_i)
    not_kept (chose j) at_i (below, flag, found) =
        let e : j ≡ i = some-same j i at_i in
        let runs_i : (task_at m.sched i).running ≡ true =
          ap (λ n. (task_at m.sched n).running) (sym e) ∙ flag in
        let has : has_id (current m.sched d) (task_at m.sched j) ≡ true =
          find_index-holds (has_id (current m.sched d)) zero_task m.sched.tasks j found in
        let entry_i : has_entry (task_at m.sched i) ≡ true =
          ap (λ n. has_entry (task_at m.sched n)) (sym e)
          ∙ (has_id-id (current m.sched d) (task_at m.sched j) has).0 in
        elim idle_or_free [
          | inl still ↦ ground (arith, still, runs_i)
          | inr free ↦ ground (arith, free, entry_i)
        ]
    not_kept (runs j) at_i (below, flag, found) =
        ground (arith, off, ap (λ n. (task_at m.sched n).on_cpu) (sym (some-same j i at_i)) ∙ flag)
    not_kept (leaves j) at_i (below, flag) =
        ground (arith, off, ap (λ n. (task_at m.sched n).on_cpu) (sym (some-same j i at_i)) ∙ flag)
    not_kept (settled j) at_i (below, flag) =
        ground (arith, off, ap (λ n. (task_at m.sched n).on_cpu) (sym (some-same j i at_i)) ∙ flag)
    not_kept (nested h j) at_i held = absurd held

pub select-IsSound :
    (m : Machine) (now core i : ℕ) (s : Scheduler)
    → IsSound m
    → core < length m.sched.current_task_id
    → choose_task now m.sched core ≡ (some i, s)
    → IsSound (moves m s core (chose i))
select-IsSound m now core i s sound on_core e =
    let (inside, fits, changed, set_id) =
      subst (Chooses now m.sched core) e (choose_task-Chooses now m.sched core) i refl in
    let (entry, still, off) = fits-free now m.sched core i fits in
    let nobody = not-on m i sound off (inl still) in
    let t = chosen core (task_at m.sched i) in
    let (same_id, same_entry, running) = chosen-keeps core (task_at m.sched i) in
    let mine : current s core ≡ (task_at m.sched i).id =
      ap (λ c. get_or c core 0) set_id
      ∙ get_or-set_self m.sched.current_task_id core (task_at m.sched i).id 0 on_core in
    let holds : Keeps (set m.sched.tasks i t) (current s core) (chose i) = (
      below-set m.sched.tasks i t inside same_id same_entry i inside,
      ap (λ u. u.running) (get_or-set_self m.sched.tasks i t zero_task inside) ∙ running,
      found-set m.sched.tasks i t inside same_id same_entry (current s core)
          ∙ ap (λ n. find_index (has_id n) m.sched.tasks) mine
          ∙ sound.1 i inside entry,
    ) in
    goes-IsSound m core (chose i) s sound
      (λ d other.
        ap (λ c. get_or c d 0) set_id
        ∙ get_or-set_ne m.sched.current_task_id core d (task_at m.sched i).id 0
            (λ f. other (sym f)))
      (λ j d at_i at_d. absurd (nobody d (at_d ∙ sym at_i)))
      (subst (λ ts. Keeps ts (current s core) (chose i)) (sym changed) holds) i t inside same_id
      same_entry changed (λ d other at_d. absurd (nobody d at_d))
