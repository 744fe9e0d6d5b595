-- ===== src/Tasks/Exclusion.antt =====
-- That the flags `running` and `on_cpu` of RADKernel/core/RADKernel_runtime.cpp keep two cores off one task.
use radpx_os.Base.{
  ℕ, ◌<◌, ◌≡◌, refl, sym, ap, ◌∙◌, ◌≢◌, ◌⊎◌, inl, inr, Bool, true, not, some, List, arith, ◌==◌,
  ==_iff, Bool-cases, length, set, length-set, get_or, find_index, find_index-set, get_or-set,
}
use mathlib.Core.Path.{subst}
use radpx_os.Base.Keyed.{set_same-AllKeyed}
use radpx_os.Tasks.{Task, Scheduler, zero_task, has_id}
use radpx_os.Tasks.Cores.{
  Phase, idle, chose, runs, leaves, settled, nested, Machine, goes, moves, slot_of, AreExclusive,
}

abbrev pub has_entry : Task → Bool
has_entry t = not (t.entry == 0)

abbrev pub id_of : Task → ℕ
id_of t = t.id

pub has_id-id : (id : ℕ) (t : Task) → has_id id t ≡ true → (has_entry t ≡ true) × (t.id ≡ id)
has_id-id id t has = (ground (arith, has), ground (arith, has))

pub has_id_self : (t : Task) → has_entry t ≡ true → has_id t.id t ≡ true
has_id_self t used = ground (arith, used)

-- Every task is found by its identifier.
abbrev pub AllFound : List Task → Type 0
AllFound tasks =
    (i : ℕ)
    → i < length tasks
    → has_entry (get_or tasks i zero_task) ≡ true
    → find_index (has_id (get_or tasks i zero_task).id) tasks ≡ some i

abbrev pub entry_at : List Task → ℕ → Task
entry_at tasks i = get_or tasks i zero_task

abbrev pub IsCurrent : List Task → ℕ → ℕ → Type 0
IsCurrent tasks current i = find_index (has_id current) tasks ≡ some i

-- What a core's phase says of the table; `current` is the core's current identifier.
abbrev pub Keeps : List Task → ℕ → Phase → Type 0
Keeps tasks current idle = Unit
Keeps tasks current (chose i) =
    (i < length tasks) × ((entry_at tasks i).running ≡ true) × IsCurrent tasks current i
Keeps tasks current (runs i) =
    (i < length tasks) × ((entry_at tasks i).on_cpu ≡ true) × IsCurrent tasks current i
Keeps tasks current (leaves i) = (i < length tasks) × ((entry_at tasks i).on_cpu ≡ true)
Keeps tasks current (settled i) = (i < length tasks) × ((entry_at tasks i).on_cpu ≡ true)
Keeps tasks current (nested i j) = ⊥

-- A record changes that keeps its identifier, and its flags where the core is on it.
module _ (tasks : List Task) (i : ℕ) (t : Task) (inside : i < length tasks)
    (same_id : t.id ≡ (entry_at tasks i).id) (same_entry : t.entry ≡ (entry_at tasks i).entry) where
  pub found-set : (id : ℕ) → find_index (has_id id) (set tasks i t) ≡ find_index (has_id id) tasks
  found-set id = find_index-set (has_id id) zero_task tasks i t (rw (same_id, same_entry) refl)

  pub flag-set :
      (flag : Task → Bool) (j : ℕ)
      → (i ≡ j → flag t ≡ flag (entry_at tasks i))
      → flag (entry_at tasks j) ≡ true
      → flag (entry_at (set tasks i t) j) ≡ true
  flag-set flag j kept held = elim (get_or-set tasks i j t zero_task inside) [
    | inl (same, e) ↦ ap flag e ∙ kept same ∙ ap (λ n. flag (entry_at tasks n)) same ∙ held
    | inr (other, e) ↦ ap flag e ∙ held
  ]

  pub below-set : (j : ℕ) → j < length tasks → j < length (set tasks i t)
  below-set j below = subst (λ n. j < n) (sym (length-set tasks i t)) below

  pub Keeps-set :
      (current : ℕ) (phase : Phase)
      → (slot_of phase ≡ some i
          → (t.running ≡ (entry_at tasks i).running) × (t.on_cpu ≡ (entry_at tasks i).on_cpu))
      → Keeps tasks current phase
      → Keeps (set tasks i t) current phase
  Keeps-set current idle kept held = tt
  Keeps-set current (chose j) kept (below, flag, found) = (
    below-set j below,
    flag-set (λ u. u.running) j (λ e. (kept (ap some (sym e))).0) flag,
    found-set current ∙ found,
  )
  Keeps-set current (runs j) kept (below, flag, found) = (
    below-set j below,
    flag-set (λ u. u.on_cpu) j (λ e. (kept (ap some (sym e))).1) flag,
    found-set current ∙ found,
  )
  Keeps-set current (leaves j) kept (below, flag) =
      (below-set j below, flag-set (λ u. u.on_cpu) j (λ e. (kept (ap some (sym e))).1) flag)
  Keeps-set current (settled j) kept (below, flag) =
      (below-set j below, flag-set (λ u. u.on_cpu) j (λ e. (kept (ap some (sym e))).1) flag)
  Keeps-set current (nested h j) kept held = absurd held

  pub AllFound-set : AllFound tasks → AllFound (set tasks i t)
  AllFound-set all =
      set_same-AllKeyed zero_task has_entry id_of has_id has_id-id has_id_self tasks i t inside
        (ap (λ n. not (n == 0)) same_entry) same_id (λ id. rw (same_id, same_entry) refl) all

abbrev pub current : Scheduler → ℕ → ℕ
current s core = get_or s.current_task_id core 0

-- What holds of a machine between steps.
abbrev pub IsSound : Machine → Type 0
IsSound m =
    ((c : ℕ) → Keeps m.sched.tasks (current m.sched c) (m.phases c))
    × AllFound m.sched.tasks
    × AreExclusive m

pub goes-cases :
    (phases : ℕ → Phase) (core : ℕ) (phase : Phase) (d : ℕ)
    → ((d ≡ core) × (goes phases core phase d ≡ phase))
      ⊎ ((d ≢ core) × (goes phases core phase d ≡ phases d))
goes-cases phases core phase d = elim (Bool-cases (d == core)) [
  | inl here ↦ inl ((==_iff d core).0 here, rw here refl)
  | inr there ↦ inr (λ e. absurd (ground (arith, there, e)), rw there refl)
]

-- A core that goes on changes one record; the others may not be on it, unless it keeps its flags.
module _ (m : Machine) (core : ℕ) (phase : Phase) (s : Scheduler) (sound : IsSound m)
    (elsewhere : (d : ℕ) → d ≢ core → current s d ≡ current m.sched d)
    (alone : (j d : ℕ) → slot_of phase ≡ some j → slot_of (m.phases d) ≡ some j → d ≡ core)
    (holds : Keeps s.tasks (current s core) phase) where
  goes-AreExclusive : AreExclusive (moves m s core phase)
  goes-AreExclusive c d i at_c at_d = elim (goes-cases m.phases core phase c) [
    | inl (c_is, e) ↦ elim (goes-cases m.phases core phase d) [
      | inl (d_is, f) ↦ c_is ∙ sym d_is
      | inr (d_not, f) ↦
          c_is ∙ sym (alone i d (ap slot_of (sym e) ∙ at_c) (ap slot_of (sym f) ∙ at_d))
    ]
    | inr (c_not, e) ↦ elim (goes-cases m.phases core phase d) [
      | inl (d_is, f) ↦ alone i c (ap slot_of (sym f) ∙ at_d) (ap slot_of (sym e) ∙ at_c) ∙ sym d_is
      | inr (d_not, f) ↦ sound.2 c d i (ap slot_of (sym e) ∙ at_c) (ap slot_of (sym f) ∙ at_d)
    ]
  ]

  pub goes-IsSound :
      (i : ℕ) (t : Task)
      → i < length m.sched.tasks
      → t.id ≡ (entry_at m.sched.tasks i).id
      → t.entry ≡ (entry_at m.sched.tasks i).entry
      → s.tasks ≡ set m.sched.tasks i t
      → ((d : ℕ)
          → d ≢ core
          → slot_of (m.phases d) ≡ some i
          → (t.running ≡ (entry_at m.sched.tasks i).running)
            × (t.on_cpu ≡ (entry_at m.sched.tasks i).on_cpu))
      → IsSound (moves m s core phase)
  goes-IsSound i t inside same_id same_entry changed kept = (
    λ c. elim (goes-cases m.phases core phase c) [
      | inl (c_is, e) ↦
          subst (λ p. Keeps s.tasks (current s c) p) (sym e)
            (subst (λ n. Keeps s.tasks (current s n) phase) (sym c_is) holds)
      | inr (c_not, e) ↦
          subst (λ p. Keeps s.tasks (current s c) p) (sym e)
            (subst (λ n. Keeps s.tasks n (m.phases c)) (sym (elsewhere c c_not))
              (subst (λ ts. Keeps ts (current m.sched c) (m.phases c)) (sym changed)
                (Keeps-set m.sched.tasks i t inside same_id same_entry (current m.sched c)
                  (m.phases c) (kept c c_not) (sound.0 c))))
    ],
    subst AllFound (sym changed) (AllFound-set m.sched.tasks i t inside same_id same_entry sound.1),
    goes-AreExclusive,
  )
