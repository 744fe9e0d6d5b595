-- ===== src/Tasks/Interfering.antt =====
-- That who kills, detaches or creates a task in RADKernel/core/RADKernel_runtime.cpp keeps cores apart.
use radpx_os.Base.{
  ℕ, ◌<◌, ◌≡◌, refl, sym, ap, ◌∙◌, ◌≢◌, ◌⊎◌, inl, inr, Bool, true, false, none, some, List, arith,
  Bool-cases, length, set, length-set, get_or, find_index, find_index-lt, find_index-holds,
  get_or-set_ne, value,
}
use mathlib.Core.Path.{subst}
use radpx_os.Base.Keyed.{find-set_fresh, set_fresh-AllKeyed}
use radpx_os.Tasks.{Task, Scheduler, zero_task, task_at, has_id}
use radpx_os.Tasks.Calls.{TaskConfig, is_reusable, fresh_task, rad_task_create_config}
use radpx_os.Tasks.Cores.{
  Phase, idle, chose, runs, leaves, settled, nested, Machine, stays, slot_of,
}
use radpx_os.Tasks.Effects.{Creates, rad_task_create_config-Creates}
use radpx_os.Tasks.Exclusion.{
  has_entry, id_of, has_id-id, has_id_self, AllFound, entry_at, IsCurrent, Keeps, Keeps-set,
  AllFound-set, current, IsSound,
}
use radpx_os.Tasks.Stepping.{not-on}

-- Anyone changes a record, and leaves its identifier and its flags.
pub stays-IsSound :
    (m : Machine) (s : Scheduler) (i : ℕ) (t : Task)
    → IsSound m
    → i < length m.sched.tasks
    → t.id ≡ (entry_at m.sched.tasks i).id
    → t.entry ≡ (entry_at m.sched.tasks i).entry
    → t.running ≡ (entry_at m.sched.tasks i).running
    → t.on_cpu ≡ (entry_at m.sched.tasks i).on_cpu
    → s.tasks ≡ set m.sched.tasks i t
    → s.current_task_id ≡ m.sched.current_task_id
    → IsSound (stays m s)
stays-IsSound m s i t sound inside same_id same_entry running on_cpu changed same = (
  λ c.
      subst (λ n. Keeps s.tasks n (m.phases c)) (sym (ap (λ ids. get_or ids c 0) same))
        (subst (λ ts. Keeps ts (current m.sched c) (m.phases c)) (sym changed)
          (Keeps-set m.sched.tasks i t inside same_id same_entry (current m.sched c) (m.phases c)
            (λ e. (running, on_cpu)) (sound.0 c))),
  subst AllFound (sym changed) (AllFound-set m.sched.tasks i t inside same_id same_entry sound.1),
  sound.2,
)

-- A slot that no core is on gets a new task.
module _ (tasks : List Task) (i : ℕ) (t : Task) (all : AllFound tasks) (inside : i < length tasks)
    (fresh : has_entry t ≡ true → find_index (has_id t.id) tasks ≡ none) where
  elsewhere-below : (j : ℕ) → j < length tasks → j < length (set tasks i t)
  elsewhere-below j below = subst (λ n. j < n) (sym (length-set tasks i t)) below

  elsewhere-flag :
      (flag : Task → Bool) (j : ℕ)
      → i ≢ j
      → flag (entry_at tasks j) ≡ true
      → flag (entry_at (set tasks i t) j) ≡ true
  elsewhere-flag flag j other held = ap flag (get_or-set_ne tasks i j t zero_task other) ∙ held

  elsewhere-found : (id j : ℕ) → i ≢ j → IsCurrent tasks id j → IsCurrent (set tasks i t) id j
  elsewhere-found id j other found =
      find-set_fresh zero_task has_entry id_of has_id has_id-id has_id_self tasks i j id t all
        inside fresh other found

  Keeps-fresh :
      (id : ℕ) (phase : Phase)
      → slot_of phase ≢ some i
      → Keeps tasks id phase
      → Keeps (set tasks i t) id phase
  Keeps-fresh id idle off kept = tt
  Keeps-fresh id (chose j) off (below, flag, found) =
      let other : i ≢ j = λ e. off (ap some (sym e)) in
      (
        elsewhere-below j below,
        elsewhere-flag (λ u. u.running) j other flag,
        elsewhere-found id j other found,
      )
  Keeps-fresh id (runs j) off (below, flag, found) =
      let other : i ≢ j = λ e. off (ap some (sym e)) in
      (
        elsewhere-below j below,
        elsewhere-flag (λ u. u.on_cpu) j other flag,
        elsewhere-found id j other found,
      )
  Keeps-fresh id (leaves j) off (below, flag) =
      (elsewhere-below j below, elsewhere-flag (λ u. u.on_cpu) j (λ e. off (ap some (sym e))) flag)
  Keeps-fresh id (settled j) off (below, flag) =
      (elsewhere-below j below, elsewhere-flag (λ u. u.on_cpu) j (λ e. off (ap some (sym e))) flag)
  Keeps-fresh id (nested h j) off held = absurd held

  AllFound-fresh : AllFound (set tasks i t)
  AllFound-fresh =
      set_fresh-AllKeyed zero_task has_entry id_of has_id has_id-id has_id_self tasks i t inside
        fresh all

pub create-IsSound :
    (m : Machine) (has_stack : ℕ → Bool) (config : TaskConfig) (entry context i : ℕ) (s : Scheduler)
    → IsSound m
    → rad_task_create_config has_stack m.sched config entry context ≡ (value i, s)
    → (task_at m.sched i).on_cpu ≡ false
    → find_index (has_id m.sched.next_task_id) m.sched.tasks ≡ none
    → IsSound (stays m s)
create-IsSound m has_stack config entry context i s sound e off unknown =
    let (found, changed, same) =
      subst (Creates m.sched config entry context) e
        (rad_task_create_config-Creates has_stack m.sched config entry context) i refl in
    let reusable : is_reusable (task_at m.sched i) ≡ true =
      find_index-holds is_reusable zero_task m.sched.tasks i found in
    let inside = find_index-lt is_reusable m.sched.tasks i found in
    let free : ((task_at m.sched i).running ≡ false) ⊎ (has_entry (task_at m.sched i) ≡ false) =
      elim (Bool-cases (has_entry (task_at m.sched i))) [
        | inl entered ↦ inl (ground (arith, reusable, entered))
        | inr empty ↦ inr empty
      ] in
    let nobody = not-on m i sound off free in
    let t = fresh_task m.sched.next_task_id config entry context in
    (
      λ c.
          subst (λ n. Keeps s.tasks n (m.phases c)) (sym (ap (λ ids. get_or ids c 0) same))
            (subst (λ ts. Keeps ts (current m.sched c) (m.phases c)) (sym changed)
              (Keeps-fresh m.sched.tasks i t sound.1 inside (λ used. unknown) (current m.sched c)
                (m.phases c) (nobody c) (sound.0 c))),
      subst AllFound (sym changed)
          (AllFound-fresh m.sched.tasks i t sound.1 inside (λ used. unknown)),
      sound.2,
    )
