-- ===== src/Tasks/Apart.antt =====
-- That the cores of RADKernel/core/RADKernel_runtime.cpp are never two on one task.
use radpx_os.Base.{
  none, Option, option_elim, ℕ, zero, suc, ◌≡◌, refl, sym, ap, ◌∙◌, ◌≢◌, inl, inr, true, false,
  ◌&&◌, some, List, [], ◌∷◌, arith, if_elim, set, get_or, get_or-set_self, get_or-set_ne,
}
use mathlib.Core.Path.{subst}
use radpx_os.Base.Keyed.{some-same}
use radpx_os.Tasks.{
  Task, Scheduler, zero_task, task_at, put_task, choose_slot, choose_task, core_any, task_finished,
  task_detached, enter_task, settle_task, release_task, end_task,
}
use radpx_os.Tasks.Calls.{yielded, rad_task_detach, kill_task}
use radpx_os.Tasks.Cores.{
  idle, chose, runs, leaves, settled, Machine, moves, stays, Step, select, enter, yield, falls,
  nests, sleep, ends, settle, release, interrupt, kill, detach, create, Run, done, next, IsCareful,
  AllCareful, slot_of, AreExclusive,
}
use radpx_os.Tasks.Effects.{
  yield_task-IsLeft, sleep_task-IsLeft, slept, IsLeft, end_task-tasks, end_task-current, ended,
}
use radpx_os.Tasks.Exclusion.{
  entry_at, Keeps, found-set, flag-set, below-set, current, IsSound, goes-IsSound,
}
use radpx_os.Tasks.Stepping.{
  IsSound-Keeps, alone-at, goes-on, leaves-by, yielded-keeps, select-IsSound,
}
use radpx_os.Tasks.Interfering.{stays-IsSound, create-IsSound}

set_self : {A : Type 0} (xs : List A) (i : ℕ) (d : A) → set xs i (get_or xs i d) ≡ xs
set_self [] i d = refl
set_self (x ∷ xs) zero d = refl
set_self (x ∷ xs) (suc i) d = ap (λ t. x ∷ t) (set_self xs i d)

settle-IsSound :
    (m : Machine) (core i : ℕ)
    → IsSound m
    → m.phases core ≡ leaves i
    → IsSound (moves m (settle_task m.sched i) core (settled i))
unfolding settle_task
settle-IsSound m core i sound at_i =
    let (inside, flag) = IsSound-Keeps m core (leaves i) sound at_i in
    let old = task_at m.sched i in
    let here : slot_of (m.phases core) ≡ some i = ap slot_of at_i in
    let quiet = record old { running = false; current_core = core_any } in
    if_elim (λ (s : Scheduler). IsSound (moves m s core (settled i))) (old.finished && old.running)
      (λ e.
        goes-on m core i sound here (settled i) (put_task m.sched i quiet) quiet
          (λ j f. some-same i j f) refl inside refl refl refl
          (
            below-set m.sched.tasks i quiet inside refl refl i inside,
            flag-set m.sched.tasks i quiet inside refl refl (λ u. u.on_cpu) i (λ f. refl) flag,
          ))
      (λ e.
        goes-on m core i sound here (settled i) m.sched old (λ j f. some-same i j f) refl inside
          refl refl (sym (set_self m.sched.tasks i zero_task)) (inside, flag))

end-IsSound :
    (m : Machine) (core i : ℕ)
    → IsSound m
    → m.phases core ≡ runs i
    → IsSound (moves m (end_task m.sched core) core (leaves i))
end-IsSound m core i sound at_i =
    let (inside, flag, found) = IsSound-Keeps m core (runs i) sound at_i in
    let here : slot_of (m.phases core) ≡ some i = ap slot_of at_i in
    let s = end_task m.sched core in
    let tasks = m.sched.tasks in
    let phase = leaves i in
    let elsewhere : (d : ℕ) → d ≢ core → current s d ≡ current m.sched d = λ d other.
      ap (λ c. get_or c d 0) (end_task-current m.sched core)
      ∙ get_or-set_ne m.sched.current_task_id core d 0 0 (λ e. other (sym e)) in
    let alone = alone-at m core i sound here phase (λ k at. some-same i k at) in
    elim (end_task-tasks m.sched core) [
      | inl same ↦
          goes-IsSound m core phase s sound elsewhere alone
            (subst (λ ts. Keeps ts (current s core) phase) (sym same) (inside, flag)) i
            (entry_at tasks i) inside refl refl (same ∙ sym (set_self tasks i zero_task))
            (λ d other at_d. (refl, refl))
      | inr (j, below, changed) ↦
          let t = ended (entry_at tasks j) in
          let holds : Keeps (set tasks j t) (current s core) phase = (
            below-set tasks j t below refl refl i inside,
            flag-set tasks j t below refl refl (λ u. u.on_cpu) i (λ e. refl) flag,
          ) in
          goes-IsSound m core phase s sound elsewhere alone
            (subst (λ ts. Keeps ts (current s core) phase) (sym changed) holds) j t below refl refl
            changed (λ d other at_d. (refl, refl))
    ]

choose_task-none :
    (now : ℕ) (s : Scheduler) (core : ℕ) (after : Scheduler)
    → choose_task now s core ≡ (none, after)
    → after ≡ s
unfolding choose_task
choose_task-none now s core after =
    let P = λ (r : Option ℕ × Scheduler). r ≡ (none, after) → after ≡ s in
    option_elim P (choose_slot now s core)
      (λ e same. sym (ap (λ (r : Option ℕ × Scheduler). r.1) same))
      (λ i e same. absurd (ground (arith, ap (λ (r : Option ℕ × Scheduler). r.0) same)))

-- A step of a run keeps what holds between steps.
pub step-IsSound : {m n : Machine} (step : Step m n) → IsCareful step → IsSound m → IsSound n
unfolding enter_task release_task kill_task rad_task_detach
step-IsSound (select m now core i s on_core at_i e) careful sound =
    select-IsSound m now core i s sound on_core e
step-IsSound (enter m core i at_i) careful sound =
    let (inside, flag, found) = IsSound-Keeps m core (chose i) sound at_i in
    let t = record (task_at m.sched i) { on_cpu = true } in
    goes-on m core i sound (ap slot_of at_i) (runs i) (enter_task m.sched i) t
      (λ j f. some-same i j f) refl inside refl refl refl
      (
        below-set m.sched.tasks i t inside refl refl i inside,
        ap (λ u. u.on_cpu) (get_or-set_self m.sched.tasks i t zero_task inside),
        found-set m.sched.tasks i t inside refl refl (current m.sched core) ∙ found,
      )
step-IsSound (yield m core i j s at_i e) careful sound =
    let f = yielded (get_or m.sched.in_irq core false) core in
    leaves-by m core i sound (ap slot_of at_i) f (some j, s) j
      (yielded-keeps (get_or m.sched.in_irq core false) core)
      (subst (IsLeft f m.sched core) e (yield_task-IsLeft m.sched core)) refl
      (IsSound-Keeps m core (runs i) sound at_i)
step-IsSound (falls m now core i s at_i e) careful sound =
    subst (λ t. IsSound (stays m t)) (sym (choose_task-none now m.sched core s e)) sound
step-IsSound (nests m now core i j s at_i e) careful sound = absurd careful
step-IsSound (sleep m now core micros i j s at_i e) careful sound =
    leaves-by m core i sound (ap slot_of at_i) (slept now micros) (some j, s) j
      (λ t. (refl, refl, refl))
      (subst (IsLeft (slept now micros) m.sched core) e (sleep_task-IsLeft now m.sched core micros))
      refl (IsSound-Keeps m core (runs i) sound at_i)
step-IsSound (ends m core i at_i) careful sound = end-IsSound m core i sound at_i
step-IsSound (settle m core i at_i) careful sound = settle-IsSound m core i sound at_i
step-IsSound (release m core i at_i) careful sound =
    let (inside, flag) = IsSound-Keeps m core (settled i) sound at_i in
    goes-on m core i sound (ap slot_of at_i) idle (release_task m.sched i)
      (record (task_at m.sched i) { on_cpu = false }) (λ j f. absurd (ground (arith, f))) refl
      inside refl refl refl tt
step-IsSound (interrupt m flags) careful sound = sound
step-IsSound (kill m i inside) careful sound =
    stays-IsSound m (kill_task m.sched i) i
      (record (task_at m.sched i) {
        finished = true;
        state = task_finished;
        current_core = core_any;
      })
      sound inside refl refl refl refl refl refl
step-IsSound (detach m i inside) careful sound =
    let t = record (task_at m.sched i) { detached = true } in
    if_elim (λ (u : Task). IsSound (stays m (put_task m.sched i u))) t.finished
      (λ e.
        stays-IsSound m (put_task m.sched i (record t { state = task_detached })) i
          (record t { state = task_detached }) sound inside refl refl refl refl refl refl)
      (λ e. stays-IsSound m (put_task m.sched i t) i t sound inside refl refl refl refl refl refl)
step-IsSound (create m has_stack config entry context i s e) (off, unknown) sound =
    create-IsSound m has_stack config entry context i s sound e off unknown

-- Where contexts are switched, no two cores are ever on the task of one slot, however the cores
-- choose, enter, yield, put to sleep and end tasks, and whoever interrupts them, and kills,
-- detaches and creates tasks in between. It holds from a state in which it does, in which each
-- core that is on a slot has its flag `running` or `on_cpu` set and every task is found by its
-- identifier; when each task that is created gets a slot that no core is on any more, and an
-- identifier that no task has; and as long as no task that runs is given another to run in its
-- place by a call of run_one_task_on_core of its own, which rad_task_yield makes for a task that
-- was killed, or while the lock of the tasks is held, and rad_kernel_poll for any.
pub run-AreExclusive : {m n : Machine} (run : Run m n) → AllCareful run → IsSound m → AreExclusive n
run-AreExclusive (done m) careful sound = sound.2
run-AreExclusive (next m n o step run) (careful, rest) sound =
    run-AreExclusive run rest (step-IsSound step careful sound)
