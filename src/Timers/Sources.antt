-- ===== src/Timers/Sources.antt =====
-- The table of timer sources of RADKernel/core/RADKernel_runtime.cpp.
use radpx_os.Base.{
  ℕ, ◌-◌, ◌<◌, ◌≡◌, refl, Bool, true, false, none, some, arith, ◌==◌, if_elim, option_elim, length,
  take-all, find_index, find_index-lt, find_index-fresh, CString, copy_string, text_eq_refl,
  text_eq, Status, ok, already_exists,
}
use mathlib.Core.Path.{subst}
use radpx_os.Timers.{
  TimerOps, zero_timer, Timers, put_source, is_source, find_source, is_free, fresh_source, started,
  timer_name_size, rad_timer_source_register, rad_timer_source_unregister,
}

-- What a call of `rad_timer_source_register` may come to when the source starts.
abbrev pub RegisterFits : Timers → CString → ℕ → Bool → TimerOps → Status × Timers → Type 0
RegisterFits s name hz oneshot ops (ok, s') =
    (i : ℕ) × (find_source s name ≡ none)
    × (find_index is_free s.sources ≡ some i)
    × (s' ≡ put_source s i (fresh_source name hz oneshot ops))
RegisterFits s name hz oneshot ops (_, s') = s' ≡ s

register-fits :
    (s : Timers) (name : CString) (hz : ℕ) (oneshot : Bool) (ops : TimerOps)
    → started ops hz ≡ ok
    → RegisterFits s name hz oneshot ops (rad_timer_source_register s name hz oneshot ops)
unfolding rad_timer_source_register
register-fits s name hz oneshot ops starts =
    let P = RegisterFits s name hz oneshot ops in
    if_elim P (length name == 0) (λ h. refl)
      (λ h.
        option_elim P (find_source s name)
          (λ e.
            option_elim P (find_index is_free s.sources) (λ f. refl)
              (λ i f. rw starts (i, e, f, refl)))
          (λ i e. refl))

-- A source with a name of 1 to 31 bytes, that starts and whose registration succeeds, is found
-- under its name: it is refused a second time, and can be unregistered.
pub register_then_again :
    (s s1 : Timers) (name : CString) (hz hz2 : ℕ) (oneshot : Bool) (ops : TimerOps)
    → started ops hz ≡ ok
    → length name < timer_name_size
    → 0 < length name
    → rad_timer_source_register s name hz oneshot ops ≡ (ok, s1)
    → (rad_timer_source_register s1 name hz2 oneshot ops ≡ (already_exists, s1))
      × ((rad_timer_source_unregister s1 name).0 ≡ ok)
unfolding rad_timer_source_register rad_timer_source_unregister find_source
register_then_again s s1 name hz hz2 oneshot ops starts short some_name done =
    let (i, fresh, free, writes) =
      subst (RegisterFits s name hz oneshot ops) done
        (register-fits s name hz oneshot ops starts) in
    let t = fresh_source name hz oneshot ops in
    let named : text_eq (copy_string timer_name_size name) name ≡ true =
      rw (take-all (timer_name_size - 1) name (omega arith)) (text_eq_refl name) in
    let found : find_index (is_source name) s1.sources ≡ some i = rw writes (
      find_index-fresh (is_source name) zero_timer s.sources i t fresh
        (find_index-lt is_free s.sources i free) named) in
    let test : (length name == 0) ≡ false = ground (arith, some_name) in
    rw (test, found, rad_timer_source_unregister) (refl, refl)
