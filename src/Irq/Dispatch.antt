-- ===== src/Irq/Dispatch.antt =====
-- From registration to the handler in RADKernel/core/RADKernel_runtime.cpp.
use radpx_os.Base.{
  ℕ, ◌<◌, ◌≡◌, refl, sym, ap, ◌∙◌, Bool, true, Option, none, some, [], ◌∷◌, ◌++◌, arith, ◌==◌,
  if_elim, option_elim, length, length-set, find_index, find_index-lt, find_index-set,
  find_index-fresh, get_or-set_self, CString, Status, ok, not_supported,
}
use mathlib.Core.Path.{subst}
use radpx_os.Irq.{
  IrqRecord, zero_irq, Handled, Irqs, irq_at, put_irq, has_irq, find_irq, is_unused, registered,
  rad_irq_register, rad_irq_switch, rad_irq_dispatch, handle,
}

-- What a call of `rad_irq_register` may come to.
abbrev pub RegisterFits : Irqs → ℕ → CString → ℕ → ℕ → Status × Irqs → Type 0
RegisterFits s irq name handler context (ok, s') =
    (i : ℕ) × (find_irq s irq ≡ none)
    × (find_index is_unused s.irqs ≡ some i)
    × (s' ≡ put_irq s i (registered irq name handler context))
RegisterFits s irq name handler context (_, s') = s' ≡ s

pub rad_irq_register-RegisterFits :
    (s : Irqs) (irq : ℕ) (name : CString) (handler context : ℕ)
    → RegisterFits s irq name handler context (rad_irq_register s irq name (some handler) context)
unfolding rad_irq_register
rad_irq_register-RegisterFits s irq name handler context =
    let P = RegisterFits s irq name handler context in
    if_elim P (length name == 0) (λ h. refl)
      (λ h.
        option_elim P (find_irq s irq)
          (λ e. option_elim P (find_index is_unused s.irqs) (λ f. refl) (λ i f. (i, e, f, refl)))
          (λ i e. refl))

dispatch_at :
    (s : Irqs) (irq i : ℕ) (r : IrqRecord)
    → find_irq s irq ≡ some i
    → irq_at s i ≡ r
    → rad_irq_dispatch s irq ≡ handle s irq i r r.handler
unfolding rad_irq_dispatch
dispatch_at s irq i r found here = rw (rad_irq_dispatch, found, here) refl

switch_at :
    (hal : Option (ℕ → Status)) (on : Bool) (s : Irqs) (irq i : ℕ)
    → find_irq s irq ≡ some i
    → (rad_irq_switch hal on s irq).1 ≡ put_irq s i (record (irq_at s i) { enabled = on })
unfolding rad_irq_switch
switch_at hal on s irq i found = rw (rad_irq_switch, found) refl

module _ (s : Irqs) (irq handler context i : ℕ) (name : CString) (fresh : find_irq s irq ≡ none)
    (free : find_index is_unused s.irqs ≡ some i) where
  own : IrqRecord
  own = registered irq name handler context

  after : Irqs
  after = put_irq s i own

  lt : i < length s.irqs
  lt = find_index-lt is_unused s.irqs i free

  found : find_irq after irq ≡ some i
  unfolding find_irq after own
  found = find_index-fresh (has_irq irq) zero_irq s.irqs i own fresh lt (ground arith)

  here : irq_at after i ≡ own
  unfolding after
  here = get_or-set_self s.irqs i own zero_irq lt

  open_record : IrqRecord
  open_record = record own { enabled = true }

  enabled_found : find_irq (put_irq after i open_record) irq ≡ some i
  unfolding find_irq after own open_record
  enabled_found =
      find_index-set (has_irq irq) zero_irq after.irqs i open_record (ap (has_irq irq) (sym here))
      ∙ found

  enabled_here : irq_at (put_irq after i open_record) i ≡ open_record
  unfolding after
  enabled_here = get_or-set_self after.irqs i open_record zero_irq (rw (length-set s.irqs i own) lt)

  dispatches :
      (hal : Option (ℕ → Status))
      → ((rad_irq_dispatch (rad_irq_switch hal true after irq).1 irq).0 ≡ ok)
        × ((rad_irq_dispatch (rad_irq_switch hal true after irq).1 irq).1.handled
            ≡ s.handled ++ (record { handler = handler; irq = irq; context = context } ∷ []))
        × ((rad_irq_dispatch after irq).0 ≡ not_supported)
        × ((rad_irq_dispatch after irq).1.handled ≡ s.handled)
  unfolding own open_record after
  dispatches hal =
      let on : (rad_irq_switch hal true after irq).1 ≡ put_irq after i open_record =
        switch_at hal true after irq i found
        ∙ ap (λ r. put_irq after i (record r { enabled = true })) here in
      rw
        (
          on,
          dispatch_at (put_irq after i open_record) irq i open_record enabled_found enabled_here,
          dispatch_at after irq i own found here,
        )
        (refl, refl, refl, refl)

-- An interrupt that has been registered and then enabled calls its own handler, once, with its
-- context; one that has been registered and not enabled calls none and is reported as not
-- supported.
pub register_then_dispatch :
    (s s1 : Irqs) (irq : ℕ) (name : CString) (handler context : ℕ) (hal : Option (ℕ → Status))
    → rad_irq_register s irq name (some handler) context ≡ (ok, s1)
    → let s2 = (rad_irq_switch hal true s1 irq).1 in
      let call : Handled = record { handler = handler; irq = irq; context = context } in
      ((rad_irq_dispatch s2 irq).0 ≡ ok)
      × ((rad_irq_dispatch s2 irq).1.handled ≡ s.handled ++ (call ∷ []))
      × ((rad_irq_dispatch s1 irq).0 ≡ not_supported)
      × ((rad_irq_dispatch s1 irq).1.handled ≡ s.handled)
unfolding after own
register_then_dispatch s s1 irq name handler context hal done =
    let (i, fresh, free, writes) =
      subst (RegisterFits s irq name handler context) done
        (rad_irq_register-RegisterFits s irq name handler context) in
    rw writes (dispatches s irq handler context i name fresh free hal)
