-- ===== src/Irq.antt =====
-- The interrupt table of RADKernel/core/RADKernel_runtime.cpp: rad_irq_register, unregister, enable,
-- disable and dispatch. A handler and its context are numbers, none for null; `handled` is what was
-- called. The hardware's own switch is an argument, none where the board has none.
pub mod Dispatch
use radpx_os.Base.{
  ℕ, ◌+◌, ◌%◌, ◌^◌, Bool, true, false, not, ◌&&◌, Option, none, some, List, [], ◌∷◌, ◌++◌, ◌==◌,
  if◌then◌else◌, length, set, get_or, find_index, count, CString, copy_string, Status, ok,
  invalid_argument, not_found, no_memory, not_supported, already_exists,
}

-- RAD_KERNEL_MAX_IRQS and RAD_IRQ_NAME_MAX.
abbrev pub max_irqs : ℕ
max_irqs = 64

abbrev pub irq_name_size : ℕ
irq_name_size = 32

pub record IrqRecord : Type 0 where
  pub irq : ℕ
  pub name : CString
  pub handler : Option ℕ
  pub context : ℕ
  pub enabled : Bool
  pub count : ℕ
  pub unhandled_count : ℕ
  pub used : Bool

abbrev pub zero_irq : IrqRecord
zero_irq = record {
  irq = 0;
  name = [];
  handler = none;
  context = 0;
  enabled = false;
  count = 0;
  unhandled_count = 0;
  used = false;
}

-- One call of a handler: the handler, the interrupt and the context.
pub record Handled : Type 0 where
  pub handler : ℕ
  pub irq : ℕ
  pub context : ℕ

pub record Irqs : Type 0 where
  pub irqs : List IrqRecord
  pub handled : List Handled

abbrev pub irq_at : Irqs → ℕ → IrqRecord
irq_at s i = get_or s.irqs i zero_irq

abbrev pub put_irq : Irqs → ℕ → IrqRecord → Irqs
put_irq s i r = record s { irqs = set s.irqs i r }

abbrev pub has_irq : ℕ → IrqRecord → Bool
has_irq irq r = r.used && (r.irq == irq)

unfoldable pub find_irq : Irqs → ℕ → Option ℕ
find_irq s irq = find_index (has_irq irq) s.irqs

abbrev pub is_unused : IrqRecord → Bool
is_unused r = not r.used

abbrev pub registered : ℕ → CString → ℕ → ℕ → IrqRecord
registered irq name handler context = record zero_irq {
  used = true;
  irq = irq;
  name = copy_string irq_name_size name;
  handler = some handler;
  context = context;
}

-- A null name is an empty one here: both are refused.
unfoldable pub rad_irq_register : Irqs → ℕ → CString → Option ℕ → ℕ → Status × Irqs
unfolding find_irq
rad_irq_register s irq name none context = (invalid_argument, s)
rad_irq_register s irq name (some handler) context =
    if length name == 0 then (invalid_argument, s) else elim (find_irq s irq) [
      | some i ↦ (already_exists, s)
      | none ↦ elim (find_index is_unused s.irqs) [
        | none ↦ (no_memory, s)
        | some i ↦ (ok, put_irq s i (registered irq name handler context))
      ]
    ]

unfoldable pub rad_irq_unregister : Irqs → ℕ → Status × Irqs
unfolding find_irq
rad_irq_unregister s irq = elim (find_irq s irq) [
  | none ↦ (not_found, s)
  | some i ↦ (ok, put_irq s i zero_irq)
]

abbrev is_grave : Status → Bool
is_grave ok = false
is_grave not_supported = false
is_grave _ = true

abbrev switched : Option (ℕ → Status) → ℕ → Status
switched none irq = ok
switched (some hal) irq = if is_grave (hal irq) then hal irq else ok

-- `rad_irq_enable` with `on`, `rad_irq_disable` without.
unfoldable pub rad_irq_switch : Option (ℕ → Status) → Bool → Irqs → ℕ → Status × Irqs
unfolding find_irq
rad_irq_switch hal on s irq = elim (find_irq s irq) [
  | none ↦ (not_found, s)
  | some i ↦ (switched hal irq, put_irq s i (record (irq_at s i) { enabled = on }))
]

abbrev counted : IrqRecord → IrqRecord
counted r = record r { count = (r.count + 1) % 2 ^ 64 }

abbrev unhandled : IrqRecord → IrqRecord
unhandled r = record r { unhandled_count = (r.unhandled_count + 1) % 2 ^ 64 }

abbrev pub handle : Irqs → ℕ → ℕ → IrqRecord → Option ℕ → Status × Irqs
handle s irq i r none = (not_supported, put_irq s i (unhandled r))
handle s irq i r (some handler) =
    if r.enabled
    then (
      ok,
      record {
        irqs = set s.irqs i (counted r);
        handled = s.handled ++ (record { handler = handler; irq = irq; context = r.context } ∷ []);
      },
    )
    else (not_supported, put_irq s i (unhandled r))

unfoldable pub rad_irq_dispatch : Irqs → ℕ → Status × Irqs
unfolding find_irq
rad_irq_dispatch s irq = elim (find_irq s irq) [
  | none ↦ (not_found, s)
  | some i ↦ handle s irq i (irq_at s i) (irq_at s i).handler
]
