-- ===== src/Base/Outcome.antt =====
-- `rad_status_t` of RADKernel/headers/radkernel/radkernel.h, and a result that carries a value on
-- success and a status on failure (an `int32_t` that is a value or a negative status).
pub data Status : Type 0 where
  ok error invalid_argument not_found no_memory timeout not_supported already_exists : Status
  not_initialized : Status

pub data Result {ℓ} (A : Type ℓ) : Type ℓ where
  value : A → Result A
  fail : Status → Result A

-- A property of both cases of a result.
pub result_elim {ℓ κ μ} :
    {A : Type ℓ} {B : Type κ} (P : B → Type μ) (r : Result A) {f : Status → B} {g : A → B}
    → ((status : Status) → P (f status))
    → ((a : A) → P (g a))
    → P (elim r [ fail status ↦ f status | value a ↦ g a ])
result_elim P (fail status) failed found = failed status
result_elim P (value a) failed found = found a
