-- ===== src/Timers/Counting.antt =====
-- What the performance counters of RADKernel/core/RADKernel_runtime.cpp count.
use radpx_os.Base.{
  ℕ, ◌+◌, ◌-◌, ◌%◌, ◌^◌, ◌≤◌, ◌<◌, ◌≡◌, refl, sym, ap, ◌∙◌, inl, inr, true, false, Option, none,
  some, List, arith, ◌==◌, Bool-cases, Option-cases, length, set, take, take-all, length-take,
  find_index, find_index-lt, find_index-holds, find_index-set, find_index-fresh, get_or-set_self,
  CString, copy_string, text_eq_refl, text_eq_sound,
}
use native.Mathlib.Nat.{mod-eq_of_lt}
use radpx_os.Timers.{
  Counter, zero_counter, counter_at, is_counter, find_counter, is_unused, fresh_counter, raised,
  rad_perf_counter_add, perf_name_size, same_prefix,
}

-- The value of the counter of a name, 0 if there is none.
abbrev value_at : List Counter → Option ℕ → ℕ
value_at cs none = 0
value_at cs (some i) = (counter_at cs i).value

unfoldable pub value_of : List Counter → CString → ℕ
unfolding find_counter
value_of cs name = value_at cs (find_counter cs name)

short_matches :
    (name : CString)
    → length name < perf_name_size
    → same_prefix perf_name_size (copy_string perf_name_size name) name ≡ true
short_matches name short =
    rw (take-all (perf_name_size - 1) name (omega arith)) (text_eq_refl (take perf_name_size name))

-- In a table with a free slot, adding less than 2^64 under a name of 1 to 31 bytes raises what the
-- table has under the name by as much, in 64 bits, whether the name has a counter or not.
pub add-value_of :
    (cs : List Counter) (name : CString) (delta i : ℕ)
    → 0 < length name
    → length name < perf_name_size
    → delta < 2 ^ 64
    → find_index is_unused cs ≡ some i
    → value_of (rad_perf_counter_add cs name delta) name ≡ (value_of cs name + delta) % 2 ^ 64
unfolding value_of rad_perf_counter_add find_counter
add-value_of cs name delta i some_name short few free = elim (Option-cases (find_counter cs name)) [
  | inr (j, e) ↦
      let lt = find_index-lt (is_counter name) cs j e in
      let r = raised delta (counter_at cs j) in
      let stays = find_index-set (is_counter name) zero_counter cs j r refl in
      let test : (length name == 0) ≡ false = ground (arith, some_name) in
      rw (test, e, stays, e)
        (ap (λ (c : Counter). c.value) (get_or-set_self cs j r zero_counter lt))
  | inl e ↦
      let lt = find_index-lt is_unused cs i free in
      let r = fresh_counter name delta in
      let here =
        find_index-fresh (is_counter name) zero_counter cs i r e lt (short_matches name short) in
      let test : (length name == 0) ≡ false = ground (arith, some_name) in
      let alone : (0 + delta) % 2 ^ 64 ≡ delta =
        omega (arith, mod-eq_of_lt {n = 0 + delta} {m = 2 ^ 64} (omega arith)) in
      rw (test, e, free, here)
        (ap (λ (c : Counter). c.value) (get_or-set_self cs i r zero_counter lt) ∙ sym alone)
]

long_differs :
    (name : CString)
    → perf_name_size ≤ length name
    → same_prefix perf_name_size (copy_string perf_name_size name) name ≡ false
long_differs name long =
    elim (Bool-cases (same_prefix perf_name_size (copy_string perf_name_size name) name)) [
      | inr other ↦ other
      | inl alike ↦ absurd (
          omega (
            arith,
            long,
            ap (λ (s : CString). length s)
                (text_eq_sound (take perf_name_size (copy_string perf_name_size name))
                  (take perf_name_size name) alike),
            length-take perf_name_size (copy_string perf_name_size name),
            length-take perf_name_size name,
            length-take (perf_name_size - 1) name,
          ))
    ]

-- In a table with a free slot, an addition under a name of 32 bytes or more that is not found
-- fills the slot, and the name is still not found: the next addition fills one more.
pub long_name_never_found :
    (cs : List Counter) (name : CString) (delta i : ℕ)
    → perf_name_size ≤ length name
    → find_counter cs name ≡ none
    → find_index is_unused cs ≡ some i
    → (rad_perf_counter_add cs name delta ≡ set cs i (fresh_counter name delta))
      × (find_counter (rad_perf_counter_add cs name delta) name ≡ none)
unfolding rad_perf_counter_add find_counter
long_name_never_found cs name delta i long missing free =
    let test : (length name == 0) ≡ false = ground (arith, long) in
    let r = fresh_counter name delta in
    let unused = find_index-holds is_unused zero_counter cs i free in
    let same : is_counter name r ≡ is_counter name (counter_at cs i) =
      ground (arith, unused, long_differs name long) in
    rw (test, missing, free)
      (refl, find_index-set (is_counter name) zero_counter cs i r same ∙ missing)
