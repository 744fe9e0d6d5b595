-- ===== src/Process/Groups/Sessions.antt =====
-- `rad_process_setsid` and `rad_process_setpgid` of RADKernel/core/RADKernel_runtime.cpp, and what
-- the getters say after them.
use radpx_os.Base.{
  ℕ, ◌<◌, ◌≡◌, refl, ◌∙◌, ◌⊎◌, inl, inr, true, false, none, some, arith, Option-cases, length,
  length-set, find_index, find_index-lt, find_index-holds, find_index-none, find_index-set,
  get_or-set, get_or-set_self, Result, value, fail,
}
use radpx_os.Base.Int.{pos}
use radpx_os.Kernel.{Kernel, zero_process, current_process_pid}
use radpx_os.Process.{find_process, find_process_ℤ, process_at, has_pid, with_process}
use radpx_os.Process.Groups.{
  rad_process_getpgid, rad_process_getsid, rad_process_setsid, is_follower, leader,
}

-- What a call of `rad_process_setsid` may come to.
abbrev pub SetsidFits : Kernel → Result ℕ × Kernel → Type 0
SetsidFits k (value session, k') =
    (rad_process_getsid k' (pos 0) ≡ value session)
    × (rad_process_getpgid k' (pos 0) ≡ value session)
    × ((j : ℕ) → j < length k'.processes → is_follower session (process_at k'.processes j) ≡ false)
SetsidFits k (fail status, k') =
    (k' ≡ k)
    × ((find_process k.processes (current_process_pid k) ≡ none)
        ⊎ ((i : ℕ) × (find_process k.processes (current_process_pid k) ≡ some i)
            × (j : ℕ) × (is_follower (process_at k.processes i).pid (process_at k.processes j)
                ≡ true)))

module _ (k : Kernel) (i : ℕ) (found : find_process k.processes (current_process_pid k) ≡ some i)
    (alone : find_index (is_follower (process_at k.processes i).pid) k.processes ≡ none) where
  lt : i < length k.processes
  unfolding find_process
  lt = find_index-lt (has_pid (current_process_pid k)) k.processes i found

  led : Kernel
  led = with_process k i leader

  still_found : find_process led.processes (current_process_pid k) ≡ some i
  unfolding find_process led
  still_found =
      find_index-set (has_pid (current_process_pid k)) zero_process k.processes i
        (leader (process_at k.processes i)) refl
      ∙ found

  at_leader : process_at led.processes i ≡ leader (process_at k.processes i)
  unfolding led
  at_leader = get_or-set_self k.processes i (leader (process_at k.processes i)) zero_process lt

  led_alone :
      (j : ℕ)
      → j < length led.processes
      → is_follower (process_at k.processes i).pid (process_at led.processes j) ≡ false
  unfolding led
  led_alone j lt' =
      elim (get_or-set k.processes i j (leader (process_at k.processes i)) zero_process lt) [
        | inl (e, f) ↦ rw f (ground arith)
        | inr (e, f) ↦ rw f (
            find_index-none (is_follower (process_at k.processes i).pid) zero_process k.processes j
              alone (ground (arith, length-set k.processes i (leader (process_at k.processes i)))))
      ]

  leads : SetsidFits k (value (process_at k.processes i).pid, led)
  unfolding led rad_process_getsid rad_process_getpgid find_process_ℤ current_process_pid
      find_process
  leads = (
    rw (rad_process_getsid, still_found, at_leader) (ground arith),
    rw (rad_process_getpgid, still_found, at_leader) (ground arith),
    led_alone,
  )

-- When `rad_process_setsid` succeeds, the caller is alone in a session and a group of its own: the
-- getters return its identifier for both, and no other process is in the group. When it fails, nothing
-- changes, and the caller is not in the table or another process is in the group of its identifier.
pub rad_process_setsid-SetsidFits : (k : Kernel) → SetsidFits k (rad_process_setsid k)
unfolding rad_process_setsid led
rad_process_setsid-SetsidFits k =
    elim (Option-cases (find_process k.processes (current_process_pid k))) [
      | inl e ↦ rw (e, rad_process_setsid) (refl, inl e)
      | inr (i, e) ↦
          elim (Option-cases
            (find_index (is_follower (process_at k.processes i).pid) k.processes)) [
              | inl f ↦ rw (e, f, rad_process_setsid) (leads k i e f)
              | inr (j, f) ↦
                  rw (e, f, rad_process_setsid)
                    (
                      refl,
                      inr (
                        i,
                        e,
                        j,
                        find_index-holds (is_follower (process_at k.processes i).pid) zero_process
                            k.processes j f,
                      ),
                    )
            ]
    ]
