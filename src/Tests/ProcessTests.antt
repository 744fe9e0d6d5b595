-- ===== src/Tests/ProcessTests.antt =====
-- Processes of RADKernel/core/RADKernel_runtime.cpp at concrete tables.
use radpx_os.Base.{
  ℕ, suc, ◌≤◌, ◌*◌, ◌%◌, ◌^◌, ◌≡◌, refl, ◌↔◌, false, none, some, List, [], ◌∷◌, arith,
  if◌then◌else◌, length, find_index, CString, codes, ok,
}
use radpx_os.Base.Int.{pos, negsuc}
use radpx_os.Kernel.{Kernel, Credentials, root, current_process_pid}
use radpx_os.Process.{
  find_process, process_at, rad_process_create, rad_process_exit, rad_process_waitpid,
  credentials_of, child, next_free_pid,
}
use radpx_os.Process.Table.{
  Outcome, makes_init, settled_parent, rad_process_create-Outcome, next_free_pid_total, int32_max,
}
use radpx_os.Process.Waiting.{on_core, exit_then_wait}
use radpx_os.Process.Signals.{rad_process_kill, kill_group_exact, Signalled, IsMember}
use radpx_os.Process.Identity.{Change, setuid, setgid, set_credentials, changes}
use radpx_os.Process.Identity.Privilege.{IsUnprivileged, OthersKept, changes-IsUnprivileged}
use radpx_os.Tests.Fixtures.{kernel_of, family, family-AreDistinct, early_family}

-- Init runs, or the user's process does.
abbrev by_init : Kernel
by_init = kernel_of 1 [] family

abbrev by_user : Kernel
by_user = kernel_of 3 [] family

abbrev shell : CString
shell = codes "/bin/sh"

next_free_pid_total_example :
    let next = next_free_pid family 2 (suc (length family)) in
    (find_process family next ≡ none) × (2 ≤ next) × (next ≤ int32_max)
next_free_pid_total_example = next_free_pid_total family 2 (omega arith)

rad_process_create-Outcome_example :
    Outcome by_init
      (if makes_init by_init shell
        then root
        else credentials_of family (find_process family (settled_parent by_init shell (pos 3))))
      (rad_process_create by_init shell (pos 3))
rad_process_create-Outcome_example =
    rad_process_create-Outcome by_init shell (pos 3) family-AreDistinct (omega arith) (omega arith)

found_user : find_process family 3 ≡ some 2
unfolding find_process find_index
found_user = refl

exit_then_wait_example :
    let (result, k') =
      rad_process_waitpid (on_core (rad_process_exit (on_core by_init 3) 300) 1) (pos 3) false [] in
    (result ≡ some (child 3 (300 % 2 ^ 8 * 2 ^ 8))) × (find_process k'.processes 3 ≡ none)
exit_then_wait_example = exit_then_wait by_init 2 2 300 false [] family-AreDistinct found_user

kill_group_exact_example :
    ((i : ℕ)
      → Signalled 2 9
          (process_at family i)
          (process_at (rad_process_kill by_init (negsuc 1) (pos 9)).1.processes i))
    × (((rad_process_kill by_init (negsuc 1) (pos 9)).0 ≡ ok)
        ↔ ((i : ℕ) × IsMember 2 (process_at family i)))
kill_group_exact_example = kill_group_exact by_init 0 8 (omega arith)

abbrev early : Kernel
early = kernel_of 1 [] early_family

by_user-IsUnprivileged : IsUnprivileged 1000 2 by_user
unfolding find_process current_process_pid find_index
by_user-IsUnprivileged = record { caller = refl; real = refl; effective = λ e. omega (arith, e) }

abbrev attempts : List Change
attempts = setuid 0 ∷ set_credentials (pos 1) root ∷ set_credentials (pos 0) root ∷ setgid 0 ∷ []

changes-IsUnprivileged_example :
    IsUnprivileged 1000 2 (changes by_user attempts)
    × OthersKept 2 by_user (changes by_user attempts)
changes-IsUnprivileged_example =
    changes-IsUnprivileged attempts by_user 1000 2 (λ e. omega (arith, e)) by_user-IsUnprivileged

abbrev in_group_zero : Credentials
in_group_zero = record { uid = 1000; euid = 1000; gid = 0; egid = 0 }
