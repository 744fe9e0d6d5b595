-- ===== src/Tests/DescriptorTests.antt =====
-- Descriptors of RADKernel/core/RADKernel_runtime.cpp at concrete tables.
use radpx_os.Base.{◌≡◌, refl, [], find_index, no_memory, value, fail}
use radpx_os.Base.Int.{pos}
use radpx_os.Kernel.{Kernel, current_process_pid}
use radpx_os.Descriptors.{close_fd_index, find_fd_slot, fd_owner_index}
use radpx_os.Descriptors.Calls.{rad_fd_dup, rad_fd_dup2}
use radpx_os.Descriptors.References.Table.{Counted}
use radpx_os.Descriptors.References.Closing.{close_fd_index-Counted}
use radpx_os.Descriptors.References.Installing.{rad_fd_dup-Counted, rad_fd_dup_leaks}
use radpx_os.Tests.Fixtures.{kernel_of, shared_fds, full_fds, shared_fds-Counted, full_fds-Counted}

abbrev shared : Kernel
shared = kernel_of 1 shared_fds []

abbrev full : Kernel
full = kernel_of 1 full_fds []

-- Descriptor 3 is closed, and 4 becomes the owner.
close_fd_index-Counted_example : Counted (close_fd_index shared 0).fds
close_fd_index-Counted_example = close_fd_index-Counted shared 0 shared_fds-Counted

dup_of_shared : rad_fd_dup shared (pos 3) ≡ (value 5, (rad_fd_dup shared (pos 3)).1)
unfolding rad_fd_dup fd_owner_index find_fd_slot current_process_pid
    radpx_os.Descriptors.install_any radpx_os.Descriptors.next_number radpx_os.Descriptors.place
    find_index
dup_of_shared = refl

rad_fd_dup-Counted_example : Counted (rad_fd_dup shared (pos 3)).1.fds
rad_fd_dup-Counted_example =
    rad_fd_dup-Counted shared (rad_fd_dup shared (pos 3)).1 (pos 3) 5 shared_fds-Counted
      dup_of_shared

rad_fd_dup_leaks_example :
    ((rad_fd_dup full (pos 3)).0 ≡ fail no_memory) × (¬ Counted (rad_fd_dup full (pos 3)).1.fds)
unfolding find_index fd_owner_index find_fd_slot current_process_pid
rad_fd_dup_leaks_example = rad_fd_dup_leaks full (pos 3) 0 full_fds-Counted refl refl

dup2_of_shared :
    rad_fd_dup2 shared (pos 4) (pos 3) ≡ (value 3, (rad_fd_dup2 shared (pos 4) (pos 3)).1)
unfolding rad_fd_dup2 fd_owner_index find_fd_slot current_process_pid
    radpx_os.Descriptors.install_at radpx_os.Descriptors.place find_index close_fd_index
dup2_of_shared = refl
