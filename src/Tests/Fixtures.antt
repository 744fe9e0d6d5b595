-- ===== src/Tests/Fixtures.antt =====
-- States of the kernel of RADKernel/core/RADKernel_runtime.cpp that the tests start from.
use radpx_os.Base.{ℕ, zero, suc, ◌≡◌, refl, true, false, some, List, [], ◌∷◌, arith, count}
use radpx_os.Base.Int.{pos}
use radpx_os.Kernel.{
  Kernel, FdRecord, fd_file, zero_fd, ProcessRecord, zero_process, running, Credentials,
}
use radpx_os.Descriptors.{owned_by}
use radpx_os.Descriptors.References.Table.{at, Counted}
use radpx_os.Process.{process_at, has_pid}
use radpx_os.Process.Table.{AreDistinct}

-- A kernel in which process `pid` runs.
abbrev pub kernel_of : ℕ → List FdRecord → List ProcessRecord → Kernel
kernel_of pid fds processes = record {
  fds = fds;
  pipes = [];
  sockets = [];
  shm_objects = [];
  processes = processes;
  core_pid = pos pid;
  current_pid = pos 0;
  next_pid = 2;
  has_reaped_hook = false;
  calls = [];
}

-- A descriptor of process 1 for an open file that the record in slot `owner` owns.
abbrev pub file_fd : ℕ → ℕ → ℕ → FdRecord
file_fd owner number refs = record zero_fd {
  kind = fd_file;
  file = some 7;
  refs = refs;
  owner_fd = pos owner;
  owner_pid = pos 1;
  local_fd = pos number;
  used = true;
}

-- Two descriptors, 3 and 4, that share a file, and a free slot.
abbrev pub shared_fds : List FdRecord
shared_fds = file_fd 0 3 2 ∷ file_fd 0 4 2 ∷ zero_fd ∷ []

-- The same with no free slot.
abbrev pub full_fds : List FdRecord
full_fds = file_fd 0 3 2 ∷ file_fd 0 4 2 ∷ []

pub shared_fds-Counted : Counted shared_fds
unfolding count
shared_fds-Counted = record { owned = λ i. owned i; counted = λ i. counted i }
  where
    owned :
        (i : ℕ)
        → (at shared_fds i).used ≡ true
        → (o : ℕ) × (owned_by o (at shared_fds i) ≡ true) × (owned_by o (at shared_fds o) ≡ true)
    owned zero h = (0, refl, refl)
    owned (suc zero) h = (0, refl, refl)
    owned (suc (suc zero)) h = cc
    owned (suc (suc (suc i))) h = cc

    counted :
        (i : ℕ)
        → owned_by i (at shared_fds i) ≡ true
        → (at shared_fds i).refs ≡ count (owned_by i) shared_fds
    counted zero h = refl
    counted (suc zero) h = cc
    counted (suc (suc zero)) h = cc
    counted (suc (suc (suc i))) h = cc

pub full_fds-Counted : Counted full_fds
unfolding count
full_fds-Counted = record { owned = λ i. owned i; counted = λ i. counted i }
  where
    owned :
        (i : ℕ)
        → (at full_fds i).used ≡ true
        → (o : ℕ) × (owned_by o (at full_fds i) ≡ true) × (owned_by o (at full_fds o) ≡ true)
    owned zero h = (0, refl, refl)
    owned (suc zero) h = (0, refl, refl)
    owned (suc (suc i)) h = cc

    counted :
        (i : ℕ)
        → owned_by i (at full_fds i) ≡ true
        → (at full_fds i).refs ≡ count (owned_by i) full_fds
    counted zero h = refl
    counted (suc zero) h = cc
    counted (suc (suc i)) h = cc

abbrev pub user : Credentials
user = record { uid = 1000; euid = 1000; gid = 100; egid = 100 }

abbrev pub process_of : ℕ → ℕ → ℕ → Credentials → ProcessRecord
process_of pid parent group credentials = record zero_process {
  pid = pid;
  parent_pid = parent;
  process_group_id = group;
  session_id = 1;
  state = running;
  credentials = credentials;
  used = true;
}

abbrev pub init_credentials : Credentials
init_credentials = record { uid = 0; euid = 0; gid = 0; egid = 0 }

-- Init, two of its children in one group, the second a user's, and a free record.
abbrev pub family : List ProcessRecord
family =
    process_of 1 0 1 init_credentials
    ∷ process_of 2 1 2 init_credentials
    ∷ process_of 3 1 2 user
    ∷ zero_process
    ∷ []

pub family-AreDistinct : AreDistinct family
family-AreDistinct i j pid hi hj = omega (arith, slot_of i pid hi, slot_of j pid hj)
  where
    slot_of : (i pid : ℕ) → has_pid pid (process_at family i) ≡ true → pid ≡ suc i
    slot_of zero pid h = ground arith
    slot_of (suc zero) pid h = ground arith
    slot_of (suc (suc zero)) pid h = ground arith
    slot_of (suc (suc (suc zero))) pid h = cc
    slot_of (suc (suc (suc (suc i)))) pid h = cc

-- The kernel's own record, a process that no group was set for, and a third.
abbrev pub early_family : List ProcessRecord
early_family = process_of 0 0 0 init_credentials ∷ process_of 1 0 0 init_credentials ∷ []
