-- ===== src/Files/Changes.antt =====
-- Any order of the calls of RADKernel/core/RADKernel_runtime.cpp that change files, mounts or the
-- directory.
use radpx_os.Base.{ℕ, Bool, Option, List, [], ◌∷◌, CString, Status}
use radpx_os.Kernel.{Kernel}
use radpx_os.Files.{Vfs, Backends}
use radpx_os.Files.Handles.{Handle, rad_vfs_open, rad_vfs_write}
use radpx_os.Files.Names.{rad_vfs_mkdir, rad_vfs_remove, rad_vfs_rmdir, rad_vfs_chdir}
use radpx_os.Files.Edits.{rad_vfs_rename, rad_vfs_link, rad_vfs_truncate, rad_vfs_chmod}
use radpx_os.Files.Mounts.{rad_vfs_mount_sd, rad_vfs_mount_provider, rad_vfs_unmount}

pub data Change : Type 0 where
  open_file : Bool → CString → ℕ → Change
  write_file : Handle → List ℕ → Change
  mkdir remove rmdir chdir unmount : CString → Change
  rename link : CString → CString → Change
  truncate chmod mount_provider : CString → ℕ → Change
  mount_sd : Option Status → CString → Change

unfoldable pub change : Backends → Kernel → Vfs → Change → Vfs
unfolding rad_vfs_open rad_vfs_write rad_vfs_mkdir rad_vfs_remove rad_vfs_rmdir rad_vfs_chdir
    rad_vfs_rename rad_vfs_link rad_vfs_truncate rad_vfs_chmod rad_vfs_mount_sd
    rad_vfs_mount_provider rad_vfs_unmount
change b k v (open_file has_memory path flags) = (rad_vfs_open b k has_memory v path flags).1
change b k v (write_file file buffer) = (rad_vfs_write b v file buffer).2
change b k v (mkdir path) = (rad_vfs_mkdir b k v path).1
change b k v (remove path) = (rad_vfs_remove b k v path).1
change b k v (rmdir path) = (rad_vfs_rmdir b k v path).1
change b k v (chdir path) = (rad_vfs_chdir b k v path).1
change b k v (unmount path) = (rad_vfs_unmount v path).1
change b k v (rename old_path new_path) = (rad_vfs_rename b k v old_path new_path).1
change b k v (link old_path new_path) = (rad_vfs_link b v old_path new_path).1
change b k v (truncate path size) = (rad_vfs_truncate b k v path size).1
change b k v (chmod path mode) = (rad_vfs_chmod b k v path mode).1
change b k v (mount_provider path ops) = (rad_vfs_mount_provider k v path ops).1
change b k v (mount_sd board path) = (rad_vfs_mount_sd k v board path).1

-- Each call with what the providers answer then, and with the process that makes it.
unfoldable pub changes : Vfs → List (Backends × Kernel × Change) → Vfs
unfolding change
changes v [] = v
changes v ((b, k, c) ∷ cs) = changes (change b k v c) cs
