-- ===== src/Files/Edits.antt =====
-- Changes of files by name of RADKernel/core/RADKernel_runtime.cpp: rad_vfs_rename, rad_vfs_link,
-- rad_vfs_truncate, rad_vfs_readlink, rad_vfs_symlink and rad_vfs_chmod.
use radpx_os.Base.{
  ℕ, ◌-◌, not, ◌&&◌, none, some, ltb, ◌==◌, if◌then◌else◌, replicate, CString, copy_string, Status,
  ok, invalid_argument, not_found, no_memory, not_supported, already_exists,
}
use Prim.Native.Nat.{bit_and, bit_or}
use radpx_os.Kernel.{Kernel}
use radpx_os.Process.{current_credentials}
use radpx_os.Files.{
  VfsFile, Vfs, Request, Backends, path_size, file_bytes, file_at, put_file, normalized,
  find_file_or_dir, fill_stat, can_write_stat, provider_for_path, rename_of, link_of, symlink_of,
  truncate_of, chmod_of, readlink_of,
}
use radpx_os.Files.Handles.{parent_allows, overwrite}

unfoldable pub rename_own : Kernel → Vfs → CString → CString → Status × Vfs
unfolding find_file_or_dir parent_allows
rename_own k v old_name new_name = elim (find_file_or_dir v.files old_name) [
  | none ↦ (not_found, v)
  | some i ↦ elim (find_file_or_dir v.files new_name) [
    | some j ↦ (already_exists, v)
    | none ↦ elim (parent_allows k v new_name) [
      | some status ↦ (status, v)
      | none ↦ (ok, put_file v i (record (file_at v i) { path = copy_string path_size new_name }))
    ]
  ]
]

-- Two paths, which must have the same provider or none. `own` is what is done without one.
unfoldable pub with_two :
    Backends → Vfs → CString → CString → (CString → CString → Request) → Status × Vfs → Status × Vfs
unfolding provider_for_path
with_two b v old_name new_name request own = elim (provider_for_path v old_name) [
  | none ↦ elim (provider_for_path v new_name) [ none ↦ own | some q ↦ (invalid_argument, v) ]
  | some (i, ops, old_relative) ↦ elim (provider_for_path v new_name) [
    | none ↦ (invalid_argument, v)
    | some (j, new_ops, new_relative) ↦
        if i == j
        then (b.status_of ops (request old_relative new_relative), v)
        else (invalid_argument, v)
  ]
]

unfoldable pub rad_vfs_rename : Backends → Kernel → Vfs → CString → CString → Status × Vfs
unfolding with_two rename_own
rad_vfs_rename b k v old_path new_path =
    let old_name = normalized v old_path in
    let new_name = normalized v new_path in
    with_two b v old_name new_name rename_of (rename_own k v old_name new_name)

unfoldable pub rad_vfs_link : Backends → Vfs → CString → CString → Status × Vfs
unfolding with_two
rad_vfs_link b v old_path new_path =
    with_two b v (normalized v old_path) (normalized v new_path) link_of (not_supported, v)

abbrev pub resized : ℕ → VfsFile → VfsFile
resized size f = record f {
  data_bytes =
      if ltb f.size size
      then overwrite f.data_bytes f.size (replicate (size - f.size) 0)
      else f.data_bytes;
  size = size;
}

unfoldable pub truncate_own : Kernel → Vfs → CString → ℕ → Status × Vfs
unfolding find_file_or_dir
truncate_own k v name size =
    if ltb file_bytes size then (no_memory, v) else elim (find_file_or_dir v.files name) [
      | none ↦ (not_found, v)
      | some i ↦
          let f = file_at v i in
          if f.is_directory
          then (not_found, v)
          else if not (can_write_stat k (fill_stat f))
          then (invalid_argument, v)
          else (ok, put_file v i (resized size f))
    ]

unfoldable pub rad_vfs_truncate : Backends → Kernel → Vfs → CString → ℕ → Status × Vfs
unfolding provider_for_path truncate_own
rad_vfs_truncate b k v path size =
    let name = normalized v path in
    elim (provider_for_path v name) [
      | some (i, ops, relative) ↦ (b.status_of ops (truncate_of relative size), v)
      | none ↦ truncate_own k v name size
    ]

unfoldable pub rad_vfs_readlink : Backends → Vfs → CString → ℕ → Status
unfolding provider_for_path
rad_vfs_readlink b v path size =
    if size == 0 then invalid_argument else elim (provider_for_path v (normalized v path)) [
      | some (i, ops, relative) ↦ b.status_of ops (readlink_of relative size)
      | none ↦ not_supported
    ]

unfoldable pub rad_vfs_symlink : Backends → Vfs → CString → CString → Status
unfolding provider_for_path
rad_vfs_symlink b v target link_path = elim (provider_for_path v (normalized v link_path)) [
  | some (i, ops, relative) ↦ b.status_of ops (symlink_of target relative)
  | none ↦ not_supported
]

abbrev pub changed_mode : ℕ → ℕ → ℕ
changed_mode old mode = bit_or (bit_and old 0o170000) (bit_and mode 0o7777)

unfoldable pub chmod_own : Kernel → Vfs → CString → ℕ → Status × Vfs
unfolding find_file_or_dir
chmod_own k v name mode = elim (find_file_or_dir v.files name) [
  | none ↦ (not_found, v)
  | some i ↦
      let f = file_at v i in
      let euid = (current_credentials k).euid in
      if not (euid == 0) && not (euid == f.uid)
      then (invalid_argument, v)
      else (ok, put_file v i (record f { mode = changed_mode f.mode mode }))
]

unfoldable pub rad_vfs_chmod : Backends → Kernel → Vfs → CString → ℕ → Status × Vfs
unfolding provider_for_path chmod_own
rad_vfs_chmod b k v path mode =
    let name = normalized v path in
    elim (provider_for_path v name) [
      | some (i, ops, relative) ↦ (b.status_of ops (chmod_of relative mode), v)
      | none ↦ chmod_own k v name mode
    ]
