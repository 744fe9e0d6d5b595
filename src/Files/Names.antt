-- ===== src/Files/Names.antt =====
-- Directories of RADKernel/core/RADKernel_runtime.cpp: rad_vfs_stat, rad_vfs_list, rad_vfs_mkdir,
-- rad_vfs_remove, rad_vfs_rmdir, rad_vfs_chdir and rad_vfs_getcwd.
use radpx_os.Base.{
  ℕ, Bool, true, not, ◌&&◌, ◌||◌, none, some, List, [], ◌∷◌, ◌==◌, if◌then◌else◌, CString,
  copy_string, text_eq, Status, ok, invalid_argument, not_found, no_memory, already_exists, Result,
  value, fail,
}
use radpx_os.Kernel.{Kernel}
use radpx_os.Paths.{slash, is_child_name, parent_path}
use radpx_os.Files.{
  VfsFile, Vfs, FileStat, Backends, path_size, zero_file, directory_mode, file_at, put_file,
  normalized, find_file_or_dir, has_children, fill_stat, can_read_stat, can_write_stat,
  can_execute_stat, ensure_directory, mounted_path, provider_for_path, mkdir_of, remove_of,
  rmdir_of,
}
use radpx_os.Files.Handles.{parent_allows}

abbrev pub root_stat : FileStat
root_stat = record { is_directory = true; size = 0; mode = directory_mode; uid = 0; gid = 0 }

unfoldable pub stat_own : Vfs → CString → Result FileStat
unfolding find_file_or_dir mounted_path
stat_own v name =
    if text_eq name (slash ∷ [])
    then value root_stat
    else if not (mounted_path v name)
    then fail not_found
    else elim (find_file_or_dir v.files name) [
      | none ↦ fail not_found
      | some i ↦ value (fill_stat (file_at v i))
    ]

unfoldable pub rad_vfs_stat : Backends → Vfs → CString → Result FileStat
unfolding provider_for_path stat_own
rad_vfs_stat b v path =
    let name = normalized v path in
    elim (provider_for_path v name) [
      | some (i, ops, relative) ↦ b.stat_of ops relative
      | none ↦ stat_own v name
    ]

-- The names and the kinds of a directory's entries, in the order of the table.
unfoldable pub entries_of : CString → List VfsFile → List (CString × FileStat)
entries_of name [] = []
entries_of name (f ∷ fs) =
    let rest = entries_of name fs in
    if not f.used
    then rest
    else elim (is_child_name name f.path) [ none ↦ rest | some child ↦ (child, fill_stat f) ∷ rest ]

-- With a callback that never stops; the entries that it gets.
unfoldable pub rad_vfs_list : Backends → Kernel → Vfs → CString → Status × List (CString × FileStat)
unfolding provider_for_path rad_vfs_stat entries_of mounted_path
rad_vfs_list b k v path =
    let name = normalized v path in
    elim (provider_for_path v name) [
      | some (i, ops, relative) ↦ b.list_of ops relative
      | none ↦
          if not (text_eq name (slash ∷ [])) && not (mounted_path v name)
          then (not_found, [])
          else elim (rad_vfs_stat b v name) [
            | fail status ↦ (not_found, [])
            | value stat ↦
                if not stat.is_directory
                then (not_found, [])
                else if not (can_read_stat k stat) || not (can_execute_stat k stat)
                then (invalid_argument, [])
                else (ok, entries_of name v.files)
          ]
    ]

unfoldable pub mkdir_own : Kernel → Vfs → CString → Status × Vfs
unfolding find_file_or_dir mounted_path parent_allows ensure_directory
mkdir_own k v name =
    if not (mounted_path v name) then (not_found, v) else elim (parent_allows k v name) [
      | some status ↦ (status, v)
      | none ↦ elim (find_file_or_dir v.files name) [
        | some i ↦ (if (file_at v i).is_directory then ok else already_exists, v)
        | none ↦
            let (slot, made) = ensure_directory k v name in
            (elim slot [ none ↦ no_memory | some i ↦ ok ], made)
      ]
    ]

unfoldable pub rad_vfs_mkdir : Backends → Kernel → Vfs → CString → Status × Vfs
unfolding provider_for_path mkdir_own
rad_vfs_mkdir b k v path =
    let name = normalized v path in
    elim (provider_for_path v name) [
      | some (i, ops, relative) ↦ (b.status_of ops (mkdir_of relative), v)
      | none ↦ mkdir_own k v name
    ]

-- Whether the record may go: a parent that has no record does not object.
unfoldable pub parent_lets_go : Kernel → Vfs → CString → Bool
unfolding find_file_or_dir
parent_lets_go k v path = elim (find_file_or_dir v.files (parent_path path_size path)) [
  | none ↦ true
  | some i ↦ let stat = fill_stat (file_at v i) in can_write_stat k stat && can_execute_stat k stat
]

unfoldable pub remove_own : Kernel → Vfs → CString → Status × Vfs
unfolding find_file_or_dir has_children parent_lets_go
remove_own k v name = elim (find_file_or_dir v.files name) [
  | none ↦ (not_found, v)
  | some i ↦
      if (file_at v i).is_directory && has_children v.files name
      then (invalid_argument, v)
      else if not (parent_lets_go k v name)
      then (invalid_argument, v)
      else (ok, put_file v i zero_file)
]

unfoldable pub rad_vfs_remove : Backends → Kernel → Vfs → CString → Status × Vfs
unfolding provider_for_path remove_own
rad_vfs_remove b k v path =
    let name = normalized v path in
    elim (provider_for_path v name) [
      | some (i, ops, relative) ↦ (b.status_of ops (remove_of relative), v)
      | none ↦ remove_own k v name
    ]

unfoldable pub rmdir_own : Kernel → Vfs → CString → Status × Vfs
unfolding find_file_or_dir has_children parent_lets_go
rmdir_own k v name = elim (find_file_or_dir v.files name) [
  | none ↦ (not_found, v)
  | some i ↦
      if not (file_at v i).is_directory
      then (not_found, v)
      else if has_children v.files name
      then (invalid_argument, v)
      else if not (parent_lets_go k v name)
      then (invalid_argument, v)
      else (ok, put_file v i zero_file)
]

unfoldable pub rad_vfs_rmdir : Backends → Kernel → Vfs → CString → Status × Vfs
unfolding provider_for_path rmdir_own
rad_vfs_rmdir b k v path =
    let name = normalized v path in
    elim (provider_for_path v name) [
      | some (i, ops, relative) ↦ (b.status_of ops (rmdir_of relative), v)
      | none ↦ rmdir_own k v name
    ]

-- `g_state.cwd` has 96 bytes.
unfoldable pub rad_vfs_chdir : Backends → Kernel → Vfs → CString → Status × Vfs
unfolding rad_vfs_stat
rad_vfs_chdir b k v path =
    let name = normalized v path in
    elim (rad_vfs_stat b v name) [
      | fail status ↦ (not_found, v)
      | value stat ↦
          if not stat.is_directory
          then (not_found, v)
          else if not (can_execute_stat k stat)
          then (invalid_argument, v)
          else (ok, record v { cwd = copy_string path_size name })
    ]

abbrev pub or_slash : CString → CString
or_slash [] = slash ∷ []
or_slash (c ∷ cs) = c ∷ cs

unfoldable pub rad_vfs_getcwd : Vfs → ℕ → Result CString
rad_vfs_getcwd v size =
    if size == 0 then fail invalid_argument else value (copy_string size (or_slash v.cwd))
