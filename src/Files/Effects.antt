-- ===== src/Files/Effects.antt =====
-- That every call of RADKernel/core/RADKernel_runtime.cpp changes the table of files in a few ways only.
use radpx_os.Base.{
  ℕ, ◌-◌, ◌≤◌, ◌≡◌, refl, sym, ap, ◌∙◌, true, not, ◌&&◌, Option, none, some, List, arith, ltb, ◌==◌,
  ltb→lt, if_elim, option_elim, length, set, get_or, replicate, length-replicate, find_index,
  find_index-holds, CString, copy_string, text_eq, Status, not_supported, result_elim,
}
use mathlib.Core.Path.{subst}
use radpx_os.Kernel.{Kernel}
use radpx_os.Process.{current_credentials}
use radpx_os.Paths.Length.{length-normalize_path}
use radpx_os.Files.{
  mkdir_of, remove_of, rmdir_of, rename_of, link_of, truncate_of, chmod_of, mount_point_size,
  zero_mount, VfsFile, Vfs, Request, Backends, path_size, file_bytes, zero_file, file_at,
  normalized, is_named, find_file_or_dir, fill_stat, can_write_stat, can_execute_stat,
  ensure_directory, provider_for_path,
}
use radpx_os.Files.Handles.{open_provided, open_own, parent_allows, rad_vfs_open}
use radpx_os.Files.Names.{
  mkdir_own, remove_own, rmdir_own, rad_vfs_mkdir, rad_vfs_remove, rad_vfs_rmdir, rad_vfs_chdir,
  rad_vfs_stat,
}
use radpx_os.Files.Edits.{
  rename_own, truncate_own, chmod_own, resized, changed_mode, with_two, rad_vfs_rename,
  rad_vfs_link, rad_vfs_truncate, rad_vfs_chmod,
}
use radpx_os.Files.Mounts.{
  board_refuses, is_free_mount, is_mount_at, is_provider_at, is_free_provider, note_mount,
  rad_vfs_mount_sd, rad_vfs_mount_provider, rad_vfs_unmount,
}
use radpx_os.Files.Contents.{WellSized, length-overwrite}
use radpx_os.Files.Changes.{
  Change, change, open_file, write_file, mkdir, remove, rmdir, chdir, unmount, rename, link,
  truncate, chmod, mount_provider, mount_sd,
}
use radpx_os.Files.Touches.{
  Touch, untouched, rewritten, renamed, Leaves, IsName, Touches, copied, found-lt,
  ensure_directory-Touches, open_own-Touches, rad_vfs_write-Touches, mkdir_own-Touches,
  remove_own-Touches, rmdir_own-Touches,
}

pub found-used :
    (files : List VfsFile) (name : CString) (i : ℕ)
    → find_file_or_dir files name ≡ some i
    → (get_or files i zero_file).used ≡ true
unfolding find_file_or_dir
found-used files name i found =
    let named : (get_or files i zero_file).used && text_eq (get_or files i zero_file).path name
        ≡ true =
      find_index-holds (is_named name) zero_file files i found in
    ground arith

rename_own-Touches :
    (k : Kernel) (v : Vfs) (old_name new_name : CString)
    → IsName new_name
    → Leaves v (rename_own k v old_name new_name)
unfolding rename_own
rename_own-Touches k v old_name new_name short =
    let same = untouched v.files in
    option_elim (Leaves v) (find_file_or_dir v.files old_name) (λ e. same)
      (λ i found.
        option_elim (Leaves v) (find_file_or_dir v.files new_name)
          (λ missing.
            option_elim (Leaves v) (parent_allows k v new_name)
              (λ e.
                renamed v.files i (record (file_at v i) { path = copy_string path_size new_name })
                  (found-lt v.files old_name i found)
                  (ap (find_file_or_dir v.files) (copied new_name short) ∙ missing)
                  (found-used v.files old_name i found) (λ sized. sized))
              (λ status e. same))
          (λ j e. same))

resized-WellSized :
    (f : VfsFile) (size : ℕ) → size ≤ file_bytes → WellSized f → WellSized (resized size f)
resized-WellSized f size fits (small, full) = (
  fits,
  if_elim (λ t. length t ≡ file_bytes) (ltb f.size size)
      (λ more.
        let zeros = replicate (size - f.size) 0 in
        let l = length-replicate {A = ℕ} (size - f.size) 0 in
        let lt = ltb→lt f.size size more in
        length-overwrite f.data_bytes zeros f.size (omega (arith, l, full, fits, lt)) ∙ full)
      (λ e. full),
)

truncate_own-Touches :
    (k : Kernel) (v : Vfs) (name : CString) (size : ℕ) → Leaves v (truncate_own k v name size)
unfolding truncate_own
truncate_own-Touches k v name size =
    let same = untouched v.files in
    if_elim (Leaves v) (ltb file_bytes size) (λ e. same)
      (λ fits.
        option_elim (Leaves v) (find_file_or_dir v.files name) (λ e. same)
          (λ i found.
            if_elim (Leaves v) (file_at v i).is_directory (λ e. same)
              (λ e.
                if_elim (Leaves v) (not (can_write_stat k (fill_stat (file_at v i)))) (λ e. same)
                  (λ e.
                    rewritten v.files i (resized size (file_at v i)) (found-lt v.files name i found)
                      refl refl (resized-WellSized (file_at v i) size (ground (arith, fits)))))))

chmod_own-Touches :
    (k : Kernel) (v : Vfs) (name : CString) (mode : ℕ) → Leaves v (chmod_own k v name mode)
unfolding chmod_own
chmod_own-Touches k v name mode =
    let same = untouched v.files in
    option_elim (Leaves v) (find_file_or_dir v.files name) (λ e. same)
      (λ i found.
        if_elim (Leaves v)
          (not ((current_credentials k).euid == 0)
            && not ((current_credentials k).euid == (file_at v i).uid))
          (λ e. same)
          (λ e.
            rewritten v.files i
              (record (file_at v i) { mode = changed_mode (file_at v i).mode mode })
              (found-lt v.files name i found) refl refl (λ sized. sized)))

with_two-Touches :
    (b : Backends) (v : Vfs) (old_name new_name : CString) (request : CString → CString → Request)
    (own : Status × Vfs)
    → Leaves v own
    → Leaves v (with_two b v old_name new_name request own)
unfolding with_two
with_two-Touches b v old_name new_name request own touched =
    let same = untouched v.files in
    option_elim (Leaves v) (provider_for_path v old_name)
      (λ e. option_elim (Leaves v) (provider_for_path v new_name) (λ e. touched) (λ q e. same))
      (λ p e.
        option_elim (Leaves v) (provider_for_path v new_name) (λ e. same)
          (λ q e. if_elim (Leaves v) (p.0 == q.0) (λ e. same) (λ e. same)))

keeps_files : (v w : Vfs) → w.files ≡ v.files → Touches v w
keeps_files v w e = subst (λ t. Touch v.files t) (sym e) (untouched v.files)

note_mount-files : (v : Vfs) (name : CString) (i : ℕ) → (note_mount v name i).files ≡ v.files
unfolding note_mount
note_mount-files v name i =
    option_elim (λ (w : Vfs). w.files ≡ v.files) (find_index (is_mount_at name) v.mounts)
      (λ e.
        option_elim (λ (w : Vfs). w.files ≡ v.files) (find_index is_free_mount v.mounts) (λ e. refl)
          (λ m e. refl))
      (λ m e. refl)

mount_provider-Touches :
    (k : Kernel) (v : Vfs) (path : CString) (ops : ℕ)
    → Leaves v (rad_vfs_mount_provider k v path ops)
unfolding rad_vfs_mount_provider
mount_provider-Touches k v path ops =
    let same = untouched v.files in
    let name = normalized v path in
    let short : IsName name = length-normalize_path path_size v.cwd path (omega arith) in
    option_elim (Leaves v) (find_index (is_provider_at name) v.providers)
      (λ e.
        option_elim (Leaves v) (find_index is_free_provider v.providers) (λ e. same)
          (λ i e.
            let added = record v {
              providers = set v.providers i (record {
                mount_point = copy_string mount_point_size name;
                ops = ops;
                used = true;
              });
            } in
            let made = (ensure_directory k added name).1 in
            subst (λ t. Touch v.files t) (sym (note_mount-files made name i))
              (ensure_directory-Touches k added name short)))
      (λ i e. same)

mount_sd-Touches :
    (k : Kernel) (v : Vfs) (board : Option Status) (path : CString)
    → Leaves v (rad_vfs_mount_sd k v board path)
unfolding rad_vfs_mount_sd
mount_sd-Touches k v board path =
    let same = untouched v.files in
    option_elim (Leaves v) (board_refuses board)
      (λ e.
        option_elim (Leaves v) (find_index is_free_mount v.mounts) (λ e. same)
          (λ i e.
            let old = get_or v.mounts i zero_mount in
            let mounted = record v {
              mounts =
                  set v.mounts i
                    (record old { mount_point = copy_string mount_point_size path; used = true });
            } in
            ensure_directory-Touches k mounted (normalized mounted path)
              (length-normalize_path path_size v.cwd path (omega arith))))
      (λ status e. same)

unmount-Touches : (v : Vfs) (path : CString) → Leaves v (rad_vfs_unmount v path)
unfolding rad_vfs_unmount
unmount-Touches v path =
    option_elim (Leaves v) (find_index (is_mount_at (normalized v path)) v.mounts)
      (λ e. untouched v.files) (λ m e. untouched v.files)

chdir-Touches :
    (b : Backends) (k : Kernel) (v : Vfs) (path : CString) → Leaves v (rad_vfs_chdir b k v path)
unfolding rad_vfs_chdir
chdir-Touches b k v path =
    let same = untouched v.files in
    result_elim (Leaves v) (rad_vfs_stat b v (normalized v path)) (λ status. same)
      (λ stat.
        if_elim (Leaves v) (not stat.is_directory) (λ e. same)
          (λ e. if_elim (Leaves v) (not (can_execute_stat k stat)) (λ e. same) (λ e. same)))

short : (v : Vfs) (path : CString) → IsName (normalized v path)
short v path = length-normalize_path path_size v.cwd path (omega arith)

-- A call by name, of a provider or else of the kernel's own files.
by_name :
    {A : Type 0} (v : Vfs) (name : CString) (asked : ℕ × ℕ × CString → A) (own : A × Vfs)
    → Leaves {A = A} v own
    → Leaves {A = A} v (elim (provider_for_path v name) [ none ↦ own | some p ↦ (asked p, v) ])
by_name {A = A} v name asked own touched =
    option_elim (Leaves {A = A} v) (provider_for_path v name) (λ e. touched)
      (λ p e. untouched v.files)

-- Whatever the providers answer, a call changes the records of files one at a time: it rewrites one under
-- the name it has, gives one a name that no record has, or clears one.
pub change-Touches : (b : Backends) (k : Kernel) (v : Vfs) (c : Change) → Touches v (change b k v c)
unfolding change rad_vfs_open rad_vfs_mkdir rad_vfs_remove rad_vfs_rmdir rad_vfs_rename rad_vfs_link
    rad_vfs_truncate rad_vfs_chmod
change-Touches b k v (open_file has_memory path flags) =
    by_name v (normalized v path) (λ p. open_provided b k has_memory p.0 p.1 p.2 flags)
      (open_own k has_memory v (normalized v path) flags)
      (open_own-Touches k has_memory v (normalized v path) flags (short v path))
change-Touches b k v (write_file file buffer) = rad_vfs_write-Touches b v file buffer
change-Touches b k v (mkdir path) =
    by_name v (normalized v path) (λ p. b.status_of p.1 (mkdir_of p.2))
      (mkdir_own k v (normalized v path)) (mkdir_own-Touches k v (normalized v path) (short v path))
change-Touches b k v (remove path) =
    by_name v (normalized v path) (λ p. b.status_of p.1 (remove_of p.2))
      (remove_own k v (normalized v path)) (remove_own-Touches k v (normalized v path))
change-Touches b k v (rmdir path) =
    by_name v (normalized v path) (λ p. b.status_of p.1 (rmdir_of p.2))
      (rmdir_own k v (normalized v path)) (rmdir_own-Touches k v (normalized v path))
change-Touches b k v (chdir path) = chdir-Touches b k v path
change-Touches b k v (unmount path) = unmount-Touches v path
change-Touches b k v (rename old_path new_path) =
    with_two-Touches b v (normalized v old_path) (normalized v new_path) rename_of
      (rename_own k v (normalized v old_path) (normalized v new_path))
      (rename_own-Touches k v (normalized v old_path) (normalized v new_path) (short v new_path))
change-Touches b k v (link old_path new_path) =
    with_two-Touches b v (normalized v old_path) (normalized v new_path) link_of (not_supported, v)
      (untouched v.files)
change-Touches b k v (truncate path size) =
    by_name v (normalized v path) (λ p. b.status_of p.1 (truncate_of p.2 size))
      (truncate_own k v (normalized v path) size)
      (truncate_own-Touches k v (normalized v path) size)
change-Touches b k v (chmod path mode) =
    by_name v (normalized v path) (λ p. b.status_of p.1 (chmod_of p.2 mode))
      (chmod_own k v (normalized v path) mode) (chmod_own-Touches k v (normalized v path) mode)
change-Touches b k v (mount_provider path ops) = mount_provider-Touches k v path ops
change-Touches b k v (mount_sd board path) = mount_sd-Touches k v board path
