-- ===== src/Tests/FileTests.antt =====
-- The files of RADKernel/core/RADKernel_runtime.cpp at concrete tables.
use radpx_os.Base.{
  ℕ, zero, suc, ◌<◌, ◌≡◌, refl, ◌⊎◌, true, false, none, some, List, [], ◌∷◌, arith, get_or,
  replicate, length-replicate, find_index, CString, text_eq, ok, not_found, value, fail,
}
use radpx_os.Kernel.{Kernel}
use radpx_os.Tests.Fixtures.{kernel_of}
use radpx_os.Base.Int.{pos}
use radpx_os.Process.{find_process, current_credentials}
use radpx_os.Process.Identity.{mode_allows}
use radpx_os.Paths.{
  normalize_path, parts_of, write_parts, collect_parts, joined_path, skip_slashes, part_of,
  after_part, slash, behind, is_child_name, parent_path,
}
use radpx_os.Files.{
  VfsFile, Vfs, Backends, Mount, zero_file, zero_provider, zero_mount, directory_mode, file_mode,
  find_file_or_dir, has_children, ensure_directory, take_slot, mounted_path, covers, best_provider,
  provider_for_path, seek_set,
}
use radpx_os.Files.Handles.{Handle, rad_vfs_read, rad_vfs_write, rad_vfs_seek, parent_allows}
use radpx_os.Files.Names.{rad_vfs_mkdir, rad_vfs_stat, mkdir_own, remove_own, parent_lets_go}
use radpx_os.Files.Edits.{rename_own}
use radpx_os.Files.Changes.{Change, changes, mkdir, remove}
use radpx_os.Files.Contents.{
  WellSized, contents, own_file, answer_of, rad_vfs_write-contents, write_behind_end,
}
use radpx_os.Files.Rereading.{rad_vfs_read-rad_vfs_write}
use radpx_os.Files.Sizes.{AllWellSized, changes-AllWellSized}
use radpx_os.Files.Naming.{AllNamed, changes-AllNamed}
use radpx_os.Files.Under.{IsBehind}
use radpx_os.Files.Longest.{Serves, IsDeepest, provider_for_path-IsDeepest}
use radpx_os.Files.Directories.{IsMoved, IsRemoved, rename_own-IsMoved, remove_own-IsRemoved}
use radpx_os.Files.Making.{IsDirectory, rad_vfs_mkdir-IsDirectory}

abbrev root : CString
root = slash ∷ []

abbrev name_a : CString
name_a = slash ∷ b'a' ∷ []

abbrev name_b : CString
name_b = slash ∷ b'b' ∷ []

abbrev root_directory : VfsFile
root_directory = record zero_file {
  path = root;
  is_directory = true;
  mode = directory_mode;
  used = true;
}

-- Three bytes, and two more of an earlier use of the record.
abbrev file_a : VfsFile
file_a = record zero_file {
  path = name_a;
  mode = file_mode;
  used = true;
  size = 3;
  data_bytes = 1 ∷ 2 ∷ 3 ∷ 9 ∷ 9 ∷ replicate 4091 0;
}

abbrev root_mount : Mount
root_mount = record zero_mount { mount_point = root; used = true }

abbrev small_disk : Vfs
small_disk = record {
  files = root_directory ∷ file_a ∷ zero_file ∷ [];
  providers = zero_provider ∷ [];
  mounts = root_mount ∷ [];
  cwd = root;
}

abbrev kernel : Kernel
kernel = kernel_of 1 [] []

abbrev no_backends : Backends
no_backends = record {
  stat_of = λ ops path. fail not_found;
  list_of = λ ops path. (not_found, []);
  open_of = λ ops path flags. fail not_found;
  read_of = λ ops file size. fail not_found;
  write_of = λ ops file bytes. (not_found, 0);
  tell_of = λ ops file. 0;
  status_of = λ ops request. not_found;
}

abbrev at_byte : ℕ → Handle
at_byte n = record {
  entry_index = 1;
  position = n;
  flags = 3;
  backend_file = 0;
  provider_index = 0;
  backend = false;
}

file_a-sized : WellSized file_a
file_a-sized = let l = length-replicate {A = ℕ} 4091 0 in (omega arith, omega (arith, l))

rad_vfs_write-contents_example :
    let (answer, moved, after) = rad_vfs_write no_backends small_disk (at_byte 2) (7 ∷ 8 ∷ []) in
    (answer ≡ answer_of 2 (7 ∷ 8 ∷ []))
    × (contents (own_file after (at_byte 2)) ≡ 1 ∷ 2 ∷ 7 ∷ 8 ∷ [])
rad_vfs_write-contents_example =
    rad_vfs_write-contents no_backends small_disk (at_byte 2) (7 ∷ 8 ∷ [])
      (refl, refl, omega arith, refl) file_a-sized (omega arith) (omega arith)

-- The two bytes of the earlier use are read.
earlier_bytes_show :
    contents
      (own_file (rad_vfs_write no_backends small_disk (at_byte 5) (7 ∷ 8 ∷ [])).2 (at_byte 5))
    ≡ 1 ∷ 2 ∷ 3 ∷ 9 ∷ 9 ∷ 7 ∷ 8 ∷ []
earlier_bytes_show =
    write_behind_end no_backends small_disk (at_byte 5) (7 ∷ 8 ∷ []) (refl, refl, omega arith, refl)
      file_a-sized (omega arith) (omega arith) (omega arith)

rad_vfs_read-rad_vfs_write_example :
    let (answer, moved, after) = rad_vfs_write no_backends small_disk (at_byte 5) (7 ∷ 8 ∷ []) in
    let (status, back) = rad_vfs_seek no_backends after moved (pos 5) seek_set in
    (status ≡ ok) × ((rad_vfs_read no_backends after back 2).0 ≡ value (7 ∷ 8 ∷ []))
rad_vfs_read-rad_vfs_write_example =
    rad_vfs_read-rad_vfs_write no_backends small_disk (at_byte 5) (7 ∷ 8 ∷ [])
      (refl, refl, omega arith, refl) refl file_a-sized (omega arith)

small_disk-sized : AllWellSized small_disk.files
small_disk-sized zero below = (omega arith, length-replicate {A = ℕ} 4096 0)
small_disk-sized (suc zero) below = file_a-sized
small_disk-sized (suc (suc zero)) below = (omega arith, length-replicate {A = ℕ} 4096 0)
small_disk-sized (suc (suc (suc i))) below = absurd (omega arith)

small_disk-named : AllNamed small_disk.files
unfolding find_file_or_dir find_index text_eq
small_disk-named zero below used = refl
small_disk-named (suc zero) below used = refl
small_disk-named (suc (suc zero)) below used = absurd (ground (arith, used))
small_disk-named (suc (suc (suc i))) below used = absurd (omega arith)

abbrev some_changes : List (Backends × Kernel × Change)
some_changes = (no_backends, kernel, mkdir name_b) ∷ (no_backends, kernel, remove name_a) ∷ []

changes-AllWellSized_example : AllWellSized (changes small_disk some_changes).files
changes-AllWellSized_example = changes-AllWellSized small_disk some_changes small_disk-sized

changes-AllNamed_example : AllNamed (changes small_disk some_changes).files
changes-AllNamed_example = changes-AllNamed small_disk some_changes small_disk-named

rename_own-IsMoved_example :
    IsMoved kernel small_disk name_a name_b (rename_own kernel small_disk name_a name_b)
rename_own-IsMoved_example =
    rename_own-IsMoved kernel small_disk name_a name_b small_disk-named (omega arith)

remove_own-IsRemoved_example : IsRemoved small_disk name_a (remove_own kernel small_disk name_a)
remove_own-IsRemoved_example = remove_own-IsRemoved kernel small_disk name_a small_disk-named

makes_b : (rad_vfs_mkdir no_backends kernel small_disk name_b).0 ≡ ok
unfolding rad_vfs_mkdir provider_for_path best_provider mkdir_own find_file_or_dir find_index
    text_eq parent_allows parent_path mounted_path covers ensure_directory take_slot mode_allows
    find_process current_credentials normalize_path parts_of write_parts collect_parts joined_path
    skip_slashes part_of after_part
makes_b = refl

rad_vfs_mkdir-IsDirectory_example :
    IsDirectory
      (rad_vfs_stat no_backends (rad_vfs_mkdir no_backends kernel small_disk name_b).1 name_b)
unfolding provider_for_path best_provider
rad_vfs_mkdir-IsDirectory_example =
    rad_vfs_mkdir-IsDirectory no_backends kernel small_disk name_b refl makes_b

the_calls_succeed :
    ((rename_own kernel small_disk name_a name_b).0 ≡ ok)
    × ((remove_own kernel small_disk name_a).0 ≡ ok)
    × ((mkdir_own kernel small_disk name_b).0 ≡ ok)
unfolding rename_own remove_own mkdir_own find_file_or_dir find_index text_eq parent_allows
    parent_lets_go parent_path mounted_path covers ensure_directory take_slot has_children
    is_child_name mode_allows find_process current_credentials
the_calls_succeed = (refl, refl, refl)

-- A directory with a file in it is renamed: the file keeps its name.
abbrev name_in_b : CString
name_in_b = slash ∷ b'b' ∷ slash ∷ b'f' ∷ []

abbrev full_disk : Vfs
full_disk = record small_disk {
  files =
      root_directory
      ∷ record root_directory { path = name_b }
      ∷ record file_a { path = name_in_b }
      ∷ [];
}

what_is_in_it_keeps_its_name :
    let (status, after) = rename_own kernel full_disk name_b name_a in
    (status ≡ ok)
    × (find_file_or_dir after.files name_in_b ≡ some 2)
    × (find_file_or_dir after.files name_b ≡ none)
    × (has_children after.files name_a ≡ false)
unfolding rename_own find_file_or_dir find_index text_eq parent_allows parent_path mounted_path
    covers has_children is_child_name mode_allows find_process current_credentials
what_is_in_it_keeps_its_name = (refl, refl, refl, refl)

abbrev two_providers : Vfs
two_providers = record small_disk {
  providers =
      record { mount_point = root; ops = 1; used = true }
      ∷ record { mount_point = name_b; ops = 2; used = true }
      ∷ [];
}

provider_for_path-IsDeepest_example :
    ((provider_for_path two_providers name_in_b ≡ none)
      × ((t : ℕ) → t < 2 → ¬ Serves name_in_b (get_or two_providers.providers t zero_provider)))
    ⊎ ((t : ℕ) × (rest : CString) × IsDeepest name_in_b two_providers.providers t
        × IsBehind (get_or two_providers.providers t zero_provider).mount_point name_in_b rest
        × (provider_for_path two_providers name_in_b
            ≡ some (t, (get_or two_providers.providers t zero_provider).ops, rest)))
provider_for_path-IsDeepest_example = provider_for_path-IsDeepest two_providers name_in_b

the_deeper_one : provider_for_path two_providers name_in_b ≡ some (1, 2, b'f' ∷ [])
unfolding provider_for_path best_provider covers behind text_eq
the_deeper_one = refl
