-- ===== src/Files.antt =====
-- The files in memory of RADKernel/core/RADKernel_runtime.cpp, and the providers that serve other paths:
-- find_file_or_dir, has_children, fill_stat, ensure_directory, allocate_file, mounted_path and
-- provider_for_path. What a provider answers is an argument, and may differ from call to call; its
-- lock is left out. Paths are normalised into 96 bytes.
pub mod Handles
pub mod Names
pub mod Edits
pub mod Listing
pub mod Mounts
pub mod Contents
pub mod Rereading
pub mod Touches
pub mod Effects
pub mod Sizes
pub mod Naming
pub mod Changes
pub mod Under
pub mod Longest
pub mod Directories
pub mod Making
use radpx_os.Base.{
  [], ℕ, ◌+◌, Bool, true, false, not, ◌&&◌, ◌||◌, Option, none, some, List, ◌∷◌, ltb, ◌==◌,
  if◌then◌else◌, length, set, get_or, drop, replicate, find_index, CString, copy_string, text_eq,
  Status, Result,
}
use radpx_os.Base.Int.{ℤ}
use radpx_os.Kernel.{Kernel}
use radpx_os.Process.{current_credentials}
use radpx_os.Process.Identity.{FileOwner, mode_allows}
use radpx_os.Paths.{slash, starts_with_slash, behind, is_child_name, normalize_path}

abbrev pub path_size : ℕ
path_size = 96

abbrev pub mount_point_size : ℕ
mount_point_size = 32

-- RAD_KERNEL_VFS_FILE_BYTES
abbrev pub file_bytes : ℕ
file_bytes = 4096

abbrev pub directory_mode : ℕ
directory_mode = 0o040755

abbrev pub file_mode : ℕ
file_mode = 0o100644

pub record VfsFile : Type 0 where
  pub path : CString
  pub data_bytes : List ℕ
  pub size : ℕ
  pub is_directory : Bool
  pub mode : ℕ
  pub uid : ℕ
  pub gid : ℕ
  pub used : Bool

-- What `memset` leaves.
abbrev pub zero_file : VfsFile
zero_file = record {
  path = [];
  data_bytes = replicate file_bytes 0;
  size = 0;
  is_directory = false;
  mode = 0;
  uid = 0;
  gid = 0;
  used = false;
}

-- `ops` stands for the table of the provider's functions.
pub record Provider : Type 0 where
  pub mount_point : CString
  pub ops : ℕ
  pub used : Bool

abbrev pub zero_provider : Provider
zero_provider = record { mount_point = []; ops = 0; used = false }

pub record Mount : Type 0 where
  pub mount_point : CString
  pub provider_index : ℕ
  pub has_provider : Bool
  pub used : Bool

abbrev pub zero_mount : Mount
zero_mount = record { mount_point = []; provider_index = 0; has_provider = false; used = false }

pub record Vfs : Type 0 where
  pub files : List VfsFile
  pub providers : List Provider
  pub mounts : List Mount
  pub cwd : CString

pub record FileStat : Type 0 where
  pub is_directory : Bool
  pub size : ℕ
  pub mode : ℕ
  pub uid : ℕ
  pub gid : ℕ

pub data SeekOrigin : Type 0 where
  seek_set seek_cur seek_end : SeekOrigin

-- The calls of a provider that answer with a status.
pub data Request : Type 0 where
  mkdir_of remove_of rmdir_of : CString → Request
  rename_of link_of symlink_of : CString → CString → Request
  truncate_of chmod_of readlink_of : CString → ℕ → Request
  seek_of : ℕ → ℤ → SeekOrigin → Request
  fsync_of : ℕ → Request

-- What the tables answer: `open_of ops path flags` with a file of the provider's, and `list_of` with what
-- it gives to a callback that never stops it.
pub record Backends : Type 0 where
  pub stat_of : ℕ → CString → Result FileStat
  pub list_of : ℕ → CString → Status × List (CString × FileStat)
  pub open_of : ℕ → CString → ℕ → Result ℕ
  pub read_of : ℕ → ℕ → ℕ → Result (List ℕ)
  pub write_of : ℕ → ℕ → List ℕ → Status × ℕ
  pub tell_of : ℕ → ℕ → ℕ
  pub status_of : ℕ → Request → Status

abbrev pub file_at : Vfs → ℕ → VfsFile
file_at v i = get_or v.files i zero_file

abbrev pub put_file : Vfs → ℕ → VfsFile → Vfs
put_file v i f = record v { files = set v.files i f }

abbrev pub normalized : Vfs → CString → CString
normalized v path = normalize_path path_size v.cwd path

abbrev pub is_named : CString → VfsFile → Bool
is_named path f = f.used && text_eq f.path path

unfoldable pub find_file_or_dir : List VfsFile → CString → Option ℕ
find_file_or_dir files path = find_index (is_named path) files

abbrev pub is_child : CString → VfsFile → Bool
is_child path f = f.used && elim (is_child_name path f.path) [ none ↦ false | some name ↦ true ]

unfoldable pub has_children : List VfsFile → CString → Bool
has_children files path = elim (find_index (is_child path) files) [ none ↦ false | some i ↦ true ]

abbrev pub mode_of : VfsFile → ℕ
mode_of f =
    if not (f.mode == 0) then f.mode else if f.is_directory then directory_mode else file_mode

abbrev pub fill_stat : VfsFile → FileStat
fill_stat f = record {
  is_directory = f.is_directory;
  size = if f.is_directory then 0 else f.size;
  mode = mode_of f;
  uid = f.uid;
  gid = f.gid;
}

abbrev pub owner : FileStat → FileOwner
owner stat = record { mode = stat.mode; uid = stat.uid; gid = stat.gid }

abbrev pub can_read_stat : Kernel → FileStat → Bool
can_read_stat k stat = mode_allows k (owner stat) 4

abbrev pub can_write_stat : Kernel → FileStat → Bool
can_write_stat k stat = mode_allows k (owner stat) 2

abbrev pub can_execute_stat : Kernel → FileStat → Bool
can_execute_stat k stat = mode_allows k (owner stat) 1

-- The record of a new file or directory: what its bytes were, they are.
abbrev pub named_anew : Kernel → Bool → ℕ → CString → VfsFile → VfsFile
named_anew k is_directory mode path old = record {
  path = copy_string path_size path;
  data_bytes = old.data_bytes;
  size = 0;
  is_directory = is_directory;
  mode = mode;
  uid = (current_credentials k).euid;
  gid = (current_credentials k).egid;
  used = true;
}

abbrev pub is_unused : VfsFile → Bool
is_unused f = not f.used

-- The first slot that is free.
unfoldable pub take_slot : Kernel → Vfs → Bool → ℕ → CString → Option ℕ × Vfs
take_slot k v is_directory mode path = elim (find_index is_unused v.files) [
  | none ↦ (none, v)
  | some i ↦ (some i, put_file v i (named_anew k is_directory mode path (file_at v i)))
]

abbrev pub allocate_file : Kernel → Vfs → CString → Option ℕ × Vfs
allocate_file k v path = take_slot k v false file_mode path

unfoldable pub ensure_directory : Kernel → Vfs → CString → Option ℕ × Vfs
unfolding find_file_or_dir take_slot
ensure_directory k v path = elim (find_file_or_dir v.files path) [
  | some i ↦ (if (file_at v i).is_directory then some i else none, v)
  | none ↦ take_slot k v true directory_mode path
]

abbrev pub ends_name : CString → Bool
ends_name [] = true
ends_name (c ∷ cs) = c == slash

-- Whether a path is a mount point, or under it.
unfoldable pub covers : CString → CString → Bool
unfolding behind text_eq
covers mount path =
    text_eq mount (slash ∷ [])
    || elim (behind mount path) [ none ↦ false | some rest ↦ ends_name rest ]

abbrev pub is_mount_of : CString → Mount → Bool
is_mount_of path m = m.used && covers m.mount_point path

unfoldable pub mounted_path : Vfs → CString → Bool
unfolding covers
mounted_path v path = elim (find_index (is_mount_of path) v.mounts) [ none ↦ false | some i ↦ true ]

-- The rounds of `provider_for_path`, from slot `i` on.
unfoldable pub best_provider : CString → List Provider → ℕ → ℕ → Option ℕ → Option ℕ
unfolding covers
best_provider path [] i best found = found
best_provider path (p ∷ ps) i best found =
    let kept = best_provider path ps (i + 1) best found in
    let taken = best_provider path ps (i + 1) (length p.mount_point) (some i) in
    if p.used && not (ltb (length p.mount_point) best) && covers p.mount_point path
    then taken
    else kept

abbrev pub tail_of : CString → CString
tail_of [] = []
tail_of (c ∷ cs) = cs

abbrev pub behind_first_slash : CString → CString
behind_first_slash [] = []
behind_first_slash (c ∷ cs) = if c == slash then cs else c ∷ cs

abbrev pub relative_to : CString → CString → CString
relative_to mount path =
    if text_eq mount (slash ∷ [])
    then behind_first_slash path
    else if starts_with_slash (drop (length mount) path)
    then tail_of (drop (length mount) path)
    else []

-- The provider's slot, its table, and the path that it is asked for.
unfoldable pub provider_for_path : Vfs → CString → Option (ℕ × ℕ × CString)
unfolding best_provider
provider_for_path v path = elim (best_provider path v.providers 0 0 none) [
  | none ↦ none
  | some i ↦
      let p = get_or v.providers i zero_provider in some (i, p.ops, relative_to p.mount_point path)
]
