-- ===== src/Files/Handles.antt =====
-- Open files of RADKernel/core/RADKernel_runtime.cpp: rad_vfs_open, rad_vfs_read, rad_vfs_write,
-- rad_vfs_seek, rad_vfs_tell and rad_vfs_fsync.
use radpx_os.Base.{
  ℕ, ◌+◌, ◌-◌, ◌/◌, ◌%◌, ◌^◌, Bool, true, false, not, ◌&&◌, ◌||◌, Option, none, some, List, ◌++◌,
  ltb, leb, ◌==◌, if◌then◌else◌, length, get_or, take, drop, CString, Status, ok, invalid_argument,
  not_found, no_memory, Result, value, fail,
}
use radpx_os.Base.Int.{ℤ, pos, negsuc}
use radpx_os.Kernel.{Kernel}
use radpx_os.Paths.{parent_path}
use radpx_os.Files.{
  Vfs, FileStat, Backends, path_size, file_bytes, file_at, put_file, normalized, find_file_or_dir,
  fill_stat, can_read_stat, can_write_stat, can_execute_stat, allocate_file, take_slot,
  mounted_path, provider_for_path, zero_provider, SeekOrigin, seek_set, seek_cur, seek_end, seek_of,
  fsync_of,
}

pub record Handle : Type 0 where
  pub entry_index : ℕ
  pub position : ℕ
  pub flags : ℕ
  pub backend_file : ℕ
  pub provider_index : ℕ
  pub backend : Bool

-- RAD_VFS_READ, RAD_VFS_WRITE, RAD_VFS_CREATE, RAD_VFS_TRUNCATE and RAD_VFS_APPEND are bits 0 to 4.
abbrev pub has_flag : ℕ → ℕ → Bool
has_flag flags n = (flags / 2 ^ n) % 2 == 1

abbrev pub reads : ℕ → Bool
reads flags = has_flag flags 0

abbrev pub writes : ℕ → Bool
writes flags = has_flag flags 1

abbrev pub creates : ℕ → Bool
creates flags = has_flag flags 2

abbrev pub truncates : ℕ → Bool
truncates flags = has_flag flags 3

abbrev pub appends : ℕ → Bool
appends flags = has_flag flags 4

-- Whether the flags ask for more than the file's mode allows.
abbrev pub is_refused : Kernel → FileStat → ℕ → Bool
is_refused k stat flags =
    (reads flags && not (can_read_stat k stat))
    || ((writes flags || truncates flags || appends flags) && not (can_write_stat k stat))

abbrev pub backend_handle : ℕ → ℕ → ℕ → Handle
backend_handle i opened flags = record {
  entry_index = 0;
  position = 0;
  flags = flags;
  backend_file = opened;
  provider_index = i;
  backend = true;
}

-- `rad_vfs_open` of a path that a provider serves; `has_memory` says whether the handle can be had.
unfoldable pub open_provided : Backends → Kernel → Bool → ℕ → ℕ → CString → ℕ → Result Handle
open_provided b k has_memory i ops relative flags =
    let opening : Result Handle = elim (b.open_of ops relative flags) [
      | fail status ↦ fail status
      | value opened ↦ if has_memory then value (backend_handle i opened flags) else fail no_memory
    ] in
    if creates flags then opening else elim (b.stat_of ops relative) [
      | fail status ↦ fail status
      | value stat ↦ if is_refused k stat flags then fail invalid_argument else opening
    ]

-- What `rad_vfs_open` does once it has the record.
unfoldable pub open_record : Bool → Vfs → ℕ → ℕ → Result Handle × Vfs
open_record has_memory v i flags =
    let f = file_at v i in
    let cut = if truncates flags then record f { size = 0 } else f in
    let after = if truncates flags then put_file v i cut else v in
    if has_memory
    then (
      value (record {
        entry_index = i;
        position = if appends flags then cut.size else 0;
        flags = flags;
        backend_file = 0;
        provider_index = 0;
        backend = false;
      }),
      after,
    )
    else (fail no_memory, after)

-- Whether a file or directory may be made, by its parent.
unfoldable pub parent_allows : Kernel → Vfs → CString → Option Status
unfolding find_file_or_dir
parent_allows k v path = elim (find_file_or_dir v.files (parent_path path_size path)) [
  | none ↦ some not_found
  | some i ↦
      let stat = fill_stat (file_at v i) in
      if not stat.is_directory
      then some not_found
      else if not (can_write_stat k stat) || not (can_execute_stat k stat)
      then some invalid_argument
      else none
]

unfoldable pub open_own : Kernel → Bool → Vfs → CString → ℕ → Result Handle × Vfs
unfolding find_file_or_dir mounted_path parent_allows take_slot open_record
open_own k has_memory v path flags =
    if not (mounted_path v path)
    then (fail not_found, v)
    else elim (find_file_or_dir v.files path) [
      | some i ↦
          let stat = fill_stat (file_at v i) in
          if stat.is_directory
          then (fail invalid_argument, v)
          else if is_refused k stat flags
          then (fail invalid_argument, v)
          else open_record has_memory v i flags
      | none ↦ if not (creates flags) then (fail not_found, v) else elim (parent_allows k v path) [
        | some status ↦ (fail status, v)
        | none ↦
            let (slot, made) = allocate_file k v path in
            elim slot [
              | none ↦ (fail no_memory, made)
              | some i ↦ open_record has_memory made i flags
            ]
      ]
    ]

unfoldable pub rad_vfs_open : Backends → Kernel → Bool → Vfs → CString → ℕ → Result Handle × Vfs
unfolding provider_for_path open_provided open_own
rad_vfs_open b k has_memory v path flags =
    let name = normalized v path in
    elim (provider_for_path v name) [
      | some (i, ops, relative) ↦ (open_provided b k has_memory i ops relative flags, v)
      | none ↦ open_own k has_memory v name flags
    ]

-- The table of a handle's provider, none where it is gone.
abbrev pub table_of : Vfs → Handle → Option ℕ
table_of v file =
    let p = get_or v.providers file.provider_index zero_provider in
    if p.used then some p.ops else none

-- The bytes that are read.
unfoldable pub rad_vfs_read : Backends → Vfs → Handle → ℕ → Result (List ℕ) × Handle
rad_vfs_read b v file size =
    if file.backend
    then elim (table_of v file) [
      | none ↦ (fail not_found, file)
      | some ops ↦ (b.read_of ops file.backend_file size, file)
    ]
    else if not (reads file.flags) || leb (length v.files) file.entry_index
    then (fail invalid_argument, file)
    else let f = file_at v file.entry_index in
      let available = f.size - file.position in
      let count = if ltb available size then available else size in
      if not f.used then (fail not_found, file) else (
        value (take count (drop file.position f.data_bytes)),
        record file { position = file.position + count },
      )

-- `memcpy` of bytes to an offset.
abbrev pub overwrite : List ℕ → ℕ → List ℕ → List ℕ
overwrite bytes offset buffer = take offset bytes ++ buffer ++ drop (offset + length buffer) bytes

-- The bytes at `position`, as many as the record has room for: the status, and how many.
unfoldable pub write_at : Vfs → Handle → ℕ → List ℕ → (Status × ℕ) × Handle × Vfs
write_at v file position buffer =
    let f = file_at v file.entry_index in
    let capacity = file_bytes - position in
    let count = if ltb capacity (length buffer) then capacity else length buffer in
    let end = position + count in
    if leb file_bytes position then ((no_memory, 0), record file { position = position }, v) else (
      (if count == length buffer then ok else no_memory, count),
      record file { position = end },
      put_file v file.entry_index (record f {
        data_bytes = overwrite f.data_bytes position (take count buffer);
        size = if ltb f.size end then end else f.size;
      }),
    )

unfoldable pub rad_vfs_write : Backends → Vfs → Handle → List ℕ → (Status × ℕ) × Handle × Vfs
unfolding write_at
rad_vfs_write b v file buffer =
    if file.backend
    then elim (table_of v file) [
      | none ↦ ((not_found, 0), file, v)
      | some ops ↦ (b.write_of ops file.backend_file buffer, file, v)
    ]
    else if not (writes file.flags) || leb (length v.files) file.entry_index
    then ((invalid_argument, 0), file, v)
    else let f = file_at v file.entry_index in
      if not f.used
      then ((not_found, 0), file, v)
      else write_at v file (if appends file.flags then f.size else file.position) buffer

abbrev pub seek_base : Vfs → Handle → SeekOrigin → ℕ
seek_base v file seek_set = 0
seek_base v file seek_cur = file.position
seek_base v file seek_end = (file_at v file.entry_index).size

-- `base + offset`, none where it is negative. A sum past 64 bits is refused with all that are too large.
abbrev pub moved : ℕ → ℤ → Option ℕ
moved base (pos n) = some (base + n)
moved base (negsuc n) = if ltb n base then some (base - (n + 1)) else none

unfoldable pub rad_vfs_seek : Backends → Vfs → Handle → ℤ → SeekOrigin → Status × Handle
rad_vfs_seek b v file offset origin =
    if file.backend
    then elim (table_of v file) [
      | none ↦ (not_found, file)
      | some ops ↦ (b.status_of ops (seek_of file.backend_file offset origin), file)
    ]
    else if leb (length v.files) file.entry_index
    then (invalid_argument, file)
    else elim (moved (seek_base v file origin) offset) [
      | none ↦ (invalid_argument, file)
      | some next ↦
          if ltb file_bytes next
          then (invalid_argument, file)
          else (ok, record file { position = next })
    ]

unfoldable pub rad_vfs_tell : Backends → Vfs → Handle → ℕ
rad_vfs_tell b v file =
    if file.backend
    then elim (table_of v file) [ none ↦ 0 | some ops ↦ b.tell_of ops file.backend_file ]
    else file.position

unfoldable pub rad_vfs_fsync : Backends → Vfs → Handle → Status
rad_vfs_fsync b v file =
    if file.backend
    then elim (table_of v file) [
      | none ↦ not_found
      | some ops ↦ b.status_of ops (fsync_of file.backend_file)
    ]
    else ok
