-- ===== src/Shm.antt =====
-- The shared memory objects of RADKernel/core/RADKernel_runtime.cpp: rad_shm_open, unlink, get_info,
-- set_page and get_page. A page token is a number, 0 where there is none.
pub mod Pages
use radpx_os.Base.{
  ℕ, ◌+◌, ◌/◌, ◌%◌, ◌^◌, Bool, true, false, not, ◌&&◌, ◌||◌, Option, none, some, [], ltb, leb, ◌==◌,
  if◌then◌else◌, length, set, get_or, replicate, find_index, CString, copy_string, text_eq, Status,
  ok, invalid_argument, not_found, no_memory, Result, value, fail,
}
use radpx_os.Base.Int.{ℤ, pos, negsuc}
use radpx_os.Kernel.{
  Kernel, FdRecord, FdKind, fd_empty, fd_file, fd_device, fd_pipe, fd_shm, fd_socket, fd_dir,
  zero_fd, ShmRecord, current_process_pid,
}
use radpx_os.Descriptors.{lookup_fd_record, install_any}

-- RAD_SHM_NAME_MAX, RAD_SHM_MAX_PAGES and the page size.
abbrev pub shm_name_size : ℕ
shm_name_size = 64

abbrev pub shm_max_pages : ℕ
shm_max_pages = 16

abbrev pub page_size : ℕ
page_size = 4096

abbrev pub zero_shm : ShmRecord
zero_shm = record {
  name = [];
  byte_size = 0;
  page_count = 0;
  pages = replicate shm_max_pages 0;
  linked = false;
  used = false;
}

abbrev pub shm_at : Kernel → ℕ → ShmRecord
shm_at k i = get_or k.shm_objects i zero_shm

abbrev pub put_shm : Kernel → ℕ → ShmRecord → Kernel
put_shm k i s = record k { shm_objects = set k.shm_objects i s }

abbrev pub has_name : CString → ShmRecord → Bool
has_name name s = s.used && s.linked && text_eq s.name name

-- A null name is an empty one here: neither is found.
unfoldable pub find_shm_by_name : Kernel → CString → Option ℕ
find_shm_by_name k name =
    if length name == 0 then none else find_index (has_name name) k.shm_objects

unfoldable pub install_shm_fd : Kernel → ℕ → ℕ → Result ℕ × Kernel
install_shm_fd k i flags =
    if not (ltb i (length k.shm_objects)) || not (shm_at k i).used
    then (fail invalid_argument, k)
    else install_any k (record zero_fd {
      kind = fd_shm;
      shm_index = i;
      flags = flags;
      refs = 1;
      owner_fd = negsuc 0;
      owner_pid = pos (current_process_pid k);
      local_fd = negsuc 0;
    })

abbrev is_unused : ShmRecord → Bool
is_unused s = not s.used

-- `(byte_size + 4095u) / 4096u` on 64 bits.
abbrev pub pages_for : ℕ → ℕ
pages_for byte_size = (byte_size + 4095) % 2 ^ 64 / page_size

abbrev fresh_shm : CString → ℕ → ShmRecord
fresh_shm name byte_size = record zero_shm {
  used = true;
  linked = true;
  byte_size = byte_size;
  page_count = pages_for byte_size;
  name = copy_string shm_name_size name;
}

unfoldable pub rad_shm_open : Kernel → CString → ℕ → ℕ → Result ℕ × Kernel
unfolding find_shm_by_name install_shm_fd
rad_shm_open k name byte_size flags =
    let pages = pages_for byte_size in
    if (length name == 0)
      || (byte_size == 0)
      || leb shm_name_size (length name)
      || (pages == 0)
      || ltb shm_max_pages pages
    then (fail invalid_argument, k)
    else elim (find_shm_by_name k name) [
      | some i ↦ install_shm_fd k i flags
      | none ↦ elim (find_index is_unused k.shm_objects) [
        | none ↦ (fail no_memory, k)
        | some i ↦ install_shm_fd (put_shm k i (fresh_shm name byte_size)) i flags
      ]
    ]

unfoldable pub rad_shm_unlink : Kernel → CString → Status × Kernel
unfolding find_shm_by_name
rad_shm_unlink k name = elim (find_shm_by_name k name) [
  | none ↦ (not_found, k)
  | some i ↦ (ok, put_shm k i zero_shm)
]

abbrev is_shm : FdKind → Bool
is_shm fd_shm = true
is_shm _ = false

abbrev shm_of_slot : Kernel → Option ℕ → Option ℕ
shm_of_slot k none = none
shm_of_slot k (some slot) =
    let r = get_or k.fds slot zero_fd in
    if is_shm r.kind && ltb r.shm_index (length k.shm_objects) then some r.shm_index else none

-- The index of the object that a descriptor names, as the checks of the operations find it.
unfoldable pub shm_of_fd : Kernel → ℤ → Option ℕ
shm_of_fd k fd = shm_of_slot k (lookup_fd_record k fd)

-- The name, the size and the number of pages.
unfoldable pub rad_shm_get_info : Kernel → ℤ → Result (CString × ℕ × ℕ)
unfolding shm_of_fd
rad_shm_get_info k fd = elim (shm_of_fd k fd) [
  | none ↦ fail not_found
  | some i ↦
      let s = shm_at k i in
      if s.used
      then value (copy_string shm_name_size s.name, s.byte_size, s.page_count)
      else fail not_found
]

abbrev pub is_bad_page : ShmRecord → ℕ → Bool
is_bad_page s page = not s.used || leb s.page_count page || leb shm_max_pages page

unfoldable pub rad_shm_set_page : Kernel → ℤ → ℕ → ℕ → Status × Kernel
unfolding shm_of_fd
rad_shm_set_page k fd page token = elim (shm_of_fd k fd) [
  | none ↦ (not_found, k)
  | some i ↦
      let s = shm_at k i in
      if is_bad_page s page
      then (invalid_argument, k)
      else (ok, put_shm k i (record s { pages = set s.pages page token }))
]

unfoldable pub rad_shm_get_page : Kernel → ℤ → ℕ → Result ℕ
unfolding shm_of_fd
rad_shm_get_page k fd page = elim (shm_of_fd k fd) [
  | none ↦ fail not_found
  | some i ↦
      let s = shm_at k i in
      let token = get_or s.pages page 0 in
      if is_bad_page s page || (token == 0) then fail invalid_argument else value token
]
