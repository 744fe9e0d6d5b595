-- ===== src/Files/Contents.antt =====
-- What rad_vfs_write of RADKernel/core/RADKernel_runtime.cpp do to the bytes of a file.
use radpx_os.Base.{
  ℕ, ◌+◌, ◌-◌, ◌≤◌, ◌<◌, ◌≡◌, refl, sym, ap, ◌∙◌, inl, inr, true, false, List, ◌++◌, append-nil,
  arith, ltb, leb, ◌==◌, if◌then◌else◌, ltb→lt, leb→le, ==_iff, Bool-cases, length, set,
  length-append, take, drop, take-all, length-take, length-drop, get_or-set_self, Status, ok,
  no_memory,
}
use radpx_os.Base.Slices.{take-append_more, drop-take, take-take}
use radpx_os.Files.{VfsFile, Vfs, Backends, file_bytes, file_at, zero_file}
use radpx_os.Files.Handles.{Handle, writes, appends, overwrite, write_at, rad_vfs_write}

-- The bytes that a reader can get.
abbrev pub contents : VfsFile → List ℕ
contents f = take f.size f.data_bytes

abbrev pub WellSized : VfsFile → Type 0
WellSized f = (f.size ≤ file_bytes) × (length f.data_bytes ≡ file_bytes)

length-front :
    (bytes buffer : List ℕ) (p : ℕ)
    → p ≤ length bytes
    → length (take p bytes ++ buffer) ≡ p + length buffer
length-front bytes buffer p le =
    let e = length-append (take p bytes) buffer in
    let l = length-take p bytes in omega (arith, e, l, le)

pub length-overwrite :
    (bytes buffer : List ℕ) (p : ℕ)
    → p + length buffer ≤ length bytes
    → length (overwrite bytes p buffer) ≡ length bytes
length-overwrite bytes buffer p le =
    let e = length-append (take p bytes ++ buffer) (drop (p + length buffer) bytes) in
    let f = length-front bytes buffer p (omega (arith, le)) in
    let d = length-drop (p + length buffer) bytes in omega (arith, e, f, d, le)

-- The first bytes of what is overwritten, up to the end of the file or of the buffer.
take-overwrite :
    (bytes buffer : List ℕ) (p n m : ℕ)
    → p ≤ n
    → n ≤ length bytes
    → m ≡ p + length buffer + (n - (p + length buffer))
    → take m (overwrite bytes p buffer) ≡ overwrite (take n bytes) p buffer
take-overwrite bytes buffer p n m before within e =
    let front = take p bytes ++ buffer in
    let end = p + length buffer in
    let same : m ≡ length front + (n - end) =
      e
      ∙ ap (λ t. t + (n - end))
          (sym (length-front bytes buffer p (omega (arith, before, within)))) in
    ap (λ t. take t (front ++ drop end bytes)) same
    ∙ take-append_more front (drop end bytes) (n - end)
    ∙ ap (λ t. front ++ t) (sym (drop-take end n bytes))
    ∙ ap (λ t. t ++ buffer ++ drop end (take n bytes)) (sym (take-take p n bytes before))

-- A handle of a record's, open for writing.
abbrev pub IsOpenForWriting : Vfs → Handle → Type 0
IsOpenForWriting v file =
    (file.backend ≡ false)
    × (writes file.flags ≡ true)
    × (file.entry_index < length v.files)
    × ((file_at v file.entry_index).used ≡ true)

abbrev pub own_file : Vfs → Handle → VfsFile
own_file v file = file_at v file.entry_index

abbrev pub write_start : Vfs → Handle → ℕ
write_start v file = if appends file.flags then (own_file v file).size else file.position

-- What there is room for.
abbrev pub fitting : ℕ → List ℕ → List ℕ
fitting start buffer = take (file_bytes - start) buffer

abbrev pub written : VfsFile → ℕ → List ℕ → VfsFile
written f start buffer = record f {
  data_bytes = overwrite f.data_bytes start (fitting start buffer);
  size =
      if ltb f.size (start + length (fitting start buffer))
      then start + length (fitting start buffer)
      else f.size;
}

pub leb-false : (m n : ℕ) → n < m → leb m n ≡ false
leb-false m n lt = ground (arith, lt)

take-count :
    (capacity : ℕ) (buffer : List ℕ)
    → let count = if ltb capacity (length buffer) then capacity else length buffer in
      (take count buffer ≡ take capacity buffer) × (count ≡ length (take capacity buffer))
take-count capacity buffer = elim (Bool-cases (ltb capacity (length buffer))) [
  | inl less ↦
      let lt = ltb→lt capacity (length buffer) less in
      let l = length-take capacity buffer in rw less (refl, omega (arith, l, lt))
  | inr more ↦
      let le : length buffer ≤ capacity = ground (arith, more) in
      let l = length-take capacity buffer in
      rw more (
        take-all (length buffer) buffer (omega arith) ∙ sym (take-all capacity buffer le),
        omega (arith, l, le),
      )
]

pub write_at-open :
    (b : Backends) (v : Vfs) (file : Handle) (buffer : List ℕ)
    → IsOpenForWriting v file
    → rad_vfs_write b v file buffer ≡ write_at v file (write_start v file) buffer
unfolding rad_vfs_write
write_at-open b v file buffer (own, writing, inside, used) =
    let there : leb (length v.files) file.entry_index ≡ false =
      leb-false (length v.files) file.entry_index inside in
    rw (own, writing, there, used) refl

abbrev pub answer_of : ℕ → List ℕ → Status × ℕ
answer_of start buffer = (
  if leb (start + length buffer) file_bytes then ok else no_memory,
  length (fitting start buffer),
)

eq-false : (a b : ℕ) → a < b → (a == b) ≡ false
eq-false a b lt = ground (arith, lt)

is_whole :
    (start : ℕ) (buffer : List ℕ)
    → start < file_bytes
    → (length (fitting start buffer) == length buffer) ≡ leb (start + length buffer) file_bytes
is_whole start buffer room =
    let e = length-take (file_bytes - start) buffer in
    elim (Bool-cases (leb (start + length buffer) file_bytes)) [
      | inl whole ↦
          let le = leb→le (start + length buffer) file_bytes whole in
          rw whole
            ((==_iff (length (fitting start buffer)) (length buffer)).1 (omega (arith, e, le)))
      | inr part ↦
          let lt : file_bytes < start + length buffer = ground (arith, part) in
          rw part
            (eq-false (length (fitting start buffer)) (length buffer) (omega (arith, e, lt, room)))
    ]

pub write_at-fits :
    (v : Vfs) (file : Handle) (start : ℕ) (buffer : List ℕ)
    → start < file_bytes
    → write_at v file start buffer ≡ (
      answer_of start buffer,
      record file { position = start + length (fitting start buffer) },
      record v { files = set v.files file.entry_index (written (own_file v file) start buffer) },
    )
unfolding write_at
write_at-fits v file start buffer room =
    let there : leb file_bytes start ≡ false = leb-false file_bytes start room in
    let (same, counted) = take-count (file_bytes - start) buffer in
    let again : take (length (fitting start buffer)) buffer ≡ fitting start buffer =
      ap (λ t. take t buffer) (sym counted) ∙ same in
    rw (there, counted, again, is_whole start buffer room) refl

-- What is known of an own handle's write at or before the end of the file.
abbrev WritesInto : Backends → Vfs → Handle → List ℕ → Type 0
WritesInto b v file buffer =
    let start = write_start v file in
    let (answer, moved, after) = rad_vfs_write b v file buffer in
    (answer ≡ answer_of start buffer)
    × (moved ≡ record file { position = start + length (fitting start buffer) })
    × (own_file after file ≡ written (own_file v file) start buffer)

writes-into :
    (b : Backends) (v : Vfs) (file : Handle) (buffer : List ℕ)
    → IsOpenForWriting v file
    → write_start v file < file_bytes
    → WritesInto b v file buffer
writes-into b v file buffer opened room =
    let start = write_start v file in
    let e = write_at-open b v file buffer opened ∙ write_at-fits v file start buffer room in
    (
      ap (λ t. t.0) e,
      ap (λ t. t.1) e,
      ap (λ t. own_file t.2 file) e
          ∙ get_or-set_self v.files file.entry_index (written (own_file v file) start buffer)
              zero_file opened.2,
    )

length-fitting :
    (start : ℕ) (buffer : List ℕ)
    → start < file_bytes
    → start + length (fitting start buffer) ≤ file_bytes
length-fitting start buffer room =
    let e = length-take (file_bytes - start) buffer in omega (arith, e, room)

contents-written :
    (f : VfsFile) (start : ℕ) (buffer : List ℕ)
    → WellSized f
    → start ≤ f.size
    → start < file_bytes
    → contents (written f start buffer) ≡ overwrite (contents f) start (fitting start buffer)
contents-written f start buffer (small, full) inside room =
    let end = start + length (fitting start buffer) in
    let size_of : (if ltb f.size end then end else f.size) ≡ end + (f.size - end) = ground arith in
    take-overwrite f.data_bytes (fitting start buffer) start f.size
      (if ltb f.size end then end else f.size) inside (omega (arith, small, full)) size_of

-- A write through an open handle, to a file whose size is right and from a position in it or at
-- its end (the end, with `append`) below 4096, overwrites as many of its bytes as there is room
-- for, keeps the others, and says how many; the status is that of a full table exactly when some
-- did not fit.
pub rad_vfs_write-contents :
    (b : Backends) (v : Vfs) (file : Handle) (buffer : List ℕ)
    → IsOpenForWriting v file
    → WellSized (own_file v file)
    → write_start v file ≤ (own_file v file).size
    → write_start v file < file_bytes
    → let (answer, moved, after) = rad_vfs_write b v file buffer in
      (answer ≡ answer_of (write_start v file) buffer)
      × (contents (own_file after file)
          ≡ overwrite
              (contents (own_file v file))
              (write_start v file)
              (fitting (write_start v file) buffer))
rad_vfs_write-contents b v file buffer opened sized inside room =
    let (answer, moved, e) = writes-into b v file buffer opened room in
    (
      answer,
      ap contents e
          ∙ contents-written (own_file v file) (write_start v file) buffer sized inside room,
    )

-- A write of some bytes behind the end of a file makes what the record held there before a part of
-- the file.
pub write_behind_end :
    (b : Backends) (v : Vfs) (file : Handle) (buffer : List ℕ)
    → IsOpenForWriting v file
    → WellSized (own_file v file)
    → (own_file v file).size < write_start v file
    → write_start v file < file_bytes
    → 0 < length buffer
    → contents (own_file (rad_vfs_write b v file buffer).2 file)
      ≡ take (write_start v file) (own_file v file).data_bytes
        ++ fitting (write_start v file) buffer
write_behind_end b v file buffer opened (small, full) behind_end room some_bytes =
    let start = write_start v file in
    let f = own_file v file in
    let bytes = fitting start buffer in
    let end = start + length bytes in
    let l = length-take (file_bytes - start) buffer in
    let longer : (if ltb f.size end then end else f.size) ≡ end + 0 =
      ground (arith, l, behind_end, room, some_bytes) in
    let front : length (take start f.data_bytes ++ bytes) ≡ end =
      length-front f.data_bytes bytes start (omega (arith, full, room)) in
    let (answer, moved, e) = writes-into b v file buffer opened room in
    ap contents e
    ∙ ap (λ t. take t (overwrite f.data_bytes start bytes)) (longer ∙ ap (λ t. t + 0) (sym front))
    ∙ take-append_more (take start f.data_bytes ++ bytes) (drop end f.data_bytes) 0
    ∙ append-nil (take start f.data_bytes ++ bytes)
