-- ===== src/Files/Rereading.antt =====
-- What rad_vfs_read of RADKernel/core/RADKernel_runtime.cpp gives of what rad_vfs_write has written.
use radpx_os.Base.{
  ℕ, ◌+◌, ◌-◌, ◌≤◌, ◌<◌, ◌≡◌, refl, sym, ap, ◌∙◌, true, false, List, ◌++◌, append-nil, append_assoc,
  arith, ltb, leb, if◌then◌else◌, length, set, length-set, take, drop, length-take, get_or-set_self,
  ok, value,
}
use mathlib.Core.Path.{subst}
use radpx_os.Base.Int.{pos}
use radpx_os.Base.Slices.{take-append_more, drop-append_length}
use radpx_os.Files.{Vfs, Backends, file_bytes, zero_file, seek_set}
use radpx_os.Files.Handles.{Handle, reads, overwrite, rad_vfs_read, rad_vfs_write, rad_vfs_seek}
use radpx_os.Files.Contents.{
  WellSized, IsOpenForWriting, own_file, write_start, fitting, written, leb-false, write_at-open,
  write_at-fits,
}

read-overwrite :
    (bytes buffer : List ℕ) (p : ℕ)
    → p ≤ length bytes
    → take (length buffer) (drop p (overwrite bytes p buffer)) ≡ buffer
read-overwrite bytes buffer p le =
    let front : length (take p bytes) ≡ p = length-take p bytes ∙ omega (arith, le) in
    let end = drop (p + length buffer) bytes in
    let whole : take p bytes ++ buffer ++ end ≡ take p bytes ++ (buffer ++ end) =
      append_assoc (take p bytes) buffer end in
    let at_buffer : drop p (take p bytes ++ (buffer ++ end)) ≡ buffer ++ end =
      ap (λ t. drop t (take p bytes ++ (buffer ++ end))) (sym front)
      ∙ drop-append_length (take p bytes) (buffer ++ end) in
    let none_left : length buffer + 0 ≡ length buffer = omega arith in
    ap (λ t. take (length buffer) (drop p t)) whole
    ∙ ap (λ t. take (length buffer) t) at_buffer
    ∙ ap (λ t. take t (buffer ++ end)) (sym none_left)
    ∙ take-append_more buffer end 0
    ∙ append-nil buffer

seek-set :
    (b : Backends) (v : Vfs) (file : Handle) (n : ℕ)
    → file.backend ≡ false
    → file.entry_index < length v.files
    → n ≤ file_bytes
    → rad_vfs_seek b v file (pos n) seek_set ≡ (ok, record file { position = n })
unfolding rad_vfs_seek
seek-set b v file n own inside small =
    let there : leb (length v.files) file.entry_index ≡ false =
      leb-false (length v.files) file.entry_index inside in
    let from_zero : 0 + n ≡ n = omega arith in
    let fits : ltb file_bytes n ≡ false = ground (arith, small) in
    rw (own, there, from_zero, fits) refl

read-inside :
    (b : Backends) (v : Vfs) (file : Handle) (size : ℕ)
    → file.backend ≡ false
    → reads file.flags ≡ true
    → file.entry_index < length v.files
    → (own_file v file).used ≡ true
    → file.position + size ≤ (own_file v file).size
    → (rad_vfs_read b v file size).0
      ≡ value (take size (drop file.position (own_file v file).data_bytes))
unfolding rad_vfs_read
read-inside b v file size own reading inside used within =
    let f = own_file v file in
    let there : leb (length v.files) file.entry_index ≡ false =
      leb-false (length v.files) file.entry_index inside in
    let all : (if ltb (f.size - file.position) size then f.size - file.position else size) ≡ size =
      ground (arith, within) in
    rw (own, reading, there, used, all) refl

le-larger : (m n : ℕ) → m ≤ (if ltb n m then m else n)
le-larger m n = ground arith

-- What is written is read again: through a handle open for both, to a file whose size is right and
-- from a position below 4096, after a write and a seek back to where it began a read of as many
-- bytes as were written gives the bytes that were written.
pub rad_vfs_read-rad_vfs_write :
    (b : Backends) (v : Vfs) (file : Handle) (buffer : List ℕ)
    → IsOpenForWriting v file
    → reads file.flags ≡ true
    → WellSized (own_file v file)
    → write_start v file < file_bytes
    → let start = write_start v file in
      let (answer, moved, after) = rad_vfs_write b v file buffer in
      let (status, back) = rad_vfs_seek b after moved (pos start) seek_set in
      (status ≡ ok)
      × ((rad_vfs_read b after back (length (fitting start buffer))).0
          ≡ value (fitting start buffer))
rad_vfs_read-rad_vfs_write b v file buffer (own, writing, inside, used) reading (small, full) room =
    let start = write_start v file in
    let f = own_file v file in
    let bytes = fitting start buffer in
    let after = record v { files = set v.files file.entry_index (written f start buffer) } in
    let moved = record file { position = start + length bytes } in
    let back = record file { position = start } in
    let e =
      write_at-open b v file buffer (own, writing, inside, used)
      ∙ write_at-fits v file start buffer room in
    let kept : own_file after file ≡ written f start buffer =
      get_or-set_self v.files file.entry_index (written f start buffer) zero_file inside in
    let there : file.entry_index < length after.files =
      subst (λ t. file.entry_index < t)
        (sym (length-set v.files file.entry_index (written f start buffer))) inside in
    let seek = seek-set b after moved start own there (omega (arith, room)) in
    let within : start + length bytes ≤ (written f start buffer).size =
      le-larger (start + length bytes) f.size in
    let read =
      read-inside b after back (length bytes) own reading there (ap (λ t. t.used) kept ∙ used)
        (subst (λ t. start + length bytes ≤ t.size) (sym kept) within) in
    rw (e, seek)
      (
        refl,
        read
            ∙ ap (λ t. value (take (length bytes) (drop start t.data_bytes))) kept
            ∙ ap value (read-overwrite f.data_bytes bytes start (omega (arith, full, room))),
      )
