-- ===== src/Files/Touches.antt =====
-- How the calls of RADKernel/core/RADKernel_runtime.cpp may change the table of files.
use radpx_os.Base.{
  ℕ, ◌+◌, ◌-◌, ◌≤◌, ◌<◌, ◌≡◌, refl, sym, ap, ◌∙◌, Bool, true, false, not, ◌&&◌, ◌||◌, Option, none,
  some, List, arith, ltb, leb, if◌then◌else◌, if_elim, option_elim, length, set, length-set, get_or,
  take, take-all, length-take, find_index, find_index-lt, CString, copy_string, Status,
}
use mathlib.Core.Path.{subst}
use radpx_os.Kernel.{Kernel}
use radpx_os.Files.{
  VfsFile, Vfs, Backends, path_size, file_bytes, zero_file, directory_mode, file_mode, file_at,
  put_file, is_named, find_file_or_dir, has_children, fill_stat, take_slot, ensure_directory,
  named_anew, is_unused, mounted_path,
}
use radpx_os.Files.Handles.{
  Handle, truncates, appends, writes, creates, is_refused, overwrite, open_record, open_own,
  parent_allows, write_at, rad_vfs_write, table_of,
}
use radpx_os.Files.Names.{mkdir_own, remove_own, rmdir_own, parent_lets_go}
use radpx_os.Files.Contents.{WellSized, length-overwrite}

abbrev pub old_file : List VfsFile → ℕ → VfsFile
old_file files i = get_or files i zero_file

pub data Touch : List VfsFile → List VfsFile → Type 0 where
  untouched : (files : List VfsFile) → Touch files files
  rewritten :
      (files : List VfsFile) (i : ℕ) (f : VfsFile)
      → i < length files
      → f.used ≡ (old_file files i).used
      → f.path ≡ (old_file files i).path
      → (WellSized (old_file files i) → WellSized f)
      → Touch files (set files i f)
  renamed :
      (files : List VfsFile) (i : ℕ) (f : VfsFile)
      → i < length files
      → find_file_or_dir files f.path ≡ none
      → f.used ≡ true
      → (WellSized (old_file files i) → WellSized f)
      → Touch files (set files i f)
  dropped : (files : List VfsFile) (i : ℕ) → i < length files → Touch files (set files i zero_file)
  one_then : (old new newer : List VfsFile) → Touch old new → Touch new newer → Touch old newer

abbrev pub Touches : Vfs → Vfs → Type 0
Touches v w = Touch v.files w.files

abbrev pub Leaves : {A : Type 0} → Vfs → A × Vfs → Type 0
Leaves v r = Touch v.files r.1.files

abbrev SlotFits : Option ℕ × Vfs → Type 0
SlotFits r = (i : ℕ) → r.0 ≡ some i → i < length r.1.files

abbrev pub IsName : CString → Type 0
IsName name = length name < path_size

pub copied : (name : CString) → IsName name → copy_string path_size name ≡ name
copied name short = take-all (path_size - 1) name (omega (arith, short))

pub found-lt :
    (files : List VfsFile) (name : CString) (i : ℕ)
    → find_file_or_dir files name ≡ some i
    → i < length files
unfolding find_file_or_dir
found-lt files name i e = find_index-lt (is_named name) files i e

take_slot-Touches :
    (k : Kernel) (v : Vfs) (is_directory : Bool) (mode : ℕ) (name : CString)
    → IsName name
    → find_file_or_dir v.files name ≡ none
    → Touches v (take_slot k v is_directory mode name).1
unfolding take_slot
take_slot-Touches k v is_directory mode name short missing =
    option_elim (Leaves v) (find_index is_unused v.files) (λ e. untouched v.files)
      (λ i e.
        renamed v.files i (named_anew k is_directory mode name (file_at v i))
          (find_index-lt is_unused v.files i e)
          (ap (find_file_or_dir v.files) (copied name short) ∙ missing) refl
          (λ sized. (omega arith, sized.1)))

pub ensure_directory-Touches :
    (k : Kernel) (v : Vfs) (name : CString) → IsName name → Touches v (ensure_directory k v name).1
unfolding ensure_directory
ensure_directory-Touches k v name short =
    option_elim (Leaves v) (find_file_or_dir v.files name)
      (take_slot-Touches k v true directory_mode name short) (λ i e. untouched v.files)

open_record-Touches :
    (has_memory : Bool) (v : Vfs) (i flags : ℕ)
    → i < length v.files
    → Touches v (open_record has_memory v i flags).1
unfolding open_record
open_record-Touches has_memory v i flags inside =
    let cut = record (file_at v i) { size = 0 } in
    let after : Touches v (
        if truncates flags
        then put_file v i (if truncates flags then cut else file_at v i)
        else v) =
      if_elim (λ w. Touches v w) (truncates flags)
        (λ e.
          subst (λ f. Touch v.files (set v.files i f))
            (sym
              (if_elim (λ f. f ≡ cut) (truncates flags) (λ t. refl) (λ t. absurd (ground arith))))
            (rewritten v.files i cut inside refl refl (λ sized. (omega arith, sized.1))))
        (λ e. untouched v.files) in
    if_elim (Leaves v) has_memory (λ e. after) (λ e. after)

take_slot-SlotFits :
    (k : Kernel) (v : Vfs) (is_directory : Bool) (mode : ℕ) (name : CString)
    → SlotFits (take_slot k v is_directory mode name)
unfolding take_slot
take_slot-SlotFits k v is_directory mode name =
    option_elim SlotFits (find_index is_unused v.files) (λ e i got. absurd (ground arith))
      (λ j e i got.
        let same : j ≡ i = cc in
        let f = named_anew k is_directory mode name (file_at v j) in
        subst (λ t. t < length (set v.files j f)) same
          (subst (λ t. j < t) (sym (length-set v.files j f)) (find_index-lt is_unused v.files j e)))

pub open_own-Touches :
    (k : Kernel) (has_memory : Bool) (v : Vfs) (name : CString) (flags : ℕ)
    → IsName name
    → Leaves v (open_own k has_memory v name flags)
unfolding open_own
open_own-Touches k has_memory v name flags short =
    let same = untouched v.files in
    if_elim (Leaves v) (not (mounted_path v name)) (λ e. same)
      (λ e.
        option_elim (Leaves v) (find_file_or_dir v.files name)
          (λ missing.
            if_elim (Leaves v) (not (creates flags)) (λ e. same)
              (λ e.
                option_elim (Leaves v) (parent_allows k v name)
                  (λ e.
                    let (slot, made) = take_slot k v false file_mode name in
                    let taken = take_slot-Touches k v false file_mode name short missing in
                    option_elim (Leaves v) slot (λ e. taken)
                      (λ i got.
                        one_then v.files made.files (open_record has_memory made i flags).1.files
                          taken
                          (open_record-Touches has_memory made i flags
                            (take_slot-SlotFits k v false file_mode name i got))))
                  (λ status e. same)))
          (λ i found.
            if_elim (Leaves v) (file_at v i).is_directory (λ e. same)
              (λ e.
                if_elim (Leaves v) (is_refused k (fill_stat (file_at v i)) flags) (λ e. same)
                  (λ e. open_record-Touches has_memory v i flags (found-lt v.files name i found)))))

abbrev pub LeavesThree : Vfs → (Status × ℕ) × Handle × Vfs → Type 0
LeavesThree v r = Touch v.files r.2.files

abbrev least : ℕ → ℕ → ℕ
least capacity n = if ltb capacity n then capacity else n

write-WellSized :
    (f : VfsFile) (position : ℕ) (buffer : List ℕ)
    → position < file_bytes
    → WellSized f
    → let count = least (file_bytes - position) (length buffer) in
      WellSized (record f {
        data_bytes = overwrite f.data_bytes position (take count buffer);
        size = if ltb f.size (position + count) then position + count else f.size;
      })
write-WellSized f position buffer room (small, full) =
    let count = least (file_bytes - position) (length buffer) in
    let fits : position + count ≤ file_bytes = ground (arith, room) in
    let l = length-take count buffer in
    let size_fits : (if ltb f.size (position + count) then position + count else f.size)
        ≤ file_bytes =
      ground (arith, fits, small) in
    (
      size_fits,
      length-overwrite f.data_bytes (take count buffer) position (omega (arith, l, full, fits))
          ∙ full,
    )

pub rad_vfs_write-Touches :
    (b : Backends) (v : Vfs) (file : Handle) (buffer : List ℕ)
    → LeavesThree v (rad_vfs_write b v file buffer)
unfolding rad_vfs_write write_at
rad_vfs_write-Touches b v file buffer =
    let i = file.entry_index in
    let f = file_at v i in
    let same = untouched v.files in
    let P = LeavesThree v in
    if_elim P file.backend (λ e. option_elim P (table_of v file) (λ e. same) (λ ops e. same))
      (λ e.
        if_elim P (not (writes file.flags) || leb (length v.files) i) (λ e. same)
          (λ opened.
            if_elim P (not f.used) (λ e. same)
              (λ e.
                let position = if appends file.flags then f.size else file.position in
                let inside : i < length v.files = ground (arith, opened) in
                if_elim P (leb file_bytes position) (λ e. same)
                  (λ room.
                    rewritten v.files i
                      (record f {
                        data_bytes =
                            overwrite f.data_bytes position
                              (take (least (file_bytes - position) (length buffer)) buffer);
                        size =
                            if ltb f.size (position + least (file_bytes - position) (length buffer))
                            then position + least (file_bytes - position) (length buffer)
                            else f.size;
                      })
                      inside refl refl
                      (write-WellSized f position buffer (ground (arith, room)))))))

pub mkdir_own-Touches :
    (k : Kernel) (v : Vfs) (name : CString) → IsName name → Leaves v (mkdir_own k v name)
unfolding mkdir_own
mkdir_own-Touches k v name short =
    let same = untouched v.files in
    if_elim (Leaves v) (not (mounted_path v name)) (λ e. same)
      (λ e.
        option_elim (Leaves v) (parent_allows k v name)
          (λ e.
            option_elim (Leaves v) (find_file_or_dir v.files name)
              (λ e. ensure_directory-Touches k v name short) (λ i e. same))
          (λ status e. same))

pub remove_own-Touches : (k : Kernel) (v : Vfs) (name : CString) → Leaves v (remove_own k v name)
unfolding remove_own
remove_own-Touches k v name =
    let same = untouched v.files in
    option_elim (Leaves v) (find_file_or_dir v.files name) (λ e. same)
      (λ i found.
        if_elim (Leaves v) ((file_at v i).is_directory && has_children v.files name) (λ e. same)
          (λ e.
            if_elim (Leaves v) (not (parent_lets_go k v name)) (λ e. same)
              (λ e. dropped v.files i (found-lt v.files name i found))))

pub rmdir_own-Touches : (k : Kernel) (v : Vfs) (name : CString) → Leaves v (rmdir_own k v name)
unfolding rmdir_own
rmdir_own-Touches k v name =
    let same = untouched v.files in
    option_elim (Leaves v) (find_file_or_dir v.files name) (λ e. same)
      (λ i found.
        if_elim (Leaves v) (not (file_at v i).is_directory) (λ e. same)
          (λ e.
            if_elim (Leaves v) (has_children v.files name) (λ e. same)
              (λ e.
                if_elim (Leaves v) (not (parent_lets_go k v name)) (λ e. same)
                  (λ e. dropped v.files i (found-lt v.files name i found)))))
