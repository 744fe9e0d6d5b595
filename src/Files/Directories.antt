-- ===== src/Files/Directories.antt =====
-- What the calls by name of RADKernel/core/RADKernel_runtime.cpp leave to be found.
use radpx_os.Base.{
  ℕ, ◌<◌, ◌≡◌, refl, sym, ap, ◌∙◌, ◌≢◌, inl, inr, true, false, not, ◌&&◌, ◌||◌, Option, none, some,
  List, arith, if_elim, option_elim, Bool-cases, Option-cases, set, length-set, find_index-holds,
  find_index-fresh, get_or-set, CString, copy_string, text_eq_sound, text_eq, Status, ok,
}
use mathlib.Core.Path.{subst}
use radpx_os.Kernel.{Kernel}
use radpx_os.Paths.{parent_path}
use radpx_os.Files.{
  VfsFile, Vfs, path_size, zero_file, file_at, is_named, find_file_or_dir, has_children, fill_stat,
  can_write_stat, can_execute_stat,
}
use radpx_os.Files.Handles.{parent_allows}
use radpx_os.Files.Names.{remove_own, parent_lets_go}
use radpx_os.Files.Edits.{rename_own}
use radpx_os.Files.Naming.{AllNamed, named_at, not-named, is_named_self}
use radpx_os.Files.Touches.{IsName, copied, found-lt}
use radpx_os.Files.Effects.{found-used}

-- A record that loses its name leaves no other with it.
find-gone :
    (files : List VfsFile) (i : ℕ) (name : CString) (f : VfsFile)
    → AllNamed files
    → find_file_or_dir files name ≡ some i
    → is_named name f ≡ false
    → find_file_or_dir (set files i f) name ≡ none
unfolding find_file_or_dir
find-gone files i name f all found lost =
    elim (Option-cases (find_file_or_dir (set files i f) name)) [
      | inl e ↦ e
      | inr (j, e) ↦
          let inside = found-lt files name i found in
          let below = found-lt (set files i f) name j e in
          let holds : is_named name (named_at (set files i f) j) ≡ true =
            find_index-holds (is_named name) zero_file (set files i f) j e in
          elim (get_or-set files i j f zero_file inside) [
            | inl (same, there) ↦
                absurd (ground (arith, sym (ap (is_named name) there) ∙ holds, lost))
            | inr (other, there) ↦
                let before =
                  not-named files j i name all (subst (λ t. j < t) (length-set files i f) below)
                    (λ e. other (sym e)) found in
                absurd (ground (arith, sym (ap (is_named name) there) ∙ holds, before))
          ]
    ]

named-elsewhere :
    (old_name new_name : CString) (f : VfsFile)
    → f.path ≡ new_name
    → old_name ≢ new_name
    → is_named old_name f ≡ false
named-elsewhere old_name new_name f here other = elim (Bool-cases (is_named old_name f)) [
  | inr differs ↦ differs
  | inl agrees ↦
      let equal : text_eq f.path old_name ≡ true = ground (arith, agrees) in
      absurd (other (sym (text_eq_sound f.path old_name equal) ∙ here))
]

pub parent_allows-refuses :
    (k : Kernel) (v : Vfs) (name : CString) → ¬ (parent_allows k v name ≡ some ok)
unfolding parent_allows
parent_allows-refuses k v name =
    let P = λ (r : Option Status). ¬ (r ≡ some ok) in
    option_elim P (find_file_or_dir v.files (parent_path path_size name))
      (λ e refused. absurd (ground (arith, refused)))
      (λ i e.
        let stat = fill_stat (file_at v i) in
        if_elim P (not stat.is_directory) (λ e refused. absurd (ground (arith, refused)))
          (λ e.
            if_elim P (not (can_write_stat k stat) || not (can_execute_stat k stat))
              (λ e refused. absurd (ground (arith, refused)))
              (λ e refused. absurd (ground (arith, refused)))))

-- What a call that succeeds promises: `before` and `after` are the tables, `name` a name.
abbrev pub IsMoved : Kernel → Vfs → CString → CString → Status × Vfs → Type 0
IsMoved k v old_name new_name r =
    r.0 ≡ ok
    → (i : ℕ) × (find_file_or_dir v.files old_name ≡ some i)
      × (find_file_or_dir r.1.files new_name ≡ some i)
      × (find_file_or_dir r.1.files old_name ≡ none)
      × (r.1.files ≡ set v.files i (record (file_at v i) { path = new_name }))

-- In a table whose names are distinct, a rename to a name that fits its buffer, and that succeeds,
-- gives the record of the old name the new one, by which it is found then and no longer by the old
-- one; nothing else of it changes, and no other record does.
pub rename_own-IsMoved :
    (k : Kernel) (v : Vfs) (old_name new_name : CString)
    → AllNamed v.files
    → IsName new_name
    → IsMoved k v old_name new_name (rename_own k v old_name new_name)
unfolding rename_own find_file_or_dir
rename_own-IsMoved k v old_name new_name all short =
    let P = IsMoved k v old_name new_name in
    option_elim P (find_file_or_dir v.files old_name) (λ e fine. absurd (ground arith))
      (λ i found.
        option_elim P (find_file_or_dir v.files new_name)
          (λ missing.
            option_elim P (parent_allows k v new_name)
              (λ e fine.
                let moved = record (file_at v i) { path = new_name } in
                let inside = found-lt v.files old_name i found in
                let same : set v.files i
                      (record (file_at v i) { path = copy_string path_size new_name })
                    ≡ set v.files i moved =
                  ap (λ t. set v.files i (record (file_at v i) { path = t }))
                    (copied new_name short) in
                let other : old_name ≢ new_name = λ equal.
                  absurd
                    (ground (arith, sym found ∙ ap (find_file_or_dir v.files) equal ∙ missing)) in
                let used = found-used v.files old_name i found in
                (
                  i,
                  found,
                  ap (λ t. find_file_or_dir t new_name) same
                      ∙ find_index-fresh (is_named new_name) zero_file v.files i moved missing
                          inside (is_named_self moved used),
                  ap (λ t. find_file_or_dir t old_name) same
                      ∙ find-gone v.files i old_name moved all found
                          (named-elsewhere old_name new_name moved refl other),
                  same,
                ))
              (λ status e fine. absurd (parent_allows-refuses k v new_name (e ∙ ap some fine))))
          (λ j e fine. absurd (ground arith)))

abbrev pub IsRemoved : Vfs → CString → Status × Vfs → Type 0
IsRemoved v name r =
    r.0 ≡ ok
    → (i : ℕ) × (find_file_or_dir v.files name ≡ some i)
      × (((file_at v i).is_directory && has_children v.files name) ≡ false)
      × (find_file_or_dir r.1.files name ≡ none)
      × (r.1.files ≡ set v.files i zero_file)

is_named-zero : (name : CString) → is_named name zero_file ≡ false
is_named-zero name = refl

-- In a table whose names are distinct, a removal that succeeds clears the record of that name,
-- which was no directory with something in it, and leaves none of that name; no other record
-- changes.
pub remove_own-IsRemoved :
    (k : Kernel) (v : Vfs) (name : CString)
    → AllNamed v.files
    → IsRemoved v name (remove_own k v name)
unfolding remove_own
remove_own-IsRemoved k v name all =
    let P = IsRemoved v name in
    option_elim P (find_file_or_dir v.files name) (λ e fine. absurd (ground arith))
      (λ i found.
        if_elim P ((file_at v i).is_directory && has_children v.files name)
          (λ e fine. absurd (ground arith))
          (λ childless.
            if_elim P (not (parent_lets_go k v name)) (λ e fine. absurd (ground arith))
              (λ e fine. (
                i,
                found,
                childless,
                find-gone v.files i name zero_file all found (is_named-zero name),
                refl,
              ))))
