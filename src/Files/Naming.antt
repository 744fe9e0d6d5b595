-- ===== src/Files/Naming.antt =====
-- The names of files in RADKernel/core/RADKernel_runtime.cpp.
use radpx_os.Base.{
  ℕ, ◌<◌, ◌≡◌, refl, ◌≢◌, Bool, true, false, none, some, List, [], ◌∷◌, arith, length, set, get_or,
  CString, text_eq_refl, text_eq_sound, text_eq,
}
use radpx_os.Base.Keyed.{not-keyed, set_fresh-AllKeyed, set_same-AllKeyed}
use radpx_os.Kernel.{Kernel}
use radpx_os.Files.{VfsFile, Vfs, Backends, zero_file, is_named, find_file_or_dir}
use radpx_os.Files.Changes.{Change, change, changes}
use radpx_os.Files.Touches.{Touch, untouched, rewritten, renamed, dropped, one_then}
use radpx_os.Files.Effects.{change-Touches}

abbrev pub named_at : List VfsFile → ℕ → VfsFile
named_at files i = get_or files i zero_file

-- A search for the name of a record in use finds that record: no two have the same name.
abbrev pub AllNamed : List VfsFile → Type 0
AllNamed files =
    (i : ℕ)
    → i < length files
    → (get_or files i zero_file).used ≡ true
    → find_file_or_dir files (get_or files i zero_file).path ≡ some i

pub is_named_self : (f : VfsFile) → f.used ≡ true → is_named f.path f ≡ true
is_named_self f used = rw (used, text_eq_refl f.path) refl

is_named-path :
    (name : CString) (f : VfsFile) → is_named name f ≡ true → (f.used ≡ true) × (f.path ≡ name)
is_named-path name f named =
    let equal : text_eq f.path name ≡ true = ground (arith, named) in
    (ground (arith, named), text_eq_sound f.path name equal)

abbrev is_used : VfsFile → Bool
is_used f = f.used

abbrev path_of : VfsFile → CString
path_of f = f.path

-- A record's name is not that of another.
pub not-named :
    (files : List VfsFile) (i j : ℕ) (name : CString)
    → AllNamed files
    → i < length files
    → i ≢ j
    → find_file_or_dir files name ≡ some j
    → is_named name (named_at files i) ≡ false
unfolding find_file_or_dir
not-named files i j name all inside other found =
    not-keyed zero_file is_used path_of is_named is_named-path is_named_self files i j name all
      inside other found

set_fresh-AllNamed :
    (files : List VfsFile) (i : ℕ) (f : VfsFile)
    → i < length files
    → (f.used ≡ true → find_file_or_dir files f.path ≡ none)
    → AllNamed files
    → AllNamed (set files i f)
unfolding find_file_or_dir
set_fresh-AllNamed files i f inside fresh all =
    set_fresh-AllKeyed zero_file is_used path_of is_named is_named-path is_named_self files i f
      inside fresh all

set_same-AllNamed :
    (files : List VfsFile) (i : ℕ) (f : VfsFile)
    → i < length files
    → f.used ≡ (named_at files i).used
    → f.path ≡ (named_at files i).path
    → AllNamed files
    → AllNamed (set files i f)
unfolding find_file_or_dir
set_same-AllNamed files i f inside in_use_as path all =
    set_same-AllKeyed zero_file is_used path_of is_named is_named-path is_named_self files i f
      inside in_use_as path (λ name. rw (in_use_as, path) refl) all

touch-AllNamed : {old new : List VfsFile} → Touch old new → AllNamed old → AllNamed new
touch-AllNamed (untouched files) all = all
touch-AllNamed (rewritten files i f inside used path sized) all =
    set_same-AllNamed files i f inside used path all
touch-AllNamed (renamed files i f inside fresh used sized) all =
    set_fresh-AllNamed files i f inside (λ u. fresh) all
touch-AllNamed (dropped files i inside) all =
    set_fresh-AllNamed files i zero_file inside (λ u. absurd (ground arith)) all
touch-AllNamed (one_then old new newer first later) all =
    touch-AllNamed later (touch-AllNamed first all)

-- Whatever calls change files, directories, mounts and the working directory, and whatever the
-- providers answer, each file and directory in use is found by its name afterwards, if it was
-- before: no two have the same name.
pub changes-AllNamed :
    (v : Vfs) (cs : List (Backends × Kernel × Change))
    → AllNamed v.files
    → AllNamed (changes v cs).files
unfolding changes
changes-AllNamed v [] all = all
changes-AllNamed v ((b, k, c) ∷ cs) all =
    changes-AllNamed (change b k v c) cs (touch-AllNamed (change-Touches b k v c) all)
