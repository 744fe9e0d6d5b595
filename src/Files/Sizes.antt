-- ===== src/Files/Sizes.antt =====
-- The sizes of files in RADKernel/core/RADKernel_runtime.cpp.
use radpx_os.Base.{
  ℕ, ◌<◌, sym, inl, inr, List, [], ◌∷◌, arith, length, set, length-set, get_or, length-replicate,
  get_or-set,
}
use mathlib.Core.Path.{subst}
use radpx_os.Kernel.{Kernel}
use radpx_os.Files.{VfsFile, Vfs, Backends, file_bytes, zero_file}
use radpx_os.Files.Contents.{WellSized}
use radpx_os.Files.Changes.{Change, change, changes}
use radpx_os.Files.Touches.{Touch, untouched, rewritten, renamed, dropped, one_then}
use radpx_os.Files.Effects.{change-Touches}

-- Every record has all its bytes, and its size is at most that.
abbrev pub AllWellSized : List VfsFile → Type 0
AllWellSized files = (i : ℕ) → i < length files → WellSized (get_or files i zero_file)

set-AllWellSized :
    (files : List VfsFile) (i : ℕ) (f : VfsFile)
    → i < length files
    → WellSized f
    → AllWellSized files
    → AllWellSized (set files i f)
set-AllWellSized files i f inside sized all j below =
    elim (get_or-set files i j f zero_file inside) [
      | inl (same, e) ↦ subst WellSized (sym e) sized
      | inr (other, e) ↦
          subst WellSized (sym e) (all j (subst (λ t. j < t) (length-set files i f) below))
    ]

touch-AllWellSized : {old new : List VfsFile} → Touch old new → AllWellSized old → AllWellSized new
touch-AllWellSized (untouched files) all = all
touch-AllWellSized (rewritten files i f inside used path sized) all =
    set-AllWellSized files i f inside (sized (all i inside)) all
touch-AllWellSized (renamed files i f inside fresh used sized) all =
    set-AllWellSized files i f inside (sized (all i inside)) all
touch-AllWellSized (dropped files i inside) all =
    set-AllWellSized files i zero_file inside (omega arith, length-replicate {A = ℕ} file_bytes 0)
      all
touch-AllWellSized (one_then old new newer first later) all =
    touch-AllWellSized later (touch-AllWellSized first all)

-- Whatever calls change files, directories, mounts and the working directory, and whatever the
-- providers answer, each record has its 4096 bytes and a size of at most that afterwards, if it
-- had before.
pub changes-AllWellSized :
    (v : Vfs) (cs : List (Backends × Kernel × Change))
    → AllWellSized v.files
    → AllWellSized (changes v cs).files
unfolding changes
changes-AllWellSized v [] all = all
changes-AllWellSized v ((b, k, c) ∷ cs) all =
    changes-AllWellSized (change b k v c) cs (touch-AllWellSized (change-Touches b k v c) all)
