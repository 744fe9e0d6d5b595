-- ===== src/Files/Making.antt =====
-- The directories that rad_vfs_mkdir of RADKernel/core/RADKernel_runtime.cpp makes.
use radpx_os.Base.{
  ℕ, ◌≡◌, refl, sym, ap, ◌∙◌, inl, inr, true, not, Option, none, some, [], ◌∷◌, arith, if_elim,
  option_elim, Bool-cases, find_index, find_index-lt, find_index-fresh, get_or-set_self, CString,
  text_eq_refl, text_eq, Status, ok, no_memory, Result, value, fail,
}
use mathlib.Core.Path.{subst}
use radpx_os.Base.Keyed.{some-same}
use radpx_os.Kernel.{Kernel}
use radpx_os.Paths.{slash, normalize_path}
use radpx_os.Paths.Length.{length-normalize_path}
use radpx_os.Files.{
  Vfs, FileStat, Backends, normalized, provider_for_path, path_size, zero_file, directory_mode,
  file_at, put_file, is_named, is_unused, find_file_or_dir, take_slot, named_anew, ensure_directory,
  mounted_path,
}
use radpx_os.Files.Handles.{parent_allows}
use radpx_os.Files.Names.{rad_vfs_mkdir, rad_vfs_stat, stat_own, mkdir_own}
use radpx_os.Files.Touches.{IsName, copied}
use radpx_os.Files.Directories.{parent_allows-refuses}

-- A directory is what rad_vfs_stat answers.
abbrev pub IsDirectory : Result FileStat → Type 0
IsDirectory (fail status) = ⊥
IsDirectory (value stat) = stat.is_directory ≡ true

abbrev MakesDirectory : CString → Status × Vfs → Type 0
MakesDirectory name r = r.0 ≡ ok → IsDirectory (stat_own r.1 name)

stat_own-found :
    (v : Vfs) (name : CString) (i : ℕ)
    → mounted_path v name ≡ true
    → find_file_or_dir v.files name ≡ some i
    → (file_at v i).is_directory ≡ true
    → IsDirectory (stat_own v name)
unfolding stat_own
stat_own-found v name i mounted found directory =
    if_elim IsDirectory (text_eq name (slash ∷ [])) (λ e. refl)
      (λ e.
        if_elim IsDirectory (not (mounted_path v name)) (λ e. absurd (ground (arith, mounted)))
          (λ e.
            option_elim IsDirectory (find_file_or_dir v.files name)
              (λ e. absurd (ground (arith, found)))
              (λ j e.
                ap (λ t. (file_at v t).is_directory) (some-same j i (sym e ∙ found)) ∙ directory)))

abbrev MakesSlot : CString → Option ℕ × Vfs → Type 0
MakesSlot name r = MakesDirectory name (elim r.0 [ none ↦ no_memory | some i ↦ ok ], r.1)

take_slot-MakesSlot :
    (k : Kernel) (v : Vfs) (name : CString)
    → IsName name
    → mounted_path v name ≡ true
    → find_file_or_dir v.files name ≡ none
    → MakesSlot name (take_slot k v true directory_mode name)
unfolding take_slot mounted_path find_file_or_dir
take_slot-MakesSlot k v name short mounted missing =
    option_elim (MakesSlot name) (find_index is_unused v.files)
      (λ e fine. absurd (ground (arith, fine)))
      (λ i e fine.
        let made = named_anew k true directory_mode name (file_at v i) in
        let inside = find_index-lt is_unused v.files i e in
        let there : file_at (put_file v i made) i ≡ made =
          get_or-set_self v.files i made zero_file inside in
        stat_own-found (put_file v i made) name i mounted
          (find_index-fresh (is_named name) zero_file v.files i made missing inside
            (rw (copied name short) (text_eq_refl name)))
          (ap (λ t. t.is_directory) there))

mkdir_own-MakesDirectory :
    (k : Kernel) (v : Vfs) (name : CString) → IsName name → MakesDirectory name (mkdir_own k v name)
unfolding mkdir_own ensure_directory
mkdir_own-MakesDirectory k v name short =
    let P = MakesDirectory name in
    if_elim P (not (mounted_path v name)) (λ e fine. absurd (ground arith))
      (λ inside.
        let mounted : mounted_path v name ≡ true = ground (arith, inside) in
        option_elim P (parent_allows k v name)
          (λ e.
            option_elim P (find_file_or_dir v.files name)
              (λ missing.
                option_elim (MakesSlot name) (find_file_or_dir v.files name)
                  (take_slot-MakesSlot k v name short mounted)
                  (λ i found. absurd (ground (arith, found, missing))))
              (λ i found fine. elim (Bool-cases (file_at v i).is_directory) [
                | inl directory ↦ stat_own-found v name i mounted found directory
                | inr plain ↦ absurd (ground (arith, fine, plain))
              ]))
          (λ status e fine. absurd (parent_allows-refuses k v name (e ∙ ap some fine))))

-- The name of a path, and who serves it, are as before.
abbrev SameNames : Vfs → Status × Vfs → Type 0
SameNames v r = (r.1.cwd ≡ v.cwd) × (r.1.providers ≡ v.providers)

take_slot-SameNames :
    (k : Kernel) (v : Vfs) (name : CString) (status : Option ℕ → Status)
    → let (slot, made) = take_slot k v true directory_mode name in SameNames v (status slot, made)
unfolding take_slot
take_slot-SameNames k v name status =
    let P = λ (r : Option ℕ × Vfs). SameNames v (status r.0, r.1) in
    option_elim P (find_index is_unused v.files) (λ e. (refl, refl)) (λ i e. (refl, refl))

abbrev slot_status : Option ℕ → Status
slot_status slot = elim slot [ none ↦ no_memory | some i ↦ ok ]

mkdir_own-SameNames : (k : Kernel) (v : Vfs) (name : CString) → SameNames v (mkdir_own k v name)
unfolding mkdir_own ensure_directory
mkdir_own-SameNames k v name =
    let P = SameNames v in
    if_elim P (not (mounted_path v name)) (λ e. (refl, refl))
      (λ e.
        option_elim P (parent_allows k v name)
          (λ e.
            option_elim P (find_file_or_dir v.files name)
              (λ missing.
                option_elim (λ (r : Option ℕ × Vfs). P (slot_status r.0, r.1))
                  (find_file_or_dir v.files name)
                  (λ none_yet. take_slot-SameNames k v name slot_status) (λ i found. (refl, refl)))
              (λ i found. (refl, refl)))
          (λ status e. (refl, refl)))

provider_for_path-same :
    (v w : Vfs) (path : CString)
    → w.providers ≡ v.providers
    → provider_for_path w path ≡ provider_for_path v path
unfolding provider_for_path
provider_for_path-same v w path same =
    ap (λ ps. provider_for_path (record v { providers = ps }) path) same

own_mkdir :
    (b : Backends) (k : Kernel) (v : Vfs) (path : CString)
    → provider_for_path v (normalized v path) ≡ none
    → rad_vfs_mkdir b k v path ≡ mkdir_own k v (normalized v path)
unfolding rad_vfs_mkdir
own_mkdir b k v path unserved = rw (rad_vfs_mkdir, unserved) refl

own_stat :
    (b : Backends) (v : Vfs) (path : CString)
    → provider_for_path v (normalized v path) ≡ none
    → rad_vfs_stat b v path ≡ stat_own v (normalized v path)
unfolding rad_vfs_stat
own_stat b v path unserved = rw (rad_vfs_stat, unserved) refl

-- Where rad_vfs_mkdir succeeds at a path that no provider serves, rad_vfs_stat of the same path
-- afterwards finds a directory.
pub rad_vfs_mkdir-IsDirectory :
    (b : Backends) (k : Kernel) (v : Vfs) (path : CString)
    → provider_for_path v (normalized v path) ≡ none
    → (rad_vfs_mkdir b k v path).0 ≡ ok
    → IsDirectory (rad_vfs_stat b (rad_vfs_mkdir b k v path).1 path)
rad_vfs_mkdir-IsDirectory b k v path unserved =
    let name = normalized v path in
    let short : IsName name = length-normalize_path path_size v.cwd path (omega arith) in
    let (same_cwd, same_providers) = mkdir_own-SameNames k v name in
    let r = mkdir_own k v name in
    let still : normalized r.1 path ≡ name = ap (λ t. normalize_path path_size t path) same_cwd in
    let unserved_still : provider_for_path r.1 (normalized r.1 path) ≡ none =
      ap (provider_for_path r.1) still
      ∙ provider_for_path-same v r.1 name same_providers
      ∙ unserved in
    let found = own_stat b r.1 path unserved_still ∙ ap (stat_own r.1) still in
    rw (own_mkdir b k v path unserved)
      (λ fine. subst IsDirectory (sym found) (mkdir_own-MakesDirectory k v name short fine))
