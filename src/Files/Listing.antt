-- ===== src/Files/Listing.antt =====
-- Directories that are read, in RADKernel/core/RADKernel_runtime.cpp: rad_vfs_opendir and rad_vfs_readdir.
use radpx_os.Base.{
  ℕ, zero, suc, ◌+◌, ◌<◌, ◌≡◌, refl, sym, ap, ◌∙◌, ◌⊎◌, inl, inr, Bool, not, none, some, List, [],
  ◌∷◌, map, arith, if◌then◌else◌, if_elim, get_elem?, take, drop, take-all, length-take, length-map,
  CString, copy_string, Status, ok, not_found, no_memory, Result, value, fail, result_elim,
}
use radpx_os.Kernel.{Kernel}
use radpx_os.Files.{Vfs, FileStat, Backends, path_size, normalized}
use radpx_os.Files.Names.{rad_vfs_stat, rad_vfs_list}

-- RAD_KERNEL_MAX_DIR_ENTRIES
abbrev pub max_dir_entries : ℕ
max_dir_entries = 64

abbrev pub entry_name_size : ℕ
entry_name_size = 96

pub record DirEntry : Type 0 where
  pub name : CString
  pub stat : FileStat

pub record Dir : Type 0 where
  pub path : CString
  pub cursor : ℕ
  pub entries : List DirEntry

abbrev pub entry_of : CString × FileStat → DirEntry
entry_of (name, stat) = record { name = copy_string entry_name_size name; stat = stat }

-- What the callback keeps, which stops where there is no more room.
abbrev pub snapshot : List (CString × FileStat) → List DirEntry
snapshot listed = map entry_of (take max_dir_entries listed)

unfoldable pub rad_vfs_opendir : Backends → Kernel → Bool → Vfs → CString → Result Dir
unfolding rad_vfs_stat rad_vfs_list
rad_vfs_opendir b k has_memory v path =
    let name = normalized v path in
    let opened : Result Dir =
      let (status, listed) = rad_vfs_list b k v name in
      elim status [
        | ok ↦
            value
              (record { path = copy_string path_size name; cursor = 0; entries = snapshot listed })
        | refusal ↦ fail refusal
      ] in
    elim (rad_vfs_stat b v name) [
      | fail status ↦ fail not_found
      | value stat ↦
          if not stat.is_directory
          then fail not_found
          else if not has_memory
          then fail no_memory
          else opened
    ]

unfoldable pub rad_vfs_readdir : Dir → Result DirEntry × Dir
rad_vfs_readdir dir = elim (get_elem? dir.entries dir.cursor) [
  | none ↦ (fail not_found, dir)
  | some entry ↦ (value entry, record dir { cursor = dir.cursor + 1 })
]

-- Calls of `rad_vfs_readdir` up to the first that fails; `n` is how many at most.
unfoldable pub read_dir : ℕ → Dir → List DirEntry
unfolding rad_vfs_readdir
read_dir zero dir = []
read_dir (suc n) dir =
    let (entry, next) = rad_vfs_readdir dir in
    let rest = read_dir n next in elim entry [ fail status ↦ [] | value e ↦ e ∷ rest ]

drop-at {ℓ} :
    {A : Type ℓ} (xs : List A) (i : ℕ)
    → ((get_elem? xs i ≡ none) × (drop i xs ≡ []))
      ⊎ ((x : A) × (get_elem? xs i ≡ some x) × (drop i xs ≡ x ∷ drop (i + 1) xs))
drop-at [] zero = inl (refl, refl)
drop-at [] (suc i) = inl (refl, refl)
drop-at (x ∷ xs) zero = inr (x, refl, refl)
drop-at (x ∷ xs) (suc i) =
    let e : suc i + 1 ≡ suc (i + 1) = omega arith in
    elim (drop-at xs i) [
      | inl (missing, none_left) ↦ inl (missing, none_left)
      | inr (y, there, left) ↦ inr (y, there, rw e left)
    ]

rad_vfs_readdir-some :
    (dir : Dir) (entry : DirEntry)
    → get_elem? dir.entries dir.cursor ≡ some entry
    → rad_vfs_readdir dir ≡ (value entry, record dir { cursor = dir.cursor + 1 })
unfolding rad_vfs_readdir
rad_vfs_readdir-some dir entry there = rw (rad_vfs_readdir, there) refl

read_dir-drop : (n : ℕ) (dir : Dir) → read_dir n dir ≡ take n (drop dir.cursor dir.entries)
unfolding read_dir rad_vfs_readdir
read_dir-drop zero dir = refl
read_dir-drop (suc n) dir = elim (drop-at dir.entries dir.cursor) [
  | inl (missing, none_left) ↦ rw (read_dir, rad_vfs_readdir, missing, none_left) refl
  | inr (x, there, left) ↦
      rw (read_dir, rad_vfs_readdir-some dir x there, left)
        (ap (λ t. x ∷ t)
          (ap (λ r. read_dir n r.1) (rad_vfs_readdir-some dir x there)
            ∙ read_dir-drop n (record dir { cursor = dir.cursor + 1 })))
]

abbrev OpensListed : List (CString × FileStat) → Result Dir → Type 0
OpensListed listed r =
    (dir : Dir) → r ≡ value dir → (dir.cursor ≡ 0) × (dir.entries ≡ snapshot listed)

abbrev opened_of : CString → Status → List (CString × FileStat) → Result Dir
opened_of name status listed = elim status [
  | ok ↦ value (record { path = copy_string path_size name; cursor = 0; entries = snapshot listed })
  | refusal ↦ fail refusal
]

opened_of-OpensListed :
    (name : CString) (status : Status) (listed : List (CString × FileStat))
    → OpensListed listed (opened_of name status listed)
opened_of-OpensListed name ok listed dir e =
    let same : record { path = copy_string path_size name; cursor = 0; entries = snapshot listed }
        ≡ dir =
      cc in
    (ap (λ d. d.cursor) (sym same), ap (λ d. d.entries) (sym same))
opened_of-OpensListed name refusal listed dir e = absurd (ground (arith, e))

-- A directory that is opened and read to its end gives what rad_vfs_list gives of it: the first 64
-- entries, with their names cut to fit.
pub rad_vfs_opendir-read_dir :
    (b : Backends) (k : Kernel) (has_memory : Bool) (v : Vfs) (path : CString) (dir : Dir) (n : ℕ)
    → rad_vfs_opendir b k has_memory v path ≡ value dir
    → max_dir_entries < n
    → read_dir n dir ≡ snapshot (rad_vfs_list b k v (normalized v path)).1
unfolding rad_vfs_opendir
rad_vfs_opendir-read_dir b k has_memory v path dir n opened enough =
    let name = normalized v path in
    let (status, listed) = rad_vfs_list b k v name in
    let P = OpensListed listed in
    let refused : (s : Status) → P (fail s) = λ s d e. absurd (ground (arith, e)) in
    let opens : P (rad_vfs_opendir b k has_memory v path) =
      result_elim P (rad_vfs_stat b v name) (λ s. refused not_found)
        (λ stat.
          if_elim P (not stat.is_directory) (λ e. refused not_found)
            (λ e.
              if_elim P (not has_memory) (λ e. refused no_memory)
                (λ e. opened_of-OpensListed name status listed))) in
    let (start, entries) = opens dir opened in
    let l = length-map (take max_dir_entries listed) entry_of in
    let t = length-take max_dir_entries listed in
    read_dir-drop n dir
    ∙ ap (λ c. take n (drop c dir.entries)) start
    ∙ ap (take n) entries
    ∙ take-all n (snapshot listed) (omega (arith, l, t, enough))
