-- ===== src/Files/Under.antt =====
-- Mount points and the paths below them, in RADKernel/core/RADKernel_runtime.cpp: covers and the
-- relative path of provider_for_path, against texts that are put together.
use radpx_os.Base.{
  ◌≡◌, refl, sym, ap, ◌∙◌, ◌≢◌, ◌⊎◌, inl, inr, true, false, some, [], ◌∷◌, ◌++◌, append-nil, arith,
  ◌==◌, Bool-cases, Option-cases, length, drop, CString, text_eq_refl, text_eq_sound, text_eq,
}
use mathlib.Core.Path.{ap₂}
use radpx_os.Paths.{slash, starts_with_slash, behind}
use radpx_os.Files.{covers, relative_to, ends_name, behind_first_slash}

-- The path is the mount point, or is below it: everything is below the root.
abbrev pub IsUnder : CString → CString → Type 0
IsUnder mount path =
    (mount ≡ slash ∷ []) ⊎ ((path ≡ mount) ⊎ ((rest : CString) × (path ≡ mount ++ slash ∷ rest)))

-- What is behind the mount point: for the root, the path without its first slash, if it has one;
-- for another, nothing if the path is the mount point, and otherwise what follows the slash.
abbrev pub IsBehind : CString → CString → CString → Type 0
IsBehind mount path rest =
    ((mount ≡ slash ∷ [])
      × ((path ≡ slash ∷ rest) ⊎ ((starts_with_slash path ≡ false) × (rest ≡ path))))
    ⊎ ((mount ≢ slash ∷ []) × (((path ≡ mount) × (rest ≡ [])) ⊎ (path ≡ mount ++ slash ∷ rest)))

behind-append : (mount rest : CString) → behind mount (mount ++ rest) ≡ some rest
unfolding behind
behind-append [] rest = refl
behind-append (c ∷ mount) rest = ground (arith, behind-append mount rest)

append-behind : (mount path rest : CString) → behind mount path ≡ some rest → path ≡ mount ++ rest
unfolding behind
append-behind [] path rest e = cc
append-behind (c ∷ mount) [] rest e = absurd (cc)
append-behind (c ∷ mount) (d ∷ path) rest e = elim (Bool-cases (c == d)) [
  | inl same ↦
      let equal : d ≡ c = ground arith in
      let inner : behind mount path ≡ some rest = ground (arith, e, same) in
      ap₂ ◌∷◌ equal (append-behind mount path rest inner)
  | inr other ↦ absurd (ground (arith, e, other))
]

drop-append : (mount rest : CString) → drop (length mount) (mount ++ rest) ≡ rest
drop-append [] rest = refl
drop-append (c ∷ mount) rest = drop-append mount rest

ends_name-cases :
    (rest : CString)
    → ends_name rest ≡ true
    → (rest ≡ []) ⊎ ((more : CString) × (rest ≡ slash ∷ more))
ends_name-cases [] e = inl refl
ends_name-cases (c ∷ cs) e = let q : c ≡ slash = ground arith in inr (cs, ap (λ d. d ∷ cs) q)

pub covers-IsUnder : (mount path : CString) → covers mount path ≡ true → IsUnder mount path
unfolding covers
covers-IsUnder mount path e = elim (Bool-cases (text_eq mount (slash ∷ []))) [
  | inl top ↦ inl (text_eq_sound mount (slash ∷ []) top)
  | inr low ↦ elim (Option-cases (behind mount path)) [
    | inl f ↦ absurd (ground (arith, e, low, f))
    | inr (rest, f) ↦
        let whole = append-behind mount path rest f in
        let name : ends_name rest ≡ true = ground (arith, e, low, f) in
        elim (ends_name-cases rest name) [
          | inl g ↦ inr (inl (whole ∙ ap (λ t. mount ++ t) g ∙ append-nil mount))
          | inr (more, g) ↦ inr (inr (more, whole ∙ ap (λ t. mount ++ t) g))
        ]
  ]
]

covers_of_behind :
    (mount path rest : CString)
    → path ≡ mount ++ rest
    → ends_name rest ≡ true
    → covers mount path ≡ true
unfolding covers
covers_of_behind mount path rest e name =
    let f : behind mount path ≡ some rest = ap (behind mount) e ∙ behind-append mount rest in
    rw (covers, f, name) (ground arith)

pub IsUnder-covers : (mount path : CString) → IsUnder mount path → covers mount path ≡ true
unfolding covers
IsUnder-covers mount path (inl top) =
    let e : text_eq mount (slash ∷ []) ≡ true =
      ap (λ t. text_eq t (slash ∷ [])) top ∙ text_eq_refl (slash ∷ []) in
    rw (covers, e) refl
IsUnder-covers mount path (inr (inl same)) =
    covers_of_behind mount path [] (same ∙ sym (append-nil mount)) refl
IsUnder-covers mount path (inr (inr (rest, e))) = covers_of_behind mount path (slash ∷ rest) e refl

not-top : (mount : CString) → text_eq mount (slash ∷ []) ≡ false → mount ≢ slash ∷ []
not-top mount low e =
    absurd (ground (arith, low, ap (λ t. text_eq t (slash ∷ [])) e ∙ text_eq_refl (slash ∷ [])))

behind_first_slash-cases :
    (path : CString)
    → (path ≡ slash ∷ behind_first_slash path)
      ⊎ ((starts_with_slash path ≡ false) × (behind_first_slash path ≡ path))
behind_first_slash-cases [] = inr (refl, refl)
behind_first_slash-cases (c ∷ cs) = elim (Bool-cases (c == slash)) [
  | inl e ↦ let q : c ≡ slash = ground arith in inl (rw e (ap (λ d. d ∷ cs) q))
  | inr e ↦ inr (e, rw e refl)
]

pub relative_to-IsBehind :
    (mount path : CString) → IsUnder mount path → IsBehind mount path (relative_to mount path)
relative_to-IsBehind mount path under = elim (Bool-cases (text_eq mount (slash ∷ []))) [
  | inl top ↦ rw top (inl (text_eq_sound mount (slash ∷ []) top, behind_first_slash-cases path))
  | inr low ↦ elim under [
    | inl top ↦ absurd (not-top mount low top)
    | inr (inl same) ↦
        let gone : drop (length mount) path ≡ [] =
          ap (drop (length mount)) (same ∙ sym (append-nil mount)) ∙ drop-append mount [] in
        rw (low, gone) (inr (not-top mount low, inl (same, refl)))
    | inr (inr (rest, e)) ↦
        let left : drop (length mount) path ≡ slash ∷ rest =
          ap (drop (length mount)) e ∙ drop-append mount (slash ∷ rest) in
        rw (low, left) (inr (not-top mount low, inr e))
  ]
]
