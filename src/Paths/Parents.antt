-- ===== src/Paths/Parents.antt =====
-- is_child_name and parent_path of RADKernel/core/RADKernel_runtime.cpp on canonical paths.
use radpx_os.Base.{
  ℕ, ◌-◌, ◌<◌, ◌≡◌, refl, sym, ap, ◌∙◌, false, none, some, List, [], ◌∷◌, ◌++◌, append-nil,
  append_assoc, arith, ◌==◌, length, length-append, take-all, CString, copy_string, text_eq,
}
use mathlib.Core.Path.{subst}
use radpx_os.Paths.{
  or_root, name_behind_slash, slash, has_slash, behind, is_child_name, before_last_slash,
  parent_path,
}
use radpx_os.Paths.Canonical.{NoSlash, IsName, AllNames}
use radpx_os.Paths.Rendering.{spelled, unslashed, rendered}

behind-append : (prefix rest : CString) → behind prefix (prefix ++ rest) ≡ some rest
unfolding behind
behind-append [] rest = refl
behind-append (c ∷ prefix) rest = ground (arith, behind-append prefix rest)

has_slash-name : (p : CString) → NoSlash p → has_slash p ≡ false
unfolding has_slash
has_slash-name [] h = refl
has_slash-name (c ∷ p) (h, hs) = ground (arith, has_slash-name p hs)

before_last_slash-name : (p : CString) → NoSlash p → before_last_slash p ≡ none
unfolding before_last_slash
before_last_slash-name [] h = refl
before_last_slash-name (c ∷ p) (h, hs) =
    let test : (c == slash) ≡ false = ground arith in
    rw (before_last_slash, before_last_slash-name p hs, test) refl

before_last_slash-append :
    (front p : CString) → NoSlash p → before_last_slash (front ++ slash ∷ p) ≡ some front
unfolding before_last_slash
before_last_slash-append [] p h = rw (before_last_slash, before_last_slash-name p h) refl
before_last_slash-append (c ∷ front) p h =
    rw (before_last_slash, before_last_slash-append front p h) refl

spelled-append :
    (ps : List CString) (p : CString) → spelled (ps ++ p ∷ []) ≡ spelled ps ++ slash ∷ p
unfolding spelled
spelled-append [] p = ap (λ t. slash ∷ t) (append-nil p)
spelled-append (q ∷ ps) p =
    ap (λ t. slash ∷ t)
      (ap (λ t. q ++ t) (spelled-append ps p) ∙ sym (append_assoc q (spelled ps) (slash ∷ p)))

-- The canonical path of a name in a directory other than the root, and in the root.
rendered-append :
    (q : CString) (qs : List CString) (p : CString)
    → rendered ((q ∷ qs) ++ p ∷ []) ≡ rendered (q ∷ qs) ++ slash ∷ p
unfolding rendered unslashed spelled
rendered-append q qs p = spelled-append (q ∷ qs) p

rendered_single : (p : CString) → rendered (p ∷ []) ≡ slash ∷ p
unfolding rendered unslashed spelled
rendered_single p = ap (λ t. slash ∷ t) (append-nil p)

parent_path-cut :
    (size : ℕ) (front p : CString)
    → NoSlash p
    → length (front ++ slash ∷ p) < size
    → parent_path size (front ++ slash ∷ p) ≡ copy_string size (or_root front)
unfolding parent_path
parent_path-cut size front p no_slash room =
    rw
      (
        parent_path,
        take-all (size - 1) (front ++ slash ∷ p) (omega arith),
        before_last_slash-append front p no_slash,
      )
      refl

name_behind_slash-name : (p : CString) → IsName p → name_behind_slash (slash ∷ p) ≡ some p
name_behind_slash-name p (some_bytes, d, dd, no_slash) =
    let filled : (length p == 0) ≡ false = ground (arith, some_bytes) in
    rw (filled, has_slash-name p no_slash) refl

not_root :
    (q : CString) (qs : List CString) → IsName q → text_eq (rendered (q ∷ qs)) (slash ∷ []) ≡ false
unfolding rendered unslashed text_eq
not_root [] qs (some_bytes, _, _, _) = absurd (omega arith)
not_root (c ∷ q) qs name = refl

-- A path of a name under a path in canonical form is a child of its parent, where it fits the
-- buffer: parent_path gives the path above it, and is_child_name the name in that.
pub parent_path-is_child_name :
    (size : ℕ) (ps : List CString) (p : CString)
    → AllNames ps
    → IsName p
    → length (rendered (ps ++ p ∷ [])) < size
    → (parent_path size (rendered (ps ++ p ∷ [])) ≡ rendered ps)
      × (is_child_name (rendered ps) (rendered (ps ++ p ∷ [])) ≡ some p)
unfolding is_child_name rendered
parent_path-is_child_name size [] p names name room =
    let e = rendered_single p in
    let short = subst (λ t. length t < size) e room in
    (
      ap (parent_path size) e
          ∙ parent_path-cut size [] p name.3 short
          ∙ take-all (size - 1) (slash ∷ []) (omega arith),
      ap (is_child_name (slash ∷ [])) e ∙ name_behind_slash-name p name,
    )
parent_path-is_child_name size (q ∷ qs) p names name room =
    let e = rendered-append q qs p in
    let short = subst (λ t. length t < size) e room in
    let front = rendered (q ∷ qs) in
    let split = length-append front (slash ∷ p) in
    (
      ap (parent_path size) e
          ∙ parent_path-cut size front p name.3 short
          ∙ take-all (size - 1) front (omega arith),
      ap (is_child_name front) e
          ∙ (rw (is_child_name, not_root q qs names.0, behind-append front (slash ∷ p))
              (name_behind_slash-name p name)),
    )
