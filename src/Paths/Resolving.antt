-- ===== src/Paths/Resolving.antt =====
-- normalize_path of RADKernel/core/RADKernel_runtime.cpp against the pieces between the slashes.
use radpx_os.Base.{
  ℕ, suc, ◌+◌, ◌-◌, ◌≤◌, ◌<◌, ◌≡◌, refl, sym, ap, ◌∙◌, ◌⊎◌, inl, inr, true, false, not, ◌&&◌, List,
  [], ◌∷◌, ◌++◌, append_assoc, arith, ltb, ◌==◌, if◌then◌else◌, Bool-cases, length, length-append,
  get_or, take, take-all, CString,
}
use mathlib.Core.Path.{subst}
use radpx_os.Paths.{
  starts_with_slash, joined_size, with_slash, append_bounded, base_of, slash, max_parts,
  joined_path, parts_of,
}
use radpx_os.Paths.Pieces.{
  pieces, walk, named, named-le-length, collect_parts-walk, pieces-append, walk-append,
  named-append,
}

-- The pieces that are walked along: those of the path, behind those of the current directory unless
-- the path starts with a slash.
abbrev pub route : CString → CString → List CString
route cwd path = if starts_with_slash path then pieces path else pieces cwd ++ pieces path

-- Two lists of pieces that lead to the same place, with as many pieces that are not empty.
abbrev AgreesWith : List CString → List CString → Type 0
AgreesWith ps qs = (walk [] ps ≡ walk [] qs) × (named ps ≡ named qs)

ends_in_slash :
    (a : CString)
    → (get_or a (length a - 1) 0 == slash) ≡ true
    → (b : CString) × (a ≡ b ++ slash ∷ [])
ends_in_slash [] e = absurd (cc)
ends_in_slash (c ∷ []) e = let q : c ≡ slash = ground arith in ([], ap (λ d. d ∷ []) q)
ends_in_slash (c ∷ d ∷ ds) e =
    let n : length (c ∷ d ∷ ds) - 1 ≡ suc (length (d ∷ ds) - 1) = omega arith in
    let inner : (get_or (d ∷ ds) (length (d ∷ ds) - 1) 0 == slash) ≡ true =
      sym (ap (λ k. get_or (c ∷ d ∷ ds) k 0 == slash) n) ∙ e in
    let (b, f) = ends_in_slash (d ∷ ds) inner in (c ∷ b, ap (λ t. c ∷ t) f)

pieces-slashed :
    (a path : CString)
    → AgreesWith (pieces ((a ++ slash ∷ []) ++ path)) (pieces (a ++ slash ∷ []) ++ pieces path)
unfolding walk named pieces
pieces-slashed a path =
    let text : (a ++ slash ∷ []) ++ path ≡ a ++ slash ∷ path = append_assoc a (slash ∷ []) path in
    let joined : pieces ((a ++ slash ∷ []) ++ path) ≡ pieces a ++ pieces path =
      ap pieces text ∙ pieces-append a path in
    let apart : pieces (a ++ slash ∷ []) ++ pieces path ≡ pieces a ++ ([] ∷ pieces path) =
      ap (λ ps. ps ++ pieces path) (pieces-append a [])
      ∙ append_assoc (pieces a) ([] ∷ []) (pieces path) in
    rw (joined, apart)
      (
        walk-append [] (pieces a) (pieces path)
            ∙ sym (walk-append [] (pieces a) ([] ∷ pieces path)),
        named-append (pieces a) (pieces path) ∙ sym (named-append (pieces a) ([] ∷ pieces path)),
      )

-- The code puts a slash behind the current directory unless it ends in one.
with_slash-cases :
    (dir : CString)
    → length dir + 2 < joined_size
    → (with_slash (slash ∷ dir) ≡ (slash ∷ dir) ++ slash ∷ [])
      ⊎ ((with_slash (slash ∷ dir) ≡ slash ∷ dir)
          × ((b : CString) × (slash ∷ dir ≡ b ++ slash ∷ [])))
with_slash-cases dir fits =
    let cwd = slash ∷ dir in
    elim (Bool-cases (get_or cwd (length cwd - 1) 0 == slash)) [
      | inl e ↦
          let off : (ltb 1 (length cwd)
                && not (get_or cwd (length cwd - 1) 0 == slash)
                && ltb (length cwd + 1) joined_size)
              ≡ false =
            ground (arith, e) in
          inr (rw off refl, ends_in_slash cwd e)
      | inr e ↦
          let more : 1 < length cwd = longer dir e in
          let on : (ltb 1 (length cwd)
                && not (get_or cwd (length cwd - 1) 0 == slash)
                && ltb (length cwd + 1) joined_size)
              ≡ true =
            ground (arith, e, more, fits) in
          inl (rw on refl)
    ]
  where
    longer :
        (dir : CString)
        → (get_or (slash ∷ dir) (length (slash ∷ dir) - 1) 0 == slash) ≡ false
        → 1 < length (slash ∷ dir)
    longer [] e = absurd (ground (arith, e))
    longer (c ∷ cs) e = omega arith

appended :
    (out path : CString)
    → length out + length path < joined_size
    → append_bounded out path ≡ out ++ path
appended out path fits =
    ap (λ t. out ++ t) (take-all (joined_size - 1 - length out) path (omega arith))

joined_below :
    (dir path : CString)
    → length dir + length path + 2 < joined_size
    → AgreesWith
        (pieces (append_bounded (with_slash (slash ∷ dir)) path))
        (pieces (slash ∷ dir) ++ pieces path)
joined_below dir path fits =
    let cwd = slash ∷ dir in
    let P = λ (t : CString). AgreesWith (pieces t) (pieces cwd ++ pieces path) in
    elim (with_slash-cases dir (omega arith)) [
      | inl e ↦
          let room : length (cwd ++ slash ∷ []) + length path < joined_size =
            omega (arith, length-append cwd (slash ∷ [])) in
          let text : append_bounded (with_slash cwd) path ≡ cwd ++ slash ∷ path =
            ap (λ t. append_bounded t path) e
            ∙ appended (cwd ++ slash ∷ []) path room
            ∙ append_assoc cwd (slash ∷ []) path in
          subst P (sym text) (rw (pieces-append cwd path) (refl, refl))
      | inr (e, (b, f)) ↦
          let text : append_bounded (with_slash cwd) path ≡ cwd ++ path =
            ap (λ t. append_bounded t path) e ∙ appended cwd path (omega arith) in
          subst P (sym text) (
            subst (λ t. AgreesWith (pieces (t ++ path)) (pieces t ++ pieces path)) (sym f)
              (pieces-slashed b path))
    ]

joins :
    (cwd path : CString)
    → starts_with_slash path ≡ false
    → take (joined_size - 1) (base_of cwd) ≡ base_of cwd
    → joined_path cwd path ≡ append_bounded (with_slash (base_of cwd)) path
unfolding joined_path
joins cwd path e base = rw (joined_path, e) (ap (λ t. append_bounded (with_slash t) path) base)

-- What the code takes apart leads where the route does.
joined_path-route :
    (dir path : CString)
    → length dir + length path + 2 < joined_size
    → AgreesWith (pieces (joined_path (slash ∷ dir) path)) (route (slash ∷ dir) path)
unfolding joined_path
joined_path-route dir path fits = elim (Bool-cases (starts_with_slash path)) [
  | inl e ↦
      let whole = take-all (joined_size - 1) path (omega arith) in
      rw (joined_path, e, whole) (refl, refl)
  | inr e ↦
      let base : take (joined_size - 1) (slash ∷ dir) ≡ slash ∷ dir =
        take-all (joined_size - 1) (slash ∷ dir) (omega arith) in
      rw (joins (slash ∷ dir) path e base, e) (joined_below dir path fits)
]

-- From a current directory that starts with a slash, a path that is not empty, and that fits the
-- 160 bytes with the directory, goes where a walk along its pieces between the slashes goes: from
-- the root if it starts with a slash and otherwise on from the directory's pieces. The walk passes
-- over empty pieces and ".", goes up for ".." and down for any other. At most 16 pieces may not be
-- empty.
pub parts_of-walk :
    (dir : CString) (c : ℕ) (cs : CString)
    → length dir + length (c ∷ cs) + 2 < joined_size
    → named (route (slash ∷ dir) (c ∷ cs)) ≤ max_parts
    → parts_of (slash ∷ dir) (c ∷ cs) ≡ walk [] (route (slash ∷ dir) (c ∷ cs))
unfolding parts_of
parts_of-walk dir c cs fits few =
    let joined = joined_path (slash ∷ dir) (c ∷ cs) in
    let (leads, as_many) = joined_path-route dir (c ∷ cs) fits in
    collect_parts-walk (length joined) joined [] (named-le-length joined) (omega arith) ∙ leads
