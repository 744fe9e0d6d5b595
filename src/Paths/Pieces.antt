-- ===== src/Paths/Pieces.antt =====
-- The pieces of a path between its slashes, and a walk along them, which the loop of normalize_path in
-- RADKernel/core/RADKernel_runtime.cpp takes.
use radpx_os.Base.{
  ℕ, zero, suc, ◌+◌, ◌-◌, ◌≤◌, ◌<◌, ◌≡◌, refl, sym, ap, ◌∙◌, ◌⊎◌, inl, inr, true, false, List, [],
  ◌∷◌, ◌++◌, arith, ltb, ◌==◌, if◌then◌else◌, lt→ltb, if_elim, Bool-cases, length, take, CString,
  codes, text_eq,
}
use radpx_os.Paths.{slash, max_parts, skip_slashes, part_of, after_part, add_part, collect_parts}
use radpx_os.Paths.Canonical.{List-cases, add_part-length, skip_slashes-head}

abbrev cons_first : ℕ → List CString → List CString
cons_first c [] = (c ∷ []) ∷ []
cons_first c (piece ∷ pieces) = (c ∷ piece) ∷ pieces

-- The pieces of a text between its slashes, the empty ones too.
unfoldable pub pieces : CString → List CString
pieces [] = [] ∷ []
pieces (c ∷ cs) = if c == slash then [] ∷ pieces cs else cons_first c (pieces cs)

-- Without the last.
unfoldable pub up : List CString → List CString
up [] = []
up (p ∷ []) = []
up (p ∷ q ∷ ps) = p ∷ up (q ∷ ps)

abbrev pub goes : List CString → CString → List CString
goes at piece =
    if text_eq piece (codes ".")
    then at
    else if text_eq piece (codes "..")
    then up at
    else at ++ piece ∷ []

-- Each piece in its turn: an empty one and `.` stay, `..` goes up, and any other goes down.
unfoldable pub walk : List CString → List CString → List CString
unfolding text_eq up
walk at [] = at
walk at ([] ∷ ps) = walk at ps
walk at ((c ∷ cs) ∷ ps) = walk (goes at (c ∷ cs)) ps

take-up : (ps : List CString) → take (length ps - 1) ps ≡ up ps
unfolding up
take-up [] = refl
take-up (p ∷ []) = refl
take-up (p ∷ q ∷ ps) =
    let n : length (p ∷ q ∷ ps) - 1 ≡ suc (length (q ∷ ps) - 1) = omega arith in
    ap (λ k. take k (p ∷ q ∷ ps)) n ∙ ap (λ t. p ∷ t) (take-up (q ∷ ps))

add_part-goes : (at : List CString) (piece : CString) → add_part at piece ≡ goes at piece
add_part-goes at piece = rw (take-up at) refl

-- How many pieces are not empty.
unfoldable pub named : List CString → ℕ
named [] = 0
named ([] ∷ ps) = named ps
named ((c ∷ cs) ∷ ps) = suc (named ps)

skip_slashes_stays : (c : ℕ) (cs : CString) → (c == slash) ≡ false → skip_slashes (c ∷ cs) ≡ c ∷ cs
unfolding skip_slashes
skip_slashes_stays c cs e = ground arith

walk-skip :
    (at : List CString) (s : CString) → walk at (pieces (skip_slashes s)) ≡ walk at (pieces s)
unfolding walk pieces skip_slashes
walk-skip at [] = refl
walk-skip at (c ∷ cs) = elim (Bool-cases (c == slash)) [
  | inl e ↦ rw (skip_slashes, pieces, e) (walk-skip at cs)
  | inr e ↦ ap (λ t. walk at (pieces t)) (skip_slashes_stays c cs e)
]

walk_nothing : (at : List CString) (ps : List CString) → named ps ≡ 0 → at ≡ walk at ps
unfolding walk named
walk_nothing at [] none_left = refl
walk_nothing at ([] ∷ ps) none_left = walk_nothing at ps none_left
walk_nothing at ((c ∷ cs) ∷ ps) none_left = absurd (omega arith)

named-skip : (s : CString) → named (pieces (skip_slashes s)) ≡ named (pieces s)
unfolding named pieces skip_slashes
named-skip [] = refl
named-skip (c ∷ cs) = elim (Bool-cases (c == slash)) [
  | inl e ↦ rw (skip_slashes, pieces, e) (named-skip cs)
  | inr e ↦ ap (λ t. named (pieces t)) (skip_slashes_stays c cs e)
]

-- The first piece, and how the others go on: with the text behind the slash, or with nothing.
pieces-first :
    (s : CString)
    → (pieces s ≡ part_of s ∷ pieces (after_part s))
      ⊎ ((pieces s ≡ part_of s ∷ []) × (after_part s ≡ []))
unfolding pieces part_of after_part
pieces-first [] = inr (refl, refl)
pieces-first (c ∷ cs) = elim (Bool-cases (c == slash)) [
  | inl e ↦ inl (rw (pieces, part_of, after_part, e) refl)
  | inr e ↦ elim (pieces-first cs) [
    | inl f ↦ inl (rw (pieces, part_of, after_part, e, f) refl)
    | inr (f, g) ↦ inr (rw (pieces, part_of, e, f) refl, rw (after_part, e) g)
  ]
]

walk-first :
    (at : List CString) (c : ℕ) (cs : CString)
    → (c == slash) ≡ false
    → walk at (pieces (c ∷ cs)) ≡ walk (goes at (part_of (c ∷ cs))) (pieces (after_part (c ∷ cs)))
unfolding walk pieces part_of after_part
walk-first at c cs e = elim (pieces-first cs) [
  | inl f ↦ rw (pieces, part_of, after_part, e, f) refl
  | inr (f, g) ↦ rw (pieces, part_of, after_part, e, f, g) refl
]

named-first :
    (c : ℕ) (cs : CString)
    → (c == slash) ≡ false
    → named (pieces (c ∷ cs)) ≡ suc (named (pieces (after_part (c ∷ cs))))
unfolding named pieces part_of after_part
named-first c cs e = elim (pieces-first cs) [
  | inl f ↦ rw (pieces, after_part, e, f) refl
  | inr (f, g) ↦ rw (pieces, after_part, e, f, g) refl
]

named-cons_first : (c : ℕ) (ps : List CString) → named (cons_first c ps) ≤ suc (named ps)
unfolding named
named-cons_first c [] = omega arith
named-cons_first c ([] ∷ ps) = omega arith
named-cons_first c ((d ∷ p) ∷ ps) = omega arith

pub named-le-length : (s : CString) → named (pieces s) ≤ length s
unfolding named pieces
named-le-length [] = omega arith
named-le-length (c ∷ cs) = elim (Bool-cases (c == slash)) [
  | inl e ↦ rw (pieces, e) (omega (arith, named-le-length cs))
  | inr e ↦ rw (pieces, e) (omega (arith, named-le-length cs, named-cons_first c (pieces cs)))
]

named_nothing : named (pieces []) ≡ 0
unfolding named pieces
named_nothing = refl

pub collect_parts-walk :
    (rounds : ℕ) (text : CString) (parts : List CString)
    → named (pieces text) ≤ rounds
    → length parts + named (pieces text) ≤ max_parts
    → collect_parts rounds text parts ≡ walk parts (pieces text)
unfolding collect_parts
collect_parts-walk zero text parts enough few = walk_nothing parts (pieces text) (omega arith)
collect_parts-walk (suc rounds) text parts enough few = elim (List-cases (skip_slashes text)) [
  | inl e ↦
      let none_left : named (pieces text) ≡ 0 =
        sym (named-skip text) ∙ ap (λ t. named (pieces t)) e ∙ named_nothing in
      rw (collect_parts, e) (walk_nothing parts (pieces text) none_left)
  | inr (c, cs, e) ↦
      let head = skip_slashes-head text c cs e in
      let one_less : named (pieces text) ≡ suc (named (pieces (after_part (c ∷ cs)))) =
        sym (named-skip text) ∙ ap (λ t. named (pieces t)) e ∙ named-first c cs head in
      let room : ltb (length parts) max_parts ≡ true =
        lt→ltb (length parts) max_parts (omega arith) in
      let next = add_part parts (part_of (c ∷ cs)) in
      rw (collect_parts, e, room)
        (collect_parts-walk rounds (after_part (c ∷ cs)) next (omega arith)
            (omega (arith, add_part-length parts (part_of (c ∷ cs))))
          ∙ ap (λ at. walk at (pieces (after_part (c ∷ cs))))
              (add_part-goes parts (part_of (c ∷ cs)))
          ∙ sym (walk-first parts c cs head)
          ∙ ap (λ t. walk parts (pieces t)) (sym e)
          ∙ walk-skip parts text)
]

cons_first-some : (c : ℕ) (ps : List CString) → 0 < length (cons_first c ps)
cons_first-some c [] = omega arith
cons_first-some c (p ∷ ps) = omega arith

some_piece : (s : CString) → 0 < length (pieces s)
unfolding pieces
some_piece [] = omega arith
some_piece (c ∷ cs) =
    if_elim (λ (ps : List CString). 0 < length ps) (c == slash) (λ e. omega arith)
      (λ e. cons_first-some c (pieces cs))

cons_first-append :
    (c : ℕ) (ps qs : List CString) → 0 < length ps → cons_first c (ps ++ qs) ≡ cons_first c ps ++ qs
cons_first-append c [] qs h = absurd (omega arith)
cons_first-append c (p ∷ ps) qs h = refl

pub pieces-append : (a b : CString) → pieces (a ++ slash ∷ b) ≡ pieces a ++ pieces b
unfolding pieces
pieces-append [] b = refl
pieces-append (c ∷ a) b = elim (Bool-cases (c == slash)) [
  | inl e ↦ rw (pieces, e) (ap (λ ps. [] ∷ ps) (pieces-append a b))
  | inr e ↦
      rw (pieces, e, pieces-append a b) (cons_first-append c (pieces a) (pieces b) (some_piece a))
]

pub walk-append : (at ps qs : List CString) → walk at (ps ++ qs) ≡ walk (walk at ps) qs
unfolding walk
walk-append at [] qs = refl
walk-append at ([] ∷ ps) qs = walk-append at ps qs
walk-append at ((c ∷ cs) ∷ ps) qs = walk-append (goes at (c ∷ cs)) ps qs

pub named-append : (ps qs : List CString) → named (ps ++ qs) ≡ named ps + named qs
unfolding named
named-append [] qs = omega arith
named-append ([] ∷ ps) qs = named-append ps qs
named-append ((c ∷ cs) ∷ ps) qs = omega (arith, named-append ps qs)
