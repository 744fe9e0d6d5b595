-- ===== src/Paths/Rendering.antt =====
-- The text that normalize_path of RADKernel/core/RADKernel_runtime.cpp writes, and reads again.
use radpx_os.Base.{
  ℕ, zero, suc, ◌+◌, ◌-◌, ◌≤◌, ◌<◌, ◌≡◌, refl, sym, ap, ◌∙◌, true, List, [], ◌∷◌, ◌++◌, append-nil,
  append_assoc, arith, ltb, lt→ltb, length, length-append, take, take-all, CString,
}
use mathlib.Core.Path.{subst}
use radpx_os.Paths.{
  slash, joined_size, max_parts, skip_slashes, part_of, after_part, add_part, collect_parts,
  joined_path, or_cwd, parts_of, write_parts, normalize_path,
}
use radpx_os.Paths.Canonical.{NoSlash, IsName, AllNames, parts_of-AllNames}

-- Names with a slash before each.
unfoldable pub spelled : List CString → CString
spelled [] = []
spelled (p ∷ ps) = slash ∷ (p ++ spelled ps)

unfoldable pub unslashed : List CString → CString
unfolding spelled
unslashed [] = []
unslashed (p ∷ ps) = p ++ spelled ps

-- The canonical text of a path from the root.
unfoldable pub rendered : List CString → CString
unfolding unslashed
rendered ps = slash ∷ unslashed ps

append_room :
    (size : ℕ) (out s : CString)
    → length out + length s < size
    → out ++ take (size - 1 - length out) s ≡ out ++ s
append_room size out s room = ap (λ t. out ++ t) (take-all (size - 1 - length out) s (omega arith))

write_more :
    (size i : ℕ) (out : CString) (ps : List CString)
    → 0 < i
    → length out + length (spelled ps) < size
    → write_parts size i out ps ≡ out ++ spelled ps
unfolding write_parts spelled
write_more size i out [] later room = sym (append-nil out)
write_more size i out (p ∷ ps) later room =
    let size_of = length-append p (spelled ps) in
    let slashed = out ++ slash ∷ [] in
    let length_slashed = length-append out (slash ∷ []) in
    let length_named = length-append slashed p in
    let i1 : ltb 0 i ≡ true = ground arith in
    let i2 : ltb (length out + 1) size ≡ true = ground (arith, size_of, room) in
    rw (i1, i2, append_room size slashed p (omega (arith, size_of, length_slashed)))
      (write_more size (i + 1) (slashed ++ p) ps (omega arith)
          (omega (arith, size_of, length_slashed, length_named))
        ∙ append_assoc slashed p (spelled ps)
        ∙ append_assoc out (slash ∷ []) (p ++ spelled ps))

write_all :
    (size : ℕ) (ps : List CString)
    → AllNames ps
    → length (rendered ps) < size
    → write_parts size 0 (slash ∷ []) ps ≡ rendered ps
unfolding write_parts rendered
write_all size [] names room = refl
write_all size (p ∷ ps) ((some_bytes, _, _, _), _) room =
    let size_of = length-append p (spelled ps) in
    let two : ltb 2 size ≡ true = lt→ltb 2 size (omega (arith, size_of, room, some_bytes)) in
    rw (two, append_room size (slash ∷ []) p (omega (arith, size_of, room)))
      (write_more size 1 (slash ∷ p) ps (omega arith) (omega (arith, size_of, room)))

part_of-append : (p s : CString) → NoSlash p → (part_of s ≡ []) → part_of (p ++ s) ≡ p
unfolding part_of
part_of-append [] s h e = e
part_of-append (c ∷ p) s (h, hs) e = ground (arith, part_of-append p s hs e)

part_of-spelled : (ps : List CString) → part_of (spelled ps) ≡ []
unfolding part_of spelled
part_of-spelled [] = refl
part_of-spelled (p ∷ ps) = refl

after_part-spelled : (ps : List CString) → after_part (spelled ps) ≡ unslashed ps
unfolding after_part spelled unslashed
after_part-spelled [] = refl
after_part-spelled (p ∷ ps) = refl

after_part-append : (p s : CString) → NoSlash p → after_part (p ++ s) ≡ after_part s
unfolding after_part
after_part-append [] s h = refl
after_part-append (c ∷ p) s (h, hs) = ground (arith, after_part-append p s hs)

skip_slashes-unslashed :
    (ps : List CString) → AllNames ps → skip_slashes (unslashed ps) ≡ unslashed ps
unfolding skip_slashes unslashed
skip_slashes-unslashed [] h = refl
skip_slashes-unslashed ([] ∷ ps) ((h, _, _, _), hs) = absurd (omega arith)
skip_slashes-unslashed ((c ∷ p) ∷ ps) ((some_bytes, d, dd, (h, no_slash)), hs) = ground arith

add_name : (parts : List CString) (p : CString) → IsName p → add_part parts p ≡ parts ++ p ∷ []
add_name parts p (some_bytes, d, dd, no_slash) = rw (d, dd) refl

-- Names that are spelled are collected again.
collect-spelled :
    (rounds : ℕ) (text : CString) (parts ps : List CString)
    → skip_slashes text ≡ unslashed ps
    → AllNames ps
    → length parts + length ps ≤ max_parts
    → length ps ≤ rounds
    → collect_parts rounds text parts ≡ parts ++ ps
unfolding collect_parts unslashed
collect-spelled zero text parts [] reads names few enough = sym (append-nil parts)
collect-spelled zero text parts (p ∷ ps) reads names few enough = absurd (omega arith)
collect-spelled (suc rounds) text parts [] reads names few enough =
    rw (collect_parts, reads, unslashed) (sym (append-nil parts))
collect-spelled (suc rounds) text parts ([] ∷ ps) reads ((h, _, _, _), hs) few enough =
    absurd (omega arith)
collect-spelled (suc rounds) text parts ((c ∷ p) ∷ ps) reads (name, names) few enough =
    let no_slash = name.3 in
    let room : ltb (length parts) max_parts ≡ true = ground (arith, few) in
    let q = c ∷ p in
    let here : part_of (q ++ spelled ps) ≡ q =
      part_of-append q (spelled ps) no_slash (part_of-spelled ps) in
    let there : after_part (q ++ spelled ps) ≡ unslashed ps =
      after_part-append q (spelled ps) no_slash ∙ after_part-spelled ps in
    rw (collect_parts, reads, room, here, there, add_name parts q name)
      (collect-spelled rounds (unslashed ps) (parts ++ q ∷ []) ps (skip_slashes-unslashed ps names)
          names (omega (arith, length-append parts (q ∷ []))) (omega arith)
        ∙ append_assoc parts (q ∷ []) ps)

length-le-spelled : (ps : List CString) → AllNames ps → length ps ≤ length (spelled ps)
unfolding spelled
length-le-spelled [] names = omega arith
length-le-spelled (p ∷ ps) (name, names) =
    omega (arith, length-le-spelled ps names, length-append p (spelled ps))

length-le-rendered : (ps : List CString) → AllNames ps → length ps ≤ length (rendered ps)
unfolding rendered
length-le-rendered [] names = omega arith
length-le-rendered (p ∷ ps) (name, names) =
    omega (arith, length-le-spelled ps names, length-append p (spelled ps))

parts_of-rendered :
    (cwd : CString) (ps : List CString)
    → AllNames ps
    → length ps ≤ max_parts
    → length (rendered ps) < joined_size
    → parts_of cwd (rendered ps) ≡ ps
unfolding parts_of joined_path
parts_of-rendered cwd ps names few short =
    let whole : take (joined_size - 1) (rendered ps) ≡ rendered ps =
      take-all (joined_size - 1) (rendered ps) (omega arith) in
    let opened : joined_path cwd (or_cwd cwd (rendered ps)) ≡ rendered ps =
      unfold rendered in whole in
    rw opened (
      collect-spelled (length (rendered ps)) (rendered ps) [] ps
        (unfold rendered skip_slashes in skip_slashes-unslashed ps names) names (omega arith)
        (length-le-rendered ps names))

-- A path in canonical form: a slash and names from the root, at most 16, with slashes between.
abbrev pub IsCanonical : CString → Type 0
IsCanonical s = (ps : List CString) × AllNames ps × (length ps ≤ max_parts) × (s ≡ rendered ps)

-- What normalize_path writes, where the result fits its buffer, is in canonical form: a slash and
-- at most 16 names with a slash between them, none empty, "." or "..".
pub normalize_path-IsCanonical :
    (size : ℕ) (cwd path : CString)
    → length (rendered (parts_of cwd path)) < size
    → IsCanonical (normalize_path size cwd path)
unfolding normalize_path
normalize_path-IsCanonical size cwd path room =
    let (names, few) = parts_of-AllNames cwd path in
    (parts_of cwd path, names, few, write_all size (parts_of cwd path) names room)

pub normalize-canonical :
    (size : ℕ) (cwd s : CString)
    → IsCanonical s
    → length s < size
    → size ≤ joined_size
    → normalize_path size cwd s ≡ s
unfolding normalize_path
normalize-canonical size cwd s (ps, names, few, e) room fits =
    let short = subst (λ t. length t < size) e room in
    rw (e, parts_of-rendered cwd ps names few (omega arith)) (write_all size ps names short)

-- A path that is normalised stays as it is when it is normalised again, whatever the current
-- directory is by then, with a buffer of at most 160 bytes that the result fits.
pub normalize_path_idempotent :
    (size : ℕ) (cwd later path : CString)
    → length (rendered (parts_of cwd path)) < size
    → size ≤ joined_size
    → normalize_path size later (normalize_path size cwd path) ≡ normalize_path size cwd path
unfolding normalize_path
normalize_path_idempotent size cwd later path room fits =
    let names0 = (parts_of-AllNames cwd path).0 in
    let (ps, names, few, e) = normalize_path-IsCanonical size cwd path room in
    normalize-canonical size later (normalize_path size cwd path) (ps, names, few, e)
      (subst (λ t. length t < size) (sym (write_all size (parts_of cwd path) names0 room)) room)
      fits
