-- ===== src/Paths/Canonical.antt =====
-- The parts that normalize_path of RADKernel/core/RADKernel_runtime.cpp finds.
use radpx_os.Base.{
  ℕ, zero, suc, ◌+◌, ◌-◌, ◌≤◌, ◌<◌, ◌≡◌, refl, ◌≢◌, ◌⊎◌, inl, inr, false, List, [], ◌∷◌, ◌++◌,
  arith, ltb, ◌==◌, ltb→lt, if_elim, length, length-append, take, length-take, CString, text_eq,
}
use radpx_os.Paths.{
  slash, dot, dot_dot, max_parts, skip_slashes, part_of, after_part, add_part, collect_parts,
  parts_of, joined_path, or_cwd,
}

abbrev pub NoSlash : CString → Type 0
NoSlash [] = Unit
NoSlash (c ∷ cs) = (c ≢ slash) × NoSlash cs

-- A name in a directory: not empty, not the directory itself nor the one above, and without a slash.
abbrev pub IsName : CString → Type 0
IsName part =
    (0 < length part) × (text_eq part dot ≡ false) × (text_eq part dot_dot ≡ false) × NoSlash part

abbrev pub AllNames : List CString → Type 0
AllNames [] = Unit
AllNames (p ∷ ps) = IsName p × AllNames ps

pub AllNames-append : (ps qs : List CString) → AllNames ps → AllNames qs → AllNames (ps ++ qs)
AllNames-append [] qs hp hq = hq
AllNames-append (p ∷ ps) qs (h, hp) hq = (h, AllNames-append ps qs hp hq)

AllNames-take : (n : ℕ) (ps : List CString) → AllNames ps → AllNames (take n ps)
AllNames-take zero ps h = tt
AllNames-take (suc n) [] h = tt
AllNames-take (suc n) (p ∷ ps) (h, hs) = (h, AllNames-take n ps hs)

part_of-NoSlash : (s : CString) → NoSlash (part_of s)
unfolding part_of
part_of-NoSlash [] = tt
part_of-NoSlash (c ∷ cs) =
    if_elim NoSlash (c == slash) (λ h. tt) (λ h. (ground arith, part_of-NoSlash cs))

-- What a text begins with when the slashes are skipped.
pub skip_slashes-head :
    (s : CString) (c : ℕ) (cs : CString) → skip_slashes s ≡ c ∷ cs → (c == slash) ≡ false
unfolding skip_slashes
skip_slashes-head [] c cs h = cc
skip_slashes-head (d ∷ ds) c cs h = ground (arith, skip_slashes-head ds c cs)

part_of_pos : (c : ℕ) (cs : CString) → (c == slash) ≡ false → 0 < length (part_of (c ∷ cs))
unfolding part_of
part_of_pos c cs h = ground arith

add_part-AllNames :
    (parts : List CString) (part : CString)
    → AllNames parts
    → 0 < length part
    → NoSlash part
    → AllNames (add_part parts part)
add_part-AllNames parts part names some_bytes no_slash =
    if_elim AllNames (text_eq part dot) (λ h. names)
      (λ h.
        if_elim AllNames (text_eq part dot_dot) (λ i. AllNames-take (length parts - 1) parts names)
          (λ i. AllNames-append parts (part ∷ []) names ((some_bytes, h, i, no_slash), tt)))

pub add_part-length :
    (parts : List CString) (part : CString) → length (add_part parts part) ≤ length parts + 1
add_part-length parts part =
    ground (arith, length-take (length parts - 1) parts, length-append parts (part ∷ []))

pub List-cases {ℓ} :
    {A : Type ℓ} (xs : List A) → (xs ≡ []) ⊎ ((y : A) × (ys : List A) × (xs ≡ y ∷ ys))
List-cases [] = inl refl
List-cases (x ∷ xs) = inr (x, xs, refl)

collect_parts-AllNames :
    (rounds : ℕ) (text : CString) (parts : List CString)
    → AllNames parts
    → length parts ≤ max_parts
    → AllNames (collect_parts rounds text parts)
      × (length (collect_parts rounds text parts) ≤ max_parts)
unfolding collect_parts
collect_parts-AllNames zero text parts names few = (names, few)
collect_parts-AllNames (suc rounds) text parts names few =
    let P = λ (ps : List CString). AllNames ps × (length ps ≤ max_parts) in
    elim (List-cases (skip_slashes text)) [
      | inl e ↦ rw (collect_parts, e) (names, few)
      | inr (c, cs, e) ↦
          rw (collect_parts, e)
            (if_elim P (ltb (length parts) max_parts)
              (λ h.
                let part = part_of (c ∷ cs) in
                let named =
                  add_part-AllNames parts part names
                    (part_of_pos c cs (skip_slashes-head text c cs e)) (part_of-NoSlash (c ∷ cs)) in
                collect_parts-AllNames rounds (after_part (c ∷ cs)) (add_part parts part) named
                  (omega (arith, ltb→lt (length parts) max_parts h, add_part-length parts part)))
              (λ h. (names, few)))
    ]

pub parts_of-AllNames :
    (cwd path : CString) → AllNames (parts_of cwd path) × (length (parts_of cwd path) ≤ max_parts)
unfolding parts_of
parts_of-AllNames cwd path =
    let joined = joined_path cwd (or_cwd cwd path) in
    collect_parts-AllNames (length joined) joined [] tt (omega arith)
