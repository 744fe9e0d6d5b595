-- ===== src/Elf/Bounds.antt =====
-- Where the loaders of RADKernel/core/RADKernel_runtime.cpp copy to.
use radpx_os.Base.{
  ℕ, ◌+◌, ◌-◌, ◌*◌, ◌^◌, ◌≤◌, ◌<◌, ◌≡◌, refl, sym, ◌∙◌, ◌⊎◌, inl, inr, Bool, true, false, not, ◌||◌,
  Option, none, some, List, [], ◌∷◌, ◌++◌, arith, ltb, leb, ◌==◌, if_elim, Bool-cases, Option-cases,
  length, length-append, take, drop, replicate, length-take, length-drop, length-replicate,
}
use mathlib.Core.Path.{subst}
use native.Mathlib.Nat.{mod-eq_of_lt}
use radpx_os.Elf.{
  Segment, Load, refused, loaded, fault, is_load, is_bad_64, scan, put, is_inside, copy_segments,
  load_range, load_segments, elf_ident_ok, byte, read_16, read_32, read_64, em_aarch64,
  load_elf64_image, segments_64,
}
use radpx_os.Elf.Scanning.{AllLoad, IsBetween, scan-IsBetween}

-- No sum of the addresses and sizes of a segment is cut to its bits.
abbrev pub IsUncut : ℕ → Segment → Type 0
IsUncut bits s = (s.vaddr + s.memsz < 2 ^ bits) × (s.offset + s.filesz < 2 ^ bits)

length-put :
    (image : List ℕ) (at : ℕ) (bs : List ℕ)
    → at + length bs ≤ length image
    → length (put image at bs) ≡ length image
length-put image at bs fits = omega (
  arith,
  length-append (take at image) (bs ++ drop (at + length bs) image),
  length-append bs (drop (at + length bs) image),
  length-take at image,
  length-drop (at + length bs) image,
)

abbrev AllInside : ℕ → ℕ → ℕ → List Segment → Type 0
AllInside file_size image_size lo ss = AllLoad (λ s. is_inside file_size image_size lo s ≡ true) ss

length-put_segment :
    (file image : List ℕ) (lo : ℕ) (s : Segment)
    → is_inside (length file) (length image) lo s ≡ true
    → length (put image (s.vaddr - lo) (take s.filesz (drop s.offset file))) ≡ length image
length-put_segment file image lo s within =
    let bytes = take s.filesz (drop s.offset file) in
    let enough : length bytes ≡ s.filesz =
      ground
        (arith, within, length-take s.filesz (drop s.offset file), length-drop s.offset file) in
    length-put image (s.vaddr - lo) bytes (ground (arith, within, enough))

copy_segments-inside :
    (file : List ℕ) (lo : ℕ) (image : List ℕ) (ss : List Segment)
    → AllInside (length file) (length image) lo ss
    → (after : List ℕ) × (copy_segments file lo image ss ≡ some after)
      × (length after ≡ length image)
unfolding copy_segments
copy_segments-inside file lo image [] inside = (image, refl, refl)
copy_segments-inside file lo image (s ∷ ss) (here, inside) =
    elim (Bool-cases (not (is_load s) || (s.filesz == 0))) [
      | inl skip ↦ rw (copy_segments, skip) (copy_segments-inside file lo image ss inside)
      | inr copied ↦
          let load : is_load s ≡ true = ground (arith, copied) in
          let within : is_inside (length file) (length image) lo s ≡ true = here load in
          let bytes = take s.filesz (drop s.offset file) in
          let same = length-put_segment file image lo s within in
          let (after, copies, sized) =
            copy_segments-inside file lo (put image (s.vaddr - lo) bytes) ss
              (subst (λ n. AllInside (length file) n lo ss) (sym same) inside) in
          rw (copy_segments, copied, within) (after, copies, sized ∙ same)
    ]

between-inside :
    (bits : ℕ) (bad : Segment → Bool) (size lo hi : ℕ) (ss : List Segment)
    → ((s : Segment)
        → bad s ≡ false
        → IsUncut bits s
        → (s.filesz ≤ s.memsz) × (s.offset + s.filesz ≤ size))
    → AllLoad (IsUncut bits) ss
    → AllLoad (IsBetween bits bad lo hi) ss
    → AllInside size (hi - lo) lo ss
between-inside bits bad size lo hi [] sound uncut between = tt
between-inside bits bad size lo hi (s ∷ ss) sound (u, uncut) (b, between) = (
  (λ load.
      let (good, low, high) = b load in
      let (whole, _) = u load in
      let (fits, ends) = sound s good (u load) in
      ground (
        arith,
        low,
        high,
        whole,
        fits,
        ends,
        mod-eq_of_lt {n = s.vaddr + s.memsz} {m = 2 ^ bits} whole,
      )),
  between-inside bits bad size lo hi ss sound uncut between,
)

-- What a loader may come to: a refusal, or an image with the entry inside.
abbrev pub InBounds : Load → Type 0
InBounds (refused status) = Unit
InBounds (loaded image entry) = entry < length image
InBounds fault = ⊥

load_range-InBounds :
    (has_memory : ℕ → Bool) (file : List ℕ) (entry : ℕ) (ss : List Segment) (lo hi : ℕ)
    → AllInside (length file) (hi - lo) lo ss
    → InBounds (load_range has_memory file entry ss lo hi)
load_range-InBounds has_memory file entry ss lo hi inside =
    let blank = replicate (hi - lo) (0) in
    let sized = length-replicate (hi - lo) 0 in
    let (image, copies, same) =
      copy_segments-inside file lo blank ss
        (subst (λ n. AllInside (length file) n lo ss) (sym sized) inside) in
    if_elim InBounds (leb hi lo || ltb entry lo || leb hi entry) (λ h. tt)
      (λ h.
        if_elim InBounds (not (has_memory (hi - lo))) (λ i. tt)
          (λ i. rw copies (ground (arith, h, same, sized))))

load_segments-InBounds :
    (bits : ℕ) (bad : Segment → Bool) (has_memory : ℕ → Bool) (file : List ℕ) (entry : ℕ)
    (ss : List Segment)
    → ((s : Segment)
        → bad s ≡ false
        → IsUncut bits s
        → (s.filesz ≤ s.memsz) × (s.offset + s.filesz ≤ length file))
    → AllLoad (IsUncut bits) ss
    → InBounds (load_segments bits bad has_memory file entry ss)
unfolding load_segments
load_segments-InBounds bits bad has_memory file entry ss sound uncut =
    elim (Option-cases (scan bits bad (2 ^ bits - 1) 0 ss)) [
      | inl none_found ↦ rw (load_segments, none_found) tt
      | inr ((lo, hi), found) ↦
          let between = scan-IsBetween bits bad (2 ^ bits - 1) 0 ss lo hi found in
          let inside = between-inside bits bad (length file) lo hi ss sound uncut between in
          rw (load_segments, found)
            (if_elim InBounds (lo == 2 ^ bits - 1) (λ h. tt)
              (λ h. load_range-InBounds has_memory file entry ss lo hi inside))
    ]

accepted_64 :
    (size : ℕ) (s : Segment)
    → is_bad_64 size s ≡ false
    → IsUncut 64 s
    → (s.filesz ≤ s.memsz) × (s.offset + s.filesz ≤ size)
accepted_64 size s good u = ground arith

-- The end of the table of program headers, as the 32-bit loader's header gives it.
abbrev pub table_end_32 : List ℕ → ℕ
table_end_32 file = read_32 file 28 + read_16 file 44 * read_16 file 42

-- The 64-bit loader likewise, for 64 bits.
pub load_elf64_image-InBounds :
    (has_memory : ℕ → Bool) (file : List ℕ)
    → AllLoad (IsUncut 64) (segments_64 file)
    → InBounds (load_elf64_image has_memory file)
unfolding load_elf64_image
load_elf64_image-InBounds has_memory file uncut =
    if_elim InBounds (ltb (length file) 64) (λ h. tt)
      (λ h.
        if_elim InBounds
          (not (elf_ident_ok file) || not (byte file 4 == 2) || not (read_16 file 18 == em_aarch64))
          (λ i. tt)
          (λ i.
            if_elim InBounds
              (ltb (length file) (read_64 file 32)
                || ltb (length file - read_64 file 32) (read_16 file 56 * read_16 file 54)
                || ltb (read_16 file 54) 56)
              (λ j. tt)
              (λ j.
                load_segments-InBounds 64 (is_bad_64 (length file)) has_memory file
                  (read_64 file 24) (segments_64 file) (accepted_64 (length file)) uncut)))

-- A segment with bytes to load, of which some lie outside.
abbrev pub AnyOutside : ℕ → ℕ → ℕ → List Segment → Type 0
AnyOutside file_size image_size lo [] = ⊥
AnyOutside file_size image_size lo (s ∷ ss) =
    ((is_load s ≡ true) × (0 < s.filesz) × (is_inside file_size image_size lo s ≡ false))
    ⊎ AnyOutside file_size image_size lo ss

copy_segments-outside :
    (file : List ℕ) (lo : ℕ) (image : List ℕ) (ss : List Segment)
    → AnyOutside (length file) (length image) lo ss
    → copy_segments file lo image ss ≡ none
unfolding copy_segments
copy_segments-outside file lo image [] outside = absurd outside
copy_segments-outside file lo image (s ∷ ss) (inl (load, some_bytes, out)) =
    let copied : (not (is_load s) || (s.filesz == 0)) ≡ false = ground (arith, load, some_bytes) in
    rw (copy_segments, copied, out) refl
copy_segments-outside file lo image (s ∷ ss) (inr later) =
    let P = λ (r : Option (List ℕ)). r ≡ none in
    let bytes = take s.filesz (drop s.offset file) in
    if_elim P (not (is_load s) || (s.filesz == 0))
      (λ h. copy_segments-outside file lo image ss later)
      (λ h.
        if_elim P (is_inside (length file) (length image) lo s)
          (λ within. copy_segments-outside file lo (put image (s.vaddr - lo) bytes) ss (
            subst (λ n. AnyOutside (length file) n lo ss)
              (sym (length-put_segment file image lo s within)) later))
          (λ i. refl))

-- The bounds check of the loaders is on what is scanned: with an address range that is accepted and
-- memory for it, a file with a segment of which bytes lie outside the file or the range is copied out
-- of bounds.
pub load_segments_overflows :
    (bits : ℕ) (bad : Segment → Bool) (has_memory : ℕ → Bool) (file : List ℕ) (entry : ℕ)
    (ss : List Segment) (lo hi : ℕ)
    → scan bits bad (2 ^ bits - 1) 0 ss ≡ some (lo, hi)
    → lo < 2 ^ bits - 1
    → lo ≤ entry
    → entry < hi
    → has_memory (hi - lo) ≡ true
    → AnyOutside (length file) (hi - lo) lo ss
    → load_segments bits bad has_memory file entry ss ≡ fault
unfolding load_segments
load_segments_overflows bits bad has_memory file entry ss lo hi found low above below memory
      outside =
    let sized = length-replicate (hi - lo) 0 in
    let copies =
      copy_segments-outside file lo (replicate (hi - lo) 0) ss
        (subst (λ n. AnyOutside (length file) n lo ss) (sym sized) outside) in
    let found_some : (lo == 2 ^ bits - 1) ≡ false = ground (arith, low) in
    let accepted : (leb hi lo || ltb entry lo || leb hi entry) ≡ false =
      ground (arith, above, below) in
    rw (load_segments, found, found_some, accepted, memory, copies) refl
