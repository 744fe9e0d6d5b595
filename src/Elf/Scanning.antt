-- ===== src/Elf/Scanning.antt =====
-- What the first loop of the loaders of RADKernel/core/RADKernel_runtime.cpp finds.
use radpx_os.Base.{
  ℕ, ◌+◌, ◌%◌, ◌^◌, ◌≤◌, ◌≡◌, inl, inr, Bool, true, false, some, List, [], ◌∷◌, arith, ltb,
  if◌then◌else◌, Bool-cases,
}
use radpx_os.Elf.{Segment, is_load, scan}

-- Each segment that is loaded.
abbrev pub AllLoad : (Segment → Type 0) → List Segment → Type 0
AllLoad P [] = Unit
AllLoad P (s ∷ ss) = (is_load s ≡ true → P s) × AllLoad P ss

-- A segment between two addresses, accepted, whose end fits in the bits.
abbrev pub IsBetween : ℕ → (Segment → Bool) → ℕ → ℕ → Segment → Type 0
IsBetween bits bad lo hi s =
    (bad s ≡ false) × (lo ≤ s.vaddr) × ((s.vaddr + s.memsz) % 2 ^ bits ≤ hi)

scan_widens :
    (bits : ℕ) (bad : Segment → Bool) (lo hi : ℕ) (ss : List Segment) (a b : ℕ)
    → scan bits bad lo hi ss ≡ some (a, b)
    → (a ≤ lo) × (hi ≤ b)
unfolding scan
scan_widens bits bad lo hi [] a b found = ground arith
scan_widens bits bad lo hi (s ∷ ss) a b found = ground (
  arith,
  scan_widens bits bad lo hi ss a b,
  scan_widens bits bad (if ltb s.vaddr lo then s.vaddr else lo)
      (if ltb hi ((s.vaddr + s.memsz) % 2 ^ bits) then (s.vaddr + s.memsz) % 2 ^ bits else hi) ss a
      b,
)

-- What the scan accepts lies between the addresses that it finds.
pub scan-IsBetween :
    (bits : ℕ) (bad : Segment → Bool) (lo hi : ℕ) (ss : List Segment) (a b : ℕ)
    → scan bits bad lo hi ss ≡ some (a, b)
    → AllLoad (IsBetween bits bad a b) ss
unfolding scan
scan-IsBetween bits bad lo hi [] a b found = tt
scan-IsBetween bits bad lo hi (s ∷ ss) a b found =
    let end = (s.vaddr + s.memsz) % 2 ^ bits in
    let low = if ltb s.vaddr lo then s.vaddr else lo in
    let high = if ltb hi end then end else hi in
    elim (Bool-cases (is_load s)) [
      | inr other ↦
          let skipped : scan bits bad lo hi ss ≡ some (a, b) = ground (arith, other, found) in
          ((λ load. cc (load, other)), scan-IsBetween bits bad lo hi ss a b skipped)
      | inl load ↦ elim (Bool-cases (bad s)) [
        | inl refused ↦ absurd (ground (arith, load, refused, found))
        | inr good ↦
            let rest : scan bits bad low high ss ≡ some (a, b) =
              ground (arith, load, good, found) in
            let (below, above) = scan_widens bits bad low high ss a b rest in
            let at_least : a ≤ s.vaddr = ground (arith, below) in
            let at_most : end ≤ b = ground (arith, above) in
            ((λ h. (good, at_least, at_most)), scan-IsBetween bits bad low high ss a b rest)
      ]
    ]
