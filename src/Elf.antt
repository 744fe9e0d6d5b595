-- ===== src/Elf.antt =====
-- The program loader of RADKernel/core/RADKernel_runtime.cpp: elf_ident_ok, load_elf32_image and
-- load_elf64_image. A file is the list of its bytes, little end first. What `rad_memory_alloc` says of a
-- size is the argument `has_memory`, and `word` the number of values of a size_t. A copy that reads or
-- writes outside its buffer is a fault, and so is a program header read outside the file.
pub mod Bounds
pub mod Scanning
use radpx_os.Base.{
  [], ℕ, zero, suc, ◌+◌, ◌-◌, ◌*◌, ◌%◌, ◌^◌, Bool, not, ◌&&◌, ◌||◌, Option, none, some, List, ◌∷◌,
  ◌++◌, ltb, leb, ◌==◌, if◌then◌else◌, length, get_or, take, drop, replicate, count, Status,
  invalid_argument, no_memory, not_supported,
}

pub record Segment : Type 0 where
  pub kind : ℕ
  pub offset : ℕ
  pub vaddr : ℕ
  pub filesz : ℕ
  pub memsz : ℕ

pub data Load : Type 0 where
  refused : Status → Load
  loaded : List ℕ → ℕ → Load
  fault : Load

abbrev pub pt_load : ℕ
pt_load = 1

abbrev pub em_arm : ℕ
em_arm = 40

abbrev pub em_aarch64 : ℕ
em_aarch64 = 183

abbrev pub byte : List ℕ → ℕ → ℕ
byte bs i = get_or bs i 0

abbrev pub read_16 : List ℕ → ℕ → ℕ
read_16 bs i = byte bs i + byte bs (i + 1) * 2 ^ 8

abbrev pub read_32 : List ℕ → ℕ → ℕ
read_32 bs i = read_16 bs i + read_16 bs (i + 2) * 2 ^ 16

abbrev pub read_64 : List ℕ → ℕ → ℕ
read_64 bs i = read_32 bs i + read_32 bs (i + 4) * 2 ^ 32

-- `Elf32ProgramHeader` and `Elf64ProgramHeader`, the fields that are used.
unfoldable pub segment_32 : List ℕ → ℕ → Segment
segment_32 file at = record {
  kind = read_32 file at;
  offset = read_32 file (at + 4);
  vaddr = read_32 file (at + 8);
  filesz = read_32 file (at + 16);
  memsz = read_32 file (at + 20);
}

unfoldable pub segment_64 : List ℕ → ℕ → Segment
segment_64 file at = record {
  kind = read_32 file at;
  offset = read_64 file (at + 8);
  vaddr = read_64 file (at + 16);
  filesz = read_64 file (at + 32);
  memsz = read_64 file (at + 40);
}

-- The program headers, `count` of them, a stride apart.
unfoldable pub segments : (ℕ → Segment) → ℕ → ℕ → ℕ → List Segment
segments segment_at at stride zero = []
segments segment_at at stride (suc count) =
    segment_at at ∷ segments segment_at (at + stride) stride count

unfoldable pub elf_ident_ok : List ℕ → Bool
elf_ident_ok file =
    leb 16 (length file)
    && (byte file 0 == 127)
    && (byte file 1 == b'E')
    && (byte file 2 == b'L')
    && (byte file 3 == b'F')
    && (byte file 5 == 1)

abbrev pub is_load : Segment → Bool
is_load s = s.kind == pt_load

-- The ranges in the file that the loaders refuse; the sum of the first has 32 bits.
abbrev pub is_bad_32 : ℕ → Segment → Bool
is_bad_32 size s = ltb size ((s.offset + s.filesz) % 2 ^ 32) || ltb s.memsz s.filesz

abbrev pub is_bad_64 : ℕ → Segment → Bool
is_bad_64 size s = ltb size s.offset || ltb (size - s.offset) s.filesz || ltb s.memsz s.filesz

-- The lowest address of the segments that are loaded, and the highest end, in `bits` bits; none where
-- one is refused.
unfoldable pub scan : ℕ → (Segment → Bool) → ℕ → ℕ → List Segment → Option (ℕ × ℕ)
scan bits bad lo hi [] = some (lo, hi)
scan bits bad lo hi (s ∷ ss) =
    let end = (s.vaddr + s.memsz) % 2 ^ bits in
    let skipped = scan bits bad lo hi ss in
    let rest =
      scan bits bad (if ltb s.vaddr lo then s.vaddr else lo) (if ltb hi end then end else hi) ss in
    if not (is_load s) then skipped else if bad s then none else rest

abbrev pub put : List ℕ → ℕ → List ℕ → List ℕ
put image at bs = take at image ++ (bs ++ drop (at + length bs) image)

-- Whether the copy of a segment stays in the file and in the image.
abbrev pub is_inside : ℕ → ℕ → ℕ → Segment → Bool
is_inside file_size image_size lo s =
    leb (s.offset + s.filesz) file_size && leb (s.vaddr - lo + s.filesz) image_size

-- The loop of copies, none for a fault. A copy of no bytes touches nothing.
unfoldable pub copy_segments : List ℕ → ℕ → List ℕ → List Segment → Option (List ℕ)
copy_segments file lo image [] = some image
copy_segments file lo image (s ∷ ss) =
    let skipped = copy_segments file lo image ss in
    let rest =
      copy_segments file lo (put image (s.vaddr - lo) (take s.filesz (drop s.offset file))) ss in
    if not (is_load s) || (s.filesz == 0)
    then skipped
    else if is_inside (length file) (length image) lo s
    then rest
    else none

abbrev pub load_range : (ℕ → Bool) → List ℕ → ℕ → List Segment → ℕ → ℕ → Load
load_range has_memory file entry ss lo hi =
    if leb hi lo || ltb entry lo || leb hi entry
    then refused invalid_argument
    else if not (has_memory (hi - lo))
    then refused no_memory
    else elim (copy_segments file lo (replicate (hi - lo) 0) ss) [
      | none ↦ fault
      | some image ↦ loaded image (entry - lo)
    ]

unfoldable pub load_segments : ℕ → (Segment → Bool) → (ℕ → Bool) → List ℕ → ℕ → List Segment → Load
unfolding scan copy_segments
load_segments bits bad has_memory file entry ss = elim (scan bits bad (2 ^ bits - 1) 0 ss) [
  | none ↦ refused invalid_argument
  | some (lo, hi) ↦
      let range = load_range has_memory file entry ss lo hi in
      if lo == 2 ^ bits - 1 then refused invalid_argument else range
]

abbrev pub segments_32 : List ℕ → List Segment
segments_32 file = segments (segment_32 file) (read_32 file 28) (read_16 file 42) (read_16 file 44)

-- The program headers up to the first that does not lie in the file.
unfoldable pub segments_inside : ℕ → (ℕ → Segment) → ℕ → ℕ → ℕ → List Segment
segments_inside size segment_at at stride zero = []
segments_inside size segment_at at stride (suc count) =
    let rest = segments_inside size segment_at (at + stride) stride count in
    if leb (at + 32) size then segment_at at ∷ rest else []

abbrev pub segments_inside_32 : List ℕ → List Segment
segments_inside_32 file =
    segments_inside (length file) (segment_32 file) (read_32 file 28) (read_16 file 42)
      (read_16 file 44)

-- The first loop where a program header does not lie in the file: it is read, unless a segment
-- before it is refused.
unfoldable pub read_outside : (Segment → Bool) → List Segment → Load
unfolding scan
read_outside bad ss = elim (scan 32 bad (2 ^ 32 - 1) 0 ss) [
  | none ↦ refused invalid_argument
  | some (lo, hi) ↦ fault
]

unfoldable pub load_elf32_image : ℕ → (ℕ → Bool) → List ℕ → Load
unfolding elf_ident_ok segments segments_inside segment_32 load_segments read_outside
load_elf32_image word has_memory file =
    if ltb (length file) 52
    then refused invalid_argument
    else if not (elf_ident_ok file) || not (byte file 4 == 1) || not (read_16 file 18 == em_arm)
    then refused not_supported
    else if ltb (length file) ((read_32 file 28 + read_16 file 44 * read_16 file 42) % word)
        || ltb (read_16 file 42) 32
    then refused invalid_argument
    else if ltb (length (segments_inside_32 file)) (read_16 file 44)
    then read_outside (is_bad_32 (length file)) (segments_inside_32 file)
    else load_segments 32 (is_bad_32 (length file)) has_memory file (read_32 file 24)
        (segments_32 file)

abbrev pub segments_64 : List ℕ → List Segment
segments_64 file = segments (segment_64 file) (read_64 file 32) (read_16 file 54) (read_16 file 56)

unfoldable pub load_elf64_image : (ℕ → Bool) → List ℕ → Load
unfolding elf_ident_ok segments segment_64 load_segments
load_elf64_image has_memory file =
    if ltb (length file) 64
    then refused invalid_argument
    else if not (elf_ident_ok file) || not (byte file 4 == 2) || not (read_16 file 18 == em_aarch64)
    then refused not_supported
    else if ltb (length file) (read_64 file 32)
        || ltb (length file - read_64 file 32) (read_16 file 56 * read_16 file 54)
        || ltb (read_16 file 54) 56
    then refused invalid_argument
    else load_segments 64 (is_bad_64 (length file)) has_memory file (read_64 file 24)
        (segments_64 file)
