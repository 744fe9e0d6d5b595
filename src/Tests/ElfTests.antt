-- ===== src/Tests/ElfTests.antt =====
-- The program loader of RADKernel/core/RADKernel_runtime.cpp at concrete files.
use radpx_os.Base.{
  ℕ, ◌-◌, ◌/◌, ◌%◌, ◌^◌, ◌≡◌, refl, inl, inr, Bool, true, List, [], ◌∷◌, ◌++◌, arith, replicate,
}
use radpx_os.Elf.{
  Segment, loaded, fault, is_bad_64, scan, copy_segments, load_segments, load_elf32_image,
}
use radpx_os.Elf.Bounds.{load_segments_overflows}

abbrev zeros : ℕ → List ℕ
zeros n = replicate n 0

abbrev word_32 : ℕ → List ℕ
word_32 n = n % 256 ∷ (n / 256) % 256 ∷ (n / 65536) % 256 ∷ (n / 16777216) % 256 ∷ []

abbrev word_16 : ℕ → List ℕ
word_16 n = n % 256 ∷ (n / 256) % 256 ∷ []

-- A header, one program header at offset 52, and four bytes of code at 84 for address 4096.
abbrev elf_header : List ℕ
elf_header =
    127 ∷ b'E' ∷ b'L' ∷ b'F' ∷ 1 ∷ 1 ∷ zeros 10
    ++ word_16 2
    ++ word_16 40
    ++ word_32 1
    ++ word_32 4098
    ++ word_32 52
    ++ zeros 8
    ++ word_16 52
    ++ word_16 32
    ++ word_16 1
    ++ zeros 6

abbrev program_32 : List ℕ
program_32 =
    elf_header
    ++ word_32 1
    ++ word_32 84
    ++ word_32 4096
    ++ word_32 0
    ++ word_32 4
    ++ word_32 6
    ++ zeros 8
    ++ 7 ∷ 8 ∷ 9 ∷ 10 ∷ []

has_memory : ℕ → Bool
has_memory n = true

program_is_loaded :
    load_elf32_image (2 ^ 32) has_memory program_32 ≡ loaded (7 ∷ 8 ∷ 9 ∷ 10 ∷ 0 ∷ 0 ∷ []) 2
unfolding load_elf32_image has_memory scan copy_segments
program_is_loaded = refl

-- The second segment ends at 2 ^ 64, which is 0 in 64 bits.
abbrev cut : List Segment
cut =
    record { kind = 1; offset = 0; vaddr = 4096; filesz = 8; memsz = 8 }
    ∷ record { kind = 1; offset = 0; vaddr = 2 ^ 64 - 8; filesz = 8; memsz = 8 }
    ∷ []

copy_leaves_the_buffer : load_segments 64 (is_bad_64 8) has_memory (zeros 8) 4096 cut ≡ fault
unfolding scan has_memory
copy_leaves_the_buffer =
    load_segments_overflows 64 (is_bad_64 8) has_memory (zeros 8) 4096 cut 4096 4104 refl
      (omega arith) (omega arith) (omega arith) refl (inr (inl (refl, omega arith, refl)))
