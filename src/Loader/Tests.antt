-- ===== src/Loader/Tests.antt =====
-- Runs of the ELF loader of kernel/startup.c, and the theorem at such an input.
use farou_kernel.Base.{ℕ, List, [], ◌∷◌, ◌++◌, ◌≡◌, refl, true, some, replicate, length, arith}
use farou_kernel.Loader.{
  Ehdr, Space, Host, Loading, faulted, exited, loaded, validate_elf_header, read_phdr, read_le,
  load_kernel_segments, load_from, load_segment, map_segment, is_segment_valid, is_range_valid,
  phdr_at,
}
use farou_kernel.Loader.Loads.{LoadsAll, load_kernel_segments-LoadsAll}

-- An executable with one segment of three bytes, for eight bytes at 4096; the header is given apart.
abbrev le8 : ℕ → List ℕ
le8 n = n ∷ replicate 7 0

abbrev file : List ℕ
file =
    replicate 64 0
    ++ (1 ∷ 0 ∷ 0 ∷ 0 ∷ 5 ∷ 0 ∷ 0 ∷ 0 ∷ [])
    ++ le8 120
    ++ (0 ∷ 16 ∷ replicate 6 0)
    ++ le8 0
    ++ le8 3
    ++ le8 8
    ++ le8 0
    ++ (7 ∷ 8 ∷ 9 ∷ [])

abbrev ehdr : Ehdr
ehdr = record {
  e_ident = 127 ∷ 69 ∷ 76 ∷ 70 ∷ 2 ∷ 1 ∷ 1 ∷ replicate 9 0;
  e_type = 2;
  e_machine = 62;
  e_entry = 4096;
  e_phoff = 64;
  e_ehsize = 64;
  e_phentsize = 56;
  e_phnum = 1;
}

abbrev host : Host
host = record { page_size = λ i. 4096; mmap = λ i. some 4096; mprotect = λ i. true }

abbrev empty : Space
empty = record { memory = λ a. 255; writable = λ a. true }

abbrev byte_at : ℕ → Loading → ℕ
byte_at a faulted = 256
byte_at a exited = 257
byte_at a (loaded s) = s.memory a

second_byte : byte_at 4097 (load_kernel_segments host ehdr file empty) ≡ 8
unfolding load_kernel_segments load_from load_segment map_segment is_segment_valid is_range_valid
    phdr_at read_phdr read_le
second_byte = refl

past_the_file : byte_at 4100 (load_kernel_segments host ehdr file empty) ≡ 0
unfolding load_kernel_segments load_from load_segment map_segment is_segment_valid is_range_valid
    phdr_at read_phdr read_le
past_the_file = refl

accepted : validate_elf_header ehdr (length file) ≡ true
unfolding validate_elf_header
accepted = refl

load_kernel_segments-LoadsAll_example :
    LoadsAll host ehdr file 0 1 empty (load_kernel_segments host ehdr file empty)
load_kernel_segments-LoadsAll_example =
    load_kernel_segments-LoadsAll host ehdr file empty accepted (omega arith)
