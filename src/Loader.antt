-- ===== src/Loader.antt =====
-- The ELF loader of kernel/startup.c: the checks of the header, and the segments.
-- `fail` and `exit` end the program. A fault is a read outside the mapped file, a write behind the segment's
-- mapping, or an index product that overflows an `int`. The offsets of the fields are those of elf.h; `mmap`, `memcpy` and `mprotect` change
-- memory as POSIX says, in whole pages, and what the host answers is an argument.
pub mod Segments
pub mod Loads
mod Tests
use farou_kernel.Base.{
  ℕ, List, [], ◌∷◌, suc, zero, ◌+◌, ◌-◌, ◌*◌, ◌/◌, ◌%◌, ◌^◌, Bool, true, false, not, ◌&&◌, ◌||◌,
  Option, none, some, ltb, leb, ◌==◌, if◌then◌else◌, get_or, length,
}

-- A little-endian number of `n` bytes.
unfoldable pub read_le : List ℕ → ℕ → ℕ → ℕ
read_le file offset zero = 0
read_le file offset (suc n) = get_or file offset 0 + 256 * read_le file (offset + 1) n

pub record Ehdr : Type 0 where
  pub e_ident : List ℕ
  pub e_type : ℕ
  pub e_machine : ℕ
  pub e_entry : ℕ
  pub e_phoff : ℕ
  pub e_ehsize : ℕ
  pub e_phentsize : ℕ
  pub e_phnum : ℕ

pub record Phdr : Type 0 where
  pub p_type : ℕ
  pub p_flags : ℕ
  pub p_offset : ℕ
  pub p_vaddr : ℕ
  pub p_filesz : ℕ
  pub p_memsz : ℕ

-- ELFMAG
abbrev pub is_elf : List ℕ → Bool
is_elf ident =
    (get_or ident 0 0 == 127)
    && (get_or ident 1 0 == 69)
    && (get_or ident 2 0 == 76)
    && (get_or ident 3 0 == 70)

-- ELFCLASS64, ELFDATA2LSB or ELFDATA2MSB, EV_CURRENT
abbrev pub is_supported : List ℕ → Bool
is_supported ident =
    (get_or ident 4 0 == 2)
    && ((get_or ident 5 0 == 1) || (get_or ident 5 0 == 2))
    && (get_or ident 6 0 == 1)

-- The sizes in the header, and the program header table within the file; neither sum may overflow.
abbrev pub is_table_inside : Ehdr → ℕ → Bool
is_table_inside ehdr file_size =
    leb 64 ehdr.e_ehsize
    && leb 56 ehdr.e_phentsize
    && not (ehdr.e_phnum == 0)
    && not ((ehdr.e_phoff == 0) || ltb file_size ehdr.e_phoff)
    && ltb (ehdr.e_phnum * ehdr.e_phentsize) (2 ^ 64)
    && ltb (ehdr.e_phoff + ehdr.e_phnum * ehdr.e_phentsize) (2 ^ 64)
    && leb (ehdr.e_phoff + ehdr.e_phnum * ehdr.e_phentsize) file_size

-- Whether every check passes: ET_EXEC is 2, EM_X86_64 is 62.
unfoldable pub validate_elf_header : Ehdr → ℕ → Bool
validate_elf_header ehdr file_size =
    is_elf ehdr.e_ident
    && is_supported ehdr.e_ident
    && (ehdr.e_type == 2)
    && (ehdr.e_machine == 62)
    && is_table_inside ehdr file_size
    && not (ehdr.e_entry == 0)

-- The entry of the program header table at an offset of the file.
unfoldable pub read_phdr : List ℕ → ℕ → Option Phdr
read_phdr file offset =
    if leb (offset + 56) (length file)
    then some (record {
      p_type = read_le file offset 4;
      p_flags = read_le file (offset + 4) 4;
      p_offset = read_le file (offset + 8) 8;
      p_vaddr = read_le file (offset + 16) 8;
      p_filesz = read_le file (offset + 32) 8;
      p_memsz = read_le file (offset + 40) 8;
    })
    else none

-- The bytes of the address space, and which of them may be written.
pub record Space : Type 0 where
  pub memory : ℕ → ℕ
  pub writable : ℕ → Bool

pub data Loading : Type 0 where
  faulted : Loading
  exited : Loading
  loaded : Space → Loading

-- The host's answers for the segment of an index; `page_size` is 0 for an answer that is not positive.
pub record Host : Type 0 where
  pub page_size : ℕ → ℕ
  pub mmap : ℕ → Option ℕ
  pub mprotect : ℕ → Bool

-- The bytes in the pages that a mapping of `size` bytes takes.
abbrev pub whole_pages : ℕ → ℕ → ℕ
whole_pages page_size size = (size + page_size - 1) / page_size * page_size

-- The addresses of a mapping of `size` bytes at `start`.
abbrev pub in_pages : ℕ → ℕ → ℕ → ℕ → Bool
in_pages page_size start size a = leb start a && ltb a (start + whole_pages page_size size)

abbrev pub is_writable_segment : Phdr → Bool
is_writable_segment phdr = phdr.p_flags / 2 % 2 == 1

-- What a segment makes of the byte at `a`: zero from `mmap`, and the file's byte from `memcpy`.
abbrev pub segment_byte : List ℕ → Phdr → ℕ → ℕ
segment_byte file phdr a =
    if ltb (a - phdr.p_vaddr) phdr.p_filesz
    then get_or file (phdr.p_offset + (a - phdr.p_vaddr)) 0
    else 0

-- The segment mapped and copied; then `mprotect` where it is not to be written.
unfoldable pub map_segment : Host → ℕ → List ℕ → Phdr → Space → Space
map_segment host i file phdr s = record {
  memory = λ a.
      if in_pages (host.page_size i) phdr.p_vaddr phdr.p_memsz a
      then segment_byte file phdr a
      else s.memory a;
  writable = λ a.
      if in_pages (host.page_size i) phdr.p_vaddr phdr.p_memsz a
      then is_writable_segment phdr || not (host.mprotect i)
      else s.writable a;
}

abbrev pub mapped : Host → ℕ → List ℕ → Phdr → Space → Option ℕ → Loading
mapped host i file phdr s none = exited
mapped host i file phdr s (some mapped_addr) =
    if not (mapped_addr == phdr.p_vaddr)
    then exited
    else (if leb (phdr.p_offset + phdr.p_filesz) (length file)
          && leb phdr.p_filesz (whole_pages (host.page_size i) phdr.p_memsz)
        then loaded (map_segment host i file phdr s)
        else faulted)

-- The checks that end the program where they fail.
unfoldable pub is_segment_valid : ℕ → Phdr → Bool
is_segment_valid kernel_map_size phdr =
    leb phdr.p_offset kernel_map_size
    && ltb (phdr.p_offset + phdr.p_filesz) (2 ^ 64)
    && leb (phdr.p_offset + phdr.p_filesz) kernel_map_size
    && leb phdr.p_filesz phdr.p_memsz

unfoldable pub is_range_valid : ℕ → Phdr → Bool
is_range_valid page_size phdr =
    not (page_size == 0)
    && (phdr.p_vaddr % page_size == 0)
    && ltb (phdr.p_vaddr + phdr.p_memsz) (2 ^ 64)

-- One turn of the loop; PT_LOAD is 1.
unfoldable pub load_segment : Host → ℕ → List ℕ → Phdr → Space → Loading
load_segment host i file phdr s =
    if not (phdr.p_type == 1)
    then loaded s
    else (if not (is_segment_valid (length file) phdr)
        then exited
        else (if phdr.p_memsz == 0
            then loaded s
            else (if not (is_range_valid (host.page_size i) phdr)
                then exited
                else mapped host i file phdr s (host.mmap i))))

abbrev pub then_next : (Space → Loading) → Loading → Loading
then_next next faulted = faulted
then_next next exited = exited
then_next next (loaded s) = next s

abbrev pub phdr_read : Host → ℕ → List ℕ → Space → (Space → Loading) → Option Phdr → Loading
phdr_read host i file s next none = faulted
phdr_read host i file s next (some phdr) = then_next next (load_segment host i file phdr s)

-- The entry of an index. The product is an `int`.
unfoldable pub phdr_at : Ehdr → List ℕ → ℕ → Option Phdr
phdr_at ehdr file i =
    if ltb (i * ehdr.e_phentsize) (2 ^ 31)
    then read_phdr file (ehdr.e_phoff + i * ehdr.e_phentsize)
    else none

-- The loop, `rounds` entries before its end.
unfoldable pub load_from : Host → Ehdr → List ℕ → ℕ → ℕ → Space → Loading
load_from host ehdr file zero i s = loaded s
load_from host ehdr file (suc rounds) i s =
    phdr_read host i file s (λ t. load_from host ehdr file rounds (i + 1) t) (phdr_at ehdr file i)

unfoldable pub load_kernel_segments : Host → Ehdr → List ℕ → Space → Loading
load_kernel_segments host ehdr file s = load_from host ehdr file ehdr.e_phnum 0 s
