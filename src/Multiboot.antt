-- ===== src/Multiboot.antt =====
-- The search for a tag in kernel/bootloader/src/core/multiboot2_parser.c, and its loop over the memory map.
-- The memory gives the 32-bit number at an address. `none` stands for a loop that is still running.
pub mod Tags
pub mod Entries
mod Tests
use farou_kernel.Base.{
  ℕ, List, [], ◌∷◌, suc, zero, ◌+◌, ◌^◌, ◌%◌, Bool, true, false, Option, none, some, ltb, ◌==◌,
  if◌then◌else◌,
}
use farou_kernel.Base.Word.{add64, align_up}

abbrev pub tag_type_end : ℕ
tag_type_end = 0

-- The fields of `struct multiboot2_tag`.
abbrev pub tag_type : (ℕ → ℕ) → ℕ → ℕ
tag_type memory tag = memory tag

abbrev pub tag_size : (ℕ → ℕ) → ℕ → ℕ
tag_size memory tag = memory (tag + 4)

-- `ALIGN((uintptr_t)tag + tag->size, 8)`
unfoldable pub next_tag : (ℕ → ℕ) → ℕ → ℕ
next_tag memory tag = align_up 8 (add64 tag (tag_size memory tag))

-- The loop, for a number of rounds; the answer is 0 for NULL.
unfoldable pub search_tag : ℕ → ℕ → (ℕ → ℕ) → ℕ → Option ℕ
search_tag zero wanted memory tag = none
search_tag (suc rounds) wanted memory tag =
    let rest = search_tag rounds wanted memory (next_tag memory tag) in
    if tag_type memory tag == tag_type_end
    then some 0
    else (if tag_type memory tag == wanted then some tag else rest)

-- The tags begin after the header of 8 bytes.
unfoldable pub find_multiboot2_tag : ℕ → ℕ → (ℕ → ℕ) → ℕ → Option ℕ
find_multiboot2_tag rounds wanted memory multiboot_info =
    if multiboot_info == 0 then some 0 else search_tag rounds wanted memory (multiboot_info + 8)

-- The entries that the loop of `print_memory_map` visits.
unfoldable pub visit_entries : ℕ → ℕ → ℕ → ℕ → Option (List ℕ)
visit_entries zero entry_size entry end = none
visit_entries (suc rounds) entry_size entry end =
    let rest = visit_entries rounds entry_size (add64 entry entry_size) end in
    if ltb entry end then (elim rest [ none ↦ none | some es ↦ some (entry ∷ es) ]) else some []
