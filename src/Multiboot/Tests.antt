-- ===== src/Multiboot/Tests.antt =====
-- Runs of the search for a tag in multiboot2_parser.c, and the theorems at such inputs.
use farou_kernel.Base.{
  ℕ, List, [], ◌∷◌, ◌+◌, ◌≡◌, refl, some, none, ◌==◌, if◌then◌else◌, arith, length, suc,
}
use farou_kernel.Base.Word.{add64, align_up, align_down}
use farou_kernel.Multiboot.{search_tag, find_multiboot2_tag, next_tag}
use farou_kernel.Multiboot.Tags.{Tag, address_of, find_multiboot2_tag_lem}

-- A command line of 13 bytes at 4104, and a memory map of 40 bytes after it.
abbrev memory : ℕ → ℕ
memory a =
    if a == 4104
    then 1
    else (if a == 4108 then 13 else (if a == 4120 then 6 else (if a == 4124 then 40 else 0)))

abbrev tags : List Tag
tags = record { kind = 1; size = 13 } ∷ record { kind = 6; size = 40 } ∷ []

map_found : find_multiboot2_tag 3 6 memory 4096 ≡ some 4120
unfolding find_multiboot2_tag search_tag next_tag align_up align_down add64
map_found = refl

-- A tag of size 0 that is not wanted is visited for ever.
no_size : find_multiboot2_tag 50 6 (λ a. if a == 4104 then 1 else 0) 4096 ≡ none
unfolding find_multiboot2_tag search_tag next_tag align_up align_down add64
no_size = refl

find_multiboot2_tag_lem_example :
    find_multiboot2_tag (suc (length tags + 4)) 6 memory 4096 ≡ some (address_of 6 (4096 + 8) tags)
find_multiboot2_tag_lem_example = find_multiboot2_tag_lem memory 6 tags 4096 4 (omega arith) (
  refl,
  (λ z. omega (arith, z)),
  refl,
  omega arith,
  (refl, (λ z. omega (arith, z)), refl, omega arith, refl),
)
