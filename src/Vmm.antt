-- ===== src/Vmm.antt =====
-- The page tables of kernel/memory.c: mapping a page and taking a mapping away.
-- `none` stands for `kpanic`. A table is known by the physical address of its frame: `phys_to_virt` only
-- adds an offset. The bits that an `or` of the source joins are disjoint, so it is written as a sum.
pub mod Tree
pub mod Keeps
pub mod Grow
pub mod Walk
pub mod Leaf
pub mod Mapping
pub mod Prune
pub mod Clean
pub mod Unmapping
pub mod RoundTrip
mod Tests
use farou_kernel.Base.{
  ℕ, List, [], ◌∷◌, suc, zero, ◌+◌, ◌*◌, ◌/◌, ◌%◌, ◌^◌, Bool, true, false, not, ◌&&◌, Option, none,
  some, ltb, ◌==◌, if◌then◌else◌,
}
use farou_kernel.Frames.{Frames, page_size, pmm_alloc_frame, pmm_free_frame}

-- The frame allocator, and the 64-bit words of each frame by its physical address.
pub record Memory : Type 0 where
  pub frames : Frames
  pub words : ℕ → ℕ → ℕ

-- `entry & PTE_PRESENT`
unfoldable pub is_present : ℕ → Bool
is_present entry = entry % 2 == 1

-- `entry & PTE_ADDR_MASK`: bits 12 to 51.
unfoldable pub frame_of : ℕ → ℕ
frame_of entry = entry / 4096 % 2 ^ 40 * 4096

-- `flags & PTE_FLAGS_MASK`, with PTE_PRESENT.
unfoldable pub flags_present : ℕ → ℕ
flags_present flags =
    (if is_present flags then flags % 4096 else flags % 4096 + 1) + flags / 2 ^ 52 * 2 ^ 52

unfoldable pub write_word : ℕ → ℕ → ℕ → (ℕ → ℕ → ℕ) → ℕ → ℕ → ℕ
write_word table index value words t i = if (t == table) && (i == index) then value else words t i

unfoldable pub zero_frame : ℕ → (ℕ → ℕ → ℕ) → ℕ → ℕ → ℕ
zero_frame frame words t i = if t == frame then 0 else words t i

-- Writes an entry of a table.
unfoldable pub set_entry : ℕ → ℕ → ℕ → Memory → Memory
set_entry table index value m = record m { words = write_word table index value m.words }

-- The new frame is zeroed.
abbrev pub zeroed : Memory → Option (ℕ × Frames) → Option (ℕ × Memory)
zeroed m none = none
zeroed m (some (frame, s)) = some (frame, record { frames = s; words = zero_frame frame m.words })

unfoldable pub alloc_zeroed : Memory → Option (ℕ × Memory)
alloc_zeroed m = zeroed m (pmm_alloc_frame m.frames)

unfoldable pub free_frame : ℕ → Memory → Option Memory
free_frame phys m = elim (pmm_free_frame phys m.frames) [
  | none ↦ none
  | some t ↦ some (record m { frames = t })
]

-- The new table is entered as present and writable, `frame | 3`; frame 0 is taken for a failure.
abbrev pub enter_table : ℕ → ℕ → Option (ℕ × Memory) → Option (Option ℕ × Memory)
enter_table table index none = none
enter_table table index (some (frame, m)) =
    if frame == 0 then some (none, m) else some (some frame, set_entry table index (frame + 3) m)

-- The result is the next table, or `none` for NULL.
unfoldable pub vmm_get_next_level : ℕ → ℕ → Bool → Memory → Option (Option ℕ × Memory)
vmm_get_next_level table index allocate_if_needed m =
    if is_present (m.words table index)
    then some (some (frame_of (m.words table index)), m)
    else (if not allocate_if_needed
        then some (none, m)
        else enter_table table index (alloc_zeroed m))

abbrev pub pml4_index : ℕ → ℕ
pml4_index virt_addr = virt_addr / 2 ^ 39 % 512

abbrev pub pdpt_index : ℕ → ℕ
pdpt_index virt_addr = virt_addr / 2 ^ 30 % 512

abbrev pub pd_index : ℕ → ℕ
pd_index virt_addr = virt_addr / 2 ^ 21 % 512

abbrev pub pt_index : ℕ → ℕ
pt_index virt_addr = virt_addr / 2 ^ 12 % 512

-- The test of a call's result, before the rest of the walk; NULL makes the whole call fail.
abbrev pub go_down :
    (ℕ → Memory → Option (Bool × Memory)) → Option (Option ℕ × Memory) → Option (Bool × Memory)
go_down next none = none
go_down next (some (none, m)) = some (false, m)
go_down next (some (some table, m)) = next table m

-- The walk for the indices of the upper levels, down to the page table.
unfoldable pub walk_down :
    List ℕ → ℕ → (ℕ → Memory → Option (Bool × Memory)) → Memory → Option (Bool × Memory)
walk_down [] table last m = last table m
walk_down (i ∷ is) table last m =
    go_down (λ t n. walk_down is t last n) (vmm_get_next_level table i true m)

abbrev pub upper : ℕ → List ℕ
upper virt_addr = pml4_index virt_addr ∷ pdpt_index virt_addr ∷ pd_index virt_addr ∷ []

unfoldable pub vmm_map_page : ℕ → ℕ → ℕ → ℕ → Memory → Option (Bool × Memory)
vmm_map_page pml4_phys virt_addr phys_addr flags m =
    if not (phys_addr % page_size == 0)
    then none
    else (if not (virt_addr % page_size == 0)
        then none
        else walk_down (upper virt_addr) pml4_phys
            (λ pt n. some (
              true,
              set_entry pt (pt_index virt_addr) (frame_of phys_addr + flags_present flags) n,
            ))
            m)

-- Whether none of the first `n` entries is present.
unfoldable pub all_absent : (ℕ → ℕ) → ℕ → Bool
all_absent table zero = true
all_absent table (suc n) = all_absent table n && not (is_present (table n))

unfoldable pub vmm_is_table_empty : ℕ → Memory → Bool
vmm_is_table_empty table m = all_absent (m.words table) 512

-- An entry that the walk has passed, and the table it points to.
pub record Passed : Type 0 where
  pub table : ℕ
  pub index : ℕ
  pub child : ℕ

-- Where the last table passed is empty, its entry is cleared and its frame freed, and so on upwards.
unfoldable pub free_empty : List Passed → Memory → Option Memory
free_empty [] m = some m
free_empty (e ∷ path) m =
    if vmm_is_table_empty e.child m
    then (elim (free_frame (frame_of (m.words e.table e.index)) (set_entry e.table e.index 0 m)) [
      | none ↦ none
      | some n ↦ free_empty path n
    ])
    else some m

abbrev pub with_frame : ℕ → Option Memory → Option (ℕ × Memory)
with_frame phys none = none
with_frame phys (some m) = some (phys, m)

-- The walk that allocates nothing. It gives the mapped frame, or 0; the last entry passed comes first.
unfoldable pub unmap_from : List ℕ → ℕ → List Passed → ℕ → Memory → Option (ℕ × Memory)
unmap_from [] table path index m =
    if not (is_present (m.words table index))
    then some (0, m)
    else with_frame (frame_of (m.words table index)) (free_empty path (set_entry table index 0 m))
unmap_from (i ∷ is) table path index m =
    let child = frame_of (m.words table i) in
    let rest =
      unmap_from is child (record { table = table; index = i; child = child } ∷ path) index m in
    if not (is_present (m.words table i)) then some (0, m) else rest

unfoldable pub vmm_unmap_page : ℕ → ℕ → Memory → Option (ℕ × Memory)
vmm_unmap_page pml4_phys virt_addr m =
    if not (virt_addr % page_size == 0)
    then none
    else unmap_from (upper virt_addr) pml4_phys [] (pt_index virt_addr) m
