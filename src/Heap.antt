-- ===== src/Heap.antt =====
-- The kernel heap of kernel/memory.c: `kmalloc` and `kfree`.
-- `none` stands for `kpanic`, which a failed assertion calls. The lock is held through each body. The
-- headers are kept by address; the chain of `next_free` is the list of the headers it passes.
pub mod Kmalloc
pub mod Layout
pub mod Insert
pub mod Coalesce
pub mod Fit
pub mod Merge
pub mod Invariant
pub mod Carve
pub mod Split
pub mod Expand
pub mod Region
pub mod Alloc
pub mod RoundTrip
mod Tests
use farou_kernel.Base.{
  ℕ, List, [], ◌∷◌, suc, zero, ◌+◌, ◌-◌, ◌*◌, ◌/◌, ◌%◌, ◌^◌, Bool, true, false, not, ◌&&◌, Option,
  none, some, ltb, leb, ◌==◌, if◌then◌else◌,
}
use farou_kernel.Base.Word.{add64, sub64, align_up}
use farou_kernel.Frames.{page_size}
use farou_kernel.Vmm.{Memory, alloc_zeroed, free_frame, vmm_map_page}

abbrev pub kheap_magic : ℕ
kheap_magic = 16045690984503098046

-- `~KHEAP_MAGIC`
abbrev pub allocated_magic : ℕ
allocated_magic = 18446744073709551615 - kheap_magic

abbrev pub kernel_heap_start : ℕ
kernel_heap_start = 18446603337294938112

abbrev pub kernel_heap_max_size : ℕ
kernel_heap_max_size = page_size * 1024 * 16

abbrev pub kheap_max_break : ℕ
kheap_max_break = kernel_heap_start + kernel_heap_max_size

abbrev pub kheap_min_alignment : ℕ
kheap_min_alignment = 16

abbrev pub kheap_header_size : ℕ
kheap_header_size = 32

pub record Header : Type 0 where
  pub size : ℕ
  pub magic : ℕ

abbrev pub Headers : Type 0
Headers = ℕ → Header

-- The static variables of the heap, with the kernel's page tables.
pub record Heap : Type 0 where
  pub headers : Headers
  pub kheap_free_list : List ℕ
  pub kheap_current_break : ℕ
  pub memory : Memory
  pub pml4_phys : ℕ

unfoldable pub write_header : ℕ → Header → Headers → Headers
write_header block v headers b = if b == block then v else headers b

abbrev pub set_size : ℕ → ℕ → Headers → Headers
set_size block size headers = write_header block (record (headers block) { size = size }) headers

abbrev pub set_magic : ℕ → ℕ → Headers → Headers
set_magic block magic headers =
    write_header block (record (headers block) { magic = magic }) headers

-- Before the first header that is not below the block.
unfoldable pub insert_after : ℕ → List ℕ → List ℕ
insert_after block [] = block ∷ []
insert_after block (b ∷ bs) =
    let rest = insert_after block bs in if ltb b block then b ∷ rest else block ∷ b ∷ bs

unfoldable pub insert_block : ℕ → List ℕ → List ℕ
insert_block block [] = block ∷ []
insert_block block (b ∷ bs) = if ltb block b then block ∷ b ∷ bs else b ∷ insert_after block bs

unfoldable pub kheap_add_to_free_list : ℕ → Heap → Option Heap
kheap_add_to_free_list block s =
    if block % kheap_min_alignment == 0
    then some (record s {
      headers = set_magic block kheap_magic s.headers;
      kheap_free_list = insert_block block s.kheap_free_list;
    })
    else none

-- What is left of a step that maps one page: a failure ends the loop and keeps the break at the page.
abbrev pub give_up : ℕ → Heap → Option Memory → Option (Bool × Heap)
give_up addr s none = none
give_up addr s (some m) = some (false, record s { kheap_current_break = addr; memory = m })

abbrev pub page_mapped :
    ℕ → ℕ → Heap → (Heap → Option (Bool × Heap)) → Option (Bool × Memory) → Option (Bool × Heap)
page_mapped addr phys_frame s next none = none
page_mapped addr phys_frame s next (some (false, m)) = give_up addr s (free_frame phys_frame m)
page_mapped addr phys_frame s next (some (true, m)) = next (record s { memory = m })

-- PTE_WRITE | PTE_NX
abbrev pub heap_flags : ℕ
heap_flags = 2 + 2 ^ 63

abbrev pub frame_given :
    ℕ → Heap → (Heap → Option (Bool × Heap)) → Option (ℕ × Memory) → Option (Bool × Heap)
frame_given addr s next none = none
frame_given addr s next (some (phys_frame, m)) =
    if phys_frame == 0
    then give_up addr s (some m)
    else page_mapped addr phys_frame s next (vmm_map_page s.pml4_phys addr phys_frame heap_flags m)

-- The loop over the pages, `rounds` pages before its end.
unfoldable pub map_pages : ℕ → ℕ → Heap → Option (Bool × Heap)
map_pages zero addr s = some (true, s)
map_pages (suc rounds) addr s =
    frame_given addr s (λ t. map_pages rounds (addr + page_size) t) (alloc_zeroed s.memory)

abbrev pub expanded : ℕ → Option (Bool × Heap) → Option (Bool × Heap)
expanded new_break none = none
expanded new_break (some (false, s)) = some (false, s)
expanded new_break (some (true, s)) = some (true, record s { kheap_current_break = new_break })

-- The loop runs from the old break in pages below the new one, and not at all where that is lower.
unfoldable pub kheap_expand : ℕ → Heap → Option (Bool × Heap)
kheap_expand bytes_needed s =
    let new_break = add64 s.kheap_current_break (align_up page_size bytes_needed) in
    if ltb kheap_max_break new_break
    then some (false, s)
    else expanded new_break
        (map_pages ((new_break - s.kheap_current_break + 4095) / page_size) s.kheap_current_break s)

-- The end of a block's data.
abbrev pub block_end : Headers → ℕ → ℕ
block_end headers block = add64 (add64 block kheap_header_size) ((headers block).size)

-- The block takes over the next one, header and data.
abbrev pub absorb : ℕ → ℕ → Headers → Headers
absorb block next headers =
    set_size block (add64 ((headers block).size) (add64 kheap_header_size ((headers next).size)))
      headers

abbrev pub with_first : ℕ → Option (List ℕ × Headers) → Option (List ℕ × Headers)
with_first block none = none
with_first block (some (bs, headers)) = some (block ∷ bs, headers)

-- The loop from a block on: the list from there and the headers.
unfoldable pub coalesce_from : ℕ → List ℕ → Headers → Option (List ℕ × Headers)
coalesce_from current [] headers = some (current ∷ [], headers)
coalesce_from current (next ∷ bs) headers =
    if not (((headers current).magic == kheap_magic) && ((headers next).magic == kheap_magic))
    then none
    else (elim (block_end headers current == next) [
      | true ↦ coalesce_from current bs (absorb current next headers)
      | false ↦ with_first current (coalesce_from next bs headers)
    ])

abbrev pub coalesced : Heap → Option (List ℕ × Headers) → Option Heap
coalesced s none = none
coalesced s (some (bs, headers)) = some (record s { headers = headers; kheap_free_list = bs })

abbrev pub coalesce_list : List ℕ → Headers → Option (List ℕ × Headers)
coalesce_list [] headers = some ([], headers)
coalesce_list (b ∷ bs) headers = coalesce_from b bs headers

unfoldable pub kheap_coalesce_free_list : Heap → Option Heap
kheap_coalesce_free_list s = coalesced s (coalesce_list s.kheap_free_list s.headers)
