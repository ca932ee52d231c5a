-- ===== src/Heap/Kmalloc.antt =====
-- `kmalloc` and `kfree` of kernel/memory.c.
use farou_kernel.Base.{
  ℕ, List, [], ◌∷◌, suc, zero, ◌+◌, ◌%◌, Bool, true, false, Option, none, some, leb, ◌==◌,
  if◌then◌else◌,
}
use farou_kernel.Base.Word.{add64, sub64, align_up}
use farou_kernel.Heap.{
  kheap_magic, allocated_magic, kheap_min_alignment, kheap_header_size, Headers, Heap, set_size,
  set_magic, kheap_add_to_free_list, kheap_expand, kheap_coalesce_free_list,
}

-- A call panics, has no rounds left, or returns a pointer, 0 for NULL.
pub data Run : Type 0 where
  panicked : Run
  unfinished : Run
  returned : ℕ → Heap → Run

-- The result of the search: the block found and the list without it.
abbrev pub skip_block : ℕ → Option (Option (ℕ × List ℕ)) → Option (Option (ℕ × List ℕ))
skip_block b none = none
skip_block b (some none) = some none
skip_block b (some (some (block, bs))) = some (some (block, b ∷ bs))

-- First fit; a free block without the magic number is a panic.
unfoldable pub find_fit : ℕ → List ℕ → Headers → Option (Option (ℕ × List ℕ))
find_fit aligned_data_size [] headers = some none
find_fit aligned_data_size (b ∷ bs) headers =
    let rest = find_fit aligned_data_size bs headers in
    if (headers b).magic == kheap_magic
    then (if leb aligned_data_size ((headers b).size)
        then some (some (b, bs))
        else skip_block b rest)
    else none

-- The block's remainder becomes a free block where it has room for a header and 16 bytes.
unfoldable pub split_block : ℕ → ℕ → Heap → Option Heap
split_block current aligned_data_size s =
    let remaining_size = sub64 ((s.headers current).size) aligned_data_size in
    let split_free = add64 (add64 current kheap_header_size) aligned_data_size in
    let split = kheap_add_to_free_list split_free (record s {
      headers =
          set_size current aligned_data_size
            (set_size split_free (sub64 remaining_size kheap_header_size) s.headers);
    }) in
    if leb (kheap_header_size + kheap_min_alignment) remaining_size then split else some s

abbrev pub hand_out : ℕ → Option Heap → Run
hand_out current none = panicked
hand_out current (some s) =
    if add64 current kheap_header_size % kheap_min_alignment == 0
    then returned (add64 current kheap_header_size)
        (record s { headers = set_magic current allocated_magic s.headers })
    else panicked

abbrev pub coalesce_after : Option Heap → Option Heap
coalesce_after none = none
coalesce_after (some s) = kheap_coalesce_free_list s

-- The new region as one free block.
unfoldable pub add_region : ℕ → ℕ → Heap → Option Heap
add_region expansion_start new_region_size t = coalesce_after (
    kheap_add_to_free_list expansion_start (record t {
      headers = set_size expansion_start (sub64 new_region_size kheap_header_size) t.headers;
    }))

abbrev pub retried : (Heap → Run) → Option Heap → Run
retried retry none = panicked
retried retry (some t) = retry t

abbrev pub grown : ℕ → ℕ → (Heap → Run) → Option (Bool × Heap) → Run
grown expansion_start total_block_size_needed retry none = panicked
grown expansion_start total_block_size_needed retry (some (false, t)) = returned 0 t
grown expansion_start total_block_size_needed retry (some (true, t)) =
    if leb total_block_size_needed (sub64 t.kheap_current_break expansion_start)
    then retried retry (add_region expansion_start (sub64 t.kheap_current_break expansion_start) t)
    else panicked

abbrev pub searched : ℕ → (Heap → Run) → Heap → Option (Option (ℕ × List ℕ)) → Run
searched aligned_data_size retry s none = panicked
searched aligned_data_size retry s (some none) =
    grown s.kheap_current_break (add64 kheap_header_size aligned_data_size) retry
      (kheap_expand (add64 kheap_header_size aligned_data_size) s)
searched aligned_data_size retry s (some (some (current, bs))) =
    hand_out current (split_block current aligned_data_size (record s { kheap_free_list = bs }))

-- A call, with the number of calls of itself that it may be nested in.
unfoldable pub kmalloc : ℕ → ℕ → Heap → Run
kmalloc zero size s = unfinished
kmalloc (suc rounds) size s =
    if size == 0
    then returned 0 s
    else searched (align_up kheap_min_alignment size) (λ t. kmalloc rounds size t) s
        (find_fit (align_up kheap_min_alignment size) s.kheap_free_list s.headers)

unfoldable pub kfree : ℕ → Heap → Option Heap
kfree ptr s =
    let block = sub64 ptr kheap_header_size in
    let freed = coalesce_after (kheap_add_to_free_list block s) in
    if ptr == 0
    then some s
    else (if (s.headers block).magic == allocated_magic then freed else none)
