-- ===== src/Heap/Tests.antt =====
-- Runs of the kernel heap of kernel/memory.c, and the theorems at such inputs.
use farou_kernel.Base.{
  ℕ, [], ◌∷◌, ◌+◌, ◌-◌, ◌^◌, ◌≡◌, refl, true, none, some, arith, ◌==◌, if◌then◌else◌, Option, inl,
  Bool,
}
use farou_kernel.Base.Word.{add64, sub64, align_up, align_down}
use farou_kernel.Vmm.{Memory}
use farou_kernel.Heap.{
  Heap, kheap_magic, allocated_magic, kernel_heap_start, kheap_expand, map_pages,
  kheap_add_to_free_list, write_header,
}
use farou_kernel.Heap.Kmalloc.{
  Run, returned, panicked, unfinished, kmalloc, kfree, find_fit, split_block,
}
use farou_kernel.Heap.Invariant.{IsHeap, Frees, kfree-Frees}
use farou_kernel.Heap.Alloc.{Mallocs, kmalloc-Mallocs}
use farou_kernel.Heap.RoundTrip.{GivesBack, kfree-kmalloc}

abbrev no_frames : Memory
no_frames = record {
  frames = record {
    pmm_bitmap = λ i j. true;
    pmm_bitmap_size_qwords = 1;
    pmm_used_frames = 8;
    pmm_highest_frame = 7;
    pmm_last_allocated_index = 0;
  };
  words = λ t i. 0;
}

-- One page: a block of 64 bytes that is handed out, and the rest free.
abbrev free_at : ℕ
free_at = kernel_heap_start + 96

abbrev one_page : Heap
one_page = record {
  headers = λ b.
      if b == free_at
      then record { size = 3968; magic = kheap_magic }
      else record { size = 64; magic = allocated_magic };
  kheap_free_list = free_at ∷ [];
  kheap_current_break = kernel_heap_start + 4096;
  memory = no_frames;
  pml4_phys = 4096;
}

one_page-IsHeap : IsHeap one_page (kernel_heap_start ∷ []) 0
one_page-IsHeap = record {
  order = (omega arith, record { aligned = refl; whole = refl; marked = refl }, omega arith);
  handed_out = (
    record { aligned = refl; whole = refl; marked = refl },
    omega arith,
    omega arith,
    (inl (omega arith), omega arith),
    omega arith,
    omega arith,
  );
  bounded = omega arith;
  paged = refl;
  accounted = refl;
}

abbrev pointer_of : Run → ℕ
pointer_of panicked = 1
pointer_of unfinished = 2
pointer_of (returned p t) = p

abbrev size_at : ℕ → Run → ℕ
size_at b panicked = 1
size_at b unfinished = 2
size_at b (returned p t) = (t.headers b).size

first_call : pointer_of (kmalloc 1 100 one_page) ≡ free_at + 32
unfolding kmalloc find_fit align_up align_down split_block add64 sub64 kheap_add_to_free_list
first_call = refl

-- A size near 2^64 is rounded up to 0: the pointer given has no bytes behind it.
no_bytes : size_at free_at (kmalloc 1 (2 ^ 64 - 1) one_page) ≡ 0
unfolding kmalloc find_fit align_up align_down split_block add64 sub64 kheap_add_to_free_list
    write_header
no_bytes = refl

abbrev break_after : Option (Bool × Heap) → ℕ
break_after none = 0
break_after (some (b, t)) = t.kheap_current_break

-- An expansion by nearly 2^64 bytes wraps: it succeeds, and the break is a page lower.
wrapped : break_after (kheap_expand (2 ^ 64 - 4096) one_page) ≡ kernel_heap_start
unfolding kheap_expand map_pages align_up align_down add64
wrapped = refl

kmalloc-Mallocs_example : Mallocs one_page (kernel_heap_start ∷ []) 0 100 (kmalloc 2 100 one_page)
kmalloc-Mallocs_example =
    kmalloc-Mallocs one_page (kernel_heap_start ∷ []) 0 100 0 one_page-IsHeap (omega arith)

kfree-Frees_example : Frees [] 0 (kfree (kernel_heap_start + 32) one_page)
kfree-Frees_example = kfree-Frees one_page [] [] kernel_heap_start 0 one_page-IsHeap

kfree-kmalloc_example : GivesBack one_page (kernel_heap_start ∷ []) 0 100 (kmalloc 2 100 one_page)
kfree-kmalloc_example =
    kfree-kmalloc one_page (kernel_heap_start ∷ []) 0 100 0 one_page-IsHeap (omega arith)
