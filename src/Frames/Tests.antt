-- ===== src/Frames/Tests.antt =====
-- Runs of the frame allocator of kernel/memory.c, and the theorem at such an input.
use farou_kernel.Base.{◌≡◌, refl, none, some, ltb, ◌==◌, ◌||◌, arith}
use farou_kernel.Base.Word.{add64, sub64}
use farou_kernel.Bitmap.{bit}
use farou_kernel.Bitmap.Count.{count_true}
use farou_kernel.Frames.{
  Frames, pmm_alloc_frame, pmm_free_frame, find_frame, find_frames, first_zero,
  pmm_find_first_free_contiguous, pmm_bitmap_test, release_frame,
}
use farou_kernel.Frames.Allocate.{Inv, Allocates, pmm_alloc_frame-Allocates}

-- Four frames, the first two of which are used.
abbrev half : Frames
half = record {
  pmm_bitmap = λ i j. ltb j 2;
  pmm_bitmap_size_qwords = 1;
  pmm_used_frames = 2;
  pmm_highest_frame = 3;
  pmm_last_allocated_index = 0;
}

half-Inv : Inv half
unfolding bit count_true
half-Inv = record {
  covered = omega arith;
  addressable = omega arith;
  hint = omega arith;
  counted = refl;
}

next_free : pmm_find_first_free_contiguous 1 half ≡ some (some 2)
unfolding pmm_find_first_free_contiguous find_frame first_zero
next_free = refl

-- A frame that is free already makes `pmm_free_frame` panic.
freed_twice : pmm_free_frame 8192 half ≡ none
unfolding pmm_free_frame release_frame pmm_bitmap_test bit
freed_twice = refl

-- Four frames of which the first and the last are free, with the hint at the second.
abbrev ends : Frames
ends = record half { pmm_bitmap = λ i j. (j == 1) || (j == 2); pmm_last_allocated_index = 1 }

-- A run is counted on over the end of the memory: for two frames the answer is -1 as a 64-bit number,
-- and no two frames next to each other are free.
wrapped : pmm_find_first_free_contiguous 2 ends ≡ some (some 18446744073709551615)
unfolding pmm_find_first_free_contiguous find_frames pmm_bitmap_test bit add64 sub64
wrapped = refl

pmm_alloc_frame-Allocates_example : Allocates half (pmm_alloc_frame half)
pmm_alloc_frame-Allocates_example = pmm_alloc_frame-Allocates half half-Inv
