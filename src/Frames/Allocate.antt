-- ===== src/Frames/Allocate.antt =====
-- What the frame allocator of kernel/memory.c does, and that it counts its frames.
use farou_kernel.Base.{
  ℕ, ◌+◌, ◌*◌, ◌/◌, ◌%◌, ◌^◌, ◌≤◌, ◌<◌, ◌≡◌, refl, ap, ◌∙◌, true, false, Option, none, some, ltb,
  arith, lt→ltb,
}
use farou_kernel.Base.Word.{add64, add64_small}
use farou_kernel.Bitmap.{Words, bit, write_bit, bit-write_bit, Filled}
use farou_kernel.Bitmap.Count.{count_true, count_true-le, count_true-raise}
use farou_kernel.Frames.{
  Frames, page_size, pmm_bitmap_write, pmm_bitmap_test, pmm_find_first_free_contiguous, take_frame,
  pmm_alloc_frame,
}
use farou_kernel.Frames.Search.{FindsAny, find_frame-FindsAny}

-- The bitmap covers the frames, and `pmm_used_frames` is the number of set bits among them.
pub record Inv (s : Frames) : Type 0 where
  pub covered : s.pmm_highest_frame < 64 * s.pmm_bitmap_size_qwords
  pub addressable : s.pmm_highest_frame < 2 ^ 51
  pub hint : s.pmm_last_allocated_index ≤ s.pmm_highest_frame
  pub counted : s.pmm_used_frames ≡ count_true (bit s.pmm_bitmap) (s.pmm_highest_frame + 1)

-- An allocation: it panics, and no frame is free; or it gives a free frame, sets its bit and no other,
-- keeps the end of the memory and the count.
abbrev pub Allocates : Frames → Option (ℕ × Frames) → Type 0
Allocates s none = (f : ℕ) → f ≤ s.pmm_highest_frame → bit s.pmm_bitmap f ≡ true
Allocates s (some (addr, t)) =
    (f : ℕ) × (addr ≡ f * page_size)
    × (f ≤ s.pmm_highest_frame)
    × (bit s.pmm_bitmap f ≡ false)
    × Filled s.pmm_bitmap f 1 true t.pmm_bitmap
    × (t.pmm_highest_frame ≡ s.pmm_highest_frame)
    × Inv t

module _ (s : Frames) (v : Inv s) where
  abbrev set_bits : ℕ → Words
  set_bits f = write_bit s.pmm_bitmap (f / 64) (f % 64) true

  set-Filled : (f : ℕ) → Filled s.pmm_bitmap f 1 true (set_bits f)
  set-Filled f j = bit-write_bit s.pmm_bitmap f true j ∙ ground arith

  abbrev with_bit : ℕ → Frames
  with_bit f = record s { pmm_bitmap = set_bits f }

  tested :
      (f : ℕ)
      → f ≤ s.pmm_highest_frame
      → bit s.pmm_bitmap f ≡ false
      → pmm_bitmap_test f s ≡ some false
  unfolding pmm_bitmap_test
  tested f small free =
      let inside : ltb (f / 64) s.pmm_bitmap_size_qwords ≡ true =
        lt→ltb _ _ (omega (arith, v.covered)) in
      rw (inside, free) refl

  written : (f : ℕ) → f ≤ s.pmm_highest_frame → pmm_bitmap_write true f s ≡ some (with_bit f)
  unfolding pmm_bitmap_write
  written f small =
      let inside : ltb (f / 64) s.pmm_bitmap_size_qwords ≡ true =
        lt→ltb _ _ (omega (arith, v.covered)) in
      rw inside refl

  abbrev after : ℕ → Frames
  after f = record s {
    pmm_bitmap = set_bits f;
    pmm_used_frames = add64 s.pmm_used_frames 1;
    pmm_last_allocated_index = f;
  }

  taken :
      (f : ℕ)
      → pmm_bitmap_test f s ≡ some false
      → pmm_bitmap_write true f s ≡ some (with_bit f)
      → take_frame f s ≡ some (f * page_size % 2 ^ 64, after f)
  unfolding take_frame
  taken f t w = rw (t, take_frame) (rw (w, take_frame) refl)

  take_frame-Allocates :
      (f : ℕ) → f ≤ s.pmm_highest_frame → bit s.pmm_bitmap f ≡ false → Allocates s (take_frame f s)
  take_frame-Allocates f small free =
      let raised =
        count_true-raise (bit s.pmm_bitmap) (bit (set_bits f)) f 1 (set-Filled f)
          (λ j p q. ap (bit s.pmm_bitmap) (omega arith) ∙ free) (s.pmm_highest_frame + 1)
          (omega arith) in
      let sum : add64 s.pmm_used_frames 1 ≡ s.pmm_used_frames + 1 = add64_small _ _ (
        omega (
          arith,
          v.counted,
          v.addressable,
          count_true-le (bit s.pmm_bitmap) (s.pmm_highest_frame + 1),
        )) in
      let address : f * 4096 % 2 ^ 64 ≡ f * 4096 = omega (arith, v.addressable) in
      rw (taken f (tested f small free) (written f small), Allocates)
        (
          f,
          address,
          small,
          free,
          set-Filled f,
          refl,
          record {
            covered = v.covered;
            addressable = v.addressable;
            hint = small;
            counted = sum ∙ omega (arith, v.counted, raised);
          },
        )

  found-Allocates :
      (r : Option ℕ) → FindsAny s r → Allocates s (elim r [ none ↦ none | some f ↦ take_frame f s ])
  found-Allocates none h = h
  found-Allocates (some f) h = take_frame-Allocates f h.0 h.1

  -- `pmm_alloc_frame` panics exactly where no frame in range is free. Else it gives the address of a
  -- free frame, sets its bit and no other, and keeps the count of used frames.
  pub pmm_alloc_frame-Allocates : Allocates s (pmm_alloc_frame s)
  unfolding pmm_alloc_frame pmm_find_first_free_contiguous
  pmm_alloc_frame-Allocates = found-Allocates _ (
      find_frame-FindsAny s (s.pmm_last_allocated_index / 64) (omega (arith, v.covered, v.hint))
        v.covered)
