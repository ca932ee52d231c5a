-- ===== src/Frames/Release.antt =====
-- pmm_free_frame of kernel/memory.c at a used frame.
use farou_kernel.Base.{
  ℕ, ◌+◌, ◌-◌, ◌*◌, ◌/◌, ◌%◌, ◌≤◌, ◌≡◌, refl, ap, ◌∙◌, true, false, some, ltb, arith, lt→ltb,
  ge→ltb,
}
use farou_kernel.Base.Word.{sub64, sub64_small}
use farou_kernel.Bitmap.{Words, bit, write_bit, bit-write_bit, Filled}
use farou_kernel.Bitmap.Count.{count_true, count_true-le, count_true-lower}
use farou_kernel.Frames.{
  Frames, page_size, pmm_bitmap_write, pmm_bitmap_test, release_frame, pmm_free_frame,
}
use farou_kernel.Frames.Allocate.{Inv}

-- The frame's bit is cleared and no other; the count and the end of the memory are kept.
pub record Freed (s t : Frames) (f : ℕ) : Type 0 where
  pub cleared : Filled s.pmm_bitmap f 1 false t.pmm_bitmap
  pub highest : t.pmm_highest_frame ≡ s.pmm_highest_frame
  pub valid : Inv t

module _ (s : Frames) (v : Inv s) (f : ℕ) (small : f ≤ s.pmm_highest_frame)
    (used : bit s.pmm_bitmap f ≡ true) where
  abbrev clear_bits : Words
  clear_bits = write_bit s.pmm_bitmap (f / 64) (f % 64) false

  clear-Filled : Filled s.pmm_bitmap f 1 false clear_bits
  clear-Filled j = bit-write_bit s.pmm_bitmap f false j ∙ ground arith

  abbrev freed : Frames
  freed = record s { pmm_bitmap = clear_bits; pmm_used_frames = sub64 s.pmm_used_frames 1 }

  inside : ltb (f / 64) s.pmm_bitmap_size_qwords ≡ true
  inside = lt→ltb _ _ (omega (arith, v.covered))

  tested : pmm_bitmap_test f s ≡ some true
  unfolding pmm_bitmap_test
  tested = rw (inside, used) refl

  written : pmm_bitmap_write false f s ≡ some (record s { pmm_bitmap = clear_bits })
  unfolding pmm_bitmap_write
  written = rw inside refl

  released : release_frame f s ≡ some freed
  unfolding release_frame
  released = rw (tested, release_frame) (rw (written, release_frame) refl)

  lowered :
      count_true (bit clear_bits) (s.pmm_highest_frame + 1) + 1
      ≡ count_true (bit s.pmm_bitmap) (s.pmm_highest_frame + 1)
  lowered =
      count_true-lower (bit s.pmm_bitmap) (bit clear_bits) f 1 clear-Filled
        (λ j p q. ap (bit s.pmm_bitmap) (omega arith) ∙ used) (s.pmm_highest_frame + 1)
        (omega arith)

  freed-Freed : Freed s freed f
  freed-Freed =
      let diff : sub64 s.pmm_used_frames 1 ≡ s.pmm_used_frames - 1 =
        sub64_small _ _ (omega (arith, v.counted, lowered)) (
          omega (
            arith,
            v.counted,
            v.addressable,
            count_true-le (bit s.pmm_bitmap) (s.pmm_highest_frame + 1),
          )) in
      record {
        cleared = clear-Filled;
        highest = refl;
        valid = record {
          covered = v.covered;
          addressable = v.addressable;
          hint = v.hint;
          counted = diff ∙ omega (arith, v.counted, lowered);
        };
      }

  pub pmm_free_frame-Freed :
      (t : Frames) × (pmm_free_frame (f * page_size) s ≡ some t) × Freed s t f
  unfolding pmm_free_frame
  pmm_free_frame-Freed =
      let aligned : f * 4096 % 4096 ≡ 0 = omega arith in
      let index : f * 4096 / 4096 ≡ f = omega arith in
      let low : ltb s.pmm_highest_frame f ≡ false = ge→ltb _ _ small in
      (freed, rw (aligned, index, low) released, freed-Freed)
