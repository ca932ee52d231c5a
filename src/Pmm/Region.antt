-- ===== src/Pmm/Region.antt =====
-- `pmm_mark_region`: the whole blocks inside a byte range, and the range that holds none.
use farou_kernel.Base.{
  ℕ, ◌+◌, ◌-◌, ◌*◌, ◌/◌, ◌^◌, ◌≤◌, ◌<◌, ◌≡◌, Bool, true, false, not, none, some, arith,
}
use farou_kernel.Base.Word.{add64, sub64, add64_small, sub64_small, align_down}
use farou_kernel.Bitmap.{Words, bit, Filled}
use farou_kernel.Bitmap.Count.{count_true-le, count_true-raise, count_true-lower}
use farou_kernel.Pmm.{State, EndsIn, set_blocks, pmm_mark_region, mark_blocks}
use farou_kernel.Pmm.Blocks.{set_blocks_lem, set_loop_fault}
use farou_kernel.Pmm.Invariant.{Inv}

-- The first whole block at or above `base`, and the number of whole blocks below `base + size`.
abbrev pub first_whole : ℕ → ℕ
first_whole base = (base + 4095) / 4096

abbrev pub whole_blocks : ℕ → ℕ → ℕ
whole_blocks base size = (base + size) / 4096 - first_whole base

-- Every block of the range has the state `b`.
abbrev pub IsAll : Bool → Words → ℕ → ℕ → Type 0
IsAll b w s n = (j : ℕ) → s ≤ j → j < s + n → bit w j ≡ b

module _ (first n : ℕ) (s : State) (v : Inv s) (h : first + n ≤ s.total_blocks) where
  counted_lem :
      (used : Bool)
      → IsAll (not used) s.bitmap first n
      → (w : Words) × (set_blocks first n used s ≡ some (record s { bitmap = w }))
        × Filled s.bitmap first n used w
      → EndsIn (λ t. Filled s.bitmap first n used t.bitmap × Inv t) (mark_blocks first n used s)
  unfolding mark_blocks
  counted_lem true off (w, e, fill) =
      let more = count_true-raise (bit s.bitmap) (bit w) first n fill off s.total_blocks h in
      let le = count_true-le (bit w) s.total_blocks in
      let sum : add64 s.used_blocks n ≡ s.used_blocks + n =
        add64_small _ _ (omega (arith, v.counted, more, le, v.addressable)) in
      rw (e, mark_blocks)
        (
          fill,
          record {
            ready = v.ready;
            covered = v.covered;
            tight = v.tight;
            addressable = v.addressable;
            counted = omega (arith, sum, more, v.counted);
            hint = v.hint;
          },
        )
  counted_lem false on (w, e, fill) =
      let fewer = count_true-lower (bit s.bitmap) (bit w) first n fill on s.total_blocks h in
      let le = count_true-le (bit s.bitmap) s.total_blocks in
      let difference : sub64 s.used_blocks n ≡ s.used_blocks - n =
        sub64_small _ _ (omega (arith, v.counted, fewer))
          (omega (arith, v.counted, le, v.addressable)) in
      rw (e, mark_blocks)
        (
          fill,
          record {
            ready = v.ready;
            covered = v.covered;
            tight = v.tight;
            addressable = v.addressable;
            counted = omega (arith, difference, fewer, v.counted);
            hint = v.hint;
          },
        )

range_lem :
    (base size : ℕ)
    → base + size < 2 ^ 63
    → first_whole base * 4096 ≤ base + size
    → (align_down 4096 (add64 base 4095) / 4096 ≡ first_whole base)
      × (sub64 size (sub64 (align_down 4096 (add64 base 4095)) base) / 4096
          ≡ whole_blocks base size)
unfolding align_down add64 sub64
range_lem base size small h = (omega arith, omega arith)

short_lem :
    (base size : ℕ)
    → base + size < 2 ^ 63
    → base + size < first_whole base * 4096
    → (align_down 4096 (add64 base 4095) / 4096 ≡ first_whole base)
      × (sub64 size (sub64 (align_down 4096 (add64 base 4095)) base) / 4096 ≡ 2 ^ 52 - 1)
unfolding align_down add64 sub64
short_lem base size small h = (omega arith, omega arith)

module _ (base size : ℕ) (used : Bool) (s : State) where
  -- Marking the byte range from `base` on, where its whole blocks lie in the memory and have the
  -- other state, marks exactly these blocks and keeps the invariant. The range must reach the first
  -- block boundary.
  pub pmm_mark_region-Marks :
      Inv s
      → base + size < 2 ^ 63
      → first_whole base * 4096 ≤ base + size
      → (base + size) / 4096 ≤ s.total_blocks
      → IsAll (not used) s.bitmap (first_whole base) (whole_blocks base size)
      → EndsIn
          (λ t. Filled s.bitmap (first_whole base) (whole_blocks base size) used t.bitmap × Inv t)
          (pmm_mark_region base size used s)
  unfolding pmm_mark_region
  pmm_mark_region-Marks v small reach inside other =
      let r = range_lem base size small reach in
      rw (r.0, r.1)
        (counted_lem (first_whole base) (whole_blocks base size) s v (omega arith) used other
          (set_blocks_lem _ _ used s (omega (arith, v.covered)) (omega arith)))

  -- A byte range that ends before the first block boundary holds no whole block, and yet marking it
  -- is a fault: the size of the rest wraps round, and the loop runs off the bitmap.
  pub pmm_mark_region_short :
      Inv s
      → s.total_blocks < 2 ^ 51
      → base + size < 2 ^ 63
      → base + size < first_whole base * 4096
      → pmm_mark_region base size used s ≡ none
  unfolding pmm_mark_region mark_blocks set_blocks
  pmm_mark_region_short v memory small short =
      let (start, blocks) = short_lem base size small short in
      let overrun =
        set_loop_fault s.bitmap_size (first_whole base) (2 ^ 52 - 1) used s.bitmap (omega arith)
          (omega (arith, v.tight)) (omega (arith, v.tight)) in
      rw (start, blocks) (rw (overrun, mark_blocks, set_blocks))
