-- ===== src/Pmm/Tests.antt =====
-- Runs of the block allocator on a memory of four blocks, and the theorems at such inputs.
use farou_kernel.Base.{
  ℕ, ◌+◌, ◌*◌, ◌≡◌, refl, Bool, true, ◌||◌, Option, none, some, arith, ltb, ◌==◌,
}
use farou_kernel.Base.Word.{add64, sub64}
use farou_kernel.Bitmap.{bit, write_bit, Filled}
use farou_kernel.Bitmap.Count.{count_true}
use farou_kernel.Pmm.{
  State, Ends, EndsIn, boot, pmm_init, set_loop, set_blocks, find_run, pmm_alloc_blocks,
  pmm_free_blocks, pmm_mark_region, pmm_alloc_block_aligned,
}
use farou_kernel.Pmm.Invariant.{Inv, Allocates, pmm_init-Inv, pmm_alloc_blocks-Allocates}
use farou_kernel.Pmm.Release.{Restores, pmm_free_blocks-alloc}
use farou_kernel.Pmm.Aligned.{pmm_alloc_block_aligned_lem}
use farou_kernel.Pmm.Region.{pmm_mark_region-Marks}

-- Four blocks of memory; `bits n` says whether block `n` is used.
abbrev memory : (ℕ → Bool) → ℕ → ℕ → State
memory bits used hint = record {
  total_blocks = 4;
  used_blocks = used;
  memory_size = 16384;
  bitmap = λ i j. bits (64 * i + j);
  bitmap_size = 1;
  last_free_block = hint;
  initialized = true;
}

-- Blocks 0 and 3 used, 1 and 2 free.
abbrev two_free : State
two_free = memory (λ n. (n == 0) || ltb 2 n) 2 0

-- The same after the search has moved on to the end.
abbrev two_lost : State
two_lost = memory (λ n. (n == 0) || ltb 2 n) 2 3

abbrev answer : Option (ℕ × State) → Option ℕ
answer none = none
answer (some (p, t)) = some p

two_free-Inv : Inv two_free
unfolding bit count_true
two_free-Inv = record {
  ready = refl;
  covered = omega arith;
  tight = omega arith;
  addressable = omega arith;
  counted = refl;
  hint = omega arith;
}

two_lost-Inv : Inv two_lost
unfolding bit count_true
two_lost-Inv = record {
  ready = refl;
  covered = omega arith;
  tight = omega arith;
  addressable = omega arith;
  counted = refl;
  hint = omega arith;
}

alloc_two : answer (pmm_alloc_blocks 2 two_free) ≡ some 4096
unfolding pmm_alloc_blocks find_run set_blocks set_loop bit write_bit add64 sub64
alloc_two = refl

alloc_three : answer (pmm_alloc_blocks 3 two_free) ≡ some 0
unfolding pmm_alloc_blocks find_run set_blocks set_loop bit write_bit add64 sub64
alloc_three = refl

-- Two blocks at an address that is a multiple of 8192: the first run starts at 4096.
alloc_aligned : answer (pmm_alloc_block_aligned 8192 two_free) ≡ some 0
unfolding pmm_alloc_block_aligned pmm_alloc_blocks pmm_free_blocks find_run set_blocks set_loop bit
    write_bit add64 sub64
alloc_aligned = refl

pmm_init-Inv_example : Inv (pmm_init 16384 boot)
pmm_init-Inv_example = pmm_init-Inv 16384 (omega arith)

pmm_alloc_blocks-Allocates_example : Allocates 2 two_free (pmm_alloc_blocks 2 two_free)
pmm_alloc_blocks-Allocates_example =
    pmm_alloc_blocks-Allocates 2 two_free two_free-Inv (omega arith)

abbrev state_of : Option (ℕ × State) → State
state_of none = two_free
state_of (some (p, t)) = t

pmm_free_blocks-alloc_example :
    EndsIn
      (Restores two_free 4096)
      (pmm_free_blocks 4096 2 (state_of (pmm_alloc_blocks 2 two_free)))
unfolding pmm_alloc_blocks find_run set_blocks set_loop bit write_bit add64 sub64
pmm_free_blocks-alloc_example =
    pmm_free_blocks-alloc 2 two_free two_free-Inv (omega arith) refl (omega arith)

pmm_alloc_block_aligned_lem_example : Ends (λ q u. q ≡ 0) (pmm_alloc_block_aligned 8192 two_free)
unfolding pmm_alloc_blocks find_run set_blocks set_loop bit write_bit add64 sub64
pmm_alloc_block_aligned_lem_example =
    pmm_alloc_block_aligned_lem 2 (omega arith) {ptr = 4096}
      {t = state_of (pmm_alloc_blocks 2 two_free)} two_free two_free-Inv refl

pmm_mark_region-Marks_example :
    EndsIn
      (λ t. Filled two_free.bitmap 1 1 true t.bitmap × Inv t)
      (pmm_mark_region 4000 5000 true two_free)
unfolding bit
pmm_mark_region-Marks_example =
    pmm_mark_region-Marks 4000 5000 true two_free two_free-Inv (omega arith) (omega arith)
      (omega arith) (λ j p q. ground arith)
