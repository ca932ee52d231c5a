-- ===== src/Pmm/Invariant.antt =====
-- The invariant of the block allocator, initialisation, and what `pmm_alloc_blocks` does on every
-- branch.
use farou_kernel.Base.{
  ℕ, zero, suc, ◌+◌, ◌-◌, ◌*◌, ◌/◌, ◌%◌, ◌^◌, ◌≤◌, ◌<◌, ◌≡◌, refl, true, false, Option, none, some,
  arith, ◌==◌,
}
use farou_kernel.Base.Word.{add64, sub64, add64_small}
use farou_kernel.Bitmap.{Words, bit, IsUsed, Filled}
use farou_kernel.Bitmap.Count.{count_true, count_true-le, count_true-lt, count_true-raise}
use farou_kernel.Pmm.{
  State, boot, pmm_init, Ends, pmm_alloc_block, set_blocks, claim_run, take_run, pmm_alloc_blocks,
  block_size,
}
use farou_kernel.Pmm.Blocks.{set_blocks_lem, FirstRun, find_run_lem}

abbrev pub used_bits : State → ℕ
used_bits s = count_true (bit s.bitmap) s.total_blocks

pub record Inv (s : State) : Type 0 where
  pub ready : s.initialized ≡ true
  pub covered : s.total_blocks ≤ 64 * s.bitmap_size
  pub tight : 64 * s.bitmap_size < s.total_blocks + 64
  pub addressable : s.total_blocks ≤ 2 ^ 52
  pub counted : s.used_blocks ≡ used_bits s
  pub hint : s.last_free_block ≤ s.total_blocks

count_true_all : (n : ℕ) → count_true (λ j. true) n ≡ n
unfolding count_true
count_true_all zero = refl
count_true_all (suc n) = omega (arith, count_true_all n)

pub pmm_init-Inv : (mem_size : ℕ) → mem_size < 2 ^ 64 → Inv (pmm_init mem_size boot)
unfolding pmm_init boot bit add64
pmm_init-Inv mem_size h = record {
  ready = refl;
  covered = omega arith;
  tight = omega arith;
  addressable = omega arith;
  counted = omega (arith, count_true_all (mem_size / 4096));
  hint = omega arith;
}

-- The state after the run that ends with block `k` is taken.
abbrev pub taken : State → ℕ → ℕ → Words → State
taken s count k w = record s {
  bitmap = w;
  used_blocks = s.used_blocks + count;
  last_free_block = k + 1;
}

pub data Allocates (count : ℕ) (s : State) : Option (ℕ × State) → Type 0 where
  found :
      (k : ℕ) (w : Words)
      → FirstRun s.bitmap count s.last_free_block s.total_blocks (some k)
      → Filled s.bitmap (k + 1 - count) count true w
      → Allocates count s (some ((k + 1 - count) * block_size, taken s count k w))
  full :
      FirstRun s.bitmap count s.last_free_block s.total_blocks none
      → Allocates count s (some (0, s))

first_block_lem :
    (k count : ℕ) → count ≤ k + 1 → k < 2 ^ 52 → add64 (sub64 k count) 1 ≡ k + 1 - count
unfolding add64 sub64
first_block_lem k count h small = omega arith

module _ (count : ℕ) (s : State) (v : Inv s) (p : 0 < count) where
  claim_run-Allocates :
      (k : ℕ)
      → FirstRun s.bitmap count s.last_free_block s.total_blocks (some k)
      → (w : Words) × (set_blocks (k + 1 - count) count true s ≡ some (record s { bitmap = w }))
        × Filled s.bitmap (k + 1 - count) count true w
      → Allocates count s (claim_run count (k + 1 - count) k s)
  unfolding claim_run
  claim_run-Allocates k run (w, e, fill) =
      let sum : add64 s.used_blocks count ≡ s.used_blocks + count = add64_small _ _ (
        omega (
          arith,
          v.counted,
          v.addressable,
          run.0,
          run.1,
          count_true-le (bit s.bitmap) s.total_blocks,
        )) in
      let address : (k + 1 - count) * 4096 % 2 ^ 64 ≡ (k + 1 - count) * 4096 =
        omega (arith, run.1, v.addressable) in
      rw (e, claim_run) (simp (sum, address) (found k w run fill))

  take_run-Allocates :
      (k : ℕ)
      → FirstRun s.bitmap count s.last_free_block s.total_blocks (some k)
      → Allocates count s (take_run count k s)
  unfolding take_run
  take_run-Allocates k run =
      rw (first_block_lem k count (omega (arith, run.0)) (omega (arith, run.1, v.addressable))) (
        claim_run-Allocates k run (
          set_blocks_lem (k + 1 - count) count true s (omega (arith, run.0, run.1, v.covered))
            (omega (arith, run.0, run.1, v.addressable))))

  finish-Allocates :
      (r : Option ℕ)
      → FirstRun s.bitmap count s.last_free_block s.total_blocks r
      → Allocates count s (elim r [ none ↦ some (0, s) | some i ↦ take_run count i s ])
  finish-Allocates none run = full run
  finish-Allocates (some k) run = take_run-Allocates k run

  -- On a valid allocator a request for some blocks never faults. It takes the first run of free
  -- blocks at or above `last_free_block` and gives its address, which is 0 for a run from block 0; where there is
  -- no run it gives NULL and changes nothing.
  pub pmm_alloc_blocks-Allocates : Allocates count s (pmm_alloc_blocks count s)
  unfolding pmm_alloc_blocks
  pmm_alloc_blocks-Allocates =
      let nonzero : (count == 0) ≡ false = ground arith in
      simp (v.ready, nonzero)
        (finish-Allocates _ (
          find_run_lem count (s.total_blocks - s.last_free_block) s.last_free_block 0
            s.last_free_block s.total_blocks s.bitmap p (omega arith) (omega (arith, v.hint))
            (λ j p q. absurd (omega arith))))

pub Allocates-Inv :
    {count : ℕ} {s : State} {r : Option (ℕ × State)}
    → Inv s
    → 0 < count
    → Allocates count s r
    → Ends (λ p t. Inv t) r
Allocates-Inv v p (full run) = v
Allocates-Inv {count} {s} v p (found k w run fill) = record {
  ready = v.ready;
  covered = v.covered;
  tight = v.tight;
  addressable = v.addressable;
  counted = omega (
    arith,
    v.counted,
    count_true-raise (bit s.bitmap) (bit w) (k + 1 - count) count fill run.2 s.total_blocks
        (omega (arith, run.0, run.1)),
  );
  hint = omega (arith, run.1);
}

-- Allocation keeps the invariant: `used_blocks` stays the number of set bits.
pub pmm_alloc_blocks-Inv :
    (count : ℕ) (s : State) → Inv s → 0 < count → Ends (λ p t. Inv t) (pmm_alloc_blocks count s)
pmm_alloc_blocks-Inv count s v p = Allocates-Inv v p (pmm_alloc_blocks-Allocates count s v p)

Allocates-lost :
    {s : State} {r : Option (ℕ × State)}
    → IsUsed s.bitmap s.last_free_block (s.total_blocks - s.last_free_block)
    → Allocates 1 s r
    → r ≡ some (0, s)
Allocates-lost used (full run) = refl
Allocates-lost used (found k w run fill) = absurd (ground (arith, run.0, run.1, run.2 k, used k))

-- The search does not wrap round: where the blocks from `last_free_block` on are used and a block
-- below it is free, `pmm_alloc_block` answers NULL although `used_blocks` is below the total.
pub pmm_alloc_block_lost :
    (s : State) (b : ℕ)
    → Inv s
    → bit s.bitmap b ≡ false
    → b < s.last_free_block
    → IsUsed s.bitmap s.last_free_block (s.total_blocks - s.last_free_block)
    → (pmm_alloc_block s ≡ some (0, s)) × (s.used_blocks < s.total_blocks)
unfolding pmm_alloc_block
pmm_alloc_block_lost s b v free below used = (
  Allocates-lost used (pmm_alloc_blocks-Allocates 1 s v (omega arith)),
  omega (
    arith,
    v.counted,
    count_true-lt (bit s.bitmap) s.total_blocks b free (omega (arith, v.hint)),
  ),
)
