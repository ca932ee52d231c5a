-- ===== src/Pmm/Release.antt =====
-- What `pmm_free_blocks` does on every branch, and that it undoes an allocation.
use farou_kernel.Base.{
  ℕ, ◌+◌, ◌-◌, ◌*◌, ◌/◌, ◌%◌, ◌^◌, ◌≤◌, ◌<◌, ◌≡◌, ◌≢◌, refl, subst, ◌∙◌, true, false, inl, inr,
  Option, none, some, arith, ltb, ◌==◌, if◌then◌else◌, Bool-cases, ge→ltb, ne→==,
}
use farou_kernel.Base.Word.{add64, sub64, add64_small, sub64_small}
use farou_kernel.Bitmap.{Words, bit, IsFree, IsUsed, Filled}
use farou_kernel.Bitmap.Count.{count_true-le, count_true-same, count_true-lower}
use farou_kernel.Pmm.{
  State, EndsIn, set_blocks, release_run, pmm_alloc_blocks, pmm_free_blocks, block_size,
}
use farou_kernel.Pmm.Blocks.{set_blocks_lem, set_loop_fault, FirstRun}
use farou_kernel.Pmm.Invariant.{
  Inv, taken, Allocates, found, full, Allocates-Inv, pmm_alloc_blocks-Allocates,
}

abbrev pub released : State → ℕ → ℕ → Words → State
released s start count w = record s {
  bitmap = w;
  used_blocks = sub64 s.used_blocks count;
  last_free_block = if ltb start s.last_free_block then start else s.last_free_block;
}

pub data Frees (block count : ℕ) (s : State) : Option State → Type 0 where
  freed :
      (w : Words)
      → block / block_size + count ≤ s.total_blocks
      → Filled s.bitmap (block / block_size) count false w
      → Frees block count s (some (released s (block / block_size) count w))
  beyond : s.total_blocks < block / block_size + count → Frees block count s (some s)

module _ (block count : ℕ) (s : State) (v : Inv s) where
  release_run-Frees :
      block / block_size + count ≤ s.total_blocks
      → (w : Words) × (set_blocks (block / block_size) count false s
          ≡ some (record s { bitmap = w }))
        × Filled s.bitmap (block / block_size) count false w
      → Frees block count s (release_run (block / block_size) count s)
  unfolding release_run
  release_run-Frees h (w, e, fill) = rw (e, release_run) (freed w h fill)

  pub pmm_free_blocks-Frees :
      block ≢ 0
      → 0 < count
      → block / block_size + count < 2 ^ 64
      → Frees block count s (pmm_free_blocks block count s)
  unfolding pmm_free_blocks
  pmm_free_blocks-Frees nonnull p small =
      let start : (block == 0) ≡ false = ne→== block 0 nonnull in
      let nonzero : (count == 0) ≡ false = ground arith in
      let sum : add64 (block / 4096) count ≡ block / 4096 + count = add64_small _ _ small in
      elim (Bool-cases (ltb s.total_blocks (block / 4096 + count))) [
        | inl over ↦ simp (start, v.ready, nonzero, sum, over) (beyond (ground arith))
        | inr fits ↦
            simp (start, v.ready, nonzero, sum, fits)
              (release_run-Frees (ground arith)
                (set_blocks_lem _ count false s (ground (arith, v.covered)) small))
      ]

Frees-Inv :
    {block count : ℕ} {s : State} {r : Option State}
    → Inv s
    → IsUsed s.bitmap (block / block_size) count
    → Frees block count s r
    → EndsIn Inv r
Frees-Inv v used (beyond over) = v
Frees-Inv {block} {count} {s} v used (freed w h fill) =
    let fewer =
      count_true-lower (bit s.bitmap) (bit w) (block / 4096) count fill used s.total_blocks h in
    record {
      ready = v.ready;
      covered = v.covered;
      tight = v.tight;
      addressable = v.addressable;
      counted =
          sub64_small s.used_blocks count (omega (arith, v.counted, fewer))
            (omega (arith, v.counted, v.addressable, count_true-le (bit s.bitmap) s.total_blocks))
          ∙ omega (arith, v.counted, fewer);
      hint = ground (arith, v.hint);
    }

-- Freeing a range of used blocks keeps the invariant.
pub pmm_free_blocks-Inv :
    (block count : ℕ) (s : State)
    → Inv s
    → block ≢ 0
    → 0 < count
    → block / block_size + count < 2 ^ 64
    → IsUsed s.bitmap (block / block_size) count
    → EndsIn Inv (pmm_free_blocks block count s)
pmm_free_blocks-Inv block count s v n p small used =
    Frees-Inv v used (pmm_free_blocks-Frees block count s v n p small)

Frees-not-Inv :
    {block count : ℕ} {s : State} {r : Option State}
    → Inv s
    → 0 < count
    → block / block_size + count ≤ s.total_blocks
    → IsFree s.bitmap (block / block_size) count
    → Frees block count s r
    → EndsIn (λ t. ¬ Inv t) r
unfolding sub64
Frees-not-Inv v p h free (beyond over) = absurd (omega arith)
Frees-not-Inv {block} {count} {s} v p h free (freed w _ fill) = λ v'.
    let same : (j : ℕ) → bit w j ≡ bit s.bitmap j = λ j. ground (arith, fill j, free j) in
    omega (
      arith,
      v'.counted,
      v.counted,
      v.addressable,
      count_true-le (bit s.bitmap) s.total_blocks,
      count_true-same (bit s.bitmap) (bit w) same s.total_blocks,
    )

-- A double free is not noticed: freeing blocks that are free already always leaves `used_blocks`
-- out of step with the bitmap.
pub pmm_free_blocks_twice :
    (block count : ℕ) (s : State)
    → Inv s
    → block ≢ 0
    → 0 < count
    → block / block_size + count ≤ s.total_blocks
    → IsFree s.bitmap (block / block_size) count
    → EndsIn (λ t. ¬ Inv t) (pmm_free_blocks block count s)
pmm_free_blocks_twice block count s v n p h free =
    Frees-not-Inv v p h free
      (pmm_free_blocks-Frees block count s v n p (omega (arith, v.addressable)))

-- Freeing what was just allocated gives back the same bitmap and the same count of used blocks, and
-- the next search starts at the freed block.
pub record Restores (s : State) (ptr : ℕ) (u : State) : Type 0 where
  pub bits : (j : ℕ) → bit u.bitmap j ≡ bit s.bitmap j
  pub used : u.used_blocks ≡ s.used_blocks
  pub hint : u.last_free_block ≡ ptr / block_size
  pub total : u.total_blocks ≡ s.total_blocks
  pub inv : Inv u

module _ (count : ℕ) (s : State) (v : Inv s) (p : 0 < count) where
  Frees-Restores :
      {k : ℕ} {w : Words} {r : Option State}
      → FirstRun s.bitmap count s.last_free_block s.total_blocks (some k)
      → Filled s.bitmap (k + 1 - count) count true w
      → Inv (taken s count k w)
      → Frees ((k + 1 - count) * block_size) count (taken s count k w) r
      → EndsIn (Restores s ((k + 1 - count) * block_size)) r
  Frees-Restores run fill v' (beyond over) = absurd (omega (arith, run.0, run.1))
  Frees-Restores {k} {w} run fill v' (freed w' h fill') =
      let start : (k + 1 - count) * 4096 / 4096 ≡ k + 1 - count = omega arith in
      let same : (j : ℕ) → bit w' j ≡ bit s.bitmap j =
        λ j. ground (arith, start, fill' j, fill j, run.2 j) in
      record {
        bits = same;
        used =
            sub64_small (s.used_blocks + count) count (omega arith)
              (omega (arith, v'.counted, v.addressable, count_true-le (bit w) s.total_blocks))
            ∙ omega arith;
        hint = ground (arith, run.0);
        total = refl;
        inv = Frees-Inv v' (λ j a b. ground (arith, start, fill j)) (freed w' h fill');
      }

  Allocates-undo :
      {ptr : ℕ} {t : State}
      → Allocates count s (some (ptr, t))
      → ptr ≢ 0
      → EndsIn (Restores s ptr) (pmm_free_blocks ptr count t)
  Allocates-undo (full run) n = absurd (n refl)
  Allocates-undo (found k w run fill) n =
      let v' : Inv (taken s count k w) = Allocates-Inv v p (found k w run fill) in
      Frees-Restores run fill v' (
        pmm_free_blocks-Frees _ count (taken s count k w) v' n p
          (omega (arith, run.0, run.1, v.addressable)))

  -- Freeing what was just allocated gives back the same bits and the same count of used blocks, and
  -- makes the freed block the start of the next search.
  pub pmm_free_blocks-alloc :
      {ptr : ℕ} {t : State}
      → pmm_alloc_blocks count s ≡ some (ptr, t)
      → ptr ≢ 0
      → EndsIn (Restores s ptr) (pmm_free_blocks ptr count t)
  pmm_free_blocks-alloc e =
      Allocates-undo (subst (Allocates count s) e (pmm_alloc_blocks-Allocates count s v p))

-- The bounds check adds in 64 bits: a count so large that `start + count` wraps into the memory
-- passes it, and the loop runs off the bitmap.
pub pmm_free_blocks_overflow :
    (block count : ℕ) (s : State)
    → Inv s
    → block < 2 ^ 64
    → block ≢ 0
    → 2 ^ 64 ≤ block / block_size + count
    → block / block_size + count ≤ s.total_blocks + 2 ^ 64
    → pmm_free_blocks block count s ≡ none
unfolding pmm_free_blocks release_run set_blocks add64
pmm_free_blocks_overflow block count s v word nonnull wraps back =
    let start : (block == 0) ≡ false = ne→== block 0 nonnull in
    let nonzero : (count == 0) ≡ false = ne→== count 0 (omega arith) in
    let inside : ltb s.total_blocks ((block / 4096 + count) % 2 ^ 64) ≡ false =
      ge→ltb _ _ (omega (arith, v.addressable)) in
    let overrun =
      set_loop_fault s.bitmap_size (block / 4096) count false s.bitmap (omega arith)
        (omega (arith, v.tight, v.addressable)) (omega (arith, v.tight, v.addressable)) in
    simp (start, v.ready, nonzero, inside) (rw (overrun, release_run, set_blocks))
