-- ===== src/Pmm/Blocks.antt =====
-- The loops of pmm.c: `set_blocks` fills a range of the bitmap, the search finds the first run.
use farou_kernel.Base.{
  ℕ, zero, suc, ◌+◌, ◌-◌, ◌*◌, ◌/◌, ◌%◌, ◌^◌, ◌≤◌, ◌<◌, ◌≡◌, refl, Bool, true, false, inl, inr,
  Option, none, some, arith, ltb, ◌==◌, Bool-cases, lt→ltb,
}
use farou_kernel.Base.Word.{add64, add64_small}
use farou_kernel.Bitmap.{Words, bit, write_bit, bit-write_bit, IsFree, Filled}
use farou_kernel.Pmm.{State, set_loop, set_blocks, find_run}

abbrev Fills : ℕ → ℕ → ℕ → Bool → Words → Type 0
Fills size block count used w =
    (w' : Words) × (set_loop size block count used w ≡ some w') × Filled w block count used w'

set_loop_step :
    (size block n : ℕ) (used : Bool) (w : Words)
    → block < 64 * size
    → block + 1 < 2 ^ 64
    → Fills size (block + 1) n used (write_bit w (block / 64) (block % 64) used)
    → Fills size block (suc n) used w
unfolding set_loop
set_loop_step size block n used w h k (w', e, fill) =
    let one : add64 block 1 ≡ block + 1 = add64_small block 1 k in
    let inside : ltb (block / 64) size ≡ true = lt→ltb _ _ (omega arith) in
    (w', rw (inside, one) e, λ j. ground (arith, fill j, bit-write_bit w block used j))

pub set_loop_lem :
    (size block count : ℕ) (used : Bool) (w : Words)
    → block + count ≤ 64 * size
    → block + count < 2 ^ 64
    → Fills size block count used w
unfolding set_loop
set_loop_lem size block zero used w h k = (w, refl, λ j. ground arith)
set_loop_lem size block (suc n) used w h k =
    set_loop_step size block n used w (omega arith) (omega arith)
      (set_loop_lem size (block + 1) n used _ (omega arith) (omega arith))

pub set_blocks_lem :
    (block count : ℕ) (used : Bool) (s : State)
    → block + count ≤ 64 * s.bitmap_size
    → block + count < 2 ^ 64
    → (w : Words) × (set_blocks block count used s ≡ some (record s { bitmap = w }))
      × Filled s.bitmap block count used w
unfolding set_blocks
set_blocks_lem block count used s h k =
    go (set_loop_lem s.bitmap_size block count used s.bitmap h k)
  where
    go :
        Fills s.bitmap_size block count used s.bitmap
        → (w : Words) × (set_blocks block count used s ≡ some (record s { bitmap = w }))
          × Filled s.bitmap block count used w
    go (w, e, fill) = (w, rw (e, set_blocks), fill)

-- A range that ends beyond the bitmap is a fault.
pub set_loop_fault :
    (size block count : ℕ) (used : Bool) (w : Words)
    → 0 < count
    → 64 * size < block + count
    → 64 * size < 2 ^ 64
    → set_loop size block count used w ≡ none
unfolding set_loop
set_loop_fault size block zero used w p h k = elim p [ ]
set_loop_fault size block (suc n) used w p h k = elim (Bool-cases (ltb (block / 64) size)) [
  | inl inside ↦
      let one : add64 block 1 ≡ block + 1 = add64_small block 1 (ground arith) in
      rw (inside, one) (set_loop_fault size (block + 1) n used _ (ground arith) (omega arith) k)
  | inr outside ↦ rw outside
]

-- What a search among the blocks `lo`, …, `hi - 1` must answer: the last block of the first run of
-- `count` free blocks, or `none` where there is no such run.
abbrev pub FirstRun : Words → ℕ → ℕ → ℕ → Option ℕ → Type 0
FirstRun w count lo hi none = (s : ℕ) → lo ≤ s → s + count ≤ hi → ¬ IsFree w s count
FirstRun w count lo hi (some k) =
    (lo + count ≤ k + 1)
    × (k < hi)
    × IsFree w (k + 1 - count) count
    × ((s : ℕ) → lo ≤ s → s + count ≤ k → ¬ IsFree w s count)

FirstRun-later :
    (w : Words) (count lo lo' hi : ℕ) (r : Option ℕ)
    → lo ≤ lo'
    → ((s : ℕ) → lo ≤ s → s < lo' → ¬ IsFree w s count)
    → FirstRun w count lo' hi r
    → FirstRun w count lo hi r
FirstRun-later w count lo lo' hi none h early later = λ s p q free. elim (Bool-cases (ltb s lo')) [
  | inl b ↦ early s p (ground arith) free
  | inr b ↦ later s (ground arith) q free
]
FirstRun-later w count lo lo' hi (some k) h early (p0, p1, p2, later) = (
  omega arith,
  p1,
  p2,
  λ s p q free. elim (Bool-cases (ltb s lo')) [
    | inl b ↦ early s p (ground arith) free
    | inr b ↦ later s (ground arith) q free
  ],
)

IsFree-extend :
    (w : Words) (lo c i : ℕ) → lo + c ≡ i → IsFree w lo c → bit w i ≡ false → IsFree w lo (c + 1)
IsFree-extend w lo c i e free unused j p q = ground (arith, free j)

-- The run that the loop has in hand, `c` blocks long, ends before block `i`.
pub find_run_lem :
    (count rounds i c lo hi : ℕ) (w : Words)
    → c < count
    → lo + c ≡ i
    → i + rounds ≡ hi
    → IsFree w lo c
    → FirstRun w count lo hi (find_run count rounds i c w)
unfolding find_run
find_run_lem count zero i c lo hi w h e e' free = λ s p q f. absurd (omega arith)
find_run_lem count (suc rounds) i c lo hi w h e e' free = elim (Bool-cases (bit w i)) [
  | inl used ↦ rw used (
      FirstRun-later w count lo (i + 1) hi _ (omega arith) (λ s p q f. ground (arith, f i))
        (find_run_lem count rounds (i + 1) 0 (i + 1) hi w (omega arith) (omega arith) (omega arith)
          (λ j p q. absurd (omega arith))))
  | inr unused ↦ elim (Bool-cases (c + 1 == count)) [
    | inl full ↦
        rw (unused, full)
          (
            ground arith,
            omega arith,
            λ j p q. ground (arith, IsFree-extend w lo c i e free unused j),
            λ s p q f. absurd (ground arith),
          )
    | inr more ↦
        rw (unused, more)
          (find_run_lem count rounds (i + 1) (c + 1) lo hi w (ground arith) (omega arith)
            (omega arith) (IsFree-extend w lo c i e free unused))
  ]
]
