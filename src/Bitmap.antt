-- ===== src/Bitmap.antt =====
-- The allocation bitmaps of kernel/arch/x86_64/mm/pmm.c and kernel/memory.c: arrays of 64-bit
-- words, each word held as its bits, lowest first.
pub mod Count
use farou_kernel.Base.{
  ℕ, zero, suc, ◌+◌, ◌*◌, ◌/◌, ◌%◌, ◌≤◌, ◌<◌, ◌≡◌, Bool, true, false, ◌&&◌, arith, leb, ltb, ◌==◌,
  if◌then◌else◌,
}

-- `w i` is the word at index `i`, and `w i j` its bit `j`.
abbrev pub Words : Type 0
Words = ℕ → ℕ → Bool

-- `(w[n / 64] >> (n % 64)) & 1`
unfoldable pub bit : Words → ℕ → Bool
bit w n = w (n / 64) (n % 64)

-- `w[idx] |= 1UL << off` for true, `w[idx] &= ~(1UL << off)` for false.
unfoldable pub write_bit : Words → ℕ → ℕ → Bool → Words
write_bit w idx off b i j = if (i == idx) && (j == off) then b else w i j

pub bit-write_bit :
    (w : Words) (n : ℕ) (b : Bool) (m : ℕ)
    → bit (write_bit w (n / 64) (n % 64) b) m ≡ (if m == n then b else bit w m)
unfolding bit write_bit
bit-write_bit w n b m = ground arith

-- The blocks `s`, …, `s + n - 1` are free.
abbrev pub IsFree : Words → ℕ → ℕ → Type 0
IsFree w s n = (j : ℕ) → s ≤ j → j < s + n → bit w j ≡ false

abbrev pub IsUsed : Words → ℕ → ℕ → Type 0
IsUsed w s n = (j : ℕ) → s ≤ j → j < s + n → bit w j ≡ true

-- `w'` is `w` with the `n` bits from `s` on set to `b`.
abbrev pub Filled : Words → ℕ → ℕ → Bool → Words → Type 0
Filled w s n b w' = (j : ℕ) → bit w' j ≡ (if leb s j && ltb j (s + n) then b else bit w j)
