-- ===== src/Base/Word.antt =====
-- Unsigned 64-bit arithmetic of the sources (`uint64_t`, `size_t`, `uintptr_t`), which wraps.
use Prim.Native.Nat.{ℕ, ◌+◌, ◌-◌, ◌%◌, ◌^◌, ◌<◌, ◌≤◌}
use mathlib.Core.Path.{◌≡◌}
use native.Mathlib.Omega.{arith}

abbrev pub u64_mod : ℕ
u64_mod = 2 ^ 64

unfoldable pub add64 : ℕ → ℕ → ℕ
add64 a b = (a + b) % 2 ^ 64

-- `b` is a 64-bit word, so the difference below is not truncated.
unfoldable pub sub64 : ℕ → ℕ → ℕ
sub64 a b = (a + 2 ^ 64 - b) % 2 ^ 64

-- `x & ~(a - 1)` for `a` a power of two.
unfoldable pub align_down : ℕ → ℕ → ℕ
align_down a x = x - x % a

pub add64_small : (a b : ℕ) → a + b < 2 ^ 64 → add64 a b ≡ a + b
unfolding add64
add64_small a b h = omega arith

pub sub64_small : (a b : ℕ) → b ≤ a → a < 2 ^ 64 → sub64 a b ≡ a - b
unfolding sub64
sub64_small a b h k = omega arith

-- `align_down(x + a - 1, a)`, whose sum wraps.
unfoldable pub align_up : ℕ → ℕ → ℕ
align_up a x = align_down a ((x + a - 1) % 2 ^ 64)
