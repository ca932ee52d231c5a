-- ===== src/Bitmap/Count.antt =====
-- The number of set bits below a bound, and what filling a range does to it.
use farou_kernel.Base.{
  inl, inr, Bool-cases, refl, ℕ, zero, suc, ◌+◌, ◌-◌, ◌≤◌, ◌<◌, ◌≡◌, Bool, true, false, ◌&&◌, min,
  arith, leb, ltb, if◌then◌else◌,
}

abbrev pub weight : Bool → ℕ
weight true = 1
weight false = 0

unfoldable pub count_true : (ℕ → Bool) → ℕ → ℕ
count_true f zero = 0
count_true f (suc n) = weight (f n) + count_true f n

pub count_true-le : (f : ℕ → Bool) (n : ℕ) → count_true f n ≤ n
unfolding count_true
count_true-le f zero = omega arith
count_true-le f (suc n) = ground (arith, count_true-le f n)

pub count_true-lt : (f : ℕ → Bool) (n b : ℕ) → f b ≡ false → b < n → count_true f n < n
unfolding count_true
count_true-lt f zero b e h = elim h [ ]
count_true-lt f (suc n) b e h = elim (Bool-cases (ltb b n)) [
  | inl inside ↦ ground (arith, count_true-lt f n b e)
  | inr last ↦
      let same : b ≡ n = ground arith in
      let off : f n ≡ false = cc in ground (arith, off, count_true-le f n)
]

pub count_true-same :
    (f g : ℕ → Bool) → ((j : ℕ) → g j ≡ f j) → (n : ℕ) → count_true g n ≡ count_true f n
unfolding count_true
count_true-same f g e zero = refl
count_true-same f g e (suc n) = ground (arith, e n, count_true-same f g e n)

-- `g` is `f` with a false range of `c` from `lo` made true.
module _ (f g : ℕ → Bool) (lo c : ℕ) where
  raise :
      ((j : ℕ) → g j ≡ (if leb lo j && ltb j (lo + c) then true else f j))
      → ((j : ℕ) → lo ≤ j → j < lo + c → f j ≡ false)
      → (n : ℕ) → count_true g n ≡ count_true f n + (min n (lo + c) - min n lo)
  unfolding count_true
  raise fill off zero = omega arith
  raise fill off (suc n) = ground (arith, fill n, off n, raise fill off n)

  pub count_true-raise :
      ((j : ℕ) → g j ≡ (if leb lo j && ltb j (lo + c) then true else f j))
      → ((j : ℕ) → lo ≤ j → j < lo + c → f j ≡ false)
      → (n : ℕ) → lo + c ≤ n
      → count_true g n ≡ count_true f n + c
  count_true-raise fill off n h = omega (arith, raise fill off n)

  lower :
      ((j : ℕ) → g j ≡ (if leb lo j && ltb j (lo + c) then false else f j))
      → ((j : ℕ) → lo ≤ j → j < lo + c → f j ≡ true)
      → (n : ℕ) → count_true g n + (min n (lo + c) - min n lo) ≡ count_true f n
  unfolding count_true
  lower fill on zero = omega arith
  lower fill on (suc n) = ground (arith, fill n, on n, lower fill on n)

  pub count_true-lower :
      ((j : ℕ) → g j ≡ (if leb lo j && ltb j (lo + c) then false else f j))
      → ((j : ℕ) → lo ≤ j → j < lo + c → f j ≡ true)
      → (n : ℕ) → lo + c ≤ n
      → count_true g n + c ≡ count_true f n
  count_true-lower fill on n h = omega (arith, lower fill on n)

pub count_true_full : (f : ℕ → Bool) (n : ℕ) → ((j : ℕ) → j < n → f j ≡ true) → count_true f n ≡ n
unfolding count_true
count_true_full f zero e = refl
count_true_full f (suc n) e =
    ground (arith, e n (omega arith), count_true_full f n (λ j p. e j (omega arith)))
