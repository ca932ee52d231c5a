-- ===== src/Pmm/Aligned.antt =====
-- `pmm_alloc_block_aligned`: its three attempts all find the same run, so it returns the address of
-- the first run of free blocks if that is aligned, and NULL otherwise.
use farou_kernel.Base.{
  ℕ, zero, suc, ◌+◌, ◌-◌, ◌*◌, ◌/◌, ◌%◌, ◌<◌, ◌≡◌, ◌≢◌, refl, subst, ap, true, inl, inr, Option,
  none, some, arith, ltb, ◌==◌, if◌then◌else◌, Bool-cases, ==_iff, lt→ltb, ne→==,
}
use native.Mathlib.Nat.{zero-mod}
use farou_kernel.Bitmap.{Words, bit}
use farou_kernel.Pmm.{
  State, Ends, EndsIn, pmm_alloc_blocks, attempt, pmm_alloc_block_aligned, block_size,
}
use farou_kernel.Pmm.Blocks.{FirstRun}
use farou_kernel.Pmm.Invariant.{Inv, taken, Allocates, found, full, pmm_alloc_blocks-Allocates}
use farou_kernel.Pmm.Release.{Restores, pmm_free_blocks-alloc}

-- The first run is unique, also when the search starts at the run itself.
FirstRun-restart :
    (w w' : Words) (count lo lo' hi hi' k k' : ℕ)
    → ((j : ℕ) → bit w' j ≡ bit w j)
    → lo' ≡ k + 1 - count
    → hi' ≡ hi
    → FirstRun w count lo hi (some k)
    → FirstRun w' count lo' hi' (some k')
    → k' ≡ k
FirstRun-restart w w' count lo lo' hi hi' k k' same start end (a, b, free, first)
      (a', b', free', first') =
    elim (Bool-cases (ltb k k')) [
      | inl later ↦ absurd (
          first' (k + 1 - count) (ground arith) (ground arith)
            (λ j p q. ground (arith, same j, free j)))
      | inr soon ↦ ground arith
    ]

-- The allocator answers `ptr`, with some new state.
abbrev Gives : ℕ → ℕ → State → Type 0
Gives count ptr s = (t : State) × (pmm_alloc_blocks count s ≡ some (ptr, t))

module _ (count : ℕ) (p : 0 < count) where
  Restores-Gives :
      {ptr : ℕ} {s t u : State} {r : Option (ℕ × State)}
      → ptr ≢ 0
      → Restores s ptr u
      → Allocates count s (some (ptr, t))
      → Allocates count u r
      → (t' : State) × (r ≡ some (ptr, t'))
  Restores-Gives n back (full run) again = absurd (n refl)
  Restores-Gives {s} {u} n back (found k w run fill) (full none') = absurd (
      none' (k + 1 - count) (omega (arith, back.hint)) (omega (arith, back.total, run.0, run.1))
        (λ j p q. ground (arith, back.bits j, run.2 j)))
  Restores-Gives {s} {u} n back (found k w run fill) (found k' w' run' fill') =
      let same : k' ≡ k =
        FirstRun-restart s.bitmap u.bitmap count s.last_free_block u.last_free_block s.total_blocks
          u.total_blocks k k' back.bits (omega (arith, back.hint)) back.total run run' in
      (
        taken u count k' w',
        ap (λ (x : ℕ). some ((x + 1 - count) * block_size, taken u count k' w')) same,
      )

  retry :
      {ptr : ℕ} {s t u : State}
      → Inv s
      → ptr ≢ 0
      → pmm_alloc_blocks count s ≡ some (ptr, t)
      → Restores s ptr u
      → Gives count ptr u
  retry {s} {u} v n e back =
      Restores-Gives n back (subst (Allocates count s) e (pmm_alloc_blocks-Allocates count s v p))
        (pmm_alloc_blocks-Allocates count u back.inv p)

EndsIn-then :
    {A : Type 0} {P : State → Type 0} (Q : A → State → Type 0) (k : State → Option (A × State))
    (r : Option State)
    → EndsIn P r
    → ((u : State) → P u → Ends Q (k u))
    → Ends Q (elim r [ none ↦ none | some u ↦ k u ])
EndsIn-then Q k none e next = e
EndsIn-then Q k (some u) e next = next u e

module _ (a : ℕ) (p : 0 < a) where
  unaligned :
      (tries : ℕ) {ptr : ℕ} (s : State)
      → Inv s
      → ptr % (a * block_size) ≢ 0
      → Gives a ptr s
      → Ends (λ q u. q ≡ 0) (attempt (a * block_size) tries s)
  unfolding attempt
  unaligned zero s v odd g = refl
  unaligned (suc tries) {ptr} s v odd (t, e) =
      let blocks : a * 4096 / 4096 ≡ a = omega arith in
      let n : ptr ≢ 0 = λ z. odd (rw z (zero-mod (a * block_size))) in
      rw (blocks, e, attempt)
        (rw (ne→== _ 0 odd, blocks)
          (EndsIn-then (λ q _. q ≡ 0) (attempt (a * block_size) tries) _
            (pmm_free_blocks-alloc a s v p e n)
            (λ u back. unaligned tries u back.inv odd (retry a p v n e back))))

  aligned :
      (tries : ℕ) {ptr : ℕ} (s : State)
      → (ptr % (a * block_size) == 0) ≡ true
      → Gives a ptr s
      → Ends (λ q u. q ≡ ptr) (attempt (a * block_size) (suc tries) s)
  unfolding attempt
  aligned tries s even (t, e) =
      let blocks : a * 4096 / 4096 ≡ a = omega arith in rw (blocks, e, attempt) (rw even refl)

  -- Where the first run of free blocks has the address `ptr`, an aligned request returns `ptr` if it
  -- is aligned, and NULL otherwise: no attempt looks further.
  pub pmm_alloc_block_aligned_lem :
      {ptr : ℕ} {t : State} (s : State)
      → Inv s
      → pmm_alloc_blocks a s ≡ some (ptr, t)
      → Ends
          (λ q u. q ≡ (if ptr % (a * block_size) == 0 then ptr else 0))
          (pmm_alloc_block_aligned (a * block_size) s)
  unfolding pmm_alloc_block_aligned
  pmm_alloc_block_aligned_lem {ptr} {t} s v e =
      let blocks : a * 4096 / 4096 ≡ a = omega arith in
      let whole : (a * 4096 % 4096 == 0) ≡ true = ground arith in
      let some_blocks : ltb 0 (a * 4096) ≡ true = lt→ltb _ _ (omega arith) in
      rw (whole, some_blocks)
        (elim (Bool-cases (ptr % (a * 4096) == 0)) [
          | inl even ↦ rw even (aligned 2 s even (t, e))
          | inr odd ↦ rw odd (unaligned 3 s v (λ z. cc ((==_iff (ptr % (a * 4096)) 0).1 z)) (t, e))
        ])
