-- ===== src/Frames/Search.antt =====
-- The search for a single free frame in kernel/memory.c visits every word of the bitmap.
use native.Mathlib.Nat.{mod-eq_of_lt, mod-eq-sub-mod}
use farou_kernel.Base.{
  ℕ, zero, suc, ◌+◌, ◌-◌, ◌*◌, ◌/◌, ◌%◌, ◌≤◌, ◌<◌, ◌≡◌, refl, ap, ◌∙◌, sym, Bool, true, false,
  Option, none, some, leb, ◌==◌, if◌then◌else◌, arith, Bool-cases, inl, inr,
}
use farou_kernel.Bitmap.{Words, bit}
use farou_kernel.Frames.{Frames, first_zero, find_frame}

-- The first bit of the `n` bits from `j` on that is not set.
abbrev pub IsFirstZero : (ℕ → Bool) → ℕ → ℕ → Option ℕ → Type 0
IsFirstZero q n j none = (k : ℕ) → j ≤ k → k < j + n → q k ≡ true
IsFirstZero q n j (some b) =
    (j ≤ b) × (b < j + n) × (q b ≡ false) × ((k : ℕ) → j ≤ k → k < b → q k ≡ true)

extend :
    (q : ℕ → Bool) (n j : ℕ) (r : Option ℕ)
    → q j ≡ true
    → IsFirstZero q n (j + 1) r
    → IsFirstZero q (suc n) j r
extend q n j none e h = λ k p1 p2. elim (Bool-cases (k == j)) [
  | inl here ↦ ap q (ground arith) ∙ e
  | inr later ↦ h k (ground arith) (omega arith)
]
extend q n j (some b) e h = (
  omega (arith, h.0),
  omega (arith, h.1),
  h.2,
  λ k p1 p2. elim (Bool-cases (k == j)) [
    | inl here ↦ ap q (ground arith) ∙ e
    | inr later ↦ h.3 k (ground arith) p2
  ],
)

first_zero_lem : (q : ℕ → Bool) (n j : ℕ) → IsFirstZero q n j (first_zero q n j)
unfolding first_zero
first_zero_lem q zero j = λ k p1 p2. absurd (omega arith)
first_zero_lem q (suc n) j = elim (Bool-cases (q j)) [
  | inl set ↦ rw set (extend q n j (first_zero q n (j + 1)) set (first_zero_lem q n (j + 1)))
  | inr clear ↦ rw clear (omega arith, omega arith, clear, λ k p1 p2. absurd (omega arith))
]

-- What `rounds` turns from `i` on find: a free frame in range, or no frame of the words they visit.
abbrev pub Finds : Frames → ℕ → ℕ → ℕ → Option ℕ → Type 0
Finds s start i rounds none =
    (k f : ℕ)
    → i ≤ k
    → k < i + rounds
    → f ≤ s.pmm_highest_frame
    → f / 64 ≡ (start + k) % s.pmm_bitmap_size_qwords
    → bit s.pmm_bitmap f ≡ true
Finds s start i rounds (some f) = (f ≤ s.pmm_highest_frame) × (bit s.pmm_bitmap f ≡ false)

bit_at : (w : Words) (idx b : ℕ) → b < 64 → bit w (idx * 64 + b) ≡ w idx b
unfolding bit
bit_at w idx b h =
    let word : (idx * 64 + b) / 64 ≡ idx = omega arith in
    let place : (idx * 64 + b) % 64 ≡ b = omega arith in rw (word, place) refl

-- Every word is visited in a round over all of them.
turn_of :
    (size start w : ℕ) → start < size → w < size → (k : ℕ) × (k < size) × ((start + k) % size ≡ w)
turn_of size start w p q = elim (Bool-cases (leb start w)) [
  | inl ahead ↦
      let e : start + (w - start) ≡ w = ground arith in
      (w - start, ground arith, ap (λ n. n % size) e ∙ mod-eq_of_lt q)
  | inr behind ↦
      let e : start + (w + size - start) ≡ w + size = ground arith in
      let back : w + size - size ≡ w = omega arith in
      (
        w + size - start,
        ground arith,
        ap (λ n. n % size) e
            ∙ (mod-eq-sub-mod (omega arith) ∙ (ap (λ n. n % size) back ∙ mod-eq_of_lt q)),
      )
]

module _ (s : Frames) (start : ℕ) where
  -- No frame of the word is free and in range, and so with the rest.
  word_full :
      (i rounds idx : ℕ) (r : Option ℕ)
      → idx ≡ (start + i) % s.pmm_bitmap_size_qwords
      → ((j : ℕ) → j < 64 → idx * 64 + j ≤ s.pmm_highest_frame → s.pmm_bitmap idx j ≡ true)
      → Finds s start (i + 1) rounds r
      → Finds s start i (suc rounds) r
  unfolding bit
  word_full i rounds idx (some f) e full h = h
  word_full i rounds idx none e full h = λ k f p1 p2 small at. elim (Bool-cases (k == i)) [
    | inr later ↦ h k f (ground arith) (omega arith) small at
    | inl here ↦
        let same : k ≡ i = ground arith in
        let word : f / 64 ≡ idx =
          at ∙ (ap (λ n. (start + n) % s.pmm_bitmap_size_qwords) same ∙ sym e) in
        ap (λ n. s.pmm_bitmap n (f % 64)) word
        ∙ full (f % 64) (omega arith) (omega (arith, word, small))
  ]

  find_frame-Finds : (rounds i : ℕ) → Finds s start i rounds (find_frame rounds i start s)
  unfolding find_frame
  find_frame-Finds zero i = λ k f p1 p2. absurd (omega arith)
  find_frame-Finds (suc rounds) i =
      turn (first_zero (s.pmm_bitmap ((start + i) % s.pmm_bitmap_size_qwords)) 64 0)
        (find_frame rounds (i + 1) start s) (first_zero_lem _ 64 0)
        (find_frame-Finds rounds (i + 1))
    where
      idx : ℕ
      idx = (start + i) % s.pmm_bitmap_size_qwords

      turn :
          (b rest : Option ℕ)
          → IsFirstZero (s.pmm_bitmap idx) 64 0 b
          → Finds s start (i + 1) rounds rest
          → Finds s start i (suc rounds) (elim b [
            | none ↦ rest
            | some b ↦ if leb (idx * 64 + b) s.pmm_highest_frame then some (idx * 64 + b) else rest
          ])
      turn none rest z h =
          word_full i rounds idx rest refl (λ j p _. z j (omega arith) (omega arith)) h
      turn (some b) rest z h = elim (Bool-cases (leb (idx * 64 + b) s.pmm_highest_frame)) [
        | inl fits ↦ rw fits (ground arith, bit_at s.pmm_bitmap idx b (omega (arith, z.1)) ∙ z.2)
        | inr over ↦
            rw over
              (word_full i rounds idx rest refl (λ j p small. z.3 j (omega arith) (ground arith)) h)
      ]

-- What a search over all words finds: a free frame in range, or that there is none.
abbrev pub FindsAny : Frames → Option ℕ → Type 0
FindsAny s none = (f : ℕ) → f ≤ s.pmm_highest_frame → bit s.pmm_bitmap f ≡ true
FindsAny s (some f) = (f ≤ s.pmm_highest_frame) × (bit s.pmm_bitmap f ≡ false)

Finds-FindsAny :
    (s : Frames) (start : ℕ) (r : Option ℕ)
    → start < s.pmm_bitmap_size_qwords
    → s.pmm_highest_frame < 64 * s.pmm_bitmap_size_qwords
    → Finds s start 0 s.pmm_bitmap_size_qwords r
    → FindsAny s r
Finds-FindsAny s start (some f) p covered h = h
Finds-FindsAny s start none p covered h = λ f small.
    let (k, inside, at) =
      turn_of s.pmm_bitmap_size_qwords start (f / 64) p (omega (arith, covered, small)) in
    h k f (omega arith) (omega arith) small (sym at)

pub find_frame-FindsAny :
    (s : Frames) (start : ℕ)
    → start < s.pmm_bitmap_size_qwords
    → s.pmm_highest_frame < 64 * s.pmm_bitmap_size_qwords
    → FindsAny s (find_frame s.pmm_bitmap_size_qwords 0 start s)
find_frame-FindsAny s start p covered =
    Finds-FindsAny s start _ p covered (find_frame-Finds s start s.pmm_bitmap_size_qwords 0)
