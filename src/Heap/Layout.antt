-- ===== src/Heap/Layout.antt =====
-- The layout of the heap of kernel/memory.c: free blocks in order, and ranges apart from them.
use farou_kernel.Base.{
  ℕ, List, [], ◌∷◌, ◌+◌, ◌%◌, ◌≤◌, ◌<◌, ◌≡◌, ◌≢◌, ◌⊎◌, inl, inr, refl, sym, ap, ◌∙◌, subst, arith,
  ne→==,
}
use farou_kernel.Heap.{kheap_magic, Header, Headers, write_header}

-- The first byte after a block.
abbrev pub end_of : Headers → ℕ → ℕ
end_of hd b = b + 32 + (hd b).size

pub record FreeBlock (hd : Headers) (b : ℕ) : Type 0 where
  pub aligned : b % 16 ≡ 0
  pub whole : (hd b).size % 16 ≡ 0
  pub marked : (hd b).magic ≡ kheap_magic

-- The free blocks lie in order between `lo` and `hi`, none in another.
abbrev pub Chain : Headers → ℕ → List ℕ → ℕ → Type 0
Chain hd lo [] hi = lo ≤ hi
Chain hd lo (b ∷ bs) hi = (lo ≤ b) × FreeBlock hd b × Chain hd (end_of hd b) bs hi

-- No block of the list meets the bytes from `a` to `z`.
abbrev pub Apart : Headers → ℕ → ℕ → List ℕ → Type 0
Apart hd a z [] = 0 ≤ 0
Apart hd a z (b ∷ bs) = ((z ≤ b) ⊎ (end_of hd b ≤ a)) × Apart hd a z bs

-- The bytes of the blocks, headers included.
abbrev pub total : Headers → List ℕ → ℕ
total hd [] = 0
total hd (b ∷ bs) = 32 + (hd b).size + total hd bs

abbrev pub Avoids : ℕ → List ℕ → Type 0
Avoids x [] = 0 ≤ 0
Avoids x (b ∷ bs) = (b ≢ x) × Avoids x bs

-- Two headers stores agree on a list.
abbrev pub Agree : Headers → Headers → List ℕ → Type 0
Agree hd hd' [] = 0 ≤ 0
Agree hd hd' (b ∷ bs) = (hd' b ≡ hd b) × Agree hd hd' bs

pub write_header-Agree :
    (hd : Headers) (x : ℕ) (v : Header) (bs : List ℕ)
    → Avoids x bs
    → Agree hd (write_header x v hd) bs
unfolding write_header
write_header-Agree hd x v [] a = omega arith
write_header-Agree hd x v (b ∷ bs) a = (rw (ne→== b x a.0) refl, write_header-Agree hd x v bs a.1)

pub Agree-trans :
    (hd hd' hd'' : Headers) (bs : List ℕ) → Agree hd hd' bs → Agree hd' hd'' bs → Agree hd hd'' bs
Agree-trans hd hd' hd'' [] a b = a
Agree-trans hd hd' hd'' (x ∷ bs) a b = (b.0 ∙ a.0, Agree-trans hd hd' hd'' bs a.1 b.1)

pub end_of-same : (hd hd' : Headers) (b : ℕ) → hd' b ≡ hd b → end_of hd' b ≡ end_of hd b
end_of-same hd hd' b e = rw e refl

pub Chain-Agree :
    (hd hd' : Headers) (lo : ℕ) (bs : List ℕ) (hi : ℕ)
    → Agree hd hd' bs
    → Chain hd lo bs hi
    → Chain hd' lo bs hi
Chain-Agree hd hd' lo [] hi a c = c
Chain-Agree hd hd' lo (b ∷ bs) hi a (low, free, c) = (
  low,
  record {
    aligned = free.aligned;
    whole = ap (λ v. v.size % 16) a.0 ∙ free.whole;
    marked = ap (λ v. v.magic) a.0 ∙ free.marked;
  },
  subst (λ e. Chain hd' e bs hi) (sym (end_of-same hd hd' b a.0))
      (Chain-Agree hd hd' (end_of hd b) bs hi a.1 c),
)

pub Apart-Agree :
    (hd hd' : Headers) (a z : ℕ) (bs : List ℕ)
    → Agree hd hd' bs
    → Apart hd a z bs
    → Apart hd' a z bs
Apart-Agree hd hd' a z [] e p = p
Apart-Agree hd hd' a z (b ∷ bs) e p =
    (omega (arith, end_of-same hd hd' b e.0, p.0), Apart-Agree hd hd' a z bs e.1 p.1)

pub total-Agree : (hd hd' : Headers) (bs : List ℕ) → Agree hd hd' bs → total hd' bs ≡ total hd bs
total-Agree hd hd' [] a = refl
total-Agree hd hd' (b ∷ bs) a = omega (arith, end_of-same hd hd' b a.0, total-Agree hd hd' bs a.1)

-- A range apart from the blocks begins at none of them.
pub Apart-Avoids : (hd : Headers) (a z : ℕ) (bs : List ℕ) → a < z → Apart hd a z bs → Avoids a bs
Apart-Avoids hd a z [] lt p = omega arith
Apart-Avoids hd a z (b ∷ bs) lt p = (λ e. omega (arith, e, p.0), Apart-Avoids hd a z bs lt p.1)

-- What lies before a chain is apart from it.
pub Chain-Apart :
    (hd : Headers) (lo : ℕ) (bs : List ℕ) (hi a z : ℕ)
    → z ≤ lo
    → Chain hd lo bs hi
    → Apart hd a z bs
Chain-Apart hd lo [] hi a z le c = omega arith
Chain-Apart hd lo (b ∷ bs) hi a z le c =
    (inl (omega (arith, c.0)), Chain-Apart hd (end_of hd b) bs hi a z (omega (arith, c.0)) c.2)

pub Chain-le : (hd : Headers) (lo : ℕ) (bs : List ℕ) (hi : ℕ) → Chain hd lo bs hi → lo ≤ hi
Chain-le hd lo [] hi c = c
Chain-le hd lo (b ∷ bs) hi c = omega (arith, c.0, Chain-le hd (end_of hd b) bs hi c.2)

pub Chain_lower :
    (hd : Headers) (lo lo' : ℕ) (bs : List ℕ) (hi hi' : ℕ)
    → lo' ≤ lo
    → hi ≤ hi'
    → Chain hd lo bs hi
    → Chain hd lo' bs hi'
Chain_lower hd lo lo' [] hi hi' a b c = omega (arith, c)
Chain_lower hd lo lo' (x ∷ bs) hi hi' a b c = (
  omega (arith, c.0),
  c.1,
  Chain_lower hd (end_of hd x) (end_of hd x) bs hi hi' (omega arith) b c.2,
)

-- What lies after a chain is apart from it.
pub Apart-after :
    (hd : Headers) (lo : ℕ) (bs : List ℕ) (hi a z : ℕ)
    → hi ≤ a
    → Chain hd lo bs hi
    → Apart hd a z bs
Apart-after hd lo [] hi a z le c = omega arith
Apart-after hd lo (b ∷ bs) hi a z le c = (
  inr (omega (arith, Chain-le hd (end_of hd b) bs hi c.2)),
  Apart-after hd (end_of hd b) bs hi a z le c.2,
)

-- Some block of the list has `n` bytes of data.
abbrev pub Fits : Headers → ℕ → List ℕ → Type 0
Fits hd n [] = ⊥
Fits hd n (b ∷ bs) = (n ≤ (hd b).size) ⊎ Fits hd n bs
