-- ===== src/Heap/Fit.antt =====
-- The search for a free block of kernel/memory.c, and the blocks handed out.
use farou_kernel.Base.{
  ℕ, List, [], ◌∷◌, ◌+◌, ◌%◌, ◌≤◌, ◌<◌, ◌≡◌, inl, inr, refl, sym, ap, ◌∙◌, subst, true, Option,
  none, some, leb, ◌==◌, arith, Bool-cases, ==_iff, leb→le,
}
use farou_kernel.Heap.Layout.{
  Fits, end_of, FreeBlock, Chain, Apart, total, Agree, end_of-same, Apart-Agree, Chain-Apart,
  Chain-le, Chain_lower,
}
use farou_kernel.Heap.{allocated_magic, Headers}
use farou_kernel.Heap.Kmalloc.{find_fit, skip_block}

-- The block `b` of the list `bs`, and the list without it.
pub record Takes (hd : Headers) (lo : ℕ) (bs : List ℕ) (hi n b : ℕ) (rest : List ℕ) : Type 0 where
  pub remains : Chain hd lo rest hi
  pub free : FreeBlock hd b
  pub low : lo ≤ b
  pub high : end_of hd b ≤ hi
  pub alone : Apart hd b (end_of hd b) rest
  pub enough : n ≤ (hd b).size
  pub same_total : total hd bs ≡ total hd (b ∷ rest)
  pub apart : (a z : ℕ) → Apart hd a z bs → Apart hd a z (b ∷ rest)

abbrev pub Finds : Headers → ℕ → List ℕ → ℕ → ℕ → Option (Option (ℕ × List ℕ)) → Type 0
Finds hd lo bs hi n none = ⊥
Finds hd lo bs hi n (some none) = Fits hd n bs → ⊥
Finds hd lo bs hi n (some (some (b, rest))) = Takes hd lo bs hi n b rest

module _ (hd : Headers) (lo c : ℕ) (cs : List ℕ) (hi n : ℕ) (chain : Chain hd lo (c ∷ cs) hi) where
  here-Takes : n ≤ (hd c).size → Takes hd lo (c ∷ cs) hi n c cs
  here-Takes fit = record {
    remains =
        Chain_lower hd (end_of hd c) lo cs hi hi (omega (arith, chain.0)) (omega arith) chain.2;
    free = chain.1;
    low = chain.0;
    high = Chain-le hd (end_of hd c) cs hi chain.2;
    alone = Chain-Apart hd (end_of hd c) cs hi c (end_of hd c) (omega arith) chain.2;
    enough = fit;
    same_total = refl;
    apart = λ a z p. p;
  }

  skip_block-Finds :
      (hd c).size < n
      → (r : Option (Option (ℕ × List ℕ))) → Finds hd (end_of hd c) cs hi n r
      → Finds hd lo (c ∷ cs) hi n (skip_block c r)
  skip_block-Finds small none null = null
  skip_block-Finds small (some none) no_fit =
      λ f. elim f [ inl here ↦ omega (arith, here, small) | inr below ↦ no_fit below ]
  skip_block-Finds small (some (some (b, rest))) t = record {
    remains = (chain.0, chain.1, t.remains);
    free = t.free;
    low = omega (arith, chain.0, t.low);
    high = t.high;
    alone = (inr t.low, t.alone);
    enough = t.enough;
    same_total = omega (arith, t.same_total);
    apart = λ a z p. let q = t.apart a z p.1 in (q.0, (p.0, q.1));
  }

-- The search never panics on a list in order, and finds a block exactly where one fits.
pub find_fit-Finds :
    (hd : Headers) (lo : ℕ) (bs : List ℕ) (hi n : ℕ)
    → Chain hd lo bs hi
    → Finds hd lo bs hi n (find_fit n bs hd)
unfolding find_fit
find_fit-Finds hd lo [] hi n chain = λ f. f
find_fit-Finds hd lo (c ∷ cs) hi n chain =
    let m : ((hd c).magic == 16045690984503098046) ≡ true = (==_iff _ _).1 chain.1.marked in
    elim (Bool-cases (leb n ((hd c).size))) [
      | inl y ↦ rw (m, y, Finds) (here-Takes hd lo c cs hi n chain (leb→le _ _ y))
      | inr no_room ↦
          rw (m, no_room, Finds)
            (skip_block-Finds hd lo c cs hi n chain (ground (arith, no_room)) _
              (find_fit-Finds hd (end_of hd c) cs hi n chain.2))
    ]

pub record LiveBlock (hd : Headers) (b : ℕ) : Type 0 where
  pub aligned : b % 16 ≡ 0
  pub whole : (hd b).size % 16 ≡ 0
  pub marked : (hd b).magic ≡ allocated_magic

-- The blocks handed out lie between `lo` and `hi`, apart from the free ones and from each other.
abbrev pub Live : Headers → ℕ → ℕ → List ℕ → List ℕ → Type 0
Live hd lo hi free [] = 0 ≤ 0
Live hd lo hi free (b ∷ bs) =
    LiveBlock hd b
    × (lo ≤ b)
    × (end_of hd b ≤ hi)
    × Apart hd b (end_of hd b) free
    × Apart hd b (end_of hd b) bs
    × Live hd lo hi free bs

-- A step that keeps the headers in ranges apart from the free blocks, and keeps those ranges apart.
pub record KeepsApart (hd : Headers) (hi : ℕ) (free : List ℕ) (hd' : Headers) (free' : List ℕ)
    : Type 0 where
  pub same : (y z : ℕ) → y + 32 ≤ z → z ≤ hi → Apart hd y z free → hd' y ≡ hd y
  pub apart : (y z : ℕ) → y + 32 ≤ z → z ≤ hi → Apart hd y z free → Apart hd' y z free'

module _ (hd : Headers) (lo hi : ℕ) (free : List ℕ) (hd' : Headers) (hi' : ℕ) (free' : List ℕ)
    (k : KeepsApart hd hi free hd' free') where
  pub Live-Agree : (bs : List ℕ) → Live hd lo hi free bs → Agree hd hd' bs
  Live-Agree [] v = omega arith
  Live-Agree (b ∷ bs) (live, low, high, p, q, v) =
      (k.same b (end_of hd b) (omega arith) high p, Live-Agree bs v)

  pub Live_step : hi ≤ hi' → (bs : List ℕ) → Live hd lo hi free bs → Live hd' lo hi' free' bs
  Live_step le [] v = v
  Live_step le (b ∷ bs) (live, low, high, p, q, v) =
      let same = k.same b (end_of hd b) (omega arith) high p in
      let ends = end_of-same hd hd' b same in
      let apart = k.apart b (end_of hd b) (omega arith) high p in
      (
        record {
          aligned = live.aligned;
          whole = ap (λ v. v.size % 16) same ∙ live.whole;
          marked = ap (λ v. v.magic) same ∙ live.marked;
        },
        low,
        omega (arith, high, ends, le),
        subst (λ e. Apart hd' b e free') (sym ends) apart,
        subst (λ e. Apart hd' b e bs) (sym ends)
            (Apart-Agree hd hd' b (end_of hd b) bs (Live-Agree bs v) q),
        Live_step le bs v,
      )

-- A free block is apart from every block handed out.
pub Live-Apart :
    (hd : Headers) (lo hi b : ℕ) (free bs : List ℕ)
    → Live hd lo hi (b ∷ free) bs
    → Apart hd b (end_of hd b) bs
Live-Apart hd lo hi b free [] v = omega arith
Live-Apart hd lo hi b free (c ∷ bs) (live, low, high, p, q, v) =
    (omega (arith, p.0), Live-Apart hd lo hi b free bs v)
