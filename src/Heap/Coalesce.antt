-- ===== src/Heap/Coalesce.antt =====
-- kheap_coalesce_free_list of kernel/memory.c.
use farou_kernel.Base.{
  ℕ, List, [], ◌∷◌, suc, ◌+◌, ◌%◌, ◌^◌, ◌≤◌, ◌<◌, ◌≡◌, ◌≢◌, inl, inr, refl, sym, ap, ◌∙◌, subst,
  true, false, Option, none, some, ◌==◌, arith, eq_or_ne, ne→==, ==_refl, ==_iff,
}
use farou_kernel.Base.Word.{add64, add64_small}
use farou_kernel.Heap.Layout.{
  Fits, end_of, Chain, Apart, total, Avoids, Agree, write_header-Agree, end_of-same, Chain-Agree,
  Apart-Agree, total-Agree, Apart-Avoids, Chain-Apart, Chain-le, Chain_lower,
}
use farou_kernel.Heap.{Headers, write_header, absorb, with_first, coalesce_from, coalesce_list}

-- No block of the list touches the next.
abbrev pub NoTouch : Headers → List ℕ → Type 0
NoTouch hd [] = 0 ≤ 0
NoTouch hd (b ∷ []) = 0 ≤ 0
NoTouch hd (b ∷ c ∷ bs) = (end_of hd b ≢ c) × NoTouch hd (c ∷ bs)

Fits-Agree :
    (hd hd' : Headers) (n : ℕ) (bs : List ℕ) → Agree hd hd' bs → Fits hd n bs → Fits hd' n bs
Fits-Agree hd hd' n [] a f = f
Fits-Agree hd hd' n (b ∷ bs) a (inl f) = inl (subst (λ v. n ≤ v.size) (sym a.0) f)
Fits-Agree hd hd' n (b ∷ bs) a (inr f) = inr (Fits-Agree hd hd' n bs a.1 f)

Fits-cons :
    (hd hd' : Headers) (n b : ℕ) (bs l : List ℕ)
    → hd' b ≡ hd b
    → (Fits hd n bs → Fits hd' n l)
    → Fits hd n (b ∷ bs)
    → Fits hd' n (b ∷ l)
Fits-cons hd hd' n b bs l same go (inl f) = inl (subst (λ v. n ≤ v.size) (sym same) f)
Fits-cons hd hd' n b bs l same go (inr f) = inr (go f)

-- What joining makes of the list `bs`: the list `l`, with the same bytes, in order, that touches nothing
-- else, and in which no block touches the next.
pub record Joins (hd : Headers) (lo : ℕ) (bs : List ℕ) (hi : ℕ) (l : List ℕ) (hd' : Headers)
    : Type 0 where
  pub chain : Chain hd' lo l hi
  pub same_total : total hd' l ≡ total hd bs
  pub elsewhere : (y : ℕ) → Avoids y bs → hd' y ≡ hd y
  pub apart : (a z : ℕ) → a < z → Apart hd a z bs → Apart hd' a z l
  pub fits : (n : ℕ) → Fits hd n bs → Fits hd' n l
  pub no_touch : NoTouch hd' l

record JoinsFrom (hd : Headers) (lo b : ℕ) (bs : List ℕ) (hi : ℕ) (l : List ℕ) (hd' : Headers)
    : Type 0 where
  pub joins : Joins hd lo (b ∷ bs) hi l hd'
  pub tail : List ℕ
  pub first : l ≡ b ∷ tail

abbrev JoinedFrom : Headers → ℕ → ℕ → List ℕ → ℕ → Option (List ℕ × Headers) → Type 0
JoinedFrom hd lo b bs hi none = ⊥
JoinedFrom hd lo b bs hi (some (l, hd')) = JoinsFrom hd lo b bs hi l hd'

module _ (hd : Headers) (lo b c : ℕ) (cs : List ℕ) (hi : ℕ)
    (chain : Chain hd lo (b ∷ c ∷ cs) hi) where
  b-Avoids : Avoids b (c ∷ cs)
  b-Avoids =
      Apart-Avoids hd b (suc b) (c ∷ cs) (omega arith)
        (Chain-Apart hd (end_of hd b) (c ∷ cs) hi b (suc b) (omega arith) chain.2)

  -- The neighbour is absorbed.
  module _ (touch : end_of hd b ≡ c) (small : hi < 2 ^ 64) where
    abbrev hd1 : Headers
    hd1 = absorb b c hd

    absorbed_header :
        hd1 b ≡ record { size = (hd b).size + (32 + (hd c).size); magic = (hd b).magic }
    unfolding write_header
    absorbed_header =
        let top = Chain-le hd (end_of hd c) cs hi chain.2.2 in
        let one : add64 32 ((hd c).size) ≡ 32 + (hd c).size =
          add64_small _ _ (omega (arith, small, top)) in
        let two : add64 ((hd b).size) (32 + (hd c).size) ≡ (hd b).size + (32 + (hd c).size) =
          add64_small _ _ (omega (arith, small, top, touch)) in
        rw (==_refl b, one, two) refl

    absorbed_size : (hd1 b).size ≡ (hd b).size + (32 + (hd c).size)
    absorbed_size = ap (λ v. v.size) absorbed_header

    kept : Agree hd hd1 cs
    kept = write_header-Agree hd b _ cs b-Avoids.1

    absorbed-Chain : Chain hd1 lo (b ∷ cs) hi
    absorbed-Chain = (
      chain.0,
      record {
        aligned = chain.1.aligned;
        whole = omega (arith, absorbed_size, chain.1.whole, chain.2.1.whole);
        marked = ap (λ v. v.magic) absorbed_header ∙ chain.1.marked;
      },
      Chain_lower hd1 (end_of hd c) (end_of hd1 b) cs hi hi (omega (arith, absorbed_size, touch))
          (omega arith) (Chain-Agree hd hd1 (end_of hd c) cs hi kept chain.2.2),
    )

    absorbed_elsewhere : (y : ℕ) → b ≢ y → hd1 y ≡ hd y
    unfolding write_header
    absorbed_elsewhere y ne = rw (ne→== y b (λ e. ne (sym e))) refl

    absorbed-Fits : (n : ℕ) → Fits hd n (b ∷ c ∷ cs) → Fits hd1 n (b ∷ cs)
    absorbed-Fits n (inl f) = inl (omega (arith, f, absorbed_size))
    absorbed-Fits n (inr (inl f)) = inl (omega (arith, f, absorbed_size))
    absorbed-Fits n (inr (inr f)) = inr (Fits-Agree hd hd1 n cs kept f)

    absorbed-JoinsFrom :
        (r : Option (List ℕ × Headers))
        → JoinedFrom hd1 lo b cs hi r
        → JoinedFrom hd lo b (c ∷ cs) hi r
    absorbed-JoinsFrom none null = null
    absorbed-JoinsFrom (some (l, hd')) j = record {
      joins = record {
        chain = j.joins.chain;
        same_total = omega (arith, j.joins.same_total, absorbed_size, total-Agree hd hd1 cs kept);
        elsewhere = λ y a. j.joins.elsewhere y (a.0, a.1.1) ∙ absorbed_elsewhere y a.0;
        apart = λ a z lt p. j.joins.apart a z lt (
          omega (arith, lt, p.0, p.1.0, absorbed_size, touch),
          Apart-Agree hd hd1 a z cs kept p.1.1,
        );
        fits = λ n f. j.joins.fits n (absorbed-Fits n f);
        no_touch = j.joins.no_touch;
      };
      tail = j.tail;
      first = j.first;
    }

  -- The neighbour lies further on.
  module _ (off : end_of hd b ≢ c) where
    apart-JoinsFrom :
        (r : Option (List ℕ × Headers))
        → JoinedFrom hd (end_of hd b) c cs hi r
        → JoinedFrom hd lo b (c ∷ cs) hi (with_first b r)
    apart-JoinsFrom none null = null
    apart-JoinsFrom (some (l, hd')) j =
        let same = j.joins.elsewhere b b-Avoids in
        let ends = end_of-same hd hd' b same in
        record {
          joins = record {
            chain = (
              chain.0,
              record {
                aligned = chain.1.aligned;
                whole = ap (λ v. v.size % 16) same ∙ chain.1.whole;
                marked = ap (λ v. v.magic) same ∙ chain.1.marked;
              },
              subst (λ e. Chain hd' e l hi) (sym ends) j.joins.chain,
            );
            same_total = omega (arith, j.joins.same_total, ends);
            elsewhere = λ y a. j.joins.elsewhere y a.1;
            apart = λ a z lt p. (omega (arith, p.0, ends), j.joins.apart a z lt p.1);
            fits = λ n f. Fits-cons hd hd' n b (c ∷ cs) l same (j.joins.fits n) f;
            no_touch =
                subst (λ k. NoTouch hd' (b ∷ k)) (sym j.first)
                  (λ e. off (sym ends ∙ e), subst (λ k. NoTouch hd' k) j.first j.joins.no_touch);
          };
          tail = l;
          first = refl;
        }

coalesce_from-JoinsFrom :
    (bs : List ℕ) (hd : Headers) (lo b hi : ℕ)
    → Chain hd lo (b ∷ bs) hi
    → hi < 2 ^ 64
    → JoinedFrom hd lo b bs hi (coalesce_from b bs hd)
unfolding coalesce_from
coalesce_from-JoinsFrom [] hd lo b hi chain small = record {
  joins = record {
    chain = chain;
    same_total = refl;
    elsewhere = λ y a. refl;
    apart = λ a z lt p. p;
    fits = λ n f. f;
    no_touch = omega arith;
  };
  tail = [];
  first = refl;
}
coalesce_from-JoinsFrom (c ∷ cs) hd lo b hi chain small =
    let top = Chain-le hd (end_of hd c) cs hi chain.2.2 in
    let low = chain.2.0 in
    let sum : add64 (add64 b 32) ((hd b).size) ≡ end_of hd b =
      ap (λ a. add64 a ((hd b).size)) (add64_small b 32 (omega (arith, small, top, low)))
      ∙ add64_small (b + 32) ((hd b).size) (omega (arith, small, top, low)) in
    let m1 : ((hd b).magic == 16045690984503098046) ≡ true = (==_iff _ _).1 chain.1.marked in
    let m2 : ((hd c).magic == 16045690984503098046) ≡ true = (==_iff _ _).1 chain.2.1.marked in
    elim (eq_or_ne (end_of hd b) c) [
      | inl touch ↦
          let t : (end_of hd b == c) ≡ true = (==_iff _ _).1 touch in
          rw (m1, m2, sum, t, coalesce_from)
            (absorbed-JoinsFrom hd lo b c cs hi chain touch small _ (
              coalesce_from-JoinsFrom cs (absorb b c hd) lo b hi
                (absorbed-Chain hd lo b c cs hi chain touch small) small))
      | inr off ↦
          let t : (end_of hd b == c) ≡ false = ne→== _ _ off in
          rw (m1, m2, sum, t, coalesce_from)
            (apart-JoinsFrom hd lo b c cs hi chain off _
              (coalesce_from-JoinsFrom cs hd (end_of hd b) c hi chain.2 small))
    ]

abbrev pub Joined : Headers → ℕ → List ℕ → ℕ → Option (List ℕ × Headers) → Type 0
Joined hd lo bs hi none = ⊥
Joined hd lo bs hi (some (l, hd')) = Joins hd lo bs hi l hd'

Joined-from :
    (hd : Headers) (lo b : ℕ) (bs : List ℕ) (hi : ℕ) (r : Option (List ℕ × Headers))
    → JoinedFrom hd lo b bs hi r
    → Joined hd lo (b ∷ bs) hi r
Joined-from hd lo b bs hi none null = null
Joined-from hd lo b bs hi (some (l, hd')) j = j.joins

-- Coalescing never panics on a list in order.
pub coalesce_list-Joined :
    (hd : Headers) (lo : ℕ) (bs : List ℕ) (hi : ℕ)
    → Chain hd lo bs hi
    → hi < 2 ^ 64
    → Joined hd lo bs hi (coalesce_list bs hd)
coalesce_list-Joined hd lo [] hi chain small = record {
  chain = chain;
  same_total = refl;
  elsewhere = λ y a. refl;
  apart = λ a z lt p. p;
  fits = λ n f. f;
  no_touch = omega arith;
}
coalesce_list-Joined hd lo (b ∷ bs) hi chain small =
    Joined-from hd lo b bs hi _ (coalesce_from-JoinsFrom bs hd lo b hi chain small)
