-- ===== src/Heap/Merge.antt =====
-- A block of kernel/memory.c that is added to the free list and joined with its neighbours.
use farou_kernel.Base.{
  ℕ, List, ◌∷◌, ◌+◌, ◌%◌, ◌^◌, ◌≤◌, ◌<◌, ◌≡◌, ◌≢◌, refl, sym, ap, ◌∙◌, subst, Option, none, some,
  arith, ne→==, ==_refl,
}
use farou_kernel.Heap.Layout.{
  Fits, end_of, Chain, Apart, total, Agree, write_header-Agree, Chain-Agree, Apart-Agree,
  total-Agree, Apart-Avoids,
}
use farou_kernel.Heap.{
  kheap_magic, Headers, Heap, set_magic, write_header, insert_block, kheap_add_to_free_list,
  coalesced, kheap_coalesce_free_list,
}
use farou_kernel.Heap.Coalesce.{NoTouch, Joined, coalesce_list-Joined}
use farou_kernel.Heap.Insert.{
  insert_block-Chain, total-insert_block, Apart-insert_block, Fits-insert_block,
}
use farou_kernel.Heap.Fit.{KeepsApart}
use farou_kernel.Heap.Kmalloc.{coalesce_after}

-- The list with the block in it, joined.
pub record Merged (s : Heap) (b lo hi : ℕ) (t : Heap) : Type 0 where
  pub chain : Chain t.headers lo t.kheap_free_list hi
  pub same_total : total t.headers t.kheap_free_list ≡ total s.headers (b ∷ s.kheap_free_list)
  pub keeps : KeepsApart s.headers hi (b ∷ s.kheap_free_list) t.headers t.kheap_free_list
  pub no_touch : NoTouch t.headers t.kheap_free_list
  pub fits : (n : ℕ) → n ≤ (s.headers b).size → Fits t.headers n t.kheap_free_list
  pub same_break : t.kheap_current_break ≡ s.kheap_current_break

abbrev pub Merges : Heap → ℕ → ℕ → ℕ → Option Heap → Type 0
Merges s b lo hi none = ⊥
Merges s b lo hi (some t) = Merged s b lo hi t

module _ (s : Heap) (b lo hi : ℕ) (aligned : b % 16 ≡ 0) (whole : (s.headers b).size % 16 ≡ 0)
    (chain : Chain s.headers lo s.kheap_free_list hi) (low : lo ≤ b)
    (high : end_of s.headers b ≤ hi) (small : hi < 2 ^ 64)
    (alone : Apart s.headers b (end_of s.headers b) s.kheap_free_list) where
  abbrev free : List ℕ
  free = s.kheap_free_list

  abbrev hd : Headers
  hd = s.headers

  abbrev hd1 : Headers
  hd1 = set_magic b kheap_magic hd

  same_size : hd1 b ≡ record { size = (hd b).size; magic = kheap_magic }
  unfolding write_header
  same_size = rw (==_refl b) refl

  same_end : end_of hd1 b ≡ end_of hd b
  same_end = ap (λ v. b + 32 + v.size) same_size

  other : (y : ℕ) → b ≢ y → hd1 y ≡ hd y
  unfolding write_header
  other y ne = rw (ne→== y b (λ e. ne (sym e))) refl

  kept : Agree hd hd1 free
  kept = write_header-Agree hd b _ free (Apart-Avoids hd b (end_of hd b) free (omega arith) alone)

  inserted-Chain : Chain hd1 lo (insert_block b free) hi
  inserted-Chain =
      insert_block-Chain hd1 b lo free hi (Chain-Agree hd hd1 lo free hi kept chain)
        (record {
          aligned = aligned;
          whole = ap (λ v. v.size % 16) same_size ∙ whole;
          marked = ap (λ v. v.magic) same_size;
        })
        low (omega (arith, high, same_end))
        (subst (λ e. Apart hd1 b e free) (sym same_end)
          (Apart-Agree hd hd1 b (end_of hd b) free kept alone))

  -- Ranges apart from the block and the list are apart from the list with it.
  inserted-Apart : (a z : ℕ) → Apart hd a z (b ∷ free) → Apart hd1 a z (insert_block b free)
  inserted-Apart a z p =
      Apart-insert_block hd1 b a z free
        (omega (arith, p.0, same_end), Apart-Agree hd hd1 a z free kept p.1)

  inserted-Fits : (n : ℕ) → n ≤ (hd b).size → Fits hd1 n (insert_block b free)
  inserted-Fits n le = Fits-insert_block hd1 b n (subst (λ v. n ≤ v.size) (sym same_size) le) free

  merged :
      (r : Option (List ℕ × Headers))
      → Joined hd1 lo (insert_block b free) hi r
      → Merges s b lo hi
          (coalesced (record s { headers = hd1; kheap_free_list = insert_block b free }) r)
  merged none null = null
  merged (some (l, hd')) j = record {
    chain = j.chain;
    same_total = omega (
      arith,
      j.same_total,
      total-insert_block hd1 b free,
      same_end,
      total-Agree hd hd1 free kept,
    );
    keeps = record {
      same = λ y z wide inside p.
          let q = inserted-Apart y z p in
          j.elsewhere y (Apart-Avoids hd1 y z (insert_block b free) (omega (arith, wide)) q)
          ∙ other y (λ e. omega (arith, e, p.0, wide));
      apart = λ y z wide inside p. j.apart y z (omega (arith, wide)) (inserted-Apart y z p);
    };
    no_touch = j.no_touch;
    fits = λ n le. j.fits n (inserted-Fits n le);
    same_break = refl;
  }

  -- Adding an aligned block that is apart from the list and coalescing never panics.
  pub coalesce_after-Merges : Merges s b lo hi (coalesce_after (kheap_add_to_free_list b s))
  unfolding kheap_add_to_free_list kheap_coalesce_free_list
  coalesce_after-Merges =
      rw aligned
        (merged _ (coalesce_list-Joined hd1 lo (insert_block b free) hi inserted-Chain small))
