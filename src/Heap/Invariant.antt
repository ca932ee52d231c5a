-- ===== src/Heap/Invariant.antt =====
-- The blocks of the kernel heap of kernel/memory.c, free and handed out, and kfree.
use farou_kernel.Base.{
  ℕ, List, [], ◌∷◌, ◌++◌, ◌+◌, ◌%◌, ◌^◌, ◌≤◌, ◌<◌, ◌≡◌, ◌⊎◌, refl, sym, ◌∙◌, subst, true, false,
  Option, none, some, ◌==◌, arith, ne→==, ==_iff,
}
use farou_kernel.Base.Word.{sub64, sub64_small}
use farou_kernel.Heap.Layout.{end_of, Chain, Apart, total, total-Agree}
use farou_kernel.Heap.{allocated_magic, Headers, Heap, kernel_heap_start, kheap_max_break}
use farou_kernel.Heap.Coalesce.{NoTouch}
use farou_kernel.Heap.Fit.{LiveBlock, Live, Live_step, Live-Agree}
use farou_kernel.Heap.Merge.{Merges, coalesce_after-Merges}
use farou_kernel.Heap.Kmalloc.{kfree}

-- The heap is made of the free blocks, the blocks `live` that are handed out, and `lost` bytes below the
-- break that belong to no block.
pub record IsHeap (s : Heap) (live : List ℕ) (lost : ℕ) : Type 0 where
  pub order : Chain s.headers kernel_heap_start s.kheap_free_list s.kheap_current_break
  pub handed_out : Live s.headers kernel_heap_start s.kheap_current_break s.kheap_free_list live
  pub bounded : s.kheap_current_break ≤ kheap_max_break
  pub paged : s.kheap_current_break % 4096 ≡ 0
  pub accounted :
      total s.headers s.kheap_free_list + total s.headers live + lost + kernel_heap_start
      ≡ s.kheap_current_break

-- A live block out of the list, wherever it stands in it.
pub record Held (hd : Headers) (lo hi b : ℕ) (free others : List ℕ) : Type 0 where
  pub block : LiveBlock hd b
  pub low : lo ≤ b
  pub high : end_of hd b ≤ hi
  pub alone : Apart hd b (end_of hd b) free
  pub apart : Apart hd b (end_of hd b) others
  pub rest : Live hd lo hi (b ∷ free) others

widen :
    (hd : Headers) (lo hi b : ℕ) (free bs : List ℕ)
    → Apart hd b (end_of hd b) bs
    → Live hd lo hi free bs
    → Live hd lo hi (b ∷ free) bs
widen hd lo hi b free [] a v = v
widen hd lo hi b free (c ∷ bs) a (live, low, high, p, q, v) =
    (live, low, high, (omega (arith, a.0), p), q, widen hd lo hi b free bs a.1 v)

Apart-remove :
    (hd : Headers) (a z b : ℕ) (xs ys : List ℕ)
    → Apart hd a z (xs ++ b ∷ ys)
    → ((z ≤ b) ⊎ (end_of hd b ≤ a)) × Apart hd a z (xs ++ ys)
Apart-remove hd a z b [] ys p = p
Apart-remove hd a z b (x ∷ xs) ys p = let q = Apart-remove hd a z b xs ys p.1 in (q.0, (p.0, q.1))

pub Live-Held :
    (hd : Headers) (lo hi b : ℕ) (free xs ys : List ℕ)
    → Live hd lo hi free (xs ++ b ∷ ys)
    → Held hd lo hi b free (xs ++ ys)
Live-Held hd lo hi b free [] ys (live, low, high, p, q, v) = record {
  block = live;
  low = low;
  high = high;
  alone = p;
  apart = q;
  rest = widen hd lo hi b free ys q v;
}
Live-Held hd lo hi b free (x ∷ xs) ys (live, low, high, p, q, v) =
    let h = Live-Held hd lo hi b free xs ys v in
    let r = Apart-remove hd x (end_of hd x) b xs ys q in
    record {
      block = h.block;
      low = h.low;
      high = h.high;
      alone = h.alone;
      apart = (omega (arith, r.0), h.apart);
      rest = (live, low, high, (r.0, p), r.1, h.rest);
    }

total_remove :
    (hd : Headers) (b : ℕ) (xs ys : List ℕ) → total hd (xs ++ b ∷ ys) ≡ total hd (b ∷ (xs ++ ys))
total_remove hd b [] ys = refl
total_remove hd b (x ∷ xs) ys = omega (arith, total_remove hd b xs ys)

-- The block is no longer handed out, and no two free blocks touch.
abbrev pub Frees : List ℕ → ℕ → Option Heap → Type 0
Frees live lost none = ⊥
Frees live lost (some t) = IsHeap t live lost × NoTouch t.headers t.kheap_free_list

module _ (s : Heap) (xs ys : List ℕ) (b lost : ℕ) (v : IsHeap s (xs ++ b ∷ ys) lost) where
  held : Held s.headers kernel_heap_start s.kheap_current_break b s.kheap_free_list (xs ++ ys)
  held =
      Live-Held s.headers kernel_heap_start s.kheap_current_break b s.kheap_free_list xs ys
        v.handed_out

  merged-Frees :
      (r : Option Heap)
      → Merges s b kernel_heap_start s.kheap_current_break r
      → Frees (xs ++ ys) lost r
  merged-Frees none null = null
  merged-Frees (some t) m =
      let kept =
        Live-Agree s.headers kernel_heap_start s.kheap_current_break (b ∷ s.kheap_free_list)
          t.headers s.kheap_current_break t.kheap_free_list m.keeps (xs ++ ys) held.rest in
      (
        record {
          order =
              subst (λ e. Chain t.headers kernel_heap_start t.kheap_free_list e) (sym m.same_break)
                m.chain;
          handed_out =
              subst (λ e. Live t.headers kernel_heap_start e t.kheap_free_list (xs ++ ys))
                (sym m.same_break)
                (Live_step s.headers kernel_heap_start s.kheap_current_break (b ∷ s.kheap_free_list)
                  t.headers s.kheap_current_break t.kheap_free_list m.keeps (omega arith) (xs ++ ys)
                  held.rest);
          bounded = omega (arith, v.bounded, m.same_break);
          paged = omega (arith, v.paged, m.same_break);
          accounted = omega (
            arith,
            v.accounted,
            m.same_break,
            m.same_total,
            total_remove s.headers b xs ys,
            total-Agree s.headers t.headers (xs ++ ys) kept,
          );
        },
        m.no_touch,
      )

  -- On a well-formed heap, kfree of a pointer handed out never panics: its block goes back, the heap is
  -- well-formed with no byte lost, and no two free blocks touch.
  pub kfree-Frees : Frees (xs ++ ys) lost (kfree (b + 32) s)
  unfolding kfree
  kfree-Frees =
      let below : b + 32 < 2 ^ 64 = omega (arith, held.high, v.bounded) in
      let back : sub64 (b + 32) 32 ≡ b =
        sub64_small (b + 32) 32 (omega arith) below ∙ omega arith in
      let not_null : (b + 32 == 0) ≡ false = ne→== _ _ (λ e. omega (arith, e)) in
      let m : ((s.headers b).magic == allocated_magic) ≡ true = (==_iff _ _).1 held.block.marked in
      rw (back, not_null, m)
        (merged-Frees _ (
          coalesce_after-Merges s b kernel_heap_start s.kheap_current_break held.block.aligned
            held.block.whole v.order held.low held.high (omega (arith, v.bounded)) held.alone))
