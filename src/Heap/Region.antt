-- ===== src/Heap/Region.antt =====
-- The new region of the kernel heap of kernel/memory.c, as kmalloc makes it a free block.
use farou_kernel.Base.{
  ℕ, List, ◌∷◌, suc, ◌+◌, ◌-◌, ◌%◌, ◌≤◌, ◌<◌, ◌≡◌, inl, refl, sym, subst, Option, none, some, arith,
  ne→==, ==_refl,
}
use farou_kernel.Base.Word.{sub64, sub64_small}
use farou_kernel.Heap.Layout.{
  Fits, Chain, Agree, write_header-Agree, Chain-Agree, Apart-Agree, total-Agree, Apart-Avoids,
  Chain-le, Chain_lower, Apart-after,
}
use farou_kernel.Vmm.{Memory}
use farou_kernel.Heap.{Heap, set_size, write_header, kernel_heap_start, kheap_max_break}
use farou_kernel.Heap.Fit.{KeepsApart, Live, Live_step, Live-Agree}
use farou_kernel.Heap.Merge.{Merges, coalesce_after-Merges}
use farou_kernel.Heap.Invariant.{IsHeap}
use farou_kernel.Heap.Kmalloc.{add_region}

abbrev pub moved : Heap → ℕ → Memory → Heap
moved s e m = record s { kheap_current_break = e; memory = m }

module _ (s : Heap) (live : List ℕ) (lost : ℕ) (v : IsHeap s live lost) (m : Memory) (e : ℕ)
    (limit : e ≤ kheap_max_break) (paged : e % 4096 ≡ 0) where
  abbrev e0 : ℕ
  e0 = s.kheap_current_break

  -- Bytes that an expansion adds without a block are lost.
  pub moved-IsHeap : e0 ≤ e → IsHeap (moved s e m) live (lost + (e - e0))
  moved-IsHeap le = record {
    order =
        Chain_lower s.headers kernel_heap_start kernel_heap_start s.kheap_free_list e0 e
          (omega arith) le v.order;
    handed_out =
        Live_step s.headers kernel_heap_start e0 s.kheap_free_list s.headers e s.kheap_free_list
          (record { same = λ y z w i p. refl; apart = λ y z w i p. p }) le live v.handed_out;
    bounded = limit;
    paged = paged;
    accounted = omega (arith, v.accounted, le);
  }

  module _ (n : ℕ) (room : e0 + 32 + n ≤ e) where
    abbrev with_size : Heap
    with_size = record (moved s e m) { headers = set_size e0 (e - e0 - 32) s.headers }

    size : (with_size.headers e0).size ≡ e - e0 - 32
    unfolding write_header
    size = rw (==_refl e0) refl

    kept : Agree s.headers with_size.headers s.kheap_free_list
    kept = write_header-Agree s.headers e0 _ s.kheap_free_list (
        Apart-Avoids s.headers e0 (suc e0) s.kheap_free_list (omega arith) (
          Apart-after s.headers kernel_heap_start s.kheap_free_list e0 e0 (suc e0) (omega arith)
            v.order))

    other : (y : ℕ) → y < e0 → with_size.headers y ≡ s.headers y
    unfolding write_header
    other y lt = rw (ne→== y e0 (λ q. omega (arith, q, lt))) refl

    sized : KeepsApart s.headers e0 s.kheap_free_list with_size.headers (e0 ∷ s.kheap_free_list)
    sized = record {
      same = λ y z wide inside p. other y (omega (arith, wide, inside));
      apart = λ y z wide inside p.
          (inl inside, Apart-Agree s.headers with_size.headers y z s.kheap_free_list kept p);
    }

    beside : Live with_size.headers kernel_heap_start e (e0 ∷ s.kheap_free_list) live
    beside =
        Live_step s.headers kernel_heap_start e0 s.kheap_free_list with_size.headers e
          (e0 ∷ s.kheap_free_list) sized (omega (arith, room)) live v.handed_out

    -- The heap with the new block, in which `n` bytes fit.
    abbrev pub Grows : Option Heap → Type 0
    Grows none = ⊥
    Grows (some t) = IsHeap t live lost × Fits t.headers n t.kheap_free_list

    merged-Grows : (r : Option Heap) → Merges with_size e0 kernel_heap_start e r → Grows r
    merged-Grows none null = null
    merged-Grows (some t) g =
        let kept_live =
          Live-Agree s.headers kernel_heap_start e0 s.kheap_free_list with_size.headers e
            (e0 ∷ s.kheap_free_list) sized live v.handed_out in
        let kept_after =
          Live-Agree with_size.headers kernel_heap_start e (e0 ∷ s.kheap_free_list) t.headers e
            t.kheap_free_list g.keeps live beside in
        (
          record {
            order =
                subst (λ a. Chain t.headers kernel_heap_start t.kheap_free_list a)
                  (sym g.same_break) g.chain;
            handed_out =
                subst (λ a. Live t.headers kernel_heap_start a t.kheap_free_list live)
                  (sym g.same_break)
                  (Live_step with_size.headers kernel_heap_start e (e0 ∷ s.kheap_free_list)
                    t.headers e t.kheap_free_list g.keeps (omega arith) live beside);
            bounded = omega (arith, limit, g.same_break);
            paged = omega (arith, paged, g.same_break);
            accounted = omega (
              arith,
              v.accounted,
              g.same_break,
              g.same_total,
              size,
              room,
              total-Agree s.headers with_size.headers s.kheap_free_list kept,
              total-Agree s.headers with_size.headers live kept_live,
              total-Agree with_size.headers t.headers live kept_after,
            );
          },
          g.fits n (omega (arith, size, room)),
        )

    pub add_region-Grows : Grows (add_region e0 (sub64 e e0) (moved s e m))
    unfolding add_region
    add_region-Grows =
        let d1 : sub64 e e0 ≡ e - e0 =
          sub64_small _ _ (omega (arith, room)) (omega (arith, limit)) in
        let d2 : sub64 (e - e0) 32 ≡ e - e0 - 32 =
          sub64_small _ _ (omega (arith, room)) (omega (arith, limit)) in
        rw (d1, d2)
          (merged-Grows _ (
            coalesce_after-Merges with_size e0 kernel_heap_start e (omega (arith, v.paged))
              (omega (arith, size, paged, v.paged, room))
              (Chain_lower with_size.headers kernel_heap_start kernel_heap_start s.kheap_free_list
                e0 e (omega arith) (omega (arith, room))
                (Chain-Agree s.headers with_size.headers kernel_heap_start s.kheap_free_list e0 kept
                  v.order))
              (Chain-le s.headers kernel_heap_start s.kheap_free_list e0 v.order)
              (omega (arith, size, room)) (omega (arith, limit))
              (Apart-after with_size.headers kernel_heap_start s.kheap_free_list e0 e0 _
                (omega arith)
                (Chain-Agree s.headers with_size.headers kernel_heap_start s.kheap_free_list e0 kept
                  v.order))))
