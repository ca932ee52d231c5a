-- ===== src/Heap/RoundTrip.antt =====
-- kmalloc and then kfree of kernel/memory.c.
use farou_kernel.Base.{
  ℕ, List, [], ◌+◌, ◌^◌, ◌≤◌, ◌≡◌, ◌⊎◌, inl, inr, false, none, some, suc, subst, sym,
}
use farou_kernel.Heap.{Heap, kheap_expand}
use farou_kernel.Heap.Invariant.{IsHeap, Frees, kfree-Frees}
use farou_kernel.Heap.Carve.{Granted}
use farou_kernel.Heap.Alloc.{Mallocs, data_size, kmalloc-Mallocs}
use farou_kernel.Heap.Kmalloc.{Run, panicked, unfinished, returned, kmalloc, kfree}

-- The block goes back: what is handed out is as before the call.
abbrev pub GivesBack : Heap → List ℕ → ℕ → ℕ → Run → Type 0
GivesBack s live lost size panicked = kheap_expand (32 + data_size size) s ≡ none
GivesBack s live lost size unfinished = ⊥
GivesBack s live lost size (returned p t) =
    ((size ≡ 0) × (p ≡ 0))
    ⊎ ((kheap_expand (32 + data_size size) s ≡ some (false, t)) ⊎ Frees live lost (kfree p t))

Granted-Frees :
    (live : List ℕ) (lost n p : ℕ) (t : Heap)
    → Granted live lost n p t
    → Frees live lost (kfree p t)
Granted-Frees live lost n p t g =
    subst (λ q. Frees live lost (kfree q t)) (sym g.pointer)
      (kfree-Frees t [] live g.block lost g.heap)

Mallocs-GivesBack :
    (s : Heap) (live : List ℕ) (lost size : ℕ) (r : Run)
    → Mallocs s live lost size r
    → GivesBack s live lost size r
Mallocs-GivesBack s live lost size panicked m = m.1
Mallocs-GivesBack s live lost size unfinished null = null
Mallocs-GivesBack s live lost size (returned p t) (inl e) = inl (e.0, e.1)
Mallocs-GivesBack s live lost size (returned p t) (inr (inl r)) = inr (inl r.expansion)
Mallocs-GivesBack s live lost size (returned p t) (inr (inr g)) =
    inr (inr (Granted-Frees live lost size p t g))

-- A pointer that kmalloc hands out on a well-formed heap can be given to kfree at once: it does not panic,
-- and the blocks handed out are those of before the call.
pub kfree-kmalloc :
    (s : Heap) (live : List ℕ) (lost size k : ℕ)
    → IsHeap s live lost
    → size ≤ 2 ^ 46
    → GivesBack s live lost size (kmalloc (suc (suc k)) size s)
kfree-kmalloc s live lost size k v small =
    Mallocs-GivesBack s live lost size _ (kmalloc-Mallocs s live lost size k v small)
