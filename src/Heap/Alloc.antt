-- ===== src/Heap/Alloc.antt =====
-- kmalloc of kernel/memory.c.
use farou_kernel.Base.{
  ℕ, List, suc, ◌+◌, ◌-◌, ◌*◌, ◌/◌, ◌%◌, ◌^◌, ◌≤◌, ◌<◌, ◌≡◌, ◌⊎◌, inl, inr, refl, sym, ap, ◌∙◌,
  subst, Bool, true, false, Option, none, some, leb, ◌==◌, if◌then◌else◌, arith, Bool-cases, ne→==,
  ==_iff, le→leb,
}
use farou_kernel.Base.Word.{add64, sub64, add64_small, sub64_small, align_up, align_down}
use farou_kernel.Heap.Layout.{Fits}
use farou_kernel.Vmm.{Memory}
use farou_kernel.Heap.{Heap, kernel_heap_start, kheap_max_break, kheap_expand}
use farou_kernel.Heap.Fit.{Finds, Takes, find_fit-Finds}
use farou_kernel.Heap.Invariant.{IsHeap}
use farou_kernel.Heap.Carve.{Granted}
use farou_kernel.Heap.Split.{GrantedRun, hand_out-GrantedRun}
use farou_kernel.Heap.Expand.{Expands, kheap_expand-Expands}
use farou_kernel.Heap.Region.{moved, moved-IsHeap, Grows, add_region-Grows}
use farou_kernel.Heap.Kmalloc.{
  Run, panicked, unfinished, returned, find_fit, add_region, retried, grown, searched, kmalloc,
}

-- The data size of a block for `size` bytes.
abbrev pub data_size : ℕ → ℕ
data_size size = (size + 15) / 16 * 16

-- NULL for want of memory: no free block was large enough, the expansion failed, and the blocks are as
-- before.
pub record Refused (s : Heap) (live : List ℕ) (lost size p : ℕ) (t : Heap) : Type 0 where
  pub null : p ≡ 0
  pub no_block : Fits s.headers (data_size size) s.kheap_free_list → ⊥
  pub expansion : kheap_expand (32 + data_size size) s ≡ some (false, t)
  pub more_lost : ℕ
  pub heap : IsHeap t live (lost + more_lost)

-- How a call for `size` bytes ends. It panics only where an expansion does, which no free block spared.
abbrev pub Mallocs : Heap → List ℕ → ℕ → ℕ → Run → Type 0
Mallocs s live lost size panicked =
    (Fits s.headers (data_size size) s.kheap_free_list → ⊥)
    × (kheap_expand (32 + data_size size) s ≡ none)
Mallocs s live lost size unfinished = ⊥
Mallocs s live lost size (returned p t) =
    ((size ≡ 0) × (p ≡ 0) × (t ≡ s)) ⊎ (Refused s live lost size p t ⊎ Granted live lost size p t)

module _ (size : ℕ) (small : size ≤ 2 ^ 46) where
  abbrev n : ℕ
  n = data_size size

  aligned_size : align_up 16 size ≡ n
  unfolding align_up align_down
  aligned_size = omega (arith, small)

  total_size : add64 32 n ≡ 32 + n
  total_size = add64_small _ _ (omega (arith, small))

  module _ (live : List ℕ) (lost : ℕ) where
    abbrev Hands : Run → Type 0
    Hands panicked = ⊥
    Hands unfinished = ⊥
    Hands (returned p t) = Granted live lost size p t

    Hands-Mallocs : (s : Heap) (r : Run) → Hands r → Mallocs s live lost size r
    Hands-Mallocs s panicked null = absurd null
    Hands-Mallocs s unfinished null = null
    Hands-Mallocs s (returned p t) g = inr (inr g)

    -- A block that was found is enough for the size itself.
    weakened :
        (s : Heap) (b : ℕ) (rest : List ℕ) (v : IsHeap s live lost)
        → (take : Takes s.headers kernel_heap_start s.kheap_free_list s.kheap_current_break n b
            rest)
        → (r : Run) → GrantedRun s live lost n b rest v take (omega arith) r
        → Hands r
    weakened s b rest v take panicked null = null
    weakened s b rest v take unfinished null = null
    weakened s b rest v take (returned p t) g = record {
      block = g.block;
      pointer = g.pointer;
      aligned = g.aligned;
      enough = omega (arith, g.enough);
      heap = g.heap;
    }

    -- Where a block fits, the call hands one out.
    fitting :
        (s : Heap) (retry : Heap → Run) (v : IsHeap s live lost)
        → Fits s.headers n s.kheap_free_list
        → (r : Option (Option (ℕ × List ℕ)))
        → Finds s.headers kernel_heap_start s.kheap_free_list s.kheap_current_break n r
        → Hands (searched n retry s r)
    fitting s retry v fits none null = null
    fitting s retry v fits (some none) no_fit = absurd (no_fit fits)
    fitting s retry v fits (some (some (b, rest))) take =
        weakened s b rest v take _ (hand_out-GrantedRun s live lost n b rest v take (omega arith))

    fitting_call :
        (k : ℕ) (s : Heap)
        → 0 < size
        → IsHeap s live lost
        → Fits s.headers n s.kheap_free_list
        → Hands (kmalloc (suc k) size s)
    unfolding kmalloc
    fitting_call k s some_bytes v fits =
        let not_none : (size == 0) ≡ false = ne→== _ _ (λ e. omega (arith, e, some_bytes)) in
        rw (not_none, aligned_size)
          (fitting s (λ t. kmalloc k size t) v fits _
            (find_fit-Finds s.headers kernel_heap_start s.kheap_free_list s.kheap_current_break n
              v.order))

    module _ (s : Heap) (v : IsHeap s live lost) (some_bytes : 0 < size) (k : ℕ) where
      retry-Hands :
          (m : Memory) (e : ℕ) (le : e ≤ kheap_max_break) (paged : e % 4096 ≡ 0)
          → (room : s.kheap_current_break + 32 + n ≤ e) → (r : Option Heap)
          → Grows s live lost v m e le paged n room r
          → Hands (retried (λ t. kmalloc (suc k) size t) r)
      retry-Hands m e le paged room none null = null
      retry-Hands m e le paged room (some t) (w, fits) = fitting_call k t some_bytes w fits

      grown-Mallocs :
          (Fits s.headers n s.kheap_free_list → ⊥)
          → (r : Option (Bool × Heap)) → kheap_expand (32 + n) s ≡ r
          → Expands s (32 + n) r
          → Mallocs s live lost size
              (grown s.kheap_current_break (32 + n) (λ t. kmalloc (suc k) size t) r)
      grown-Mallocs no_fit none run x = (no_fit, run)
      grown-Mallocs no_fit (some (false, t)) run (e, low, le, paged, mv) = inr (
          inl (record {
            null = refl;
            no_block = no_fit;
            expansion = run;
            more_lost = e - s.kheap_current_break;
            heap =
                subst (λ u. IsHeap u live (lost + (e - s.kheap_current_break))) (sym mv.state)
                  (moved-IsHeap s live lost v mv.pages e le paged low);
          }))
      grown-Mallocs no_fit (some (true, t)) run (e, low, le, paged, mv) =
          let room : s.kheap_current_break + 32 + n ≤ e = omega (arith, low) in
          let size_of : sub64 e s.kheap_current_break ≡ e - s.kheap_current_break =
            sub64_small _ _ (omega (arith, room)) (omega (arith, le)) in
          let wide : leb (32 + n) (e - s.kheap_current_break) ≡ true =
            le→leb _ _ (omega (arith, room)) in
          subst
            (λ u.
              Mallocs s live lost size (
                grown s.kheap_current_break (32 + n) (λ a. kmalloc (suc k) size a)
                  (some (true, u))))
            (sym mv.state)
            (subst
              (λ b. Mallocs s live lost size (
                if b
                then retried (λ a. kmalloc (suc k) size a)
                    (add_region s.kheap_current_break (sub64 e s.kheap_current_break)
                      (moved s e mv.pages))
                else panicked))
              (sym (ap (leb (32 + n)) size_of ∙ wide))
              (Hands-Mallocs s _ (
                retry-Hands mv.pages e le paged room _
                  (add_region-Grows s live lost v mv.pages e le paged n room))))

      searched-Mallocs :
          (r : Option (Option (ℕ × List ℕ)))
          → Finds s.headers kernel_heap_start s.kheap_free_list s.kheap_current_break n r
          → Mallocs s live lost size (searched n (λ t. kmalloc (suc k) size t) s r)
      searched-Mallocs none null = absurd null
      searched-Mallocs (some none) no_fit = rw total_size (
          grown-Mallocs no_fit _ refl
            (kheap_expand-Expands s (32 + n) v.bounded v.paged (omega (arith, small))))
      searched-Mallocs (some (some (b, rest))) take = Hands-Mallocs s _ (
          weakened s b rest v take _
            (hand_out-GrantedRun s live lost n b rest v take (omega arith)))

-- One call, with the next one shut.
kmalloc_step :
    (rounds size : ℕ) (s : Heap)
    → kmalloc (suc rounds) size s ≡ (
        if size == 0
        then returned 0 s
        else searched
            (align_up 16 size)
            (λ t. kmalloc rounds size t)
            s
            (find_fit (align_up 16 size) s.kheap_free_list s.headers))
unfolding kmalloc
kmalloc_step rounds size s = refl

-- On a well-formed heap, for a size up to 2^46, kmalloc ends with at most one retry. It panics or gives
-- NULL for a size above 0 only where no free block is large enough and the expansion panics or fails. Else
-- the pointer is 16-byte aligned, its block has the bytes asked for, apart from all other blocks, and the
-- heap is well-formed with no byte lost.
pub kmalloc-Mallocs :
    (s : Heap) (live : List ℕ) (lost size k : ℕ)
    → IsHeap s live lost
    → size ≤ 2 ^ 46
    → Mallocs s live lost size (kmalloc (suc (suc k)) size s)
kmalloc-Mallocs s live lost size k v small = elim (Bool-cases (size == 0)) [
  | inl y ↦ rw (kmalloc_step (suc k) size s, y, Mallocs) (inl ((==_iff _ _).0 y, refl, refl))
  | inr other ↦
      rw (kmalloc_step (suc k) size s, other, aligned_size size small)
        (searched-Mallocs size small live lost s v (ground (arith, other)) k _ (
          find_fit-Finds s.headers kernel_heap_start s.kheap_free_list s.kheap_current_break
            (data_size size) v.order))
]
