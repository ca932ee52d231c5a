-- ===== src/Heap/Expand.antt =====
-- kheap_expand of kernel/memory.c.
use farou_kernel.Base.{
  ℕ, suc, zero, ◌+◌, ◌-◌, ◌*◌, ◌/◌, ◌%◌, ◌^◌, ◌≤◌, ◌<◌, ◌≡◌, inl, inr, refl, ap, ◌∙◌, subst, Bool,
  true, false, Option, none, some, ltb, ◌==◌, arith, Bool-cases, ltb→ge,
}
use farou_kernel.Base.Word.{add64, add64_small, align_up, align_down}
use farou_kernel.Vmm.{Memory, vmm_map_page, alloc_zeroed, free_frame}
use farou_kernel.Heap.{
  Heap, kheap_max_break, heap_flags, give_up, page_mapped, frame_given, map_pages, expanded,
  kheap_expand,
}

-- The blocks are as they were, and the break is `e`.
pub record Moved (s : Heap) (e : ℕ) (t : Heap) : Type 0 where
  pub pages : Memory
  pub state : t ≡ record s { kheap_current_break = e; memory = pages }

Moved-from :
    (s : Heap) (m : Memory) (e : ℕ) (t : Heap) → Moved (record s { memory = m }) e t → Moved s e t
Moved-from s m e t v = record { pages = v.pages; state = v.state }

-- The loop ends with the break as it was, or gives up at a page of the range.
abbrev MapsPages : ℕ → ℕ → Heap → Option (Bool × Heap) → Type 0
MapsPages rounds addr s none = 0 ≤ 0
MapsPages rounds addr s (some (true, t)) = Moved s s.kheap_current_break t
MapsPages rounds addr s (some (false, t)) = (k : ℕ) × (k < rounds) × Moved s (addr + 4096 * k) t

MapsPages-next :
    (rounds addr : ℕ) (s : Heap) (m : Memory) (r : Option (Bool × Heap))
    → MapsPages rounds (addr + 4096) (record s { memory = m }) r
    → MapsPages (suc rounds) addr s r
MapsPages-next rounds addr s m none v = v
MapsPages-next rounds addr s m (some (true, t)) v = Moved-from s m s.kheap_current_break t v
MapsPages-next rounds addr s m (some (false, t)) (k, lt, v) = (
  suc k,
  omega (arith, lt),
  subst (λ e. Moved s e t) (omega arith) (Moved-from s m (addr + 4096 + 4096 * k) t v),
)

addr_zero : (addr : ℕ) → addr + 4096 * 0 ≡ addr
addr_zero addr = omega arith

give_up-MapsPages :
    (rounds addr : ℕ) (s : Heap) (r : Option Memory)
    → MapsPages (suc rounds) addr s (give_up addr s r)
give_up-MapsPages rounds addr s none = omega arith
give_up-MapsPages rounds addr s (some m) =
    (0, omega arith, record { pages = m; state = rw (addr_zero addr) refl })

page_mapped-MapsPages :
    (rounds addr phys_frame : ℕ) (s : Heap) (next : Heap → Option (Bool × Heap))
    → ((m : Memory)
        → MapsPages rounds (addr + 4096) (record s { memory = m }) (next (record s { memory = m })))
    → (r : Option (Bool × Memory))
    → MapsPages (suc rounds) addr s (page_mapped addr phys_frame s next r)
page_mapped-MapsPages rounds addr phys_frame s next go none = omega arith
page_mapped-MapsPages rounds addr phys_frame s next go (some (false, m)) =
    give_up-MapsPages rounds addr s (free_frame phys_frame m)
page_mapped-MapsPages rounds addr phys_frame s next go (some (true, m)) =
    MapsPages-next rounds addr s m (next (record s { memory = m })) (go m)

frame_given-MapsPages :
    (rounds addr : ℕ) (s : Heap) (next : Heap → Option (Bool × Heap))
    → ((m : Memory)
        → MapsPages rounds (addr + 4096) (record s { memory = m }) (next (record s { memory = m })))
    → (r : Option (ℕ × Memory)) → MapsPages (suc rounds) addr s (frame_given addr s next r)
frame_given-MapsPages rounds addr s next go none = omega arith
frame_given-MapsPages rounds addr s next go (some (phys_frame, m)) =
    elim (Bool-cases (phys_frame == 0)) [
      | inl y ↦ rw y (give_up-MapsPages rounds addr s (some m))
      | inr other ↦ rw other (
          page_mapped-MapsPages rounds addr phys_frame s next go
            (vmm_map_page s.pml4_phys addr phys_frame heap_flags m))
    ]

map_pages-MapsPages :
    (rounds addr : ℕ) (s : Heap) → MapsPages rounds addr s (map_pages rounds addr s)
unfolding map_pages
map_pages-MapsPages zero addr s = record { pages = s.memory; state = refl }
map_pages-MapsPages (suc rounds) addr s =
    frame_given-MapsPages rounds addr s (λ t. map_pages rounds (addr + 4096) t)
      (λ m. map_pages-MapsPages rounds (addr + 4096) (record s { memory = m }))
      (alloc_zeroed s.memory)

-- Success moves the break up by at least the bytes needed, to a page's start below the limit. Failure may
-- have moved it too.
abbrev pub Expands : Heap → ℕ → Option (Bool × Heap) → Type 0
Expands s bytes none = 0 ≤ 0
Expands s bytes (some (true, t)) =
    (e : ℕ) × (s.kheap_current_break + bytes ≤ e)
    × (e ≤ kheap_max_break)
    × (e % 4096 ≡ 0)
    × Moved s e t
Expands s bytes (some (false, t)) =
    (e : ℕ) × (s.kheap_current_break ≤ e) × (e ≤ kheap_max_break) × (e % 4096 ≡ 0) × Moved s e t

module _ (s : Heap) (bytes : ℕ) (low : s.kheap_current_break ≤ kheap_max_break)
    (paged : s.kheap_current_break % 4096 ≡ 0) (small : bytes ≤ 2 ^ 46 + 64) where
  abbrev step : ℕ
  step = (bytes + 4095) / 4096 * 4096

  aligned_up : align_up 4096 bytes ≡ step
  unfolding align_up align_down
  aligned_up = omega (arith, small)

  new_break : add64 s.kheap_current_break (align_up 4096 bytes) ≡ s.kheap_current_break + step
  new_break =
      ap (add64 s.kheap_current_break) aligned_up ∙ add64_small _ _ (omega (arith, low, small))

  expanded-Expands :
      s.kheap_current_break + step ≤ kheap_max_break
      → (r : Option (Bool × Heap))
      → MapsPages
          ((s.kheap_current_break + step - s.kheap_current_break + 4095) / 4096)
          s.kheap_current_break
          s
          r
      → Expands s bytes (expanded (s.kheap_current_break + step) r)
  expanded-Expands fits none v = omega arith
  expanded-Expands fits (some (false, t)) (k, lt, v) = (
    s.kheap_current_break + 4096 * k,
    omega arith,
    omega (arith, lt, fits),
    omega (arith, paged),
    v,
  )
  expanded-Expands fits (some (true, t)) v = (
    s.kheap_current_break + step,
    omega arith,
    fits,
    omega (arith, paged),
    record { pages = v.pages; state = rw v.state refl },
  )

  pub kheap_expand-Expands : Expands s bytes (kheap_expand bytes s)
  unfolding kheap_expand
  kheap_expand-Expands = elim (Bool-cases (ltb kheap_max_break (s.kheap_current_break + step))) [
    | inl over ↦
        rw (new_break, over)
          (
            s.kheap_current_break,
            omega arith,
            low,
            paged,
            record { pages = s.memory; state = refl },
          )
    | inr fits ↦
        rw (new_break, fits)
          (expanded-Expands (ltb→ge _ _ fits) _ (map_pages-MapsPages _ s.kheap_current_break s))
  ]
