-- ===== src/Vmm/Walk.antt =====
-- The walk of kernel/memory.c that makes the tables missing on its way.
use farou_kernel.Base.{
  ℕ, suc, ◌+◌, ◌*◌, ◌≤◌, ◌<◌, ◌≡◌, refl, sym, ap, ◌∙◌, subst, Bool, true, false, Option, none, some,
  List, [], ◌∷◌, ◌==◌, length, arith, Bool-cases, inl, inr, ne→==,
}
use farou_kernel.Bitmap.{bit}
use farou_kernel.Bitmap.Count.{count_true_full}
use farou_kernel.Frames.{Frames, pmm_alloc_frame}
use farou_kernel.Frames.Allocate.{Allocates, pmm_alloc_frame-Allocates}
use farou_kernel.Vmm.{
  Memory, is_present, frame_of, set_entry, write_word, zero_frame, zeroed, enter_table,
  alloc_zeroed, vmm_get_next_level, go_down, walk_down,
}
use farou_kernel.Vmm.Tree.{follow, Shape, IsTree, Indices, follow_cons}
use farou_kernel.Vmm.Keeps.{Keeps, Keeps-refl, Keeps-trans, Keeps-weaken, Steps}
use farou_kernel.Vmm.Grow.{not_zero, grown-Steps}

-- A panic means that no frame is free; NULL is never given.
abbrev NextLevel : Shape → Memory → ℕ → ℕ → ℕ → Option (Option ℕ × Memory) → Type 0
NextLevel h m t i l none = m.frames.pmm_highest_frame < m.frames.pmm_used_frames
NextLevel h m t i l (some (none, n)) = ⊥
NextLevel h m t i l (some (some u, n)) = Steps h m t i l u n

module _ (h : Shape) (m : Memory) (v : IsTree h m) (t l i : ℕ) (lt : h.level t ≡ suc (suc l))
    (is_entry : i < 512) where
  no_frame :
      ((f : ℕ) → f ≤ m.frames.pmm_highest_frame → bit m.frames.pmm_bitmap f ≡ true)
      → m.frames.pmm_highest_frame < m.frames.pmm_used_frames
  no_frame all = omega (
    arith,
    v.valid.counted,
    count_true_full (bit m.frames.pmm_bitmap) (m.frames.pmm_highest_frame + 1)
        (λ j p. all j (omega arith)),
  )

  alloc-NextLevel :
      is_present (m.words t i) ≡ false
      → (r : Option (ℕ × Frames)) → Allocates m.frames r
      → NextLevel h m t i l (enter_table t i (zeroed m r))
  unfolding set_entry
  alloc-NextLevel absent none all = no_frame all
  alloc-NextLevel absent (some (a, s)) (f, e, small, free, filled, same_end, sv) =
      let nz = not_zero h m v t l i lt is_entry absent f s small free filled same_end sv in
      let z : (a == 0) ≡ false = rw e (ne→== (f * 4096) 0 nz) in
      rw (z, NextLevel, enter_table, zeroed)
        (subst
          (λ u.
            Steps h m t i l u
              (record { frames = s; words = write_word t i (u + 3) (zero_frame u m.words) }))
          (sym e) (grown-Steps h m v t l i lt is_entry absent f s small free filled same_end sv))

  found-NextLevel : is_present (m.words t i) ≡ true → Steps h m t i l (frame_of (m.words t i)) m
  found-NextLevel y = record {
    shape = h;
    tree = v;
    next_level = (v.links t i l lt is_entry y).child_level;
    keeps = Keeps-weaken h m h m 0 1 (omega arith) (Keeps-refl h m);
    present = y;
    target = refl;
  }

  vmm_get_next_level-NextLevel : NextLevel h m t i l (vmm_get_next_level t i true m)
  unfolding vmm_get_next_level alloc_zeroed
  vmm_get_next_level-NextLevel = elim (Bool-cases (is_present (m.words t i))) [
    | inl y ↦ rw (y, NextLevel) (found-NextLevel y)
    | inr n ↦
        rw (n, NextLevel)
          (alloc-NextLevel n (pmm_alloc_frame m.frames)
            (pmm_alloc_frame-Allocates m.frames v.valid))
  ]

-- The walk keeps the tree and every mapping, and arrives at the page table of the indices. It panics
-- only where fewer frames are free than it has levels to go down.
module _ (P : Option (Bool × Memory) → Type 0) (last : ℕ → Memory → Option (Bool × Memory))
    (is : List ℕ) where
  abbrev pub Exhausts : Memory → ℕ → Type 0
  Exhausts m k = m.frames.pmm_highest_frame + 1 < m.frames.pmm_used_frames + k → P none

  abbrev pub Arrives : Shape → Memory → ℕ → List ℕ → Type 0
  Arrives h m t js =
      (h' : Shape) (n : Memory) (pt : ℕ)
      → IsTree h' n
      → h'.level pt ≡ 1
      → follow n.words t js ≡ some pt
      → Keeps h m h' n (length js)
      → P (last pt n)

  abbrev pub Walked : Type 0
  Walked =
      (h : Shape) (m : Memory)
      → IsTree h m
      → (t : ℕ) → h.level t ≡ suc (length is)
      → Indices is
      → Exhausts m (length is)
      → Arrives h m t is
      → P (walk_down is t last m)

  walked_once :
      Walked
      → (h : Shape) (m : Memory) (t i : ℕ) → h.level t ≡ suc (suc (length is))
      → (i < 512)
      → Indices is
      → Exhausts m (suc (length is))
      → Arrives h m t (i ∷ is)
      → (r : Option (Option ℕ × Memory)) → NextLevel h m t i (length is) r
      → P (go_down (λ u n. walk_down is u last n) r)
  walked_once below h m t i lt b bs exhausted arrive none all = exhausted (omega (arith, all))
  walked_once below h m t i lt b bs exhausted arrive (some (none, n)) null = absurd null
  walked_once below h m t i lt b bs exhausted arrive (some (some u, n)) st =
      below st.shape n st.tree u st.next_level bs
        (λ q. exhausted (omega (arith, q, st.keeps.taken, st.keeps.highest)))
        (λ h' n' pt v' e f k.
          let same = k.entries t i (suc (length is)) (st.keeps.levels t _ lt) b st.present in
          arrive h' n' pt v' e
            (follow_cons n'.words t i u is pt (ap is_present same ∙ st.present)
              (ap frame_of same ∙ st.target) f)
            (Keeps-weaken h m h' n' (1 + length is) (suc (length is)) (omega arith)
              (Keeps-trans h m st.shape n h' n' 1 (length is) st.keeps k)))

pub walk_down_lem :
    (P : Option (Bool × Memory) → Type 0) (last : ℕ → Memory → Option (Bool × Memory)) (is : List ℕ)
    → Walked P last is
unfolding walk_down follow
walk_down_lem P last [] h m v t lt b exhausted arrive = arrive h m t v lt refl (Keeps-refl h m)
walk_down_lem P last (i ∷ is) h m v t lt b exhausted arrive =
    walked_once P last is (walk_down_lem P last is) h m t i lt b.0 b.1 exhausted arrive
      (vmm_get_next_level t i true m) (vmm_get_next_level-NextLevel h m v t (length is) i lt b.0)
