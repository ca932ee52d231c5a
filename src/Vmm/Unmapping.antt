-- ===== src/Vmm/Unmapping.antt =====
-- vmm_unmap_page of kernel/memory.c.
use farou_kernel.Base.{
  ℕ, suc, ◌+◌, ◌%◌, ◌≤◌, ◌≡◌, ◌≢◌, refl, sym, ap, subst, ◌∙◌, true, Option, none, some, List, [],
  ◌∷◌, length, arith, Bool-cases, inl, inr,
}
use farou_kernel.Vmm.{
  Memory, is_present, frame_of, set_entry, Passed, with_frame, unmap_from, vmm_unmap_page, upper,
  pt_index,
}
use farou_kernel.Vmm.Tree.{
  lookup, present_entry, follow, Shape, IsTree, Indices, present_of_zero, follow-injective,
}
use farou_kernel.Vmm.Leaf.{
  with_entry, with_entry-IsTree, with_entry_hit, with_entry_miss, upper_entry,
}
use farou_kernel.Vmm.Mapping.{translate, page_of, upper-Indices, upper-injective}
use farou_kernel.Vmm.Clean.{OnPath, Cleaned, Frees, free_empty-Frees, OnPath-upper}

abbrev pub mapped_frame : Option ℕ → ℕ
mapped_frame none = 0
mapped_frame (some entry) = frame_of entry

-- The entries that a walk passes on its way down, the last one first.
abbrev pub passed : (ℕ → ℕ → ℕ) → ℕ → List ℕ → List Passed → List Passed
passed words t [] path = path
passed words t (i ∷ is) path =
    passed words (frame_of (words t i)) is
      (record { table = t; index = i; child = frame_of (words t i) } ∷ path)

-- The page's frame is given, or 0 where it has none; then the page has none, and every other page is
-- mapped as before. Where it had one, no table on its way is left empty: its frame is free, and the entry
-- that pointed to it is absent.
abbrev pub Unmaps : Memory → ℕ → ℕ → Option (ℕ × Memory) → Type 0
Unmaps m root virt_addr none = ⊥
Unmaps m root virt_addr (some (phys, n)) =
    (h : Shape) × IsTree h n
    × (h.level root ≡ 4)
    × (phys ≡ mapped_frame (translate m root virt_addr))
    × (translate n root virt_addr ≡ none)
    × ((a : ℕ) → page_of a ≢ page_of virt_addr → translate n root a ≡ translate m root a)
    × (translate m root virt_addr ≢ none → Cleaned n (passed m.words root (upper virt_addr) []))

module _ (h : Shape) (m : Memory) (v : IsTree h m) (root : ℕ) (top : h.level root ≡ 4)
    (virt_addr : ℕ) where
  -- The state in which the walk has come to the table `t`, with the indices `is` left.
  record At (t : ℕ) (is : List ℕ) (path : List Passed) : Type 0 where
    pub at_level : h.level t ≡ suc (length is)
    pub indices : Indices is
    pub on_path : OnPath h m path (length is)
    pub depth : length is + length path ≤ 3
    pub same_follow : follow m.words root (upper virt_addr) ≡ follow m.words t is
    pub same_path : passed m.words root (upper virt_addr) [] ≡ passed m.words t is path
    pub same_lookup : translate m root virt_addr ≡ lookup m.words t is (pt_index virt_addr)

  absent-Unmaps : translate m root virt_addr ≡ none → Unmaps m root virt_addr (some (0, m))
  absent-Unmaps e = (h, v, top, ap mapped_frame (sym e), e, (λ a ne. refl), λ ne. absurd (ne e))

  module _ (pt : ℕ) (path : List Passed) (at : At pt [] path)
      (y : is_present (m.words pt (pt_index virt_addr)) ≡ true) where
    abbrev cleared : Memory
    cleared = with_entry h m v pt (pt_index virt_addr) 0 at.at_level

    translated : translate m root virt_addr ≡ some (m.words pt (pt_index virt_addr))
    unfolding lookup present_entry
    translated = at.same_lookup ∙ rw y refl

    arrives : follow m.words root (upper virt_addr) ≡ some pt
    unfolding follow
    arrives = at.same_follow

    gone : lookup cleared.words root (upper virt_addr) (pt_index virt_addr) ≡ none
    unfolding present_entry
    gone =
        with_entry_hit h m v pt (pt_index virt_addr) 0 at.at_level root (upper virt_addr) top
          (upper-Indices virt_addr) arrives
        ∙ rw present_of_zero refl

    others :
        (a : ℕ)
        → page_of a ≢ page_of virt_addr
        → lookup cleared.words root (upper a) (pt_index a) ≡ translate m root a
    others a ne =
        with_entry_miss h m v pt (pt_index virt_addr) 0 at.at_level root (upper a) (pt_index a) top
          (upper-Indices a)
          (λ g e. absurd (
            ne (
              upper-injective a virt_addr
                ((follow-injective h m v (upper a) (upper virt_addr) root root pt top top refl
                  (upper-Indices a) (upper-Indices virt_addr) g arrives).1)
                e)))

    leaf-Unmaps :
        (r : Option Memory)
        → Frees h cleared path r
        → Unmaps m root virt_addr (with_frame (frame_of (m.words pt (pt_index virt_addr))) r)
    leaf-Unmaps none null = null
    leaf-Unmaps (some n) (h', p, c) = (
      h',
      p.tree,
      p.top root top,
      ap mapped_frame (sym translated),
      p.lookups root (upper virt_addr) (pt_index virt_addr) top refl (upper-Indices virt_addr)
            (omega arith)
          ∙ gone,
      λ a ne.
          p.lookups root (upper a) (pt_index a) top refl (upper-Indices a) (omega arith)
          ∙ others a ne,
      λ ne. subst (Cleaned n) (sym at.same_path) c,
    )

    cleared-OnPath : OnPath h cleared path 0
    cleared-OnPath =
        OnPath-upper h m h cleared 1 (λ x k b e. e)
          (λ x j k b e. upper_entry h m v pt (pt_index virt_addr) 0 at.at_level x j k b e) path 0
          (omega arith) at.on_path

  unmap_from-Unmaps :
      (is : List ℕ) (t : ℕ) (path : List Passed)
      → At t is path
      → Unmaps m root virt_addr (unmap_from is t path (pt_index virt_addr) m)
  unfolding unmap_from lookup follow set_entry present_entry
  unmap_from-Unmaps [] t path at = elim (Bool-cases (is_present (m.words t (pt_index virt_addr)))) [
    | inr n ↦ rw (n, Unmaps) (absent-Unmaps (at.same_lookup ∙ rw n refl))
    | inl y ↦ rw y (
        leaf-Unmaps t path at y _ (
          free_empty-Frees path h (cleared t path at y)
            (with_entry-IsTree h m v t (pt_index virt_addr) 0 at.at_level) 0
            (cleared-OnPath t path at y) at.depth))
  ]
  unmap_from-Unmaps (i ∷ is) t path at = elim (Bool-cases (is_present (m.words t i))) [
    | inr n ↦ rw (n, Unmaps) (absent-Unmaps (at.same_lookup ∙ rw n refl))
    | inl y ↦ rw y (
        unmap_from-Unmaps is (frame_of (m.words t i))
          (record { table = t; index = i; child = frame_of (m.words t i) } ∷ path)
          (record {
            at_level = (v.links t i (length is) at.at_level at.indices.0 y).child_level;
            indices = at.indices.1;
            on_path = (at.at_level, at.indices.0, y, refl, at.on_path);
            depth = omega (arith, at.depth);
            same_path = at.same_path;
            same_follow = at.same_follow ∙ rw y refl;
            same_lookup = at.same_lookup ∙ rw y refl;
          }))
  ]

  -- Where the page tables form a tree of used frames, vmm_unmap_page never panics and gives the frame that
  -- the page was mapped to, or 0. The tables form a tree again, the page has no translation, and every other
  -- page is translated as before. Where the page was mapped, each table on its way from the page table up either
  -- keeps a present entry, which ends the freeing, or its frame is free and the entry that pointed to it absent.
  pub vmm_unmap_page-Unmaps :
      virt_addr % 4096 ≡ 0 → Unmaps m root virt_addr (vmm_unmap_page root virt_addr m)
  unfolding vmm_unmap_page
  vmm_unmap_page-Unmaps whole = rw whole (
      unmap_from-Unmaps (upper virt_addr) root [] (record {
        at_level = top;
        indices = upper-Indices virt_addr;
        on_path = omega arith;
        depth = omega arith;
        same_follow = refl;
        same_path = refl;
        same_lookup = refl;
      }))
