-- ===== src/Vmm/Mapping.antt =====
-- vmm_map_page of kernel/memory.c.
use farou_kernel.Base.{
  ℕ, ◌+◌, ◌/◌, ◌%◌, ◌^◌, ◌<◌, ◌≡◌, ◌≢◌, refl, ◌∙◌, Bool, true, false, Option, none, some, arith,
}
use farou_kernel.Vmm.{
  Memory, flags_present, set_entry, vmm_map_page, upper, pt_index, pml4_index, pdpt_index, pd_index,
}
use farou_kernel.Vmm.Tree.{
  lookup, present_entry, follow, Shape, IsTree, Indices, present_of_mapped, follow-injective,
  frame_of-small,
}
use farou_kernel.Vmm.Keeps.{Keeps}
use farou_kernel.Vmm.Walk.{walk_down_lem}
use farou_kernel.Vmm.Leaf.{with_entry-IsTree, with_entry_hit, with_entry_miss}

-- The entry that the processor finds for an address.
abbrev pub translate : Memory → ℕ → ℕ → Option ℕ
translate m root virt_addr = lookup m.words root (upper virt_addr) (pt_index virt_addr)

-- The number of the page among those that four levels of tables tell apart.
abbrev pub page_of : ℕ → ℕ
page_of virt_addr = virt_addr / 4096 % 2 ^ 36

pub upper-Indices : (a : ℕ) → Indices (upper a)
upper-Indices a = (omega arith, (omega arith, (omega arith, omega arith)))

pub upper-injective :
    (a b : ℕ) → upper a ≡ upper b → pt_index a ≡ pt_index b → page_of a ≡ page_of b
upper-injective a b e f =
    let e4 : pml4_index a ≡ pml4_index b = cc e in
    let e3 : pdpt_index a ≡ pdpt_index b = cc e in
    let e2 : pd_index a ≡ pd_index b = cc e in omega (arith, e4, e3, e2, f)

abbrev pub Maps : Memory → ℕ → ℕ → ℕ → Option (Bool × Memory) → Type 0
Maps m root virt_addr entry none = m.frames.pmm_highest_frame + 1 < m.frames.pmm_used_frames + 3
Maps m root virt_addr entry (some (false, n)) = ⊥
Maps m root virt_addr entry (some (true, n)) =
    (h : Shape) × IsTree h n
    × (h.level root ≡ 4)
    × (translate n root virt_addr ≡ some entry)
    × ((a : ℕ) → page_of a ≢ page_of virt_addr → translate n root a ≡ translate m root a)

module _ (h : Shape) (m : Memory) (v : IsTree h m) (root : ℕ) (top : h.level root ≡ 4)
    (virt_addr phys_addr flags : ℕ) (whole : virt_addr % 4096 ≡ 0) (frame : phys_addr % 4096 ≡ 0)
    (narrow : phys_addr < 2 ^ 52) where
  abbrev entry : ℕ
  entry = phys_addr + flags_present flags

  present_is : present_entry entry ≡ some entry
  unfolding present_entry
  present_is = rw (present_of_mapped phys_addr flags frame) refl

  arrived :
      (h' : Shape) (n : Memory) (pt : ℕ)
      → IsTree h' n
      → h'.level pt ≡ 1
      → follow n.words root (upper virt_addr) ≡ some pt
      → Keeps h m h' n 3
      → Maps m root virt_addr entry (some (true, set_entry pt (pt_index virt_addr) entry n))
  unfolding set_entry
  arrived h' n pt v' lp f k =
      let top' = k.levels root 3 top in
      let idx = upper-Indices virt_addr in
      let hit =
        with_entry_hit h' n v' pt (pt_index virt_addr) entry lp root (upper virt_addr) top' idx f in
      (
        h',
        with_entry-IsTree h' n v' pt (pt_index virt_addr) entry lp,
        top',
        hit ∙ present_is,
        λ a ne.
            with_entry_miss h' n v' pt (pt_index virt_addr) entry lp root (upper a) (pt_index a)
              top' (upper-Indices a)
              (λ g e. absurd (
                ne (
                  upper-injective a virt_addr
                    ((follow-injective h' n v' (upper a) (upper virt_addr) root root pt top' top'
                      refl (upper-Indices a) idx g f).1)
                    e)))
            ∙ k.lookups root (upper a) (pt_index a) top (upper-Indices a) (omega arith),
      )

  -- Where the page tables form a tree of used frames, vmm_map_page panics only where fewer than three
  -- frames are free. Else it succeeds, the tables form a tree again, the page is translated to the frame
  -- with the flags given, and every other page is translated as before.
  pub vmm_map_page-Maps :
      Maps m root virt_addr entry (vmm_map_page root virt_addr phys_addr flags m)
  unfolding vmm_map_page
  vmm_map_page-Maps =
      rw (whole, frame, frame_of-small phys_addr frame narrow)
        (walk_down_lem (Maps m root virt_addr entry)
          (λ pt n. some (true, set_entry pt (pt_index virt_addr) entry n)) (upper virt_addr) h m v
          root top (upper-Indices virt_addr) (λ q. q) arrived)
