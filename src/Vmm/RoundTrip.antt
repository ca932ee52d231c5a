-- ===== src/Vmm/RoundTrip.antt =====
-- vmm_map_page and then vmm_unmap_page of kernel/memory.c.
use farou_kernel.Base.{
  ℕ, ◌+◌, ◌%◌, ◌^◌, ◌<◌, ◌≡◌, ◌≢◌, ap, ◌∙◌, Bool, true, false, Option, none, some,
}
use farou_kernel.Vmm.{Memory, flags_present, vmm_map_page, vmm_unmap_page}
use farou_kernel.Vmm.Tree.{Shape, IsTree, frame_of-mapped}
use farou_kernel.Vmm.Mapping.{translate, page_of, Maps, vmm_map_page-Maps}
use farou_kernel.Vmm.Unmapping.{mapped_frame, Unmaps, vmm_unmap_page-Unmaps}

-- The frame comes back, and every other page is mapped as at first.
abbrev pub Returns : Memory → ℕ → ℕ → ℕ → Option (ℕ × Memory) → Type 0
Returns m root virt_addr phys_addr none = ⊥
Returns m root virt_addr phys_addr (some (phys, n)) =
    (phys ≡ phys_addr)
    × (translate n root virt_addr ≡ none)
    × ((a : ℕ) → page_of a ≢ page_of virt_addr → translate n root a ≡ translate m root a)

abbrev pub Undone : Memory → ℕ → ℕ → ℕ → Option (Bool × Memory) → Type 0
Undone m root virt_addr phys_addr none =
    m.frames.pmm_highest_frame + 1 < m.frames.pmm_used_frames + 3
Undone m root virt_addr phys_addr (some (false, n)) = ⊥
Undone m root virt_addr phys_addr (some (true, n)) =
    Returns m root virt_addr phys_addr (vmm_unmap_page root virt_addr n)

module _ (m : Memory) (root virt_addr phys_addr flags : ℕ) (frame : phys_addr % 4096 ≡ 0)
    (narrow : phys_addr < 2 ^ 52) where
  abbrev entry : ℕ
  entry = phys_addr + flags_present flags

  unmapped-Returns :
      (n : Memory)
      → translate n root virt_addr ≡ some entry
      → ((a : ℕ) → page_of a ≢ page_of virt_addr → translate n root a ≡ translate m root a)
      → (r : Option (ℕ × Memory)) → Unmaps n root virt_addr r
      → Returns m root virt_addr phys_addr r
  unmapped-Returns n e others none null = null
  unmapped-Returns n e others (some (phys, n')) (h, v, top, got, gone, kept, cleaned) = (
    got ∙ ap mapped_frame e ∙ frame_of-mapped phys_addr flags frame narrow,
    gone,
    λ a ne. kept a ne ∙ others a ne,
  )

  mapped-Undone :
      virt_addr % 4096 ≡ 0
      → (r : Option (Bool × Memory)) → Maps m root virt_addr entry r
      → Undone m root virt_addr phys_addr r
  mapped-Undone whole none few = few
  mapped-Undone whole (some (false, n)) null = null
  mapped-Undone whole (some (true, n)) (h, v, top, e, others) =
      unmapped-Returns n e others (vmm_unmap_page root virt_addr n)
        (vmm_unmap_page-Unmaps h n v root top virt_addr whole)

  -- After vmm_map_page, which panics only where fewer than three frames are free, vmm_unmap_page gives the
  -- frame mapped; then the page has no translation, and every other page is translated as at first.
  pub vmm_unmap_page-vmm_map_page :
      (h : Shape)
      → IsTree h m
      → h.level root ≡ 4
      → virt_addr % 4096 ≡ 0
      → Undone m root virt_addr phys_addr (vmm_map_page root virt_addr phys_addr flags m)
  vmm_unmap_page-vmm_map_page h v top whole =
      mapped-Undone whole (vmm_map_page root virt_addr phys_addr flags m)
        (vmm_map_page-Maps h m v root top virt_addr phys_addr flags whole frame narrow)
