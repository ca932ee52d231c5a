-- ===== src/Vmm/Tests.antt =====
-- Runs of the page tables of kernel/memory.c, and the theorems at such inputs.
use farou_kernel.Base.{
  ℕ, suc, ◌+◌, ◌-◌, ◌/◌, ◌&&◌, ◌≡◌, refl, true, ltb, ◌==◌, arith, if◌then◌else◌,
}
use farou_kernel.Bitmap.{bit}
use farou_kernel.Bitmap.Count.{count_true}
use farou_kernel.Frames.{Frames}
use farou_kernel.Frames.Allocate.{Inv}
use farou_kernel.Vmm.{Memory, vmm_map_page, vmm_unmap_page, is_present, frame_of, flags_present}
use farou_kernel.Vmm.Tree.{Shape, IsTree, Link}
use farou_kernel.Vmm.Mapping.{Maps, vmm_map_page-Maps}
use farou_kernel.Vmm.Unmapping.{Unmaps, vmm_unmap_page-Unmaps}
use farou_kernel.Vmm.RoundTrip.{Undone, vmm_unmap_page-vmm_map_page}

-- Eight frames: frame 0 is reserved and frame 1 is the root table.
abbrev eight : Frames
eight = record {
  pmm_bitmap = λ i j. ltb j 2;
  pmm_bitmap_size_qwords = 1;
  pmm_used_frames = 2;
  pmm_highest_frame = 7;
  pmm_last_allocated_index = 0;
}

eight-Inv : Inv eight
unfolding bit count_true
eight-Inv = record {
  covered = omega arith;
  addressable = omega arith;
  hint = omega arith;
  counted = refl;
}

abbrev blank : Memory
blank = record { frames = eight; words = λ t i. 0 }

abbrev only_root : Shape
only_root = record { level = λ t. if t == 4096 then 4 else 0; parent = λ t. 0; slot = λ t. 0 }

level_root : (t l : ℕ) → only_root.level t ≡ suc l → t ≡ 4096
level_root t l e = ground (arith, e)

blank-IsTree : IsTree only_root blank
unfolding is_present bit
blank-IsTree = record {
  valid = eight-Inv;
  narrow = omega arith;
  reserved = refl;
  placed = λ t l e. record {
    index = 1;
    address = level_root t l e;
    small = omega arith;
    used = refl;
    nonzero = λ z. omega (arith, z);
  };
  links = λ t i l e b y. absurd (cc y);
}

vmm_map_page-Maps_example :
    Maps blank 4096 4198400 (20480 + flags_present 3) (vmm_map_page 4096 4198400 20480 3 blank)
vmm_map_page-Maps_example =
    vmm_map_page-Maps only_root blank blank-IsTree 4096 refl 4198400 20480 3 refl refl (omega arith)

-- The page 4198400 is mapped to the frame 20480 through the tables in the frames 2, 3 and 4.
abbrev mapped_words : ℕ → ℕ → ℕ
mapped_words t i =
    if (t == 4096) && (i == 0)
    then 8195
    else (if (t == 8192) && (i == 0)
        then 12291
        else (if (t == 12288) && (i == 2)
            then 16387
            else (if (t == 16384) && (i == 1) then 20483 else 0)))

abbrev mapped : Memory
mapped = record {
  frames = record eight { pmm_bitmap = λ i j. ltb j 5; pmm_used_frames = 5 };
  words = mapped_words;
}

abbrev chain : Shape
chain = record {
  level = λ t.
      if t == 4096
      then 4
      else (if t == 8192 then 3 else (if t == 12288 then 2 else (if t == 16384 then 1 else 0)));
  parent = λ t. t - 4096;
  slot = λ t. if t == 16384 then 2 else 0;
}

mapped-Link :
    (t i l : ℕ)
    → chain.level t ≡ suc (suc l)
    → is_present (mapped_words t i) ≡ true
    → Link chain t i l (frame_of (mapped_words t i))
unfolding is_present frame_of
mapped-Link t i l e y = record {
  child_level = ground (arith, e, y);
  child_parent = ground (arith, e, y);
  child_slot = ground (arith, e, y);
}

mapped-IsTree : IsTree chain mapped
unfolding bit count_true
mapped-IsTree = record {
  valid = record {
    covered = omega arith;
    addressable = omega arith;
    hint = omega arith;
    counted = refl;
  };
  narrow = omega arith;
  reserved = refl;
  placed = λ t l e. record {
    index = t / 4096;
    address = ground (arith, e);
    small = ground (arith, e);
    used = ground (arith, e);
    nonzero = λ z. ground (arith, e, z);
  };
  links = λ t i l e b y. mapped-Link t i l e y;
}

vmm_unmap_page-Unmaps_example : Unmaps mapped 4096 4198400 (vmm_unmap_page 4096 4198400 mapped)
vmm_unmap_page-Unmaps_example =
    vmm_unmap_page-Unmaps chain mapped mapped-IsTree 4096 refl 4198400 refl

vmm_unmap_page-vmm_map_page_example :
    Undone blank 4096 4198400 20480 (vmm_map_page 4096 4198400 20480 3 blank)
vmm_unmap_page-vmm_map_page_example =
    vmm_unmap_page-vmm_map_page blank 4096 4198400 20480 3 refl (omega arith) only_root blank-IsTree
      refl refl
