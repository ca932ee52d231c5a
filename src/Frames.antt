-- ===== src/Frames.antt =====
-- The physical frame allocator of kernel/memory.c.
-- `none` stands for `kpanic`, which a failed assertion calls too. The lock is held through each body,
-- so an operation is one step. The frame's contents, which are zeroed, are left out.
pub mod Search
pub mod Allocate
pub mod Release
mod Tests
use farou_kernel.Base.{
  ℕ, zero, suc, ◌+◌, ◌-◌, ◌*◌, ◌/◌, ◌%◌, ◌^◌, ◌≤◌, ◌<◌, ◌≡◌, Bool, true, false, not, ◌&&◌, Option,
  none, some, ltb, leb, ◌==◌, if◌then◌else◌,
}
use farou_kernel.Base.Word.{add64, sub64}
use farou_kernel.Bitmap.{Words, bit, write_bit}

abbrev pub page_size : ℕ
page_size = 4096

-- The static variables of the allocator.
pub record Frames : Type 0 where
  pub pmm_bitmap : Words
  pub pmm_bitmap_size_qwords : ℕ
  pub pmm_used_frames : ℕ
  pub pmm_highest_frame : ℕ
  pub pmm_last_allocated_index : ℕ

unfoldable pub pmm_bitmap_write : Bool → ℕ → Frames → Option Frames
pmm_bitmap_write b frame_index s =
    if ltb (frame_index / 64) s.pmm_bitmap_size_qwords
    then some
        (record s { pmm_bitmap = write_bit s.pmm_bitmap (frame_index / 64) (frame_index % 64) b })
    else none

abbrev pub pmm_bitmap_set : ℕ → Frames → Option Frames
pmm_bitmap_set = pmm_bitmap_write true

abbrev pub pmm_bitmap_clear : ℕ → Frames → Option Frames
pmm_bitmap_clear = pmm_bitmap_write false

unfoldable pub pmm_bitmap_test : ℕ → Frames → Option Bool
pmm_bitmap_test frame_index s =
    if ltb (frame_index / 64) s.pmm_bitmap_size_qwords
    then some (bit s.pmm_bitmap frame_index)
    else none

-- `__builtin_ctzll(~qword)`, or `none` where all bits are set; `rounds` bits are left, from `j` on.
unfoldable pub first_zero : (ℕ → Bool) → ℕ → ℕ → Option ℕ
first_zero q zero j = none
first_zero q (suc rounds) j = let rest = first_zero q rounds (j + 1) in if q j then rest else some j

-- The search for a single frame, `rounds` words before the end of the loop.
unfoldable pub find_frame : ℕ → ℕ → ℕ → Frames → Option ℕ
find_frame zero i start_qword s = none
find_frame (suc rounds) i start_qword s =
    let rest = find_frame rounds (i + 1) start_qword s in
    let current_qword_idx = (start_qword + i) % s.pmm_bitmap_size_qwords in
    elim (first_zero (s.pmm_bitmap current_qword_idx) 64 0) [
      | none ↦ rest
      | some b ↦
          if leb (current_qword_idx * 64 + b) s.pmm_highest_frame
          then some (current_qword_idx * 64 + b)
          else rest
    ]

-- The search for a run, with the state of its loop: the answer, or a panic.
unfoldable pub find_frames : ℕ → ℕ → ℕ → ℕ → ℕ → Frames → Option (Option ℕ)
find_frames count zero current_offset start_index consecutive_free s = some none
find_frames count (suc rounds) current_offset start_index consecutive_free s =
    let search_index = (start_index + current_offset) % (s.pmm_highest_frame + 1) in
    let next = λ (n : ℕ). find_frames count rounds (current_offset + 1) start_index n s in
    elim (pmm_bitmap_test search_index s) [
      | none ↦ none
      | some used ↦
          if used
          then next 0
          else (if consecutive_free + 1 == count
              then some (some (add64 (sub64 search_index count) 1))
              else next (consecutive_free + 1))
    ]

unfoldable pub pmm_find_first_free_contiguous : ℕ → Frames → Option (Option ℕ)
pmm_find_first_free_contiguous count s =
    if count == 0
    then some none
    else (if count == 1
        then some (find_frame s.pmm_bitmap_size_qwords 0 (s.pmm_last_allocated_index / 64) s)
        else find_frames count (s.pmm_highest_frame + 1) 0
            (if ltb s.pmm_highest_frame (s.pmm_last_allocated_index + 1)
              then 0
              else s.pmm_last_allocated_index + 1)
            0 s)

-- The frame is asserted to be free, and taken.
unfoldable pub take_frame : ℕ → Frames → Option (ℕ × Frames)
take_frame frame_index s = elim (pmm_bitmap_test frame_index s) [
  | none ↦ none
  | some used ↦ if used then none else (elim (pmm_bitmap_set frame_index s) [
    | none ↦ none
    | some t ↦ some (
      frame_index * page_size % 2 ^ 64,
      record t {
        pmm_used_frames = add64 t.pmm_used_frames 1;
        pmm_last_allocated_index = frame_index;
      },
    )
  ])
]

unfoldable pub pmm_alloc_frame : Frames → Option (ℕ × Frames)
pmm_alloc_frame s = elim (pmm_find_first_free_contiguous 1 s) [
  | none ↦ none
  | some found ↦ elim found [ none ↦ none | some frame_index ↦ take_frame frame_index s ]
]

unfoldable pub release_frame : ℕ → Frames → Option Frames
release_frame frame_index s = elim (pmm_bitmap_test frame_index s) [
  | none ↦ none
  | some used ↦ if not used then none else (elim (pmm_bitmap_clear frame_index s) [
    | none ↦ none
    | some t ↦ some (record t { pmm_used_frames = sub64 t.pmm_used_frames 1 })
  ])
]

unfoldable pub pmm_free_frame : ℕ → Frames → Option Frames
pmm_free_frame phys_addr s =
    if not (phys_addr % page_size == 0)
    then none
    else (if ltb s.pmm_highest_frame (phys_addr / page_size)
        then none
        else release_frame (phys_addr / page_size) s)
