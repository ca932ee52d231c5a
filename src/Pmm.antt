-- ===== src/Pmm.antt =====
-- kernel/arch/x86_64/mm/pmm.c and pmm.h: the bitmap allocator of physical memory blocks.
-- An address is a number, and 0 is NULL. `none` stands for a fault: an access outside the bitmap or
-- a division by zero.
pub mod Blocks
pub mod Invariant
pub mod Release
pub mod Aligned
pub mod Region
mod Tests
use farou_kernel.Base.{
  ℕ, zero, suc, ◌+◌, ◌-◌, ◌*◌, ◌/◌, ◌%◌, ◌^◌, Bool, true, false, not, ◌&&◌, ◌||◌, Option, none,
  some, ltb, ◌==◌, if◌then◌else◌,
}
use farou_kernel.Base.Word.{add64, sub64, align_down}
use farou_kernel.Bitmap.{Words, bit, write_bit}

abbrev pub block_size : ℕ
block_size = 4096

abbrev pub blocks_per_long : ℕ
blocks_per_long = 64

-- `pmm_state_t`
pub record State : Type 0 where
  pub total_blocks : ℕ
  pub used_blocks : ℕ
  pub memory_size : ℕ
  pub bitmap : Words
  pub bitmap_size : ℕ
  pub last_free_block : ℕ
  pub initialized : Bool

-- An operation of the allocator: its result and the new state, or a fault.
abbrev pub M : Type 0 → Type 0
M A = State → Option (A × State)

infixl 5 ◌>>=◌
abbrev pub ◌>>=◌ : {A B : Type 0} → M A → (A → M B) → M B
◌>>=◌ m f s = elim (m s) [ none ↦ none | some (a, s') ↦ f a s' ]

-- The operation does not fault, and its result and its state satisfy `P`.
abbrev pub Ends : {A : Type 0} → (A → State → Type 0) → Option (A × State) → Type 0
Ends P none = ⊥
Ends P (some (a, t)) = P a t

-- The same of an operation with no result.
abbrev pub EndsIn : (State → Type 0) → Option State → Type 0
EndsIn P none = ⊥
EndsIn P (some t) = P t

-- `static pmm_state_t state = {0}`; the bitmap is NULL.
pub boot : State
boot = record {
  total_blocks = 0;
  used_blocks = 0;
  memory_size = 0;
  bitmap = λ i j. false;
  bitmap_size = 0;
  last_free_block = 0;
  initialized = false;
}

pub pmm_init : ℕ → State → State
pmm_init mem_size s = if s.initialized then s else (record {
  total_blocks = mem_size / block_size;
  used_blocks = mem_size / block_size;
  memory_size = mem_size;
  bitmap = λ i j. true;
  bitmap_size = add64 (mem_size / block_size) (blocks_per_long - 1) / blocks_per_long;
  last_free_block = 0;
  initialized = true;
})

-- The loop of `set_blocks`, which writes word `block / 64` of `size` words.
pub set_loop : ℕ → ℕ → ℕ → Bool → Words → Option Words
set_loop size block zero used w = some w
set_loop size block (suc n) used w =
    let rest =
      set_loop size (add64 block 1) n used
        (write_bit w (block / blocks_per_long) (block % blocks_per_long) used) in
    if ltb (block / blocks_per_long) size then rest else none

pub set_blocks : ℕ → ℕ → Bool → State → Option State
set_blocks block count used s = elim (set_loop s.bitmap_size block count used s.bitmap) [
  | none ↦ none
  | some w ↦ some (record s { bitmap = w })
]

-- The search loop of `pmm_alloc_blocks`, `rounds` blocks before the end: the last block of the
-- first run of `count` free blocks. The bits are read without a test, as in the code; where the bitmap
-- covers the memory, they all lie in it.
pub find_run : ℕ → ℕ → ℕ → ℕ → Words → Option ℕ
find_run count zero i consecutive w = none
find_run count (suc rounds) i consecutive w =
    let rest = find_run count rounds (i + 1) (if bit w i then 0 else consecutive + 1) w in
    if not (bit w i) && (consecutive + 1 == count) then some i else rest

-- The body of the successful branch, with the first and the last block of the run.
claim_run : ℕ → ℕ → ℕ → M ℕ
claim_run count first_block i s = elim (set_blocks first_block count true s) [
  | none ↦ none
  | some t ↦ some (
    first_block * block_size % 2 ^ 64,
    record t { used_blocks = add64 t.used_blocks count; last_free_block = i + 1 },
  )
]

take_run : ℕ → ℕ → M ℕ
take_run count i = claim_run count (add64 (sub64 i count) 1) i

pub pmm_alloc_blocks : ℕ → M ℕ
unfolding take_run claim_run
pmm_alloc_blocks count s =
    if not s.initialized || (count == 0)
    then some (0, s)
    else (elim (find_run count (s.total_blocks - s.last_free_block) s.last_free_block 0 s.bitmap) [
      | none ↦ some (0, s)
      | some i ↦ take_run count i s
    ])

pub pmm_alloc_block : M ℕ
pmm_alloc_block = pmm_alloc_blocks 1

release_run : ℕ → ℕ → State → Option State
release_run start count s = elim (set_blocks start count false s) [
  | none ↦ none
  | some t ↦ some (record t {
    used_blocks = sub64 t.used_blocks count;
    last_free_block = if ltb start t.last_free_block then start else t.last_free_block;
  })
]

pub pmm_free_blocks : ℕ → ℕ → State → Option State
unfolding release_run
pmm_free_blocks block count s =
    if (block == 0) || (not s.initialized || (count == 0))
    then some s
    else (if ltb s.total_blocks (add64 (block / block_size) count)
        then some s
        else release_run (block / block_size) count s)

pub pmm_free_block : ℕ → State → Option State
pmm_free_block block = pmm_free_blocks block 1

-- The loop of `pmm_alloc_block_aligned`, with `tries` attempts left.
pub attempt : ℕ → ℕ → M ℕ
attempt alignment zero s = some (0, s)
attempt alignment (suc tries) s = elim (pmm_alloc_blocks (alignment / block_size) s) [
  | none ↦ none
  | some (ptr, t) ↦
      if ptr % alignment == 0
      then some (ptr, t)
      else (elim (pmm_free_blocks ptr (alignment / block_size) t) [
        | none ↦ none
        | some u ↦ attempt alignment tries u
      ])
]

-- The assertion on `alignment` and the remainder by a zero alignment are faults.
pub pmm_alloc_block_aligned : ℕ → M ℕ
unfolding attempt
pmm_alloc_block_aligned alignment s =
    if (alignment % block_size == 0) && ltb 0 alignment then attempt alignment 3 s else none

mark_blocks : ℕ → ℕ → Bool → State → Option State
mark_blocks start_block blocks used s = elim (set_blocks start_block blocks used s) [
  | none ↦ none
  | some t ↦ some (record t {
    used_blocks = if used then add64 t.used_blocks blocks else sub64 t.used_blocks blocks;
  })
]

pub pmm_mark_region : ℕ → ℕ → Bool → State → Option State
unfolding mark_blocks
pmm_mark_region base size used s =
    let align_base = align_down block_size (add64 base (block_size - 1)) in
    let align_size = sub64 size (sub64 align_base base) in
    mark_blocks (align_base / block_size) (align_size / block_size) used s

pub pmm_get_total_memory : State → ℕ
pmm_get_total_memory s = s.memory_size

pub pmm_get_free_memory : State → ℕ
pmm_get_free_memory s = sub64 s.total_blocks s.used_blocks * block_size % 2 ^ 64

pub pmm_get_used_memory : State → ℕ
pmm_get_used_memory s = s.used_blocks * block_size % 2 ^ 64

pub pmm_is_initialized : State → Bool
pmm_is_initialized s = s.initialized
