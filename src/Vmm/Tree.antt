-- ===== src/Vmm/Tree.antt =====
-- The page tables of kernel/memory.c as a tree, and what the processor reads from them.
use farou_kernel.Base.{
  ℕ, suc, ◌+◌, ◌*◌, ◌%◌, ◌^◌, ◌≤◌, ◌<◌, ◌≡◌, ◌≢◌, refl, sym, ap, ◌∙◌, true, false, Option, none,
  some, List, [], ◌∷◌, length, arith, Bool-cases, inl, inr, if◌then◌else◌,
}
use farou_kernel.Bitmap.{bit}
use farou_kernel.Frames.{Frames}
use farou_kernel.Frames.Allocate.{Inv}
use farou_kernel.Vmm.{Memory, is_present, frame_of, flags_present}

-- What the processor finds in a table entry.
unfoldable pub present_entry : ℕ → Option ℕ
present_entry e = if is_present e then some e else none

-- The entry that maps a page: the walk of the processor, for the indices of the upper levels and the
-- index in the page table.
unfoldable pub lookup : (ℕ → ℕ → ℕ) → ℕ → List ℕ → ℕ → Option ℕ
lookup words t [] last = present_entry (words t last)
lookup words t (i ∷ is) last =
    let rest = lookup words (frame_of (words t i)) is last in
    if is_present (words t i) then rest else none

module _ (words : ℕ → ℕ → ℕ) (t i : ℕ) (is : List ℕ) (last : ℕ) where
  pub lookup_absent : is_present (words t i) ≡ false → lookup words t (i ∷ is) last ≡ none
  unfolding lookup
  lookup_absent n = rw n refl

  pub lookup_present :
      is_present (words t i) ≡ true
      → lookup words t (i ∷ is) last ≡ lookup words (frame_of (words t i)) is last
  unfolding lookup
  lookup_present y = rw y refl

  -- Two memories with one entry agree where they agree below it.
  pub lookup_same :
      (words' : ℕ → ℕ → ℕ)
      → words' t i ≡ words t i
      → (is_present (words t i) ≡ true
          → lookup words' (frame_of (words t i)) is last
            ≡ lookup words (frame_of (words t i)) is last)
      → lookup words' t (i ∷ is) last ≡ lookup words t (i ∷ is) last
  unfolding lookup
  lookup_same words' e below = elim (Bool-cases (is_present (words t i))) [
    | inl y ↦ rw (e, y) (below y)
    | inr n ↦ rw (e, n) refl
  ]

-- The page table that the indices lead to.
unfoldable pub follow : (ℕ → ℕ → ℕ) → ℕ → List ℕ → Option ℕ
follow words t [] = some t
follow words t (i ∷ is) =
    let rest = follow words (frame_of (words t i)) is in
    if is_present (words t i) then rest else none

-- Which frames are tables: the level of each, 0 for none, and the one entry that points to it.
pub record Shape : Type 0 where
  pub level : ℕ → ℕ
  pub parent : ℕ → ℕ
  pub slot : ℕ → ℕ

pub record Placed (s : Frames) (t : ℕ) : Type 0 where
  pub index : ℕ
  pub address : t ≡ index * 4096
  pub small : index ≤ s.pmm_highest_frame
  pub used : bit s.pmm_bitmap index ≡ true
  pub nonzero : index ≢ 0

pub record Link (h : Shape) (t i l u : ℕ) : Type 0 where
  pub child_level : h.level u ≡ suc l
  pub child_parent : h.parent u ≡ t
  pub child_slot : h.slot u ≡ i

-- The tables form a tree whose nodes are used frames; frame 0 is not for use.
pub record IsTree (h : Shape) (m : Memory) : Type 0 where
  pub valid : Inv m.frames
  pub narrow : m.frames.pmm_highest_frame < 2 ^ 40
  pub reserved : bit m.frames.pmm_bitmap 0 ≡ true
  pub placed : (t l : ℕ) → h.level t ≡ suc l → Placed m.frames t
  pub links :
      (t i l : ℕ)
      → h.level t ≡ suc (suc l)
      → i < 512
      → is_present (m.words t i) ≡ true
      → Link h t i l (frame_of (m.words t i))

-- Every index is one of a table's 512 entries.
abbrev pub Indices : List ℕ → Type 0
Indices [] = 0 ≤ 0
Indices (i ∷ is) = (i < 512) × Indices is

pub present_of_frame : (f : ℕ) → is_present (f * 4096 + 3) ≡ true
unfolding is_present
present_of_frame f = ground arith

pub frame_of-frame : (f : ℕ) → f < 2 ^ 40 → frame_of (f * 4096 + 3) ≡ f * 4096
unfolding frame_of
frame_of-frame f h = omega arith

pub present_of_zero : is_present 0 ≡ false
unfolding is_present
present_of_zero = refl

-- A page-table entry as `vmm_map_page` writes it is present and holds the frame.
pub present_of_mapped :
    (phys_addr flags : ℕ)
    → phys_addr % 4096 ≡ 0
    → is_present (phys_addr + flags_present flags) ≡ true
unfolding is_present flags_present
present_of_mapped phys_addr flags a = ground arith

pub frame_of-mapped :
    (phys_addr flags : ℕ)
    → phys_addr % 4096 ≡ 0
    → phys_addr < 2 ^ 52
    → frame_of (phys_addr + flags_present flags) ≡ phys_addr
unfolding is_present flags_present frame_of
frame_of-mapped phys_addr flags a h = ground arith

pub frame_of-small : (a : ℕ) → a % 4096 ≡ 0 → a < 2 ^ 52 → frame_of a ≡ a
unfolding frame_of
frame_of-small a e h = omega arith

-- A walk that ends somewhere finds its first entry present.
abbrev Passes : (ℕ → ℕ → ℕ) → ℕ → ℕ → List ℕ → ℕ → Type 0
Passes words t i is p =
    (is_present (words t i) ≡ true) × (follow words (frame_of (words t i)) is ≡ some p)

pub follow-Passes :
    (words : ℕ → ℕ → ℕ) (t i : ℕ) (is : List ℕ) (p : ℕ)
    → follow words t (i ∷ is) ≡ some p
    → Passes words t i is p
unfolding follow
follow-Passes words t i is p f = elim (Bool-cases (is_present (words t i))) [
  | inl y ↦ (y, cc)
  | inr n ↦ absurd cc
]

pub follow_cons :
    (words : ℕ → ℕ → ℕ) (t i u : ℕ) (is : List ℕ) (p : ℕ)
    → is_present (words t i) ≡ true
    → frame_of (words t i) ≡ u
    → follow words u is ≡ some p
    → follow words t (i ∷ is) ≡ some p
unfolding follow
follow_cons words t i u is p y e f = rw (y, e) f

-- Two walks of one length that end at one page table begin at one table and pass the same entries.
pub follow-injective :
    (h : Shape) (m : Memory)
    → IsTree h m
    → (is js : List ℕ) (t u p : ℕ) → h.level t ≡ suc (length is)
    → h.level u ≡ suc (length js)
    → length is ≡ length js
    → Indices is
    → Indices js
    → follow m.words t is ≡ some p
    → follow m.words u js ≡ some p
    → (t ≡ u) × (is ≡ js)
unfolding follow
follow-injective h m v [] [] t u p lt lu e a b f g = (cc, refl)
follow-injective h m v [] (j ∷ js) t u p lt lu e a b f g = absurd (omega (arith, e))
follow-injective h m v (i ∷ is) [] t u p lt lu e a b f g = absurd (omega (arith, e))
follow-injective h m v (i ∷ is) (j ∷ js) t u p lt lu e a b f g =
    let y = follow-Passes m.words t i is p f in
    let z = follow-Passes m.words u j js p g in
    let k = v.links t i (length is) lt a.0 y.0 in
    let l = v.links u j (length js) lu b.0 z.0 in
    let r =
      follow-injective h m v is js (frame_of (m.words t i)) (frame_of (m.words u j)) p k.child_level
        l.child_level (omega (arith, e)) a.1 b.1 y.1 z.1 in
    (
      sym k.child_parent ∙ ap h.parent r.0 ∙ l.child_parent,
      cc (sym k.child_slot ∙ ap h.slot r.0 ∙ l.child_slot, r.1),
    )
