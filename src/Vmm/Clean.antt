-- ===== src/Vmm/Clean.antt =====
-- Freeing the tables on the way of a walk of kernel/memory.c, from the page table up.
use farou_kernel.Base.{
  ℕ, suc, ◌+◌, ◌≤◌, ◌<◌, ◌≡◌, ◌⊎◌, ◌/◌, ◌==◌, ◌&&◌, ==_refl, refl, ap, ◌∙◌, true, false, Option,
  none, some, List, [], ◌∷◌, length, arith, Bool-cases, inl, inr,
}
use farou_kernel.Bitmap.{bit}
use farou_kernel.Frames.{Frames, pmm_free_frame}
use farou_kernel.Frames.Release.{Freed, pmm_free_frame-Freed}
use farou_kernel.Vmm.{
  Memory, is_present, frame_of, set_entry, vmm_is_table_empty, free_frame, free_empty, Passed,
  write_word,
}
use farou_kernel.Vmm.Tree.{lookup, Shape, Placed, IsTree, Indices, present_of_zero}
use farou_kernel.Vmm.Prune.{
  all_absent_elim, all_absent_miss, cut_lookup, c_place, pruned_shape, pruned, pruned-IsTree,
  kept_level, kept_entry,
}

-- The entries passed point to tables of the levels from `l + 1` up.
abbrev pub OnPath : Shape → Memory → List Passed → ℕ → Type 0
OnPath h m [] l = 0 ≤ 0
OnPath h m (e ∷ path) l =
    (h.level e.table ≡ suc (suc l))
    × (e.index < 512)
    × (is_present (m.words e.table e.index) ≡ true)
    × (frame_of (m.words e.table e.index) ≡ e.child)
    × OnPath h m path (suc l)

-- Of the entries passed, the deepest first: either the table that an entry points to has a present entry, or
-- its frame is free and the entry is absent; then the same of the entries above it.
abbrev pub Cleaned : Memory → List Passed → Type 0
Cleaned n [] = 0 ≤ 0
Cleaned n (e ∷ path) =
    ((is_present (n.words e.table e.index) ≡ true)
      × (j : ℕ) × (j < 512)
      × (is_present (n.words e.child j) ≡ true))
    ⊎ ((bit n.frames.pmm_bitmap (e.child / 4096) ≡ false)
        × (is_present (n.words e.table e.index) ≡ false)
        × Cleaned n path)

-- Freeing tables keeps the top-level tables and every mapping from them.
pub record Prunes (h : Shape) (m : Memory) (h' : Shape) (n : Memory) : Type 0 where
  pub tree : IsTree h' n
  pub top : (t : ℕ) → h.level t ≡ 4 → h'.level t ≡ 4
  pub lookups :
      (t : ℕ) (is : List ℕ) (last : ℕ)
      → h.level t ≡ 4
      → length is ≡ 3
      → Indices is
      → last < 512
      → lookup n.words t is last ≡ lookup m.words t is last
  pub free_kept : (j : ℕ) → bit m.frames.pmm_bitmap j ≡ false → bit n.frames.pmm_bitmap j ≡ false
  pub absent_kept : (t i : ℕ) → is_present (m.words t i) ≡ false → is_present (n.words t i) ≡ false

abbrev pub Frees : Shape → Memory → List Passed → Option Memory → Type 0
Frees h m path none = ⊥
Frees h m path (some n) = (h' : Shape) × Prunes h m h' n × Cleaned n path

Prunes-refl : (h : Shape) (m : Memory) → IsTree h m → Prunes h m h m
Prunes-refl h m v = record {
  tree = v;
  top = λ t e. e;
  lookups = λ t is last e k b r. refl;
  free_kept = λ j e. e;
  absent_kept = λ t i e. e;
}

-- The table that `e` points to is freed, and then those above it.
Frees_step :
    (h : Shape) (m : Memory) (h' : Shape) (n : Memory) (e : Passed) (path : List Passed)
    → Prunes h m h' n
    → bit n.frames.pmm_bitmap (e.child / 4096) ≡ false
    → is_present (n.words e.table e.index) ≡ false
    → (r : Option Memory) → Frees h' n path r
    → Frees h m (e ∷ path) r
Frees_step h m h' n e path a free absent none null = null
Frees_step h m h' n e path a free absent (some n') (h'', b, c) = (
  h'',
  record {
    tree = b.tree;
    top = λ t k. b.top t (a.top t k);
    lookups =
        λ t is last k l i r. b.lookups t is last (a.top t k) l i r ∙ a.lookups t is last k l i r;
    free_kept = λ j k. b.free_kept j (a.free_kept j k);
    absent_kept = λ t i k. b.absent_kept t i (a.absent_kept t i k);
  },
  inr (b.free_kept _ free, b.absent_kept _ _ absent, c),
)

pub OnPath-upper :
    (h : Shape) (m : Memory) (h' : Shape) (n : Memory) (l : ℕ)
    → ((x k : ℕ) → l < k → h.level x ≡ k → h'.level x ≡ k)
    → ((x j k : ℕ) → l < k → h.level x ≡ k → n.words x j ≡ m.words x j)
    → (path : List Passed) (k : ℕ) → l ≤ suc k
    → OnPath h m path k
    → OnPath h' n path k
OnPath-upper h m h' n l levels entries [] k b o = o
OnPath-upper h m h' n l levels entries (e ∷ path) k b (lt, is_entry, y, points, o) =
    let same = entries e.table e.index (suc (suc k)) (omega (arith, b)) lt in
    (
      levels e.table (suc (suc k)) (omega (arith, b)) lt,
      is_entry,
      ap is_present same ∙ y,
      ap frame_of same ∙ points,
      OnPath-upper h m h' n l levels entries path (suc k) (omega (arith, b)) o,
    )

module _ (h : Shape) (m : Memory) (v : IsTree h m) (e : Passed) (path : List Passed) (l : ℕ)
    (o : OnPath h m (e ∷ path) l) (lower : l < 3)
    (empty : vmm_is_table_empty e.child m ≡ true) where
  absent : (j : ℕ) → j < 512 → is_present (m.words e.child j) ≡ false
  unfolding vmm_is_table_empty
  absent j b = all_absent_elim (m.words e.child) 512 empty j b

  abbrev place : Placed m.frames e.child
  place = c_place h m v e.table e.index l e.child o.0 o.1 o.2 o.3 absent

  module _ (s : Frames) (freed : Freed m.frames s (place).index) where
    abbrev shape' : Shape
    shape' = pruned_shape h m v e.table e.index l e.child o.0 o.1 o.2 o.3 absent

    abbrev rest : Memory
    rest = pruned h m v e.table e.index l e.child o.0 o.1 o.2 o.3 absent s freed

    rest-Prunes : Prunes h m shape' rest
    unfolding write_word
    rest-Prunes = record {
      tree = pruned-IsTree h m v e.table e.index l e.child o.0 o.1 o.2 o.3 absent s freed;
      top = λ t k.
          kept_level h m v e.table e.index l e.child o.0 o.1 o.2 o.3 absent s freed t 4
            (omega (arith, lower)) k;
      lookups = λ t is last k n b r.
          cut_lookup h m v e.table e.index l e.child o.0 o.1 o.2 o.3 absent t is last
            (omega (arith, k, n)) b r;
      free_kept = λ j k. freed.cleared j ∙ ground (arith, k);
      absent_kept = λ t i k. elim (Bool-cases ((t == e.table) && (i == e.index))) [
        | inl hit ↦ rw hit present_of_zero
        | inr miss ↦ rw miss k
      ];
    }

    freed_bit : bit (rest).frames.pmm_bitmap (e.child / 4096) ≡ false
    freed_bit = freed.cleared (e.child / 4096) ∙ ground (arith, place.address)

    gone_entry : is_present ((rest).words e.table e.index) ≡ false
    unfolding write_word
    gone_entry = rw (==_refl e.table, ==_refl e.index) present_of_zero

    rest-OnPath : OnPath shape' rest path (suc l)
    rest-OnPath =
        OnPath-upper h m shape' rest (suc (suc l))
          (λ x k b q.
            kept_level h m v e.table e.index l e.child o.0 o.1 o.2 o.3 absent s freed x k
              (omega (arith, b)) q)
          (kept_entry h m v e.table e.index l e.child o.0 o.1 o.2 o.3 absent s freed) path (suc l)
          (omega arith) o.4

  pruned-Frees :
      ((h' : Shape) (n : Memory)
        → IsTree h' n
        → OnPath h' n path (suc l)
        → Frees h' n path (free_empty path n))
      → Frees h m (e ∷ path) (free_empty (e ∷ path) m)
  unfolding free_empty set_entry free_frame
  pruned-Frees below =
      let (s, eq, freed) =
        pmm_free_frame-Freed m.frames v.valid place.index place.small place.used in
      let run : pmm_free_frame (frame_of (m.words e.table e.index)) m.frames ≡ some s =
        ap (λ a. pmm_free_frame a m.frames) (o.3 ∙ place.address) ∙ eq in
      let ps = rest-Prunes s freed in
      rw (empty, run)
        (Frees_step h m (shape' s freed) (rest s freed) e path ps (freed_bit s freed)
          (gone_entry s freed) (free_empty path (rest s freed))
          (below (shape' s freed) (rest s freed) ps.tree (rest-OnPath s freed)))

pub free_empty-Frees :
    (path : List Passed) (h : Shape) (m : Memory)
    → IsTree h m
    → (l : ℕ) → OnPath h m path l
    → l + length path ≤ 3
    → Frees h m path (free_empty path m)
unfolding free_empty vmm_is_table_empty
free_empty-Frees [] h m v l o b = (h, Prunes-refl h m v, o)
free_empty-Frees (e ∷ path) h m v l o b = elim (Bool-cases (vmm_is_table_empty e.child m)) [
  | inl y ↦
      pruned-Frees h m v e path l o (omega (arith, b)) y
        (λ h' n v' o'. free_empty-Frees path h' n v' (suc l) o' (omega (arith, b)))
  | inr n ↦
      let (j, lt, y) = all_absent_miss (m.words e.child) 512 n in
      rw (n, Frees) (h, Prunes-refl h m v, inl (o.2, j, lt, y))
]
