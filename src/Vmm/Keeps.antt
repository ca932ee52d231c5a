-- ===== src/Vmm/Keeps.antt =====
-- The relation between the page tables of kernel/memory.c before and after a walk that makes tables.
use farou_kernel.Base.{ℕ, suc, ◌+◌, ◌≤◌, ◌<◌, ◌≡◌, refl, ap, ◌∙◌, true, List, length, arith}
use farou_kernel.Vmm.{Memory, is_present, frame_of}
use farou_kernel.Vmm.Tree.{lookup, Shape, IsTree, Indices}

-- What growing the tree keeps: the tables, their present entries and every mapping. It takes at most
-- `n` frames.
pub record Keeps (h : Shape) (m : Memory) (h' : Shape) (m' : Memory) (n : ℕ) : Type 0 where
  pub levels : (t l : ℕ) → h.level t ≡ suc l → h'.level t ≡ suc l
  pub entries :
      (t i l : ℕ)
      → h.level t ≡ suc l
      → i < 512
      → is_present (m.words t i) ≡ true
      → m'.words t i ≡ m.words t i
  pub lookups :
      (t : ℕ) (is : List ℕ) (last : ℕ)
      → h.level t ≡ suc (length is)
      → Indices is
      → last < 512
      → lookup m'.words t is last ≡ lookup m.words t is last
  pub highest : m'.frames.pmm_highest_frame ≡ m.frames.pmm_highest_frame
  pub taken : m'.frames.pmm_used_frames ≤ m.frames.pmm_used_frames + n

pub Keeps-refl : (h : Shape) (m : Memory) → Keeps h m h m 0
Keeps-refl h m = record {
  levels = λ t l e. e;
  entries = λ t i l e s p. refl;
  lookups = λ t is last e r s. refl;
  highest = refl;
  taken = omega arith;
}

pub Keeps-weaken :
    (h : Shape) (m : Memory) (h' : Shape) (m' : Memory) (n k : ℕ)
    → n ≤ k
    → Keeps h m h' m' n
    → Keeps h m h' m' k
Keeps-weaken h m h' m' n k le a = record {
  levels = a.levels;
  entries = a.entries;
  lookups = a.lookups;
  highest = a.highest;
  taken = omega (arith, le, a.taken);
}

pub Keeps-trans :
    (h : Shape) (m : Memory) (h' : Shape) (m' : Memory) (h'' : Shape) (m'' : Memory) (n k : ℕ)
    → Keeps h m h' m' n
    → Keeps h' m' h'' m'' k
    → Keeps h m h'' m'' (n + k)
Keeps-trans h m h' m' h'' m'' n k a b = record {
  levels = λ t l e. b.levels t l (a.levels t l e);
  entries = λ t i l e s p.
      let same = a.entries t i l e s p in
      b.entries t i l (a.levels t l e) s (ap is_present same ∙ p) ∙ same;
  lookups = λ t is last e r s. b.lookups t is last (a.levels t _ e) r s ∙ a.lookups t is last e r s;
  highest = b.highest ∙ a.highest;
  taken = omega (arith, a.taken, b.taken);
}

-- The next table, found or made.
pub record Steps (h : Shape) (m : Memory) (t i l u : ℕ) (n : Memory) : Type 0 where
  pub shape : Shape
  pub tree : IsTree shape n
  pub next_level : shape.level u ≡ suc l
  pub keeps : Keeps h m shape n 1
  pub present : is_present (n.words t i) ≡ true
  pub target : frame_of (n.words t i) ≡ u
