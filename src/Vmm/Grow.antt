-- ===== src/Vmm/Grow.antt =====
-- The state of the page tables of kernel/memory.c after a new table is entered.
use farou_kernel.Base.{
  ℕ, suc, ◌+◌, ◌*◌, ◌≤◌, ◌<◌, ◌≡◌, ◌≢◌, refl, sym, ap, ◌∙◌, subst, true, false, none, List, [], ◌∷◌,
  ◌==◌, ◌&&◌, length, arith, Bool-cases, inl, inr, if◌then◌else◌, eq_or_ne, ==_refl, ne→==,
}
use farou_kernel.Bitmap.{bit, Filled}
use farou_kernel.Bitmap.Count.{count_true, count_true-raise}
use farou_kernel.Frames.{Frames}
use farou_kernel.Frames.Allocate.{Inv}
use farou_kernel.Vmm.{Memory, is_present, frame_of, write_word, zero_frame}
use farou_kernel.Vmm.Tree.{
  lookup_absent, lookup_present, lookup_same, lookup, present_entry, Shape, Placed, Link, IsTree,
  Indices, present_of_frame, frame_of-frame, present_of_zero,
}
use farou_kernel.Vmm.Keeps.{Keeps, Steps}

module _ (h : Shape) (m : Memory) (v : IsTree h m) (t l i : ℕ) (lt : h.level t ≡ suc (suc l))
    (is_entry : i < 512) (absent : is_present (m.words t i) ≡ false) (f : ℕ) (s : Frames)
    (small : f ≤ m.frames.pmm_highest_frame) (free : bit m.frames.pmm_bitmap f ≡ false)
    (filled : Filled m.frames.pmm_bitmap f 1 true s.pmm_bitmap)
    (same_end : s.pmm_highest_frame ≡ m.frames.pmm_highest_frame) (sv : Inv s) where
  abbrev u : ℕ
  u = f * 4096

  abbrev grown_shape : Shape
  grown_shape = record {
    level = λ x. if x == u then suc l else h.level x;
    parent = λ x. if x == u then t else h.parent x;
    slot = λ x. if x == u then i else h.slot x;
  }

  abbrev grown : Memory
  grown = record { frames = s; words = write_word t i (u + 3) (zero_frame u m.words) }

  pub not_zero : u ≢ 0
  not_zero e =
      let z : f ≡ 0 = omega (arith, e) in
      absurd (cc (sym v.reserved ∙ ap (bit m.frames.pmm_bitmap) (sym z) ∙ free))

  fresh : (x k : ℕ) → h.level x ≡ suc k → x ≢ u
  fresh x k e d =
      let p = v.placed x k e in
      let z : p.index ≡ f = omega (arith, p.address, d) in
      absurd (cc (sym p.used ∙ ap (bit m.frames.pmm_bitmap) z ∙ free))

  old_level : (x k : ℕ) → h.level x ≡ suc k → grown_shape.level x ≡ suc k
  old_level x k e = rw (ne→== x u (fresh x k e)) e

  new_level : grown_shape.level u ≡ suc l
  new_level = rw (==_refl u) refl

  new_entry : grown.words t i ≡ u + 3
  unfolding write_word
  new_entry = rw (==_refl t, ==_refl i) refl

  -- Entries of the old tables, but for the one written, are as they were.
  old_entry :
      (x j k : ℕ)
      → h.level x ≡ suc k
      → ((x == t) && (j == i)) ≡ false
      → grown.words x j ≡ m.words x j
  unfolding write_word zero_frame
  old_entry x j k e ne = rw (ne, ne→== x u (fresh x k e)) refl

  empty : (j : ℕ) → grown.words u j ≡ 0
  unfolding write_word zero_frame
  empty j =
      let d : (u == t) ≡ false = ne→== u t (λ e. fresh t (suc l) lt (sym e)) in
      rw (d, ==_refl u) refl

  child : frame_of (grown.words t i) ≡ u
  child = ap frame_of new_entry ∙ frame_of-frame f (omega (arith, small, v.narrow))

  linked : is_present (grown.words t i) ≡ true
  linked = ap is_present new_entry ∙ present_of_frame f

  old_Link : (x j k c : ℕ) → Link h x j k c → Link grown_shape x j k c
  old_Link x j k c n =
      let d : (c == u) ≡ false = ne→== c u (fresh c k n.child_level) in
      record {
        child_level = rw d n.child_level;
        child_parent = rw d n.child_parent;
        child_slot = rw d n.child_slot;
      }

  new_Link : Link grown_shape t i l u
  new_Link = record {
    child_level = new_level;
    child_parent = rw (==_refl u) refl;
    child_slot = rw (==_refl u) refl;
  }

  used_kept : (j : ℕ) → bit m.frames.pmm_bitmap j ≡ true → bit s.pmm_bitmap j ≡ true
  used_kept j e = filled j ∙ ground (arith, e)

  old_Placed : (x : ℕ) → Placed m.frames x → Placed s x
  old_Placed x p = record {
    index = p.index;
    address = p.address;
    small = omega (arith, p.small, same_end);
    used = used_kept p.index p.used;
    nonzero = p.nonzero;
  }

  new_Placed : Placed s u
  new_Placed = record {
    index = f;
    address = refl;
    small = omega (arith, small, same_end);
    used = filled f ∙ ground arith;
    nonzero = λ e. not_zero (rw e refl);
  }

  links' :
      (x j k : ℕ)
      → h.level x ≡ suc (suc k)
      → j < 512
      → is_present (grown.words x j) ≡ true
      → Link grown_shape x j k (frame_of (grown.words x j))
  links' x j k e b p = elim (Bool-cases ((x == t) && (j == i))) [
    | inl hit ↦
        let q : x ≡ t = ground arith in
        let r : j ≡ i = ground arith in
        let lk : k ≡ l = omega (arith, e, lt, ap h.level q) in
        subst (λ c. Link grown_shape x j k c) (sym (cc (child, q, r)))
          (subst (λ a. Link grown_shape a j k u) (sym q)
            (subst (λ a. Link grown_shape t a k u) (sym r)
              (subst (λ a. Link grown_shape t i a u) (sym lk) new_Link)))
    | inr ne ↦
        let same = old_entry x j (suc k) e ne in
        subst (λ w. Link grown_shape x j k (frame_of w)) (sym same)
          (old_Link x j k (frame_of (m.words x j))
            (v.links x j k e b (ap is_present (sym same) ∙ p)))
  ]

  grown_level : (x k : ℕ) → x ≢ u → grown_shape.level x ≡ suc k → h.level x ≡ suc k
  grown_level x k ne e = subst (λ b. (if b then suc l else h.level x) ≡ suc k) (ne→== x u ne) e

  grown-IsTree : IsTree grown_shape grown
  grown-IsTree = record {
    valid = sv;
    narrow = omega (arith, v.narrow, same_end);
    reserved = used_kept 0 v.reserved;
    placed = λ x k e. elim (eq_or_ne x u) [
      | inl y ↦ subst (λ a. Placed s a) (sym y) new_Placed
      | inr n ↦ old_Placed x (v.placed x k (grown_level x k n e))
    ];
    links = λ x j k e b p. elim (eq_or_ne x u) [
      | inl y ↦ absurd (
          cc (
            sym p ∙ ap (λ a. is_present (grown.words a j)) y ∙ ap is_present (empty j),
            present_of_zero,
          ))
      | inr n ↦ links' x j k (grown_level x (suc k) n e) b p
    ];
  }

  -- Where the walk passes the new table, it ends in nothing, as it did before at the entry.
  through_empty : (is : List ℕ) (last : ℕ) → lookup grown.words u is last ≡ none
  unfolding lookup present_entry
  through_empty [] last = rw (empty last, present_of_zero) refl
  through_empty (j ∷ is) last = rw (empty j, present_of_zero) refl

  hit_lookup :
      (is : List ℕ) (last : ℕ) → lookup grown.words t (i ∷ is) last ≡ lookup m.words t (i ∷ is) last
  hit_lookup is last =
      lookup_present grown.words t i is last linked
      ∙ ap (λ a. lookup grown.words a is last) child
      ∙ through_empty is last
      ∙ sym (lookup_absent m.words t i is last absent)

  kept_lookup :
      (x : ℕ) (is : List ℕ) (last : ℕ)
      → h.level x ≡ suc (length is)
      → Indices is
      → lookup grown.words x is last ≡ lookup m.words x is last
  unfolding lookup
  kept_lookup x [] last e b =
      let other : (x == t) ≡ false = ne→== x t (λ q. absurd (omega (arith, e, lt, ap h.level q))) in
      ap present_entry (old_entry x last 0 e (rw other refl))
  kept_lookup x (j ∷ is) last e b = elim (Bool-cases ((x == t) && (j == i))) [
    | inl hit ↦
        let q : x ≡ t = ground arith in
        let r : j ≡ i = ground arith in
        subst (λ a. lookup grown.words a (j ∷ is) last ≡ lookup m.words a (j ∷ is) last) (sym q)
          (subst (λ a. lookup grown.words t (a ∷ is) last ≡ lookup m.words t (a ∷ is) last) (sym r)
            (hit_lookup is last))
    | inr ne ↦
        lookup_same m.words x j is last grown.words (old_entry x j (length (j ∷ is)) e ne) (λ y.
          kept_lookup (frame_of (m.words x j)) is last
            ((v.links x j (length is) e b.0 y).child_level) b.1)
  ]

  grown-Keeps : Keeps h m grown_shape grown 1
  grown-Keeps = record {
    levels = old_level;
    entries = λ x j k e r p. elim (Bool-cases ((x == t) && (j == i))) [
      | inl hit ↦
          let q : x ≡ t = ground arith in
          let r : j ≡ i = ground arith in absurd (cc (p, absent, q, r))
      | inr ne ↦ old_entry x j k e ne
    ];
    lookups = λ x is last e b r. kept_lookup x is last e b;
    highest = same_end;
    taken =
        let raised =
          count_true-raise (bit m.frames.pmm_bitmap) (bit s.pmm_bitmap) f 1 filled
            (λ j p q. ap (bit m.frames.pmm_bitmap) (omega arith) ∙ free)
            (m.frames.pmm_highest_frame + 1) (omega arith) in
        omega (
          arith,
          v.valid.counted,
          sv.counted,
          raised,
          ap (λ a. count_true (bit s.pmm_bitmap) (a + 1)) same_end,
        );
  }

  pub grown-Steps :
      Steps h m t i l u
        (record { frames = s; words = write_word t i (u + 3) (zero_frame u m.words) })
  grown-Steps = record {
    shape = grown_shape;
    tree = grown-IsTree;
    next_level = new_level;
    keeps = grown-Keeps;
    present = linked;
    target = child;
  }
