-- ===== src/Vmm/Prune.antt =====
-- The page tables of kernel/memory.c without one empty table.
use farou_kernel.Base.{
  ℕ, zero, suc, ◌*◌, ◌<◌, ◌≡◌, ◌≢◌, refl, sym, ap, ◌∙◌, subst, true, false, none, List, [], ◌∷◌,
  ◌==◌, ◌&&◌, length, arith, Bool-cases, inl, inr, if◌then◌else◌, eq_or_ne, ==_refl, ne→==,
}
use farou_kernel.Bitmap.{bit}
use farou_kernel.Frames.{Frames}
use farou_kernel.Frames.Release.{Freed}
use farou_kernel.Vmm.{Memory, is_present, frame_of, write_word, all_absent}
use farou_kernel.Vmm.Tree.{
  lookup, present_entry, Shape, Placed, Link, IsTree, Indices, present_of_zero, lookup_absent,
  lookup_present, lookup_same,
}

-- `all_absent` holds exactly of tables without a present entry.
pub all_absent_elim :
    (table : ℕ → ℕ) (n : ℕ)
    → all_absent table n ≡ true
    → (i : ℕ) → i < n
    → is_present (table i) ≡ false
unfolding all_absent
all_absent_elim table zero e i b = elim b [ ]
all_absent_elim table (suc n) e i b = elim (eq_or_ne i n) [
  | inl q ↦ rw q (ground (arith, e))
  | inr ne ↦ all_absent_elim table n (ground (arith, e)) i (omega (arith, ne))
]

pub all_absent_miss :
    (table : ℕ → ℕ) (n : ℕ)
    → all_absent table n ≡ false
    → (i : ℕ) × (i < n) × (is_present (table i) ≡ true)
unfolding all_absent
all_absent_miss table zero e = absurd (cc e)
all_absent_miss table (suc n) e = elim (Bool-cases (is_present (table n))) [
  | inl y ↦ (n, omega arith, y)
  | inr z ↦
      let (i, b, y) = all_absent_miss table n (ground (arith, e, z)) in (i, omega (arith, b), y)
]

-- Nothing is mapped through an empty table.
pub empty_lookup :
    (words : ℕ → ℕ → ℕ) (t : ℕ)
    → ((i : ℕ) → i < 512 → is_present (words t i) ≡ false)
    → (is : List ℕ) (last : ℕ) → Indices is
    → last < 512
    → lookup words t is last ≡ none
unfolding lookup present_entry
empty_lookup words t e [] last b r = rw (e last r) refl
empty_lookup words t e (i ∷ is) last b r = rw (e i b.0) refl

module _ (h : Shape) (m : Memory) (v : IsTree h m) (t i l c : ℕ) (lt : h.level t ≡ suc (suc l))
    (is_entry : i < 512) (y : is_present (m.words t i) ≡ true) (points : frame_of (m.words t i) ≡ c)
    (empty : (j : ℕ) → j < 512 → is_present (m.words c j) ≡ false) where
  abbrev cut : Memory
  cut = record m { words = write_word t i 0 m.words }

  cut_there : cut.words t i ≡ 0
  unfolding write_word
  cut_there = rw (==_refl t, ==_refl i) refl

  cut_other : (x j : ℕ) → ((x == t) && (j == i)) ≡ false → cut.words x j ≡ m.words x j
  unfolding write_word
  cut_other x j ne = rw ne refl

  cut_absent : is_present (cut.words t i) ≡ false
  cut_absent = ap is_present cut_there ∙ present_of_zero

  hit_lookup :
      (is : List ℕ) (last : ℕ)
      → Indices is
      → last < 512
      → lookup cut.words t (i ∷ is) last ≡ lookup m.words t (i ∷ is) last
  hit_lookup is last b r =
      lookup_absent cut.words t i is last cut_absent
      ∙ sym (
          lookup_present m.words t i is last y
          ∙ ap (λ a. lookup m.words a is last) points
          ∙ empty_lookup m.words c empty is last b r)

  pub cut_lookup :
      (x : ℕ) (is : List ℕ) (last : ℕ)
      → h.level x ≡ suc (length is)
      → Indices is
      → last < 512
      → lookup cut.words x is last ≡ lookup m.words x is last
  unfolding lookup
  cut_lookup x [] last e b r =
      let other : (x == t) ≡ false = ne→== x t (λ q. absurd (omega (arith, e, lt, ap h.level q))) in
      ap present_entry (cut_other x last (rw other refl))
  cut_lookup x (j ∷ is) last e b r = elim (Bool-cases ((x == t) && (j == i))) [
    | inl hit ↦
        let q : x ≡ t = ground arith in
        let p : j ≡ i = ground arith in
        subst (λ a. lookup cut.words a (j ∷ is) last ≡ lookup m.words a (j ∷ is) last) (sym q)
          (subst (λ a. lookup cut.words t (a ∷ is) last ≡ lookup m.words t (a ∷ is) last) (sym p)
            (hit_lookup is last b.1 r))
    | inr ne ↦ lookup_same m.words x j is last cut.words (cut_other x j ne) (λ z.
        cut_lookup (frame_of (m.words x j)) is last ((v.links x j (length is) e b.0 z).child_level)
          b.1 r)
  ]

  below : Link h t i l c
  below = subst (λ a. Link h t i l a) points (v.links t i l lt is_entry y)

  pub c_place : Placed m.frames c
  c_place = v.placed c l below.child_level

  abbrev pub pruned_shape : Shape
  pruned_shape = record h { level = λ x. if x == c then 0 else h.level x }

  module _ (s : Frames) (freed : Freed m.frames s c_place.index) where
    abbrev pub pruned : Memory
    pruned = record { frames = s; words = write_word t i 0 m.words }

    not_c : (x k : ℕ) → pruned_shape.level x ≡ suc k → x ≢ c
    not_c x k e q = absurd (
        omega (
          arith,
          (subst (λ b. (if b then 0 else h.level x) ≡ suc k) {y = true} (rw q (==_refl c)) e),
        ))

    old_level : (x k : ℕ) → pruned_shape.level x ≡ suc k → h.level x ≡ suc k
    old_level x k e = subst (λ b. (if b then 0 else h.level x) ≡ suc k) (ne→== x c (not_c x k e)) e

    kept_bit :
        (j : ℕ) → j ≢ c_place.index → bit m.frames.pmm_bitmap j ≡ true → bit s.pmm_bitmap j ≡ true
    kept_bit j ne e = freed.cleared j ∙ ground (arith, ne, e)

    kept_Placed : (x : ℕ) → x ≢ c → Placed m.frames x → Placed s x
    kept_Placed x ne p = record {
      index = p.index;
      address = p.address;
      small = omega (arith, p.small, freed.highest);
      used =
          kept_bit p.index (λ e. ne (p.address ∙ ap (λ a. a * 4096) e ∙ sym c_place.address))
            p.used;
      nonzero = p.nonzero;
    }

    kept_Link :
        (x j k u : ℕ) → ((x == t) && (j == i)) ≡ false → Link h x j k u → Link pruned_shape x j k u
    kept_Link x j k u ne n =
        let other : u ≢ c = λ q. absurd (
          ground (
            arith,
            ne,
            sym n.child_parent ∙ ap h.parent q ∙ below.child_parent,
            sym n.child_slot ∙ ap h.slot q ∙ below.child_slot,
          )) in
        record {
          child_level = rw (ne→== u c other) n.child_level;
          child_parent = n.child_parent;
          child_slot = n.child_slot;
        }

    pub pruned-IsTree : IsTree pruned_shape pruned
    pruned-IsTree = record {
      valid = freed.valid;
      narrow = omega (arith, v.narrow, freed.highest);
      reserved = kept_bit 0 (λ e. c_place.nonzero (sym e)) v.reserved;
      placed = λ x k e. kept_Placed x (not_c x k e) (v.placed x k (old_level x k e));
      links = λ x j k e b z. elim (Bool-cases ((x == t) && (j == i))) [
        | inl hit ↦
            let q : x ≡ t = ground arith in
            let p : j ≡ i = ground arith in absurd (cc (z, cut_absent, q, p))
        | inr ne ↦
            let same = cut_other x j ne in
            subst (λ w. Link pruned_shape x j k (frame_of w)) (sym same)
              (kept_Link x j k (frame_of (m.words x j)) ne
                (v.links x j k (old_level x (suc k) e) b (ap is_present (sym same) ∙ z)))
      ];
    }

    -- Levels above the table that is freed are kept.
    pub kept_level : (x k : ℕ) → suc l < k → h.level x ≡ k → pruned_shape.level x ≡ k
    kept_level x k b e =
        let other : x ≢ c = λ q. absurd (omega (arith, ap h.level q, e, b, below.child_level)) in
        rw (ne→== x c other) e

    pub kept_entry : (x j k : ℕ) → suc (suc l) < k → h.level x ≡ k → pruned.words x j ≡ m.words x j
    kept_entry x j k b e =
        let other : (x == t) ≡ false =
          ne→== x t (λ q. absurd (omega (arith, ap h.level q, e, b, lt))) in
        cut_other x j (rw other refl)
