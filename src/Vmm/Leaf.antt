-- ===== src/Vmm/Leaf.antt =====
-- A page table of kernel/memory.c with one entry written.
use farou_kernel.Base.{
  ℕ, suc, ◌-◌, ◌<◌, ◌≡◌, ◌≢◌, refl, sym, ap, ◌∙◌, subst, true, false, some, List, [], ◌∷◌, ◌==◌,
  length, arith, inl, inr, ==_refl, ne→==, eq_or_ne,
}
use farou_kernel.Vmm.{Memory, is_present, frame_of, write_word}
use farou_kernel.Vmm.Tree.{
  lookup, present_entry, follow, Shape, Link, IsTree, Indices, lookup_present, lookup_same,
  follow_cons, follow-Passes,
}

module _ (h : Shape) (m : Memory) (v : IsTree h m) (pt k e : ℕ) (lp : h.level pt ≡ 1) where
  abbrev pub with_entry : Memory
  with_entry = record m { words = write_word pt k e m.words }

  there : with_entry.words pt k ≡ e
  unfolding write_word
  there = rw (==_refl pt, ==_refl k) refl

  upper_same : (t i l : ℕ) → h.level t ≡ suc (suc l) → with_entry.words t i ≡ m.words t i
  unfolding write_word
  upper_same t i l lt =
      let other : (t == pt) ≡ false =
        ne→== t pt (λ q. absurd (omega (arith, lt, lp, ap h.level q))) in
      rw other refl

  pub upper_entry : (t i k : ℕ) → 1 < k → h.level t ≡ k → with_entry.words t i ≡ m.words t i
  upper_entry t i k b e = upper_same t i (k - 2) (omega (arith, b, e))

  pub with_entry-IsTree : IsTree h with_entry
  with_entry-IsTree = record {
    valid = v.valid;
    narrow = v.narrow;
    reserved = v.reserved;
    placed = v.placed;
    links = λ t i l lt b y.
        let same = upper_same t i l lt in
        subst (λ w. Link h t i l (frame_of w)) (sym same)
          (v.links t i l lt b (ap is_present (sym same) ∙ y));
  }

  -- The entry is read at the end of every walk that comes to it.
  pub with_entry_hit :
      (t : ℕ) (is : List ℕ)
      → h.level t ≡ suc (length is)
      → Indices is
      → follow m.words t is ≡ some pt
      → lookup with_entry.words t is k ≡ present_entry e
  unfolding lookup follow
  with_entry_hit t [] lt b f = cc (ap present_entry there, f)
  with_entry_hit t (i ∷ is) lt b f =
      let y = follow-Passes m.words t i is pt f in
      let same = upper_same t i (length is) lt in
      lookup_present with_entry.words t i is k (ap is_present same ∙ y.0)
      ∙ ap (λ a. lookup with_entry.words (frame_of a) is k) same
      ∙ with_entry_hit (frame_of (m.words t i)) is
          ((v.links t i (length is) lt b.0 y.0).child_level) b.1 y.1

  pub with_entry_miss :
      (t : ℕ) (is : List ℕ) (last : ℕ)
      → h.level t ≡ suc (length is)
      → Indices is
      → (follow m.words t is ≡ some pt → last ≢ k)
      → lookup with_entry.words t is last ≡ lookup m.words t is last
  unfolding lookup follow write_word
  with_entry_miss t [] last lt b f = elim (eq_or_ne t pt) [
    | inl q ↦
        let same : (t == pt) ≡ true = rw q (==_refl pt) in
        ap present_entry (rw (same, ne→== last k (f (ap some q))) refl)
    | inr n ↦ ap present_entry (rw (ne→== t pt n) refl)
  ]
  with_entry_miss t (i ∷ is) last lt b f =
      lookup_same m.words t i is last with_entry.words (upper_same t i (length is) lt) (λ y.
        with_entry_miss (frame_of (m.words t i)) is last
          ((v.links t i (length is) lt b.0 y).child_level) b.1
          (λ g. f (follow_cons m.words t i (frame_of (m.words t i)) is pt y refl g)))
