-- ===== src/Interrupts/Gates.antt =====
-- init_idt of kernel/interrupts.c.
use farou_kernel.Base.{
  ℕ, suc, zero, ◌+◌, ◌*◌, ◌%◌, ◌^◌, ◌≤◌, ◌<◌, ◌≡◌, ◌≢◌, ◌⊎◌, refl, sym, ap, ◌∙◌, inl, inr, true,
  false, ◌||◌, ltb, ◌==◌, if◌then◌else◌, arith, ne→==, ==_iff, subst, eq_or_ne,
}
use farou_kernel.Interrupts.{
  IdtEntry, absent_entry, gate, Idt, set_idt_entry, isr_stubs, fill_idt, init_idt, kernel_cs,
}

-- The address that the processor takes from a gate.
abbrev pub handler_address : IdtEntry → ℕ
handler_address e = e.offset_low + e.offset_mid * 2 ^ 16 + e.offset_high * 2 ^ 32

gate_address : (addr dpl : ℕ) → addr < 2 ^ 64 → handler_address (gate addr dpl) ≡ addr
gate_address addr dpl h = omega arith

module _ (stub_address : ℕ → ℕ) where
  abbrev entry_for : ℕ → IdtEntry
  entry_for v =
      if isr_stubs stub_address v == 0 then absent_entry else gate (isr_stubs stub_address v) 0

  below :
      (rounds i : ℕ) (idt : Idt) (v : ℕ)
      → i + rounds ≤ 256
      → v < i
      → fill_idt stub_address rounds i idt v ≡ idt v
  unfolding fill_idt set_idt_entry
  below zero i idt v le lt = refl
  below (suc rounds) i idt v le lt =
      let other : (v == i % 256) ≡ false = ne→== _ _ (λ q. omega (arith, q, le, lt)) in
      below rounds (i + 1) _ v (omega (arith, le)) (omega (arith, lt)) ∙ rw other refl

  filled :
      (rounds i : ℕ) (idt : Idt) (v : ℕ)
      → i + rounds ≤ 256
      → i ≤ v
      → v < i + rounds
      → fill_idt stub_address rounds i idt v ≡ entry_for v
  unfolding fill_idt set_idt_entry
  filled zero i idt v le low high = absurd (omega (arith, low, high))
  filled (suc rounds) i idt v le low high = elim (eq_or_ne i v) [
    | inr ne ↦
        filled rounds (i + 1) _ v (omega (arith, le)) (omega (arith, ne, low)) (omega (arith, high))
    | inl q ↦
        let here : (v == i % 256) ≡ true = (==_iff _ _).1 (omega (arith, q, le)) in
        below rounds (i + 1) _ v (omega (arith, le)) (omega (arith, q)) ∙ rw (here, q) refl
  ]

-- What the processor finds for a vector: no gate, or a gate of the kernel to the stub of the vector.
pub record Opens (e : IdtEntry) (addr : ℕ) : Type 0 where
  pub is_present : e.present ≡ 1
  pub kernel : (e.selector ≡ kernel_cs) × (e.dpl ≡ 0)
  pub target : handler_address e ≡ addr

-- After init_idt, the gate of an exception or of the spurious vector, whose stub has a non-zero 64-bit
-- address, leads to the stub with the kernel's rights; no other vector has a gate.
pub init_idt-Opens :
    (stub_address : ℕ → ℕ) (idt : Idt) (v : ℕ)
    → v < 256
    → 0 < stub_address v
    → stub_address v < 2 ^ 64
    → (((v < 32) ⊎ (v ≡ 255)) → Opens (init_idt stub_address idt v) (stub_address v))
      × ((32 ≤ v) → (v ≢ 255) → (init_idt stub_address idt v).present ≡ 0)
unfolding init_idt isr_stubs
init_idt-Opens stub_address idt v lt some_address wide =
    let e = filled stub_address 256 0 idt v (omega arith) (omega arith) (omega (arith, lt)) in
    (
      λ set.
          let listed : (ltb v 32 || (v == 255)) ≡ true = ground (arith, set) in
          let not_null : (stub_address v == 0) ≡ false =
            ne→== _ _ (λ q. omega (arith, q, some_address)) in
          let found : fill_idt stub_address 256 0 idt v ≡ gate (stub_address v) 0 =
            e ∙ rw (listed, not_null) refl in
          subst (λ x. Opens x (stub_address v)) (sym found)
            (record {
              is_present = refl;
              kernel = (refl, refl);
              target = gate_address (stub_address v) 0 wide;
            }),
      λ high ne.
          let unlisted : (ltb v 32 || (v == 255)) ≡ false = ground (arith, high, ne) in
          let found : fill_idt stub_address 256 0 idt v ≡ absent_entry = e ∙ rw unlisted refl in
          ap (λ x. x.present) found,
    )
