-- ===== src/Pic/Masks.antt =====
-- pic_set_mask and pic_clear_mask of pic.c.
use farou_kernel.Base.{
  ℕ, ◌<◌, ◌≡◌, ◌≢◌, refl, sym, ◌∙◌, Bool, true, false, ◌==◌, if◌then◌else◌, arith, inl, inr,
  eq_or_ne, ap, ne→==,
}
use farou_kernel.Pic.{Byte, Ports, port_of, bit_of, pic_set_mask, pic_clear_mask}

-- The data ports keep what is written to them, as the controller documents of its mask.
pub record Keeping (p : Ports) : Type 0 where
  pub same :
      (port : ℕ) (v : Byte) (d : p.Device) → p.port_byte_in port (p.port_byte_out port v d) ≡ v
  pub other :
      (port other : ℕ) (v : Byte) (d : p.Device)
      → other ≢ port
      → p.port_byte_in other (p.port_byte_out port v d) ≡ p.port_byte_in other d

abbrev pub is_masked : (p : Ports) → ℕ → p.Device → Bool
is_masked p line d = p.port_byte_in (port_of line) d (bit_of line)

module _ (p : Ports) (k : Keeping p) where
  written :
      (line other : ℕ) (v : Byte) (d : p.Device)
      → line < 16
      → other < 16
      → (b : Bool)
      → ((j : ℕ)
          → j < 8
          → v j ≡ (if j == bit_of line then b else p.port_byte_in (port_of line) d j))
      → is_masked p other (p.port_byte_out (port_of line) v d)
        ≡ (if other == line then b else is_masked p other d)
  written line other v d h h' b e = elim (eq_or_ne (port_of other) (port_of line)) [
    | inl q ↦
        let kept : p.port_byte_in (port_of line) d (bit_of other) ≡ is_masked p other d =
          ap (λ x. p.port_byte_in x d (bit_of other)) (sym q) in
        ap (λ x. p.port_byte_in x (p.port_byte_out (port_of line) v d) (bit_of other)) q
        ∙ ap (λ f. f (bit_of other)) (k.same (port_of line) v d)
        ∙ e (bit_of other) (ground (arith, h'))
        ∙ ground (arith, kept, q, h, h')
    | inr n ↦
        ap (λ f. f (bit_of other)) (k.other (port_of line) (port_of other) v d n)
        ∙ rw (ne→== other line (λ q. n (ap port_of q))) refl
  ]

  -- Setting or clearing the mask of one of the 16 lines changes the mask of this line, and of no other.
  pub is_masked-pic_set_mask :
      (line other : ℕ) (d : p.Device)
      → line < 16
      → other < 16
      → (is_masked p other (pic_set_mask p line d)
          ≡ (if other == line then true else is_masked p other d))
        × (is_masked p other (pic_clear_mask p line d)
            ≡ (if other == line then false else is_masked p other d))
  unfolding pic_set_mask pic_clear_mask
  is_masked-pic_set_mask line other d h h' = (
    written line other _ d h h' true (λ j s. ground arith),
    written line other _ d h h' false (λ j s. ground arith),
  )
