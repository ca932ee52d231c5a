-- ===== src/Multiboot/Tags.antt =====
-- find_multiboot2_tag of multiboot2_parser.c.
use farou_kernel.Base.{
  ℕ, List, [], ◌∷◌, suc, ◌+◌, ◌*◌, ◌/◌, ◌^◌, ◌<◌, ◌≡◌, ◌≢◌, refl, inl, inr, false, Bool-cases, some,
  ◌==◌, if◌then◌else◌, arith, length, ne→==,
}
use farou_kernel.Base.Word.{add64, align_up, align_down}
use farou_kernel.Multiboot.{next_tag, search_tag, find_multiboot2_tag}

pub record Tag : Type 0 where
  pub kind : ℕ
  pub size : ℕ

-- Where the next tag begins.
abbrev pub after_tag : ℕ → Tag → ℕ
after_tag addr t = (addr + t.size + 7) / 8 * 8

-- The tags lie from an address on, each after the first at a multiple of 8, and the end tag after them.
abbrev pub Laid : (ℕ → ℕ) → ℕ → List Tag → Type 0
Laid memory addr [] = memory addr ≡ 0
Laid memory addr (t ∷ ts) =
    (memory addr ≡ t.kind)
    × (t.kind ≢ 0)
    × (memory (addr + 4) ≡ t.size)
    × (addr + t.size + 7 < 2 ^ 64)
    × Laid memory (after_tag addr t) ts

-- The address of the first tag of a kind, or 0.
abbrev pub address_of : ℕ → ℕ → List Tag → ℕ
address_of wanted addr [] = 0
address_of wanted addr (t ∷ ts) =
    if t.kind == wanted then addr else address_of wanted (after_tag addr t) ts

module _ (memory : ℕ → ℕ) (wanted : ℕ) where
  next_lem :
      (addr : ℕ) (t : Tag) (ts : List Tag)
      → Laid memory addr (t ∷ ts)
      → next_tag memory addr ≡ after_tag addr t
  unfolding next_tag align_up align_down add64
  next_lem addr t ts (kind, nz, size, small, rest) = rw size (omega (arith, small))

  search_tag_lem :
      (ts : List Tag) (addr more : ℕ)
      → Laid memory addr ts
      → search_tag (suc (length ts + more)) wanted memory addr ≡ some (address_of wanted addr ts)
  unfolding search_tag
  search_tag_lem [] addr more l = rw l refl
  search_tag_lem (t ∷ ts) addr more l =
      let e : suc (length ts) + more ≡ suc (length ts + more) = omega arith in
      let nz : (t.kind == 0) ≡ false = ne→== _ _ l.1 in
      elim (Bool-cases (t.kind == wanted)) [
        | inl y ↦ rw (l.0, nz, y) refl
        | inr n ↦
            rw (l.0, nz, n, next_lem addr t ts l, e) (search_tag_lem ts (after_tag addr t) more l.4)
      ]

  -- On tags laid out one after the other, the search ends after as many rounds as there are tags, and one
  -- for the end tag; it gives the first tag of the kind wanted, or NULL where there is none.
  pub find_multiboot2_tag_lem :
      (ts : List Tag) (multiboot_info more : ℕ)
      → 0 < multiboot_info
      → Laid memory (multiboot_info + 8) ts
      → find_multiboot2_tag (suc (length ts + more)) wanted memory multiboot_info
        ≡ some (address_of wanted (multiboot_info + 8) ts)
  unfolding find_multiboot2_tag
  find_multiboot2_tag_lem ts multiboot_info more some_info l =
      let nz : (multiboot_info == 0) ≡ false = ne→== _ _ (λ q. omega (arith, q, some_info)) in
      rw nz (search_tag_lem ts (multiboot_info + 8) more l)
