-- ===== src/Multiboot/Entries.antt =====
-- The loop over the memory map in multiboot2_parser.c.
use farou_kernel.Base.{
  ℕ, List, [], ◌∷◌, suc, zero, ◌+◌, ◌*◌, ◌^◌, ◌<◌, ◌≡◌, refl, ◌∙◌, none, some, arith, lt→ltb,
  ge→ltb,
}
use farou_kernel.Base.Word.{add64, add64_small}
use farou_kernel.Multiboot.{visit_entries}

-- The addresses of `n` entries one after the other.
abbrev pub addresses : ℕ → ℕ → ℕ → List ℕ
addresses zero entry entry_size = []
addresses (suc n) entry entry_size = entry ∷ addresses n (entry + entry_size) entry_size

-- Entries of `n` times a size above 0 are each visited once, in order, in n + 1 rounds.
pub visit_entries_lem :
    (n more entry_size entry : ℕ)
    → 0 < entry_size
    → entry + n * entry_size < 2 ^ 64
    → visit_entries (suc (n + more)) entry_size entry (entry + n * entry_size)
      ≡ some (addresses n entry entry_size)
unfolding visit_entries
visit_entries_lem zero more entry_size entry some_size small =
    rw (ge→ltb entry (entry + 0 * entry_size) (omega arith)) refl
visit_entries_lem (suc n) more entry_size entry some_size small =
    let step : add64 entry entry_size ≡ entry + entry_size =
      add64_small _ _ (omega (arith, small)) in
    let end : entry + suc n * entry_size ≡ entry + entry_size + n * entry_size = omega arith in
    let e : suc n + more ≡ suc (n + more) = omega arith in
    let rest : visit_entries (suc n + more) entry_size (entry + entry_size)
          (entry + suc n * entry_size)
        ≡ some (addresses n (entry + entry_size) entry_size) =
      rw (e, end)
        (visit_entries_lem n more entry_size (entry + entry_size) some_size
          (omega (arith, small))) in
    rw (lt→ltb entry (entry + suc n * entry_size) (omega (arith, some_size)), step, rest) refl

-- With entries of size 0 the loop never ends.
pub visit_entries_stuck :
    (rounds entry end : ℕ) → entry < end → end < 2 ^ 64 → visit_entries rounds 0 entry end ≡ none
unfolding visit_entries
visit_entries_stuck zero entry end lt small = refl
visit_entries_stuck (suc rounds) entry end lt small =
    let same : add64 entry 0 ≡ entry =
      add64_small entry 0 (omega (arith, lt, small)) ∙ omega arith in
    rw (lt→ltb _ _ lt, same, visit_entries_stuck rounds entry end lt small) refl
