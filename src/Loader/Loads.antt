-- ===== src/Loader/Loads.antt =====
-- load_kernel_segments of kernel/startup.c: the whole loop.
use farou_kernel.Base.{
  ℕ, List, suc, zero, ◌+◌, ◌*◌, ◌^◌, ◌≤◌, ◌<◌, ◌≡◌, inl, inr, refl, sym, ap, ◌∙◌, subst, true, some,
  ltb, leb, arith, eq_or_ne, le→leb, lt→ltb, length,
}
use native.Mathlib.Nat.{mul-le-mul_right}
use farou_kernel.Loader.{
  Ehdr, Phdr, Space, Host, Loading, faulted, exited, loaded, validate_elf_header, read_phdr,
  then_next, phdr_at, load_from, load_kernel_segments,
}
use farou_kernel.Loader.Segments.{
  Takes, ByteOf, may_write, Sound, Placed, Refused, Places, load_segment-Places,
}

-- The program header table lies in the file.
abbrev pub TableInside : Ehdr → List ℕ → Type 0
TableInside ehdr file =
    (56 ≤ ehdr.e_phentsize) × (ehdr.e_phoff + ehdr.e_phnum * ehdr.e_phentsize ≤ length file)

validate-TableInside :
    (ehdr : Ehdr) (file : List ℕ)
    → validate_elf_header ehdr (length file) ≡ true
    → TableInside ehdr file
unfolding validate_elf_header
validate-TableInside ehdr file v = (ground (arith, v), ground (arith, v))

module _ (host : Host) (ehdr : Ehdr) (file : List ℕ) where
  -- No segment of these indices takes the byte.
  abbrev pub Untouched : ℕ → ℕ → ℕ → Type 0
  Untouched lo hi a =
      (j : ℕ)
      → lo ≤ j
      → j < hi
      → (phdr : Phdr) → phdr_at ehdr file j ≡ some phdr
      → Takes host j phdr a
      → ⊥

  -- The bytes of the last segment that takes them, and the other bytes as before.
  pub record Loads (lo hi : ℕ) (s t : Space) : Type 0 where
    pub sound :
        (j : ℕ) (phdr : Phdr)
        → lo ≤ j
        → j < hi
        → phdr_at ehdr file j ≡ some phdr
        → phdr.p_type ≡ 1
        → Sound host j file phdr
    pub untouched : (a : ℕ) → Untouched lo hi a → t.memory a ≡ s.memory a
    pub untouched_rights : (a : ℕ) → Untouched lo hi a → t.writable a ≡ s.writable a
    pub bytes :
        (j : ℕ) (phdr : Phdr) (a : ℕ)
        → lo ≤ j
        → j < hi
        → phdr_at ehdr file j ≡ some phdr
        → Takes host j phdr a
        → Untouched (suc j) hi a
        → ByteOf file phdr a (t.memory a)
    pub rights :
        (j : ℕ) (phdr : Phdr) (a : ℕ)
        → lo ≤ j
        → j < hi
        → phdr_at ehdr file j ≡ some phdr
        → Takes host j phdr a
        → Untouched (suc j) hi a
        → t.writable a ≡ may_write host j phdr

  abbrev pub LoadsAll : ℕ → ℕ → Space → Loading → Type 0
  LoadsAll lo hi s faulted = ⊥
  LoadsAll lo hi s exited =
      (j : ℕ) × (lo ≤ j)
      × (j < hi)
      × (phdr : Phdr) × (phdr_at ehdr file j ≡ some phdr)
      × Refused host j file phdr
  LoadsAll lo hi s (loaded t) = Loads lo hi s t

  module _ (lo hi : ℕ) (lt : lo < hi) (phdr : Phdr) (at : phdr_at ehdr file lo ≡ some phdr)
      (s t : Space) (p : Placed host lo file phdr s t) where
    not_here : (a : ℕ) → Untouched lo hi a → Takes host lo phdr a → ⊥
    not_here a n = n lo (omega arith) lt phdr at

    later : (a : ℕ) → Untouched lo hi a → Untouched (lo + 1) hi a
    later a n j low = n j (omega (arith, low))

    module _ (j : ℕ) (ph : Phdr) (a : ℕ) (q : lo ≡ j) (e : phdr_at ehdr file j ≡ some ph)
        (k : Takes host j ph a) (n : Untouched (suc j) hi a) where
      same : ph ≡ phdr
      same = cc (e, at, q)

      takes : Takes host lo phdr a
      takes = subst (λ x. Takes host x phdr a) (sym q) (subst (λ x. Takes host j x a) same k)

      after : Untouched (lo + 1) hi a
      after i low = n i (omega (arith, low, q))

    first-Loads : (u : Space) → Loads (lo + 1) hi t u → Loads lo hi s u
    first-Loads u l = record {
      sound = λ j ph low high e load. elim (eq_or_ne lo j) [
        | inl q ↦
            let same_ph : ph ≡ phdr = cc (e, at, q) in
            subst (λ x. Sound host x file ph) q
              (subst (λ x. Sound host lo file x) (sym same_ph)
                (p.sound (ap Phdr.p_type (sym same_ph) ∙ load)))
        | inr ne ↦ l.sound j ph (omega (arith, low, ne)) high e load
      ];
      untouched = λ a n. l.untouched a (later a n) ∙ p.others a (not_here a n);
      untouched_rights = λ a n. l.untouched_rights a (later a n) ∙ p.other_rights a (not_here a n);
      bytes = λ j ph a low high e k n. elim (eq_or_ne lo j) [
        | inl q ↦
            subst (λ x. ByteOf file x a (u.memory a)) (sym (same j ph a q e k n))
              (subst (λ x. ByteOf file phdr a x) (sym (l.untouched a (after j ph a q e k n)))
                (p.bytes a (takes j ph a q e k n)))
        | inr ne ↦ l.bytes j ph a (omega (arith, low, ne)) high e k n
      ];
      rights = λ j ph a low high e k n. elim (eq_or_ne lo j) [
        | inl q ↦
            subst (λ x. u.writable a ≡ may_write host x ph) q
              (subst (λ x. u.writable a ≡ may_write host lo x) (sym (same j ph a q e k n))
                (l.untouched_rights a (after j ph a q e k n) ∙ p.rights a (takes j ph a q e k n)))
        | inr ne ↦ l.rights j ph a (omega (arith, low, ne)) high e k n
      ];
    }

  continued :
      (lo hi : ℕ) (lt : lo < hi) (phdr : Phdr) (at : phdr_at ehdr file lo ≡ some phdr) (s t : Space)
      → Placed host lo file phdr s t
      → (r : Loading) → LoadsAll (lo + 1) hi t r
      → LoadsAll lo hi s r
  continued lo hi lt phdr at s t p faulted null = null
  continued lo hi lt phdr at s t p exited (j, low, high, ph, e, refused) =
      (j, omega (arith, low), high, ph, e, refused)
  continued lo hi lt phdr at s t p (loaded u) l = first-Loads lo hi lt phdr at s t p u l

  then_next-LoadsAll :
      (lo hi : ℕ)
      → lo < hi
      → (phdr : Phdr) → phdr_at ehdr file lo ≡ some phdr
      → (s : Space) (next : Space → Loading) → ((t : Space) → LoadsAll (lo + 1) hi t (next t))
      → (r : Loading) → Places host lo file phdr s r
      → LoadsAll lo hi s (then_next next r)
  then_next-LoadsAll lo hi lt phdr at s next go faulted null = null
  then_next-LoadsAll lo hi lt phdr at s next go exited refused =
      (lo, omega arith, lt, phdr, at, refused)
  then_next-LoadsAll lo hi lt phdr at s next go (loaded t) p =
      continued lo hi lt phdr at s t p (next t) (go t)

  module _ (table : TableInside ehdr file) (small : length file ≤ 2 ^ 31) where
    phdr_at-some : (i : ℕ) → i < ehdr.e_phnum → (phdr : Phdr) × (phdr_at ehdr file i ≡ some phdr)
    unfolding phdr_at read_phdr
    phdr_at-some i lt =
        let room : suc i * ehdr.e_phentsize ≤ ehdr.e_phnum * ehdr.e_phentsize =
          mul-le-mul_right ehdr.e_phentsize lt in
        let step : suc i * ehdr.e_phentsize ≡ i * ehdr.e_phentsize + ehdr.e_phentsize =
          omega arith in
        let narrow : ltb (i * ehdr.e_phentsize) 2147483648 ≡ true =
          lt→ltb _ _ (omega (arith, room, step, table.0, table.1, small)) in
        let fits : leb (ehdr.e_phoff + i * ehdr.e_phentsize + 56) (length file) ≡ true =
          le→leb _ _ (omega (arith, room, step, table.0, table.1)) in
        rw (narrow, fits) (_, refl)

    load_from-LoadsAll :
        (rounds lo : ℕ) (s : Space)
        → lo + rounds ≡ ehdr.e_phnum
        → LoadsAll lo ehdr.e_phnum s (load_from host ehdr file rounds lo s)
    unfolding load_from
    load_from-LoadsAll zero lo s e = record {
      sound = λ j ph low high f k. absurd (omega (arith, low, high, e));
      untouched = λ a n. refl;
      untouched_rights = λ a n. refl;
      bytes = λ j ph a low high f k n. absurd (omega (arith, low, high, e));
      rights = λ j ph a low high f k n. absurd (omega (arith, low, high, e));
    }
    load_from-LoadsAll (suc rounds) lo s e =
        let lt : lo < ehdr.e_phnum = omega (arith, e) in
        let (phdr, at) = phdr_at-some lo lt in
        rw at (
          then_next-LoadsAll lo ehdr.e_phnum lt phdr at s
            (λ t. load_from host ehdr file rounds (lo + 1) t)
            (λ t. load_from-LoadsAll rounds (lo + 1) t (omega (arith, e))) _
            (load_segment-Places host lo file phdr s))

-- A file of at most 2^31 bytes whose header passes the checks is loaded without a read outside the file
-- or a write behind a mapping. The program ends only at a loadable segment whose part of the file does
-- not lie in the file or in the segment's memory, whose memory does not begin at a page or wraps round,
-- or that the host does not map at its address, or without a page size. Else every loadable segment
-- lies in the file and in its memory, which begins at a page and does not wrap; each byte is that of the
-- last segment that takes it: the file's byte, or zero behind the file's part, and it may be written
-- only where the segment says so or mprotect fails. A byte that no segment takes is as before.
pub load_kernel_segments-LoadsAll :
    (host : Host) (ehdr : Ehdr) (file : List ℕ) (s : Space)
    → validate_elf_header ehdr (length file) ≡ true
    → length file ≤ 2 ^ 31
    → LoadsAll host ehdr file 0 ehdr.e_phnum s (load_kernel_segments host ehdr file s)
unfolding load_kernel_segments
load_kernel_segments-LoadsAll host ehdr file s v small =
    load_from-LoadsAll host ehdr file (validate-TableInside ehdr file v) small ehdr.e_phnum 0 s
      (omega arith)
