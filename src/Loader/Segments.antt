-- ===== src/Loader/Segments.antt =====
-- load_kernel_segments of kernel/startup.c.
use farou_kernel.Base.{
  ℕ, List, ◌+◌, ◌-◌, ◌*◌, ◌/◌, ◌%◌, ◌^◌, ◌≤◌, ◌<◌, ◌≡◌, ◌≢◌, ◌⊎◌, inl, inr, refl, Bool, true, false,
  not, ◌||◌, Option, none, some, ltb, leb, ◌==◌, arith, Bool-cases, ==_iff, le→leb, lt→ltb, ge→ltb,
  length, get_or,
}
use native.Mathlib.Nat.{lt-div-mul-add}
use farou_kernel.Loader.{
  Phdr, Space, Host, Loading, faulted, exited, loaded, whole_pages, in_pages, segment_byte,
  map_segment, mapped, is_segment_valid, is_range_valid, load_segment,
}

-- The bytes that loading a segment changes: those of its pages.
abbrev pub Takes : Host → ℕ → Phdr → ℕ → Type 0
Takes host i phdr a =
    (phdr.p_type ≡ 1)
    × (phdr.p_memsz ≢ 0)
    × (phdr.p_vaddr ≤ a)
    × (a
        < phdr.p_vaddr
          + (phdr.p_memsz + host.page_size i - 1) / host.page_size i * host.page_size i)

-- The byte at `a` is the segment's: the file's byte in the part that the file holds, and zero behind it.
abbrev pub ByteOf : List ℕ → Phdr → ℕ → ℕ → Type 0
ByteOf file phdr a b =
    (a < phdr.p_vaddr + phdr.p_filesz → b ≡ get_or file (phdr.p_offset + (a - phdr.p_vaddr)) 0)
    × (phdr.p_vaddr + phdr.p_filesz ≤ a → b ≡ 0)

-- PF_W is 2. The right to write is kept where `mprotect` fails.
abbrev pub may_write : Host → ℕ → Phdr → Bool
may_write host i phdr = (phdr.p_flags / 2 % 2 == 1) || not (host.mprotect i)

-- What a loadable segment is where it is loaded: its part of the file lies in the file and in its memory, and
-- its memory, if it has some, begins at a page and does not wrap round.
abbrev pub Sound : Host → ℕ → List ℕ → Phdr → Type 0
Sound host i file phdr =
    (phdr.p_offset + phdr.p_filesz ≤ length file)
    × (phdr.p_filesz ≤ phdr.p_memsz)
    × ((phdr.p_memsz ≡ 0)
        ⊎ ((phdr.p_vaddr % host.page_size i ≡ 0) × (phdr.p_vaddr + phdr.p_memsz < 2 ^ 64)))

-- What a turn of the loop leaves, where it does not end the program.
pub record Placed (host : Host) (i : ℕ) (file : List ℕ) (phdr : Phdr) (s t : Space) : Type 0 where
  pub sound : phdr.p_type ≡ 1 → Sound host i file phdr
  pub bytes : (a : ℕ) → Takes host i phdr a → ByteOf file phdr a (t.memory a)
  pub rights : (a : ℕ) → Takes host i phdr a → t.writable a ≡ may_write host i phdr
  pub others : (a : ℕ) → (Takes host i phdr a → ⊥) → t.memory a ≡ s.memory a
  pub other_rights : (a : ℕ) → (Takes host i phdr a → ⊥) → t.writable a ≡ s.writable a

-- The segment's part of the file does not lie in the file, or not in the segment's memory.
abbrev pub Outside : List ℕ → Phdr → Type 0
Outside file phdr =
    (length file < phdr.p_offset + phdr.p_filesz)
    ⊎ (2 ^ 64 ≤ phdr.p_offset + phdr.p_filesz)
    ⊎ (phdr.p_memsz < phdr.p_filesz)

-- There is no page size, or the segment's memory does not begin at a page, or wraps round.
abbrev pub Misplaced : ℕ → Phdr → Type 0
Misplaced page_size phdr =
    (page_size ≡ 0) ⊎ (phdr.p_vaddr % page_size ≢ 0) ⊎ (2 ^ 64 ≤ phdr.p_vaddr + phdr.p_memsz)

-- A loadable segment fails a check, or the host does not map it where it belongs.
abbrev pub Refused : Host → ℕ → List ℕ → Phdr → Type 0
Refused host i file phdr =
    (phdr.p_type ≡ 1)
    × (Outside file phdr
        ⊎ ((phdr.p_memsz ≢ 0)
            × (Misplaced (host.page_size i) phdr ⊎ (host.mmap i ≢ some phdr.p_vaddr))))

abbrev pub Places : Host → ℕ → List ℕ → Phdr → Space → Loading → Type 0
Places host i file phdr s faulted = ⊥
Places host i file phdr s exited = Refused host i file phdr
Places host i file phdr s (loaded t) = Placed host i file phdr s t

-- The pages of a mapping hold its bytes.
le-whole_pages : (page_size size : ℕ) → page_size ≢ 0 → size ≤ whole_pages page_size size
le-whole_pages page_size size nonzero =
    omega
      (arith, lt-div-mul-add {a = size + page_size - 1} {b = page_size} (omega (arith, nonzero)))

module _ (host : Host) (i : ℕ) (file : List ℕ) (phdr : Phdr) (s : Space) where
  valid-Inside :
      is_segment_valid (length file) phdr ≡ true
      → (phdr.p_offset + phdr.p_filesz ≤ length file) × (phdr.p_filesz ≤ phdr.p_memsz)
  unfolding is_segment_valid
  valid-Inside v = (ground (arith, v), ground (arith, v))

  invalid-Outside : is_segment_valid (length file) phdr ≡ false → Outside file phdr
  unfolding is_segment_valid
  invalid-Outside v = elim (Bool-cases (leb (phdr.p_offset + phdr.p_filesz) (length file))) [
    | inr b ↦ inl (ground (arith, b))
    | inl y ↦ elim (Bool-cases (ltb (phdr.p_offset + phdr.p_filesz) 18446744073709551616)) [
      | inr b ↦ inr (inl (ground (arith, b)))
      | inl z ↦ inr (inr (ground (arith, v, y, z)))
    ]
  ]

  range-Aligned :
      is_range_valid (host.page_size i) phdr ≡ true
      → (host.page_size i ≢ 0)
        × (phdr.p_vaddr % host.page_size i ≡ 0)
        × (phdr.p_vaddr + phdr.p_memsz < 2 ^ 64)
  unfolding is_range_valid
  range-Aligned v = ((λ q. absurd (ground (arith, v, q))), ground (arith, v), ground (arith, v))

  range-Misplaced :
      is_range_valid (host.page_size i) phdr ≡ false → Misplaced (host.page_size i) phdr
  unfolding is_range_valid
  range-Misplaced v = elim (Bool-cases (host.page_size i == 0)) [
    | inl z ↦ inl ((==_iff _ _).0 z)
    | inr n ↦ elim (Bool-cases (phdr.p_vaddr % host.page_size i == 0)) [
      | inr b ↦ inr (inl (λ q. ground (arith, q, b)))
      | inl y ↦ inr (inr (ground (arith, v, n, y)))
    ]
  ]

  skipped :
      (phdr.p_type ≢ 1)
        ⊎ ((phdr.p_memsz ≡ 0)
            × (phdr.p_offset + phdr.p_filesz ≤ length file)
            × (phdr.p_filesz ≤ phdr.p_memsz))
      → Placed host i file phdr s s
  skipped (inl other) = record {
    sound = λ q. absurd (other q);
    bytes = λ a t. absurd (other t.0);
    rights = λ a t. absurd (other t.0);
    others = λ a n. refl;
    other_rights = λ a n. refl;
  }
  skipped (inr (empty, inside, fits)) = record {
    sound = λ q. (inside, fits, inl empty);
    bytes = λ a t. absurd (t.1 empty);
    rights = λ a t. absurd (t.1 empty);
    others = λ a n. refl;
    other_rights = λ a n. refl;
  }

  module _ (load : phdr.p_type ≡ 1) (size : phdr.p_memsz ≢ 0) (sound : Sound host i file phdr) where
    taken :
        (a : ℕ)
        → Takes host i phdr a
        → in_pages (host.page_size i) phdr.p_vaddr phdr.p_memsz a ≡ true
    taken a t = rw (le→leb _ _ t.2, lt→ltb _ _ t.3) refl

    not_taken :
        (a : ℕ)
        → (Takes host i phdr a → ⊥)
        → in_pages (host.page_size i) phdr.p_vaddr phdr.p_memsz a ≡ false
    not_taken a n = elim (Bool-cases (in_pages (host.page_size i) phdr.p_vaddr phdr.p_memsz a)) [
      | inl y ↦ absurd (n (load, size, ground (arith, y), ground (arith, y)))
      | inr out ↦ out
    ]

    byte : (a : ℕ) → phdr.p_vaddr ≤ a → ByteOf file phdr a (segment_byte file phdr a)
    byte a low = (
      (λ h. rw (lt→ltb (a - phdr.p_vaddr) phdr.p_filesz (omega (arith, h, low))) refl),
      λ h. rw (ge→ltb (a - phdr.p_vaddr) phdr.p_filesz (omega (arith, h, low))) refl,
    )

    map_segment-Placed : Placed host i file phdr s (map_segment host i file phdr s)
    unfolding map_segment
    map_segment-Placed = record {
      sound = λ q. sound;
      bytes = λ a t. rw (taken a t) (byte a t.2);
      rights = λ a t. rw (taken a t) refl;
      others = λ a n. rw (not_taken a n) refl;
      other_rights = λ a n. rw (not_taken a n) refl;
    }

    mapped-Places :
        host.page_size i ≢ 0
        → (r : Option ℕ) → host.mmap i ≡ r
        → Places host i file phdr s (mapped host i file phdr s r)
    mapped-Places some_size none e = (load, inr (size, inr (λ q. absurd (cc (e, q)))))
    mapped-Places some_size (some a) e = elim (Bool-cases (a == phdr.p_vaddr)) [
      | inr moved ↦
          let ne : a ≢ phdr.p_vaddr = λ q. ground (arith, q, moved) in
          rw moved (load, inr (size, inr (λ q. ne (cc (e, q)))))
      | inl there ↦
          let room = le-whole_pages (host.page_size i) phdr.p_memsz some_size in
          let fits : leb phdr.p_filesz (whole_pages (host.page_size i) phdr.p_memsz) ≡ true =
            le→leb _ _ (omega (arith, room, sound.1)) in
          rw (there, le→leb _ _ sound.0, fits) map_segment-Placed
    ]

  abbrev has_type : Bool
  has_type = phdr.p_type == 1

  abbrev is_empty : Bool
  is_empty = phdr.p_memsz == 0

  pub load_segment-Places : Places host i file phdr s (load_segment host i file phdr s)
  unfolding load_segment
  load_segment-Places = elim (Bool-cases has_type) [
    | inr other ↦ rw other (skipped (inl (λ q. ground (arith, q, other))))
    | inl is_load ↦
        let load : phdr.p_type ≡ 1 = (==_iff _ _).0 is_load in
        elim (Bool-cases (is_segment_valid (length file) phdr)) [
          | inr bad ↦ rw (is_load, bad) (load, inl (invalid-Outside bad))
          | inl good ↦
              let inside = valid-Inside good in
              elim (Bool-cases is_empty) [
                | inl empty ↦
                    rw (is_load, good, empty)
                      (skipped (inr ((==_iff _ _).0 empty, inside.0, inside.1)))
                | inr full ↦
                    let size : phdr.p_memsz ≢ 0 = λ q. ground (arith, q, full) in
                    elim (Bool-cases (is_range_valid (host.page_size i) phdr)) [
                      | inr bad ↦
                          rw (is_load, good, full, bad)
                            (load, inr (size, inl (range-Misplaced bad)))
                      | inl fine ↦
                          let (paged, aligned, ends) = range-Aligned fine in
                          rw (is_load, good, full, fine)
                            (mapped-Places load size (inside.0, inside.1, inr (aligned, ends)) paged
                              (host.mmap i) refl)
                    ]
              ]
        ]
  ]
