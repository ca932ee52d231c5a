-- ===== src/Heap/Split.antt =====
-- Handing out a block of the kernel heap of kernel/memory.c, split where it is large.
use farou_kernel.Base.{
  ℕ, List, ◌+◌, ◌-◌, ◌%◌, ◌^◌, ◌≤◌, ◌<◌, ◌≡◌, ◌≢◌, ◌⊎◌, inl, inr, refl, sym, ap, ◌∙◌, subst, true,
  false, some, ltb, leb, ◌==◌, arith, Bool-cases, ne→==, ==_refl, ltb→lt, ltb→ge, le→leb, gt→leb,
}
use farou_kernel.Base.Word.{add64, sub64, add64_small, sub64_small}
use farou_kernel.Heap.Layout.{
  end_of, Apart, Agree, Chain-Agree, Apart-Agree, total-Agree, Apart-Avoids,
}
use farou_kernel.Heap.{
  kheap_magic, allocated_magic, Headers, Heap, set_magic, set_size, write_header, insert_block,
  kernel_heap_start, kheap_add_to_free_list,
}
use farou_kernel.Heap.Insert.{insert_block-Chain, total-insert_block, Apart-insert_block}
use farou_kernel.Heap.Fit.{Takes}
use farou_kernel.Heap.Invariant.{IsHeap}
use farou_kernel.Heap.Kmalloc.{Run, panicked, unfinished, returned, split_block, hand_out}
use farou_kernel.Heap.Carve.{
  Granted, Carved, Apart-shrink, Agree-but, Carved-Granted, marked-Carved, marked_headers,
}

module _ (s : Heap) (live : List ℕ) (lost n b : ℕ) (rest : List ℕ) (v : IsHeap s live lost)
    (take : Takes s.headers kernel_heap_start s.kheap_free_list s.kheap_current_break n b rest)
    (whole : n % 16 ≡ 0) where
  abbrev hd : Headers
  hd = s.headers

  abbrev hi : ℕ
  hi = s.kheap_current_break

  -- The block is split: what follows the `n` bytes is a free block of its own.
  module _ (room : n + 48 ≤ (hd b).size) where
    abbrev sf : ℕ
    sf = b + 32 + n

    abbrev left : ℕ
    left = (hd b).size - n - 32

    abbrev split_headers : Headers
    split_headers =
        set_magic b allocated_magic (set_magic sf kheap_magic (set_size b n (set_size sf left hd)))

    b_ne : (b == sf) ≡ false
    b_ne = ne→== b sf (λ e. omega (arith, e))

    sf_ne : (sf == b) ≡ false
    sf_ne = ne→== sf b (λ e. omega (arith, e))

    split_header : split_headers b ≡ record { size = n; magic = allocated_magic }
    unfolding write_header
    split_header = rw (==_refl b, b_ne) refl

    free_header : split_headers sf ≡ record { size = left; magic = kheap_magic }
    unfolding write_header
    free_header = rw (sf_ne, ==_refl sf) refl

    split_other : (y : ℕ) → b ≢ y → sf ≢ y → split_headers y ≡ hd y
    unfolding write_header
    split_other y nb ns = rw (ne→== y b (λ e. nb (sym e)), ne→== y sf (λ e. ns (sym e))) refl

    split_end : end_of split_headers sf ≡ end_of hd b
    split_end = omega (arith, ap (λ h. h.size) free_header, room)

    sf_alone : Apart hd sf (end_of hd b) rest
    sf_alone =
        Apart-shrink hd b (end_of hd b) sf (end_of hd b) rest (omega arith) (omega arith) take.alone

    split_kept : Agree hd split_headers rest
    split_kept =
        Agree-but hd split_headers b sf split_other rest
          (Apart-Avoids hd b (end_of hd b) rest (omega arith) take.alone)
          (Apart-Avoids hd sf (end_of hd b) rest (omega (arith, room)) sf_alone)

    split-Apart :
        (y z : ℕ)
        → ((z ≤ sf) ⊎ (end_of split_headers sf ≤ y))
        → Apart hd y z rest
        → Apart split_headers y z (insert_block sf rest)
    split-Apart y z side p =
        Apart-insert_block split_headers sf y z rest
          (side, Apart-Agree hd split_headers y z rest split_kept p)

    split-Carved : Carved hd hi b rest n split_headers (insert_block sf rest)
    split-Carved =
        let size : (split_headers sf).size ≡ left = ap (λ h. h.size) free_header in
        record {
          chain =
              insert_block-Chain split_headers sf kernel_heap_start rest hi
                (Chain-Agree hd split_headers kernel_heap_start rest hi split_kept take.remains)
                (record {
                  aligned = omega (arith, take.free.aligned, whole);
                  whole = omega (arith, size, take.free.whole, whole, room);
                  marked = ap (λ h. h.magic) free_header;
                })
                (omega (arith, take.low)) (omega (arith, split_end, take.high))
                (subst (λ e. Apart split_headers sf e rest) (sym split_end)
                  (Apart-Agree hd split_headers sf (end_of hd b) rest split_kept sf_alone));
          header = split_header;
          whole = whole;
          inside = omega (arith, room);
          same_total = omega (
            arith,
            total-insert_block split_headers sf rest,
            size,
            room,
            total-Agree hd split_headers rest split_kept,
          );
          keeps = record {
            same = λ y z wide in_range p.
                split_other y (λ e. omega (arith, e, p.0, wide))
                  (λ e. omega (arith, e, p.0, wide, room));
            apart = λ y z wide in_range p. split-Apart y z (omega (arith, p.0, split_end)) p.1;
          };
          alone = split-Apart b (b + 32 + n) (inl (omega arith)) (
              Apart-shrink hd b (end_of hd b) b (b + 32 + n) rest (omega arith)
                (omega (arith, room)) take.alone);
        }

  abbrev pub GrantedRun : Run → Type 0
  GrantedRun panicked = ⊥
  GrantedRun unfinished = ⊥
  GrantedRun (returned p t) = Granted live lost n p t

  below : end_of hd b < 2 ^ 64
  below = omega (arith, take.high, v.bounded)

  ptr : add64 b 32 ≡ b + 32
  ptr = add64_small b 32 (omega (arith, below))

  rem : sub64 ((hd b).size) n ≡ (hd b).size - n
  rem = sub64_small _ _ take.enough (omega (arith, below))

  handed :
      (u : Heap)
      → hand_out b (some u)
        ≡ returned (b + 32) (record u { headers = set_magic b allocated_magic u.headers })
  handed u = let even : (b + 32) % 16 ≡ 0 = omega (arith, take.free.aligned) in rw (ptr, even) refl

  abbrev without : Heap
  without = record s { kheap_free_list = rest }

  whole_block : (hd b).size < n + 48 → split_block b n without ≡ some without
  unfolding split_block
  whole_block small =
      let no : leb 48 ((hd b).size - n) ≡ false = gt→leb _ _ (omega (arith, small, take.enough)) in
      rw (rem, no) refl

  split_off :
      n + 48 ≤ (hd b).size
      → split_block b n without
        ≡ some (record s {
          headers =
              set_magic
                (b + 32 + n)
                kheap_magic
                (set_size b n (set_size (b + 32 + n) ((hd b).size - n - 32) hd));
          kheap_free_list = insert_block (b + 32 + n) rest;
        })
  unfolding split_block kheap_add_to_free_list
  split_off room =
      let large : leb 48 ((hd b).size - n) ≡ true = le→leb _ _ (omega (arith, room)) in
      let at : add64 (b + 32) n ≡ b + 32 + n = add64_small _ _ (omega (arith, below, room)) in
      let less : sub64 ((hd b).size - n) 32 ≡ (hd b).size - n - 32 =
        sub64_small _ _ (omega (arith, room)) (omega (arith, below)) in
      let ok : (b + 32 + n) % 16 ≡ 0 = omega (arith, take.free.aligned, whole) in
      rw (rem, large, ptr, at, less, ok) refl

  -- A block that was found is handed out without a panic.
  pub hand_out-GrantedRun : GrantedRun (hand_out b (split_block b n without))
  hand_out-GrantedRun = elim (Bool-cases (ltb ((hd b).size) (n + 48))) [
    | inl small ↦
        subst GrantedRun (sym (ap (hand_out b) (whole_block (ltb→lt _ _ small)) ∙ handed without)) (
          Carved-Granted s live lost n b rest v take whole ((hd b).size)
            (marked_headers s live lost n b rest v take whole) rest take.enough
            (marked-Carved s live lost n b rest v take whole))
    | inr large ↦
        let room = ltb→ge _ _ large in
        subst GrantedRun (sym (ap (hand_out b) (split_off room) ∙ handed _)) (
          Carved-Granted s live lost n b rest v take whole n (split_headers room)
            (insert_block (b + 32 + n) rest) (omega arith) (split-Carved room))
  ]
