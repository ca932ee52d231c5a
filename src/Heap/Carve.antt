-- ===== src/Heap/Carve.antt =====
-- A block of the kernel heap of kernel/memory.c that is handed out, whole or in part.
use farou_kernel.Base.{
  ℕ, List, [], ◌∷◌, ◌+◌, ◌%◌, ◌≤◌, ◌≡◌, ◌≢◌, refl, sym, ap, subst, arith, ne→==, ==_refl,
}
use farou_kernel.Heap.Layout.{
  end_of, Chain, Apart, total, Avoids, Agree, write_header-Agree, Chain-Agree, Apart-Agree,
  total-Agree, Apart-Avoids,
}
use farou_kernel.Heap.{
  allocated_magic, Headers, Heap, set_magic, write_header, kernel_heap_start, kheap_max_break,
}
use farou_kernel.Heap.Fit.{KeepsApart, Live, Live_step, Live-Apart, Live-Agree, Takes}
use farou_kernel.Heap.Invariant.{IsHeap}

-- A block of at least `n` bytes: the pointer is 16-byte aligned, and the block is handed out beside the
-- others.
pub record Granted (live : List ℕ) (lost n p : ℕ) (t : Heap) : Type 0 where
  pub block : ℕ
  pub pointer : p ≡ block + 32
  pub aligned : p % 16 ≡ 0
  pub enough : n ≤ (t.headers block).size
  pub heap : IsHeap t (block ∷ live) lost

-- The headers and the free list once `b` is handed out with `k` bytes.
pub record Carved (hd : Headers) (hi b : ℕ) (rest : List ℕ) (k : ℕ) (hd' : Headers) (free' : List ℕ)
    : Type 0 where
  pub chain : Chain hd' kernel_heap_start free' hi
  pub header : hd' b ≡ record { size = k; magic = allocated_magic }
  pub whole : k % 16 ≡ 0
  pub inside : k ≤ (hd b).size
  pub same_total : total hd' free' + k ≡ total hd rest + (hd b).size
  pub keeps : KeepsApart hd hi (b ∷ rest) hd' free'
  pub alone : Apart hd' b (b + 32 + k) free'

pub Apart-shrink :
    (hd : Headers) (a z a' z' : ℕ) (bs : List ℕ)
    → a ≤ a'
    → z' ≤ z
    → Apart hd a z bs
    → Apart hd a' z' bs
Apart-shrink hd a z a' z' [] la lz p = p
Apart-shrink hd a z a' z' (b ∷ bs) la lz p =
    (omega (arith, p.0, la, lz), Apart-shrink hd a z a' z' bs la lz p.1)

pub Agree-but :
    (hd hd' : Headers) (x y : ℕ)
    → ((z : ℕ) → x ≢ z → y ≢ z → hd' z ≡ hd z)
    → (bs : List ℕ) → Avoids x bs
    → Avoids y bs
    → Agree hd hd' bs
Agree-but hd hd' x y other [] a b = omega arith
Agree-but hd hd' x y other (z ∷ bs) a b =
    (other z (λ e. a.0 (sym e)) (λ e. b.0 (sym e)), Agree-but hd hd' x y other bs a.1 b.1)

module _ (s : Heap) (live : List ℕ) (lost n b : ℕ) (rest : List ℕ) (v : IsHeap s live lost)
    (take : Takes s.headers kernel_heap_start s.kheap_free_list s.kheap_current_break n b rest)
    (whole : n % 16 ≡ 0) where
  abbrev hd : Headers
  hd = s.headers

  abbrev hi : ℕ
  hi = s.kheap_current_break

  top : hi ≤ kheap_max_break
  top = v.bounded

  beside : Live hd kernel_heap_start hi (b ∷ rest) live
  beside =
      Live_step hd kernel_heap_start hi s.kheap_free_list hd hi (b ∷ rest)
        (record { same = λ y z w i p. refl; apart = λ y z w i p. take.apart y z p }) (omega arith)
        live v.handed_out

  pub Carved-Granted :
      (k : ℕ) (hd' : Headers) (free' : List ℕ)
      → n ≤ k
      → Carved hd hi b rest k hd' free'
      → Granted live lost n (b + 32) (record s { headers = hd'; kheap_free_list = free' })
  Carved-Granted k hd' free' le c =
      let kept = Live-Agree hd kernel_heap_start hi (b ∷ rest) hd' hi free' c.keeps live beside in
      let size : (hd' b).size ≡ k = ap (λ h. h.size) c.header in
      let ends : end_of hd' b ≡ b + 32 + k = ap (λ a. b + 32 + a) size in
      record {
        block = b;
        pointer = refl;
        aligned = omega (arith, take.free.aligned);
        enough = omega (arith, size, le);
        heap = record {
          order = c.chain;
          handed_out = (
            record {
              aligned = take.free.aligned;
              whole = omega (arith, size, c.whole);
              marked = ap (λ h. h.magic) c.header;
            },
            take.low,
            omega (arith, ends, c.inside, take.high),
            subst (λ e. Apart hd' b e free') (sym ends) c.alone,
            subst (λ e. Apart hd' b e live) (sym ends)
                (Apart-Agree hd hd' b (b + 32 + k) live kept (
                  Apart-shrink hd b (end_of hd b) b (b + 32 + k) live (omega arith)
                    (omega (arith, c.inside))
                    (Live-Apart hd kernel_heap_start hi b rest live beside))),
            Live_step hd kernel_heap_start hi (b ∷ rest) hd' hi free' c.keeps (omega arith) live
                beside,
          );
          bounded = v.bounded;
          paged = v.paged;
          accounted = omega (
            arith,
            v.accounted,
            take.same_total,
            c.same_total,
            size,
            total-Agree hd hd' live kept,
          );
        };
      }

  -- The whole block is handed out.
  abbrev pub marked_headers : Headers
  marked_headers = set_magic b allocated_magic hd

  marked_header : marked_headers b ≡ record { size = (hd b).size; magic = allocated_magic }
  unfolding write_header
  marked_header = rw (==_refl b) refl

  marked_other : (y : ℕ) → b ≢ y → marked_headers y ≡ hd y
  unfolding write_header
  marked_other y ne = rw (ne→== y b (λ e. ne (sym e))) refl

  marked_kept : Agree hd marked_headers rest
  marked_kept =
      write_header-Agree hd b _ rest (Apart-Avoids hd b (end_of hd b) rest (omega arith) take.alone)

  pub marked-Carved : Carved hd hi b rest ((hd b).size) marked_headers rest
  marked-Carved = record {
    chain = Chain-Agree hd marked_headers kernel_heap_start rest hi marked_kept take.remains;
    header = marked_header;
    whole = take.free.whole;
    inside = omega arith;
    same_total = omega (arith, total-Agree hd marked_headers rest marked_kept);
    keeps = record {
      same = λ y z wide in_range p. marked_other y (λ e. omega (arith, e, p.0, wide));
      apart = λ y z wide in_range p. Apart-Agree hd marked_headers y z rest marked_kept p.1;
    };
    alone = Apart-Agree hd marked_headers b (end_of hd b) rest marked_kept take.alone;
  }
