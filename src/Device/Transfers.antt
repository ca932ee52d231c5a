-- ===== src/Device/Transfers.antt =====
-- `my_read` after `my_write` of kernel/mydevice.c, and reads in pieces.
use farou_kernel.Base.{
  ℕ, ◌+◌, ◌≤◌, ◌<◌, ◌≡◌, refl, ◌∙◌, sym, ap, Option, none, some, List, arith, length, get_elem?,
  subst,
}
use farou_kernel.Base.Int.{ℤ, pos, negsuc, pos_part}
use farou_kernel.Device.{MyDevice, Transfer, read_locked, write_locked}
use farou_kernel.Device.Invariant.{
  Valid, moved, advance, Succeeds, Reads, Writes, read_locked-Reads, write_locked-Writes,
  Writes-Valid,
}

zero_add : (i : ℕ) → 0 + i ≡ i
zero_add i = omega arith

-- Two outcomes in a row: `f` goes on from the outcome of the first.
abbrev pub Then :
    Option Transfer → (Transfer → Option Transfer) → (Transfer → Transfer → Type 0) → Type 0
Then r f P = Succeeds (λ t. Succeeds (P t) (f t)) r

Then_intro :
    {P : Transfer → Type 0} (Q : Transfer → Transfer → Type 0) (r : Option Transfer)
    (f : Transfer → Option Transfer)
    → Succeeds P r
    → ((t : Transfer) → P t → Succeeds (Q t) (f t))
    → Then r f Q
Then_intro Q none f p g = elim p [ ]
Then_intro Q (some t) f p g = g t p

pub Succeeds-map :
    {P Q : Transfer → Type 0} (r : Option Transfer)
    → Succeeds P r
    → ((t : Transfer) → P t → Q t)
    → Succeeds Q r
Succeeds-map none p g = elim p [ ]
Succeeds-map (some t) p g = g t p

-- The second transfer moved as many bytes as the first, and its buffer starts with the bytes of `buf`.
abbrev pub Echoes : List ℕ → ℕ → Transfer → Transfer → Type 0
Echoes buf n t u =
    (u.ret ≡ t.ret) × (u.off ≡ t.off) × ((i : ℕ) → i < n → get_elem? u.buf i ≡ get_elem? buf i)

Reads-Echoes :
    {d : MyDevice} {buf dst : List ℕ} {count : ℕ} {off : ℤ} {t u : Transfer}
    → Writes d buf count off t
    → Reads t.dev dst count off u
    → Echoes buf (moved d count off) t u
Reads-Echoes {d} {buf} {dst} {count} {off} {t} {u} w r =
    let same : moved t.dev count off ≡ moved d count off = same_moved off in
    (
      r.answer ∙ (ap pos same ∙ sym w.answer),
      r.offset ∙ (ap (advance off) same ∙ sym w.offset),
      λ i h.
          subst (λ k. get_elem? u.buf k ≡ get_elem? buf k) (zero_add i)
            (r.bytes.inside i (omega (arith, same)) ∙ w.bytes.inside i h),
    )
  where
    same_moved : (o : ℤ) → moved t.dev count o ≡ moved d count o
    same_moved (pos start) = rw w.same_size refl
    same_moved (negsuc n) = refl

-- What is written at an offset is read back there: the read moves as many bytes as the write, and
-- they are the first bytes of the written buffer.
pub read-write :
    (d : MyDevice) (buf dst : List ℕ) (count : ℕ) (off : ℤ)
    → Valid d
    → count ≤ length buf
    → count ≤ length dst
    → Then
        (write_locked d buf count off)
        (λ t. read_locked t.dev dst count off)
        (Echoes buf (moved d count off))
read-write d buf dst count off v room room' =
    Then_intro (Echoes buf (moved d count off)) _ (λ t. read_locked t.dev dst count off)
      (write_locked-Writes d buf count v room off)
      (λ t w.
        Succeeds-map (read_locked t.dev dst count off)
          (read_locked-Reads t.dev dst count (Writes-Valid v w) room' off)
          (λ u r. Reads-Echoes w r))

-- The reads `t` and `u` moved `a` and `b` bytes, and `w` moved the same bytes at once, to the same end.
abbrev pub Joins : Transfer → Transfer → Transfer → Type 0
Joins t u w =
    (a : ℕ) × (b : ℕ) × (t.ret ≡ pos a)
    × (u.ret ≡ pos b)
    × (w.ret ≡ pos (a + b))
    × (u.off ≡ w.off)
    × ((i : ℕ) → i < a → get_elem? t.buf i ≡ get_elem? w.buf i)
    × ((i : ℕ) → i < b → get_elem? u.buf i ≡ get_elem? w.buf (a + i))

moved_add :
    (d : MyDevice) (m n : ℕ) (off : ℤ)
    → moved d (m + n) off ≡ moved d m off + moved d n (advance off (moved d m off))
moved_add d m n (pos start) = ground arith
moved_add d m n (negsuc k) = refl

advance_add : (off : ℤ) (a b : ℕ) → advance (advance off a) b ≡ advance off (a + b)
advance_add (pos start) a b = ap pos (omega arith)
advance_add (negsuc k) a b = refl

pos_part-advance :
    (d : MyDevice) (off : ℤ) (m n i : ℕ)
    → i < moved d n (advance off (moved d m off))
    → pos_part (advance off (moved d m off)) + i ≡ pos_part off + (moved d m off + i)
pos_part-advance d (pos start) m n i h = omega arith
pos_part-advance d (negsuc k) m n i h = absurd (omega arith)

-- A byte that a read moved, in the caller's buffer.
Reads-byte :
    {d : MyDevice} {buf : List ℕ} {count : ℕ} {off : ℤ} {t : Transfer}
    → Reads d buf count off t
    → (i : ℕ) → i < moved d count off
    → get_elem? t.buf i ≡ get_elem? d.buffer (pos_part off + i)
Reads-byte {d} {buf} {count} {off} {t} r i h =
    subst (λ k. get_elem? t.buf k ≡ get_elem? d.buffer (pos_part off + i)) (zero_add i)
      (r.bytes.inside i h)

Reads-Joins :
    {d : MyDevice} {buf dst one : List ℕ} {m n : ℕ} {off : ℤ} {t u w : Transfer}
    → Reads d buf m off t
    → Reads d dst n (advance off (moved d m off)) u
    → Reads d one (m + n) off w
    → Joins t u w
Reads-Joins {d} {buf} {dst} {one} {m} {n} {off} {t} {u} {w} r s whole =
    let sum = moved_add d m n off in
    (
      moved d m off,
      moved d n (advance off (moved d m off)),
      r.answer,
      s.answer,
      whole.answer ∙ ap pos sum,
      s.offset
          ∙ (advance_add off (moved d m off) _ ∙ (ap (advance off) (sym sum) ∙ sym whole.offset)),
      λ i h. Reads-byte r i h ∙ sym (Reads-byte whole i (omega (arith, sum, h))),
      λ i h.
          Reads-byte s i h
          ∙ (ap (get_elem? d.buffer) (pos_part-advance d off m n i h)
              ∙ sym (Reads-byte whole (moved d m off + i) (omega (arith, sum, h)))),
    )

-- Reading `m` bytes and then `n` bytes from where the first read stopped moves the same bytes, and ends
-- at the same offset, as reading `m + n` bytes at once.
pub read-read :
    (d : MyDevice) (buf dst one : List ℕ) (m n : ℕ) (off : ℤ)
    → Valid d
    → m ≤ length buf
    → n ≤ length dst
    → m + n ≤ length one
    → Then
        (read_locked d buf m off)
        (λ t. read_locked t.dev dst n t.off)
        (λ t u. Succeeds (Joins t u) (read_locked d one (m + n) off))
read-read d buf dst one m n off v room room' room'' =
    Then_intro (λ t u. Succeeds (Joins t u) (read_locked d one (m + n) off)) _
      (λ t. read_locked t.dev dst n t.off) (read_locked-Reads d buf m v room off)
      (λ t (r : Reads d buf m off t).
        rw (r.device, r.offset)
          (Succeeds-map (read_locked d dst n (advance off (moved d m off)))
            (read_locked-Reads d dst n v room' (advance off (moved d m off)))
            (λ u s.
              Succeeds-map (read_locked d one (m + n) off)
                (read_locked-Reads d one (m + n) v room'' off) (λ w whole. Reads-Joins r s whole))))
