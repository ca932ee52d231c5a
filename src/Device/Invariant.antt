-- ===== src/Device/Invariant.antt =====
-- Every operation of kernel/mydevice.c keeps a device well formed, and no transfer runs outside a
-- buffer.
use farou_kernel.Base.{
  ℕ, ◌+◌, ◌-◌, ◌^◌, ◌≤◌, ◌<◌, ◌≡◌, refl, ◌∙◌, sym, ap, true, false, Option, none, some, List, ltb,
  leb, min, arith, length, Bool-cases, inl, inr, lt→ltb,
}
use farou_kernel.Base.Int.{ℤ, pos, negsuc, pos_part}
use farou_kernel.Bytes.{Copied, memcpy, memcpy-Copied}
use farou_kernel.Device.{
  MyDevice, Transfer, is_outside, read_at, write_at, read_locked, write_locked,
}

pub record Valid (d : MyDevice) : Type 0 where
  pub whole : length d.buffer ≡ d.buffer_size
  pub nonempty : 0 < d.buffer_size
  pub count_word : d.open_count < 2 ^ 32

-- How many bytes a transfer of at most `count` moves at `off`: none outside the buffer, and else
-- what is left of the buffer.
abbrev pub moved : MyDevice → ℕ → ℤ → ℕ
moved d count (pos start) = min count (d.buffer_size - start)
moved d count (negsuc n) = 0

abbrev pub advance : ℤ → ℕ → ℤ
advance (pos start) n = pos (start + n)
advance (negsuc m) n = negsuc m

abbrev pub Succeeds : (Transfer → Type 0) → Option Transfer → Type 0
Succeeds P none = ⊥
Succeeds P (some t) = P t

-- A read answers the number of bytes it moved, advances the offset by it, leaves the device alone and
-- puts the bytes at the front of the caller's buffer.
pub record Reads (d : MyDevice) (buf : List ℕ) (count : ℕ) (off : ℤ) (t : Transfer) : Type 0 where
  pub answer : t.ret ≡ pos (moved d count off)
  pub offset : t.off ≡ advance off (moved d count off)
  pub device : t.dev ≡ d
  pub bytes : Copied buf 0 d.buffer (pos_part off) (moved d count off) t.buf

-- A write answers the number of bytes it moved, advances the offset by it, leaves the caller's buffer
-- alone and changes the bytes of the device from the offset on, and nothing else.
pub record Writes (d : MyDevice) (buf : List ℕ) (count : ℕ) (off : ℤ) (t : Transfer) : Type 0 where
  pub answer : t.ret ≡ pos (moved d count off)
  pub offset : t.off ≡ advance off (moved d count off)
  pub source : t.buf ≡ buf
  pub same_size : t.dev.buffer_size ≡ d.buffer_size
  pub same_count : t.dev.open_count ≡ d.open_count
  pub bytes : Copied d.buffer (pos_part off) buf 0 (moved d count off) t.dev.buffer

Copied-none : (dst src : List ℕ) (to start : ℕ) → Copied dst to src start 0 dst
Copied-none dst src to start = record {
  same_length = refl;
  inside = λ i h. absurd (omega arith);
  outside = λ j h. refl;
}

module _ (d : MyDevice) (buf : List ℕ) (count start : ℕ) (v : Valid d)
    (room : count ≤ length buf) where
  read_copy :
      (res : List ℕ) × (memcpy buf 0 d.buffer start (min count (d.buffer_size - start)) ≡ some res)
        × Copied buf 0 d.buffer start (min count (d.buffer_size - start)) res
      → 0 < min count (d.buffer_size - start)
      → Succeeds (Reads d buf count (pos start)) (read_at d buf count start)
  unfolding read_at
  read_copy (res, e, copied) some_bytes =
      let nonzero : ltb 0 (min count (d.buffer_size - start)) ≡ true = lt→ltb _ _ some_bytes in
      rw (nonzero, e) (record { answer = refl; offset = refl; device = refl; bytes = copied })

  read_at-Reads :
      start < d.buffer_size → Succeeds (Reads d buf count (pos start)) (read_at d buf count start)
  unfolding read_at
  read_at-Reads inside = elim (Bool-cases (ltb 0 (min count (d.buffer_size - start)))) [
    | inl some_bytes ↦
        read_copy (memcpy-Copied buf 0 d.buffer start _ (omega arith) (omega (arith, v.whole)))
          (ground arith)
    | inr idle ↦
        let nothing : min count (d.buffer_size - start) ≡ 0 = ground arith in
        rw idle (record {
          answer = rw nothing refl;
          offset = rw nothing (ap pos (omega arith));
          device = refl;
          bytes = rw nothing (Copied-none buf d.buffer 0 start);
        })
  ]

  write_copy :
      (res : List ℕ) × (memcpy d.buffer start buf 0 (min count (d.buffer_size - start)) ≡ some res)
        × Copied d.buffer start buf 0 (min count (d.buffer_size - start)) res
      → 0 < min count (d.buffer_size - start)
      → Succeeds (Writes d buf count (pos start)) (write_at d buf count start)
  unfolding write_at
  write_copy (res, e, copied) some_bytes =
      let nonzero : ltb 0 (min count (d.buffer_size - start)) ≡ true = lt→ltb _ _ some_bytes in
      rw (nonzero, e)
        (record {
          answer = refl;
          offset = refl;
          source = refl;
          same_size = refl;
          same_count = refl;
          bytes = copied;
        })

  write_at-Writes :
      start < d.buffer_size → Succeeds (Writes d buf count (pos start)) (write_at d buf count start)
  unfolding write_at
  write_at-Writes inside = elim (Bool-cases (ltb 0 (min count (d.buffer_size - start)))) [
    | inl some_bytes ↦
        write_copy (memcpy-Copied d.buffer start buf 0 _ (omega (arith, v.whole)) (omega arith))
          (ground arith)
    | inr idle ↦
        let nothing : min count (d.buffer_size - start) ≡ 0 = ground arith in
        rw idle (record {
          answer = rw nothing refl;
          offset = rw nothing (ap pos (omega arith));
          source = refl;
          same_size = refl;
          same_count = refl;
          bytes = rw nothing (Copied-none d.buffer buf start 0);
        })
  ]

moved_outside :
    (d : MyDevice) (count : ℕ) (off : ℤ) → is_outside d off ≡ true → moved d count off ≡ 0
moved_outside d count (pos start) h = ground arith
moved_outside d count (negsuc n) h = refl

advance_none : (off : ℤ) → advance off 0 ≡ off
advance_none (pos start) = ap pos (omega arith)
advance_none (negsuc n) = refl

module _ (d : MyDevice) (buf : List ℕ) (count : ℕ) (v : Valid d) (room : count ≤ length buf) where
  read_outside :
      (off : ℤ)
      → is_outside d off ≡ true
      → Succeeds (Reads d buf count off) (read_locked d buf count off)
  unfolding read_locked
  read_outside off out =
      let nothing = moved_outside d count off out in
      rw out (record {
        answer = rw nothing refl;
        offset = rw nothing (sym (advance_none off));
        device = refl;
        bytes = rw nothing (Copied-none buf d.buffer 0 (pos_part off));
      })

  -- A read into a buffer of at least `count` bytes never faults, at whatever offset: it moves
  -- what is left of the device from the offset on, `count` bytes at most, and nothing outside.
  pub read_locked-Reads : (off : ℤ) → Succeeds (Reads d buf count off) (read_locked d buf count off)
  unfolding read_locked
  read_locked-Reads (negsuc n) = read_outside (negsuc n) (ground arith)
  read_locked-Reads (pos start) = elim (Bool-cases (leb d.buffer_size start)) [
    | inl out ↦ read_outside (pos start) (ground arith)
    | inr inside ↦
        let within : is_outside d (pos start) ≡ false = ground arith in
        rw within (read_at-Reads d buf count start v room (ground arith))
  ]

  write_outside :
      (off : ℤ)
      → is_outside d off ≡ true
      → Succeeds (Writes d buf count off) (write_locked d buf count off)
  unfolding write_locked
  write_outside off out =
      let nothing = moved_outside d count off out in
      rw out (record {
        answer = rw nothing refl;
        offset = rw nothing (sym (advance_none off));
        source = refl;
        same_size = refl;
        same_count = refl;
        bytes = rw nothing (Copied-none d.buffer buf (pos_part off) 0);
      })

  -- A write from a buffer of at least `count` bytes never faults, at whatever offset: it changes the
  -- bytes of the device from the offset on, as many as the buffer has room for and `count` at most,
  -- and nothing outside.
  pub write_locked-Writes :
      (off : ℤ) → Succeeds (Writes d buf count off) (write_locked d buf count off)
  unfolding write_locked
  write_locked-Writes (negsuc n) = write_outside (negsuc n) (ground arith)
  write_locked-Writes (pos start) = elim (Bool-cases (leb d.buffer_size start)) [
    | inl out ↦ write_outside (pos start) (ground arith)
    | inr inside ↦
        let within : is_outside d (pos start) ≡ false = ground arith in
        rw within (write_at-Writes d buf count start v room (ground arith))
  ]

pub Writes-Valid :
    {d : MyDevice} {buf : List ℕ} {count : ℕ} {off : ℤ} {t : Transfer}
    → Valid d
    → Writes d buf count off t
    → Valid t.dev
Writes-Valid v w = record {
  whole = w.bytes.same_length ∙ (v.whole ∙ sym w.same_size);
  nonempty = omega (arith, w.same_size, v.nonempty);
  count_word = omega (arith, w.same_count, v.count_word);
}
