-- ===== src/Devfs/Files.antt =====
-- What a read and a write of the file of fs/devfs.c do on every branch.
use farou_kernel.Base.{
  ℕ, ◌+◌, ◌-◌, ◌%◌, ◌^◌, ◌≤◌, ◌<◌, ◌≡◌, ◌≢◌, ◌∙◌, sym, ap, subst, true, false, Option, none, some,
  List, leb, ◌==◌, min, arith, length, Bool-cases, inl, inr, get_elem?, le→leb, ==_iff,
}
use farou_kernel.Base.Int.{ℤ, pos, negsuc, pos_part, ◌+ℤ◌}
use farou_kernel.Base.Word.{sub64}
use farou_kernel.Bytes.{Copied, slice, length-slice, get_elem?-slice}
use farou_kernel.Devfs.{
  Inode, UserAccess, Documented, Io, to_size, unchanged, cut, efault, devfs_read, read_bytes,
  read_locked, with_private,
}

-- An inode with its buffer, of fewer than 2^63 bytes, which holds the file.
pub record Backed (i : Inode) (buffer : List ℕ) (size : ℕ) : Type 0 where
  pub private_info : i.i_private ≡ some (record { buffer = some buffer; buffer_size = size })
  pub whole : length buffer ≡ size
  pub fits : i.i_size ≤ size
  pub addressable : size < 2 ^ 63

-- A `loff_t`.
abbrev pub IsLoff : ℤ → Type 0
IsLoff (pos n) = n < 2 ^ 63
IsLoff (negsuc n) = n < 2 ^ 63

abbrev pub Ends : (Io → Type 0) → Option Io → Type 0
Ends P none = ⊥
Ends P (some t) = P t

-- The offset is no position below `limit`.
abbrev pub IsBeyond : ℕ → ℤ → Type 0
IsBeyond limit ppos = (p : ℕ) → ppos ≡ pos p → limit ≤ p

-- A read: at the end of the file; into user memory that faults; or of the bytes from `*ppos` on, up to
-- the end of the file and `count` at most.
pub data Reads (u : UserAccess) (i : Inode) (buffer user : List ℕ) (count : ℕ)
    : ℤ → Io → Type 0 where
  ended :
      (ppos : ℤ)
      → IsBeyond i.i_size ppos
      → Reads u i buffer user count ppos (unchanged (pos 0) i user ppos)
  faulted :
      (p : ℕ) (user' : List ℕ)
      → p < i.i_size
      → (u.copy_to_user user (slice p (min count (i.i_size - p)) buffer)).0 ≢ 0
      → Reads u i buffer user count (pos p) (unchanged efault i user' (pos p))
  moved :
      (p : ℕ) (user' : List ℕ)
      → p < i.i_size
      → (u.copy_to_user user (slice p (min count (i.i_size - p)) buffer)).0 ≡ 0
      → Copied user 0 buffer p (min count (i.i_size - p)) user'
      → Reads u i buffer user count (pos p) (record {
        retval = pos (min count (i.i_size - p));
        inode = i;
        user = user';
        ppos = pos (p + min count (i.i_size - p));
      })

pub pos_add : (p n : ℕ) → pos p +ℤ pos n ≡ pos (p + n)
unfolding ◌+ℤ◌
pos_add p n = ground arith

pub zero_add : (i : ℕ) → 0 + i ≡ i
zero_add i = omega arith

pub cut_lem :
    (count limit p : ℕ)
    → p < limit
    → limit < 2 ^ 63
    → cut count limit (pos p) ≡ min count (limit - p)
unfolding sub64
cut_lem count limit p h small = ground arith

module _ (u : UserAccess) (doc : Documented u) (i : Inode) (buffer : List ℕ) (size : ℕ)
    (b : Backed i buffer size) where
  read_bytes-Reads :
      (user : List ℕ) (count p : ℕ)
      → p < i.i_size
      → Ends
          (Reads u i buffer user count (pos p))
          (read_bytes u i buffer user (min count (i.i_size - p)) (pos p))
  unfolding read_bytes
  read_bytes-Reads user count p inside =
      let n = min count (i.i_size - p) in
      let bytes = slice p n buffer in
      let start : p % 2 ^ 64 ≡ p = omega (arith, b.fits, b.addressable) in
      let within : p + n ≤ length buffer = omega (arith, b.whole, b.fits) in
      let ok : leb (p + n) (length buffer) ≡ true = le→leb _ _ within in
      let len : length bytes ≡ n = length-slice p n buffer within in
      elim (Bool-cases ((u.copy_to_user user bytes).0 == 0)) [
        | inl done ↦
            let copied = doc.to_user_done user bytes ((==_iff _ _).0 done) in
            rw (start, Ends, read_bytes)
              (rw (ok, Ends)
                (rw (done, pos_add p n)
                  (moved p _ inside ((==_iff _ _).0 done) (record {
                    same_length = copied.same_length;
                    inside = λ j h.
                        copied.inside j (omega (arith, len))
                        ∙ (ap (get_elem? bytes) (zero_add j) ∙ get_elem?-slice p n buffer j h);
                    outside = λ j h. copied.outside j (omega (arith, len));
                  }))))
        | inr short ↦
            rw (start, Ends, read_bytes)
              (rw (ok, Ends) (rw short (faulted p _ inside (λ q. ground (arith, q, short)))))
      ]

  read_locked-Reads :
      (user : List ℕ) (count : ℕ) (ppos : ℤ)
      → IsLoff ppos
      → Ends (Reads u i buffer user count ppos) (read_locked u i buffer user count ppos)
  unfolding read_locked
  read_locked-Reads user count (negsuc m) loff =
      let past : leb i.i_size (to_size (negsuc m)) ≡ true =
        le→leb _ _ (omega (arith, b.fits, b.addressable)) in
      rw past (ended (negsuc m) (λ p e. cc e))
  read_locked-Reads user count (pos p) loff = elim (Bool-cases (leb i.i_size p)) [
    | inl past ↦
        let past' : leb i.i_size (to_size (pos p)) ≡ true = ground arith in
        rw past' (ended (pos p) (λ q e. ground (arith, ap pos_part e)))
    | inr inside ↦
        let inside' : leb i.i_size (to_size (pos p)) ≡ false = ground arith in
        let short =
          cut_lem count i.i_size p (ground arith) (omega (arith, b.fits, b.addressable)) in
        rw (inside', short) (read_bytes-Reads user count p (ground arith))
  ]

  -- On a well-formed file, with user copies as documented, `devfs_read` never faults in the kernel at
  -- any offset. It answers 0 where no byte of the file is left, -EFAULT without a change of the file or
  -- the offset where the copy is cut short, and else copies the bytes of the file from the offset on,
  -- as many as are left and `count` at most, and advances the offset by them.
  pub devfs_read-Reads :
      (user : List ℕ) (count : ℕ) (ppos : ℤ)
      → IsLoff ppos
      → Ends (Reads u i buffer user count ppos) (devfs_read u i user count ppos)
  unfolding devfs_read
  devfs_read-Reads user count ppos loff =
      subst
        (λ o.
          Ends (Reads u i buffer user count ppos)
            (with_private o (λ b s. read_locked u i b user count ppos) i user ppos))
        (sym b.private_info) (read_locked-Reads user count ppos loff)
