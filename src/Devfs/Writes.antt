-- ===== src/Devfs/Writes.antt =====
-- What a write to the file of fs/devfs.c does on every branch, and a read after it.
use farou_kernel.Base.{
  ℕ, ◌+◌, ◌-◌, ◌%◌, ◌^◌, ◌≤◌, ◌<◌, ◌≡◌, ◌≢◌, refl, ◌∙◌, sym, ap, subst, true, false, some, List,
  leb, ◌==◌, min, arith, length, Bool-cases, inl, inr, ◌⊎◌, get_elem?, le→leb, ==_iff,
}
use farou_kernel.Base.Int.{ℤ, pos, negsuc, pos_part}
use farou_kernel.Bytes.{Copied, memcpy, memcpy-Copied}
use farou_kernel.Devfs.{
  Inode, UserAccess, Documented, Io, to_size, unchanged, with_bytes, efault, enospc, devfs_write,
  write_bytes, write_locked, with_private, grown,
}
use farou_kernel.Devfs.Files.{Backed, IsLoff, IsBeyond, Ends, pos_add, zero_add, cut_lem}

-- The bytes that a write of at most `count` bytes at `p` may change.
abbrev pub Untouched : List ℕ → ℕ → ℕ → List ℕ → Type 0
Untouched buffer p n buffer' =
    (length buffer' ≡ length buffer)
    × ((j : ℕ) → (j < p) ⊎ (p + n ≤ j) → get_elem? buffer' j ≡ get_elem? buffer j)

abbrev pub written : ℕ → Inode → ℕ → List ℕ → ℕ → Inode
written now i size buffer' end = grown now (pos end) (with_bytes i buffer' size)

-- A write: behind the end of the buffer; from user memory that faults; or of the user's bytes, up to
-- the end of the buffer and `count` at most.
pub data Writes (u : UserAccess) (now : ℕ) (i : Inode) (buffer : List ℕ) (size : ℕ) (user : List ℕ)
    (count : ℕ) : ℤ → Io → Type 0 where
  no_space :
      (ppos : ℤ)
      → IsBeyond size ppos
      → Writes u now i buffer size user count ppos (unchanged enospc i user ppos)
  broken :
      (p : ℕ) (buffer' : List ℕ)
      → p < size
      → (u.copy_from_user user (min count (size - p))).0 ≢ 0
      → Untouched buffer p (min count (size - p)) buffer'
      → Writes u now i buffer size user count
          (pos p)
          (unchanged efault (with_bytes i buffer' size) user (pos p))
  stored :
      (p : ℕ) (buffer' : List ℕ)
      → p < size
      → (u.copy_from_user user (min count (size - p))).0 ≡ 0
      → Copied buffer p user 0 (min count (size - p)) buffer'
      → Writes u now i buffer size user count (pos p) (record {
        retval = pos (min count (size - p));
        inode = written now i size buffer' (p + min count (size - p));
        user = user;
        ppos = pos (p + min count (size - p));
      })

module _ (u : UserAccess) (doc : Documented u) (now : ℕ) (i : Inode) (buffer : List ℕ) (size : ℕ)
    (b : Backed i buffer size) where
  stored_bytes :
      (user : List ℕ) (count p : ℕ)
      → p < size
      → (res : List ℕ) × (memcpy buffer p
            (u.copy_from_user user (min count (size - p))).1
            0
            (min count (size - p))
          ≡ some res)
        × Copied buffer p
            (u.copy_from_user user (min count (size - p))).1
            0
            (min count (size - p))
            res
      → Ends
          (Writes u now i buffer size user count (pos p))
          (write_bytes u now i size buffer user (min count (size - p)) (pos p))
  unfolding write_bytes
  stored_bytes user count p inside (res, e, copied) =
      let n = min count (size - p) in
      let start : p % 2 ^ 64 ≡ p = omega (arith, b.addressable) in
      elim (Bool-cases ((u.copy_from_user user n).0 == 0)) [
        | inl done ↦
            rw (start, Ends, write_bytes)
              (rw (e, Ends)
                (rw (done, pos_add p n)
                  (stored p res inside ((==_iff _ _).0 done) (record {
                    same_length = copied.same_length;
                    inside = λ j h.
                        copied.inside j h
                        ∙ (ap (get_elem? (u.copy_from_user user n).1) (zero_add j)
                            ∙ (doc.from_user_done user n j ((==_iff _ _).0 done) h
                                ∙ ap (get_elem? user) (sym (zero_add j))));
                    outside = copied.outside;
                  }))))
        | inr short ↦
            rw (start, Ends, write_bytes)
              (rw (e, Ends)
                (rw short (
                  broken p res inside (λ q. ground (arith, q, short))
                    (copied.same_length, copied.outside))))
      ]

  write_locked-Writes :
      (user : List ℕ) (count : ℕ) (ppos : ℤ)
      → IsLoff ppos
      → Ends
          (Writes u now i buffer size user count ppos)
          (write_locked u now i size buffer user count ppos)
  unfolding write_locked
  write_locked-Writes user count (negsuc m) loff =
      let past : leb size (to_size (negsuc m)) ≡ true = le→leb _ _ (omega (arith, b.addressable)) in
      rw past (no_space (negsuc m) (λ p e. cc e))
  write_locked-Writes user count (pos p) loff = elim (Bool-cases (leb size p)) [
    | inl past ↦
        let past' : leb size (to_size (pos p)) ≡ true = ground arith in
        rw past' (no_space (pos p) (λ q e. ground (arith, ap pos_part e)))
    | inr inside ↦
        let inside' : leb size (to_size (pos p)) ≡ false = ground arith in
        let short = cut_lem count size p (ground arith) b.addressable in
        rw (inside', short)
          (stored_bytes user count p (ground arith) (
            memcpy-Copied buffer p _ 0 _ (ground (arith, b.whole))
              (omega (arith, doc.from_user_length user (min count (size - p))))))
  ]

  -- On a well-formed file, with user copies as documented, `devfs_write` never faults in the kernel at
  -- any offset. It answers -ENOSPC and changes nothing behind the buffer; where the copy is cut short
  -- it answers -EFAULT, keeps the offset and the size of the file, and touches no byte outside the
  -- range; and else it stores the user's bytes in the range, up to the end of the buffer and `count` at
  -- most, advances the offset and lets the file grow to it.
  pub devfs_write-Writes :
      (user : List ℕ) (count : ℕ) (ppos : ℤ)
      → IsLoff ppos
      → Ends (Writes u now i buffer size user count ppos) (devfs_write u now i user count ppos)
  unfolding devfs_write
  devfs_write-Writes user count ppos loff =
      subst
        (λ o.
          Ends (Writes u now i buffer size user count ppos)
            (with_private o (λ b s. write_locked u now i s b user count ppos) i user ppos))
        (sym b.private_info) (write_locked-Writes user count ppos loff)

-- The file is well formed, with some buffer.
abbrev pub IsFile : Inode → ℕ → Type 0
IsFile i size = (buffer : List ℕ) × Backed i buffer size

pub Writes-IsFile :
    {u : UserAccess} {now : ℕ} {i : Inode} {buffer : List ℕ} {size : ℕ} {user : List ℕ} {count : ℕ}
    {ppos : ℤ} {t : Io}
    → Backed i buffer size
    → Writes u now i buffer size user count ppos t
    → IsFile t.inode size
Writes-IsFile {buffer = buffer} b (no_space ppos past) = (buffer, b)
Writes-IsFile b (broken p buffer' inside short (len, out)) = (
  buffer',
  record { private_info = refl; whole = len ∙ b.whole; fits = b.fits; addressable = b.addressable },
)
Writes-IsFile {i = i} {size = size} {count = count} b (stored p buffer' inside done copied) = (
  buffer',
  record {
    private_info = refl;
    whole = copied.same_length ∙ b.whole;
    fits = ground (arith, b.fits);
    addressable = b.addressable;
  },
)
