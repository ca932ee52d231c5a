-- ===== src/Devfs/Echo.antt =====
-- A read of fs/devfs.c after a write, and the file after any calls.
use farou_kernel.Base.{
  ℕ, ◌+◌, ◌-◌, ◌<◌, ◌≡◌, refl, ◌∙◌, sym, ap, subst, Option, none, some, List, [], ◌∷◌, min, arith,
  inl, inr, ◌⊎◌, get_elem?, Option-cases,
}
use farou_kernel.Base.Int.{ℤ, pos, pos_part}
use farou_kernel.Bytes.{Copied}
use farou_kernel.Devfs.{Inode, UserAccess, Documented, Io, efault, devfs_read, devfs_write}
use farou_kernel.Devfs.Files.{
  Backed, IsLoff, Ends, Reads, ended, faulted, moved, devfs_read-Reads, zero_add,
}
use farou_kernel.Devfs.Writes.{
  Writes, no_space, broken, stored, written, devfs_write-Writes, IsFile, Writes-IsFile,
}

-- The read `r` moved the `n` bytes of `user` that the write `t` stored, to the same end, unless the
-- copy to the reader failed.
abbrev pub Echoes : List ℕ → ℕ → Io → Io → Type 0
Echoes user n t r =
    (r.retval ≡ efault)
    ⊎ ((r.retval ≡ pos n)
        × (r.ppos ≡ t.ppos)
        × ((j : ℕ) → j < n → get_elem? r.user j ≡ get_elem? user j))

Ends-map : {P Q : Io → Type 0} (r : Option Io) → ((t : Io) → P t → Q t) → Ends P r → Ends Q r
Ends-map none g p = elim p [ ]
Ends-map (some t) g p = g t p

module _ (now : ℕ) (i : Inode) (buffer buffer' : List ℕ) (size : ℕ) (user dst : List ℕ)
    (count p : ℕ) (b : Backed i buffer size) (inside : p < size)
    (copied : Copied buffer p user 0 (min count (size - p)) buffer') where
  abbrev n : ℕ
  n = min count (size - p)

  abbrev after : Inode
  after = written now i size buffer' (p + n)

  same_count : p < after.i_size → min count (after.i_size - p) ≡ n
  same_count h = ground (arith, b.fits)

  Reads-Echoes :
      (u : UserAccess) (t r : Io)
      → t.ppos ≡ pos (p + n)
      → Reads u after buffer' dst count (pos p) r
      → Echoes user n t r
  Reads-Echoes u t r e (ended ppos past) =
      let nothing : n ≡ 0 = ground (arith, past p refl) in
      inr
        (ap pos (sym nothing), ap pos (omega (arith, nothing)) ∙ sym e, λ j h. absurd (omega arith))
  Reads-Echoes u t r e (faulted q user' h short) = inl refl
  Reads-Echoes u t r e (moved q user' h done c) =
      let same = same_count h in
      inr (
        ap pos same,
        ap (λ k. pos (p + k)) same ∙ sym e,
        λ j h.
            subst (λ k. get_elem? user' k ≡ get_elem? user k) (zero_add j)
              (c.inside j (omega (arith, same)) ∙ copied.inside j h),
      )

Writes-Echoes :
    {now : ℕ} {i : Inode} {buffer : List ℕ} {size : ℕ} {user : List ℕ} {count : ℕ} {ppos : ℤ}
    {t : Io} (u : UserAccess) (dst : List ℕ) (n : ℕ)
    → Documented u
    → Backed i buffer size
    → IsLoff ppos
    → t.retval ≡ pos n
    → Writes u now i buffer size user count ppos t
    → Ends (Echoes user n t) (devfs_read u t.inode dst count ppos)
Writes-Echoes u dst n doc b loff ok (no_space ppos past) = cc ok
Writes-Echoes u dst n doc b loff ok (broken p buffer' inside short rest) = cc ok
Writes-Echoes {now} {i} {buffer} {size} {user} {count} {ppos} {t} u dst n doc b loff ok
      (stored p buffer' inside done copied) =
    let m = min count (size - p) in
    let same : m ≡ n = omega (arith, ap pos_part ok) in
    let file : Backed (written now i size buffer' (p + m)) buffer' size = record {
      private_info = refl;
      whole = copied.same_length ∙ b.whole;
      fits = ground (arith, b.fits);
      addressable = b.addressable;
    } in
    subst
      (λ k.
        Ends (Echoes user k t)
          (devfs_read u (written now i size buffer' (p + m)) dst count (pos p)))
      same
      (Ends-map {P = Reads u (written now i size buffer' (p + m)) buffer' dst count (pos p)}
        {Q = Echoes user m t} (devfs_read u (written now i size buffer' (p + m)) dst count (pos p))
        (λ r w.
          Reads-Echoes now i buffer buffer' size user dst count p b inside copied u t r refl w)
        (devfs_read-Reads u doc _ buffer' size file dst count (pos p) loff))

-- What `devfs_write` stored is read back: a read of as many bytes at the same offset answers the same
-- number, ends at the same offset, and puts the written bytes at the front of the reader's memory,
-- unless the copy to the reader fails.
pub devfs_read-devfs_write :
    (u : UserAccess) (now : ℕ) (i : Inode) (buffer : List ℕ) (size : ℕ) (user dst : List ℕ)
    (count : ℕ) (ppos : ℤ) (t : Io) (n : ℕ)
    → Documented u
    → Backed i buffer size
    → IsLoff ppos
    → devfs_write u now i user count ppos ≡ some t
    → t.retval ≡ pos n
    → Ends (Echoes user n t) (devfs_read u t.inode dst count ppos)
devfs_read-devfs_write u now i buffer size user dst count ppos t n doc b loff e ok =
    Writes-Echoes u dst n doc b loff ok (
      subst (Ends (Writes u now i buffer size user count ppos)) e
        (devfs_write-Writes u doc now i buffer size b user count ppos loff))

-- A call on the file with its arguments.
pub data Call : Type 0 where
  reads : (user : List ℕ) (count : ℕ) (ppos : ℤ) → Call
  writes : (now : ℕ) (user : List ℕ) (count : ℕ) (ppos : ℤ) → Call

pub perform : UserAccess → Call → Inode → Option Io
perform u (reads user count ppos) i = devfs_read u i user count ppos
perform u (writes now user count ppos) i = devfs_write u now i user count ppos

-- The inode after the calls, or a fault.
pub run : UserAccess → List Call → Inode → Option Inode
run u [] i = some i
run u (c ∷ cs) i = elim (perform u c i) [ none ↦ none | some t ↦ run u cs t.inode ]

abbrev IsSound : Call → Type 0
IsSound (reads user count ppos) = IsLoff ppos
IsSound (writes now user count ppos) = IsLoff ppos

abbrev pub AllSound : List Call → Type 0
AllSound [] = Unit {0}
AllSound (c ∷ cs) = IsSound c × AllSound cs

abbrev pub Lives : ℕ → Option Inode → Type 0
Lives size none = ⊥
Lives size (some i) = IsFile i size

Reads-IsFile :
    {u : UserAccess} {i : Inode} {buffer user : List ℕ} {count size : ℕ} {ppos : ℤ} {t : Io}
    → Backed i buffer size
    → Reads u i buffer user count ppos t
    → IsFile t.inode size
Reads-IsFile {buffer = buffer} b (ended ppos past) = (buffer, b)
Reads-IsFile {buffer = buffer} b (faulted p user' h short) = (buffer, b)
Reads-IsFile {buffer = buffer} b (moved p user' h done c) = (buffer, b)

perform-IsFile :
    (u : UserAccess) (c : Call) (i : Inode) (size : ℕ)
    → Documented u
    → IsFile i size
    → IsSound c
    → Ends (λ t. IsFile t.inode size) (perform u c i)
unfolding perform
perform-IsFile u (reads user count ppos) i size doc (buffer, b) s =
    Ends-map {P = Reads u i buffer user count ppos} {Q = λ t. IsFile t.inode size}
      (devfs_read u i user count ppos) (λ t w. Reads-IsFile b w)
      (devfs_read-Reads u doc i buffer size b user count ppos s)
perform-IsFile u (writes now user count ppos) i size doc (buffer, b) s =
    Ends-map {P = Writes u now i buffer size user count ppos} {Q = λ t. IsFile t.inode size}
      (devfs_write u now i user count ppos) (λ t w. Writes-IsFile b w)
      (devfs_write-Writes u doc now i buffer size b user count ppos s)

-- No sequence of reads and writes at any offsets faults in the kernel, and the inode holds a file
-- within its buffer after it, given user copies as documented.
pub run-Lives :
    (u : UserAccess) (cs : List Call) (i : Inode) (size : ℕ)
    → Documented u
    → IsFile i size
    → AllSound cs
    → Lives size (run u cs i)
unfolding run
run-Lives u [] i size doc f s = f
run-Lives u (c ∷ cs) i size doc f s = elim (Option-cases (perform u c i)) [
  | inl e ↦ absurd (rw e at (perform-IsFile u c i size doc f s.0))
  | inr (t, e) ↦
      rw (e, Lives)
        (run-Lives u cs t.inode size doc (rw e at (perform-IsFile u c i size doc f s.0)) s.1)
]
