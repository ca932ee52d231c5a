-- ===== src/Devfs.antt =====
-- fs/devfs.c: a file system with one file, which is a buffer in memory.
-- The copies to and from user memory, the kernel's allocations and its clock are parameters. `lock`
-- is held through the body of a read or a write, so each is one step; `none` is a fault.
pub mod Mount
pub mod Files
pub mod Writes
pub mod Echo
pub mod Root
mod Tests
use farou_kernel.Base.{
  ℕ, zero, suc, ◌+◌, ◌-◌, ◌*◌, ◌/◌, ◌%◌, ◌^◌, ◌≤◌, ◌<◌, ◌≡◌, Bool, true, false, not, ◌&&◌, ◌||◌,
  Option, none, some, List, [], ltb, leb, ◌==◌, if◌then◌else◌, replicate, min, length, get_elem?,
}
use farou_kernel.Base.Int.{ℤ, pos, negsuc, ltb_ℤ, pos_part, ◌+ℤ◌}
use farou_kernel.Base.Word.{sub64}
use farou_kernel.Bytes.{memcpy, slice, Copied}

-- `-EIO`, `-EFAULT`, `-ENOSPC`, `-ENOMEM` and `-EINVAL`.
abbrev pub eio : ℤ
eio = negsuc 4

abbrev pub efault : ℤ
efault = negsuc 13

abbrev pub enospc : ℤ
enospc = negsuc 27

abbrev pub enomem : ℤ
enomem = negsuc 11

abbrev pub einval : ℤ
einval = negsuc 21

-- `struct devfs_inode_info`, less its lock.
pub record InodeInfo : Type 0 where
  pub buffer : Option (List ℕ)
  pub buffer_size : ℕ

-- What `i_fop` points to.
pub data FileOperations : Type 0 where
  unset : FileOperations
  devfs_file : FileOperations
  simple_dir : FileOperations

-- The fields of `struct inode` that the code uses.
pub record Inode : Type 0 where
  pub i_mode : ℕ
  pub i_ino : ℕ
  pub i_nlink : ℕ
  pub i_size : ℕ
  pub i_mtime : ℕ
  pub i_fop : FileOperations
  pub i_private : Option InodeInfo

-- `copy_to_user` on the user's memory and the bytes, and `copy_from_user` on the user's memory and
-- the count: how many bytes were not copied, and what the destination holds then.
pub record UserAccess : Type 0 where
  pub copy_to_user : List ℕ → List ℕ → ℕ × List ℕ
  pub copy_from_user : List ℕ → ℕ → ℕ × List ℕ

-- What the kernel documents of them: an answer of 0 is a full copy.
pub record Documented (u : UserAccess) : Type 0 where
  pub to_user_done :
      (buf bytes : List ℕ)
      → (u.copy_to_user buf bytes).0 ≡ 0
      → Copied buf 0 bytes 0 (length bytes) (u.copy_to_user buf bytes).1
  pub from_user_length : (buf : List ℕ) (count : ℕ) → length (u.copy_from_user buf count).1 ≡ count
  pub from_user_done :
      (buf : List ℕ) (count i : ℕ)
      → (u.copy_from_user buf count).0 ≡ 0
      → i < count
      → get_elem? (u.copy_from_user buf count).1 i ≡ get_elem? buf i

-- What a call leaves: `retval`, the inode, the user's memory and `*ppos`.
pub record Io : Type 0 where
  pub retval : ℤ
  pub inode : Inode
  pub user : List ℕ
  pub ppos : ℤ

-- The conversion of a `loff_t` to `size_t`.
abbrev pub to_size : ℤ → ℕ
to_size (pos n) = n % 2 ^ 64
to_size (negsuc n) = 2 ^ 64 - 1 - n % 2 ^ 64

abbrev pub unchanged : ℤ → Inode → List ℕ → ℤ → Io
unchanged retval inode user ppos = record {
  retval = retval;
  inode = inode;
  user = user;
  ppos = ppos;
}

-- The bytes from `start` on that lie in a buffer, or a fault.
abbrev read_range : List ℕ → ℕ → ℕ → Option (List ℕ)
read_range buffer start count =
    if leb (start + count) (length buffer) then some (slice start count buffer) else none

-- `count` cut to what lies between `*ppos` and `limit`.
abbrev pub cut : ℕ → ℕ → ℤ → ℕ
cut count limit ppos =
    if ltb (sub64 limit (to_size ppos)) count then sub64 limit (to_size ppos) else count

-- A read behind the test for the end of the file, with the cut count.
unfoldable pub read_bytes : UserAccess → Inode → List ℕ → List ℕ → ℕ → ℤ → Option Io
read_bytes u inode buffer user count ppos = elim (read_range buffer (to_size ppos) count) [
  | none ↦ none
  | some bytes ↦ some (
      if not ((u.copy_to_user user bytes).0 == 0)
      then unchanged efault inode (u.copy_to_user user bytes).1 ppos
      else (record {
        retval = pos count;
        inode = inode;
        user = (u.copy_to_user user bytes).1;
        ppos = ppos +ℤ pos count;
      }))
]

-- The body of `devfs_read`, with the lock held.
unfoldable pub read_locked : UserAccess → Inode → List ℕ → List ℕ → ℕ → ℤ → Option Io
read_locked u inode buffer user count ppos =
    if leb inode.i_size (to_size ppos)
    then some (unchanged (pos 0) inode user ppos)
    else read_bytes u inode buffer user (cut count inode.i_size ppos) ppos

-- `f` on the buffer and its size, if there is one.
abbrev pub with_private :
    Option InodeInfo → (List ℕ → ℕ → Option Io) → Inode → List ℕ → ℤ → Option Io
with_private none f inode user ppos = some (unchanged eio inode user ppos)
with_private (some info) f inode user ppos = elim info.buffer [
  | none ↦ some (unchanged eio inode user ppos)
  | some buffer ↦ f buffer info.buffer_size
]

pub devfs_read : UserAccess → Inode → List ℕ → ℕ → ℤ → Option Io
devfs_read u inode user count ppos =
    with_private inode.i_private (λ buffer size. read_locked u inode buffer user count ppos) inode
      user ppos

abbrev pub with_bytes : Inode → List ℕ → ℕ → Inode
with_bytes inode buffer buffer_size = record inode {
  i_private = some (record { buffer = some buffer; buffer_size = buffer_size });
}

-- `i_size_write`, if the write went past the end, and the time stamp.
abbrev pub grown : ℕ → ℤ → Inode → Inode
grown now ppos inode = record inode {
  i_size = if ltb_ℤ (pos inode.i_size) ppos then pos_part ppos else inode.i_size;
  i_mtime = now;
}

-- A write behind the test for space, with the cut count.
unfoldable pub write_bytes : UserAccess → ℕ → Inode → ℕ → List ℕ → List ℕ → ℕ → ℤ → Option Io
write_bytes u now inode buffer_size buffer user count ppos =
    elim (memcpy buffer (to_size ppos) (u.copy_from_user user count).1 0 count) [
      | none ↦ none
      | some buffer' ↦ some (
          if not ((u.copy_from_user user count).0 == 0)
          then unchanged efault (with_bytes inode buffer' buffer_size) user ppos
          else (record {
            retval = pos count;
            inode = grown now (ppos +ℤ pos count) (with_bytes inode buffer' buffer_size);
            user = user;
            ppos = ppos +ℤ pos count;
          }))
    ]

-- The body of `devfs_write`, with the lock held. `now` is the current time.
unfoldable pub write_locked : UserAccess → ℕ → Inode → ℕ → List ℕ → List ℕ → ℕ → ℤ → Option Io
write_locked u now inode buffer_size buffer user count ppos =
    if leb buffer_size (to_size ppos)
    then some (unchanged enospc inode user ppos)
    else write_bytes u now inode buffer_size buffer user (cut count buffer_size ppos) ppos

pub devfs_write : UserAccess → ℕ → Inode → List ℕ → ℕ → ℤ → Option Io
devfs_write u now inode user count ppos =
    with_private inode.i_private
      (λ buffer size. write_locked u now inode size buffer user count ppos) inode user ppos
