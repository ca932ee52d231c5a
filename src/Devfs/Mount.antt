-- ===== src/Devfs/Mount.antt =====
-- The inodes and the mount of fs/devfs.c.
use farou_kernel.Base.{
  ℕ, zero, suc, ◌+◌, ◌-◌, ◌*◌, ◌/◌, ◌%◌, ◌^◌, Bool, not, Option, none, some, ◌==◌, if◌then◌else◌,
  replicate,
}
use farou_kernel.Base.Int.{ℤ, pos}
use farou_kernel.Devfs.{Inode, InodeInfo, unset, devfs_file, simple_dir, enomem, einval}

-- `S_IFMT`, `S_IFDIR` and `S_IFREG`.
abbrev s_ifmt : ℕ → ℕ
s_ifmt mode = mode / 2 ^ 12 % 2 ^ 4 * 2 ^ 12

abbrev pub s_ifdir : ℕ
s_ifdir = 4 * 2 ^ 12

abbrev pub s_ifreg : ℕ
s_ifreg = 8 * 2 ^ 12

-- The pointer that `devfs_get_inode` returns: NULL, an error pointer or an inode.
pub data InodePtr : Type 0 where
  null : InodePtr
  err_ptr : ℤ → InodePtr
  inode_ptr : Inode → InodePtr

-- The inode that `new_inode` gives, with the fields set before the switch.
abbrev blank : ℕ → ℕ → Inode
blank mode now = record {
  i_mode = mode;
  i_ino = 0;
  i_nlink = 1;
  i_size = 0;
  i_mtime = now;
  i_fop = unset;
  i_private = none;
}

-- `given` is whether `new_inode` gives an inode.
pub devfs_get_inode : Bool → ℕ → ℕ → InodePtr
devfs_get_inode given mode now =
    if not given
    then null
    else (if s_ifmt mode == s_ifreg
        then inode_ptr (record (blank mode now) { i_fop = devfs_file })
        else (if s_ifmt mode == s_ifdir
            then inode_ptr (record (blank mode now) { i_fop = simple_dir; i_nlink = 1 + 1 })
            else err_ptr einval))

-- What a mount leaves: its answer, `s_root`, the file of the directory, and how many of its
-- allocations are held.
pub record Mounted : Type 0 where
  pub err : ℤ
  pub root : Option Inode
  pub file : Option Inode
  pub held : ℕ

abbrev pub failure : ℤ → Option Inode → Mounted
failure err root = record { err = err; root = root; file = none; held = 0 }

-- What the kernel gives, in the order of the calls.
pub record Grants : Type 0 where
  pub root_inode : Bool
  pub root_dentry : Bool
  pub file_inode : Bool
  pub info : Bool
  pub buffer : Bool
  pub file_dentry : Bool

abbrev info_of : ℕ → InodeInfo
info_of page_size = record { buffer = some (replicate page_size 0); buffer_size = page_size }

-- How many of `held` allocations are left: the private data is freed with its buffer.
pub devfs_evict_inode : Inode → ℕ → ℕ
devfs_evict_inode inode held = elim inode.i_private [ none ↦ held | some info ↦ held - 1 - 1 ]

-- The label `failed_iput_file`, entered with `held` allocations; `iput` evicts the inode.
failed_iput_file : Inode → Inode → ℕ → Mounted
unfolding devfs_evict_inode
failed_iput_file root file held = record {
  err = enomem;
  root = some root;
  file = none;
  held = devfs_evict_inode file held;
}

abbrev with_info : ℕ → Inode → Inode
with_info page_size file = record file { i_private = some (info_of page_size); i_size = 0 }

-- `iput`, by the references to an inode; without one it is a fault.
abbrev pub iput : ℕ → Option ℕ
iput zero = none
iput (suc references) = some references

-- The references to the root's inode behind `d_make_root`, which puts the inode where it fails.
abbrev pub root_references : Bool → ℕ
root_references given = if given then 1 else 0

-- The label `failed_iput_root`.
abbrev failed_iput_root : ℕ → Option Mounted
failed_iput_root references = elim (iput references) [
  | none ↦ none
  | some left ↦ some (failure enomem none)
]

-- The parts 3a and 4 of `devfs_fill_super`.
add_file : ℕ → Grants → Inode → Inode → Mounted
unfolding failed_iput_file
add_file page_size g root file =
    if not g.info
    then failed_iput_file root file 0
    else (if not g.buffer
        then failed_iput_file root file (1 - 1)
        else (if not g.file_dentry
            then failed_iput_file root (with_info page_size file) 2
            else (record {
              err = pos 0;
              root = some root;
              file = some (with_info page_size file);
              held = 2;
            })))

-- The part 3: the file's inode. The pointer is tested for an error alone, so NULL is dereferenced.
make_file : ℕ → ℕ → Grants → Inode → Option Mounted
unfolding devfs_get_inode
make_file page_size now g root = elim (devfs_get_inode g.file_inode (s_ifreg + 438) now) [
  | null ↦ none
  | err_ptr err ↦ some (failure err (some root))
  | inode_ptr file ↦ some (add_file page_size g root (record file { i_ino = 2 }))
]

unfoldable pub devfs_fill_super : ℕ → ℕ → Grants → Option Mounted
unfolding make_file add_file devfs_get_inode
devfs_fill_super page_size now g = elim (devfs_get_inode g.root_inode (s_ifdir + 493) now) [
  | null ↦ none
  | err_ptr err ↦ some (failure err none)
  | inode_ptr root ↦
      if not g.root_dentry
      then failed_iput_root (root_references g.root_dentry)
      else make_file page_size now g (record root { i_ino = 1 })
]
