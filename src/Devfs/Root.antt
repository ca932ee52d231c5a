-- ===== src/Devfs/Root.antt =====
-- What `devfs_fill_super` of fs/devfs.c leaves for every answer of the kernel.
use farou_kernel.Base.{
  ℕ, ◌^◌, ◌<◌, ◌≡◌, refl, Bool, true, false, Option, none, some, ◌⊎◌, inl, inr, arith,
  length-replicate, replicate,
}
use farou_kernel.Base.Int.{pos}
use farou_kernel.Devfs.{Inode, enomem}
use farou_kernel.Devfs.Writes.{IsFile}
use farou_kernel.Devfs.Mount.{Grants, Mounted, devfs_fill_super}

-- A mount: the kernel gave everything, and the new file is empty and lies in a buffer of a page; a
-- refusal with nothing left allocated; or a fault, where `new_inode` gave NULL or
-- `d_make_root` failed.
pub data Mounts (page_size : ℕ) (g : Grants) : Option Mounted → Type 0 where
  mounted :
      (root file : Inode)
      → (g.root_inode ≡ true) × (g.root_dentry ≡ true) × (g.file_inode ≡ true)
      → (g.info ≡ true) × (g.buffer ≡ true) × (g.file_dentry ≡ true)
      → IsFile file page_size
      → file.i_size ≡ 0
      → Mounts page_size g
          (some (record { err = pos 0; root = some root; file = some file; held = 2 }))
  refused :
      (root : Option Inode)
      → (g.root_inode ≡ true) × (g.root_dentry ≡ true) × (g.file_inode ≡ true)
      → (g.info ≡ false) ⊎ (g.buffer ≡ false) ⊎ (g.file_dentry ≡ false)
      → Mounts page_size g (some (record { err = enomem; root = root; file = none; held = 0 }))
  crashed :
      (g.root_inode ≡ false) ⊎ (g.root_dentry ≡ false) ⊎ (g.file_inode ≡ false)
      → Mounts page_size g none

abbrev grants : Bool → Bool → Bool → Bool → Bool → Bool → Grants
grants a b c d e f = record {
  root_inode = a;
  root_dentry = b;
  file_inode = c;
  info = d;
  buffer = e;
  file_dentry = f;
}

split-Mounts :
    (page_size now : ℕ) (a b c d e f : Bool)
    → page_size < 2 ^ 63
    → Mounts page_size (grants a b c d e f) (devfs_fill_super page_size now (grants a b c d e f))
unfolding devfs_fill_super
split-Mounts page_size now false b c d e f small = crashed (inl refl)
split-Mounts page_size now true false c d e f small = crashed (inr (inl refl))
split-Mounts page_size now true true false d e f small = crashed (inr (inr refl))
split-Mounts page_size now true true true false e f small = refused _ (refl, refl, refl) (inl refl)
split-Mounts page_size now true true true true false f small =
    refused _ (refl, refl, refl) (inr (inl refl))
split-Mounts page_size now true true true true true false small =
    refused _ (refl, refl, refl) (inr (inr refl))
split-Mounts page_size now true true true true true true small =
    mounted _ _ (refl, refl, refl) (refl, refl, refl)
      (
        replicate page_size 0,
        record {
          private_info = refl;
          whole = length-replicate page_size 0;
          fits = omega arith;
          addressable = small;
        },
      )
      refl

-- The mount of a file system of pages below 2^63 bytes either has everything and leaves an empty file
-- in a buffer of a page, or is refused with -ENOMEM and nothing left allocated for the file, or it
-- faults: NULL is dereferenced where `new_inode` fails, and the root's inode is put twice where
-- `d_make_root` fails.
pub devfs_fill_super-Mounts :
    (page_size now : ℕ) (g : Grants)
    → page_size < 2 ^ 63
    → Mounts page_size g (devfs_fill_super page_size now g)
devfs_fill_super-Mounts page_size now g small =
    split-Mounts page_size now g.root_inode g.root_dentry g.file_inode g.info g.buffer g.file_dentry
      small
