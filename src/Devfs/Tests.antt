-- ===== src/Devfs/Tests.antt =====
-- Runs of the file of fs/devfs.c with plain copies, and the theorems at such inputs.
use farou_kernel.Base.{
  ℕ, zero, suc, ◌-◌, ◌<◌, ◌≡◌, leb, if◌then◌else◌, Bool-cases, inl, inr, leb→le, refl, true, false,
  some, List, [], ◌∷◌, arith, length, get_elem?, ap,
}
use farou_kernel.Base.Int.{pos, negsuc, ◌+ℤ◌}
use farou_kernel.Bytes.{memcpy, Copied, overwrite, overwrite-Copied}
use farou_kernel.Base.Word.{sub64}
use farou_kernel.Devfs.{
  write_locked, write_bytes, Inode, UserAccess, Documented, Io, devfs_file, devfs_read, devfs_write,
}
use farou_kernel.Devfs.Files.{Backed, Ends, Reads, devfs_read-Reads}
use farou_kernel.Devfs.Writes.{Writes, devfs_write-Writes}
use farou_kernel.Devfs.Echo.{
  Echoes, devfs_read-devfs_write, Call, reads, writes, run, Lives, run-Lives,
}
use farou_kernel.Devfs.Mount.{Grants, devfs_fill_super}
use farou_kernel.Devfs.Root.{Mounts, devfs_fill_super-Mounts}

-- Plain copies: to the user if there is room, and from the user with what is missing read as 0.
abbrev pad : List ℕ → ℕ → List ℕ
pad xs zero = []
pad [] (suc n) = 0 ∷ pad [] n
pad (x ∷ xs) (suc n) = x ∷ pad xs n

abbrev plain : UserAccess
plain = record {
  copy_to_user =
      λ buf bytes. if leb (length bytes) (length buf) then (0, overwrite buf 0 bytes) else (1, buf);
  copy_from_user = λ buf count. (count - length buf, pad buf count);
}

length-pad : (xs : List ℕ) (n : ℕ) → length (pad xs n) ≡ n
length-pad xs zero = refl
length-pad [] (suc n) = ap suc (length-pad [] n)
length-pad (x ∷ xs) (suc n) = ap suc (length-pad xs n)

get_elem?-pad :
    (xs : List ℕ) (n i : ℕ) → n - length xs ≡ 0 → i < n → get_elem? (pad xs n) i ≡ get_elem? xs i
get_elem?-pad xs zero i h k = absurd (omega arith)
get_elem?-pad [] (suc n) i h k = absurd (omega arith)
get_elem?-pad (x ∷ xs) (suc n) zero h k = refl
get_elem?-pad (x ∷ xs) (suc n) (suc i) h k = get_elem?-pad xs n i (omega arith) (omega arith)

to_user_plain :
    (buf bytes : List ℕ)
    → (plain.copy_to_user buf bytes).0 ≡ 0
    → Copied buf 0 bytes 0 (length bytes) (plain.copy_to_user buf bytes).1
to_user_plain buf bytes h = elim (Bool-cases (leb (length bytes) (length buf))) [
  | inl room ↦ rw room (overwrite-Copied buf 0 bytes (ground (arith, leb→le _ _ room)))
  | inr full ↦ absurd (ground arith)
]

plain-Documented : Documented plain
plain-Documented = record {
  to_user_done = to_user_plain;
  from_user_length = length-pad;
  from_user_done = λ buf count i h k. get_elem?-pad buf count i h k;
}

-- A file of two bytes in a buffer of four.
abbrev file : Inode
file = record {
  i_mode = 33206;
  i_ino = 2;
  i_nlink = 1;
  i_size = 2;
  i_mtime = 0;
  i_fop = devfs_file;
  i_private = some (record { buffer = some (5 ∷ 6 ∷ 0 ∷ 0 ∷ []); buffer_size = 4 });
}

file-Backed : Backed file (5 ∷ 6 ∷ 0 ∷ 0 ∷ []) 4
file-Backed = record {
  private_info = refl;
  whole = refl;
  fits = omega arith;
  addressable = omega arith;
}

abbrev data_bytes : List ℕ
data_bytes = 1 ∷ 2 ∷ 3 ∷ []

abbrev after_write : Io
after_write = record {
  retval = pos 3;
  inode = record file {
    i_size = 4;
    i_mtime = 9;
    i_private = some (record { buffer = some (5 ∷ 1 ∷ 2 ∷ 3 ∷ []); buffer_size = 4 });
  };
  user = data_bytes;
  ppos = pos 4;
}

write_grows : devfs_write plain 9 file data_bytes 3 (pos 1) ≡ some after_write
unfolding devfs_write memcpy ◌+ℤ◌ write_locked write_bytes sub64
write_grows = refl

devfs_read-Reads_example :
    Ends
      (Reads plain file (5 ∷ 6 ∷ 0 ∷ 0 ∷ []) data_bytes 3 (pos 1))
      (devfs_read plain file data_bytes 3 (pos 1))
devfs_read-Reads_example =
    devfs_read-Reads plain plain-Documented file (5 ∷ 6 ∷ 0 ∷ 0 ∷ []) 4 file-Backed data_bytes 3
      (pos 1) (omega arith)

devfs_write-Writes_example :
    Ends
      (Writes plain 9 file (5 ∷ 6 ∷ 0 ∷ 0 ∷ []) 4 data_bytes 3 (pos 1))
      (devfs_write plain 9 file data_bytes 3 (pos 1))
devfs_write-Writes_example =
    devfs_write-Writes plain plain-Documented 9 file (5 ∷ 6 ∷ 0 ∷ 0 ∷ []) 4 file-Backed data_bytes 3
      (pos 1) (omega arith)

devfs_read-devfs_write_example :
    Ends
      (Echoes data_bytes 3 after_write)
      (devfs_read plain after_write.inode (0 ∷ 0 ∷ 0 ∷ []) 3 (pos 1))
devfs_read-devfs_write_example =
    devfs_read-devfs_write plain 9 file (5 ∷ 6 ∷ 0 ∷ 0 ∷ []) 4 data_bytes (0 ∷ 0 ∷ 0 ∷ []) 3 (pos 1)
      after_write 3 plain-Documented file-Backed (omega arith) write_grows refl

abbrev calls : List Call
calls = writes 9 data_bytes 3 (pos 1) ∷ reads data_bytes 3 (negsuc 0) ∷ []

run-Lives_example : Lives 4 (run plain calls file)
run-Lives_example =
    run-Lives plain calls file 4 plain-Documented (5 ∷ 6 ∷ 0 ∷ 0 ∷ [], file-Backed)
      (omega arith, (omega arith, tt))

abbrev no_inode : Grants
no_inode = record {
  root_inode = true;
  root_dentry = true;
  file_inode = false;
  info = true;
  buffer = true;
  file_dentry = true;
}

devfs_fill_super-Mounts_example : Mounts 4096 no_inode (devfs_fill_super 4096 0 no_inode)
devfs_fill_super-Mounts_example = devfs_fill_super-Mounts 4096 0 no_inode (omega arith)
