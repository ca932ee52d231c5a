-- ===== src/Device/Tests.antt =====
-- Runs of the device of kernel/mydevice.c, and the theorems at such inputs.
use farou_kernel.Base.{ℕ, ◌≡◌, refl, true, none, some, List, [], ◌∷◌, ◌++◌, arith}
use farou_kernel.Base.Int.{pos, negsuc}
use farou_kernel.Bytes.{memcpy}
use farou_kernel.Device.{
  MyDevice, my_device_init, my_open, my_release, my_read, read_locked, write_locked, einval,
}
use farou_kernel.Device.Ioctl.{my_ioctl, set_buffer_size}
use farou_kernel.Device.Invariant.{Valid, Succeeds}
use farou_kernel.Device.Transfers.{Then, Echoes, Joins, read-write, read-read}
use farou_kernel.Device.Control.{Controls, my_ioctl-Controls, my_open-my_release}
use farou_kernel.Device.Reach.{
  Call, opened, released, reads, writes, controls, Lives, init_and_run, init_and_run-Lives,
}

-- A device of four bytes.
abbrev small : MyDevice
small = record { buffer = 9 ∷ 8 ∷ 7 ∷ 6 ∷ []; buffer_size = 4; open_count = 0 }

small-Valid : Valid small
small-Valid = record { whole = refl; nonempty = omega arith; count_word = omega arith }

abbrev data_bytes : List ℕ
data_bytes = 1 ∷ 2 ∷ 3 ∷ []

-- A write at offset 2 is cut to the two bytes that are left.
write_cut :
    write_locked small data_bytes 3 (pos 2)
    ≡ some (record {
      ret = pos 2;
      dev = record { buffer = 9 ∷ 8 ∷ 1 ∷ 2 ∷ []; buffer_size = 4; open_count = 0 };
      buf = data_bytes;
      off = pos 4;
    })
unfolding write_locked memcpy
write_cut = refl

null_buffer :
    my_read (record { dev = some small; buf = none; off = some (pos 0) }) 3
    ≡ some (einval, record { dev = some small; buf = none; off = some (pos 0) })
unfolding my_read
null_buffer = refl

abbrev calls : List Call
calls =
    opened
    ∷ controls (pos 4096) true 2 (some 4)
    ∷ writes (some data_bytes) 3 (some (pos 2))
    ∷ reads (some data_bytes) 3 (some (negsuc 0))
    ∷ released
    ∷ []

init_and_run-Lives_example : Lives (init_and_run true (pos 4096) true 0 calls)
unfolding my_device_init
init_and_run-Lives_example =
    init_and_run-Lives true (pos 4096) true 0 calls refl
      (tt, (tt, (omega arith, (omega arith, (tt, tt)))))

read-write_example :
    Then
      (write_locked small data_bytes 3 (pos 2))
      (λ t. read_locked t.dev (0 ∷ 0 ∷ 0 ∷ []) 3 (pos 2))
      (Echoes data_bytes 2)
read-write_example =
    read-write small data_bytes (0 ∷ 0 ∷ 0 ∷ []) 3 (pos 2) small-Valid (omega arith) (omega arith)

read-read_example :
    Then
      (read_locked small data_bytes 3 (pos 0))
      (λ t. read_locked t.dev data_bytes 2 t.off)
      (λ t u. Succeeds (Joins t u) (read_locked small (data_bytes ++ data_bytes) 5 (pos 0)))
read-read_example =
    read-read small data_bytes data_bytes (data_bytes ++ data_bytes) 3 2 (pos 0) small-Valid
      (omega arith) (omega arith) (omega arith)

my_ioctl-Controls_example :
    Controls
      (pos 4096)
      true
      set_buffer_size
      small
      (some 100)
      (my_ioctl (pos 4096) true set_buffer_size (some small) (some 100))
my_ioctl-Controls_example = my_ioctl-Controls (pos 4096) true set_buffer_size small (some 100)

my_open-my_release_example :
    ((my_open (my_release (some small)).1).1 ≡ some small)
    × ((my_release (my_open (some small)).1).1 ≡ some small)
my_open-my_release_example = my_open-my_release small small-Valid
