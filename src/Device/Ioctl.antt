-- ===== src/Device/Ioctl.antt =====
-- `my_ioctl` of kernel/mydevice.c, and that it keeps a device well formed.
-- The memory behind `arg` is a word: a size, or the 32-bit pattern of a count.
use farou_kernel.Base.{
  ℕ, ◌*◌, ◌%◌, ◌^◌, Bool, not, Option, none, some, ltb, ◌==◌, if◌then◌else◌, replicate,
}
use farou_kernel.Base.Int.{ℤ, pos}
use farou_kernel.Device.{
  MyDevice, page_size_to_use, max_buffer_size_multiplier, einval, enomem, enotty,
}

abbrev pub get_buffer_size : ℕ
get_buffer_size = 1

abbrev pub set_buffer_size : ℕ
set_buffer_size = 2

abbrev pub clear_buffer : ℕ
clear_buffer = 3

abbrev pub get_open_count : ℕ
get_open_count = 4

-- The answer, the device and the word behind `arg`.
pub record Reply : Type 0 where
  pub ret : ℤ
  pub dev : Option MyDevice
  pub arg : Option ℕ

abbrev pub refusal : ℤ → MyDevice → Option ℕ → Reply
refusal ret dev arg = record { ret = ret; dev = some dev; arg = arg }

abbrev pub with_buffer : ℕ → MyDevice → MyDevice
with_buffer size dev = record dev { buffer = replicate size 0; buffer_size = size }

-- The part of `MY_IOCTL_SET_BUFFER_SIZE` that holds the lock; `given` is whether `malloc` succeeds.
abbrev pub resize : ℕ → Bool → MyDevice → Reply
resize new_size given dev =
    if new_size == dev.buffer_size
    then refusal (pos 0) dev (some new_size)
    else (if not given
        then refusal enomem dev (some new_size)
        else refusal (pos 0) (with_buffer new_size dev) (some new_size))

abbrev pub max_size : ℤ → ℕ
max_size page_size_val = max_buffer_size_multiplier * page_size_to_use page_size_val % 2 ^ 64

abbrev pub set_size : ℤ → Bool → MyDevice → Option ℕ → Reply
set_size page_size_val given dev none = refusal einval dev none
set_size page_size_val given dev (some new_size) =
    if new_size == 0
    then refusal einval dev (some new_size)
    else (if ltb (max_size page_size_val) new_size
        then refusal einval dev (some new_size)
        else resize new_size given dev)

-- A command that writes a word of the device to `arg`.
abbrev pub tell : ℕ → MyDevice → Option ℕ → Reply
tell value dev none = refusal einval dev none
tell value dev (some old) = refusal (pos 0) dev (some value)

abbrev cleared : MyDevice → MyDevice
cleared dev = record dev { buffer = replicate dev.buffer_size 0 }

unfoldable pub my_ioctl : ℤ → Bool → ℕ → Option MyDevice → Option ℕ → Reply
my_ioctl page_size_val given cmd none arg = record { ret = einval; dev = none; arg = arg }
my_ioctl page_size_val given cmd (some dev) arg =
    if cmd == get_buffer_size
    then tell dev.buffer_size dev arg
    else (if cmd == set_buffer_size
        then set_size page_size_val given dev arg
        else (if cmd == clear_buffer
            then refusal (pos 0) (cleared dev) arg
            else (if cmd == get_open_count
                then tell dev.open_count dev arg
                else refusal enotty dev arg)))
