-- ===== src/Device.antt =====
-- kernel/mydevice.c and mydevice.h: a device that is a buffer of bytes.
-- A pointer argument is an option, `none` being NULL. `lock` is held through the body of each
-- operation, so an operation is one step.
pub mod Ioctl
pub mod Invariant
pub mod Transfers
pub mod Control
pub mod Reach
mod Tests
use farou_kernel.Base.{
  ℕ, zero, suc, ◌+◌, ◌-◌, ◌*◌, ◌/◌, ◌%◌, ◌^◌, Bool, true, false, not, ◌&&◌, ◌||◌, Option, none,
  some, List, [], ltb, leb, ◌==◌, if◌then◌else◌, replicate, min,
}
use farou_kernel.Base.Int.{ℤ, pos, negsuc, ltb_ℤ, pos_part, ◌-ℤ◌}
use farou_kernel.Bytes.{memcpy}

abbrev pub default_page_size : ℕ
default_page_size = 4096

abbrev pub max_buffer_size_multiplier : ℕ
max_buffer_size_multiplier = 10

-- `-EINVAL`, `-ENOMEM` and `-ENOTTY` of errno.h.
abbrev pub einval : ℤ
einval = negsuc 21

abbrev pub enomem : ℤ
enomem = negsuc 11

abbrev pub enotty : ℤ
enotty = negsuc 24

-- `struct my_device`, less its lock. `open_count` is the 32-bit pattern of the counter.
pub record MyDevice : Type 0 where
  pub buffer : List ℕ
  pub buffer_size : ℕ
  pub open_count : ℕ

-- What `my_device_init` leaves: its answer, `*dev`, and how many of its allocations are not freed.
pub record Initialized : Type 0 where
  pub ret : ℤ
  pub dev : Option MyDevice
  pub held : ℕ

-- The clean-up labels of `my_device_init`, entered with `held` allocations.
abbrev error_out : ℤ → ℕ → Initialized
error_out ret held = record { ret = ret; dev = none; held = held }

abbrev error_free_dev : ℤ → ℕ → Initialized
error_free_dev ret held = error_out ret (held - 1)

abbrev error_free_buffer : ℤ → ℕ → Initialized
error_free_buffer ret held = error_free_dev ret (held - 1)

pub page_size_to_use : ℤ → ℕ
page_size_to_use page_size_val =
    if ltb_ℤ (pos 0) page_size_val then pos_part page_size_val else default_page_size

abbrev new_device : ℕ → MyDevice
new_device size = record { buffer = replicate size 0; buffer_size = size; open_count = 0 }

-- The answers of the two calls of `malloc`, of `sysconf` and of `pthread_mutex_init` are given.
pub my_device_init : Bool → ℤ → Bool → ℕ → Initialized
my_device_init dev_given page_size_val buffer_given mutex =
    if not dev_given
    then error_out enomem 0
    else (if not buffer_given
        then error_free_dev enomem 1
        else (if not (mutex == 0) then error_free_buffer (pos 0 -ℤ pos mutex) 2 else (record {
          ret = pos 0;
          dev = some (new_device (page_size_to_use page_size_val));
          held = 2;
        })))

-- How many allocations are left of `held`.
pub my_device_cleanup : Option MyDevice → ℕ → ℕ
my_device_cleanup none held = held
my_device_cleanup (some dev) held = held - 1 - 1

pub my_open : Option MyDevice → ℤ × Option MyDevice
my_open none = (einval, none)
my_open (some dev) = (pos 0, some (record dev { open_count = (dev.open_count + 1) % 2 ^ 32 }))

pub my_release : Option MyDevice → ℤ × Option MyDevice
my_release none = (einval, none)
my_release (some dev) =
    (pos 0, some (record dev { open_count = (dev.open_count + 2 ^ 32 - 1) % 2 ^ 32 }))

-- What a transfer leaves: its answer, the device, the caller's buffer and `*off`.
pub record Transfer : Type 0 where
  pub ret : ℤ
  pub dev : MyDevice
  pub buf : List ℕ
  pub off : ℤ

-- An answer that moves nothing.
abbrev pub unmoved : ℤ → MyDevice → List ℕ → ℤ → Transfer
unmoved ret dev buf off = record { ret = ret; dev = dev; buf = buf; off = off }

-- The offset lies outside the buffer.
abbrev pub is_outside : MyDevice → ℤ → Bool
is_outside dev off = ltb_ℤ off (pos 0) || leb dev.buffer_size (pos_part off)

-- The body of `my_read` behind the check of the offset, `start` being the offset.
read_at : MyDevice → List ℕ → ℕ → ℕ → Option Transfer
read_at dev buf count start =
    let available = dev.buffer_size - start in
    let read_count = min count available in
    if ltb 0 read_count
    then (elim (memcpy buf 0 dev.buffer start read_count) [
      | none ↦ none
      | some buf' ↦
          some
            (record { ret = pos read_count; dev = dev; buf = buf'; off = pos (start + read_count) })
    ])
    else some (unmoved (pos 0) dev buf (pos start))

-- `my_read` and `my_write` with pointers that are not NULL; `none` is a fault.
pub read_locked : MyDevice → List ℕ → ℕ → ℤ → Option Transfer
unfolding read_at
read_locked dev buf count off =
    if is_outside dev off
    then some (unmoved (pos 0) dev buf off)
    else read_at dev buf count (pos_part off)

write_at : MyDevice → List ℕ → ℕ → ℕ → Option Transfer
write_at dev buf count start =
    let available = dev.buffer_size - start in
    let write_count = min count available in
    if ltb 0 write_count
    then (elim (memcpy dev.buffer start buf 0 write_count) [
      | none ↦ none
      | some buffer' ↦ some (record {
        ret = pos write_count;
        dev = record dev { buffer = buffer' };
        buf = buf;
        off = pos (start + write_count);
      })
    ])
    else some (unmoved (pos 0) dev buf (pos start))

pub write_locked : MyDevice → List ℕ → ℕ → ℤ → Option Transfer
unfolding write_at
write_locked dev buf count off =
    if is_outside dev off
    then some (unmoved (pos 0) dev buf off)
    else write_at dev buf count (pos_part off)

-- What a transfer may find NULL.
pub record Pointers : Type 0 where
  pub dev : Option MyDevice
  pub buf : Option (List ℕ)
  pub off : Option ℤ

abbrev after : Transfer → ℤ × Pointers
after t = (t.ret, record { dev = some t.dev; buf = some t.buf; off = some t.off })

abbrev checked : (MyDevice → List ℕ → ℤ → Option Transfer) → Pointers → Option (ℤ × Pointers)
checked f p = elim p.dev [
  | none ↦ some (einval, p)
  | some dev ↦ elim p.buf [
    | none ↦ some (einval, p)
    | some buf ↦ elim p.off [
      | none ↦ some (einval, p)
      | some off ↦ elim (f dev buf off) [ none ↦ none | some t ↦ some (after t) ]
    ]
  ]
]

pub my_read : Pointers → ℕ → Option (ℤ × Pointers)
my_read p count = checked (λ dev buf off. read_locked dev buf count off) p

pub my_write : Pointers → ℕ → Option (ℤ × Pointers)
my_write p count = checked (λ dev buf off. write_locked dev buf count off) p
