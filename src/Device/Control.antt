-- ===== src/Device/Control.antt =====
-- The control operations of kernel/mydevice.c: initialisation, the open count and `my_ioctl`.
use farou_kernel.Base.{
  ℕ, zero, suc, ◌+◌, ◌-◌, ◌%◌, ◌^◌, ◌≤◌, ◌<◌, ◌≡◌, ◌≢◌, refl, ap, Bool, true, false, Option, none,
  some, ltb, ◌==◌, replicate, arith, length-replicate, Bool-cases, inl, inr, ◌⊎◌, ==_iff,
}
use farou_kernel.Base.Int.{ℤ, pos, negsuc, ◌-ℤ◌}
use farou_kernel.Device.{
  MyDevice, Initialized, my_device_init, my_open, my_release, page_size_to_use,
}
use farou_kernel.Device.Ioctl.{
  my_ioctl, Reply, refusal, max_size, with_buffer, resize, set_size, tell, get_buffer_size,
  set_buffer_size, clear_buffer, get_open_count,
}
use farou_kernel.Device.Invariant.{Valid}

-- A successful initialisation gives a well-formed device and holds its two allocations; a failed one
-- gives NULL and holds none.
pub data Initializes : Initialized → Type 0 where
  ready : (d : MyDevice) → Valid d → Initializes (record { ret = pos 0; dev = some d; held = 2 })
  failed : (n : ℕ) → Initializes (record { ret = negsuc n; dev = none; held = 0 })

page_size_pos : (p : ℤ) → 0 < page_size_to_use p
unfolding page_size_to_use
page_size_pos (pos n) = ground arith
page_size_pos (negsuc n) = ground arith

new_device-Valid :
    (n : ℕ) → 0 < n → Valid (record { buffer = replicate n 0; buffer_size = n; open_count = 0 })
new_device-Valid n p = record {
  whole = length-replicate n 0;
  nonempty = p;
  count_word = omega arith;
}

-- Whatever `malloc`, `sysconf` and `pthread_mutex_init` answer, `my_device_init` gives a well-formed
-- device with its two allocations, or fails with a negative answer, NULL, and nothing left allocated.
pub my_device_init-Initializes :
    (dev_given : Bool) (page_size_val : ℤ) (buffer_given : Bool) (mutex : ℕ)
    → Initializes (my_device_init dev_given page_size_val buffer_given mutex)
unfolding my_device_init ◌-ℤ◌
my_device_init-Initializes false p b m = failed 11
my_device_init-Initializes true p false m = failed 11
my_device_init-Initializes true p true zero = ready _ (new_device-Valid _ (page_size_pos p))
my_device_init-Initializes true p true (suc m) =
    let nonzero : (suc m == 0) ≡ false = ground arith in
    let negative : pos 0 -ℤ pos (suc m) ≡ negsuc m = ground arith in
    rw nonzero (rw negative (failed m))

-- Why `my_ioctl` refuses: no pointer where one is needed, a size out of range, no memory for another
-- size, or a command that it does not know.
pub data Refuses (p : ℤ) (given : Bool) (cmd : ℕ) (d : MyDevice) (arg : Option ℕ) : ℕ → Type 0 where
  no_word :
      (cmd ≡ get_buffer_size) ⊎ (cmd ≡ set_buffer_size) ⊎ (cmd ≡ get_open_count)
      → arg ≡ none
      → Refuses p given cmd d arg 21
  bad_size :
      (size : ℕ)
      → cmd ≡ set_buffer_size
      → arg ≡ some size
      → (size ≡ 0) ⊎ (max_size p < size)
      → Refuses p given cmd d arg 21
  no_memory :
      (size : ℕ)
      → cmd ≡ set_buffer_size
      → arg ≡ some size
      → 0 < size
      → size ≤ max_size p
      → size ≢ d.buffer_size
      → given ≡ false
      → Refuses p given cmd d arg 11
  unknown :
      cmd ≢ get_buffer_size
      → cmd ≢ set_buffer_size
      → cmd ≢ clear_buffer
      → cmd ≢ get_open_count
      → Refuses p given cmd d arg 24

-- What `my_ioctl` answers on a device: it refuses and changes nothing, it writes a word of the
-- device to `arg`, or it gives the device a zeroed buffer of `size` bytes.
pub data Controls (p : ℤ) (given : Bool) (cmd : ℕ) (d : MyDevice) (arg : Option ℕ)
    : Reply → Type 0 where
  refuses :
      (n : ℕ) → Refuses p given cmd d arg n → Controls p given cmd d arg (refusal (negsuc n) d arg)
  tells :
      (old value : ℕ)
      → arg ≡ some old
      → ((cmd ≡ get_buffer_size) × (value ≡ d.buffer_size))
        ⊎ ((cmd ≡ get_open_count) × (value ≡ d.open_count))
      → Controls p given cmd d arg (refusal (pos 0) d (some value))
  keeps :
      cmd ≡ set_buffer_size
      → arg ≡ some d.buffer_size
      → 0 < d.buffer_size
      → d.buffer_size ≤ max_size p
      → Controls p given cmd d arg (refusal (pos 0) d arg)
  resizes :
      (size : ℕ)
      → cmd ≡ set_buffer_size
      → arg ≡ some size
      → size ≢ d.buffer_size
      → given ≡ true
      → 0 < size
      → size ≤ max_size p
      → Controls p given cmd d arg (refusal (pos 0) (with_buffer size d) arg)
  clears :
      cmd ≡ clear_buffer
      → Controls p given cmd d arg (refusal (pos 0) (with_buffer d.buffer_size d) arg)

tell-Controls :
    (p : ℤ) (given : Bool) (cmd value : ℕ) (d : MyDevice) (arg : Option ℕ)
    → ((cmd ≡ get_buffer_size) × (value ≡ d.buffer_size))
      ⊎ ((cmd ≡ get_open_count) × (value ≡ d.open_count))
    → Controls p given cmd d arg (tell value d arg)
tell-Controls p given cmd value d none (inl w) = refuses 21 (no_word (inl w.0) refl)
tell-Controls p given cmd value d none (inr w) = refuses 21 (no_word (inr (inr w.0)) refl)
tell-Controls p given cmd value d (some old) w = tells old value refl w

resize-Controls :
    (p : ℤ) (given : Bool) (d : MyDevice) (size : ℕ)
    → 0 < size
    → size ≤ max_size p
    → Controls p given set_buffer_size d (some size) (resize size given d)
resize-Controls p false d size nonzero small = elim (Bool-cases (size == d.buffer_size)) [
  | inl same ↦
      let e : size ≡ d.buffer_size = (==_iff size d.buffer_size).0 same in
      rw same (keeps refl (ap some e) (omega (arith, e, nonzero)) (omega (arith, e, small)))
  | inr other ↦
      rw other
        (refuses 11 (no_memory size refl refl nonzero small (λ q. ground (arith, q, other)) refl))
]
resize-Controls p true d size nonzero small = elim (Bool-cases (size == d.buffer_size)) [
  | inl same ↦
      let e : size ≡ d.buffer_size = (==_iff size d.buffer_size).0 same in
      rw same (keeps refl (ap some e) (omega (arith, e, nonzero)) (omega (arith, e, small)))
  | inr other ↦ rw other (resizes size refl refl (λ q. ground (arith, q, other)) refl nonzero small)
]

set_size-Controls :
    (p : ℤ) (given : Bool) (d : MyDevice) (arg : Option ℕ)
    → Controls p given set_buffer_size d arg (set_size p given d arg)
set_size-Controls p given d none = refuses 21 (no_word (inr (inl refl)) refl)
set_size-Controls p given d (some size) = elim (Bool-cases (size == 0)) [
  | inl z ↦ rw z (refuses 21 (bad_size size refl refl (inl ((==_iff size 0).0 z))))
  | inr nz ↦ elim (Bool-cases (ltb (max_size p) size)) [
    | inl large ↦
        rw (nz, large) (refuses 21 (bad_size size refl refl (inr (ground (arith, large)))))
    | inr small ↦ rw (nz, small) (resize-Controls p given d size (ground arith) (ground arith))
  ]
]

-- On every command, `my_ioctl` tells the size or the open count, keeps a buffer that has the size asked
-- for, clears the buffer, or gives the device zeroed memory of the size asked for, between one byte and
-- ten pages, where `malloc` gives it. It refuses without a change exactly where a pointer is missing, the
-- size is out of range, `malloc` fails for another size, or the command is unknown, each with its code.
pub my_ioctl-Controls :
    (p : ℤ) (given : Bool) (cmd : ℕ) (d : MyDevice) (arg : Option ℕ)
    → Controls p given cmd d arg (my_ioctl p given cmd (some d) arg)
unfolding my_ioctl
my_ioctl-Controls p given cmd d arg = elim (Bool-cases (cmd == 1)) [
  | inl c ↦ rw ((==_iff cmd 1).0 c) (tell-Controls p given 1 d.buffer_size d arg (inl (refl, refl)))
  | inr a1 ↦ elim (Bool-cases (cmd == 2)) [
    | inl c ↦ rw ((==_iff cmd 2).0 c) (set_size-Controls p given d arg)
    | inr a2 ↦ elim (Bool-cases (cmd == 3)) [
      | inl c ↦ rw ((==_iff cmd 3).0 c) (clears refl)
      | inr a3 ↦ elim (Bool-cases (cmd == 4)) [
        | inl c ↦
            rw ((==_iff cmd 4).0 c) (tell-Controls p given 4 d.open_count d arg (inr (refl, refl)))
        | inr a4 ↦
            rw (a1, a2, a3, a4)
              (refuses 24 (
                unknown (λ q. ground (arith, q, a1)) (λ q. ground (arith, q, a2))
                  (λ q. ground (arith, q, a3)) (λ q. ground (arith, q, a4))))
      ]
    ]
  ]
]

pub Controls-Valid :
    {p : ℤ} {given : Bool} {cmd : ℕ} {d : MyDevice} {arg : Option ℕ} {r : Reply}
    → Valid d
    → Controls p given cmd d arg r
    → (e : MyDevice) × (r.dev ≡ some e) × Valid e
Controls-Valid {d = d} v (refuses n why) = (d, refl, v)
Controls-Valid {d = d} v (tells old value e w) = (d, refl, v)
Controls-Valid {d = d} v (keeps e w nonzero small) = (d, refl, v)
Controls-Valid {d = d} v (resizes size e w other got nonzero small) = (
  with_buffer size d,
  refl,
  record { whole = length-replicate size 0; nonempty = nonzero; count_word = v.count_word },
)
Controls-Valid {d = d} v (clears e) = (
  with_buffer d.buffer_size d,
  refl,
  record {
    whole = length-replicate d.buffer_size 0;
    nonempty = v.nonempty;
    count_word = v.count_word;
  },
)

-- An open and a release, in either order, give the device back as it was: the 32-bit count wraps
-- both ways.
pub my_open-my_release :
    (d : MyDevice)
    → Valid d
    → ((my_open (my_release (some d)).1).1 ≡ some d)
      × ((my_release (my_open (some d)).1).1 ≡ some d)
unfolding my_open my_release
my_open-my_release d v =
    let down : ((d.open_count + 2 ^ 32 - 1) % 2 ^ 32 + 1) % 2 ^ 32 ≡ d.open_count =
      omega (arith, v.count_word) in
    let up : ((d.open_count + 1) % 2 ^ 32 + 2 ^ 32 - 1) % 2 ^ 32 ≡ d.open_count =
      omega (arith, v.count_word) in
    (
      ap (λ c. some (record d { open_count = c })) down,
      ap (λ c. some (record d { open_count = c })) up,
    )
