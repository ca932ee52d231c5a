-- ===== src/Device/Reach.antt =====
-- Any sequence of calls on a device of kernel/mydevice.c.
use farou_kernel.Base.{
  ℕ, ◌≤◌, ◌≡◌, refl, Bool, Option, none, some, List, [], ◌∷◌, arith, length, Option-cases, inl, inr,
}
use farou_kernel.Base.Int.{ℤ, pos}
use farou_kernel.Device.{
  MyDevice, Transfer, Pointers, Initialized, my_device_init, my_open, my_release, my_read, my_write,
  read_locked, write_locked,
}
use farou_kernel.Device.Ioctl.{my_ioctl}
use farou_kernel.Device.Invariant.{
  Valid, Succeeds, Reads, Writes, read_locked-Reads, write_locked-Writes, Writes-Valid,
}
use farou_kernel.Device.Control.{
  my_device_init-Initializes, Initializes, ready, failed, my_ioctl-Controls, Controls-Valid,
}

-- A call with its arguments; `page_size_val` and `given` are what `sysconf` and `malloc` answer.
pub data Call : Type 0 where
  opened : Call
  released : Call
  reads : (buf : Option (List ℕ)) (count : ℕ) (off : Option ℤ) → Call
  writes : (buf : Option (List ℕ)) (count : ℕ) (off : Option ℤ) → Call
  controls : (page_size_val : ℤ) (given : Bool) (cmd : ℕ) (arg : Option ℕ) → Call

abbrev pointers : MyDevice → Option (List ℕ) → Option ℤ → Pointers
pointers d buf off = record { dev = some d; buf = buf; off = off }

abbrev device_of : Option (ℤ × Pointers) → Option MyDevice
device_of none = none
device_of (some (ret, p)) = p.dev

-- The device after a call, or a fault.
pub perform : Call → MyDevice → Option MyDevice
perform opened d = (my_open (some d)).1
perform released d = (my_release (some d)).1
perform (reads buf count off) d = device_of (my_read (pointers d buf off) count)
perform (writes buf count off) d = device_of (my_write (pointers d buf off) count)
perform (controls p given cmd arg) d = (my_ioctl p given cmd (some d) arg).dev

pub run : List Call → MyDevice → Option MyDevice
run [] d = some d
run (c ∷ cs) d = elim (perform c d) [ none ↦ none | some e ↦ run cs e ]

-- The caller's buffer has room for `count` bytes.
abbrev pub Holds : Option (List ℕ) → ℕ → Type 0
Holds none count = Unit {0}
Holds (some buf) count = count ≤ length buf

abbrev pub IsSound : Call → Type 0
IsSound (reads buf count off) = Holds buf count
IsSound (writes buf count off) = Holds buf count
IsSound _ = Unit {0}

abbrev pub AllSound : List Call → Type 0
AllSound [] = Unit {0}
AllSound (c ∷ cs) = IsSound c × AllSound cs

-- There is a device, and it is well formed.
abbrev pub Lives : Option MyDevice → Type 0
Lives none = ⊥
Lives (some d) = Valid d

read-Lives :
    (d : MyDevice) (buf : List ℕ) (count : ℕ) (off : ℤ) (r : Option Transfer)
    → Valid d
    → read_locked d buf count off ≡ r
    → Succeeds (Reads d buf count off) r
    → Lives (device_of (my_read (pointers d (some buf) (some off)) count))
unfolding my_read
read-Lives d buf count off none v e p = elim p [ ]
read-Lives d buf count off (some t) v e p = rw (e, Lives) (rw p.device v)

write-Lives :
    (d : MyDevice) (buf : List ℕ) (count : ℕ) (off : ℤ) (r : Option Transfer)
    → Valid d
    → write_locked d buf count off ≡ r
    → Succeeds (Writes d buf count off) r
    → Lives (device_of (my_write (pointers d (some buf) (some off)) count))
unfolding my_write
write-Lives d buf count off none v e p = elim p [ ]
write-Lives d buf count off (some t) v e p = rw (e, Lives) (Writes-Valid v p)

perform-Lives : (c : Call) (d : MyDevice) → Valid d → IsSound c → Lives (perform c d)
unfolding perform my_open my_release my_read my_write
perform-Lives opened d v s = record {
  whole = v.whole;
  nonempty = v.nonempty;
  count_word = omega arith;
}
perform-Lives released d v s = record {
  whole = v.whole;
  nonempty = v.nonempty;
  count_word = omega arith;
}
perform-Lives (reads none count off) d v s = v
perform-Lives (reads (some buf) count none) d v s = v
perform-Lives (reads (some buf) count (some off)) d v s =
    read-Lives d buf count off _ v refl (read_locked-Reads d buf count v s off)
perform-Lives (writes none count off) d v s = v
perform-Lives (writes (some buf) count none) d v s = v
perform-Lives (writes (some buf) count (some off)) d v s =
    write-Lives d buf count off _ v refl (write_locked-Writes d buf count v s off)
perform-Lives (controls p given cmd arg) d v s =
    let (e, same, w) = Controls-Valid v (my_ioctl-Controls p given cmd d arg) in rw same w

run-Lives : (cs : List Call) (d : MyDevice) → Valid d → AllSound cs → Lives (run cs d)
unfolding run
run-Lives [] d v s = v
run-Lives (c ∷ cs) d v s = elim (Option-cases (perform c d)) [
  | inl e ↦ absurd (rw e at (perform-Lives c d v s.0))
  | inr (d', e) ↦ rw (e, Lives) (run-Lives cs d' (rw e at (perform-Lives c d v s.0)) s.1)
]

-- The device of a successful initialisation, after the calls.
pub init_and_run : Bool → ℤ → Bool → ℕ → List Call → Option MyDevice
init_and_run dev_given p given mutex cs = elim (my_device_init dev_given p given mutex).dev [
  | none ↦ none
  | some d ↦ run cs d
]

Initializes-Lives :
    (i : Initialized) (cs : List Call)
    → Initializes i
    → i.ret ≡ pos 0
    → AllSound cs
    → Lives (elim i.dev [ none ↦ none | some d ↦ run cs d ])
Initializes-Lives i cs (ready d v) e s = run-Lives cs d v s
Initializes-Lives i cs (failed n) e s = cc e

-- After a successful `my_device_init`, no sequence of opens, releases, reads, writes and controls,
-- with any commands, offsets and null pointers, runs outside a buffer, and the device is well formed
-- after it. Each caller's buffer must have room for its count.
pub init_and_run-Lives :
    (dev_given : Bool) (p : ℤ) (given : Bool) (mutex : ℕ) (cs : List Call)
    → (my_device_init dev_given p given mutex).ret ≡ pos 0
    → AllSound cs
    → Lives (init_and_run dev_given p given mutex cs)
unfolding init_and_run
init_and_run-Lives dev_given p given mutex cs e s =
    Initializes-Lives _ cs (my_device_init-Initializes dev_given p given mutex) e s
