-- ===== src/Pic.antt =====
-- The interrupt controllers of kernel/arch/x86_64/interrupts: the masks of pic.c, and the table of
-- handlers and the ends of interrupts of irq.c.
-- The ports are read and written by `port_byte_in` and `port_byte_out`, which are parameters; a byte
-- is its bits. `none` stands for an access outside the table.
pub mod Masks
pub mod Irq
mod Tests
use farou_kernel.Base.{
  ℕ, suc, zero, List, [], ◌∷◌, ◌++◌, ◌+◌, ◌-◌, ◌%◌, ◌^◌, Bool, true, false, not, ◌&&◌, ◌||◌, Option,
  none, some, ltb, leb, ◌==◌, if◌then◌else◌,
}
use farou_kernel.Base.Word.{sub64}

abbrev pub pic1_command : ℕ
pic1_command = 32

abbrev pub pic1_data : ℕ
pic1_data = 33

abbrev pub pic2_command : ℕ
pic2_command = 160

abbrev pub pic2_data : ℕ
pic2_data = 161

abbrev pub pic_eoi : ℕ
pic_eoi = 32

abbrev pub Byte : Type 0
Byte = ℕ → Bool

pub record Ports : Type 1 where
  pub Device : Type 0
  pub port_byte_in : ℕ → Device → Byte
  pub port_byte_out : ℕ → Byte → Device → Device

-- The port and the bit of a line.
abbrev pub port_of : ℕ → ℕ
port_of line = if ltb line 8 then pic1_data else pic2_data

abbrev pub bit_of : ℕ → ℕ
bit_of line = if ltb line 8 then line else line - 8

-- `value | (1 << line)` and `value & ~(1 << line)`, cut to 8 bits. A shift by 31 or more, that is a line
-- above 38, is undefined in C and left out.
abbrev pub with_bit : Byte → ℕ → Byte
with_bit value line j = ltb j 8 && (value j || (j == line))

abbrev pub without_bit : Byte → ℕ → Byte
without_bit value line j = ltb j 8 && value j && not (j == line)

unfoldable pub pic_set_mask : (p : Ports) → ℕ → p.Device → p.Device
pic_set_mask p line d =
    let port = port_of line in
    p.port_byte_out port (with_bit (p.port_byte_in port d) (bit_of line)) d

unfoldable pub pic_clear_mask : (p : Ports) → ℕ → p.Device → p.Device
pic_clear_mask p line d =
    let port = port_of line in
    p.port_byte_out port (without_bit (p.port_byte_in port d) (bit_of line)) d

-- What an interrupt leads to: the call of a handler, and the bytes written to ports.
pub data Event : Type 0 where
  calls : ℕ → Event
  out : ℕ → ℕ → Event

-- The argument is an `unsigned char`.
unfoldable pub pic_send_eoi : ℕ → List Event
pic_send_eoi irq =
    if leb 8 (irq % 256)
    then out pic2_command pic_eoi ∷ out pic1_command pic_eoi ∷ []
    else out pic1_command pic_eoi ∷ []

-- `irq_routines`: the address of the handler of a line, or 0.
abbrev pub Routines : Type 0
Routines = ℕ → ℕ

unfoldable pub irq_install_handler : ℕ → ℕ → Routines → Option Routines
irq_install_handler irq handler r =
    if ltb irq 16 then some (λ j. if j == irq then handler else r j) else none

unfoldable pub irq_uninstall_handler : ℕ → Routines → Option Routines
irq_uninstall_handler irq r = if ltb irq 16 then some (λ j. if j == irq then 0 else r j) else none

unfoldable pub irq_handler : ℕ → Routines → Option (List Event)
irq_handler int_no r =
    let handler = r (sub64 int_no 32) in
    let called = if handler == 0 then [] else calls handler ∷ [] in
    let second = if leb 40 int_no then pic_send_eoi pic2_command else [] in
    if ltb (sub64 int_no 32) 16 then some (called ++ second ++ pic_send_eoi pic1_command) else none
