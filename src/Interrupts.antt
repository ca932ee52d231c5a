-- ===== src/Interrupts.antt =====
-- The interrupt descriptor table of kernel/interrupts.c, and the way of an interrupt through its stub.
-- A register or a word of the stack is a number; the stack's top comes first. The addresses of the stubs,
-- which the linker gives, are an argument.
pub mod Gates
pub mod Stubs
mod Tests
use farou_kernel.Base.{
  ℕ, List, [], ◌∷◌, suc, zero, ◌+◌, ◌*◌, ◌/◌, ◌%◌, ◌^◌, Bool, true, false, not, ◌&&◌, ◌||◌, Option,
  none, some, ltb, ◌==◌, if◌then◌else◌,
}

abbrev pub idt_size : ℕ
idt_size = 256

abbrev pub kernel_cs : ℕ
kernel_cs = 8

abbrev pub spurious_vector_num : ℕ
spurious_vector_num = 255

-- `idt_entry_t`; `gate_type` and `zero_bit` are its `type` and `zero`.
pub record IdtEntry : Type 0 where
  pub offset_low : ℕ
  pub selector : ℕ
  pub ist : ℕ
  pub reserved0 : ℕ
  pub gate_type : ℕ
  pub zero_bit : ℕ
  pub dpl : ℕ
  pub present : ℕ
  pub offset_mid : ℕ
  pub offset_high : ℕ
  pub reserved1 : ℕ

abbrev pub absent_entry : IdtEntry
absent_entry = record {
  offset_low = 0;
  selector = 0;
  ist = 0;
  reserved0 = 0;
  gate_type = 0;
  zero_bit = 0;
  dpl = 0;
  present = 0;
  offset_mid = 0;
  offset_high = 0;
  reserved1 = 0;
}

abbrev pub gate : ℕ → ℕ → IdtEntry
gate addr dpl = record absent_entry {
  offset_low = addr % 2 ^ 16;
  selector = kernel_cs;
  gate_type = 14;
  dpl = dpl % 4;
  present = 1;
  offset_mid = addr / 2 ^ 16 % 2 ^ 16;
  offset_high = addr / 2 ^ 32 % 2 ^ 32;
}

abbrev pub Idt : Type 0
Idt = ℕ → IdtEntry

-- The vector is a byte; handler 0 is NULL.
unfoldable pub set_idt_entry : ℕ → ℕ → ℕ → Idt → Idt
set_idt_entry vec handler dpl idt v =
    if v == vec % 256 then (if handler == 0 then absent_entry else gate handler dpl) else idt v

-- `isr_stubs`, which has an element for each vector: the first 32 and the spurious one are set.
unfoldable pub isr_stubs : (ℕ → ℕ) → ℕ → ℕ
isr_stubs stub_address i = if ltb i 32 || (i == spurious_vector_num) then stub_address i else 0

-- The loop of `init_idt`, `rounds` vectors before its end.
unfoldable pub fill_idt : (ℕ → ℕ) → ℕ → ℕ → Idt → Idt
fill_idt stub_address zero i idt = idt
fill_idt stub_address (suc rounds) i idt =
    fill_idt stub_address rounds (i + 1) (set_idt_entry i (isr_stubs stub_address i) 0 idt)

unfoldable pub init_idt : (ℕ → ℕ) → Idt → Idt
init_idt stub_address idt = fill_idt stub_address idt_size 0 idt

-- The handler halts the processor, or returns with or without an end of interrupt.
pub data Reaction : Type 0 where
  halts : Reaction
  ends : Bool → Reaction

unfoldable pub generic_interrupt_handler_c : ℕ → Reaction
generic_interrupt_handler_c vec =
    if ltb vec 32
    then (if not (vec == 8) && not (vec == 14) then halts else ends true)
    else (if vec == spurious_vector_num then ends false else ends true)

abbrev pub push_all : List ℕ → List ℕ → List ℕ
push_all [] stack = stack
push_all (r ∷ rs) stack = push_all rs (r ∷ stack)

-- `n` words are popped; the last comes first.
abbrev pub pop_all : ℕ → List ℕ → List ℕ → Option (List ℕ × List ℕ)
pop_all zero popped stack = some (popped, stack)
pop_all (suc n) popped [] = none
pop_all (suc n) popped (v ∷ stack) = pop_all n (v ∷ popped) stack

-- The words that `iretq` takes from the stack into RIP, CS, RFLAGS, RSP and SS.
pub record Frame : Type 0 where
  pub rip : ℕ
  pub cs : ℕ
  pub rflags : ℕ
  pub rsp : ℕ
  pub ss : ℕ

-- The processor halts, or executes `iretq` with its registers and the five words on the stack, with or
-- without an end of interrupt. Whether it accepts these words is not modelled.
pub data After : Type 0 where
  faulted : After
  halted : After
  iretq : List ℕ → Frame → Bool → After

abbrev pub leave_at : Bool → List ℕ → Option (List ℕ × List ℕ) → After
leave_at eoi registers none = faulted
leave_at eoi registers (some ([], stack)) = faulted
leave_at eoi registers (some (ss ∷ [], stack)) = faulted
leave_at eoi registers (some (ss ∷ rsp ∷ [], stack)) = faulted
leave_at eoi registers (some (ss ∷ rsp ∷ rflags ∷ [], stack)) = faulted
leave_at eoi registers (some (ss ∷ rsp ∷ rflags ∷ cs ∷ [], stack)) = faulted
leave_at eoi registers (some (ss ∷ rsp ∷ rflags ∷ cs ∷ rip ∷ more, stack)) =
    iretq registers (record { rip = rip; cs = cs; rflags = rflags; rsp = rsp; ss = ss }) eoi

-- `addq $16, %rsp` and `iretq`.
abbrev pub leave : Bool → Option (List ℕ × List ℕ) → After
leave eoi none = faulted
leave eoi (some (registers, [])) = faulted
leave eoi (some (registers, v ∷ [])) = faulted
leave eoi (some (registers, v ∷ e ∷ stack)) = leave_at eoi registers (pop_all 5 [] stack)

abbrev pub handled : Option (List ℕ × List ℕ) → Reaction → After
handled popped halts = halted
handled popped (ends eoi) = leave eoi popped

-- RAX and the 14 other registers in the order of the pushes: RBX, RCX, … R15.
unfoldable pub isr_stub : ℕ → Bool → ℕ → List ℕ → List ℕ → After
isr_stub vec has_error_code rax others stack =
    let entry = if has_error_code then rax else 0 in
    handled (pop_all 15 [] (push_all (entry ∷ others) (vec ∷ 0 ∷ stack)))
      (generic_interrupt_handler_c vec)
