-- ===== src/Interrupts/Tests.antt =====
-- Runs of the interrupts of kernel/interrupts.c, and the theorems at such inputs.
use farou_kernel.Base.{
  ℕ, List, [], ◌∷◌, ◌+◌, ◌≤◌, ◌<◌, ◌≡◌, ◌≢◌, ◌⊎◌, refl, true, false, arith, replicate,
}
use farou_kernel.Interrupts.{
  Idt, absent_entry, init_idt, isr_stub, Frame, iretq, generic_interrupt_handler_c,
}
use farou_kernel.Interrupts.Gates.{Opens, init_idt-Opens}
use farou_kernel.Interrupts.Stubs.{after_interrupt, on_stack, isr_stub_lem}

abbrev blank : Idt
blank v = absent_entry

abbrev address : ℕ → ℕ
address v = 18446744071562067968 + v

abbrev others : List ℕ
others = replicate 14 7

-- The code at 4096 was interrupted.
abbrev frame : Frame
frame = record { rip = 4096; cs = 8; rflags = 514; rsp = 65536; ss = 16 }

-- The frame that `iretq` finds below an error code of 2.
abbrev shifted : Frame
shifted = record { rip = 2; cs = 4096; rflags = 8; rsp = 514; ss = 65536 }

-- A timer interrupt, at vector 32, comes back with RAX lost.
rax_lost : isr_stub 32 false 5 others (on_stack frame []) ≡ iretq (0 ∷ others) frame true
unfolding isr_stub generic_interrupt_handler_c
rax_lost = refl

-- A page fault comes back by a frame that starts at its error code.
to_error_code : isr_stub 14 true 5 others (2 ∷ on_stack frame []) ≡ iretq (5 ∷ others) shifted true
unfolding isr_stub generic_interrupt_handler_c
to_error_code = refl

init_idt-Opens_example :
    (((14 < 32) ⊎ ◌≡◌ {A = ℕ} 14 255) → Opens (init_idt address blank 14) (address 14))
    × ((32 ≤ 14) → ◌≢◌ {A = ℕ} 14 255 → (init_idt address blank 14).present ≡ 0)
init_idt-Opens_example = init_idt-Opens address blank 14 (omega arith) (omega arith) (omega arith)

isr_stub_lem_example :
    (isr_stub 14 false 5 others (on_stack frame []) ≡ after_interrupt 14 (0 ∷ others) frame)
    × (isr_stub 14 true 5 others (2 ∷ on_stack frame []) ≡ after_interrupt 14 (5 ∷ others) shifted)
isr_stub_lem_example = isr_stub_lem 14 others refl 5 2 frame []
