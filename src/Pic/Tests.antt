-- ===== src/Pic/Tests.antt =====
-- Runs of pic.c and irq.c, and the theorems at such inputs.
use farou_kernel.Base.{
  ℕ, [], ◌∷◌, ◌≡◌, refl, true, ◌&&◌, some, ◌==◌, if◌then◌else◌, arith, ne→==, ==_refl,
}
use farou_kernel.Base.Word.{sub64}
use farou_kernel.Pic.{
  Byte, Ports, pic_set_mask, pic_clear_mask, calls, out, pic_send_eoi, irq_install_handler,
  irq_uninstall_handler, irq_handler,
}
use farou_kernel.Pic.Masks.{Keeping, is_masked, is_masked-pic_set_mask}
use farou_kernel.Pic.Irq.{answer, interrupted, irq_handler-irq_install_handler}

-- Ports that keep what is written to them.
abbrev stored : Ports
stored = record {
  Device = ℕ → Byte;
  port_byte_in = λ port d. d port;
  port_byte_out = λ port v d. λ other. if other == port then v else d other;
}

stored-Keeping : Keeping stored
stored-Keeping = record {
  same = λ port v d. rw (==_refl port) refl;
  other = λ port other v d n. rw (ne→== other port n) refl;
}

-- Line 3 is masked at first.
abbrev third : ℕ → Byte
third port j = (port == 33) && (j == 3)

other_cleared : is_masked stored 3 (pic_clear_mask stored 12 third) ≡ true
other_cleared =
    (is_masked-pic_set_mask stored stored-Keeping 12 3 third (omega arith) (omega arith)).1

twelfth_masked : is_masked stored 12 (pic_set_mask stored 12 third) ≡ true
unfolding pic_set_mask
twelfth_masked = refl

-- The end of an interrupt of line 1 goes to both controllers.
keyboard :
    irq_handler 33 (λ i. if i == 1 then 7 else 0) ≡ some (calls 7 ∷ out 160 32 ∷ out 32 32 ∷ [])
unfolding irq_handler pic_send_eoi sub64
keyboard = refl

irq_handler-irq_install_handler_example :
    (interrupted 14 (irq_install_handler 14 7 (λ i. i))
      ≡ some (answer (if 14 == 14 then 7 else 14) 14))
    × (interrupted 14 (irq_uninstall_handler 14 (λ i. i))
        ≡ some (answer (if 14 == 14 then 0 else 14) 14))
irq_handler-irq_install_handler_example =
    irq_handler-irq_install_handler 14 14 7 (λ i. i) (omega arith) (omega arith)
