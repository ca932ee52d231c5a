-- ===== src/Pic/Irq.antt =====
-- irq_handler of irq.c.
use farou_kernel.Base.{
  ℕ, List, [], ◌∷◌, ◌++◌, ◌+◌, ◌<◌, ◌≡◌, Option, none, some, ltb, ◌==◌, if◌then◌else◌, arith,
  lt→ltb,
}
use farou_kernel.Base.Word.{sub64}
use farou_kernel.Pic.{
  pic1_command, pic2_command, pic_eoi, Event, calls, out, pic_send_eoi, Routines,
  irq_install_handler, irq_uninstall_handler, irq_handler,
}

-- An end of interrupt at each controller, the second first.
abbrev pub both_ends : List Event
both_ends = out pic2_command pic_eoi ∷ out pic1_command pic_eoi ∷ []

-- The handler runs, if there is one, and then both controllers are told the end; twice, where the line is of
-- the second.
abbrev pub answer : ℕ → ℕ → List Event
answer handler irq =
    (if handler == 0 then [] else calls handler ∷ [])
    ++ (if ltb irq 8 then [] else both_ends)
    ++ both_ends

handler_lem :
    (irq : ℕ) (r : Routines) → irq < 16 → irq_handler (32 + irq) r ≡ some (answer (r irq) irq)
unfolding irq_handler pic_send_eoi sub64
handler_lem irq r h = ground arith

abbrev pub interrupted : ℕ → Option Routines → Option (List Event)
interrupted irq none = none
interrupted irq (some r) = irq_handler (32 + irq) r

-- With a handler installed for one of the 16 lines, an interrupt of this line calls it, and the others call
-- what they called before; without it, no handler is called. The answer of each line follows the calls.
pub irq_handler-irq_install_handler :
    (irq other handler : ℕ) (r : Routines)
    → irq < 16
    → other < 16
    → (interrupted other (irq_install_handler irq handler r)
        ≡ some (answer (if other == irq then handler else r other) other))
      × (interrupted other (irq_uninstall_handler irq r)
          ≡ some (answer (if other == irq then 0 else r other) other))
unfolding irq_install_handler irq_uninstall_handler
irq_handler-irq_install_handler irq other handler r h h' = rw (lt→ltb _ _ h) (
  handler_lem other (λ j. if j == irq then handler else r j) h',
  handler_lem other (λ j. if j == irq then 0 else r j) h',
)
