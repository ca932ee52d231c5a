-- ===== src/Interrupts/Stubs.antt =====
-- The stubs of kernel/interrupts.c, which save the registers around the handler.
use farou_kernel.Base.{
  ℕ, List, [], ◌∷◌, ◌++◌, suc, ◌+◌, ◌≡◌, refl, ap, ◌∙◌, inl, inr, Bool, true, false, Bool-cases,
  not, ◌&&◌, some, ◌||◌, ltb, ◌==◌, if◌then◌else◌, arith, subst, length, ne→==, ltb→lt,
}
use mathlib.Core.List.{append-nil}
use farou_kernel.Interrupts.{
  push_all, pop_all, After, Frame, halted, iretq, handled, halts, ends, generic_interrupt_handler_c,
  isr_stub,
}

-- What was pushed is popped, the rest of the stack as before.
pop_all-push_all :
    (rs : List ℕ) (n : ℕ) (popped stack : List ℕ)
    → pop_all (length rs + n) popped (push_all rs stack) ≡ pop_all n (rs ++ popped) stack
pop_all-push_all [] n popped stack = let e : 0 + n ≡ n = omega arith in rw e refl
pop_all-push_all (r ∷ rs) n popped stack =
    let e : suc (length rs) + n ≡ length rs + suc n = omega arith in
    rw e (pop_all-push_all rs (suc n) popped (r ∷ stack))

-- Whether a vector is an exception that halts the processor.
abbrev pub is_fatal : ℕ → Bool
is_fatal vec = ltb vec 32 && not ((vec == 8) || (vec == 14))

-- The processor halts at a fatal exception, and else executes `iretq` on a frame; every vector but the
-- spurious one has an end of interrupt.
abbrev pub after_interrupt : ℕ → List ℕ → Frame → After
after_interrupt vec registers frame =
    if is_fatal vec then halted else iretq registers frame (not (vec == 255))

-- A frame on the stack, as the processor pushes it.
abbrev pub on_stack : Frame → List ℕ → List ℕ
on_stack f tail = f.rip ∷ f.cs ∷ f.rflags ∷ f.rsp ∷ f.ss ∷ tail

reacts :
    (vec : ℕ)
    → generic_interrupt_handler_c vec ≡ (if is_fatal vec then halts else ends (not (vec == 255)))
unfolding generic_interrupt_handler_c
reacts vec = elim (Bool-cases (ltb vec 32)) [
  | inl low ↦
      let not_spurious : (vec == 255) ≡ false = ne→== _ _ (λ q. omega (arith, q, ltb→lt _ _ low)) in
      elim (Bool-cases (vec == 8)) [
        | inl y ↦ rw (low, not_spurious, y) refl
        | inr n ↦ elim (Bool-cases (vec == 14)) [
          | inl y ↦ rw (low, not_spurious, n, y) refl
          | inr k ↦ rw (low, not_spurious, n, k) refl
        ]
      ]
  | inr high ↦ elim (Bool-cases (vec == 255)) [
    | inl y ↦ rw (high, y) refl
    | inr n ↦ rw (high, n) refl
  ]
]

module _ (vec : ℕ) (others : List ℕ) (all_others : length others ≡ 14) where
  popped :
      (entry : ℕ) (stack : List ℕ)
      → pop_all 15 [] (push_all (entry ∷ others) stack) ≡ some ((entry ∷ others) ++ [], stack)
  popped entry stack =
      let e : length (entry ∷ others) + 0 ≡ 15 = omega (arith, all_others) in
      subst
        (λ n. pop_all n [] (push_all (entry ∷ others) stack) ≡ some ((entry ∷ others) ++ [], stack))
        e (pop_all-push_all (entry ∷ others) 0 [] stack)

  left_at :
      (entry v e : ℕ) (frame : Frame) (tail : List ℕ)
      → handled
          (pop_all 15 [] (push_all (entry ∷ others) (v ∷ e ∷ on_stack frame tail)))
          (generic_interrupt_handler_c vec)
        ≡ after_interrupt vec (entry ∷ others) frame
  left_at entry v e frame tail =
      ap (λ p. handled p (generic_interrupt_handler_c vec))
        (popped entry (v ∷ e ∷ on_stack frame tail))
      ∙ ap (λ r. handled (some ((entry ∷ others) ++ [], v ∷ e ∷ on_stack frame tail)) r)
          (reacts vec)
      ∙ elim (Bool-cases (is_fatal vec)) [
        | inl y ↦ rw y refl
        | inr n ↦ rw (n, append-nil others) refl
      ]

  -- A stub for a vector without an error code returns to the interrupted code by the frame that the processor
  -- pushed, with every register restored but RAX, which is 0. A stub for a vector with an error code restores
  -- every register and executes `iretq` one word too early: the error code is taken for RIP, RIP for CS, CS for
  -- RFLAGS, RFLAGS for RSP and RSP for SS. Both halt at a fatal exception.
  pub isr_stub_lem :
      (rax code : ℕ) (frame : Frame) (tail : List ℕ)
      → (isr_stub vec false rax others (on_stack frame tail)
          ≡ after_interrupt vec (0 ∷ others) frame)
        × (isr_stub vec true rax others (code ∷ on_stack frame tail)
            ≡ after_interrupt vec (rax ∷ others) (record {
              rip = code;
              cs = frame.rip;
              rflags = frame.cs;
              rsp = frame.rflags;
              ss = frame.rsp;
            }))
  unfolding isr_stub
  isr_stub_lem rax code frame tail = (
    left_at 0 vec 0 frame tail,
    left_at rax vec 0
        (record {
          rip = code;
          cs = frame.rip;
          rflags = frame.cs;
          rsp = frame.rflags;
          ss = frame.rsp;
        })
        (frame.ss ∷ tail),
  )
