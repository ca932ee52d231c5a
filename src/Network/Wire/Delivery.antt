-- ===== src/Network/Wire/Delivery.antt =====
-- What `send_full` of net/network.c answers, whatever `send` does.
use farou_kernel.Base.{
  ℕ, zero, suc, ◌+◌, ◌-◌, ◌%◌, ◌^◌, ◌≤◌, ◌<◌, ◌≡◌, refl, ap, ◌∙◌, Bool, true, false, Option, none,
  ◌⊎◌, inl, inr, some, List, [], ◌∷◌, ◌++◌, arith, ltb, length, take, min, Bool-cases, lt→ltb,
}
use farou_kernel.Base.Int.{ℤ, pos, negsuc}
use farou_kernel.Bytes.{slice}
use farou_kernel.Network.Wire.{Sending, interrupted, failed, taken, send_loop, send_full, to_int}

-- The number of bytes that `send` takes in all, and whether it fails.
abbrev pub capacity : List Sending → ℕ
capacity [] = 0
capacity (interrupted ∷ ss) = capacity ss
capacity (failed ∷ ss) = 0
capacity (taken k ∷ ss) = k + capacity ss

abbrev pub has_failed : List Sending → Bool
has_failed [] = false
has_failed (interrupted ∷ ss) = has_failed ss
has_failed (failed ∷ ss) = true
has_failed (taken k ∷ ss) = has_failed ss

-- The whole buffer has gone out, in order and once, and its length is the answer, as an `int`; or `send` has failed
-- before, and a front of the buffer has gone out; or `send` has neither failed nor taken enough.
abbrev pub Delivers : List ℕ → List Sending → ℕ → Option (ℤ × List ℕ) → Type 0
Delivers buffer ss sent none = (has_failed ss ≡ false) × (sent + capacity ss < length buffer)
Delivers buffer ss sent (some (ret, out)) =
    ((ret ≡ to_int (length buffer))
      × (length buffer < 2 ^ 31 → ret ≡ pos (length buffer))
      × (out ≡ buffer))
    ⊎ ((ret ≡ negsuc 0)
        × (has_failed ss ≡ true)
        × ((k : ℕ) × (k < length buffer) × (out ≡ take k buffer)))

take_add : (b n : ℕ) (s : List ℕ) → take b s ++ slice b n s ≡ take (b + n) s
take_add zero n s = ap (λ k. take k s) (omega arith)
take_add (suc b) n [] = let next : suc b + n ≡ suc (b + n) = omega arith in rw next (nothing n)
  where
    nothing : (k : ℕ) → take {A = ℕ} k [] ≡ []
    nothing zero = refl
    nothing (suc k) = refl
take_add (suc b) n (c ∷ s) =
    let next : suc b + n ≡ suc (b + n) = omega arith in rw next (ap (λ l. c ∷ l) (take_add b n s))

take_all : (s : List ℕ) → take (length s) s ≡ s
take_all [] = refl
take_all (c ∷ s) = ap (λ l. c ∷ l) (take_all s)

to_int_small : (n : ℕ) → n < 2 ^ 31 → to_int n ≡ pos n
unfolding to_int
to_int_small n h =
    let same : n % 4294967296 ≡ n = omega (arith, h) in rw (same, lt→ltb n 2147483648 h) refl

module _ (buffer : List ℕ) where
  finished :
      (ss : List Sending) (sent : ℕ)
      → sent ≤ length buffer
      → ltb sent (length buffer) ≡ false
      → Delivers buffer ss sent (some (to_int sent, take sent buffer))
  finished ss sent small done =
      let all : sent ≡ length buffer = ground arith in
      inl (
        ap to_int all,
        (λ h. to_int_small sent (omega (arith, all, h)) ∙ ap pos all),
        ap (λ k. take k buffer) all ∙ take_all buffer,
      )

  send_loop-Delivers :
      (ss : List Sending) (sent : ℕ)
      → sent ≤ length buffer
      → Delivers buffer ss sent (send_loop buffer ss sent (take sent buffer))
  unfolding send_loop
  send_loop-Delivers [] sent small = elim (Bool-cases (ltb sent (length buffer))) [
    | inl more ↦ rw (more, Delivers) (refl, ground arith)
    | inr done ↦ rw (done, Delivers) (finished [] sent small done)
  ]
  send_loop-Delivers (interrupted ∷ ss) sent small = elim (Bool-cases (ltb sent (length buffer))) [
    | inl more ↦ rw (more, Delivers) (send_loop-Delivers ss sent small)
    | inr done ↦ rw (done, Delivers) (finished (interrupted ∷ ss) sent small done)
  ]
  send_loop-Delivers (failed ∷ ss) sent small = elim (Bool-cases (ltb sent (length buffer))) [
    | inl more ↦ rw (more, Delivers) (inr (refl, refl, (sent, ground arith, refl)))
    | inr done ↦ rw (done, Delivers) (finished (failed ∷ ss) sent small done)
  ]
  send_loop-Delivers (taken k ∷ ss) sent small =
      let n = min k (length buffer - sent) in
      elim (Bool-cases (ltb sent (length buffer))) [
        | inr done ↦ rw (done, Delivers) (finished (taken k ∷ ss) sent small done)
        | inl more ↦
            rw (more, Delivers)
              (rw (take_add sent n buffer)
                (weaken _ (send_loop-Delivers ss (sent + n) (omega arith))))
      ]
    where
      weaken :
          (r : Option (ℤ × List ℕ))
          → Delivers buffer ss (sent + min k (length buffer - sent)) r
          → Delivers buffer (taken k ∷ ss) sent r
      weaken none h = (h.0, omega (arith, h.1))
      weaken (some (ret, out)) h = h

  -- Whatever `send` does, `send_full` sends the whole buffer, in order and once, and answers its
  -- length converted to `int`, which is the length itself below 2^31 bytes; or `send` fails, it answers -1, and only a front of the buffer has gone out. It waits only
  -- while `send` has neither failed nor taken enough bytes.
  pub send_full-Delivers : (ss : List Sending) → Delivers buffer ss 0 (send_full buffer ss)
  unfolding send_full
  send_full-Delivers ss = send_loop-Delivers ss 0 (omega arith)
