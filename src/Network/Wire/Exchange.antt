-- ===== src/Network/Wire/Exchange.antt =====
-- What `recv_full` and `send_full` of net/network.c answer, whatever the socket calls do.
use mathlib.Core.List.{append_assoc}
use farou_kernel.Base.{
  ℕ, zero, suc, ◌+◌, ◌-◌, ◌≤◌, ◌<◌, ◌≡◌, refl, ap, sym, ◌∙◌, Bool, true, false, Option, none, ◌⊎◌,
  inl, inr, some, List, [], ◌∷◌, ◌++◌, arith, ltb, leb, ◌==◌, if◌then◌else◌, length, length-append,
  take, drop, length-take, take-append-drop, Bool-cases, ge→ltb,
}
use farou_kernel.Network.Wire.{
  RecvStatus, recv_ok, recv_eof, recv_timeout, recv_error, Receipt, interrupted, failed, timed_out,
  arrived, has_newline, is_empty, recv_loop, recv_full,
}

-- All that arrives, in order.
abbrev pub stream : List Receipt → List ℕ
stream [] = []
stream (arrived bytes ∷ rs) = bytes ++ stream rs
stream (interrupted ∷ rs) = stream rs
stream (failed ∷ rs) = stream rs
stream (timed_out ∷ rs) = stream rs

-- There is an error, a timeout or the end of the stream.
abbrev pub is_decided : List Receipt → Bool
is_decided [] = false
is_decided (interrupted ∷ rs) = is_decided rs
is_decided (failed ∷ rs) = true
is_decided (timed_out ∷ rs) = true
is_decided (arrived [] ∷ rs) = true
is_decided (arrived (c ∷ s) ∷ rs) = is_decided rs

-- The received bytes and a NUL fit the buffer. A success has filled it or has some bytes, and a
-- timeout has none.
abbrev pub IsFit : ℕ → RecvStatus → List ℕ → Type 0
IsFit len recv_ok out = (length out < len) × ((length out + 1 ≡ len) ⊎ (0 < length out))
IsFit len recv_timeout out = (length out < len) × (out ≡ [])
IsFit len recv_eof out = length out < len
IsFit len recv_error out = length out < len

abbrev pub Receives : ℕ → List Receipt → List ℕ → Option (RecvStatus × List ℕ) → Type 0
Receives len rs received none = is_decided rs ≡ false
Receives len rs received (some (status, out)) =
    IsFit len status out × ((rest : List ℕ) × (received ++ stream rs ≡ out ++ rest))

take_whole : (n : ℕ) (s : List ℕ) → length s ≤ n → take n s ≡ s
take_whole zero [] h = refl
take_whole zero (c ∷ s) h = absurd (omega arith)
take_whole (suc n) [] h = refl
take_whole (suc n) (c ∷ s) h = ap (λ l. c ∷ l) (take_whole n s (omega arith))

nonempty_lem : (n : ℕ) (c : ℕ) (s : List ℕ) → 0 < n → is_empty (take n (c ∷ s)) ≡ false
nonempty_lem zero c s h = absurd (omega arith)
nonempty_lem (suc n) c s h = refl

module _ (len : ℕ) where
  full_lem :
      (rs : List Receipt) (received : List ℕ)
      → length received < len
      → ltb (length received) (len - 1) ≡ false
      → Receives len rs received (some (recv_ok, received))
  full_lem rs received small full = ((small, inl (ground arith)), (stream rs, refl))

  recv_loop_full :
      (rs : List Receipt) (received : List ℕ)
      → ltb (length received) (len - 1) ≡ false
      → recv_loop len rs received ≡ some (recv_ok, received)
  unfolding recv_loop
  recv_loop_full [] received full = rw full refl
  recv_loop_full (interrupted ∷ rs) received full = rw full refl
  recv_loop_full (failed ∷ rs) received full = rw full refl
  recv_loop_full (timed_out ∷ rs) received full = rw full refl
  recv_loop_full (arrived bytes ∷ rs) received full = rw full refl

  abbrev chunk : List ℕ → List ℕ → List ℕ
  chunk received bytes = take (len - length received - 1) bytes

  -- The branch for some bytes: the line is complete, or the loop goes on.
  abbrev go_on : List Receipt → List ℕ → List ℕ → Option (RecvStatus × List ℕ)
  go_on rs received n =
      if has_newline n then some (recv_ok, received ++ n) else recv_loop len rs (received ++ n)

  go_on-whole :
      (rs : List Receipt) (received : List ℕ) (c : ℕ) (s : List ℕ)
      → length received + length (c ∷ s) < len
      → Receives len rs (received ++ c ∷ s) (recv_loop len rs (received ++ c ∷ s))
      → Receives len (arrived (c ∷ s) ∷ rs) received (go_on rs received (c ∷ s))
  go_on-whole rs received c s small rest =
      let joined = append_assoc received (c ∷ s) (stream rs) in
      let len_lem = length-append received (c ∷ s) in
      elim (Bool-cases (has_newline (c ∷ s))) [
        | inl line ↦
            rw (line, Receives)
              ((omega (arith, len_lem), inr (omega (arith, len_lem))), (stream rs, sym joined))
        | inr more ↦ rw (more, Receives) (rebase (recv_loop len rs (received ++ c ∷ s)) rest)
      ]
    where
      rebase :
          (r : Option (RecvStatus × List ℕ))
          → Receives len rs (received ++ c ∷ s) r
          → Receives len (arrived (c ∷ s) ∷ rs) received r
      rebase none h = h
      rebase (some (status, out)) h =
          (h.0, (h.1.0, sym (append_assoc received (c ∷ s) (stream rs)) ∙ h.1.1))

  go_on-cut :
      (rs : List Receipt) (received bytes : List ℕ)
      → length received + 1 < len
      → len ≤ length received + length bytes
      → Receives len (arrived bytes ∷ rs) received (go_on rs received (chunk received bytes))
  go_on-cut rs received bytes room long =
      let n = chunk received bytes in
      let m = len - length received - 1 in
      let size = length-append received n in
      let chunk_size = length-take m bytes in
      let full : ltb (length (received ++ n)) (len - 1) ≡ false =
        ge→ltb _ _ (omega (arith, size, chunk_size)) in
      let ending : received ++ (bytes ++ stream rs)
          ≡ (received ++ n) ++ (drop m bytes ++ stream rs) =
        ap (λ l. received ++ (l ++ stream rs)) (sym (take-append-drop m bytes))
        ∙ (ap (λ l. received ++ l) (append_assoc n (drop m bytes) (stream rs))
            ∙ sym (append_assoc received n (drop m bytes ++ stream rs))) in
      let done : Receives len (arrived bytes ∷ rs) received (some (recv_ok, received ++ n)) = (
        (omega (arith, size, chunk_size), inl (omega (arith, size, chunk_size))),
        (drop m bytes ++ stream rs, ending),
      ) in
      elim (Bool-cases (has_newline n)) [
        | inl line ↦ rw (line, Receives) done
        | inr more ↦
            rw (more, Receives) (rw (recv_loop_full rs (received ++ n) full, Receives) done)
      ]

  recv_loop-Receives :
      (rs : List Receipt) (received : List ℕ)
      → length received < len
      → Receives len rs received (recv_loop len rs received)
  unfolding recv_loop
  recv_loop-Receives [] received small = elim (Bool-cases (ltb (length received) (len - 1))) [
    | inl room ↦ rw room refl
    | inr full ↦ rw (full, Receives) (full_lem [] received small full)
  ]
  recv_loop-Receives (interrupted ∷ rs) received small =
      elim (Bool-cases (ltb (length received) (len - 1))) [
        | inl room ↦ rw (room, Receives) (recv_loop-Receives rs received small)
        | inr full ↦ rw (full, Receives) (full_lem (interrupted ∷ rs) received small full)
      ]
  recv_loop-Receives (failed ∷ rs) received small =
      elim (Bool-cases (ltb (length received) (len - 1))) [
        | inl room ↦ rw (room, Receives) (small, (stream rs, refl))
        | inr full ↦ rw (full, Receives) (full_lem (failed ∷ rs) received small full)
      ]
  recv_loop-Receives (timed_out ∷ rs) received small =
      elim (Bool-cases (ltb (length received) (len - 1))) [
        | inr full ↦ rw (full, Receives) (full_lem (timed_out ∷ rs) received small full)
        | inl room ↦
            rw (room, Receives)
              (elim (Bool-cases (ltb 0 (length received))) [
                | inl some_bytes ↦
                    rw (some_bytes, Receives) ((small, inr (ground arith)), (stream rs, refl))
                | inr idle ↦
                    rw (idle, Receives)
                      ((small, no_bytes received (ground arith)), (stream rs, refl))
              ])
      ]
    where
      no_bytes : (s : List ℕ) → length s ≡ 0 → s ≡ []
      no_bytes [] h = refl
      no_bytes (c ∷ s) h = absurd (omega arith)
  recv_loop-Receives (arrived [] ∷ rs) received small =
      elim (Bool-cases (ltb (length received) (len - 1))) [
        | inl room ↦
            let nothing : take (len - length received - 1) [] ≡ [] =
              take_whole (len - length received - 1) [] (omega arith) in
            rw (room, Receives) (rw (nothing, Receives) (small, (stream rs, refl)))
        | inr full ↦ rw (full, Receives) (full_lem (arrived [] ∷ rs) received small full)
      ]
  recv_loop-Receives (arrived (c ∷ s) ∷ rs) received small =
      elim (Bool-cases (ltb (length received) (len - 1))) [
        | inr full ↦ rw (full, Receives) (full_lem (arrived (c ∷ s) ∷ rs) received small full)
        | inl room ↦
            let some_bytes = nonempty_lem (len - length received - 1) c s (ground arith) in
            rw (room, Receives)
              (rw (some_bytes, Receives)
                (elim (Bool-cases (leb (length (c ∷ s)) (len - length received - 1))) [
                  | inl whole ↦
                      let all = take_whole (len - length received - 1) (c ∷ s) (ground arith) in
                      rw all (
                        go_on-whole rs received c s (ground arith) (
                          recv_loop-Receives rs (received ++ c ∷ s)
                            (ground (arith, length-append received (c ∷ s)))))
                  | inr cut ↦ go_on-cut rs received (c ∷ s) (ground arith) (ground arith)
                ]))
      ]

  -- Whatever the socket calls answer, `recv_full` answers once they bring an error, a timeout or the
  -- end of the stream; what it has received is the front of what arrived and, with its NUL, fits the
  -- buffer. A success has filled the buffer or has some bytes, and a timeout has none.
  pub recv_full-Receives : (rs : List Receipt) → 0 < len → Receives len rs [] (recv_full len rs)
  unfolding recv_full
  recv_full-Receives rs some_room =
      let nonzero : (len == 0) ≡ false = ground arith in
      rw (nonzero, Receives) (recv_loop-Receives rs [] (omega arith))
