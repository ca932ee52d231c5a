-- ===== src/Network/Wire.antt =====
-- `recv_full` and `send_full` of net/network.c: the loops over the socket calls.
-- The answers of `select`, `recv` and `send` are given, in order; `none` says that the loop still
-- waits after them.
pub mod Exchange
pub mod Delivery
use farou_kernel.Base.{
  ℕ, zero, suc, ◌+◌, ◌-◌, ◌%◌, ◌^◌, ◌≤◌, ◌<◌, ◌≡◌, ◌≢◌, refl, ap, sym, ◌∙◌, subst, Bool, true,
  false, not, ◌&&◌, ◌||◌, Option, none, ◌⊎◌, inl, inr, some, List, [], ◌∷◌, ◌++◌, arith, ltb, leb,
  ◌==◌, if◌then◌else◌, length, length-append, take, drop, length-take, length-drop,
  take-append-drop, min, Bool-cases, ge→ltb, lt→ltb,
}
use farou_kernel.Base.Int.{ℤ, pos, negsuc}
use farou_kernel.Bytes.{slice}

-- `recv_status_t`
pub data RecvStatus : Type 0 where
  recv_ok : RecvStatus
  recv_eof : RecvStatus
  recv_timeout : RecvStatus
  recv_error : RecvStatus

-- One turn of the loop: `select` is interrupted, fails or times out, or `recv` is interrupted, fails
-- (also with EAGAIN), or finds these bytes; no bytes say that the peer has closed.
pub data Receipt : Type 0 where
  interrupted : Receipt
  failed : Receipt
  timed_out : Receipt
  arrived : List ℕ → Receipt

abbrev pub has_newline : List ℕ → Bool
has_newline [] = false
has_newline (c ∷ s) = (c == b'\n') || has_newline s

abbrev pub is_empty : List ℕ → Bool
is_empty [] = true
is_empty (c ∷ s) = false

-- The loop, with the bytes received so far. `recv` gives at most the bytes that it is asked for.
unfoldable pub recv_loop : ℕ → List Receipt → List ℕ → Option (RecvStatus × List ℕ)
recv_loop len [] received =
    if ltb (length received) (len - 1) then none else some (recv_ok, received)
recv_loop len (interrupted ∷ rs) received =
    let rest = recv_loop len rs received in
    if ltb (length received) (len - 1) then rest else some (recv_ok, received)
recv_loop len (failed ∷ rs) received =
    if ltb (length received) (len - 1)
    then some (recv_error, received)
    else some (recv_ok, received)
recv_loop len (timed_out ∷ rs) received =
    if ltb (length received) (len - 1)
    then (if ltb 0 (length received)
        then some (recv_ok, received)
        else some (recv_timeout, received))
    else some (recv_ok, received)
recv_loop len (arrived bytes ∷ rs) received =
    let n = take (len - length received - 1) bytes in
    let rest = recv_loop len rs (received ++ n) in
    if ltb (length received) (len - 1)
    then (if is_empty n
        then some (recv_eof, received)
        else (if has_newline n then some (recv_ok, received ++ n) else rest))
    else some (recv_ok, received)

unfoldable pub recv_full : ℕ → List Receipt → Option (RecvStatus × List ℕ)
recv_full len rs = if len == 0 then some (recv_ok, []) else recv_loop len rs []

-- A turn of the loop of `send_full`: `send` is interrupted, fails, or takes this many bytes.
pub data Sending : Type 0 where
  interrupted : Sending
  failed : Sending
  taken : ℕ → Sending

-- The conversion of a `size_t` to `int`, which keeps the low 32 bits.
unfoldable pub to_int : ℕ → ℤ
to_int n = if ltb (n % 2 ^ 32) (2 ^ 31) then pos (n % 2 ^ 32) else negsuc (2 ^ 32 - 1 - n % 2 ^ 32)

-- The loop, with the number of bytes sent and the bytes that have gone out. `send` takes at most the
-- bytes that it is given.
unfoldable pub send_loop : List ℕ → List Sending → ℕ → List ℕ → Option (ℤ × List ℕ)
send_loop buffer [] bytes_sent out =
    if ltb bytes_sent (length buffer) then none else some (to_int bytes_sent, out)
send_loop buffer (interrupted ∷ ss) bytes_sent out =
    let rest = send_loop buffer ss bytes_sent out in
    if ltb bytes_sent (length buffer) then rest else some (to_int bytes_sent, out)
send_loop buffer (failed ∷ ss) bytes_sent out =
    if ltb bytes_sent (length buffer) then some (negsuc 0, out) else some (to_int bytes_sent, out)
send_loop buffer (taken k ∷ ss) bytes_sent out =
    let n = min k (length buffer - bytes_sent) in
    let rest = send_loop buffer ss (bytes_sent + n) (out ++ slice bytes_sent n buffer) in
    if ltb bytes_sent (length buffer) then rest else some (to_int bytes_sent, out)

pub send_full : List ℕ → List Sending → Option (ℤ × List ℕ)
send_full buffer ss = send_loop buffer ss 0 []
