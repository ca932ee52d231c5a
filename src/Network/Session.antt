-- ===== src/Network/Session.antt =====
-- A session of net/network.c: `handle_client` and `close_client_connection`.
-- The answers of the host in each turn of the loop are given, in order; `none` says that the session
-- goes on after them. What the answers to requests say is chosen by `answer`.
pub mod Serve
use farou_kernel.Base.{
  ℕ, zero, suc, ◌+◌, ◌-◌, Bool, true, false, not, ◌&&◌, ◌||◌, Option, none, some, List, [], ◌∷◌,
  ◌++◌, ltb, ◌==◌, if◌then◌else◌,
}
use farou_kernel.Network.Limiter.{RateLimits, check_and_update_rate_limit}
use farou_kernel.Network.Text.{Answer, goodbye, sanitize_input, answer}
use farou_kernel.Network.Wire.{RecvStatus, recv_ok, recv_eof, recv_timeout, recv_error}

-- The fields of `client_data_t` that change; `is_open` is whether `socket` is not -1.
pub record Client : Type 0 where
  pub ip : List ℕ
  pub is_open : Bool
  pub last_activity : ℕ
  pub request_count : ℕ

-- The fields of `thread_pool_t` that a session changes.
pub record Server : Type 0 where
  pub active_connections : ℕ
  pub limits : RateLimits

-- What is handed to `send_full`. But for the welcome, whether `send_full` delivers it is not looked at.
pub data Message : Type 0 where
  too_many_requests : Message
  welcome : Message
  timeout_notice : Message
  answered : Answer → Message

-- One turn of the loop: `server_running`, the time of the check, what `recv_full` answers, and the time
-- of the activity.
pub record Turn : Type 0 where
  pub server_running : Bool
  pub now : ℕ
  pub status : RecvStatus
  pub bytes : List ℕ
  pub received_at : ℕ

-- The client with one more request, and the client behind the loop with what was handed to `send_full` for it.
abbrev pub active : Turn → Client → Client
active t c = record c { last_activity = t.received_at; request_count = c.request_count + 1 }

abbrev pub is_goodbye : Answer → Bool
is_goodbye goodbye = true
is_goodbye _ = false

-- The text of the buffer ends at its first NUL, where `strlen` stops.
abbrev pub until_nul : List ℕ → List ℕ
until_nul [] = []
until_nul (c ∷ s) = if c == 0 then [] else c ∷ until_nul s

abbrev pub reply_to : Turn → Answer
reply_to t = answer (sanitize_input (until_nul t.bytes))

-- The branches on the answer of `recv_full`: a request, a turn with nothing, a lost connection.
abbrev pub on_status {ℓ} : {A : Type ℓ} → RecvStatus → A → A → A → A
on_status recv_ok request again lost = request
on_status recv_timeout request again lost = again
on_status recv_error request again lost = lost
on_status recv_eof request again lost = lost

unfoldable pub session_loop : ℕ → List Turn → Client → List Message → Option (Client × List Message)
session_loop connection_timeout [] c handed = none
session_loop connection_timeout (t ∷ ts) c handed =
    let again = session_loop connection_timeout ts c handed in
    let onward =
      session_loop connection_timeout ts (active t c) (handed ++ answered (reply_to t) ∷ []) in
    if not t.server_running
    then some (c, handed)
    else (if ltb (c.last_activity + connection_timeout) t.now
        then some (c, handed ++ timeout_notice ∷ [])
        else on_status t.status
            (if is_goodbye (reply_to t)
              then some (active t c, handed ++ answered (reply_to t) ∷ [])
              else onward)
            again (some (c, handed)))

pub close_client_connection : Client → Bool → Server → Client × Server
close_client_connection c update_count s = (
  if c.is_open then record c { is_open = false } else c,
  if update_count
      then (if ltb 0 s.active_connections
          then record s { active_connections = s.active_connections - 1 }
          else s)
      else s,
)

-- The end of a session: the client, the server and what was handed to `send_full`.
pub record Ended : Type 0 where
  pub client : Client
  pub server : Server
  pub handed : List Message

abbrev close_with : Server → Client → List Message → Ended
close_with s c handed =
    let closed = close_client_connection c true s in
    record { client = closed.0; server = closed.1; handed = handed }

-- `given` is whether `malloc` gives the buffer, `greeted` whether the welcome could be sent, and
-- `time` the time of the check of the rate limit. A fault of the rate limiter is `none` too.
unfoldable pub handle_client :
    (max connection_timeout time : ℕ) (given greeted : Bool) (welcomed_at : ℕ)
    → List Turn
    → Client
    → Server
    → Option Ended
handle_client max connection_timeout time given greeted welcomed_at ts c s =
    if not given
    then some (close_with s c [])
    else (elim (check_and_update_rate_limit max time c.ip s.limits) [
      | none ↦ none
      | some (allowed, limits) ↦
          let s' = record s { limits = limits } in
          if not allowed
          then some (close_with s' c (too_many_requests ∷ []))
          else (if not greeted
              then some (close_with s' c [])
              else (elim (session_loop connection_timeout ts
                  (record c { last_activity = welcomed_at }) (welcome ∷ [])) [
                    | none ↦ none
                    | some (c', handed) ↦ some (close_with s' c' handed)
                  ]))
    ])
