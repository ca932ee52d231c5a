-- ===== src/Network/Session/Serve.antt =====
-- What a session of net/network.c leaves behind, on every path.
use farou_kernel.Base.{
  ℕ, suc, ◌+◌, ◌-◌, ◌≡◌, refl, ap, ◌∙◌, Bool, true, false, not, ◌||◌, Option, none, some, List, [],
  ◌∷◌, ◌++◌, ltb, if◌then◌else◌, arith, Bool-cases, inl, inr,
}
use farou_kernel.Network.Limiter.{RateLimits, check_and_update_rate_limit}
use farou_kernel.Network.Limiter.Policy.{Fits, Enforces, check_and_update_rate_limit-Enforces}
use farou_kernel.Network.Wire.{RecvStatus, recv_ok, recv_eof, recv_timeout, recv_error}
use farou_kernel.Network.Session.{
  Client, Server, Message, too_many_requests, welcome, timeout_notice, answered, Turn, active,
  is_goodbye, reply_to, session_loop, on_status, close_client_connection, Ended, handle_client,
}

-- How many messages are answers, and how many of them say goodbye.
unfoldable pub answers : List Message → ℕ
answers [] = 0
answers (answered a ∷ ms) = suc (answers ms)
answers (_ ∷ ms) = answers ms

-- The connection is lost or closed.
abbrev pub is_lost : RecvStatus → Bool
is_lost recv_error = true
is_lost recv_eof = true
is_lost recv_ok = false
is_lost recv_timeout = false

-- Some turn ends the session, as the server stops or the connection is lost.
abbrev pub any_last : List Turn → Bool
any_last [] = false
any_last (t ∷ ts) = not t.server_running || (is_lost t.status || any_last ts)

-- The loop ends by the first turn that ends a session, and one answer for every request was handed to `send_full`.
abbrev pub Loops : List Turn → Client → List Message → Option (Client × List Message) → Type 0
Loops ts c handed none = any_last ts ≡ false
Loops ts c handed (some (c', handed')) =
    (answers handed' + c.request_count ≡ answers handed + c'.request_count)
    × (c'.is_open ≡ c.is_open)

answers-append : (a b : List Message) → answers (a ++ b) ≡ answers a + answers b
unfolding answers
answers-append [] b = omega arith
answers-append (answered x ∷ a) b = omega (arith, answers-append a b)
answers-append (too_many_requests ∷ a) b = answers-append a b
answers-append (welcome ∷ a) b = answers-append a b
answers-append (timeout_notice ∷ a) b = answers-append a b

-- The same in a turn of a running server, where `recv_full` has answered `status`.
abbrev LoopsAt :
    RecvStatus → List Turn → Client → List Message → Option (Client × List Message) → Type 0
LoopsAt status ts c handed none = (is_lost status || any_last ts) ≡ false
LoopsAt status ts c handed (some (c', handed')) =
    (answers handed' + c.request_count ≡ answers handed + c'.request_count)
    × (c'.is_open ≡ c.is_open)

module _ (ts : List Turn) (c : Client) (handed : List Message) where
  on_status-LoopsAt :
      (status : RecvStatus) (request again : Option (Client × List Message))
      → Loops ts c handed request
      → Loops ts c handed again
      → LoopsAt status ts c handed (on_status status request again (some (c, handed)))
  on_status-LoopsAt recv_ok none again r a = r
  on_status-LoopsAt recv_ok (some (c', handed')) again r a = r
  on_status-LoopsAt recv_timeout request none r a = a
  on_status-LoopsAt recv_timeout request (some (c', handed')) r a = a
  on_status-LoopsAt recv_error request again r a = (refl, refl)
  on_status-LoopsAt recv_eof request again r a = (refl, refl)

  -- A request whose answer was handed over.
  more-Loops :
      (t : Turn) (r : Option (Client × List Message))
      → Loops ts (active t c) (handed ++ answered (reply_to t) ∷ []) r
      → Loops ts c handed r
  unfolding answers
  more-Loops t none h = h
  more-Loops t (some (c', handed')) h =
      (omega (arith, h.0, answers-append handed (answered (reply_to t) ∷ [])), h.1)

  lift_running :
      (t : Turn) (r : Option (Client × List Message))
      → t.server_running ≡ true
      → LoopsAt t.status ts c handed r
      → Loops (t ∷ ts) c handed r
  lift_running t none run h = ap (λ b. not b || (is_lost t.status || any_last ts)) run ∙ h
  lift_running t (some (c', handed')) run h = h

request-Loops :
    (timeout : ℕ) (t : Turn) (ts : List Turn) (c : Client) (handed : List Message)
    → Loops ts
        (active t c)
        (handed ++ answered (reply_to t) ∷ [])
        (session_loop timeout ts (active t c) (handed ++ answered (reply_to t) ∷ []))
    → Loops ts c handed (
        if is_goodbye (reply_to t)
        then some (active t c, handed ++ answered (reply_to t) ∷ [])
        else session_loop timeout ts (active t c) (handed ++ answered (reply_to t) ∷ []))
unfolding answers
request-Loops timeout t ts c handed rest = elim (Bool-cases (is_goodbye (reply_to t))) [
  | inl b ↦ rw b (omega (arith, answers-append handed (answered (reply_to t) ∷ [])), refl)
  | inr b ↦ rw b (more-Loops ts c handed t _ rest)
]

session_loop-Loops :
    (timeout : ℕ) (ts : List Turn) (c : Client) (handed : List Message)
    → Loops ts c handed (session_loop timeout ts c handed)
unfolding session_loop answers
session_loop-Loops timeout [] c handed = refl
session_loop-Loops timeout (t ∷ ts) c handed =
    let said = answers-append handed (timeout_notice ∷ []) in
    elim (Bool-cases t.server_running) [
      | inr stopped ↦ simp stopped (refl, refl)
      | inl run ↦ elim (Bool-cases (ltb (c.last_activity + timeout) t.now)) [
        | inl idle ↦ simp (run, idle) (omega (arith, said), refl)
        | inr busy ↦
            simp (run, busy)
              (lift_running ts c handed t _ run (
                on_status-LoopsAt ts c handed t.status _ _
                  (request-Loops timeout t ts c handed (
                    session_loop-Loops timeout ts (active t c)
                      (handed ++ answered (reply_to t) ∷ [])))
                  (session_loop-Loops timeout ts c handed)))
      ]
    ]

-- A session that ends has closed its socket, is counted off, has left the rate limiter within its
-- capacity, and has handed one answer for every request to `send_full`.
abbrev pub Serves : List Turn → Client → Server → Option Ended → Type 0
Serves ts c s none = any_last ts ≡ false
Serves ts c s (some e) =
    (e.client.is_open ≡ false)
    × (e.server.active_connections ≡ s.active_connections - 1)
    × (answers e.handed + c.request_count ≡ e.client.request_count)
    × Fits e.server.limits

closed_client :
    (c : Client) (b : Bool)
    → c.is_open ≡ b
    → ((if b then record c { is_open = false } else c).is_open ≡ false)
      × ((if b then record c { is_open = false } else c).request_count ≡ c.request_count)
closed_client c true e = (refl, refl)
closed_client c false e = (e, refl)

-- The end of a session, for whose client `c` the messages were handed to `send_full`.
close-Serves :
    (ts : List Turn) (c0 c : Client) (s0 s : Server) (handed : List Message)
    → answers handed + c0.request_count ≡ c.request_count
    → s.active_connections ≡ s0.active_connections
    → Fits s.limits
    → Serves ts c0 s0 (
        some (record {
          client = (close_client_connection c true s).0;
          server = (close_client_connection c true s).1;
          handed = handed;
        }))
unfolding close_client_connection
close-Serves ts c0 c s0 s handed count same fits =
    let (shut, requests) = closed_client c c.is_open refl in
    elim (Bool-cases (ltb 0 s.active_connections)) [
      | inl more ↦ simp more (shut, omega (arith, same), omega (arith, count, requests), fits)
      | inr none_left ↦
          simp none_left (shut, ground (arith, same), omega (arith, count, requests), fits)
    ]

module _ (max timeout time : ℕ) (greeted : Bool) (welcomed_at : ℕ) (ts : List Turn) (c : Client)
    (s : Server) where
  abbrev greeted_client : Client
  greeted_client = record c { last_activity = welcomed_at }

  abbrev with_limits : RateLimits → Server
  with_limits limits = record s { limits = limits }

  abbrev ending : Server → Client → List Message → Ended
  ending s' c' handed = record {
    client = (close_client_connection c' true s').0;
    server = (close_client_connection c' true s').1;
    handed = handed;
  }

  looped-Serves :
      (limits : RateLimits) (r : Option (Client × List Message))
      → Fits limits
      → Loops ts greeted_client (welcome ∷ []) r
      → Serves ts c s (elim r [
        | none ↦ none
        | some (c', handed) ↦ some (ending (with_limits limits) c' handed)
      ])
  unfolding answers
  looped-Serves limits none fits h = h
  looped-Serves limits (some (c', handed)) fits h =
      close-Serves ts c c' s (with_limits limits) handed (omega (arith, h.0)) refl fits

  limited-Serves :
      (r : Option (Bool × RateLimits))
      → Enforces max time c.ip s.limits r
      → Serves ts c s (elim r [
        | none ↦ none
        | some (allowed, limits) ↦
            if not allowed
            then some (ending (with_limits limits) c (too_many_requests ∷ []))
            else (if not greeted
                then some (ending (with_limits limits) c [])
                else (elim (session_loop timeout ts greeted_client (welcome ∷ [])) [
                  | none ↦ none
                  | some (c', handed) ↦ some (ending (with_limits limits) c' handed)
                ]))
      ])
  unfolding answers
  limited-Serves none h = elim h [ ]
  limited-Serves (some (allowed, limits)) h = granted allowed greeted
    where
      granted :
          (a g : Bool)
          → Serves ts c s (
              if not a
              then some (ending (with_limits limits) c (too_many_requests ∷ []))
              else (if not g
                  then some (ending (with_limits limits) c [])
                  else (elim (session_loop timeout ts greeted_client (welcome ∷ [])) [
                    | none ↦ none
                    | some (c', handed) ↦ some (ending (with_limits limits) c' handed)
                  ])))
      granted false g =
          close-Serves ts c c s (with_limits limits) (too_many_requests ∷ []) (omega arith) refl h.2
      granted true false = close-Serves ts c c s (with_limits limits) [] (omega arith) refl h.2
      granted true true =
          looped-Serves limits (session_loop timeout ts greeted_client (welcome ∷ [])) h.2
            (session_loop-Loops timeout ts greeted_client (welcome ∷ []))

  -- Whatever the host answers, a session of `handle_client` that ends has closed its socket and is
  -- counted off, on every path, and has handed one answer for every request to `send_full`, whose failures
  -- it does not look at; and it ends once the server stops or the connection is lost. The rate limiter must be within its capacity, and stays so.
  pub handle_client-Serves :
      (given : Bool)
      → Fits s.limits
      → Serves ts c s (handle_client max timeout time given greeted welcomed_at ts c s)
  unfolding handle_client answers
  handle_client-Serves false fits = close-Serves ts c c s s [] (omega arith) refl fits
  handle_client-Serves true fits =
      limited-Serves (check_and_update_rate_limit max time c.ip s.limits)
        (check_and_update_rate_limit-Enforces max time c.ip s.limits fits)
