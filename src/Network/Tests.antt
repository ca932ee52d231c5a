-- ===== src/Network/Tests.antt =====
-- Runs of the server's parts of net/network.c, and the theorems at such inputs.
use farou_kernel.Base.{ℕ, ◌≡◌, refl, true, false, some, List, [], ◌∷◌, ◌++◌, arith}
use farou_kernel.Network.Limiter.{
  Entry, RateLimits, check_and_update_rate_limit, scan, visit, compact, admit,
}
use farou_kernel.Network.Limiter.Policy.{Enforces, check_and_update_rate_limit-Enforces}
use farou_kernel.Network.Text.{sanitize_input, is_valid_command, answer, echo, help, exit, echoed}
use farou_kernel.Network.Text.Clean.{IsClean, sanitize_input-IsClean}
use farou_kernel.Network.Wire.{
  recv_ok, Receipt, arrived, timed_out, Sending, taken, recv_full, recv_loop, send_full,
}
use farou_kernel.Network.Wire.Exchange.{Receives, recv_full-Receives}
use farou_kernel.Network.Wire.Delivery.{Delivers, send_full-Delivers}
use farou_kernel.Network.Text.{unknown_command, goodbye}
use farou_kernel.Network.Session.{Client, Server, Turn, answered, session_loop, handle_client}
use farou_kernel.Network.Session.Serve.{Serves, handle_client-Serves}

abbrev entry : ℕ → ℕ → ℕ → Entry
entry ip time count = record { ip = ip ∷ []; first_request_time = time; request_count = count }

-- Three entries in a table of four; the first has expired at time 100.
abbrev table : RateLimits
table = record {
  rate_limits = entry 1 10 5 ∷ entry 2 50 2 ∷ entry 3 60 1 ∷ entry 0 0 0 ∷ [];
  rate_limit_size = 3;
  rate_limit_capacity = 4;
}

-- The third request of the second address is one too many for two; the first entry is dropped.
too_many :
    check_and_update_rate_limit 2 100 (2 ∷ []) table
    ≡ some (
      false,
      record table {
        rate_limits = entry 2 50 3 ∷ entry 3 60 1 ∷ entry 3 60 1 ∷ entry 0 0 0 ∷ [];
        rate_limit_size = 2;
      },
    )
unfolding check_and_update_rate_limit scan visit compact admit
too_many = refl

check_and_update_rate_limit-Enforces_example :
    Enforces 2 100 (2 ∷ []) table (check_and_update_rate_limit 2 100 (2 ∷ []) table)
check_and_update_rate_limit-Enforces_example =
    check_and_update_rate_limit-Enforces 2 100 (2 ∷ []) table
      (record { room = refl; used = omega arith })

abbrev line : List ℕ
line = b' ' ∷ b'h' ∷ 7 ∷ b' ' ∷ b'\r' ∷ b'\n' ∷ []

sanitized : sanitize_input line ≡ b'h' ∷ b'?' ∷ []
unfolding sanitize_input
sanitized = refl

sanitize_input-IsClean_example : IsClean (sanitize_input line)
sanitize_input-IsClean_example = sanitize_input-IsClean line

echo_answered : answer (echo ++ b' ' ∷ b'x' ∷ []) ≡ echoed (b'x' ∷ [])
unfolding answer is_valid_command
echo_answered = refl

help_is_valid : is_valid_command help ≡ true
unfolding is_valid_command
help_is_valid = refl

abbrev receipts : List Receipt
receipts = Receipt.interrupted ∷ arrived (1 ∷ 2 ∷ []) ∷ arrived (3 ∷ 4 ∷ []) ∷ timed_out ∷ []

received : recv_full 4 receipts ≡ some (recv_ok, 1 ∷ 2 ∷ 3 ∷ [])
unfolding recv_full recv_loop
received = refl

recv_full-Receives_example : Receives 4 receipts [] (recv_full 4 receipts)
recv_full-Receives_example = recv_full-Receives 4 receipts (omega arith)

abbrev sendings : List Sending
sendings = taken 1 ∷ Sending.interrupted ∷ taken 9 ∷ []

send_full-Delivers_example :
    Delivers (1 ∷ 2 ∷ 3 ∷ []) sendings 0 (send_full (1 ∷ 2 ∷ 3 ∷ []) sendings)
send_full-Delivers_example = send_full-Delivers (1 ∷ 2 ∷ 3 ∷ []) sendings

abbrev turn : List ℕ → Turn
turn bytes = record {
  server_running = true;
  now = 105;
  status = recv_ok;
  bytes = bytes;
  received_at = 105;
}

abbrev turns : List Turn
turns = turn line ∷ turn (exit ++ b'\n' ∷ []) ∷ []

abbrev client : Client
client = record { ip = 2 ∷ []; is_open = true; last_activity = 0; request_count = 0 }

abbrev server : Server
server = record { active_connections = 1; limits = table }

-- The session ends with the request to exit.
session :
    session_loop 60 turns (record client { last_activity = 100 }) []
    ≡ some (
      record client { last_activity = 105; request_count = 2 },
      answered unknown_command ∷ answered goodbye ∷ [],
    )
unfolding session_loop sanitize_input answer is_valid_command
session = refl

handle_client-Serves_example :
    Serves turns client server (handle_client 5 60 100 true true 100 turns client server)
handle_client-Serves_example =
    handle_client-Serves 5 60 100 true 100 turns client server true
      (record { room = refl; used = omega arith })
