-- ===== src/Network/Limiter.antt =====
-- The rate limiter of net/network.c: `check_and_update_rate_limit`.
-- An address is the list of its bytes, without the terminating NUL; a time is a number of seconds.
-- `rate_limit_mutex` is held through the body, so a call is one step; `none` is an access outside the
-- table. A count is a number: 2^31 requests within the window would be needed to overflow it.
pub mod State
pub mod Sweep
pub mod Walk
pub mod Policy
use farou_kernel.Base.{
  ℕ, zero, suc, ◌+◌, ◌-◌, ◌*◌, ◌%◌, ◌^◌, ◌≤◌, ◌<◌, ◌≡◌, Bool, true, false, not, ◌&&◌, ◌||◌, Option,
  none, some, List, [], ◌∷◌, ltb, leb, ◌==◌, if◌then◌else◌, length, get_elem?, set, take,
}

abbrev pub rate_limit_window : ℕ
rate_limit_window = 60

-- `INET6_ADDRSTRLEN` of the platform's headers.
abbrev pub inet6_addrstrlen : ℕ
inet6_addrstrlen = 46

-- `rate_limit_entry_t`
pub record Entry : Type 0 where
  pub ip : List ℕ
  pub first_request_time : ℕ
  pub request_count : ℕ

-- The rate-limit fields of `thread_pool_t`.
pub record RateLimits : Type 0 where
  pub rate_limits : List Entry
  pub rate_limit_size : ℕ
  pub rate_limit_capacity : ℕ

-- `strcmp` is 0.
abbrev pub same_string : List ℕ → List ℕ → Bool
same_string [] [] = true
same_string [] (y ∷ ys) = false
same_string (x ∷ xs) [] = false
same_string (x ∷ xs) (y ∷ ys) = (x == y) && same_string xs ys

abbrev pub is_expired : ℕ → Entry → Bool
is_expired current_time e = ltb (e.first_request_time + rate_limit_window) current_time

abbrev pub bumped : Entry → Entry
bumped e = record e { request_count = e.request_count + 1 }

-- The state of the loop; `found_idx` is `none` for -1.
pub record Scan : Type 0 where
  pub entries : List Entry
  pub write_idx : ℕ
  pub found_idx : Option ℕ
  pub allowed : Bool

abbrev pub is_none {ℓ} : {A : Type ℓ} → Option A → Bool
is_none none = true
is_none (some a) = false

-- The copy of slot `read_idx`, which holds `e`, to `write_idx`.
unfoldable pub compact : ℕ → Entry → Scan → Scan
compact read_idx e s = record s {
  entries = if read_idx == s.write_idx then s.entries else set s.entries s.write_idx e;
  write_idx = s.write_idx + 1;
}

-- One round, at slot `read_idx`, which holds `e`; `max` is `max_requests_per_minute`.
unfoldable pub visit : ℕ → ℕ → List ℕ → ℕ → Entry → Scan → Scan
visit max current_time ip read_idx e s =
    if is_expired current_time e
    then s
    else (if is_none s.found_idx && same_string e.ip ip
        then compact read_idx (bumped e) (record s {
          entries = set s.entries read_idx (bumped e);
          found_idx = some s.write_idx;
          allowed = if ltb max (e.request_count + 1) then false else s.allowed;
        })
        else compact read_idx e s)

-- `rounds` slots are left, from `read_idx` on.
unfoldable pub scan : ℕ → ℕ → List ℕ → ℕ → ℕ → Scan → Option Scan
scan max current_time ip zero read_idx s = some s
scan max current_time ip (suc rounds) read_idx s = elim (get_elem? s.entries read_idx) [
  | none ↦ none
  | some e ↦ scan max current_time ip rounds (read_idx + 1) (visit max current_time ip read_idx e s)
]

abbrev pub new_entry : ℕ → List ℕ → Entry
new_entry current_time ip = record {
  ip = take (inet6_addrstrlen - 1) ip;
  first_request_time = current_time;
  request_count = 1;
}

-- The part behind the loop: the answer and the table.
unfoldable pub admit : ℕ → List ℕ → Scan → RateLimits → Bool × RateLimits
admit current_time ip s t =
    if s.allowed && is_none s.found_idx
    then (if ltb s.write_idx t.rate_limit_capacity
        then (
          s.allowed,
          record t {
            rate_limits = set s.entries s.write_idx (new_entry current_time ip);
            rate_limit_size = s.write_idx + 1;
          },
        )
        else (s.allowed, record t { rate_limits = s.entries; rate_limit_size = s.write_idx }))
    else (s.allowed, record t { rate_limits = s.entries; rate_limit_size = s.write_idx })

abbrev pub start_scan : RateLimits → Scan
start_scan t = record { entries = t.rate_limits; write_idx = 0; found_idx = none; allowed = true }

unfoldable pub check_and_update_rate_limit :
    ℕ → ℕ → List ℕ → RateLimits → Option (Bool × RateLimits)
check_and_update_rate_limit max current_time ip t =
    elim (scan max current_time ip t.rate_limit_size 0 (start_scan t)) [
      | none ↦ none
      | some s ↦ some (admit current_time ip s t)
    ]
