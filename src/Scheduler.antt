-- ===== src/Scheduler.antt =====
-- kernel/scheduler.c: the task table, the life of a task and the reaper.
-- A name is the list of its bytes, without the terminating NUL; a 32-bit `tid` wraps. Each function
-- that takes `task_list_lock` is one step on the table.
pub mod Slots
pub mod Compact
pub mod Invariant
pub mod Manager
pub mod Reach
mod Tests
use farou_kernel.Base.{
  ℕ, zero, suc, ◌+◌, ◌-◌, ◌*◌, ◌/◌, ◌%◌, ◌^◌, ◌≤◌, ◌<◌, ◌≡◌, ◌≢◌, refl, Bool, true, false, not,
  ◌&&◌, ◌||◌, Option, none, some, List, [], ◌∷◌, arith, leb, ltb, ◌==◌, if◌then◌else◌, length,
  get_elem?, set, take,
}
use farou_kernel.Base.Int.{ℤ, pos, negsuc, ◌+ℤ◌, sub_ℕ, ltb_ℤ}
use Slots.{
  TaskState, invalid, running, finished, Tcb, is_invalid, is_active, is_running, is_done, find_slot,
  modify, max_tasks,
}

abbrev pub min_priority : ℤ
min_priority = pos 1

abbrev pub max_priority : ℤ
max_priority = pos 99

abbrev pub task_name_len : ℕ
task_name_len = 32

-- `struct Scheduler_tag`; the mutex is left out.
pub record Scheduler : Type 0 where
  pub task_list : List Tcb
  pub task_count : ℕ
  pub terminate_manager : Bool
  pub next_tid : ℕ

-- `ThreadStartArgs`: what the new thread is told. `entry` stands for the function and its argument.
pub record StartArgs : Type 0 where
  pub tid : ℕ
  pub entry : ℕ
  pub name : List ℕ

unfoldable pub clear_slots : List Tcb → List Tcb
clear_slots [] = []
clear_slots (x ∷ xs) = record x { state = invalid; tid = 0 } ∷ clear_slots xs

-- The table is given with whatever its memory held.
pub initialize_scheduler : List Tcb → Scheduler
unfolding clear_slots
initialize_scheduler memory = record {
  task_list = clear_slots memory;
  task_count = 0;
  terminate_manager = false;
  next_tid = 1;
}

-- The answer of `kernel_create_thread`: the identifier, 0 on failure, and what was started.
pub record Created : Type 0 where
  pub tid : ℕ
  pub started : Option StartArgs
  pub sched : Scheduler

abbrev pub refused : Scheduler → Created
refused s = record { tid = 0; started = none; sched = s }

-- The slot of a new task, and the slot after `pthread_create` has failed: the state alone is undone.
abbrev filled : ℕ → ℕ → ℤ → List ℕ → Tcb → Tcb
filled handle tid priority name t = record t {
  tid = tid;
  pthread_handle = handle;
  state = running;
  priority = priority;
  name = name;
}

abbrev rolled_back : ℕ → ℤ → List ℕ → Tcb → Tcb
rolled_back tid priority name t = record t {
  tid = tid;
  state = invalid;
  priority = priority;
  name = name;
}

-- The critical section, with the free slot found. `handle` is what `pthread_create` stores, `none`
-- if it fails.
unfoldable pub occupy : ℕ → ℤ → List ℕ → ℕ → Option ℕ → Scheduler → Created
occupy free_slot priority name entry handle s =
    let tid = s.next_tid in
    let next = (s.next_tid + 1) % 2 ^ 32 in
    let kept = take (task_name_len - 1) name in
    elim handle [
      | none ↦ record {
        tid = 0;
        started = none;
        sched = record s {
          task_list = modify free_slot (rolled_back tid priority kept) s.task_list;
          next_tid = next;
        };
      }
      | some h ↦ record {
        tid = tid;
        started = some (record { tid = tid; entry = entry; name = kept });
        sched = record s {
          task_list = modify free_slot (filled h tid priority kept) s.task_list;
          task_count = s.task_count + 1;
          next_tid = next;
        };
      }
    ]

-- `allocated` says whether `kmalloc` gave the start arguments.
pub kernel_create_thread : ℤ → List ℕ → ℕ → Bool → Option ℕ → Scheduler → Created
unfolding occupy
kernel_create_thread priority name entry allocated handle s =
    if ltb_ℤ priority min_priority || ltb_ℤ max_priority priority
    then refused s
    else (if not allocated then refused s else (elim (find_slot is_invalid s.task_list) [
      | none ↦ refused s
      | some free_slot ↦ occupy free_slot priority name entry handle s
    ]))

abbrev mark_done : Tcb → Tcb
mark_done t = record t { state = finished }

abbrev with_priority : ℤ → Tcb → Tcb
with_priority p t = record t { priority = p }

-- The part of `thread_runner` behind the user's function: whether the task was found, and the table.
pub thread_runner : ℕ → Scheduler → Bool × Scheduler
thread_runner tid s = elim (find_slot (λ t. is_active t && (t.tid == tid)) s.task_list) [
  | none ↦ (false, s)
  | some i ↦ (true, record s { task_list = modify i mark_done s.task_list })
]

pub kernel_set_priority : ℕ → ℤ → Scheduler → Scheduler
kernel_set_priority tid priority s =
    elim (find_slot (λ t. is_running t && (t.tid == tid)) s.task_list) [
      | none ↦ s
      | some i ↦ record s { task_list = modify i (with_priority priority) s.task_list }
    ]

-- The state of the compacting loop of `reap_tasks`.
pub record Reap : Type 0 where
  pub slots : List Tcb
  pub write_idx : ℕ
  pub reaped : ℕ

-- One round, at slot `read_idx`, which holds `t`.
reap_slot : ℕ → Tcb → Reap → Reap
reap_slot read_idx t r =
    if is_running t
    then (record r {
      slots = if read_idx == r.write_idx then r.slots else set r.slots r.write_idx t;
      write_idx = r.write_idx + 1;
    })
    else (if is_done t then record r { reaped = r.reaped + 1 } else r)

-- `rounds` slots are left, from `read_idx` on.
reap_loop : ℕ → ℕ → Reap → Reap
reap_loop zero read_idx r = r
reap_loop (suc rounds) read_idx r = elim (get_elem? r.slots read_idx) [
  | none ↦ r
  | some t ↦ reap_loop rounds (read_idx + 1) (reap_slot read_idx t r)
]

-- The loop over the slots from `write_idx` on.
clear_from : ℕ → List Tcb → List Tcb
clear_from n [] = []
clear_from zero (x ∷ xs) = record x { state = invalid; tid = 0 } ∷ clear_from zero xs
clear_from (suc n) (x ∷ xs) = x ∷ clear_from n xs

pub reap_tasks : Scheduler → Scheduler
unfolding reap_loop reap_slot clear_from
reap_tasks s =
    let r = reap_loop max_tasks 0 (record { slots = s.task_list; write_idx = 0; reaped = 0 }) in
    record s {
      task_list = clear_from r.write_idx r.slots;
      task_count = (s.task_count + 2 ^ 64 - r.reaped) % 2 ^ 64;
    }

clamp_priority : ℤ → ℤ
clamp_priority p =
    let low = if ltb_ℤ p min_priority then min_priority else p in
    if ltb_ℤ max_priority low then max_priority else low

-- The simulated priorities: `rand k` is the answer of the `k`-th call of `rand`.
drift : (ℕ → ℕ) → ℕ → List Tcb → List Tcb
drift rand k [] = []
drift rand k (t ∷ ts) =
    (if is_running t
      then record t { priority = clamp_priority (t.priority +ℤ sub_ℕ (rand k % 3) 1) }
      else t)
    ∷ drift rand (if is_running t then k + 1 else k) ts

-- One turn of the loop of `manager_thread_entry`, with the lock held.
pub manager_thread_entry : (ℕ → ℕ) → Scheduler → Scheduler
unfolding drift clamp_priority
manager_thread_entry rand s = reap_tasks (record s { task_list = drift rand 0 s.task_list })
