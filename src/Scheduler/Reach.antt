-- ===== src/Scheduler/Reach.antt =====
-- Every run of the scheduler of kernel/scheduler.c from `initialize_scheduler`, and the answer of
-- `kernel_create_thread`.
use farou_kernel.Base.{
  ℕ, ◌+◌, ◌≤◌, ◌<◌, ◌≡◌, ◌≢◌, refl, Bool, true, false, ◌||◌, Option, none, some, List, [], ◌∷◌,
  arith, length, take, get_elem?, ◌%◌, ◌^◌, Bool-cases, ◌⊎◌, inl, inr,
}
use farou_kernel.Base.Int.{ℤ, ltb_ℤ}
use farou_kernel.Scheduler.{
  Scheduler, Created, initialize_scheduler, kernel_create_thread, kernel_set_priority,
  thread_runner, min_priority, max_priority, refused, occupy, filled,
}
use farou_kernel.Scheduler.Slots.{
  Tcb, is_active, is_invalid, count_slots, one_if, max_tasks, find_slot, Finds, find_slot-Finds,
  count_slots-lt, running, get_elem?-modify_self, get_elem?-modify_ne,
}
use farou_kernel.Scheduler.Compact.{length-clear_slots}
use farou_kernel.Scheduler.Invariant.{
  System, Inv, Step, create, finish, set_priority, manage, has_tid, runs_tid, occurrences,
  create-Inv, runner-Inv, set_priority-Inv, create_cases,
}
use farou_kernel.Scheduler.Manager.{manager-Inv, count_slots-clear_slots}

priority_step-Inv :
    (s : System) (u : ℕ) (priority : ℤ) (r : Option ℕ)
    → Inv s
    → find_slot (runs_tid u) s.sched.task_list ≡ r
    → Finds (runs_tid u) s.sched.task_list r
    → Inv (record s { sched = kernel_set_priority u priority s.sched })
unfolding kernel_set_priority
priority_step-Inv s u priority none v e f = rw (e, kernel_set_priority) v
priority_step-Inv s u priority (some i) v e (t, slot, match) =
    rw (e, kernel_set_priority) (set_priority-Inv s v i t priority slot)

pub Step-Inv : {s t : System} → Step s t → Inv s → Inv t
Step-Inv (create s priority name entry allocated handle small) v =
    create-Inv s v priority name entry allocated handle small
Step-Inv (finish s u listed) v = (runner-Inv s v u listed).1
Step-Inv (set_priority s u priority) v =
    priority_step-Inv s u priority _ v refl (find_slot-Finds (runs_tid u) s.sched.task_list)
Step-Inv (manage s rand) v = manager-Inv s rand v

pub data Reach (s : System) : System → Type 0 where
  here : Reach s s
  next : {t u : System} → Reach s t → Step t u → Reach s u

-- The scheduler before its first task.
abbrev pub fresh : List Tcb → System
fresh memory = record { sched = initialize_scheduler memory; threads = [] }

fresh-Inv : (memory : List Tcb) → length memory ≡ max_tasks → Inv (fresh memory)
unfolding initialize_scheduler occurrences
fresh-Inv memory full =
    let none_of = λ (p : Tcb → Bool) (w : (t : Tcb) → one_if (p t) ≤ one_if (is_active t)).
      count_slots-clear_slots p memory w in
    record {
      slots = omega (arith, full, length-clear_slots memory);
      counted = omega (arith, none_of is_active (λ t. omega arith));
      next_pos = omega arith;
      unique = λ u. omega (arith, none_of (has_tid u) (λ t. ground arith));
      unused = λ u h. none_of (has_tid u) (λ t. ground arith);
      no_zero = none_of (has_tid 0) (λ t. ground arith);
      in_step = λ u. omega (arith, none_of (runs_tid u) (λ t. ground arith));
    }

Reach-Inv : {s t : System} → Inv s → Reach s t → Inv t
Reach-Inv v here = v
Reach-Inv v (next r st) = Step-Inv st (Reach-Inv v r)

-- In every interleaving in which `next_tid + 1` stays below 2^32 at every creation, the table counts its
-- tasks, holds no identifier in two slots, and holds a running task for exactly the threads that have
-- not finished.
pub Reach-fresh-Inv :
    (memory : List Tcb) {t : System} → length memory ≡ max_tasks → Reach (fresh memory) t → Inv t
Reach-fresh-Inv memory full r = Reach-Inv (fresh-Inv memory full) r

-- In every interleaving in which `next_tid + 1` stays below 2^32 at every creation, a thread that ends
-- finds its own task: the error message of `thread_runner` is never logged.
pub thread_runner_finds :
    (memory : List Tcb) {t : System} (u : ℕ)
    → length memory ≡ max_tasks
    → Reach (fresh memory) t
    → 0 < occurrences u t.threads
    → (thread_runner u t.sched).0 ≡ true
thread_runner_finds memory {t} u full r listed =
    (runner-Inv t (Reach-fresh-Inv memory full r) u listed).0

count_slots-invalid :
    (ts : List Tcb) → count_slots is_invalid ts + count_slots is_active ts ≡ length ts
unfolding count_slots
count_slots-invalid [] = refl
count_slots-invalid (t ∷ ts) = ground (arith, count_slots-invalid ts)

free_slot :
    (s : System) (r : Option ℕ)
    → Inv s
    → s.sched.task_count < max_tasks
    → Finds is_invalid s.sched.task_list r
    → (i : ℕ) × (r ≡ some i)
free_slot s none v room full =
    absurd (omega (arith, full, v.slots, v.counted, count_slots-invalid s.sched.task_list))
free_slot s (some i) v room at = (i, refl)

-- What a successful creation leaves: it answers the next identifier, which its start arguments hold; the
-- task stands, running, in a slot that was free; all other slots are as before; and it is counted.
pub record Starts (s : Scheduler) (priority : ℤ) (name : List ℕ) (entry handle : ℕ) (c : Created)
    : Type 0 where
  pub answer : c.tid ≡ s.next_tid
  pub nonzero : c.tid ≢ 0
  pub args : c.started ≡ some (record { tid = s.next_tid; entry = entry; name = take 31 name })
  pub counted : c.sched.task_count ≡ s.task_count + 1
  pub advanced : c.sched.next_tid ≡ (s.next_tid + 1) % 2 ^ 32
  pub index : ℕ
  pub vacant : Tcb
  pub was_free : (get_elem? s.task_list index ≡ some vacant) × (is_invalid vacant ≡ true)
  pub slot :
      get_elem? c.sched.task_list index
      ≡ some (record {
        tid = s.next_tid;
        pthread_handle = handle;
        state = running;
        priority = priority;
        name = take 31 name;
      })
  pub others : (j : ℕ) → j ≢ index → get_elem? c.sched.task_list j ≡ get_elem? s.task_list j

-- With a priority in range, memory for the arguments, a thread of the system and fewer than
-- `max_tasks` tasks, `kernel_create_thread` puts the task, running and with its priority, handle and the
-- first 31 bytes of its name, in a free slot and changes no other. It answers the next identifier, which
-- is not 0, counts the task, and the next identifier advances in 32 bits.
pub kernel_create_thread-Starts :
    (s : System) (priority : ℤ) (name : List ℕ) (entry handle : ℕ)
    → Inv s
    → ltb_ℤ priority min_priority ≡ false
    → ltb_ℤ max_priority priority ≡ false
    → s.sched.task_count < max_tasks
    → Starts s.sched priority name entry handle
        (kernel_create_thread priority name entry true (some handle) s.sched)
unfolding kernel_create_thread occupy
kernel_create_thread-Starts s priority name entry handle v low high room =
    let found = find_slot-Finds is_invalid s.sched.task_list in
    let (i, e) = free_slot s _ v room found in
    let (t, at, free) : Finds is_invalid s.sched.task_list (some i) = rw e at found in
    let f = filled handle s.sched.next_tid priority (take 31 name) in
    rw (low, high)
      (rw e (record {
        answer = refl;
        nonzero = omega (arith, v.next_pos);
        args = refl;
        counted = refl;
        advanced = refl;
        index = i;
        vacant = t;
        was_free = (at, free);
        slot = get_elem?-modify_self i f s.sched.task_list t at;
        others = λ j ne. get_elem?-modify_ne i f s.sched.task_list j ne;
      }))

-- A refusal changes nothing and answers 0; it happens for a priority out of range, without memory,
-- or where all slots hold tasks.
pub kernel_create_thread_refuses :
    (s : System) (priority : ℤ) (name : List ℕ) (entry : ℕ) (allocated : Bool) (handle : Option ℕ)
    → Inv s
    → ((ltb_ℤ priority min_priority || ltb_ℤ max_priority priority) ≡ true)
      ⊎ (allocated ≡ false)
      ⊎ (s.sched.task_count ≡ max_tasks)
    → kernel_create_thread priority name entry allocated handle s.sched ≡ refused s.sched
unfolding kernel_create_thread
kernel_create_thread_refuses s priority name entry allocated handle v (inl bad) = rw bad
kernel_create_thread_refuses s priority name entry allocated handle v (inr (inl lacking)) =
    elim (Bool-cases (ltb_ℤ priority min_priority || ltb_ℤ max_priority priority)) [
      | inl bad ↦ rw bad
      | inr good ↦ rw (good, lacking)
    ]
kernel_create_thread_refuses s priority name entry allocated handle v (inr (inr full)) =
    elim (create_cases priority name entry allocated handle s.sched) [
      | inl e ↦ e
      | inr (i, slot, e) ↦
          let (t, at, free) : Finds is_invalid s.sched.task_list (some i) =
            rw slot at (find_slot-Finds is_invalid s.sched.task_list) in
          let some_free =
            count_slots-lt (λ t. false) is_invalid s.sched.task_list i t (λ t. omega arith) at free
              refl in
          absurd (
            omega
              (arith, some_free, full, v.slots, v.counted, count_slots-invalid s.sched.task_list))
    ]
