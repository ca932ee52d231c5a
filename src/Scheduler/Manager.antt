-- ===== src/Scheduler/Manager.antt =====
-- The manager thread of kernel/scheduler.c keeps the invariant: the drift of the priorities changes
-- no count, and the reaper keeps the running tasks alone.
use farou_kernel.Base.{
  ℕ, suc, ◌+◌, ◌≤◌, ◌≡◌, refl, ap, Bool, ◌&&◌, List, [], ◌∷◌, ◌++◌, arith, if◌then◌else◌, length,
  length-append, Bool-cases, inl, inr,
}
use farou_kernel.Base.Int.{ℤ}
use farou_kernel.Scheduler.{Scheduler, drift, manager_thread_entry, clear_slots}
use farou_kernel.Scheduler.Slots.{
  Tcb, invalid, is_running, is_done, is_active, count_slots, one_if, count_slots_mono,
}
use farou_kernel.Scheduler.Compact.{live, length-clear_slots, Reaps, reap_tasks-Reaps}
use farou_kernel.Scheduler.Invariant.{System, Inv, has_tid, runs_tid, runs-le-has}

length-drift : (rand : ℕ → ℕ) (k : ℕ) (ts : List Tcb) → length (drift rand k ts) ≡ length ts
unfolding drift
length-drift rand k [] = refl
length-drift rand k (t ∷ ts) = ap suc (length-drift rand (if is_running t then k + 1 else k) ts)

count_slots-drift :
    (p : Tcb → Bool) (rand : ℕ → ℕ) (k : ℕ) (ts : List Tcb)
    → ((t : Tcb) (x : ℤ) → p (record t { priority = x }) ≡ p t)
    → count_slots p (drift rand k ts) ≡ count_slots p ts
unfolding drift count_slots
count_slots-drift p rand k [] h = refl
count_slots-drift p rand k (t ∷ ts) h = elim (Bool-cases (is_running t)) [
  | inl run ↦ rw (run, h t) (omega (arith, count_slots-drift p rand (k + 1) ts h))
  | inr idle ↦ rw idle (omega (arith, count_slots-drift p rand k ts h))
]

drift-Inv :
    (s : System) (rand : ℕ → ℕ)
    → Inv s
    → Inv (record s { sched = record s.sched { task_list = drift rand 0 s.sched.task_list } })
drift-Inv s rand v =
    let same = λ (p : Tcb → Bool). count_slots-drift p rand 0 s.sched.task_list in
    record {
      slots = omega (arith, v.slots, length-drift rand 0 s.sched.task_list);
      counted = omega (arith, v.counted, same is_active (λ t x. refl));
      next_pos = v.next_pos;
      unique = λ u. omega (arith, v.unique u, same (has_tid u) (λ t x. refl));
      unused = λ u h. omega (arith, v.unused u h, same (has_tid u) (λ t x. refl));
      no_zero = omega (arith, v.no_zero, same (has_tid 0) (λ t x. refl));
      in_step = λ u. omega (arith, v.in_step u, same (runs_tid u) (λ t x. refl));
    }

count_slots-append :
    (p : Tcb → Bool) (a b : List Tcb) → count_slots p (a ++ b) ≡ count_slots p a + count_slots p b
unfolding count_slots
count_slots-append p [] b = omega arith
count_slots-append p (t ∷ a) b = omega (arith, count_slots-append p a b)

-- A test that only active slots pass.
abbrev pub Wakes : (Tcb → Bool) → Type 0
Wakes p = (t : Tcb) → one_if (p t) ≤ one_if (is_active t)

pub count_slots-clear_slots :
    (p : Tcb → Bool) (ts : List Tcb) → Wakes p → count_slots p (clear_slots ts) ≡ 0
unfolding clear_slots count_slots
count_slots-clear_slots p [] w = refl
count_slots-clear_slots p (t ∷ ts) w =
    omega (arith, w (record t { state = invalid; tid = 0 }), count_slots-clear_slots p ts w)

count_slots-live :
    (p q : Tcb → Bool) (ts : List Tcb)
    → ((t : Tcb) → q t ≡ (is_running t && p t))
    → count_slots p (live ts) ≡ count_slots q ts
unfolding live count_slots
count_slots-live p q [] h = refl
count_slots-live p q (t ∷ ts) h = ground (arith, h t, count_slots-live p q ts h)

count_slots-active :
    (ts : List Tcb) → count_slots is_active ts ≡ count_slots is_running ts + count_slots is_done ts
unfolding count_slots
count_slots-active [] = refl
count_slots-active (t ∷ ts) = ground (arith, count_slots-active ts)

-- The number of slots that pass a test once the reaper has left.
reaped-count :
    (p q : Tcb → Bool) (ts g : List Tcb)
    → Wakes p
    → ((t : Tcb) → q t ≡ (is_running t && p t))
    → count_slots p (live ts ++ clear_slots g) ≡ count_slots q ts
reaped-count p q ts g w h = omega (
  arith,
  count_slots-append p (live ts) (clear_slots g),
  count_slots-clear_slots p g w,
  count_slots-live p q ts h,
)

count_slots-le : (p : Tcb → Bool) (ts : List Tcb) → count_slots p ts ≤ length ts
unfolding count_slots
count_slots-le p [] = omega arith
count_slots-le p (t ∷ ts) = ground (arith, count_slots-le p ts)

has_tid-Wakes : (u : ℕ) → Wakes (has_tid u)
has_tid-Wakes u t = ground arith

has_runs : (u : ℕ) (t : Tcb) → runs_tid u t ≡ (is_running t && has_tid u t)
has_runs u t = ground arith

runs_has : (u : ℕ) (ts : List Tcb) → count_slots (runs_tid u) ts ≤ count_slots (has_tid u) ts
runs_has u ts = count_slots_mono (runs_tid u) (has_tid u) ts (runs-le-has u)

Reaps-Inv : (s : System) {s' : Scheduler} → Inv s → Reaps s.sched s' → Inv (record s { sched = s' })
Reaps-Inv s v (g, len, e) =
    let ts = s.sched.task_list in
    let of = λ (p q : Tcb → Bool). reaped-count p q ts g in
    rw e (record {
      slots = omega (arith, len, length-append (live ts) (clear_slots g), length-clear_slots g);
      counted = omega (
        arith,
        v.counted,
        of is_active is_running (λ t. omega arith) (λ t. ground arith),
        count_slots-active ts,
        count_slots-le is_active ts,
        v.slots,
      );
      next_pos = v.next_pos;
      unique = λ u. omega (
        arith,
        v.unique u,
        of (has_tid u) (runs_tid u) (has_tid-Wakes u) (has_runs u),
        v.in_step u,
        runs_has u ts,
      );
      unused = λ u h. omega (
        arith,
        v.unused u h,
        of (has_tid u) (runs_tid u) (has_tid-Wakes u) (has_runs u),
        runs_has u ts,
      );
      no_zero = omega (
        arith,
        v.no_zero,
        of (has_tid 0) (runs_tid 0) (has_tid-Wakes 0) (has_runs 0),
        runs_has 0 ts,
      );
      in_step = λ u. omega (
        arith,
        v.in_step u,
        of (runs_tid u) (runs_tid u) (λ t. ground arith) (λ t. ground arith),
      );
    })

-- One turn of the manager thread keeps the invariant.
pub manager-Inv :
    (s : System) (rand : ℕ → ℕ)
    → Inv s
    → Inv (record s { sched = manager_thread_entry rand s.sched })
unfolding manager_thread_entry
manager-Inv s rand v =
    let w = drift-Inv s rand v in
    Reaps-Inv (record s { sched = record s.sched { task_list = drift rand 0 s.sched.task_list } }) w
      (reap_tasks-Reaps _ w.slots)
