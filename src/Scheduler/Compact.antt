-- ===== src/Scheduler/Compact.antt =====
-- `reap_tasks` of kernel/scheduler.c: the compacting loop keeps the running tasks, in order.
use mathlib.Core.List.{append_assoc, append-nil}
use native.Mathlib.Nat.{add-zero, zero-add, add_assoc}
use farou_kernel.Base.{
  ℕ, zero, suc, ◌+◌, ◌-◌, ◌%◌, ◌^◌, ◌≡◌, refl, ap, ◌∙◌, true, false, some, List, [], ◌∷◌, ◌++◌,
  arith, ◌==◌, if◌then◌else◌, length, length-append, get_elem?, set, Bool-cases, inl, inr,
}
use farou_kernel.Scheduler.{
  Scheduler, Reap, reap_slot, reap_loop, clear_slots, clear_from, reap_tasks,
}
use farou_kernel.Scheduler.Slots.{Tcb, is_running, is_done, count_slots, one_if, max_tasks}

-- The running tasks of a table, in the order of their slots.
unfoldable pub live : List Tcb → List Tcb
live [] = []
live (t ∷ ts) = if is_running t then t ∷ live ts else live ts

get_elem?-append :
    (a : List Tcb) (t : Tcb) (b : List Tcb) (n : ℕ)
    → n ≡ length a
    → get_elem? (a ++ t ∷ b) n ≡ some t
get_elem?-append [] t b n e = rw e
get_elem?-append (x ∷ a) t b zero e = absurd (omega arith)
get_elem?-append (x ∷ a) t b (suc n) e = get_elem?-append a t b n (omega arith)

set-append : (a : List Tcb) (x t : Tcb) (b : List Tcb) → set (a ++ x ∷ b) (length a) t ≡ a ++ t ∷ b
set-append [] x t b = refl
set-append (y ∷ a) x t b = rw (set-append a x t b)

-- The table while the loop runs: what is written, the gap, and what is still to be read.
abbrev table : List Tcb → List Tcb → List Tcb → ℕ → Reap
table a gap rest k = record { slots = a ++ (gap ++ rest); write_idx = length a; reaped = k }

reap_slot-running :
    (a gap rest : List Tcb) (t : Tcb) (k : ℕ)
    → is_running t ≡ true
    → (gap' : List Tcb) × (length gap' ≡ length gap)
      × (reap_slot (length a + length gap) t (table a gap (t ∷ rest) k)
          ≡ table (a ++ t ∷ []) gap' rest k)
unfolding reap_slot
reap_slot-running a [] rest t k run =
    let here : (length a + 0 == length a) ≡ true = ground arith in
    let more : length (a ++ t ∷ []) ≡ length a + 1 = omega (arith, length-append a (t ∷ [])) in
    ([], refl, rw (run, here, append_assoc a (t ∷ []) rest, more))
reap_slot-running a (x ∷ gap) rest t k run =
    let apart : (length a + suc (length gap) == length a) ≡ false = ground arith in
    let more : length (a ++ t ∷ []) ≡ length a + 1 = omega (arith, length-append a (t ∷ [])) in
    (
      gap ++ t ∷ [],
      omega (arith, length-append gap (t ∷ [])),
      rw (
        run,
        apart,
        append_assoc a (t ∷ []) ((gap ++ t ∷ []) ++ rest),
        append_assoc gap (t ∷ []) rest,
        set-append a x t (gap ++ t ∷ rest),
        more,
      ),
    )

reap_slot-idle :
    (a gap rest : List Tcb) (t : Tcb) (k n : ℕ)
    → is_running t ≡ false
    → reap_slot n t (table a gap (t ∷ rest) k)
      ≡ table a (gap ++ t ∷ []) rest (k + one_if (is_done t))
unfolding reap_slot
reap_slot-idle a gap rest t k n idle = elim (Bool-cases (is_done t)) [
  | inl d ↦ rw (idle, d, append_assoc gap (t ∷ []) rest)
  | inr u ↦ rw (idle, u, append_assoc gap (t ∷ []) rest, add-zero)
]

unroll :
    (m n : ℕ) (t : Tcb) (r : Reap)
    → get_elem? r.slots n ≡ some t
    → reap_loop (suc m) n r ≡ reap_loop m (n + 1) (reap_slot n t r)
unfolding reap_loop
unroll m n t r e = rw (e, reap_loop)

read-table :
    (a gap rest : List Tcb) (t : Tcb) (n : ℕ)
    → n ≡ length a + length gap
    → get_elem? (a ++ (gap ++ t ∷ rest)) n ≡ some t
read-table a gap rest t n e =
    rw (← append_assoc a gap (t ∷ rest))
      (get_elem?-append (a ++ gap) t rest n (omega (arith, length-append a gap)))

-- What the loop leaves: the running tasks behind `a`, then slots of no interest.
abbrev compacted : List Tcb → List Tcb → List Tcb → ℕ → Reap
compacted a rest g k = record {
  slots = (a ++ live rest) ++ g;
  write_idx = length (a ++ live rest);
  reaped = k + count_slots is_done rest;
}

abbrev Compacts : List Tcb → List Tcb → List Tcb → ℕ → ℕ → Type 0
Compacts a gap rest k n =
    (g : List Tcb) × (length a + length gap + length rest ≡ length (a ++ live rest) + length g)
    × (reap_loop (length rest) n (table a gap rest k) ≡ compacted a rest g k)

Compacts-running :
    (a gap gap' rest : List Tcb) (t : Tcb) (k n : ℕ)
    → is_running t ≡ true
    → n ≡ length a + length gap
    → length gap' ≡ length gap
    → reap_slot n t (table a gap (t ∷ rest) k) ≡ table (a ++ t ∷ []) gap' rest k
    → Compacts (a ++ t ∷ []) gap' rest k (n + 1)
    → Compacts a gap (t ∷ rest) k n
unfolding live count_slots
Compacts-running a gap gap' rest t k n run e l step (g, len, h) =
    let idle : is_done t ≡ false = ground arith in
    let same : (a ++ t ∷ []) ++ live rest ≡ a ++ t ∷ live rest =
      append_assoc a (t ∷ []) (live rest) in
    (
      g,
      rw run (omega (arith, len, ap length same, length-append a (t ∷ []))),
      unroll (length rest) n t _ (read-table a gap rest t n e)
          ∙ (ap (reap_loop (length rest) (n + 1)) step ∙ h)
          ∙ simp (run, idle, same, zero-add) refl,
    )

Compacts-idle :
    (a gap rest : List Tcb) (t : Tcb) (k n : ℕ)
    → is_running t ≡ false
    → n ≡ length a + length gap
    → Compacts a (gap ++ t ∷ []) rest (k + one_if (is_done t)) (n + 1)
    → Compacts a gap (t ∷ rest) k n
unfolding live count_slots
Compacts-idle a gap rest t k n idle e (g, len, h) = (
  g,
  rw idle (omega (arith, len, length-append gap (t ∷ []))),
  unroll (length rest) n t _ (read-table a gap rest t n e)
      ∙ (ap (reap_loop (length rest) (n + 1)) (reap_slot-idle a gap rest t k n idle) ∙ h)
      ∙ simp (idle, add_assoc) refl,
)

reap_loop-Compacts :
    (rest a gap : List Tcb) (k n : ℕ) → n ≡ length a + length gap → Compacts a gap rest k n
unfolding reap_loop live count_slots
reap_loop-Compacts [] a gap k n e =
    (gap, simp append-nil (omega arith), simp (append-nil, add-zero))
reap_loop-Compacts (t ∷ rest) a gap k n e = elim (Bool-cases (is_running t)) [
  | inl run ↦
      let (gap', l, step) = reap_slot-running a gap rest t k run in
      Compacts-running a gap gap' rest t k n run e l (rw e step) (
        reap_loop-Compacts rest (a ++ t ∷ []) gap' k (n + 1)
          (omega (arith, length-append a (t ∷ []))))
  | inr idle ↦ Compacts-idle a gap rest t k n idle e (
      reap_loop-Compacts rest a (gap ++ t ∷ []) (k + one_if (is_done t)) (n + 1)
        (omega (arith, length-append gap (t ∷ []))))
]

pub length-clear_slots : (ts : List Tcb) → length (clear_slots ts) ≡ length ts
unfolding clear_slots
length-clear_slots [] = refl
length-clear_slots (t ∷ ts) = omega (arith, length-clear_slots ts)

clear_from-zero : (ts : List Tcb) → clear_from 0 ts ≡ clear_slots ts
unfolding clear_from clear_slots
clear_from-zero [] = refl
clear_from-zero (t ∷ ts) = rw (clear_from-zero ts)

clear_from-append : (a g : List Tcb) → clear_from (length a) (a ++ g) ≡ a ++ clear_slots g
unfolding clear_from
clear_from-append [] g = clear_from-zero g
clear_from-append (t ∷ a) g = rw (clear_from-append a g)

-- What `reap_tasks` leaves: the running tasks in their order, then cleared slots, and a count less
-- by the tasks that were done.
abbrev pub Reaps : Scheduler → Scheduler → Type 0
Reaps s s' =
    (g : List Tcb) × (length (live s.task_list) + length g ≡ max_tasks)
    × (s' ≡ record s {
      task_list = live s.task_list ++ clear_slots g;
      task_count = (s.task_count + 2 ^ 64 - count_slots is_done s.task_list) % 2 ^ 64;
    })

Compacts-Reaps :
    (s : Scheduler)
    → length s.task_list ≡ max_tasks
    → Compacts [] [] s.task_list 0 0
    → Reaps s (reap_tasks s)
unfolding reap_tasks
Compacts-Reaps s full (g, len, h) =
    let all : reap_loop 64 0 (table [] [] s.task_list 0) ≡ compacted [] s.task_list g 0 =
      rw full at h in
    (g, omega (arith, len, full), rw (all, clear_from-append (live s.task_list) g, zero-add))

-- On a table of `max_tasks` slots, `reap_tasks` leaves the running tasks in the order of their slots,
-- then cleared slots, and takes the finished tasks off the count.
pub reap_tasks-Reaps : (s : Scheduler) → length s.task_list ≡ max_tasks → Reaps s (reap_tasks s)
reap_tasks-Reaps s full = Compacts-Reaps s full (reap_loop-Compacts s.task_list [] [] 0 0 refl)
