-- ===== src/Scheduler/Invariant.antt =====
-- The scheduler of kernel/scheduler.c with its threads: every interleaving of its critical sections
-- keeps the table in step with the threads.
use farou_kernel.Base.{
  ℕ, ◌+◌, ◌≤◌, ◌<◌, ◌^◌, ◌≡◌, refl, Bool, true, not, ◌&&◌, ◌||◌, Option, none, some, List, [], ◌∷◌,
  arith, ◌==◌, if◌then◌else◌, length, get_elem?, take, ◌⊎◌, Bool-cases, Option-cases, inl, inr,
}
use farou_kernel.Base.Int.{ℤ, ltb_ℤ}
use farou_kernel.Scheduler.{
  Scheduler, Created, kernel_create_thread, occupy, refused, min_priority, max_priority,
  rolled_back, filled, mark_done, with_priority, thread_runner, kernel_set_priority,
  manager_thread_entry,
}
use farou_kernel.Scheduler.Slots.{
  Tcb, invalid, running, is_running, is_active, is_invalid, count_slots, one_if, max_tasks,
  find_slot, modify, Finds, find_slot-Finds, length-modify, count_slots-modify, count_slots-lt,
  count_slots_mono,
}

-- An occupied slot of task `u`, and a running one.
abbrev pub has_tid : ℕ → Tcb → Bool
has_tid u t = is_active t && (t.tid == u)

abbrev pub runs_tid : ℕ → Tcb → Bool
runs_tid u t = is_running t && (t.tid == u)

-- How often a thread is listed.
unfoldable pub occurrences : ℕ → List ℕ → ℕ
occurrences u [] = 0
occurrences u (x ∷ xs) = one_if (x == u) + occurrences u xs

unfoldable pub without : ℕ → List ℕ → List ℕ
without u [] = []
without u (x ∷ xs) = if x == u then xs else x ∷ without u xs

occurrences-without :
    (u x : ℕ) (xs : List ℕ)
    → 0 < occurrences u xs
    → occurrences x (without u xs) + one_if (u == x) ≡ occurrences x xs
unfolding occurrences without
occurrences-without u x [] h = absurd (omega arith)
occurrences-without u x (y ∷ xs) h = ground (arith, occurrences-without u x xs)

-- The scheduler and the identifiers of the threads that were started and have not yet finished.
pub record System : Type 0 where
  pub sched : Scheduler
  pub threads : List ℕ

pub record Inv (s : System) : Type 0 where
  pub slots : length s.sched.task_list ≡ max_tasks
  pub counted : s.sched.task_count ≡ count_slots is_active s.sched.task_list
  pub next_pos : 0 < s.sched.next_tid
  pub unique : (u : ℕ) → count_slots (has_tid u) s.sched.task_list ≤ 1
  pub unused : (u : ℕ) → s.sched.next_tid ≤ u → count_slots (has_tid u) s.sched.task_list ≡ 0
  pub no_zero : count_slots (has_tid 0) s.sched.task_list ≡ 0
  pub in_step : (u : ℕ) → occurrences u s.threads ≡ count_slots (runs_tid u) s.sched.task_list

abbrev pub started_threads : Created → List ℕ → List ℕ
started_threads c threads = elim c.started [ none ↦ threads | some a ↦ a.tid ∷ threads ]

-- One critical section. A new identifier must not have wrapped round.
pub data Step : System → System → Type 0 where
  create :
      (s : System) (priority : ℤ) (name : List ℕ) (entry : ℕ) (allocated : Bool) (handle : Option ℕ)
      → s.sched.next_tid + 1 < 2 ^ 32
      → Step s (record {
        sched = (kernel_create_thread priority name entry allocated handle s.sched).sched;
        threads =
            started_threads
              (kernel_create_thread priority name entry allocated handle s.sched)
              s.threads;
      })
  finish :
      (s : System) (u : ℕ)
      → 0 < occurrences u s.threads
      → Step s (record { sched = (thread_runner u s.sched).1; threads = without u s.threads })
  set_priority :
      (s : System) (u : ℕ) (priority : ℤ)
      → Step s (record s { sched = kernel_set_priority u priority s.sched })
  manage :
      (s : System) (rand : ℕ → ℕ) → Step s (record s { sched = manager_thread_entry rand s.sched })

module _ (s : System) (v : Inv s) (i : ℕ) (t : Tcb) where
  -- How a write to slot `i` changes the number of slots that pass a test.
  changes :
      (p : Tcb → Bool) (f : Tcb → Tcb)
      → get_elem? s.sched.task_list i ≡ some t
      → count_slots p (modify i f s.sched.task_list) + one_if (p t)
        ≡ count_slots p s.sched.task_list + one_if (p (f t))
  changes p f slot = count_slots-modify p f i s.sched.task_list t slot

  -- A free slot is found, and the thread starts or not.
  occupy-Inv :
      (priority : ℤ) (name : List ℕ) (entry : ℕ) (handle : Option ℕ)
      → get_elem? s.sched.task_list i ≡ some t
      → is_invalid t ≡ true
      → s.sched.next_tid + 1 < 2 ^ 32
      → Inv (record {
        sched = (occupy i priority name entry handle s.sched).sched;
        threads = started_threads (occupy i priority name entry handle s.sched) s.threads;
      })
  unfolding occupy occurrences
  occupy-Inv priority name entry none slot free small =
      let f = rolled_back s.sched.next_tid priority (take 31 name) in
      let vacant : t.state ≡ invalid = ground arith in
      record {
        slots = omega (arith, v.slots, length-modify i f s.sched.task_list);
        counted = ground (arith, vacant, v.counted, changes is_active f slot);
        next_pos = omega (arith, v.next_pos);
        unique = λ u. ground (arith, vacant, v.unique u, changes (has_tid u) f slot);
        unused = λ u h. ground (arith, vacant, v.unused u, changes (has_tid u) f slot);
        no_zero = ground (arith, vacant, v.no_zero, changes (has_tid 0) f slot);
        in_step = λ u. ground (arith, vacant, v.in_step u, changes (runs_tid u) f slot);
      }
  occupy-Inv priority name entry (some h) slot free small =
      let f = filled h s.sched.next_tid priority (take 31 name) in
      let vacant : t.state ≡ invalid = ground arith in
      record {
        slots = omega (arith, v.slots, length-modify i f s.sched.task_list);
        counted = ground (arith, vacant, v.counted, changes is_active f slot);
        next_pos = omega (arith, v.next_pos);
        unique = λ u. ground (arith, vacant, v.unique u, v.unused u, changes (has_tid u) f slot);
        unused = λ u h. ground (arith, vacant, v.unused u, changes (has_tid u) f slot);
        no_zero = ground (arith, vacant, v.next_pos, v.no_zero, changes (has_tid 0) f slot);
        in_step = λ u. ground (arith, vacant, v.in_step u, changes (runs_tid u) f slot);
      }

  finish-Inv :
      (u : ℕ)
      → get_elem? s.sched.task_list i ≡ some t
      → has_tid u t ≡ true
      → is_running t ≡ true
      → 0 < occurrences u s.threads
      → Inv (record {
        sched = record s.sched { task_list = modify i mark_done s.sched.task_list };
        threads = without u s.threads;
      })
  finish-Inv u slot match run listed =
      let alive : t.state ≡ running = ground arith in
      record {
        slots = omega (arith, v.slots, length-modify i mark_done s.sched.task_list);
        counted = ground (arith, alive, v.counted, changes is_active mark_done slot);
        next_pos = v.next_pos;
        unique = λ x. ground (arith, alive, v.unique x, changes (has_tid x) mark_done slot);
        unused = λ x h. ground (arith, alive, v.unused x, changes (has_tid x) mark_done slot);
        no_zero = ground (arith, alive, v.no_zero, changes (has_tid 0) mark_done slot);
        in_step = λ x. ground (
          arith,
          alive,
          v.in_step x,
          changes (runs_tid x) mark_done slot,
          occurrences-without u x s.threads,
        );
      }

  pub set_priority-Inv :
      (priority : ℤ)
      → get_elem? s.sched.task_list i ≡ some t
      → Inv (record s {
        sched = record s.sched { task_list = modify i (with_priority priority) s.sched.task_list };
      })
  set_priority-Inv priority slot =
      let f = with_priority priority in
      record {
        slots = omega (arith, v.slots, length-modify i f s.sched.task_list);
        counted = omega (arith, v.counted, changes is_active f slot);
        next_pos = v.next_pos;
        unique = λ x. omega (arith, v.unique x, changes (has_tid x) f slot);
        unused = λ x h. omega (arith, v.unused x h, changes (has_tid x) f slot);
        no_zero = omega (arith, v.no_zero, changes (has_tid 0) f slot);
        in_step = λ x. omega (arith, v.in_step x, changes (runs_tid x) f slot);
      }

abbrev pub CreateCases : ℤ → List ℕ → ℕ → Bool → Option ℕ → Scheduler → Type 0
CreateCases priority name entry allocated handle s =
    (kernel_create_thread priority name entry allocated handle s ≡ refused s)
    ⊎ ((i : ℕ) × (find_slot is_invalid s.task_list ≡ some i)
        × (kernel_create_thread priority name entry allocated handle s
            ≡ occupy i priority name entry handle s))

pub create_cases :
    (priority : ℤ) (name : List ℕ) (entry : ℕ) (allocated : Bool) (handle : Option ℕ)
    (s : Scheduler)
    → CreateCases priority name entry allocated handle s
unfolding kernel_create_thread
create_cases priority name entry allocated handle s =
    elim (Bool-cases (ltb_ℤ priority min_priority || ltb_ℤ max_priority priority)) [
      | inl bad ↦ inl (rw bad)
      | inr good ↦ elim (Bool-cases (not allocated)) [
        | inl lacking ↦ inl (rw (good, lacking))
        | inr got ↦ elim (Option-cases (find_slot is_invalid s.task_list)) [
          | inl full ↦ inl (rw (good, got) (rw full))
          | inr (i, slot) ↦ inr (i, slot, rw (good, got) (rw slot))
        ]
      ]
    ]

pub runs-le-has : (u : ℕ) (t : Tcb) → one_if (runs_tid u t) ≤ one_if (has_tid u t)
runs-le-has u t = ground arith

module _ (s : System) (v : Inv s) where
  pub create-Inv :
      (priority : ℤ) (name : List ℕ) (entry : ℕ) (allocated : Bool) (handle : Option ℕ)
      → s.sched.next_tid + 1 < 2 ^ 32
      → Inv (record {
        sched = (kernel_create_thread priority name entry allocated handle s.sched).sched;
        threads =
            started_threads
              (kernel_create_thread priority name entry allocated handle s.sched)
              s.threads;
      })
  create-Inv priority name entry allocated handle small =
      elim (create_cases priority name entry allocated handle s.sched) [
        | inl e ↦ rw e v
        | inr (i, slot, e) ↦
            let (t, at, free) : Finds is_invalid s.sched.task_list (some i) =
              rw slot at (find_slot-Finds is_invalid s.sched.task_list) in
            rw e (occupy-Inv s v i t priority name entry handle at free small)
      ]

  -- A thread that has not yet finished finds its own task, which is running.
  own_task :
      (u : ℕ) (r : Option ℕ)
      → 0 < occurrences u s.threads
      → Finds (has_tid u) s.sched.task_list r
      → (i : ℕ) × (t : Tcb) × (r ≡ some i)
        × (get_elem? s.sched.task_list i ≡ some t)
        × (has_tid u t ≡ true)
        × (is_running t ≡ true)
  own_task u none listed miss = absurd (
      omega (
        arith,
        miss,
        v.in_step u,
        count_slots_mono (runs_tid u) (has_tid u) s.sched.task_list (runs-le-has u),
      ))
  own_task u (some i) listed (t, slot, match) = elim (Bool-cases (is_running t)) [
    | inl run ↦ (i, t, refl, slot, match, run)
    | inr idle ↦ absurd (
        omega (
          arith,
          v.unique u,
          v.in_step u,
          count_slots-lt (runs_tid u) (has_tid u) s.sched.task_list i t (runs-le-has u) slot match
              (rw idle refl),
        ))
  ]

  runner_task :
      (u : ℕ)
      → 0 < occurrences u s.threads
      → (i : ℕ) × (t : Tcb) × (find_slot (has_tid u) s.sched.task_list ≡ some i)
        × (get_elem? s.sched.task_list i ≡ some t)
        × (has_tid u t ≡ true)
        × (is_running t ≡ true)
  runner_task u listed =
      own_task u (find_slot (has_tid u) s.sched.task_list) listed
        (find_slot-Finds (has_tid u) s.sched.task_list)

  pub runner-Inv :
      (u : ℕ)
      → 0 < occurrences u s.threads
      → ((thread_runner u s.sched).0 ≡ true)
        × Inv (record { sched = (thread_runner u s.sched).1; threads = without u s.threads })
  unfolding thread_runner
  runner-Inv u listed =
      let (i, t, found, slot, match, run) = runner_task u listed in
      rw (found, thread_runner) (refl, finish-Inv s v i t u slot match run listed)
