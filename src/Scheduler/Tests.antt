-- ===== src/Scheduler/Tests.antt =====
-- Runs of the scheduler with an empty table and with one task, and the theorems at such inputs.
use farou_kernel.Base.{
  ◌<◌, ◌≡◌, refl, true, some, List, [], ◌∷◌, arith, replicate, length-replicate, inl,
}
use farou_kernel.Base.Int.{pos}
use farou_kernel.Scheduler.{
  Created, initialize_scheduler, clear_slots, kernel_create_thread, thread_runner,
  manager_thread_entry, reap_tasks, refused, occupy,
}
use farou_kernel.Scheduler.Slots.{Tcb, running, find_slot, modify}
use farou_kernel.Scheduler.Compact.{Reaps, reap_tasks-Reaps}
use farou_kernel.Scheduler.Invariant.{System, Inv, create, occurrences, started_threads}
use farou_kernel.Scheduler.Reach.{
  Reach, here, next, fresh, Reach-fresh-Inv, thread_runner_finds, Starts,
  kernel_create_thread-Starts, kernel_create_thread_refuses,
}

-- Memory that held something else before.
abbrev stale : Tcb
stale = record { tid = 7; pthread_handle = 0; state = running; priority = pos 3; name = [] }

abbrev memory : List Tcb
memory = replicate 64 stale

abbrev start : System
start = fresh memory

abbrev created : Created
created = kernel_create_thread (pos 90) (b'H' ∷ []) 5 true (some 11) start.sched

-- The system with one task.
abbrev busy : System
busy = record { sched = created.sched; threads = started_threads created start.threads }

start-Inv : Inv start
start-Inv = Reach-fresh-Inv memory (length-replicate 64 stale) here

busy_reached : Reach start busy
unfolding initialize_scheduler
busy_reached = next here (create start (pos 90) (b'H' ∷ []) 5 true (some 11) (omega arith))

busy_listed : 0 < occurrences 1 busy.threads
unfolding occurrences kernel_create_thread initialize_scheduler find_slot occupy clear_slots
busy_listed = omega arith

first_tid : created.tid ≡ 1
unfolding kernel_create_thread initialize_scheduler find_slot clear_slots
first_tid = refl

-- The task ends and is reaped: no task is left.
reaped : (manager_thread_entry (λ k. 0) (thread_runner 1 busy.sched).1).task_count ≡ 0
unfolding manager_thread_entry thread_runner kernel_create_thread initialize_scheduler find_slot
    modify clear_slots reap_tasks
reaped = refl

Reach-fresh-Inv_example : Inv busy
Reach-fresh-Inv_example = Reach-fresh-Inv memory (length-replicate 64 stale) busy_reached

thread_runner_finds_example : (thread_runner 1 busy.sched).0 ≡ true
thread_runner_finds_example =
    thread_runner_finds memory 1 (length-replicate 64 stale) busy_reached busy_listed

kernel_create_thread-Starts_example :
    Starts start.sched
      (pos 90)
      (b'H' ∷ [])
      5
      11
      (kernel_create_thread (pos 90) (b'H' ∷ []) 5 true (some 11) start.sched)
unfolding initialize_scheduler
kernel_create_thread-Starts_example =
    kernel_create_thread-Starts start (pos 90) (b'H' ∷ []) 5 11 start-Inv refl refl (omega arith)

kernel_create_thread_refuses_example :
    kernel_create_thread (pos 120) [] 5 true (some 11) start.sched ≡ refused start.sched
kernel_create_thread_refuses_example =
    kernel_create_thread_refuses start (pos 120) [] 5 true (some 11) start-Inv (inl refl)

reap_tasks-Reaps_example : Reaps start.sched (reap_tasks start.sched)
unfolding initialize_scheduler clear_slots
reap_tasks-Reaps_example = reap_tasks-Reaps start.sched refl
