-- ===== src/Network/QueueTests.antt =====
-- Runs of the work queue of net/network.c, and the theorems at such inputs.
use farou_kernel.Base.{ℕ, refl, true, false, none, some, [], ◌∷◌, arith}
use farou_kernel.Network.Session.{Client}
use farou_kernel.Network.Queue.{WorkQueue, enqueue_client, dequeue_client, put}
use farou_kernel.Network.Queue.Fifo.{
  Holds, Enqueues, Answers, enqueue_client-Enqueues, Takes, dequeue_client-Takes,
}

abbrev caller : ℕ → Client
caller n = record { ip = n ∷ []; is_open = true; last_activity = 0; request_count = 0 }

-- Two items, at the addresses 10 and 20.
abbrev two : WorkQueue
two = record {
  items =
      put 10 (some (record { client = caller 1; next = 20 }))
        (put 20 (some (record { client = caller 2; next = 0 })) (λ a. none));
  work_queue_head = 10;
  work_queue_tail = 20;
  queue_size = 2;
  shutdown = false;
}

two-Holds : Holds two ((10, caller 1) ∷ (20, caller 2) ∷ [])
two-Holds = record {
  linked = (
    refl,
    (λ e. omega arith),
    ((λ e. omega arith), tt),
    (20, refl, (refl, (λ e. omega arith), tt, (0, refl, refl))),
  );
  tail = refl;
  size = refl;
}

enqueue_client-Enqueues_example :
    Answers
      (λ r. Enqueues 100 (some 30) (caller 3) ((10, caller 1) ∷ (20, caller 2) ∷ []) r two)
      (enqueue_client 100 7 (some 30) (caller 3) two)
enqueue_client-Enqueues_example =
    enqueue_client-Enqueues 100 7 (some 30) (caller 3) two ((10, caller 1) ∷ (20, caller 2) ∷ [])
      two-Holds ((λ e. omega arith), refl)

dequeue_client-Takes_example : Takes ((10, caller 1) ∷ (20, caller 2) ∷ []) two (dequeue_client two)
dequeue_client-Takes_example =
    dequeue_client-Takes two ((10, caller 1) ∷ (20, caller 2) ∷ []) two-Holds
