-- ===== src/Network/Queue.antt =====
-- The work queue of net/network.c: `enqueue_client` and `dequeue_client` on linked items.
-- An item's address is a number, and 0 is NULL. Each function holds `queue_mutex` while it changes the
-- queue, so it is one step; `none` is a fault, an access to memory that holds no item.
-- `enqueue_client` tests a field `queue_tail` that the structure does not have; it is read as
-- `work_queue_tail`, which the branches set.
pub mod Chain
pub mod Fifo
use farou_kernel.Base.{
  ℕ, zero, suc, ◌+◌, ◌-◌, ◌≤◌, ◌<◌, ◌≡◌, ◌≢◌, refl, Bool, true, false, not, ◌&&◌, ◌||◌, Option,
  none, some, List, [], ◌∷◌, ltb, leb, ◌==◌, if◌then◌else◌,
}
use farou_kernel.Network.Session.{Client}

-- `work_item_t`
pub record WorkItem : Type 0 where
  pub client : Client
  pub next : ℕ

-- The fields of `thread_pool_t` that are the queue, and the memory that holds the items.
pub record WorkQueue : Type 0 where
  pub items : ℕ → Option WorkItem
  pub work_queue_head : ℕ
  pub work_queue_tail : ℕ
  pub queue_size : ℕ
  pub shutdown : Bool

abbrev pub put : ℕ → Option WorkItem → (ℕ → Option WorkItem) → ℕ → Option WorkItem
put a item items b = if a == b then item else items b

-- What `enqueue_client` does: it closes the socket for lack of memory or because the server stops, it
-- waits for room, or it queues the client.
pub data Enqueued : Type 0 where
  rejected : Enqueued
  waiting : Enqueued
  queued : Enqueued

abbrev fresh_client : ℕ → Client → Client
fresh_client now c = record c { last_activity = now; request_count = 0 }

-- `tail->next = item`
abbrev pub link : ℕ → ℕ → (ℕ → Option WorkItem) → Option (ℕ → Option WorkItem)
link tail item items = elim (items tail) [
  | none ↦ none
  | some i ↦ some (put tail (some (record i { next = item })) items)
]

-- The item is added at the end.
unfoldable pub add_item : ℕ → Client → WorkQueue → Option WorkQueue
add_item a c q =
    let stored = put a (some (record { client = c; next = 0 })) q.items in
    if q.work_queue_tail == 0
    then some (record q {
      items = stored;
      work_queue_head = a;
      work_queue_tail = a;
      queue_size = q.queue_size + 1;
    })
    else (elim (link q.work_queue_tail a stored) [
      | none ↦ none
      | some linked ↦
          some (record q { items = linked; work_queue_tail = a; queue_size = q.queue_size + 1 })
    ])

-- `item` is what `malloc` gives.
unfoldable pub enqueue_client :
    ℕ → ℕ → Option ℕ → Client → WorkQueue → Option (Enqueued × WorkQueue)
enqueue_client max_queue_size now none c q = some (rejected, q)
enqueue_client max_queue_size now (some a) c q =
    if leb max_queue_size q.queue_size && not q.shutdown
    then some (waiting, q)
    else (if q.shutdown then some (rejected, q) else (elim (add_item a (fresh_client now c) q) [
      | none ↦ none
      | some q' ↦ some (queued, q')
    ]))

abbrev pub removed : WorkQueue → WorkItem → WorkQueue
removed q i = record q {
  items = put q.work_queue_head none q.items;
  work_queue_head = i.next;
  work_queue_tail = if i.next == 0 then 0 else q.work_queue_tail;
  queue_size = q.queue_size - 1;
}

-- The client taken, if any, and the queue.
unfoldable pub dequeue_client : WorkQueue → Option (Option Client × WorkQueue)
dequeue_client q =
    if (q.queue_size == 0) || (q.work_queue_head == 0)
    then some (none, q)
    else (elim (q.items q.work_queue_head) [
      | none ↦ none
      | some i ↦ some (some i.client, removed q i)
    ])
