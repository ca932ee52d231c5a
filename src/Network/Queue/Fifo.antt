-- ===== src/Network/Queue/Fifo.antt =====
-- The linked items of the work queue of net/network.c are a queue: first in, first out.
use farou_kernel.Base.{
  ℕ, ◌+◌, ◌≤◌, ◌<◌, ◌≡◌, ◌≢◌, refl, ap, sym, ◌∙◌, subst, true, false, ◌||◌, Option, none, some,
  List, [], ◌∷◌, ◌++◌, leb, ◌==◌, if◌then◌else◌, arith, length, length-append, Bool-cases, inl, inr,
  ◌⊎◌, ne→==,
}
use farou_kernel.Network.Session.{Client}
use farou_kernel.Network.Queue.{
  WorkItem, WorkQueue, put, link, add_item, enqueue_client, dequeue_client, removed, rejected,
  waiting, queued, Enqueued,
}
use farou_kernel.Network.Queue.Chain.{
  Cell, Avoids, Linked, last_address, put_same, Linked-put, fresh-Avoids, Linked-append,
  last_address-append, last_address_nonzero,
}

-- The queue holds these cells, in order.
pub record Holds (q : WorkQueue) (l : List Cell) : Type 0 where
  pub linked : Linked q.items q.work_queue_head l
  pub tail : q.work_queue_tail ≡ last_address l
  pub size : q.queue_size ≡ length l

abbrev pub AddsTo : (WorkQueue → Type 0) → Option WorkQueue → Type 0
AddsTo P none = ⊥
AddsTo P (some q) = P q

add_item-Holds :
    (a : ℕ) (c : Client) (q : WorkQueue) (l : List Cell)
    → a ≢ 0
    → q.items a ≡ none
    → Holds q l
    → AddsTo (λ q'. Holds q' (l ++ (a, c) ∷ []) × (q'.shutdown ≡ q.shutdown)) (add_item a c q)
unfolding add_item
add_item-Holds a c q [] nz free v =
    let empty : (q.work_queue_tail == 0) ≡ true = ground (arith, v.tail) in
    simp empty (
      record {
        linked = (refl, nz, tt, (0, put_same a _ q.items, refl));
        tail = refl;
        size = omega (arith, v.size);
      },
      refl,
    )
add_item-Holds a c q (x ∷ l) nz free v =
    let item : WorkItem = record { client = c; next = 0 } in
    let stored = put a (some item) q.items in
    let out = fresh-Avoids a q.items (x ∷ l) q.work_queue_head free v.linked in
    let (items', linked, chain, _) =
      Linked-append stored l x q.work_queue_head (a, c) nz out (put_same a (some item) q.items)
        (Linked-put a (some item) q.items (x ∷ l) q.work_queue_head out v.linked) in
    let nonzero = last_address_nonzero q.items l x q.work_queue_head v.linked in
    let full : (q.work_queue_tail == 0) ≡ false =
      ne→== q.work_queue_tail 0 (λ s. nonzero (sym v.tail ∙ s)) in
    let joined : link q.work_queue_tail a stored ≡ some items' =
      ap (λ k. link k a stored) v.tail ∙ linked in
    simp full (
      subst
        (λ r.
          AddsTo (λ q'. Holds q' ((x ∷ l) ++ (a, c) ∷ []) × (q'.shutdown ≡ q.shutdown))
            (elim r [
              | none ↦ none
              | some made ↦
                  some
                    (record q { items = made; work_queue_tail = a; queue_size = q.queue_size + 1 })
            ]))
        (sym joined)
        (
          record {
            linked = chain;
            tail = sym (last_address-append (x ∷ l) (a, c));
            size = omega (arith, v.size, length-append (x ∷ l) ((a, c) ∷ []));
          },
          refl,
        ))

-- What `enqueue_client` does to a queue of these cells: without memory or with the server stopped the
-- client is rejected and the queue unchanged; at the limit it waits; and else it is the last.
abbrev pub Enqueues : ℕ → Option ℕ → Client → List Cell → Enqueued × WorkQueue → WorkQueue → Type 0
Enqueues max item c l (rejected, q') q = (q' ≡ q) × ((item ≡ none) ⊎ (q.shutdown ≡ true))
Enqueues max item c l (waiting, q') q = (q' ≡ q) × (max ≤ length l) × (q.shutdown ≡ false)
Enqueues max item c l (queued, q') q =
    (a : ℕ) × (d : Client) × (item ≡ some a)
    × (d.ip ≡ c.ip)
    × (d.request_count ≡ 0)
    × (length l < max)
    × Holds q' (l ++ (a, d) ∷ [])

abbrev pub Answers : (Enqueued × WorkQueue → Type 0) → Option (Enqueued × WorkQueue) → Type 0
Answers P none = ⊥
Answers P (some r) = P r

-- An address that `malloc` gives: not NULL, and of no item.
abbrev pub IsFresh : Option ℕ → WorkQueue → Type 0
IsFresh none q = Unit {0}
IsFresh (some a) q = (a ≢ 0) × (q.items a ≡ none)

added_lem :
    (max a : ℕ) (c d : Client) (q : WorkQueue) (l : List Cell) (r : Option WorkQueue)
    → d.ip ≡ c.ip
    → d.request_count ≡ 0
    → length l < max
    → AddsTo (λ q'. Holds q' (l ++ (a, d) ∷ []) × (q'.shutdown ≡ q.shutdown)) r
    → Answers
        (λ r. Enqueues max (some a) c l r q)
        (elim r [ none ↦ none | some q' ↦ some (queued, q') ])
added_lem max a c d q l none e z room h = elim h [ ]
added_lem max a c d q l (some q') e z room h = (a, d, refl, e, z, room, h.0)

-- On a queue of linked items, and with fresh memory, `enqueue_client` never follows a bad pointer. It
-- rejects the client without a change where there is no memory or the server stops, waits at the limit,
-- and else puts the client, with no requests yet, behind all others.
pub enqueue_client-Enqueues :
    (max now : ℕ) (item : Option ℕ) (c : Client) (q : WorkQueue) (l : List Cell)
    → Holds q l
    → IsFresh item q
    → Answers (λ r. Enqueues max item c l r q) (enqueue_client max now item c q)
unfolding enqueue_client
enqueue_client-Enqueues max now none c q l v f = (refl, inl refl)
enqueue_client-Enqueues max now (some a) c q l v f = elim (Bool-cases q.shutdown) [
  | inl stopped ↦ elim (Bool-cases (leb max q.queue_size)) [
    | inl full ↦ simp (full, stopped) (refl, inr refl)
    | inr room ↦ simp (room, stopped) (refl, inr refl)
  ]
  | inr runs ↦ elim (Bool-cases (leb max q.queue_size)) [
    | inl full ↦ simp (full, runs) (refl, ground (arith, v.size), refl)
    | inr room ↦
        let d : Client = record c { last_activity = now; request_count = 0 } in
        simp (room, runs)
          (added_lem max a c d q l (add_item a d q) refl refl (ground (arith, v.size))
            (add_item-Holds a d q l f.0 f.1 v))
  ]
]

-- What `dequeue_client` does to a queue of these cells.
abbrev pub Dequeues : List Cell → Option Client × WorkQueue → WorkQueue → Type 0
Dequeues [] (o, q') q = (o ≡ none) × (q' ≡ q)
Dequeues (x ∷ l) (o, q') q = (o ≡ some x.1) × Holds q' l × (q'.items x.0 ≡ none)

abbrev pub Takes : List Cell → WorkQueue → Option (Option Client × WorkQueue) → Type 0
Takes l q none = ⊥
Takes l q (some r) = Dequeues l r q

removed-tail :
    (items : ℕ → Option WorkItem) (l : List Cell) (x : Cell) (next tail : ℕ)
    → Linked items next l
    → tail ≡ last_address (x ∷ l)
    → (if next == 0 then 0 else tail) ≡ last_address l
removed-tail items [] x next tail k e = ground (arith, k)
removed-tail items (y ∷ l) x next tail k e =
    let nonzero : (next == 0) ≡ false = ground (arith, k.0, k.1) in rw nonzero e

removed-Dequeues :
    (q : WorkQueue) (x : Cell) (l : List Cell) (next : ℕ)
    → Holds q (x ∷ l)
    → q.work_queue_head ≡ x.0
    → Avoids x.0 l
    → Linked q.items next l
    → Dequeues (x ∷ l) (some x.1, removed q (record { client = x.1; next = next })) q
removed-Dequeues q x l next v e apart rest = (
  refl,
  record {
    linked =
        Linked-put q.work_queue_head none q.items l next (subst (λ h. Avoids h l) (sym e) apart)
          rest;
    tail = removed-tail q.items l x next q.work_queue_tail rest v.tail;
    size = omega (arith, v.size);
  },
  ap (put q.work_queue_head none q.items) (sym e) ∙ put_same q.work_queue_head none q.items,
)

-- On a queue of linked items `dequeue_client` never follows a bad pointer: it takes the client that
-- came first, frees its item and leaves the others in order; of an empty queue it takes none.
pub dequeue_client-Takes :
    (q : WorkQueue) (l : List Cell) → Holds q l → Takes l q (dequeue_client q)
unfolding dequeue_client
dequeue_client-Takes q [] v =
    let empty : ((q.queue_size == 0) || (q.work_queue_head == 0)) ≡ true = ground (arith, v.size) in
    simp empty (refl, refl)
dequeue_client-Takes q (x ∷ l) v =
    let (e, nx, apart, (next, at, rest)) = v.linked in
    let some_item : ((q.queue_size == 0) || (q.work_queue_head == 0)) ≡ false =
      ground (arith, v.size, e, nx) in
    simp some_item (
      subst
        (λ r. Takes (x ∷ l) q (elim r [ none ↦ none | some i ↦ some (some i.client, removed q i) ]))
        (sym (ap q.items e ∙ at)) (removed-Dequeues q x l next v e apart rest))
