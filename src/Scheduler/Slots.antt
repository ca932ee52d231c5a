-- ===== src/Scheduler/Slots.antt =====
-- The slots of the task table of kernel/scheduler.c, the searches through it, and counts of slots.
use farou_kernel.Base.{
  ℕ, zero, suc, ◌+◌, ◌≤◌, ◌<◌, ◌≡◌, ◌≢◌, refl, ap, Bool, true, false, not, Option, none, some, List,
  [], ◌∷◌, arith, if◌then◌else◌, length, get_elem?, Bool-cases, inl, inr,
}
use native.Mathlib.Numerals.{add-one}
use farou_kernel.Base.Int.{ℤ}

abbrev pub max_tasks : ℕ
max_tasks = 64

-- `TASK_STATE_INVALID`, `TASK_STATE_RUNNING`, `TASK_STATE_DONE`
pub data TaskState : Type 0 where
  invalid running finished : TaskState

-- `TCB`
pub record Tcb : Type 0 where
  pub tid : ℕ
  pub pthread_handle : ℕ
  pub state : TaskState
  pub priority : ℤ
  pub name : List ℕ

abbrev pub is_invalid : Tcb → Bool
is_invalid t = elim t.state [ invalid ↦ true | _ ↦ false ]

abbrev pub is_running : Tcb → Bool
is_running t = elim t.state [ running ↦ true | _ ↦ false ]

abbrev pub is_done : Tcb → Bool
is_done t = elim t.state [ finished ↦ true | _ ↦ false ]

abbrev pub is_active : Tcb → Bool
is_active t = not (is_invalid t)

-- The searches `for (i = 0; i < MAX_TASKS; ++i) if (...) { ...; break; }`: the first slot that passes.
unfoldable pub find_slot : (Tcb → Bool) → List Tcb → Option ℕ
find_slot test [] = none
find_slot test (t ∷ ts) =
    let rest = find_slot test ts in
    if test t then some 0 else (elim rest [ none ↦ none | some i ↦ some (i + 1) ])

-- A write to slot `i`.
unfoldable pub modify : ℕ → (Tcb → Tcb) → List Tcb → List Tcb
modify i f [] = []
modify zero f (t ∷ ts) = f t ∷ ts
modify (suc i) f (t ∷ ts) = t ∷ modify i f ts

abbrev pub one_if : Bool → ℕ
one_if true = 1
one_if false = 0

-- The number of slots that pass a test.
unfoldable pub count_slots : (Tcb → Bool) → List Tcb → ℕ
count_slots test [] = 0
count_slots test (t ∷ ts) = one_if (test t) + count_slots test ts

pub length-modify : (i : ℕ) (f : Tcb → Tcb) (ts : List Tcb) → length (modify i f ts) ≡ length ts
unfolding modify
length-modify i f [] = refl
length-modify zero f (t ∷ ts) = refl
length-modify (suc i) f (t ∷ ts) = omega (arith, length-modify i f ts)

pub get_elem?-modify_self :
    (i : ℕ) (f : Tcb → Tcb) (ts : List Tcb) (t : Tcb)
    → get_elem? ts i ≡ some t
    → get_elem? (modify i f ts) i ≡ some (f t)
unfolding modify
get_elem?-modify_self i f [] t e = cc
get_elem?-modify_self zero f (x ∷ ts) t e = let same : x ≡ t = cc in rw same refl
get_elem?-modify_self (suc i) f (x ∷ ts) t e = get_elem?-modify_self i f ts t e

pub get_elem?-modify_ne :
    (i : ℕ) (f : Tcb → Tcb) (ts : List Tcb) (j : ℕ)
    → j ≢ i
    → get_elem? (modify i f ts) j ≡ get_elem? ts j
unfolding modify
get_elem?-modify_ne i f [] j ne = refl
get_elem?-modify_ne zero f (x ∷ ts) zero ne = absurd (ne refl)
get_elem?-modify_ne zero f (x ∷ ts) (suc j) ne = refl
get_elem?-modify_ne (suc i) f (x ∷ ts) zero ne = refl
get_elem?-modify_ne (suc i) f (x ∷ ts) (suc j) ne =
    get_elem?-modify_ne i f ts j (λ e. ne (ap suc e))

-- What a search must answer: a slot that passes, or `none` where no slot does.
abbrev pub Finds : (Tcb → Bool) → List Tcb → Option ℕ → Type 0
Finds test ts none = count_slots test ts ≡ 0
Finds test ts (some i) = (t : Tcb) × (get_elem? ts i ≡ some t) × (test t ≡ true)

Finds-later :
    (test : Tcb → Bool) (t : Tcb) (ts : List Tcb) (r : Option ℕ)
    → test t ≡ false
    → Finds test ts r
    → Finds test (t ∷ ts) (elim r [ none ↦ none | some i ↦ some (i + 1) ])
unfolding count_slots
Finds-later test t ts none miss h = ground arith
Finds-later test t ts (some i) miss (u, e, hit) = (u, rw add-one e, hit)

pub find_slot-Finds : (test : Tcb → Bool) (ts : List Tcb) → Finds test ts (find_slot test ts)
unfolding find_slot count_slots
find_slot-Finds test [] = refl
find_slot-Finds test (t ∷ ts) = elim (Bool-cases (test t)) [
  | inl hit ↦ rw hit (t, refl, hit)
  | inr miss ↦ rw miss (Finds-later test t ts (find_slot test ts) miss (find_slot-Finds test ts))
]

pub count_slots-modify :
    (test : Tcb → Bool) (f : Tcb → Tcb) (i : ℕ) (ts : List Tcb) (t : Tcb)
    → get_elem? ts i ≡ some t
    → count_slots test (modify i f ts) + one_if (test t) ≡ count_slots test ts + one_if (test (f t))
unfolding count_slots modify
count_slots-modify test f i [] t e = cc
count_slots-modify test f zero (x ∷ ts) t e = let same : x ≡ t = cc in rw same (omega arith)
count_slots-modify test f (suc i) (x ∷ ts) t e = omega (arith, count_slots-modify test f i ts t e)

-- A test that passes on fewer slots.
pub count_slots_mono :
    (p q : Tcb → Bool) (ts : List Tcb)
    → ((t : Tcb) → one_if (p t) ≤ one_if (q t))
    → count_slots p ts ≤ count_slots q ts
unfolding count_slots
count_slots_mono p q [] h = omega arith
count_slots_mono p q (t ∷ ts) h = omega (arith, h t, count_slots_mono p q ts h)

-- If the first slot that passes `q` fails `p`, then `q` passes on more slots than `p`.
pub count_slots-lt :
    (p q : Tcb → Bool) (ts : List Tcb) (i : ℕ) (t : Tcb)
    → ((t : Tcb) → one_if (p t) ≤ one_if (q t))
    → get_elem? ts i ≡ some t
    → q t ≡ true
    → p t ≡ false
    → count_slots p ts < count_slots q ts
unfolding count_slots
count_slots-lt p q [] i t h e yes_q no_p = cc
count_slots-lt p q (x ∷ ts) zero t h e yes_q no_p =
    let same : x ≡ t = cc in rw (same, yes_q, no_p) (omega (arith, count_slots_mono p q ts h))
count_slots-lt p q (x ∷ ts) (suc i) t h e yes_q no_p =
    omega (arith, h x, count_slots-lt p q ts i t h e yes_q no_p)
