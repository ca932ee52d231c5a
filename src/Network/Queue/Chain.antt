-- ===== src/Network/Queue/Chain.antt =====
-- The linked items of the work queue of net/network.c as a chain of cells.
use farou_kernel.Base.{
  ℕ, ◌≡◌, ◌≢◌, refl, ap, sym, ◌∙◌, Option, none, some, List, [], ◌∷◌, ◌++◌, ne→==, ==_refl,
}
use farou_kernel.Network.Session.{Client}
use farou_kernel.Network.Queue.{WorkItem, put, link}

-- An address and its client.
abbrev pub Cell : Type 0
Cell = ℕ × Client

abbrev pub Avoids : ℕ → List Cell → Type 0
Avoids a [] = Unit {0}
Avoids a (x ∷ l) = (a ≢ x.0) × Avoids a l

-- The items from `head` on, each linked to the next and none twice.
abbrev pub Linked : (ℕ → Option WorkItem) → ℕ → List Cell → Type 0
Linked items head [] = head ≡ 0
Linked items head (x ∷ l) =
    (head ≡ x.0)
    × (x.0 ≢ 0)
    × Avoids x.0 l
    × ((next : ℕ) × (items x.0 ≡ some (record { client = x.1; next = next })) × Linked items next l)

abbrev pub last_address : List Cell → ℕ
last_address [] = 0
last_address (x ∷ []) = x.0
last_address (x ∷ y ∷ l) = last_address (y ∷ l)

pub put_other :
    (a b : ℕ) (item : Option WorkItem) (items : ℕ → Option WorkItem)
    → a ≢ b
    → put a item items b ≡ items b
put_other a b item items h = rw (ne→== a b h) refl

pub put_same :
    (a : ℕ) (item : Option WorkItem) (items : ℕ → Option WorkItem) → put a item items a ≡ item
put_same a item items = rw (==_refl a) refl

-- A write outside the items changes nothing of them.
pub Linked-put :
    (a : ℕ) (item : Option WorkItem) (items : ℕ → Option WorkItem) (l : List Cell) (head : ℕ)
    → Avoids a l
    → Linked items head l
    → Linked (put a item items) head l
Linked-put a item items [] head h k = k
Linked-put a item items (x ∷ l) head h (e, nz, out, (next, at, rest)) = (
  e,
  nz,
  out,
  (next, put_other a x.0 item items h.0 ∙ at, Linked-put a item items l next h.1 rest),
)

-- A fresh address is none of the items.
pub fresh-Avoids :
    (a : ℕ) (items : ℕ → Option WorkItem) (l : List Cell) (head : ℕ)
    → items a ≡ none
    → Linked items head l
    → Avoids a l
fresh-Avoids a items [] head free k = tt
fresh-Avoids a items (x ∷ l) head free (e, nz, out, (next, at, rest)) =
    ((λ same. cc (free, at, ap items same)), fresh-Avoids a items l next free rest)

Avoids-last_address :
    (z : ℕ) (l : List Cell) (x : Cell) → Avoids z (x ∷ l) → z ≢ last_address (x ∷ l)
Avoids-last_address z [] x h = h.0
Avoids-last_address z (y ∷ l) x h = Avoids-last_address z l y h.1

Avoids-append : (z : ℕ) (l : List Cell) (y : Cell) → Avoids z l → z ≢ y.0 → Avoids z (l ++ y ∷ [])
Avoids-append z [] y h n = (n, tt)
Avoids-append z (x ∷ l) y h n = (h.0, Avoids-append z l y h.1 n)

-- The items after the last one was linked to a new one: a chain with the new cell at its end, and
-- nothing else changed.
abbrev pub Appends : (ℕ → Option WorkItem) → Cell → List Cell → ℕ → Cell → Type 0
Appends items x l head new =
    (items' : ℕ → Option WorkItem) × (link (last_address (x ∷ l)) new.0 items ≡ some items')
    × Linked items' head ((x ∷ l) ++ new ∷ [])
    × ((b : ℕ) → b ≢ last_address (x ∷ l) → items' b ≡ items b)

pub Linked-append :
    (items : ℕ → Option WorkItem) (l : List Cell) (x : Cell) (head : ℕ) (new : Cell)
    → new.0 ≢ 0
    → Avoids new.0 (x ∷ l)
    → items new.0 ≡ some (record { client = new.1; next = 0 })
    → Linked items head (x ∷ l)
    → Appends items x l head new
Linked-append items [] x head new nz out stored (e, nx, _, (next, at, rest)) =
    let i : WorkItem = record { client = x.1; next = new.0 } in
    let other : x.0 ≢ new.0 = λ s. out.0 (sym s) in
    (
      put x.0 (some i) items,
      rw (at, link) refl,
      (
        e,
        nx,
        (other, tt),
        (
          new.0,
          put_same x.0 (some i) items,
          (refl, nz, tt, (0, put_other x.0 new.0 (some i) items other ∙ stored, refl)),
        ),
      ),
      λ b h. put_other x.0 b (some i) items (λ s. h (sym s)),
    )
Linked-append items (y ∷ l) x head new nz out stored (e, nx, apart, (next, at, rest)) =
    let (items', linked, chain, same) = Linked-append items l y next new nz out.1 stored rest in
    (
      items',
      linked,
      (
        e,
        nx,
        Avoids-append x.0 (y ∷ l) new apart (λ s. out.0 (sym s)),
        (next, same x.0 (Avoids-last_address x.0 l y apart) ∙ at, chain),
      ),
      same,
    )

pub last_address-append : (l : List Cell) (x : Cell) → last_address (l ++ x ∷ []) ≡ x.0
last_address-append [] x = refl
last_address-append (y ∷ []) x = refl
last_address-append (y ∷ z ∷ l) x = last_address-append (z ∷ l) x

pub last_address_nonzero :
    (items : ℕ → Option WorkItem) (l : List Cell) (x : Cell) (head : ℕ)
    → Linked items head (x ∷ l)
    → last_address (x ∷ l) ≢ 0
last_address_nonzero items [] x head (e, nx, _, k) = nx
last_address_nonzero items (y ∷ l) x head (e, nx, _, (next, at, rest)) =
    last_address_nonzero items l y next rest
