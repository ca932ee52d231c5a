-- ===== src/Network/Limiter/State.antt =====
-- The state of the compacting loop of the rate limiter of net/network.c, and what the loop counts.
use mathlib.Core.List.{append_assoc}
use farou_kernel.Base.{
  ℕ, zero, suc, ◌+◌, ◌≡◌, refl, ap, sym, ◌∙◌, Bool, true, false, not, ◌&&◌, Option, some, List, [],
  ◌∷◌, ◌++◌, arith, ltb, ◌==◌, if◌then◌else◌, length, length-append, get_elem?, set,
}
use farou_kernel.Network.Limiter.{Entry, Scan, same_string, is_expired, bumped, compact}

module _ (max now : ℕ) (ip : List ℕ) where
  -- The live entries, with the first of `ip` counted once more unless it was found before.
  unfoldable pub walk : Bool → List Entry → List Entry
  walk f [] = []
  walk f (e ∷ es) =
      if is_expired now e
      then walk f es
      else (if not f && same_string e.ip ip then bumped e ∷ walk true es else e ∷ walk f es)

  -- Whether the address is found, and whether its request is allowed.
  unfoldable pub seen : Bool → List Entry → Bool
  seen f [] = f
  seen f (e ∷ es) =
      if is_expired now e
      then seen f es
      else (if not f && same_string e.ip ip then seen true es else seen f es)

  unfoldable pub within : Bool → Bool → List Entry → Bool
  within ok f [] = ok
  within ok f (e ∷ es) =
      if is_expired now e
      then within ok f es
      else (if not f && same_string e.ip ip
          then within (if ltb max (e.request_count + 1) then false else ok) true es
          else within ok f es)

pub get_elem?-middle :
    (a : List Entry) (e : Entry) (b : List Entry) (n : ℕ)
    → n ≡ length a
    → get_elem? (a ++ e ∷ b) n ≡ some e
get_elem?-middle [] e b n h = rw h
get_elem?-middle (x ∷ a) e b zero h = absurd (omega arith)
get_elem?-middle (x ∷ a) e b (suc n) h = get_elem?-middle a e b n (omega arith)

pub set-middle :
    (a : List Entry) (x e : Entry) (b : List Entry) (n : ℕ)
    → n ≡ length a
    → set (a ++ x ∷ b) n e ≡ a ++ e ∷ b
set-middle [] x e b zero h = refl
set-middle [] x e b (suc n) h = absurd (omega arith)
set-middle (y ∷ a) x e b zero h = absurd (omega arith)
set-middle (y ∷ a) x e b (suc n) h = ap (λ l. y ∷ l) (set-middle a x e b n (omega arith))

-- The state while the loop runs: what is written, the gap, and what is still to be read.
abbrev pub state : List Entry → List Entry → List Entry → Option ℕ → Bool → Scan
state a gap rest found ok = record {
  entries = a ++ (gap ++ rest);
  write_idx = length a;
  found_idx = found;
  allowed = ok;
}

pub compact-state :
    (a gap rest : List Entry) (e : Entry) (found : Option ℕ) (ok : Bool)
    → (gap' : List Entry) × (length gap' ≡ length gap)
      × (compact (length a + length gap) e (state a gap (e ∷ rest) found ok)
          ≡ state (a ++ e ∷ []) gap' rest found ok)
unfolding compact
compact-state a [] rest e found ok =
    let here : (length a + 0 == length a) ≡ true = ground arith in
    let more : length (a ++ e ∷ []) ≡ length a + 1 = omega (arith, length-append a (e ∷ [])) in
    ([], refl, rw (here, append_assoc a (e ∷ []) rest, more))
compact-state a (x ∷ gap) rest e found ok =
    let apart : (length a + suc (length gap) == length a) ≡ false = ground arith in
    let more : length (a ++ e ∷ []) ≡ length a + 1 = omega (arith, length-append a (e ∷ [])) in
    (
      gap ++ e ∷ [],
      omega (arith, length-append gap (e ∷ [])),
      rw (
        apart,
        append_assoc a (e ∷ []) ((gap ++ e ∷ []) ++ rest),
        append_assoc gap (e ∷ []) rest,
        set-middle a x e (gap ++ e ∷ rest) (length a) refl,
        more,
      ),
    )

pub store-state :
    (a gap rest : List Entry) (e e' : Entry) (n : ℕ)
    → n ≡ length a + length gap
    → set (a ++ (gap ++ e ∷ rest)) n e' ≡ a ++ (gap ++ e' ∷ rest)
store-state a gap rest e e' n h =
    ap (λ l. set l n e') (sym (append_assoc a gap (e ∷ rest)))
    ∙ (set-middle (a ++ gap) e e' rest n (omega (arith, length-append a gap))
        ∙ append_assoc a gap (e' ∷ rest))
