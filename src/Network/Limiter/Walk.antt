-- ===== src/Network/Limiter/Walk.antt =====
-- The policy of the rate limiter of net/network.c on a list of entries, and the loop as the policy.
use farou_kernel.Base.{
  ℕ, ◌+◌, ◌≡◌, refl, ap, ◌∙◌, Bool, true, false, not, Option, none, some, List, [], ◌∷◌, ◌++◌,
  arith, ltb, leb, if◌then◌else◌, length, take, Bool-cases, inl, inr,
}
use farou_kernel.Network.Limiter.{
  Entry, RateLimits, same_string, is_expired, bumped, is_none, new_entry,
}
use farou_kernel.Network.Limiter.State.{walk, seen, within}

-- The entries in use, and those of them that have not expired.
abbrev pub entries_of : RateLimits → List Entry
entries_of t = take t.rate_limit_size t.rate_limits

unfoldable pub live : ℕ → List Entry → List Entry
live now [] = []
live now (e ∷ es) = if is_expired now e then live now es else e ∷ live now es

-- The first entry of an address, and the entries with it counted once more.
unfoldable pub lookup_entry : List ℕ → List Entry → Option Entry
lookup_entry ip [] = none
lookup_entry ip (e ∷ es) = if same_string e.ip ip then some e else lookup_entry ip es

unfoldable pub tally : List ℕ → List Entry → List Entry
tally ip [] = []
tally ip (e ∷ es) = if same_string e.ip ip then bumped e ∷ es else e ∷ tally ip es

-- A request is granted to an unknown address, and to a known one up to `max` requests.
abbrev pub grant : ℕ → Option Entry → Bool
grant max none = true
grant max (some e) = leb (e.request_count + 1) max

-- An unknown address gets an entry if there is room.
abbrev pub next_entries : ℕ → List ℕ → ℕ → Option Entry → List Entry → List Entry
next_entries now ip capacity none es =
    if ltb (length es) capacity then es ++ new_entry now ip ∷ [] else es
next_entries now ip capacity (some e) es = tally ip es

module _ (max now : ℕ) (ip : List ℕ) where
  walk_found : (es : List Entry) → walk max now ip true es ≡ live now es
  unfolding walk live
  walk_found [] = refl
  walk_found (e ∷ es) = elim (Bool-cases (is_expired now e)) [
    | inl old ↦ rw old (walk_found es)
    | inr new ↦ rw new (ap (λ l. e ∷ l) (walk_found es))
  ]

  pub walk-tally : (es : List Entry) → walk max now ip false es ≡ tally ip (live now es)
  unfolding walk live tally
  walk-tally [] = refl
  walk-tally (e ∷ es) = elim (Bool-cases (is_expired now e)) [
    | inl old ↦ rw old (walk-tally es)
    | inr new ↦ elim (Bool-cases (same_string e.ip ip)) [
      | inl hit ↦ rw (new, hit) (ap (λ l. bumped e ∷ l) (walk_found es))
      | inr miss ↦ rw (new, miss) (ap (λ l. e ∷ l) (walk-tally es))
    ]
  ]

  seen_found : (es : List Entry) → seen max now ip true es ≡ true
  unfolding seen
  seen_found [] = refl
  seen_found (e ∷ es) = elim (Bool-cases (is_expired now e)) [
    | inl old ↦ rw old (seen_found es)
    | inr new ↦ rw new (seen_found es)
  ]

  pub seen-lookup_entry :
      (es : List Entry) → not (seen max now ip false es) ≡ is_none (lookup_entry ip (live now es))
  unfolding seen live lookup_entry
  seen-lookup_entry [] = refl
  seen-lookup_entry (e ∷ es) = elim (Bool-cases (is_expired now e)) [
    | inl old ↦ rw old (seen-lookup_entry es)
    | inr new ↦ elim (Bool-cases (same_string e.ip ip)) [
      | inl hit ↦ rw (new, hit) (rw (seen_found es) refl)
      | inr miss ↦ rw (new, miss) (seen-lookup_entry es)
    ]
  ]

  within_found : (ok : Bool) (es : List Entry) → within max now ip ok true es ≡ ok
  unfolding within
  within_found ok [] = refl
  within_found ok (e ∷ es) = elim (Bool-cases (is_expired now e)) [
    | inl old ↦ rw old (within_found ok es)
    | inr new ↦ rw new (within_found ok es)
  ]

  limit_lem : (n : ℕ) → (if ltb max n then false else true) ≡ leb n max
  limit_lem n = ground arith

  pub within-grant :
      (es : List Entry)
      → within max now ip true false es ≡ grant max (lookup_entry ip (live now es))
  unfolding within live lookup_entry
  within-grant [] = refl
  within-grant (e ∷ es) = elim (Bool-cases (is_expired now e)) [
    | inl old ↦ rw old (within-grant es)
    | inr new ↦ elim (Bool-cases (same_string e.ip ip)) [
      | inl hit ↦
          rw (new, hit)
            (within_found (if ltb max (e.request_count + 1) then false else true) es
              ∙ limit_lem (e.request_count + 1))
      | inr miss ↦ rw (new, miss) (within-grant es)
    ]
  ]
