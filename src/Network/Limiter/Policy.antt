-- ===== src/Network/Limiter/Policy.antt =====
-- The policy that the rate limiter of net/network.c implements, on the list of its entries.
use mathlib.Core.List.{append_assoc}
use farou_kernel.Base.{
  ℕ, ◌+◌, ◌≤◌, ◌≡◌, refl, ap, subst, ◌∙◌, Bool, true, false, ◌&&◌, Option, none, some, List, [],
  ◌∷◌, ◌++◌, arith, ltb, leb, length, length-append, set, take, drop, take-append-drop, length-take,
  Bool-cases, inl, inr,
}
use farou_kernel.Network.Limiter.{
  Entry, Scan, RateLimits, same_string, is_none, scan, admit, new_entry,
  check_and_update_rate_limit,
}
use farou_kernel.Network.Limiter.Sweep.{scan-Sweeps}
use farou_kernel.Network.Limiter.State.{set-middle}
use farou_kernel.Network.Limiter.Walk.{
  entries_of, live, lookup_entry, tally, grant, next_entries, walk-tally, seen-lookup_entry,
  within-grant,
}

take_prefix : (w g : List Entry) → take (length w) (w ++ g) ≡ w
take_prefix [] g = refl
take_prefix (x ∷ w) g = ap (λ l. x ∷ l) (take_prefix w g)

take_snoc :
    (w : List Entry) (n : Entry) (g : List Entry) → take (length w + 1) (w ++ n ∷ g) ≡ w ++ n ∷ []
take_snoc w n g =
    let more : length w + 1 ≡ length (w ++ n ∷ []) = omega (arith, length-append w (n ∷ [])) in
    rw more (rw (← append_assoc w (n ∷ []) g) (take_prefix (w ++ n ∷ []) g))

tally_absent :
    (ip : List ℕ) (es : List Entry) → is_none (lookup_entry ip es) ≡ true → tally ip es ≡ es
unfolding tally lookup_entry
tally_absent ip [] h = refl
tally_absent ip (e ∷ es) h = elim (Bool-cases (same_string e.ip ip)) [
  | inl hit ↦ absurd (cc (rw hit at h))
  | inr miss ↦ rw miss (ap (λ l. e ∷ l) (tally_absent ip es (rw miss at h)))
]

pub record Fits (t : RateLimits) : Type 0 where
  pub room : t.rate_limit_capacity ≡ length t.rate_limits
  pub used : t.rate_limit_size ≤ t.rate_limit_capacity

-- The answer and the table after a request of `ip`.
abbrev pub Enforces : ℕ → ℕ → List ℕ → RateLimits → Option (Bool × RateLimits) → Type 0
Enforces max now ip t none = ⊥
Enforces max now ip t (some (granted, t')) =
    let es = live now (entries_of t) in
    (granted ≡ grant max (lookup_entry ip es))
    × (entries_of t' ≡ next_entries now ip t.rate_limit_capacity (lookup_entry ip es) es)
    × Fits t'

module _ (max now : ℕ) (ip : List ℕ) (t : RateLimits) (v : Fits t) where
  abbrev es : List Entry
  es = live now (entries_of t)

  -- The state that the loop leaves, in the words of the policy.
  abbrev final : Option Entry → List Entry → Option ℕ → Scan
  final o g found = record {
    entries = tally ip es ++ g;
    write_idx = length (tally ip es);
    found_idx = found;
    allowed = grant max o;
  }

  abbrev Done : Option Entry → Bool × RateLimits → Type 0
  Done o (granted, t') =
      (granted ≡ grant max o)
      × (entries_of t' ≡ next_entries now ip t.rate_limit_capacity o es)
      × Fits t'

  kept_Fits :
      (g : List Entry)
      → length (tally ip es) + length g ≡ length t.rate_limits
      → Fits (record t { rate_limits = tally ip es ++ g; rate_limit_size = length (tally ip es) })
  kept_Fits g len = record {
    room = omega (arith, v.room, length-append (tally ip es) g);
    used = omega (arith, v.room);
  }

  admit-known :
      (e : Entry) (g : List Entry) (found : Option ℕ)
      → length (tally ip es) + length g ≡ length t.rate_limits
      → is_none found ≡ false
      → Done (some e) (admit now ip (final (some e) g found) t)
  unfolding admit
  admit-known e g found len known =
      let closed : (leb (e.request_count + 1) max && is_none found) ≡ false =
        rw known (and_false (leb (e.request_count + 1) max)) in
      rw (closed, Done) (refl, take_prefix (tally ip es) g, kept_Fits g len)
    where
      and_false : (b : Bool) → (b && false) ≡ false
      and_false true = refl
      and_false false = refl

  admit-full :
      (g : List Entry) (found : Option ℕ)
      → length (tally ip es) + length g ≡ length t.rate_limits
      → tally ip es ≡ es
      → is_none found ≡ true
      → ltb (length es) t.rate_limit_capacity ≡ false
      → Done none (admit now ip (final none g found) t)
  unfolding admit
  admit-full g found len same unknown full =
      let full' : ltb (length (tally ip es)) t.rate_limit_capacity ≡ false = rw same full in
      rw (unknown, Done)
        (rw (full', Done) (refl, rw full (take_prefix (tally ip es) g ∙ same), kept_Fits g len))

  admit-new :
      (x : Entry) (g : List Entry) (found : Option ℕ)
      → length (tally ip es) + length (x ∷ g) ≡ length t.rate_limits
      → tally ip es ≡ es
      → is_none found ≡ true
      → ltb (length es) t.rate_limit_capacity ≡ true
      → Done none (admit now ip (final none (x ∷ g) found) t)
  unfolding admit
  admit-new x g found len same unknown room =
      let w = tally ip es in
      let new = new_entry now ip in
      let room' : ltb (length w) t.rate_limit_capacity ≡ true = rw same room in
      let put : set (w ++ x ∷ g) (length w) new ≡ w ++ new ∷ g =
        set-middle w x new g (length w) refl in
      rw (unknown, Done)
        (rw (room', Done)
          (rw put (
            refl,
            rw room (take_snoc w new g ∙ ap (λ l. l ++ new ∷ []) same),
            record {
              room = omega (arith, v.room, len, length-append w (new ∷ g));
              used = omega (arith, v.room, len);
            },
          )))

  admit-Done :
      (o : Option Entry) (g : List Entry) (found : Option ℕ)
      → lookup_entry ip es ≡ o
      → length (tally ip es) + length g ≡ length t.rate_limits
      → is_none found ≡ is_none o
      → Done o (admit now ip (final o g found) t)
  admit-Done (some e) g found look len known = admit-known e g found len known
  admit-Done none g found look len unknown =
      let same = tally_absent ip es (ap is_none look) in
      elim (Bool-cases (ltb (length es) t.rate_limit_capacity)) [
        | inl room ↦ split g len room
        | inr full ↦ admit-full g found len same unknown full
      ]
    where
      split :
          (h : List Entry)
          → length (tally ip es) + length h ≡ length t.rate_limits
          → ltb (length es) t.rate_limit_capacity ≡ true
          → Done none (admit now ip (final none h found) t)
      split [] len room =
          let same = tally_absent ip es (ap is_none look) in
          absurd (ground (arith, v.room, ap length same))
      split (x ∷ h) len room =
          admit-new x h found len (tally_absent ip es (ap is_none look)) unknown room

  -- The loop has run from the start, over `k` slots of `l`.
  abbrev Scanned : ℕ → List Entry → Type 0
  Scanned k l =
      (g : List Entry) × (found : Option ℕ) × (is_none found ≡ is_none (lookup_entry ip es))
      × (length (tally ip es) + length g ≡ length l)
      × (scan max now ip k 0
            (record { entries = l; write_idx = 0; found_idx = none; allowed = true })
          ≡ some (final (lookup_entry ip es) g found))

  scan-Scanned :
      Scanned (length (entries_of t)) (entries_of t ++ drop t.rate_limit_size t.rate_limits)
  scan-Scanned =
      let tail = drop t.rate_limit_size t.rate_limits in
      let (g, found, s, len, run) =
        scan-Sweeps max now ip (entries_of t) tail [] [] none true 0 (omega arith) in
      let walked = walk-tally max now ip (entries_of t) in
      (
        g,
        found,
        s ∙ seen-lookup_entry max now ip (entries_of t),
        omega (arith, len, ap length walked, length-append (entries_of t) tail),
        rw (walked, within-grant max now ip (entries_of t)) at run,
      )

  admit-Scanned :
      Scanned t.rate_limit_size t.rate_limits
      → Enforces max now ip t (check_and_update_rate_limit max now ip t)
  unfolding check_and_update_rate_limit
  admit-Scanned (g, found, s, len, run) =
      rw (run, Enforces) (admit-Done (lookup_entry ip es) g found refl len s)

  -- On a table within its capacity the rate limiter never leaves the array. It drops the expired
  -- entries, grants a request of an unknown address, with a new entry if there is room, and one of a
  -- known address up to `max` requests, counting it; and the table stays within its capacity.
  pub check_and_update_rate_limit-Enforces :
      Enforces max now ip t (check_and_update_rate_limit max now ip t)
  check_and_update_rate_limit-Enforces =
      let whole = take-append-drop t.rate_limit_size t.rate_limits in
      let size : length (entries_of t) ≡ t.rate_limit_size =
        omega (arith, length-take t.rate_limit_size t.rate_limits, v.room, v.used) in
      admit-Scanned (
        subst (λ k. Scanned k t.rate_limits) size
          (subst (Scanned (length (entries_of t))) whole scan-Scanned))
