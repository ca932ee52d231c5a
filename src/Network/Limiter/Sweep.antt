-- ===== src/Network/Limiter/Sweep.antt =====
-- The compacting loop of the rate limiter of net/network.c.
use mathlib.Core.List.{append_assoc, append-nil}
use farou_kernel.Base.{
  ℕ, suc, ◌+◌, ◌≡◌, refl, ap, sym, ◌∙◌, Bool, true, false, not, ◌&&◌, Option, none, some, List, [],
  ◌∷◌, ◌++◌, arith, ltb, if◌then◌else◌, length, length-append, get_elem?, Bool-cases, inl, inr,
}
use farou_kernel.Network.Limiter.{
  Entry, Scan, same_string, is_expired, bumped, is_none, visit, scan,
}
use farou_kernel.Network.Limiter.State.{
  walk, seen, within, state, get_elem?-middle, compact-state, store-state,
}

module _ (max now : ℕ) (ip : List ℕ) where
  -- What the loop leaves: the entries of `walk` behind `a`, then slots of no interest.
  abbrev pub swept : List Entry → List Entry → List Entry → Bool → Bool → Option ℕ → Scan
  swept a rest g f ok found = record {
    entries = (a ++ walk max now ip f rest) ++ g;
    write_idx = length (a ++ walk max now ip f rest);
    found_idx = found;
    allowed = within max now ip ok f rest;
  }

  abbrev pub Sweeps :
      List Entry → List Entry → List Entry → List Entry → Option ℕ → Bool → ℕ → Type 0
  Sweeps a gap rest tail found ok n =
      (g : List Entry) × (found' : Option ℕ) × (is_none found'
        ≡ not (seen max now ip (not (is_none found)) rest))
      × (length (a ++ walk max now ip (not (is_none found)) rest) + length g
          ≡ length a + length gap + length rest + length tail)
      × (scan max now ip (length rest) n (state a gap (rest ++ tail) found ok)
          ≡ some (swept a rest g (not (is_none found)) ok found'))

  scan-suc :
      (m n : ℕ) (e : Entry) (s : Scan)
      → get_elem? s.entries n ≡ some e
      → scan max now ip (suc m) n s ≡ scan max now ip m (n + 1) (visit max now ip n e s)
  unfolding scan
  scan-suc m n e s h = rw (h, scan)

  read-state :
      (a gap rest : List Entry) (e : Entry) (n : ℕ)
      → n ≡ length a + length gap
      → get_elem? (a ++ (gap ++ e ∷ rest)) n ≡ some e
  read-state a gap rest e n h =
      rw (← append_assoc a gap (e ∷ rest))
        (get_elem?-middle (a ++ gap) e rest n (omega (arith, length-append a gap)))

  Sweeps-expired :
      (a gap rest tail : List Entry) (e : Entry) (found : Option ℕ) (ok : Bool) (n : ℕ)
      → is_expired now e ≡ true
      → n ≡ length a + length gap
      → Sweeps a (gap ++ e ∷ []) rest tail found ok (n + 1)
      → Sweeps a gap (e ∷ rest) tail found ok n
  unfolding walk seen within visit
  Sweeps-expired a gap rest tail e found ok n old h (g, found', s, len, run) =
      let shift : (gap ++ e ∷ []) ++ (rest ++ tail) ≡ gap ++ e ∷ (rest ++ tail) =
        append_assoc gap (e ∷ []) (rest ++ tail) in
      (
        g,
        found',
        rw old s,
        rw old (omega (arith, len, length-append gap (e ∷ []))),
        scan-suc (length rest) n e (state a gap (e ∷ (rest ++ tail)) found ok)
              (read-state a gap (rest ++ tail) e n h)
            ∙ rw old (rw shift at run),
      )

  Sweeps-kept :
      (a gap gap' rest tail : List Entry) (e e' : Entry) (found found1 : Option ℕ) (ok ok1 : Bool)
      (n : ℕ)
      → n ≡ length a + length gap
      → length gap' ≡ length gap
      → visit max now ip n e (state a gap (e ∷ (rest ++ tail)) found ok)
        ≡ state (a ++ e' ∷ []) gap' (rest ++ tail) found1 ok1
      → seen max now ip (not (is_none found)) (e ∷ rest)
        ≡ seen max now ip (not (is_none found1)) rest
      → within max now ip ok (not (is_none found)) (e ∷ rest)
        ≡ within max now ip ok1 (not (is_none found1)) rest
      → walk max now ip (not (is_none found)) (e ∷ rest)
        ≡ e' ∷ walk max now ip (not (is_none found1)) rest
      → Sweeps (a ++ e' ∷ []) gap' rest tail found1 ok1 (n + 1)
      → Sweeps a gap (e ∷ rest) tail found ok n
  Sweeps-kept a gap gap' rest tail e e' found found1 ok ok1 n h l step se wi wa
        (g, found', s, len, run) =
      let w = walk max now ip (not (is_none found1)) rest in
      let same : (a ++ e' ∷ []) ++ w ≡ a ++ e' ∷ w = append_assoc a (e' ∷ []) w in
      (
        g,
        found',
        rw se s,
        rw wa (omega (arith, len, l, ap length same, length-append a (e' ∷ []))),
        scan-suc (length rest) n e (state a gap (e ∷ (rest ++ tail)) found ok)
              (read-state a gap (rest ++ tail) e n h)
            ∙ (ap (scan max now ip (length rest) (n + 1)) step ∙ rw (wa, wi) (rw same at run)),
      )

  visit-hit :
      (a gap rest : List Entry) (e : Entry) (ok : Bool) (n : ℕ)
      → is_expired now e ≡ false
      → same_string e.ip ip ≡ true
      → n ≡ length a + length gap
      → (gap' : List Entry) × (length gap' ≡ length gap)
        × (visit max now ip n e (state a gap (e ∷ rest) none ok)
            ≡ state
                (a ++ bumped e ∷ [])
                gap'
                rest
                (some (length a))
                (if ltb max (e.request_count + 1) then false else ok))
  unfolding visit
  visit-hit a gap rest e ok n live hit h =
      let ok' = if ltb max (e.request_count + 1) then false else ok in
      let (gap', l, step) = compact-state a gap rest (bumped e) (some (length a)) ok' in
      (gap', l, rw (live, hit) (rw (store-state a gap rest e (bumped e) n h) (rw h step)))

  visit-miss :
      (a gap rest : List Entry) (e : Entry) (found : Option ℕ) (ok : Bool) (n : ℕ)
      → is_expired now e ≡ false
      → (is_none found && same_string e.ip ip) ≡ false
      → n ≡ length a + length gap
      → (gap' : List Entry) × (length gap' ≡ length gap)
        × (visit max now ip n e (state a gap (e ∷ rest) found ok)
            ≡ state (a ++ e ∷ []) gap' rest found ok)
  unfolding visit
  visit-miss a gap rest e found ok n live miss h =
      let (gap', l, step) = compact-state a gap rest e found ok in
      (gap', l, rw (live, miss) (rw h step))

  twice_negated : (b : Bool) → not (not b) ≡ b
  twice_negated true = refl
  twice_negated false = refl

  -- What the loop does with the rest, from any state.
  abbrev All : List Entry → List Entry → Type 0
  All rest tail =
      (a gap : List Entry) (found : Option ℕ) (ok : Bool) (n : ℕ)
      → n ≡ length a + length gap
      → Sweeps a gap rest tail found ok n

  Sweeps-hit :
      (rest a gap tail : List Entry) (e : Entry) (ok : Bool) (n : ℕ)
      → is_expired now e ≡ false
      → same_string e.ip ip ≡ true
      → n ≡ length a + length gap
      → All rest tail
      → Sweeps a gap (e ∷ rest) tail none ok n
  unfolding seen within walk
  Sweeps-hit rest a gap tail e ok n live hit h all =
      let ok' = if ltb max (e.request_count + 1) then false else ok in
      let (gap', l, step) = visit-hit a gap (rest ++ tail) e ok n live hit h in
      Sweeps-kept a gap gap' rest tail e (bumped e) none (some (length a)) ok ok' n h l step
        (rw (live, hit) refl) (rw (live, hit) refl) (rw (live, hit) refl)
        (all (a ++ bumped e ∷ []) gap' (some (length a)) ok' (n + 1)
          (omega (arith, l, length-append a (bumped e ∷ []))))

  Sweeps-miss :
      (rest a gap tail : List Entry) (e : Entry) (found : Option ℕ) (ok : Bool) (n : ℕ)
      → is_expired now e ≡ false
      → (is_none found && same_string e.ip ip) ≡ false
      → n ≡ length a + length gap
      → All rest tail
      → Sweeps a gap (e ∷ rest) tail found ok n
  unfolding seen within walk
  Sweeps-miss rest a gap tail e found ok n live miss h all =
      let miss' : (not (not (is_none found)) && same_string e.ip ip) ≡ false =
        rw (twice_negated (is_none found)) miss in
      let (gap', l, step) = visit-miss a gap (rest ++ tail) e found ok n live miss h in
      Sweeps-kept a gap gap' rest tail e e found found ok ok n h l step (rw (live, miss') refl)
        (rw (live, miss') refl) (rw (live, miss') refl)
        (all (a ++ e ∷ []) gap' found ok (n + 1) (omega (arith, l, length-append a (e ∷ []))))

  Sweeps-live :
      (rest a gap tail : List Entry) (e : Entry) (found : Option ℕ) (ok : Bool) (n : ℕ)
      → is_expired now e ≡ false
      → n ≡ length a + length gap
      → All rest tail
      → Sweeps a gap (e ∷ rest) tail found ok n
  Sweeps-live rest a gap tail e (some k) ok n live h all =
      Sweeps-miss rest a gap tail e (some k) ok n live refl h all
  Sweeps-live rest a gap tail e none ok n live h all = elim (Bool-cases (same_string e.ip ip)) [
    | inl hit ↦ Sweeps-hit rest a gap tail e ok n live hit h all
    | inr miss ↦ Sweeps-miss rest a gap tail e none ok n live miss h all
  ]

  -- The loop never leaves the table, whatever is written, skipped and found so far.
  pub scan-Sweeps : (rest tail : List Entry) → All rest tail
  unfolding scan walk seen within
  scan-Sweeps [] tail a gap found ok n h = (
    gap ++ tail,
    found,
    sym (twice_negated (is_none found)),
    omega (arith, ap length (append-nil a), length-append gap tail),
    simp append-nil refl,
  )
  scan-Sweeps (e ∷ rest) tail a gap found ok n h = elim (Bool-cases (is_expired now e)) [
    | inl old ↦ Sweeps-expired a gap rest tail e found ok n old h (
        scan-Sweeps rest tail a (gap ++ e ∷ []) found ok (n + 1)
          (omega (arith, h, length-append gap (e ∷ []))))
    | inr live ↦ Sweeps-live rest a gap tail e found ok n live h (scan-Sweeps rest tail)
  ]
