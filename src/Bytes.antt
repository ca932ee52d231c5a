-- ===== src/Bytes.antt =====
-- Byte buffers as C code copies them: `memcpy` faults outside a buffer.
use farou_kernel.Base.{
  ℕ, zero, suc, ◌+◌, ◌≤◌, ◌<◌, ◌≡◌, refl, ◌∙◌, ap, ◌⊎◌, inl, true, ◌&&◌, Option, none, some, List,
  [], ◌∷◌, arith, leb, if◌then◌else◌, length, get_elem?, set, take, drop, length-set,
  get_elem?-set_self, get_elem?-set_ne, length-take, length-drop, le→leb,
}

-- `new` written byte by byte, from position `start` on.
abbrev pub overwrite : List ℕ → ℕ → List ℕ → List ℕ
overwrite dst start [] = dst
overwrite dst start (x ∷ xs) = overwrite (set dst start x) (start + 1) xs

abbrev pub slice : ℕ → ℕ → List ℕ → List ℕ
slice start n xs = take n (drop start xs)

-- `memcpy(dst + to, src + from, n)`.
unfoldable pub memcpy : List ℕ → ℕ → List ℕ → ℕ → ℕ → Option (List ℕ)
memcpy dst to src start n =
    if leb (to + n) (length dst) && leb (start + n) (length src)
    then some (overwrite dst to (slice start n src))
    else none

-- What a copy leaves: `n` bytes of `src`, from `start` on, and the rest of `dst`.
pub record Copied (dst : List ℕ) (to : ℕ) (src : List ℕ) (start n : ℕ) (res : List ℕ) : Type 0 where
  pub same_length : length res ≡ length dst
  pub inside : (i : ℕ) → i < n → get_elem? res (to + i) ≡ get_elem? src (start + i)
  pub outside : (j : ℕ) → (j < to) ⊎ (to + n ≤ j) → get_elem? res j ≡ get_elem? dst j

length-overwrite : (new dst : List ℕ) (to : ℕ) → length (overwrite dst to new) ≡ length dst
length-overwrite [] dst to = refl
length-overwrite (x ∷ xs) dst to = length-overwrite xs (set dst to x) (to + 1) ∙ length-set dst to x

overwrite-outside :
    (new dst : List ℕ) (to j : ℕ)
    → (j < to) ⊎ (to + length new ≤ j)
    → get_elem? (overwrite dst to new) j ≡ get_elem? dst j
overwrite-outside [] dst to j h = refl
overwrite-outside (x ∷ xs) dst to j h =
    overwrite-outside xs (set dst to x) (to + 1) j (omega arith)
    ∙ get_elem?-set_ne dst x (λ e. omega arith)

overwrite-inside :
    (new dst : List ℕ) (to i : ℕ)
    → i < length new
    → to + length new ≤ length dst
    → get_elem? (overwrite dst to new) (to + i) ≡ get_elem? new i
overwrite-inside [] dst to i h fits = absurd (omega arith)
overwrite-inside (x ∷ xs) dst to zero h fits =
    let here : to + 0 ≡ to = omega arith in
    rw here (
      overwrite-outside xs (set dst to x) (to + 1) to (inl (omega arith))
      ∙ get_elem?-set_self dst to x (omega arith))
overwrite-inside (x ∷ xs) dst to (suc i) h fits =
    let next : to + suc i ≡ to + 1 + i = omega arith in
    rw next (
      overwrite-inside xs (set dst to x) (to + 1) i (omega arith)
        (omega (arith, length-set dst to x)))

pub get_elem?-take :
    (n : ℕ) (xs : List ℕ) (i : ℕ) → i < n → get_elem? (take n xs) i ≡ get_elem? xs i
get_elem?-take zero xs i h = absurd (omega arith)
get_elem?-take (suc n) [] i h = refl
get_elem?-take (suc n) (x ∷ xs) zero h = refl
get_elem?-take (suc n) (x ∷ xs) (suc i) h = get_elem?-take n xs i (omega arith)

pub get_elem?-drop :
    (start : ℕ) (xs : List ℕ) (i : ℕ) → get_elem? (drop start xs) i ≡ get_elem? xs (start + i)
get_elem?-drop zero xs i = ap (get_elem? xs) (omega arith)
get_elem?-drop (suc start) [] i = refl
get_elem?-drop (suc start) (x ∷ xs) i =
    let next : suc start + i ≡ suc (start + i) = omega arith in rw next (get_elem?-drop start xs i)

pub length-slice :
    (start n : ℕ) (xs : List ℕ) → start + n ≤ length xs → length (slice start n xs) ≡ n
length-slice start n xs h = omega (arith, length-take n (drop start xs), length-drop start xs)

pub get_elem?-slice :
    (start n : ℕ) (xs : List ℕ) (i : ℕ)
    → i < n
    → get_elem? (slice start n xs) i ≡ get_elem? xs (start + i)
get_elem?-slice start n xs i h = get_elem?-take n (drop start xs) i h ∙ get_elem?-drop start xs i

pub overwrite-Copied :
    (dst : List ℕ) (to : ℕ) (new : List ℕ)
    → to + length new ≤ length dst
    → Copied dst to new 0 (length new) (overwrite dst to new)
overwrite-Copied dst to new fits = record {
  same_length = length-overwrite new dst to;
  inside = λ i h. overwrite-inside new dst to i h fits ∙ ap (get_elem? new) (omega arith);
  outside = λ j h. overwrite-outside new dst to j h;
}

-- A copy within both buffers does not fault.
pub memcpy-Copied :
    (dst : List ℕ) (to : ℕ) (src : List ℕ) (start n : ℕ)
    → to + n ≤ length dst
    → start + n ≤ length src
    → (res : List ℕ) × (memcpy dst to src start n ≡ some res) × Copied dst to src start n res
unfolding memcpy
memcpy-Copied dst to src start n fits enough =
    let new = slice start n src in
    let len : length new ≡ n = length-slice start n src enough in
    let left : leb (to + n) (length dst) ≡ true = le→leb _ _ fits in
    let right : leb (start + n) (length src) ≡ true = le→leb _ _ enough in
    (
      overwrite dst to new,
      rw (left, right) refl,
      record {
        same_length = length-overwrite new dst to;
        inside = λ i h.
            overwrite-inside new dst to i (omega (arith, len)) (omega (arith, len))
            ∙ get_elem?-slice start n src i h;
        outside = λ j h. overwrite-outside new dst to j (omega (arith, len));
      },
    )
