-- ===== src/Network/Text/Clean.antt =====
-- `sanitize_input` of net/network.c leaves a clean line, and leaves a clean line alone.
use farou_kernel.Base.{
  ℕ, zero, suc, ◌-◌, ◌≤◌, ◌<◌, ◌≡◌, refl, ap, ◌∙◌, true, false, ◌||◌, inl, inr, List, [], ◌∷◌,
  arith, ltb, leb, ◌==◌, length, get_or, take, length-take, Bool-cases, ne→==, gt→leb,
}
use farou_kernel.Network.Text.{
  isspace, isprint, chop, truncate, placeholder, printable, trim_leading, trim_trailing,
  sanitize_input,
}

-- A byte that is printable or whitespace.
abbrev pub IsText : ℕ → Type 0
IsText c = (isprint c || isspace c) ≡ true

abbrev pub AllText : List ℕ → Type 0
AllText [] = Unit {0}
AllText (c ∷ s) = IsText c × AllText s

-- A line of fewer than 1024 bytes of text with no whitespace at its ends.
pub record IsClean (s : List ℕ) : Type 0 where
  pub short : length s < 1024
  pub text : AllText s
  pub front : isspace (get_or s 0 b'x') ≡ false
  pub back : isspace (get_or s (length s - 1) b'x') ≡ false

placeholder-IsText : (c : ℕ) → IsText (placeholder c)
placeholder-IsText c = ground arith

printable-AllText : (s : List ℕ) → AllText (printable s)
printable-AllText [] = tt
printable-AllText (c ∷ s) = (placeholder-IsText c, printable-AllText s)

length-printable : (s : List ℕ) → length (printable s) ≡ length s
length-printable [] = refl
length-printable (c ∷ s) = ap suc (length-printable s)

trim_leading-AllText : (s : List ℕ) → AllText s → AllText (trim_leading s)
trim_leading-AllText [] t = tt
trim_leading-AllText (c ∷ s) t = elim (Bool-cases (isspace c)) [
  | inl w ↦ rw (w, AllText) (trim_leading-AllText s t.1)
  | inr b ↦ rw (b, AllText) t
]

length-trim_leading : (s : List ℕ) → length (trim_leading s) ≤ length s
length-trim_leading [] = omega arith
length-trim_leading (c ∷ s) = ground (arith, length-trim_leading s)

trim_leading-front : (s : List ℕ) → isspace (get_or (trim_leading s) 0 b'x') ≡ false
trim_leading-front [] = refl
trim_leading-front (c ∷ s) = elim (Bool-cases (isspace c)) [
  | inl w ↦ rw w (trim_leading-front s)
  | inr b ↦ rw b b
]

take-AllText : (n : ℕ) (s : List ℕ) → AllText s → AllText (take n s)
take-AllText zero s t = tt
take-AllText (suc n) [] t = tt
take-AllText (suc n) (c ∷ s) t = (t.0, take-AllText n s t.1)

get_or-take : (n i : ℕ) (s : List ℕ) (d : ℕ) → i < n → get_or (take n s) i d ≡ get_or s i d
get_or-take zero i s d h = absurd (omega arith)
get_or-take (suc n) i [] d h = refl
get_or-take (suc n) zero (c ∷ s) d h = refl
get_or-take (suc n) (suc i) (c ∷ s) d h = get_or-take n i s d (omega arith)

-- Within a list the default is of no account.
get_or_any : (s : List ℕ) (i d d' : ℕ) → i < length s → get_or s i d ≡ get_or s i d'
get_or_any [] i d d' h = absurd (omega arith)
get_or_any (c ∷ s) zero d d' h = refl
get_or_any (c ∷ s) (suc i) d d' h = get_or_any s i d d' (omega arith)

trim_trailing-IsClean :
    (n : ℕ) (s : List ℕ)
    → n ≤ length s
    → length s < 1024
    → AllText s
    → isspace (get_or s 0 b'x') ≡ false
    → IsClean (trim_trailing n s)
trim_trailing-IsClean zero s h short text front = record {
  short = omega arith;
  text = tt;
  front = refl;
  back = refl;
}
trim_trailing-IsClean (suc n) s h short text front = elim (Bool-cases (isspace (get_or s n 0))) [
  | inl w ↦ rw w (trim_trailing-IsClean n s (omega arith) short text front)
  | inr b ↦ rw b (record {
    short = omega (arith, length-take (suc n) s);
    text = take-AllText (suc n) s text;
    front = rw (get_or-take (suc n) 0 s b'x' (omega arith)) front;
    back =
        ap isspace (
          ap (λ k. get_or (take (suc n) s) k b'x') (omega (arith, length-take (suc n) s))
          ∙ (get_or-take (suc n) n s b'x' (omega arith) ∙ get_or_any s n b'x' 0 (omega arith)))
        ∙ b;
  })
]

length-truncate : (s : List ℕ) → length (truncate s) < 1024
length-truncate s = elim (Bool-cases (leb 1024 (length s))) [
  | inl long ↦ rw long (omega (arith, length-take 1023 s))
  | inr small ↦ rw small (ground arith)
]

-- Whatever bytes a request holds, `sanitize_input` leaves fewer than 1024 of them, all printable or
-- whitespace, with no whitespace at either end.
pub sanitize_input-IsClean : (s : List ℕ) → IsClean (sanitize_input s)
unfolding sanitize_input
sanitize_input-IsClean s =
    let cut = truncate (chop b'\r' (chop b'\n' s)) in
    let t = printable cut in
    trim_trailing-IsClean (length (trim_leading t)) (trim_leading t) (omega arith)
      (omega (
        arith,
        length-trim_leading t,
        length-printable cut,
        length-truncate (chop b'\r' (chop b'\n' s)),
      ))
      (trim_leading-AllText t (printable-AllText cut)) (trim_leading-front t)

last_lem :
    (s : List ℕ)
    → isspace (get_or s (length s - 1) b'x') ≡ false
    → 0 < length s
    → isspace (get_or s (length s - 1) 0) ≡ false
last_lem s back some_byte = ap isspace (get_or_any s (length s - 1) 0 b'x' (omega arith)) ∙ back

chop_clean :
    (c : ℕ) (s : List ℕ)
    → isspace c ≡ true
    → isspace (get_or s (length s - 1) b'x') ≡ false
    → chop c s ≡ s
chop_clean c s space back = elim (Bool-cases (ltb 0 (length s))) [
  | inr none_left ↦ rw none_left refl
  | inl some_byte ↦
      let last = last_lem s back (ground arith) in
      let apart : (get_or s (length s - 1) 0 == c) ≡ false =
        ne→== _ c (λ e. cc (last, space, ap isspace e)) in
      rw (some_byte, apart) refl
]

printable_clean : (s : List ℕ) → AllText s → printable s ≡ s
printable_clean [] t = refl
printable_clean (c ∷ s) t =
    let same : placeholder c ≡ c = ground (arith, t.0) in rw (same, printable_clean s t.1) refl

trim_leading_clean : (s : List ℕ) → isspace (get_or s 0 b'x') ≡ false → trim_leading s ≡ s
trim_leading_clean [] h = refl
trim_leading_clean (c ∷ s) h = rw h refl

take_all : (s : List ℕ) → take (length s) s ≡ s
take_all [] = refl
take_all (c ∷ s) = ap (λ l. c ∷ l) (take_all s)

trim_trailing_clean :
    (s : List ℕ) → isspace (get_or s (length s - 1) b'x') ≡ false → trim_trailing (length s) s ≡ s
trim_trailing_clean [] h = refl
trim_trailing_clean (c ∷ s) h =
    let end : length s ≡ length (c ∷ s) - 1 = omega arith in
    let last : isspace (get_or (c ∷ s) (length s) 0) ≡ false =
      ap (λ k. isspace (get_or (c ∷ s) k 0)) end ∙ last_lem (c ∷ s) h (omega arith) in
    rw last (take_all (c ∷ s))

-- A clean line is left as it is: to sanitise a second time changes nothing.
pub sanitize_input_clean : (s : List ℕ) → IsClean s → sanitize_input s ≡ s
unfolding sanitize_input
sanitize_input_clean s v =
    let small : leb 1024 (length s) ≡ false = gt→leb 1024 (length s) v.short in
    rw (chop_clean b'\n' s refl v.back) (
      rw (chop_clean b'\r' s refl v.back) (
        rw small (
          rw (printable_clean s v.text)
            (rw (trim_leading_clean s v.front) (trim_trailing_clean s v.back)))))
