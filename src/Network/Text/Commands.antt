-- ===== src/Network/Text/Commands.antt =====
-- Which requests `is_valid_command` of net/network.c admits, and how `handle_client` answers them.
use farou_kernel.Base.{
  ℕ, ◌≡◌, ◌≢◌, refl, ap, sym, subst, Bool, true, false, ◌&&◌, ◌||◌, ◌⊎◌, inl, inr, List, [], ◌∷◌,
  ◌++◌, arith, ◌==◌, length, get_or, Bool-cases, ne→==, ==_iff,
}
use farou_kernel.Network.Text.{
  isspace, has_prefix, is_same, help, info, exit, quit, echo, allowed_commands, matches,
  any_matches, is_valid_command, answer, not_implemented, echoed,
}

-- The word ends before `rest`.
abbrev pub EndsWord : List ℕ → Type 0
EndsWord [] = Unit {0}
EndsWord (c ∷ rest) = (c ≡ 0) ⊎ (isspace c ≡ true)

-- A command: anything that starts with "echo", or one of the other words by itself or before
-- whitespace.
pub data Allowed : List ℕ → Type 0 where
  echoes : (rest : List ℕ) → Allowed (echo ++ rest)
  helps : (rest : List ℕ) → EndsWord rest → Allowed (help ++ rest)
  informs : (rest : List ℕ) → EndsWord rest → Allowed (info ++ rest)
  exits : (rest : List ℕ) → EndsWord rest → Allowed (exit ++ rest)
  quits : (rest : List ℕ) → EndsWord rest → Allowed (quit ++ rest)

and_true : (a b : Bool) → (a && b) ≡ true → (a ≡ true) × (b ≡ true)
and_true true b h = (refl, h)
and_true false b h = absurd (cc h)

has_prefix-append : (k s : List ℕ) → has_prefix k s ≡ true → (rest : List ℕ) × (s ≡ k ++ rest)
has_prefix-append [] s h = (s, refl)
has_prefix-append (k ∷ ks) [] h = absurd (cc h)
has_prefix-append (k ∷ ks) (c ∷ s) h =
    let (e, p) = and_true (k == c) (has_prefix ks s) h in
    let (rest, q) = has_prefix-append ks s p in (rest, rw ((==_iff k c).0 e) (ap (λ l. c ∷ l) q))

get_or-append : (k rest : List ℕ) → get_or (k ++ rest) (length k) 0 ≡ get_or rest 0 0
get_or-append [] rest = refl
get_or-append (c ∷ k) rest = get_or-append k rest

ends_lem :
    (rest : List ℕ) → ((get_or rest 0 0 == 0) || isspace (get_or rest 0 0)) ≡ true → EndsWord rest
ends_lem [] h = tt
ends_lem (c ∷ rest) h = elim (Bool-cases (c == 0)) [
  | inl z ↦ inl ((==_iff c 0).0 z)
  | inr n ↦ inr (rw n at h)
]

-- What a match of a keyword other than "echo" says.
word_lem :
    (k s : List ℕ)
    → is_same k echo ≡ false
    → matches s k ≡ true
    → (rest : List ℕ) × (s ≡ k ++ rest) × EndsWord rest
word_lem k s other h =
    let (p, q) = and_true (has_prefix k s) _ h in
    let (rest, e) = has_prefix-append k s p in
    let q' = rw other at q in (rest, e, ends_lem rest (rw (get_or-append k rest) at (rw e at q')))

-- A match of `k`, as the constructor `f` of `Allowed` wants it.
from_word :
    (k : List ℕ) {s : List ℕ}
    → is_same k echo ≡ false
    → ((rest : List ℕ) → EndsWord rest → Allowed (k ++ rest))
    → matches s k ≡ true
    → Allowed s
from_word k {s} other f m =
    let (rest, e, w) = word_lem k s other m in subst Allowed (sym e) (f rest w)

from_echo : {s : List ℕ} → matches s echo ≡ true → Allowed s
from_echo {s} m =
    let (rest, e) = has_prefix-append echo s (and_true (has_prefix echo s) _ m).0 in
    subst Allowed (sym e) (echoes rest)

any_matches-Allowed : (s : List ℕ) → any_matches allowed_commands s ≡ true → Allowed s
any_matches-Allowed s h = elim (Bool-cases (matches s help)) [
  | inl m ↦ from_word help refl helps m
  | inr m1 ↦ elim (Bool-cases (matches s info)) [
    | inl m ↦ from_word info refl informs m
    | inr m2 ↦ elim (Bool-cases (matches s exit)) [
      | inl m ↦ from_word exit refl exits m
      | inr m3 ↦ elim (Bool-cases (matches s quit)) [
        | inl m ↦ from_word quit refl quits m
        | inr m4 ↦ from_echo (last_match m1 m2 m3 m4)
      ]
    ]
  ]
]
  where
    last_match :
        matches s help ≡ false
        → matches s info ≡ false
        → matches s exit ≡ false
        → matches s quit ≡ false
        → matches s echo ≡ true
    last_match m1 m2 m3 m4 = elim (Bool-cases (matches s echo)) [
      | inl m ↦ m
      | inr m5 ↦ absurd (cc (rw (m1, m2, m3, m4, m5) at h))
    ]

-- `is_valid_command` admits nothing but a word of its list, by itself or before whitespace, and what
-- starts with "echo".
pub is_valid_command-Allowed : (s : List ℕ) → is_valid_command s ≡ true → Allowed s
unfolding is_valid_command
is_valid_command-Allowed [] h = absurd (cc h)
is_valid_command-Allowed (c ∷ s) h = any_matches-Allowed (c ∷ s) h

-- A request that `is_valid_command` admits and no branch of `handle_client` takes.
abbrev pub IsStray : List ℕ → Type 0
IsStray s = (is_valid_command s ≡ true) × (answer s ≡ not_implemented)

-- A request that starts with "echo" and goes on with another byte than a space is admitted, and then
-- answered as not implemented.
pub echo-IsStray : (c : ℕ) (rest : List ℕ) → c ≢ b' ' → IsStray (echo ++ c ∷ rest)
unfolding is_valid_command answer
echo-IsStray c rest other =
    let apart : (b' ' == c) ≡ false = ne→== b' ' c (λ e. other (sym e)) in (refl, rw apart refl)

-- So is each of the other words before whitespace and anything behind it.
pub word-IsStray :
    (c : ℕ) (rest : List ℕ)
    → isspace c ≡ true
    → IsStray (help ++ c ∷ rest)
      × IsStray (info ++ c ∷ rest)
      × IsStray (exit ++ c ∷ rest)
      × IsStray (quit ++ c ∷ rest)
unfolding is_valid_command answer
word-IsStray c rest space =
    let ended : ((c == 0) || isspace c) ≡ true = ground arith in
    (rw ended (refl, refl), rw ended (refl, refl), rw ended (refl, refl), rw ended (refl, refl))

-- The answer to "echo " and a message is the message.
pub answer-echo : (message : List ℕ) → answer (echo ++ b' ' ∷ message) ≡ echoed message
unfolding answer is_valid_command
answer-echo message = refl
