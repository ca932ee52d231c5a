-- ===== src/FileTask/Loops.antt =====
-- The two loops of fs/read_write.c.
use farou_kernel.Base.{
  ℕ, List, [], ◌∷◌, ◌++◌, suc, zero, ◌+◌, ◌-◌, ◌≤◌, ◌<◌, ◌≡◌, ◌≢◌, ◌⊎◌, refl, ap, false, Bool-cases,
  inl, inr, ltb, ◌==◌, length, min, take, arith, ltb→lt, ltb→ge, ge→ltb, ne→==, ==_iff,
}
use farou_kernel.Bytes.{slice}
use farou_kernel.FileTask.{
  Answer, interrupted, failed, gave, Ended, completed, gave_up, waiting, Loop, write_data,
  read_data,
}

take_nil : (n : ℕ) → take {A = ℕ} n [] ≡ []
take_nil zero = refl
take_nil (suc n) = refl

-- `k` bytes and the next `n` are `k + n` bytes.
pub take-slice : (k n : ℕ) (xs : List ℕ) → take k xs ++ slice k n xs ≡ take (k + n) xs
take-slice zero n xs = ap (λ a. take a xs) (omega arith)
take-slice (suc k) n [] = let e : suc k + n ≡ suc (k + n) = omega arith in rw (e, take_nil n) refl
take-slice (suc k) n (x ∷ xs) =
    let e : suc k + n ≡ suc (k + n) = omega arith in rw (e, take-slice k n xs) refl

pub take_all : (k : ℕ) (xs : List ℕ) → length xs ≤ k → take k xs ≡ xs
take_all zero [] h = refl
take_all zero (x ∷ xs) h = absurd (omega (arith, h))
take_all (suc k) [] h = refl
take_all (suc k) (x ∷ xs) h = ap (λ a. x ∷ a) (take_all k xs (omega (arith, h)))

-- The bytes are the first of the list, and all of it where the loop completed.
pub record Copies (xs : List ℕ) (r : Loop) : Type 0 where
  pub count : ℕ
  pub prefix : r.bytes ≡ take count xs
  pub whole : r.ended ≡ completed → r.bytes ≡ xs

module _ (xs : List ℕ) where
  partial :
      (e : Ended) → e ≢ completed → (k : ℕ) → Copies xs (record { ended = e; bytes = take k xs })
  partial e ne k = record { count = k; prefix = refl; whole = λ q. absurd (ne q) }

  total : (k : ℕ) → length xs ≤ k → Copies xs (record { ended = completed; bytes = take k xs })
  total k h = record { count = k; prefix = refl; whole = λ q. take_all k xs h }

  pub write_data-Copies :
      (next : List Answer) (k retries : ℕ) → Copies xs (write_data xs next k retries (take k xs))
  unfolding write_data
  write_data-Copies [] k retries = elim (Bool-cases (ltb k (length xs))) [
    | inl y ↦ rw y (partial waiting (λ q. cc q) k)
    | inr n ↦ rw n (total k (ltb→ge _ _ n))
  ]
  write_data-Copies (interrupted ∷ next) k retries = elim (Bool-cases (ltb k (length xs))) [
    | inl y ↦ rw y (write_data-Copies next k retries)
    | inr n ↦ rw n (total k (ltb→ge _ _ n))
  ]
  write_data-Copies (failed ∷ next) k retries = elim (Bool-cases (ltb k (length xs))) [
    | inl y ↦ elim (Bool-cases (ltb retries 3)) [
      | inl more ↦ rw (y, more) (write_data-Copies next k (retries + 1))
      | inr stop ↦ rw (y, stop) (partial gave_up (λ q. cc q) k)
    ]
    | inr n ↦ rw n (total k (ltb→ge _ _ n))
  ]
  write_data-Copies (gave b ∷ next) k retries =
      let n = min b (length xs - k) in
      elim (Bool-cases (ltb k (length xs))) [
        | inl y ↦ elim (Bool-cases (n == 0)) [
          | inl none_given ↦ rw (y, none_given) (partial gave_up (λ q. cc q) k)
          | inr some_given ↦
              rw (y, some_given, take-slice k n xs) (write_data-Copies next (k + n) 0)
        ]
        | inr done ↦ rw done (total k (ltb→ge _ _ done))
      ]

  module _ (buffer_size : ℕ) (room : 0 < buffer_size) where
    pub read_data-Copies :
        (next : List Answer) (k retries : ℕ)
        → Copies xs (read_data buffer_size xs next k retries (take k xs))
    unfolding read_data
    read_data-Copies [] k retries = partial waiting (λ q. cc q) k
    read_data-Copies (interrupted ∷ next) k retries = read_data-Copies next k retries
    read_data-Copies (failed ∷ next) k retries = elim (Bool-cases (ltb retries 3)) [
      | inl more ↦ rw more (read_data-Copies next k (retries + 1))
      | inr stop ↦ rw stop (partial gave_up (λ q. cc q) k)
    ]
    read_data-Copies (gave b ∷ next) k retries =
        let n = min (b + 1) (min buffer_size (length xs - k)) in
        elim (Bool-cases (n == 0)) [
          | inl at_end ↦
              let z : n ≡ 0 = (==_iff _ _).0 at_end in rw at_end (total k (omega (arith, z, room)))
          | inr more ↦ rw (more, take-slice k n xs) (read_data-Copies next (k + n) 0)
        ]

-- Answers of which `k` give bytes and none fails before.
abbrev pub Steady : List Answer → ℕ → Type 0
Steady [] k = k ≡ 0
Steady (interrupted ∷ next) k = Steady next k
Steady (failed ∷ next) k = k ≡ 0
Steady (gave n ∷ next) k = (k ≡ 0) ⊎ ((0 < n) × Steady next (k - 1))

module _ (xs : List ℕ) where
  pub write_data-Steady :
      (next : List Answer) (k written retries : ℕ) (content : List ℕ)
      → Steady next k
      → length xs ≤ written + k
      → (write_data xs next written retries content).ended ≡ completed
  unfolding write_data
  write_data-Steady [] k written retries content s le =
      let n : ltb written (length xs) ≡ false = ge→ltb _ _ (omega (arith, le, s)) in rw n refl
  write_data-Steady (interrupted ∷ next) k written retries content s le =
      elim (Bool-cases (ltb written (length xs))) [
        | inl y ↦ rw y (write_data-Steady next k written retries content s le)
        | inr n ↦ rw n refl
      ]
  write_data-Steady (failed ∷ next) k written retries content s le =
      let n : ltb written (length xs) ≡ false = ge→ltb _ _ (omega (arith, le, s)) in rw n refl
  write_data-Steady (gave b ∷ next) k written retries content (inl z) le =
      let n : ltb written (length xs) ≡ false = ge→ltb _ _ (omega (arith, le, z)) in rw n refl
  write_data-Steady (gave b ∷ next) k written retries content (inr (some_bytes, s)) le =
      let bytes_op = min b (length xs - written) in
      elim (Bool-cases (ltb written (length xs))) [
        | inr n ↦ rw n refl
        | inl y ↦
            let more : (bytes_op == 0) ≡ false =
              ne→== _ _ (λ q. omega (arith, q, some_bytes, ltb→lt _ _ y)) in
            rw (y, more)
              (write_data-Steady next (k - 1) (written + bytes_op) 0
                (content ++ slice written bytes_op xs) s
                (omega (arith, le, some_bytes, ltb→lt _ _ y)))
      ]

  pub read_data-Steady :
      (buffer_size : ℕ) (next : List Answer) (k pos retries : ℕ) (output : List ℕ)
      → 0 < buffer_size
      → pos ≤ length xs
      → Steady next k
      → length xs < pos + k
      → (read_data buffer_size xs next pos retries output).ended ≡ completed
  unfolding read_data
  read_data-Steady buffer_size [] k pos retries output room low s le =
      absurd (omega (arith, s, le, low))
  read_data-Steady buffer_size (interrupted ∷ next) k pos retries output room low s le =
      read_data-Steady buffer_size next k pos retries output room low s le
  read_data-Steady buffer_size (failed ∷ next) k pos retries output room low s le =
      absurd (omega (arith, s, le, low))
  read_data-Steady buffer_size (gave b ∷ next) k pos retries output room low (inl z) le =
      absurd (omega (arith, z, le, low))
  read_data-Steady buffer_size (gave b ∷ next) k pos retries output room low (inr (some_bytes, s))
        le =
      let bytes_op = min (b + 1) (min buffer_size (length xs - pos)) in
      elim (Bool-cases (bytes_op == 0)) [
        | inl at_end ↦ rw at_end refl
        | inr more ↦
            let at_least : bytes_op ≢ 0 = λ q. ground (arith, q, more) in
            rw more (
              read_data-Steady buffer_size next (k - 1) (pos + bytes_op) 0
                (output ++ slice pos bytes_op xs) room (omega (arith, low)) s
                (omega (arith, le, low, some_bytes, at_least)))
      ]
