-- ===== src/Heap/Insert.antt =====
-- kheap_add_to_free_list of kernel/memory.c: the list with a block inserted.
use farou_kernel.Base.{
  ℕ, List, [], ◌∷◌, ◌≤◌, ◌≡◌, inl, inr, refl, ltb, arith, Bool-cases, ltb→lt, ltb→ge,
}
use farou_kernel.Heap.Layout.{Fits, end_of, FreeBlock, Chain, Apart, total}
use farou_kernel.Heap.{Headers, insert_after, insert_block}

module _ (hd : Headers) (x : ℕ) where
  pub insert_after-Chain :
      (lo : ℕ) (bs : List ℕ) (hi : ℕ)
      → Chain hd lo bs hi
      → FreeBlock hd x
      → lo ≤ x
      → end_of hd x ≤ hi
      → Apart hd x (end_of hd x) bs
      → Chain hd lo (insert_after x bs) hi
  unfolding insert_after
  insert_after-Chain lo [] hi c free low high p = (low, free, high)
  insert_after-Chain lo (b ∷ bs) hi c free low high p = elim (Bool-cases (ltb b x)) [
    | inl y ↦ rw y (
      c.0,
      c.1,
      insert_after-Chain (end_of hd b) bs hi c.2 free (omega (arith, p.0, ltb→lt b x y)) high p.1,
    )
    | inr n ↦ rw n (low, free, (omega (arith, p.0, ltb→ge b x n), c.1, c.2))
  ]

  pub insert_block-Chain :
      (lo : ℕ) (bs : List ℕ) (hi : ℕ)
      → Chain hd lo bs hi
      → FreeBlock hd x
      → lo ≤ x
      → end_of hd x ≤ hi
      → Apart hd x (end_of hd x) bs
      → Chain hd lo (insert_block x bs) hi
  unfolding insert_block
  insert_block-Chain lo [] hi c free low high p = (low, free, high)
  insert_block-Chain lo (b ∷ bs) hi c free low high p = elim (Bool-cases (ltb x b)) [
    | inl y ↦ rw y (low, free, (omega (arith, p.0, ltb→lt x b y), c.1, c.2))
    | inr n ↦ rw n (
      c.0,
      c.1,
      insert_after-Chain (end_of hd b) bs hi c.2 free (omega (arith, p.0, ltb→ge x b n)) high p.1,
    )
  ]

  pub total-insert_after : (bs : List ℕ) → total hd (insert_after x bs) ≡ total hd (x ∷ bs)
  unfolding insert_after
  total-insert_after [] = refl
  total-insert_after (b ∷ bs) = elim (Bool-cases (ltb b x)) [
    | inl y ↦ rw y (omega (arith, total-insert_after bs))
    | inr n ↦ rw n refl
  ]

  pub total-insert_block : (bs : List ℕ) → total hd (insert_block x bs) ≡ total hd (x ∷ bs)
  unfolding insert_block
  total-insert_block [] = refl
  total-insert_block (b ∷ bs) = elim (Bool-cases (ltb x b)) [
    | inl y ↦ rw y refl
    | inr n ↦ rw n (omega (arith, total-insert_after bs))
  ]

  -- A range apart from the block and from the list is apart from the new list.
  pub Apart-insert_after :
      (a z : ℕ) (bs : List ℕ) → Apart hd a z (x ∷ bs) → Apart hd a z (insert_after x bs)
  unfolding insert_after
  Apart-insert_after a z [] p = p
  Apart-insert_after a z (b ∷ bs) p = elim (Bool-cases (ltb b x)) [
    | inl y ↦ rw y (p.1.0, Apart-insert_after a z bs (p.0, p.1.1))
    | inr n ↦ rw n p
  ]

  pub Apart-insert_block :
      (a z : ℕ) (bs : List ℕ) → Apart hd a z (x ∷ bs) → Apart hd a z (insert_block x bs)
  unfolding insert_block
  Apart-insert_block a z [] p = p
  Apart-insert_block a z (b ∷ bs) p = elim (Bool-cases (ltb x b)) [
    | inl y ↦ rw y p
    | inr n ↦ rw n (p.1.0, Apart-insert_after a z bs (p.0, p.1.1))
  ]

  module _ (n : ℕ) (room : n ≤ (hd x).size) where
    Fits-insert_after : (bs : List ℕ) → Fits hd n (insert_after x bs)
    unfolding insert_after
    Fits-insert_after [] = inl room
    Fits-insert_after (b ∷ bs) = elim (Bool-cases (ltb b x)) [
      | inl y ↦ rw y (inr (Fits-insert_after bs))
      | inr later ↦ rw later (inl room)
    ]

    pub Fits-insert_block : (bs : List ℕ) → Fits hd n (insert_block x bs)
    unfolding insert_block
    Fits-insert_block [] = inl room
    Fits-insert_block (b ∷ bs) = elim (Bool-cases (ltb x b)) [
      | inl y ↦ rw y (inl room)
      | inr later ↦ rw later (inr (Fits-insert_after bs))
    ]
