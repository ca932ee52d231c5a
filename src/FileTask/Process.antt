-- ===== src/FileTask/Process.antt =====
-- process_file of fs/read_write.c.
use farou_kernel.Base.{
  ℕ, List, [], suc, ◌<◌, ◌≡◌, ◌≢◌, refl, sym, subst, true, false, Bool-cases, inl, inr,
  if◌then◌else◌, length, take, arith,
}
use farou_kernel.FileTask.{
  Ended, completed, gave_up, waiting, Host, Outcome, exits, waits, returns, cleanup, after_read,
  run_reads, after_write, process_file,
}
use farou_kernel.FileTask.Loops.{
  Copies, write_data-Copies, read_data-Copies, take_all, Steady, write_data-Steady,
  read_data-Steady,
}

-- The first bytes of a list.
abbrev pub Prefix : List ℕ → List ℕ → Type 0
Prefix xs ys = (k : ℕ) × (xs ≡ take k ys)

-- A task exits only for want of a buffer. Where it returns, the buffer is given back once, the file is
-- closed if it was opened, and the file and the output hold the first bytes of the data.
abbrev pub Serves : Host → List ℕ → Outcome → Type 0
Serves host data_bytes exits = host.calloc ≡ false
Serves host data_bytes waits = (host.calloc ≡ true) × (host.open_file ≡ true)
Serves host data_bytes (returns content output closed freed) =
    (freed ≡ 1)
    × (closed ≡ (if host.open_file then 1 else 0))
    × Prefix content data_bytes
    × Prefix output data_bytes
    × ((output ≢ []) → content ≡ data_bytes)

module _ (host : Host) (buffer_size : ℕ) (room : 0 < buffer_size) (xs : List ℕ) where
  module _ (alloc : host.calloc ≡ true) (opened : host.open_file ≡ true) where
    closed_once : ◌≡◌ {A = ℕ} 1 (if host.open_file then 1 else 0)
    closed_once = rw opened refl

    everything : Prefix xs xs
    everything = (length xs, sym (take_all (length xs) xs (omega arith)))

    no_output : (content : List ℕ) → Prefix content xs → Serves host xs (cleanup 1 content [])
    no_output content p = (refl, closed_once, p, (0, refl), λ n. absurd (n refl))

    read-Serves :
        (e : Ended) (output : List ℕ)
        → Copies xs (record { ended = e; bytes = output })
        → Serves host xs (after_read xs e output)
    read-Serves completed output c = (refl, closed_once, everything, (c.count, c.prefix), λ n. refl)
    read-Serves gave_up output c = (refl, closed_once, everything, (c.count, c.prefix), λ n. refl)
    read-Serves waiting output c = (alloc, opened)

    reads-Serves : Serves host xs (run_reads host buffer_size xs)
    reads-Serves = elim (Bool-cases host.lseek) [
      | inl y ↦ simp (y) (read-Serves _ _ (read_data-Copies xs buffer_size room host.reads 0 0))
      | inr n ↦ simp (n) (no_output xs everything)
    ]

    write-Serves :
        (e : Ended) (content : List ℕ)
        → Copies xs (record { ended = e; bytes = content })
        → Serves host xs (after_write host buffer_size e content)
    write-Serves completed content c =
        subst (λ b. Serves host xs (run_reads host buffer_size b)) (sym (c.whole refl)) reads-Serves
    write-Serves gave_up content c = no_output content (c.count, c.prefix)
    write-Serves waiting content c = (alloc, opened)

  -- process_file exits only where calloc fails, and waits only with the file open. Where it returns, it
  -- has given the buffer back once and closed the file if it was opened, once; the file and the output
  -- hold the first bytes of the data, and nothing is printed before the file holds all of them.
  pub process_file-Serves : Serves host xs (process_file host buffer_size xs)
  unfolding process_file
  process_file-Serves = elim (Bool-cases host.calloc) [
    | inr n ↦ simp (n) refl
    | inl alloc ↦ elim (Bool-cases host.open_file) [
      | inr shut ↦ simp (alloc, shut) (refl, refl, (0, refl), (0, refl), λ n. absurd (n refl))
      | inl opened ↦
          simp (alloc, opened)
            (write-Serves alloc opened _ _ (write_data-Copies xs host.writes 0 0))
    ]
  ]

  module _ (writes : Steady host.writes (length xs))
      (reads : Steady host.reads (suc (length xs))) where
    -- With a host that opens the file, and answers of which enough give bytes before one fails,
    -- process_file returns with the data in the file and in the output.
    pub process_file-completes :
        host.calloc ≡ true
        → host.open_file ≡ true
        → host.lseek ≡ true
        → process_file host buffer_size xs ≡ returns xs xs 1 1
    unfolding process_file
    process_file-completes alloc opened seek =
        let we = write_data-Steady xs host.writes (length xs) 0 0 [] writes (omega arith) in
        let wb = (write_data-Copies xs host.writes 0 0).whole we in
        let re =
          read_data-Steady xs buffer_size host.reads (suc (length xs)) 0 0 [] room (omega arith)
            reads (omega arith) in
        let rb = (read_data-Copies xs buffer_size room host.reads 0 0).whole re in
        rw (alloc, opened, we, wb, seek, re, rb) refl
