-- ===== src/FileTask/Tests.antt =====
-- Runs of process_file of fs/read_write.c, and the theorems at such inputs.
use farou_kernel.Base.{ℕ, List, [], ◌∷◌, ◌≡◌, refl, true, arith, inr}
use farou_kernel.FileTask.{
  interrupted, failed, gave, Host, returns, process_file, write_data, read_data,
}
use farou_kernel.FileTask.Process.{Serves, process_file-Serves, process_file-completes}

abbrev text : List ℕ
text = 104 ∷ 105 ∷ 33 ∷ []

abbrev short_writes : Host
short_writes = record {
  calloc = true;
  open_file = true;
  lseek = true;
  writes = interrupted ∷ gave 1 ∷ gave 9 ∷ gave 9 ∷ [];
  reads = gave 9 ∷ interrupted ∷ gave 9 ∷ gave 9 ∷ gave 9 ∷ [];
}

-- The fourth failure in a row ends the task.
abbrev failing : Host
failing = record short_writes { writes = gave 2 ∷ failed ∷ failed ∷ failed ∷ failed ∷ gave 9 ∷ [] }

copied : process_file short_writes 2 text ≡ returns text text 1 1
unfolding process_file write_data read_data
copied = refl

given_up : process_file failing 2 text ≡ returns (104 ∷ 105 ∷ []) [] 1 1
unfolding process_file write_data read_data
given_up = refl

process_file-Serves_example : Serves failing text (process_file failing 2 text)
process_file-Serves_example = process_file-Serves failing 2 (omega arith) text

process_file-completes_example : process_file short_writes 2 text ≡ returns text text 1 1
process_file-completes_example =
    process_file-completes short_writes 2 (omega arith) text
      (inr (omega arith, inr (omega arith, inr (omega arith, refl))))
      (inr (omega arith, inr (omega arith, inr (omega arith, inr (omega arith, refl))))) refl refl
      refl
