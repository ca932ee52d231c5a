-- ===== src/FileTask.antt =====
-- The worker of fs/read_write.c, which writes a file and prints it: `process_file`.
-- The host's answers are lists; a loop whose answers run out is still waiting. A write gives at most the
-- bytes asked for; a read gives at least one byte, and at most the buffer's size, before the end of file.
pub mod Loops
pub mod Process
mod Tests
use farou_kernel.Base.{
  ℕ, List, [], ◌∷◌, ◌++◌, suc, zero, ◌+◌, ◌-◌, Bool, true, false, ltb, ◌==◌, if◌then◌else◌, length,
  min,
}
use farou_kernel.Bytes.{slice}

abbrev pub max_retries : ℕ
max_retries = 3

-- -1 with EINTR, -1 otherwise, and a number of bytes.
pub data Answer : Type 0 where
  interrupted : Answer
  failed : Answer
  gave : ℕ → Answer

pub data Ended : Type 0 where
  completed : Ended
  gave_up : Ended
  waiting : Ended

-- How a loop ends, with the bytes of the file or of the output.
pub record Loop : Type 0 where
  pub ended : Ended
  pub bytes : List ℕ

-- The loop that writes; `content` is what the file holds.
unfoldable pub write_data : List ℕ → List Answer → ℕ → ℕ → List ℕ → Loop
write_data data_bytes [] written retries content =
    if ltb written (length data_bytes)
    then record { ended = waiting; bytes = content }
    else record { ended = completed; bytes = content }
write_data data_bytes (interrupted ∷ next) written retries content =
    let again = write_data data_bytes next written retries content in
    if ltb written (length data_bytes) then again else record { ended = completed; bytes = content }
write_data data_bytes (failed ∷ next) written retries content =
    let again = write_data data_bytes next written (retries + 1) content in
    if ltb written (length data_bytes)
    then (if ltb retries max_retries then again else record { ended = gave_up; bytes = content })
    else record { ended = completed; bytes = content }
write_data data_bytes (gave n ∷ next) written retries content =
    let bytes_op = min n (length data_bytes - written) in
    let again =
      write_data data_bytes next (written + bytes_op) 0
        (content ++ slice written bytes_op data_bytes) in
    if ltb written (length data_bytes)
    then (if bytes_op == 0 then record { ended = gave_up; bytes = content } else again)
    else record { ended = completed; bytes = content }

-- The loop that reads from `pos` on; `output` is what was printed.
unfoldable pub read_data : ℕ → List ℕ → List Answer → ℕ → ℕ → List ℕ → Loop
read_data buffer_size content [] pos retries output = record { ended = waiting; bytes = output }
read_data buffer_size content (interrupted ∷ next) pos retries output =
    read_data buffer_size content next pos retries output
read_data buffer_size content (failed ∷ next) pos retries output =
    let again = read_data buffer_size content next pos (retries + 1) output in
    if ltb retries max_retries then again else record { ended = gave_up; bytes = output }
read_data buffer_size content (gave n ∷ next) pos retries output =
    let bytes_op = min (n + 1) (min buffer_size (length content - pos)) in
    let again =
      read_data buffer_size content next (pos + bytes_op) 0
        (output ++ slice pos bytes_op content) in
    if bytes_op == 0 then record { ended = completed; bytes = output } else again

-- The host's answers to one task.
pub record Host : Type 0 where
  pub calloc : Bool
  pub open_file : Bool
  pub lseek : Bool
  pub writes : List Answer
  pub reads : List Answer

-- The program exits, the thread waits, or it returns: with the file, the output, and the calls of `close`
-- and `free`.
pub data Outcome : Type 0 where
  exits : Outcome
  waits : Outcome
  returns : List ℕ → List ℕ → ℕ → ℕ → Outcome

-- The label `cleanup`, with the number of open descriptors.
abbrev pub cleanup : ℕ → List ℕ → List ℕ → Outcome
cleanup fd content output = returns content output fd 1

abbrev pub after_read : List ℕ → Ended → List ℕ → Outcome
after_read content completed output = cleanup 1 content output
after_read content gave_up output = cleanup 1 content output
after_read content waiting output = waits

abbrev pub run_reads : Host → ℕ → List ℕ → Outcome
run_reads host buffer_size content =
    let r = read_data buffer_size content host.reads 0 0 [] in
    if host.lseek then after_read content r.ended r.bytes else cleanup 1 content []

abbrev pub after_write : Host → ℕ → Ended → List ℕ → Outcome
after_write host buffer_size completed content = run_reads host buffer_size content
after_write host buffer_size gave_up content = cleanup 1 content []
after_write host buffer_size waiting content = waits

unfoldable pub process_file : Host → ℕ → List ℕ → Outcome
process_file host buffer_size data_bytes =
    let w = write_data data_bytes host.writes 0 0 [] in
    if host.calloc
    then (if host.open_file then after_write host buffer_size w.ended w.bytes else cleanup 0 [] [])
    else exits
