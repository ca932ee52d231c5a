-- ===== src/Network/Text.antt =====
-- The text of a request in net/network.c: `sanitize_input` and `is_valid_command`, and the answer that
-- `handle_client` chooses.
-- A string is the list of its bytes, without the terminating NUL; the character classes are those of
-- the C locale.
pub mod Clean
pub mod Commands
use farou_kernel.Base.{
  ℕ, zero, suc, ◌+◌, ◌-◌, ◌≤◌, ◌<◌, ◌≡◌, Bool, true, false, not, ◌&&◌, ◌||◌, Option, none, some,
  List, [], ◌∷◌, map, ltb, leb, ◌==◌, if◌then◌else◌, length, get_or, take, drop,
}

abbrev pub max_command_line_length : ℕ
max_command_line_length = 1024

abbrev pub isspace : ℕ → Bool
isspace c = (c == 32) || (leb 9 c && leb c 13)

abbrev pub isprint : ℕ → Bool
isprint c = leb 32 c && leb c 126

-- The removal of the last byte, if it is `c`.
abbrev pub chop : ℕ → List ℕ → List ℕ
chop c s = if ltb 0 (length s) && (get_or s (length s - 1) 0 == c) then take (length s - 1) s else s

abbrev pub truncate : List ℕ → List ℕ
truncate s =
    if leb max_command_line_length (length s) then take (max_command_line_length - 1) s else s

abbrev pub placeholder : ℕ → ℕ
placeholder c = if not (isprint c) && not (isspace c) then b'?' else c

abbrev pub printable : List ℕ → List ℕ
printable [] = []
printable (c ∷ s) = placeholder c ∷ printable s

-- `start` moves over the whitespace at the front, which `memmove` then removes.
abbrev pub trim_leading : List ℕ → List ℕ
trim_leading [] = []
trim_leading (c ∷ s) = if isspace c then trim_leading s else c ∷ s

-- The loop that shortens `buffer`, with `len` bytes left.
abbrev pub trim_trailing : ℕ → List ℕ → List ℕ
trim_trailing zero s = []
trim_trailing (suc len) s =
    if isspace (get_or s len 0) then trim_trailing len s else take (suc len) s

unfoldable pub sanitize_input : List ℕ → List ℕ
sanitize_input s =
    let t = trim_leading (printable (truncate (chop b'\r' (chop b'\n' s)))) in
    trim_trailing (length t) t

-- `strncmp(s, keyword, strlen(keyword)) == 0`.
abbrev pub has_prefix : List ℕ → List ℕ → Bool
has_prefix [] s = true
has_prefix (k ∷ ks) [] = false
has_prefix (k ∷ ks) (c ∷ s) = (k == c) && has_prefix ks s

-- `strcmp(s, t) == 0`.
abbrev pub is_same : List ℕ → List ℕ → Bool
is_same [] [] = true
is_same [] (c ∷ s) = false
is_same (k ∷ ks) [] = false
is_same (k ∷ ks) (c ∷ s) = (k == c) && is_same ks s

abbrev pub help : List ℕ
help = b'h' ∷ b'e' ∷ b'l' ∷ b'p' ∷ []

abbrev pub info : List ℕ
info = b'i' ∷ b'n' ∷ b'f' ∷ b'o' ∷ []

abbrev pub exit : List ℕ
exit = b'e' ∷ b'x' ∷ b'i' ∷ b't' ∷ []

abbrev pub quit : List ℕ
quit = b'q' ∷ b'u' ∷ b'i' ∷ b't' ∷ []

abbrev pub echo : List ℕ
echo = b'e' ∷ b'c' ∷ b'h' ∷ b'o' ∷ []

abbrev pub allowed_commands : List (List ℕ)
allowed_commands = help ∷ info ∷ exit ∷ quit ∷ echo ∷ []

-- One round of the loop of `is_valid_command`: the keyword stands at the front, and for all but
-- "echo" the command or its first word ends there; the byte behind the string is its NUL.
abbrev pub matches : List ℕ → List ℕ → Bool
matches command keyword =
    has_prefix keyword command
    && (is_same keyword echo
        || ((get_or command (length keyword) 0 == 0)
            || isspace (get_or command (length keyword) 0)))

abbrev pub any_matches : List (List ℕ) → List ℕ → Bool
any_matches [] command = false
any_matches (k ∷ ks) command = if matches command k then true else any_matches ks command

abbrev pub is_empty : List ℕ → Bool
is_empty [] = true
is_empty (c ∷ s) = false

unfoldable pub is_valid_command : List ℕ → Bool
is_valid_command command = if is_empty command then false else any_matches allowed_commands command

-- What `handle_client` sends for a request after `sanitize_input`.
pub data Answer : Type 0 where
  prompt : Answer
  goodbye : Answer
  unknown_command : Answer
  help_message : Answer
  information : Answer
  echoed : List ℕ → Answer
  not_implemented : Answer

unfoldable pub answer : List ℕ → Answer
answer s =
    if is_empty s
    then prompt
    else (if is_same s exit || is_same s quit
        then goodbye
        else (if not (is_valid_command s)
            then unknown_command
            else (if is_same s help
                then help_message
                else (if is_same s info
                    then information
                    else (if has_prefix (b'e' ∷ b'c' ∷ b'h' ∷ b'o' ∷ b' ' ∷ []) s
                        then echoed (drop 5 s)
                        else (if is_same s echo then echoed [] else not_implemented))))))
