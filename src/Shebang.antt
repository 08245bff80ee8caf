-- ===== src/Shebang.antt =====
-- src/execve/shebang.c: the interpreter that the first line of a script names.
pub mod Line
pub mod Reads
pub mod Bounds
use improot.Base.{
  ℕ, suc, ◌+◌, ◌-◌, Bool, true, false, not, ◌&&◌, ◌||◌, Option, none, some, List, [], ◌∷◌, ◌++◌,
  ltb, ◌==◌, if◌then◌else◌, Text, char_at, length,
}
use improot.Path.{Errno, enoexec}
use improot.Canon.{Answer, answer, error}

-- An open file: the bytes that are read, and the error of the read after them, if any.
pub record Script : Type 0 where
  pub bytes : Text
  pub read_error : Option Errno

-- The results 1, with the two texts, 0, and -errno.
pub data Shebang : Type 0 where
  found : Text → Text → Shebang
  no_script : Shebang
  fails : Errno → Shebang

abbrev pub is_blank : ℕ → Bool
is_blank c = (c == b' ') || (c == 9)

abbrev pub is_end_of_line : ℕ → Bool
is_end_of_line c = (c == 10) || (c == 13)

-- The text in a buffer in which these bytes were written.
unfoldable pub text_in : Text → Text
text_in [] = []
text_in (c ∷ written) = if c == 0 then [] else c ∷ text_in written

-- `i > 1 && user_path[i - 1] == '\0'`
abbrev pub begins_argument : Text → Bool
begins_argument written = ltb 1 (length written) && (char_at written (length written - 1) == 0)

-- The loop that removes trailing spaces: all of the bytes but the first are looked at.
unfoldable pub trimmed_tail : Text → Text
trimmed_tail [] = []
trimmed_tail (c ∷ written) =
    let tail = trimmed_tail written in if is_blank c && (length tail == 0) then [] else c ∷ tail

unfoldable pub trimmed : Text → Text
unfolding trimmed_tail
trimmed [] = []
trimmed (c ∷ written) = c ∷ trimmed_tail written

-- A read that finds no more bytes.
abbrev pub ended : Option Errno → Shebang → Shebang
ended (some e) result = fails e
ended none result = result

module _ (binprm_buf_size : ℕ) (read_error : Option Errno) where
  -- A byte of the argument; `more` goes on with the next one.
  abbrev pub argument_byte : Text → Text → ℕ → ℕ → Shebang → Shebang
  argument_byte user_path written current_length tmp more =
      if not (ltb current_length binprm_buf_size)
      then found user_path (text_in written)
      else if is_end_of_line tmp
      then found user_path (text_in (trimmed written))
      else more

  -- The loop from the label `argument`.
  unfoldable pub slurp_argument : Text → Text → ℕ → ℕ → Text → Shebang
  slurp_argument user_path written current_length tmp [] =
      argument_byte user_path written current_length tmp (ended read_error (found user_path []))
  slurp_argument user_path written current_length tmp (next ∷ bytes) =
      let more = slurp_argument user_path (written ++ (tmp ∷ [])) (suc current_length) next bytes in
      argument_byte user_path written current_length tmp more

  -- A byte of the interpreter's path; `more` goes on with the next one.
  abbrev pub path_byte : Text → ℕ → ℕ → Shebang → Shebang → Shebang
  path_byte written current_length tmp argument more =
      if not (ltb current_length binprm_buf_size)
      then found (text_in written) []
      else if is_blank tmp
      then more
      else if is_end_of_line tmp
      then found (text_in written) []
      else if begins_argument written
      then argument
      else more

  -- The loop over the interpreter's path.
  unfoldable pub slurp_path : Text → ℕ → ℕ → Text → Shebang
  slurp_path written current_length tmp [] =
      path_byte written current_length tmp
        (slurp_argument (text_in written) [] current_length tmp [])
        (ended read_error (found (text_in written) []))
  slurp_path written current_length tmp (next ∷ bytes) =
      let stored = if is_blank tmp then 0 else tmp in
      let more = slurp_path (written ++ (stored ∷ [])) (suc current_length) next bytes in
      path_byte written current_length tmp
        (slurp_argument (text_in written) [] current_length tmp (next ∷ bytes)) more

  -- The loop that skips leading spaces.
  unfoldable pub skip_leading : ℕ → Text → Shebang
  skip_leading current_length [] = ended read_error (fails enoexec)
  skip_leading current_length (tmp ∷ bytes) =
      let more = skip_leading (suc current_length) bytes in
      if is_blank tmp && ltb (suc current_length) binprm_buf_size
      then more
      else slurp_path [] (suc current_length) tmp bytes

unfoldable pub magic_read : ℕ → Option Errno → Text → Shebang
magic_read binprm_buf_size read_error [] = ended read_error no_script
magic_read binprm_buf_size read_error (a ∷ []) = no_script
magic_read binprm_buf_size read_error (a ∷ b ∷ bytes) =
    if not (a == b'#') || not (b == b'!')
    then no_script
    else skip_leading binprm_buf_size read_error 2 bytes

-- `extract_shebang`, of what open(2) answers.
unfoldable pub extract_shebang : ℕ → Answer Script → Shebang
extract_shebang binprm_buf_size (error e) = fails e
extract_shebang binprm_buf_size (answer script) =
    magic_read binprm_buf_size script.read_error script.bytes
