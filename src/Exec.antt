-- ===== src/Exec.antt =====
-- src/execve: the programs that an execve(2) runs, from translate_and_check_exec (enter.c) to the
-- expansion of scripts (expand_shebang of shebang.c) over the array of arguments (aoxp.c).
pub mod Argv
pub mod Ends
pub mod Scripts
use improot.Base.{
  ℕ, zero, suc, ◌+◌, Bool, true, false, not, Option, none, some, List, [], ◌∷◌, ◌++◌, ◌==◌,
  if◌then◌else◌, Text, length, take, drop, replicate, set_elem,
}
use improot.Path.{Errno, enoent, enoexec, eacces, eperm, efault, eloop}
use improot.Proc.{Tracee}
use improot.Canon.{Surroundings, Answer, answer, error, maxsymlinks}
use improot.Canon.Walk.{Outcome, ok, err, out_of_fuel}
use improot.Translate.{Extensions, at_fdcwd, translate_path}
use improot.Shebang.{Script, Shebang, found, no_script, fails, extract_shebang}

-- What access(2), lstat(2) and open(2) say of a path on the host.
pub record Programs : Type 0 where
  pub exists : Text → Bool
  pub is_executable : Text → Bool
  pub has_status : Text → Bool
  pub open_file : Text → Answer Script

-- `XPointer`: the pointer in the tracee, and the string that takes its place.
pub record XPointer : Type 0 where
  pub remote : ℕ
  pub local : Option Text

abbrev pub null_pointer : XPointer
null_pointer = record { remote = 0; local = none }

abbrev pub local_string : Text → XPointer
local_string string = record { remote = 0; local = some string }

-- `fetch_array_of_xpointers` of a whole array, from the words that can be read at its address.
unfoldable pub fetch_array_of_xpointers : List ℕ → Answer (List XPointer)
fetch_array_of_xpointers [] = error efault
fetch_array_of_xpointers (pointer ∷ words) =
    let entry : XPointer = record { remote = pointer; local = none } in
    if pointer == 0 then answer (null_pointer ∷ []) else elim (fetch_array_of_xpointers words) [
      | error e ↦ error e
      | answer array ↦ answer (entry ∷ array)
    ]

-- `resize_array_of_xpointers`, by a number of entries that is not negative.
unfoldable pub resize_array_of_xpointers : ℕ → ℕ → List XPointer → List XPointer
resize_array_of_xpointers index delta array =
    take index array ++ (replicate delta null_pointer ++ drop index array)

-- `write_xpointee_as_string`
unfoldable pub write_xpointee_as_string : ℕ → Text → List XPointer → List XPointer
write_xpointee_as_string zero string [] = []
write_xpointee_as_string zero string (pointer ∷ array) =
    record pointer { local = some string } ∷ array
write_xpointee_as_string (suc index) string [] = []
write_xpointee_as_string (suc index) string (pointer ∷ array) =
    pointer ∷ write_xpointee_as_string index string array

-- `write_xpointees`
unfoldable pub write_xpointees : ℕ → List Text → List XPointer → List XPointer
unfolding write_xpointee_as_string
write_xpointees index [] array = array
write_xpointees index (string ∷ strings) array =
    write_xpointees (suc index) strings (write_xpointee_as_string index string array)

abbrev pub only_null : List XPointer → ℕ
only_null array = if length array == 1 then 1 else 0

-- The arguments behind an interpreter.
unfoldable pub expand_argv : Text → Text → Text → List XPointer → List XPointer
unfolding resize_array_of_xpointers write_xpointees
expand_argv user_path [] old_user_path argv =
    write_xpointees 0 (user_path ∷ old_user_path ∷ [])
      (resize_array_of_xpointers 0 (1 + only_null argv) argv)
expand_argv user_path (c ∷ argument) old_user_path argv =
    write_xpointees 0 (user_path ∷ (c ∷ argument) ∷ old_user_path ∷ [])
      (resize_array_of_xpointers 0 (2 + only_null argv) argv)

-- How the expansion ends: with whether there was a script, the two paths and the arguments, if
-- they were fetched; or with an error.
pub data Expansion : Type 0 where
  expanded : Bool → Text → Text → Option (List XPointer) → Expansion
  refused : Errno → Expansion
  never_ends : Expansion

module _ (programs : Programs) where
  unfoldable pub check_exec : Outcome → Outcome
  check_exec (err e) = err e
  check_exec out_of_fuel = out_of_fuel
  check_exec (ok host_path) =
      if not (programs.exists host_path)
      then err enoent
      else if not (programs.is_executable host_path)
      then err eacces
      else if not (programs.has_status host_path)
      then err eperm
      else ok host_path

  module _ (sys : Surroundings) (ext : Extensions) (tracee : Tracee) (tracees : List Tracee)
      (fuel : ℕ) where
    -- `translate_and_check_exec`, with fuel for `translate_path`.
    unfoldable pub translate_and_check_exec : Text → Outcome
    unfolding check_exec
    translate_and_check_exec [] = err enoexec
    translate_and_check_exec (c ∷ user_path) =
        check_exec (translate_path sys ext tracee tracees fuel at_fdcwd (c ∷ user_path) true)

    module _ (buf : ℕ) (words : List ℕ) (push : List XPointer → Option Errno) where
      abbrev pub fetched : Option (List XPointer) → Answer (List XPointer)
      fetched none = fetch_array_of_xpointers words
      fetched (some argv) = answer argv

      unfoldable pub pushed : Bool → Text → Text → Option (List XPointer) → Expansion
      pushed has_shebang host_path user_path none = expanded has_shebang host_path user_path none
      pushed has_shebang host_path user_path (some argv) = elim (push argv) [
        | none ↦ expanded has_shebang host_path user_path (some argv)
        | some e ↦ refused e
      ]

      -- The rounds of the loop take `next`, the rounds behind them.
      unfoldable pub with_argv :
          (Text → List XPointer → Expansion)
          → Text
          → Text
          → Text
          → Answer (List XPointer)
          → Expansion
      with_argv next user_path argument old_user_path (error e) = refused e
      with_argv next user_path argument old_user_path (answer argv) =
          next user_path (expand_argv user_path argument old_user_path argv)

      unfoldable pub after_interpreter :
          (Text → List XPointer → Expansion)
          → Text
          → Text
          → Text
          → Option (List XPointer)
          → Outcome
          → Expansion
      unfolding with_argv
      after_interpreter next user_path argument old_user_path argv (err e) = refused e
      after_interpreter next user_path argument old_user_path argv out_of_fuel = never_ends
      after_interpreter next user_path argument old_user_path argv (ok host_path) =
          with_argv next user_path argument old_user_path (fetched argv)

      unfoldable pub after_shebang :
          (Text → List XPointer → Expansion)
          → Bool
          → Text
          → Text
          → Option (List XPointer)
          → Shebang
          → Expansion
      unfolding after_interpreter pushed
      after_shebang next has_shebang host_path old_user_path argv (fails e) = refused e
      after_shebang next has_shebang host_path old_user_path argv no_script =
          pushed has_shebang host_path old_user_path argv
      after_shebang next has_shebang host_path old_user_path argv (found user_path argument) =
          after_interpreter next user_path argument old_user_path argv
            (translate_and_check_exec user_path)

      unfoldable pub after_translation :
          (Text → List XPointer → Expansion)
          → Bool
          → Text
          → Option (List XPointer)
          → Outcome
          → Expansion
      unfolding after_shebang
      after_translation next has_shebang user_path argv (err e) = refused e
      after_translation next has_shebang user_path argv out_of_fuel = never_ends
      after_translation next has_shebang user_path argv (ok host_path) =
          after_shebang next has_shebang host_path user_path argv
            (extract_shebang buf (programs.open_file host_path))

      -- The loop, with the rounds that are left.
      unfoldable pub expand_rounds : ℕ → Bool → Text → Option (List XPointer) → Expansion
      unfolding after_translation
      expand_rounds zero has_shebang user_path argv = refused eloop
      expand_rounds (suc rounds) has_shebang user_path argv =
          after_translation
            (λ interpreter expanded_argv.
              expand_rounds rounds true interpreter (some expanded_argv))
            has_shebang user_path argv (translate_and_check_exec user_path)

      -- `expand_shebang`
      unfoldable pub expand_shebang : Text → Expansion
      unfolding expand_rounds
      expand_shebang user_path = expand_rounds maxsymlinks false user_path none
