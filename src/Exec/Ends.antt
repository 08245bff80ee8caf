-- ===== src/Exec/Ends.antt =====
-- `expand_shebang` ends.
use improot.Base.{
  ℕ, zero, suc, ◌+◌, ◌≤◌, ◌≢◌, refl, Bool, true, false, Option, none, some, List, [], ◌∷◌, arith,
  Text,
}
use improot.Path.{Errno}
use improot.Proc.{Tracee}
use improot.Canon.{Surroundings, Answer, answer, error, maxsymlinks}
use improot.Canon.Walk.{Outcome, ok, err, out_of_fuel}
use improot.Translate.{Extensions, at_fdcwd}
use improot.Translate.Total.{translate_path-ends}
use improot.Shebang.{Shebang, found, no_script, fails}
use improot.Exec.{
  Programs, XPointer, Expansion, expanded, refused, never_ends, check_exec,
  translate_and_check_exec, pushed, with_argv, after_interpreter, after_shebang, after_translation,
  expand_rounds, expand_shebang, fetched,
}

check_exec-ends :
    (programs : Programs) (o : Outcome) → o ≢ out_of_fuel → check_exec programs o ≢ out_of_fuel
unfolding check_exec
check_exec-ends programs (err e) h = λ q. cc
check_exec-ends programs out_of_fuel h = h
check_exec-ends programs (ok t) h = λ q. ground arith

module _ (programs : Programs) (sys : Surroundings) (ext : Extensions) (tracee : Tracee)
    (tracees : List Tracee) (fuel : ℕ) (enough : maxsymlinks + 2 ≤ fuel) where
  abbrev check : Text → Outcome
  check = translate_and_check_exec programs sys ext tracee tracees fuel

  check-ends : (user_path : Text) → check user_path ≢ out_of_fuel
  unfolding translate_and_check_exec
  check-ends [] = λ q. cc
  check-ends (c ∷ user_path) =
      check_exec-ends programs _
        (translate_path-ends sys ext tracee tracees fuel enough at_fdcwd (c ∷ user_path) true)

  module _ (buf : ℕ) (words : List ℕ) (push : List XPointer → Option Errno) where
    pushed-ends :
        (has : Bool) (host user : Text) (argv : Option (List XPointer))
        → pushed programs sys ext tracee tracees fuel buf words push has host user argv ≢ never_ends
    unfolding pushed
    pushed-ends has host user none = λ q. cc
    pushed-ends has host user (some argv) = at (push argv)
      where
        at :
            (o : Option Errno)
            → elim o [ none ↦ expanded has host user (some argv) | some e ↦ refused e ] ≢ never_ends
        at none = λ q. cc
        at (some e) = λ q. cc

    module _ (next : Text → List XPointer → Expansion)
        (ends : (user : Text) (argv : List XPointer) → next user argv ≢ never_ends) where
      with_argv-ends :
          (user argument old : Text) (a : Answer (List XPointer))
          → with_argv programs sys ext tracee tracees fuel buf words push next user argument old a
            ≢ never_ends
      unfolding with_argv
      with_argv-ends user argument old (error e) = λ q. cc
      with_argv-ends user argument old (answer argv) = ends user _

      after_interpreter-ends :
          (user argument old : Text) (argv : Option (List XPointer)) (o : Outcome)
          → o ≢ out_of_fuel
          → after_interpreter programs sys ext tracee tracees fuel buf words push next user argument
              old argv o
            ≢ never_ends
      unfolding after_interpreter
      after_interpreter-ends user argument old argv (err e) h = λ q. cc
      after_interpreter-ends user argument old argv out_of_fuel h = absurd (h refl)
      after_interpreter-ends user argument old argv (ok host) h =
          with_argv-ends user argument old
            (fetched programs sys ext tracee tracees fuel buf words push argv)

      after_shebang-ends :
          (has : Bool) (host old : Text) (argv : Option (List XPointer)) (s : Shebang)
          → after_shebang programs sys ext tracee tracees fuel buf words push next has host old argv
              s
            ≢ never_ends
      unfolding after_shebang
      after_shebang-ends has host old argv (fails e) = λ q. cc
      after_shebang-ends has host old argv no_script = pushed-ends has host old argv
      after_shebang-ends has host old argv (found user argument) =
          after_interpreter-ends user argument old argv _ (check-ends user)

      after_translation-ends :
          (has : Bool) (user : Text) (argv : Option (List XPointer)) (o : Outcome)
          → o ≢ out_of_fuel
          → after_translation programs sys ext tracee tracees fuel buf words push next has user argv
              o
            ≢ never_ends
      unfolding after_translation
      after_translation-ends has user argv (err e) h = λ q. cc
      after_translation-ends has user argv out_of_fuel h = absurd (h refl)
      after_translation-ends has user argv (ok host) h = after_shebang-ends has host user argv _

    expand_rounds-ends :
        (rounds : ℕ) (has : Bool) (user : Text) (argv : Option (List XPointer))
        → expand_rounds programs sys ext tracee tracees fuel buf words push rounds has user argv
          ≢ never_ends
    unfolding expand_rounds
    expand_rounds-ends zero has user argv = λ q. cc
    expand_rounds-ends (suc rounds) has user argv =
        after_translation-ends _ (λ u a. expand_rounds-ends rounds true u (some a)) has user argv _
          (check-ends user)

    -- `expand_shebang` ends on every path, whatever the files hold and the kernel and the extensions
    -- answer.
    pub expand_shebang-ends :
        (user_path : Text)
        → expand_shebang programs sys ext tracee tracees fuel buf words push user_path ≢ never_ends
    unfolding expand_shebang
    expand_shebang-ends user_path = expand_rounds-ends maxsymlinks false user_path none
