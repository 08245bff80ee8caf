-- ===== src/Exec/Scripts.antt =====
-- What the expansion of scripts leaves.
use mathlib.Core.Path.{subst}
use improot.Base.{
  ℕ, zero, suc, ◌+◌, ◌≤◌, ◌≡◌, ◌≢◌, ◌∙◌, refl, sym, ap, inl, inr, Bool, true, false, Option, none,
  some, List, [], ◌∷◌, ◌++◌, Text, ◌==◌, Bool-cases,
}
use improot.Path.{Errno}
use improot.Proc.{Tracee}
use improot.Canon.{Surroundings, Answer, answer, error, maxsymlinks}
use improot.Canon.Walk.{Outcome, ok, err, out_of_fuel}
use improot.Translate.{Extensions}
use improot.Shebang.{Shebang, found, no_script, fails, extract_shebang}
use improot.Exec.{
  Programs, XPointer, fetch_array_of_xpointers, expand_argv, Expansion, expanded, refused,
  never_ends, translate_and_check_exec, pushed, with_argv, after_interpreter, after_shebang,
  after_translation, expand_rounds, expand_shebang, fetched,
}
use improot.Exec.Ends.{expand_shebang-ends}
use improot.Exec.Argv.{Word, words_of, behind_first, interpreted, expand_argv-interpreted}

-- The words behind an interpreter: its argument, if it has one, and those behind that.
abbrev pub behind_interpreter : Text → List Word → List Word
behind_interpreter [] words = words
behind_interpreter (c ∷ argument) words = inl (c ∷ argument) ∷ words

interpreted-append :
    (w argument : Text) (ws rest : List Word)
    → interpreted w argument (ws ++ rest) ≡ inl w ∷ (behind_interpreter argument ws ++ rest)
interpreted-append w [] ws rest = refl
interpreted-append w (c ∷ argument) ws rest = refl

behind_first-append :
    (x : Word) (ws rest : List Word) → rest ≢ [] → behind_first (x ∷ (ws ++ rest)) ≡ ws ++ rest
behind_first-append x [] [] h = absurd (h refl)
behind_first-append x [] (y ∷ rest) h = refl
behind_first-append x (z ∷ ws) rest h = refl

fetched-first :
    (memory : List ℕ) (argv : List XPointer)
    → fetch_array_of_xpointers memory ≡ answer argv
    → argv ≢ []
unfolding fetch_array_of_xpointers
fetched-first [] argv h e = cc
fetched-first (pointer ∷ memory) argv h e = elim (Bool-cases (pointer == 0)) [
  | inl null ↦ cc (rw null at h, e)
  | inr more ↦ at (fetch_array_of_xpointers memory) (rw more at h)
]
  where
    at :
        (a : Answer (List XPointer))
        → elim a [
          | error x ↦ error x
          | answer array ↦ answer (record { remote = pointer; local = none } ∷ array)
        ]
          ≡ answer argv
        → ⊥
    at (error x) q = cc
    at (answer array) q = cc (q, e)

behind_first-first : (argv : List XPointer) → argv ≢ [] → behind_first (words_of argv) ≢ []
behind_first-first [] h = absurd (h refl)
behind_first-first (p ∷ []) h = λ e. cc
behind_first-first (p ∷ q ∷ argv) h = λ e. cc

module _ (programs : Programs) (sys : Surroundings) (ext : Extensions) (tracee : Tracee)
    (tracees : List Tracee) (fuel buf : ℕ) where
  abbrev pub checked : Text → Outcome
  checked = translate_and_check_exec programs sys ext tracee tracees fuel

  abbrev pub shebang_of : Text → Shebang
  shebang_of host_path = extract_shebang buf (programs.open_file host_path)

  -- The program that runs a script, and the words between its name and the script's arguments.
  pub data Runs (script : Text) : Text → List Word → Type 0 where
    itself : Runs script script []
    by_interpreter :
        (user_path host_path interpreter argument : Text) (words : List Word)
        → Runs script user_path words
        → checked user_path ≡ ok host_path
        → shebang_of host_path ≡ found interpreter argument
        → Runs script interpreter (behind_interpreter argument (inl user_path ∷ words))

  -- A program that is no script.
  abbrev pub IsProgram : Text → Text → Type 0
  IsProgram user_path host_path =
      (checked user_path ≡ ok host_path) × (shebang_of host_path ≡ no_script)

  module _ (memory : List ℕ) (push : List XPointer → Option Errno) (script : Text) where
    -- The arguments that run a script.
    abbrev pub ArgvOf : Text → List XPointer → Type 0
    ArgvOf user_path argv =
        (words : List Word) × (own : List XPointer) × (fetch_array_of_xpointers memory ≡ answer own)
        × Runs script user_path words
        × (words_of argv ≡ inl user_path ∷ (words ++ behind_first (words_of own)))

    abbrev InRound : Bool → Text → Option (List XPointer) → Type 0
    InRound false user_path none = user_path ≡ script
    InRound true user_path (some argv) = ArgvOf user_path argv
    InRound _ _ _ = ⊥

    abbrev pub IsExpanded : Expansion → Type 0
    IsExpanded (expanded false host_path user_path none) =
        (user_path ≡ script) × IsProgram user_path host_path
    IsExpanded (expanded true host_path user_path (some argv)) =
        ArgvOf user_path argv × IsProgram user_path host_path
    IsExpanded (expanded _ _ _ _) = ⊥
    IsExpanded (refused e) = Unit
    IsExpanded never_ends = Unit

    argv_of :
        (user_path host_path interpreter argument : Text) (own argv : List XPointer)
        (words : List Word)
        → fetch_array_of_xpointers memory ≡ answer own
        → Runs script user_path words
        → argv ≢ []
        → behind_first (words_of argv) ≡ words ++ behind_first (words_of own)
        → checked user_path ≡ ok host_path
        → shebang_of host_path ≡ found interpreter argument
        → ArgvOf interpreter (expand_argv interpreter argument user_path argv)
    argv_of user_path host_path interpreter argument own [] words got runs some_words rest is_ok
          line =
        absurd (some_words refl)
    argv_of user_path host_path interpreter argument own (p ∷ argv) words got runs some_words rest
          is_ok line =
        (
          behind_interpreter argument (inl user_path ∷ words),
          own,
          got,
          by_interpreter user_path host_path interpreter argument words runs is_ok line,
          expand_argv-interpreted interpreter argument user_path p argv
              ∙ ap (λ ws. interpreted interpreter argument (inl user_path ∷ ws)) rest
              ∙ interpreted-append interpreter argument (inl user_path ∷ words)
                  (behind_first (words_of own)),
        )

    next-InRound :
        (has : Bool) (user_path host_path interpreter argument : Text)
        (argv : Option (List XPointer)) (a : List XPointer)
        → InRound has user_path argv
        → checked user_path ≡ ok host_path
        → shebang_of host_path ≡ found interpreter argument
        → fetched programs sys ext tracee tracees fuel buf memory push argv ≡ answer a
        → ArgvOf interpreter (expand_argv interpreter argument user_path a)
    next-InRound false user host interpreter argument none a same is_ok line got =
        argv_of user host interpreter argument a a [] got
          (subst (λ v. Runs script v []) (sym same) itself) (fetched-first memory a got) refl is_ok
          line
    next-InRound true user host interpreter argument (some b) a (words, own, read, runs, shows)
          is_ok line got =
        let same : b ≡ a = cc in
        let rest_some = behind_first-first own (fetched-first memory own read) in
        subst (λ l. ArgvOf interpreter (expand_argv interpreter argument user l)) same
          (argv_of user host interpreter argument own b words read runs (λ e. cc (shows))
            (ap behind_first shows
              ∙ behind_first-append (inl user) words (behind_first (words_of own)) rest_some)
            is_ok line)
    next-InRound false user host interpreter argument (some b) a h is_ok line got = absurd h
    next-InRound true user host interpreter argument none a h is_ok line got = absurd h

    pushed-IsExpanded :
        (has : Bool) (host_path user_path : Text) (argv : Option (List XPointer))
        → InRound has user_path argv
        → IsProgram user_path host_path
        → IsExpanded (
            pushed programs sys ext tracee tracees fuel buf memory push has host_path user_path
              argv)
    unfolding pushed
    pushed-IsExpanded false host user none same program = (same, program)
    pushed-IsExpanded true host user (some argv) held program = at (push argv)
      where
        at :
            (o : Option Errno)
            → IsExpanded
                (elim o [ none ↦ expanded true host user (some argv) | some e ↦ refused e ])
        at none = (held, program)
        at (some e) = tt
    pushed-IsExpanded false host user (some argv) h program = absurd h
    pushed-IsExpanded true host user none h program = absurd h

    module _ (next : Text → List XPointer → Expansion)
        (goes : (user : Text) (argv : List XPointer)
          → ArgvOf user argv
          → IsExpanded (next user argv)) where
      after_shebang-IsExpanded :
          (has : Bool) (host user : Text) (argv : Option (List XPointer)) (s : Shebang)
          → InRound has user argv
          → checked user ≡ ok host
          → shebang_of host ≡ s
          → IsExpanded (
              after_shebang programs sys ext tracee tracees fuel buf memory push next has host user
                argv s)
      unfolding after_shebang after_interpreter with_argv
      after_shebang-IsExpanded has host user argv (fails e) h is_ok line = tt
      after_shebang-IsExpanded has host user argv no_script h is_ok line =
          pushed-IsExpanded has host user argv h (is_ok, line)
      after_shebang-IsExpanded has host user argv (found interpreter argument) h is_ok line =
          at (checked interpreter) _ refl
        where
          at :
              (o : Outcome) (f : Answer (List XPointer))
              → fetched programs sys ext tracee tracees fuel buf memory push argv ≡ f
              → IsExpanded (
                  after_interpreter programs sys ext tracee tracees fuel buf memory push next
                    interpreter argument user argv o)
          at (err e) f got = tt
          at out_of_fuel f got = tt
          at (ok t) (error e) got = rw got tt
          at (ok t) (answer a) got =
              rw got
                (goes _ _ (next-InRound has user host interpreter argument argv a h is_ok line got))

      after_translation-IsExpanded :
          (has : Bool) (user : Text) (argv : Option (List XPointer)) (o : Outcome)
          → InRound has user argv
          → checked user ≡ o
          → IsExpanded (
              after_translation programs sys ext tracee tracees fuel buf memory push next has user
                argv o)
      unfolding after_translation
      after_translation-IsExpanded has user argv (err e) h is_ok = tt
      after_translation-IsExpanded has user argv out_of_fuel h is_ok = tt
      after_translation-IsExpanded has user argv (ok host) h is_ok =
          after_shebang-IsExpanded has host user argv _ h is_ok refl

    expand_rounds-IsExpanded :
        (rounds : ℕ) (has : Bool) (user : Text) (argv : Option (List XPointer))
        → InRound has user argv
        → IsExpanded (
            expand_rounds programs sys ext tracee tracees fuel buf memory push rounds has user argv)
    unfolding expand_rounds
    expand_rounds-IsExpanded zero has user argv h = tt
    expand_rounds-IsExpanded (suc rounds) has user argv h =
        after_translation-IsExpanded _
          (λ u a held. expand_rounds-IsExpanded rounds true u (some a) held) has user argv _ h refl

    -- `expand_shebang` ends on every path, whatever the files hold and the kernel and the extensions
    -- answer, with fuel `maxsymlinks + 2` for each translation. When it succeeds, the program that
    -- it leaves is no script, and it is checked on the host. If the user's path was no script, it
    -- is that path, and no arguments are fetched. Otherwise it is reached from the user's path by
    -- the interpreters that the scripts name, and the arguments are its name, then, script by
    -- script, the argument of the interpreter, if it has one, and the path of the script, the
    -- user's path last, then those of the tracee behind `argv[0]`.
    pub expand_shebang-IsExpanded :
        maxsymlinks + 2 ≤ fuel
        → (expand_shebang programs sys ext tracee tracees fuel buf memory push script ≢ never_ends)
          × IsExpanded (expand_shebang programs sys ext tracee tracees fuel buf memory push script)
    unfolding expand_shebang
    expand_shebang-IsExpanded enough = (
      expand_shebang-ends programs sys ext tracee tracees fuel enough buf memory push script,
      expand_rounds-IsExpanded maxsymlinks false script none refl,
    )
