-- ===== src/Exec/Argv.antt =====
-- The array of arguments, as a list of words.
use mathlib.Core.Path.{subst}
use improot.Base.{
  ℕ, ◌+◌, ◌≡◌, refl, sym, inl, inr, ◌⊎◌, none, some, List, [], ◌∷◌, map, arith, Text,
}
use improot.Exec.{XPointer, only_null, resize_array_of_xpointers, write_xpointees, expand_argv}

-- An argument is a string of this program or a pointer of the tracee.
abbrev pub Word : Type 0
Word = Text ⊎ ℕ

abbrev pub shown : XPointer → Word
shown pointer = elim pointer.local [ some string ↦ inl string | none ↦ inr pointer.remote ]

abbrev pub words_of : List XPointer → List Word
words_of array = map shown array

-- What stands behind `argv[0]`, if there is an `argv[0]`.
abbrev pub behind_first : List Word → List Word
behind_first [] = []
behind_first (null ∷ []) = null ∷ []
behind_first (first ∷ second ∷ words) = second ∷ words

-- An interpreter and its argument in front of words.
abbrev pub interpreted : Text → Text → List Word → List Word
interpreted user_path [] words = inl user_path ∷ words
interpreted user_path (c ∷ argument) words = inl user_path ∷ inl (c ∷ argument) ∷ words

only_null-more : (p q : XPointer) (array : List XPointer) → only_null (p ∷ q ∷ array) ≡ 0
only_null-more p q array = ground arith

-- The interpreter, its argument and the script take the place of `argv[0]`.
pub expand_argv-interpreted :
    (user_path argument script : Text) (p : XPointer) (argv : List XPointer)
    → words_of (expand_argv user_path argument script (p ∷ argv))
      ≡ interpreted user_path argument (inl script ∷ behind_first (words_of (p ∷ argv)))
unfolding expand_argv
expand_argv-interpreted user_path [] script p [] = refl
expand_argv-interpreted user_path (c ∷ argument) script p [] = refl
expand_argv-interpreted user_path [] script p (q ∷ argv) =
    subst
      (λ n.
        words_of (
          write_xpointees 0 (user_path ∷ script ∷ [])
            (resize_array_of_xpointers 0 (1 + n) (p ∷ q ∷ argv)))
        ≡ inl user_path ∷ inl script ∷ words_of (q ∷ argv))
      (sym (only_null-more p q argv)) refl
expand_argv-interpreted user_path (c ∷ argument) script p (q ∷ argv) =
    subst
      (λ n.
        words_of (
          write_xpointees 0 (user_path ∷ (c ∷ argument) ∷ script ∷ [])
            (resize_array_of_xpointers 0 (2 + n) (p ∷ q ∷ argv)))
        ≡ inl user_path ∷ inl (c ∷ argument) ∷ inl script ∷ words_of (q ∷ argv))
      (sym (only_null-more p q argv)) refl
