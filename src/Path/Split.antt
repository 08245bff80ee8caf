-- ===== src/Path/Split.antt =====
-- The split of a path at its separators, and the loops that read one name.
use improot.Base.{
  ℕ, ◌+◌, ◌≤◌, ◌≡◌, ◌∙◌, refl, ◌≢◌, ◌⊎◌, inl, inr, [], ◌∷◌, ◌++◌, arith, ◌==◌, sym, ap, append-nil,
  append_assoc, if◌then◌else◌, Bool-cases, All, Text, slash, char_at, strlen,
}
use improot.Path.{skip_slashes, name_of, skip_name}
use improot.Path.Components.{Components, IsPlain}

-- The names of a path, whatever separators stand between them: the reference. `word` is what has
-- been read of the current name.
abbrev pub close_word : Text → Components → Components
close_word [] cs = cs
close_word (a ∷ w) cs = (a ∷ w) ∷ cs

unfoldable pub split : Text → Text → Components
split word [] = close_word word []
split word (c ∷ path) =
    if c == slash then close_word word (split [] path) else split (word ++ c ∷ []) path

unfoldable pub names : Text → Components
unfolding split
names path = split [] path

pub split-skip_slashes : (path : Text) → split [] (skip_slashes path) ≡ split [] path
unfolding split skip_slashes
split-skip_slashes [] = refl
split-skip_slashes (c ∷ path) = ground (arith, split-skip_slashes path)

-- Reading one name moves it to the word.
split-name_of :
    (word path : Text)
    → split word path ≡ close_word (word ++ name_of path) (split [] (skip_name path))
unfolding split name_of skip_name
split-name_of word [] = rw (append-nil word)
split-name_of word (c ∷ path) = elim (Bool-cases (c == slash)) [
  | inl e ↦ rw (e, append-nil word) (rw e)
  | inr ne ↦
      rw ne (split-name_of (word ++ c ∷ []) path ∙ rw (append_assoc word (c ∷ []) (name_of path)))
]

pub name_of-IsPlain : (path : Text) → All (λ c. c ≢ 0) path → IsPlain (name_of path)
unfolding name_of
name_of-IsPlain [] h = tt
name_of-IsPlain (c ∷ path) h = ground (arith, name_of-IsPlain path h.1)

pub strlen-skip_slashes : (path : Text) → strlen (skip_slashes path) ≤ strlen path
unfolding skip_slashes
strlen-skip_slashes [] = omega arith
strlen-skip_slashes (c ∷ path) = ground (arith, strlen-skip_slashes path)

pub strlen-skip_name : (path : Text) → strlen (name_of path) + strlen (skip_name path) ≡ strlen path
unfolding skip_name name_of
strlen-skip_name [] = omega arith
strlen-skip_name (c ∷ path) = ground (arith, strlen-skip_name path)

pub skip_slashes-nonzero :
    (path : Text) → All (λ c. c ≢ 0) path → All (λ c. c ≢ 0) (skip_slashes path)
unfolding skip_slashes
skip_slashes-nonzero [] h = tt
skip_slashes-nonzero (c ∷ path) h = ground (arith, skip_slashes-nonzero path h.1)

pub skip_name-nonzero : (path : Text) → All (λ c. c ≢ 0) path → All (λ c. c ≢ 0) (skip_name path)
unfolding skip_name
skip_name-nonzero [] h = tt
skip_name-nonzero (c ∷ path) h = ground (arith, skip_name-nonzero path h.1)

-- A name is read to its end.
pub skip_name-ends : (path : Text) → (char_at (skip_name path) 0 ≡ slash) ⊎ (skip_name path ≡ [])
unfolding skip_name
skip_name-ends [] = inr refl
skip_name-ends (c ∷ path) = ground (arith, skip_name-ends path)

pub split-word : (a : ℕ) (w path : Text) → split (a ∷ w) path ≢ []
unfolding split
split-word a w [] e = cc
split-word a w (c ∷ path) e = ground (arith, split-word a (w ++ c ∷ []) path)

-- Where separators have been skipped, a name begins, unless the path has ended.
pub names-skip_slashes : (path : Text) → names (skip_slashes path) ≡ [] → skip_slashes path ≡ []
unfolding names split skip_slashes
names-skip_slashes [] e = refl
names-skip_slashes (c ∷ path) e = ground (arith, names-skip_slashes path, split-word c [] path)

-- One call splits the first name off.
pub names-read :
    (cursor : Text)
    → names cursor
      ≡ close_word
          (name_of (skip_slashes cursor))
          (names (skip_slashes (skip_name (skip_slashes cursor))))
unfolding names
names-read cursor =
    sym (split-skip_slashes cursor)
    ∙ split-name_of [] (skip_slashes cursor)
    ∙ ap (close_word (name_of (skip_slashes cursor)))
        (sym (split-skip_slashes (skip_name (skip_slashes cursor))))
