-- ===== src/Path/Cursor.antt =====
-- `next_component` against the split of a path at its separators.
use improot.Base.{
  ◌≤◌, ◌<◌, ◌≡◌, ◌∙◌, refl, ◌≢◌, ◌⊎◌, ◌↔◌, inl, inr, true, false, [], ◌∷◌, arith, ◌==◌, sym, ap,
  if◌then◌else◌, All, Text, slash, char_at, strlen,
}
use improot.Path.{
  name_max, Finality, final_slash, final_normal, not_final, is_final, skip_slashes, name_of,
  skip_name, too_long, component, next_component, Next,
}
use improot.Path.Components.{Components, IsPlain}
use improot.Path.Split.{
  close_word, split, names, split-skip_slashes, name_of-IsPlain, strlen-skip_slashes,
  strlen-skip_name, skip_slashes-nonzero, skip_name-nonzero, skip_name-ends, split-word,
  names-skip_slashes, names-read,
}

abbrev pub head_or_nil : Components → Text
head_or_nil [] = []
head_or_nil (c ∷ cs) = c

abbrev pub Reads : Text → Text → Finality → Text → Type 0
Reads cursor c f rest =
    (names cursor ≡ close_word c (names rest))
    × IsPlain c
    × (strlen c < name_max)
    × ((is_final f ≡ true) ↔ (names rest ≡ []))
    × (is_final f ≡ false → strlen rest < strlen cursor)

-- The finality that the code gives to a name with `rest` behind it.
abbrev pub finality_of : Text → Text → Finality
finality_of behind rest =
    if strlen rest == 0
    then (if char_at behind 0 == slash then final_slash else final_normal)
    else not_final

is_final-nil : (behind rest : Text) → (is_final (finality_of behind rest) ≡ true) ↔ (rest ≡ [])
is_final-nil behind [] = ground arith
is_final-nil behind (c ∷ rest) = ground arith

abbrev pub first : Text → Text
first cursor = name_of (skip_slashes cursor)

abbrev pub behind_first : Text → Text
behind_first cursor = skip_name (skip_slashes cursor)

pub next_component-fields :
    (cursor : Text) {c : Text} {f : Finality} {rest : Text}
    → next_component cursor ≡ component c f rest
    → (c ≡ first cursor)
      × (f ≡ finality_of (behind_first cursor) (skip_slashes (behind_first cursor)))
      × (rest ≡ skip_slashes (behind_first cursor))
      × (strlen (first cursor) < name_max)
unfolding next_component
next_component-fields cursor e = ground arith

finality-names :
    (cursor : Text)
    → let rest = skip_slashes (behind_first cursor) in
      (is_final (finality_of (behind_first cursor) rest) ≡ true) ↔ (names rest ≡ [])
finality-names cursor =
    let rest = skip_slashes (behind_first cursor) in
    let ends = is_final-nil (behind_first cursor) rest in
    (
      λ e. ap names (ends.0 e) ∙ unfold names split in refl,
      λ e. ends.1 (names-skip_slashes (behind_first cursor) e),
    )

skip_slashes-lt : (path : Text) → char_at path 0 ≡ slash → strlen (skip_slashes path) < strlen path
unfolding skip_slashes
skip_slashes-lt [] e = absurd (omega arith)
skip_slashes-lt (c ∷ path) e = ground (arith, strlen-skip_slashes path)

skip_slashes-nil : (path : Text) → path ≡ [] → skip_slashes path ≡ []
unfolding skip_slashes
skip_slashes-nil path e = rw e

rest-shorter :
    (cursor : Text)
    → let rest = skip_slashes (behind_first cursor) in
      is_final (finality_of (behind_first cursor) rest) ≡ false → strlen rest < strlen cursor
rest-shorter cursor e = elim (skip_name-ends (skip_slashes cursor)) [
  | inl sep ↦ omega (
    arith,
    skip_slashes-lt (behind_first cursor) sep,
    strlen-skip_name (skip_slashes cursor),
    strlen-skip_slashes cursor,
  )
  | inr nil ↦
      let ended =
        (is_final-nil (behind_first cursor) (skip_slashes (behind_first cursor))).1
          (skip_slashes-nil (behind_first cursor) nil) in
      cc
]

pub next_component-shorter :
    (cursor : Text) {c : Text} {f : Finality} {rest : Text}
    → next_component cursor ≡ component c f rest
    → is_final f ≡ false
    → strlen rest < strlen cursor
next_component-shorter cursor e going =
    let (ec, ef, er, short) = next_component-fields cursor e in
    rw er (rest-shorter cursor (ap is_final (sym ef) ∙ going))

pub Next-cases :
    (n : Next)
    → (n ≡ too_long) ⊎ ((c : Text) × (f : Finality) × (rest : Text) × (n ≡ component c f rest))
Next-cases too_long = inl refl
Next-cases (component c f rest) = inr (c, f, rest, refl)

-- `next_component` takes the first name off: the names at the cursor are that name, if there is
-- one, and the names at the new cursor; the name is below NAME_MAX; it is final exactly when no
-- name is left, and otherwise the cursor has moved on.
pub next_component-names :
    (cursor : Text) {c : Text} {f : Finality} {rest : Text}
    → All (λ a. a ≢ 0) cursor
    → next_component cursor ≡ component c f rest
    → Reads cursor c f rest
next_component-names cursor h e =
    let (ec, ef, er, short) = next_component-fields cursor e in
    rw (ec, ef, er)
      (
        names-read cursor,
        name_of-IsPlain (skip_slashes cursor) (skip_slashes-nonzero cursor h),
        short,
        finality-names cursor,
        rest-shorter cursor,
      )

pub first-nil : (path : Text) → name_of (skip_slashes path) ≡ [] → skip_slashes path ≡ []
unfolding name_of skip_slashes
first-nil [] e = refl
first-nil (c ∷ path) e = ground (arith, first-nil path)

names-ended : (path : Text) → path ≡ [] → names (skip_slashes (skip_name path)) ≡ []
unfolding names split skip_slashes skip_name
names-ended path e = rw e

head-names : (cursor : Text) → head_or_nil (names cursor) ≡ first cursor
head-names cursor = rw (names-read cursor) (head (first cursor) refl)
  where
    head :
        (w : Text)
        → first cursor ≡ w
        → head_or_nil (close_word w (names (skip_slashes (behind_first cursor)))) ≡ w
    head [] e = ap head_or_nil (names-ended (skip_slashes cursor) (first-nil cursor e))
    head (a ∷ w) e = refl

-- `next_component` refuses exactly the names of NAME_MAX bytes and more: the first name at the
-- cursor is that long whenever it answers ENAMETOOLONG, and conversely.
pub next_component-too_long :
    (cursor : Text)
    → (next_component cursor ≡ too_long) ↔ (name_max ≤ strlen (head_or_nil (names cursor)))
unfolding next_component
next_component-too_long cursor = rw (head-names cursor) (ground arith)

-- What is left of a C string is one.
pub next_component-nonzero :
    (cursor : Text) {c : Text} {f : Finality} {rest : Text}
    → All (λ a. a ≢ 0) cursor
    → next_component cursor ≡ component c f rest
    → All (λ a. a ≢ 0) rest
next_component-nonzero cursor h e =
    let (ec, ef, er, short) = next_component-fields cursor e in
    rw er (
      skip_slashes-nonzero _
        (skip_name-nonzero (skip_slashes cursor) (skip_slashes-nonzero cursor h)))

-- The empty name is read where no name is left.
pub next_component-nil :
    (cursor : Text) {f : Finality} {rest : Text}
    → next_component cursor ≡ component [] f rest
    → names cursor ≡ []
next_component-nil cursor e =
    let (ec, ef, er, short) = next_component-fields cursor e in
    unfold names split in
    sym (split-skip_slashes cursor) ∙ ap (split []) (first-nil cursor (sym ec))

-- A path that does not begin with a separator has a name.
pub names-relative : (path : Text) → path ≢ [] → char_at path 0 ≢ slash → names path ≢ []
unfolding names split
names-relative [] n r = absurd (n refl)
names-relative (c ∷ path) n r = ground (arith, split-word c [] path)
