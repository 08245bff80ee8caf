-- ===== src/Canon/Ending.antt =====
-- What a user's path ends in, and how `next_component` carries it along.
use improot.Base.{
  ℕ, ◌≡◌, ◌≢◌, ◌∙◌, ap, sym, refl, inl, inr, ◌⊎◌, Bool, true, false, [], ◌∷◌, arith, Bool-cases,
  ◌==◌, ==_iff, if◌then◌else◌, Text, slash, char_at, codes, text_eq, last_of, All,
}
use improot.Path.{
  Finality, final_normal, final_slash, final_dot, is_final, component, next_component, skip_slashes,
  skip_name, name_of,
}
use improot.Path.Components.{Components}
use improot.Path.Split.{names, close_word, skip_name-ends, names-skip_slashes}
use improot.Path.Cursor.{
  finality_of, first, behind_first, next_component-fields, next_component-names, first-nil,
}
use improot.Canon.Walk.{final_as}

abbrev pub last_name : Components → Text
last_name [] = []
last_name (c ∷ []) = c
last_name (c ∷ d ∷ cs) = last_name (d ∷ cs)

abbrev pub ending_of : Components → Bool → Finality
ending_of [] slashed = final_normal
ending_of (c ∷ cs) slashed =
    if text_eq (last_name (c ∷ cs)) (codes ".")
    then final_dot
    else if text_eq (last_name (c ∷ cs)) (codes "..")
    then final_slash
    else if slashed
    then final_slash
    else final_normal

-- What a path ends in: a dot, if this is its last name; a separator, if its last name is `..` or a
-- separator stands behind the last name; nothing of these, if there is no name or else.
unfoldable pub ending : Text → Finality
ending path = ending_of (names path) (last_of 0 path == slash)

-- The finality that a round makes of the one that was read.
abbrev pub at_name : Text → Finality → Finality
at_name name f =
    if text_eq name (codes ".")
    then final_as final_dot f
    else if text_eq name (codes "..")
    then final_as final_slash f
    else f

last_of-any : (d e : ℕ) (p : Text) → p ≢ [] → last_of d p ≡ last_of e p
last_of-any d e [] h = absurd (h refl)
last_of-any d e (a ∷ p) h = refl

last_of-skip_slashes :
    (d : ℕ) (p : Text) → skip_slashes p ≢ [] → last_of d (skip_slashes p) ≡ last_of d p
unfolding skip_slashes
last_of-skip_slashes d [] h = refl
last_of-skip_slashes d (c ∷ p) h = elim (Bool-cases (c == slash)) [
  | inl e ↦
      let more : skip_slashes p ≢ [] = λ n. h (rw e n) in
      rw e (last_of-any d c (skip_slashes p) more ∙ last_of-skip_slashes c p more)
  | inr ne ↦ rw ne refl
]

last_of-skip_name : (d : ℕ) (p : Text) → skip_name p ≢ [] → last_of d (skip_name p) ≡ last_of d p
unfolding skip_name
last_of-skip_name d [] h = refl
last_of-skip_name d (c ∷ p) h = elim (Bool-cases (c == slash)) [
  | inl e ↦ rw e refl
  | inr ne ↦
      let more : skip_name p ≢ [] = λ n. h (rw ne n) in
      rw ne (last_of-any d c (skip_name p) more ∙ last_of-skip_name c p more)
]

-- Nothing but separators.
last_of-slashes : (p : Text) → skip_slashes p ≡ [] → last_of slash p ≡ slash
unfolding skip_slashes
last_of-slashes [] e = refl
last_of-slashes (c ∷ p) e = elim (Bool-cases (c == slash)) [
  | inl s ↦
      let passed : skip_slashes (c ∷ p) ≡ skip_slashes p = rw s refl in
      ap (λ x. last_of x p) ((==_iff c slash).0 s) ∙ last_of-slashes p (sym passed ∙ e)
  | inr ne ↦ let stays : skip_slashes (c ∷ p) ≡ c ∷ p = rw ne refl in absurd (cc (sym stays ∙ e))
]

-- No separator.
last_of-name : (d : ℕ) (p : Text) → d ≢ slash → skip_name p ≡ [] → last_of d p ≢ slash
unfolding skip_name
last_of-name d [] h e = h
last_of-name d (c ∷ p) h e = elim (Bool-cases (c == slash)) [
  | inl s ↦ let stays : skip_name (c ∷ p) ≡ c ∷ p = rw s refl in absurd (cc (sym stays ∙ e))
  | inr ne ↦
      let passed : skip_name (c ∷ p) ≡ skip_name p = rw ne refl in
      last_of-name c p (λ s. cc ((==_iff c slash).1 s, ne)) (sym passed ∙ e)
]

skip_slashes-of-nil : (p : Text) → skip_slashes p ≢ [] → p ≢ []
unfolding skip_slashes
skip_slashes-of-nil [] h = h
skip_slashes-of-nil (c ∷ p) h = λ e. cc e

skip_name-of-nil : (p : Text) → skip_name p ≢ [] → p ≢ []
unfolding skip_name
skip_name-of-nil [] h = h
skip_name-of-nil (c ∷ p) h = λ e. cc e

-- The last byte of what a call leaves.
last_of-rest :
    (cursor : Text)
    → skip_slashes (behind_first cursor) ≢ []
    → last_of 0 (skip_slashes (behind_first cursor)) ≡ last_of 0 cursor
last_of-rest cursor h =
    let behind = skip_slashes-of-nil (behind_first cursor) h in
    last_of-skip_slashes 0 (behind_first cursor) h
    ∙ last_of-skip_name 0 (skip_slashes cursor) behind
    ∙ last_of-skip_slashes 0 cursor (skip_name-of-nil (skip_slashes cursor) behind)

ending_of-close_word :
    (c : Text) (cs : Components) (b : Bool)
    → cs ≢ []
    → ending_of (close_word c cs) b ≡ ending_of cs b
ending_of-close_word c [] b h = absurd (h refl)
ending_of-close_word [] (d ∷ cs) b h = refl
ending_of-close_word (a ∷ w) (d ∷ cs) b h = refl

names-nil : (p : Text) → names p ≢ [] → p ≢ []
unfolding names
names-nil [] h = λ e. h refl
names-nil (c ∷ p) h = λ e. cc e

-- A path ends as what is left of it, if a name is left.
pub ending-going :
    (cursor : Text) {c : Text} {f : Finality} {rest : Text}
    → All (λ a. a ≢ 0) cursor
    → next_component cursor ≡ component c f rest
    → is_final f ≡ false
    → ending rest ≡ ending cursor
unfolding ending
ending-going cursor {c} {f} {rest} h e going =
    let (en, plain, short, ends, shorter) = next_component-names cursor h e in
    let (ec, ef, er, bound) = next_component-fields cursor e in
    let more : names rest ≢ [] = λ n. cc (ends.1 n, going) in
    let there : skip_slashes (behind_first cursor) ≢ [] = λ n. names-nil rest more (er ∙ n) in
    let last : last_of 0 rest ≡ last_of 0 cursor =
      ap (λ p. last_of 0 p) er ∙ last_of-rest cursor there in
    ap (λ b. ending_of (names rest) (b == slash)) last
    ∙ sym (ending_of-close_word c (names rest) (last_of 0 cursor == slash) more)
    ∙ ap (λ cs. ending_of cs (last_of 0 cursor == slash)) (sym en)

char_at-nil : (p : Text) → p ≡ [] → char_at p 0 ≢ slash
char_at-nil p e = rw e (omega arith)

begun : (cursor : Text) → first cursor ≢ [] → skip_slashes cursor ≢ []
unfolding name_of
begun cursor h e = h (ap name_of e)

not_first : (a b : ℕ) → a ≢ b → (a == b) ≡ false
not_first a b h = elim (Bool-cases (a == b)) [ inl e ↦ absurd (h ((==_iff a b).0 e)) | inr ne ↦ ne ]

-- The finality of the last name.
slashed :
    (cursor : Text)
    → first cursor ≢ []
    → skip_slashes (behind_first cursor) ≡ []
    → finality_of (behind_first cursor) (skip_slashes (behind_first cursor))
      ≡ (if last_of 0 cursor == slash then final_slash else final_normal)
slashed cursor named ended = elim (skip_name-ends (skip_slashes cursor)) [
  | inl sep ↦
      let there : behind_first cursor ≢ [] = λ n. char_at-nil (behind_first cursor) n sep in
      let last : last_of 0 cursor ≡ slash =
        sym (last_of-skip_slashes 0 cursor (begun cursor named))
        ∙ sym (last_of-skip_name 0 (skip_slashes cursor) there)
        ∙ last_of-any 0 slash (behind_first cursor) there
        ∙ last_of-slashes (behind_first cursor) ended in
      rw
        (
          ended,
          (==_iff (char_at (behind_first cursor) 0) slash).1 sep,
          (==_iff (last_of 0 cursor) slash).1 last,
        )
        refl
  | inr nil ↦
      let other : last_of 0 cursor ≢ slash = λ e.
        last_of-name 0 (skip_slashes cursor) (omega arith) nil
          (last_of-skip_slashes 0 cursor (begun cursor named) ∙ e) in
      rw
        (
          ended,
          not_first (char_at (behind_first cursor) 0) slash
              (λ e. char_at-nil (behind_first cursor) nil e),
          not_first (last_of 0 cursor) slash other,
        )
        refl
]

at_name-ending_of :
    (c : Text) (b : Bool)
    → at_name c (if b then final_slash else final_normal) ≡ ending_of (c ∷ []) b
at_name-ending_of c true = refl
at_name-ending_of c false = refl

close_word-named : (c : Text) → c ≢ [] → close_word c [] ≡ c ∷ []
close_word-named [] h = absurd (h refl)
close_word-named (a ∷ w) h = refl

at_name-nil : (f : Finality) → at_name [] f ≡ f
at_name-nil f = refl

nothing_left :
    (p : Text)
    → skip_slashes p ≡ []
    → finality_of (skip_name (skip_slashes p)) (skip_slashes (skip_name (skip_slashes p)))
      ≡ final_normal
unfolding skip_slashes skip_name
nothing_left p e = rw e refl

Text-cases : (c : Text) → (c ≡ []) ⊎ (c ≢ [])
Text-cases [] = inl refl
Text-cases (a ∷ w) = inr (λ e. cc e)

-- The last name, and what stands behind it, are what a path ends in.
pub ending-final :
    (cursor : Text) {c : Text} {f : Finality} {rest : Text}
    → All (λ a. a ≢ 0) cursor
    → next_component cursor ≡ component c f rest
    → is_final f ≡ true
    → at_name c f ≡ ending cursor
unfolding ending
ending-final cursor {c} {f} {rest} h e final =
    let (en, plain, short, ends, shorter) = next_component-names cursor h e in
    let (ec, ef, er, bound) = next_component-fields cursor e in
    let none_left : names rest ≡ [] = ends.0 final in
    let ended : skip_slashes (behind_first cursor) ≡ [] =
      names-skip_slashes (behind_first cursor) (ap names (sym er) ∙ none_left) in
    let read : names cursor ≡ close_word c [] = en ∙ ap (close_word c) none_left in
    elim (Text-cases c) [
      | inl empty ↦
          let normal : f ≡ final_normal =
            ef ∙ nothing_left cursor (first-nil cursor (sym ec ∙ empty)) in
          ap (λ x. at_name x f) empty
          ∙ normal
          ∙ sym (
              ap (λ cs. ending_of cs (last_of 0 cursor == slash))
                (read ∙ ap (λ x. close_word x []) empty))
      | inr named ↦
          ap (λ x. at_name c x) (ef ∙ slashed cursor (λ n. named (ec ∙ n)) ended)
          ∙ at_name-ending_of c (last_of 0 cursor == slash)
          ∙ sym (
              ap (λ cs. ending_of cs (last_of 0 cursor == slash)) (read ∙ close_word-named c named))
    ]

pub is_final-at_name : (c : Text) (f : Finality) → is_final (at_name c f) ≡ is_final f
is_final-at_name c f = ground arith
