-- ===== src/Translate/Ends.antt =====
-- The names of two texts that are joined, and what the joined text ends in.
use improot.Base.{
  ℕ, ◌+◌, ◌-◌, ◌≡◌, ◌≢◌, ◌∙◌, ap, sym, refl, inl, inr, ◌⊎◌, Bool, true, false, not, ◌&&◌, some,
  none, Option, [], ◌∷◌, ◌++◌, arith, leb, ltb, ◌==◌, ==_iff, Bool-cases, if◌then◌else◌, Text,
  slash, char_at, strlen, drop, last_of, get_or, length,
}
use mathlib.Core.Path.{subst}
use improot.Path.{enametoolong, path_max, Status, success, failure, join_one, join_loop, join_paths}
use improot.Path.Components.{Components}
use improot.Path.Split.{names, split, close_word}
use improot.Canon.Ending.{ending, ending_of}

close_word-append :
    (w : Text) (xs ys : Components) → close_word w xs ++ ys ≡ close_word w (xs ++ ys)
close_word-append [] xs ys = refl
close_word-append (a ∷ w) xs ys = refl

split-sep : (w a b : Text) → split w (a ++ slash ∷ b) ≡ split w a ++ split [] b
unfolding split
split-sep w [] b = sym (close_word-append w [] (split [] b))
split-sep w (c ∷ a) b = elim (Bool-cases (c == slash)) [
  | inl e ↦
      rw e
        (ap (close_word w) (split-sep [] a b) ∙ sym (close_word-append w (split [] a) (split [] b)))
  | inr ne ↦ rw ne (split-sep (w ++ c ∷ []) a b)
]

split-ended :
    (w : Text) (c : ℕ) (a b : Text)
    → last_of c a ≡ slash
    → split w ((c ∷ a) ++ b) ≡ split w (c ∷ a) ++ split [] b
unfolding split
split-ended w c [] b e =
    let is : (c == slash) ≡ true = (==_iff c slash).1 e in
    rw is (sym (close_word-append w [] (split [] b)))
split-ended w c (d ∷ a) b e = elim (Bool-cases (c == slash)) [
  | inl s ↦ rw s (
      ap (close_word w) (split-ended [] d a b e)
      ∙ sym (close_word-append w (split [] (d ∷ a)) (split [] b)))
  | inr ne ↦ rw ne (split-ended (w ++ c ∷ []) d a b e)
]

names-slash : (b : Text) → names (slash ∷ b) ≡ names b
unfolding names split
names-slash b = refl

begins_with : (b : Text) → (char_at b 0 == slash) ≡ true → b ≡ slash ∷ drop 1 b
begins_with [] e = absurd (ground (arith, e))
begins_with (c ∷ b) e = ap (λ x. x ∷ b) ((==_iff c slash).0 e)

last_byte : (c : ℕ) (a : Text) → get_or (c ∷ a) (length a) 0 ≡ last_of c a
last_byte c [] = refl
last_byte c (d ∷ a) = last_byte d a

last_of-any : (d e : ℕ) (p : Text) → p ≢ [] → last_of d p ≡ last_of e p
last_of-any d e [] h = absurd (h refl)
last_of-any d e (a ∷ p) h = refl

last_of-append : (d : ℕ) (a b : Text) → b ≢ [] → last_of d (a ++ b) ≡ last_of d b
last_of-append d [] b h = refl
last_of-append d (c ∷ a) b h = last_of-append c a b h ∙ last_of-any c d b h

-- What a join makes of the names, and of the end of the second text, if this has a name.
abbrev pub Spells : Text → Text → Text → Type 0
Spells a b t = (names t ≡ names a ++ names b) × (names b ≢ [] → last_of 0 t ≡ last_of 0 b)

abbrev SpellsOr : Text → Text → Option Text → Type 0
SpellsOr a b none = Unit
SpellsOr a b (some t) = Spells a b t

not_nil : (b : Text) → names b ≢ [] → b ≢ []
unfolding names split
not_nil [] h = λ e. h refl
not_nil (c ∷ b) h = λ e. cc e

sep-Spells : (a b : Text) → Spells a b (a ++ slash ∷ b)
unfolding names
sep-Spells a b = (
  split-sep [] a b,
  λ named. last_of-append 0 a (slash ∷ b) (λ e. cc e) ∙ last_of-any slash 0 b (not_nil b named),
)

ended-Spells : (c : ℕ) (a b : Text) → last_of c a ≡ slash → Spells (c ∷ a) b ((c ∷ a) ++ b)
unfolding names
ended-Spells c a b e =
    (split-ended [] c a b e, λ named. last_of-append 0 (c ∷ a) b (not_nil b named))

-- The second text begins with a separator.
begun-Spells : (a b t : Text) → b ≡ slash ∷ drop 1 b → Spells a (drop 1 b) t → Spells a b t
begun-Spells a b t e (spelt, last) =
    let same : names b ≡ names (drop 1 b) = ap names e ∙ names-slash (drop 1 b) in
    (
      spelt ∙ ap (λ cs. names a ++ cs) (sym same),
      λ named.
          let more : names (drop 1 b) ≢ [] = λ n. named (same ∙ n) in
          last more
          ∙ last_of-any 0 slash (drop 1 b) (not_nil (drop 1 b) more)
          ∙ ap (λ x. last_of 0 x) (sym e),
    )

begins-Spells : (a b : Text) → b ≡ slash ∷ drop 1 b → Spells a b (a ++ b)
begins-Spells a b e = begun-Spells a b (a ++ b) e (
    let s = sep-Spells a (drop 1 b) in
    (ap (λ x. names (a ++ x)) e ∙ s.0, λ named. ap (λ x. last_of 0 (a ++ x)) e ∙ s.1 named))

if-SpellsOr :
    (a b : Text) (t : Bool) (x y : Option Text)
    → (t ≡ true → SpellsOr a b x)
    → (t ≡ false → SpellsOr a b y)
    → SpellsOr a b (if t then x else y)
if-SpellsOr a b true x y hx hy = hx refl
if-SpellsOr a b false x y hx hy = hy refl

both : (p x y : Bool) → (p && (x && y)) ≡ true → (x ≡ true) × (y ≡ true)
both true true true e = (refl, refl)
both true true false e = cc e
both true false y e = cc e
both false x y e = cc e

one_of :
    (x y : Bool)
    → (true && (not x && not y)) ≡ false
    → (true && (x && y)) ≡ false
    → (x ≡ true) ⊎ (y ≡ true)
one_of true y e f = inl refl
one_of false true e f = inr refl
one_of false false e f = cc e

join_one-Spells : (c : ℕ) (a b : Text) → SpellsOr (c ∷ a) b (join_one (c ∷ a) b)
unfolding join_one
join_one-Spells c a b =
    let ends = char_at (c ∷ a) (strlen (c ∷ a) - 1) == slash in
    let begins = char_at b 0 == slash in
    let length1 = strlen (c ∷ a) in
    let some_byte : ltb 0 length1 ≡ true = ground arith in
    let last : char_at (c ∷ a) (strlen (c ∷ a) - 1) ≡ last_of c a =
      ap (λ n. char_at (c ∷ a) n) (omega arith) ∙ last_byte c a in
    let ended : ends ≡ true → last_of c a ≡ slash = λ e. sym last ∙ (==_iff _ slash).0 e in
    if-SpellsOr (c ∷ a) b (ltb 0 length1 && (not ends && not begins)) _ _
      (λ e.
        if-SpellsOr (c ∷ a) b (leb path_max (length1 + strlen b + 1 + 1)) none _ (λ f. tt)
          (λ f. sep-Spells (c ∷ a) b))
      λ e.
        if-SpellsOr (c ∷ a) b (ltb 0 length1 && (ends && begins)) _ _
          (λ f.
            if-SpellsOr (c ∷ a) b (leb path_max (length1 + strlen b - 1 + 1)) none _ (λ g. tt)
              (λ g.
                let (x, y) = both (ltb 0 length1) ends begins f in
                begun-Spells (c ∷ a) b ((c ∷ a) ++ drop 1 b) (begins_with b y)
                  (ended-Spells c a (drop 1 b) (ended x))))
          (λ f.
            if-SpellsOr (c ∷ a) b (leb path_max (length1 + strlen b + 1)) none _ (λ g. tt)
              (λ g.
                elim (one_of ends begins
                  (ap (λ p. p && (not ends && not begins)) (sym some_byte) ∙ e)
                  (ap (λ p. p && (ends && begins)) (sym some_byte) ∙ f)) [
                    | inl x ↦ ended-Spells c a b (ended x)
                    | inr y ↦ begins-Spells (c ∷ a) b (begins_with b y)
                  ]))

-- The same of a status and a text.
abbrev SpeltAs : Text → Text → Status × Text → Type 0
SpeltAs a b (success, t) = Spells a b t
SpeltAs a b (failure e, t) = Unit

second-SpeltAs :
    (a b : Text) (o : Option Text)
    → SpellsOr a b o
    → SpeltAs a b (elim o [ none ↦ (failure enametoolong, a) | some r ↦ (success, r) ])
second-SpeltAs a b none h = tt
second-SpeltAs a b (some t) h = h

join_paths-SpeltAs :
    (c : ℕ) (a b : Text) → SpeltAs (c ∷ a) b (join_paths (some (c ∷ a) ∷ some b ∷ []))
unfolding join_paths join_loop
join_paths-SpeltAs c a b = elim (first_join) [
  | inl e ↦ rw (e, join_loop) tt
  | inr e ↦
      rw (e, join_loop) (second-SpeltAs (c ∷ a) b (join_one (c ∷ a) b) (join_one-Spells c a b))
]
  where
    first_join : (join_one [] (c ∷ a) ≡ none) ⊎ (join_one [] (c ∷ a) ≡ some (c ∷ a))
    first_join = unfold join_one in ground arith

ending_of-cons :
    (c : Text) (cs : Components) (b : Bool) → cs ≢ [] → ending_of (c ∷ cs) b ≡ ending_of cs b
ending_of-cons c [] b h = absurd (h refl)
ending_of-cons c (d ∷ cs) b h = refl

append-named : (xs ys : Components) → ys ≢ [] → xs ++ ys ≢ []
append-named [] ys h = h
append-named (x ∷ xs) ys h = λ e. cc e

ending_of-append :
    (xs ys : Components) (b : Bool) → ys ≢ [] → ending_of (xs ++ ys) b ≡ ending_of ys b
ending_of-append [] ys b h = refl
ending_of-append (x ∷ xs) ys b h =
    ending_of-cons x (xs ++ ys) b (append-named xs ys h) ∙ ending_of-append xs ys b h

-- When two texts are joined, the first not empty, the names of the result are those of the first
-- and then those of the second, and it ends as the second does, if this has a name.
pub join_paths-names :
    (a b : Text) {t : Text}
    → a ≢ []
    → join_paths (some a ∷ some b ∷ []) ≡ (success, t)
    → (names t ≡ names a ++ names b) × (names b ≢ [] → ending t ≡ ending b)
unfolding ending
join_paths-names [] b h e = absurd (h refl)
join_paths-names (c ∷ a) b {t} h e =
    let (spelt, last) = subst (SpeltAs (c ∷ a) b) e (join_paths-SpeltAs c a b) in
    (
      spelt,
      λ named.
          ap (λ n. ending_of (names t) (n == slash)) (last named)
          ∙ ap (λ cs. ending_of cs (last_of 0 b == slash)) spelt
          ∙ ending_of-append (names (c ∷ a)) (names b) (last_of 0 b == slash) named,
    )
