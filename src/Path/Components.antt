-- ===== src/Path/Components.antt =====
-- The abstract view of a canonical path: its components, outermost first.
use improot.Base.{
  ℕ, ◌≡◌, refl, ◌≢◌, List, [], ◌∷◌, ◌++◌, arith, append_assoc, All, All-append, All-map, Text,
  slash, last_of, last_of-append,
}

abbrev pub Components : Type 0
Components = List Text

abbrev pub IsPlain : Text → Type 0
IsPlain = All (λ c. (c ≢ slash) × (c ≢ 0))

-- A name: not empty, with no separator and no NUL in it.
abbrev pub IsComponent : Text → Type 0
IsComponent c = (c ≢ []) × IsPlain c

abbrev pub body : Components → Text
body [] = []
body (c ∷ cs) = slash ∷ (c ++ body cs)

-- The canonical text.
abbrev pub render : Components → Text
render [] = slash ∷ []
render (c ∷ cs) = body (c ∷ cs)

pub body-append : (cs ds : Components) → body (cs ++ ds) ≡ body cs ++ body ds
body-append [] ds = refl
body-append (c ∷ cs) ds = simp (body-append cs ds, append_assoc)

pub body-plain : (cs : Components) → All IsComponent cs → All (λ c. c ≢ 0) (body cs)
body-plain [] h = tt
body-plain (c ∷ cs) h = (omega arith, All-append _ c (body cs) (plain c h.0.1) (body-plain cs h.1))
  where
    plain : (s : Text) → IsPlain s → All (λ c. c ≢ 0) s
    plain s = All-map _ _ s (λ a p. p.1)

-- A canonical path is `/` alone, or its body.
pub render-cons : (c : Text) (cs : Components) → render (c ∷ cs) ≡ body (c ∷ cs)
render-cons c cs = refl

last_of-plain : (d : ℕ) (c : Text) → d ≢ slash → IsPlain c → last_of d c ≢ slash
last_of-plain d [] hd h = hd
last_of-plain d (a ∷ c) hd h = last_of-plain a c h.0.0 h.1

last_of-component : (d : ℕ) (c : Text) → IsComponent c → last_of d c ≢ slash
last_of-component d [] h = absurd (h.0 refl)
last_of-component d (a ∷ c) h = last_of-plain a c h.1.0.0 h.1.1

last_of-bodies :
    (d : ℕ) (cs : Components) → d ≢ slash → All IsComponent cs → last_of d (body cs) ≢ slash
last_of-bodies d [] hd h = hd
last_of-bodies d (c ∷ cs) hd h =
    rw (last_of-append slash c (body cs))
      (last_of-bodies (last_of slash c) cs (last_of-component slash c h.0) h.1)

-- No separator ends the body of a path.
pub last_of-body :
    (d : ℕ) (c : Text) (cs : Components)
    → All IsComponent (c ∷ cs)
    → last_of d (body (c ∷ cs)) ≢ slash
last_of-body d c cs h =
    rw (last_of-append slash c (body cs))
      (last_of-bodies (last_of slash c) cs (last_of-component slash c h.0) h.1)
