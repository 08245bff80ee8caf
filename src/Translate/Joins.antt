-- ===== src/Translate/Joins.antt =====
-- What a join leaves is a text.
use improot.Base.{
  ◌+◌, ◌-◌, ◌≡◌, ◌≢◌, refl, inl, inr, ◌⊎◌, Bool, true, false, not, ◌&&◌, some, none, Option, [],
  ◌∷◌, ◌++◌, arith, leb, ltb, ◌==◌, if◌then◌else◌, All, All-append, All-drop, Text, slash, char_at,
  strlen, drop,
}
use improot.Path.{enametoolong, path_max, Status, success, failure, join_one, join_loop, join_paths}
use improot.Path.Names.{IsText}

-- Text that a join leaves.
abbrev Joins : Option Text → Type 0
Joins none = Unit
Joins (some t) = IsText t

IsText-append : (a b : Text) → IsText a → All (λ c. c ≢ 0) b → IsText (a ++ b)
IsText-append [] b p q = absurd (p.0 refl)
IsText-append (x ∷ a) b p q = (λ e. cc, All-append _ (x ∷ a) b p.1 q)

if-Joins : (b : Bool) (x y : Option Text) → Joins x → Joins y → Joins (if b then x else y)
if-Joins true x y hx hy = hx
if-Joins false x y hx hy = hy

join_one-Joins : (a b : Text) → IsText a → All (λ c. c ≢ 0) b → Joins (join_one a b)
unfolding join_one
join_one-Joins a b p q =
    let ends = char_at a (strlen a - 1) == slash in
    let begins = char_at b 0 == slash in
    if-Joins (ltb 0 (strlen a) && (not ends && not begins)) _ _
      (if-Joins (leb path_max (strlen a + strlen b + 1 + 1)) none _ tt
        (IsText-append a (slash ∷ b) p (omega arith, q)))
      (if-Joins (ltb 0 (strlen a) && (ends && begins)) _ _
        (if-Joins (leb path_max (strlen a + strlen b - 1 + 1)) none _ tt
          (IsText-append a (drop 1 b) p (All-drop _ 1 b q)))
        (if-Joins (leb path_max (strlen a + strlen b + 1)) none _ tt (IsText-append a b p q)))

abbrev pub Left : Status × Text → Type 0
Left (success, t) = IsText t
Left (failure e, t) = Unit

second-Left :
    (a : Text) (o : Option Text)
    → Joins o
    → Left (elim o [ none ↦ (failure enametoolong, a) | some r ↦ (success, r) ])
second-Left a none h = tt
second-Left a (some t) h = h

-- Joining a text and a C string leaves a text.
pub join_paths-Left :
    (a b : Text) → IsText a → All (λ c. c ≢ 0) b → Left (join_paths (some a ∷ some b ∷ []))
unfolding join_paths join_loop
join_paths-Left a b p q = elim (first_join) [
  | inl e ↦ rw (e, join_loop) tt
  | inr e ↦ rw (e, join_loop) (second-Left a (join_one a b) (join_one-Joins a b p q))
]
  where
    first_join : (join_one [] a ≡ none) ⊎ (join_one [] a ≡ some a)
    first_join = unfold join_one in ground arith
