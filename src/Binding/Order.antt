-- ===== src/Binding/Order.antt =====
-- `insort_binding` keeps each list in an order where no element strictly contains a later one.
use improot.Base.{ℕ, zero, suc, ◌≡◌, inl, inr, List, [], ◌∷◌, All, ◌==◌, Bool-cases}
use improot.Path.{paths_are_equal}
use improot.Binding.{Side, Binding, path_at}
use improot.Binding.Insort.{compare_at, insert_after, unlink}
use improot.Binding.Canonical.{
  IsSound, path_at-IsCanonical, Equal-Contains, Contains, Within, Contains-trans, Contains-antisym,
}

-- No element strictly contains a later one, from the side's point of view.
abbrev pub IsSorted : Side → List Binding → Type 0
IsSorted side [] = Unit
IsSorted side (b ∷ bs) =
    All (λ c. ¬ (Contains (path_at side b) (path_at side c))) bs × IsSorted side bs

pub unlink-All {ℓ} :
    (P : Binding → Type ℓ) (id : ℕ) (bs : List Binding) → All P bs → All P (unlink id bs)
unfolding unlink
unlink-All P id [] h = tt
unlink-All P id (b ∷ bs) h = elim (Bool-cases (b.id == id)) [
  | inl e ↦ rw e (unlink-All P id bs h.1)
  | inr e ↦ rw e (h.0, unlink-All P id bs h.1)
]

pub unlink-IsSorted :
    (side : Side) (id : ℕ) (bs : List Binding) → IsSorted side bs → IsSorted side (unlink id bs)
unfolding unlink
unlink-IsSorted side id [] h = tt
unlink-IsSorted side id (b ∷ bs) h = elim (Bool-cases (b.id == id)) [
  | inl e ↦ rw e (unlink-IsSorted side id bs h.1)
  | inr e ↦ rw e (unlink-All _ id bs h.0, unlink-IsSorted side id bs h.1)
]

-- Element `n` lies inside the new binding, or is bound to the same path, and none behind it lies
-- strictly inside.
abbrev pub LastInside : Side → Binding → List Binding → ℕ → Type 0
LastInside side b [] n = ⊥
LastInside side b (x ∷ xs) zero =
    Within (path_at side b) (path_at side x)
    × All (λ y. ¬ (Contains (path_at side b) (path_at side y))) xs
LastInside side b (x ∷ xs) (suc n) = LastInside side b xs n

pub All-insert_after {ℓ} :
    (P : Binding → Type ℓ) (n : ℕ) (b : Binding) (xs : List Binding)
    → P b
    → All P xs
    → All P (insert_after n b xs)
unfolding insert_after
All-insert_after P n b [] hb h = (hb, tt)
All-insert_after P zero b (x ∷ xs) hb h = (h.0, (hb, h.1))
All-insert_after P (suc n) b (x ∷ xs) hb h = (h.0, All-insert_after P n b xs hb h.1)

module _ (side : Side) {b : Binding} (hb : IsSound b) where
  -- What lies in front of an element inside the new binding does not contain the new binding.
  not-Contains_new :
      {x : Binding} (n : ℕ) (xs : List Binding)
      → IsSound x
      → All IsSound xs
      → LastInside side b xs n
      → All (λ y. ¬ (Contains (path_at side x) (path_at side y))) xs
      → ¬ (Contains (path_at side x) (path_at side b))
  not-Contains_new n [] hx hs inside apart c = inside
  not-Contains_new zero (y ∷ xs) hx hs inside apart c = apart.0 (
      Contains-trans (path_at-IsCanonical side hx) (path_at-IsCanonical side hb)
        (path_at-IsCanonical side hs.0) c inside.0)
  not-Contains_new (suc n) (y ∷ xs) hx hs inside apart c =
      not-Contains_new n xs hx hs.1 inside apart.1 c

  not_inside :
      (x : Binding)
      → IsSound x
      → Within (path_at side b) (path_at side x)
      → ¬ (Contains (path_at side x) (path_at side b))
  not_inside x hx w c =
      let out = Contains-antisym (path_at-IsCanonical side hx) (path_at-IsCanonical side hb) c in cc

  pub insert_after-IsSorted :
      (n : ℕ) (xs : List Binding)
      → All IsSound xs
      → LastInside side b xs n
      → IsSorted side xs
      → IsSorted side (insert_after n b xs)
  unfolding insert_after
  insert_after-IsSorted n [] hs inside sorted = absurd inside
  insert_after-IsSorted zero (x ∷ xs) hs inside sorted =
      ((λ c. not_inside x hs.0 inside.0 c, sorted.0), (inside.1, sorted.1))
  insert_after-IsSorted (suc n) (x ∷ xs) hs inside sorted = (
    All-insert_after _ n b xs (not-Contains_new n xs hs.0 hs.1 inside sorted.0) sorted.0,
    insert_after-IsSorted n xs hs.1 inside sorted.1,
  )

-- Element `n` is bound to the same path as the new binding.
abbrev pub EqualAt : Side → Binding → List Binding → ℕ → Type 0
EqualAt side b [] n = ⊥
EqualAt side b (x ∷ xs) zero = compare_at side b x ≡ paths_are_equal
EqualAt side b (x ∷ xs) (suc n) = EqualAt side b xs n

module _ (side : Side) {b : Binding} (hb : IsSound b) where
  not-Contains_equal :
      (x : Binding) (xs : List Binding)
      → IsSound x
      → All IsSound xs
      → compare_at side b x ≡ paths_are_equal
      → All (λ y. ¬ (Contains (path_at side x) (path_at side y))) xs
      → All (λ y. ¬ (Contains (path_at side b) (path_at side y))) xs
  not-Contains_equal x [] hx hs e h = tt
  not-Contains_equal x (y ∷ xs) hx hs e h = (
    λ c. h.0 (
        Equal-Contains (path_at-IsCanonical side hb) (path_at-IsCanonical side hx)
          (path_at-IsCanonical side hs.0) e c),
    not-Contains_equal x xs hx hs.1 e h.1,
  )

  pub LastInside-EqualAt :
      (xs : List Binding) (n : ℕ)
      → All IsSound xs
      → IsSorted side xs
      → EqualAt side b xs n
      → LastInside side b xs n
  LastInside-EqualAt [] n hs sorted e = e
  LastInside-EqualAt (x ∷ xs) zero hs sorted e =
      (rw e, not-Contains_equal x xs hs.0 hs.1 e sorted.0)
  LastInside-EqualAt (x ∷ xs) (suc n) hs sorted e = LastInside-EqualAt xs n hs.1 sorted.1 e
