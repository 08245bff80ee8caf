-- ===== src/Binding/Place.antt =====
-- Where the loop of `insort_binding` puts a new binding.
use improot.Base.{
  ℕ, suc, ◌+◌, ◌≡◌, ◌⊎◌, inl, inr, Option, some, List, [], ◌∷◌, arith, All, Bool-cases,
}
use improot.Path.Order.{Comparison-cases}
use improot.Binding.{Side, Binding, path_at}
use improot.Binding.Insort.{replace, between, or_iterator, compare_at, is_host, find_place}
use improot.Binding.Order.{LastInside, EqualAt}
use improot.Binding.Canonical.{Contains, Within}

-- The pointer `previous` after the loop over `xs` from position `i`: as it was, and nothing of
-- `xs` lies strictly inside the new binding; or at the last element that does.
abbrev pub Placed : Side → Binding → List Binding → ℕ → Option ℕ → Option ℕ → Type 0
Placed side b xs i previous p =
    ((p ≡ previous) × All (λ y. ¬ (Contains (path_at side b) (path_at side y))) xs)
    ⊎ ((n : ℕ) × (p ≡ some (i + n)) × LastInside side b xs n)

module _ (side : Side) (b : Binding) where
  Placed-here :
      (x : Binding) (xs : List Binding) (i : ℕ) {previous p : Option ℕ}
      → Within (path_at side b) (path_at side x)
      → Placed side b xs (suc i) (some i) p
      → Placed side b (x ∷ xs) i previous p
  Placed-here x xs i w (inl (e, out)) = inr (0, ground arith, (w, out))
  Placed-here x xs i w (inr (n, e, inside)) = inr (suc n, ground arith, inside)

  Placed-pass :
      (x : Binding) (xs : List Binding) (i : ℕ) {previous p : Option ℕ}
      → ¬ (Contains (path_at side b) (path_at side x))
      → Placed side b xs (suc i) previous p
      → Placed side b (x ∷ xs) i previous p
  Placed-pass x xs i out (inl (e, outs)) = inl (e, (out, outs))
  Placed-pass x xs i out (inr (n, e, inside)) = inr (suc n, ground arith, inside)

  pub find_place-between :
      (xs : List Binding) (i : ℕ) (previous next : Option ℕ) {p q : Option ℕ}
      → find_place side b xs i previous next ≡ between p q
      → Placed side b xs i previous p
  unfolding find_place
  find_place-between [] i previous next e = inl (ground arith, tt)
  find_place-between (x ∷ xs) i previous next e = elim (Comparison-cases (compare_at side b x)) [
    | inl equal ↦ elim (Bool-cases (is_host side)) [
      | inl host ↦
          Placed-here x xs i (rw equal)
            (find_place-between xs (suc i) (some i) next (rw (equal, host, find_place) at e))
      | inr other ↦ cc (rw (equal, other, find_place) at e)
    ]
    | inr (inl inside) ↦
        Placed-here x xs i (rw inside)
          (find_place-between xs (suc i) (some i) next (rw (inside, find_place) at e))
    | inr (inr (inl outside)) ↦
        Placed-pass x xs i (λ c. cc)
          (find_place-between xs (suc i) previous (or_iterator next i)
            (rw (outside, find_place) at e))
    | inr (inr (inr apart)) ↦
        Placed-pass x xs i (λ c. cc)
          (find_place-between xs (suc i) previous next (rw (apart, find_place) at e))
  ]

  -- The pointer `next` never leaves the first element.
  pub find_place-next :
      (xs : List Binding) (i : ℕ) (previous : Option ℕ) (k : ℕ) (p q : Option ℕ)
      → find_place side b xs i previous (some k) ≡ between p q
      → q ≡ some k
  unfolding find_place
  find_place-next [] i previous k p q e = ground arith
  find_place-next (x ∷ xs) i previous k p q e =
      ground (
        arith,
        find_place-next xs (suc i) previous k p q,
        find_place-next xs (suc i) (some i) k p q,
      )

abbrev pub Replaces : Side → Binding → List Binding → ℕ → ℕ → Type 0
Replaces side b xs i m = (n : ℕ) × (m ≡ i + n) × EqualAt side b xs n

Replaces-pass :
    (side : Side) (b x : Binding) (xs : List Binding) (i m : ℕ)
    → Replaces side b xs (suc i) m
    → Replaces side b (x ∷ xs) i m
Replaces-pass side b x xs i m (n, e, h) = (suc n, omega arith, h)

pub find_place-replace :
    (side : Side) (b : Binding) (xs : List Binding) (i : ℕ) (previous next : Option ℕ) {m : ℕ}
    {old : Binding}
    → find_place side b xs i previous next ≡ replace m old
    → Replaces side b xs i m
unfolding find_place
find_place-replace side b [] i previous next e = cc
find_place-replace side b (x ∷ xs) i previous next {m} e =
    elim (Comparison-cases (compare_at side b x)) [
      | inl equal ↦ elim (Bool-cases (is_host side)) [
        | inl host ↦
            Replaces-pass side b x xs i m (
              find_place-replace side b xs (suc i) (some i) next
                (rw (equal, host, find_place) at e))
        | inr other ↦ (0, ground arith, equal)
      ]
      | inr (inl inside) ↦
          Replaces-pass side b x xs i m
            (find_place-replace side b xs (suc i) (some i) next (rw (inside, find_place) at e))
      | inr (inr (inl outside)) ↦ Replaces-pass side b x xs i m (
          find_place-replace side b xs (suc i) previous (or_iterator next i)
            (rw (outside, find_place) at e))
      | inr (inr (inr apart)) ↦
          Replaces-pass side b x xs i m
            (find_place-replace side b xs (suc i) previous next (rw (apart, find_place) at e))
    ]
