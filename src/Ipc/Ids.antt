-- ===== src/Ipc/Ids.antt =====
-- The ids of System V objects: an index and a generation in one number.
use improot.Base.{
  ℕ, zero, suc, ◌+◌, ◌-◌, ◌*◌, ◌/◌, ◌%◌, ◌^◌, ◌≤◌, ◌<◌, ◌≡◌, ◌≢◌, ◌∙◌, refl, inl, inr, true, false,
  ◌||◌, some, List, ltb, ◌==◌, length, get_elem?, arith, get_elem?-lt, Bool-cases,
}
use improot.Ipc.{
  bit_or, object_id, sign_extended, Object, no_object, object_at, lookup_object, check_object,
}

-- `2 ^ k`, `b * 2 ^ k` and `k + bits`, by their clauses.
abbrev power : ℕ → ℕ
power zero = 1
power (suc k) = 2 * power k

abbrev shifted : ℕ → ℕ → ℕ
shifted zero b = b
shifted (suc k) b = 2 * shifted k b

abbrev wider : ℕ → ℕ → ℕ
wider zero bits = bits
wider (suc k) bits = suc (wider k bits)

bit_or-zero : (bits b : ℕ) → b < power bits → bit_or bits 0 b ≡ b
unfolding bit_or
bit_or-zero zero b h = omega arith
bit_or-zero (suc bits) b h = elim (Bool-cases (b % 2 == 1)) [
  | inl odd ↦ rw odd (ground (arith, bit_or-zero bits (b / 2) (omega arith)))
  | inr even ↦ rw even (ground (arith, bit_or-zero bits (b / 2) (omega arith)))
]

-- Two numbers that share no bit are added.
bit_or-shifted :
    (k bits a b : ℕ)
    → a < power k
    → b < power bits
    → bit_or (wider k bits) a (shifted k b) ≡ a + shifted k b
unfolding bit_or
bit_or-shifted zero bits a b ha hb =
    let nil : a ≡ 0 = omega arith in
    let sum : 0 + b ≡ b = omega arith in rw (nil, sum) (bit_or-zero bits b hb)
bit_or-shifted (suc k) bits a b ha hb =
    let half : (2 * shifted k b) / 2 ≡ shifted k b = omega arith in
    let even : ((2 * shifted k b) % 2 == 1) ≡ false = ground arith in
    let tail = bit_or-shifted k bits (a / 2) b (omega arith) hb in
    elim (Bool-cases (a % 2 == 1)) [
      | inl odd ↦ rw (odd, half, tail) (ground arith)
      | inr plain ↦ rw (plain, even, half, tail) (ground arith)
    ]

-- An id of an object that is in use holds the index and the generation side by side.
object_id-sum : (i g : ℕ) → i + 1 < 2 ^ 12 → g < 2 ^ 15 → object_id i g ≡ (i + 1) + g * 2 ^ 12
unfolding object_id
object_id-sum i g hi hg =
    let small : (i + 1) % 2 ^ 32 ≡ i + 1 = omega arith in
    let same : (sign_extended g * 2 ^ 12) % 2 ^ 32 ≡ shifted 12 g = ground arith in
    let sum = bit_or-shifted 12 20 (i + 1) g (omega arith) (omega arith) in
    rw (small, same, sum) (ground arith)

module _ {A : Type 0} where
  lookup_object-at :
      (objects : List (Object A)) (i g : ℕ) {object : Object A}
      → get_elem? objects i ≡ some object
      → i + 1 < 2 ^ 12
      → g < 2 ^ 15
      → lookup_object (object_id i g) objects ≡ check_object g i (some object)
  unfolding lookup_object
  lookup_object-at objects i g at hi hg =
      let id = object_id-sum i g hi hg in
      let low : object_id i g % 2 ^ 12 ≡ suc i = omega (arith, id) in
      let high : (object_id i g / 2 ^ 12) % 2 ^ 16 ≡ g = omega (arith, id) in
      let back : suc i - 1 ≡ i = omega arith in
      let inside : ltb (length objects) (suc i) ≡ false =
        ground (arith, get_elem?-lt objects i at) in
      let positive : (suc i == 0) ≡ false = ground arith in
      rw (low, high, back, inside, at, positive) refl

  -- The id that names an object that is in use is looked up to that object, for the first 4095
  -- slots, and for a generation that is not negative as an `int16_t`.
  pub lookup_object-object_id :
      (objects : List (Object A)) (i : ℕ) {object : Object A}
      → get_elem? objects i ≡ some object
      → object.valid ≡ true
      → i + 1 < 2 ^ 12
      → object.generation < 2 ^ 15
      → lookup_object (object_id i object.generation) objects ≡ object_at i object
  lookup_object-object_id objects i {object = o} at valid hi hg =
      lookup_object-at objects i o.generation at hi hg ∙ unfold check_object in ground arith

  -- An id with an earlier or a later generation than its slot's is refused.
  pub lookup_object_stale :
      (objects : List (Object A)) (i g : ℕ) {object : Object A}
      → get_elem? objects i ≡ some object
      → i + 1 < 2 ^ 12
      → g < 2 ^ 15
      → object.generation < 2 ^ 15
      → g ≢ object.generation
      → lookup_object (object_id i g) objects ≡ no_object
  lookup_object_stale objects i g {object = o} at hi hg ho ne =
      lookup_object-at objects i g at hi hg ∙ unfold check_object in ground arith

  -- Once the generation of a slot is negative as an `int16_t`, no id is looked up to that slot.
  pub lookup_object_wrapped :
      (objects : List (Object A)) (id : ℕ) {object : Object A}
      → get_elem? objects (id % 2 ^ 12 - 1) ≡ some object
      → 2 ^ 15 ≤ object.generation
      → object.generation < 2 ^ 16
      → lookup_object id objects ≡ no_object
  unfolding lookup_object
  lookup_object_wrapped objects id {object = o} at negative wide =
      elim (Bool-cases ((id % 2 ^ 12 == 0) || ltb (length objects) (id % 2 ^ 12))) [
        | inl out ↦ rw out refl
        | inr inside ↦ rw (inside, at) (unfold check_object in ground arith)
      ]
