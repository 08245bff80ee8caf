-- ===== src/Portmap/Scan.antt =====
-- Where the two loops of `get_index` stop, and that they stop there in a changed table too.
use improot.Base.{
  ℕ, zero, suc, ◌+◌, ◌-◌, ◌/◌, ◌≤◌, ◌<◌, ◌≡◌, ◌≢◌, refl, inl, inr, ◌⊎◌, true, false, ◌&&◌, some,
  List, [], ◌∷◌, arith, ltb, length, get_elem?, Bool-cases,
}
use improot.Portmap.{portmap_size, Entry, bit_and, is_taken, scan_up, scan_round}

pub bit_and-le : (bits a b : ℕ) → bit_and bits a b ≤ b
unfolding bit_and
bit_and-le zero a b = omega arith
bit_and-le (suc bits) a b = ground (arith, bit_and-le bits (a / 2) (b / 2))

-- Each step of a loop moves both counters.
pub scan_up-count :
    (key : ℕ) (es : List Entry) (b i : ℕ)
    → ((scan_up key es b i).1 + b ≡ i + (scan_up key es b i).0)
      × ((scan_up key es b i).0 ≤ b + length es)
      × (b ≤ (scan_up key es b i).0)
unfolding scan_up
scan_up-count key [] b i = (omega arith, omega arith, omega arith)
scan_up-count key (e ∷ es) b i = elim (Bool-cases (is_taken key e)) [
  | inl taken ↦
      let (c, u, l) = scan_up-count key es (suc b) (suc i) in
      rw taken (omega (arith, c), omega (arith, u), omega (arith, l))
  | inr free ↦ rw free (omega arith, omega arith, omega arith)
]

pub scan_round-count :
    (key : ℕ) (es : List Entry) (b i : ℕ)
    → ((scan_round key es b i).1 + b ≡ i + (scan_round key es b i).0)
      × ((scan_round key es b i).0 ≤ b + length es)
      × (b ≤ (scan_round key es b i).0)
unfolding scan_round
scan_round-count key [] b i = (omega arith, omega arith, omega arith)
scan_round-count key (e ∷ es) b i = elim (Bool-cases (ltb i portmap_size && is_taken key e)) [
  | inl on ↦
      let (c, u, l) = scan_round-count key es (suc b) (suc i) in
      rw on (omega (arith, c), omega (arith, u), omega (arith, l))
  | inr off ↦ rw off (omega arith, omega arith, omega arith)
]

-- Position `j` of the second list is free for the key, and every other one that is taken in the
-- first list is taken in the second. `b` is the position of the lists' head.
abbrev pub Follows : ℕ → ℕ → ℕ → List Entry → List Entry → Type 0
Follows key j b [] [] = Unit
Follows key j b [] (y ∷ ys) = ⊥
Follows key j b (x ∷ xs) [] = ⊥
Follows key j b (x ∷ xs) (y ∷ ys) =
    ((b ≡ j → is_taken key y ≡ false) × (b ≢ j → is_taken key x ≡ true → is_taken key y ≡ true))
    × Follows key j (suc b) xs ys

pub scan_up-Follows :
    (key j : ℕ) (xs ys : List Entry) (b i : ℕ)
    → Follows key j b xs ys
    → ((scan_up key xs b i).0 ≡ j) ⊎ (((scan_up key xs b i).0 ≡ b + length xs) × (j < b))
    → scan_up key ys b i ≡ scan_up key xs b i
unfolding scan_up
scan_up-Follows key j [] [] b i h stops = refl
scan_up-Follows key j [] (y ∷ ys) b i h stops = absurd h
scan_up-Follows key j (x ∷ xs) [] b i h stops = absurd h
scan_up-Follows key j (x ∷ xs) (y ∷ ys) b i h stops = elim (Bool-cases (is_taken key x)) [
  | inl taken ↦
      let later = passed (rw (taken, scan_up) at stops) in
      let y_taken = h.0.1 (away (rw (taken, scan_up) at stops)) taken in
      rw (taken, y_taken) (scan_up-Follows key j xs ys (suc b) (suc i) h.1 later)
  | inr free ↦ let y_free = h.0.0 (here (rw (free, scan_up) at stops)) in rw (free, y_free) refl
]
  where
    away :
        ((scan_up key xs (suc b) (suc i)).0 ≡ j)
          ⊎ (((scan_up key xs (suc b) (suc i)).0 ≡ b + suc (length xs)) × (j < b))
        → b ≢ j
    away (inl e) same = omega (arith, e, scan_up-count key xs (suc b) (suc i))
    away (inr e) same = omega (arith, e.1)

    passed :
        ((scan_up key xs (suc b) (suc i)).0 ≡ j)
          ⊎ (((scan_up key xs (suc b) (suc i)).0 ≡ b + suc (length xs)) × (j < b))
        → ((scan_up key xs (suc b) (suc i)).0 ≡ j)
          ⊎ (((scan_up key xs (suc b) (suc i)).0 ≡ suc b + length xs) × (j < suc b))
    passed (inl e) = inl e
    passed (inr e) = inr (omega (arith, e.0), omega (arith, e.1))

    here : (b ≡ j) ⊎ ((b ≡ b + suc (length xs)) × (j < b)) → b ≡ j
    here (inl e) = e
    here (inr e) = absurd (omega (arith, e.0))

pub scan_round-Follows :
    (key j : ℕ) (xs ys : List Entry) (b i : ℕ)
    → Follows key j b xs ys
    → (scan_round key xs b i).0 ≡ j
    → (scan_round key xs b i).1 < portmap_size
    → scan_round key ys b i ≡ scan_round key xs b i
unfolding scan_round
scan_round-Follows key j [] [] b i h e room = refl
scan_round-Follows key j [] (y ∷ ys) b i h e room = absurd h
scan_round-Follows key j (x ∷ xs) [] b i h e room = absurd h
scan_round-Follows key j (x ∷ xs) (y ∷ ys) b i h e room =
    elim (Bool-cases (ltb i portmap_size && is_taken key x)) [
      | inl on ↦
          let e' = rw (on, scan_round) at e in
          let apart : b ≢ j = λ same. omega (arith, e', scan_round-count key xs (suc b) (suc i)) in
          let y_taken = h.0.1 apart (ground arith) in
          let y_on : (ltb i portmap_size && is_taken key y) ≡ true = ground arith in
          rw (on, y_on)
            (scan_round-Follows key j xs ys (suc b) (suc i) h.1 e' (rw (on, scan_round) at room))
      | inr off ↦
          let y_free = h.0.0 (rw (off, scan_round) at e) in
          let y_off : (ltb i portmap_size && is_taken key y) ≡ false = ground arith in
          rw (off, y_off) refl
    ]

-- What a loop stops at before the end is free for the key.
pub scan_up-free :
    (key : ℕ) (es : List Entry) (b i : ℕ)
    → (scan_up key es b i).0 < b + length es
    → (e : Entry) × (get_elem? es ((scan_up key es b i).0 - b) ≡ some e) × (is_taken key e ≡ false)
unfolding scan_up
scan_up-free key [] b i h = absurd (omega arith)
scan_up-free key (e ∷ es) b i h = elim (Bool-cases (is_taken key e)) [
  | inl taken ↦
      let (x, at, free) =
        scan_up-free key es (suc b) (suc i) (omega (arith, rw (taken, scan_up) at h)) in
      let back : (scan_up key es (suc b) (suc i)).0 - b
          ≡ suc ((scan_up key es (suc b) (suc i)).0 - suc b) =
        omega (arith, scan_up-count key es (suc b) (suc i)) in
      rw taken (x, rw back at, free)
  | inr free ↦ let back : b - b ≡ 0 = omega arith in rw free (e, rw back refl, free)
]

pub scan_round-free :
    (key : ℕ) (es : List Entry) (b i : ℕ)
    → (scan_round key es b i).0 < b + length es
    → (scan_round key es b i).1 < portmap_size
    → (e : Entry) × (get_elem? es ((scan_round key es b i).0 - b) ≡ some e)
      × (is_taken key e ≡ false)
unfolding scan_round
scan_round-free key [] b i h room = absurd (omega arith)
scan_round-free key (e ∷ es) b i h room = elim (Bool-cases (ltb i portmap_size && is_taken key e)) [
  | inl on ↦
      let (x, at, free) =
        scan_round-free key es (suc b) (suc i) (omega (arith, rw (on, scan_round) at h))
          (rw (on, scan_round) at room) in
      let back : (scan_round key es (suc b) (suc i)).0 - b
          ≡ suc ((scan_round key es (suc b) (suc i)).0 - suc b) =
        omega (arith, scan_round-count key es (suc b) (suc i)) in
      rw on (x, rw back at, free)
  | inr off ↦
      let back : b - b ≡ 0 = omega arith in
      let below = rw (off, scan_round) at room in rw off (e, rw back refl, ground arith)
]
