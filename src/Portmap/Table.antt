-- ===== src/Portmap/Table.antt =====
-- Where `get_index` ends, in a table and in one that follows it.
use mathlib.Core.Path.{subst}
use improot.Base.{
  ℕ, zero, suc, ◌+◌, ◌-◌, ◌≤◌, ◌<◌, ◌≡◌, ◌∙◌, ap, sym, refl, inl, inr, ◌⊎◌, true, false, some, List,
  [], ◌∷◌, arith, ltb, length, drop, get_elem?, Bool-cases,
}
use improot.Portmap.{
  portmap_size, Entry, PortMap, bit_and, is_taken, scan_up, scan_round, round_index, after_scan,
  get_index,
}
use improot.Portmap.Scan.{
  bit_and-le, scan_up-count, scan_round-count, Follows, scan_up-Follows, scan_round-Follows,
  scan_up-free, scan_round-free,
}

length-drop : (n : ℕ) (es : List Entry) → length (drop n es) ≡ length es - n
length-drop zero es = omega arith
length-drop (suc n) [] = omega arith
length-drop (suc n) (e ∷ es) = omega (arith, length-drop n es)

get_elem?-drop : (n : ℕ) (es : List Entry) (i : ℕ) → get_elem? (drop n es) i ≡ get_elem? es (n + i)
get_elem?-drop zero es i = ap (get_elem? es) (omega arith)
get_elem?-drop (suc n) [] i = refl
get_elem?-drop (suc n) (e ∷ es) i =
    get_elem?-drop n es i ∙ ap (get_elem? (e ∷ es)) {x = suc (n + i)} (omega arith)

Follows-drop :
    (n key j b : ℕ) (xs ys : List Entry)
    → Follows key j b xs ys
    → Follows key j (b + n) (drop n xs) (drop n ys)
Follows-drop zero key j b xs ys h =
    let same : b ≡ b + 0 = omega arith in subst (λ c. Follows key j c xs ys) same h
Follows-drop (suc n) key j b [] [] h = tt
Follows-drop (suc n) key j b [] (y ∷ ys) h = absurd h
Follows-drop (suc n) key j b (x ∷ xs) [] h = absurd h
Follows-drop (suc n) key j b (x ∷ xs) (y ∷ ys) h =
    let same : suc b + n ≡ b + suc n = omega arith in
    subst (λ c. Follows key j c (drop n xs) (drop n ys)) same
      (Follows-drop n key j (suc b) xs ys h.1)

-- Where the search ends below the size.
after_scan-stop :
    (key j : ℕ) (es : List Entry) (r : ℕ × ℕ)
    → after_scan key es r ≡ j
    → j < portmap_size
    → (r.0 ≡ j)
      ⊎ ((portmap_size ≤ r.0)
          × ((scan_round key es 0 r.1).0 ≡ j)
          × ((scan_round key es 0 r.1).1 < portmap_size))
unfolding after_scan
after_scan-stop key j es r e h = elim (Bool-cases (ltb r.0 portmap_size)) [
  | inl first ↦ inl (rw (first, after_scan) at e)
  | inr second ↦
      let e' = rw (second, after_scan) at e in
      elim (Bool-cases (ltb (scan_round key es 0 r.1).1 portmap_size)) [
        | inl room ↦ inr (ground arith, rw (room, round_index) at e', ground arith)
        | inr full ↦ absurd (omega (arith, rw (full, round_index) at e'))
      ]
]

after_scan-first :
    (key j : ℕ) (es : List Entry) (r : ℕ × ℕ) → r.0 ≡ j → j < portmap_size → after_scan key es r ≡ j
unfolding after_scan
after_scan-first key j es r e h = ground arith

after_scan-second :
    (key j : ℕ) (es : List Entry) (r : ℕ × ℕ)
    → portmap_size ≤ r.0
    → (scan_round key es 0 r.1).0 ≡ j
    → (scan_round key es 0 r.1).1 < portmap_size
    → after_scan key es r ≡ j
unfolding after_scan round_index
after_scan-second key j es r over e room =
    let no_first : ltb r.0 portmap_size ≡ false = ground arith in
    let fits : ltb (scan_round key es 0 r.1).1 portmap_size ≡ true = ground arith in
    rw (no_first, fits) e

module _ (p : PortMap) (sized : length p.map ≡ portmap_size)
    (masked : p.table_mask ≡ portmap_size - 1) (key : ℕ) where
  abbrev start : ℕ
  start = bit_and 16 key p.table_mask

  abbrev first_scan : ℕ × ℕ
  first_scan = scan_up key (drop start p.map) start 0

  start-le : start ≤ 4095
  start-le = omega (arith, bit_and-le 16 key p.table_mask, masked)

  ends : first_scan.0 ≤ portmap_size
  ends = omega (
    arith,
    scan_up-count key (drop start p.map) start 0,
    length-drop start p.map,
    start-le,
    sized,
  )

  abbrev Stops : ℕ → Type 0
  Stops j =
      (first_scan.0 ≡ j)
      ⊎ ((portmap_size ≤ first_scan.0)
          × ((scan_round key p.map 0 first_scan.1).0 ≡ j)
          × ((scan_round key p.map 0 first_scan.1).1 < portmap_size))

  pub get_index-le : get_index p key ≤ portmap_size
  unfolding get_index after_scan round_index
  get_index-le = ground (arith, scan_round-count key p.map 0 first_scan.1, sized)

  -- The entry that `get_index` finds is free for the key.
  pub get_index-free :
      (j : ℕ)
      → get_index p key ≡ j
      → j < portmap_size
      → (e : Entry) × (get_elem? p.map j ≡ some e) × (is_taken key e ≡ false)
  unfolding get_index
  get_index-free j found h = stopped (after_scan-stop key j p.map first_scan found h)
    where
      stopped : Stops j → (e : Entry) × (get_elem? p.map j ≡ some e) × (is_taken key e ≡ false)
      stopped (inl at) =
          let count = scan_up-count key (drop start p.map) start 0 in
          let (e, here, free) =
            scan_up-free key (drop start p.map) start 0
              (omega (arith, at, length-drop start p.map, start-le, sized)) in
          let place : j ≡ start + (first_scan.0 - start) = omega (arith, at, count) in
          (
            e,
            ap (get_elem? p.map) place
                ∙ sym (get_elem?-drop start p.map (first_scan.0 - start))
                ∙ here,
            free,
          )
      stopped (inr (over, at, room)) =
          let (e, here, free) =
            scan_round-free key p.map 0 first_scan.1 (omega (arith, at, sized)) room in
          let place : j ≡ (scan_round key p.map 0 first_scan.1).0 - 0 = omega (arith, at) in
          (e, ap (get_elem? p.map) place ∙ here, free)

  -- It finds the same position in a table that follows this one.
  pub get_index-Follows :
      (j : ℕ) (es : List Entry)
      → Follows key j 0 p.map es
      → get_index p key ≡ j
      → j < portmap_size
      → get_index (record p { map = es }) key ≡ j
  unfolding get_index
  get_index-Follows j es follows found h = stopped (after_scan-stop key j p.map first_scan found h)
    where
      shifted : Follows key j start (drop start p.map) (drop start es)
      shifted =
          let same : 0 + start ≡ start = omega arith in
          subst (λ c. Follows key j c (drop start p.map) (drop start es)) same
            (Follows-drop start key j 0 p.map es follows)

      stopped : Stops j → after_scan key es (scan_up key (drop start es) start 0) ≡ j
      stopped (inl at) =
          ap (after_scan key es)
            (scan_up-Follows key j (drop start p.map) (drop start es) start 0 shifted (inl at))
          ∙ after_scan-first key j es first_scan at h
      stopped (inr (over, at, room)) =
          let count = scan_up-count key (drop start p.map) start 0 in
          let round = scan_round-count key p.map 0 first_scan.1 in
          let same = scan_round-Follows key j p.map es 0 first_scan.1 follows at room in
          ap (after_scan key es) (
            scan_up-Follows key j (drop start p.map) (drop start es) start 0 shifted (
              inr (
                omega (arith, count, over, length-drop start p.map, start-le, sized),
                omega (arith, count, over, round, at, room, ends),
              )))
          ∙ after_scan-second key j es first_scan over (ap (λ r. r.0) same ∙ at) (rw same room)
