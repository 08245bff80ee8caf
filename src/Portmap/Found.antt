-- ===== src/Portmap/Found.antt =====
-- The entries that a search finds.
use improot.Base.{
  ℕ, zero, suc, ◌+◌, ◌-◌, ◌≡◌, ◌≢◌, ◌∙◌, ap, sym, refl, inl, inr, ◌⊎◌, true, false, none, some,
  List, [], ◌∷◌, arith, ◌==◌, length, get_elem?, set_elem, get_elem?-lt, Bool-cases, Option-cases,
}
use improot.Portmap.{portmap_size, Entry, PortMap, is_taken, get_index, get_port}
use improot.Portmap.Scan.{Follows}

-- Every entry in use stands where the search for its key ends.
pub record IsTable (p : PortMap) : Type 0 where
  pub sized : length p.map ≡ portmap_size
  pub masked : p.table_mask ≡ portmap_size - 1
  pub found :
      (j : ℕ) (e : Entry) → get_elem? p.map j ≡ some e → e.port_in ≢ 0 → get_index p e.port_in ≡ j

-- The table stands for a function on the ports that are not 0, with 0 for no entry.
abbrev pub Represents : PortMap → (ℕ → ℕ) → Type 0
Represents p f = IsTable p × ((key : ℕ) → key ≢ 0 → get_port p key ≡ f key)

Follows-self :
    (key j b : ℕ) (es : List Entry)
    → ((n : ℕ) (x : Entry) → get_elem? es n ≡ some x → b + n ≡ j → is_taken key x ≡ false)
    → Follows key j b es es
Follows-self key j b [] h = tt
Follows-self key j b (x ∷ es) h = (
  (λ same. h 0 x refl (omega (arith, same)), λ apart taken. taken),
  Follows-self key j (suc b) es (λ n y at e. h (suc n) y at (omega (arith, e))),
)

pub Follows-set_elem :
    (key j b : ℕ) (es : List Entry) (i : ℕ) (old new : Entry)
    → get_elem? es i ≡ some old
    → ((n : ℕ) (x : Entry) → get_elem? es n ≡ some x → b + n ≡ j → n ≢ i → is_taken key x ≡ false)
    → (b + i ≡ j → is_taken key new ≡ false)
    → (b + i ≢ j → is_taken key old ≡ true → is_taken key new ≡ true)
    → Follows key j b es (set_elem es i new)
Follows-set_elem key j b [] i old new at h here away = cc
Follows-set_elem key j b (x ∷ es) zero old new at h here away =
    let same : x ≡ old = cc at in
    (
      (
        λ e. here (omega (arith, e)),
        λ apart taken. away (λ e. apart (omega (arith, e))) (ap (is_taken key) (sym same) ∙ taken),
      ),
      Follows-self key j (suc b) es
          (λ n y at' e. h (suc n) y at' (omega (arith, e)) (λ q. omega (arith, q))),
    )
Follows-set_elem key j b (x ∷ es) (suc i) old new at h here away = (
  (λ same. h 0 x refl (omega (arith, same)) (λ q. omega (arith, q)), λ apart taken. taken),
  Follows-set_elem key j (suc b) es i old new at
      (λ n y at' e ne. h (suc n) y at' (omega (arith, e)) (λ q. ne (omega (arith, q))))
      (λ e. here (omega (arith, e))) (λ apart. away (λ e. apart (omega (arith, e)))),
)

module _ (p : PortMap) (table : IsTable p) (key : ℕ) (nonzero : key ≢ 0) where
  pub get_port-at :
      (j : ℕ) (e : Entry)
      → get_elem? p.map j ≡ some e
      → e.port_in ≡ key
      → get_port p key ≡ e.port_out
  unfolding get_port
  get_port-at j e at own =
      let index : get_index p key ≡ j =
        ap (get_index p) (sym own) ∙ table.found j e at (λ q. nonzero (omega (arith, q, own))) in
      let inside : (j == portmap_size) ≡ false =
        ground (arith, get_elem?-lt p.map j at, table.sized) in
      rw (index, inside, at) (ground (arith, own))

  -- Whether the key is in the table.
  pub present :
      ((j : ℕ) × (e : Entry) × (get_elem? p.map j ≡ some e) × (e.port_in ≡ key))
      ⊎ ((j : ℕ) (e : Entry) → get_elem? p.map j ≡ some e → e.port_in ≢ key)
  present = looked (Option-cases (get_elem? p.map (get_index p key)))
    where
      index_of :
          (j : ℕ) (e : Entry)
          → get_elem? p.map j ≡ some e
          → e.port_in ≡ key
          → get_elem? p.map (get_index p key) ≡ some e
      index_of j e at own =
          let index : get_index p key ≡ j =
            ap (get_index p) (sym own)
            ∙ table.found j e at (λ q. nonzero (omega (arith, q, own))) in
          rw index at

      looked :
          (get_elem? p.map (get_index p key) ≡ none)
            ⊎ ((e : Entry) × (get_elem? p.map (get_index p key) ≡ some e))
          → ((j : ℕ) × (e : Entry) × (get_elem? p.map j ≡ some e) × (e.port_in ≡ key))
            ⊎ ((j : ℕ) (e : Entry) → get_elem? p.map j ≡ some e → e.port_in ≢ key)
      looked (inl nothing) = inr (λ j e at own. cc (nothing, index_of j e at own))
      looked (inr (e, at)) = elim (Bool-cases (e.port_in == key)) [
        | inl own ↦ inl (get_index p key, e, at, ground arith)
        | inr other ↦ inr λ j x at' own.
            let same : e ≡ x = cc (at, index_of j x at' own) in
            absurd (ground (arith, ap (λ y. y.port_in) same, own))
      ]

pub get_port-absent :
    (p : PortMap) (key : ℕ)
    → ((j : ℕ) (e : Entry) → get_elem? p.map j ≡ some e → e.port_in ≢ key)
    → get_port p key ≡ 0
unfolding get_port
get_port-absent p key h = elim (Option-cases (get_elem? p.map (get_index p key))) [
  | inl nothing ↦ rw nothing (ground arith)
  | inr (e, at) ↦ rw at (ground (arith, h (get_index p key) e at))
]
