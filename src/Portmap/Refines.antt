-- ===== src/Portmap/Refines.antt =====
-- The table refines a map from ports to ports.
use mathlib.Core.Path.{subst}
use improot.Base.{
  ℕ, zero, suc, ◌<◌, ◌≡◌, ◌≢◌, ◌∙◌, ap, sym, refl, inl, inr, ◌⊎◌, true, false, some, arith, ◌==◌,
  if◌then◌else◌, replicate, length-replicate, get_elem?, set_elem, get_elem?-set_elem,
  get_elem?-set_elem_ne, length-set_elem, get_elem?-lt, Bool-cases,
}
use improot.Portmap.{
  portmap_size, empty_entry, Entry, PortMap, initialize_portmap, is_taken, get_index, add_entry,
  get_port,
}
use improot.Portmap.Table.{get_index-le, get_index-free, get_index-Follows}
use improot.Portmap.Found.{
  get_port-at, present, IsTable, Represents, Follows-set_elem, get_port-absent,
}

module _ (p : PortMap) (table : IsTable p) (key value : ℕ) (nonzero : key ≢ 0)
    (room : get_index p key < portmap_size) where
  abbrev index : ℕ
  index = get_index p key

  abbrev new : Entry
  new = record { port_in = key; port_out = value }

  abbrev added : PortMap
  added = record p { map = set_elem p.map index new }

  old : (e : Entry) × (get_elem? p.map index ≡ some e) × (is_taken key e ≡ false)
  old = get_index-free p table.sized table.masked key index refl room

  at_index : get_elem? added.map index ≡ some new
  at_index = get_elem?-set_elem p.map index new old.1

  -- The new entry is found.
  added-index : get_index added key ≡ index
  added-index =
      get_index-Follows p table.sized table.masked key index (set_elem p.map index new)
        (Follows-set_elem key index 0 p.map index old.0 new old.1
          (λ n x at e ne. absurd (ne (omega (arith, e)))) (λ e. ground arith)
          (λ apart. absurd (apart (omega arith))))
        refl room

  -- And so is every other one.
  added-others :
      (j : ℕ) (e : Entry)
      → get_elem? p.map j ≡ some e
      → e.port_in ≢ 0
      → j ≢ index
      → get_index added e.port_in ≡ j
  added-others j e at used apart =
      let x = old.0 in
      get_index-Follows p table.sized table.masked e.port_in j (set_elem p.map index new)
        (Follows-set_elem e.port_in j 0 p.map index old.0 new old.1
          (λ n y at' same ne.
            let place : n ≡ j = omega (arith, same) in
            let it : y ≡ e = cc (rw place at at', at) in
            subst (λ z. is_taken e.port_in z ≡ false) (sym it) (ground arith))
          (λ same. absurd (apart (omega (arith, same)))) (λ ne taken. ground (arith, old.2)))
        (table.found j e at used) (omega (arith, get_elem?-lt p.map j at, table.sized))

  added-IsTable : IsTable added
  added-IsTable = record {
    sized = length-set_elem p.map index new ∙ table.sized;
    masked = table.masked;
    found = λ j e at used. elim (Bool-cases (j == index)) [
      | inl same ↦
          let place : j ≡ index = ground arith in
          let it : new ≡ e = cc (at_index, rw place at at) in
          ap (λ y. get_index added y.port_in) (sym it) ∙ added-index ∙ sym place
      | inr other ↦
          let apart : j ≢ index = ground arith in
          added-others j e (sym (get_elem?-set_elem_ne p.map index j new apart) ∙ at) used apart
    ];
  }

  -- The keys of the table before and after.
  added-keeps : (k : ℕ) → k ≢ 0 → k ≢ key → get_port added k ≡ get_port p k
  added-keeps k used other = kept (present p table k used)
    where
      apart : (j : ℕ) (e : Entry) → get_elem? p.map j ≡ some e → e.port_in ≡ k → j ≢ index
      apart j e at own same =
          let it : old.0 ≡ e = cc (old.1, rw same at at) in
          absurd (ground (arith, old.2, own, ap (λ y. y.port_in) it))

      kept :
          ((j : ℕ) × (e : Entry) × (get_elem? p.map j ≡ some e) × (e.port_in ≡ k))
            ⊎ ((j : ℕ) (e : Entry) → get_elem? p.map j ≡ some e → e.port_in ≢ k)
          → get_port added k ≡ get_port p k
      kept (inl (j, e, at, own)) =
          get_port-at added added-IsTable k used j e
            (get_elem?-set_elem_ne p.map index j new (apart j e at own) ∙ at) own
          ∙ sym (get_port-at p table k used j e at own)
      kept (inr nowhere) =
          get_port-absent added k (λ j e at own. elim (Bool-cases (j == index)) [
            | inl same ↦
                let place : j ≡ index = ground arith in
                let it : new ≡ e = cc (at_index, rw place at at) in
                other (sym own ∙ ap (λ y. y.port_in) (sym it))
            | inr elsewhere ↦
                nowhere j e (sym (get_elem?-set_elem_ne p.map index j new (ground arith)) ∙ at) own
          ])
          ∙ sym (get_port-absent p k nowhere)

  added-new : get_port added key ≡ value
  added-new = get_port-at added added-IsTable key nonzero index new at_index refl

-- The function that an addition stands for.
abbrev pub updated : (ℕ → ℕ) → ℕ → ℕ → ℕ → ℕ
updated f key value k = if k == key then value else f k

-- An `add_entry` that succeeds refines the update of a map: when the table stands for a function on
-- the ports that are not 0, the new table stands for that function with the new port in it, and
-- every port that was found is found as before.
pub add_entry-Represents :
    (p : PortMap) (f : ℕ → ℕ) (key value : ℕ)
    → Represents p f
    → key ≢ 0
    → (add_entry p key value).0 ≡ true
    → Represents (add_entry p key value).1 (updated f key value)
unfolding add_entry
add_entry-Represents p f key value (table, finds) nonzero added_ok =
    let room : get_index p key < portmap_size =
      ground (arith, get_index-le p table.sized table.masked key) in
    let inside : (get_index p key == portmap_size) ≡ false = ground arith in
    rw inside (
      added-IsTable p table key value nonzero room,
      λ k used. elim (Bool-cases (k == key)) [
        | inl same ↦
            let it : k ≡ key = ground arith in
            rw (same, it) (added-new p table key value nonzero room)
        | inr other ↦
            rw other
              (added-keeps p table key value nonzero room k used (ground arith) ∙ finds k used)
      ],
    )

replicate-entry :
    (n : ℕ) (x : Entry) (j : ℕ) (e : Entry) → get_elem? (replicate n x) j ≡ some e → e ≡ x
replicate-entry zero x j e at = cc
replicate-entry (suc n) x zero e at = cc
replicate-entry (suc n) x (suc j) e at = replicate-entry n x j e at

-- The table that `initialize_portmap` makes stands for the map with no port.
pub initialize_portmap-Represents : Represents initialize_portmap (λ k. 0)
unfolding initialize_portmap
initialize_portmap-Represents = (
  record {
    sized = length-replicate {A = Entry} portmap_size empty_entry;
    masked = refl;
    found = λ j e at used.
        absurd (used (ap (λ y. y.port_in) (replicate-entry portmap_size empty_entry j e at)));
  },
  λ k used. get_port-absent initialize_portmap k (λ j e at own.
      used (sym own ∙ ap (λ y. y.port_in) (replicate-entry portmap_size empty_entry j e at))),
)
