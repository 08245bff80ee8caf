-- ===== src/Portmap.antt =====
-- src/extension/portmap/map.c: the table of port numbers, with open addressing. Ports are the
-- patterns of 16 bits.
pub mod Scan
pub mod Table
pub mod Found
pub mod Refines
use improot.Base.{
  ℕ, zero, suc, ◌+◌, ◌*◌, ◌/◌, ◌%◌, ◌-◌, Bool, true, false, not, ◌&&◌, Option, none, some, List, [],
  ◌∷◌, ltb, ◌==◌, if◌then◌else◌, replicate, drop, get_elem?, set_elem,
}

abbrev pub portmap_size : ℕ
portmap_size = 4096

-- `PortMapEntry` and `PortMap`. A `port_in` of 0 is an entry that is not in use.
pub record Entry : Type 0 where
  pub port_in : ℕ
  pub port_out : ℕ

pub record PortMap : Type 0 where
  pub map : List Entry
  pub table_mask : ℕ

abbrev pub empty_entry : Entry
empty_entry = record { port_in = 0; port_out = 0 }

-- `initialize_portmap`
unfoldable pub initialize_portmap : PortMap
initialize_portmap = record {
  map = replicate portmap_size empty_entry;
  table_mask = portmap_size - 1;
}

-- `a & b` on `bits` bits.
unfoldable pub bit_and : ℕ → ℕ → ℕ → ℕ
bit_and zero a b = 0
bit_and (suc bits) a b =
    (if (a % 2 == 1) && (b % 2 == 1) then 1 else 0) + 2 * bit_and bits (a / 2) (b / 2)

-- In use for another key.
abbrev pub is_taken : ℕ → Entry → Bool
is_taken key entry = not (entry.port_in == 0) && not (entry.port_in == key)

-- The first loop of `get_index`, over the entries from `index` on: where it stops, and `i`.
unfoldable pub scan_up : ℕ → List Entry → ℕ → ℕ → ℕ × ℕ
scan_up key [] index i = (index, i)
scan_up key (entry ∷ entries) index i =
    if is_taken key entry then scan_up key entries (suc index) (suc i) else (index, i)

-- The second loop, from the beginning of the table.
unfoldable pub scan_round : ℕ → List Entry → ℕ → ℕ → ℕ × ℕ
scan_round key [] index i = (index, i)
scan_round key (entry ∷ entries) index i =
    if ltb i portmap_size && is_taken key entry
    then scan_round key entries (suc index) (suc i)
    else (index, i)

unfoldable pub round_index : ℕ × ℕ → ℕ
round_index (index, i) = if ltb i portmap_size then index else portmap_size

unfoldable pub after_scan : ℕ → List Entry → ℕ × ℕ → ℕ
unfolding round_index
after_scan key entries (index, i) =
    if ltb index portmap_size then index else round_index (scan_round key entries 0 i)

-- `get_index`
unfoldable pub get_index : PortMap → ℕ → ℕ
get_index portmap key =
    let start = bit_and 16 key portmap.table_mask in
    after_scan key portmap.map (scan_up key (drop start portmap.map) start 0)

-- `add_entry`: whether it succeeds, and the table.
unfoldable pub add_entry : PortMap → ℕ → ℕ → Bool × PortMap
add_entry portmap port_in port_out =
    let index = get_index portmap port_in in
    if index == portmap_size then (false, portmap) else (
      true,
      record portmap {
        map = set_elem portmap.map index (record { port_in = port_in; port_out = port_out });
      },
    )

unfoldable pub port_of : ℕ → Option Entry → ℕ
port_of port_in none = 0
port_of port_in (some entry) = if entry.port_in == port_in then entry.port_out else 0

-- `get_port`
unfoldable pub get_port : PortMap → ℕ → ℕ
unfolding port_of
get_port portmap port_in =
    let index = get_index portmap port_in in
    if index == portmap_size then 0 else port_of port_in (get_elem? portmap.map index)
