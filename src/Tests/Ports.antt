-- ===== src/Tests/Ports.antt =====
-- Runs of the port map, and the theorems on it at inputs.
use improot.Base.{Bool, ◌≡◌, refl, arith}
use improot.Portmap.{
  PortMap, initialize_portmap, bit_and, scan_up, get_index, after_scan, add_entry, get_port,
}
use improot.Portmap.Refines.{updated, initialize_portmap-Represents, add_entry-Represents}
use improot.Portmap.Found.{Represents}

abbrev one : Bool × PortMap
one = add_entry initialize_portmap 4099 80

abbrev two : Bool × PortMap
two = add_entry one.1 3 81

-- 3 and 4099 begin at the same position.
collides : get_port two.1 3 ≡ 81
unfolding get_port add_entry get_index after_scan scan_up bit_and initialize_portmap
collides = refl

keeps : get_port two.1 4099 ≡ 80
unfolding get_port add_entry get_index after_scan scan_up bit_and initialize_portmap
keeps = refl

add_entry-Represents_example :
    Represents (add_entry initialize_portmap 4099 80).1 (updated (λ k. 0) 4099 80)
unfolding add_entry get_index after_scan scan_up bit_and initialize_portmap
add_entry-Represents_example =
    add_entry-Represents initialize_portmap (λ k. 0) 4099 80 initialize_portmap-Represents
      (omega arith) refl
