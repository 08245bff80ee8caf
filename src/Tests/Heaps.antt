-- ===== src/Tests/Heaps.antt =====
-- Runs of the emulated heap, and the theorems on it at inputs.
use improot.Base.{ℕ, ◌+◌, ◌≤◌, ◌≡◌, refl, true, false, none, some, arith}
use improot.Heap.{
  Registers, Mapping, pr_brk, settled_offset, allocate, resize, requested, translate_brk_enter,
  mapped, remapped, concluded, translate_brk_exit,
}
use improot.Heap.Break.{World, Held, Reply, grants, refuses, after_call}
use improot.Heap.Reach.{brk, initially, by_brk, brk-Moves, Reachable-Held}

abbrev bss : Mapping
bss = record { addr = 61440; length = 4096 }

abbrev brk_of : ℕ → Registers
brk_of addr = record {
  sysnum = pr_brk;
  sysarg_1 = addr;
  sysarg_2 = 0;
  sysarg_3 = 0;
  sysarg_4 = 0;
  sysarg_5 = 0;
  sysarg_6 = 0;
}

abbrev none_yet : World
none_yet = record {
  offset = 0;
  heap = record { base = 0; size = 0; disabled = false };
  mapping = none;
}

call : World → ℕ → Reply → World × ℕ
unfolding brk after_call translate_brk_enter requested allocate resize settled_offset
    translate_brk_exit concluded mapped remapped
call w addr reply = brk 4096 true bss w (brk_of addr) reply

abbrev empty_heap : World
empty_heap = record {
  offset = 4096;
  heap = record { base = 69632; size = 0; disabled = false };
  mapping = some (record { addr = 65536; length = 4096 });
}

begins : call none_yet 0 (grants 65536) ≡ (empty_heap, 69632)
unfolding call
begins = refl

grows : (call empty_heap 70000 (grants 65536)).1 ≡ 70000
unfolding call
grows = refl

refused : (call empty_heap 70000 (refuses 12)).1 ≡ 69632
unfolding call
refused = refl

Reachable-Held_example : Held (call none_yet 0 (grants 65536)).0
unfolding call
Reachable-Held_example =
    Reachable-Held 4096 true bss _
      (by_brk none_yet (brk_of 0) (grants 65536) (initially 0) (omega arith) (refl, omega arith))

brk-Moves_example :
    (69632 ≤ 70000)
    × ((call empty_heap 70000 (grants 65536)).0.heap.base ≡ 69632)
    × (69632 + (call empty_heap 70000 (grants 65536)).0.heap.size ≡ 70000)
    × ((call empty_heap 70000 (grants 65536)).1 ≡ 70000)
unfolding call
brk-Moves_example =
    brk-Moves 4096 true bss (brk_of 70000) (grants 65536) empty_heap
      (omega arith, refl, refl, refl, refl, omega arith) (omega arith) (omega arith) (refl, refl)
