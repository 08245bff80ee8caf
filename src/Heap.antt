-- ===== src/Heap.antt =====
-- src/syscall/heap.c: the heap that brk(2) moves, emulated with a memory mapping of its own. A
-- word_t has 64 bits.
pub mod Break
pub mod Held
pub mod Reach
use improot.Base.{
  ℕ, ◌+◌, ◌-◌, ◌^◌, ◌%◌, Bool, true, false, not, ◌&&◌, ◌||◌, ltb, leb, ◌==◌, if◌then◌else◌,
}

-- `Heap` of src/tracee/tracee.h
pub record Heap : Type 0 where
  pub base : ℕ
  pub size : ℕ
  pub disabled : Bool

-- The system calls that a call of brk(2) may become.
pub data Sysnum : Type 0 where
  pr_brk pr_mmap pr_mmap2 pr_mremap pr_void : Sysnum

-- A system call in the registers of the tracee.
pub record Registers : Type 0 where
  pub sysnum : Sysnum
  pub sysarg_1 : ℕ
  pub sysarg_2 : ℕ
  pub sysarg_3 : ℕ
  pub sysarg_4 : ℕ
  pub sysarg_5 : ℕ
  pub sysarg_6 : ℕ

-- The last mapping of the program that is loaded.
pub record Mapping : Type 0 where
  pub addr : ℕ
  pub length : ℕ

abbrev pub prot_read_write : ℕ
prot_read_write = 3

abbrev pub map_private_anonymous : ℕ
map_private_anonymous = 34

-- The static `heap_offset`, once a call has set it; `page_size` is what sysconf(3) answers.
unfoldable pub settled_offset : ℕ → ℕ → ℕ
settled_offset page_size offset =
    if not (offset == 0)
    then offset
    else if (page_size % 2 ^ 32 == 0) || leb (2 ^ 31) (page_size % 2 ^ 32)
    then 4096
    else page_size

unfoldable pub allocate : Bool → Mapping → ℕ → Registers
allocate has_mmap2 bss offset = record {
  sysnum = if has_mmap2 then pr_mmap2 else pr_mmap;
  sysarg_1 = (bss.addr + bss.length) % 2 ^ 64;
  sysarg_2 = offset;
  sysarg_3 = prot_read_write;
  sysarg_4 = map_private_anonymous;
  sysarg_5 = 2 ^ 64 - 1;
  sysarg_6 = 0;
}

unfoldable pub resize : Heap → ℕ → Registers → Registers
resize heap offset registers =
    let new_heap_size = (registers.sysarg_1 + 2 ^ 64 - heap.base) % 2 ^ 64 in
    record registers {
      sysnum = pr_mremap;
      sysarg_1 = (heap.base + 2 ^ 64 - offset) % 2 ^ 64;
      sysarg_2 = (heap.size + offset) % 2 ^ 64;
      sysarg_3 = (new_heap_size + offset) % 2 ^ 64;
      sysarg_4 = 0;
      sysarg_5 = 0;
    }

module _ (page_size : ℕ) (has_mmap2 : Bool) (bss : Mapping) where
  -- The system call that takes the place of a brk(2), when the heap is enabled.
  unfoldable pub requested : Heap → ℕ → Registers → Registers
  unfolding allocate resize
  requested heap offset registers =
      if heap.base == 0
      then if not (registers.sysarg_1 == 0) then registers else allocate has_mmap2 bss offset
      else if ltb registers.sysarg_1 heap.base
      then record registers { sysnum = pr_void }
      else resize heap offset registers

  -- `translate_brk_enter`: the static `heap_offset` and the registers.
  unfoldable pub translate_brk_enter : Heap → ℕ → Registers → ℕ × Registers
  unfolding requested settled_offset
  translate_brk_enter heap offset registers = if heap.disabled then (offset, registers) else (
    settled_offset page_size offset,
    requested heap (settled_offset page_size offset) registers,
  )

-- `tracee_errno < 0 && tracee_errno > -4096`
abbrev pub is_errno : ℕ → Bool
is_errno result = ltb (2 ^ 32 - 4096) (result % 2 ^ 32)

-- The program break that is answered.
abbrev pub end_of : Heap → ℕ
end_of heap = (heap.base + heap.size) % 2 ^ 64

unfoldable pub mapped : Heap → ℕ → ℕ → Heap × ℕ
mapped heap offset result =
    if is_errno result
    then (heap, 0)
    else let heap = record heap { base = (result + offset) % 2 ^ 64; size = 0 } in
      (heap, end_of heap)

unfoldable pub remapped : Heap → ℕ → ℕ → ℕ → Heap × ℕ
remapped heap offset new_size result =
    if is_errno result || not (heap.base == (result + offset) % 2 ^ 64)
    then (heap, end_of heap)
    else let heap = record heap { size = (new_size + 2 ^ 64 - offset) % 2 ^ 64 } in
      (heap, end_of heap)

-- The cases of `translate_brk_exit`, by the system call that was made.
unfoldable pub concluded : Sysnum → Heap → ℕ → ℕ → ℕ → ℕ → Heap × ℕ
concluded pr_void heap offset original new_size result = (heap, end_of heap)
concluded pr_mmap heap offset original new_size result = mapped heap offset result
concluded pr_mmap2 heap offset original new_size result = mapped heap offset result
concluded pr_mremap heap offset original new_size result = remapped heap offset new_size result
concluded pr_brk heap offset original new_size result =
    (if result == original then record heap { disabled = true } else heap, result)

-- `translate_brk_exit`: the heap and the result, for the registers that the kernel was given and
-- the first argument of the tracee's own call.
unfoldable pub translate_brk_exit : Heap → ℕ → ℕ → Registers → ℕ → Heap × ℕ
translate_brk_exit heap offset original modified result =
    if heap.disabled
    then (heap, result)
    else concluded modified.sysnum heap offset original modified.sysarg_3 result
