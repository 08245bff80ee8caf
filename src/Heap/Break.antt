-- ===== src/Heap/Break.antt =====
-- Calls of brk(2) over the kernel's mmap(2) and mremap(2), and the mapping that holds the heap.
use improot.Base.{
  ℕ, ◌+◌, ◌-◌, ◌^◌, ◌%◌, ◌≤◌, ◌<◌, ◌≡◌, ◌≢◌, Bool, true, false, Option, none, some, arith,
}
use improot.Heap.{
  Heap, pr_brk, pr_mmap, pr_mmap2, pr_mremap, pr_void, Registers, Mapping, settled_offset, allocate,
  resize, requested, translate_brk_enter, is_errno, end_of, mapped, remapped, concluded,
  translate_brk_exit,
}

-- What the kernel answers: an error, the address of a mapping, or the result of another call.
pub data Reply : Type 0 where
  refuses : ℕ → Reply
  grants replies : ℕ → Reply

abbrev pub answered : Reply → ℕ
answered (refuses e) = 2 ^ 64 - e
answered (grants addr) = addr
answered (replies result) = result

-- Documented behaviour of the kernel. A mapping begins at a page and does not wrap; mremap(2)
-- without flags resizes a mapping in place.
abbrev pub Fits : Registers → Option Mapping → Reply → Type 0
Fits made mapping (refuses e) = (0 < e) × (e < 4096)
Fits made mapping (grants addr) =
    let mmapped = (addr % 4096 ≡ 0) × (addr + made.sysarg_2 < 2 ^ 64) in
    elim made.sysnum [
      | pr_mmap ↦ mmapped
      | pr_mmap2 ↦ mmapped
      | pr_mremap ↦
          (made.sysarg_1 ≡ addr) × (mapping ≡ some (record { addr = addr; length = made.sysarg_2 }))
      | pr_brk ↦ ⊥
      | pr_void ↦ ⊥
    ]
Fits made mapping (replies result) = elim made.sysnum [
  | pr_mmap ↦ ⊥
  | pr_mmap2 ↦ ⊥
  | pr_mremap ↦ ⊥
  | pr_brk ↦ Unit
  | pr_void ↦ Unit
]

-- The mapping of the heap after the call.
abbrev pub mapping_after : Registers → Option Mapping → Reply → Option Mapping
mapping_after made mapping (grants addr) = elim made.sysnum [
  | pr_mremap ↦ some (record { addr = addr; length = made.sysarg_3 })
  | pr_mmap ↦ some (record { addr = addr; length = made.sysarg_2 })
  | pr_mmap2 ↦ some (record { addr = addr; length = made.sysarg_2 })
  | pr_brk ↦ mapping
  | pr_void ↦ mapping
]
mapping_after made mapping (refuses e) = mapping
mapping_after made mapping (replies result) = mapping

-- The static `heap_offset`, the tracee's heap, and the mapping that the kernel holds for it.
pub record World : Type 0 where
  pub offset : ℕ
  pub heap : Heap
  pub mapping : Option Mapping

-- No mapping and no heap, or a mapping with the heap in it, behind a gap that is not empty.
abbrev pub HeldBy : ℕ → Heap → Option Mapping → Type 0
HeldBy offset heap none = (heap.base ≡ 0) × (heap.size ≡ 0)
HeldBy offset heap (some m) =
    (offset ≢ 0)
    × (heap.disabled ≡ false)
    × (m.addr % 4096 ≡ 0)
    × (m.addr + offset ≡ heap.base)
    × (m.length ≡ heap.size + offset)
    × (heap.base + heap.size < 2 ^ 64)

abbrev pub Held : World → Type 0
Held w = HeldBy w.offset w.heap w.mapping

unfoldable pub after_call : World → ℕ → Reply → ℕ × Registers → World × ℕ
after_call w addr reply p =
    let ended = translate_brk_exit w.heap p.0 addr p.1 (answered reply) in
    (record { offset = p.0; heap = ended.0; mapping = mapping_after p.1 w.mapping reply }, ended.1)

pub settled_offset-positive : (page_size offset : ℕ) → settled_offset page_size offset ≢ 0
unfolding settled_offset
settled_offset-positive page_size offset e = ground arith

pub settled_offset-kept :
    (page_size offset : ℕ) → offset ≢ 0 → settled_offset page_size offset ≡ offset
unfolding settled_offset
settled_offset-kept page_size offset h = ground arith

is_errno-refused : (e : ℕ) → 0 < e → e < 4096 → is_errno (2 ^ 64 - e) ≡ true
is_errno-refused e p q = ground arith

is_errno-page : (a : ℕ) → a % 4096 ≡ 0 → is_errno a ≡ false
is_errno-page a p = ground arith

-- How a call at an address moves the end of a heap that is mapped.
abbrev pub Moves : Heap → ℕ → Reply → World × ℕ → Type 0
Moves heap addr (grants _) (w, result) =
    (heap.base ≤ addr)
    × (w.heap.base ≡ heap.base)
    × (heap.base + w.heap.size ≡ addr)
    × (result ≡ addr)
Moves heap addr (refuses e) (w, result) = (w.heap ≡ heap) × (result ≡ heap.base + heap.size)
Moves heap addr (replies _) (w, result) =
    (addr < heap.base) × (w.heap ≡ heap) × (result ≡ heap.base + heap.size)

pub mapped-refused :
    (heap : Heap) (o e : ℕ) → 0 < e → e < 4096 → mapped heap o (2 ^ 64 - e) ≡ (heap, 0)
unfolding mapped
mapped-refused heap o e p q = ground (arith, is_errno-refused e p q)

pub mapped-granted :
    (heap : Heap) (o a : ℕ)
    → a % 4096 ≡ 0
    → a + o < 2 ^ 64
    → mapped heap o a ≡ (record heap { base = a + o; size = 0 }, a + o)
unfolding mapped
mapped-granted heap o a p q =
    let fits : (a + o) % 2 ^ 64 ≡ a + o = omega (arith, q) in
    let again : (a + o + 0) % 2 ^ 64 ≡ a + o = omega (arith, q) in
    ground (arith, is_errno-page a p, fits, again)

pub remapped-refused :
    (heap : Heap) (o n e : ℕ)
    → 0 < e
    → e < 4096
    → remapped heap o n (2 ^ 64 - e) ≡ (heap, end_of heap)
unfolding remapped
remapped-refused heap o n e p q = ground (arith, is_errno-refused e p q)

pub remapped-granted :
    (heap : Heap) (o n a : ℕ)
    → a % 4096 ≡ 0
    → a + o ≡ heap.base
    → heap.base + n < 2 ^ 64
    → remapped heap o (n + o) a ≡ (record heap { size = n }, heap.base + n)
unfolding remapped
remapped-granted heap o n a p own bound =
    let size : (n + o + 2 ^ 64 - o) % 2 ^ 64 ≡ n = omega (arith, own, bound) in
    let fits : (a + o) % 2 ^ 64 ≡ heap.base = omega (arith, own, bound) in
    let ends : (heap.base + n) % 2 ^ 64 ≡ heap.base + n = omega (arith, bound) in
    ground (arith, is_errno-page a p, size, fits, ends)

pub exit-on :
    (heap : Heap) (o addr : ℕ) (made : Registers) (result : ℕ)
    → heap.disabled ≡ false
    → translate_brk_exit heap o addr made result
      ≡ concluded made.sysnum heap o addr made.sysarg_3 result
unfolding translate_brk_exit
exit-on heap o addr made result on = ground arith

pub exit-off :
    (heap : Heap) (o addr : ℕ) (made : Registers) (result : ℕ)
    → heap.disabled ≡ true
    → translate_brk_exit heap o addr made result ≡ (heap, result)
unfolding translate_brk_exit
exit-off heap o addr made result off = ground arith

module _ (page_size : ℕ) (has_mmap2 : Bool) (bss : Mapping) (args : Registers) where
  -- The registers at a call of brk(2).
  abbrev pub registers : Registers
  registers = record args { sysnum = pr_brk }

  abbrev addr : ℕ
  addr = args.sysarg_1

  abbrev pub entered : World → ℕ × Registers
  entered w = translate_brk_enter page_size has_mmap2 bss w.heap w.offset registers

  pub enter-disabled : (w : World) → w.heap.disabled ≡ true → entered w ≡ (w.offset, registers)
  unfolding translate_brk_enter
  enter-disabled w off = ground arith

  pub enter-suspicious :
      (w : World)
      → w.heap.disabled ≡ false
      → w.heap.base ≡ 0
      → addr ≢ 0
      → entered w ≡ (settled_offset page_size w.offset, registers)
  unfolding translate_brk_enter requested
  enter-suspicious w on base given = ground arith

  pub enter-allocate :
      (w : World)
      → w.heap.disabled ≡ false
      → w.heap.base ≡ 0
      → addr ≡ 0
      → entered w ≡ (
        settled_offset page_size w.offset,
        allocate has_mmap2 bss (settled_offset page_size w.offset),
      )
  unfolding translate_brk_enter requested
  enter-allocate w on base given = ground arith

  pub enter-void :
      (w : World)
      → w.heap.disabled ≡ false
      → w.heap.base ≢ 0
      → addr < w.heap.base
      → entered w ≡ (settled_offset page_size w.offset, record registers { sysnum = pr_void })
  unfolding translate_brk_enter requested
  enter-void w on base below = ground arith

  pub enter-resize :
      (w : World)
      → w.heap.disabled ≡ false
      → w.heap.base ≢ 0
      → w.heap.base ≤ addr
      → entered w ≡ (
        settled_offset page_size w.offset,
        resize w.heap (settled_offset page_size w.offset) registers,
      )
  unfolding translate_brk_enter requested
  enter-resize w on base above = ground arith
