-- ===== src/Heap/Reach.antt =====
-- Any sequence of calls of brk(2).
use mathlib.Core.Path.{subst}
use improot.Base.{
  ℕ, ◌^◌, ◌<◌, ◌≢◌, ◌∙◌, ap, sym, refl, inl, inr, Bool, false, Option, none, some, arith, ltb, ◌==◌,
  Bool-cases,
}
use improot.Heap.{Heap, Registers, pr_void, resize, Mapping}
use improot.Heap.Break.{
  Reply, Fits, World, HeldBy, Held, after_call, Moves, registers, entered, settled_offset-positive,
  settled_offset-kept, enter-disabled, enter-suspicious, enter-allocate, enter-void, enter-resize,
}
use improot.Heap.Held.{brk_left, allocated, Does, voided, resized}

module _ (page_size : ℕ) (has_mmap2 : Bool) (bss : Mapping) where
  -- A call: `translate_brk_enter`, the kernel's answer, `translate_brk_exit`.
  unfoldable pub brk : World → Registers → Reply → World × ℕ
  unfolding after_call
  brk w args reply = after_call w args.sysarg_1 reply (entered page_size has_mmap2 bss args w)

  abbrev pub Answers : World → Registers → Reply → Type 0
  Answers w args reply = Fits (entered page_size has_mmap2 bss args w).1 w.mapping reply

  module _ (args : Registers) (reply : Reply) where
    abbrev addr : ℕ
    addr = args.sysarg_1

    abbrev made : World → ℕ × Registers
    made w = entered page_size has_mmap2 bss args w

    mapped-Does :
        (offset : ℕ) (heap : Heap) (m : Mapping)
        → HeldBy offset heap (some m)
        → addr < 2 ^ 64
        → Answers (record { offset = offset; heap = heap; mapping = some m }) args reply
        → Does
            (record { offset = offset; heap = heap; mapping = some m })
            addr
            reply
            (brk (record { offset = offset; heap = heap; mapping = some m }) args reply)
    unfolding brk
    mapped-Does offset heap m held bound fits =
        let world : World = record { offset = offset; heap = heap; mapping = some m } in
        let used : heap.base ≢ 0 = λ e. held.0 (omega (arith, held.3, e)) in
        let kept = settled_offset-kept page_size offset held.0 in
        elim (Bool-cases (ltb addr heap.base)) [
          | inl below ↦
              let enter =
                enter-void page_size has_mmap2 bss args world held.1 used (ground arith)
                ∙ ap
                    (λ o. (o, record (registers page_size has_mmap2 bss args) { sysnum = pr_void }))
                    kept in
              subst
                (λ p.
                  Fits p.1 (some m) reply → Does world addr reply (after_call world addr reply p))
                (sym enter) (voided offset heap m held addr args reply (ground arith)) fits
          | inr above ↦
              let enter =
                enter-resize page_size has_mmap2 bss args world held.1 used (ground arith)
                ∙ ap (λ o. (o, resize heap o (registers page_size has_mmap2 bss args))) kept in
              subst
                (λ p.
                  Fits p.1 (some m) reply → Does world addr reply (after_call world addr reply p))
                (sym enter)
                (resized offset heap m held addr (registers page_size has_mmap2 bss args) reply refl
                  (ground arith) bound)
                fits
        ]

    unmapped-Held :
        (offset : ℕ) (heap : Heap)
        → HeldBy offset heap none
        → Answers (record { offset = offset; heap = heap; mapping = none }) args reply
        → Held (brk (record { offset = offset; heap = heap; mapping = none }) args reply).0
    unfolding brk
    unmapped-Held offset heap held fits =
        let w : World = record { offset = offset; heap = heap; mapping = none } in
        let Goal : ℕ × Registers → Type 0 =
          λ p. Fits p.1 none reply → Held (after_call w addr reply p).0 in
        elim (Bool-cases heap.disabled) [
          | inl off ↦
              subst Goal (sym (enter-disabled page_size has_mmap2 bss args w off))
                (brk_left offset w addr args reply refl held.0 held.1) fits
          | inr on ↦ elim (Bool-cases (addr == 0)) [
            | inl zero ↦
                subst Goal
                  (sym (enter-allocate page_size has_mmap2 bss args w on held.0 (ground arith)))
                  (allocated has_mmap2 bss _ w addr reply (settled_offset-positive page_size offset)
                    refl on held.0 held.1)
                  fits
            | inr other ↦
                subst Goal
                  (sym (enter-suspicious page_size has_mmap2 bss args w on held.0 (ground arith)))
                  (brk_left _ w addr args reply refl held.0 held.1) fits
          ]
        ]

    step-Held :
        (offset : ℕ) (heap : Heap) (mapping : Option Mapping)
        → HeldBy offset heap mapping
        → addr < 2 ^ 64
        → Answers (record { offset = offset; heap = heap; mapping = mapping }) args reply
        → Held (brk (record { offset = offset; heap = heap; mapping = mapping }) args reply).0
    step-Held offset heap none held bound fits = unmapped-Held offset heap held fits
    step-Held offset heap (some m) held bound fits = (mapped-Does offset heap m held bound fits).0

    step-Moves :
        (offset : ℕ) (heap : Heap) (mapping : Option Mapping)
        → HeldBy offset heap mapping
        → heap.base ≢ 0
        → addr < 2 ^ 64
        → Answers (record { offset = offset; heap = heap; mapping = mapping }) args reply
        → Moves heap addr reply
            (brk (record { offset = offset; heap = heap; mapping = mapping }) args reply)
    step-Moves offset heap none held used bound fits = absurd (used held.0)
    step-Moves offset heap (some m) held used bound fits =
        (mapped-Does offset heap m held bound fits).1

    -- A call on a heap that is mapped, at any address of 64 bits. When the kernel resizes the
    -- mapping, the address is not below the heap's base, and the end of the heap is this address,
    -- which is the result; when it refuses, the heap is as it was and the result is its end; when
    -- no mapping is asked for, the address is below the base, and it is the same.
    pub brk-Moves :
        (w : World)
        → Held w
        → w.heap.base ≢ 0
        → addr < 2 ^ 64
        → Answers w args reply
        → Moves w.heap addr reply (brk w args reply)
    brk-Moves w = step-Moves w.offset w.heap w.mapping

  -- The states that calls lead to, from a tracee without a heap.
  pub data Reachable : World → Type 0 where
    initially :
        (offset : ℕ)
        → Reachable (record {
          offset = offset;
          heap = record { base = 0; size = 0; disabled = false };
          mapping = none;
        })
    by_brk :
        (w : World) (args : Registers) (reply : Reply)
        → Reachable w
        → args.sysarg_1 < 2 ^ 64
        → Answers w args reply
        → Reachable (brk w args reply).0

  -- After any sequence of calls of brk(2) that the kernel answers as documented, either the tracee
  -- has no heap and no mapping for it, or the heap ends where the mapping ends and begins
  -- `heap_offset` bytes, which are not 0, behind the beginning of the mapping, at a page, and its
  -- end does not wrap; then its emulation is not disabled.
  pub Reachable-Held : (w : World) → Reachable w → Held w
  Reachable-Held _ (initially offset) = (refl, refl)
  Reachable-Held _ (by_brk w args reply before bound fits) =
      step-Held args reply w.offset w.heap w.mapping (Reachable-Held w before) bound fits
