-- ===== src/Heap/Held.antt =====
-- The mapping holds the heap at every call of brk(2), and how a call moves the end of the heap.
use mathlib.Core.Path.{subst}
use improot.Base.{
  ℕ, ◌+◌, ◌-◌, ◌^◌, ◌≤◌, ◌<◌, ◌≡◌, ◌≢◌, ◌∙◌, ap, sym, refl, Bool, true, false, Option, none, some,
  arith,
}
use improot.Heap.{
  Heap, pr_brk, pr_void, Registers, Mapping, allocate, resize, end_of, remapped, concluded,
  translate_brk_exit,
}
use improot.Heap.Break.{
  Reply, refuses, grants, replies, Fits, World, HeldBy, Held, after_call, Moves, mapped-refused,
  mapped-granted, remapped-refused, remapped-granted, exit-on,
}

-- A call that stays a brk(2).
exit-brk :
    (heap : Heap) (o addr new_size result : ℕ) (made : Registers)
    → heap.base ≡ 0
    → heap.size ≡ 0
    → HeldBy o (translate_brk_exit heap o addr (record made { sysnum = pr_brk }) result).0 none
unfolding translate_brk_exit concluded
exit-brk heap o addr new_size result made base size = ground arith

pub brk_left :
    (o : ℕ) (w : World) (addr : ℕ) (made : Registers) (reply : Reply)
    → w.mapping ≡ none
    → w.heap.base ≡ 0
    → w.heap.size ≡ 0
    → Fits (record made { sysnum = pr_brk }) w.mapping reply
    → Held (after_call w addr reply (o, record made { sysnum = pr_brk })).0
unfolding after_call
brk_left o w addr made (refuses e) nowhere base size fits =
    rw nowhere (exit-brk w.heap o addr 0 (2 ^ 64 - e) made base size)
brk_left o w addr made (grants a) nowhere base size fits = absurd fits
brk_left o w addr made (replies r) nowhere base size fits =
    rw nowhere (exit-brk w.heap o addr 0 r made base size)

-- The first call, which asks for a mapping.
pub allocated :
    (has_mmap2 : Bool) (bss : Mapping) (o : ℕ) (w : World) (addr : ℕ) (reply : Reply)
    → o ≢ 0
    → w.mapping ≡ none
    → w.heap.disabled ≡ false
    → w.heap.base ≡ 0
    → w.heap.size ≡ 0
    → Fits (allocate has_mmap2 bss o) w.mapping reply
    → Held (after_call w addr reply (o, allocate has_mmap2 bss o)).0
unfolding after_call allocate concluded
allocated false bss o w addr (replies r) used nowhere on base size fits = absurd fits
allocated true bss o w addr (replies r) used nowhere on base size fits = absurd fits
allocated false bss o w addr (refuses e) used nowhere on base size fits = rw nowhere (
    subst (λ q. HeldBy o q.0 none)
      (sym (
        exit-on w.heap o addr (allocate false bss o) _ on
        ∙ mapped-refused w.heap o e fits.0 fits.1))
      (base, size))
allocated true bss o w addr (refuses e) used nowhere on base size fits = rw nowhere (
    subst (λ q. HeldBy o q.0 none)
      (sym (
        exit-on w.heap o addr (allocate true bss o) _ on ∙ mapped-refused w.heap o e fits.0 fits.1))
      (base, size))
allocated false bss o w addr (grants a) used nowhere on base size fits =
    subst (λ q. HeldBy o q.0 (some (record { addr = a; length = o })))
      (sym (
        exit-on w.heap o addr (allocate false bss o) a on
        ∙ mapped-granted w.heap o a fits.0 fits.1))
      (used, on, fits.0, refl, omega arith, omega (arith, fits.1))
allocated true bss o w addr (grants a) used nowhere on base size fits =
    subst (λ q. HeldBy o q.0 (some (record { addr = a; length = o })))
      (sym (
        exit-on w.heap o addr (allocate true bss o) a on ∙ mapped-granted w.heap o a fits.0 fits.1))
      (used, on, fits.0, refl, omega arith, omega (arith, fits.1))

-- What a call does to a heap that is mapped.
abbrev pub Does : World → ℕ → Reply → World × ℕ → Type 0
Does w addr reply q = Held q.0 × Moves w.heap addr reply q

module _ (offset : ℕ) (heap : Heap) (m : Mapping) (held : HeldBy offset heap (some m))
    (addr : ℕ) where
  abbrev world : World
  world = record { offset = offset; heap = heap; mapping = some m }

  abbrev on : heap.disabled ≡ false
  on = held.1

  ends : end_of heap ≡ heap.base + heap.size
  ends = omega (arith, held.5)

  -- An address below the heap.
  pub voided :
      (made : Registers) (reply : Reply)
      → addr < heap.base
      → Fits (record made { sysnum = pr_void }) (some m) reply
      → Does world addr reply
          (after_call world addr reply (offset, record made { sysnum = pr_void }))
  unfolding after_call concluded
  voided made (grants a) below fits = absurd fits
  voided made (refuses e) below fits =
      rw (exit-on heap offset addr (record made { sysnum = pr_void }) (2 ^ 64 - e) on)
        (held, (refl, ends))
  voided made (replies r) below fits =
      rw (exit-on heap offset addr (record made { sysnum = pr_void }) r on)
        (held, (below, refl, ends))

  -- An address from the heap's base on.
  pub resized :
      (made : Registers) (reply : Reply)
      → made.sysarg_1 ≡ addr
      → heap.base ≤ addr
      → addr < 2 ^ 64
      → Fits (resize heap offset made) (some m) reply
      → Does world addr reply (after_call world addr reply (offset, resize heap offset made))
  unfolding after_call concluded resize
  resized made (replies r) given above bound fits = absurd fits
  resized made (refuses e) given above bound fits =
      let refused =
        exit-on heap offset addr (resize heap offset made) (2 ^ 64 - e) on
        ∙ remapped-refused heap offset (resize heap offset made).sysarg_3 e fits.0 fits.1 in
      subst (λ q. HeldBy offset q.0 (some m) × ((q.0 ≡ heap) × (q.1 ≡ heap.base + heap.size)))
        (sym refused) (held, (refl, ends))
  resized made (grants a) given above bound fits =
      let n = addr - heap.base in
      let start : m.addr ≡ a = ap addr_of fits.1 in
      let size : (resize heap offset made).sysarg_3 ≡ n + offset =
        omega (arith, given, above, bound, held.3) in
      let granted =
        exit-on heap offset addr (resize heap offset made) a on
        ∙ ap (λ s. remapped heap offset s a) size
        ∙ remapped-granted heap offset n a (omega (arith, held.2, start))
            (omega (arith, held.3, start)) (omega (arith, above, bound)) in
      subst
        (λ q.
          HeldBy offset q.0
            (some (record { addr = a; length = (resize heap offset made).sysarg_3 }))
          × ((heap.base ≤ addr)
              × (q.0.base ≡ heap.base)
              × (heap.base + q.0.size ≡ addr)
              × (q.1 ≡ addr)))
        (sym granted)
        (
          (
            held.0,
            on,
            omega (arith, held.2, start),
            omega (arith, held.3, start),
            size,
            omega (arith, above, bound),
          ),
          (above, refl, omega (arith, above), omega (arith, above)),
        )
    where
      addr_of : Option Mapping → ℕ
      addr_of none = 0
      addr_of (some x) = x.addr
