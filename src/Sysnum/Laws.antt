-- ===== src/Sysnum/Laws.antt =====
-- The number that detranslate_sysnum gives is translated back.
use improot.Base.{
  ℕ, suc, ◌+◌, ◌-◌, ◌%◌, ◌^◌, ◌≤◌, ◌<◌, ◌≡◌, ◌≢◌, ◌⊎◌, ◌∙◌, ap, refl, inl, inr, Bool, true, false,
  Option, none, some, List, [], ◌∷◌, arith, length, get_or, if◌then◌else◌, ltb, ◌==◌, ==_iff,
}
use improot.Sysnum.{
  Sysnum, pr_void, Abi, Arch, translate_sysnum, index_of, detranslate_sysnum, or_avoider,
}

found_or :
    (b : Bool) (i : ℕ) (rest : Option ℕ) {n : ℕ}
    → (if b then some i else rest) ≡ some n
    → ((b ≡ true) × (n ≡ i)) ⊎ (rest ≡ some n)
found_or true i rest e = inl (refl, cc e)
found_or false i rest e = inr e

-- An entry that is found stands at the index, from where the search began.
index_of-found :
    (sysnum : Sysnum) (i : ℕ) (table : List Sysnum) (behind : Sysnum) {n : ℕ}
    → index_of sysnum i table ≡ some n
    → (d : ℕ) × (n ≡ i + d) × (d < length table) × (get_or table d behind ≡ sysnum)
unfolding index_of
index_of-found sysnum i [] behind e = cc e
index_of-found sysnum i (entry ∷ table) behind {n} e =
    elim (found_or (entry == sysnum) i (index_of sysnum (suc i) table) e) [
      | inl (same, at) ↦ (0, omega (arith, at), omega arith, (==_iff entry sysnum).0 same)
      | inr rest ↦
          let (d, at, below, found) = index_of-found sysnum (suc i) table behind rest in
          (suc d, omega (arith, at), omega (arith, below), found)
    ]

or_avoider-found :
    (avoider offset : ℕ) (o : Option ℕ)
    → or_avoider avoider offset o ≢ avoider
    → (n : ℕ) × (o ≡ some n) × (or_avoider avoider offset o ≡ (n + offset) % 2 ^ 64)
or_avoider-found avoider offset none h = absurd (h refl)
or_avoider-found avoider offset (some n) h = (n, refl, refl)

if_not_first :
    (b : Bool) (x y : ℕ) → (if b then x else y) ≢ x → (b ≡ false) × ((if b then x else y) ≡ y)
if_not_first true x y h = absurd (h refl)
if_not_first false x y h = (refl, refl)

-- Both tests of translate_sysnum pass.
translated :
    (arch : Arch) (abi : Abi) (d : ℕ)
    → (let sysnums = arch.get_sysnums abi in
        d < length sysnums.table
        → translate_sysnum arch abi (d + sysnums.offset) ≡ get_or sysnums.table d sysnums.behind)
unfolding translate_sysnum
translated arch abi d below =
    let sysnums = arch.get_sysnums abi in
    let above : ltb (d + sysnums.offset) sysnums.offset ≡ false = ground arith in
    let index : d + sysnums.offset - sysnums.offset ≡ d = omega arith in
    let fits : ltb (length sysnums.table) d ≡ false = ground (arith, below) in
    rw (above, index, fits) refl

-- translate_sysnum gives a system call back from the number that detranslate_sysnum finds for it,
-- unless this is SYSCALL_AVOIDER; when the numbers of the table fit 64 bits.
pub translate_sysnum-detranslate_sysnum :
    (arch : Arch) (abi : Abi) (sysnum : Sysnum)
    → (let sysnums = arch.get_sysnums abi in length sysnums.table + sysnums.offset ≤ 2 ^ 64)
    → detranslate_sysnum arch abi sysnum ≢ arch.syscall_avoider
    → translate_sysnum arch abi (detranslate_sysnum arch abi sysnum) ≡ sysnum
unfolding detranslate_sysnum
translate_sysnum-detranslate_sysnum arch abi sysnum fits h =
    let sysnums = arch.get_sysnums abi in
    let number = or_avoider arch.syscall_avoider sysnums.offset (index_of sysnum 0 sysnums.table) in
    let (some_call, same) = if_not_first (sysnum == pr_void) arch.syscall_avoider number h in
    let (n, at, is) =
      or_avoider-found arch.syscall_avoider sysnums.offset (index_of sysnum 0 sysnums.table)
        (λ e. h (same ∙ e)) in
    let (d, own, below, found) = index_of-found sysnum 0 sysnums.table sysnums.behind at in
    let small : (n + sysnums.offset) % 2 ^ 64 ≡ d + sysnums.offset =
      omega (arith, own, below, fits) in
    ap (λ x. translate_sysnum arch abi x) (same ∙ is ∙ small) ∙ translated arch abi d below ∙ found
