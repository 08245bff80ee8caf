-- ===== src/Sysnum.antt =====
-- src/syscall/sysnum.c: the neutral numbers of system calls, and those of an architecture.
pub mod Laws
use improot.Base.{
  ℕ, zero, suc, ◌+◌, ◌-◌, ◌%◌, ◌^◌, Bool, Option, none, some, List, [], ◌∷◌, arith, length, get_or,
  if◌then◌else◌, ltb, ◌==◌,
}

-- `Sysnum`, the neutral number, with `PR_void` for none.
abbrev pub Sysnum : Type 0
Sysnum = ℕ

abbrev pub pr_void : Sysnum
pr_void = 0

-- `Abi`
pub data Abi : Type 0 where
  abi_default abi_2 abi_3 : Abi

-- `Sysnums`: `table` is the table that a header holds, and `behind` the word that stands behind it.
pub record Sysnums : Type 0 where
  pub table : List Sysnum
  pub behind : Sysnum
  pub offset : ℕ

-- What an architecture's headers give: `get_sysnums`, and `SYSCALL_AVOIDER`.
pub record Arch : Type 0 where
  pub get_sysnums : Abi → Sysnums
  pub syscall_avoider : ℕ

-- The table at an index that is not above its length.
abbrev pub at_index : Sysnums → ℕ → Sysnum
at_index sysnums index =
    if ltb (length sysnums.table) index then pr_void else get_or sysnums.table index sysnums.behind

-- `translate_sysnum`
unfoldable pub translate_sysnum : Arch → Abi → ℕ → Sysnum
translate_sysnum arch abi sysnum =
    let sysnums = arch.get_sysnums abi in
    if ltb sysnum sysnums.offset then pr_void else at_index sysnums (sysnum - sysnums.offset)

-- The loop of `detranslate_sysnum`, from the index `i` on.
unfoldable pub index_of : Sysnum → ℕ → List Sysnum → Option ℕ
index_of sysnum i [] = none
index_of sysnum i (entry ∷ table) =
    let rest = index_of sysnum (suc i) table in if entry == sysnum then some i else rest

abbrev pub or_avoider : ℕ → ℕ → Option ℕ → ℕ
or_avoider avoider offset none = avoider
or_avoider avoider offset (some i) = (i + offset) % 2 ^ 64

-- `detranslate_sysnum`
unfoldable pub detranslate_sysnum : Arch → Abi → Sysnum → ℕ
unfolding index_of
detranslate_sysnum arch abi sysnum =
    let sysnums = arch.get_sysnums abi in
    if sysnum == pr_void
    then arch.syscall_avoider
    else or_avoider arch.syscall_avoider sysnums.offset (index_of sysnum 0 sysnums.table)
