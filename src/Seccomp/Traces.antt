-- ===== src/Seccomp/Traces.antt =====
-- The filter stops a tracee at the system calls that are asked for, and at no other.
use improot.Base.{
  ℕ, ◌≡◌, ◌≢◌, ◌∙◌, ◌⊎◌, ap, sym, refl, inl, inr, true, false, Option, none, some, List, [], ◌∷◌,
  All, ◌==◌, ==_iff, Bool-cases, get_elem?, zero, suc,
}
use improot.Sysnum.{Sysnum, Abi, Arch, detranslate_sysnum}
use improot.Seccomp.{FilteredSysnum, is_avoided}
use improot.Seccomp.Filter.{or_else, flags_sysnum, flags_abi, flags_abis}
use improot.Seccomp.Merge.{flags_of}

none_or :
    (x y f : Option ℕ)
    → (x ≡ none) ⊎ (x ≡ f)
    → (y ≡ none) ⊎ (y ≡ f)
    → (or_else x y ≡ none) ⊎ (or_else x y ≡ f)
none_or none y f h k = k
none_or (some n) y f (inl e) k = inl e
none_or (some n) y f (inr e) k = inr e

first_or : (x y f : Option ℕ) → x ≡ f → (y ≡ none) ⊎ (y ≡ f) → or_else x y ≡ f
first_or none y f e (inl k) = k ∙ e
first_or none y f e (inr k) = k
first_or (some n) y f e k = e

second_or : (x y f : Option ℕ) → (x ≡ none) ⊎ (x ≡ f) → y ≡ f → or_else x y ≡ f
second_or none y f h e = e
second_or (some n) y f (inl k) e = cc k
second_or (some n) y f (inr k) e = k

module _ (arch : Arch) (nr : ℕ) (v : Sysnum) where
  -- No other system call has this number.
  abbrev pub Means : Abi → Type 0
  Means abi = (w : Sysnum) → detranslate_sysnum arch abi w ≡ nr → w ≡ v

  flags_sysnum-other :
      (abi : Abi) (sysnum : FilteredSysnum)
      → Means abi
      → (sysnum.value == v) ≡ false
      → flags_sysnum arch abi sysnum nr ≡ none
  flags_sysnum-other abi sysnum means other = elim (Bool-cases (is_avoided arch abi sysnum)) [
    | inl avoided ↦ rw avoided refl
    | inr numbered ↦ elim (Bool-cases (nr == detranslate_sysnum arch abi sysnum.value)) [
      | inl same ↦
          let e : sysnum.value ≡ v =
            means sysnum.value
              (sym ((==_iff nr (detranslate_sysnum arch abi sysnum.value)).0 same)) in
          absurd (cc ((==_iff sysnum.value v).1 e, other))
      | inr differ ↦ rw (numbered, differ) refl
    ]
  ]

  flags_sysnum-own :
      (abi : Abi) (sysnum : FilteredSysnum)
      → detranslate_sysnum arch abi v ≡ nr
      → nr ≢ arch.syscall_avoider
      → (sysnum.value == v) ≡ true
      → flags_sysnum arch abi sysnum nr ≡ some sysnum.flags
  flags_sysnum-own abi sysnum number there own =
      let e : sysnum.value ≡ v = (==_iff sysnum.value v).0 own in
      let n : detranslate_sysnum arch abi sysnum.value ≡ nr =
        ap (λ w. detranslate_sysnum arch abi w) e ∙ number in
      let same : (nr == detranslate_sysnum arch abi sysnum.value) ≡ true =
        (==_iff nr (detranslate_sysnum arch abi sysnum.value)).1 (sym n) in
      elim (Bool-cases (is_avoided arch abi sysnum)) [
        | inl avoided ↦ absurd (
            there (
              sym n
              ∙ (==_iff (detranslate_sysnum arch abi sysnum.value) arch.syscall_avoider).0 avoided))
        | inr numbered ↦ rw (numbered, same) refl
      ]

  -- An ABI knows the number as this system call, or does not know it.
  flags_abi-own :
      (abi : Abi) (sysnums : List FilteredSysnum)
      → Means abi
      → detranslate_sysnum arch abi v ≡ nr
      → nr ≢ arch.syscall_avoider
      → flags_abi arch abi sysnums nr ≡ flags_of v sysnums
  flags_abi-own abi [] means number there = refl
  flags_abi-own abi (sysnum ∷ sysnums) means number there = elim (Bool-cases (sysnum.value == v)) [
    | inl own ↦ rw own (
        ap (λ o. or_else o (flags_abi arch abi sysnums nr))
          (flags_sysnum-own abi sysnum number there own))
    | inr other ↦ rw other (
        ap (λ o. or_else o (flags_abi arch abi sysnums nr))
          (flags_sysnum-other abi sysnum means other)
        ∙ flags_abi-own abi sysnums means number there)
  ]

  flags_sysnum-foreign :
      (abi : Abi) (sysnum : FilteredSysnum)
      → Means abi
      → detranslate_sysnum arch abi v ≢ nr
      → flags_sysnum arch abi sysnum nr ≡ none
  flags_sysnum-foreign abi sysnum means foreign = elim (Bool-cases (sysnum.value == v)) [
    | inr other ↦ flags_sysnum-other abi sysnum means other
    | inl own ↦ elim (Bool-cases (is_avoided arch abi sysnum)) [
      | inl avoided ↦ rw avoided refl
      | inr numbered ↦ elim (Bool-cases (nr == detranslate_sysnum arch abi sysnum.value)) [
        | inl same ↦ absurd (
            foreign (
              ap (λ w. detranslate_sysnum arch abi w) (sym ((==_iff sysnum.value v).0 own))
              ∙ sym ((==_iff nr (detranslate_sysnum arch abi sysnum.value)).0 same)))
        | inr differ ↦ rw (numbered, differ) refl
      ]
    ]
  ]

  flags_abi-foreign :
      (abi : Abi) (sysnums : List FilteredSysnum)
      → Means abi
      → detranslate_sysnum arch abi v ≢ nr
      → flags_abi arch abi sysnums nr ≡ none
  flags_abi-foreign abi [] means foreign = refl
  flags_abi-foreign abi (sysnum ∷ sysnums) means foreign =
      ap (λ o. or_else o (flags_abi arch abi sysnums nr))
        (flags_sysnum-foreign abi sysnum means foreign)
      ∙ flags_abi-foreign abi sysnums means foreign

  module _ (sysnums : List FilteredSysnum) (there : nr ≢ arch.syscall_avoider) where
    flags_abi-some :
        (abi : Abi)
        → Means abi
        → (flags_abi arch abi sysnums nr ≡ none)
          ⊎ (flags_abi arch abi sysnums nr ≡ flags_of v sysnums)
    flags_abi-some abi means = elim (Bool-cases (detranslate_sysnum arch abi v == nr)) [
      | inl number ↦ inr (
          flags_abi-own abi sysnums means ((==_iff (detranslate_sysnum arch abi v) nr).0 number)
            there)
      | inr foreign ↦ inl (
          flags_abi-foreign abi sysnums means
            (λ e. cc ((==_iff (detranslate_sysnum arch abi v) nr).1 e, foreign)))
    ]

    flags_abis-some :
        (abis : List Abi)
        → All Means abis
        → (flags_abis arch abis sysnums nr ≡ none)
          ⊎ (flags_abis arch abis sysnums nr ≡ flags_of v sysnums)
    flags_abis-some [] means = inl refl
    flags_abis-some (abi ∷ abis) means =
        none_or _ _ _ (flags_abi-some abi means.0) (flags_abis-some abis means.1)

    pub flags_abis-own :
        (abis : List Abi) (i : ℕ) {abi : Abi}
        → All Means abis
        → get_elem? abis i ≡ some abi
        → detranslate_sysnum arch abi v ≡ nr
        → flags_abis arch abis sysnums nr ≡ flags_of v sysnums
    flags_abis-own [] i means at number = cc at
    flags_abis-own (first ∷ abis) zero means at number =
        let e : detranslate_sysnum arch first v ≡ nr = cc (at, number) in
        first_or _ _ _ (flags_abi-own first sysnums means.0 e there) (flags_abis-some abis means.1)
    flags_abis-own (first ∷ abis) (suc i) means at number =
        second_or _ _ _ (flags_abi-some first means.0) (flags_abis-own abis i means.1 at number)
