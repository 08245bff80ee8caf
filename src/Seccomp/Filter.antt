-- ===== src/Seccomp/Filter.antt =====
-- What the kernel does with the statements of the filter.
use improot.Base.{
  ℕ, ◌+◌, ◌*◌, ◌≡◌, ◌∙◌, ap, sym, refl, inl, inr, Option, none, some, List, [], ◌∷◌, ◌++◌,
  append_assoc, arith, length, length-append, drop, drop-append, if◌then◌else◌, ◌==◌, Bool-cases,
}
use improot.Sysnum.{Abi, Arch, detranslate_sysnum}
use improot.Seccomp.{
  FilteredSysnum, SeccompArch, SockFilter, bpf_ld_abs, bpf_jeq, bpf_ja, bpf_ret, seccomp_ret_kill,
  seccomp_ret_allow, syscall_offset, arch_offset, traced, section_length, is_avoided, count_abi,
  count_abis,
}

-- `struct seccomp_data`, as far as the filter reads it.
pub record SeccompData : Type 0 where
  pub nr : ℕ
  pub arch : ℕ

-- The kernel's machine for such programs, from a value of the accumulator on: what it does on each
-- of the statements that are used. `run` is `none` when the program has no end.
pub record Bpf : Type 0 where
  pub run : List SockFilter → ℕ → SeccompData → Option ℕ
  pub run_nr :
      (rest : List SockFilter) (a : ℕ) (sd : SeccompData)
      → run (bpf_ld_abs syscall_offset ∷ rest) a sd ≡ run rest sd.nr sd
  pub run_arch :
      (rest : List SockFilter) (a : ℕ) (sd : SeccompData)
      → run (bpf_ld_abs arch_offset ∷ rest) a sd ≡ run rest sd.arch sd
  pub run_jeq :
      (k jt jf : ℕ) (rest : List SockFilter) (a : ℕ) (sd : SeccompData)
      → run (bpf_jeq k jt jf ∷ rest) a sd
        ≡ (if a == k then run (drop jt rest) a sd else run (drop jf rest) a sd)
  pub run_ja :
      (k : ℕ) (rest : List SockFilter) (a : ℕ) (sd : SeccompData)
      → run (bpf_ja k ∷ rest) a sd ≡ run (drop k rest) a sd
  pub run_ret :
      (k : ℕ) (rest : List SockFilter) (a : ℕ) (sd : SeccompData)
      → run (bpf_ret k ∷ rest) a sd ≡ some k

-- The first that is there.
abbrev pub or_else : Option ℕ → Option ℕ → Option ℕ
or_else none y = y
or_else (some x) y = some x

-- A system call that is wanted is traced, and what follows decides on another.
abbrev pub after : Option ℕ → Option ℕ → Option ℕ
after none other = other
after (some flags) other = some (traced flags)

after-or_else : (x y z : Option ℕ) → after (or_else x y) z ≡ after x (after y z)
after-or_else none y z = refl
after-or_else (some f) y z = refl

module _ (arch : Arch) where
  -- The flags with which a system call of this number is wanted, if it is.
  abbrev pub flags_sysnum : Abi → FilteredSysnum → ℕ → Option ℕ
  flags_sysnum abi sysnum nr =
      if is_avoided arch abi sysnum
      then none
      else if nr == detranslate_sysnum arch abi sysnum.value
      then some sysnum.flags
      else none

  abbrev pub flags_abi : Abi → List FilteredSysnum → ℕ → Option ℕ
  flags_abi abi [] nr = none
  flags_abi abi (sysnum ∷ sysnums) nr =
      or_else (flags_sysnum abi sysnum nr) (flags_abi abi sysnums nr)

  abbrev pub flags_abis : List Abi → List FilteredSysnum → ℕ → Option ℕ
  flags_abis [] sysnums nr = none
  flags_abis (abi ∷ abis) sysnums nr =
      or_else (flags_abi abi sysnums nr) (flags_abis abis sysnums nr)

  -- What the kernel is to do on a system call: the section of its architecture decides.
  unfoldable pub verdict : List SeccompArch → List FilteredSysnum → SeccompData → ℕ → Option ℕ
  verdict [] sysnums sd arch_value = some seccomp_ret_kill
  verdict (seccomp_arch ∷ seccomp_archs) sysnums sd arch_value =
      let rest = verdict seccomp_archs sysnums sd arch_value in
      if arch_value == seccomp_arch.value
      then after (flags_abis seccomp_arch.abis sysnums sd.nr) (some seccomp_ret_allow)
      else rest

  -- The statements that the functions add.
  abbrev pub code_sysnum : Abi → FilteredSysnum → List SockFilter
  code_sysnum abi sysnum =
      if is_avoided arch abi sysnum
      then []
      else bpf_jeq (detranslate_sysnum arch abi sysnum.value) 0 1
        ∷ bpf_ret (traced sysnum.flags)
        ∷ []

  abbrev pub code_abi : Abi → List FilteredSysnum → List SockFilter
  code_abi abi [] = []
  code_abi abi (sysnum ∷ sysnums) = code_sysnum abi sysnum ++ code_abi abi sysnums

  abbrev pub code_abis : List Abi → List FilteredSysnum → List SockFilter
  code_abis [] sysnums = []
  code_abis (abi ∷ abis) sysnums = code_abi abi sysnums ++ code_abis abis sysnums

  -- The part of a section that is passed over when the architecture is another.
  abbrev pub code_body : SeccompArch → List FilteredSysnum → List SockFilter
  code_body seccomp_arch sysnums =
      bpf_ld_abs syscall_offset
      ∷ (code_abis seccomp_arch.abis sysnums ++ bpf_ret seccomp_ret_allow ∷ [])

  abbrev pub code_section : SeccompArch → List FilteredSysnum → List SockFilter
  code_section seccomp_arch sysnums =
      bpf_ld_abs arch_offset
      ∷ bpf_jeq seccomp_arch.value 1 0
      ∷ bpf_ja (section_length (count_abis arch seccomp_arch.abis sysnums) + 1)
      ∷ code_body seccomp_arch sysnums

  abbrev pub code_sections : List SeccompArch → List FilteredSysnum → List SockFilter
  code_sections [] sysnums = []
  code_sections (seccomp_arch ∷ seccomp_archs) sysnums =
      code_section seccomp_arch sysnums ++ code_sections seccomp_archs sysnums

  length-code_abi :
      (abi : Abi) (sysnums : List FilteredSysnum)
      → length (code_abi abi sysnums) ≡ count_abi arch abi sysnums * 2
  unfolding count_abi
  length-code_abi abi [] = refl
  length-code_abi abi (sysnum ∷ sysnums) = elim (Bool-cases (is_avoided arch abi sysnum)) [
    | inl avoided ↦ rw avoided (length-code_abi abi sysnums)
    | inr wanted ↦ rw wanted (omega (arith, length-code_abi abi sysnums))
  ]

  pub length-code_abis :
      (abis : List Abi) (sysnums : List FilteredSysnum)
      → length (code_abis abis sysnums) ≡ count_abis arch abis sysnums * 2
  unfolding count_abis
  length-code_abis [] sysnums = refl
  length-code_abis (abi ∷ abis) sysnums = omega (
    arith,
    length-append (code_abi abi sysnums) (code_abis abis sysnums),
    length-code_abi abi sysnums,
    length-code_abis abis sysnums,
  )

  length-code_body :
      (seccomp_arch : SeccompArch) (sysnums : List FilteredSysnum)
      → length (code_body seccomp_arch sysnums)
        ≡ section_length (count_abis arch seccomp_arch.abis sysnums) + 1
  length-code_body seccomp_arch sysnums = omega (
    arith,
    length-append (code_abis seccomp_arch.abis sysnums) (bpf_ret seccomp_ret_allow ∷ []),
    length-code_abis seccomp_arch.abis sysnums,
  )

  module _ (bpf : Bpf) where
    run-code_sysnum :
        (abi : Abi) (sysnum : FilteredSysnum) (rest : List SockFilter) (nr : ℕ) (sd : SeccompData)
        → bpf.run (code_sysnum abi sysnum ++ rest) nr sd
          ≡ after (flags_sysnum abi sysnum nr) (bpf.run rest nr sd)
    run-code_sysnum abi sysnum rest nr sd = elim (Bool-cases (is_avoided arch abi sysnum)) [
      | inl avoided ↦ rw avoided refl
      | inr wanted ↦ elim (Bool-cases (nr == detranslate_sysnum arch abi sysnum.value)) [
        | inl same ↦ rw wanted (bpf.run_jeq _ 0 1 _ nr sd ∙ rw same (bpf.run_ret _ rest nr sd))
        | inr other ↦ rw wanted (bpf.run_jeq _ 0 1 _ nr sd ∙ rw other refl)
      ]
    ]

    run-code_abi :
        (abi : Abi) (sysnums : List FilteredSysnum) (rest : List SockFilter) (nr : ℕ)
        (sd : SeccompData)
        → bpf.run (code_abi abi sysnums ++ rest) nr sd
          ≡ after (flags_abi abi sysnums nr) (bpf.run rest nr sd)
    run-code_abi abi [] rest nr sd = refl
    run-code_abi abi (sysnum ∷ sysnums) rest nr sd =
        ap (λ l. bpf.run l nr sd)
          (append_assoc (code_sysnum abi sysnum) (code_abi abi sysnums) rest)
        ∙ run-code_sysnum abi sysnum (code_abi abi sysnums ++ rest) nr sd
        ∙ ap (λ o. after (flags_sysnum abi sysnum nr) o) (run-code_abi abi sysnums rest nr sd)
        ∙ sym (after-or_else (flags_sysnum abi sysnum nr) (flags_abi abi sysnums nr) _)

    run-code_abis :
        (abis : List Abi) (sysnums : List FilteredSysnum) (rest : List SockFilter) (nr : ℕ)
        (sd : SeccompData)
        → bpf.run (code_abis abis sysnums ++ rest) nr sd
          ≡ after (flags_abis abis sysnums nr) (bpf.run rest nr sd)
    run-code_abis [] sysnums rest nr sd = refl
    run-code_abis (abi ∷ abis) sysnums rest nr sd =
        ap (λ l. bpf.run l nr sd)
          (append_assoc (code_abi abi sysnums) (code_abis abis sysnums) rest)
        ∙ run-code_abi abi sysnums (code_abis abis sysnums ++ rest) nr sd
        ∙ ap (λ o. after (flags_abi abi sysnums nr) o) (run-code_abis abis sysnums rest nr sd)
        ∙ sym (after-or_else (flags_abi abi sysnums nr) (flags_abis abis sysnums nr) _)

    -- The section of the tracee's architecture decides.
    run-code_body :
        (seccomp_arch : SeccompArch) (sysnums : List FilteredSysnum) (rest : List SockFilter)
        (a : ℕ) (sd : SeccompData)
        → bpf.run (code_body seccomp_arch sysnums ++ rest) a sd
          ≡ after (flags_abis seccomp_arch.abis sysnums sd.nr) (some seccomp_ret_allow)
    run-code_body seccomp_arch sysnums rest a sd =
        bpf.run_nr _ a sd
        ∙ ap (λ l. bpf.run l sd.nr sd)
            (append_assoc (code_abis seccomp_arch.abis sysnums) (bpf_ret seccomp_ret_allow ∷ [])
              rest)
        ∙ run-code_abis seccomp_arch.abis sysnums (bpf_ret seccomp_ret_allow ∷ rest) sd.nr sd
        ∙ ap (λ o. after (flags_abis seccomp_arch.abis sysnums sd.nr) o)
            (bpf.run_ret seccomp_ret_allow rest sd.nr sd)

    run-code_section :
        (seccomp_arch : SeccompArch) (sysnums : List FilteredSysnum) (rest : List SockFilter)
        (a : ℕ) (sd : SeccompData)
        → bpf.run (code_section seccomp_arch sysnums ++ rest) a sd ≡ (
            if sd.arch == seccomp_arch.value
            then after (flags_abis seccomp_arch.abis sysnums sd.nr) (some seccomp_ret_allow)
            else bpf.run rest sd.arch sd)
    run-code_section seccomp_arch sysnums rest a sd =
        elim (Bool-cases (sd.arch == seccomp_arch.value)) [
          | inl same ↦
              bpf.run_arch _ a sd
              ∙ bpf.run_jeq _ 1 0 _ sd.arch sd
              ∙ rw same (run-code_body seccomp_arch sysnums rest sd.arch sd)
          | inr other ↦
              bpf.run_arch _ a sd
              ∙ bpf.run_jeq _ 1 0 _ sd.arch sd
              ∙ rw other (
                  bpf.run_ja _ _ sd.arch sd
                  ∙ ap (λ n. bpf.run (drop n (code_body seccomp_arch sysnums ++ rest)) sd.arch sd)
                      (sym (length-code_body seccomp_arch sysnums))
                  ∙ ap (λ l. bpf.run l sd.arch sd)
                      (drop-append (code_body seccomp_arch sysnums) rest))
        ]

    pub run-code_sections :
        (seccomp_archs : List SeccompArch) (sysnums : List FilteredSysnum) (a : ℕ)
        (sd : SeccompData)
        → bpf.run (code_sections seccomp_archs sysnums ++ bpf_ret seccomp_ret_kill ∷ []) a sd
          ≡ verdict seccomp_archs sysnums sd sd.arch
    unfolding verdict
    run-code_sections [] sysnums a sd = bpf.run_ret seccomp_ret_kill [] a sd
    run-code_sections (seccomp_arch ∷ seccomp_archs) sysnums a sd =
        ap (λ l. bpf.run l a sd)
          (append_assoc (code_section seccomp_arch sysnums) (code_sections seccomp_archs sysnums)
            (bpf_ret seccomp_ret_kill ∷ []))
        ∙ run-code_section seccomp_arch sysnums
            (code_sections seccomp_archs sysnums ++ bpf_ret seccomp_ret_kill ∷ []) a sd
        ∙ ap
            (λ o.
              if sd.arch == seccomp_arch.value
              then after (flags_abis seccomp_arch.abis sysnums sd.nr) (some seccomp_ret_allow)
              else o)
            (run-code_sections seccomp_archs sysnums sd.arch sd)
