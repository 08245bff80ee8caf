-- ===== src/Seccomp/Sound.antt =====
-- The filter that enable_syscall_filtering installs traces what is asked for.
use improot.Base.{
  Bool, true, ℕ, ◌^◌, ◌+◌, ◌≤◌, ◌<◌, ◌≡◌, ◌≢◌, ◌∙◌, ◌⊎◌, ap, sym, refl, inl, inr, true, false,
  Option, none, some, List, [], ◌∷◌, length, All, All-map, if◌then◌else◌, ◌==◌, Bool-cases,
  get_elem?,
}
use improot.Sysnum.{Sysnum, pr_void, Abi, Arch, translate_sysnum, detranslate_sysnum}
use improot.Sysnum.Laws.{translate_sysnum-detranslate_sysnum}
use improot.Seccomp.{
  FilteredSysnum, SeccompArch, Program, built, seccomp_ret_allow, seccomp_ret_kill, seccomp_program,
  merge_filtered_sysnums, merge_extensions, set_seccomp_filters, installed,
  enable_syscall_filtering,
}
use improot.Seccomp.Filter.{SeccompData, Bpf, after, flags_abis, verdict, run-code_sections}
use improot.Seccomp.Build.{FitsArch, code_program, seccomp_program-code}
use improot.Seccomp.Merge.{wanted, all_lists, merged-wanted}
use improot.Seccomp.Traces.{Means, flags_abis-own}

-- The list that enable_syscall_filtering makes the filter of.
abbrev pub merged : List FilteredSysnum → List (Option (List FilteredSysnum)) → List FilteredSysnum
merged proot_sysnums extensions =
    merge_extensions (merge_filtered_sysnums [] proot_sysnums) extensions

-- The section that decides is the first of the tracee's architecture.
abbrev pub first_of : ℕ → List SeccompArch → Option SeccompArch
first_of value [] = none
first_of value (seccomp_arch ∷ seccomp_archs) =
    if value == seccomp_arch.value then some seccomp_arch else first_of value seccomp_archs

verdict-first :
    (arch : Arch) (seccomp_archs : List SeccompArch) (sysnums : List FilteredSysnum)
    (sd : SeccompData) {seccomp_arch : SeccompArch}
    → first_of sd.arch seccomp_archs ≡ some seccomp_arch
    → verdict arch seccomp_archs sysnums sd sd.arch
      ≡ after (flags_abis arch seccomp_arch.abis sysnums sd.nr) (some seccomp_ret_allow)
unfolding verdict
verdict-first arch [] sysnums sd e = cc e
verdict-first arch (head ∷ seccomp_archs) sysnums sd {seccomp_arch} e =
    elim (Bool-cases (sd.arch == head.value)) [
      | inl same ↦
          let own : head ≡ seccomp_arch = cc (sym (if_same same) ∙ e) in
          rw same (
            ap
              (λ a.
                let a' : SeccompArch = a in
                after (flags_abis arch a'.abis sysnums sd.nr) (some seccomp_ret_allow))
              own)
      | inr other ↦
          rw other (verdict-first arch seccomp_archs sysnums sd (sym (if_other other) ∙ e))
    ]
  where
    if_same : (sd.arch == head.value) ≡ true → first_of sd.arch (head ∷ seccomp_archs) ≡ some head
    if_same same = rw same refl

    if_other :
        (sd.arch == head.value) ≡ false
        → first_of sd.arch (head ∷ seccomp_archs) ≡ first_of sd.arch seccomp_archs
    if_other other = rw other refl

verdict-kill :
    (arch : Arch) (seccomp_archs : List SeccompArch) (sysnums : List FilteredSysnum)
    (sd : SeccompData)
    → first_of sd.arch seccomp_archs ≡ none
    → verdict arch seccomp_archs sysnums sd sd.arch ≡ some seccomp_ret_kill
unfolding verdict
verdict-kill arch [] sysnums sd e = refl
verdict-kill arch (head ∷ seccomp_archs) sysnums sd e = elim (Bool-cases (sd.arch == head.value)) [
  | inl same ↦ cc (sym (if_same same) ∙ e)
  | inr other ↦ rw other (verdict-kill arch seccomp_archs sysnums sd (sym (if_other other) ∙ e))
]
  where
    if_same : (sd.arch == head.value) ≡ true → first_of sd.arch (head ∷ seccomp_archs) ≡ some head
    if_same same = rw same refl

    if_other :
        (sd.arch == head.value) ≡ false
        → first_of sd.arch (head ∷ seccomp_archs) ≡ first_of sd.arch seccomp_archs
    if_other other = rw other refl

-- An ABI knows a number as this system call, or as none; its table fits 64 bits.
abbrev pub Knows : Arch → ℕ → Sysnum → Abi → Type 0
Knows arch nr v abi =
    let sysnums = arch.get_sysnums abi in
    ((translate_sysnum arch abi nr ≡ v) ⊎ (translate_sysnum arch abi nr ≡ pr_void))
    × (length sysnums.table + sysnums.offset ≤ 2 ^ 64)

void_number : (arch : Arch) (abi : Abi) → detranslate_sysnum arch abi pr_void ≡ arch.syscall_avoider
unfolding detranslate_sysnum
void_number arch abi = refl

Knows-Means :
    (arch : Arch) (nr : ℕ) (v : Sysnum) (abi : Abi)
    → nr ≢ arch.syscall_avoider
    → Knows arch nr v abi
    → Means arch nr v abi
Knows-Means arch nr v abi there (meant, fits) w number =
    let back : translate_sysnum arch abi nr ≡ w =
      ap (λ n. translate_sysnum arch abi n) (sym number)
      ∙ translate_sysnum-detranslate_sysnum arch abi w fits (λ e. there (sym number ∙ e)) in
    elim meant [
      | inl own ↦ sym back ∙ own
      | inr void ↦ absurd (
          there (
            sym number
            ∙ ap (λ x. detranslate_sysnum arch abi x) (sym back ∙ void)
            ∙ void_number arch abi))
    ]

-- enable_syscall_filtering makes a program of one length, and hands it to the kernel; run on a
-- system call of an architecture that is handled, the program traces it with all the flags that the
-- lists of the program and of the extensions ask for, if one of them names it, and allows it
-- otherwise. The call has a number in one of the ABIs of this architecture, and each of these ABIs
-- translates this number to the same system call or to none; the numbers that are wanted fit 32
-- bits, the tables fit 64 bits, and the filter has fewer than 2^16 statements.
pub enable_syscall_filtering-traces :
    (arch : Arch) (bpf : Bpf) (seccomp_archs : List SeccompArch)
    (proot_sysnums : List FilteredSysnum) (extensions : List (Option (List FilteredSysnum)))
    (no_new_privs : Bool) (set_filter : Program → Bool) (sd : SeccompData) (v : Sysnum) (i : ℕ)
    {seccomp_arch : SeccompArch} {abi : Abi}
    → All (λ a. FitsArch arch (merged proot_sysnums extensions) a) seccomp_archs
    → length (code_program arch seccomp_archs (merged proot_sysnums extensions)) < 2 ^ 16
    → first_of sd.arch seccomp_archs ≡ some seccomp_arch
    → get_elem? seccomp_arch.abis i ≡ some abi
    → detranslate_sysnum arch abi v ≡ sd.nr
    → sd.nr ≢ arch.syscall_avoider
    → All (λ a. Knows arch sd.nr v a) seccomp_arch.abis
    → (program : Program) × (enable_syscall_filtering arch seccomp_archs proot_sysnums extensions
          no_new_privs set_filter
        ≡ installed no_new_privs (set_filter program))
      × (program.len ≡ length program.filter)
      × (bpf.run program.filter 0 sd
          ≡ after (wanted v (all_lists proot_sysnums extensions)) (some seccomp_ret_allow))
unfolding enable_syscall_filtering set_seccomp_filters
enable_syscall_filtering-traces arch bpf seccomp_archs proot_sysnums extensions no_new_privs
      set_filter sd v i {seccomp_arch} {abi} fits short first at number there known =
    let sysnums = merged proot_sysnums extensions in
    let code = code_program arch seccomp_archs sysnums in
    let means =
      All-map (Knows arch sd.nr v) (Means arch sd.nr v) seccomp_arch.abis
        (λ a k. Knows-Means arch sd.nr v a there k) known in
    (
      record { len = length code; filter = code },
      ap (λ b. set_seccomp_filters no_new_privs set_filter b)
          (seccomp_program-code arch seccomp_archs sysnums fits short),
      refl,
      run-code_sections arch bpf seccomp_archs sysnums 0 sd
          ∙ verdict-first arch seccomp_archs sysnums sd first
          ∙ ap (λ o. after o (some seccomp_ret_allow))
              (flags_abis-own arch sd.nr v sysnums there seccomp_arch.abis i means at number
                ∙ merged-wanted v proot_sysnums extensions),
    )

-- A system call of an architecture that is not handled kills the tracee.
pub seccomp_program-kills :
    (arch : Arch) (bpf : Bpf) (seccomp_archs : List SeccompArch) (sysnums : List FilteredSysnum)
    (sd : SeccompData)
    → All (λ a. FitsArch arch sysnums a) seccomp_archs
    → length (code_program arch seccomp_archs sysnums) < 2 ^ 16
    → first_of sd.arch seccomp_archs ≡ none
    → (program : Program) × (seccomp_program arch seccomp_archs sysnums ≡ built program)
      × (bpf.run program.filter 0 sd ≡ some seccomp_ret_kill)
seccomp_program-kills arch bpf seccomp_archs sysnums sd fits short foreign =
    let code = code_program arch seccomp_archs sysnums in
    (
      record { len = length code; filter = code },
      seccomp_program-code arch seccomp_archs sysnums fits short,
      run-code_sections arch bpf seccomp_archs sysnums 0 sd
          ∙ verdict-kill arch seccomp_archs sysnums sd foreign,
    )
