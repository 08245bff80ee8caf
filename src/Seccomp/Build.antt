-- ===== src/Seccomp/Build.antt =====
-- The program that set_seccomp_filters builds, statement by statement.
use improot.Base.{
  ℕ, ◌+◌, ◌-◌, ◌*◌, ◌%◌, ◌^◌, ◌<◌, ◌≡◌, ◌∙◌, ap, sym, refl, inl, inr, true, false, List, [], ◌∷◌,
  ◌++◌, append_assoc, append-nil, arith, length, length-append, All, ltb, ◌==◌, ==_iff, Bool-cases,
}
use improot.Sysnum.{Abi, Arch, detranslate_sysnum}
use improot.Seccomp.{
  FilteredSysnum, SeccompArch, SockFilter, bpf_ld_abs, bpf_jeq, bpf_ja, bpf_ret, Program, built,
  and_then, uint32_max, seccomp_ret_kill, seccomp_ret_allow, syscall_offset, arch_offset,
  new_program_filter, add_trace_syscall, section_length, end_arch_section, start_arch_section,
  finalize_program_filter, is_avoided, count_abis, add_sysnum, add_abi, add_abis, add_section,
  add_sections, seccomp_program,
}
use improot.Seccomp.Filter.{
  code_sysnum, code_abi, code_abis, code_section, code_sections, length-code_abis,
}

abbrev pub appended : Program → List SockFilter → Program
appended program code = record program { filter = program.filter ++ code }

module _ (arch : Arch) where
  -- The number of a system call is one for the filter, if it has one.
  abbrev pub FitsNumber : Abi → FilteredSysnum → Type 0
  FitsNumber abi sysnum =
      is_avoided arch abi sysnum ≡ false
      → ltb uint32_max (detranslate_sysnum arch abi sysnum.value) ≡ false

  abbrev pub FitsArch : List FilteredSysnum → SeccompArch → Type 0
  FitsArch sysnums seccomp_arch =
      All (λ abi. All (λ sysnum. FitsNumber abi sysnum) sysnums) seccomp_arch.abis

  add_sysnum-code :
      (program : Program) (abi : Abi) (sysnum : FilteredSysnum)
      → FitsNumber abi sysnum
      → add_sysnum arch program abi sysnum ≡ built (appended program (code_sysnum arch abi sysnum))
  unfolding add_sysnum add_trace_syscall
  add_sysnum-code program abi sysnum fits = elim (Bool-cases (is_avoided arch abi sysnum)) [
    | inl avoided ↦
        rw avoided
          (ap (λ l. built (record program { filter = l })) (sym (append-nil program.filter)))
    | inr wanted ↦ rw wanted (rw (fits wanted) refl)
  ]

  add_abi-code :
      (program : Program) (abi : Abi) (sysnums : List FilteredSysnum)
      → All (λ sysnum. FitsNumber abi sysnum) sysnums
      → add_abi arch program abi sysnums ≡ built (appended program (code_abi arch abi sysnums))
  unfolding add_abi and_then
  add_abi-code program abi [] fits =
      ap (λ l. built (record program { filter = l })) (sym (append-nil program.filter))
  add_abi-code program abi (sysnum ∷ sysnums) fits =
      ap (λ b. and_then b (λ next. add_abi arch next abi sysnums))
        (add_sysnum-code program abi sysnum fits.0)
      ∙ add_abi-code (appended program (code_sysnum arch abi sysnum)) abi sysnums fits.1
      ∙ ap (λ l. built (record program { filter = l }))
          (append_assoc program.filter (code_sysnum arch abi sysnum) (code_abi arch abi sysnums))

  add_abis-code :
      (program : Program) (abis : List Abi) (sysnums : List FilteredSysnum)
      → All (λ abi. All (λ sysnum. FitsNumber abi sysnum) sysnums) abis
      → add_abis arch program abis sysnums ≡ built (appended program (code_abis arch abis sysnums))
  unfolding add_abis and_then
  add_abis-code program [] sysnums fits =
      ap (λ l. built (record program { filter = l })) (sym (append-nil program.filter))
  add_abis-code program (abi ∷ abis) sysnums fits =
      ap (λ b. and_then b (λ next. add_abis arch next abis sysnums))
        (add_abi-code program abi sysnums fits.0)
      ∙ add_abis-code (appended program (code_abi arch abi sysnums)) abis sysnums fits.1
      ∙ ap (λ l. built (record program { filter = l }))
          (append_assoc program.filter (code_abi arch abi sysnums) (code_abis arch abis sysnums))

  -- The statements in front of a section's body.
  abbrev front : SeccompArch → List FilteredSysnum → List SockFilter
  front seccomp_arch sysnums =
      bpf_ld_abs arch_offset
      ∷ bpf_jeq seccomp_arch.value 1 0
      ∷ bpf_ja (section_length (count_abis arch seccomp_arch.abis sysnums) + 1)
      ∷ bpf_ld_abs syscall_offset
      ∷ []

  started-code :
      (program : Program) (seccomp_arch : SeccompArch) (sysnums : List FilteredSysnum)
      → count_abis arch seccomp_arch.abis sysnums < 2 ^ 30
      → start_arch_section program seccomp_arch.value (count_abis arch seccomp_arch.abis sysnums)
        ≡ built record {
          len = (length program.filter + 4) % 2 ^ 16;
          filter = program.filter ++ front seccomp_arch sysnums;
        }
  unfolding start_arch_section
  started-code program seccomp_arch sysnums few =
      let short : ltb (uint32_max - 1) (section_length (count_abis arch seccomp_arch.abis sysnums))
          ≡ false =
        ground (arith, few) in
      rw short (
        ap
          (λ n.
            built
              record { len = n % 2 ^ 16; filter = program.filter ++ front seccomp_arch sysnums })
          (length-append program.filter (front seccomp_arch sysnums)))

  ended-code :
      (len : ℕ) (before front_code body : List SockFilter) (n : ℕ)
      → len ≡ length before + length front_code
      → length body ≡ n * 2
      → end_arch_section (record { len = len; filter = (before ++ front_code) ++ body }) n
        ≡ built record {
          len = len;
          filter = ((before ++ front_code) ++ body) ++ bpf_ret seccomp_ret_allow ∷ [];
        }
  unfolding end_arch_section
  ended-code len before front_code body n own size =
      let all : length (((before ++ front_code) ++ body) ++ bpf_ret seccomp_ret_allow ∷ []) - len
          ≡ section_length n =
        omega (
          arith,
          own,
          size,
          length-append ((before ++ front_code) ++ body) (bpf_ret seccomp_ret_allow ∷ []),
          length-append (before ++ front_code) body,
          length-append before front_code,
        ) in
      let right : (length (((before ++ front_code) ++ body) ++ bpf_ret seccomp_ret_allow ∷ []) - len
            == section_length n)
          ≡ true =
        (==_iff _ _).1 all in
      rw right refl

  add_section-code :
      (program : Program) (seccomp_arch : SeccompArch) (sysnums : List FilteredSysnum)
      → FitsArch sysnums seccomp_arch
      → count_abis arch seccomp_arch.abis sysnums < 2 ^ 30
      → length program.filter + 4 < 2 ^ 16
      → add_section arch program seccomp_arch sysnums
        ≡ built record {
          len = length program.filter + 4;
          filter = program.filter ++ code_section arch seccomp_arch sysnums;
        }
  unfolding add_section and_then
  add_section-code program seccomp_arch sysnums fits few short =
      let n = count_abis arch seccomp_arch.abis sysnums in
      let f = front seccomp_arch sysnums in
      let body = code_abis arch seccomp_arch.abis sysnums in
      let l : (length program.filter + 4) % 2 ^ 16 ≡ length program.filter + 4 =
        omega (arith, short) in
      let started : Program = record {
        len = length program.filter + 4;
        filter = program.filter ++ f;
      } in
      ap
        (λ b.
          and_then b
            (λ s. and_then (add_abis arch s seccomp_arch.abis sysnums) (λ a. end_arch_section a n)))
        (started-code program seccomp_arch sysnums few
          ∙ ap (λ x. built record { len = x; filter = program.filter ++ f }) l)
      ∙ ap (λ b. and_then b (λ a. end_arch_section a n))
          (add_abis-code started seccomp_arch.abis sysnums fits)
      ∙ ended-code (length program.filter + 4) program.filter f body n refl
          (length-code_abis arch seccomp_arch.abis sysnums)
      ∙ ap (λ c. built record { len = length program.filter + 4; filter = c })
          (append_assoc (program.filter ++ f) body (bpf_ret seccomp_ret_allow ∷ [])
            ∙ append_assoc program.filter f (body ++ bpf_ret seccomp_ret_allow ∷ []))

  length-code_section :
      (seccomp_arch : SeccompArch) (sysnums : List FilteredSysnum)
      → length (code_section arch seccomp_arch sysnums)
        ≡ count_abis arch seccomp_arch.abis sysnums * 2 + 5
  length-code_section seccomp_arch sysnums = omega (
    arith,
    length-append (code_abis arch seccomp_arch.abis sysnums) (bpf_ret seccomp_ret_allow ∷ []),
    length-code_abis arch seccomp_arch.abis sysnums,
  )

  -- The length of the filter after the section is what the next round starts from.
  add_sections-code :
      (program : Program) (seccomp_archs : List SeccompArch) (sysnums : List FilteredSysnum)
      → All (λ seccomp_arch. FitsArch sysnums seccomp_arch) seccomp_archs
      → length program.filter + length (code_sections arch seccomp_archs sysnums) < 2 ^ 16
      → (len : ℕ) × (add_sections arch program seccomp_archs sysnums
          ≡ built record {
            len = len;
            filter = program.filter ++ code_sections arch seccomp_archs sysnums;
          })
  unfolding add_sections and_then
  add_sections-code program [] sysnums fits short = (
    program.len,
    ap (λ l. built (record program { filter = l })) (sym (append-nil program.filter)),
  )
  add_sections-code program (seccomp_arch ∷ seccomp_archs) sysnums fits short =
      let code = code_section arch seccomp_arch sysnums in
      let others = code_sections arch seccomp_archs sysnums in
      let next : Program = record {
        len = length program.filter + 4;
        filter = program.filter ++ code;
      } in
      let size = length-code_section seccomp_arch sysnums in
      let whole = length-append code others in
      let (len, rest) =
        add_sections-code next seccomp_archs sysnums fits.1
          (omega (arith, short, whole, length-append program.filter code)) in
      (
        len,
        ap (λ b. and_then b (λ q. add_sections arch q seccomp_archs sysnums))
              (add_section-code program seccomp_arch sysnums fits.0
                (omega (arith, short, size, whole)) (omega (arith, short, size, whole)))
            ∙ rest
            ∙ ap (λ l. built record { len = len; filter = l })
                (append_assoc program.filter code others),
      )

  -- The whole program.
  abbrev pub code_program : List SeccompArch → List FilteredSysnum → List SockFilter
  code_program seccomp_archs sysnums =
      code_sections arch seccomp_archs sysnums ++ bpf_ret seccomp_ret_kill ∷ []

  pub seccomp_program-code :
      (seccomp_archs : List SeccompArch) (sysnums : List FilteredSysnum)
      → All (λ seccomp_arch. FitsArch sysnums seccomp_arch) seccomp_archs
      → length (code_program seccomp_archs sysnums) < 2 ^ 16
      → seccomp_program arch seccomp_archs sysnums
        ≡ built record {
          len = length (code_program seccomp_archs sysnums);
          filter = code_program seccomp_archs sysnums;
        }
  unfolding seccomp_program finalize_program_filter and_then
  seccomp_program-code seccomp_archs sysnums fits short =
      let size =
        length-append (code_sections arch seccomp_archs sysnums) (bpf_ret seccomp_ret_kill ∷ []) in
      let (len, is) =
        add_sections-code new_program_filter seccomp_archs sysnums fits
          (omega (arith, short, size)) in
      let fits16 : length (code_program seccomp_archs sysnums) % 2 ^ 16
          ≡ length (code_program seccomp_archs sysnums) =
        omega (arith, short) in
      ap (λ b. and_then b (λ program. built (finalize_program_filter program))) is
      ∙ ap (λ n. built record { len = n; filter = code_program seccomp_archs sysnums }) fits16
