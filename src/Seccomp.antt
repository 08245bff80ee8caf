-- ===== src/Seccomp.antt =====
-- src/syscall/seccomp.c: the filter, a program for the kernel, that stops a tracee at the system
-- calls that this program or one of its extensions wants to see.
pub mod Build
pub mod Filter
pub mod Merge
pub mod Own
pub mod Sound
pub mod Traces
use improot.Base.{
  ℕ, zero, suc, ◌+◌, ◌-◌, ◌*◌, ◌%◌, ◌^◌, Bool, true, false, not, Option, none, some, List, [], ◌∷◌,
  ◌++◌, arith, length, if◌then◌else◌, ltb, ◌==◌,
}
use improot.Path.{Errno, erange, eperm, Status, success, failure}
use improot.Ipc.{bit_or}
use improot.Sysnum.{Sysnum, pr_void, Abi, Arch, detranslate_sysnum}

-- `FilteredSysnum`; an array of these is the list of those before its terminator.
pub record FilteredSysnum : Type 0 where
  pub value : Sysnum
  pub flags : ℕ

-- `SeccompArch`
pub record SeccompArch : Type 0 where
  pub value : ℕ
  pub abis : List Abi

-- The statements that are used: a load from the data, the jump if the accumulator is equal, the
-- jump, and the end. They stand for `struct sock_filter` with the codes of <linux/filter.h>.
pub data SockFilter : Type 0 where
  bpf_ld_abs : ℕ → SockFilter
  bpf_jeq : ℕ → ℕ → ℕ → SockFilter
  bpf_ja : ℕ → SockFilter
  bpf_ret : ℕ → SockFilter

-- `struct sock_fprog`, whose `len` is an `unsigned short`.
pub record Program : Type 0 where
  pub len : ℕ
  pub filter : List SockFilter

pub data Built : Type 0 where
  built : Program → Built
  refused : Errno → Built

-- What is behind a test of the status.
unfoldable pub and_then : Built → (Program → Built) → Built
and_then (built program) next = next program
and_then (refused e) next = refused e

-- The values of <linux/seccomp.h>, and the offsets in `struct seccomp_data`.
abbrev pub uint32_max : ℕ
uint32_max = 4294967295

abbrev pub seccomp_ret_kill : ℕ
seccomp_ret_kill = 0

abbrev pub seccomp_ret_allow : ℕ
seccomp_ret_allow = 2147418112

abbrev pub seccomp_ret_trace : ℕ
seccomp_ret_trace = 2146435072

abbrev pub syscall_offset : ℕ
syscall_offset = 0

abbrev pub arch_offset : ℕ
arch_offset = 4

-- The value that notifies the tracer with a flag, cut to 32 bits.
abbrev pub traced : ℕ → ℕ
traced flag = (seccomp_ret_trace + flag) % 2 ^ 32

-- `new_program_filter`
abbrev pub new_program_filter : Program
new_program_filter = record { len = 0; filter = [] }

-- `add_statements`
abbrev pub add_statements : Program → List SockFilter → Program
add_statements program statements = record program { filter = program.filter ++ statements }

-- `add_trace_syscall`
unfoldable pub add_trace_syscall : Program → ℕ → ℕ → Built
add_trace_syscall program syscall flag =
    if ltb uint32_max syscall
    then refused erange
    else built (add_statements program (bpf_jeq syscall 0 1 ∷ bpf_ret (traced flag) ∷ []))

-- `LENGTH_END_SECTION + nb_traced_syscalls * LENGTH_TRACE_SYSCALL`
abbrev pub section_length : ℕ → ℕ
section_length nb_traced_syscalls = 1 + nb_traced_syscalls * 2

-- `end_arch_section`
unfoldable pub end_arch_section : Program → ℕ → Built
end_arch_section program nb_traced_syscalls =
    let ended = add_statements program (bpf_ret seccomp_ret_allow ∷ []) in
    if not (length ended.filter - ended.len == section_length nb_traced_syscalls)
    then refused erange
    else built ended

-- `start_arch_section`
unfoldable pub start_arch_section : Program → ℕ → ℕ → Built
start_arch_section program arch nb_traced_syscalls =
    let started = add_statements program (
      bpf_ld_abs arch_offset
      ∷ bpf_jeq arch 1 0
      ∷ bpf_ja (section_length nb_traced_syscalls + 1)
      ∷ bpf_ld_abs syscall_offset
      ∷ []) in
    if ltb (uint32_max - 1) (section_length nb_traced_syscalls)
    then refused erange
    else built (record started { len = length started.filter % 2 ^ 16 })

-- `finalize_program_filter`
unfoldable pub finalize_program_filter : Program → Program
finalize_program_filter program =
    let ended = add_statements program (bpf_ret seccomp_ret_kill ∷ []) in
    record ended { len = length ended.filter % 2 ^ 16 }

module _ (arch : Arch) where
  abbrev pub is_avoided : Abi → FilteredSysnum → Bool
  is_avoided abi sysnum = detranslate_sysnum arch abi sysnum.value == arch.syscall_avoider

  -- The two loops that count.
  unfoldable pub count_abi : Abi → List FilteredSysnum → ℕ
  count_abi abi [] = 0
  count_abi abi (sysnum ∷ sysnums) =
      let rest = count_abi abi sysnums in if is_avoided abi sysnum then rest else suc rest

  unfoldable pub count_abis : List Abi → List FilteredSysnum → ℕ
  unfolding count_abi
  count_abis [] sysnums = 0
  count_abis (abi ∷ abis) sysnums = count_abi abi sysnums + count_abis abis sysnums

  -- The two loops that add the system calls of an architecture.
  unfoldable pub add_sysnum : Program → Abi → FilteredSysnum → Built
  unfolding add_trace_syscall
  add_sysnum program abi sysnum =
      if is_avoided abi sysnum
      then built program
      else add_trace_syscall program (detranslate_sysnum arch abi sysnum.value) sysnum.flags

  unfoldable pub add_abi : Program → Abi → List FilteredSysnum → Built
  unfolding add_sysnum and_then
  add_abi program abi [] = built program
  add_abi program abi (sysnum ∷ sysnums) =
      and_then (add_sysnum program abi sysnum) (λ next. add_abi next abi sysnums)

  unfoldable pub add_abis : Program → List Abi → List FilteredSysnum → Built
  unfolding add_abi and_then
  add_abis program [] sysnums = built program
  add_abis program (abi ∷ abis) sysnums =
      and_then (add_abi program abi sysnums) (λ next. add_abis next abis sysnums)

  -- One round of the loop over the architectures.
  unfoldable pub add_section : Program → SeccompArch → List FilteredSysnum → Built
  unfolding start_arch_section add_abis end_arch_section and_then count_abis
  add_section program seccomp_arch sysnums =
      let nb_traced_syscalls = count_abis seccomp_arch.abis sysnums in
      and_then (start_arch_section program seccomp_arch.value nb_traced_syscalls) (λ started.
        and_then (add_abis started seccomp_arch.abis sysnums)
          (λ added. end_arch_section added nb_traced_syscalls))

  unfoldable pub add_sections : Program → List SeccompArch → List FilteredSysnum → Built
  unfolding add_section and_then
  add_sections program [] sysnums = built program
  add_sections program (seccomp_arch ∷ seccomp_archs) sysnums =
      and_then (add_section program seccomp_arch sysnums)
        (λ next. add_sections next seccomp_archs sysnums)

  -- The program of `set_seccomp_filters`.
  unfoldable pub seccomp_program : List SeccompArch → List FilteredSysnum → Built
  unfolding add_sections finalize_program_filter and_then
  seccomp_program seccomp_archs sysnums =
      and_then (add_sections new_program_filter seccomp_archs sysnums)
        (λ program. built (finalize_program_filter program))

-- The two calls of prctl(2); the C library's -1 is the negative of EPERM. The second call is made
-- if the first one succeeds.
unfoldable pub installed : Bool → Bool → Status
installed true true = success
installed true false = failure eperm
installed false set_filter = failure eperm

-- `set_seccomp_filters`, by whether PR_SET_NO_NEW_PRIVS and PR_SET_SECCOMP succeed.
unfoldable pub set_seccomp_filters : Bool → (Program → Bool) → Built → Status
unfolding installed
set_seccomp_filters no_new_privs set_filter (built program) =
    installed no_new_privs (set_filter program)
set_seccomp_filters no_new_privs set_filter (refused e) = failure e

-- The search of `merge_filtered_sysnums` for one entry, and what it does with it.
unfoldable pub merge_one : List FilteredSysnum → FilteredSysnum → List FilteredSysnum
merge_one [] new = new ∷ []
merge_one (old ∷ olds) new =
    let rest = merge_one olds new in
    if old.value == new.value
    then record old { flags = bit_or 64 old.flags new.flags } ∷ olds
    else old ∷ rest

-- `merge_filtered_sysnums`
unfoldable pub merge_filtered_sysnums :
    List FilteredSysnum → List FilteredSysnum → List FilteredSysnum
unfolding merge_one
merge_filtered_sysnums sysnums [] = sysnums
merge_filtered_sysnums sysnums (new ∷ new_sysnums) =
    merge_filtered_sysnums (merge_one sysnums new) new_sysnums

-- The loop of `enable_syscall_filtering` over the extensions; `none` is one without a list.
unfoldable pub merge_extensions :
    List FilteredSysnum → List (Option (List FilteredSysnum)) → List FilteredSysnum
unfolding merge_filtered_sysnums
merge_extensions sysnums [] = sysnums
merge_extensions sysnums (none ∷ extensions) = merge_extensions sysnums extensions
merge_extensions sysnums (some filtered_sysnums ∷ extensions) =
    merge_extensions (merge_filtered_sysnums sysnums filtered_sysnums) extensions

-- `enable_syscall_filtering`; `proot_sysnums` are the program's own, and `extensions` the lists of
-- its extensions.
unfoldable pub enable_syscall_filtering :
    Arch
    → List SeccompArch
    → List FilteredSysnum
    → List (Option (List FilteredSysnum))
    → Bool
    → (Program → Bool)
    → Status
unfolding set_seccomp_filters seccomp_program merge_extensions merge_filtered_sysnums
enable_syscall_filtering arch seccomp_archs proot_sysnums extensions no_new_privs set_filter =
    let own = merge_filtered_sysnums [] proot_sysnums in
    set_seccomp_filters no_new_privs set_filter
      (seccomp_program arch seccomp_archs (merge_extensions own extensions))
