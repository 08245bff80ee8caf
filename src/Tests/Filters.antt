-- ===== src/Tests/Filters.antt =====
-- A filter at an input, run by a machine for its statements, and the theorems on it.
use improot.Base.{
  Bool, true, ℕ, zero, suc, ◌≡◌, refl, inl, inr, Option, none, some, List, [], ◌∷◌, arith, length,
  drop, if◌then◌else◌, ◌==◌, Bool-cases,
}
use improot.Sysnum.{
  Abi, abi_default, abi_2, abi_3, Sysnums, Arch, translate_sysnum, detranslate_sysnum, index_of,
}
use improot.Sysnum.Laws.{translate_sysnum-detranslate_sysnum}
use improot.Seccomp.{
  FilteredSysnum, SeccompArch, SockFilter, bpf_ld_abs, bpf_jeq, bpf_ja, bpf_ret, Program,
  seccomp_ret_allow, count_abi, count_abis, merge_one, merge_filtered_sysnums, merge_extensions,
  installed, enable_syscall_filtering,
}
use improot.Seccomp.Filter.{SeccompData, Bpf, after}
use improot.Seccomp.Own.{proot_sysnums}
use improot.Seccomp.Merge.{wanted, all_lists}
use improot.Seccomp.Sound.{enable_syscall_filtering-traces}

-- The machine: the statements that a jump passes over are counted.
abbrev loaded : ℕ → ℕ → SeccompData → ℕ
loaded zero a sd = sd.nr
loaded (suc k) a sd = sd.arch

unfoldable exec : List SockFilter → ℕ → ℕ → SeccompData → Option ℕ
exec [] skip a sd = none
exec (statement ∷ rest) (suc skip) a sd = exec rest skip a sd
exec (bpf_ld_abs k ∷ rest) zero a sd = exec rest 0 (loaded k a sd) sd
exec (bpf_jeq k jt jf ∷ rest) zero a sd = exec rest (if a == k then jt else jf) a sd
exec (bpf_ja k ∷ rest) zero a sd = exec rest k a sd
exec (bpf_ret k ∷ rest) zero a sd = some k

exec-drop :
    (rest : List SockFilter) (k a : ℕ) (sd : SeccompData)
    → exec rest k a sd ≡ exec (drop k rest) 0 a sd
unfolding exec
exec-drop [] zero a sd = refl
exec-drop [] (suc k) a sd = refl
exec-drop (statement ∷ rest) zero a sd = refl
exec-drop (statement ∷ rest) (suc k) a sd = exec-drop rest k a sd

exec_jeq :
    (k jt jf : ℕ) (rest : List SockFilter) (a : ℕ) (sd : SeccompData)
    → exec (bpf_jeq k jt jf ∷ rest) 0 a sd
      ≡ (if a == k then exec (drop jt rest) 0 a sd else exec (drop jf rest) 0 a sd)
unfolding exec
exec_jeq k jt jf rest a sd = elim (Bool-cases (a == k)) [
  | inl same ↦ rw same (exec-drop rest jt a sd)
  | inr other ↦ rw other (exec-drop rest jf a sd)
]

exec_nr :
    (rest : List SockFilter) (a : ℕ) (sd : SeccompData)
    → exec (bpf_ld_abs 0 ∷ rest) 0 a sd ≡ exec rest 0 sd.nr sd
unfolding exec
exec_nr rest a sd = refl

exec_arch :
    (rest : List SockFilter) (a : ℕ) (sd : SeccompData)
    → exec (bpf_ld_abs 4 ∷ rest) 0 a sd ≡ exec rest 0 sd.arch sd
unfolding exec
exec_arch rest a sd = refl

exec_ja :
    (k : ℕ) (rest : List SockFilter) (a : ℕ) (sd : SeccompData)
    → exec (bpf_ja k ∷ rest) 0 a sd ≡ exec (drop k rest) 0 a sd
unfolding exec
exec_ja k rest a sd = exec-drop rest k a sd

exec_ret :
    (k : ℕ) (rest : List SockFilter) (a : ℕ) (sd : SeccompData)
    → exec (bpf_ret k ∷ rest) 0 a sd ≡ some k
unfolding exec
exec_ret k rest a sd = refl

abbrev machine : Bpf
machine = record {
  run = λ program a sd. exec program 0 a sd;
  run_nr = exec_nr;
  run_arch = exec_arch;
  run_jeq = exec_jeq;
  run_ja = exec_ja;
  run_ret = exec_ret;
}

-- Two ABIs of one architecture, the second with an offset, and one of another.
abbrev tables : Abi → Sysnums
tables abi_default = record { table = 3 ∷ 5 ∷ 0 ∷ 7 ∷ []; behind = 0; offset = 0 }
tables abi_2 = record { table = 7 ∷ []; behind = 0; offset = 0 }
tables abi_3 = record { table = 3 ∷ 5 ∷ []; behind = 0; offset = 1073741824 }

abbrev machine_arch : Arch
machine_arch = record { get_sysnums = tables; syscall_avoider = 18446744073709551614 }

abbrev archs : List SeccompArch
archs =
    record { value = 62; abis = abi_default ∷ abi_3 ∷ [] }
    ∷ record { value = 3; abis = abi_2 ∷ [] }
    ∷ []

abbrev own_sysnums : List FilteredSysnum
own_sysnums = record { value = 5; flags = 0 } ∷ record { value = 7; flags = 0 } ∷ []

abbrev asked : List (Option (List FilteredSysnum))
asked = none ∷ some (record { value = 5; flags = 1 } ∷ []) ∷ []

-- The fourth entry of the first table is the system call 7, and the second the system call 5.
translate_sysnum-detranslate_sysnum_example :
    translate_sysnum machine_arch abi_3 (detranslate_sysnum machine_arch abi_3 5) ≡ 5
unfolding detranslate_sysnum index_of
translate_sysnum-detranslate_sysnum_example =
    translate_sysnum-detranslate_sysnum machine_arch abi_3 5 (omega arith) (omega arith)

-- The program's own list names each system call once.
own_once : merge_filtered_sysnums [] proot_sysnums ≡ proot_sysnums
unfolding merge_one merge_filtered_sysnums proot_sysnums
own_once = refl

abbrev answers : Program → Bool
answers program = true

enable_syscall_filtering-traces_example :
    (program : Program) × (enable_syscall_filtering machine_arch archs own_sysnums asked true
        answers
      ≡ installed true (answers program))
    × (program.len ≡ length program.filter)
    × (exec program.filter 0 0 (record { nr = 1; arch = 62 })
        ≡ after (wanted 5 (all_lists own_sysnums asked)) (some seccomp_ret_allow))
unfolding merge_one merge_filtered_sysnums merge_extensions detranslate_sysnum index_of
    translate_sysnum count_abi count_abis
enable_syscall_filtering-traces_example =
    enable_syscall_filtering-traces machine_arch machine archs own_sysnums asked true answers
      (record { nr = 1; arch = 62 }) 5 0
      (((λ e. e, (λ e. e, tt)), ((λ e. e, (λ e. e, tt)), tt)), (((λ e. e, (λ e. e, tt)), tt), tt))
      (omega arith) refl refl refl (omega arith)
      ((inl refl, omega arith), ((inr refl, omega arith), tt))
