-- ===== src/Tests/Execs.antt =====
-- Runs of `expand_shebang`, and the theorems on it at inputs.
use improot.Base.{
  ℕ, ◌≡◌, ◌≢◌, refl, inl, inr, true, false, Option, none, some, List, [], ◌∷◌, ◌++◌, arith, Text,
  codes, text_eq, if◌then◌else◌,
}
use improot.Path.{
  Errno, eloop, compare_paths, compare_paths2, substitute_path_prefix, join_paths, join_loop,
  join_one, pop_component, skip_separators, previous_separator, next_component, skip_slashes,
  name_of, skip_name,
}
use improot.Binding.{
  get_root, get_binding, find_binding, is_masked, belongs_to_guestfs, last, substitute_binding,
  substituted_with, substitute_with, get_path_binding,
}
use improot.Canon.{answer, substitute_binding_stat, file_type, should_skip_file_access}
use improot.Canon.Walk.{
  joined, act, dereference, after_recursion, follow, after_stat, after_join, visit, closed, close,
  proceed, walk, start, canonicalize,
}
use improot.Translate.{
  base_path, getcwd2, notified, to_host, after_canonicalize, joined_base, after_guest, from_base,
  translate_path,
}
use improot.Shebang.{
  text_in, trimmed_tail, trimmed, slurp_argument, slurp_path, skip_leading, magic_read,
  extract_shebang,
}
use improot.Exec.{
  Programs, XPointer, fetch_array_of_xpointers, expand_argv, Expansion, expanded, refused,
  never_ends, check_exec, translate_and_check_exec, pushed, with_argv, after_interpreter,
  after_shebang, after_translation, expand_rounds, expand_shebang,
}
use improot.Exec.Argv.{Word, words_of}
use improot.Exec.Scripts.{IsExpanded, expand_shebang-IsExpanded}
use improot.Tests.Canonical.{sys, tracee, ext}

-- `/x` is a script of `/bin/sh`, `/y` one of itself; all else is a program.
abbrev text_at : Text → Text
text_at p =
    if text_eq p (codes "/r/x")
    then codes "#!/bin/sh -e" ++ (10 ∷ [])
    else if text_eq p (codes "/r/y")
    then codes "#!/y" ++ (10 ∷ [])
    else codes "ELF"

abbrev programs : Programs
programs = record {
  exists = λ p. true;
  is_executable = λ p. true;
  has_status = λ p. true;
  open_file = λ p. answer (record { bytes = text_at p; read_error = none });
}

-- The tracee's `argv`: two pointers.
abbrev memory : List ℕ
memory = 4096 ∷ 8192 ∷ 0 ∷ []

abbrev push : List XPointer → Option Errno
push argv = none

expand : Text → Expansion
unfolding canonicalize start walk proceed close closed visit after_join after_stat follow
    after_recursion dereference act joined substitute_binding_stat file_type should_skip_file_access
    next_component skip_slashes name_of skip_name pop_component skip_separators previous_separator
    join_paths join_loop join_one substitute_binding substituted_with substitute_with get_binding
    find_binding is_masked belongs_to_guestfs get_root last compare_paths compare_paths2
    substitute_path_prefix get_path_binding translate_path from_base base_path getcwd2 after_guest
    joined_base after_canonicalize to_host notified extract_shebang magic_read skip_leading
    slurp_path slurp_argument text_in trimmed trimmed_tail expand_shebang expand_rounds
    after_translation after_shebang after_interpreter with_argv pushed translate_and_check_exec
    check_exec expand_argv fetch_array_of_xpointers
expand user_path = expand_shebang programs sys ext tracee [] 22 256 memory push user_path

words_left : Expansion → List Word
words_left (expanded has_shebang host_path user_path (some argv)) = words_of argv
words_left (expanded has_shebang host_path user_path none) = []
words_left (refused e) = []
words_left never_ends = []

runs_shell :
    words_left (expand (codes "/x"))
    ≡ inl (codes "/bin/sh") ∷ inl (codes "-e") ∷ inl (codes "/x") ∷ inr 8192 ∷ inr 0 ∷ []
unfolding words_left expand
runs_shell = refl

runs_itself : expand (codes "/y") ≡ refused eloop
unfolding expand
runs_itself = refl

program : expand (codes "/bin/sh") ≡ expanded false (codes "/r/bin/sh") (codes "/bin/sh") none
unfolding expand
program = refl

expand_shebang-IsExpanded_example :
    (expand (codes "/x") ≢ never_ends)
    × IsExpanded programs sys ext tracee [] 22 256 memory push (codes "/x") (expand (codes "/x"))
unfolding expand
expand_shebang-IsExpanded_example =
    expand_shebang-IsExpanded programs sys ext tracee [] 22 256 memory push (codes "/x")
      (omega arith)
