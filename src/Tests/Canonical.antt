-- ===== src/Tests/Canonical.antt =====
-- Runs of `canonicalize` over a small file system, and the theorems on it at inputs.
use improot.Base.{
  ◌≡◌, ◌≢◌, inl, refl, Bool, true, false, none, some, [], ◌∷◌, arith, Text, codes, text_eq,
  if◌then◌else◌,
}
use improot.Path.{
  compare_paths, compare_paths2, substitute_path_prefix, join_paths, join_loop, join_one,
  final_slash, pop_component, skip_separators, previous_separator, next_component, skip_slashes,
  name_of, skip_name, chop_finality, enoent, eloop, enotdir,
}
use improot.Binding.{
  Binding, get_root, get_binding, find_binding, is_masked, belongs_to_guestfs, last,
  substitute_binding, substituted_with, substitute_with, get_path_binding,
}
use improot.Binding.Insort.{cached}
use improot.Proc.{Tracee, readlink_proc, proc}
use improot.Proc.Links.{IsKnown, IsUsable, readlink_proc-IsUsable}
use improot.Detranslate.{
  detranslate_path, detranslate_link, detranslate_with, strip_root, after_substitution,
  same_binding,
}
use improot.Canon.{
  Surroundings, FileType, directory, symlink, other_type, Answer, answer, error,
  substitute_binding_stat, file_type, should_skip_file_access,
}
use improot.Canon.Walk.{
  Outcome, ok, err, out_of_fuel, joined, sized_referee, proc_base, read_target, act, dereference,
  after_recursion, follow, after_stat, after_join, visit, closed, close, proceed, walk, start,
  canonicalize,
}
use improot.Canon.Ends.{canonicalize-ends}
use mathlib.Core.Path.{subst}
use improot.Base.{ℕ, inr, Bool-cases, slash, ap, List}
use improot.Path.{Finality}
use improot.Path.Names.{IsPath, IsText}
use improot.Path.Compare.{compare_components}
use improot.Binding.{Side}
use improot.Detranslate.Target.{HasRoot, detranslate_path-Gives}
use improot.Detranslate.Texts.{Gives}
use improot.Canon.Resolved.{Resolves}
use improot.Canon.Result.{canonicalize-result}
use improot.Canon.Chop.{chop_finality_dotted, chop_finality-close}
use improot.Translate.{
  Guest, refuses, passes, handles, Extensions, at_fdcwd, base_path, getcwd2, notified, to_host,
  after_canonicalize, joined_base, after_guest, from_base, translate_path,
}
use improot.Canon.Ending.{ending}
use improot.Translate.Sound.{Translates, translate_path-Translates}

-- `/r/lib` is a symlink to `/usr/lib`, `/r/loop` one to itself; `/r/f` is a file.
abbrev pub lstat_at : Text → Answer FileType
lstat_at p =
    if text_eq p (codes "/r/lib")
    then answer symlink
    else if text_eq p (codes "/r/loop")
    then answer symlink
    else if text_eq p (codes "/r/f")
    then answer other_type
    else answer directory

abbrev pub readlink_at : Text → Answer Text
readlink_at p =
    if text_eq p (codes "/r/lib")
    then answer (codes "/usr/lib")
    else if text_eq p (codes "/r/loop")
    then answer (codes "loop")
    else error enoent

abbrev pub sys : Surroundings
sys = record {
  lstat = lstat_at;
  readlink = readlink_at;
  dirname = λ p. p;
  basename = λ p. p;
  opendir = λ p. none;
  f2fs_bug_detected = false;
  notify_host_path = λ p final. answer p;
}

abbrev root_binding : Binding
root_binding = record {
  id = 1;
  host = cached (codes "/r");
  guest = cached (codes "/");
  need_substitution = true;
}

abbrev pub tracee : Tracee
tracee = record {
  pid = 7;
  exe = codes "/bin/sh";
  fs = record {
    pending = none;
    guest = some (root_binding ∷ []);
    host = some (root_binding ∷ []);
    cwd = codes "/";
  };
}

run : Text → Bool → Outcome
unfolding canonicalize start walk proceed close closed visit after_join after_stat follow
    after_recursion dereference act read_target proc_base sized_referee joined
    substitute_binding_stat file_type should_skip_file_access next_component skip_slashes name_of
    skip_name pop_component skip_separators previous_separator join_paths join_loop join_one
    substitute_binding substituted_with substitute_with get_binding find_binding is_masked
    belongs_to_guestfs get_root last compare_paths compare_paths2 substitute_path_prefix
    readlink_proc detranslate_path detranslate_link detranslate_with strip_root after_substitution
    same_binding get_path_binding
run user_path deref_final = canonicalize sys tracee [] 22 user_path deref_final (codes "/") 0

follows : run (codes "/lib/../lib/x/.") true ≡ ok (codes "/usr/lib/x/.")
unfolding run
follows = refl

loops : run (codes "/loop") true ≡ err eloop
unfolding run
loops = refl

keeps_final_link : run (codes "/usr/../lib") false ≡ ok (codes "/lib")
unfolding run
keeps_final_link = refl

refuses_file : run (codes "/f/x") true ≡ err enotdir
unfolding run
refuses_file = refl

canonicalize-ends_example :
    canonicalize sys tracee [] 22 (codes "/loop/x") true (codes "/") 0 ≢ out_of_fuel
canonicalize-ends_example =
    canonicalize-ends sys tracee [] 22 (codes "/loop/x") true (codes "/") 0 (omega arith)
      (omega arith)

chop_finality_dotted_example : chop_finality (codes "/foo.") ≡ codes "/fo"
chop_finality_dotted_example = chop_finality_dotted [] (codes "fo") b'o'

chop_finality-close_example : chop_finality (codes "/usr/") ≡ codes "/usr"
unfolding close closed join_paths join_loop join_one
chop_finality-close_example =
    chop_finality-close (codes "usr" ∷ []) final_slash (codes "/usr/") (ground arith) (inl refl)
      refl

tracee-IsKnown : IsKnown tracee
unfolding get_root last
tracee-IsKnown = record { exe = ground arith; cwd = ground arith; root = ground arith }

readlink_proc-IsUsable_example :
    IsUsable (
      readlink_proc tracee []
        (codes "/proc/7")
        (codes "exe")
        (compare_paths proc (codes "/proc/7")))
readlink_proc-IsUsable_example =
    readlink_proc-IsUsable tracee [] tracee-IsKnown tt (codes "/proc/7") (codes "exe")
      (codes "proc" ∷ codes "7" ∷ [], (ground arith, (ground arith, tt)), refl) (ground arith)

root_binding-guest : Resolves Side.guest root_binding
unfolding compare_components
root_binding-guest = record {
  own = [];
  other = codes "r" ∷ [];
  own_names = tt;
  other_names = (ground arith, tt);
  binds = record {
    own = record { names = tt; text = refl; measured = refl };
    other = record { names = (ground arith, tt); text = refl; measured = refl };
    flag = refl;
  };
}

root_binding-host : Resolves Side.host root_binding
unfolding compare_components
root_binding-host = record {
  own = codes "r" ∷ [];
  other = [];
  own_names = (ground arith, tt);
  other_names = tt;
  binds = record {
    own = record { names = (ground arith, tt); text = refl; measured = refl };
    other = record { names = tt; text = refl; measured = refl };
    flag = refl;
  };
}

tracee-HasRoot : HasRoot tracee.fs
unfolding get_root last
tracee-HasRoot = (codes "r" ∷ [], (ground arith, tt), refl)

targets : (p t : Text) → sys.readlink p ≡ answer t → IsText t
targets p t e = elim (Bool-cases (text_eq p (codes "/r/lib"))) [
  | inl lib ↦ let same : codes "/usr/lib" ≡ t = cc (rw lib at e) in subst IsText same (ground arith)
  | inr ne ↦ elim (Bool-cases (text_eq p (codes "/r/loop"))) [
    | inl loop ↦
        let same : codes "loop" ≡ t = cc (rw (ne, loop) at e) in subst IsText same (ground arith)
    | inr other ↦ absurd (cc (rw (ne, other) at e))
  ]
]

rooted :
    (f : Finality) (level : ℕ) (h : Text)
    → substitute_binding_stat sys tracee f level (slash ∷ []) ≢ answer (true, h)
unfolding substitute_binding_stat file_type should_skip_file_access substitute_binding
    substituted_with substitute_with get_binding find_binding is_masked compare_paths compare_paths2
    substitute_path_prefix
rooted f level h e = cc

canonicalize-result_example :
    (h : Text) × IsPath h
    × (close 0 (ending (codes "/lib/../lib/x/.")) h ≡ ok (codes "/usr/lib/x/."))
unfolding run
canonicalize-result_example =
    canonicalize-result sys tracee [] tracee-IsKnown tt tracee-HasRoot (root_binding-guest, tt)
      (root_binding-host, tt) targets rooted 22 (codes "/lib/../lib/x/.") true (codes "/") 0
      {t = codes "/usr/lib/x/."} (ground arith) (([], tt, refl), omega arith) refl

detranslate_path-Gives_example :
    Gives (detranslate_path tracee [] (codes "/r/usr") (some (codes "/r/lib")))
detranslate_path-Gives_example =
    detranslate_path-Gives tracee [] tracee-IsKnown tt tracee-HasRoot (root_binding-host, tt)
      (codes "/r/usr") (codes "/r/lib") (ground arith)

abbrev pub ext : Extensions
ext = record { guest_path = λ base user_path. passes base; translated_path = λ path. answer path }

base_of : Guest → List ℕ
base_of (passes b) = b
base_of (handles b) = b
base_of (refuses e) = []

bases : (b u c : List ℕ) → IsText b → ext.guest_path b u ≡ passes c → IsText c
unfolding base_of
bases b u c h e = subst IsText (ap base_of e) h

leaves : (b u c : List ℕ) → ext.guest_path b u ≢ handles c
leaves b u c e = cc

translate : List ℕ → Bool → Outcome
unfolding canonicalize start walk proceed close closed visit after_join after_stat follow
    after_recursion dereference act read_target proc_base sized_referee joined
    substitute_binding_stat file_type should_skip_file_access next_component skip_slashes name_of
    skip_name pop_component skip_separators previous_separator join_paths join_loop join_one
    substitute_binding substituted_with substitute_with get_binding find_binding is_masked
    belongs_to_guestfs get_root last compare_paths compare_paths2 substitute_path_prefix
    readlink_proc detranslate_path detranslate_link detranslate_with strip_root after_substitution
    same_binding get_path_binding translate_path from_base base_path getcwd2 after_guest joined_base
    after_canonicalize to_host notified
translate user_path deref_final = translate_path sys ext tracee [] 22 at_fdcwd user_path deref_final

translates : translate (codes "lib/x") true ≡ ok (codes "/r/usr/lib/x")
unfolding translate
translates = refl

translate_path-Translates_example :
    Translates sys ext tracee [] 22 at_fdcwd (codes "lib/x") true (codes "/r/usr/lib/x")
unfolding translate
translate_path-Translates_example =
    translate_path-Translates sys ext tracee [] tracee-IsKnown tt tracee-HasRoot
      (root_binding-guest, tt) (root_binding-host, tt) targets rooted bases leaves 22 at_fdcwd
      (codes "lib/x") true {r = codes "/r/usr/lib/x"} (ground arith) refl
