-- ===== src/Canon.antt =====
-- `canonicalize` of src/path/canon.c, outside the initialisation of a binding (the tracee's
-- `glue_type` is 0), with what it asks of the kernel and of the extensions as a parameter.
pub mod Walk
pub mod Rounds
pub mod Ends
pub mod Chop
pub mod Resolved
pub mod Ending
pub mod Follow
pub mod Result
use improot.Base.{
  ℕ, zero, suc, ◌+◌, Bool, true, false, not, ◌&&◌, ◌||◌, Option, none, some, List, [], ◌∷◌, ltb,
  leb, ◌==◌, if◌then◌else◌, Text, slash, char_at, strlen, codes, text_eq,
}
use improot.Path.{
  Errno, enoent, eacces, enotdir, einval, enametoolong, eloop, path_max, Status, success, failure,
  Finality, not_final, final_normal, final_slash, final_dot, is_final, Comparison, paths_are_equal,
  path1_is_prefix, compare_paths, is_within, join_paths, pop_component, Next, too_long, component,
  next_component,
}
use improot.Binding.{
  Side, FileSystem, Substituted, not_bound, symmetric, asymmetric, substitute_binding,
}
use improot.Proc.{Tracee, Action, readlink_proc, proc}
use improot.Detranslate.{Sized, sized, failed, detranslate_path}

-- `MAXSYMLINKS` of <sys/param.h>.
abbrev pub maxsymlinks : ℕ
maxsymlinks = 20

pub data FileType : Type 0 where
  directory symlink other_type : FileType

-- An answer, or an error.
pub data Answer (A : Type 0) : Type 0 where
  answer : A → Answer A
  error : Errno → Answer A

-- What lies outside: the system calls, the names that the C library makes of a path, the
-- directories that can be listed, whether the probe of the file system found its bug, and what
-- the extensions make of a host path.
pub record Surroundings : Type 0 where
  pub lstat : Text → Answer FileType
  pub readlink : Text → Answer Text
  pub dirname : Text → Text
  pub basename : Text → Text
  pub opendir : Text → Option (List Text)
  pub f2fs_bug_detected : Bool
  pub notify_host_path : Text → Bool → Answer Text

unfoldable pub lists : Text → List Text → Bool
lists name [] = false
lists name (entry ∷ names) = text_eq entry name || lists name names

-- `should_skip_file_access_due_to_f2fs_bug` (src/path/f2fs-bug.c), once the probe has been made.
unfoldable pub should_skip_file_access : Surroundings → Text → Bool
unfolding lists
should_skip_file_access sys path =
    if not sys.f2fs_bug_detected then false else (elim (sys.opendir (sys.dirname path)) [
      | none ↦ false
      | some names ↦ not (lists (sys.basename path) names)
    ])

-- The result of `lstat`, less its error: what counts as a directory when access is denied.
unfoldable pub type_of : Text → Answer FileType → Option FileType
type_of host_path (answer type) = some type
type_of host_path (error eacces) =
    if text_eq host_path (codes "/linkerconfig") then some directory else none
type_of host_path (error e) = none

unfoldable pub file_type : Surroundings → Text → Option FileType
unfolding type_of
file_type sys host_path =
    if should_skip_file_access sys host_path then none else type_of host_path (sys.lstat host_path)

-- The test on a component, and whether it is a symlink.
unfoldable pub check_type : Finality → Option FileType → Answer Bool
check_type finality none = if is_final finality then answer false else error enoent
check_type finality (some other_type) = if is_final finality then answer false else error enotdir
check_type finality (some directory) = answer false
check_type finality (some symlink) = answer true

unfoldable pub with_host_path : Answer Bool → Text → Answer (Bool × Text)
with_host_path (error e) host_path = error e
with_host_path (answer is_symlink) host_path = answer (is_symlink, host_path)

unfoldable pub after_notification : Surroundings → Finality → Answer Text → Answer (Bool × Text)
unfolding check_type with_host_path
after_notification sys finality (error e) = error e
after_notification sys finality (answer host_path) =
    with_host_path (check_type finality (file_type sys host_path)) host_path

unfoldable pub stat_substituted :
    Surroundings → Finality → ℕ → Substituted × Text → Answer (Bool × Text)
stat_substituted sys finality level (not_bound, host_path) = error enoent
stat_substituted sys finality level (_, host_path) =
    after_notification sys finality
      (sys.notify_host_path host_path (is_final finality && (level == 0)))

-- `substitute_binding_stat`: whether the component is a symlink, and its host path.
unfoldable pub substitute_binding_stat :
    Surroundings → Tracee → Finality → ℕ → Text → Answer (Bool × Text)
unfolding stat_substituted after_notification
substitute_binding_stat sys tracee finality level guest_path =
    stat_substituted sys finality level (substitute_binding tracee.fs Side.guest guest_path)
