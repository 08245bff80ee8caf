-- ===== src/Translate.antt =====
-- `translate_path` of src/path/path.c, with the base that it starts from: from a path that a tracee
-- hands to a system call to the path on the host.
pub mod Total
pub mod Ends
pub mod Joins
pub mod Sound
use improot.Base.{
  ℕ, ◌+◌, ◌-◌, ◌^◌, Bool, true, false, not, Option, none, some, List, [], ◌∷◌, ◌++◌, leb, ◌==◌,
  if◌then◌else◌, Text, slash, char_at, strlen, codes,
}
use improot.Path.{
  Errno, enoent, enotdir, ebadf, enametoolong, path_max, Status, success, failure, join_paths,
}
use improot.Binding.{
  Side, FileSystem, Substituted, not_bound, symmetric, asymmetric, substitute_binding,
}
use improot.Proc.{Tracee}
use improot.Proc.Numbers.{show_int}
use improot.Detranslate.{Sized, sized, failed, detranslate_path}
use improot.Canon.{Surroundings, Answer, answer, error}
use improot.Canon.Walk.{Outcome, ok, err, out_of_fuel, canonicalize}

-- What the extensions make of the base and the user's path (GUEST_PATH): an error, a base to go on
-- with, or the result itself.
pub data Guest : Type 0 where
  refuses : Errno → Guest
  passes handles : Text → Guest

-- The two notifications.
pub record Extensions : Type 0 where
  pub guest_path : Text → Text → Guest
  pub translated_path : Text → Answer Text

-- `AT_FDCWD`, the pattern of -100.
abbrev pub at_fdcwd : ℕ
at_fdcwd = 2 ^ 32 - 100

-- `/proc/%d/fd/%d`
abbrev pub fd_path : ℕ → ℕ → Text
fd_path pid fd = codes "/proc/" ++ (show_int pid ++ (codes "/fd/" ++ show_int fd))

abbrev pub read_fd : Answer Text → Answer Text
read_fd (error e) = error ebadf
read_fd (answer target) = if leb path_max (strlen target) then error enametoolong else answer target

-- `readlink_proc_pid_fd`
unfoldable pub readlink_proc_pid_fd : Surroundings → ℕ → ℕ → Answer Text
readlink_proc_pid_fd sys pid fd =
    if leb 32 (strlen (fd_path pid fd))
    then error ebadf
    else read_fd (sys.readlink (fd_path pid fd))

-- `getcwd2`, of a tracee.
unfoldable pub getcwd2 : Tracee → Answer Text
getcwd2 tracee =
    let fs = tracee.fs in if leb path_max (strlen fs.cwd) then error enametoolong else answer fs.cwd

abbrev pub sized_answer : Sized → Answer Text
sized_answer (failed e) = error e
sized_answer (sized n path) = answer path

unfoldable pub directory_base : Tracee → List Tracee → Answer Text → Answer Text
directory_base tracee tracees (error e) = error e
directory_base tracee tracees (answer path) =
    if not (char_at path 0 == slash)
    then error enotdir
    else sized_answer (detranslate_path tracee tracees path none)

-- The base of the user's path.
unfoldable pub base_path : Surroundings → Tracee → List Tracee → ℕ → Text → Answer Text
unfolding directory_base
base_path sys tracee tracees dir_fd user_path =
    if char_at user_path 0 == slash
    then answer (slash ∷ [])
    else if not (dir_fd == at_fdcwd)
    then directory_base tracee tracees (readlink_proc_pid_fd sys tracee.pid dir_fd)
    else getcwd2 tracee

-- The final notification.
unfoldable pub notified : Answer Text → Outcome
notified (error e) = err e
notified (answer path) = ok path

unfoldable pub to_host : Extensions → Substituted × Text → Outcome
unfolding notified
to_host ext (not_bound, path) = err enoent
to_host ext (_, path) = notified (ext.translated_path path)

unfoldable pub after_canonicalize : Extensions → Tracee → Outcome → Outcome
after_canonicalize ext tracee (err e) = err e
after_canonicalize ext tracee out_of_fuel = out_of_fuel
after_canonicalize ext tracee (ok path) = to_host ext (substitute_binding tracee.fs Side.guest path)

module _ (sys : Surroundings) (ext : Extensions) (tracee : Tracee) (tracees : List Tracee)
    (fuel : ℕ) where
  unfoldable pub joined_base : Bool → Status × Text → Outcome
  joined_base deref_final (failure e, path) = err e
  joined_base deref_final (success, path) =
      after_canonicalize ext tracee
        (canonicalize sys tracee tracees fuel path deref_final (slash ∷ []) 0)

  unfoldable pub after_guest : Text → Bool → Guest → Outcome
  after_guest user_path deref_final (refuses e) = err e
  after_guest user_path deref_final (handles path) = notified (ext.translated_path path)
  after_guest user_path deref_final (passes base) =
      joined_base deref_final (join_paths (some base ∷ some user_path ∷ []))

  unfoldable pub from_base : Text → Bool → Answer Text → Outcome
  from_base user_path deref_final (error e) = err e
  from_base user_path deref_final (answer base) =
      after_guest user_path deref_final (ext.guest_path base user_path)

  -- `translate_path`, with fuel for `canonicalize`.
  unfoldable pub translate_path : ℕ → Text → Bool → Outcome
  unfolding from_base
  translate_path dir_fd user_path deref_final =
      from_base user_path deref_final (base_path sys tracee tracees dir_fd user_path)
