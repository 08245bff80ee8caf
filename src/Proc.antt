-- ===== src/Proc.antt =====
-- src/path/proc.c: the links in /proc that the program answers itself. A process id is an `int`,
-- kept as its pattern of 32 bits.
pub mod Numbers
pub mod Pids
pub mod Links
pub mod Shown
use improot.Base.{
  ℕ, zero, suc, ◌+◌, Bool, true, false, not, ◌&&◌, ◌||◌, Option, none, some, List, [], ◌∷◌, ◌++◌,
  leb, ◌==◌, if◌then◌else◌, Text, slash, char_at, strlen, codes, drop, take, text_eq, strncmp_eq,
}
use improot.Path.{
  Errno, enametoolong, eperm, path_max, Comparison, paths_are_equal, path1_is_prefix, compare_paths,
  is_equal,
}
use improot.Binding.{FileSystem, get_root, text_or_nil}
use improot.Proc.Numbers.{show_int, atoi, is_number}

-- What these functions read of a `Tracee`.
pub record Tracee : Type 0 where
  pub pid : ℕ
  pub exe : Text
  pub fs : FileSystem

-- `get_tracee` (src/tracee/tracee.c), with no creation; `tracees` is the global list.
unfoldable pub find_tracee : ℕ → List Tracee → Option Tracee
find_tracee pid [] = none
find_tracee pid (tracee ∷ tracees) =
    if tracee.pid == pid then some tracee else find_tracee pid tracees

unfoldable pub get_tracee : Tracee → List Tracee → ℕ → Option Tracee
unfolding find_tracee
get_tracee current tracees pid =
    if current.pid == pid then some current else find_tracee pid tracees

-- `Action`, with the text that goes with it, or an error.
pub data Action : Type 0 where
  default : Action
  canonicalize dont_canonicalize : Text → Action
  failed : Errno → Action

abbrev pub proc : Text
proc = codes "/proc"

abbrev pub proc_self : Text
proc_self = codes "/proc/self"

-- `/proc/%d`
unfoldable pub proc_pid : ℕ → Text
proc_pid pid = codes "/proc/" ++ show_int pid

-- `/proc/self` at the front of `base` gives way to `/proc/<pid>`.
unfoldable pub normalize_base : Tracee → Text → Text
normalize_base tracee base =
    if strncmp_eq 4 (drop 6 base) (codes "self")
      && ((char_at base 10 == slash) || (char_at base 10 == 0))
    then proc_pid tracee.pid ++ drop 10 base
    else base

-- `SUBSTITUTE`
unfoldable pub substitute_link : Text → Action
substitute_link string = if leb path_max (strlen string) then failed eperm else canonicalize string

-- The links in `/proc/<pid>` of a known tracee.
unfoldable pub tracee_link : Option Tracee → Text → Action
tracee_link none component = default
tracee_link (some known) component =
    if text_eq component (codes "exe")
    then substitute_link known.exe
    else if text_eq component (codes "cwd")
    then substitute_link known.fs.cwd
    else if text_eq component (codes "root")
    then substitute_link (text_or_nil (get_root known.fs))
    else default

-- The links in `/proc/<pid>/fd`.
unfoldable pub fd_link : Text → Text → Action
fd_link base component =
    if not (is_number component)
    then failed eperm
    else if leb path_max (strlen base + 1 + strlen component)
    then failed eperm
    else dont_canonicalize (base ++ slash ∷ component)

-- `readlink_proc` for a base strictly inside /proc, once `/proc/self` is normalised.
unfoldable pub readlink_pid : Tracee → List Tracee → Text → Text → ℕ → Action
unfolding proc_pid
readlink_pid tracee tracees base component pid =
    if pid == 0 then default else (elim (compare_paths (proc_pid pid) base) [
      | paths_are_equal ↦ tracee_link (get_tracee tracee tracees pid) component
      | path1_is_prefix ↦
          if is_equal (compare_paths (proc_pid pid ++ codes "/fd") base)
          then fd_link base component
          else default
      | _ ↦ default
    ])

unfoldable pub readlink_inside : Tracee → List Tracee → Text → Text → Action
readlink_inside tracee tracees base component =
    if leb path_max (strlen (normalize_base tracee base))
    then failed eperm
    else readlink_pid tracee tracees (normalize_base tracee base) component
        (atoi (drop 6 (normalize_base tracee base)))

-- `readlink_proc`
unfoldable pub readlink_proc : Tracee → List Tracee → Text → Text → Comparison → Action
readlink_proc tracee tracees base component paths_are_equal =
    if text_eq component (codes "self") then canonicalize (proc_pid tracee.pid) else default
readlink_proc tracee tracees base component path1_is_prefix =
    readlink_inside tracee tracees base component
readlink_proc tracee tracees base component _ = default
