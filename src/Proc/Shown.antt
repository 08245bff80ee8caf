-- ===== src/Proc/Shown.antt =====
-- The texts that `readlink_proc` shows below any base inside /proc.
use improot.Base.{
  ℕ, ◌+◌, Bool, true, false, not, List, ◌∷◌, ◌++◌, leb, ◌==◌, if◌then◌else◌, Text, slash, strlen,
  codes, drop, All,
}
use improot.Path.{
  Comparison, paths_are_equal, path1_is_prefix, path2_is_prefix, paths_are_not_comparable, path_max,
  is_equal, compare_paths, eperm,
}
use improot.Path.Names.{IsText}
use improot.Proc.{
  Tracee, get_tracee, Action, default, canonicalize, dont_canonicalize, failed, proc_pid,
  normalize_base, tracee_link, fd_link, readlink_pid, readlink_inside, readlink_proc,
}
use improot.Proc.Numbers.{is_number, atoi}
use improot.Proc.Links.{IsUsable, IsKnown, tracee_link-IsUsable, get_tracee-IsKnown}

abbrev pub Shows : Action → Type 0
Shows (canonicalize t) = IsText t
Shows _ = Unit

usable-Shows : (a : Action) → IsUsable a → Shows a
usable-Shows default h = tt
usable-Shows (canonicalize t) h = h
usable-Shows (dont_canonicalize t) h = tt
usable-Shows (failed e) h = tt

if-Shows : (b : Bool) (x y : Action) → Shows x → Shows y → Shows (if b then x else y)
if-Shows true x y hx hy = hx
if-Shows false x y hx hy = hy

fd_link-Shows : (base name : Text) → Shows (fd_link base name)
unfolding fd_link
fd_link-Shows base name = if-Shows (not (is_number name)) (failed eperm) _ tt (
    if-Shows (leb path_max (strlen base + 1 + strlen name)) (failed eperm)
      (dont_canonicalize (base ++ slash ∷ name)) tt tt)

module _ (tracee : Tracee) (tracees : List Tracee) (known : IsKnown tracee)
    (all : All IsKnown tracees) where
  readlink_pid-Shows :
      (base name : Text) (pid : ℕ) → Shows (readlink_pid tracee tracees base name pid)
  unfolding readlink_pid
  readlink_pid-Shows base name pid =
      if-Shows (pid == 0) default _ tt (links (compare_paths (proc_pid pid) base))
    where
      links :
          (o : Comparison)
          → Shows (elim o [
            | paths_are_equal ↦ tracee_link (get_tracee tracee tracees pid) name
            | path1_is_prefix ↦
                if is_equal (compare_paths (proc_pid pid ++ codes "/fd") base)
                then fd_link base name
                else default
            | _ ↦ default
          ])
      links paths_are_equal =
          usable-Shows _
            (tracee_link-IsUsable _ name (get_tracee-IsKnown tracee tracees known all pid))
      links path1_is_prefix =
          if-Shows (is_equal (compare_paths (proc_pid pid ++ codes "/fd") base)) (fd_link base name)
            default (fd_link-Shows base name) tt
      links path2_is_prefix = tt
      links paths_are_not_comparable = tt

  -- Inside /proc, a text to canonicalize is one of a tracee's own.
  pub readlink_proc-Shows :
      (base name : Text) → Shows (readlink_proc tracee tracees base name path1_is_prefix)
  unfolding readlink_proc readlink_inside
  readlink_proc-Shows base name =
      if-Shows (leb path_max (strlen (normalize_base tracee base))) (failed eperm) _ tt (
        readlink_pid-Shows (normalize_base tracee base) name
          (atoi (drop 6 (normalize_base tracee base))))
