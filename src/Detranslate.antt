-- ===== src/Detranslate.antt =====
-- `readlink_proc2` (src/path/proc.c) and `detranslate_path` (src/path/path.c): from what the
-- kernel answers back to the guest's point of view.
pub mod Texts
pub mod Target
use improot.Base.{
  ℕ, suc, ◌+◌, ◌-◌, Bool, true, false, not, Option, none, some, List, [], ◌∷◌, leb, ◌==◌,
  if◌then◌else◌, Text, slash, char_at, strlen, drop, take,
}
use improot.Path.{
  Errno, enametoolong, eperm, path_max, Comparison, paths_are_equal, path1_is_prefix, compare_paths,
  is_equal,
}
use improot.Binding.{
  Side, FileSystem, get_root, text_or_nil, belongs_to_guestfs, get_path_binding, Substituted,
  not_bound, symmetric, asymmetric, substitute_binding,
}
use improot.Proc.{Tracee, Action, readlink_proc, proc}

-- `strrchr(path, '/')`: its offset.
unfoldable pub last_slash : Text → ℕ → Option ℕ → Option ℕ
last_slash [] i found = found
last_slash (c ∷ path) i found = last_slash path (suc i) (if c == slash then some i else found)

-- The result of a function that returns a size, or an error, and leaves a text.
pub data Sized : Type 0 where
  sized : ℕ → Text → Sized
  failed : Errno → Sized

unfoldable pub emulated : Action → Text → Sized
emulated (Action.canonicalize target) result = sized (strlen target) target
emulated _ result = sized 0 result

-- `readlink_proc2` on a referrer strictly inside /proc; `result` is what the buffer holds.
unfoldable pub readlink_proc2 : Tracee → List Tracee → Text → Text → Sized
unfolding emulated last_slash
readlink_proc2 tracee tracees result referrer =
    if leb path_max (strlen referrer)
    then failed enametoolong
    else (elim (last_slash referrer 0 none) [
      | none ↦ sized 0 result
      | some i ↦
          if strlen (drop (suc i) referrer) == 0
          then sized 0 result
          else emulated
              (readlink_proc tracee tracees (take i referrer) (drop (suc i) referrer)
                path1_is_prefix)
              result
    ])

-- The root is taken off the front of `path`.
unfoldable pub strip_root : Bool → Text → Text → Sized
strip_root sanity_check root path = elim (compare_paths root path) [
  | path1_is_prefix ↦
      let prefix_length = if strlen root == 1 then 0 else strlen root in
      sized (strlen path - prefix_length + 1) (drop prefix_length path)
  | paths_are_equal ↦ sized 2 (slash ∷ [])
  | _ ↦ if sanity_check then failed eperm else sized 0 path
]

unfoldable pub after_substitution : Bool → Text → Text → Substituted × Text → Sized
after_substitution sanity_check root path (symmetric, path') = sized 0 path'
after_substitution sanity_check root path (asymmetric, path') = sized (strlen path' + 1) path'
after_substitution sanity_check root path (not_bound, path') = strip_root sanity_check root path

-- The end of `detranslate_path`, once the two flags are known.
unfoldable pub detranslate_with : FileSystem → Bool → Bool → Text → Sized
detranslate_with fs sanity_check follow_binding path =
    let root = text_or_nil (get_root fs) in
    if follow_binding
    then after_substitution sanity_check root path (substitute_binding fs Side.host path)
    else strip_root sanity_check root path

-- Whether two bindings have the same path; that the referrer's exists is asserted.
unfoldable pub same_binding : Option Text → Option Text → Bool
same_binding none referrer = false
same_binding (some referree) none = false
same_binding (some referree) (some referrer) = is_equal (compare_paths referree referrer)

unfoldable pub after_emulation : FileSystem → Text → Sized → Sized
after_emulation fs path (failed e) = failed e
after_emulation fs path (sized n result) =
    if n == 0 then detranslate_with fs false true path else sized (n + 1) result

unfoldable pub is_prefix : Comparison → Bool
is_prefix path1_is_prefix = true
is_prefix _ = false

unfoldable pub detranslate_link : Tracee → List Tracee → Text → Text → Sized
unfolding is_prefix
detranslate_link tracee tracees path referrer =
    let fs = tracee.fs in
    if is_prefix (compare_paths proc referrer)
    then after_emulation fs path (readlink_proc2 tracee tracees path referrer)
    else if not (belongs_to_guestfs fs referrer)
    then detranslate_with fs false
        (same_binding (get_path_binding fs Side.host path) (get_path_binding fs Side.host referrer))
        path
    else detranslate_with fs false false path

-- `detranslate_path`; a referrer that is not NULL is the symlink that `path` was read from.
unfoldable pub detranslate_path : Tracee → List Tracee → Text → Option Text → Sized
detranslate_path tracee tracees path t_referrer =
    if leb path_max (strlen path)
    then failed enametoolong
    else if not (char_at path 0 == slash)
    then sized 0 path
    else (elim t_referrer [
      | none ↦ detranslate_with tracee.fs true true path
      | some referrer ↦ detranslate_link tracee tracees path referrer
    ])
