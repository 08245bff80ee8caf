-- ===== src/Binding.antt =====
-- The bindings of a tracee: src/path/binding.h and src/path/binding.c. A binding is an object
-- that several of the three lists may hold; its identity is the field `id`. The lists hold its
-- value: the code writes its fields only before it enters the lists that the theorems speak of.
pub mod Insort
pub mod Canonical
pub mod Order
pub mod Place
pub mod Preserve
pub mod Lookup
pub mod Substitute
use improot.Base.{
  ℕ, zero, suc, ◌+◌, Bool, true, false, not, ◌&&◌, ◌||◌, Option, none, some, List, [], ◌∷◌, ◌++◌,
  ◌==◌, if◌then◌else◌, Text, slash, strlen,
}
use improot.Path.{
  Comparison, paths_are_equal, path1_is_prefix, path2_is_prefix, paths_are_not_comparable,
  compare_paths2, is_equal, is_within, compare_paths, substitute_path_prefix,
}

-- `Side`
pub data Side : Type 0 where
  guest host pending : Side

-- `Path`, less the field `side`, which nothing reads.
pub record CachedPath : Type 0 where
  pub path : Text
  pub length : ℕ

-- `Binding`, less the field `must_exist`, which nothing reads.
pub record Binding : Type 0 where
  pub id : ℕ
  pub host : CachedPath
  pub guest : CachedPath
  pub need_substitution : Bool

-- `tracee->fs`: the three lists, `none` for NULL, and the working directory.
pub record FileSystem : Type 0 where
  pub pending : Option (List Binding)
  pub guest : Option (List Binding)
  pub host : Option (List Binding)
  pub cwd : Text

abbrev pub entries : Option (List Binding) → List Binding
entries none = []
entries (some bindings) = bindings

-- `HEAD`
abbrev pub head : FileSystem → Side → List Binding
head fs Side.guest = entries fs.guest
head fs Side.host = entries fs.host
head fs Side.pending = entries fs.pending

-- The path of a binding that a list of the given side goes by.
abbrev pub path_at : Side → Binding → CachedPath
path_at Side.guest binding = binding.guest
path_at Side.host binding = binding.host
path_at Side.pending binding = binding.guest

-- `CIRCLEQ_LAST`
unfoldable pub last : List Binding → Option Binding
last [] = none
last (binding ∷ []) = some binding
last (binding ∷ b ∷ bindings) = last (b ∷ bindings)

unfoldable pub root_of_pending : Option Binding → Option Text
root_of_pending none = none
root_of_pending (some binding) =
    if is_equal (compare_paths binding.guest.path (slash ∷ []))
    then some binding.host.path
    else none

unfoldable pub root_of_guest : Option Binding → Option Text
root_of_guest none = none
root_of_guest (some binding) = some binding.host.path

-- `get_root`, of a tracee that has a file system; `none` for NULL. The assertions on the guest list are not part of
-- it: an empty one has no root.
unfoldable pub get_root : FileSystem → Option Text
unfolding last root_of_pending root_of_guest
get_root fs = elim fs.guest [
  | none ↦ root_of_pending (last (entries fs.pending))
  | some bindings ↦ root_of_guest (last bindings)
]

-- The root where the code reads it without a test for NULL.
abbrev pub text_or_nil : Option Text → Text
text_or_nil none = []
text_or_nil (some t) = t

-- `belongs_to_guestfs` (src/path/path.c)
unfoldable pub belongs_to_guestfs : FileSystem → Text → Bool
belongs_to_guestfs fs host_path = is_within (compare_paths (text_or_nil (get_root fs)) host_path)

-- The test that makes `get_binding` pass over a binding whose path fits.
unfoldable pub is_masked : FileSystem → Side → Text → Bool
is_masked fs Side.host path =
    not (is_equal (compare_paths (text_or_nil (get_root fs)) (slash ∷ [])))
    && belongs_to_guestfs fs path
is_masked fs side path = false

-- The loop of `get_binding`.
unfoldable pub find_binding : FileSystem → Side → Text → List Binding → Option Binding
find_binding fs side path [] = none
find_binding fs side path (binding ∷ bindings) =
    let ref = path_at side binding in
    if is_within (compare_paths2 ref.path ref.length path (strlen path))
      && not (is_masked fs side path)
    then some binding
    else find_binding fs side path bindings

-- `get_binding`, for the sides guest and host.
unfoldable pub get_binding : FileSystem → Side → Text → Option Binding
get_binding fs side path = find_binding fs side path (head fs side)

-- `get_path_binding`
unfoldable pub get_path_binding : FileSystem → Side → Text → Option Text
get_path_binding fs side path = elim (get_binding fs side path) [
  | none ↦ none
  | some binding ↦ some (path_at side binding).path
]

-- What `substitute_binding` returns: -ENOENT, 0 or 1.
pub data Substituted : Type 0 where
  not_bound symmetric asymmetric : Substituted

abbrev pub opposite : Side → Side
opposite Side.guest = Side.host
opposite Side.host = Side.guest
opposite Side.pending = Side.pending

unfoldable pub substitute_with : Side → Binding → Text → Substituted × Text
substitute_with side binding path =
    let ref = path_at side binding in
    let reverse_ref = path_at (opposite side) binding in
    if not binding.need_substitution then (symmetric, path) else (
      asymmetric,
      (substitute_path_prefix path ref.length reverse_ref.path reverse_ref.length).1,
    )

-- `substitute_binding` once the binding has been looked up.
unfoldable pub substituted_with : Side → Text → Option Binding → Substituted × Text
substituted_with side path none = (not_bound, path)
substituted_with side path (some binding) = substitute_with side binding path

-- `substitute_binding`, for the sides guest and host, and what it leaves in `path`.
unfoldable pub substitute_binding : FileSystem → Side → Text → Substituted × Text
unfolding substituted_with
substitute_binding fs side path = substituted_with side path (get_binding fs side path)
