-- ===== src/Path.antt =====
-- src/path/path.h and the functions of src/path/path.c on path texts alone.
pub mod Components
pub mod Compare
pub mod Join
pub mod Order
pub mod Prefix
pub mod Pop
pub mod Split
pub mod Cursor
pub mod Names
use improot.Base.{
  ℕ, zero, suc, ◌+◌, ◌-◌, ◌%◌, ◌^◌, Bool, true, false, not, ◌&&◌, ◌||◌, Option, none, some, List,
  [], ◌∷◌, ◌++◌, ltb, leb, ◌==◌, if◌then◌else◌, length, take, drop, Text, slash, char_at, strlen,
  strncmp_eq,
}

abbrev pub path_max : ℕ
path_max = 4096

-- The negative errors that this library returns.
pub data Errno : Type 0 where
  enoent enoexec enomem eacces enotdir einval enametoolong eloop eperm ebadf eexist e2big enomsg
        eagain eidrm eintr efault enospc erange efbig :
      Errno

-- The `int` of a function that returns 0 or a negative error.
pub data Status : Type 0 where
  success : Status
  failure : Errno → Status

-- `Finality`
pub data Finality : Type 0 where
  not_final final_normal final_slash final_dot : Finality

-- `IS_FINAL`
abbrev pub is_final : Finality → Bool
is_final not_final = false
is_final _ = true

-- `Comparison`
pub data Comparison : Type 0 where
  paths_are_equal path1_is_prefix path2_is_prefix paths_are_not_comparable : Comparison

abbrev pub is_equal : Comparison → Bool
is_equal paths_are_equal = true
is_equal _ = false

-- Equal, or the first path is a prefix.
abbrev pub is_within : Comparison → Bool
is_within paths_are_equal = true
is_within path1_is_prefix = true
is_within _ = false

-- `compare_paths2` once the trailing separators are gone from the lengths.
unfoldable pub compare_stripped : Text → ℕ → Text → ℕ → Comparison
compare_stripped path1 length1 path2 length2 =
    let length_min = if ltb length1 length2 then length1 else length2 in
    let sentinel = if ltb length1 length2 then char_at path2 length1 else char_at path1 length2 in
    if not (sentinel == slash) && not (sentinel == 0)
    then paths_are_not_comparable
    else if not (strncmp_eq length_min path1 path2)
    then paths_are_not_comparable
    else if length1 == length2
    then paths_are_equal
    else if ltb length1 length2
    then path1_is_prefix
    else path2_is_prefix

-- The length less a trailing separator.
unfoldable pub strip_length : Text → ℕ → ℕ
strip_length path length1 = if char_at path (length1 - 1) == slash then length1 - 1 else length1

unfoldable pub compare_paths2 : Text → ℕ → Text → ℕ → Comparison
unfolding compare_stripped strip_length
compare_paths2 path1 length1 path2 length2 =
    if (length1 == 0) || (length2 == 0)
    then paths_are_not_comparable
    else compare_stripped path1 (strip_length path1 length1) path2 (strip_length path2 length2)

unfoldable pub compare_paths : Text → Text → Comparison
unfolding compare_paths2
compare_paths path1 path2 = compare_paths2 path1 (strlen path1) path2 (strlen path2)

-- One round of the loop of `join_paths` on the text so far: `none` when the result would be too
-- long.
unfoldable pub join_one : Text → Text → Option Text
join_one result path =
    let length1 = strlen result in
    let ends = char_at result (length1 - 1) == slash in
    let begins = char_at path 0 == slash in
    if ltb 0 length1 && (not ends && not begins)
    then (if leb path_max (length1 + strlen path + 1 + 1)
        then none
        else some (result ++ slash ∷ path))
    else if ltb 0 length1 && (ends && begins)
    then (if leb path_max (length1 + strlen path - 1 + 1)
        then none
        else some (result ++ drop 1 path))
    else (if leb path_max (length1 + strlen path + 1) then none else some (result ++ path))

unfoldable pub join_loop : Text → List (Option Text) → Status × Text
join_loop result [] = (success, result)
join_loop result (none ∷ paths) = join_loop result paths
join_loop result (some path ∷ paths) = elim (join_one result path) [
  | none ↦ (failure enametoolong, result)
  | some result' ↦ join_loop result' paths
]

-- `join_paths`: the arguments behind `result`, where `none` is a NULL, and what it leaves in
-- `result`.
unfoldable pub join_paths : List (Option Text) → Status × Text
join_paths paths = join_loop [] paths

-- A `size_t` has 64 bits.
abbrev pub size_mod : ℕ
size_mod = 2 ^ 64

-- `(size_t) -ENAMETOOLONG`
abbrev pub minus_enametoolong : ℕ
minus_enametoolong = 2 ^ 64 - 36

-- `substitute_path_prefix`: the returned size and what it leaves in `path`.
unfoldable pub substitute_path_prefix : Text → ℕ → Text → ℕ → ℕ × Text
substitute_path_prefix path old_prefix_length new_prefix new_prefix_length =
    let path_length = strlen path in
    let left = (path_length + size_mod - old_prefix_length) % size_mod in
    if new_prefix_length == 1
    then (if not (left == 0) then (left, drop old_prefix_length path) else (1, slash ∷ []))
    else if old_prefix_length == 1
    then (if leb path_max (new_prefix_length + path_length)
        then (minus_enametoolong, path)
        else if ltb 1 path_length
        then (new_prefix_length + path_length, take new_prefix_length new_prefix ++ path)
        else (new_prefix_length, take new_prefix_length new_prefix))
    else (let new_length = (left + new_prefix_length) % size_mod in
        if leb path_max new_length
        then (minus_enametoolong, path)
        else (new_length, take new_prefix_length new_prefix ++ drop old_prefix_length path))

-- `chop_finality`, on a text that is not empty.
unfoldable pub chop_finality : Text → Text
chop_finality path =
    let length1 = strlen path in
    if char_at path (length1 - 1) == b'.'
    then (if length1 == 2 then take (length1 - 1) path else take (length1 - 2) path)
    else if char_at path (length1 - 1) == slash
    then (if ltb 1 length1 then take (length1 - 1) path else path)
    else path

-- The two loops of `pop_component` (src/path/canon.c): the offset where each one stops.
unfoldable pub skip_separators : Text → ℕ → ℕ
skip_separators path zero = zero
skip_separators path (suc offset) =
    if ltb 1 (suc offset) && (char_at path (suc offset) == slash)
    then skip_separators path offset
    else suc offset

unfoldable pub previous_separator : Text → ℕ → ℕ
previous_separator path zero = zero
previous_separator path (suc offset) =
    if ltb 1 (suc offset) && not (char_at path (suc offset) == slash)
    then previous_separator path offset
    else suc offset

-- `pop_component`, on a text that begins with a separator.
unfoldable pub pop_component : Text → Text
pop_component path =
    let offset = strlen path - 1 in
    if offset == 0 then path else take (previous_separator path (skip_separators path offset)) path

abbrev pub name_max : ℕ
name_max = 255

-- The loops of `next_component` over the bytes at the cursor.
unfoldable pub skip_slashes : Text → Text
skip_slashes [] = []
skip_slashes (c ∷ cursor) = if c == slash then skip_slashes cursor else c ∷ cursor

-- What stands before the next separator, and from it on.
unfoldable pub name_of : Text → Text
name_of [] = []
name_of (c ∷ cursor) = if c == slash then [] else c ∷ name_of cursor

unfoldable pub skip_name : Text → Text
skip_name [] = []
skip_name (c ∷ cursor) = if c == slash then c ∷ cursor else skip_name cursor

-- The outcome of `next_component`: an error, or the component, its finality and the new cursor.
pub data Next : Type 0 where
  too_long : Next
  component : Text → Finality → Text → Next

unfoldable pub next_component : Text → Next
next_component cursor =
    let start = skip_slashes cursor in
    let name = name_of start in
    let behind = skip_name start in
    let rest = skip_slashes behind in
    if leb name_max (strlen name)
    then too_long
    else component name
        (if strlen rest == 0
          then (if char_at behind 0 == slash then final_slash else final_normal)
          else not_final)
        rest
