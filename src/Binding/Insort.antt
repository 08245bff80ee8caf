-- ===== src/Binding/Insort.antt =====
-- How a binding enters and leaves the lists: `insort_binding`, `insort_binding2`,
-- `insort_binding3` and `remove_binding_from_all_lists` of src/path/binding.c. A pointer into a
-- list is the position of its element.
use improot.Base.{
  ℕ, zero, suc, Bool, true, false, not, Option, none, some, List, [], ◌∷◌, ◌==◌, if◌then◌else◌,
  Text, strlen,
}
use improot.Path.{
  Comparison, paths_are_equal, path1_is_prefix, path2_is_prefix, paths_are_not_comparable,
  compare_paths2, compare_paths, is_equal,
}
use improot.Binding.{Side, CachedPath, Binding, FileSystem, head, path_at}

-- Where the loop of `insort_binding` ends: at an element to replace, or behind all of them with
-- the pointers `previous` and `next`.
pub data Place : Type 0 where
  replace : ℕ → Binding → Place
  between : Option ℕ → Option ℕ → Place

-- `if (next == HEAD) next = iterator`
abbrev pub or_iterator : Option ℕ → ℕ → Option ℕ
or_iterator none i = some i
or_iterator (some n) i = some n

-- `compare_paths2` of the new binding with an iterator.
abbrev pub compare_at : Side → Binding → Binding → Comparison
compare_at side binding iterator =
    compare_paths2 (path_at side binding).path (path_at side binding).length
      (path_at side iterator).path (path_at side iterator).length

abbrev pub is_host : Side → Bool
is_host Side.host = true
is_host _ = false

-- The loop, at the iterator's position `i`.
unfoldable pub find_place : Side → Binding → List Binding → ℕ → Option ℕ → Option ℕ → Place
find_place side binding [] i previous next = between previous next
find_place side binding (iterator ∷ bindings) i previous next =
    elim (compare_at side binding iterator) [
      | paths_are_equal ↦ elim (is_host side) [
        | true ↦ find_place side binding bindings (suc i) (some i) next
        | false ↦ replace i iterator
      ]
      | path1_is_prefix ↦ find_place side binding bindings (suc i) (some i) next
      | path2_is_prefix ↦ find_place side binding bindings (suc i) previous (or_iterator next i)
      | paths_are_not_comparable ↦ find_place side binding bindings (suc i) previous next
    ]

-- `CIRCLEQ_INSERT_AFTER` and `CIRCLEQ_INSERT_BEFORE` at a position.
unfoldable pub insert_after : ℕ → Binding → List Binding → List Binding
insert_after i binding [] = binding ∷ []
insert_after zero binding (b ∷ bindings) = b ∷ binding ∷ bindings
insert_after (suc i) binding (b ∷ bindings) = b ∷ insert_after i binding bindings

unfoldable pub insert_before : ℕ → Binding → List Binding → List Binding
insert_before i binding [] = binding ∷ []
insert_before zero binding (b ∷ bindings) = binding ∷ b ∷ bindings
insert_before (suc i) binding (b ∷ bindings) = b ∷ insert_before i binding bindings

-- `CIRCLEQ_REMOVE_` of the object `id`, if the list holds it.
unfoldable pub unlink : ℕ → List Binding → List Binding
unlink id [] = []
unlink id (b ∷ bindings) = if b.id == id then unlink id bindings else b ∷ unlink id bindings

unfoldable pub unlink_from : ℕ → Option (List Binding) → Option (List Binding)
unlink_from id none = none
unlink_from id (some bindings) = some (unlink id bindings)

-- `remove_binding_from_all_lists`
unfoldable pub remove_binding_from_all_lists : FileSystem → Binding → FileSystem
remove_binding_from_all_lists fs binding = record fs {
  pending = unlink_from binding.id fs.pending;
  guest = unlink_from binding.id fs.guest;
  host = unlink_from binding.id fs.host;
}

-- The list of one side, given anew.
abbrev pub with_head : FileSystem → Side → List Binding → FileSystem
with_head fs Side.guest bindings = record fs { guest = some bindings }
with_head fs Side.host bindings = record fs { host = some bindings }
with_head fs Side.pending bindings = record fs { pending = some bindings }

-- `CIRCLEQ_FIRST`, where the head itself stands for an empty list's.
abbrev pub first_position : List Binding → Option ℕ
first_position [] = none
first_position (b ∷ bindings) = some 0

unfoldable pub insert_between : Option ℕ → Option ℕ → Binding → List Binding → List Binding
insert_between (some previous) next binding bindings = insert_after previous binding bindings
insert_between none (some next) binding bindings = insert_before next binding bindings
insert_between none none binding bindings = binding ∷ bindings

unfoldable pub insort_at : FileSystem → Side → Binding → Place → FileSystem
insort_at fs side binding (replace i iterator) =
    remove_binding_from_all_lists (with_head fs side (insert_after i binding (head fs side)))
      iterator
insort_at fs side binding (between previous next) =
    with_head fs side (insert_between previous next binding (head fs side))

-- `insort_binding`
unfoldable pub insort_binding : FileSystem → Side → Binding → FileSystem
insort_binding fs side binding =
    insort_at fs side binding
      (find_place side binding (head fs side) 0 none (first_position (head fs side)))

-- `insort_binding2`
unfoldable pub insort_binding2 : FileSystem → Binding → FileSystem
insort_binding2 fs binding =
    let binding' = record binding {
      need_substitution = not (is_equal (compare_paths binding.host.path binding.guest.path));
    } in
    insort_binding (insort_binding fs Side.guest binding') Side.host binding'

abbrev pub cached : Text → CachedPath
cached t = record { path = t; length = strlen t }

-- `insort_binding3`: the pointer that it returns, and the lists. `fresh` is the object that
-- `talloc_zero` returns.
unfoldable pub insort_binding3 : Option ℕ → FileSystem → Text → Text → Option ℕ × FileSystem
insort_binding3 none fs host_path guest_path = (none, fs)
insort_binding3 (some id) fs host_path guest_path = (
  some id,
  insort_binding2 fs (record {
    id = id;
    host = cached host_path;
    guest = cached guest_path;
    need_substitution = false;
  }),
)
