-- ===== src/Canon/Walk.antt =====
-- The loop of `canonicalize` (src/path/canon.c) and its recursion on symlinks.
use improot.Base.{
  ℕ, zero, suc, ◌+◌, Bool, true, false, not, ◌&&◌, ◌||◌, some, List, [], ◌∷◌, ltb, leb, ◌==◌,
  if◌then◌else◌, Text, slash, char_at, strlen, codes, text_eq,
}
use improot.Path.{
  Errno, einval, enametoolong, eloop, path_max, Status, success, failure, Finality, final_normal,
  final_slash, final_dot, is_final, compare_paths, is_within, join_paths, pop_component, too_long,
  component, next_component,
}
use improot.Binding.{Side, substitute_binding}
use improot.Proc.{Tracee, Action, readlink_proc, proc}
use improot.Detranslate.{Sized, sized, failed, detranslate_path}
use improot.Canon.{Surroundings, Answer, answer, error, maxsymlinks, substitute_binding_stat}

-- What `canonicalize` leaves in `guest_path`, or its error. The model's fuel may run out.
pub data Outcome : Type 0 where
  ok : Text → Outcome
  err : Errno → Outcome
  out_of_fuel : Outcome

-- How one round of the loop ends: with a new path and finality, by an early return, or not.
pub data Round : Type 0 where
  next : Text → Finality → ℕ → Round
  early : Text → Round
  stop : Errno → Round
  no_fuel : Round

-- What a symlink refers to: a path to canonicalize, or the final path itself.
pub data Referee : Type 0 where
  canon final_path : Text → Referee
  no_referee : Errno → Referee

abbrev pub is_final_normal : Finality → Bool
is_final_normal final_normal = true
is_final_normal _ = false

-- `join_paths(2, guest_path, scratch_path, component)` at the end of a round.
unfoldable pub joined : Status × Text → Finality → ℕ → Round
joined (success, guest_path) finality links = next guest_path finality links
joined (failure e, guest_path) finality links = stop e

-- `.` and `..` at the end of a path.
abbrev pub final_as : Finality → Finality → Finality
final_as f finality = if is_final finality then f else finality

unfoldable pub sized_referee : Sized → Referee
sized_referee (failed e) = no_referee e
sized_referee (sized n path) = canon path

module _ (sys : Surroundings) (tracee : Tracee) (tracees : List Tracee) where
  -- The base that `readlink_proc` is given: the guest path, or what it is bound to.
  unfoldable pub proc_base : Text → Text
  proc_base guest_path =
      if is_within (compare_paths proc guest_path)
      then guest_path
      else (substitute_binding tracee.fs Side.guest guest_path).1

  unfoldable pub read_target : Text → Answer Text → Referee
  read_target host_path (error e) = no_referee e
  read_target host_path (answer target) =
      if leb path_max (strlen target)
      then no_referee enametoolong
      else sized_referee (detranslate_path tracee tracees target (some host_path))

  unfoldable pub act : Action → Finality → Text → Referee
  act (Action.canonicalize target) finality host_path = canon target
  act (Action.dont_canonicalize target) finality host_path =
      if is_final_normal finality
      then final_path target
      else read_target host_path (sys.readlink host_path)
  act (Action.failed e) finality host_path = no_referee e
  act Action.default finality host_path = read_target host_path (sys.readlink host_path)

  unfoldable pub dereference : Text → Text → Finality → Text → Referee
  dereference guest_path name finality host_path =
      act
        (readlink_proc tracee tracees (proc_base guest_path) name
          (compare_paths proc (proc_base guest_path)))
        finality host_path

  -- `recurse` is `canonicalize` with dereferencing, at a path, a base and a recursion level.
  module _ (recurse : Text → Text → ℕ → Outcome) (deref_final : Bool) (level : ℕ) where
    -- The check on what a symlink has led to.
    unfoldable pub after_recursion : Finality → ℕ → Outcome → Round
    after_recursion finality links (err e) = stop e
    after_recursion finality links out_of_fuel = no_fuel
    after_recursion finality links (ok guest_path) =
        elim (substitute_binding_stat sys tracee finality level guest_path) [
          | error e ↦ stop e
          | answer p ↦ next guest_path finality links
        ]

    unfoldable pub follow : Finality → Text → ℕ → Referee → Round
    follow finality guest_path links (no_referee e) = stop e
    follow finality guest_path links (final_path target) = early target
    follow finality guest_path links (canon target) =
        after_recursion finality (suc links) (recurse target guest_path (level + suc links))

    unfoldable pub after_stat : Text → Finality → Text → ℕ → Answer (Bool × Text) → Round
    after_stat name finality guest_path links (error e) = stop e
    after_stat name finality guest_path links (answer (is_symlink, host_path)) =
        if not is_symlink || (is_final_normal finality && not deref_final)
        then joined (join_paths (some guest_path ∷ some name ∷ [])) finality links
        else follow finality guest_path links (dereference guest_path name finality host_path)

    unfoldable pub after_join : Text → Finality → Text → ℕ → Status × Text → Round
    after_join name finality guest_path links (failure e, scratch_path) = stop e
    after_join name finality guest_path links (success, scratch_path) =
        after_stat name finality guest_path links
          (substitute_binding_stat sys tracee finality level scratch_path)

    -- One round, for a component and its finality.
    unfoldable pub visit : Text → Finality → Text → ℕ → Round
    visit name finality guest_path links =
        if text_eq name (codes ".")
        then next guest_path (final_as final_dot finality) links
        else if text_eq name (codes "..")
        then next (pop_component guest_path) (final_as final_slash finality) links
        else after_join name finality guest_path links
            (join_paths (some guest_path ∷ some name ∷ []))

-- The end of `canonicalize`: the separator or the dot that the user's path ended in.
unfoldable pub closed : Status × Text → Outcome
closed (success, guest_path) = ok guest_path
closed (failure e, guest_path) = err e

unfoldable pub close : ℕ → Finality → Text → Outcome
close level final_slash guest_path =
    if level == 0 then closed (join_paths (some guest_path ∷ some [] ∷ [])) else ok guest_path
close level final_dot guest_path =
    if level == 0
    then closed (join_paths (some guest_path ∷ some (codes ".") ∷ []))
    else ok guest_path
close level finality guest_path = ok guest_path

-- What follows a round: an early return, or the loop's test and the rest of the loop.
unfoldable pub proceed : (Text → ℕ → Outcome) → ℕ → Round → Outcome
proceed rest level no_fuel = out_of_fuel
proceed rest level (stop e) = err e
proceed rest level (early guest_path) = ok guest_path
proceed rest level (next guest_path finality links) =
    let more = rest guest_path links in
    if is_final finality then close level finality guest_path else more

module _ (sys : Surroundings) (tracee : Tracee) (tracees : List Tracee) where
  module _ (recurse : Text → Text → ℕ → Outcome) (deref_final : Bool) (level : ℕ) where
    -- The loop, with fuel for one round each.
    unfoldable pub walk : ℕ → Text → Text → ℕ → Outcome
    walk zero cursor guest_path links = out_of_fuel
    walk (suc fuel) cursor guest_path links = elim (next_component cursor) [
      | too_long ↦ err enametoolong
      | component name finality cursor' ↦
          proceed (walk fuel cursor') level
            (visit sys tracee tracees recurse deref_final level name finality guest_path links)
    ]

  -- The checks before the loop. The base of an absolute path is `/`.
  unfoldable pub start : (Text → Text → ℕ → Outcome) → Text → Bool → Text → ℕ → Outcome
  start recurse user_path deref_final guest_path level =
      let loop = walk recurse deref_final level (suc (strlen user_path)) user_path in
      if ltb maxsymlinks level
      then err eloop
      else if leb path_max (strlen guest_path)
      then err enametoolong
      else if char_at user_path 0 == slash
      then loop (slash ∷ []) 0
      else if not (char_at guest_path 0 == slash)
      then err einval
      else loop guest_path 0

  -- `canonicalize`, with fuel for the depth of the recursion.
  unfoldable pub canonicalize : ℕ → Text → Bool → Text → ℕ → Outcome
  canonicalize zero user_path deref_final guest_path level = out_of_fuel
  canonicalize (suc fuel) user_path deref_final guest_path level =
      start (λ target base deeper. canonicalize fuel target true base deeper) user_path deref_final
        guest_path level
