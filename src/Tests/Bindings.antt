-- ===== src/Tests/Bindings.antt =====
-- A root file system with two bindings, and the theorems on bindings at it.
use improot.Base.{
  ℕ, zero, suc, sym, ap, append-nil, ◌≡◌, ◌≢◌, refl, true, none, some, [], ◌∷◌, arith, Text, codes,
  slash, replicate,
}
use mathlib.Core.Path.{subst}
use improot.Path.{compare_paths, compare_paths2}
use improot.Path.Components.{Components, IsPlain}
use improot.Path.Compare.{compare_components}
use improot.Binding.{
  Side, Binding, FileSystem, not_bound, asymmetric, get_root, get_binding, find_binding, is_masked,
  belongs_to_guestfs, last, substitute_binding, entries,
}
use improot.Binding.Insort.{
  cached, insort_binding, insort_binding2, insort_binding3, insort_at, find_place, insert_after,
  insert_before, insert_between, unlink, unlink_from, remove_binding_from_all_lists,
}
use improot.Binding.Canonical.{Stands}
use improot.Binding.Preserve.{IsOrdered, insort_binding3-IsOrdered}
use improot.Binding.Lookup.{Deepest, get_binding-Deepest, substitute_binding_bound}
use improot.Binding.Substitute.{
  Binds, code_of, substitute_binding-render, substitute_binding_back, substitute_binding_too_long,
}

abbrev empty : FileSystem
empty = record { pending = none; guest = some []; host = some []; cwd = codes "/" }

empty-IsOrdered : IsOrdered empty
empty-IsOrdered = record { pending = (tt, tt); guest = (tt, tt); host = (tt, tt) }

abbrev bind : ℕ → Text → Text → Binding
bind id host_path guest_path = record {
  id = id;
  host = cached host_path;
  guest = cached guest_path;
  need_substitution = true;
}

abbrev root_binding : Binding
root_binding = bind 1 (codes "/r") (codes "/")

abbrev usr_binding : Binding
usr_binding = bind 2 (codes "/opt/x") (codes "/usr")

-- The root is bound first, then `/opt/x` to `/usr`.
abbrev bound : FileSystem
bound = record {
  pending = none;
  guest = some (usr_binding ∷ root_binding ∷ []);
  host = some (usr_binding ∷ root_binding ∷ []);
  cwd = codes "/";
}

binds_twice :
    (insort_binding3
      (some 2)
      (insort_binding3 (some 1) empty (codes "/r") (codes "/")).1
      (codes "/opt/x")
      (codes "/usr"))
    ≡ (some 2, bound)
unfolding insort_binding3 insort_binding2 insort_binding insort_at find_place insert_after
    insert_before insert_between compare_paths compare_paths2
binds_twice = refl

-- A second binding to the same guest path replaces the first.
rebinds :
    (insort_binding3 (some 3) bound (codes "/b") (codes "/usr")).1.guest
    ≡ some (bind 3 (codes "/b") (codes "/usr") ∷ root_binding ∷ [])
unfolding insort_binding3 insort_binding2 insort_binding insort_at find_place insert_after
    insert_before insert_between compare_paths compare_paths2 remove_binding_from_all_lists
    unlink_from unlink
rebinds = refl

root-Stands : Stands (cached (codes "/")) []
root-Stands = record { names = tt; text = refl; measured = refl }

r-Stands : Stands (cached (codes "/r")) (codes "r" ∷ [])
r-Stands = record { names = ground arith; text = refl; measured = refl }

usr-Stands : Stands (cached (codes "/usr")) (codes "usr" ∷ [])
usr-Stands = record { names = ground arith; text = refl; measured = refl }

opt-Stands : Stands (cached (codes "/opt/x")) (codes "opt" ∷ codes "x" ∷ [])
opt-Stands = record { names = ground arith; text = refl; measured = refl }

bin-Stands : Stands (cached (codes "/usr/bin")) (codes "usr" ∷ codes "bin" ∷ [])
bin-Stands = record { names = ground arith; text = refl; measured = refl }

one-IsOrdered : IsOrdered (insort_binding3 (some 1) empty (codes "/r") (codes "/")).1
one-IsOrdered =
    insort_binding3-IsOrdered (some 1) empty (codes "/r") (codes "/") (codes "r" ∷ [], r-Stands)
      ([], root-Stands) empty-IsOrdered

insort_binding3-IsOrdered_example :
    IsOrdered (insort_binding3 (some 1) empty (codes "/r") (codes "/")).1
insort_binding3-IsOrdered_example =
    insort_binding3-IsOrdered (some 1) empty (codes "/r") (codes "/") (codes "r" ∷ [], r-Stands)
      ([], root-Stands) empty-IsOrdered

bound-IsOrdered : IsOrdered bound
bound-IsOrdered =
    subst (λ p. IsOrdered p.1) binds_twice
      (insort_binding3-IsOrdered (some 2) _ (codes "/opt/x") (codes "/usr")
        (codes "opt" ∷ codes "x" ∷ [], opt-Stands) (codes "usr" ∷ [], usr-Stands) one-IsOrdered)

get_binding-Deepest_example :
    Deepest Side.guest
      (cached (codes "/usr/bin"))
      (entries bound.guest)
      (get_binding bound Side.guest (codes "/usr/bin"))
get_binding-Deepest_example =
    get_binding-Deepest bound Side.guest (codes "/usr/bin") bound-IsOrdered
      (codes "usr" ∷ codes "bin" ∷ [], bin-Stands) (unfold is_masked in refl)

substitute_binding_bound_example :
    (substitute_binding bound Side.guest (codes "/usr/bin")).0 ≢ not_bound
unfolding last
substitute_binding_bound_example =
    substitute_binding_bound bound (codes "/usr/bin") root_binding bound-IsOrdered
      (codes "usr" ∷ codes "bin" ∷ [], bin-Stands) refl root-Stands

abbrev usr : Components
usr = codes "usr" ∷ []

abbrev opt : Components
opt = codes "opt" ∷ codes "x" ∷ []

abbrev bin : Components
bin = codes "bin" ∷ []

there : Binds Side.guest usr_binding usr opt
unfolding compare_components
there = record { own = usr-Stands; other = opt-Stands; flag = refl }

back : Binds Side.host usr_binding opt usr
unfolding compare_components
back = record { own = opt-Stands; other = usr-Stands; flag = refl }

substitute_binding-render_example :
    substitute_binding bound Side.guest (codes "/usr/bin") ≡ (code_of usr opt, codes "/opt/x/bin")
unfolding get_binding find_binding is_masked compare_paths2
substitute_binding-render_example =
    substitute_binding-render bound Side.guest usr_binding usr opt bin refl there (ground arith)
      (omega arith) (omega arith)

substitute_binding_back_example :
    substitute_binding bound Side.host (substitute_binding bound Side.guest (codes "/usr/bin")).1
    ≡ (code_of opt usr, codes "/usr/bin")
unfolding get_binding find_binding is_masked belongs_to_guestfs get_root last compare_paths
    compare_paths2
substitute_binding_back_example =
    substitute_binding_back bound usr_binding usr opt bin refl refl there back (ground arith)
      (omega arith) (omega arith)

-- A host path of 4091 bytes, bound to `/usr`.
abbrev long : Text
long = replicate 4090 b'a'

long-IsPlain : (n : ℕ) → IsPlain (replicate n b'a')
long-IsPlain zero = tt
long-IsPlain (suc n) = ((omega arith, omega arith), long-IsPlain n)

abbrev long_binding : Binding
long_binding = bind 3 (slash ∷ long) (codes "/usr")

abbrev far : FileSystem
far = record bound { guest = some (long_binding ∷ root_binding ∷ []) }

far_there : Binds Side.guest long_binding usr (long ∷ [])
unfolding compare_components
far_there = record {
  own = usr-Stands;
  other = record {
    names = (((λ e. cc), long-IsPlain 4090), tt);
    text = ap (λ t. slash ∷ t) (sym (append-nil long));
    measured = refl;
  };
  flag = refl;
}

substitute_binding_too_long_example :
    substitute_binding far Side.guest (codes "/usr/library") ≡ (asymmetric, codes "/usr/library")
unfolding get_binding find_binding is_masked compare_paths2 compare_components
substitute_binding_too_long_example =
    substitute_binding_too_long far Side.guest long_binding usr (long ∷ []) (codes "library" ∷ [])
      refl far_there refl (λ e. cc) (λ e. cc) (omega arith) (omega arith) (omega arith)
