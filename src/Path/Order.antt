-- ===== src/Path/Order.antt =====
-- The order of containment that `compare_components` decides.
use improot.Base.{
  ◌≡◌, ◌≢◌, ◌⊎◌, inl, inr, Bool-cases, ◌++◌, refl, true, false, [], ◌∷◌, arith, text_eq,
  eq_of_text_eq, text_eq_refl,
}
use improot.Path.{
  Comparison, paths_are_equal, path1_is_prefix, path2_is_prefix, paths_are_not_comparable,
  is_within,
}
use improot.Path.Components.{Components}
use improot.Path.Compare.{compare_components}

pub compare_components_refl : (cs : Components) → compare_components cs cs ≡ paths_are_equal
unfolding compare_components
compare_components_refl [] = refl
compare_components_refl (c ∷ cs) = ground (arith, text_eq_refl c, compare_components_refl cs)

pub eq_of_is_equal : (cs ds : Components) → compare_components cs ds ≡ paths_are_equal → cs ≡ ds
unfolding compare_components
eq_of_is_equal [] [] e = refl
eq_of_is_equal [] (d ∷ ds) e = cc
eq_of_is_equal (c ∷ cs) [] e = cc
eq_of_is_equal (c ∷ cs) (d ∷ ds) e = ground (arith, eq_of_text_eq c d, eq_of_is_equal cs ds)

-- A strict container of a path contains what the path contains.
pub path1_trans :
    (cs ds es : Components)
    → compare_components cs ds ≡ path1_is_prefix
    → is_within (compare_components ds es) ≡ true
    → compare_components cs es ≡ path1_is_prefix
unfolding compare_components
path1_trans [] [] es h k = cc
path1_trans [] (d ∷ ds) [] h k = cc
path1_trans [] (d ∷ ds) (e ∷ es) h k = refl
path1_trans (c ∷ cs) [] es h k = cc
path1_trans (c ∷ cs) (d ∷ ds) [] h k = cc
path1_trans (c ∷ cs) (d ∷ ds) (e ∷ es) h k =
    ground (arith, eq_of_text_eq c d, eq_of_text_eq d e, text_eq_refl e, path1_trans cs ds es)

pub path1_antisym :
    (cs ds : Components)
    → compare_components cs ds ≡ path1_is_prefix
    → is_within (compare_components ds cs) ≡ false
unfolding compare_components
path1_antisym [] [] h = cc
path1_antisym [] (d ∷ ds) h = refl
path1_antisym (c ∷ cs) [] h = cc
path1_antisym (c ∷ cs) (d ∷ ds) h =
    ground (arith, eq_of_text_eq c d, text_eq_refl d, path1_antisym cs ds)

-- Of two containers of one path, that which does not strictly contain the other is the deeper.
pub deeper_container :
    (cs ds es : Components)
    → is_within (compare_components cs es) ≡ true
    → is_within (compare_components ds es) ≡ true
    → compare_components cs ds ≢ path1_is_prefix
    → is_within (compare_components ds cs) ≡ true
unfolding compare_components
deeper_container [] [] es h k n = refl
deeper_container [] (d ∷ ds) es h k n = absurd (n refl)
deeper_container (c ∷ cs) [] es h k n = refl
deeper_container (c ∷ cs) (d ∷ ds) [] h k n = cc
deeper_container (c ∷ cs) (d ∷ ds) (e ∷ es) h k n =
    ground (arith, eq_of_text_eq c e, eq_of_text_eq d e, text_eq_refl e, deeper_container cs ds es)

pub Comparison-cases :
    (c : Comparison)
    → (c ≡ paths_are_equal)
      ⊎ (c ≡ path1_is_prefix)
      ⊎ (c ≡ path2_is_prefix)
      ⊎ (c ≡ paths_are_not_comparable)
Comparison-cases c = ground arith

-- A container's names begin those of the path.
pub append_of_within :
    (cs ds : Components)
    → is_within (compare_components cs ds) ≡ true
    → (r : Components) × (ds ≡ cs ++ r)
unfolding compare_components
append_of_within [] ds h = (ds, refl)
append_of_within (c ∷ cs) [] h = cc
append_of_within (c ∷ cs) (d ∷ ds) h = elim (Bool-cases (text_eq c d)) [
  | inl e ↦
      let (r, q) = append_of_within cs ds (rw (e, compare_components) at h) in
      (r, cc (eq_of_text_eq c d e))
  | inr ne ↦ cc (rw (ne, compare_components) at h)
]

pub nil-within : (cs : Components) → is_within (compare_components [] cs) ≡ true
unfolding compare_components
nil-within [] = refl
nil-within (c ∷ cs) = refl
