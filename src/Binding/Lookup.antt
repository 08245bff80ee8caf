-- ===== src/Binding/Lookup.antt =====
-- `get_binding` on ordered lists.
use improot.Base.{
  ℕ, suc, get_elem?, ◌≡◌, ◌≢◌, refl, inl, inr, true, false, Option, none, some, List, [], ◌∷◌,
  arith, All, Text, strlen, slash, Bool-cases,
}
use mathlib.Core.Path.{subst}
use improot.Path.{compare_paths2, compare_paths, is_equal, is_within}
use improot.Path.Order.{compare_components_refl, nil-within}
use improot.Binding.{
  Side, CachedPath, Binding, FileSystem, head, entries, path_at, is_masked, find_binding,
  get_binding, last, not_bound, substituted_with, substitute_with, substitute_binding, get_root,
  belongs_to_guestfs,
}
use improot.Binding.Insort.{cached}
use improot.Binding.Canonical.{
  IsSound, IsCanonical, path_at-IsCanonical, Contains, Within, Stands, Within-deeper,
  compare_cached-Stands,
}
use improot.Binding.Order.{IsSorted}
use improot.Binding.Preserve.{IsOrdered, on_side}

-- What a search of `bs` for the path `q` should give: nothing, if no binding holds `q`, and
-- otherwise a binding of `bs` that holds `q` and lies within every binding that holds `q`.
abbrev pub Deepest : Side → CachedPath → List Binding → Option Binding → Type 0
Deepest side q bs none = All (λ c. ¬ (Within (path_at side c) q)) bs
Deepest side q bs (some b) =
    Within (path_at side b) q
    × All (λ c. Within (path_at side c) q → Within (path_at side c) (path_at side b)) bs
    × ((i : ℕ) × (get_elem? bs i ≡ some b))

Within-refl : {p : CachedPath} → IsCanonical p → Within p p
Within-refl h = rw (compare_cached-Stands h.1 h.1, compare_components_refl h.0)

module _ (fs : FileSystem) (side : Side) (path : Text) (canonical : IsCanonical (cached path)) where
  -- Behind the first binding that holds the path stands none that is deeper.
  deepest_first :
      (x : Binding) (xs : List Binding)
      → IsSound x
      → All IsSound xs
      → Within (path_at side x) (cached path)
      → All (λ y. ¬ (Contains (path_at side x) (path_at side y))) xs
      → All
          (λ c. Within (path_at side c) (cached path) → Within (path_at side c) (path_at side x))
          xs
  deepest_first x [] hx hs w apart = tt
  deepest_first x (y ∷ xs) hx hs w apart = (
    λ v.
        Within-deeper (path_at-IsCanonical side hx) (path_at-IsCanonical side hs.0) canonical w v
          apart.0,
    deepest_first x xs hx hs.1 w apart.1,
  )

  Deepest-pass :
      (x : Binding) (xs : List Binding) (found : Option Binding)
      → ¬ (Within (path_at side x) (cached path))
      → Deepest side (cached path) xs found
      → Deepest side (cached path) (x ∷ xs) found
  Deepest-pass x xs none out d = (out, d)
  Deepest-pass x xs (some b) out d =
      (d.0, (λ w. absurd (out w), d.1), (let (i, at) = d.2 in (suc i, at)))

  find_binding-Deepest :
      (bs : List Binding)
      → is_masked fs side path ≡ false
      → All IsSound bs
      → IsSorted side bs
      → Deepest side (cached path) bs (find_binding fs side path bs)
  unfolding find_binding
  find_binding-Deepest [] unmasked hs sorted = tt
  find_binding-Deepest (x ∷ xs) unmasked hs sorted =
      elim (Bool-cases (
        is_within
          (compare_paths2 (path_at side x).path (path_at side x).length path (strlen path)))) [
            | inl w ↦
                rw (w, unmasked)
                  (
                    w,
                    (
                      λ v. Within-refl (path_at-IsCanonical side hs.0),
                      deepest_first x xs hs.0 hs.1 w sorted.0,
                    ),
                    (0, refl),
                  )
            | inr out ↦
                rw out
                  (Deepest-pass x xs _ (λ w. cc) (find_binding-Deepest xs unmasked hs.1 sorted.1))
          ]

-- On ordered lists, `get_binding` answers with the deepest binding of the list that holds a
-- canonical path, and with NULL exactly when no binding holds it. This is for a path that is not
-- masked: from the host's point of view, one inside the guest's root, when that root is not `/`,
-- has no binding.
pub get_binding-Deepest :
    (fs : FileSystem) (side : Side) (path : Text)
    → IsOrdered fs
    → IsCanonical (cached path)
    → is_masked fs side path ≡ false
    → Deepest side (cached path) (head fs side) (get_binding fs side path)
unfolding get_binding
get_binding-Deepest fs side path h canonical unmasked =
    find_binding-Deepest fs side path canonical (head fs side) unmasked (on_side h side).0
      (on_side h side).1

find_binding_masked :
    (fs : FileSystem) (side : Side) (path : Text) (bs : List Binding)
    → is_masked fs side path ≡ true
    → find_binding fs side path bs ≡ none
unfolding find_binding
find_binding_masked fs side path [] masked = refl
find_binding_masked fs side path (x ∷ xs) masked =
    ground (arith, find_binding_masked fs side path xs masked)

-- A host path inside the guest's root file system, when that root is not the host's own `/`, has
-- no binding from the host's point of view, whatever is bound.
pub get_binding_masked :
    (fs : FileSystem) (root path : Text)
    → get_root fs ≡ some root
    → is_equal (compare_paths root (slash ∷ [])) ≡ false
    → is_within (compare_paths root path) ≡ true
    → get_binding fs Side.host path ≡ none
unfolding get_binding
get_binding_masked fs root path e apart inside =
    find_binding_masked fs Side.host path (entries fs.host)
      (unfold is_masked belongs_to_guestfs in rw (e, apart, inside))

All-last {ℓ} :
    (P : Binding → Type ℓ) (bs : List Binding) {b : Binding} → All P bs → last bs ≡ some b → P b
unfolding last
All-last P [] h e = cc
All-last P (x ∷ []) h e = subst P (cc) h.0
All-last P (x ∷ y ∷ xs) h e = All-last P (y ∷ xs) h.1 e

-- Once the root is bound, as the last binding of an ordered guest list, every canonical path is
-- held by some binding, so that `substitute_binding` never answers -ENOENT.
pub substitute_binding_bound :
    (fs : FileSystem) (path : Text) (b : Binding)
    → IsOrdered fs
    → IsCanonical (cached path)
    → last (entries fs.guest) ≡ some b
    → Stands b.guest []
    → (substitute_binding fs Side.guest path).0 ≢ not_bound
unfolding substitute_binding
substitute_binding_bound fs path b h canonical is_last root =
    bound (get_binding fs Side.guest path)
      (get_binding-Deepest fs Side.guest path h canonical (unfold is_masked in refl))
  where
    holds : Within b.guest (cached path)
    holds = rw (compare_cached-Stands root canonical.1) (nil-within canonical.0)

    bound :
        (o : Option Binding)
        → Deepest Side.guest (cached path) (entries fs.guest) o
        → (substituted_with Side.guest path o).0 ≢ not_bound
    bound none out e = All-last _ (entries fs.guest) out is_last holds
    bound (some c) d e = unfold substitute_with in ground arith
