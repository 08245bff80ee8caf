-- ===== src/Binding/Canonical.antt =====
-- Bindings between canonical paths, and what their comparison means.
use improot.Base.{◌≡◌, true, false, not, All, strlen}
use improot.Path.{
  Comparison, paths_are_equal, path1_is_prefix, compare_paths2, compare_paths, is_equal, is_within,
}
use improot.Path.Components.{Components, IsComponent, render}
use improot.Path.Compare.{compare_components, compare_paths-render}
use improot.Path.Order.{path1_trans, path1_antisym, deeper_container, eq_of_is_equal}
use improot.Binding.{Side, CachedPath, Binding, path_at}

-- The text of a list of names, and its length.
pub record Stands (p : CachedPath) (cs : Components) : Type 0 where
  pub names : All IsComponent cs
  pub text : p.path ≡ render cs
  pub measured : p.length ≡ strlen p.path

abbrev pub IsCanonical : CachedPath → Type 0
IsCanonical p = (cs : Components) × Stands p cs

-- Both ends are canonical, and the flag tells whether they differ.
pub record IsSound (b : Binding) : Type 0 where
  pub host : IsCanonical b.host
  pub guest : IsCanonical b.guest
  pub flag : b.need_substitution ≡ not (is_equal (compare_paths b.host.path b.guest.path))

pub path_at-IsCanonical : (side : Side) {b : Binding} → IsSound b → IsCanonical (path_at side b)
path_at-IsCanonical Side.guest h = h.guest
path_at-IsCanonical Side.host h = h.host
path_at-IsCanonical Side.pending h = h.guest

abbrev pub compare_cached : CachedPath → CachedPath → Comparison
compare_cached p q = compare_paths2 p.path p.length q.path q.length

module _ {p q : CachedPath} {cs ds : Components} (hp : Stands p cs) (hq : Stands q ds) where
  pub compare_cached-Stands : compare_cached p q ≡ compare_components cs ds
  compare_cached-Stands =
      rw (hp.measured, hq.measured, hp.text, hq.text)
        (unfold compare_paths in compare_paths-render cs ds hp.names hq.names)

-- `p` strictly contains `q`.
abbrev pub Contains : CachedPath → CachedPath → Type 0
Contains p q = compare_cached p q ≡ path1_is_prefix

abbrev pub Within : CachedPath → CachedPath → Type 0
Within p q = is_within (compare_cached p q) ≡ true

module _ {p q r : CachedPath} (hp : IsCanonical p) (hq : IsCanonical q) (hr : IsCanonical r) where
  pub Contains-trans : Contains p q → Within q r → Contains p r
  Contains-trans h k =
      let pq = compare_cached-Stands hp.1 hq.1 in
      let qr = compare_cached-Stands hq.1 hr.1 in
      let pr = compare_cached-Stands hp.1 hr.1 in
      rw pr (path1_trans hp.0 hq.0 hr.0 (rw pq at h) (rw qr at k))

  pub Equal-Contains : compare_cached p q ≡ paths_are_equal → Contains p r → Contains q r
  Equal-Contains e h =
      let pq = compare_cached-Stands hp.1 hq.1 in
      let pr = compare_cached-Stands hp.1 hr.1 in
      let qr = compare_cached-Stands hq.1 hr.1 in
      let same = eq_of_is_equal hp.0 hq.0 (rw pq at e) in rw (qr, ← same) (rw pr at h)

  pub Within-deeper : Within p r → Within q r → ¬ (Contains p q) → Within q p
  Within-deeper h k n =
      let pq = compare_cached-Stands hp.1 hq.1 in
      let pr = compare_cached-Stands hp.1 hr.1 in
      let qr = compare_cached-Stands hq.1 hr.1 in
      let qp = compare_cached-Stands hq.1 hp.1 in
      rw qp (deeper_container hp.0 hq.0 hr.0 (rw pr at h) (rw qr at k) (λ e. n (rw pq e)))

module _ {p q : CachedPath} (hp : IsCanonical p) (hq : IsCanonical q) where
  pub Contains-antisym : Contains p q → is_within (compare_cached q p) ≡ false
  Contains-antisym h =
      rw (compare_cached-Stands hq.1 hp.1)
        (path1_antisym hp.0 hq.0 (rw (compare_cached-Stands hp.1 hq.1) at h))
