-- ===== src/Binding/Substitute.antt =====
-- `substitute_binding` on canonical paths: the names of one end of a binding for the other's.
use improot.Base.{
  ◌⊎◌, ◌≡◌, ◌≢◌, ◌∙◌, ◌+◌, ◌<◌, ◌≤◌, inl, inr, true, false, not, some, [], ◌∷◌, ◌++◌, arith, All,
  strlen, if◌then◌else◌, Bool-cases, ap,
}
use improot.Path.{is_equal, path_max, substitute_path_prefix}
use improot.Path.Components.{Components, IsComponent, render}
use improot.Path.Compare.{compare_components}
use improot.Path.Order.{eq_of_is_equal}
use improot.Path.Prefix.{
  substitute_path_prefix-render, substitute_path_prefix-too_long, substitute_path_prefix_either,
}
use improot.Binding.{
  Side, Binding, FileSystem, path_at, opposite, get_binding, Substituted, symmetric, asymmetric,
  substitute_with, substitute_binding,
}
use improot.Binding.Canonical.{Stands}

-- The two ends of a binding, seen from one side: `g` names the side's own path and `h` the other.
pub record Binds (side : Side) (b : Binding) (g h : Components) : Type 0 where
  pub own : Stands (path_at side b) g
  pub other : Stands (path_at (opposite side) b) h
  pub flag : b.need_substitution ≡ not (is_equal (compare_components g h))

pub equal_of_is_equal : (g h : Components) → is_equal (compare_components g h) ≡ true → g ≡ h
equal_of_is_equal g h e = eq_of_is_equal g h (ground arith)

pub not-nil : (g h : Components) → is_equal (compare_components g h) ≡ false → g ++ h ≢ []
unfolding compare_components
not-nil [] [] e q = cc
not-nil [] (d ∷ h) e q = cc
not-nil (c ∷ g) h e q = cc

-- The code that `substitute_binding` returns for a binding of `g` to `h`.
abbrev pub code_of : Components → Components → Substituted
code_of g h = if is_equal (compare_components g h) then symmetric else asymmetric

module _ (side : Side) (b : Binding) (g h r : Components) (binds : Binds side b g h) where
  moved :
      All IsComponent r
      → strlen (render (g ++ r)) < path_max
      → strlen (render (h ++ r)) + 1 < path_max
      → is_equal (compare_components g h) ≡ false
      → (substitute_path_prefix
          (render (g ++ r))
          (path_at side b).length
          (path_at (opposite side) b).path
          (path_at (opposite side) b).length).1
        ≡ render (h ++ r)
  moved hr fits fits' ne =
      rw (binds.own.measured, binds.other.measured, binds.own.text, binds.other.text)
        (ap (λ p. p.1)
          (substitute_path_prefix-render g h r binds.own.names binds.other.names hr (not-nil g h ne)
            fits fits'))

  substitute_with-render :
      All IsComponent r
      → strlen (render (g ++ r)) < path_max
      → strlen (render (h ++ r)) + 1 < path_max
      → substitute_with side b (render (g ++ r)) ≡ (code_of g h, render (h ++ r))
  unfolding substitute_with
  substitute_with-render hr fits fits' = elim (Bool-cases (is_equal (compare_components g h))) [
    | inl e ↦ ground (arith, binds.flag, ap (λ c. render (c ++ r)) (equal_of_is_equal g h e))
    | inr ne ↦ ground (arith, binds.flag, moved hr fits fits' ne)
  ]

  moved_either :
      All IsComponent r
      → strlen (render (g ++ r)) < path_max
      → is_equal (compare_components g h) ≡ false
      → let t =
          (substitute_path_prefix
            (render (g ++ r))
            (path_at side b).length
            (path_at (opposite side) b).path
            (path_at (opposite side) b).length).1 in
        (t ≡ render (h ++ r)) ⊎ (t ≡ render (g ++ r))
  moved_either hr fits ne =
      rw (binds.own.measured, binds.other.measured, binds.own.text, binds.other.text)
        (substitute_path_prefix_either g h r binds.own.names binds.other.names hr (not-nil g h ne)
          fits)

  -- Whatever the lengths, the new path or the old one is left.
  pub substitute_with_either :
      All IsComponent r
      → strlen (render (g ++ r)) < path_max
      → let t = (substitute_with side b (render (g ++ r))).1 in
        (t ≡ render (h ++ r)) ⊎ (t ≡ render (g ++ r))
  unfolding substitute_with
  substitute_with_either hr fits = elim (Bool-cases (is_equal (compare_components g h))) [
    | inl e ↦ inr (ground (arith, binds.flag))
    | inr ne ↦ ground (arith, binds.flag, moved_either hr fits ne)
  ]

-- When the binding that `get_binding` finds for a canonical path `g/r` is one of `g` to `h`,
-- `substitute_binding` leaves the canonical path `h/r`, and returns 1 unless both ends are the
-- same path. The path must fit the buffer, and the new one with a byte to spare.
pub substitute_binding-render :
    (fs : FileSystem) (side : Side) (b : Binding) (g h r : Components)
    → get_binding fs side (render (g ++ r)) ≡ some b
    → Binds side b g h
    → All IsComponent r
    → strlen (render (g ++ r)) < path_max
    → strlen (render (h ++ r)) + 1 < path_max
    → substitute_binding fs side (render (g ++ r)) ≡ (code_of g h, render (h ++ r))
unfolding substitute_binding
substitute_binding-render fs side b g h r found binds hr fits fits' =
    rw (found, substitute_binding) (substitute_with-render side b g h r binds hr fits fits')

-- Translating a guest path and translating the result back gives the path again, if the host
-- path is found to belong to the same binding, and if both
-- paths leave a spare byte in the buffer.
pub substitute_binding_back :
    (fs : FileSystem) (b : Binding) (g h r : Components)
    → get_binding fs Side.guest (render (g ++ r)) ≡ some b
    → get_binding fs Side.host (render (h ++ r)) ≡ some b
    → Binds Side.guest b g h
    → Binds Side.host b h g
    → All IsComponent r
    → strlen (render (g ++ r)) + 1 < path_max
    → strlen (render (h ++ r)) + 1 < path_max
    → substitute_binding fs Side.host (substitute_binding fs Side.guest (render (g ++ r))).1
      ≡ (code_of h g, render (g ++ r))
substitute_binding_back fs b g h r there back to from hr fits fits' =
    ap (λ p. substitute_binding fs Side.host p.1)
      (substitute_binding-render fs Side.guest b g h r there to hr (omega arith) fits')
    ∙ substitute_binding-render fs Side.host b h g r back from hr (omega arith) fits

-- When the new path would not fit the buffer, `substitute_binding` returns 1, as after a
-- substitution, and leaves the old path in place, for a binding of two paths neither of which is
-- the root.
pub substitute_binding_too_long :
    (fs : FileSystem) (side : Side) (b : Binding) (g h r : Components)
    → get_binding fs side (render (g ++ r)) ≡ some b
    → Binds side b g h
    → is_equal (compare_components g h) ≡ false
    → g ≢ []
    → h ≢ []
    → strlen (render h) < path_max
    → strlen (render (g ++ r)) < path_max
    → path_max ≤ strlen (render (h ++ r))
    → substitute_binding fs side (render (g ++ r)) ≡ (asymmetric, render (g ++ r))
unfolding substitute_binding substitute_with
substitute_binding_too_long fs side b g h r found binds ne ng nh short fits over =
    let kept : (substitute_path_prefix (render (g ++ r)) (path_at side b).length
          (path_at (opposite side) b).path (path_at (opposite side) b).length).1
        ≡ render (g ++ r) =
      rw (binds.own.measured, binds.other.measured, binds.own.text, binds.other.text)
        (ap (λ p. p.1)
          (substitute_path_prefix-too_long g h r binds.own.names binds.other.names ng nh short fits
            over)) in
    ground (arith, found, binds.flag, ne, kept)
