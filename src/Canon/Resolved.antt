-- ===== src/Canon/Resolved.antt =====
-- The operations that keep a path resolved.
use improot.Base.{
  ◌-◌, ◌<◌, ◌≡◌, ◌∙◌, ap, refl, inl, inr, ◌⊎◌, true, List, [], ◌∷◌, ◌++◌, arith, Bool-cases, All,
  All-append, Option, none, some, Text, strlen, codes, length-take-le,
}
use mathlib.Core.Path.{subst}
use improot.Path.{
  success, path_max, is_within, compare_paths2, join_paths, pop_component, skip_separators,
  previous_separator,
}
use improot.Path.Components.{Components, render}
use improot.Path.Names.{IsName, IsResolved, IsPath, All-component}
use improot.Path.Order.{append_of_within}
use improot.Path.Join.{join_paths-success, join_paths_bound}
use improot.Path.Pop.{pop_component-render}
use improot.Binding.{
  Side, Binding, FileSystem, path_at, head, is_masked, find_binding, is_masked, get_binding,
  substitute_with, substituted_with, substitute_binding,
}
use improot.Binding.Insort.{cached}
use improot.Binding.Canonical.{Stands, compare_cached-Stands}
use improot.Binding.Substitute.{Binds, substitute_with_either}

-- A binding between resolved paths, seen from one side.
pub record Resolves (side : Side) (b : Binding) : Type 0 where
  pub own : Components
  pub other : Components
  pub own_names : All IsName own
  pub other_names : All IsName other
  pub binds : Binds side b own other

-- Every name joined on keeps a path resolved.
pub join-IsPath :
    (g c : Text) {t : Text}
    → IsPath g
    → IsName c
    → join_paths (some g ∷ some c ∷ []) ≡ (success, t)
    → IsPath t
join-IsPath g c ((cs, hcs, eg), fits) hc e =
    let e' = rw eg at e in
    (
      (
        cs ++ c ∷ [],
        All-append IsName cs (c ∷ []) hcs (hc, tt),
        join_paths-success cs c (All-component cs hcs) hc.0 e',
      ),
      ground (arith, ap (λ p. p.1) e, join_paths_bound (some g ∷ some c ∷ [])),
    )

-- A list of names ends somewhere.
snoc-cases : (cs : Components) → (cs ≡ []) ⊎ ((ds : Components) × (d : Text) × (cs ≡ ds ++ d ∷ []))
snoc-cases [] = inl refl
snoc-cases (c ∷ cs) = inr (front (snoc-cases cs))
  where
    front :
        (cs ≡ []) ⊎ ((ds : Components) × (d : Text) × (cs ≡ ds ++ d ∷ []))
        → (ds : Components) × (d : Text) × (c ∷ cs ≡ ds ++ d ∷ [])
    front (inl e) = ([], c, rw e)
    front (inr (ds, d, e)) = (c ∷ ds, d, rw e)

All-snoc : (ds : Components) (d : Text) → All IsName (ds ++ d ∷ []) → All IsName ds × IsName d
All-snoc [] d h = (tt, h.0)
All-snoc (c ∷ ds) d h = let (hs, hd) = All-snoc ds d h.1 in ((h.0, hs), hd)

strlen-pop : (g : Text) → strlen g < path_max → strlen (pop_component g) < path_max
unfolding pop_component
strlen-pop g h =
    ground (arith, length-take-le (previous_separator g (skip_separators g (strlen g - 1))) g)

pub pop-IsPath : (g : Text) → IsPath g → IsPath (pop_component g)
pop-IsPath g ((cs, hcs, e), fits) = (popped (snoc-cases cs), strlen-pop g fits)
  where
    popped :
        (cs ≡ []) ⊎ ((ds : Components) × (d : Text) × (cs ≡ ds ++ d ∷ []))
        → IsResolved (pop_component g)
    popped (inl nil) = ([], tt, rw (e, nil) (pop_component-render [] (codes "a") (ground arith)).0)
    popped (inr (ds, d, snoc)) =
        let (hs, hd) = All-snoc ds d (rw snoc at hcs) in
        (ds, hs, rw (e, snoc) (pop_component-render ds d hd.0).1)

abbrev pub HoldsAt : Side → Text → Binding → Type 0
HoldsAt side path b =
    is_within (compare_paths2 (path_at side b).path (path_at side b).length path (strlen path))
    ≡ true

-- What a search finds is in the list and holds the path.
pub find_binding-found {ℓ} :
    (P : Binding → Type ℓ) (fs : FileSystem) (side : Side) (path : Text) (bs : List Binding)
    {b : Binding}
    → All P bs
    → find_binding fs side path bs ≡ some b
    → P b × HoldsAt side path b
unfolding find_binding
find_binding-found P fs side path [] h e = cc
find_binding-found P fs side path (x ∷ xs) {b} h e =
    elim (Bool-cases (
      is_within
        (compare_paths2 (path_at side x).path (path_at side x).length path (strlen path)))) [
          | inl w ↦ elim (Bool-cases (is_masked fs side path)) [
            | inl m ↦ find_binding-found P fs side path xs h.1 (rw (w, m, find_binding) at e)
            | inr open_path ↦
                let hit = rw (w, open_path, find_binding) at e in
                let same : x ≡ b = cc hit in subst (λ y. P y × HoldsAt side path y) same (h.0, w)
          ]
          | inr out ↦ find_binding-found P fs side path xs h.1 (rw (out, find_binding) at e)
        ]

-- A prefix or a path and its other end make a resolved path.
All-split : (cs ds : Components) → All IsName (cs ++ ds) → All IsName ds
All-split [] ds h = h
All-split (c ∷ cs) ds h = All-split cs ds h.1

-- Substituting one end of a binding for the other keeps a path resolved.
substitute_with-IsResolved :
    (side : Side) (b : Binding) (path : Text)
    → Resolves side b
    → HoldsAt side path b
    → IsPath path
    → IsResolved (substitute_with side b path).1
substitute_with-IsResolved side b path h holds ((cs, hcs, e), fits) = result
  where
    stands : Stands (cached path) cs
    stands = record { names = All-component cs hcs; text = e; measured = refl }

    split : (r : Components) × (cs ≡ h.own ++ r)
    split = append_of_within h.own cs (rw (compare_cached-Stands h.binds.own stands) at holds)

    r : Components
    r = split.0

    hr : All IsName r
    hr = All-split h.own r (rw split.1 at hcs)

    here : path ≡ render (h.own ++ r)
    here = e ∙ ap render split.1

    result : IsResolved (substitute_with side b path).1
    result =
        let either =
          substitute_with_either side b h.own h.other r h.binds (All-component r hr)
            (rw here at fits) in
        rw here (elim either [
          | inl moved ↦ (h.other ++ r, All-append IsName h.other r h.other_names hr, moved)
          | inr kept ↦ (h.own ++ r, All-append IsName h.own r h.own_names hr, kept)
        ])

substituted_with-IsResolved :
    (fs : FileSystem) (side : Side) (path : Text) (found : Option Binding)
    → All (Resolves side) (head fs side)
    → get_binding fs side path ≡ found
    → IsPath path
    → IsResolved (substituted_with side path found).1
unfolding substituted_with get_binding
substituted_with-IsResolved fs side path none h e p = p.0
substituted_with-IsResolved fs side path (some b) h e p =
    let found = find_binding-found (Resolves side) fs side path (head fs side) h e in
    substitute_with-IsResolved side b path found.0 found.1 p

-- So does `substitute_binding`, whichever binding it finds.
pub substitute_binding-IsResolved :
    (fs : FileSystem) (side : Side) (path : Text)
    → All (Resolves side) (head fs side)
    → IsPath path
    → IsResolved (substitute_binding fs side path).1
unfolding substitute_binding
substitute_binding-IsResolved fs side path h p =
    substituted_with-IsResolved fs side path (get_binding fs side path) h refl p
