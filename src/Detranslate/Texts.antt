-- ===== src/Detranslate/Texts.antt =====
-- What `detranslate_path` makes of the target of a symlink is never empty.
use improot.Base.{
  ℕ, ◌+◌, ◌-◌, ◌%◌, ◌≤◌, ◌<◌, ◌≡◌, ◌≢◌, refl, inl, inr, Bool, true, false, not, Option, none, some,
  [], ◌∷◌, ◌++◌, arith, Bool-cases, leb, ltb, ◌==◌, if◌then◌else◌, Text, slash, strlen, drop, All,
  All-append, All-drop, drop-ne-nil, char_at-last, take-strlen,
}
use improot.Path.{
  path1_is_prefix, compare_paths, compare_paths2, compare_stripped, strip_length, is_within,
  path_max, is_equal, substitute_path_prefix, size_mod,
}
use improot.Path.Components.{Components, IsComponent, body, render, last_of-body}
use improot.Path.Compare.{compare_components, strip_length-le, render-plain}
use improot.Path.Prefix.{1-lt-body}
use improot.Path.Names.{IsText}
use improot.Path.Order.{Comparison-cases}
use improot.Binding.{
  Side, Binding, FileSystem, head, get_binding, Substituted, symmetric, substitute_with,
  substituted_with,
}
use improot.Canon.Resolved.{Resolves, HoldsAt, find_binding-found}
use improot.Detranslate.{Sized, sized, failed, strip_root}

-- The length of a path that lies inside another.
strip_length-within :
    (p : Text) (n : ℕ) (q : Text) (m : ℕ)
    → is_within (compare_paths2 p n q m) ≡ true
    → strip_length p n ≤ strip_length q m
unfolding compare_paths2 compare_stripped
strip_length-within p n q m e = ground arith

strip_length-prefix :
    (p : Text) (n : ℕ) (q : Text) (m : ℕ)
    → compare_paths2 p n q m ≡ path1_is_prefix
    → strip_length p n < strip_length q m
unfolding compare_paths2 compare_stripped
strip_length-prefix p n q m e = ground arith

-- A body has no separator to strip.
strip_length-body :
    (c : Text) (cs : Components)
    → All IsComponent (c ∷ cs)
    → strip_length (body (c ∷ cs)) (strlen (body (c ∷ cs))) ≡ strlen (body (c ∷ cs))
unfolding strip_length
strip_length-body c cs h =
    ground (arith, char_at-last slash (c ++ body cs), last_of-body slash c cs h)

-- A text that a size comes with.
abbrev pub Gives : Sized → Type 0
Gives (sized n t) = IsText t
Gives (failed e) = Unit

IsText-drop : (n : ℕ) (t : Text) → n < strlen t → IsText t → IsText (drop n t)
IsText-drop n t h p = (drop-ne-nil n t h, All-drop _ n t p.1)

prefix_left :
    (rs : Components) (path : Text)
    → All IsComponent rs
    → IsText path
    → compare_paths (render rs) path ≡ path1_is_prefix
    → IsText (drop (if strlen (render rs) == 1 then 0 else strlen (render rs)) path)
unfolding compare_paths
prefix_left [] path h p e = p
prefix_left (c ∷ cs) path h p e = elim (Bool-cases (strlen (body (c ∷ cs)) == 1)) [
  | inl one ↦ rw one p
  | inr more ↦ rw more (
      IsText-drop (strlen (body (c ∷ cs))) path
        (omega (
          arith,
          strip_length-body c cs h,
          strip_length-prefix (body (c ∷ cs)) (strlen (body (c ∷ cs))) path (strlen path) e,
          strip_length-le path,
        ))
        p)
]

pub if-Gives : (b : Bool) (x y : Sized) → Gives x → Gives y → Gives (if b then x else y)
if-Gives true x y hx hy = hx
if-Gives false x y hx hy = hy

IsText-root : IsText (slash ∷ [])
IsText-root = (λ e. cc, (omega arith, tt))

pub strip_root-Gives :
    (sanity_check : Bool) (rs : Components) (path : Text)
    → All IsComponent rs
    → IsText path
    → Gives (strip_root sanity_check (render rs) path)
unfolding strip_root
strip_root-Gives sanity_check rs path h p =
    elim (Comparison-cases (compare_paths (render rs) path)) [
      | inl e ↦ rw (e, strip_root) IsText-root
      | inr (inl e) ↦ rw (e, strip_root) (prefix_left rs path h p e)
      | inr (inr (inl e)) ↦ rw (e, strip_root) (if-Gives sanity_check _ _ tt p)
      | inr (inr (inr e)) ↦ rw (e, strip_root) (if-Gives sanity_check _ _ tt p)
    ]

abbrev all_stripped : Text → ℕ → Bool
all_stripped path n = (strlen path + size_mod - n) % size_mod == 0

-- Each case of the substitution.
to_root-IsText :
    (path : Text) (n : ℕ)
    → n ≤ strlen path
    → strlen path < path_max
    → IsText path
    → IsText (substitute_path_prefix path n (slash ∷ []) 1).1
unfolding substitute_path_prefix
to_root-IsText path n h fits p = elim (Bool-cases (all_stripped path n)) [
  | inl none_left ↦ rw none_left IsText-root
  | inr left ↦ rw left (IsText-drop n path (ground arith) p)
]

IsText-append : (t u : Text) → IsText t → All (λ c. c ≢ 0) u → IsText (t ++ u)
IsText-append [] u p q = absurd (p.0 refl)
IsText-append (a ∷ t) u p q = (λ e. cc, All-append _ (a ∷ t) u p.1 q)

from_root-IsText :
    (t path : Text)
    → 1 < strlen t
    → IsText t
    → IsText path
    → IsText (substitute_path_prefix path 1 t (strlen t)).1
unfolding substitute_path_prefix
from_root-IsText t path long p q =
    let more : (strlen t == 1) ≡ false = ground arith in
    rw (take-strlen t, more)
      (elim (Bool-cases (leb path_max (strlen t + strlen path))) [
        | inl over ↦ rw over q
        | inr fits ↦ rw fits (elim (Bool-cases (ltb 1 (strlen path))) [
          | inl some_left ↦ rw some_left (IsText-append t path p q.1)
          | inr bare ↦ rw bare p
        ])
      ])

between-IsText :
    (t path : Text) (n : ℕ)
    → 1 < strlen t
    → 1 < n
    → IsText t
    → IsText path
    → IsText (substitute_path_prefix path n t (strlen t)).1
unfolding substitute_path_prefix
between-IsText t path n long_t long_n p q =
    let more : (strlen t == 1) ≡ false = ground arith in
    let more_n : (n == 1) ≡ false = ground arith in
    let new_length = ((strlen path + size_mod - n) % size_mod + strlen t) % size_mod in
    rw (take-strlen t, more, more_n)
      (elim (Bool-cases (leb path_max new_length)) [
        | inl over ↦ rw over q
        | inr fits ↦ rw fits (IsText-append t (drop n path) p (All-drop _ n path q.1))
      ])

body-IsText : (c : Text) (cs : Components) → All IsComponent (c ∷ cs) → IsText (body (c ∷ cs))
body-IsText c cs h = (λ e. cc, render-plain (c ∷ cs) h)

-- A path that a binding holds is replaced by a text that is not empty.
substitute_path_prefix-IsText :
    (g h : Components) (path : Text)
    → All IsComponent g
    → All IsComponent h
    → is_equal (compare_components g h) ≡ false
    → strlen path < path_max
    → is_within (compare_paths2 (render g) (strlen (render g)) path (strlen path)) ≡ true
    → IsText path
    → IsText (substitute_path_prefix path (strlen (render g)) (render h) (strlen (render h))).1
unfolding compare_components
substitute_path_prefix-IsText [] [] path hg hh ne fits w p = cc
substitute_path_prefix-IsText [] (d ∷ h) path hg hh ne fits w p =
    from_root-IsText (body (d ∷ h)) path (1-lt-body d h hh.0) (body-IsText d h hh) p
substitute_path_prefix-IsText (c ∷ g) [] path hg hh ne fits w p =
    to_root-IsText path (strlen (body (c ∷ g)))
      (omega (
        arith,
        strip_length-body c g hg,
        strip_length-within (body (c ∷ g)) (strlen (body (c ∷ g))) path (strlen path) w,
        strip_length-le path,
      ))
      fits p
substitute_path_prefix-IsText (c ∷ g) (d ∷ h) path hg hh ne fits w p =
    between-IsText (body (d ∷ h)) path (strlen (body (c ∷ g))) (1-lt-body d h hh.0)
      (1-lt-body c g hg.0) (body-IsText d h hh) p

if-IsText :
    (c : Bool) (x y : Substituted × Text)
    → (c ≡ true → IsText x.1)
    → (c ≡ false → IsText y.1)
    → IsText (if c then x else y).1
if-IsText true x y f g = f refl
if-IsText false x y f g = g refl

substitute_with-IsText :
    (side : Side) (b : Binding) (path : Text)
    → Resolves side b
    → HoldsAt side path b
    → strlen path < path_max
    → IsText path
    → IsText (substitute_with side b path).1
unfolding substitute_with
substitute_with-IsText side b path h holds fits p =
    let binds = h.binds in
    if-IsText (not b.need_substitution) (symmetric, path) _ (λ plain. p)
      (λ moves.
        rw (binds.own.measured, binds.other.measured, binds.own.text, binds.other.text)
          (substitute_path_prefix-IsText h.own h.other path binds.own.names binds.other.names
            (ground (arith, binds.flag)) fits (rw (binds.own.measured, binds.own.text) at holds) p))

pub substituted_with-IsText :
    (fs : FileSystem) (side : Side) (path : Text) (found : Option Binding)
    → All (Resolves side) (head fs side)
    → get_binding fs side path ≡ found
    → strlen path < path_max
    → IsText path
    → IsText (substituted_with side path found).1
unfolding substituted_with get_binding
substituted_with-IsText fs side path none h e fits p = p
substituted_with-IsText fs side path (some b) h e fits p =
    let found = find_binding-found (Resolves side) fs side path (head fs side) h e in
    substitute_with-IsText side b path found.0 found.1 fits p
