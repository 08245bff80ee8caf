-- ===== src/Canon/Result.antt =====
-- What `canonicalize` leaves in `guest_path` is a resolved path.
use improot.Base.{
  ℕ, zero, suc, ◌<◌, ◌≡◌, ◌≢◌, ◌∙◌, sym, refl, ap, inl, inr, ◌⊎◌, Bool, true, false, List, [], ◌∷◌,
  arith, Bool-cases, leb, ltb, ◌==◌, not, if◌then◌else◌, Text, slash, char_at, strlen, All,
}
use mathlib.Core.Path.{subst}
use improot.Path.{
  eloop, einval, enametoolong, path_max, Finality, not_final, final_normal, final_slash, final_dot,
  is_final, next_component,
}
use improot.Path.Components.{IsPlain}
use improot.Path.Cursor.{
  Next-cases, next_component-names, next_component-nonzero, next_component-nil, names-relative,
}
use improot.Path.Split.{names}
use improot.Path.Names.{IsPath, IsText}
use improot.Binding.{Side, head}
use improot.Proc.{Tracee}
use improot.Proc.Links.{IsKnown}
use improot.Detranslate.Target.{HasRoot}
use improot.Canon.{Surroundings, answer, maxsymlinks, substitute_binding_stat}
use improot.Canon.Resolved.{Resolves}
use improot.Canon.Walk.{
  Outcome, ok, err, out_of_fuel, Round, next, early, stop, no_fuel, visit, close, proceed, walk,
  start, canonicalize,
}
use improot.Canon.Ending.{at_name, is_final-at_name, ending, ending-going, ending-final}
use improot.Canon.Follow.{Keeps, visit-Keeps, visit-root}

-- A resolved path, and behind it what a path of this ending puts there.
abbrev pub Leaves : ℕ → Finality → Outcome → Type 0
Leaves level f (ok t) = (g : Text) × IsPath g × (close level f g ≡ ok t)
Leaves level f (err e) = Unit
Leaves level f out_of_fuel = Unit

close-Leaves :
    (level : ℕ) (f : Finality) (g : Text) (o : Outcome)
    → IsPath g
    → close level f g ≡ o
    → Leaves level f o
close-Leaves level f g (ok t) h e = (g, h, e)
close-Leaves level f g (err x) h e = tt
close-Leaves level f g out_of_fuel h e = tt

-- Behind a symlink, nothing is put behind the path.
deep-close : (level : ℕ) (f : Finality) (g t : Text) → 0 < level → close level f g ≡ ok t → g ≡ t
unfolding close
deep-close level not_final g t h e = cc
deep-close level final_normal g t h e = cc
deep-close level final_slash g t h e = ground arith
deep-close level final_dot g t h e = ground arith

normal-close : (level : ℕ) (f : Finality) (g : Text) → f ≡ final_normal → close level f g ≡ ok g
unfolding close
normal-close level f g e = rw e refl

deep-IsPath : (level : ℕ) (f : Finality) (t : Text) → 0 < level → Leaves level f (ok t) → IsPath t
deep-IsPath level f t h (g, p, e) = subst IsPath (deep-close level f g t h e) p

-- `f` is the finality of the round, and `end` what the path ends in.
proceed-Leaves :
    (rest : Text → ℕ → Outcome) (level : ℕ) (f end : Finality) (r : Round)
    → Keeps f r
    → (is_final f ≡ true → f ≡ end)
    → (is_final f ≡ false → (g : Text) (links : ℕ) → IsPath g → Leaves level end (rest g links))
    → Leaves level end (proceed rest level r)
unfolding proceed
proceed-Leaves rest level f end (early g) k ends h =
    (g, k.0, normal-close level end g (sym (ends (rw k.1 refl)) ∙ k.1))
proceed-Leaves rest level f end (stop x) k ends h = tt
proceed-Leaves rest level f end no_fuel k ends h = tt
proceed-Leaves rest level f end (next g f' links) k ends h = elim (Bool-cases (is_final f')) [
  | inl final ↦
      let same : f' ≡ end = k.1 ∙ ends (ap is_final (sym k.1) ∙ final) in
      rw final
        (subst (λ x. Leaves level x (close level f' g)) same (close-Leaves level f' g _ k.0 refl))
  | inr going ↦ rw going (h (ap is_final (sym k.1) ∙ going) g links k.0)
]

if-Leaves :
    (level : ℕ) (f : Finality) (b : Bool) (x y : Outcome)
    → Leaves level f x
    → (b ≡ false → Leaves level f y)
    → Leaves level f (if b then x else y)
if-Leaves level f true x y hx hy = hx
if-Leaves level f false x y hx hy = hy refl

module _ (sys : Surroundings) (tracee : Tracee) (tracees : List Tracee) (known : IsKnown tracee)
    (all : All IsKnown tracees) (root : HasRoot tracee.fs)
    (guest : All (Resolves Side.guest) (head tracee.fs Side.guest))
    (host : All (Resolves Side.host) (head tracee.fs Side.host))
    (targets : (p t : Text) → sys.readlink p ≡ answer t → IsText t)
    (rooted : (f : Finality) (level : ℕ) (h : Text)
      → substitute_binding_stat sys tracee f level (slash ∷ []) ≢ answer (true, h)) where
  module _ (recurse : Text → Text → ℕ → Outcome) (deref_final : Bool) (level : ℕ)
      (resolves : (t b g : Text) (l : ℕ)
        → 0 < l
        → IsText t
        → IsPath b
        → recurse t b l ≡ ok g
        → IsPath g) where
    visit-any :
        (c : Text) (f : Finality) (g : Text) (links : ℕ)
        → IsPath g
        → IsPlain c
        → (c ≡ [] → g ≡ slash ∷ [])
        → Keeps (at_name c f) (visit sys tracee tracees recurse deref_final level c f g links)
    visit-any [] f g links hg hc h = rw (h refl) (
        visit-root sys tracee tracees known all root guest host targets recurse deref_final level
          resolves (λ f. rooted f level) f links)
    visit-any (a ∷ c) f g links hg hc h =
        visit-Keeps sys tracee tracees known all root guest host targets recurse deref_final level
          resolves (λ f. rooted f level) (a ∷ c) f g links hg ((λ e. cc), hc)

    walk-Leaves :
        (fuel : ℕ) (cursor g : Text) (links : ℕ)
        → All (λ a. a ≢ 0) cursor
        → (names cursor ≡ [] → g ≡ slash ∷ [])
        → IsPath g
        → Leaves level
            (ending cursor)
            (walk sys tracee tracees recurse deref_final level fuel cursor g links)
    unfolding walk
    walk-Leaves zero cursor g links hc h hg = tt
    walk-Leaves (suc fuel) cursor g links hc h hg = elim (Next-cases (next_component cursor)) [
      | inl e ↦ rw (e, walk) tt
      | inr (c, f, cursor', e) ↦
          let (en, plain, short, ends, shorter) = next_component-names cursor hc e in
          rw (e, walk)
            (proceed-Leaves (walk sys tracee tracees recurse deref_final level fuel cursor') level
              (at_name c f) (ending cursor)
              (visit sys tracee tracees recurse deref_final level c f g links)
              (visit-any c f g links hg plain (λ nil. h (next_component-nil cursor (rw nil at e))))
              (λ final. ending-final cursor hc e (sym (is_final-at_name c f) ∙ final))
              λ final g' links' hg'.
                let going : is_final f ≡ false = sym (is_final-at_name c f) ∙ final in
                subst
                  (λ x.
                    Leaves level x
                      (walk sys tracee tracees recurse deref_final level fuel cursor' g' links'))
                  (ending-going cursor hc e going)
                  (walk-Leaves fuel cursor' g' links' (next_component-nonzero cursor hc e)
                    (λ nil. absurd (ground (arith, ends.1 nil))) hg'))
    ]

    start-Leaves :
        (user_path g : Text)
        → IsText user_path
        → IsPath g
        → Leaves level
            (ending user_path)
            (start sys tracee tracees recurse user_path deref_final g level)
    unfolding start
    start-Leaves user_path g hu hg =
        if-Leaves level (ending user_path) (ltb maxsymlinks level) (err eloop) _ tt λ shallow.
          if-Leaves level (ending user_path) (leb path_max (strlen g)) (err enametoolong) _ tt
            λ fits. absolute (Bool-cases (char_at user_path 0 == slash))
      where
        absolute :
            ((char_at user_path 0 == slash) ≡ true) ⊎ ((char_at user_path 0 == slash) ≡ false)
            → Leaves level (ending user_path) (
                if char_at user_path 0 == slash
                then walk sys tracee tracees recurse deref_final level
                    (suc (strlen user_path))
                    user_path
                    (slash ∷ [])
                    0
                else if not (char_at g 0 == slash)
                then err einval
                else walk sys tracee tracees recurse deref_final level
                    (suc (strlen user_path))
                    user_path
                    g
                    0)
        absolute (inl e) = rw e (
            walk-Leaves (suc (strlen user_path)) user_path (slash ∷ []) 0 hu.1 (λ n. refl)
              (([], tt, refl), omega arith))
        absolute (inr ne) = rw ne (
            if-Leaves level (ending user_path) (not (char_at g 0 == slash)) (err einval) _ tt
              λ based.
                walk-Leaves (suc (strlen user_path)) user_path g 0 hu.1
                  (λ nil. absurd (names-relative user_path hu.0 (ground arith) nil)) hg)

  canonicalize-Leaves :
      (fuel : ℕ) (user_path : Text) (deref_final : Bool) (g : Text) (level : ℕ)
      → IsText user_path
      → IsPath g
      → Leaves level
          (ending user_path)
          (canonicalize sys tracee tracees fuel user_path deref_final g level)
  unfolding canonicalize
  canonicalize-Leaves zero user_path deref_final g level hu hg = tt
  canonicalize-Leaves (suc fuel) user_path deref_final g level hu hg =
      start-Leaves _ deref_final level
        (λ t b g' l deep ht hb e.
          deep-IsPath l (ending t) g' deep
            (subst (Leaves l (ending t)) e (canonicalize-Leaves fuel t true b l ht hb)))
        user_path g hu hg

  -- When `canonicalize` succeeds, it leaves a resolved path that fits the buffer, with no `.` or
  -- `..` and no empty name in it, and behind that, at recursion level 0, the separator or the dot
  -- that the user's path ended in, as its bytes show. The conditions: the user's path and every target that
  -- readlink(2) answers are C strings that are not empty; the base is a resolved path that fits
  -- the buffer, and the two ends of every binding, and the root, are resolved paths; the known
  -- tracees have an executable and a working directory; the guest's `/` is no symlink.
  pub canonicalize-result :
      (fuel : ℕ) (user_path : Text) (deref_final : Bool) (g : Text) (level : ℕ) {t : Text}
      → IsText user_path
      → IsPath g
      → canonicalize sys tracee tracees fuel user_path deref_final g level ≡ ok t
      → (h : Text) × IsPath h × (close level (ending user_path) h ≡ ok t)
  canonicalize-result fuel user_path deref_final g level hu hg e =
      subst (Leaves level (ending user_path)) e
        (canonicalize-Leaves fuel user_path deref_final g level hu hg)
