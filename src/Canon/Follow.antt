-- ===== src/Canon/Follow.antt =====
-- A round of `canonicalize` keeps the guest path resolved.
use improot.Base.{
  ℕ, suc, ◌+◌, ◌<◌, ◌≡◌, ◌≢◌, refl, inl, inr, Bool, true, false, not, ◌&&◌, ◌||◌, some, List, [],
  ◌∷◌, arith, Bool-cases, leb, if◌then◌else◌, Text, slash, strlen, codes, text_eq, All,
}
use improot.Path.{
  Status, success, failure, Finality, final_normal, join_paths, join_loop, join_one, compare_paths,
  is_within, path_max,
}
use improot.Path.Components.{IsComponent}
use improot.Path.Names.{IsName, IsResolved, IsPath, IsText}
use improot.Binding.{Side, head}
use improot.Proc.{Tracee, Action, proc}
use improot.Proc.Links.{IsUsable, IsKnown, readlink_proc-IsUsable}
use improot.Detranslate.{Sized, sized, failed}
use improot.Detranslate.Texts.{Gives}
use improot.Detranslate.Target.{HasRoot, detranslate_path-Gives}
use improot.Canon.{Surroundings, Answer, answer, error, substitute_binding_stat}
use improot.Canon.Resolved.{Resolves, join-IsPath, pop-IsPath, substitute_binding-IsResolved}
use improot.Canon.Ending.{at_name}
use improot.Canon.Walk.{
  Outcome, ok, err, out_of_fuel, Round, next, early, stop, no_fuel, Referee, canon, final_path,
  no_referee, is_final_normal, joined, sized_referee, proc_base, read_target, act, dereference,
  after_recursion, follow, after_stat, after_join, visit,
}

-- What a symlink may refer to.
abbrev pub Refers : Finality → Referee → Type 0
Refers f (canon t) = IsText t
Refers f (final_path t) = IsPath t × (f ≡ final_normal)
Refers f (no_referee e) = Unit

-- How a round may end: with the finality `f`, which is of a normal end if it ends early.
abbrev pub Keeps : Finality → Round → Type 0
Keeps f (next g f' links) = IsPath g × (f' ≡ f)
Keeps f (early g) = IsPath g × (f ≡ final_normal)
Keeps f (stop e) = Unit
Keeps f no_fuel = Unit

sized_referee-Refers : (f : Finality) (s : Sized) → Gives s → Refers f (sized_referee s)
unfolding sized_referee
sized_referee-Refers f (sized n t) h = h
sized_referee-Refers f (failed e) h = tt

if-Refers :
    (f : Finality) (b : Bool) (x y : Referee)
    → (b ≡ true → Refers f x)
    → Refers f y
    → Refers f (if b then x else y)
if-Refers f true x y hx hy = hx refl
if-Refers f false x y hx hy = hy

is_normal : (f : Finality) → is_final_normal f ≡ true → f ≡ final_normal
is_normal f e = ground arith

joined-Keeps :
    (g c : Text) (f : Finality) (links : ℕ) (r : Status × Text)
    → IsPath g
    → IsName c
    → join_paths (some g ∷ some c ∷ []) ≡ r
    → Keeps f (joined r f links)
unfolding joined
joined-Keeps g c f links (success, t) hg hc e = (join-IsPath g c hg hc e, refl)
joined-Keeps g c f links (failure x, t) hg hc e = tt

module _ (sys : Surroundings) (tracee : Tracee) (tracees : List Tracee) (known : IsKnown tracee)
    (all : All IsKnown tracees) (root : HasRoot tracee.fs)
    (guest : All (Resolves Side.guest) (head tracee.fs Side.guest))
    (host : All (Resolves Side.host) (head tracee.fs Side.host))
    (targets : (p t : Text) → sys.readlink p ≡ answer t → IsText t) where
  read_target-Refers :
      (f : Finality) (host_path : Text) (a : Answer Text)
      → sys.readlink host_path ≡ a
      → Refers f (read_target sys tracee tracees host_path a)
  unfolding read_target
  read_target-Refers f host_path (error e) h = tt
  read_target-Refers f host_path (answer t) h =
      if-Refers f (leb path_max (strlen t)) _ _ (λ e. tt)
        (sized_referee-Refers f _ (
          detranslate_path-Gives tracee tracees known all root host t host_path
            (targets host_path t h)))

  act-Refers :
      (a : Action) (f : Finality) (host_path : Text)
      → IsUsable a
      → Refers f (act sys tracee tracees a f host_path)
  unfolding act
  act-Refers Action.default f host_path h = read_target-Refers f host_path _ refl
  act-Refers (Action.canonicalize t) f host_path h = h
  act-Refers (Action.dont_canonicalize t) f host_path h =
      if-Refers f (is_final_normal f) _ _ (λ e. (h, is_normal f e))
        (read_target-Refers f host_path _ refl)
  act-Refers (Action.failed e) f host_path h = tt

  proc_base-IsResolved : (g : Text) → IsPath g → IsResolved (proc_base sys tracee tracees g)
  unfolding proc_base
  proc_base-IsResolved g h = elim (Bool-cases (is_within (compare_paths proc g))) [
    | inl inside ↦ rw inside h.0
    | inr outside ↦ rw outside (substitute_binding-IsResolved tracee.fs Side.guest g guest h)
  ]

  dereference-Refers :
      (g c : Text) (f : Finality) (host_path : Text)
      → IsPath g
      → IsName c
      → Refers f (dereference sys tracee tracees g c f host_path)
  unfolding dereference
  dereference-Refers g c f host_path hg hc = act-Refers _ f host_path (
      readlink_proc-IsUsable tracee tracees known all (proc_base sys tracee tracees g) c
        (proc_base-IsResolved g hg) hc)

  module _ (recurse : Text → Text → ℕ → Outcome) (deref_final : Bool) (level : ℕ)
      (resolves : (t b g : Text) (l : ℕ)
        → 0 < l
        → IsText t
        → IsPath b
        → recurse t b l ≡ ok g
        → IsPath g)
      (rooted : (f : Finality) (h : Text)
        → substitute_binding_stat sys tracee f level (slash ∷ []) ≢ answer (true, h)) where
    after_recursion-Keeps :
        (f : Finality) (links : ℕ) (o : Outcome)
        → ((g : Text) → o ≡ ok g → IsPath g)
        → Keeps f (after_recursion sys tracee tracees recurse deref_final level f links o)
    unfolding after_recursion
    after_recursion-Keeps f links (err e) h = tt
    after_recursion-Keeps f links out_of_fuel h = tt
    after_recursion-Keeps f links (ok g) h = checked (substitute_binding_stat sys tracee f level g)
      where
        checked :
            (a : Answer (Bool × Text))
            → Keeps f (elim a [ error e ↦ stop e | answer p ↦ next g f links ])
        checked (error e) = tt
        checked (answer p) = (h g refl, refl)

    follow-Keeps :
        (f : Finality) (g : Text) (links : ℕ) (r : Referee)
        → IsPath g
        → Refers f r
        → Keeps f (follow sys tracee tracees recurse deref_final level f g links r)
    unfolding follow
    follow-Keeps f g links (no_referee e) hg h = tt
    follow-Keeps f g links (final_path t) hg h = h
    follow-Keeps f g links (canon t) hg h =
        after_recursion-Keeps f (suc links) (recurse t g (level + suc links))
          (λ g' e. resolves t g g' (level + suc links) (omega arith) h hg e)

    after_stat-Keeps :
        (c : Text) (f : Finality) (g : Text) (links : ℕ) (a : Answer (Bool × Text))
        → IsPath g
        → IsName c
        → Keeps f (after_stat sys tracee tracees recurse deref_final level c f g links a)
    unfolding after_stat
    after_stat-Keeps c f g links (error e) hg hc = tt
    after_stat-Keeps c f g links (answer (is_symlink, host_path)) hg hc =
        elim (Bool-cases (not is_symlink || (is_final_normal f && not deref_final))) [
          | inl plain ↦ rw plain (joined-Keeps g c f links _ hg hc refl)
          | inr link ↦
              rw link (follow-Keeps f g links _ hg (dereference-Refers g c f host_path hg hc))
        ]

    after_join-Keeps :
        (c : Text) (f : Finality) (g : Text) (links : ℕ) (s : Status × Text)
        → IsPath g
        → IsName c
        → Keeps f (after_join sys tracee tracees recurse deref_final level c f g links s)
    unfolding after_join
    after_join-Keeps c f g links (failure e, t) hg hc = tt
    after_join-Keeps c f g links (success, t) hg hc = after_stat-Keeps c f g links _ hg hc

    -- A round at a name.
    pub visit-Keeps :
        (c : Text) (f : Finality) (g : Text) (links : ℕ)
        → IsPath g
        → IsComponent c
        → Keeps (at_name c f) (visit sys tracee tracees recurse deref_final level c f g links)
    unfolding visit
    visit-Keeps c f g links hg hc = elim (Bool-cases (text_eq c (codes "."))) [
      | inl dot ↦ rw dot (hg, refl)
      | inr other ↦ rw other (elim (Bool-cases (text_eq c (codes ".."))) [
        | inl dots ↦ rw dots (pop-IsPath g hg, refl)
        | inr more ↦ rw more (after_join-Keeps c f g links _ hg (hc, other, more))
      ])
    ]

    pub IsPath-root : IsPath (slash ∷ [])
    IsPath-root = (([], tt, refl), omega arith)

    root-stat :
        (f : Finality) (links : ℕ) (a : Answer (Bool × Text))
        → ((h : Text) → a ≢ answer (true, h))
        → Keeps f
            (after_stat sys tracee tracees recurse deref_final level [] f (slash ∷ []) links a)
    unfolding after_stat joined join_paths join_loop join_one
    root-stat f links (error e) n = tt
    root-stat f links (answer (true, h)) n = absurd (n h refl)
    root-stat f links (answer (false, h)) n = (IsPath-root, refl)

    -- The round at the end of a path of separators.
    pub visit-root :
        (f : Finality) (links : ℕ)
        → Keeps f (visit sys tracee tracees recurse deref_final level [] f (slash ∷ []) links)
    unfolding visit after_join join_paths join_loop join_one
    visit-root f links = root-stat f links _ (rooted f)
