-- ===== src/Translate/Sound.antt =====
-- What `translate_path` answers.
use improot.Base.{
  ℕ, ◌≡◌, ◌≢◌, ◌⊎◌, inl, inr, ◌++◌, some, refl, Bool, true, false, not, List, [], ◌∷◌, arith, leb,
  ◌==◌, if◌then◌else◌, All, Text, slash, char_at, strlen,
}
use mathlib.Core.Path.{subst}
use improot.Path.{enotdir, ebadf, enametoolong, path_max, Finality, Status, success, failure}
use improot.Path.Names.{IsPath, IsText}
use improot.Binding.{Side, head, Substituted, not_bound, symmetric, asymmetric, substitute_binding}
use improot.Proc.{Tracee}
use improot.Proc.Links.{IsKnown}
use improot.Detranslate.{Sized, sized, failed}
use improot.Detranslate.Texts.{Gives}
use improot.Detranslate.Target.{HasRoot, detranslate_path-alone}
use improot.Canon.{Surroundings, Answer, answer, error, substitute_binding_stat}
use improot.Canon.Walk.{Outcome, ok, err, out_of_fuel, close, canonicalize}
use improot.Canon.Resolved.{Resolves}
use improot.Canon.Result.{canonicalize-result}
use improot.Translate.{
  Guest, refuses, passes, handles, Extensions, at_fdcwd, fd_path, read_fd, readlink_proc_pid_fd,
  getcwd2, sized_answer, directory_base, base_path, notified, to_host, after_canonicalize,
  joined_base, after_guest, from_base, translate_path,
}
use improot.Canon.Ending.{ending}
use improot.Path.{join_paths}
use improot.Path.Split.{names}
use improot.Path.Components.{Components}
use improot.Translate.Ends.{join_paths-names}
use improot.Translate.Joins.{Left, join_paths-Left}

abbrev Answers : Answer Text → Type 0
Answers (answer t) = IsText t
Answers (error e) = Unit

if-Answers : (b : Bool) (x y : Answer Text) → Answers x → Answers y → Answers (if b then x else y)
if-Answers true x y hx hy = hx
if-Answers false x y hx hy = hy

sized-Answers : (s : Sized) → Gives s → Answers (sized_answer s)
sized-Answers (sized n t) h = h
sized-Answers (failed e) h = tt

-- What a successful translation of the text `j` has found: a resolved path of the guest, with what
-- the text ends in behind it, bound, and what the extensions make of its host path.
abbrev pub Reaches :
    Surroundings → Extensions → Tracee → List Tracee → ℕ → Bool → Text → Text → Type 0
Reaches sys ext tracee tracees fuel deref_final j r =
    (h t : Text) × (canonicalize sys tracee tracees fuel j deref_final (slash ∷ []) 0 ≡ ok t)
    × IsPath h
    × (close 0 (ending j) h ≡ ok t)
    × (let s = substitute_binding tracee.fs Side.guest t in
        (s.0 ≢ not_bound) × (ext.translated_path s.1 ≡ answer r))

-- What a successful translation of a user's path has found: its base, what the extensions make of
-- that, and the text of both, which has the names of the base and then those of the user's path, and
-- ends as the user's path does, if this has a name.
abbrev pub Translates :
    Surroundings → Extensions → Tracee → List Tracee → ℕ → ℕ → Text → Bool → Text → Type 0
Translates sys ext tracee tracees fuel dir_fd user_path deref_final r =
    (base c j : Text) × (base_path sys tracee tracees dir_fd user_path ≡ answer base)
    × (ext.guest_path base user_path ≡ passes c)
    × (names j ≡ names c ++ names user_path)
    × ((names user_path ≡ []) ⊎ (ending j ≡ ending user_path))
    × Reaches sys ext tracee tracees fuel deref_final j r

abbrev IsReached :
    Surroundings → Extensions → Tracee → List Tracee → ℕ → Bool → Text → Outcome → Type 0
IsReached sys ext tracee tracees fuel deref_final j (ok r) =
    Reaches sys ext tracee tracees fuel deref_final j r
IsReached sys ext tracee tracees fuel deref_final j (err e) = Unit
IsReached sys ext tracee tracees fuel deref_final j out_of_fuel = Unit

abbrev IsSound :
    Surroundings → Extensions → Tracee → List Tracee → ℕ → ℕ → Text → Bool → Outcome → Type 0
IsSound sys ext tracee tracees fuel dir_fd user_path deref_final (ok r) =
    Translates sys ext tracee tracees fuel dir_fd user_path deref_final r
IsSound sys ext tracee tracees fuel dir_fd user_path deref_final (err e) = Unit
IsSound sys ext tracee tracees fuel dir_fd user_path deref_final out_of_fuel = Unit

nil-cases : (cs : Components) → (cs ≡ []) ⊎ (cs ≢ [])
nil-cases [] = inl refl
nil-cases (c ∷ cs) = inr (λ e. cc e)

module _ (sys : Surroundings) (ext : Extensions) (tracee : Tracee) (tracees : List Tracee)
    (known : IsKnown tracee) (all : All IsKnown tracees) (root : HasRoot tracee.fs)
    (guest : All (Resolves Side.guest) (head tracee.fs Side.guest))
    (host : All (Resolves Side.host) (head tracee.fs Side.host))
    (targets : (p t : Text) → sys.readlink p ≡ answer t → IsText t)
    (rooted : (f : Finality) (level : ℕ) (h : Text)
      → substitute_binding_stat sys tracee f level (slash ∷ []) ≢ answer (true, h))
    (bases : (b u c : Text) → IsText b → ext.guest_path b u ≡ passes c → IsText c)
    (leaves : (b u c : Text) → ext.guest_path b u ≢ handles c) where
  read_fd-Answers : (p : Text) (a : Answer Text) → sys.readlink p ≡ a → Answers (read_fd a)
  read_fd-Answers p (error e) h = tt
  read_fd-Answers p (answer t) h =
      if-Answers (leb path_max (strlen t)) (error enametoolong) _ tt (targets p t h)

  directory_base-Answers : (a : Answer Text) → Answers a → Answers (directory_base tracee tracees a)
  unfolding directory_base
  directory_base-Answers (error e) h = tt
  directory_base-Answers (answer t) h =
      if-Answers (not (char_at t 0 == slash)) (error enotdir) _ tt
        (sized-Answers _ (detranslate_path-alone tracee tracees known all root host t h))

  base_path-Answers :
      (dir_fd : ℕ) (user_path : Text) → Answers (base_path sys tracee tracees dir_fd user_path)
  unfolding base_path readlink_proc_pid_fd getcwd2
  base_path-Answers dir_fd user_path =
      let fs = tracee.fs in
      if-Answers (char_at user_path 0 == slash) (answer (slash ∷ [])) _ (λ e. cc, (omega arith, tt))
        (if-Answers (not (dir_fd == at_fdcwd)) _ _
          (directory_base-Answers _ (
            if-Answers (leb 32 (strlen (fd_path tracee.pid dir_fd))) (error ebadf) _ tt
              (read_fd-Answers (fd_path tracee.pid dir_fd) _ refl)))
          (if-Answers (leb path_max (strlen fs.cwd)) (error enametoolong) _ tt known.cwd))

  module _ (fuel : ℕ) (deref_final : Bool) where
    abbrev Found : Text → Outcome → Type 0
    Found j o = IsReached sys ext tracee tracees fuel deref_final j o

    notified-Found :
        (j h t : Text) (s : Substituted × Text) (a : Answer Text)
        → canonicalize sys tracee tracees fuel j deref_final (slash ∷ []) 0 ≡ ok t
        → IsPath h
        → close 0 (ending j) h ≡ ok t
        → substitute_binding tracee.fs Side.guest t ≡ s
        → s.0 ≢ not_bound
        → ext.translated_path s.1 ≡ a
        → Found j (notified a)
    unfolding notified
    notified-Found j h t s (error e) run path closed sub bound told = tt
    notified-Found j h t s (answer r) run path closed sub bound told =
        (h, t, run, path, closed, (rw sub bound, rw sub told))

    to_host-Found :
        (j h t : Text) (s : Substituted × Text)
        → canonicalize sys tracee tracees fuel j deref_final (slash ∷ []) 0 ≡ ok t
        → IsPath h
        → close 0 (ending j) h ≡ ok t
        → substitute_binding tracee.fs Side.guest t ≡ s
        → Found j (to_host ext s)
    unfolding to_host
    to_host-Found j h t (not_bound, p) run path closed sub = tt
    to_host-Found j h t (symmetric, p) run path closed sub =
        notified-Found j h t (symmetric, p) _ run path closed sub (λ e. cc) refl
    to_host-Found j h t (asymmetric, p) run path closed sub =
        notified-Found j h t (asymmetric, p) _ run path closed sub (λ e. cc) refl

    after_canonicalize-Found :
        (j : Text) (o : Outcome)
        → IsText j
        → canonicalize sys tracee tracees fuel j deref_final (slash ∷ []) 0 ≡ o
        → Found j (after_canonicalize ext tracee o)
    unfolding after_canonicalize
    after_canonicalize-Found j (err e) p run = tt
    after_canonicalize-Found j out_of_fuel p run = tt
    after_canonicalize-Found j (ok t) p run =
        let (h, path, closed) =
          canonicalize-result sys tracee tracees known all root guest host targets rooted fuel j
            deref_final (slash ∷ []) 0 {t = t} p (([], tt, refl), omega arith) run in
        to_host-Found j h t _ run path closed refl

    module _ (dir_fd : ℕ) (user_path : Text) (plain : All (λ c. c ≢ 0) user_path) where
      abbrev Sound : Outcome → Type 0
      Sound o = IsSound sys ext tracee tracees fuel dir_fd user_path deref_final o

      reached-Sound :
          (base c j : Text) (o : Outcome)
          → base_path sys tracee tracees dir_fd user_path ≡ answer base
          → ext.guest_path base user_path ≡ passes c
          → names j ≡ names c ++ names user_path
          → (names user_path ≡ []) ⊎ (ending j ≡ ending user_path)
          → Found j o
          → Sound o
      reached-Sound base c j (err e) from told spelt ends h = tt
      reached-Sound base c j out_of_fuel from told spelt ends h = tt
      reached-Sound base c j (ok r) from told spelt ends h =
          (base, c, j, from, told, spelt, ends, h)

      joined_base-Sound :
          (base c : Text) (s : Status × Text)
          → base_path sys tracee tracees dir_fd user_path ≡ answer base
          → ext.guest_path base user_path ≡ passes c
          → IsText c
          → join_paths (some c ∷ some user_path ∷ []) ≡ s
          → Left s
          → Sound (joined_base sys ext tracee tracees fuel deref_final s)
      unfolding joined_base
      joined_base-Sound base c (failure e, j) from told p join left = tt
      joined_base-Sound base c (success, j) from told p join left =
          let (spelt, ends) = join_paths-names c user_path {t = j} p.0 join in
          reached-Sound base c j _ from told spelt
            (elim (nil-cases (names user_path)) [ inl n ↦ inl n | inr named ↦ inr (ends named) ])
            (after_canonicalize-Found j _ left refl)

      after_guest-Sound :
          (base : Text) (g : Guest)
          → base_path sys tracee tracees dir_fd user_path ≡ answer base
          → IsText base
          → ext.guest_path base user_path ≡ g
          → Sound (after_guest sys ext tracee tracees fuel user_path deref_final g)
      unfolding after_guest
      after_guest-Sound base (refuses e) from p told = tt
      after_guest-Sound base (handles t) from p told = absurd (leaves base user_path t told)
      after_guest-Sound base (passes c) from p told =
          joined_base-Sound base c _ from told (bases base user_path c p told) refl
            (join_paths-Left c user_path (bases base user_path c p told) plain)

      from_base-Sound :
          (a : Answer Text)
          → base_path sys tracee tracees dir_fd user_path ≡ a
          → Answers a
          → Sound (from_base sys ext tracee tracees fuel user_path deref_final a)
      unfolding from_base
      from_base-Sound (error e) from h = tt
      from_base-Sound (answer base) from h = after_guest-Sound base _ from h refl

  -- When `translate_path` succeeds, it has joined the user's path to its base, as the extensions
  -- have changed that: the names of the text are those of the base and then those of the user's
  -- path, and it ends as the user's path does, if this has a name. It has resolved this text to a
  -- resolved path of the guest that fits the buffer, with the separator or the dot that the text
  -- ended in; this path is bound, and the result is what the extensions make of the host path that
  -- `substitute_binding` finds for it. The user's path may be any C string. The conditions are
  -- those of `canonicalize-result`, and that the extensions never give the result for a guest path
  -- themselves nor make a base empty.
  pub translate_path-Translates :
      (fuel dir_fd : ℕ) (user_path : Text) (deref_final : Bool) {r : Text}
      → All (λ c. c ≢ 0) user_path
      → translate_path sys ext tracee tracees fuel dir_fd user_path deref_final ≡ ok r
      → Translates sys ext tracee tracees fuel dir_fd user_path deref_final r
  unfolding translate_path
  translate_path-Translates fuel dir_fd user_path deref_final q run =
      subst (IsSound sys ext tracee tracees fuel dir_fd user_path deref_final) run (
        from_base-Sound fuel deref_final dir_fd user_path q _ refl
          (base_path-Answers dir_fd user_path))
