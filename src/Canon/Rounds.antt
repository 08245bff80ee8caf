-- ===== src/Canon/Rounds.antt =====
-- A round of `canonicalize` keeps whether its component was the final one, and ends unless the
-- recursion does not.
use improot.Base.{
  ℕ, suc, ◌+◌, ◌<◌, ◌≡◌, ◌≢◌, refl, inl, inr, Bool, true, not, ◌&&◌, ◌||◌, List, arith, Bool-cases,
  Text, codes, text_eq,
}
use improot.Path.{Status, success, failure, Finality, final_slash, final_dot, is_final}
use improot.Proc.{Tracee}
use improot.Canon.{Surroundings, Answer, answer, error, substitute_binding_stat}
use improot.Canon.Walk.{
  Outcome, ok, err, out_of_fuel, Round, next, early, stop, no_fuel, Referee, canon, final_path,
  no_referee, final_as, joined, after_recursion, follow, after_stat, after_join, visit,
  is_final_normal,
}

-- A round that goes on does so with a finality of the same kind, and a round has an end.
abbrev pub Goes : Finality → Round → Type 0
Goes finality (next guest_path f links) = is_final f ≡ is_final finality
Goes finality (early guest_path) = Unit
Goes finality (stop e) = Unit
Goes finality no_fuel = ⊥

joined-Goes : (r : Status × Text) (f : Finality) (links : ℕ) → Goes f (joined r f links)
unfolding joined
joined-Goes (success, g) f links = refl
joined-Goes (failure e, g) f links = tt

pub is_final-final_as : (g f : Finality) → is_final g ≡ true → is_final (final_as g f) ≡ is_final f
is_final-final_as g f h = ground arith

module _ (sys : Surroundings) (tracee : Tracee) (tracees : List Tracee)
    (recurse : Text → Text → ℕ → Outcome) (deref_final : Bool) (level : ℕ)
    (ends : (t b : Text) (l : ℕ) → level < l → recurse t b l ≢ out_of_fuel) where
  after_recursion-Goes :
      (f : Finality) (links : ℕ) (o : Outcome)
      → o ≢ out_of_fuel
      → Goes f (after_recursion sys tracee tracees recurse deref_final level f links o)
  unfolding after_recursion
  after_recursion-Goes f links (err e) h = tt
  after_recursion-Goes f links out_of_fuel h = h refl
  after_recursion-Goes f links (ok g) h = checked (substitute_binding_stat sys tracee f level g)
    where
      checked :
          (a : Answer (Bool × Text))
          → Goes f (elim a [ error e ↦ stop e | answer p ↦ next g f links ])
      checked (error e) = tt
      checked (answer p) = refl

  follow-Goes :
      (f : Finality) (g : Text) (links : ℕ) (r : Referee)
      → Goes f (follow sys tracee tracees recurse deref_final level f g links r)
  unfolding follow
  follow-Goes f g links (no_referee e) = tt
  follow-Goes f g links (final_path t) = tt
  follow-Goes f g links (canon t) =
      after_recursion-Goes f (suc links) (recurse t g (level + suc links))
        (ends t g (level + suc links) (omega arith))

  after_stat-Goes :
      (name : Text) (f : Finality) (g : Text) (links : ℕ) (a : Answer (Bool × Text))
      → Goes f (after_stat sys tracee tracees recurse deref_final level name f g links a)
  unfolding after_stat
  after_stat-Goes name f g links (error e) = tt
  after_stat-Goes name f g links (answer (is_symlink, host_path)) =
      elim (Bool-cases (not is_symlink || (is_final_normal f && not deref_final))) [
        | inl plain ↦ rw plain (joined-Goes _ f links)
        | inr link ↦ rw link (follow-Goes f g links _)
      ]

  after_join-Goes :
      (name : Text) (f : Finality) (g : Text) (links : ℕ) (s : Status × Text)
      → Goes f (after_join sys tracee tracees recurse deref_final level name f g links s)
  unfolding after_join
  after_join-Goes name f g links (failure e, t) = tt
  after_join-Goes name f g links (success, t) = after_stat-Goes name f g links _

  pub visit-Goes :
      (name : Text) (f : Finality) (g : Text) (links : ℕ)
      → Goes f (visit sys tracee tracees recurse deref_final level name f g links)
  unfolding visit
  visit-Goes name f g links = elim (Bool-cases (text_eq name (codes "."))) [
    | inl dot ↦ rw dot (is_final-final_as final_dot f refl)
    | inr other ↦ rw other (elim (Bool-cases (text_eq name (codes ".."))) [
      | inl dots ↦ rw dots (is_final-final_as final_slash f refl)
      | inr more ↦ rw more (after_join-Goes name f g links _)
    ])
  ]
