-- ===== src/Canon/Ends.antt =====
-- `canonicalize` ends: the loop runs out of names, and the recursion out of levels.
use improot.Base.{
  ℕ, zero, suc, ◌+◌, ◌≤◌, ◌<◌, ◌≡◌, ◌≢◌, ◌∙◌, sym, inl, inr, Bool, true, false, List, [], ◌∷◌,
  arith, Bool-cases, ltb, ◌==◌, Text, slash, strlen,
}
use improot.Path.{
  eloop, Status, success, failure, Finality, not_final, final_normal, final_slash, final_dot,
  is_final, next_component,
}
use improot.Path.Cursor.{next_component-shorter, Next-cases}
use improot.Proc.{Tracee}
use improot.Canon.{Surroundings, maxsymlinks}
use improot.Canon.Walk.{
  Outcome, err, out_of_fuel, Round, next, early, stop, no_fuel, visit, closed, close, proceed, walk,
  start, canonicalize,
}
use improot.Canon.Rounds.{Goes, visit-Goes}

closed-ends : (r : Status × Text) → closed r ≢ out_of_fuel
unfolding closed
closed-ends (success, g) e = cc
closed-ends (failure x, g) e = cc

close-ends : (level : ℕ) (f : Finality) (g : Text) → close level f g ≢ out_of_fuel
unfolding close
close-ends level not_final g = λ e. cc
close-ends level final_normal g = λ e. cc
close-ends level final_slash g = elim (Bool-cases (level == 0)) [
  | inl e ↦ rw e (closed-ends _)
  | inr ne ↦ rw ne (λ e. cc)
]
close-ends level final_dot g = elim (Bool-cases (level == 0)) [
  | inl e ↦ rw e (closed-ends _)
  | inr ne ↦ rw ne (λ e. cc)
]

proceed-ends :
    (rest : Text → ℕ → Outcome) (level : ℕ) (f : Finality) (r : Round)
    → Goes f r
    → (is_final f ≡ false → (g : Text) (links : ℕ) → rest g links ≢ out_of_fuel)
    → proceed rest level r ≢ out_of_fuel
unfolding proceed
proceed-ends rest level f (early g) goes h = λ e. cc
proceed-ends rest level f (stop x) goes h = λ e. cc
proceed-ends rest level f no_fuel goes h = absurd goes
proceed-ends rest level f (next g f' links) goes h = elim (Bool-cases (is_final f')) [
  | inl final ↦ rw final (close-ends level f' g)
  | inr going ↦ rw going (h (sym goes ∙ going) g links)
]

module _ (sys : Surroundings) (tracee : Tracee) (tracees : List Tracee) where
  module _ (recurse : Text → Text → ℕ → Outcome) (deref_final : Bool) (level : ℕ)
      (ends : (t b : Text) (l : ℕ) → level < l → recurse t b l ≢ out_of_fuel) where
    walk-ends :
        (fuel : ℕ) (cursor g : Text) (links : ℕ)
        → strlen cursor < fuel
        → walk sys tracee tracees recurse deref_final level fuel cursor g links ≢ out_of_fuel
    unfolding walk
    walk-ends zero cursor g links h = absurd (omega arith)
    walk-ends (suc fuel) cursor g links h = elim (Next-cases (next_component cursor)) [
      | inl e ↦ rw (e, walk) (λ q. cc)
      | inr (c, f, cursor', e) ↦
          rw (e, walk)
            (proceed-ends (walk sys tracee tracees recurse deref_final level fuel cursor') level f
              (visit sys tracee tracees recurse deref_final level c f g links)
              (visit-Goes sys tracee tracees recurse deref_final level ends c f g links)
              λ going g' links'.
                walk-ends fuel cursor' g' links'
                  (omega (arith, next_component-shorter cursor e going)))
    ]

    start-ends :
        (user_path g : Text)
        → start sys tracee tracees recurse user_path deref_final g level ≢ out_of_fuel
    unfolding start
    start-ends user_path g = ground (
      arith,
      walk-ends (suc (strlen user_path)) user_path (slash ∷ []) 0 (omega arith),
      walk-ends (suc (strlen user_path)) user_path g 0 (omega arith),
    )

  too_deep :
      (recurse : Text → Text → ℕ → Outcome) (user_path : Text) (deref_final : Bool) (g : Text)
      (level : ℕ)
      → maxsymlinks < level
      → start sys tracee tracees recurse user_path deref_final g level ≡ err eloop
  unfolding start
  too_deep recurse user_path deref_final g level h = ground arith

  -- `canonicalize` ends on every path and base, whatever the kernel and the extensions answer:
  -- with the fuel `maxsymlinks + 2`, less the level that it begins at, the model never runs out.
  pub canonicalize-ends :
      (fuel : ℕ) (user_path : Text) (deref_final : Bool) (g : Text) (level : ℕ)
      → 0 < fuel
      → maxsymlinks + 2 ≤ fuel + level
      → canonicalize sys tracee tracees fuel user_path deref_final g level ≢ out_of_fuel
  unfolding canonicalize
  canonicalize-ends zero user_path deref_final g level some_fuel enough = absurd (omega arith)
  canonicalize-ends (suc fuel) user_path deref_final g level some_fuel enough =
      elim (Bool-cases (ltb maxsymlinks level)) [
        | inl deep ↦ rw (too_deep _ user_path deref_final g level (ground arith)) (λ e. cc)
        | inr shallow ↦
            start-ends _ deref_final level
              (λ t b l deeper. canonicalize-ends fuel t true b l (ground arith) (ground arith))
              user_path g
      ]
