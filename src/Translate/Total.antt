-- ===== src/Translate/Total.antt =====
-- `translate_path` ends.
use improot.Base.{ℕ, ◌+◌, ◌≤◌, ◌≢◌, Bool, List, [], ◌∷◌, arith, Text, slash}
use improot.Path.{Status, success, failure}
use improot.Binding.{Substituted, not_bound, symmetric, asymmetric}
use improot.Proc.{Tracee}
use improot.Canon.{Surroundings, Answer, answer, error, maxsymlinks}
use improot.Canon.Walk.{Outcome, ok, err, out_of_fuel}
use improot.Canon.Ends.{canonicalize-ends}
use improot.Translate.{
  Guest, refuses, passes, handles, Extensions, notified, to_host, after_canonicalize, joined_base,
  after_guest, from_base, translate_path,
}

notified-ends : (a : Answer Text) → notified a ≢ out_of_fuel
unfolding notified
notified-ends (error e) = λ q. cc
notified-ends (answer t) = λ q. cc

to_host-ends : (ext : Extensions) (s : Substituted × Text) → to_host ext s ≢ out_of_fuel
unfolding to_host
to_host-ends ext (not_bound, t) = λ q. cc
to_host-ends ext (symmetric, t) = notified-ends (ext.translated_path t)
to_host-ends ext (asymmetric, t) = notified-ends (ext.translated_path t)

after_canonicalize-ends :
    (ext : Extensions) (tracee : Tracee) (o : Outcome)
    → o ≢ out_of_fuel
    → after_canonicalize ext tracee o ≢ out_of_fuel
unfolding after_canonicalize
after_canonicalize-ends ext tracee (err e) h = λ q. cc
after_canonicalize-ends ext tracee out_of_fuel h = h
after_canonicalize-ends ext tracee (ok t) h = to_host-ends ext _

module _ (sys : Surroundings) (ext : Extensions) (tracee : Tracee) (tracees : List Tracee)
    (fuel : ℕ) (enough : maxsymlinks + 2 ≤ fuel) where
  joined_base-ends :
      (deref_final : Bool) (s : Status × Text)
      → joined_base sys ext tracee tracees fuel deref_final s ≢ out_of_fuel
  unfolding joined_base
  joined_base-ends deref_final (failure e, t) = λ q. cc
  joined_base-ends deref_final (success, t) = after_canonicalize-ends ext tracee _ (
      canonicalize-ends sys tracee tracees fuel t deref_final (slash ∷ []) 0 (omega arith)
        (omega arith))

  after_guest-ends :
      (user_path : Text) (deref_final : Bool) (g : Guest)
      → after_guest sys ext tracee tracees fuel user_path deref_final g ≢ out_of_fuel
  unfolding after_guest
  after_guest-ends user_path deref_final (refuses e) = λ q. cc
  after_guest-ends user_path deref_final (handles t) = notified-ends (ext.translated_path t)
  after_guest-ends user_path deref_final (passes base) = joined_base-ends deref_final _

  from_base-ends :
      (user_path : Text) (deref_final : Bool) (a : Answer Text)
      → from_base sys ext tracee tracees fuel user_path deref_final a ≢ out_of_fuel
  unfolding from_base
  from_base-ends user_path deref_final (error e) = λ q. cc
  from_base-ends user_path deref_final (answer base) = after_guest-ends user_path deref_final _

  -- `translate_path` ends on every path, whatever the kernel and the extensions answer: with fuel
  -- `maxsymlinks + 2` the model never runs out.
  pub translate_path-ends :
      (dir_fd : ℕ) (user_path : Text) (deref_final : Bool)
      → translate_path sys ext tracee tracees fuel dir_fd user_path deref_final ≢ out_of_fuel
  unfolding translate_path
  translate_path-ends dir_fd user_path deref_final = from_base-ends user_path deref_final _
