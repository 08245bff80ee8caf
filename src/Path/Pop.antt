-- ===== src/Path/Pop.antt =====
-- `pop_component` and `chop_finality` on canonical paths.
use improot.Base.{
  ℕ, zero, suc, ◌+◌, ◌-◌, ◌≤◌, ◌<◌, ◌≡◌, ◌∙◌, refl, ◌≢◌, inl, inr, [], ◌∷◌, ◌++◌, arith, ◌==◌, ap,
  if◌then◌else◌, Bool-cases, take, take-append, Text, slash, char_at, strlen, length-append,
  get_or-append,
}
use improot.Path.{skip_separators, previous_separator, pop_component}
use improot.Path.Components.{Components, IsPlain, IsComponent, body, render}
use improot.Path.Join.{body-snoc}

-- Behind the first `n` bytes, `p` goes on with a separator and a name.
record Splits (p : Text) (n k : ℕ) : Type 0 where
  bound : n ≤ k
  here : char_at p n ≡ slash
  name : (i : ℕ) → n < i → i ≤ k → char_at p i ≢ slash

previous_separator-Splits :
    (p : Text) (n k : ℕ)
    → Splits p n k
    → previous_separator p k ≡ (if n == 0 then (if k == 0 then 0 else 1) else n)
unfolding previous_separator
previous_separator-Splits p n zero s = ground (arith, s.bound)
previous_separator-Splits p n (suc k) s = elim (Bool-cases (n == suc k)) [
  | inl e ↦ ground (arith, s.bound, s.here)
  | inr ne ↦ ground (
    arith,
    s.bound,
    s.here,
    s.name (suc k),
    previous_separator-Splits p n k (shorter (ground (arith, s.bound))),
  )
]
  where
    shorter : n ≤ k → Splits p n k
    shorter h = record { bound = h; here = s.here; name = λ i a b. s.name i a (omega arith) }

char_at-plain : (c : Text) (i : ℕ) → IsPlain c → i < strlen c → char_at c i ≢ slash
char_at-plain [] i h lt = elim lt [ ]
char_at-plain (a ∷ c) zero h lt = h.0.0
char_at-plain (a ∷ c) (suc i) h lt = char_at-plain c i h.1 (omega arith)

char_at-name :
    (b c : Text) (i : ℕ)
    → IsPlain c
    → strlen b < i
    → i ≤ strlen b + strlen c
    → char_at (b ++ slash ∷ c) i ≢ slash
char_at-name b c zero h lo hi = elim lo [ ]
char_at-name [] c (suc i) h lo hi = char_at-plain c i h (omega arith)
char_at-name (a ∷ b) c (suc i) h lo hi = char_at-name b c i h (omega arith) (omega arith)

split-name : (b c : Text) → IsPlain c → Splits (b ++ slash ∷ c) (strlen b) (strlen b + strlen c)
split-name b c h = record {
  bound = omega arith;
  here = get_or-append b (slash ∷ c) 0;
  name = λ i lo hi. char_at-name b c i h lo hi;
}

skip_separators-name : (p : Text) (k : ℕ) → char_at p k ≢ slash → skip_separators p k ≡ k
unfolding skip_separators
skip_separators-name p zero h = refl
skip_separators-name p (suc k) h = ground arith

-- Cutting before the last separator.
pop_component-name :
    (b c : Text)
    → IsComponent c
    → pop_component (b ++ slash ∷ c) ≡ (if strlen b == 0 then slash ∷ [] else b)
unfolding pop_component
pop_component-name b [] h = absurd (h.0 refl)
pop_component-name b (a ∷ c) h =
    let k = strlen b + strlen (a ∷ c) in
    let p = b ++ slash ∷ a ∷ c in
    let offset : strlen p - 1 ≡ k = omega (arith, length-append b (slash ∷ a ∷ c)) in
    let splits = split-name b (a ∷ c) h.1 in
    rw (offset, skip_separators-name p k (splits.name k (omega arith) (omega arith)))
      (ground (
        arith,
        previous_separator-Splits p (strlen b) k splits,
        cut b (a ∷ c),
        take-append b (slash ∷ a ∷ c),
      ))
  where
    cut : (b c : Text) → strlen b ≡ 0 → take 1 (b ++ slash ∷ c) ≡ slash ∷ []
    cut [] c e = refl
    cut (x ∷ b) c e = absurd (omega arith)

-- `pop_component` leaves `/` alone, and takes the last name off any other canonical path.
pub pop_component-render :
    (cs : Components) (c : Text)
    → IsComponent c
    → (pop_component (render []) ≡ render []) × (pop_component (render (cs ++ c ∷ [])) ≡ render cs)
pop_component-render [] c h =
    (unfold pop_component in refl, ap pop_component (body-snoc [] c) ∙ pop_component-name [] c h)
pop_component-render (d ∷ cs) c h = (
  unfold pop_component in refl,
  ap pop_component (body-snoc (d ∷ cs) c) ∙ pop_component-name (body (d ∷ cs)) c h ∙ ground arith,
)
