-- ===== src/Path/Prefix.antt =====
-- `substitute_path_prefix` on canonical paths: the components of one prefix for those of another.
use mathlib.Core.Path.{subst}
use improot.Base.{
  ℕ, ◌≤◌, ◌⊎◌, inl, inr, ◌+◌, ◌<◌, ◌≡◌, ◌∙◌, refl, ◌≢◌, [], ◌∷◌, ◌++◌, arith, sym, ap, append-nil,
  length, All, Text, slash, strlen, length-append, drop-append, take-strlen,
}
use improot.Path.{path_max, minus_enametoolong, substitute_path_prefix}
use improot.Path.Components.{Components, IsComponent, body, render, body-append}

-- Each case of the code on texts.
substitute_to_root :
    (g b : Text)
    → 0 < strlen b
    → strlen (g ++ b) < path_max
    → substitute_path_prefix (g ++ b) (strlen g) (slash ∷ []) 1 ≡ (strlen b, b)
unfolding substitute_path_prefix
substitute_to_root g b some_left fits =
    rw (length-append g b, drop-append g b) (ground (arith, length-append g b))

substitute_all :
    (g : Text)
    → strlen g < path_max
    → substitute_path_prefix g (strlen g) (slash ∷ []) 1 ≡ (1, slash ∷ [])
unfolding substitute_path_prefix
substitute_all g fits = ground arith

substitute_from_root :
    (h b : Text)
    → 1 < strlen h
    → 1 < strlen b
    → strlen (h ++ b) < path_max
    → substitute_path_prefix b 1 h (strlen h) ≡ (strlen (h ++ b), h ++ b)
unfolding substitute_path_prefix
substitute_from_root h b long_h long_b fits = rw (take-strlen h) (ground (arith, length-append h b))

substitute_root :
    (h : Text)
    → 1 < strlen h
    → strlen h + 1 < path_max
    → substitute_path_prefix (slash ∷ []) 1 h (strlen h) ≡ (strlen h, h)
unfolding substitute_path_prefix
substitute_root h long_h fits = rw (take-strlen h) (ground arith)

substitute_between :
    (g h b : Text)
    → 1 < strlen g
    → 1 < strlen h
    → strlen (g ++ b) < path_max
    → strlen (h ++ b) < path_max
    → substitute_path_prefix (g ++ b) (strlen g) h (strlen h) ≡ (strlen (h ++ b), h ++ b)
unfolding substitute_path_prefix
substitute_between g h b long_g long_h fits fits' =
    rw (take-strlen h, drop-append g b) (ground (arith, length-append h b, length-append g b))

substitute_too_long :
    (g h b : Text)
    → 1 < strlen g
    → 1 < strlen h
    → strlen h < path_max
    → strlen (g ++ b) < path_max
    → path_max ≤ strlen (h ++ b)
    → substitute_path_prefix (g ++ b) (strlen g) h (strlen h) ≡ (minus_enametoolong, g ++ b)
unfolding substitute_path_prefix
substitute_too_long g h b long_g long_h short_h fits over =
    rw (take-strlen h, drop-append g b) (ground (arith, length-append h b, length-append g b))

-- The same where the length decides: the new path, or the old one left as it was.
abbrev EitherText : ℕ × Text → Text → Text → Type 0
EitherText r new old = (r.1 ≡ new) ⊎ (r.1 ≡ old)

substitute_root_either :
    (h : Text)
    → 1 < strlen h
    → EitherText (substitute_path_prefix (slash ∷ []) 1 h (strlen h)) h (slash ∷ [])
unfolding substitute_path_prefix
substitute_root_either h long_h = rw (take-strlen h) (ground arith)

substitute_from_root_either :
    (h b : Text)
    → 1 < strlen h
    → 1 < strlen b
    → EitherText (substitute_path_prefix b 1 h (strlen h)) (h ++ b) b
unfolding substitute_path_prefix
substitute_from_root_either h b long_h long_b = rw (take-strlen h) (ground arith)

substitute_between_either :
    (g h b : Text)
    → 1 < strlen g
    → 1 < strlen h
    → EitherText (substitute_path_prefix (g ++ b) (strlen g) h (strlen h)) (h ++ b) (g ++ b)
unfolding substitute_path_prefix
substitute_between_either g h b long_g long_h = rw (take-strlen h, drop-append g b) (ground arith)

pub 1-lt-body : (c : Text) (cs : Components) → IsComponent c → 1 < strlen (body (c ∷ cs))
1-lt-body [] cs h = absurd (h.0 refl)
1-lt-body (a ∷ c) cs h = omega arith

body-nil : (cs : Components) → body (cs ++ []) ≡ body cs
body-nil cs = ap body (append-nil cs)

-- Replacing the prefix `g` of a canonical path by the prefix `h`, not both the root, yields the
-- canonical path with the components of `h` in place of those of `g`, and its length, provided
-- that the path fits the buffer and that the new one does with a byte to spare.
pub substitute_path_prefix-render :
    (g h r : Components)
    → All IsComponent g
    → All IsComponent h
    → All IsComponent r
    → g ++ h ≢ []
    → strlen (render (g ++ r)) < path_max
    → strlen (render (h ++ r)) + 1 < path_max
    → substitute_path_prefix (render (g ++ r)) (strlen (render g)) (render h) (strlen (render h))
      ≡ (strlen (render (h ++ r)), render (h ++ r))
substitute_path_prefix-render [] [] r hg hh hr ne fits fits' = absurd (ne refl)
substitute_path_prefix-render [] (d ∷ h) [] hg hh hr ne fits fits' =
    substitute_root (body (d ∷ h)) (1-lt-body d h hh.0)
      (omega (arith, ap length (body-nil (d ∷ h))))
    ∙ ap (λ t. (strlen t, t)) (sym (body-nil (d ∷ h)))
substitute_path_prefix-render [] (d ∷ h) (e ∷ r) hg hh hr ne fits fits' =
    substitute_from_root (body (d ∷ h)) (body (e ∷ r)) (1-lt-body d h hh.0) (1-lt-body e r hr.0)
      (omega (arith, ap length (body-append (d ∷ h) (e ∷ r))))
    ∙ ap (λ t. (strlen t, t)) (sym (body-append (d ∷ h) (e ∷ r)))
substitute_path_prefix-render (c ∷ g) [] [] hg hh hr ne fits fits' =
    ap (λ t. substitute_path_prefix t (strlen (body (c ∷ g))) (slash ∷ []) 1) (body-nil (c ∷ g))
    ∙ substitute_all (body (c ∷ g)) (omega (arith, ap length (body-nil (c ∷ g))))
substitute_path_prefix-render (c ∷ g) [] (e ∷ r) hg hh hr ne fits fits' =
    ap (λ t. substitute_path_prefix t (strlen (body (c ∷ g))) (slash ∷ []) 1)
      (body-append (c ∷ g) (e ∷ r))
    ∙ substitute_to_root (body (c ∷ g)) (body (e ∷ r)) (omega arith)
        (omega (arith, ap length (body-append (c ∷ g) (e ∷ r))))
substitute_path_prefix-render (c ∷ g) (d ∷ h) r hg hh hr ne fits fits' =
    ap
      (λ t. substitute_path_prefix t (strlen (body (c ∷ g))) (body (d ∷ h)) (strlen (body (d ∷ h))))
      (body-append (c ∷ g) r)
    ∙ substitute_between (body (c ∷ g)) (body (d ∷ h)) (body r) (1-lt-body c g hg.0)
        (1-lt-body d h hh.0) (omega (arith, ap length (body-append (c ∷ g) r)))
        (omega (arith, ap length (body-append (d ∷ h) r)))
    ∙ ap (λ t. (strlen t, t)) (sym (body-append (d ∷ h) r))

-- When the new path would not fit the buffer, for two prefixes that are not the root, the path
-- stays as it was and the size that comes back is -ENAMETOOLONG.
pub substitute_path_prefix-too_long :
    (g h r : Components)
    → All IsComponent g
    → All IsComponent h
    → g ≢ []
    → h ≢ []
    → strlen (render h) < path_max
    → strlen (render (g ++ r)) < path_max
    → path_max ≤ strlen (render (h ++ r))
    → substitute_path_prefix (render (g ++ r)) (strlen (render g)) (render h) (strlen (render h))
      ≡ (minus_enametoolong, render (g ++ r))
substitute_path_prefix-too_long [] h r hg hh ng nh short fits over = absurd (ng refl)
substitute_path_prefix-too_long (c ∷ g) [] r hg hh ng nh short fits over = absurd (nh refl)
substitute_path_prefix-too_long (c ∷ g) (d ∷ h) r hg hh ng nh short fits over =
    ap
      (λ t. substitute_path_prefix t (strlen (body (c ∷ g))) (body (d ∷ h)) (strlen (body (d ∷ h))))
      (body-append (c ∷ g) r)
    ∙ substitute_too_long (body (c ∷ g)) (body (d ∷ h)) (body r) (1-lt-body c g hg.0)
        (1-lt-body d h hh.0) short (omega (arith, ap length (body-append (c ∷ g) r)))
        (omega (arith, ap length (body-append (d ∷ h) r)))
    ∙ ap (λ t. (minus_enametoolong, t)) (sym (body-append (c ∷ g) r))

either_render :
    (t : Text) {old new old' new' : Text}
    → old ≡ old'
    → new ≡ new'
    → (t ≡ new) ⊎ (t ≡ old)
    → (t ≡ new') ⊎ (t ≡ old')
either_render t po pn (inl e) = inl (e ∙ pn)
either_render t po pn (inr e) = inr (e ∙ po)

-- Whatever the lengths, the path is the new canonical one or stays the old one.
pub substitute_path_prefix_either :
    (g h r : Components)
    → All IsComponent g
    → All IsComponent h
    → All IsComponent r
    → g ++ h ≢ []
    → strlen (render (g ++ r)) < path_max
    → let t =
        (substitute_path_prefix
          (render (g ++ r))
          (strlen (render g))
          (render h)
          (strlen (render h))).1 in
      (t ≡ render (h ++ r)) ⊎ (t ≡ render (g ++ r))
substitute_path_prefix_either [] [] r hg hh hr ne fits = absurd (ne refl)
substitute_path_prefix_either [] (d ∷ h) [] hg hh hr ne fits =
    either_render _ refl (sym (body-nil (d ∷ h)))
      (substitute_root_either (body (d ∷ h)) (1-lt-body d h hh.0))
substitute_path_prefix_either [] (d ∷ h) (e ∷ r) hg hh hr ne fits =
    either_render _ refl (sym (body-append (d ∷ h) (e ∷ r))) (
      substitute_from_root_either (body (d ∷ h)) (body (e ∷ r)) (1-lt-body d h hh.0)
        (1-lt-body e r hr.0))
substitute_path_prefix_either (c ∷ g) [] [] hg hh hr ne fits = inl (
    ap (λ t. (substitute_path_prefix t (strlen (body (c ∷ g))) (slash ∷ []) 1).1) (body-nil (c ∷ g))
    ∙ ap (λ p. p.1) (substitute_all (body (c ∷ g)) (omega (arith, ap length (body-nil (c ∷ g))))))
substitute_path_prefix_either (c ∷ g) [] (e ∷ r) hg hh hr ne fits = inl (
    ap (λ t. (substitute_path_prefix t (strlen (body (c ∷ g))) (slash ∷ []) 1).1)
      (body-append (c ∷ g) (e ∷ r))
    ∙ ap (λ p. p.1)
        (substitute_to_root (body (c ∷ g)) (body (e ∷ r)) (omega arith)
          (omega (arith, ap length (body-append (c ∷ g) (e ∷ r))))))
substitute_path_prefix_either (c ∷ g) (d ∷ h) r hg hh hr ne fits =
    subst
      (λ p.
        let t =
          (substitute_path_prefix p (strlen (body (c ∷ g))) (body (d ∷ h))
            (strlen (body (d ∷ h)))).1 in
        (t ≡ body (d ∷ (h ++ r))) ⊎ (t ≡ p))
      (sym (body-append (c ∷ g) r))
      (either_render _ refl (sym (body-append (d ∷ h) r)) (
        substitute_between_either (body (c ∷ g)) (body (d ∷ h)) (body r) (1-lt-body c g hg.0)
          (1-lt-body d h hh.0)))
