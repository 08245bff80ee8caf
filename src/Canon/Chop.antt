-- ===== src/Canon/Chop.antt =====
-- `chop_finality` (src/path/path.c) takes off what the end of `canonicalize` puts on, and more.
use improot.Base.{
  ℕ, ◌<◌, ◌≡◌, ◌∙◌, ap, sym, refl, inl, inr, ◌⊎◌, false, [], ◌∷◌, ◌++◌, arith, append_assoc, All,
  take-append, length-append, char_at-last, last_of-append, ◌==◌, Text, slash, char_at, strlen,
  codes, some,
}
use improot.Path.{chop_finality, Finality, final_slash, final_dot, join_one, join_loop, join_paths}
use improot.Path.Components.{Components, IsComponent, body, render, last_of-body}
use improot.Path.Join.{render-snoc, join_one_between, join_one-empty}
use improot.Canon.Walk.{ok, closed, close}

chop_byte : (p : Text) → 0 < strlen p → chop_finality (p ++ slash ∷ []) ≡ p
unfolding chop_finality
chop_byte [] h = absurd (omega arith)
chop_byte (a ∷ p) h = ground (
  arith,
  char_at-last a (p ++ slash ∷ []),
  last_of-append a p (slash ∷ []),
  length-append (a ∷ p) (slash ∷ []),
  take-append (a ∷ p) (slash ∷ []),
)

-- Any text that ends in a dot loses two bytes.
chop_dot : (p : Text) (x : ℕ) → 0 < strlen p → chop_finality (p ++ x ∷ b'.' ∷ []) ≡ p
unfolding chop_finality
chop_dot [] x h = absurd (omega arith)
chop_dot (a ∷ p) x h = ground (
  arith,
  char_at-last a (p ++ x ∷ b'.' ∷ []),
  last_of-append a p (x ∷ b'.' ∷ []),
  length-append (a ∷ p) (x ∷ b'.' ∷ []),
  take-append (a ∷ p) (x ∷ b'.' ∷ []),
)

-- A canonical path whose last name ends in a dot loses the last two bytes of that name, though
-- it does not end in a `.` component.
pub chop_finality_dotted :
    (cs : Components) (c : Text) (x : ℕ)
    → chop_finality (render (cs ++ (c ++ x ∷ b'.' ∷ []) ∷ [])) ≡ body cs ++ slash ∷ c
chop_finality_dotted cs c x =
    ap chop_finality (
      render-snoc cs (c ++ x ∷ b'.' ∷ [])
      ∙ sym (append_assoc (body cs) (slash ∷ c) (x ∷ b'.' ∷ [])))
    ∙ chop_dot (body cs ++ slash ∷ c) x (omega (arith, length-append (body cs) (slash ∷ c)))

-- Joining a path that is not `/` with nothing, or with a dot.
join_end :
    (d : Text) (cs : Components) (c t : Text)
    → All IsComponent (d ∷ cs)
    → (char_at c 0 == slash) ≡ false
    → closed (join_paths (some (body (d ∷ cs)) ∷ some c ∷ [])) ≡ ok t
    → t ≡ body (d ∷ cs) ++ slash ∷ c
unfolding join_paths join_loop closed
join_end d cs c t h begins e = ground (
  arith,
  join_one-empty (body (d ∷ cs)),
  join_one_between (body (d ∷ cs)) c (ground arith)
      (ground (arith, char_at-last slash (d ++ body cs), last_of-body slash d cs h)) begins,
)

root_slash : (t : Text) → close 0 final_slash (slash ∷ []) ≡ ok t → t ≡ slash ∷ []
unfolding close closed join_paths join_loop join_one
root_slash t e = ground arith

root_dot : (t : Text) → close 0 final_dot (slash ∷ []) ≡ ok t → t ≡ slash ∷ b'.' ∷ []
unfolding close closed join_paths join_loop join_one
root_dot t e = ground arith

-- After `canonicalize` has put a final separator or a final dot behind a canonical path,
-- `chop_finality` gives that path back.
pub chop_finality-close :
    (cs : Components) (f : Finality) (t : Text)
    → All IsComponent cs
    → (f ≡ final_slash) ⊎ (f ≡ final_dot)
    → close 0 f (render cs) ≡ ok t
    → chop_finality t ≡ render cs
unfolding closed close
chop_finality-close [] f t h (inl s) e =
    ap chop_finality (root_slash t (rw s at e)) ∙ unfold chop_finality in refl
chop_finality-close [] f t h (inr s) e =
    ap chop_finality (root_dot t (rw s at e)) ∙ unfold chop_finality in refl
chop_finality-close (d ∷ cs) f t h (inl s) e =
    ap chop_finality (join_end d cs [] t h refl (rw s at e))
    ∙ chop_byte (body (d ∷ cs)) (omega arith)
chop_finality-close (d ∷ cs) f t h (inr s) e =
    ap chop_finality (join_end d cs (codes ".") t h refl (rw s at e))
    ∙ chop_dot (body (d ∷ cs)) slash (omega arith)
