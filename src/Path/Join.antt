-- ===== src/Path/Join.antt =====
-- `join_paths` on canonical paths and names, and the bound on what it writes.
use improot.Base.{
  ◌+◌, ◌-◌, ◌<◌, ◌≡◌, ◌∙◌, refl, inl, inr, true, false, Option, none, some, List, [], ◌∷◌, ◌++◌,
  arith, ◌==◌, ltb, leb, sym, ap, append-nil, if◌then◌else◌, Option-cases, All, Text, slash,
  char_at, strlen, length-append, char_at-last, drop,
}
use improot.Path.{path_max, enametoolong, success, failure, join_one, join_loop, join_paths}
use improot.Path.Components.{Components, IsComponent, body, render, body-append, last_of-body}

drop-one : (p : Text) → char_at p 0 ≡ slash → strlen (drop 1 p) + 1 ≡ strlen p
drop-one [] h = absurd (omega arith)
drop-one (c ∷ p) h = omega arith

join_one_bound : (r p r' : Text) → join_one r p ≡ some r' → strlen r' + 1 < path_max
unfolding join_one
join_one_bound r p r' h =
    ground (
      arith,
      drop-one p,
      length-append r (slash ∷ p),
      length-append r (drop 1 p),
      length-append r p,
    )

join_loop_bound :
    (r : Text) (ps : List (Option Text))
    → strlen r + 1 < path_max
    → strlen (join_loop r ps).1 + 1 < path_max
unfolding join_loop
join_loop_bound r [] h = h
join_loop_bound r (none ∷ ps) h = join_loop_bound r ps h
join_loop_bound r (some p ∷ ps) h = elim (Option-cases (join_one r p)) [
  | inl e ↦ rw (e, join_loop) h
  | inr (r', e) ↦ rw (e, join_loop) (join_loop_bound r' ps (join_one_bound r p r' e))
]

-- Whatever its arguments and its status, `join_paths` leaves in the buffer a text that is at
-- least two bytes shorter than PATH_MAX.
pub join_paths_bound : (ps : List (Option Text)) → strlen (join_paths ps).1 + 1 < path_max
unfolding join_paths
join_paths_bound ps = join_loop_bound [] ps (omega arith)

first-not-slash : (c : Text) → IsComponent c → (char_at c 0 == slash) ≡ false
first-not-slash [] h = absurd (h.0 refl)
first-not-slash (a ∷ c) h = ground (arith, h.1)

-- A name goes behind a path that is not `/` with a separator.
pub body-snoc : (cs : Components) (c : Text) → body (cs ++ c ∷ []) ≡ body cs ++ slash ∷ c
body-snoc cs c = rw (body-append cs (c ∷ []), append-nil c)

pub render-snoc : (cs : Components) (c : Text) → render (cs ++ c ∷ []) ≡ body cs ++ slash ∷ c
render-snoc [] c = body-snoc [] c
render-snoc (d ∷ cs) c = body-snoc (d ∷ cs) c

pub join_one_between :
    (r c : Text)
    → ltb 0 (strlen r) ≡ true
    → (char_at r (strlen r - 1) == slash) ≡ false
    → (char_at c 0 == slash) ≡ false
    → join_one r c
      ≡ (if leb path_max (strlen (r ++ slash ∷ c) + 1) then none else some (r ++ slash ∷ c))
unfolding join_one
join_one_between r c long ends begins =
    rw (long, ends, begins, length-append r (slash ∷ c)) (ground arith)

join_one-body :
    (cs : Components) (c : Text)
    → All IsComponent cs
    → IsComponent c
    → join_one (render cs) c ≡ (
        if leb path_max (strlen (render (cs ++ c ∷ [])) + 1)
        then none
        else some (render (cs ++ c ∷ [])))
unfolding join_one
join_one-body [] c hcs hc = rw (first-not-slash c hc, append-nil c) (ground arith)
join_one-body (d ∷ cs) c hcs hc =
    join_one_between (body (d ∷ cs)) c (ground arith)
      (ground (arith, char_at-last slash (d ++ body cs), last_of-body slash d cs hcs))
      (first-not-slash c hc)
    ∙ ap (λ t. if leb path_max (strlen t + 1) then none else some t) (sym (body-snoc (d ∷ cs) c))

pub join_one-empty :
    (r : Text) → join_one [] r ≡ (if leb path_max (strlen r + 1) then none else some r)
unfolding join_one
join_one-empty r = ground arith

-- Joining a canonical path that fits the buffer with one name succeeds exactly when the longer
-- canonical path still leaves a spare byte in the buffer, and yields that path; otherwise
-- the result is ENAMETOOLONG.
pub join_paths-render :
    (cs : Components) (c : Text)
    → All IsComponent cs
    → IsComponent c
    → strlen (render cs) + 1 < path_max
    → join_paths (some (render cs) ∷ some c ∷ []) ≡ (
        if ltb (strlen (render (cs ++ c ∷ [])) + 1) path_max
        then (success, render (cs ++ c ∷ []))
        else (failure enametoolong, render cs))
unfolding join_paths join_loop
join_paths-render cs c hcs hc h =
    ground (arith, join_one-empty (render cs), join_one-body cs c hcs hc)

-- What succeeds is the longer canonical path, whatever the lengths.
pub join_paths-success :
    (cs : Components) (c : Text) {t : Text}
    → All IsComponent cs
    → IsComponent c
    → join_paths (some (render cs) ∷ some c ∷ []) ≡ (success, t)
    → t ≡ render (cs ++ c ∷ [])
unfolding join_paths join_loop
join_paths-success cs c hcs hc e =
    ground (arith, join_one-empty (render cs), join_one-body cs c hcs hc)
