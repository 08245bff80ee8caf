-- ===== src/Path/Compare.antt =====
-- `compare_paths` against the comparison of component lists.
use improot.Base.{
  ℕ, zero, suc, ◌≡◌, refl, ◌≢◌, ◌⊎◌, inl, ◌≤◌, false, [], ◌∷◌, ◌++◌, arith, ◌==◌, if◌then◌else◌,
  length, take, char_at-last, char_at-strlen, take-strlen, ◌∙◌, All, Text, slash, char_at, text_eq,
}
use improot.Path.{
  Comparison, paths_are_equal, path1_is_prefix, path2_is_prefix, paths_are_not_comparable,
  compare_stripped, strip_length, compare_paths2, compare_paths,
}
use improot.Path.Components.{
  Components, IsPlain, IsComponent, body, render, body-plain, last_of-body,
}

-- The comparison read off the component lists: which one begins the other.
unfoldable pub compare_components : Components → Components → Comparison
compare_components [] [] = paths_are_equal
compare_components [] (d ∷ ds) = path1_is_prefix
compare_components (c ∷ cs) [] = path2_is_prefix
compare_components (c ∷ cs) (d ∷ ds) =
    if text_eq c d then compare_components cs ds else paths_are_not_comparable

-- The same byte by byte: the longer text must go on with a separator.
compare_bytes : Text → Text → Comparison
compare_bytes [] [] = paths_are_equal
compare_bytes [] (b ∷ t) = if b == slash then path1_is_prefix else paths_are_not_comparable
compare_bytes (a ∷ s) [] = if a == slash then path2_is_prefix else paths_are_not_comparable
compare_bytes (a ∷ s) (b ∷ t) = if a == b then compare_bytes s t else paths_are_not_comparable

abbrev Ends : Text → ℕ → Type 0
Ends p n = (char_at p n ≡ slash) ⊎ (char_at p n ≡ 0)

compare_stripped-bytes :
    (p : Text) (n : ℕ) (q : Text) (m : ℕ)
    → n ≤ length p
    → m ≤ length q
    → All (λ c. c ≢ 0) p
    → All (λ c. c ≢ 0) q
    → Ends p n
    → Ends q m
    → compare_stripped p n q m ≡ compare_bytes (take n p) (take m q)
unfolding compare_stripped compare_bytes
compare_stripped-bytes p zero q zero hn hm hp hq ep eq = ground arith
compare_stripped-bytes p zero (b ∷ q) (suc m) hn hm hp hq ep eq = ground arith
compare_stripped-bytes p zero [] (suc m) hn hm hp hq ep eq = absurd (omega arith)
compare_stripped-bytes [] (suc n) q m hn hm hp hq ep eq = absurd (omega arith)
compare_stripped-bytes (a ∷ p) (suc n) q zero hn hm hp hq ep eq = ground arith
compare_stripped-bytes (a ∷ p) (suc n) [] (suc m) hn hm hp hq ep eq = absurd (omega arith)
compare_stripped-bytes (a ∷ p) (suc n) (b ∷ q) (suc m) hn hm hp hq ep eq =
    ground (arith, compare_stripped-bytes p n q m (omega arith) (omega arith) hp.1 hq.1 ep eq)

-- Two names, each followed by a body.
compare_bytes-name :
    (c d : Text) (cs ds : Components)
    → IsPlain c
    → IsPlain d
    → compare_bytes (c ++ body cs) (d ++ body ds)
      ≡ (if text_eq c d then compare_bytes (body cs) (body ds) else paths_are_not_comparable)
unfolding compare_bytes
compare_bytes-name [] [] cs ds hc hd = refl
compare_bytes-name [] (b ∷ d) [] ds hc hd = ground arith
compare_bytes-name [] (b ∷ d) (x ∷ cs) ds hc hd = ground arith
compare_bytes-name (a ∷ c) [] cs [] hc hd = ground arith
compare_bytes-name (a ∷ c) [] cs (x ∷ ds) hc hd = ground arith
compare_bytes-name (a ∷ c) (b ∷ d) cs ds hc hd =
    ground (arith, compare_bytes-name c d cs ds hc.1 hd.1)

compare_bytes-body :
    (cs ds : Components)
    → All IsComponent cs
    → All IsComponent ds
    → compare_bytes (body cs) (body ds) ≡ compare_components cs ds
unfolding compare_bytes compare_components
compare_bytes-body [] [] hc hd = refl
compare_bytes-body [] (d ∷ ds) hc hd = refl
compare_bytes-body (c ∷ cs) [] hc hd = refl
compare_bytes-body (c ∷ cs) (d ∷ ds) hc hd =
    ground (arith, compare_bytes-name c d cs ds hc.0.1 hd.0.1, compare_bytes-body cs ds hc.1 hd.1)

-- What `compare_paths2` compares of a canonical path: its body.
take-strip_length :
    (cs : Components)
    → All IsComponent cs
    → take (strip_length (render cs) (length (render cs))) (render cs) ≡ body cs
unfolding strip_length
take-strip_length [] h = refl
take-strip_length (c ∷ cs) h = ground (
  arith,
  char_at-last slash (c ++ body cs),
  last_of-body slash c cs h,
  take-strlen (body (c ∷ cs)),
)

strip_length-Ends :
    (cs : Components)
    → All IsComponent cs
    → Ends (render cs) (strip_length (render cs) (length (render cs)))
unfolding strip_length
strip_length-Ends [] h = inl refl
strip_length-Ends (c ∷ cs) h = ground (
  arith,
  char_at-last slash (c ++ body cs),
  last_of-body slash c cs h,
  char_at-strlen (body (c ∷ cs)),
)

pub strip_length-le : (p : Text) → strip_length p (length p) ≤ length p
unfolding strip_length
strip_length-le p = ground arith

length-render : (cs : Components) → (length (render cs) == 0) ≡ false
length-render [] = refl
length-render (c ∷ cs) = ground arith

pub render-plain : (cs : Components) → All IsComponent cs → All (λ c. c ≢ 0) (render cs)
render-plain [] h = (omega arith, tt)
render-plain (c ∷ cs) h = body-plain (c ∷ cs) h

-- On canonical paths `compare_paths` compares the component lists: it answers equal for equal
-- lists, that one path is a prefix of the other when its list begins the other's, and otherwise
-- that they are not comparable.
pub compare_paths-render :
    (cs ds : Components)
    → All IsComponent cs
    → All IsComponent ds
    → compare_paths (render cs) (render ds) ≡ compare_components cs ds
unfolding compare_paths compare_paths2
compare_paths-render cs ds hc hd =
    rw (length-render cs, length-render ds)
      (compare_stripped-bytes (render cs) _ (render ds) _ (strip_length-le (render cs))
          (strip_length-le (render ds)) (render-plain cs hc) (render-plain ds hd)
          (strip_length-Ends cs hc) (strip_length-Ends ds hd)
        ∙ rw (take-strip_length cs hc, take-strip_length ds hd) (compare_bytes-body cs ds hc hd))
