-- ===== src/Shebang/Bounds.antt =====
-- The buffers of `extract_shebang`.
use improot.Base.{
  ℕ, suc, ◌≤◌, ◌<◌, ◌≡◌, refl, Bool, true, false, not, ◌&&◌, ◌||◌, Option, none, some, [], ◌∷◌,
  ◌++◌, arith, ltb, ◌==◌, if◌then◌else◌, Text, length, length-append,
}
use improot.Path.{Errno}
use improot.Canon.{Answer, answer, error}
use improot.Shebang.{
  Script, Shebang, found, no_script, fails, is_blank, is_end_of_line, text_in, begins_argument,
  trimmed_tail, trimmed, ended, argument_byte, path_byte, slurp_argument, slurp_path, skip_leading,
  magic_read, extract_shebang,
}

text_in-le : (w : Text) → length (text_in w) ≤ length w
unfolding text_in
text_in-le [] = omega arith
text_in-le (c ∷ w) = ground (arith, text_in-le w)

trimmed_tail-le : (w : Text) → length (trimmed_tail w) ≤ length w
unfolding trimmed_tail
trimmed_tail-le [] = omega arith
trimmed_tail-le (c ∷ w) = ground (arith, trimmed_tail-le w)

trimmed-le : (w : Text) → length (trimmed w) ≤ length w
unfolding trimmed
trimmed-le [] = omega arith
trimmed-le (c ∷ w) = omega (arith, trimmed_tail-le w)

-- Both texts fit, with their NUL, in a buffer of this size.
abbrev pub FitsIn : ℕ → Shebang → Type 0
FitsIn buf (found path argument) = (length path < buf) × (length argument < buf)
FitsIn buf no_script = Unit
FitsIn buf (fails e) = Unit

if-FitsIn :
    (buf : ℕ) (b : Bool) (x y : Shebang)
    → (b ≡ true → FitsIn buf x)
    → (b ≡ false → FitsIn buf y)
    → FitsIn buf (if b then x else y)
if-FitsIn buf true x y hx hy = hx refl
if-FitsIn buf false x y hx hy = hy refl

ended-FitsIn : (buf : ℕ) (o : Option Errno) (x : Shebang) → FitsIn buf x → FitsIn buf (ended o x)
ended-FitsIn buf none x h = h
ended-FitsIn buf (some e) x h = tt

module _ (buf : ℕ) (read_error : Option Errno) where
  text_in-fits : (w : Text) (n : ℕ) → length w < n → n ≤ buf → length (text_in w) < buf
  text_in-fits w n p q = omega (arith, text_in-le w, p, q)

  argument_byte-FitsIn :
      (path w : Text) (n tmp : ℕ) (more : Shebang)
      → length path < buf
      → length w < n
      → n ≤ buf
      → (n < buf → FitsIn buf more)
      → FitsIn buf (argument_byte buf read_error path w n tmp more)
  argument_byte-FitsIn path w n tmp more own p q next =
      if-FitsIn buf (not (ltb n buf)) _ _ (λ e. (own, text_in-fits w n p q))
        (λ inside.
          if-FitsIn buf (is_end_of_line tmp) _ _
            (λ e. (own, omega (arith, text_in-le (trimmed w), trimmed-le w, p, q)))
            (λ e. next (ground arith)))

  slurp_argument-FitsIn :
      (path w : Text) (n tmp : ℕ) (bytes : Text)
      → length path < buf
      → length w < n
      → n ≤ buf
      → FitsIn buf (slurp_argument buf read_error path w n tmp bytes)
  unfolding slurp_argument
  slurp_argument-FitsIn path w n tmp [] own p q =
      argument_byte-FitsIn path w n tmp _ own p q
        (λ inside. ended-FitsIn buf read_error _ (own, omega (arith, inside)))
  slurp_argument-FitsIn path w n tmp (x ∷ bytes) own p q =
      argument_byte-FitsIn path w n tmp _ own p q (λ inside.
        slurp_argument-FitsIn path (w ++ (tmp ∷ [])) (suc n) x bytes own
          (omega (arith, length-append w (tmp ∷ []), p)) (omega (arith, inside)))

  path_byte-FitsIn :
      (w : Text) (n tmp : ℕ) (argument more : Shebang)
      → length w < n
      → n ≤ buf
      → FitsIn buf argument
      → (n < buf → FitsIn buf more)
      → FitsIn buf (path_byte buf read_error w n tmp argument more)
  path_byte-FitsIn w n tmp argument more p q begun next =
      let done : FitsIn buf (found (text_in w) []) = (text_in-fits w n p q, omega (arith, p, q)) in
      if-FitsIn buf (not (ltb n buf)) _ _ (λ e. done)
        (λ inside.
          if-FitsIn buf (is_blank tmp) _ _ (λ e. next (ground arith))
            (λ e.
              if-FitsIn buf (is_end_of_line tmp) _ _ (λ e. done)
                (λ e.
                  if-FitsIn buf (begins_argument w) _ _ (λ e. begun) (λ e. next (ground arith)))))

  slurp_path-FitsIn :
      (w : Text) (n tmp : ℕ) (bytes : Text)
      → length w < n
      → n ≤ buf
      → FitsIn buf (slurp_path buf read_error w n tmp bytes)
  unfolding slurp_path
  slurp_path-FitsIn w n tmp [] p q =
      path_byte-FitsIn w n tmp _ _ p q
        (slurp_argument-FitsIn (text_in w) [] n tmp [] (text_in-fits w n p q) (omega (arith, p)) q)
        (λ inside. ended-FitsIn buf read_error _ (text_in-fits w n p q, omega (arith, inside)))
  slurp_path-FitsIn w n tmp (x ∷ bytes) p q =
      path_byte-FitsIn w n tmp _ _ p q
        (slurp_argument-FitsIn (text_in w) [] n tmp (x ∷ bytes) (text_in-fits w n p q)
          (omega (arith, p)) q)
        (λ inside.
          slurp_path-FitsIn (w ++ ((if is_blank tmp then 0 else tmp) ∷ [])) (suc n) x bytes
            (omega (arith, length-append w ((if is_blank tmp then 0 else tmp) ∷ []), p))
            (omega (arith, inside)))

  skip_leading-FitsIn :
      (n : ℕ) (bytes : Text) → n < buf → FitsIn buf (skip_leading buf read_error n bytes)
  unfolding skip_leading
  skip_leading-FitsIn n [] p = ended-FitsIn buf read_error _ tt
  skip_leading-FitsIn n (tmp ∷ bytes) p =
      if-FitsIn buf (is_blank tmp && ltb (suc n) buf) _ _
        (λ again. skip_leading-FitsIn (suc n) bytes (ground arith))
        (λ e. slurp_path-FitsIn [] (suc n) tmp bytes (omega arith) (omega (arith, p)))

  magic_read-FitsIn : (bytes : Text) → 2 < buf → FitsIn buf (magic_read buf read_error bytes)
  unfolding magic_read
  magic_read-FitsIn [] p = ended-FitsIn buf read_error no_script tt
  magic_read-FitsIn (a ∷ []) p = tt
  magic_read-FitsIn (a ∷ b ∷ bytes) p =
      if-FitsIn buf (not (a == b'#') || not (b == b'!')) no_script _ (λ e. tt)
        (λ e. skip_leading-FitsIn 2 bytes p)

-- Whatever file it is given, both texts that `extract_shebang` leaves are shorter than
-- `BINPRM_BUF_SIZE`, if this is above 2.
pub extract_shebang-FitsIn :
    (buf : ℕ) (file : Answer Script) → 2 < buf → FitsIn buf (extract_shebang buf file)
unfolding extract_shebang
extract_shebang-FitsIn buf (error e) p = tt
extract_shebang-FitsIn buf (answer script) p =
    magic_read-FitsIn buf script.read_error script.bytes p
