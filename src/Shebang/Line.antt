-- ===== src/Shebang/Line.antt =====
-- What `extract_shebang` makes of a line.
use improot.Base.{
  ℕ, suc, ◌+◌, ◌-◌, ◌<◌, ◌≡◌, ◌≢◌, ◌∙◌, ap, refl, true, false, Option, [], ◌∷◌, ◌++◌, append_assoc,
  arith, All, Text, char_at, length, length-append, get_or-append,
}
use improot.Path.{Errno}
use improot.Shebang.{
  found, is_blank, is_end_of_line, text_in, begins_argument, trimmed, slurp_argument, slurp_path,
}

-- A byte of a path, one of an argument, and a blank.
abbrev pub IsPathByte : ℕ → Type 0
IsPathByte c = (c ≢ 0) × (is_blank c ≡ false) × (is_end_of_line c ≡ false)

abbrev pub IsArgumentByte : ℕ → Type 0
IsArgumentByte c = (c ≢ 0) × (is_end_of_line c ≡ false)

abbrev pub IsBlank : ℕ → Type 0
IsBlank c = is_blank c ≡ true

-- As many bytes 0 as blanks.
abbrev pub zeros : Text → Text
zeros [] = []
zeros (c ∷ cs) = 0 ∷ zeros cs

pub text_in-path : (p q : Text) → All IsPathByte p → text_in (p ++ (0 ∷ q)) ≡ p
unfolding text_in
text_in-path [] q h = refl
text_in-path (c ∷ p) q h = ground (arith, h.0.0, ap (λ t. c ∷ t) (text_in-path p q h.1))

pub text_in-bytes : (p : Text) → All (λ c. c ≢ 0) p → text_in p ≡ p
unfolding text_in
text_in-bytes [] h = refl
text_in-bytes (c ∷ p) h = ground (arith, h.0, ap (λ t. c ∷ t) (text_in-bytes p h.1))

pub begins_argument-byte : (w : Text) (c : ℕ) → c ≢ 0 → begins_argument (w ++ (c ∷ [])) ≡ false
begins_argument-byte w c h =
    let size : length (w ++ (c ∷ [])) - 1 ≡ length w = omega (arith, length-append w (c ∷ [])) in
    let last : char_at (w ++ (c ∷ [])) (length (w ++ (c ∷ [])) - 1) ≡ c =
      ap (λ n. char_at (w ++ (c ∷ [])) n) size ∙ get_or-append w (c ∷ []) 0 in
    ground (arith, last, h)

pub begins_argument-zero : (w : Text) → 0 < length w → begins_argument (w ++ (0 ∷ [])) ≡ true
begins_argument-zero w h =
    let size : length (w ++ (0 ∷ [])) - 1 ≡ length w = omega (arith, length-append w (0 ∷ [])) in
    let last : char_at (w ++ (0 ∷ [])) (length (w ++ (0 ∷ [])) - 1) ≡ 0 =
      ap (λ n. char_at (w ++ (0 ∷ [])) n) size ∙ get_or-append w (0 ∷ []) 0 in
    ground (arith, last, h, length-append w (0 ∷ []))

module _ (buf : ℕ) (read_error : Option Errno) where
  -- The path is stored byte by byte,
  pub slurp_path-byte :
      (w : Text) (n c d : ℕ) (bytes : Text)
      → n < buf
      → IsPathByte c
      → begins_argument w ≡ false
      → slurp_path buf read_error w n c (d ∷ bytes)
        ≡ slurp_path buf read_error (w ++ (c ∷ [])) (suc n) d bytes
  unfolding slurp_path
  slurp_path-byte w n c d bytes room h within = ground (arith, h.1, h.2, within, room)

  -- a blank as a NUL.
  pub slurp_path-blank :
      (w : Text) (n c d : ℕ) (bytes : Text)
      → n < buf
      → IsBlank c
      → slurp_path buf read_error w n c (d ∷ bytes)
        ≡ slurp_path buf read_error (w ++ (0 ∷ [])) (suc n) d bytes
  unfolding slurp_path
  slurp_path-blank w n c d bytes room h = ground (arith, h, room)

  pub slurp_path-bytes :
      (w : Text) (n c : ℕ) (p : Text) (d : ℕ) (bytes : Text)
      → n + length p < buf
      → All IsPathByte (c ∷ p)
      → begins_argument w ≡ false
      → slurp_path buf read_error w n c (p ++ (d ∷ bytes))
        ≡ slurp_path buf read_error (w ++ (c ∷ p)) (suc n + length p) d bytes
  slurp_path-bytes w n c [] d bytes room h within =
      slurp_path-byte w n c d bytes (omega (arith, room)) h.0 within
      ∙ ap (λ k. slurp_path buf read_error (w ++ (c ∷ [])) k d bytes) (omega arith)
  slurp_path-bytes w n c (x ∷ p) d bytes room h within =
      slurp_path-byte w n c x (p ++ (d ∷ bytes)) (omega (arith, room)) h.0 within
      ∙ slurp_path-bytes (w ++ (c ∷ [])) (suc n) x p d bytes (omega (arith, room)) h.1
          (begins_argument-byte w c h.0.0)
      ∙ ap (λ v. slurp_path buf read_error v (suc (suc n) + length p) d bytes)
          (append_assoc w (c ∷ []) (x ∷ p))
      ∙ ap (λ k. slurp_path buf read_error (w ++ (c ∷ x ∷ p)) k d bytes) (omega arith)

  pub slurp_argument-byte :
      (path w : Text) (n c d : ℕ) (bytes : Text)
      → n < buf
      → is_end_of_line c ≡ false
      → slurp_argument buf read_error path w n c (d ∷ bytes)
        ≡ slurp_argument buf read_error path (w ++ (c ∷ [])) (suc n) d bytes
  unfolding slurp_argument
  slurp_argument-byte path w n c d bytes room h = ground (arith, h, room)

  pub slurp_argument-bytes :
      (path w : Text) (n c : ℕ) (p : Text) (d : ℕ) (bytes : Text)
      → n + length p < buf
      → All (λ x. is_end_of_line x ≡ false) (c ∷ p)
      → slurp_argument buf read_error path w n c (p ++ (d ∷ bytes))
        ≡ slurp_argument buf read_error path (w ++ (c ∷ p)) (suc n + length p) d bytes
  slurp_argument-bytes path w n c [] d bytes room h =
      slurp_argument-byte path w n c d bytes (omega (arith, room)) h.0
      ∙ ap (λ k. slurp_argument buf read_error path (w ++ (c ∷ [])) k d bytes) (omega arith)
  slurp_argument-bytes path w n c (x ∷ p) d bytes room h =
      slurp_argument-byte path w n c x (p ++ (d ∷ bytes)) (omega (arith, room)) h.0
      ∙ slurp_argument-bytes path (w ++ (c ∷ [])) (suc n) x p d bytes (omega (arith, room)) h.1
      ∙ ap (λ v. slurp_argument buf read_error path v (suc (suc n) + length p) d bytes)
          (append_assoc w (c ∷ []) (x ∷ p))
      ∙ ap (λ k. slurp_argument buf read_error path (w ++ (c ∷ x ∷ p)) k d bytes) (omega arith)

  -- The end of the line, and the first byte of an argument.
  pub slurp_argument-end :
      (path w : Text) (n : ℕ) (bytes : Text)
      → n < buf
      → slurp_argument buf read_error path w n 10 bytes ≡ found path (text_in (trimmed w))
  unfolding slurp_argument
  slurp_argument-end path w n [] room = ground (arith, room)
  slurp_argument-end path w n (x ∷ bytes) room = ground (arith, room)

  pub slurp_path-end :
      (w : Text) (n : ℕ) (bytes : Text)
      → n < buf
      → slurp_path buf read_error w n 10 bytes ≡ found (text_in w) []
  unfolding slurp_path
  slurp_path-end w n [] room = ground (arith, room)
  slurp_path-end w n (x ∷ bytes) room = ground (arith, room)

  pub slurp_path-argument :
      (w : Text) (n c : ℕ) (bytes : Text)
      → n < buf
      → IsPathByte c
      → begins_argument w ≡ true
      → slurp_path buf read_error w n c bytes
        ≡ slurp_argument buf read_error (text_in w) [] n c bytes
  unfolding slurp_path
  slurp_path-argument w n c [] room h begun = ground (arith, h.1, h.2, begun, room)
  slurp_path-argument w n c (x ∷ bytes) room h begun = ground (arith, h.1, h.2, begun, room)
