-- ===== src/Shebang/Reads.antt =====
-- The lines that `extract_shebang` reads.
use improot.Base.{
  ℕ, suc, ◌+◌, ◌<◌, ◌≡◌, ◌≢◌, ◌∙◌, ap, sym, refl, true, false, Option, none, [], ◌∷◌, ◌++◌,
  append_assoc, append-nil, arith, ltb, All, All-append, All-map, Text, length, length-append,
  last_of,
}
use improot.Path.{Errno}
use improot.Canon.{answer}
use improot.Shebang.{
  found, is_blank, is_end_of_line, text_in, begins_argument, trimmed_tail, trimmed, slurp_path,
  skip_leading, magic_read, extract_shebang,
}
use improot.Shebang.Line.{
  IsPathByte, IsArgumentByte, IsBlank, zeros, text_in-path, text_in-bytes, begins_argument-byte,
  begins_argument-zero, slurp_path-blank, slurp_path-bytes, slurp_argument-bytes,
  slurp_argument-end, slurp_path-argument,
}

begins_argument-zeros : (w bs : Text) → 0 < length w → begins_argument (w ++ (0 ∷ zeros bs)) ≡ true
begins_argument-zeros w [] h = begins_argument-zero w h
begins_argument-zeros w (b ∷ bs) h =
    ap begins_argument (sym (append_assoc w (0 ∷ []) (0 ∷ zeros bs)))
    ∙ begins_argument-zeros (w ++ (0 ∷ [])) bs (omega (arith, length-append w (0 ∷ []), h))

begins_argument-path :
    (w p : Text) → begins_argument w ≡ false → All IsPathByte p → begins_argument (w ++ p) ≡ false
begins_argument-path w [] h path = ap begins_argument (append-nil w) ∙ h
begins_argument-path w (c ∷ p) h path =
    ap begins_argument (sym (append_assoc w (c ∷ []) p))
    ∙ begins_argument-path (w ++ (c ∷ [])) p (begins_argument-byte w c path.0.0) path.1

trimmed_tail-blanks : (ts : Text) → All IsBlank ts → trimmed_tail ts ≡ []
unfolding trimmed_tail
trimmed_tail-blanks [] h = refl
trimmed_tail-blanks (t ∷ ts) h =
    let tail = trimmed_tail-blanks ts h.1 in rw tail (ground (arith, h.0))

trimmed_tail-blanks_behind :
    (x : ℕ) (xs ts : Text)
    → is_blank (last_of x xs) ≡ false
    → All IsBlank ts
    → trimmed_tail (xs ++ ts) ≡ xs
unfolding trimmed_tail
trimmed_tail-blanks_behind x [] ts h blanks = trimmed_tail-blanks ts blanks
trimmed_tail-blanks_behind x (y ∷ []) ts h blanks =
    let tail = trimmed_tail-blanks ts blanks in rw tail (ground (arith, h))
trimmed_tail-blanks_behind x (y ∷ z ∷ xs) ts h blanks =
    let tail = trimmed_tail-blanks_behind y (z ∷ xs) ts h blanks in rw tail (ground arith)

module _ (buf : ℕ) (read_error : Option Errno) where
  slurp_path-blanks :
      (w : Text) (n b : ℕ) (bs : Text) (d : ℕ) (bytes : Text)
      → n + length bs < buf
      → All IsBlank (b ∷ bs)
      → slurp_path buf read_error w n b (bs ++ (d ∷ bytes))
        ≡ slurp_path buf read_error (w ++ (0 ∷ zeros bs)) (suc n + length bs) d bytes
  slurp_path-blanks w n b [] d bytes room h =
      slurp_path-blank buf read_error w n b d bytes (omega (arith, room)) h.0
      ∙ ap (λ k. slurp_path buf read_error (w ++ (0 ∷ [])) k d bytes) (omega arith)
  slurp_path-blanks w n b (x ∷ bs) d bytes room h =
      slurp_path-blank buf read_error w n b x (bs ++ (d ∷ bytes)) (omega (arith, room)) h.0
      ∙ slurp_path-blanks (w ++ (0 ∷ [])) (suc n) x bs d bytes (omega (arith, room)) h.1
      ∙ ap (λ v. slurp_path buf read_error v (suc (suc n) + length bs) d bytes)
          (append_assoc w (0 ∷ []) (0 ∷ zeros bs))
      ∙ ap (λ k. slurp_path buf read_error (w ++ (0 ∷ 0 ∷ zeros bs)) k d bytes) (omega arith)

  skip_leading-blanks :
      (n : ℕ) (ls : Text) (c : ℕ) (bytes : Text)
      → n + length ls < buf
      → All IsBlank ls
      → is_blank c ≡ false
      → skip_leading buf read_error n (ls ++ (c ∷ bytes))
        ≡ slurp_path buf read_error [] (suc n + length ls) c bytes
  unfolding skip_leading
  skip_leading-blanks n [] c bytes room h not_blank =
      rw not_blank (ap (λ k. slurp_path buf read_error [] k c bytes) (omega arith))
  skip_leading-blanks n (l ∷ ls) c bytes room h not_blank =
      let more : ltb (suc n) buf ≡ true = ground (arith, room) in
      rw (h.0, more)
        (skip_leading-blanks (suc n) ls c bytes (omega (arith, room)) h.1 not_blank
          ∙ ap (λ k. slurp_path buf read_error [] k c bytes) (omega arith))

  extract_shebang-begins :
      (bytes : Text)
      → extract_shebang buf
          (answer (record { bytes = b'#' ∷ b'!' ∷ bytes; read_error = read_error }))
        ≡ skip_leading buf read_error 2 bytes
  unfolding extract_shebang magic_read
  extract_shebang-begins bytes = refl

  module _ (ls : Text) (p0 : ℕ) (p : Text) (leading : All IsBlank ls)
      (is_path : All IsPathByte (p0 ∷ p)) where
    -- Up to the byte behind the path.
    path_read :
        (d : ℕ) (bytes : Text)
        → 4 + length ls + length p < buf
        → extract_shebang buf (
            answer (record {
              bytes = b'#' ∷ b'!' ∷ (ls ++ (p0 ∷ (p ++ (d ∷ bytes))));
              read_error = read_error;
            }))
          ≡ slurp_path buf read_error (p0 ∷ p) (4 + length ls + length p) d bytes
    path_read d bytes room =
        extract_shebang-begins (ls ++ (p0 ∷ (p ++ (d ∷ bytes))))
        ∙ skip_leading-blanks 2 ls p0 (p ++ (d ∷ bytes)) (omega (arith, room)) leading is_path.0.1
        ∙ slurp_path-bytes buf read_error [] (3 + length ls) p0 p d bytes (omega (arith, room))
            is_path (ground arith)
        ∙ ap (λ k. slurp_path buf read_error (p0 ∷ p) k d bytes) (omega arith)

    -- `extract_shebang` reads back the line of an interpreter with an argument, with any blanks
    -- before the path, between the two and behind the argument, if the end of the line lies inside
    -- the buffer. The path has no blank, the argument neither begins nor ends with one, but may
    -- hold them, and neither has a NUL or an end of line.
    pub extract_shebang-line :
        (b : ℕ) (bs : Text) (a0 : ℕ) (a ts rest : Text)
        → All IsBlank (b ∷ bs)
        → IsPathByte a0
        → All IsArgumentByte a
        → is_blank (last_of a0 a) ≡ false
        → All IsBlank ts
        → 6 + length ls + length p + length bs + length a + length ts < buf
        → extract_shebang buf (
            answer (record {
              bytes =
                  b'#'
                  ∷ b'!'
                  ∷ (ls ++ (p0 ∷ (p ++ (b ∷ (bs ++ (a0 ∷ ((a ++ ts) ++ (10 ∷ rest))))))));
              read_error = read_error;
            }))
          ≡ found (p0 ∷ p) (a0 ∷ a)
    extract_shebang-line b bs a0 a ts rest gap begins is_argument ends trailing room =
        let w = p0 ∷ (p ++ (0 ∷ zeros bs)) in
        let n = 5 + length ls + length p + length bs in
        path_read b (bs ++ (a0 ∷ ((a ++ ts) ++ (10 ∷ rest)))) (omega (arith, room))
        ∙ slurp_path-blanks (p0 ∷ p) (4 + length ls + length p) b bs a0 ((a ++ ts) ++ (10 ∷ rest))
            (omega (arith, room)) gap
        ∙ ap (λ k. slurp_path buf read_error w k a0 ((a ++ ts) ++ (10 ∷ rest))) (omega arith)
        ∙ slurp_path-argument buf read_error w n a0 ((a ++ ts) ++ (10 ∷ rest)) (omega (arith, room))
            begins (begins_argument-zeros (p0 ∷ p) bs (omega arith))
        ∙ slurp_argument-bytes buf read_error (text_in w) [] n a0 (a ++ ts) 10 rest
            (omega (arith, room, length-append a ts)) (begins.2, in_line)
        ∙ slurp_argument-end buf read_error (text_in w) (a0 ∷ (a ++ ts)) (suc n + length (a ++ ts))
            rest (omega (arith, room, length-append a ts))
        ∙ ap (found (text_in w)) (text ends)
        ∙ ap (λ t. found t (a0 ∷ a)) (text_in-path (p0 ∷ p) (zeros bs) is_path)
      where
        in_line : All (λ x. is_end_of_line x ≡ false) (a ++ ts)
        in_line =
            All-append (λ x. is_end_of_line x ≡ false) a ts
              (All-map IsArgumentByte (λ x. is_end_of_line x ≡ false) a (λ x h. h.1) is_argument)
              (All-map IsBlank (λ x. is_end_of_line x ≡ false) ts (λ x h. ground (arith, h))
                trailing)

        text : is_blank (last_of a0 a) ≡ false → text_in (trimmed (a0 ∷ (a ++ ts))) ≡ a0 ∷ a
        text last =
            unfold trimmed in
            ap (λ t. text_in (a0 ∷ t)) (trimmed_tail-blanks_behind a0 a ts last trailing)
            ∙ text_in-bytes (a0 ∷ a)
                (begins.0, All-map IsArgumentByte (λ x. x ≢ 0) a (λ x h. h.0) is_argument)

-- A script that ends right behind its interpreter's path, without an end of line, loses the last
-- byte of this path, if the script is shorter than BINPRM_BUF_SIZE; the path has two bytes at least.
pub extract_shebang-cut :
    (buf : ℕ) (ls : Text) (p0 : ℕ) (p : Text) (c : ℕ)
    → All IsBlank ls
    → All IsPathByte (p0 ∷ p)
    → IsPathByte c
    → 4 + length ls + length p < buf
    → extract_shebang buf (
        answer (record { bytes = b'#' ∷ b'!' ∷ (ls ++ (p0 ∷ (p ++ (c ∷ [])))); read_error = none }))
      ≡ found (p0 ∷ p) []
extract_shebang-cut buf ls p0 p c leading is_path last room =
    path_read buf none ls p0 p leading is_path c [] room
    ∙ slurp_path-eof (p0 ∷ p) (4 + length ls + length p) room
        (begins_argument-path (p0 ∷ []) p (ground arith) is_path.1)
    ∙ ap (λ t. found t [])
        (text_in-bytes (p0 ∷ p) (All-map IsPathByte (λ x. x ≢ 0) (p0 ∷ p) (λ x h. h.0) is_path))
  where
    slurp_path-eof :
        (w : Text) (n : ℕ)
        → n < buf
        → begins_argument w ≡ false
        → slurp_path buf none w n c [] ≡ found (text_in w) []
    slurp_path-eof w n inside within =
        unfold slurp_path in ground (arith, last.1, last.2, within, inside)
