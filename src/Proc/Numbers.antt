-- ===== src/Proc/Numbers.antt =====
-- Decimal numbers as the C library reads and prints them: `%d`, `atoi` and the test on `strtol`.
use improot.Base.{
  ℕ, zero, suc, ◌+◌, ◌-◌, ◌*◌, ◌/◌, ◌%◌, ◌^◌, Bool, true, false, ◌&&◌, ◌||◌, [], ◌∷◌, ltb, leb,
  ◌==◌, if◌then◌else◌, Text,
}

-- The digits of `n` in front of `tail`; the fuel counts them.
unfoldable pub show_digits : ℕ → ℕ → Text → Text
show_digits zero n tail = tail
show_digits (suc fuel) n tail =
    let rest = show_digits fuel (n / 10) ((b'0' + n % 10) ∷ tail) in
    if n / 10 == 0 then (b'0' + n % 10) ∷ tail else rest

-- `%d` of the pattern `w` of an `int`, whose magnitude has at most ten digits.
unfoldable pub show_int : ℕ → Text
show_int w = if ltb w (2 ^ 31) then show_digits 10 w [] else b'-' ∷ show_digits 10 (2 ^ 32 - w) []

abbrev pub is_digit : ℕ → Bool
is_digit c = leb b'0' c && leb c b'9'

-- `isspace`
abbrev pub is_space : ℕ → Bool
is_space c = (c == 32) || (leb 9 c && leb c 13)

unfoldable pub skip_spaces : Text → Text
skip_spaces [] = []
skip_spaces (c ∷ s) = if is_space c then skip_spaces s else c ∷ s

-- The value of the leading digits, behind those that give `acc`.
unfoldable pub read_digits : ℕ → Text → ℕ
read_digits acc [] = acc
read_digits acc (c ∷ s) = elim (is_digit c) [
  | true ↦ read_digits (acc * 10 + (c - b'0')) s
  | false ↦ acc
]

abbrev pub begins_with_digit : Text → Bool
begins_with_digit [] = false
begins_with_digit (c ∷ s) = is_digit c

-- A `long` kept in range, as `strtol` does, then cut to the pattern of an `int`.
abbrev pub positive_int : ℕ → ℕ
positive_int m = (if ltb m (2 ^ 63) then m else 2 ^ 63 - 1) % 2 ^ 32

abbrev pub negative_int : ℕ → ℕ
negative_int m = (2 ^ 64 - (if leb m (2 ^ 63) then m else 2 ^ 63)) % 2 ^ 32

unfoldable pub atoi_signed : Text → ℕ
unfolding read_digits
atoi_signed [] = 0
atoi_signed (c ∷ s) =
    if c == b'-'
    then negative_int (read_digits 0 s)
    else if c == b'+'
    then positive_int (read_digits 0 s)
    else positive_int (read_digits 0 (c ∷ s))

-- `atoi`
unfoldable pub atoi : Text → ℕ
unfolding atoi_signed skip_spaces
atoi s = atoi_signed (skip_spaces s)

unfoldable pub is_number_signed : Text → Bool
unfolding read_digits
is_number_signed [] = false
is_number_signed (c ∷ s) =
    if c == b'-'
    then begins_with_digit s && leb (read_digits 0 s) (2 ^ 63)
    else if c == b'+'
    then begins_with_digit s && ltb (read_digits 0 s) (2 ^ 63)
    else is_digit c && ltb (read_digits 0 (c ∷ s)) (2 ^ 63)

-- Whether `strtol` finds digits, and a value in range.
unfoldable pub is_number : Text → Bool
unfolding is_number_signed skip_spaces
is_number s = is_number_signed (skip_spaces s)
