-- ===== src/Base/Texts.antt =====
-- C strings: the bytes before the terminating NUL. A read at the terminator gives 0.
use Prim.Native.Nat.{ℕ, zero, suc}
use Prim.Native.Char.{code}
use Prim.Native.String.{String}
use mathlib.Core.Path.{◌≡◌, refl, ap}
use mathlib.Core.Bool.{Bool, true, false, ◌&&◌}
use mathlib.Core.List.{List, [], ◌∷◌, ◌++◌}
use native.Mathlib.Omega.{arith}
use improot.Base.Tests.{◌==◌}
use improot.Base.Lists.{length, get_or, take}

abbrev pub Text : Type 0
Text = List ℕ

-- A literal's bytes, for ASCII.
abbrev pub codes : String → Text
codes String.[] = []
codes (String.◌∷◌ c s) = code c ∷ codes s

abbrev pub slash : ℕ
slash = b'/'

-- `s[i]`
abbrev pub char_at : Text → ℕ → ℕ
char_at s i = get_or s i 0

-- `strlen(s)`
abbrev pub strlen : Text → ℕ
strlen s = length s

-- `strcmp(s, t) == 0`
abbrev pub text_eq : Text → Text → Bool
text_eq [] [] = true
text_eq [] (b ∷ t) = false
text_eq (a ∷ s) [] = false
text_eq (a ∷ s) (b ∷ t) = (a == b) && text_eq s t

-- `strncmp(s, t, n) == 0`
abbrev pub strncmp_eq : ℕ → Text → Text → Bool
strncmp_eq zero s t = true
strncmp_eq (suc n) [] [] = true
strncmp_eq (suc n) [] (b ∷ t) = false
strncmp_eq (suc n) (a ∷ s) [] = false
strncmp_eq (suc n) (a ∷ s) (b ∷ t) = (a == b) && strncmp_eq n s t

pub eq_of_text_eq : (s t : Text) → text_eq s t ≡ true → s ≡ t
eq_of_text_eq [] [] h = refl
eq_of_text_eq [] (b ∷ t) h = cc
eq_of_text_eq (a ∷ s) [] h = cc
eq_of_text_eq (a ∷ s) (b ∷ t) h = ground (arith, eq_of_text_eq s t)

pub text_eq_refl : (s : Text) → text_eq s s ≡ true
text_eq_refl [] = refl
text_eq_refl (a ∷ s) = ground (arith, text_eq_refl s)

-- The last byte of `d ∷ s`.
abbrev pub last_of : ℕ → Text → ℕ
last_of d [] = d
last_of d (a ∷ s) = last_of a s

pub char_at-last : (a : ℕ) (s : Text) → char_at (a ∷ s) (strlen s) ≡ last_of a s
char_at-last a [] = refl
char_at-last a (b ∷ s) = char_at-last b s

pub last_of-append : (d : ℕ) (s t : Text) → last_of d (s ++ t) ≡ last_of (last_of d s) t
last_of-append d [] t = refl
last_of-append d (a ∷ s) t = last_of-append a s t

pub char_at-strlen : (s : Text) → char_at s (strlen s) ≡ 0
char_at-strlen [] = refl
char_at-strlen (a ∷ s) = char_at-strlen s

pub take-strlen : (s : Text) → take (strlen s) s ≡ s
take-strlen [] = refl
take-strlen (a ∷ s) = ap (λ t. a ∷ t) (take-strlen s)
