-- ===== src/Proc/Pids.antt =====
-- The names of the directories in /proc: process ids, and what normalising makes of a base.
use improot.Base.{
  ℕ, zero, suc, ◌+◌, ◌-◌, ◌/◌, ◌%◌, ◌^◌, ltb, ◌≡◌, ◌≢◌, refl, inl, inr, Bool, true, ◌&&◌, ◌||◌, [],
  ◌∷◌, ◌++◌, arith, Bool-cases, All, All-append, All-map, ◌==◌, Text, slash, char_at, codes,
  strncmp_eq,
}
use improot.Path.Components.{Components, IsComponent, IsPlain, body, render}
use improot.Path.Names.{IsName, IsText}
use improot.Proc.{Tracee, proc_pid, normalize_base}
use improot.Proc.Numbers.{show_digits, show_int}

-- Neither a separator, nor a dot, nor the end.
abbrev IsMark : ℕ → Type 0
IsMark c = (c ≢ slash) × (c ≢ 0) × (c ≢ b'.')

show_digits-IsMark :
    (fuel n : ℕ) (tail : Text) → All IsMark tail → All IsMark (show_digits fuel n tail)
unfolding show_digits
show_digits-IsMark zero n tail h = h
show_digits-IsMark (suc fuel) n tail h = elim (Bool-cases (n / 10 == 0)) [
  | inl e ↦ rw e ((omega arith, omega arith, omega arith), h)
  | inr ne ↦ rw ne (
      show_digits-IsMark fuel (n / 10) ((b'0' + n % 10) ∷ tail)
        ((omega arith, omega arith, omega arith), h))
]

show_digits-cons : (fuel n : ℕ) (tail : Text) → tail ≢ [] → show_digits fuel n tail ≢ []
unfolding show_digits
show_digits-cons zero n tail h = h
show_digits-cons (suc fuel) n tail h = elim (Bool-cases (n / 10 == 0)) [
  | inl e ↦ rw e (λ q. cc)
  | inr ne ↦ rw ne (show_digits-cons fuel (n / 10) ((b'0' + n % 10) ∷ tail) (λ q. cc))
]

show_digits-ne-nil : (fuel n : ℕ) → show_digits (suc fuel) n [] ≢ []
unfolding show_digits
show_digits-ne-nil fuel n = elim (Bool-cases (n / 10 == 0)) [
  | inl e ↦ rw e (λ q. cc)
  | inr ne ↦ rw ne (show_digits-cons fuel (n / 10) ((b'0' + n % 10) ∷ []) (λ q. cc))
]

IsName-marks : (t : Text) → t ≢ [] → All IsMark t → IsName t
IsName-marks [] ne h = absurd (ne refl)
IsName-marks (a ∷ t) ne h =
    ((ne, ((h.0.0, h.0.1), All-map _ _ t (λ c m. (m.0, m.1)) h.1)), ground arith, ground arith)

-- A process id is a name.
pub show_int-IsName : (w : ℕ) → IsName (show_int w)
unfolding show_int
show_int-IsName w = elim (Bool-cases (ltb w (2 ^ 31))) [
  | inl e ↦ rw e (IsName-marks _ (show_digits-ne-nil 9 w) (show_digits-IsMark 10 w [] tt))
  | inr ne ↦ rw ne (
      IsName-marks _ (λ q. cc)
        ((omega arith, omega arith, omega arith), show_digits-IsMark 10 (2 ^ 32 - w) [] tt))
]

nonzero : (c : Text) → IsPlain c → All (λ a. a ≢ 0) c
nonzero c h = All-map _ _ c (λ a p. p.1) h

-- The link to a process's own directory.
pub proc_pid-IsText : (pid : ℕ) → IsText (proc_pid pid)
unfolding proc_pid
proc_pid-IsText pid = (
  λ e. cc,
  All-append (λ a. a ≢ 0) (codes "/proc/") (show_int pid) (ground arith)
      (nonzero (show_int pid) (show_int-IsName pid).0.1),
)

-- A name that reads `self` up to a separator or the end is `self`.
reads_self : Text → Components → Bool
reads_self c bs =
    strncmp_eq 4 (c ++ body bs) (codes "self")
    && ((char_at (c ++ body bs) 4 == slash) || (char_at (c ++ body bs) 4 == 0))

eq_of_reads_self :
    (c : Text) (bs : Components) → IsComponent c → reads_self c bs ≡ true → c ≡ codes "self"
unfolding reads_self
eq_of_reads_self [] bs h e = absurd (h.0 refl)
eq_of_reads_self (x ∷ []) [] h e = ground arith
eq_of_reads_self (x ∷ []) (b ∷ bs) h e = ground arith
eq_of_reads_self (x ∷ y ∷ []) [] h e = ground arith
eq_of_reads_self (x ∷ y ∷ []) (b ∷ bs) h e = ground arith
eq_of_reads_self (x ∷ y ∷ z ∷ []) [] h e = ground arith
eq_of_reads_self (x ∷ y ∷ z ∷ []) (b ∷ bs) h e = ground arith
eq_of_reads_self (x ∷ y ∷ z ∷ w ∷ []) bs h e = ground arith
eq_of_reads_self (x ∷ y ∷ z ∷ w ∷ v ∷ c) bs h e = ground arith

abbrev pub in_proc : Text → Components → Text
in_proc c bs = render (codes "proc" ∷ c ∷ bs)

-- Below /proc, normalising changes the first name at most.
pub normalize_base-in_proc :
    (tracee : Tracee) (c : Text) (bs : Components)
    → IsName c
    → (d : Text) × IsName d × (normalize_base tracee (in_proc c bs) ≡ in_proc d bs)
unfolding normalize_base reads_self
normalize_base-in_proc tracee c bs h = elim (Bool-cases (reads_self c bs)) [
  | inl e ↦ (
    show_int tracee.pid,
    show_int-IsName tracee.pid,
    rw (e, eq_of_reads_self c bs h.0 e) (unfold proc_pid in refl),
  )
  | inr ne ↦ (c, h, rw ne)
]
