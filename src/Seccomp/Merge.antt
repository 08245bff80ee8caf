-- ===== src/Seccomp/Merge.antt =====
-- Merged lists hold each system call once, with all the flags that are asked for.
use improot.Base.{
  ℕ, zero, suc, ◌+◌, ◌*◌, ◌/◌, ◌%◌, ◌≡◌, ◌∙◌, ap, sym, refl, inl, inr, Bool, true, false, ◌||◌,
  Option, none, some, List, [], ◌∷◌, ◌++◌, arith, if◌then◌else◌, ◌==◌, ==_iff, Bool-cases,
}
use improot.Ipc.{bit_or}
use improot.Sysnum.{Sysnum}
use improot.Seccomp.{FilteredSysnum, merge_one, merge_filtered_sysnums, merge_extensions}

-- The flags of two, if they are there.
abbrev pub join : Option ℕ → Option ℕ → Option ℕ
join none y = y
join (some f) none = some f
join (some f) (some g) = some (bit_or 64 f g)

abbrev pub flags_in : Sysnum → FilteredSysnum → Option ℕ
flags_in v sysnum = if sysnum.value == v then some sysnum.flags else none

-- The flags of the first entry of a system call.
abbrev pub flags_of : Sysnum → List FilteredSysnum → Option ℕ
flags_of v [] = none
flags_of v (sysnum ∷ sysnums) = if sysnum.value == v then some sysnum.flags else flags_of v sysnums

-- All the flags that a list asks for, if it names the system call.
abbrev pub wanted : Sysnum → List FilteredSysnum → Option ℕ
wanted v [] = none
wanted v (sysnum ∷ sysnums) = join (flags_in v sysnum) (wanted v sysnums)

-- All the lists, one behind the other.
abbrev pub all_lists :
    List FilteredSysnum → List (Option (List FilteredSysnum)) → List FilteredSysnum
all_lists sysnums [] = sysnums
all_lists sysnums (none ∷ extensions) = all_lists sysnums extensions
all_lists sysnums (some filtered_sysnums ∷ extensions) =
    all_lists (sysnums ++ filtered_sysnums) extensions

bit : (x : Bool) (r : ℕ) → (((if x then 1 else 0) + 2 * r) % 2 == 1) ≡ x
bit true r = (==_iff ((1 + 2 * r) % 2) 1).1 (omega arith)
bit false r = ground arith

half : (x : Bool) (r : ℕ) → ((if x then 1 else 0) + 2 * r) / 2 ≡ r
half true r = omega arith
half false r = omega arith

or_assoc : (x y z : Bool) → ((x || y) || z) ≡ (x || (y || z))
or_assoc true y z = refl
or_assoc false y z = refl

bit_or_assoc : (bits a b c : ℕ) → bit_or bits (bit_or bits a b) c ≡ bit_or bits a (bit_or bits b c)
unfolding bit_or
bit_or_assoc zero a b c = refl
bit_or_assoc (suc bits) a b c =
    let ab = bit_or bits (a / 2) (b / 2) in
    let bc = bit_or bits (b / 2) (c / 2) in
    let x = a % 2 == 1 in
    let y = b % 2 == 1 in
    let z = c % 2 == 1 in
    rw (bit (x || y) ab, half (x || y) ab, bit (y || z) bc, half (y || z) bc, or_assoc x y z)
      (ap (λ r. (if x || (y || z) then 1 else 0) + 2 * r)
        (bit_or_assoc bits (a / 2) (b / 2) (c / 2)))

join_assoc : (x y z : Option ℕ) → join (join x y) z ≡ join x (join y z)
join_assoc none y z = refl
join_assoc (some f) none z = refl
join_assoc (some f) (some g) none = refl
join_assoc (some f) (some g) (some h) = ap some (bit_or_assoc 64 f g h)

join-none : (x : Option ℕ) → join x none ≡ x
join-none none = refl
join-none (some f) = refl

wanted-append :
    (v : Sysnum) (xs ys : List FilteredSysnum)
    → wanted v (xs ++ ys) ≡ join (wanted v xs) (wanted v ys)
wanted-append v [] ys = refl
wanted-append v (x ∷ xs) ys =
    ap (λ o. join (flags_in v x) o) (wanted-append v xs ys)
    ∙ sym (join_assoc (flags_in v x) (wanted v xs) (wanted v ys))

flags_of-merge_one :
    (v : Sysnum) (olds : List FilteredSysnum) (new : FilteredSysnum)
    → flags_of v (merge_one olds new) ≡ join (flags_of v olds) (flags_in v new)
unfolding merge_one
flags_of-merge_one v [] new = refl
flags_of-merge_one v (old ∷ olds) new = elim (Bool-cases (old.value == new.value)) [
  | inl same ↦
      let e : old.value ≡ new.value = (==_iff old.value new.value).0 same in
      elim (Bool-cases (old.value == v)) [
        | inl own ↦
            let own' : (new.value == v) ≡ true = ap (λ n. n == v) (sym e) ∙ own in
            rw (same, own, own') refl
        | inr other ↦
            let other' : (new.value == v) ≡ false = ap (λ n. n == v) (sym e) ∙ other in
            rw (same, other, other') (sym (join-none (flags_of v olds)))
      ]
  | inr differ ↦ elim (Bool-cases (old.value == v)) [
    | inl own ↦
        let e : old.value ≡ v = (==_iff old.value v).0 own in
        elim (Bool-cases (new.value == v)) [
          | inl own' ↦
              let f : new.value ≡ v = (==_iff new.value v).0 own' in
              let same : (old.value == new.value) ≡ true =
                (==_iff old.value new.value).1 (e ∙ sym f) in
              absurd (cc (same, differ))
          | inr other ↦ rw (differ, own, other) refl
        ]
    | inr other ↦ rw (differ, other) (flags_of-merge_one v olds new)
  ]
]

flags_of-merge :
    (v : Sysnum) (sysnums news : List FilteredSysnum)
    → flags_of v (merge_filtered_sysnums sysnums news) ≡ join (flags_of v sysnums) (wanted v news)
unfolding merge_filtered_sysnums
flags_of-merge v sysnums [] = sym (join-none (flags_of v sysnums))
flags_of-merge v sysnums (new ∷ news) =
    flags_of-merge v (merge_one sysnums new) news
    ∙ ap (λ o. join o (wanted v news)) (flags_of-merge_one v sysnums new)
    ∙ join_assoc (flags_of v sysnums) (flags_in v new) (wanted v news)

flags_of-extensions :
    (v : Sysnum) (sysnums asked : List FilteredSysnum)
    (extensions : List (Option (List FilteredSysnum)))
    → flags_of v sysnums ≡ wanted v asked
    → flags_of v (merge_extensions sysnums extensions) ≡ wanted v (all_lists asked extensions)
unfolding merge_extensions
flags_of-extensions v sysnums asked [] h = h
flags_of-extensions v sysnums asked (none ∷ extensions) h =
    flags_of-extensions v sysnums asked extensions h
flags_of-extensions v sysnums asked (some list ∷ extensions) h =
    flags_of-extensions v (merge_filtered_sysnums sysnums list) (asked ++ list) extensions (
      flags_of-merge v sysnums list
      ∙ ap (λ o. join o (wanted v list)) h
      ∙ sym (wanted-append v asked list))

-- The merged list holds a system call exactly if one of the lists names it, and its flags are the
-- union of those that all lists ask for.
pub merged-wanted :
    (v : Sysnum) (proot_sysnums : List FilteredSysnum)
    (extensions : List (Option (List FilteredSysnum)))
    → flags_of v (merge_extensions (merge_filtered_sysnums [] proot_sysnums) extensions)
      ≡ wanted v (all_lists proot_sysnums extensions)
merged-wanted v proot_sysnums extensions =
    flags_of-extensions v (merge_filtered_sysnums [] proot_sysnums) proot_sysnums extensions
      (flags_of-merge v [] proot_sysnums)
