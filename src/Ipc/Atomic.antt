-- ===== src/Ipc/Atomic.antt =====
-- The operations of a tracee on a semaphore set are applied all or not at all (sysvipc_sem.c).
use improot.Base.{
  ℕ, zero, suc, ◌+◌, ◌-◌, ◌^◌, ◌<◌, ◌≡◌, ◌≢◌, ◌∙◌, ap, refl, inl, inr, Bool, true, false, not, List,
  [], ◌∷◌, ltb, ◌==◌, ==_iff, arith, length, length-set_elem, get_or, set_elem, Bool-cases,
  if◌then◌else◌,
}
use mathlib.Core.Path.{subst}
use improot.Path.{erange}
use improot.Ipc.{reply, fails, has_flag, ipc_nowait, Sembuf}
use improot.Ipc.Semaphores.{
  max_semval, Check, waits, done, blocked, Tried, set_to, is_blocked, out_of_range, try_op,
  check_ops,
}

-- What the operations on the semaphore `i` add to it, and what they take from it.
abbrev pub added : ℕ → List Sembuf → ℕ
added i [] = 0
added i (sop ∷ sops) =
    (if (sop.sem_num == i) then (if ltb sop.sem_op (2 ^ 15) then sop.sem_op else 0) else 0)
    + added i sops

abbrev pub taken : ℕ → List Sembuf → ℕ
taken i [] = 0
taken i (sop ∷ sops) =
    (if (sop.sem_num == i) then (if ltb sop.sem_op (2 ^ 15) then 0 else 2 ^ 16 - sop.sem_op) else 0)
    + taken i sops

-- Every semaphore, the first being the `k`-th, has got all that the operations on it add and take.
abbrev pub Applied : ℕ → List Sembuf → List ℕ → List ℕ → Type 0
Applied k sops [] [] = Unit
Applied k sops (old ∷ sems) (new ∷ new_sems) =
    (new + taken k sops ≡ old + added k sops) × Applied (suc k) sops sems new_sems
Applied k sops _ _ = ⊥

-- What a group of operations may do to the values: nothing, or all of it.
abbrev pub AllOrNothing : List ℕ → List Sembuf → Check → Type 0
AllOrNothing sems sops waits = Unit
AllOrNothing sems sops (done (reply n) new_sems) = (n ≡ 0) × Applied 0 sops sems new_sems
AllOrNothing sems sops (done (fails e) new_sems) = new_sems ≡ sems

get_or-set_elem : (xs : List ℕ) (i v : ℕ) → i < length xs → get_or (set_elem xs i v) i 0 ≡ v
get_or-set_elem [] i v h = absurd (omega arith)
get_or-set_elem (x ∷ xs) zero v h = refl
get_or-set_elem (x ∷ xs) (suc i) v h = get_or-set_elem xs i v (omega arith)

get_or-set_elem_ne :
    (xs : List ℕ) (i j v : ℕ) → j ≢ i → get_or (set_elem xs j v) i 0 ≡ get_or xs i 0
get_or-set_elem_ne [] i j v h = refl
get_or-set_elem_ne (x ∷ xs) zero zero v h = absurd (h refl)
get_or-set_elem_ne (x ∷ xs) (suc i) zero v h = refl
get_or-set_elem_ne (x ∷ xs) zero (suc j) v h = refl
get_or-set_elem_ne (x ∷ xs) (suc i) (suc j) v h = get_or-set_elem_ne xs i j v (λ e. h (ap suc e))

-- One operation, by what it adds and takes at its own semaphore.
set_elem-step :
    (xs : List ℕ) (num v up down : ℕ)
    → v + down ≡ get_or xs num 0 + up
    → (i : ℕ) → i < length xs
    → get_or (set_elem xs num v) i 0 + (if num == i then down else 0)
      ≡ get_or xs i 0 + (if num == i then up else 0)
set_elem-step xs num v up down h i below = elim (Bool-cases (num == i)) [
  | inl same ↦
      let e : num ≡ i = (==_iff num i).0 same in
      rw same (
        ap (λ k. get_or (set_elem xs k v) i 0 + down) e
        ∙ ap (λ n. n + down) (get_or-set_elem xs i v below)
        ∙ h
        ∙ ap (λ k. get_or xs k 0 + up) e)
  | inr other ↦
      rw other
        (ap (λ n. n + 0) (get_or-set_elem_ne xs i num v (λ e. cc ((==_iff num i).1 e, other))))
]

-- The same, index by index.
abbrev AppliedAt : List ℕ → List Sembuf → List ℕ → Type 0
AppliedAt sems sops new_sems =
    (length new_sems ≡ length sems)
    × ((i : ℕ)
        → i < length sems
        → get_or new_sems i 0 + taken i sops ≡ get_or sems i 0 + added i sops)

all-Applied :
    (k : ℕ) (sops : List Sembuf) (sems new_sems : List ℕ)
    → length new_sems ≡ length sems
    → ((i : ℕ)
        → i < length sems
        → get_or new_sems i 0 + taken (k + i) sops ≡ get_or sems i 0 + added (k + i) sops)
    → Applied k sops sems new_sems
all-Applied k sops [] [] same h = tt
all-Applied k sops [] (y ∷ ys) same h = absurd (omega (arith, same))
all-Applied k sops (x ∷ xs) [] same h = absurd (omega (arith, same))
all-Applied k sops (x ∷ xs) (y ∷ ys) same h =
    let at : k + 0 ≡ k = omega arith in
    (
      subst (λ j. y + taken j sops ≡ x + added j sops) at (h 0 (omega arith)),
      all-Applied (suc k) sops xs ys (omega (arith, same)) λ i below.
          let next : k + suc i ≡ suc k + i = omega arith in
          subst (λ j. get_or ys i 0 + taken j sops ≡ get_or xs i 0 + added j sops) next
            (h (suc i) (omega (arith, below))),
    )

-- What a try leaves.
abbrev TriedApplied : List ℕ → Sembuf → Tried → Type 0
TriedApplied sems sop (set_to next_sems) =
    (length next_sems ≡ length sems)
    × ((i : ℕ)
        → i < length sems
        → get_or next_sems i 0
            + (if sop.sem_num == i
                then (if ltb sop.sem_op (2 ^ 15) then 0 else 2 ^ 16 - sop.sem_op)
                else 0)
          ≡ get_or sems i 0
            + (if sop.sem_num == i then (if ltb sop.sem_op (2 ^ 15) then sop.sem_op else 0) else 0))
TriedApplied sems sop is_blocked = Unit
TriedApplied sems sop out_of_range = Unit

if-TriedApplied :
    (sems : List ℕ) (sop : Sembuf) (b : Bool) (x y : Tried)
    → (b ≡ true → TriedApplied sems sop x)
    → (b ≡ false → TriedApplied sems sop y)
    → TriedApplied sems sop (if b then x else y)
if-TriedApplied sems sop true x y hx hy = hx refl
if-TriedApplied sems sop false x y hx hy = hy refl

try_op-TriedApplied : (sems : List ℕ) (sop : Sembuf) → TriedApplied sems sop (try_op sems sop)
unfolding try_op
try_op-TriedApplied sems sop =
    let value = get_or sems sop.sem_num 0 in
    let less = value - (2 ^ 16 - sop.sem_op) in
    if-TriedApplied sems sop (sop.sem_op == 0) _ _
      (λ zero_op.
        if-TriedApplied sems sop (not (value == 0)) is_blocked _ (λ e. tt)
          (λ e. (refl, λ i below. ground arith)))
      λ other.
        if-TriedApplied sems sop (ltb sop.sem_op (2 ^ 15)) _ _
          (λ adds.
            if-TriedApplied sems sop (ltb max_semval (value + sop.sem_op)) out_of_range _ (λ e. tt)
              (λ e. (
                length-set_elem sems sop.sem_num (value + sop.sem_op),
                λ i below. rw adds (
                    set_elem-step sems sop.sem_num (value + sop.sem_op) sop.sem_op 0 (omega arith) i
                      below),
              )))
          λ takes.
            if-TriedApplied sems sop (ltb value (2 ^ 16 - sop.sem_op)) is_blocked _ (λ e. tt)
              λ enough.
                if-TriedApplied sems sop (ltb max_semval less) out_of_range _ (λ e. tt)
                  (λ e. (
                    length-set_elem sems sop.sem_num less,
                    λ i below. rw takes (
                        set_elem-step sems sop.sem_num less 0 (2 ^ 16 - sop.sem_op) (ground arith) i
                          below),
                  ))

AppliedAt-step :
    (sems mid new_sems : List ℕ) (sop : Sembuf) (sops : List Sembuf)
    → TriedApplied sems sop (set_to mid)
    → AppliedAt mid sops new_sems
    → AppliedAt sems (sop ∷ sops) new_sems
AppliedAt-step sems mid new_sems sop sops (same, step) (all, rest) =
    (all ∙ same, λ i below. omega (arith, step i below, rest i (omega (arith, same, below))))

-- The end of the loop, from the values `start` after some of the operations.
abbrev Ends : List ℕ → List ℕ → List Sembuf → Check → Type 0
Ends sems start sops waits = Unit
Ends sems start sops (done (reply n) new_sems) = (n ≡ 0) × AppliedAt start sops new_sems
Ends sems start sops (done (fails e) new_sems) = new_sems ≡ sems

blocked-Ends :
    (sop : Sembuf) (sems start : List ℕ) (sops : List Sembuf)
    → Ends sems start sops (blocked sop sems)
blocked-Ends sop sems start sops = elim (Bool-cases (has_flag sop.sem_flg ipc_nowait)) [
  | inl nowait ↦ rw nowait refl
  | inr waiting ↦ rw waiting tt
]

Ends-step :
    (sems start mid : List ℕ) (sop : Sembuf) (sops : List Sembuf) (c : Check)
    → TriedApplied start sop (set_to mid)
    → Ends sems mid sops c
    → Ends sems start (sop ∷ sops) c
Ends-step sems start mid sop sops waits h k = tt
Ends-step sems start mid sop sops (done (reply n) new_sems) h k =
    (k.0, AppliedAt-step start mid new_sems sop sops h k.1)
Ends-step sems start mid sop sops (done (fails e) new_sems) h k = k

check_ops-Ends :
    (sems : List ℕ) (sops : List Sembuf) (start : List ℕ)
    → Ends sems start sops (check_ops sems sops start)
unfolding check_ops
check_ops-Ends sems [] start = (refl, (refl, λ i below. refl))
check_ops-Ends sems (sop ∷ sops) start =
    tried (λ s. check_ops-Ends sems sops s) (try_op start sop) (try_op-TriedApplied start sop)
  where
    tried :
        ((s : List ℕ) → Ends sems s sops (check_ops sems sops s))
        → (t : Tried) → TriedApplied start sop t
        → Ends sems start (sop ∷ sops) (elim t [
          | set_to next_sems ↦ check_ops sems sops next_sems
          | is_blocked ↦ blocked sop sems
          | out_of_range ↦ done (fails erange) sems
        ])
    tried rest (set_to next_sems) h = Ends-step sems start next_sems sop sops _ h (rest next_sems)
    tried rest is_blocked h = blocked-Ends sop sems start (sop ∷ sops)
    tried rest out_of_range h = refl

Ends-AllOrNothing :
    (sems : List ℕ) (sops : List Sembuf) (c : Check)
    → Ends sems sems sops c
    → AllOrNothing sems sops c
Ends-AllOrNothing sems sops waits h = h
Ends-AllOrNothing sems sops (done (reply n) new_sems) h = (
  h.0,
  all-Applied 0 sops sems new_sems h.1.0 λ i below.
      let at : i ≡ 0 + i = omega arith in
      subst (λ j. get_or new_sems i 0 + taken j sops ≡ get_or sems i 0 + added j sops) at
        (h.1.1 i below),
)
Ends-AllOrNothing sems sops (done (fails e) new_sems) h = h

pub check_ops-AllOrNothing :
    (sems : List ℕ) (sops : List Sembuf) → AllOrNothing sems sops (check_ops sems sops sems)
check_ops-AllOrNothing sems sops = Ends-AllOrNothing sems sops _ (check_ops-Ends sems sops sems)
