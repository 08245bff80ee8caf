-- ===== src/Ipc/Values.antt =====
-- The values of a semaphore: they change all or not at all, and stay within their limit.
use improot.Base.{
  ℕ, zero, suc, ◌+◌, ◌-◌, ◌%◌, ◌^◌, ◌≤◌, ◌≡◌, ◌∙◌, refl, inl, inr, Bool, true, false, not, ◌&&◌,
  Option, none, some, List, [], ◌∷◌, ltb, leb, ◌==◌, arith, length, length-set_elem,
  length-replicate, replicate, get_or, set_elem, All, All-append, All-set_elem, All-get_elem?,
  Bool-cases, if◌then◌else◌,
}
use improot.Path.{erange}
use improot.Ipc.{
  Reply, reply, fails, has_flag, ipc_creat, ipc_excl, ipc_nowait, Object, Lookup, no_object,
  object_at, lookup_object, Slot, present, absent, find_slot, Sembuf, Config,
}
use improot.Ipc.Good.{lookup_object-found}
use improot.Ipc.Atomic.{AllOrNothing, check_ops-AllOrNothing}
use improot.Ipc.Semaphores.{
  max_semval, max_sems, bad_nsems, Values, Semaphores, made, generation_of, create_semaphore,
  get_semaphore, semget, done, blocked, Tried, set_to, is_blocked, out_of_range, try_op, check_ops,
  sem_check, values_after, waits_for_semaphore, check_others, operate, semop_read, semop_at, semop,
  all_below,
}

-- `sysvipc_sem_check` applies the operations of a tracee all or not at all: the tracee waits; or
-- the result is 0, and the new value of each semaphore is the old one with all that the operations
-- on it add, less all that they take; or the result is an error and the values are as before.
pub sem_check-AllOrNothing :
    (config : Config) (sems : List ℕ) → AllOrNothing sems config.semop_sops (sem_check config sems)
unfolding sem_check
sem_check-AllOrNothing config sems = check_ops-AllOrNothing sems config.semop_sops

-- A value within the limit.
abbrev pub IsValue : ℕ → Type 0
IsValue v = v ≤ max_semval

-- The values are within the limit, and as many as before.
abbrev pub Fits : ℕ → List ℕ → Type 0
Fits n sems = All IsValue sems × (length sems ≡ n)

abbrev TriedFits : ℕ → Tried → Type 0
TriedFits n (set_to sems) = Fits n sems
TriedFits n is_blocked = Unit
TriedFits n out_of_range = Unit

if-TriedFits :
    (n : ℕ) (b : Bool) (x y : Tried)
    → (b ≡ true → TriedFits n x)
    → (b ≡ false → TriedFits n y)
    → TriedFits n (if b then x else y)
if-TriedFits n true x y hx hy = hx refl
if-TriedFits n false x y hx hy = hy refl

pub set_elem-Fits :
    (n : ℕ) (sems : List ℕ) (i v : ℕ) → Fits n sems → IsValue v → Fits n (set_elem sems i v)
set_elem-Fits n sems i v (h, e) hv =
    (All-set_elem IsValue sems i v h hv, length-set_elem sems i v ∙ e)

try_op-Fits : (n : ℕ) (sems : List ℕ) (sop : Sembuf) → Fits n sems → TriedFits n (try_op sems sop)
unfolding try_op
try_op-Fits n sems sop h =
    let value = get_or sems sop.sem_num 0 in
    let less = value - (2 ^ 16 - sop.sem_op) in
    if-TriedFits n (sop.sem_op == 0) _ _
      (λ zero_op. if-TriedFits n (not (value == 0)) is_blocked _ (λ e. tt) (λ e. h))
      λ other.
        if-TriedFits n (ltb sop.sem_op (2 ^ 15)) _ _
          (λ adds.
            if-TriedFits n (ltb max_semval (value + sop.sem_op)) out_of_range _ (λ e. tt)
              (λ e. set_elem-Fits n sems sop.sem_num (value + sop.sem_op) h (ground arith)))
          λ takes.
            if-TriedFits n (ltb value (2 ^ 16 - sop.sem_op)) is_blocked _ (λ e. tt)
              λ enough.
                if-TriedFits n (ltb max_semval less) out_of_range _ (λ e. tt)
                  (λ e. set_elem-Fits n sems sop.sem_num less h (ground arith))

check_ops-Fits :
    (n : ℕ) (old sems : List ℕ) (sops : List Sembuf) (new_sems : List ℕ)
    → Fits n old
    → Fits n sems
    → Fits n new_sems
    → Fits n (values_after old (check_ops sems sops new_sems))
unfolding check_ops
check_ops-Fits n old sems [] new_sems ho hs hn = hn
check_ops-Fits n old sems (sop ∷ sops) new_sems ho hs hn =
    tried (λ s h. check_ops-Fits n old sems sops s ho hs h) (try_op new_sems sop)
      (try_op-Fits n new_sems sop hn)
  where
    tried :
        ((s : List ℕ) → Fits n s → Fits n (values_after old (check_ops sems sops s)))
        → (t : Tried) → TriedFits n t
        → Fits n (
            values_after old (elim t [
              | set_to next_sems ↦ check_ops sems sops next_sems
              | is_blocked ↦ blocked sop sems
              | out_of_range ↦ done (fails erange) sems
            ]))
    tried rest (set_to next_sems) h = rest next_sems h
    tried rest is_blocked h = elim (Bool-cases (has_flag sop.sem_flg ipc_nowait)) [
      | inl nowait ↦ rw nowait hs
      | inr waiting ↦ rw waiting ho
    ]
    tried rest out_of_range h = hs

sem_check-Fits :
    (n : ℕ) (config : Config) (sems : List ℕ)
    → Fits n sems
    → Fits n (values_after sems (sem_check config sems))
unfolding sem_check
sem_check-Fits n config sems h = check_ops-Fits n sems sems config.semop_sops sems h h h

check_others-Fits :
    (n pid namespace index : ℕ) (configs : List Config) (sems : List ℕ)
    → Fits n sems
    → Fits n (check_others pid namespace index configs sems).1
unfolding check_others
check_others-Fits n pid namespace index [] sems h = h
check_others-Fits n pid namespace index (config ∷ configs) sems h =
    elim (Bool-cases (not (config.pid == pid) && waits_for_semaphore namespace index config)) [
      | inl other ↦
          rw other
            (check_others-Fits n pid namespace index configs _ (sem_check-Fits n config sems h))
      | inr same ↦ rw same (check_others-Fits n pid namespace index configs sems h)
    ]

-- The values of a semaphore in use.
abbrev pub IsHeld : Object Values → Type 0
IsHeld object = let values = object.content in object.valid ≡ true → Fits values.nsems values.sems

zeros-IsValue : (n : ℕ) → All IsValue (replicate n 0)
zeros-IsValue zero = tt
zeros-IsValue (suc n) = (omega arith, zeros-IsValue n)

made-IsHeld : (id generation nsems : ℕ) → IsHeld (made id generation nsems)
made-IsHeld id generation nsems valid = (zeros-IsValue nsems, length-replicate nsems 0)

pub semget-IsHeld :
    (id nsems semflg : ℕ) (semaphores : Semaphores)
    → All IsHeld semaphores
    → All IsHeld (semget id nsems semflg semaphores).1
unfolding semget get_semaphore create_semaphore
semget-IsHeld id nsems semflg semaphores h = elim (Bool-cases (bad_nsems (nsems % 2 ^ 32))) [
  | inl bad ↦ rw bad h
  | inr good ↦ rw good (slot (find_slot id semaphores 0 none))
]
  where
    n : ℕ
    n = nsems % 2 ^ 32

    fresh : (unused : Option ℕ) → All IsHeld (create_semaphore id n semaphores unused).1
    fresh none = elim (Bool-cases (leb max_sems (length semaphores))) [
      | inl full ↦ rw full h
      | inr room ↦ rw room (All-append IsHeld semaphores _ h (made-IsHeld id 0 n, tt))
    ]
    fresh (some i) =
        All-set_elem IsHeld semaphores i (made id (generation_of semaphores i) n) h
          (made-IsHeld id (generation_of semaphores i) n)

    slot : (s : Slot Values) → All IsHeld (get_semaphore id n semflg semaphores s).1
    slot (absent unused) = elim (Bool-cases (has_flag semflg ipc_creat)) [
      | inl creates ↦ rw creates (fresh unused)
      | inr looks ↦ rw looks h
    ]
    slot (present i object) =
        let values = object.content in
        elim (Bool-cases (has_flag semflg ipc_creat && has_flag semflg ipc_excl)) [
          | inl excludes ↦ rw excludes h
          | inr shares ↦ rw shares (elim (Bool-cases (ltb values.nsems n)) [
            | inl few ↦ rw few h
            | inr enough ↦ rw enough h
          ])
        ]

pub found-Fits :
    (id : ℕ) (semaphores : Semaphores) {i : ℕ} {object : Object Values}
    → All IsHeld semaphores
    → lookup_object id semaphores ≡ object_at i object
    → (let values = object.content in Fits values.nsems values.sems)
found-Fits id semaphores {i} h e =
    let (at, valid) = lookup_object-found id semaphores e in
    All-get_elem? IsHeld semaphores i h at valid

semop_read-IsHeld :
    (config : Config) (configs : List Config) (semaphores : Semaphores) (i : ℕ)
    (object : Object Values) (r : Reply (List Sembuf))
    → All IsHeld semaphores
    → (let values = object.content in Fits values.nsems values.sems)
    → (let o = semop_read config configs semaphores i object r in All IsHeld o.semaphores)
unfolding semop_read operate
semop_read-IsHeld config configs semaphores i object (fails e) h fits = h
semop_read-IsHeld config configs semaphores i object (reply sops) h fits =
    let values = object.content in
    elim (Bool-cases (all_below values.nsems sops)) [
      | inl below ↦ rw below (
          All-set_elem IsHeld semaphores i _ h (λ valid.
            check_others-Fits values.nsems _ _ _ configs _ (sem_check-Fits values.nsems _ _ fits)))
      | inr above ↦ rw above h
    ]

pub semop-IsHeld :
    (config : Config) (configs : List Config) (id nsops : ℕ) (read : ℕ → Reply (List Sembuf))
    (semaphores : Semaphores)
    → All IsHeld semaphores
    → (let o = semop config configs id nsops read semaphores in All IsHeld o.semaphores)
unfolding semop semop_at
semop-IsHeld config configs id nsops read semaphores h = looked (lookup_object id semaphores) refl
  where
    looked :
        (l : Lookup Values)
        → lookup_object id semaphores ≡ l
        → (let o = semop_at config configs semaphores nsops read l in All IsHeld o.semaphores)
    looked no_object e = h
    looked (object_at i object) e = ground (
      arith,
      h,
      semop_read-IsHeld config configs semaphores i object (read nsops) h
          (found-Fits id semaphores h e),
    )
