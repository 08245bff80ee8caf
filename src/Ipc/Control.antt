-- ===== src/Ipc/Control.antt =====
-- The control of semaphores, and the semaphores over sequences of system calls.
use improot.Base.{
  ℕ, ◌-◌, ◌%◌, ◌^◌, ◌≡◌, ◌≢◌, refl, Bool, true, false, ◌||◌, List, [], ltb, leb, ◌==◌, arith, All,
  All-set_elem, if◌then◌else◌,
}
use improot.Ipc.{
  Reply, has_flag, Object, Lookup, no_object, object_at, lookup_object, Sembuf, Config,
}
use improot.Ipc.Semaphores.{max_semval, Values, Semaphores, semget, Operated, semop}
use improot.Ipc.Semctl.{Writes, Set, control_values, control_set, semctl, unused_values}
use improot.Ipc.Values.{Fits, IsHeld, semget-IsHeld, semop-IsHeld, found-Fits, set_elem-Fits}

module _ {M : Type 0} where
  -- What holds of every branch of a test.
  if-Set :
      (P : Set M → Type 0) (b : Bool) (x y : Set M)
      → (b ≡ true → P x)
      → (b ≡ false → P y)
      → P (if b then x else y)
  if-Set P true x y hx hy = hx refl
  if-Set P false x y hx hy = hy refl

  abbrev HoldsAll : Set M → Type 0
  HoldsAll s = All IsHeld s.semaphores

  abbrev Keeps : List Config → Set M → Type 0
  Keeps configs s = s.configs ≡ configs

module _ {M : Type 0} (writes : Writes M) where
  control_values-IsHeld :
      (m : M) (config : Config) (configs : List Config) (semaphores : Semaphores) (i : ℕ)
      (object : Object Values) (semnum cmd cmdarg : ℕ)
      → All IsHeld semaphores
      → (let values = object.content in Fits values.nsems values.sems)
      → HoldsAll (control_values writes m config configs semaphores i object semnum cmd cmdarg)
  unfolding control_values
  control_values-IsHeld m config configs semaphores i object semnum cmd cmdarg h fits =
      let values = object.content in
      let command = if has_flag cmd 256 then cmd - 256 else cmd in
      if-Set HoldsAll (command == 12) _ _
        (λ getval.
          if-Set HoldsAll (leb (2 ^ 31) semnum || leb values.nsems semnum) _ _ (λ e. h) (λ e. h))
        λ a.
          if-Set HoldsAll (command == 16) _ _
            (λ setval.
              if-Set HoldsAll (ltb max_semval cmdarg) _ _ (λ e. h)
                λ small.
                  if-Set HoldsAll (leb (2 ^ 31) semnum || leb values.nsems semnum) _ _ (λ e. h)
                    λ inside. All-set_elem IsHeld semaphores i _ h (λ valid.
                      set_elem-Fits values.nsems values.sems semnum cmdarg fits (ground arith)))
            λ b.
              if-Set HoldsAll (command == 13) _ _ (λ getall. h)
                λ c.
                  if-Set HoldsAll (command == 0) _ _
                    (λ rmid.
                      All-set_elem IsHeld semaphores i (unused_values object) h (λ valid. cc))
                    λ d.
                      if-Set HoldsAll ((command == 3) || (command == 19)) _ _ (λ info. h)
                        (λ other. h)

  control_values-Keeps :
      (m : M) (config : Config) (configs : List Config) (semaphores : Semaphores) (i : ℕ)
      (object : Object Values) (semnum cmd cmdarg : ℕ)
      → cmd ≢ 0
      → cmd ≢ 256
      → Keeps configs (control_values writes m config configs semaphores i object semnum cmd cmdarg)
  unfolding control_values
  control_values-Keeps m config configs semaphores i object semnum cmd cmdarg plain flagged =
      let values = object.content in
      let command = if has_flag cmd 256 then cmd - 256 else cmd in
      let outside = leb (2 ^ 31) semnum || leb values.nsems semnum in
      if-Set (Keeps configs) (command == 12) _ _
        (λ getval. if-Set (Keeps configs) outside _ _ (λ e. refl) (λ e. refl))
        λ a.
          if-Set (Keeps configs) (command == 16) _ _
            (λ setval.
              if-Set (Keeps configs) (ltb max_semval cmdarg) _ _ (λ e. refl)
                λ small. if-Set (Keeps configs) outside _ _ (λ e. refl) (λ e. refl))
            λ b.
              if-Set (Keeps configs) (command == 13) _ _ (λ getall. refl)
                λ c.
                  if-Set (Keeps configs) (command == 0) _ _ (λ rmid. absurd (ground arith))
                    λ d.
                      if-Set (Keeps configs) ((command == 3) || (command == 19)) _ _ (λ info. refl)
                        (λ other. refl)

  semctl-IsHeld :
      (m : M) (config : Config) (configs : List Config) (id semnum cmd cmdarg : ℕ)
      (semaphores : Semaphores)
      → All IsHeld semaphores
      → HoldsAll (semctl writes m config configs id semnum cmd cmdarg semaphores)
  unfolding semctl control_set
  semctl-IsHeld m config configs id semnum cmd cmdarg semaphores h =
      looked (lookup_object id semaphores) refl
    where
      looked :
          (l : Lookup Values)
          → lookup_object id semaphores ≡ l
          → HoldsAll (
              control_set writes m config configs semaphores
                (semnum % 2 ^ 32)
                (cmd % 2 ^ 32)
                cmdarg
                l)
      looked no_object e = h
      looked (object_at i object) e =
          control_values-IsHeld m config configs semaphores i object (semnum % 2 ^ 32)
            (cmd % 2 ^ 32) cmdarg h (found-Fits id semaphores h e)

  -- `sysvipc_semctl` wakes no tracee unless the command is IPC_RMID: whatever the other commands
  -- do to the values, SETVAL included, every tracee waits as before.
  pub semctl-Keeps :
      (m : M) (config : Config) (configs : List Config) (id semnum cmd cmdarg : ℕ)
      (semaphores : Semaphores)
      → cmd % 2 ^ 32 ≢ 0
      → cmd % 2 ^ 32 ≢ 256
      → (let s = semctl writes m config configs id semnum cmd cmdarg semaphores in
          s.configs ≡ configs)
  unfolding semctl control_set
  semctl-Keeps m config configs id semnum cmd cmdarg semaphores plain flagged =
      looked (lookup_object id semaphores)
    where
      looked :
          (l : Lookup Values)
          → Keeps configs (
              control_set writes m config configs semaphores
                (semnum % 2 ^ 32)
                (cmd % 2 ^ 32)
                cmdarg
                l)
      looked no_object = refl
      looked (object_at i object) =
          control_values-Keeps m config configs semaphores i object (semnum % 2 ^ 32) (cmd % 2 ^ 32)
            cmdarg plain flagged

  abbrev pub operated_semaphores : Operated → Semaphores
  operated_semaphores o = o.semaphores

  abbrev pub set_semaphores : Set M → Semaphores
  set_semaphores s = s.semaphores

  -- The semaphores that sequences of system calls lead to, whatever the arguments, the tracees
  -- and their memories.
  pub data Follows : Semaphores → Type 0 where
    at_first : Follows []
    by_semget :
        {semaphores : Semaphores}
        → Follows semaphores
        → (id nsems semflg : ℕ) → Follows (semget id nsems semflg semaphores).1
    by_semop :
        {semaphores : Semaphores}
        → Follows semaphores
        → (config : Config) (configs : List Config) (id nsops : ℕ) (read : ℕ → Reply (List Sembuf))
        → Follows (operated_semaphores (semop config configs id nsops read semaphores))
    by_semctl :
        {semaphores : Semaphores}
        → Follows semaphores
        → (m : M) (config : Config) (configs : List Config) (id semnum cmd cmdarg : ℕ)
        → Follows (set_semaphores (semctl writes m config configs id semnum cmd cmdarg semaphores))

  -- After any sequence of semget, semop and semctl, every semaphore set in use has as many values
  -- as `nsems` says, and no value is above SYSVIPC_MAX_SEMVAL.
  pub Follows-IsHeld : (semaphores : Semaphores) → Follows semaphores → All IsHeld semaphores
  Follows-IsHeld _ at_first = tt
  Follows-IsHeld _ (by_semget {semaphores} f id nsems semflg) =
      semget-IsHeld id nsems semflg semaphores (Follows-IsHeld semaphores f)
  Follows-IsHeld _ (by_semop {semaphores} f config configs id nsops read) =
      semop-IsHeld config configs id nsops read semaphores (Follows-IsHeld semaphores f)
  Follows-IsHeld _ (by_semctl {semaphores} f m config configs id semnum cmd cmdarg) =
      semctl-IsHeld m config configs id semnum cmd cmdarg semaphores (Follows-IsHeld semaphores f)
