-- ===== src/Ipc/Semctl.antt =====
-- src/extension/sysvipc/sysvipc_sem.c: the control of semaphores.
use improot.Base.{
  ℕ, ◌+◌, ◌-◌, ◌%◌, ◌^◌, false, ◌||◌, List, [], ◌∷◌, ltb, leb, ◌==◌, if◌then◌else◌, length, get_or,
  set_elem,
}
use improot.Path.{einval, eidrm, erange, Status, success, failure}
use improot.Ipc.{
  Reply, reply, fails, has_flag, Object, Lookup, no_object, object_at, lookup_object, Config,
  wake_tracee,
}
use improot.Ipc.Semaphores.{max_semval, Values, Semaphores, waits_for_semaphore, with_sems}

-- The tracees that a removal wakes.
unfoldable pub wake_all : ℕ → ℕ → List Config → List Config
wake_all namespace index [] = []
wake_all namespace index (config ∷ configs) =
    let rest = wake_all namespace index configs in
    if waits_for_semaphore namespace index config
    then wake_tracee config (fails eidrm) ∷ rest
    else config ∷ rest

-- `SysVIpcSeminfo`, the fields that are not constant.
pub record Seminfo : Type 0 where
  pub semusz : ℕ
  pub semaem : ℕ

unfoldable pub count_nsems : Semaphores → ℕ
count_nsems [] = 0
count_nsems (object ∷ semaphores) =
    let values = object.content in values.nsems + count_nsems semaphores

-- Writes to the memory of a tracee.
pub record Writes (M : Type 0) : Type 0 where
  pub write_sems : M → ℕ → List ℕ → Status × M
  pub write_seminfo : M → ℕ → Seminfo → Status × M

pub record Set (M : Type 0) : Type 0 where
  pub status : Reply ℕ
  pub memory : M
  pub configs : List Config
  pub semaphores : Semaphores

abbrev pub status_of : Status → Reply ℕ
status_of success = reply 0
status_of (failure e) = fails e

abbrev pub unused_values : Object Values → Object Values
unused_values object =
    let values = object.content in
    record object {
      valid = false;
      generation = (object.generation + 1) % 2 ^ 16;
      content = record values { sems = [] };
    }

module _ {M : Type 0} (writes : Writes M) where
  abbrev unchanged : Reply ℕ → M → List Config → Semaphores → Set M
  unchanged status m configs semaphores = record {
    status = status;
    memory = m;
    configs = configs;
    semaphores = semaphores;
  }

  abbrev after_write : Status × M → List Config → Semaphores → Set M
  after_write (status, m) configs semaphores = unchanged (status_of status) m configs semaphores

  -- The commands, less the flag `IPC_64`.
  unfoldable pub control_values :
      M → Config → List Config → Semaphores → ℕ → Object Values → ℕ → ℕ → ℕ → Set M
  control_values m config configs semaphores i object semnum cmd cmdarg =
      let values = object.content in
      let command = if has_flag cmd 256 then cmd - 256 else cmd in
      if command == 12
      then (if leb (2 ^ 31) semnum || leb values.nsems semnum
          then unchanged (fails einval) m configs semaphores
          else unchanged (reply (get_or values.sems semnum 0)) m configs semaphores)
      else if command == 16
      then (if ltb max_semval cmdarg
          then unchanged (fails erange) m configs semaphores
          else if leb (2 ^ 31) semnum || leb values.nsems semnum
          then unchanged (fails einval) m configs semaphores
          else unchanged (reply 0) m configs
              (set_elem semaphores i (with_sems object (set_elem values.sems semnum cmdarg))))
      else if command == 13
      then after_write (writes.write_sems m cmdarg values.sems) configs semaphores
      else if command == 0
      then unchanged (reply 0) m (wake_all config.ipc_namespace i configs)
          (set_elem semaphores i (unused_values object))
      else if (command == 3) || (command == 19)
      then after_write
          (writes.write_seminfo m cmdarg (
            if cmd == 19
            then record { semusz = length semaphores; semaem = count_nsems semaphores }
            else record { semusz = 0; semaem = 0 }))
          configs semaphores
      else unchanged (fails einval) m configs semaphores

  unfoldable pub control_set :
      M → Config → List Config → Semaphores → ℕ → ℕ → ℕ → Lookup Values → Set M
  control_set m config configs semaphores semnum cmd cmdarg no_object =
      unchanged (fails einval) m configs semaphores
  control_set m config configs semaphores semnum cmd cmdarg (object_at i object) =
      control_values m config configs semaphores i object semnum cmd cmdarg

  -- `sysvipc_semctl`; `semnum` and `cmd` are registers cut to an `int`.
  unfoldable pub semctl : M → Config → List Config → ℕ → ℕ → ℕ → ℕ → Semaphores → Set M
  unfolding control_set
  semctl m config configs id semnum cmd cmdarg semaphores =
      control_set m config configs semaphores (semnum % 2 ^ 32) (cmd % 2 ^ 32) cmdarg
        (lookup_object id semaphores)
