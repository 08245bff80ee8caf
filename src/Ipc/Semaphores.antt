-- ===== src/Ipc/Semaphores.antt =====
-- src/extension/sysvipc/sysvipc_sem.c: the semaphores.
use improot.Base.{
  ℕ, ◌+◌, ◌-◌, ◌%◌, ◌^◌, Bool, true, not, ◌&&◌, ◌||◌, Option, none, some, List, [], ◌∷◌, ◌++◌, ltb,
  leb, ◌==◌, if◌then◌else◌, length, get_or, get_elem?, set_elem, replicate,
}
use improot.Path.{Errno, enoent, einval, eexist, e2big, eagain, enospc, erange, efbig}
use improot.Ipc.{
  Reply, reply, fails, has_flag, ipc_creat, ipc_excl, ipc_nowait, Object, object_id, Lookup,
  no_object, object_at, lookup_object, Slot, present, absent, find_slot, Sembuf, Config,
  wr_not_waiting, wr_wait_semop, wake_tracee, waits_for_semop,
}

abbrev pub max_sems : ℕ
max_sems = 512

abbrev pub max_nsems : ℕ
max_nsems = 512

abbrev pub max_nsops : ℕ
max_nsops = 512

abbrev pub max_semval : ℕ
max_semval = 28672

-- What is `SysVIpcSemaphore`'s own.
pub record Values : Type 0 where
  pub sems : List ℕ
  pub nsems : ℕ

abbrev pub Semaphores : Type 0
Semaphores = List (Object Values)

abbrev pub made : ℕ → ℕ → ℕ → Object Values
made id generation nsems = record {
  key = id % 2 ^ 32;
  generation = generation;
  valid = true;
  content = record { sems = replicate nsems 0; nsems = nsems };
}

abbrev pub generation_of : Semaphores → ℕ → ℕ
generation_of semaphores i = elim (get_elem? semaphores i) [
  | none ↦ 0
  | some object ↦ object.generation
]

unfoldable pub create_semaphore : ℕ → ℕ → Semaphores → Option ℕ → Reply ℕ × Semaphores
create_semaphore id nsems semaphores (some i) = (
  reply (object_id i (generation_of semaphores i)),
  set_elem semaphores i (made id (generation_of semaphores i) nsems),
)
create_semaphore id nsems semaphores none =
    if leb max_sems (length semaphores)
    then (fails enospc, semaphores)
    else (reply (object_id (length semaphores) 0), semaphores ++ made id 0 nsems ∷ [])

unfoldable pub get_semaphore : ℕ → ℕ → ℕ → Semaphores → Slot Values → Reply ℕ × Semaphores
unfolding create_semaphore
get_semaphore id nsems semflg semaphores (absent unused) =
    if not (has_flag semflg ipc_creat)
    then (fails enoent, semaphores)
    else create_semaphore id nsems semaphores unused
get_semaphore id nsems semflg semaphores (present i object) =
    let values = object.content in
    if has_flag semflg ipc_creat && has_flag semflg ipc_excl
    then (fails eexist, semaphores)
    else if ltb values.nsems nsems
    then (fails einval, semaphores)
    else (reply (object_id i object.generation), semaphores)

-- Not above zero as an `int`, or above the limit.
abbrev pub bad_nsems : ℕ → Bool
bad_nsems nsems = (nsems == 0) || (leb (2 ^ 31) nsems || ltb max_nsems nsems)

-- `sysvipc_semget`; `nsems` is the register cut to an `int`.
unfoldable pub semget : ℕ → ℕ → ℕ → Semaphores → Reply ℕ × Semaphores
unfolding get_semaphore
semget id nsems semflg semaphores =
    if bad_nsems (nsems % 2 ^ 32)
    then (fails einval, semaphores)
    else get_semaphore id (nsems % 2 ^ 32) semflg semaphores (find_slot id semaphores 0 none)

-- What `sysvipc_sem_check` finds: that the tracee must wait, or the result and the new values.
pub data Check : Type 0 where
  waits : Check
  done : Reply ℕ → List ℕ → Check

-- `IPC_NOWAIT` or a wait.
abbrev pub blocked : Sembuf → List ℕ → Check
blocked sop sems = if has_flag sop.sem_flg ipc_nowait then done (fails eagain) sems else waits

-- The values of `new_sems` after one operation; `none` when it is blocked or out of range.
pub data Tried : Type 0 where
  set_to : List ℕ → Tried
  is_blocked : Tried
  out_of_range : Tried

unfoldable pub try_op : List ℕ → Sembuf → Tried
try_op new_sems sop =
    let value = get_or new_sems sop.sem_num 0 in
    if sop.sem_op == 0
    then (if not (value == 0) then is_blocked else set_to new_sems)
    else if ltb sop.sem_op (2 ^ 15)
    then (if ltb max_semval (value + sop.sem_op)
        then out_of_range
        else set_to (set_elem new_sems sop.sem_num (value + sop.sem_op)))
    else if ltb value (2 ^ 16 - sop.sem_op)
    then is_blocked
    else if ltb max_semval (value - (2 ^ 16 - sop.sem_op))
    then out_of_range
    else set_to (set_elem new_sems sop.sem_num (value - (2 ^ 16 - sop.sem_op)))

-- The loop of `sysvipc_sem_check`; `sems` are the values before all operations.
unfoldable pub check_ops : List ℕ → List Sembuf → List ℕ → Check
check_ops sems [] new_sems = done (reply 0) new_sems
check_ops sems (sop ∷ sops) new_sems = elim (try_op new_sems sop) [
  | set_to next_sems ↦ check_ops sems sops next_sems
  | is_blocked ↦ blocked sop sems
  | out_of_range ↦ done (fails erange) sems
]

-- `sysvipc_sem_check`; no caller asks for the type of the wait.
unfoldable pub sem_check : Config → List ℕ → Check
unfolding check_ops
sem_check config sems = check_ops sems config.semop_sops sems

abbrev pub waits_for_semaphore : ℕ → ℕ → Config → Bool
waits_for_semaphore namespace index config =
    (config.ipc_namespace == namespace)
    && (waits_for_semop config.wait_reason && (config.waiting_object_index == index))

unfoldable pub after_check : Config → Check → Config
after_check config waits = config
after_check config (done status sems) = wake_tracee (record config { semop_sops = [] }) status

abbrev pub values_after : List ℕ → Check → List ℕ
values_after sems waits = sems
values_after sems (done status new_sems) = new_sems

-- The loop of `sysvipc_semop` over the other tracees.
unfoldable pub check_others : ℕ → ℕ → ℕ → List Config → List ℕ → List Config × List ℕ
check_others pid namespace index [] sems = ([], sems)
check_others pid namespace index (config ∷ configs) sems =
    let check =
      (if not (config.pid == pid) && waits_for_semaphore namespace index config
        then sem_check config sems
        else waits) in
    let (configs', sems') = check_others pid namespace index configs (values_after sems check) in
    (after_check config check ∷ configs', sems')

-- `configs` are the tracees of the extension; the calling tracee's own entry stays as it is, and
-- its state is `config`.
pub record Operated : Type 0 where
  pub status : Reply ℕ
  pub config : Config
  pub configs : List Config
  pub semaphores : Semaphores

abbrev pub with_sems : Object Values → List ℕ → Object Values
with_sems object sems =
    let values = object.content in record object { content = record values { sems = sems } }

unfoldable pub finish : Config → Check → Reply ℕ × Config
finish config waits = (reply 0, config)
finish config (done status sems) =
    (status, record config { semop_sops = []; wait_reason = wr_not_waiting })

unfoldable pub operate : Config → List Config → Semaphores → ℕ → Object Values → Operated
unfolding finish
operate config configs semaphores i object =
    let values = object.content in
    let check = sem_check config values.sems in
    let (configs', sems') =
      check_others config.pid config.ipc_namespace i configs (values_after values.sems check) in
    let (status, config') = finish config check in
    record {
      status = status;
      config = config';
      configs = configs';
      semaphores = set_elem semaphores i (with_sems object sems');
    }

unfoldable pub all_below : ℕ → List Sembuf → Bool
all_below nsems [] = true
all_below nsems (sop ∷ sops) = ltb sop.sem_num nsems && all_below nsems sops

abbrev pub refused : Errno → Config → List Config → Semaphores → Operated
refused e config configs semaphores = record {
  status = fails e;
  config = config;
  configs = configs;
  semaphores = semaphores;
}

unfoldable pub semop_read :
    Config → List Config → Semaphores → ℕ → Object Values → Reply (List Sembuf) → Operated
semop_read config configs semaphores i object (fails e) = refused e config configs semaphores
semop_read config configs semaphores i object (reply sops) =
    let values = object.content in
    if not (all_below values.nsems sops)
    then refused efbig config configs semaphores
    else operate
        (record config { wait_reason = wr_wait_semop; waiting_object_index = i; semop_sops = sops })
        configs semaphores i object

unfoldable pub semop_at :
    Config → List Config → Semaphores → ℕ → (ℕ → Reply (List Sembuf)) → Lookup Values → Operated
unfolding semop_read
semop_at config configs semaphores nsops read no_object = refused einval config configs semaphores
semop_at config configs semaphores nsops read (object_at i object) =
    if ltb max_nsops nsops
    then refused e2big config configs semaphores
    else if nsops == 0
    then refused einval config configs semaphores
    else semop_read config configs semaphores i object (read nsops)

-- `sysvipc_semop`; `read` reads that many operations from the tracee's memory.
unfoldable pub semop :
    Config → List Config → ℕ → ℕ → (ℕ → Reply (List Sembuf)) → Semaphores → Operated
unfolding semop_at
semop config configs id nsops read semaphores =
    semop_at config configs semaphores nsops read (lookup_object id semaphores)

-- `sysvipc_semop_timedout`
unfoldable pub semop_timedout : Config → Config
semop_timedout config = record config { semop_sops = []; wait_reason = wr_not_waiting }
