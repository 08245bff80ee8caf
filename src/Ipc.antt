-- ===== src/Ipc.antt =====
-- src/extension/sysvipc: what the emulations of message queues, semaphores and shared memory
-- share (sysvipc_internal.h), and how a waiting tracee is woken (sysvipc.c). Registers are the
-- patterns of 64 bits, an `int` the pattern of 32 bits, a generation that of 16 bits.
pub mod Ids
pub mod Messages
pub mod Receive
pub mod Calls
pub mod Counts
pub mod Fifo
pub mod Good
pub mod Reach
pub mod Wake
pub mod Semaphores
pub mod Semctl
pub mod Atomic
pub mod Values
pub mod Control
pub mod Waiting
use improot.Base.{
  ℕ, zero, suc, ◌+◌, ◌-◌, ◌*◌, ◌/◌, ◌%◌, ◌^◌, Bool, true, false, not, ◌&&◌, ◌||◌, Option, none,
  some, List, [], ◌∷◌, ltb, leb, ◌==◌, if◌then◌else◌, length, get_elem?,
}
use improot.Path.{Errno}

-- A result that is not negative, or an error.
pub data Reply (A : Type 0) : Type 0 where
  reply : A → Reply A
  fails : Errno → Reply A

-- `a | b` on `bits` bits.
unfoldable pub bit_or : ℕ → ℕ → ℕ → ℕ
bit_or zero a b = 0
bit_or (suc bits) a b =
    (if (a % 2 == 1) || (b % 2 == 1) then 1 else 0) + 2 * bit_or bits (a / 2) (b / 2)

abbrev pub has_flag : ℕ → ℕ → Bool
has_flag flags flag = (flags / flag) % 2 == 1

-- `IPC_CREAT`, `IPC_EXCL` and `IPC_NOWAIT` of <sys/ipc.h>.
abbrev pub ipc_creat : ℕ
ipc_creat = 512

abbrev pub ipc_excl : ℕ
ipc_excl = 1024

abbrev pub ipc_nowait : ℕ
ipc_nowait = 2048

-- The fields that the three kinds of objects share.
pub record Object (A : Type 0) : Type 0 where
  pub key : ℕ
  pub generation : ℕ
  pub valid : Bool
  pub content : A

-- An `int16_t` as an `int`.
abbrev pub sign_extended : ℕ → ℕ
sign_extended g = if ltb g (2 ^ 15) then g else g + 2 ^ 32 - 2 ^ 16

-- `IPC_OBJECT_ID`, as the `int` that the system call returns.
unfoldable pub object_id : ℕ → ℕ → ℕ
object_id index generation =
    bit_or 32 ((index + 1) % 2 ^ 32) ((sign_extended generation * 2 ^ 12) % 2 ^ 32)

pub data Lookup (A : Type 0) : Type 0 where
  no_object : Lookup A
  object_at : ℕ → Object A → Lookup A

-- What the search for a key ends with: an object, or the first slot that is not in use.
pub data Slot (A : Type 0) : Type 0 where
  present : ℕ → Object A → Slot A
  absent : Option ℕ → Slot A

-- `if (!found_unused_slot)`
abbrev pub or_this : Option ℕ → ℕ → Option ℕ
or_this none i = some i
or_this (some unused) i = some unused

module _ {A : Type 0} where
  -- The last test of `LOOKUP_IPC_OBJECT`.
  unfoldable pub check_object : ℕ → ℕ → Option (Object A) → Lookup A
  check_object generation index none = no_object
  check_object generation index (some object) =
      if not object.valid || not (sign_extended object.generation == generation)
      then no_object
      else object_at index object

  -- `LOOKUP_IPC_OBJECT` on the first argument of the system call; `no_object` is -EINVAL.
  unfoldable pub lookup_object : ℕ → List (Object A) → Lookup A
  lookup_object id objects =
      let object_index = id % 2 ^ 12 in
      if (object_index == 0) || ltb (length objects) object_index
      then no_object
      else check_object ((id / 2 ^ 12) % 2 ^ 16) (object_index - 1)
          (get_elem? objects (object_index - 1))

  -- The loop of `sysvipc_msgget` and `sysvipc_semget`.
  unfoldable pub find_slot : ℕ → List (Object A) → ℕ → Option ℕ → Slot A
  find_slot id [] i unused = absent unused
  find_slot id (object ∷ objects) i unused =
      if object.valid
      then (if not (id == 0) && (object.key == id % 2 ^ 32)
          then present i object
          else find_slot id objects (suc i) unused)
      else find_slot id objects (suc i) (or_this unused i)

pub data WaitReason : Type 0 where
  wr_not_waiting wr_wait_queue_recv wr_wait_semop wr_wait_shmat_helper_busy : WaitReason

pub data WaitState : Type 0 where
  wstate_not_waiting wstate_restarted_into_ppoll_canceled wstate_restarted_into_ppoll : WaitState
  wstate_entered_ppoll wstate_signaled_ppoll wstate_entered_getpid : WaitState

pub data ChainState : Type 0 where
  cstate_not_chained cstate_single cstate_shmat_socket cstate_shmat_connect : ChainState
  cstate_shmat_recvmsg cstate_shmat_mmap cstate_msgrcv_retry : ChainState

-- `SysVIpcSembuf`: `sem_op` is the pattern of a `short`.
pub record Sembuf : Type 0 where
  pub sem_num : ℕ
  pub sem_op : ℕ
  pub sem_flg : ℕ

-- `SysVIpcConfig` of a tracee, less what only shared memory uses, with the tracee's
-- process id, the number of its name-space, and whether it was sent a SIGSTOP that is to be
-- ignored.
pub record Config : Type 0 where
  pub pid : ℕ
  pub ipc_namespace : ℕ
  pub wait_reason : WaitReason
  pub wait_state : WaitState
  pub chain_state : ChainState
  pub status_after_wait : Reply ℕ
  pub waiting_object_index : ℕ
  pub msgrcv_msgp : ℕ
  pub msgrcv_msgsz : ℕ
  pub msgrcv_msgtyp : ℕ
  pub msgrcv_msgflg : ℕ
  pub semop_sops : List Sembuf
  pub sigstop_ignored : Bool

-- `sysvipc_wake_tracee`, on a tracee that waits; that it is in one of the first two states is
-- asserted.
unfoldable pub wake_in : WaitState → Config → Config
wake_in wstate_entered_ppoll config = record config {
  wait_state = wstate_signaled_ppoll;
  sigstop_ignored = true;
}
wake_in wstate_restarted_into_ppoll config = record config {
  wait_state = wstate_restarted_into_ppoll_canceled;
}
wake_in wait_state config = config

unfoldable pub wake_tracee : Config → Reply ℕ → Config
unfolding wake_in
wake_tracee config status =
    wake_in config.wait_state
      (record config { wait_reason = wr_not_waiting; status_after_wait = status })

abbrev pub waits_for_semop : WaitReason → Bool
waits_for_semop wr_wait_semop = true
waits_for_semop _ = false

abbrev pub waits_for_queue : WaitReason → Bool
waits_for_queue wr_wait_queue_recv = true
waits_for_queue _ = false
