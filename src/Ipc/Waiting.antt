-- ===== src/Ipc/Waiting.antt =====
-- src/extension/sysvipc/sysvipc.c: how a system call of this extension is made to wait, as a
-- state machine over the events of a tracee.
pub mod Callback
pub mod Handlers
pub mod Phases
pub mod Resume
pub mod Safe
pub mod Run
pub mod Wakes
use improot.Base.{ℕ, Bool, true, false, Option, none, some, List}
use improot.Path.{Errno}
use improot.Ipc.{
  Reply, WaitReason, wr_not_waiting, wr_wait_queue_recv, wr_wait_semop, wr_wait_shmat_helper_busy,
  WaitState, wstate_not_waiting, wstate_restarted_into_ppoll_canceled, wstate_restarted_into_ppoll,
  wstate_entered_ppoll, wstate_signaled_ppoll, wstate_entered_getpid, ChainState,
  cstate_not_chained, cstate_single, cstate_shmat_socket, cstate_shmat_connect,
  cstate_shmat_recvmsg, cstate_shmat_mmap, cstate_msgrcv_retry, Config,
}
use improot.Ipc.Messages.{Memory, Queues}
use improot.Ipc.Calls.{Taken, msgrcv_retry}
use improot.Ipc.Semaphores.{semop_timedout}

-- What the callback returns: 0, 1, 2 or -EINTR.
pub data Returned : Type 0 where
  returned_0 returned_1 returned_2 returned_eintr : Returned

-- The system call that takes the place of the tracee's: none, a ppoll(2) with this time-out,
-- getpid(2), or one that does nothing; or it stays, with another third argument.
pub data Substitute : Type 0 where
  as_it_was : Substitute
  pr_ppoll : ℕ → Substitute
  with_sysarg_3 : ℕ → Substitute
  pr_getpid : Substitute
  pr_void : Substitute

-- What the callback does: `result` is what it puts in the register of the result, and
-- `restarted` is whether the system call is begun again after a SIGSYS.
pub record Turn (M : Type 0) : Type 0 where
  pub returned : Returned
  pub sysnum : Substitute
  pub restarted : Bool
  pub result : Option (Reply ℕ)
  pub config : Config
  pub memory : M
  pub queues : Queues

-- What one of the handlers has left; `none` is a system call that is not of this extension.
abbrev pub Called : Type 0 → Type 0
Called M = Option (Taken M)

module _ {M : Type 0} where
  -- Nothing is done.
  abbrev pub passed : Config → M → Queues → Turn M
  passed config m queues = record {
    returned = returned_0;
    sysnum = as_it_was;
    restarted = false;
    result = none;
    config = config;
    memory = m;
    queues = queues;
  }

  -- A handler has set up a call of its own.
  abbrev pub chained_turn : Bool → Config → Taken M → Turn M
  chained_turn from_sigsys config call = record {
    returned = if_sigsys from_sigsys;
    sysnum = as_it_was;
    restarted = from_sigsys;
    result = none;
    config = config;
    memory = call.memory;
    queues = call.queues;
  }
    where
      if_sigsys : Bool → Returned
      if_sigsys true = returned_2
      if_sigsys false = returned_1

  -- A handler waits.
  unfoldable pub waiting_turn : Bool → ℕ → Taken M → Turn M
  waiting_turn true timeout call =
      let config = call.config in
      record {
        returned = returned_2;
        sysnum = pr_ppoll timeout;
        restarted = true;
        result = none;
        config = record config { wait_state = wstate_restarted_into_ppoll };
        memory = call.memory;
        queues = call.queues;
      }
  waiting_turn false timeout call =
      let config = call.config in
      record {
        returned = returned_1;
        sysnum = pr_ppoll timeout;
        restarted = false;
        result = none;
        config = record config { wait_state = wstate_entered_ppoll };
        memory = call.memory;
        queues = call.queues;
      }

  -- A handler is done.
  unfoldable pub done_turn : Bool → Taken M → Turn M
  done_turn true call = record {
    returned = returned_2;
    sysnum = as_it_was;
    restarted = false;
    result = some call.status;
    config = call.config;
    memory = call.memory;
    queues = call.queues;
  }
  done_turn false call =
      let config = call.config in
      record {
        returned = returned_1;
        sysnum = pr_getpid;
        restarted = false;
        result = none;
        config = record config {
          status_after_wait = call.status;
          wait_state = wstate_entered_getpid;
        };
        memory = call.memory;
        queues = call.queues;
      }

  unfoldable pub by_wait_reason : Bool → ℕ → WaitReason → Taken M → Turn M
  unfolding waiting_turn done_turn
  by_wait_reason from_sigsys timeout wr_not_waiting call = done_turn from_sigsys call
  by_wait_reason from_sigsys timeout _ call = waiting_turn from_sigsys timeout call

  -- `none` is an assertion that fails.
  unfoldable pub by_chain_state : Bool → ℕ → ChainState → Taken M → Option (Turn M)
  unfolding by_wait_reason
  by_chain_state from_sigsys timeout cstate_not_chained call =
      let config = call.config in some (by_wait_reason from_sigsys timeout config.wait_reason call)
  by_chain_state from_sigsys timeout cstate_single call =
      let config = call.config in
      some (chained_turn from_sigsys (record config { chain_state = cstate_not_chained }) call)
  by_chain_state from_sigsys timeout cstate_shmat_socket call =
      some (chained_turn from_sigsys call.config call)
  by_chain_state from_sigsys timeout _ call = none

  unfoldable pub after_handler : Bool → ℕ → Config → M → Queues → Called M → Option (Turn M)
  unfolding by_chain_state
  after_handler from_sigsys timeout config m queues none = some (passed config m queues)
  after_handler from_sigsys timeout config m queues (some call) =
      let config' = call.config in by_chain_state from_sigsys timeout config'.chain_state call

  -- `sysvipc_syscall_common`, with what the handler of the system call has left.
  unfoldable pub syscall_common :
      Bool → ℕ → WaitState → Config → M → Queues → Called M → Option (Turn M)
  unfolding after_handler
  syscall_common from_sigsys timeout wstate_not_waiting config m queues called =
      after_handler from_sigsys timeout config m queues called
  syscall_common from_sigsys timeout _ config m queues called = none

  -- The result after a wait goes into the register, instead of what the substitute gave.
  abbrev pub resumed : Substitute → Taken M → Turn M
  resumed sysnum call = record {
    returned = returned_1;
    sysnum = sysnum;
    restarted = false;
    result = some call.status;
    config = call.config;
    memory = call.memory;
    queues = call.queues;
  }
