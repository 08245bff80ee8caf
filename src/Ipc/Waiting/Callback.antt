-- ===== src/Ipc/Waiting/Callback.antt =====
-- src/extension/sysvipc/sysvipc.c: the events of a tracee, which begin, cancel and end a wait.
use improot.Base.{ℕ, Bool, true, false, Option, none, some}
use improot.Ipc.{
  WaitReason, wr_not_waiting, wr_wait_semop, WaitState, wstate_not_waiting,
  wstate_restarted_into_ppoll_canceled, wstate_restarted_into_ppoll, wstate_entered_ppoll,
  wstate_signaled_ppoll, wstate_entered_getpid, ChainState, cstate_not_chained, cstate_single,
  cstate_shmat_socket, cstate_shmat_connect, cstate_shmat_recvmsg, cstate_shmat_mmap,
  cstate_msgrcv_retry, Config,
}
use improot.Ipc.Messages.{Memory, Queues}
use improot.Ipc.Calls.{Taken, msgrcv_retry}
use improot.Ipc.Semaphores.{semop_timedout}
use improot.Ipc.Waiting.{
  Returned, returned_1, returned_eintr, as_it_was, with_sysarg_3, pr_void, Turn, Called, passed,
  syscall_common, resumed,
}

-- The events on which `sysvipc_callback` changes the state.
pub data Event (M : Type 0) : Type 0 where
  syscall_enter_start : Bool → ℕ → Called M → Event M
  sigsys_occ : ℕ → Called M → Event M
  syscall_exit_start : Bool → Event M
  syscall_chained_enter syscall_chained_exit : Event M

-- The wait that ended by itself.
unfoldable pub timed_out : WaitReason → Config → Option Config
timed_out wr_not_waiting config = none
timed_out wr_wait_semop config = some (semop_timedout config)
timed_out _ config = some (record config { wait_reason = wr_not_waiting })

module _ {M : Type 0} where
  -- `interrupted` is whether the ppoll(2) ended with EFAULT or EINTR.
  unfoldable pub after_ppoll : Bool → M → Queues → Option Config → Option (Turn M)
  after_ppoll interrupted m queues none = none
  after_ppoll true m queues (some config) =
      let turn = passed config m queues in some (record turn { returned = returned_1 })
  after_ppoll false m queues (some config) =
      let turn = passed config m queues in some (record turn { returned = returned_eintr })

  -- SYSCALL_CHAINED_ENTER, which gives a ppoll(2) that is cancelled a time-out that has no address.
  unfoldable pub chained_enter : WaitState → Config → M → Queues → Option (Turn M)
  chained_enter wstate_not_waiting config m queues = some (passed config m queues)
  chained_enter wstate_restarted_into_ppoll_canceled config m queues =
      let turn = passed (record config { wait_state = wstate_signaled_ppoll }) m queues in
      some (record turn { sysnum = with_sysarg_3 1 })
  chained_enter _ config m queues = none

  -- The result of a wait, unless an assertion of the retry has failed.
  unfoldable pub resumed_with : Option (Taken M) → Option (Turn M)
  resumed_with none = none
  resumed_with (some call) = some (resumed as_it_was call)

  unfoldable pub voided_with : Option (Taken M) → Option (Turn M)
  voided_with none = none
  voided_with (some call) =
      let config = call.config in
      some (
        resumed pr_void
          (record call { config = record config { wait_state = wstate_not_waiting } }))

  module _ (memory : Memory M) (now : ℕ) (shmat_chain : Config → Returned × Config) where
    unfoldable pub retried : ChainState → Config → M → Queues → Option (Taken M)
    retried cstate_msgrcv_retry config m queues = msgrcv_retry memory m now config queues
    retried _ config m queues =
        some (record {
          status = config.status_after_wait;
          memory = m;
          config = config;
          queues = queues;
        })

    -- The end of a wait whose substitute was entered.
    unfoldable pub resume : Config → M → Queues → Option (Turn M)
    unfolding retried resumed_with
    resume config m queues =
        resumed_with
          (retried config.chain_state (record config { wait_state = wstate_not_waiting }) m queues)

    -- The end of a wait that was cancelled before its ppoll(2) was entered.
    unfoldable pub resume_void : Config → M → Queues → Option (Turn M)
    unfolding retried voided_with
    resume_void config m queues = voided_with (retried config.chain_state config m queues)

    -- SYSCALL_ENTER_START, of a system call that is a ppoll(2) or is not.
    unfoldable pub enter_start :
        Bool → ℕ → WaitState → Config → M → Queues → Called M → Option (Turn M)
    unfolding resume_void syscall_common
    enter_start is_ppoll timeout wstate_not_waiting config m queues called =
        syscall_common false timeout wstate_not_waiting config m queues called
    enter_start true timeout wstate_restarted_into_ppoll config m queues called =
        let turn = passed (record config { wait_state = wstate_entered_ppoll }) m queues in
        some (record turn { returned = returned_1 })
    enter_start false timeout wstate_restarted_into_ppoll config m queues called = none
    enter_start is_ppoll timeout wstate_restarted_into_ppoll_canceled config m queues called =
        resume_void config m queues
    enter_start is_ppoll timeout _ config m queues called = none

    unfoldable pub resume_if : WaitReason → Config → M → Queues → Option (Turn M)
    unfolding resume
    resume_if wr_not_waiting config m queues = resume config m queues
    resume_if _ config m queues = none

    unfoldable pub exit_waiting : Bool → WaitState → Config → M → Queues → Option (Turn M)
    unfolding after_ppoll timed_out resume_if
    exit_waiting interrupted wstate_not_waiting config m queues = some (passed config m queues)
    exit_waiting interrupted wstate_entered_ppoll config m queues =
        after_ppoll interrupted m queues
          (timed_out config.wait_reason (record config { wait_state = wstate_not_waiting }))
    exit_waiting interrupted wstate_signaled_ppoll config m queues =
        resume_if config.wait_reason config m queues
    exit_waiting interrupted wstate_entered_getpid config m queues =
        resume_if config.wait_reason config m queues
    exit_waiting interrupted _ config m queues = none

    abbrev pub shmat_turn : Config → M → Queues → Turn M
    shmat_turn config m queues =
        let stepped = shmat_chain config in
        let turn = passed stepped.1 m queues in record turn { returned = stepped.0 }

    -- SYSCALL_EXIT_START
    unfoldable pub exit_start : Bool → ChainState → Config → M → Queues → Option (Turn M)
    unfolding exit_waiting
    exit_start interrupted cstate_shmat_socket config m queues = some (shmat_turn config m queues)
    exit_start interrupted cstate_shmat_connect config m queues = none
    exit_start interrupted cstate_shmat_recvmsg config m queues = none
    exit_start interrupted cstate_shmat_mmap config m queues = none
    exit_start interrupted _ config m queues =
        exit_waiting interrupted config.wait_state config m queues

    unfoldable pub chained_shmat : ChainState → Config → M → Queues → Turn M
    chained_shmat cstate_not_chained config m queues = passed config m queues
    chained_shmat cstate_single config m queues = passed config m queues
    chained_shmat cstate_msgrcv_retry config m queues = passed config m queues
    chained_shmat _ config m queues = passed (shmat_chain config).1 m queues

    -- SYSCALL_CHAINED_EXIT
    unfoldable pub chained_exit : WaitState → Config → M → Queues → Option (Turn M)
    unfolding chained_shmat
    chained_exit wstate_not_waiting config m queues =
        some (chained_shmat config.chain_state config m queues)
    chained_exit wstate_signaled_ppoll config m queues =
        some (passed (record config { wait_state = wstate_not_waiting }) m queues)
    chained_exit _ config m queues = none

    -- `sysvipc_callback`, on these events.
    unfoldable pub callback : Event M → Config → M → Queues → Option (Turn M)
    unfolding enter_start syscall_common exit_start chained_enter chained_exit
    callback (syscall_enter_start is_ppoll timeout called) config m queues =
        enter_start is_ppoll timeout config.wait_state config m queues called
    callback (sigsys_occ timeout called) config m queues =
        syscall_common true timeout config.wait_state config m queues called
    callback (syscall_exit_start interrupted) config m queues =
        exit_start interrupted config.chain_state config m queues
    callback syscall_chained_enter config m queues = chained_enter config.wait_state config m queues
    callback syscall_chained_exit config m queues = chained_exit config.wait_state config m queues
