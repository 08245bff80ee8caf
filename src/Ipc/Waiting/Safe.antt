-- ===== src/Ipc/Waiting/Safe.antt =====
-- No assertion of the state machine fails.
use improot.Base.{ℕ, ◌≡◌, ◌≢◌, refl, inl, inr, ◌⊎◌, Bool, true, false, []}
use improot.Ipc.{
  WaitReason, wr_not_waiting, wr_wait_queue_recv, wr_wait_semop, wr_wait_shmat_helper_busy,
  WaitState, wstate_not_waiting, wstate_restarted_into_ppoll_canceled, wstate_restarted_into_ppoll,
  wstate_entered_ppoll, wstate_signaled_ppoll, wstate_entered_getpid, ChainState,
  cstate_not_chained, cstate_single, cstate_shmat_socket, cstate_shmat_connect,
  cstate_shmat_recvmsg, cstate_shmat_mmap, cstate_msgrcv_retry, Config,
}
use improot.Ipc.Messages.{Memory, Queues}
use improot.Ipc.Semaphores.{semop_timedout}
use improot.Ipc.Waiting.{Returned, Called, syscall_common}
use improot.Ipc.Waiting.Callback.{
  enter_start, timed_out, after_ppoll, resume_if, exit_waiting, exit_start, chained_enter,
}
use improot.Ipc.Waiting.Phases.{outside, inside, inside_chained, IsWoken, Agrees, IsCoherent}
use improot.Ipc.Waiting.Resume.{
  Respects, HasSlot, Good, idle-IsCoherent, after_handler-Good, resume-IsCoherent,
  resume_void-IsCoherent,
}

module _ {M : Type 0} where
  module _ (memory : Memory M) (now : ℕ) (shmat_chain : Config → Returned × Config) where
    pub enter_start-Good :
        (is_ppoll : Bool) (timeout : ℕ) (ws : WaitState) (config : Config) (m : M) (queues : Queues)
        (called : Called M)
        → config.wait_state ≡ ws
        → Agrees outside ws config.wait_reason config.chain_state
        → (ws ≡ wstate_restarted_into_ppoll → is_ppoll ≡ true)
        → Respects called
        → HasSlot config queues
        → Good inside
            (enter_start memory now shmat_chain is_ppoll timeout ws config m queues called)
    unfolding enter_start syscall_common
    enter_start-Good is_ppoll timeout wstate_not_waiting config m queues called p h same kept slot =
        after_handler-Good false timeout config m queues called p h kept
    enter_start-Good true timeout wstate_restarted_into_ppoll config m queues called p h same kept
          slot =
        h
    enter_start-Good false timeout wstate_restarted_into_ppoll config m queues called p h same kept
          slot =
        cc (same refl)
    enter_start-Good true timeout wstate_restarted_into_ppoll_canceled config m queues called p h
          same kept slot =
        resume_void-IsCoherent memory now shmat_chain inside config m queues h slot
    enter_start-Good false timeout wstate_restarted_into_ppoll_canceled config m queues called p h
          same kept slot =
        resume_void-IsCoherent memory now shmat_chain inside config m queues h slot
    enter_start-Good is_ppoll timeout wstate_entered_ppoll config m queues called p h same kept
          slot =
        absurd h
    enter_start-Good is_ppoll timeout wstate_signaled_ppoll config m queues called p h same kept
          slot =
        absurd h
    enter_start-Good is_ppoll timeout wstate_entered_getpid config m queues called p h same kept
          slot =
        absurd h

    pub sigsys-Good :
        (timeout : ℕ) (ws : WaitState) (config : Config) (m : M) (queues : Queues)
        (called : Called M)
        → config.wait_state ≡ ws
        → Agrees outside ws config.wait_reason config.chain_state
        → ws ≡ wstate_not_waiting
        → Respects called
        → Good outside (syscall_common true timeout ws config m queues called)
    unfolding syscall_common
    sigsys-Good timeout wstate_not_waiting config m queues called p h same kept =
        after_handler-Good true timeout config m queues called p h kept
    sigsys-Good timeout wstate_restarted_into_ppoll config m queues called p h same kept = cc
    sigsys-Good timeout wstate_restarted_into_ppoll_canceled config m queues called p h same kept =
        cc
    sigsys-Good timeout wstate_entered_ppoll config m queues called p h same kept = absurd h
    sigsys-Good timeout wstate_signaled_ppoll config m queues called p h same kept = absurd h
    sigsys-Good timeout wstate_entered_getpid config m queues called p h same kept = absurd h

    -- The wait that ended by itself leaves a tracee that does not wait.
    timed_out-Good :
        (interrupted : Bool) (reason : WaitReason) (config : Config) (m : M) (queues : Queues)
        → config.wait_state ≡ wstate_not_waiting
        → reason ≢ wr_not_waiting
        → config.chain_state ≡ cstate_not_chained
        → Good outside (after_ppoll interrupted m queues (timed_out reason config))
    unfolding after_ppoll timed_out semop_timedout
    timed_out-Good interrupted wr_not_waiting config m queues p h q = absurd (h refl)
    timed_out-Good true wr_wait_queue_recv config m queues p h q =
        idle-IsCoherent outside (record config { wait_reason = wr_not_waiting }) p refl q
    timed_out-Good false wr_wait_queue_recv config m queues p h q =
        idle-IsCoherent outside (record config { wait_reason = wr_not_waiting }) p refl q
    timed_out-Good true wr_wait_semop config m queues p h q =
        idle-IsCoherent outside (record config { semop_sops = []; wait_reason = wr_not_waiting }) p
          refl q
    timed_out-Good false wr_wait_semop config m queues p h q =
        idle-IsCoherent outside (record config { semop_sops = []; wait_reason = wr_not_waiting }) p
          refl q
    timed_out-Good true wr_wait_shmat_helper_busy config m queues p h q =
        idle-IsCoherent outside (record config { wait_reason = wr_not_waiting }) p refl q
    timed_out-Good false wr_wait_shmat_helper_busy config m queues p h q =
        idle-IsCoherent outside (record config { wait_reason = wr_not_waiting }) p refl q

    resume_if-Good :
        (reason : WaitReason) (config : Config) (m : M) (queues : Queues)
        → reason ≡ wr_not_waiting
        → IsWoken config.wait_reason config.chain_state
        → HasSlot config queues
        → Good outside (resume_if memory now shmat_chain reason config m queues)
    unfolding resume_if
    resume_if-Good wr_not_waiting config m queues e woken slot =
        resume-IsCoherent memory now shmat_chain outside config m queues woken slot
    resume_if-Good wr_wait_queue_recv config m queues e woken slot = cc
    resume_if-Good wr_wait_semop config m queues e woken slot = cc
    resume_if-Good wr_wait_shmat_helper_busy config m queues e woken slot = cc

    exit_waiting-Good :
        (interrupted : Bool) (ws : WaitState) (config : Config) (m : M) (queues : Queues)
        → config.wait_state ≡ ws
        → Agrees inside ws config.wait_reason config.chain_state
        → HasSlot config queues
        → Good outside (exit_waiting memory now shmat_chain interrupted ws config m queues)
    unfolding exit_waiting
    exit_waiting-Good interrupted wstate_not_waiting config m queues p h slot =
        idle-IsCoherent outside config p h.0 h.1
    exit_waiting-Good interrupted wstate_entered_ppoll config m queues p h slot =
        timed_out-Good interrupted config.wait_reason
          (record config { wait_state = wstate_not_waiting }) m queues refl h.0 h.1
    exit_waiting-Good interrupted wstate_signaled_ppoll config m queues p h slot =
        resume_if-Good config.wait_reason config m queues h.0 h slot
    exit_waiting-Good interrupted wstate_entered_getpid config m queues p h slot =
        resume_if-Good config.wait_reason config m queues h.0 (h.0, inl h.1) slot
    exit_waiting-Good interrupted wstate_restarted_into_ppoll config m queues p h slot = absurd h
    exit_waiting-Good interrupted wstate_restarted_into_ppoll_canceled config m queues p h slot =
        absurd h

    pub exit_start-Good :
        (interrupted : Bool) (chain : ChainState) (config : Config) (m : M) (queues : Queues)
        → (chain ≡ cstate_not_chained) ⊎ (chain ≡ cstate_msgrcv_retry)
        → IsCoherent inside config
        → HasSlot config queues
        → Good outside (exit_start memory now shmat_chain interrupted chain config m queues)
    unfolding exit_start
    exit_start-Good interrupted cstate_not_chained config m queues own h slot =
        exit_waiting-Good interrupted config.wait_state config m queues refl h slot
    exit_start-Good interrupted cstate_msgrcv_retry config m queues own h slot =
        exit_waiting-Good interrupted config.wait_state config m queues refl h slot
    exit_start-Good interrupted cstate_single config m queues own h slot =
        exit_waiting-Good interrupted config.wait_state config m queues refl h slot
    exit_start-Good interrupted cstate_shmat_socket config m queues (inl e) h slot = cc
    exit_start-Good interrupted cstate_shmat_socket config m queues (inr e) h slot = cc
    exit_start-Good interrupted cstate_shmat_connect config m queues (inl e) h slot = cc
    exit_start-Good interrupted cstate_shmat_connect config m queues (inr e) h slot = cc
    exit_start-Good interrupted cstate_shmat_recvmsg config m queues (inl e) h slot = cc
    exit_start-Good interrupted cstate_shmat_recvmsg config m queues (inr e) h slot = cc
    exit_start-Good interrupted cstate_shmat_mmap config m queues (inl e) h slot = cc
    exit_start-Good interrupted cstate_shmat_mmap config m queues (inr e) h slot = cc

    -- In a system call of its own, a tracee has no chain of shmat.
    pub inside_chain :
        (ws : WaitState) (reason : WaitReason) (chain : ChainState)
        → Agrees inside ws reason chain
        → (chain ≡ cstate_not_chained) ⊎ (chain ≡ cstate_msgrcv_retry)
    inside_chain wstate_not_waiting reason chain h = inl h.1
    inside_chain wstate_entered_ppoll reason chain h = inl h.1
    inside_chain wstate_signaled_ppoll reason chain h = h.1
    inside_chain wstate_entered_getpid reason chain h = inl h.1
    inside_chain wstate_restarted_into_ppoll reason chain h = absurd h
    inside_chain wstate_restarted_into_ppoll_canceled reason chain h = absurd h

    pub chained_enter-Good :
        (ws : WaitState) (config : Config) (m : M) (queues : Queues)
        → config.wait_state ≡ ws
        → Agrees outside ws config.wait_reason config.chain_state
        → ws ≢ wstate_restarted_into_ppoll
        → Good inside_chained (chained_enter ws config m queues)
    unfolding chained_enter
    chained_enter-Good wstate_not_waiting config m queues p h other =
        idle-IsCoherent inside_chained config p h.0 h.1
    chained_enter-Good wstate_restarted_into_ppoll_canceled config m queues p h other = h
    chained_enter-Good wstate_restarted_into_ppoll config m queues p h other = absurd (other refl)
    chained_enter-Good wstate_entered_ppoll config m queues p h other = absurd h
    chained_enter-Good wstate_signaled_ppoll config m queues p h other = absurd h
    chained_enter-Good wstate_entered_getpid config m queues p h other = absurd h
