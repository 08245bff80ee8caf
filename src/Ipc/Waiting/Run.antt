-- ===== src/Ipc/Waiting/Run.antt =====
-- The states that the events of a tracee and the calls of the others reach.
use mathlib.Core.Path.{subst}
use improot.Base.{ℕ, ◌≡◌, ◌≢◌, refl, ◌⊎◌, true, some, List}
use improot.Ipc.{
  Reply, Sembuf, wr_not_waiting, wstate_not_waiting, wstate_restarted_into_ppoll,
  wstate_signaled_ppoll, ChainState, cstate_not_chained, cstate_msgrcv_retry, Config, wake_tracee,
}
use improot.Ipc.Messages.{Memory, Queues}
use improot.Ipc.Waiting.{Returned, Turn}
use improot.Ipc.Waiting.Callback.{
  Event, syscall_enter_start, sigsys_occ, syscall_exit_start, syscall_chained_enter,
  syscall_chained_exit, callback,
}
use improot.Ipc.Waiting.Phases.{Phase, outside, inside, inside_chained, IsIdle, IsCoherent}
use improot.Ipc.Waiting.Resume.{Respects, HasSlot, Good, idle-IsCoherent}
use improot.Ipc.Waiting.Wakes.{InPpoll, waiting_state, wake_tracee-IsCoherent}
use improot.Ipc.Waiting.Safe.{
  enter_start-Good, sigsys-Good, exit_start-Good, inside_chain, chained_enter-Good,
}
use improot.Ipc.Waiting.Wakes.{InPpoll, waiting_state, chained_exit-Good}

module _ {M : Type 0} where
  -- The events that can come in a phase.
  abbrev pub Legal : Phase → Config → Queues → Event M → Type 0
  Legal outside config queues (syscall_enter_start is_ppoll timeout called) =
      (config.wait_state ≡ wstate_restarted_into_ppoll → is_ppoll ≡ true)
      × Respects called
      × HasSlot config queues
  Legal outside config queues (sigsys_occ timeout called) =
      (config.wait_state ≡ wstate_not_waiting) × Respects called
  Legal outside config queues syscall_chained_enter =
      config.wait_state ≢ wstate_restarted_into_ppoll
  Legal inside config queues (syscall_exit_start interrupted) = HasSlot config queues
  Legal inside_chained config queues syscall_chained_exit =
      config.wait_state ≡ wstate_signaled_ppoll → config.chain_state ≡ cstate_not_chained
  Legal _ config queues event = ⊥

  abbrev pub phase_after : Event M → Phase
  phase_after (syscall_enter_start is_ppoll timeout called) = inside
  phase_after (sigsys_occ timeout called) = outside
  phase_after (syscall_exit_start interrupted) = outside
  phase_after syscall_chained_enter = inside_chained
  phase_after syscall_chained_exit = outside

  module _ (memory : Memory M) (now : ℕ) (shmat_chain : Config → Returned × Config) where
    callback-Good :
        (phase : Phase) (event : Event M) (config : Config) (m : M) (queues : Queues)
        → IsCoherent phase config
        → Legal phase config queues event
        → Good (phase_after event) (callback memory now shmat_chain event config m queues)
    unfolding callback
    callback-Good outside (syscall_enter_start is_ppoll timeout called) config m queues h
          (same, kept, slot) =
        enter_start-Good memory now shmat_chain is_ppoll timeout config.wait_state config m queues
          called refl h same kept slot
    callback-Good outside (sigsys_occ timeout called) config m queues h (free, kept) =
        sigsys-Good memory now shmat_chain timeout config.wait_state config m queues called refl h
          free kept
    callback-Good inside (syscall_exit_start interrupted) config m queues h slot =
        exit_start-Good memory now shmat_chain interrupted config.chain_state config m queues
          (inside_chain memory now shmat_chain config.wait_state config.wait_reason
            config.chain_state h)
          h slot
    callback-Good outside syscall_chained_enter config m queues h other =
        chained_enter-Good memory now shmat_chain config.wait_state config m queues refl h other
    callback-Good inside_chained syscall_chained_exit config m queues h unchained =
        chained_exit-Good memory now shmat_chain config.wait_state config m queues refl h unchained
    callback-Good outside (syscall_exit_start interrupted) config m queues h l = absurd l
    callback-Good outside syscall_chained_exit config m queues h l = absurd l
    callback-Good inside (syscall_enter_start is_ppoll timeout called) config m queues h l =
        absurd l
    callback-Good inside (sigsys_occ timeout called) config m queues h l = absurd l
    callback-Good inside syscall_chained_enter config m queues h l = absurd l
    callback-Good inside syscall_chained_exit config m queues h l = absurd l
    callback-Good inside_chained (syscall_enter_start is_ppoll timeout called) config m queues h l =
        absurd l
    callback-Good inside_chained (sigsys_occ timeout called) config m queues h l = absurd l
    callback-Good inside_chained (syscall_exit_start interrupted) config m queues h l = absurd l
    callback-Good inside_chained syscall_chained_enter config m queues h l = absurd l

    -- A state that is reached: the events of the tracee, each in a phase where it can come, and the
    -- calls of other tracees that wake this one when it waits.
    pub data Reachable : Phase → Config → Type 0 where
      started :
          (config : Config)
          → config.wait_state ≡ wstate_not_waiting
          → IsIdle config.wait_reason config.chain_state
          → Reachable outside config
      by_event :
          {phase : Phase} {config : Config}
          → Reachable phase config
          → (event : Event M) (m : M) (queues : Queues) → Legal phase config queues event
          → (turn : Turn M) → callback memory now shmat_chain event config m queues ≡ some turn
          → Reachable (phase_after event) turn.config
      by_wake :
          {phase : Phase} {config : Config}
          → Reachable phase config
          → config.wait_reason ≢ wr_not_waiting
          → (status : Reply ℕ) (chain : ChainState) (sops : List Sembuf)
          → (chain ≡ config.chain_state) ⊎ (chain ≡ cstate_msgrcv_retry)
          → Reachable phase
              (wake_tracee (record config { chain_state = chain; semop_sops = sops }) status)

    Reachable-IsCoherent :
        (phase : Phase) (config : Config) → Reachable phase config → IsCoherent phase config
    Reachable-IsCoherent _ _ (started config free idle) =
        idle-IsCoherent outside config free idle.0 idle.1
    Reachable-IsCoherent _ _ (by_event {phase} {config} r event m queues legal turn own) =
        subst (λ o. Good (phase_after event) o) own
          (callback-Good phase event config m queues (Reachable-IsCoherent phase config r) legal)
    Reachable-IsCoherent _ _ (by_wake {phase} {config} r waits status chain sops h) =
        wake_tracee-IsCoherent phase config status chain sops (Reachable-IsCoherent phase config r)
          waits h

    -- A tracee that waits, in a state that it reaches, is in one of the two states in which
    -- sysvipc_wake_tracee finds no assertion that fails.
    pub Reachable-InPpoll :
        (phase : Phase) (config : Config)
        → Reachable phase config
        → config.wait_reason ≢ wr_not_waiting
        → InPpoll config.wait_state
    Reachable-InPpoll phase config r waits =
        (waiting_state phase config.wait_state config.wait_reason config.chain_state
          (Reachable-IsCoherent phase config r) waits).1

    -- From every state that the tracee reaches, an event that can come there is handled: no
    -- assertion of the callback fails, and what it leaves is coherent. An event can come in the
    -- order in which a tracee makes system calls, its own or chained ones; one that was begun again
    -- as ppoll(2) is entered as ppoll(2), a SIGSYS comes only while nothing is waited for, a handler
    -- leaves the state of the wait and the chain alone or begins a chain of one call, the queue that
    -- a retry is due for has not been removed, and a chained call does not begin while a wait is
    -- about to, nor end before a retry that is due.
    pub Reachable-Good :
        (phase : Phase) (config : Config)
        → Reachable phase config
        → (event : Event M) (m : M) (queues : Queues) → Legal phase config queues event
        → Good (phase_after event) (callback memory now shmat_chain event config m queues)
    Reachable-Good phase config r event m queues legal =
        callback-Good phase event config m queues (Reachable-IsCoherent phase config r) legal
