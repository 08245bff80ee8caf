-- ===== src/Ipc/Waiting/Wakes.antt =====
-- A tracee that is woken, or that leaves a chained system call.
use improot.Base.{ℕ, ◌≡◌, ◌≢◌, ◌∙◌, refl, inl, inr, ◌⊎◌, List}
use improot.Ipc.{
  Reply, Sembuf, WaitReason, wr_not_waiting, WaitState, wstate_not_waiting,
  wstate_restarted_into_ppoll_canceled, wstate_restarted_into_ppoll, wstate_entered_ppoll,
  wstate_signaled_ppoll, wstate_entered_getpid, ChainState, cstate_not_chained, cstate_single,
  cstate_shmat_socket, cstate_shmat_connect, cstate_shmat_recvmsg, cstate_shmat_mmap,
  cstate_msgrcv_retry, Config, wake_in, wake_tracee,
}
use improot.Ipc.Messages.{Memory, Queues}
use improot.Ipc.Waiting.{Returned}
use improot.Ipc.Waiting.Callback.{chained_shmat, chained_exit}
use improot.Ipc.Waiting.Phases.{Phase, outside, inside, inside_chained, IsWoken, Agrees, IsCoherent}
use improot.Ipc.Waiting.Resume.{Good, idle-IsCoherent}

-- A wait has entered its ppoll(2), or is about to.
wake_in-IsCoherent :
    (phase : Phase) (ws : WaitState) (reason : WaitReason) (chain : ChainState) (config : Config)
    → Agrees phase ws reason chain
    → reason ≢ wr_not_waiting
    → IsWoken config.wait_reason config.chain_state
    → IsCoherent phase (wake_in ws config)
unfolding wake_in
wake_in-IsCoherent outside wstate_not_waiting reason chain config a waits h = absurd (waits a.0)
wake_in-IsCoherent outside wstate_restarted_into_ppoll reason chain config a waits h = h
wake_in-IsCoherent outside wstate_restarted_into_ppoll_canceled reason chain config a waits h =
    absurd (waits a.0)
wake_in-IsCoherent outside wstate_entered_ppoll reason chain config a waits h = absurd a
wake_in-IsCoherent outside wstate_signaled_ppoll reason chain config a waits h = absurd a
wake_in-IsCoherent outside wstate_entered_getpid reason chain config a waits h = absurd a
wake_in-IsCoherent inside wstate_not_waiting reason chain config a waits h = absurd (waits a.0)
wake_in-IsCoherent inside wstate_restarted_into_ppoll reason chain config a waits h = absurd a
wake_in-IsCoherent inside wstate_restarted_into_ppoll_canceled reason chain config a waits h =
    absurd a
wake_in-IsCoherent inside wstate_entered_ppoll reason chain config a waits h = h
wake_in-IsCoherent inside wstate_signaled_ppoll reason chain config a waits h = absurd (waits a.0)
wake_in-IsCoherent inside wstate_entered_getpid reason chain config a waits h = absurd (waits a.0)
wake_in-IsCoherent inside_chained wstate_not_waiting reason chain config a waits h =
    absurd (waits a.0)
wake_in-IsCoherent inside_chained wstate_restarted_into_ppoll reason chain config a waits h =
    absurd a
wake_in-IsCoherent inside_chained wstate_restarted_into_ppoll_canceled reason chain config a waits
      h =
    absurd a
wake_in-IsCoherent inside_chained wstate_entered_ppoll reason chain config a waits h = absurd a
wake_in-IsCoherent inside_chained wstate_signaled_ppoll reason chain config a waits h =
    absurd (waits a.0)
wake_in-IsCoherent inside_chained wstate_entered_getpid reason chain config a waits h = absurd a

-- The two states of a wait in which a tracee can be woken.
abbrev pub InPpoll : WaitState → Type 0
InPpoll ws = (ws ≡ wstate_restarted_into_ppoll) ⊎ (ws ≡ wstate_entered_ppoll)

-- A tracee that waits has no chain, and is in a ppoll(2) or about to enter one.
pub waiting_state :
    (phase : Phase) (ws : WaitState) (reason : WaitReason) (chain : ChainState)
    → Agrees phase ws reason chain
    → reason ≢ wr_not_waiting
    → (chain ≡ cstate_not_chained) × InPpoll ws
waiting_state outside wstate_not_waiting reason chain a waits = absurd (waits a.0)
waiting_state outside wstate_restarted_into_ppoll reason chain a waits = (a.1, inl refl)
waiting_state outside wstate_restarted_into_ppoll_canceled reason chain a waits = absurd (waits a.0)
waiting_state outside wstate_entered_ppoll reason chain a waits = absurd a
waiting_state outside wstate_signaled_ppoll reason chain a waits = absurd a
waiting_state outside wstate_entered_getpid reason chain a waits = absurd a
waiting_state inside wstate_not_waiting reason chain a waits = absurd (waits a.0)
waiting_state inside wstate_restarted_into_ppoll reason chain a waits = absurd a
waiting_state inside wstate_restarted_into_ppoll_canceled reason chain a waits = absurd a
waiting_state inside wstate_entered_ppoll reason chain a waits = (a.1, inr refl)
waiting_state inside wstate_signaled_ppoll reason chain a waits = absurd (waits a.0)
waiting_state inside wstate_entered_getpid reason chain a waits = absurd (waits a.0)
waiting_state inside_chained wstate_not_waiting reason chain a waits = absurd (waits a.0)
waiting_state inside_chained wstate_restarted_into_ppoll reason chain a waits = absurd a
waiting_state inside_chained wstate_restarted_into_ppoll_canceled reason chain a waits = absurd a
waiting_state inside_chained wstate_entered_ppoll reason chain a waits = absurd a
waiting_state inside_chained wstate_signaled_ppoll reason chain a waits = absurd (waits a.0)
waiting_state inside_chained wstate_entered_getpid reason chain a waits = absurd a

pub wake_tracee-IsCoherent :
    (phase : Phase) (config : Config) (status : Reply ℕ) (chain : ChainState) (sops : List Sembuf)
    → IsCoherent phase config
    → config.wait_reason ≢ wr_not_waiting
    → (chain ≡ config.chain_state) ⊎ (chain ≡ cstate_msgrcv_retry)
    → IsCoherent phase
        (wake_tracee (record config { chain_state = chain; semop_sops = sops }) status)
unfolding wake_tracee
wake_tracee-IsCoherent phase config status chain sops a waits h =
    wake_in-IsCoherent phase config.wait_state config.wait_reason config.chain_state _ a waits
      (refl, chain_of h)
  where
    chain_of :
        (chain ≡ config.chain_state) ⊎ (chain ≡ cstate_msgrcv_retry)
        → (chain ≡ cstate_not_chained) ⊎ (chain ≡ cstate_msgrcv_retry)
    chain_of (inl e) = inl (
        e ∙ (waiting_state phase config.wait_state config.wait_reason config.chain_state a waits).0)
    chain_of (inr e) = inr e

module _ {M : Type 0} (memory : Memory M) (now : ℕ) (shmat_chain : Config → Returned × Config) where
  chained_shmat-Good :
      (chain : ChainState) (config : Config) (m : M) (queues : Queues)
      → config.wait_state ≡ wstate_not_waiting
      → config.wait_reason ≡ wr_not_waiting
      → config.chain_state ≡ chain
      → chain ≡ cstate_not_chained
      → IsCoherent outside (chained_shmat memory now shmat_chain chain config m queues).config
  unfolding chained_shmat
  chained_shmat-Good cstate_not_chained config m queues p q r e =
      idle-IsCoherent outside config p q r
  chained_shmat-Good cstate_single config m queues p q r e = cc
  chained_shmat-Good cstate_shmat_socket config m queues p q r e = cc
  chained_shmat-Good cstate_shmat_connect config m queues p q r e = cc
  chained_shmat-Good cstate_shmat_recvmsg config m queues p q r e = cc
  chained_shmat-Good cstate_shmat_mmap config m queues p q r e = cc
  chained_shmat-Good cstate_msgrcv_retry config m queues p q r e = cc

  pub chained_exit-Good :
      (ws : WaitState) (config : Config) (m : M) (queues : Queues)
      → config.wait_state ≡ ws
      → Agrees inside_chained ws config.wait_reason config.chain_state
      → (ws ≡ wstate_signaled_ppoll → config.chain_state ≡ cstate_not_chained)
      → Good outside (chained_exit memory now shmat_chain ws config m queues)
  unfolding chained_exit
  chained_exit-Good wstate_not_waiting config m queues p h unchained =
      chained_shmat-Good config.chain_state config m queues p h.0 refl h.1
  chained_exit-Good wstate_signaled_ppoll config m queues p h unchained =
      idle-IsCoherent outside (record config { wait_state = wstate_not_waiting }) refl h.0
        (unchained refl)
  chained_exit-Good wstate_restarted_into_ppoll config m queues p h unchained = absurd h
  chained_exit-Good wstate_restarted_into_ppoll_canceled config m queues p h unchained = absurd h
  chained_exit-Good wstate_entered_ppoll config m queues p h unchained = absurd h
  chained_exit-Good wstate_entered_getpid config m queues p h unchained = absurd h
