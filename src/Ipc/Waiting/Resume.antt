-- ===== src/Ipc/Waiting/Resume.antt =====
-- What a handler and the end of a wait leave.
use mathlib.Core.Path.{subst}
use improot.Base.{
  ◌∙◌, ℕ, ◌≡◌, sym, refl, inl, inr, ◌⊎◌, Bool, true, false, Option, none, some, get_elem?,
}
use improot.Ipc.{
  WaitReason, wr_not_waiting, wr_wait_queue_recv, wr_wait_semop, wr_wait_shmat_helper_busy,
  WaitState, wstate_not_waiting, ChainState, cstate_not_chained, cstate_single, cstate_shmat_socket,
  cstate_shmat_connect, cstate_shmat_recvmsg, cstate_shmat_mmap, cstate_msgrcv_retry, Config,
}
use improot.Ipc.Messages.{Memory, Queues}
use improot.Ipc.Calls.{Taken, is_again}
use improot.Ipc.Waiting.{
  Returned, Turn, Called, waiting_turn, done_turn, by_wait_reason, by_chain_state, after_handler,
}
use improot.Ipc.Waiting.Callback.{resumed_with, voided_with, retried, resume, resume_void}
use improot.Ipc.Waiting.Phases.{
  Phase, outside, inside, inside_chained, IsIdle, IsWoken, Agrees, IsCoherent,
  msgrcv_retry-IsSettled, IsInUse, Settles,
}

-- What a handler leaves: no state of a wait, and no chain but one of a single call.
abbrev pub Respects : {M : Type 0} → Called M → Type 0
Respects none = Unit
Respects (some call) =
    (call.config.wait_state ≡ wstate_not_waiting)
    × ((call.config.chain_state ≡ cstate_not_chained)
        ⊎ ((call.config.chain_state ≡ cstate_single) × (call.config.wait_reason ≡ wr_not_waiting)))

-- The slot of the queue of a retry holds a queue in use.
abbrev pub HasSlot : Config → Queues → Type 0
HasSlot config queues =
    config.chain_state ≡ cstate_msgrcv_retry
    → is_again config.status_after_wait ≡ true
    → IsInUse (get_elem? queues config.waiting_object_index)

abbrev pub Good : {M : Type 0} → Phase → Option (Turn M) → Type 0
Good phase none = ⊥
Good phase (some turn) = IsCoherent phase turn.config

abbrev pub phase_of : Bool → Phase
phase_of true = outside
phase_of false = inside

pub IsCoherent-at :
    (phase : Phase) (config : Config) {ws : WaitState} {reason : WaitReason} {chain : ChainState}
    → config.wait_state ≡ ws
    → config.wait_reason ≡ reason
    → config.chain_state ≡ chain
    → Agrees phase ws reason chain
    → IsCoherent phase config
IsCoherent-at phase config {ws} {reason} {chain} p q r h =
    subst (λ w. Agrees phase w config.wait_reason config.chain_state) (sym p)
      (subst (λ x. Agrees phase ws x config.chain_state) (sym q)
        (subst (λ c. Agrees phase ws reason c) (sym r) h))

-- A tracee that does not wait is coherent in each phase.
pub idle-IsCoherent :
    (phase : Phase) (config : Config)
    → config.wait_state ≡ wstate_not_waiting
    → config.wait_reason ≡ wr_not_waiting
    → config.chain_state ≡ cstate_not_chained
    → IsCoherent phase config
idle-IsCoherent outside config p q r = IsCoherent-at outside config p q r (refl, refl)
idle-IsCoherent inside config p q r = IsCoherent-at inside config p q r (refl, refl)
idle-IsCoherent inside_chained config p q r = IsCoherent-at inside_chained config p q r (refl, refl)

module _ {M : Type 0} where
  by_wait_reason-Good :
      (from_sigsys : Bool) (timeout : ℕ) (reason : WaitReason) (call : Taken M)
      → call.config.wait_reason ≡ reason
      → call.config.wait_state ≡ wstate_not_waiting
      → call.config.chain_state ≡ cstate_not_chained
      → IsCoherent (phase_of from_sigsys) (by_wait_reason from_sigsys timeout reason call).config
  unfolding by_wait_reason waiting_turn done_turn
  by_wait_reason-Good true timeout wr_not_waiting call e p q =
      idle-IsCoherent outside call.config p e q
  by_wait_reason-Good false timeout wr_not_waiting call e p q = (e, q)
  by_wait_reason-Good true timeout wr_wait_queue_recv call e p q = (λ d. cc (e, d), q)
  by_wait_reason-Good false timeout wr_wait_queue_recv call e p q = (λ d. cc (e, d), q)
  by_wait_reason-Good true timeout wr_wait_semop call e p q = (λ d. cc (e, d), q)
  by_wait_reason-Good false timeout wr_wait_semop call e p q = (λ d. cc (e, d), q)
  by_wait_reason-Good true timeout wr_wait_shmat_helper_busy call e p q = (λ d. cc (e, d), q)
  by_wait_reason-Good false timeout wr_wait_shmat_helper_busy call e p q = (λ d. cc (e, d), q)

  by_chain_state-Good :
      (from_sigsys : Bool) (timeout : ℕ) (chain : ChainState) (call : Taken M)
      → call.config.chain_state ≡ chain
      → Respects (some call)
      → Good (phase_of from_sigsys) (by_chain_state from_sigsys timeout chain call)
  unfolding by_chain_state
  by_chain_state-Good from_sigsys timeout cstate_not_chained call own (kept, h) =
      by_wait_reason-Good from_sigsys timeout _ call refl kept own
  by_chain_state-Good from_sigsys timeout cstate_single call own (kept, inr (chain, done)) =
      idle-IsCoherent (phase_of from_sigsys)
        (let c = call.config in record c { chain_state = cstate_not_chained }) kept done refl
  by_chain_state-Good from_sigsys timeout cstate_single call own (kept, inl chain) = cc
  by_chain_state-Good from_sigsys timeout cstate_shmat_socket call own (kept, inl chain) = cc
  by_chain_state-Good from_sigsys timeout cstate_shmat_socket call own (kept, inr (c, d)) = cc
  by_chain_state-Good from_sigsys timeout cstate_shmat_connect call own (kept, inl chain) = cc
  by_chain_state-Good from_sigsys timeout cstate_shmat_connect call own (kept, inr (c, d)) = cc
  by_chain_state-Good from_sigsys timeout cstate_shmat_recvmsg call own (kept, inl chain) = cc
  by_chain_state-Good from_sigsys timeout cstate_shmat_recvmsg call own (kept, inr (c, d)) = cc
  by_chain_state-Good from_sigsys timeout cstate_shmat_mmap call own (kept, inl chain) = cc
  by_chain_state-Good from_sigsys timeout cstate_shmat_mmap call own (kept, inr (c, d)) = cc
  by_chain_state-Good from_sigsys timeout cstate_msgrcv_retry call own (kept, inl chain) = cc
  by_chain_state-Good from_sigsys timeout cstate_msgrcv_retry call own (kept, inr (c, d)) = cc

  pub after_handler-Good :
      (from_sigsys : Bool) (timeout : ℕ) (config : Config) (m : M) (queues : Queues)
      (called : Called M)
      → config.wait_state ≡ wstate_not_waiting
      → IsIdle config.wait_reason config.chain_state
      → Respects called
      → Good (phase_of from_sigsys) (after_handler from_sigsys timeout config m queues called)
  unfolding after_handler
  after_handler-Good from_sigsys timeout config m queues none p idle h =
      idle-IsCoherent (phase_of from_sigsys) config p idle.0 idle.1
  after_handler-Good from_sigsys timeout config m queues (some call) p idle h =
      by_chain_state-Good from_sigsys timeout _ call refl h

  resumed_with-Good :
      (phase : Phase) (config : Config) (o : Option (Taken M))
      → config.wait_state ≡ wstate_not_waiting
      → Settles config o
      → Good phase (resumed_with o)
  unfolding resumed_with
  resumed_with-Good phase config none own h = h
  resumed_with-Good phase config (some call) own (kept, idle) =
      idle-IsCoherent phase call.config (kept ∙ own) idle.0 idle.1

  voided_with-Good :
      (phase : Phase) (config : Config) (o : Option (Taken M))
      → Settles config o
      → Good phase (voided_with o)
  unfolding voided_with
  voided_with-Good phase config none h = h
  voided_with-Good phase config (some call) (kept, idle) =
      idle-IsCoherent phase (let c = call.config in record c { wait_state = wstate_not_waiting })
        refl idle.0 idle.1

  module _ (memory : Memory M) (now : ℕ) (shmat_chain : Config → Returned × Config) where
    retried-IsSettled :
        (chain : ChainState) (config : Config) (m : M) (queues : Queues)
        → config.chain_state ≡ chain
        → (chain ≡ cstate_not_chained) ⊎ (chain ≡ cstate_msgrcv_retry)
        → config.wait_reason ≡ wr_not_waiting
        → HasSlot config queues
        → Settles config (retried memory now shmat_chain chain config m queues)
    unfolding retried
    retried-IsSettled cstate_not_chained config m queues own h idle slot = (refl, (idle, own))
    retried-IsSettled cstate_msgrcv_retry config m queues own h idle slot =
        msgrcv_retry-IsSettled memory now m config queues idle (slot own)
    retried-IsSettled cstate_single config m queues own (inl e) idle slot = cc
    retried-IsSettled cstate_single config m queues own (inr e) idle slot = cc
    retried-IsSettled cstate_shmat_socket config m queues own (inl e) idle slot = cc
    retried-IsSettled cstate_shmat_socket config m queues own (inr e) idle slot = cc
    retried-IsSettled cstate_shmat_connect config m queues own (inl e) idle slot = cc
    retried-IsSettled cstate_shmat_connect config m queues own (inr e) idle slot = cc
    retried-IsSettled cstate_shmat_recvmsg config m queues own (inl e) idle slot = cc
    retried-IsSettled cstate_shmat_recvmsg config m queues own (inr e) idle slot = cc
    retried-IsSettled cstate_shmat_mmap config m queues own (inl e) idle slot = cc
    retried-IsSettled cstate_shmat_mmap config m queues own (inr e) idle slot = cc

    pub resume-IsCoherent :
        (phase : Phase) (config : Config) (m : M) (queues : Queues)
        → IsWoken config.wait_reason config.chain_state
        → HasSlot config queues
        → Good phase (resume memory now shmat_chain config m queues)
    unfolding resume
    resume-IsCoherent phase config m queues woken slot =
        resumed_with-Good phase (record config { wait_state = wstate_not_waiting }) _ refl
          (retried-IsSettled config.chain_state (record config { wait_state = wstate_not_waiting })
            m queues refl woken.1 woken.0 slot)

    pub resume_void-IsCoherent :
        (phase : Phase) (config : Config) (m : M) (queues : Queues)
        → IsWoken config.wait_reason config.chain_state
        → HasSlot config queues
        → Good phase (resume_void memory now shmat_chain config m queues)
    unfolding resume_void
    resume_void-IsCoherent phase config m queues woken slot =
        voided_with-Good phase config _
          (retried-IsSettled config.chain_state config m queues refl woken.1 woken.0 slot)
