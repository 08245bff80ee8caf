-- ===== src/Ipc/Waiting/Phases.antt =====
-- What holds of a tracee that waits or does not, and what the handlers leave alone.
use improot.Base.{
  Bool, if◌then◌else◌, false, true, ℕ, ◌≡◌, ◌≢◌, refl, inl, inr, ◌⊎◌, Option, none, some, get_elem?,
  Bool-cases,
}
use improot.Ipc.{
  Reply, reply, fails, Object, WaitReason, wr_not_waiting, wr_wait_queue_recv, wr_wait_semop,
  wr_wait_shmat_helper_busy, WaitState, wstate_not_waiting, wstate_restarted_into_ppoll_canceled,
  wstate_restarted_into_ppoll, wstate_entered_ppoll, wstate_signaled_ppoll, wstate_entered_getpid,
  ChainState, cstate_not_chained, cstate_msgrcv_retry, Config, has_flag, ipc_nowait,
}
use improot.Ipc.Messages.{Memory, Item, Queue, Queues}
use improot.Ipc.Receive.{
  bad_request, find_item, deliver_data, after_delivery, receive_found, do_msgrcv,
}
use improot.Ipc.Calls.{Taken, put_back, settled, is_again, retry_at, msgrcv_retry}

-- Where the tracee stands: outside of a system call, in one of its own, or in a chained one.
pub data Phase : Type 0 where
  outside inside inside_chained : Phase

abbrev pub IsIdle : WaitReason → ChainState → Type 0
IsIdle reason chain = (reason ≡ wr_not_waiting) × (chain ≡ cstate_not_chained)

abbrev pub IsWaiting : WaitReason → ChainState → Type 0
IsWaiting reason chain = (reason ≢ wr_not_waiting) × (chain ≡ cstate_not_chained)

abbrev pub IsWoken : WaitReason → ChainState → Type 0
IsWoken reason chain =
    (reason ≡ wr_not_waiting) × ((chain ≡ cstate_not_chained) ⊎ (chain ≡ cstate_msgrcv_retry))

-- What holds in a phase, by the state of the wait.
abbrev pub Agrees : Phase → WaitState → WaitReason → ChainState → Type 0
Agrees phase wstate_not_waiting reason chain = IsIdle reason chain
Agrees outside wstate_restarted_into_ppoll reason chain = IsWaiting reason chain
Agrees outside wstate_restarted_into_ppoll_canceled reason chain = IsWoken reason chain
Agrees inside wstate_entered_ppoll reason chain = IsWaiting reason chain
Agrees inside wstate_signaled_ppoll reason chain = IsWoken reason chain
Agrees inside wstate_entered_getpid reason chain = IsIdle reason chain
Agrees inside_chained wstate_signaled_ppoll reason chain = IsWoken reason chain
Agrees _ _ reason chain = ⊥

abbrev pub IsCoherent : Phase → Config → Type 0
IsCoherent phase config = Agrees phase config.wait_state config.wait_reason config.chain_state

-- The state of the wait and that of the chain, which a handler leaves alone.
abbrev pub Keeps : Config → Config → Type 0
Keeps old new = (new.wait_state ≡ old.wait_state) × (new.chain_state ≡ old.chain_state)

-- The end of a retry: nothing is waited for, and the state of the wait is as it was.
abbrev pub IsSettled : Config → Config → Type 0
IsSettled old new = (new.wait_state ≡ old.wait_state) × IsIdle new.wait_reason new.chain_state

-- A slot that holds a queue in use.
abbrev pub IsInUse : Option (Object Queue) → Type 0
IsInUse none = ⊥
IsInUse (some object) = object.valid ≡ true

-- The same of what a retry leaves, of which no assertion fails.
abbrev pub Settles : {M : Type 0} → Config → Option (Taken M) → Type 0
Settles old none = ⊥
Settles old (some taken) = IsSettled old taken.config

module _ {M : Type 0} (memory : Memory M) (now : ℕ) where
  after_delivery-Keeps :
      (config : Config) (queue : Queue) (i : ℕ) (item : Item) (r : Reply ℕ × M)
      → Keeps config (after_delivery now config queue i item r).config
  unfolding after_delivery
  after_delivery-Keeps config queue i item (fails e, m) = (refl, refl)
  after_delivery-Keeps config queue i item (reply n, m) = (refl, refl)

  receive_found-Keeps :
      (m : M) (config : Config) (i : ℕ) (queue : Queue) (o : Option (ℕ × Item))
      → Keeps config (receive_found memory m now config i queue o).config
  unfolding receive_found
  receive_found-Keeps m config i queue none =
      elim (Bool-cases (has_flag config.msgrcv_msgflg ipc_nowait)) [
        | inl nowait ↦ rw nowait (refl, refl)
        | inr waits ↦ rw waits (refl, refl)
      ]
  receive_found-Keeps m config i queue (some (j, item)) =
      after_delivery-Keeps config queue j item (deliver_data memory m config item)

  pub do_msgrcv-Keeps :
      (m : M) (config : Config) (i : ℕ) (queue : Queue)
      → Keeps config (do_msgrcv memory m now config i queue).config
  unfolding do_msgrcv
  do_msgrcv-Keeps m config i queue = elim (Bool-cases (bad_request config)) [
    | inl bad ↦ rw bad (refl, refl)
    | inr fine ↦ rw fine (receive_found-Keeps m config i queue (find_item config queue.items))
  ]

  settled-IsSettled :
      (old : Config) (reason : WaitReason) (r : Taken M)
      → r.config.wait_reason ≡ reason
      → r.config.wait_state ≡ old.wait_state
      → IsSettled old (settled reason r).config
  unfolding settled
  settled-IsSettled old wr_not_waiting r own same = (same, (own, refl))
  settled-IsSettled old wr_wait_queue_recv r own same = (same, (refl, refl))
  settled-IsSettled old wr_wait_semop r own same = (same, (refl, refl))
  settled-IsSettled old wr_wait_shmat_helper_busy r own same = (same, (refl, refl))

  if-Settles :
      (old : Config) (b : Bool) (t : Taken M)
      → b ≡ true
      → IsSettled old t.config
      → Settles old (if b then some t else none)
  if-Settles old true t e h = h
  if-Settles old false t e h = cc

  retry_at-IsSettled :
      (m : M) (config : Config) (i : ℕ) (queues : Queues) (o : Option (Object Queue))
      → IsInUse o
      → Settles config (retry_at memory m now config i queues o)
  unfolding retry_at put_back
  retry_at-IsSettled m config i queues none h = absurd h
  retry_at-IsSettled m config i queues (some object) h =
      let r = put_back queues i object (do_msgrcv memory m now config i object.content) in
      let config' = r.config in
      if-Settles config object.valid (settled config'.wait_reason r) h (
        settled-IsSettled config config'.wait_reason r refl
          (do_msgrcv-Keeps m config i object.content).0)

  pub msgrcv_retry-IsSettled :
      (m : M) (config : Config) (queues : Queues)
      → config.wait_reason ≡ wr_not_waiting
      → (is_again config.status_after_wait ≡ true
          → IsInUse (get_elem? queues config.waiting_object_index))
      → Settles config (msgrcv_retry memory m now config queues)
  unfolding msgrcv_retry
  msgrcv_retry-IsSettled m config queues idle there =
      elim (Bool-cases (is_again config.status_after_wait)) [
        | inl again ↦
            rw again
              (retry_at-IsSettled m config config.waiting_object_index queues _ (there again))
        | inr other ↦ rw other (refl, (idle, refl))
      ]
