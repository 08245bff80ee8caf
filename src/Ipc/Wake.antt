-- ===== src/Ipc/Wake.antt =====
-- A message that is sent wakes a receiver, and the receiver gets it.
use improot.Base.{
  ℕ, ◌≤◌, ◌≡◌, ◌∙◌, ap, sym, refl, Bool, true, false, ◌&&◌, Option, none, some, List, [], ◌∷◌, ◌++◌,
  arith, length, All, if◌then◌else◌, get_elem?, set_elem, get_elem?-set_elem, ltb,
}
use mathlib.Core.Path.{subst}
use improot.Ipc.{
  Reply, reply, fails, Object, object_at, lookup_object, Config, WaitReason, wr_not_waiting,
  WaitState, wstate_not_waiting, wstate_restarted_into_ppoll_canceled, wstate_restarted_into_ppoll,
  wstate_entered_ppoll, wstate_signaled_ppoll, wstate_entered_getpid, cstate_msgrcv_retry, wake_in,
  wake_tracee,
}
use improot.Path.{eagain}
use improot.Ipc.Messages.{
  max_msg_size, Item, Queue, Queues, Memory, item_matches, waits_on, wake_receiver, enqueue,
  with_content, read_message, send_item, send_to, msgsnd,
}
use improot.Ipc.Receive.{
  wants_copy, bad_request, deliver_data, after_delivery, receive_found, do_msgrcv,
}
use improot.Ipc.Calls.{Taken, put_back, settled, is_again, retry_at, msgrcv_retry}
use improot.Ipc.Fifo.{NoneMatches, find_item-first, do_msgrcv-first}
use improot.Ipc.Good.{lookup_object-found}

abbrev pub asks_for : ℕ → ℕ → Item → Config → Bool
asks_for namespace index item config = waits_on namespace index config && item_matches config item

-- The receiver as `sysvipc_msgsnd` leaves it.
abbrev pub woken : Config → Config
woken config = wake_tracee (record config { chain_state = cstate_msgrcv_retry }) (fails eagain)

wake_receiver-first :
    (namespace index : ℕ) (item : Item) (before : List Config) (w : Config) (after : List Config)
    → All (λ c. asks_for namespace index item c ≡ false) before
    → asks_for namespace index item w ≡ true
    → wake_receiver namespace index item (before ++ w ∷ after) ≡ before ++ woken w ∷ after
unfolding wake_receiver
wake_receiver-first namespace index item [] w after h asks = rw asks refl
wake_receiver-first namespace index item (b ∷ before) w after h asks =
    rw h.0 (ap (λ l. b ∷ l) (wake_receiver-first namespace index item before w after h.1 asks))

if_true {ℓ} : {A : Type ℓ} (b : Bool) (x y : A) → b ≡ true → (if b then x else y) ≡ x
if_true true x y e = refl
if_true false x y e = cc

abbrev pub result_of : {M : Type 0} → Taken M → Reply ℕ
result_of t = t.status

abbrev pub retry_result : {M : Type 0} → Option (Taken M) → Option (Reply ℕ)
retry_result none = none
retry_result (some t) = some t.status

module _ {M : Type 0} (memory : Memory M) where
  after_delivery-config :
      (now : ℕ) (config : Config) (queue : Queue) (i : ℕ) (item : Item) (d : Reply ℕ × M)
      → (let r = after_delivery now config queue i item d in r.config ≡ config)
  unfolding after_delivery
  after_delivery-config now config queue i item (fails e, m) = refl
  after_delivery-config now config queue i item (reply n, m) = refl

  settled-status :
      (x : WaitReason) (t : Taken M) → x ≡ wr_not_waiting → result_of (settled x t) ≡ result_of t
  unfolding settled
  settled-status x t e = ap (λ y. result_of (settled y t)) e

  module _ (m : M) (now : ℕ) (c : Config) (queues : Queues) (object : Object Queue)
      (before : List Item) (item : Item) (after : List Item) (valid : bad_request c ≡ false)
      (moves : wants_copy c ≡ false) (none_before : NoneMatches c before)
      (asked : item_matches c item ≡ true)
      (held : (let queue = object.content in queue.items ≡ before ++ item ∷ after)) where
    do_msgrcv-config :
        (let r = do_msgrcv memory m now c c.waiting_object_index object.content in r.config ≡ c)
    unfolding do_msgrcv receive_found
    do_msgrcv-config =
        let queue = object.content in
        rw
          (
            valid,
            find_item-first memory c queue.items before item after moves none_before asked held,
          )
          (after_delivery-config now c queue (length before) item (deliver_data memory m c item))

    retried :
        c.wait_reason ≡ wr_not_waiting
        → c.status_after_wait ≡ fails eagain
        → get_elem? queues c.waiting_object_index ≡ some object
        → object.valid ≡ true
        → retry_result (msgrcv_retry memory m now c queues) ≡ some (deliver_data memory m c item).0
    unfolding msgrcv_retry retry_at put_back
    retried idle again at used =
        let i = c.waiting_object_index in
        ap retry_result (if_true (is_again c.status_after_wait) _ _ (ap is_again again))
        ∙ ap (λ o. retry_result (retry_at memory m now c i queues o)) at
        ∙ ap retry_result (if_true object.valid _ _ used)
        ∙ ap some (
            settled-status _ _ (ap (λ d. d.wait_reason) do_msgrcv-config ∙ idle)
            ∙ (do_msgrcv-first memory m now c i object.content before item after valid moves
                none_before asked held).0)

  -- What a successful `msgsnd` does.
  msgsnd-sent :
      (m : M) (now : ℕ) (sender : Config) (configs : List Config) (id msgp msgsz : ℕ)
      (queues : Queues) (i : ℕ) (object : Object Queue) (item : Item)
      → lookup_object id queues ≡ object_at i object
      → msgsz ≤ max_msg_size
      → read_message memory m msgp msgsz ≡ reply item
      → msgsnd memory m now sender configs id msgp msgsz queues
        ≡ send_item now queues i object sender configs (reply item)
  unfolding msgsnd send_to
  msgsnd-sent m now sender configs id msgp msgsz queues i object item found small read =
      let fits : ltb max_msg_size msgsz ≡ false = ground arith in rw (found, fits, read) refl

  abbrev freed : Config → Config
  freed w = record w {
    chain_state = cstate_msgrcv_retry;
    wait_reason = wr_not_waiting;
    status_after_wait = fails eagain;
  }

  module _ (m : M) (now : ℕ) (w : Config) (queues : Queues) (object : Object Queue)
      (before : List Item) (item : Item) (after : List Item) (valid : bad_request w ≡ false)
      (moves : wants_copy w ≡ false) (none_before : NoneMatches w before)
      (asked : item_matches w item ≡ true)
      (held : (let queue = object.content in queue.items ≡ before ++ item ∷ after))
      (at : get_elem? queues w.waiting_object_index ≡ some object)
      (used : object.valid ≡ true) where
    abbrev Gets : Config → Type 0
    Gets c =
        retry_result (msgrcv_retry memory m now c queues) ≡ some (deliver_data memory m c item).0

    freed-Gets : (ws : WaitState) → Gets (wake_in ws (freed w))
    unfolding wake_in bad_request
    freed-Gets wstate_not_waiting =
        retried m now (freed w) queues object before item after valid moves none_before asked held
          refl refl at used
    freed-Gets wstate_restarted_into_ppoll_canceled =
        retried m now (freed w) queues object before item after valid moves none_before asked held
          refl refl at used
    freed-Gets wstate_restarted_into_ppoll =
        retried m now (wake_in wstate_restarted_into_ppoll (freed w)) queues object before item
          after valid moves none_before asked held refl refl at used
    freed-Gets wstate_entered_ppoll =
        retried m now (wake_in wstate_entered_ppoll (freed w)) queues object before item after valid
          moves none_before asked held refl refl at used
    freed-Gets wstate_signaled_ppoll =
        retried m now (freed w) queues object before item after valid moves none_before asked held
          refl refl at used
    freed-Gets wstate_entered_getpid =
        retried m now (freed w) queues object before item after valid moves none_before asked held
          refl refl at used

  -- A `msgsnd` that finds its queue and reads its message wakes the first receiver that waits on
  -- this queue for such a message, and no other. When this receiver's request is valid and has no
  -- MSG_COPY, and the queue held no message for it, its retry on the new queues gets the message:
  -- no assertion of it fails, and its result is that of the delivery of this message.
  pub msgsnd-wakes :
      (m m' : M) (now now' : ℕ) (sender : Config) (before : List Config) (w : Config)
      (after : List Config) (id msgp msgsz : ℕ) (queues : Queues) (i : ℕ) (object : Object Queue)
      (item : Item)
      → lookup_object id queues ≡ object_at i object
      → msgsz ≤ max_msg_size
      → read_message memory m msgp msgsz ≡ reply item
      → All (λ c. asks_for sender.ipc_namespace i item c ≡ false) before
      → asks_for sender.ipc_namespace i item w ≡ true
      → bad_request w ≡ false
      → wants_copy w ≡ false
      → (let queue = object.content in NoneMatches w queue.items)
      → let sent = msgsnd memory m now sender (before ++ w ∷ after) id msgp msgsz queues in
        (sent.configs ≡ before ++ woken w ∷ after)
        × (retry_result (msgrcv_retry memory m' now' (woken w) sent.queues)
            ≡ some (deliver_data memory m' (woken w) item).0)
  unfolding wake_tracee send_item
  msgsnd-wakes m m' now now' sender before w after id msgp msgsz queues i object item found small
        read first asks valid moves empty =
      let queue = object.content in
      let object' = with_content object (enqueue sender.pid now item queue) in
      let here : w.waiting_object_index ≡ i = ground arith in
      let asked : item_matches w item ≡ true = ground arith in
      let (at, used) = lookup_object-found id queues found in
      rw
        (msgsnd-sent m now sender (before ++ w ∷ after) id msgp msgsz queues i object item found
          small read)
        (
          wake_receiver-first sender.ipc_namespace i item before w after first asks,
          freed-Gets m' now' w (set_elem queues i object') object' queue.items item [] valid moves
              empty asked (unfold enqueue in refl)
              (subst (λ j. get_elem? (set_elem queues i object') j ≡ some object') (sym here)
                (get_elem?-set_elem queues i object' at))
              used w.wait_state,
        )
