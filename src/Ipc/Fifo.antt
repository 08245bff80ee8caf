-- ===== src/Ipc/Fifo.antt =====
-- A receiver takes the first message that it asks for.
use improot.Base.{
  ℕ, suc, ◌+◌, ◌≡◌, ◌∙◌, ap, refl, inl, inr, true, false, none, some, List, [], ◌∷◌, ◌++◌, arith,
  length, All, Bool-cases, if◌then◌else◌,
}
use improot.Path.{enomsg}
use improot.Ipc.{Reply, reply, fails, has_flag, ipc_nowait, Config, wr_wait_queue_recv}
use improot.Ipc.Messages.{Item, Queue, Memory, item_matches}
use improot.Ipc.Receive.{
  find_match, remove_at, wants_copy, find_item, bad_request, deliver_data, dequeue, after_delivery,
  receive_found, do_msgrcv,
}

-- No message of the list is one that the receiver asks for.
abbrev pub NoneMatches : Config → List Item → Type 0
NoneMatches config items = All (λ item. item_matches config item ≡ false) items

find_match-first :
    (config : Config) (before : List Item) (item : Item) (after : List Item) (i : ℕ)
    → NoneMatches config before
    → item_matches config item ≡ true
    → find_match config (before ++ item ∷ after) i ≡ some (i + length before, item)
unfolding find_match
find_match-first config [] item after i h m =
    let here : i + 0 ≡ i = omega arith in rw (m, here) refl
find_match-first config (b ∷ before) item after i h m =
    let along : i + suc (length before) ≡ suc i + length before = omega arith in
    rw (h.0, along) (find_match-first config before item after (suc i) h.1 m)

find_match-none :
    (config : Config) (items : List Item) (i : ℕ)
    → NoneMatches config items
    → find_match config items i ≡ none
unfolding find_match
find_match-none config [] i h = refl
find_match-none config (item ∷ items) i h = rw h.0 (find_match-none config items (suc i) h.1)

remove_at-append :
    (before : List Item) (item : Item) (after : List Item)
    → remove_at (length before) (before ++ item ∷ after) ≡ before ++ after
unfolding remove_at
remove_at-append [] item after = refl
remove_at-append (b ∷ before) item after = ap (λ l. b ∷ l) (remove_at-append before item after)

-- What a receiver leaves of the queue, by its result.
abbrev pub LeavesItems : Reply ℕ → Queue → Queue → List Item → Type 0
LeavesItems (reply n) old new left = new.items ≡ left
LeavesItems (fails e) old new left = new ≡ old

module _ {M : Type 0} (memory : Memory M) where
  after_delivery-items :
      (now : ℕ) (config : Config) (queue : Queue) (before : List Item) (item : Item)
      (after : List Item) (d : Reply ℕ × M)
      → wants_copy config ≡ false
      → queue.items ≡ before ++ item ∷ after
      → let r = after_delivery now config queue (length before) item d in
        (r.status ≡ d.0) × LeavesItems d.0 queue r.queue (before ++ after)
  unfolding after_delivery
  after_delivery-items now config queue before item after (fails e, m) moves held = (refl, refl)
  after_delivery-items now config queue before item after (reply n, m) moves held = (
    refl,
    rw moves (
        unfold dequeue in ap (remove_at (length before)) held ∙ remove_at-append before item after),
  )

  pub find_item-first :
      (config : Config) (items before : List Item) (item : Item) (after : List Item)
      → wants_copy config ≡ false
      → NoneMatches config before
      → item_matches config item ≡ true
      → items ≡ before ++ item ∷ after
      → find_item config items ≡ some (length before, item)
  unfolding find_item
  find_item-first config items before item after moves none_before asked held =
      let start : 0 + length before ≡ length before = omega arith in
      rw (moves, held, find_match-first config before item after 0 none_before asked, start) refl

  -- A receiver with a valid request and no MSG_COPY takes the first message that it asks for: its
  -- result is that of the delivery of this message; when the delivery succeeds, this message alone
  -- leaves the queue and the others keep their order; when it fails, the queue is as it was.
  pub do_msgrcv-first :
      (m : M) (now : ℕ) (config : Config) (index : ℕ) (queue : Queue) (before : List Item)
      (item : Item) (after : List Item)
      → bad_request config ≡ false
      → wants_copy config ≡ false
      → NoneMatches config before
      → item_matches config item ≡ true
      → queue.items ≡ before ++ item ∷ after
      → let r = do_msgrcv memory m now config index queue in
        let delivery = deliver_data memory m config item in
        (r.status ≡ delivery.0) × LeavesItems delivery.0 queue r.queue (before ++ after)
  unfolding do_msgrcv receive_found
  do_msgrcv-first m now config index queue before item after valid moves none_before asked held =
      rw (valid, find_item-first config queue.items before item after moves none_before asked held)
        (after_delivery-items now config queue before item after (deliver_data memory m config item)
          moves held)

  -- When no message is one that it asks for, a receiver with a valid request and no MSG_COPY
  -- leaves the queue as it was; with IPC_NOWAIT the result is ENOMSG and its state is as it was,
  -- and without it, it waits for this queue.
  pub do_msgrcv_none :
      (m : M) (now : ℕ) (config : Config) (index : ℕ) (queue : Queue)
      → bad_request config ≡ false
      → wants_copy config ≡ false
      → NoneMatches config queue.items
      → let r = do_msgrcv memory m now config index queue in
        (r.queue ≡ queue)
        × (r.status ≡ (if has_flag config.msgrcv_msgflg ipc_nowait then fails enomsg else reply 0))
        × (r.config ≡ (
            if has_flag config.msgrcv_msgflg ipc_nowait
            then config
            else record config { wait_reason = wr_wait_queue_recv; waiting_object_index = index }))
  unfolding do_msgrcv receive_found find_item
  do_msgrcv_none m now config index queue valid moves none_at_all =
      rw (valid, moves, find_match-none config queue.items 0 none_at_all)
        (elim (Bool-cases (has_flag config.msgrcv_msgflg ipc_nowait)) [
          | inl nowait ↦ rw nowait (refl, refl, refl)
          | inr waits ↦ rw waits (refl, refl, refl)
        ])
