-- ===== src/Ipc/Receive.antt =====
-- src/extension/sysvipc/sysvipc_msg.c: receiving a message, and the control of a queue.
use improot.Base.{
  ℕ, zero, suc, ◌+◌, ◌-◌, ◌/◌, ◌%◌, ◌^◌, Bool, not, ◌&&◌, ◌||◌, Option, none, some, List, [], ◌∷◌,
  ltb, leb, ◌==◌, if◌then◌else◌, take, Text,
}
use improot.Path.{einval, e2big, enomsg, Status, success, failure}
use improot.Ipc.{Reply, reply, fails, has_flag, ipc_nowait, Config, wr_wait_queue_recv}
use improot.Ipc.Messages.{msg_noerror, msg_except, msg_copy, Item, Queue, Memory, item_matches}

-- What a handler leaves: the result, the tracee's memory, and the state.
pub record Received (M : Type 0) : Type 0 where
  pub status : Reply ℕ
  pub memory : M
  pub config : Config
  pub queue : Queue

-- The position of an item in a queue, with the item.
unfoldable pub find_match : Config → List Item → ℕ → Option (ℕ × Item)
find_match config [] i = none
find_match config (item ∷ items) i =
    if item_matches config item then some (i, item) else find_match config items (suc i)

-- With `MSG_COPY` the type is a position.
unfoldable pub find_index : ℕ → List Item → ℕ → Option (ℕ × Item)
find_index index [] i = none
find_index index (item ∷ items) i =
    if i == index then some (i, item) else find_index index items (suc i)

-- `STAILQ_REMOVE`
unfoldable pub remove_at : ℕ → List Item → List Item
remove_at i [] = []
remove_at zero (item ∷ items) = items
remove_at (suc i) (item ∷ items) = item ∷ remove_at i items

abbrev pub wants_copy : Config → Bool
wants_copy config = has_flag config.msgrcv_msgflg msg_copy

unfoldable pub find_item : Config → List Item → Option (ℕ × Item)
find_item config items =
    if wants_copy config then find_index config.msgrcv_msgtyp items 0 else find_match config items 0

-- A flag outside `IPC_NOWAIT | MSG_NOERROR | MSG_COPY | MSG_EXCEPT`, the bits 11 to 14.
abbrev pub other_flags : ℕ → Bool
other_flags flags = not (flags % 2 ^ 11 == 0) || not (flags / 2 ^ 15 == 0)

-- The checks of `sysvipc_do_msgrcv`.
unfoldable pub bad_request : Config → Bool
bad_request config =
    let flags = config.msgrcv_msgflg in
    leb (2 ^ 31) (config.msgrcv_msgsz % 2 ^ 32)
    || (other_flags flags
        || (wants_copy config && (not (has_flag flags ipc_nowait) || has_flag flags msg_except)))

-- `msgsz` of `sysvipc_msg_deliver`.
abbrev pub delivered_length : Config → Item → ℕ
delivered_length config item =
    if ltb config.msgrcv_msgsz item.mtext_length then config.msgrcv_msgsz else item.mtext_length

module _ {M : Type 0} (memory : Memory M) where
  unfoldable pub wrote : ℕ → Status × M → Reply ℕ × M
  wrote n (failure e, m) = (fails e, m)
  wrote n (success, m) = (reply n, m)

  -- The two writes of `sysvipc_msg_deliver`.
  unfoldable pub write_text : ℕ → Text → ℕ → Status × M → Reply ℕ × M
  unfolding wrote
  write_text msgp mtext n (failure e, m) = (fails e, m)
  write_text msgp mtext n (success, m) = wrote n (memory.write_bytes m ((msgp + 8) % 2 ^ 64) mtext)

  unfoldable pub deliver_data : M → Config → Item → Reply ℕ × M
  unfolding write_text
  deliver_data m config item =
      let n = delivered_length config item in
      if ltb config.msgrcv_msgsz item.mtext_length
        && not (has_flag config.msgrcv_msgflg msg_noerror)
      then (fails e2big, m)
      else write_text config.msgrcv_msgp (take n item.mtext) n
          (memory.write_long m config.msgrcv_msgp item.mtype)

-- The statistics that `sysvipc_msg_deliver` writes.
abbrev pub received_by : ℕ → ℕ → Queue → Queue
received_by pid now queue =
    let stats = queue.stats in
    record queue { stats = record stats { msg_lrpid = pid; msg_rtime = now } }

-- The item leaves the queue.
unfoldable pub dequeue : ℕ → Item → Queue → Queue
dequeue i item queue =
    let stats = queue.stats in
    record {
      items = remove_at i queue.items;
      stats = record stats {
        msg_qnum = (stats.msg_qnum + 2 ^ 64 - 1) % 2 ^ 64;
        msg_cbytes = (stats.msg_cbytes + 2 ^ 64 - item.mtext_length) % 2 ^ 64;
      };
    }

unfoldable pub after_delivery :
    {M : Type 0} → ℕ → Config → Queue → ℕ → Item → Reply ℕ × M → Received M
after_delivery now config queue i item (fails e, m) = record {
  status = fails e;
  memory = m;
  config = config;
  queue = queue;
}
after_delivery now config queue i item (reply n, m) =
    let seen = received_by config.pid now queue in
    record {
      status = reply n;
      memory = m;
      config = config;
      queue = if wants_copy config then seen else dequeue i item seen;
    }

unfoldable pub receive_found :
    {M : Type 0} → Memory M → M → ℕ → Config → ℕ → Queue → Option (ℕ × Item) → Received M
receive_found memory m now config queue_index queue none =
    if has_flag config.msgrcv_msgflg ipc_nowait
    then record { status = fails enomsg; memory = m; config = config; queue = queue }
    else record {
      status = reply 0;
      memory = m;
      config = record config {
        wait_reason = wr_wait_queue_recv;
        waiting_object_index = queue_index;
      };
      queue = queue;
    }
receive_found memory m now config queue_index queue (some (i, item)) =
    after_delivery now config queue i item (deliver_data memory m config item)

-- `sysvipc_do_msgrcv`
unfoldable pub do_msgrcv : {M : Type 0} → Memory M → M → ℕ → Config → ℕ → Queue → Received M
do_msgrcv memory m now config queue_index queue =
    if bad_request config
    then record { status = fails einval; memory = m; config = config; queue = queue }
    else receive_found memory m now config queue_index queue (find_item config queue.items)
