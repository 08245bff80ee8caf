-- ===== src/Tests/Queues.antt =====
-- Runs of the message queues, and the theorems on them at inputs.
use improot.Base.{some, ℕ, ◌≡◌, refl, false, [], ◌∷◌, arith, Text, codes, take, All}
use improot.Path.{success}
use improot.Ipc.{
  reply, bit_or, object_id, no_object, object_at, lookup_object, check_object, find_slot, Config,
  wr_not_waiting, wr_wait_queue_recv, wstate_not_waiting, wstate_entered_ppoll, cstate_not_chained,
}
use improot.Ipc.Messages.{
  Item, Queue, Queues, Memory, new_queue, created, create_queue, get_queue, msgget, msg_match,
  read_message, send_item, send_to, enqueue, msgsnd,
}
use improot.Ipc.Receive.{
  find_match, find_item, bad_request, deliver_data, write_text, wrote, after_delivery,
  receive_found, do_msgrcv,
}
use improot.Ipc.Calls.{receive_from, put_back, msgrcv, msgrcv_retry, msgctl}
use improot.Ipc.Ids.{lookup_object-object_id, lookup_object_wrapped}
use improot.Ipc.Fifo.{LeavesItems, do_msgrcv-first}
use improot.Ipc.Reach.{
  initially, by_msgget, by_msgsnd, by_msgctl, sent_queues, controlled_queues, Reachable-IsGood,
}
use improot.Ipc.Good.{IsGood}
use improot.Ipc.Wake.{woken, result_of, retry_result, msgsnd-wakes}

-- A memory that reads as a message of type 3 everywhere, and keeps what is written.
abbrev memory : Memory Text
memory = record {
  read_long = λ m a. reply 3;
  read_bytes = λ m a n. reply (take n (codes "hello"));
  write_long = λ m a x. (success, m);
  write_bytes = λ m a t. (success, t);
  write_stats = λ m a s. (success, m);
}

abbrev receiver : Config
receiver = record {
  pid = 8;
  ipc_namespace = 1;
  wait_reason = wr_wait_queue_recv;
  wait_state = wstate_entered_ppoll;
  chain_state = cstate_not_chained;
  status_after_wait = reply 0;
  waiting_object_index = 0;
  msgrcv_msgp = 64;
  msgrcv_msgsz = 16;
  msgrcv_msgtyp = 3;
  msgrcv_msgflg = 0;
  semop_sops = [];
  sigstop_ignored = false;
}

abbrev sender : Config
sender = record receiver { pid = 7; wait_reason = wr_not_waiting; wait_state = wstate_not_waiting }

abbrev item_of : ℕ → Text → Item
item_of mtype mtext = record { mtype = mtype; mtext = mtext; mtext_length = 2 }

abbrev one_queue : Queues
one_queue = created 5 0 ∷ []

creates : msgget 5 512 [] ≡ (reply 1, one_queue)
unfolding msgget find_slot get_queue create_queue object_id bit_or
creates = refl

-- The queue after one message, from the sender's and the receiver's side.
after_send : Queues
unfolding msgsnd send_to send_item read_message lookup_object check_object enqueue
after_send = sent_queues (msgsnd memory [] 100 sender (receiver ∷ []) 1 64 2 one_queue)

receives : result_of (msgrcv memory [] 101 sender 1 64 16 0 0 after_send) ≡ reply 2
unfolding after_send msgrcv receive_from lookup_object check_object put_back do_msgrcv bad_request
    receive_found find_item find_match msg_match deliver_data write_text wrote after_delivery
receives = refl

Reachable-IsGood_example : All IsGood (
    controlled_queues (
      msgctl memory [] sender [] 1 2 0
        (sent_queues (msgsnd memory [] 100 sender (receiver ∷ []) 1 64 2 (msgget 5 512 []).1))))
Reachable-IsGood_example =
    Reachable-IsGood memory
      (controlled_queues (
        msgctl memory [] sender [] 1 2 0
          (sent_queues (msgsnd memory [] 100 sender (receiver ∷ []) 1 64 2 (msgget 5 512 []).1))))
      (by_msgctl (by_msgsnd (by_msgget initially 5 512) [] 100 sender (receiver ∷ []) 1 64 2) []
        sender [] 1 2 0)

abbrev two_items : Queue
two_items = record new_queue { items = item_of 4 (codes "no") ∷ item_of 3 (codes "ok") ∷ [] }

do_msgrcv-first_example :
    (let r = do_msgrcv memory [] 100 receiver 0 two_items in
      let delivery = deliver_data memory [] receiver (item_of 3 (codes "ok")) in
      (r.status ≡ delivery.0)
      × LeavesItems delivery.0 two_items r.queue (item_of 4 (codes "no") ∷ []))
unfolding bad_request msg_match
do_msgrcv-first_example =
    do_msgrcv-first memory [] 100 receiver 0 two_items (item_of 4 (codes "no") ∷ [])
      (item_of 3 (codes "ok")) [] refl refl (refl, tt) refl refl

lookup_object-object_id_example :
    lookup_object (object_id 0 0) one_queue ≡ object_at 0 (created 5 0)
lookup_object-object_id_example =
    lookup_object-object_id one_queue 0 {object = created 5 0} refl refl (omega arith) (omega arith)

lookup_object_wrapped_example : lookup_object 1 (created 5 40000 ∷ []) ≡ no_object
lookup_object_wrapped_example =
    lookup_object_wrapped (created 5 40000 ∷ []) 1 {object = created 5 40000} refl (omega arith)
      (omega arith)

msgsnd-wakes_example :
    (let sent = msgsnd memory [] 100 sender (sender ∷ receiver ∷ []) 1 64 2 one_queue in
      (sent.configs ≡ sender ∷ woken receiver ∷ [])
      × (retry_result (msgrcv_retry memory [] 101 (woken receiver) sent.queues)
          ≡ some (deliver_data memory [] (woken receiver) (item_of 3 (codes "he"))).0))
unfolding lookup_object check_object read_message bad_request msg_match
msgsnd-wakes_example =
    msgsnd-wakes memory [] [] 100 101 sender (sender ∷ []) receiver [] 1 64 2 one_queue 0
      (created 5 0) (item_of 3 (codes "he")) refl (omega arith) refl (refl, tt) refl refl refl tt
