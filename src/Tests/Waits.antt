-- ===== src/Tests/Waits.antt =====
-- A run of a receiver that waits, is woken and gets its message, and the theorem on it.
use improot.Base.{ℕ, ◌≡◌, refl, inr, false, true, Option, none, some, [], ◌∷◌, Text, codes, take}
use improot.Path.{success, eagain}
use improot.Ipc.{
  Reply, reply, fails, Config, wr_not_waiting, wr_wait_queue_recv, wstate_not_waiting,
  wstate_entered_ppoll, wstate_signaled_ppoll, cstate_not_chained, cstate_msgrcv_retry,
  lookup_object, check_object, wake_tracee,
}
use improot.Ipc.Messages.{Item, Queues, Memory, new_queue, created, msg_match}
use improot.Ipc.Receive.{
  find_match, find_item, bad_request, deliver_data, write_text, wrote, after_delivery,
  receive_found, do_msgrcv,
}
use improot.Ipc.Calls.{receive_from, put_back, retry_at, settled, msgrcv, msgrcv_retry, removed}
use improot.Ipc.Waiting.{
  Returned, returned_0, returned_1, pr_ppoll, Turn, by_wait_reason, by_chain_state, after_handler,
  syscall_common, waiting_turn,
}
use improot.Ipc.Waiting.Callback.{
  Event, syscall_enter_start, syscall_exit_start, retried, resume, resumed_with, enter_start,
  resume_if, exit_waiting, exit_start, callback,
}
use improot.Ipc.Waiting.Phases.{outside, inside}
use improot.Ipc.Waiting.Resume.{Good}
use improot.Ipc.Waiting.Run.{Reachable, started, by_event, by_wake, Reachable-Good}
use improot.Ipc.Waiting.Handlers.{msgrcv-Respects}

abbrev memory : Memory Text
memory = record {
  read_long = λ m a. reply 3;
  read_bytes = λ m a n. reply (take n (codes "hello"));
  write_long = λ m a x. (success, m);
  write_bytes = λ m a t. (success, t);
  write_stats = λ m a s. (success, m);
}

abbrev chain : Config → Returned × Config
chain config = (returned_0, config)

abbrev idle : Config
idle = record {
  pid = 8;
  ipc_namespace = 1;
  wait_reason = wr_not_waiting;
  wait_state = wstate_not_waiting;
  chain_state = cstate_not_chained;
  status_after_wait = reply 0;
  waiting_object_index = 0;
  msgrcv_msgp = 0;
  msgrcv_msgsz = 0;
  msgrcv_msgtyp = 0;
  msgrcv_msgflg = 0;
  semop_sops = [];
  sigstop_ignored = false;
}

abbrev one_queue : Queues
one_queue = created 5 0 ∷ []

abbrev arrived : Item
arrived = record { mtype = 3; mtext = codes "ok"; mtext_length = 2 }

abbrev after_send : Queues
after_send =
    let object = created 5 0 in
    record object { content = record new_queue { items = arrived ∷ [] } } ∷ []

abbrev receives : Event Text
receives = syscall_enter_start false 0 (some (msgrcv memory [] 100 idle 1 64 16 3 0 one_queue))

abbrev waiting : Config
waiting = record idle {
  wait_reason = wr_wait_queue_recv;
  wait_state = wstate_entered_ppoll;
  msgrcv_msgp = 64;
  msgrcv_msgsz = 16;
  msgrcv_msgtyp = 3;
}

abbrev entered : Turn Text
entered = record {
  returned = returned_1;
  sysnum = pr_ppoll 0;
  restarted = false;
  result = none;
  config = waiting;
  memory = [];
  queues = one_queue;
}

waits : callback memory 100 chain receives idle [] one_queue ≡ some entered
unfolding callback enter_start syscall_common after_handler by_chain_state by_wait_reason
    waiting_turn msgrcv receive_from put_back lookup_object check_object do_msgrcv bad_request
    receive_found find_item find_match
waits = refl

abbrev woken : Config
woken = record waiting {
  wait_reason = wr_not_waiting;
  wait_state = wstate_signaled_ppoll;
  chain_state = cstate_msgrcv_retry;
  status_after_wait = fails eagain;
  sigstop_ignored = true;
}

-- The result and the memory that the tracee goes on with.
abbrev seen : Option (Turn Text) → Option (Reply ℕ) × Text
seen none = (none, [])
seen (some turn) = (turn.result, turn.memory)

gets :
    seen (callback memory 100 chain (syscall_exit_start false) woken [] after_send)
    ≡ (some (reply 2), codes "ok")
unfolding callback exit_start exit_waiting resume_if resume resumed_with retried msgrcv_retry
    retry_at settled put_back do_msgrcv bad_request receive_found find_item find_match msg_match
    deliver_data write_text wrote after_delivery
gets = refl

-- A queue that is removed between the wake and the retry makes the assertion of the retry fail.
fails_when_removed :
    callback memory 100 chain (syscall_exit_start false) woken [] (removed (created 5 0) ∷ [])
    ≡ none
unfolding callback exit_start exit_waiting resume_if resume resumed_with retried msgrcv_retry
    retry_at
fails_when_removed = refl

reached : Reachable memory 100 chain inside woken
unfolding wake_tracee
reached =
    by_wake
      (by_event (started idle refl (refl, refl)) receives [] one_queue
        (
          λ e. cc e,
          msgrcv-Respects memory [] 100 idle 1 64 16 3 0 one_queue refl refl,
          λ e again. cc e,
        )
        entered waits)
      (λ e. cc e) (fails eagain) cstate_msgrcv_retry [] (inr refl)

Reachable-Good_example :
    Good outside (callback memory 100 chain (syscall_exit_start false) woken [] after_send)
Reachable-Good_example =
    Reachable-Good memory 100 chain inside woken reached (syscall_exit_start false) [] after_send
      (λ e again. refl)
