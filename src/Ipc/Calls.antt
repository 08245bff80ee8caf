-- ===== src/Ipc/Calls.antt =====
-- src/extension/sysvipc/sysvipc_msg.c: the system calls on a queue that is looked up.
use improot.Base.{
  ℕ, ◌+◌, ◌%◌, ◌^◌, Bool, true, false, ◌||◌, Option, none, some, List, [], ◌∷◌, ◌==◌, if◌then◌else◌,
  get_elem?, set_elem,
}
use improot.Path.{einval, eagain, eidrm, eintr, Status, success, failure}
use improot.Ipc.{
  Reply, reply, fails, Object, Lookup, no_object, object_at, lookup_object, Config, WaitReason,
  wr_not_waiting, cstate_not_chained, wake_tracee,
}
use improot.Ipc.Messages.{Queue, Queues, Memory, with_content, waits_on}
use improot.Ipc.Receive.{Received, do_msgrcv}

-- The same over the queues of the name-space.
pub record Taken (M : Type 0) : Type 0 where
  pub status : Reply ℕ
  pub memory : M
  pub config : Config
  pub queues : Queues

unfoldable pub put_back : {M : Type 0} → Queues → ℕ → Object Queue → Received M → Taken M
put_back queues i object r = record {
  status = r.status;
  memory = r.memory;
  config = r.config;
  queues = set_elem queues i (with_content object r.queue);
}

abbrev pub with_request : ℕ → ℕ → ℕ → ℕ → Config → Config
with_request msgp msgsz msgtyp msgflg config = record config {
  msgrcv_msgp = msgp;
  msgrcv_msgsz = msgsz;
  msgrcv_msgtyp = msgtyp % 2 ^ 32;
  msgrcv_msgflg = msgflg % 2 ^ 32;
}

unfoldable pub receive_from :
    {M : Type 0} → Memory M → M → ℕ → Config → ℕ → ℕ → ℕ → ℕ → Queues → Lookup Queue → Taken M
receive_from memory m now config msgp msgsz msgtyp msgflg queues no_object = record {
  status = fails einval;
  memory = m;
  config = config;
  queues = queues;
}
receive_from memory m now config msgp msgsz msgtyp msgflg queues (object_at i object) =
    put_back queues i object
      (do_msgrcv memory m now (with_request msgp msgsz msgtyp msgflg config) i object.content)

-- `sysvipc_msgrcv`
unfoldable pub msgrcv :
    {M : Type 0} → Memory M → M → ℕ → Config → ℕ → ℕ → ℕ → ℕ → ℕ → Queues → Taken M
unfolding receive_from put_back
msgrcv memory m now config id msgp msgsz msgtyp msgflg queues =
    receive_from memory m now config msgp msgsz msgtyp msgflg queues (lookup_object id queues)

-- The end of `sysvipc_msgrcv_retry`: a new wait becomes an interruption.
unfoldable pub settled : {M : Type 0} → WaitReason → Taken M → Taken M
settled wr_not_waiting r =
    let config = r.config in
    record r { config = record config { chain_state = cstate_not_chained } }
settled wait_reason r =
    let config = r.config in
    record r {
      status = fails eintr;
      config = record config { wait_reason = wr_not_waiting; chain_state = cstate_not_chained };
    }

abbrev pub is_again : Reply ℕ → Bool
is_again (fails eagain) = true
is_again _ = false

-- The slot that is waited for, if it is one of the name-space's, and in use; both are asserted, and
-- `none` is an assertion that fails.
unfoldable pub retry_at :
    {M : Type 0} → Memory M → M → ℕ → Config → ℕ → Queues → Option (Object Queue) → Option (Taken M)
unfolding settled
retry_at memory m now config i queues none = none
retry_at memory m now config i queues (some object) =
    let r = put_back queues i object (do_msgrcv memory m now config i object.content) in
    let config' = r.config in if object.valid then some (settled config'.wait_reason r) else none

-- `sysvipc_msgrcv_retry`, on a chain that is to retry.
unfoldable pub msgrcv_retry : {M : Type 0} → Memory M → M → ℕ → Config → Queues → Option (Taken M)
unfolding retry_at put_back
msgrcv_retry memory m now config queues =
    let i = config.waiting_object_index in
    if is_again config.status_after_wait
    then retry_at memory m now config i queues (get_elem? queues i)
    else some (record {
      status = config.status_after_wait;
      memory = m;
      config = record config { chain_state = cstate_not_chained };
      queues = queues;
    })

-- The receivers that a removal wakes.
unfoldable pub wake_removed : ℕ → ℕ → List Config → List Config
wake_removed namespace index [] = []
wake_removed namespace index (config ∷ configs) =
    let rest = wake_removed namespace index configs in
    if waits_on namespace index config
    then wake_tracee config (fails eidrm) ∷ rest
    else config ∷ rest

abbrev pub removed : Object Queue → Object Queue
removed object =
    let queue = object.content in
    record object {
      valid = false;
      generation = (object.generation + 1) % 2 ^ 16;
      content = record queue { items = [] };
    }

pub record Controlled (M : Type 0) : Type 0 where
  pub status : Reply ℕ
  pub memory : M
  pub configs : List Config
  pub queues : Queues

abbrev pub written : Status → Reply ℕ
written success = reply 0
written (failure e) = fails e

unfoldable pub control_at :
    {M : Type 0}
    → Memory M
    → M
    → Config
    → List Config
    → ℕ
    → ℕ
    → Queues
    → Lookup Queue
    → Controlled M
unfolding wake_removed
control_at memory m config configs cmd buf queues no_object = record {
  status = fails einval;
  memory = m;
  configs = configs;
  queues = queues;
}
control_at memory m config configs cmd buf queues (object_at i object) =
    if (cmd == 0) || (cmd == 256)
    then record {
      status = reply 0;
      memory = m;
      configs = wake_removed config.ipc_namespace i configs;
      queues = set_elem queues i (removed object);
    }
    else if (cmd == 2) || (cmd == 258)
    then (let queue = object.content in
        let (status, m') = memory.write_stats m buf queue.stats in
        record { status = written status; memory = m'; configs = configs; queues = queues })
    else record { status = fails einval; memory = m; configs = configs; queues = queues }

-- `sysvipc_msgctl`; `cmd` is the register cut to an `int`.
unfoldable pub msgctl :
    {M : Type 0} → Memory M → M → Config → List Config → ℕ → ℕ → ℕ → Queues → Controlled M
unfolding control_at
msgctl memory m config configs id cmd buf queues =
    control_at memory m config configs (cmd % 2 ^ 32) buf queues (lookup_object id queues)
