-- ===== src/Ipc/Messages.antt =====
-- src/extension/sysvipc/sysvipc_msg.c: the message queues.
use improot.Base.{
  ℕ, ◌+◌, ◌-◌, ◌%◌, ◌^◌, Bool, true, not, ◌&&◌, ◌||◌, Option, none, some, List, [], ◌∷◌, ◌++◌, ltb,
  leb, ◌==◌, if◌then◌else◌, length, get_elem?, set_elem, Text,
}
use improot.Path.{enoent, einval, eexist, eagain, Status}
use improot.Ipc.{
  Reply, reply, fails, has_flag, ipc_creat, ipc_excl, Object, object_id, Lookup, no_object,
  object_at, lookup_object, Slot, present, absent, find_slot, Config, cstate_msgrcv_retry,
  wake_tracee, waits_for_queue,
}

-- The flags of <sys/msg.h>.
abbrev pub msg_noerror : ℕ
msg_noerror = 4096

abbrev pub msg_except : ℕ
msg_except = 8192

abbrev pub msg_copy : ℕ
msg_copy = 16384

abbrev pub max_msg_size : ℕ
max_msg_size = 65535

-- `SysVIpcMsgQueueItem`
pub record Item : Type 0 where
  pub mtype : ℕ
  pub mtext : Text
  pub mtext_length : ℕ

-- The fields of `msqid_ds` that the code writes.
pub record Stats : Type 0 where
  pub msg_qnum : ℕ
  pub msg_cbytes : ℕ
  pub msg_qbytes : ℕ
  pub msg_lspid : ℕ
  pub msg_lrpid : ℕ
  pub msg_stime : ℕ
  pub msg_rtime : ℕ

-- What is `SysVIpcMsgQueue`'s own.
pub record Queue : Type 0 where
  pub items : List Item
  pub stats : Stats

abbrev pub Queues : Type 0
Queues = List (Object Queue)

-- The memory of a tracee: `read_data` and `write_data` (src/tracee/mem.c) of a `long`, of bytes,
-- and of the statistics.
pub record Memory (M : Type 0) : Type 0 where
  pub read_long : M → ℕ → Reply ℕ
  pub read_bytes : M → ℕ → ℕ → Reply Text
  pub write_long : M → ℕ → ℕ → Status × M
  pub write_bytes : M → ℕ → Text → Status × M
  pub write_stats : M → ℕ → Stats → Status × M

abbrev pub new_queue : Queue
new_queue = record {
  items = [];
  stats = record {
    msg_qnum = 0;
    msg_cbytes = 0;
    msg_qbytes = 65536;
    msg_lspid = 0;
    msg_lrpid = 0;
    msg_stime = 0;
    msg_rtime = 0;
  };
}

abbrev pub generation_at : Queues → ℕ → ℕ
generation_at queues i = elim (get_elem? queues i) [ none ↦ 0 | some object ↦ object.generation ]

abbrev pub created : ℕ → ℕ → Object Queue
created id generation = record {
  key = id % 2 ^ 32;
  generation = generation;
  valid = true;
  content = new_queue;
}

unfoldable pub create_queue : ℕ → Queues → Option ℕ → Reply ℕ × Queues
create_queue id queues (some i) = (
  reply (object_id i (generation_at queues i)),
  set_elem queues i (created id (generation_at queues i)),
)
create_queue id queues none = (reply (object_id (length queues) 0), queues ++ created id 0 ∷ [])

unfoldable pub get_queue : ℕ → ℕ → Queues → Slot Queue → Reply ℕ × Queues
unfolding create_queue
get_queue id msgflg queues (absent unused) =
    if not (has_flag msgflg ipc_creat)
    then (fails enoent, queues)
    else create_queue id queues unused
get_queue id msgflg queues (present i object) =
    if has_flag msgflg ipc_creat && has_flag msgflg ipc_excl
    then (fails eexist, queues)
    else (reply (object_id i object.generation), queues)

-- `sysvipc_msgget`
unfoldable pub msgget : ℕ → ℕ → Queues → Reply ℕ × Queues
unfolding get_queue
msgget id msgflg queues = get_queue id msgflg queues (find_slot id queues 0 none)

-- `<=` of two `int`s, and the negation of one.
abbrev pub signed_leb : ℕ → ℕ → Bool
signed_leb a b = leb ((a + 2 ^ 31) % 2 ^ 32) ((b + 2 ^ 31) % 2 ^ 32)

abbrev pub negated : ℕ → ℕ
negated a = (2 ^ 32 - a) % 2 ^ 32

-- `sysvipc_msg_match`
unfoldable pub msg_match : ℕ → ℕ → ℕ → Bool
msg_match sender_type receiver_filter receiver_flag =
    let matched =
      (receiver_filter == 0)
      || ((sender_type == receiver_filter)
          || (leb (2 ^ 31) receiver_filter && signed_leb sender_type (negated receiver_filter))) in
    if has_flag receiver_flag msg_except then not matched else matched

abbrev pub item_matches : Config → Item → Bool
item_matches config item = msg_match (item.mtype % 2 ^ 32) config.msgrcv_msgtyp config.msgrcv_msgflg

-- The receiver that `sysvipc_msgsnd` wakes: the first that waits for such a message.
abbrev pub waits_on : ℕ → ℕ → Config → Bool
waits_on namespace index config =
    (config.ipc_namespace == namespace)
    && (waits_for_queue config.wait_reason && (config.waiting_object_index == index))

unfoldable pub wake_receiver : ℕ → ℕ → Item → List Config → List Config
wake_receiver namespace index item [] = []
wake_receiver namespace index item (config ∷ configs) =
    if waits_on namespace index config && item_matches config item
    then wake_tracee (record config { chain_state = cstate_msgrcv_retry }) (fails eagain) ∷ configs
    else config ∷ wake_receiver namespace index item configs

-- The two sums of the statistics are `unsigned long`.
unfoldable pub enqueue : ℕ → ℕ → Item → Queue → Queue
enqueue pid now item queue =
    let stats = queue.stats in
    record {
      items = queue.items ++ item ∷ [];
      stats = record stats {
        msg_lspid = pid;
        msg_stime = now;
        msg_qnum = (stats.msg_qnum + 1) % 2 ^ 64;
        msg_cbytes = (stats.msg_cbytes + item.mtext_length) % 2 ^ 64;
      };
    }

abbrev pub with_content : Object Queue → Queue → Object Queue
with_content object queue = record object { content = queue }

-- What the tracee's memory holds of the message to send.
unfoldable pub read_message : {M : Type 0} → Memory M → M → ℕ → ℕ → Reply Item
read_message memory m msgp msgsz = elim (memory.read_long m msgp) [
  | fails e ↦ fails e
  | reply mtype ↦
      if (mtype == 0) || leb (2 ^ 63) mtype
      then fails einval
      else (elim (memory.read_bytes m ((msgp + 8) % 2 ^ 64) msgsz) [
        | fails e ↦ fails e
        | reply mtext ↦ reply (record { mtype = mtype; mtext = mtext; mtext_length = msgsz })
      ])
]

pub record Sent : Type 0 where
  pub status : Reply ℕ
  pub queues : Queues
  pub configs : List Config

unfoldable pub send_item : ℕ → Queues → ℕ → Object Queue → Config → List Config → Reply Item → Sent
send_item now queues i object config configs (fails e) = record {
  status = fails e;
  queues = queues;
  configs = configs;
}
send_item now queues i object config configs (reply item) = record {
  status = reply 0;
  queues = set_elem queues i (with_content object (enqueue config.pid now item object.content));
  configs = wake_receiver config.ipc_namespace i item configs;
}

unfoldable pub send_to :
    {M : Type 0} → Memory M → M → ℕ → Config → List Config → ℕ → ℕ → Queues → Lookup Queue → Sent
unfolding send_item read_message
send_to memory m now config configs msgp msgsz queues no_object = record {
  status = fails einval;
  queues = queues;
  configs = configs;
}
send_to memory m now config configs msgp msgsz queues (object_at i object) =
    if ltb max_msg_size msgsz
    then record { status = fails einval; queues = queues; configs = configs }
    else send_item now queues i object config configs (read_message memory m msgp msgsz)

-- `sysvipc_msgsnd`: the tracee `config` sends; `configs` are the tracees of the extension.
unfoldable pub msgsnd :
    {M : Type 0} → Memory M → M → ℕ → Config → List Config → ℕ → ℕ → ℕ → Queues → Sent
unfolding send_to
msgsnd memory m now config configs id msgp msgsz queues =
    send_to memory m now config configs msgp msgsz queues (lookup_object id queues)
