-- ===== src/Ipc/Reach.antt =====
-- The message queues over sequences of system calls.
use mathlib.Core.Path.{subst}
use improot.Base.{
  ℕ, ◌+◌, ◌%◌, ◌^◌, ◌≤◌, ◌≡◌, refl, inl, inr, Bool, true, false, ◌||◌, Option, none, some, List, [],
  ltb, leb, ◌==◌, arith, get_elem?, All, All-set_elem, All-get_elem?, Bool-cases, if◌then◌else◌,
  Text,
}
use improot.Path.{einval}
use improot.Ipc.{
  WaitReason, wr_not_waiting, wr_wait_queue_recv, wr_wait_semop, wr_wait_shmat_helper_busy, Reply,
  reply, fails, Object, Lookup, no_object, object_at, lookup_object, Config,
}
use improot.Ipc.Messages.{
  max_msg_size, Item, Queue, Queues, Memory, msgget, read_message, Sent, send_item, send_to, msgsnd,
}
use improot.Ipc.Receive.{do_msgrcv}
use improot.Ipc.Calls.{
  Taken, put_back, with_request, receive_from, msgrcv, settled, is_again, retry_at, msgrcv_retry,
  removed, Controlled, control_at, msgctl,
}
use improot.Ipc.Counts.{IsCounted, IsShort, enqueue-IsCounted, do_msgrcv-IsCounted}
use improot.Ipc.Good.{lookup_object-found, IsGood, msgget-IsGood}

abbrev Brings : Reply Item → Type 0
Brings (reply item) = IsShort item
Brings (fails e) = Unit

if-Brings : (b : Bool) (x y : Reply Item) → Brings x → Brings y → Brings (if b then x else y)
if-Brings true x y hx hy = hx
if-Brings false x y hx hy = hy

abbrev pub sent_queues : Sent → Queues
sent_queues s = s.queues

abbrev pub taken_queues : {M : Type 0} → Taken M → Queues
taken_queues t = t.queues

abbrev pub controlled_queues : {M : Type 0} → Controlled M → Queues
controlled_queues c = c.queues

module _ {M : Type 0} (memory : Memory M) where
  read_message-Brings :
      (m : M) (msgp msgsz : ℕ) → msgsz ≤ max_msg_size → Brings (read_message memory m msgp msgsz)
  unfolding read_message
  read_message-Brings m msgp msgsz h = longs (memory.read_long m msgp)
    where
      texts :
          (mtype : ℕ) (o : Reply Text)
          → Brings (elim o [
            | fails e ↦ fails e
            | reply mtext ↦ reply (record { mtype = mtype; mtext = mtext; mtext_length = msgsz })
          ])
      texts mtype (fails e) = tt
      texts mtype (reply mtext) = h

      longs :
          (o : Reply ℕ)
          → Brings (elim o [
            | fails e ↦ fails e
            | reply mtype ↦
                if (mtype == 0) || leb (2 ^ 63) mtype
                then fails einval
                else (elim (memory.read_bytes m ((msgp + 8) % 2 ^ 64) msgsz) [
                  | fails e ↦ fails e
                  | reply mtext ↦
                      reply (record { mtype = mtype; mtext = mtext; mtext_length = msgsz })
                ])
          ])
      longs (fails e) = tt
      longs (reply mtype) =
          if-Brings ((mtype == 0) || leb (2 ^ 63) mtype) (fails einval) _ tt (texts mtype _)

  send_item-IsGood :
      (now : ℕ) (queues : Queues) (i : ℕ) (object : Object Queue) (config : Config)
      (configs : List Config) (r : Reply Item)
      → All IsGood queues
      → IsCounted object.content
      → Brings r
      → (let s = send_item now queues i object config configs r in All IsGood s.queues)
  unfolding send_item
  send_item-IsGood now queues i object config configs (fails e) h counted b = h
  send_item-IsGood now queues i object config configs (reply item) h counted b =
      All-set_elem IsGood queues i _ h
        (λ valid. enqueue-IsCounted config.pid now item object.content b counted)

  found-IsCounted :
      (id : ℕ) (queues : Queues) {i : ℕ} {object : Object Queue}
      → All IsGood queues
      → lookup_object id queues ≡ object_at i object
      → IsCounted object.content
  found-IsCounted id queues {i} h e =
      let (at, valid) = lookup_object-found id queues e in All-get_elem? IsGood queues i h at valid

  send_to-IsGood :
      (m : M) (now : ℕ) (config : Config) (configs : List Config) (id msgp msgsz : ℕ)
      (queues : Queues) (o : Lookup Queue)
      → All IsGood queues
      → lookup_object id queues ≡ o
      → (let s = send_to memory m now config configs msgp msgsz queues o in All IsGood s.queues)
  unfolding send_to
  send_to-IsGood m now config configs id msgp msgsz queues no_object h e = h
  send_to-IsGood m now config configs id msgp msgsz queues (object_at i object) h e =
      elim (Bool-cases (ltb max_msg_size msgsz)) [
        | inl large ↦ rw large h
        | inr small ↦ rw small (
            send_item-IsGood now queues i object config configs (read_message memory m msgp msgsz) h
              (found-IsCounted id queues h e) (read_message-Brings m msgp msgsz (ground arith)))
      ]

  msgsnd-IsGood :
      (m : M) (now : ℕ) (config : Config) (configs : List Config) (id msgp msgsz : ℕ)
      (queues : Queues)
      → All IsGood queues
      → (let s = msgsnd memory m now config configs id msgp msgsz queues in All IsGood s.queues)
  unfolding msgsnd
  msgsnd-IsGood m now config configs id msgp msgsz queues h =
      send_to-IsGood m now config configs id msgp msgsz queues (lookup_object id queues) h refl

  put_back-IsGood :
      (m : M) (now : ℕ) (config : Config) (queues : Queues) (i : ℕ) (object : Object Queue)
      → All IsGood queues
      → (object.valid ≡ true → IsCounted object.content)
      → (let t = put_back queues i object (do_msgrcv memory m now config i object.content) in
          All IsGood t.queues)
  unfolding put_back
  put_back-IsGood m now config queues i object h counted =
      All-set_elem IsGood queues i _ h
        (λ valid. do_msgrcv-IsCounted memory m now config i object.content (counted valid))

  receive_from-IsGood :
      (m : M) (now : ℕ) (config : Config) (id msgp msgsz msgtyp msgflg : ℕ) (queues : Queues)
      (o : Lookup Queue)
      → All IsGood queues
      → lookup_object id queues ≡ o
      → (let t = receive_from memory m now config msgp msgsz msgtyp msgflg queues o in
          All IsGood t.queues)
  unfolding receive_from
  receive_from-IsGood m now config id msgp msgsz msgtyp msgflg queues no_object h e = h
  receive_from-IsGood m now config id msgp msgsz msgtyp msgflg queues (object_at i object) h e =
      put_back-IsGood m now (with_request msgp msgsz msgtyp msgflg config) queues i object h
        (λ valid. found-IsCounted id queues h e)

  settled-queues : (r : WaitReason) (t : Taken M) → (let s = settled r t in s.queues ≡ t.queues)
  unfolding settled
  settled-queues wr_not_waiting t = refl
  settled-queues wr_wait_queue_recv t = refl
  settled-queues wr_wait_semop t = refl
  settled-queues wr_wait_shmat_helper_busy t = refl

  abbrev RetriesGood : Option (Taken M) → Type 0
  RetriesGood none = Unit
  RetriesGood (some t) = All IsGood t.queues

  if-RetriesGood :
      (b : Bool) (t : Taken M) → All IsGood t.queues → RetriesGood (if b then some t else none)
  if-RetriesGood true t h = h
  if-RetriesGood false t h = tt

  retry_at-IsGood :
      (m : M) (now : ℕ) (config : Config) (i : ℕ) (queues : Queues) (o : Option (Object Queue))
      → All IsGood queues
      → get_elem? queues i ≡ o
      → RetriesGood (retry_at memory m now config i queues o)
  unfolding retry_at
  retry_at-IsGood m now config i queues none h e = tt
  retry_at-IsGood m now config i queues (some object) h e = if-RetriesGood object.valid _ (
      rw (settled-queues _ _)
        (put_back-IsGood m now config queues i object h (All-get_elem? IsGood queues i h e)))

  msgrcv_retry-IsGood :
      (m : M) (now : ℕ) (config : Config) (queues : Queues)
      → All IsGood queues
      → RetriesGood (msgrcv_retry memory m now config queues)
  unfolding msgrcv_retry
  msgrcv_retry-IsGood m now config queues h =
      elim (Bool-cases (is_again config.status_after_wait)) [
        | inl again ↦ rw again (
            retry_at-IsGood m now config config.waiting_object_index queues
              (get_elem? queues config.waiting_object_index) h refl)
        | inr done ↦ rw done h
      ]

  control_at-IsGood :
      (m : M) (config : Config) (configs : List Config) (cmd buf : ℕ) (queues : Queues)
      (o : Lookup Queue)
      → All IsGood queues
      → (let c = control_at memory m config configs cmd buf queues o in All IsGood c.queues)
  unfolding control_at
  control_at-IsGood m config configs cmd buf queues no_object h = h
  control_at-IsGood m config configs cmd buf queues (object_at i object) h =
      elim (Bool-cases ((cmd == 0) || (cmd == 256))) [
        | inl removes ↦ rw removes (All-set_elem IsGood queues i (removed object) h (λ valid. cc))
        | inr keeps ↦ rw keeps (elim (Bool-cases ((cmd == 2) || (cmd == 258))) [
          | inl reads ↦ rw reads h
          | inr bad ↦ rw bad h
        ])
      ]

  -- The queues that sequences of system calls lead to, whatever the arguments, the tracees and
  -- their memories.
  pub data Reachable : Queues → Type 0 where
    initially : Reachable []
    by_msgget :
        {queues : Queues}
        → Reachable queues
        → (id msgflg : ℕ) → Reachable (msgget id msgflg queues).1
    by_msgsnd :
        {queues : Queues}
        → Reachable queues
        → (m : M) (now : ℕ) (config : Config) (configs : List Config) (id msgp msgsz : ℕ)
        → Reachable (sent_queues (msgsnd memory m now config configs id msgp msgsz queues))
    by_msgrcv :
        {queues : Queues}
        → Reachable queues
        → (m : M) (now : ℕ) (config : Config) (id msgp msgsz msgtyp msgflg : ℕ)
        → Reachable (taken_queues (msgrcv memory m now config id msgp msgsz msgtyp msgflg queues))
    by_msgrcv_retry :
        {queues : Queues}
        → Reachable queues
        → (m : M) (now : ℕ) (config : Config) (t : Taken M)
        → msgrcv_retry memory m now config queues ≡ some t
        → Reachable (taken_queues t)
    by_msgctl :
        {queues : Queues}
        → Reachable queues
        → (m : M) (config : Config) (configs : List Config) (id cmd buf : ℕ)
        → Reachable (controlled_queues (msgctl memory m config configs id cmd buf queues))

  -- After any sequence of msgget, msgsnd, msgrcv, its retries and msgctl, the statistics of every
  -- queue in use are right: msg_qnum is the number of its messages and msg_cbytes the sum of their
  -- lengths, modulo 2^64, and no message is longer than 0xFFFF bytes.
  pub Reachable-IsGood : (queues : Queues) → Reachable queues → All IsGood queues
  unfolding msgrcv msgctl
  Reachable-IsGood _ initially = tt
  Reachable-IsGood _ (by_msgget {queues} r id msgflg) =
      msgget-IsGood id msgflg queues (Reachable-IsGood queues r)
  Reachable-IsGood _ (by_msgsnd {queues} r m now config configs id msgp msgsz) =
      msgsnd-IsGood m now config configs id msgp msgsz queues (Reachable-IsGood queues r)
  Reachable-IsGood _ (by_msgrcv {queues} r m now config id msgp msgsz msgtyp msgflg) =
      receive_from-IsGood m now config id msgp msgsz msgtyp msgflg queues (lookup_object id queues)
        (Reachable-IsGood queues r) refl
  Reachable-IsGood _ (by_msgrcv_retry {queues} r m now config t e) =
      subst RetriesGood e (msgrcv_retry-IsGood m now config queues (Reachable-IsGood queues r))
  Reachable-IsGood _ (by_msgctl {queues} r m config configs id cmd buf) =
      control_at-IsGood m config configs (cmd % 2 ^ 32) buf queues (lookup_object id queues)
        (Reachable-IsGood queues r)
