-- ===== src/Ipc/Counts.antt =====
-- The statistics of a queue count its messages.
use improot.Base.{
  ℕ, zero, suc, ◌+◌, ◌%◌, ◌^◌, ◌≤◌, ◌≡◌, ap, refl, inl, inr, Option, none, some, List, [], ◌∷◌,
  ◌++◌, ◌==◌, arith, length, length-append, get_elem?, All, All-append, All-get_elem?, Bool-cases,
}
use improot.Ipc.{Reply, reply, fails, has_flag, ipc_nowait, Config}
use improot.Ipc.Messages.{max_msg_size, Item, Queue, Memory, item_matches, enqueue}
use improot.Ipc.Receive.{
  find_match, find_index, remove_at, wants_copy, find_item, bad_request, deliver_data, received_by,
  dequeue, after_delivery, receive_found, do_msgrcv,
}

-- The bytes of the messages.
abbrev pub total : List Item → ℕ
total [] = 0
total (item ∷ items) = item.mtext_length + total items

abbrev pub IsShort : Item → Type 0
IsShort item = item.mtext_length ≤ max_msg_size

-- The two sums of the statistics, which wrap, and the bound on a message.
pub record IsCounted (queue : Queue) : Type 0 where
  pub number : let stats = queue.stats in stats.msg_qnum ≡ length queue.items % 2 ^ 64
  pub bytes : let stats = queue.stats in stats.msg_cbytes ≡ total queue.items % 2 ^ 64
  pub short : All IsShort queue.items

total-snoc :
    (items : List Item) (item : Item) → total (items ++ item ∷ []) ≡ total items + item.mtext_length
total-snoc [] item = omega arith
total-snoc (x ∷ items) item = omega (arith, total-snoc items item)

pub enqueue-IsCounted :
    (pid now : ℕ) (item : Item) (queue : Queue)
    → IsShort item
    → IsCounted queue
    → IsCounted (enqueue pid now item queue)
unfolding enqueue
enqueue-IsCounted pid now item queue short h = record {
  number = omega (arith, h.number, length-append queue.items (item ∷ []));
  bytes = omega (arith, h.bytes, total-snoc queue.items item);
  short = All-append IsShort queue.items (item ∷ []) h.short (short, tt);
}

-- An item that a search from `i` has found stands at its position.
abbrev StandsAt : List Item → ℕ → ℕ → Item → Type 0
StandsAt items i j item = (k : ℕ) × (j ≡ i + k) × (get_elem? items k ≡ some item)

further :
    (x : Item) (items : List Item) (i j : ℕ) (item : Item)
    → StandsAt items (suc i) j item
    → StandsAt (x ∷ items) i j item
further x items i j item (k, e, at) = (suc k, omega (arith, e), at)

here :
    (x : Item) (items : List Item) (i j : ℕ) (item : Item)
    → ◌≡◌ {A = Option (ℕ × Item)} (some (i, x)) (some (j, item))
    → StandsAt (x ∷ items) i j item
here x items i j item e =
    let position : i ≡ j = cc e in
    let same : x ≡ item = cc e in (0, omega (arith, position), ap some same)

find_match-at :
    (config : Config) (items : List Item) (i j : ℕ) (item : Item)
    → find_match config items i ≡ some (j, item)
    → StandsAt items i j item
unfolding find_match
find_match-at config [] i j item e = cc
find_match-at config (x ∷ items) i j item e = elim (Bool-cases (item_matches config x)) [
  | inl hit ↦ here x items i j item (rw (hit, find_match) at e)
  | inr miss ↦
      further x items i j item
        (find_match-at config items (suc i) j item (rw (miss, find_match) at e))
]

find_index-at :
    (index : ℕ) (items : List Item) (i j : ℕ) (item : Item)
    → find_index index items i ≡ some (j, item)
    → StandsAt items i j item
unfolding find_index
find_index-at index [] i j item e = cc
find_index-at index (x ∷ items) i j item e = elim (Bool-cases (i == index)) [
  | inl hit ↦ here x items i j item (rw (hit, find_index) at e)
  | inr miss ↦
      further x items i j item
        (find_index-at index items (suc i) j item (rw (miss, find_index) at e))
]

found_at :
    (items : List Item) (j : ℕ) (item : Item)
    → StandsAt items 0 j item
    → get_elem? items j ≡ some item
found_at items j item (k, e, at) = let same : j ≡ k = omega (arith, e) in rw same at

find_item-at :
    (config : Config) (items : List Item) (j : ℕ) (item : Item)
    → find_item config items ≡ some (j, item)
    → get_elem? items j ≡ some item
unfolding find_item
find_item-at config items j item e = elim (Bool-cases (wants_copy config)) [
  | inl copy ↦
      found_at items j item
        (find_index-at config.msgrcv_msgtyp items 0 j item (rw (copy, find_item) at e))
  | inr moves ↦
      found_at items j item (find_match-at config items 0 j item (rw (moves, find_item) at e))
]

remove_at-total :
    (items : List Item) (i : ℕ) {item : Item}
    → get_elem? items i ≡ some item
    → (total (remove_at i items) + item.mtext_length ≡ total items)
      × (suc (length (remove_at i items)) ≡ length items)
unfolding remove_at
remove_at-total [] i e = cc
remove_at-total (x ∷ items) zero {item} e =
    let same : x ≡ item = cc e in (omega (arith, ap (λ y. y.mtext_length) same), refl)
remove_at-total (x ∷ items) (suc i) e =
    let (a, b) = remove_at-total items i e in (omega (arith, a), omega (arith, b))

All-remove_at : (items : List Item) (i : ℕ) → All IsShort items → All IsShort (remove_at i items)
unfolding remove_at
All-remove_at [] i h = tt
All-remove_at (x ∷ items) zero h = h.1
All-remove_at (x ∷ items) (suc i) h = (h.0, All-remove_at items i h.1)

dequeue-IsCounted :
    (i : ℕ) (item : Item) (queue : Queue)
    → get_elem? queue.items i ≡ some item
    → IsCounted queue
    → IsCounted (dequeue i item queue)
unfolding dequeue
dequeue-IsCounted i item queue at h =
    let (sum, count) = remove_at-total queue.items i at in
    let short : IsShort item = All-get_elem? IsShort queue.items i h.short at in
    record {
      number = omega (arith, h.number, count);
      bytes = omega (arith, h.bytes, sum, short);
      short = All-remove_at queue.items i h.short;
    }

received_by-IsCounted :
    (pid now : ℕ) (queue : Queue) → IsCounted queue → IsCounted (received_by pid now queue)
received_by-IsCounted pid now queue h = record {
  number = h.number;
  bytes = h.bytes;
  short = h.short;
}

module _ {M : Type 0} (memory : Memory M) where
  after_delivery-IsCounted :
      (now : ℕ) (config : Config) (queue : Queue) (i : ℕ) (item : Item) (d : Reply ℕ × M)
      → get_elem? queue.items i ≡ some item
      → IsCounted queue
      → (let r = after_delivery now config queue i item d in IsCounted r.queue)
  unfolding after_delivery
  after_delivery-IsCounted now config queue i item (fails e, m) at h = h
  after_delivery-IsCounted now config queue i item (reply n, m) at h =
      elim (Bool-cases (wants_copy config)) [
        | inl copy ↦ rw copy (received_by-IsCounted config.pid now queue h)
        | inr moves ↦ rw moves (
            dequeue-IsCounted i item (received_by config.pid now queue) at
              (received_by-IsCounted config.pid now queue h))
      ]

  receive_found-IsCounted :
      (m : M) (now : ℕ) (config : Config) (index : ℕ) (queue : Queue) (o : Option (ℕ × Item))
      → find_item config queue.items ≡ o
      → IsCounted queue
      → (let r = receive_found memory m now config index queue o in IsCounted r.queue)
  unfolding receive_found
  receive_found-IsCounted m now config index queue none e h =
      elim (Bool-cases (has_flag config.msgrcv_msgflg ipc_nowait)) [
        | inl nowait ↦ rw nowait h
        | inr waits ↦ rw waits h
      ]
  receive_found-IsCounted m now config index queue (some (i, item)) e h =
      after_delivery-IsCounted now config queue i item (deliver_data memory m config item)
        (find_item-at config queue.items i item e) h

  pub do_msgrcv-IsCounted :
      (m : M) (now : ℕ) (config : Config) (index : ℕ) (queue : Queue)
      → IsCounted queue
      → (let r = do_msgrcv memory m now config index queue in IsCounted r.queue)
  unfolding do_msgrcv
  do_msgrcv-IsCounted m now config index queue h = elim (Bool-cases (bad_request config)) [
    | inl bad ↦ rw bad h
    | inr good ↦
        rw good
          (receive_found-IsCounted m now config index queue (find_item config queue.items) refl h)
  ]
