-- ===== src/Ipc/Good.antt =====
-- Objects that are looked up, and the creation of a message queue.
use improot.Base.{
  ℕ, ◌%◌, ◌^◌, ◌≡◌, ap, inl, inr, true, not, ◌&&◌, ◌||◌, Option, none, some, List, [], ◌∷◌, ltb,
  ◌==◌, arith, length, get_elem?, All, All-append, All-set_elem, Bool-cases,
}
use improot.Ipc.{
  has_flag, ipc_creat, ipc_excl, Object, object_at, lookup_object, check_object, Slot, present,
  absent, find_slot, sign_extended,
}
use improot.Ipc.Messages.{Queue, Queues, created, create_queue, get_queue, msgget, generation_at}
use improot.Ipc.Counts.{IsCounted}

-- A queue that is in use is counted.
abbrev pub IsGood : Object Queue → Type 0
IsGood object = object.valid ≡ true → IsCounted object.content

module _ {A : Type 0} where
  check_object-valid :
      (generation index : ℕ) (o : Option (Object A)) {i : ℕ} {object : Object A}
      → check_object generation index o ≡ object_at i object
      → (index ≡ i) × (o ≡ some object) × (object.valid ≡ true)
  unfolding check_object
  check_object-valid generation index none e = cc
  check_object-valid generation index (some x) {i} {object} e =
      elim (Bool-cases (not x.valid || not (sign_extended x.generation == generation))) [
        | inl bad ↦ cc (rw (bad, check_object) at e)
        | inr good ↦
            let same : object_at index x ≡ object_at i object = rw (good, check_object) at e in
            let it : x ≡ object = cc same in
            (cc same, ap some it, ground (arith, ap (λ y. y.valid) it))
      ]

  -- What a look-up finds is an object in use, at its index.
  pub lookup_object-found :
      (id : ℕ) (objects : List (Object A)) {i : ℕ} {object : Object A}
      → lookup_object id objects ≡ object_at i object
      → (get_elem? objects i ≡ some object) × (object.valid ≡ true)
  unfolding lookup_object
  lookup_object-found id objects {i} {object} e =
      elim (Bool-cases ((id % 2 ^ 12 == 0) || ltb (length objects) (id % 2 ^ 12))) [
        | inl out ↦ cc (rw (out, lookup_object) at e)
        | inr inside ↦
            let (index, at, valid) = check_object-valid _ _ _ (rw (inside, lookup_object) at e) in
            (rw index at at, valid)
      ]

created-IsGood : (id generation : ℕ) → IsGood (created id generation)
created-IsGood id generation valid = record {
  number = omega arith;
  bytes = omega arith;
  short = tt;
}

pub msgget-IsGood :
    (id msgflg : ℕ) (queues : Queues) → All IsGood queues → All IsGood (msgget id msgflg queues).1
unfolding msgget get_queue create_queue
msgget-IsGood id msgflg queues h = slot (find_slot id queues 0 none)
  where
    made : (unused : Option ℕ) → All IsGood (create_queue id queues unused).1
    made none = All-append IsGood queues (created id 0 ∷ []) h (created-IsGood id 0, tt)
    made (some i) =
        All-set_elem IsGood queues i (created id (generation_at queues i)) h
          (created-IsGood id (generation_at queues i))

    slot : (s : Slot Queue) → All IsGood (get_queue id msgflg queues s).1
    slot (absent unused) = elim (Bool-cases (has_flag msgflg ipc_creat)) [
      | inl creates ↦ rw creates (made unused)
      | inr looks ↦ rw looks h
    ]
    slot (present i object) =
        elim (Bool-cases (has_flag msgflg ipc_creat && has_flag msgflg ipc_excl)) [
          | inl excludes ↦ rw excludes h
          | inr shares ↦ rw shares h
        ]
