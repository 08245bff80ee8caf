-- ===== src/Ipc/Waiting/Handlers.antt =====
-- sysvipc_msgrcv and sysvipc_semop, of src/extension/sysvipc/, as handlers that the callback calls.
use improot.Base.{ℕ, ◌≡◌, ◌∙◌, refl, inl, inr, List, Bool-cases, ◌==◌, some, ltb}
use improot.Ipc.{
  Reply, reply, fails, Object, Lookup, no_object, object_at, lookup_object, Config, wr_wait_semop,
  wstate_not_waiting, cstate_not_chained, Sembuf,
}
use improot.Ipc.Messages.{Memory, Queues}
use improot.Ipc.Calls.{Taken, with_request, receive_from, put_back, msgrcv}
use improot.Ipc.Semaphores.{
  Values, Semaphores, Check, waits, done, Operated, sem_check, finish, operate, all_below,
  semop_read, semop_at, semop, max_nsops,
}
use improot.Ipc.Waiting.Phases.{Keeps, do_msgrcv-Keeps}
use improot.Ipc.Waiting.Resume.{Respects}

module _ {M : Type 0} where
  -- What sysvipc_semop leaves of the tracee's memory and of the queues: nothing is changed.
  abbrev pub operated : M → Queues → Operated → Taken M
  operated m queues r = record { status = r.status; memory = m; config = r.config; queues = queues }

  receive_from-Keeps :
      (memory : Memory M) (m : M) (now : ℕ) (config : Config) (msgp msgsz msgtyp msgflg : ℕ)
      (queues : Queues) (found : Lookup _)
      → Keeps config (receive_from memory m now config msgp msgsz msgtyp msgflg queues found).config
  unfolding receive_from put_back
  receive_from-Keeps memory m now config msgp msgsz msgtyp msgflg queues no_object = (refl, refl)
  receive_from-Keeps memory m now config msgp msgsz msgtyp msgflg queues (object_at i object) =
      do_msgrcv-Keeps memory now m (with_request msgp msgsz msgtyp msgflg config) i object.content

  -- msgrcv is such a handler.
  pub msgrcv-Respects :
      (memory : Memory M) (m : M) (now : ℕ) (config : Config) (id msgp msgsz msgtyp msgflg : ℕ)
      (queues : Queues)
      → config.wait_state ≡ wstate_not_waiting
      → config.chain_state ≡ cstate_not_chained
      → Respects (some (msgrcv memory m now config id msgp msgsz msgtyp msgflg queues))
  unfolding msgrcv
  msgrcv-Respects memory m now config id msgp msgsz msgtyp msgflg queues free unchained =
      let (state, chain) =
        receive_from-Keeps memory m now config msgp msgsz msgtyp msgflg queues
          (lookup_object id queues) in
      (state ∙ free, inl (chain ∙ unchained))

finish-Keeps : (config : Config) (check : Check) → Keeps config (finish config check).1
unfolding finish
finish-Keeps config waits = (refl, refl)
finish-Keeps config (done status sems) = (refl, refl)

semop_read-Keeps :
    (config : Config) (configs : List Config) (semaphores : Semaphores) (i : ℕ)
    (object : Object Values) (read : Reply (List Sembuf))
    → Keeps config (semop_read config configs semaphores i object read).config
unfolding semop_read operate
semop_read-Keeps config configs semaphores i object (fails e) = (refl, refl)
semop_read-Keeps config configs semaphores i object (reply sops) =
    let values = object.content in
    elim (Bool-cases (all_below values.nsems sops)) [
      | inl below ↦ rw below (
          finish-Keeps
            (record config {
              wait_reason = wr_wait_semop;
              waiting_object_index = i;
              semop_sops = sops;
            })
            (sem_check
              (record config {
                wait_reason = wr_wait_semop;
                waiting_object_index = i;
                semop_sops = sops;
              })
              values.sems))
      | inr over ↦ rw over (refl, refl)
    ]

semop_at-Keeps :
    (config : Config) (configs : List Config) (semaphores : Semaphores) (nsops : ℕ)
    (read : ℕ → Reply (List Sembuf)) (found : Lookup Values)
    → Keeps config (semop_at config configs semaphores nsops read found).config
unfolding semop_at
semop_at-Keeps config configs semaphores nsops read no_object = (refl, refl)
semop_at-Keeps config configs semaphores nsops read (object_at i object) =
    elim (Bool-cases (ltb max_nsops nsops)) [
      | inl many ↦ rw many (refl, refl)
      | inr some_ops ↦ elim (Bool-cases (nsops == 0)) [
        | inl zero_ops ↦ rw some_ops (rw zero_ops (refl, refl))
        | inr enough ↦
            rw some_ops
              (rw enough (semop_read-Keeps config configs semaphores i object (read nsops)))
      ]
    ]

-- semop is such a handler.
pub semop-Respects :
    {M : Type 0} (m : M) (queues : Queues) (config : Config) (configs : List Config) (id nsops : ℕ)
    (read : ℕ → Reply (List Sembuf)) (semaphores : Semaphores)
    → config.wait_state ≡ wstate_not_waiting
    → config.chain_state ≡ cstate_not_chained
    → Respects (some (operated m queues (semop config configs id nsops read semaphores)))
unfolding semop
semop-Respects m queues config configs id nsops read semaphores free unchained =
    let (state, chain) =
      semop_at-Keeps config configs semaphores nsops read (lookup_object id semaphores) in
    (state ∙ free, inl (chain ∙ unchained))
