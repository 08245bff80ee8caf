-- ===== src/Tests/Semaphores.antt =====
-- Runs of the semaphores, and the theorems on them at inputs.
use improot.Base.{ℕ, ◌≡◌, refl, true, false, List, [], ◌∷◌, arith, All}
use improot.Path.{success}
use improot.Ipc.{
  reply, lookup_object, check_object, find_slot, object_id, bit_or, Sembuf, Config, wr_not_waiting,
  wr_wait_semop, wstate_not_waiting, wstate_entered_ppoll, wstate_signaled_ppoll,
  cstate_not_chained, wake_tracee,
}
use improot.Ipc.Semaphores.{
  Semaphores, made, semget, get_semaphore, create_semaphore, try_op, check_ops, sem_check,
  after_check, check_others, finish, operate, all_below, semop_read, semop_at, semop,
}
use improot.Ipc.Semctl.{Writes, semctl}
use improot.Ipc.Atomic.{AllOrNothing}
use improot.Ipc.Values.{IsHeld, sem_check-AllOrNothing}
use improot.Ipc.Control.{
  at_first, by_semget, by_semop, by_semctl, operated_semaphores, set_semaphores, Follows-IsHeld,
  semctl-Keeps,
}

abbrev idle : Config
idle = record {
  pid = 7;
  ipc_namespace = 1;
  wait_reason = wr_not_waiting;
  wait_state = wstate_not_waiting;
  chain_state = cstate_not_chained;
  status_after_wait = reply 0;
  waiting_object_index = 0;
  msgrcv_msgp = 0;
  msgrcv_msgsz = 0;
  msgrcv_msgtyp = 0;
  msgrcv_msgflg = 0;
  semop_sops = [];
  sigstop_ignored = false;
}

abbrev op : ℕ → ℕ → Sembuf
op num value = record { sem_num = num; sem_op = value; sem_flg = 0 }

abbrev minus_one : ℕ
minus_one = 65535

abbrev waiting : ℕ → List Sembuf → Config
waiting pid sops = record idle {
  pid = pid;
  wait_reason = wr_wait_semop;
  wait_state = wstate_entered_ppoll;
  semop_sops = sops;
}

abbrev one_set : Semaphores
one_set = made 5 0 2 ∷ []

abbrev writes : Writes (List ℕ)
writes = record {
  write_sems = λ m a sems. (success, sems);
  write_seminfo = λ m a info. (success, m);
}

creates : semget 5 2 512 [] ≡ (reply 1, one_set)
unfolding semget find_slot get_semaphore create_semaphore object_id bit_or
creates = refl

-- The first tracee waits for the second value, which the operation of the second one raises when
-- the caller raises the first value; it waits on, since it is looked at only once.
abbrev first_waiter : Config
first_waiter = waiting 8 (op 1 minus_one ∷ [])

abbrev second_waiter : Config
second_waiter = waiting 9 (op 0 minus_one ∷ op 1 1 ∷ [])

abbrev configs_after : List Config
configs_after =
    let o = semop idle (first_waiter ∷ second_waiter ∷ []) 1 1 (λ n. reply (op 0 1 ∷ [])) one_set in
    o.configs

looked_at_once :
    configs_after
    ≡ first_waiter
      ∷ record second_waiter {
        wait_reason = wr_not_waiting;
        wait_state = wstate_signaled_ppoll;
        semop_sops = [];
        sigstop_ignored = true;
      }
      ∷ []
unfolding semop semop_at semop_read all_below operate finish lookup_object check_object sem_check
    check_ops try_op check_others after_check wake_tracee
looked_at_once = refl

sem_check-AllOrNothing_example :
    AllOrNothing (5 ∷ 1 ∷ []) second_waiter.semop_sops (sem_check second_waiter (5 ∷ 1 ∷ []))
sem_check-AllOrNothing_example = sem_check-AllOrNothing second_waiter (5 ∷ 1 ∷ [])

semctl-Keeps_example :
    (let s = semctl writes [] idle (first_waiter ∷ []) 1 1 16 5 one_set in
      s.configs ≡ first_waiter ∷ [])
semctl-Keeps_example =
    semctl-Keeps writes [] idle (first_waiter ∷ []) 1 1 16 5 one_set (omega arith) (omega arith)

Follows-IsHeld_example : All IsHeld (
    set_semaphores writes (
      semctl writes [] idle [] 1 1 16 5 (
        operated_semaphores writes
          (semop idle (first_waiter ∷ []) 1 1 (λ n. reply (op 0 1 ∷ [])) (semget 5 2 512 []).1))))
Follows-IsHeld_example =
    Follows-IsHeld writes
      (set_semaphores writes (
        semctl writes [] idle [] 1 1 16 5 (
          operated_semaphores writes
            (semop idle (first_waiter ∷ []) 1 1 (λ n. reply (op 0 1 ∷ [])) (semget 5 2 512 []).1))))
      (by_semctl
        (by_semop (by_semget at_first 5 2 512) idle (first_waiter ∷ []) 1 1
          (λ n. reply (op 0 1 ∷ [])))
        [] idle [] 1 1 16 5)
