-- ===== src/Chain/Fifo.antt =====
-- The chain is a queue.
use mathlib.Core.Path.{subst}
use improot.Base.{
  ℕ, zero, suc, ◌≡◌, ◌∙◌, ap, sym, refl, true, Option, none, some, List, [], ◌∷◌, ◌++◌, map,
  append_assoc, length,
}
use improot.Chain.{
  Aliasing, ChainedSyscall, SyscallChain, TrapRegisters, Chaining, inserted,
  register_chained_syscall_internal, register_chained_syscall, force_chain_final_result, finished,
  forged, next_of, chain_next_syscall,
}

-- Calls registered in turn, with memory for each.
abbrev pub registered : List ChainedSyscall → SyscallChain → SyscallChain
registered [] chain = chain
registered (c ∷ cs) chain = registered cs (register_chained_syscall true true c chain).1

abbrev pub queue_of : Option (List ChainedSyscall) → List ChainedSyscall
queue_of none = []
queue_of (some syscalls) = syscalls

register-appends :
    (c : ChainedSyscall) (q : Option (List ChainedSyscall)) (chain : SyscallChain)
    → chain.syscalls ≡ q
    → (register_chained_syscall true true c chain).1.syscalls ≡ some (queue_of q ++ (c ∷ []))
unfolding register_chained_syscall register_chained_syscall_internal inserted
register-appends c none chain e = rw e refl
register-appends c (some q) chain e = rw e refl

registered-appends :
    (c : ChainedSyscall) (cs : List ChainedSyscall) (chain : SyscallChain)
    → (registered (c ∷ cs) chain).syscalls ≡ some (queue_of chain.syscalls ++ (c ∷ cs))
registered-appends c [] chain = register-appends c _ chain refl
registered-appends c (d ∷ cs) chain =
    let after = (register_chained_syscall true true c chain).1 in
    registered-appends d cs after
    ∙ ap (λ q. some (queue_of q ++ (d ∷ cs))) (register-appends c _ chain refl)
    ∙ ap some (append_assoc (queue_of chain.syscalls) (c ∷ []) (d ∷ cs))

module _ (detranslate_sysnum : ℕ → ℕ) (systrap_size : ℕ) (aliasing : Aliasing)
    (kernel : TrapRegisters → TrapRegisters) where
  abbrev pub next : Chaining → Chaining
  next = chain_next_syscall detranslate_sysnum systrap_size aliasing

  -- The kernel performs a call, and leaves the chain alone.
  abbrev pub performed : Chaining → Chaining
  performed tracee = record tracee { registers = kernel tracee.registers }

  -- The calls that so many steps of the chain forge, and the tracee after them.
  abbrev pub steps : ℕ → Chaining → List ChainedSyscall × Chaining
  steps zero tracee = ([], tracee)
  steps (suc n) tracee =
      let after = next tracee in
      let rest = steps n (performed after) in (after.registers.call ∷ rest.0, rest.1)

  abbrev pub on_host : ChainedSyscall → ChainedSyscall
  on_host syscall = record syscall { sysnum = detranslate_sysnum syscall.sysnum }

  -- What the steps for the calls of the list do.
  abbrev Drains : ℕ → List ChainedSyscall → List ChainedSyscall × Chaining → Type 0
  Drains result calls ran =
      (ran.0 ≡ map on_host calls)
      × ((next ran.1).chain.syscalls ≡ none)
      × ((next ran.1).registers.result ≡ result)

  next-forged :
      (t : Chaining) (c : ChainedSyscall) (q : List ChainedSyscall)
      → t.chain.syscalls ≡ some (c ∷ q)
      → next t ≡ forged detranslate_sysnum systrap_size aliasing t c q
  unfolding chain_next_syscall next_of
  next-forged t c q e = rw e refl

  next-finished :
      (t : Chaining)
      → t.chain.syscalls ≡ some []
      → next t ≡ finished detranslate_sysnum systrap_size aliasing t
  unfolding chain_next_syscall next_of
  next-finished t e = rw e refl

  finished-forces :
      (t : Chaining) (result : ℕ)
      → t.chain.force_final_result ≡ true
      → t.chain.final_result ≡ result
      → (finished detranslate_sysnum systrap_size aliasing t).registers.result ≡ result
  unfolding finished
  finished-forces t result force final = rw force final

  steps-Drains :
      (q : List ChainedSyscall) (t : Chaining) (result : ℕ)
      → t.chain.syscalls ≡ some q
      → t.chain.force_final_result ≡ true
      → t.chain.final_result ≡ result
      → Drains result q (steps (length q) t)
  unfolding finished forged
  steps-Drains [] t result e force final =
      let ends = next-finished t e in
      (
        refl,
        ap (λ u. u.chain.syscalls) ends,
        ap (λ u. u.registers.result) ends ∙ finished-forces t result force final,
      )
  steps-Drains (c ∷ q) t result e force final =
      let goes = next-forged t c q e in
      let (calls, freed, forced) =
        steps-Drains q (performed (forged detranslate_sysnum systrap_size aliasing t c q)) result
          refl force final in
      subst
        (λ u.
          let rest = steps (length q) (performed u) in
          Drains result (c ∷ q) (u.registers.call ∷ rest.0, rest.1))
        (sym goes) (ap (λ cs. on_host c ∷ cs) calls, freed, forced)

  -- The chain is a first-in first-out queue: when calls are registered behind those in the list,
  -- or as the first ones, with memory for each, and the final result is forced, the next calls
  -- that are forged are those of the list and then the new ones, in this order, by the numbers of
  -- the tracee's own table, whatever the kernel makes of the registers in between; and then the
  -- list is freed and the tracee gets the forced result.
  pub chain_next_syscall-fifo :
      (c : ChainedSyscall) (cs : List ChainedSyscall) (result : ℕ) (tracee : Chaining)
      → let calls = queue_of tracee.chain.syscalls ++ (c ∷ cs) in
        let ran = steps (length calls) (record tracee {
          chain = force_chain_final_result result (registered (c ∷ cs) tracee.chain);
        }) in
        (ran.0 ≡ map on_host calls)
        × ((next ran.1).chain.syscalls ≡ none)
        × ((next ran.1).registers.result ≡ result)
  unfolding force_chain_final_result
  chain_next_syscall-fifo c cs result tracee =
      steps-Drains _ _ result (registered-appends c cs tracee.chain) refl refl
