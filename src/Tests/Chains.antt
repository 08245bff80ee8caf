-- ===== src/Tests/Chains.antt =====
-- A run of the chain, and the theorem on it at an input.
use improot.Base.{ℕ, ◌+◌, ◌≡◌, true, false, none, [], ◌∷◌}
use improot.Chain.{
  Aliasing, ChainedSyscall, TrapRegisters, Chaining, inactive, force_chain_final_result,
}
use improot.Chain.Fifo.{registered, next, steps, chain_next_syscall-fifo}

abbrev call_of : ℕ → ChainedSyscall
call_of n = record {
  sysnum = n;
  sysarg_1 = 1;
  sysarg_2 = 0;
  sysarg_3 = 0;
  sysarg_4 = 0;
  sysarg_5 = 0;
  sysarg_6 = 0;
}

abbrev stopped : Chaining
stopped = record {
  chain = record {
    syscalls = none;
    force_final_result = false;
    final_result = 0;
    sysnum_workaround_state = inactive;
  };
  registers = record { call = call_of 5; result = 7; instr_pointer = 4096 };
  restore_original_regs = true;
  restart_at_exit = false;
}

abbrev number : ℕ → ℕ
number n = n + 100

-- The result shares a register with the number of the call.
abbrev x86_64 : Aliasing
x86_64 = record {
  result_after = λ call result. call.sysnum;
  call_after = λ result call. record call { sysnum = result };
}

abbrev kernel : TrapRegisters → TrapRegisters
kernel registers = record registers { result = 9 }

abbrev chained : Chaining
chained = record stopped {
  chain = force_chain_final_result 42 (registered (call_of 1 ∷ call_of 2 ∷ []) stopped.chain);
}

chain_next_syscall-fifo_example :
    let ran = steps number 2 x86_64 kernel 2 chained in
    (ran.0 ≡ call_of 101 ∷ call_of 102 ∷ [])
    × ((next number 2 x86_64 kernel ran.1).chain.syscalls ≡ none)
    × ((next number 2 x86_64 kernel ran.1).registers.result ≡ 42)
unfolding force_chain_final_result
chain_next_syscall-fifo_example =
    chain_next_syscall-fifo number 2 x86_64 kernel (call_of 1) (call_of 2 ∷ []) 42 stopped
