-- ===== src/Chain.antt =====
-- src/syscall/chain.c: system calls that the program makes a tracee perform behind its own.
pub mod Fifo
use improot.Base.{
  ℕ, ◌+◌, ◌-◌, ◌^◌, ◌%◌, Bool, true, false, Option, none, some, List, [], ◌∷◌, ◌++◌, if◌then◌else◌,
}
use improot.Path.{Status, success, failure, enomem}

-- `struct chained_syscall`
pub record ChainedSyscall : Type 0 where
  pub sysnum : ℕ
  pub sysarg_1 : ℕ
  pub sysarg_2 : ℕ
  pub sysarg_3 : ℕ
  pub sysarg_4 : ℕ
  pub sysarg_5 : ℕ
  pub sysarg_6 : ℕ

-- The states of the workaround.
pub data SysnumWorkaround : Type 0 where
  inactive process_faulty_call process_replaced_call : SysnumWorkaround

-- `chain` of a tracee; without a list, `syscalls` is NULL.
pub record SyscallChain : Type 0 where
  pub syscalls : Option (List ChainedSyscall)
  pub force_final_result : Bool
  pub final_result : ℕ
  pub sysnum_workaround_state : SysnumWorkaround

-- The registers that the chain reads and writes.
pub record TrapRegisters : Type 0 where
  pub call : ChainedSyscall
  pub result : ℕ
  pub instr_pointer : ℕ

-- `SYSARG_RESULT` shares a register with `SYSTRAP_NUM` or with `SYSARG_1` on some architectures:
-- what the result reads once the registers of a call are written, from what it read before, and
-- what those of a call read once the result is.
pub record Aliasing : Type 0 where
  pub result_after : ChainedSyscall → ℕ → ℕ
  pub call_after : ℕ → ChainedSyscall → ChainedSyscall

pub record Chaining : Type 0 where
  pub chain : SyscallChain
  pub registers : TrapRegisters
  pub restore_original_regs : Bool
  pub restart_at_exit : Bool

-- The new element, with whether talloc finds memory for it.
unfoldable pub inserted :
    Bool → ChainedSyscall → Bool → List ChainedSyscall → SyscallChain → Status × SyscallChain
inserted false syscall at_front syscalls chain =
    (failure enomem, record chain { syscalls = some syscalls })
inserted true syscall at_front syscalls chain = (
  success,
  record chain {
    syscalls = some (if at_front then syscall ∷ syscalls else syscalls ++ (syscall ∷ []));
  },
)

-- `register_chained_syscall_internal`, with whether talloc finds memory for the list and for the
-- element.
unfoldable pub register_chained_syscall_internal :
    Bool → Bool → ChainedSyscall → Bool → SyscallChain → Status × SyscallChain
unfolding inserted
register_chained_syscall_internal list_memory memory syscall at_front chain = elim chain.syscalls [
  | none ↦
      if list_memory then inserted memory syscall at_front [] chain else (failure enomem, chain)
  | some syscalls ↦ inserted memory syscall at_front syscalls chain
]

-- `register_chained_syscall`
unfoldable pub register_chained_syscall :
    Bool → Bool → ChainedSyscall → SyscallChain → Status × SyscallChain
unfolding register_chained_syscall_internal
register_chained_syscall list_memory memory syscall chain =
    register_chained_syscall_internal list_memory memory syscall false chain

-- `force_chain_final_result`
unfoldable pub force_chain_final_result : ℕ → SyscallChain → SyscallChain
force_chain_final_result forced_result chain = record chain {
  force_final_result = true;
  final_result = forced_result;
}

-- The call that registers hold, by its neutral number (`get_sysnum`).
abbrev pub neutral_call : (ℕ → ℕ) → TrapRegisters → ChainedSyscall
neutral_call translate_sysnum registers =
    let call = registers.call in record call { sysnum = translate_sysnum call.sysnum }

-- `restart_original_syscall`, of the original registers.
unfoldable pub restart_original_syscall :
    (ℕ → ℕ) → Bool → Bool → TrapRegisters → SyscallChain → Status × SyscallChain
unfolding register_chained_syscall
restart_original_syscall translate_sysnum list_memory memory original chain =
    register_chained_syscall list_memory memory (neutral_call translate_sysnum original) chain

-- `restart_current_syscall_as_chained`
unfoldable pub restart_current_syscall_as_chained :
    (ℕ → ℕ) → Bool → Bool → TrapRegisters → SyscallChain → Status × SyscallChain
unfolding register_chained_syscall_internal
restart_current_syscall_as_chained translate_sysnum list_memory memory current chain =
    register_chained_syscall_internal list_memory memory (neutral_call translate_sysnum current)
      true (record chain { sysnum_workaround_state = process_faulty_call })

module _ (detranslate_sysnum : ℕ → ℕ) (systrap_size : ℕ) (aliasing : Aliasing) where
  -- The chain is done.
  unfoldable pub finished : Chaining → Chaining
  finished tracee =
      let chain = tracee.chain in
      let registers = tracee.registers in
      record tracee {
        chain = record chain { syscalls = none; force_final_result = false; final_result = 0 };
        registers =
            if chain.force_final_result
            then record registers {
              call = aliasing.call_after chain.final_result registers.call;
              result = chain.final_result;
            }
            else registers;
      }

  -- The next call of the chain is forged.
  unfoldable pub forged : Chaining → ChainedSyscall → List ChainedSyscall → Chaining
  forged tracee syscall syscalls =
      let chain = tracee.chain in
      let registers = tracee.registers in
      let call : ChainedSyscall = record syscall { sysnum = detranslate_sysnum syscall.sysnum } in
      record {
        chain = record chain { syscalls = some syscalls };
        registers = record registers {
          call = call;
          result = aliasing.result_after call registers.result;
          instr_pointer = (registers.instr_pointer + 2 ^ 64 - systrap_size) % 2 ^ 64;
        };
        restore_original_regs = false;
        restart_at_exit = true;
      }

  unfoldable pub next_of : Chaining → Option (List ChainedSyscall) → Chaining
  unfolding finished forged
  next_of tracee none = tracee
  next_of tracee (some []) = finished tracee
  next_of tracee (some (syscall ∷ syscalls)) = forged tracee syscall syscalls

  -- `chain_next_syscall`
  unfoldable pub chain_next_syscall : Chaining → Chaining
  unfolding next_of
  chain_next_syscall tracee = next_of tracee tracee.chain.syscalls
