-- ===== src/Lib.antt =====
-- Improot is an unprivileged emulation of chroot, mount --bind and virtual disks, built on
-- ptrace(2): each path that a tracee hands to a system call is translated from the guest's point
-- of view to the host's before the kernel sees it. This library models the translation, which all
-- else rests on, the emulation of System V message queues and semaphores, of the heap and of port
-- numbers, of the fake identity, the chains of system calls, their filter and the expansion of
-- scripts, and shows what they promise.
--
-- The parts. A tracee has a file-system name-space with three lists of bindings (a pair of paths:
-- host and guest). `canonicalize` walks a user's path name by name, resolves symlinks, and looks
-- each intermediate path up in the guest list; `substitute_binding` replaces the prefix that a
-- binding holds; `detranslate_path` brings a path that the kernel reported back to the guest's
-- point of view; links in /proc are answered by the program itself.
--
--   Base         shared names, tests on numbers, lists, and C strings (the bytes before the NUL)
--   Path         src/path/path.h and the functions of src/path/path.c and src/path/canon.c on texts:
--                compare_paths2, join_paths, substitute_path_prefix, chop_finality, pop_component,
--                next_component. Path.Components is the abstract view of a canonical path, a list
--                of names; the other children prove one function each against it
--   Binding      src/path/binding.c: the lists and their lookup; Binding.Insort how a binding
--                enters and leaves them, Binding.Order and Binding.Preserve the order of the lists,
--                Binding.Lookup and Binding.Substitute what a lookup and a substitution give
--   Proc         src/path/proc.c: the links in /proc; Proc.Numbers the decimal numbers in them
--   Detranslate  readlink_proc2 (src/path/proc.c) and detranslate_path (src/path/path.c)
--   Canon        src/path/canon.c: substitute_binding_stat, and in Canon.Walk canonicalize;
--                Canon.Ending what a path ends in, by its bytes
--   Translate    translate_path of src/path/path.c with the base it starts from: the whole way from a
--                user's path to a host path, over Binding, Detranslate and Canon
--   Portmap      src/extension/portmap/map.c: the table of port numbers; Portmap.Scan the two loops
--                of its search, Portmap.Table and Portmap.Found where it ends, Portmap.Refines the map of
--                ports that the table stands for
--   Heap         src/syscall/heap.c: the emulated heap; Heap.Break the calls of brk(2) over the
--                kernel, Heap.Held what one call does, Heap.Reach sequences of calls
--   Exec         expand_shebang of src/execve/shebang.c, over Translate and Shebang, with
--                translate_and_check_exec (src/execve/enter.c) and the array of arguments
--                (src/execve/aoxp.c); Exec.Argv what the array stands for, Exec.Scripts the chain of
--                interpreters
--   FakeId0      src/extension/fake_id0/fake_id0.c: the identity that a tracee is shown;
--                FakeId0.Drop the loss of privileges, FakeId0.Groups the groups, FakeId0.Start the
--                first identity
--   Sysnum       src/syscall/sysnum.c: the neutral numbers of system calls and an architecture's
--   Seccomp      src/syscall/seccomp.c: the filter that stops a tracee at the system calls that are
--                asked for; Seccomp.Merge the lists, Seccomp.Build the statements of the program,
--                Seccomp.Filter what they do, Seccomp.Traces how a number finds its system call,
--                Seccomp.Sound the whole, Seccomp.Own the program's own list
--   Chain        src/syscall/chain.c: the system calls that the program makes a tracee perform behind
--                its own; Chain.Fifo their order
--   Shebang      extract_shebang of src/execve/shebang.c: Shebang.Line its loops, Shebang.Reads the
--                lines that it reads, Shebang.Bounds its buffers
--   Ipc          src/extension/sysvipc: ids, look-up and wait states (sysvipc_internal.h, sysvipc.c);
--                Ipc.Messages and Ipc.Receive the message queues (sysvipc_msg.c), Ipc.Semaphores
--                the semaphores (sysvipc_sem.c); Ipc.Waiting and its Callback how a system call
--                waits, over the events of a tracee (sysvipc.c), Ipc.Waiting.Handlers that msgrcv and
--                semop are handlers for it, Ipc.Waiting.Run what is reached; the other children
--                prove one aspect each
--   Tests        runs at concrete inputs
--
-- Conventions. A `char` buffer with its NUL is the list of the bytes before it; a function that
-- writes a buffer returns it. Numbers are natural; a size_t that may wrap is taken modulo 2^64,
-- the pattern of an int modulo 2^32. A list of bindings holds values, with a field `id` for the
-- object's identity. A pointer into a list is a position. Unless said otherwise below, an assertion
-- of the code is not an abort in the model: the definition gives what the code would go on to compute, and the theorems
-- are about states where the assertions hold.
--
-- What the program asks of the kernel, of the C library's dirname and basename, and of the
-- extensions' callbacks is the record `Canon.Surroundings`, and for the two notifications of
-- `translate_path` the record `Translate.Extensions`. `MAXSYMLINKS` is 20, as in the C
-- library's headers. The loop of `canonicalize` has fuel for each byte of the path and one round
-- more, since each round but the last moves the cursor; the recursion has fuel 22, since each
-- level is above the one before and a level above MAXSYMLINKS is refused.
--
-- For the heap the kernel's answer to a system call is a value of `Heap.Break.Reply`, under the
-- hypothesis `Fits`: mmap(2) and mremap(2) fail with an error below 4096, or map at a page.
--
-- An open script is its bytes and the error of the read behind them, if any; `BINPRM_BUF_SIZE`,
-- which is 128 or 256 by the version of the kernel's headers, is a parameter. What access(2),
-- lstat(2) and open(2) answer for a program is the record
-- `Exec.Programs`. In Exec and Seccomp talloc always finds memory.
--
-- The kernel's machine for a filter is the record `Seccomp.Filter.Bpf`, with what it does on each
-- of the four kinds of statements that are used; the tables of system-call numbers, which headers
-- hold, are the record `Sysnum.Arch`.
--
-- The memory of a tracee is the record `Ipc.Messages.Memory`: src/tracee/mem.c reads and writes it
-- through the kernel; for the semaphores it is `Ipc.Semaphores.Writes` and the reader that `semop`
-- is given. The system calls are functions of the objects of the name-space, the calling
-- tracee's state, and, where they wake others, the states of all tracees in the order of the
-- program's list. In Ipc.Waiting and in msgrcv's retry an assertion that
-- fails is `none`; in Ipc.Waiting a handler is what it leaves, and
-- the chain of shmat is a parameter.
--
-- Not modelled: the initialisation of bindings and its glue (a tracee's `glue_type` is 0 here),
-- messages, and the handlers of the single system calls, which call the translation.
pub mod Base
pub mod Path
pub mod Binding
pub mod Proc
pub mod Detranslate
pub mod Canon
pub mod Translate
pub mod Ipc
pub mod Heap
pub mod Exec
pub mod FakeId0
pub mod Chain
pub mod Shebang
pub mod Sysnum
pub mod Seccomp
pub mod Portmap
mod Tests
