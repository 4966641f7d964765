-- ===== src/Lib.antt =====
-- A small operating system for the uMPS3 machine, in C: the nucleus (phases 1 and 2) and the support
-- level (phases 3 to 5).
--
-- Phase 1 keeps process control blocks and semaphores. `phase1/pcb.c` has the free list of pcbs, the
-- process queues (circular, doubly linked, reached by a tail pointer) and the process tree (each
-- parent with a ring of its children). `phase1/asl.c` has the active semaphore list: descriptors
-- sorted by the address of the semaphore, between two dummies, each with the queue of the pcbs that
-- are blocked there. Phase 2 is the nucleus. `phase2/initial.c` starts it and makes the first process,
-- `phase2/scheduler.c` dispatches the head of the ready queue, `phase2/exceptions.c` serves the
-- system calls SYS1 to SYS8 and passes other exceptions up, and `phase2/interrupts.c` handles the
-- timers and devices. All of them work on the same pcbs and queues and end in `LDST`, `LDCXT`, `HALT`,
-- `PANIC` or `WAIT`.
--
-- The support level runs as processes of the nucleus. `phase3/initProc.c` copies the user programs to
-- the backing store on disk 0, sets up the user processes and waits for them. `phase3/vmSupport.c`
-- refills the TLB and serves page faults from a swap pool of 32 frames. `phase3/sysSupport.c` serves
-- SYS9 to SYS13 and ends processes, `phase4/devSupport.c` SYS14 to SYS17 on disks and flash devices,
-- and `phase5/delayDaemon.c` SYS18, with a list of sleeping processes sorted by wake time and a daemon
-- that wakes them.
--
-- Files:
--   Base             shared names, lists, tests and 32-bit words
--   Ring, Chain      the two shapes of linked lists, without reference to a struct
--   Kernel           the memory (h/types.h), constants (h/const.h), commands (Kernel/Run) and the
--                    machine's services (Kernel/Machine)
--   Pcb              phase1/pcb.c: Pcb/Defs and Pcb/Tree are the functions; Pcb/Free, Pcb/Queue and
--                    the children of Pcb/Tree prove them
--   Asl              phase1/asl.c: Asl/Defs are the functions, Asl/List the invariant IsAsl
--   Scheduler        phase2/scheduler.c
--   Exceptions       phase2/exceptions.c; Dispatch has its `exception_handler`
--   Interrupts       phase2/interrupts.c
--   Initial          phase2/initial.c; Initial/First has what main leaves
--   Samples          a small memory, and Witnesses the theorems at it
--   Support          the memory of the support level, its constants, commands (Support/Code), what
--                    holds behind them (Support/Logic) and the machine's services
--   Uproc            the part of phase3/sysSupport.c that ends a process
--   Vm               phase3/vmSupport.c: Vm/Disk and Vm/Fault are functions too; Vm/Replace proves the
--                    choice of a frame, Vm/Sectors the geometry of disks, the children of Vm/Fault the
--                    page faults
--   Dev              phase4/devSupport.c, with Dev/Flash
--   Adl              phase5/delayDaemon.c, with Adl/Init; Adl/List is the invariant IsAdl, Adl/Empty is
--                    about initADL, Adl/Enlist about DELAY and Adl/Wake about the daemon
--   UserCalls        phase3/sysSupport.c: the system calls, Print, Terminal and Switch; UserCalls/Release
--                    and Refused are about the end of a process, Print/Paper about the printer
--   Instantiator     phase3/initProc.c, with Backing for the backing store; Instantiator/Ready and Start
--                    are about the user processes that are made
--   UserSamples      a small memory of the support level, FaultSamples two page faults at it, and
--                    UserWitnesses the theorems there
--
-- A C function is a command with its name in lower case words (`insertProcQ` is `insert_proc_q`,
-- `SYSCALL_handler` is `syscall_handler`): a function from the memory to a run, which returns a value
-- and a memory, leaves the nucleus, fails at an access through `NULL` (0xFFFFFFFF in h/const.h), or
-- runs out of fuel. The memory is a record with one function from addresses to values for each field
-- of `pcb_t` and `semd_t`, the globals of the modules, the `int` cells, the saved exception state and
-- the parts of `support_t` that the nucleus uses. Words are numbers below 2 ^ 32 with their wrap-around
-- written out; `int` comparisons are on two's complement. A function that takes a `pcb_PTR *` takes the
-- tail pointer and returns the new one.
--
-- A queue is described by the list of its pcbs (Ring), the active list by a list of descriptors with
-- their queues (IsAsl); theorems state the effect of an operation on these lists and that nothing else
-- changes.
--
-- A function of the support level is a command on the memory of Support.antt: it returns, loads a saved
-- state, or ends with its process. The nucleus is a parameter of these functions. At each SYSCALL it
-- gives the value in v0 and the memory at the return, which other processes may have changed, or says
-- that the call does not return; theorems state as hypotheses what they need of it: SYS2 does not
-- return, and while a process holds a semaphore the others leave alone what it protects. The characters
-- on the printer's paper and what disk 0 has done are lists in the memory that only the devices write.
--
-- Fuel: the search in a queue and among children gets MAXPROC + 1 rounds, and a queue holds at most
-- MAXPROC pcbs; the traversal of the active list gets MAXPROC + 2, for MAXPROC descriptors and the
-- dummies; the theorems on these operations show that this is enough. `helper_terminate_process` gets
-- 2 * MAXPROC, two for each pcb, and the loop of the pseudo-clock MAXPROC + 1. The
-- traversal of the delay list and the daemon's loop get MAXPROC + 2, and the theorems on them show that
-- it is enough; the loops over a string get 129 rounds, one more than the longest string; the rounds of
-- the daemon and the characters that SYS13 reads are arguments, since these loops have no bound.
--
-- Not modelled: the test programs, and libumps and the BIOS, which are not part of the repository. Structs of different types
-- do not overlap in the model. The timer does not run while the nucleus does, and device registers
-- are cells that only the nucleus changes. The words and the bytes of user space are separate, accesses
-- to them do not fault, and pointers to support structures are not NULL. A local variable that is not
-- initialised has an arbitrary value. The nucleus of phases 1 and 2 is not plugged in for the parameter of
-- the support level.
pub mod Base
pub mod Ring
pub mod Chain
pub mod Kernel
pub mod Pcb
pub mod Asl
pub mod Scheduler
pub mod Support
pub mod Uproc
pub mod Vm
pub mod Dev
pub mod Adl
pub mod UserCalls
pub mod Instantiator
pub mod Exceptions
pub mod Interrupts
pub mod Initial
pub mod Dispatch
pub mod Samples
pub mod Witnesses
pub mod UserSamples
pub mod FaultSamples
pub mod UserWitnesses
