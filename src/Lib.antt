-- ===== src/Lib.antt =====
-- Verification library of the teaching kernels of this repository: xv6 as extended in
-- assignment-3 (system call trace, date) and in lab-2 (schedulers).
--
-- The program and its models:
-- - assignment-3/string.c, x86.h: Memory, Memory/Strings. Memory is a function from addresses to
--   bytes; a loop is structural recursion on its count, as in the source. `strlen` takes the number
--   of bytes that it may look at as fuel.
-- - assignment-3/log.c: Log and its children. Log has the state (`struct log`, the cached blocks,
--   the pins) and `commit`, `recover_from_log`, `initlog` as functions that also yield the disk writes they
--   make, in order: a crash is a prefix of these. Log/Ops has `begin_op`, the two critical sections of `end_op`, and `log_write`; Log/Space
--   has the calls of many processes as a step relation, where others may run between these sections and the commit. The buffer cache enters by its contract, which
--   Bio is about: a read gives the cached or the disk's block, a pinned buffer is not evicted.
-- - assignment-3/bio.c, buf.h: Bio; the ring of buffers is the list of their indices, in order of use.
--   Bio/View has what a block holds for the users of the cache; Bio/Get, Bio/Read, Bio/Release and Bio/Write
--   are about the calls. The disk driver (ide.c) enters by what a call of `iderw` does when it returns.
-- - assignment-3/fs.c, fs.h: Fs has the state (the bytes of each block as `bread` yields them, the inode
--   cache) and code as functions that may panic; Fs/Blocks has the free map, Fs/Inodes the inode cache,
--   Fs/Content the blocks of an inode, Fs/Data reading and writing, Fs/Dir directories and Fs/Path path
--   names; Fs/FreeMap, Fs/Allocation, Fs/Owned, Fs/Bmap, Fs/Icache and the children of Fs/Path are about
--   them. Fs/Extent and its children are about
--   an inode that owns its blocks: Fs/Extent/Growth and Fs/Extent/Steps how it gets a block, Fs/Extent/Find
--   how `bmap` finds one, Fs/Extent/Store how one is written, Fs/Extent/Write, Fs/Extent/Loops and Fs/Extent/Read
--   the loops of `writei` and `readi`, Fs/Extent/Whole the size, Fs/Extent/Saved the disk's inode, Fs/Extent/Finish the last steps of `writei`; Fs/Dir/Entries, Fs/Dir/Lookup, Fs/Dir/Link
--   and Fs/Dir/Roundtrip about the entries of a directory. The loops that go up to a size have a bound on their rounds that is the size over the
--   step, plus one; the loop of `namex` has the length of the path, plus one. A step of the log
--   (`log_write`) is a change of the block.
-- - lab-3/kern/pmap.c: Jos has the state (`struct PageInfo` of every page, the words of memory) and code
--   as functions that may panic; Jos/Boot has `i386_detect_memory`, `boot_alloc` and `page_init`,
--   Jos/Pages the page allocator, Jos/PageTable the page tables; Jos/FreeList, Jos/Init, Jos/Walk and
--   Jos/Mapping are about these. A kernel address is a page and an index.
-- - assignment-3/pipe.c: Pipe; Pipe/Ring reads the array and its two wrapping counters as a list,
--   Pipe/Stream is about `pipewrite` and `piperead`. A call that sleeps is an outcome, and goes on
--   by the same function from what is left to do.
-- - assignment-3/syscall.c, syscall.h: Syscall and Syscall/Numbers; the table of handlers, the table of names and the
--   cases of the `switch` are three lists. What the handlers do is a parameter.
-- - assignment-3/kalloc.c: Kalloc; the free pages are a list of addresses beside the links in memory, which `kfree`
--   stores and which agree with the list (Kalloc/Pages). The loop of
--   `freerange` has as many rounds as pages fit below its end, which is enough.
-- - assignment-3/file.c: File has the table of open files and its reference counts, File/Io the
--   reads and writes, over parameters for inodes and pipes; a write of n bytes takes n rounds at most.
-- - assignment-3/sysfile.c: Sysfile has the state that a call of a process acts on and the calls on descriptors,
--   Sysfile/Pipes `pipealloc` and `sys_pipe`, Sysfile/Links and Sysfile/Create what the calls on paths do to the
--   file system, Sysfile/Calls these calls, and Sysfile/Run sequences of calls. Sysfile/Empty is about `isdirempty`; Sysfile/Sound, Sysfile/Kept,
--   Sysfile/Opened and Sysfile/Piped are about the references that descriptors hold and the transactions
--   that are open. `begin_op` and `end_op` count transactions here; Log has what they do.
-- - assignment-3/vm.c: Vm, on the allocator's state, with the words of page tables in the bytes of memory; Vm/Mapped and
--   Vm/Page are about `mappages` of a page. The loops that go up to a size take a page a round.
-- - assignment-3/sleeplock.c: Sleeplock has the lock and the steps of the processes that use it; Sleeplock/Safety is
--   about the states that these lead to.
-- - assignment-3/spinlock.c: Spinlock; one processor's side of a lock.
-- - lab-2/proc.h: Proc; a process and the table.
-- - lab-2/proc_lottery_v02.c: Lottery; a round of `scheduler` with the random generator (rand.c, a
--   library) and what a process does on the processor as parameters.
-- - lab-2/proc_mlfq_v02.c: Mlfq; the queues, `scheduler` as a step function on its program counter,
--   the promotion and the calls on priorities. Mlfq/Life has `allocproc`, `fork`, `exit`, `wait`,
--   `sleep`, `wakeup`, `kill` and `yield`, up to the switch to the scheduler.
--
-- How the parts interact: the scheduler and the life of a process share the table and the queues
-- (Mlfq.Kernel); `kfree` fills a page by `memset` and links it by a store (Memory); `fileclose` names the pipe end or inode
-- that Sysfile then gives up; Fs stands on what Bio and Log promise of a block.
--
-- Integers: `uint` sums are taken modulo 2 ^ 32, and `int`s that cannot overflow are integers.
-- Locks: but for Spinlock itself, each function is one critical section of its lock, and `end_op` of log.c is two, with
-- the commit between them; Log/Space has the interleavings of such sections.
--
-- Not modelled: sys_read, sys_write, sys_fstat and sys_exec, setupkvm, inituvm, loaduvm, freevm,
--   copyuvm and copyout of vm.c, traps, drivers, the boot code, the user
-- programs, the older scheduler versions, `mem_init` and the self tests of JOS, its monitor, the JOS
-- kernel of lab-1, and the first two assignments.
pub mod Base
pub mod Memory
pub mod Log
pub mod Proc
pub mod Lottery
pub mod Mlfq
pub mod Pipe
pub mod Sysfile
pub mod Syscall
pub mod Kalloc
pub mod Vm
pub mod File
pub mod Sleeplock
pub mod Spinlock
pub mod Bio
pub mod Fs
pub mod Jos
pub mod Tests
