-- ===== src/Lib.antt =====
-- The kernel of this xv6 for RISC-V, with its priority scheduler: models of the parts that carry the
-- core logic, and the theorems that make them correct.
--
-- The parts, from the bottom up:
--   * KString is kernel/string.c: functions on a memory of bytes, with the names of the source.
--   * Spinlock is kernel/spinlock.c: the parts of `acquire` and `release` between one access to the lock
--     and the next, `push_off` and `pop_off`. Spinlock/Nesting is about the nesting. Spinlock/Turns puts the
--     parts together, as steps of many CPUs on one lock; Inside and Exclusion are about such runs.
--   * Kalloc is kernel/kalloc.c: `kalloc` and `kfree` on the linked list of free pages. Kalloc/Pages
--     says what list the links spell, and who has which page.
--   * Buffer is kernel/bio.c and kernel/sleeplock.c: the buffer cache in its order of use, and the lock
--     of a buffer.
--   * Log is kernel/log.c: the admission of operations (`begin_op`, `end_op`), `log_write`, and a commit
--     and a recovery as sequences of disk writes, so that a crash is a prefix of a sequence. Log/Space is
--     about the room in the log, for operations that write at most MAXOPBLOCKS different blocks each,
--     with Log/Cover on the lists of these blocks, Log/Crash about a commit cut short, Log/Transaction about the writes of a
--     whole transaction.
--   * Fs is kernel/fs.c above the log, on a disk that is what `bread` gives: blocks as maps from offsets
--     to bytes. Fs itself has the bitmap and its allocator (`balloc`, `bfree`), with Fs/Bitmap and
--     Fs/Alloc about them. Fs/Inode is the content of an inode: `bmap`, `itrunc`, `readi` and `writei`;
--     its Map says what the blocks of a file are, and when they are its own; Grows, Bmap, Runs, Trunc,
--     Piece, Write, Read and Roundtrip are about the functions. Fs/Table is the table of inodes in memory
--     and the inodes on the disk: `iget`, `idup`, `ilock`, `iput`, `ialloc`, `iupdate`. Fs/Dir is
--     `dirlookup` and `dirlink`, and Fs/Path is `skipelem`, and Fs/Walk is `namex`. The copies of bytes
--     from and to a process, `either_copyin` and `either_copyout`, are a record `User`.
--   * File is kernel/file.c: the table of open files with its reference counts, `fileread` and
--     `filewrite`, over a record `Layers` of what pipes, devices and inodes do.
--   * Pipe is kernel/pipe.c: the circular buffer with its two wrapping counters, and the loops of
--     `pipewrite` and `piperead`. Pipe/Ring relates the buffer to a queue, Pipe/Transfer is about the
--     loops.
--   * Console is kernel/console.c: the input buffer with its three wrapping indices, `consoleintr`, and the
--     loop of `consoleread`. Console/Edit is about editing.
--   * Proc is kernel/proc.c and kernel/proc.h. Its state is the process table, a list of `Proc` by index
--     in `proc[]`; the address of an entry is a channel for sleep and wakeup.
--     Proc/Sched is `apply_aging` and a round of `scheduler`; Proc/Sleep is `sleep_prepare`, `sleep` and
--     `wakeup`; Proc/Control is the priorities and `kkill`; Proc/Life is `allocproc`, `freeproc` and
--     `kfork`, where Child is what the child gets besides its entry; Proc/Exit is `reparent`, `kexit` and `kwait`. Proc/Services is the interface to the memory
--     and file layers that the last two call: a record that the development takes as a parameter.
--   * Sbrk is `growproc` of kernel/proc.c with `sys_sbrk` and `sys_pause` of kernel/sysproc.c, over a record
--     `Paging` of the two functions of kernel/vm.c that change the size of a page table.
--   * Prelude holds what the parts share: tests on numbers, arrays as lists, and integers.
--
-- Conventions. An operation that holds a lock throughout is one function on the state that the lock
-- protects; where the source lets a lock go, to sleep or between two loops, the model takes what others do
-- there as an argument or as further steps of a relation. A panic is `none`, or a constructor of its own.
-- A counter that can wrap is taken modulo 2 ^ 32, `nextpid` and `log.outstanding` too; reference counts are
-- not bounded. In the C code a null pointer is 0, as here.
--
-- Some steps are coarser than the source. `kfork` is one step, though it lets the lock of the new entry
-- go before it takes `wait_lock`; so is the part of `iput` that frees an inode, though it lets
-- `itable.lock` go in between, and a `holding`, though it reads two fields. `itrunc` and `writei` end
-- before their last `iupdate`: the inode is in memory then, and `iput` writes it after its `itrunc`.
--
-- Loops over an array recurse on the list, or on the number of steps left. The loop of `filewrite` has
-- the number of bytes as fuel, which the theorem about it shows to be enough; so do those of `readi` and
-- `writei`, and the loops over a directory have its size; that of `namex` has the length of the path, with Fs/Walk/Fuel
-- to show that it is enough. `kwait`, `pipewrite` and
-- `piperead` wait as long as they must: they take the list of what others do each time they sleep, and end
-- without a result when the list does; the theorems are about the passes between two sleeps.
--
-- Not modelled: hardware (traps, the UART, the disk, the interrupt controller, context switches and memory
-- order), page tables and `exec`, the recovery of orphaned inodes, the system call layer,
-- and the user programs.
pub mod Prelude
pub mod KString
pub mod Spinlock
pub mod Kalloc
pub mod Buffer
pub mod Log
pub mod Fs
pub mod File
pub mod Pipe
pub mod Console
pub mod Proc
pub mod Sbrk
