-- ===== src/Lib.antt =====
-- The kernel under initial-xv6/src/kernel: the process table, the three schedulers that a build
-- chooses from (round robin, lottery, multi-level feedback queue), the timer interrupt with its alarms
-- and time slices, the life of a process from allocproc to wait, its system calls, pipes, the page
-- allocator and the byte routines; page tables, the buffer cache, the log, the file system, open files
-- and the console's input, the disk driver and the loading of programs; the matcher of grep, the
-- parser of the shell, and the tool that builds the disk image.
--
-- Parts and files. Every routine is named as in C, in snake_case.
--   Proc       proc.h, the globals of proc.c: `Kernel` is the table `proc`, `multique`, `sizeofq` and the
--              counters; a pointer to `proc[i]` is the index `i`. Proc/Frame is the trapframe's layout.
--   Queues     proc.c, enqueue and dequeue. Refine: they are list operations. Effects: what else changes.
--   Sched      proc.c, rand to scheduler. Levels, Pick: the multi-level queue. Lottery, Ties, Draw, Interval: the lottery.
--              RoundRobin: the default.
--   Trap       trap.c, the part of usertrap for the timer: alarms, slices, boost. Slices and Boost: the
--              queues after them. Rows, Overflow, Turns, Births, Deaths, Steps: the lengths of the queues.
--   Interrupts trap.c, the trap handlers around that part. Clock: a tick. Causes: killed processes.
--   Locks      spinlock.c, sleeplock.c, sched of proc.c. Exclusion: one lock, any interleaving.
--              Interrupts: matched push_off and pop_off.
--   Lifecycle  proc.c, allocpid to fork. Alloc: what allocproc returns. Boot: procinit, userinit.
--   Waiting    proc.c, sleep, wakeup, kill, exit, wait, waitx, update_time. Wakeup, Kill, Reap.
--   Sysproc    sysproc.c, and argint of syscall.c; growproc of proc.c. Alarm, Counts; Calls:
--              the calls that sleep, wait or exit.
--   Pipe       pipe.c. Fifo: a pipe as a list of bytes. Transfer: whole calls.
--   Kalloc     kalloc.c; memory is words by page. Chain: the free list.
--   Str        string.c. Move, Compare.
--   Ulib       ../user/ulib.c, the string routines of programs. Agree: against Str.
--   Syscalls   syscall.c, the arguments in user memory and the dispatch.
--   Vm         the operations of vm.c that proc.c calls, as an interface.
--   Paging     vm.c, the walk and the mappings. User: user page tables. Copy: copyout, copyin,
--              copyinstr, uvmfirst. KernelMap: kvmmake, with proc_mapstacks of proc.c, and the interface
--              Vm filled by vm.c. Lookup, Mapping: what a walk finds.
--   Buffers    bio.c. Unique: which buffer bread returns.
--   Log        log.c over a disk that may stop. Commit, Recover, Crash: a transaction and what recovery
--              makes of it. Absorb: log_write.
--   Fs         fs.c, the free map. Inodes, Content, Directories, Paths: the rest of fs.c. Start: fsinit.
--              Creation, Links: the calls of sysfile.c that change directories. Bitmap, Rounds, Allocation:
--              balloc and bfree. Table: iget. Elements: skipelem.
--   File       file.c, and argfd, fdalloc, sys_dup, sys_close of sysfile.c. Open: sys_open. Pipes: pipealloc,
--              sys_pipe. Transfer: reads and writes of inodes; Calls: by type of file. Counts, Descriptors: reference counts.
--   Console    console.c, and printint and printptr of printf.c. Input: the input buffer. Numbers: the digits.
--              Uart: the transmit buffer of uart.c.
--   Disk       virtio_disk.c. Descriptors: its functions on them. System: requests, interrupts and the device
--              in any order. Frame, Requests, Safe: the chains over its steps. Interrupt: the used ring.
--   Exec       exec.c, the headers and segments. Image: the user stack, and exec. Call: sys_exec of sysfile.c.
--              Stack: the bounds of the stack. Name: the name of the process. Refusal: what exec leaves.
--   Mkfs       ../mkfs/mkfs.c, the disk image. Build: its main. Freemap: its free map, as the kernel reads it.
--   Grep       ../user/grep.c, the matcher. Language: the patterns.
--   Sh         ../user/sh.c, the parser of the shell. Result: how its functions end. Words, Args, Ends: what
--              they take and return. Printer, Blocks, Single, Reads: the text of a command, and how it is read.
--   Prelude    tests on numbers, C arrays, searching loops, `Outcome` for code that may panic, integers.
--   Tests      the results at concrete states.
--
-- How they interact. The timer interrupt (Trap) and wakeup (Waiting) edit the queues of Queues, and a
-- turn of the scheduler (Sched) reads them. allocproc and freeproc take and return pages of Kalloc and
-- page tables of Vm. The alarm of Trap saves the trapframe in a page that sys_sigreturn of Sysproc
-- gives back. Pipes sleep and wake through Waiting. Fs sees the blocks as the cache of Buffers shows
-- them, and hands those that it changes to log_write of Log, whose calls it lists; a descriptor of
-- File names an entry of the file table, and that an inode of Fs. exec reads a program through Fs into
-- pages that Paging maps. A buffer that is not valid is read by Disk, whose processes sleep and wake
-- through Waiting, and the free map that Mkfs writes is the one from which Fs takes blocks.
--
-- Conventions. A routine that holds its locks throughout is one step (Locks is about the locks
-- themselves), and a routine that sleeps is cut at the sleep: `wait_round`, `sleep_round`, `pipewrite`
-- and `piperead` end there. `panic` is the value `panic` of `Outcome`. What runs between a context
-- switch and its return is a parameter (`sched`, `switch`). Signed fields that a user sets are
-- integers, and the sums of tickets wrap around at 32 bits; counters that only go up are natural numbers;
-- unsigned ints wrap at 2^32.
--
-- Bounds and fuel. Loops over the table take its 64 slots, loops over a queue its size. `boost_level`
-- is given as many rounds as the level has entries, which suffices since a round never makes the level
-- longer and its index goes up. `preempt` is given 4 rounds, since queue numbers are at most 3.
-- `freerange` is given one round for each page below the end. `strlen` is given a bound within which
-- the NUL lies, and so are the routines of Ulib. `map_pages` is given a round for each page below
-- MAXVA, where walk panics; `freewalk` is given the three levels that a page table has; copies between
-- kernel and user memory are given a round for each byte, and each round moves at least one. `balloc`
-- is given a round for each block of the map, and one more; `readi` and `writei` a round for each
-- byte; the loops over a directory one for each entry, and one more; namex one for each character of
-- the path, and one more. `printint` is given 32 rounds for its 32 bits. `loadseg` is given a round
-- for each page of the segment, and sys_exec one for each element of argv. `parsecmd` is given four
-- calls for each character of the text, and four more: of four calls in a row one takes a character.
-- `append_from` of Mkfs is given a round for each byte. `free_chain` is given a round for each
-- descriptor, and `intr_loop` one for each entry of the used ring. The disk of Log takes `power` more
-- writes and then stops.
--
-- Not modelled: the format loop of printf.c, devices and boot (the set-up of uart.c, plic.c,
-- ramdisk.c, main.c, start.c), and the user programs but grep's matcher and the shell's parser. The
-- disk's registers and the handshake of virtio_disk_init are left out. The file system is modelled for
-- one process at a time: a process that waits for another one's sleep lock is in Locks only. Files are
-- read and written with counts that are not negative.
pub mod Prelude
pub mod Kalloc
pub mod Vm
pub mod Proc
pub mod Queues
pub mod Sched
pub mod Trap
pub mod Lifecycle
pub mod Waiting
pub mod Sysproc
pub mod Pipe
pub mod Str
pub mod Locks
pub mod Ulib
pub mod Log
pub mod Paging
pub mod Disk
pub mod Buffers
pub mod Fs
pub mod Console
pub mod Syscalls
pub mod File
pub mod Exec
pub mod Mkfs
pub mod Grep
pub mod Sh
pub mod Interrupts
pub mod Tests
