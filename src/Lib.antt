-- ===== src/Lib.antt =====
-- PrOS, a small operating system kernel in C: models of its core, and what is proved of them.
--
-- Each part is a module named for it, whose file holds the state as a record and one function for
-- each function of the source; its children hold the specification and the proofs, and a child
-- `Tests` holds concrete runs.
--
--   Common      lists, words of 64 bits, intrusive linked lists, shared by the other modules
--   Memory      kernel/src/core/memory.c
--   RingBuffer  kernel/src/core/ring_buffer.c
--   Ldisc       kernel/src/core/ldisc.c
--   Pmm         kernel/src/mm/pmm.c
--   Heap        kernel/src/mm/heap.c
--   Arch        kernel/include/arch/arch.h, the page table part, with kernel/src/arch/x86_64/arch.c and
--               kernel/src/arch/aarch64/arch.c
--   Vmm         kernel/src/mm/vmm.c
--   Uaccess     kernel/src/mm/uaccess.c
--   Kstack      kernel/src/proc/kstack.c
--   Sched       kernel/src/proc/sched.c, with the spinlock of kernel/src/core/spinlock.c and the
--               tests on tasks of kernel/src/proc/task.c
--   Vfs         kernel/src/fs/vfs/vfs.c: the mounts, and in Vfs.Walk the walk along a path
--   Ramfs       kernel/src/fs/ramfs/ramfs.c: the data of files, and in Ramfs.Dirs the directories
--   File        kernel/src/fs/vfs/file.c: open files; File.Io reads and writes, File.Dents lists
--
-- How the source is read. A C function that writes through a pointer returns the new value of what
-- the pointer points to. A pointer argument that the code tests for NULL is an `Option`, or a number
-- with 0 for NULL where the code computes with it. Unsigned arithmetic of 64 bits is written with its
-- wrap (`add64`, `sub64`, `mul64`). Linked structures are a store, a `next` field at each address. A
-- `while` loop runs on fuel, given by the caller as a number; the theorems about such a function say
-- how much is enough (more than the nodes of the list that it walks).
--
-- How the parts meet. Vmm works on what an architecture gives (`Mmu`), under its laws (`MmuLaws`),
-- which both architectures fulfil. Its free pages are a list in the order in which Pmm hands them
-- out; the tables themselves are found by their levels (`Shape`). Heap and Kstack take their pages
-- from Pmm; Kstack writes a stack and its guard byte by byte, and Sched asks it whether a frame and
-- a guard are those of a task. Uaccess copies with Memory, and Vfs and Ramfs, whose strings are
-- lists, compare by the list form of `strncmp` that Memory.Strings relates to the one on addresses;
-- the walk along a path asks the operations that a file system gives (`VfsOps`), which Ramfs.Dirs
-- is an instance of, and so does File. Ramfs takes its pages from Pmm and its tables from the heap;
-- of both it keeps only whether they gave memory, since a page that a file has is its alone. A
-- function of Sched that switches stacks is cut at the switch: Sched.Machine joins the pieces, as
-- steps.
--
-- Not modelled: the loading of programs, the dispatch of system calls, the creation of tasks, the console
-- device (each of them a part with logic of its own), and the devices, the boot code, the assembly and
-- the output, which have little. Concurrency of several CPUs is left out: the kernel starts one.
pub mod Arch
pub mod Common
pub mod File
pub mod Heap
pub mod Kstack
pub mod Ldisc
pub mod Memory
pub mod Pmm
pub mod Ramfs
pub mod RingBuffer
pub mod Sched
pub mod Uaccess
pub mod Vfs
pub mod Vmm
