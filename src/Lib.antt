-- ===== src/Lib.antt =====
-- hoo, a small x86 kernel in C: its scheduler, its allocators of numbers, pages and address
-- ranges, the nodes, queues and lists they stand on, the file system from its blocks to its
-- files, the keyboard and the screen.
--
-- The parts and how they meet: the bitmap hands out numbers, and physical pages, metadata pages,
-- thread ids and file descriptors are each a bitmap and, but for the descriptors, a spinlock. The
-- scheduler keeps the tasks in two queues and two lists of nodes. The keyboard's interrupt
-- handler puts characters into a ring buffer, which wakes the tasks that sleep on it. Formatted
-- output makes the characters that the screen prints. A path leads through directories to an
-- inode, a descriptor of the task to an entry of the open files and from there to the inode,
-- whose blocks the bitmap of the disk hands out.
--
-- - Base (Tests, Lists, Failure): shared names, Boolean tests, lists, and Outcome, what a kernel
--   routine ends in.
-- - UserLib: user/lib.c. A pointer is a list of bytes and an index; an access past the list is a
--   fault. UserLib.Memory says what memset leaves, UserLib.Strings what strcmp decides.
-- - Bitmap: kern/utilities/bitmap.c. Bits has the bit tables, Invariant the set that a bitmap
--   stands for, Scan the search, Setup bitmap_init, Claim a search followed by bitmap_set.
-- - Spinlock: kern/utilities/spinlock.c and spinlock.h; Exclusion has the steps of several flows
--   of control that wait for one lock.
-- - Heap: kern/utilities/node.h, a heap of nodes by address and the commands over it. Access,
--   Chain and Splice have the lemmas that Queue and LinkedList share.
-- - Queue (Fifo, HeadPush): kern/utilities/queue.c. LinkedList (Seq): kern/utilities/list.c.
-- - Tasks (Conserve, Wakeup, Kill, Fair, Sleep, Start): kern/sched/tasks.c, with kern_exec of
--   kern/kern.c as kill_rounds and timer of kern/intr/routine.c as ticks. The queues and lists
--   are the sequences that Queue.Fifo and LinkedList.Seq show of the nodes.
-- - Mem (Pm, VmKern): kern/mem/pm.c and kern/mem/vm_kern.c. Vm: kern/mem/vm.c and vspace.h, the
--   ranges of an address space as a list; Cover has the addresses in them, Fresh, First and
--   Restore the allocation and the release. Page: kern/page and the page tables of kern/mem/pm.c;
--   Bits and Window lead to the addresses of the entries, Map is on set_mapping, Start on
--   paging(). Fmtlist: kern/mem/format_list.c, with Cut, Reuse and Lost; Metadata:
--   kern/mem/metadata.c; Dyn (Reuse): kern/dyn/dynamic.c with the managers of kern/mem/bucket.c
--   and kern/hoo/thread_bucket.c.
-- - Threads (Tid, Fmngr): kern/hoo/thread_tid.c, kern/fs/fmngr.c and kern/hoo/thread_fmngr.c.
-- - Ring (Fifo): kern/utilities/circular_buffer.c. Keyboard (Decode): kern/driver/8042/8042.c.
-- - Fs: Blocks and Layout are kern/fs/super_block.c and kern/fs/free.c, Inodes is
--   kern/fs/inodes.c with Handle, Levels, FirstLevel, SecondLevel and Roundtrip on the blocks of
--   a file. Volume adds the maps and the inodes on disk, and Restart what a later start finds.
--   Dir is kern/fs/dir.c: Item and Search on the search for a name, Find, Change and Cwd the
--   paths, the items and the current directory, Rounds the rounds that the search for a path
--   needs. Files is kern/fs/files.c: Names has the operations on paths, Bytes, Sectors, Reads,
--   Direct and Roundtrip lead from a sector to a file that is written and read, Table is on the
--   open files.
-- - Ata (Polling, Registers): kern/driver/ata, the table of devices, the registers with the 28
--   bits of a sector number, the polling driver and the identification data.
-- - Gdt (Fields): kern/desc/gdt.c and desc.h. Pic (Enabled): kern/driver/8259a/8259a.c. CacheBuff
--   (Text): kern/utilities/cache_buff.c. Curdir (Separator): kern/utilities/curdir.c.
-- - Cga (Scroll, Bounds, Paper, Printed): kern/driver/cga/cga.c; Paper is the sheet that the
--   screen is a part of. Format (Digits, Pieces): kern/utilities/format.c.
--
-- A function of the source has the name of its C function without the prefix of its file. A
-- uint32_t is a number below 2 ^ 32 with its wrap-around written out where it can wrap; an int
-- that the source compares is its 32-bit pattern. What the processor makes of the page tables is
-- Mem.Page.translate. A panic and a halt end a routine; a wait for a lock that is held spins,
-- since nobody gives it back in the same flow of control. The null pointer of the kernel is an
-- address that its linker chooses, and is a parameter where the code compares with it; a guard
-- against a null object has no counterpart for an object that is passed as a value.
--
-- Loops recurse on what they consume. The search of a bitmap has one round for each bit; the
-- loops of wakeup and kill have one round more than the list has tasks, and each round takes a
-- task out or steps over one; outputdig has 33 rounds for the 32 bits of a number; the loop
-- behind a backspace has a round for each uint16_t index, behind which it would go round for
-- ever; the search for a path has a round for each character; the removal of a directory takes
-- the levels of directories below it as its fuel, and more levels than that are a fault, as they
-- overflow the stack of the kernel; files_read and files_write have the rounds that their loops
-- count.
--
-- Not modelled: the disk itself, which for the file system is a function from sectors to words,
-- with the detection of devices and the requests behind its interrupt; fork, exit and the loading
-- of programs; the buffers that the file system takes from dyn_alloc are values there; the boot
-- sector, the interrupt entries and the context switch, which are assembly; the programs of
-- user/, which make system calls. The port input and output of the drivers is an argument or a
-- field of the state.
pub mod Base
pub mod UserLib
pub mod Spinlock
pub mod Bitmap
pub mod Heap
pub mod Queue
pub mod LinkedList
pub mod Tasks
pub mod Mem
pub mod Threads
pub mod Ring
pub mod Keyboard
pub mod Ata
pub mod Cga
pub mod Format
pub mod CacheBuff
pub mod Curdir
pub mod Fs
pub mod Gdt
pub mod Pic
