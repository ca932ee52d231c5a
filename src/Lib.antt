-- ===== src/Lib.antt =====
-- FarouKernel: a model of C components of the kernel, its memory, its tasks, its devices and its
-- command server, with the theorems that make them correct.
--
-- The parts. Each is a component of its own, with its state in a record and its operations as
-- functions on that state:
-- - Pmm: kernel/arch/x86_64/mm/pmm.c and pmm.h, the allocator of physical memory blocks. `State`
--   is `pmm_state_t`; every function but the debug dump is a definition of the same name. Blocks
--   has the loops over the bitmap, Invariant the allocation, Release the freeing and its inverse,
--   Aligned the aligned allocation, Region the marking of byte ranges.
-- - Bitmap: the words of a bitmap as bits, and the number of bits that are set, which Pmm and
--   Frames use.
-- - Frames: the frame allocator of kernel/memory.c. Search has the search for a free frame,
--   Allocate the allocation, Release the freeing.
-- - Vmm: the page tables of kernel/memory.c, on top of Frames. `Memory` is the frame allocator
--   with the words of each frame; `vmm_map_page` and `vmm_unmap_page` are the functions of these
--   names. Tree has the tables as a tree and the walk of the processor; Keeps, Grow, Walk, Leaf
--   and Mapping the mapping of a page; Prune, Clean and Unmapping the unmapping with the tables
--   that become empty; RoundTrip both.
-- - Heap: the kernel heap of kernel/memory.c, on top of Vmm. `Heap` holds the headers by address
--   and the free list; Kmalloc has `kmalloc` and `kfree`. Layout has the order of the free blocks;
--   Insert, Coalesce and Merge a block that becomes free; Fit, Carve and Split a block that is
--   handed out; Expand and Region the expansion; Invariant `kfree`, Alloc `kmalloc` and RoundTrip
--   both.
-- - Loader: kernel/startup.c, the loader of an ELF file: the checks of its header and the
--   segments. Segments has one turn of the loop, Loads the whole loop.
-- - Multiboot: kernel/bootloader/src/core/multiboot2_parser.c, the search for a tag (Tags) and the
--   loop over the memory map (Entries).
-- - Interrupts: kernel/interrupts.c, the table of interrupt descriptors (Gates) and the way of an
--   interrupt through its stub (Stubs), with the words that the stub pushes and pops.
-- - Pic: kernel/arch/x86_64/interrupts/pic.c and irq.c, the interrupt controllers: Masks has the
--   masks of the lines, Irq the handlers and the ends of interrupts. The ports are a record of
--   functions, and the data ports are taken to keep what is written, as the controller documents.
-- - FileTask: fs/read_write.c, the worker that writes a file and reads it back. `process_file` is
--   the worker; Loops has its two loops with their retries, Process the whole task.
-- - Scheduler: kernel/scheduler.c, the task table. `Tcb` and `Scheduler` are the structures of
--   these names; Slots has the table and its searches, Compact the reaper, Invariant the creation
--   and the end of tasks, Manager a turn of the manager thread, Reach all interleavings of these
--   steps and the answers of `kernel_create_thread`.
-- - Device: kernel/mydevice.c and mydevice.h, a device that is a buffer of bytes. Ioctl has
--   `my_ioctl`, Invariant the transfers, Transfers a read after a write and reads in pieces,
--   Control the initialisation and the commands, Reach any sequence of calls.
-- - Devfs: fs/devfs.c, a file system with one file in memory. Files and Writes have the reads and
--   the writes, Echo a read after a write and any sequence of calls, Mount the inodes and the
--   mount, Root what a mount leaves.
-- - Network: net/network.c, the command server. Limiter has the rate limiter, with its loop in
--   State and Sweep and the policy that it implements in Walk and Policy; Text the cleaning, the
--   check and the answer of a request; Wire the loops that receive and send; Session a whole
--   session; Queue the work queue, with its linked items in Chain and its calls in Fifo.
-- - Bytes: buffers of bytes and `memcpy`, which Device, Devfs and Network share. Base has what all
--   share: tests, lists, integers and machine words.
--
-- How code becomes a model. A number is a natural number, and an operation that wraps at 2^64 or
-- 2^32 is written with its wrap (add64 and sub64 of Base.Word). A fault, that is an access outside
-- an array or a division by zero, is `none`, so a theorem that gives a result also says that there
-- is no fault. A pointer argument that may be NULL is an option, and an address is a number. Where
-- a function holds a lock through its body, it is one step on the state; the interleavings of the
-- scheduler are the sequences of such steps. What the host system or the kernel around the code
-- answers (malloc, sysconf, pthread_create, new_inode, select, recv, send, read, write) is an
-- argument, and a theorem is about all answers; `mmap`, `mprotect` and `memcpy` in the loader
-- change memory as POSIX says, and the mapped file is taken to lie apart from the segments; the
-- copies to and from user memory in Devfs are a record of functions with the laws that the kernel
-- documents, and `d_make_root` and `iput` count references as it documents.
--
-- Loops are structural recursion on the rounds that are left, or on the answers that are still to
-- come, so there is no fuel to run out of: the search of the allocator runs to the end of the
-- memory, the reaper over its 64 slots, the aligned allocation over its three attempts, the walks
-- of the page tables over their levels. There are two exceptions. `kmalloc` calls itself after it
-- has expanded the heap: its model takes the number of calls that may be nested, and two are
-- enough; the retry is taken to follow at once, although the lock is free in between. The loops of
-- Multiboot follow data that nothing bounds: their models take a number of rounds, one more than
-- there are tags or entries is enough, and `none` stands for a loop that is still running.
--
-- What is not modelled: printing and logging, the parts in C++ and assembly (but the stubs in
-- kernel/interrupts.c), register access, the ports but for those of Pic, and these parts of the C
-- code: the start-up of kernel/memory.c from the boot protocol, the page tables of kernel/arch,
-- the system calls, the rest of the boot code, and of the command server the threads that wait on
-- the work queue. Signed overflow of a request count, of a time or of a priority is undefined in C
-- and left out. The scheduler is followed as long as its 32-bit identifiers do not run out.
pub mod Base
pub mod Bytes
pub mod Bitmap
pub mod Devfs
pub mod Device
pub mod FileTask
pub mod Frames
pub mod Interrupts
pub mod Multiboot
pub mod Network
pub mod Pic
pub mod Pmm
pub mod Scheduler
pub mod Vmm
pub mod Heap
pub mod Loader
