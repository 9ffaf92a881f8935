-- ===== src/Lib.antt =====
-- A verification library of GoshkikOS, a kernel for x86_64 in C: its models of the source, and
-- what is proved of them. Paths are from the repository's root.
--
-- Klibc is the kernel's own part of a C library, on a byte-addressed memory (a function from
-- addresses to bytes) that each function takes and returns.
-- * Klibc/Mem is src/klibc/kmem/mem.c. Its loops count the rounds that are left.
-- * Klibc/Str is src/klibc/kmem/string.c. A loop that runs to a NUL takes fuel and returns none
--   without it; IsString n p m says that a string of length n stands at p, and more fuel than n
--   is enough.
-- * Klibc/Heap is src/klibc/kmem/kheap.c: block headers are cells of a memory, pages come from
--   Arch/Pmm, and each call of vmm_map is recorded. IsHeap h bs top says that the blocks bs tile
--   the heap up to top; it asks nothing of heap_current, which init_kheap leaves at the start of
--   the first block. One unit of fuel more than the blocks is enough for a search, two for the
--   merging pass.
-- * Klibc/Hashtable is src/klibc/kmem/hashtable.c: entries are cells that are linked both ways,
--   and a table stands for a finite map (IsTable and view of Klibc/Hashtable/Table). More fuel
--   than a bucket has entries is enough. What slab_alloc and kmalloc return is a list in the
--   state, and a fresh address is one where no entry stands.
-- * Klibc/Slab is src/klibc/kmem/slab.c, over Arch/Vmm and Arch/Pmm: headers of pages and the
--   first words of objects are cells, and FreeList of Klibc/Slab/FreeList is the list of free
--   objects that they link. Klibc/Slab/Layout has the places of the objects in a page. What
--   kmalloc returns is a list in the state. Fuel is for the walks along the lists of slabs; one
--   more than the slabs before the one that is looked for is enough.
-- * Klibc/Printf is src/klibc/printf.c: what kputc gets is a list of characters, the arguments
--   are a list, and the bytes of the local array of kprintnp before the call are a parameter. A
--   run that goes outside of its format, arguments or buffers ends in outside, and the length of
--   the format is the fuel of the loop.
--
-- Arch is what the kernel needs of the processor and its chips, under src/arch/x86_64.
-- * Arch/Timer is cpu/timer/timer.c: the calendar clock and the monotonic counter, with the
--   widths of their fields.
-- * Arch/Pit and Arch/Pic are cpu/pit/pit.c and cpu/pic/pic.c; the bytes that are written to
--   ports are a list, and what is read from a port is a parameter.
-- * Arch/Idt is cpu/idt/idt.c and src/scheduling/syscall.c, with the addresses of the assembly
--   stubs as parameters; Arch/Gdt is cpu/gdt/gdt.c.
-- * Arch/Mmu is the search of the memory map in mem/mmu/mmu.c, and Arch/Pmm, which calls it, the
--   page allocator mem/pmm/pmm.c over its bitmap of bytes.
-- * Arch/Vmm is mem/vmm/vmm.c: a table is a function from indices to entries under its physical
--   address, and IsVmm says that the tables form a tree whose tables are no free pages. resolve
--   of Arch/Vmm/Tree is the map of addresses that the tables stand for, and translate of
--   Arch/Vmm/Resolve the same in numbers without masks. Running out of pages, where the kernel
--   halts, is fault; the walk goes down three levels, and a range takes its number of pages as
--   rounds.
-- * Arch/Serial is serial/serial.c with the keyboard controller of ps2/ps2.c and
--   ps2/keyboard/kbd.c: what the ports give is a list, and a driver that still waits at its end
--   is out of fuel.
--
-- Sched is src/scheduling: threads and processes are cells of two heaps, a pointer is an address
-- and NULL is 0. A function is a computation in the monad M of Sched/State over the record
-- Kernel, which holds the kernel table and the static variables, and ends in an Outcome: with a
-- result, by switching away for good, halted, spinning on a lock that is held, at a bad pointer,
-- or without fuel. thread_block is declared noreturn and ends in switched, so that no code behind
-- it runs. Fuel bounds the loops along lists and the nesting of acquire_mutex and thread_block; a
-- walk along a queue needs one unit more than the queue has threads.
-- * Sched/Queue is the ready queue of scheduler.c, with the list of threads that it stands for in
--   Sched/Queue/Seg.
-- * Sched/Mutex is mutex.c with thread_block of thread.c, Sched/Lookup the lookups of process.c
--   and the waking of threads, Sched/Thread and Sched/Ending are thread.c, Sched/Process is
--   process.c, and Sched/Tick is scheduler_tick with context_switch.asm.
-- * kmalloc gives the addresses of a list that is part of the state, and kfree empties the cell;
--   the heap of Klibc/Heap is not put under it.
--
-- Fs/Vnode is src/fs/vfs/vnode.c, with vfs_purge_vnodes in Fs/Vnode/Purge, over the table of
-- Klibc/Hashtable: the vnode cache in Fs/Vnode/Cache and its keys in Fs/Vnode/Keys. What a file
-- system does in vfs_vget and vn_inactive is a parameter. One fuel is for the walk along a
-- bucket, another for the chain of parents that vnode_unref gives up. Fs/Path is the name cache
-- of src/fs/vfs/path.c, with the bytes of the stack under a key as a parameter. Fs/Mount is
-- src/fs/vfs/vfs.c: the operations of a file system are parameters, and Fs/Mount/Table has the
-- paths that lead to mounts.
--
-- Vterm is src/vterm/vterm.c: the frame buffer is a function from indices to words, and the font
-- is a parameter. IsVterm of Vterm/Bounds says that the cursor is on the screen.
--
-- Prelude has the notation, the list functions over the native numbers, the bits of bytes, & and
-- | of wider numbers, the memory, and Run, the result of a computation over a state: done, fault
-- at a bad pointer, or out_of_fuel.
--
-- Not modelled: init_vfs and namei_get_root_vnode, the dispatch of exceptions and interrupts, the
-- table of glyphs, main.c, and the assembly but for context_switch. The headers of the boot
-- loader and of the C library come from other projects. Console messages, the interrupt flag, the
-- spinlocks of printing and of the caches, and the fields that nothing reads are left out of the
-- functions that are modelled.
pub mod Prelude
pub mod Arch
pub mod Klibc
pub mod Fs
pub mod Vterm
pub mod Sched
