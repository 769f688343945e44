-- ===== src/Lib.antt =====
-- Verification of coronel, a small 64-bit kernel for amd64. The C++ code under src/kernel is modelled by
-- functions that pass the state on; paths below are from the repository's root.
--
-- The parts and how they interact. A bump pointer (src/kernel/memory/allocators.cpp) hands out memory
-- for page tables and for the nodes of the lists. The physical manager (physical.cpp) keeps the free
-- page frames as a stack of such nodes, the virtual manager (virtual.cpp) the free address ranges as a
-- list. The kernel heap (heap.cpp) takes ranges from the second and frames from the first, maps them
-- through the page tables (src/kernel/arch/amd64/memory/paging.cpp), and cuts them into blocks; the
-- allocator of a process (user_allocator.cpp) does the same for its own page directory. At boot
-- memory_manager.cpp picks the region for the physical manager, starts the managers and asks for the
-- kernel heap; kmalloc and kfree use the heap where there is one. The screen and the drivers stand
-- beside these, and kmain (src/kernel/main.cpp) starts them all.
--
-- The files:
--   Base, Base/...    tests, lists, fixed-width integers and bit masks that the others share.
--   Config            src/kernel/config.hpp: page arithmetic.
--   Machine           the shared memory, the bump pointer and the fields of the physical manager.
--   Physical          src/kernel/memory/physical.cpp: setup, alloc, alloc(blocks), free;
--                     Physical/Trace the callers that hold frames, as a step relation.
--   Virtual           src/kernel/memory/virtual.cpp: both alloc, free, and the copies.
--   Ilist             src/kernel/libs/ilist.hpp: the linked list at addresses; the other modules use the
--                     list of its values.
--   Paging            src/kernel/arch/amd64/memory/paging.cpp: get_page, map, unmap and the directories;
--                     Paging/Boot is pagetable.cpp beside it, map_kernel_memory.
--   Memory            src/kernel/libs/string.hpp: the byte loops.
--   Heap              src/kernel/memory/heap.hpp and heap.cpp: Heap/Pages maps and unmaps, Heap/Blocks has
--                     the operations on blocks, Heap/Chain the list of blocks as an abstract list,
--                     Heap/Grow the growth of the heap, Heap/Trace a client that calls malloc and
--                     free, as a step relation.
--   Kernel            the global heap: its constructor, init_kernel_heap and the kmalloc family of
--                     heap.cpp, kalloc and kfree of allocators.cpp; Kernel/Manager is
--                     src/kernel/memory/memory_manager.cpp with the boot loader's structures.
--   Number            src/kernel/libs/stdlib.hpp: itoa, and printd and printx of the screen.
--   User              src/kernel/memory/user_allocator.hpp and user_allocator.cpp; User/Lifetime is the
--                     constructor and cleanup_all of process_memory over the kernel heap, User/View
--                     sees the user blocks as blocks of the kernel heap, and User/Trace is a process
--                     that calls malloc and free, as a step relation.
--   Screen            src/kernel/arch/iprotected_mode.hpp and amd64/video/protected_mode.cpp beside it.
--   Drivers           src/kernel/drivers: timer, keyboard and PCI; Drivers/Ports is the access to ports of
--                     src/kernel/arch/amd64/amd64.hpp and the writes of PCI.
--   Interrupts        src/kernel/arch/amd64/bootstrap/segments.cpp and irq.cpp.
--   Main              src/kernel/main.cpp, with src/kernel/archs.hpp and the constructor of
--                     src/kernel/arch/amd64/amd64.cpp; Number/Print is print of the screen.
--   Tests             the theorems applied to concrete states.
--
-- Conventions. An operation has the name of its C++ function; an overload has a name of its own
-- (alloc_blocks and alloc_at for alloc(size_t) of physical and alloc(vaddr_t, size_t) of virt). A pointer
-- is its address, 0 for a null pointer. uint64_t, size_t and uintptr_t wrap at 2 ^ 64 and uint32_t at
-- 2 ^ 32, written out in Base/Word. Each kind of object in memory (list node, table word, block header,
-- byte) has its own map from addresses, so objects of different kinds never overlay one another, with one
-- exception: get_arch places too few bytes for the object of amd64, and a run of kmain that writes over its
-- fields ends as covered in the model. What itoa writes behind the end of its buffer is reported as an
-- overrun, with no effect on other memory.
-- Calls of lib::log and the flush of the translation buffers leave the state as it is.
--
-- Loops that count are recursion on the rounds left. Loops along block links have fuel: the size of
-- the heap in bytes, since every block takes at least the bytes of its header; the scan of the memory
-- map has one round for each byte of the map, since an entry takes 4 bytes at least; itoa has 64 digits;
-- strlen takes its fuel as an argument, and the scan of the PCI buses a bound on the bridges passed.
--
-- Not modelled: assembly code and inline assembly (boot.S, isr.S, syscall.S, instructions.cpp), whose
-- entry points and ports are parameters or lists of writes here; the C++ runtime (icxxabi.cpp is copied
-- from a wiki, the rest are one-line definitions); the stubs of the system calls; task.hpp, which has
-- no implementation.
pub mod Base
pub mod Config
pub mod Machine
pub mod Physical
pub mod Virtual
pub mod Paging
pub mod Memory
pub mod Heap
pub mod Drivers
pub mod Ilist
pub mod Interrupts
pub mod Kernel
pub mod Main
pub mod Number
pub mod Screen
pub mod User
pub mod Tests
