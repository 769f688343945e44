-- ===== src/User/Lifetime.antt =====
-- The constructor of `process_memory` and `cleanup_all`, over the kernel: src/kernel/memory/user_allocator.cpp.
use coronel.Base.{ℕ, ◌==◌, if◌then◌else◌}
use coronel.Machine.{Machine, null}
use coronel.Memory.{Bytes}
use coronel.Virtual
use coronel.Kernel
use coronel.Kernel.{Kernel, kmalloc}
use coronel.User.{UserHeap, UserBlocks}
use coronel.User.Blocks.{user_allocator, cleanup_on_exit}
use coronel.User.Process.{ProcessMemory}

-- `sizeof(user_allocator)`: five pointers and two `uint32_t`.
abbrev pub sizeof_user_allocator : ℕ
sizeof_user_allocator = 48

-- The kernel over another state of the memory.
abbrev pub on_machine : Machine → Kernel → Kernel
on_machine m k = record k { heap = record k.heap { machine = m } }

-- The process, its heap, and the kernel.
unfoldable pub process_memory : ℕ → UserBlocks → Bytes → Kernel → ProcessMemory × UserHeap × Kernel
process_memory page_dir blocks bytes k =
    let (regions, m₁) = Virtual.create k.heap.machine in
    let (heap, k₂) = kmalloc sizeof_user_allocator (on_machine m₁ k) in
    let u = user_allocator page_dir blocks bytes k₂.heap.machine in
    (
      record {
        page_directory = page_dir;
        virtual_manager = regions;
        heap = heap;
        stack_top = null;
        stack_size = 0;
        code_start = null;
        code_size = 0;
        data_start = null;
        data_size = 0;
      },
      u,
      on_machine u.machine k₂,
    )

unfoldable pub cleanup_all : ProcessMemory → UserHeap → Kernel → ProcessMemory × UserHeap × Kernel
cleanup_all p u k =
    let u₁ = cleanup_on_exit (record u { machine = k.heap.machine }) in
    if p.heap == null
    then (p, u, k)
    else (record p { heap = null }, u₁, Kernel.kfree p.heap (on_machine u₁.machine k))
