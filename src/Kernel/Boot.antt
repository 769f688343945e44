-- ===== src/Kernel/Boot.antt =====
-- What `initialize_memory` leaves to the kernel.
use coronel.Base.{
  ℕ, ◌+◌, ◌*◌, ◌/◌, ◌^◌, ◌≤◌, ◌<◌, ◌≡◌, refl, true, false, bit_and, ltb, ◌==◌, arith, ◌∙◌, add64,
}
use coronel.Config.{align_up}
use coronel.Config.Align.{align_up_lem}
use coronel.Machine.{Machine, null, placement_kalloc}
use coronel.Physical
use coronel.Physical.Chain.{IsFreeList, Chain-mono, HasRoom}
use coronel.Physical.Setup.{frames_from, whole_pages, setup-frames_from, setup-placement}
use coronel.Virtual
use coronel.Virtual.Alloc.{alloc-create}
use coronel.Kernel.{Kernel, place, init_kernel_heap, initial_heap_size, kmalloc}
use coronel.Kernel.Manager.{
  MmapEntry, MultibootInfo, largest_region, managed, start_managers, initialize_memory,
  enough_memory,
}

init_kernel_heap-null :
    (k : Kernel)
    → k.g_kernel_heap ≡ null
    → (Virtual.alloc initial_heap_size k.heap.free_mem).0 ≡ null
    → init_kernel_heap k ≡ record k {
      heap = record k.heap { free_mem = (Virtual.alloc initial_heap_size k.heap.free_mem).1 };
    }
unfolding init_kernel_heap
init_kernel_heap-null k none_yet failed =
    let absent : (k.g_kernel_heap == null) ≡ true = ground (arith, none_yet) in
    let no_region : ((Virtual.alloc initial_heap_size k.heap.free_mem).0 == null) ≡ true =
      ground (arith, failed) in
    rw (absent, no_region) refl

-- The machine that `setup` starts from.
abbrev fresh : Kernel → Machine
fresh k = record k.heap.machine {
  placement = add64 (align_up k.heap.machine.placement) 16;
  physical_end = null;
  free_list = null;
}

-- The bytes that the boot takes from the placement pointer, for `n` page frames.
abbrev pub HasBootRoom : ℕ → Kernel → Type 0
HasBootRoom n k =
    (0 < k.heap.machine.placement) × (k.heap.machine.placement + n * 16 + 16384 < 2 ^ 64)

managed-IsFreeList :
    (start size : ℕ) (k : Kernel)
    → start + size + 4095 < 2 ^ 64
    → HasBootRoom (whole_pages start size) k
    → IsFreeList
        (managed (start, size) k).heap.machine
        (frames_from ((start + 4095) / 4096 * 4096) (whole_pages start size))
unfolding managed Physical.init placement_kalloc Virtual.create
managed-IsFreeList start size k small room =
    let up = align_up_lem k.heap.machine.placement (omega arith) in
    let has : HasRoom (whole_pages start size * 16) (fresh k) =
      (omega (arith, up), omega (arith, up)) in
    let listed = setup-frames_from start size (fresh k) small has refl in
    let at = setup-placement start size (fresh k) small has in
    let q = (Physical.setup start size (fresh k)).placement in
    let up' = align_up_lem q (omega (arith, at, up)) in
    Chain-mono (Physical.setup start size (fresh k)).frames q
      (add64 (add64 (add64 (align_up q) 24) 16) 16) (Physical.setup start size (fresh k)).free_list
      (frames_from ((start + 4095) / 4096 * 4096) (whole_pages start size))
      (omega (arith, at, up, up')) listed

managed-region :
    (region : ℕ × ℕ) (k : Kernel)
    → ((Virtual.alloc initial_heap_size (managed region k).heap.free_mem).0 ≡ null)
      × ((managed region k).g_kernel_heap ≡ k.g_kernel_heap)
unfolding managed align_up placement_kalloc Virtual.create
managed-region (start, size) k =
    ((alloc-create initial_heap_size k.heap.machine (omega arith) (omega arith)).0, refl)

start_managers_lem :
    (start size : ℕ) (k : Kernel)
    → start + size + 4095 < 2 ^ 64
    → HasBootRoom (whole_pages start size) k
    → k.g_kernel_heap ≡ null
    → IsFreeList
        (start_managers (start, size) k).heap.machine
        (frames_from ((start + 4095) / 4096 * 4096) (whole_pages start size))
      × ((start_managers (start, size) k).g_kernel_heap ≡ null)
unfolding start_managers
start_managers_lem start size k small room absent =
    let region = managed-region (start, size) k in
    let run = init_kernel_heap-null (managed (start, size) k) (region.1 ∙ absent) region.0 in
    rw run (managed-IsFreeList start size k small room, region.1 ∙ absent)

initialize_memory_enters :
    (info : MultibootInfo) (at : ℕ → MmapEntry) (start size : ℕ) (k : Kernel)
    → (bit_and info.flags 0x40 == 0) ≡ false
    → largest_region info at ≡ (start, size)
    → enough_memory ≤ size
    → initialize_memory info at k ≡ start_managers (start, size) k
unfolding initialize_memory
initialize_memory_enters info at start size k mapped region enough =
    let large : ltb size enough_memory ≡ false = ground (arith, enough) in
    rw (mapped, region, large) refl

-- The boot places the physical manager first.
managed-manager :
    (start size : ℕ) (k : Kernel)
    → (managed (start, size) k).g_physical_manager ≡ align_up k.heap.machine.placement
unfolding managed placement_kalloc
managed-manager start size k = refl

pub initialize_memory-manager :
    (info : MultibootInfo) (at : ℕ → MmapEntry) (start size : ℕ) (k : Kernel)
    → (bit_and info.flags 0x40 == 0) ≡ false
    → largest_region info at ≡ (start, size)
    → enough_memory ≤ size
    → k.g_kernel_heap ≡ null
    → (initialize_memory info at k).g_physical_manager ≡ align_up k.heap.machine.placement
unfolding start_managers
initialize_memory-manager info at start size k mapped region enough absent =
    let entered = initialize_memory_enters info at start size k mapped region enough in
    let (no_region, kept) = managed-region (start, size) k in
    let run = init_kernel_heap-null (managed (start, size) k) (kept ∙ absent) no_region in
    rw (entered, run) (managed-manager start size k)

kmalloc_placed : (n : ℕ) (k : Kernel) → k.g_kernel_heap ≡ null → kmalloc n k ≡ place n k
unfolding kmalloc
kmalloc_placed n k absent =
    let none_yet : (k.g_kernel_heap == null) ≡ true = ground (arith, absent) in rw none_yet refl

-- When the boot loader's flags announce a memory map, its largest region has 4 MB or more and does
-- not reach the end of the address space, the bump pointer is not null and has room below 2^64 for
-- 16 bytes for each whole page of the region and 16384 more, and there is no kernel heap so far,
-- the boot lists exactly the whole pages of that region as free. It ends without a kernel heap,
-- since the address space of the heap would start at 0: `kmalloc` then takes every request from
-- the placement pointer.
pub boot_without_heap :
    (info : MultibootInfo) (at : ℕ → MmapEntry) (start size : ℕ) (k : Kernel)
    → (bit_and info.flags 0x40 == 0) ≡ false
    → largest_region info at ≡ (start, size)
    → enough_memory ≤ size
    → start + size + 4095 < 2 ^ 64
    → HasBootRoom (whole_pages start size) k
    → k.g_kernel_heap ≡ null
    → IsFreeList
        (initialize_memory info at k).heap.machine
        (frames_from ((start + 4095) / 4096 * 4096) (whole_pages start size))
      × ((initialize_memory info at k).g_kernel_heap ≡ null)
      × ((n : ℕ) → kmalloc n (initialize_memory info at k) ≡ place n (initialize_memory info at k))
boot_without_heap info at start size k mapped region enough small room absent =
    let run = initialize_memory_enters info at start size k mapped region enough in
    let done = start_managers_lem start size k small room absent in
    rw run (done.0, done.1, (λ n. kmalloc_placed n (start_managers (start, size) k) done.1))
