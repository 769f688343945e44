-- ===== src/Kernel.antt =====
-- The kernel heap as the one global object, from src/kernel/memory/heap.cpp, and what stands in front of
-- it in src/kernel/memory/allocators.cpp.
pub mod Boot
pub mod Manager
pub mod Create
pub mod Regions
use coronel.Base.{ℕ, Bool, true, false, not, ◌||◌, List, ◌==◌, if◌then◌else◌, add64, sub64}
use coronel.Config.{align_up}
use coronel.Machine.{Machine, null, update, placement_kalloc}
use coronel.Virtual
use coronel.Heap.{Heap, heap_block, sizeof_heap_block}
use coronel.Heap.Pages.{map_pages, unmap_pages}
use coronel.Heap.Blocks

-- `sizeof(heap)`: ten words.
abbrev pub sizeof_heap : ℕ
sizeof_heap = 80

-- 1_MB
abbrev pub initial_heap_size : ℕ
initial_heap_size = 0x100000

-- What the constructor of the heap has set when it maps the pages.
abbrev pub created : ℕ → ℕ → Heap → Heap
created start initial_size s = record s {
  heap_start = start;
  heap_end = add64 start (align_up initial_size);
  heap_size = align_up initial_size;
  first_block = null;
  total_allocated = 0;
  total_free = 0;
  num_allocations = 0;
  num_frees = 0;
}

-- `heap::heap`. What it finds in memory are the fields `machine`, `free_mem`, `blocks` and `bytes`;
-- `heap_end_` is set, and no function but this one uses it.
unfoldable pub create_heap : ℕ → ℕ → Heap → Heap
create_heap start initial_size s =
    let size = align_up initial_size in
    let (mapped, s₁) = map_pages start size (created start initial_size s) in
    if not mapped then s₁ else record s₁ {
      first_block = start;
      blocks = update s₁.blocks start (heap_block (sub64 size sizeof_heap_block) true);
      total_free = sub64 size sizeof_heap_block;
    }

-- `heap::~heap`
unfoldable pub destroy_heap : Heap → Heap
destroy_heap s = unmap_pages s.heap_start s.heap_size s

-- The global pointers, and the memory. Before there is a heap, only the fields of `heap` that the
-- constructor reads mean anything.
pub record Kernel : Type 0 where
  pub g_physical_manager : ℕ
  pub g_kernel_virtual_manager : ℕ
  pub g_kernel_heap : ℕ
  pub heap : Heap

-- `placement_kalloc(size, true)` on the whole kernel.
abbrev pub place : ℕ → Kernel → ℕ × Kernel
place size k =
    let (at, _, m) = placement_kalloc size true k.heap.machine in
    (at, record k { heap = record k.heap { machine = m } })

unfoldable pub init_kernel_heap : Kernel → Kernel
init_kernel_heap k =
    let (heap_vaddr, free_mem₁) = Virtual.alloc initial_heap_size k.heap.free_mem in
    let k₁ : Kernel = record k { heap = record k.heap { free_mem = free_mem₁ } } in
    let (heap_obj_addr, k₂) = place sizeof_heap k₁ in
    if not (k.g_kernel_heap == null) then k else if heap_vaddr == null then k₁ else record k₂ {
      g_kernel_heap = heap_obj_addr;
      heap = create_heap heap_vaddr initial_heap_size k₂.heap;
    }

-- A method of the heap, run on the global object.
abbrev on_heap : (Heap → ℕ × Heap) → Kernel → ℕ × Kernel
on_heap f k = let (ptr, h) = f k.heap in (ptr, record k { heap = h })

unfoldable pub kmalloc : ℕ → Kernel → ℕ × Kernel
kmalloc size k = if k.g_kernel_heap == null then place size k else on_heap (Blocks.malloc size) k

unfoldable pub kfree : ℕ → Kernel → Kernel
kfree ptr k =
    if (k.g_kernel_heap == null) || (ptr == null)
    then k
    else record k { heap = Blocks.free ptr k.heap }

unfoldable pub krealloc : ℕ → ℕ → Kernel → ℕ × Kernel
krealloc ptr new_size k =
    if k.g_kernel_heap == null then (null, k) else on_heap (Blocks.realloc ptr new_size) k

unfoldable pub kcalloc : ℕ → ℕ → Kernel → ℕ × Kernel
kcalloc num size k =
    if k.g_kernel_heap == null then (null, k) else on_heap (Blocks.calloc num size) k

unfoldable pub kmalloc_aligned : ℕ → ℕ → Kernel → ℕ × Kernel
kmalloc_aligned alignment size k =
    if k.g_kernel_heap == null then (null, k) else on_heap (Blocks.aligned_alloc alignment size) k

-- `kalloc` and `kfree` of the placement allocator.
unfoldable pub kalloc : ℕ → Kernel → ℕ × Kernel
kalloc size k = if not (k.g_kernel_heap == null) then kmalloc size k else place size k

unfoldable pub kfree_any : ℕ → Kernel → Kernel
kfree_any addr k = if not (k.g_kernel_heap == null) then kfree addr k else k
