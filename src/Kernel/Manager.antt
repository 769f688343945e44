-- ===== src/Kernel/Manager.antt =====
-- src/kernel/memory/memory_manager.cpp: the region that the physical manager is given, and the start of
-- the managers. The memory map is read through `at`, what stands at an address as an entry of
-- src/kernel/libs/multiboot.hpp. The sum of all memory is only logged, and left out.
use coronel.Base.{
  ℕ, zero, suc, ◌+◌, ◌*◌, not, ◌&&◌, bit_and, ltb, ◌==◌, if◌then◌else◌, u32, add64, sub64,
}
use coronel.Config.{kvirtual_address}
use coronel.Machine.{null}
use coronel.Physical
use coronel.Virtual
use coronel.Kernel.{Kernel, place, init_kernel_heap}

-- `multiboot_mmap_entry`
pub record MmapEntry : Type 0 where
  pub size : ℕ
  pub addr : ℕ
  pub len : ℕ
  pub type : ℕ

-- The fields of `multiboot_info` that are read.
pub record MultibootInfo : Type 0 where
  pub flags : ℕ
  pub mem_lower : ℕ
  pub mem_upper : ℕ
  pub mmap_length : ℕ
  pub mmap_addr : ℕ

-- 8_MB
abbrev pub kernel_end : ℕ
kernel_end = 0x800000

-- What an entry makes of the start and the size of the largest region so far.
unfoldable pub consider : MmapEntry → ℕ × ℕ → ℕ × ℕ
consider e (start, size) =
    let end = add64 e.addr e.len in
    let available_size = sub64 end kernel_end in
    if not (e.type == 1)
    then (start, size)
    else if ltb e.addr kernel_end
    then if ltb kernel_end end && ltb size available_size
      then (kernel_end, available_size)
      else (start, size)
    else if ltb size e.len
    then (e.addr, e.len)
    else (start, size)

-- The loop over the map, by the rounds that it may take.
unfoldable pub scan_map : ℕ → (ℕ → MmapEntry) → ℕ → ℕ → ℕ × ℕ → ℕ × ℕ
scan_map zero at mmap mmap_end best = best
scan_map (suc n) at mmap mmap_end best =
    let rest = scan_map n at (add64 mmap ((at mmap).size + 4)) mmap_end (consider (at mmap) best) in
    if ltb mmap mmap_end then rest else best

-- Each round moves on by 4 bytes at least.
unfoldable pub largest_region : MultibootInfo → (ℕ → MmapEntry) → ℕ × ℕ
largest_region info at =
    scan_map (suc info.mmap_length) at (add64 info.mmap_addr kvirtual_address)
      (add64 (u32 (info.mmap_addr + info.mmap_length)) kvirtual_address) (null, 0)

-- The region without a memory map; the product is one of `uint32_t`.
unfoldable pub upper_region : MultibootInfo → ℕ × ℕ
upper_region info = (kernel_end, sub64 (u32 (info.mem_upper * 1024)) 0x700000)

-- The managers over a region, in front of the call of `init_kernel_heap`.
unfoldable pub managed : ℕ × ℕ → Kernel → Kernel
managed (start, size) k =
    let (phys_mgr_addr, k₁) = place 16 k in
    let m₁ = Physical.setup start size (Physical.init k₁.heap.machine) in
    let k₂ : Kernel = record k₁ {
      g_physical_manager = phys_mgr_addr;
      heap = record k₁.heap { machine = m₁ };
    } in
    let (virt_mgr_addr, k₃) = place 24 k₂ in
    let (free_mem₁, m₂) = Virtual.create k₃.heap.machine in
    record k₃ {
      g_kernel_virtual_manager = virt_mgr_addr;
      heap = record k₃.heap { machine = m₂; free_mem = free_mem₁ };
    }

unfoldable pub start_managers : ℕ × ℕ → Kernel → Kernel
start_managers region k = init_kernel_heap (managed region k)

-- 4_MB
abbrev pub enough_memory : ℕ
enough_memory = 0x400000

unfoldable pub initialize_memory : MultibootInfo → (ℕ → MmapEntry) → Kernel → Kernel
initialize_memory info at k =
    let mapped = largest_region info at in
    let upper = upper_region info in
    if not (bit_and info.flags 0x40 == 0)
    then if ltb mapped.1 enough_memory then k else start_managers mapped k
    else if not (bit_and info.flags 0x01 == 0)
    then if ltb upper.1 enough_memory then k else start_managers upper k
    else k

-- `memory_stats`, the fields that are set: the heap's size and what is allocated of it.
unfoldable pub get_memory_stats : Kernel → ℕ × ℕ
get_memory_stats k =
    if not (k.g_kernel_heap == null) then (k.heap.heap_size, k.heap.total_allocated) else (0, 0)
