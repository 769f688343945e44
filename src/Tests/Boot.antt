-- ===== src/Tests/Boot.antt =====
-- The start of the kernel: src/kernel/memory/memory_manager.cpp on a map of two regions, and the page tables
-- of src/kernel/arch/amd64/memory/pagetable.cpp.
use coronel.Base.{
  ℕ, ◌+◌, ◌*◌, ◌/◌, ◌-◌, ◌≡◌, ◌≤◌, true, refl, [], ◌∷◌, inl, arith, All, none, some, ◌==◌, ◌⊎◌,
  if◌then◌else◌,
}
use coronel.Config.{align_up}
use coronel.Machine.{Machine, null}
use coronel.Physical
use coronel.Physical.Chain.{IsFreeList}
use coronel.Physical.Setup.{frames_from, whole_pages}
use coronel.Paging.{
  pte, pde, pdpt, pml4, address, present, get_page, enter, page_entry, map, map_current, cell,
  create_page_directory,
}
use coronel.Paging.Directory.{IsOutside, IsApart, create_page_directory-translate}
use coronel.Paging.Translate.{translate}
use coronel.Paging.Boot.{map_kernel_memory}
use coronel.Paging.Boot.Linear.{first_mapped, IsBoot, map_kernel_memory-translate}
use coronel.Heap.{Heap}
use coronel.Heap.Pages.{map_pages, map_from}
use coronel.Heap.Blocks.{validate_heap}
use coronel.Heap.Chain.{entry, IsHeap}
use coronel.Heap.Counters.{Counts}
use coronel.Kernel.{Kernel, created, create_heap, kmalloc, place}
use coronel.Kernel.Create.{create_heap-IsHeap}
use coronel.Kernel.Manager.{
  MmapEntry, MultibootInfo, largest_region, scan_map, consider, initialize_memory,
}
use coronel.Kernel.Regions.{usable, usable_size, Any, largest_region_lem}
use coronel.Kernel.Boot.{boot_without_heap}
use coronel.Tests.Frames.{no_frames, two_frames}
use coronel.Tests.Headers.{two_blocks}
use coronel.Tests.Tables.{three_tables}

abbrev low_memory : MmapEntry
low_memory = record { size = 20; addr = 0; len = 0x9fc00; type = 1 }

-- 31 MB from 1 MB on.
abbrev high_memory : MmapEntry
high_memory = record { size = 20; addr = 0x100000; len = 0x1f00000; type = 1 }

abbrev pub info : MultibootInfo
info = record { flags = 0x40; mem_lower = 0; mem_upper = 0; mmap_length = 48; mmap_addr = 0x9000 }

abbrev pub two_regions : ℕ → MmapEntry
two_regions a = if a == 0xffffffff80009000 then low_memory else high_memory

largest_region_lem_example :
    All (λ e. usable_size e ≤ (largest_region info two_regions).1) (low_memory ∷ high_memory ∷ [])
    × ((largest_region info two_regions ≡ (null, 0))
        ⊎ Any (λ e. usable e ≡ largest_region info two_regions) (low_memory ∷ high_memory ∷ []))
largest_region_lem_example =
    largest_region_lem info two_regions (low_memory ∷ high_memory ∷ []) (omega arith)
      (omega arith, refl, omega arith, (omega arith, refl, omega arith, omega arith))
      (omega arith, (omega arith, tt))

the_region : largest_region info two_regions ≡ (0x800000, 0x1800000)
unfolding largest_region scan_map consider
the_region = refl

abbrev pub before_boot : Kernel
before_boot = record {
  g_physical_manager = null;
  g_kernel_virtual_manager = null;
  g_kernel_heap = null;
  heap = record two_blocks { machine = no_frames };
}

boot_without_heap_example :
    IsFreeList
      (initialize_memory info two_regions before_boot).heap.machine
      (frames_from ((0x800000 + 4095) / 4096 * 4096) (whole_pages 0x800000 0x1800000))
    × ((initialize_memory info two_regions before_boot).g_kernel_heap ≡ null)
    × ((n : ℕ)
        → kmalloc n (initialize_memory info two_regions before_boot)
          ≡ place n (initialize_memory info two_regions before_boot))
boot_without_heap_example =
    boot_without_heap info two_regions 0x800000 0x1800000 before_boot refl the_region (omega arith)
      (omega arith) (omega arith, omega arith) refl

-- A heap that has not been made, over tables for its first page and two free frames.
abbrev pub unmade : Heap
unmade = record two_blocks {
  machine = record two_frames { words = three_tables.words; cr3 = three_tables.cr3 };
}

unmade-maps : (map_pages 0x5000 (align_up 4000) (created 0x5000 4000 unmade)).0 ≡ true
unfolding map_pages map_from align_up map_current map get_page enter page_entry pte pde pdpt pml4
    address present Physical.alloc
unmade-maps = refl

create_heap-IsHeap_example :
    IsHeap (create_heap 0x5000 4000 unmade) (entry 0x5000 (align_up 4000 - 40) true ∷ [])
    × Counts (create_heap 0x5000 4000 unmade) (entry 0x5000 (align_up 4000 - 40) true ∷ [])
    × (validate_heap (create_heap 0x5000 4000 unmade) ≡ true)
create_heap-IsHeap_example =
    create_heap-IsHeap 0x5000 4000 unmade (omega arith) (omega arith) (omega arith) unmade-maps

-- The tables that the first 8 MB of the kernel are mapped by.
abbrev booted : Machine
booted = record no_frames {
  words = λ a.
      if a == 0xffffffff80001ff8
      then 0x2003
      else if a == 0xffffffff80002ff0
      then 0x3003
      else if a == 0xffffffff80003018
      then 0x7003
      else 0x7ff003;
  cr3 = 0x1000;
}

booted-IsBoot : IsBoot booted.words booted.cr3 0xffffffff80003000 0x7003 0x7ff003
unfolding address present
booted-IsBoot = record {
  pml4_there = refl;
  pdpt_there = refl;
  at_dirs = refl;
  at_dir = refl;
  at_paddr = refl;
  dir_there = refl;
  paddr_there = refl;
  room = record {
    behind = omega arith;
    room = omega arith;
    tables = omega arith;
    frames = omega arith;
    apart = inl (omega arith);
  };
  top_apart = inl (omega arith);
  top_beside = inl (omega arith);
  middle_apart = inl (omega arith);
  middle_beside = inl (omega arith);
}

map_kernel_memory-translate_example :
    translate (map_kernel_memory booted).words 0x1000 (first_mapped + 0x12345) ≡ some 0x812345
map_kernel_memory-translate_example =
    map_kernel_memory-translate booted 0xffffffff80003000 0x7003 0x7ff003 0x12345 booted-IsBoot
      (omega arith)

-- An address of the kernel, behind the page tables at boot.
abbrev kernel_address : ℕ
kernel_address = 0xffffffff80601234

booted-IsApart : IsApart booted.words (align_up booted.placement) booted.cr3 kernel_address
unfolding pte pde pdpt pml4 address align_up
booted-IsApart = record {
  top = inl (omega arith);
  middle = inl (omega arith);
  low = inl (omega arith);
  last = inl (omega arith);
}

booted-top : IsOutside (align_up booted.placement) (cell (address booted.cr3) 511)
unfolding address align_up
booted-top = inl (omega arith)

booted-present : present (booted.words (cell (address booted.cr3) 511)) ≡ true
unfolding address present
booted-present = refl

create_page_directory-translate_example :
    (translate
        (create_page_directory booted).1.words
        (create_page_directory booted).0
        kernel_address
      ≡ (if pml4 kernel_address == 511 then translate booted.words 0x1000 kernel_address else none))
    × ((a : ℕ)
        → IsOutside (align_up booted.placement) a
        → (create_page_directory booted).1.words a ≡ booted.words a)
create_page_directory-translate_example =
    create_page_directory-translate kernel_address booted booted-present (omega arith) (omega arith)
      booted-top booted-IsApart
