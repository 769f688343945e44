-- ===== src/Tests/Headers.antt =====
-- src/kernel/memory/heap.cpp on a heap of four pages.
use coronel.Base.{ℕ, ◌≡◌, ◌≤◌, true, false, refl, List, [], ◌∷◌, arith, ◌==◌, if◌then◌else◌}
use coronel.Heap.{Heap, heap_block}
use coronel.Heap.Blocks.{malloc, free}
use coronel.Heap.Chain.{Entry, entry, IsHeap, used, span}
use coronel.Heap.Chain.Used.{insert_used, remove_used}
use coronel.Heap.Find.{first_fit}
use coronel.Heap.Malloc.{malloc-first_fit}
use coronel.Heap.Free.{free-used, free-free}
use coronel.Config.{align_up}
use coronel.Tests.Frames.{no_frames}
use coronel.Tests.Regions.{three_nodes}

-- A used page and the free rest behind it.
abbrev pub two_blocks : Heap
two_blocks = record {
  machine = no_frames;
  free_mem = three_nodes;
  blocks = λ a.
      if a == 0x10000
      then record (heap_block 4096 false) { next = 0x11028 }
      else record (heap_block 0x2fb0 true) { prev = 0x10000 };
  bytes = λ _. 0;
  heap_start = 0x10000;
  heap_end = 0;
  heap_size = 0x4000;
  first_block = 0x10000;
  total_allocated = 4096;
  total_free = 0x2fb0;
  num_allocations = 1;
  num_frees = 0;
}

abbrev pub two_entries : List Entry
two_entries = entry 0x10000 4096 false ∷ entry 0x11028 0x2fb0 true ∷ []

pub two_blocks-IsHeap : IsHeap two_blocks two_entries
two_blocks-IsHeap = (
  refl,
  omega arith,
  omega arith,
  record { size = refl; is_free = refl; magic = refl; prev = refl },
  (
    refl,
    omega arith,
    omega arith,
    record { size = refl; is_free = refl; magic = refl; prev = refl },
    (refl, omega arith),
  ),
)

pub first_room : first_fit (align_up 100) two_entries ≡ 0x11028
unfolding align_up
first_room = refl

malloc-first_fit_example :
    ((malloc 100 two_blocks).0 ≡ 0x11050)
    × (sz : ℕ) × (es' : List Entry) × (100 ≤ sz)
    × IsHeap (malloc 100 two_blocks).1 es'
    × (used es' ≡ insert_used 0x11028 sz (used two_entries))
    × (span es' ≡ span two_entries)
malloc-first_fit_example =
    malloc-first_fit 100 0x11028 two_blocks two_entries two_blocks-IsHeap (omega arith)
      (omega arith) (omega arith) (omega arith) first_room (omega arith)

free-used_example :
    ((free 0x10028 two_blocks).total_allocated ≡ 0)
    × (es' : List Entry) × IsHeap (free 0x10028 two_blocks) es'
    × (used es' ≡ remove_used 0x10000 (used two_entries))
    × (span es' ≡ span two_entries)
free-used_example =
    free-used 0x10000 two_blocks two_entries (entry 0x10000 4096 false) two_blocks-IsHeap refl refl

free-free_example : free 0x10028 (free 0x10028 two_blocks) ≡ free 0x10028 two_blocks
free-free_example = free-free 0x10028 two_blocks
