-- ===== src/Tests/Growth.antt =====
-- The growth of the kernel heap: src/kernel/memory/heap.cpp.
use coronel.Base.{ℕ, ◌+◌, ◌-◌, ◌≡◌, ◌≤◌, true, refl, [], ◌∷◌, arith, none, ◌≢◌, false, List}
use coronel.Config.{align_up}
use coronel.Machine.{null}
use coronel.Physical
use coronel.Paging.{
  pte, pde, pdpt, pml4, address, present, get_page, enter, page_entry, map, map_current,
}
use coronel.Heap.{Heap, heap_block}
use coronel.Heap.Pages.{map_pages, map_from}
use coronel.Heap.Blocks.{expand_heap, malloc, last_from}
use coronel.Heap.Chain.{Entry, entry, IsHeap, used, span}
use coronel.Heap.Grow.Expand.{with_region, expand_heap-IsHeap}
use coronel.Heap.Chain.Held.{size_at}
use coronel.Heap.Find.{first_fit}
use coronel.Heap.Grow.Serve.{growth, last_end, CanGrow, malloc-grows}
use coronel.Heap.Chain.Used.{insert_used}
use coronel.Virtual
use coronel.Virtual.{node}
use coronel.Heap.Chain.Used.{has_fit}
use coronel.Tests.Boot.{unmade}

-- A heap of one page in use, with room for growth right behind it.
abbrev one_page : Heap
one_page = record unmade {
  free_mem = node 0x6000 0x8000 ∷ [];
  blocks = λ a. heap_block 4056 false;
  heap_start = 0x5000;
  heap_end = 0x6000;
  heap_size = 4096;
  first_block = 0x5000;
}

one_page-IsHeap : IsHeap one_page (entry 0x5000 4056 false ∷ [])
one_page-IsHeap = (
  refl,
  omega arith,
  omega arith,
  record { size = refl; is_free = refl; magic = refl; prev = refl },
  (refl, omega arith),
)

grows_by_page : align_up 100 ≡ 4096
unfolding align_up
grows_by_page = refl

finds_region : (Virtual.alloc (align_up 100) one_page.free_mem).0 ≡ 0x6000
unfolding align_up Virtual.alloc Virtual.take_first
finds_region = refl

one_page-maps : (with_region 0x6000 (align_up 100) one_page).0 ≡ true
unfolding map_pages map_from align_up map_current map get_page enter page_entry pte pde pdpt pml4
    address present Physical.alloc
one_page-maps = refl

expand_heap-IsHeap_example :
    ((expand_heap 100 one_page).0 ≡ true)
    × ((expand_heap 100 one_page).1.heap_size ≡ 4096 + align_up 100)
    × (es' : List Entry) × IsHeap (expand_heap 100 one_page).1 es'
    × (used es' ≡ (0x5000, 4056) ∷ [])
    × (span es' ≡ 4096 + align_up 100)
    × ((k : ℕ) → k ≤ align_up 100 - 40 → has_fit k es' ≡ true)
expand_heap-IsHeap_example =
    expand_heap-IsHeap 100 0x6000 one_page (entry 0x5000 4056 false) [] one_page-IsHeap
      (omega arith) (omega (arith, grows_by_page)) finds_region (omega arith)
      (omega (arith, grows_by_page)) (omega (arith, grows_by_page)) one_page-maps

growth_of_two_pages : growth 100 ≡ 8192
unfolding align_up
growth_of_two_pages = refl

nothing_fits : first_fit (align_up 100) (entry 0x5000 4056 false ∷ []) ≡ null
nothing_fits = refl

finds_two_pages : (Virtual.alloc (growth 100) one_page.free_mem).0 ≡ 0x6000
unfolding align_up Virtual.alloc Virtual.take_first
finds_two_pages = refl

one_page-maps_two : (with_region 0x6000 (growth 100) one_page).0 ≡ true
unfolding map_pages map_from align_up map_current map get_page enter page_entry pte pde pdpt pml4
    address present Physical.alloc
one_page-maps_two = refl

one_page_end : last_end one_page ≡ 0x6000
unfolding last_from
one_page_end = refl

one_page-CanGrow : CanGrow 100 0x6000 one_page
one_page-CanGrow = record {
  region = finds_two_pages;
  behind = omega (arith, one_page_end);
  mapped = one_page-maps_two;
  counted = omega (arith, growth_of_two_pages);
  small = omega arith;
}

malloc-grows_example :
    ((malloc 100 one_page).0 ≢ null)
    × (b : ℕ) × (sz : ℕ) × (es' : List Entry) × ((malloc 100 one_page).0 ≡ b + 40)
    × (size_at b ((0x5000, 4056) ∷ []) ≡ none)
    × (100 ≤ sz)
    × IsHeap (malloc 100 one_page).1 es'
    × (used es' ≡ insert_used b sz ((0x5000, 4056) ∷ []))
    × (span es' ≤ (malloc 100 one_page).1.heap_size)
    × ((malloc 100 one_page).1.heap_size ≡ 4096 + growth 100)
malloc-grows_example =
    malloc-grows 100 0x6000 one_page (entry 0x5000 4056 false) [] one_page-IsHeap (omega arith)
      (omega arith) nothing_fits one_page-CanGrow
