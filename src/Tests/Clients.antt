-- ===== src/Tests/Clients.antt =====
-- A client of the heap of four pages.
use coronel.Base.{
  ℕ, ◌+◌, ◌≡◌, ◌≤◌, true, false, refl, List, [], ◌∷◌, ◌<◌, ◌*◌, ◌&&◌, ltb, leb, if◌then◌else◌,
  arith, some, ◌==◌,
}
use coronel.Config.{align_up}
use coronel.Heap.Blocks.{
  malloc, free, realloc, calloc, find_free_block, find_from, validate_heap, take_block, split_block,
  release, coalesce_block, coalesce_next, coalesce_prev,
}
use coronel.Heap.Chain.{Entry, entry, IsHeap, used, span}
use coronel.Heap.Chain.Used.{insert_used, remove_used}
use coronel.Heap.Chain.Held.{size_at}
use coronel.Heap.Counters.{malloc_counters}
use coronel.Heap.Find.{first_fit}
use coronel.Heap.Realloc.{realloc-move}
use coronel.Heap.Calloc.Zeroed.{calloc-zeroed}
use coronel.Heap.Trace.{Client, Step, Run, AreApart}
use coronel.Heap.Trace.Apart.{Run-AreApart}
use coronel.Tests.Headers.{two_blocks, two_entries, two_blocks-IsHeap, first_room}

malloc_counters_example : validate_heap (malloc 100 two_blocks).1 ≡ (0x2fb0 == align_up 100)
malloc_counters_example =
    malloc_counters 100 0x11028 two_blocks two_entries (entry 0x11028 0x2fb0 true) two_blocks-IsHeap
      (omega arith) (omega arith) (omega arith) (refl, refl) (omega arith) (omega arith) first_room
      refl (omega arith) (omega arith)

abbrev one_held : Client
one_held = record { heap = (malloc 100 two_blocks).1; live = ((malloc 100 two_blocks).0, 100) ∷ [] }

abbrev two_held : Client
two_held = record {
  heap = (malloc 4000 one_held.heap).1;
  live = ((malloc 4000 one_held.heap).0, 4000) ∷ one_held.live;
}

abbrev one_left : Client
one_left = record { heap = free 0x11050 two_held.heap; live = remove_used 0x11050 two_held.live }

first_found : find_free_block (align_up 100) two_blocks ≡ 0x11028
unfolding find_free_block find_from align_up
first_found = refl

second_found : find_free_block (align_up 4000) one_held.heap ≡ 0x12050
unfolding find_free_block find_from align_up malloc take_block split_block
second_found = refl

third_found : find_free_block (align_up 50) one_left.heap ≡ 0x11028
unfolding find_free_block find_from align_up malloc take_block split_block free release
    coalesce_block coalesce_next coalesce_prev
third_found = refl

-- The first pointer was given back, and its block is taken again.
abbrev two_again : Client
two_again = record {
  heap = (malloc 50 one_left.heap).1;
  live = ((malloc 50 one_left.heap).0, 50) ∷ one_left.live;
}

was_held : size_at 0x11050 two_held.live ≡ some 100
unfolding find_free_block find_from align_up malloc take_block split_block
was_held = refl

Run-to_two_again : Run two_blocks two_again
Run-to_two_again =
    Run.later
      (Run.later
        (Run.later
          (Run.later Run.start
            (Step.allocates 100 (omega arith) (omega arith) (omega (arith, first_found))))
          (Step.allocates 4000 (omega arith) (omega arith) (omega (arith, second_found))))
        (Step.frees 0x11050 100 was_held))
      (Step.allocates 50 (omega arith) (omega arith) (omega (arith, third_found)))

Run-AreApart_example :
    AreApart two_again.live
    × (es' : List Entry) × IsHeap two_again.heap es'
    × (span es' ≤ two_again.heap.heap_size)
Run-AreApart_example =
    Run-AreApart two_blocks two_again two_entries two_blocks-IsHeap (omega arith) (omega arith)
      Run-to_two_again

moved_room : first_fit (align_up (align_up 5000)) two_entries ≡ 0x11028
unfolding align_up
moved_room = refl

larger_than_page : 4096 < align_up 5000
unfolding align_up
larger_than_page = omega arith

not_too_large : align_up 5000 ≡ 8192
unfolding align_up
not_too_large = refl

realloc-move_example :
    ((realloc 0x10028 5000 two_blocks).0 ≡ 0x11050)
    × ((i : ℕ)
        → i < 4096
        → (realloc 0x10028 5000 two_blocks).1.bytes (0x11050 + i) ≡ two_blocks.bytes (0x10028 + i))
    × (sz : ℕ) × (es' : List Entry) × (align_up 5000 ≤ sz)
    × IsHeap (realloc 0x10028 5000 two_blocks).1 es'
    × (used es' ≡ remove_used 0x10000 (insert_used 0x11028 sz (used two_entries)))
    × (span es' ≡ span two_entries)
realloc-move_example =
    realloc-move 0x10000 5000 0x11028 two_blocks two_entries (entry 0x10000 4096 false)
      two_blocks-IsHeap (omega arith) (omega arith) refl refl (omega arith) larger_than_page
      (omega (arith, not_too_large)) moved_room (omega arith)

cleared_room : first_fit (align_up (25 * 8)) two_entries ≡ 0x11028
unfolding align_up
cleared_room = refl

calloc-zeroed_example :
    ((calloc 25 8 two_blocks).0 ≡ 0x11050)
    × ((a : ℕ)
        → (calloc 25 8 two_blocks).1.bytes a
          ≡ (if leb 0x11050 a && ltb a (0x11050 + 200) then 0 else two_blocks.bytes a))
    × (sz : ℕ) × (es' : List Entry) × (200 ≤ sz)
    × IsHeap (calloc 25 8 two_blocks).1 es'
    × (used es' ≡ insert_used 0x11028 sz (used two_entries))
calloc-zeroed_example =
    calloc-zeroed 25 8 0x11028 two_blocks two_entries two_blocks-IsHeap (omega arith) (omega arith)
      (omega arith) (omega arith) (omega arith) cleared_room (omega arith)
