-- ===== src/Tests/Processes.antt =====
-- The heap of a process from its constructor on: src/kernel/memory/user_allocator.cpp.
use coronel.Base.{
  ℕ, ◌+◌, ◌-◌, ◌*◌, ◌^◌, ◌<◌, ◌≤◌, ◌≡◌, refl, true, false, List, [], ◌∷◌, arith, some, sub32,
}
use coronel.Config.{align_up}
use coronel.Machine.{Machine, null}
use coronel.Physical
use coronel.Paging.{pte, pde, pdpt, pml4, address, present, get_page, enter, page_entry, map}
use coronel.Heap.Chain.{Entry, entry, used, span}
use coronel.Heap.Chain.Used.{insert_used, remove_used}
use coronel.Heap.Chain.Held.{size_at}
use coronel.Heap.Find.{first_fit}
use coronel.Heap.Trace.{AreApart}
use coronel.User.{
  UserHeap, UserBlocks, user_block, is_free, is_valid, set_free, user_heap_start,
  user_heap_initial_size,
}
use coronel.User.Pages.{sys_request_memory, request_from}
use coronel.User.Blocks.{
  user_allocator, find_free_block, find_from, malloc, free, take_block, split_block, release,
  coalesce_block, coalesce_next, coalesce_prev, get_heap_size,
}
use coronel.User.View.{IsUserHeap, view_magic}
use coronel.User.View.Create.{user_allocator-IsUserHeap}
use coronel.User.View.Malloc.{malloc-IsUserHeap}
use coronel.User.View.Free.{free-IsUserHeap}
use coronel.User.Trace.{Process, Step, Run}
use coronel.User.Trace.Apart.{user_allocator-AreApart}

-- A stack of 1024 free frames, the first of which ends at 4 MB.
abbrev many_frames : Machine
many_frames = record {
  placement = 0xffffffff80500000;
  frames = λ a. record { address = (a - 0xffffffff80400000) * 256; previous = a - 16 };
  physical_end = 0x10000000;
  free_list = 0xffffffff80404000;
  words = λ _. 0;
  cr3 = null;
}

-- No block has been written yet.
abbrev no_blocks : UserBlocks
no_blocks = λ a. record { size = 0; flags = 0; next = null; prev = null }

many_frames-granted :
    (sys_request_memory 0x1000 user_heap_start user_heap_initial_size many_frames).0 ≡ true
unfolding sys_request_memory request_from align_up map get_page enter page_entry pte pde pdpt pml4
    address present Physical.alloc
many_frames-granted = refl

abbrev fresh_heap : UserHeap
fresh_heap = user_allocator 0x1000 no_blocks (λ _. 0) many_frames

abbrev one_entry : List Entry
one_entry = entry user_heap_start (user_heap_initial_size - 40) true ∷ []

no_flags : (a : ℕ) → (no_blocks a).flags < 2 ^ 32
no_flags a = omega arith

fresh_heap-IsUserHeap :
    IsUserHeap fresh_heap one_entry × (get_heap_size fresh_heap ≡ user_heap_initial_size)
fresh_heap-IsUserHeap =
    user_allocator-IsUserHeap 0x1000 no_blocks (λ _. 0) many_frames many_frames-granted no_flags

room_at_start : first_fit (align_up 100 - 16) one_entry ≡ 0x08000000
unfolding align_up
room_at_start = refl

malloc-IsUserHeap_example :
    ((malloc 100 fresh_heap).0 ≡ 0x08000018)
    × (sz : ℕ) × (es' : List Entry) × (100 ≤ sz + 16)
    × IsUserHeap (malloc 100 fresh_heap).1 es'
    × (used es' ≡ insert_used 0x08000000 sz [])
    × (span es' ≡ user_heap_initial_size)
    × (get_heap_size (malloc 100 fresh_heap).1 ≡ get_heap_size fresh_heap)
malloc-IsUserHeap_example =
    malloc-IsUserHeap 100 0x08000000 fresh_heap one_entry fresh_heap-IsUserHeap.0
      (omega (arith, fresh_heap-IsUserHeap.1)) (omega arith) (omega arith) room_at_start
      (omega arith)

first_found : find_free_block (align_up 100) fresh_heap ≡ 0x08000000
unfolding find_free_block find_from align_up user_allocator sys_request_memory request_from map
    get_page enter page_entry pte pde pdpt pml4 address present Physical.alloc user_block is_free
first_found = refl

abbrev one_held : Process
one_held = record { heap = (malloc 100 fresh_heap).1; live = ((malloc 100 fresh_heap).0, 100) ∷ [] }

abbrev two_held : Process
two_held = record {
  heap = (malloc 5000 one_held.heap).1;
  live = ((malloc 5000 one_held.heap).0, 5000) ∷ one_held.live;
}

abbrev one_left : Process
one_left = record {
  heap = free 0x08000018 two_held.heap;
  live = remove_used 0x08000018 two_held.live;
}

-- The first pointer was given back, and its block is taken again.
abbrev two_again : Process
two_again = record {
  heap = (malloc 50 one_left.heap).1;
  live = ((malloc 50 one_left.heap).0, 50) ∷ one_left.live;
}

second_found : find_free_block (align_up 5000) one_held.heap ≡ 0x08001018
unfolding find_free_block find_from align_up user_allocator sys_request_memory request_from map
    get_page enter page_entry pte pde pdpt pml4 address present Physical.alloc user_block is_free
    malloc take_block split_block set_free
second_found = refl

was_held : size_at 0x08000018 two_held.live ≡ some 100
unfolding find_free_block find_from align_up user_allocator sys_request_memory request_from map
    get_page enter page_entry pte pde pdpt pml4 address present Physical.alloc user_block is_free
    malloc take_block split_block set_free
was_held = refl

third_found : find_free_block (align_up 50) one_left.heap ≡ 0x08000000
unfolding find_free_block find_from align_up user_allocator sys_request_memory request_from map
    get_page enter page_entry pte pde pdpt pml4 address present Physical.alloc user_block is_free
    malloc take_block split_block set_free is_valid free release coalesce_block coalesce_next
    coalesce_prev
third_found = refl

Run-to_two_again : Run fresh_heap two_again
Run-to_two_again =
    Run.later
      (Run.later
        (Run.later
          (Run.later Run.start
            (Step.allocates 100 (omega arith) (omega arith) (omega (arith, first_found))))
          (Step.allocates 5000 (omega arith) (omega arith) (omega (arith, second_found))))
        (Step.frees 0x08000018 100 was_held))
      (Step.allocates 50 (omega arith) (omega arith) (omega (arith, third_found)))

user_allocator-AreApart_example :
    AreApart two_again.live
    × (es : List Entry) × IsUserHeap two_again.heap es
    × (span es ≤ get_heap_size two_again.heap)
user_allocator-AreApart_example =
    user_allocator-AreApart 0x1000 no_blocks (λ _. 0) many_frames two_again many_frames-granted
      no_flags Run-to_two_again

-- A heap of one block of a page in use.
abbrev used_heap : UserHeap
used_heap = record {
  machine = many_frames;
  blocks = λ _. user_block 4096 false;
  bytes = λ _. 0;
  heap_start = 0x08000000;
  heap_current = 0x08002000;
  heap_limit = 0x40000000;
  first_block = 0x08000000;
  page_directory = 0x1000;
  total_allocated = 4096;
  num_blocks = 0;
}

used_heap-IsUserHeap : IsUserHeap used_heap (entry 0x08000000 4080 false ∷ [])
unfolding user_block is_free view_magic
used_heap-IsUserHeap = record {
  heap = (
    refl,
    omega arith,
    omega arith,
    record { size = refl; is_free = refl; magic = refl; prev = refl },
    (refl, omega arith),
  );
  large = λ a h. omega arith;
  words = λ a. omega arith;
  bounded = omega arith;
}

free-IsUserHeap_example :
    ((free 0x08000018 used_heap).total_allocated ≡ sub32 4096 4096)
    × (es' : List Entry) × IsUserHeap (free 0x08000018 used_heap) es'
    × (used es' ≡ [])
    × (span es' ≡ 4120)
free-IsUserHeap_example =
    free-IsUserHeap 0x08000000 used_heap (entry 0x08000000 4080 false ∷ [])
      (entry 0x08000000 4080 false) used_heap-IsUserHeap refl refl
