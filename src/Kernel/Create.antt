-- ===== src/Kernel/Create.antt =====
-- The heap that the constructor makes.
use coronel.Base.{ℕ, ◌+◌, ◌-◌, ◌^◌, ◌≤◌, ◌<◌, ◌≡◌, refl, true, [], ◌∷◌, ◌==◌, arith, sub64, ◌∙◌}
use coronel.Config.{align_up}
use coronel.Config.Align.{align_up_lem}
use coronel.Machine.{update}
use coronel.Heap.{Heap, heap_block, sizeof_heap_block}
use coronel.Heap.Pages.{map_pages}
use coronel.Heap.Pages.Keeps.{map_pages-Keeps}
use coronel.Heap.Blocks.{validate_heap}
use coronel.Heap.Chain.{entry, IsHeap}
use coronel.Heap.Counters.{Counts, validate_heap_lem}
use coronel.Kernel.{created, create_heap}

-- One free block at the start of the heap `t`.
abbrev one_block : ℕ → ℕ → Heap → Heap
one_block start size t = record t {
  first_block = start;
  blocks = update t.blocks start (heap_block (sub64 size sizeof_heap_block) true);
  total_free = sub64 size sizeof_heap_block;
}

one_block-IsHeap :
    (start size : ℕ) (t : Heap)
    → 0 < start
    → 40 ≤ size
    → start + size < 2 ^ 64
    → IsHeap (one_block start size t) (entry start (size - 40) true ∷ [])
one_block-IsHeap start size t pos room small =
    let left : sub64 size sizeof_heap_block ≡ size - 40 = omega arith in
    let here : (start == start) ≡ true = ground arith in
    rw (here, left)
      (
        refl,
        pos,
        omega arith,
        record { size = refl; is_free = refl; magic = refl; prev = refl },
        (refl, omega arith),
      )

create_heap_mapped :
    (start n : ℕ) (s : Heap)
    → (map_pages start (align_up n) (created start n s)).0 ≡ true
    → create_heap start n s
      ≡ one_block start (align_up n) (map_pages start (align_up n) (created start n s)).1
unfolding create_heap
create_heap_mapped start n s ok = rw ok refl

-- For a heap that starts at an address other than 0, is not empty and ends, with a page to spare,
-- within the address space, and whose pages could all be mapped, the constructor makes a heap of
-- one free block, which takes what its header leaves of the size rounded up to pages; its counters
-- agree with this list, and `validate_heap` accepts it.
pub create_heap-IsHeap :
    (start n : ℕ) (s : Heap)
    → 0 < start
    → 0 < n
    → start + n + 4096 < 2 ^ 64
    → (map_pages start (align_up n) (created start n s)).0 ≡ true
    → IsHeap (create_heap start n s) (entry start (align_up n - 40) true ∷ [])
      × Counts (create_heap start n s) (entry start (align_up n - 40) true ∷ [])
      × (validate_heap (create_heap start n s) ≡ true)
create_heap-IsHeap start n s pos some small ok =
    let up = align_up_lem n (omega arith) in
    let size = align_up n in
    let t = (map_pages start size (created start n s)).1 in
    let keeps = map_pages-Keeps start size (created start n s) in
    let es = entry start (size - 40) true ∷ [] in
    let heap = one_block-IsHeap start size t pos (omega arith) (omega arith) in
    let counts : Counts (one_block start size t) es = (keeps.allocated, omega arith) in
    let run = create_heap_mapped start n s ok in
    let size_kept : t.heap_size ≡ size = keeps.heap_size in
    let valid =
      validate_heap_lem (one_block start size t) es heap (omega (arith, size_kept))
        (omega (arith, size_kept, up)) (omega arith) in
    rw run (heap, counts, valid ∙ ground (arith, counts))
