-- ===== src/Heap/Blocks.antt =====
-- The operations of the kernel heap on its blocks: `expand_heap`, `find_free_block`, `split_block`,
-- `coalesce_block` and the public allocation functions.
use coronel.Base.{
  ℕ, zero, suc, ◌+◌, ◌/◌, Bool, true, false, not, ◌&&◌, ◌||◌, bit_and, ltb, leb, ◌==◌,
  if◌then◌else◌, add64, sub64, mul64,
}
use coronel.Config.{align_up}
use coronel.Machine.{null, update}
use coronel.Memory.{Bytes, memset, memcpy}
use coronel.Virtual
use coronel.Virtual.{Node}
use coronel.Heap.{
  Heap, Blocks, heap_block, sizeof_heap_block, min_block_size, magic_free, magic_used, block_data,
  from_data, is_valid, set_size, set_next, set_prev, set_mark, relinked,
}
use coronel.Heap.Pages.{map_pages}

-- A list of live blocks has fewer blocks than the heap has bytes.
abbrev pub fuel : Heap → ℕ
fuel s = s.heap_size

-- The loop of `find_free_block`; null when it runs out of blocks.
unfoldable pub find_from : ℕ → ℕ → ℕ → Blocks → ℕ
find_from zero current size mem = null
find_from (suc n) current size mem =
    let rest = find_from n (mem current).next size mem in
    if current == null
    then null
    else if (mem current).is_free && leb size (mem current).size
    then current
    else rest

unfoldable pub find_free_block : ℕ → Heap → ℕ
find_free_block size s = find_from (fuel s) s.first_block size s.blocks

-- The loop of `expand_heap` that looks for the last block.
unfoldable pub last_from : ℕ → ℕ → Blocks → ℕ
last_from zero current mem = current
last_from (suc n) current mem =
    let rest = last_from n (mem current).next mem in
    if (mem current).next == null then current else rest

-- The writes of `split_block`: the new block behind `size` bytes, and the links.
abbrev pub insert_block : ℕ → ℕ → ℕ → Blocks → Blocks
insert_block block size new_block mem =
    let next = (mem block).next in
    let remaining_size = sub64 (sub64 (mem block).size size) sizeof_heap_block in
    let fresh = record (heap_block remaining_size true) { next = next; prev = block } in
    let mem₁ = update mem new_block fresh in
    set_size block size (set_next block new_block (relinked next new_block mem₁))

unfoldable pub split_block : ℕ → ℕ → Heap → Heap
split_block block size s =
    if ltb (s.blocks block).size (add64 size min_block_size) then s else record s {
      blocks = insert_block block size (add64 (block_data block) size) s.blocks;
      total_free = add64 s.total_free sizeof_heap_block;
    }

-- Whether the block `b` is free and starts where `a` ends.
abbrev pub meets : ℕ → ℕ → Blocks → Bool
meets a b mem = add64 (block_data a) (mem a).size == b

-- `b` is absorbed by the block `a` in front of it.
abbrev pub absorb_block : ℕ → ℕ → Blocks → Blocks
absorb_block a b mem =
    let size = add64 (mem a).size (add64 sizeof_heap_block (mem b).size) in
    let next = (mem b).next in relinked next a (set_next a next (set_size a size mem))

-- The two halves of `coalesce_block`.
unfoldable pub coalesce_next : ℕ → Heap → Heap
coalesce_next block s =
    let next = (s.blocks block).next in
    if not (next == null) && (s.blocks next).is_free && meets block next s.blocks
    then record s {
      blocks = absorb_block block next s.blocks;
      total_free = sub64 s.total_free sizeof_heap_block;
    }
    else s

unfoldable pub coalesce_prev : ℕ → Heap → Heap
coalesce_prev block s =
    let prev = (s.blocks block).prev in
    if not (prev == null) && (s.blocks prev).is_free && meets prev block s.blocks
    then record s {
      blocks = absorb_block prev block s.blocks;
      total_free = sub64 s.total_free sizeof_heap_block;
    }
    else s

unfoldable pub coalesce_block : ℕ → Heap → Heap
coalesce_block block s =
    if not (s.blocks block).is_free then s else coalesce_prev block (coalesce_next block s)

-- A free block over a new region, linked behind the last one.
unfoldable pub append_region : ℕ → ℕ → Heap → Heap
append_region new_block expand_size s =
    let last = last_from (fuel s) s.first_block mem₁ in
    let mem₂ = set_prev new_block last (set_next last new_block mem₁) in
    coalesce_block new_block (record s {
      blocks = mem₂;
      heap_size = add64 s.heap_size expand_size;
      total_free = add64 s.total_free (sub64 expand_size sizeof_heap_block);
    })
  where
    mem₁ : Blocks
    mem₁ = update s.blocks new_block (heap_block (sub64 expand_size sizeof_heap_block) true)

unfoldable pub expand_heap : ℕ → Heap → Bool × Heap
expand_heap min_size s =
    let expand_size = align_up min_size in
    let (new_region, free_mem₁) = Virtual.alloc expand_size s.free_mem in
    let s₁ : Heap = record s { free_mem = free_mem₁ } in
    let (mapped, s₂) = map_pages new_region expand_size s₁ in
    let (free_mem₂, m₂) = Virtual.free new_region expand_size s₂.free_mem s₂.machine in
    if new_region == null
    then (false, s₁)
    else if not mapped
    then (false, record s₂ { free_mem = free_mem₂; machine = m₂ })
    else (true, append_region new_region expand_size s₂)

-- The end of `malloc`, from the block that was found.
unfoldable pub take_block : ℕ → ℕ → Heap → ℕ × Heap
take_block block size s =
    let s₁ = split_block block size s in
    (
      block_data block,
      record s₁ {
        blocks = set_mark block false magic_used s₁.blocks;
        total_allocated = add64 s₁.total_allocated size;
        total_free = sub64 s₁.total_free size;
        num_allocations = add64 s₁.num_allocations 1;
      },
    )

-- The second search, after the heap has grown.
unfoldable pub take_found : ℕ → ℕ → Heap → ℕ × Heap
take_found block size s = if block == null then (null, s) else take_block block size s

unfoldable pub malloc : ℕ → Heap → ℕ × Heap
malloc size s =
    let size' = align_up size in
    let block = find_free_block size' s in
    let (expanded, s₁) = expand_heap (add64 size' sizeof_heap_block) s in
    if size == 0
    then (null, s)
    else if not (block == null)
    then take_block block size' s
    else if not expanded
    then (null, s₁)
    else take_found (find_free_block size' s₁) size' s₁

-- `free` of a valid used block.
unfoldable pub release : ℕ → Heap → Heap
release block s = coalesce_block block (record s {
  blocks = set_mark block true magic_free s.blocks;
  total_allocated = sub64 s.total_allocated (s.blocks block).size;
  total_free = add64 s.total_free (s.blocks block).size;
  num_frees = add64 s.num_frees 1;
})

unfoldable pub free : ℕ → Heap → Heap
free ptr s =
    let block = from_data ptr in
    if ptr == null
    then s
    else if not (is_valid (s.blocks block)) || (s.blocks block).is_free
    then s
    else release block s

-- `realloc` of a valid used block to a size that fits it.
unfoldable pub shrink : ℕ → ℕ → ℕ → Heap → Heap
shrink block old_size new_size s =
    let s₁ = split_block block new_size s in
    if ltb (add64 new_size min_block_size) old_size
    then record s₁ {
      total_allocated = sub64 s₁.total_allocated (sub64 old_size new_size);
      total_free = add64 s₁.total_free (sub64 old_size new_size);
    }
    else s

-- `realloc` of a valid used block that is too small.
unfoldable pub move : ℕ → ℕ → ℕ → Heap → ℕ × Heap
move ptr old_size new_size s =
    let (new_ptr, s₁) = malloc new_size s in
    if new_ptr == null
    then (null, s₁)
    else (new_ptr, free ptr (record s₁ { bytes = memcpy new_ptr ptr old_size s₁.bytes }))

unfoldable pub realloc : ℕ → ℕ → Heap → ℕ × Heap
realloc ptr new_size s =
    let block = from_data ptr in
    let old_size = (s.blocks block).size in
    let new_size' = align_up new_size in
    if ptr == null
    then malloc new_size s
    else if new_size == 0
    then (null, free ptr s)
    else if not (is_valid (s.blocks block)) || (s.blocks block).is_free
    then (null, s)
    else if leb new_size' old_size
    then (ptr, shrink block old_size new_size' s)
    else move ptr old_size new_size' s

unfoldable pub calloc : ℕ → ℕ → Heap → ℕ × Heap
calloc num size s =
    let total_size = mul64 num size in
    let (ptr, s₁) = malloc total_size s in
    if ltb 0 num && not (total_size / num == size)
    then (null, s)
    else if ptr == null
    then (null, s₁)
    else (ptr, record s₁ { bytes = memset ptr 0 total_size s₁.bytes })

-- A pointer stored in memory, lowest byte first.
unfoldable pub store_pointer : ℕ → ℕ → ℕ → Bytes → Bytes
store_pointer zero at v bytes = bytes
store_pointer (suc n) at v bytes =
    store_pointer n (at + 1) (v / 256) (update bytes at (bit_and v 0xff))

unfoldable pub aligned_alloc : ℕ → ℕ → Heap → ℕ × Heap
aligned_alloc alignment size s =
    let (raw_ptr, s₁) = malloc (add64 (add64 size alignment) 8) s in
    let aligned_addr = align_up (add64 raw_ptr 8) in
    if (alignment == 0) || not (bit_and alignment (sub64 alignment 1) == 0)
    then (null, s)
    else if raw_ptr == null
    then (null, s₁)
    else (
      aligned_addr,
      record s₁ { bytes = store_pointer 8 (sub64 aligned_addr 8) raw_ptr s₁.bytes },
    )

-- The loop of `validate_heap`: the counts of the bytes in used and in free blocks; `none` of a
-- corrupt block is `false` in the Boolean.
unfoldable pub validate_from : ℕ → ℕ → ℕ → ℕ → Blocks → Bool × ℕ × ℕ
validate_from zero current used free_bytes mem = (true, used, free_bytes)
validate_from (suc n) current used free_bytes mem =
    let b = mem current in
    let used' = if b.is_free then used else add64 used b.size in
    let free' = if b.is_free then add64 free_bytes b.size else free_bytes in
    let rest = validate_from n b.next used' free' mem in
    if current == null
    then (true, used, free_bytes)
    else if not (is_valid b)
    then (false, used, free_bytes)
    else rest

unfoldable pub validate_heap : Heap → Bool
validate_heap s =
    let (intact, used, free_bytes) = validate_from (fuel s) s.first_block 0 0 s.blocks in
    intact && (used == s.total_allocated) && (free_bytes == s.total_free)
