-- ===== src/User/Blocks.antt =====
-- The operations of `user_allocator`.
use coronel.Base.{
  ℕ, zero, suc, ◌+◌, ◌-◌, ◌/◌, Bool, true, false, not, ◌&&◌, ◌||◌, ltb, leb, ◌==◌, if◌then◌else◌,
  u32, add64, sub64, add32, sub32, mul64,
}
use coronel.Config.{align_up}
use coronel.Machine.{Machine, null, update}
use coronel.Memory.{memset, memcpy}
use coronel.User.{
  UserHeap, UserBlocks, user_block, sizeof_user_block, is_free, is_valid, set_free, block_data,
  from_data, set_size, set_next, set_prev, set_flags, relinked, user_heap_start, user_heap_max,
  user_heap_initial_size,
}
use coronel.User.Pages.{sys_request_memory, sys_release_memory}

-- A list of live blocks has fewer blocks than the heap has bytes.
abbrev pub fuel : UserHeap → ℕ
fuel s = sub64 s.heap_current s.heap_start

unfoldable pub user_allocator : ℕ → UserBlocks → (ℕ → ℕ) → Machine → UserHeap
user_allocator page_dir blocks bytes m =
    let (granted, m₁) = sys_request_memory page_dir user_heap_start user_heap_initial_size m in
    let s : UserHeap = record {
      machine = m₁;
      blocks = blocks;
      bytes = bytes;
      heap_start = user_heap_start;
      heap_current = user_heap_start;
      heap_limit = user_heap_max;
      first_block = null;
      page_directory = page_dir;
      total_allocated = 0;
      num_blocks = 0;
    } in
    if granted
    then record s {
      heap_current = add64 user_heap_start user_heap_initial_size;
      first_block = user_heap_start;
      blocks =
          update blocks user_heap_start
            (user_block (user_heap_initial_size - sizeof_user_block) true);
    }
    else s

-- The loop of `find_free_block`.
unfoldable pub find_from : ℕ → ℕ → ℕ → UserBlocks → ℕ
find_from zero current size mem = null
find_from (suc n) current size mem =
    let rest = find_from n (mem current).next size mem in
    if current == null
    then null
    else if is_free (mem current).flags && leb size (mem current).size
    then current
    else rest

unfoldable pub find_free_block : ℕ → UserHeap → ℕ
find_free_block size s = find_from (fuel s) s.first_block size s.blocks

-- The loop of `expand_heap` that looks for the last block.
unfoldable pub last_from : ℕ → ℕ → UserBlocks → ℕ
last_from zero current mem = current
last_from (suc n) current mem =
    let rest = last_from n (mem current).next mem in
    if (mem current).next == null then current else rest

unfoldable pub split_block : ℕ → ℕ → UserHeap → UserHeap
split_block block size s =
    let mem = s.blocks in
    let new_block = add64 (block_data block) size in
    let next = (mem block).next in
    let remaining_size = sub32 (sub32 (mem block).size size) sizeof_user_block in
    let fresh = record (user_block remaining_size true) { next = next; prev = block } in
    let mem₁ = relinked next new_block (update mem new_block fresh) in
    if ltb (mem block).size (size + sizeof_user_block + 16) then s else record s {
      blocks = set_size block size (set_next block new_block mem₁);
      num_blocks = add32 s.num_blocks 1;
    }

-- `b` is absorbed by the block `a` in front of it.
abbrev pub absorb_block : ℕ → ℕ → UserBlocks → UserBlocks
absorb_block a b mem =
    let size = add32 (mem a).size (sizeof_user_block + (mem b).size) in
    let next = (mem b).next in relinked next a (set_next a next (set_size a size mem))

-- The two halves of `coalesce_block`.
unfoldable pub coalesce_next : ℕ → UserHeap → UserHeap
coalesce_next block s =
    let mem = s.blocks in
    let next = (mem block).next in
    if not (next == null)
      && is_free (mem next).flags
      && (add64 (block_data block) (mem block).size == next)
    then record s { blocks = absorb_block block next mem; num_blocks = sub32 s.num_blocks 1 }
    else s

unfoldable pub coalesce_prev : ℕ → UserHeap → UserHeap
coalesce_prev block s =
    let mem = s.blocks in
    let prev = (mem block).prev in
    if not (prev == null)
      && is_free (mem prev).flags
      && (add64 (block_data prev) (mem prev).size == block)
    then record s { blocks = absorb_block prev block mem; num_blocks = sub32 s.num_blocks 1 }
    else s

unfoldable pub coalesce_block : ℕ → UserHeap → UserHeap
coalesce_block block s =
    if not (is_free (s.blocks block).flags) then s else coalesce_prev block (coalesce_next block s)

-- The end of `expand_heap`, once the kernel has granted the memory.
unfoldable pub append_region : ℕ → UserHeap → UserHeap
append_region expand_size s =
    let new_block = s.heap_current in
    let mem₁ =
      update s.blocks new_block (user_block (u32 (sub64 expand_size sizeof_user_block)) true) in
    let last = last_from (fuel s) s.first_block mem₁ in
    let linked = set_prev new_block last (set_next last new_block mem₁) in
    let s₁ : UserHeap =
      if s.first_block == null
      then record s { blocks = mem₁; first_block = new_block }
      else record s { blocks = linked } in
    coalesce_block new_block (record s₁ { heap_current = add64 s.heap_current expand_size })

unfoldable pub expand_heap : ℕ → UserHeap → Bool × UserHeap
expand_heap min_size s =
    let expand_size = align_up min_size in
    let (granted, m₁) = sys_request_memory s.page_directory s.heap_current expand_size s.machine in
    let s₁ : UserHeap = record s { machine = m₁ } in
    if ltb user_heap_max (add64 s.heap_current expand_size)
    then (false, s)
    else if not granted
    then (false, s₁)
    else (true, append_region expand_size s₁)

-- The end of `malloc`, from the block that was found.
unfoldable pub take_block : ℕ → ℕ → UserHeap → ℕ × UserHeap
take_block block aligned_size s =
    let s₁ = split_block block aligned_size s in
    (
      block_data block,
      record s₁ {
        blocks = set_flags block (set_free false (s₁.blocks block).flags) s₁.blocks;
        total_allocated = add32 s₁.total_allocated aligned_size;
      },
    )

-- The second search, after the heap has grown.
unfoldable pub take_found : ℕ → ℕ → UserHeap → ℕ × UserHeap
take_found block aligned_size s =
    if block == null then (null, s) else take_block block aligned_size s

abbrev pub max_single_alloc : ℕ
max_single_alloc = 0x80000000

unfoldable pub malloc : ℕ → UserHeap → ℕ × UserHeap
malloc size s =
    let aligned_size = u32 (align_up size) in
    let block = find_free_block aligned_size s in
    let (expanded, s₁) = expand_heap (u32 (aligned_size + sizeof_user_block)) s in
    if size == 0
    then (null, s)
    else if ltb max_single_alloc size
    then (null, s)
    else if not (block == null)
    then take_block block aligned_size s
    else if not expanded
    then (null, s₁)
    else take_found (find_free_block aligned_size s₁) aligned_size s₁

-- `free` of a valid used block.
unfoldable pub release : ℕ → UserHeap → UserHeap
release block s = coalesce_block block (record s {
  blocks = set_flags block (set_free true (s.blocks block).flags) s.blocks;
  total_allocated = sub32 s.total_allocated (s.blocks block).size;
})

unfoldable pub free : ℕ → UserHeap → UserHeap
free ptr s =
    let block = from_data ptr in
    if ptr == null
    then s
    else if not (is_valid (s.blocks block).flags) || is_free (s.blocks block).flags
    then s
    else release block s

-- `realloc` of a valid used block that is too small.
unfoldable pub move : ℕ → ℕ → ℕ → UserHeap → ℕ × UserHeap
move ptr old_size new_size s =
    let (new_ptr, s₁) = malloc new_size s in
    if new_ptr == null
    then (null, s₁)
    else (new_ptr, free ptr (record s₁ { bytes = memcpy new_ptr ptr old_size s₁.bytes }))

unfoldable pub realloc : ℕ → ℕ → UserHeap → ℕ × UserHeap
realloc ptr new_size s =
    let block = from_data ptr in
    let old_size = (s.blocks block).size in
    let aligned_new_size = u32 (align_up new_size) in
    if ptr == null
    then malloc new_size s
    else if new_size == 0
    then (null, free ptr s)
    else if not (is_valid (s.blocks block).flags) || is_free (s.blocks block).flags
    then (null, s)
    else if leb aligned_new_size old_size
    then (
      ptr,
      if ltb (aligned_new_size + sizeof_user_block + 16) old_size
          then split_block block aligned_new_size s
          else s,
    )
    else move ptr old_size new_size s

abbrev pub max_total_alloc : ℕ
max_total_alloc = 0x80000000

unfoldable pub calloc : ℕ → ℕ → UserHeap → ℕ × UserHeap
calloc num size s =
    let total_size = mul64 num size in
    let (ptr, s₁) = malloc total_size s in
    if ltb 0 num && ltb (max_total_alloc / num) size
    then (null, s)
    else if ptr == null
    then (null, s₁)
    else (ptr, record s₁ { bytes = memset ptr 0 total_size s₁.bytes })

unfoldable pub set_heap_limit : ℕ → UserHeap → Bool × UserHeap
set_heap_limit max_size s =
    let new_limit = add64 s.heap_start max_size in
    if ltb user_heap_max new_limit || ltb new_limit s.heap_current
    then (false, s)
    else (true, record s { heap_limit = new_limit })

unfoldable pub get_heap_size : UserHeap → ℕ
get_heap_size s = sub64 s.heap_current s.heap_start

-- The loop of `validate_heap`.
unfoldable pub validate_from : ℕ → ℕ → ℕ → UserBlocks → Bool × ℕ
validate_from zero current counted mem = (true, counted)
validate_from (suc n) current counted mem =
    let b = mem current in
    let rest =
      validate_from n b.next (if is_free b.flags then counted else add32 counted b.size) mem in
    if current == null
    then (true, counted)
    else if not (is_valid b.flags)
    then (false, counted)
    else rest

unfoldable pub validate_heap : UserHeap → Bool
validate_heap s =
    let (intact, counted) = validate_from (fuel s) s.first_block 0 s.blocks in
    intact && (counted == s.total_allocated)

unfoldable pub cleanup_on_exit : UserHeap → UserHeap
cleanup_on_exit s =
    let total_size = sub64 s.heap_current s.heap_start in
    if ltb s.heap_start s.heap_current
    then record s {
      machine = sys_release_memory s.page_directory s.heap_start total_size s.machine;
    }
    else s
