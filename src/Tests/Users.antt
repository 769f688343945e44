-- ===== src/Tests/Users.antt =====
-- src/kernel/memory/user_allocator.cpp on a heap of one block, and `calloc` of the kernel heap.
use coronel.Base.{◌≡◌, ◌≤◌, ◌<◌, ◌*◌, ◌^◌, ◌↔◌, true, false, arith}
use coronel.Machine.{null}
use coronel.User.{UserHeap, user_block, user_null_guard_size}
use coronel.User.Process.{validate_user_pointer, validate_user_pointer_iff}
use coronel.Heap.Blocks
use coronel.Heap.Calloc
use coronel.Heap.Calloc.{calloc_overflow}
use coronel.Tests.Frames.{no_frames}
use coronel.Tests.Headers.{two_blocks}

-- One used block of a page.
abbrev pub one_block : UserHeap
one_block = record {
  machine = no_frames;
  blocks = λ a. user_block 4096 false;
  bytes = λ a. 0;
  heap_start = 0x08000000;
  heap_current = 0x08100000;
  heap_limit = 0x40000000;
  first_block = 0x08000000;
  page_directory = 0;
  total_allocated = 4096;
  num_blocks = 0;
}

small_flags : (user_block 4096 false).flags < 2 ^ 32
unfolding user_block
small_flags = omega arith

validate_user_pointer_iff_example :
    (validate_user_pointer 0x400000 16 ≡ true)
    ↔ ((user_null_guard_size ≤ 0x400000) × (0x400010 < 2 ^ 47))
validate_user_pointer_iff_example =
    validate_user_pointer_iff 0x400000 16 (omega arith) (omega arith)

calloc_overflow_example :
    (2 ^ 64 ≤ 0x200000000 * 0x80000001
      → Blocks.calloc 0x200000000 0x80000001 two_blocks ≡ (null, two_blocks))
    × (0x200000000 * 0x80000001 < 2 ^ 64
        → Blocks.calloc 0x200000000 0x80000001 two_blocks
          ≡ Calloc.cleared
              (0x200000000 * 0x80000001)
              (Blocks.malloc (0x200000000 * 0x80000001) two_blocks))
calloc_overflow_example = calloc_overflow 0x200000000 0x80000001 two_blocks (omega arith)
