-- ===== src/User.antt =====
-- src/kernel/memory/user_allocator.hpp and user_allocator.cpp: the heap of a process, and its memory.
pub mod Pages
pub mod Blocks
pub mod Process
pub mod Lifetime
pub mod Cleanup
pub mod Flags
pub mod Laws
pub mod View
pub mod Trace
use coronel.Base.{
  ℕ, ◌+◌, ◌-◌, ◌^◌, Bool, true, false, not, ◌&&◌, ◌||◌, bit_and, bit_or, ◌==◌, if◌then◌else◌, add64,
  sub64,
}
use coronel.Machine.{Machine, null, update}
use coronel.Memory.{Bytes}

abbrev pub user_null_guard_size : ℕ
user_null_guard_size = 0x400000

abbrev pub user_heap_start : ℕ
user_heap_start = 0x08000000

abbrev pub user_heap_max : ℕ
user_heap_max = 0x40000000

abbrev pub user_stack_top : ℕ
user_stack_top = 0x7fff0000

-- 1_MB
abbrev pub user_heap_initial_size : ℕ
user_heap_initial_size = 0x100000

-- `user_block`; two `uint32_t` and two pointers, 24 bytes.
pub record UserBlock : Type 0 where
  pub size : ℕ
  pub flags : ℕ
  pub next : ℕ
  pub prev : ℕ

abbrev pub sizeof_user_block : ℕ
sizeof_user_block = 24

abbrev pub magic_free : ℕ
magic_free = 0xAA000000

abbrev pub magic_used : ℕ
magic_used = 0x55000000

-- The constructor.
unfoldable pub user_block : ℕ → Bool → UserBlock
user_block sz free = record {
  size = sz;
  flags = bit_or (if free then 0x01 else 0) (if free then magic_free else magic_used);
  next = null;
  prev = null;
}

-- The tests and the setter work on the `flags` word.
unfoldable pub is_free : ℕ → Bool
is_free flags = not (bit_and flags 0x01 == 0)

-- `~(FLAG_FREE | MAGIC_MASK)` on `uint32_t` is 0x00fffffe.
unfoldable pub set_free : Bool → ℕ → ℕ
set_free free flags =
    bit_or (bit_or (bit_and flags 0x00fffffe) (if free then 0x01 else 0))
      (if free then magic_free else magic_used)

unfoldable pub is_valid : ℕ → Bool
is_valid flags =
    let magic = bit_and flags 0xff000000 in (magic == magic_free) || (magic == magic_used)

abbrev pub block_data : ℕ → ℕ
block_data block = add64 block sizeof_user_block

abbrev pub from_data : ℕ → ℕ
from_data ptr = sub64 ptr sizeof_user_block

abbrev pub UserBlocks : Type 0
UserBlocks = ℕ → UserBlock

-- The fields of `user_allocator`, and the memory that it works on; the blocks and bytes are those of
-- the address space of `page_directory`.
pub record UserHeap : Type 0 where
  pub machine : Machine
  pub blocks : UserBlocks
  pub bytes : Bytes
  pub heap_start : ℕ
  pub heap_current : ℕ
  pub heap_limit : ℕ
  pub first_block : ℕ
  pub page_directory : ℕ
  pub total_allocated : ℕ
  pub num_blocks : ℕ

-- Assignments through a block pointer.
abbrev pub set_size : ℕ → ℕ → UserBlocks → UserBlocks
set_size b v mem = update mem b (record (mem b) { size = v })

abbrev pub set_next : ℕ → ℕ → UserBlocks → UserBlocks
set_next b v mem = update mem b (record (mem b) { next = v })

abbrev pub set_prev : ℕ → ℕ → UserBlocks → UserBlocks
set_prev b v mem = update mem b (record (mem b) { prev = v })

-- `if (p) { p->prev = v; }`
abbrev pub relinked : ℕ → ℕ → UserBlocks → UserBlocks
relinked p v mem a = if p == null then mem a else set_prev p v mem a

abbrev pub set_flags : ℕ → ℕ → UserBlocks → UserBlocks
set_flags b v mem = update mem b (record (mem b) { flags = v })
