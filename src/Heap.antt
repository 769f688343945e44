-- ===== src/Heap.antt =====
-- src/kernel/memory/heap.hpp and heap.cpp: the kernel heap, its blocks as headers at addresses. The heap's
-- `phys_manager_` is the one `physical` object of the machine, `virt_manager_` the list `free_mem`.
pub mod Trace
pub mod Grow
pub mod Pages
pub mod Blocks
pub mod Chain
pub mod Find
pub mod Coalesce
pub mod Malloc
pub mod Counters
pub mod Realloc
pub mod Calloc
pub mod Free
use coronel.Base.{
  ℕ, zero, suc, ◌+◌, ◌-◌, ◌*◌, ◌/◌, ◌^◌, Bool, true, false, not, ◌&&◌, ◌||◌, bit_and, List, ltb,
  leb, ◌==◌, if◌then◌else◌, add64, sub64, mul64,
}
use coronel.Config.{frame_size, align_up}
use coronel.Machine.{Machine, null, update}
use coronel.Memory.{Bytes}
use coronel.Virtual.{Node}

-- `heap_block`; `size_t`, `bool`, two pointers and `uint32_t`, 40 bytes with padding.
pub record HeapBlock : Type 0 where
  pub size : ℕ
  pub is_free : Bool
  pub next : ℕ
  pub prev : ℕ
  pub magic : ℕ

abbrev pub sizeof_heap_block : ℕ
sizeof_heap_block = 40

abbrev pub magic_free : ℕ
magic_free = 0xDEADBEEF

abbrev pub magic_used : ℕ
magic_used = 0xCAFEBABE

-- The constructor.
abbrev pub heap_block : ℕ → Bool → HeapBlock
heap_block sz free = record {
  size = sz;
  is_free = free;
  next = null;
  prev = null;
  magic = if free then magic_free else magic_used;
}

abbrev pub block_data : ℕ → ℕ
block_data block = add64 block sizeof_heap_block

abbrev pub from_data : ℕ → ℕ
from_data ptr = sub64 ptr sizeof_heap_block

abbrev pub is_valid : HeapBlock → Bool
is_valid b = (b.magic == magic_free) || (b.magic == magic_used)

abbrev pub Blocks : Type 0
Blocks = ℕ → HeapBlock

-- Assignments through a block pointer.
abbrev pub set_size : ℕ → ℕ → Blocks → Blocks
set_size b v mem = update mem b (record (mem b) { size = v })

abbrev pub set_next : ℕ → ℕ → Blocks → Blocks
set_next b v mem = update mem b (record (mem b) { next = v })

abbrev pub set_prev : ℕ → ℕ → Blocks → Blocks
set_prev b v mem = update mem b (record (mem b) { prev = v })

-- `if (p) { p->prev = v; }`
abbrev pub relinked : ℕ → ℕ → Blocks → Blocks
relinked p v mem a = if p == null then mem a else set_prev p v mem a

abbrev pub set_mark : ℕ → Bool → ℕ → Blocks → Blocks
set_mark b free magic mem = update mem b (record (mem b) { is_free = free; magic = magic })

-- The fields of the `heap` object, and the memory that it works on.
pub record Heap : Type 0 where
  pub machine : Machine
  pub free_mem : List Node
  pub blocks : Blocks
  pub bytes : Bytes
  pub heap_start : ℕ
  pub heap_end : ℕ
  pub heap_size : ℕ
  pub first_block : ℕ
  pub total_allocated : ℕ
  pub total_free : ℕ
  pub num_allocations : ℕ
  pub num_frees : ℕ

-- `MIN_BLOCK_SIZE`
abbrev pub min_block_size : ℕ
min_block_size = sizeof_heap_block + 16
