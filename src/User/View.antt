-- ===== src/User/View.antt =====
-- The block list of a user heap as one of the kernel heap. A user header takes 24 bytes and one of the
-- kernel 40, so a user block of n bytes is seen as a kernel block of n - 16 bytes: both end at the
-- same address.
pub mod Coalesce
pub mod Free
pub mod Split
pub mod Malloc
pub mod Create
use coronel.Base.{
  ℕ, ◌+◌, ◌-◌, ◌^◌, ◌≤◌, ◌<◌, ◌≡◌, true, List, [], bit_and, ◌==◌, if◌then◌else◌, subst, sym,
}
use coronel.Machine.{null}
use coronel.Heap
use coronel.Heap.{HeapBlock, Blocks}
use coronel.Heap.Chain.{Entry, IsChain, IsChain-frame, IsHeap, has, span}
use coronel.User.{UserBlock, UserBlocks, UserHeap, is_free, magic_free, magic_used}

-- The magic number of the kernel for that of a user block, 0 for none.
unfoldable pub view_magic : ℕ → ℕ
view_magic flags =
    let magic = bit_and flags 0xff000000 in
    if magic == magic_free
    then Heap.magic_free
    else if magic == magic_used
    then Heap.magic_used
    else 0

abbrev pub view_block : UserBlock → HeapBlock
view_block b = record {
  size = b.size - 16;
  is_free = is_free b.flags;
  next = b.next;
  prev = b.prev;
  magic = view_magic b.flags;
}

abbrev pub view : UserBlocks → Blocks
view mem = λ a. view_block (mem a)

-- The kernel heap with the blocks of a user heap; its other fields are not looked at.
abbrev pub as_kernel : UserHeap → Heap.Heap
as_kernel s = record {
  machine = s.machine;
  free_mem = [];
  blocks = view s.blocks;
  bytes = s.bytes;
  heap_start = s.heap_start;
  heap_end = s.heap_current;
  heap_size = s.heap_current - s.heap_start;
  first_block = s.first_block;
  total_allocated = s.total_allocated;
  total_free = 0;
  num_allocations = 0;
  num_frees = 0;
}

-- A user heap whose block list is `es`. The sizes and the flags are words of 32 bits.
pub record IsUserHeap (s : UserHeap) (es : List Entry) : Type 0 where
  pub heap : IsHeap (as_kernel s) es
  pub large : (a : ℕ) → has a es ≡ true → 16 ≤ (s.blocks a).size
  pub words : (a : ℕ) → (s.blocks a).flags < 2 ^ 32
  pub bounded : span es + 64 < 2 ^ 32

-- A user heap with the blocks of a kernel heap.
pub record Agrees (s : UserHeap) (t : Heap.Heap) : Type 0 where
  pub blocks : (a : ℕ) → view s.blocks a ≡ t.blocks a
  pub first_block : s.first_block ≡ t.first_block

pub Agrees-IsHeap :
    (s : UserHeap) (t : Heap.Heap) (es : List Entry)
    → Agrees s t
    → IsHeap t es
    → IsHeap (as_kernel s) es
Agrees-IsHeap s t es same c =
    subst (λ (p : ℕ). IsChain (view s.blocks) 1 null p es) (sym same.first_block)
      (IsChain-frame t.blocks (view s.blocks) 1 null t.first_block es (λ a h. same.blocks a) c)
