-- ===== src/Physical.antt =====
-- src/kernel/memory/physical.cpp: the stack of free page frames. A pointer is 0 for `nullptr`, and the
-- tracking array of `alloc(blocks)` is kept as the list of what was stored in it, last first.
pub mod Chain
pub mod Setup
pub mod Trace
pub mod Blocks
use coronel.Base.{
  ℕ, zero, suc, ◌+◌, ◌-◌, ◌*◌, ◌/◌, Bool, true, false, not, ◌||◌, List, [], ◌∷◌, ltb, leb, ◌==◌,
  if◌then◌else◌, add64, sub64, mul64,
}
use coronel.Config.{frame_size, is_aligned, align_up, align_down}
use coronel.Machine.{Frame, Machine, null, update, placement_kalloc, kfree_block}

abbrev pub sizeof_frame : ℕ
sizeof_frame = 16

abbrev pub sizeof_paddr : ℕ
sizeof_paddr = 8

-- The state after `physical::physical()`.
unfoldable pub init : Machine → Machine
init m = record m { physical_end = null; free_list = null }

-- The node goes into memory that `placement_kalloc` hands out.
pub push : ℕ → Machine → Machine
unfolding placement_kalloc
push addr m =
    let (new_head, _, m') = placement_kalloc sizeof_frame false m in
    record m' {
      frames = update m'.frames new_head (record { address = addr; previous = m'.free_list });
      free_list = new_head;
    }

unfoldable pub free : ℕ → Machine → Machine
unfolding push
free addr m = if not (is_aligned addr) || leb m.physical_end addr then m else push addr m

-- `for (; addr < end; addr += FRAME_SIZE)`, by the number of rounds.
pub free_all : ℕ → ℕ → Machine → Machine
free_all zero addr m = m
free_all (suc n) addr m = free_all n (add64 addr frame_size) (free addr m)

-- The rounds of that loop: both ends are multiples of the page size.
abbrev rounds : ℕ → ℕ → ℕ
rounds addr end = (end - addr) / frame_size

unfoldable pub setup : ℕ → ℕ → Machine → Machine
unfolding free_all
setup start len m =
    let addr = align_up start in
    let end = align_down (add64 start len) in
    free_all (rounds addr end) addr (record m { physical_end = add64 start len })

-- The frame, or 0.
unfoldable pub alloc : Machine → ℕ × Machine
alloc m =
    if m.free_list == null
    then (null, m)
    else ((m.frames m.free_list).address, record m { free_list = (m.frames m.free_list).previous })

pub free_each : List ℕ → Machine → Machine
free_each [] m = m
free_each (a ∷ l) m = free_each l (free a m)

-- The loop of `alloc(blocks)`: the rounds left, and the array's contents, last first. The Boolean
-- says whether every round got a frame.
pub take_each : ℕ → List ℕ → Machine → Bool × List ℕ × Machine
unfolding alloc
take_each zero got m = (true, got, m)
take_each (suc n) got m =
    let (a, m') = alloc m in
    let rest = take_each n (a ∷ got) m' in if a == null then (false, got, m') else rest

-- Last first to first first.
pub onto : List ℕ → List ℕ → List ℕ
onto [] out = out
onto (a ∷ l) out = onto l (a ∷ out)

pub first : List ℕ → ℕ
first [] = null
first (a ∷ l) = a

pub alloc_tracked : ℕ → Machine → ℕ × Machine
unfolding take_each free_each onto first placement_kalloc kfree_block
alloc_tracked blocks m =
    let (array, _, m₁) = placement_kalloc (mul64 blocks sizeof_paddr) false m in
    let (full, got, m₂) = take_each blocks [] m₁ in
    let allocated = onto got [] in
    if array == null
    then (null, m₁)
    else if full
    then (first allocated, kfree_block (mul64 blocks sizeof_paddr) m₂)
    else (null, kfree_block (mul64 blocks sizeof_paddr) (free_each allocated m₂))

unfoldable pub alloc_blocks : ℕ → Machine → ℕ × Machine
unfolding alloc_tracked
alloc_blocks blocks m =
    if ltb m.physical_end (mul64 blocks frame_size) || (blocks == 0)
    then (null, m)
    else alloc_tracked blocks m
