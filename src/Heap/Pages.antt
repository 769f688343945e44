-- ===== src/Heap/Pages.antt =====
-- `heap::map_pages` and `heap::unmap_pages`.
pub mod Keeps
use coronel.Base.{
  ℕ, zero, suc, ◌+◌, ◌/◌, Bool, true, false, ◌&&◌, ltb, leb, ◌==◌, if◌then◌else◌, add64, mul64,
}
use coronel.Config.{frame_size, align_up}
use coronel.Machine.{Machine, null}
use coronel.Memory.{Bytes}
use coronel.Physical
use coronel.Paging.{map_current, unmap_current}
use coronel.Heap.{Heap, Blocks, heap_block}

-- The address of page `i`.
abbrev pub page_at : ℕ → ℕ → ℕ
page_at start i = add64 start (mul64 i frame_size)

-- `lib::memset(virt_addr, 0, FRAME_SIZE)`: the bytes of the page, and what stands there as headers.
abbrev clear_bytes : ℕ → Bytes → Bytes
clear_bytes page bytes a = if leb page a && ltb a (page + frame_size) then 0 else bytes a

abbrev clear_blocks : ℕ → Blocks → Blocks
clear_blocks page mem a =
    if leb page a && ltb a (page + frame_size)
    then record (heap_block 0 false) { magic = 0 }
    else mem a

abbrev pub clear_page : ℕ → Heap → Heap
clear_page page s = record s {
  bytes = clear_bytes page s.bytes;
  blocks = clear_blocks page s.blocks;
}

-- Unmaps the pages `j`, `j + 1`, … of `start`, by the number of them.
pub unmap_from : ℕ → ℕ → ℕ → Machine → Machine
unfolding unmap_current
unmap_from zero j start m = m
unmap_from (suc n) j start m = unmap_from n (j + 1) start (unmap_current (page_at start j) m)

-- The loop of `map_pages` from page `i` on, by the number of rounds.
unfoldable pub map_from : ℕ → ℕ → ℕ → Heap → Bool × Heap
unfolding unmap_from map_current Physical.alloc Physical.free
map_from zero i start s = (true, s)
map_from (suc n) i start s =
    let (phys_addr, m₁) = Physical.alloc s.machine in
    let (result, m₂) = map_current (page_at start i) phys_addr 0x03 m₁ in
    let rest =
      map_from n (i + 1) start (clear_page (page_at start i) (record s { machine = m₂ })) in
    if phys_addr == null
    then (false, record s { machine = unmap_from i 0 start m₁ })
    else if result == 0
    then rest
    else (false, record s { machine = unmap_from i 0 start (Physical.free phys_addr m₂) })

unfoldable pub map_pages : ℕ → ℕ → Heap → Bool × Heap
unfolding map_from
map_pages start size s = map_from (align_up size / frame_size) 0 start s

unfoldable pub unmap_pages : ℕ → ℕ → Heap → Heap
unfolding unmap_from
unmap_pages start size s = record s {
  machine = unmap_from (align_up size / frame_size) 0 start s.machine;
}
