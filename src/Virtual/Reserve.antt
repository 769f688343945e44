-- ===== src/Virtual/Reserve.antt =====
-- `virt::alloc(vaddr_t, size_t)`: what reserving inside a region leaves on the free list.
use coronel.Base.{ℕ, ◌+◌, ◌-◌, ◌^◌, ◌<◌, ◌≡◌, refl, true, List, [], ◌∷◌, arith, some}
use coronel.Machine.{Machine}
use coronel.Virtual.{Node, node, push_back, reserve_first, alloc_at}
use coronel.Virtual.Regions.{count, count-append}

-- The reservation is made at the first region.
reserve_here :
    (addr size : ℕ) (n : Node) (ns : List Node)
    → n.start < addr
    → addr + size < n.start + n.size
    → n.start + n.size < 2 ^ 64
    → reserve_first addr size (n ∷ ns)
      ≡ some (node n.start (addr - n.start) ∷ ns, node (addr + size) n.size)
unfolding reserve_first
reserve_here addr size n ns lo hi small = ground arith

-- Reserving `size` bytes strictly inside the first region keeps the part before the reservation
-- and appends a slot behind it that has the old size of the whole region. So the byte after the end
-- of the region is on the free list once more than before, although it was no part of the region.
alloc_at_overreaches :
    (addr size : ℕ) (n : Node) (ns : List Node) (m : Machine)
    → n.start < addr
    → addr + size < n.start + n.size
    → addr + size + n.size < 2 ^ 64
    → ((alloc_at addr size (n ∷ ns) m).0 ≡ true)
      × (count (n.start + n.size) (alloc_at addr size (n ∷ ns) m).1
          ≡ count (n.start + n.size) (n ∷ ns) + 1)
unfolding alloc_at push_back
alloc_at_overreaches addr size n ns m lo hi small =
    rw (reserve_here addr size n ns lo hi (omega arith), alloc_at)
      (refl, ground (arith, count-append (n.start + n.size) ns (node (addr + size) n.size ∷ [])))
