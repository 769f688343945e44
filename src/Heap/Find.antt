-- ===== src/Heap/Find.antt =====
-- `find_free_block` is first fit.
use coronel.Base.{
  ℕ, zero, suc, ◌+◌, ◌*◌, ◌≤◌, ◌<◌, ◌≡◌, ◌&&◌, List, [], ◌∷◌, leb, arith, length, if◌then◌else◌,
}
use coronel.Machine.{null}
use coronel.Heap.{Blocks, Heap}
use coronel.Heap.Blocks.{fuel, find_from, find_free_block}
use coronel.Heap.Chain.{Entry, IsChain, IsHeap, span}

-- The first free block with room for `size` bytes, or null.
abbrev pub first_fit : ℕ → List Entry → ℕ
first_fit size [] = null
first_fit size (e ∷ es) = if e.is_free && leb size e.size then e.addr else first_fit size es

pub find_from_lem :
    (n size : ℕ) (mem : Blocks) (lo prev p : ℕ) (es : List Entry)
    → length es < n
    → IsChain mem lo prev p es
    → find_from n p size mem ≡ first_fit size es
unfolding find_from
find_from_lem zero size mem lo prev p es h c = absurd (omega arith)
find_from_lem (suc n) size mem lo prev p [] h c = ground arith
find_from_lem (suc n) size mem lo prev p (e ∷ es) h c =
    let rest = find_from_lem n size mem (p + 40 + e.size) p (mem p).next es (omega arith) c.4 in
    ground (arith, rest)

-- A chain has fewer blocks than the bytes it spans.
pub length-le-span : (es : List Entry) → length es * 40 ≤ span es
length-le-span [] = omega arith
length-le-span (e ∷ es) = omega (arith, length-le-span es)

-- On a well-formed block list that fits the size of a heap that is not empty, the search of the code
-- finds what first fit finds in the abstract list: the first free block that is large enough, or null.
pub find_free_block-first_fit :
    (size : ℕ) (s : Heap) (es : List Entry)
    → IsHeap s es
    → span es ≤ s.heap_size
    → 0 < s.heap_size
    → find_free_block size s ≡ first_fit size es
unfolding find_free_block
find_free_block-first_fit size s es c fits pos =
    find_from_lem (fuel s) size s.blocks 1 null s.first_block es (omega (arith, length-le-span es))
      c
