-- ===== src/Heap/Grow/Serve.antt =====
-- `heap::malloc` when no block has room.
use coronel.Base.{
  ℕ, ◌+◌, ◌-◌, ◌^◌, ◌≤◌, ◌<◌, ◌≡◌, ◌≢◌, refl, true, false, ◌&&◌, List, [], ◌∷◌, ◌==◌, leb, arith,
  Bool-cases, inl, inr, none, sym, subst, ap, ◌∙◌, add64,
}
use coronel.Config.{align_up}
use coronel.Config.Align.{align_up_lem}
use coronel.Machine.{null}
use coronel.Virtual
use coronel.Heap.{Heap, Blocks}
use coronel.Heap.Blocks.{
  fuel, last_from, malloc, expand_heap, find_free_block, take_found, take_block,
}
use coronel.Heap.Chain.{Entry, IsChain, IsHeap, used, span}
use coronel.Heap.Chain.Used.{insert_used, has_fit}
use coronel.Heap.Chain.Held.{find-end, size_at, find-size_at}
use coronel.Heap.Find.{first_fit, length-le-span, find_free_block-first_fit}
use coronel.Heap.Malloc.{cut, first_fit-find, Allocated, take_block-Allocated, take_block-heap_size}
use coronel.Heap.Grow.{end_of, last_of, last_from_lem}
use coronel.Heap.Grow.Expand.{with_region, expand_heap-IsHeap}

first_fit-has_fit :
    (mem : Blocks) (n lo before p : ℕ) (es : List Entry)
    → IsChain mem lo before p es
    → has_fit n es ≡ true
    → first_fit n es ≢ null
first_fit-has_fit mem n lo before p [] c h = absurd (ground arith)
first_fit-has_fit mem n lo before p (e ∷ es) c h = elim (Bool-cases (e.is_free && leb n e.size)) [
  | inl fits ↦ rw fits (omega (arith, c.0, c.1))
  | inr later ↦
      rw later
        (first_fit-has_fit mem n (p + 40 + e.size) p (mem p).next es c.4 (ground (arith, h, later)))
]

malloc_grows :
    (size : ℕ) (s : Heap)
    → size ≢ 0
    → find_free_block (align_up size) s ≡ null
    → (expand_heap (add64 (align_up size) 40) s).0 ≡ true
    → let s₁ = (expand_heap (add64 (align_up size) 40) s).1 in
      find_free_block (align_up size) s₁ ≢ null
      → malloc size s ≡ take_block (find_free_block (align_up size) s₁) (align_up size) s₁
unfolding malloc take_found
malloc_grows size s ne full grown found =
    let not_zero : (size == 0) ≡ false = ground (arith, ne) in
    let there : (find_free_block (align_up size) (expand_heap (add64 (align_up size) 40) s).1
          == null)
        ≡ false =
      ground (arith, found) in
    rw (not_zero, full, grown, there) refl

-- The bytes that `malloc` asks `expand_heap` for, rounded up.
abbrev pub growth : ℕ → ℕ
growth size = align_up (add64 (align_up size) 40)

-- Where the last block of the list ends.
abbrev pub last_end : Heap → ℕ
last_end s =
    let last = last_from (fuel s) s.first_block s.blocks in last + 40 + (s.blocks last).size

-- A region behind the last block, with pages that can be mapped, for a request that no block has
-- room for.
pub record CanGrow (size r : ℕ) (s : Heap) : Type 0 where
  pub region : (Virtual.alloc (growth size) s.free_mem).0 ≡ r
  pub behind : last_end s ≤ r
  pub mapped : (with_region r (growth size) s).0 ≡ true
  pub counted : s.heap_size + growth size < 2 ^ 64
  pub small : r + size + 16384 < 2 ^ 64

last_of-ends :
    (mem : Blocks) (lo before p : ℕ) (e : Entry) (es : List Entry)
    → IsChain mem lo before p (e ∷ es)
    → last_of e es + 40 + (mem (last_of e es)).size ≡ end_of e es
last_of-ends mem lo before p e [] c = ground (arith, c.0, c.3.size)
last_of-ends mem lo before p e (f ∷ es) c =
    last_of-ends mem (p + 40 + e.size) p (mem p).next f es c.4

last_end-end_of :
    (s : Heap) (e : Entry) (es : List Entry)
    → IsHeap s (e ∷ es)
    → span (e ∷ es) ≤ s.heap_size
    → last_end s ≡ end_of e es
last_end-end_of s e es c fits =
    let last =
      last_from_lem (fuel s) s.blocks s.blocks 1 null s.first_block e es
        (omega (arith, length-le-span (e ∷ es))) (λ a h. refl) c in
    ap (λ (b : ℕ). b + 40 + (s.blocks b).size) last
    ∙ last_of-ends s.blocks 1 null s.first_block e es c

-- The bounds of the sizes, and that the first search finds nothing.
growth-bounds :
    (size r : ℕ) (s : Heap)
    → CanGrow size r s
    → (size ≤ align_up size)
      × (align_up size + 4096 < 2 ^ 64)
      × (align_up size ≤ growth size - 40)
      × (40 ≤ growth size)
      × (r + growth size + 4096 < 2 ^ 64)
growth-bounds size r s grow =
    let n = align_up_lem size (omega (arith, grow.small)) in
    let g = align_up_lem (add64 (align_up size) 40) (omega (arith, grow.small, n)) in
    let w : add64 (align_up size) 40 ≡ align_up size + 40 = omega (arith, grow.small, n) in
    (
      omega (arith, n),
      omega (arith, n, grow.small),
      omega (arith, n, g, w),
      omega (arith, g, w),
      omega (arith, n, g, w, grow.small),
    )

-- The second search finds a block.
take_grown :
    (n : ℕ) (s : Heap) (es : List Entry)
    → IsHeap s es
    → span es ≤ s.heap_size
    → 0 < s.heap_size
    → has_fit n es ≡ true
    → n + 56 < 2 ^ 64
    → (find_free_block n s ≢ null)
      × (size_at (find_free_block n s) (used es) ≡ none)
      × (sz : ℕ) × (es' : List Entry) × Allocated
          (find_free_block n s)
          n
          es
          (take_block (find_free_block n s) n s)
          sz
          es'
take_grown n s es heap fits positive fit small =
    let at = find_free_block-first_fit n s es heap fits positive in
    let there = first_fit-has_fit s.blocks n 1 null s.first_block es heap fit in
    let (f, located, fr, room) = first_fit-find s.blocks n 1 null s.first_block es heap there in
    let out : size_at (first_fit n es) (used es) ≡ none =
      find-size_at s.blocks (first_fit n es) 1 null s.first_block es f heap located
      ∙ (rw fr refl) in
    let end = find-end s.blocks (first_fit n es) 1 null s.first_block es f heap located in
    let (es', done) =
      take_block-Allocated (first_fit n es) n s es f heap located fr room small
        (omega (arith, end, room)) in
    (
      subst (λ (b : ℕ). b ≢ null) (sym at) there,
      ap (λ (b : ℕ). size_at b (used es)) at ∙ out,
      cut n f.size,
      es',
      subst (λ (b : ℕ). Allocated b n es (take_block b n s) (cut n f.size) es') (sym at) done,
    )

-- On a well-formed list that is not empty and fits the heap, for a request of at least one byte
-- that no block has room for, with a region behind the last block that can be mapped and does not
-- bring the size of the heap or an address to the end of 64 bits: `malloc` does not fail. It hands
-- out a block of the heap that was not handed out before and has at least the bytes asked for, and
-- the list stays well-formed over a heap that has grown by the request in whole pages and a header,
-- rounded up again.
pub malloc-grows :
    (size r : ℕ) (s : Heap) (e : Entry) (es : List Entry)
    → IsHeap s (e ∷ es)
    → span (e ∷ es) ≤ s.heap_size
    → size ≢ 0
    → first_fit (align_up size) (e ∷ es) ≡ null
    → CanGrow size r s
    → ((malloc size s).0 ≢ null)
      × (b : ℕ) × (sz : ℕ) × (es' : List Entry) × ((malloc size s).0 ≡ b + 40)
      × (size_at b (used (e ∷ es)) ≡ none)
      × (size ≤ sz)
      × IsHeap (malloc size s).1 es'
      × (used es' ≡ insert_used b sz (used (e ∷ es)))
      × (span es' ≤ (malloc size s).1.heap_size)
      × ((malloc size s).1.heap_size ≡ s.heap_size + growth size)
malloc-grows size r s e es c fits ne full grow =
    let n = align_up size in
    let bounds = growth-bounds size r s grow in
    let behind : end_of e es ≤ r = omega (arith, last_end-end_of s e es c fits, grow.behind) in
    let (ok, grown, es₁, heap₁, handed, spans, roomy) =
      expand_heap-IsHeap (add64 n 40) r s e es c fits grow.counted grow.region behind bounds.3
        bounds.4 grow.mapped in
    let s₁ = (expand_heap (add64 n 40) s).1 in
    let fits₁ : span es₁ ≤ s₁.heap_size = omega (arith, spans, grown, fits) in
    let positive : 0 < s₁.heap_size = omega (arith, grown, bounds.3) in
    let (found, out, sz, es', done) =
      take_grown n s₁ es₁ heap₁ fits₁ positive (roomy n bounds.2) (omega (arith, bounds.1)) in
    let none_fits = find_free_block-first_fit n s (e ∷ es) c fits (omega (arith, fits)) ∙ full in
    let run = malloc_grows size s ne none_fits ok found in
    let b = find_free_block n s₁ in
    rw run (
      omega (arith, done.pointer),
      b,
      sz,
      es',
      done.pointer,
      ap (size_at b) (sym handed) ∙ out,
      omega (arith, done.large, bounds.0),
      done.heap,
      done.used ∙ ap (λ (us : List (ℕ × ℕ)). insert_used b sz us) handed,
      omega (arith, done.span, fits₁, take_block-heap_size b n s₁),
      take_block-heap_size b n s₁ ∙ grown,
    )
