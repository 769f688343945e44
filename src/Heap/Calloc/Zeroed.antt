-- ===== src/Heap/Calloc/Zeroed.antt =====
-- The memory that `heap::calloc` hands out.
use coronel.Base.{
  ℕ, ◌+◌, ◌*◌, ◌^◌, ◌≤◌, ◌<◌, ◌≡◌, ◌≢◌, refl, false, ◌&&◌, List, leb, ltb, ◌==◌, if◌then◌else◌,
  arith, ap, ◌∙◌,
}
use coronel.Config.{align_up}
use coronel.Machine.{null}
use coronel.Memory.{memset}
use coronel.Memory.Laws.{memset_lem}
use coronel.Heap.{Heap}
use coronel.Heap.Blocks.{malloc, calloc}
use coronel.Heap.Chain.{Entry, IsHeap, used, span}
use coronel.Heap.Chain.Used.{insert_used}
use coronel.Heap.Find.{first_fit, find_free_block-first_fit}
use coronel.Heap.Malloc.{malloc-first_fit}
use coronel.Heap.Calloc.{cleared, calloc_overflow}
use coronel.Heap.Realloc.{malloc-bytes}

cleared_lem :
    (total p : ℕ) (s : Heap)
    → (malloc total s).0 ≡ p
    → p ≢ null
    → cleared total (malloc total s)
      ≡ (p, record (malloc total s).1 { bytes = memset p 0 total (malloc total s).1.bytes })
cleared_lem total p s at ne =
    let not_null : (p == null) ≡ false = ground (arith, ne) in rw (at, not_null) refl

-- On a well-formed list that fits a heap which is not empty, for a size of 64 bits and a product
-- with the number that is not 0 and not near the size of the address space, with a free block for
-- the product rounded up to pages, `calloc` hands out the first such block as `malloc` does, and
-- afterwards the bytes asked for are zero, and no other byte has changed.
pub calloc-zeroed :
    (num size b : ℕ) (s : Heap) (es : List Entry)
    → IsHeap s es
    → span es ≤ s.heap_size
    → 0 < s.heap_size
    → size < 2 ^ 64
    → num * size ≢ 0
    → num * size + 4096 + 56 < 2 ^ 64
    → first_fit (align_up (num * size)) es ≡ b
    → b ≢ null
    → ((calloc num size s).0 ≡ b + 40)
      × ((a : ℕ)
          → (calloc num size s).1.bytes a
            ≡ (if leb (b + 40) a && ltb a (b + 40 + num * size) then 0 else s.bytes a))
      × (sz : ℕ) × (es' : List Entry) × (num * size ≤ sz)
      × IsHeap (calloc num size s).1 es'
      × (used es' ≡ insert_used b sz (used es))
calloc-zeroed num size b s es c fits pos small ne room fit nonnull =
    let total = num * size in
    let found = find_free_block-first_fit (align_up total) s es c fits pos ∙ fit in
    let (ptr, sz, es', enough, heap, handed, _) =
      malloc-first_fit total b s es c fits pos ne room fit nonnull in
    let kept = malloc-bytes total s ne (ground (arith, found, nonnull)) in
    let run =
      (calloc_overflow num size s small).1 (omega arith)
      ∙ cleared_lem total (b + 40) s ptr (omega arith) in
    rw run (
      refl,
      (λ a.
          memset_lem (b + 40) 0 total (malloc total s).1.bytes a
          ∙ ap (λ (f : ℕ → ℕ). if leb (b + 40) a && ltb a (b + 40 + total) then 0 else f a) kept),
      sz,
      es',
      enough,
      heap,
      handed,
    )
