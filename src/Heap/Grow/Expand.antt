-- ===== src/Heap/Grow/Expand.antt =====
-- `heap::expand_heap`.
use coronel.Base.{
  ℕ, ◌+◌, ◌-◌, ◌^◌, ◌≤◌, ◌<◌, ◌≡◌, ◌≢◌, refl, Bool, true, false, List, [], ◌∷◌, ◌++◌, ◌==◌, arith,
  sym, subst, ap, ◌∙◌, add64, sub64,
}
use coronel.Config.{align_up}
use coronel.Config.Align.{align_up_lem}
use coronel.Machine.{null, update}
use coronel.Virtual
use coronel.Virtual.{Node}
use coronel.Heap.{Heap, Blocks, heap_block}
use coronel.Heap.Pages.{map_pages}
use coronel.Heap.Pages.Keeps.{map_pages-Keeps, map_pages-below}
use coronel.Heap.Blocks.{
  fuel, last_from, append_region, expand_heap, coalesce_block, coalesce_next, coalesce_prev,
}
use coronel.Heap.Chain.{Entry, entry, IsChain, IsHeap, used, span}
use coronel.Heap.Chain.Used.{has_fit}
use coronel.Heap.Coalesce.{coalesce_block-SameUse}
use coronel.Heap.Find.{length-le-span}
use coronel.Heap.Grow.{
  last_of, end_of, linked_behind, last_from_lem, append-IsChain, used-append, span-append,
  find-append, has_fit-append, IsChain-upto, chain-last,
}

abbrev joined : ℕ → ℕ → ℕ → ℕ → Heap → Heap
joined r n size last s = coalesce_block r (record s {
  blocks = linked_behind r size last s.blocks;
  heap_size = add64 s.heap_size n;
  total_free = add64 s.total_free size;
})

append_region-joined :
    (r n : ℕ) (s : Heap)
    → append_region r n s
      ≡ joined r n
          (sub64 n 40)
          (last_from (fuel s) s.first_block (update s.blocks r (heap_block (sub64 n 40) true)))
          s
unfolding append_region
append_region-joined r n s = refl

-- The state in which `append_region` coalesces.
abbrev extended : ℕ → ℕ → ℕ → Heap → Heap
extended r n last s = record s {
  blocks = linked_behind r (n - 40) last s.blocks;
  heap_size = add64 s.heap_size n;
  total_free = add64 s.total_free (n - 40);
}

module _ (s : Heap) (e : Entry) (es : List Entry) (r n : ℕ) (c : IsHeap s (e ∷ es))
    (fits : span (e ∷ es) ≤ s.heap_size) (behind : end_of e es ≤ r) (room : 40 ≤ n)
    (small : r + n < 2 ^ 64) where
  append_region_eq : append_region r n s ≡ coalesce_block r (extended r n (last_of e es) s)
  append_region_eq =
      let left : sub64 n 40 ≡ n - 40 = omega arith in
      let mem : ℕ → Blocks = λ size. update s.blocks r (heap_block size true) in
      let last : last_from (fuel s) s.first_block (mem (n - 40)) ≡ last_of e es =
        last_from_lem (fuel s) s.blocks (mem (n - 40)) 1 null s.first_block e es
          (omega (arith, length-le-span (e ∷ es))) (λ a h. ground (arith, h)) c in
      append_region-joined r n s
      ∙ ap (λ (k : ℕ). joined r n k (last_from (fuel s) s.first_block (mem k)) s) left
      ∙ ap (λ (l : ℕ). joined r n (n - 40) l s) last

  pub append_region-IsHeap :
      (es' : List Entry) × IsHeap (append_region r n s) es'
      × (used es' ≡ used (e ∷ es))
      × (span es' ≡ span (e ∷ es) + n)
      × ((k : ℕ) → k ≤ n - 40 → has_fit k es' ≡ true)
  append_region-IsHeap =
      let new = entry r (n - 40) true in
      let chain =
        append-IsChain s.blocks 1 null s.first_block r (n - 40) e es behind (omega arith) c in
      let found = find-append s.blocks 1 null s.first_block r (n - 40) e es behind c in
      let (es', same) =
        coalesce_block-SameUse r (extended r n (last_of e es) s) (e ∷ es ++ (new ∷ [])) new chain
          found refl in
      (
        es',
        subst (λ (t : Heap). IsHeap t es') (sym append_region_eq) same.heap,
        same.used ∙ used-append (e ∷ es) r (n - 40),
        same.span ∙ span-append (e ∷ es) r (n - 40) ∙ omega arith,
        (λ k h. same.fits k (has_fit-append (e ∷ es) r (n - 40) k h)),
      )

coalesce_block-heap_size : (b : ℕ) (s : Heap) → (coalesce_block b s).heap_size ≡ s.heap_size
unfolding coalesce_block coalesce_next coalesce_prev
coalesce_block-heap_size b s = ground arith

-- The heap when the pages of a new region are mapped.
abbrev pub with_region : ℕ → ℕ → Heap → Bool × Heap
with_region r n s = map_pages r n (record s { free_mem = (Virtual.alloc n s.free_mem).1 })

expand_heap_enters :
    (min_size r n : ℕ) (s : Heap)
    → align_up min_size ≡ n
    → (Virtual.alloc n s.free_mem).0 ≡ r
    → r ≢ null
    → (with_region r n s).0 ≡ true
    → expand_heap min_size s ≡ (true, append_region r n (with_region r n s).1)
unfolding expand_heap
expand_heap_enters min_size r n s size at ne mapped =
    let not_null : (r == null) ≡ false = ground (arith, ne) in rw (size, at, not_null, mapped) refl

-- When the list of blocks is well-formed, not empty and fits the heap, the virtual manager finds a
-- region for the growth behind the last block, and all its pages can be mapped: `expand_heap`
-- succeeds, the list stays well-formed, what is handed out is as before, both the blocks and the
-- size of the heap grow by the region, and some free block has room for every size up to that of
-- the region without a header. The region takes a header at least and ends away from the end of the
-- address space, and the size of the heap stays below 2 ^ 64.
pub expand_heap-IsHeap :
    (min_size r : ℕ) (s : Heap) (e : Entry) (es : List Entry)
    → IsHeap s (e ∷ es)
    → span (e ∷ es) ≤ s.heap_size
    → s.heap_size + align_up min_size < 2 ^ 64
    → (Virtual.alloc (align_up min_size) s.free_mem).0 ≡ r
    → end_of e es ≤ r
    → 40 ≤ align_up min_size
    → r + align_up min_size + 4096 < 2 ^ 64
    → (with_region r (align_up min_size) s).0 ≡ true
    → ((expand_heap min_size s).0 ≡ true)
      × ((expand_heap min_size s).1.heap_size ≡ s.heap_size + align_up min_size)
      × (es' : List Entry) × IsHeap (expand_heap min_size s).1 es'
      × (used es' ≡ used (e ∷ es))
      × (span es' ≡ span (e ∷ es) + align_up min_size)
      × ((k : ℕ) → k ≤ align_up min_size - 40 → has_fit k es' ≡ true)
expand_heap-IsHeap min_size r s e es c fits size at behind room small mapped =
    let n = align_up min_size in
    let up = align_up_lem n (omega arith) in
    let s₁ : Heap = record s { free_mem = (Virtual.alloc n s.free_mem).1 } in
    let s₂ = (map_pages r n s₁).1 in
    let keeps = map_pages-Keeps r n s₁ in
    let last = (chain-last s.blocks 1 null s.first_block e es c).2 in
    let same : (a : ℕ) → a < end_of e es → s₂.blocks a ≡ s.blocks a =
      λ a h. map_pages-below r n a s₁ (omega (arith, up)) (omega arith) in
    let kept : IsHeap s₂ (e ∷ es) =
      subst (λ (p : ℕ). IsChain s₂.blocks 1 null p (e ∷ es)) (sym keeps.first_block)
        (IsChain-upto s.blocks s₂.blocks 1 null s.first_block e es same c) in
    let fits₂ : span (e ∷ es) ≤ s₂.heap_size = omega (arith, keeps.heap_size, fits) in
    let (es', heap, handed, spans, roomy) =
      append_region-IsHeap s₂ e es r n kept fits₂ behind room (omega arith) in
    let grown : (append_region r n s₂).heap_size ≡ s.heap_size + n =
      ap (λ (t : Heap). t.heap_size)
        (append_region_eq s₂ e es r n kept fits₂ behind room (omega arith))
      ∙ coalesce_block-heap_size r (extended r n (last_of e es) s₂)
      ∙ omega (arith, keeps.heap_size, size) in
    rw (expand_heap_enters min_size r n s refl at (omega (arith, last, behind)) mapped)
      (refl, grown, es', heap, handed, spans, roomy)
