-- ===== src/Heap/Free.antt =====
-- `heap::free` on the blocks of a well-formed heap.
use coronel.Base.{
  ℕ, ◌+◌, ◌^◌, ◌<◌, ◌≡◌, refl, true, false, not, ◌||◌, List, ◌==◌, arith, Bool-cases, inl, inr, sym,
  subst, ap, ◌∙◌, ◌⊎◌, some, sub64, add64,
}
use coronel.Machine.{null}
use coronel.Heap.{Heap, Blocks, from_data, is_valid, set_mark, magic_free}
use coronel.Heap.Blocks.{free, release, coalesce_block, coalesce_next, coalesce_prev, absorb_block}
use coronel.Heap.Chain.{Entry, entry, IsHeap, used, span}
use coronel.Heap.Chain.Mark.{find, find-Says, mark_entries, set_mark-IsChain}
use coronel.Heap.Chain.Held.{find-end}
use coronel.Heap.Chain.Used.{used-mark_free, span-mark, find-mark, remove_used}
use coronel.Heap.Coalesce.{coalesce_block-SameUse}

-- A block in use is found at its address, valid and not free.
free_enters :
    (b : ℕ) (s : Heap) (es : List Entry) (e : Entry)
    → IsHeap s es
    → find b es ≡ some e
    → e.is_free ≡ false
    → b + 40 < 2 ^ 64
    → free (b + 40) s ≡ release b s
unfolding free
free_enters b s es e c at taken small =
    let at_b : from_data (b + 40) ≡ b = omega arith in
    let says = find-Says s.blocks b 1 null s.first_block es e at c in
    let not_null : (b + 40 == null) ≡ false = ground arith in
    let not_free : (s.blocks b).is_free ≡ false = says.1 ∙ taken in
    let valid : is_valid (s.blocks b) ≡ true = ground (arith, says.2, taken) in
    rw (at_b, not_null, valid, not_free)

-- The state in which `release` coalesces.
marked : ℕ → Heap → Heap
marked b s = record s {
  blocks = set_mark b true magic_free s.blocks;
  total_allocated = sub64 s.total_allocated (s.blocks b).size;
  total_free = add64 s.total_free (s.blocks b).size;
  num_frees = add64 s.num_frees 1;
}

release_eq : (b : ℕ) (s : Heap) → release b s ≡ coalesce_block b (marked b s)
unfolding release marked
release_eq b s = refl

-- No write of `coalesce_block` changes a mark or the count of allocated bytes.
absorb_block-is_free :
    (a n b : ℕ) (mem : Blocks) → (absorb_block a n mem b).is_free ≡ (mem b).is_free
absorb_block-is_free a n b mem = ground arith

coalesce_next-is_free :
    (block b : ℕ) (s : Heap)
    → (((coalesce_next block s).blocks b).is_free ≡ (s.blocks b).is_free)
      × ((coalesce_next block s).total_allocated ≡ s.total_allocated)
unfolding coalesce_next
coalesce_next-is_free block b s =
    ground (arith, absorb_block-is_free block (s.blocks block).next b s.blocks)

coalesce_prev-is_free :
    (block b : ℕ) (s : Heap)
    → (((coalesce_prev block s).blocks b).is_free ≡ (s.blocks b).is_free)
      × ((coalesce_prev block s).total_allocated ≡ s.total_allocated)
unfolding coalesce_prev
coalesce_prev-is_free block b s =
    ground (arith, absorb_block-is_free (s.blocks block).prev block b s.blocks)

coalesce-is_free :
    (block b : ℕ) (s : Heap)
    → (((coalesce_block block s).blocks b).is_free ≡ (s.blocks b).is_free)
      × ((coalesce_block block s).total_allocated ≡ s.total_allocated)
unfolding coalesce_block
coalesce-is_free block b s =
    ground (
      arith,
      coalesce_next-is_free block b s,
      coalesce_prev-is_free block b (coalesce_next block s),
    )

release-is_free :
    (b : ℕ) (s : Heap)
    → (((release b s).blocks b).is_free ≡ true)
      × ((release b s).total_allocated ≡ sub64 s.total_allocated (s.blocks b).size)
release-is_free b s =
    let kept = coalesce-is_free b b (marked b s) in
    let marked_free : ((marked b s).blocks b).is_free ≡ true = unfold marked in ground arith in
    let counted : (marked b s).total_allocated ≡ sub64 s.total_allocated (s.blocks b).size =
      unfold marked in refl in
    rw (release_eq b s) (kept.0 ∙ marked_free, kept.1 ∙ counted)

free_if_free : (ptr : ℕ) (s : Heap) → (s.blocks (from_data ptr)).is_free ≡ true → free ptr s ≡ s
unfolding free
free_if_free ptr s h = ground (arith, h)

-- `free` either changes nothing or releases the block in front of the pointer.
free-cases : (ptr : ℕ) (s : Heap) → (free ptr s ≡ s) ⊎ (free ptr s ≡ release (from_data ptr) s)
unfolding free
free-cases ptr s = elim (Bool-cases (ptr == null)) [
  | inl zero_ptr ↦ inl (rw zero_ptr)
  | inr some_ptr ↦
      elim (Bool-cases
        (not (is_valid (s.blocks (from_data ptr))) || (s.blocks (from_data ptr)).is_free)) [
          | inl refused ↦ inl (rw (some_ptr, refused))
          | inr accepted ↦ inr (rw (some_ptr, accepted))
        ]
]

-- A second `free` of the same pointer changes nothing, whatever the state of the heap and even when
-- the freed block has been merged into another.
pub free-free : (ptr : ℕ) (s : Heap) → free ptr (free ptr s) ≡ free ptr s
free-free ptr s = elim (free-cases ptr s) [
  | inl same ↦ ap (free ptr) same
  | inr done ↦
      ap (free ptr) done
      ∙ free_if_free ptr (release (from_data ptr) s) (release-is_free (from_data ptr) s).0
      ∙ sym done
]

-- Freeing a block in use of a well-formed list, by the pointer to its data, leaves a well-formed list
-- over the same span, in which this block is taken out of what is handed out; the count of allocated
-- bytes falls by its size.
pub free-used :
    (b : ℕ) (s : Heap) (es : List Entry) (e : Entry)
    → IsHeap s es
    → find b es ≡ some e
    → e.is_free ≡ false
    → ((free (b + 40) s).total_allocated ≡ sub64 s.total_allocated e.size)
      × (es' : List Entry) × IsHeap (free (b + 40) s) es'
      × (used es' ≡ remove_used b (used es))
      × (span es' ≡ span es)
unfolding marked
free-used b s es e c at taken =
    let end = find-end s.blocks b 1 null s.first_block es e c at in
    let small : b + 40 < 2 ^ 64 = omega (arith, end) in
    let says = find-Says s.blocks b 1 null s.first_block es e at c in
    let c₁ : IsHeap (marked b s) (mark_entries b true es) =
      set_mark-IsChain s.blocks b true 1 null s.first_block es says.4 c in
    let (es', same) =
      coalesce_block-SameUse b (marked b s) (mark_entries b true es) (entry b e.size true) c₁
        (find-mark b true es e at) refl in
    let run = free_enters b s es e c at taken small ∙ release_eq b s in
    (
      ap (λ (t : Heap). t.total_allocated) (free_enters b s es e c at taken small)
          ∙ (release-is_free b s).1
          ∙ ap (sub64 s.total_allocated) says.0,
      es',
      subst (λ (t : Heap). IsHeap t es') (sym run) same.heap,
      same.used ∙ used-mark_free b es e at taken,
      same.span ∙ span-mark b true es,
    )
