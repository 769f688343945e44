-- ===== src/User/View/Malloc.antt =====
-- `user_allocator::malloc` on the blocks of a well-formed user heap.
use coronel.Base.{
  ℕ, zero, suc, ◌+◌, ◌-◌, ◌≤◌, ◌<◌, ◌≡◌, ◌≢◌, refl, true, false, List, [], ◌∷◌, ◌==◌, ltb, length,
  arith, Bool-cases, inl, inr, sym, subst, ap, ◌∙◌, some, u32,
}
use coronel.Config.{align_up}
use coronel.Config.Align.{align_up_lem}
use coronel.Machine.{null}
use coronel.Heap.Chain.{Entry, entry, IsChain, has, used, span}
use coronel.Heap.Chain.Mark.{find, find-Says, mark_entries}
use coronel.Heap.Chain.Split.{split_entries}
use coronel.Heap.Chain.Held.{find-end}
use coronel.Heap.Chain.Used.{used-split, span-mark, find-split, used-mark_used, insert_used}
use coronel.Heap.Find.{first_fit, length-le-span}
use coronel.Heap.Malloc.{first_fit-find}
use coronel.User.{UserBlocks, UserHeap, set_free, set_flags, block_data}
use coronel.User.Blocks.{
  malloc, find_from, find_free_block, split_block, take_block, get_heap_size, fuel,
}
use coronel.User.View.{view, IsUserHeap}
use coronel.User.View.Free.{mark-IsUserHeap}
use coronel.User.View.Split.{split_block_whole, split_block-IsUserHeap}

-- The search finds what first fit finds in the view.
user_find_from_lem :
    (n size : ℕ) (mem : UserBlocks) (lo prev p : ℕ) (es : List Entry)
    → length es < n
    → 16 < size
    → IsChain (view mem) lo prev p es
    → ((a : ℕ) → has a es ≡ true → 16 ≤ (mem a).size)
    → find_from n p size mem ≡ first_fit (size - 16) es
unfolding find_from
user_find_from_lem zero size mem lo prev p es h room c large = absurd (omega arith)
user_find_from_lem (suc n) size mem lo prev p [] h room c large = ground (arith, c)
user_find_from_lem (suc n) size mem lo prev p (e ∷ es) h room c large =
    let rest =
      user_find_from_lem n size mem (p + 40 + e.size) p (mem p).next es (omega arith) room c.4
        (λ a there. large a (ground (arith, there))) in
    let lp : 16 ≤ (mem p).size = large p (ground (arith, c.0)) in
    ground (arith, rest, lp, c.0, c.1, c.3.size, c.3.is_free)

find-not_empty : (n : ℕ) (es : List Entry) → first_fit n es ≢ null → 40 ≤ span es
find-not_empty n [] h = absurd (h refl)
find-not_empty n (e ∷ es) h = omega arith

pub find_free_block-view :
    (n : ℕ) (s : UserHeap) (es : List Entry)
    → IsUserHeap s es
    → span es ≤ get_heap_size s
    → 0 < get_heap_size s
    → 16 < n
    → find_free_block n s ≡ first_fit (n - 16) es
unfolding find_free_block get_heap_size
find_free_block-view n s es c fits positive room =
    user_find_from_lem (fuel s) n s.blocks 1 null s.first_block es
      (omega (arith, length-le-span es, positive, fits)) room c.heap c.large

-- What `malloc` returns and leaves behind for a block at `b` that takes `sz` bytes of the view.
record Allocated (b sz : ℕ) (s : UserHeap) (es : List Entry) (r : ℕ × UserHeap) (es' : List Entry)
    : Type 0 where
  pointer : r.0 ≡ b + 24
  heap : IsUserHeap r.1 es'
  used : used es' ≡ insert_used b sz (used es)
  span : span es' ≡ span es
  grown : get_heap_size r.1 ≡ get_heap_size s

take_block-parts :
    (b n : ℕ) (s : UserHeap)
    → let s₁ = split_block b n s in
      ((take_block b n s).0 ≡ block_data b)
      × ((take_block b n s).1.blocks ≡ set_flags b (set_free false (s₁.blocks b).flags) s₁.blocks)
      × ((take_block b n s).1.first_block ≡ s₁.first_block)
unfolding take_block
take_block-parts b n s = (refl, refl, refl)

take_block-get_heap_size :
    (b n : ℕ) (s : UserHeap) → get_heap_size (take_block b n s).1 ≡ get_heap_size s
unfolding take_block split_block get_heap_size
take_block-get_heap_size b n s = ground arith

-- Marking the block at `b` of the list `es₁` that the split has left.
take_marked :
    (b n : ℕ) (s : UserHeap) (es es₁ : List Entry) (e₁ : Entry)
    → IsUserHeap (split_block b n s) es₁
    → find b es₁ ≡ some e₁
    → e₁.is_free ≡ true
    → used es₁ ≡ used es
    → span es₁ ≡ span es
    → Allocated b e₁.size s es (take_block b n s) (mark_entries b false es₁)
take_marked b n s es es₁ e₁ c at fr same_used same_span =
    let parts = take_block-parts b n s in
    let s₁ = split_block b n s in
    let there = (find-Says (view s₁.blocks) b 1 null s₁.first_block es₁ e₁ at c.heap).4 in
    let end = find-end (view s₁.blocks) b 1 null s₁.first_block es₁ e₁ c.heap at in
    record {
      pointer = parts.0 ∙ omega (arith, end);
      heap = mark-IsUserHeap b false s₁ (take_block b n s).1 es₁ c there parts.1 parts.2;
      used =
          used-mark_used (view s₁.blocks) b 1 null s₁.first_block es₁ e₁ c.heap at fr
          ∙ ap (insert_used b e₁.size) same_used;
      span = span-mark b false es₁ ∙ same_span;
      grown = take_block-get_heap_size b n s;
    }

take_block-Allocated :
    (b n : ℕ) (s : UserHeap) (es : List Entry) (e : Entry)
    → IsUserHeap s es
    → find b es ≡ some e
    → e.is_free ≡ true
    → 16 ≤ n
    → n ≤ e.size + 16
    → (sz : ℕ) × (es' : List Entry) × (n ≤ sz + 16) × Allocated b sz s es (take_block b n s) es'
take_block-Allocated b n s es e c at fr ln room =
    elim (Bool-cases (ltb (s.blocks b).size (n + 24 + 16))) [
      | inl whole ↦
          let kept : IsUserHeap (split_block b n s) es =
            subst (λ (t : UserHeap). IsUserHeap t es) (sym (split_block_whole b n s whole)) c in
          (e.size, mark_entries b false es, room, take_marked b n s es es e kept at fr refl refl)
      | inr cuts ↦
          let (kept, spans) = split_block-IsUserHeap b n s es e c at ln cuts in
          let es₁ = split_entries b (n - 16) es in
          (
            n - 16,
            mark_entries b false es₁,
            omega (arith, ln),
            take_marked b n s es es₁ (entry b (n - 16) e.is_free) kept
                (find-split b (n - 16) es e at) fr (used-split b (n - 16) es e at fr) spans,
          )
    ]

malloc_enters :
    (size n b : ℕ) (s : UserHeap)
    → size ≢ 0
    → size ≤ 0x80000000
    → u32 (align_up size) ≡ n
    → find_free_block n s ≡ b
    → b ≢ null
    → malloc size s ≡ take_block b n s
unfolding malloc
malloc_enters size n b s ne small aligned finds found =
    let not_zero : (size == 0) ≡ false = ground (arith, ne) in
    let not_large : ltb 0x80000000 size ≡ false = ground (arith, small) in
    let not_null : (b == null) ≡ false = ground (arith, found) in
    rw (aligned, finds, not_zero, not_large, not_null) refl

-- On a well-formed list of a user heap that fits its size, for a request of at least one byte and
-- at most 2 GB: when some free block has room for the request rounded up to pages, `malloc` takes
-- the first such block. The pointer is to its data, the list stays well-formed over the same span,
-- the heap does not grow, and what is handed out grows by that block, with at least the bytes asked
-- for. The entries have the sizes less 16.
pub malloc-IsUserHeap :
    (size b : ℕ) (s : UserHeap) (es : List Entry)
    → IsUserHeap s es
    → span es ≤ get_heap_size s
    → size ≢ 0
    → size ≤ 0x80000000
    → first_fit (align_up size - 16) es ≡ b
    → b ≢ null
    → ((malloc size s).0 ≡ b + 24)
      × (sz : ℕ) × (es' : List Entry) × (size ≤ sz + 16)
      × IsUserHeap (malloc size s).1 es'
      × (used es' ≡ insert_used b sz (used es))
      × (span es' ≡ span es)
      × (get_heap_size (malloc size s).1 ≡ get_heap_size s)
malloc-IsUserHeap size b s es c fits ne small fit found =
    let up = align_up_lem size (omega arith) in
    let n = align_up size in
    let aligned : u32 n ≡ n = omega (arith, up) in
    let positive : 0 < get_heap_size s =
      omega (arith, find-not_empty (n - 16) es (ground (arith, fit, found)), fits) in
    let finds = find_free_block-view n s es c fits positive (omega (arith, up, ne)) ∙ fit in
    let (e, located, fr, room) =
      first_fit-find (view s.blocks) (n - 16) 1 null s.first_block es c.heap
        (ground (arith, fit, found)) in
    let there = subst (λ (t : ℕ). find t es ≡ some e) fit located in
    let (sz, es', enough, done) =
      take_block-Allocated b n s es e c there fr (omega (arith, up, ne)) (omega (arith, room)) in
    rw (malloc_enters size n b s ne small aligned finds found) (
      done.pointer,
      sz,
      es',
      omega (arith, enough, up),
      done.heap,
      done.used,
      done.span,
      done.grown,
    )
