-- ===== src/User/View/Free.antt =====
-- `user_allocator::free` on the blocks of a well-formed user heap.
use coronel.Base.{
  ℕ, ◌+◌, ◌^◌, ◌<◌, ◌≡◌, ◌≢◌, refl, Bool, true, false, List, [], ◌∷◌, ◌==◌, arith, ap, ◌∙◌, some,
  sub32,
}
use coronel.Machine.{null}
use coronel.Heap
use coronel.Heap.{Blocks}
use coronel.Heap.Chain.{Entry, entry, IsChain, IsChain-frame, magic_of, has, used, span}
use coronel.Heap.Chain.Mark.{find, find-Says, mark_entries, set_mark-IsChain}
use coronel.Heap.Chain.Held.{find-end}
use coronel.Heap.Chain.Used.{used-mark_free, span-mark, find-mark, remove_used}
use coronel.User.{UserBlocks, UserHeap, is_free, is_valid, set_free, set_flags, from_data}
use coronel.User.Blocks.{free, release, coalesce_block, coalesce_next, coalesce_prev}
use coronel.User.Flags.{set_free_lem, set_free_magic, set_free-small}
use coronel.User.View.{view, view_magic, IsUserHeap}
use coronel.User.View.Coalesce.{coalesce_block-IsUserHeap}

has-mark : (b a : ℕ) (free : Bool) (es : List Entry) → has a (mark_entries b free es) ≡ has a es
has-mark b a free [] = refl
has-mark b a free (e ∷ es) = ground (arith, has-mark b a free es)

view_magic-set_free :
    (free : Bool) (flags : ℕ) → flags < 2 ^ 32 → view_magic (set_free free flags) ≡ magic_of free
unfolding view_magic
view_magic-set_free true flags h = rw (set_free_magic true flags h) refl
view_magic-set_free false flags h = rw (set_free_magic false flags h) refl

pub view_magic-is_valid : (flags : ℕ) → view_magic flags ≢ 0 → is_valid flags ≡ true
unfolding view_magic is_valid
view_magic-is_valid flags h = ground (arith, h)

-- Marking a block is the same in both views.
view-set_flags :
    (b x : ℕ) (free : Bool) (mem : UserBlocks)
    → (mem b).flags < 2 ^ 32
    → view (set_flags b (set_free free (mem b).flags) mem) x
      ≡ Heap.set_mark b free (magic_of free) (view mem) x
view-set_flags b x free mem h =
    let mark = (set_free_lem free (mem b).flags h).0 in
    let magic = view_magic-set_free free (mem b).flags h in ground (arith, mark, magic)

-- The block at `b` of a list, marked as used or free.
pub mark-IsUserHeap :
    (b : ℕ) (v : Bool) (s t : UserHeap) (es : List Entry)
    → IsUserHeap s es
    → has b es ≡ true
    → t.blocks ≡ set_flags b (set_free v (s.blocks b).flags) s.blocks
    → t.first_block ≡ s.first_block
    → IsUserHeap t (mark_entries b v es)
mark-IsUserHeap b v s t es c there e₁ e₂ =
    let mem' = set_flags b (set_free v (s.blocks b).flags) s.blocks in
    let chain = set_mark-IsChain (view s.blocks) b v 1 null s.first_block es there c.heap in
    let seen : IsChain (view mem') 1 null s.first_block (mark_entries b v es) =
      IsChain-frame (Heap.set_mark b v (magic_of v) (view s.blocks)) (view mem') 1 null
        s.first_block (mark_entries b v es) (λ x h. view-set_flags b x v s.blocks (c.words b))
        chain in
    record {
      heap = rw (e₁, e₂) seen;
      large = λ x h. rw e₁ (ground (arith, c.large x, has-mark b x v es, h));
      words =
          λ x. rw e₁ (ground (arith, c.words x, set_free-small v (s.blocks b).flags (c.words b)));
      bounded = omega (arith, span-mark b v es, c.bounded);
    }

coalesce_block-total :
    (b : ℕ) (s : UserHeap) → (coalesce_block b s).total_allocated ≡ s.total_allocated
unfolding coalesce_block coalesce_next coalesce_prev
coalesce_block-total b s = ground arith

-- The state in which `release` coalesces.
abbrev marked : ℕ → UserHeap → UserHeap
marked b s = record s {
  blocks = set_flags b (set_free true (s.blocks b).flags) s.blocks;
  total_allocated = sub32 s.total_allocated (s.blocks b).size;
}

release_eq : (b : ℕ) (s : UserHeap) → release b s ≡ coalesce_block b (marked b s)
unfolding release
release_eq b s = refl

free_enters :
    (b : ℕ) (s : UserHeap)
    → b + 24 < 2 ^ 64
    → is_valid (s.blocks b).flags ≡ true
    → is_free (s.blocks b).flags ≡ false
    → free (b + 24) s ≡ release b s
unfolding free
free_enters b s small valid taken =
    let at_b : from_data (b + 24) ≡ b = omega arith in
    let not_null : (b + 24 == null) ≡ false = ground arith in rw (at_b, not_null, valid, taken) refl

-- Freeing a block in use of a well-formed list of a user heap, by the pointer to its data, leaves a
-- well-formed list over the same span, in which this block is taken out of what is handed out; the
-- count of allocated bytes falls by its size. The entries have the sizes less 16.
pub free-IsUserHeap :
    (b : ℕ) (s : UserHeap) (es : List Entry) (e : Entry)
    → IsUserHeap s es
    → find b es ≡ some e
    → e.is_free ≡ false
    → ((free (b + 24) s).total_allocated ≡ sub32 s.total_allocated (e.size + 16))
      × (es' : List Entry) × IsUserHeap (free (b + 24) s) es'
      × (used es' ≡ remove_used b (used es))
      × (span es' ≡ span es)
free-IsUserHeap b s es e c at taken =
    let says = find-Says (view s.blocks) b 1 null s.first_block es e at c.heap in
    let end = find-end (view s.blocks) b 1 null s.first_block es e c.heap at in
    let size : (s.blocks b).size ≡ e.size + 16 = omega (arith, says.0, c.large b says.4) in
    let valid = view_magic-is_valid (s.blocks b).flags (ground (arith, says.2, taken)) in
    let run = free_enters b s (omega (arith, end)) valid (says.1 ∙ taken) ∙ release_eq b s in
    let c₁ = mark-IsUserHeap b true s (marked b s) es c says.4 refl refl in
    let (es', c₂, same) =
      coalesce_block-IsUserHeap b (marked b s) (mark_entries b true es) (entry b e.size true) c₁
        (find-mark b true es e at) refl in
    rw run (
      coalesce_block-total b (marked b s) ∙ ap (sub32 s.total_allocated) size,
      es',
      c₂,
      same.used ∙ used-mark_free b es e at taken,
      same.span ∙ span-mark b true es,
    )
