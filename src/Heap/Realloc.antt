-- ===== src/Heap/Realloc.antt =====
-- `heap::realloc` to a size that the block does not have.
use coronel.Base.{
  ℕ, ◌+◌, ◌-◌, ◌^◌, ◌≤◌, ◌<◌, ◌≡◌, ◌≢◌, ◌⊎◌, refl, true, false, ◌&&◌, List, leb, ltb, ◌==◌, arith,
  inl, inr, Bool-cases, none, some, subst, ap, ◌∙◌,
}
use coronel.Config.{align_up}
use coronel.Machine.{null}
use coronel.Memory.{memcpy}
use coronel.Memory.Laws.{memcpy_lem}
use coronel.Heap.{Heap, from_data, is_valid}
use coronel.Heap.Blocks.{
  malloc, free, realloc, move, release, take_block, split_block, find_free_block, coalesce_block,
  coalesce_next, coalesce_prev,
}
use coronel.Heap.Chain.{Entry, entry, IsHeap, used, span}
use coronel.Heap.Chain.Mark.{find, find-Says}
use coronel.Heap.Chain.Used.{insert_used, remove_used}
use coronel.Heap.Chain.Held.{
  size_at, size_at-find, size_at-insert, size_at-inserted, size_at-apart, find-size_at, find-end,
}
use coronel.Heap.Find.{first_fit, find_free_block-first_fit}
use coronel.Heap.Malloc.{malloc_enters, malloc-first_fit, first_fit-find}
use coronel.Heap.Free.{free-used}

-- Neither `malloc` from the list nor `free` writes to the data.
take_block-bytes : (b n : ℕ) (s : Heap) → (take_block b n s).1.bytes ≡ s.bytes
unfolding take_block split_block
take_block-bytes b n s = ground arith

free-bytes : (ptr : ℕ) (s : Heap) → (free ptr s).bytes ≡ s.bytes
unfolding free release coalesce_block coalesce_next coalesce_prev
free-bytes ptr s = ground arith

realloc_moves :
    (b new_size : ℕ) (s : Heap) (es : List Entry) (e : Entry)
    → IsHeap s es
    → find b es ≡ some e
    → e.is_free ≡ false
    → b + 40 < 2 ^ 64
    → new_size ≢ 0
    → e.size < align_up new_size
    → realloc (b + 40) new_size s ≡ move (b + 40) e.size (align_up new_size) s
unfolding realloc
realloc_moves b new_size s es e c at taken small ne larger =
    let says = find-Says s.blocks b 1 null s.first_block es e at c in
    let at_b : from_data (b + 40) ≡ b = omega arith in
    let not_null : (b + 40 == null) ≡ false = ground arith in
    let not_zero : (new_size == 0) ≡ false = ground arith in
    let not_free : (s.blocks b).is_free ≡ false = says.1 ∙ taken in
    let valid : is_valid (s.blocks b) ≡ true = ground (arith, says.2, taken) in
    let small_block : leb (align_up new_size) e.size ≡ false = ground (arith, larger) in
    rw (at_b, not_null, not_zero, valid, not_free, says.0, small_block) refl

-- A block in use does not overlap a free block that `malloc` takes from the same list, so the copy of
-- its data goes either downwards or clear of it.
copy-IsApart :
    (s : Heap) (es : List Entry) (b n b' m : ℕ)
    → IsHeap s es
    → size_at b (used es) ≡ some n
    → size_at b' (used es) ≡ some m
    → (b' + 40 ≤ b + 40) ⊎ (b + 40 + n ≤ b' + 40)
copy-IsApart s es b n b' m c at at' = elim (Bool-cases (ltb b b')) [
  | inl below ↦
      let apart =
        size_at-apart s.blocks b b' n m 1 null s.first_block es c at at' (ground (arith, below)) in
      inr (omega (arith, apart))
  | inr above ↦ inl (ground (arith, above))
]

-- The state in front of the last call of `realloc`.
abbrev copied : ℕ → ℕ → ℕ → ℕ → Heap → Heap
copied p ptr old_size n s =
    let s₁ = (malloc n s).1 in record s₁ { bytes = memcpy p ptr old_size s₁.bytes }

move_lem :
    (ptr old_size n p : ℕ) (s : Heap)
    → (malloc n s).0 ≡ p
    → p ≢ null
    → move ptr old_size n s ≡ (p, free ptr (copied p ptr old_size n s))
unfolding move
move_lem ptr old_size n p s at ne =
    let not_null : (p == null) ≡ false = ground (arith, ne) in rw (at, not_null) refl

pub malloc-bytes :
    (n : ℕ) (s : Heap)
    → n ≢ 0
    → find_free_block (align_up n) s ≢ null
    → (malloc n s).1.bytes ≡ s.bytes
malloc-bytes n s ne found =
    ap (λ (r : ℕ × Heap). r.1.bytes) (malloc_enters n s ne found)
    ∙ take_block-bytes (find_free_block (align_up n) s) (align_up n) s

copied-bytes :
    (p ptr size n i : ℕ) (s : Heap)
    → i < size
    → (p ≤ ptr) ⊎ (ptr + size ≤ p)
    → (malloc n s).1.bytes ≡ s.bytes
    → (copied p ptr size n s).bytes (p + i) ≡ s.bytes (ptr + i)
copied-bytes p ptr size n i s below apart kept =
    let source : ptr + (p + i - p) ≡ ptr + i = omega arith in
    let inside : leb p (p + i) && ltb (p + i) (p + size) ≡ true = ground (arith, below) in
    memcpy_lem p ptr size (malloc n s).1.bytes (p + i) apart
    ∙ rw inside (ap (malloc n s).1.bytes source)
    ∙ ap (λ (f : ℕ → ℕ). f (ptr + i)) kept

-- What `malloc` leaves of a block in use.
record Kept (b b' size n sz : ℕ) (s : Heap) (es₁ : List Entry) : Type 0 where
  old : find b es₁ ≡ some (entry b size false)
  small : b + 40 < 2 ^ 64
  apart : (b' + 40 ≤ b + 40) ⊎ (b + 40 + size ≤ b' + 40)
  bytes : (malloc n s).1.bytes ≡ s.bytes

malloc-Kept :
    (b b' n sz : ℕ) (s : Heap) (es es₁ : List Entry) (e : Entry)
    → IsHeap s es
    → span es ≤ s.heap_size
    → 0 < s.heap_size
    → find b es ≡ some e
    → e.is_free ≡ false
    → n ≢ 0
    → first_fit (align_up n) es ≡ b'
    → b' ≢ null
    → IsHeap (malloc n s).1 es₁
    → used es₁ ≡ insert_used b' sz (used es)
    → Kept b b' e.size n sz s es₁
malloc-Kept b b' n sz s es es₁ e c fits pos at taken ne fit nonnull heap handed =
    let found = find_free_block-first_fit (align_up n) s es c fits pos ∙ fit in
    let (f, at', fr, _) =
      first_fit-find s.blocks (align_up n) 1 null s.first_block es c
        (ground (arith, fit, nonnull)) in
    let free_there : find b' es ≡ some f = subst (λ (t : ℕ). find t es ≡ some f) fit at' in
    let fresh : size_at b' (used es) ≡ none =
      find-size_at s.blocks b' 1 null s.first_block es f c free_there ∙ (rw fr refl) in
    let old : size_at b (used es) ≡ some e.size =
      find-size_at s.blocks b 1 null s.first_block es e c at ∙ (rw taken refl) in
    let other : (b == b') ≡ false = elim (Bool-cases (b == b')) [
      | inl same ↦ absurd (ground (arith, same, old, fresh))
      | inr other ↦ other
    ] in
    let old₁ : size_at b (used es₁) ≡ some e.size =
      ap (size_at b) handed ∙ size_at-insert b b' sz (used es) other ∙ old in
    let new₁ : size_at b' (used es₁) ≡ some sz =
      ap (size_at b') handed ∙ size_at-inserted b' sz (used es) fresh in
    let s₁ = (malloc n s).1 in
    let there = size_at-find s₁.blocks b e.size 1 null s₁.first_block es₁ heap old₁ in
    let last = find-end s₁.blocks b 1 null s₁.first_block es₁ (entry b e.size false) heap there in
    record {
      old = there;
      small = omega (arith, last);
      apart = copy-IsApart s₁ es₁ b e.size b' sz heap old₁ new₁;
      bytes = malloc-bytes n s ne (ground (arith, found, nonnull));
    }

-- When a block in use of a well-formed list is to become larger than it is, and the list has a free
-- block for the new size, rounded up, that is not near the size of the address space: `realloc` returns a
-- pointer to the data of that block, the old data stand there byte by byte, the old block is given
-- back, and the list stays well-formed over the same span.
pub realloc-move :
    (b new_size b' : ℕ) (s : Heap) (es : List Entry) (e : Entry)
    → IsHeap s es
    → span es ≤ s.heap_size
    → 0 < s.heap_size
    → find b es ≡ some e
    → e.is_free ≡ false
    → new_size ≢ 0
    → e.size < align_up new_size
    → align_up new_size + 4096 + 56 < 2 ^ 64
    → first_fit (align_up (align_up new_size)) es ≡ b'
    → b' ≢ null
    → ((realloc (b + 40) new_size s).0 ≡ b' + 40)
      × ((i : ℕ)
          → i < e.size
          → (realloc (b + 40) new_size s).1.bytes (b' + 40 + i) ≡ s.bytes (b + 40 + i))
      × (sz : ℕ) × (es' : List Entry) × (align_up new_size ≤ sz)
      × IsHeap (realloc (b + 40) new_size s).1 es'
      × (used es' ≡ remove_used b (insert_used b' sz (used es)))
      × (span es' ≡ span es)
realloc-move b new_size b' s es e c fits pos at taken ne larger small fit nonnull =
    let n = align_up new_size in
    let (ptr, sz, es₁, enough, heap, handed, spans) =
      malloc-first_fit n b' s es c fits pos (omega arith) small fit nonnull in
    let kept =
      malloc-Kept b b' n sz s es es₁ e c fits pos at taken (omega arith) fit nonnull heap handed in
    let s₂ = copied (b' + 40) (b + 40) e.size n s in
    let (_, es', heap', handed', spans') =
      free-used b s₂ es₁ (entry b e.size false) heap kept.old refl in
    let run : realloc (b + 40) new_size s ≡ (b' + 40, free (b + 40) s₂) =
      realloc_moves b new_size s es e c at taken kept.small ne larger
      ∙ move_lem (b + 40) e.size n (b' + 40) s ptr (omega arith) in
    rw run (
      refl,
      (λ i below.
          ap (λ (f : ℕ → ℕ). f (b' + 40 + i)) (free-bytes (b + 40) s₂)
          ∙ copied-bytes (b' + 40) (b + 40) e.size n i s below kept.apart kept.bytes),
      sz,
      es',
      enough,
      heap',
      handed' ∙ ap (remove_used b) handed,
      spans' ∙ spans,
    )
