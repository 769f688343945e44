-- ===== src/Heap/Counters.antt =====
-- The counters of the heap, against what `validate_heap` counts.
use coronel.Base.{
  ℕ, zero, suc, ◌+◌, ◌^◌, ◌≤◌, ◌<◌, ◌≡◌, ◌≢◌, refl, true, false, ◌&&◌, List, [], ◌∷◌, ltb, ◌==◌,
  if◌then◌else◌, arith, length, Bool-cases, inl, inr, sym, ap, ap₂, ◌∙◌, some, add64, sub64,
}
use coronel.Config.{align_up}
use coronel.Config.Align.{align_up_lem}
use coronel.Machine.{null}
use coronel.Heap.{Heap, Blocks, is_valid}
use coronel.Heap.Blocks.{
  fuel, validate_from, validate_heap, malloc, take_block, split_block, find_free_block,
}
use coronel.Heap.Find.{first_fit, find_free_block-first_fit, length-le-span}
use coronel.Heap.Malloc.{take_whole, take_split, split_block_whole, malloc_enters, first_fit-find}
use coronel.Heap.Chain.{Entry, IsChain, IsHeap, span}
use coronel.Heap.Chain.Split.{split_entries}
use coronel.Heap.Chain.Mark.{find, find-Says, mark_entries}

-- The bytes in used and in free blocks.
abbrev pub used_bytes : List Entry → ℕ
used_bytes [] = 0
used_bytes (e ∷ es) = if e.is_free then used_bytes es else e.size + used_bytes es

abbrev pub free_bytes : List Entry → ℕ
free_bytes [] = 0
free_bytes (e ∷ es) = if e.is_free then e.size + free_bytes es else free_bytes es

bytes-le-span : (es : List Entry) → used_bytes es + free_bytes es ≤ span es
bytes-le-span [] = omega arith
bytes-le-span (e ∷ es) = ground (arith, bytes-le-span es)

-- The counters say what the blocks say.
abbrev pub Counts : Heap → List Entry → Type 0
Counts s es = (s.total_allocated ≡ used_bytes es) × (s.total_free ≡ free_bytes es)

validate_from_lem :
    (n u f lo before p : ℕ) (mem : Blocks) (es : List Entry)
    → length es < n
    → u + f + span es < 2 ^ 64
    → IsChain mem lo before p es
    → validate_from n p u f mem ≡ (true, u + used_bytes es, f + free_bytes es)
unfolding validate_from
validate_from_lem zero u f lo before p mem es h k c = absurd (omega arith)
validate_from_lem (suc n) u f lo before p mem [] h k c =
    let done : (p == null) ≡ true = ground (arith, c) in
    rw done (ap₂ (λ (a b : ℕ). (true, a, b)) (omega arith) (omega arith))
validate_from_lem (suc n) u f lo before p mem (e ∷ es) h k c =
    let more : (p == null) ≡ false = ground (arith, c.1) in
    let valid : is_valid (mem p) ≡ true = ground (arith, c.3.magic) in
    elim (Bool-cases e.is_free) [
      | inl free ↦
          let mark : (mem p).is_free ≡ true = c.3.is_free ∙ free in
          let sum : add64 f (mem p).size ≡ f + e.size = omega (arith, c.3.size, k) in
          let rest =
            validate_from_lem n u (f + e.size) (p + 40 + e.size) p (mem p).next mem es (omega arith)
              (omega arith) c.4 in
          rw (more, valid, mark, sum, rest, free)
            (ap₂ (λ (a b : ℕ). (true, a, b)) refl (omega arith))
      | inr taken ↦
          let mark : (mem p).is_free ≡ false = c.3.is_free ∙ taken in
          let sum : add64 u (mem p).size ≡ u + e.size = omega (arith, c.3.size, k) in
          let rest =
            validate_from_lem n (u + e.size) f (p + 40 + e.size) p (mem p).next mem es (omega arith)
              (omega arith) c.4 in
          rw (more, valid, mark, sum, rest, taken)
            (ap₂ (λ (a b : ℕ). (true, a, b)) (omega arith) refl)
    ]

-- On a well-formed list that fits the size of a heap that is not empty, `validate_heap` compares the
-- counters with the sums over the list.
pub validate_heap_lem :
    (s : Heap) (es : List Entry)
    → IsHeap s es
    → span es ≤ s.heap_size
    → 0 < s.heap_size
    → span es < 2 ^ 64
    → validate_heap s ≡ ((used_bytes es == s.total_allocated) && (free_bytes es == s.total_free))
unfolding validate_heap
validate_heap_lem s es c fits pos small =
    let run =
      validate_from_lem (fuel s) 0 0 1 null s.first_block s.blocks es
        (omega (arith, length-le-span es)) (omega arith) c in
    let z : (n : ℕ) → 0 + n ≡ n = λ n. omega arith in
    rw (run, z (used_bytes es), z (free_bytes es)) refl

used_bytes-mark :
    (b : ℕ) (es : List Entry) (e : Entry)
    → find b es ≡ some e
    → e.is_free ≡ true
    → (used_bytes (mark_entries b false es) ≡ used_bytes es + e.size)
      × (free_bytes (mark_entries b false es) + e.size ≡ free_bytes es)
used_bytes-mark b [] e h fr = absurd (ground arith)
used_bytes-mark b (f ∷ es) e h fr = elim (Bool-cases (f.addr == b)) [
  | inl here ↦ ground arith
  | inr later ↦ ground (arith, used_bytes-mark b es e (ground arith) fr)
]

used_bytes-split :
    (b size : ℕ) (es : List Entry) (e : Entry)
    → find b es ≡ some e
    → e.is_free ≡ true
    → size + 40 ≤ e.size
    → (used_bytes (mark_entries b false (split_entries b size es)) ≡ used_bytes es + size)
      × (free_bytes (mark_entries b false (split_entries b size es)) + size + 40 ≡ free_bytes es)
used_bytes-split b size [] e h fr room = absurd (ground arith)
used_bytes-split b size (f ∷ es) e h fr room = elim (Bool-cases (f.addr == b)) [
  | inl here ↦ ground arith
  | inr later ↦ ground (arith, used_bytes-split b size es e (ground arith) fr room)
]

-- The counters that `take_block` leaves, by whether the block was split.
record Totals (s' : Heap) (sz al fr : ℕ) : Type 0 where
  size : s'.heap_size ≡ sz
  allocated : s'.total_allocated ≡ al
  free : s'.total_free ≡ fr

Totals-whole :
    (b n : ℕ) (s : Heap)
    → split_block b n s ≡ s
    → Totals (take_block b n s).1 s.heap_size (add64 s.total_allocated n) (sub64 s.total_free n)
unfolding take_block
Totals-whole b n s h = rw h (record { size = refl; allocated = refl; free = refl })

Totals-split :
    (b n : ℕ) (s : Heap)
    → n + 56 < 2 ^ 64
    → ltb (s.blocks b).size (n + 56) ≡ false
    → Totals
        (take_block b n s).1
        s.heap_size
        (add64 s.total_allocated n)
        (sub64 (add64 s.total_free 40) n)
unfolding take_block split_block
Totals-split b n s small h =
    let e : add64 n 56 ≡ n + 56 = omega arith in
    rw (e, h) (record { size = refl; allocated = refl; free = refl })

validates :
    (s : Heap) (es : List Entry) (heap_size allocated free : ℕ)
    → Totals s heap_size allocated free
    → IsHeap s es
    → span es ≤ heap_size
    → 0 < heap_size
    → span es < 2 ^ 64
    → validate_heap s ≡ ((used_bytes es == allocated) && (free_bytes es == free))
validates s es heap_size allocated free t c fits pos small =
    validate_heap_lem s es c (omega (arith, t.size)) (omega (arith, t.size)) small
    ∙ ap₂ (λ (a f : ℕ). (used_bytes es == a) && (free_bytes es == f)) t.allocated t.free

module _ (b n : ℕ) (s : Heap) (es : List Entry) (e : Entry) (c : IsHeap s es)
    (at : find b es ≡ some e) (fr : e.is_free ≡ true) (room : n ≤ e.size) (small : n + 56 < 2 ^ 64)
    (end : b + 40 + n < 2 ^ 64) (fits : span es ≤ s.heap_size) (pos : 0 < s.heap_size)
    (bound : span es < 2 ^ 63) (counts : Counts s es) where
  whole_validates :
      ltb (s.blocks b).size (n + 56) ≡ true → validate_heap (take_block b n s).1 ≡ (e.size == n)
  whole_validates h =
      let done = take_whole b n s es e c at fr room small end h in
      let sums = used_bytes-mark b es e at fr in
      let below = bytes-le-span es in
      let totals = Totals-whole b n s (split_block_whole b n s small h) in
      validates (take_block b n s).1 (mark_entries b false es) s.heap_size
        (add64 s.total_allocated n) (sub64 s.total_free n) totals done.heap
        (omega (arith, done.span, fits)) pos (omega (arith, done.span, bound))
      ∙ ground (arith, sums, below, counts)

  split_validates :
      ltb (s.blocks b).size (n + 56) ≡ false → validate_heap (take_block b n s).1 ≡ (e.size == n)
  split_validates h =
      let done = take_split b n s es e c at fr room small end h in
      let says = find-Says s.blocks b 1 null s.first_block es e at c in
      let large : n + 56 ≤ e.size = ground (arith, says.0, h) in
      let sums = used_bytes-split b n es e at fr (omega (arith, large)) in
      let below = bytes-le-span es in
      let totals = Totals-split b n s small h in
      validates (take_block b n s).1 (mark_entries b false (split_entries b n es)) s.heap_size
        (add64 s.total_allocated n) (sub64 (add64 s.total_free 40) n) totals done.heap
        (omega (arith, done.span, fits)) pos (omega (arith, done.span, bound))
      ∙ ground (arith, sums, below, counts, large)

-- On a well-formed list that spans less than 2^63 bytes and fits a heap which is not empty, with
-- counters that agree with it, for a size that is not 0 and not near the size of the address
-- space, `malloc` from the first free block with room, when the taken part ends away from 2^64,
-- leaves a heap that `validate_heap` accepts exactly if that block has the rounded size to the
-- byte: a split adds a header to the free bytes that it should take away, and a block that is a
-- little larger is counted by the request.
pub malloc_counters :
    (size b : ℕ) (s : Heap) (es : List Entry) (e : Entry)
    → IsHeap s es
    → span es ≤ s.heap_size
    → 0 < s.heap_size
    → span es < 2 ^ 63
    → Counts s es
    → size ≢ 0
    → size + 4096 + 56 < 2 ^ 64
    → first_fit (align_up size) es ≡ b
    → find b es ≡ some e
    → b ≢ null
    → b + 40 + size + 4096 < 2 ^ 64
    → validate_heap (malloc size s).1 ≡ (e.size == align_up size)
malloc_counters size b s es e c fits pos bound counts ne small at located nonnull end =
    let up = align_up_lem size (omega arith) in
    let n = align_up size in
    let finds : find_free_block n s ≡ b = find_free_block-first_fit n s es c fits pos ∙ at in
    let (f, located', fr, room) =
      first_fit-find s.blocks n 1 null s.first_block es c (ground (arith, at)) in
    let same : some f ≡ some e = sym located' ∙ ap (λ (t : ℕ). find t es) at ∙ located in
    let free : e.is_free ≡ true = ground (arith, same, fr) in
    let fits_e : n ≤ e.size = ground (arith, same, room) in
    let run : malloc size s ≡ take_block b n s =
      malloc_enters size s ne (ground (arith, finds)) ∙ ap (λ (t : ℕ). take_block t n s) finds in
    ap (λ (r : ℕ × Heap). validate_heap r.1) run
    ∙ elim (Bool-cases (ltb (s.blocks b).size (n + 56))) [
      | inl whole ↦
          whole_validates b n s es e c located free fits_e (omega arith) (omega arith) fits pos
            bound counts whole
      | inr cuts ↦
          split_validates b n s es e c located free fits_e (omega arith) (omega arith) fits pos
            bound counts cuts
    ]
