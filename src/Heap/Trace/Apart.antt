-- ===== src/Heap/Trace/Apart.antt =====
-- The memory that a client of the heap holds.
use coronel.Base.{
  ℕ, ◌+◌, ◌^◌, ◌≤◌, ◌<◌, ◌≡◌, ◌≢◌, refl, false, List, [], ◌∷◌, arith, none, some, sym, subst, ap,
  ◌∙◌,
}
use coronel.Config.{align_up}
use coronel.Machine.{null}
use coronel.Heap.{Heap}
use coronel.Heap.Blocks.{
  find_free_block, malloc, free, release, coalesce_block, coalesce_next, coalesce_prev,
}
use coronel.Heap.Chain.{Entry, entry, IsHeap, used, span}
use coronel.Heap.Chain.Mark.{find}
use coronel.Heap.Chain.Used.{insert_used, remove_used}
use coronel.Heap.Chain.Held.{size_at, size_at-find, size_at-inserted, find-size_at}
use coronel.Heap.Find.{first_fit, find_free_block-first_fit}
use coronel.Heap.Malloc.{malloc_enters, malloc-first_fit, first_fit-find, take_block-heap_size}
use coronel.Heap.Free.{free-used}
use coronel.Heap.Grow.Serve.{CanGrow, malloc-grows}
use coronel.Heap.Trace.{Client, Step, Run, AreApart}
use coronel.Heap.Trace.Live.{
  AreHeld, AreHeld-at, AreHeld-insert, AreHeld-remove, AreHeld-fresh, AreHeld-AreApart,
}

-- The size of the heap changes only when it grows.
free-heap_size : (ptr : ℕ) (s : Heap) → (free ptr s).heap_size ≡ s.heap_size
unfolding free release coalesce_block coalesce_next coalesce_prev
free-heap_size ptr s = ground arith

-- The list of blocks is well-formed and fits the heap, and what the client holds is handed out.
pub record IsSound (c : Client) : Type 0 where
  pub blocks : List Entry
  pub heap : IsHeap c.heap blocks
  pub fits : span blocks ≤ c.heap.heap_size
  pub positive : 0 < c.heap.heap_size
  pub held : AreHeld 40 (used blocks) c.live

-- A client that is handed a block that it did not hold.
allocated-IsSound :
    (size b sz : ℕ) (c : Client) (r : ℕ × Heap) (es' : List Entry)
    → (sound : IsSound c) → r.0 ≡ b + 40
    → size ≤ sz
    → IsHeap r.1 es'
    → used es' ≡ insert_used b sz (used sound.blocks)
    → span es' ≤ r.1.heap_size
    → 0 < r.1.heap_size
    → size_at b (used sound.blocks) ≡ none
    → IsSound (record { heap = r.1; live = (r.0, size) ∷ c.live })
allocated-IsSound size b sz c r es' sound ptr enough heap handed fits positive fresh =
    let us = used sound.blocks in
    let held : AreHeld 40 (insert_used b sz us) ((b + 40, size) ∷ c.live) = (
      record {
        block = b;
        size = sz;
        at = refl;
        there = size_at-inserted b sz us fresh;
        enough = omega (arith, enough);
      },
      AreHeld-fresh 40 us c.live b fresh sound.held,
      AreHeld-insert 40 us c.live b sz fresh sound.held,
    ) in
    record {
      blocks = es';
      heap = heap;
      fits = fits;
      positive = positive;
      held =
          subst (λ (vs : List (ℕ × ℕ)). AreHeld 40 vs ((r.0, size) ∷ c.live)) (sym handed)
            (subst (λ (p : ℕ). AreHeld 40 (insert_used b sz us) ((p, size) ∷ c.live)) (sym ptr)
              held);
    }

allocates-IsSound :
    (size : ℕ) (c : Client)
    → size ≢ 0
    → size + 4096 + 56 < 2 ^ 64
    → find_free_block (align_up size) c.heap ≢ null
    → IsSound c
    → IsSound
        (record { heap = (malloc size c.heap).1; live = ((malloc size c.heap).0, size) ∷ c.live })
allocates-IsSound size c ne small found sound =
    let s = c.heap in
    let es = sound.blocks in
    let b = find_free_block (align_up size) s in
    let fit =
      sym (find_free_block-first_fit (align_up size) s es sound.heap sound.fits sound.positive) in
    let (e, at, fr, room) =
      first_fit-find s.blocks (align_up size) 1 null s.first_block es sound.heap
        (ground (arith, fit, found)) in
    let fresh : size_at b (used es) ≡ none =
      find-size_at s.blocks b 1 null s.first_block es e sound.heap
        (subst (λ (t : ℕ). find t es ≡ some e) fit at)
      ∙ (rw fr refl) in
    let (ptr, sz, es', enough, heap, handed, spans) =
      malloc-first_fit size b s es sound.heap sound.fits sound.positive ne small fit found in
    let kept : (malloc size s).1.heap_size ≡ s.heap_size =
      ap (λ (r : ℕ × Heap). r.1.heap_size) (malloc_enters size s ne found)
      ∙ take_block-heap_size b (align_up size) s in
    allocated-IsSound size b sz c (malloc size s) es' sound ptr enough heap handed
      (omega (arith, spans, kept, sound.fits)) (omega (arith, kept, sound.positive)) fresh

grows-IsSound :
    (size r : ℕ) (c : Client) (es : List Entry)
    → (sound : IsSound c) → sound.blocks ≡ es
    → size ≢ 0
    → find_free_block (align_up size) c.heap ≡ null
    → c.heap.first_block ≢ null
    → CanGrow size r c.heap
    → IsSound
        (record { heap = (malloc size c.heap).1; live = ((malloc size c.heap).0, size) ∷ c.live })
grows-IsSound size r c [] sound is ne full some_block grow =
    absurd (some_block (subst (λ (bs : List Entry). IsHeap c.heap bs) is sound.heap).0)
grows-IsSound size r c (e ∷ es) sound is ne full some_block grow =
    let heap : IsHeap c.heap (e ∷ es) =
      subst (λ (bs : List Entry). IsHeap c.heap bs) is sound.heap in
    let fits : span (e ∷ es) ≤ c.heap.heap_size =
      subst (λ (bs : List Entry). span bs ≤ c.heap.heap_size) is sound.fits in
    let none_fits : first_fit (align_up size) (e ∷ es) ≡ null =
      sym (find_free_block-first_fit (align_up size) c.heap (e ∷ es) heap fits sound.positive)
      ∙ full in
    let (_, b, sz, es', ptr, fresh, enough, heap', handed, fits', grown) =
      malloc-grows size r c.heap e es heap fits ne none_fits grow in
    let same : used (e ∷ es) ≡ used sound.blocks = ap (λ (bs : List Entry). used bs) (sym is) in
    allocated-IsSound size b sz c (malloc size c.heap) es' sound ptr enough heap'
      (handed ∙ ap (λ (us : List (ℕ × ℕ)). insert_used b sz us) same) fits'
      (omega (arith, grown, sound.positive)) (ap (size_at b) (sym same) ∙ fresh)

frees-IsSound :
    (ptr size : ℕ) (c : Client)
    → size_at ptr c.live ≡ some size
    → IsSound c
    → IsSound (record { heap = free ptr c.heap; live = remove_used ptr c.live })
frees-IsSound ptr size c at sound =
    let s = c.heap in
    let es = sound.blocks in
    let h = AreHeld-at 40 (used es) c.live ptr size sound.held at in
    let e = entry h.block h.size false in
    let there = size_at-find s.blocks h.block h.size 1 null s.first_block es sound.heap h.there in
    let (_, es', heap, handed, spans) = free-used h.block s es e sound.heap there refl in
    let kept = free-heap_size (h.block + 40) s in
    let held : AreHeld 40 (used es') (remove_used (h.block + 40) c.live) =
      rw handed (AreHeld-remove 40 (used es) c.live h.block sound.held) in
    rw h.at (record {
      blocks = es';
      heap = heap;
      fits = omega (arith, spans, kept, sound.fits);
      positive = omega (arith, kept, sound.positive);
      held = held;
    })

Step-IsSound : {c d : Client} → Step c d → IsSound c → IsSound d
Step-IsSound {c} (Step.allocates size ne small found) sound =
    allocates-IsSound size c ne small found sound
Step-IsSound {c} (Step.grows size r ne full some_block grow) sound =
    grows-IsSound size r c sound.blocks sound refl ne full some_block grow
Step-IsSound {c} (Step.frees ptr size at) sound = frees-IsSound ptr size c at sound

Run-IsSound :
    {s : Heap} {c : Client} (es : List Entry)
    → IsHeap s es
    → span es ≤ s.heap_size
    → 0 < s.heap_size
    → Run s c
    → IsSound c
Run-IsSound es heap fits pos Run.start = record {
  blocks = es;
  heap = heap;
  fits = fits;
  positive = pos;
  held = tt;
}
Run-IsSound es heap fits pos (Run.later before step) =
    Step-IsSound step (Run-IsSound es heap fits pos before)

-- Whatever `malloc` and `free` calls a client makes on a heap that is not empty and has a well-formed list
-- of blocks, by any number of steps in which every request is for at least one byte and not near
-- the size of the address space, and either finds a free block in the list or finds none while the heap
-- can grow, and only pointers that are held are given back: no two of the regions that the client holds overlap, each with the bytes it asked
-- for, and the list of blocks is still well-formed and fits the heap.
pub Run-AreApart :
    (s : Heap) (c : Client) (es : List Entry)
    → IsHeap s es
    → span es ≤ s.heap_size
    → 0 < s.heap_size
    → Run s c
    → AreApart c.live × (es' : List Entry) × IsHeap c.heap es' × (span es' ≤ c.heap.heap_size)
Run-AreApart s c es heap fits pos run =
    let sound = Run-IsSound es heap fits pos run in
    (
      AreHeld-AreApart 40 c.heap.blocks 1 null c.heap.first_block sound.blocks c.live sound.heap
          sound.held,
      sound.blocks,
      sound.heap,
      sound.fits,
    )
