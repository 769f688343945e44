-- ===== src/User/Trace/Apart.antt =====
-- The memory that a process holds.
use coronel.Base.{
  ℕ, ◌+◌, ◌-◌, ◌^◌, ◌≤◌, ◌<◌, ◌≡◌, ◌≢◌, refl, false, true, List, [], ◌∷◌, arith, none, some, sym,
  subst, ◌∙◌,
}
use coronel.Config.{align_up}
use coronel.Config.Align.{align_up_lem}
use coronel.Machine.{Machine, null}
use coronel.Memory.{Bytes}
use coronel.Heap.Chain.{Entry, entry, used, span}
use coronel.Heap.Chain.Mark.{find}
use coronel.Heap.Chain.Used.{insert_used, remove_used}
use coronel.Heap.Chain.Held.{size_at, size_at-find, size_at-inserted, find-size_at}
use coronel.Heap.Find.{first_fit}
use coronel.Heap.Malloc.{first_fit-find}
use coronel.Heap.Trace.{AreApart}
use coronel.Heap.Trace.Live.{
  AreHeld, AreHeld-at, AreHeld-insert, AreHeld-remove, AreHeld-fresh, AreHeld-AreApart,
}
use coronel.User.{UserHeap, UserBlocks, user_heap_start, user_heap_initial_size}
use coronel.User.Pages.{sys_request_memory}
use coronel.User.Blocks.{
  user_allocator, find_free_block, malloc, free, release, get_heap_size, coalesce_block,
  coalesce_next, coalesce_prev,
}
use coronel.User.View.{view, IsUserHeap}
use coronel.User.View.Malloc.{find_free_block-view, malloc-IsUserHeap}
use coronel.User.View.Free.{free-IsUserHeap}
use coronel.User.View.Create.{user_allocator-IsUserHeap}
use coronel.User.Trace.{Process, Step, Run}

free-get_heap_size : (ptr : ℕ) (s : UserHeap) → get_heap_size (free ptr s) ≡ get_heap_size s
unfolding free release coalesce_block coalesce_next coalesce_prev get_heap_size
free-get_heap_size ptr s = ground arith

-- The list of blocks is well-formed and fits the heap, and what the process holds is handed out.
record IsSound (p : Process) : Type 0 where
  blocks : List Entry
  heap : IsUserHeap p.heap blocks
  fits : span blocks ≤ get_heap_size p.heap
  positive : 0 < get_heap_size p.heap
  held : AreHeld 24 (used blocks) p.live

allocates-IsSound :
    (size : ℕ) (p : Process)
    → size ≢ 0
    → size ≤ 0x80000000
    → find_free_block (align_up size) p.heap ≢ null
    → IsSound p
    → IsSound
        (record { heap = (malloc size p.heap).1; live = ((malloc size p.heap).0, size) ∷ p.live })
allocates-IsSound size p ne small found sound =
    let s = p.heap in
    let es = sound.blocks in
    let n = align_up size in
    let b = find_free_block n s in
    let up = align_up_lem size (omega (arith, small)) in
    let fit : first_fit (n - 16) es ≡ b =
      sym (
        find_free_block-view n s es sound.heap sound.fits sound.positive (omega (arith, up, ne))) in
    let (e, at, fr, _) =
      first_fit-find (view s.blocks) (n - 16) 1 null s.first_block es sound.heap.heap
        (ground (arith, fit, found)) in
    let fresh : size_at b (used es) ≡ none =
      find-size_at (view s.blocks) b 1 null s.first_block es e sound.heap.heap
        (subst (λ (t : ℕ). find t es ≡ some e) fit at)
      ∙ (rw fr refl) in
    let (ptr, sz, es', enough, heap, handed, spans, grown) =
      malloc-IsUserHeap size b s es sound.heap sound.fits ne small fit found in
    let held : AreHeld 24 (insert_used b sz (used es)) ((b + 24, size) ∷ p.live) = (
      record {
        block = b;
        size = sz;
        at = refl;
        there = size_at-inserted b sz (used es) fresh;
        enough = omega (arith, enough);
      },
      AreHeld-fresh 24 (used es) p.live b fresh sound.held,
      AreHeld-insert 24 (used es) p.live b sz fresh sound.held,
    ) in
    record {
      blocks = es';
      heap = heap;
      fits = omega (arith, spans, grown, sound.fits);
      positive = omega (arith, grown, sound.positive);
      held =
          subst (λ (us : List (ℕ × ℕ)). AreHeld 24 us (((malloc size s).0, size) ∷ p.live))
            (sym handed)
            (subst (λ (q : ℕ). AreHeld 24 (insert_used b sz (used es)) ((q, size) ∷ p.live))
              (sym ptr) held);
    }

frees-IsSound :
    (ptr size : ℕ) (p : Process)
    → size_at ptr p.live ≡ some size
    → IsSound p
    → IsSound (record { heap = free ptr p.heap; live = remove_used ptr p.live })
frees-IsSound ptr size p at sound =
    let s = p.heap in
    let es = sound.blocks in
    let h = AreHeld-at 24 (used es) p.live ptr size sound.held at in
    let there =
      size_at-find (view s.blocks) h.block h.size 1 null s.first_block es sound.heap.heap h.there in
    let (_, es', heap, handed, spans) =
      free-IsUserHeap h.block s es (entry h.block h.size false) sound.heap there refl in
    let kept = free-get_heap_size (h.block + 24) s in
    let held : AreHeld 24 (used es') (remove_used (h.block + 24) p.live) =
      rw handed (AreHeld-remove 24 (used es) p.live h.block sound.held) in
    rw h.at (record {
      blocks = es';
      heap = heap;
      fits = omega (arith, spans, kept, sound.fits);
      positive = omega (arith, kept, sound.positive);
      held = held;
    })

Step-IsSound : {p q : Process} → Step p q → IsSound p → IsSound q
Step-IsSound {p} (Step.allocates size ne small found) sound =
    allocates-IsSound size p ne small found sound
Step-IsSound {p} (Step.frees ptr size at) sound = frees-IsSound ptr size p at sound

Run-IsSound :
    {s : UserHeap} {p : Process} → IsSound (record { heap = s; live = [] }) → Run s p → IsSound p
Run-IsSound sound Run.start = sound
Run-IsSound sound (Run.later before step) = Step-IsSound step (Run-IsSound sound before)

-- When the constructor of the allocator of a process is granted its first memory, and the flags in
-- memory are words of 32 bits: whatever `malloc` and `free` calls the process then makes, by any
-- number of steps in which every request is for at least one byte and at most 2 GB and finds a free
-- block in the list, and only pointers that are held are given back, no two of the regions that the
-- process holds overlap, each with the bytes it asked for, and the list of blocks is still
-- well-formed and fits the heap.
pub user_allocator-AreApart :
    (page_dir : ℕ) (blocks : UserBlocks) (bytes : Bytes) (m : Machine) (p : Process)
    → (sys_request_memory page_dir user_heap_start user_heap_initial_size m).0 ≡ true
    → ((a : ℕ) → (blocks a).flags < 2 ^ 32)
    → Run (user_allocator page_dir blocks bytes m) p
    → AreApart p.live × (es : List Entry) × IsUserHeap p.heap es × (span es ≤ get_heap_size p.heap)
user_allocator-AreApart page_dir blocks bytes m p granted words run =
    let (heap, fits) = user_allocator-IsUserHeap page_dir blocks bytes m granted words in
    let s = user_allocator page_dir blocks bytes m in
    let sound =
      Run-IsSound
        (record {
          blocks = entry user_heap_start (user_heap_initial_size - 40) true ∷ [];
          heap = heap;
          fits = omega (arith, fits);
          positive = omega (arith, fits);
          held = tt;
        })
        run in
    (
      AreHeld-AreApart 24 (view p.heap.blocks) 1 null p.heap.first_block sound.blocks p.live
          sound.heap.heap sound.held,
      sound.blocks,
      sound.heap,
      sound.fits,
    )
