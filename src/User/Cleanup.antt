-- ===== src/User/Cleanup.antt =====
-- A process and the kernel heap.
use coronel.Base.{
  ℕ, ◌+◌, ◌^◌, ◌≤◌, ◌<◌, ◌≡◌, ◌≢◌, refl, false, List, [], ◌∷◌, ◌==◌, arith, none, some, sym, subst,
  ap, ◌∙◌,
}
use coronel.Config.{align_up}
use coronel.Machine.{Machine, null}
use coronel.Memory.{Bytes}
use coronel.Virtual
use coronel.Heap.{Heap}
use coronel.Heap.Blocks
use coronel.Heap.Blocks.{find_free_block}
use coronel.Heap.Chain.{Entry, entry, IsHeap, used, span}
use coronel.Heap.Chain.Mark.{find}
use coronel.Heap.Chain.Used.{insert_used, remove_used}
use coronel.Heap.Chain.Held.{size_at, size_at-find, size_at-inserted, find-size_at}
use coronel.Heap.Find.{first_fit}
use coronel.Heap.Malloc.{malloc-first_fit, first_fit-find}
use coronel.Heap.Free.{free-used}
use coronel.Kernel
use coronel.Kernel.{Kernel, kmalloc}
use coronel.User.{UserHeap, UserBlocks}
use coronel.User.Blocks.{cleanup_on_exit}
use coronel.User.Process.{ProcessMemory}
use coronel.User.Lifetime.{sizeof_user_allocator, on_machine, process_memory, cleanup_all}

-- Taking out what was put in.
remove_used-insert :
    (b sz : ℕ) (us : List (ℕ × ℕ)) → size_at b us ≡ none → remove_used b (insert_used b sz us) ≡ us
remove_used-insert b sz [] h = ground arith
remove_used-insert b sz ((a, n) ∷ us) h = ground (arith, remove_used-insert b sz us)

kmalloc_heap :
    (n : ℕ) (k : Kernel)
    → k.g_kernel_heap ≢ null
    → kmalloc n k ≡ ((Blocks.malloc n k.heap).0, record k { heap = (Blocks.malloc n k.heap).1 })
unfolding kmalloc
kmalloc_heap n k there =
    let not_null : (k.g_kernel_heap == null) ≡ false = ground (arith, there) in rw not_null refl

kfree_heap :
    (ptr : ℕ) (k : Kernel)
    → k.g_kernel_heap ≢ null
    → ptr ≢ null
    → Kernel.kfree ptr k ≡ record k { heap = Blocks.free ptr k.heap }
unfolding Kernel.kfree
kfree_heap ptr k there ne =
    let not_null : (k.g_kernel_heap == null) ≡ false = ground (arith, there) in
    let some_ptr : (ptr == null) ≡ false = ground (arith, ne) in rw (not_null, some_ptr) refl

-- A block that `malloc` takes and `free` gives back, over whatever memory.
malloc-free :
    (n b : ℕ) (s : Heap) (es : List Entry) (m : Machine)
    → IsHeap s es
    → span es ≤ s.heap_size
    → 0 < s.heap_size
    → n ≢ 0
    → n + 4096 + 56 < 2 ^ 64
    → first_fit (align_up n) es ≡ b
    → b ≢ null
    → ((Blocks.malloc n s).0 ≡ b + 40)
      × (es' : List Entry) × IsHeap
          (Blocks.free (b + 40) (record (Blocks.malloc n s).1 { machine = m }))
          es'
      × (used es' ≡ used es)
      × (span es' ≡ span es)
malloc-free n b s es m c fits positive ne small fit found =
    let (ptr, sz, es₁, _, heap, handed, spans) =
      malloc-first_fit n b s es c fits positive ne small fit found in
    let (f, at, fr, _) =
      first_fit-find s.blocks (align_up n) 1 null s.first_block es c (ground (arith, fit, found)) in
    let free_there : find b es ≡ some f = subst (λ (t : ℕ). find t es ≡ some f) fit at in
    let fresh : size_at b (used es) ≡ none =
      find-size_at s.blocks b 1 null s.first_block es f c free_there ∙ (rw fr refl) in
    let held : size_at b (used es₁) ≡ some sz =
      ap (size_at b) handed ∙ size_at-inserted b sz (used es) fresh in
    let t : Heap = record (Blocks.malloc n s).1 { machine = m } in
    let taken = size_at-find t.blocks b sz 1 null t.first_block es₁ heap held in
    let (_, es', heap', handed', spans') = free-used b t es₁ (entry b sz false) heap taken refl in
    (
      ptr,
      es',
      heap',
      handed' ∙ ap (remove_used b) handed ∙ remove_used-insert b sz (used es) fresh,
      spans' ∙ spans,
    )

-- A process from its constructor to `cleanup_all`; `u` and `m` are its heap and the memory when it ends.
abbrev pub lifetime :
    ℕ → UserBlocks → Bytes → UserHeap → Machine → Kernel → ProcessMemory × UserHeap × Kernel
lifetime page_dir blocks bytes u m k =
    let (p, _, k₁) = process_memory page_dir blocks bytes k in cleanup_all p u (on_machine m k₁)

constructed :
    (page_dir : ℕ) (blocks : UserBlocks) (bytes : Bytes) (k : Kernel) (m : Machine)
    → k.g_kernel_heap ≢ null
    → let s = record k.heap { machine = (Virtual.create k.heap.machine).1 } in
      ((process_memory page_dir blocks bytes k).0.heap ≡ (Blocks.malloc 48 s).0)
      × (on_machine m (process_memory page_dir blocks bytes k).2
          ≡ on_machine m (record k { heap = (Blocks.malloc 48 s).1 }))
unfolding process_memory
constructed page_dir blocks bytes k m there =
    rw (kmalloc_heap 48 (on_machine (Virtual.create k.heap.machine).1 k) there) (refl, refl)

-- The memory that `cleanup_on_exit` leaves.
abbrev released : UserHeap → Machine → Machine
released u m = (cleanup_on_exit (record u { machine = m })).machine

cleaned :
    (p : ProcessMemory) (u : UserHeap) (k : Kernel)
    → p.heap ≢ null
    → k.g_kernel_heap ≢ null
    → (cleanup_all p u k).2.heap
      ≡ Blocks.free p.heap (record k.heap { machine = released u k.heap.machine })
unfolding cleanup_all
cleaned p u k ne there =
    let not_null : (p.heap == null) ≡ false = ground (arith, ne) in
    let k' = on_machine (released u k.heap.machine) k in
    rw not_null (ap (λ (r : Kernel). r.heap) (kfree_heap p.heap k' there ne))

-- A kernel with a heap.
module _ (k : Kernel) (es : List Entry) (b : ℕ) (c : IsHeap k.heap es)
    (fits : span es ≤ k.heap.heap_size) (positive : 0 < k.heap.heap_size)
    (there : k.g_kernel_heap ≢ null) (fit : first_fit (align_up sizeof_user_allocator) es ≡ b)
    (found : b ≢ null) where
  -- On a kernel heap with a well-formed list of blocks and a first free block with room for the allocator
  -- of a process: the constructor of `process_memory` takes
  -- that block and `cleanup_all` gives it back. Whatever the process has done to its own heap, to the
  -- page tables and to the frames in between, what the kernel heap has handed out is what it was
  -- before, and its list of blocks is well-formed over the same span.
  pub cleanup_all-process_memory :
      (page_dir : ℕ) (blocks : UserBlocks) (bytes : Bytes) (u : UserHeap) (m : Machine)
      → ((process_memory page_dir blocks bytes k).0.heap ≡ b + 40)
        × (es' : List Entry) × IsHeap (lifetime page_dir blocks bytes u m k).2.heap es'
        × (used es' ≡ used es)
        × (span es' ≡ span es)
  cleanup_all-process_memory page_dir blocks bytes u m =
      let s : Heap = record k.heap { machine = (Virtual.create k.heap.machine).1 } in
      let (ptr, es', heap, handed, spans) =
        malloc-free 48 b s es (released u m) c fits positive (omega arith) (omega arith) fit
          found in
      let (at, kernel) = constructed page_dir blocks bytes k m there in
      let p = (process_memory page_dir blocks bytes k).0 in
      let k₁ = on_machine m (record k { heap = (Blocks.malloc 48 s).1 }) in
      let here : p.heap ≡ b + 40 = at ∙ ptr in
      let ended : (lifetime page_dir blocks bytes u m k).2.heap
          ≡ Blocks.free (b + 40) (record (Blocks.malloc 48 s).1 { machine = released u m }) =
        ap (λ (r : Kernel). (cleanup_all p u r).2.heap) kernel
        ∙ cleaned p u k₁ (omega (arith, here)) there
        ∙ ap (λ (a : ℕ). Blocks.free a (record (Blocks.malloc 48 s).1 { machine = released u m }))
            here in
      (here, es', subst (λ (h : Heap). IsHeap h es') (sym ended) heap, handed, spans)
