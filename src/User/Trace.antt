-- ===== src/User/Trace.antt =====
-- The heap of a process and its calls of `malloc` and `free`, as a step relation.
pub mod Apart
use coronel.Base.{ℕ, ◌≤◌, ◌≡◌, ◌≢◌, List, [], ◌∷◌, some}
use coronel.Config.{align_up}
use coronel.Machine.{null}
use coronel.Heap.Chain.Used.{remove_used}
use coronel.Heap.Chain.Held.{size_at}
use coronel.User.{UserHeap}
use coronel.User.Blocks.{find_free_block, malloc, free}

-- The heap, and what the process holds: each pointer with the number of bytes it asked for.
pub record Process : Type 0 where
  pub heap : UserHeap
  pub live : List (ℕ × ℕ)

-- The two calls. A request is one that the list can serve; a pointer that is given back is one that
-- the process holds.
pub data Step (p : Process) : Process → Type 0 where
  allocates :
      (size : ℕ)
      → size ≢ 0
      → size ≤ 0x80000000
      → find_free_block (align_up size) p.heap ≢ null
      → Step p
          (record { heap = (malloc size p.heap).1; live = ((malloc size p.heap).0, size) ∷ p.live })
  frees :
      (ptr size : ℕ)
      → size_at ptr p.live ≡ some size
      → Step p (record { heap = free ptr p.heap; live = remove_used ptr p.live })

-- A process that starts with nothing on the heap `s`.
pub data Run (s : UserHeap) : Process → Type 0 where
  start : Run s (record { heap = s; live = [] })
  later : {p q : Process} → Run s p → Step p q → Run s q
