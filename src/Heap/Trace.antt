-- ===== src/Heap/Trace.antt =====
-- The kernel heap and a client that calls `malloc` and `free`, as a step relation.
pub mod Live
pub mod Apart
use coronel.Base.{ℕ, ◌+◌, ◌^◌, ◌≤◌, ◌<◌, ◌≡◌, ◌≢◌, List, [], ◌∷◌, ◌⊎◌, Option, some}
use coronel.Config.{align_up}
use coronel.Machine.{null}
use coronel.Heap.{Heap}
use coronel.Heap.Blocks.{find_free_block, malloc, free}
use coronel.Heap.Chain.Used.{remove_used}
use coronel.Heap.Chain.Held.{size_at}
use coronel.Heap.Grow.Serve.{CanGrow}

-- The heap, and what the client holds: each pointer with the number of bytes it asked for.
pub record Client : Type 0 where
  pub heap : Heap
  pub live : List (ℕ × ℕ)

-- The two calls. A request is one that the list can serve, or one that no block has room for while the
-- heap can grow; a pointer that is given back is one that the client holds.
pub data Step (c : Client) : Client → Type 0 where
  allocates :
      (size : ℕ)
      → size ≢ 0
      → size + 4096 + 56 < 2 ^ 64
      → find_free_block (align_up size) c.heap ≢ null
      → Step c
          (record { heap = (malloc size c.heap).1; live = ((malloc size c.heap).0, size) ∷ c.live })
  grows :
      (size r : ℕ)
      → size ≢ 0
      → find_free_block (align_up size) c.heap ≡ null
      → c.heap.first_block ≢ null
      → CanGrow size r c.heap
      → Step c
          (record { heap = (malloc size c.heap).1; live = ((malloc size c.heap).0, size) ∷ c.live })
  frees :
      (ptr size : ℕ)
      → size_at ptr c.live ≡ some size
      → Step c (record { heap = free ptr c.heap; live = remove_used ptr c.live })

-- A client that starts with nothing on the heap `s`.
pub data Run (s : Heap) : Client → Type 0 where
  start : Run s (record { heap = s; live = [] })
  later : {c d : Client} → Run s c → Step c d → Run s d

-- No two of the regions overlap.
abbrev pub IsClear : ℕ → ℕ → List (ℕ × ℕ) → Type 0
IsClear p n [] = Unit
IsClear p n ((q, m) ∷ live) = ((p + n ≤ q) ⊎ (q + m ≤ p)) × IsClear p n live

abbrev pub AreApart : List (ℕ × ℕ) → Type 0
AreApart [] = Unit
AreApart ((p, n) ∷ live) = IsClear p n live × AreApart live
