-- ===== src/Physical/Trace.antt =====
-- The physical manager and the callers of `alloc` and `free`, as a step relation.
pub mod Owned
use coronel.Base.{ℕ, ◌+◌, ◌≡◌, ◌≢◌, ◌<◌, List, [], ◌∷◌, ◌==◌, if◌then◌else◌}
use coronel.Machine.{Machine, null}
use coronel.Physical.{alloc, free}
use coronel.Physical.Chain.{HasRoom}

-- How often a frame is in the list.
abbrev pub count : ℕ → List ℕ → ℕ
count a [] = 0
count a (b ∷ l) = if b == a then 1 + count a l else count a l

-- The list without the first `a`.
abbrev pub without : ℕ → List ℕ → List ℕ
without a [] = []
without a (b ∷ l) = if b == a then l else b ∷ without a l

-- The manager, and the frames that callers hold.
pub record Frames : Type 0 where
  pub machine : Machine
  pub held : List ℕ

-- A call of `alloc` that gives a frame or null, and of `free` on a frame that is held, while there is
-- memory for a node.
pub data Step (f : Frames) : Frames → Type 0 where
  takes :
      (alloc f.machine).0 ≢ null
      → Step f (record { machine = (alloc f.machine).1; held = (alloc f.machine).0 ∷ f.held })
  finds_none :
      (alloc f.machine).0 ≡ null → Step f (record { machine = (alloc f.machine).1; held = f.held })
  gives :
      (addr : ℕ)
      → 0 < count addr f.held
      → HasRoom 16 f.machine
      → Step f (record { machine = free addr f.machine; held = without addr f.held })

pub data Run (m : Machine) : Frames → Type 0 where
  start : Run m (record { machine = m; held = [] })
  later : {f g : Frames} → Run m f → Step f g → Run m g
