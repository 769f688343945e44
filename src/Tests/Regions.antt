-- ===== src/Tests/Regions.antt =====
-- src/kernel/memory/virtual.cpp and src/kernel/libs/string.hpp on small lists.
use coronel.Base.{
  ℕ, ◌≡◌, ◌≢◌, ◌==◌, ◌||◌, if◌then◌else◌, ◌⊎◌, ◌+◌, ◌<◌, true, false, refl, List, [], ◌∷◌, arith,
}
use coronel.Config.{align_up}
use coronel.Machine.{null}
use coronel.Virtual.{Node, node, alloc, free}
use coronel.Virtual.Regions.{inside, count, IsBounded}
use coronel.Virtual.Alloc.{has_fit, alloc-count}
use coronel.Virtual.Free.{free-count}
use coronel.Memory.{Bytes, strlen, memmove}
use coronel.Memory.Laws.{strlen_lem, memmove_lem}
use coronel.Tests.Frames.{no_frames}

-- A deleted node, a region of one page and a region of eight.
abbrev pub three_nodes : List Node
three_nodes = node 0x9000 0 ∷ node 0x1000 0x1000 ∷ node 0x4000 0x8000 ∷ []

three_nodes-IsBounded : IsBounded three_nodes
three_nodes-IsBounded = (omega arith, (omega arith, (omega arith, tt)))

alloc-count_example :
    ((has_fit (align_up 0x1800) three_nodes ≡ true)
      × ((x : ℕ)
          → count x (alloc 0x1800 three_nodes).1
              + inside x (alloc 0x1800 three_nodes).0 (align_up 0x1800)
            ≡ count x three_nodes)
      × IsBounded (alloc 0x1800 three_nodes).1)
    ⊎ ((has_fit (align_up 0x1800) three_nodes ≡ false)
        × (alloc 0x1800 three_nodes ≡ (null, three_nodes)))
alloc-count_example = alloc-count 0x1800 three_nodes three_nodes-IsBounded

free-count_example :
    ((x : ℕ)
      → count x (free 0x2000 0x2000 three_nodes no_frames).0
        ≡ count x three_nodes + inside x 0x2000 (align_up 0x2000))
    × IsBounded (free 0x2000 0x2000 three_nodes no_frames).0
free-count_example =
    free-count 0x2000 0x2000 three_nodes no_frames (unfold align_up in omega arith)
      three_nodes-IsBounded

-- "ab" at address 7.
abbrev ab : Bytes
ab a = if (a == 7) || (a == 8) then a + 90 else 0

ab-nonzero : (i : ℕ) → i < 2 → ab (7 + i) ≢ 0
ab-nonzero i lt = ground arith

strlen_lem_example : strlen 10 7 ab ≡ 2
strlen_lem_example = strlen_lem 2 10 7 ab ab-nonzero refl (omega arith)

memmove_lem_example : memmove 8 7 2 ab 9 ≡ 98
memmove_lem_example = memmove_lem 8 7 2 ab 9
