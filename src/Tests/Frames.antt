-- ===== src/Tests/Frames.antt =====
-- src/kernel/config.hpp and src/kernel/memory/physical.cpp on a small machine.
use coronel.Base.{ℕ, List, ◌+◌, ◌*◌, ◌/◌, ◌≡◌, refl, [], ◌∷◌, arith, ◌==◌, if◌then◌else◌}
use coronel.Config.{align_up, align_down, is_aligned}
use coronel.Config.Align.{align_up_wraps}
use coronel.Machine.{Machine, null}
use coronel.Physical.{alloc, free, setup, alloc_blocks, onto}
use coronel.Physical.Chain.{Chain, IsFreeList}
use coronel.Physical.Setup.{whole_pages, setup-frames_from}
use coronel.Physical.Trace.{Frames, Step, Run, count, without}
use coronel.Physical.Trace.Owned.{is_page, Run-count}
use coronel.Physical.Blocks.{alloc_blocks-full, alloc_blocks_reclaims_nodes}

abbrev first_node : ℕ
first_node = 0xffffffff804ffff0

abbrev second_node : ℕ
second_node = 0xffffffff804fffe0

-- Behind the kernel image, with 32 KB of memory below the end and two frames listed.
abbrev pub two_frames : Machine
two_frames = record {
  placement = 0xffffffff80500000;
  frames = λ a.
      if a == second_node
      then record { address = 0x3000; previous = first_node }
      else record { address = 0x2000; previous = null };
  physical_end = 0x8000;
  free_list = second_node;
  words = λ _. 0;
  cr3 = null;
}

abbrev pub no_frames : Machine
no_frames = record two_frames { free_list = null }

two_frames-IsFreeList : IsFreeList two_frames (0x3000 ∷ 0x2000 ∷ [])
two_frames-IsFreeList = (omega arith, omega arith, refl, (omega arith, omega arith, refl, refl))

align_up_wraps_example : align_up 0xfffffffffffffff0 ≡ 0
align_up_wraps_example = align_up_wraps 0xfffffffffffffff0 (omega arith) (omega arith)

setup-frames_from_example :
    IsFreeList (setup 0x1800 0x4000 no_frames) (0x4000 ∷ 0x3000 ∷ 0x2000 ∷ [])
setup-frames_from_example =
    setup-frames_from 0x1800 0x4000 no_frames (omega arith) (omega arith, omega arith) refl

alloc_blocks-full_example :
    ((alloc_blocks 2 two_frames).0 ≡ 0x3000)
    × IsFreeList (alloc_blocks 2 two_frames).1 []
    × ((alloc_blocks 2 two_frames).1.placement ≡ 0xffffffff80500000)
alloc_blocks-full_example =
    alloc_blocks-full 2 two_frames (0x3000 ∷ 0x2000 ∷ []) (omega arith) (omega arith) (omega arith)
      (omega arith, omega arith) (omega arith) (omega arith, (omega arith, tt))
      two_frames-IsFreeList

alloc_blocks_reclaims_nodes_example :
    ((alloc_blocks 3 two_frames).0 ≡ null)
    × Chain
        (alloc_blocks 3 two_frames).1.frames
        0xffffffff80500038
        (alloc_blocks 3 two_frames).1.free_list
        (onto (0x3000 ∷ 0x2000 ∷ []) [])
    × ((alloc_blocks 3 two_frames).1.placement ≡ 0xffffffff80500020)
    × ((alloc_blocks 3 two_frames).1.free_list + 16 ≡ 0xffffffff80500038)
alloc_blocks_reclaims_nodes_example =
    alloc_blocks_reclaims_nodes 3 two_frames (0x3000 ∷ 0x2000 ∷ []) (omega arith) (omega arith)
      (omega arith, omega arith) (omega arith) (omega arith) (omega arith, (omega arith, tt))
      (refl, (refl, tt)) two_frames-IsFreeList

abbrev three_frames : Machine
three_frames = setup 0x1800 0x4000 no_frames

abbrev two_taken : Frames
two_taken = record {
  machine = (alloc (alloc three_frames).1).1;
  held = (alloc (alloc three_frames).1).0 ∷ (alloc three_frames).0 ∷ [];
}

abbrev one_given : Frames
one_given = record { machine = free 0x4000 two_taken.machine; held = without 0x4000 two_taken.held }

takes_first : (alloc three_frames).0 ≡ 0x4000
unfolding alloc setup align_down align_up free is_aligned
takes_first = refl

takes_second : (alloc (alloc three_frames).1).0 ≡ 0x3000
unfolding alloc setup align_down align_up free is_aligned
takes_second = refl

has_one : count 0x4000 two_taken.held ≡ 1
has_one = rw (takes_first, takes_second) refl

end_of_placement : (alloc (alloc three_frames).1).1.placement ≡ 0xffffffff80500030
unfolding alloc setup align_down align_up free is_aligned
end_of_placement = refl

Run-to_one_given : Run three_frames one_given
Run-to_one_given =
    Run.later
      (Run.later (Run.later Run.start (Step.takes (omega (arith, takes_first))))
        (Step.takes (omega (arith, takes_second))))
      (Step.gives 0x4000 (omega (arith, has_one))
        (omega (arith, end_of_placement), omega (arith, end_of_placement)))

Run-count_example :
    (free : List ℕ) × IsFreeList one_given.machine free
    × ((a : ℕ)
        → count a one_given.held + count a free
          ≡ is_page ((0x1800 + 4095) / 4096 * 4096) (whole_pages 0x1800 0x4000) a)
Run-count_example =
    Run-count 0x1800 0x4000 no_frames one_given (omega arith) (omega arith)
      (omega arith, omega arith) refl Run-to_one_given
