-- ===== src/Tests/Lists.antt =====
-- src/kernel/libs/ilist.hpp on a list of one value, and a process on a kernel with a heap.
use coronel.Base.{◌≡◌, refl, List, [], ◌∷◌, ◌++◌, arith}
use coronel.Config.{align_up}
use coronel.Ilist.{Ilist, link, push_back, values}
use coronel.Ilist.Values.{IsIlist, values-push_back}
use coronel.Heap.Chain.{Entry, IsHeap, used, span}
use coronel.Heap.Find.{first_fit}
use coronel.Kernel.{Kernel}
use coronel.User.Lifetime.{sizeof_user_allocator, process_memory}
use coronel.User.Cleanup.{lifetime, cleanup_all-process_memory}
use coronel.Tests.Frames.{no_frames, two_frames}
use coronel.Tests.Headers.{two_blocks, two_entries, two_blocks-IsHeap}
use coronel.Tests.Users.{one_block}

abbrev one_value : Ilist
one_value = record {
  machine = no_frames;
  links = λ a. link 7;
  head = 0xffffffff804ffff0;
  tail = 0xffffffff804ffff0;
  size = 1;
}

one_value-IsIlist : IsIlist one_value (7 ∷ [])
one_value-IsIlist = record { linked = (refl, omega arith, omega arith, refl, refl); size = refl }

values-push_back_example :
    (values (push_back 8 one_value) ≡ values one_value ++ (8 ∷ []))
    × IsIlist (push_back 8 one_value) ((7 ∷ []) ++ (8 ∷ []))
values-push_back_example =
    values-push_back 8 one_value (7 ∷ []) one_value-IsIlist (omega arith) (omega arith)
      (omega arith)

abbrev with_heap : Kernel
with_heap = record {
  g_physical_manager = 0xffffffff804ff000;
  g_kernel_virtual_manager = 0xffffffff804fe000;
  g_kernel_heap = 0xffffffff804fd000;
  heap = two_blocks;
}

allocator_room : first_fit (align_up sizeof_user_allocator) two_entries ≡ 0x11028
unfolding align_up
allocator_room = refl

cleanup_all-process_memory_example :
    ((process_memory 0x1000 one_block.blocks one_block.bytes with_heap).0.heap ≡ 0x11050)
    × (es' : List Entry) × IsHeap
        (lifetime 0x1000 one_block.blocks one_block.bytes one_block two_frames with_heap).2.heap
        es'
    × (used es' ≡ used two_entries)
    × (span es' ≡ span two_entries)
cleanup_all-process_memory_example =
    cleanup_all-process_memory with_heap two_entries 0x11028 two_blocks-IsHeap (omega arith)
      (omega arith) (omega arith) allocator_room (omega arith) 0x1000 one_block.blocks
      one_block.bytes one_block two_frames
