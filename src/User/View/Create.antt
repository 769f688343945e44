-- ===== src/User/View/Create.antt =====
-- The constructor of `user_allocator`.
use coronel.Base.{ℕ, ◌-◌, ◌^◌, ◌<◌, ◌≡◌, refl, true, [], ◌∷◌, arith}
use coronel.Machine.{Machine}
use coronel.Memory.{Bytes}
use coronel.Heap.Chain.{entry}
use coronel.User.{UserBlocks, user_block, user_heap_start, user_heap_initial_size}
use coronel.User.Pages.{sys_request_memory}
use coronel.User.Blocks.{user_allocator, get_heap_size}
use coronel.User.View.{IsUserHeap}
use coronel.User.View.Split.{fresh_is_free, fresh_magic}

-- One free block over the memory that was granted.
pub user_allocator-IsUserHeap :
    (page_dir : ℕ) (blocks : UserBlocks) (bytes : Bytes) (m : Machine)
    → (sys_request_memory page_dir user_heap_start user_heap_initial_size m).0 ≡ true
    → ((a : ℕ) → (blocks a).flags < 2 ^ 32)
    → IsUserHeap
        (user_allocator page_dir blocks bytes m)
        (entry user_heap_start (user_heap_initial_size - 40) true ∷ [])
      × (get_heap_size (user_allocator page_dir blocks bytes m) ≡ user_heap_initial_size)
unfolding user_allocator get_heap_size user_block
user_allocator-IsUserHeap page_dir blocks bytes m granted words = rw granted (
  record {
    heap = (
      refl,
      omega arith,
      omega arith,
      record { size = refl; is_free = fresh_is_free; magic = fresh_magic; prev = refl },
      (refl, omega arith),
    );
    large = λ a h. ground (arith, h);
    words = λ a. ground (arith, words a);
    bounded = omega arith;
  },
  refl,
)
