-- ===== src/User/Pages.antt =====
-- `sys_request_memory` and `sys_release_memory`: pages of a process with user permissions.
use coronel.Base.{ℕ, zero, suc, ◌+◌, ◌/◌, Bool, true, false, ◌==◌, if◌then◌else◌, add64, mul64}
use coronel.Config.{frame_size, align_up}
use coronel.Machine.{Machine, null}
use coronel.Physical
use coronel.Paging.{map, unmap}

abbrev page_at : ℕ → ℕ → ℕ
page_at addr i = add64 addr (mul64 i frame_size)

-- Unmaps the pages `j`, `j + 1`, … of `addr`, by the number of them.
unfoldable pub release_from : ℕ → ℕ → ℕ → ℕ → Machine → Machine
release_from zero j page_dir addr m = m
release_from (suc n) j page_dir addr m =
    release_from n (j + 1) page_dir addr (unmap page_dir (page_at addr j) m)

-- The loop of `sys_request_memory` from page `i` on, by the number of rounds.
unfoldable pub request_from : ℕ → ℕ → ℕ → ℕ → Machine → Bool × Machine
request_from zero i page_dir addr m = (true, m)
request_from (suc n) i page_dir addr m =
    let (phys_addr, m₁) = Physical.alloc m in
    let (result, m₂) = map page_dir (page_at addr i) phys_addr 0x07 m₁ in
    let rest = request_from n (i + 1) page_dir addr m₂ in
    if phys_addr == null
    then (false, release_from i 0 page_dir addr m₁)
    else if result == 0
    then rest
    else (false, release_from i 0 page_dir addr (Physical.free phys_addr m₂))

unfoldable pub sys_request_memory : ℕ → ℕ → ℕ → Machine → Bool × Machine
sys_request_memory page_dir addr size m =
    request_from (align_up size / frame_size) 0 page_dir addr m

unfoldable pub sys_release_memory : ℕ → ℕ → ℕ → Machine → Machine
sys_release_memory page_dir addr size m =
    release_from (align_up size / frame_size) 0 page_dir addr m
