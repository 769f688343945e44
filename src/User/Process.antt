-- ===== src/User/Process.antt =====
-- `process_memory`: the stack of a process and the test of its pointers.
use coronel.Base.{
  ℕ, zero, suc, ◌+◌, ◌/◌, ◌^◌, ◌≤◌, ◌<◌, ◌≡◌, ◌↔◌, Bool, true, false, ◌||◌, List, ltb, leb, ◌==◌,
  if◌then◌else◌, add64, sub64, mul64, arith,
}
use coronel.Config.{frame_size, align_up}
use coronel.Machine.{Machine, null}
use coronel.Physical
use coronel.Virtual.{Node}
use coronel.Paging.{map}
use coronel.User.{user_null_guard_size, user_stack_top}

-- `process_memory`; `virtual_manager` is the list of regions, and `heap` a pointer.
pub record ProcessMemory : Type 0 where
  pub page_directory : ℕ
  pub virtual_manager : List Node
  pub heap : ℕ
  pub stack_top : ℕ
  pub stack_size : ℕ
  pub code_start : ℕ
  pub code_size : ℕ
  pub data_start : ℕ
  pub data_size : ℕ

unfoldable pub setup_memory_layout : ℕ → ℕ → ℕ → ℕ → ProcessMemory → Bool × ProcessMemory
setup_memory_layout code_addr code_sz data_addr data_sz p = (
  true,
  record p {
    code_start = code_addr;
    code_size = code_sz;
    data_start = data_addr;
    data_size = data_sz;
  },
)

-- The loop of `setup_stack` from page `i` on, by the number of rounds.
unfoldable pub map_stack : ℕ → ℕ → ℕ → ℕ → Machine → Bool × Machine
map_stack zero i page_dir stack_bottom m = (true, m)
map_stack (suc n) i page_dir stack_bottom m =
    let (phys_addr, m₁) = Physical.alloc m in
    let (result, m₂) = map page_dir (add64 stack_bottom (mul64 i frame_size)) phys_addr 0x07 m₁ in
    let rest = map_stack n (i + 1) page_dir stack_bottom m₂ in
    if phys_addr == null
    then (false, m₁)
    else if result == 0
    then rest
    else (false, Physical.free phys_addr m₂)

unfoldable pub setup_stack : ℕ → ProcessMemory → Machine → Bool × ProcessMemory × Machine
setup_stack size p m =
    let p₁ : ProcessMemory = record p { stack_size = align_up size; stack_top = user_stack_top } in
    let stack_bottom = sub64 user_stack_top p₁.stack_size in
    let (done, m₁) = map_stack (p₁.stack_size / frame_size) 0 p.page_directory stack_bottom m in
    (done, p₁, m₁)

unfoldable pub validate_user_pointer : ℕ → ℕ → Bool
validate_user_pointer addr size =
    let end_addr = add64 addr size in
    if ltb end_addr addr
    then false
    else if ltb addr user_null_guard_size
    then false
    else if leb 0x0000800000000000 addr || leb 0x0000800000000000 end_addr
    then false
    else true

-- A user pointer is accepted exactly if the range starts behind the guard area and, without
-- wrapping, ends below the kernel's half of the address space.
pub validate_user_pointer_iff :
    (addr size : ℕ)
    → addr < 2 ^ 64
    → size < 2 ^ 64
    → (validate_user_pointer addr size ≡ true)
      ↔ ((user_null_guard_size ≤ addr) × (addr + size < 2 ^ 47))
unfolding validate_user_pointer
validate_user_pointer_iff addr size a s = ground arith
