-- ===== src/Paging.antt =====
-- src/kernel/arch/amd64/memory/paging.cpp: the four-level page tables, as words at virtual
-- addresses. `insn::tlb_flush` changes no memory and has no counterpart here; `lib::log` neither.
pub mod Entry
pub mod Index
pub mod Translate
pub mod Directory
pub mod Unmap
pub mod Make
pub mod Boot
use coronel.Base.{
  ℕ, zero, suc, ◌+◌, ◌-◌, ◌*◌, ◌/◌, ◌^◌, Bool, true, false, not, ◌&&◌, bit_and, bit_or, ltb, leb,
  ◌==◌, if◌then◌else◌, add64, sub64, mul64,
}
use coronel.Config.{kvirtual_address, pci_virtual_address}
use coronel.Machine.{Machine, null, update, placement_kalloc}

-- `PTE`, `PDE`, `PDPT` and `PML4`.
unfoldable pub pte : ℕ → ℕ
pte addr = bit_and (addr / 2 ^ 12) 0x1ff

unfoldable pub pde : ℕ → ℕ
pde addr = bit_and (addr / 2 ^ 21) 0x1ff

unfoldable pub pdpt : ℕ → ℕ
pdpt addr = bit_and (addr / 2 ^ 30) 0x1ff

unfoldable pub pml4 : ℕ → ℕ
pml4 addr = bit_and (addr / 2 ^ 39) 0x1ff

-- `~0xfff`, extended to 64 bits.
abbrev pub page_mask : ℕ
page_mask = 2 ^ 64 - 4096

-- `ADDRESS` and `PRESENT`.
unfoldable pub address : ℕ → ℕ
address addr = add64 (bit_and addr page_mask) kvirtual_address

unfoldable pub present : ℕ → Bool
present addr = bit_and addr 1 == 1

-- The cell of index `i` in a table of 8-byte entries.
abbrev pub cell : ℕ → ℕ → ℕ
cell table i = add64 table (i * 8)

abbrev pub sizeof_table : ℕ
sizeof_table = 4096

-- `lib::memset(table, 0, size)` on the words.
abbrev pub clear_words : ℕ → ℕ → (ℕ → ℕ) → ℕ → ℕ
clear_words table size words a = if leb table a && ltb a (table + size) then 0 else words a

-- Allocates a table and stores its physical address in the directory entry at `at`.
unfoldable pub new_table : ℕ → ℕ → Machine → Machine
unfolding placement_kalloc
new_table at dir_flags m =
    let (tmp, paddr, m') = placement_kalloc sizeof_table true m in
    record m' { words = update (clear_words tmp sizeof_table m'.words) at (bit_or paddr dir_flags) }

-- One level of `get_page`: whether the entry at `at` is present, after it was made if asked for.
unfoldable pub enter : ℕ → ℕ → Bool → Machine → Bool × Machine
unfolding new_table
enter at dir_flags make m =
    if not (present (m.words at)) && make
    then (true, new_table at dir_flags m)
    else if not (present (m.words at))
    then (false, m)
    else (true, m)

abbrev pub dir_flags_of : ℕ → ℕ
dir_flags_of flags =
    let dir_flags = bit_or 0x01 0x02 in
    if bit_and flags 0x04 == 0 then dir_flags else bit_or dir_flags 0x04

-- The table of page-table entries for `vaddr`, or null.
unfoldable pub get_page : ℕ → ℕ → ℕ → Bool → Machine → ℕ × Machine
get_page page_dir vaddr flags make m =
    let dir_flags = dir_flags_of flags in
    let at₁ = cell (address page_dir) (pml4 vaddr) in
    let (found₁, m₁) = enter at₁ dir_flags make m in
    let at₂ = cell (address (m₁.words at₁)) (pdpt vaddr) in
    let (found₂, m₂) = enter at₂ dir_flags make m₁ in
    let at₃ = cell (address (m₂.words at₂)) (pde vaddr) in
    let (found₃, m₃) = enter at₃ dir_flags make m₂ in
    if not found₁
    then (null, m₁)
    else if not found₂
    then (null, m₂)
    else if not found₃
    then (null, m₃)
    else (address (m₃.words at₃), m₃)

-- The entry that `map` stores.
unfoldable pub page_entry : ℕ → ℕ → ℕ
page_entry paddr flags =
    let entry = bit_and paddr page_mask in
    let entry₁ = if bit_and flags 0x01 == 0 then entry else bit_or entry 0x01 in
    let entry₂ = if bit_and flags 0x02 == 0 then entry₁ else bit_or entry₁ 0x02 in
    if bit_and flags 0x04 == 0 then entry₂ else bit_or entry₂ 0x04

-- The `int` result as a bit pattern.
abbrev pub minus_one : ℕ
minus_one = 2 ^ 32 - 1

unfoldable pub map : ℕ → ℕ → ℕ → ℕ → Machine → ℕ × Machine
map dir vaddr paddr flags m =
    let (page, m') = get_page dir vaddr flags true m in
    if page == null
    then (minus_one, m')
    else (0, record m' { words = update m'.words (cell page (pte vaddr)) (page_entry paddr flags) })

unfoldable pub map_current : ℕ → ℕ → ℕ → Machine → ℕ × Machine
unfolding map
map_current vaddr paddr flags m = map m.cr3 vaddr paddr flags m

unfoldable pub unmap : ℕ → ℕ → Machine → Machine
unfolding address present pml4 pdpt pde pte
unmap page_dir vaddr m =
    let at₁ = cell (address page_dir) (pml4 vaddr) in
    let at₂ = cell (address (m.words at₁)) (pdpt vaddr) in
    let at₃ = cell (address (m.words at₂)) (pde vaddr) in
    let at₄ = cell (address (m.words at₃)) (pte vaddr) in
    if not (present (m.words at₁))
    then m
    else if not (present (m.words at₂))
    then m
    else if not (present (m.words at₃))
    then m
    else if not (present (m.words at₄))
    then m
    else record m { words = update m.words at₄ (bit_and (m.words at₄) page_mask) }

unfoldable pub unmap_current : ℕ → Machine → Machine
unfolding unmap
unmap_current vaddr m = unmap m.cr3 vaddr m

-- `~0xfff0'0000` on `unsigned int`.
abbrev io_mask : ℕ
io_mask = 0xfffff

unfoldable pub mapio : ℕ → ℕ → Machine → ℕ × Machine
unfolding get_page pte
mapio addr flags m =
    let offset = bit_and addr io_mask in
    let vaddr = add64 pci_virtual_address offset in
    let (page, m') = get_page m.cr3 vaddr 0x0 true m in
    let at = cell page (pte (bit_or pci_virtual_address offset)) in
    (vaddr, record m' { words = update m'.words at (add64 addr 0x3) })

unfoldable pub unmapio : ℕ → Machine → Machine
unfolding unmap_current
unmapio vaddr m = unmap_current vaddr m

-- The physical address of the new top table, or null if the kernel is not mapped.
unfoldable pub create_page_directory : Machine → ℕ × Machine
unfolding placement_kalloc address present pml4
create_page_directory m =
    let pml4_index = pml4 kvirtual_address in
    let (page_dir_virt, page_dir, m₁) = placement_kalloc sizeof_table true m in
    let words₁ = clear_words page_dir_virt sizeof_table m₁.words in
    let kernel = words₁ (cell (address m₁.cr3) pml4_index) in
    if not (present kernel)
    then (null, record m₁ { words = words₁ })
    else (page_dir, record m₁ { words = update words₁ (cell page_dir_virt pml4_index) kernel })

unfoldable pub create_user_page_directory : Machine → ℕ × Machine
unfolding create_page_directory
create_user_page_directory m = create_page_directory m

unfoldable pub map_user : ℕ → ℕ → ℕ → Machine → ℕ × Machine
unfolding map
map_user page_dir vaddr paddr m = map page_dir vaddr paddr 0x07 m

abbrev user_stack_top : ℕ
user_stack_top = 0x7FFFFF0

abbrev user_stack_size : ℕ
user_stack_size = 0x10000

-- The loop of `setup_user_memory_layout` from page `i` on, by the rounds left.
stack_pages : ℕ → ℕ → ℕ → Machine → Bool × Machine
unfolding placement_kalloc map_user
stack_pages zero i page_dir m = (true, m)
stack_pages (suc n) i page_dir m =
    let (stack_mem, stack_phys, m₁) = placement_kalloc 0x1000 true m in
    let m₂ : Machine = record m₁ { words = clear_words stack_mem 0x1000 m₁.words } in
    let virtual_addr = (user_stack_top - user_stack_size) + i * 0x1000 in
    let (result, m₃) = map_user page_dir virtual_addr stack_phys m₂ in
    let rest = stack_pages n (i + 1) page_dir m₃ in
    if stack_mem == null then (false, m₁) else if result == 0 then rest else (false, m₃)

unfoldable pub setup_user_memory_layout : ℕ → Machine → Bool × Machine
unfolding stack_pages
setup_user_memory_layout page_dir m = stack_pages (user_stack_size / 0x1000) 0 page_dir m
