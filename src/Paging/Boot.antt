-- ===== src/Paging/Boot.antt =====
-- src/kernel/arch/amd64/memory/pagetable.cpp: the rest of the kernel's gigabyte. The part of the function
-- that the preprocessor removes has no counterpart.
pub mod Fill
pub mod Dirs
pub mod Linear
use coronel.Base.{ℕ, zero, suc, ◌+◌, ◌-◌, add64}
use coronel.Machine.{Machine, update}
use coronel.Paging.{address, cell}

-- The inner loop, from page `j` on, by the number of rounds; `paddr` is the entry before.
unfoldable pub fill_pages : ℕ → ℕ → ℕ → ℕ → (ℕ → ℕ) → ℕ × (ℕ → ℕ)
fill_pages zero j pages paddr words = (paddr, words)
fill_pages (suc n) j pages paddr words =
    let next = add64 paddr 4096 in
    fill_pages n (j + 1) pages next (update words (cell pages j) next)

-- The outer loop, from directory entry `i` on.
unfoldable pub fill_dirs : ℕ → ℕ → ℕ → ℕ → (ℕ → ℕ) → ℕ → ℕ
fill_dirs zero i dirs paddr words = words
fill_dirs (suc n) i dirs paddr words =
    let entry = add64 (words (cell dirs (i - 1))) 4096 in
    let words₁ = update words (cell dirs i) entry in
    let (paddr₂, words₂) = fill_pages 512 0 (address (words₁ (cell dirs i))) paddr words₁ in
    fill_dirs n (i + 1) dirs paddr₂ words₂

unfoldable pub map_kernel_memory : Machine → Machine
map_kernel_memory m =
    let pml4_table = address m.cr3 in
    let pdpt_table = address (m.words (cell pml4_table 511)) in
    let pde_table = address (m.words (cell pdpt_table 510)) in
    let paddr = m.words (cell (address (m.words (cell pde_table 3))) 511) in
    record m { words = fill_dirs 508 4 pde_table paddr m.words }
