-- ===== src/Tests/Tables.antt =====
-- src/kernel/arch/amd64/memory/paging.cpp at one address.
use coronel.Base.{
  true, false, arith, inl, ◌⊎◌, ◌<◌, ◌≤◌, refl, ◌≢◌, ℕ, some, none, ◌==◌, if◌then◌else◌, ◌≡◌, ◌+◌,
}
use coronel.Paging.{pte, pde, pdpt, pml4, address, present, map, unmap}
use coronel.Config.{align_up}
use coronel.Machine.{Machine}
use coronel.Paging.Unmap.{unmap-translate}
use coronel.Paging.Make.{map-makes}
use coronel.Paging.Translate.{HasTables, translate, at_pml4, at_pte, map-translate}

abbrev k : ℕ
k = 0xffffffff80000000

-- The tables at 0x1000, 0x2000 and 0x3000 lead to the page table at 0x4000.
abbrev pub three_tables : Machine
three_tables = record {
  placement = 0xffffffff80500000;
  frames = λ a. record { address = 0; previous = 0 };
  physical_end = 0;
  free_list = 0;
  words = λ a.
      if a == k + 0x1000
      then 0x2003
      else if a == k + 0x2000
      then 0x3003
      else if a == k + 0x3000
      then 0x4003
      else 0;
  cr3 = 0x1000;
}

three_tables-HasTables : HasTables three_tables.words 0x1000 0x5678
unfolding pte pde pdpt pml4 address present
three_tables-HasTables = record {
  top = refl;
  middle = refl;
  low = refl;
  apart_top = omega arith;
  apart_middle = omega arith;
  apart_low = omega arith;
  mapped = omega arith;
}

map-translate_example :
    ((map 0x1000 0x5678 0x9000 3 three_tables).0 ≡ 0)
    × (translate (map 0x1000 0x5678 0x9000 3 three_tables).1.words 0x1000 0x5678 ≡ some 0x9678)
    × ((a : ℕ)
        → a ≢ at_pte three_tables.words 0x1000 0x5678
        → (map 0x1000 0x5678 0x9000 3 three_tables).1.words a ≡ three_tables.words a)
map-translate_example =
    map-translate 0x1000 0x5678 0x9000 3 three_tables three_tables-HasTables (omega arith)
      (omega arith)

-- The address is mapped.
abbrev four_tables : Machine
four_tables = record three_tables {
  words = λ a. if a == k + 0x4028 then 0x9003 else three_tables.words a;
}

four_tables-HasTables : HasTables four_tables.words 0x1000 0x5678
unfolding pte pde pdpt pml4 address present
four_tables-HasTables = record {
  top = refl;
  middle = refl;
  low = refl;
  apart_top = omega arith;
  apart_middle = omega arith;
  apart_low = omega arith;
  mapped = omega arith;
}

four_tables-mapped : four_tables.words (at_pte four_tables.words 0x1000 0x5678) ≡ 0x9003
unfolding pte pde pdpt pml4 address
four_tables-mapped = refl

entry_present : present (four_tables.words (at_pte four_tables.words 0x1000 0x5678)) ≡ true
unfolding pte pde pdpt pml4 address present
entry_present = refl

unmap-translate_example :
    (translate (unmap 0x1000 0x5678 four_tables).words 0x1000 0x5678 ≡ none)
    × ((a : ℕ)
        → a ≢ at_pte four_tables.words 0x1000 0x5678
        → (unmap 0x1000 0x5678 four_tables).words a ≡ four_tables.words a)
unmap-translate_example =
    unmap-translate 0x1000 0x5678 four_tables four_tables-HasTables entry_present
      (omega (arith, four_tables-mapped))

-- The directory is empty.
abbrev no_tables : Machine
no_tables = record three_tables { words = λ _. 0 }

nothing_there : present (no_tables.words (at_pml4 0x1000 0x5678)) ≡ false
unfolding present
nothing_there = refl

starts_at : align_up no_tables.placement ≡ 0xffffffff80500000
unfolding align_up
starts_at = refl

directory_below : at_pml4 0x1000 0x5678 < 0xffffffff80500000
unfolding pml4 address
directory_below = omega arith

map-makes_example :
    ((map 0x1000 0x5678 0x9000 3 no_tables).0 ≡ 0)
    × (translate (map 0x1000 0x5678 0x9000 3 no_tables).1.words 0x1000 0x5678 ≡ some 0x9678)
    × ((a : ℕ)
        → a ≢ at_pml4 0x1000 0x5678
        → (a < 0xffffffff80500000) ⊎ (0xffffffff80503000 ≤ a)
        → (map 0x1000 0x5678 0x9000 3 no_tables).1.words a ≡ no_tables.words a)
map-makes_example =
    map-makes 0x1000 0x5678 3 0xffffffff80500000 no_tables nothing_there starts_at (omega arith)
      (omega arith) (omega arith) (inl directory_below) 0x9000 (omega arith) (omega arith)
