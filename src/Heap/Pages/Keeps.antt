-- ===== src/Heap/Pages/Keeps.antt =====
-- Mapping pages for the heap against the fields and headers of the heap.
use coronel.Base.{
  ℕ, zero, suc, ◌+◌, ◌*◌, ◌/◌, ◌^◌, ◌<◌, ◌≡◌, refl, false, leb, ◌==◌, arith, Bool-cases, inl, inr,
  ◌∙◌,
}
use coronel.Config.{frame_size, align_up}
use coronel.Machine.{null}
use coronel.Physical
use coronel.Paging.{map_current}
use coronel.Heap.{Heap}
use coronel.Heap.Pages.{page_at, clear_page, map_from, map_pages}

abbrev next_page : ℕ → ℕ → Heap → Heap
next_page i start s =
    let (phys_addr, m₁) = Physical.alloc s.machine in
    let (result, m₂) = map_current (page_at start i) phys_addr 0x03 m₁ in
    clear_page (page_at start i) (record s { machine = m₂ })

-- Mapping pages leaves the heap's own fields alone.
pub record Keeps (s t : Heap) : Type 0 where
  pub heap_size : t.heap_size ≡ s.heap_size
  pub first_block : t.first_block ≡ s.first_block
  pub allocated : t.total_allocated ≡ s.total_allocated

map_from-Keeps : (n i start : ℕ) (s : Heap) → Keeps s (map_from n i start s).1
unfolding map_from
map_from-Keeps zero i start s = record { heap_size = refl; first_block = refl; allocated = refl }
map_from-Keeps (suc n) i start s =
    let rest = map_from-Keeps n (i + 1) start (next_page i start s) in
    let (phys_addr, m₁) = Physical.alloc s.machine in
    let result = (map_current (page_at start i) phys_addr 0x03 m₁).0 in
    elim (Bool-cases (phys_addr == null)) [
      | inl none ↦ rw none (record { heap_size = refl; first_block = refl; allocated = refl })
      | inr some ↦ elim (Bool-cases (result == 0)) [
        | inl fine ↦
            rw (some, fine)
              (record {
                heap_size = rest.heap_size;
                first_block = rest.first_block;
                allocated = rest.allocated;
              })
        | inr bad ↦
            rw (some, bad) (record { heap_size = refl; first_block = refl; allocated = refl })
      ]
    ]

pub map_pages-Keeps : (start size : ℕ) (s : Heap) → Keeps s (map_pages start size s).1
unfolding map_pages
map_pages-Keeps start size s = map_from-Keeps (align_up size / frame_size) 0 start s

-- No header in front of the pages changes.
map_from-below :
    (n i start a : ℕ) (s : Heap)
    → start + (i + n) * 4096 < 2 ^ 64
    → a < start
    → (map_from n i start s).1.blocks a ≡ s.blocks a
unfolding map_from
map_from-below zero i start a s room below = refl
map_from-below (suc n) i start a s room below =
    let (phys_addr, m₁) = Physical.alloc s.machine in
    let result = (map_current (page_at start i) phys_addr 0x03 m₁).0 in
    let rest = map_from-below n (i + 1) start a (next_page i start s) (omega arith) below in
    let front : leb (page_at start i) a ≡ false = ground arith in
    elim (Bool-cases (phys_addr == null)) [
      | inl none ↦ rw none refl
      | inr some ↦ elim (Bool-cases (result == 0)) [
        | inl fine ↦ rw (some, fine) (rest ∙ (rw front refl))
        | inr bad ↦ rw (some, bad) refl
      ]
    ]

pub map_pages-below :
    (start size a : ℕ) (s : Heap)
    → start + align_up size < 2 ^ 64
    → a < start
    → (map_pages start size s).1.blocks a ≡ s.blocks a
unfolding map_pages
map_pages-below start size a s room below =
    map_from-below (align_up size / frame_size) 0 start a s (omega arith) below
