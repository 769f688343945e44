-- ===== src/Paging/Boot/Linear.antt =====
-- The addresses of the kernel after `map_kernel_memory`.
use coronel.Base.{ℕ, ◌+◌, ◌*◌, ◌/◌, ◌%◌, ◌<◌, ◌≡◌, refl, true, some, arith, ap, ap₂, ◌∙◌}
use coronel.Base.Bits.{and_mask}
use coronel.Config.{kvirtual_address}
use coronel.Machine.{Machine}
use coronel.Paging.{address, present, cell, pml4, pdpt, pde, pte}
use coronel.Paging.Entry.{address_lem}
use coronel.Paging.Index.{present_iff}
use coronel.Paging.Translate.{translate}
use coronel.Paging.Boot.{fill_dirs, map_kernel_memory}
use coronel.Paging.Boot.Fill.{IsOutside, IsOutside-within}
use coronel.Paging.Boot.Dirs.{table_at, HasRoom, fill_dirs-AreDirs}

-- The first address that the function maps: 8 MB into the kernel's half.
abbrev pub first_mapped : ℕ
first_mapped = kvirtual_address + 0x800000

-- `dirs` is the directory of the kernel's gigabyte, `dir` its entry 3 and `paddr` the last entry of that
-- table, all present; the directories above lie in none of the tables that are filled.
pub record IsBoot (w : ℕ → ℕ) (top dirs dir paddr : ℕ) : Type 0 where
  pub pml4_there : present (w (cell (address top) 511)) ≡ true
  pub pdpt_there : present (w (cell (address (w (cell (address top) 511))) 510)) ≡ true
  pub at_dirs : address (w (cell (address (w (cell (address top) 511))) 510)) ≡ dirs
  pub at_dir : w (dirs + 24) ≡ dir
  pub at_paddr : w (cell (address dir) 511) ≡ paddr
  pub dir_there : dir % 2 ≡ 1
  pub paddr_there : paddr % 2 ≡ 1
  pub room : HasRoom 508 4 dirs dir paddr
  pub top_apart : IsOutside dirs (dirs + 4096) (cell (address top) 511)
  pub top_beside : IsOutside (table_at dir 1) (table_at dir 509) (cell (address top) 511)
  pub middle_apart : IsOutside dirs (dirs + 4096) (cell (address (w (cell (address top) 511))) 510)
  pub middle_beside :
      IsOutside
        (table_at dir 1)
        (table_at dir 509)
        (cell (address (w (cell (address top) 511))) 510)

-- The indices of an address that the function maps.
indices :
    (off : ℕ)
    → off < 508 * 0x200000
    → (pml4 (first_mapped + off) ≡ 511)
      × (pdpt (first_mapped + off) ≡ 510)
      × (pde (first_mapped + off) ≡ 4 + off / 0x200000)
      × (pte (first_mapped + off) ≡ off / 4096 % 512)
unfolding pml4 pdpt pde pte
indices off h = (
  and_mask 9 ((first_mapped + off) / 0x8000000000) ∙ omega arith,
  and_mask 9 ((first_mapped + off) / 0x40000000) ∙ omega arith,
  and_mask 9 ((first_mapped + off) / 0x200000) ∙ omega arith,
  and_mask 9 ((first_mapped + off) / 0x1000) ∙ omega arith,
)

-- The walk through four words that are present.
walk :
    (w : ℕ → ℕ) (top v pdpts pdes ptes frame : ℕ)
    → w (cell (address top) (pml4 v)) ≡ pdpts
    → present pdpts ≡ true
    → w (cell (address pdpts) (pdpt v)) ≡ pdes
    → present pdes ≡ true
    → w (cell (address pdes) (pde v)) ≡ ptes
    → present ptes ≡ true
    → w (cell (address ptes) (pte v)) ≡ frame
    → present frame ≡ true
    → translate w top v ≡ some (frame / 4096 * 4096 + v % 4096)
walk w top v pdpts pdes ptes frame e₁ p₁ e₂ p₂ e₃ p₃ e₄ p₄ =
    rw (e₁, e₂, e₃, e₄, p₁, p₂, p₃, p₄) refl

words_eq :
    (m : Machine) (dirs dir paddr : ℕ)
    → IsBoot m.words m.cr3 dirs dir paddr
    → (map_kernel_memory m).words ≡ fill_dirs 508 4 dirs paddr m.words
unfolding map_kernel_memory
words_eq m dirs dir paddr boot =
    let third : cell dirs 3 ≡ dirs + 24 = omega (arith, boot.room.room) in
    rw (boot.at_dirs, third, boot.at_dir, boot.at_paddr) refl

-- After `map_kernel_memory` the addresses from 8 MB to 1 GB of the kernel's half lead to one range of
-- frames without a gap, which starts behind the frame of the last page that was mapped before. The
-- three tables above must be there, with room for the new tables beside the directory.
pub map_kernel_memory-translate :
    (m : Machine) (dirs dir paddr off : ℕ)
    → IsBoot m.words m.cr3 dirs dir paddr
    → off < 508 * 0x200000
    → translate (map_kernel_memory m).words m.cr3 (first_mapped + off)
      ≡ some (paddr / 4096 * 4096 + 4096 + off)
map_kernel_memory-translate m dirs dir paddr off boot h =
    let w' = fill_dirs 508 4 dirs paddr m.words in
    let filled = fill_dirs-AreDirs 508 4 dirs dir paddr m.words boot.room boot.at_dir in
    let (top, middle, low, last) = indices off h in
    let k = off / 0x200000 in
    let j = off / 4096 % 512 in
    let pdpts = m.words (cell (address m.cr3) 511) in
    let pdes = m.words (cell (address pdpts) 510) in
    let ptes = dir + (k + 1) * 4096 in
    let frame = paddr + (k * 512 + j + 1) * 4096 in
    let kept : (a : ℕ)
        → IsOutside dirs (dirs + 4096) a
        → IsOutside (table_at dir 1) (table_at dir 509) a
        → w' a ≡ m.words a =
      λ a out out'.
        filled.others a
          (IsOutside-within dirs (dirs + 4096) (dirs + 4 * 8) (dirs + (4 + 508) * 8) a (omega arith)
            (omega arith) out)
          out' in
    let at₃ : cell dirs (4 + k) ≡ dirs + (4 + k) * 8 = omega (arith, boot.room.room) in
    let at₄ : cell (table_at dir (k + 1)) j ≡ table_at dir (k + 1) + j * 8 =
      omega (arith, boot.room.tables) in
    let e₁ : w' (cell (address m.cr3) (pml4 (first_mapped + off))) ≡ pdpts =
      ap (λ (i : ℕ). w' (cell (address m.cr3) i)) top
      ∙ kept (cell (address m.cr3) 511) boot.top_apart boot.top_beside in
    let e₂ : w' (cell (address pdpts) (pdpt (first_mapped + off))) ≡ pdes =
      ap (λ (i : ℕ). w' (cell (address pdpts) i)) middle
      ∙ kept (cell (address pdpts) 510) boot.middle_apart boot.middle_beside in
    let e₃ : w' (cell (address pdes) (pde (first_mapped + off))) ≡ ptes =
      ap₂ (λ (i t : ℕ). w' (cell t i)) low boot.at_dirs
      ∙ ap w' at₃
      ∙ filled.entries k (omega arith) in
    let table : address ptes ≡ table_at dir (k + 1) =
      address_lem ptes (omega (arith, boot.room.tables)) ∙ omega arith in
    let e₄ : w' (cell (address ptes) (pte (first_mapped + off))) ≡ frame =
      ap₂ (λ (i t : ℕ). w' (cell t i)) last table
      ∙ ap w' at₄
      ∙ filled.pages k j (omega arith) (omega arith) in
    let there₃ : present ptes ≡ true = (present_iff ptes).1 (omega (arith, boot.dir_there)) in
    let there₄ : present frame ≡ true = (present_iff frame).1 (omega (arith, boot.paddr_there)) in
    ap (λ (w : ℕ → ℕ). translate w m.cr3 (first_mapped + off)) (words_eq m dirs dir paddr boot)
    ∙ walk w' m.cr3 (first_mapped + off) pdpts pdes ptes frame e₁ boot.pml4_there e₂ boot.pdpt_there
        e₃ there₃ e₄ there₄
    ∙ ap some (omega arith)
