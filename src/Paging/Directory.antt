-- ===== src/Paging/Directory.antt =====
-- `create_page_directory` against the walk that the processor makes.
use coronel.Base.{
  ℕ, ◌+◌, ◌-◌, ◌*◌, ◌%◌, ◌^◌, ◌≤◌, ◌<◌, ◌≡◌, ◌⊎◌, true, false, ◌==◌, if◌then◌else◌, none, arith,
  refl, ap, ◌∙◌, sym, Bool-cases, inl, inr, sub64,
}
use coronel.Config.{kvirtual_address, align_up, align_down}
use coronel.Config.Align.{align_up_lem, align_down_lem}
use coronel.Machine.{Machine, update, placement_kalloc}
use coronel.Paging.{pml4, address, present, cell, clear_words, create_page_directory}
use coronel.Paging.Index.{indices_lem}
use coronel.Paging.Translate.{at_pml4, at_pdpt, at_pde, at_pte, translate}

-- The cell is not in the page at `t`.
abbrev pub IsOutside : ℕ → ℕ → Type 0
IsOutside t a = (a < t) ⊎ (t + 4096 ≤ a)

-- The cells that the walk for `v` reads in `dir` are not in the page at `t`.
pub record IsApart (w : ℕ → ℕ) (t dir v : ℕ) : Type 0 where
  pub top : IsOutside t (at_pml4 dir v)
  pub middle : IsOutside t (at_pdpt w dir v)
  pub low : IsOutside t (at_pde w dir v)
  pub last : IsOutside t (at_pte w dir v)

kernel_index : pml4 kvirtual_address ≡ 511
unfolding pml4
kernel_index = refl

-- The memory with a new table at `t` that has the entry `kernel` in its last cell.
abbrev with_table : ℕ → ℕ → (ℕ → ℕ) → ℕ → ℕ
with_table t kernel w = update (clear_words t 4096 w) (cell t 511) kernel

create_page_directory_eq :
    (m : Machine)
    → let t = align_up m.placement in
      let kernel = clear_words t 4096 m.words (cell (address m.cr3) 511) in
      present kernel ≡ true
      → ((create_page_directory m).0 ≡ sub64 t kvirtual_address)
        × ((create_page_directory m).1.words ≡ with_table t kernel m.words)
unfolding create_page_directory placement_kalloc address present pml4
create_page_directory_eq m there = rw there (refl, refl)

-- What the walk reads outside of the new table, and in it.
outside :
    (t kernel a : ℕ) (w : ℕ → ℕ) → t + 4096 < 2 ^ 64 → IsOutside t a → with_table t kernel w a ≡ w a
outside t kernel a w small out =
    let at : cell t 511 ≡ t + 4088 = omega arith in ground (arith, at, out)

inside :
    (t kernel i : ℕ) (w : ℕ → ℕ)
    → t + 4096 < 2 ^ 64
    → i < 512
    → with_table t kernel w (cell t i) ≡ (if i == 511 then kernel else 0)
inside t kernel i w small index =
    let at : cell t 511 ≡ t + 4088 = omega arith in
    let at_i : cell t i ≡ t + i * 8 = omega arith in ground (arith, at, at_i)

absent : present 0 ≡ false
unfolding present
absent = refl

-- The physical address of the table leads back to it.
address_of_page :
    (t : ℕ)
    → kvirtual_address ≤ t
    → t + 4096 < 2 ^ 64
    → t % 4096 ≡ 0
    → address (sub64 t kvirtual_address) ≡ t
unfolding address align_down
address_of_page t above small aligned =
    let p : sub64 t kvirtual_address ≡ t - kvirtual_address = omega arith in
    let down = align_down_lem (t - kvirtual_address) (omega arith) in rw p (omega (arith, down))

module _ (w : ℕ → ℕ) (t dir new v kernel : ℕ) (small : t + 4096 < 2 ^ 64) (at : address new ≡ t)
    (same : kernel ≡ w (cell (address dir) 511)) where
  top_cell : with_table t kernel w (at_pml4 new v) ≡ (if pml4 v == 511 then kernel else 0)
  top_cell = rw at (inside t kernel (pml4 v) w small (indices_lem v).0)

  translate_kernel :
      pml4 v ≡ 511 → IsApart w t dir v → translate (with_table t kernel w) new v ≡ translate w dir v
  translate_kernel index apart =
      let w' = with_table t kernel w in
      let e₁ : w' (at_pml4 new v) ≡ w (at_pml4 dir v) =
        top_cell ∙ rw index same ∙ ap (λ (i : ℕ). w (cell (address dir) i)) (sym index) in
      let e₂ : w' (at_pdpt w dir v) ≡ w (at_pdpt w dir v) =
        outside t kernel (at_pdpt w dir v) w small apart.middle in
      let e₃ : w' (at_pde w dir v) ≡ w (at_pde w dir v) =
        outside t kernel (at_pde w dir v) w small apart.low in
      let e₄ : w' (at_pte w dir v) ≡ w (at_pte w dir v) =
        outside t kernel (at_pte w dir v) w small apart.last in
      rw (e₁, e₂, e₃, e₄) refl

  translate_other : (pml4 v == 511) ≡ false → translate (with_table t kernel w) new v ≡ none
  translate_other index =
      let empty : with_table t kernel w (at_pml4 new v) ≡ 0 = top_cell ∙ rw index refl in
      rw (empty, absent) refl

-- On a machine whose top table leads to the kernel, with a bump pointer in the kernel's addresses and away from
-- their end, for an address whose walk through the current tables does not read the page that the bump
-- pointer is rounded up to: in the directory that `create_page_directory` makes, the walk of the
-- processor leads from the address to where it leads in the current one if the address has the top
-- index of the kernel, and to nothing otherwise. No word outside of that page is written.
pub create_page_directory-translate :
    (v : ℕ) (m : Machine)
    → present (m.words (cell (address m.cr3) 511)) ≡ true
    → kvirtual_address ≤ m.placement
    → m.placement + 8192 < 2 ^ 64
    → IsOutside (align_up m.placement) (cell (address m.cr3) 511)
    → IsApart m.words (align_up m.placement) m.cr3 v
    → let (dir, m') = create_page_directory m in
      (translate m'.words dir v ≡ (if pml4 v == 511 then translate m.words m.cr3 v else none))
      × ((a : ℕ) → IsOutside (align_up m.placement) a → m'.words a ≡ m.words a)
create_page_directory-translate v m there above small top apart =
    let t = align_up m.placement in
    let up = align_up_lem m.placement (omega (arith, small)) in
    let same : clear_words t 4096 m.words (cell (address m.cr3) 511)
        ≡ m.words (cell (address m.cr3) 511) =
      ground (arith, top) in
    let kernel = clear_words t 4096 m.words (cell (address m.cr3) 511) in
    let (at, words) = create_page_directory_eq m (ap present same ∙ there) in
    let page : address (sub64 t kvirtual_address) ≡ t =
      address_of_page t (omega (arith, up, above)) (omega (arith, up, small)) (omega (arith, up)) in
    let room : t + 4096 < 2 ^ 64 = omega (arith, up, small) in
    rw (at, words)
      (
        elim (Bool-cases (pml4 v == 511)) [
          | inl kernel_side ↦ rw kernel_side (
              translate_kernel m.words t m.cr3 (sub64 t kvirtual_address) v kernel room page same
                (ground (arith, kernel_side)) apart)
          | inr user_side ↦ rw user_side (
              translate_other m.words t m.cr3 (sub64 t kvirtual_address) v kernel room page same
                user_side)
        ],
        (λ a out. outside t kernel a m.words room out),
      )
