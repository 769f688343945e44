-- ===== src/Paging/Unmap.antt =====
-- `unmap` against the walk that the processor makes.
use coronel.Base.{
  ℕ, ◌%◌, ◌^◌, ◌<◌, ◌≡◌, ◌≢◌, true, false, none, arith, refl, bit_and, Bool-cases, inl, inr,
}
use coronel.Config.{align_down}
use coronel.Config.Align.{align_down_lem}
use coronel.Machine.{Machine, update}
use coronel.Paging.{pte, pde, pdpt, pml4, address, present, unmap, page_mask}
use coronel.Paging.Index.{present_iff}
use coronel.Paging.Translate.{at_pml4, at_pdpt, at_pde, at_pte, HasTables, translate}

unmap_present :
    (dir v : ℕ) (m : Machine)
    → HasTables m.words dir v
    → present (m.words (at_pte m.words dir v)) ≡ true
    → unmap dir v m ≡ record m {
      words =
          update m.words
            (at_pte m.words dir v)
            (bit_and (m.words (at_pte m.words dir v)) page_mask);
    }
unfolding unmap present address pml4 pdpt pde pte
unmap_present dir v m h there = rw (h.top, h.middle, h.low, there) refl

cleared-absent : (e : ℕ) → e < 2 ^ 64 → present (bit_and e page_mask) ≡ false
unfolding align_down
cleared-absent e small =
    let down = align_down_lem e small in
    let even : bit_and e page_mask % 2 ≡ 0 = omega (arith, down) in
    elim (Bool-cases (present (bit_and e page_mask))) [
      | inl there ↦ absurd (omega (arith, even, (present_iff (bit_and e page_mask)).0 there))
      | inr gone ↦ gone
    ]

-- Where an address is mapped and the three directories for it hold no cell of the page that it selects:
-- after `unmap` the walk of the processor leads nowhere from the address, and no word but its last
-- entry is written.
pub unmap-translate :
    (dir v : ℕ) (m : Machine)
    → HasTables m.words dir v
    → present (m.words (at_pte m.words dir v)) ≡ true
    → m.words (at_pte m.words dir v) < 2 ^ 64
    → (translate (unmap dir v m).words dir v ≡ none)
      × ((a : ℕ) → a ≢ at_pte m.words dir v → (unmap dir v m).words a ≡ m.words a)
unmap-translate dir v m h there small =
    let e = bit_and (m.words (at_pte m.words dir v)) page_mask in
    let w' = update m.words (at_pte m.words dir v) e in
    let kept : (a : ℕ) → a ≢ at_pte m.words dir v → w' a ≡ m.words a = λ a ne. ground (arith, ne) in
    let last : w' (at_pte m.words dir v) ≡ e = ground arith in
    rw (unmap_present dir v m h there) (
      rw
          (
            kept (at_pml4 dir v) h.apart_top,
            kept (at_pdpt m.words dir v) h.apart_middle,
            kept (at_pde m.words dir v) h.apart_low,
            last,
            cleared-absent (m.words (at_pte m.words dir v)) small,
          )
          (ground arith),
      kept,
    )
