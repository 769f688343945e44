-- ===== src/Paging/Translate.antt =====
-- `map` against the walk that the processor makes.
use coronel.Base.{
  ℕ, ◌+◌, ◌*◌, ◌/◌, ◌%◌, ◌^◌, ◌<◌, ◌≡◌, ◌≢◌, Bool, true, false, ◌&&◌, ◌==◌, if◌then◌else◌, Option,
  none, some, arith, refl, ap, ◌∙◌,
}
use coronel.Machine.{Machine, null, update}
use coronel.Paging.{
  pte, pde, pdpt, pml4, address, present, cell, enter, get_page, map, page_entry, dir_flags_of,
}
use coronel.Paging.Entry.{page_entry_lem}
use coronel.Paging.Index.{present_iff}

-- The cells that the walk reads, from the top table down.
abbrev pub at_pml4 : ℕ → ℕ → ℕ
at_pml4 dir v = cell (address dir) (pml4 v)

abbrev pub at_pdpt : (ℕ → ℕ) → ℕ → ℕ → ℕ
at_pdpt w dir v = cell (address (w (at_pml4 dir v))) (pdpt v)

abbrev pub at_pde : (ℕ → ℕ) → ℕ → ℕ → ℕ
at_pde w dir v = cell (address (w (at_pdpt w dir v))) (pde v)

abbrev pub at_pte : (ℕ → ℕ) → ℕ → ℕ → ℕ
at_pte w dir v = cell (address (w (at_pde w dir v))) (pte v)

-- The physical address of a virtual one, if all four entries are present.
abbrev pub translate : (ℕ → ℕ) → ℕ → ℕ → Option ℕ
translate w dir v =
    if present (w (at_pml4 dir v))
      && present (w (at_pdpt w dir v))
      && present (w (at_pde w dir v))
      && present (w (at_pte w dir v))
    then some (w (at_pte w dir v) / 4096 * 4096 + v % 4096)
    else none

-- The three directories for `v` are there, and the last cell lies in none of them.
pub record HasTables (w : ℕ → ℕ) (dir v : ℕ) : Type 0 where
  pub top : present (w (at_pml4 dir v)) ≡ true
  pub middle : present (w (at_pdpt w dir v)) ≡ true
  pub low : present (w (at_pde w dir v)) ≡ true
  pub apart_top : at_pml4 dir v ≢ at_pte w dir v
  pub apart_middle : at_pdpt w dir v ≢ at_pte w dir v
  pub apart_low : at_pde w dir v ≢ at_pte w dir v
  pub mapped : address (w (at_pde w dir v)) ≢ null

enter_present :
    (at f : ℕ) (make : Bool) (m : Machine)
    → present (m.words at) ≡ true
    → enter at f make m ≡ (true, m)
unfolding enter
enter_present at f make m h = rw h refl

get_page_present :
    (dir v flags : ℕ) (m : Machine)
    → HasTables m.words dir v
    → get_page dir v flags true m ≡ (address (m.words (at_pde m.words dir v)), m)
unfolding get_page
get_page_present dir v flags m h =
    let e₁ = enter_present (at_pml4 dir v) (dir_flags_of flags) true m h.top in
    let e₂ = enter_present (at_pdpt m.words dir v) (dir_flags_of flags) true m h.middle in
    let e₃ = enter_present (at_pde m.words dir v) (dir_flags_of flags) true m h.low in
    rw (e₁, e₂, e₃) refl

map_present :
    (dir v paddr flags : ℕ) (m : Machine)
    → HasTables m.words dir v
    → map dir v paddr flags m
      ≡ (0, record m { words = update m.words (at_pte m.words dir v) (page_entry paddr flags) })
unfolding map
map_present dir v paddr flags m h =
    let found : (address (m.words (at_pde m.words dir v)) == null) ≡ false =
      ground (arith, h.mapped) in
    rw (get_page_present dir v flags m h, found) refl

translate_eq :
    (w w' : ℕ → ℕ) (dir v e : ℕ)
    → HasTables w dir v
    → w' (at_pml4 dir v) ≡ w (at_pml4 dir v)
    → w' (at_pdpt w dir v) ≡ w (at_pdpt w dir v)
    → w' (at_pde w dir v) ≡ w (at_pde w dir v)
    → w' (at_pte w dir v) ≡ e
    → present e ≡ true
    → translate w' dir v ≡ some (e / 4096 * 4096 + v % 4096)
translate_eq w w' dir v e h k₁ k₂ k₃ k₄ there =
    rw (k₁, k₂, k₃, k₄, h.top, h.middle, h.low, there) refl

-- Where the three directories for an address are there and hold no cell of the page that it selects,
-- `map` with the present flag succeeds, and afterwards the walk of the processor leads from the
-- address to the frame of the physical address, with the offset kept; one word of memory is written.
pub map-translate :
    (dir v paddr flags : ℕ) (m : Machine)
    → HasTables m.words dir v
    → paddr < 2 ^ 64
    → flags % 2 ≡ 1
    → ((map dir v paddr flags m).0 ≡ 0)
      × (translate (map dir v paddr flags m).1.words dir v ≡ some (paddr / 4096 * 4096 + v % 4096))
      × ((a : ℕ) → a ≢ at_pte m.words dir v → (map dir v paddr flags m).1.words a ≡ m.words a)
map-translate dir v paddr flags m h small on =
    let run = map_present dir v paddr flags m h in
    let entry = page_entry_lem paddr flags small in
    let e = page_entry paddr flags in
    let there : present e ≡ true = (present_iff e).1 (omega (arith, entry, on)) in
    let w' = update m.words (at_pte m.words dir v) e in
    let frame : e / 4096 * 4096 ≡ paddr / 4096 * 4096 = omega (arith, entry) in
    let walked : translate w' dir v ≡ some (e / 4096 * 4096 + v % 4096) =
      translate_eq m.words w' dir v e h (kept (at_pml4 dir v) h.apart_top)
        (kept (at_pdpt m.words dir v) h.apart_middle) (kept (at_pde m.words dir v) h.apart_low)
        written there in
    (
      ap (λ (r : ℕ × Machine). r.0) run,
      ap (λ (r : ℕ × Machine). translate r.1.words dir v) run
          ∙ walked
          ∙ ap (λ (t : ℕ). some (t + v % 4096)) frame,
      (λ a ne. ap (λ (r : ℕ × Machine). r.1.words a) run ∙ kept a ne),
    )
  where
    kept :
        (a : ℕ)
        → a ≢ at_pte m.words dir v
        → update m.words (at_pte m.words dir v) (page_entry paddr flags) a ≡ m.words a
    kept a ne = ground (arith, ne)

    written :
        update m.words (at_pte m.words dir v) (page_entry paddr flags) (at_pte m.words dir v)
        ≡ page_entry paddr flags
    written = ground arith
