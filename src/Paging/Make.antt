-- ===== src/Paging/Make.antt =====
-- `map` where no table for the address is there.
use coronel.Base.{
  ℕ, ◌+◌, ◌-◌, ◌*◌, ◌/◌, ◌%◌, ◌^◌, ◌≤◌, ◌<◌, ◌≡◌, ◌≢◌, ◌⊎◌, true, false, ◌&&◌, ◌==◌, leb, ltb,
  if◌then◌else◌, some, arith, refl, ap, ◌∙◌, bit_or, sub64,
}
use coronel.Base.Bits.{or_low}
use coronel.Config.{kvirtual_address, align_up, align_down}
use coronel.Config.Align.{align_up_lem, align_down_lem}
use coronel.Machine.{Machine, null, update, placement_kalloc}
use coronel.Paging.{
  pdpt, pde, pte, address, present, cell, new_table, enter, get_page, map, page_entry, dir_flags_of,
}
use coronel.Paging.Entry.{page_entry_lem}
use coronel.Paging.Index.{indices_lem, present_iff}
use coronel.Paging.Translate.{at_pml4, translate}

-- A cleared table at `t`, and the entry at `at` that leads to it.
record IsMade (at f t : ℕ) (m m' : Machine) : Type 0 where
  placed : m'.placement ≡ t + 4096
  words :
      (a : ℕ)
      → m'.words a ≡ (
          if a == at
          then t - kvirtual_address + f
          else if leb t a && ltb a (t + 4096)
          then 0
          else m.words a)

new_table-IsMade :
    (at f t : ℕ) (m : Machine)
    → align_up m.placement ≡ t
    → kvirtual_address ≤ t
    → t + 4096 < 2 ^ 64
    → t % 4096 ≡ 0
    → f < 4096
    → IsMade at f t m (new_table at f m)
unfolding new_table placement_kalloc
new_table-IsMade at f t m up above small aligned flags =
    let q = (t - kvirtual_address) / 4096 in
    let low : sub64 t kvirtual_address ≡ q * 4096 = omega arith in
    let entry : bit_or (sub64 t kvirtual_address) f ≡ t - kvirtual_address + f =
      rw low (omega (arith, or_low 12 q f flags)) in
    record { placed = rw up (omega arith); words = λ a. rw (up, entry) refl }

-- Such an entry is present and leads to the table.
entry-leads :
    (f t : ℕ)
    → kvirtual_address ≤ t
    → t + 4096 < 2 ^ 64
    → t % 4096 ≡ 0
    → f < 4096
    → f % 2 ≡ 1
    → (present (t - kvirtual_address + f) ≡ true) × (address (t - kvirtual_address + f) ≡ t)
unfolding address align_down
entry-leads f t above small aligned flags odd =
    let e = t - kvirtual_address + f in
    let down = align_down_lem e (omega arith) in
    ((present_iff e).1 (omega arith), omega (arith, down))

-- One level of the walk that is not there.
enter-makes :
    (at f t : ℕ) (m : Machine)
    → present (m.words at) ≡ false
    → align_up m.placement ≡ t
    → kvirtual_address ≤ t
    → t + 4096 < 2 ^ 64
    → t % 4096 ≡ 0
    → f < 4096
    → (enter at f true m ≡ (true, new_table at f m)) × IsMade at f t m (new_table at f m)
unfolding enter
enter-makes at f t m absent up above small aligned flags =
    (rw absent refl, new_table-IsMade at f t m up above small aligned flags)

absent-zero : present 0 ≡ false
unfolding present
absent-zero = refl

dir_flags_cases : (flags : ℕ) → (dir_flags_of flags ≡ 3) ⊎ (dir_flags_of flags ≡ 7)
dir_flags_cases flags = ground arith

-- The state after the three tables, at `t`, `t + 4096` and `t + 8192`.
record IsThree (top v f t : ℕ) (m m' : Machine) : Type 0 where
  at_top : m'.words top ≡ t - kvirtual_address + f
  middle : m'.words (t + pdpt v * 8) ≡ t + 4096 - kvirtual_address + f
  low : m'.words (t + 4096 + pde v * 8) ≡ t + 8192 - kvirtual_address + f
  rest : (a : ℕ) → a ≢ top → (a < t) ⊎ (t + 12288 ≤ a) → m'.words a ≡ m.words a

IsMade-IsThree :
    (top v f t a₂ a₃ : ℕ) (m m₁ m₂ m₃ : Machine)
    → IsMade top f t m m₁
    → IsMade a₂ f (t + 4096) m₁ m₂
    → IsMade a₃ f (t + 8192) m₂ m₃
    → a₂ ≡ t + pdpt v * 8
    → a₃ ≡ t + 4096 + pde v * 8
    → (top < t) ⊎ (t + 12288 ≤ top)
    → IsThree top v f t m m₃
IsMade-IsThree top v f t a₂ a₃ m m₁ m₂ m₃ made₁ made₂ made₃ n₂ n₃ out =
    let index = indices_lem v in
    let b₂ = t + pdpt v * 8 in
    let b₃ = t + 4096 + pde v * 8 in
    let read : (a : ℕ)
        → m₃.words a ≡ (
            if a == b₃
            then t + 8192 - kvirtual_address + f
            else if leb (t + 8192) a && ltb a (t + 12288)
            then 0
            else m₂.words a) =
      λ a. ground (arith, made₃.words a, n₃) in
    let read₂ : (a : ℕ)
        → m₂.words a ≡ (
            if a == b₂
            then t + 4096 - kvirtual_address + f
            else if leb (t + 4096) a && ltb a (t + 8192)
            then 0
            else m₁.words a) =
      λ a. ground (arith, made₂.words a, n₂) in
    record {
      at_top = ground (arith, read top, read₂ top, made₁.words top, index.1, index.2, out);
      middle = ground (arith, read b₂, read₂ b₂, index.1, index.2);
      low = ground (arith, read b₃);
      rest =
          λ a ne away. ground (arith, read a, read₂ a, made₁.words a, index.1, index.2, ne, away);
    }

get_page_run :
    (dir v flags page : ℕ) (m m₁ m₂ m₃ : Machine)
    → let f = dir_flags_of flags in
      let a₂ = cell (address (m₁.words (at_pml4 dir v))) (pdpt v) in
      let a₃ = cell (address (m₂.words a₂)) (pde v) in
      enter (at_pml4 dir v) f true m ≡ (true, m₁)
      → enter a₂ f true m₁ ≡ (true, m₂)
      → enter a₃ f true m₂ ≡ (true, m₃)
      → address (m₃.words a₃) ≡ page
      → get_page dir v flags true m ≡ (page, m₃)
unfolding get_page
get_page_run dir v flags page m m₁ m₂ m₃ run₁ run₂ run₃ leads = rw (run₁, run₂, run₃, leads) refl

translate-IsThree :
    (dir v f t e : ℕ) (m m' : Machine)
    → IsThree (at_pml4 dir v) v f t m m'
    → kvirtual_address ≤ t
    → t + 16384 < 2 ^ 64
    → t % 4096 ≡ 0
    → f < 4096
    → f % 2 ≡ 1
    → (at_pml4 dir v < t) ⊎ (t + 12288 ≤ at_pml4 dir v)
    → present e ≡ true
    → translate (update m'.words (cell (t + 8192) (pte v)) e) dir v
      ≡ some (e / 4096 * 4096 + v % 4096)
translate-IsThree dir v f t e m m' three above small aligned few odd out there =
    let index = indices_lem v in
    let w' = update m'.words (cell (t + 8192) (pte v)) e in
    let c₂ : cell t (pdpt v) ≡ t + pdpt v * 8 = omega (arith, index.1, small) in
    let c₃ : cell (t + 4096) (pde v) ≡ t + 4096 + pde v * 8 = omega (arith, index.2, small) in
    let c₄ : cell (t + 8192) (pte v) ≡ t + 8192 + pte v * 8 = omega (arith, index.3, small) in
    let k₁ : w' (at_pml4 dir v) ≡ t - kvirtual_address + f =
      ground (arith, three.at_top, c₄, index.3, out) in
    let k₂ : w' (cell t (pdpt v)) ≡ t + 4096 - kvirtual_address + f =
      ground (arith, three.middle, c₂, c₄, index.1) in
    let k₃ : w' (cell (t + 4096) (pde v)) ≡ t + 8192 - kvirtual_address + f =
      ground (arith, three.low, c₃, c₄, index.2) in
    let k₄ : w' (cell (t + 8192) (pte v)) ≡ e = ground arith in
    let (p₁, l₁) = entry-leads f t above (omega (arith, small)) aligned few odd in
    let (p₂, l₂) =
      entry-leads f (t + 4096) (omega (arith, above)) (omega (arith, small))
        (omega (arith, aligned)) few odd in
    let (p₃, l₃) =
      entry-leads f (t + 8192) (omega (arith, above)) (omega (arith, small))
        (omega (arith, aligned)) few odd in
    rw (k₁, p₁, l₁, k₂, p₂, l₂, k₃, p₃, l₃, k₄, there) refl

map_run :
    (dir v paddr flags page : ℕ) (m m' : Machine)
    → get_page dir v flags true m ≡ (page, m')
    → page ≢ null
    → map dir v paddr flags m
      ≡ (0, record m' { words = update m'.words (cell page (pte v)) (page_entry paddr flags) })
unfolding map
map_run dir v paddr flags page m m' run ne =
    let found : (page == null) ≡ false = ground (arith, ne) in rw (run, found) refl

module _ (dir v flags t : ℕ) (m : Machine) (absent : present (m.words (at_pml4 dir v)) ≡ false)
    (up : align_up m.placement ≡ t) (above : kvirtual_address ≤ t) (small : t + 16384 < 2 ^ 64)
    (aligned : t % 4096 ≡ 0) (out : (at_pml4 dir v < t) ⊎ (t + 12288 ≤ at_pml4 dir v)) where
  get_page-makes :
      (m' : Machine) × (get_page dir v flags true m ≡ (t + 8192, m'))
      × IsThree (at_pml4 dir v) v (dir_flags_of flags) t m m'
  get_page-makes =
      let top = at_pml4 dir v in
      let f = dir_flags_of flags in
      let few : (f < 4096) × (f % 2 ≡ 1) = ground (arith, dir_flags_cases flags) in
      let index = indices_lem v in
      let (run₁, made₁) =
        enter-makes top f t m absent up above (omega (arith, small)) aligned few.0 in
      let m₁ = new_table top f m in
      let w₁ : m₁.words top ≡ t - kvirtual_address + f = ground (arith, made₁.words top) in
      let lead₁ = entry-leads f t above (omega (arith, small)) aligned few.0 few.1 in
      let a₂ = cell (address (m₁.words top)) (pdpt v) in
      let n₂ : a₂ ≡ t + pdpt v * 8 = rw (w₁, lead₁.1) (omega (arith, index.1, small)) in
      let zero₂ : m₁.words a₂ ≡ 0 =
        rw n₂ (ground (arith, made₁.words (t + pdpt v * 8), index.1, out)) in
      let up₂ : align_up m₁.placement ≡ t + 4096 =
        align_up_lem m₁.placement (omega (arith, made₁.placed, small))
        ∙ omega (arith, made₁.placed, aligned) in
      let (run₂, made₂) =
        enter-makes a₂ f (t + 4096) m₁ (rw zero₂ absent-zero) up₂ (omega (arith, above))
          (omega (arith, small)) (omega (arith, aligned)) few.0 in
      let m₂ = new_table a₂ f m₁ in
      let w₂ : m₂.words a₂ ≡ t + 4096 - kvirtual_address + f = ground (arith, made₂.words a₂) in
      let lead₂ =
        entry-leads f (t + 4096) (omega (arith, above)) (omega (arith, small))
          (omega (arith, aligned)) few.0 few.1 in
      let a₃ = cell (address (m₂.words a₂)) (pde v) in
      let n₃ : a₃ ≡ t + 4096 + pde v * 8 = rw (w₂, lead₂.1) (omega (arith, index.2, small)) in
      let zero₃ : m₂.words a₃ ≡ 0 =
        rw n₃ (ground (arith, made₂.words (t + 4096 + pde v * 8), index.2, n₂, index.1)) in
      let up₃ : align_up m₂.placement ≡ t + 8192 =
        align_up_lem m₂.placement (omega (arith, made₂.placed, small))
        ∙ omega (arith, made₂.placed, aligned) in
      let (run₃, made₃) =
        enter-makes a₃ f (t + 8192) m₂ (rw zero₃ absent-zero) up₃ (omega (arith, above))
          (omega (arith, small)) (omega (arith, aligned)) few.0 in
      let m₃ = new_table a₃ f m₂ in
      let w₃ : m₃.words a₃ ≡ t + 8192 - kvirtual_address + f = ground (arith, made₃.words a₃) in
      let lead₃ =
        entry-leads f (t + 8192) (omega (arith, above)) (omega (arith, small))
          (omega (arith, aligned)) few.0 few.1 in
      (
        m₃,
        get_page_run dir v flags (t + 8192) m m₁ m₂ m₃ run₁ run₂ run₃ (rw w₃ lead₃.1),
        IsMade-IsThree top v f t a₂ a₃ m m₁ m₂ m₃ made₁ made₂ made₃ n₂ n₃ out,
      )

  -- In a directory whose entry for the top index of an address is not present, over a bump pointer in the
  -- kernel's addresses and away from their end, when the three pages from the bump pointer on, rounded
  -- up, do not hold that entry: `map` with the present flag succeeds and makes the three tables in
  -- these pages; afterwards the walk of the processor leads from the address to the frame of the
  -- physical address, with the offset kept, and no word outside of the three pages but the entry in the
  -- directory has changed.
  pub map-makes :
      (paddr : ℕ)
      → paddr < 2 ^ 64
      → flags % 2 ≡ 1
      → ((map dir v paddr flags m).0 ≡ 0)
        × (translate (map dir v paddr flags m).1.words dir v
            ≡ some (paddr / 4096 * 4096 + v % 4096))
        × ((a : ℕ)
            → a ≢ at_pml4 dir v
            → (a < t) ⊎ (t + 12288 ≤ a)
            → (map dir v paddr flags m).1.words a ≡ m.words a)
  map-makes paddr room on =
      let f = dir_flags_of flags in
      let few : (f < 4096) × (f % 2 ≡ 1) = ground (arith, dir_flags_cases flags) in
      let (m', found, three) = get_page-makes in
      let e = page_entry paddr flags in
      let entry = page_entry_lem paddr flags room in
      let there : present e ≡ true = (present_iff e).1 (omega (arith, entry, on)) in
      let frame : e / 4096 * 4096 ≡ paddr / 4096 * 4096 = omega (arith, entry) in
      let walked =
        translate-IsThree dir v f t e m m' three above small aligned few.0 few.1 out there in
      let last : cell (t + 8192) (pte v) ≡ t + 8192 + pte v * 8 =
        omega (arith, (indices_lem v).3, small) in
      rw (map_run dir v paddr flags (t + 8192) m m' found (omega arith)) (
        refl,
        walked ∙ ap (λ (x : ℕ). some (x + v % 4096)) frame,
        (λ a ne away. ground (arith, three.rest a ne away, last, (indices_lem v).3, away)),
      )
