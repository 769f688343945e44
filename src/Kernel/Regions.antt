-- ===== src/Kernel/Regions.antt =====
-- Which region of the memory map the kernel takes.
use coronel.Base.{
  ℕ, zero, suc, ◌+◌, ◌-◌, ◌^◌, ◌≤◌, ◌<◌, ◌≡◌, refl, ◌⊎◌, inl, inr, true, false, List, [], ◌∷◌, ltb,
  ◌==◌, if◌then◌else◌, arith, length, All, sym, ◌∙◌, Bool-cases, u32, add64, sub64,
}
use coronel.Config.{kvirtual_address}
use coronel.Machine.{null}
use coronel.Kernel.Manager.{
  MmapEntry, MultibootInfo, kernel_end, consider, scan_map, largest_region,
}

-- The memory of an entry that the kernel may use: what lies at 8 MB and above, if it is available.
abbrev pub usable_start : MmapEntry → ℕ
usable_start e = if ltb e.addr kernel_end then kernel_end else e.addr

abbrev pub usable_size : MmapEntry → ℕ
usable_size e = if e.type == 1 then e.addr + e.len - usable_start e else 0

abbrev pub usable : MmapEntry → ℕ × ℕ
usable e = (usable_start e, usable_size e)

-- Some entry of the list has the property.
abbrev pub Any : (MmapEntry → Type 0) → List MmapEntry → Type 0
Any P [] = ⊥
Any P (e ∷ es) = P e ⊎ Any P es

-- No entry ends behind the address space.
abbrev pub AreBounded : List MmapEntry → Type 0
AreBounded = All (λ e. e.addr + e.len < 2 ^ 64)

-- From `p` to `end` the map holds exactly these entries, one behind the other.
abbrev pub IsMap : (ℕ → MmapEntry) → ℕ → ℕ → List MmapEntry → Type 0
IsMap at p end [] = end ≤ p
IsMap at p end (e ∷ es) =
    (p < end) × (at p ≡ e) × (p + (e.size + 4) < 2 ^ 64) × IsMap at (p + (e.size + 4)) end es

abbrev larger : MmapEntry → ℕ × ℕ → ℕ × ℕ
larger e best = if ltb best.1 (usable_size e) then usable e else best

abbrev largest_of : List MmapEntry → ℕ × ℕ → ℕ × ℕ
largest_of [] best = best
largest_of (e ∷ es) best = largest_of es (larger e best)

consider-larger :
    (e : MmapEntry) (best : ℕ × ℕ) → e.addr + e.len < 2 ^ 64 → consider e best ≡ larger e best
unfolding consider
consider-larger e best h =
    let end : add64 e.addr e.len ≡ e.addr + e.len = omega arith in
    elim (Bool-cases (e.type == 1)) [
      | inr other ↦ rw other (ground arith)
      | inl available ↦ elim (Bool-cases (ltb e.addr kernel_end)) [
        | inr above ↦
            let size : e.addr + e.len - e.addr ≡ e.len = omega arith in
            rw (available, above, size) refl
        | inl low ↦ elim (Bool-cases (ltb kernel_end (e.addr + e.len))) [
          | inl beyond ↦
              let size : sub64 (e.addr + e.len) kernel_end ≡ e.addr + e.len - kernel_end =
                ground arith in
              rw (available, low, end, beyond, size) refl
          | inr below ↦
              let none_left : e.addr + e.len - kernel_end ≡ 0 = ground arith in
              let kept : ltb best.1 0 ≡ false = ground arith in
              rw (available, low, end, below, none_left, kept) refl
        ]
      ]
    ]

length-IsMap :
    (at : ℕ → MmapEntry) (p end : ℕ) (es : List MmapEntry) → IsMap at p end es → length es ≤ end - p
length-IsMap at p end [] h = omega arith
length-IsMap at p end (e ∷ es) h = omega (arith, length-IsMap at (p + (e.size + 4)) end es h.3)

scan_map_lem :
    (n : ℕ) (at : ℕ → MmapEntry) (p end : ℕ) (es : List MmapEntry) (best : ℕ × ℕ)
    → IsMap at p end es
    → AreBounded es
    → length es < n
    → scan_map n at p end best ≡ largest_of es best
unfolding scan_map
scan_map_lem zero at p end es best m b f = absurd (omega arith)
scan_map_lem (suc n) at p end [] best m b f =
    let done : ltb p end ≡ false = ground arith in rw done refl
scan_map_lem (suc n) at p end (e ∷ es) best m b f =
    let more : ltb p end ≡ true = ground (arith, m.0) in
    let next : add64 p (e.size + 4) ≡ p + (e.size + 4) = omega (arith, m.2) in
    rw (more, m.1, next, consider-larger e best b.0)
      (scan_map_lem n at (p + (e.size + 4)) end es (larger e best) m.3 b.1 (omega arith))

largest_of-ge :
    (es : List MmapEntry) (best : ℕ × ℕ)
    → (best.1 ≤ (largest_of es best).1) × All (λ e. usable_size e ≤ (largest_of es best).1) es
largest_of-ge [] best = (omega arith, tt)
largest_of-ge (e ∷ es) best =
    let rest = largest_of-ge es (larger e best) in
    let step : (best.1 ≤ (larger e best).1) × (usable_size e ≤ (larger e best).1) =
      elim (Bool-cases (ltb best.1 (usable_size e))) [
        | inl yes_larger ↦ rw yes_larger (ground (arith, yes_larger), omega arith)
        | inr kept ↦ rw kept (omega arith, ground (arith, kept))
      ] in
    (omega (arith, rest.0, step.0), (omega (arith, rest.0, step.1), rest.1))

largest_of-one :
    (es : List MmapEntry) (best : ℕ × ℕ)
    → (largest_of es best ≡ best) ⊎ Any (λ e. usable e ≡ largest_of es best) es
largest_of-one [] best = inl refl
largest_of-one (e ∷ es) best = elim (largest_of-one es (larger e best)) [
  | inr found ↦ inr (inr found)
  | inl same ↦ elim (Bool-cases (ltb best.1 (usable_size e))) [
    | inl taken ↦
        let here : larger e best ≡ usable e = rw taken refl in inr (inl (sym (same ∙ here)))
    | inr kept ↦ let here : larger e best ≡ best = rw kept refl in inl (same ∙ here)
  ]
]

-- On a memory map below 2 GB, whose entries lie one behind the other and end inside the address space,
-- the loop ends with the largest usable region: none of an entry is larger, and it is that of an entry
-- of the map unless none is usable at all. Usable is the part at 8 MB and above of what is available.
pub largest_region_lem :
    (info : MultibootInfo) (at : ℕ → MmapEntry) (es : List MmapEntry)
    → info.mmap_addr + info.mmap_length < 2 ^ 31
    → IsMap at
        (info.mmap_addr + kvirtual_address)
        (info.mmap_addr + info.mmap_length + kvirtual_address)
        es
    → AreBounded es
    → All (λ e. usable_size e ≤ (largest_region info at).1) es
      × ((largest_region info at ≡ (null, 0)) ⊎ Any (λ e. usable e ≡ largest_region info at) es)
unfolding largest_region
largest_region_lem info at es small m b =
    let start : add64 info.mmap_addr kvirtual_address ≡ info.mmap_addr + kvirtual_address =
      omega arith in
    let end : add64 (u32 (info.mmap_addr + info.mmap_length)) kvirtual_address
        ≡ info.mmap_addr + info.mmap_length + kvirtual_address =
      omega arith in
    let short =
      length-IsMap at (info.mmap_addr + kvirtual_address)
        (info.mmap_addr + info.mmap_length + kvirtual_address) es m in
    let run =
      scan_map_lem (suc info.mmap_length) at (info.mmap_addr + kvirtual_address)
        (info.mmap_addr + info.mmap_length + kvirtual_address) es (null, 0) m b
        (omega (arith, short)) in
    rw (start, end, run) ((largest_of-ge es (null, 0)).1, largest_of-one es (null, 0))
