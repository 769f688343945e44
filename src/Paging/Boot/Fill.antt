-- ===== src/Paging/Boot/Fill.antt =====
-- What the two loops write.
use coronel.Base.{
  ℕ, zero, suc, ◌+◌, ◌*◌, ◌^◌, ◌≤◌, ◌<◌, ◌≡◌, ◌⊎◌, inl, inr, refl, add64, arith, ap, ap₂, ◌∙◌, sym,
  subst,
}
use coronel.Machine.{update}
use coronel.Paging.{cell}
use coronel.Paging.Boot.{fill_pages}

-- `a` lies in front of the range or behind it.
abbrev pub IsOutside : ℕ → ℕ → ℕ → Type 0
IsOutside start end a = (a < start) ⊎ (end ≤ a)

pub IsOutside-within :
    (start end start' end' a : ℕ)
    → start ≤ start'
    → end' ≤ end
    → IsOutside start end a
    → IsOutside start' end' a
IsOutside-within start end start' end' a h h' (inl front) = inl (omega arith)
IsOutside-within start end start' end' a h h' (inr behind) = inr (omega arith)

-- From entry `j` on, `n` entries of the table follow on `paddr`, and nothing else is written.
pub record ArePages (n j pages paddr : ℕ) (w w' : ℕ → ℕ) : Type 0 where
  pub entries : (k : ℕ) → k < n → w' (pages + (j + k) * 8) ≡ paddr + (k + 1) * 4096
  pub others : (a : ℕ) → IsOutside (pages + j * 8) (pages + (j + n) * 8) a → w' a ≡ w a

-- The first entry, and those behind it.
first_then_rest :
    (n j pages paddr : ℕ) (w w' : ℕ → ℕ)
    → ArePages n (j + 1) pages (paddr + 4096) (update w (pages + j * 8) (paddr + 4096)) w'
    → ArePages (suc n) j pages paddr w w'
first_then_rest n j pages paddr w w' rest = record { entries = entries; others = others }
  where
    entries : (k : ℕ) → k < suc n → w' (pages + (j + k) * 8) ≡ paddr + (k + 1) * 4096
    entries zero h =
        let at : pages + (j + 0) * 8 ≡ pages + j * 8 = omega arith in
        ap w' at ∙ rest.others (pages + j * 8) (inl (omega arith)) ∙ ground arith
    entries (suc k) h =
        let at : pages + (j + suc k) * 8 ≡ pages + (j + 1 + k) * 8 = omega arith in
        ap w' at ∙ rest.entries k (omega arith) ∙ omega arith

    others : (a : ℕ) → IsOutside (pages + j * 8) (pages + (j + suc n) * 8) a → w' a ≡ w a
    others a (inl front) = rest.others a (inl (omega arith)) ∙ ground (arith, front)
    others a (inr behind) = rest.others a (inr (omega arith)) ∙ ground (arith, behind)

fill_pages_step :
    (n j pages paddr : ℕ) (w : ℕ → ℕ)
    → pages + (j + suc n) * 8 ≤ 2 ^ 64
    → paddr + suc n * 4096 < 2 ^ 64
    → fill_pages (suc n) j pages paddr w
      ≡ fill_pages n (j + 1) pages (paddr + 4096) (update w (pages + j * 8) (paddr + 4096))
unfolding fill_pages
fill_pages_step n j pages paddr w room small =
    let next : add64 paddr 4096 ≡ paddr + 4096 = omega arith in
    let at : cell pages j ≡ pages + j * 8 = omega arith in
    ap₂ (λ (p c : ℕ). fill_pages n (j + 1) pages p (update w c p)) next at

pub fill_pages-ArePages :
    (n j pages paddr : ℕ) (w : ℕ → ℕ)
    → pages + (j + n) * 8 ≤ 2 ^ 64
    → paddr + n * 4096 < 2 ^ 64
    → ((fill_pages n j pages paddr w).0 ≡ paddr + n * 4096)
      × ArePages n j pages paddr w (fill_pages n j pages paddr w).1
unfolding fill_pages
fill_pages-ArePages zero j pages paddr w room small =
    (omega arith, record { entries = λ k h. absurd (omega arith); others = λ a h. refl })
fill_pages-ArePages (suc n) j pages paddr w room small =
    let w₁ = update w (pages + j * 8) (paddr + 4096) in
    let (ends, rest) =
      fill_pages-ArePages n (j + 1) pages (paddr + 4096) w₁ (omega arith) (omega arith) in
    let w' = (fill_pages n (j + 1) pages (paddr + 4096) w₁).1 in
    let both : ((fill_pages n (j + 1) pages (paddr + 4096) w₁).0 ≡ paddr + suc n * 4096)
        × ArePages (suc n) j pages paddr w (fill_pages n (j + 1) pages (paddr + 4096) w₁).1 =
      (omega (arith, ends), first_then_rest n j pages paddr w w' rest) in
    subst (λ (r : ℕ × (ℕ → ℕ)). (r.0 ≡ paddr + suc n * 4096) × ArePages (suc n) j pages paddr w r.1)
      (sym (fill_pages_step n j pages paddr w room small)) both
