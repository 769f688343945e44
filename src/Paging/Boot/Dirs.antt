-- ===== src/Paging/Boot/Dirs.antt =====
-- What the outer loop writes.
use coronel.Base.{
  ℕ, zero, suc, ◌+◌, ◌-◌, ◌*◌, ◌/◌, ◌^◌, ◌≤◌, ◌<◌, ◌≡◌, ◌⊎◌, false, inl, inr, refl, add64, arith,
  ◌==◌, ap, ap₂, ◌∙◌, sym, subst,
}
use coronel.Config.{kvirtual_address}
use coronel.Machine.{update}
use coronel.Paging.{address, cell}
use coronel.Paging.Entry.{address_lem}
use coronel.Paging.Boot.{fill_pages, fill_dirs}
use coronel.Paging.Boot.Fill.{IsOutside, IsOutside-within, ArePages, fill_pages-ArePages}

-- The table that the entry `k` places behind `dir` names.
abbrev pub table_at : ℕ → ℕ → ℕ
table_at dir k = dir / 4096 * 4096 + kvirtual_address + k * 4096

-- From entry `i` on, `n` entries follow on `dir`, the entries of their tables follow on `paddr`, and
-- nothing else is written.
pub record AreDirs (n i dirs dir paddr : ℕ) (w w' : ℕ → ℕ) : Type 0 where
  pub entries : (k : ℕ) → k < n → w' (dirs + (i + k) * 8) ≡ dir + (k + 1) * 4096
  pub pages :
      (k j : ℕ)
      → k < n
      → j < 512
      → w' (table_at dir (k + 1) + j * 8) ≡ paddr + (k * 512 + j + 1) * 4096
  pub others :
      (a : ℕ)
      → IsOutside (dirs + i * 8) (dirs + (i + n) * 8) a
      → IsOutside (table_at dir 1) (table_at dir (n + 1)) a
      → w' a ≡ w a

-- Room for `n` more entries from `i` on, with their tables beside the directory.
pub record HasRoom (n i dirs dir paddr : ℕ) : Type 0 where
  pub behind : 0 < i
  pub room : dirs + (i + n) * 8 ≤ 2 ^ 64
  pub tables : dir + n * 4096 < 2 ^ 31
  pub frames : paddr + n * 0x200000 < 2 ^ 64
  pub apart : (dirs + (i + n) * 8 ≤ table_at dir 1) ⊎ (table_at dir (n + 1) ≤ dirs + (i - 1) * 8)

HasRoom-next :
    (n i dirs dir paddr : ℕ)
    → HasRoom (suc n) i dirs dir paddr
    → HasRoom n (i + 1) dirs (dir + 4096) (paddr + 0x200000)
HasRoom-next n i dirs dir paddr h = record {
  behind = omega arith;
  room = omega (arith, h.room);
  tables = omega (arith, h.tables);
  frames = omega (arith, h.frames);
  apart = elim h.apart [
    | inl front ↦ inl (omega (arith, front))
    | inr back ↦ inr (omega (arith, back))
  ];
}

-- One round: the entry, and the pages of its table.
abbrev entered : ℕ → ℕ → ℕ → (ℕ → ℕ) → ℕ → ℕ
entered i dirs dir w = update w (dirs + i * 8) (dir + 4096)

abbrev go : ℕ → ℕ → ℕ → ℕ → ℕ → (ℕ → ℕ) → ℕ → ℕ
go n i dirs paddr table w =
    let (paddr₂, w₂) = fill_pages 512 0 table paddr w in fill_dirs n (i + 1) dirs paddr₂ w₂

fill_dirs_step :
    (n i dirs dir paddr : ℕ) (w : ℕ → ℕ)
    → HasRoom (suc n) i dirs dir paddr
    → w (dirs + (i - 1) * 8) ≡ dir
    → fill_dirs (suc n) i dirs paddr w
      ≡ fill_dirs n
          (i + 1)
          dirs
          (paddr + 0x200000)
          (fill_pages 512 0 (table_at dir 1) paddr (entered i dirs dir w)).1
unfolding fill_dirs
fill_dirs_step n i dirs dir paddr w h before =
    let last : cell dirs (i - 1) ≡ dirs + (i - 1) * 8 = omega (arith, h.room, h.behind) in
    let at : cell dirs i ≡ dirs + i * 8 = omega (arith, h.room) in
    let entry : add64 (w (cell dirs (i - 1))) 4096 ≡ dir + 4096 =
      ap (λ (a : ℕ). add64 (w a) 4096) last
      ∙ ap (λ (e : ℕ). add64 e 4096) before
      ∙ omega (arith, h.tables) in
    let w₁ = entered i dirs dir w in
    let there : w₁ (dirs + i * 8) ≡ dir + 4096 = ground arith in
    let table : address (w₁ (dirs + i * 8)) ≡ table_at dir 1 =
      ap address there ∙ address_lem (dir + 4096) (omega (arith, h.tables)) ∙ omega arith in
    let filled =
      fill_pages-ArePages 512 0 (table_at dir 1) paddr w₁ (omega (arith, h.tables))
        (omega (arith, h.frames)) in
    ap₂ (λ (a e : ℕ). go n i dirs paddr (address (update w a e a)) (update w a e)) at entry
    ∙ ap (λ (t : ℕ). go n i dirs paddr t w₁) table
    ∙ ap (λ (p : ℕ). fill_dirs n (i + 1) dirs p (fill_pages 512 0 (table_at dir 1) paddr w₁).1)
        filled.0

-- The directory lies beside its tables.
beside :
    (n i dirs dir paddr : ℕ)
    → HasRoom (suc n) i dirs dir paddr
    → IsOutside (table_at dir 1) (table_at dir (n + 2)) (dirs + i * 8)
beside n i dirs dir paddr h = elim h.apart [
  | inl front ↦ inl (omega (arith, front))
  | inr back ↦ inr (omega (arith, back))
]

linked :
    (n i dirs dir paddr : ℕ) (w w₂ : ℕ → ℕ)
    → HasRoom (suc n) i dirs dir paddr
    → ArePages 512 0 (table_at dir 1) paddr (entered i dirs dir w) w₂
    → w₂ (dirs + i * 8) ≡ dir + 4096
linked n i dirs dir paddr w w₂ h first =
    first.others (dirs + i * 8) (
      IsOutside-within (table_at dir 1) (table_at dir (n + 2)) (table_at dir 1 + 0 * 8)
        (table_at dir 1 + (0 + 512) * 8) (dirs + i * 8) (omega arith) (omega arith)
        (beside n i dirs dir paddr h))
    ∙ ground arith

-- The first entry with its table, and those behind it.
entry_then_rest :
    (n i dirs dir paddr : ℕ) (w w₂ w' : ℕ → ℕ)
    → HasRoom (suc n) i dirs dir paddr
    → ArePages 512 0 (table_at dir 1) paddr (entered i dirs dir w) w₂
    → AreDirs n (i + 1) dirs (dir + 4096) (paddr + 0x200000) w₂ w'
    → AreDirs (suc n) i dirs dir paddr w w'
entry_then_rest n i dirs dir paddr w w₂ w' h first rest = record {
  entries = entries;
  pages = pages;
  others = others;
}
  where
    entries : (k : ℕ) → k < suc n → w' (dirs + (i + k) * 8) ≡ dir + (k + 1) * 4096
    entries zero h₁ =
        let at : dirs + (i + 0) * 8 ≡ dirs + i * 8 = omega arith in
        ap w' at
        ∙ rest.others (dirs + i * 8) (inl (omega arith)) (
            IsOutside-within (table_at dir 1) (table_at dir (n + 2)) (table_at (dir + 4096) 1)
              (table_at (dir + 4096) (n + 1)) (dirs + i * 8) (omega arith) (omega arith)
              (beside n i dirs dir paddr h))
        ∙ linked n i dirs dir paddr w w₂ h first
    entries (suc k) h₁ =
        let at : dirs + (i + suc k) * 8 ≡ dirs + (i + 1 + k) * 8 = omega arith in
        ap w' at ∙ rest.entries k (omega arith) ∙ omega arith

    pages :
        (k j : ℕ)
        → k < suc n
        → j < 512
        → w' (table_at dir (k + 1) + j * 8) ≡ paddr + (k * 512 + j + 1) * 4096
    pages zero j h₁ below =
        let out : IsOutside (dirs + (i + 1) * 8) (dirs + (i + 1 + n) * 8) (table_at dir 1 + j * 8) =
          elim h.apart [
            | inl front ↦ inr (omega (arith, front))
            | inr back ↦ inl (omega (arith, back))
          ] in
        let at : table_at dir 1 + j * 8 ≡ table_at dir 1 + (0 + j) * 8 = omega arith in
        rest.others (table_at dir 1 + j * 8) out (inl (omega arith))
        ∙ ap w₂ at
        ∙ first.entries j below
        ∙ omega arith
    pages (suc k) j h₁ below =
        let at : table_at dir (suc k + 1) + j * 8 ≡ table_at (dir + 4096) (k + 1) + j * 8 =
          omega arith in
        ap w' at ∙ rest.pages k j (omega arith) below ∙ omega arith

    others :
        (a : ℕ)
        → IsOutside (dirs + i * 8) (dirs + (i + suc n) * 8) a
        → IsOutside (table_at dir 1) (table_at dir (suc n + 1)) a
        → w' a ≡ w a
    others a out out' =
        let elsewhere : (a == dirs + i * 8) ≡ false = elim out [
          | inl front ↦ ground (arith, front)
          | inr back ↦ ground (arith, back)
        ] in
        rest.others a
          (IsOutside-within (dirs + i * 8) (dirs + (i + suc n) * 8) (dirs + (i + 1) * 8)
            (dirs + (i + 1 + n) * 8) a (omega arith) (omega arith) out)
          (IsOutside-within (table_at dir 1) (table_at dir (suc n + 1)) (table_at (dir + 4096) 1)
            (table_at (dir + 4096) (n + 1)) a (omega arith) (omega arith) out')
        ∙ first.others a (
            IsOutside-within (table_at dir 1) (table_at dir (suc n + 1)) (table_at dir 1 + 0 * 8)
              (table_at dir 1 + (0 + 512) * 8) a (omega arith) (omega arith) out')
        ∙ rw elsewhere refl

pub fill_dirs-AreDirs :
    (n i dirs dir paddr : ℕ) (w : ℕ → ℕ)
    → HasRoom n i dirs dir paddr
    → w (dirs + (i - 1) * 8) ≡ dir
    → AreDirs n i dirs dir paddr w (fill_dirs n i dirs paddr w)
unfolding fill_dirs
fill_dirs-AreDirs zero i dirs dir paddr w h before = record {
  entries = λ k h. absurd (omega arith);
  pages = λ k j h h'. absurd (omega arith);
  others = λ a h h'. refl;
}
fill_dirs-AreDirs (suc n) i dirs dir paddr w h before =
    let w₂ = (fill_pages 512 0 (table_at dir 1) paddr (entered i dirs dir w)).1 in
    let (_, pages) =
      fill_pages-ArePages 512 0 (table_at dir 1) paddr (entered i dirs dir w)
        (omega (arith, h.tables)) (omega (arith, h.frames)) in
    let link : w₂ (dirs + (i + 1 - 1) * 8) ≡ dir + 4096 =
      ap w₂ (omega arith) ∙ linked n i dirs dir paddr w w₂ h pages in
    let rest =
      fill_dirs-AreDirs n (i + 1) dirs (dir + 4096) (paddr + 0x200000) w₂
        (HasRoom-next n i dirs dir paddr h) link in
    subst (λ (v : ℕ → ℕ). AreDirs (suc n) i dirs dir paddr w v)
      (sym (fill_dirs_step n i dirs dir paddr w h before))
      (entry_then_rest n i dirs dir paddr w w₂ (fill_dirs n (i + 1) dirs (paddr + 0x200000) w₂) h
        pages rest)
