-- ===== src/Heap/Chain/Split.antt =====
-- The writes of `split_block` on a chain.
use coronel.Base.{
  ℕ, ◌+◌, ◌-◌, ◌^◌, ◌≤◌, ◌<◌, ◌≡◌, refl, Bool, true, false, leb, List, [], ◌∷◌, ◌==◌, if◌then◌else◌,
  arith, Bool-cases, ◌⊎◌, inl, inr, sym, subst, ap,
}
use coronel.Machine.{null}
use coronel.Heap.{HeapBlock, Blocks, relinked}
use coronel.Heap.Blocks.{insert_block}
use coronel.Heap.Chain.{
  Entry, entry, IsHeader, IsChain, IsChain-cons, start-bounds, IsChain-frame, IsChain-mono,
}

-- The chain behind a block that changes hands.
pub relinked-IsChain :
    (mem : Blocks) (lo prev p v : ℕ) (es : List Entry)
    → IsChain mem lo prev p es
    → IsChain (relinked p v mem) lo v p es
relinked-IsChain mem lo prev p v [] c = c
relinked-IsChain mem lo prev p v (e ∷ es) c =
    let tail =
      IsChain-frame mem (relinked p v mem) (p + 40 + e.size) p (mem p).next es (λ a h. ground arith)
        c.4 in
    IsChain-cons (relinked p v mem) lo v p (mem p).next e es c.0 c.1 c.2
      (record {
        size = ground (arith, c.3.size);
        is_free = ground (arith, c.3.is_free);
        magic = ground (arith, c.3.magic);
        prev = ground arith;
      })
      (ground arith) tail

-- The block at `b` is cut to `size` bytes, and the rest of it is a free block.
abbrev pub split_entries : ℕ → ℕ → List Entry → List Entry
split_entries b size [] = []
split_entries b size (e ∷ es) =
    if e.addr == b
    then entry b size e.is_free ∷ entry (b + 40 + size) (e.size - size - 40) true ∷ es
    else e ∷ split_entries b size es

-- What a write of the split leaves alone, and the chain that it makes.
abbrev pub Splits : Blocks → Blocks → ℕ → ℕ → ℕ → List Entry → Type 0
Splits mem mem' lo prev p es = IsChain mem' lo prev p es × ((a : ℕ) → a < p → mem' a ≡ mem a)

-- The block at `b` is in the list and has room for `size` bytes and a header behind them.
abbrev pub has_room : ℕ → ℕ → List Entry → Bool
has_room b size [] = false
has_room b size (e ∷ es) = if e.addr == b then leb (size + 40) e.size else has_room b size es

split_here :
    (mem : Blocks) (size lo prev p : ℕ) (e : Entry) (es : List Entry)
    → IsChain mem lo prev p (e ∷ es)
    → size + 40 ≤ e.size
    → Splits mem
        (insert_block p size (p + 40 + size) mem)
        lo
        prev
        p
        (entry p size e.is_free ∷ entry (p + 40 + size) (e.size - size - 40) true ∷ es)
split_here mem size lo prev p e es c room = (
  IsChain-cons mem' lo prev p new (entry p size e.is_free)
      (entry new (e.size - size - 40) true ∷ es) refl c.1 c.2
      (record {
        size = ground arith;
        is_free = ground (arith, c.3.is_free, away.0);
        magic = ground (arith, c.3.magic, away.0);
        prev = ground (arith, c.3.prev, away.0);
      })
      (ground arith)
      (IsChain-cons mem' (p + 40 + size) p new next (entry new (e.size - size - 40) true) es refl
        (omega arith) (omega arith)
        (record {
          size = ground (arith, away, c.3.size);
          is_free = ground (arith, away);
          magic = ground (arith, away);
          prev = ground (arith, away);
        })
        (ground (arith, away))
        (IsChain-mono mem' (p + 40 + e.size) (new + 40 + (e.size - size - 40)) new next es
          (omega arith)
          (IsChain-frame (relinked next new mem) mem' (p + 40 + e.size) new next es
            (λ a h. ground arith) (relinked-IsChain mem (p + 40 + e.size) p next new es c.4)))),
  λ a h. ground (arith, away),
)
  where
    new : ℕ
    new = p + 40 + size

    next : ℕ
    next = (mem p).next

    mem' : Blocks
    mem' = insert_block p size new mem

    away : ((next ≡ null) ⊎ (p + 40 + e.size ≤ next)) × (p + 40 + e.size < 2 ^ 64)
    away = start-bounds mem (p + 40 + e.size) p next es c.4

has_room-start :
    (mem : Blocks) (b size lo before p : ℕ) (es : List Entry)
    → has_room b size es ≡ true
    → IsChain mem lo before p es
    → lo ≤ p
has_room-start mem b size lo before p [] h c = absurd (ground arith)
has_room-start mem b size lo before p (e ∷ es) h c = c.2

-- The split leaves a chain, whose entries are those of the specification; nothing below the start
-- of the chain is written.
pub insert_block-IsChain :
    (mem : Blocks) (b size lo prev p : ℕ) (es : List Entry)
    → has_room b size es ≡ true
    → IsChain mem lo prev p es
    → Splits mem (insert_block b size (b + 40 + size) mem) lo prev p (split_entries b size es)
insert_block-IsChain mem b size lo prev p [] h c = absurd (ground arith)
insert_block-IsChain mem b size lo prev p (e ∷ es) h c = elim (Bool-cases (e.addr == b)) [
  | inl here ↦
      let at_b : p ≡ b = ground (arith, c.0) in
      let done = split_here mem size lo prev p e es c (ground arith) in
      let found : split_entries b size (e ∷ es)
          ≡ entry b size e.is_free ∷ entry (b + 40 + size) (e.size - size - 40) true ∷ es =
        rw here in
      rw found (
        subst
          (λ (t : ℕ).
            Splits mem (insert_block t size (t + 40 + size) mem) lo prev p
              (entry t size e.is_free ∷ entry (t + 40 + size) (e.size - size - 40) true ∷ es))
          at_b done)
  | inr elsewhere ↦
      let q = (mem p).next in
      let rest = insert_block-IsChain mem b size (p + 40 + e.size) p q es (ground arith) c.4 in
      let above : p + 40 + e.size ≤ q =
        has_room-start mem b size (p + 40 + e.size) p q es (ground arith) c.4 in
      let same : insert_block b size (b + 40 + size) mem p ≡ mem p = rest.1 p (omega arith) in
      let found : split_entries b size (e ∷ es) ≡ e ∷ split_entries b size es = rw elsewhere in
      rw found (
        IsChain-cons (insert_block b size (b + 40 + size) mem) lo prev p q e
            (split_entries b size es) c.0 c.1 c.2
            (subst (λ (t : HeapBlock). IsHeader t prev e) (sym same) c.3)
            (ap (λ (t : HeapBlock). t.next) same) rest.0,
        λ a below. rest.1 a (omega arith),
      )
]
