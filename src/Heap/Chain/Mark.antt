-- ===== src/Heap/Chain/Mark.antt =====
-- Marking a block of a chain as used or free.
use coronel.Base.{
  ℕ, ◌+◌, ◌≤◌, ◌≡◌, Bool, true, List, [], ◌∷◌, ◌==◌, if◌then◌else◌, arith, Bool-cases, inl, inr,
  sym, subst, ap, Option, none, some,
}
use coronel.Heap.{HeapBlock, Blocks, set_mark}
use coronel.Heap.Chain.{Entry, entry, IsHeader, IsChain, has, magic_of, IsChain-cons, IsChain-frame}

abbrev pub mark_entries : ℕ → Bool → List Entry → List Entry
mark_entries b free [] = []
mark_entries b free (e ∷ es) =
    if e.addr == b then entry e.addr e.size free ∷ es else e ∷ mark_entries b free es

-- The entry at `b`.
abbrev pub find : ℕ → List Entry → Option Entry
find b [] = none
find b (e ∷ es) = if e.addr == b then some e else find b es

pub has-start :
    (mem : Blocks) (b lo before p : ℕ) (es : List Entry)
    → has b es ≡ true
    → IsChain mem lo before p es
    → lo ≤ p
has-start mem b lo before p [] h c = absurd (ground arith)
has-start mem b lo before p (e ∷ es) h c = c.2

-- A block of the list starts at or behind the start of the chain.
pub has-above :
    (mem : Blocks) (b lo before p : ℕ) (es : List Entry)
    → has b es ≡ true
    → IsChain mem lo before p es
    → p ≤ b
has-above mem b lo before p [] h c = absurd (ground arith)
has-above mem b lo before p (e ∷ es) h c = elim (Bool-cases (e.addr == b)) [
  | inl here ↦ ground arith
  | inr later ↦
      let tail : has b es ≡ true = ground arith in
      omega (
        arith,
        has-above mem b (p + 40 + e.size) p (mem p).next es tail c.4,
        has-start mem b (p + 40 + e.size) p (mem p).next es tail c.4,
      )
]

-- What the header at `b` says, if the list has the entry `e` there.
abbrev pub Says : Blocks → ℕ → List Entry → Entry → Type 0
Says mem b es e =
    ((mem b).size ≡ e.size)
    × ((mem b).is_free ≡ e.is_free)
    × ((mem b).magic ≡ magic_of e.is_free)
    × (e.addr ≡ b)
    × (has b es ≡ true)

pub find-Says :
    (mem : Blocks) (b lo before p : ℕ) (es : List Entry) (e : Entry)
    → find b es ≡ some e
    → IsChain mem lo before p es
    → Says mem b es e
find-Says mem b lo before p [] e h c = absurd (ground arith)
find-Says mem b lo before p (f ∷ es) e h c = elim (Bool-cases (f.addr == b)) [
  | inl here ↦
      let same : f ≡ e = ground arith in
      let at_b : p ≡ b = ground (arith, c.0) in
      (
        ground (arith, c.3.size),
        ground (arith, c.3.is_free),
        ground (arith, c.3.magic),
        ground arith,
        ground arith,
      )
  | inr later ↦
      let rest = find-Says mem b (p + 40 + f.size) p (mem p).next es e (ground arith) c.4 in
      (rest.0, rest.1, rest.2, rest.3, ground (arith, rest.4))
]

pub set_mark-IsChain :
    (mem : Blocks) (b : ℕ) (free : Bool) (lo before p : ℕ) (es : List Entry)
    → has b es ≡ true
    → IsChain mem lo before p es
    → IsChain (set_mark b free (magic_of free) mem) lo before p (mark_entries b free es)
set_mark-IsChain mem b free lo before p [] h c = absurd (ground arith)
set_mark-IsChain mem b free lo before p (e ∷ es) h c = elim (Bool-cases (e.addr == b)) [
  | inl here ↦
      let found : mark_entries b free (e ∷ es) ≡ entry e.addr e.size free ∷ es = rw here in
      let mem' = set_mark b free (magic_of free) mem in
      rw found (
        IsChain-cons mem' lo before p (mem p).next (entry e.addr e.size free) es c.0 c.1 c.2
          (record {
            size = ground (arith, c.3.size);
            is_free = ground arith;
            magic = ground arith;
            prev = ground (arith, c.3.prev);
          })
          (ground arith)
          (IsChain-frame mem mem' (p + 40 + e.size) p (mem p).next es (λ a h. ground arith) c.4))
  | inr elsewhere ↦
      let tail : has b es ≡ true = ground arith in
      let found : mark_entries b free (e ∷ es) ≡ e ∷ mark_entries b free es = rw elsewhere in
      let mem' = set_mark b free (magic_of free) mem in
      let apart : mem' p ≡ mem p = ground arith in
      rw found (
        IsChain-cons mem' lo before p (mem p).next e (mark_entries b free es) c.0 c.1 c.2
          (subst (λ (t : HeapBlock). IsHeader t before e) (sym apart) c.3)
          (ap (λ (t : HeapBlock). t.next) apart)
          (set_mark-IsChain mem b free (p + 40 + e.size) p (mem p).next es tail c.4))
]
