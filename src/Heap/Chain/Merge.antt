-- ===== src/Heap/Chain/Merge.antt =====
-- The writes of `coalesce_block` on a chain.
use coronel.Base.{
  ℕ, ◌+◌, ◌^◌, ◌≤◌, ◌<◌, ◌≡◌, Bool, true, false, ◌&&◌, List, [], ◌∷◌, ◌==◌, if◌then◌else◌, arith,
  Bool-cases, inl, inr, sym, subst, ap, ◌⊎◌,
}
use mathlib.Core.Path.{subst₂}
use coronel.Machine.{null}
use coronel.Heap.{HeapBlock, Blocks, relinked}
use coronel.Heap.Blocks.{absorb_block}
use coronel.Heap.Chain.{Entry, entry, IsHeader, IsChain, IsChain-cons, start-bounds, IsChain-frame}
use coronel.Heap.Chain.Split.{Splits, relinked-IsChain}

-- The block at `a` takes in the one behind it.
abbrev pub absorb_entries : ℕ → List Entry → List Entry
absorb_entries a [] = []
absorb_entries a (e ∷ []) = e ∷ []
absorb_entries a (e ∷ f ∷ es) =
    if e.addr == a
    then entry e.addr (e.size + (40 + f.size)) e.is_free ∷ es
    else e ∷ absorb_entries a (f ∷ es)

-- The block behind `a` is `b`, and starts where `a` ends.
abbrev pub adjacent : ℕ → ℕ → List Entry → Bool
adjacent a b [] = false
adjacent a b (e ∷ []) = false
adjacent a b (e ∷ f ∷ es) =
    if e.addr == a then (f.addr == b) && (a + 40 + e.size == b) else adjacent a b (f ∷ es)

absorb_here :
    (mem : Blocks) (lo before p : ℕ) (e f : Entry) (es : List Entry)
    → IsChain mem lo before p (e ∷ f ∷ es)
    → p + 40 + e.size ≡ f.addr
    → Splits mem
        (absorb_block p f.addr mem)
        lo
        before
        p
        (entry e.addr (e.size + (40 + f.size)) e.is_free ∷ es)
absorb_here mem lo before p e f es c touch = (
  IsChain-cons mem' lo before p next (entry e.addr (e.size + (40 + f.size)) e.is_free) es c.0 c.1
      c.2
      (record {
        size = ground (arith, c.3.size, says.size, away, at);
        is_free = ground (arith, c.3.is_free, away, at);
        magic = ground (arith, c.3.magic, away, at);
        prev = ground (arith, c.3.prev, away, at);
      })
      (ground (arith, away, at))
      (subst (λ (l : ℕ). IsChain mem' l p next es) (omega (arith, touch))
        (IsChain-frame (relinked next p mem) mem' (b + 40 + f.size) p next es
          (λ a h. ground (arith, touch))
          (relinked-IsChain mem (b + 40 + f.size) b next p es tail))),
  λ a h. ground (arith, away, at, touch),
)
  where
    b : ℕ
    b = f.addr

    next : ℕ
    next = (mem b).next

    mem' : Blocks
    mem' = absorb_block p b mem

    at : (mem p).next ≡ b
    at = c.4.0

    says : IsHeader (mem b) p f
    says = subst (λ (t : ℕ). IsHeader (mem t) p f) at c.4.3

    tail : IsChain mem (b + 40 + f.size) b next es
    tail = subst (λ (t : ℕ). IsChain mem (t + 40 + f.size) t (mem t).next es) at c.4.4

    away : ((next ≡ null) ⊎ (b + 40 + f.size ≤ next)) × (b + 40 + f.size < 2 ^ 64)
    away = start-bounds mem (b + 40 + f.size) b next es tail

-- Absorbing the next block leaves a chain of the entries of the specification.
pub absorb_block-IsChain :
    (mem : Blocks) (a b lo before p : ℕ) (es : List Entry)
    → adjacent a b es ≡ true
    → IsChain mem lo before p es
    → Splits mem (absorb_block a b mem) lo before p (absorb_entries a es)
absorb_block-IsChain mem a b lo before p [] h c = absurd (ground arith)
absorb_block-IsChain mem a b lo before p (e ∷ []) h c = absurd (ground arith)
absorb_block-IsChain mem a b lo before p (e ∷ f ∷ es) h c = elim (Bool-cases (e.addr == a)) [
  | inl here ↦
      let at_a : p ≡ a = ground (arith, c.0) in
      let at_b : f.addr ≡ b = ground arith in
      let merged = entry e.addr (e.size + (40 + f.size)) e.is_free ∷ es in
      let found : absorb_entries a (e ∷ f ∷ es) ≡ merged = rw here in
      let done = absorb_here mem lo before p e f es c (ground arith) in
      rw found
        (subst₂ (λ (t u : ℕ). Splits mem (absorb_block t u mem) lo before p merged) at_a at_b done)
  | inr later ↦
      let q = (mem p).next in
      let touch : adjacent a b (f ∷ es) ≡ true = ground arith in
      let rest = absorb_block-IsChain mem a b (p + 40 + e.size) p q (f ∷ es) touch c.4 in
      let same : absorb_block a b mem p ≡ mem p = rest.1 p (omega (arith, c.4.2)) in
      let found : absorb_entries a (e ∷ f ∷ es) ≡ e ∷ absorb_entries a (f ∷ es) = rw later in
      rw found (
        IsChain-cons (absorb_block a b mem) lo before p q e (absorb_entries a (f ∷ es)) c.0 c.1 c.2
            (subst (λ (t : HeapBlock). IsHeader t before e) (sym same) c.3)
            (ap (λ (t : HeapBlock). t.next) same) rest.0,
        λ x below. rest.1 x (omega (arith, c.4.2)),
      )
]
