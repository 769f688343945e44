-- ===== src/Heap/Coalesce.antt =====
-- `coalesce_block` keeps a heap a heap, hands nothing out and takes nothing back.
use coronel.Base.{
  ℕ, ◌+◌, ◌≤◌, ◌≡◌, ◌≢◌, refl, Bool, true, false, not, ◌&&◌, List, [], ◌∷◌, ◌==◌, arith, Bool-cases,
  inl, inr, sym, subst, ◌∙◌, some, ◌⊎◌,
}
use mathlib.Core.Path.{subst₂}
use coronel.Machine.{null}
use coronel.Heap.{Heap, Blocks}
use coronel.Heap.Blocks.{meets, absorb_block, coalesce_next, coalesce_prev, coalesce_block}
use coronel.Heap.Chain.{Entry, entry, IsChain, IsHeap, has, used, span, start-bounds}
use coronel.Heap.Chain.Mark.{find, find-Says, has-start}
use coronel.Heap.Chain.Merge.{absorb_entries, adjacent, absorb_block-IsChain}
use coronel.Heap.Chain.Used.{used-absorb, span-absorb, has_fit, has_fit-absorb, has-absorb}

-- The blocks are those of `es'`, with the same memory handed out and the same span.
pub record SameUse (s : Heap) (es es' : List Entry) : Type 0 where
  pub heap : IsHeap s es'
  pub used : used es' ≡ used es
  pub span : span es' ≡ span es
  pub fits : (n : ℕ) → has_fit n es ≡ true → has_fit n es' ≡ true
  pub kept : (a : ℕ) → has a es' ≡ true → has a es ≡ true

-- Following `next` from a block of the list to a block that starts where it ends.
adjacent_next :
    (mem : Blocks) (b n lo before p : ℕ) (es : List Entry) (e : Entry)
    → IsChain mem lo before p es
    → find b es ≡ some e
    → (mem b).next ≡ n
    → n ≢ null
    → meets b n mem ≡ true
    → adjacent b n es ≡ true
adjacent_next mem b n lo before p [] e c h link ne touch = absurd (ground arith)
adjacent_next mem b n lo before p (f ∷ []) e c h link ne touch = absurd (ground (arith, c.0, c.4.0))
adjacent_next mem b n lo before p (f ∷ g ∷ es) e c h link ne touch =
    elim (Bool-cases (f.addr == b)) [
      | inl here ↦
          let at_b : p ≡ b = ground (arith, c.0) in
          let next : g.addr ≡ n = ground (arith, c.4.0, at_b) in
          let bound = (start-bounds mem (p + 40 + f.size) p (mem p).next (g ∷ es) c.4).1 in
          ground (arith, at_b, next, c.3.size, bound)
      | inr later ↦
          let rest =
            adjacent_next mem b n (p + 40 + f.size) p (mem p).next (g ∷ es) e c.4 (ground arith)
              link ne touch in
          ground (arith, rest)
    ]

-- The link back of a block of the list is the one into the list, or a block of it.
prev-bounds :
    (mem : Blocks) (b lo before p : ℕ) (es : List Entry) (e : Entry)
    → IsChain mem lo before p es
    → find b es ≡ some e
    → ((p ≡ b) × ((mem b).prev ≡ before)) ⊎ (p ≤ (mem b).prev)
prev-bounds mem b lo before p [] e c h = absurd (ground arith)
prev-bounds mem b lo before p (f ∷ es) e c h = elim (Bool-cases (f.addr == b)) [
  | inl here ↦ inl (ground (arith, c.0), ground (arith, c.0, c.3.prev))
  | inr later ↦
      let rest = prev-bounds mem b (p + 40 + f.size) p (mem p).next es e c.4 (ground arith) in
      let above =
        has-start mem b (p + 40 + f.size) p (mem p).next es
          (find-Says mem b (p + 40 + f.size) p (mem p).next es e (ground arith) c.4).4 c.4 in
      inr (ground (arith, rest, above))
]

-- Following `prev` from a block of the list to a block of the list that ends where it starts.
adjacent_prev :
    (mem : Blocks) (b v lo before p : ℕ) (es : List Entry) (e : Entry)
    → IsChain mem lo before p es
    → find b es ≡ some e
    → (mem b).prev ≡ v
    → v ≢ before
    → meets v b mem ≡ true
    → adjacent v b es ≡ true
adjacent_prev mem b v lo before p [] e c h link ne touch = absurd (ground arith)
adjacent_prev mem b v lo before p (f ∷ []) e c h link ne touch =
    absurd (ground (arith, c.0, c.3.prev))
adjacent_prev mem b v lo before p (f ∷ g ∷ es) e c h link ne touch =
    elim (Bool-cases (g.addr == b)) [
      | inl here ↦
          let at_b : (mem p).next ≡ b = ground (arith, c.4.0) in
          let at_v : p ≡ v = ground (arith, c.4.3.prev, at_b) in
          let bound = (start-bounds mem (p + 40 + f.size) p (mem p).next (g ∷ es) c.4).1 in
          ground (arith, c.0, at_b, at_v, c.3.size, bound)
      | inr later ↦
          let tail : find b (g ∷ es) ≡ some e = ground (arith, c.0, c.3.prev) in
          let back = prev-bounds mem b (p + 40 + f.size) p (mem p).next (g ∷ es) e c.4 tail in
          let above : p + 40 + f.size ≤ v = ground (arith, back, c.4.0, c.4.2) in
          let rest =
            adjacent_prev mem b v (p + 40 + f.size) p (mem p).next (g ∷ es) e c.4 tail link
              (omega arith) touch in
          ground (arith, rest, above, c.0)
    ]

-- Absorbing a free block into a free block.
absorb-SameUse :
    (a b : ℕ) (s s' : Heap) (es : List Entry)
    → IsHeap s es
    → adjacent a b es ≡ true
    → (s.blocks a).is_free ≡ true
    → (s.blocks b).is_free ≡ true
    → s'.blocks ≡ absorb_block a b s.blocks
    → s'.first_block ≡ s.first_block
    → SameUse s' es (absorb_entries a es)
absorb-SameUse a b s s' es c adj fa fb e₁ e₂ = record {
  heap =
      subst₂ (λ (mem : Blocks) (p : ℕ). IsChain mem 1 null p (absorb_entries a es)) (sym e₁)
        (sym e₂) (absorb_block-IsChain s.blocks a b 1 null s.first_block es adj c).0;
  used = used-absorb s.blocks a b 1 null s.first_block es c adj fa fb;
  span = span-absorb a b es adj;
  fits = λ n h. has_fit-absorb s.blocks a b n 1 null s.first_block es c adj fa h;
  kept = λ x h. has-absorb a x es h;
}

find-absorb_self :
    (a b : ℕ) (es : List Entry) (e : Entry)
    → adjacent a b es ≡ true
    → find a es ≡ some e
    → (f : Entry) × (find a (absorb_entries a es) ≡ some f) × (f.is_free ≡ e.is_free)
find-absorb_self a b [] e adj h = absurd (ground arith)
find-absorb_self a b (g ∷ []) e adj h = absurd (ground arith)
find-absorb_self a b (g ∷ k ∷ es) e adj h = elim (Bool-cases (g.addr == a)) [
  | inl here ↦ (entry g.addr (g.size + (40 + k.size)) g.is_free, ground arith, ground arith)
  | inr later ↦
      let rest = find-absorb_self a b (k ∷ es) e (ground arith) (ground arith) in
      (rest.0, ground (arith, rest.1), rest.2)
]

-- The test of each half.
abbrev pub next_test : ℕ → Heap → Bool
next_test b s =
    let next = (s.blocks b).next in
    not (next == null) && (s.blocks next).is_free && meets b next s.blocks

abbrev pub prev_test : ℕ → Heap → Bool
prev_test b s =
    let prev = (s.blocks b).prev in
    not (prev == null) && (s.blocks prev).is_free && meets prev b s.blocks

pub coalesce_next_merges :
    (b : ℕ) (s : Heap)
    → next_test b s ≡ true
    → ((coalesce_next b s).blocks ≡ absorb_block b (s.blocks b).next s.blocks)
      × ((coalesce_next b s).first_block ≡ s.first_block)
unfolding coalesce_next
coalesce_next_merges b s h = rw h (refl, refl)

pub coalesce_prev_merges :
    (b : ℕ) (s : Heap)
    → prev_test b s ≡ true
    → ((coalesce_prev b s).blocks ≡ absorb_block (s.blocks b).prev b s.blocks)
      × ((coalesce_prev b s).first_block ≡ s.first_block)
unfolding coalesce_prev
coalesce_prev_merges b s h = rw h (refl, refl)

pub coalesce_next_stays : (b : ℕ) (s : Heap) → next_test b s ≡ false → coalesce_next b s ≡ s
unfolding coalesce_next
coalesce_next_stays b s h = rw h

pub coalesce_prev_stays : (b : ℕ) (s : Heap) → prev_test b s ≡ false → coalesce_prev b s ≡ s
unfolding coalesce_prev
coalesce_prev_stays b s h = rw h

SameUse-refl : (s s' : Heap) (es : List Entry) → s' ≡ s → IsHeap s es → SameUse s' es es
SameUse-refl s s' es e c = record {
  heap = subst (λ (t : Heap). IsHeap t es) (sym e) c;
  used = refl;
  span = refl;
  fits = λ n h. h;
  kept = λ a h. h;
}

-- The list after a half of `coalesce_block`, in which the block at `b` is still free.
pub record FreeAt (b : ℕ) (es : List Entry) : Type 0 where
  pub here : Entry
  pub found : find b es ≡ some here
  pub free : here.is_free ≡ true

module _ (b : ℕ) (s : Heap) (es : List Entry) (c : IsHeap s es) (at : FreeAt b es) where
  pub is_free_lem : (s.blocks b).is_free ≡ true
  is_free_lem = (find-Says s.blocks b 1 null s.first_block es at.here at.found c).1 ∙ at.free

  pub next_adjacent : next_test b s ≡ true → adjacent b (s.blocks b).next es ≡ true
  next_adjacent h =
      adjacent_next s.blocks b (s.blocks b).next 1 null s.first_block es at.here c at.found refl
        (ground (arith, h)) (ground (arith, h))

  pub prev_adjacent : prev_test b s ≡ true → adjacent (s.blocks b).prev b es ≡ true
  prev_adjacent h =
      adjacent_prev s.blocks b (s.blocks b).prev 1 null s.first_block es at.here c at.found refl
        (ground (arith, h)) (ground (arith, h))

  pub coalesce_next-SameUse : (es' : List Entry) × SameUse (coalesce_next b s) es es' × FreeAt b es'
  coalesce_next-SameUse = elim (Bool-cases (next_test b s)) [
    | inl h ↦
        let n = (s.blocks b).next in
        let adj = next_adjacent h in
        let (done, link) = coalesce_next_merges b s h in
        let still = find-absorb_self b n es at.here adj at.found in
        (
          absorb_entries b es,
          absorb-SameUse b n s (coalesce_next b s) es c adj is_free_lem (ground (arith, h)) done
              link,
          record { here = still.0; found = still.1; free = still.2 ∙ at.free },
        )
    | inr h ↦ (es, SameUse-refl s (coalesce_next b s) es (coalesce_next_stays b s h) c, at)
  ]

  pub coalesce_prev-SameUse : (es' : List Entry) × SameUse (coalesce_prev b s) es es'
  coalesce_prev-SameUse = elim (Bool-cases (prev_test b s)) [
    | inl h ↦
        let v = (s.blocks b).prev in
        let adj = prev_adjacent h in
        let (done, link) = coalesce_prev_merges b s h in
        (
          absorb_entries v es,
          absorb-SameUse v b s (coalesce_prev b s) es c adj (ground (arith, h)) is_free_lem done
              link,
        )
    | inr h ↦ (es, SameUse-refl s (coalesce_prev b s) es (coalesce_prev_stays b s h) c)
  ]

-- Coalescing a free block of the list leaves a well-formed list with the same memory handed out
-- and the same span.
pub coalesce_block-SameUse :
    (b : ℕ) (s : Heap) (es : List Entry) (e : Entry)
    → IsHeap s es
    → find b es ≡ some e
    → e.is_free ≡ true
    → (es' : List Entry) × SameUse (coalesce_block b s) es es'
unfolding coalesce_block
coalesce_block-SameUse b s es e c found free =
    let at : FreeAt b es = record { here = e; found = found; free = free } in
    let (es₁, same₁, at₁) = coalesce_next-SameUse b s es c at in
    let (es₂, same₂) = coalesce_prev-SameUse b (coalesce_next b s) es₁ same₁.heap at₁ in
    let is_free = is_free_lem b s es c at in
    rw is_free (
      es₂,
      record {
        heap = same₂.heap;
        used = same₂.used ∙ same₁.used;
        span = same₂.span ∙ same₁.span;
        fits = λ n h. same₂.fits n (same₁.fits n h);
        kept = λ a h. same₁.kept a (same₂.kept a h);
      },
    )
