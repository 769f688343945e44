-- ===== src/User/View/Coalesce.antt =====
-- `coalesce_block` of a user heap.
use coronel.Base.{
  ℕ, ◌+◌, ◌-◌, ◌^◌, ◌≤◌, ◌<◌, ◌≡◌, refl, Bool, true, false, not, ◌&&◌, List, ◌==◌, arith,
  Bool-cases, inl, inr, sym, subst, ap, ◌∙◌, some, ◌⊎◌, add64, add32,
}
use coronel.Machine.{null}
use coronel.Heap
use coronel.Heap.{Blocks}
use coronel.Heap.Blocks
use coronel.Heap.Chain.{Entry, has}
use coronel.Heap.Chain.Mark.{find}
use coronel.Heap.Chain.Merge.{adjacent}
use coronel.User.{UserBlocks, UserHeap, is_free}
use coronel.User
use coronel.User.Blocks.{absorb_block, coalesce_next, coalesce_prev, coalesce_block}
use coronel.Heap.Chain.Mark.{find-Says}
use coronel.Heap.Chain.Used.{adjacent-span, prev-has}
use coronel.Heap.Coalesce.{
  SameUse, FreeAt, next_test, prev_test, next_adjacent, prev_adjacent, coalesce_next_merges,
  coalesce_prev_merges, coalesce_next_stays, coalesce_prev_stays, coalesce_next-SameUse,
  coalesce_prev-SameUse, is_free_lem,
}
use coronel.User.Laws.{coalesce_next-flags, coalesce_prev-flags}
use coronel.User.View.{view, as_kernel, IsUserHeap, Agrees, Agrees-IsHeap}

-- Absorbing is the same in both views.
view-absorb_block :
    (a b x : ℕ) (mem : UserBlocks)
    → 16 ≤ (mem a).size
    → 16 ≤ (mem b).size
    → (mem a).size + 24 + (mem b).size < 2 ^ 32
    → view (absorb_block a b mem) x ≡ Blocks.absorb_block a b (view mem) x
view-absorb_block a b x mem la lb small =
    let size : add32 (mem a).size (24 + (mem b).size) - 16
        ≡ add64 ((mem a).size - 16) (add64 40 ((mem b).size - 16)) =
      omega arith in
    ground (arith, size)

-- The block that takes in another is not smaller than before.
absorb_keeps :
    (a b x : ℕ) (mem : UserBlocks)
    → 16 ≤ (mem x).size
    → (mem a).size + 24 + (mem b).size < 2 ^ 32
    → 16 ≤ (absorb_block a b mem x).size
absorb_keeps a b x mem lx small = ground (arith, lx, small)

-- Where a block ends.
view-meets :
    (a b : ℕ) (mem : UserBlocks)
    → 16 ≤ (mem a).size
    → Blocks.meets a b (view mem) ≡ (add64 (User.block_data a) (mem a).size == b)
view-meets a b mem la =
    let e : add64 (Heap.block_data a) ((mem a).size - 16) ≡ add64 (User.block_data a) (mem a).size =
      omega arith in
    ap (λ (t : ℕ). t == b) e

-- The tests of the two halves.
abbrev user_next_test : ℕ → UserHeap → Bool
user_next_test b s =
    let next = (s.blocks b).next in
    not (next == null)
    && is_free (s.blocks next).flags
    && (add64 (User.block_data b) (s.blocks b).size == next)

abbrev user_prev_test : ℕ → UserHeap → Bool
user_prev_test b s =
    let prev = (s.blocks b).prev in
    not (prev == null)
    && is_free (s.blocks prev).flags
    && (add64 (User.block_data prev) (s.blocks prev).size == b)

user_next_test_eq :
    (b : ℕ) (s : UserHeap) → 16 ≤ (s.blocks b).size → user_next_test b s ≡ next_test b (as_kernel s)
user_next_test_eq b s lb = ground (arith, view-meets b (s.blocks b).next s.blocks lb)

user_prev_test_eq :
    (b : ℕ) (s : UserHeap)
    → ((s.blocks b).prev ≡ null) ⊎ (16 ≤ (s.blocks (s.blocks b).prev).size)
    → user_prev_test b s ≡ prev_test b (as_kernel s)
user_prev_test_eq b s (inl first) = ground (arith, first)
user_prev_test_eq b s (inr lp) = ground (arith, view-meets (s.blocks b).prev b s.blocks lp)

-- The blocks of a merged heap.
absorbed-Agrees :
    (a b : ℕ) (s s' : UserHeap) (t : Heap.Heap) (es : List Entry)
    → IsUserHeap s es
    → adjacent a b es ≡ true
    → s'.blocks ≡ absorb_block a b s.blocks
    → t.blocks ≡ Blocks.absorb_block a b (view s.blocks)
    → s'.first_block ≡ t.first_block
    → Agrees s' t × ((x : ℕ) → has x es ≡ true → 16 ≤ (s'.blocks x).size)
absorbed-Agrees a b s s' t es c adj e₁ e₂ first =
    let facts = adjacent-span (view s.blocks) a b 1 null s.first_block es c.heap adj in
    let la = c.large a facts.0 in
    let lb = c.large b facts.1 in
    let small : (s.blocks a).size + 24 + (s.blocks b).size < 2 ^ 32 =
      omega (arith, facts.2, c.bounded) in
    (
      record {
        blocks = λ x.
            ap (λ (mem : UserBlocks). view mem x) e₁
            ∙ view-absorb_block a b x s.blocks la lb small
            ∙ ap (λ (mem : Heap.Blocks). mem x) (sym e₂);
        first_block = first;
      },
      λ x h.
          subst (λ (mem : UserBlocks). 16 ≤ (mem x).size) (sym e₁)
            (absorb_keeps a b x s.blocks (c.large x h) small),
    )

-- A user heap with the blocks of a kernel heap that has been coalesced.
settled :
    (s s' : UserHeap) (t : Heap.Heap) (es es' : List Entry)
    → IsUserHeap s es
    → Agrees s' t
    → ((x : ℕ) → has x es ≡ true → 16 ≤ (s'.blocks x).size)
    → ((x : ℕ) → (s'.blocks x).flags ≡ (s.blocks x).flags)
    → SameUse t es es'
    → IsUserHeap s' es' × SameUse (as_kernel s') es es'
settled s s' t es es' c agrees large flags same =
    let heap = Agrees-IsHeap s' t es' agrees same.heap in
    (
      record {
        heap = heap;
        large = λ x h. large x (same.kept x h);
        words = λ x. omega (arith, flags x, c.words x);
        bounded = omega (arith, same.span, c.bounded);
      },
      record {
        heap = heap;
        used = same.used;
        span = same.span;
        fits = same.fits;
        kept = same.kept;
      },
    )

stays-Agrees :
    (s s' : UserHeap) (t : Heap.Heap) (es : List Entry)
    → IsUserHeap s es
    → s' ≡ s
    → t ≡ as_kernel s
    → Agrees s' t × ((x : ℕ) → has x es ≡ true → 16 ≤ (s'.blocks x).size)
stays-Agrees s s' t es c e₁ e₂ =
    rw (e₁, e₂) (record { blocks = λ a. refl; first_block = refl }, c.large)

module _ (b : ℕ) (s : UserHeap) (es : List Entry) (c : IsUserHeap s es) (at : FreeAt b es) where
  is_there : has b es ≡ true
  is_there = (find-Says (view s.blocks) b 1 null s.first_block es at.here at.found c.heap).4

  coalesce_next-Agrees :
      Agrees (coalesce_next b s) (Blocks.coalesce_next b (as_kernel s))
      × ((x : ℕ) → has x es ≡ true → 16 ≤ ((coalesce_next b s).blocks x).size)
  unfolding coalesce_next
  coalesce_next-Agrees =
      let same = user_next_test_eq b s (c.large b is_there) in
      elim (Bool-cases (next_test b (as_kernel s))) [
        | inl h ↦
            let (done, link) = coalesce_next_merges b (as_kernel s) h in
            let test : user_next_test b s ≡ true = same ∙ h in
            absorbed-Agrees b (s.blocks b).next s (coalesce_next b s)
              (Blocks.coalesce_next b (as_kernel s)) es c
              (next_adjacent b (as_kernel s) es c.heap at h) (rw test refl) done
              (rw test (sym link))
        | inr h ↦
            let test : user_next_test b s ≡ false = same ∙ h in
            stays-Agrees s (coalesce_next b s) (Blocks.coalesce_next b (as_kernel s)) es c
              (rw test refl) (coalesce_next_stays b (as_kernel s) h)
      ]

  coalesce_prev-Agrees :
      Agrees (coalesce_prev b s) (Blocks.coalesce_prev b (as_kernel s))
      × ((x : ℕ) → has x es ≡ true → 16 ≤ ((coalesce_prev b s).blocks x).size)
  unfolding coalesce_prev
  coalesce_prev-Agrees =
      let back : ((s.blocks b).prev ≡ null) ⊎ (16 ≤ (s.blocks (s.blocks b).prev).size) =
        elim (prev-has (view s.blocks) b 1 null s.first_block es c.heap is_there) [
          | inl first ↦ inl first
          | inr there ↦ inr (c.large (s.blocks b).prev there)
        ] in
      let same = user_prev_test_eq b s back in
      elim (Bool-cases (prev_test b (as_kernel s))) [
        | inl h ↦
            let (done, link) = coalesce_prev_merges b (as_kernel s) h in
            let test : user_prev_test b s ≡ true = same ∙ h in
            absorbed-Agrees (s.blocks b).prev b s (coalesce_prev b s)
              (Blocks.coalesce_prev b (as_kernel s)) es c
              (prev_adjacent b (as_kernel s) es c.heap at h) (rw test refl) done
              (rw test (sym link))
        | inr h ↦
            let test : user_prev_test b s ≡ false = same ∙ h in
            stays-Agrees s (coalesce_prev b s) (Blocks.coalesce_prev b (as_kernel s)) es c
              (rw test refl) (coalesce_prev_stays b (as_kernel s) h)
      ]

-- Coalescing a free block of a user heap leaves a well-formed list with the same memory handed out.
pub coalesce_block-IsUserHeap :
    (b : ℕ) (s : UserHeap) (es : List Entry) (e : Entry)
    → IsUserHeap s es
    → find b es ≡ some e
    → e.is_free ≡ true
    → (es' : List Entry) × IsUserHeap (coalesce_block b s) es'
      × SameUse (as_kernel (coalesce_block b s)) es es'
unfolding coalesce_block
coalesce_block-IsUserHeap b s es e c found free =
    let at : FreeAt b es = record { here = e; found = found; free = free } in
    let marked : is_free (s.blocks b).flags ≡ true = is_free_lem b (as_kernel s) es c.heap at in
    let s₁ = coalesce_next b s in
    let (es₁, same₁, at₁) = coalesce_next-SameUse b (as_kernel s) es c.heap at in
    let (agrees₁, large₁) = coalesce_next-Agrees b s es c at in
    let (c₁, use₁) =
      settled s s₁ (Blocks.coalesce_next b (as_kernel s)) es es₁ c agrees₁ large₁
        (λ x. coalesce_next-flags b x s) same₁ in
    let s₂ = coalesce_prev b s₁ in
    let (es₂, same₂) = coalesce_prev-SameUse b (as_kernel s₁) es₁ c₁.heap at₁ in
    let (agrees₂, large₂) = coalesce_prev-Agrees b s₁ es₁ c₁ at₁ in
    let (c₂, use₂) =
      settled s₁ s₂ (Blocks.coalesce_prev b (as_kernel s₁)) es₁ es₂ c₁ agrees₂ large₂
        (λ x. coalesce_prev-flags b x s₁) same₂ in
    rw marked (
      es₂,
      c₂,
      record {
        heap = c₂.heap;
        used = use₂.used ∙ use₁.used;
        span = use₂.span ∙ use₁.span;
        fits = λ n h. use₂.fits n (use₁.fits n h);
        kept = λ a h. use₁.kept a (use₂.kept a h);
      },
    )
