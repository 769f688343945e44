-- ===== src/Heap/Malloc.antt =====
-- `heap::malloc` when a free block is large enough.
use coronel.Base.{
  ℕ, ◌+◌, ◌^◌, ◌≤◌, ◌<◌, ◌≡◌, ◌≢◌, refl, true, false, ◌&&◌, List, [], ◌∷◌, ◌==◌, leb, ltb,
  if◌then◌else◌, arith, Bool-cases, inl, inr, sym, subst, ap, ap₂, ◌∙◌, some, add64,
}
use mathlib.Core.Path.{subst₂}
use coronel.Config.{align_up}
use coronel.Config.Align.{align_up_lem}
use coronel.Machine.{null}
use coronel.Heap.{Heap, Blocks, block_data, set_mark, magic_used}
use coronel.Heap.Blocks.{malloc, split_block, take_block, insert_block, find_free_block}
use coronel.Heap.Find.{first_fit, find_free_block-first_fit}
use coronel.Heap.Chain.{Entry, entry, IsChain, IsHeap, used, span}
use coronel.Heap.Chain.Split.{split_entries, has_room, insert_block-IsChain}
use coronel.Heap.Chain.Mark.{find, find-Says, has-above, has-start, mark_entries, set_mark-IsChain}
use coronel.Heap.Chain.Held.{find-end}
use coronel.Heap.Chain.Used.{
  used-split, span-split, span-mark, find-split, used-mark_used, insert_used,
}

find-later :
    (b : ℕ) (e f : Entry) (es : List Entry)
    → (e.addr == b) ≡ false
    → find b es ≡ some f
    → find b (e ∷ es) ≡ some f
find-later b e f es apart h = ground (arith, apart, h)

-- First fit finds a free block of the list with room.
pub first_fit-find :
    (mem : Blocks) (size lo before p : ℕ) (es : List Entry)
    → IsChain mem lo before p es
    → first_fit size es ≢ null
    → (e : Entry) × (find (first_fit size es) es ≡ some e) × (e.is_free ≡ true) × (size ≤ e.size)
first_fit-find mem size lo before p [] c h = absurd (h refl)
first_fit-find mem size lo before p (e ∷ es) c h =
    elim (Bool-cases (e.is_free && leb size e.size)) [
      | inl fits ↦ (e, ground arith, ground arith, ground arith)
      | inr later ↦
          let (f, at, fr, room) =
            first_fit-find mem size (p + 40 + e.size) p (mem p).next es c.4 (ground arith) in
          let later_fit : first_fit size (e ∷ es) ≡ first_fit size es = rw later in
          let tail =
            (find-Says mem (first_fit size es) (p + 40 + e.size) p (mem p).next es f at c.4).4 in
          let above =
            has-above mem (first_fit size es) (p + 40 + e.size) p (mem p).next es tail c.4 in
          let start =
            has-start mem (first_fit size es) (p + 40 + e.size) p (mem p).next es tail c.4 in
          let apart : (e.addr == first_fit size es) ≡ false = ground (arith, above, start, c.0) in
          (
            f,
            subst (λ (t : ℕ). find t (e ∷ es) ≡ some f) (sym later_fit)
                (find-later (first_fit size es) e f es apart at),
            fr,
            room,
          )
    ]

pub has_room-find :
    (b size : ℕ) (es : List Entry) (e : Entry)
    → find b es ≡ some e
    → size + 40 ≤ e.size
    → has_room b size es ≡ true
has_room-find b size [] e at room = absurd (ground arith)
has_room-find b size (f ∷ es) e at room = ground (arith, has_room-find b size es e)

pub take_block-heap_size : (b n : ℕ) (s : Heap) → (take_block b n s).1.heap_size ≡ s.heap_size
unfolding take_block split_block
take_block-heap_size b n s = ground arith

-- What `malloc` returns and leaves behind for a block at `b` that takes `size` bytes.
pub record Allocated (b size : ℕ) (es : List Entry) (r : ℕ × Heap) (sz : ℕ) (es' : List Entry)
    : Type 0 where
  pub pointer : r.0 ≡ b + 40
  pub large : size ≤ sz
  pub heap : IsHeap r.1 es'
  pub used : used es' ≡ insert_used b sz (used es)
  pub span : span es' ≡ span es

take_block-parts :
    (b size : ℕ) (s : Heap)
    → ((take_block b size s).0 ≡ block_data b)
      × ((take_block b size s).1.blocks ≡ set_mark b false magic_used (split_block b size s).blocks)
      × ((take_block b size s).1.first_block ≡ (split_block b size s).first_block)
unfolding take_block
take_block-parts b size s = (refl, refl, refl)

pub split_block_whole :
    (b size : ℕ) (s : Heap)
    → size + 56 < 2 ^ 64
    → ltb (s.blocks b).size (size + 56) ≡ true
    → split_block b size s ≡ s
unfolding split_block
split_block_whole b size s small h = let e : add64 size 56 ≡ size + 56 = omega arith in rw (e, h)

pub split_block_cuts :
    (b size : ℕ) (s : Heap)
    → size + 56 < 2 ^ 64
    → b + 40 + size < 2 ^ 64
    → ltb (s.blocks b).size (size + 56) ≡ false
    → ((split_block b size s).blocks ≡ insert_block b size (b + 40 + size) s.blocks)
      × ((split_block b size s).first_block ≡ s.first_block)
unfolding split_block
split_block_cuts b size s small end h =
    let e : add64 size 56 ≡ size + 56 = omega arith in
    let at : add64 (block_data b) size ≡ b + 40 + size = omega arith in rw (e, h, at) (refl, refl)

-- Marking the block at `b` of the list `es₁` that the split has left.
take_marked :
    (b size sz : ℕ) (s : Heap) (es es₁ : List Entry) (e₁ : Entry)
    → IsHeap (split_block b size s) es₁
    → find b es₁ ≡ some e₁
    → e₁.is_free ≡ true
    → e₁.size ≡ sz
    → size ≤ sz
    → used es₁ ≡ used es
    → span es₁ ≡ span es
    → b + 40 < 2 ^ 64
    → Allocated b size es (take_block b size s) sz (mark_entries b false es₁)
take_marked b size sz s es es₁ e₁ c at fr eq large same_used same_span end =
    let parts = take_block-parts b size s in
    let s₁ = split_block b size s in
    let says = find-Says s₁.blocks b 1 null s₁.first_block es₁ e₁ at c in
    let done = set_mark-IsChain s₁.blocks b false 1 null s₁.first_block es₁ says.4 c in
    record {
      pointer = parts.0 ∙ omega arith;
      large = large;
      heap =
          subst₂ (λ (mem : Blocks) (p : ℕ). IsChain mem 1 null p (mark_entries b false es₁))
            (sym parts.1) (sym parts.2) done;
      used =
          used-mark_used s₁.blocks b 1 null s₁.first_block es₁ e₁ c at fr
          ∙ ap₂ (λ (n : ℕ) (us : List (ℕ × ℕ)). insert_used b n us) eq same_used;
      span = span-mark b false es₁ ∙ same_span;
    }

-- The bytes that `malloc` hands out for a request that was rounded up to `size`.
abbrev pub cut : ℕ → ℕ → ℕ
cut size have = if ltb have (size + 56) then have else size

module _ (b size : ℕ) (s : Heap) (es : List Entry) (e : Entry) (c : IsHeap s es)
    (at : find b es ≡ some e) (fr : e.is_free ≡ true) (room : size ≤ e.size)
    (small : size + 56 < 2 ^ 64) (end : b + 40 + size < 2 ^ 64) where
  pub take_whole :
      ltb (s.blocks b).size (size + 56) ≡ true
      → Allocated b size es (take_block b size s) e.size (mark_entries b false es)
  take_whole h =
      take_marked b size e.size s es es e
        (subst (λ (t : Heap). IsHeap t es) (sym (split_block_whole b size s small h)) c) at fr refl
        room refl refl (omega arith)

  pub take_split :
      ltb (s.blocks b).size (size + 56) ≡ false
      → Allocated b size es
          (take_block b size s)
          size
          (mark_entries b false (split_entries b size es))
  take_split h =
      let cuts = split_block_cuts b size s small end h in
      let says = find-Says s.blocks b 1 null s.first_block es e at c in
      let space = has_room-find b size es e at (ground (arith, says.0, h)) in
      let c₁ = (insert_block-IsChain s.blocks b size 1 null s.first_block es space c).0 in
      take_marked b size size s es (split_entries b size es) (entry b size e.is_free)
        (subst₂ (λ (mem : Blocks) (p : ℕ). IsChain mem 1 null p (split_entries b size es))
          (sym cuts.0) (sym cuts.1) c₁)
        (find-split b size es e at) fr refl (omega arith) (used-split b size es e at fr)
        (span-split b size es space) (omega arith)

  pub take_block-Allocated :
      (es' : List Entry) × Allocated b size es (take_block b size s) (cut size e.size) es'
  take_block-Allocated =
      let says = find-Says s.blocks b 1 null s.first_block es e at c in
      elim (Bool-cases (ltb (s.blocks b).size (size + 56))) [
        | inl whole ↦
            let k : cut size e.size ≡ e.size = ground (arith, says.0, whole) in
            (
              mark_entries b false es,
              subst
                  (λ (sz : ℕ).
                    Allocated b size es (take_block b size s) sz (mark_entries b false es))
                  (sym k) (take_whole whole),
            )
        | inr cuts ↦
            let k : cut size e.size ≡ size = ground (arith, says.0, cuts) in
            (
              mark_entries b false (split_entries b size es),
              subst
                  (λ (sz : ℕ).
                    Allocated b size es (take_block b size s) sz
                      (mark_entries b false (split_entries b size es)))
                  (sym k) (take_split cuts),
            )
      ]

pub malloc_enters :
    (size : ℕ) (s : Heap)
    → size ≢ 0
    → find_free_block (align_up size) s ≢ null
    → malloc size s ≡ take_block (find_free_block (align_up size) s) (align_up size) s
unfolding malloc
malloc_enters size s ne found =
    let not_zero : (size == 0) ≡ false = ground arith in
    let not_null : (find_free_block (align_up size) s == null) ≡ false = ground arith in
    rw (not_zero, not_null)

-- On a well-formed block list that fits the size of a heap that is not empty, when some free block
-- has room for the request rounded up to pages, and the request is for at least one byte and not
-- near the size of the address space, `malloc` takes the first such block: the pointer is to its
-- data, the list stays well-formed over the same span, and what is handed out grows by that block,
-- with at least the bytes asked for.
pub malloc-first_fit :
    (size b : ℕ) (s : Heap) (es : List Entry)
    → IsHeap s es
    → span es ≤ s.heap_size
    → 0 < s.heap_size
    → size ≢ 0
    → size + 4096 + 56 < 2 ^ 64
    → first_fit (align_up size) es ≡ b
    → b ≢ null
    → ((malloc size s).0 ≡ b + 40)
      × (sz : ℕ) × (es' : List Entry) × (size ≤ sz)
      × IsHeap (malloc size s).1 es'
      × (used es' ≡ insert_used b sz (used es))
      × (span es' ≡ span es)
malloc-first_fit size b s es c fits positive ne small at found =
    let up = align_up_lem size (omega arith) in
    let n = align_up size in
    let finds : find_free_block n s ≡ b = find_free_block-first_fit n s es c fits positive ∙ at in
    let (e, located, fr, room) =
      first_fit-find s.blocks n 1 null s.first_block es c (ground (arith, at)) in
    let run : malloc size s ≡ take_block b n s =
      malloc_enters size s ne (ground (arith, finds)) ∙ ap (λ (t : ℕ). take_block t n s) finds in
    let there = subst (λ (t : ℕ). find t es ≡ some e) at located in
    let end = find-end s.blocks b 1 null s.first_block es e c there in
    let (es', done) =
      take_block-Allocated b n s es e c there fr room (omega arith) (omega (arith, end, room)) in
    let enough : size ≤ cut n e.size = ground (arith, done.large, up) in
    (
      ap (λ (r : ℕ × Heap). r.0) run ∙ done.pointer,
      cut n e.size,
      es',
      enough,
      subst (λ (r : ℕ × Heap). IsHeap r.1 es') (sym run) done.heap,
      done.used,
      done.span,
    )
