-- ===== src/User/View/Split.antt =====
-- `user_allocator::split_block` on the blocks of a well-formed user heap.
use coronel.Base.{
  ℕ, ◌+◌, ◌-◌, ◌^◌, ◌≤◌, ◌<◌, ◌≡◌, refl, true, false, List, [], ◌∷◌, ltb, arith, inr, some, sub32,
  sub64, add64, ◌⊎◌,
}
use coronel.Machine.{null, update}
use coronel.Heap
use coronel.Heap.{Blocks}
use coronel.Heap.Blocks.{insert_block}
use coronel.Heap.Chain.{Entry, IsChain, IsChain-frame, has, span}
use coronel.Heap.Chain.Mark.{find, find-Says}
use coronel.Heap.Chain.Split.{split_entries, insert_block-IsChain}
use coronel.Heap.Chain.Held.{find-end}
use coronel.Heap.Chain.Used.{span-split}
use coronel.Heap.Malloc.{has_room-find}
use coronel.User.{
  UserBlocks, UserHeap, user_block, is_free, set_size, set_next, relinked, block_data,
}
use coronel.User.Blocks.{split_block}
use coronel.User.View.{view, view_magic, IsUserHeap}

-- The free block of a constructor.
pub fresh_flags : (r : ℕ) → (user_block r true).flags ≡ 0xaa000001
unfolding user_block
fresh_flags r = refl

pub fresh_is_free : is_free 0xaa000001 ≡ true
unfolding is_free
fresh_is_free = refl

pub fresh_magic : view_magic 0xaa000001 ≡ Heap.magic_free
unfolding view_magic
fresh_magic = refl

pub fresh_size : (r : ℕ) → (user_block r true).size ≡ r
unfolding user_block
fresh_size r = refl

has-split :
    (b n a : ℕ) (es : List Entry)
    → has a (split_entries b n es) ≡ true
    → (a ≡ b + 40 + n) ⊎ (has a es ≡ true)
has-split b n a [] h = inr h
has-split b n a (e ∷ es) h = ground (arith, h, has-split b n a es)

find-span : (b : ℕ) (es : List Entry) (e : Entry) → find b es ≡ some e → e.size + 40 ≤ span es
find-span b [] e at = absurd (ground (arith, at))
find-span b (f ∷ es) e at = ground (arith, at, find-span b es e)

-- The writes of `split_block`.
abbrev cut_block : ℕ → ℕ → UserBlocks → UserBlocks
cut_block b n mem =
    let new = add64 (block_data b) n in
    let next = (mem b).next in
    let fresh = record (user_block (sub32 (sub32 (mem b).size n) 24) true) {
      next = next;
      prev = b;
    } in
    set_size b n (set_next b new (relinked next new (update mem new fresh)))

split_block_cuts :
    (b n : ℕ) (s : UserHeap)
    → ltb (s.blocks b).size (n + 24 + 16) ≡ false
    → ((split_block b n s).blocks ≡ cut_block b n s.blocks)
      × ((split_block b n s).first_block ≡ s.first_block)
unfolding split_block
split_block_cuts b n s h = rw h (refl, refl)

pub split_block_whole :
    (b n : ℕ) (s : UserHeap) → ltb (s.blocks b).size (n + 24 + 16) ≡ true → split_block b n s ≡ s
unfolding split_block
split_block_whole b n s h = rw h refl

view-cut_block :
    (b n x : ℕ) (mem : UserBlocks)
    → 16 ≤ n
    → n + 40 ≤ (mem b).size
    → (mem b).size < 2 ^ 32
    → b + 24 + n < 2 ^ 64
    → view (cut_block b n mem) x ≡ insert_block b (n - 16) (b + 40 + (n - 16)) (view mem) x
view-cut_block b n x mem ln room small end =
    let at : add64 (block_data b) n ≡ b + 40 + (n - 16) = omega arith in
    let left : sub32 (sub32 (mem b).size n) 24 ≡ (mem b).size - n - 24 = omega arith in
    let left' : sub64 (sub64 ((mem b).size - 16) (n - 16)) 40 ≡ (mem b).size - n - 24 - 16 =
      omega arith in
    ground (
      arith,
      at,
      left,
      left',
      fresh_flags ((mem b).size - n - 24),
      fresh_size ((mem b).size - n - 24),
      fresh_is_free,
      fresh_magic,
    )

cut_block-large :
    (b n x : ℕ) (mem : UserBlocks)
    → 16 ≤ n
    → n + 40 ≤ (mem b).size
    → (mem b).size < 2 ^ 32
    → b + 24 + n < 2 ^ 64
    → (x ≡ b + 24 + n) ⊎ (16 ≤ (mem x).size)
    → 16 ≤ (cut_block b n mem x).size
cut_block-large b n x mem ln room small end large =
    let at : add64 (block_data b) n ≡ b + 24 + n = omega arith in
    let left : sub32 (sub32 (mem b).size n) 24 ≡ (mem b).size - n - 24 = omega arith in
    ground (arith, at, left, fresh_size ((mem b).size - n - 24), large)

cut_block-words :
    (b n x : ℕ) (mem : UserBlocks) → (mem x).flags < 2 ^ 32 → (cut_block b n mem x).flags < 2 ^ 32
cut_block-words b n x mem h = ground (arith, fresh_flags (sub32 (sub32 (mem b).size n) 24), h)

module _ (b n : ℕ) (s : UserHeap) (es : List Entry) (e : Entry) (c : IsUserHeap s es)
    (at : find b es ≡ some e) (ln : 16 ≤ n) where
  pub split_block-IsUserHeap :
      ltb (s.blocks b).size (n + 24 + 16) ≡ false
      → IsUserHeap (split_block b n s) (split_entries b (n - 16) es)
        × (span (split_entries b (n - 16) es) ≡ span es)
  split_block-IsUserHeap h =
      let cuts = split_block_cuts b n s h in
      let says = find-Says (view s.blocks) b 1 null s.first_block es e at c.heap in
      let end = find-end (view s.blocks) b 1 null s.first_block es e c.heap at in
      let lb = c.large b says.4 in
      let room : n + 40 ≤ (s.blocks b).size = ground (arith, h) in
      let small : (s.blocks b).size < 2 ^ 32 =
        omega (arith, says.0, find-span b es e at, c.bounded) in
      let space = has_room-find b (n - 16) es e at (omega (arith, says.0, room)) in
      let spans = span-split b (n - 16) es space in
      let place : b + 24 + n < 2 ^ 64 = omega (arith, says.0, end, room) in
      let mem' = insert_block b (n - 16) (b + 40 + (n - 16)) (view s.blocks) in
      let chain =
        (insert_block-IsChain (view s.blocks) b (n - 16) 1 null s.first_block es space c.heap).0 in
      let seen : IsChain (view (cut_block b n s.blocks)) 1 null s.first_block
          (split_entries b (n - 16) es) =
        IsChain-frame mem' (view (cut_block b n s.blocks)) 1 null s.first_block
          (split_entries b (n - 16) es) (λ x _. view-cut_block b n x s.blocks ln room small place)
          chain in
      (
        record {
          heap = rw (cuts.0, cuts.1) seen;
          large = λ x there. rw cuts.0 (
              cut_block-large b n x s.blocks ln room small place
                (ground (arith, has-split b (n - 16) x es there, c.large x)));
          words = λ x. rw cuts.0 (cut_block-words b n x s.blocks (c.words x));
          bounded = omega (arith, spans, c.bounded);
        },
        spans,
      )
