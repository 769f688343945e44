-- ===== src/Heap/Chain/Used.antt =====
-- What splitting, marking and merging do to the memory that is handed out.
use coronel.Base.{
  ℕ, ◌+◌, ◌≤◌, ◌<◌, ◌≡◌, refl, Bool, true, false, List, [], ◌∷◌, ◌==◌, ltb, leb, ◌&&◌, ◌||◌,
  if◌then◌else◌, arith, Bool-cases, inl, inr, some, ◌⊎◌,
}
use coronel.Heap.{Blocks}
use coronel.Heap.Chain.{Entry, entry, IsChain, has, used, span}
use coronel.Heap.Chain.Split.{split_entries, has_room}
use coronel.Heap.Chain.Mark.{mark_entries, find, find-Says, has-above, has-start}
use coronel.Heap.Chain.Merge.{absorb_entries, adjacent}

-- A block among others, in address order.
abbrev pub insert_used : ℕ → ℕ → List (ℕ × ℕ) → List (ℕ × ℕ)
insert_used b sz [] = (b, sz) ∷ []
insert_used b sz ((a, n) ∷ us) =
    if ltb b a then (b, sz) ∷ (a, n) ∷ us else (a, n) ∷ insert_used b sz us

abbrev pub remove_used : ℕ → List (ℕ × ℕ) → List (ℕ × ℕ)
remove_used b [] = []
remove_used b ((a, n) ∷ us) = if a == b then us else (a, n) ∷ remove_used b us

pub used-split :
    (b size : ℕ) (es : List Entry) (e : Entry)
    → find b es ≡ some e
    → e.is_free ≡ true
    → used (split_entries b size es) ≡ used es
used-split b size [] e h fr = refl
used-split b size (f ∷ es) e h fr = ground (arith, used-split b size es e)

pub span-split :
    (b size : ℕ) (es : List Entry)
    → has_room b size es ≡ true
    → span (split_entries b size es) ≡ span es
span-split b size [] h = refl
span-split b size (f ∷ es) h = ground (arith, span-split b size es)

pub span-mark : (b : ℕ) (free : Bool) (es : List Entry) → span (mark_entries b free es) ≡ span es
span-mark b free [] = refl
span-mark b free (f ∷ es) = ground (arith, span-mark b free es)

pub used-mark_free :
    (b : ℕ) (es : List Entry) (e : Entry)
    → find b es ≡ some e
    → e.is_free ≡ false
    → used (mark_entries b true es) ≡ remove_used b (used es)
used-mark_free b [] e h fr = refl
used-mark_free b (f ∷ es) e h fr = ground (arith, used-mark_free b es e)

pub find-mark :
    (b : ℕ) (free : Bool) (es : List Entry) (e : Entry)
    → find b es ≡ some e
    → find b (mark_entries b free es) ≡ some (entry b e.size free)
find-mark b free [] e h = absurd (ground arith)
find-mark b free (f ∷ es) e h = ground (arith, find-mark b free es e)

pub find-split :
    (b size : ℕ) (es : List Entry) (e : Entry)
    → find b es ≡ some e
    → find b (split_entries b size es) ≡ some (entry b size e.is_free)
find-split b size [] e h = absurd (ground arith)
find-split b size (f ∷ es) e h = ground (arith, find-split b size es e)

-- Everything handed out in a chain lies at its start or behind.
insert_used_front :
    (mem : Blocks) (b sz lo before p : ℕ) (es : List Entry)
    → IsChain mem lo before p es
    → b < lo
    → insert_used b sz (used es) ≡ (b, sz) ∷ used es
insert_used_front mem b sz lo before p [] c h = refl
insert_used_front mem b sz lo before p (e ∷ es) c h =
    ground (arith, insert_used_front mem b sz (p + 40 + e.size) p (mem p).next es c.4)

pub find-above :
    (mem : Blocks) (b lo before p : ℕ) (es : List Entry) (e : Entry)
    → IsChain mem lo before p es
    → find b es ≡ some e
    → lo ≤ b
find-above mem b lo before p es e c h =
    let there = (find-Says mem b lo before p es e h c).4 in
    omega (arith, has-above mem b lo before p es there c, has-start mem b lo before p es there c)

pub used-mark_used :
    (mem : Blocks) (b lo before p : ℕ) (es : List Entry) (e : Entry)
    → IsChain mem lo before p es
    → find b es ≡ some e
    → e.is_free ≡ true
    → used (mark_entries b false es) ≡ insert_used b e.size (used es)
used-mark_used mem b lo before p [] e c h fr = absurd (ground arith)
used-mark_used mem b lo before p (f ∷ es) e c h fr = elim (Bool-cases (f.addr == b)) [
  | inl here ↦
      ground (arith, insert_used_front mem b e.size (p + 40 + f.size) p (mem p).next es c.4, c.0)
  | inr later ↦
      let tail = used-mark_used mem b (p + 40 + f.size) p (mem p).next es e c.4 (ground arith) fr in
      let above : p < b =
        omega (arith, find-above mem b (p + 40 + f.size) p (mem p).next es e c.4 (ground arith)) in
      ground (arith, tail, c.0, above)
]

-- A free block absorbs a free block: nothing that is handed out changes.
pub used-absorb :
    (mem : Blocks) (a b lo before p : ℕ) (es : List Entry)
    → IsChain mem lo before p es
    → adjacent a b es ≡ true
    → (mem a).is_free ≡ true
    → (mem b).is_free ≡ true
    → used (absorb_entries a es) ≡ used es
used-absorb mem a b lo before p [] c adj fa fb = refl
used-absorb mem a b lo before p (g ∷ []) c adj fa fb = refl
used-absorb mem a b lo before p (g ∷ h ∷ es) c adj fa fb = elim (Bool-cases (g.addr == a)) [
  | inl here ↦
      let at_a : p ≡ a = ground (arith, c.0) in
      let at_b : (mem p).next ≡ b = ground (arith, c.4.0) in
      let free_a : g.is_free ≡ true = ground (arith, c.3.is_free) in
      let free_b : h.is_free ≡ true = ground (arith, c.4.3.is_free) in ground arith
  | inr later ↦
      let tail =
        used-absorb mem a b (p + 40 + g.size) p (mem p).next (h ∷ es) c.4 (ground arith) fa fb in
      ground (arith, tail)
]

pub span-absorb :
    (a b : ℕ) (es : List Entry) → adjacent a b es ≡ true → span (absorb_entries a es) ≡ span es
span-absorb a b [] adj = refl
span-absorb a b (g ∷ []) adj = refl
span-absorb a b (g ∷ h ∷ es) adj = ground (arith, span-absorb a b (h ∷ es))

-- Some free block has room for `n` bytes.
abbrev pub has_fit : ℕ → List Entry → Bool
has_fit n [] = false
has_fit n (e ∷ es) = (e.is_free && leb n e.size) || has_fit n es

-- A free block that takes in another has room for what either had room for.
pub has_fit-absorb :
    (mem : Blocks) (a b n lo before p : ℕ) (es : List Entry)
    → IsChain mem lo before p es
    → adjacent a b es ≡ true
    → (mem a).is_free ≡ true
    → has_fit n es ≡ true
    → has_fit n (absorb_entries a es) ≡ true
has_fit-absorb mem a b n lo before p [] c adj fa h = h
has_fit-absorb mem a b n lo before p (g ∷ []) c adj fa h = h
has_fit-absorb mem a b n lo before p (g ∷ k ∷ es) c adj fa h = elim (Bool-cases (g.addr == a)) [
  | inl here ↦
      let at_a : p ≡ a = ground (arith, c.0) in
      let free_a : g.is_free ≡ true = ground (arith, c.3.is_free) in ground (arith, h)
  | inr later ↦
      let tail =
        has_fit-absorb mem a b n (p + 40 + g.size) p (mem p).next (k ∷ es) c.4 (ground arith) fa in
      ground (arith, tail, h)
]

-- Absorbing leaves no new block.
pub has-absorb : (b a : ℕ) (es : List Entry) → has a (absorb_entries b es) ≡ true → has a es ≡ true
has-absorb b a [] h = h
has-absorb b a (g ∷ []) h = h
has-absorb b a (g ∷ k ∷ es) h = ground (arith, has-absorb b a (k ∷ es), h)

-- Two neighbours are in the list, which spans both.
pub adjacent-span :
    (mem : Blocks) (a b lo before p : ℕ) (es : List Entry)
    → IsChain mem lo before p es
    → adjacent a b es ≡ true
    → (has a es ≡ true) × (has b es ≡ true) × ((mem a).size + (mem b).size + 80 ≤ span es)
adjacent-span mem a b lo before p [] c adj = absurd (ground (arith, adj))
adjacent-span mem a b lo before p (g ∷ []) c adj = absurd (ground (arith, adj))
adjacent-span mem a b lo before p (g ∷ k ∷ es) c adj = elim (Bool-cases (g.addr == a)) [
  | inl here ↦
      let at_a : p ≡ a = ground (arith, c.0) in
      let at_b : (mem p).next ≡ b = ground (arith, c.4.0, adj, here) in
      (
        ground (arith, here),
        ground (arith, adj, here),
        ground (arith, c.3.size, c.4.3.size, at_a, at_b),
      )
  | inr later ↦
      let rest =
        adjacent-span mem a b (p + 40 + g.size) p (mem p).next (k ∷ es) c.4 (ground (arith, adj)) in
      (ground (arith, rest), ground (arith, rest), omega (arith, rest.2))
]

-- The link back of a block of the list leads to a block of the list, or is that of the first.
pub prev-has :
    (mem : Blocks) (b lo before p : ℕ) (es : List Entry)
    → IsChain mem lo before p es
    → has b es ≡ true
    → ((mem b).prev ≡ before) ⊎ (has (mem b).prev es ≡ true)
prev-has mem b lo before p [] c h = absurd (ground (arith, h))
prev-has mem b lo before p (e ∷ es) c h = elim (Bool-cases (e.addr == b)) [
  | inl here ↦ inl (ground (arith, c.0, c.3.prev, here))
  | inr later ↦
      let rest =
        prev-has mem b (p + 40 + e.size) p (mem p).next es c.4 (ground (arith, h, later)) in
      inr (ground (arith, rest, c.0))
]
