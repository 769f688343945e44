-- ===== src/Heap/Chain/Held.antt =====
-- Looking up what is handed out by the address of its block.
use coronel.Base.{
  ℕ, ◌+◌, ◌≤◌, ◌<◌, ◌≡◌, ◌^◌, refl, false, not, ◌&&◌, List, [], ◌∷◌, ◌==◌, if◌then◌else◌, arith,
  Bool-cases, inl, inr, Option, none, some, ap, subst, Option-cases,
}
use coronel.Heap.{Blocks}
use coronel.Heap.Chain.{Entry, entry, IsChain, used, start-bounds}
use coronel.Heap.Chain.Mark.{find}
use coronel.Heap.Chain.Used.{insert_used, remove_used, find-above}

-- The size that the list has at an address.
abbrev pub size_at : ℕ → List (ℕ × ℕ) → Option ℕ
size_at a [] = none
size_at a ((b, n) ∷ us) = if b == a then some n else size_at a us

pub size_at-insert :
    (a b sz : ℕ) (us : List (ℕ × ℕ))
    → (a == b) ≡ false
    → size_at a (insert_used b sz us) ≡ size_at a us
size_at-insert a b sz [] ne = ground arith
size_at-insert a b sz ((c, n) ∷ us) ne = ground (arith, size_at-insert a b sz us ne)

pub size_at-inserted :
    (b sz : ℕ) (us : List (ℕ × ℕ)) → size_at b us ≡ none → size_at b (insert_used b sz us) ≡ some sz
size_at-inserted b sz [] h = ground arith
size_at-inserted b sz ((c, n) ∷ us) h = ground (arith, size_at-inserted b sz us)

pub size_at-remove :
    (a b : ℕ) (us : List (ℕ × ℕ)) → (a == b) ≡ false → size_at a (remove_used b us) ≡ size_at a us
size_at-remove a b [] ne = refl
size_at-remove a b ((c, n) ∷ us) ne = ground (arith, size_at-remove a b us ne)

-- What is handed out is a block in use of the list.
pub size_at-find :
    (mem : Blocks) (a n lo before p : ℕ) (es : List Entry)
    → IsChain mem lo before p es
    → size_at a (used es) ≡ some n
    → find a es ≡ some (entry a n false)
size_at-find mem a n lo before p [] c h = absurd (ground arith)
size_at-find mem a n lo before p (e ∷ es) c h = elim (Bool-cases e.is_free) [
  | inl free ↦
      let tail =
        size_at-find mem a n (p + 40 + e.size) p (mem p).next es c.4 (ground (arith, h, free)) in
      let above = find-above mem a (p + 40 + e.size) p (mem p).next es (entry a n false) c.4 tail in
      let elsewhere : (e.addr == a) ≡ false = ground (arith, above, c.0) in rw elsewhere tail
  | inr taken ↦ elim (Bool-cases (e.addr == a)) [
    | inl here ↦
        let same : e ≡ entry a n false = ground (arith, h, taken, here) in
        rw here (ap (λ (x : Entry). some x) same)
    | inr elsewhere ↦ rw elsewhere (
        size_at-find mem a n (p + 40 + e.size) p (mem p).next es c.4
          (ground (arith, h, taken, elsewhere)))
  ]
]

-- Two blocks that are handed out do not overlap.
pub size_at-apart :
    (mem : Blocks) (a b n m lo before p : ℕ) (es : List Entry)
    → IsChain mem lo before p es
    → size_at a (used es) ≡ some n
    → size_at b (used es) ≡ some m
    → a < b
    → a + 40 + n ≤ b
size_at-apart mem a b n m lo before p [] c ha hb less = absurd (ground arith)
size_at-apart mem a b n m lo before p (e ∷ es) ch ha hb less =
    let lo' = p + 40 + e.size in
    let above : (c : ℕ) → (k : ℕ) → size_at c (used es) ≡ some k → lo' ≤ c = λ c k h.
      find-above mem c lo' p (mem p).next es (entry c k false) ch.4
        (size_at-find mem c k lo' p (mem p).next es ch.4 h) in
    elim (Bool-cases (not e.is_free && (e.addr == a))) [
      | inl here ↦
          let far = above b m (ground (arith, hb, here)) in ground (arith, ha, here, far, ch.0)
      | inr elsewhere ↦
          let later_a : size_at a (used es) ≡ some n = ground (arith, ha) in
          let far = above a n later_a in
          let later_b : size_at b (used es) ≡ some m = ground (arith, hb, far, ch.0) in
          size_at-apart mem a b n m lo' p (mem p).next es ch.4 later_a later_b less
    ]

-- Every block ends within the address space.
pub find-end :
    (mem : Blocks) (b lo before p : ℕ) (es : List Entry) (e : Entry)
    → IsChain mem lo before p es
    → find b es ≡ some e
    → b + 40 + e.size < 2 ^ 64
find-end mem b lo before p [] e c h = absurd (ground arith)
find-end mem b lo before p (f ∷ es) e c h = elim (Bool-cases (f.addr == b)) [
  | inl here ↦
      let end = (start-bounds mem (p + 40 + f.size) p (mem p).next es c.4).1 in
      let same : f ≡ e = ground (arith, h, here) in
      let size : f.size ≡ e.size = ap (λ (x : Entry). x.size) same in
      ground (arith, c.0, here, size, end)
  | inr elsewhere ↦
      find-end mem b (p + 40 + f.size) p (mem p).next es e c.4 (ground (arith, h, elsewhere))
]

-- Nothing in front of a chain is handed out.
size_at-front :
    (mem : Blocks) (b lo before p : ℕ) (es : List Entry)
    → IsChain mem lo before p es
    → b < lo
    → size_at b (used es) ≡ none
size_at-front mem b lo before p es c front = elim (Option-cases (size_at b (used es))) [
  | inl out ↦ out
  | inr (n, there) ↦
      let found = size_at-find mem b n lo before p es c there in
      let above = find-above mem b lo before p es (entry b n false) c found in absurd (omega arith)
]

-- A block in use is handed out, and a free block is not.
pub find-size_at :
    (mem : Blocks) (b lo before p : ℕ) (es : List Entry) (e : Entry)
    → IsChain mem lo before p es
    → find b es ≡ some e
    → size_at b (used es) ≡ (if e.is_free then none else some e.size)
find-size_at mem b lo before p [] e c h = absurd (ground arith)
find-size_at mem b lo before p (f ∷ es) e c h =
    let lo' = p + 40 + f.size in
    elim (Bool-cases (f.addr == b)) [
      | inl here ↦
          let same : f ≡ e = ground (arith, h, here) in
          let front = size_at-front mem b lo' p (mem p).next es c.4 (ground (arith, c.0, here)) in
          subst
            (λ (x : Entry). size_at b (used (f ∷ es)) ≡ (if x.is_free then none else some x.size))
            same (ground (arith, front, here))
      | inr elsewhere ↦
          let rest =
            find-size_at mem b lo' p (mem p).next es e c.4 (ground (arith, h, elsewhere)) in
          ground (arith, rest, elsewhere)
    ]
