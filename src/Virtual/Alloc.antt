-- ===== src/Virtual/Alloc.antt =====
-- `virt::alloc(size_t)`: first fit, as an equation on every address.
use coronel.Base.{
  ℕ, ◌+◌, ◌<◌, ◌≡◌, refl, Bool, true, false, ◌&&◌, ◌||◌, not, List, [], ◌∷◌, ltb, leb, ◌==◌, arith,
  sub64, add64, ◌-◌, sym, subst, ap, ◌∙◌, ◌⊎◌, Bool-cases, inl, inr,
}
use coronel.Config.{align_up}
use coronel.Machine.{Machine, null}
use coronel.Virtual.{Node, vaddr_size, take_first, alloc, create}
use coronel.Virtual.Regions.{inside, count, IsBounded, inside-add}

-- Some live region is large enough.
abbrev pub has_fit : ℕ → List Node → Bool
has_fit size [] = false
has_fit size (n ∷ ns) = (not (n.size == 0) && leb size n.size) || has_fit size ns

-- What a run over `ns` with the result `r` has done, for each address.
abbrev Taken : ℕ → List Node → ℕ × List Node → ℕ → Type 0
Taken size ns r x = (count x r.1 + inside x r.0 size ≡ count x ns) × IsBounded r.1

take_first_here :
    (x size : ℕ) (n : Node) (ns : List Node)
    → IsBounded (n ∷ ns)
    → ((n.size == 0) || ltb n.size size) ≡ false
    → Taken size (n ∷ ns) (take_first size (n ∷ ns)) x
unfolding take_first
take_first_here x size n ns b live = elim (Bool-cases (n.size == size)) [
  | inl whole ↦ rw (live, whole) (ground arith, ground arith)
  | inr part ↦
      let s : sub64 n.size size ≡ n.size - size = ground arith in
      let a : add64 n.start size ≡ n.start + size = ground arith in
      let e : n.size ≡ size + (n.size - size) = ground arith in
      rw (live, part, s, a)
        (ground (arith, inside-add x n.start size (n.size - size)), ground arith)
]

take_first_skip :
    (size : ℕ) (n : Node) (ns : List Node)
    → ((n.size == 0) || ltb n.size size) ≡ true
    → take_first size (n ∷ ns) ≡ ((take_first size ns).0, n ∷ (take_first size ns).1)
unfolding take_first
take_first_skip size n ns skip = rw skip

take_first_lem :
    (x size : ℕ) (ns : List Node)
    → IsBounded ns
    → has_fit size ns ≡ true
    → Taken size ns (take_first size ns) x
take_first_lem x size [] b h = absurd (ground arith)
take_first_lem x size (n ∷ ns) b h = elim (Bool-cases ((n.size == 0) || ltb n.size size)) [
  | inl skip ↦
      let rest = take_first_lem x size ns b.1 (ground arith) in
      subst (λ (r : ℕ × List Node). Taken size (n ∷ ns) r x) (sym (take_first_skip size n ns skip))
        (omega (arith, rest.0), (b.0, rest.1))
  | inr live ↦ take_first_here x size n ns b live
]

take_first_none :
    (size : ℕ) (ns : List Node) → has_fit size ns ≡ false → take_first size ns ≡ (null, ns)
take_first_none size [] h = unfold take_first in refl
take_first_none size (n ∷ ns) h =
    let rest = take_first_none size ns (ground arith) in
    let skip : ((n.size == 0) || ltb n.size size) ≡ true = ground arith in
    take_first_skip size n ns skip ∙ ap (λ (r : ℕ × List Node). (r.0, n ∷ r.1)) rest

-- On a list of which no region reaches the end of the address space, `alloc` finds a region exactly when
-- a live one is large enough for the size rounded up to pages. It then takes each address of the result
-- off the free list once and leaves every other address as it was; otherwise it returns null and
-- changes nothing.
pub alloc-count :
    (size : ℕ) (ns : List Node)
    → IsBounded ns
    → ((has_fit (align_up size) ns ≡ true)
        × ((x : ℕ)
            → count x (alloc size ns).1 + inside x (alloc size ns).0 (align_up size) ≡ count x ns)
        × IsBounded (alloc size ns).1)
      ⊎ ((has_fit (align_up size) ns ≡ false) × (alloc size ns ≡ (null, ns)))
unfolding alloc
alloc-count size ns b = elim (Bool-cases (has_fit (align_up size) ns)) [
  | inl h ↦ inl (
    h,
    (λ x. (take_first_lem x (align_up size) ns b h).0),
    (take_first_lem 0 (align_up size) ns b h).1,
  )
  | inr h ↦ inr (h, take_first_none (align_up size) ns h)
]

-- If the rounded size is neither 0 nor all of the list, the first allocation from a fresh list returns
-- the null address, although address 0 was free before and is taken afterwards.
pub alloc-create :
    (size : ℕ) (m : Machine)
    → 0 < align_up size
    → align_up size < vaddr_size
    → ((alloc size (create m).0).0 ≡ null)
      × (count 0 (create m).0 ≡ 1)
      × (count 0 (alloc size (create m).0).1 ≡ 0)
unfolding alloc take_first create
alloc-create size m pos lt =
    let live : ltb vaddr_size (align_up size) ≡ false = ground arith in
    let part : (vaddr_size == align_up size) ≡ false = ground arith in
    rw (live, part) (refl, refl, ground arith)
