-- ===== src/Heap/Chain.antt =====
-- The block list of the kernel heap as the list of what its headers say, in address order.
pub mod Split
pub mod Merge
pub mod Mark
pub mod Used
pub mod Held
use coronel.Base.{
  ℕ, ◌+◌, ◌^◌, ◌≤◌, ◌<◌, ◌≡◌, Bool, true, false, ◌||◌, List, [], ◌∷◌, ◌==◌, if◌then◌else◌, arith,
  sym, subst, ◌⊎◌, inl, inr,
}
use coronel.Machine.{null}
use coronel.Heap.{HeapBlock, Blocks, Heap, magic_free, magic_used}

pub record Entry : Type 0 where
  pub addr : ℕ
  pub size : ℕ
  pub is_free : Bool

abbrev pub entry : ℕ → ℕ → Bool → Entry
entry a sz free = record { addr = a; size = sz; is_free = free }

-- The magic number that goes with the mark.
abbrev pub magic_of : Bool → ℕ
magic_of free = if free then magic_free else magic_used

-- A header that says what `e` says, with the link back to `prev`.
pub record IsHeader (b : HeapBlock) (before : ℕ) (e : Entry) : Type 0 where
  pub size : b.size ≡ e.size
  pub is_free : b.is_free ≡ e.is_free
  pub magic : b.magic ≡ magic_of e.is_free
  pub prev : b.prev ≡ before

-- From `p` the `next` pointers lead through the headers of the list to null, the `prev` pointers
-- lead back, and the blocks lie one behind the other from `lo` on, below the end of the address
-- space.
abbrev pub IsChain : Blocks → ℕ → ℕ → ℕ → List Entry → Type 0
IsChain mem lo prev p [] = (p ≡ null) × (lo < 2 ^ 64)
IsChain mem lo prev p (e ∷ es) =
    (p ≡ e.addr)
    × (0 < p)
    × (lo ≤ p)
    × IsHeader (mem p) prev e
    × IsChain mem (p + 40 + e.size) p (mem p).next es

-- Whether a block of the list starts at `a`.
abbrev pub has : ℕ → List Entry → Bool
has a [] = false
has a (e ∷ es) = (e.addr == a) || has a es

-- A heap whose block list is `es`.
abbrev pub IsHeap : Heap → List Entry → Type 0
IsHeap s es = IsChain s.blocks 1 null s.first_block es

-- The memory that the heap has handed out: start and size of each used block.
abbrev pub used : List Entry → List (ℕ × ℕ)
used [] = []
used (e ∷ es) = if e.is_free then used es else (e.addr, e.size) ∷ used es

-- The bytes that the blocks and their headers take.
abbrev pub span : List Entry → ℕ
span [] = 0
span (e ∷ es) = 40 + e.size + span es

-- A chain with a later start is one with an earlier.
pub IsChain-mono :
    (mem : Blocks) (lo lo' prev p : ℕ) (es : List Entry)
    → lo' ≤ lo
    → IsChain mem lo prev p es
    → IsChain mem lo' prev p es
IsChain-mono mem lo lo' prev p [] h c = (c.0, omega arith)
IsChain-mono mem lo lo' prev p (e ∷ es) h c = (c.0, c.1, omega arith, c.3, c.4)

-- Only the headers at `lo` and above matter.
pub IsChain-frame :
    (mem mem' : Blocks) (lo prev p : ℕ) (es : List Entry)
    → ((a : ℕ) → lo ≤ a → mem' a ≡ mem a)
    → IsChain mem lo prev p es
    → IsChain mem' lo prev p es
IsChain-frame mem mem' lo prev p [] same c = c
IsChain-frame mem mem' lo prev p (e ∷ es) same c =
    let at_p = same p c.2 in
    let rest =
      IsChain-frame mem mem' (p + 40 + e.size) p (mem p).next es (λ a h. same a (omega arith))
        c.4 in
    rw at_p (c.0, c.1, c.2, c.3, rest)

-- A header in front of a chain.
pub IsChain-cons :
    (mem : Blocks) (lo before p next : ℕ) (e : Entry) (es : List Entry)
    → p ≡ e.addr
    → 0 < p
    → lo ≤ p
    → IsHeader (mem p) before e
    → (mem p).next ≡ next
    → IsChain mem (p + 40 + e.size) p next es
    → IsChain mem lo before p (e ∷ es)
IsChain-cons mem lo before p next e es at pos above head link tail =
    (at, pos, above, head, subst (λ (n : ℕ). IsChain mem (p + 40 + e.size) p n es) (sym link) tail)

-- A chain starts at null or at `lo` and above, and `lo` is an address.
pub start-bounds :
    (mem : Blocks) (lo before p : ℕ) (es : List Entry)
    → IsChain mem lo before p es
    → ((p ≡ null) ⊎ (lo ≤ p)) × (lo < 2 ^ 64)
start-bounds mem lo before p [] c = (inl c.0, c.1)
start-bounds mem lo before p (e ∷ es) c =
    (inr c.2, omega (arith, start-bounds mem (p + 40 + e.size) p (mem p).next es c.4))
