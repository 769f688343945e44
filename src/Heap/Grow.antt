-- ===== src/Heap/Grow.antt =====
-- A new region behind the blocks of the heap.
pub mod Expand
pub mod Serve
use coronel.Base.{
  ℕ, zero, suc, ◌+◌, ◌-◌, ◌*◌, ◌^◌, ◌≤◌, ◌<◌, ◌≡◌, ◌≢◌, refl, Bool, true, false, List, [], ◌∷◌,
  ◌++◌, length, ◌==◌, ltb, leb, if◌then◌else◌, ◌&&◌, ◌||◌, arith, Bool-cases, inl, inr, some, sym,
  subst, ap, ◌∙◌, add64, sub64,
}
use coronel.Machine.{null, update}
use coronel.Heap.{Heap, HeapBlock, Blocks, heap_block, set_next, set_prev}
use coronel.Heap.Blocks.{last_from}
use coronel.Heap.Chain.{Entry, entry, IsHeader, IsChain, IsChain-cons, used, span}
use coronel.Heap.Chain.Mark.{find}
use coronel.Heap.Chain.Used.{has_fit}

-- Where the last block starts, and where it ends.
abbrev pub last_of : Entry → List Entry → ℕ
last_of e [] = e.addr
last_of e (f ∷ es) = last_of f es

abbrev pub end_of : Entry → List Entry → ℕ
end_of e [] = e.addr + 40 + e.size
end_of e (f ∷ es) = end_of f es

-- The memory with a free block of `size` bytes at `r` behind the block at `last`.
abbrev pub linked_behind : ℕ → ℕ → ℕ → Blocks → Blocks
linked_behind r size last mem =
    set_prev r last (set_next last r (update mem r (heap_block size true)))

-- The last block lies in the chain.
pub chain-last :
    (mem : Blocks) (lo before p : ℕ) (e : Entry) (es : List Entry)
    → IsChain mem lo before p (e ∷ es)
    → (p ≤ last_of e es) × (last_of e es + 40 ≤ end_of e es) × (p + 40 + e.size ≤ end_of e es)
chain-last mem lo before p e [] c = (omega (arith, c.0), omega arith, omega (arith, c.0))
chain-last mem lo before p e (f ∷ es) c =
    let rest = chain-last mem (p + 40 + e.size) p (mem p).next f es c.4 in
    (omega (arith, rest.0, c.4.2), rest.1, omega (arith, rest.2, c.4.2))

pub last_from_lem :
    (n : ℕ) (mem mem' : Blocks) (lo before p : ℕ) (e : Entry) (es : List Entry)
    → length es < n
    → ((a : ℕ) → a < end_of e es → mem' a ≡ mem a)
    → IsChain mem lo before p (e ∷ es)
    → last_from n p mem' ≡ last_of e es
unfolding last_from
last_from_lem zero mem mem' lo before p e es h same c = absurd (omega arith)
last_from_lem (suc n) mem mem' lo before p e [] h same c =
    let kept : mem' p ≡ mem p = same p (omega (arith, c.0)) in rw kept (ground (arith, c))
last_from_lem (suc n) mem mem' lo before p e (f ∷ es) h same c =
    let above = chain-last mem (p + 40 + e.size) p (mem p).next f es c.4 in
    let kept : mem' p ≡ mem p = same p (omega (arith, above.2, c.4.2)) in
    let more : ((mem p).next == null) ≡ false = ground (arith, c.4.1) in
    rw (kept, more)
      (last_from_lem n mem mem' (p + 40 + e.size) p (mem p).next f es (omega arith) same c.4)

pub append-IsChain :
    (mem : Blocks) (lo before p r size : ℕ) (e : Entry) (es : List Entry)
    → end_of e es ≤ r
    → r + 40 + size < 2 ^ 64
    → IsChain mem lo before p (e ∷ es)
    → IsChain
        (linked_behind r size (last_of e es) mem)
        lo
        before
        p
        (e ∷ es ++ (entry r size true ∷ []))
append-IsChain mem lo before p r size e [] behind small c =
    let new = linked_behind r size e.addr mem in
    let here : p ≡ e.addr = c.0 in
    let apart : (r == e.addr) ≡ false = ground (arith, behind) in
    let at_r : new r ≡ record (heap_block size true) { prev = e.addr } = ground arith in
    let head : new p ≡ record (mem p) { next = r } = ground (arith, here, apart) in
    let says : IsHeader (new p) before e = record {
      size = ap (λ (b : HeapBlock). b.size) head ∙ c.3.size;
      is_free = ap (λ (b : HeapBlock). b.is_free) head ∙ c.3.is_free;
      magic = ap (λ (b : HeapBlock). b.magic) head ∙ c.3.magic;
      prev = ap (λ (b : HeapBlock). b.prev) head ∙ c.3.prev;
    } in
    let fresh : IsHeader (new r) p (entry r size true) = record {
      size = ap (λ (b : HeapBlock). b.size) at_r;
      is_free = ap (λ (b : HeapBlock). b.is_free) at_r;
      magic = ap (λ (b : HeapBlock). b.magic) at_r;
      prev = ap (λ (b : HeapBlock). b.prev) at_r ∙ sym here;
    } in
    let tail =
      IsChain-cons new (p + 40 + e.size) p r null (entry r size true) [] refl (omega arith)
        (omega (arith, here)) fresh (ap (λ (b : HeapBlock). b.next) at_r) (refl, omega arith) in
    IsChain-cons new lo before p r e (entry r size true ∷ []) c.0 c.1 c.2 says
      (ap (λ (b : HeapBlock). b.next) head) tail
append-IsChain mem lo before p r size e (f ∷ es) behind small c =
    let above = chain-last mem (p + 40 + e.size) p (mem p).next f es c.4 in
    let last = last_of f es in
    let new = linked_behind r size last mem in
    let kept : new p ≡ mem p = ground (arith, above, behind, c.4.2) in
    let rest = append-IsChain mem (p + 40 + e.size) p (mem p).next r size f es behind small c.4 in
    IsChain-cons new lo before p (mem p).next e (f ∷ es ++ (entry r size true ∷ [])) c.0 c.1 c.2
      (subst (λ (b : HeapBlock). IsHeader b before e) (sym kept) c.3)
      (ap (λ (b : HeapBlock). b.next) kept) rest

pub used-append : (es : List Entry) (r size : ℕ) → used (es ++ (entry r size true ∷ [])) ≡ used es
used-append [] r size = refl
used-append (e ∷ es) r size = ground (arith, used-append es r size)

pub span-append :
    (es : List Entry) (r size : ℕ) → span (es ++ (entry r size true ∷ [])) ≡ span es + 40 + size
span-append [] r size = omega arith
span-append (e ∷ es) r size = omega (arith, span-append es r size)

pub has_fit-append :
    (es : List Entry) (r size k : ℕ) → k ≤ size → has_fit k (es ++ (entry r size true ∷ [])) ≡ true
has_fit-append [] r size k h = ground arith
has_fit-append (e ∷ es) r size k h = ground (arith, has_fit-append es r size k h)

pub find-append :
    (mem : Blocks) (lo before p r size : ℕ) (e : Entry) (es : List Entry)
    → end_of e es ≤ r
    → IsChain mem lo before p (e ∷ es)
    → find r (e ∷ es ++ (entry r size true ∷ [])) ≡ some (entry r size true)
find-append mem lo before p r size e [] behind c = ground (arith, c.0)
find-append mem lo before p r size e (f ∷ es) behind c =
    let above = chain-last mem (p + 40 + e.size) p (mem p).next f es c.4 in
    let rest = find-append mem (p + 40 + e.size) p (mem p).next r size f es behind c.4 in
    let other : (e.addr == r) ≡ false = ground (arith, c.0, above, behind, c.4.2) in rw other rest

-- Only the headers in front of the end of the last block matter.
pub IsChain-upto :
    (mem mem' : Blocks) (lo before p : ℕ) (e : Entry) (es : List Entry)
    → ((a : ℕ) → a < end_of e es → mem' a ≡ mem a)
    → IsChain mem lo before p (e ∷ es)
    → IsChain mem' lo before p (e ∷ es)
IsChain-upto mem mem' lo before p e [] same c =
    let kept : mem' p ≡ mem p = same p (omega (arith, c.0)) in
    IsChain-cons mem' lo before p (mem p).next e [] c.0 c.1 c.2
      (subst (λ (b : HeapBlock). IsHeader b before e) (sym kept) c.3)
      (ap (λ (b : HeapBlock). b.next) kept) c.4
IsChain-upto mem mem' lo before p e (f ∷ es) same c =
    let above = chain-last mem (p + 40 + e.size) p (mem p).next f es c.4 in
    let kept : mem' p ≡ mem p = same p (omega (arith, above.2, c.4.2)) in
    IsChain-cons mem' lo before p (mem p).next e (f ∷ es) c.0 c.1 c.2
      (subst (λ (b : HeapBlock). IsHeader b before e) (sym kept) c.3)
      (ap (λ (b : HeapBlock). b.next) kept)
      (IsChain-upto mem mem' (p + 40 + e.size) p (mem p).next f es same c.4)
