-- ===== src/User/Laws.antt =====
-- A second `free`, overflow in `calloc`, and the limit of the heap.
use coronel.Base.{
  ℕ, ◌*◌, ◌/◌, ◌^◌, ◌≤◌, ◌<◌, ◌≡◌, refl, true, false, not, ◌&&◌, ◌||◌, ltb, ◌==◌, if◌then◌else◌,
  arith, add64, sub32, Bool-cases, inl, inr, ap, sym, ◌∙◌, mul64, ◌⊎◌,
}
use native.Mathlib.Nat.{le-div_iff_mul-le, mul_comm}
use coronel.Config.{align_up}
use coronel.Machine.{null}
use coronel.Memory.{memset}
use coronel.User.Pages.{sys_request_memory}
use coronel.User.{UserHeap, user_heap_max, is_free, is_valid, set_free, set_flags, from_data}
use coronel.User.Blocks.{
  malloc, calloc, max_total_alloc, free, release, coalesce_block, coalesce_next, coalesce_prev,
  expand_heap, set_heap_limit,
}
use coronel.User.Flags.{set_free_lem}

-- What `calloc` makes of the result of `malloc`.
abbrev pub cleared : ℕ → ℕ × UserHeap → ℕ × UserHeap
cleared total (ptr, s) =
    if ptr == null then (null, s) else (ptr, record s { bytes = memset ptr 0 total s.bytes })

fits_iff :
    (num size : ℕ)
    → (ltb 0 num && ltb (max_total_alloc / num) size) ≡ ltb max_total_alloc (num * size)
fits_iff num size = elim (Bool-cases (ltb 0 num)) [
  | inl pos ↦
      let iff =
        le-div_iff_mul-le {k = num} {x = size} {y = max_total_alloc} (ground (arith, pos)) in
      ground (arith, iff, mul_comm num size)
  | inr none_left ↦ let e : num ≡ 0 = ground (arith, none_left) in rw e (ground arith)
]

-- `calloc` refuses exactly the requests whose product, computed without wrapping, is above 2 GB, and
-- then changes nothing; any other request is that of `malloc` for the true product, cleared.
calloc_lem :
    (num size : ℕ) (s : UserHeap)
    → (max_total_alloc < num * size → calloc num size s ≡ (null, s))
      × (num * size ≤ max_total_alloc
          → calloc num size s ≡ cleared (num * size) (malloc (num * size) s))
unfolding calloc
calloc_lem num size s = (
  (λ over.
      let refused : (ltb 0 num && ltb (max_total_alloc / num) size) ≡ true =
        fits_iff num size ∙ ground (arith, over) in
      rw refused refl),
  (λ fits.
      let passed : (ltb 0 num && ltb (max_total_alloc / num) size) ≡ false =
        fits_iff num size ∙ ground (arith, fits) in
      let exact : mul64 num size ≡ num * size = omega (arith, fits) in rw (passed, exact) refl),
)

expand_heap-granted :
    (min_size : ℕ) (s : UserHeap)
    → (expand_heap min_size s).0 ≡ (
        if ltb user_heap_max (add64 s.heap_current (align_up min_size))
        then false
        else (sys_request_memory s.page_directory s.heap_current (align_up min_size) s.machine).0)
unfolding expand_heap
expand_heap-granted min_size s =
    elim (Bool-cases (ltb user_heap_max (add64 s.heap_current (align_up min_size)))) [
      | inl over ↦ rw over refl
      | inr fits ↦
          elim (Bool-cases
            (sys_request_memory s.page_directory s.heap_current (align_up min_size) s.machine).0) [
              | inl granted ↦ rw (fits, granted) refl
              | inr denied ↦ rw (fits, denied) refl
            ]
    ]

-- `set_heap_limit` stores a limit that nothing reads: whether the heap can grow does not depend on it.
set_heap_limit_unread :
    (max_size min_size : ℕ) (s : UserHeap)
    → (expand_heap min_size (set_heap_limit max_size s).1).0 ≡ (expand_heap min_size s).0
unfolding set_heap_limit
set_heap_limit_unread max_size min_size s =
    elim (Bool-cases (
      ltb user_heap_max (add64 s.heap_start max_size)
      || ltb (add64 s.heap_start max_size) s.heap_current)) [
        | inl refused ↦ rw refused refl
        | inr stored ↦
            let s' : UserHeap = record s { heap_limit = add64 s.heap_start max_size } in
            rw stored (expand_heap-granted min_size s' ∙ sym (expand_heap-granted min_size s))
      ]

-- No write of `coalesce_block` changes a flags word.
pub coalesce_next-flags :
    (block b : ℕ) (s : UserHeap) → ((coalesce_next block s).blocks b).flags ≡ (s.blocks b).flags
unfolding coalesce_next
coalesce_next-flags block b s = ground arith

pub coalesce_prev-flags :
    (block b : ℕ) (s : UserHeap) → ((coalesce_prev block s).blocks b).flags ≡ (s.blocks b).flags
unfolding coalesce_prev
coalesce_prev-flags block b s = ground arith

pub coalesce_block-flags :
    (block b : ℕ) (s : UserHeap) → ((coalesce_block block s).blocks b).flags ≡ (s.blocks b).flags
unfolding coalesce_block
coalesce_block-flags block b s = elim (Bool-cases (is_free (s.blocks block).flags)) [
  | inl marked ↦
      rw marked
        (coalesce_prev-flags block b (coalesce_next block s) ∙ coalesce_next-flags block b s)
  | inr taken ↦ rw taken refl
]

release-is_free :
    (b : ℕ) (s : UserHeap)
    → (s.blocks b).flags < 2 ^ 32
    → is_free ((release b s).blocks b).flags ≡ true
unfolding release
release-is_free b s h =
    let same : (b == b) ≡ true = ground arith in
    let kept : ((release b s).blocks b).flags ≡ set_free true (s.blocks b).flags =
      coalesce_block-flags b b (record s {
        blocks = set_flags b (set_free true (s.blocks b).flags) s.blocks;
        total_allocated = sub32 s.total_allocated (s.blocks b).size;
      })
      ∙ rw same refl in
    ap is_free kept ∙ (set_free_lem true (s.blocks b).flags h).0

free_if_free :
    (ptr : ℕ) (s : UserHeap) → is_free (s.blocks (from_data ptr)).flags ≡ true → free ptr s ≡ s
unfolding free
free_if_free ptr s h = elim (Bool-cases (ptr == null)) [
  | inl zero_ptr ↦ rw zero_ptr refl
  | inr some_ptr ↦ elim (Bool-cases (is_valid (s.blocks (from_data ptr)).flags)) [
    | inl valid ↦ rw (some_ptr, valid, h) refl
    | inr broken ↦ rw (some_ptr, broken) refl
  ]
]

free-cases : (ptr : ℕ) (s : UserHeap) → (free ptr s ≡ s) ⊎ (free ptr s ≡ release (from_data ptr) s)
unfolding free
free-cases ptr s = elim (Bool-cases (ptr == null)) [
  | inl zero_ptr ↦ inl (rw zero_ptr refl)
  | inr some_ptr ↦
      elim (Bool-cases (
        not (is_valid (s.blocks (from_data ptr)).flags)
        || is_free (s.blocks (from_data ptr)).flags)) [
          | inl refused ↦ inl (rw (some_ptr, refused) refl)
          | inr accepted ↦ inr (rw (some_ptr, accepted) refl)
        ]
]

-- A second `free` of the same user pointer changes nothing, even when the freed block has been merged
-- into another; only the flags word has to be one of 32 bits.
free_twice :
    (ptr : ℕ) (s : UserHeap)
    → (s.blocks (from_data ptr)).flags < 2 ^ 32
    → free ptr (free ptr s) ≡ free ptr s
free_twice ptr s h = elim (free-cases ptr s) [
  | inl same ↦ ap (free ptr) same
  | inr done ↦
      ap (free ptr) done
      ∙ free_if_free ptr (release (from_data ptr) s) (release-is_free (from_data ptr) s h)
      ∙ sym done
]
