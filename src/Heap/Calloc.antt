-- ===== src/Heap/Calloc.antt =====
-- The test for overflow in `heap::calloc`.
pub mod Zeroed
use coronel.Base.{
  ℕ, ◌*◌, ◌/◌, ◌^◌, ◌≤◌, ◌<◌, ◌≡◌, refl, true, false, not, ◌&&◌, ltb, ◌==◌, if◌then◌else◌, arith,
  Bool-cases, inl, inr, ◌∙◌, mul64,
}
use native.Mathlib.Nat.{mul-div_cancel_left, div-lt_iff_lt-mul, mul_comm}
use coronel.Machine.{null}
use coronel.Memory.{memset}
use coronel.Heap.{Heap}
use coronel.Heap.Blocks.{malloc, calloc}

-- What `calloc` makes of the result of `malloc`.
abbrev pub cleared : ℕ → ℕ × Heap → ℕ × Heap
cleared total (ptr, s) =
    if ptr == null then (null, s) else (ptr, record s { bytes = memset ptr 0 total s.bytes })

-- The division gives the size back exactly if the product has not wrapped.
quotient_iff :
    (num size : ℕ)
    → 0 < num
    → size < 2 ^ 64
    → (mul64 num size / num == size) ≡ ltb (num * size) (2 ^ 64)
quotient_iff num size pos small = elim (Bool-cases (ltb (num * size) (2 ^ 64))) [
  | inl fits ↦
      let exact : mul64 num size ≡ num * size = ground (arith, fits) in
      let back = mul-div_cancel_left size {n = num} pos in rw (exact, back, fits) (ground arith)
  | inr over ↦
      let less : mul64 num size < size * num = ground (arith, over, mul_comm num size) in
      let quotient = (div-lt_iff_lt-mul {k = num} {x = mul64 num size} {y = size} pos).1 less in
      rw over (ground (arith, quotient))
]

refused_iff :
    (num size : ℕ)
    → size < 2 ^ 64
    → (ltb 0 num && not (mul64 num size / num == size)) ≡ not (ltb (num * size) (2 ^ 64))
refused_iff num size small = elim (Bool-cases (ltb 0 num)) [
  | inl pos ↦ rw (pos, quotient_iff num size (ground (arith, pos)) small) refl
  | inr none_left ↦ let e : num ≡ 0 = ground (arith, none_left) in rw e (ground arith)
]

-- For a size of 64 bits, `calloc` refuses exactly the requests whose product does not fit 64 bits, and
-- then changes nothing; any other request is that of `malloc` for the true product, cleared.
pub calloc_overflow :
    (num size : ℕ) (s : Heap)
    → size < 2 ^ 64
    → (2 ^ 64 ≤ num * size → calloc num size s ≡ (null, s))
      × (num * size < 2 ^ 64 → calloc num size s ≡ cleared (num * size) (malloc (num * size) s))
unfolding calloc
calloc_overflow num size s small = (
  (λ over.
      let refused : (ltb 0 num && not (mul64 num size / num == size)) ≡ true =
        refused_iff num size small ∙ ground (arith, over) in
      rw refused refl),
  (λ fits.
      let passed : (ltb 0 num && not (mul64 num size / num == size)) ≡ false =
        refused_iff num size small ∙ ground (arith, fits) in
      let exact : mul64 num size ≡ num * size = omega (arith, fits) in rw (passed, exact) refl),
)
