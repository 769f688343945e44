-- ===== src/Config/Align.antt =====
-- What the masks of config.hpp compute on 64-bit addresses.
use coronel.Base.{ℕ, ◌+◌, ◌-◌, ◌*◌, ◌/◌, ◌%◌, ◌^◌, ◌≤◌, ◌<◌, ◌≡◌, ◌↔◌, true, bit_and, arith}
use coronel.Base.Bits.{and_high, and_mask}
use coronel.Config.{frame_size, is_aligned, align_down, align_up}

-- A number below 2 ^ 52 survives a mask of 52 ones.
and_ones : (q : ℕ) → q < 2 ^ 52 → bit_and q (2 ^ 52 - 1) ≡ q
and_ones q h = ground (arith, and_mask 52 q)

-- `address & -FRAME_SIZE` drops the offset in the page.
pub align_down_lem : (a : ℕ) → a < 2 ^ 64 → align_down a ≡ a / 4096 * 4096
unfolding align_down
align_down_lem a h =
    let e : a ≡ a / 4096 * 4096 + a % 4096 = omega arith in
    ground (arith, and_high 12 (a / 4096) (a % 4096) (2 ^ 52 - 1), and_ones (a / 4096))

pub align_up_lem : (a : ℕ) → a + 4095 < 2 ^ 64 → align_up a ≡ (a + 4095) / 4096 * 4096
unfolding align_up
align_up_lem a h = ground (arith, align_down_lem (a + 4095))

pub is_aligned_iff : (a : ℕ) → (is_aligned a ≡ true) ↔ (a % 4096 ≡ 0)
unfolding is_aligned
is_aligned_iff a = ground (arith, and_mask 12 a)

-- Away from the top page of the address space, `ALIGN_UP(a)` is the least multiple of the page
-- size that is not below `a`, and `ALIGN_DOWN(a)` the greatest that is not above it; both pass
-- `IS_ALIGNED`.
align_bounds :
    (a : ℕ)
    → a + 4095 < 2 ^ 64
    → (a ≤ align_up a)
      × (align_up a < a + frame_size)
      × (is_aligned (align_up a) ≡ true)
      × (align_down a ≤ a)
      × (a < align_down a + frame_size)
      × (is_aligned (align_down a) ≡ true)
align_bounds a h = (
  omega (arith, align_up_lem a h),
  omega (arith, align_up_lem a h),
  (is_aligned_iff (align_up a)).1 (omega (arith, align_up_lem a h)),
  omega (arith, align_down_lem a (omega arith)),
  omega (arith, align_down_lem a (omega arith)),
  (is_aligned_iff (align_down a)).1 (omega (arith, align_down_lem a (omega arith))),
)

-- For a 64-bit address within a page of the end of the address space the addition wraps, and
-- `ALIGN_UP` gives 0.
pub align_up_wraps : (a : ℕ) → 2 ^ 64 ≤ a + 4095 → a < 2 ^ 64 → align_up a ≡ 0
unfolding align_up
align_up_wraps a lo hi = ground (arith, align_down_lem (a + 4095 - 2 ^ 64))
