-- ===== src/Drivers/Pci/Address.antt =====
-- The configuration address of a register.
use coronel.Base.{ℕ, ◌+◌, ◌*◌, ◌/◌, ◌%◌, ◌^◌, ◌<◌, ◌≡◌, bit_and, bit_or, arith, ap, ◌∙◌}
use coronel.Base.Bits.{or_low, and_high, and_mask}
use coronel.Drivers.Pci.{PciAddress, get_address}

field_lem : (field : ℕ) → field < 256 → bit_and field 0xfc ≡ field / 4 * 4
field_lem field h =
    let split : field / 4 * 4 + field % 4 ≡ field = omega arith in
    let masked = and_high 2 (field / 4) (field % 4) 63 (omega arith) in
    let low = and_mask 6 (field / 4) in
    ap (λ (t : ℕ). bit_and t 0xfc) (omega arith) ∙ masked ∙ omega (arith, low)

-- On a bus below 256, a slot below 32, a function below 8 and a register below 256 the parts of the
-- address do not overlap: it is their sum above the enable bit, with the register rounded down to a
-- multiple of 4.
get_address_lem :
    (a : PciAddress) (field : ℕ)
    → a.bus < 256
    → a.slot < 32
    → a.function < 8
    → field < 256
    → get_address a field
      ≡ 2 ^ 31 + a.bus * 2 ^ 16 + a.slot * 2 ^ 11 + a.function * 2 ^ 8 + field / 4 * 4
unfolding get_address
get_address_lem a field b s f h =
    let e₁ = or_low 31 1 (a.bus * 2 ^ 16) (omega arith) in
    let e₂ = or_low 16 (2 ^ 15 + a.bus) (a.slot * 2 ^ 11) (omega arith) in
    let e₃ = or_low 11 ((2 ^ 15 + a.bus) * 2 ^ 5 + a.slot) (a.function * 2 ^ 8) (omega arith) in
    let e₄ =
      or_low 8 (((2 ^ 15 + a.bus) * 2 ^ 5 + a.slot) * 8 + a.function) (field / 4 * 4)
        (omega arith) in
    let x₁ : bit_or 0x80000000 (a.bus * 2 ^ 16) ≡ (2 ^ 15 + a.bus) * 2 ^ 16 = omega (arith, e₁) in
    let x₂ : bit_or ((2 ^ 15 + a.bus) * 2 ^ 16) (a.slot * 2 ^ 11)
        ≡ ((2 ^ 15 + a.bus) * 2 ^ 5 + a.slot) * 2 ^ 11 =
      omega (arith, e₂) in
    let x₃ : bit_or (((2 ^ 15 + a.bus) * 2 ^ 5 + a.slot) * 2 ^ 11) (a.function * 2 ^ 8)
        ≡ (((2 ^ 15 + a.bus) * 2 ^ 5 + a.slot) * 8 + a.function) * 2 ^ 8 =
      omega (arith, e₃) in
    rw (x₁, x₂, x₃, field_lem field h) (omega (arith, e₄))
