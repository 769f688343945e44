-- ===== src/User/Flags.antt =====
-- The `flags` word of a user block.
use coronel.Base.{
  ℕ, ◌+◌, ◌*◌, ◌/◌, ◌%◌, ◌^◌, ◌<◌, ◌≡◌, refl, Bool, true, false, not, ◌||◌, bit_and, bit_or, ◌==◌,
  if◌then◌else◌, arith, ap, sym, ◌∙◌,
}
use coronel.Base.Bits.{and_high, and_mask, or_low, or_high}
use coronel.User.{is_free, is_valid, set_free, magic_free, magic_used}

-- The word that `set_free` stores, as a sum of its fields.
pub set_free_fields :
    (free : Bool) (flags : ℕ)
    → flags < 2 ^ 32
    → set_free free flags
      ≡ (if free then 0xAA else 0x55) * 2 ^ 24 + flags / 2 % 2 ^ 23 * 2 + (if free then 1 else 0)
unfolding set_free
set_free_fields free flags h =
    let split : flags / 2 * 2 + flags % 2 ≡ flags = omega arith in
    let masked = and_high 1 (flags / 2) (flags % 2) 0x7fffff (omega arith) in
    let low = and_mask 23 (flags / 2) in
    let kept : bit_and flags 0x00fffffe ≡ flags / 2 % 2 ^ 23 * 2 =
      ap (λ (t : ℕ). bit_and t 0x00fffffe) (sym split) ∙ masked ∙ omega (arith, low) in
    rw kept (fields free)
  where
    fields :
        (f : Bool)
        → bit_or
            (bit_or (flags / 2 % 2 ^ 23 * 2) (if f then 0x01 else 0))
            (if f then magic_free else magic_used)
          ≡ (if f then 0xAA else 0x55) * 2 ^ 24 + flags / 2 % 2 ^ 23 * 2 + (if f then 1 else 0)
    fields true =
        let mark : bit_or (flags / 2 % 2 ^ 23 * 2) 1 ≡ flags / 2 % 2 ^ 23 * 2 + 1 =
          or_low 1 (flags / 2 % 2 ^ 23) 1 (omega arith) in
        rw mark (omega (arith, or_high 24 0xAA (flags / 2 % 2 ^ 23 * 2 + 1) (omega arith)))
    fields false =
        let mark : bit_or (flags / 2 % 2 ^ 23 * 2) 0 ≡ flags / 2 % 2 ^ 23 * 2 + 0 =
          or_low 1 (flags / 2 % 2 ^ 23) 0 (omega arith) in
        rw mark (omega (arith, or_high 24 0x55 (flags / 2 % 2 ^ 23 * 2 + 0) (omega arith)))

is_free_low : (flags : ℕ) → is_free flags ≡ not (flags % 2 == 0)
unfolding is_free
is_free_low flags = ap (λ (t : ℕ). not (t == 0)) (and_mask 1 flags)

-- The magic number of the word.
magic_high : (flags : ℕ) → bit_and flags 0xff000000 ≡ flags / 2 ^ 24 % 2 ^ 8 * 2 ^ 24
magic_high flags =
    let split : flags / 2 ^ 24 * 2 ^ 24 + flags % 2 ^ 24 ≡ flags = omega arith in
    let masked = and_high 24 (flags / 2 ^ 24) (flags % 2 ^ 24) 0xff (omega arith) in
    let low = and_mask 8 (flags / 2 ^ 24) in
    ap (λ (t : ℕ). bit_and t 0xff000000) (sym split) ∙ masked ∙ omega (arith, low)

pub set_free_magic :
    (free : Bool) (flags : ℕ)
    → flags < 2 ^ 32
    → bit_and (set_free free flags) 0xff000000 ≡ (if free then magic_free else magic_used)
set_free_magic true flags h =
    magic_high (set_free true flags) ∙ omega (arith, set_free_fields true flags h)
set_free_magic false flags h =
    magic_high (set_free false flags) ∙ omega (arith, set_free_fields false flags h)

pub set_free-small : (free : Bool) (flags : ℕ) → flags < 2 ^ 32 → set_free free flags < 2 ^ 32
set_free-small true flags h = omega (arith, set_free_fields true flags h)
set_free-small false flags h = omega (arith, set_free_fields false flags h)

is_valid_high :
    (flags : ℕ)
    → is_valid flags ≡ (
        (flags / 2 ^ 24 % 2 ^ 8 * 2 ^ 24 == magic_free)
        || (flags / 2 ^ 24 % 2 ^ 8 * 2 ^ 24 == magic_used))
unfolding is_valid
is_valid_high flags = ap (λ (t : ℕ). (t == magic_free) || (t == magic_used)) (magic_high flags)

-- Whatever the 32 bits of the word were before, after `set_free` the block is valid and free as the call
-- says, and the bits between the mark and the magic number are kept.
pub set_free_lem :
    (free : Bool) (flags : ℕ)
    → flags < 2 ^ 32
    → (is_free (set_free free flags) ≡ free)
      × (is_valid (set_free free flags) ≡ true)
      × (set_free free flags / 2 % 2 ^ 23 ≡ flags / 2 % 2 ^ 23)
set_free_lem true flags h =
    let fields = set_free_fields true flags h in
    let word = set_free true flags in
    let mark : word % 2 ≡ 1 = omega (arith, fields) in
    let magic : word / 2 ^ 24 % 2 ^ 8 ≡ 0xAA = omega (arith, fields) in
    (is_free_low word ∙ rw mark refl, is_valid_high word ∙ rw magic refl, omega (arith, fields))
set_free_lem false flags h =
    let fields = set_free_fields false flags h in
    let word = set_free false flags in
    let mark : word % 2 ≡ 0 = omega (arith, fields) in
    let magic : word / 2 ^ 24 % 2 ^ 8 ≡ 0x55 = omega (arith, fields) in
    (is_free_low word ∙ rw mark refl, is_valid_high word ∙ rw magic refl, omega (arith, fields))
