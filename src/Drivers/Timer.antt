-- ===== src/Drivers/Timer.antt =====
-- src/kernel/drivers/peripherals/timer.cpp: what the constructor writes to the interval timer, as port
-- and byte in order.
use coronel.Base.{
  ℕ, ◌/◌, ◌%◌, ◌^◌, ◌≤◌, ◌<◌, ◌≡◌, refl, bit_and, bit_or, List, [], ◌∷◌, ltb, if◌then◌else◌, arith,
  add64,
}
use coronel.Base.Bits.{and_mask}

-- The fields of `timer`, and the writes to ports so far, last first.
pub record Timer : Type 0 where
  pub frequency : ℕ
  pub ticks : ℕ
  pub writes : List (ℕ × ℕ)

abbrev pub pit_frequency : ℕ
pit_frequency = 1193182

-- The quotient after it was limited.
unfoldable pub divisor : ℕ → ℕ
divisor frequency =
    let div = pit_frequency / frequency in
    if ltb div 1 then 1 else if ltb 65535 div then 65535 else div

-- `CHANNEL_0 | LOHI | MODE_2 | PIT_BINARY_MODE`
unfoldable pub command : ℕ
command = bit_or (bit_or (bit_or 0x40 0x30) 0x04) 0x00

unfoldable pub timer : ℕ → Timer
timer frequency =
    let div = divisor frequency in
    record {
      frequency = frequency;
      ticks = 0;
      writes = (0x40, bit_and (div / 2 ^ 8) 0xff) ∷ (0x40, bit_and div 0xff) ∷ (0x43, command) ∷ [];
    }

unfoldable pub on_timer : Timer → Timer
on_timer t = record t { ticks = add64 t.ticks 1 }

-- For every frequency but 0 the timer gets the command and then the low and the high byte of a divisor
-- from 1 to 65535, which is the quotient of the two frequencies if that is in range. The two high bits
-- of the command, which choose the channel, are 1.
pub timer_lem :
    (frequency : ℕ)
    → 0 < frequency
    → (1 ≤ divisor frequency)
      × (divisor frequency ≤ 65535)
      × ((timer frequency).writes
          ≡ (0x40, divisor frequency / 256)
            ∷ (0x40, divisor frequency % 256)
            ∷ (0x43, command)
            ∷ [])
      × (command / 64 ≡ 1)
      × (1 ≤ pit_frequency / frequency
          → pit_frequency / frequency ≤ 65535
          → divisor frequency ≡ pit_frequency / frequency)
unfolding timer command divisor
timer_lem frequency pos =
    let div = divisor frequency in
    let high = and_mask 8 (divisor frequency / 256) in
    let low = and_mask 8 (divisor frequency) in
    let bound : divisor frequency < 65536 = ground arith in
    let e : bit_and (div / 256) 255 ≡ div / 256 = omega (arith, high, bound) in
    (ground arith, ground arith, rw (e, low) refl, refl, (λ lo hi. ground arith))
