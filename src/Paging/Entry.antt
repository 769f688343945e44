-- ===== src/Paging/Entry.antt =====
-- The words that the tables hold.
use coronel.Base.{
  ℕ, ◌+◌, ◌-◌, ◌*◌, ◌/◌, ◌%◌, ◌^◌, ◌<◌, ◌≡◌, bit_and, bit_or, ◌==◌, if◌then◌else◌, arith, ap, sym,
  ◌∙◌,
}
use coronel.Base.Bits.{and_high, and_mask, or_low, or_digit}
use coronel.Config.{kvirtual_address}
use coronel.Paging.{page_entry, page_mask, address}

-- `& ~0xfff` keeps the frame.
frame_lem : (addr : ℕ) → addr < 2 ^ 64 → bit_and addr page_mask ≡ addr / 4096 * 4096
frame_lem addr h =
    let split : addr / 4096 * 4096 + addr % 4096 ≡ addr = omega arith in
    let masked = and_high 12 (addr / 4096) (addr % 4096) (2 ^ 52 - 1) (omega arith) in
    let low = and_mask 52 (addr / 4096) in
    ap (λ (t : ℕ). bit_and t page_mask) (sym split) ∙ masked ∙ omega (arith, low)

flag_two : (flags : ℕ) → bit_and flags 2 ≡ flags / 2 % 2 * 2
flag_two flags =
    let split : flags / 2 * 2 + flags % 2 ≡ flags = omega arith in
    ap (λ (t : ℕ). bit_and t 2) (sym split)
    ∙ and_high 1 (flags / 2) (flags % 2) 1 (omega arith)
    ∙ omega (arith, and_mask 1 (flags / 2))

flag_four : (flags : ℕ) → bit_and flags 4 ≡ flags / 4 % 2 * 4
flag_four flags =
    let split : flags / 4 * 4 + flags % 4 ≡ flags = omega arith in
    ap (λ (t : ℕ). bit_and t 4) (sym split)
    ∙ and_high 2 (flags / 4) (flags % 4) 1 (omega arith)
    ∙ omega (arith, and_mask 1 (flags / 4))

or_two : (q b : ℕ) → b < 2 → bit_or (q * 4096 + b) 2 ≡ q * 4096 + 2 + b
or_two q b h =
    let half : (q * 4096 + b) / 2 ≡ q * 2048 = omega arith in
    or_digit (q * 4096 + b) 2 ∙ rw half (omega (arith, or_low 11 q 1 (omega arith)))

or_four : (q b : ℕ) → b < 4 → bit_or (q * 4096 + b) 4 ≡ q * 4096 + 4 + b
or_four q b h =
    let half : (q * 4096 + b) / 2 ≡ q * 2048 + b / 2 = omega arith in
    let quarter : (q * 2048 + b / 2) / 2 ≡ q * 1024 = omega arith in
    let inner : bit_or (q * 2048 + b / 2) 2 ≡ q * 2048 + 2 + b / 2 =
      or_digit (q * 2048 + b / 2) 2 ∙ rw quarter (omega (arith, or_low 10 q 1 (omega arith))) in
    or_digit (q * 4096 + b) 4 ∙ rw (half, inner) (omega arith)

step_one :
    (q flags : ℕ)
    → (if bit_and flags 1 == 0 then q * 4096 else bit_or (q * 4096) 1) ≡ q * 4096 + flags % 2
step_one q flags = ground (arith, and_mask 1 flags, or_low 12 q 1)

step_two :
    (q b flags : ℕ)
    → b < 2
    → (if bit_and flags 2 == 0 then q * 4096 + b else bit_or (q * 4096 + b) 2)
      ≡ q * 4096 + (flags / 2 % 2 * 2 + b)
step_two q b flags h = ground (arith, flag_two flags, or_two q b h)

step_four :
    (q b flags : ℕ)
    → b < 4
    → (if bit_and flags 4 == 0 then q * 4096 + b else bit_or (q * 4096 + b) 4)
      ≡ q * 4096 + (flags / 4 % 2 * 4 + b)
step_four q b flags h = ground (arith, flag_four flags, or_four q b h)

-- The entry that `map` stores for a 64-bit physical address is its frame with the lowest three bits of
-- the flags, which say present, writable and user; no other bit of the address or the flags gets in.
pub page_entry_lem :
    (paddr flags : ℕ) → paddr < 2 ^ 64 → page_entry paddr flags ≡ paddr / 4096 * 4096 + flags % 8
unfolding page_entry
page_entry_lem paddr flags h =
    let q = paddr / 4096 in
    rw
      (
        frame_lem paddr h,
        step_one q flags,
        step_two q (flags % 2) flags (omega arith),
        step_four q (flags / 2 % 2 * 2 + flags % 2) flags (omega arith),
      )
      (omega arith)

-- The virtual address of a table in the first 2 GB is its frame in the kernel's half.
pub address_lem : (addr : ℕ) → addr < 2 ^ 31 → address addr ≡ addr / 4096 * 4096 + kvirtual_address
unfolding address
address_lem addr h = rw (frame_lem addr (omega arith)) (omega arith)
