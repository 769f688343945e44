-- ===== src/Paging/Index.antt =====
-- How a virtual address is taken apart.
use coronel.Base.{ℕ, ◌+◌, ◌*◌, ◌/◌, ◌%◌, ◌^◌, ◌<◌, ◌≡◌, ◌↔◌, true, arith}
use coronel.Base.Bits.{and_mask}
use coronel.Paging.{pte, pde, pdpt, pml4, present}

-- The four table indices are below 512, and with the page offset they give back the low 48 bits of
-- the address: two addresses with the same indices and offset are the same address to the walk.
pub indices_lem :
    (addr : ℕ)
    → (pml4 addr < 512)
      × (pdpt addr < 512)
      × (pde addr < 512)
      × (pte addr < 512)
      × (pml4 addr * 2 ^ 39
            + pdpt addr * 2 ^ 30
            + pde addr * 2 ^ 21
            + pte addr * 2 ^ 12
            + addr % 2 ^ 12
          ≡ addr % 2 ^ 48)
unfolding pml4 pdpt pde pte
indices_lem addr =
    let a = and_mask 9 (addr / 2 ^ 39) in
    let b = and_mask 9 (addr / 2 ^ 30) in
    let c = and_mask 9 (addr / 2 ^ 21) in
    let d = and_mask 9 (addr / 2 ^ 12) in
    (
      omega (arith, a),
      omega (arith, b),
      omega (arith, c),
      omega (arith, d),
      omega (arith, a, b, c, d),
    )

pub present_iff : (e : ℕ) → (present e ≡ true) ↔ (e % 2 ≡ 1)
unfolding present
present_iff e = ground (arith, and_mask 1 e)
