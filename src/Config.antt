-- ===== src/Config.antt =====
-- src/kernel/config.hpp: the constants and the page arithmetic that the memory managers share.
pub mod Align
use coronel.Base.{ℕ, ◌+◌, ◌-◌, ◌*◌, ◌^◌, Bool, bit_and, u64, add64, sub64, ◌==◌}

abbrev pub kvirtual_address : ℕ
kvirtual_address = 0xffffffff80000000

abbrev pub pci_virtual_address : ℕ
pci_virtual_address = kvirtual_address + 0x40000000

-- 4_KB
abbrev pub frame_size : ℕ
frame_size = 4096

abbrev pub vga_virtual_address : ℕ
vga_virtual_address = kvirtual_address + 0xb8000

unfoldable pub is_aligned : ℕ → Bool
is_aligned address = bit_and address (frame_size - 1) == 0

-- `-FRAME_SIZE` on `size_t`.
unfoldable pub align_down : ℕ → ℕ
align_down address = bit_and address (sub64 0 frame_size)

unfoldable pub align_up : ℕ → ℕ
unfolding align_down
align_up address = align_down (sub64 (add64 address frame_size) 1)

unfoldable pub kvirt_to_physical : ℕ → ℕ
kvirt_to_physical addr = sub64 addr kvirtual_address
