-- ===== src/Tests/Start.antt =====
-- src/kernel/main.cpp on a machine without devices.
use coronel.Base.{[], ◌∷◌, none}
use coronel.Machine.{null}
use coronel.Interrupts.{gate_entry}
use coronel.Main.{BootInfo, Found, System}
use coronel.Tests.Boot.{info, two_regions, before_boot}

-- A boot loader that says everything, on a machine without devices.
abbrev all_given : BootInfo
all_given = record {
  info = record info { flags = 0x1844 };
  cmdline = 0x8000;
  vbe_mode = 0x118;
  vbe_interface_seg = 0;
  vbe_interface_off = 0;
  vbe_interface_len = 0;
  framebuffer_addr = 0xfd000000;
  framebuffer_pitch = 4096;
  framebuffer_width = 1024;
  framebuffer_height = 768;
  framebuffer_bpp = 32;
  framebuffer_type = 1;
}

abbrev no_devices : Found
no_devices = record {
  handlers = λ _. 0xffffffff80100000;
  entry_at = two_regions;
  string_at = λ _. b'x' ∷ [];
  pci = record { read_byte = λ _ _ _. 0xff; read_word = λ _ _ _. 0xffff; read_dword = λ _ _ _. 0 };
  bridges = 8;
}

abbrev powered_on : System
powered_on = record {
  arch = null;
  kernel = before_boot;
  screen = record { cells = λ _. 0; current_color = 0; col = 79; lin = 24 };
  gdt = [];
  idt = λ _. gate_entry 0 0;
  timer_handler = none;
  keyboard_handler = none;
}
