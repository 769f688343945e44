-- ===== src/Main/Start.antt =====
-- What `kmain` leaves behind.
use coronel.Base.{false, some}
use coronel.Screen.{Screen, prints}
use coronel.Drivers.Timer.{timer}
use coronel.Drivers.Pci.{scan_device}
use coronel.Drivers.Pci.Report.{report_all}
use coronel.Kernel.Manager.{initialize_memory}
use coronel.Main.{
  Found, BootInfo, System, get_arch, print_welcome, print_command_line, print_vbe,
  print_framebuffer, scanning,
}

-- What is shown after the screen was cleared.
shown : Found → BootInfo → Screen → Screen
shown found b s =
    report_all (scan_device found.bridges found.pci)
      (prints scanning (print_framebuffer b (print_vbe b (print_command_line found b s))))

-- The system at the end of `kmain`.
booted : Found → BootInfo → System → System
booted found b y = record (get_arch found y).1 {
  kernel = initialize_memory b.info found.entry_at (get_arch found y).1.kernel;
  screen = shown found b (print_welcome (get_arch found y).1.screen);
  timer_handler = some (timer 100);
  keyboard_handler = some false;
}
