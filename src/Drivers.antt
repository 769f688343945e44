-- ===== src/Drivers.antt =====
-- src/kernel/drivers: the interval timer, the keyboard and the PCI bus.
pub mod Ports
pub mod Timer
pub mod Keyboard
pub mod Pci
