-- ===== src/Drivers/Ports.antt =====
-- src/kernel/arch/amd64/amd64.hpp: the reads and writes of ports, over the instructions of instructions.hpp as
-- a parameter, and the writes of src/kernel/drivers/bus/pci.hpp.
use coronel.Base.{ℕ}
use coronel.Drivers.Pci.{PciAddress, Arch, get_address, address_port, value_port}

-- `in` and `out` on bytes, words and double words; what is behind the ports is the state.
pub record Ports : Type 1 where
  pub State : Type 0
  pub inb : ℕ → State → ℕ
  pub inw : ℕ → State → ℕ
  pub inl : ℕ → State → ℕ
  pub outb : ℕ → ℕ → State → State
  pub outw : ℕ → ℕ → State → State
  pub outl : ℕ → ℕ → State → State

module _ (io : Ports) where
  unfoldable pub read_byte_at : ℕ → ℕ → ℕ → io.State → ℕ
  read_byte_at addr addr_port value_port s = io.inb value_port (io.outl addr_port addr s)

  unfoldable pub read_word_at : ℕ → ℕ → ℕ → io.State → ℕ
  read_word_at addr addr_port value_port s = io.inw value_port (io.outl addr_port addr s)

  unfoldable pub read_dword_at : ℕ → ℕ → ℕ → io.State → ℕ
  read_dword_at addr addr_port value_port s = io.inl value_port (io.outl addr_port addr s)

  unfoldable pub write_byte_at : ℕ → ℕ → ℕ → ℕ → io.State → io.State
  write_byte_at addr addr_port value_port value s =
      io.outb value_port value (io.outl addr_port addr s)

  unfoldable pub write_word_at : ℕ → ℕ → ℕ → ℕ → io.State → io.State
  write_word_at addr addr_port value_port value s =
      io.outw value_port value (io.outl addr_port addr s)

  unfoldable pub write_dword_at : ℕ → ℕ → ℕ → ℕ → io.State → io.State
  write_dword_at addr addr_port value_port value s =
      io.outl value_port value (io.outl addr_port addr s)

  -- The reads as the PCI code sees them. A read leaves the address port as it set it, and the next read
  -- sets it again.
  abbrev pub amd64 : io.State → Arch
  amd64 s = record {
    read_byte = λ a p v. read_byte_at a p v s;
    read_word = λ a p v. read_word_at a p v s;
    read_dword = λ a p v. read_dword_at a p v s;
  }

  -- `pci::write_byte`, `write_word` and `write_dword`
  unfoldable pub write_byte : PciAddress → ℕ → ℕ → io.State → io.State
  write_byte a field value s = write_byte_at (get_address a field) address_port value_port value s

  unfoldable pub write_word : PciAddress → ℕ → ℕ → io.State → io.State
  write_word a field value s = write_word_at (get_address a field) address_port value_port value s

  unfoldable pub write_dword : PciAddress → ℕ → ℕ → io.State → io.State
  write_dword a field value s = write_dword_at (get_address a field) address_port value_port value s
