-- ===== src/Drivers/Pci.antt =====
-- src/kernel/drivers/bus/pci.hpp and pci.cpp: configuration addresses, and the scan of the buses. The
-- reads of `iarch` are a parameter: what a port pair answers to an address. The scan's effect is the
-- list of the devices that it prints, in order; the callback is called nowhere.
pub mod Address
pub mod Scan
pub mod Report
use coronel.Base.{
  ℕ, zero, suc, ◌+◌, ◌-◌, ◌*◌, ◌/◌, ◌^◌, Bool, true, false, not, ◌&&◌, ◌||◌, bit_and, bit_or, List,
  [], ◌∷◌, ◌++◌, ltb, ◌==◌, if◌then◌else◌, u16,
}

pub record PciAddress : Type 0 where
  pub bus : ℕ
  pub slot : ℕ
  pub function : ℕ

abbrev pub pci_address : ℕ → ℕ → ℕ → PciAddress
pci_address b s f = record { bus = b; slot = s; function = f }

unfoldable pub get_address : PciAddress → ℕ → ℕ
get_address a field =
    bit_or
      (bit_or (bit_or (bit_or 0x80000000 (a.bus * 2 ^ 16)) (a.slot * 2 ^ 11)) (a.function * 2 ^ 8))
      (bit_and field 0xfc)

-- `pci_info_t`
pub record PciInfo : Type 0 where
  pub address : PciAddress
  pub klass : ℕ
  pub subclass : ℕ
  pub vendor : ℕ
  pub device : ℕ
  pub bars : List ℕ

unfoldable pub hash : PciInfo → ℕ
hash i = bit_or (i.vendor * 2 ^ 32) i.device

unfoldable pub same_device : PciInfo → PciInfo → Bool
same_device i j =
    (i.address.bus == j.address.bus)
    && (i.address.slot == j.address.slot)
    && (i.address.function == j.address.function)

-- The reads of `iarch`: address, address port and value port to the value.
pub record Arch : Type 0 where
  pub read_byte : ℕ → ℕ → ℕ → ℕ
  pub read_word : ℕ → ℕ → ℕ → ℕ
  pub read_dword : ℕ → ℕ → ℕ → ℕ

abbrev pub address_port : ℕ
address_port = 0xcf8

abbrev pub value_port : ℕ
value_port = 0xcfc

unfoldable pub read_byte : Arch → PciAddress → ℕ → ℕ
read_byte arch a field =
    arch.read_byte (get_address a field) address_port (value_port + bit_and field 0x3)

unfoldable pub read_word : Arch → PciAddress → ℕ → ℕ
read_word arch a field =
    arch.read_word (get_address a field) address_port (value_port + bit_and field 0x2)

unfoldable pub read_dword : Arch → PciAddress → ℕ → ℕ
read_dword arch a field = arch.read_dword (get_address a field) address_port value_port

unfoldable pub get_type : Arch → PciAddress → ℕ
get_type arch a = u16 (bit_or (read_byte arch a 0x0b * 2 ^ 8) (read_byte arch a 0x0a))

abbrev pub pci_none : ℕ
pci_none = 0xffff

abbrev pub type_bridge : ℕ
type_bridge = 0x604

-- `-1` as the bit pattern of an `int`.
abbrev pub any_type : ℕ
any_type = 2 ^ 32 - 1

unfoldable pub info_of : Arch → PciAddress → PciInfo
info_of arch a = record {
  address = a;
  klass = read_byte arch a 0x0b;
  subclass = read_byte arch a 0x0a;
  vendor = read_word arch a 0x00;
  device = read_word arch a 0x02;
  bars =
      read_dword arch a 0x10
      ∷ read_dword arch a 0x14
      ∷ read_dword arch a 0x18
      ∷ read_dword arch a 0x1c
      ∷ read_dword arch a 0x20
      ∷ read_dword arch a 0x24
      ∷ [];
}

-- The loops take what scans one part as an argument, since a bridge leads back to a bus.
-- `for (function = …; function < MAX_PCI_FUNCTIONS; function++)` of `scan_slot`, by the rounds left.
unfoldable pub more_functions : (PciAddress → List PciInfo) → Arch → ℕ → ℕ → ℕ → ℕ → List PciInfo
more_functions scan arch bus slot zero function = []
more_functions scan arch bus slot (suc n) function =
    let rest = more_functions scan arch bus slot n (function + 1) in
    if read_word arch (pci_address bus slot function) 0x00 == pci_none
    then rest
    else scan (pci_address bus slot function) ++ rest

unfoldable pub scan_slot : (PciAddress → List PciInfo) → Arch → ℕ → ℕ → List PciInfo
scan_slot scan arch bus slot =
    let a = pci_address bus slot 0 in
    let more = more_functions scan arch bus slot 7 1 in
    if read_word arch a 0x00 == pci_none
    then []
    else if bit_and (read_byte arch a 0x0e) 0x80 == 0
    then scan a
    else scan a ++ more

-- The slots from `slot` on, by the rounds left.
unfoldable pub scan_slots : (PciAddress → List PciInfo) → Arch → ℕ → ℕ → ℕ → List PciInfo
scan_slots scan arch bus zero slot = []
scan_slots scan arch bus (suc n) slot =
    scan_slot scan arch bus slot ++ scan_slots scan arch bus n (slot + 1)

-- `scan_function`, with the number of bridges that may still be passed.
unfoldable pub scan_function : ℕ → Arch → ℕ → PciAddress → List PciInfo
scan_function zero arch type a = []
scan_function (suc bridges) arch type a =
    let printed =
      if (type == any_type) || (type == get_type arch a) then info_of arch a ∷ [] else [] in
    let secondary_bus = read_byte arch a 0x19 in
    let behind = scan_slots (scan_function bridges arch type) arch secondary_bus 32 0 in
    if (type == type_bridge) && not (secondary_bus == 0) then printed ++ behind else printed

unfoldable pub scan_bus : ℕ → Arch → ℕ → ℕ → List PciInfo
scan_bus bridges arch type bus = scan_slots (scan_function bridges arch type) arch bus 32 0

-- The host controllers from `function` on, by the rounds left.
unfoldable pub scan_controllers : ℕ → Arch → ℕ → ℕ → List PciInfo
scan_controllers bridges arch zero function = []
scan_controllers bridges arch (suc n) function =
    let rest = scan_controllers bridges arch n (function + 1) in
    if read_word arch (pci_address 0 0 function) 0x00 == pci_none
    then []
    else scan_bus bridges arch any_type function ++ rest

unfoldable pub scan_device : ℕ → Arch → List PciInfo
scan_device bridges arch =
    let controllers = scan_controllers bridges arch 8 0 in
    if bit_and (read_byte arch (pci_address 0 0 0) 0x0e) 0x80 == 0
    then scan_bus bridges arch any_type 0
    else controllers
