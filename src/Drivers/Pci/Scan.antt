-- ===== src/Drivers/Pci/Scan.antt =====
-- What a scan of all types prints.
use coronel.Base.{
  ℕ, zero, suc, ◌+◌, ◌≡◌, refl, Bool, true, false, not, List, [], ◌∷◌, ◌++◌, ◌==◌, bit_and,
  if◌then◌else◌, ap₂, ◌∙◌, sym, Bool-cases, inl, inr,
}
use coronel.Drivers.Pci.{
  PciAddress, PciInfo, Arch, pci_address, pci_none, any_type, read_word, read_byte, info_of,
  more_functions, scan_slot, scan_slots, scan_function, scan_bus, scan_device,
}

-- A function answers with a vendor.
abbrev pub answers : Arch → PciAddress → Bool
answers arch a = not (read_word arch a 0x00 == pci_none)

-- The functions to look at in a slot: all eight if function 0 says so, else function 0.
abbrev pub functions : Arch → ℕ → ℕ → List ℕ
functions arch bus slot =
    if bit_and (read_byte arch (pci_address bus slot 0) 0x0e) 0x80 == 0
    then 0 ∷ []
    else 0 ∷ 1 ∷ 2 ∷ 3 ∷ 4 ∷ 5 ∷ 6 ∷ 7 ∷ []

abbrev pub answering : Arch → ℕ → ℕ → List ℕ → List PciInfo
answering arch bus slot [] = []
answering arch bus slot (f ∷ fs) =
    if answers arch (pci_address bus slot f)
    then info_of arch (pci_address bus slot f) ∷ answering arch bus slot fs
    else answering arch bus slot fs

-- The devices of a slot, and of the `n` slots from `slot` on.
abbrev pub slot_devices : Arch → ℕ → ℕ → List PciInfo
slot_devices arch bus slot =
    if answers arch (pci_address bus slot 0)
    then answering arch bus slot (functions arch bus slot)
    else []

abbrev pub devices : Arch → ℕ → ℕ → ℕ → List PciInfo
devices arch bus zero slot = []
devices arch bus (suc n) slot = slot_devices arch bus slot ++ devices arch bus n (slot + 1)

scan_function_any :
    (bridges : ℕ) (arch : Arch) (a : PciAddress)
    → scan_function (suc bridges) arch any_type a ≡ info_of arch a ∷ []
unfolding scan_function
scan_function_any bridges arch a = refl

-- The functions from `f` on.
from : ℕ → ℕ → List ℕ
from zero f = []
from (suc n) f = f ∷ from n (f + 1)

more_functions_any :
    (bridges : ℕ) (arch : Arch) (bus slot n f : ℕ)
    → more_functions (scan_function (suc bridges) arch any_type) arch bus slot n f
      ≡ answering arch bus slot (from n f)
unfolding more_functions from
more_functions_any bridges arch bus slot zero f = refl
more_functions_any bridges arch bus slot (suc n) f =
    let rest = more_functions_any bridges arch bus slot n (f + 1) in
    elim (Bool-cases (read_word arch (pci_address bus slot f) 0x00 == pci_none)) [
      | inl silent ↦ rw silent rest
      | inr there ↦ rw (there, scan_function_any bridges arch (pci_address bus slot f), rest) refl
    ]

answering-there :
    (arch : Arch) (bus slot f : ℕ) (fs : List ℕ)
    → (read_word arch (pci_address bus slot f) 0x00 == pci_none) ≡ false
    → answering arch bus slot (f ∷ fs)
      ≡ info_of arch (pci_address bus slot f) ∷ answering arch bus slot fs
answering-there arch bus slot f fs h = rw h refl

scan_slot_any :
    (bridges : ℕ) (arch : Arch) (bus slot : ℕ)
    → scan_slot (scan_function (suc bridges) arch any_type) arch bus slot
      ≡ slot_devices arch bus slot
unfolding scan_slot from
scan_slot_any bridges arch bus slot =
    let a = pci_address bus slot 0 in
    let more = more_functions_any bridges arch bus slot 7 1 in
    let main = scan_function_any bridges arch a in
    elim (Bool-cases (read_word arch a 0x00 == pci_none)) [
      | inl silent ↦ rw silent refl
      | inr there ↦ elim (Bool-cases (bit_and (read_byte arch a 0x0e) 0x80 == 0)) [
        | inl single ↦ rw (there, single, main) (sym (answering-there arch bus slot 0 [] there))
        | inr multi ↦
            rw (there, multi, main, more)
              (sym (answering-there arch bus slot 0 (1 ∷ 2 ∷ 3 ∷ 4 ∷ 5 ∷ 6 ∷ 7 ∷ []) there))
      ]
    ]

scan_slots_any :
    (bridges : ℕ) (arch : Arch) (bus n slot : ℕ)
    → scan_slots (scan_function (suc bridges) arch any_type) arch bus n slot
      ≡ devices arch bus n slot
unfolding scan_slots
scan_slots_any bridges arch bus zero slot = refl
scan_slots_any bridges arch bus (suc n) slot =
    ap₂ (λ (xs ys : List PciInfo). xs ++ ys) (scan_slot_any bridges arch bus slot)
      (scan_slots_any bridges arch bus n (slot + 1))

scan_bus_any :
    (bridges : ℕ) (arch : Arch) (bus : ℕ)
    → scan_bus (suc bridges) arch any_type bus ≡ devices arch bus 32 0
unfolding scan_bus
scan_bus_any bridges arch bus = scan_slots_any bridges arch bus 32 0

scan_device_single :
    (bridges : ℕ) (arch : Arch)
    → (bit_and (read_byte arch (pci_address 0 0 0) 0x0e) 0x80 == 0) ≡ true
    → scan_device (suc bridges) arch ≡ scan_bus (suc bridges) arch any_type 0
unfolding scan_device
scan_device_single bridges arch single = rw single refl

-- If device 0:0:0 is not a multifunction device, the scan that `scan_device` starts lists the functions
-- of bus 0 that answer, once, by slot and function: in a slot whose function 0 does not answer none, and
-- beyond function 0 only where the slot says so. Nothing behind a bridge is listed, however many
-- bridges may be passed.
pub scan_device-devices :
    (bridges : ℕ) (arch : Arch)
    → (bit_and (read_byte arch (pci_address 0 0 0) 0x0e) 0x80 == 0) ≡ true
    → scan_device (suc bridges) arch ≡ devices arch 0 32 0
scan_device-devices bridges arch single =
    scan_device_single bridges arch single ∙ scan_bus_any bridges arch 0
