-- ===== src/Drivers/Pci/Report.antt =====
-- What the scan of src/kernel/drivers/bus/pci.cpp prints of a device.
use coronel.Base.{ℕ, List, [], ◌∷◌, ◌&&◌, ◌==◌, if◌then◌else◌, Bool-cases, inl, inr}
use coronel.Screen.{Screen, prints}
use coronel.Number.{printx}
use coronel.Number.Print.{
  Argument, print, Shows, Shows-refl, Shows-trans, prints-Shows, printx-Shows, print-Shows,
}
use coronel.Drivers.Pci.{PciInfo}

abbrev pci_text : List ℕ
pci_text = b' ' ∷ b'>' ∷ b' ' ∷ b'P' ∷ b'C' ∷ b'I' ∷ b' ' ∷ []

abbrev bars_text : List ℕ
bars_text =
    b' ' ∷ b' ' ∷ b' ' ∷ b'^' ∷ b'-' ∷ b'-' ∷ b' ' ∷ b'B' ∷ b'a' ∷ b'r' ∷ b's' ∷ b':' ∷ b' ' ∷ []

-- `printx(x); prints(end);`
abbrev printx_then : ℕ → ℕ → Screen → Screen
printx_then x end s = prints (end ∷ []) (printx x s)

-- The numbers, each with a blank behind it and the last with a line break.
abbrev print_numbers : List ℕ → Screen → Screen
print_numbers [] s = s
print_numbers (x ∷ []) s = printx_then x b'\n' s
print_numbers (x ∷ y ∷ rest) s = print_numbers (y ∷ rest) (printx_then x b' ' s)

unfoldable pub report : PciInfo → Screen → Screen
report info s =
    let s₁ =
      print
        (Argument.text pci_text
          ∷ Argument.number info.address.bus
          ∷ Argument.text (b':' ∷ [])
          ∷ Argument.number info.address.slot
          ∷ Argument.text (b':' ∷ [])
          ∷ Argument.number info.address.function
          ∷ Argument.text (b' ' ∷ b'-' ∷ b' ' ∷ [])
          ∷ [])
        s in
    let s₂ = print_numbers (info.vendor ∷ info.device ∷ info.klass ∷ info.subclass ∷ []) s₁ in
    if (info.klass == 0x1) && (info.subclass == 0x6)
    then print_numbers info.bars (prints bars_text s₂)
    else s₂

-- The devices in the order of the scan.
unfoldable pub report_all : List PciInfo → Screen → Screen
report_all [] s = s
report_all (info ∷ rest) s = report_all rest (report info s)

printx_then-Shows : (x end : ℕ) (s : Screen) → Shows s (printx_then x end s)
printx_then-Shows x end s = Shows-trans (printx-Shows x s) (prints-Shows (end ∷ []) (printx x s))

print_numbers-Shows : (xs : List ℕ) (s : Screen) → Shows s (print_numbers xs s)
print_numbers-Shows [] s = Shows-refl s
print_numbers-Shows (x ∷ []) s = printx_then-Shows x b'\n' s
print_numbers-Shows (x ∷ y ∷ rest) s =
    Shows-trans (printx_then-Shows x b' ' s) (print_numbers-Shows (y ∷ rest) (printx_then x b' ' s))

report-Shows : (info : PciInfo) (s : Screen) → Shows s (report info s)
unfolding report
report-Shows info s =
    let line =
      Argument.text pci_text
      ∷ Argument.number info.address.bus
      ∷ Argument.text (b':' ∷ [])
      ∷ Argument.number info.address.slot
      ∷ Argument.text (b':' ∷ [])
      ∷ Argument.number info.address.function
      ∷ Argument.text (b' ' ∷ b'-' ∷ b' ' ∷ [])
      ∷ [] in
    let s₁ = print line s in
    let numbers = info.vendor ∷ info.device ∷ info.klass ∷ info.subclass ∷ [] in
    let s₂ = print_numbers numbers s₁ in
    let shown = Shows-trans (print-Shows line s) (print_numbers-Shows numbers s₁) in
    elim (Bool-cases ((info.klass == 0x1) && (info.subclass == 0x6))) [
      | inl disk ↦ rw disk (
          Shows-trans shown (
            Shows-trans (prints-Shows bars_text s₂)
              (print_numbers-Shows info.bars (prints bars_text s₂))))
      | inr other ↦ rw other shown
    ]

pub report_all-Shows : (infos : List PciInfo) (s : Screen) → Shows s (report_all infos s)
unfolding report_all
report_all-Shows [] s = Shows-refl s
report_all-Shows (info ∷ rest) s =
    Shows-trans (report-Shows info s) (report_all-Shows rest (report info s))
