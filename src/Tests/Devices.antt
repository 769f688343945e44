-- ===== src/Tests/Devices.antt =====
-- The screen, the drivers and the descriptor tables on small states.
use coronel.Base.{
  ℕ, ◌≡◌, ◌≢◌, ◌≤◌, ◌<◌, ◌*◌, ◌/◌, ◌%◌, refl, true, false, [], ◌∷◌, arith, ltb, ◌==◌, if◌then◌else◌,
  bit_and,
}
use coronel.Screen.{Screen, prints}
use coronel.Screen.Cursor.{IsOnScreen, KeepsRest, prints-IsOnScreen}
use coronel.Drivers.Timer.{divisor, command, timer, pit_frequency, timer_lem}
use coronel.Drivers.Keyboard.{shift_after, shift_events, shift_after_lem}
use coronel.Drivers.Pci.{Arch, pci_address, read_byte, scan_device}
use coronel.Drivers.Pci.Scan.{devices, scan_device-devices}
use coronel.Interrupts.{IdtEntry, gate_entry, idt_setup, idt_gates, idt_limit}
use coronel.Interrupts.Gates.{offset, idt_setup_lem}

-- Near the end of the last line.
abbrev last_line : Screen
last_line = record { cells = λ i. i; current_color = 7; col = 78; lin = 24 }

prints-IsOnScreen_example :
    IsOnScreen (prints (97 ∷ 98 ∷ 99 ∷ []) last_line)
    × KeepsRest last_line (prints (97 ∷ 98 ∷ 99 ∷ []) last_line)
prints-IsOnScreen_example =
    prints-IsOnScreen (97 ∷ 98 ∷ 99 ∷ []) last_line (omega arith, omega arith)

timer_lem_example :
    (1 ≤ divisor 1000)
    × (divisor 1000 ≤ 65535)
    × ((timer 1000).writes
        ≡ (0x40, divisor 1000 / 256) ∷ (0x40, divisor 1000 % 256) ∷ (0x43, command) ∷ [])
    × (command / 64 ≡ 1)
    × (1 ≤ pit_frequency / 1000
        → pit_frequency / 1000 ≤ 65535
        → divisor 1000 ≡ pit_frequency / 1000)
timer_lem_example = timer_lem 1000 (omega arith)

shift_after_lem_example :
    shift_after (0x2a ∷ 0x10 ∷ 0x90 ∷ []) false ≡ shift_events (0x2a ∷ 0x10 ∷ 0x90 ∷ []) false
shift_after_lem_example =
    shift_after_lem (0x2a ∷ 0x10 ∷ 0x90 ∷ []) false (omega arith, (omega arith, (omega arith, tt)))

-- Only function 0 of slot 0 answers.
abbrev one_device : Arch
one_device = record {
  read_byte = λ address port value. 0;
  read_word = λ address port value. if ltb address 0x80000100 then 0x8086 else 0xffff;
  read_dword = λ address port value. 0;
}

single : (bit_and (read_byte one_device (pci_address 0 0 0) 0x0e) 0x80 == 0) ≡ true
unfolding read_byte
single = refl

scan_device-devices_example : scan_device 1 one_device ≡ devices one_device 0 32 0
scan_device-devices_example = scan_device-devices 0 one_device single

abbrev no_gates : ℕ → IdtEntry
no_gates i = gate_entry 0 0

idt_setup_lem_example :
    ((i : ℕ)
      → i < 48
      → (offset (idt_setup (λ i. 0x400000) no_gates i) ≡ 0x400000)
        × ((idt_setup (λ i. 0x400000) no_gates i).dpl ≡ 0))
    × ((i : ℕ) → 48 ≤ i → i ≢ 0x80 → idt_setup (λ i. 0x400000) no_gates i ≡ no_gates i)
    × (offset (idt_setup (λ i. 0x400000) no_gates 0x80) ≡ 0x400000)
    × ((idt_setup (λ i. 0x400000) no_gates 0x80).dpl ≡ 3)
    × (idt_gates ≤ 0x80)
    × (idt_limit < 0x80 * 16)
idt_setup_lem_example = idt_setup_lem (λ i. 0x400000) no_gates (λ j. omega arith)
