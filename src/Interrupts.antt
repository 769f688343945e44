-- ===== src/Interrupts.antt =====
-- src/kernel/arch/amd64/bootstrap/segments.cpp and irq.cpp: the descriptor tables and the dispatch of
-- hardware interrupts. The entry points of the handlers are assembly code, and parameters here.
pub mod Gates
use coronel.Base.{
  ℕ, zero, suc, ◌+◌, ◌*◌, ◌/◌, ◌%◌, ◌^◌, Bool, true, false, bit_and, List, [], ◌∷◌, ◌++◌, leb, ◌==◌,
  if◌then◌else◌, sub64, ◌-◌,
}
use coronel.Machine.{update}

-- Bit fields packed from the lowest bit on, as pairs of value and width.
pub pack : List (ℕ × ℕ) → ℕ
pack [] = 0
pack ((v, w) ∷ fs) = v % 2 ^ w + 2 ^ w * pack fs

abbrev pub idt_gates : ℕ
idt_gates = 64

-- `idt_entry`, without the fields that are not used.
pub record IdtEntry : Type 0 where
  pub offset_lo : ℕ
  pub selector : ℕ
  pub ist : ℕ
  pub type : ℕ
  pub zero : ℕ
  pub dpl : ℕ
  pub present : ℕ
  pub offset_hi : ℕ

-- `gdt_code_entry`
unfoldable pub code_entry : ℕ → ℕ
unfolding pack
code_entry dpl =
    pack ((0, 42) ∷ (0, 1) ∷ (3, 2) ∷ (dpl, 2) ∷ (1, 1) ∷ (0, 5) ∷ (1, 1) ∷ (0, 1) ∷ (0, 9) ∷ [])

-- `gdt_data_entry`
unfoldable pub data_entry : ℕ
unfolding pack
data_entry = pack ((0, 41) ∷ (1, 1) ∷ (0, 2) ∷ (1, 1) ∷ (0, 2) ∷ (1, 1) ∷ (0, 16) ∷ [])

-- The entries that `gdt_setup` stores.
unfoldable pub gdt_setup : List ℕ
unfolding code_entry data_entry
gdt_setup = 0 ∷ code_entry 0 ∷ data_entry ∷ code_entry 3 ∷ data_entry ∷ 0 ∷ 0 ∷ []

unfoldable pub gdt_limit : ℕ
gdt_limit = 8 * 7 - 1

-- `tss_set_gate`: the two words of the descriptor; `granularity` and the two ignored bits are kept
-- from the low word, the ignored fields from the high one.
unfoldable pub tss_set_gate : ℕ → ℕ × ℕ → ℕ × ℕ
unfolding pack
tss_set_gate address (lo, hi) = (
  pack (
      (0xffff, 16)
      ∷ (bit_and address 0xffffff, 24)
      ∷ (0x9, 4)
      ∷ (0, 1)
      ∷ (0x3, 2)
      ∷ (0x1, 1)
      ∷ (0xf, 4)
      ∷ (0, 1)
      ∷ (lo / 2 ^ 53, 2)
      ∷ (lo / 2 ^ 55, 1)
      ∷ (bit_and (address / 2 ^ 24) 0xff, 8)
      ∷ []),
  pack ((address / 2 ^ 32, 32) ∷ (hi / 2 ^ 32, 8) ∷ (0, 5) ∷ (hi / 2 ^ 45, 19) ∷ []),
)

-- The base address that the processor reads from a descriptor of 16 bytes.
unfoldable pub tss_base : ℕ × ℕ → ℕ
tss_base (lo, hi) = lo / 2 ^ 16 % 2 ^ 24 + lo / 2 ^ 56 % 2 ^ 8 * 2 ^ 24 + hi % 2 ^ 32 * 2 ^ 32

-- What `idt_add_gate` stores for a handler, with the privilege level 0, and `idt_add_user_gate` with 3.
unfoldable pub gate_entry : ℕ → ℕ → IdtEntry
gate_entry dpl function = record {
  offset_lo = bit_and function 0xffff;
  selector = 0x8;
  ist = 0;
  type = 0xe;
  zero = 0;
  dpl = dpl;
  present = 1;
  offset_hi = bit_and (function / 2 ^ 16) 0xffffffffffff;
}

unfoldable pub idt_add_gate : ℕ → ℕ → (ℕ → IdtEntry) → ℕ → IdtEntry
idt_add_gate gate function entries = update entries gate (gate_entry 0 function)

unfoldable pub idt_add_user_gate : ℕ → ℕ → (ℕ → IdtEntry) → ℕ → IdtEntry
idt_add_user_gate gate function entries = update entries gate (gate_entry 3 function)

-- The calls of `idt_add_gate` for the gates from `gate` on, by their number; `handlers` has the entry
-- points by gate.
pub add_gates : ℕ → ℕ → (ℕ → ℕ) → (ℕ → IdtEntry) → ℕ → IdtEntry
unfolding idt_add_gate
add_gates zero gate handlers entries = entries
add_gates (suc n) gate handlers entries =
    add_gates n (gate + 1) handlers (idt_add_gate gate (handlers gate) entries)

-- The memory from `i_entries` on, by index.
unfoldable pub idt_setup : (ℕ → ℕ) → (ℕ → IdtEntry) → ℕ → IdtEntry
idt_setup handlers entries =
    idt_add_user_gate 0x80 (handlers 0x80)
      (add_gates 16 32 handlers (add_gates 32 0 handlers entries))

unfoldable pub idt_limit : ℕ
idt_limit = 16 * idt_gates - 1

-- The writes to ports, in order.
abbrev pub irq_remap : List (ℕ × ℕ)
irq_remap =
    (0x20, 0x11)
    ∷ (0xa0, 0x11)
    ∷ (0x21, 0x20)
    ∷ (0xa1, 0x28)
    ∷ (0x21, 0x04)
    ∷ (0xa1, 0x02)
    ∷ (0x21, 0x01)
    ∷ (0xa1, 0x01)
    ∷ (0x21, 0)
    ∷ (0xa1, 0)
    ∷ []

-- Which handler an interrupt runs.
pub data Dispatch : Type 0 where
  on_timer : Dispatch
  on_keyboard : Dispatch
  nothing : Dispatch

-- The writes to ports and the handler; the Booleans say whether a handler was registered.
unfoldable pub interrupt_handler : ℕ → Bool → Bool → List (ℕ × ℕ) × Dispatch
interrupt_handler int_no timer_set keyboard_set =
    let slave = if leb 0x28 int_no then (0xa0, 0x20) ∷ [] else [] in
    let handler =
      if int_no == 0x20
      then if timer_set then Dispatch.on_timer else Dispatch.nothing
      else if int_no == 0x21
      then if keyboard_set then Dispatch.on_keyboard else Dispatch.nothing
      else Dispatch.nothing in
    (slave ++ ((0x20, 0x20) ∷ []), handler)
