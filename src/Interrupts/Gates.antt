-- ===== src/Interrupts/Gates.antt =====
-- What the descriptor tables say after the setup.
use coronel.Base.{
  ℕ, zero, suc, ◌+◌, ◌*◌, ◌/◌, ◌^◌, ◌≤◌, ◌<◌, ◌≡◌, ◌≢◌, ◌&&◌, ltb, leb, ◌==◌, if◌then◌else◌, arith,
  refl, ap, sym, ◌∙◌, Bool-cases, inl, inr, true, false,
}
use coronel.Base.Bits.{and_mask}
use coronel.Machine.{update}
use coronel.Interrupts.{
  IdtEntry, idt_gates, gate_entry, idt_add_gate, idt_add_user_gate, add_gates, idt_setup, idt_limit,
  tss_set_gate, tss_base,
}

-- The entry point that the processor reads from a gate.
abbrev pub offset : IdtEntry → ℕ
offset e = e.offset_lo + e.offset_hi * 2 ^ 16

gate_entry_lem :
    (dpl function : ℕ)
    → function < 2 ^ 64
    → (offset (gate_entry dpl function) ≡ function) × ((gate_entry dpl function).dpl ≡ dpl)
unfolding gate_entry
gate_entry_lem dpl function h =
    (omega (arith, and_mask 16 function, and_mask 48 (function / 2 ^ 16)), refl)

add_gates_lem :
    (n gate : ℕ) (handlers : ℕ → ℕ) (entries : ℕ → IdtEntry) (i : ℕ)
    → add_gates n gate handlers entries i
      ≡ (if leb gate i && ltb i (gate + n) then gate_entry 0 (handlers i) else entries i)
unfolding add_gates idt_add_gate
add_gates_lem zero gate handlers entries i = ground arith
add_gates_lem (suc n) gate handlers entries i =
    let rest =
      add_gates_lem n (gate + 1) handlers (update entries gate (gate_entry 0 (handlers gate))) i in
    elim (Bool-cases (i == gate)) [
      | inl here ↦
          let e : i ≡ gate = ground arith in
          let out : (leb (gate + 1) i && ltb i (gate + 1 + n)) ≡ false = ground arith in
          let in_range : (leb gate i && ltb i (gate + suc n)) ≡ true = ground arith in
          rest ∙ rw (out, here, in_range) (ap (λ (t : ℕ). gate_entry 0 (handlers t)) (sym e))
      | inr there ↦
          let same : (leb (gate + 1) i && ltb i (gate + 1 + n))
              ≡ (leb gate i && ltb i (gate + suc n)) =
            ground arith in
          rest ∙ rw (same, there) refl
    ]

idt_setup_at :
    (handlers : ℕ → ℕ) (entries : ℕ → IdtEntry) (i : ℕ)
    → idt_setup handlers entries i ≡ (
        if i == 0x80
        then gate_entry 3 (handlers 0x80)
        else if ltb i 48
        then gate_entry 0 (handlers i)
        else entries i)
unfolding idt_setup idt_add_user_gate
idt_setup_at handlers entries i =
    let exceptions = add_gates_lem 32 0 handlers entries i in
    let irqs = add_gates_lem 16 32 handlers (add_gates 32 0 handlers entries) i in
    ground (arith, exceptions, irqs)

-- For handlers at 64-bit addresses, after `idt_setup` the gates below 48 lead to their handlers with
-- privilege level 0. The only other entry that is written is number 128, with level 3: it lies behind the
-- 64 entries of the table, and behind the limit that the processor is given.
pub idt_setup_lem :
    (handlers : ℕ → ℕ) (entries : ℕ → IdtEntry)
    → ((j : ℕ) → handlers j < 2 ^ 64)
    → ((i : ℕ)
        → i < 48
        → (offset (idt_setup handlers entries i) ≡ handlers i)
          × ((idt_setup handlers entries i).dpl ≡ 0))
      × ((i : ℕ) → 48 ≤ i → i ≢ 0x80 → idt_setup handlers entries i ≡ entries i)
      × (offset (idt_setup handlers entries 0x80) ≡ handlers 0x80)
      × ((idt_setup handlers entries 0x80).dpl ≡ 3)
      × (idt_gates ≤ 0x80)
      × (idt_limit < 0x80 * 16)
unfolding idt_limit
idt_setup_lem handlers entries small = (
  (λ i lt.
      let at : idt_setup handlers entries i ≡ gate_entry 0 (handlers i) =
        idt_setup_at handlers entries i ∙ ground arith in
      rw at (gate_entry_lem 0 (handlers i) (small i))),
  (λ i le ne. idt_setup_at handlers entries i ∙ ground arith),
  ap offset (idt_setup_at handlers entries 0x80)
      ∙ (gate_entry_lem 3 (handlers 0x80) (small 0x80)).0,
  ap (λ (e : IdtEntry). e.dpl) (idt_setup_at handlers entries 0x80)
      ∙ (gate_entry_lem 3 (handlers 0x80) (small 0x80)).1,
  omega arith,
  omega arith,
)

-- The descriptor that `tss_set_gate` stores gives a 64-bit address back, whatever the words held before.
tss_set_gate_lem :
    (address lo hi : ℕ) → address < 2 ^ 64 → tss_base (tss_set_gate address (lo, hi)) ≡ address
unfolding tss_base tss_set_gate
tss_set_gate_lem address lo hi h = omega (arith, and_mask 24 address, and_mask 8 (address / 2 ^ 24))
