-- ===== src/Drivers/Keyboard.antt =====
-- src/kernel/drivers/peripherals/keyboard.cpp: scan codes, the shift state, and the two tables.
use coronel.Base.{
  ℕ, zero, suc, ◌+◌, ◌-◌, ◌≤◌, ◌<◌, ◌≡◌, refl, Bool, true, false, ◌&&◌, ◌||◌, not, bit_and, List,
  [], ◌∷◌, ltb, leb, ◌==◌, if◌then◌else◌, arith, length, get_elem?, Option, none, some, Bool-cases,
  inl, inr, ap, sym, ◌∙◌, All, ◌*◌, ◌/◌, ◌%◌,
}
use coronel.Base.Bits.{and_high, and_mask}

-- The two columns of codes of `KEY_CODES`.
abbrev pub en_us : List ℕ
en_us =
    0 ∷ 27 ∷ 49 ∷ 50 ∷ 51 ∷ 52 ∷ 53 ∷ 54 ∷ 55 ∷ 56 ∷ 57 ∷ 48 ∷ 45 ∷ 61 ∷ 8 ∷ 9 ∷ 113 ∷ 119 ∷ 101
    ∷ 114 ∷ 116 ∷ 121 ∷ 117 ∷ 105 ∷ 111 ∷ 112 ∷ 91 ∷ 93 ∷ 10 ∷ 0 ∷ 97 ∷ 115 ∷ 100 ∷ 102 ∷ 103 ∷ 104
    ∷ 106 ∷ 107 ∷ 108 ∷ 59 ∷ 39 ∷ 96 ∷ 0 ∷ 92 ∷ 122 ∷ 120 ∷ 99 ∷ 118 ∷ 98 ∷ 110 ∷ 109 ∷ 44 ∷ 46 ∷ 47
    ∷ 0 ∷ 42 ∷ 0 ∷ 32 ∷ 0 ∷ 0 ∷ 0 ∷ 0 ∷ 0 ∷ 0 ∷ 0 ∷ 0 ∷ 0 ∷ 0 ∷ 0 ∷ 0 ∷ 0 ∷ 0 ∷ 0 ∷ 45 ∷ 0 ∷ 0 ∷ 0
    ∷ 43 ∷ 0 ∷ 0 ∷ 0 ∷ 0 ∷ 0 ∷ 0 ∷ 0 ∷ 92 ∷ 0 ∷ 0 ∷ 0 ∷ 0 ∷ 0 ∷ []

abbrev pub en_us_shift : List ℕ
en_us_shift =
    0 ∷ 27 ∷ 33 ∷ 64 ∷ 35 ∷ 36 ∷ 37 ∷ 94 ∷ 38 ∷ 42 ∷ 40 ∷ 41 ∷ 95 ∷ 43 ∷ 8 ∷ 9 ∷ 81 ∷ 87 ∷ 69 ∷ 82
    ∷ 84 ∷ 89 ∷ 85 ∷ 73 ∷ 79 ∷ 80 ∷ 123 ∷ 125 ∷ 10 ∷ 0 ∷ 65 ∷ 83 ∷ 68 ∷ 70 ∷ 71 ∷ 72 ∷ 74 ∷ 75 ∷ 76
    ∷ 58 ∷ 34 ∷ 126 ∷ 0 ∷ 124 ∷ 90 ∷ 88 ∷ 67 ∷ 86 ∷ 66 ∷ 78 ∷ 77 ∷ 60 ∷ 62 ∷ 63 ∷ 0 ∷ 42 ∷ 0 ∷ 32
    ∷ 0 ∷ 0 ∷ 0 ∷ 0 ∷ 0 ∷ 0 ∷ 0 ∷ 0 ∷ 0 ∷ 0 ∷ 0 ∷ 0 ∷ 0 ∷ 0 ∷ 0 ∷ 45 ∷ 0 ∷ 0 ∷ 0 ∷ 43 ∷ 0 ∷ 0 ∷ 0
    ∷ 0 ∷ 0 ∷ 0 ∷ 0 ∷ 124 ∷ 0 ∷ 0 ∷ 0 ∷ 0 ∷ 0 ∷ []

get_elem?-none : (xs : List ℕ) (i : ℕ) → length xs ≤ i → get_elem? xs i ≡ none
get_elem?-none [] i h = refl
get_elem?-none (x ∷ xs) zero h = absurd (omega arith)
get_elem?-none (x ∷ xs) (suc i) h = get_elem?-none xs i (omega arith)

-- What a key does to the screen: nothing, a character, or a read behind the end of the table.
pub data Output : Type 0 where
  quiet : Output
  shown : ℕ → Output
  out_of_table : Output

abbrev pub output : Option ℕ → Output
output none = Output.out_of_table
output (some c) = Output.shown c

unfoldable pub on_keyup : ℕ → Bool → Output × Bool
on_keyup c shift =
    if (c == 0xaa) || (c == 0xb6) then (Output.quiet, false) else (Output.quiet, shift)

unfoldable pub on_keydown : ℕ → Bool → Output × Bool
on_keydown c shift =
    if (c == 0x2a) || (c == 0x36)
    then (Output.quiet, true)
    else if shift
    then (output (get_elem? en_us_shift c), shift)
    else (output (get_elem? en_us c), shift)

-- `status` and `data` are what the two ports read.
unfoldable pub on_keyboard : ℕ → ℕ → Bool → Output × Bool
on_keyboard status data_byte shift =
    if bit_and status 0x01 == 0
    then (Output.quiet, shift)
    else if not (bit_and data_byte 0x80 == 0)
    then on_keyup data_byte shift
    else on_keydown data_byte shift

-- Whether a character is a lower-case letter.
abbrev pub is_lower : ℕ → Bool
is_lower c = leb 97 c && leb c 122

-- Each lower-case letter of the first list has its capital in the second.
abbrev capitals : List ℕ → List ℕ → Bool
capitals [] ys = true
capitals (x ∷ xs) [] = not (is_lower x) && capitals xs []
capitals (x ∷ xs) (y ∷ ys) = (not (is_lower x) || (y + 32 == x)) && capitals xs ys

capitals-get :
    (xs ys : List ℕ) (c x : ℕ)
    → capitals xs ys ≡ true
    → get_elem? xs c ≡ some x
    → is_lower x ≡ true
    → get_elem? ys c ≡ some (x - 32)
capitals-get [] ys c x h at lower = absurd (ground arith)
capitals-get (z ∷ xs) [] zero x h at lower = absurd (ground arith)
capitals-get (z ∷ xs) [] (suc c) x h at lower =
    absurd (ground (arith, capitals-get xs [] c x (ground arith) at lower))
capitals-get (z ∷ xs) (y ∷ ys) zero x h at lower = ground arith
capitals-get (z ∷ xs) (y ∷ ys) (suc c) x h at lower = capitals-get xs ys c x (ground arith) at lower

not_shift_key :
    (k x : ℕ)
    → get_elem? en_us k ≡ some 0
    → is_lower x ≡ true
    → (c : ℕ) → get_elem? en_us c ≡ some x
    → (c == k) ≡ false
not_shift_key k x zero_at lower c at = elim (Bool-cases (c == k)) [
  | inl same ↦
      let e : c ≡ k = ground arith in
      let found : some 0 ≡ some x = sym zero_at ∙ sym (ap (get_elem? en_us) e) ∙ at in
      absurd (ground arith)
  | inr other ↦ other
]

-- Where the table without shift has a lower-case letter, the key types it, and with shift held down
-- it types the capital; neither changes the shift state.
on_keydown_capital :
    (c x : ℕ)
    → get_elem? en_us c ≡ some x
    → is_lower x ≡ true
    → (on_keydown c false ≡ (Output.shown x, false))
      × (on_keydown c true ≡ (Output.shown (x - 32), true))
unfolding on_keydown
on_keydown_capital c x at lower =
    let left = not_shift_key 0x2a x refl lower c at in
    let right = not_shift_key 0x36 x refl lower c at in
    let upper = capitals-get en_us en_us_shift c x refl at lower in
    (rw (left, right, at) refl, rw (left, right, upper) refl)

-- The keys that are held down, from the shift events alone.
abbrev pub shift_events : List ℕ → Bool → Bool
shift_events [] shift = shift
shift_events (d ∷ ds) shift = shift_events ds (
    if (d == 0x2a) || (d == 0x36)
    then true
    else if (d == 0xaa) || (d == 0xb6)
    then false
    else shift)

-- The shift state after the bytes that the data port gave, one at each interrupt.
unfoldable pub shift_after : List ℕ → Bool → Bool
shift_after [] shift = shift
shift_after (d ∷ ds) shift = shift_after ds (on_keyboard 1 d shift).1

high_bit : (d : ℕ) → d < 256 → (bit_and d 0x80 == 0) ≡ ltb d 128
high_bit d h =
    let split : d / 128 * 128 + d % 128 ≡ d = omega arith in
    let masked = and_high 7 (d / 128) (d % 128) 1 (omega arith) in
    let low = and_mask 1 (d / 128) in
    let e : bit_and d 0x80 ≡ d / 128 % 2 * 128 =
      ap (λ (t : ℕ). bit_and t 0x80) (sym split) ∙ masked ∙ omega (arith, low) in
    ground (arith, e)

-- What one byte makes of the shift state.
abbrev shift_event : ℕ → Bool → Bool
shift_event d shift =
    if (d == 0x2a) || (d == 0x36) then true else if (d == 0xaa) || (d == 0xb6) then false else shift

on_keydown-shift : (d : ℕ) (shift : Bool) → d < 128 → (on_keydown d shift).1 ≡ shift_event d shift
unfolding on_keydown
on_keydown-shift d shift h =
    let left : (d == 0xaa) ≡ false = ground arith in
    let right : (d == 0xb6) ≡ false = ground arith in
    elim (Bool-cases ((d == 0x2a) || (d == 0x36))) [
      | inl press ↦ rw press refl
      | inr other ↦ elim (Bool-cases shift) [
        | inl on ↦ rw (other, on, left, right) refl
        | inr off ↦ rw (other, off, left, right) refl
      ]
    ]

on_keyup-shift : (d : ℕ) (shift : Bool) → 128 ≤ d → (on_keyup d shift).1 ≡ shift_event d shift
unfolding on_keyup
on_keyup-shift d shift h =
    let left : (d == 0x2a) ≡ false = ground arith in
    let right : (d == 0x36) ≡ false = ground arith in
    elim (Bool-cases ((d == 0xaa) || (d == 0xb6))) [
      | inl release ↦ rw (release, left, right) refl
      | inr other ↦ rw (other, left, right) refl
    ]

on_keyboard-shift :
    (d : ℕ) (shift : Bool) → d < 256 → (on_keyboard 1 d shift).1 ≡ shift_event d shift
unfolding on_keyboard
on_keyboard-shift d shift h = elim (Bool-cases (ltb d 128)) [
  | inl low ↦
      let test : (bit_and d 0x80 == 0) ≡ true = high_bit d h ∙ low in
      rw test (on_keydown-shift d shift (ground arith))
  | inr high ↦
      let test : (bit_and d 0x80 == 0) ≡ false = high_bit d h ∙ high in
      rw test (on_keyup-shift d shift (ground arith))
]

-- After any sequence of bytes from the keyboard the shift state is what the last press or release of a
-- shift key says, whatever other keys did in between.
pub shift_after_lem :
    (ds : List ℕ) (shift : Bool)
    → All (λ d. d < 256) ds
    → shift_after ds shift ≡ shift_events ds shift
unfolding shift_after
shift_after_lem [] shift h = refl
shift_after_lem (d ∷ ds) shift h =
    rw (on_keyboard-shift d shift h.0) (shift_after_lem ds (shift_event d shift) h.1)

-- A scan code from 91 to 127 reads behind the end of the table, with and without shift.
on_keydown_out_of_table :
    (c : ℕ) (shift : Bool) → 91 ≤ c → on_keydown c shift ≡ (Output.out_of_table, shift)
unfolding on_keydown
on_keydown_out_of_table c shift h =
    let left : (c == 0x2a) ≡ false = ground arith in
    let right : (c == 0x36) ≡ false = ground arith in
    let off = get_elem?-none en_us c (omega arith) in
    let off_shift = get_elem?-none en_us_shift c (omega arith) in
    elim (Bool-cases shift) [
      | inl on ↦ rw (left, right, on, off_shift) refl
      | inr out ↦ rw (left, right, out, off) refl
    ]
