-- ===== src/Number/RoundTrip.antt =====
-- Reading back what `itoa` writes.
use coronel.Base.{
  ℕ, zero, suc, ◌+◌, ◌-◌, ◌*◌, ◌/◌, ◌%◌, ◌^◌, ◌≤◌, ◌<◌, ◌≡◌, refl, true, false, ◌&&◌, Bool, List,
  [], ◌∷◌, ◌++◌, ltb, leb, ◌==◌, if◌then◌else◌, arith, length, All, sub64, sym, ap, ◌∙◌, Bool-cases,
  length-append, inl, inr, ◌≢◌,
}
use mathlib.Core.List.{append-nil}
use native.Mathlib.Nat.{div-add-mod, mod-lt, div-lt_iff_lt-mul, mul-le-mul_left, pow-suc, pow-zero}
use coronel.Number.{Written, dec, digit_char, digits, swap_ends, itoa}
use coronel.Number.Digits.{backwards, backwards-snoc, length-backwards, swap_ends_lem}

-- The value of a digit, of digits highest first after `acc`, and of a text with a sign.
abbrev pub digit_of : ℕ → ℕ
digit_of c = if ltb c 58 then c - 48 else c - 87

abbrev pub number : ℕ → ℕ → List ℕ → ℕ
number b acc [] = acc
number b acc (c ∷ cs) = number b (acc * b + digit_of c) cs

abbrev pub read : ℕ → List ℕ → ℕ
read b [] = 0
read b (c ∷ cs) = if c == b'-' then sub64 0 (number b 0 cs) else number b 0 (c ∷ cs)

-- The value of digits lowest first.
abbrev value_of : ℕ → List ℕ → ℕ
value_of b [] = 0
value_of b (c ∷ cs) = digit_of c + b * value_of b cs

digit_char-digit_of : (d : ℕ) → d < 16 → digit_of (digit_char d) ≡ d
digit_char-digit_of d h = ground arith

number-append :
    (b acc c : ℕ) (cs : List ℕ) → number b acc (cs ++ c ∷ []) ≡ number b acc cs * b + digit_of c
number-append b acc c [] = refl
number-append b acc c (x ∷ cs) = number-append b (acc * b + digit_of x) c cs

number-backwards : (b : ℕ) (cs : List ℕ) → number b 0 (backwards cs) ≡ value_of b cs
number-backwards b [] = refl
number-backwards b (c ∷ cs) =
    number-append b 0 c (backwards cs)
    ∙ omega (arith, ap (λ (t : ℕ). t * b) (number-backwards b cs))

half : (b u n : ℕ) → 2 ≤ b → u < 2 ^ suc n → u / b < 2 ^ n
half b u n hb hu =
    let grows : 2 ^ n * 2 ≤ 2 ^ n * b = mul-le-mul_left (2 ^ n) hb in
    (div-lt_iff_lt-mul {k = b} {x = u} {y = 2 ^ n} (omega arith)).1
      (omega (arith, grows, pow-suc 2 n))

value_of-digits : (n b u : ℕ) → 2 ≤ b → b ≤ 16 → u < 2 ^ n → value_of b (digits n b u) ≡ u
unfolding digits
value_of-digits zero b u hb hb' h = omega arith
value_of-digits (suc n) b u hb hb' h = elim (Bool-cases (u == 0)) [
  | inl done ↦ rw done (ground (arith, done))
  | inr more ↦
      let low : u % b < b = mod-lt u (omega arith) in
      let digit = digit_char-digit_of (u % b) (omega (arith, low)) in
      let rest = value_of-digits n b (u / b) hb hb' (half b u n hb h) in
      rw (more, digit, rest) (omega (arith, div-add-mod u b))
]

-- Digits are no sign.
AreDigits : List ℕ → Type 0
AreDigits = All (λ c. 48 ≤ c)

digits-AreDigits : (n b u : ℕ) → AreDigits (digits n b u)
unfolding digits AreDigits
digits-AreDigits zero b u = tt
digits-AreDigits (suc n) b u = elim (Bool-cases (u == 0)) [
  | inl done ↦ rw done tt
  | inr more ↦ rw more (ground arith, digits-AreDigits n b (u / b))
]

AreDigits-append : (cs ds : List ℕ) → AreDigits cs → AreDigits ds → AreDigits (cs ++ ds)
unfolding AreDigits
AreDigits-append [] ds h k = k
AreDigits-append (c ∷ cs) ds h k = (h.0, AreDigits-append cs ds h.1 k)

backwards-AreDigits : (cs : List ℕ) → AreDigits cs → AreDigits (backwards cs)
unfolding AreDigits
backwards-AreDigits [] h = tt
backwards-AreDigits (c ∷ cs) h =
    AreDigits-append (backwards cs) (c ∷ []) (backwards-AreDigits cs h.1) (h.0, tt)

read-number : (b : ℕ) (cs : List ℕ) → AreDigits cs → read b cs ≡ number b 0 cs
unfolding AreDigits
read-number b [] h = refl
read-number b (c ∷ cs) h = let plain : (c == 45) ≡ false = ground (arith, h.0) in rw plain refl

-- The digits of a number, turned around, are its text.
read-digits : (b u : ℕ) → 2 ≤ b → b ≤ 16 → u < 2 ^ 64 → number b 0 (backwards (digits 64 b u)) ≡ u
read-digits b u hb hb' h = number-backwards b (digits 64 b u) ∙ value_of-digits 64 b u hb hb' h

swapped :
    (buffer : List ℕ) → swap_ends (length buffer) 0 (length buffer - 1) buffer ≡ backwards buffer
swapped buffer =
    let turned =
      swap_ends_lem (length buffer) 0 (length buffer - 1) [] buffer [] (omega arith) refl
        (omega arith) in
    ap (λ (l : List ℕ). swap_ends (length buffer) 0 (length buffer - 1) l) (sym (append-nil buffer))
    ∙ turned
    ∙ append-nil (backwards buffer)

-- The number that is written, and the bytes of its sign.
abbrev pub is_negative : ℕ → ℕ → Bool
is_negative b value = (b == dec) && leb (2 ^ 63) value

abbrev pub magnitude : ℕ → ℕ → ℕ
magnitude b value = if is_negative b value then sub64 0 value else value

abbrev pub sign_length : ℕ → ℕ → ℕ
sign_length b value = if is_negative b value then 1 else 0

abbrev pub text_of : ℕ → ℕ → List ℕ
text_of b value =
    if is_negative b value
    then b'-' ∷ backwards (digits 64 b (sub64 0 value))
    else backwards (digits 64 b value)

length-text_of :
    (b value : ℕ)
    → length (text_of b value) ≡ length (digits 64 b (magnitude b value)) + sign_length b value
length-text_of b value = elim (Bool-cases (is_negative b value)) [
  | inl minus ↦ rw minus (omega (arith, length-backwards (digits 64 b (sub64 0 value))))
  | inr plus ↦ rw plus (omega (arith, length-backwards (digits 64 b value)))
]

-- What `itoa` writes for a number that is not 0.
itoa_text :
    (size value b : ℕ)
    → 1 < size
    → value ≢ 0
    → itoa size value b ≡ (
        if ltb (length (text_of b value)) size
        then Written.within (text_of b value)
        else Written.overrun (text_of b value))
unfolding itoa
itoa_text size value b large ne =
    let fits : leb size 1 ≡ false = ground arith in
    let not_zero : (value == 0) ≡ false = ground arith in
    elim (Bool-cases (is_negative b value)) [
      | inl minus ↦
          let ds = digits 64 b (sub64 0 value) in
          let long : length (ds ++ b'-' ∷ []) ≡ suc (length (backwards ds)) =
            length-append ds (b'-' ∷ []) ∙ omega (arith, length-backwards ds) in
          rw (fits, not_zero, minus, swapped, backwards-snoc, long) refl
      | inr plus ↦
          let ds = digits 64 b value in
          let long : length ds ≡ length (backwards ds) = sym (length-backwards ds) in
          rw (fits, not_zero, plus, append-nil, swapped, sym long) refl
    ]

zero_text : (size b : ℕ) → 1 < size → itoa size 0 b ≡ Written.within (b'0' ∷ [])
unfolding itoa
zero_text size b large = let fits : leb size 1 ≡ false = ground arith in rw fits refl

-- The number of digits, from above and from below.
length-digits : (n k b u : ℕ) → 2 ≤ b → u < b ^ k → length (digits n b u) ≤ k
unfolding digits
length-digits zero k b u hb h = omega arith
length-digits (suc n) zero b u hb h =
    let none_left : (u == 0) ≡ true = ground (arith, pow-zero b, h) in rw none_left (omega arith)
length-digits (suc n) (suc k) b u hb h = elim (Bool-cases (u == 0)) [
  | inl done ↦ rw done (omega arith)
  | inr more ↦
      let lower =
        (div-lt_iff_lt-mul {k = b} {x = u} {y = b ^ k} (omega arith)).1
          (omega (arith, pow-suc b k, h)) in
      let rest = length-digits n k b (u / b) hb lower in rw more (omega (arith, rest))
]

-- The text reads back as the value.
read-text_of : (value b : ℕ) → value < 2 ^ 64 → 2 ≤ b → b ≤ 16 → read b (text_of b value) ≡ value
read-text_of value b small lo hi = elim (Bool-cases (is_negative b value)) [
  | inl minus ↦
      let u = sub64 0 value in
      let negative : leb (2 ^ 63) value ≡ true = ground (arith, minus) in
      let large : 2 ^ 63 ≤ value = ground (arith, negative) in
      let back : sub64 0 u ≡ value = omega arith in
      rw (minus, read-digits b u lo hi (omega arith)) back
  | inr plus ↦
      let ds = digits 64 b value in
      let text =
        read-number b (backwards ds) (backwards-AreDigits ds (digits-AreDigits 64 b value)) in
      rw (plus, text) (read-digits b value lo hi small)
]

-- In every base from 2 to 16 and for every 64-bit value, if the number to write, the absolute
-- value for a negative one in base 10, has at most `n` digits, and the buffer of at least two
-- bytes has room for `n` digits, the sign and the terminator, then what `itoa` writes lies in the
-- buffer with its terminator and reads back as the value, a minus sign in front meaning the
-- negative number.
pub read-itoa :
    (n size value b : ℕ)
    → 1 < size
    → value < 2 ^ 64
    → 2 ≤ b
    → b ≤ 16
    → magnitude b value < b ^ n
    → n + sign_length b value < size
    → (cs : List ℕ) × (itoa size value b ≡ Written.within cs)
      × (length cs < size)
      × (read b cs ≡ value)
read-itoa n size zero b large small lo hi digits_at_most enough =
    (b'0' ∷ [], zero_text size b large, large, omega arith)
read-itoa n size (suc v) b large small lo hi digits_at_most enough =
    let few = length-digits 64 n b (magnitude b (suc v)) lo digits_at_most in
    let long = length-text_of b (suc v) in
    let fits : length (text_of b (suc v)) < size = omega (arith, few, long, enough) in
    let inside : ltb (length (text_of b (suc v))) size ≡ true = ground (arith, fits) in
    (
      text_of b (suc v),
      itoa_text size (suc v) b large (omega arith) ∙ rw inside refl,
      fits,
      read-text_of (suc v) b small lo hi,
    )
