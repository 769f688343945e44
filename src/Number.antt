-- ===== src/Number.antt =====
-- src/kernel/libs/stdlib.hpp: `itoa`, and `printd` and `printx` of
-- src/kernel/arch/amd64/video/protected_mode.cpp. What is written is the list of the bytes in front of the
-- terminator, and whether it ran over the end of the buffer; what lies behind the buffer is not modelled.
pub mod Digits
pub mod RoundTrip
pub mod Print
use coronel.Base.{
  ℕ, zero, suc, ◌+◌, ◌-◌, ◌*◌, ◌/◌, ◌%◌, ◌^◌, Bool, ◌&&◌, List, [], ◌∷◌, ◌++◌, ltb, leb, ◌==◌,
  if◌then◌else◌, sub64, length, get_or, set,
}
use coronel.Screen.{Screen, prints}

-- `base`
abbrev pub dec : ℕ
dec = 10

abbrev pub hex : ℕ
hex = 16

-- `(digit < 10) ? '0' + digit : 'a' + digit - 10`
abbrev pub digit_char : ℕ → ℕ
digit_char digit = if ltb digit 10 then b'0' + digit else b'a' + digit - 10

-- The digits of the loop, lowest first; a number of 64 bits has at most 64 in any base from 2 on.
unfoldable pub digits : ℕ → ℕ → ℕ → List ℕ
digits zero b uvalue = []
digits (suc n) b uvalue =
    let rest = digits n b (uvalue / b) in if uvalue == 0 then [] else digit_char (uvalue % b) ∷ rest

-- The last loop: swaps at `j` and `i` while `j < i`, by the rounds that it may take.
unfoldable pub swap_ends : ℕ → ℕ → ℕ → List ℕ → List ℕ
swap_ends zero j i buffer = buffer
swap_ends (suc n) j i buffer =
    let swapped = set (set buffer j (get_or buffer i 0)) i (get_or buffer j 0) in
    let rest = swap_ends n (j + 1) (i - 1) swapped in if ltb j i then rest else buffer

-- What became of the buffer: nothing was written, the bytes and the terminator lie in it, or they run over
-- its end.
pub data Written : Type 0 where
  untouched : Written
  within : List ℕ → Written
  overrun : List ℕ → Written

-- `value` as the bit pattern of an `int64_t`; the terminator takes a byte too.
unfoldable pub itoa : ℕ → ℕ → ℕ → Written
itoa size value b =
    let negative = (b == dec) && leb (2 ^ 63) value in
    let uvalue = if negative then sub64 0 value else value in
    let buffer = digits 64 b uvalue ++ (if negative then b'-' ∷ [] else []) in
    let turned = swap_ends (length buffer) 0 (length buffer - 1) buffer in
    if leb size 1
    then Written.untouched
    else if value == 0
    then Written.within (b'0' ∷ [])
    else if ltb (length buffer) size
    then Written.within turned
    else Written.overrun turned

-- The callers print the bytes up to the terminator, wherever it lies.
abbrev pub printed : Written → Screen → Screen
printed Written.untouched s = s
printed (Written.within cs) s = prints cs s
printed (Written.overrun cs) s = prints cs s

-- An `int` is extended to 64 bits.
unfoldable pub printd : ℕ → Screen → Screen
printd d s =
    let value = if leb (2 ^ 31) d then d + (2 ^ 64 - 2 ^ 32) else d in printed (itoa 32 value dec) s

unfoldable pub printx : ℕ → Screen → Screen
printx x s = printed (itoa 32 x hex) (prints (b'0' ∷ b'x' ∷ []) s)
