-- ===== src/Number/Print.antt =====
-- `print` of src/kernel/arch/iprotected_mode.hpp, by the type of each argument.
use coronel.Base.{ℕ, List, [], ◌∷◌, u32, leb, if◌then◌else◌, ◌+◌, ◌-◌, ◌^◌, refl, ◌∙◌}
use coronel.Screen.{Screen, printc, prints}
use coronel.Screen.Cursor.{IsOnScreen, KeepsRest, prints-IsOnScreen}
use coronel.Number.{Written, printd, printx, itoa, printed, dec, hex}

-- An argument: a `const char*`, a `char`, an integer as its bit pattern, a floating-point number as the
-- integer that it is cast to, or anything else that `prints` takes.
pub data Argument : Type 0 where
  text : List ℕ → Argument
  letter : ℕ → Argument
  number : ℕ → Argument
  floating : ℕ → Argument
  other : List ℕ → Argument

abbrev err : List ℕ
err = b'E' ∷ b'r' ∷ b'r' ∷ b':' ∷ b' ' ∷ []

-- An integer is passed on as an `int`.
unfoldable pub print_value : Argument → Screen → Screen
print_value (Argument.text cs) s = prints cs s
print_value (Argument.letter c) s = printc c s
print_value (Argument.number n) s = printd (u32 n) s
print_value (Argument.floating x) s = printx x s
print_value (Argument.other cs) s = prints cs (prints err s)

unfoldable pub print : List Argument → Screen → Screen
print [] s = s
print (a ∷ rest) s = print rest (print_value a s)

-- From a cursor on the screen to a cursor on the screen, with no write outside it.
pub record Shows (s s' : Screen) : Type 0 where
  pub cursor : IsOnScreen s → IsOnScreen s'
  pub rest : IsOnScreen s → KeepsRest s s'

pub Shows-refl : (s : Screen) → Shows s s
Shows-refl s = record { cursor = λ h. h; rest = λ h i out. refl }

pub Shows-trans : {s t u : Screen} → Shows s t → Shows t u → Shows s u
Shows-trans a b = record {
  cursor = λ h. b.cursor (a.cursor h);
  rest = λ h i out. b.rest (a.cursor h) i out ∙ a.rest h i out;
}

pub prints-Shows : (cs : List ℕ) (s : Screen) → Shows s (prints cs s)
prints-Shows cs s = record {
  cursor = λ h. (prints-IsOnScreen cs s h).0;
  rest = λ h. (prints-IsOnScreen cs s h).1;
}

printc-Shows : (c : ℕ) (s : Screen) → Shows s (printc c s)
unfolding prints
printc-Shows c s = prints-Shows (c ∷ []) s

printed-Shows : (o : Written) (s : Screen) → Shows s (printed o s)
printed-Shows Written.untouched s = Shows-refl s
printed-Shows (Written.within cs) s = prints-Shows cs s
printed-Shows (Written.overrun cs) s = prints-Shows cs s

printd-Shows : (d : ℕ) (s : Screen) → Shows s (printd d s)
unfolding printd
printd-Shows d s =
    printed-Shows (itoa 32 (if leb (2 ^ 31) d then d + (2 ^ 64 - 2 ^ 32) else d) dec) s

pub printx-Shows : (x : ℕ) (s : Screen) → Shows s (printx x s)
unfolding printx
printx-Shows x s =
    Shows-trans (prints-Shows (b'0' ∷ b'x' ∷ []) s)
      (printed-Shows (itoa 32 x hex) (prints (b'0' ∷ b'x' ∷ []) s))

print_value-Shows : (a : Argument) (s : Screen) → Shows s (print_value a s)
unfolding print_value
print_value-Shows (Argument.text cs) s = prints-Shows cs s
print_value-Shows (Argument.letter c) s = printc-Shows c s
print_value-Shows (Argument.number n) s = printd-Shows (u32 n) s
print_value-Shows (Argument.floating x) s = printx-Shows x s
print_value-Shows (Argument.other cs) s =
    Shows-trans (prints-Shows err s) (prints-Shows cs (prints err s))

-- Whatever the arguments are.
pub print-Shows : (rest : List Argument) (s : Screen) → Shows s (print rest s)
unfolding print
print-Shows [] s = Shows-refl s
print-Shows (a ∷ rest) s = Shows-trans (print_value-Shows a s) (print-Shows rest (print_value a s))
