-- ===== src/Screen/Cursor.antt =====
-- The cursor stays on the screen, and only the screen is written.
use coronel.Base.{
  ℕ, ◌+◌, ◌*◌, ◌%◌, ◌≤◌, ◌<◌, ◌≡◌, ◌||◌, false, List, [], ◌∷◌, leb, ◌==◌, arith, refl, ◌∙◌,
  Bool-cases, inl, inr, true, ◌⊎◌, ◌≢◌, subst, sym,
}
use coronel.Machine.{update}
use coronel.Screen.{Screen, line, next_line, printc, prints, cell_of, width, height}
use coronel.Screen.Scroll.{scroll_down_lem}

-- The cursor is inside the 80 x 25 screen.
abbrev pub IsOnScreen : Screen → Type 0
IsOnScreen s = (s.col < width) × (s.lin < height)

-- No cell from the end of the screen on has changed.
abbrev pub KeepsRest : Screen → Screen → Type 0
KeepsRest s s' = (i : ℕ) → 2000 ≤ i → s'.cells i ≡ s.cells i

next_line_lem : (s : Screen) → s.lin < height → IsOnScreen (next_line s) × KeepsRest s (next_line s)
unfolding next_line
next_line_lem s h = elim (Bool-cases (leb 25 ((s.lin + 1) % 256))) [
  | inl last ↦
      let s₁ : Screen = record s { col = 0; lin = (s.lin + 1) % 256 } in
      let scrolled = scroll_down_lem s₁ in
      rw last (
        (omega (arith, scrolled.2), omega (arith, scrolled.1)),
        (λ i out. scrolled.0 i ∙ ground arith),
      )
  | inr more ↦ rw more ((omega arith, ground (arith, more)), (λ i out. refl))
]

-- The state after a character was stored at the cursor.
stored : ℕ → Screen → Screen
stored c s = record s {
  cells = update s.cells (s.lin * 80 + s.col) (cell_of c s.current_color);
  col = (s.col + 1) % 256;
}

printc-cases :
    (c : ℕ) (s : Screen)
    → (printc c s ≡ next_line s)
      ⊎ ((leb 80 (stored c s).col ≡ true) × (printc c s ≡ next_line (stored c s)))
      ⊎ ((leb 80 (stored c s).col ≡ false) × (printc c s ≡ stored c s))
unfolding printc stored
printc-cases c s = elim (Bool-cases ((c == b'\n') || (c == b'\r'))) [
  | inl newline ↦ inl (rw newline)
  | inr other ↦ elim (Bool-cases (leb 80 ((s.col + 1) % 256))) [
    | inl full ↦ inr (inl (full, rw (other, full)))
    | inr room ↦ inr (inr (room, rw (other, room)))
  ]
]

stored_rest : (c : ℕ) (s : Screen) → IsOnScreen s → KeepsRest s (stored c s)
unfolding stored
stored_rest c s h i out = ground arith

Safe : Screen → Screen → Type 0
Safe s s' = IsOnScreen s' × KeepsRest s s'

next_line-Safe : (s s' : Screen) → s'.lin < height → KeepsRest s s' → Safe s (next_line s')
unfolding Safe
next_line-Safe s s' h kept =
    let next = next_line_lem s' h in (next.0, (λ i out. next.1 i out ∙ kept i out))

stored_lin : (c : ℕ) (s : Screen) → IsOnScreen s → (stored c s).lin < height
unfolding stored
stored_lin c s h = h.1

stored-Safe :
    (c : ℕ) (s : Screen) → IsOnScreen s → leb 80 (stored c s).col ≡ false → Safe s (stored c s)
unfolding Safe
stored-Safe c s h room = ((ground (arith, room), stored_lin c s h), stored_rest c s h)

printc-Safe : (c : ℕ) (s : Screen) → IsOnScreen s → Safe s (printc c s)
printc-Safe c s h = elim (printc-cases c s) [
  | inl e ↦ subst (Safe s) (sym e) (next_line-Safe s s h.1 (λ i out. refl))
  | inr (inl (full, e)) ↦
      subst (Safe s) (sym e) (next_line-Safe s (stored c s) (stored_lin c s h) (stored_rest c s h))
  | inr (inr (room, e)) ↦ subst (Safe s) (sym e) (stored-Safe c s h room)
]

-- Printing a string from a cursor on the screen leaves the cursor on the screen and writes no cell
-- outside it, however long the string is.
pub prints-IsOnScreen :
    (cs : List ℕ) (s : Screen) → IsOnScreen s → IsOnScreen (prints cs s) × KeepsRest s (prints cs s)
unfolding Safe prints
prints-IsOnScreen [] s h = (h, (λ i out. refl))
prints-IsOnScreen (c ∷ cs) s h =
    let one = printc-Safe c s h in
    let rest = prints-IsOnScreen cs (printc c s) one.0 in
    (rest.0, (λ i out. rest.1 i out ∙ one.1 i out))

-- `line` accepts the line behind the last one. A character that is no line break, printed next at a
-- column before the last, is then stored behind the end of the screen.
line_accepts_height :
    (c : ℕ) (s : Screen)
    → s.col + 1 < width
    → c ≢ b'\n'
    → c ≢ b'\r'
    → (printc c (line height s)).cells (2000 + s.col) ≡ cell_of c s.current_color
unfolding printc line
line_accepts_height c s h n r =
    let room : leb 80 ((s.col + 1) % 256) ≡ false = ground arith in
    let other : ((c == b'\n') || (c == b'\r')) ≡ false = ground arith in
    rw (other, room) (ground arith)
