-- ===== src/Screen.antt =====
-- src/kernel/arch/iprotected_mode.hpp and src/kernel/arch/amd64/video/protected_mode.cpp: the text screen.
-- A string is the list of its bytes in front of the terminator; the cells are those at
-- `VGA_VIRTUAL_ADDRESS`, by index.
pub mod Scroll
pub mod Cursor
use coronel.Base.{
  ℕ, zero, suc, ◌+◌, ◌-◌, ◌*◌, Bool, ◌||◌, bit_or, List, [], ◌∷◌, ltb, leb, ◌==◌, if◌then◌else◌, u8,
  u16,
}
use coronel.Machine.{update}

abbrev pub width : ℕ
width = 80

abbrev pub height : ℕ
height = 25

abbrev pub gray : ℕ
gray = 7

-- The fields of `iprotected_mode`, and the video memory.
pub record Screen : Type 0 where
  pub cells : ℕ → ℕ
  pub current_color : ℕ
  pub col : ℕ
  pub lin : ℕ

unfoldable pub set_color : ℕ → Screen → Screen
set_color color s = record s { current_color = color }

unfoldable pub column : ℕ → Screen → Screen
column col s = record s { col = if ltb width col then 0 else col }

unfoldable pub line : ℕ → Screen → Screen
line lin s = record s { lin = if ltb height lin then 0 else lin }

-- `' ' | 1 << 8`
abbrev pub blank : ℕ
blank = 0x120

-- The columns of row `y` from `x` on, by the rounds left, copied to the row above.
pub copy_row : ℕ → ℕ → ℕ → (ℕ → ℕ) → ℕ → ℕ
copy_row zero x y cells = cells
copy_row (suc n) x y cells =
    copy_row n (x + 1) y (update cells ((y - 1) * width + x) (cells (y * width + x)))

pub copy_rows : ℕ → ℕ → (ℕ → ℕ) → ℕ → ℕ
copy_rows zero y cells = cells
copy_rows (suc n) y cells = copy_rows n (y + 1) (copy_row width 0 y cells)

pub blank_row : ℕ → ℕ → ℕ → (ℕ → ℕ) → ℕ → ℕ
blank_row zero x y cells = cells
blank_row (suc n) x y cells = blank_row n (x + 1) y (update cells (y * width + x) blank)

unfoldable pub scroll_down : Screen → Screen
scroll_down s =
    let moved = copy_rows (height - 1) 1 s.cells in
    record s { cells = blank_row width 0 (height - 1) moved; lin = height - 1 }

pub blank_rows : ℕ → ℕ → (ℕ → ℕ) → ℕ → ℕ
blank_rows zero y cells = cells
blank_rows (suc n) y cells = blank_rows n (y + 1) (blank_row width 0 y cells)

unfoldable pub clear : Screen → Screen
clear s = record s { cells = blank_rows height 0 s.cells; current_color = gray; lin = 0; col = 0 }

-- `c | current_color_ << 8` as a cell; `char` is signed.
abbrev pub cell_of : ℕ → ℕ → ℕ
cell_of c color = u16 (bit_or (if ltb c 128 then c else 0xff00 + c) (color * 256))

-- `col_ = 0; lin_++;` and the scroll that it may need.
unfoldable pub next_line : Screen → Screen
next_line s =
    let s₁ : Screen = record s { col = 0; lin = u8 (s.lin + 1) } in
    if leb height s₁.lin then scroll_down s₁ else s₁

unfoldable pub printc : ℕ → Screen → Screen
printc c s =
    let s₁ : Screen = record s {
      cells = update s.cells (s.lin * width + s.col) (cell_of c s.current_color);
      col = u8 (s.col + 1);
    } in
    if (c == b'\n') || (c == b'\r')
    then next_line s
    else if leb width s₁.col
    then next_line s₁
    else s₁

unfoldable pub prints : List ℕ → Screen → Screen
prints [] s = s
prints (c ∷ cs) s = prints cs (printc c s)
