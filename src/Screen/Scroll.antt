-- ===== src/Screen/Scroll.antt =====
-- What the loops of `scroll_down` and `clear` leave on the screen.
use coronel.Base.{
  ℕ, zero, suc, ◌+◌, ◌-◌, ◌*◌, ◌≤◌, ◌<◌, ◌≡◌, ◌&&◌, ltb, leb, if◌then◌else◌, arith, refl,
}
use coronel.Machine.{update}
use coronel.Screen.{Screen, blank, copy_row, copy_rows, blank_row, blank_rows, scroll_down, clear}

copy_row_lem :
    (n x y : ℕ) (cells : ℕ → ℕ) (i : ℕ)
    → 0 < y
    → x + n ≤ 80
    → copy_row n x y cells i ≡ (
        if leb ((y - 1) * 80 + x) i && ltb i ((y - 1) * 80 + x + n)
        then cells (i + 80)
        else cells i)
unfolding copy_row
copy_row_lem zero x y cells i h k = ground arith
copy_row_lem (suc n) x y cells i h k =
    let rest =
      copy_row_lem n (x + 1) y (update cells ((y - 1) * 80 + x) (cells (y * 80 + x))) i h
        (omega arith) in
    let below : y * 80 + x ≡ (y - 1) * 80 + x + 80 = omega arith in ground (arith, rest, below)

copy_rows_lem :
    (n y : ℕ) (cells : ℕ → ℕ) (i : ℕ)
    → 0 < y
    → copy_rows n y cells i
      ≡ (if leb ((y - 1) * 80) i && ltb i ((y - 1) * 80 + n * 80) then cells (i + 80) else cells i)
unfolding copy_rows
copy_rows_lem zero y cells i h = ground arith
copy_rows_lem (suc n) y cells i h =
    let rest = copy_rows_lem n (y + 1) (copy_row 80 0 y cells) i (omega arith) in
    let here = copy_row_lem 80 0 y cells i h (omega arith) in
    let below = copy_row_lem 80 0 y cells (i + 80) h (omega arith) in
    ground (arith, rest, here, below)

blank_row_lem :
    (n x y : ℕ) (cells : ℕ → ℕ) (i : ℕ)
    → blank_row n x y cells i
      ≡ (if leb (y * 80 + x) i && ltb i (y * 80 + x + n) then blank else cells i)
unfolding blank_row
blank_row_lem zero x y cells i = ground arith
blank_row_lem (suc n) x y cells i =
    ground (arith, blank_row_lem n (x + 1) y (update cells (y * 80 + x) blank) i)

blank_rows_lem :
    (n y : ℕ) (cells : ℕ → ℕ) (i : ℕ)
    → blank_rows n y cells i
      ≡ (if leb (y * 80) i && ltb i (y * 80 + n * 80) then blank else cells i)
unfolding blank_rows
blank_rows_lem zero y cells i = ground arith
blank_rows_lem (suc n) y cells i =
    ground
      (arith, blank_rows_lem n (y + 1) (blank_row 80 0 y cells) i, blank_row_lem 80 0 y cells i)

-- Scrolling moves each of the lower 24 rows up by one, blanks the last row, leaves every cell
-- outside the 80 x 25 screen alone and puts the cursor on the last row.
pub scroll_down_lem :
    (s : Screen)
    → ((i : ℕ)
        → (scroll_down s).cells i
          ≡ (if ltb i 1920 then s.cells (i + 80) else if ltb i 2000 then blank else s.cells i))
      × ((scroll_down s).lin ≡ 24)
      × ((scroll_down s).col ≡ s.col)
unfolding scroll_down
scroll_down_lem s = (
  (λ i. ground (
    arith,
    blank_row_lem 80 0 24 (copy_rows 24 1 s.cells) i,
    copy_rows_lem 24 1 s.cells i (omega arith),
  )),
  refl,
  refl,
)

-- Clearing blanks the 2000 cells of the screen and no other, and homes the cursor.
pub clear_lem :
    (s : Screen)
    → ((i : ℕ) → (clear s).cells i ≡ (if ltb i 2000 then blank else s.cells i))
      × ((clear s).lin ≡ 0)
      × ((clear s).col ≡ 0)
unfolding clear
clear_lem s = ((λ i. ground (arith, blank_rows_lem 25 0 s.cells i)), refl, refl)
