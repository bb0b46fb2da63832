-- ===== src/Kernel/Printk/Screen.antt =====
-- Text on the screen (the first half of kernel/printk.c, and printk): the cells of video memory, two
-- bytes each, with the place and the color of the next character. The place is never negative, and its
-- line is below 2^15, as it is a short.
pub mod Drawn
mod Tests
use tay_huang_os.Prelude.{
  ℕ, zero, suc, Option, none, some, List, [], ◌∷◌, ◌==◌, ◌||◌, ltb, leb, if◌then◌else◌, ◌+◌, ◌-◌,
  ◌*◌, ◌%◌, length,
}
use tay_huang_os.Prelude.Int.{ℤ}
use tay_huang_os.Kernel.State.{update}
use tay_huang_os.Kernel.Strings.{until_zero}
use tay_huang_os.Kernel.Printk.{Outcome, printed, overread, bad_arg, no_fuel, vsprintk}
use tay_huang_os.Kernel.Printk.Syntax.{Arg}

-- `video_address`, by the number of the cell, and the other variables of the file.
pub record Screen : Type 0 where
  pub cells : ℕ → ℕ
  pub screen_width : ℕ
  pub screen_height : ℕ
  pub print_color : ℕ
  pub print_x : ℕ
  pub print_y : ℕ

abbrev pub init_video : (ℕ → ℕ) → ℕ → ℕ → Screen
init_video cells width height = record {
  cells = cells;
  screen_width = width;
  screen_height = height;
  print_color = 15;
  print_x = 0;
  print_y = 0;
}

-- A character under its color, in one short.
abbrev pub cell : ℕ → ℕ → ℕ
cell color ch = color % 256 * 256 + ch % 256

-- `write_char`: a line has 80 cells, whatever `screen_width` is.
unfoldable pub write_char : ℕ → ℕ → ℕ → ℕ → Screen → Screen
write_char ch color posx posy s = record s {
  cells = update s.cells (posx + posy * 80) (cell color ch);
}

-- `write_str` from the cell `pos` on.
unfoldable pub write_cells : List ℕ → ℕ → ℕ → (ℕ → ℕ) → ℕ → ℕ
write_cells [] color pos cells = cells
write_cells (ch ∷ str) color pos cells =
    write_cells str color (pos + 1) (update cells pos (cell color ch))

abbrev pub write_str : List ℕ → ℕ → ℕ → ℕ → Screen → Screen
write_str str color posx posy s = record s {
  cells = write_cells (until_zero str) color (posx + posy * 80) s.cells;
}

-- The loops of `clrscr`: `n` lines of column `i` from line `j` on, and `n` columns from `i` on.
unfoldable pub clear_column : ℕ → ℕ → ℕ → Screen → Screen
clear_column zero i j s = s
clear_column (suc n) i j s = clear_column n i (j + 1) (write_char b' ' s.print_color i j s)

unfoldable pub clear_columns : ℕ → ℕ → Screen → Screen
clear_columns zero i s = s
clear_columns (suc n) i s = clear_columns n (i + 1) (clear_column s.screen_height i 0 s)

unfoldable pub clrscr : Screen → Screen
clrscr s = record (clear_columns s.screen_width 0 s) { print_x = 0; print_y = 0 }

-- The character itself, with '\r', '\n', '\t', '\v', '\b' and '\f' by their codes.
abbrev pub put_one : ℕ → Screen → Screen
put_one ch s =
    if ch == 13 || ch == 10
    then record s { print_x = 0; print_y = s.print_y + 1 }
    else if ch == 9
    then record s { print_x = s.print_x + 4 }
    else if ch == 11
    then record s { print_y = s.print_y + 1 }
    else if ch == 8
    then if ltb 0 s.print_x
      then write_char b' ' s.print_color (s.print_x - 1) s.print_y
          (record s { print_x = s.print_x - 1 })
      else s
    else if ch == 12
    then record (clrscr s) { print_x = 0; print_y = 0 }
    else record (write_char ch s.print_color s.print_x s.print_y s) { print_x = s.print_x + 1 }

abbrev pub wrap : Screen → Screen
wrap s =
    if leb s.screen_width s.print_x
    then record s { print_x = s.print_x - s.screen_width; print_y = s.print_y + 1 }
    else s

unfoldable pub putchar : ℕ → Screen → Screen
putchar ch s = wrap (put_one ch s)

-- `puts` on the characters before the terminator.
unfoldable pub put_chars : List ℕ → Screen → Screen
put_chars [] s = s
put_chars (ch ∷ str) s = put_chars str (putchar ch s)

abbrev pub puts : List ℕ → Screen → Screen
puts str s = put_chars (until_zero str) s

-- `printk`: the buffer has 256 characters. `none` is a text behind its end, the reading behind the end
-- of the format, or what `vsprintk` has no outcome for.
abbrev pub put_outcome : Outcome → Screen → Option (ℤ × Screen)
put_outcome (printed chars value) s =
    if ltb (length chars) 256 then some (value, puts chars s) else none
put_outcome overread s = none
put_outcome bad_arg s = none
put_outcome no_fuel s = none

unfoldable pub printk : ℕ → List ℕ → List Arg → Screen → Option (ℤ × Screen)
printk fuel format args s = put_outcome (vsprintk fuel format args []) s
