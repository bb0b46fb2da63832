-- ===== src/Kernel/Printk/Screen/Drawn.antt =====
-- What puts and printk of kernel/printk.c draw on a screen of 80 columns.
use tay_huang_os.Prelude.{
  ℕ, suc, true, false, some, List, [], ◌∷◌, ◌==◌, ◌+◌, ◌-◌, ◌*◌, ◌/◌, ◌%◌, ◌<◌, ◌≤◌, ◌≡◌, ◌⊎◌, inl,
  inr, refl, sym, ap, ◌∙◌, arith, length, ltb, leb, Bool-cases,
}
use tay_huang_os.Prelude.Int.{ℤ}
use tay_huang_os.Kernel.State.{update}
use tay_huang_os.Kernel.Strings.{until_zero}
use tay_huang_os.Kernel.Printk.{printed}
use tay_huang_os.Kernel.Printk.Syntax.{Arg}
use tay_huang_os.Kernel.Printk.Formats.{Item, show_items, AllItems}
use tay_huang_os.Kernel.Printk.Formats.Meaning.{render}
use tay_huang_os.Kernel.Printk.Formats.Render.{vsprintk-render}
use tay_huang_os.Kernel.Printk.Screen.{
  Screen, cell, write_char, write_cells, putchar, put_chars, puts, put_outcome, printk,
}

-- A character that is neither the terminator nor one of the six that `putchar` treats on their own.
abbrev pub IsPlain : ℕ → Type 0
IsPlain ch = (14 ≤ ch) ⊎ ((0 < ch) × (ch < 8))

abbrev pub AllPlain : List ℕ → Type 0
AllPlain [] = Unit
AllPlain (ch ∷ chs) = IsPlain ch × AllPlain chs

abbrev wide : (ℕ → ℕ) → ℕ → ℕ → ℕ → ℕ → Screen
wide cells height color x y = record {
  cells = cells;
  screen_width = 80;
  screen_height = height;
  print_color = color;
  print_x = x;
  print_y = y;
}

same_place :
    (cells : ℕ → ℕ) (height color x x' y y' : ℕ)
    → x ≡ x'
    → y ≡ y'
    → wide cells height color x y ≡ wide cells height color x' y'
same_place cells height color x x' y y' ex ey =
    ap (λ a. wide cells height color a y) ex ∙ ap (λ b. wide cells height color x' b) ey

putchar-plain :
    (ch height color x y : ℕ) (cells : ℕ → ℕ)
    → IsPlain ch
    → x < 80
    → let next = x + y * 80 + 1 in
      putchar ch (wide cells height color x y)
      ≡ wide (update cells (x + y * 80) (cell color ch)) height color (next % 80) (next / 80)
unfolding putchar write_char
putchar-plain ch height color x y cells p h =
    let at = update cells (x + y * 80) (cell color ch) in
    let c1 : (ch == 13) ≡ false = ground arith in
    let c2 : (ch == 10) ≡ false = ground arith in
    let c3 : (ch == 9) ≡ false = ground arith in
    let c4 : (ch == 11) ≡ false = ground arith in
    let c5 : (ch == 8) ≡ false = ground arith in
    let c6 : (ch == 12) ≡ false = ground arith in
    let next = x + y * 80 + 1 in
    rw (c1, c2, c3, c4, c5, c6)
      (elim (Bool-cases (leb 80 (x + 1))) [
        | inl t ↦
            let e : x ≡ 79 = ground (arith, t, h) in
            rw t (
              same_place at height color (x + 1 - 80) (next % 80) (y + 1) (next / 80)
                (omega (arith, e)) (omega (arith, e)))
        | inr t ↦
            let e : x + 1 < 80 = ground (arith, t) in
            rw t (
              same_place at height color (x + 1) (next % 80) y (next / 80) (omega (arith, e))
                (omega (arith, e)))
      ])

-- The cells that hold the characters, as `write_str` writes them, and the place behind the last one.
abbrev pub drawn : List ℕ → Screen → Screen
drawn chs s =
    let pos = s.print_x + s.print_y * 80 in
    record s {
      cells = write_cells chs s.print_color pos s.cells;
      print_x = (pos + length chs) % 80;
      print_y = (pos + length chs) / 80;
    }

put_chars-wide :
    (chs : List ℕ) (height color x y : ℕ) (cells : ℕ → ℕ)
    → AllPlain chs
    → x < 80
    → put_chars chs (wide cells height color x y) ≡ drawn chs (wide cells height color x y)
unfolding put_chars write_cells
put_chars-wide [] height color x y cells p h =
    same_place cells height color x _ y _ (omega (arith, h)) (omega (arith, h))
put_chars-wide (ch ∷ chs) height color x y cells (p, ps) h =
    let next = x + y * 80 + 1 in
    let at = update cells (x + y * 80) (cell color ch) in
    let place : next % 80 + next / 80 * 80 ≡ next = omega arith in
    let n = length chs in
    let after : next + n ≡ x + y * 80 + suc n = omega arith in
    ap (put_chars chs) (putchar-plain ch height color x y cells p h)
    ∙ put_chars-wide chs height color (next % 80) (next / 80) at ps (omega arith)
    ∙ ap (λ q. wide (write_cells chs color q at) height color ((q + n) % 80) ((q + n) / 80)) place
    ∙ ap (λ q. wide (write_cells chs color next at) height color (q % 80) (q / 80)) after

until_zero-plain : (chs : List ℕ) → AllPlain chs → until_zero chs ≡ chs
until_zero-plain [] p = refl
until_zero-plain (ch ∷ chs) (p, ps) =
    let ne : (ch == 0) ≡ false = ground arith in rw ne (ap (λ l. ch ∷ l) (until_zero-plain chs ps))

-- On a screen of 80 columns, `puts` of plain characters leaves what `write_str` leaves at the place of
-- the next character, which moves behind them, from line to line.
puts-drawn :
    (chs : List ℕ) (s : Screen)
    → AllPlain chs
    → s.screen_width ≡ 80
    → s.print_x < 80
    → puts chs s ≡ drawn chs s
puts-drawn chs s p e h =
    ap (λ l. put_chars l s) (until_zero-plain chs p)
    ∙ ap (λ w. put_chars chs (record s { screen_width = w })) e
    ∙ put_chars-wide chs s.screen_height s.print_color s.print_x s.print_y s.cells p h
    ∙ ap (λ w. drawn chs (record s { screen_width = w })) (sym e)

-- A format that is written down from well-formed items, with fuel for each, and that means a text of
-- plain characters shorter than the buffer of printk: on a screen of 80 columns, with the place of
-- the next character within a line, printk draws that text from there on, and returns its length less
-- one.
pub printk-drawn :
    (items : List Item) (fuel : ℕ) (args : List Arg) (chars : List ℕ) (value : ℤ) (s : Screen)
    → AllItems items
    → length items < fuel
    → render items args [] ≡ printed chars value
    → AllPlain chars
    → length chars < 256
    → s.screen_width ≡ 80
    → s.print_x < 80
    → printk fuel (show_items items) args s ≡ some (value, drawn chars s)
unfolding printk
printk-drawn items fuel args chars value s v enough e p short wide h =
    let fits : ltb (length chars) 256 ≡ true = ground (arith, short) in
    ap (λ o. put_outcome o s) (vsprintk-render items fuel args [] v enough ∙ e)
    ∙ rw fits (ap (λ (t : Screen). some (value, t)) (puts-drawn chars s p wide h))
