-- ===== src/Kernel/Printk/Screen/Tests.antt =====
-- Runs of the screen of kernel/printk.c.
use tay_huang_os.Prelude.{ℕ, none, some, List, [], ◌∷◌, ◌+◌, ◌*◌, ◌≡◌, refl, arith, inl}
use tay_huang_os.Prelude.Int.{pos, ◌-ℤ◌}
use tay_huang_os.Kernel.Printk.{printed}
use tay_huang_os.Kernel.Printk.Syntax.{word}
use tay_huang_os.Kernel.Printk.Formats.{
  DirectiveText, zero_fill, plain, signed_d, digits, Item, literal, field, show_items,
}
use tay_huang_os.Kernel.Printk.Formats.Meaning.{digits_before, described, render}
use tay_huang_os.Kernel.Printk.Screen.{
  Screen, init_video, write_char, write_cells, clear_column, clear_columns, clrscr, putchar, printk,
}
use tay_huang_os.Kernel.Printk.Screen.Drawn.{drawn, printk-drawn}

-- "%05d!", for 42.
abbrev five_digits : DirectiveText
five_digits = record {
  flags = zero_fill ∷ [];
  width = digits (5 ∷ []);
  precision = none;
  length = plain;
  type = signed_d;
}

abbrev items : List Item
items = field five_digits ∷ literal b'!' ∷ []

abbrev chars : List ℕ
chars = b'0' ∷ b'0' ∷ b'0' ∷ b'4' ∷ b'2' ∷ b'!' ∷ []

meaning : render items (word 42 ∷ []) [] ≡ printed chars (pos 5)
unfolding render described digits_before ◌-ℤ◌
meaning = refl

-- Two columns from the end of the first line.
abbrev at_end : Screen
at_end = record (init_video (λ p. 0) 80 25) { print_x = 78 }

printk-drawn_example :
    printk 9 (show_items items) (word 42 ∷ []) at_end ≡ some (pos 5, drawn chars at_end)
printk-drawn_example =
    printk-drawn items 9 (word 42 ∷ []) chars (pos 5) at_end (omega arith) (omega arith) meaning
      (
        inl (omega arith),
        (
          inl (omega arith),
          (inl (omega arith), (inl (omega arith), (inl (omega arith), (inl (omega arith), tt)))),
        ),
      )
      (omega arith) refl (omega arith)

-- Afterwards the fourth column of the second line is next, and its first cell holds the third digit.
drawn_place : ((drawn chars at_end).print_x ≡ 4) × ((drawn chars at_end).print_y ≡ 1)
drawn_place = (refl, refl)

drawn_cell : (drawn chars at_end).cells 80 ≡ 15 * 256 + b'0'
unfolding write_cells
drawn_cell = refl

-- A backspace at the start of a line does nothing.
backspace_first : putchar 8 (init_video (λ p. 0) 80 25) ≡ init_video (λ p. 0) 80 25
unfolding putchar
backspace_first = refl

-- A line of a narrow screen ends at its width, but the next one begins 80 cells behind it.
cleared :
    let cells = (clrscr (init_video (λ p. 0) 2 2)).cells in
    (cells 0 ≡ 3872) × (cells 1 ≡ 3872) × (cells 2 ≡ 0) × (cells 80 ≡ 3872) × (cells 160 ≡ 0)
unfolding clrscr clear_columns clear_column write_char
cleared = (refl, refl, refl, refl, refl)
