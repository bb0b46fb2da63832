-- ===== src/Kernel/Printk/Tests.antt =====
-- Runs of vsprintk of kernel/printk.c, and its theorems on small formats.
use tay_huang_os.Prelude.{none, List, [], ◌∷◌, ◌≡◌, refl, arith, ◌^◌}
use tay_huang_os.Prelude.Int.{pos, ◌-ℤ◌}
use tay_huang_os.Kernel.Tostring.{fill_buffer}
use tay_huang_os.Kernel.Printk.{
  number_text, convert, field_text, print_directive, parse_directive, printed, overread, vsprintk,
}
use tay_huang_os.Kernel.Printk.Syntax.{
  Arg, word, text, parse_flags, parse_digits, parse_width, skip_precision, parse_first,
  parse_second, parse_type,
}
use tay_huang_os.Kernel.Printk.Formats.{
  DirectiveText, zero_fill, plain, signed_d, text_s, digits, Item, literal, percent, field,
  show_items,
}
use tay_huang_os.Kernel.Printk.Formats.Meaning.{render}
use tay_huang_os.Kernel.Printk.Formats.Render.{vsprintk-render}

-- "%05d" and "%s", a comma between them.
abbrev five_digits : DirectiveText
five_digits = record {
  flags = zero_fill ∷ [];
  width = digits (5 ∷ []);
  precision = none;
  length = plain;
  type = signed_d;
}

abbrev a_string : DirectiveText
a_string = record { flags = []; width = digits []; precision = none; length = plain; type = text_s }

abbrev items : List Item
items = field five_digits ∷ literal b',' ∷ field a_string ∷ percent ∷ []

abbrev items_args : List Arg
items_args = word 42 ∷ text (b'h' ∷ b'i' ∷ []) ∷ []

items_format : show_items items ≡ b'%' ∷ b'0' ∷ b'5' ∷ b'd' ∷ b',' ∷ b'%' ∷ b's' ∷ b'%' ∷ b'%' ∷ []
items_format = refl

-- The text is "00042,hi%", of nine characters, and the result is 8.
vsprintk_items :
    vsprintk 9 (show_items items) items_args []
    ≡ printed (b'0' ∷ b'0' ∷ b'0' ∷ b'4' ∷ b'2' ∷ b',' ∷ b'h' ∷ b'i' ∷ b'%' ∷ []) (pos 8)
unfolding vsprintk parse_directive parse_flags parse_width parse_digits skip_precision parse_first
    parse_second parse_type print_directive convert number_text fill_buffer field_text ◌-ℤ◌
vsprintk_items = refl

-- A format that ends in a '%' is read on behind its end.
vsprintk_percent : vsprintk 9 (b'a' ∷ b'%' ∷ []) [] [] ≡ overread
unfolding vsprintk
vsprintk_percent = refl

-- "%-3d" is filled on the left too, in spite of its flag.
vsprintk_left :
    vsprintk 9 (b'%' ∷ b'-' ∷ b'3' ∷ b'd' ∷ []) (word 7 ∷ []) []
    ≡ printed (b' ' ∷ b' ' ∷ b'7' ∷ []) (pos 2)
unfolding vsprintk parse_directive parse_flags parse_width parse_digits skip_precision parse_first
    parse_second parse_type print_directive convert number_text fill_buffer field_text ◌-ℤ◌
vsprintk_left = refl

-- "%o" prints the argument after its own, in base 16.
vsprintk_octal :
    vsprintk 9 (b'%' ∷ b'o' ∷ []) (word 1 ∷ word 255 ∷ []) [] ≡ printed (b'f' ∷ b'f' ∷ []) (pos 1)
unfolding vsprintk parse_directive parse_flags parse_width parse_digits skip_precision parse_first
    parse_second parse_type print_directive convert number_text fill_buffer field_text ◌-ℤ◌
vsprintk_octal = refl

-- "%+3k!": an unknown type takes no argument, and its sign and its fill are printed.
vsprintk_unknown :
    vsprintk 9 (b'%' ∷ b'+' ∷ b'3' ∷ b'k' ∷ b'!' ∷ []) [] []
    ≡ printed (b'+' ∷ b' ' ∷ b' ' ∷ b'!' ∷ []) (pos 3)
unfolding vsprintk parse_directive parse_flags parse_width parse_digits skip_precision parse_first
    parse_second parse_type print_directive convert number_text fill_buffer field_text ◌-ℤ◌
vsprintk_unknown = refl

-- The least `int` is printed as two signs.
vsprintk_least :
    vsprintk 9 (b'%' ∷ b'd' ∷ []) (word (2 ^ 31) ∷ []) [] ≡ printed (b'-' ∷ b'-' ∷ []) (pos 1)
unfolding vsprintk parse_directive parse_flags parse_width parse_digits skip_precision parse_first
    parse_second parse_type print_directive convert number_text fill_buffer field_text ◌-ℤ◌
vsprintk_least = refl

vsprintk-render_example : vsprintk 9 (show_items items) items_args [] ≡ render items items_args []
vsprintk-render_example = vsprintk-render items 9 items_args [] (omega arith) (omega arith)
