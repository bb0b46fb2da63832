-- ===== src/Kernel/Printk/Formats.antt =====
-- Formats of kernel/printk.c as data: how they are written, and what vsprintk makes of them.
pub mod Parts
pub mod Parse
pub mod Meaning
pub mod Fields
pub mod Render
use tay_huang_os.Prelude.{
  ℕ, zero, suc, Bool, true, false, Option, none, some, List, [], ◌∷◌, ◌++◌, ◌==◌, ltb, leb, ◌&&◌,
  ◌||◌, if◌then◌else◌, ◌+◌, ◌-◌, ◌*◌, ◌%◌, ◌^◌, ◌<◌, ◌≤◌, ◌≡◌, ◌≢◌, refl, sym, ap, ◌∙◌, subst,
  arith, length, Option-cases, inl, inr,
}
use tay_huang_os.Prelude.Int.{ℤ, pos, ◌-ℤ◌}
use tay_huang_os.Kernel.Printk.{
  Directive, print_directive, Parsed, directive, cut_off, no_arg, parse_end, parse_tail, parse_body,
  parse_directive, Outcome, printed, overread, bad_arg, no_fuel, continue_with, print_parsed,
  vsprintk,
}
use tay_huang_os.Kernel.Printk.Syntax.{
  Arg, word, text, real, PrintType, int, unsigned, float, exponent, oct, hex, char, string,
  Qualifier, short, normal, long, long_long, Flags, no_flags, isdigit, set_flag, parse_flags,
  parse_digits, as_int, star_width, parse_width, skip_precision, is_l, parse_first, parse_second,
  parse_type,
}

pub data FlagChar : Type 0 where
  plus minus space zero_fill hash : FlagChar

pub data Length : Type 0 where
  plain half one_l two_l : Length

pub data TypeChar : Type 0 where
  signed_d unsigned_u octal hex_lower hex_upper real_f character text_s exponent_lower
        exponent_upper pointer_lower pointer_upper :
      TypeChar

pub data Width : Type 0 where
  digits : (ds : List ℕ) → Width
  star : Width

-- The text of a directive between '%' and what follows it.
pub record DirectiveText : Type 0 where
  pub flags : List FlagChar
  pub width : Width
  pub precision : Option (List ℕ)
  pub length : Length
  pub type : TypeChar

abbrev pub flag_char : FlagChar → ℕ
flag_char plus = b'+'
flag_char minus = b'-'
flag_char space = b' '
flag_char zero_fill = b'0'
flag_char hash = b'#'

abbrev pub type_char : TypeChar → ℕ
type_char signed_d = b'd'
type_char unsigned_u = b'u'
type_char octal = b'o'
type_char hex_lower = b'x'
type_char hex_upper = b'X'
type_char real_f = b'f'
type_char character = b'c'
type_char text_s = b's'
type_char exponent_lower = b'e'
type_char exponent_upper = b'E'
type_char pointer_lower = b'p'
type_char pointer_upper = b'P'

-- The parts of a directive, before the rest `k` of a format.
abbrev pub show_flags : List FlagChar → List ℕ → List ℕ
show_flags [] k = k
show_flags (a ∷ fs) k = flag_char a ∷ show_flags fs k

abbrev pub show_digits : List ℕ → List ℕ → List ℕ
show_digits [] k = k
show_digits (n ∷ ds) k = (b'0' + n) ∷ show_digits ds k

abbrev pub show_width : Width → List ℕ → List ℕ
show_width (digits ds) k = show_digits ds k
show_width star k = b'*' ∷ k

abbrev pub show_precision : Option (List ℕ) → List ℕ → List ℕ
show_precision none k = k
show_precision (some ds) k = b'.' ∷ show_digits ds k

abbrev pub show_length : Length → List ℕ → List ℕ
show_length plain k = k
show_length half k = b'h' ∷ k
show_length one_l k = b'l' ∷ k
show_length two_l k = b'l' ∷ b'l' ∷ k

abbrev pub show_directive : DirectiveText → List ℕ → List ℕ
show_directive t k =
    show_flags t.flags (
      show_width t.width (show_precision t.precision (show_length t.length (type_char t.type ∷ k))))

-- Digits are below 10, and a width does not begin with 0, which is a flag.
abbrev pub AllDigits : List ℕ → Type 0
AllDigits [] = Unit
AllDigits (n ∷ ds) = (n < 10) × AllDigits ds

abbrev pub IsWidth : Width → Type 0
IsWidth (digits []) = Unit
IsWidth (digits (n ∷ ds)) = (0 < n) × (n < 10) × AllDigits ds
IsWidth star = Unit

abbrev pub IsPrecision : Option (List ℕ) → Type 0
IsPrecision none = Unit
IsPrecision (some ds) = AllDigits ds

-- What the parts mean.
abbrev pub apply_flag : FlagChar → Flags → Flags
apply_flag plus g = record g { sign = true }
apply_flag minus g = record g { left_align = true }
apply_flag space g = g
apply_flag zero_fill g = record g { fill_zero = true }
apply_flag hash g = record g { prefix = true }

abbrev pub apply_flags : List FlagChar → Flags → Flags
apply_flags [] g = g
apply_flags (a ∷ fs) g = apply_flags fs (apply_flag a g)

-- A decimal number, as the bits of an `int`.
abbrev pub decimal : List ℕ → ℕ → ℕ
decimal [] n = n
decimal (m ∷ ds) n = decimal ds ((n * 10 + m) % 2 ^ 32)

abbrev pub qualifier_of : Length → Qualifier
qualifier_of plain = normal
qualifier_of half = short
qualifier_of one_l = long
qualifier_of two_l = long_long

abbrev pub type_of : TypeChar → Flags → ℕ → PrintType × Flags × ℕ
type_of signed_d g n = (int, g, n)
type_of unsigned_u g n = (unsigned, g, n)
type_of octal g n = (oct, g, n)
type_of hex_lower g n = (hex, g, n)
type_of hex_upper g n = (hex, record g { upper = true }, n)
type_of real_f g n = (float, g, n)
type_of character g n = (char, g, n)
type_of text_s g n = (string, g, n)
type_of exponent_lower g n = (exponent, g, n)
type_of exponent_upper g n = (exponent, record g { upper = true }, n)
type_of pointer_lower g n = (hex, record g { fill_zero = true; prefix = true }, 16)
type_of pointer_upper g n = (hex, record g { upper = true; fill_zero = true; prefix = true }, 16)

-- The width, or an argument's value for it: `none` if there is no such argument.
abbrev pub width_of : Width → List Arg → Flags → Option (Flags × ℕ × List Arg)
width_of (digits ds) args g = some (g, decimal ds 0, args)
width_of star (word w ∷ args) g = let (g', n) = star_width (as_int w) g in some (g', n, args)
width_of star args g = none

abbrev pub typed : Length → PrintType × Flags × ℕ → Directive
typed q (t, g, n) = record { type = t; qualifier = qualifier_of q; flags = g; width = n }

abbrev pub meant : DirectiveText → List ℕ → Option (Flags × ℕ × List Arg) → Parsed
meant t k none = no_arg
meant t k (some (g, n, args)) = directive (typed t.length (type_of t.type g n)) (k, args)

abbrev pub meaning : DirectiveText → List Arg → List ℕ → Parsed
meaning t args k = meant t k (width_of t.width args (apply_flags t.flags no_flags))

-- A format as a list of plain characters, of "%%" and of directives.
pub data Item : Type 0 where
  literal : (a : ℕ) → Item
  percent : Item
  field : (t : DirectiveText) → Item

abbrev pub show_items : List Item → List ℕ
show_items [] = []
show_items (literal a ∷ items) = a ∷ show_items items
show_items (percent ∷ items) = b'%' ∷ b'%' ∷ show_items items
show_items (field t ∷ items) = b'%' ∷ show_directive t (show_items items)

abbrev pub AllItems : List Item → Type 0
AllItems [] = Unit
AllItems (literal a ∷ items) = (a ≢ b'%') × AllItems items
AllItems (percent ∷ items) = AllItems items
AllItems (field t ∷ items) = IsWidth t.width × IsPrecision t.precision × AllItems items
