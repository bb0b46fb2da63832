-- ===== src/Kernel/Printk.antt =====
-- Formatted printing (kernel/printk.c, vsprintk): a parser of formats and a printer of fields. A text is
-- the list of its characters without the terminator. A format and its arguments are given, and what is
-- written to the buffer is the result.
pub mod Syntax
pub mod Formats
pub mod Screen
mod Tests
use tay_huang_os.Prelude.{
  ℕ, zero, suc, Bool, true, false, Option, none, some, List, [], ◌∷◌, ◌++◌, map, not, ◌==◌, ltb,
  leb, ◌&&◌, ◌||◌, if◌then◌else◌, ◌+◌, ◌-◌, ◌*◌, ◌%◌, ◌^◌, length, drop, replicate,
}
use tay_huang_os.Prelude.Int.{ℤ, pos, negsuc, ◌-ℤ◌}
use tay_huang_os.Kernel.Tostring.{fill_buffer, reversed}
use tay_huang_os.Kernel.Printk.Syntax.{
  Arg, word, text, real, PrintType, int, unsigned, float, exponent, oct, hex, char, string, unknown,
  Qualifier, short, normal, long, long_long, Flags, no_flags, isdigit, upper_char, set_flag,
  parse_flags, parse_digits, signed, as_int, as_long_long, Rest, star_width, parse_width,
  skip_precision, is_l, parse_first, parse_second, parse_type,
}

-- The characters of a number above or equal to 0, as `uitoa` and `ulltoa` write them into `_buffer`, whose
-- other characters are 0; `none` is a write behind the end of their own buffer, of `room` characters.
unfoldable pub number_text : ℕ → ℕ → ℕ → Option (List ℕ)
number_text room base val = elim (val == 0) [
  | true ↦ some (48 ∷ [])
  | false ↦ elim (fill_buffer val base room val) [ none ↦ none | some ds ↦ some (reversed ds) ]
]

-- What a directive prints: characters that go to the buffer at once, `has_sign`, and `_buffer`.
pub record Field : Type 0 where
  pub direct : List ℕ
  pub has_sign : Bool
  pub buffer : List ℕ

abbrev pub of_text : Bool → List Arg → Option (List ℕ) → Option (Field × List Arg)
of_text has_sign args none = none
of_text has_sign args (some chars) =
    some (record { direct = []; has_sign = has_sign; buffer = chars }, args)

-- A negative number is printed by its opposite. `-val` of the least number, `-half`, is that number
-- again, of which `itoa` and `lltoa` write the sign and no digit.
abbrev pub of_signed : ℕ → ℕ → ℤ → List Arg → Option (Field × List Arg)
of_signed room half (pos n) args = of_text false args (number_text room 10 n)
of_signed room half (negsuc n) args =
    of_text true args (if suc n == half then some (b'-' ∷ []) else number_text room 10 (suc n))

-- The cases of the two types whose argument depends on the length.
abbrev pub of_int : Qualifier → ℕ → List Arg → Option (Field × List Arg)
of_int long_long w args = of_signed 23 (2 ^ 63) (as_long_long w) args
of_int q w args = of_signed 12 (2 ^ 31) (as_int w) args

abbrev pub of_unsigned : Qualifier → ℕ → List Arg → Option (Field × List Arg)
of_unsigned long_long w args = of_text false args (number_text 23 10 (w % 2 ^ 64))
of_unsigned q w args = of_text false args (number_text 12 10 (w % 2 ^ 32))

-- The octal digits stay in `_buffer` behind the hexadecimal ones that are written over them.
abbrev pub over : ℕ → List ℕ → List ℕ → List ℕ
over val hexes octs = if val == 0 then hexes else hexes ++ drop (length hexes) octs

abbrev pub hex_text : Flags → List ℕ → List ℕ
hex_text f chars = if f.upper then map upper_char chars else chars

abbrev pub oct_buffer : ℕ → Option (List ℕ) → Option (List ℕ) → Option (List ℕ)
oct_buffer val (some hexes) (some octs) = some (over val hexes octs)
oct_buffer val hexes octs = none

-- The second switch on the type. The case of the octal numbers goes on into that of the hexadecimal ones.
unfoldable pub convert : PrintType → Qualifier → Flags → List Arg → Option (Field × List Arg)
convert int q f (word w ∷ args) = of_int q w args
convert unsigned q f (word w ∷ args) = of_unsigned q w args
convert float q f (real negative ∷ args) = of_text negative args (some [])
convert exponent q f (real negative ∷ args) = of_text negative args (some [])
convert oct q f (word v ∷ word w ∷ args) =
    of_text false args
      (oct_buffer (w % 2 ^ 64) (number_text 23 16 (w % 2 ^ 64)) (number_text 12 8 (v % 2 ^ 32)))
convert hex q f (word w ∷ args) = elim (number_text 23 16 (w % 2 ^ 64)) [
  | none ↦ none
  | some chars ↦ of_text false args (some (hex_text f chars))
]
convert char q f (word w ∷ args) =
    some (record { direct = (w % 256) ∷ []; has_sign = false; buffer = [] }, args)
convert string q f (text (c ∷ chars) ∷ args) =
    some (record { direct = c ∷ chars; has_sign = false; buffer = [] }, args)
convert unknown q f args = some (record { direct = []; has_sign = false; buffer = [] }, args)
convert t q f args = none

-- The sign, the prefix and the characters that fill the field.
abbrev pub sign_text : Flags → Bool → List ℕ
sign_text f true = b'-' ∷ []
sign_text f false = if f.sign then b'+' ∷ [] else []

abbrev pub prefix_text : PrintType → Flags → List ℕ
prefix_text oct f = if f.prefix then b'0' ∷ [] else []
prefix_text hex f = if f.prefix then b'0' ∷ (if f.upper then b'X' else b'x') ∷ [] else []
prefix_text t f = []

-- A width that is negative as an `int` fills nothing.
abbrev pub fill_width : ℕ → ℕ
fill_width width = if ltb width (2 ^ 31) then width else 0

abbrev pub fill_text : Flags → ℕ → Field → List ℕ
fill_text f width d =
    replicate
      (fill_width width - (length d.buffer + (length d.direct + length (sign_text f d.has_sign))))
      (if f.fill_zero then b'0' else b' ')

unfoldable pub field_text : PrintType → Flags → ℕ → Field → List ℕ
field_text t f width d =
    d.direct ++ (sign_text f d.has_sign ++ (prefix_text t f ++ (fill_text f width d ++ d.buffer)))

-- A directive as it was parsed, and the printing of it.
pub record Directive : Type 0 where
  pub type : PrintType
  pub qualifier : Qualifier
  pub flags : Flags
  pub width : ℕ

unfoldable pub print_directive : Directive → List Arg → Option (List ℕ × List Arg)
print_directive d args = elim (convert d.type d.qualifier d.flags args) [
  | none ↦ none
  | some (field, args') ↦ some (field_text d.type d.flags d.width field, args')
]

-- A directive behind its '%': flags, width, precision, length and type.
pub data Parsed : Type 0 where
  directive : (d : Directive) (rest : Rest) → Parsed
  cut_off : Parsed  -- a format that ends before the type
  no_arg : Parsed  -- an argument that is missing or of another type

abbrev pub parse_end : Flags → ℕ → List Arg → Qualifier × List ℕ → Parsed
parse_end f width args (q, []) = cut_off
parse_end f width args (q, c ∷ format) =
    let (t, f', width') = parse_type c f width in
    directive (record { type = t; qualifier = q; flags = f'; width = width' }) (format, args)

abbrev pub parse_tail : Flags → ℕ → Option Rest → Parsed
parse_tail f width none = no_arg
parse_tail f width (some (format, args)) =
    parse_end f width args (parse_second (parse_first format))

abbrev pub parse_body : Option (Flags × ℕ × Rest) → Parsed
parse_body none = no_arg
parse_body (some (f, width, (format, args))) = parse_tail f width (skip_precision format args)

unfoldable pub parse_directive : List ℕ → List Arg → Parsed
parse_directive format args =
    let (f, format1) = parse_flags format no_flags in parse_body (parse_width format1 args f)

-- `vsprintk` with what was written so far: the text and the value that is returned. A format that ends
-- before a type is read on behind its terminator, which `format ++` steps over.
pub data Outcome : Type 0 where
  printed : (chars : List ℕ) (value : ℤ) → Outcome
  overread : Outcome
  bad_arg : Outcome
  no_fuel : Outcome

-- Where the printing of a directive goes on.
abbrev pub continue_with :
    (List ℕ → List Arg → List ℕ → Outcome) → List ℕ → List ℕ → Option (List ℕ × List Arg) → Outcome
continue_with go out format none = bad_arg
continue_with go out format (some (chars, args)) = go format args (out ++ chars)

abbrev pub print_parsed : (List ℕ → List Arg → List ℕ → Outcome) → List ℕ → Parsed → Outcome
print_parsed go out cut_off = overread
print_parsed go out no_arg = bad_arg
print_parsed go out (directive d (format, args)) =
    continue_with go out format (print_directive d args)

unfoldable pub vsprintk : ℕ → List ℕ → List Arg → List ℕ → Outcome
vsprintk zero format args out = no_fuel
vsprintk (suc fuel) [] args out = printed out (pos (length out) -ℤ pos 1)
vsprintk (suc fuel) (c ∷ []) args out =
    let go = vsprintk fuel [] args (out ++ (c ∷ [])) in if c == b'%' then overread else go
vsprintk (suc fuel) (c ∷ d ∷ format) args out =
    let go = vsprintk fuel in
    let plain = go (d ∷ format) args (out ++ (c ∷ [])) in
    let percent = go format args (out ++ (b'%' ∷ [])) in
    let printing = print_parsed go out (parse_directive (d ∷ format) args) in
    if c == b'%' then if d == b'%' then percent else printing else plain
