-- ===== src/Kernel/Printk/Syntax.antt =====
-- What vsprintk of kernel/printk.c reads: the arguments, and the parts of a directive of a format.
use tay_huang_os.Prelude.{
  ℕ, suc, Bool, true, false, Option, none, some, List, [], ◌∷◌, ◌==◌, ltb, leb, ◌&&◌, ◌||◌,
  if◌then◌else◌, ◌+◌, ◌-◌, ◌*◌, ◌%◌, ◌^◌,
}
use tay_huang_os.Prelude.Int.{ℤ, pos, negsuc}

-- What `va_arg` reads: a word of 64 bits, of which an `int` is the lower half; a string; a `double`, of
-- which only the sign matters, as the printing of its digits is not implemented.
pub data Arg : Type 0 where
  word : (bits : ℕ) → Arg
  text : (chars : List ℕ) → Arg
  real : (negative : Bool) → Arg

-- `print_type`. The -1 of an unknown type is stored in an unsigned byte, which the test for -1 never
-- meets: such a directive goes on as one that takes no argument.
pub data PrintType : Type 0 where
  int unsigned float exponent oct hex char string unknown : PrintType

pub data Qualifier : Type 0 where
  short normal long long_long : Qualifier

-- `flag`, with a field for each of its bits.
pub record Flags : Type 0 where
  pub sign : Bool
  pub left_align : Bool
  pub fill_zero : Bool
  pub prefix : Bool
  pub upper : Bool

abbrev pub no_flags : Flags
no_flags = record {
  sign = false;
  left_align = false;
  fill_zero = false;
  prefix = false;
  upper = false;
}

-- `isdigit`, and `toupper` where `islower` holds.
abbrev pub isdigit : ℕ → Bool
isdigit c = leb b'0' c && leb c b'9'

abbrev pub upper_char : ℕ → ℕ
upper_char c = if leb b'a' c && leb c b'z' then c - 32 else c

-- The loop over the flags.
abbrev pub set_flag : ℕ → Flags → Option Flags
set_flag c f =
    if c == b'+'
    then some (record f { sign = true })
    else if c == b'-'
    then some (record f { left_align = true })
    else if c == b' '
    then some f
    else if c == b'0'
    then some (record f { fill_zero = true })
    else if c == b'#'
    then some (record f { prefix = true })
    else none

unfoldable pub parse_flags : List ℕ → Flags → Flags × List ℕ
parse_flags [] f = (f, [])
parse_flags (c ∷ format) f = elim (set_flag c f) [
  | none ↦ (f, c ∷ format)
  | some f' ↦ parse_flags format f'
]

-- `while (isdigit(*format)) { width = width * 10 + *format - '0'; format ++; }`, of an `int` as its bits.
unfoldable pub parse_digits : List ℕ → ℕ → ℕ × List ℕ
parse_digits [] n = (n, [])
parse_digits (c ∷ format) n =
    let more = parse_digits format ((n * 10 + c - b'0') % 2 ^ 32) in
    if isdigit c then more else (n, c ∷ format)

-- The value of a word as an `int`, an `unsigned int`, a `long long` and an `unsigned long long`.
abbrev pub signed : ℕ → ℕ → ℤ
signed half w = if ltb w half then pos w else negsuc (half + half - w - 1)

abbrev pub as_int : ℕ → ℤ
as_int w = signed (2 ^ 31) (w % 2 ^ 32)

abbrev pub as_long_long : ℕ → ℤ
as_long_long w = signed (2 ^ 63) (w % 2 ^ 64)

-- The state of the parser: what is left of the format and of the arguments.
abbrev pub Rest : Type 0
Rest = List ℕ × List Arg

-- The width as the bits of an `int`, of which the least value has no opposite. `none` is an argument
-- that is missing or not of the type that is read.
abbrev pub star_width : ℤ → Flags → Flags × ℕ
star_width (pos n) f = (f, n)
star_width (negsuc n) f = (record f { left_align = true }, suc n)

unfoldable pub parse_width : List ℕ → List Arg → Flags → Option (Flags × ℕ × Rest)
parse_width (c ∷ format) (word w ∷ args) f =
    let (f', n) = star_width (as_int w) f in
    let (n', format') = parse_digits (c ∷ format) 0 in
    if c == b'*' then some (f', n, (format, args)) else some (f, n', (format', word w ∷ args))
parse_width (c ∷ format) args f =
    let (n, format') = parse_digits (c ∷ format) 0 in
    if c == b'*' then none else some (f, n, (format', args))
parse_width [] args f = some (f, 0, ([], args))

-- The precision, which is read and not used.
unfoldable pub skip_precision : List ℕ → List Arg → Option Rest
skip_precision (c ∷ d ∷ format) (a ∷ args) =
    if c == b'.'
    then if d == b'*' then some (format, args) else some ((parse_digits (d ∷ format) 0).1, a ∷ args)
    else some (c ∷ d ∷ format, a ∷ args)
skip_precision (c ∷ d ∷ format) [] =
    if c == b'.'
    then if d == b'*' then none else some ((parse_digits (d ∷ format) 0).1, [])
    else some (c ∷ d ∷ format, [])
skip_precision (c ∷ []) args = if c == b'.' then some ([], args) else some (c ∷ [], args)
skip_precision [] args = some ([], args)

abbrev pub is_l : ℕ → Bool
is_l c = (c == b'l') || (c == b'L')

-- The two switches on the length.
unfoldable pub parse_first : List ℕ → Qualifier × List ℕ
parse_first [] = (normal, [])
parse_first (c ∷ format) =
    if is_l c then (long, format) else if c == b'h' then (short, format) else (normal, c ∷ format)

unfoldable pub parse_second : Qualifier × List ℕ → Qualifier × List ℕ
parse_second (q, []) = (q, [])
parse_second (q, c ∷ format) = if is_l c then (long_long, format) else (q, c ∷ format)

-- The switch on the type, with the flags and the width that it sets.
unfoldable pub parse_type : ℕ → Flags → ℕ → PrintType × Flags × ℕ
parse_type c f width =
    if c == b'd'
    then (int, f, width)
    else if c == b'u'
    then (unsigned, f, width)
    else if c == b'o'
    then (oct, f, width)
    else if c == b'X'
    then (hex, record f { upper = true }, width)
    else if c == b'x'
    then (hex, f, width)
    else if c == b'f'
    then (float, f, width)
    else if c == b'c'
    then (char, f, width)
    else if c == b's'
    then (string, f, width)
    else if c == b'E'
    then (exponent, record f { upper = true }, width)
    else if c == b'e'
    then (exponent, f, width)
    else if c == b'P'
    then (hex, record f { upper = true; fill_zero = true; prefix = true }, 16)
    else if c == b'p'
    then (hex, record f { fill_zero = true; prefix = true }, 16)
    else (unknown, f, width)
