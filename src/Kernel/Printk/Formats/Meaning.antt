-- ===== src/Kernel/Printk/Formats/Meaning.antt =====
-- What the directives of kernel/printk.c print: each type's field, told without the steps of vsprintk.
use tay_huang_os.Prelude.{
  ℕ, zero, suc, Bool, true, false, Option, none, some, List, [], ◌∷◌, ◌++◌, map, ◌==◌, ltb, leb,
  if◌then◌else◌, ◌+◌, ◌-◌, ◌/◌, ◌%◌, ◌^◌, length, drop, replicate,
}
use tay_huang_os.Prelude.Int.{pos, ◌-ℤ◌}
use tay_huang_os.Kernel.Tostring.{digit_char}
use tay_huang_os.Kernel.Printk.{Outcome, printed, bad_arg}
use tay_huang_os.Kernel.Printk.Syntax.{Arg, word, text, real, Flags, no_flags, upper_char}
use tay_huang_os.Kernel.Printk.Formats.{
  Length, TypeChar, DirectiveText, apply_flags, width_of, Item, two_l, signed_d, unsigned_u, octal,
  hex_lower, hex_upper, real_f, character, text_s, exponent_lower, exponent_upper, pointer_lower,
  pointer_upper, literal, percent, field,
}

-- The digits of a number before other characters, the highest first.
unfoldable pub digits_before : ℕ → ℕ → ℕ → List ℕ → List ℕ
digits_before zero base val chars = chars
digits_before (suc n) base val chars =
    let more = digits_before n base (val / base) (digit_char (val % base) ∷ chars) in
    if val == 0 then chars else more

abbrev pub figures : ℕ → ℕ → List ℕ
figures base val = if val == 0 then b'0' ∷ [] else digits_before val base val []

-- The order of a field: a character or a string, the sign, the prefix, what fills the
-- width, which is no negative `int`, and the digits.
abbrev pub layout : Flags → ℕ → List ℕ → Bool → List ℕ → List ℕ → List ℕ
layout g n first minus prefix body =
    let sign = if minus then b'-' ∷ [] else if g.sign then b'+' ∷ [] else [] in
    let used = length body + (length first + length sign) in
    let wide = if ltb n (2 ^ 31) then n else 0 in
    first
    ++ (sign ++ (prefix ++ (replicate (wide - used) (if g.fill_zero then b'0' else b' ') ++ body)))

-- Half of the values of the type that a length stands for.
abbrev pub half_of : Length → ℕ
half_of two_l = 2 ^ 63
half_of q = 2 ^ 31

-- The digits of a value in two's complement; the least one has none, but a second sign.
abbrev pub signed_body : ℕ → ℕ → List ℕ
signed_body middle v =
    if ltb v middle
    then figures 10 v
    else if v == middle
    then b'-' ∷ []
    else figures 10 (middle + middle - v)

abbrev pub signed_field : ℕ → Flags → ℕ → ℕ → List ℕ
signed_field middle g n v = layout g n [] (leb middle v) [] (signed_body middle v)

abbrev pub hex_field : Flags → ℕ → ℕ → List ℕ
hex_field g n v =
    layout g n [] false (if g.prefix then b'0' ∷ (if g.upper then b'X' else b'x') ∷ [] else [])
      (if g.upper then map upper_char (figures 16 v) else figures 16 v)

-- "%o": the hexadecimal digits of the second argument, then the octal ones of the first that they do not
-- cover; a zero covers them all.
abbrev pub octal_body : ℕ → ℕ → List ℕ
octal_body v w =
    if w == 0 then figures 16 w else figures 16 w ++ drop (length (figures 16 w)) (figures 8 v)

abbrev pub octal_field : Flags → ℕ → ℕ → ℕ → List ℕ
octal_field g n v w = layout g n [] false (if g.prefix then b'0' ∷ [] else []) (octal_body v w)

-- The field of a directive with its flags, its width and the arguments from its own on.
unfoldable pub described : Length → TypeChar → Flags → ℕ → List Arg → Option (List ℕ × List Arg)
described q signed_d g n (word w ∷ args) =
    some (signed_field (half_of q) g n (w % (half_of q + half_of q)), args)
described q unsigned_u g n (word w ∷ args) =
    some (layout g n [] false [] (figures 10 (w % (half_of q + half_of q))), args)
described q octal g n (word v ∷ word w ∷ args) =
    some (octal_field g n (v % 2 ^ 32) (w % 2 ^ 64), args)
described q hex_lower g n (word w ∷ args) = some (hex_field g n (w % 2 ^ 64), args)
described q hex_upper g n (word w ∷ args) =
    some (hex_field (record g { upper = true }) n (w % 2 ^ 64), args)
described q pointer_lower g n (word w ∷ args) =
    some (hex_field (record g { fill_zero = true; prefix = true }) 16 (w % 2 ^ 64), args)
described q pointer_upper g n (word w ∷ args) =
    some
      (hex_field (record g { upper = true; fill_zero = true; prefix = true }) 16 (w % 2 ^ 64), args)
described q real_f g n (real minus ∷ args) = some (layout g n [] minus [] [], args)
described q exponent_lower g n (real minus ∷ args) = some (layout g n [] minus [] [], args)
described q exponent_upper g n (real minus ∷ args) = some (layout g n [] minus [] [], args)
described q character g n (word w ∷ args) = some (layout g n ((w % 256) ∷ []) false [] [], args)
described q text_s g n (text (c ∷ chars) ∷ args) = some (layout g n (c ∷ chars) false [] [], args)
described q t g n args = none

-- What printing means, item by item.
abbrev pub after_field :
    (List Arg → List ℕ → Outcome) → List ℕ → Option (List ℕ × List Arg) → Outcome
after_field go out none = bad_arg
after_field go out (some (chars, args)) = go args (out ++ chars)

abbrev pub of_width :
    (List Arg → List ℕ → Outcome) → DirectiveText → List ℕ → Option (Flags × ℕ × List Arg) → Outcome
of_width go t out none = bad_arg
of_width go t out (some (g, n, args)) = after_field go out (described t.length t.type g n args)

unfoldable pub render : List Item → List Arg → List ℕ → Outcome
render [] args out = printed out (pos (length out) -ℤ pos 1)
render (literal a ∷ items) args out = render items args (out ++ (a ∷ []))
render (percent ∷ items) args out = render items args (out ++ (b'%' ∷ []))
render (field t ∷ items) args out =
    of_width (render items) t out (width_of t.width args (apply_flags t.flags no_flags))
