-- ===== src/Kernel/Printk/Formats/Fields.antt =====
-- The fields that vsprintk of kernel/printk.c prints are those that the directives describe.
use mathlib.Core.List.{append_assoc, append-nil}
use tay_huang_os.Prelude.{
  ℕ, zero, suc, Bool, true, false, Option, none, some, List, [], ◌∷◌, ◌++◌, ◌==◌, ltb, leb,
  if◌then◌else◌, ◌+◌, ◌-◌, ◌/◌, ◌%◌, ◌^◌, ◌<◌, ◌≤◌, ◌≡◌, refl, sym, ap, ◌∙◌, arith, inl, inr,
  Bool-cases, Option-cases, some_injective, map,
}
use tay_huang_os.Kernel.Tostring.{digit_char, fill_buffer, reversed}
use tay_huang_os.Kernel.Tostring.Digits.{fill_buffer-number}
use tay_huang_os.Kernel.Printk.{
  number_text, of_text, of_signed, of_int, of_unsigned, oct_buffer, convert, prefix_text,
  field_text, print_directive,
}
use tay_huang_os.Kernel.Printk.Syntax.{
  Arg, word, text, real, PrintType, int, unsigned, oct, hex, Qualifier, short, normal, long,
  long_long, Flags, signed, as_int, upper_char,
}
use tay_huang_os.Kernel.Printk.Formats.{
  Length, TypeChar, qualifier_of, type_of, typed, plain, half, one_l, two_l, signed_d, unsigned_u,
  octal, hex_lower, hex_upper, real_f, character, text_s, exponent_lower, exponent_upper,
  pointer_lower, pointer_upper,
}
use tay_huang_os.Kernel.Printk.Formats.Meaning.{
  digits_before, figures, layout, signed_body, signed_field, hex_field, octal_body, octal_field,
  described,
}

-- What the loop of the number functions collects are the digits of the number.
fill_buffer-digits_before :
    (base fuel room val : ℕ) (ds chars : List ℕ)
    → fill_buffer fuel base room val ≡ some ds
    → digits_before fuel base val chars ≡ reversed ds ++ chars
unfolding fill_buffer digits_before
fill_buffer-digits_before base zero zero val ds chars e = elim (Bool-cases (val == 0)) [
  | inl z ↦
      let nil : some [] ≡ some ds = rw z at e in ap (λ l. reversed l ++ chars) (some_injective nil)
  | inr z ↦ let no : Path (Option (List ℕ)) none (some ds) = rw z at e in cc
]
fill_buffer-digits_before base zero (suc room) val ds chars e =
    ap (λ l. reversed l ++ chars) (some_injective e)
fill_buffer-digits_before base (suc fuel) zero val ds chars e = elim (Bool-cases (val == 0)) [
  | inl z ↦
      let nil : some [] ≡ some ds = rw z at e in
      rw z (ap (λ l. reversed l ++ chars) (some_injective nil))
  | inr z ↦ let no : Path (Option (List ℕ)) none (some ds) = rw z at e in cc
]
fill_buffer-digits_before base (suc fuel) (suc room) val ds chars e = elim (Bool-cases (val == 0)) [
  | inl z ↦
      let nil : some [] ≡ some ds = rw z at e in
      rw z (ap (λ l. reversed l ++ chars) (some_injective nil))
  | inr z ↦
      let digit = digit_char (val % base) in
      elim (Option-cases (fill_buffer fuel base room (val / base))) [
        | inl f ↦ let no : Path (Option (List ℕ)) none (some ds) = rw (z, f) at e in cc
        | inr (more, f) ↦
            let same : some (digit ∷ more) ≡ some ds = rw (z, f) at e in
            rw z (
              fill_buffer-digits_before base fuel room (val / base) more (digit ∷ chars) f
              ∙ sym (append_assoc (reversed more) (digit ∷ []) chars)
              ∙ ap (λ l. reversed l ++ chars) (some_injective same))
      ]
]

-- A number of at most `room` digits is written with its digits.
number_text_lem :
    (room base val : ℕ)
    → 2 ≤ base
    → base ≤ 36
    → val < base ^ room
    → number_text room base val ≡ some (figures base val)
unfolding number_text
number_text_lem room base val two most h = elim (Bool-cases (val == 0)) [
  | inl e ↦ rw (number_text, e) refl
  | inr e ↦
      let (ds, f, v) = fill_buffer-number base two most val room val h (omega arith) in
      rw (number_text, e, f)
        (ap some (
          sym (append-nil (reversed ds))
          ∙ sym (fill_buffer-digits_before base val room val ds [] f)))
]

field_text-layout :
    (t : PrintType) (g : Flags) (n : ℕ) (first : List ℕ) (minus : Bool) (body : List ℕ)
    → field_text t g n (record { direct = first; has_sign = minus; buffer = body })
      ≡ layout g n first minus (prefix_text t g) body
unfolding field_text
field_text-layout t g n first true body = refl
field_text-layout t g n first false body = refl

-- What printing a directive gives when its field was found.
print_lem :
    (t : PrintType) (q : Qualifier) (g : Flags) (n : ℕ) (args rest : List Arg) (first : List ℕ)
    (minus : Bool) (body : List ℕ)
    → convert t q g args ≡ some (record { direct = first; has_sign = minus; buffer = body }, rest)
    → print_directive (record { type = t; qualifier = q; flags = g; width = n }) args
      ≡ some (layout g n first minus (prefix_text t g) body, rest)
unfolding print_directive
print_lem t q g n args rest first minus body e =
    rw (print_directive, e)
      (ap (λ chars. some (chars, rest)) (field_text-layout t g n first minus body))

of_signed_lem :
    (room middle v : ℕ) (args : List Arg)
    → v < middle + middle
    → middle + middle ≤ 10 ^ room
    → of_signed room middle (signed middle v) args
      ≡ some (record { direct = []; has_sign = leb middle v; buffer = signed_body middle v }, args)
of_signed_lem room middle v args h fits = elim (Bool-cases (ltb v middle)) [
  | inl low ↦
      let positive : leb middle v ≡ false = ground (arith, low) in
      rw (low, positive)
        (ap (of_text false args)
          (number_text_lem room 10 v (omega arith) (omega arith) (omega arith)))
  | inr high ↦
      let minus : leb middle v ≡ true = ground (arith, high) in
      let above : middle ≤ v = ground (arith, high) in
      let opposite : suc (middle + middle - v - 1) ≡ middle + middle - v = omega arith in
      elim (Bool-cases (v == middle)) [
        | inl least ↦
            let e : (suc (middle + middle - v - 1) == middle) ≡ true = ground (arith, least) in
            rw (high, minus, least, e) refl
        | inr other ↦
            let e : (suc (middle + middle - v - 1) == middle) ≡ false = ground (arith, other) in
            rw (high, minus, other, e)
              (ap (of_text true args) (
                ap (number_text room 10) opposite
                ∙ number_text_lem room 10 (middle + middle - v) (omega arith) (omega arith)
                    (omega arith)))
      ]
]

-- The fields of each type, whatever the arguments are.
module _ (g : Flags) (n : ℕ) where
  print_int :
      (q : Qualifier) (w : ℕ) (args : List Arg)
      → of_int q w args ≡ of_signed 12 (2 ^ 31) (as_int w) args
      → print_directive (record { type = int; qualifier = q; flags = g; width = n }) (word w ∷ args)
        ≡ some (signed_field (2 ^ 31) g n (w % 2 ^ 32), args)
  unfolding convert
  print_int q w args e =
      let v = w % 2 ^ 32 in
      print_lem int q g n (word w ∷ args) args [] (leb (2 ^ 31) v) (signed_body (2 ^ 31) v)
        (e ∙ of_signed_lem 12 (2 ^ 31) v args (omega arith) (omega arith))

  print_signed :
      (q : Length) (w : ℕ) (args : List Arg)
      → print_directive (typed q (int, g, n)) (word w ∷ args)
        ≡ described q signed_d g n (word w ∷ args)
  unfolding convert described
  print_signed plain w args = print_int normal w args refl
  print_signed half w args = print_int short w args refl
  print_signed one_l w args = print_int long w args refl
  print_signed two_l w args =
      let v = w % 2 ^ 64 in
      print_lem int long_long g n (word w ∷ args) args [] (leb (2 ^ 63) v) (signed_body (2 ^ 63) v)
        (of_signed_lem 23 (2 ^ 63) v args (omega arith) (omega arith))

  print_uint :
      (q : Qualifier) (w : ℕ) (args : List Arg)
      → of_unsigned q w args ≡ of_text false args (number_text 12 10 (w % 2 ^ 32))
      → print_directive
          (record { type = unsigned; qualifier = q; flags = g; width = n })
          (word w ∷ args)
        ≡ some (layout g n [] false [] (figures 10 (w % 2 ^ 32)), args)
  unfolding convert
  print_uint q w args e =
      let v = w % 2 ^ 32 in
      print_lem unsigned q g n (word w ∷ args) args [] false (figures 10 v) (
        e
        ∙ ap (of_text false args)
            (number_text_lem 12 10 v (omega arith) (omega arith) (omega arith)))

  print_unsigned :
      (q : Length) (w : ℕ) (args : List Arg)
      → print_directive (typed q (unsigned, g, n)) (word w ∷ args)
        ≡ described q unsigned_u g n (word w ∷ args)
  unfolding convert described
  print_unsigned plain w args = print_uint normal w args refl
  print_unsigned half w args = print_uint short w args refl
  print_unsigned one_l w args = print_uint long w args refl
  print_unsigned two_l w args =
      let v = w % 2 ^ 64 in
      print_lem unsigned long_long g n (word w ∷ args) args [] false (figures 10 v) (
        ap (of_text false args) (number_text_lem 23 10 v (omega arith) (omega arith) (omega arith)))

  print_octal :
      (q : Qualifier) (v w : ℕ) (args : List Arg)
      → print_directive
          (record { type = oct; qualifier = q; flags = g; width = n })
          (word v ∷ word w ∷ args)
        ≡ some (octal_field g n (v % 2 ^ 32) (w % 2 ^ 64), args)
  unfolding convert
  print_octal q v w args =
      let a = v % 2 ^ 32 in
      let b = w % 2 ^ 64 in
      let digits : oct_buffer b (number_text 23 16 b) (number_text 12 8 a) ≡ some (octal_body a b) =
        rw
          (
            number_text_lem 23 16 b (omega arith) (omega arith) (omega arith),
            number_text_lem 12 8 a (omega arith) (omega arith) (omega arith),
          )
          refl in
      print_lem oct q g n (word v ∷ word w ∷ args) args [] false (octal_body a b)
        (ap (of_text false args) digits)

  print_hex :
      (q : Qualifier) (w : ℕ) (args : List Arg)
      → print_directive (record { type = hex; qualifier = q; flags = g; width = n }) (word w ∷ args)
        ≡ some (hex_field g n (w % 2 ^ 64), args)
  unfolding convert
  print_hex q w args =
      let v = w % 2 ^ 64 in
      print_lem hex q g n (word w ∷ args) args [] false
        (if g.upper then map upper_char (figures 16 v) else figures 16 v)
        (rw (convert, number_text_lem 23 16 v (omega arith) (omega arith) (omega arith)) refl)

signed_case :
    (q : Length) (g : Flags) (n : ℕ) (args : List Arg)
    → print_directive (typed q (type_of signed_d g n)) args ≡ described q signed_d g n args
unfolding print_directive convert described field_text
signed_case q g n [] = refl
signed_case q g n (text cs ∷ args) = refl
signed_case q g n (real m ∷ args) = refl
signed_case q g n (word w ∷ args) = print_signed g n q w args

unsigned_case :
    (q : Length) (g : Flags) (n : ℕ) (args : List Arg)
    → print_directive (typed q (type_of unsigned_u g n)) args ≡ described q unsigned_u g n args
unfolding print_directive convert described field_text
unsigned_case q g n [] = refl
unsigned_case q g n (text cs ∷ args) = refl
unsigned_case q g n (real m ∷ args) = refl
unsigned_case q g n (word w ∷ args) = print_unsigned g n q w args

hex_case :
    (q : Length) (g : Flags) (n : ℕ) (args : List Arg)
    → print_directive (typed q (type_of hex_lower g n)) args ≡ described q hex_lower g n args
unfolding print_directive convert described field_text
hex_case q g n [] = refl
hex_case q g n (text cs ∷ args) = refl
hex_case q g n (real m ∷ args) = refl
hex_case q g n (word w ∷ args) = print_hex g n (qualifier_of q) w args

upper_case :
    (q : Length) (g : Flags) (n : ℕ) (args : List Arg)
    → print_directive (typed q (type_of hex_upper g n)) args ≡ described q hex_upper g n args
unfolding print_directive convert described field_text
upper_case q g n [] = refl
upper_case q g n (text cs ∷ args) = refl
upper_case q g n (real m ∷ args) = refl
upper_case q g n (word w ∷ args) = print_hex (record g { upper = true }) n (qualifier_of q) w args

pointer_case :
    (q : Length) (g : Flags) (n : ℕ) (args : List Arg)
    → print_directive (typed q (type_of pointer_lower g n)) args
      ≡ described q pointer_lower g n args
unfolding print_directive convert described field_text
pointer_case q g n [] = refl
pointer_case q g n (text cs ∷ args) = refl
pointer_case q g n (real m ∷ args) = refl
pointer_case q g n (word w ∷ args) =
    print_hex (record g { fill_zero = true; prefix = true }) 16 (qualifier_of q) w args

upper_pointer_case :
    (q : Length) (g : Flags) (n : ℕ) (args : List Arg)
    → print_directive (typed q (type_of pointer_upper g n)) args
      ≡ described q pointer_upper g n args
unfolding print_directive convert described field_text
upper_pointer_case q g n [] = refl
upper_pointer_case q g n (text cs ∷ args) = refl
upper_pointer_case q g n (real m ∷ args) = refl
upper_pointer_case q g n (word w ∷ args) =
    print_hex (record g { upper = true; fill_zero = true; prefix = true }) 16 (qualifier_of q) w
      args

octal_case :
    (q : Length) (g : Flags) (n : ℕ) (args : List Arg)
    → print_directive (typed q (type_of octal g n)) args ≡ described q octal g n args
unfolding print_directive convert described field_text
octal_case q g n [] = refl
octal_case q g n (text cs ∷ args) = refl
octal_case q g n (real m ∷ args) = refl
octal_case q g n (word v ∷ []) = refl
octal_case q g n (word v ∷ text cs ∷ args) = refl
octal_case q g n (word v ∷ real m ∷ args) = refl
octal_case q g n (word v ∷ word w ∷ args) = print_octal g n (qualifier_of q) v w args

real_case :
    (q : Length) (g : Flags) (n : ℕ) (args : List Arg)
    → print_directive (typed q (type_of real_f g n)) args ≡ described q real_f g n args
unfolding print_directive convert described field_text
real_case q g n [] = refl
real_case q g n (word w ∷ args) = refl
real_case q g n (text cs ∷ args) = refl
real_case q g n (real true ∷ args) = refl
real_case q g n (real false ∷ args) = refl

exponent_case :
    (q : Length) (g : Flags) (n : ℕ) (args : List Arg)
    → print_directive (typed q (type_of exponent_lower g n)) args
      ≡ described q exponent_lower g n args
unfolding print_directive convert described field_text
exponent_case q g n [] = refl
exponent_case q g n (word w ∷ args) = refl
exponent_case q g n (text cs ∷ args) = refl
exponent_case q g n (real true ∷ args) = refl
exponent_case q g n (real false ∷ args) = refl

upper_exponent_case :
    (q : Length) (g : Flags) (n : ℕ) (args : List Arg)
    → print_directive (typed q (type_of exponent_upper g n)) args
      ≡ described q exponent_upper g n args
unfolding print_directive convert described field_text
upper_exponent_case q g n [] = refl
upper_exponent_case q g n (word w ∷ args) = refl
upper_exponent_case q g n (text cs ∷ args) = refl
upper_exponent_case q g n (real true ∷ args) = refl
upper_exponent_case q g n (real false ∷ args) = refl

character_case :
    (q : Length) (g : Flags) (n : ℕ) (args : List Arg)
    → print_directive (typed q (type_of character g n)) args ≡ described q character g n args
unfolding print_directive convert described field_text
character_case q g n [] = refl
character_case q g n (word w ∷ args) = refl
character_case q g n (text cs ∷ args) = refl
character_case q g n (real m ∷ args) = refl

text_case :
    (q : Length) (g : Flags) (n : ℕ) (args : List Arg)
    → print_directive (typed q (type_of text_s g n)) args ≡ described q text_s g n args
unfolding print_directive convert described field_text
text_case q g n [] = refl
text_case q g n (word w ∷ args) = refl
text_case q g n (text [] ∷ args) = refl
text_case q g n (text (c ∷ cs) ∷ args) = refl
text_case q g n (real m ∷ args) = refl

-- Printing a directive prints the field that is described.
pub print_directive-described :
    (q : Length) (t : TypeChar) (g : Flags) (n : ℕ) (args : List Arg)
    → print_directive (typed q (type_of t g n)) args ≡ described q t g n args
print_directive-described q signed_d g n args = signed_case q g n args
print_directive-described q unsigned_u g n args = unsigned_case q g n args
print_directive-described q octal g n args = octal_case q g n args
print_directive-described q hex_lower g n args = hex_case q g n args
print_directive-described q hex_upper g n args = upper_case q g n args
print_directive-described q real_f g n args = real_case q g n args
print_directive-described q character g n args = character_case q g n args
print_directive-described q text_s g n args = text_case q g n args
print_directive-described q exponent_lower g n args = exponent_case q g n args
print_directive-described q exponent_upper g n args = upper_exponent_case q g n args
print_directive-described q pointer_lower g n args = pointer_case q g n args
print_directive-described q pointer_upper g n args = upper_pointer_case q g n args
