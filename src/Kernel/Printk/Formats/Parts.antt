-- ===== src/Kernel/Printk/Formats/Parts.antt =====
-- The parts of a directive, read by the loops and switches of vsprintk in kernel/printk.c.
use tay_huang_os.Prelude.{
  ℕ, true, false, Option, none, some, List, [], ◌∷◌, ◌==◌, ◌+◌, ◌-◌, ◌*◌, ◌%◌, ◌^◌, ◌<◌, ◌≡◌, refl,
  ap, ◌∙◌, arith,
}
use tay_huang_os.Kernel.Printk.Syntax.{
  Arg, word, text, real, Qualifier, short, normal, long, Flags, isdigit, set_flag, parse_digits,
  parse_width, skip_precision, is_l, parse_first, parse_second, parse_type,
}
use tay_huang_os.Kernel.Printk.Formats.{
  FlagChar, Length, TypeChar, Width, flag_char, type_char, show_digits, show_width, show_precision,
  show_length, AllDigits, IsWidth, IsPrecision, apply_flag, decimal, qualifier_of, type_of,
  width_of, plus, minus, space, zero_fill, hash, plain, half, one_l, two_l, signed_d, unsigned_u,
  octal, hex_lower, hex_upper, real_f, character, text_s, exponent_lower, exponent_upper,
  pointer_lower, pointer_upper, digits, star,
}

-- A rest at whose first character the parts before it end.
abbrev pub Ends : List ℕ → Type 0
Ends [] = Unit
Ends (a ∷ k) = ((g : Flags) → set_flag a g ≡ none) × (isdigit a ≡ false) × ((a == b'*') ≡ false)

abbrev pub NoPoint : List ℕ → Type 0
NoPoint [] = Unit
NoPoint (a ∷ k) = (a == b'.') ≡ false

type_char-Ends : (t : TypeChar) (k : List ℕ) → Ends (type_char t ∷ k)
type_char-Ends signed_d k = ((λ g. refl), refl, refl)
type_char-Ends unsigned_u k = ((λ g. refl), refl, refl)
type_char-Ends octal k = ((λ g. refl), refl, refl)
type_char-Ends hex_lower k = ((λ g. refl), refl, refl)
type_char-Ends hex_upper k = ((λ g. refl), refl, refl)
type_char-Ends real_f k = ((λ g. refl), refl, refl)
type_char-Ends character k = ((λ g. refl), refl, refl)
type_char-Ends text_s k = ((λ g. refl), refl, refl)
type_char-Ends exponent_lower k = ((λ g. refl), refl, refl)
type_char-Ends exponent_upper k = ((λ g. refl), refl, refl)
type_char-Ends pointer_lower k = ((λ g. refl), refl, refl)
type_char-Ends pointer_upper k = ((λ g. refl), refl, refl)

length-Ends : (q : Length) (t : TypeChar) (k : List ℕ) → Ends (show_length q (type_char t ∷ k))
length-Ends plain t k = type_char-Ends t k
length-Ends half t k = ((λ g. refl), refl, refl)
length-Ends one_l t k = ((λ g. refl), refl, refl)
length-Ends two_l t k = ((λ g. refl), refl, refl)

pub parse_type_lem :
    (t : TypeChar) (g : Flags) (n : ℕ) → parse_type (type_char t) g n ≡ type_of t g n
unfolding parse_type
parse_type_lem signed_d g n = refl
parse_type_lem unsigned_u g n = refl
parse_type_lem octal g n = refl
parse_type_lem hex_lower g n = refl
parse_type_lem hex_upper g n = refl
parse_type_lem real_f g n = refl
parse_type_lem character g n = refl
parse_type_lem text_s g n = refl
parse_type_lem exponent_lower g n = refl
parse_type_lem exponent_upper g n = refl
parse_type_lem pointer_lower g n = refl
parse_type_lem pointer_upper g n = refl

set_flag_lem : (a : FlagChar) (g : Flags) → set_flag (flag_char a) g ≡ some (apply_flag a g)
set_flag_lem plus g = refl
set_flag_lem minus g = refl
set_flag_lem space g = refl
set_flag_lem zero_fill g = refl
set_flag_lem hash g = refl

is-digit : (n : ℕ) → n < 10 → isdigit (b'0' + n) ≡ true
is-digit n h = ground arith

digit_value : (n m : ℕ) → (m * 10 + (b'0' + n) - b'0') % 2 ^ 32 ≡ (m * 10 + n) % 2 ^ 32
digit_value n m =
    let e : m * 10 + (b'0' + n) - b'0' ≡ m * 10 + n = omega arith in ap (λ a. a % 2 ^ 32) e

parse_digits-show :
    (ds : List ℕ) (k : List ℕ) (n : ℕ)
    → AllDigits ds
    → Ends k
    → parse_digits (show_digits ds k) n ≡ (decimal ds n, k)
unfolding parse_digits
parse_digits-show [] [] n a stop = refl
parse_digits-show [] (b ∷ k) n a (s1, no_digit, s2) = rw no_digit refl
parse_digits-show (m ∷ ds) k n (lt, a) stop =
    rw (is-digit m lt, digit_value m n) (parse_digits-show ds k ((n * 10 + m) % 2 ^ 32) a stop)

-- A width of digits, whatever the arguments are.
parse_width-digits :
    (args : List Arg) (a : ℕ) (k0 : List ℕ) (n : ℕ) (k : List ℕ) (g : Flags)
    → (a == b'*') ≡ false
    → parse_digits (a ∷ k0) 0 ≡ (n, k)
    → parse_width (a ∷ k0) args g ≡ some (g, n, (k, args))
unfolding parse_width
parse_width-digits [] a k0 n k g no_star e = rw (no_star, e) refl
parse_width-digits (word w ∷ args) a k0 n k g no_star e = rw (no_star, e) refl
parse_width-digits (text cs ∷ args) a k0 n k g no_star e = rw (no_star, e) refl
parse_width-digits (real b ∷ args) a k0 n k g no_star e = rw (no_star, e) refl

-- What a width leaves: the flags, the number, the rest and the arguments.
abbrev pub with_rest :
    List ℕ → Option (Flags × ℕ × List Arg) → Option (Flags × ℕ × (List ℕ × List Arg))
with_rest k none = none
with_rest k (some (g, n, args)) = some (g, n, (k, args))

digit-no_star : (n : ℕ) → n < 10 → ((b'0' + n) == b'*') ≡ false
digit-no_star n lt = ground arith

pub parse_width-show :
    (w : Width) (k : List ℕ) (args : List Arg) (g : Flags)
    → IsWidth w
    → Ends k
    → parse_width (show_width w k) args g ≡ with_rest k (width_of w args g)
unfolding parse_width
parse_width-show (digits []) [] [] g v stop = refl
parse_width-show (digits []) [] (b ∷ args) g v stop = refl
parse_width-show (digits []) (a ∷ k) args g v (s1, no_digit, no_star) =
    parse_width-digits args a k 0 (a ∷ k) g no_star
      (parse_digits-show [] (a ∷ k) 0 tt (s1, no_digit, no_star))
parse_width-show (digits (m ∷ ds)) k args g (pos_m, lt, v) stop =
    parse_width-digits args (b'0' + m) (show_digits ds k) (decimal (m ∷ ds) 0) k g
      (digit-no_star m lt) (parse_digits-show (m ∷ ds) k 0 (lt, v) stop)
parse_width-show star k [] g v stop = refl
parse_width-show star k (word w ∷ args) g v stop = refl
parse_width-show star k (text cs ∷ args) g v stop = refl
parse_width-show star k (real b ∷ args) g v stop = refl

skip_precision-digits :
    (args : List Arg) (a : ℕ) (k0 k : List ℕ) (n : ℕ)
    → (a == b'*') ≡ false
    → parse_digits (a ∷ k0) 0 ≡ (n, k)
    → skip_precision (b'.' ∷ a ∷ k0) args ≡ some (k, args)
unfolding skip_precision
skip_precision-digits [] a k0 k n no_star e = rw (no_star, e) refl
skip_precision-digits (b ∷ args) a k0 k n no_star e = rw (no_star, e) refl

skip_precision-none :
    (a : ℕ) (k : List ℕ) (args : List Arg)
    → (a == b'.') ≡ false
    → skip_precision (a ∷ k) args ≡ some (a ∷ k, args)
unfolding skip_precision
skip_precision-none a [] args e = rw e refl
skip_precision-none a (b ∷ k) [] e = rw e refl
skip_precision-none a (b ∷ k) (c ∷ args) e = rw e refl

skip_precision-show :
    (q : Option (List ℕ)) (a : ℕ) (k : List ℕ) (args : List Arg)
    → IsPrecision q
    → Ends (a ∷ k)
    → (a == b'.') ≡ false
    → skip_precision (show_precision q (a ∷ k)) args ≡ some (a ∷ k, args)
skip_precision-show none a k args v stop point = skip_precision-none a k args point
skip_precision-show (some []) a k args v (s1, no_digit, no_star) point =
    skip_precision-digits args a k (a ∷ k) 0 no_star
      (parse_digits-show [] (a ∷ k) 0 tt (s1, no_digit, no_star))
skip_precision-show (some (m ∷ ds)) a k args (lt, v) stop point =
    skip_precision-digits args (b'0' + m) (show_digits ds (a ∷ k)) (a ∷ k) (decimal (m ∷ ds) 0)
      (digit-no_star m lt) (parse_digits-show (m ∷ ds) (a ∷ k) 0 (lt, v) stop)

-- No type is a length, a point or a second '%'.
pub type_char_ne :
    (t : TypeChar)
    → (is_l (type_char t) ≡ false)
      × ((type_char t == b'h') ≡ false)
      × ((type_char t == b'.') ≡ false)
      × ((type_char t == b'%') ≡ false)
type_char_ne signed_d = (refl, refl, refl, refl)
type_char_ne unsigned_u = (refl, refl, refl, refl)
type_char_ne octal = (refl, refl, refl, refl)
type_char_ne hex_lower = (refl, refl, refl, refl)
type_char_ne hex_upper = (refl, refl, refl, refl)
type_char_ne real_f = (refl, refl, refl, refl)
type_char_ne character = (refl, refl, refl, refl)
type_char_ne text_s = (refl, refl, refl, refl)
type_char_ne exponent_lower = (refl, refl, refl, refl)
type_char_ne exponent_upper = (refl, refl, refl, refl)
type_char_ne pointer_lower = (refl, refl, refl, refl)
type_char_ne pointer_upper = (refl, refl, refl, refl)

parse_first-none :
    (a : ℕ) (k : List ℕ)
    → is_l a ≡ false
    → (a == b'h') ≡ false
    → parse_first (a ∷ k) ≡ (normal, a ∷ k)
unfolding parse_first
parse_first-none a k no_l no_h = rw (no_l, no_h) refl

parse_second-none :
    (q : Qualifier) (a : ℕ) (k : List ℕ) → is_l a ≡ false → parse_second (q, a ∷ k) ≡ (q, a ∷ k)
unfolding parse_second
parse_second-none q a k no_l = rw no_l refl

pub parse_length-show :
    (q : Length) (t : TypeChar) (k : List ℕ)
    → parse_second (parse_first (show_length q (type_char t ∷ k)))
      ≡ (qualifier_of q, type_char t ∷ k)
unfolding parse_first parse_second
parse_length-show plain t k =
    let (no_l, no_h, no_point, no_percent) = type_char_ne t in
    ap parse_second (parse_first-none (type_char t) k no_l no_h)
    ∙ parse_second-none normal (type_char t) k no_l
parse_length-show half t k = parse_second-none short (type_char t) k (type_char_ne t).0
parse_length-show one_l t k = parse_second-none long (type_char t) k (type_char_ne t).0
parse_length-show two_l t k = refl

pub precision-show :
    (q : Option (List ℕ)) (n : Length) (t : TypeChar) (k : List ℕ) (args : List Arg)
    → IsPrecision q
    → skip_precision (show_precision q (show_length n (type_char t ∷ k))) args
      ≡ some (show_length n (type_char t ∷ k), args)
precision-show q plain t k args v =
    skip_precision-show q (type_char t) k args v (type_char-Ends t k) (type_char_ne t).2
precision-show q half t k args v =
    skip_precision-show q b'h' (type_char t ∷ k) args v (length-Ends half t k) refl
precision-show q one_l t k args v =
    skip_precision-show q b'l' (type_char t ∷ k) args v (length-Ends one_l t k) refl
precision-show q two_l t k args v =
    skip_precision-show q b'l' (b'l' ∷ type_char t ∷ k) args v (length-Ends two_l t k) refl

pub precision-Ends :
    (q : Option (List ℕ)) (n : Length) (t : TypeChar) (k : List ℕ)
    → Ends (show_precision q (show_length n (type_char t ∷ k)))
precision-Ends none n t k = length-Ends n t k
precision-Ends (some ds) n t k = ((λ g. refl), refl, refl)
