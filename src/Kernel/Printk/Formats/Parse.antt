-- ===== src/Kernel/Printk/Formats/Parse.antt =====
-- A whole directive, read by vsprintk of kernel/printk.c.
use tay_huang_os.Prelude.{
  ℕ, false, Option, none, some, List, [], ◌∷◌, ◌==◌, ◌+◌, ◌<◌, ◌≡◌, refl, ap, ◌∙◌, arith,
}
use tay_huang_os.Kernel.Printk.{directive, parse_end, parse_tail, parse_body, parse_directive}
use tay_huang_os.Kernel.Printk.Syntax.{
  Arg, Flags, no_flags, set_flag, parse_flags, parse_width, parse_first, parse_second,
}
use tay_huang_os.Kernel.Printk.Formats.{
  FlagChar, Width, DirectiveText, type_char, show_flags, show_width, show_precision, show_length,
  show_directive, IsWidth, IsPrecision, apply_flag, apply_flags, type_of, width_of, typed, meant,
  meaning, plus, minus, space, zero_fill, hash, digits, star,
}
use tay_huang_os.Kernel.Printk.Formats.Parts.{
  Ends, parse_type_lem, with_rest, parse_width-show, parse_length-show, precision-show,
  precision-Ends,
}

-- The flags end where the width begins, which is no flag.
abbrev pub EndsFlags : List ℕ → Type 0
EndsFlags [] = Unit
EndsFlags (a ∷ k) = (g : Flags) → set_flag a g ≡ none

parse_flags-EndsFlags :
    (fs : List FlagChar) (k : List ℕ) (g : Flags)
    → EndsFlags k
    → parse_flags (show_flags fs k) g ≡ (apply_flags fs g, k)
unfolding parse_flags
parse_flags-EndsFlags [] [] g stop = refl
parse_flags-EndsFlags [] (a ∷ k) g no_flag = rw (no_flag g, parse_flags) refl
parse_flags-EndsFlags (plus ∷ fs) k g stop = parse_flags-EndsFlags fs k (apply_flag plus g) stop
parse_flags-EndsFlags (minus ∷ fs) k g stop = parse_flags-EndsFlags fs k (apply_flag minus g) stop
parse_flags-EndsFlags (space ∷ fs) k g stop = parse_flags-EndsFlags fs k g stop
parse_flags-EndsFlags (zero_fill ∷ fs) k g stop =
    parse_flags-EndsFlags fs k (apply_flag zero_fill g) stop
parse_flags-EndsFlags (hash ∷ fs) k g stop = parse_flags-EndsFlags fs k (apply_flag hash g) stop

digit-no_flag : (n : ℕ) (g : Flags) → 0 < n → n < 10 → set_flag (b'0' + n) g ≡ none
digit-no_flag n g some_digit lt =
    let e1 : ((b'0' + n) == b'+') ≡ false = ground arith in
    let e2 : ((b'0' + n) == b'-') ≡ false = ground arith in
    let e3 : ((b'0' + n) == b' ') ≡ false = ground arith in
    let e4 : ((b'0' + n) == b'0') ≡ false = ground arith in
    let e5 : ((b'0' + n) == b'#') ≡ false = ground arith in rw (e1, e2, e3, e4, e5) refl

width-EndsFlags : (w : Width) (k : List ℕ) → IsWidth w → Ends k → EndsFlags (show_width w k)
width-EndsFlags (digits []) [] v stop = tt
width-EndsFlags (digits []) (a ∷ k) v (no_flag, s1, s2) = no_flag
width-EndsFlags (digits (m ∷ ds)) k (pos_m, lt, v) stop = λ g. digit-no_flag m g pos_m lt
width-EndsFlags star k v stop = λ g. refl

-- A well-formed directive, before any rest of the format, is parsed as what it means.
module _ (t : DirectiveText) (k : List ℕ) (args : List Arg) (v : IsWidth t.width)
    (p : IsPrecision t.precision) where
  abbrev after_precision : List ℕ
  after_precision = show_length t.length (type_char t.type ∷ k)

  abbrev after_width : List ℕ
  after_width = show_precision t.precision after_precision

  abbrev flags : Flags
  flags = apply_flags t.flags no_flags

  flags_parsed : parse_flags (show_directive t k) no_flags ≡ (flags, show_width t.width after_width)
  flags_parsed =
      parse_flags-EndsFlags t.flags (show_width t.width after_width) no_flags
        (width-EndsFlags t.width after_width v (precision-Ends t.precision t.length t.type k))

  width_parsed :
      parse_width (show_width t.width after_width) args flags
      ≡ with_rest after_width (width_of t.width args flags)
  width_parsed =
      parse_width-show t.width after_width args flags v
        (precision-Ends t.precision t.length t.type k)

  end_parsed :
      (g : Flags) (n : ℕ) (args' : List Arg)
      → parse_end g n args' (parse_second (parse_first after_precision))
        ≡ directive (typed t.length (type_of t.type g n)) (k, args')
  end_parsed g n args' =
      ap (parse_end g n args') (parse_length-show t.length t.type k)
      ∙ rw (parse_end, parse_type_lem t.type g n) refl

  body_parsed :
      (o : Option (Flags × ℕ × List Arg)) → parse_body (with_rest after_width o) ≡ meant t k o
  body_parsed none = refl
  body_parsed (some (g, n, args')) =
      ap (parse_tail g n) (precision-show t.precision t.length t.type k args' p)
      ∙ end_parsed g n args'

  pub parse_directive-show : parse_directive (show_directive t k) args ≡ meaning t args k
  unfolding parse_directive
  parse_directive-show =
      ap (λ q. parse_body (parse_width q.1 args q.0)) flags_parsed
      ∙ ap parse_body width_parsed
      ∙ body_parsed (width_of t.width args flags)
