-- ===== src/Kernel/Printk/Formats/Render.antt =====
-- About vsprintk of kernel/printk.c on formats that are written down from items.
use tay_huang_os.Prelude.{
  ℕ, zero, suc, false, Option, none, some, List, [], ◌∷◌, ◌++◌, ◌==◌, ◌<◌, ◌≡◌, ◌≢◌, refl, ap, ◌∙◌,
  arith, length,
}
use tay_huang_os.Prelude.Int.{pos, ◌-ℤ◌}
use tay_huang_os.Kernel.Printk.{
  parse_directive, Outcome, printed, continue_with, print_parsed, vsprintk,
}
use tay_huang_os.Kernel.Printk.Syntax.{Arg, Flags, no_flags}
use tay_huang_os.Kernel.Printk.Formats.{
  FlagChar, Length, TypeChar, Width, DirectiveText, type_char, show_flags, show_width,
  show_precision, show_length, show_directive, IsWidth, apply_flags, width_of, meant, Item,
  show_items, AllItems, plus, minus, space, zero_fill, hash, plain, half, one_l, two_l, digits,
  star, literal, percent, field,
}
use tay_huang_os.Kernel.Printk.Formats.Meaning.{described, after_field, of_width, render}
use tay_huang_os.Kernel.Printk.Formats.Fields.{print_directive-described}
use tay_huang_os.Kernel.Printk.Formats.Parts.{type_char_ne}
use tay_huang_os.Kernel.Printk.Formats.Parse.{parse_directive-show}

vsprintk-literal :
    (fuel a : ℕ) (k : List ℕ) (args : List Arg) (out : List ℕ)
    → a ≢ b'%'
    → vsprintk (suc fuel) (a ∷ k) args out ≡ vsprintk fuel k args (out ++ (a ∷ []))
unfolding vsprintk
vsprintk-literal fuel a [] args out h = let e : (a == b'%') ≡ false = ground arith in rw e refl
vsprintk-literal fuel a (b ∷ k) args out h = let e : (a == b'%') ≡ false = ground arith in rw e refl

vsprintk-end :
    (fuel : ℕ) (args : List Arg) (out : List ℕ)
    → vsprintk (suc fuel) [] args out ≡ printed out (pos (length out) -ℤ pos 1)
unfolding vsprintk
vsprintk-end fuel args out = refl

vsprintk-double :
    (fuel : ℕ) (k : List ℕ) (args : List Arg) (out : List ℕ)
    → vsprintk (suc fuel) (b'%' ∷ b'%' ∷ k) args out ≡ vsprintk fuel k args (out ++ (b'%' ∷ []))
unfolding vsprintk
vsprintk-double fuel k args out = refl

-- What follows '%' is no second one.
abbrev NotPercent : List ℕ → Type 0
NotPercent [] = ⊥
NotPercent (a ∷ k) = (a == b'%') ≡ false

length-NotPercent :
    (q : Length) (t : TypeChar) (k : List ℕ) → NotPercent (show_length q (type_char t ∷ k))
length-NotPercent plain t k = (type_char_ne t).3
length-NotPercent half t k = refl
length-NotPercent one_l t k = refl
length-NotPercent two_l t k = refl

precision-NotPercent :
    (q : Option (List ℕ)) (n : Length) (t : TypeChar) (k : List ℕ)
    → NotPercent (show_precision q (show_length n (type_char t ∷ k)))
precision-NotPercent none n t k = length-NotPercent n t k
precision-NotPercent (some ds) n t k = refl

width-NotPercent : (w : Width) (k : List ℕ) → IsWidth w → NotPercent k → NotPercent (show_width w k)
width-NotPercent (digits []) k v np = np
width-NotPercent (digits (m ∷ ds)) k (pos_m, lt, v) np = ground arith
width-NotPercent star k v np = refl

flags-NotPercent : (fs : List FlagChar) (k : List ℕ) → NotPercent k → NotPercent (show_flags fs k)
flags-NotPercent [] k np = np
flags-NotPercent (plus ∷ fs) k np = refl
flags-NotPercent (minus ∷ fs) k np = refl
flags-NotPercent (space ∷ fs) k np = refl
flags-NotPercent (zero_fill ∷ fs) k np = refl
flags-NotPercent (hash ∷ fs) k np = refl

vsprintk-percent :
    (fuel : ℕ) (k : List ℕ) (args : List Arg) (out : List ℕ)
    → NotPercent k
    → vsprintk (suc fuel) (b'%' ∷ k) args out
      ≡ print_parsed (vsprintk fuel) out (parse_directive k args)
unfolding vsprintk
vsprintk-percent fuel [] args out np = absurd np
vsprintk-percent fuel (a ∷ k) args out np = rw np refl

module _ (go : List ℕ → List Arg → List ℕ → Outcome) (items : List Item) (k : List ℕ)
    (same : (args : List Arg) (out : List ℕ) → go k args out ≡ render items args out) where
  continue-same :
      (out : List ℕ) (r : Option (List ℕ × List Arg))
      → continue_with go out k r ≡ after_field (render items) out r
  continue-same out none = refl
  continue-same out (some (chars, args)) = same args (out ++ chars)

  meant-same :
      (t : DirectiveText) (out : List ℕ) (o : Option (Flags × ℕ × List Arg))
      → print_parsed go out (meant t k o) ≡ of_width (render items) t out o
  meant-same t out none = refl
  meant-same t out (some (g, n, args)) =
      ap (continue_with go out k) (print_directive-described t.length t.type g n args)
      ∙ continue-same out (described t.length t.type g n args)

-- For every format that is written down from well-formed items, and with fuel for each of them, vsprintk
-- prints what the items mean: plain characters and "%%" as they are, and for each directive, with flags
-- and width in any combination, the field that is described for its type: sign, prefix, what fills the
-- width, and the digits of the argument, or its character or string. It ends with the whole text, whose
-- length less one it returns, or at the first argument that does not fit.
pub vsprintk-render :
    (items : List Item) (fuel : ℕ) (args : List Arg) (out : List ℕ)
    → AllItems items
    → length items < fuel
    → vsprintk fuel (show_items items) args out ≡ render items args out
unfolding render
vsprintk-render items zero args out v enough = absurd (omega arith)
vsprintk-render [] (suc fuel) args out v enough = vsprintk-end fuel args out
vsprintk-render (literal a ∷ items) (suc fuel) args out (ne, v) enough =
    vsprintk-literal fuel a (show_items items) args out ne
    ∙ vsprintk-render items fuel args (out ++ (a ∷ [])) v (omega arith)
vsprintk-render (percent ∷ items) (suc fuel) args out v enough =
    vsprintk-double fuel (show_items items) args out
    ∙ vsprintk-render items fuel args (out ++ (b'%' ∷ [])) v (omega arith)
vsprintk-render (field t ∷ items) (suc fuel) args out (w, p, v) enough =
    let k = show_items items in
    let np =
      flags-NotPercent t.flags _
        (width-NotPercent t.width _ w (precision-NotPercent t.precision t.length t.type k)) in
    vsprintk-percent fuel (show_directive t k) args out np
    ∙ ap (print_parsed (vsprintk fuel) out) (parse_directive-show t k args w p)
    ∙ meant-same (vsprintk fuel) items k (λ a o. vsprintk-render items fuel a o v (omega arith)) t
        out (width_of t.width args (apply_flags t.flags no_flags))
