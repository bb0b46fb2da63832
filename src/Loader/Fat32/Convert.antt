-- ===== src/Loader/Fat32/Convert.antt =====
-- Names of files as a directory holds them (`convert` of loader/grub_loader/fs/fat32.c).
use tay_huang_os.Prelude.{
  ℕ, zero, suc, Option, none, some, List, [], ◌∷◌, ◌++◌, ◌==◌, ltb, length, if◌then◌else◌,
}
use mathlib.Core.Option
use tay_huang_os.Kernel.Printk.Syntax.{upper_char}

-- the name in the buffer.
pub data Converted : Type 0 where
  overrun null : Converted
  text : List ℕ → Converted

-- The three characters behind the dot, up to the terminator of `name`.
abbrev pub extension : List ℕ → Option (List ℕ)
extension [] = none
extension (a ∷ []) = none
extension (a ∷ b ∷ []) = some (upper_char a ∷ upper_char b ∷ [])
extension (a ∷ b ∷ c ∷ rest) = some (upper_char a ∷ upper_char b ∷ upper_char c ∷ [])

-- The name up to its first dot, and what stands behind that.
unfoldable pub split_dot : List ℕ → Option (List ℕ × List ℕ)
split_dot [] = none
split_dot (c ∷ cs) =
    let rest = split_dot cs in
    if c == b'.' then some ([], cs) else Option.map (λ r. (upper_char c ∷ r.0, r.1)) rest

abbrev pub pad : ℕ → List ℕ → List ℕ
pad zero base = base
pad (suc n) [] = b' ' ∷ pad n []
pad (suc n) (c ∷ base) = c ∷ pad n base

abbrev pub with_extension : List ℕ → Option (List ℕ) → Converted
with_extension base none = overrun
with_extension base (some ext) = text (pad 8 base ++ ext)

abbrev pub joined : Option (List ℕ × List ℕ) → Converted
joined none = overrun
joined (some (base, rest)) =
    if ltb 12 (length base)
    then overrun
    else if ltb 8 (length base)
    then null
    else with_extension base (extension rest)

unfoldable pub convert : List ℕ → Converted
convert name = joined (split_dot name)
