-- ===== src/Kernel/Strings.antt =====
-- The strings of kernel/libs/string.c, which loader/grub_loader/libs/string.c copies: a string is the
-- list of its characters before the terminator.
pub mod Compare
mod Tests
use tay_huang_os.Prelude.{
  ℕ, Option, none, some, List, [], ◌∷◌, ◌+◌, ◌-◌, ◌==◌, ltb, length, if◌then◌else◌,
}
use tay_huang_os.Prelude.Int.{ℤ, pos, negsuc, ltb_ℤ}
use tay_huang_os.Kernel.State.{update}

-- A byte as a `char`.
abbrev pub char_of : ℕ → ℤ
char_of c = if ltb c 128 then pos c else negsuc (255 - c)

-- The loop of `strcmp` over two strings of one length, with the sign of the first difference.
unfoldable pub compare_chars : List ℕ → List ℕ → ℤ
compare_chars [] t = pos 0
compare_chars (x ∷ xs) [] = pos 0
compare_chars (x ∷ xs) (y ∷ ys) =
    let rest = compare_chars xs ys in
    if x == y then rest else if ltb_ℤ (char_of x) (char_of y) then negsuc 0 else pos 1

unfoldable pub strcmp : List ℕ → List ℕ → ℤ
strcmp s t =
    if length s == length t
    then compare_chars s t
    else if ltb (length s) (length t)
    then negsuc 0
    else pos 1

-- The characters of a buffer up to its first zero.
abbrev pub until_zero : List ℕ → List ℕ
until_zero [] = []
until_zero (c ∷ cs) = if c == 0 then [] else c ∷ until_zero cs

-- The loop of `strcpy`: characters go to `dst` while the next one is not the terminator.
unfoldable pub copy_chars : ℕ → List ℕ → (ℕ → ℕ) → ℕ → ℕ
copy_chars dst [] mem = mem
copy_chars dst (c ∷ cs) mem = copy_chars (dst + 1) cs (update mem dst c)

-- `strcpy`; for an empty string it copies the terminator and reads on behind it, which is `none`.
unfoldable pub strcpy : ℕ → List ℕ → (ℕ → ℕ) → Option (ℕ → ℕ)
strcpy dst [] mem = none
strcpy dst (c ∷ cs) mem = some (copy_chars dst (c ∷ cs) mem)
