-- ===== src/Loader/Fat32/Names.antt =====
-- Names of files as a directory holds them (`convert` of loader/grub_loader/fs/fat32.c).
use tay_huang_os.Prelude.{
  ℕ, zero, suc, true, false, some, List, [], ◌∷◌, ◌++◌, map, ◌≤◌, ◌<◌, ◌==◌, ◌≡◌, ◌≢◌, refl, ap,
  ◌∙◌, arith, length, length-append, length-map, ltb, if◌then◌else◌,
}
use tay_huang_os.Kernel.Printk.Syntax.{upper_char}
use tay_huang_os.Loader.Fat32.Convert.{split_dot, pad, overrun, null, text, joined, convert}

-- No character is a dot.
abbrev pub NoDot : List ℕ → Type 0
NoDot [] = Unit
NoDot (c ∷ cs) = (c ≢ b'.') × NoDot cs

split_dot_lem :
    (base rest : List ℕ)
    → NoDot base
    → split_dot (base ++ (b'.' ∷ rest)) ≡ some (map upper_char base, rest)
unfolding split_dot
split_dot_lem [] rest h = refl
split_dot_lem (c ∷ cs) rest (h, hs) =
    let e : (c == b'.') ≡ false = ground arith in rw (e, split_dot_lem cs rest hs) refl

length-pad : (n : ℕ) (s : List ℕ) → length s ≤ n → length (pad n s) ≡ n
length-pad zero [] h = refl
length-pad zero (c ∷ s) h = absurd (omega arith)
length-pad (suc n) [] h = ap suc (length-pad n [] (omega arith))
length-pad (suc n) (c ∷ s) h = ap suc (length-pad n s (omega arith))

-- A name of up to eight characters, a dot and three more characters becomes the eleven characters of
-- a directory: in upper case, the first part filled with blanks.
convert-text :
    (base : List ℕ) (a b c : ℕ) (more : List ℕ)
    → NoDot base
    → length base ≤ 8
    → let name = pad 8 (map upper_char base) ++ (upper_char a ∷ upper_char b ∷ upper_char c ∷ []) in
      (convert (base ++ (b'.' ∷ a ∷ b ∷ c ∷ more)) ≡ text name) × (length name ≡ 11)
unfolding convert
convert-text base a b c more h l =
    let n = length-map base upper_char in
    let up = map upper_char base in
    let e1 : ltb 12 (length up) ≡ false = ground (arith, n, l) in
    let e2 : ltb 8 (length up) ≡ false = ground (arith, n, l) in
    (
      ap joined (split_dot_lem base (a ∷ b ∷ c ∷ more) h) ∙ rw (e1, e2) refl,
      length-append (pad 8 up) (upper_char a ∷ upper_char b ∷ upper_char c ∷ [])
          ∙ omega (arith, length-pad 8 up (omega (arith, n, l))),
    )

-- A name with more than eight characters before its first dot gives no name of a directory: NULL up to
-- twelve characters, and from there on a write behind the buffer.
convert_long :
    (base rest : List ℕ)
    → NoDot base
    → 8 < length base
    → convert (base ++ (b'.' ∷ rest)) ≡ (if ltb 12 (length base) then overrun else null)
unfolding convert
convert_long base rest h l =
    let n = length-map base upper_char in
    let up = map upper_char base in
    let e2 : ltb 8 (length up) ≡ true = ground (arith, n, l) in
    ap joined (split_dot_lem base rest h)
    ∙ rw e2 (ap (λ (k : ℕ). if ltb 12 k then overrun else null) n)
