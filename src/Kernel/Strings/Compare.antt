-- ===== src/Kernel/Strings/Compare.antt =====
-- What the functions of kernel/libs/string.c give.
use tay_huang_os.Prelude.{
  ℕ, true, some, List, [], ◌∷◌, ◌+◌, ◌<◌, ◌≤◌, ◌==◌, ◌≡◌, ◌↔◌, ◌⊎◌, inl, inr, refl, ap, sym, ◌∙◌,
  arith, length, ℕ-cases,
}
use tay_huang_os.Prelude.Int.{pos, negsuc}
use tay_huang_os.Kernel.State.{update}
use tay_huang_os.Kernel.Strings.{compare_chars, strcmp, copy_chars, strcpy}

compare_chars_refl : (s : List ℕ) → compare_chars s s ≡ pos 0
unfolding compare_chars
compare_chars_refl [] = refl
compare_chars_refl (x ∷ xs) = ground (arith, compare_chars_refl xs)

compare_chars_zero : (s t : List ℕ) → length s ≡ length t → compare_chars s t ≡ pos 0 → s ≡ t
unfolding compare_chars
compare_chars_zero [] [] l h = refl
compare_chars_zero [] (y ∷ ys) l h = absurd (omega arith)
compare_chars_zero (x ∷ xs) [] l h = absurd (omega arith)
compare_chars_zero (x ∷ xs) (y ∷ ys) l h = elim (ℕ-cases x y) [
  | inl e ↦
      let eq : (x == y) ≡ true = ground arith in
      let rest : compare_chars xs ys ≡ pos 0 = ground (arith, h, eq) in
      cc (e, compare_chars_zero xs ys (omega arith) rest)
  | inr ne ↦ absurd (ground (arith, h, ne))
]

strcmp_zero : (s t : List ℕ) → strcmp s t ≡ pos 0 → s ≡ t
unfolding strcmp
strcmp_zero s t h = elim (ℕ-cases (length s) (length t)) [
  | inl e ↦
      let eq : (length s == length t) ≡ true = ground arith in
      compare_chars_zero s t e (ground (arith, h, eq))
  | inr ne ↦ absurd (ground (arith, h, ne))
]

strcmp_refl : (s : List ℕ) → strcmp s s ≡ pos 0
unfolding strcmp
strcmp_refl s = ground (arith, compare_chars_refl s)

-- Comparing gives 0 exactly for equal strings, and -1 whenever the first is the shorter one.
pub strcmp-eq :
    (s t : List ℕ)
    → ((strcmp s t ≡ pos 0) ↔ (s ≡ t)) × (length s < length t → strcmp s t ≡ negsuc 0)
unfolding strcmp
strcmp-eq s t =
    ((strcmp_zero s t, λ e. ap (λ u. strcmp s u) (sym e) ∙ strcmp_refl s), λ h. ground (arith, h))

-- The bytes that `copy_chars` leaves alone.
copy_chars_after :
    (dst : ℕ) (s : List ℕ) (mem : ℕ → ℕ) (a : ℕ)
    → (a < dst) ⊎ (dst + length s ≤ a)
    → copy_chars dst s mem a ≡ mem a
unfolding copy_chars
copy_chars_after dst [] mem a h = refl
copy_chars_after dst (c ∷ cs) mem a h =
    copy_chars_after (dst + 1) cs (update mem dst c) a (omega arith) ∙ ground arith

-- A string that is not empty is copied without its terminator: the byte behind the copy keeps what
-- it was.
strcpy_unended :
    (dst c : ℕ) (cs : List ℕ) (mem : ℕ → ℕ)
    → (mem' : ℕ → ℕ) × (strcpy dst (c ∷ cs) mem ≡ some mem')
      × (mem' dst ≡ c)
      × ((a : ℕ) → dst + length (c ∷ cs) ≤ a → mem' a ≡ mem a)
unfolding strcpy copy_chars
strcpy_unended dst c cs mem = (
  copy_chars dst (c ∷ cs) mem,
  refl,
  copy_chars_after (dst + 1) cs (update mem dst c) dst (inl (omega arith)) ∙ ground arith,
  λ a h. copy_chars_after dst (c ∷ cs) mem a (inr h),
)
