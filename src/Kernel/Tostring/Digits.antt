-- ===== src/Kernel/Tostring/Digits.antt =====
-- The digits that kernel/libs/tostring.c writes, and the number that they stand for.
use native.Mathlib.Nat.{
  pow-zero, pow-suc, one-le-pow, mod-lt, div-add-mod', div-lt_iff_lt-mul, le-div_iff_mul-le,
  mul-lt-mul_of_pos_left,
}
use tay_huang_os.Prelude.{
  ℕ, zero, suc, false, none, some, List, [], ◌∷◌, ◌++◌, ◌==◌, ltb, if◌then◌else◌, ◌+◌, ◌-◌, ◌*◌,
  ◌/◌, ◌%◌, ◌^◌, ◌<◌, ◌≤◌, ◌≡◌, ◌⊎◌, refl, ap, subst, ◌∙◌, arith, inl, inr, Bool-cases, length,
}
use tay_huang_os.Prelude.Int.{negsuc}
use tay_huang_os.Kernel.State.{update}
use tay_huang_os.Kernel.Ready.Chain.{update_ne, update_self}
use tay_huang_os.Kernel.Tostring.{
  digit_char, fill_buffer, reversed, write_chars, write_number, itoa, uitoa, ulltoa,
}

-- The digit of a character, and the number that characters stand for, the first digit the highest.
abbrev pub char_digit : ℕ → ℕ
char_digit ch = if ltb ch 58 then ch - 48 else ch - 87

abbrev pub number : ℕ → ℕ → List ℕ → ℕ
number base acc [] = acc
number base acc (ch ∷ chs) = number base (acc * base + char_digit ch) chs

two_times : (val base : ℕ) → 2 ≤ base → 0 < val → val < val * base
two_times val base h k =
    let more : val * 1 < val * base = mul-lt-mul_of_pos_left (omega arith) k in omega (arith, more)

char_digit-digit_char : (d : ℕ) → d < 36 → char_digit (digit_char d) ≡ d
char_digit-digit_char d h = ground arith

number-append :
    (base acc ch : ℕ) (chs : List ℕ)
    → number base acc (chs ++ (ch ∷ [])) ≡ number base acc chs * base + char_digit ch
number-append base acc ch [] = refl
number-append base acc ch (x ∷ chs) = number-append base (acc * base + char_digit x) ch chs

-- A value below `base ^ room` fits, and its digits stand for it.
pub fill_buffer-number :
    (base : ℕ)
    → 2 ≤ base
    → base ≤ 36
    → (fuel room val : ℕ) → val < base ^ room
    → val ≤ fuel
    → (ds : List ℕ) × (fill_buffer fuel base room val ≡ some ds)
      × (number base 0 (reversed ds) ≡ val)
unfolding fill_buffer
fill_buffer-number base two most fuel zero val h k =
    let z : val ≡ 0 = omega (arith, pow-zero base) in ([], ground arith, omega arith)
fill_buffer-number base two most zero (suc room) val h k = ([], refl, omega arith)
fill_buffer-number base two most (suc fuel) (suc room) val h k = elim (Bool-cases (val == 0)) [
  | inl z ↦ ([], rw z refl, ground arith)
  | inr nz ↦
      let positive : 0 < base = omega arith in
      let some_value : 0 < val = ground arith in
      let top : val < base ^ room * base = subst (λ n. val < n) (pow-suc base room) h in
      let one_less : val / base < base ^ room = (div-lt_iff_lt-mul positive).1 top in
      let smaller : val / base < val =
        (div-lt_iff_lt-mul positive).1 (two_times val base two some_value) in
      let (ds, e, v) =
        fill_buffer-number base two most fuel room (val / base) one_less (omega arith) in
      (
        digit_char (val % base) ∷ ds,
        rw (nz, e) refl,
        number-append base 0 (digit_char (val % base)) (reversed ds)
            ∙ ap (λ n. n * base + char_digit (digit_char (val % base))) v
            ∙ ap (λ d. val / base * base + d)
                (char_digit-digit_char (val % base) (omega (arith, mod-lt val positive)))
            ∙ div-add-mod' val base,
      )
]

pow_pos : (base room : ℕ) → 2 ≤ base → 1 ≤ base ^ room
pow_pos base room h = one-le-pow room base (omega arith)

-- A value of more digits is written behind the end of `_buffer`.
fill_buffer-overflow :
    (base : ℕ)
    → 2 ≤ base
    → (fuel room val : ℕ) → base ^ room ≤ val
    → val ≤ fuel
    → fill_buffer fuel base room val ≡ none
unfolding fill_buffer
fill_buffer-overflow base two fuel zero val h k =
    let nz : (val == 0) ≡ false = ground (arith, pow-zero base, h) in rw nz refl
fill_buffer-overflow base two zero (suc room) val h k =
    absurd (omega (arith, pow_pos base (suc room) two, h, k))
fill_buffer-overflow base two (suc fuel) (suc room) val h k =
    let positive : 0 < base = omega arith in
    let some_value : 0 < val = omega (arith, pow_pos base (suc room) two, h) in
    let nz : (val == 0) ≡ false = ground arith in
    let more : base ^ room ≤ val / base =
      (le-div_iff_mul-le positive).1 (subst (λ n. n ≤ val) (pow-suc base room) h) in
    let smaller : val / base < val =
      (div-lt_iff_lt-mul positive).1 (two_times val base two some_value) in
    rw (nz, fill_buffer-overflow base two fuel room (val / base) more (omega arith)) refl

-- What writing characters does: they stand from `buffer` on, and other bytes are as before.
abbrev pub Holds : (ℕ → ℕ) → ℕ → List ℕ → Type 0
Holds mem buffer [] = Unit
Holds mem buffer (ch ∷ chs) = (mem buffer ≡ ch) × Holds mem (buffer + 1) chs

write_chars-below :
    (buffer : ℕ) (chs : List ℕ) (mem : ℕ → ℕ) (q : ℕ)
    → (q < buffer) ⊎ (buffer + length chs ≤ q)
    → write_chars buffer chs mem q ≡ mem q
unfolding write_chars
write_chars-below buffer [] mem q o = refl
write_chars-below buffer (ch ∷ chs) mem q o =
    write_chars-below (buffer + 1) chs (update mem buffer ch) q (omega arith)
    ∙ update_ne mem buffer ch q (omega arith)

write_chars-Holds :
    (buffer : ℕ) (chs : List ℕ) (mem : ℕ → ℕ) → Holds (write_chars buffer chs mem) buffer chs
unfolding write_chars
write_chars-Holds buffer [] mem = tt
write_chars-Holds buffer (ch ∷ chs) mem = (
  write_chars-below (buffer + 1) chs (update mem buffer ch) buffer (inl (omega arith))
      ∙ update_self mem buffer ch,
  write_chars-Holds (buffer + 1) chs (update mem buffer ch),
)

-- The characters of `val` stand at `buffer`, and no other byte is written.
pub record Written (base val buffer : ℕ) (mem mem' : ℕ → ℕ) (chs : List ℕ) : Type 0 where
  pub stored : Holds mem' buffer chs
  pub value : number base 0 chs ≡ val
  pub elsewhere : (q : ℕ) → (q < buffer) ⊎ (buffer + length chs ≤ q) → mem' q ≡ mem q

write_number-Written :
    (room val buffer base : ℕ) (mem : ℕ → ℕ)
    → 2 ≤ base
    → base ≤ 36
    → val < base ^ room
    → (chs : List ℕ) × (mem' : ℕ → ℕ) × (write_number room val buffer base mem ≡ some mem')
      × Written base val buffer mem mem' chs
unfolding write_number
write_number-Written room val buffer base mem two most h =
    let (ds, e, v) = fill_buffer-number base two most val room val h (omega arith) in
    (
      reversed ds,
      write_chars buffer (reversed ds) mem,
      rw (e, write_number) refl,
      record {
        stored = write_chars-Holds buffer (reversed ds) mem;
        value = v;
        elsewhere = write_chars-below buffer (reversed ds) mem;
      },
    )

-- A value above 0 with at most 23 digits in a base from 2 to 36: `ulltoa` writes characters that
-- stand for it, from the buffer's start on, and nothing else; so no terminator follows them.
pub ulltoa-Written :
    (val buffer base : ℕ) (mem : ℕ → ℕ)
    → 2 ≤ base
    → base ≤ 36
    → 0 < val
    → val < base ^ 23
    → (chs : List ℕ) × (mem' : ℕ → ℕ) × (ulltoa val buffer base mem ≡ some mem')
      × Written base val buffer mem mem' chs
unfolding ulltoa
ulltoa-Written val buffer base mem two most some_value h =
    let nz : (val == 0) ≡ false = ground arith in
    rw nz (write_number-Written 23 val buffer base mem two most h)

-- A negative number, whose absolute value has at most 12 digits in the base: `itoa` writes a minus
-- sign, and behind it the characters of the absolute value.
itoa-negative :
    (n buffer base : ℕ) (mem : ℕ → ℕ)
    → 2 ≤ base
    → base ≤ 36
    → suc n < base ^ 12
    → (chs : List ℕ) × (mem' : ℕ → ℕ) × (itoa (negsuc n) buffer base mem ≡ some mem')
      × (mem' buffer ≡ 45)
      × Written base (suc n) (buffer + 1) (update mem buffer 45) mem' chs
unfolding itoa
itoa-negative n buffer base mem two most h =
    let (chs, mem', e, w) =
      write_number-Written 12 (suc n) (buffer + 1) base (update mem buffer 45) two most h in
    (chs, mem', e, w.elsewhere buffer (inl (omega arith)) ∙ update_self mem buffer 45, w)

-- A value of more than 12 digits in the base makes `uitoa` write behind the end of its local buffer.
uitoa-overflow :
    (val buffer base : ℕ) (mem : ℕ → ℕ)
    → 2 ≤ base
    → base ^ 12 ≤ val
    → uitoa val buffer base mem ≡ none
unfolding uitoa write_number
uitoa-overflow val buffer base mem two h =
    let nz : (val == 0) ≡ false = ground (arith, pow_pos base 12 two) in
    rw (nz, fill_buffer-overflow base two val 12 val h (omega arith), write_number) refl
