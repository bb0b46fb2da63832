-- ===== src/Kernel/Tostring.antt =====
-- Numbers to strings (kernel/libs/tostring.c). Bases are from 2 to 36, as the code's table of digits
-- has 36 characters; `val = - val` is exact, so `val` is not the least value of its type.
pub mod Digits
mod Tests
use tay_huang_os.Prelude.{
  ℕ, zero, suc, Option, none, some, List, [], ◌∷◌, ◌++◌, ◌==◌, ltb, if◌then◌else◌, ◌+◌, ◌/◌, ◌%◌,
}
use tay_huang_os.Prelude.Int.{ℤ, pos, negsuc}
use tay_huang_os.Kernel.State.{update}

-- `digits[d]`: the characters from '0' on, then those from 'a' on.
abbrev pub digit_char : ℕ → ℕ
digit_char d = if ltb d 10 then 48 + d else 87 + d

-- The loop that fills `_buffer`, the last digit first, with room for `room` more of them. The
-- `fuel` bounds its rounds; none is a write behind the end of `_buffer`.
unfoldable pub fill_buffer : ℕ → ℕ → ℕ → ℕ → Option (List ℕ)
fill_buffer fuel base zero val = if val == 0 then some [] else none
fill_buffer zero base (suc room) val = some []
fill_buffer (suc fuel) base (suc room) val =
    let rest = fill_buffer fuel base room (val / base) in
    if val == 0
    then some []
    else elim rest [ none ↦ none | some ds ↦ some (digit_char (val % base) ∷ ds) ]

-- The loop that copies the digits in reverse order.
abbrev pub reversed : List ℕ → List ℕ
reversed [] = []
reversed (d ∷ ds) = reversed ds ++ (d ∷ [])

unfoldable pub write_chars : ℕ → List ℕ → (ℕ → ℕ) → ℕ → ℕ
write_chars buffer [] mem = mem
write_chars buffer (ch ∷ chs) mem = write_chars (buffer + 1) chs (update mem buffer ch)

-- What the four functions do to memory, for a value above 0; `room` is the size of `_buffer`.
unfoldable pub write_number : ℕ → ℕ → ℕ → ℕ → (ℕ → ℕ) → Option (ℕ → ℕ)
write_number room val buffer base mem = elim (fill_buffer val base room val) [
  | none ↦ none
  | some ds ↦ some (write_chars buffer (reversed ds) mem)
]

-- A zero, with its terminator.
abbrev pub write_zero : ℕ → (ℕ → ℕ) → ℕ → ℕ
write_zero buffer mem = update (update mem buffer 48) (buffer + 1) 0

abbrev pub write_unsigned : ℕ → ℕ → ℕ → ℕ → (ℕ → ℕ) → Option (ℕ → ℕ)
write_unsigned room val buffer base mem =
    if val == 0 then some (write_zero buffer mem) else write_number room val buffer base mem

abbrev pub write_signed : ℕ → ℤ → ℕ → ℕ → (ℕ → ℕ) → Option (ℕ → ℕ)
write_signed room (pos n) buffer base mem = write_unsigned room n buffer base mem
write_signed room (negsuc n) buffer base mem =
    write_number room (suc n) (buffer + 1) base (update mem buffer 45)

unfoldable pub itoa : ℤ → ℕ → ℕ → (ℕ → ℕ) → Option (ℕ → ℕ)
itoa val buffer base mem = write_signed 12 val buffer base mem

unfoldable pub uitoa : ℕ → ℕ → ℕ → (ℕ → ℕ) → Option (ℕ → ℕ)
uitoa val buffer base mem = write_unsigned 12 val buffer base mem

unfoldable pub lltoa : ℤ → ℕ → ℕ → (ℕ → ℕ) → Option (ℕ → ℕ)
lltoa val buffer base mem = write_signed 23 val buffer base mem

unfoldable pub ulltoa : ℕ → ℕ → ℕ → (ℕ → ℕ) → Option (ℕ → ℕ)
ulltoa val buffer base mem = write_unsigned 23 val buffer base mem
