-- ===== src/Drivers/Console.antt =====
-- The text console of the tty driver (module/driver/vdd/tty/console.c): the cursor and the cells of
-- the framebuffer, two bytes each. `pos_x` and `pos_y` are never negative between two characters, so
-- they are natural numbers, and a decrement below 0 is a test for 0.
pub mod Cursor
mod Tests
use tay_huang_os.Prelude.{
  ℕ, zero, suc, Bool, true, false, Option, none, some, List, [], ◌∷◌, ◌==◌, ◌||◌, not, ltb,
  if◌then◌else◌, ◌+◌, ◌-◌, ◌*◌, take,
}
use tay_huang_os.Kernel.State.{update}

-- CONSOLE_NUM, CONSOLE_COLUMNS and CONSOLE_LINES.
abbrev pub console_num : ℕ
console_num = 4

abbrev pub console_columns : ℕ
console_columns = 80

abbrev pub console_lines : ℕ
console_lines = 25

-- `console_t`.
pub record Console : Type 0 where
  pub framebuffer : ℕ
  pub framebuffer_id : ℕ
  pub pos_x : ℕ
  pub pos_y : ℕ
  pub color : ℕ

-- `consoles`, `current_active_console`, the memory with the framebuffers, and the framebuffers that
-- were shown by `swap_framebuffer`, the last one first.
pub record Tty : Type 0 where
  pub consoles : ℕ → Console
  pub current_active_console : ℕ
  pub memory : ℕ → ℕ
  pub shown : List ℕ

-- The number of the cell under the cursor.
abbrev pub position : Console → ℕ
position c = c.pos_y * console_columns + c.pos_x

unfoldable pub putrawchar : ℕ → Console × (ℕ → ℕ) → Console × (ℕ → ℕ)
putrawchar ch (c, mem) =
    let pos = position c in
    let mem1 = update mem (c.framebuffer + pos * 2) ch in
    let mem2 = update mem1 (c.framebuffer + pos * 2 + 1) c.color in
    (
      if c.pos_x + 1 == console_columns
          then record c { pos_x = 0; pos_y = c.pos_y + 1 }
          else record c { pos_x = c.pos_x + 1 },
      mem2,
    )

-- The first decrement of a backspace, with both of its tests.
unfoldable pub back : Console → Console
back c =
    if c.pos_x == 0
    then if c.pos_y == 0
      then record c { pos_x = 0; pos_y = 0 }
      else record c { pos_x = console_columns - 1; pos_y = c.pos_y - 1 }
    else record c { pos_x = c.pos_x - 1 }

-- The second one; a column 0 after `putrawchar` is never in row 0.
unfoldable pub back_again : Console → Console
back_again c =
    if c.pos_x == 0
    then record c { pos_x = console_columns - 1; pos_y = c.pos_y - 1 }
    else record c { pos_x = c.pos_x - 1 }

unfoldable pub backspace : Console × (ℕ → ℕ) → Console × (ℕ → ℕ)
backspace (c, mem) = let (c', mem') = putrawchar 32 (back c, mem) in (back_again c', mem')

-- `__putchar`, with '\r', '\n', '\t', '\v', '\b' and '\f' by their codes.
unfoldable pub putchar : ℕ → Console × (ℕ → ℕ) → Console × (ℕ → ℕ)
putchar ch (c, mem) =
    if ch == 13 || ch == 10
    then (record c { pos_x = 0; pos_y = c.pos_y + 1 }, mem)
    else if ch == 9
    then (record c { pos_x = c.pos_x + 4 }, mem)
    else if ch == 11
    then (record c { pos_y = c.pos_y + 1 }, mem)
    else if ch == 8
    then backspace (c, mem)
    else if ch == 12
    then (record c { pos_x = 0; pos_y = 0 }, mem)
    else putrawchar ch (c, mem)

-- The loop of `wrapper_puts`.
unfoldable pub puts : List ℕ → Console × (ℕ → ℕ) → Console × (ℕ → ℕ)
puts [] s = s
puts (ch ∷ chs) s = puts chs (putchar ch s)

-- `__flush_console`.
unfoldable pub flush_console : ℕ → Tty → Tty
flush_console console_no t =
    if console_no == t.current_active_console
    then record t { shown = (t.consoles console_no).framebuffer_id ∷ t.shown }
    else t

abbrev pub put_console : ℕ → Console × (ℕ → ℕ) → Tty → Tty
put_console console_no (c, mem) t = record t {
  consoles = update t.consoles console_no c;
  memory = mem;
}

-- `wrapper_putchar`; `none` is an index past the array `consoles`.
unfoldable pub wrapper_putchar : ℕ → ℕ → Tty → Option Tty
wrapper_putchar console_no ch t =
    if ltb console_no console_num
    then some (
        flush_console console_no
          (put_console console_no (putchar ch (t.consoles console_no, t.memory)) t))
    else none

-- `wrapper_puts`: `size` is the size of the arguments, which are the console, the number `num` of
-- characters, and the bytes `chars`. A negative number is refused like a positive one that does not
-- match. The first part of the result is the answer to the caller.
unfoldable pub wrapper_puts : ℕ → ℕ → ℕ → List ℕ → Tty → Option (Bool × Tty)
wrapper_puts size console_no num chars t =
    if ltb size 8
    then some (false, t)
    else if not (size == 8 + num)
    then some (false, t)
    else if ltb console_no console_num
    then some (
      true,
      flush_console console_no
          (put_console console_no (puts (take num chars) (t.consoles console_no, t.memory)) t),
    )
    else none
