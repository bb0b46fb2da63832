-- ===== src/Drivers/Keyboard.antt =====
-- The keyboard's scan codes (module/driver/keyboard/ioman/key_parser.c and main.c): a state machine
-- that turns the codes of the controller into keys.
pub mod Keymap
pub mod Sequences
mod Tests
use tay_huang_os.Prelude.{
  ℕ, suc, Bool, true, false, Option, none, some, not, ◌==◌, ◌||◌, ◌&&◌, leb, if◌then◌else◌, ◌+◌,
  ◌%◌,
}
use Keymap.{key_of}

-- `state`, bit by bit; `e1_stage` are the three bits of E1_STAGE_MASK, which stay below E1_STAGE_END.
pub record Keys : Type 0 where
  pub e0_xx : Bool
  pub e1_xx : Bool
  pub e1_stage : ℕ
  pub e1_failed : Bool
  pub numlocking : Bool
  pub capslocking : Bool
  pub lshift_pushed : Bool
  pub rshift_pushed : Bool

-- NORMAL, and E0_XX alone.
abbrev pub normal : Keys
normal = record {
  e0_xx = false;
  e1_xx = false;
  e1_stage = 0;
  e1_failed = false;
  numlocking = false;
  capslocking = false;
  lshift_pushed = false;
  rshift_pushed = false;
}

abbrev pub lshift : ℕ
lshift = 263

abbrev pub rshift : ℕ
rshift = 264

abbrev pub capslock : ℕ
capslock = 268

abbrev pub numlock : ℕ
numlock = 269

abbrev pub pad_home : ℕ
pad_home = 281

abbrev pub pad_dot : ℕ
pad_dot = 302

abbrev pub pausebreak : ℕ
pausebreak = 309

-- The choice of a column in `do_normal`: capitals under caps lock, digits under num lock.
abbrev pub locked_key : Keys → ℕ → ℕ
locked_key s code =
    let first = (key_of code).normal in
    let second =
      if leb 97 first && leb first 122 && s.capslocking then (key_of code).shift else first in
    if leb pad_home second && leb second pad_dot && s.numlocking
    then (key_of code).shift
    else second

-- `state = E0_XX` clears all other bits.
unfoldable pub do_normal : ℕ → Keys → ℕ × Keys
do_normal code s =
    let first = (key_of (code % 128)).normal in
    if code == 224
    then (0, record normal { e0_xx = true })
    else if code == 225
    then (0, record s { e1_xx = true })
    else if leb 128 code
    then (0, s)
    else if first == lshift
    then (0, record s { lshift_pushed = true })
    else if first == rshift
    then (0, record s { rshift_pushed = true })
    else (locked_key s (code % 128), s)

-- A break code leaves E0_XX set.
unfoldable pub do_e0 : ℕ → Keys → ℕ × Keys
do_e0 code s =
    if leb 128 code then (0, s) else ((key_of (code % 128)).e0, record s { e0_xx = false })

-- `pausebreak_codes`.
abbrev pub pausebreak_code : ℕ → ℕ
pausebreak_code stage =
    if stage == 0
    then 225
    else if stage == 1
    then 29
    else if stage == 2
    then 69
    else if stage == 3
    then 225
    else if stage == 4
    then 157
    else 197

unfoldable pub do_e1 : ℕ → Keys → ℕ × Keys
do_e1 code s =
    let stage = s.e1_stage + 1 in
    let failed = if code == pausebreak_code stage then s.e1_failed else true in
    if stage == 5
    then (
      if failed then 0 else pausebreak,
      record s { e1_stage = 0; e1_xx = false; e1_failed = false },
    )
    else (0, record s { e1_stage = stage; e1_failed = failed })

unfoldable pub do_shift : ℕ → Keys → ℕ × Keys
do_shift code s =
    let released = (key_of (code % 128)).normal in
    let pushed = (key_of (code % 128)).shift in
    if code == 224
    then (0, record s { e0_xx = true })
    else if code == 225
    then (0, record s { e1_xx = true })
    else if leb 128 code
    then if released == lshift
      then (0, record s { lshift_pushed = false })
      else if released == rshift
      then (0, record s { rshift_pushed = false })
      else (0, s)
    else if pushed == lshift
    then (0, record s { lshift_pushed = true })
    else if pushed == rshift
    then (0, record s { rshift_pushed = true })
    else (pushed, s)

unfoldable pub parse : ℕ → Keys → ℕ × Keys
parse code s =
    if s.e1_xx
    then do_e1 code s
    else if s.e0_xx
    then do_e0 code s
    else if s.lshift_pushed || s.rshift_pushed
    then do_shift code s
    else do_normal code s

-- What `irq_handler` does with a key: the locks change the state, another key is written to the fifo.
unfoldable pub lock_or_emit : ℕ × Keys → Option ℕ × Keys
lock_or_emit (key, s) =
    if key == capslock
    then (none, record s { capslocking = not s.capslocking })
    else if key == numlock
    then (none, record s { numlocking = not s.numlocking })
    else if key == 0
    then (none, s)
    else (some key, s)

-- `irq_handler` for a code of the keyboard; `ready` says that the fifo is there.
unfoldable pub irq_handler : Bool → ℕ → Keys → Option ℕ × Keys
irq_handler ready code s = if ready then lock_or_emit (parse code s) else (none, s)
