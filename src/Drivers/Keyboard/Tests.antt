-- ===== src/Drivers/Keyboard/Tests.antt =====
-- Runs of the keyboard's state machine.
use tay_huang_os.Prelude.{true}
use tay_huang_os.Drivers.Keyboard.{Keys, normal}

-- Q under caps lock.
abbrev caps : Keys
caps = record normal { capslocking = true }
