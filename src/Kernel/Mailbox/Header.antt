-- ===== src/Kernel/Mailbox/Header.antt =====
-- The header of a message (include/tayhuang/msgpack.h), and its bytes in a mailbox.
use tay_huang_os.Prelude.{ℕ, List, [], ◌∷◌, ◌+◌, ◌-◌, ◌*◌, ◌/◌, ◌%◌, ◌^◌}
use tay_huang_os.Prelude.Int.{ℤ, pos, negsuc}

-- `msgpack_struct`: eight bytes. `reserved` is whatever was on the sender's stack.
pub record Msgpack : Type 0 where
  pub reserved : ℕ
  pub message_no : ℕ
  pub msg_id : ℕ
  pub length : ℕ
  pub source : ℕ

abbrev pub msgpack_size : ℕ
msgpack_size = 8

-- The packed struct in memory; the 16-bit fields are little-endian.
unfoldable pub to_bytes : Msgpack → List ℕ
to_bytes pack =
    reserved
    ∷ message_no
    ∷ (msg_id % 256)
    ∷ (msg_id / 256)
    ∷ (length % 256)
    ∷ (length / 256)
    ∷ (source % 256)
    ∷ (source / 256)
    ∷ []
  where
    open pack use {reserved, message_no, msg_id, length, source}

-- What eight bytes in a `msgpack_struct` read as.
unfoldable pub of_bytes : List ℕ → Msgpack
of_bytes (r ∷ n ∷ i0 ∷ i1 ∷ l0 ∷ l1 ∷ s0 ∷ s1 ∷ rest) = record {
  reserved = r;
  message_no = n;
  msg_id = i0 + 256 * i1;
  length = l0 + 256 * l1;
  source = s0 + 256 * s1;
}
of_bytes _ = record { reserved = 0; message_no = 0; msg_id = 0; length = 0; source = 0 }

-- A value stored in the 16 bits of `source`.
abbrev pub word_of : ℤ → ℕ
word_of (pos n) = n % 2 ^ 16
word_of (negsuc n) = (2 ^ 16 - 1) - n % 2 ^ 16

-- The header that a sending function fills in; `length` keeps the low 16 bits of the size.
abbrev pub header : ℕ → ℕ → ℕ → ℕ → ℤ → Msgpack
header junk message_no msg_id size source = record {
  reserved = junk;
  message_no = message_no;
  msg_id = msg_id;
  length = size % 2 ^ 16;
  source = word_of source;
}

abbrev pub any_task : ℤ
any_task = negsuc 0

abbrev pub dummy_task : ℤ
dummy_task = negsuc 1
