-- ===== src/Libs/Fifo/Invariant/Defs.antt =====
-- What is so between any two accesses of the threads (libs/libfifo/fifo.c).
use tay_huang_os.Prelude.{
  ℕ, List, [], ◌∷◌, ◌++◌, ◌+◌, ◌≤◌, ◌<◌, ◌≡◌, sym, ap, ◌∙◌, arith, length, drop,
}
use tay_huang_os.Kernel.State.{update}
use tay_huang_os.Kernel.Mailbox.Ring.{
  next_ptr, ahead, next_in, ahead_zero, ahead_next, Holds, Apart, Holds-update, Holds-append,
}
use tay_huang_os.Libs.Fifo.{
  Fifo, advance, Shared, Pc, idle, write_enter, write_store, write_step, write_leave, write_done,
  read_enter, read_load, read_step, read_leave, read_done,
}
use tay_huang_os.Libs.Fifo.Family.{weigh}

-- Between the two operations on the mutex.
abbrev pub critical : Pc → ℕ
critical (write_store _ _) = 1
critical (write_step _ _) = 1
critical (write_leave _) = 1
critical (read_load _ _) = 1
critical (read_step _ _ _) = 1
critical (read_leave _ _) = 1
critical _ = 0

-- Holds a place of the buffer that is not counted as empty: for a byte to come, or of a byte that went.
abbrev pub holds_slot : Pc → ℕ
holds_slot (write_enter _ _) = 1
holds_slot (write_store _ _) = 1
holds_slot (write_step _ _) = 1
holds_slot (read_leave _ _) = 1
holds_slot (read_done _ _) = 1
holds_slot _ = 0

-- Has a claim on a byte of the queue that is not counted as full.
abbrev pub holds_item : Pc → ℕ
holds_item (write_leave _) = 1
holds_item (write_done _) = 1
holds_item (read_enter _ _) = 1
holds_item (read_load _ _) = 1
holds_item (read_step _ _ _) = 1
holds_item _ = 0

-- What a thread in the critical section knows of the buffer.
abbrev pub IsFresh : Fifo → Pc → Type 0
IsFresh f (write_step b _) = f.buffer f.write_offset ≡ b
IsFresh f (read_step b _ _) = f.buffer f.read_offset ≡ b
IsFresh f _ = Unit

abbrev pub Stored : Fifo → List ℕ → Type 0
Stored f q = Holds (λ p. p) 0 f.fifo_size f.buffer f.read_offset q

-- The invariant for `n` threads, and a fifo that was asked for with `room` places; `pending` are the
-- bytes that were stored and not yet taken.
pub record IsFifo (n room : ℕ) (s : Shared) (pc : ℕ → Pc) (pending : List ℕ) : Type 0 where
  pub fits : room ≤ s.fifo.fifo_size
  pub unused_counter : s.fifo.used_size ≡ 0
  pub locked : s.fifo.mutex + weigh critical n pc ≡ 1
  pub slots : s.fifo.empty + weigh holds_slot n pc + length pending ≡ room
  pub items : s.fifo.full + weigh holds_item n pc ≡ length pending
  pub read_in : s.fifo.read_offset < s.fifo.fifo_size
  pub write_at : s.fifo.write_offset ≡ ahead 0 s.fifo.fifo_size s.fifo.read_offset (length pending)
  pub stored : Stored s.fifo pending
  pub fresh : (i : ℕ) → i < n → IsFresh s.fifo (pc i)
  pub history : s.written ≡ s.taken ++ pending

-- The pending bytes after a move of a thread that stood at a place.
abbrev pub pending_after : Pc → List ℕ → List ℕ
pending_after (write_step b _) q = q ++ (b ∷ [])
pending_after (read_step _ _ _) q = drop 1 q
pending_after _ q = q

pub advance-next_ptr : (size p : ℕ) → p < size → advance size p ≡ next_ptr 0 size p
advance-next_ptr size p h = ground arith

pub IsFresh-outside : (f : Fifo) (p : Pc) → critical p ≡ 0 → IsFresh f p
IsFresh-outside f (write_step b bs) e = absurd (omega arith)
IsFresh-outside f (read_step b m got) e = absurd (omega arith)
IsFresh-outside f (write_store b bs) e = tt
IsFresh-outside f p e = tt

pub IsFresh-same :
    (f g : Fifo) (p : Pc)
    → f.buffer ≡ g.buffer
    → f.write_offset ≡ g.write_offset
    → f.read_offset ≡ g.read_offset
    → IsFresh f p
    → IsFresh g p
IsFresh-same f g (write_step b bs) e w r h = rw (← e, ← w) h
IsFresh-same f g (read_step b m got) e w r h = rw (← e, ← r) h
IsFresh-same f g idle e w r h = tt
IsFresh-same f g p e w r h = tt

-- A byte that lies behind those that the ring holds.
pub Holds-extend :
    (size : ℕ) (mem : ℕ → ℕ) (p : ℕ) (bs : List ℕ) (b : ℕ)
    → p < size
    → length bs < size
    → Holds (λ a. a) 0 size mem p bs
    → mem (ahead 0 size p (length bs)) ≡ b
    → Holds (λ a. a) 0 size mem p (bs ++ (b ∷ []))
Holds-extend size mem p [] b h k m e = (ap mem (sym (ahead_zero 0 size p (omega arith))) ∙ e, tt)
Holds-extend size mem p (c ∷ bs) b h k (m, ms) e =
    let on = next_in 0 size p (omega arith) (omega arith) in
    (
      m,
      Holds-extend size mem (next_ptr 0 size p) bs b (omega (arith, on)) (omega arith) ms
          (ap mem (ahead_next 0 size p (length bs) (omega arith) (omega arith) (omega arith)) ∙ e),
    )

-- A write just past the bytes does not disturb them.
pub Holds-store :
    (size : ℕ) (mem : ℕ → ℕ) (p : ℕ) (bs : List ℕ) (b : ℕ)
    → p < size
    → length bs < size
    → Holds (λ a. a) 0 size mem p bs
    → Holds (λ a. a) 0 size (update mem (ahead 0 size p (length bs)) b) p bs
Holds-store size mem p bs b h k m =
    let apart : Apart (λ a. a) 0 size = λ x y hx kx hy ky e. e in
    (Holds-append (λ a. a) 0 size (update mem (ahead 0 size p (length bs)) b) p bs (b ∷ [])
      (omega arith) (omega arith) (omega arith)
      (Holds-update (λ a. a) 0 size mem b p bs apart (omega arith) (omega arith) k m)).0

-- The first of the bytes, and the others.
pub Holds-head :
    (size : ℕ) (mem : ℕ → ℕ) (p : ℕ) (bs : List ℕ)
    → 0 < length bs
    → p < size
    → Holds (λ a. a) 0 size mem p bs
    → (bs ≡ mem p ∷ drop 1 bs) × Holds (λ a. a) 0 size mem (advance size p) (drop 1 bs)
Holds-head size mem p [] h k m = absurd (omega arith)
Holds-head size mem p (b ∷ bs) h k (e, m) =
    (ap (λ x. x ∷ bs) (sym e), rw (advance-next_ptr size p k) m)
