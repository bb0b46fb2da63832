-- ===== src/Libs/Fifo/Queue.antt =====
-- The fifo of libs/libfifo/fifo.c as a queue that threads share, when its buffer has the room that was
-- asked for.
use tay_huang_os.Prelude.{
  ℕ, List, [], ◌++◌, ◌+◌, ◌*◌, ◌≤◌, ◌<◌, ◌≡◌, ◌≢◌, inl, inr, refl, arith, length, ℕ-cases,
}
use tay_huang_os.Libs.Fifo.{
  page_size, header_size, pages_for, create_fifo, fifo_get_size, fifo_get_used_size,
  fifo_get_free_size, Shared, Pc, idle, writing, write_enter, write_store, write_step, write_leave,
  write_done, reading, read_enter, read_load, read_step, read_leave, read_done, Move, System, pick,
  created, Reach, start, later,
}
use tay_huang_os.Libs.Fifo.Family.{weigh-zero, weigh-find}
use tay_huang_os.Libs.Fifo.Invariant.{alone, Move-IsFifo}
use tay_huang_os.Libs.Fifo.Invariant.Defs.{
  critical, holds_slot, holds_item, Stored, IsFifo, pending_after,
}

-- The buffer of a fifo that is asked for with `fifo_size` places has them.
abbrev pub HasRoom : ℕ → Type 0
HasRoom fifo_size = (0 < fifo_size) × (fifo_size + header_size ≤ pages_for fifo_size * page_size)

created-IsFifo :
    (n fifo_size : ℕ) (memory : ℕ → ℕ)
    → HasRoom fifo_size
    → IsFifo n fifo_size (created fifo_size memory).shared (λ _. idle) []
unfolding create_fifo
created-IsFifo n fifo_size memory h = record {
  fits = omega arith;
  unused_counter = refl;
  locked = omega (arith, weigh-zero critical n (λ _. idle) (λ _ _. refl));
  slots = omega (arith, weigh-zero holds_slot n (λ _. idle) (λ _ _. refl));
  items = omega (arith, weigh-zero holds_item n (λ _. idle) (λ _ _. refl));
  read_in = omega arith;
  write_at = ground arith;
  stored = tt;
  fresh = λ i k. tt;
  history = refl;
}

-- Inside the transfer of a byte.
abbrev pub busy : Pc → ℕ
busy idle = 0
busy (writing _) = 0
busy (reading _ _) = 0
busy _ = 1

-- The thread at that place has a step.
abbrev pub CanMove : Shared → Pc → Type 0
CanMove s p = (s' : Shared) × (p' : Pc) × Move s p s' p'

critical-CanMove : (s : Shared) (p : Pc) → critical p ≢ 0 → CanMove s p
critical-CanMove s (write_store b bs) h = (_, _, Move.store)
critical-CanMove s (write_step b bs) h = (_, _, Move.write_advance)
critical-CanMove s (write_leave bs) h = (_, _, Move.write_up_mutex)
critical-CanMove s (read_load m got) h = (_, _, Move.load)
critical-CanMove s (read_step b m got) h = (_, _, Move.read_advance)
critical-CanMove s (read_leave m got) h = (_, _, Move.read_up_mutex)
critical-CanMove s idle h = absurd (h refl)
critical-CanMove s p h = absurd (h refl)

busy-CanMove : (s : Shared) (p : Pc) → busy p ≡ 1 → 0 < s.fifo.mutex → CanMove s p
busy-CanMove s (write_enter b bs) h u = (_, _, Move.write_down_mutex u)
busy-CanMove s (read_enter m got) h u = (_, _, Move.read_down_mutex u)
busy-CanMove s (write_done bs) h u = (_, _, Move.up_full)
busy-CanMove s (read_done m got) h u = (_, _, Move.up_empty)
busy-CanMove s idle h u = absurd (omega arith)
busy-CanMove s (writing bs) h u = absurd (omega arith)
busy-CanMove s (reading m got) h u = absurd (omega arith)
busy-CanMove s (write_store b bs) h u = critical-CanMove s (write_store b bs) (omega arith)
busy-CanMove s p h u = critical-CanMove s p (omega arith)

idle-weights : (p : Pc) → busy p ≡ 0 → (critical p ≡ 0) × (holds_slot p ≡ 0) × (holds_item p ≡ 0)
idle-weights idle h = (refl, refl, refl)
idle-weights (writing bs) h = (refl, refl, refl)
idle-weights (reading m got) h = (refl, refl, refl)
idle-weights (write_enter b bs) h = absurd (omega arith)
idle-weights p h = absurd (omega arith)

critical-one : (p : Pc) → critical p ≤ 1
critical-one idle = omega arith
critical-one (writing bs) = omega arith
critical-one (reading m got) = omega arith
critical-one (write_enter b bs) = omega arith
critical-one (write_done bs) = omega arith
critical-one (read_enter m got) = omega arith
critical-one (read_done m got) = omega arith
critical-one p = omega arith

module _ {n fifo_size : ℕ} {memory : ℕ → ℕ} (room : HasRoom fifo_size) where
  Reach-IsFifo :
      {s : System}
      → Reach n fifo_size memory s
      → (pending : List ℕ) × IsFifo n fifo_size s.shared s.pc pending
  Reach-IsFifo start = ([], created-IsFifo n fifo_size memory room)
  Reach-IsFifo (later {s} r (pick i h mv)) =
      let (pending, inv) = Reach-IsFifo r in
      (pending_after (s.pc i) pending, Move-IsFifo inv i mv h)

  -- For a fifo of at least one place whose pages have room for it and the 48 bytes before it: whatever
  -- the threads do, the bytes that were taken are a first part of those that were stored, in their
  -- order; the others are in the buffer from the read offset on, and are no more than the places that
  -- were asked for.
  pub Reach-queue :
      {s : System}
      → Reach n fifo_size memory s
      → (pending : List ℕ) × (s.shared.written ≡ s.shared.taken ++ pending)
        × (length pending ≤ fifo_size)
        × Stored s.shared.fifo pending
  Reach-queue r =
      let (pending, inv) = Reach-IsFifo r in
      (pending, inv.history, omega (arith, inv.slots), inv.stored)

  -- For a fifo of at least one place whose pages have room for it and the 48 bytes before it: in every
  -- state that is reached, while one thread is between its two operations on the mutex, no other is.
  pub Reach-exclusive :
      {s : System}
      → Reach n fifo_size memory s
      → (i j : ℕ) → i < n
      → j < n
      → j ≢ i
      → critical (s.pc i) ≢ 0
      → critical (s.pc j) ≡ 0
  Reach-exclusive {s} r i j hi hj ne ci =
      let (pending, inv) = Reach-IsFifo r in
      alone inv i hi (omega (arith, critical-one (s.pc i))) j hj ne

  -- The counter of the used bytes stays 0: `fifo_get_used_size` always gives 0, `fifo_get_free_size` the
  -- size of the whole buffer.
  Reach-sizes :
      {s : System}
      → Reach n fifo_size memory s
      → (fifo_get_used_size s.shared.fifo ≡ 0)
        × (fifo_get_free_size s.shared.fifo ≡ fifo_get_size s.shared.fifo)
  unfolding fifo_get_used_size fifo_get_free_size fifo_get_size
  Reach-sizes r =
      let (pending, inv) = Reach-IsFifo r in (inv.unused_counter, omega (arith, inv.unused_counter))

  -- No deadlock: as long as a thread is inside the transfer of a byte, some thread has a step.
  Reach-moves :
      {s : System}
      → Reach n fifo_size memory s
      → (i : ℕ) → i < n
      → busy (s.pc i) ≡ 1
      → (j : ℕ) × (j < n) × CanMove s.shared (s.pc j)
  Reach-moves {s} r i h b =
      let (pending, inv) = Reach-IsFifo r in
      elim (ℕ-cases s.shared.fifo.mutex 0) [
        | inl shut ↦
            let (j, k, c) = weigh-find critical n s.pc (omega (arith, inv.locked)) in
            (j, k, critical-CanMove s.shared (s.pc j) c)
        | inr free ↦ (i, h, busy-CanMove s.shared (s.pc i) b (omega arith))
      ]

  -- When no thread is inside the transfer of a byte, the semaphores count exactly: `full` the bytes
  -- that were stored and not taken, `empty` the other places. So a reader that has to wait finds all
  -- bytes taken, and a writer that has to wait as many bytes pending as places were asked for.
  Reach-quiet :
      {s : System}
      → Reach n fifo_size memory s
      → ((i : ℕ) → i < n → busy (s.pc i) ≡ 0)
      → (pending : List ℕ) × (s.shared.written ≡ s.shared.taken ++ pending)
        × (s.shared.fifo.mutex ≡ 1)
        × (s.shared.fifo.full ≡ length pending)
        × (s.shared.fifo.empty + length pending ≡ fifo_size)
  Reach-quiet {s} r quiet =
      let (pending, inv) = Reach-IsFifo r in
      (
        pending,
        inv.history,
        omega (
          arith,
          inv.locked,
          weigh-zero critical n s.pc (λ i h. (idle-weights (s.pc i) (quiet i h)).0),
        ),
        omega (
          arith,
          inv.items,
          weigh-zero holds_item n s.pc (λ i h. (idle-weights (s.pc i) (quiet i h)).2),
        ),
        omega (
          arith,
          inv.slots,
          weigh-zero holds_slot n s.pc (λ i h. (idle-weights (s.pc i) (quiet i h)).1),
        ),
      )
