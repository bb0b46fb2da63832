-- ===== src/Libs/Fifo/Invariant.antt =====
-- What holds between two steps of the threads that use a fifo of libs/libfifo/fifo.c.
pub mod Defs
use tay_huang_os.Prelude.{
  ℕ, List, [], ◌∷◌, ◌++◌, ◌+◌, ◌≤◌, ◌<◌, ◌≡◌, ◌≢◌, inl, inr, refl, sym, ap, ◌∙◌, subst, arith,
  length, length-append, length-drop, ℕ-cases, drop,
}
use mathlib.Core.List.{append_assoc}
use tay_huang_os.Kernel.State.{update}
use tay_huang_os.Kernel.Mailbox.Ring.{
  next_ptr, ahead, next_in, ahead_zero, ahead_next, Holds, Apart, Holds-update, Holds-append,
}
use tay_huang_os.Kernel.Ready.Chain.{update_self, update_ne}
use tay_huang_os.Libs.Fifo.{
  Fifo, advance, Shared, Pc, idle, write_enter, write_store, write_step, write_leave, write_done,
  read_enter, read_load, read_step, read_leave, read_done, Move,
}
use tay_huang_os.Libs.Fifo.Family.{weigh, weigh-update, weigh-one, weigh-two}
use tay_huang_os.Libs.Fifo.Invariant.Defs.{
  critical, holds_slot, holds_item, IsFresh, Stored, IsFifo, pending_after, advance-next_ptr,
  IsFresh-outside, IsFresh-same, Holds-extend, Holds-store, Holds-head,
}

module _ {n room : ℕ} {s : Shared} {pc : ℕ → Pc} {q : List ℕ} (inv : IsFifo n room s pc q)
    (i : ℕ) where
  open inv use {fits, locked, slots, items, read_in, write_at, stored, fresh, history}

  -- Thread `i` goes from `p` to `p'`.
  pub record Mover (p p' : Pc) : Type 0 where
    pub here : pc i ≡ p
    pub own : IsFresh s.fifo p
    pub criticals :
        critical p + weigh critical n (update pc i p') ≡ critical p' + weigh critical n pc
    pub slotted :
        holds_slot p + weigh holds_slot n (update pc i p') ≡ holds_slot p' + weigh holds_slot n pc
    pub itemed :
        holds_item p + weigh holds_item n (update pc i p') ≡ holds_item p' + weigh holds_item n pc
    pub locks : critical p ≤ weigh critical n pc
    pub has_slot : holds_slot p ≤ weigh holds_slot n pc
    pub has_item : holds_item p ≤ weigh holds_item n pc

  pub mover : i < n → (p' : Pc) → Mover (pc i) p'
  mover h p' = record {
    here = refl;
    own = fresh i h;
    criticals = weigh-update critical n pc i p' h;
    slotted = weigh-update holds_slot n pc i p' h;
    itemed = weigh-update holds_item n pc i p' h;
    locks = weigh-one critical n pc i h;
    has_slot = weigh-one holds_slot n pc i h;
    has_item = weigh-one holds_item n pc i h;
  }

  Move-locked :
      {p p' : Pc} {s' : Shared}
      → Move s p s' p'
      → Mover p p'
      → s'.fifo.mutex + weigh critical n (update pc i p') ≡ 1
  Move-locked (Move.write_down_mutex h) m = omega (arith, m.criticals, h)
  Move-locked (Move.read_down_mutex h) m = omega (arith, m.criticals, h)
  Move-locked mv m = ground (arith, m.criticals)

  Move-slots :
      {p p' : Pc} {s' : Shared}
      → Move s p s' p'
      → Mover p p'
      → s'.fifo.empty + weigh holds_slot n (update pc i p') + length (pending_after p q) ≡ room
  Move-slots (Move.down_empty h) m = omega (arith, m.slotted, h)
  Move-slots (Move.write_advance {b}) m = omega (arith, m.slotted, length-append q (b ∷ []))
  Move-slots Move.read_advance m = omega (arith, m.slotted, m.has_item, length-drop 1 q)
  Move-slots mv m = ground (arith, m.slotted)

  Move-items :
      {p p' : Pc} {s' : Shared}
      → Move s p s' p'
      → Mover p p'
      → s'.fifo.full + weigh holds_item n (update pc i p') ≡ length (pending_after p q)
  Move-items (Move.down_full h) m = omega (arith, m.itemed, h)
  Move-items (Move.write_advance {b}) m = omega (arith, m.itemed, length-append q (b ∷ []))
  Move-items Move.read_advance m = omega (arith, m.itemed, m.has_item, length-drop 1 q)
  Move-items mv m = ground (arith, m.itemed)

  -- The offsets.
  Move-read_in :
      {p p' : Pc} {s' : Shared} → Move s p s' p' → s'.fifo.read_offset < s'.fifo.fifo_size
  Move-read_in Move.read_advance = ground arith
  Move-read_in mv = ground arith

  Move-write_at :
      {p p' : Pc} {s' : Shared}
      → Move s p s' p'
      → Mover p p'
      → s'.fifo.write_offset
        ≡ ahead 0 s'.fifo.fifo_size s'.fifo.read_offset (length (pending_after p q))
  Move-write_at (Move.write_advance {b}) m = ground (arith, m.has_slot, length-append q (b ∷ []))
  Move-write_at Move.read_advance m = ground (arith, m.has_item, length-drop 1 q)
  Move-write_at mv m = ground arith

  Move-Stored :
      {p p' : Pc} {s' : Shared} → Move s p s' p' → Mover p p' → Stored s'.fifo (pending_after p q)
  Move-Stored (Move.store {b}) m = rw write_at (
      Holds-store s.fifo.fifo_size s.fifo.buffer s.fifo.read_offset q b read_in
        (omega (arith, m.has_slot)) stored)
  Move-Stored (Move.write_advance {b}) m =
      Holds-extend s.fifo.fifo_size s.fifo.buffer s.fifo.read_offset q b read_in
        (omega (arith, m.has_slot)) stored (ap s.fifo.buffer (sym write_at) ∙ m.own)
  Move-Stored Move.read_advance m =
      (Holds-head s.fifo.fifo_size s.fifo.buffer s.fifo.read_offset q (omega (arith, m.has_item))
        read_in stored).1
  Move-Stored (Move.call_write bytes) m = stored
  Move-Stored mv m = stored

  Move-history :
      {p p' : Pc} {s' : Shared}
      → Move s p s' p'
      → Mover p p'
      → s'.written ≡ s'.taken ++ pending_after p q
  Move-history (Move.write_advance {b}) m =
      ap (λ l. l ++ (b ∷ [])) history ∙ append_assoc s.taken q (b ∷ [])
  Move-history (Move.read_advance {b}) m =
      let head =
        (Holds-head s.fifo.fifo_size s.fifo.buffer s.fifo.read_offset q (omega (arith, m.has_item))
          read_in stored).0 in
      history
      ∙ ap (λ l. s.taken ++ l) (head ∙ ap (λ x. x ∷ drop 1 q) m.own)
      ∙ sym (append_assoc s.taken (b ∷ []) (drop 1 q))
  Move-history (Move.call_write bytes) m = history
  Move-history mv m = history

  -- While a thread is in the critical section, no other is.
  pub alone : i < n → critical (pc i) ≡ 1 → (j : ℕ) → j < n → j ≢ i → critical (pc j) ≡ 0
  alone h c j k ne = omega (arith, weigh-two critical n pc i j h k (λ e. ne (sym e)))

  -- What the mover knows afterwards.
  Move-own : {p p' : Pc} {s' : Shared} → Move s p s' p' → IsFresh s'.fifo p'
  Move-own (Move.store {b}) = update_self s.fifo.buffer s.fifo.write_offset b
  Move-own Move.load = refl
  Move-own (Move.call_write bytes) = tt
  Move-own mv = tt

  -- What another thread knows: a move outside the critical section writes nothing of it.
  Move-others :
      {p p' : Pc} {s' : Shared}
      → Move s p s' p'
      → (r : Pc) → (critical p ≡ 1 → critical r ≡ 0)
      → IsFresh s.fifo r
      → IsFresh s'.fifo r
  Move-others {s'} (Move.store {b} {bs}) r one f = IsFresh-outside s'.fifo r (one refl)
  Move-others {s'} Move.write_advance r one f = IsFresh-outside s'.fifo r (one refl)
  Move-others {s'} Move.read_advance r one f = IsFresh-outside s'.fifo r (one refl)
  Move-others (Move.call_write bytes) r one f = f
  Move-others {s'} mv r one f = IsFresh-same s.fifo s'.fifo r refl refl refl f

  Move-IsFresh :
      {p p' : Pc} {s' : Shared}
      → Move s p s' p'
      → Mover p p'
      → i < n
      → (j : ℕ) → j < n
      → IsFresh s'.fifo (update pc i p' j)
  Move-IsFresh {p} {p'} {s'} mv m h j k = elim (ℕ-cases j i) [
    | inl e ↦
        subst (IsFresh s'.fifo) (sym (ap (update pc i p') e ∙ update_self pc i p')) (Move-own mv)
    | inr ne ↦
        subst (IsFresh s'.fifo) (sym (update_ne pc i p' j (λ e. ne (sym e))))
          (Move-others mv (pc j) (λ c. alone h (ap critical m.here ∙ c) j k ne) (fresh j k))
  ]

  Move-size :
      {p p' : Pc} {s' : Shared}
      → Move s p s' p'
      → (room ≤ s'.fifo.fifo_size) × (s'.fifo.used_size ≡ 0)
  Move-size (Move.call_write bytes) = (fits, inv.unused_counter)
  Move-size mv = (fits, inv.unused_counter)

  Mover-IsFifo :
      {p p' : Pc} {s' : Shared}
      → Move s p s' p'
      → Mover p p'
      → i < n
      → IsFifo n room s' (update pc i p') (pending_after p q)
  Mover-IsFifo mv m h = record {
    fits = (Move-size mv).0;
    unused_counter = (Move-size mv).1;
    locked = Move-locked mv m;
    slots = Move-slots mv m;
    items = Move-items mv m;
    read_in = Move-read_in mv;
    write_at = Move-write_at mv m;
    stored = Move-Stored mv m;
    fresh = Move-IsFresh mv m h;
    history = Move-history mv m;
  }

  pub Move-IsFifo :
      {p' : Pc} {s' : Shared}
      → Move s (pc i) s' p'
      → i < n
      → IsFifo n room s' (update pc i p') (pending_after (pc i) q)
  Move-IsFifo {p'} mv h = Mover-IsFifo mv (mover h p') h
