-- ===== src/Libs/Fifo/Overrun.antt =====
-- The fifo of libs/libfifo/fifo.c when it was asked for with more places than its buffer has.
use mathlib.Core.List.{append_assoc, append-nil}
use tay_huang_os.Prelude.{
  ℕ, List, [], ◌∷◌, ◌++◌, ◌+◌, ◌*◌, ◌≤◌, ◌<◌, ◌≡◌, refl, sym, ◌∙◌, subst, arith, length,
}
use tay_huang_os.Kernel.State.{update}
use tay_huang_os.Libs.Fifo.{
  page_size, header_size, pages_for, create_fifo, fifo_get_size, Shared, Pc, writing, Move, System,
  pick, created, Reach, start, later,
}

module _ (n fifo_size : ℕ) (memory : ℕ → ℕ) (some_thread : 0 < n) where
  -- Thread 0, which stands at `p`, makes a move.
  moved :
      {s : System} {p p' : Pc} {s' : Shared}
      → Reach n fifo_size memory s
      → s.pc 0 ≡ p
      → Move s.shared p s' p'
      → Reach n fifo_size memory (record { shared = s'; pc = update s.pc 0 p' })
  moved {s} {p} {p'} {s'} r e mv =
      later r (pick 0 some_thread (subst (λ q. Move s.shared q s' p') (sym e) mv))

  -- Thread 0 has still to write `bytes`, and nothing was taken.
  record Writes (s : System) (bytes : List ℕ) : Type 0 where
    reach : Reach n fifo_size memory s
    place : s.pc 0 ≡ writing bytes
    locked : s.shared.fifo.mutex ≡ 1
    slots : length bytes ≤ s.shared.fifo.empty
    untaken : s.shared.taken ≡ []
    size : s.shared.fifo.fifo_size ≡ (create_fifo fifo_size memory).fifo_size

  write_byte :
      {s : System} (b : ℕ) (bytes : List ℕ)
      → Writes s (b ∷ bytes)
      → (t : System) × Writes t bytes × (t.shared.written ≡ s.shared.written ++ (b ∷ []))
  write_byte {s} b bytes w =
      let r1 = moved w.reach w.place (Move.down_empty (omega (arith, w.slots))) in
      let r2 = moved r1 refl (Move.write_down_mutex (omega (arith, w.locked))) in
      let r3 = moved r2 refl Move.store in
      let r4 = moved r3 refl Move.write_advance in
      let r5 = moved r4 refl Move.write_up_mutex in
      let r6 = moved r5 refl Move.up_full in
      (
        _,
        record {
          reach = r6;
          place = refl;
          locked = omega (arith, w.locked);
          slots = omega (arith, w.slots);
          untaken = w.untaken;
          size = w.size;
        },
        refl,
      )

  write_all :
      (bytes : List ℕ) (s : System)
      → Writes s bytes
      → (t : System) × Writes t [] × (t.shared.written ≡ s.shared.written ++ bytes)
  write_all [] s w = (s, w, sym (append-nil s.shared.written))
  write_all (b ∷ bytes) s w =
      let (t, wt, e) = write_byte b bytes w in
      let (u, wu, e') = write_all bytes t wt in
      (u, wu, e' ∙ rw e (append_assoc s.shared.written (b ∷ []) bytes))

  -- A fifo that is asked for with more places than its buffer has takes as many bytes as it was asked
  -- for, whatever they are, before the first of them is read: more than the buffer holds.
  pub fifo_write_bytes_overrun :
      (bytes : List ℕ)
      → 0 < fifo_size
      → length bytes ≡ fifo_size
      → pages_for fifo_size * page_size < fifo_size + header_size
      → (s : System) × Reach n fifo_size memory s
        × (s.shared.written ≡ bytes)
        × (s.shared.taken ≡ [])
        × (fifo_get_size s.shared.fifo < length bytes)
  unfolding create_fifo fifo_get_size
  fifo_write_bytes_overrun bytes some_places e small =
      let r1 = moved {s = created fifo_size memory} start refl (Move.call_write bytes) in
      let (t, w, written) = write_all bytes _ (record {
        reach = r1;
        place = refl;
        locked = refl;
        slots = omega (arith, e);
        untaken = refl;
        size = refl;
      }) in
      (t, w.reach, written, w.untaken, omega (arith, w.size, e, small, some_places))
