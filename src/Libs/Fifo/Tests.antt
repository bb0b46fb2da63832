-- ===== src/Libs/Fifo/Tests.antt =====
-- Runs of the fifo of libs/libfifo/fifo.c, and its theorems on concrete fifos.
use tay_huang_os.Prelude.{
  ℕ, zero, suc, List, [], ◌∷◌, ◌++◌, ◌≤◌, ◌<◌, ◌≡◌, refl, arith, length, replicate,
  length-replicate,
}
use tay_huang_os.Libs.Fifo.{
  create_fifo, fifo_get_size, share_pages, reading, Move, System, pick, created, Reach, Shared, Pc,
  start, later,
}
use tay_huang_os.Libs.Fifo.Invariant.Defs.{critical, Stored}
use tay_huang_os.Libs.Fifo.Queue.{HasRoom, busy, Reach-queue, Reach-exclusive}
use tay_huang_os.Libs.Fifo.Overrun.{fifo_write_bytes_overrun}

abbrev zeros : ℕ → ℕ
zeros a = 0

-- A fifo of a hundred places fills a page; it is shared as one page.
create_fifo_100 : fifo_get_size (create_fifo 100 zeros) ≡ 4048
unfolding create_fifo fifo_get_size
create_fifo_100 = refl

share_pages_100 : share_pages (create_fifo 100 zeros) ≡ 1
unfolding create_fifo share_pages
share_pages_100 = refl

room_for_100 : HasRoom 100
room_for_100 = omega arith

-- A run of two threads, and one more move of it.
record Run : Type 0 where
  last : System
  reach : Reach 2 100 zeros last

abbrev move :
    (r : Run) (i : ℕ) {s' : Shared} {p : Pc} → i < 2 → Move r.last.shared (r.last.pc i) s' p → Run
move r i h mv = record { last = _; reach = later r.reach (pick i h mv) }

-- Two writers, of which thread 0 has the mutex and thread 1 waits for it.
abbrev both_write : Run
unfolding create_fifo
both_write =
    let r0 : Run = record { last = created 100 zeros; reach = start } in
    let r1 = move r0 0 (omega arith) (Move.call_write (7 ∷ [])) in
    let r2 = move r1 1 (omega arith) (Move.call_write (8 ∷ [])) in
    let r3 = move r2 0 (omega arith) (Move.down_empty (omega arith)) in
    let r4 = move r3 1 (omega arith) (Move.down_empty (omega arith)) in
    move r4 0 (omega arith) (Move.write_down_mutex (omega arith))

-- Thread 0 has written its byte, and thread 1 reads it.
abbrev one_byte : Run
unfolding create_fifo
one_byte =
    let r0 : Run = record { last = created 100 zeros; reach = start } in
    let r1 = move r0 0 (omega arith) (Move.call_write (7 ∷ [])) in
    let r2 = move r1 0 (omega arith) (Move.down_empty (omega arith)) in
    let r3 = move r2 0 (omega arith) (Move.write_down_mutex (omega arith)) in
    let r4 = move r3 0 (omega arith) Move.store in
    let r5 = move r4 0 (omega arith) Move.write_advance in
    let r6 = move r5 0 (omega arith) Move.write_up_mutex in
    let r7 = move r6 0 (omega arith) Move.up_full in move r7 1 (omega arith) (Move.call_read 1)

abbrev byte_read : Run
unfolding create_fifo one_byte
byte_read =
    let r1 = move one_byte 1 (omega arith) (Move.down_full (omega arith)) in
    let r2 = move r1 1 (omega arith) (Move.read_down_mutex (omega arith)) in
    let r3 = move r2 1 (omega arith) Move.load in
    let r4 = move r3 1 (omega arith) Move.read_advance in
    let r5 = move r4 1 (omega arith) Move.read_up_mutex in move r5 1 (omega arith) Move.up_empty

-- The reader has the byte, and the fifo is as empty as before.
byte_read_result :
    (byte_read.last.pc 1 ≡ reading 0 (7 ∷ []))
    × (byte_read.last.shared.taken ≡ 7 ∷ [])
    × (byte_read.last.shared.fifo.empty ≡ 100)
unfolding create_fifo byte_read
byte_read_result = (refl, refl, refl)

Reach-queue_example :
    (pending : List ℕ) × (one_byte.last.shared.written ≡ one_byte.last.shared.taken ++ pending)
    × (length pending ≤ 100)
    × Stored one_byte.last.shared.fifo pending
Reach-queue_example = Reach-queue room_for_100 one_byte.reach

Reach-exclusive_example : critical (both_write.last.pc 1) ≡ 0
unfolding both_write create_fifo
Reach-exclusive_example =
    Reach-exclusive room_for_100 both_write.reach 0 1 (omega arith) (omega arith) (omega arith)
      (omega arith)

quiet_one_byte : (i : ℕ) → i < 2 → busy (one_byte.last.pc i) ≡ 0
unfolding one_byte create_fifo
quiet_one_byte zero h = refl
quiet_one_byte (suc zero) h = refl
quiet_one_byte (suc (suc i)) h = absurd (omega arith)

-- The keyboard's fifo, KEY_BUFFER_SIZE places, and as many keys.
abbrev keys : List ℕ
keys = replicate 8192 5

length-keys : length keys ≡ 8192
length-keys = length-replicate {A = ℕ} 8192 5

fifo_write_bytes_overrun_example :
    (s : System) × Reach 1 8192 zeros s
    × (s.shared.written ≡ keys)
    × (s.shared.taken ≡ [])
    × (fifo_get_size s.shared.fifo < length keys)
fifo_write_bytes_overrun_example =
    fifo_write_bytes_overrun 1 8192 zeros (omega arith) keys (omega arith) length-keys (omega arith)
