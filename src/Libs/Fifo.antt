-- ===== src/Libs/Fifo.antt =====
-- The fifo in shared memory of libs/libfifo/fifo.c, used by any number of threads at once: one step of
-- one thread is one access to a semaphore or to the fifo.
pub mod Family
pub mod Invariant
pub mod Queue
pub mod Overrun
mod Tests
use tay_huang_os.Prelude.{
  ℕ, zero, suc, Bool, List, [], ◌∷◌, ◌++◌, ◌==◌, if◌then◌else◌, ◌+◌, ◌-◌, ◌*◌, ◌/◌, ◌<◌, ◌≡◌,
}
use tay_huang_os.Kernel.State.{update}

-- `fifo_struct`, with the counters of its three semaphores in place of their ids. `buffer[0]` and what
-- follows it is a function of the index.
pub record Fifo : Type 0 where
  pub mutex : ℕ
  pub empty : ℕ
  pub full : ℕ
  pub write_offset : ℕ
  pub read_offset : ℕ
  pub fifo_size : ℕ
  pub used_size : ℕ
  pub buffer : ℕ → ℕ

abbrev pub page_size : ℕ
page_size = 4096

-- `sizeof(fifo_struct)`.
abbrev pub header_size : ℕ
header_size = 48

abbrev pub pages_for : ℕ → ℕ
pages_for fifo_size = (fifo_size + page_size - 1) / page_size

-- `create_fifo` on a fresh share of memory with the contents `memory`.
unfoldable pub create_fifo : ℕ → (ℕ → ℕ) → Fifo
create_fifo fifo_size memory = record {
  mutex = 1;
  empty = fifo_size;
  full = 0;
  write_offset = 0;
  read_offset = 0;
  fifo_size = pages_for fifo_size * page_size - header_size;
  used_size = 0;
  buffer = memory;
}

-- `offset ++; if (offset == fifo_size) offset = 0;`
abbrev pub advance : ℕ → ℕ → ℕ
advance size offset = if offset + 1 == size then 0 else offset + 1

-- `fifo_get_size`, `fifo_get_used_size` and `fifo_get_free_size`.
unfoldable pub fifo_get_size : Fifo → ℕ
fifo_get_size f = f.fifo_size

unfoldable pub fifo_get_used_size : Fifo → ℕ
fifo_get_used_size f = f.used_size

unfoldable pub fifo_get_free_size : Fifo → ℕ
unfolding fifo_get_size fifo_get_used_size
fifo_get_free_size f = fifo_get_size f - fifo_get_used_size f

-- `share_fifo`: the number of pages that it shares.
unfoldable pub share_pages : Fifo → ℕ
share_pages f = (f.fifo_size + header_size) / page_size

-- The fifo, with the bytes that were stored and those that were taken since it was created, in order.
pub record Shared : Type 0 where
  pub fifo : Fifo
  pub written : List ℕ
  pub taken : List ℕ

abbrev pub set_fifo : Shared → Fifo → Shared
set_fifo s f = record s { fifo = f }

-- Where a thread stands. `bytes` are those that `fifo_write_bytes` has still to write behind the one at
-- hand; `more` and `got` say how many `fifo_read_bytes` has still to read, and what it has read.
pub data Pc : Type 0 where
  idle : Pc
  writing : (bytes : List ℕ) → Pc  -- the loop of `fifo_write_bytes`
  write_enter : (byte : ℕ) (bytes : List ℕ) → Pc  -- before the mutex
  write_store : (byte : ℕ) (bytes : List ℕ) → Pc
  write_step : (byte : ℕ) (bytes : List ℕ) → Pc  -- before the offset goes on
  write_leave : (bytes : List ℕ) → Pc  -- before the mutex is given back
  write_done : (bytes : List ℕ) → Pc  -- before `full` goes up
  reading : (more : ℕ) (got : List ℕ) → Pc  -- the loop of `fifo_read_bytes`
  read_enter : (more : ℕ) (got : List ℕ) → Pc
  read_load : (more : ℕ) (got : List ℕ) → Pc
  read_step : (byte more : ℕ) (got : List ℕ) → Pc
  read_leave : (more : ℕ) (got : List ℕ) → Pc
  read_done : (more : ℕ) (got : List ℕ) → Pc

-- One step of one thread. `down_signal` waits as long as the counter is 0: a thread that waits has no
-- step, and the kernel's hand-over of a unit to the thread that waited longest is the step of `up_signal`
-- and then that thread's own step. A call starts from `idle` at any time.
pub data Move (s : Shared) : Pc → Shared → Pc → Type 0 where
  call_write : (bytes : List ℕ) → Move s idle s (writing bytes)
  end_write : Move s (writing []) s idle
  down_empty :
      {b : ℕ} {bs : List ℕ}
      → 0 < s.fifo.empty
      → Move s
          (writing (b ∷ bs))
          (set_fifo s (record s.fifo { empty = s.fifo.empty - 1 }))
          (write_enter b bs)
  write_down_mutex :
      {b : ℕ} {bs : List ℕ}
      → 0 < s.fifo.mutex
      → Move s
          (write_enter b bs)
          (set_fifo s (record s.fifo { mutex = s.fifo.mutex - 1 }))
          (write_store b bs)
  store :
      {b : ℕ} {bs : List ℕ}
      → Move s
          (write_store b bs)
          (set_fifo s (record s.fifo { buffer = update s.fifo.buffer s.fifo.write_offset b }))
          (write_step b bs)
  write_advance :
      {b : ℕ} {bs : List ℕ}
      → Move s
          (write_step b bs)
          (record s {
            fifo = record s.fifo { write_offset = advance s.fifo.fifo_size s.fifo.write_offset };
            written = s.written ++ (b ∷ []);
          })
          (write_leave bs)
  write_up_mutex :
      {bs : List ℕ}
      → Move s
          (write_leave bs)
          (set_fifo s (record s.fifo { mutex = s.fifo.mutex + 1 }))
          (write_done bs)
  up_full :
      {bs : List ℕ}
      → Move s (write_done bs) (set_fifo s (record s.fifo { full = s.fifo.full + 1 })) (writing bs)
  call_read : (more : ℕ) → Move s idle s (reading more [])
  call_read_all : Move s idle s (reading s.fifo.used_size [])  -- `fifo_read_all`
  end_read : {got : List ℕ} → Move s (reading zero got) s idle
  down_full :
      {n : ℕ} {got : List ℕ}
      → 0 < s.fifo.full
      → Move s
          (reading (suc n) got)
          (set_fifo s (record s.fifo { full = s.fifo.full - 1 }))
          (read_enter n got)
  read_down_mutex :
      {n : ℕ} {got : List ℕ}
      → 0 < s.fifo.mutex
      → Move s
          (read_enter n got)
          (set_fifo s (record s.fifo { mutex = s.fifo.mutex - 1 }))
          (read_load n got)
  load :
      {n : ℕ} {got : List ℕ}
      → Move s (read_load n got) s (read_step (s.fifo.buffer s.fifo.read_offset) n got)
  read_advance :
      {b n : ℕ} {got : List ℕ}
      → Move s
          (read_step b n got)
          (record s {
            fifo = record s.fifo { read_offset = advance s.fifo.fifo_size s.fifo.read_offset };
            taken = s.taken ++ (b ∷ []);
          })
          (read_leave n (got ++ (b ∷ [])))
  read_up_mutex :
      {n : ℕ} {got : List ℕ}
      → Move s
          (read_leave n got)
          (set_fifo s (record s.fifo { mutex = s.fifo.mutex + 1 }))
          (read_done n got)
  up_empty :
      {n : ℕ} {got : List ℕ}
      → Move s
          (read_done n got)
          (set_fifo s (record s.fifo { empty = s.fifo.empty + 1 }))
          (reading n got)

-- The threads that use the fifo, by index.
pub record System : Type 0 where
  pub shared : Shared
  pub pc : ℕ → Pc

-- Any of the first `n` threads makes the next step.
pub data Step (n : ℕ) (s : System) : System → Type 0 where
  pick :
      (i : ℕ) {s' : Shared} {p : Pc}
      → i < n
      → Move s.shared (s.pc i) s' p
      → Step n s (record { shared = s'; pc = update s.pc i p })

-- A fifo that was just created.
abbrev pub created : ℕ → (ℕ → ℕ) → System
created fifo_size memory = record {
  shared = record { fifo = create_fifo fifo_size memory; written = []; taken = [] };
  pc = λ _. idle;
}

pub data Reach (n fifo_size : ℕ) (memory : ℕ → ℕ) : System → Type 0 where
  start : Reach n fifo_size memory (created fifo_size memory)
  later : {s t : System} → Reach n fifo_size memory s → Step n s t → Reach n fifo_size memory t
