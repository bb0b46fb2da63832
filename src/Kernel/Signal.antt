-- ===== src/Kernel/Signal.antt =====
-- The semaphores of kernel/task/signal.c: their creation, and the primitives `up` and `down` with
-- their queues of waiting threads.
pub mod Tree
pub mod Wait
pub mod Store
mod Tests
use tay_huang_os.Prelude.{
  ℕ, Bool, true, false, Option, none, some, List, [], ◌∷◌, ◌++◌, not, ◌==◌, ◌&&◌, ltb,
  if◌then◌else◌, ◌+◌, ◌%◌, ◌^◌,
}
use tay_huang_os.Prelude.Int.{ℤ, pos, leb_ℤ, ltb_ℤ, ◌+ℤ◌, ◌-ℤ◌}
use tay_huang_os.Kernel.State.{ready, waiting, Kernel, set_state}
use tay_huang_os.Kernel.Ready.{enqueue_thread}
use Tree.{Signal, leaf, node, insert_signal, get_signal, ◌>>=◌}

-- `signal_root` and `cur_id`, a `dword`.
pub record Signals : Type 0 where
  pub root : Tree.Tree
  pub cur_id : ℕ

abbrev pub new_signal : ℕ → ℤ → ℤ → Bool → Signal
new_signal id max_signals value soft = record {
  id = id;
  signals = value;
  max_signals = max_signals;
  soft = soft;
  waiters = [];
}

-- `__create_signal`: the id of the new semaphore, and the state after.
unfoldable pub create_signal : ℤ → ℤ → Bool → Signals → Option (ℕ × Signals)
create_signal max_signals value soft sg = do
  root ← insert_signal (new_signal sg.cur_id max_signals value soft) sg.root
  some (sg.cur_id, record { root = root; cur_id = (sg.cur_id + 1) % 2 ^ 32 })

-- A write through the pointer that `get_signal` returned.
unfoldable pub put_signal : ℕ → Signal → Tree.Tree → Tree.Tree
put_signal id v leaf = leaf
put_signal id v (node l s f r) =
    let in_left = node (put_signal id v l) s f r in
    let in_right = node l s f (put_signal id v r) in
    if s.id == id then node l v f r else if ltb s.id id then in_left else in_right

-- `enqueue_wt` and `dequeue_wt`; the latter gives NULL for an empty queue.
abbrev pub enqueue_wt : Signal → ℕ → Signal
enqueue_wt s thread = record s { waiters = s.waiters ++ (thread ∷ []) }

abbrev pub first_waiter : List ℕ → Option (ℕ × List ℕ)
first_waiter [] = none
first_waiter (w ∷ ws) = some (w, ws)

unfoldable pub dequeue_wt : Signal → Option (ℕ × Signal)
dequeue_wt s = do taken ← first_waiter s.waiters; some (taken.0, record s { waiters = taken.1 })

-- The counter goes up, to its maximum at most.
abbrev pub raised : Signal → Signal
raised s = record s {
  signals = if ltb_ℤ s.signals s.max_signals then s.signals +ℤ pos 1 else s.signals;
}

-- The thread that waited longest is ready again; `none` is a write to the null thread's state.
unfoldable pub wake : Signal → Kernel → Option (Signal × Kernel)
unfolding dequeue_wt
wake s k = do
  woken ← dequeue_wt s
  some (woken.1, enqueue_thread (set_state k woken.0 ready) woken.0)

-- `__up_signal` at the semaphore that was found.
unfoldable pub raise : Signal → Kernel → Option (Signal × Kernel)
unfolding wake
raise s k =
    if not (raised s).soft && leb_ℤ (raised s).signals (pos 0)
    then wake (raised s) k
    else some (raised s, k)

-- `__down_signal` at the semaphore that was found.
unfoldable pub lower : Signal → Kernel → Signal × Kernel
lower s k =
    let s1 = record s { signals = s.signals -ℤ pos 1 } in
    if not s1.soft && ltb_ℤ s1.signals (pos 0)
    then (enqueue_wt s1 k.current_thread, set_state k k.current_thread waiting)
    else (s1, k)

-- An id that is not there is a read through null.
unfoldable pub up_signal : ℕ → Signals → Kernel → Option (Signals × Kernel)
up_signal id sg k = do
  s ← get_signal id sg.root
  done ← raise s k
  some (record sg { root = put_signal id done.0 sg.root }, done.1)

unfoldable pub down_signal : ℕ → Signals → Kernel → Option (Signals × Kernel)
down_signal id sg k = do
  s ← get_signal id sg.root
  some (record sg { root = put_signal id (lower s k).0 sg.root }, (lower s k).1)

pub get_signals : ℕ → Signals → Option ℤ
get_signals id sg = do s ← get_signal id sg.root; some s.signals

pub is_soft_signal : ℕ → Signals → Option Bool
is_soft_signal id sg = do s ← get_signal id sg.root; some s.soft
