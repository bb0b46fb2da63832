-- ===== src/Kernel/Signal/Wait.antt =====
-- The textbook semaphore, a count of free units and a queue of waiting threads, and the primitives of
-- kernel/task/signal.c at the semaphore that was found.
use tay_huang_os.Prelude.{
  ℕ, Bool, true, false, Option, none, some, List, [], ◌∷◌, ◌++◌, ltb, if◌then◌else◌, ◌+◌, ◌-◌, ◌≡◌,
  refl, drop, length, length-append, arith,
}
use tay_huang_os.Prelude.Int.{pos, pos_part, neg_part, ◌≤ℤ◌, ◌+ℤ◌, ◌-ℤ◌}
use tay_huang_os.Kernel.State.{ready, waiting, Kernel, set_state}
use tay_huang_os.Kernel.Ready.{enqueue_thread}
use tay_huang_os.Kernel.Signal.Tree.{Signal}
use tay_huang_os.Kernel.Signal.{raised, raise, lower}

-- A hard semaphore with room for a unit: the deficit of its counter is the number of waiting
-- threads, and the counter is at most its maximum.
pub record IsCounted (s : Signal) : Type 0 where
  pub hard : s.soft ≡ false
  pub roomy : pos 1 ≤ℤ s.max_signals
  pub capped : s.signals ≤ℤ s.max_signals
  pub counted : neg_part s.signals ≡ length s.waiters

-- The abstract semaphore: what a client is promised.
pub record Semaphore : Type 0 where
  pub free : ℕ
  pub queue : List ℕ

abbrev pub view : Signal → Semaphore
view s = record { free = pos_part s.signals; queue = s.waiters }

-- Taking a unit, or joining the queue; the result says whether the thread must wait.
abbrev pub take_unit : ℕ → Semaphore → Semaphore × Bool
take_unit thread (m) =
    if ltb 0 m.free
    then (record m { free = m.free - 1 }, false)
    else (record m { queue = m.queue ++ (thread ∷ []) }, true)

-- Giving a unit to the first thread of the queue, or back to the semaphore, up to its maximum.
abbrev pub give_unit : ℕ → Semaphore → Semaphore × Option ℕ
give_unit most m = elim m.queue [
  | [] ↦ (record { free = if ltb m.free most then m.free + 1 else m.free; queue = [] }, none)
  | w ∷ ws ↦ (record { free = m.free; queue = ws }, some w)
]

-- What becomes of a thread that was given a unit, or that must wait.
abbrev pub wake_first : Option ℕ → Kernel → Kernel
wake_first none k = k
wake_first (some w) k = enqueue_thread (set_state k w ready) w

abbrev pub wait_if : Bool → Kernel → Kernel
wait_if true k = set_state k k.current_thread waiting
wait_if false k = k

-- `down` is the abstract operation on the current thread: it waits exactly when no unit is free.
pub lower_refines :
    (s : Signal) (k : Kernel)
    → IsCounted s
    → let (s', k') = lower s k in
      let (m, waits) = take_unit k.current_thread (view s) in
      IsCounted s' × (view s' ≡ m) × (k' ≡ wait_if waits k) × (s'.id ≡ s.id)
unfolding lower ◌-ℤ◌
lower_refines s k c = (
  ground (arith, length-append s.waiters (k.current_thread ∷ [])),
  ground arith,
  ground arith,
  ground arith,
)

-- `up` never wakes a thread that is not there, and is the abstract operation: it wakes the thread
-- that waited longest, makes it ready and enqueues it.
pub raise_refines :
    (s : Signal) (k : Kernel)
    → IsCounted s
    → let (m, woken) = give_unit (pos_part s.max_signals) (view s) in
      (s' : Signal) × (raise s k ≡ some (s', wake_first woken k))
      × IsCounted s'
      × (view s' ≡ m)
      × (s'.id ≡ s.id)
unfolding raise ◌+ℤ◌
raise_refines s k c = (
  record (raised s) { waiters = drop 1 s.waiters },
  ground arith,
  ground arith,
  ground arith,
  refl,
)
