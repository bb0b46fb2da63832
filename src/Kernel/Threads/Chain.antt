-- ===== src/Kernel/Threads/Chain.antt =====
-- The threads of a task as a list without repeated ids, and lookup in it (kernel/task/thread.c).
use tay_huang_os.Prelude.{
  ℕ, zero, suc, true, false, some, List, [], ◌∷◌, ◌++◌, map, ◌+◌, ◌<◌, ◌==◌, ◌≡◌, ◌≢◌, refl, arith,
  length,
}
use tay_huang_os.Kernel.State.{Kernel}
use tay_huang_os.Kernel.Ready.Chain.{NotIn, AllDistinct, Chain, last_or}
use tay_huang_os.Kernel.Threads.{Machine, last_thread, walk_threads, get_thread_by_tid}

abbrev pub thread_nexts : Kernel → ℕ → ℕ
thread_nexts k p = (k.thread p).next

abbrev pub tid_of : Kernel → ℕ → ℕ
tid_of k p = (k.thread p).tid

abbrev pub AllBelow : ℕ → List ℕ → Type 0
AllBelow n [] = Unit
AllBelow n (x ∷ xs) = (x < n) × AllBelow n xs

-- The threads of the task are these, each of its own id, and `cur_tid` is above all ids.
pub record IsThreads (w : Machine) (task : ℕ) (xs : List ℕ) : Type 0 where
  pub chain : Chain (thread_nexts w.kernel) (w.kernel.task task).threads xs
  pub distinct : AllDistinct xs
  pub unique : AllDistinct (map (tid_of w.kernel) xs)
  pub below : AllBelow (w.info task).cur_tid (map (tid_of w.kernel) xs)

-- The walk to the last thread ends there, with fuel for each thread.
pub last_thread_lem :
    (fuel : ℕ) (k : Kernel) (p y : ℕ) (ys : List ℕ)
    → length ys < fuel
    → Chain (thread_nexts k) p (y ∷ ys)
    → last_thread fuel k y ≡ some (last_or y ys)
unfolding last_thread
last_thread_lem zero k p y ys h c = absurd (omega arith)
last_thread_lem (suc fuel) k p y [] h (e, n, c) = rw c refl
last_thread_lem (suc fuel) k p y (z ∷ zs) h (e, n, c) =
    let nz : (z == 0) ≡ false = ground (arith, c.1) in
    rw c.0 (rw nz (last_thread_lem fuel k (thread_nexts k y) z zs (omega arith) c))

pub NotIn-above : (n : ℕ) (xs : List ℕ) → AllBelow n xs → NotIn n xs
NotIn-above n [] b = tt
NotIn-above n (x ∷ xs) (h, b) = ((λ e. absurd (omega arith)), NotIn-above n xs b)

pub AllBelow-append : (n x : ℕ) (xs : List ℕ) → AllBelow n xs → x < n → AllBelow n (xs ++ x ∷ [])
AllBelow-append n x [] b h = (h, tt)
AllBelow-append n x (y ∷ ys) (g, b) h = (g, AllBelow-append n x ys b h)

pub AllBelow-weaken : (n : ℕ) (xs : List ℕ) → AllBelow n xs → AllBelow (n + 1) xs
AllBelow-weaken n [] b = tt
AllBelow-weaken n (x ∷ xs) (h, b) = (omega arith, AllBelow-weaken n xs b)

-- The id of a thread of the list is none before it.
NotIn-middle : (f : ℕ → ℕ) (y x : ℕ) (xs zs : List ℕ) → NotIn y (map f (xs ++ x ∷ zs)) → y ≢ f x
NotIn-middle f y x [] zs (n, ns) = n
NotIn-middle f y x (z ∷ xs) zs (n, ns) = NotIn-middle f y x xs zs ns

walk_threads-middle :
    (fuel : ℕ) (k : Kernel) (p : ℕ) (xs : List ℕ) (x : ℕ) (zs : List ℕ)
    → length (xs ++ x ∷ zs) < fuel
    → Chain (thread_nexts k) p (xs ++ x ∷ zs)
    → AllDistinct (map (tid_of k) (xs ++ x ∷ zs))
    → walk_threads fuel k (tid_of k x) p ≡ some x
unfolding walk_threads
walk_threads-middle zero k p xs x zs h c d = absurd (omega arith)
walk_threads-middle (suc fuel) k p [] x zs h (e, n, c) d =
    let nz : (x == 0) ≡ false = ground arith in
    let same : (tid_of k x == tid_of k x) ≡ true = ground arith in rw e (rw (nz, same) refl)
walk_threads-middle (suc fuel) k p (y ∷ ys) x zs h (e, n, c) (d, ds) =
    let nz : (y == 0) ≡ false = ground arith in
    let other : y ≢ 0 = n in
    let ne : (tid_of k y == tid_of k x) ≡ false =
      let g : tid_of k y ≢ tid_of k x = NotIn-middle (tid_of k) (tid_of k y) x ys zs d in
      ground arith in
    rw e (rw (nz, ne) (walk_threads-middle fuel k (thread_nexts k y) ys x zs (omega arith) c ds))

-- With more fuel than threads, the lookup of a thread's id in its task ends with that thread.
get_thread_by_tid-IsThreads :
    (fuel : ℕ) (w : Machine) (task : ℕ) (xs : List ℕ) (x : ℕ) (zs : List ℕ)
    → length (xs ++ x ∷ zs) < fuel
    → IsThreads w task (xs ++ x ∷ zs)
    → get_thread_by_tid fuel (tid_of w.kernel x) task w.kernel ≡ some x
unfolding get_thread_by_tid
get_thread_by_tid-IsThreads fuel w task xs x zs h t =
    walk_threads-middle fuel w.kernel (w.kernel.task task).threads xs x zs h t.chain t.unique
