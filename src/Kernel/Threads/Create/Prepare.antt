-- ===== src/Kernel/Threads/Create/Prepare.antt =====
-- A new thread before it is linked to its task (`create_thread` of kernel/task/thread.c).
use tay_huang_os.Prelude.{
  ℕ, false, some, List, ◌∷◌, ◌+◌, ◌<◌, ◌==◌, ◌≡◌, ◌≢◌, ap, ◌∙◌, arith, length,
}
use mathlib.Core.Option
use tay_huang_os.Kernel.State.{Kernel, update}
use tay_huang_os.Kernel.Ready.{enqueue_thread, enqueue_level0_thread}
use tay_huang_os.Kernel.Ready.Chain.{NotIn, Chain, last_or, Chain-update, Chain-ext}
use tay_huang_os.Kernel.Threads.{
  Machine, prepare, create_thread_info, create_thread, attach, link_thread,
}
use tay_huang_os.Kernel.Threads.Chain.{thread_nexts, tid_of, IsThreads, last_thread_lem}

pub nexts-prepare :
    (p entry task : ℕ) (w : Machine) (q : ℕ)
    → update (thread_nexts w.kernel) p 0 q ≡ thread_nexts (prepare p entry task w).kernel q
unfolding prepare create_thread_info
nexts-prepare p entry task w q = ground arith

pub tids-prepare :
    (p entry task : ℕ) (w : Machine) (q : ℕ)
    → update (tid_of w.kernel) p (w.info task).cur_tid q ≡ tid_of (prepare p entry task w).kernel q
unfolding prepare create_thread_info
tids-prepare p entry task w q = ground arith

pub task-prepare :
    (p entry task : ℕ) (w : Machine) (q : ℕ)
    → (prepare p entry task w).kernel.task q ≡ w.kernel.task q
unfolding prepare create_thread_info
task-prepare p entry task w q = ground arith

pub cur_tid-prepare :
    (p entry task : ℕ) (w : Machine)
    → ((prepare p entry task w).info task).cur_tid ≡ (w.info task).cur_tid + 1
unfolding prepare create_thread_info
cur_tid-prepare p entry task w = ground arith

-- Only `free_next` of a thread is written by `enqueue_thread`.
pub enqueue_thread-fields :
    (k : Kernel) (x q : ℕ)
    → (thread_nexts (enqueue_thread k x) q ≡ thread_nexts k q)
      × (tid_of (enqueue_thread k x) q ≡ tid_of k q)
      × ((enqueue_thread k x).task ≡ k.task)
unfolding enqueue_thread enqueue_level0_thread
enqueue_thread-fields k x q = ground arith

pub nexts-link :
    (k : Kernel) (parent x q : ℕ)
    → parent ≢ x
    → update (thread_nexts k) parent x q ≡ thread_nexts (link_thread k parent x) q
nexts-link k parent x q ne = ground arith

pub tids-link : (k : Kernel) (parent x q : ℕ) → tid_of k q ≡ tid_of (link_thread k parent x) q
tids-link k parent x q = ground arith

pub prepare-Chain :
    (p entry task : ℕ) (w : Machine) (xs : List ℕ)
    → NotIn p xs
    → IsThreads w task xs
    → Chain (update (thread_nexts w.kernel) p 0) (w.kernel.task task).threads xs
prepare-Chain p entry task w xs n t =
    Chain-update (thread_nexts w.kernel) p 0 (w.kernel.task task).threads xs n t.chain

-- The thread is linked behind the last one.
pub create_thread_lem :
    (fuel p entry task : ℕ) (w : Machine) (y : ℕ) (ys : List ℕ)
    → length ys < fuel
    → NotIn p (y ∷ ys)
    → IsThreads w task (y ∷ ys)
    → create_thread fuel p entry task w ≡ some (attach p (prepare p entry task w) (last_or y ys))
unfolding create_thread
create_thread_lem fuel p entry task w y ys h n t =
    let w1 = prepare p entry task w in
    let first : (w1.kernel.task task).threads ≡ y =
      ap (λ t1. t1.threads) (task-prepare p entry task w task) ∙ t.chain.0 in
    let nz : (y == 0) ≡ false = ground (arith, t.chain.1) in
    let c : Chain (thread_nexts w1.kernel) (w.kernel.task task).threads (y ∷ ys) =
      Chain-ext _ (thread_nexts w1.kernel) (nexts-prepare p entry task w)
        (w.kernel.task task).threads (y ∷ ys) (prepare-Chain p entry task w (y ∷ ys) n t) in
    rw first (
      rw nz (
        ap (Option.map (attach p w1))
          (last_thread_lem fuel w1.kernel (w.kernel.task task).threads y ys h c)))
