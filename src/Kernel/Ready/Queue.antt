-- ===== src/Kernel/Ready/Queue.antt =====
-- The ready lists of kernel/task/task_manager.c as queues of threads.
use tay_huang_os.Prelude.{
  ℕ, ◌≡◌, ◌≢◌, ap, true, false, some, List, [], ◌∷◌, ◌++◌, arith, ◌⊎◌, inl, inr, ◌==◌,
  if◌then◌else◌,
}
use tay_huang_os.Prelude.Int.{pos, ==ℤ}
use tay_huang_os.Kernel.State.{Kernel, update, set_free_next}
use tay_huang_os.Kernel.Ready.{
  dequeue_level0_thread, dequeue_level1_thread, enqueue_level0_thread, enqueue_level1_thread,
  enqueue_thread,
}
use tay_huang_os.Kernel.Ready.Chain.{
  NotIn, IsQueue, IsQueue-ext, IsQueue-append, IsQueue-singleton, IsQueue-tail, last_or,
  last_or_nonzero,
}

abbrev pub free_nexts : Kernel → ℕ → ℕ
free_nexts k p = (k.thread p).free_next

abbrev pub Level0 : Kernel → List ℕ → Type 0
Level0 k xs = IsQueue (free_nexts k) k.level0_head k.level0_tail xs

abbrev pub Level1 : Kernel → List ℕ → Type 0
Level1 k xs = IsQueue (free_nexts k) k.level1_head k.level1_tail xs

free_nexts-set_free_next :
    (k : Kernel) (p v q : ℕ) → update (free_nexts k) p v q ≡ free_nexts (set_free_next k p v) q
free_nexts-set_free_next k p v q = ground arith

free_nexts-twice :
    (k : Kernel) (p v a w q : ℕ)
    → update (update (free_nexts k) p v) a w q
      ≡ free_nexts (set_free_next (set_free_next k p v) a w) q
free_nexts-twice k p v a w q = ground arith

-- Enqueueing a thread that is in no ready list puts it last in the level 0 list.
enqueue_level0_thread-append :
    (k : Kernel) (x : ℕ) (xs : List ℕ)
    → x ≢ 0
    → NotIn x xs
    → Level0 k xs
    → Level0 (enqueue_level0_thread k x) (xs ++ x ∷ [])
unfolding enqueue_level0_thread
enqueue_level0_thread-append k x [] x0 n q =
    let e : (k.level0_tail == 0) ≡ true = ground (arith, q.tail_last) in
    rw e (IsQueue-ext _ _ (free_nexts-set_free_next k x 0) (IsQueue-singleton (free_nexts k) x x0))
enqueue_level0_thread-append k x (y ∷ ys) x0 n q =
    let nz : last_or y ys ≢ 0 = last_or_nonzero (free_nexts k) k.level0_head y ys q.chain in
    let e : (k.level0_tail == 0) ≡ false = ground (arith, q.tail_last) in
    rw e (
      IsQueue-ext _ _ (free_nexts-twice k x 0 k.level0_tail x)
        (IsQueue-append (free_nexts k) x k.level0_head k.level0_tail y ys x0 n q))

-- Enqueueing a thread that is in no ready list puts it last in the level 1 list.
enqueue_level1_thread-append :
    (k : Kernel) (x : ℕ) (xs : List ℕ)
    → x ≢ 0
    → NotIn x xs
    → Level1 k xs
    → Level1 (enqueue_level1_thread k x) (xs ++ x ∷ [])
unfolding enqueue_level1_thread
enqueue_level1_thread-append k x [] x0 n q =
    let e : (k.level1_tail == 0) ≡ true = ground (arith, q.tail_last) in
    rw e (IsQueue-ext _ _ (free_nexts-set_free_next k x 0) (IsQueue-singleton (free_nexts k) x x0))
enqueue_level1_thread-append k x (y ∷ ys) x0 n q =
    let nz : last_or y ys ≢ 0 = last_or_nonzero (free_nexts k) k.level1_head y ys q.chain in
    let e : (k.level1_tail == 0) ≡ false = ground (arith, q.tail_last) in
    rw e (
      IsQueue-ext _ _ (free_nexts-twice k x 0 k.level1_tail x)
        (IsQueue-append (free_nexts k) x k.level1_head k.level1_tail y ys x0 n q))

-- A thread of level 0 or 1 goes last in the level 0 list.
pub enqueue_thread-append :
    (k : Kernel) (x : ℕ) (xs : List ℕ)
    → x ≢ 0
    → NotIn x xs
    → (((k.task (k.thread x).task).level ≡ pos 0) ⊎ ((k.task (k.thread x).task).level ≡ pos 1))
    → Level0 k xs
    → Level0 (enqueue_thread k x) (xs ++ x ∷ [])
unfolding enqueue_thread
enqueue_thread-append k x xs x0 n (inl e) q =
    rw (ap (λ l. ==ℤ l (pos 0)) e) (enqueue_level0_thread-append k x xs x0 n q)
enqueue_thread-append k x xs x0 n (inr e) q =
    rw (ap (λ l. ==ℤ l (pos 0)) e, ap (λ l. ==ℤ l (pos 1)) e)
      (enqueue_level0_thread-append k x xs x0 n q)

-- Nothing that `enqueue_thread` does reaches the level 1 list.
pub enqueue_thread-level1 :
    (k : Kernel) (x : ℕ)
    → ((enqueue_thread k x).level1_head ≡ k.level1_head)
      × ((enqueue_thread k x).level1_tail ≡ k.level1_tail)
unfolding enqueue_thread enqueue_level0_thread
enqueue_thread-level1 k x = ground arith

-- The first thread of the level 0 list is dequeued, and the rest stays in order.
pub dequeue_level0_thread-cons :
    (k : Kernel) (x : ℕ) (xs : List ℕ)
    → Level0 k (x ∷ xs)
    → (k' : Kernel) × (dequeue_level0_thread k ≡ some (x, k')) × Level0 k' xs
unfolding dequeue_level0_thread
dequeue_level0_thread-cons k x xs q =
    let nz : (x == 0) ≡ false = ground (arith, q.chain) in
    (
      set_free_next
          (record k {
            level0_head = (k.thread x).free_next;
            level0_tail = if (k.thread x).free_next == 0 then 0 else k.level0_tail;
          })
          x 0,
      rw q.chain.0 (rw nz),
      IsQueue-ext _ _ (free_nexts-set_free_next k x 0)
          (IsQueue-tail (free_nexts k) k.level0_head k.level0_tail x xs q),
    )

-- The same for the level 1 list: its first thread is dequeued, and the rest stays in order.
dequeue_level1_thread-cons :
    (k : Kernel) (x : ℕ) (xs : List ℕ)
    → Level1 k (x ∷ xs)
    → (k' : Kernel) × (dequeue_level1_thread k ≡ some (x, k')) × Level1 k' xs
unfolding dequeue_level1_thread
dequeue_level1_thread-cons k x xs q =
    let nz : (x == 0) ≡ false = ground (arith, q.chain) in
    (
      set_free_next
          (record k {
            level1_head = (k.thread x).free_next;
            level1_tail = if (k.thread x).free_next == 0 then 0 else k.level1_tail;
          })
          x 0,
      rw q.chain.0 (rw nz),
      IsQueue-ext _ _ (free_nexts-set_free_next k x 0)
          (IsQueue-tail (free_nexts k) k.level1_head k.level1_tail x xs q),
    )
