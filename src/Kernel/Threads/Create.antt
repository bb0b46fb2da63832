-- ===== src/Kernel/Threads/Create.antt =====
-- What the creation of a thread does to its task (kernel/task/thread.c).
pub mod Prepare
use tay_huang_os.Prelude.{
  ℕ, false, some, List, [], ◌∷◌, ◌++◌, map, ◌+◌, ◌<◌, ◌==◌, ◌≡◌, ◌≢◌, refl, sym, ap, subst, ◌∙◌,
  arith, length, if◌then◌else◌, ◌⊎◌,
}
use mathlib.Core.Option
use tay_huang_os.Prelude.Int.{pos}
use tay_huang_os.Kernel.State.{Kernel, Task, update}
use tay_huang_os.Kernel.Ready.{enqueue_thread, enqueue_level0_thread}
use tay_huang_os.Kernel.Ready.Chain.{
  NotIn, AllDistinct, Chain, last_or, last_or-NotIn, Chain-append, Chain-update, Chain-ext,
  AllDistinct-append, update_ne, update_self, IsQueue-ext, IsQueue-update,
}
use tay_huang_os.Kernel.Ready.Queue.{free_nexts, Level0, enqueue_thread-append}
use tay_huang_os.Kernel.Threads.{
  Machine, prepare, create_thread_info, create_thread, attach, link_thread,
}
use tay_huang_os.Kernel.Threads.Chain.{
  thread_nexts, tid_of, AllBelow, IsThreads, last_thread_lem, NotIn-above, AllBelow-append,
  AllBelow-weaken,
}
use tay_huang_os.Kernel.Threads.Create.Prepare.{
  nexts-prepare, tids-prepare, task-prepare, cur_tid-prepare, enqueue_thread-fields, nexts-link,
  tids-link, prepare-Chain, create_thread_lem,
}

map-update :
    (f g : ℕ → ℕ) (p v : ℕ) (xs : List ℕ)
    → ((q : ℕ) → update f p v q ≡ g q)
    → NotIn p xs
    → map g xs ≡ map f xs
map-update f g p v [] e n = refl
map-update f g p v (x ∷ xs) e (n, ns) =
    let h : g x ≡ f x = sym (e x) ∙ update_ne f p v x n in cc (h, map-update f g p v xs e ns)

map-append : (f : ℕ → ℕ) (x : ℕ) (xs : List ℕ) → map f (xs ++ x ∷ []) ≡ map f xs ++ f x ∷ []
map-append f x [] = refl
map-append f x (y ∷ ys) = ap (λ l. f y ∷ l) (map-append f x ys)

-- The ids after the creation: those before, and the one that was next.
tids-attach :
    (p entry task : ℕ) (w : Machine) (parent : ℕ) (xs : List ℕ)
    → NotIn p xs
    → map (tid_of (attach p (prepare p entry task w) parent).kernel) (xs ++ p ∷ [])
      ≡ map (tid_of w.kernel) xs ++ (w.info task).cur_tid ∷ []
tids-attach p entry task w parent xs n =
    let w1 = prepare p entry task w in
    let k2 = link_thread w1.kernel parent p in
    let g = tid_of (attach p w1 parent).kernel in
    let e : (q : ℕ) → update (tid_of w.kernel) p (w.info task).cur_tid q ≡ g q = λ q.
      tids-prepare p entry task w q
      ∙ tids-link w1.kernel parent p q
      ∙ sym (enqueue_thread-fields k2 p q).1 in
    let last : g p ≡ (w.info task).cur_tid =
      sym (e p) ∙ update_self (tid_of w.kernel) p (w.info task).cur_tid in
    let front : map g xs ≡ map (tid_of w.kernel) xs =
      map-update (tid_of w.kernel) g p (w.info task).cur_tid xs e n in
    map-append g p xs ∙ cc (front, last)

attach-Chain :
    (p entry task : ℕ) (w : Machine) (y : ℕ) (ys : List ℕ)
    → p ≢ 0
    → NotIn p (y ∷ ys)
    → IsThreads w task (y ∷ ys)
    → Chain
        (thread_nexts (attach p (prepare p entry task w) (last_or y ys)).kernel)
        (w.kernel.task task).threads
        (y ∷ ys ++ p ∷ [])
attach-Chain p entry task w y ys p0 n t =
    let w1 = prepare p entry task w in
    let last = last_or y ys in
    let ne : last ≢ p = λ e. last_or-NotIn p y ys n (sym e) in
    let nexts = thread_nexts w.kernel in
    let over : (q : ℕ)
        → update (update nexts p 0) last p q ≡ update (thread_nexts w1.kernel) last p q =
      λ q. ap (λ v. if last == q then p else v) (nexts-prepare p entry task w q) in
    Chain-ext (update (update nexts p 0) last p) _
      (λ q.
        over q
        ∙ nexts-link w1.kernel last p q ne
        ∙ sym (enqueue_thread-fields (link_thread w1.kernel last p) p q).0)
      (w.kernel.task task).threads (y ∷ ys ++ p ∷ [])
      (Chain-append nexts p (w.kernel.task task).threads y ys p0 t.distinct n t.chain)

attach-IsThreads :
    (p entry task : ℕ) (w : Machine) (y : ℕ) (ys : List ℕ)
    → p ≢ 0
    → NotIn p (y ∷ ys)
    → IsThreads w task (y ∷ ys)
    → IsThreads (attach p (prepare p entry task w) (last_or y ys)) task (y ∷ ys ++ p ∷ [])
attach-IsThreads p entry task w y ys p0 n t =
    let w1 = prepare p entry task w in
    let w2 = attach p w1 (last_or y ys) in
    let ids = tids-attach p entry task w (last_or y ys) (y ∷ ys) n in
    let old = map (tid_of w.kernel) (y ∷ ys) in
    let cur = (w.info task).cur_tid in
    let same : (w2.kernel.task task).threads ≡ (w.kernel.task task).threads =
      ap (λ s. (s task).threads)
        (enqueue_thread-fields (link_thread w1.kernel (last_or y ys) p) p p).2
      ∙ ap (λ t1. t1.threads) (task-prepare p entry task w task) in
    record {
      chain =
          subst (λ h. Chain (thread_nexts w2.kernel) h (y ∷ ys ++ p ∷ [])) (sym same)
            (attach-Chain p entry task w y ys p0 n t);
      distinct = AllDistinct-append p (y ∷ ys) t.distinct n;
      unique =
          subst AllDistinct (sym ids)
            (AllDistinct-append cur old t.unique (NotIn-above cur old t.below));
      below =
          subst (λ c. AllBelow c (map (tid_of w2.kernel) (y ∷ ys ++ p ∷ [])))
            (sym (cur_tid-prepare p entry task w))
            (subst (AllBelow (cur + 1)) (sym ids)
              (AllBelow-append (cur + 1) cur old (AllBelow-weaken cur old t.below) (omega arith)));
    }

-- With fuel above the number of threads, a new thread at an address that is free ends up last in the
-- list of its task's threads, under an id that none of them has.
pub create_thread-IsThreads :
    (fuel p entry task : ℕ) (w : Machine) (y : ℕ) (ys : List ℕ)
    → length ys < fuel
    → p ≢ 0
    → NotIn p (y ∷ ys)
    → IsThreads w task (y ∷ ys)
    → (w' : Machine) × (create_thread fuel p entry task w ≡ some w')
      × IsThreads w' task (y ∷ ys ++ p ∷ [])
create_thread-IsThreads fuel p entry task w y ys h p0 n t = (
  attach p (prepare p entry task w) (last_or y ys),
  create_thread_lem fuel p entry task w y ys h n t,
  attach-IsThreads p entry task w y ys p0 n t,
)

task_of-link :
    (k : Kernel) (parent x q : ℕ) → ((link_thread k parent x).thread q).task ≡ (k.thread q).task
task_of-link k parent x q = ground arith

free_nexts-attach :
    (p entry task : ℕ) (w : Machine) (parent q : ℕ)
    → update (free_nexts w.kernel) p 0 q
      ≡ free_nexts (link_thread (prepare p entry task w).kernel parent p) q
unfolding prepare create_thread_info
free_nexts-attach p entry task w parent q = ground arith

prepare-lists :
    (p entry task : ℕ) (w : Machine)
    → ((prepare p entry task w).kernel.level0_head ≡ w.kernel.level0_head)
      × ((prepare p entry task w).kernel.level0_tail ≡ w.kernel.level0_tail)
      × (((prepare p entry task w).kernel.thread p).task ≡ task)
unfolding prepare create_thread_info
prepare-lists p entry task w = ground arith

-- The same thread is last in the level 0 list of threads that are ready, if the level of its task is 0
-- or 1 and it was in no list.
pub create_thread-Level0 :
    (fuel p entry task : ℕ) (w : Machine) (y : ℕ) (ys xs : List ℕ)
    → length ys < fuel
    → p ≢ 0
    → NotIn p (y ∷ ys)
    → IsThreads w task (y ∷ ys)
    → NotIn p xs
    → (((w.kernel.task task).level ≡ pos 0) ⊎ ((w.kernel.task task).level ≡ pos 1))
    → Level0 w.kernel xs
    → (w' : Machine) × (create_thread fuel p entry task w ≡ some w')
      × Level0 w'.kernel (xs ++ p ∷ [])
create_thread-Level0 fuel p entry task w y ys xs h p0 n t m lv q =
    let w1 = prepare p entry task w in
    let k2 = link_thread w1.kernel (last_or y ys) p in
    let lists = prepare-lists p entry task w in
    let tk : k2.task (k2.thread p).task ≡ w.kernel.task task =
      ap w1.kernel.task (task_of-link w1.kernel (last_or y ys) p p ∙ lists.2)
      ∙ task-prepare p entry task w task in
    let l : Level0 k2 xs =
      rw (lists.0, lists.1)
        (IsQueue-ext _ _ (free_nexts-attach p entry task w (last_or y ys)) (
          IsQueue-update (free_nexts w.kernel) p 0 w.kernel.level0_head w.kernel.level0_tail xs m
            q)) in
    (
      attach p w1 (last_or y ys),
      create_thread_lem fuel p entry task w y ys h n t,
      enqueue_thread-append k2 p xs p0 m
          (subst (λ (s : Task). (s.level ≡ pos 0) ⊎ (s.level ≡ pos 1)) (sym tk) lv) l,
    )
