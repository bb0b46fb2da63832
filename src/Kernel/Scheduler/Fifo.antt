-- ===== src/Kernel/Scheduler/Fifo.antt =====
-- The order in which do_switch of kernel/task/task_scheduler.c serves the level 0 list.
use tay_huang_os.Prelude.{
  ℕ, ◌≡◌, ◌≢◌, refl, ap, true, false, some, List, [], ◌∷◌, ◌++◌, arith, ◌⊎◌, inl, inr, ◌==◌, ◌∙◌,
  subst, Bool-cases, if◌then◌else◌,
}
use tay_huang_os.Prelude.Int.{pos}
use tay_huang_os.Kernel.State.{ready, running, IntterupArgs, Kernel, set_state}
use tay_huang_os.Kernel.Ready.{enqueue_thread, enqueue_level0_thread}
use tay_huang_os.Kernel.Ready.Chain.{NotIn, IsQueue-ext}
use tay_huang_os.Kernel.Ready.Queue.{
  Level0, free_nexts, enqueue_thread-append, enqueue_thread-level1, dequeue_level0_thread-cons,
}
use tay_huang_os.Kernel.Scheduler.{
  is_running, is_ended, save_context, release_thread, run_thread, remove_thread,
  get_next_run_thread, down_thread, up_thread, refill, do_switch,
}
use tay_huang_os.Kernel.Scheduler.Lists.{
  free_nexts-set_state, heads-remove_thread, Level0-same, Level0-remove_thread, Level0-save_context,
}

-- What the switch starts from: the level 0 list holds `xs`, the level 1 list is empty, and the
-- current thread is in neither.
pub record Runs (k : Kernel) (xs : List ℕ) : Type 0 where
  pub level0 : Level0 k xs
  pub level1 : k.level1_head ≡ 0
  pub not_null : k.current_thread ≢ 0
  pub not_ready : NotIn k.current_thread xs

-- The current thread is scheduled at one of the two levels.
abbrev pub Scheduled : Kernel → Type 0
Scheduled k =
    let level = (k.task (k.thread k.current_thread).task).level in (level ≡ pos 0) ⊎ (level ≡ pos 1)

-- The level 0 list from which the next thread is taken.
abbrev pub candidates : Kernel → List ℕ → List ℕ
candidates k xs =
    if is_running (k.thread k.current_thread).state then xs ++ k.current_thread ∷ [] else xs

-- The first candidate, or the empty task's thread.
abbrev pub first_of_candidates : ℕ → List ℕ → ℕ
first_of_candidates d [] = d
first_of_candidates d (x ∷ xs) = x

abbrev pub rest : List ℕ → List ℕ
rest [] = []
rest (x ∷ xs) = xs

task_of_set_state :
    (k : Kernel)
    → ((set_state k k.current_thread ready).thread k.current_thread).task
      ≡ (k.thread k.current_thread).task
task_of_set_state k = ground arith

-- After the interrupted thread was let go, the level 0 list holds the candidates in order.
release_thread-candidates :
    (k : Kernel) (xs : List ℕ)
    → Runs k xs
    → Scheduled k
    → Level0 (release_thread k) (candidates k xs) × ((release_thread k).level1_head ≡ 0)
unfolding release_thread
release_thread-candidates k xs r s =
    let cur = k.current_thread in
    let k1 = set_state k cur ready in
    let q1 : Level0 k1 xs = IsQueue-ext _ _ (free_nexts-set_state k cur) r.level0 in
    elim (Bool-cases (is_running (k.thread cur).state)) [
      | inl run ↦ rw run (
        enqueue_thread-append k1 cur xs r.not_null r.not_ready (rw (task_of_set_state k) s) q1,
        (enqueue_thread-level1 k1 cur).0 ∙ r.level1,
      )
      | inr stop ↦ elim (Bool-cases (is_ended (k.thread cur).state)) [
        | inl ended ↦
            rw (stop, ended)
              (Level0-remove_thread k cur xs r.level0, (heads-remove_thread k cur).2 ∙ r.level1)
        | inr blocked ↦ rw (stop, blocked) (r.level0, r.level1)
      ]
    ]

-- Taking the next thread.
get_next_run_thread-first :
    (k : Kernel) (ys : List ℕ)
    → Level0 k ys
    → k.level1_head ≡ 0
    → (k' : Kernel) × (get_next_run_thread k
        ≡ some (first_of_candidates (k.task k.empty_task).threads ys, k'))
      × Level0 k' (rest ys)
unfolding get_next_run_thread
get_next_run_thread-first k [] q h =
    let e0 : (k.level0_head == 0) ≡ true = ground (arith, q.chain) in
    let e1 : (k.level1_head == 0) ≡ true = ground arith in (k, rw (e0, e1), q)
get_next_run_thread-first k (x ∷ ys) q h =
    let e0 : (k.level0_head == 0) ≡ false = ground (arith, q.chain) in
    rw e0 (dequeue_level0_thread-cons k x ys q)

save_context-fields :
    (k : Kernel) (regs : IntterupArgs)
    → let k1 = save_context k regs in
      (k1.level0_head ≡ k.level0_head)
      × (k1.level1_head ≡ k.level1_head)
      × (k1.current_thread ≡ k.current_thread)
      × (k1.empty_task ≡ k.empty_task)
      × ((k1.thread k.current_thread).state ≡ (k.thread k.current_thread).state)
      × ((k1.thread k.current_thread).task ≡ (k.thread k.current_thread).task)
unfolding save_context
save_context-fields k regs = ground arith

Runs-save_context :
    (k : Kernel) (regs : IntterupArgs) (xs : List ℕ) → Runs k xs → Runs (save_context k regs) xs
unfolding save_context
Runs-save_context k regs xs r = record {
  level0 = Level0-save_context k regs xs r.level0;
  level1 = r.level1;
  not_null = r.not_null;
  not_ready = r.not_ready;
}

Scheduled-save_context :
    (k : Kernel) (regs : IntterupArgs) → Scheduled k → Scheduled (save_context k regs)
unfolding save_context
Scheduled-save_context k regs s = ground arith

candidates-save_context :
    (k : Kernel) (regs : IntterupArgs) (xs : List ℕ)
    → candidates (save_context k regs) xs ≡ candidates k xs
unfolding save_context
candidates-save_context k regs xs =
    ap (λ s. if is_running s then xs ++ k.current_thread ∷ [] else xs)
      (save_context-fields k regs).4

free_nexts-refill : (k : Kernel) (q : ℕ) → free_nexts k q ≡ free_nexts (refill k) q
unfolding refill
free_nexts-refill k q = ground arith

heads-refill :
    (k : Kernel)
    → ((refill k).level0_head ≡ k.level0_head)
      × ((refill k).level0_tail ≡ k.level0_tail)
      × ((refill k).current_thread ≡ k.current_thread)
unfolding refill
heads-refill k = ground arith

-- Writing the state and the time slice of the thread that runs next leaves the lists alone.
run_thread-lists :
    (k : Kernel) (x : ℕ) (regs : IntterupArgs) (ys : List ℕ)
    → Level0 k ys
    → Level0 (run_thread regs (x, k)).0 ys × ((run_thread regs (x, k)).0.current_thread ≡ x)
unfolding run_thread up_thread
run_thread-lists k x regs ys q =
    let k1 = set_state (record k { current_thread = x }) x running in
    (
      Level0-same k1 (refill k1) ys (free_nexts-refill k1) (heads-refill k1).0 (heads-refill k1).1
          (Level0-same k k1 ys (λ p. ground arith) refl refl q),
      (heads-refill k1).2,
    )

-- The thread of the empty task.
abbrev pub idle : Kernel → ℕ
idle k = (k.task k.empty_task).threads

idle-release_thread : (k : Kernel) → idle (release_thread k) ≡ idle k
unfolding release_thread enqueue_thread enqueue_level0_thread remove_thread
idle-release_thread k = ground arith

idle-save_context : (k : Kernel) (regs : IntterupArgs) → idle (save_context k regs) ≡ idle k
unfolding save_context
idle-save_context k regs = refl

-- With the level 1 list empty, a current thread that is in no list, and its task of level 0 or 1 (which
-- the empty task, of level -1, is not), a switch is never a fault. The candidates are the level 0 list,
-- behind it the current thread if it was still running. The first of them runs next, or the empty
-- task's thread if there is none, and the rest stays in order.
pub do_switch_fifo :
    (k : Kernel) (regs : IntterupArgs) (xs : List ℕ)
    → Runs k xs
    → Scheduled k
    → (r : Kernel × IntterupArgs) × (do_switch k regs ≡ some r)
      × (r.0.current_thread ≡ first_of_candidates (idle k) (candidates k xs))
      × Level0 r.0 (rest (candidates k xs))
unfolding do_switch down_thread
do_switch_fifo k regs xs r s =
    let k0 = save_context k regs in
    let (q, h) =
      release_thread-candidates k0 xs (Runs-save_context k regs xs r)
        (Scheduled-save_context k regs s) in
    let (k', e, q') = get_next_run_thread-first (release_thread k0) (candidates k0 xs) q h in
    let x = first_of_candidates (idle (release_thread k0)) (candidates k0 xs) in
    let (l, c) = run_thread-lists k' x regs (rest (candidates k0 xs)) q' in
    (
      run_thread regs (x, k'),
      rw e,
      c
          ∙ ap (λ d. first_of_candidates d (candidates k0 xs))
              (idle-release_thread k0 ∙ idle-save_context k regs)
          ∙ ap (first_of_candidates (idle k)) (candidates-save_context k regs xs),
      subst (λ ys. Level0 (run_thread regs (x, k')).0 (rest ys)) (candidates-save_context k regs xs)
          l,
    )
