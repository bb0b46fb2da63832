-- ===== src/Kernel/Scheduler/Lists.antt =====
-- What the parts of do_switch (kernel/task/task_scheduler.c) do to the ready lists.
use tay_huang_os.Prelude.{ℕ, ◌≡◌, sym, List, arith, ◌∙◌, subst}
use tay_huang_os.Kernel.State.{ready, IntterupArgs, Kernel, set_state}
use tay_huang_os.Kernel.Ready.Chain.{Chain, Chain-ext, IsQueue-ext}
use tay_huang_os.Kernel.Ready.Queue.{Level0, free_nexts}
use tay_huang_os.Kernel.Scheduler.{save_context, remove_thread}

-- Writes that keep every `free_next` and the two heads keep what `Runs` says of the lists.
free_nexts-save_context :
    (k : Kernel) (regs : IntterupArgs) (q : ℕ) → free_nexts k q ≡ free_nexts (save_context k regs) q
unfolding save_context
free_nexts-save_context k regs q = ground arith

free_nexts-remove_thread :
    (k : Kernel) (x q : ℕ) → free_nexts k q ≡ free_nexts (remove_thread k x) q
unfolding remove_thread
free_nexts-remove_thread k x q = ground arith

pub free_nexts-set_state :
    (k : Kernel) (x q : ℕ) → free_nexts k q ≡ free_nexts (set_state k x ready) q
free_nexts-set_state k x q = ground arith

pub heads-remove_thread :
    (k : Kernel) (x : ℕ)
    → ((remove_thread k x).level0_head ≡ k.level0_head)
      × ((remove_thread k x).level0_tail ≡ k.level0_tail)
      × ((remove_thread k x).level1_head ≡ k.level1_head)
      × ((remove_thread k x).task ≡ k.task)
      × ((remove_thread k x).empty_task ≡ k.empty_task)
unfolding remove_thread
heads-remove_thread k x = ground arith

pub Level0-same :
    (k k' : Kernel) (xs : List ℕ)
    → ((q : ℕ) → free_nexts k q ≡ free_nexts k' q)
    → k'.level0_head ≡ k.level0_head
    → k'.level0_tail ≡ k.level0_tail
    → Level0 k xs
    → Level0 k' xs
Level0-same k k' xs f h t q = record {
  chain =
      subst (λ p. Chain (free_nexts k') p xs) (sym h)
        (Chain-ext (free_nexts k) (free_nexts k') f k.level0_head xs q.chain);
  tail_last = t ∙ q.tail_last;
  distinct = q.distinct;
}

pub Level0-remove_thread :
    (k : Kernel) (x : ℕ) (xs : List ℕ) → Level0 k xs → Level0 (remove_thread k x) xs
Level0-remove_thread k x xs q =
    Level0-same k (remove_thread k x) xs (free_nexts-remove_thread k x) (heads-remove_thread k x).0
      (heads-remove_thread k x).1 q

pub Level0-save_context :
    (k : Kernel) (regs : IntterupArgs) (xs : List ℕ) → Level0 k xs → Level0 (save_context k regs) xs
unfolding save_context
Level0-save_context k regs xs q = IsQueue-ext _ _ (free_nexts-save_context k regs) q
