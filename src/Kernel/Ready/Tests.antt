-- ===== src/Kernel/Ready/Tests.antt =====
-- Runs of the ready lists of kernel/task/task_manager.c.
use tay_huang_os.Prelude.{ℕ, ◌≡◌, refl, List, [], ◌∷◌, arith}
use tay_huang_os.Prelude.Int.{pos}
use tay_huang_os.Kernel.Samples.{two_ready, two_ready_level1}
use tay_huang_os.Kernel.Ready.{enqueue_level0_thread}
use tay_huang_os.Kernel.Ready.Chain.{NotIn}
use tay_huang_os.Kernel.Ready.Queue.{Level0, Level1}

abbrev waits : List ℕ
waits = 1 ∷ 2 ∷ []

three_fresh : NotIn 3 waits
three_fresh = ground arith

two_ready-Level0 : Level0 (two_ready (pos 0)) waits
two_ready-Level0 = record {
  chain = (refl, ground arith, (refl, ground arith, refl));
  tail_last = refl;
  distinct = ((ground arith, tt), (tt, tt));
}

two_ready-Level1 : Level1 (two_ready_level1 (pos 0)) waits
two_ready-Level1 = record {
  chain = (refl, ground arith, (refl, ground arith, refl));
  tail_last = refl;
  distinct = ((ground arith, tt), (tt, tt));
}

enqueued_behind : ((enqueue_level0_thread (two_ready (pos 0)) 3).thread 2).free_next ≡ 3
unfolding enqueue_level0_thread
enqueued_behind = refl
