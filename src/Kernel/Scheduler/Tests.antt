-- ===== src/Kernel/Scheduler/Tests.antt =====
-- Runs of the switch of kernel/task/task_scheduler.c.
use tay_huang_os.Prelude.{ℕ, ◌+◌, ◌≡◌, ◌≢◌, refl, some, [], ◌∷◌, arith, inl}
use tay_huang_os.Prelude.Int.{pos}
use tay_huang_os.Kernel.State.{running, IntterupArgs, Kernel}
use tay_huang_os.Kernel.Samples.{two_ready, interrupted, context}
use tay_huang_os.Kernel.Ready.Queue.{Level0}
use tay_huang_os.Kernel.Scheduler.{save, do_switch}
use tay_huang_os.Kernel.Scheduler.Context.{do_switch_contexts}
use tay_huang_os.Kernel.Scheduler.Fifo.{Runs, do_switch_fifo}

abbrev start : Kernel
start = two_ready (pos 0)

start-Runs : Runs start (1 ∷ 2 ∷ [])
start-Runs = record {
  level0 = record {
    chain = (refl, ground arith, (refl, ground arith, refl));
    tail_last = refl;
    distinct = ((ground arith, tt), (tt, tt));
  };
  level1 = refl;
  not_null = ground arith;
  not_ready = ground arith;
}

-- Thread 1 runs next, and the list is 2, 3.
do_switch_fifo_example :
    (r : Kernel × IntterupArgs) × (do_switch start (interrupted 77) ≡ some r)
    × (r.0.current_thread ≡ 1)
    × Level0 r.0 (2 ∷ 3 ∷ [])
do_switch_fifo_example = do_switch_fifo start (interrupted 77) (1 ∷ 2 ∷ []) start-Runs (inl refl)

switched :
    (r : Kernel × IntterupArgs) × (do_switch start (interrupted 77) ≡ some r)
    × (r.0.current_thread ≡ 1)
    × Level0 r.0 (2 ∷ 3 ∷ [])
switched = do_switch_fifo start (interrupted 77) (1 ∷ 2 ∷ []) start-Runs (inl refl)

do_switch_contexts_example :
    let r = switched.0 in
    ((r.0.thread 3).registers ≡ save (interrupted 77))
    × ((p : ℕ) → 3 ≢ p → (r.0.thread p).registers ≡ context (p + 1000))
    × (save r.1 ≡ (r.0.thread r.0.current_thread).registers)
    × ((r.0.thread r.0.current_thread).state ≡ running)
do_switch_contexts_example = do_switch_contexts start (interrupted 77) switched.0 switched.1
