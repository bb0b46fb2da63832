-- ===== src/Kernel/Threads/Tests.antt =====
-- Runs of the creation and the lookup of threads (kernel/task/thread.c), on a task at 100 with the one
-- thread 3; the new thread is at address 7.
use tay_huang_os.Prelude.{ℕ, false, Option, none, some, List, [], ◌∷◌, ◌+◌, ◌≡◌, refl, arith}
use tay_huang_os.Prelude.Int.{pos}
use tay_huang_os.Kernel.State.{terminated}
use tay_huang_os.Kernel.Samples.{tasks, two_ready}
use tay_huang_os.Kernel.Ready.{enqueue_thread, enqueue_level0_thread}
use tay_huang_os.Kernel.Ready.Queue.{Level0}
use tay_huang_os.Kernel.Threads.{
  Machine, create_thread, create_thread_info, prepare, last_thread, spawn, exit_thread,
  get_thread_by_tid, walk_threads, thread_stack_size,
}
use tay_huang_os.Kernel.Threads.Chain.{IsThreads}
use tay_huang_os.Kernel.Threads.Create.{create_thread-IsThreads}
use tay_huang_os.Kernel.Threads.Stacks.{IsStacked, first_pages, create_thread-IsStacked}

abbrev one_thread : Machine
one_thread = record {
  kernel = record (two_ready (pos 0)) { task = λ p. record (tasks (pos 0) p) { threads = 3 } };
  info = λ p. record {
    stack_bottom = 16777216;
    cur_tid = 4;
    cs = 43;
    ds = 35;
    rflags = 514;
    priority = pos 1;
    kernel_task = false;
  };
  stacks = [];
}

one_thread-IsThreads : IsThreads one_thread 100 (3 ∷ [])
one_thread-IsThreads = record {
  chain = (refl, ground arith, refl);
  distinct = (tt, tt);
  unique = (tt, tt);
  below = (omega arith, tt);
}

-- The new thread gets the id 4 and its argument, and is linked behind thread 3.
abbrev facts : Option (ℕ × Machine) → List ℕ
facts none = []
facts (some (tid, w)) =
    tid
    ∷ (w.kernel.thread 7).last
    ∷ (w.kernel.thread 3).next
    ∷ (w.kernel.thread 2).free_next
    ∷ (w.kernel.thread 7).registers.basic.rdi
    ∷ (w.kernel.thread 7).registers.rsp
    ∷ (w.kernel.thread 7).registers.rbp
    ∷ (w.info 100).cur_tid
    ∷ []

spawn_runs : facts (spawn 2 7 1000 77 one_thread) ≡ 4 ∷ 3 ∷ 7 ∷ 7 ∷ 77 ∷ 16777216 ∷ 8388608 ∷ 5 ∷ []
unfolding spawn create_thread prepare create_thread_info last_thread enqueue_thread
    enqueue_level0_thread
spawn_runs = refl

exit_thread_runs : ((exit_thread one_thread.kernel).thread 3).state ≡ terminated
unfolding exit_thread
exit_thread_runs = refl

get_thread_by_tid_misses : get_thread_by_tid 2 5 100 one_thread.kernel ≡ some 0
unfolding get_thread_by_tid walk_threads
get_thread_by_tid_misses = refl

create_thread-IsThreads_example :
    (w' : Machine) × (create_thread 1 7 1000 100 one_thread ≡ some w')
    × IsThreads w' 100 (3 ∷ 7 ∷ [])
create_thread-IsThreads_example =
    create_thread-IsThreads 1 7 1000 100 one_thread 3 [] (omega arith) (ground arith) (ground arith)
      one_thread-IsThreads

one_thread-Level0 : Level0 one_thread.kernel (1 ∷ 2 ∷ [])
one_thread-Level0 = record {
  chain = (refl, ground arith, (refl, ground arith, refl));
  tail_last = refl;
  distinct = ground arith;
}

create_thread-IsStacked_example :
    (w' : Machine) × (create_thread 1 7 1000 100 one_thread ≡ some w')
    × IsStacked w' 100
    × (w'.stacks ≡ first_pages one_thread 100 ∷ [])
    × ((w'.info 100).stack_bottom + thread_stack_size ≡ 16777216)
create_thread-IsStacked_example =
    create_thread-IsStacked 1 7 1000 100 one_thread 3 [] (omega arith) (ground arith)
      one_thread-IsThreads refl (ground arith) (ground arith) (tt, tt)
