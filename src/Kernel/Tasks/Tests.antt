-- ===== src/Kernel/Tasks/Tests.antt =====
-- Runs of the task list of kernel/task/task_manager.c.
use tay_huang_os.Prelude.{some, [], ◌∷◌, ◌≡◌, refl, arith}
use tay_huang_os.Prelude.Int.{pos}
use tay_huang_os.Kernel.Samples.{two_ready}
use tay_huang_os.Kernel.Tasks.{get_task_by_pid}
use tay_huang_os.Kernel.Tasks.Chain.{IsTaskList, get_task_by_pid-first_with}

one_task-IsTaskList : IsTaskList (two_ready (pos 0)) (100 ∷ [])
one_task-IsTaskList = (refl, ground arith, refl)

get_task_by_pid-first_with_example : get_task_by_pid 2 (two_ready (pos 0)) (pos 6) ≡ some 0
get_task_by_pid-first_with_example =
    get_task_by_pid-first_with 2 (two_ready (pos 0)) (pos 6) (100 ∷ []) (omega arith)
      one_task-IsTaskList
