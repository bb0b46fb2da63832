-- ===== src/Kernel/Tasks.antt =====
-- The list of tasks (kernel/task/task_manager.c), linked through `next` and `last`.
pub mod Chain
mod Tests
use tay_huang_os.Prelude.{ℕ, zero, suc, Option, none, some, ◌==◌, if◌then◌else◌}
use tay_huang_os.Prelude.Int.{ℤ, ==ℤ}
use tay_huang_os.Kernel.State.{Kernel, null, set_task}

-- The walk from `task` on; `none` when the fuel runs out.
unfoldable pub walk : ℕ → Kernel → ℤ → ℕ → Option ℕ
walk zero k pid task = none
walk (suc fuel) k pid task =
    let rest = walk fuel k pid (k.task task).next in
    if task == null then some null else if ==ℤ (k.task task).pid pid then some task else rest

-- `get_task_by_pid`: the address of the first task with the pid, or NULL.
unfoldable pub get_task_by_pid : ℕ → Kernel → ℤ → Option ℕ
get_task_by_pid fuel k pid = walk fuel k pid k.task_list

unfoldable pub add_task : ℕ → Kernel → Kernel
add_task task k =
    let k1 = set_task k task (record (k.task task) { next = k.task_list; last = null }) in
    let k2 =
      if k1.task_list == null
      then k1
      else set_task k1 k1.task_list (record (k1.task k1.task_list) { last = task }) in
    record k2 { task_list = task }

-- `remove_task`; the struct that `kfree` gives back keeps its contents until it is handed out again.
unfoldable pub remove_task : ℕ → Kernel → Kernel
remove_task task k =
    let next = (k.task task).next in
    let k1 =
      if next == null
      then k
      else set_task k next (record (k.task next) { last = (k.task task).last }) in
    let last = (k1.task task).last in
    if last == null
    then record k1 { task_list = (k1.task task).next }
    else set_task k1 last (record (k1.task last) { next = (k1.task task).next })
