-- ===== src/Kernel/Ready.antt =====
-- The two lists of threads that wait for the processor (kernel/task/task_manager.c).
-- They run through the `free_next` field of the threads themselves.
pub mod Chain
pub mod Queue
mod Tests
use tay_huang_os.Prelude.{ℕ, Bool, Option, none, some, not, ◌==◌, if◌then◌else◌}
use tay_huang_os.Prelude.Int.{ℤ, pos, ==ℤ}
use tay_huang_os.Kernel.State.{Kernel, null, set_free_next}

-- `none` is the read of `free_next` through a null head.
unfoldable pub dequeue_level0_thread : Kernel → Option (ℕ × Kernel)
dequeue_level0_thread k =
    let thread = k.level0_head in
    let head = (k.thread thread).free_next in
    let k1 = record k {
      level0_head = head;
      level0_tail = if head == null then null else k.level0_tail;
    } in
    if thread == null then none else some (thread, set_free_next k1 thread null)

unfoldable pub dequeue_level1_thread : Kernel → Option (ℕ × Kernel)
dequeue_level1_thread k =
    let thread = k.level1_head in
    let head = (k.thread thread).free_next in
    let k1 = record k {
      level1_head = head;
      level1_tail = if head == null then null else k.level1_tail;
    } in
    if thread == null then none else some (thread, set_free_next k1 thread null)

unfoldable pub has_level0_thread : Kernel → Bool
has_level0_thread k = not (k.level0_head == null)

unfoldable pub has_level1_thread : Kernel → Bool
has_level1_thread k = not (k.level1_head == null)

unfoldable pub enqueue_level0_thread : Kernel → ℕ → Kernel
enqueue_level0_thread k thread =
    let k1 = set_free_next k thread null in
    if k1.level0_tail == null
    then record k1 { level0_tail = thread; level0_head = thread }
    else record (set_free_next k1 k1.level0_tail thread) { level0_tail = thread }

unfoldable pub enqueue_level1_thread : Kernel → ℕ → Kernel
enqueue_level1_thread k thread =
    let k1 = set_free_next k thread null in
    if k1.level1_tail == null
    then record k1 { level1_tail = thread; level1_head = thread }
    else record (set_free_next k1 k1.level1_tail thread) { level1_tail = thread }

-- Both branches call `enqueue_level0_thread`, as the code does.
unfoldable pub enqueue_thread : Kernel → ℕ → Kernel
enqueue_thread k thread =
    let level = (k.task (k.thread thread).task).level in
    if ==ℤ level (pos 0)
    then enqueue_level0_thread k thread
    else if ==ℤ level (pos 1)
    then enqueue_level0_thread k thread
    else k
