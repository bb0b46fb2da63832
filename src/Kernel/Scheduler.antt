-- ===== src/Kernel/Scheduler.antt =====
-- The scheduler (kernel/task/task_scheduler.c), `remove_thread` (kernel/task/thread.c) and the clock
-- interrupt (kernel/intterup/clock.c).
pub mod Context
pub mod Lists
pub mod Fifo
mod Tests
use mathlib.Core.Option
use tay_huang_os.Prelude.{
  ℕ, Bool, true, false, Option, none, some, not, ◌==◌, ◌||◌, if◌then◌else◌, ◌+◌, ◌%◌, ◌^◌,
}
use tay_huang_os.Prelude.Int.{ℤ, pos, negsuc, ==ℤ, leb_ℤ, ◌-ℤ◌, ◌*ℤ◌}
use tay_huang_os.Kernel.State.{
  ThreadState, ready, running, terminated, exception, Registers, IntterupArgs, Thread, Task, Kernel,
  null, set_thread, set_state, current_task,
}
use tay_huang_os.Kernel.Ready.{
  has_level0_thread, has_level1_thread, dequeue_level0_thread, dequeue_level1_thread,
  enqueue_thread,
}

abbrev pub is_running : ThreadState → Bool
is_running running = true
is_running _ = false

-- `state == TERMINATED || state == EXCEPTION`.
abbrev pub is_ended : ThreadState → Bool
is_ended terminated = true
is_ended exception = true
is_ended _ = false

start_schedule : Kernel → Kernel
start_schedule k = record k { do_schedule = true }

-- The next thread to run, and the state after it was taken off its list. `get_empty_task()` is read
-- as `empty_task`, whose first thread runs when no other is ready.
unfoldable pub get_next_run_thread : Kernel → Option (ℕ × Kernel)
unfolding has_level0_thread has_level1_thread
get_next_run_thread k =
    if has_level0_thread k
    then dequeue_level0_thread k
    else if has_level1_thread k
    then dequeue_level1_thread k
    else some ((k.task k.empty_task).threads, k)

unfoldable pub should_switch : Kernel → Bool
unfolding has_level0_thread
should_switch k =
    let thread = k.thread k.current_thread in
    let task = k.task thread.task in
    if not k.do_schedule
    then false
    else if ==ℤ task.pid (negsuc 0)
    then true
    else if ==ℤ task.level (pos 0)
    then not (is_running thread.state)
    else if ==ℤ task.level (pos 1)
    then has_level0_thread k || not (is_running thread.state) || leb_ℤ thread.count (pos 0)
    else true

-- `remove_thread` unlinks the thread from its task's list of threads. The struct that `kfree` gives
-- back keeps its contents until it is handed out again.
unfoldable pub remove_thread : Kernel → ℕ → Kernel
remove_thread k p =
    let last = (k.thread p).last in
    let k1 =
      if last == null
      then k
      else set_thread k last (record (k.thread last) { next = (k.thread p).next }) in
    let next = (k1.thread p).next in
    if next == null
    then k1
    else set_thread k1 next (record (k1.thread next) { last = (k1.thread p).last })

-- The `memcpy` of the basic registers and the six assignments.
abbrev pub save : IntterupArgs → Registers
save regs = record {
  basic = regs.basic;
  rbp = regs.rbp;
  rsp = regs.rsp;
  ss = regs.ss;
  rip = regs.rip;
  cs = regs.cs;
  rflags = regs.rflags;
}

unfoldable pub save_context : Kernel → IntterupArgs → Kernel
save_context k regs =
    let cur = k.current_thread in set_thread k cur (record (k.thread cur) { registers = save regs })

-- A preempted thread is ready again and goes to the end of its list; an ended one is removed.
unfoldable pub release_thread : Kernel → Kernel
release_thread k =
    let cur = k.current_thread in
    if is_running (k.thread cur).state
    then enqueue_thread (set_state k cur ready) cur
    else if is_ended (k.thread cur).state
    then remove_thread k cur
    else k

unfoldable pub down_thread : Kernel → IntterupArgs → Kernel
down_thread k regs = release_thread (save_context k regs)

unfoldable pub up_thread : Kernel → IntterupArgs → Kernel × IntterupArgs
up_thread k regs =
    let cur = k.current_thread in
    let saved = (k.thread cur).registers in
    (
      set_state k cur running,
      record regs {
        basic = saved.basic;
        rbp = saved.rbp;
        rsp = saved.rsp;
        ss = saved.ss;
        cs = saved.cs;
        rip = saved.rip;
        rflags = saved.rflags;
        pgd = (current_task k).pgd;
      },
    )

-- The time slice of a level 1 thread: `count = priority * 3`.
unfoldable pub refill : Kernel → Kernel
refill k =
    let cur = k.current_thread in
    if ==ℤ (current_task k).level (pos 1)
    then set_thread k cur (record (k.thread cur) { count = (k.thread cur).priority *ℤ pos 3 })
    else k

-- The second half of `do_switch`: `next` is put on the processor.
unfoldable pub run_thread : IntterupArgs → ℕ × Kernel → Kernel × IntterupArgs
run_thread regs (next, k) =
    let (k1, regs') = up_thread (record k { current_thread = next }) regs in (refill k1, regs')

-- `none` is a read through null, in `dequeue_level0_thread` or `dequeue_level1_thread`.
unfoldable pub do_switch : Kernel → IntterupArgs → Option (Kernel × IntterupArgs)
do_switch k regs = Option.map (run_thread regs) (get_next_run_thread (down_thread k regs))

unfoldable pub after_syscall : Kernel → IntterupArgs → Option (Kernel × IntterupArgs)
after_syscall k regs = if should_switch k then do_switch k regs else some (k, regs)

-- `clock_int_handler`, with `ticks` before and after as a 32-bit word.
clock_int_handler : ℕ → Kernel → IntterupArgs → Option (ℕ × Kernel × IntterupArgs)
clock_int_handler ticks k regs =
    let ticks' = (ticks + 1) % 2 ^ 32 in
    if k.do_schedule
    then elim (after_syscall k regs) [
      | none ↦ none
      | some (k1, regs') ↦
          let cur = k1.current_thread in
          if ==ℤ (current_task k1).level (pos 1)
          then some (
            ticks',
            set_thread k1 cur (record (k1.thread cur) { count = (k1.thread cur).count -ℤ pos 1 }),
            regs',
          )
          else some (ticks', k1, regs')
    ]
    else some (ticks', k, regs)
