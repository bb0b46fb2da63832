-- ===== src/Kernel/Threads.antt =====
-- Creation and lookup of threads (kernel/task/thread.c, and the two system calls about threads of
-- kernel/syscall/syscalls.c). The threads of a task are linked through `next` and `last`.
pub mod Chain
pub mod Create
pub mod Stacks
mod Tests
use tay_huang_os.Prelude.{
  ℕ, zero, suc, Bool, Option, none, some, List, [], ◌∷◌, ◌+◌, ◌-◌, ◌/◌, ◌%◌, ◌^◌, ◌==◌,
  if◌then◌else◌,
}
use mathlib.Core.Option
use tay_huang_os.Prelude.Int.{ℤ, pos, ◌*ℤ◌}
use tay_huang_os.Kernel.State.{
  Basic, subbmited, terminated, Thread, Kernel, null, update, set_thread, set_state,
}
use tay_huang_os.Kernel.Ready.{enqueue_thread}
use tay_huang_os.Kernel.Pmm.{memunit_sz}

-- The fields of `task_struct` that only the creation of threads reads or writes.
pub record TaskInfo : Type 0 where
  pub stack_bottom : ℕ
  pub cur_tid : ℕ
  pub cs : ℕ
  pub ds : ℕ
  pub rflags : ℕ
  pub priority : ℤ
  pub kernel_task : Bool

-- A call `alloc_vpages(pgd, bottom, pages)`.
pub record StackPages : Type 0 where
  pub pgd : ℕ
  pub bottom : ℕ
  pub pages : ℕ

-- The kernel's state, those fields of each task, and the calls of `alloc_vpages`, the last one first.
pub record Machine : Type 0 where
  pub kernel : Kernel
  pub info : ℕ → TaskInfo
  pub stacks : List StackPages

abbrev pub thread_stack_size : ℕ
thread_stack_size = 8388608

abbrev pub thread_init_stack_size : ℕ
thread_init_stack_size = 65536

abbrev pub kernel_task_stack_size : ℕ
kernel_task_stack_size = 32768

-- A pointer moved down by `n` bytes.
abbrev pub lowered : ℕ → ℕ → ℕ
lowered p n = (p + (2 ^ 64 - n)) % 2 ^ 64

-- `memset` with 0, and then the four data segments.
abbrev pub fresh_basic : ℕ → Basic
fresh_basic ds = record {
  r15 = 0;
  r14 = 0;
  r13 = 0;
  r12 = 0;
  r11 = 0;
  r10 = 0;
  r9 = 0;
  r8 = 0;
  rdi = 0;
  rsi = 0;
  rdx = 0;
  rcx = 0;
  rbx = 0;
  rax = 0;
  gs = ds;
  fs = ds;
  es = ds;
  ds = ds;
}

-- `create_thread_info`, at the address `p` that `kmalloc` gave.
unfoldable pub create_thread_info : ℕ → ℕ → ℕ → ℕ → ℕ → ℕ → ℕ → ℤ → ℕ → Machine → Machine
create_thread_info p ds stack_top stack_bottom entry cs rflags priority task w =
    let info = w.info task in
    let thread : Thread = record {
      registers = record {
        basic = fresh_basic ds;
        rbp = stack_bottom;
        rsp = stack_top;
        ss = ds;
        rip = entry;
        cs = cs;
        rflags = rflags;
      };
      state = subbmited;
      next = null;
      last = null;
      free_next = null;
      task = task;
      count = priority *ℤ pos 3;
      priority = priority;
      tid = info.cur_tid;
    } in
    record w {
      kernel = set_thread w.kernel p thread;
      info = update w.info task (record info { cur_tid = info.cur_tid + 1 });
    }

-- The loop to the end of the list, from a thread that is not NULL; `none` when the fuel runs out.
unfoldable pub last_thread : ℕ → Kernel → ℕ → Option ℕ
last_thread zero k parent = none
last_thread (suc fuel) k parent =
    let next = (k.thread parent).next in
    let rest = last_thread fuel k next in if next == null then some parent else rest

-- `parent->next = thread`, `thread->last = parent`.
abbrev pub link_thread : Kernel → ℕ → ℕ → Kernel
link_thread k parent thread =
    let k1 = set_thread k parent (record (k.thread parent) { next = thread }) in
    set_thread k1 thread (record (k1.thread thread) { last = parent })

-- `__create_thread__` up to the walk: the new struct, and the stack that is asked for.
unfoldable pub prepare : ℕ → ℕ → ℕ → Machine → Machine
unfolding create_thread_info
prepare p entry task w =
    let info = w.info task in
    let stack_top = info.stack_bottom in
    let stack_size = if info.kernel_task then kernel_task_stack_size else thread_stack_size in
    let stack_bottom = lowered stack_top stack_size in
    let w1 = record w { info = update w.info task (record info { stack_bottom = stack_bottom }) } in
    let w2 =
      create_thread_info p info.ds stack_top stack_bottom entry info.cs info.rflags info.priority
        task w1 in
    if info.kernel_task then w2 else record w2 {
      stacks =
          record {
            pgd = (w.kernel.task task).pgd;
            bottom = lowered stack_top thread_init_stack_size;
            pages = thread_init_stack_size / memunit_sz;
          }
          ∷ w.stacks;
    }

-- The end of `__create_thread__`: `thread` behind the last thread, and in a ready list.
abbrev pub attach : ℕ → Machine → ℕ → Machine
attach thread w parent = record w {
  kernel = enqueue_thread (link_thread w.kernel parent thread) thread;
}

-- `__create_thread__`; a task without any thread is a read through NULL.
unfoldable pub create_thread : ℕ → ℕ → ℕ → ℕ → Machine → Option Machine
unfolding prepare last_thread
create_thread fuel p entry task w =
    let w1 = prepare p entry task w in
    let first = (w1.kernel.task task).threads in
    if first == null then none else Option.map (attach p w1) (last_thread fuel w1.kernel first)

abbrev pub set_rdi : ℕ → ℕ → Kernel → Kernel
set_rdi p args k =
    let regs = (k.thread p).registers in
    set_thread k p
      (record (k.thread p) { registers = record regs { basic = record regs.basic { rdi = args } } })

-- `__create_thread`, the system call: a thread of the current task, its id, and `args` in its `rdi`.
unfoldable pub spawn : ℕ → ℕ → ℕ → ℕ → Machine → Option (ℕ × Machine)
unfolding create_thread
spawn fuel p entry args w =
    elim (create_thread fuel p entry (w.kernel.thread w.kernel.current_thread).task w) [
      | none ↦ none
      | some w1 ↦ some ((w1.kernel.thread p).tid, record w1 { kernel = set_rdi p args w1.kernel })
    ]

-- `__exit_thread`; the switch that follows takes the thread out.
unfoldable pub exit_thread : Kernel → Kernel
exit_thread k = set_state k k.current_thread terminated

-- The loop of `get_thread_by_tid`; `none` when the fuel runs out.
unfoldable pub walk_threads : ℕ → Kernel → ℕ → ℕ → Option ℕ
walk_threads zero k tid thread = none
walk_threads (suc fuel) k tid thread =
    let rest = walk_threads fuel k tid (k.thread thread).next in
    if thread == null then some null else if (k.thread thread).tid == tid then some thread else rest

unfoldable pub get_thread_by_tid : ℕ → ℕ → ℕ → Kernel → Option ℕ
unfolding walk_threads
get_thread_by_tid fuel tid task k = walk_threads fuel k tid (k.task task).threads
