-- ===== src/Kernel/State.antt =====
-- The data that the kernel's components share: kernel/task/thread.h, kernel/task/task_struct.h,
-- kernel/intterup/init_int.h, and the file-level variables of task_manager.c and task_scheduler.c.
-- A `thread_info_struct *` or `task_struct *` is an address, and NULL is 0; the structs live in
-- stores, which are functions of the address.
use tay_huang_os.Prelude.{ℕ, Bool, ◌==◌, if◌then◌else◌}
use tay_huang_os.Prelude.Int.{ℤ}

-- The eighteen registers that open both `register_info_struct` and `struct intterup_args`.
pub record Basic : Type 0 where
  pub r15 : ℕ
  pub r14 : ℕ
  pub r13 : ℕ
  pub r12 : ℕ
  pub r11 : ℕ
  pub r10 : ℕ
  pub r9 : ℕ
  pub r8 : ℕ
  pub rdi : ℕ
  pub rsi : ℕ
  pub rdx : ℕ
  pub rcx : ℕ
  pub rbx : ℕ
  pub rax : ℕ
  pub gs : ℕ
  pub fs : ℕ
  pub es : ℕ
  pub ds : ℕ

-- `register_info_struct`: the saved context of a thread, its three parts flattened.
pub record Registers : Type 0 where
  pub basic : Basic
  pub rbp : ℕ
  pub rsp : ℕ
  pub ss : ℕ
  pub rip : ℕ
  pub cs : ℕ
  pub rflags : ℕ

-- `struct intterup_args`: what an interrupt pushes and the return from it pops.
pub record IntterupArgs : Type 0 where
  pub basic : Basic
  pub pgd : ℕ
  pub rbp : ℕ
  pub ist : ℕ
  pub rip : ℕ
  pub cs : ℕ
  pub rflags : ℕ
  pub rsp : ℕ
  pub ss : ℕ

pub data ThreadState : Type 0 where
  ready running subbmited waiting waiting_ipc terminated exception : ThreadState
  suspend waiting_suspend waiting_ipc_suspend : ThreadState

-- `thread_info_struct`.
pub record Thread : Type 0 where
  pub registers : Registers
  pub state : ThreadState
  pub next : ℕ
  pub last : ℕ
  pub free_next : ℕ
  pub task : ℕ
  pub count : ℤ
  pub priority : ℤ
  pub tid : ℕ

-- `ipc_info_struct`.
pub record IpcInfo : Type 0 where
  pub mail : ℕ
  pub lastest_msg : ℕ
  pub write_ptr : ℕ
  pub read_ptr : ℕ
  pub mail_size : ℕ
  pub used_size : ℕ
  pub allow_pid : ℤ
  pub msg_handler_thread : ℕ

-- The fields of `task_struct` that the modelled components read or write.
pub record Task : Type 0 where
  pub threads : ℕ
  pub pgd : ℕ
  pub ipc_info : IpcInfo
  pub last : ℕ
  pub next : ℕ
  pub pid : ℤ
  pub level : ℤ

-- The stores, and the variables `level0_list_head`, `level0_list_tail`, `level1_list_head`,
-- `level1_list_tail`, `task_list`, `empty_task`, `current_thread` and `do_schedule`.
pub record Kernel : Type 0 where
  pub thread : ℕ → Thread
  pub task : ℕ → Task
  pub level0_head : ℕ
  pub level0_tail : ℕ
  pub level1_head : ℕ
  pub level1_tail : ℕ
  pub task_list : ℕ
  pub empty_task : ℕ
  pub current_thread : ℕ
  pub do_schedule : Bool

abbrev pub null : ℕ
null = 0

-- A store with one struct written.
abbrev pub update {ℓ} : {A : Type ℓ} → (ℕ → A) → ℕ → A → ℕ → A
update f p v q = if p == q then v else f q

abbrev pub set_thread : Kernel → ℕ → Thread → Kernel
set_thread k p t = record k { thread = update k.thread p t }

abbrev pub set_task : Kernel → ℕ → Task → Kernel
set_task k p t = record k { task = update k.task p t }

-- `current_thread->task`.
abbrev pub current_task : Kernel → Task
current_task k = k.task (k.thread k.current_thread).task

-- `p->free_next = q`, `p->state = s`.
abbrev pub set_free_next : Kernel → ℕ → ℕ → Kernel
set_free_next k p q = set_thread k p (record (k.thread p) { free_next = q })

abbrev pub set_state : Kernel → ℕ → ThreadState → Kernel
set_state k p s = set_thread k p (record (k.thread p) { state = s })
