-- ===== src/Kernel/Samples.antt =====
-- Small concrete states on which the components' tests run: threads 1 and 2 wait in the level 0 list,
-- thread 3 runs, and all of them belong to the task at address 100.
use tay_huang_os.Prelude.{ℕ, true, ◌+◌, ◌==◌, if◌then◌else◌}
use tay_huang_os.Prelude.Int.{ℤ, pos, negsuc}
use tay_huang_os.Kernel.State.{
  Basic, Registers, IntterupArgs, ready, running, Thread, IpcInfo, Task, Kernel,
}

abbrev pub blank : Basic
blank = record {
  r15 = 0;
  r14 = 0;
  r13 = 0;
  r12 = 0;
  r11 = 0;
  r10 = 0;
  r9 = 0;
  r8 = 0;
  rdi = 0;
  rsi = 0;
  rdx = 0;
  rcx = 0;
  rbx = 0;
  rax = 0;
  gs = 0;
  fs = 0;
  es = 0;
  ds = 0;
}

-- A context that stands at the instruction `rip`.
abbrev pub context : ℕ → Registers
context rip = record { basic = blank; rbp = 0; rsp = 0; ss = 0; rip = rip; cs = 8; rflags = 514 }

abbrev pub interrupted : ℕ → IntterupArgs
interrupted rip = record {
  basic = blank;
  pgd = 4096;
  rbp = 0;
  ist = 0;
  rip = rip;
  cs = 8;
  rflags = 514;
  rsp = 0;
  ss = 0;
}

abbrev pub threads : ℕ → Thread
threads p = record {
  registers = context (p + 1000);
  state = if p == 3 then running else ready;
  next = 0;
  last = 0;
  free_next = if p == 1 then 2 else 0;
  task = 100;
  count = pos 3;
  priority = pos 1;
  tid = p;
}

-- A mailbox of 32 bytes at address 64 that holds nothing, written and read up to address 80.
abbrev pub empty_mail : IpcInfo
empty_mail = record {
  mail = 64;
  lastest_msg = 0;
  write_ptr = 80;
  read_ptr = 80;
  mail_size = 32;
  used_size = 0;
  allow_pid = negsuc 0;
  msg_handler_thread = 3;
}

abbrev pub tasks : ℤ → ℕ → Task
tasks level p = record {
  threads = 9;
  pgd = 4096;
  ipc_info = empty_mail;
  last = 0;
  next = 0;
  pid = pos 5;
  level = level;
}

abbrev pub two_ready : ℤ → Kernel
two_ready level = record {
  thread = threads;
  task = tasks level;
  level0_head = 1;
  level0_tail = 2;
  level1_head = 0;
  level1_tail = 0;
  task_list = 100;
  empty_task = 200;
  current_thread = 3;
  do_schedule = true;
}

-- The same with the two threads in the level 1 list.
abbrev pub two_ready_level1 : ℤ → Kernel
two_ready_level1 level = record (two_ready level) {
  level0_head = 0;
  level0_tail = 0;
  level1_head = 1;
  level1_tail = 2;
}
