-- ===== src/Kernel/Syscall.antt =====
-- The system calls of the kernel (kernel/syscall/syscall.c): the dispatch by number, which joins the
-- mailboxes, semaphores and threads, and the lock and the registration of interrupts of
-- kernel/syscall/syscalls.c.
pub mod Lock
pub mod Message
mod Tests
use tay_huang_os.Prelude.{
  ℕ, Bool, true, false, Option, none, some, List, [], ◌∷◌, ◌+◌, ◌-◌, ◌*◌, ◌/◌, ◌%◌, ◌^◌, ◌==◌, not,
  ltb, if◌then◌else◌,
}
use mathlib.Core.Option
use tay_huang_os.Prelude.Int.{ℤ, pos, negsuc, ==ℤ}
use tay_huang_os.Kernel.State.{IntterupArgs, Kernel, current_task, update}
use tay_huang_os.Kernel.Scheduler.{after_syscall}
use tay_huang_os.Kernel.Mailbox.{
  Memory, send_msg, dummy_send_msg, recv_msg, check_ipc, set_allow, set_mailbuffer,
}
use tay_huang_os.Kernel.Mailbox.Header.{Msgpack, to_bytes}
use tay_huang_os.Kernel.Signal.{
  Signals, create_signal, up_signal, down_signal, get_signals, is_soft_signal,
}
use tay_huang_os.Kernel.Threads.{Machine, spawn, exit_thread}

-- The state that system calls work on; `irq_tasks` is IRQ_HANDLE_TASKS.
pub record System : Type 0 where
  pub machine : Machine
  pub memory : Memory
  pub signals : Signals
  pub irq_tasks : ℕ → ℤ

-- The arguments that the calls use, under the names of `syscall`; `value` is `data`.
pub record Args : Type 0 where
  pub sysno : ℕ
  pub counter : ℕ
  pub value : ℕ
  pub src : ℕ
  pub dst : ℕ
  pub arg1 : ℕ

-- A `qword` passed as an `int`, and an `int` returned as a `qword`.
abbrev pub int_of : ℕ → ℤ
int_of n = let low = n % 2 ^ 32 in if ltb low (2 ^ 31) then pos low else negsuc (2 ^ 32 - 1 - low)

abbrev pub qword_of : ℤ → ℕ
qword_of (pos n) = n % 2 ^ 64
qword_of (negsuc n) = 2 ^ 64 - 1 - n % 2 ^ 64

abbrev pub of_bool : Bool → ℕ
of_bool true = 1
of_bool false = 0

-- Bytes in memory read as a number, the lowest first.
abbrev pub little_endian : List ℕ → ℕ
little_endian [] = 0
little_endian (b ∷ bs) = b + 256 * little_endian bs

abbrev pub with_kernel : System → Kernel → System
with_kernel s k = record s { machine = record s.machine { kernel = k } }

-- The thread `thread` runs.
abbrev pub running_as : ℕ → System → System
running_as thread s = with_kernel s (record s.machine.kernel { current_thread = thread })

abbrev pub with_mail : System → Kernel × Memory → System
with_mail s (k, mem) = record (with_kernel s k) { memory = mem }

abbrev pub with_signals : System → Signals × Kernel → System
with_signals s (sg, k) = record (with_kernel s k) { signals = sg }

-- What the branches of `syscall` give back: the returned number, and the state.
abbrev pub sent : System → Bool × Kernel × Memory → ℕ × System
sent s (b, k, mem) = (of_bool b, with_mail s (k, mem))

abbrev pub received : System → Msgpack × Kernel × Memory → ℕ × System
received s (pack, k, mem) = (little_endian (to_bytes pack), with_mail s (k, mem))

abbrev pub created : System → ℕ × Signals → ℕ × System
created s (id, sg) = (id, record s { signals = sg })

abbrev pub spawned : System → ℕ × Machine → ℕ × System
spawned s (tid, w) = (tid, record s { machine = w })

abbrev pub finished : System → ℕ × System
finished s = (0, s)

-- `__reg_irq`; `none` is a write outside the sixteen entries.
abbrev pub reg_irq : ℕ → System → Option System
reg_irq irq s =
    let table = update s.irq_tasks irq (current_task s.machine.kernel).pid in
    if ltb irq 16 then some (record s { irq_tasks = table }) else none

module _ (pa : ℕ → ℕ → ℕ) where
  -- `__test_and_lock`, on the byte that `val` stands for in the current task.
  unfoldable pub test_and_lock : ℕ → System → Bool × System
  test_and_lock val s =
      let a = pa (current_task s.machine.kernel).pgd val in
      if s.memory a == 0 then (true, record s { memory = update s.memory a 1 }) else (false, s)

  -- `syscall`. `fuel` bounds the walks through lists, `junk` is the reserved byte of a header, and a
  -- new thread goes to the address `place`, which `kmalloc` gives. The bits of `arg1` from 8 on are
  -- the number and the id of a message, in bytes 1, 2 and 3. `__moo` only logs.
  unfoldable pub syscall : ℕ → ℕ → ℕ → Args → System → Option (ℕ × System)
  syscall fuel junk place args s =
      let k = s.machine.kernel in
      let n = args.sysno in
      let low = args.arg1 / 256 in
      let id = args.value % 2 ^ 32 in
      if n == 0
      then some (0, s)
      else if n == 1
      then Option.map (sent s) (
          send_msg pa fuel junk (low % 256) (low / 256 % 2 ^ 16) args.src args.counter
            (int_of args.value) (k, s.memory))
      else if n == 2
      then some (0, with_kernel s (check_ipc k))
      else if n == 3
      then some (0, with_kernel s (set_allow (int_of args.value) k))
      else if n == 4
      then Option.map (received s) (recv_msg pa args.dst (k, s.memory))
      else if n == 6
      then some (of_bool (test_and_lock args.dst s).0, (test_and_lock args.dst s).1)
      else if n == 7
      then some (0, with_kernel s (set_mailbuffer args.dst args.counter k))
      else if n == 8
      then Option.map (created s)
          (create_signal (int_of args.counter) (int_of args.value) (not (args.arg1 == 0)) s.signals)
      else if n == 9
      then Option.map (λ v. (qword_of v, s)) (get_signals id s.signals)
      else if n == 10
      then Option.map (λ r. finished (with_signals s r)) (up_signal id s.signals k)
      else if n == 11
      then Option.map (λ r. finished (with_signals s r)) (down_signal id s.signals k)
      else if n == 12
      then Option.map (λ b. (of_bool b, s)) (is_soft_signal id s.signals)
      else if n == 16
      then Option.map finished (reg_irq (args.value % 2 ^ 32) s)
      else if n == 32
      then Option.map (spawned s) (spawn fuel place args.src args.dst s.machine)
      else if n == 33
      then some (0, with_kernel s (exit_thread k))
      else some (0, s)

  abbrev pub args_of : IntterupArgs → Args
  args_of regs = record {
    sysno = regs.basic.rax % 2 ^ 32;
    counter = regs.basic.rcx;
    value = regs.basic.rdx;
    src = regs.basic.rsi;
    dst = regs.basic.rdi;
    arg1 = regs.basic.r8;
  }

  -- The end of `syscall_int_handler`: the result goes to `rax`, and the scheduler is asked unless the
  -- call came from inside another handler.
  abbrev pub returned : Bool → IntterupArgs → ℕ × System → Option (System × IntterupArgs)
  returned entered_handler regs (value, s) =
      let regs1 = record regs { basic = record regs.basic { rax = value } } in
      if entered_handler
      then some (s, regs1)
      else Option.map (λ r. (with_kernel s r.0, r.1)) (after_syscall s.machine.kernel regs1)

  -- `syscall_int_handler`; `entered_handler` is afterwards what it was.
  unfoldable pub syscall_int_handler :
      ℕ → ℕ → ℕ → Bool → IntterupArgs → System → Option (System × IntterupArgs)
  unfolding syscall
  syscall_int_handler fuel junk place entered_handler regs s =
      elim (syscall fuel junk place (args_of regs) s) [
        | none ↦ none
        | some done ↦ returned entered_handler regs done
      ]

  -- `normal_irq_handler`; `irq` stands at the address `src` of the kernel, and `msg_id` is what
  -- `get_msgid` gives. `none` is a read outside the sixteen entries, or a walk that ran out of fuel.
  unfoldable pub normal_irq_handler : ℕ → ℕ → ℕ → ℕ → ℕ → ℕ → System → Option System
  normal_irq_handler fuel junk kernel_pgd msg_id src irq s =
      let pid = s.irq_tasks irq in
      if ltb irq 16
      then if ==ℤ pid (pos 0)
        then some s
        else Option.map (λ r. (sent s r).1)
            (dummy_send_msg pa fuel junk kernel_pgd 3 msg_id src 4 pid (s.machine.kernel, s.memory))
      else none
