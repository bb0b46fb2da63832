-- ===== src/Kernel/Syscall/Tests.antt =====
-- Runs of the system calls (kernel/syscall/syscall.c) of thread 3, which belongs to the task with the
-- pid 5; virtual and physical addresses are the same.
use tay_huang_os.Prelude.{
  ℕ, true, Option, none, some, [], ◌∷◌, ◌≡◌, inr, refl, arith, ◌==◌, if◌then◌else◌,
}
use mathlib.Core.Option
use tay_huang_os.Prelude.Int.{pos}
use tay_huang_os.Kernel.State.{current_task, update}
use tay_huang_os.Kernel.Samples.{two_ready, empty_mail}
use tay_huang_os.Kernel.Signal.Tree.{leaf}
use tay_huang_os.Kernel.Tasks.{get_task_by_pid, walk}
use tay_huang_os.Kernel.Mailbox.{
  Memory, write_bytes, write_body, write_to_buffer, deliver, dummy_send_msg, wake_handler,
}
use tay_huang_os.Kernel.Mailbox.Header.{to_bytes}
use tay_huang_os.Kernel.Mailbox.Bytes.{Stored}
use tay_huang_os.Kernel.Mailbox.Queue.{Message, IsMailbox}
use tay_huang_os.Kernel.Mailbox.Send.{Accepts}
use tay_huang_os.Kernel.Syscall.{System, syscall, normal_irq_handler, running_as, little_endian}
use tay_huang_os.Kernel.Syscall.Lock.{attempts, attempts-once}
use tay_huang_os.Kernel.Syscall.Message.{syscall-send_recv}
use tay_huang_os.Kernel.Syscall.Message.Delivery.{send_args, recv_args}

abbrev same : ℕ → ℕ → ℕ
same pgd p = p

abbrev waiting : Memory
waiting q = if q == 200 then 7 else if q == 201 then 8 else 0

abbrev start : System
start = record {
  machine = record {
    kernel = two_ready (pos 0);
    info = λ p. record {
      stack_bottom = 16777216;
      cur_tid = 4;
      cs = 43;
      ds = 35;
      rflags = 514;
      priority = pos 1;
      kernel_task = true;
    };
    stacks = [];
  };
  memory = waiting;
  signals = record { root = leaf; cur_id = 0 };
  irq_tasks = λ irq. pos 0;
}

abbrev greeting : Message
greeting = record {
  pack = record { reserved = 0; message_no = 1; msg_id = 42; length = 2; source = 5 };
  body = 7 ∷ 8 ∷ [];
  sized = refl;
}

empty_mail-IsMailbox : IsMailbox (same 4096) empty_mail waiting []
empty_mail-IsMailbox = record {
  apart = λ p q h k l m e. e;
  from = omega arith;
  upto = omega arith;
  holds = tt;
  used = refl;
  room = omega arith;
  written = refl;
}

accepted : Accepts 100 empty_mail 2 (pos 5)
accepted = record {
  found = ground arith;
  fits = omega arith;
  bounded = omega arith;
  allowed = inr refl;
}

syscall-send_recv_example :
    (s1 : System) × (s2 : System) × (syscall same 1 0 7 (send_args 2752768 2 5 200) start
      ≡ some (1, s1))
    × (syscall same 1 0 7 (recv_args 300) (running_as 3 s1)
        ≡ some (little_endian (to_bytes greeting.pack), s2))
    × Stored (same 4096) s2.memory 300 (7 ∷ 8 ∷ [])
    × IsMailbox
        (same (current_task s2.machine.kernel).pgd)
        (current_task s2.machine.kernel).ipc_info
        s2.memory
        []
unfolding get_task_by_pid walk
syscall-send_recv_example =
    syscall-send_recv same 1 0 7 2752768 5 200 300 3 100 start greeting refl refl accepted refl
      empty_mail-IsMailbox (λ r q h k l m. omega arith) (refl, (refl, tt))
      (λ r q h k l m. omega arith) (λ u q h k l. omega arith)

-- Threads 3, 1 and 2 try the byte at 500.
attempts-once_example :
    (s' : System) × (attempts same 1 0 7 ((3, 500) ∷ (1, 500) ∷ (2, 500) ∷ []) start
      ≡ some (1 ∷ 0 ∷ 0 ∷ [], s'))
    × (s'.memory ≡ update waiting 500 1)
attempts-once_example =
    attempts-once same 1 0 7 500 3 500 ((1, 500) ∷ (2, 500) ∷ []) start (refl, (refl, (refl, tt)))
      refl

-- CLEAR_MAIL_SN has no branch.
clear_mail_ignored :
    syscall same 1 0 7
      (record { sysno = 5; counter = 0; value = 0; src = 0; dst = 0; arg1 = 0 })
      start
    ≡ some (0, start)
unfolding syscall
clear_mail_ignored = refl

-- The task with the pid 5 registers for interrupt 1, and a message of 12 bytes comes when it happens.
abbrev used_after : Option (ℕ × System) → Option ℕ
used_after none = none
used_after (some (r, s)) =
    Option.map (λ (s' : System). (s'.machine.kernel.task 100).ipc_info.used_size)
      (normal_irq_handler same 1 0 4096 9 400 1 s)

irq_arrives :
    used_after (
      syscall same 1 0 7
        (record { sysno = 16; counter = 0; value = 1; src = 0; dst = 0; arg1 = 0 })
        start)
    ≡ some 12
unfolding syscall normal_irq_handler get_task_by_pid walk dummy_send_msg wake_handler deliver
    write_to_buffer write_body write_bytes to_bytes
irq_arrives = refl
