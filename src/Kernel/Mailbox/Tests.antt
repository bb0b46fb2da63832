-- ===== src/Kernel/Mailbox/Tests.antt =====
-- Runs of the mailboxes of kernel/syscall/syscalls.c, with every address mapped to itself.
use tay_huang_os.Prelude.{
  ℕ, ◌≡◌, ◌+◌, refl, true, some, List, [], ◌∷◌, arith, inr, ◌==◌, if◌then◌else◌,
}
use tay_huang_os.Prelude.Int.{pos}
use tay_huang_os.Kernel.State.{IpcInfo, Kernel}
use tay_huang_os.Kernel.Samples.{two_ready, empty_mail}
use tay_huang_os.Kernel.Tasks.{get_task_by_pid, walk}
use tay_huang_os.Kernel.Mailbox.{Memory, send_msg}
use tay_huang_os.Kernel.Mailbox.Header.{header}
use tay_huang_os.Kernel.Mailbox.Queue.{Message, IsMailbox}
use tay_huang_os.Kernel.Mailbox.Send.{Accepts, send_msg-IsMailbox}

abbrev same : ℕ → ℕ → ℕ
same pgd p = p

-- Memory with the bytes from an address on.
abbrev bytes_at : ℕ → List ℕ → Memory
bytes_at p [] q = 0
bytes_at p (b ∷ bs) q = if p == q then b else bytes_at (p + 1) bs q

abbrev greeting : Message
greeting = record { pack = header 0 1 42 2 (pos 5); body = 7 ∷ 8 ∷ []; sized = refl }

abbrev idle : Kernel
idle = two_ready (pos 0)

-- The body waits at 200 to be sent.
abbrev before : Memory
before = bytes_at 200 (7 ∷ 8 ∷ [])

-- The message stands in the mailbox, round its end.
abbrev full_mail : IpcInfo
full_mail = record empty_mail { read_ptr = 90; write_ptr = 68; used_size = 10 }

abbrev waiting_mail : Kernel
waiting_mail = record idle { task = λ p. record (idle.task p) { ipc_info = full_mail } }

abbrev after : Memory
after q =
    if q == 90
    then 0
    else if q == 91
    then 1
    else if q == 92
    then 42
    else if q == 94
    then 2
    else if q == 64
    then 5
    else if q == 66
    then 7
    else if q == 67
    then 8
    else 0

empty_mail-IsMailbox : (mem : Memory) → IsMailbox (same 4096) empty_mail mem []
empty_mail-IsMailbox mem = record {
  apart = λ p q h k l m e. e;
  from = omega arith;
  upto = omega arith;
  holds = tt;
  used = refl;
  room = omega arith;
  written = refl;
}

accepted : Accepts 100 empty_mail 2 (pos 5)
accepted = record {
  found = ground arith;
  fits = omega arith;
  bounded = omega arith;
  allowed = inr refl;
}

send_msg-IsMailbox_example :
    (k' : Kernel) × (mem' : Memory) × (send_msg same 1 0 1 42 200 2 (pos 5) (idle, before)
      ≡ some (true, k', mem'))
    × IsMailbox (same (k'.task 100).pgd) (k'.task 100).ipc_info mem' (greeting ∷ [])
unfolding get_task_by_pid walk
send_msg-IsMailbox_example =
    send_msg-IsMailbox same 1 0 1 42 200 (pos 5) idle before 100 [] greeting refl accepted refl
      (empty_mail-IsMailbox before) (λ r q h k l m. omega arith) (refl, (refl, tt))
