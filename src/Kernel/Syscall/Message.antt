-- ===== src/Kernel/Syscall/Message.antt =====
-- A message from one task to another through the system calls (kernel/syscall/syscall.c).
pub mod Delivery
use tay_huang_os.Prelude.{
  ℕ, zero, suc, Bool, true, false, some, some_injective, List, [], ◌∷◌, ◌+◌, ◌/◌, ◌%◌, ◌^◌, ◌≤◌,
  ◌<◌, ◌≡◌, ◌≢◌, refl, sym, ap, subst, ◌∙◌, arith, length, if◌then◌else◌, Bool-cases, inl, inr,
}
use mathlib.Core.Option
use tay_huang_os.Prelude.Int.{ℤ, ==ℤ}
use tay_huang_os.Kernel.State.{IpcInfo, Task, Kernel, current_task}
use tay_huang_os.Kernel.Ready.{enqueue_thread, enqueue_level0_thread}
use tay_huang_os.Kernel.Ready.Chain.{update_self}
use tay_huang_os.Kernel.Tasks.{get_task_by_pid}
use tay_huang_os.Kernel.Mailbox.{
  Memory, write_bytes, write_body, write_to_buffer, deliver, send_msg, send_refused, recv_msg,
  wake_handler,
}
use tay_huang_os.Kernel.Mailbox.Header.{Msgpack, to_bytes, header, dummy_task, msgpack_size}
use tay_huang_os.Kernel.Mailbox.Bytes.{Stored, Outside}
use tay_huang_os.Kernel.Mailbox.Queue.{Message, IsMailbox}
use tay_huang_os.Kernel.Mailbox.Send.{Accepts, not_refused, task-wake_handler, send_msg-IsMailbox}
use tay_huang_os.Kernel.Mailbox.Receive.{recv_msg-IsMailbox}
use tay_huang_os.Kernel.Syscall.{
  System, Args, syscall, running_as, with_mail, sent, received, int_of, little_endian,
}
use tay_huang_os.Kernel.Syscall.Message.Delivery.{
  SamePlace, Kept, send_args, recv_args, write_bytes-SamePlace, write_body-SamePlace,
  write_to_buffer-SamePlace, deliver-Kept, wake_handler-Kept, send_msg-Kept,
}

module _ (pa : ℕ → ℕ → ℕ) where
  -- Receiving by a thread of `target`, whose mailbox is where it is said to be.
  recv_msg-target :
      (dst thread target pgd mail size : ℕ) (k : Kernel) (mem : Memory) (m : Message)
      → (k.thread thread).task ≡ target
      → (k.task target).pgd ≡ pgd
      → ((k.task target).ipc_info.mail ≡ mail) × ((k.task target).ipc_info.mail_size ≡ size)
      → IsMailbox (pa (k.task target).pgd) (k.task target).ipc_info mem (m ∷ [])
      → Outside pa pgd mail size (pa pgd) dst (length m.body)
      → ((u q : ℕ) → dst ≤ u → u < q → q < dst + length m.body → pa pgd u ≢ pa pgd q)
      → (k' : Kernel) × (mem' : Memory) × (recv_msg pa dst
            (record k { current_thread = thread }, mem)
          ≡ some (m.pack, k', mem'))
        × Stored (pa pgd) mem' dst m.body
        × IsMailbox (pa (current_task k').pgd) (current_task k').ipc_info mem' []
  recv_msg-target dst thread target pgd mail size k mem m at at_pgd (at_mail, at_size) box out
        apart =
      let n = length m.body in
      let task = k.task (k.thread thread).task in
      let e : task ≡ k.task target = ap k.task at in
      let e_pgd : task.pgd ≡ pgd = ap (λ t. t.pgd) e ∙ at_pgd in
      let e_mail : task.ipc_info.mail ≡ mail = ap (λ t. t.ipc_info.mail) e ∙ at_mail in
      let e_size : task.ipc_info.mail_size ≡ size = ap (λ t. t.ipc_info.mail_size) e ∙ at_size in
      let box' : IsMailbox (pa task.pgd) task.ipc_info mem (m ∷ []) =
        subst (λ (t : Task). IsMailbox (pa t.pgd) t.ipc_info mem (m ∷ [])) (sym e) box in
      let out' : Outside pa task.pgd task.ipc_info.mail task.ipc_info.mail_size (pa task.pgd) dst
          n =
        subst (λ g. Outside pa g task.ipc_info.mail task.ipc_info.mail_size (pa g) dst n)
          (sym e_pgd)
          (subst (λ a. Outside pa pgd a task.ipc_info.mail_size (pa pgd) dst n) (sym e_mail)
            (subst (λ z. Outside pa pgd mail z (pa pgd) dst n) (sym e_size) out)) in
      let apart' : (u q : ℕ) → dst ≤ u → u < q → q < dst + n → pa task.pgd u ≢ pa task.pgd q =
        subst (λ g. (u q : ℕ) → dst ≤ u → u < q → q < dst + n → pa g u ≢ pa g q) (sym e_pgd)
          apart in
      let (k', mem', done, stored, rest) =
        recv_msg-IsMailbox pa dst (record k { current_thread = thread }) mem m [] box' out'
          apart' in
      (k', mem', done, subst (λ g. Stored (pa g) mem' dst m.body) e_pgd stored, rest)

  syscall-send :
      (fuel junk place code size value src : ℕ) (s : System) (k' : Kernel) (mem' : Memory)
      → send_msg pa fuel junk
          (code / 256 % 256)
          (code / 256 / 256 % 2 ^ 16)
          src
          size
          (int_of value)
          (s.machine.kernel, s.memory)
        ≡ some (true, k', mem')
      → syscall pa fuel junk place (send_args code size value src) s
        ≡ some (1, with_mail s (k', mem'))
  unfolding syscall
  syscall-send fuel junk place code size value src s k' mem' e = ap (Option.map (sent s)) e

  syscall-recv :
      (fuel junk place dst : ℕ) (s : System) (pack : Msgpack) (k' : Kernel) (mem' : Memory)
      → recv_msg pa dst (s.machine.kernel, s.memory) ≡ some (pack, k', mem')
      → syscall pa fuel junk place (recv_args dst) s
        ≡ some (little_endian (to_bytes pack), with_mail s (k', mem'))
  unfolding syscall
  syscall-recv fuel junk place dst s pack k' mem' e = ap (Option.map (received s)) e

  -- A message that the system call for sending takes from the current task to a task whose mailbox is
  -- empty, allows it and has room for it is what the system call for receiving gives any thread of
  -- that task that runs next: the header as the result, the body at the address it names, and the
  -- mailbox is empty again. The body is outside the mailbox before and after, where its bytes lie
  -- apart.
  pub syscall-send_recv :
      (fuel junk place code value src dst thread target : ℕ) (s : System) (m : Message)
      → let k = s.machine.kernel in
        let task = k.task target in
        let pid = (current_task k).pid in
        let n = length m.body in
        get_task_by_pid fuel k (int_of value) ≡ some target
        → (k.thread thread).task ≡ target
        → Accepts target task.ipc_info m.pack.length pid
        → m.pack ≡ header junk (code / 256 % 256) (code / 256 / 256 % 2 ^ 16) m.pack.length pid
        → IsMailbox (pa task.pgd) task.ipc_info s.memory []
        → Outside pa task.pgd task.ipc_info.mail task.ipc_info.mail_size
            (pa (current_task k).pgd)
            src
            n
        → Stored (pa (current_task k).pgd) s.memory src m.body
        → Outside pa task.pgd task.ipc_info.mail task.ipc_info.mail_size (pa task.pgd) dst n
        → ((u q : ℕ) → dst ≤ u → u < q → q < dst + n → pa task.pgd u ≢ pa task.pgd q)
        → (s1 : System) × (s2 : System) × (syscall pa fuel junk place
              (send_args code m.pack.length value src)
              s
            ≡ some (1, s1))
          × (syscall pa fuel junk place (recv_args dst) (running_as thread s1)
              ≡ some (little_endian (to_bytes m.pack), s2))
          × Stored (pa task.pgd) s2.memory dst m.body
          × IsMailbox
              (pa (current_task s2.machine.kernel).pgd)
              (current_task s2.machine.kernel).ipc_info
              s2.memory
              []
  syscall-send_recv fuel junk place code value src dst thread target s m found on ok h box out
        stored out' apart =
      let k = s.machine.kernel in
      let task = k.task target in
      let (k1, mem1, e1, box1) =
        send_msg-IsMailbox pa fuel junk (code / 256 % 256) (code / 256 / 256 % 2 ^ 16) src
          (int_of value) k s.memory target [] m found ok h box out stored in
      let (same_pgd, same_place, threads) =
        send_msg-Kept pa fuel junk (code / 256 % 256) (code / 256 / 256 % 2 ^ 16) src m.pack.length
          (int_of value) k s.memory target k1 mem1 found
          (not_refused target task.ipc_info m.pack.length (current_task k).pid ok) e1 in
      let (k2, mem2, e2, stored2, box2) =
        recv_msg-target dst thread target task.pgd task.ipc_info.mail task.ipc_info.mail_size k1
          mem1 m (threads thread ∙ on) same_pgd same_place box1 out' apart in
      let s1 = with_mail s (k1, mem1) in
      (
        s1,
        with_mail (running_as thread s1) (k2, mem2),
        syscall-send fuel junk place code m.pack.length value src s k1 mem1 e1,
        syscall-recv fuel junk place dst (running_as thread s1) m.pack k2 mem2 e2,
        stored2,
        box2,
      )
