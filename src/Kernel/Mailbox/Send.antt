-- ===== src/Kernel/Mailbox/Send.antt =====
-- __send_msg of kernel/syscall/syscalls.c on a mailbox that holds a queue of messages.
use tay_huang_os.Prelude.{
  ℕ, true, false, some, List, [], ◌∷◌, ◌++◌, if◌then◌else◌, ◌+◌, ◌%◌, ◌^◌, ◌<◌, ◌≤◌, ◌≡◌, ◌≢◌, ◌⊎◌,
  sym, subst, arith, length,
}
use tay_huang_os.Prelude.Int.{ℤ, ==ℤ, ==ℤ_refl}
use tay_huang_os.Kernel.State.{IpcInfo, Task, Kernel, current_task}
use tay_huang_os.Kernel.Ready.{enqueue_thread, enqueue_level0_thread}
use tay_huang_os.Kernel.Ready.Chain.{update_self}
use tay_huang_os.Kernel.Tasks.{get_task_by_pid}
use tay_huang_os.Kernel.Mailbox.{
  Memory, write_to_buffer, deliver, send_refused, wake_handler, send_msg,
}
use tay_huang_os.Kernel.Mailbox.Header.{header, any_task, dummy_task}
use tay_huang_os.Kernel.Mailbox.Bytes.{Stored, Outside}
use tay_huang_os.Kernel.Mailbox.Queue.{Message, IsMailbox, write_to_buffer-IsMailbox}

pub task-wake_handler : (target : ℕ) (k : Kernel) → (wake_handler target k).task ≡ k.task
unfolding wake_handler enqueue_thread enqueue_level0_thread
task-wake_handler target k = ground arith

-- The conditions under which `__send_msg` accepts `size` bytes from the task with pid `pid`.
pub record Accepts (target : ℕ) (ipc : IpcInfo) (size : ℕ) (pid : ℤ) : Type 0 where
  pub found : target ≢ 0
  pub fits : ipc.used_size + (8 + size) ≤ ipc.mail_size
  pub bounded : ipc.mail_size < 2 ^ 64
  pub allowed : (ipc.allow_pid ≡ pid) ⊎ (ipc.allow_pid ≡ any_task)

pub not_refused :
    (target : ℕ) (ipc : IpcInfo) (size : ℕ) (pid : ℤ)
    → Accepts target ipc size pid
    → send_refused target ipc size pid ≡ false
not_refused target ipc size pid a = ground (arith, ==ℤ_refl pid)

module _ (pa : ℕ → ℕ → ℕ) where
  deliver-IsMailbox :
      (target src_pgd src : ℕ) (k : Kernel) (mem : Memory) (ms : List Message) (m : Message)
      → let task = k.task target in
        IsMailbox (pa task.pgd) task.ipc_info mem ms
        → task.ipc_info.used_size + (8 + m.pack.length) ≤ task.ipc_info.mail_size
        → task.ipc_info.mail_size < 2 ^ 64
        → Outside pa task.pgd task.ipc_info.mail task.ipc_info.mail_size
            (pa src_pgd)
            src
            (length m.body)
        → Stored (pa src_pgd) mem src m.body
        → let (k', mem') = deliver pa target m.pack m.pack.length src_pgd src (k, mem) in
          IsMailbox (pa (k'.task target).pgd) (k'.task target).ipc_info mem' (ms ++ (m ∷ []))
  unfolding deliver
  deliver-IsMailbox target src_pgd src k mem ms m b fits small out stored =
      let task = k.task target in
      let ipc = task.ipc_info in
      let exact : (ipc.used_size + (8 + m.pack.length)) % 2 ^ 64
          ≡ ipc.used_size + (8 + m.pack.length) =
        omega arith in
      let made = λ (u : ℕ).
        write_to_buffer pa task.pgd m.pack src_pgd src (record ipc { used_size = u }, mem) in
      let done : IsMailbox (pa task.pgd) (made ((ipc.used_size + (8 + m.pack.length)) % 2 ^ 64)).0
          (made ((ipc.used_size + (8 + m.pack.length)) % 2 ^ 64)).1 (ms ++ (m ∷ [])) =
        subst (λ u. IsMailbox (pa task.pgd) (made u).0 (made u).1 (ms ++ (m ∷ []))) (sym exact)
          (write_to_buffer-IsMailbox pa task.pgd src_pgd src ipc mem ms m b fits out stored) in
      subst
        (λ (t : Task).
          IsMailbox (pa t.pgd) t.ipc_info (made ((ipc.used_size + (8 + m.pack.length)) % 2 ^ 64)).1
            (ms ++ (m ∷ [])))
        (sym (update_self k.task target _)) done

  -- A message of less than 2 ^ 16 bytes that the target allows and has room for, sent from memory
  -- outside the target's mailbox, is accepted, and joins the end of the target's queue with the
  -- header that names its sender.
  pub send_msg-IsMailbox :
      (fuel junk message_no msg_id src : ℕ) (dst : ℤ) (k : Kernel) (mem : Memory) (target : ℕ)
      (ms : List Message) (m : Message)
      → let task = k.task target in
        let pid = (current_task k).pid in
        get_task_by_pid fuel k dst ≡ some target
        → Accepts target task.ipc_info m.pack.length pid
        → m.pack ≡ header junk message_no msg_id m.pack.length pid
        → IsMailbox (pa task.pgd) task.ipc_info mem ms
        → Outside pa task.pgd task.ipc_info.mail task.ipc_info.mail_size
            (pa (current_task k).pgd)
            src
            (length m.body)
        → Stored (pa (current_task k).pgd) mem src m.body
        → (k' : Kernel) × (mem' : Memory) × (send_msg pa fuel junk message_no msg_id src
              m.pack.length dst
              (k, mem)
            ≡ some (true, k', mem'))
          × IsMailbox (pa (k'.task target).pgd) (k'.task target).ipc_info mem' (ms ++ (m ∷ []))
  unfolding send_msg
  send_msg-IsMailbox fuel junk message_no msg_id src dst k mem target ms m found a h b out stored =
      let task = k.task target in
      let sent = deliver pa target m.pack m.pack.length (current_task k).pgd src (k, mem) in
      let k' =
        if ==ℤ task.ipc_info.allow_pid dummy_task then sent.0 else wake_handler target sent.0 in
      let same : k'.task ≡ sent.0.task = ground (arith, task-wake_handler target sent.0) in
      let done =
        deliver-IsMailbox target (current_task k).pgd src k mem ms m b a.fits a.bounded out
          stored in
      (
        k',
        sent.1,
        rw (
          found,
          send_msg,
          not_refused target task.ipc_info m.pack.length (current_task k).pid a,
          ← h,
        ),
        subst
            (λ (t : ℕ → Task).
              IsMailbox (pa (t target).pgd) (t target).ipc_info sent.1 (ms ++ (m ∷ [])))
            (sym same) done,
      )
