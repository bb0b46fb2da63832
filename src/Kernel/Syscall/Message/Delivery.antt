-- ===== src/Kernel/Syscall/Message/Delivery.antt =====
-- What `__send_msg` of kernel/syscall/syscalls.c leaves of the target's mailbox and of the tasks.
use tay_huang_os.Prelude.{
  ℕ, zero, suc, Bool, true, false, some, some_injective, List, [], ◌∷◌, ◌+◌, ◌%◌, ◌^◌, ◌≡◌, refl,
  sym, ap, subst, ◌∙◌, arith, if◌then◌else◌, Bool-cases, inl, inr,
}
use tay_huang_os.Prelude.Int.{ℤ, ==ℤ}
use tay_huang_os.Kernel.State.{IpcInfo, Task, Kernel, current_task}
use tay_huang_os.Kernel.Ready.{enqueue_thread, enqueue_level0_thread}
use tay_huang_os.Kernel.Ready.Chain.{update_self}
use tay_huang_os.Kernel.Tasks.{get_task_by_pid}
use tay_huang_os.Kernel.Mailbox.{
  Memory, write_bytes, write_body, write_to_buffer, deliver, send_msg, send_refused, wake_handler,
}
use tay_huang_os.Kernel.Mailbox.Header.{Msgpack, to_bytes, header, dummy_task, msgpack_size}
use tay_huang_os.Kernel.Mailbox.Send.{task-wake_handler}
use tay_huang_os.Kernel.Syscall.{Args}

thread-wake_handler :
    (target q : ℕ) (k : Kernel) → ((wake_handler target k).thread q).task ≡ (k.thread q).task
unfolding wake_handler enqueue_thread enqueue_level0_thread
thread-wake_handler target q k = ground arith

-- Where a mailbox is, which sending leaves as it is.
abbrev pub SamePlace : IpcInfo → IpcInfo → Type 0
SamePlace a b = (a.mail ≡ b.mail) × (a.mail_size ≡ b.mail_size)

-- What sending leaves of the target and of the threads' tasks.
abbrev pub Kept : ℕ → Kernel → Kernel → Type 0
Kept target k k' =
    ((k'.task target).pgd ≡ (k.task target).pgd)
    × SamePlace (k'.task target).ipc_info (k.task target).ipc_info
    × ((q : ℕ) → (k'.thread q).task ≡ (k.thread q).task)

-- The arguments of the two calls; `code` holds the number and the id of the message.
abbrev pub send_args : ℕ → ℕ → ℕ → ℕ → Args
send_args code size value src = record {
  sysno = 1;
  counter = size;
  value = value;
  src = src;
  dst = 0;
  arg1 = code;
}

abbrev pub recv_args : ℕ → Args
recv_args dst = record { sysno = 4; counter = 0; value = 0; src = 0; dst = dst; arg1 = 0 }

module _ (pa : ℕ → ℕ → ℕ) where
  pub write_bytes-SamePlace :
      (pgd : ℕ) (bs : List ℕ) (ipc : IpcInfo) (mem : Memory)
      → SamePlace (write_bytes pa pgd bs (ipc, mem)).0 ipc
  unfolding write_bytes
  write_bytes-SamePlace pgd [] ipc mem = (refl, refl)
  write_bytes-SamePlace pgd (b ∷ bs) ipc mem = write_bytes-SamePlace pgd bs _ _

  pub write_body-SamePlace :
      (pgd src_pgd src n : ℕ) (ipc : IpcInfo) (mem : Memory)
      → SamePlace (write_body pa pgd src_pgd src n (ipc, mem)).0 ipc
  unfolding write_body
  write_body-SamePlace pgd src_pgd src zero ipc mem = (refl, refl)
  write_body-SamePlace pgd src_pgd src (suc n) ipc mem =
      write_body-SamePlace pgd src_pgd (src + 1) n _ _

  pub write_to_buffer-SamePlace :
      (pgd src_pgd src : ℕ) (pack : Msgpack) (ipc : IpcInfo) (mem : Memory)
      → SamePlace (write_to_buffer pa pgd pack src_pgd src (ipc, mem)).0 ipc
  unfolding write_to_buffer
  write_to_buffer-SamePlace pgd src_pgd src pack ipc mem =
      let half = write_bytes pa pgd (to_bytes pack) (ipc, mem) in
      let (m1, s1) = write_bytes-SamePlace pgd (to_bytes pack) ipc mem in
      let (m2, s2) = write_body-SamePlace pgd src_pgd src pack.length half.0 half.1 in
      (m2 ∙ m1, s2 ∙ s1)

  pub deliver-Kept :
      (target size src_pgd src : ℕ) (pack : Msgpack) (k : Kernel) (mem : Memory)
      → Kept target k (deliver pa target pack size src_pgd src (k, mem)).0
  unfolding deliver
  deliver-Kept target size src_pgd src pack k mem =
      let task = k.task target in
      let counted = record task.ipc_info {
        used_size = (task.ipc_info.used_size + (msgpack_size + size)) % 2 ^ 64;
      } in
      subst
        (λ (t : Task).
          (t.pgd ≡ task.pgd)
          × SamePlace t.ipc_info task.ipc_info
          × ((q : ℕ) → (k.thread q).task ≡ (k.thread q).task))
        (sym (update_self k.task target _))
        (refl, write_to_buffer-SamePlace task.pgd src_pgd src pack counted mem, λ q. refl)

  pub wake_handler-Kept :
      (target : ℕ) (k k1 : Kernel) → Kept target k k1 → Kept target k (wake_handler target k1)
  wake_handler-Kept target k k1 (p, m, t) =
      subst
        (λ (f : ℕ → Task).
          ((f target).pgd ≡ (k.task target).pgd)
          × SamePlace (f target).ipc_info (k.task target).ipc_info
          × ((q : ℕ) → ((wake_handler target k1).thread q).task ≡ (k.thread q).task))
        (sym (task-wake_handler target k1)) (p, m, λ q. thread-wake_handler target q k1 ∙ t q)

  pub send_msg-Kept :
      (fuel junk message_no msg_id src size : ℕ) (dst : ℤ) (k : Kernel) (mem : Memory) (target : ℕ)
      (k' : Kernel) (mem' : Memory)
      → get_task_by_pid fuel k dst ≡ some target
      → send_refused target (k.task target).ipc_info size (current_task k).pid ≡ false
      → send_msg pa fuel junk message_no msg_id src size dst (k, mem) ≡ some (true, k', mem')
      → Kept target k k'
  unfolding send_msg
  send_msg-Kept fuel junk message_no msg_id src size dst k mem target k' mem' found ok h =
      let pack = header junk message_no msg_id size (current_task k).pid in
      let sent1 = deliver pa target pack size (current_task k).pgd src (k, mem) in
      let free = ==ℤ (k.task target).ipc_info.allow_pid dummy_task in
      let last = if free then sent1.0 else wake_handler target sent1.0 in
      let e : send_msg pa fuel junk message_no msg_id src size dst (k, mem)
          ≡ some (true, last, sent1.1) =
        rw (found, send_msg, ok) refl in
      let same : last ≡ k' =
        ap (λ (r : Bool × Kernel × Memory). r.1) (some_injective (sym e ∙ h)) in
      let kept = deliver-Kept target size (current_task k).pgd src pack k mem in
      subst (Kept target k) same (elim (Bool-cases free) [
        | inl t ↦ rw t kept
        | inr f ↦ rw f (wake_handler-Kept target k sent1.0 kept)
      ])
