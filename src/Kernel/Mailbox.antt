-- ===== src/Kernel/Mailbox.antt =====
-- Messages between tasks (kernel/syscall/syscalls.c, include/tayhuang/msgpack.h): each task has a
-- mailbox, a ring of bytes in its own memory, with a counter of the bytes in use.
pub mod Header
pub mod Ring
pub mod Bytes
pub mod Queue
pub mod Send
pub mod Receive
mod Tests
use tay_huang_os.Prelude.{
  ℕ, zero, suc, Bool, true, false, Option, none, some, List, [], ◌∷◌, ◌==◌, ◌||◌, ◌&&◌, not, ltb,
  leb, if◌then◌else◌, ◌+◌, ◌-◌, ◌*◌, ◌/◌, ◌%◌, ◌^◌,
}
use tay_huang_os.Prelude.Int.{ℤ, pos, negsuc, ==ℤ, leb_ℤ}
use tay_huang_os.Kernel.State.{
  ThreadState, ready, waiting_ipc, IpcInfo, Task, Kernel, null, update, set_task, set_state,
  current_task,
}
use tay_huang_os.Kernel.Ready.{enqueue_thread}
use tay_huang_os.Kernel.Tasks.{get_task_by_pid}
use tay_huang_os.Kernel.Mailbox.Header.{
  Msgpack, msgpack_size, to_bytes, of_bytes, word_of, header, any_task, dummy_task,
}

abbrev pub Memory : Type 0
Memory = ℕ → ℕ

unfoldable pub increase_ptr : IpcInfo → ℕ → ℕ
increase_ptr ipc ptr = if leb (ipc.mail + ipc.mail_size) (ptr + 1) then ipc.mail else ptr + 1

-- A message for which there is no room, or that the target does not allow, is refused. The sum of
-- the sizes is a `qword`.
abbrev pub no_room : IpcInfo → ℕ → Bool
no_room ipc size = ltb ipc.mail_size ((ipc.used_size + size + msgpack_size) % 2 ^ 64)

-- The guards of `__send_msg` and of `dummy_send_msg`.
abbrev pub send_refused : ℕ → IpcInfo → ℕ → ℤ → Bool
send_refused target ipc size pid =
    (target == null)
    || no_room ipc size
    || (not (==ℤ ipc.allow_pid pid) && not (==ℤ ipc.allow_pid any_task))

abbrev pub dummy_refused : ℕ → IpcInfo → ℕ → Bool
dummy_refused target ipc size =
    (target == null)
    || no_room ipc size
    || (not (==ℤ ipc.allow_pid dummy_task) && leb_ℤ (pos 0) ipc.allow_pid)

abbrev pub is_waiting_ipc : ThreadState → Bool
is_waiting_ipc waiting_ipc = true
is_waiting_ipc _ = false

-- The thread that handles the task's messages is made ready if it waits for one.
unfoldable pub wake_handler : ℕ → Kernel → Kernel
wake_handler target k =
    let handler = (k.task target).ipc_info.msg_handler_thread in
    if is_waiting_ipc (k.thread handler).state
    then enqueue_thread (set_state k handler ready) handler
    else k

-- What `recv_msg` returns when there is no message: message number and source are -1.
abbrev pub no_message : Msgpack
no_message = record { reserved = 0; message_no = 255; msg_id = 0; length = 0; source = 2 ^ 16 - 1 }

-- `pa` is `get_physical_address` of kernel/memory/paging.c over the page tables at hand: a page
-- table's address and a virtual address give the physical one.
module _ (pa : ℕ → ℕ → ℕ) where
  -- The loop over the header of `write_to_buffer`.
  unfoldable pub write_bytes : ℕ → List ℕ → IpcInfo × Memory → IpcInfo × Memory
  write_bytes pgd [] (ipc, mem) = (ipc, mem)
  write_bytes pgd (b ∷ bs) (ipc, mem) = write_bytes pgd bs (
    record ipc { write_ptr = increase_ptr ipc ipc.write_ptr },
    update mem (pa pgd ipc.write_ptr) b,
  )

  -- Its loop over the body: `n` bytes from `src` in the memory of `src_pgd`.
  unfoldable pub write_body : ℕ → ℕ → ℕ → ℕ → IpcInfo × Memory → IpcInfo × Memory
  write_body pgd src_pgd src zero (ipc, mem) = (ipc, mem)
  write_body pgd src_pgd src (suc n) (ipc, mem) = write_body pgd src_pgd (src + 1) n (
    record ipc { write_ptr = increase_ptr ipc ipc.write_ptr },
    update mem (pa pgd ipc.write_ptr) (mem (pa src_pgd src)),
  )

  unfoldable pub write_to_buffer : ℕ → Msgpack → ℕ → ℕ → IpcInfo × Memory → IpcInfo × Memory
  write_to_buffer pgd pack src_pgd src state =
      write_body pgd src_pgd src pack.length (write_bytes pgd (to_bytes pack) state)

  -- The loops of `read_from_buffer`: `n` bytes of the header into `pack`, and the body to `dst`.
  unfoldable pub read_bytes : ℕ → ℕ → Memory → IpcInfo → List ℕ × IpcInfo
  read_bytes pgd zero mem ipc = ([], ipc)
  read_bytes pgd (suc n) mem ipc =
      let (bs, ipc') =
        read_bytes pgd n mem (record ipc { read_ptr = increase_ptr ipc ipc.read_ptr }) in
      (mem (pa pgd ipc.read_ptr) ∷ bs, ipc')

  unfoldable pub read_body : ℕ → ℕ → ℕ → IpcInfo × Memory → IpcInfo × Memory
  read_body pgd dst zero (ipc, mem) = (ipc, mem)
  read_body pgd dst (suc n) (ipc, mem) = read_body pgd (dst + 1) n (
    record ipc { read_ptr = increase_ptr ipc ipc.read_ptr },
    update mem (pa pgd dst) (mem (pa pgd ipc.read_ptr)),
  )

  -- The part of both sending functions behind their guards: the counter, then the bytes.
  unfoldable pub deliver : ℕ → Msgpack → ℕ → ℕ → ℕ → Kernel × Memory → Kernel × Memory
  deliver target pack size src_pgd src (k, mem) =
      let ipc = (k.task target).ipc_info in
      let counted = record ipc { used_size = (ipc.used_size + (msgpack_size + size)) % 2 ^ 64 } in
      let (ipc', mem') = write_to_buffer (k.task target).pgd pack src_pgd src (counted, mem) in
      (set_task k target (record (k.task target) { ipc_info = ipc' }), mem')

  -- `__send_msg`: the low 16 bits of the size go into the header. `fuel` bounds the walk through
  -- the task list, `junk` is the header's reserved byte. `none` is a walk that ran out of fuel.
  unfoldable pub send_msg :
      ℕ → ℕ → ℕ → ℕ → ℕ → ℕ → ℤ → Kernel × Memory → Option (Bool × Kernel × Memory)
  send_msg fuel junk message_no msg_id src size dst (k, mem) = elim (get_task_by_pid fuel k dst) [
    | none ↦ none
    | some target ↦
        let ipc = (k.task target).ipc_info in
        let pid = (current_task k).pid in
        let pack = header junk message_no msg_id size pid in
        let (k1, mem1) = deliver target pack size (current_task k).pgd src (k, mem) in
        if send_refused target ipc size pid
        then some (false, k, mem)
        else some (true, if ==ℤ ipc.allow_pid dummy_task then k1 else wake_handler target k1, mem1)
  ]

  -- `dummy_send_msg`, for the kernel itself: the source is DUMMY_TASK, and the message is allowed
  -- unless the target waits for one task. `kernel_pgd` is `kernel_pml4`.
  unfoldable pub dummy_send_msg :
      ℕ → ℕ → ℕ → ℕ → ℕ → ℕ → ℕ → ℤ → Kernel × Memory → Option (Bool × Kernel × Memory)
  dummy_send_msg fuel junk kernel_pgd message_no msg_id src size dst (k, mem) =
      elim (get_task_by_pid fuel k dst) [
        | none ↦ none
        | some target ↦
            let ipc = (k.task target).ipc_info in
            let pack = header junk message_no msg_id size dummy_task in
            let (k1, mem1) = deliver target pack size kernel_pgd src (k, mem) in
            if dummy_refused target ipc size
            then some (false, k, mem)
            else some (true, wake_handler target k1, mem1)
      ]

  -- `__recv_msg` on the current task; `none` is the failed assertion.
  unfoldable pub recv_msg : ℕ → Kernel × Memory → Option (Msgpack × Kernel × Memory)
  recv_msg dst (k, mem) =
      let task = current_task k in
      let (bytes, ipc1) = read_bytes task.pgd msgpack_size mem task.ipc_info in
      let pack = of_bytes bytes in
      let (ipc2, mem') = read_body task.pgd dst pack.length (ipc1, mem) in
      let ipc3 = record ipc2 { used_size = ipc2.used_size - (pack.length + msgpack_size) } in
      if task.ipc_info.used_size == 0
      then some (no_message, k, mem)
      else if leb (pack.length + msgpack_size) ipc2.used_size
      then some (
        pack,
        set_task k (k.thread k.current_thread).task (record task { ipc_info = ipc3 }),
        mem',
      )
      else none

abbrev pub set_ipc : Kernel → IpcInfo → Kernel
set_ipc k ipc =
    set_task k (k.thread k.current_thread).task (record (current_task k) { ipc_info = ipc })

-- `__check_ipc`: the current thread waits for a message unless one is there.
unfoldable pub check_ipc : Kernel → Kernel
check_ipc k =
    let ipc = (current_task k).ipc_info in
    if ipc.mail == null
    then k
    else if ltb 0 ipc.used_size
    then k
    else set_state k k.current_thread waiting_ipc

pub set_allow : ℤ → Kernel → Kernel
set_allow pid k = set_ipc k (record (current_task k).ipc_info { allow_pid = pid })

unfoldable pub set_mailbuffer : ℕ → ℕ → Kernel → Kernel
set_mailbuffer buffer size k = set_ipc k (record (current_task k).ipc_info {
  mail = buffer;
  read_ptr = buffer;
  write_ptr = buffer;
  mail_size = size;
  used_size = 0;
  lastest_msg = null;
  msg_handler_thread = k.current_thread;
})

unfoldable pub clear_mail : Kernel → Kernel
clear_mail k =
    let ipc = (current_task k).ipc_info in
    set_ipc k
      (record ipc { read_ptr = ipc.mail; write_ptr = ipc.mail; used_size = 0; lastest_msg = null })
