-- ===== src/Kernel/Mailbox/Receive.antt =====
-- __recv_msg of kernel/syscall/syscalls.c on a mailbox that holds a queue of messages.
use tay_huang_os.Prelude.{
  ℕ, true, false, some, List, ◌∷◌, ◌==◌, leb, ◌+◌, ◌-◌, ◌<◌, ◌≤◌, ◌≡◌, ◌≢◌, sym, ap, ◌∙◌, subst,
  arith, length, length-append,
}
use tay_huang_os.Kernel.State.{IpcInfo, Task, Kernel, set_task, current_task}
use tay_huang_os.Kernel.Ready.Chain.{update_self}
use tay_huang_os.Kernel.Mailbox.{Memory, read_bytes, read_body, recv_msg}
use tay_huang_os.Kernel.Mailbox.Header.{msgpack_size, to_bytes}
use tay_huang_os.Kernel.Mailbox.Ring.{ahead, ahead_in, ahead_add, Holds, Holds-append}
use tay_huang_os.Kernel.Mailbox.Bytes.{
  Stored, Outside, read_bytes-Holds, read_body-ring, read_body-Stored,
}
use tay_huang_os.Kernel.Mailbox.Queue.{
  Message, encode, encode_all, IsMailbox, of_bytes-to_bytes, length-encode, length-to_bytes,
}

module _ (pa : ℕ → ℕ → ℕ) (pgd : ℕ) where
  -- Where the pointer is, and what the ring still holds, behind the first message.
  behind :
      (ipc : IpcInfo) (mem : Memory) (m : Message) (ms : List Message)
      → IsMailbox (pa pgd) ipc mem (m ∷ ms)
      → let lo = ipc.mail in
        let size = ipc.mail_size in
        let p = ipc.read_ptr in
        let p8 = ahead lo size p 8 in
        Holds (pa pgd) lo size mem p (to_bytes m.pack)
        × Holds (pa pgd) lo size mem p8 m.body
        × Holds (pa pgd) lo size mem (ahead lo size p8 m.pack.length) (encode_all ms)
        × (8 + m.pack.length + length (encode_all ms) ≡ ipc.used_size)
  behind ipc mem m ms b =
      let lo = ipc.mail in
      let size = ipc.mail_size in
      let p = ipc.read_ptr in
      let total : 8 + m.pack.length + length (encode_all ms) ≡ ipc.used_size =
        omega (arith, b.used, length-append (encode m) (encode_all ms), length-encode m) in
      let (he, hr) =
        Holds-append (pa pgd) lo size mem p (encode m) (encode_all ms) b.from b.upto
          (omega (arith, length-encode m, b.room)) b.holds in
      let (hh, hb) =
        Holds-append (pa pgd) lo size mem p (to_bytes m.pack) m.body b.from b.upto
          (omega (arith, length-to_bytes m.pack, m.sized, b.room)) he in
      (
        hh,
        subst (λ n. Holds (pa pgd) lo size mem (ahead lo size p n) m.body) (length-to_bytes m.pack)
            hb,
        subst (λ q. Holds (pa pgd) lo size mem q (encode_all ms))
            (ap (ahead lo size p) (length-encode m)
              ∙ sym (ahead_add lo size p 8 m.pack.length b.from b.upto (omega (arith, b.room))))
            hr,
        total,
      )

  -- The two reads of `read_from_buffer` on a mailbox that is not empty.
  read-IsMailbox :
      (dst : ℕ) (ipc : IpcInfo) (mem : Memory) (m : Message) (ms : List Message)
      → IsMailbox (pa pgd) ipc mem (m ∷ ms)
      → Outside pa pgd ipc.mail ipc.mail_size (pa pgd) dst (length m.body)
      → ((u q : ℕ) → dst ≤ u → u < q → q < dst + length m.body → pa pgd u ≢ pa pgd q)
      → let ipc1 = record ipc { read_ptr = ahead ipc.mail ipc.mail_size ipc.read_ptr 8 } in
        let (ipc2, mem') = read_body pa pgd dst m.pack.length (ipc1, mem) in
        let ipc3 = record ipc2 { used_size = ipc2.used_size - (m.pack.length + msgpack_size) } in
        (read_bytes pa pgd msgpack_size mem ipc ≡ (to_bytes m.pack, ipc1))
        × (ipc2.used_size ≡ ipc.used_size)
        × (m.pack.length + msgpack_size ≤ ipc.used_size)
        × Stored (pa pgd) mem' dst m.body
        × IsMailbox (pa pgd) ipc3 mem' ms
  read-IsMailbox dst ipc mem m ms b out apart =
      let lo = ipc.mail in
      let size = ipc.mail_size in
      let p = ipc.read_ptr in
      let n = m.pack.length in
      let (hh, hb, hr, total) = behind ipc mem m ms b in
      let ipc1 = record ipc { read_ptr = ahead lo size p 8 } in
      let (l8, u8) = ahead_in lo size p 8 b.from b.upto (omega (arith, b.room)) in
      let (e2, keep) =
        subst
          (λ n.
            let (ipc', mem') = read_body pa pgd dst n (ipc1, mem) in
            (ipc' ≡ record ipc1 { read_ptr = ahead lo size ipc1.read_ptr n })
            × ((q : ℕ) (cs : List ℕ)
                → lo ≤ q
                → q < lo + size
                → Holds (pa pgd) lo size mem q cs
                → Holds (pa pgd) lo size mem' q cs))
          m.sized
          (read_body-ring pa pgd m.body dst ipc1 mem l8 u8 (omega (arith, b.room, m.sized)) out) in
      let stored : Stored (pa pgd) (read_body pa pgd dst n (ipc1, mem)).1 dst m.body =
        subst (λ n. Stored (pa pgd) (read_body pa pgd dst n (ipc1, mem)).1 dst m.body) m.sized
          (read_body-Stored pa pgd m.body dst ipc1 mem l8 u8 out apart hb) in
      let (ln, un) = ahead_in lo size (ahead lo size p 8) n l8 u8 (omega (arith, b.room)) in
      let mem' = (read_body pa pgd dst n (ipc1, mem)).1 in
      let left = ipc.used_size - (n + msgpack_size) in
      let used_split : ipc.used_size ≡ 8 + n + left = omega arith in
      let box : IsMailbox (pa pgd)
          (record ipc {
            read_ptr = ahead lo size (ahead lo size p 8) n;
            used_size = ipc.used_size - (n + msgpack_size);
          })
          mem' ms =
        record {
          apart = b.apart;
          from = ln;
          upto = un;
          holds = keep (ahead lo size (ahead lo size p 8) n) (encode_all ms) ln un hr;
          used = omega arith;
          room = omega (arith, b.room);
          written =
              b.written
              ∙ ap (ahead lo size p) used_split
              ∙ sym (ahead_add lo size p (8 + n) left b.from b.upto (omega (arith, b.room)))
              ∙ ap (λ q. ahead lo size q left)
                  (sym (ahead_add lo size p 8 n b.from b.upto (omega (arith, b.room))));
        } in
      (
        subst
            (λ k.
              read_bytes pa pgd k mem ipc
              ≡ (to_bytes m.pack, record ipc { read_ptr = ahead lo size p k }))
            (length-to_bytes m.pack)
            (read_bytes-Holds pa pgd (to_bytes m.pack) mem ipc b.from b.upto
              (omega (arith, b.room, length-to_bytes m.pack)) hh),
        ap (λ (i : IpcInfo). i.used_size) e2,
        omega arith,
        stored,
        subst
            (λ (i : IpcInfo).
              IsMailbox (pa pgd) (record i { used_size = i.used_size - (n + msgpack_size) }) mem'
                ms)
            (sym e2) box,
      )

pub recv_msg-IsMailbox :
    (pa : ℕ → ℕ → ℕ) (dst : ℕ) (k : Kernel) (mem : Memory) (m : Message) (ms : List Message)
    → let task = current_task k in
      let ipc = task.ipc_info in
      let at = pa task.pgd in
      IsMailbox at ipc mem (m ∷ ms)
      → Outside pa task.pgd ipc.mail ipc.mail_size at dst (length m.body)
      → ((u q : ℕ) → dst ≤ u → u < q → q < dst + length m.body → at u ≢ at q)
      → (k' : Kernel) × (mem' : Memory) × (recv_msg pa dst (k, mem) ≡ some (m.pack, k', mem'))
        × Stored at mem' dst m.body
        × IsMailbox (pa (current_task k').pgd) (current_task k').ipc_info mem' ms
unfolding recv_msg
recv_msg-IsMailbox pa dst k mem m ms b out apart =
    let task = current_task k in
    let ipc = task.ipc_info in
    let ipc1 = record ipc { read_ptr = ahead ipc.mail ipc.mail_size ipc.read_ptr 8 } in
    let n = m.pack.length in
    let (e1, e2, fits, stored, box) = read-IsMailbox pa task.pgd dst ipc mem m ms b out apart in
    let body = read_body pa task.pgd dst n (ipc1, mem) in
    let ipc3 = record body.0 { used_size = body.0.used_size - (n + msgpack_size) } in
    let k' = set_task k (k.thread k.current_thread).task (record task { ipc_info = ipc3 }) in
    let some_used : (ipc.used_size == 0) ≡ false = ground arith in
    let enough : leb (n + msgpack_size) body.0.used_size ≡ true = ground (arith, e2, fits) in
    (
      k',
      body.1,
      rw (e1, recv_msg, of_bytes-to_bytes m.pack, some_used, enough),
      stored,
      subst (λ (t : Task). IsMailbox (pa t.pgd) t.ipc_info body.1 ms)
          (sym
            (update_self k.task (k.thread k.current_thread).task (record task { ipc_info = ipc3 })))
          box,
    )
