-- ===== src/Kernel/Mailbox/Queue.antt =====
-- The mailboxes of kernel/syscall/syscalls.c as queues of messages.
use mathlib.Core.List.{append_assoc, append-nil}
use tay_huang_os.Prelude.{
  ℕ, List, [], ◌∷◌, ◌++◌, ◌+◌, ◌<◌, ◌≤◌, ◌≡◌, refl, sym, ap, ◌∙◌, subst, arith, length,
  length-append,
}
use tay_huang_os.Kernel.State.{IpcInfo}
use tay_huang_os.Kernel.Mailbox.{Memory, write_to_buffer, write_bytes, write_body}
use tay_huang_os.Kernel.Mailbox.Header.{Msgpack, to_bytes, of_bytes}
use tay_huang_os.Kernel.Mailbox.Ring.{ahead, ahead_in, Holds, Apart}
use tay_huang_os.Kernel.Mailbox.Bytes.{write_bytes-Holds, Stored, Outside, write_header-body}

-- The header survives the trip through memory.
pub of_bytes-to_bytes : (pack : Msgpack) → of_bytes (to_bytes pack) ≡ pack
unfolding of_bytes to_bytes
of_bytes-to_bytes pack = ground arith

pub length-to_bytes : (pack : Msgpack) → length (to_bytes pack) ≡ 8
unfolding to_bytes
length-to_bytes pack = refl

-- A message: its header and its body, as long as the header says.
pub record Message : Type 0 where
  pub pack : Msgpack
  pub body : List ℕ
  pub sized : length body ≡ pack.length

abbrev pub encode : Message → List ℕ
encode m = to_bytes m.pack ++ m.body

abbrev pub encode_all : List Message → List ℕ
encode_all [] = []
encode_all (m ∷ ms) = encode m ++ encode_all ms

encode_all-append :
    (ms : List Message) (m : Message) → encode_all (ms ++ (m ∷ [])) ≡ encode_all ms ++ encode m
encode_all-append [] m = append-nil _
encode_all-append (x ∷ ms) m =
    ap (λ t. encode x ++ t) (encode_all-append ms m)
    ∙ sym (append_assoc (encode x) (encode_all ms) (encode m))

pub length-encode : (m : Message) → length (encode m) ≡ 8 + m.pack.length
length-encode m =
    length-append (to_bytes m.pack) m.body ∙ omega (arith, length-to_bytes m.pack, m.sized)

-- The mailbox `ipc`, in the address space `at`, holds the messages `ms`, oldest first.
pub record IsMailbox (at : ℕ → ℕ) (ipc : IpcInfo) (mem : Memory) (ms : List Message) : Type 0 where
  pub apart : Apart at ipc.mail ipc.mail_size
  pub from : ipc.mail ≤ ipc.read_ptr
  pub upto : ipc.read_ptr < ipc.mail + ipc.mail_size
  pub holds : Holds at ipc.mail ipc.mail_size mem ipc.read_ptr (encode_all ms)
  pub used : ipc.used_size ≡ length (encode_all ms)
  pub room : ipc.used_size ≤ ipc.mail_size
  pub written : ipc.write_ptr ≡ ahead ipc.mail ipc.mail_size ipc.read_ptr ipc.used_size

module _ (pa : ℕ → ℕ → ℕ) where
  -- The bytes of a message that fits go behind those that are there.
  pub write_to_buffer-IsMailbox :
      (pgd src_pgd src : ℕ) (ipc : IpcInfo) (mem : Memory) (ms : List Message) (m : Message)
      → IsMailbox (pa pgd) ipc mem ms
      → ipc.used_size + (8 + m.pack.length) ≤ ipc.mail_size
      → Outside pa pgd ipc.mail ipc.mail_size (pa src_pgd) src (length m.body)
      → Stored (pa src_pgd) mem src m.body
      → let counted = record ipc { used_size = ipc.used_size + (8 + m.pack.length) } in
        let (ipc', mem') = write_to_buffer pa pgd m.pack src_pgd src (counted, mem) in
        IsMailbox (pa pgd) ipc' mem' (ms ++ (m ∷ []))
  unfolding write_to_buffer
  write_to_buffer-IsMailbox pgd src_pgd src ipc mem ms m b fits out stored =
      let lo = ipc.mail in
      let room = ipc.mail_size in
      let p = ipc.read_ptr in
      let head = to_bytes m.pack in
      let old = encode_all ms in
      let counted = record ipc { used_size = ipc.used_size + (8 + m.pack.length) } in
      let at_end : counted.write_ptr ≡ ahead lo room p (length old) =
        b.written ∙ ap (ahead lo room p) b.used in
      let (wl, wh) = ahead_in lo room p (length old) b.from b.upto (omega (arith, b.used)) in
      let wl' : lo ≤ counted.write_ptr = rw at_end wl in
      let wh' : counted.write_ptr < lo + room = rw at_end wh in
      let both : write_to_buffer pa pgd m.pack src_pgd src (counted, mem)
          ≡ write_bytes pa pgd (encode m) (counted, mem) =
        ap (λ n. write_body pa pgd src_pgd src n (write_bytes pa pgd head (counted, mem)))
          (sym m.sized)
        ∙ write_header-body pa pgd src_pgd src head m.body counted mem out wl' wh' stored in
      let len : length (encode m) ≡ 8 + m.pack.length = length-encode m in
      let (e1, h1) =
        write_bytes-Holds pa pgd (encode m) counted mem p old b.apart b.from b.upto
          (omega (arith, b.used)) at_end b.holds in
      let all = encode_all-append ms m in
      let total : length (encode_all (ms ++ (m ∷ []))) ≡ ipc.used_size + (8 + m.pack.length) =
        ap length all ∙ length-append old (encode m) ∙ omega (arith, b.used) in
      let end = ahead lo room p (length old + length (encode m)) in
      subst (λ (r : IpcInfo × Memory). IsMailbox (pa pgd) r.0 r.1 (ms ++ (m ∷ []))) (sym both)
        (subst
          (λ i.
            IsMailbox (pa pgd) i (write_bytes pa pgd (encode m) (counted, mem)).1 (ms ++ (m ∷ [])))
          (sym e1)
          (record {
            apart = b.apart;
            from = b.from;
            upto = b.upto;
            holds =
                subst (Holds (pa pgd) lo room (write_bytes pa pgd (encode m) (counted, mem)).1 p)
                  (sym all) h1;
            used = sym total;
            room = fits;
            written = ap (ahead lo room p) (omega (arith, b.used));
          }))
