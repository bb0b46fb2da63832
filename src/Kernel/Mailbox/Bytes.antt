-- ===== src/Kernel/Mailbox/Bytes.antt =====
-- The loops of `write_to_buffer` and `read_from_buffer` on the ring.
use mathlib.Core.List.{append_assoc, append-nil}
use tay_huang_os.Prelude.{
  ℕ, zero, suc, List, [], ◌∷◌, ◌++◌, ◌+◌, ◌<◌, ◌≤◌, ◌≡◌, ◌≢◌, refl, sym, ap, ◌∙◌, subst, arith,
  length, length-append,
}
use tay_huang_os.Kernel.State.{IpcInfo, update}
use tay_huang_os.Kernel.Ready.Chain.{update_self, update_ne}
use tay_huang_os.Kernel.Mailbox.{
  Memory, increase_ptr, write_bytes, write_body, read_bytes, read_body,
}
use tay_huang_os.Kernel.Mailbox.Ring.{
  next_ptr, ahead, Holds, Apart, Holds-update, Holds-update_outside, next_ahead, ahead_next,
  ahead_zero, next_in,
}

-- Bytes in a row of an address space.
abbrev pub Stored : (ℕ → ℕ) → Memory → ℕ → List ℕ → Type 0
Stored at mem src [] = Unit
Stored at mem src (b ∷ bs) = (mem (at src) ≡ b) × Stored at mem (src + 1) bs

Stored-update :
    (at : ℕ → ℕ) (mem : Memory) (a v src : ℕ) (bs : List ℕ)
    → ((q : ℕ) → src ≤ q → q < src + length bs → a ≢ at q)
    → Stored at mem src bs
    → Stored at (update mem a v) src bs
Stored-update at mem a v src [] out m = tt
Stored-update at mem a v src (b ∷ bs) out (e, m) = (
  update_ne mem a v (at src) (out src (omega arith) (omega arith)) ∙ e,
  Stored-update at mem a v (src + 1) bs (λ q h k. out q (omega arith) (omega arith)) m,
)

module _ (pa : ℕ → ℕ → ℕ) (pgd : ℕ) where
  -- What writing the bytes `vs` behind the bytes `bs`, which begin at `p`, does.
  pub write_bytes-Holds :
      (vs : List ℕ) (ipc : IpcInfo) (mem : Memory) (p : ℕ) (bs : List ℕ)
      → let lo = ipc.mail in
        let size = ipc.mail_size in
        Apart (pa pgd) lo size
        → lo ≤ p
        → p < lo + size
        → length bs + length vs ≤ size
        → ipc.write_ptr ≡ ahead lo size p (length bs)
        → Holds (pa pgd) lo size mem p bs
        → let (ipc', mem') = write_bytes pa pgd vs (ipc, mem) in
          (ipc' ≡ record ipc { write_ptr = ahead lo size p (length bs + length vs) })
          × Holds (pa pgd) lo size mem' p (bs ++ vs)
  unfolding write_bytes increase_ptr
  write_bytes-Holds [] ipc mem p bs apart h k l e m =
      (λ i. record ipc { write_ptr = write_end i }, rw append-nil m)
    where
      write_end : ipc.write_ptr ≡ ahead ipc.mail ipc.mail_size p (length bs + 0)
      write_end = e ∙ ap (ahead ipc.mail ipc.mail_size p) (omega arith)
  write_bytes-Holds (v ∷ vs) ipc mem p bs apart h k l e m =
      let lo = ipc.mail in
      let size = ipc.mail_size in
      let n = length bs in
      let one : length (bs ++ (v ∷ [])) ≡ suc n = length-append bs (v ∷ []) ∙ (omega arith) in
      let step : next_ptr lo size ipc.write_ptr ≡ ahead lo size p (length (bs ++ (v ∷ []))) =
        ap (next_ptr lo size) e
        ∙ next_ahead lo size p n h k (omega arith)
        ∙ ap (ahead lo size p) (sym one) in
      let held : Holds (pa pgd) lo size (update mem (pa pgd ipc.write_ptr) v) p (bs ++ (v ∷ [])) =
        subst (λ q. Holds (pa pgd) lo size (update mem (pa pgd q) v) p (bs ++ (v ∷ []))) (sym e)
          (Holds-update (pa pgd) lo size mem v p bs apart h k (omega arith) m) in
      let ipc1 = record ipc { write_ptr = next_ptr lo size ipc.write_ptr } in
      let mem1 = update mem (pa pgd ipc.write_ptr) v in
      let (ei, em) =
        write_bytes-Holds vs ipc1 mem1 p (bs ++ (v ∷ [])) apart h k (omega arith) step held in
      let total : length (bs ++ (v ∷ [])) + length vs ≡ n + length (v ∷ vs) = omega arith in
      (
        ei ∙ (λ i. record ipc { write_ptr = ahead lo size p (total i) }),
        subst (Holds (pa pgd) lo size (write_bytes pa pgd vs (ipc1, mem1)).1 p)
            (append_assoc bs (v ∷ []) vs) em,
      )

  -- The places of `n` addresses from `src` on are none of the buffer's.
  abbrev pub Outside : ℕ → ℕ → (ℕ → ℕ) → ℕ → ℕ → Type 0
  Outside lo size at src n =
      (r q : ℕ) → lo ≤ r → r < lo + size → src ≤ q → q < src + n → pa pgd r ≢ at q

  -- Copying a body from outside the buffer is writing its bytes.
  write_body-eq-write_bytes :
      (src_pgd src : ℕ) (bs : List ℕ) (ipc : IpcInfo) (mem : Memory)
      → Outside ipc.mail ipc.mail_size (pa src_pgd) src (length bs)
      → ipc.mail ≤ ipc.write_ptr
      → ipc.write_ptr < ipc.mail + ipc.mail_size
      → Stored (pa src_pgd) mem src bs
      → write_body pa pgd src_pgd src (length bs) (ipc, mem) ≡ write_bytes pa pgd bs (ipc, mem)
  unfolding write_body write_bytes increase_ptr
  write_body-eq-write_bytes src_pgd src [] ipc mem out h k m = refl
  write_body-eq-write_bytes src_pgd src (b ∷ bs) ipc mem out h k (e, m) =
      let lo = ipc.mail in
      let size = ipc.mail_size in
      let (h', k') = next_in lo size ipc.write_ptr h k in
      let ipc1 = record ipc { write_ptr = next_ptr lo size ipc.write_ptr } in
      let place = pa pgd ipc.write_ptr in
      ap (λ c. write_body pa pgd src_pgd (src + 1) (length bs) (ipc1, update mem place c)) e
      ∙ write_body-eq-write_bytes src_pgd (src + 1) bs ipc1 (update mem place b)
          (λ r q hr kr hq kq. out r q hr kr (omega arith) (omega arith)) h' k'
          (Stored-update (pa src_pgd) mem place b (src + 1) bs
            (λ q hq kq. out ipc.write_ptr q h k (omega arith) (omega arith)) m)

  -- Reading gives the bytes that the ring holds, and moves the pointer behind them.
  pub read_bytes-Holds :
      (bs : List ℕ) (mem : Memory) (ipc : IpcInfo)
      → let lo = ipc.mail in
        let size = ipc.mail_size in
        lo ≤ ipc.read_ptr
        → ipc.read_ptr < lo + size
        → length bs ≤ size
        → Holds (pa pgd) lo size mem ipc.read_ptr bs
        → read_bytes pa pgd (length bs) mem ipc
          ≡ (bs, record ipc { read_ptr = ahead lo size ipc.read_ptr (length bs) })
  unfolding read_bytes increase_ptr
  read_bytes-Holds [] mem ipc h k l m =
      let back = sym (ahead_zero ipc.mail ipc.mail_size ipc.read_ptr k) in
      λ i. ([], record ipc { read_ptr = back i })
  read_bytes-Holds (b ∷ bs) mem ipc h k l (e, m) =
      let lo = ipc.mail in
      let size = ipc.mail_size in
      let (h', k') = next_in lo size ipc.read_ptr h k in
      let ipc1 = record ipc { read_ptr = next_ptr lo size ipc.read_ptr } in
      let further = ahead_next lo size ipc.read_ptr (length bs) h k (omega arith) in
      rw (read_bytes-Holds bs mem ipc1 h' k' (omega arith) m)
        (λ i. (e i ∷ bs, record ipc { read_ptr = further i }))

  -- Copying `n` bytes of the ring to a place outside it moves the pointer behind them and leaves the
  -- ring as it was.
  pub read_body-ring :
      (bs : List ℕ) (dst : ℕ) (ipc : IpcInfo) (mem : Memory)
      → let lo = ipc.mail in
        let size = ipc.mail_size in
        lo ≤ ipc.read_ptr
        → ipc.read_ptr < lo + size
        → length bs ≤ size
        → Outside lo size (pa pgd) dst (length bs)
        → let (ipc', mem') = read_body pa pgd dst (length bs) (ipc, mem) in
          (ipc' ≡ record ipc { read_ptr = ahead lo size ipc.read_ptr (length bs) })
          × ((p : ℕ) (cs : List ℕ)
              → lo ≤ p
              → p < lo + size
              → Holds (pa pgd) lo size mem p cs
              → Holds (pa pgd) lo size mem' p cs)
  unfolding read_body increase_ptr
  read_body-ring [] dst ipc mem h k l out =
      let back = sym (ahead_zero ipc.mail ipc.mail_size ipc.read_ptr k) in
      (λ i. record ipc { read_ptr = back i }, λ p cs hp kp m. m)
  read_body-ring (b ∷ bs) dst ipc mem h k l out =
      let lo = ipc.mail in
      let size = ipc.mail_size in
      let (h', k') = next_in lo size ipc.read_ptr h k in
      let ipc1 = record ipc { read_ptr = next_ptr lo size ipc.read_ptr } in
      let mem1 = update mem (pa pgd dst) (mem (pa pgd ipc.read_ptr)) in
      let further = ahead_next lo size ipc.read_ptr (length bs) h k (omega arith) in
      let (ei, keep) =
        read_body-ring bs (dst + 1) ipc1 mem1 h' k' (omega arith)
          (λ r q hr kr hq kq. out r q hr kr (omega arith) (omega arith)) in
      (
        ei ∙ (λ i. record ipc { read_ptr = further i }),
        λ p cs hp kp m. keep p cs hp kp (
            Holds-update_outside (pa pgd) lo size mem (pa pgd dst) (mem (pa pgd ipc.read_ptr)) p cs
              (λ r hr kr. out r dst hr kr (omega arith) (omega arith)) hp kp m),
      )

  -- A place below `dst` that is none of the destination's keeps its byte.
  read_body-outside :
      (n dst q : ℕ) (ipc : IpcInfo) (mem : Memory)
      → ((r : ℕ) → dst ≤ r → r < dst + n → pa pgd r ≢ q)
      → (read_body pa pgd dst n (ipc, mem)).1 q ≡ mem q
  unfolding read_body
  read_body-outside zero dst q ipc mem out = refl
  read_body-outside (suc n) dst q ipc mem out =
      read_body-outside n (dst + 1) q _ _ (λ r hr kr. out r (omega arith) (omega arith))
      ∙ update_ne mem (pa pgd dst) _ q (out dst (omega arith) (omega arith))

  -- The destination gets the bytes that the ring held, in order.
  pub read_body-Stored :
      (bs : List ℕ) (dst : ℕ) (ipc : IpcInfo) (mem : Memory)
      → let lo = ipc.mail in
        let size = ipc.mail_size in
        lo ≤ ipc.read_ptr
        → ipc.read_ptr < lo + size
        → Outside lo size (pa pgd) dst (length bs)
        → ((m q : ℕ) → dst ≤ m → m < q → q < dst + length bs → pa pgd m ≢ pa pgd q)
        → Holds (pa pgd) lo size mem ipc.read_ptr bs
        → Stored (pa pgd) (read_body pa pgd dst (length bs) (ipc, mem)).1 dst bs
  unfolding read_body increase_ptr
  read_body-Stored [] dst ipc mem h k out apart m = tt
  read_body-Stored (b ∷ bs) dst ipc mem h k out apart (e, m) =
      let lo = ipc.mail in
      let size = ipc.mail_size in
      let (h', k') = next_in lo size ipc.read_ptr h k in
      let ipc1 = record ipc { read_ptr = next_ptr lo size ipc.read_ptr } in
      let mem1 = update mem (pa pgd dst) (mem (pa pgd ipc.read_ptr)) in
      (
        read_body-outside (length bs) (dst + 1) (pa pgd dst) ipc1 mem1
              (λ r hr kr e'. apart dst r (omega arith) (omega arith) (omega arith) (sym e'))
            ∙ update_self mem (pa pgd dst) (mem (pa pgd ipc.read_ptr))
            ∙ e,
        read_body-Stored bs (dst + 1) ipc1 mem1 h' k'
            (λ r q hr kr hq kq. out r q hr kr (omega arith) (omega arith))
            (λ u q hu uq kq. apart u q (omega arith) uq (omega arith))
            (Holds-update_outside (pa pgd) lo size mem (pa pgd dst) (mem (pa pgd ipc.read_ptr))
              (next_ptr lo size ipc.read_ptr) bs
              (λ r hr kr. out r dst hr kr (omega arith) (omega arith)) h' k' m),
      )

  -- Writing a header and then copying a body from outside the buffer is writing the bytes of both.
  pub write_header-body :
      (src_pgd src : ℕ) (hs bs : List ℕ) (ipc : IpcInfo) (mem : Memory)
      → Outside ipc.mail ipc.mail_size (pa src_pgd) src (length bs)
      → ipc.mail ≤ ipc.write_ptr
      → ipc.write_ptr < ipc.mail + ipc.mail_size
      → Stored (pa src_pgd) mem src bs
      → write_body pa pgd src_pgd src (length bs) (write_bytes pa pgd hs (ipc, mem))
        ≡ write_bytes pa pgd (hs ++ bs) (ipc, mem)
  unfolding write_bytes increase_ptr
  write_header-body src_pgd src [] bs ipc mem out h k m =
      write_body-eq-write_bytes src_pgd src bs ipc mem out h k m
  write_header-body src_pgd src (v ∷ hs) bs ipc mem out h k m =
      let (h', k') = next_in ipc.mail ipc.mail_size ipc.write_ptr h k in
      write_header-body src_pgd src hs bs
        (record ipc { write_ptr = next_ptr ipc.mail ipc.mail_size ipc.write_ptr })
        (update mem (pa pgd ipc.write_ptr) v) out h' k'
        (Stored-update (pa src_pgd) mem (pa pgd ipc.write_ptr) v src bs
          (λ q hq kq. out ipc.write_ptr q h k hq kq) m)
