-- ===== src/Kernel/Mailbox/Ring.antt =====
-- Bytes in the ring of a mailbox: from an address on, going round at the end of the buffer.
use tay_huang_os.Prelude.{
  ℕ, suc, List, [], ◌∷◌, ◌++◌, ltb, leb, if◌then◌else◌, ◌+◌, ◌-◌, ◌<◌, ◌≤◌, ◌≡◌, ◌≢◌, sym, ◌∙◌,
  subst, arith, length,
}
use tay_huang_os.Kernel.State.{update}
use tay_huang_os.Kernel.Ready.Chain.{update_self, update_ne}
use tay_huang_os.Kernel.Mailbox.{Memory}

-- A buffer at `lo` of `size` bytes.
module _ (lo size : ℕ) where
  -- The next address, and the address `n` bytes further on, for `n` up to `size`.
  abbrev pub next_ptr : ℕ → ℕ
  next_ptr p = if leb (lo + size) (p + 1) then lo else p + 1

  abbrev pub ahead : ℕ → ℕ → ℕ
  ahead p n = if ltb (p + n) (lo + size) then p + n else p + n - size

  pub next_in : (p : ℕ) → lo ≤ p → p < lo + size → (lo ≤ next_ptr p) × (next_ptr p < lo + size)
  next_in p h k = ground arith

  pub ahead_in :
      (p n : ℕ) → lo ≤ p → p < lo + size → n ≤ size → (lo ≤ ahead p n) × (ahead p n < lo + size)
  ahead_in p n h k l = ground arith

  pub ahead_zero : (p : ℕ) → p < lo + size → ahead p 0 ≡ p
  ahead_zero p k = ground arith

  pub ahead_next :
      (p n : ℕ) → lo ≤ p → p < lo + size → n < size → ahead (next_ptr p) n ≡ ahead p (suc n)
  ahead_next p n h k l = ground arith

  pub next_ahead :
      (p n : ℕ) → lo ≤ p → p < lo + size → n < size → next_ptr (ahead p n) ≡ ahead p (suc n)
  next_ahead p n h k l = ground arith

  pub ahead_add :
      (p m n : ℕ) → lo ≤ p → p < lo + size → m + n ≤ size → ahead (ahead p m) n ≡ ahead p (m + n)
  ahead_add p m n h k l = ground arith

  ahead_ne : (p n : ℕ) → lo ≤ p → p < lo + size → suc n < size → ahead p (suc n) ≢ p
  ahead_ne p n h k l = ground arith

-- The same in the address space in which `at` finds a byte's place.
module _ (at : ℕ → ℕ) (lo size : ℕ) where
  -- From `p` on the ring holds the bytes `bs`.
  abbrev pub Holds : Memory → ℕ → List ℕ → Type 0
  Holds mem p [] = Unit
  Holds mem p (b ∷ bs) = (mem (at p) ≡ b) × Holds mem (next_ptr lo size p) bs

  -- Two addresses of the buffer have different places.
  abbrev pub Apart : Type 0
  Apart = (p q : ℕ) → lo ≤ p → p < lo + size → lo ≤ q → q < lo + size → at p ≡ at q → p ≡ q

  -- A write at a place that holds none of the bytes.
  pub Holds-update_outside :
      (mem : Memory) (q v p : ℕ) (bs : List ℕ)
      → ((r : ℕ) → lo ≤ r → r < lo + size → at r ≢ q)
      → lo ≤ p
      → p < lo + size
      → Holds mem p bs
      → Holds (update mem q v) p bs
  Holds-update_outside mem q v p [] out h k m = tt
  Holds-update_outside mem q v p (b ∷ bs) out h k (e, m) =
      let (h', k') = next_in lo size p h k in
      let ne : at p ≢ q = out p h k in
      (ground arith, Holds-update_outside mem q v (next_ptr lo size p) bs out h' k' m)

  -- A write just past the bytes, while they leave room, adds the byte to them.
  pub Holds-update :
      (mem : Memory) (v p : ℕ) (bs : List ℕ)
      → Apart
      → lo ≤ p
      → p < lo + size
      → length bs < size
      → Holds mem p bs
      → Holds (update mem (at (ahead lo size p (length bs))) v) p (bs ++ (v ∷ []))
  Holds-update mem v p [] apart h k l m =
      subst (λ q. Holds (update mem (at q) v) p (v ∷ [])) (sym (ahead_zero lo size p k))
        (update_self mem (at p) v, tt)
  Holds-update mem v p (b ∷ bs) apart h k l (e, m) =
      let n = length bs in
      let (h', k') = next_in lo size p h k in
      let (ha, ka) = ahead_in lo size p (suc n) h k (omega arith) in
      let ne : at (ahead lo size p (suc n)) ≢ at p =
        λ q. ahead_ne lo size p n h k l (apart (ahead lo size p (suc n)) p ha ka h k q) in
      (
        update_ne mem (at (ahead lo size p (suc n))) v (at p) ne ∙ e,
        subst (λ q. Holds (update mem (at q) v) (next_ptr lo size p) (bs ++ (v ∷ [])))
            (ahead_next lo size p n h k (omega arith))
            (Holds-update mem v (next_ptr lo size p) bs apart h' k' (omega arith) m),
      )

  -- The first bytes of those that the ring holds.
  pub Holds-append :
      (mem : Memory) (p : ℕ) (bs cs : List ℕ)
      → lo ≤ p
      → p < lo + size
      → length bs + length cs ≤ size
      → Holds mem p (bs ++ cs)
      → Holds mem p bs × Holds mem (ahead lo size p (length bs)) cs
  Holds-append mem p [] cs h k l m =
      (tt, subst (λ q. Holds mem q cs) (sym (ahead_zero lo size p k)) m)
  Holds-append mem p (b ∷ bs) [] h k l (e, m) =
      let (h', k') = next_in lo size p h k in
      ((e, (Holds-append mem (next_ptr lo size p) bs [] h' k' (omega arith) m).0), tt)
  Holds-append mem p (b ∷ bs) (c ∷ cs) h k l (e, m) =
      let (h', k') = next_in lo size p h k in
      let (mb, mc) = Holds-append mem (next_ptr lo size p) bs (c ∷ cs) h' k' (omega arith) m in
      (
        (e, mb),
        subst (λ q. Holds mem q (c ∷ cs)) (ahead_next lo size p (length bs) h k (omega arith)) mc,
      )
