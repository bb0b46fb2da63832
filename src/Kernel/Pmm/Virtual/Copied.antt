-- ===== src/Kernel/Pmm/Virtual/Copied.antt =====
-- What the copies between address spaces of kernel/memory/pmm.c leave in memory.
use tay_huang_os.Prelude.{
  ℕ, zero, suc, ◌+◌, ◌-◌, ◌*◌, ◌/◌, ◌≤◌, ◌<◌, ◌≡◌, ◌≢◌, refl, sym, ap, ◌∙◌, arith, ℕ-cases, inl,
  inr,
}
use tay_huang_os.Kernel.State.{null, update}
use tay_huang_os.Kernel.Ready.Chain.{update_ne, update_self}
use tay_huang_os.Kernel.Pmm.{memunit_sz}
use tay_huang_os.Kernel.Paging.{Paging, get_physical_address}
use tay_huang_os.Kernel.Paging.Shared.{SameBytes}
use tay_huang_os.Kernel.Pmm.Virtual.{copy_bytes, pvmemcpy}

-- No byte is written twice, and none is written before it is read.
abbrev pub IsCopyable : ℕ → (ℕ → ℕ) → ℕ → (ℕ → ℕ) → ℕ → Type 0
IsCopyable size to dst from src =
    (i j : ℕ) → i < j → j < size → (to (dst + i) ≢ to (dst + j)) × (to (dst + i) ≢ from (src + j))

-- The destination holds what the source held, and all other memory is as before.
pub record IsCopied (size : ℕ) (to : ℕ → ℕ) (dst : ℕ) (from : ℕ → ℕ) (src : ℕ) (mem mem' : ℕ → ℕ)
    : Type 0 where
  pub copied : (i : ℕ) → i < size → mem' (to (dst + i)) ≡ mem (from (src + i))
  pub others : (a : ℕ) → ((i : ℕ) → i < size → to (dst + i) ≢ a) → mem' a ≡ mem a

copy_bytes-IsCopied :
    (size : ℕ) (to : ℕ → ℕ) (dst : ℕ) (from : ℕ → ℕ) (src : ℕ) (mem : ℕ → ℕ)
    → IsCopyable size to dst from src
    → IsCopied size to dst from src mem (copy_bytes size to dst from src mem)
unfolding copy_bytes
copy_bytes-IsCopied zero to dst from src mem c = record {
  copied = λ i h. absurd (omega (arith, h));
  others = λ a h. refl;
}
copy_bytes-IsCopied (suc size) to dst from src mem c =
    let v = mem (from src) in
    let shift = λ (f : ℕ → ℕ) (p i : ℕ). ap f (the_next p i) in
    let r =
      copy_bytes-IsCopied size to (dst + 1) from (src + 1) (update mem (to dst) v) (λ i j lt h.
        let (w, a) = c (i + 1) (j + 1) (omega arith) (omega arith) in
        (
          λ e. w (sym (shift to dst i) ∙ e ∙ shift to dst j),
          λ e. a (sym (shift to dst i) ∙ e ∙ shift from src j),
        )) in
    let start : dst + 0 ≡ dst = omega arith in
    let later = λ (i : ℕ) (h : i < size). c 0 (i + 1) (omega arith) (omega (arith, h)) in
    record {
      copied = λ i h. elim (ℕ-cases i 0) [
        | inl z ↦ rw z (
            ap (copy_bytes size to (dst + 1) from (src + 1) (update mem (to dst) v)) (ap to start)
            ∙ r.others (to dst) (λ i h e. (later i h).0 (ap to start ∙ sym e ∙ shift to dst i))
            ∙ update_self mem (to dst) v
            ∙ ap (λ n. mem (from n)) (omega arith))
        | inr nz ↦
            let k = i - 1 in
            let e : i ≡ k + 1 = omega (arith, nz) in
            let h' : k < size = omega (arith, h, nz) in
            rw e (
              ap (copy_bytes size to (dst + 1) from (src + 1) (update mem (to dst) v))
                (sym (shift to dst k))
              ∙ r.copied k h'
              ∙ update_ne mem (to dst) v (from (src + 1 + k))
                  (λ q. (later k h').1 (ap to start ∙ q ∙ shift from src k))
              ∙ ap mem (shift from src k))
      ];
      others = λ a out.
          r.others a (λ i h e. out (i + 1) (omega (arith, h)) (sym (shift to dst i) ∙ e))
          ∙ update_ne mem (to dst) v a (λ e. out 0 (omega arith) (ap to start ∙ e));
    }
  where
    the_next : (p i : ℕ) → p + 1 + i ≡ p + (i + 1)
    the_next p i = omega arith

-- What the kernel copies to an address that a task shares is what the other task finds at the same
-- address. The bytes of the range are mapped by the task that shares them, each to a place of its own,
-- which is not one that is read later.
pub pvmemcpy-SameBytes :
    (source target mem pages dst src size : ℕ) (s s' : Paging) (bytes : ℕ → ℕ)
    → let place = get_physical_address s source in
      SameBytes source target mem pages s s'
      → mem / memunit_sz * memunit_sz ≤ dst
      → dst + size ≤ mem / memunit_sz * memunit_sz + pages * memunit_sz
      → ((i : ℕ) → i < size → place (dst + i) ≢ null)
      → IsCopyable size place dst (λ a. a) src
      → (i : ℕ) → i < size
      → pvmemcpy
          (get_physical_address s')
          target
          dst
          src
          size
          bytes
          (get_physical_address s' source (dst + i))
        ≡ bytes (src + i)
unfolding pvmemcpy
pvmemcpy-SameBytes source target mem pages dst src size s s' bytes same lo hi mapped c i h =
    let at = λ (j : ℕ) (g : j < size).
      same (dst + j) (omega (arith, lo)) (omega (arith, hi, g)) (mapped j g) in
    let r =
      copy_bytes-IsCopied size (get_physical_address s' target) dst (λ a. a) src bytes
        (λ j k lt g.
          let (w, a) = c j k lt g in
          let ej = (at j (omega (arith, lt, g))).1 in
          (λ e. w (sym ej ∙ e ∙ (at k g).1), λ e. a (sym ej ∙ e))) in
    ap (copy_bytes size (get_physical_address s' target) dst (λ a. a) src bytes)
      ((at i h).0 ∙ sym (at i h).1)
    ∙ r.copied i h
