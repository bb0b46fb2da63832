-- ===== src/Kernel/Kheap/Links.antt =====
-- The headers of kernel/memory/kheap.c as a list that is linked both ways.
use tay_huang_os.Prelude.{
  ℕ, true, false, List, [], ◌∷◌, ◌++◌, ◌≡◌, ◌≢◌, refl, sym, ap, ◌∙◌, subst, arith, ℕ-cases, inl,
  inr, ◌==◌,
}
use tay_huang_os.Kernel.State.{update}
use tay_huang_os.Kernel.Ready.Chain.{update_self, update_ne}
use tay_huang_os.Kernel.Kheap.{SegInfo, Segs, set_last}
use tay_huang_os.Kernel.Kheap.Blocks.{Block, Fresh, AllDistinct}

-- Where a list of blocks begins, and where its last block stands.
abbrev pub first_or : ℕ → List Block → ℕ
first_or e [] = e
first_or e (x ∷ xs) = x.addr

abbrev pub end_or : ℕ → List Block → ℕ
end_or d [] = d
end_or d (x ∷ xs) = end_or x.addr xs

abbrev pub info : Block → ℕ → ℕ → SegInfo
info x last next = record { size = x.size; used = x.used; next = next; last = last }

-- The headers of the blocks, linked both ways; `last` stands before the first of them, and `next` behind
-- the last one.
abbrev pub Linked : Segs → ℕ → List Block → ℕ → Type 0
Linked m last [] next = Unit
Linked m last (x ∷ xs) next =
    (x.addr ≢ 0) × (m x.addr ≡ info x last (first_or next xs)) × Linked m x.addr xs next

pub Linked-append :
    (m : Segs) (last : ℕ) (xs ys : List Block) (next : ℕ)
    → Linked m last xs (first_or next ys)
    → Linked m (end_or last xs) ys next
    → Linked m last (xs ++ ys) next
Linked-append m last [] ys next a b = b
Linked-append m last (x ∷ []) ys next (n, e, a) b = (n, e, b)
Linked-append m last (x ∷ y ∷ xs) ys next (n, e, a) b =
    (n, e, Linked-append m x.addr (y ∷ xs) ys next a b)

pub Linked-split :
    (m : Segs) (last : ℕ) (xs ys : List Block) (next : ℕ)
    → Linked m last (xs ++ ys) next
    → Linked m last xs (first_or next ys) × Linked m (end_or last xs) ys next
Linked-split m last [] ys next a = (tt, a)
Linked-split m last (x ∷ []) ys next (n, e, a) = ((n, e, tt), a)
Linked-split m last (x ∷ y ∷ xs) ys next (n, e, a) =
    let (a1, a2) = Linked-split m x.addr (y ∷ xs) ys next a in ((n, e, a1), a2)

-- A write that misses the headers.
pub Linked-update :
    (m : Segs) (a : ℕ) (v : SegInfo) (last : ℕ) (xs : List Block) (next : ℕ)
    → Fresh a xs
    → Linked m last xs next
    → Linked (update m a v) last xs next
Linked-update m a v last [] next f l = tt
Linked-update m a v last (x ∷ xs) next (n, f) (z, e, l) =
    (z, update_ne m a v x.addr n ∙ e, Linked-update m a v x.addr xs next f l)

set_last_nonzero :
    (p q : ℕ) (m : Segs) → p ≢ 0 → set_last p q m ≡ update m p (record (m p) { last = q })
set_last_nonzero p q m h = let z : (p == 0) ≡ false = ground arith in rw z

-- Another block before the first one.
pub Linked-set_last :
    (m : Segs) (q last : ℕ) (xs : List Block)
    → AllDistinct xs
    → Linked m last xs 0
    → Linked (set_last (first_or 0 xs) q m) q xs 0
Linked-set_last m q last [] d l = tt
Linked-set_last m q last (x ∷ xs) (f, d) (z, e, l) =
    let at : update m x.addr (record (m x.addr) { last = q }) x.addr ≡ info x q (first_or 0 xs) =
      update_self m x.addr (record (m x.addr) { last = q })
      ∙ ap (λ (s : SegInfo). record s { last = q }) e in
    subst (λ s. Linked s q (x ∷ xs) 0) (sym (set_last_nonzero x.addr q m z))
      (z, at, Linked-update m x.addr (record (m x.addr) { last = q }) x.addr xs 0 f l)

-- A write through the links of the list does not reach a header that is not in it.
pub set_last_ne :
    (m : Segs) (q a : ℕ) (xs : List Block) → Fresh a xs → set_last (first_or 0 xs) q m a ≡ m a
set_last_ne m q a [] f = refl
set_last_ne m q a (x ∷ xs) (n, f) = ground arith

-- The first of the one list does not stand in the other.
abbrev pub FreshHead : List Block → List Block → Type 0
FreshHead [] xs = Unit
FreshHead (y ∷ ys) xs = Fresh y.addr xs

pub Linked-set_last_outside :
    (m : Segs) (q last : ℕ) (xs ys : List Block) (next : ℕ)
    → FreshHead ys xs
    → Linked m last xs next
    → Linked (set_last (first_or 0 ys) q m) last xs next
Linked-set_last_outside m q last xs [] next f l = l
Linked-set_last_outside m q last xs (y ∷ ys) next f l = elim (ℕ-cases y.addr 0) [
  | inl e ↦ let z : (y.addr == 0) ≡ true = ground arith in rw z l
  | inr ne ↦
      subst (λ s. Linked s last xs next) (sym (set_last_nonzero y.addr q m ne))
        (Linked-update m y.addr (record (m y.addr) { last = q }) last xs next f l)
]
