-- ===== src/Kernel/Pmm/Virtual/Given.antt =====
-- Memory that `alloc_vpages` of kernel/memory/pmm.c gives to an address space.
use native.Mathlib.Nat.{pow-suc}
use native.Mathlib.Numerals.{add-one}
use tay_huang_os.Prelude.{
  ℕ, zero, suc, Bool, true, false, ◌+◌, ◌*◌, ◌/◌, ◌%◌, ◌^◌, ◌≤◌, ◌≡◌, inl, inr, refl, sym, ap,
  subst, ◌∙◌, arith, ◌==◌, Bool-cases,
}
use tay_huang_os.Prelude.Int.{pos}
use tay_huang_os.Kernel.Pmm.{memunit_sz, max_order, area_size}
use tay_huang_os.Kernel.Pmm.Cover.{odd_total, even_total}
use tay_huang_os.Kernel.Paging.{Paging}
use tay_huang_os.Kernel.Paging.Tree.Paths.{IsTree}
use tay_huang_os.Kernel.Paging.Levels.{IsPaged}
use tay_huang_os.Kernel.Pmm.Virtual.{alloc_block, alloc_whole, alloc_bits, alloc_vpages}
use tay_huang_os.Kernel.Pmm.Virtual.Block.{
  IsGiven, IsGiven-nil, IsGiven-append, IsGranted, alloc_block-IsGiven,
}

-- All blocks of the second loop were found and mapped, and all of both loops.
abbrev pub AllWhole : ℕ → ℕ → ℕ → Paging → Type 0
AllWhole zero pgd vaddr s = Unit
AllWhole (suc n) pgd vaddr s =
    IsGranted max_order pgd vaddr s
    × AllWhole n pgd (vaddr + area_size max_order) (alloc_block max_order pgd vaddr s)

abbrev pub If : Bool → Type 0 → Type 0 → Type 0
If true A B = A
If false A B = B

abbrev pub AllGranted : ℕ → ℕ → ℕ → ℕ → ℕ → Paging → Type 0
AllGranted zero i n pgd vaddr s = AllWhole n pgd vaddr s
AllGranted (suc rounds) i n pgd vaddr s =
    If (n % 2 == 1)
      (IsGranted i pgd vaddr s
        × AllGranted rounds (i + 1) (n / 2) pgd (vaddr + area_size i) (alloc_block i pgd vaddr s))
      (AllGranted rounds (i + 1) (n / 2) pgd vaddr s)

module _ (pgd : ℕ) where
  -- A block, and what comes behind it.
  block-then :
      (order vaddr m pages : ℕ) (lv : ℕ → ℕ) (s s' : Paging)
      → order ≤ max_order
      → IsPaged lv s
      → IsTree lv s
      → lv pgd ≡ 4
      → vaddr % memunit_sz ≡ 0
      → vaddr + pages * memunit_sz ≤ 2 ^ 48
      → 2 ^ order + m ≡ pages
      → IsGranted order pgd vaddr s
      → ((lv1 : ℕ → ℕ)
          → IsPaged lv1 (alloc_block order pgd vaddr s)
          → IsTree lv1 (alloc_block order pgd vaddr s)
          → lv1 pgd ≡ 4
          → IsGiven pgd (vaddr + area_size order) m lv1 (alloc_block order pgd vaddr s) s')
      → IsGiven pgd vaddr pages lv s s'
  block-then order vaddr m pages lv s s' o w tr l va top sum g others =
      let s1 = alloc_block order pgd vaddr s in
      let a = alloc_block-IsGiven order pgd vaddr lv s o w tr l va (omega (arith, top, sum)) g in
      let lv1 = a.mapped.level in
      let root : lv1 pgd ≡ 4 = a.mapped.kept pgd (λ z. absurd (omega (arith, l, z))) ∙ l in
      IsGiven-append pgd vaddr (2 ^ order) m pages lv s s1 s' sum l top w.single a (
        subst (λ (size : ℕ). IsGiven pgd (vaddr + size) m lv1 s1 s') (omega arith)
          (others lv1 a.mapped.paged a.mapped.tree root))

  alloc_whole-IsGiven :
      (n pages vaddr : ℕ) (lv : ℕ → ℕ) (s : Paging)
      → IsPaged lv s
      → IsTree lv s
      → lv pgd ≡ 4
      → vaddr % memunit_sz ≡ 0
      → vaddr + pages * memunit_sz ≤ 2 ^ 48
      → n * 512 ≡ pages
      → AllWhole n pgd vaddr s
      → IsGiven pgd vaddr pages lv s (alloc_whole n pgd vaddr s)
  unfolding alloc_whole
  alloc_whole-IsGiven zero pages vaddr lv s w tr l va top sum g =
      let none : 0 ≡ pages = omega (arith, sum) in
      subst (λ (p : ℕ). IsGiven pgd vaddr p lv s s) none (IsGiven-nil pgd vaddr lv s w tr)
  alloc_whole-IsGiven (suc n) pages vaddr lv s w tr l va top sum (g, gs) =
      block-then max_order vaddr (n * 512) pages lv s _ (omega arith) w tr l va top
        (omega (arith, sum)) g
        (λ lv1 w1 tr1 l1.
          alloc_whole-IsGiven n (n * 512) (vaddr + area_size max_order) lv1 _ w1 tr1 l1
            (omega (arith, va)) (omega (arith, top, sum)) refl gs)

  alloc_bits-IsGiven :
      (rounds i n pages vaddr : ℕ) (lv : ℕ → ℕ) (s : Paging)
      → i + rounds ≡ max_order
      → IsPaged lv s
      → IsTree lv s
      → lv pgd ≡ 4
      → vaddr % memunit_sz ≡ 0
      → vaddr + pages * memunit_sz ≤ 2 ^ 48
      → n * 2 ^ i ≡ pages
      → AllGranted rounds i n pgd vaddr s
      → IsGiven pgd vaddr pages lv s (alloc_bits rounds i (pos n) pgd vaddr s)
  unfolding alloc_bits
  alloc_bits-IsGiven zero i n pages vaddr lv s h w tr l va top sum g =
      let e : i ≡ 9 = omega (arith, h) in
      alloc_whole-IsGiven n pages vaddr lv s w tr l va top (ap (λ (k : ℕ). n * 2 ^ k) (sym e) ∙ sum)
        g
  alloc_bits-IsGiven (suc rounds) i n pages vaddr lv s h w tr l va top sum g =
      let granted =
        IsGranted i pgd vaddr s
        × AllGranted rounds (i + 1) (n / 2) pgd (vaddr + area_size i) (alloc_block i pgd vaddr s) in
      let none_here = AllGranted rounds (i + 1) (n / 2) pgd vaddr s in
      let twice : 2 ^ (i + 1) ≡ 2 * 2 ^ i = rw add-one (rw pow-suc (omega arith)) in
      elim (Bool-cases (n % 2 == 1)) [
        | inl odd ↦
            let rest : 2 ^ i + n / 2 * 2 ^ (i + 1) ≡ pages =
              sym (odd_total n (2 ^ i) (2 ^ (i + 1)) (ground (arith, odd)) twice) ∙ sum in
            let behind = vaddr + area_size i in
            let both = subst (λ b. If b granted none_here) odd g in
            rw odd (
              block-then i vaddr (n / 2 * 2 ^ (i + 1)) pages lv s _ (omega (arith, h)) w tr l va top
                rest both.0
                (λ lv1 w1 tr1 l1.
                  alloc_bits-IsGiven rounds (i + 1) (n / 2) (n / 2 * 2 ^ (i + 1)) behind lv1 _
                    (omega (arith, h)) w1 tr1 l1 (omega (arith, va)) (omega (arith, top, rest)) refl
                    both.1))
        | inr even ↦
            let same : n / 2 * 2 ^ (i + 1) ≡ pages =
              even_total n (2 ^ i) (2 ^ (i + 1)) (ground (arith, even)) twice ∙ sum in
            let all = subst (λ b. If b granted none_here) even g in
            rw even (
              alloc_bits-IsGiven rounds (i + 1) (n / 2) pages vaddr lv s (omega (arith, h)) w tr l
                va top same all)
      ]

-- With the tables a tree of their levels, `pgd` a root of it, apart from the free pages, no page free
-- twice, and `addr` the start of a page: when every block of `alloc_vpages` is found and mapped, the
-- range from `addr` on, which ends below 2^48, is memory of the address space alone. Its addresses
-- lead to bytes that were free and are not after, each to one of its own; every translation below
-- 2^48 outside of the range and every one of another address space is as before, no page becomes
-- free, and the tables stay a tree.
pub alloc_vpages-IsGiven :
    (pgd addr pages : ℕ) (lv : ℕ → ℕ) (s : Paging)
    → IsPaged lv s
    → IsTree lv s
    → lv pgd ≡ 4
    → addr % memunit_sz ≡ 0
    → addr + pages * memunit_sz ≤ 2 ^ 48
    → AllGranted max_order 0 pages pgd addr s
    → IsGiven pgd addr pages lv s (alloc_vpages pgd addr (pos pages) s)
unfolding alloc_vpages
alloc_vpages-IsGiven pgd addr pages lv s w tr l va top g =
    alloc_bits-IsGiven pgd max_order 0 pages pages addr lv s refl w tr l va top (omega arith) g
