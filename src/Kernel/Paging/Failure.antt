-- ===== src/Kernel/Paging/Failure.antt =====
-- When a mapping in the page tables of kernel/memory/paging.c fails.
use tay_huang_os.Prelude.{
  ℕ, zero, suc, Bool, true, false, [], ◌==◌, ◌+◌, ◌≤◌, ◌≡◌, ◌≢◌, refl, sym, ap, subst, ◌∙◌, arith,
  Bool-cases, Option-cases, ℕ-cases, inl, inr,
}
use tay_huang_os.Prelude.Int.{◌-ℤ◌}
use tay_huang_os.Kernel.State.{update}
use tay_huang_os.Kernel.Pmm.{
  Areas, max_order, area_size, alloc_pages, alloc_free_pages, return_pages, return_bits,
  return_whole,
}
use tay_huang_os.Kernel.Pmm.Cover.{within, cover}
use tay_huang_os.Kernel.Pmm.Alloc.{alloc_from-none, cover-alloc_pages_found}
use tay_huang_os.Kernel.Pmm.Aligned.{alloc_pages-Taken}
use tay_huang_os.Kernel.Paging.{Paging, next_table, ensure, index, set_level, set_mapping1}
use tay_huang_os.Kernel.Paging.Levels.{IsPaged, Ensured, ensure-present, ensure-Made, ensure-absent}

-- No list holds an area.
abbrev pub IsExhausted : Areas → Type 0
IsExhausted free = (j : ℕ) → j ≤ max_order → free j ≡ []

-- With address 0 not free, NULL means that nothing is left, and the lists stay so.
alloc_pages-IsExhausted :
    (free : Areas)
    → cover free 0 ≡ 0
    → (alloc_pages 0 free).0 ≡ 0
    → IsExhausted (alloc_pages 0 free).1
unfolding alloc_pages alloc_free_pages return_pages return_bits return_whole ◌-ℤ◌
alloc_pages-IsExhausted free c z = elim (Option-cases (alloc_free_pages 0 free)) [
  | inl e ↦ rw (e, alloc_pages) (λ j h. alloc_from-none 10 0 free e j (omega arith) (omega arith))
  | inr ((addr, give, free1), e) ↦
      let at : addr ≡ 0 = rw (e, alloc_pages) at z in
      let found = cover-alloc_pages_found 0 free addr give free1 (omega arith) e 0 in
      let inside : within addr (addr + area_size 0) 0 ≡ 1 = ground arith in
      absurd (omega (arith, found, inside, c))
]

ensure-free :
    (r us : Bool) (t i : ℕ) (s : Paging)
    → (s.tables t i).p ≡ true
    → (ensure r us t i s).free ≡ s.free
unfolding ensure
ensure-free r us t i s p = rw p refl

module _ (r us : Bool) (vaddr paddr : ℕ) where
  -- One level: its table is there, so a failure is one of the levels below.
  set_level-below :
      (n : ℕ) (lv lv1 : ℕ → ℕ) (t : ℕ) (s : Paging)
      → let i = index (suc (suc n)) vaddr in
        let s1 = ensure r us t i s in
        let t1 = next_table s1 t i in
        Ensured lv n t i s s1 lv1
        → lv t ≡ suc (suc n)
        → (lv1 t1 ≡ suc n)
          × (set_level (suc (suc n)) r us t vaddr paddr s
              ≡ set_level (suc n) r us t1 vaddr paddr s1)
  unfolding set_level
  set_level-below n lv lv1 t s d l =
      let i = index (suc (suc n)) vaddr in
      let t1 = next_table (ensure r us t i s) t i in
      let l1 : lv1 t ≡ suc (suc n) = d.kept t (λ z. absurd (omega (arith, l, z))) ∙ l in
      let low : lv1 t1 ≡ suc n = d.paged.levels t i n l1 d.present in
      let nz : (t1 == 0) ≡ false = elim (ℕ-cases t1 0) [
        | inl z ↦ absurd (omega (arith, ap lv1 z, d.paged.no_null, low))
        | inr ne ↦ ground arith
      ] in
      (low, rw nz refl)

  set_level-no_table :
      (n t : ℕ) (s : Paging)
      → let s1 = ensure r us t (index (suc (suc n)) vaddr) s in
        next_table s1 t (index (suc (suc n)) vaddr) ≡ 0
        → set_level (suc (suc n)) r us t vaddr paddr s ≡ (false, s1)
  unfolding set_level
  set_level-no_table n t s z =
      let i = index (suc (suc n)) vaddr in
      let e : (next_table (ensure r us t i s) t i == 0) ≡ true = ground (arith, z) in rw e refl

  set_level-IsExhausted :
      (n : ℕ) (lv : ℕ → ℕ) (t : ℕ) (s : Paging)
      → IsPaged lv s
      → lv t ≡ suc n
      → cover s.free 0 ≡ 0
      → (set_level (suc n) r us t vaddr paddr s).0 ≡ false
      → IsExhausted (set_level (suc n) r us t vaddr paddr s).1.free
  unfolding set_level
  set_level-IsExhausted zero lv t s w l c e = cc
  set_level-IsExhausted (suc n) lv t s w l c e =
      let i = index (suc (suc n)) vaddr in
      let page = (alloc_pages 0 s.free).0 in
      let s1 = ensure r us t i s in
      let t1 = next_table s1 t i in
      let all = set_level (suc (suc n)) r us t vaddr paddr s in
      elim (Bool-cases (s.tables t i).p) [
        | inl p ↦
            let (low, same) = set_level-below n lv lv t s (ensure-present lv n r us t i s w p) l in
            let w1 : IsPaged lv s1 = (ensure-present lv n r us t i s w p).paged in
            let c1 : cover s1.free 0 ≡ 0 = ap (λ f. cover f 0) (ensure-free r us t i s p) ∙ c in
            subst (λ (q : Bool × Paging). IsExhausted q.1.free) (sym same)
              (set_level-IsExhausted n lv t1 s1 w1 low c1
                (ap (λ (q : Bool × Paging). q.0) (sym same) ∙ e))
        | inr p ↦ elim (ℕ-cases page 0) [
          | inl z ↦
              let apart : page ≢ t = λ q. absurd (omega (arith, ap lv q, ap lv z, w.no_null, l)) in
              let (m, f) = ensure-Made r us t i s p apart in
              let gone : t1 ≡ 0 = omega (arith, m.leads, z) in
              subst (λ (q : Bool × Paging). IsExhausted q.1.free)
                (sym (set_level-no_table n t s gone))
                (subst IsExhausted (sym f) (alloc_pages-IsExhausted s.free c z))
          | inr nz ↦
              let lv1 = update lv page (suc n) in
              let d = ensure-absent lv n r us t i s w l p nz in
              let k = alloc_pages-Taken s.free w.aligned w.single nz in
              let apart : page ≢ t = λ q. omega (
                arith,
                ap (cover s.free) q,
                w.apart t (λ z. absurd (omega (arith, l, z))),
                k.was_free,
              ) in
              let f : s1.free ≡ (alloc_pages 0 s.free).1 = (ensure-Made r us t i s p apart).1 in
              let c1 : cover s1.free 0 ≡ 0 = ap (λ g. cover g 0) f ∙ omega (arith, k.fewer 0, c) in
              let (low, same) = set_level-below n lv lv1 t s d l in
              subst (λ (q : Bool × Paging). IsExhausted q.1.free) (sym same)
                (set_level-IsExhausted n lv1 t1 s1 d.paged low c1
                  (ap (λ (q : Bool × Paging). q.0) (sym same) ∙ e))
        ]
      ]

-- With the tables told from each other and from the free pages, and address 0 not free, a mapping
-- fails for want of memory only: no list of free areas holds an area afterwards.
pub set_mapping1-IsExhausted :
    (rw us : Bool) (pgd vaddr paddr : ℕ) (lv : ℕ → ℕ) (s : Paging)
    → IsPaged lv s
    → lv pgd ≡ 4
    → cover s.free 0 ≡ 0
    → (set_mapping1 rw us pgd vaddr paddr s).0 ≡ false
    → IsExhausted (set_mapping1 rw us pgd vaddr paddr s).1.free
unfolding set_mapping1
set_mapping1-IsExhausted r us pgd vaddr paddr lv s w l c e =
    set_level-IsExhausted r us vaddr paddr 3 lv pgd s w l c e
