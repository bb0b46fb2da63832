-- ===== src/Kernel/Paging/Walk.antt =====
-- Mapping and lookup in the page tables of kernel/memory/paging.c.
pub mod Page
use tay_huang_os.Prelude.{
  ℕ, zero, suc, Bool, true, false, ◌==◌, ◌+◌, ◌*◌, ◌/◌, ◌%◌, ◌≤◌, ◌<◌, ◌≡◌, ◌≢◌, refl, sym, ap, ◌∙◌,
  subst, arith, Bool-cases, ℕ-cases, inl, inr,
}
use tay_huang_os.Kernel.State.{update}
use tay_huang_os.Kernel.Ready.Chain.{update_ne, update_self}
use tay_huang_os.Kernel.Pmm.{memunit_sz, alloc_pages}
use tay_huang_os.Kernel.Pmm.Cover.{cover}
use tay_huang_os.Kernel.Paging.{
  Entry, Paging, next_table, ensure, map_page, index, set_level, set_mapping1, walk_level,
  get_physical_address,
}
use tay_huang_os.Kernel.Paging.Tree.{IsTree-same, IsFramed-step}
use tay_huang_os.Kernel.Paging.Tree.Paths.{IsTree, IsFramed, Leads, go_on, walk_level-go_on}
use tay_huang_os.Kernel.Paging.Levels.{IsPaged, Ensured, ensure-present, ensure-Made, ensure-absent}
use tay_huang_os.Kernel.Paging.Walk.Page.{
  Mapped, map_page-entry, walk_level-present, map_page-Mapped,
}

module _ (r us : Bool) (vaddr paddr : ℕ) where
  -- One level, with what the levels below do.
  set_level-step :
      (n : ℕ) (lv lv1 : ℕ → ℕ) (t : ℕ) (s : Paging)
      → let i = index (suc (suc n)) vaddr in
        let s1 = ensure r us t i s in
        let t1 = next_table s1 t i in
        let low = set_level (suc n) r us t1 vaddr paddr s1 in
        let all = set_level (suc (suc n)) r us t vaddr paddr s in
        Ensured lv n t i s s1 lv1
        → Leads lv s
        → lv t ≡ suc (suc n)
        → all.0 ≡ true
        → (IsPaged lv1 s1
            → lv1 t1 ≡ suc n
            → low.0 ≡ true
            → (lv' : ℕ → ℕ) × Mapped n t1 vaddr paddr s1 low.1 lv1 lv')
        → (lv' : ℕ → ℕ) × Mapped (suc n) t vaddr paddr s all.1 lv lv'
  unfolding set_level
  set_level-step n lv lv1 t s d leads l e below =
      let i = index (suc (suc n)) vaddr in
      let s1 = ensure r us t i s in
      let t1 = next_table s1 t i in
      let l1 : lv1 t ≡ suc (suc n) = d.kept t (λ z. absurd (omega (arith, l, z))) ∙ l in
      let low : lv1 t1 ≡ suc n = d.paged.levels t i n l1 d.present in
      let nz : (t1 == 0) ≡ false = elim (ℕ-cases t1 0) [
        | inl z ↦ absurd (omega (arith, ap lv1 z, d.paged.no_null, low))
        | inr ne ↦ ground arith
      ] in
      let (lv', g) = below d.paged low (rw nz at e) in
      let s' = (set_level (suc n) r us t1 vaddr paddr s1).1 in
      let same : s'.tables t ≡ s1.tables t = g.above t (omega (arith, l1)) in
      (
        lv',
        rw nz (record {
          paged = g.paged;
          kept = λ x h. g.kept x (λ z. h (sym (d.kept x h) ∙ z)) ∙ d.kept x h;
          found =
              walk_level-present (suc n) t vaddr s'
                (ap (λ (f : ℕ → Entry). (f i).p) same ∙ d.present)
              ∙ ap (λ (f : ℕ → Entry). walk_level (suc n) ((f i).address * memunit_sz) vaddr s')
                  same
              ∙ g.found;
          above = λ x h.
              g.above x (omega (arith, d.kept x (λ z. absurd (omega (arith, z))))) ∙ d.above x h;
          tree = λ tr. g.tree (d.tree tr);
          framed = λ tr.
              IsFramed-step n lv lv1 t vaddr s s1 s' leads l d.kept d.others d.rest d.present
                d.fresh d.paged.levels (d.tree tr) g.above (g.framed (d.tree tr));
          fewer = λ b. omega (arith, g.fewer b, d.fewer b);
        }),
      )

  -- A new table that is NULL makes `set_level` fail.
  set_level-no_page :
      (n : ℕ) (lv : ℕ → ℕ) (t : ℕ) (s : Paging)
      → IsPaged lv s
      → lv t ≡ suc (suc n)
      → (s.tables t (index (suc (suc n)) vaddr)).p ≡ false
      → (alloc_pages 0 s.free).0 ≡ 0
      → (set_level (suc (suc n)) r us t vaddr paddr s).0 ≡ false
  unfolding set_level
  set_level-no_page n lv t s w l p z =
      let i = index (suc (suc n)) vaddr in
      let page = (alloc_pages 0 s.free).0 in
      let apart : page ≢ t = λ q. absurd (omega (arith, ap lv q, ap lv z, w.no_null, l)) in
      let (m, f) = ensure-Made r us t i s p apart in
      let gone : (next_table (ensure r us t i s) t i == 0) ≡ true = ground (arith, m.leads, z) in
      rw gone refl

  set_level-Mapped :
      (n : ℕ) (lv : ℕ → ℕ) (t : ℕ) (s : Paging)
      → IsPaged lv s
      → lv t ≡ suc n
      → (set_level (suc n) r us t vaddr paddr s).0 ≡ true
      → (lv' : ℕ → ℕ) × Mapped n t vaddr paddr s (set_level (suc n) r us t vaddr paddr s).1 lv lv'
  unfolding set_level
  set_level-Mapped zero lv t s w l e = (lv, map_page-Mapped lv r us t vaddr paddr s w l)
  set_level-Mapped (suc n) lv t s w l e =
      let i = index (suc (suc n)) vaddr in
      let page = (alloc_pages 0 s.free).0 in
      let s1 = ensure r us t i s in
      let t1 = next_table s1 t i in
      let lv1 = update lv page (suc n) in
      elim (Bool-cases (s.tables t i).p) [
        | inl p ↦
            set_level-step n lv lv t s (ensure-present lv n r us t i s w p) w.levels l e
              (λ w1 l1 e1. set_level-Mapped n lv t1 s1 w1 l1 e1)
        | inr p ↦ elim (ℕ-cases page 0) [
          | inl z ↦ let no = set_level-no_page n lv t s w l p z in cc
          | inr nz ↦
              set_level-step n lv lv1 t s (ensure-absent lv n r us t i s w l p nz) w.levels l e
                (λ w1 l1 e1. set_level-Mapped n lv1 t1 s1 w1 l1 e1)
        ]
      ]

-- The same with what stays: where the tables are a tree they stay one, and every walk from a root
-- that leaves the path of the mapped address ends where it ended before.
pub set_mapping1-IsFramed :
    (rw us : Bool) (pgd vaddr paddr : ℕ) (lv : ℕ → ℕ) (s : Paging)
    → IsPaged lv s
    → IsTree lv s
    → lv pgd ≡ 4
    → (set_mapping1 rw us pgd vaddr paddr s).0 ≡ true
    → let s' = (set_mapping1 rw us pgd vaddr paddr s).1 in
      (get_physical_address s' pgd vaddr ≡ paddr / memunit_sz * memunit_sz + vaddr % memunit_sz)
      × IsFramed 3 lv pgd vaddr s s'
      × ((lv' : ℕ → ℕ) × IsPaged lv' s' × IsTree lv' s' × ((x : ℕ) → lv x ≢ 0 → lv' x ≡ lv x))
unfolding set_mapping1 get_physical_address
set_mapping1-IsFramed r us pgd vaddr paddr lv s w tr l e =
    let (lv', g) = set_level-Mapped r us vaddr paddr 3 lv pgd s w l e in
    (g.found, g.framed tr, (lv', g.paged, g.tree tr, g.kept))

-- No page becomes free by a mapping.
pub set_mapping1-fewer :
    (rw us : Bool) (pgd vaddr paddr : ℕ) (lv : ℕ → ℕ) (s : Paging)
    → IsPaged lv s
    → lv pgd ≡ 4
    → (set_mapping1 rw us pgd vaddr paddr s).0 ≡ true
    → (b : ℕ) → cover (set_mapping1 rw us pgd vaddr paddr s).1.free b ≤ cover s.free b
unfolding set_mapping1
set_mapping1-fewer r us pgd vaddr paddr lv s w l e =
    (set_level-Mapped r us vaddr paddr 3 lv pgd s w l e).1.fewer
