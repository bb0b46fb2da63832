-- ===== src/Kernel/Paging/Range.antt =====
-- Mapping of one page and of many in the address spaces of all tasks (`__set_mapping` and
-- `set_mapping` of kernel/memory/paging.c).
pub mod Page
use tay_huang_os.Prelude.{
  ℕ, zero, suc, Bool, true, false, ◌+◌, ◌-◌, ◌*◌, ◌/◌, ◌%◌, ◌^◌, ◌≤◌, ◌<◌, ◌≡◌, ◌≢◌, ◌⊎◌, inl, inr,
  refl, sym, ap, subst, ◌∙◌, arith, Bool-cases, ltb, ◌==◌, if◌then◌else◌,
}
use tay_huang_os.Kernel.State.{null}
use tay_huang_os.Kernel.Pmm.{memunit_sz}
use tay_huang_os.Kernel.Paging.{
  Paging, index, next_table, ensure, map_page, set_level, set_mapping1, page_at, map_pages,
  set_mapping, get_physical_address,
}
use tay_huang_os.Kernel.Paging.Tree.Paths.{IsTree, SamePath}
use tay_huang_os.Kernel.Paging.Levels.{IsPaged}
use tay_huang_os.Kernel.Paging.Walk.{set_mapping1-IsFramed}
use tay_huang_os.Kernel.Paging.Range.Page.{
  SamePath-page, page-SamePath, set_level-SamePath, set_mapping1-others, IsMapped, IsRange,
  IsMapped-nil, first_page, IsMapped-step,
}

-- The pages of a range, each one page behind the one before, up to the first failure.
unfoldable pages_from : ℕ → Bool → Bool → ℕ → ℕ → ℕ → Paging → Bool × Paging
pages_from zero rw us pgd vaddr paddr s = (true, s)
pages_from (suc pages) rw us pgd vaddr paddr s =
    let (done, s1) = set_mapping1 rw us pgd vaddr paddr s in
    let others = pages_from pages rw us pgd (vaddr + memunit_sz) (paddr + memunit_sz) s1 in
    if done then others else (false, s1)

-- Up to 2^19 pages the offset of a page is exact.
pub page_at_lem : (addr i : ℕ) → i < 2 ^ 19 → page_at addr i ≡ addr + i * memunit_sz
page_at_lem addr i h =
    let exact : i * memunit_sz % 2 ^ 32 ≡ i * memunit_sz = omega (arith, h) in
    let positive : ltb (i * memunit_sz) (2 ^ 31) ≡ true = ground (arith, h) in
    rw (exact, positive) refl

map_pages-pages_from :
    (r us : Bool) (pgd pages i vaddr paddr : ℕ) (s : Paging)
    → i + pages ≤ 2 ^ 19
    → map_pages pages i r us pgd vaddr paddr s
      ≡ pages_from pages r us pgd (vaddr + i * memunit_sz) (paddr + i * memunit_sz) s
unfolding map_pages pages_from
map_pages-pages_from r us pgd zero i vaddr paddr s h = refl
map_pages-pages_from r us pgd (suc pages) i vaddr paddr s h =
    let step = λ (v p : ℕ).
      let (done, s1) = set_mapping1 r us pgd v p s in
      if done then map_pages pages (i + 1) r us pgd vaddr paddr s1 else (false, s1) in
    let va = vaddr + i * memunit_sz in
    let pa = paddr + i * memunit_sz in
    let (done, s1) = set_mapping1 r us pgd va pa s in
    ap (λ v. step v (page_at paddr i)) (page_at_lem vaddr i (omega (arith, h)))
    ∙ ap (step va) (page_at_lem paddr i (omega (arith, h)))
    ∙ ap (λ (others : Bool × Paging). if done then others else (false, s1))
        (map_pages-pages_from r us pgd pages (i + 1) vaddr paddr s1 (omega (arith, h))
          ∙ ap (λ v. pages_from pages r us pgd v (paddr + (i + 1) * memunit_sz) s1) (omega arith)
          ∙ ap (λ p. pages_from pages r us pgd (va + memunit_sz) p s1) (omega arith))

module _ (r us : Bool) (pgd : ℕ) where
  pages_from-IsMapped :
      (pages vaddr paddr : ℕ) (target lv : ℕ → ℕ) (s : Paging)
      → IsPaged lv s
      → IsTree lv s
      → lv pgd ≡ 4
      → vaddr % memunit_sz ≡ 0
      → paddr % memunit_sz ≡ 0
      → vaddr + pages * memunit_sz ≤ 2 ^ 48
      → ((v : ℕ) → vaddr ≤ v → v < vaddr + pages * memunit_sz → target v ≡ paddr + (v - vaddr))
      → (pages_from pages r us pgd vaddr paddr s).0 ≡ true
      → IsMapped pgd vaddr pages target lv s (pages_from pages r us pgd vaddr paddr s).1
  unfolding pages_from
  pages_from-IsMapped zero vaddr paddr target lv s w tr l va pa top at e =
      IsMapped-nil pgd vaddr target lv s w tr
  pages_from-IsMapped (suc pages) vaddr paddr target lv s w tr l va pa top at e =
      elim (Bool-cases (set_mapping1 r us pgd vaddr paddr s).0) [
        | inr failed ↦ let f : false ≡ true = rw failed at e in cc
        | inl done ↦ rw done (
            IsMapped-step r us pgd pages vaddr paddr target lv s _ w tr l va top done
              (λ v lo hi. at v lo (omega (arith, hi)) ∙ omega (arith, va, pa, lo, hi))
              (λ lv1 w1 tr1 root.
                pages_from-IsMapped pages (vaddr + memunit_sz) (paddr + memunit_sz) target lv1 _ w1
                  tr1 (root pgd l) (omega (arith, va)) (omega (arith, pa)) (omega (arith, top))
                  (λ v lo hi. at v (omega (arith, lo)) (omega (arith, hi)) ∙ omega (arith, lo))
                  (rw done at e)))
      ]

-- With the tables a tree of their levels, `pgd` a root of it, apart from the free pages, and no page
-- free twice: a mapping of at most 2^19 pages below 2^48 to an aligned physical address, which is
-- reported as set, makes each address of the range lead to the physical address as far behind
-- `paddr`. Every translation below 2^48 outside of it and every one of another address space is as
-- before, and the tables are still a tree of their levels. The range starts with the page of `vaddr`.
pub set_mapping-IsRange :
    (pgd vaddr paddr pages : ℕ) (r us : Bool) (lv : ℕ → ℕ) (s : Paging)
    → IsPaged lv s
    → IsTree lv s
    → lv pgd ≡ 4
    → paddr % memunit_sz ≡ 0
    → vaddr + pages * memunit_sz ≤ 2 ^ 48
    → pages ≤ 2 ^ 19
    → (set_mapping pgd vaddr paddr pages r us s).0 ≡ true
    → IsRange pgd
        (vaddr / memunit_sz * memunit_sz)
        paddr
        pages
        lv
        s
        (set_mapping pgd vaddr paddr pages r us s).1
unfolding set_mapping
set_mapping-IsRange pgd vaddr paddr pages r us lv s w tr l pa top few e =
    let from = vaddr / memunit_sz * memunit_sz in
    let same : map_pages pages 0 r us pgd from paddr s ≡ pages_from pages r us pgd from paddr s =
      map_pages-pages_from r us pgd pages 0 from paddr s (omega (arith, few))
      ∙ ap (λ v. pages_from pages r us pgd v (paddr + 0 * memunit_sz) s) (omega arith)
      ∙ ap (λ p. pages_from pages r us pgd from p s) (omega arith) in
    subst (λ (result : Bool × Paging). IsRange pgd from paddr pages lv s result.1) (sym same)
      (pages_from-IsMapped r us pgd pages from paddr _ lv s w tr l (omega arith) pa
        (omega (arith, top)) (λ v lo hi. refl) (ap (λ q. q.0) (sym same) ∙ e))
