-- ===== src/Kernel/Paging/Shared/Pages.antt =====
-- Sharing of one page after the other (`set_mappingvv` of kernel/memory/paging.c).
use tay_huang_os.Prelude.{
  ℕ, zero, suc, Bool, true, false, ◌+◌, ◌-◌, ◌*◌, ◌/◌, ◌%◌, ◌^◌, ◌≤◌, ◌<◌, ◌≡◌, ◌≢◌, ◌⊎◌, inl, inr,
  refl, sym, ap, subst, ◌∙◌, arith, Bool-cases, if◌then◌else◌,
}
use tay_huang_os.Kernel.Pmm.{memunit_sz}
use tay_huang_os.Kernel.Paging.{
  Paging, index, set_mapping1, walk_level, get_physical_address, page_at, map_shared, set_mappingvv,
}
use tay_huang_os.Kernel.Paging.Tree.Paths.{IsTree, SamePath, go_on}
use tay_huang_os.Kernel.Paging.Levels.{IsPaged}
use tay_huang_os.Kernel.Paging.Range.{page_at_lem}
use tay_huang_os.Kernel.Paging.Range.Page.{
  IsMapped, IsMapped-nil, IsMapped-step, page-SamePath, set_mapping1-others,
}

-- The page that an address leads to is decided by its path.
walk_level-page :
    (n t v v' : ℕ) (s : Paging)
    → SamePath (suc n) v v'
    → walk_level (suc n) t v s / memunit_sz ≡ walk_level (suc n) t v' s / memunit_sz
unfolding walk_level
walk_level-page zero t v v' s (e, _) =
    ap (λ (i : ℕ). go_on zero (s.tables t i) v s / memunit_sz) e
    ∙ elim (Bool-cases (s.tables t (index 1 v')).p) [
      | inl p ↦ rw p (omega arith)
      | inr p ↦ rw p refl
    ]
walk_level-page (suc n) t v v' s (e, path) =
    ap (λ (i : ℕ). go_on (suc n) (s.tables t i) v s / memunit_sz) e
    ∙ elim (Bool-cases (s.tables t (index (suc (suc n)) v')).p) [
      | inl p ↦ rw p (walk_level-page n _ v v' s path)
      | inr p ↦ rw p refl
    ]

same_frame :
    (s : Paging) (pgd v v' : ℕ)
    → v / memunit_sz ≡ v' / memunit_sz
    → get_physical_address s pgd v / memunit_sz ≡ get_physical_address s pgd v' / memunit_sz
unfolding get_physical_address
same_frame s pgd v v' e = walk_level-page 3 pgd v v' s (page-SamePath v v' e)

-- Where an address of the target leads when it shares the memory from `src` on from `dst` on: to the
-- page of the source's address, and as far into it.
abbrev pub shared : Paging → ℕ → ℕ → ℕ → ℕ → ℕ
shared s src_pgd src dst v =
    get_physical_address s src_pgd (src + (v - dst)) / memunit_sz * memunit_sz + v % memunit_sz

-- The pages of a range, each one page behind the one before, up to the first failure.
unfoldable shared_from : ℕ → Bool → Bool → ℕ → ℕ → ℕ → ℕ → Paging → Bool × Paging
shared_from zero rw us source src dst_pgd dst s = (true, s)
shared_from (suc pages) rw us source src dst_pgd dst s =
    let (done, s1) = set_mapping1 rw us dst_pgd dst (get_physical_address s source src) s in
    let others = shared_from pages rw us source (src + memunit_sz) dst_pgd (dst + memunit_sz) s1 in
    if done then others else (false, s1)

map_shared-shared_from :
    (r us : Bool) (source dst_pgd pages i src dst : ℕ) (s : Paging)
    → i + pages ≤ 2 ^ 19
    → map_shared pages i r us source src dst_pgd dst s
      ≡ shared_from pages r us source (src + i * memunit_sz) dst_pgd (dst + i * memunit_sz) s
unfolding map_shared shared_from
map_shared-shared_from r us source dst_pgd zero i src dst s h = refl
map_shared-shared_from r us source dst_pgd (suc pages) i src dst s h =
    let step = λ (from to : ℕ).
      let (done, s1) = set_mapping1 r us dst_pgd to (get_physical_address s source from) s in
      if done then map_shared pages (i + 1) r us source src dst_pgd dst s1 else (false, s1) in
    let from = src + i * memunit_sz in
    let to = dst + i * memunit_sz in
    let (done, s1) = set_mapping1 r us dst_pgd to (get_physical_address s source from) s in
    ap (λ f. step f (page_at dst i)) (page_at_lem src i (omega (arith, h)))
    ∙ ap (step from) (page_at_lem dst i (omega (arith, h)))
    ∙ ap (λ (others : Bool × Paging). if done then others else (false, s1))
        (map_shared-shared_from r us source dst_pgd pages (i + 1) src dst s1 (omega (arith, h))
          ∙ ap (λ f. shared_from pages r us source f dst_pgd (dst + (i + 1) * memunit_sz) s1)
              (omega arith)
          ∙ ap (λ t. shared_from pages r us source (from + memunit_sz) dst_pgd t s1) (omega arith))

module _ (r us : Bool) (source dst_pgd : ℕ) where
  shared_from-IsMapped :
      (pages src dst : ℕ) (target lv : ℕ → ℕ) (s : Paging)
      → IsPaged lv s
      → IsTree lv s
      → lv source ≡ 4
      → lv dst_pgd ≡ 4
      → src % memunit_sz ≡ 0
      → dst % memunit_sz ≡ 0
      → src + pages * memunit_sz ≤ 2 ^ 48
      → dst + pages * memunit_sz ≤ 2 ^ 48
      → (source ≢ dst_pgd) ⊎ (src + pages * memunit_sz ≤ dst) ⊎ (dst + pages * memunit_sz ≤ src)
      → ((v : ℕ) → dst ≤ v → v < dst + pages * memunit_sz → target v ≡ shared s source src dst v)
      → (shared_from pages r us source src dst_pgd dst s).0 ≡ true
      → IsMapped dst_pgd dst pages target lv s (shared_from pages r us source src dst_pgd dst s).1
  unfolding shared_from
  shared_from-IsMapped zero src dst target lv s w tr ls ld sa da stop dtop apart at e =
      IsMapped-nil dst_pgd dst target lv s w tr
  shared_from-IsMapped (suc pages) src dst target lv s w tr ls ld sa da stop dtop apart at e =
      let paddr = get_physical_address s source src in
      elim (Bool-cases (set_mapping1 r us dst_pgd dst paddr s).0) [
        | inr failed ↦ let f : false ≡ true = rw failed at e in cc
        | inl done ↦
            let s1 = (set_mapping1 r us dst_pgd dst paddr s).1 in
            let still =
              λ (v : ℕ) (lo : dst + memunit_sz ≤ v) (hi : v < dst + suc pages * memunit_sz).
                ap (λ a. a / memunit_sz * memunit_sz + v % memunit_sz)
                  (set_mapping1-others r us dst_pgd dst paddr lv s source (src + (v - dst)) w tr ld
                    ls done (omega (arith, lo, hi, stop)) (omega (arith, dtop))
                    (elim apart [
                      | inl ne ↦ inl ne
                      | inr (inl below) ↦ inr (λ q. absurd (omega (arith, lo, hi, below, q, da)))
                      | inr (inr above) ↦ inr (λ q. absurd (omega (arith, lo, hi, above, q, da)))
                    ])) in
            rw done (
              IsMapped-step r us dst_pgd pages dst paddr target lv s _ w tr ld da dtop done
                (λ v lo hi.
                  at v lo (omega (arith, hi))
                  ∙ ap (λ q. q * memunit_sz + v % memunit_sz)
                      (same_frame s source (src + (v - dst)) src (omega (arith, lo, hi, sa))))
                (λ lv1 w1 tr1 root.
                  shared_from-IsMapped pages (src + memunit_sz) (dst + memunit_sz) target lv1 s1 w1
                    tr1 (root source ls) (root dst_pgd ld) (omega (arith, sa)) (omega (arith, da))
                    (omega (arith, stop)) (omega (arith, dtop))
                    (elim apart [
                      | inl ne ↦ inl ne
                      | inr (inl below) ↦ inr (inl (omega (arith, below)))
                      | inr (inr above) ↦ inr (inr (omega (arith, above)))
                    ])
                    (λ v lo hi.
                      at v (omega (arith, lo)) (omega (arith, hi))
                      ∙ sym (still v lo (omega (arith, hi)))
                      ∙ ap
                          (λ u.
                            get_physical_address s1 source u / memunit_sz * memunit_sz
                            + v % memunit_sz)
                          (omega (arith, lo)))
                    (rw done at e)))
      ]

-- With the tables a tree of their levels, apart from the free pages, and no page free twice, and of
-- at most 2^19 pages below 2^48: sharing that is reported as set. Each address of the range leads to
-- the page that the source's address leads to, as far into it, and so to the same byte where the
-- source's page is mapped, but to the first page of memory where it is not. Every translation outside
-- the range and every one of another address space is as before. Both ranges start with a page, and
-- are apart or in two spaces.
pub set_mappingvv-IsMapped :
    (source src dst_pgd dst pages : ℕ) (r us : Bool) (lv : ℕ → ℕ) (s : Paging)
    → let from = src / memunit_sz * memunit_sz in
      let to = dst / memunit_sz * memunit_sz in
      let result = set_mappingvv source src dst_pgd dst pages r us s in
      IsPaged lv s
      → IsTree lv s
      → lv source ≡ 4
      → lv dst_pgd ≡ 4
      → src + pages * memunit_sz ≤ 2 ^ 48
      → dst + pages * memunit_sz ≤ 2 ^ 48
      → pages ≤ 2 ^ 19
      → (source ≢ dst_pgd) ⊎ (from + pages * memunit_sz ≤ to) ⊎ (to + pages * memunit_sz ≤ from)
      → result.0 ≡ true
      → IsMapped dst_pgd to pages (shared s source from to) lv s result.1
unfolding set_mappingvv
set_mappingvv-IsMapped source src dst_pgd dst pages r us lv s w tr ls ld stop dtop few apart e =
    let from = src / memunit_sz * memunit_sz in
    let to = dst / memunit_sz * memunit_sz in
    let same : map_shared pages 0 r us source from dst_pgd to s
        ≡ shared_from pages r us source from dst_pgd to s =
      map_shared-shared_from r us source dst_pgd pages 0 from to s (omega (arith, few))
      ∙ ap (λ f. shared_from pages r us source f dst_pgd (to + 0 * memunit_sz) s) (omega arith)
      ∙ ap (λ t. shared_from pages r us source from dst_pgd t s) (omega arith) in
    subst
      (λ (result : Bool × Paging).
        IsMapped dst_pgd to pages (shared s source from to) lv s result.1)
      (sym same)
      (shared_from-IsMapped r us source dst_pgd pages from to _ lv s w tr ls ld (omega arith)
        (omega arith) (omega (arith, stop)) (omega (arith, dtop)) apart (λ v lo hi. refl)
        (ap (λ q. q.0) (sym same) ∙ e))
