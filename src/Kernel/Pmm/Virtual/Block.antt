-- ===== src/Kernel/Pmm/Virtual/Block.antt =====
-- One block of `alloc_vpages` of kernel/memory/pmm.c, and ranges that follow on each other.
use tay_huang_os.Prelude.{
  ℕ, zero, suc, true, false, ◌+◌, ◌-◌, ◌*◌, ◌/◌, ◌%◌, ◌^◌, ◌≤◌, ◌<◌, ◌≡◌, ◌≢◌, inl, inr, refl, sym,
  ap, subst, ◌∙◌, arith, ltb, if◌then◌else◌, Bool-cases,
}
use tay_huang_os.Kernel.State.{null}
use tay_huang_os.Kernel.Pmm.{Areas, memunit_sz, max_order, area_size, alloc_pages}
use tay_huang_os.Kernel.Pmm.Alloc.{pow_mono}
use tay_huang_os.Kernel.Pmm.Cover.{within, cover}
use tay_huang_os.Kernel.Pmm.Aligned.{TakenBlock, alloc_pages-TakenBlock}
use tay_huang_os.Kernel.Paging.{Paging, index, walk_level, get_physical_address, set_mapping}
use tay_huang_os.Kernel.Paging.Tree.Paths.{IsTree}
use tay_huang_os.Kernel.Paging.Levels.{IsPaged}
use tay_huang_os.Kernel.Paging.Range.{set_mapping-IsRange}
use tay_huang_os.Kernel.Paging.Range.Page.{IsMapped, IsMapped-nil, IsMapped-append}
use tay_huang_os.Kernel.Pmm.Virtual.{alloc_block}

walk_level-free :
    (n t v : ℕ) (free : Areas) (s : Paging)
    → walk_level n t v (record s { free = free }) ≡ walk_level n t v s
unfolding walk_level
walk_level-free zero t v free s = refl
walk_level-free (suc n) t v free s =
    let e = s.tables t (index (suc n) v) in
    ap (λ low. if e.p then low else null) (walk_level-free n (e.address * memunit_sz) v free s)

-- A mapping after pages were taken out of the free ones.
IsMapped-free :
    (pgd vaddr pages : ℕ) (target lv : ℕ → ℕ) (free : Areas) (s s' : Paging)
    → ((b : ℕ) → cover free b ≤ cover s.free b)
    → IsMapped pgd vaddr pages target lv (record s { free = free }) s'
    → IsMapped pgd vaddr pages target lv s s'
unfolding get_physical_address
IsMapped-free pgd vaddr pages target lv free s s' few m = record {
  inside = m.inside;
  outside = λ pgd' v l h out. m.outside pgd' v l h out ∙ walk_level-free 4 pgd' v free s;
  level = m.level;
  paged = m.paged;
  tree = m.tree;
  kept = m.kept;
  fewer = λ b. omega (arith, m.fewer b, few b);
}

IsMapped-target :
    (pgd vaddr pages : ℕ) (target target' lv : ℕ → ℕ) (s s' : Paging)
    → ((v : ℕ) → vaddr ≤ v → v < vaddr + pages * memunit_sz → target v ≡ target' v)
    → IsMapped pgd vaddr pages target lv s s'
    → IsMapped pgd vaddr pages target' lv s s'
IsMapped-target pgd vaddr pages target target' lv s s' same m = record {
  inside = λ v lo hi. m.inside v lo hi ∙ same v lo hi;
  outside = m.outside;
  level = m.level;
  paged = m.paged;
  tree = m.tree;
  kept = m.kept;
  fewer = m.fewer;
}

-- A range whose addresses lead to bytes that were free and are not after, each to one of its own.
pub record IsGiven (pgd vaddr pages : ℕ) (lv : ℕ → ℕ) (s s' : Paging) : Type 0 where
  pub target : ℕ → ℕ
  pub mapped : IsMapped pgd vaddr pages target lv s s'
  pub was_free : (v : ℕ) → vaddr ≤ v → v < vaddr + pages * memunit_sz → cover s.free (target v) ≡ 1
  pub is_taken : (v : ℕ) → vaddr ≤ v → v < vaddr + pages * memunit_sz → cover s'.free (target v) ≡ 0
  pub distinct :
      (v w : ℕ) → vaddr ≤ v → v < w → w < vaddr + pages * memunit_sz → target v ≢ target w

pub IsGiven-append :
    (pgd vaddr n m pages : ℕ) (lv : ℕ → ℕ) (s s1 s' : Paging)
    → n + m ≡ pages
    → lv pgd ≡ 4
    → vaddr + pages * memunit_sz ≤ 2 ^ 48
    → ((b : ℕ) → cover s.free b ≤ 1)
    → (a : IsGiven pgd vaddr n lv s s1)
    → IsGiven pgd (vaddr + n * memunit_sz) m a.mapped.level s1 s'
    → IsGiven pgd vaddr pages lv s s'
unfolding IsMapped-target
IsGiven-append pgd vaddr n m pages lv s s1 s' sum l top single a r =
    let mid = vaddr + n * memunit_sz in
    let target : ℕ → ℕ = λ v. if ltb v mid then a.target v else r.target v in
    let before : (v : ℕ) → v < mid → a.target v ≡ target v =
      λ v h. let t : ltb v mid ≡ true = ground arith in rw t refl in
    let behind : (v : ℕ) → mid ≤ v → r.target v ≡ target v =
      λ v h. let t : ltb v mid ≡ false = ground arith in rw t refl in
    record {
      target = target;
      mapped =
          IsMapped-append pgd vaddr n m pages target lv s s1 s' sum l top
            (IsMapped-target pgd vaddr n a.target target lv s s1 (λ v lo hi. before v hi) a.mapped)
            (IsMapped-target pgd mid m r.target target a.mapped.level s1 s' (λ v lo hi. behind v lo)
              r.mapped);
      was_free = λ v lo hi. elim (Bool-cases (ltb v mid)) [
        | inl t ↦
            let h : v < mid = ground (arith, t) in
            ap (cover s.free) (sym (before v h)) ∙ a.was_free v lo h
        | inr t ↦
            let h : mid ≤ v = ground (arith, t) in
            ap (cover s.free) (sym (behind v h))
            ∙ omega (
              arith,
              r.was_free v h (omega (arith, hi, sum)),
              a.mapped.fewer (r.target v),
              single (r.target v),
            )
      ];
      is_taken = λ v lo hi. elim (Bool-cases (ltb v mid)) [
        | inl t ↦
            let h : v < mid = ground (arith, t) in
            ap (cover s'.free) (sym (before v h))
            ∙ omega (arith, a.is_taken v lo h, r.mapped.fewer (a.target v))
        | inr t ↦
            let h : mid ≤ v = ground (arith, t) in
            ap (cover s'.free) (sym (behind v h)) ∙ r.is_taken v h (omega (arith, hi, sum))
      ];
      distinct = λ v w lo lt hi e. elim (Bool-cases (ltb w mid)) [
        | inl t ↦
            let h : w < mid = ground (arith, t) in
            let h' : v < mid = omega (arith, lt, h) in
            a.distinct v w lo lt h (before v h' ∙ e ∙ sym (before w h))
        | inr t ↦
            let h : mid ≤ w = ground (arith, t) in
            elim (Bool-cases (ltb v mid)) [
              | inl t' ↦
                  let h' : v < mid = ground (arith, t') in
                  absurd (
                    omega (
                      arith,
                      a.is_taken v lo h',
                      r.was_free w h (omega (arith, hi, sum)),
                      ap (cover s1.free) (before v h' ∙ e ∙ sym (behind w h)),
                    ))
              | inr t' ↦
                  let h' : mid ≤ v = ground (arith, t') in
                  r.distinct v w h' lt (omega (arith, hi, sum)) (behind v h' ∙ e ∙ sym (behind w h))
            ]
      ];
    }

-- A block of `alloc_vpages` that was found and mapped.
abbrev pub IsGranted : ℕ → ℕ → ℕ → Paging → Type 0
IsGranted order pgd vaddr s =
    let page = (alloc_pages order s.free).0 in
    let s1 = record s { free = (alloc_pages order s.free).1 } in
    (page ≢ null) × ((set_mapping pgd vaddr page (2 ^ order) true true s1).0 ≡ true)

taken-IsPaged :
    (order page : ℕ) (free : Areas) (lv : ℕ → ℕ) (s : Paging)
    → IsPaged lv s
    → TakenBlock order s.free page free
    → IsPaged lv (record s { free = free })
taken-IsPaged order page free lv s w t = record {
  levels = w.levels;
  apart = λ x h. omega (arith, t.part x, w.apart x h);
  single = λ b. omega (arith, t.part b, w.single b);
  aligned = t.aligned;
  no_null = w.no_null;
}

pub alloc_block-IsGiven :
    (order pgd vaddr : ℕ) (lv : ℕ → ℕ) (s : Paging)
    → order ≤ max_order
    → IsPaged lv s
    → IsTree lv s
    → lv pgd ≡ 4
    → vaddr % memunit_sz ≡ 0
    → vaddr + 2 ^ order * memunit_sz ≤ 2 ^ 48
    → IsGranted order pgd vaddr s
    → IsGiven pgd vaddr (2 ^ order) lv s (alloc_block order pgd vaddr s)
unfolding alloc_block
alloc_block-IsGiven order pgd vaddr lv s o w tr l va top (nz, done) =
    let page = (alloc_pages order s.free).0 in
    let free = (alloc_pages order s.free).1 in
    let s1 = record s { free = free } in
    let size = 2 ^ order * memunit_sz in
    let t = alloc_pages-TakenBlock order s.free o w.aligned nz in
    let rest : order + (max_order - order) ≡ max_order = omega (arith, o) in
    let block : 2 ^ order ≤ 2 ^ max_order =
      subst (λ n. 2 ^ order ≤ 2 ^ n) rest (pow_mono order (max_order - order)) in
    let few : 2 ^ order ≤ 2 ^ 19 = omega (arith, block) in
    let start : vaddr / memunit_sz * memunit_sz ≡ vaddr = omega (arith, va) in
    let s' = (set_mapping pgd vaddr page (2 ^ order) true true s1).1 in
    let m : IsMapped pgd vaddr (2 ^ order) (λ v. page + (v - vaddr)) lv s1 s' =
      subst (λ a. IsMapped pgd a (2 ^ order) (λ v. page + (v - a)) lv s1 s') start
        (set_mapping-IsRange pgd vaddr page (2 ^ order) true true lv s1
          (taken-IsPaged order page free lv s w t) tr l t.aligned_page top few done) in
    let inside = λ (v : ℕ) (lo : vaddr ≤ v) (hi : v < vaddr + size).
      within_block page (area_size order) (page + (v - vaddr)) (omega arith)
        (omega (arith, lo, hi)) in
    record {
      target = λ v. page + (v - vaddr);
      mapped =
          IsMapped-free pgd vaddr (2 ^ order) (λ v. page + (v - vaddr)) lv free s s'
            (λ b. omega (arith, t.part b)) m;
      was_free = λ v lo hi.
          omega (arith, t.part (page + (v - vaddr)), inside v lo hi, w.single (page + (v - vaddr)));
      is_taken = λ v lo hi. omega (
        arith,
        t.part (page + (v - vaddr)),
        inside v lo hi,
        w.single (page + (v - vaddr)),
        m.fewer (page + (v - vaddr)),
      );
      distinct = λ v x lo lt hi e. absurd (omega (arith, lo, lt, e));
    }
  where
    within_block : (page size b : ℕ) → page ≤ b → b < page + size → within page (page + size) b ≡ 1
    within_block page size b lo hi = ground arith

pub IsGiven-nil :
    (pgd vaddr : ℕ) (lv : ℕ → ℕ) (s : Paging)
    → IsPaged lv s
    → IsTree lv s
    → IsGiven pgd vaddr 0 lv s s
IsGiven-nil pgd vaddr lv s w tr = record {
  target = λ v. v;
  mapped = IsMapped-nil pgd vaddr (λ v. v) lv s w tr;
  was_free = λ v lo hi. absurd (omega (arith, lo, hi));
  is_taken = λ v lo hi. absurd (omega (arith, lo, hi));
  distinct = λ v w lo lt hi e. absurd (omega (arith, lo, lt, hi));
}
