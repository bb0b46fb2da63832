-- ===== src/Kernel/Paging/Range/Page.antt =====
-- One page of a range, and the pages after it (`__set_mapping` of kernel/memory/paging.c).
use tay_huang_os.Prelude.{
  ℕ, zero, suc, Bool, true, false, ◌+◌, ◌-◌, ◌*◌, ◌/◌, ◌%◌, ◌^◌, ◌≤◌, ◌<◌, ◌≡◌, ◌≢◌, ◌⊎◌, inl, inr,
  refl, sym, ap, ◌∙◌, arith, Bool-cases, ltb, ◌==◌, if◌then◌else◌,
}
use tay_huang_os.Kernel.State.{null}
use tay_huang_os.Kernel.Pmm.{memunit_sz}
use tay_huang_os.Kernel.Pmm.Cover.{cover}
use tay_huang_os.Kernel.Paging.{
  Paging, index, next_table, ensure, map_page, set_level, set_mapping1, get_physical_address,
}
use tay_huang_os.Kernel.Paging.Tree.Paths.{IsTree, SamePath}
use tay_huang_os.Kernel.Paging.Levels.{IsPaged}
use tay_huang_os.Kernel.Paging.Walk.{set_mapping1-fewer, set_mapping1-IsFramed}

pub SamePath-page :
    (v v' : ℕ) → v < 2 ^ 48 → v' < 2 ^ 48 → SamePath 4 v v' → v / memunit_sz ≡ v' / memunit_sz
SamePath-page v v' h h' (e4, (e3, (e2, (e1, _)))) = omega (arith, e4, e3, e2, e1, h, h')

pub page-SamePath : (v v' : ℕ) → v / memunit_sz ≡ v' / memunit_sz → SamePath 4 v v'
page-SamePath v v' e =
    (omega (arith, e), (omega (arith, e), (omega (arith, e), (omega (arith, e), tt))))

-- Only the path of an address matters for its mapping.
pub set_level-SamePath :
    (n : ℕ) (rw us : Bool) (t v v' paddr : ℕ) (s : Paging)
    → SamePath n v v'
    → set_level n rw us t v paddr s ≡ set_level n rw us t v' paddr s
unfolding set_level
set_level-SamePath zero r us t v v' paddr s p = refl
set_level-SamePath (suc zero) r us t v v' paddr s (e, _) =
    ap (λ (i : ℕ). (true, map_page r us t i paddr s)) e
set_level-SamePath (suc (suc n)) r us t v v' paddr s (e, p) =
    let made = λ (i : ℕ). ensure r us t i s in
    ap
      (λ (i : ℕ).
        let t1 = next_table (made i) t i in
        if t1 == null then (false, made i) else set_level (suc n) r us t1 v paddr (made i))
      e
    ∙ ap
        (λ (low : Bool × Paging).
          let i = index (suc (suc n)) v' in
          if next_table (made i) t i == null then (false, made i) else low)
        (set_level-SamePath (suc n) r us _ v v' paddr _ p)

-- With the tables a tree of their levels, apart from the free pages, and no page free twice, a
-- mapping of an address below 2^48 that is reported as set changes no other translation of an address
-- below 2^48 from a root of the tree: neither that of another page of the same address space, nor any
-- of another address space.
pub set_mapping1-others :
    (rw us : Bool) (pgd vaddr paddr : ℕ) (lv : ℕ → ℕ) (s : Paging) (pgd' v : ℕ)
    → IsPaged lv s
    → IsTree lv s
    → lv pgd ≡ 4
    → lv pgd' ≡ 4
    → (set_mapping1 rw us pgd vaddr paddr s).0 ≡ true
    → v < 2 ^ 48
    → vaddr < 2 ^ 48
    → (pgd' ≢ pgd) ⊎ (v / memunit_sz ≢ vaddr / memunit_sz)
    → get_physical_address (set_mapping1 rw us pgd vaddr paddr s).1 pgd' v
      ≡ get_physical_address s pgd' v
unfolding get_physical_address
set_mapping1-others r us pgd vaddr paddr lv s pgd' v w tr l l' e hv ha other =
    let (_, framed, _) = set_mapping1-IsFramed r us pgd vaddr paddr lv s w tr l e in
    framed pgd' v l' (λ same path. elim other [
      | inl apart ↦ apart same
      | inr apart ↦ apart (sym (SamePath-page vaddr v ha hv path))
    ])

-- What mapping `pages` pages from `vaddr` on does, so that `target` tells where each address leads.
pub record IsMapped (pgd vaddr pages : ℕ) (target : ℕ → ℕ) (lv : ℕ → ℕ) (s s' : Paging)
    : Type 0 where
  pub inside :
      (v : ℕ)
      → vaddr ≤ v
      → v < vaddr + pages * memunit_sz
      → get_physical_address s' pgd v ≡ target v
  pub outside :
      (pgd' v : ℕ)
      → lv pgd' ≡ 4
      → v < 2 ^ 48
      → (pgd' ≢ pgd) ⊎ (v < vaddr) ⊎ (vaddr + pages * memunit_sz ≤ v)
      → get_physical_address s' pgd' v ≡ get_physical_address s pgd' v
  pub level : ℕ → ℕ
  pub paged : IsPaged level s'
  pub tree : IsTree level s'
  pub kept : (x : ℕ) → lv x ≢ 0 → level x ≡ lv x
  pub fewer : (b : ℕ) → cover s'.free b ≤ cover s.free b

-- The range leads to physical addresses from `paddr` on.
abbrev pub IsRange : ℕ → ℕ → ℕ → ℕ → (ℕ → ℕ) → Paging → Paging → Type 0
IsRange pgd vaddr paddr pages lv s s' = IsMapped pgd vaddr pages (λ v. paddr + (v - vaddr)) lv s s'

pub IsMapped-nil :
    (pgd vaddr : ℕ) (target lv : ℕ → ℕ) (s : Paging)
    → IsPaged lv s
    → IsTree lv s
    → IsMapped pgd vaddr 0 target lv s s
IsMapped-nil pgd vaddr target lv s w tr = record {
  inside = λ v lo hi. absurd (omega (arith, lo, hi));
  outside = λ pgd' v l' h out. refl;
  level = lv;
  paged = w;
  tree = tr;
  kept = λ x h. refl;
  fewer = λ b. omega arith;
}

-- Two ranges, the second behind the first.
pub IsMapped-append :
    (pgd vaddr n m pages : ℕ) (target lv : ℕ → ℕ) (s s1 s' : Paging)
    → n + m ≡ pages
    → lv pgd ≡ 4
    → vaddr + pages * memunit_sz ≤ 2 ^ 48
    → (a : IsMapped pgd vaddr n target lv s s1)
    → IsMapped pgd (vaddr + n * memunit_sz) m target a.level s1 s'
    → IsMapped pgd vaddr pages target lv s s'
IsMapped-append pgd vaddr n m pages target lv s s1 s' sum l top a r =
    let root : (x : ℕ) → lv x ≡ 4 → a.level x ≡ 4 =
      λ x h. a.kept x (λ z. absurd (omega (arith, h, z))) ∙ h in
    record {
      inside = λ v lo hi. elim (Bool-cases (ltb v (vaddr + n * memunit_sz))) [
        | inl first ↦
            r.outside pgd v (root pgd l) (omega (arith, hi, top))
              (inr (inl (ground (arith, first))))
            ∙ a.inside v lo (ground (arith, first))
        | inr later ↦ r.inside v (ground (arith, later)) (omega (arith, hi, sum))
      ];
      outside = λ pgd' v l' h out.
          r.outside pgd' v (root pgd' l') h (elim out [
            | inl ne ↦ inl ne
            | inr (inl lo) ↦ inr (inl (omega (arith, lo)))
            | inr (inr hi) ↦ inr (inr (omega (arith, hi, sum)))
          ])
          ∙ a.outside pgd' v l' h (elim out [
            | inl ne ↦ inl ne
            | inr (inl lo) ↦ inr (inl lo)
            | inr (inr hi) ↦ inr (inr (omega (arith, hi, sum)))
          ]);
      level = r.level;
      paged = r.paged;
      tree = r.tree;
      kept = λ x h. r.kept x (λ z. h (sym (a.kept x h) ∙ z)) ∙ a.kept x h;
      fewer = λ b. omega (arith, r.fewer b, a.fewer b);
    }

module _ (r us : Bool) (pgd : ℕ) where
  -- The page of `vaddr` after it was mapped.
  pub first_page :
      (vaddr paddr : ℕ) (lv : ℕ → ℕ) (s : Paging)
      → IsPaged lv s
      → IsTree lv s
      → lv pgd ≡ 4
      → vaddr % memunit_sz ≡ 0
      → (set_mapping1 r us pgd vaddr paddr s).0 ≡ true
      → (v : ℕ) → vaddr ≤ v
      → v < vaddr + memunit_sz
      → get_physical_address (set_mapping1 r us pgd vaddr paddr s).1 pgd v
        ≡ paddr / memunit_sz * memunit_sz + v % memunit_sz
  unfolding set_mapping1
  first_page vaddr paddr lv s w tr l va e v lo hi =
      let same : set_mapping1 r us pgd vaddr paddr s ≡ set_mapping1 r us pgd v paddr s =
        set_level-SamePath 4 r us pgd vaddr v paddr s
          (page-SamePath vaddr v (omega (arith, va, lo, hi))) in
      let (found, _, _) =
        set_mapping1-IsFramed r us pgd v paddr lv s w tr l (ap (λ r. r.0) (sym same) ∙ e) in
      ap (λ (r : Bool × Paging). get_physical_address r.1 pgd v) same ∙ found

  -- One page and then the others, which are mapped in whatever tables that leaves.
  pub IsMapped-step :
      (pages vaddr paddr : ℕ) (target lv : ℕ → ℕ) (s s' : Paging)
      → IsPaged lv s
      → IsTree lv s
      → lv pgd ≡ 4
      → vaddr % memunit_sz ≡ 0
      → vaddr + suc pages * memunit_sz ≤ 2 ^ 48
      → (set_mapping1 r us pgd vaddr paddr s).0 ≡ true
      → ((v : ℕ)
          → vaddr ≤ v
          → v < vaddr + memunit_sz
          → target v ≡ paddr / memunit_sz * memunit_sz + v % memunit_sz)
      → let s1 = (set_mapping1 r us pgd vaddr paddr s).1 in
        ((lv1 : ℕ → ℕ)
          → IsPaged lv1 s1
          → IsTree lv1 s1
          → ((x : ℕ) → lv x ≡ 4 → lv1 x ≡ 4)
          → IsMapped pgd (vaddr + memunit_sz) pages target lv1 s1 s')
        → IsMapped pgd vaddr (suc pages) target lv s s'
  IsMapped-step pages vaddr paddr target lv s s' w tr l va top done leads others =
      let s1 = (set_mapping1 r us pgd vaddr paddr s).1 in
      let (_, _, (lv1, w1, tr1, kept)) =
        set_mapping1-IsFramed r us pgd vaddr paddr lv s w tr l done in
      let first : IsMapped pgd vaddr 1 target lv s s1 = record {
        inside =
            λ v lo hi. first_page vaddr paddr lv s w tr l va done v lo hi ∙ sym (leads v lo hi);
        outside = λ pgd' v l' h out.
            set_mapping1-others r us pgd vaddr paddr lv s pgd' v w tr l l' done h
              (omega (arith, top))
              (elim out [
                | inl ne ↦ inl ne
                | inr (inl lo) ↦ inr (λ q. absurd (omega (arith, lo, q, va)))
                | inr (inr hi) ↦ inr (λ q. absurd (omega (arith, hi, q, va)))
              ]);
        level = lv1;
        paged = w1;
        tree = tr1;
        kept = kept;
        fewer = set_mapping1-fewer r us pgd vaddr paddr lv s w l done;
      } in
      IsMapped-append pgd vaddr 1 pages (suc pages) target lv s s1 s' (omega arith) l top first
        (others lv1 w1 tr1 (λ x h. kept x (λ z. absurd (omega (arith, h, z))) ∙ h))
