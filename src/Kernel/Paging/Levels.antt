-- ===== src/Kernel/Paging/Levels.antt =====
-- The invariant of the page tables, and what making a new table does to it.
use tay_huang_os.Prelude.{
  ℕ, suc, Bool, true, false, ◌*◌, ◌/◌, ◌%◌, ◌<◌, ◌≤◌, ◌≡◌, ◌≢◌, refl, sym, ap, subst, ◌∙◌, arith,
  ℕ-cases, inl, inr,
}
use tay_huang_os.Kernel.State.{update}
use tay_huang_os.Kernel.Ready.Chain.{update_ne, update_self}
use tay_huang_os.Kernel.Pmm.{memunit_sz, alloc_pages}
use tay_huang_os.Kernel.Pmm.Cover.{cover}
use tay_huang_os.Kernel.Pmm.Aligned.{IsAligned, Taken, alloc_pages-Taken}
use tay_huang_os.Kernel.Paging.Tree.{Made-IsTree}
use tay_huang_os.Kernel.Paging.Tree.Paths.{IsTree, IsFresh, Made}
use tay_huang_os.Kernel.Paging.{Entry, no_entry, Paging, next_table, get_free_page, ensure}

-- `lv` tells the tables of the four levels from each other and from all other pages (level 0): a
-- present entry leads one level down, the free pages are no tables, and no page is free twice.
pub record IsPaged (lv : ℕ → ℕ) (s : Paging) : Type 0 where
  pub levels :
      (t i n : ℕ) → lv t ≡ suc (suc n) → (s.tables t i).p ≡ true → lv (next_table s t i) ≡ suc n
  pub apart : (t : ℕ) → lv t ≢ 0 → cover s.free t ≡ 0
  pub single : (b : ℕ) → cover s.free b ≤ 1
  pub aligned : IsAligned s.free
  pub no_null : lv 0 ≡ 0

-- The three writes: flags, the new table, and the address.
abbrev flagged : ℕ → ℕ → Entry → (ℕ → ℕ → Entry) → ℕ → ℕ → Entry
flagged t i e old = update old t (update (old t) i e)

abbrev cleared : ℕ → (ℕ → ℕ → Entry) → ℕ → ℕ → Entry
cleared page old = update old page (λ j. no_entry)

three_writes :
    (page t i : ℕ) (e : Entry) (old : ℕ → ℕ → Entry)
    → page ≢ t
    → e.p ≡ true
    → let mid = cleared page (flagged t i e old) in
      Made page t i old (flagged t i (record (mid t i) { address = page / memunit_sz }) mid)
three_writes page t i e old ne p =
    let mid = cleared page (flagged t i e old) in
    let at_t : mid t ≡ update (old t) i e =
      update_ne (flagged t i e old) page (λ j. no_entry) t ne
      ∙ update_self old t (update (old t) i e) in
    let entry = record (mid t i) { address = page / memunit_sz } in
    let new_t : flagged t i entry mid t ≡ update (mid t) i entry =
      update_self mid t (update (mid t) i entry) in
    let new_ti : flagged t i entry mid t i ≡ entry =
      ap (λ (f : ℕ → Entry). f i) new_t ∙ update_self (mid t) i entry in
    record {
      leads = ap (λ (x : Entry). x.address) new_ti;
      present =
          ap (λ (x : Entry). x.p) new_ti
          ∙ ap (λ (f : ℕ → Entry). (f i).p) at_t
          ∙ ap (λ (x : Entry). x.p) (update_self (old t) i e)
          ∙ p;
      others = λ x nt np.
          update_ne mid t (update (mid t) i entry) x nt
          ∙ update_ne (flagged t i e old) page (λ j. no_entry) x np
          ∙ update_ne old t (update (old t) i e) x nt;
      blank = λ j.
          ap (λ (f : ℕ → Entry). (f j).p)
            (update_ne mid t (update (mid t) i entry) page (λ q. ne (sym q))
              ∙ update_self (flagged t i e old) page (λ j. no_entry));
      rest = λ j nj.
          ap (λ (f : ℕ → Entry). f j) new_t
          ∙ update_ne (mid t) i entry j nj
          ∙ ap (λ (f : ℕ → Entry). f j) at_t
          ∙ update_ne (old t) i e j nj;
    }

page_of : (page : ℕ) → page % memunit_sz ≡ 0 → page / memunit_sz * memunit_sz ≡ page
page_of page h = omega arith

-- What `ensure` does to an entry that is not present.
pub record Ensured (lv : ℕ → ℕ) (n t i : ℕ) (s s1 : Paging) (lv1 : ℕ → ℕ) : Type 0 where
  pub paged : IsPaged lv1 s1
  pub kept : (x : ℕ) → lv x ≢ 0 → lv1 x ≡ lv x
  pub present : (s1.tables t i).p ≡ true
  pub above : (x : ℕ) → suc (suc n) < lv x → s1.tables x ≡ s.tables x
  pub tree : IsTree lv s → IsTree lv1 s1
  pub others : (x : ℕ) → lv x ≢ 0 → t ≢ x → s1.tables x ≡ s.tables x
  pub rest : (j : ℕ) → i ≢ j → s1.tables t j ≡ s.tables t j
  pub fresh : IsFresh t i s s1
  pub fewer : (b : ℕ) → cover s1.free b ≤ cover s.free b

pub ensure-present :
    (lv : ℕ → ℕ) (n : ℕ) (rw us : Bool) (t i : ℕ) (s : Paging)
    → IsPaged lv s
    → (s.tables t i).p ≡ true
    → Ensured lv n t i s (ensure rw us t i s) lv
unfolding ensure
ensure-present lv n r us t i s w p = rw p (record {
  paged = w;
  kept = λ x h. refl;
  present = p;
  above = λ x h. refl;
  tree = λ r. r;
  others = λ x h ne. refl;
  rest = λ j ne. refl;
  fresh = inl (refl, p);
  fewer = λ b. omega arith;
})

pub ensure-Made :
    (rw us : Bool) (t i : ℕ) (s : Paging)
    → (s.tables t i).p ≡ false
    → (alloc_pages 0 s.free).0 ≢ t
    → let s1 = ensure rw us t i s in
      Made (alloc_pages 0 s.free).0 t i s.tables s1.tables × (s1.free ≡ (alloc_pages 0 s.free).1)
unfolding ensure get_free_page
ensure-Made r us t i s p ne =
    let flags = record (s.tables t i) {
      p = true;
      rw = r;
      us = us;
      pcd = false;
      pwt = false;
      a = false;
    } in
    rw p (three_writes (alloc_pages 0 s.free).0 t i flags s.tables ne refl, refl)

-- A page that was free is a table of the level below after it was made one.
Made-IsPaged :
    (lv : ℕ → ℕ) (n page t i : ℕ) (s s1 : Paging)
    → IsPaged lv s
    → lv t ≡ suc (suc n)
    → Taken s.free page s1.free
    → page ≢ 0
    → Made page t i s.tables s1.tables
    → IsPaged (update lv page (suc n)) s1
Made-IsPaged lv n page t i s s1 w l k nz m = record {
  levels = levels';
  apart = apart';
  single = λ b. omega (arith, k.fewer b, w.single b);
  aligned = k.aligned;
  no_null = update_ne lv page (suc n) 0 nz ∙ w.no_null;
}
  where
    unused : (x : ℕ) → lv x ≢ 0 → page ≢ x
    unused x h e = omega (arith, ap (cover s.free) e, w.apart x h, k.was_free)

    apart' : (x : ℕ) → update lv page (suc n) x ≢ 0 → cover s1.free x ≡ 0
    apart' x h = elim (ℕ-cases page x) [
      | inl e ↦ subst (λ q. cover s1.free q ≡ 0) e k.is_taken
      | inr ne ↦ omega (arith, k.fewer x, w.apart x (λ z. h (update_ne lv page (suc n) x ne ∙ z)))
    ]

    keep :
        (x j c : ℕ)
        → lv x ≡ suc (suc c)
        → s1.tables x j ≡ s.tables x j
        → (s1.tables x j).p ≡ true
        → update lv page (suc n) (next_table s1 x j) ≡ suc c
    keep x j c h same p =
        let y = next_table s x j in
        let low : lv y ≡ suc c = w.levels x j c h (ap (λ (e : Entry). e.p) (sym same) ∙ p) in
        ap (λ (e : Entry). update lv page (suc n) (e.address * memunit_sz)) same
        ∙ update_ne lv page (suc n) y (unused y (λ z. absurd (omega (arith, low, z))))
        ∙ low

    at_entry : (c : ℕ) → lv t ≡ suc (suc c) → update lv page (suc n) (next_table s1 t i) ≡ suc c
    at_entry c h =
        ap (λ q. update lv page (suc n) (q * memunit_sz)) m.leads
        ∙ ap (update lv page (suc n)) (page_of page k.aligned_page)
        ∙ update_self lv page (suc n)
        ∙ omega (arith, l, h)

    levels' :
        (x j c : ℕ)
        → update lv page (suc n) x ≡ suc (suc c)
        → (s1.tables x j).p ≡ true
        → update lv page (suc n) (next_table s1 x j) ≡ suc c
    levels' x j c h p = elim (ℕ-cases page x) [
      | inl e ↦
          let none : (s1.tables x j).p ≡ false =
            subst (λ q. (s1.tables q j).p ≡ false) e (m.blank j) in
          cc
      | inr nx ↦
          let lx : lv x ≡ suc (suc c) = sym (update_ne lv page (suc n) x nx) ∙ h in
          elim (ℕ-cases t x) [
            | inr nt ↦ keep x j c lx (ap (λ (f : ℕ → Entry). f j) (m.others x nt nx)) p
            | inl et ↦ elim (ℕ-cases i j) [
              | inl ei ↦
                  subst (λ q. update lv page (suc n) (next_table s1 x q) ≡ suc c) ei
                    (subst
                      (λ q. lv q ≡ suc (suc c) → update lv page (suc n) (next_table s1 q i) ≡ suc c)
                      et (at_entry c) lx)
              | inr ni ↦
                  keep x j c lx (subst (λ q. s1.tables q j ≡ s.tables q j) et (m.rest j ni)) p
            ]
          ]
    ]

pub ensure-absent :
    (lv : ℕ → ℕ) (n : ℕ) (rw us : Bool) (t i : ℕ) (s : Paging)
    → IsPaged lv s
    → lv t ≡ suc (suc n)
    → (s.tables t i).p ≡ false
    → (alloc_pages 0 s.free).0 ≢ 0
    → Ensured lv n t i s (ensure rw us t i s) (update lv (alloc_pages 0 s.free).0 (suc n))
ensure-absent lv n r us t i s w l p nz =
    let page = (alloc_pages 0 s.free).0 in
    let s1 = ensure r us t i s in
    let k = alloc_pages-Taken s.free w.aligned w.single nz in
    let unused : (x : ℕ) → lv x ≢ 0 → page ≢ x =
      λ x h e. omega (arith, ap (cover s.free) e, w.apart x h, k.was_free) in
    let (m, f) = ensure-Made r us t i s p (unused t (λ z. absurd (omega (arith, l, z)))) in
    let here : next_table s1 t i ≡ page =
      ap (λ q. q * memunit_sz) m.leads ∙ page_of page k.aligned_page in
    record {
      paged = Made-IsPaged lv n page t i s s1 w l (subst (Taken s.free page) (sym f) k) nz m;
      kept = λ x h. update_ne lv page (suc n) x (unused x h);
      present = m.present;
      above = λ x h.
          m.others x (λ e. absurd (omega (arith, ap lv e, l)))
            (unused x (λ z. absurd (omega (arith, z))));
      tree = Made-IsTree lv n page t i s s1 w.levels l unused m here;
      others = λ x h ne. m.others x ne (unused x h);
      rest = m.rest;
      fresh = inr (p, λ j. subst (λ q. (s1.tables q j).p ≡ false) (sym here) (m.blank j));
      fewer = λ b. omega (arith, ap (λ g. cover g b) f, k.fewer b);
    }
