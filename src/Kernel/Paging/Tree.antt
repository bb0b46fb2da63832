-- ===== src/Kernel/Paging/Tree.antt =====
-- The tables of kernel/memory/paging.c as a tree: no table is reached through two entries, and what is
-- mapped through one path leaves all others as they are.
pub mod Paths
use tay_huang_os.Prelude.{
  ℕ, zero, suc, true, false, ◌*◌, ◌/◌, ◌≤◌, ◌<◌, ◌≡◌, ◌≢◌, refl, sym, ap, subst, ◌∙◌, arith,
  ℕ-cases, Bool-cases, ◌⊎◌, inl, inr, if◌then◌else◌,
}
use tay_huang_os.Kernel.State.{null, update}
use tay_huang_os.Kernel.Ready.Chain.{update_ne}
use tay_huang_os.Kernel.Pmm.{memunit_sz}
use tay_huang_os.Kernel.Paging.{Entry, Paging, next_table, index, walk_level}
use tay_huang_os.Kernel.Paging.Tree.Paths.{
  SamePath, IsTree, Leads, IsFramed, go_on, walk_level-go_on, walk_level-below, Made, IsFresh,
}

module _ (lv : ℕ → ℕ) (n page t i : ℕ) (s s1 : Paging) (leads : Leads lv s)
    (level : lv t ≡ suc (suc n)) (unused : (x : ℕ) → lv x ≢ 0 → page ≢ x)
    (m : Made page t i s.tables s1.tables) (here : next_table s1 t i ≡ page) where
  -- A present entry is the new one or an old one that leads elsewhere.
  entry-cases :
      (c x j : ℕ)
      → update lv page (suc n) x ≡ suc (suc c)
      → (s1.tables x j).p ≡ true
      → ((x ≡ t) × (j ≡ i))
        ⊎ ((lv x ≡ suc (suc c)) × (s1.tables x j ≡ s.tables x j) × (page ≢ next_table s1 x j))
  entry-cases c x j l p = elim (ℕ-cases page x) [
    | inl e ↦
        let none : (s1.tables x j).p ≡ false =
          subst (λ q. (s1.tables q j).p ≡ false) e (m.blank j) in
        absurd (cc)
    | inr nx ↦
        let lx : lv x ≡ suc (suc c) = sym (update_ne lv page (suc n) x nx) ∙ l in
        let old : s1.tables x j ≡ s.tables x j
            → ((x ≡ t) × (j ≡ i))
              ⊎ ((lv x ≡ suc (suc c))
                  × (s1.tables x j ≡ s.tables x j)
                  × (page ≢ next_table s1 x j)) =
          λ e.
            let low = leads x j c lx (ap (λ (q : Entry). q.p) (sym e) ∙ p) in
            let far = unused (next_table s x j) (λ z. absurd (omega (arith, low, z))) in
            inr (lx, e, λ h. far (h ∙ ap (λ (q : Entry). q.address * memunit_sz) e)) in
        elim (ℕ-cases t x) [
          | inr nt ↦ old (ap (λ (f : ℕ → Entry). f j) (m.others x nt nx))
          | inl et ↦ elim (ℕ-cases i j) [
            | inl ei ↦ inl (sym et, sym ei)
            | inr ni ↦ old (subst (λ q. s1.tables q j ≡ s.tables q j) et (m.rest j ni))
          ]
        ]
  ]

  -- With the new table the tables are still a tree.
  pub Made-IsTree : IsTree lv s → IsTree (update lv page (suc n)) s1
  Made-IsTree tree c x j x' j' l l' p p' e =
      let leads_page : (a b : ℕ) → (a ≡ t) → (b ≡ i) → next_table s1 a b ≡ page =
        λ a b ea eb. ap (λ q. next_table s1 q b) ea ∙ ap (λ q. next_table s1 t q) eb ∙ here in
      elim (entry-cases c x j l p) [
        | inl (a, b) ↦ elim (entry-cases c x' j' l' p') [
          | inl (a', b') ↦ (a ∙ sym a', b ∙ sym b')
          | inr (_, _, far) ↦ absurd (far (sym (leads_page x j a b) ∙ e))
        ]
        | inr (lx, same, far) ↦ elim (entry-cases c x' j' l' p') [
          | inl (a', b') ↦ absurd (far (sym (leads_page x' j' a' b') ∙ sym e))
          | inr (lx', same', _) ↦
              tree c x j x' j' lx lx' (ap (λ (q : Entry). q.p) (sym same) ∙ p)
                (ap (λ (q : Entry). q.p) (sym same') ∙ p')
                (ap (λ (q : Entry). q.address * memunit_sz) (sym same)
                  ∙ e
                  ∙ ap (λ (q : Entry). q.address * memunit_sz) same')
        ]
      ]

-- Tables above the last level that stay keep the tree.
pub IsTree-same :
    (lv : ℕ → ℕ) (s s' : Paging)
    → ((x : ℕ) → 1 < lv x → s'.tables x ≡ s.tables x)
    → IsTree lv s
    → IsTree lv s'
IsTree-same lv s s' same tree c x j x' j' l l' p p' e =
    let row = λ (a : ℕ) (h : 1 < lv a) (b : ℕ). ap (λ (f : ℕ → Entry). f b) (same a h) in
    let ex = row x (omega (arith, l)) j in
    let ex' = row x' (omega (arith, l')) j' in
    tree c x j x' j' l l' (ap (λ (q : Entry). q.p) (sym ex) ∙ p)
      (ap (λ (q : Entry). q.p) (sym ex') ∙ p')
      (ap (λ (q : Entry). q.address * memunit_sz) (sym ex)
        ∙ e
        ∙ ap (λ (q : Entry). q.address * memunit_sz) ex')

-- One level: `s1` has the entry of `t` made sure of, and `s'` is mapped below it.
module _ (n : ℕ) (lv lv1 : ℕ → ℕ) (t vaddr : ℕ) (s s1 s' : Paging) (leads : Leads lv s)
    (level : lv t ≡ suc (suc n)) (kept : (x : ℕ) → lv x ≢ 0 → lv1 x ≡ lv x)
    (others : (x : ℕ) → lv x ≢ 0 → t ≢ x → s1.tables x ≡ s.tables x)
    (rest : (j : ℕ) → index (suc (suc n)) vaddr ≢ j → s1.tables t j ≡ s.tables t j)
    (present : (s1.tables t (index (suc (suc n)) vaddr)).p ≡ true)
    (fresh : IsFresh t (index (suc (suc n)) vaddr) s s1) (leads1 : Leads lv1 s1)
    (tree1 : IsTree lv1 s1) (above : (x : ℕ) → suc n < lv1 x → s'.tables x ≡ s1.tables x)
    (low : IsFramed n lv1 (next_table s1 t (index (suc (suc n)) vaddr)) vaddr s1 s') where
  -- Below the level of `t` nothing has changed from `s` to `s1`.
  below_same : (x v : ℕ) → lv x ≡ suc n → walk_level (suc n) x v s1 ≡ walk_level (suc n) x v s
  below_same x v l =
      walk_level-below lv s s1 n x v leads l
        (λ y nz h. others y nz (λ e. absurd (omega (arith, ap lv e, level, h))))

  -- A walk from `t'` sees, in `s'`, its entry in `s1`.
  first_entry :
      (t' v : ℕ)
      → lv t' ≡ suc (suc n)
      → walk_level (suc (suc n)) t' v s' ≡ go_on (suc n) (s1.tables t' (index (suc (suc n)) v)) v s'
  first_entry t' v l =
      walk_level-go_on (suc n) t' v s'
      ∙ ap (λ (f : ℕ → Entry). go_on (suc n) (f (index (suc (suc n)) v)) v s')
          (above t' (omega (arith, kept t' (λ z. absurd (omega (arith, l, z))), l)))

  -- A walk that takes the same entry of `t` and leaves the path further down.
  same_entry :
      (v : ℕ)
      → index (suc (suc n)) v ≡ index (suc (suc n)) vaddr
      → (SamePath (suc n) vaddr v → ⊥)
      → walk_level (suc (suc n)) t v s' ≡ walk_level (suc (suc n)) t v s
  same_entry v e leaves =
      let i = index (suc (suc n)) vaddr in
      let t1 = next_table s1 t i in
      let l1 : lv1 t1 ≡ suc n =
        leads1 t i n (kept t (λ z. absurd (omega (arith, level, z))) ∙ level) present in
      let inner : walk_level (suc n) t1 v s' ≡ walk_level (suc n) t1 v s1 =
        low t1 v l1 (λ _. leaves) in
      first_entry t v level
      ∙ ap (λ (j : ℕ). go_on (suc n) (s1.tables t j) v s') e
      ∙ rw present inner
      ∙ elim fresh [
        | inl (same, p) ↦
            let down : next_table s t i ≡ t1 =
              ap (λ (q : Entry). q.address * memunit_sz) (sym same) in
            let lt : lv t1 ≡ suc n = subst (λ q. lv q ≡ suc n) down (leads t i n level p) in
            below_same t1 v lt
            ∙ ap (λ q. walk_level (suc n) q v s) (sym down)
            ∙ sym (rw p refl)
            ∙ ap (λ (j : ℕ). go_on (suc n) (s.tables t j) v s) (sym e)
            ∙ sym (walk_level-go_on (suc n) t v s)
        | inr (p, blank) ↦
            walk_level-go_on n t1 v s1
            ∙ rw (blank (index (suc n) v)) (
                sym (rw p refl)
                ∙ ap (λ (j : ℕ). go_on (suc n) (s.tables t j) v s) (sym e)
                ∙ sym (walk_level-go_on (suc n) t v s))
      ]

  -- A walk that takes another entry, which is as it was.
  other_entry :
      (t' v : ℕ)
      → lv t' ≡ suc (suc n)
      → ((t' ≡ t) × (index (suc (suc n)) v ≡ index (suc (suc n)) vaddr) → ⊥)
      → s1.tables t' (index (suc (suc n)) v) ≡ s.tables t' (index (suc (suc n)) v)
      → walk_level (suc (suc n)) t' v s' ≡ walk_level (suc (suc n)) t' v s
  other_entry t' v l apart same =
      let j = index (suc (suc n)) v in
      let i = index (suc (suc n)) vaddr in
      let x = next_table s t' j in
      let lv1_of : (y : ℕ) (m : ℕ) → lv y ≡ suc m → lv1 y ≡ suc m =
        λ y m h. kept y (λ z. absurd (omega (arith, h, z))) ∙ h in
      first_entry t' v l
      ∙ ap (λ (e : Entry). go_on (suc n) e v s') same
      ∙ elim (Bool-cases (s.tables t' j).p) [
        | inl p ↦
            let lx : lv x ≡ suc n = leads t' j n l p in
            let p1 : (s1.tables t' j).p ≡ true = ap (λ (e : Entry). e.p) same ∙ p in
            let x1 : next_table s1 t' j ≡ x = ap (λ (e : Entry). e.address * memunit_sz) same in
            let elsewhere : x ≡ next_table s1 t i → SamePath (suc n) vaddr v → ⊥ = λ e _. apart (
              tree1 n t' j t i (lv1_of t' (suc n) l) (lv1_of t (suc n) level) p1 present
                (x1 ∙ e)) in
            rw p (low x v (lv1_of x n lx) elsewhere ∙ below_same x v lx)
        | inr p ↦ rw p refl
      ]
      ∙ sym (walk_level-go_on (suc n) t' v s)

  pub IsFramed-step : IsFramed (suc n) lv t vaddr s s'
  IsFramed-step t' v l apart =
      let j = index (suc (suc n)) v in
      let i = index (suc (suc n)) vaddr in
      elim (ℕ-cases t t') [
        | inr nt ↦
            other_entry t' v l (λ h. nt (sym h.0))
              (ap (λ (f : ℕ → Entry). f j) (others t' (λ z. absurd (omega (arith, l, z))) nt))
        | inl et ↦ elim (ℕ-cases i j) [
          | inl ei ↦
              subst (λ q. walk_level (suc (suc n)) q v s' ≡ walk_level (suc (suc n)) q v s) et
                (same_entry v (sym ei) (λ path. apart (sym et) (ei, path)))
          | inr ni ↦
              other_entry t' v l (λ h. ni (sym h.1))
                (subst (λ q. s1.tables q j ≡ s.tables q j) et (rest j ni))
        ]
      ]
