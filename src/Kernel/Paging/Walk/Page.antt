-- ===== src/Kernel/Paging/Walk/Page.antt =====
-- The last level of a mapping in kernel/memory/paging.c: the entry of the page itself.
use tay_huang_os.Prelude.{
  ℕ, suc, Bool, true, ◌+◌, ◌*◌, ◌/◌, ◌%◌, ◌≤◌, ◌<◌, ◌≡◌, ◌≢◌, refl, sym, ap, ◌∙◌, subst, arith,
  Bool-cases, ℕ-cases, inl, inr,
}
use tay_huang_os.Kernel.State.{update}
use tay_huang_os.Kernel.Ready.Chain.{update_ne, update_self}
use tay_huang_os.Kernel.Pmm.{memunit_sz}
use tay_huang_os.Kernel.Pmm.Cover.{cover}
use tay_huang_os.Kernel.Paging.{Entry, Paging, next_table, map_page, index, walk_level}
use tay_huang_os.Kernel.Paging.Tree.{IsTree-same}
use tay_huang_os.Kernel.Paging.Tree.Paths.{IsTree, IsFramed, go_on, walk_level-go_on}
use tay_huang_os.Kernel.Paging.Levels.{IsPaged}

-- What `set_level` does when it succeeds.
pub record Mapped (n t vaddr paddr : ℕ) (s s' : Paging) (lv lv' : ℕ → ℕ) : Type 0 where
  pub paged : IsPaged lv' s'
  pub kept : (x : ℕ) → lv x ≢ 0 → lv' x ≡ lv x
  pub found : walk_level (suc n) t vaddr s' ≡ paddr / memunit_sz * memunit_sz + vaddr % memunit_sz
  pub above : (x : ℕ) → suc n < lv x → s'.tables x ≡ s.tables x
  pub tree : IsTree lv s → IsTree lv' s'
  pub framed : IsTree lv s → IsFramed n lv t vaddr s s'
  pub fewer : (b : ℕ) → cover s'.free b ≤ cover s.free b

pub map_page-entry :
    (rw us : Bool) (t i paddr : ℕ) (s : Paging)
    → let s' = map_page rw us t i paddr s in
      ((s'.tables t i).p ≡ true) × ((s'.tables t i).address ≡ paddr / memunit_sz)
unfolding map_page
map_page-entry r us t i paddr s =
    let at = λ (e : Entry).
      ap (λ (f : ℕ → Entry). f i) (update_self s.tables t (update (s.tables t) i e))
      ∙ update_self (s.tables t) i e in
    (
      elim (Bool-cases (s.tables t i).p) [
        | inl p ↦ ap (λ (e : Entry). e.p) (at _) ∙ rw p refl
        | inr p ↦ ap (λ (e : Entry). e.p) (at _) ∙ rw p refl
      ],
      ap (λ (e : Entry). e.address) (at _),
    )

pub walk_level-present :
    (n t vaddr : ℕ) (s : Paging)
    → (s.tables t (index (suc n) vaddr)).p ≡ true
    → walk_level (suc n) t vaddr s ≡ walk_level n (next_table s t (index (suc n) vaddr)) vaddr s
unfolding walk_level
walk_level-present n t vaddr s p = rw p refl

pub map_page-Mapped :
    (lv : ℕ → ℕ) (rw us : Bool) (t vaddr paddr : ℕ) (s : Paging)
    → IsPaged lv s
    → lv t ≡ 1
    → Mapped 0 t vaddr paddr s (map_page rw us t (index 1 vaddr) paddr s) lv lv
unfolding map_page walk_level
map_page-Mapped lv r us t vaddr paddr s w l =
    let i = index 1 vaddr in
    let s' = map_page r us t i paddr s in
    let other : (x : ℕ) → 1 < lv x → s'.tables x ≡ s.tables x =
      λ x h. update_ne s.tables t _ x (λ e. absurd (omega (arith, ap lv e, l, h))) in
    let at_t = update_self s.tables t (s'.tables t) in
    record {
      paged = record {
        levels = λ x j n h p.
            let same = other x (omega arith) in
            ap (λ (f : ℕ → Entry). lv ((f j).address * memunit_sz)) same
            ∙ w.levels x j n h (ap (λ (f : ℕ → Entry). (f j).p) (sym same) ∙ p);
        apart = w.apart;
        single = w.single;
        aligned = w.aligned;
        no_null = w.no_null;
      };
      kept = λ x h. refl;
      found = last_level;
      above = other;
      tree = IsTree-same lv s s' other;
      framed = λ _. last_framed;
      fewer = λ b. omega arith;
    }
  where
    last_framed : IsFramed 0 lv t vaddr s (map_page r us t (index 1 vaddr) paddr s)
    last_framed t' v l' apart =
        let s' = map_page r us t (index 1 vaddr) paddr s in
        let row : s'.tables t' (index 1 v) ≡ s.tables t' (index 1 v) = elim (ℕ-cases t t') [
          | inr nt ↦ ap (λ (f : ℕ → Entry). f (index 1 v)) (update_ne s.tables t _ t' nt)
          | inl et ↦
              let ne : index 1 vaddr ≢ index 1 v = λ e. apart (sym et) (e, tt) in
              subst (λ q. s'.tables q (index 1 v) ≡ s.tables q (index 1 v)) et
                (ap (λ (f : ℕ → Entry). f (index 1 v)) (update_self s.tables t _)
                  ∙ update_ne (s.tables t) (index 1 vaddr) _ (index 1 v) ne)
        ] in
        walk_level-go_on 0 t' v s'
        ∙ ap (λ (e : Entry). go_on 0 e v s') row
        ∙ sym (walk_level-go_on 0 t' v s)

    last_level :
        walk_level 1 t vaddr (map_page r us t (index 1 vaddr) paddr s)
        ≡ paddr / memunit_sz * memunit_sz + vaddr % memunit_sz
    last_level =
        let (p, a) = map_page-entry r us t (index 1 vaddr) paddr s in
        walk_level-present 0 t vaddr (map_page r us t (index 1 vaddr) paddr s) p
        ∙ ap (λ q. q * memunit_sz + vaddr % memunit_sz) a
