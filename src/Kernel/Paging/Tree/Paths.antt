-- ===== src/Kernel/Paging/Tree/Paths.antt =====
-- Paths of entries through the tables of kernel/memory/paging.c, and what one new table changes.
use tay_huang_os.Prelude.{
  ℕ, zero, suc, true, false, ◌*◌, ◌/◌, ◌≤◌, ◌≡◌, ◌≢◌, refl, ap, ◌∙◌, arith, Bool-cases, ◌⊎◌, inl,
  inr, if◌then◌else◌,
}
use tay_huang_os.Kernel.State.{null}
use tay_huang_os.Kernel.Pmm.{memunit_sz}
use tay_huang_os.Kernel.Paging.{Entry, Paging, next_table, index, walk_level}

-- Two addresses take the same entries of the levels `n` to 1.
abbrev pub SamePath : ℕ → ℕ → ℕ → Type 0
SamePath zero v v' = Unit
SamePath (suc n) v v' = (index (suc n) v ≡ index (suc n) v') × SamePath n v v'

-- A table is reached through one entry only.
abbrev pub IsTree : (ℕ → ℕ) → Paging → Type 0
IsTree lv s =
    (n x j x' j' : ℕ)
    → lv x ≡ suc (suc n)
    → lv x' ≡ suc (suc n)
    → (s.tables x j).p ≡ true
    → (s.tables x' j').p ≡ true
    → next_table s x j ≡ next_table s x' j'
    → (x ≡ x') × (j ≡ j')

-- A present entry leads one level down.
abbrev pub Leads : (ℕ → ℕ) → Paging → Type 0
Leads lv s =
    (t i n : ℕ) → lv t ≡ suc (suc n) → (s.tables t i).p ≡ true → lv (next_table s t i) ≡ suc n

-- Every walk from a table of the level of `t` that leaves the path of `vaddr` ends as before.
abbrev pub IsFramed : ℕ → (ℕ → ℕ) → ℕ → ℕ → Paging → Paging → Type 0
IsFramed n lv t vaddr s s' =
    (t' v : ℕ)
    → lv t' ≡ suc n
    → (t' ≡ t → SamePath (suc n) vaddr v → ⊥)
    → walk_level (suc n) t' v s' ≡ walk_level (suc n) t' v s

-- The first entry of a walk, and what comes after it.
abbrev pub go_on : ℕ → Entry → ℕ → Paging → ℕ
go_on n e v s = if e.p then walk_level n (e.address * memunit_sz) v s else null

pub walk_level-go_on :
    (n t v : ℕ) (s : Paging) → walk_level (suc n) t v s ≡ go_on n (s.tables t (index (suc n) v)) v s
unfolding walk_level
walk_level-go_on n t v s = refl

-- A walk looks at tables of its level and below only.
pub walk_level-below :
    (lv : ℕ → ℕ) (s s' : Paging) (n t v : ℕ)
    → Leads lv s
    → lv t ≡ suc n
    → ((x : ℕ) → lv x ≢ 0 → lv x ≤ suc n → s'.tables x ≡ s.tables x)
    → walk_level (suc n) t v s' ≡ walk_level (suc n) t v s
unfolding walk_level
walk_level-below lv s s' zero t v w l same =
    ap (λ (f : ℕ → Entry). go_on zero (f (index 1 v)) v s')
      (same t (omega (arith, l)) (omega (arith, l)))
walk_level-below lv s s' (suc n) t v w l same =
    let e = s.tables t (index (suc (suc n)) v) in
    ap (λ (f : ℕ → Entry). go_on (suc n) (f (index (suc (suc n)) v)) v s')
      (same t (omega (arith, l)) (omega (arith, l)))
    ∙ elim (Bool-cases e.p) [
      | inl p ↦ rw p (
          walk_level-below lv s s' n (e.address * memunit_sz) v w
            (w t (index (suc (suc n)) v) n l p) (λ x nz h. same x nz (omega (arith, h))))
      | inr p ↦ rw p refl
    ]

-- An entry of `t` that now leads to the new, empty table `page`.
pub record Made (page t i : ℕ) (old new : ℕ → ℕ → Entry) : Type 0 where
  pub leads : (new t i).address ≡ page / memunit_sz
  pub present : (new t i).p ≡ true
  pub others : (x : ℕ) → t ≢ x → page ≢ x → new x ≡ old x
  pub blank : (j : ℕ) → (new page j).p ≡ false
  pub rest : (j : ℕ) → i ≢ j → new t j ≡ old t j

-- An entry that was present stays, and one that was not leads to an empty table.
abbrev pub IsFresh : ℕ → ℕ → Paging → Paging → Type 0
IsFresh t i s s1 =
    ((s1.tables t i ≡ s.tables t i) × ((s.tables t i).p ≡ true))
    ⊎ (((s.tables t i).p ≡ false) × ((j : ℕ) → (s1.tables (next_table s1 t i) j).p ≡ false))
