-- ===== src/Kernel/Paging/Shared.antt =====
-- Memory that two address spaces share (`set_mappingvv` of kernel/memory/paging.c, and
-- kernel/memory/shared_memory.c).
pub mod Pages
mod Tests
use tay_huang_os.Prelude.{
  ℕ, zero, suc, Bool, true, false, Option, none, some, some_injective, subst, ◌==◌, ◌+◌, ◌-◌, ◌*◌,
  ◌/◌, ◌%◌, ◌^◌, ◌≤◌, ◌<◌, ◌≡◌, ◌≢◌, ◌⊎◌, inl, inr, refl, sym, ap, ◌∙◌, arith, Bool-cases,
  if◌then◌else◌,
}
use tay_huang_os.Prelude.Int.{ℤ}
use tay_huang_os.Kernel.State.{Kernel, null}
use tay_huang_os.Kernel.Tasks.{get_task_by_pid}
use tay_huang_os.Kernel.Pmm.{memunit_sz}
use tay_huang_os.Kernel.Paging.{
  Entry, Paging, index, next_table, set_mapping1, walk_level, get_physical_address, map_shared,
  set_mappingvv,
}
use tay_huang_os.Kernel.Paging.Tree.Paths.{IsTree, SamePath, go_on, walk_level-go_on}
use tay_huang_os.Kernel.Paging.Levels.{IsPaged}
use tay_huang_os.Kernel.Paging.Range.Page.{
  IsMapped, IsMapped-nil, IsMapped-step, page-SamePath, set_mapping1-others,
}
use tay_huang_os.Kernel.Paging.Shared.Pages.{shared, set_mappingvv-IsMapped}

-- `shm_mapping` for the lists of tasks and tables: `none` is a read through NULL, or fuel that ran out.
abbrev share : Kernel → ℕ → ℕ → ℕ → ℕ → Paging → Option (Bool × Paging)
share k target source mem pages s =
    if target == null
    then none
    else if source == null
    then none
    else some (set_mappingvv (k.task source).pgd mem (k.task target).pgd mem pages true true s)

unfoldable pub shm_mapping : ℕ → Kernel → ℕ → ℕ → ℤ → ℤ → Paging → Option (Bool × Paging)
shm_mapping fuel k mem pages src_pid target_pid s = elim (get_task_by_pid fuel k target_pid) [
  | none ↦ none
  | some target ↦ elim (get_task_by_pid fuel k src_pid) [
    | none ↦ none
    | some source ↦ share k target source mem pages s
  ]
]

walk_level-offset :
    (n t v : ℕ) (s : Paging)
    → walk_level (suc n) t v s ≢ null
    → walk_level (suc n) t v s % memunit_sz ≡ v % memunit_sz
unfolding walk_level
walk_level-offset zero t v s nz = elim (Bool-cases (s.tables t (index 1 v)).p) [
  | inl p ↦ rw p (omega arith)
  | inr p ↦ absurd (nz (rw p refl))
]
walk_level-offset (suc n) t v s nz = elim (Bool-cases (s.tables t (index (suc (suc n)) v)).p) [
  | inl p ↦ rw p (walk_level-offset n _ v s (rw p at nz))
  | inr p ↦ absurd (nz (rw p refl))
]

-- What `shm_mapping` promises of the two tasks: the target sees each byte of the range that the
-- source has, at the same address.
abbrev pub SameBytes : ℕ → ℕ → ℕ → ℕ → Paging → Paging → Type 0
SameBytes source target mem pages s s' =
    (v : ℕ)
    → mem / memunit_sz * memunit_sz ≤ v
    → v < mem / memunit_sz * memunit_sz + pages * memunit_sz
    → get_physical_address s source v ≢ null
    → (get_physical_address s' source v ≡ get_physical_address s source v)
      × (get_physical_address s' target v ≡ get_physical_address s source v)

SameBytes-shared :
    (source target mem pages : ℕ) (lv : ℕ → ℕ) (s s' : Paging)
    → let to = mem / memunit_sz * memunit_sz in
      lv source ≡ 4
      → source ≢ target
      → mem + pages * memunit_sz ≤ 2 ^ 48
      → IsMapped target to pages (shared s source to to) lv s s'
      → SameBytes source target mem pages s s'
unfolding get_physical_address
SameBytes-shared source target mem pages lv s s' ls ne top m v lo hi nz =
    let at = get_physical_address s source in
    let offset = walk_level-offset 3 source v s nz in
    let to = mem / memunit_sz * memunit_sz in
    let place : to + (v - to) ≡ v = omega (arith, lo) in
    (
      m.outside source v ls (omega (arith, hi, top)) (inl ne),
      m.inside v lo hi
          ∙ ap (λ u. at u / memunit_sz * memunit_sz + v % memunit_sz) place
          ∙ omega (arith, offset),
    )

share-true :
    (k : Kernel) (target source mem pages : ℕ) (s s' : Paging)
    → share k target source mem pages s ≡ some (true, s')
    → set_mappingvv (k.task source).pgd mem (k.task target).pgd mem pages true true s ≡ (true, s')
share-true k target source mem pages s s' e = elim (Bool-cases (target == null)) [
  | inl t ↦ let no : Path (Option (Bool × Paging)) none (some (true, s')) = rw t at e in cc
  | inr t ↦ elim (Bool-cases (source == null)) [
    | inl z ↦ let no : Path (Option (Bool × Paging)) none (some (true, s')) = rw (t, z) at e in cc
    | inr z ↦ some_injective (rw (t, z) at e)
  ]
]

-- With the tables a tree of their levels, apart from the free pages, and no page free twice: at most
-- 2^19 pages below 2^48 that `shm_mapping` reports as shared between two tasks that it finds, each
-- with page tables of its own. The target reaches each byte of the range that the source reaches, at
-- the source's address, where the source still finds it. What any task finds below 2^48 outside the
-- target's range is as before.
pub shm_mapping-SameBytes :
    (fuel : ℕ) (k : Kernel) (mem pages : ℕ) (src_pid target_pid : ℤ) (source target : ℕ)
    (lv : ℕ → ℕ) (s s' : Paging)
    → let to = mem / memunit_sz * memunit_sz in
      let src_pgd = (k.task source).pgd in
      let pgd = (k.task target).pgd in
      get_task_by_pid fuel k src_pid ≡ some source
      → get_task_by_pid fuel k target_pid ≡ some target
      → IsPaged lv s
      → IsTree lv s
      → lv src_pgd ≡ 4
      → lv pgd ≡ 4
      → src_pgd ≢ pgd
      → mem + pages * memunit_sz ≤ 2 ^ 48
      → pages ≤ 2 ^ 19
      → shm_mapping fuel k mem pages src_pid target_pid s ≡ some (true, s')
      → SameBytes src_pgd pgd mem pages s s'
        × IsMapped pgd to pages (shared s src_pgd to to) lv s s'
unfolding shm_mapping
shm_mapping-SameBytes fuel k mem pages src_pid target_pid source target lv s s' fs ft w tr ls lt ne
      top few e =
    let src_pgd = (k.task source).pgd in
    let pgd = (k.task target).pgd in
    let found : share k target source mem pages s ≡ some (true, s') =
      rw (shm_mapping, ft, fs) at e in
    let done = share-true k target source mem pages s s' found in
    let m =
      set_mappingvv-IsMapped src_pgd mem pgd mem pages true true lv s w tr ls lt top top few
        (inl ne) (ap (λ r. r.0) done) in
    let m' =
      subst
        (λ (r : Bool × Paging).
          IsMapped pgd (mem / memunit_sz * memunit_sz) pages
            (shared s src_pgd (mem / memunit_sz * memunit_sz) (mem / memunit_sz * memunit_sz)) lv s
            r.1)
        done m in
    (SameBytes-shared src_pgd pgd mem pages lv s s' ls ne top m', m')
