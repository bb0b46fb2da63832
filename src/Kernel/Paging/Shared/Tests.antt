-- ===== src/Kernel/Paging/Shared/Tests.antt =====
-- Memory shared between two tasks, the first of which has one page mapped (kernel/memory/paging.c,
-- shared_memory.c and pmm.c).
use tay_huang_os.Prelude.{
  ℕ, Bool, true, some, [], ◌∷◌, ◌+◌, ◌%◌, ◌<◌, ◌==◌, ◌≡◌, if◌then◌else◌, refl, ◌∙◌, arith,
  Bool-cases, inl, inr,
}
use tay_huang_os.Prelude.Int.{pos, ◌-ℤ◌}
use tay_huang_os.Kernel.State.{Kernel}
use tay_huang_os.Kernel.Samples.{tasks, two_ready}
use tay_huang_os.Kernel.Tasks.{get_task_by_pid, walk}
use tay_huang_os.Kernel.Pmm.{
  Areas, alloc_pages, alloc_free_pages, alloc_from, return_pages, return_bits, return_whole,
}
use tay_huang_os.Kernel.Pmm.Cover.{cover}
use tay_huang_os.Kernel.Pmm.Virtual.{pvmemcpy, alloc_vpages, alloc_bits, alloc_whole, alloc_block}
use tay_huang_os.Kernel.Pmm.Virtual.Given.{AllGranted, alloc_vpages-IsGiven}
use tay_huang_os.Kernel.Pmm.Virtual.Block.{IsGiven}
use tay_huang_os.Kernel.Pmm.Virtual.Copied.{pvmemcpy-SameBytes}
use tay_huang_os.Kernel.Paging.{
  no_entry, Paging, set_mapping, map_pages, set_mapping1, set_level, map_page, ensure,
  get_free_page, get_physical_address, walk_level, map_shared, set_mappingvv,
}
use tay_huang_os.Kernel.Paging.Tree.Paths.{IsTree}
use tay_huang_os.Kernel.Paging.Levels.{IsPaged}
use tay_huang_os.Kernel.Paging.Range.{set_mapping-IsRange}
use tay_huang_os.Kernel.Paging.Range.Page.{IsMapped, IsRange}
use tay_huang_os.Kernel.Paging.Shared.{shm_mapping, SameBytes, shm_mapping-SameBytes}
use tay_huang_os.Kernel.Paging.Shared.Pages.{shared}

abbrev two_roots : ℕ → ℕ
two_roots t = if t == 4096 then 4 else if t == 20480 then 4 else 0

abbrev six_pages : Areas
six_pages order = if order == 0 then 8192 ∷ 12288 ∷ 16384 ∷ 24576 ∷ 28672 ∷ 32768 ∷ [] else []

abbrev two_spaces : Paging
two_spaces = record { tables = λ t i. no_entry; free = six_pages }

two_spaces-IsPaged : IsPaged two_roots two_spaces
unfolding cover
two_spaces-IsPaged = record {
  levels = λ t i n h p. cc;
  apart = λ t h. ground arith;
  single = λ b. ground arith;
  aligned = λ i. elim (Bool-cases (i == 0)) [
    | inl e ↦ rw e (refl, (refl, (refl, (refl, (refl, (refl, tt))))))
    | inr e ↦ rw e tt
  ];
  no_null = refl;
}

abbrev one_mapped : Bool × Paging
one_mapped = set_mapping 4096 123456789 40960 1 true true two_spaces

one_mapped_done : one_mapped.0 ≡ true
unfolding set_mapping map_pages set_mapping1 set_level ensure get_free_page alloc_pages
    alloc_free_pages alloc_from return_pages return_bits return_whole ◌-ℤ◌
one_mapped_done = refl

two_spaces-IsTree : IsTree two_roots two_spaces
two_spaces-IsTree n x j x' j' l l' p p' e = cc

abbrev one_page : IsRange 4096 123453440 40960 1 two_roots two_spaces one_mapped.1
one_page =
    set_mapping-IsRange 4096 123456789 40960 1 true true two_roots two_spaces two_spaces-IsPaged
      two_spaces-IsTree refl refl (omega arith) (omega arith) one_mapped_done

-- The tasks 100, with the pid 5, and 200, with the pid 6.
abbrev two_tasks : Kernel
two_tasks = record (two_ready (pos 0)) {
  task = λ p. record (tasks (pos 0) p) {
    pid = if p == 100 then pos 5 else pos 6;
    pgd = if p == 100 then 4096 else 20480;
    next = if p == 100 then 200 else 0;
  };
  task_list = 100;
}

abbrev shared_tables : Paging
shared_tables = (set_mappingvv 4096 123456789 20480 123456789 1 true true one_mapped.1).1

has_shared :
    shm_mapping 3 two_tasks 123456789 1 (pos 5) (pos 6) one_mapped.1 ≡ some (true, shared_tables)
unfolding shm_mapping get_task_by_pid walk set_mappingvv map_shared set_mapping map_pages
    set_mapping1 set_level ensure get_free_page alloc_pages alloc_free_pages alloc_from return_pages
    return_bits return_whole map_page ◌-ℤ◌ get_physical_address walk_level
has_shared = refl

first_task : get_task_by_pid 3 two_tasks (pos 5) ≡ some 100
unfolding get_task_by_pid walk
first_task = refl

second_task : get_task_by_pid 3 two_tasks (pos 6) ≡ some 200
unfolding get_task_by_pid walk
second_task = refl

shm_mapping-SameBytes_example :
    SameBytes 4096 20480 123456789 1 one_mapped.1 shared_tables
    × IsMapped 20480 123453440 1
        (shared one_mapped.1 4096 123453440 123453440)
        one_page.level
        one_mapped.1
        shared_tables
shm_mapping-SameBytes_example =
    shm_mapping-SameBytes 3 two_tasks 123456789 1 (pos 5) (pos 6) 100 200 one_page.level
      one_mapped.1 shared_tables first_task second_task one_page.paged one_page.tree
      (one_page.kept 4096 (omega arith)) (one_page.kept 20480 (omega arith))
      (λ e. absurd (omega arith)) (omega arith) (omega arith) has_shared

both_see : SameBytes 4096 20480 123456789 1 one_mapped.1 shared_tables
both_see =
    (shm_mapping-SameBytes 3 two_tasks 123456789 1 (pos 5) (pos 6) 100 200 one_page.level
      one_mapped.1 shared_tables first_task second_task one_page.paged one_page.tree
      (one_page.kept 4096 (omega arith)) (one_page.kept 20480 (omega arith))
      (λ e. absurd (omega arith)) (omega arith) (omega arith) has_shared).0

place : (i : ℕ) → i < 3 → get_physical_address one_mapped.1 4096 (123456789 + i) ≡ 44309 + i
place i h = one_page.inside (123456789 + i) (omega arith) (omega (arith, h)) ∙ omega (arith, h)

-- Three bytes from the physical address 100 on, copied to the target's address.
pvmemcpy-SameBytes_example :
    (pvmemcpy
      (get_physical_address shared_tables)
      20480
      123456789
      100
      3
      (λ a. a)
      (get_physical_address shared_tables 4096 (123456789 + 2)))
    ≡ 102
pvmemcpy-SameBytes_example =
    pvmemcpy-SameBytes 4096 20480 123456789 1 123456789 100 3 one_mapped.1 shared_tables (λ a. a)
      both_see (omega arith) (omega arith) (λ i h e. absurd (omega (arith, place i h, e)))
      (λ i j lt h. (
        λ e. absurd (omega (arith, place i (omega (arith, lt, h)), place j h, e, lt)),
        λ e. absurd (omega (arith, place i (omega (arith, lt, h)), e, lt, h)),
      ))
      2 (omega arith)

-- The target reaches the byte that the source has at 40960 and some.
target_reads : get_physical_address shared_tables 20480 123456789 ≡ 44309
unfolding set_mappingvv map_shared set_mapping map_pages set_mapping1 set_level ensure get_free_page
    alloc_pages alloc_free_pages alloc_from return_pages return_bits return_whole map_page ◌-ℤ◌
    get_physical_address walk_level
target_reads = refl

-- A page that the source has not mapped becomes the first page of memory in the target.
not_mapped_shared :
    get_physical_address
      (set_mappingvv 4096 123456789 20480 123456789 1 true true two_spaces).1
      20480
      123456789
    ≡ 123456789 % 4096
unfolding set_mappingvv map_shared set_mapping1 set_level ensure get_free_page alloc_pages
    alloc_free_pages alloc_from return_pages return_bits return_whole map_page ◌-ℤ◌
    get_physical_address walk_level
not_mapped_shared = refl

-- One page for the second space; its tables take the three pages after it.
one_allocated :
    get_physical_address (alloc_vpages 20480 123453440 (pos 1) two_spaces) 20480 123456789 ≡ 11541
unfolding alloc_vpages alloc_bits alloc_whole alloc_block set_mapping map_pages set_mapping1
    set_level ensure get_free_page alloc_pages alloc_free_pages alloc_from return_pages return_bits
    return_whole map_page ◌-ℤ◌ get_physical_address walk_level
one_allocated = refl

one_granted : AllGranted 9 0 1 20480 123453440 two_spaces
unfolding alloc_block set_mapping map_pages set_mapping1 set_level ensure get_free_page alloc_pages
    alloc_free_pages alloc_from return_pages return_bits return_whole map_page ◌-ℤ◌
one_granted = ((λ e. absurd (omega (arith, e)), refl), tt)

alloc_vpages-IsGiven_example :
    IsGiven 20480 123453440 1 two_roots two_spaces (alloc_vpages 20480 123453440 (pos 1) two_spaces)
alloc_vpages-IsGiven_example =
    alloc_vpages-IsGiven 20480 123453440 1 two_roots two_spaces two_spaces-IsPaged two_spaces-IsTree
      refl refl (omega arith) one_granted
