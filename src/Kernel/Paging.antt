-- ===== src/Kernel/Paging.antt =====
-- The page tables (kernel/memory/paging.c): four levels of tables of 512 entries, and the mapping of
-- a virtual address to a physical one. A table is told by the address of its page.
pub mod Tree
pub mod Levels
pub mod Walk
pub mod Failure
pub mod Range
pub mod Shared
mod Tests
use tay_huang_os.Prelude.{
  ℕ, zero, suc, Bool, true, false, not, ltb, ◌==◌, if◌then◌else◌, ◌+◌, ◌-◌, ◌*◌, ◌/◌, ◌%◌, ◌^◌,
}
use tay_huang_os.Kernel.State.{null, update}
use tay_huang_os.Kernel.Pmm.{Areas, memunit_sz, alloc_pages}

-- PML4E, PDPTE, PDE and PTE; the last three flags are those that only a PTE has.
pub record Entry : Type 0 where
  pub p : Bool
  pub rw : Bool
  pub us : Bool
  pub pwt : Bool
  pub pcd : Bool
  pub a : Bool
  pub d : Bool
  pub pat : Bool
  pub g : Bool
  pub address : ℕ

abbrev pub no_entry : Entry
no_entry = record {
  p = false;
  rw = false;
  us = false;
  pwt = false;
  pcd = false;
  a = false;
  d = false;
  pat = false;
  g = false;
  address = 0;
}

-- The tables in memory, by address and index, and the free pages.
pub record Paging : Type 0 where
  pub tables : ℕ → ℕ → Entry
  pub free : Areas

abbrev pub set_entry : ℕ → ℕ → Entry → Paging → Paging
set_entry t i e s = record s { tables = update s.tables t (update (s.tables t) i e) }

-- The table that an entry leads to.
abbrev pub next_table : Paging → ℕ → ℕ → ℕ
next_table s t i = (s.tables t i).address * memunit_sz

-- `__get_free_page` and `create_pgd`: a page, with its bytes set to 0.
unfoldable pub get_free_page : Paging → ℕ × Paging
get_free_page s =
    let (page, free) = alloc_pages 0 s.free in
    (page, record { tables = update s.tables page (λ i. no_entry); free = free })

-- The part of `__set_mapping` that it has for each of the three upper levels: an entry that is not
-- present gets its flags, then a new table.
unfoldable pub ensure : Bool → Bool → ℕ → ℕ → Paging → Paging
ensure rw us t i s =
    let flags = record (s.tables t i) {
      p = true;
      rw = rw;
      us = us;
      pcd = false;
      pwt = false;
      a = false;
    } in
    let (page, s1) = get_free_page (set_entry t i flags s) in
    if (s.tables t i).p
    then s
    else set_entry t i (record (s1.tables t i) { address = page / memunit_sz }) s1

-- The last level.
unfoldable pub map_page : Bool → Bool → ℕ → ℕ → ℕ → Paging → Paging
map_page rw us t i paddr s =
    let e = s.tables t i in
    let flags = record e {
      p = true;
      rw = rw;
      us = us;
      pcd = false;
      pwt = false;
      a = false;
      d = false;
      pat = false;
      g = false;
    } in
    set_entry t i (record (if e.p then e else flags) { address = paddr / memunit_sz }) s

-- The index into a table of level 1 (PT) to 4 (PML4): nine bits of the address each.
abbrev pub index : ℕ → ℕ → ℕ
index level vaddr = vaddr / 2 ^ (3 + 9 * level) % 512

-- `__set_mapping` from the table `t` of a level on: the level above 1 makes sure of its entry and
-- goes on in the table that it leads to, unless that is NULL.
unfoldable pub set_level : ℕ → Bool → Bool → ℕ → ℕ → ℕ → Paging → Bool × Paging
set_level zero rw us t vaddr paddr s = (false, s)
set_level (suc zero) rw us t vaddr paddr s = (true, map_page rw us t (index 1 vaddr) paddr s)
set_level (suc (suc n)) rw us t vaddr paddr s =
    let s1 = ensure rw us t (index (suc (suc n)) vaddr) s in
    let t1 = next_table s1 t (index (suc (suc n)) vaddr) in
    let below = set_level (suc n) rw us t1 vaddr paddr s1 in
    if t1 == null then (false, s1) else below

unfoldable pub set_mapping1 : Bool → Bool → ℕ → ℕ → ℕ → Paging → Bool × Paging
set_mapping1 rw us pgd vaddr paddr s = set_level 4 rw us pgd vaddr paddr s

-- `addr + (i * MEMUNIT_SZ)`: the product is an `int`, which wraps from 2^19 pages on, and what is added
-- to the 64 bits of the address may be negative.
abbrev pub page_at : ℕ → ℕ → ℕ
page_at addr i =
    let offset = i * memunit_sz % 2 ^ 32 in
    if ltb offset (2 ^ 31) then addr + offset else (addr + (offset + (2 ^ 64 - 2 ^ 32))) % 2 ^ 64

-- The loop of `set_mapping`: `pages` pages from number `i` on, up to the first failure.
unfoldable pub map_pages : ℕ → ℕ → Bool → Bool → ℕ → ℕ → ℕ → Paging → Bool × Paging
map_pages zero i rw us pgd vaddr paddr s = (true, s)
map_pages (suc pages) i rw us pgd vaddr paddr s =
    let (done, s1) = set_mapping1 rw us pgd (page_at vaddr i) (page_at paddr i) s in
    let others = map_pages pages (i + 1) rw us pgd vaddr paddr s1 in
    if done then others else (false, s1)

unfoldable pub set_mapping : ℕ → ℕ → ℕ → ℕ → Bool → Bool → Paging → Bool × Paging
set_mapping pgd vaddr paddr pages rw us s =
    map_pages pages 0 rw us pgd (vaddr / memunit_sz * memunit_sz) paddr s

-- `get_physical_address` from the table `t` of a level on; an entry that is not present gives NULL.
unfoldable pub walk_level : ℕ → ℕ → ℕ → Paging → ℕ
walk_level zero t vaddr s = t + vaddr % memunit_sz
walk_level (suc n) t vaddr s =
    let below = walk_level n (next_table s t (index (suc n) vaddr)) vaddr s in
    if (s.tables t (index (suc n) vaddr)).p then below else null

unfoldable pub get_physical_address : Paging → ℕ → ℕ → ℕ
get_physical_address s pgd vaddr = walk_level 4 pgd vaddr s

-- The loop of `set_mappingvv`: `pages` pages from number `i` on, each to where the source's page leads
-- at that time; a page of the source that is not mapped leads to NULL.
unfoldable pub map_shared : ℕ → ℕ → Bool → Bool → ℕ → ℕ → ℕ → ℕ → Paging → Bool × Paging
map_shared zero i rw us src_pgd src_addr dst_pgd dst_addr s = (true, s)
map_shared (suc pages) i rw us src_pgd src_addr dst_pgd dst_addr s =
    let (done, s1) =
      set_mapping1 rw us dst_pgd (page_at dst_addr i)
        (get_physical_address s src_pgd (page_at src_addr i)) s in
    let others = map_shared pages (i + 1) rw us src_pgd src_addr dst_pgd dst_addr s1 in
    if done then others else (false, s1)

unfoldable pub set_mappingvv : ℕ → ℕ → ℕ → ℕ → ℕ → Bool → Bool → Paging → Bool × Paging
set_mappingvv src_pgd src_addr dst_pgd dst_addr pages rw us s =
    map_shared pages 0 rw us src_pgd (src_addr / memunit_sz * memunit_sz) dst_pgd
      (dst_addr / memunit_sz * memunit_sz) s
