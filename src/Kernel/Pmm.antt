-- ===== src/Kernel/Pmm.antt =====
-- The physical page allocator (kernel/memory/pmm.c): for each order a queue of free areas of
-- `2 ^ order` pages. The nodes of a queue come from `kmalloc` and are seen by nothing else, so a
-- queue is the list of the areas' addresses, its head first. `kmalloc` is taken to have room for a node
-- without new pages: that it may take areas from these queues itself, or fail, is not modelled here.
pub mod Cover
pub mod Alloc
pub mod Faults
pub mod Aligned
pub mod Virtual
mod Tests
use tay_huang_os.Prelude.{
  ℕ, zero, suc, Bool, true, false, Option, none, some, List, [], ◌∷◌, ◌++◌, ◌==◌, if◌then◌else◌,
  ◌+◌, ◌-◌, ◌*◌, ◌/◌, ◌%◌, ◌^◌,
}
use tay_huang_os.Prelude.Int.{ℤ, pos, negsuc, ◌-ℤ◌}
use tay_huang_os.Kernel.State.{update}

-- MEMUNIT_SZ and MAX_ORDER.
abbrev pub memunit_sz : ℕ
memunit_sz = 4096

abbrev pub max_order : ℕ
max_order = 9

-- `list_head` and `list_tail`.
abbrev pub Areas : Type 0
Areas = ℕ → List ℕ

-- The new area goes to the tail of its list.
unfoldable pub add_free_area : ℕ → ℕ → Areas → Areas
add_free_area order address free = update free order (free order ++ (address ∷ []))

-- MEMUNIT_SZ << order.
abbrev pub area_size : ℕ → ℕ
area_size order = memunit_sz * 2 ^ order

-- `pages & 1` and `pages >> 1` of an `int`.
abbrev pub is_odd : ℤ → Bool
is_odd (pos n) = n % 2 == 1
is_odd (negsuc n) = n % 2 == 0

abbrev pub half : ℤ → ℤ
half (pos n) = pos (n / 2)
half (negsuc n) = negsuc (n / 2)

-- The two loops of `return_pages`: `rounds` orders from `i` on, by the bits of `pages`, then the
-- areas of the greatest order.
unfoldable pub return_whole : ℕ → ℕ → Areas → Areas
return_whole zero start free = free
return_whole (suc n) start free =
    return_whole n (start + area_size max_order) (add_free_area max_order start free)

-- How often `for (int i = 0 ; i < pages ; i ++)` runs.
abbrev pub rounds_of : ℤ → ℕ
rounds_of (pos n) = n
rounds_of (negsuc n) = 0

unfoldable pub return_bits : ℕ → ℕ → ℤ → ℕ → Areas → Areas
return_bits zero i pages start free = return_whole (rounds_of pages) start free
return_bits (suc rounds) i pages start free =
    return_bits rounds (i + 1) (half pages) (if is_odd pages then start + area_size i else start)
      (if is_odd pages then add_free_area i start free else free)

unfoldable pub return_pages : ℕ → ℤ → Areas → Areas
return_pages addr pages free = return_bits max_order 0 pages addr free

-- `__alloc_free_pages`: the first area of the first list from `order` on that is not empty, with its
-- order. `rounds` are the lists left to look at.
abbrev pub take_area : ℕ → List ℕ → Areas → Option (ℕ × ℕ × Areas) → Option (ℕ × ℕ × Areas)
take_area i [] free others = others
take_area i (a ∷ rest) free others = some (a, i, update free i rest)

unfoldable pub alloc_from : ℕ → ℕ → Areas → Option (ℕ × ℕ × Areas)
alloc_from zero i free = none
alloc_from (suc rounds) i free =
    let others = alloc_from rounds (i + 1) free in take_area i (free i) free others

unfoldable pub alloc_free_pages : ℕ → Areas → Option (ℕ × ℕ × Areas)
alloc_free_pages order free = alloc_from (max_order + 1 - order) order free

-- The part of the area behind the pages that were asked for goes back. Where no area was found, the
-- address is NULL and `order_give` is still 0.
unfoldable pub alloc_pages : ℕ → Areas → ℕ × Areas
alloc_pages order free = elim (alloc_free_pages order free) [
  | none ↦ (0, return_pages (area_size order) (pos 1 -ℤ pos (2 ^ order)) free)
  | some (addr, give, free1) ↦
      (addr, return_pages (addr + area_size order) (pos (2 ^ give) -ℤ pos (2 ^ order)) free1)
]

-- (n + (MEMUNIT_SZ - 1)) & ~(MEMUNIT_SZ - 1), over MEMUNIT_SZ.
abbrev pub pages_of : ℕ → ℕ
pages_of n = (n + (memunit_sz - 1)) / memunit_sz

-- The loops of `init_pmm`; the first moves `start` by MEMUNIT_SZ << 1 for each area.
unfoldable pub init_bits : ℕ → ℕ → ℕ → ℕ → Areas → Areas
init_bits zero i pages start free = return_whole pages start free
init_bits (suc rounds) i pages start free =
    init_bits rounds (i + 1) (pages / 2) (if pages % 2 == 1 then start + memunit_sz * 2 else start)
      (if pages % 2 == 1 then add_free_area i start free else free)

abbrev pub no_areas : Areas
no_areas order = []

-- Called with `reserved_limit` at most `memsize`; the lists are empty before.
unfoldable pub init_pmm : ℕ → ℕ → Areas
init_pmm memsize reserved_limit =
    init_bits max_order 0 (pages_of memsize - pages_of reserved_limit) reserved_limit no_areas
