-- ===== src/Kernel/Pmm/Virtual.antt =====
-- Memory by virtual addresses (the second half of kernel/memory/pmm.c): pages for an address space, and
-- the setting and copying of bytes. `pa` is get_physical_address for the page tables at hand.
pub mod Copied
pub mod Block
pub mod Given
use tay_huang_os.Prelude.{ℕ, zero, suc, true, ◌+◌, ◌^◌, ◌%◌, if◌then◌else◌}
use tay_huang_os.Prelude.Int.{ℤ, pos}
use tay_huang_os.Kernel.State.{update}
use tay_huang_os.Kernel.Pmm.{max_order, area_size, is_odd, half, rounds_of, alloc_pages}
use tay_huang_os.Kernel.Paging.{Paging, set_mapping}

-- One block of `alloc_vpages`; whether it could be mapped is not looked at.
unfoldable pub alloc_block : ℕ → ℕ → ℕ → Paging → Paging
alloc_block order pgd vaddr s =
    let (page, free) = alloc_pages order s.free in
    (set_mapping pgd vaddr page (2 ^ order) true true (record s { free = free })).1

-- The two loops of `alloc_vpages`, as those of `return_pages`.
unfoldable pub alloc_whole : ℕ → ℕ → ℕ → Paging → Paging
alloc_whole zero pgd vaddr s = s
alloc_whole (suc n) pgd vaddr s =
    alloc_whole n pgd (vaddr + area_size max_order) (alloc_block max_order pgd vaddr s)

unfoldable pub alloc_bits : ℕ → ℕ → ℤ → ℕ → ℕ → Paging → Paging
alloc_bits zero i pages pgd vaddr s = alloc_whole (rounds_of pages) pgd vaddr s
alloc_bits (suc rounds) i pages pgd vaddr s =
    alloc_bits rounds (i + 1) (half pages) pgd (if is_odd pages then vaddr + area_size i else vaddr)
      (if is_odd pages then alloc_block i pgd vaddr s else s)

unfoldable pub alloc_vpages : ℕ → ℕ → ℤ → Paging → Paging
alloc_vpages pgd addr pages s = alloc_bits max_order 0 pages pgd addr s

-- The loop that the three copies share: byte by byte, each address by itself.
unfoldable pub copy_bytes : ℕ → (ℕ → ℕ) → ℕ → (ℕ → ℕ) → ℕ → (ℕ → ℕ) → ℕ → ℕ
copy_bytes zero to dst from src mem = mem
copy_bytes (suc size) to dst from src mem =
    copy_bytes size to (dst + 1) from (src + 1) (update mem (to dst) (mem (from src)))

module _ (pa : ℕ → ℕ → ℕ) where
  unfoldable pub vmemset : ℕ → ℕ → ℕ → ℕ → (ℕ → ℕ) → ℕ → ℕ
  vmemset pgd addr val zero mem = mem
  vmemset pgd addr val (suc size) mem =
      vmemset pgd (addr + 1) val size (update mem (pa pgd addr) (val % 256))

  unfoldable pub vpmemcpy : ℕ → ℕ → ℕ → ℕ → (ℕ → ℕ) → ℕ → ℕ
  vpmemcpy dst src_pgd src size mem = copy_bytes size (λ a. a) dst (pa src_pgd) src mem

  unfoldable pub pvmemcpy : ℕ → ℕ → ℕ → ℕ → (ℕ → ℕ) → ℕ → ℕ
  pvmemcpy dst_pgd dst src size mem = copy_bytes size (pa dst_pgd) dst (λ a. a) src mem

  unfoldable pub vvmemcpy : ℕ → ℕ → ℕ → ℕ → ℕ → (ℕ → ℕ) → ℕ → ℕ
  vvmemcpy dst_pgd dst src_pgd src size mem = copy_bytes size (pa dst_pgd) dst (pa src_pgd) src mem
