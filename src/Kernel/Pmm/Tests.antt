-- ===== src/Kernel/Pmm/Tests.antt =====
-- Runs of the page allocator of kernel/memory/pmm.c.
use tay_huang_os.Prelude.{◌≡◌, ◌+◌, [], ◌∷◌, arith, ◌==◌, if◌then◌else◌}
use tay_huang_os.Prelude.Int.{pos}
use tay_huang_os.Kernel.Pmm.{Areas, area_size, return_pages, alloc_pages}
use tay_huang_os.Kernel.Pmm.Cover.{within, cover, cover-return_pages}
use tay_huang_os.Kernel.Pmm.Alloc.{cover-alloc_pages}

-- One area of eight pages.
abbrev eight : Areas
eight order = if order == 3 then 32768 ∷ [] else []

-- Three pages at 8192.
cover-return_pages_example :
    cover (return_pages 8192 (pos 3) eight) 16384 ≡ cover eight 16384 + within 8192 20480 16384
cover-return_pages_example = cover-return_pages 3 8192 eight 16384

cover-alloc_pages_example :
    let (addr, free') = alloc_pages 1 eight in
    cover free' 40000 + within addr (addr + area_size 1) 40000 ≡ cover eight 40000
cover-alloc_pages_example = cover-alloc_pages 1 3 eight (omega arith) (omega arith) (λ e. cc) 40000
