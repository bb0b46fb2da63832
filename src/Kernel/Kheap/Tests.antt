-- ===== src/Kernel/Kheap/Tests.antt =====
-- Runs of the heap of kernel/memory/kheap.c, and its theorems on a small heap.
use tay_huang_os.Prelude.{true, false, some, List, [], ◌∷◌, ◌+◌, ◌≡◌, refl, arith}
use tay_huang_os.Kernel.State.{update}
use tay_huang_os.Kernel.Kheap.{
  Segs, Kheap, header_size, init_kheap, Found, kmalloc_fit, kmalloc, kfree, find_seg, take_seg,
  split, do_combine, combine_next, combine_last, absorb,
}
use tay_huang_os.Kernel.Kheap.Blocks.{Block, total_size, used_blocks}
use tay_huang_os.Kernel.Kheap.Free.{kfree-IsKheap}
use tay_huang_os.Kernel.Kheap.Free.Absorb.{IsKheap}
use tay_huang_os.Kernel.Kheap.Alloc.{Finds, kmalloc_fit-Finds}

abbrev no_segs : Segs
no_segs a = record { size = 0; used = false; next = 0; last = 0 }

abbrev fresh : Kheap
fresh = record { start_addr = 0; seg = no_segs; free = λ i. [] }

-- Two requests, and the first of them freed: the second request starts behind the first, and the freed
-- segment is given again.
abbrev kib : Kheap
unfolding init_kheap
kib = init_kheap 4096 1024 fresh

first_request : (k : Kheap) × (kmalloc 1 9 100 kib ≡ some (4120, k)) × ((k.seg 4224).size ≡ 896)
unfolding kmalloc kmalloc_fit find_seg take_seg split kib
first_request = (_, refl, refl)

-- A used segment of 128 bytes, a free one of 64, a used one of 832.
abbrev low : Block
low = record { addr = 4096; size = 128; used = true }

abbrev mid : Block
mid = record { addr = 4224; size = 64; used = false }

abbrev high : Block
high = record { addr = 4288; size = 832; used = true }

abbrev three_segs : Segs
three_segs =
    update
      (update (update no_segs 4096 (record { size = 128; used = true; next = 4224; last = 0 })) 4224
        (record { size = 64; used = false; next = 4288; last = 4096 }))
      4288 (record { size = 832; used = true; next = 0; last = 4224 })

three-IsKheap : IsKheap three_segs 4096 (low ∷ mid ∷ high ∷ [])
three-IsKheap = record {
  linked = (omega arith, refl, (omega arith, refl, (omega arith, refl, tt)));
  begins = refl;
  sized = omega arith;
  apart = omega arith;
}

-- Freeing the last segment joins it with the free one before it.
kfree_high : ((kfree 4312 three_segs) 4224).size ≡ 896
unfolding kfree do_combine combine_next combine_last absorb
kfree_high = refl

kfree-IsKheap_example :
    (ys : List Block) × IsKheap (kfree (4288 + header_size) three_segs) 4096 ys
    × (used_blocks ys ≡ low ∷ [])
    × (total_size ys ≡ 1024)
kfree-IsKheap_example = kfree-IsKheap three_segs 4096 (low ∷ mid ∷ []) high [] three-IsKheap

kmalloc_fit-Finds_example :
    (found : Found) × (kmalloc_fit 9 40 4096 three_segs ≡ some found)
    × Finds three_segs 4096 40 (low ∷ mid ∷ high ∷ []) found
kmalloc_fit-Finds_example =
    kmalloc_fit-Finds three_segs 9 40 4096 low (mid ∷ high ∷ []) three-IsKheap (omega arith)
