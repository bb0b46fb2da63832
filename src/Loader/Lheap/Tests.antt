-- ===== src/Loader/Lheap/Tests.antt =====
-- Runs of the loader's heap.
use tay_huang_os.Prelude.{ℕ, some, [], ◌∷◌, ◌≡◌, ◌≤◌, ◌<◌, ◌⊎◌, refl, arith, inl, inr}
use tay_huang_os.Loader.Lheap.{
  Lheap, unused, get_segment_size, lookup_free_mem, insert_lh_seg, lmalloc,
}
use tay_huang_os.Loader.Lheap.Search.{ApartFrom}
use tay_huang_os.Loader.Lheap.Blocks.{IsHeap, block, lmalloc-IsHeap}

-- Eight bytes are taken at the bottom.
abbrev small : Lheap
small = record { segments = block 100 8 ∷ unused ∷ unused ∷ []; bottom = 100; top = 200 }

small-IsHeap : IsHeap small
small-IsHeap = record {
  bottom_positive = omega arith;
  segs = (inr (omega arith, omega arith), (inl (refl, refl), (inl (refl, refl), tt)));
  apart = ((inr (inl refl), (inr (inl refl), tt)), ((inl refl, tt), (tt, tt)));
}

lmalloc-IsHeap_example :
    (mem : ℕ) × (h' : Lheap) × (lmalloc 101 16 small ≡ some (mem, h'))
    × IsHeap h'
    × (((mem ≡ 0) × (h' ≡ small))
        ⊎ ((100 ≤ mem)
            × (mem < 200)
            × ApartFrom (block mem 16) small.segments
            × (insert_lh_seg (block mem 16) small.segments ≡ some h'.segments)))
lmalloc-IsHeap_example =
    lmalloc-IsHeap 101 16 small small-IsHeap (omega arith) (omega arith) (omega arith)

next_block : lookup_free_mem 101 small 16 100 ≡ some 108
unfolding lookup_free_mem get_segment_size
next_block = refl

-- A block of one byte is not seen by the search, which gives its address again.
one_byte_twice :
    lookup_free_mem 101 (record small { segments = block 100 1 ∷ unused ∷ [] }) 1 100 ≡ some 100
unfolding lookup_free_mem get_segment_size
one_byte_twice = refl
