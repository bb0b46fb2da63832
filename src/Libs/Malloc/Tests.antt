-- ===== src/Libs/Malloc/Tests.antt =====
-- Runs of malloc and free of libs/libkmod/memory/malloc.c, and their theorems on a small heap.
use tay_huang_os.Prelude.{true, false, none, some, [], ◌∷◌, ◌++◌, ◌+◌, ◌⊎◌, ◌≡◌, refl, arith}
use tay_huang_os.Kernel.State.{update}
use tay_huang_os.Libs.Malloc.{
  Chunks, chunk_header, no_size, find_chunk, take_chunk, malloc, find_place, join_next, link_in,
  free_chunk, free,
}
use tay_huang_os.Libs.Malloc.Links.{Area, Linked, Ascends, IsHeap}
use tay_huang_os.Libs.Malloc.Alloc.{first_head}
use tay_huang_os.Libs.Malloc.Free.{freed, free-Linked}
use tay_huang_os.Libs.Malloc.Free.Position.{AllBelow, Place}

abbrev no_chunks : Chunks
no_chunks a = record { size = 0; used = false; next = 0 }

-- The heap at 4096 with a free chunk of 64 bytes and one of 256.
abbrev small : Area
small = record { addr = 4112; size = 64 }

abbrev large : Area
large = record { addr = 4304; size = 256 }

abbrev two_chunks : Chunks
two_chunks =
    update
      (update (update no_chunks 4096 (record { size = no_size; used = false; next = 4112 })) 4112
        (record { size = 64; used = false; next = 4304 }))
      4304 (record { size = 256; used = false; next = 0 })

-- A request of 100 bytes takes the second chunk, and leaves 128 of it.
malloc_100 : (m : Chunks) × (malloc 3 4096 100 two_chunks ≡ some (4320, m)) × ((m 4448).size ≡ 128)
unfolding malloc find_chunk take_chunk
malloc_100 = (_, refl, refl)

-- A used chunk between the two, at the end of the first.
abbrev between : Area
between = record { addr = 4176; size = 48 }

abbrev three_chunks : Chunks
three_chunks = update two_chunks 4176 (record { size = 48; used = true; next = 0 })

three-IsHeap : IsHeap three_chunks 4096 (first_head 4096) (small ∷ large ∷ [])
three-IsHeap = record {
  linked = (omega arith, refl, refl, (omega arith, refl, refl, (omega arith, refl, refl, tt)));
  begins = refl;
  ascends = omega arith;
}

free_between :
    (m : Chunks) × (free 4 4096 4192 three_chunks ≡ some (some m)) × ((m 4112).size ≡ 112)
unfolding free free_chunk find_place link_in join_next
free_between = (_, refl, refl)

free-Linked_example :
    (AllBelow 4176 (small ∷ large ∷ [])
      × (free 4 4096 (4176 + chunk_header) three_chunks ≡ some none))
    ⊎ ((p : Place 4176 (first_head 4096) (small ∷ large ∷ [])) × (m' : Chunks) × (free 4 4096
            (4176 + chunk_header)
            three_chunks
          ≡ some (some m'))
        × Linked m' (p.pre ++ freed p.before between (p.after ∷ p.post)) 0
        × Ascends 0 (p.pre ++ freed p.before between (p.after ∷ p.post)))
free-Linked_example =
    free-Linked three_chunks 4 4096 (first_head 4096) (small ∷ large ∷ []) between three-IsHeap
      (omega arith) refl (omega arith) (omega arith)
