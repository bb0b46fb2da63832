-- ===== src/Libs/Malloc/Alloc.antt =====
-- About malloc of libs/libkmod/memory/malloc.c: which chunk it gives, and what is left of it.
pub mod Given
pub mod Divide
pub mod Search
use mathlib.Core.List.{append_assoc}
use tay_huang_os.Prelude.{
  ℕ, zero, suc, Bool, true, false, not, some, List, [], ◌∷◌, ◌++◌, ◌+◌, ◌-◌, ◌<◌, ◌≤◌, ◌≡◌, ◌≢◌,
  refl, ap, ◌∙◌, subst, arith, Bool-cases, ◌==◌, ltb, leb, ◌&&◌, if◌then◌else◌, drop,
}
use tay_huang_os.Kernel.State.{update}
use tay_huang_os.Kernel.Ready.Chain.{update_self, update_ne}
use tay_huang_os.Libs.Malloc.{
  Chunk, Chunks, chunk_header, heapunit_sz, heapdiv_min_sz, no_size, init_heap, set_next,
  chunk_size, find_chunk, take_chunk, malloc,
}
use tay_huang_os.Libs.Malloc.Links.{
  Area, first_or, Linked, Ascends, Linked-append, Linked-update, Ascends-Fresh, Ascends-above,
  Ascends-weaken, Ascends-join, AllGapped-split, IsHeap, Around, IsHeap-Around,
}
use tay_huang_os.Libs.Malloc.Alloc.Search.{First, find_chunk_lem, small-all}
use tay_huang_os.Libs.Malloc.Alloc.Divide.{
  divided-Linked, whole-Linked, left_over, is_divided, in_place, given_size, take_chunk_lem,
}
use tay_huang_os.Libs.Malloc.Alloc.Given.{
  same-head, gap-behind, divided_store, whole_store, After, take_chunk-After,
}

-- The head of the list and the chunk behind it, as init_heap makes them.
abbrev pub first_head : ℕ → Area
first_head heap_start = record { addr = heap_start; size = no_size }

abbrev pub whole_heap : ℕ → ℕ → Area
whole_heap heap_start heap_end = record {
  addr = heap_start + chunk_header;
  size = heap_end - heap_start - chunk_header;
}

init_heap-IsHeap :
    (heap_start heap_end : ℕ) (m : Chunks)
    → 0 < heap_start
    → IsHeap
        (init_heap heap_start heap_end m)
        heap_start
        (first_head heap_start)
        (whole_heap heap_start heap_end ∷ [])
unfolding init_heap
init_heap-IsHeap heap_start heap_end m h =
    let w = heap_start + chunk_header in
    let v : Chunk = record { size = no_size; used = false; next = w } in
    let u : Chunk = record {
      size = heap_end - heap_start - chunk_header;
      used = false;
      next = 0;
    } in
    let ne : w ≢ heap_start = omega arith in
    let at = update_ne (update m heap_start v) w u heap_start ne ∙ update_self m heap_start v in
    let aw = update_self (update m heap_start v) w u in
    record {
      linked = (
        omega arith,
        ap Chunk.size at,
        ap Chunk.next at,
        (omega arith, ap Chunk.size aw, ap Chunk.next aw, tt),
      );
      begins = refl;
      ascends = (h, (omega arith, tt));
    }

-- The first request of a module that does not take the whole heap leaves a free chunk that ends a header
-- behind the end of the heap.
pub malloc-init_heap :
    (heap_start heap_end size : ℕ) (m : Chunks)
    → 0 < heap_start
    → 0 < size
    → heap_start + chunk_header + heapdiv_min_sz < heap_end
    → heap_start + chunk_header + chunk_size size + heapunit_sz ≤ heap_end
    → (m' : Chunks) × (free_chunk : Area) × (malloc 2 heap_start size
          (init_heap heap_start heap_end m)
        ≡ some (heap_start + chunk_header + chunk_header, m'))
      × Linked m' (first_head heap_start ∷ free_chunk ∷ []) 0
      × (free_chunk.addr + free_chunk.size ≡ heap_end + chunk_header)
unfolding malloc
malloc-init_heap heap_start heap_end size m h some_size large room =
    let fixed = chunk_size size in
    let m0 = init_heap heap_start heap_end m in
    let head = first_head heap_start in
    let c = whole_heap heap_start heap_end in
    let i = init_heap-IsHeap heap_start heap_end m h in
    let r = IsHeap-Around m0 heap_start head (c ∷ []) [] head c [] i refl in
    let s = take_chunk-After m0 fixed [] head c [] r tt in
    let big : ltb c.size fixed ≡ false = ground arith in
    let nz : (c.addr == 0) ≡ false = ground arith in
    let sz : (size == 0) ≡ false = ground arith in
    let found : find_chunk 2 fixed heap_start m0 ≡ some heap_start =
      find_chunk_lem m0 1 fixed head c.addr c.size r.next_l r.size_c ∙ rw (nz, big) refl in
    let parts : is_divided fixed c ≡ true = ground arith in
    (
      take_chunk fixed heap_start m0,
      left_over fixed c,
      rw (sz, found, malloc, r.next_l, nz) refl,
      subst
          (λ q.
            Linked (take_chunk fixed heap_start m0)
              (head ∷ ((if q then left_over fixed c ∷ [] else []) ++ [])) 0)
          parts s.links,
      omega arith,
    )
