-- ===== src/Libs/Malloc.antt =====
-- The heap of a module (libs/libkmod/memory/malloc.c): chunks behind their headers, the free ones in a
-- list by address. A header is a struct in a store, which is a function of the address. Sizes that are
-- asked for are not negative.
pub mod Links
pub mod Alloc
pub mod Free
mod Tests
use tay_huang_os.Prelude.{
  ℕ, zero, suc, Bool, true, false, Option, none, some, not, ◌==◌, ltb, leb, ◌&&◌, if◌then◌else◌,
  ◌+◌, ◌-◌, ◌*◌, ◌/◌, ◌^◌,
}
use tay_huang_os.Kernel.State.{null, update}

-- `chunk_struct`.
pub record Chunk : Type 0 where
  pub size : ℕ
  pub used : Bool
  pub next : ℕ

abbrev pub Chunks : Type 0
Chunks = ℕ → Chunk

-- `sizeof(chunk_struct)`, HEAPUNIT_SZ and HEAPDIV_MIN_SZ.
abbrev pub chunk_header : ℕ
chunk_header = 16

abbrev pub heapunit_sz : ℕ
heapunit_sz = 16

abbrev pub heapdiv_min_sz : ℕ
heapdiv_min_sz = 128

-- -1 in the 63 bits of the field.
abbrev pub no_size : ℕ
no_size = 2 ^ 63 - 1

-- The head of the list at the start of the heap, and one free chunk behind it.
unfoldable pub init_heap : ℕ → ℕ → Chunks → Chunks
init_heap heap_start heap_end m =
    let whole_heap = heap_start + chunk_header in
    update (update m heap_start (record { size = no_size; used = false; next = whole_heap }))
      whole_heap (record { size = heap_end - heap_start - chunk_header; used = false; next = null })

-- `p->next = q`.
abbrev pub set_next : ℕ → ℕ → Chunks → Chunks
set_next p q m = update m p (record (m p) { next = q })

-- `(size + sizeof(chunk_struct) + (HEAPUNIT_SZ - 1)) & ~(HEAPUNIT_SZ - 1)`.
abbrev pub chunk_size : ℕ → ℕ
chunk_size size = (size + chunk_header + (heapunit_sz - 1)) / heapunit_sz * heapunit_sz

-- The loop of `malloc`: the chunk before the first one that fits, whose place is its `next`, or NULL
-- behind the last chunk. `none` when the fuel runs out.
unfoldable pub find_chunk : ℕ → ℕ → ℕ → Chunks → Option ℕ
find_chunk zero fixed last m = none
find_chunk (suc fuel) fixed last m =
    let current = (m last).next in
    let others = find_chunk fuel fixed current m in
    if not (current == null) && ltb (m current).size fixed then others else some last

-- The chunk behind `last` leaves the list, and what is left over of it takes its place.
unfoldable pub take_chunk : ℕ → ℕ → Chunks → Chunks
take_chunk fixed last m =
    let current = (m last).next in
    let remain_size = (m current).size - fixed in
    let new_free_chunk = current + chunk_header + fixed in
    let divided =
      update
        (set_next last new_free_chunk (
          update m new_free_chunk
            (record { size = remain_size; used = false; next = (m current).next })))
        current (record { size = fixed; used = true; next = null }) in
    let whole =
      update (set_next last (m current).next m) current
        (record { size = (m current).size; used = true; next = null }) in
    if ltb heapdiv_min_sz (m current).size && leb heapunit_sz remain_size then divided else whole

-- `malloc` on the heap at `heap`: the address behind the header, or NULL.
unfoldable pub malloc : ℕ → ℕ → ℕ → Chunks → Option (ℕ × Chunks)
malloc fuel heap size m =
    let fixed = chunk_size size in
    let taken : Option (ℕ × Chunks) = elim (find_chunk fuel fixed heap m) [
      | none ↦ none
      | some last ↦ some (
          if (m last).next == null
          then (null, m)
          else ((m last).next + chunk_header, take_chunk fixed last m))
    ] in
    if size == 0 then some (null, m) else taken

-- The loop of `free`: the chunk after which the freed one belongs, or NULL.
unfoldable pub find_place : ℕ → ℕ → ℕ → Chunks → Option ℕ
find_place zero current last m = none
find_place (suc fuel) current last m =
    let others = find_place fuel current (m last).next m in
    if not (last == null) && not (ltb last current && ltb current (m last).next)
    then others
    else some last

-- `a` takes in the chunk behind it in the list if that begins where `a` ends.
unfoldable pub join_next : ℕ → Chunks → Chunks
join_next a m =
    let n = (m a).next in
    if a + (m a).size == n
    then update m a (record (m a) { size = (m a).size + (m n).size; next = (m n).next })
    else m

-- The chunk goes into the list behind `last`, and is joined with the one before it and the one behind.
unfoldable pub link_in : ℕ → ℕ → Chunks → Chunks
link_in current last m =
    join_next last (join_next last (set_next last current (set_next current (m last).next m)))

-- `free` at the header; `some none` is a read through NULL.
unfoldable pub free_chunk : ℕ → ℕ → ℕ → Chunks → Option (Option Chunks)
free_chunk fuel heap current m = elim (find_place fuel current heap m) [
  | none ↦ none
  | some last ↦ some (if last == null then none else some (link_in current last m))
]

unfoldable pub free : ℕ → ℕ → ℕ → Chunks → Option (Option Chunks)
unfolding free_chunk
free fuel heap addr m = free_chunk fuel heap (addr - chunk_header) m
