-- ===== src/Kernel/Kheap.antt =====
-- The kernel's heap (kernel/memory/kheap.c): segments, each behind its header, in a list that is linked
-- both ways. A header is a struct in a store, which is a function of the address.
pub mod Blocks
pub mod Links
pub mod Free
pub mod Alloc
mod Tests
use tay_huang_os.Prelude.{
  ℕ, zero, suc, Bool, true, false, Option, none, some, List, [], ◌∷◌, not, ◌==◌, ltb, leb, ◌&&◌,
  ◌||◌, if◌then◌else◌, ◌+◌, ◌-◌, ◌*◌, ◌/◌, ◌%◌, ◌^◌,
}
use tay_huang_os.Kernel.State.{null, update}
use tay_huang_os.Kernel.Pmm.{Areas, max_order, area_size, add_free_area, alloc_free_pages}

-- `seg_info_struct`.
pub record SegInfo : Type 0 where
  pub size : ℕ
  pub used : Bool
  pub next : ℕ
  pub last : ℕ

abbrev pub Segs : Type 0
Segs = ℕ → SegInfo

-- `start_addr`, the headers, and the lists of the page allocator.
pub record Kheap : Type 0 where
  pub start_addr : ℕ
  pub seg : Segs
  pub free : Areas

-- `sizeof(seg_info_struct)`, which is packed, MIN_SEG_SIZE and ALLOC_PAGE_ORDER.
abbrev pub header_size : ℕ
header_size = 24

abbrev pub min_seg_size : ℕ
min_seg_size = 64

abbrev pub alloc_page_order : ℕ
alloc_page_order = 6

unfoldable pub init_kheap : ℕ → ℕ → Kheap → Kheap
init_kheap prepare_base prepare_size k = record k {
  start_addr = prepare_base;
  seg =
      update k.seg prepare_base
        (record { size = prepare_size; used = false; next = null; last = null });
}

-- `p->last = q`, where `p` is not NULL.
abbrev pub set_last : ℕ → ℕ → Segs → Segs
set_last p q m = if p == null then m else update m p (record (m p) { last = q })

-- The segment behind `a` in the list becomes a part of it.
unfoldable pub absorb : ℕ → Segs → Segs
absorb a m =
    let n = (m a).next in
    set_last (m n).next a
      (update m a (record (m a) { size = (m a).size + (m n).size; next = (m n).next }))

-- `a` and `b` are in the list, `b` behind `a`, and the one ends where the other begins.
abbrev pub is_adjacent : ℕ → ℕ → Segs → Bool
is_adjacent a b m = a + (m a).size == b

-- `do_combine`: with the next segment, then with the last one. The result is the segment that it is
-- part of afterwards.
unfoldable pub combine_next : ℕ → Segs → Segs
combine_next a m =
    if not ((m a).next == null) && not (m (m a).next).used && is_adjacent a (m a).next m
    then absorb a m
    else m

unfoldable pub combine_last : ℕ → Segs → ℕ × Segs
combine_last a m =
    if not ((m a).last == null) && not (m (m a).last).used && is_adjacent (m a).last a m
    then ((m a).last, absorb (m a).last m)
    else (a, m)

unfoldable pub do_combine : ℕ → Segs → ℕ × Segs
do_combine a m = combine_last a (combine_next a m)

-- `(size + (MIN_SEG_SIZE - 1)) & ~(MIN_SEG_SIZE - 1)`.
abbrev pub fix_size : ℕ → ℕ
fix_size size = (size + (min_seg_size - 1)) / min_seg_size * min_seg_size

abbrev pub no_fit : ℕ → SegInfo → Bool
no_fit fixed s = ltb s.size fixed || s.used

-- The first segment that fits, or the last of all; `none` when the fuel runs out.
unfoldable pub find_seg : ℕ → ℕ → ℕ → Segs → Option ℕ
find_seg zero fixed cur m = none
find_seg (suc fuel) fixed cur m =
    let rest = find_seg fuel fixed (m cur).next m in
    if no_fit fixed (m cur) && not ((m cur).next == null) then rest else some cur

-- The rest of the segment becomes a segment of its own if it is large enough.
unfoldable pub split : ℕ → ℕ → Segs → Segs
split fixed cur m =
    let new_seg = cur + fixed in
    let m1 =
      update m new_seg
        (record { size = (m cur).size - fixed; used = false; next = (m cur).next; last = cur }) in
    let m2 = set_last (m cur).next new_seg m1 in
    update m2 cur (record (m2 cur) { size = fixed; next = new_seg; used = true })

unfoldable pub take_seg : ℕ → ℕ → Segs → Segs
take_seg fixed cur m =
    if leb min_seg_size ((m cur).size - fixed)
    then split fixed cur m
    else update m cur (record (m cur) { used = true })

-- What `kmalloc` finds: an address behind a header, or that no segment fits, with the last one.
pub data Found : Type 0 where
  fits : (addr : ℕ) (m : Segs) → Found
  full : (last_seg : ℕ) → Found

unfoldable pub kmalloc_fit : ℕ → ℕ → ℕ → Segs → Option Found
kmalloc_fit fuel size start m =
    let fixed = fix_size (size + header_size) in
    elim (find_seg fuel fixed start m) [
      | none ↦ none
      | some cur ↦ some (
          if no_fit fixed (m cur)
          then full cur
          else fits (cur + header_size) (take_seg fixed cur m))
    ]

-- The new memory as a segment at the end of the list, combined with what it lies behind.
unfoldable pub link_memory : ℕ → ℕ → Segs → Segs
link_memory addr last_seg m =
    let m1 =
      update m addr (record {
        size = area_size alloc_page_order;
        used = false;
        next = null;
        last = last_seg;
      }) in
    (do_combine addr (update m1 last_seg (record (m1 last_seg) { next = addr }))).1

-- `sizeof(free_area_struct)`, what `add_free_area` asks for.
abbrev pub node_size : ℕ
node_size = 16

-- A node for the area, and the area at the end of its list; `none` where no segment is left for the
-- node, so that the request for memory would start another one.
abbrev pub return_area : ℕ → ℕ → ℕ → Kheap → Option Kheap
return_area fuel order address k = elim (kmalloc_fit fuel node_size k.start_addr k.seg) [
  | none ↦ none
  | some found ↦ elim found [
    | fits node m ↦ some (record k { seg = m; free = add_free_area order address k.free })
    | full last_seg ↦ none
  ]
]

-- The loop of `return_pages` with the nodes that it asks for. Of an area of at most 2^MAX_ORDER pages
-- it leaves no page to its second loop.
unfoldable pub return_rest : ℕ → ℕ → ℕ → ℕ → ℕ → Kheap → Option Kheap
return_rest zero fuel i pages start k = some k
return_rest (suc rounds) fuel i pages start k =
    let go = return_rest rounds fuel (i + 1) (pages / 2) in
    elim (pages % 2 == 1) [
      | true ↦ elim (return_area fuel i start k) [
        | none ↦ none
        | some k' ↦ go (start + area_size i) k'
      ]
      | false ↦ go start k
    ]

-- `kmalloc`: where no segment fits, memory is added and the call is made again, with the size that has
-- grown by the header. `none` stands for a write through NULL when no area is left, too.
unfoldable pub kmalloc : ℕ → ℕ → ℕ → Kheap → Option (ℕ × Kheap)
kmalloc zero fuel size k = none
kmalloc (suc calls) fuel size k =
    let again = kmalloc calls fuel (size + header_size) in
    elim (kmalloc_fit fuel size k.start_addr k.seg) [
      | none ↦ none
      | some found ↦ elim found [
        | fits addr m ↦ some (addr, record k { seg = m })
        | full last_seg ↦ elim (alloc_free_pages alloc_page_order k.free) [
          | none ↦ none
          | some (addr, order_give, free) ↦
              elim (return_rest max_order fuel 0 (2 ^ order_give - 2 ^ alloc_page_order)
                (addr + area_size alloc_page_order)
                (record k { seg = link_memory addr last_seg k.seg; free = free })) [
                  | none ↦ none
                  | some k' ↦ again k'
                ]
        ]
      ]
    ]

unfoldable pub kfree : ℕ → Segs → Segs
kfree ptr m =
    let a = ptr - header_size in (do_combine a (update m a (record (m a) { used = false }))).1
