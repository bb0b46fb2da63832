-- ===== src/Loader/Lheap.antt =====
-- The loader's heap (loader/grub_loader/lheap.c): a table of segments, each with the addresses of its
-- first and of its last byte. Sizes are positive.
pub mod Search
pub mod Blocks
mod Tests
use tay_huang_os.Prelude.{
  ℕ, zero, suc, Bool, true, false, Option, none, some, List, [], ◌∷◌, ◌==◌, ◌&&◌, ltb,
  if◌then◌else◌, ◌+◌, ◌-◌, ◌*◌, min, max, replicate,
}
use tay_huang_os.Kernel.State.{null}

-- `lh_seg`; `size` is the address of the last byte. Both are NULL in an entry that is not used.
pub record LhSeg : Type 0 where
  pub start : ℕ
  pub size : ℕ

-- `LHEAP_SEGMENTS`, `LHEAP_BOTTOM` and `LHEAP_TOP`.
pub record Lheap : Type 0 where
  pub segments : List LhSeg
  pub bottom : ℕ
  pub top : ℕ

abbrev pub unused : LhSeg
unused = record { start = null; size = null }

abbrev pub lh_seg_num : ℕ
lh_seg_num = 8192

abbrev pub lheap_base : ℕ
lheap_base = 35651584

-- `init_lheap` with `lheap_size` bytes, of which the table takes the last ones, eight for each entry.
unfoldable pub init_lheap : ℕ → Lheap
init_lheap lheap_size = record {
  segments = replicate lh_seg_num unused;
  bottom = lheap_base;
  top = lheap_base + lheap_size - 8 * lh_seg_num;
}

-- `__get_segment_size`: the last byte of a segment that meets the range, or NULL.
unfoldable pub get_segment_size : List LhSeg → ℕ → ℕ → ℕ
get_segment_size [] base size = null
get_segment_size (s ∷ ss) base size =
    let rest = get_segment_size ss base size in
    if ltb (max s.start base) (min s.size (base + size)) then s.size else rest

-- `__lookup_free_mem` from `i` on; `none` when the fuel runs out.
unfoldable pub lookup_free_mem : ℕ → Lheap → ℕ → ℕ → Option ℕ
lookup_free_mem zero h size i = none
lookup_free_mem (suc fuel) h size i =
    let sz = get_segment_size h.segments i size in
    let rest = lookup_free_mem fuel h size (sz + 1) in
    if ltb i h.top then if sz == null then some i else rest else some null

abbrev pub is_unused : LhSeg → Bool
is_unused s = (s.start == null) && (s.size == null)

-- `__insert_lh_seg`, with `__lookup_free_lh_seg`: into the first entry that is not used; `none` is the
-- answer false.
unfoldable pub insert_lh_seg : LhSeg → List LhSeg → Option (List LhSeg)
insert_lh_seg new [] = none
insert_lh_seg new (s ∷ ss) =
    let rest = insert_lh_seg new ss in
    if is_unused s then some (new ∷ ss) else elim rest [ none ↦ none | some ss' ↦ some (s ∷ ss') ]

-- `__delete_lh_seg`: the first entry that starts there.
unfoldable pub delete_lh_seg : ℕ → List LhSeg → List LhSeg
delete_lh_seg start [] = []
delete_lh_seg start (s ∷ ss) =
    let rest = delete_lh_seg start ss in if s.start == start then unused ∷ ss else s ∷ rest

-- `lmalloc`: the address or NULL, and the heap.
unfoldable pub lmalloc : ℕ → ℕ → Lheap → Option (ℕ × Lheap)
lmalloc fuel size h = elim (lookup_free_mem fuel h size h.bottom) [
  | none ↦ none
  | some mem ↦
      if mem == null
      then some (null, h)
      else elim (insert_lh_seg (record { start = mem; size = mem + size - 1 }) h.segments) [
        | none ↦ some (null, h)
        | some segments ↦ some (mem, record h { segments = segments })
      ]
]

unfoldable pub lfree : ℕ → Lheap → Lheap
lfree ptr h = record h { segments = delete_lh_seg ptr h.segments }
