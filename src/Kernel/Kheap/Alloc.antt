-- ===== src/Kernel/Kheap/Alloc.antt =====
-- About kmalloc of kernel/memory/kheap.c: the search for a segment, its splitting, and memory that is
-- added to the list.
pub mod Link
pub mod Split
pub mod Find
use mathlib.Core.List.{append_assoc, append-nil}
use tay_huang_os.Prelude.{
  ℕ, zero, suc, Bool, true, false, not, some, List, [], ◌∷◌, ◌++◌, ◌+◌, ◌-◌, ◌≤◌, ◌<◌, ◌≡◌, ◌≢◌,
  ◌⊎◌, refl, sym, ap, ◌∙◌, subst, arith, Bool-cases, inl, inr, ◌==◌, ltb, leb, ◌&&◌, ◌||◌,
  if◌then◌else◌, length,
}
use tay_huang_os.Kernel.State.{update}
use tay_huang_os.Kernel.Ready.Chain.{update_self, update_ne}
use tay_huang_os.Kernel.Kheap.{
  SegInfo, Segs, header_size, min_seg_size, alloc_page_order, set_last, fix_size, no_fit, find_seg,
  split, take_seg, Found, fits, full, kmalloc_fit, link_memory, Kheap, kmalloc,
}
use tay_huang_os.Kernel.Pmm.{area_size}
use tay_huang_os.Kernel.Kheap.Blocks.{
  Block, Clear, Clear-split, Between-sym, AllApart-split, AllSized-append, AllSized-split, Within,
  AllApart-append, Between-cons, Between-nil, AllApart-replace, total_size, used_blocks,
  total_size-append, used_blocks-append, Fresh, Clear-Fresh,
}
use tay_huang_os.Kernel.Kheap.Links.{
  first_or, end_or, info, Linked, Linked-append, Linked-update, Linked-set_last, set_last_ne,
  Linked-set_last_outside,
}
use tay_huang_os.Kernel.Kheap.Free.{do_combine-Kept, snoc-cases}
use tay_huang_os.Kernel.Kheap.Free.Next.{flagged, rewritten}
use tay_huang_os.Kernel.Kheap.Free.Absorb.{IsKheap, Around, IsKheap-Around, first_or-append}
use tay_huang_os.Kernel.Kheap.Alloc.Find.{no_room, AllNoRoom, Search, find_seg_lem, find_seg-Search}
use tay_huang_os.Kernel.Kheap.Alloc.Split.{
  front, rest, split_lem, split-Within, Taken, split-Taken, take_seg-Taken,
}
use tay_huang_os.Kernel.Kheap.Alloc.Link.{end_or-append, link-IsKheap, link_memory-IsKheap}

-- Each segment that is looked at is too small or used, up to one with room, which gives the address
-- behind its header; from then on the block is used, is as large as asked for, and the other used
-- blocks are as before.
pub record IsGiven (m m' : Segs) (start size addr : ℕ) (xs : List Block) : Type 0 where
  pub pre : List Block
  pub taken_from : Block
  pub post : List Block
  pub block : Block
  pub blocks : List Block
  pub parts : xs ≡ pre ++ (taken_from ∷ post)
  pub none_before : AllNoRoom (fix_size (size + header_size)) pre
  pub was_free : taken_from.used ≡ false
  pub heap : IsKheap m' start blocks
  pub used_more : used_blocks blocks ≡ used_blocks pre ++ (block ∷ used_blocks post)
  pub place : addr ≡ block.addr + header_size
  pub enough : size + header_size ≤ block.size
  pub total_same : total_size blocks ≡ total_size xs

-- What kmalloc finds in a heap.
abbrev pub Finds : Segs → ℕ → ℕ → List Block → Found → Type 0
Finds m start size xs (fits addr m') = IsGiven m m' start size addr xs
Finds m start size xs (full last_seg) =
    AllNoRoom (fix_size (size + header_size)) xs × (last_seg ≡ end_or 0 xs)

AllNoRoom-append :
    (fixed : ℕ) (xs : List Block) (y : Block)
    → AllNoRoom fixed xs
    → no_room fixed y ≡ true
    → AllNoRoom fixed (xs ++ (y ∷ []))
AllNoRoom-append fixed [] y a h = (h, tt)
AllNoRoom-append fixed (x ∷ xs) y (b, a) h = (b, AllNoRoom-append fixed xs y a h)

kmalloc_fit_lem :
    (m : Segs) (fuel size start cur : ℕ) (c : Bool)
    → find_seg fuel (fix_size (size + header_size)) start m ≡ some cur
    → no_fit (fix_size (size + header_size)) (m cur) ≡ c
    → kmalloc_fit fuel size start m
      ≡ some (
          if c
          then full cur
          else fits (cur + header_size) (take_seg (fix_size (size + header_size)) cur m))
unfolding kmalloc_fit
kmalloc_fit_lem m fuel size start cur c e n = rw (e, kmalloc_fit, n) refl

-- In a heap with segments, and with fuel for each of them, the search ends: kmalloc finds a segment with
-- room, the first in the list, or that there is none.
pub kmalloc_fit-Finds :
    (m : Segs) (fuel size start : ℕ) (x : Block) (xs : List Block)
    → IsKheap m start (x ∷ xs)
    → length xs < fuel
    → (found : Found) × (kmalloc_fit fuel size start m ≡ some found)
      × Finds m start size (x ∷ xs) found
kmalloc_fit-Finds m fuel size start x xs k h =
    let fixed = fix_size (size + header_size) in
    let s = find_seg-Search m fuel fixed 0 x xs k.linked h in
    let at : find_seg fuel fixed start m ≡ some s.at.addr =
      ap (λ a. find_seg fuel fixed a m) k.begins ∙ s.result in
    let k' : IsKheap m start (s.pre ++ (s.at ∷ s.post)) = subst (IsKheap m start) s.parts k in
    let r = IsKheap-Around m start s.pre s.at s.post k' in
    elim s.outcome [
      | inl room ↦
          let t = take_seg-Taken m start fixed s.pre s.at s.post k' (omega arith) room in
          (
            fits (s.at.addr + header_size) (take_seg fixed s.at.addr m),
            kmalloc_fit_lem m fuel size start s.at.addr false at
                (ap (no_fit fixed) r.header ∙ room),
            record {
              pre = s.pre;
              taken_from = s.at;
              post = s.post;
              block = t.block;
              blocks = t.blocks;
              parts = s.parts;
              none_before = s.none_before;
              was_free = ground arith;
              heap = t.heap;
              used_more = t.used_more;
              place = omega (arith, t.place);
              enough = omega (arith, t.enough);
              total_same = t.total_same ∙ sym (ap total_size s.parts);
            },
          )
      | inr (full_up, last) ↦
          let e : x ∷ xs ≡ s.pre ++ (s.at ∷ []) = s.parts ∙ ap (λ l. s.pre ++ (s.at ∷ l)) last in
          (
            full s.at.addr,
            kmalloc_fit_lem m fuel size start s.at.addr true at
                (ap (no_fit fixed) r.header ∙ full_up),
            (
              subst (AllNoRoom fixed) (sym e)
                  (AllNoRoom-append fixed s.pre s.at s.none_before full_up),
              sym (end_or-append 0 s.pre s.at) ∙ ap (end_or 0) (sym e),
            ),
          )
    ]

-- As long as a segment has room, kmalloc returns at once, with the address that the search finds.
kmalloc-fits :
    (calls fuel size addr : ℕ) (k : Kheap) (m : Segs)
    → kmalloc_fit fuel size k.start_addr k.seg ≡ some (fits addr m)
    → kmalloc (suc calls) fuel size k ≡ some (addr, record k { seg = m })
unfolding kmalloc
kmalloc-fits calls fuel size addr k m e = rw (e, kmalloc) refl
