-- ===== src/Kernel/Kheap/Alloc/Link.antt =====
-- New memory for the heap of kernel/memory/kheap.c (`link_memory`).
use mathlib.Core.List.{append_assoc, append-nil}
use tay_huang_os.Prelude.{
  ℕ, false, List, [], ◌∷◌, ◌++◌, ◌+◌, ◌<◌, ◌≡◌, ◌≢◌, refl, sym, ap, ◌∙◌, subst, arith, inl, inr,
}
use tay_huang_os.Kernel.State.{update}
use tay_huang_os.Kernel.Ready.Chain.{update_self, update_ne}
use tay_huang_os.Kernel.Kheap.{SegInfo, Segs, alloc_page_order, link_memory}
use tay_huang_os.Kernel.Pmm.{area_size}
use tay_huang_os.Kernel.Kheap.Blocks.{
  Block, Clear, Clear-split, AllSized-append, AllSized-split, AllApart-append, Between-cons,
  Between-nil, total_size, used_blocks, total_size-append, Fresh, Clear-Fresh,
}
use tay_huang_os.Kernel.Kheap.Links.{first_or, end_or, info, Linked, Linked-append, Linked-update}
use tay_huang_os.Kernel.Kheap.Free.{do_combine-Kept, snoc-cases}
use tay_huang_os.Kernel.Kheap.Free.Absorb.{IsKheap, IsKheap-Around, first_or-append}

pub end_or-append : (d : ℕ) (xs : List Block) (y : Block) → end_or d (xs ++ (y ∷ [])) ≡ y.addr
end_or-append d [] y = refl
end_or-append d (x ∷ xs) y = end_or-append x.addr xs y

-- Another segment behind the last one.
pub link-IsKheap :
    (m : Segs) (start addr size : ℕ) (ys : List Block) (y : Block)
    → addr ≢ 0
    → 0 < size
    → Clear (record { addr = addr; size = size; used = false }) (ys ++ (y ∷ []))
    → IsKheap m start (ys ++ (y ∷ []))
    → let n : Block = record { addr = addr; size = size; used = false } in
      let m1 = update m addr (info n y.addr 0) in
      IsKheap
        (update m1 y.addr (record (m1 y.addr) { next = addr }))
        start
        ((ys ++ (y ∷ [])) ++ (n ∷ []))
link-IsKheap m start addr size ys y az sz c k =
    let n : Block = record { addr = addr; size = size; used = false } in
    let m1 = update m addr (info n y.addr 0) in
    let v = record (m1 y.addr) { next = addr } in
    let r = IsKheap-Around m start ys y [] k in
    let (z1, (hy, z2)) = AllSized-split ys (y ∷ []) k.sized in
    let (c1, (c2, c3)) = Clear-split n ys (y ∷ []) c in
    let new : Fresh addr ys = Clear-Fresh n ys sz z1 c1 in
    let ne : addr ≢ y.addr = omega arith in
    let kept : m1 y.addr ≡ info y (end_or 0 ys) 0 =
      update_ne m addr (info n y.addr 0) y.addr ne ∙ r.header in
    let links : Linked (update m1 y.addr v) 0 (ys ++ (y ∷ n ∷ [])) 0 =
      Linked-append (update m1 y.addr v) 0 ys (y ∷ n ∷ []) 0
        (Linked-update m1 y.addr v 0 ys y.addr r.fresh_pre
          (Linked-update m addr (info n y.addr 0) 0 ys y.addr new r.before))
        (
          r.nonzero,
          update_self m1 y.addr v ∙ ap (λ (i : SegInfo). record i { next = addr }) kept,
          (
            az,
            update_ne m1 y.addr v addr (λ e. ne (sym e)) ∙ update_self m addr (info n y.addr 0),
            tt,
          ),
        ) in
    record {
      linked =
          subst (λ l. Linked (update m1 y.addr v) 0 l 0) (sym (append_assoc ys (y ∷ []) (n ∷ [])))
            links;
      begins =
          k.begins
          ∙ first_or-append ys y y [] (n ∷ []) refl
          ∙ ap (first_or 0) (sym (append_assoc ys (y ∷ []) (n ∷ [])));
      sized = AllSized-append (ys ++ (y ∷ [])) (n ∷ []) k.sized (sz, tt);
      apart =
          AllApart-append (ys ++ (y ∷ [])) (n ∷ []) k.apart (tt, tt)
            (Between-cons (ys ++ (y ∷ [])) n [] c (Between-nil (ys ++ (y ∷ []))));
    }

-- Memory of the page allocator that is apart from all segments joins the heap, whatever it is then
-- combined with: the headers stay a list of segments that share no byte, the used blocks are the same,
-- and the heap has grown by 2^6 pages.
pub link_memory-IsKheap :
    (m : Segs) (start addr : ℕ) (xs : List Block)
    → IsKheap m start xs
    → xs ≢ []
    → addr ≢ 0
    → Clear (record { addr = addr; size = area_size alloc_page_order; used = false }) xs
    → (ys : List Block) × IsKheap (link_memory addr (end_or 0 xs) m) start ys
      × (used_blocks ys ≡ used_blocks xs)
      × (total_size ys ≡ total_size xs + area_size alloc_page_order)
unfolding link_memory
link_memory-IsKheap m start addr xs k some_seg az c = elim (snoc-cases xs) [
  | inl e ↦ absurd (some_seg e)
  | inr (ys, y, e) ↦
      let size : ℕ = area_size alloc_page_order in
      let n : Block = record { addr = addr; size = size; used = false } in
      let last : end_or 0 xs ≡ y.addr = ap (end_or 0) e ∙ end_or-append 0 ys y in
      let joined =
        link-IsKheap m start addr size ys y az (omega arith) (subst (Clear n) e c)
          (subst (IsKheap m start) e k) in
      let linked = λ (l : ℕ).
        let m1 : Segs = update m addr (info n l 0) in update m1 l (record (m1 l) { next = addr }) in
      let at : IsKheap (linked (end_or 0 xs)) start (xs ++ (n ∷ [])) =
        subst (λ l. IsKheap (linked l) start (xs ++ (n ∷ []))) (sym last)
          (subst (λ l. IsKheap (linked y.addr) start (l ++ (n ∷ []))) (sym e) joined) in
      let r = do_combine-Kept (linked (end_or 0 xs)) start xs n [] refl at in
      (
        r.blocks,
        r.heap,
        r.used_same ∙ ap used_blocks (append-nil xs),
        r.total_same ∙ total_size-append xs (n ∷ []) ∙ omega arith,
      )
]
