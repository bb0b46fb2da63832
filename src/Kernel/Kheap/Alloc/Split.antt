-- ===== src/Kernel/Kheap/Alloc/Split.antt =====
-- The segment that is taken, and what is split off it (`kmalloc` of kernel/memory/kheap.c).
use tay_huang_os.Prelude.{
  ℕ, true, false, List, [], ◌∷◌, ◌++◌, ◌+◌, ◌-◌, ◌≤◌, ◌<◌, ◌≡◌, ◌≢◌, refl, sym, ap, ◌∙◌, subst,
  arith, Bool-cases, inl, inr, leb,
}
use tay_huang_os.Kernel.State.{update}
use tay_huang_os.Kernel.Ready.Chain.{update_self, update_ne}
use tay_huang_os.Kernel.Kheap.{SegInfo, Segs, min_seg_size, set_last, split, take_seg}
use tay_huang_os.Kernel.Kheap.Blocks.{
  Block, Between-sym, AllApart-split, AllSized-append, AllSized-split, Within, AllApart-replace,
  total_size, used_blocks, total_size-append, used_blocks-append, Fresh, Clear-Fresh,
}
use tay_huang_os.Kernel.Kheap.Links.{
  first_or, end_or, info, Linked, Linked-append, Linked-update, Linked-set_last, set_last_ne,
  Linked-set_last_outside,
}
use tay_huang_os.Kernel.Kheap.Free.Next.{flagged, rewritten}
use tay_huang_os.Kernel.Kheap.Free.Absorb.{IsKheap, Around, IsKheap-Around, first_or-append}
use tay_huang_os.Kernel.Kheap.Alloc.Find.{no_room}

-- The two blocks that a split makes of one.
abbrev pub front : ℕ → Block → Block
front fixed s = record { addr = s.addr; size = fixed; used = true }

abbrev pub rest : ℕ → Block → Block
rest fixed s = record { addr = s.addr + fixed; size = s.size - fixed; used = false }

pub split_lem :
    (m : Segs) (fixed last : ℕ) (s : Block) (next : ℕ)
    → m s.addr ≡ info s last next
    → let n = rest fixed s in
      let m2 = set_last next n.addr (update m n.addr (info n s.addr next)) in
      split fixed s.addr m
      ≡ update m2 s.addr (record (m2 s.addr) { size = fixed; next = n.addr; used = true })
unfolding split
split_lem m fixed last s next e = rw e refl

-- The headers of the two blocks, once their addresses are known to be new.
module _ (m : Segs) (fixed : ℕ) (pre : List Block) (s : Block) (post : List Block)
    (r : Around m pre s post) (fixed_pos : 0 < fixed) (new_pre : Fresh (s.addr + fixed) pre)
    (new_post : Fresh (s.addr + fixed) post) where
  abbrev m1 : Segs
  m1 = update m (s.addr + fixed) (info (rest fixed s) s.addr (first_or 0 post))

  abbrev m2 : Segs
  m2 = set_last (first_or 0 post) (s.addr + fixed) m1

  header_same : m2 s.addr ≡ info s (end_or 0 pre) (first_or 0 post)
  header_same =
      set_last_ne m1 (s.addr + fixed) s.addr post r.fresh_post
      ∙ update_ne m (s.addr + fixed) (info (rest fixed s) s.addr (first_or 0 post)) s.addr
          (omega arith)
      ∙ r.header

  split-Linked : Linked (split fixed s.addr m) 0 (pre ++ (front fixed s ∷ rest fixed s ∷ post)) 0
  split-Linked =
      let v = record (m2 s.addr) { size = fixed; next = s.addr + fixed; used = true } in
      let n = info (rest fixed s) s.addr (first_or 0 post) in
      let ne : s.addr ≢ s.addr + fixed = omega arith in
      subst (λ h. Linked h 0 (pre ++ (front fixed s ∷ rest fixed s ∷ post)) 0)
        (sym (split_lem m fixed (end_or 0 pre) s (first_or 0 post) r.header))
        (Linked-append (update m2 s.addr v) 0 pre (front fixed s ∷ rest fixed s ∷ post) 0
          (Linked-update m2 s.addr v 0 pre s.addr r.fresh_pre (
            Linked-set_last_outside m1 (s.addr + fixed) 0 pre post s.addr r.head_pre
              (Linked-update m (s.addr + fixed) n 0 pre s.addr new_pre r.before)))
          (
            r.nonzero,
            update_self m2 s.addr v
                ∙ ap
                    (λ (i : SegInfo). record i { size = fixed; next = s.addr + fixed; used = true })
                    header_same,
            (
              omega (arith, r.nonzero),
              update_ne m2 s.addr v (s.addr + fixed) ne
                  ∙ set_last_ne m1 (s.addr + fixed) (s.addr + fixed) post new_post
                  ∙ update_self m (s.addr + fixed) n,
              Linked-update m2 s.addr v (s.addr + fixed) post 0 r.fresh_post (
                  Linked-set_last m1 (s.addr + fixed) s.addr post r.distinct
                    (Linked-update m (s.addr + fixed) n s.addr post 0 new_post r.behind)),
            ),
          ))

pub split-Within :
    (fixed : ℕ) (s : Block)
    → 0 < fixed
    → fixed ≤ s.size
    → Within (front fixed s ∷ rest fixed s ∷ []) (s ∷ [])
split-Within fixed s h k x hx (c, u) = (omega arith, (omega arith, tt))

-- A block with room becomes used: all of it, or its front where the rest is large enough.
pub record Taken (m : Segs) (start fixed : ℕ) (pre : List Block) (s : Block) (post : List Block)
    : Type 0 where
  pub blocks : List Block
  pub block : Block
  pub heap : IsKheap m start blocks
  pub place : block.addr ≡ s.addr
  pub enough : fixed ≤ block.size
  pub used_more : used_blocks blocks ≡ used_blocks pre ++ (block ∷ used_blocks post)
  pub total_same : total_size blocks ≡ total_size (pre ++ (s ∷ post))

pub split-Taken :
    (m : Segs) (start fixed : ℕ) (pre : List Block) (s : Block) (post : List Block)
    → IsKheap m start (pre ++ (s ∷ post))
    → 0 < fixed
    → fixed < s.size
    → Taken (split fixed s.addr m) start fixed pre s post
split-Taken m start fixed pre s post k h room =
    let r = IsKheap-Around m start pre s post k in
    let (z1, (hs, z2)) = AllSized-split pre (s ∷ post) k.sized in
    let apart =
      AllApart-replace pre (s ∷ []) (front fixed s ∷ rest fixed s ∷ []) post k.sized
        (split-Within fixed s h (omega arith)) ((omega arith, tt), (tt, tt)) k.apart in
    let (a1, (c, (d, a2)), b) = AllApart-split pre (front fixed s ∷ rest fixed s ∷ post) apart in
    let (b1, (b2, b3)) = Between-sym pre (front fixed s ∷ rest fixed s ∷ post) b in
    let hr : 0 < (rest fixed s).size = omega arith in
    record {
      blocks = pre ++ (front fixed s ∷ rest fixed s ∷ post);
      block = front fixed s;
      heap = record {
        linked =
            split-Linked m fixed pre s post r h (Clear-Fresh (rest fixed s) pre hr z1 b2)
              (Clear-Fresh (rest fixed s) post hr z2 d);
        begins = k.begins ∙ first_or-append pre s (front fixed s) post (rest fixed s ∷ post) refl;
        sized = AllSized-append pre (front fixed s ∷ rest fixed s ∷ post) z1 (h, (hr, z2));
        apart = apart;
      };
      place = refl;
      enough = omega arith;
      used_more = used_blocks-append pre (front fixed s ∷ rest fixed s ∷ post);
      total_same = omega (
        arith,
        total_size-append pre (front fixed s ∷ rest fixed s ∷ post),
        total_size-append pre (s ∷ post),
      );
    }

pub take_seg-Taken :
    (m : Segs) (start fixed : ℕ) (pre : List Block) (s : Block) (post : List Block)
    → IsKheap m start (pre ++ (s ∷ post))
    → 0 < fixed
    → no_room fixed s ≡ false
    → Taken (take_seg fixed s.addr m) start fixed pre s post
unfolding take_seg
take_seg-Taken m start fixed pre s post k h room =
    let r = IsKheap-Around m start pre s post k in
    let big : fixed ≤ s.size = ground arith in
    elim (Bool-cases (leb min_seg_size ((m s.addr).size - fixed))) [
      | inl e ↦ rw e (
          split-Taken m start fixed pre s post k h
            (let z : leb min_seg_size (s.size - fixed) ≡ true = rw r.header at e in ground arith))
      | inr e ↦ rw e (record {
        blocks = pre ++ (flagged s true ∷ post);
        block = flagged s true;
        heap = rewritten m start pre s true post k;
        place = refl;
        enough = big;
        used_more = used_blocks-append pre (flagged s true ∷ post);
        total_same =
            total_size-append pre (flagged s true ∷ post) ∙ sym (total_size-append pre (s ∷ post));
      })
    ]
