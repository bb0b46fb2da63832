-- ===== src/Kernel/Kheap/Free/Next.antt =====
-- A freed segment and the one behind it (`do_combine` of kernel/memory/kheap.c).
use tay_huang_os.Prelude.{
  ℕ, Bool, true, false, not, List, [], ◌∷◌, ◌++◌, ◌+◌, ◌≡◌, ◌≢◌, refl, sym, ap, ◌∙◌, subst, arith,
  Bool-cases, inl, inr, ◌==◌, ◌&&◌, if◌then◌else◌,
}
use tay_huang_os.Kernel.State.{update}
use tay_huang_os.Kernel.Ready.Chain.{update_self}
use tay_huang_os.Kernel.Kheap.{SegInfo, Segs, absorb, combine_next}
use tay_huang_os.Kernel.Kheap.Blocks.{
  Block, AllSized-append, AllSized-split, AllApart-replace, total_size, keep, used_blocks,
  used_blocks-append,
}
use tay_huang_os.Kernel.Kheap.Links.{first_or, end_or, info, Linked-append, Linked-update}
use tay_huang_os.Kernel.Kheap.Free.Absorb.{
  IsKheap, IsKheap-Around, first_or-append, merged, absorb-IsKheap,
}

-- A block with its flag set or taken back.
abbrev pub flagged : Block → Bool → Block
flagged s u = record s { used = u }

-- Any change of a block's own header that leaves its address, and its size or a part of it.
pub rewritten :
    (m : Segs) (start : ℕ) (pre : List Block) (s : Block) (u : Bool) (post : List Block)
    → IsKheap m start (pre ++ (s ∷ post))
    → IsKheap (update m s.addr (record (m s.addr) { used = u })) start (pre ++ (flagged s u ∷ post))
rewritten m start pre s u post k =
    let r = IsKheap-Around m start pre s post k in
    let (z1, (h, z2)) = AllSized-split pre (s ∷ post) k.sized in
    let v = record (m s.addr) { used = u } in
    record {
      linked =
          Linked-append (update m s.addr v) 0 pre (flagged s u ∷ post) 0
            (Linked-update m s.addr v 0 pre s.addr r.fresh_pre r.before)
            (
              r.nonzero,
              update_self m s.addr v ∙ ap (λ (i : SegInfo). record i { used = u }) r.header,
              Linked-update m s.addr v s.addr post 0 r.fresh_post r.behind,
            );
      begins = k.begins ∙ first_or-append pre s (flagged s u) post post refl;
      sized = AllSized-append pre (flagged s u ∷ post) z1 (h, z2);
      apart =
          AllApart-replace pre (s ∷ []) (flagged s u ∷ []) post k.sized (λ x hx c. c) (tt, tt)
            k.apart;
    }

-- The heap after a part of an operation: the blocks, with the used ones and the bytes as given.
pub record Kept (m : Segs) (start : ℕ) (used : List Block) (total : ℕ) : Type 0 where
  pub blocks : List Block
  pub heap : IsKheap m start blocks
  pub used_same : used_blocks blocks ≡ used
  pub total_same : total_size blocks ≡ total

pub used_free :
    (pre : List Block) (a : Block) (post : List Block)
    → a.used ≡ false
    → used_blocks (pre ++ (a ∷ post)) ≡ used_blocks (pre ++ post)
used_free pre a post e =
    used_blocks-append pre (a ∷ post)
    ∙ ap (λ b. used_blocks pre ++ keep b a (used_blocks post)) e
    ∙ sym (used_blocks-append pre post)

-- The test of the code: the block `b` is free and begins where `a` ends.
abbrev pub joins : Block → Block → Bool → Bool
joins a b used = not used && (a.addr + a.size == b.addr)

pub combine_next-test :
    (m : Segs) (last : ℕ) (a b : Block) (next : ℕ)
    → m a.addr ≡ info a last b.addr
    → m b.addr ≡ info b a.addr next
    → b.addr ≢ 0
    → combine_next a.addr m ≡ (if joins a b b.used then absorb a.addr m else m)
unfolding combine_next
combine_next-test m last a b next ea eb h =
    let z : (b.addr == 0) ≡ false = ground arith in rw (ea, eb, z) refl

pub joins-end :
    (a b : Block) (used : Bool)
    → joins a b used ≡ true
    → (used ≡ false) × (a.addr + a.size ≡ b.addr)
joins-end a b used h = (ground arith, ground arith)

pub combine_next-Kept :
    (m : Segs) (start : ℕ) (pre : List Block) (s : Block) (post : List Block)
    → s.used ≡ false
    → IsKheap m start (pre ++ (s ∷ post))
    → (s' : Block) × (post' : List Block) × IsKheap
        (combine_next s.addr m)
        start
        (pre ++ (s' ∷ post'))
      × (s'.addr ≡ s.addr)
      × (s'.used ≡ false)
      × (used_blocks post' ≡ used_blocks post)
      × (s'.size + total_size post' ≡ s.size + total_size post)
unfolding combine_next
combine_next-Kept m start pre s [] f k =
    let r = IsKheap-Around m start pre s [] k in (s, [], rw r.header k, refl, f, refl, refl)
combine_next-Kept m start pre s (b ∷ post) f k =
    let r = IsKheap-Around m start pre s (b ∷ post) k in
    let (bz, eb, l) = r.behind in
    let test = combine_next-test m (end_or 0 pre) s b (first_or 0 post) r.header eb bz in
    elim (Bool-cases (joins s b b.used)) [
      | inl e ↦
          let (u, meet) = joins-end s b b.used e in
          (
            merged s b,
            post,
            subst (λ h. IsKheap h start (pre ++ (merged s b ∷ post)))
                (sym (test ∙ ap (λ c. if c then absorb s.addr m else m) e))
                (absorb-IsKheap m start pre s b post k meet),
            refl,
            f,
            ap (λ c. keep c b (used_blocks post)) (sym u),
            omega arith,
          )
      | inr e ↦ (
        s,
        b ∷ post,
        subst (λ h. IsKheap h start (pre ++ (s ∷ b ∷ post)))
            (sym (test ∙ ap (λ c. if c then absorb s.addr m else m) e)) k,
        refl,
        f,
        refl,
        refl,
      )
    ]
