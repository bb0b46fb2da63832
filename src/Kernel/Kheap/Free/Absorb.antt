-- ===== src/Kernel/Kheap/Free/Absorb.antt =====
-- A segment that takes in its neighbour (`do_combine` of kernel/memory/kheap.c).
use tay_huang_os.Prelude.{ℕ, List, [], ◌∷◌, ◌++◌, ◌+◌, ◌<◌, ◌≡◌, ◌≢◌, refl, sym, ◌∙◌, subst, arith}
use tay_huang_os.Kernel.State.{update}
use tay_huang_os.Kernel.Ready.Chain.{update_self}
use tay_huang_os.Kernel.Kheap.{Segs, set_last, absorb}
use tay_huang_os.Kernel.Kheap.Blocks.{
  Block, AllApart, AllSized, Between, Between-sym, AllApart-split, AllSized-append, AllSized-split,
  Within, AllApart-replace, Fresh, Clear-Fresh, AllDistinct, AllApart-AllDistinct,
}
use tay_huang_os.Kernel.Kheap.Links.{
  first_or, end_or, info, Linked, Linked-append, Linked-split, Linked-update, Linked-set_last,
  set_last_ne, FreshHead, Linked-set_last_outside,
}

-- The headers from `start` on are a list of blocks that share no byte.
pub record IsKheap (m : Segs) (start : ℕ) (xs : List Block) : Type 0 where
  pub linked : Linked m 0 xs 0
  pub begins : start ≡ first_or 0 xs
  pub sized : AllSized xs
  pub apart : AllApart xs

-- The block `s` between those before and those behind it.
pub record Around (m : Segs) (pre : List Block) (s : Block) (post : List Block) : Type 0 where
  pub before : Linked m 0 pre s.addr
  pub header : m s.addr ≡ info s (end_or 0 pre) (first_or 0 post)
  pub nonzero : s.addr ≢ 0
  pub behind : Linked m s.addr post 0
  pub fresh_pre : Fresh s.addr pre
  pub fresh_post : Fresh s.addr post
  pub head_pre : FreshHead post pre
  pub distinct : AllDistinct post

pub head-Fresh :
    (pre post : List Block) → AllSized pre → AllSized post → Between post pre → FreshHead post pre
head-Fresh pre [] z w b = tt
head-Fresh pre (y ∷ ys) z (h, w) (c, b) = Clear-Fresh y pre h z c

pub IsKheap-Around :
    (m : Segs) (start : ℕ) (pre : List Block) (s : Block) (post : List Block)
    → IsKheap m start (pre ++ (s ∷ post))
    → Around m pre s post
IsKheap-Around m start pre s post k =
    let (l1, (nz, e, l2)) = Linked-split m 0 pre (s ∷ post) 0 k.linked in
    let (z1, (h, z2)) = AllSized-split pre (s ∷ post) k.sized in
    let (a1, (c, a2), b) = AllApart-split pre (s ∷ post) k.apart in
    let (d, ds) = Between-sym pre (s ∷ post) b in
    record {
      before = l1;
      header = e;
      nonzero = nz;
      behind = l2;
      fresh_pre = Clear-Fresh s pre h z1 d;
      fresh_post = Clear-Fresh s post h z2 c;
      head_pre = head-Fresh pre post z1 z2 ds;
      distinct = AllApart-AllDistinct post z2 a2;
    }

pub first_or-append :
    (pre : List Block) (s t : Block) (post qost : List Block)
    → s.addr ≡ t.addr
    → first_or 0 (pre ++ (s ∷ post)) ≡ first_or 0 (pre ++ (t ∷ qost))
first_or-append [] s t post qost e = e
first_or-append (x ∷ pre) s t post qost e = refl

-- A block that ends where the next one begins, made longer by that.
abbrev pub merged : Block → Block → Block
merged a b = record a { size = a.size + b.size }

pub absorb_lem :
    (m : Segs) (last : ℕ) (a b : Block) (post : List Block)
    → m a.addr ≡ info a last b.addr
    → m b.addr ≡ info b a.addr (first_or 0 post)
    → absorb a.addr m
      ≡ set_last
          (first_or 0 post)
          a.addr
          (update m a.addr (info (merged a b) last (first_or 0 post)))
unfolding absorb
absorb_lem m last a b post ea eb = rw (ea, eb) refl

pub absorb-Linked :
    (m : Segs) (pre : List Block) (a b : Block) (post : List Block)
    → Around m pre a (b ∷ post)
    → FreshHead post pre
    → Linked (absorb a.addr m) 0 (pre ++ (merged a b ∷ post)) 0
absorb-Linked m pre a b post r f =
    let v = info (merged a b) (end_or 0 pre) (first_or 0 post) in
    let (bz, eb, l) = r.behind in
    let (na, fa) = r.fresh_post in
    let (fb, ds) = r.distinct in
    subst (λ s. Linked s 0 (pre ++ (merged a b ∷ post)) 0)
      (sym (absorb_lem m (end_or 0 pre) a b post r.header eb))
      (Linked-append (set_last (first_or 0 post) a.addr (update m a.addr v)) 0 pre
        (merged a b ∷ post) 0
        (Linked-set_last_outside (update m a.addr v) a.addr 0 pre post a.addr f
          (Linked-update m a.addr v 0 pre a.addr r.fresh_pre r.before))
        (
          r.nonzero,
          set_last_ne (update m a.addr v) a.addr a.addr post fa ∙ update_self m a.addr v,
          Linked-set_last (update m a.addr v) a.addr b.addr post ds
              (Linked-update m a.addr v b.addr post 0 fa l),
        ))

pub merged-Within :
    (a b : Block)
    → 0 < a.size
    → 0 < b.size
    → a.addr + a.size ≡ b.addr
    → Within (merged a b ∷ []) (a ∷ b ∷ [])
merged-Within a b ha hb e x h (c, (d, u)) = (omega arith, tt)

-- Absorbing the next block, where it begins at the end of the block, keeps the heap.
pub absorb-IsKheap :
    (m : Segs) (start : ℕ) (pre : List Block) (a b : Block) (post : List Block)
    → IsKheap m start (pre ++ (a ∷ b ∷ post))
    → a.addr + a.size ≡ b.addr
    → IsKheap (absorb a.addr m) start (pre ++ (merged a b ∷ post))
absorb-IsKheap m start pre a b post k e =
    let (z1, (ha, (hb, z2))) = AllSized-split pre (a ∷ b ∷ post) k.sized in
    let (a1, a2, bt) = AllApart-split pre (a ∷ b ∷ post) k.apart in
    let (da, (db, dp)) = Between-sym pre (a ∷ b ∷ post) bt in
    record {
      linked =
          absorb-Linked m pre a b post (IsKheap-Around m start pre a (b ∷ post) k)
            (head-Fresh pre post z1 z2 dp);
      begins = k.begins ∙ first_or-append pre a (merged a b) (b ∷ post) post refl;
      sized = AllSized-append pre (merged a b ∷ post) z1 (omega arith, z2);
      apart =
          AllApart-replace pre (a ∷ b ∷ []) (merged a b ∷ []) post k.sized
            (merged-Within a b ha hb e) (tt, tt) k.apart;
    }
