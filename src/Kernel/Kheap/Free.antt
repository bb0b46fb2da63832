-- ===== src/Kernel/Kheap/Free.antt =====
-- About do_combine and kfree of kernel/memory/kheap.c: freeing takes one block out of the used ones.
pub mod Next
pub mod Absorb
use mathlib.Core.List.{append_assoc}
use tay_huang_os.Prelude.{
  ℕ, Bool, true, false, not, List, [], ◌∷◌, ◌++◌, ◌+◌, ◌-◌, ◌<◌, ◌≡◌, ◌≢◌, ◌⊎◌, refl, sym, ap, ◌∙◌,
  subst, arith, Bool-cases, inl, inr, ◌==◌, ◌&&◌, if◌then◌else◌,
}
use tay_huang_os.Kernel.State.{update}
use tay_huang_os.Kernel.Ready.Chain.{update_self}
use tay_huang_os.Kernel.Kheap.{
  SegInfo, Segs, header_size, set_last, absorb, combine_next, combine_last, do_combine, kfree,
}
use tay_huang_os.Kernel.Kheap.Blocks.{
  Block, AllApart, AllSized, Between, Between-sym, AllApart-split, AllSized-append, AllSized-split,
  Within, AllApart-replace, total_size, keep, used_blocks, total_size-append, used_blocks-append,
  Fresh, Clear-Fresh, AllDistinct, AllApart-AllDistinct,
}
use tay_huang_os.Kernel.Kheap.Links.{
  first_or, end_or, info, Linked, Linked-append, Linked-split, Linked-update, Linked-set_last,
  set_last_ne, FreshHead, Linked-set_last_outside,
}
use tay_huang_os.Kernel.Kheap.Free.Absorb.{
  IsKheap, Around, head-Fresh, IsKheap-Around, first_or-append, merged, absorb_lem, absorb-Linked,
  merged-Within, absorb-IsKheap,
}
use tay_huang_os.Kernel.Kheap.Free.Next.{
  flagged, rewritten, Kept, used_free, joins, combine_next-test, joins-end, combine_next-Kept,
}

-- The last block of a list.
pub snoc-cases :
    (xs : List Block) → (xs ≡ []) ⊎ ((ys : List Block) × (y : Block) × (xs ≡ ys ++ (y ∷ [])))
snoc-cases [] = inl refl
snoc-cases (x ∷ xs) = elim (snoc-cases xs) [
  | inl e ↦ inr ([], x, ap (λ l. x ∷ l) e)
  | inr (ys, y, e) ↦ inr (x ∷ ys, y, ap (λ l. x ∷ l) e)
]

if-second : (c : Bool) (x y : ℕ × Segs) → (if c then x else y).1 ≡ (if c then x.1 else y.1)
if-second true x y = refl
if-second false x y = refl

combine_last-test :
    (m : Segs) (last : ℕ) (a b : Block) (next : ℕ)
    → m a.addr ≡ info a last b.addr
    → m b.addr ≡ info b a.addr next
    → a.addr ≢ 0
    → (combine_last b.addr m).1 ≡ (if joins a b a.used then absorb a.addr m else m)
unfolding combine_last
combine_last-test m last a b next ea eb h =
    let z : (a.addr == 0) ≡ false = ground arith in
    rw (eb, ea, z) (if-second (joins a b a.used) (a.addr, absorb a.addr m) (b.addr, m))

first-alone :
    (m : Segs) (s : Block) (next : ℕ) → m s.addr ≡ info s 0 next → (combine_last s.addr m).1 ≡ m
unfolding combine_last
first-alone m s next e = rw e refl

combine_last-Kept :
    (m : Segs) (start : ℕ) (pre : List Block) (s : Block) (post : List Block)
    → s.used ≡ false
    → IsKheap m start (pre ++ (s ∷ post))
    → Kept
        (combine_last s.addr m).1
        start
        (used_blocks (pre ++ post))
        (total_size (pre ++ (s ∷ post)))
combine_last-Kept m start pre s post f k = elim (snoc-cases pre) [
  | inl e ↦
      let k0 : IsKheap m start (s ∷ post) = subst (λ l. IsKheap m start (l ++ (s ∷ post))) e k in
      let r = IsKheap-Around m start [] s post k0 in
      record {
        blocks = pre ++ (s ∷ post);
        heap =
            subst (λ h. IsKheap h start (pre ++ (s ∷ post)))
              (sym (first-alone m s (first_or 0 post) r.header)) k;
        used_same = used_free pre s post f;
        total_same = refl;
      }
  | inr (ys, a, e) ↦
      let eq : pre ++ (s ∷ post) ≡ ys ++ (a ∷ s ∷ post) =
        ap (λ l. l ++ (s ∷ post)) e ∙ append_assoc ys (a ∷ []) (s ∷ post) in
      let k1 = subst (IsKheap m start) eq k in
      let r = IsKheap-Around m start ys a (s ∷ post) k1 in
      let (sz, es, l) = r.behind in
      let test = combine_last-test m (end_or 0 ys) a s (first_or 0 post) r.header es r.nonzero in
      elim (Bool-cases (joins a s a.used)) [
        | inl j ↦
            let (u, meet) = joins-end a s a.used j in
            record {
              blocks = ys ++ (merged a s ∷ post);
              heap =
                  subst (λ h. IsKheap h start (ys ++ (merged a s ∷ post)))
                    (sym (test ∙ ap (λ c. if c then absorb a.addr m else m) j))
                    (absorb-IsKheap m start ys a s post k1 meet);
              used_same =
                  used_free ys (merged a s) post u
                  ∙ sym (
                      ap (λ l. used_blocks (l ++ post)) e
                      ∙ ap used_blocks (append_assoc ys (a ∷ []) post)
                      ∙ used_free ys a post u);
              total_same = omega (
                arith,
                ap total_size eq,
                total_size-append ys (merged a s ∷ post),
                total_size-append ys (a ∷ s ∷ post),
              );
            }
        | inr j ↦ record {
          blocks = pre ++ (s ∷ post);
          heap =
              subst (λ h. IsKheap h start (pre ++ (s ∷ post)))
                (sym (test ∙ ap (λ c. if c then absorb a.addr m else m) j)) k;
          used_same = used_free pre s post f;
          total_same = refl;
        }
      ]
]

-- The new last blocks are combined too: `do_combine` on a free block.
pub do_combine-Kept :
    (m : Segs) (start : ℕ) (pre : List Block) (s : Block) (post : List Block)
    → s.used ≡ false
    → IsKheap m start (pre ++ (s ∷ post))
    → Kept
        (do_combine s.addr m).1
        start
        (used_blocks (pre ++ post))
        (total_size (pre ++ (s ∷ post)))
unfolding do_combine
do_combine-Kept m start pre s post f k =
    let (s', post', k', same, f', used, total) = combine_next-Kept m start pre s post f k in
    let r =
      subst
        (λ a.
          Kept (combine_last a (combine_next s.addr m)).1 start (used_blocks (pre ++ post'))
            (total_size (pre ++ (s' ∷ post'))))
        same (combine_last-Kept (combine_next s.addr m) start pre s' post' f' k') in
    record {
      blocks = r.blocks;
      heap = r.heap;
      used_same =
          r.used_same
          ∙ used_blocks-append pre post'
          ∙ ap (λ l. used_blocks pre ++ l) used
          ∙ sym (used_blocks-append pre post);
      total_same = omega (
        arith,
        r.total_same,
        total,
        total_size-append pre (s' ∷ post'),
        total_size-append pre (s ∷ post),
      );
    }

-- Freeing the address that belongs to a block, wherever it stands in the list, keeps the heap: the
-- headers are still a list, linked both ways, of segments that share no byte. The used blocks are those
-- before without this one, and the segments have as many bytes as before.
pub kfree-IsKheap :
    (m : Segs) (start : ℕ) (pre : List Block) (s : Block) (post : List Block)
    → IsKheap m start (pre ++ (s ∷ post))
    → (ys : List Block) × IsKheap (kfree (s.addr + header_size) m) start ys
      × (used_blocks ys ≡ used_blocks (pre ++ post))
      × (total_size ys ≡ total_size (pre ++ (s ∷ post)))
unfolding kfree
kfree-IsKheap m start pre s post k =
    let back : s.addr + header_size - header_size ≡ s.addr = omega arith in
    let v = λ (a : ℕ). update m a (record (m a) { used = false }) in
    let r =
      subst
        (λ a.
          Kept (do_combine a (v a)).1 start (used_blocks (pre ++ post))
            (total_size (pre ++ (flagged s false ∷ post))))
        (sym back)
        (do_combine-Kept (v s.addr) start pre (flagged s false) post refl
          (rewritten m start pre s false post k)) in
    (
      r.blocks,
      r.heap,
      r.used_same,
      r.total_same
          ∙ total_size-append pre (flagged s false ∷ post)
          ∙ sym (total_size-append pre (s ∷ post)),
    )
