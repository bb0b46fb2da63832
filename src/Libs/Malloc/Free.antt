-- ===== src/Libs/Malloc/Free.antt =====
-- About free of libs/libkmod/memory/malloc.c: where a chunk comes to stand in the list, and what it is
-- joined with.
pub mod Joined
pub mod Position
use mathlib.Core.List.{append_assoc}
use tay_huang_os.Prelude.{
  ℕ, zero, suc, Bool, false, not, none, some, List, [], ◌∷◌, ◌++◌, ◌+◌, ◌-◌, ◌<◌, ◌≡◌, ◌≢◌, ◌⊎◌,
  refl, sym, ap, ◌∙◌, subst, arith, Bool-cases, inl, inr, ◌==◌, ltb, lt→ltb, ltb→lt, ◌&&◌,
  if◌then◌else◌, length,
}
use tay_huang_os.Kernel.State.{update}
use tay_huang_os.Kernel.Ready.Chain.{update_self, update_ne}
use tay_huang_os.Libs.Malloc.{
  Chunk, Chunks, chunk_header, set_next, find_place, join_next, link_in, free_chunk, free,
}
use tay_huang_os.Libs.Malloc.Links.{
  Area, Linked, Fresh, Ascends, Linked-append, Linked-split, Linked-update, Ascends-Fresh,
  Ascends-weaken, Ascends-same, Ascends-split, Ascends-above, Ascends-front, Ascends-join, IsHeap,
  Around, IsHeap-Around,
}
use tay_huang_os.Libs.Malloc.Free.Position.{
  AllBelow, Place, find_place_lem, find_place-null, ne-zero, lt_of_not_ltb, ltb-zero,
  find_place-Place,
}
use tay_huang_os.Libs.Malloc.Free.Joined.{
  join, join_first, join_next_lem, joined-Linked, join_next-Linked, insert-Linked,
}

-- The chunks that stand in the list from the one before the freed chunk on.
abbrev pub freed : Area → Area → List Area → List Area
freed l c ys = join_first (join l (c ∷ ys))

-- Both joins start from the chunk before the freed one.
join_twice-Linked :
    (m : Chunks) (pre : List Area) (l c : Area) (ys : List Area)
    → Linked m (pre ++ (l ∷ c ∷ ys)) 0
    → Ascends 0 (pre ++ (l ∷ c ∷ ys))
    → Linked (join_next l.addr (join_next l.addr m)) (pre ++ freed l c ys) 0
      × Ascends 0 (pre ++ freed l c ys)
join_twice-Linked m pre l c ys k s =
    let (k1, s1) = join_next-Linked m pre l (c ∷ ys) k s in
    let m1 = join_next l.addr m in
    let L : Area = record l { size = l.size + c.size } in
    let P : Bool → Type 0 = λ q.
      Linked m1 (pre ++ (if q then L ∷ ys else l ∷ c ∷ ys)) 0
      → Ascends 0 (pre ++ (if q then L ∷ ys else l ∷ c ∷ ys))
      → Linked (join_next l.addr m1) (pre ++ join_first (if q then L ∷ ys else l ∷ c ∷ ys)) 0
        × Ascends 0 (pre ++ join_first (if q then L ∷ ys else l ∷ c ∷ ys)) in
    elim (Bool-cases (l.addr + l.size == c.addr)) [
      | inl e ↦ (subst P (sym e) (λ a b. join_next-Linked m1 pre L ys a b)) k1 s1
      | inr e ↦ (subst P (sym e) (λ a b. join_next-Linked m1 pre l (c ∷ ys) a b)) k1 s1
    ]

link_in-Linked :
    (m : Chunks) (pre : List Area) (l n : Area) (post : List Area) (c : Area)
    → Around m pre l n post
    → (m c.addr).size ≡ c.size
    → l.addr < c.addr
    → c.addr < n.addr
    → Linked (link_in c.addr l.addr m) (pre ++ freed l c (n ∷ post)) 0
      × Ascends 0 (pre ++ freed l c (n ∷ post))
unfolding link_in
link_in-Linked m pre l n post c r size lo hi =
    let m2 = λ (q : ℕ). set_next l.addr c.addr (set_next c.addr q m) in
    let (k, s) = insert-Linked m pre l n post c r size lo hi in
    let (k2, s2) = join_twice-Linked (m2 n.addr) pre l c (n ∷ post) k s in
    (
      subst
          (λ q. Linked (join_next l.addr (join_next l.addr (m2 q))) (pre ++ freed l c (n ∷ post)) 0)
          (sym r.next_l) k2,
      s2,
    )

header_back : (a : ℕ) → a + chunk_header - chunk_header ≡ a
header_back a = omega arith

free_chunk_null :
    (m : Chunks) (fuel heap current : ℕ)
    → find_place fuel current heap m ≡ some 0
    → free_chunk fuel heap current m ≡ some none
unfolding free_chunk
free_chunk_null m fuel heap current e = rw (e, free_chunk) refl

free_chunk_lem :
    (m : Chunks) (fuel heap current last : ℕ)
    → find_place fuel current heap m ≡ some last
    → last ≢ 0
    → free_chunk fuel heap current m ≡ some (some (link_in current last m))
unfolding free_chunk
free_chunk_lem m fuel heap current last e h = let nz = ne-zero last h in rw (e, free_chunk, nz) refl

-- Freeing a chunk of the heap that is not free, with fuel for each free chunk. If a free chunk lies
-- above it, it comes to stand in the order of the addresses, and is joined with the chunk before it if
-- that ends where it begins, and then, only then, with the one behind. If none lies above it, free reads
-- through NULL.
pub free-Linked :
    (m : Chunks) (fuel heap : ℕ) (head : Area) (xs : List Area) (c : Area)
    → IsHeap m heap head xs
    → heap < c.addr
    → (m c.addr).size ≡ c.size
    → Fresh c.addr xs
    → suc (length xs) < fuel
    → (AllBelow c.addr xs × (free fuel heap (c.addr + chunk_header) m ≡ some none))
      ⊎ ((p : Place c.addr head xs) × (m' : Chunks) × (free fuel heap (c.addr + chunk_header) m
            ≡ some (some m'))
          × Linked m' (p.pre ++ freed p.before c (p.after ∷ p.post)) 0
          × Ascends 0 (p.pre ++ freed p.before c (p.after ∷ p.post)))
unfolding free
free-Linked m fuel heap head xs c h up size f enough =
    let back = ap (λ a. free_chunk fuel heap a m) (header_back c.addr) in
    elim (find_place-Place m fuel c.addr head xs h.linked f (omega (arith, h.begins)) enough) [
      | inl (all, found) ↦
          let at = ap (λ a. find_place fuel c.addr a m) (sym h.begins) ∙ found in
          inl (all, back ∙ free_chunk_null m fuel heap c.addr at)
      | inr (p, found) ↦
          let at = ap (λ a. find_place fuel c.addr a m) (sym h.begins) ∙ found in
          let r = IsHeap-Around m heap head xs p.pre p.before p.after p.post h p.parts in
          let nz : p.before.addr ≢ 0 = omega (arith, r.nonzero) in
          let (k, s) = link_in-Linked m p.pre p.before p.after p.post c r size p.below p.above in
          inr (
            p,
            link_in c.addr p.before.addr m,
            back ∙ free_chunk_lem m fuel heap c.addr p.before.addr at nz,
            k,
            s,
          )
    ]
