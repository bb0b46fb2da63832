-- ===== src/Libs/Malloc/Free/Joined.antt =====
-- A freed chunk and its neighbours (`free` of libs/libkmod/memory/malloc.c).
use mathlib.Core.List.{append_assoc}
use tay_huang_os.Prelude.{
  ℕ, List, [], ◌∷◌, ◌++◌, ◌+◌, ◌<◌, ◌≡◌, ◌≢◌, refl, sym, ap, ◌∙◌, subst, arith, Bool-cases, inl,
  inr, ◌==◌, if◌then◌else◌,
}
use tay_huang_os.Kernel.State.{update}
use tay_huang_os.Kernel.Ready.Chain.{update_self, update_ne}
use tay_huang_os.Libs.Malloc.{Chunk, Chunks, set_next, join_next}
use tay_huang_os.Libs.Malloc.Links.{
  Area, Linked, Ascends, Linked-append, Linked-split, Linked-update, Ascends-Fresh, Ascends-weaken,
  Ascends-same, Ascends-split, Ascends-above, Ascends-front, Ascends-join, Around,
}
use tay_huang_os.Libs.Malloc.Free.Position.{ne-zero}

-- Two chunks of the list become one if the second begins where the first ends.
abbrev pub join : Area → List Area → List Area
join a [] = a ∷ []
join a (b ∷ bs) =
    if a.addr + a.size == b.addr then record a { size = a.size + b.size } ∷ bs else a ∷ b ∷ bs

-- The first chunk of the list is joined with the second.
abbrev pub join_first : List Area → List Area
join_first [] = []
join_first (a ∷ as') = join a as'

pub join_next_lem :
    (m : Chunks) (a : Area) (next size : ℕ)
    → (m a.addr).size ≡ a.size
    → (m a.addr).next ≡ next
    → (m next).size ≡ size
    → join_next a.addr m ≡ (
        if a.addr + a.size == next
        then update m a.addr (record (m a.addr) { size = a.size + size; next = (m next).next })
        else m)
unfolding join_next
join_next_lem m a next size s e z = rw (s, e, z) refl

pub joined-Linked :
    (m : Chunks) (pre : List Area) (a b : Area) (bs : List Area)
    → Linked m (pre ++ (a ∷ b ∷ bs)) 0
    → Ascends 0 (pre ++ (a ∷ b ∷ bs))
    → let c : Area = record a { size = a.size + b.size } in
      Linked
        (update m a.addr (record (m a.addr) { size = a.size + b.size; next = (m b.addr).next }))
        (pre ++ (c ∷ bs))
        0
      × Ascends 0 (pre ++ (c ∷ bs))
joined-Linked m pre a b bs l s =
    let v = record (m a.addr) { size = a.size + b.size; next = (m b.addr).next } in
    let c : Area = record a { size = a.size + b.size } in
    let (l1, (az, as', an, (bz, bs', bn, l2))) = Linked-split m pre (a ∷ b ∷ bs) 0 l in
    let ((o, up), f, p) = Ascends-split 0 pre a (b ∷ bs) s in
    let front =
      Ascends-front 0 (pre ++ (a ∷ [])) (b ∷ bs)
        (subst (Ascends 0) (sym (append_assoc pre (a ∷ []) (b ∷ bs))) s) in
    (
      Linked-append (update m a.addr v) pre (c ∷ bs) 0 (Linked-update m a.addr v pre a.addr f l1) (
        az,
        ap Chunk.size (update_self m a.addr v),
        ap Chunk.next (update_self m a.addr v) ∙ bn,
        Linked-update m a.addr v bs 0 (Ascends-Fresh b.addr a.addr bs (omega arith) up) l2,
      ),
      Ascends-same 0 pre a c bs refl
          (Ascends-join 0 pre a bs front (Ascends-weaken b.addr a.addr bs (omega arith) up)),
    )

-- Joining keeps the links and the order.
pub join_next-Linked :
    (m : Chunks) (pre : List Area) (a : Area) (bs : List Area)
    → Linked m (pre ++ (a ∷ bs)) 0
    → Ascends 0 (pre ++ (a ∷ bs))
    → Linked (join_next a.addr m) (pre ++ join a bs) 0 × Ascends 0 (pre ++ join a bs)
join_next-Linked m pre a [] l s =
    let (l1, (az, as', an, l2)) = Linked-split m pre (a ∷ []) 0 l in
    let no_next = ne-zero (a.addr + a.size) (omega (arith, az)) in
    let eq : join_next a.addr m ≡ m =
      join_next_lem m a 0 (m 0).size as' an refl ∙ rw no_next refl in
    (subst (λ h. Linked h (pre ++ (a ∷ [])) 0) (sym eq) l, s)
join_next-Linked m pre a (b ∷ bs) l s =
    let (l1, (az, as', an, (bz, bs', bn, l2))) = Linked-split m pre (a ∷ b ∷ bs) 0 l in
    let eq = join_next_lem m a b.addr b.size as' an bs' in
    let c : Area = record a { size = a.size + b.size } in
    let v = record (m a.addr) { size = a.size + b.size; next = (m b.addr).next } in
    subst (λ h. Linked h (pre ++ join a (b ∷ bs)) 0 × Ascends 0 (pre ++ join a (b ∷ bs))) (sym eq)
      (elim (Bool-cases (a.addr + a.size == b.addr)) [
        | inl e ↦
            subst
              (λ q.
                Linked (if q then update m a.addr v else m)
                  (pre ++ (if q then c ∷ bs else a ∷ b ∷ bs)) 0
                × Ascends 0 (pre ++ (if q then c ∷ bs else a ∷ b ∷ bs)))
              (sym e) (joined-Linked m pre a b bs l s)
        | inr e ↦
            subst
              (λ q.
                Linked (if q then update m a.addr v else m)
                  (pre ++ (if q then c ∷ bs else a ∷ b ∷ bs)) 0
                × Ascends 0 (pre ++ (if q then c ∷ bs else a ∷ b ∷ bs)))
              (sym e) (l, s)
      ])

-- The freed chunk between the two that its address lies between.
pub insert-Linked :
    (m : Chunks) (pre : List Area) (l n : Area) (post : List Area) (c : Area)
    → Around m pre l n post
    → (m c.addr).size ≡ c.size
    → l.addr < c.addr
    → c.addr < n.addr
    → let m1 = set_next c.addr n.addr m in
      Linked (set_next l.addr c.addr m1) (pre ++ (l ∷ c ∷ n ∷ post)) 0
      × Ascends 0 (pre ++ (l ∷ c ∷ n ∷ post))
insert-Linked m pre l n post c r size lo hi =
    let u = record (m c.addr) { next = n.addr } in
    let m1 = update m c.addr u in
    let w = record (m1 l.addr) { next = c.addr } in
    let cl : c.addr ≢ l.addr = omega arith in
    let cn : c.addr ≢ n.addr = omega arith in
    let ln : l.addr ≢ n.addr = omega arith in
    let new = Ascends-above 0 pre l c.addr r.ascends_pre lo in
    let lone : Linked (update m1 l.addr w) (n ∷ post) 0 =
      Linked-update m1 l.addr w (n ∷ post) 0
        (ln, Ascends-Fresh n.addr l.addr post (omega arith) r.above)
        (Linked-update m c.addr u (n ∷ post) 0
          (cn, Ascends-Fresh n.addr c.addr post (omega arith) r.above)
          (omega arith, r.size_c, r.next_c, r.behind)) in
    let at = update_ne m1 l.addr w c.addr (λ e. cl (sym e)) ∙ update_self m c.addr u in
    (
      Linked-append (update m1 l.addr w) pre (l ∷ c ∷ n ∷ post) 0
          (Linked-update m1 l.addr w pre l.addr r.fresh_l
            (Linked-update m c.addr u pre l.addr new r.before))
          (
            omega (arith, r.nonzero),
            ap Chunk.size (update_self m1 l.addr w)
                ∙ ap Chunk.size (update_ne m c.addr u l.addr cl)
                ∙ r.size_l,
            ap Chunk.next (update_self m1 l.addr w),
            (omega arith, ap Chunk.size at ∙ size, ap Chunk.next at, lone),
          ),
      Ascends-join 0 pre l (c ∷ n ∷ post) r.ascends_pre (lo, (hi, r.above)),
    )
