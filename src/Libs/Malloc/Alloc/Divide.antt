-- ===== src/Libs/Malloc/Alloc/Divide.antt =====
-- The chunk that is taken, and what is left of it (`malloc` of libs/libkmod/memory/malloc.c).
use tay_huang_os.Prelude.{
  ℕ, Bool, true, false, List, [], ◌∷◌, ◌++◌, ◌+◌, ◌-◌, ◌≡◌, ◌≢◌, refl, sym, ap, ◌∙◌, arith, ltb,
  leb, ◌&&◌, if◌then◌else◌,
}
use tay_huang_os.Kernel.State.{update}
use tay_huang_os.Kernel.Ready.Chain.{update_self, update_ne}
use tay_huang_os.Libs.Malloc.{
  Chunk, Chunks, chunk_header, heapunit_sz, heapdiv_min_sz, set_next, take_chunk,
}
use tay_huang_os.Libs.Malloc.Links.{
  Area, first_or, Linked, Ascends, Linked-append, Linked-update, Ascends-Fresh, Ascends-above,
  Around,
}

-- What is left of a chunk that is divided. It begins a header behind the end of the part that is given.
abbrev pub left_over : ℕ → Area → Area
left_over fixed c = record { addr = c.addr + chunk_header + fixed; size = c.size - fixed }

abbrev pub is_divided : ℕ → Area → Bool
is_divided fixed c = ltb heapdiv_min_sz c.size && leb heapunit_sz (c.size - fixed)

-- The free chunks in the place of the one that is given.
abbrev pub in_place : ℕ → Area → List Area
in_place fixed c = if is_divided fixed c then left_over fixed c ∷ [] else []

abbrev pub given_size : ℕ → Area → ℕ
given_size fixed c = if is_divided fixed c then fixed else c.size

pub take_chunk_lem :
    (m : Chunks) (fixed last next : ℕ) (c : Area)
    → (m last).next ≡ c.addr
    → (m c.addr).size ≡ c.size
    → (m c.addr).next ≡ next
    → let n = left_over fixed c in
      take_chunk fixed last m ≡ (
        if is_divided fixed c
        then update
            (set_next last n.addr
              (update m n.addr (record { size = n.size; used = false; next = next })))
            c.addr
            (record { size = fixed; used = true; next = 0 })
        else update (set_next last next m) c.addr (record { size = c.size; used = true; next = 0 }))
unfolding take_chunk
take_chunk_lem m fixed last next c e s n = rw (e, s, n) refl

module _ (m : Chunks) (fixed : ℕ) (pre : List Area) (l c : Area) (post : List Area)
    (r : Around m pre l c post) where
  -- Without a division the chunk before the given one is linked to the one behind it.
  pub whole-Linked :
      (v : Chunk)
      → Linked (update (set_next l.addr (first_or 0 post) m) c.addr v) (pre ++ (l ∷ post)) 0
  whole-Linked v =
      let w = record (m l.addr) { next = first_or 0 post } in
      let ne : c.addr ≢ l.addr = omega (arith, r.order) in
      let at = update_ne (update m l.addr w) c.addr v l.addr ne ∙ update_self m l.addr w in
      Linked-append (update (update m l.addr w) c.addr v) pre (l ∷ post) 0
        (Linked-update (update m l.addr w) c.addr v pre l.addr r.fresh_c
          (Linked-update m l.addr w pre l.addr r.fresh_l r.before))
        (
          omega (arith, r.nonzero),
          ap Chunk.size at ∙ r.size_l,
          ap Chunk.next at,
          Linked-update (update m l.addr w) c.addr v post 0
              (Ascends-Fresh c.addr c.addr post (omega arith) r.above)
              (Linked-update m l.addr w post 0
                (Ascends-Fresh c.addr l.addr post (omega (arith, r.order)) r.above) r.behind),
        )

  -- With one, what is left over stands between them.
  pub divided-Linked :
      (v : Chunk)
      → Ascends (left_over fixed c).addr post
      → let n = left_over fixed c in
        Linked
          (update
            (set_next l.addr n.addr
              (update m n.addr (record { size = n.size; used = false; next = first_or 0 post })))
            c.addr
            v)
          (pre ++ (l ∷ n ∷ post))
          0
  divided-Linked v up =
      let n = left_over fixed c in
      let u : Chunk = record { size = n.size; used = false; next = first_or 0 post } in
      let m1 = update m n.addr u in
      let w = record (m1 l.addr) { next = n.addr } in
      let m2 = update m1 l.addr w in
      let cl : c.addr ≢ l.addr = omega (arith, r.order) in
      let nl : n.addr ≢ l.addr = omega (arith, r.order) in
      let cn : c.addr ≢ n.addr = omega arith in
      let new = Ascends-above 0 pre l n.addr r.ascends_pre (omega (arith, r.order)) in
      let at = update_ne m2 c.addr v l.addr cl ∙ update_self m1 l.addr w in
      let an =
        update_ne m2 c.addr v n.addr cn
        ∙ update_ne m1 l.addr w n.addr (λ e. nl (sym e))
        ∙ update_self m n.addr u in
      Linked-append (update m2 c.addr v) pre (l ∷ n ∷ post) 0
        (Linked-update m2 c.addr v pre l.addr r.fresh_c (
          Linked-update m1 l.addr w pre l.addr r.fresh_l
            (Linked-update m n.addr u pre l.addr new r.before)))
        (
          omega (arith, r.nonzero),
          ap Chunk.size at ∙ ap Chunk.size (update_ne m n.addr u l.addr nl) ∙ r.size_l,
          ap Chunk.next at,
          (
            omega arith,
            ap Chunk.size an,
            ap Chunk.next an,
            Linked-update m2 c.addr v post 0
                (Ascends-Fresh c.addr c.addr post (omega arith) r.above)
                (Linked-update m1 l.addr w post 0
                  (Ascends-Fresh c.addr l.addr post (omega (arith, r.order)) r.above)
                  (Linked-update m n.addr u post 0
                    (Ascends-Fresh n.addr n.addr post (omega arith) up) r.behind)),
          ),
        )
