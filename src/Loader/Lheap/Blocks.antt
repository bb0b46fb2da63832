-- ===== src/Loader/Lheap/Blocks.antt =====
-- About lmalloc and lfree of loader/grub_loader/lheap.c: the segments as blocks of memory.
use tay_huang_os.Prelude.{
  ℕ, zero, suc, replicate, true, false, none, some, List, [], ◌∷◌, ◌==◌, ltb, ◌+◌, ◌-◌, min, max,
  ◌<◌, ◌≤◌, ◌≡◌, ◌⊎◌, refl, subst, arith, Bool-cases, Option-cases, ℕ-cases, some_injective, inl,
  inr,
}
use tay_huang_os.Loader.Lheap.{
  LhSeg, Lheap, unused, is_unused, get_segment_size, insert_lh_seg, delete_lh_seg, lmalloc, lfree,
  lh_seg_num, lheap_base, init_lheap,
}
use tay_huang_os.Loader.Lheap.Search.{
  IsSeg, Apart, AllSegs, ApartFrom, AllApart, NoEnd, NoEnd-bottom, lookup_free_mem-total,
  lookup_free_mem-found,
}

-- The table between two calls.
pub record IsHeap (h : Lheap) : Type 0 where
  pub bottom_positive : 0 < h.bottom
  pub segs : AllSegs h.bottom h.segments
  pub apart : AllApart h.segments

-- A table with no entry in use.
unused-IsHeap :
    (n bottom : ℕ)
    → AllSegs bottom (replicate n unused)
      × AllApart (replicate n unused)
      × ApartFrom unused (replicate n unused)
unused-IsHeap zero bottom = (tt, tt, tt)
unused-IsHeap (suc n) bottom =
    let (segs, apart, from) = unused-IsHeap n bottom in
    ((inl (refl, refl), segs), (from, apart), (inl refl, from))

init_lheap-IsHeap : (lheap_size : ℕ) → IsHeap (init_lheap lheap_size)
unfolding init_lheap
init_lheap-IsHeap lheap_size =
    let (segs, apart, _) = unused-IsHeap lh_seg_num lheap_base in
    record { bottom_positive = omega arith; segs = segs; apart = apart }

-- The segment of a block of `size` bytes at `mem`.
abbrev pub block : ℕ → ℕ → LhSeg
block mem size = record { start = mem; size = mem + size - 1 }

-- A place that the search found free is apart from all segments.
free-ApartFrom :
    (bottom : ℕ) (ss : List LhSeg) (mem size : ℕ)
    → 2 ≤ size
    → AllSegs bottom ss
    → NoEnd mem ss
    → get_segment_size ss mem size ≡ 0
    → ApartFrom (block mem size) ss
unfolding get_segment_size
free-ApartFrom bottom [] mem size two v n e = tt
free-ApartFrom bottom (s ∷ ss) mem size two (v, vs) (n, ns) e =
    elim (Bool-cases (ltb (max s.start mem) (min s.size (mem + size)))) [
      | inl hit ↦ let z : s.size ≡ 0 = rw hit at e in absurd (ground arith)
      | inr miss ↦ (ground arith, free-ApartFrom bottom ss mem size two vs ns (rw miss at e))
    ]

Apart-sym : (s t : LhSeg) → Apart s t → Apart t s
Apart-sym s t a = omega arith

insert_lh_seg-ApartFrom :
    (s new : LhSeg) (ss ss' : List LhSeg)
    → ApartFrom s ss
    → Apart s new
    → insert_lh_seg new ss ≡ some ss'
    → ApartFrom s ss'
unfolding insert_lh_seg
insert_lh_seg-ApartFrom s new [] ss' a b e = cc
insert_lh_seg-ApartFrom s new (t ∷ ts) ss' (a, others) b e = elim (Bool-cases (is_unused t)) [
  | inl free ↦
      let e' : some (new ∷ ts) ≡ some ss' = rw free at e in
      subst (ApartFrom s) (some_injective e') (b, others)
  | inr used ↦ elim (Option-cases (insert_lh_seg new ts)) [
    | inl none_left ↦ let e' : none ≡ some ss' = rw (used, none_left) at e in cc
    | inr (ts', found) ↦
        let e' : some (t ∷ ts') ≡ some ss' = rw (used, found) at e in
        subst (ApartFrom s) (some_injective e')
          (a, insert_lh_seg-ApartFrom s new ts ts' others b found)
  ]
]

insert_lh_seg-keeps :
    (bottom : ℕ) (new : LhSeg) (ss ss' : List LhSeg)
    → AllSegs bottom ss
    → AllApart ss
    → IsSeg bottom new
    → ApartFrom new ss
    → insert_lh_seg new ss ≡ some ss'
    → AllSegs bottom ss' × AllApart ss'
unfolding insert_lh_seg
insert_lh_seg-keeps bottom new [] ss' v a i n e = cc
insert_lh_seg-keeps bottom new (t ∷ ts) ss' (v, vs) (a, others) i (n, ns) e =
    elim (Bool-cases (is_unused t)) [
      | inl free ↦
          let e' : some (new ∷ ts) ≡ some ss' = rw free at e in
          subst (λ l. AllSegs bottom l × AllApart l) (some_injective e') ((i, vs), (ns, others))
      | inr used ↦ elim (Option-cases (insert_lh_seg new ts)) [
        | inl none_left ↦ let e' : none ≡ some ss' = rw (used, none_left) at e in cc
        | inr (ts', found) ↦
            let e' : some (t ∷ ts') ≡ some ss' = rw (used, found) at e in
            let (vs', others') = insert_lh_seg-keeps bottom new ts ts' vs others i ns found in
            subst (λ l. AllSegs bottom l × AllApart l) (some_injective e')
              (
                (v, vs'),
                (insert_lh_seg-ApartFrom t new ts ts' a (Apart-sym new t n) found, others'),
              )
      ]
    ]

delete_lh_seg-ApartFrom :
    (start : ℕ) (s : LhSeg) (ss : List LhSeg)
    → ApartFrom s ss
    → ApartFrom s (delete_lh_seg start ss)
unfolding delete_lh_seg
delete_lh_seg-ApartFrom start s [] a = tt
delete_lh_seg-ApartFrom start s (t ∷ ts) (a, others) = elim (Bool-cases (t.start == start)) [
  | inl e ↦ rw e (inr (inl refl), others)
  | inr e ↦ rw e (a, delete_lh_seg-ApartFrom start s ts others)
]

unused-ApartFrom : (ss : List LhSeg) → ApartFrom unused ss
unused-ApartFrom [] = tt
unused-ApartFrom (t ∷ ts) = (inl refl, unused-ApartFrom ts)

delete_lh_seg-keeps :
    (bottom start : ℕ) (ss : List LhSeg)
    → AllSegs bottom ss
    → AllApart ss
    → AllSegs bottom (delete_lh_seg start ss) × AllApart (delete_lh_seg start ss)
unfolding delete_lh_seg
delete_lh_seg-keeps bottom start [] v a = (tt, tt)
delete_lh_seg-keeps bottom start (t ∷ ts) (v, vs) (a, others) =
    elim (Bool-cases (t.start == start)) [
      | inl e ↦ rw e ((inl (refl, refl), vs), (unused-ApartFrom ts, others))
      | inr e ↦
          let (vs', others') = delete_lh_seg-keeps bottom start ts vs others in
          rw e ((v, vs'), (delete_lh_seg-ApartFrom start t ts a, others'))
    ]

-- Freeing any address keeps the heap.
lfree-IsHeap : (ptr : ℕ) (h : Lheap) → IsHeap h → IsHeap (lfree ptr h)
unfolding lfree
lfree-IsHeap ptr h w =
    let (v, a) = delete_lh_seg-keeps h.bottom ptr h.segments w.segs w.apart in
    record { bottom_positive = w.bottom_positive; segs = v; apart = a }

-- Allocating at least two bytes, with fuel for each address of the heap, always ends. Either it gives
-- NULL and nothing changes, or it gives an address of the heap from which a block of that size shares
-- no byte with any segment, and that block is a segment afterwards. The heap stays well formed.
pub lmalloc-IsHeap :
    (fuel size : ℕ) (h : Lheap)
    → IsHeap h
    → 2 ≤ size
    → 0 < fuel
    → h.top < h.bottom + fuel
    → (mem : ℕ) × (h' : Lheap) × (lmalloc fuel size h ≡ some (mem, h'))
      × IsHeap h'
      × (((mem ≡ 0) × (h' ≡ h))
          ⊎ ((h.bottom ≤ mem)
              × (mem < h.top)
              × ApartFrom (block mem size) h.segments
              × (insert_lh_seg (block mem size) h.segments ≡ some h'.segments)))
unfolding lmalloc
lmalloc-IsHeap fuel size h w two some_fuel enough =
    let (mem, e) = lookup_free_mem-total fuel h size h.bottom some_fuel enough in
    elim (ℕ-cases mem 0) [
      | inl z ↦
          let e0 : (mem == 0) ≡ true = ground arith in
          (0, h, rw (e, lmalloc, e0) refl, w, inl (refl, refl))
      | inr nz ↦
          let e0 : (mem == 0) ≡ false = ground arith in
          let (below, above, ends, free) =
            lookup_free_mem-found fuel h size h.bottom mem w.segs w.apart
              (NoEnd-bottom h.bottom h.segments w.bottom_positive w.segs) e nz in
          let a = free-ApartFrom h.bottom h.segments mem size two w.segs ends free in
          elim (Option-cases (insert_lh_seg (block mem size) h.segments)) [
            | inl full ↦ (0, h, rw (e, lmalloc, e0, full) refl, w, inl (refl, refl))
            | inr (segments, put) ↦
                let (v, others) =
                  insert_lh_seg-keeps h.bottom (block mem size) h.segments segments w.segs w.apart
                    (inr (above, omega arith)) a put in
                (
                  mem,
                  record h { segments = segments },
                  rw (e, lmalloc, e0, put) refl,
                  record { bottom_positive = w.bottom_positive; segs = v; apart = others },
                  inr (above, below, a, put),
                )
          ]
    ]
