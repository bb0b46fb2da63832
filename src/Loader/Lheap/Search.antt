-- ===== src/Loader/Lheap/Search.antt =====
-- About __lookup_free_mem of loader/grub_loader/lheap.c: its end, and what it finds.
use tay_huang_os.Prelude.{
  ℕ, zero, suc, some, List, [], ◌∷◌, ◌==◌, ltb, ◌+◌, min, max, ◌<◌, ◌≤◌, ◌≡◌, ◌≢◌, ◌⊎◌, refl, sym,
  subst, ◌∙◌, arith, Bool-cases, inl, inr,
}
use tay_huang_os.Loader.Lheap.{LhSeg, Lheap, get_segment_size, lookup_free_mem}

-- A segment that was found reaches past the address, so the search moves on.
get_segment_size-ahead :
    (ss : List LhSeg) (base size : ℕ)
    → (get_segment_size ss base size ≡ 0) ⊎ (base < get_segment_size ss base size)
unfolding get_segment_size
get_segment_size-ahead [] base size = inl refl
get_segment_size-ahead (s ∷ ss) base size = ground (arith, get_segment_size-ahead ss base size)

-- Fuel for each address below the top is enough.
pub lookup_free_mem-total :
    (fuel : ℕ) (h : Lheap) (size i : ℕ)
    → 0 < fuel
    → h.top < i + fuel
    → (mem : ℕ) × (lookup_free_mem fuel h size i ≡ some mem)
unfolding lookup_free_mem
lookup_free_mem-total zero h size i some_fuel enough = absurd (omega arith)
lookup_free_mem-total (suc fuel) h size i some_fuel enough = elim (Bool-cases (ltb i h.top)) [
  | inr past ↦ (0, rw past refl)
  | inl more ↦
      let sz = get_segment_size h.segments i size in
      elim (Bool-cases (sz == 0)) [
        | inl free ↦ (i, rw (more, free) refl)
        | inr taken ↦
            let ahead : i < sz = ground (arith, get_segment_size-ahead h.segments i size) in
            let (mem, e) =
              lookup_free_mem-total fuel h size (sz + 1) (ground arith) (omega arith) in
            (mem, rw (more, taken) e)
      ]
]

-- A segment is unused, or lies in the heap and has at least two bytes.
abbrev pub IsSeg : ℕ → LhSeg → Type 0
IsSeg bottom s = ((s.start ≡ 0) × (s.size ≡ 0)) ⊎ ((bottom ≤ s.start) × (s.start < s.size))

-- Two segments of which one is unused, or that share no byte.
abbrev pub Apart : LhSeg → LhSeg → Type 0
Apart s t = (s.size ≡ 0) ⊎ ((t.size ≡ 0) ⊎ ((s.size < t.start) ⊎ (t.size < s.start)))

abbrev pub AllSegs : ℕ → List LhSeg → Type 0
AllSegs bottom [] = Unit
AllSegs bottom (s ∷ ss) = IsSeg bottom s × AllSegs bottom ss

abbrev pub ApartFrom : LhSeg → List LhSeg → Type 0
ApartFrom s [] = Unit
ApartFrom s (t ∷ ts) = Apart s t × ApartFrom s ts

abbrev pub AllApart : List LhSeg → Type 0
AllApart [] = Unit
AllApart (s ∷ ss) = ApartFrom s ss × AllApart ss

-- No segment's last byte is at `e`.
abbrev pub NoEnd : ℕ → List LhSeg → Type 0
NoEnd e [] = Unit
NoEnd e (s ∷ ss) = (s.size ≢ e) × NoEnd e ss

pub NoEnd-bottom : (bottom : ℕ) (ss : List LhSeg) → 0 < bottom → AllSegs bottom ss → NoEnd bottom ss
NoEnd-bottom bottom [] h v = tt
NoEnd-bottom bottom (s ∷ ss) h (v, vs) = (omega arith, NoEnd-bottom bottom ss h vs)

NoEnd-ApartFrom :
    (bottom : ℕ) (s : LhSeg) (ss : List LhSeg)
    → IsSeg bottom s
    → AllSegs bottom ss
    → ApartFrom s ss
    → s.size ≢ 0
    → NoEnd (s.size + 1) ss
NoEnd-ApartFrom bottom s [] u v a n = tt
NoEnd-ApartFrom bottom s (t ∷ ts) u (v, vs) (a, others) n =
    (omega arith, NoEnd-ApartFrom bottom s ts u vs others n)

-- The end that was found is not just before the end of a segment apart from all of them.
found-apart :
    (bottom : ℕ) (s : LhSeg) (ss : List LhSeg) (base size : ℕ)
    → IsSeg bottom s
    → AllSegs bottom ss
    → ApartFrom s ss
    → get_segment_size ss base size ≢ 0
    → s.size ≢ get_segment_size ss base size + 1
unfolding get_segment_size
found-apart bottom s [] base size u v a n = absurd (n refl)
found-apart bottom s (t ∷ ts) base size u (v, vs) (a, others) n =
    elim (Bool-cases (ltb (max t.start base) (min t.size (base + size)))) [
      | inl hit ↦ rw hit (ground arith)
      | inr miss ↦ rw miss (found-apart bottom s ts base size u vs others (rw miss at n))
    ]

-- The search never comes to the last byte of a segment.
get_segment_size-NoEnd :
    (bottom : ℕ) (ss : List LhSeg) (base size : ℕ)
    → AllSegs bottom ss
    → AllApart ss
    → get_segment_size ss base size ≢ 0
    → NoEnd (get_segment_size ss base size + 1) ss
unfolding get_segment_size
get_segment_size-NoEnd bottom [] base size v a n = tt
get_segment_size-NoEnd bottom (s ∷ ss) base size (v, vs) (a, others) n =
    elim (Bool-cases (ltb (max s.start base) (min s.size (base + size)))) [
      | inl hit ↦
          let e : get_segment_size (s ∷ ss) base size ≡ s.size = rw hit refl in
          subst (λ q. NoEnd (q + 1) (s ∷ ss)) (sym e)
            (omega arith, NoEnd-ApartFrom bottom s ss v vs a (λ z. n (e ∙ z)))
      | inr miss ↦
          let e : get_segment_size (s ∷ ss) base size ≡ get_segment_size ss base size =
            rw miss refl in
          let n' : get_segment_size ss base size ≢ 0 = λ z. n (e ∙ z) in
          subst (λ q. NoEnd (q + 1) (s ∷ ss)) (sym e)
            (
              found-apart bottom s ss base size v vs a n',
              get_segment_size-NoEnd bottom ss base size vs others n',
            )
    ]

-- What the search gives, unless it is NULL: an address below the top from which a block meets none of
-- the segments.
pub lookup_free_mem-found :
    (fuel : ℕ) (h : Lheap) (size i mem : ℕ)
    → AllSegs h.bottom h.segments
    → AllApart h.segments
    → NoEnd i h.segments
    → lookup_free_mem fuel h size i ≡ some mem
    → mem ≢ 0
    → (mem < h.top) × (i ≤ mem) × NoEnd mem h.segments × (get_segment_size h.segments mem size ≡ 0)
unfolding lookup_free_mem
lookup_free_mem-found zero h size i mem v a n e nz = cc
lookup_free_mem-found (suc fuel) h size i mem v a n e nz = elim (Bool-cases (ltb i h.top)) [
  | inr past ↦ absurd (nz (ground arith))
  | inl more ↦
      let sz = get_segment_size h.segments i size in
      elim (Bool-cases (sz == 0)) [
        | inl free ↦
            let e' : i ≡ mem = ground arith in
            (
              ground arith,
              omega arith,
              subst (λ q. NoEnd q h.segments) e' n,
              subst (λ q. get_segment_size h.segments q size ≡ 0) e' (ground arith),
            )
        | inr taken ↦
            let ahead = get_segment_size-ahead h.segments i size in
            let nz' : sz ≢ 0 = ground arith in
            let e' : lookup_free_mem fuel h size (sz + 1) ≡ some mem = rw (more, taken) at e in
            let (below, above, ends, free) =
              lookup_free_mem-found fuel h size (sz + 1) mem v a
                (get_segment_size-NoEnd h.bottom h.segments i size v a nz') e' nz in
            (below, omega (arith, ahead), ends, free)
      ]
]
