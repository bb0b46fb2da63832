-- ===== src/Libs/Malloc/Alloc/Search.antt =====
-- The search for a free chunk with room (`malloc` of libs/libkmod/memory/malloc.c).
use tay_huang_os.Prelude.{
  ℕ, zero, suc, false, not, some, List, [], ◌∷◌, ◌++◌, ◌<◌, ◌≤◌, ◌≡◌, ◌⊎◌, refl, ap, ◌∙◌, subst,
  arith, Bool-cases, inl, inr, ◌==◌, ltb, ◌&&◌, if◌then◌else◌, length, drop,
}
use tay_huang_os.Libs.Malloc.{Chunks, find_chunk}
use tay_huang_os.Libs.Malloc.Links.{Area, Linked}

abbrev pub AllSmall : ℕ → List Area → Type 0
AllSmall fixed [] = Unit
AllSmall fixed (x ∷ xs) = (x.size < fixed) × AllSmall fixed xs

-- The first chunk behind `x` that is large enough, with the one before it.
pub record First (fixed : ℕ) (x : Area) (xs : List Area) : Type 0 where
  pub pre : List Area
  pub before : Area
  pub chunk : Area
  pub post : List Area
  pub parts : x ∷ xs ≡ pre ++ (before ∷ chunk ∷ post)
  pub small : AllSmall fixed (drop 1 (pre ++ (before ∷ [])))
  pub fits : fixed ≤ chunk.size

pub find_chunk_lem :
    (m : Chunks) (fuel fixed : ℕ) (x : Area) (next size : ℕ)
    → (m x.addr).next ≡ next
    → (m next).size ≡ size
    → find_chunk (suc fuel) fixed x.addr m
      ≡ (if not (next == 0) && ltb size fixed then find_chunk fuel fixed next m else some x.addr)
unfolding find_chunk
find_chunk_lem m fuel fixed x next size e s = rw (e, s) refl

pub small-all :
    (fixed : ℕ) (pre : List Area) (b : Area) (post : List Area) (y : Area) (ys : List Area)
    → y ∷ ys ≡ pre ++ (b ∷ post)
    → y.size < fixed
    → AllSmall fixed (drop 1 (pre ++ (b ∷ [])))
    → AllSmall fixed (pre ++ (b ∷ []))
small-all fixed [] b post y ys e h a =
    let same : y ≡ b = cc in (subst (λ z. z.size < fixed) same h, tt)
small-all fixed (p ∷ pre) b post y ys e h a =
    let same : y ≡ p = cc in (subst (λ z. z.size < fixed) same h, a)

pub find_chunk-First :
    (m : Chunks) (fuel fixed : ℕ) (x : Area) (xs : List Area)
    → Linked m (x ∷ xs) 0
    → length xs < fuel
    → (last : ℕ) × (find_chunk fuel fixed x.addr m ≡ some last)
      × ((AllSmall fixed xs × ((m last).next ≡ 0))
          ⊎ ((f : First fixed x xs) × (f.before.addr ≡ last)))
find_chunk-First m zero fixed x xs l h = absurd (omega arith)
find_chunk-First m (suc fuel) fixed x [] (z, s, e, l) h =
    (x.addr, find_chunk_lem m fuel fixed x 0 (m 0).size e refl ∙ refl, inl (tt, e))
find_chunk-First m (suc fuel) fixed x (y ∷ ys) (z, s, e, l) h =
    let eq = find_chunk_lem m fuel fixed x y.addr y.size e l.1 in
    let nz : (y.addr == 0) ≡ false = ground (arith, l.0) in
    elim (Bool-cases (ltb y.size fixed)) [
      | inl small ↦
          let (last, found, r) = find_chunk-First m fuel fixed y ys l (omega arith) in
          let y_small : y.size < fixed = ground arith in
          (
            last,
            eq ∙ rw (nz, small) found,
            elim r [
              | inl (others, end) ↦ inl ((y_small, others), end)
              | inr (f, at) ↦ inr (
                record {
                  pre = x ∷ f.pre;
                  before = f.before;
                  chunk = f.chunk;
                  post = f.post;
                  parts = ap (λ l. x ∷ l) f.parts;
                  small =
                      small-all fixed f.pre f.before (f.chunk ∷ f.post) y ys f.parts y_small
                        f.small;
                  fits = f.fits;
                },
                at,
              )
            ],
          )
      | inr big ↦ (
        x.addr,
        eq ∙ rw (nz, big) refl,
        inr (
          record {
            pre = [];
            before = x;
            chunk = y;
            post = ys;
            parts = refl;
            small = tt;
            fits = ground arith;
          },
          refl,
        ),
      )
    ]
