-- ===== src/Kernel/Kheap/Alloc/Find.antt =====
-- The search for a segment with room (`kmalloc` of kernel/memory/kheap.c).
use tay_huang_os.Prelude.{
  ℕ, zero, suc, Bool, true, false, not, some, List, [], ◌∷◌, ◌++◌, ◌<◌, ◌≡◌, ◌⊎◌, refl, ap, ◌∙◌,
  arith, Bool-cases, inl, inr, ◌==◌, ltb, ◌&&◌, ◌||◌, if◌then◌else◌, length,
}
use tay_huang_os.Kernel.Kheap.{Segs, find_seg}
use tay_huang_os.Kernel.Kheap.Blocks.{Block}
use tay_huang_os.Kernel.Kheap.Links.{info, Linked}

-- The block is too small or used.
abbrev pub no_room : ℕ → Block → Bool
no_room fixed x = ltb x.size fixed || x.used

abbrev pub AllNoRoom : ℕ → List Block → Type 0
AllNoRoom fixed [] = Unit
AllNoRoom fixed (x ∷ xs) = (no_room fixed x ≡ true) × AllNoRoom fixed xs

-- What the search gives: a first block with room, or the last of blocks without.
pub record Search (m : Segs) (fuel fixed : ℕ) (x : Block) (xs : List Block) : Type 0 where
  pub pre : List Block
  pub at : Block
  pub post : List Block
  pub parts : x ∷ xs ≡ pre ++ (at ∷ post)
  pub result : find_seg fuel fixed x.addr m ≡ some at.addr
  pub none_before : AllNoRoom fixed pre
  pub outcome : (no_room fixed at ≡ false) ⊎ ((no_room fixed at ≡ true) × (post ≡ []))

pub find_seg_lem :
    (m : Segs) (fuel fixed last : ℕ) (x : Block) (next : ℕ)
    → m x.addr ≡ info x last next
    → find_seg (suc fuel) fixed x.addr m
      ≡ (if no_room fixed x && not (next == 0) then find_seg fuel fixed next m else some x.addr)
unfolding find_seg
find_seg_lem m fuel fixed last x next e = rw e refl

pub find_seg-Search :
    (m : Segs) (fuel fixed last : ℕ) (x : Block) (xs : List Block)
    → Linked m last (x ∷ xs) 0
    → length xs < fuel
    → Search m fuel fixed x xs
find_seg-Search m zero fixed last x xs l h = absurd (omega arith)
find_seg-Search m (suc fuel) fixed last x [] (z, e, l) h =
    let eq = find_seg_lem m fuel fixed last x 0 e in
    record {
      pre = [];
      at = x;
      post = [];
      parts = refl;
      result = eq ∙ ground arith;
      none_before = tt;
      outcome = elim (Bool-cases (no_room fixed x)) [ inl t ↦ inr (t, refl) | inr f ↦ inl f ];
    }
find_seg-Search m (suc fuel) fixed last x (y ∷ ys) (z, e, l) h =
    let eq = find_seg_lem m fuel fixed last x y.addr e in
    elim (Bool-cases (no_room fixed x)) [
      | inl t ↦
          let s = find_seg-Search m fuel fixed x.addr y ys l (omega arith) in
          let nz : (y.addr == 0) ≡ false = ground (arith, l.0) in
          record {
            pre = x ∷ s.pre;
            at = s.at;
            post = s.post;
            parts = ap (λ q. x ∷ q) s.parts;
            result = eq ∙ rw (t, nz) s.result;
            none_before = (t, s.none_before);
            outcome = s.outcome;
          }
      | inr f ↦ record {
        pre = [];
        at = x;
        post = y ∷ ys;
        parts = refl;
        result = eq ∙ rw f refl;
        none_before = tt;
        outcome = inl f;
      }
    ]
