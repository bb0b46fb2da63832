-- ===== src/Libs/Malloc/Free/Position.antt =====
-- The place of a freed chunk in the list (`free` of libs/libkmod/memory/malloc.c).
use tay_huang_os.Prelude.{
  ℕ, zero, suc, false, not, some, List, [], ◌∷◌, ◌++◌, ◌<◌, ◌≡◌, ◌≢◌, ◌⊎◌, refl, ap, ◌∙◌, arith,
  Bool-cases, inl, inr, ◌==◌, ltb, lt→ltb, ltb→lt, ◌&&◌, if◌then◌else◌, length,
}
use tay_huang_os.Libs.Malloc.{Chunks, find_place}
use tay_huang_os.Libs.Malloc.Links.{Area, Linked, Fresh}

-- All chunks of the list lie below the address.
abbrev pub AllBelow : ℕ → List Area → Type 0
AllBelow a [] = Unit
AllBelow a (x ∷ xs) = (x.addr < a) × AllBelow a xs

-- The two chunks of the list between which the address lies.
pub record Place (a : ℕ) (x : Area) (xs : List Area) : Type 0 where
  pub pre : List Area
  pub before : Area
  pub after : Area
  pub post : List Area
  pub parts : x ∷ xs ≡ pre ++ (before ∷ after ∷ post)
  pub below : before.addr < a
  pub above : a < after.addr

pub find_place_lem :
    (m : Chunks) (fuel a : ℕ) (x : Area) (next : ℕ)
    → (m x.addr).next ≡ next
    → find_place (suc fuel) a x.addr m ≡ (
        if not (x.addr == 0) && not (ltb x.addr a && ltb a next)
        then find_place fuel a next m
        else some x.addr)
unfolding find_place
find_place_lem m fuel a x next e = rw e refl

pub find_place-null : (m : Chunks) (fuel a : ℕ) → find_place (suc fuel) a 0 m ≡ some 0
unfolding find_place
find_place-null m fuel a = refl

pub ne-zero : (a : ℕ) → a ≢ 0 → (a == 0) ≡ false
ne-zero a h = ground arith

pub lt_of_not_ltb : (a b : ℕ) → a ≢ b → ltb a b ≡ false → b < a
lt_of_not_ltb a b h e = ground arith

pub ltb-zero : (a : ℕ) → ltb a 0 ≡ false
ltb-zero a = ground arith

pub find_place-Place :
    (m : Chunks) (fuel a : ℕ) (x : Area) (xs : List Area)
    → Linked m (x ∷ xs) 0
    → Fresh a xs
    → x.addr < a
    → suc (length xs) < fuel
    → (AllBelow a xs × (find_place fuel a x.addr m ≡ some 0))
      ⊎ ((p : Place a x xs) × (find_place fuel a x.addr m ≡ some p.before.addr))
find_place-Place m zero a x xs l f b h = absurd (omega arith)
find_place-Place m (suc zero) a x xs l f b h = absurd (omega arith)
find_place-Place m (suc (suc fuel)) a x [] (z, s, e, l) f b h =
    let nz = ne-zero x.addr z in
    let up = ltb-zero a in
    let lo = lt→ltb x.addr a b in
    inl (tt, find_place_lem m (suc fuel) a x 0 e ∙ rw (nz, up, lo) (find_place-null m fuel a))
find_place-Place m (suc (suc fuel)) a x (y ∷ ys) (z, s, e, l) (n, f) b h =
    let nz = ne-zero x.addr z in
    let lo = lt→ltb x.addr a b in
    let eq = find_place_lem m (suc fuel) a x y.addr e in
    elim (Bool-cases (ltb a y.addr)) [
      | inl up ↦ inr (
        record {
          pre = [];
          before = x;
          after = y;
          post = ys;
          parts = refl;
          below = b;
          above = ltb→lt a y.addr up;
        },
        eq ∙ rw (nz, up, lo) refl,
      )
      | inr down ↦
          let step : find_place (suc (suc fuel)) a x.addr m ≡ find_place (suc fuel) a y.addr m =
            eq ∙ rw (nz, down, lo) refl in
          let y_below = lt_of_not_ltb a y.addr n down in
          elim (find_place-Place m (suc fuel) a y ys l f y_below (omega arith)) [
            | inl (all, found) ↦ inl ((y_below, all), step ∙ found)
            | inr (p, found) ↦ inr (
              record {
                pre = x ∷ p.pre;
                before = p.before;
                after = p.after;
                post = p.post;
                parts = ap (λ q. x ∷ q) p.parts;
                below = p.below;
                above = p.above;
              },
              step ∙ found,
            )
          ]
    ]
